-- ===== src/Locks/Workers.antt =====
-- Threads that run the handlers of server/src/rooms: none waits for another for ever, as long as
-- nobody leaves a room while a file is shared in it.
use canchat.Base.{
  arith, ◌⊎◌, ℕ, ◌+◌, Bool, true, false, Option, none, some, List, [], ◌∷◌, ◌++◌, All, ◌≡◌, length,
  map, if◌then◌else◌,
}
use canchat.Locks.{Thread, acts_left, run_schedule, IsFinished, Act, data_lock}
use canchat.Locks.Methods.{
  is_empty_acts, mutex, each, take_chunk_acts, subscribe_acts, provide_file_chunk_acts,
  send_to_all_acts, add_history_message_acts, get_file_by_id_acts, share_file_acts,
  remove_peer_by_id_acts, welcome_peer_acts, onboard_peer_acts, get_or_create_room_acts,
  handle_files_message_acts, handle_file_chunk_message_acts, get_file_acts,
}
use canchat.Locks.Tasks.{
  Task, connects, disconnects, says, is_typing, shares, uploads, requests_file, reads_chunk,
  waits_for_chunk, joins_wait_list, drops_download, pings, samples, shows_statistics, task_acts,
  worker,
}
use canchat.Locks.Order.{IsOrderedThread, Fits, Fits-nil, Fits-append, Fits-each, Fits-IsOrdered}
use canchat.Locks.Ranks.{
  guard_rank-lt, rank, single-Fits, weaken, send_to_all_acts-Fits, take_chunk_acts-Fits,
  subscribe_acts-Fits, provide_file_chunk_acts-Fits, add_history_message_acts-Fits,
  get_file_by_id_acts-Fits, welcome_peer_acts-Fits, share_file_acts-Fits,
  remove_peer_by_id_acts-Fits, get_or_create_room_acts-Fits, ping_round_acts-Fits,
}
use canchat.Locks.Progress.{
  Moves, ordered-Moves, acts_left-run_schedule, run_schedule-IsOrderedThread,
}

-- A task that fits rooms in which files are shared (`true`) and rooms that peers leave (`false`).
abbrev pub IsApart : (ℕ → Bool) → Task → Type 0
IsApart sharing (shares r offers) = sharing r ≡ true
IsApart sharing (disconnects r files empty) = sharing r ≡ false
IsApart sharing task = Unit

module _ (sharing : ℕ → Bool) where
  onboard_peer_acts-Fits : (kept : Bool) (r : ℕ) → Fits (rank sharing) 1 (onboard_peer_acts kept r)
  onboard_peer_acts-Fits kept r =
      Fits-append (rank sharing) 1 (send_to_all_acts r) (add_history_message_acts kept r)
        (send_to_all_acts-Fits sharing r) (add_history_message_acts-Fits sharing kept r)

  -- First the map of the rooms, then what ranks above it.
  rooms_first :
      (body : List Act)
      → Fits (rank sharing) 1 body
      → Fits (rank sharing) 0 (get_or_create_room_acts ++ body)
  rooms_first body p =
      Fits-append (rank sharing) 0 get_or_create_room_acts body
        (get_or_create_room_acts-Fits sharing) (weaken sharing 0 1 body (omega arith) p)

  empty_room-Fits :
      (empty : Bool) → Fits (rank sharing) 0 (if empty then get_or_create_room_acts else [])
  empty_room-Fits true = get_or_create_room_acts-Fits sharing
  empty_room-Fits false = Fits-nil (rank sharing) 0

  offers-Fits :
      (r : ℕ) (offers : List ℕ)
      → sharing r ≡ true
      → Fits (rank sharing) 1 (each (λ _. share_file_acts r) offers)
  offers-Fits r offers h =
      Fits-each (rank sharing) 1 (λ _. share_file_acts r) offers
        (λ _. share_file_acts-Fits sharing r h)

  target-Fits :
      (r : ℕ) (target : Option (ℕ × Option ℕ))
      → Fits (rank sharing) 1 (handle_file_chunk_message_acts r target)
  target-Fits r none = get_file_by_id_acts-Fits sharing r
  target-Fits r (some (f, s)) =
      Fits-append (rank sharing) 1 (get_file_by_id_acts r) (provide_file_chunk_acts f s)
        (get_file_by_id_acts-Fits sharing r)
        (weaken sharing 1 3 (provide_file_chunk_acts f s) (omega arith)
          (provide_file_chunk_acts-Fits sharing f s))

  get_file_acts-Fits :
      (target : Option (ℕ × Option ℕ)) → Fits (rank sharing) 0 (get_file_acts target)
  get_file_acts-Fits none = get_or_create_room_acts-Fits sharing
  get_file_acts-Fits (some (r, none)) =
      rooms_first (get_file_by_id_acts r) (get_file_by_id_acts-Fits sharing r)
  get_file_acts-Fits (some (r, some f)) = rooms_first (get_file_by_id_acts r ++ subscribe_acts f) (
      Fits-append (rank sharing) 1 (get_file_by_id_acts r) (subscribe_acts f)
        (get_file_by_id_acts-Fits sharing r)
        (weaken sharing 1 3 (subscribe_acts f) (omega arith) (subscribe_acts-Fits sharing f)))

  task_acts-Fits :
      (kept : Bool) (task : Task)
      → IsApart sharing task
      → Fits (rank sharing) 0 (task_acts kept task)
  task_acts-Fits kept (connects r) h =
      rooms_first (welcome_peer_acts kept r ++ (send_to_all_acts r ++ onboard_peer_acts kept r)) (
        Fits-append (rank sharing) 1 (welcome_peer_acts kept r)
          (send_to_all_acts r ++ onboard_peer_acts kept r) (welcome_peer_acts-Fits sharing kept r)
          (Fits-append (rank sharing) 1 (send_to_all_acts r) (onboard_peer_acts kept r)
            (send_to_all_acts-Fits sharing r) (onboard_peer_acts-Fits kept r)))
  task_acts-Fits kept (disconnects r files empty) h =
      Fits-append (rank sharing) 0 (remove_peer_by_id_acts r files)
        (welcome_peer_acts kept r
          ++ (is_empty_acts r ++ (if empty then get_or_create_room_acts else [])))
        (weaken sharing 0 1 (remove_peer_by_id_acts r files) (omega arith)
          (remove_peer_by_id_acts-Fits sharing r files h))
        (Fits-append (rank sharing) 0 (welcome_peer_acts kept r)
          (is_empty_acts r ++ (if empty then get_or_create_room_acts else []))
          (weaken sharing 0 1 (welcome_peer_acts kept r) (omega arith)
            (welcome_peer_acts-Fits sharing kept r))
          (empty_room-Fits empty))
  task_acts-Fits kept (says r) h =
      weaken sharing 0 1 (welcome_peer_acts kept r) (omega arith)
        (welcome_peer_acts-Fits sharing kept r)
  task_acts-Fits kept (is_typing r) h =
      weaken sharing 0 1 (send_to_all_acts r) (omega arith) (send_to_all_acts-Fits sharing r)
  task_acts-Fits kept (shares r offers) h =
      weaken sharing 0 1 (handle_files_message_acts kept r offers) (omega arith) (
        Fits-append (rank sharing) 1 (each (λ _. share_file_acts r) offers)
          (welcome_peer_acts kept r) (offers-Fits r offers h)
          (welcome_peer_acts-Fits sharing kept r))
  task_acts-Fits kept (uploads r target) h =
      weaken sharing 0 1 (handle_file_chunk_message_acts r target) (omega arith)
        (target-Fits r target)
  task_acts-Fits kept (requests_file target) h = get_file_acts-Fits target
  task_acts-Fits kept (reads_chunk s) h =
      weaken sharing 0 4 (take_chunk_acts s) (omega arith) (take_chunk_acts-Fits sharing s)
  task_acts-Fits kept (waits_for_chunk s) h =
      weaken sharing 0 4 (take_chunk_acts s) (omega arith) (take_chunk_acts-Fits sharing s)
  task_acts-Fits kept (joins_wait_list s) h =
      weaken sharing 0 4 (take_chunk_acts s) (omega arith) (take_chunk_acts-Fits sharing s)
  task_acts-Fits kept (drops_download f) h =
      weaken sharing 0 3 (subscribe_acts f) (omega arith) (subscribe_acts-Fits sharing f)
  task_acts-Fits kept (pings rooms) h = ping_round_acts-Fits sharing rooms
  task_acts-Fits kept samples h = single-Fits sharing 0 (mutex data_lock 0) (omega arith)
  task_acts-Fits kept shows_statistics h = single-Fits sharing 0 (mutex data_lock 0) (omega arith)

  tasks-Fits :
      (kept : Bool) (tasks : List Task)
      → All (IsApart sharing) tasks
      → Fits (rank sharing) 0 (each (task_acts kept) tasks)
  tasks-Fits kept [] h = Fits-nil (rank sharing) 0
  tasks-Fits kept (task ∷ tasks) h =
      Fits-append (rank sharing) 0 (task_acts kept task) (each (task_acts kept) tasks)
        (task_acts-Fits kept task h.0) (tasks-Fits kept tasks h.1)

  workers-IsOrderedThread :
      (kept : Bool) (work : List (List Task))
      → All (All (IsApart sharing)) work
      → All (IsOrderedThread (rank sharing)) (map (worker kept) work)
  workers-IsOrderedThread kept [] h = tt
  workers-IsOrderedThread kept (tasks ∷ work) h = (
    Fits-IsOrdered (rank sharing) (each (task_acts kept) tasks) (tasks-Fits kept tasks h.0),
    workers-IsOrderedThread kept work h.1,
  )

-- Let any number of threads each run a list of the server's handlers, and let no room both have
-- files shared in it and be left by a peer meanwhile. Then whatever order the threads take turns in,
-- they do not block each other: at each moment all are done, or one can go on, and each turn uses up
-- one of the locks and unlocks there were to do.
pub workers-Moves :
    (sharing : ℕ → Bool) (kept : Bool) (work : List (List Task)) (σ : List ℕ) (ts : List Thread)
    → All (All (IsApart sharing)) work
    → run_schedule σ (map (worker kept) work) ≡ some ts
    → (All IsFinished ts ⊎ Moves ts)
      × (length σ + acts_left ts ≡ acts_left (map (worker kept) work))
workers-Moves sharing kept work σ ts h e = (
  ordered-Moves (rank sharing) 5 ts (λ m. guard_rank-lt (sharing m.object) m.guard)
      (run_schedule-IsOrderedThread (rank sharing) σ (map (worker kept) work) ts e
        (workers-IsOrderedThread sharing kept work h)),
  acts_left-run_schedule σ (map (worker kept) work) ts e,
)
