-- ===== src/Locks/Ranks.antt =====
-- A rank of the mutexes, and the methods of server/src/rooms that keep to it. It depends on whether
-- files are shared in a room or peers leave it.
use canchat.Base.{
  [], ◌∷◌, ◌++◌, arith, ℕ, suc, ◌<◌, ◌≤◌, Bool, true, false, Option, none, some, List, [], ◌≡◌,
  if◌then◌else◌,
}
use canchat.Locks.{
  access, rooms_mutex, peer_by_id_lock, file_by_id_lock, history_lock, subscribers_lock, chunk_lock,
  data_lock, Guard, Mutex, Act,
}
use canchat.Locks.Methods.{
  remove_file_acts, single, mutex, guarded, each, take_chunk_acts, subscribe_acts,
  provide_file_chunk_acts, clear_subscribers_acts, send_to_all_acts, add_history_message_acts,
  get_file_by_id_acts, share_file_acts, remove_peer_by_id_acts, welcome_peer_acts,
  get_or_create_room_acts, ping_round_acts,
}
use canchat.Locks.Order.{Below-mono, Fits, Fits-nil, Fits-append, Fits-guarded, Fits-each}

-- Rooms in which files are shared take the lock of the files first, all others that of the peers.
abbrev guard_rank : Bool → Guard → ℕ
guard_rank sharing rooms_mutex = 0
guard_rank sharing file_by_id_lock = if sharing then 1 else 2
guard_rank sharing peer_by_id_lock = if sharing then 2 else 1
guard_rank sharing history_lock = 1
guard_rank sharing data_lock = 1
guard_rank sharing subscribers_lock = 3
guard_rank sharing chunk_lock = 4

pub guard_rank-lt : (sharing : Bool) (g : Guard) → guard_rank sharing g < 5
guard_rank-lt sharing rooms_mutex = omega arith
guard_rank-lt sharing file_by_id_lock = ground arith
guard_rank-lt sharing peer_by_id_lock = ground arith
guard_rank-lt sharing history_lock = omega arith
guard_rank-lt sharing data_lock = omega arith
guard_rank-lt sharing subscribers_lock = omega arith
guard_rank-lt sharing chunk_lock = omega arith

module _ (sharing : ℕ → Bool) where
  abbrev pub rank : Mutex → ℕ
  rank m = guard_rank (sharing m.object) m.guard

  -- One lock with nothing taken under it.
  pub single-Fits : (n : ℕ) (m : Mutex) → n ≤ rank m → Fits rank n (single m)
  single-Fits n m l = Fits-guarded rank n m (access m ∷ []) l (Fits-nil rank (suc (rank m)))

  -- A last access takes no lock.
  accessed-Fits :
      (n : ℕ) (m : Mutex) (acts : List Act) → Fits rank n acts → Fits rank n (acts ++ access m ∷ [])
  accessed-Fits n m acts p = Fits-append rank n acts (access m ∷ []) p (Fits-nil rank n)

  pub weaken : (m n : ℕ) (acts : List Act) → m ≤ n → Fits rank n acts → Fits rank m acts
  weaken m n acts l p held todo b = p held todo (Below-mono rank m n held l b)

  pub send_to_all_acts-Fits : (r : ℕ) → Fits rank 1 (send_to_all_acts r)
  send_to_all_acts-Fits r = single-Fits 1 (mutex peer_by_id_lock r) (ground arith)

  pub take_chunk_acts-Fits : (s : ℕ) → Fits rank 4 (take_chunk_acts s)
  take_chunk_acts-Fits s = single-Fits 4 (mutex chunk_lock s) (omega arith)

  pub subscribe_acts-Fits : (f : ℕ) → Fits rank 3 (subscribe_acts f)
  subscribe_acts-Fits f = single-Fits 3 (mutex subscribers_lock f) (omega arith)

  pub provide_file_chunk_acts-Fits :
      (f : ℕ) (s : Option ℕ) → Fits rank 3 (provide_file_chunk_acts f s)
  provide_file_chunk_acts-Fits f none = single-Fits 3 (mutex subscribers_lock f) (omega arith)
  provide_file_chunk_acts-Fits f (some s) =
      Fits-guarded rank 3 (mutex subscribers_lock f)
        (access (mutex subscribers_lock f) ∷ take_chunk_acts s) (omega arith)
        (take_chunk_acts-Fits s)

  pub clear_subscribers_acts-Fits : (f : ℕ × List ℕ) → Fits rank 3 (clear_subscribers_acts f)
  clear_subscribers_acts-Fits (f, subscribers) =
      Fits-guarded rank 3 (mutex subscribers_lock f)
        (access (mutex subscribers_lock f)
          ∷ (each take_chunk_acts subscribers ++ access (mutex subscribers_lock f) ∷ []))
        (omega arith)
        (accessed-Fits 4 (mutex subscribers_lock f) (each take_chunk_acts subscribers)
          (Fits-each rank 4 take_chunk_acts subscribers take_chunk_acts-Fits))

  pub add_history_message_acts-Fits :
      (kept : Bool) (r : ℕ) → Fits rank 1 (add_history_message_acts kept r)
  add_history_message_acts-Fits true r = single-Fits 1 (mutex history_lock r) (omega arith)
  add_history_message_acts-Fits false r = Fits-nil rank 1

  pub get_file_by_id_acts-Fits : (r : ℕ) → Fits rank 1 (get_file_by_id_acts r)
  get_file_by_id_acts-Fits r = single-Fits 1 (mutex file_by_id_lock r) (ground arith)

  pub welcome_peer_acts-Fits : (kept : Bool) (r : ℕ) → Fits rank 1 (welcome_peer_acts kept r)
  welcome_peer_acts-Fits kept r =
      Fits-append rank 1 (add_history_message_acts kept r) (send_to_all_acts r)
        (add_history_message_acts-Fits kept r) (send_to_all_acts-Fits r)

  pub share_file_acts-Fits : (r : ℕ) → sharing r ≡ true → Fits rank 1 (share_file_acts r)
  share_file_acts-Fits r h =
      Fits-guarded rank 1 (mutex file_by_id_lock r)
        (send_to_all_acts r ++ access (mutex file_by_id_lock r) ∷ []) (ground arith)
        (accessed-Fits (suc (rank (mutex file_by_id_lock r))) (mutex file_by_id_lock r)
          (send_to_all_acts r)
          (single-Fits (suc (rank (mutex file_by_id_lock r))) (mutex peer_by_id_lock r)
            (ground arith)))

  remove_file_acts-Fits : (r : ℕ) (f : ℕ × List ℕ) → Fits rank 3 (remove_file_acts r f)
  remove_file_acts-Fits r f =
      accessed-Fits 3 (mutex file_by_id_lock r) (clear_subscribers_acts f)
        (clear_subscribers_acts-Fits f)

  -- The scope of the lock of the files.
  abbrev files_scope : ℕ → List (ℕ × List ℕ) → List Act
  files_scope r files =
      guarded (mutex file_by_id_lock r)
        (access (mutex file_by_id_lock r) ∷ each (remove_file_acts r) files)

  files_scope-Fits :
      (r : ℕ) (files : List (ℕ × List ℕ))
      → sharing r ≡ false
      → Fits rank (suc (rank (mutex peer_by_id_lock r))) (files_scope r files)
  files_scope-Fits r files h =
      Fits-guarded rank (suc (rank (mutex peer_by_id_lock r))) (mutex file_by_id_lock r)
        (access (mutex file_by_id_lock r) ∷ each (remove_file_acts r) files) (ground arith)
        (weaken (suc (rank (mutex file_by_id_lock r))) 3 (each (remove_file_acts r) files)
          (ground arith) (Fits-each rank 3 (remove_file_acts r) files (remove_file_acts-Fits r)))

  pub remove_peer_by_id_acts-Fits :
      (r : ℕ) (files : Option (List (ℕ × List ℕ)))
      → sharing r ≡ false
      → Fits rank 1 (remove_peer_by_id_acts r files)
  remove_peer_by_id_acts-Fits r none h = send_to_all_acts-Fits r
  remove_peer_by_id_acts-Fits r (some files) h =
      Fits-guarded rank 1 (mutex peer_by_id_lock r)
        (access (mutex peer_by_id_lock r)
          ∷ (files_scope r files ++ access (mutex peer_by_id_lock r) ∷ []))
        (ground arith)
        (accessed-Fits (suc (rank (mutex peer_by_id_lock r))) (mutex peer_by_id_lock r)
          (files_scope r files) (files_scope-Fits r files h))

  pub get_or_create_room_acts-Fits : Fits rank 0 get_or_create_room_acts
  get_or_create_room_acts-Fits = single-Fits 0 (mutex rooms_mutex 0) (omega arith)

  pub ping_round_acts-Fits : (rooms : List ℕ) → Fits rank 0 (ping_round_acts rooms)
  ping_round_acts-Fits rooms =
      Fits-guarded rank 0 (mutex rooms_mutex 0)
        (access (mutex rooms_mutex 0) ∷ each send_to_all_acts rooms) (omega arith)
        (Fits-each rank 1 send_to_all_acts rooms send_to_all_acts-Fits)
