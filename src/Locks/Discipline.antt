-- ===== src/Locks/Discipline.antt =====
-- Each handler of server/src/rooms touches what a mutex guards while it holds the mutex, but for
-- `Room::isEmpty`.
use canchat.Base.{
  ℕ, Bool, true, false, Option, none, some, List, [], ◌∷◌, ◌++◌, All, ◌≡◌, refl, map, if◌then◌else◌,
}
use canchat.Base.Options.{All-get_elem?}
use mathlib.Core.Bool.{false≢true}
use canchat.Locks.{
  rooms_mutex, peer_by_id_lock, file_by_id_lock, history_lock, subscribers_lock, chunk_lock,
  data_lock, Mutex, access,
}
use canchat.Locks.Methods.{
  mutex, guarded, each, take_chunk_acts, clear_subscribers_acts, invalidate_acts,
  provide_file_chunk_acts, send_to_all_acts, add_history_message_acts, share_file_acts,
  remove_file_acts, remove_peer_by_id_acts, welcome_peer_acts, goodbye_peer_acts, is_empty_acts,
  onboard_peer_acts, get_history_acts, add_peer_acts, get_or_create_room_acts, get_room_acts,
  delete_room_acts, ping_all_peers_acts, get_file_by_id_acts, subscribe_acts,
  handle_file_chunk_message_acts, get_file_acts,
}
use canchat.Locks.Tasks.{
  Task, connects, disconnects, says, is_typing, shares, uploads, requests_file, reads_chunk,
  waits_for_chunk, joins_wait_list, drops_download, pings, samples, shows_statistics, task_acts,
  worker,
}
use canchat.Locks.Guarded.{
  IsGuardedThread, Guards, Guards-nil, Guards-append, Guards-guarded, Guards-access,
  Guards-accessed, Guards-single, Guards-each, Guards-IsGuarded,
}
use canchat.Locks.Exclusive.{Safe}

add_history-Guards :
    (ms : List Mutex) (kept : Bool) (r : ℕ) → Guards ms (add_history_message_acts kept r)
add_history-Guards ms true r = Guards-single ms (mutex history_lock r)
add_history-Guards ms false r = Guards-nil ms

welcome-Guards : (kept : Bool) (r : ℕ) → Guards [] (welcome_peer_acts kept r)
welcome-Guards kept r =
    Guards-append [] (add_history_message_acts kept r) (send_to_all_acts r)
      (add_history-Guards [] kept r) (Guards-single [] (mutex peer_by_id_lock r))

provide-Guards : (f : ℕ) (s : Option ℕ) → Guards [] (provide_file_chunk_acts f s)
provide-Guards f none = Guards-single [] (mutex subscribers_lock f)
provide-Guards f (some s) =
    let m = mutex subscribers_lock f in
    Guards-guarded [] m (access m ∷ take_chunk_acts s)
      (Guards-access m [] (take_chunk_acts s) (Guards-single (m ∷ []) (mutex chunk_lock s)))

clear-Guards : (ms : List Mutex) (f : ℕ × List ℕ) → Guards ms (clear_subscribers_acts f)
clear-Guards ms (f, subscribers) =
    let m = mutex subscribers_lock f in
    Guards-guarded ms m (access m ∷ (each invalidate_acts subscribers ++ access m ∷ [])) (
      Guards-access m ms (each invalidate_acts subscribers ++ access m ∷ []) (
        Guards-accessed m ms (each invalidate_acts subscribers) (
          Guards-each (m ∷ ms) invalidate_acts subscribers
            (λ s. Guards-single (m ∷ ms) (mutex chunk_lock s)))))

share-Guards : (r : ℕ) → Guards [] (share_file_acts r)
share-Guards r =
    let m = mutex file_by_id_lock r in
    Guards-guarded [] m (send_to_all_acts r ++ access m ∷ [])
      (Guards-accessed m [] (send_to_all_acts r) (Guards-single (m ∷ []) (mutex peer_by_id_lock r)))

files-Guards :
    (ms : List Mutex) (r : ℕ) (files : List (ℕ × List ℕ))
    → Guards ms (
        guarded
          (mutex file_by_id_lock r)
          (access (mutex file_by_id_lock r) ∷ each (remove_file_acts r) files))
files-Guards ms r files =
    let m = mutex file_by_id_lock r in
    Guards-guarded ms m (access m ∷ each (remove_file_acts r) files) (
      Guards-access m ms (each (remove_file_acts r) files) (
        Guards-each (m ∷ ms) (remove_file_acts r) files
          (λ f. Guards-accessed m ms (clear_subscribers_acts f) (clear-Guards (m ∷ ms) f))))

remove-Guards :
    (r : ℕ) (files : Option (List (ℕ × List ℕ))) → Guards [] (remove_peer_by_id_acts r files)
remove-Guards r none = Guards-single [] (mutex peer_by_id_lock r)
remove-Guards r (some files) =
    let m = mutex peer_by_id_lock r in
    let k = mutex file_by_id_lock r in
    let scope = guarded k (access k ∷ each (remove_file_acts r) files) in
    Guards-guarded [] m (access m ∷ (scope ++ access m ∷ [])) (
      Guards-access m [] (scope ++ access m ∷ [])
        (Guards-accessed m [] scope (files-Guards (m ∷ []) r files)))

rooms-Guards : Guards [] get_room_acts
rooms-Guards = Guards-single [] (mutex rooms_mutex 0)

empty-Guards :
    (r : ℕ) (empty : Bool) → Guards [] (is_empty_acts r ++ (if empty then delete_room_acts else []))
empty-Guards r true held todo all h = rooms-Guards held todo all h
empty-Guards r false held todo all h = h

ping-Guards :
    (rooms : List ℕ)
    → Guards [] (
        guarded
          (mutex rooms_mutex 0)
          (access (mutex rooms_mutex 0) ∷ each ping_all_peers_acts rooms))
ping-Guards rooms =
    let m = mutex rooms_mutex 0 in
    Guards-guarded [] m (access m ∷ each ping_all_peers_acts rooms) (
      Guards-access m [] (each ping_all_peers_acts rooms) (
        Guards-each (m ∷ []) ping_all_peers_acts rooms
          (λ r. Guards-single (m ∷ []) (mutex peer_by_id_lock r))))

onboard-Guards : (kept : Bool) (r : ℕ) → Guards [] (onboard_peer_acts kept r)
onboard-Guards kept r =
    Guards-append [] (send_to_all_acts r) (get_history_acts kept r)
      (Guards-single [] (mutex peer_by_id_lock r)) (add_history-Guards [] kept r)

uploads-Guards :
    (r : ℕ) (target : Option (ℕ × Option ℕ)) → Guards [] (handle_file_chunk_message_acts r target)
uploads-Guards r none = Guards-single [] (mutex file_by_id_lock r)
uploads-Guards r (some (f, s)) =
    Guards-append [] (get_file_by_id_acts r) (provide_file_chunk_acts f s)
      (Guards-single [] (mutex file_by_id_lock r)) (provide-Guards f s)

get_file-Guards : (target : Option (ℕ × Option ℕ)) → Guards [] (get_file_acts target)
get_file-Guards none = rooms-Guards
get_file-Guards (some (r, none)) =
    Guards-append [] get_room_acts (get_file_by_id_acts r) rooms-Guards
      (Guards-single [] (mutex file_by_id_lock r))
get_file-Guards (some (r, some f)) =
    Guards-append [] get_room_acts (get_file_by_id_acts r ++ subscribe_acts f) rooms-Guards (
      Guards-append [] (get_file_by_id_acts r) (subscribe_acts f)
        (Guards-single [] (mutex file_by_id_lock r)) (Guards-single [] (mutex subscribers_lock f)))

task-Guards : (kept : Bool) (task : Task) → Guards [] (task_acts kept task)
task-Guards kept (connects r) =
    Guards-append [] get_or_create_room_acts
      (welcome_peer_acts kept r ++ (add_peer_acts r ++ onboard_peer_acts kept r)) rooms-Guards
      (Guards-append [] (welcome_peer_acts kept r) (add_peer_acts r ++ onboard_peer_acts kept r)
        (welcome-Guards kept r)
        (Guards-append [] (add_peer_acts r) (onboard_peer_acts kept r)
          (Guards-single [] (mutex peer_by_id_lock r)) (onboard-Guards kept r)))
task-Guards kept (disconnects r files empty) =
    Guards-append [] (remove_peer_by_id_acts r files)
      (goodbye_peer_acts kept r ++ (is_empty_acts r ++ (if empty then delete_room_acts else [])))
      (remove-Guards r files)
      (Guards-append [] (goodbye_peer_acts kept r)
        (is_empty_acts r ++ (if empty then delete_room_acts else [])) (welcome-Guards kept r)
        (empty-Guards r empty))
task-Guards kept (says r) = welcome-Guards kept r
task-Guards kept (is_typing r) = Guards-single [] (mutex peer_by_id_lock r)
task-Guards kept (shares r offers) =
    Guards-append [] (each (λ _. share_file_acts r) offers) (welcome_peer_acts kept r)
      (Guards-each [] (λ _. share_file_acts r) offers (λ _. share-Guards r)) (welcome-Guards kept r)
task-Guards kept (uploads r target) = uploads-Guards r target
task-Guards kept (requests_file target) = get_file-Guards target
task-Guards kept (reads_chunk s) = Guards-single [] (mutex chunk_lock s)
task-Guards kept (waits_for_chunk s) = Guards-single [] (mutex chunk_lock s)
task-Guards kept (joins_wait_list s) = Guards-single [] (mutex chunk_lock s)
task-Guards kept (drops_download f) = Guards-single [] (mutex subscribers_lock f)
task-Guards kept (pings rooms) = ping-Guards rooms
task-Guards kept samples = Guards-single [] (mutex data_lock 0)
task-Guards kept shows_statistics = Guards-single [] (mutex data_lock 0)

workers-IsGuardedThread :
    (kept : Bool) (work : List (List Task)) → All IsGuardedThread (map (worker kept) work)
workers-IsGuardedThread kept [] = tt
workers-IsGuardedThread kept (tasks ∷ work) = (
  Guards-IsGuarded (each (task_acts kept) tasks)
      (Guards-each [] (task_acts kept) tasks (task-Guards kept)),
  workers-IsGuardedThread kept work,
)

workers_idle :
    (kept : Bool) (work : List (List Task)) → All (λ t. t.held ≡ []) (map (worker kept) work)
workers_idle kept [] = tt
workers_idle kept (tasks ∷ work) = (refl, workers_idle kept work)

pub workers-Safe : (kept : Bool) (work : List (List Task)) → Safe (map (worker kept) work)
workers-Safe kept work = record {
  guarded = workers-IsGuardedThread kept work;
  exclusive = λ m i j t u at_i at_j a b.
      let idle =
        All-get_elem? (λ t. t.held ≡ []) (map (worker kept) work) i t at_i
          (workers_idle kept work) in
      absurd (false≢true (rw idle at a));
}
