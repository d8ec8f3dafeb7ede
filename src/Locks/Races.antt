-- ===== src/Locks/Races.antt =====
-- Data races between the handlers of server/src/rooms: none on what is touched under a lock, one on
-- what `Room::isEmpty` reads.
use canchat.Base.{
  ℕ, Bool, true, false, some, List, [], ◌∷◌, ◌++◌, get_elem?, ◌≡◌, refl, map, if◌then◌else◌,
}
use canchat.Locks.{
  peek, unlock, step, is_held, rooms_mutex, peer_by_id_lock, file_by_id_lock, history_lock, Mutex,
  Act, access, Thread, run_schedule,
}
use canchat.Locks.Methods.{mutex, onboard_peer_acts, delete_room_acts}
use canchat.Locks.Tasks.{Task, connects, disconnects, worker}
use canchat.Locks.Discipline.{workers-Safe}
use canchat.Locks.Exclusive.{run_schedule-Safe, Safe-access}

-- Let any number of threads each run a list of the server's handlers, in any order of turns. Two of
-- them are never both about to touch what one mutex guards, by an access that the source makes under
-- that mutex: these are all accesses to the map of rooms, to the maps of peers and files and the
-- history of a room, to the downloads of a file, to the chunk of a download and to the points of the
-- statistics, but for the one of `isEmpty`.
pub workers-Exclusive :
    (kept : Bool) (work : List (List Task)) (σ : List ℕ) (ts : List Thread) (i j : ℕ) (t u : Thread)
    (m : Mutex) (later later' : List Act)
    → run_schedule σ (map (worker kept) work) ≡ some ts
    → get_elem? ts i ≡ some t
    → get_elem? ts j ≡ some u
    → t.todo ≡ access m ∷ later
    → u.todo ≡ access m ∷ later'
    → i ≡ j
workers-Exclusive kept work σ ts i j t u m later later' e =
    Safe-access ts i j t u m later later'
      (run_schedule-Safe σ (map (worker kept) work) ts e (workers-Safe kept work))

is_held-workers :
    (kept : Bool) (m : Mutex) (work : List (List Task)) → is_held m (map (worker kept) work) ≡ false
is_held-workers kept m [] = refl
is_held-workers kept m (tasks ∷ work) = is_held-workers kept m work

-- A peer that has shared no file leaves, and another connects to the room.
abbrev pub leaving : ℕ → Bool → List Task
leaving r empty = disconnects r (some []) empty ∷ []

abbrev pub joining : ℕ → List Task
joining r = connects r ∷ []

-- The turns of the first until it reads whether the room is empty, and then those of the second until
-- it writes the map of the peers.
abbrev pub turns : Bool → List ℕ
turns true =
    0 ∷ 0 ∷ 0 ∷ 0 ∷ 0 ∷ 0 ∷ 0 ∷ 0 ∷ 0 ∷ 0 ∷ 0 ∷ 0 ∷ 0 ∷ 1 ∷ 1 ∷ 1 ∷ 1 ∷ 1 ∷ 1 ∷ 1 ∷ 1 ∷ 1 ∷ 1 ∷ []
turns false = 0 ∷ 0 ∷ 0 ∷ 0 ∷ 0 ∷ 0 ∷ 0 ∷ 0 ∷ 0 ∷ 0 ∷ 1 ∷ 1 ∷ 1 ∷ 1 ∷ 1 ∷ 1 ∷ 1 ∷ []

abbrev pub is_empty_left : ℕ → Bool → List Act
is_empty_left r empty = (if empty then delete_room_acts else []) ++ []

abbrev pub add_peer_left : Bool → ℕ → List Act
add_peer_left kept r = unlock ∷ (onboard_peer_acts kept r ++ [])

abbrev pub meet : Bool → ℕ → Bool → List Thread
meet kept r empty =
    record { held = []; todo = peek (mutex peer_by_id_lock r) ∷ is_empty_left r empty }
    ∷ record {
      held = mutex peer_by_id_lock r ∷ [];
      todo = access (mutex peer_by_id_lock r) ∷ add_peer_left kept r;
    }
    ∷ []

-- A peer that has shared no file leaves a room while somebody connects to it, and any other threads
-- run any handlers. The two can come to where `isEmpty` is about to read the map of the peers, with no
-- lock, and `addPeer` is about to write it: a data race.
pub is_empty-Races :
    (kept : Bool) (r : ℕ) (empty : Bool) (work : List (List Task))
    → run_schedule (turns kept) (map (worker kept) (leaving r empty ∷ joining r ∷ work))
      ≡ some (meet kept r empty ++ map (worker kept) work)
unfolding run_schedule step
is_empty-Races true r empty work =
    rw
      (
        free (mutex peer_by_id_lock r),
        free (mutex file_by_id_lock r),
        free (mutex history_lock r),
        free (mutex peer_by_id_lock r),
        free (mutex rooms_mutex 0),
        free (mutex history_lock r),
        free (mutex peer_by_id_lock r),
        free (mutex peer_by_id_lock r),
      )
      refl
  where
    free : (m : Mutex) → is_held m (map (worker true) work) ≡ false
    free m = is_held-workers true m work
is_empty-Races false r empty work =
    rw
      (
        free (mutex peer_by_id_lock r),
        free (mutex file_by_id_lock r),
        free (mutex peer_by_id_lock r),
        free (mutex rooms_mutex 0),
        free (mutex peer_by_id_lock r),
        free (mutex peer_by_id_lock r),
      )
      refl
  where
    free : (m : Mutex) → is_held m (map (worker false) work) ≡ false
    free m = is_held-workers false m work
