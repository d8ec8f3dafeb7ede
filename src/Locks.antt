-- ===== src/Locks.antt =====
-- The mutexes of the server and the threads that take them. Each `std::lock_guard` of a method of
-- server/src/rooms and server/src/utils/Statistics.cpp is a lock, and the end of its scope an
-- unlock. oatpp's own locks are not here: no code of the server runs while one is held.
pub mod Methods
pub mod Tasks
mod Order
pub mod Progress
mod Ranks
pub mod Workers
pub mod Deadlock
mod Guarded
mod Exclusive
mod Discipline
pub mod Races
use canchat.Base.{
  ℕ, ◌+◌, Bool, false, ◌&&◌, ◌||◌, if◌then◌else◌, Option, none, some, List, [], ◌∷◌, length,
  get_elem?, nat_same, ◌≡◌,
}
use canchat.Base.Options.{set_elem, ◌>>=◌}

-- The members that are mutexes.
pub data Guard : Type 0 where
  rooms_mutex : Guard
  peer_by_id_lock : Guard
  file_by_id_lock : Guard
  history_lock : Guard
  subscribers_lock : Guard
  chunk_lock : Guard
  data_lock : Guard

abbrev pub guard_number : Guard → ℕ
guard_number rooms_mutex = 0
guard_number peer_by_id_lock = 1
guard_number file_by_id_lock = 2
guard_number history_lock = 3
guard_number subscribers_lock = 4
guard_number chunk_lock = 5
guard_number data_lock = 6

-- A mutex: which member it is, and of which object.
pub record Mutex : Type 0 where
  pub guard : Guard
  pub object : ℕ

abbrev pub same_mutex : Mutex → Mutex → Bool
same_mutex a b =
    nat_same (guard_number a.guard) (guard_number b.guard) && nat_same a.object b.object

-- `unlock` ends the innermost scope. `access m` reads or writes what `m` guards, and so does `peek m`,
-- where the source takes no lock for it.
pub data Act : Type 0 where
  lock : Mutex → Act
  unlock : Act
  access : Mutex → Act
  peek : Mutex → Act

-- What a thread holds, the latest first, and what it has left to do.
pub record Thread : Type 0 where
  pub held : List Mutex
  pub todo : List Act

abbrev pub is_member : Mutex → List Mutex → Bool
is_member m [] = false
is_member m (h ∷ held) = same_mutex m h || is_member m held

abbrev pub is_held : Mutex → List Thread → Bool
is_held m [] = false
is_held m (t ∷ ts) = is_member m t.held || is_held m ts

abbrev pub tail : List Mutex → List Mutex
tail [] = []
tail (h ∷ held) = held

-- One act of a thread among all. A mutex that somebody holds makes it wait.
abbrev pub act : List Thread → List Mutex → List Act → Option Thread
act ts held [] = none
act ts held (lock m ∷ todo) =
    if is_held m ts then none else some (record { held = m ∷ held; todo = todo })
act ts held (unlock ∷ todo) = some (record { held = tail held; todo = todo })
act ts held (access m ∷ todo) = some (record { held = held; todo = todo })
act ts held (peek m ∷ todo) = some (record { held = held; todo = todo })

abbrev pub turn : List Thread → Thread → Option Thread
turn ts t = act ts t.held t.todo

-- Thread `i` goes on.
unfoldable pub step : ℕ → List Thread → Option (List Thread)
step i ts = do t ← get_elem? ts i; u ← turn ts t; some (set_elem ts i u)

-- The threads go on in the order of a schedule.
unfoldable pub run_schedule : List ℕ → List Thread → Option (List Thread)
run_schedule [] ts = some ts
run_schedule (i ∷ schedule) ts = do u ← step i ts; run_schedule schedule u

abbrev pub start : List Act → Thread
start todo = record { held = []; todo = todo }

-- The acts that all threads have left.
abbrev pub acts_left : List Thread → ℕ
acts_left [] = 0
acts_left (t ∷ ts) = length t.todo + acts_left ts

abbrev pub IsFinished : Thread → Type 0
IsFinished t = t.todo ≡ []
