-- ===== src/Tests/Locks.antt =====
-- Threads that share a mutex: two that do not meet, and four that block each other.
use canchat.Base.{
  false, ℕ, true, some, List, [], ◌∷◌, ◌++◌, All, ◌≡◌, refl, nat_same, map, length, drop, ◌⊎◌, ◌+◌,
}
use canchat.Locks.{
  peer_by_id_lock, file_by_id_lock, Thread, step, run_schedule, acts_left, IsFinished, data_lock,
}
use canchat.Locks.Methods.{mutex, each}
use canchat.Locks.Tasks.{Task, shares, disconnects, samples, worker, task_acts}
use canchat.Locks.Progress.{Moves}
use canchat.Locks.Workers.{workers-Moves}
use canchat.Locks.Races.{workers-Exclusive, is_empty-Races, turns, leaving, joining, meet}
use canchat.Locks.Deadlock.{share_leave-Stuck, stuck, meeting}

-- A file is shared in room 1, while a peer with a file leaves room 2.
abbrev work : List (List Task)
work = (shares 1 (5 ∷ []) ∷ []) ∷ (samples ∷ disconnects 2 (some ((7, 1 ∷ []) ∷ [])) true ∷ []) ∷ []

abbrev later : List Thread
later =
    record {
      held = mutex peer_by_id_lock 1 ∷ mutex file_by_id_lock 1 ∷ [];
      todo = drop 2 (each (task_acts true) (shares 1 (5 ∷ []) ∷ []));
    }
    ∷ record {
      held = mutex data_lock 0 ∷ [];
      todo =
          drop 1
            (each (task_acts true) (samples ∷ disconnects 2 (some ((7, 1 ∷ []) ∷ [])) true ∷ []));
    }
    ∷ []

workers-Moves_example :
    (All IsFinished later ⊎ Moves later)
    × (length {A = ℕ} (0 ∷ 1 ∷ 0 ∷ []) + acts_left later ≡ acts_left (map (worker true) work))
unfolding run_schedule step
workers-Moves_example =
    workers-Moves (nat_same 1) true work (0 ∷ 1 ∷ 0 ∷ []) later ((refl, tt), ((tt, (refl, tt)), tt))
      refl

abbrev others : List (List Task)
others = (samples ∷ []) ∷ []

abbrev sampling : List Thread
sampling =
    record { held = mutex data_lock 0 ∷ []; todo = drop 1 (each (task_acts true) (samples ∷ [])) }
    ∷ []

share_leave-Stuck_example :
    (run_schedule
        (0 ∷ 1 ∷ 1 ∷ 2 ∷ 2 ∷ [])
        (meeting true 3 4 9 [] (4 ∷ []) [] true ++ map (worker true) others)
      ≡ some (stuck true 3 4 9 [] (4 ∷ []) [] true ++ map (worker true) others))
    × ((rest : List Thread) × (stuck true 3 4 9 [] (4 ∷ []) [] true ++ sampling
          ≡ stuck true 3 4 9 [] (4 ∷ []) [] true ++ rest))
unfolding run_schedule step
share_leave-Stuck_example =
    share_leave-Stuck true 3 4 9 [] (4 ∷ []) [] true others (4 ∷ [])
      (stuck true 3 4 9 [] (4 ∷ []) [] true ++ sampling) refl

-- The second thread of `later` is about to touch the points of the statistics.
abbrev sampler : Thread
sampler = record {
  held = mutex data_lock 0 ∷ [];
  todo =
      drop 1 (each (task_acts true) (samples ∷ disconnects 2 (some ((7, 1 ∷ []) ∷ [])) true ∷ []));
}

workers-Exclusive_example : ◌≡◌ {A = ℕ} 1 1
unfolding run_schedule step
workers-Exclusive_example =
    workers-Exclusive true work (0 ∷ 1 ∷ 0 ∷ []) later 1 1 sampler sampler (mutex data_lock 0)
      (drop 2 (each (task_acts true) (samples ∷ disconnects 2 (some ((7, 1 ∷ []) ∷ [])) true ∷ [])))
      (drop 2 (each (task_acts true) (samples ∷ disconnects 2 (some ((7, 1 ∷ []) ∷ [])) true ∷ [])))
      refl refl refl refl refl

is_empty-Races_example :
    run_schedule (turns false) (map (worker false) (leaving 3 true ∷ joining 3 ∷ others))
    ≡ some (meet false 3 true ++ map (worker false) others)
is_empty-Races_example = is_empty-Races false 3 true others
