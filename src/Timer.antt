-- ===== src/Timer.antt =====
-- The sleeps of the two background threads: the inner loops of `Statistics::runStatLoop`
-- (server/src/utils/Statistics.cpp) and `Lobby::runPingLoop` (server/src/rooms/Lobby.cpp), which are
-- the same. The clock and the sleep are the standard library's: a parameter.
pub mod Rounds
use canchat.Base.{
  ℤ, pos, ◌+ℤ◌, ◌-ℤ◌, ◌≤ℤ◌, ltb_ℤ, ◌<◌, ℕ, zero, suc, ◌+◌, Option, none, some, List, [], ◌∷◌,
  if◌then◌else◌,
}

-- `wake k now d`: what the system clock shows after the `k`-th sleep, of the duration `d`, that began
-- when it showed `now`. `resume k now`: what it shows after the work of a round that began at `now`,
-- after `k` sleeps.
pub record Clock : Type 0 where
  pub wake : ℕ → ℤ → ℤ → ℤ
  pub resume : ℕ → ℤ → ℤ

-- A sleep lasts at least as long as it was asked to, but the system clock may be set back meanwhile,
-- and then shows less, and it may be set back during the work. Of any so many consecutive sleeps there
-- is one in which it is not.
pub record Settles (clock : Clock) (n : ℕ) : Type 0 where
  pub settled : (k : ℕ) → (j : ℕ) × (j < n) × ((now d : ℤ) → now +ℤ d ≤ℤ clock.wake (k + j) now d)

-- What a thread has slept, and the time.
pub record Awake : Type 0 where
  pub sleeps : ℕ
  pub now : ℤ

module _ (clock : Clock) (interval : ℤ) where
  -- do { sleep_for(interval - elapsed); elapsed = now() - startTime } while(elapsed < interval)
  unfoldable pub sleep_loop : ℕ → ℤ → ℤ → Awake → Option Awake
  sleep_loop zero start elapsed a = none
  sleep_loop (suc fuel) start elapsed a =
      let now = clock.wake a.sleeps a.now (interval -ℤ elapsed) in
      let a' : Awake = record { sleeps = a.sleeps + 1; now = now } in
      let rest = sleep_loop fuel start (now -ℤ start) a' in
      if ltb_ℤ (now -ℤ start) interval then rest else some a'

  -- From the begin of a round of `while(true)` to its work.
  unfoldable pub wait_round : ℕ → Awake → Option Awake
  wait_round fuel a = sleep_loop fuel a.now (pos 0) a

  -- The times at which the first rounds begin, and their work.
  unfoldable pub round_times : ℕ → ℕ → Awake → Option (List (ℤ × ℤ))
  round_times fuel zero a = some []
  round_times fuel (suc rounds) a = elim (wait_round fuel a) [
    | none ↦ none
    | some a' ↦ elim (round_times fuel rounds (record a' { now = clock.resume a'.sleeps a'.now })) [
      | none ↦ none
      | some ts ↦ some ((a.now, a'.now) ∷ ts)
    ]
  ]
