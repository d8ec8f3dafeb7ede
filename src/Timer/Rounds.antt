-- ===== src/Timer/Rounds.antt =====
-- The rounds of the background threads come, and not too early.
use canchat.Base.{
  subst, true, eq_of_parts, ◌<◌, length, ap, refl, pos_part, neg_part, ℤ, pos, ◌+ℤ◌, ◌-ℤ◌, ◌≤ℤ◌,
  ◌<ℤ◌, ltb_ℤ, int_laws, ℕ, zero, suc, ◌+◌, some, List, [], ◌∷◌, ◌≡◌, refl, arith, Bool-cases, inl,
  inr, -ℤ_parts, +ℤ_parts,
}
use canchat.Timer.{wait_round, round_times, Clock, Settles, Awake, sleep_loop}

-- The work of every round begins at least the interval after the round, by the clock.
abbrev pub Spaced : ℤ → List (ℤ × ℤ) → Type 0
Spaced interval [] = Unit
Spaced interval ((start, work) ∷ ts) = (start +ℤ interval ≤ℤ work) × Spaced interval ts

-- One of the next sleeps is long enough on the clock.
abbrev Settled : Clock → ℕ → ℕ → Type 0
Settled clock n k = (j : ℕ) × (j < n) × ((now d : ℤ) → now +ℤ d ≤ℤ clock.wake (k + j) now d)

module _ (clock : Clock) (interval : ℤ) where
  -- A sleep in which the clock is not set back is the last.
  long_enough :
      (start elapsed now later : ℤ)
      → elapsed ≡ now -ℤ start
      → now +ℤ (interval -ℤ elapsed) ≤ℤ later
      → interval ≤ℤ later -ℤ start
  long_enough start elapsed now later e h = omega (
    arith,
    ap pos_part e,
    ap neg_part e,
    h,
    -ℤ_parts now start,
    -ℤ_parts later start,
    -ℤ_parts interval elapsed,
    +ℤ_parts now (interval -ℤ elapsed),
  )

  -- So after any other sleep it is still to come.
  next-Settled :
      (fuel k j : ℕ) (start elapsed now : ℤ)
      → j < suc fuel
      → ((now d : ℤ) → now +ℤ d ≤ℤ clock.wake (k + j) now d)
      → elapsed ≡ now -ℤ start
      → ltb_ℤ (clock.wake k now (interval -ℤ elapsed) -ℤ start) interval ≡ true
      → Settled clock fuel (k + 1)
  next-Settled fuel k zero start elapsed now less long e more =
      let later = clock.wake k now (interval -ℤ elapsed) in
      let short : later -ℤ start <ℤ interval = ground arith in
      let here : now +ℤ (interval -ℤ elapsed) ≤ℤ later =
        subst (λ i. now +ℤ (interval -ℤ elapsed) ≤ℤ clock.wake i now (interval -ℤ elapsed))
          (omega arith) (long now (interval -ℤ elapsed)) in
      absurd (omega (int_laws, short, long_enough start elapsed now later e here))
  next-Settled fuel k (suc j) start elapsed now less long e more = (
    j,
    omega (arith, less),
    λ now d. subst (λ i. now +ℤ d ≤ℤ clock.wake i now d) (omega arith) (long now d),
  )

  sleep_loop-ends :
      (fuel : ℕ) (start elapsed : ℤ) (a : Awake)
      → elapsed ≡ a.now -ℤ start
      → Settled clock fuel a.sleeps
      → (a' : Awake) × (sleep_loop clock interval fuel start elapsed a ≡ some a')
        × (start +ℤ interval ≤ℤ a'.now)
  unfolding sleep_loop
  sleep_loop-ends zero start elapsed a e (j, less, long) = absurd (omega (arith, less))
  sleep_loop-ends (suc fuel) start elapsed a e (j, less, long) =
      let now = clock.wake a.sleeps a.now (interval -ℤ elapsed) in
      elim (Bool-cases (ltb_ℤ (now -ℤ start) interval)) [
        | inr over ↦
            let past : interval ≤ℤ now -ℤ start = ground arith in
            (
              record { sleeps = a.sleeps + 1; now = now },
              rw over,
              omega (arith, -ℤ_parts now start, +ℤ_parts start interval),
            )
        | inl more ↦ rw more (
            sleep_loop-ends fuel start (now -ℤ start) (record { sleeps = a.sleeps + 1; now = now })
              refl (next-Settled fuel a.sleeps j start elapsed a.now less long e more))
      ]

round_times-suc :
    (clock : Clock) (interval : ℤ) (fuel rounds : ℕ) (a a' : Awake) (ts : List (ℤ × ℤ))
    → wait_round clock interval fuel a ≡ some a'
    → round_times clock interval fuel rounds (record a' { now = clock.resume a'.sleeps a'.now })
      ≡ some ts
    → round_times clock interval fuel (suc rounds) a ≡ some ((a.now, a'.now) ∷ ts)
unfolding round_times
round_times-suc clock interval fuel rounds a a' ts e m = ground (arith, e, m)

nothing : (now : ℤ) → pos 0 ≡ now -ℤ now
nothing now = eq_of_parts (pos 0) (now -ℤ now) (omega (arith, -ℤ_parts now now))

-- A sleep lasts at least as long as it was asked to, and the system clock may be set back: in any
-- sleep, but not in so many consecutive ones as there is fuel, and in any work. Then no background
-- thread sleeps for ever: this fuel is enough for the sleeps of each round. Every round ends, with its
-- work, and that begins when the clock shows at least the interval more than when the round began.
pub round_times-Spaced :
    (clock : Clock) (fuel : ℕ) (settles : Settles clock fuel) (interval : ℤ) (rounds : ℕ)
    (a : Awake)
    → (ts : List (ℤ × ℤ)) × (round_times clock interval fuel rounds a ≡ some ts)
      × (length ts ≡ rounds)
      × Spaced interval ts
unfolding round_times wait_round
round_times-Spaced clock fuel settles interval zero a = ([], refl, refl, tt)
round_times-Spaced clock fuel settles interval (suc rounds) a =
    let (a', run, late) =
      sleep_loop-ends clock interval fuel a.now (pos 0) a (nothing a.now)
        (settles.settled a.sleeps) in
    let next : Awake = record a' { now = clock.resume a'.sleeps a'.now } in
    let (ts, more, count, spaced) = round_times-Spaced clock fuel settles interval rounds next in
    (
      (a.now, a'.now) ∷ ts,
      round_times-suc clock interval fuel rounds a a' ts run more,
      omega (arith, count),
      (late, spaced),
    )
