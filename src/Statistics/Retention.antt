-- ===== src/Statistics/Retention.antt =====
-- How long `takeSample` of server/src/utils/Statistics.cpp keeps its points, and how many.
use canchat.Base.{
  ℤ, pos, ◌-ℤ◌, ◌≤ℤ◌, ◌<ℤ◌, int_laws, Bool-cases, some, List, [], ◌∷◌, ◌++◌, All, ◌≡◌, refl, inl,
  inr, ap, arith, false, ◌∙◌, subst, ℕ, suc, ◌-◌, ◌*◌, ◌≤◌, length, append_assoc,
}
use canchat.Statistics.{
  Statistics, Counters, StatPoint, new_point, fill_last, reuses_last, take_sample, run_stat_loop,
  new_statistics,
}
use canchat.Statistics.Points.{
  times, times-append, times-fill_last, Spaced, Spaced-suffix, Spaced-append, FirstWithin,
  FirstWithin-All, last_time, length-Spaced,
}
use canchat.Statistics.Sample.{take_sample-reuse, take_sample-push, new_last}

-- The last time is at most `m` after the first.
abbrev pub Spans : ℤ → List ℤ → Type 0
Spans m [] = Unit
Spans m (t ∷ ts) = last_time t ts -ℤ t ≤ℤ m

pub record IsRetained (s : Statistics) : Type 0 where
  pub spaced : Spaced s.push_interval (times s.data_points)
  pub spans : Spans s.max_period (times s.data_points)

last_time-append : (t now : ℤ) (ts : List ℤ) → last_time t (ts ++ now ∷ []) ≡ now
last_time-append t now [] = refl
last_time-append t now (u ∷ ts) = last_time-append u now ts

Spans-append :
    (now m : ℤ) (ts : List ℤ) → pos 0 ≤ℤ m → FirstWithin now m ts → Spans m (ts ++ now ∷ [])
Spans-append now m [] z f = omega int_laws
Spans-append now m (t ∷ ts) z f = rw (last_time-append t now ts) f

times-push :
    (c : Counters) (now : ℤ) (ps : List StatPoint)
    → times (fill_last c (ps ++ new_point now ∷ [])) ≡ times ps ++ now ∷ []
unfolding new_point
times-push c now ps =
    times-fill_last c (ps ++ new_point now ∷ []) ∙ times-append ps (new_point now ∷ [])

-- What `takeSample` keeps true, whatever the clock shows.
pub take_sample-IsRetained :
    (now : ℤ) (s : Statistics)
    → pos 0 ≤ℤ s.max_period
    → IsRetained s
    → (t : Statistics) × (take_sample now s ≡ some t)
      × IsRetained t
      × (t.max_period ≡ s.max_period)
      × (t.push_interval ≡ s.push_interval)
take_sample-IsRetained now s z h = elim (Bool-cases (reuses_last now s)) [
  | inl e ↦ (
    record s { data_points = fill_last s.counters s.data_points },
    take_sample-reuse now s e,
    record {
      spaced = rw (times-fill_last s.counters s.data_points) h.spaced;
      spans = rw (times-fill_last s.counters s.data_points) h.spans;
    },
    refl,
    refl,
  )
  | inr e ↦
      (let r = take_sample-push now s z e in
        let split : times s.data_points ++ now ∷ [] ≡ times r.0 ++ (times r.1 ++ now ∷ []) =
          rw (r.2, times-append r.0 r.1, append_assoc) in
        let all_spaced =
          Spaced-append s.push_interval now s.data_points h.spaced (λ p l. new_last now s p e l) in
        (
          record s { data_points = fill_last s.counters (r.1 ++ new_point now ∷ []) },
          r.3,
          record {
            spaced = rw (times-push s.counters now r.1) (
                Spaced-suffix s.push_interval (times r.0) (times r.1 ++ now ∷ [])
                  (subst (Spaced s.push_interval) split all_spaced));
            spans =
                rw (times-push s.counters now r.1)
                  (Spans-append now s.max_period (times r.1) z r.5);
          },
          refl,
          refl,
        ))
]

-- A pushing sample drops exactly the points that are older than the period: of the old points, in
-- their order, a first part is dropped and all of it is older, the rest is kept and none of it is.
pub take_sample_drops :
    (now : ℤ) (s : Statistics)
    → pos 0 ≤ℤ s.max_period
    → pos 0 ≤ℤ s.push_interval
    → IsRetained s
    → reuses_last now s ≡ false
    → (old kept : List StatPoint) × (s.data_points ≡ old ++ kept)
      × (take_sample now s
          ≡ some (record s { data_points = fill_last s.counters (kept ++ new_point now ∷ []) }))
      × All (λ p. s.max_period <ℤ now -ℤ p.timestamp) old
      × All (λ p. now -ℤ p.timestamp ≤ℤ s.max_period) kept
take_sample_drops now s z zd h e =
    let r = take_sample-push now s z e in
    let split : times s.data_points ≡ times r.0 ++ times r.1 = rw (r.2, times-append r.0 r.1) in
    (
      r.0,
      r.1,
      r.2,
      r.3,
      r.4,
      FirstWithin-All now s.max_period s.push_interval r.1 zd
          (Spaced-suffix s.push_interval (times r.0) (times r.1)
            (subst (Spaced s.push_interval) split h.spaced))
          r.5,
    )

length-times : (ps : List StatPoint) → length (times ps) ≡ length ps
length-times [] = refl
length-times (p ∷ ps) = ap suc (length-times ps)

length-spread :
    (d : ℕ) (m t : ℤ) (ts : List ℤ)
    → Spaced (pos d) (t ∷ ts)
    → last_time t ts -ℤ t ≤ℤ m
    → pos (length ts * d) ≤ℤ m
length-spread d m t ts s f = omega (int_laws, length-Spaced d t ts s)

length-IsRetained :
    (d m : ℕ) (ts : List ℤ) → Spaced (pos d) ts → Spans (pos m) ts → (length ts - 1) * d ≤ m
length-IsRetained d m [] s f = omega arith
length-IsRetained d m (t ∷ ts) s f =
    let e : length (t ∷ ts) - 1 ≡ length ts = omega arith in
    rw e (omega (arith, length-spread d (pos m) t ts s f))

run_stat_loop_lem :
    (d m : ℕ) (rounds : List (Counters × ℤ)) (s : Statistics)
    → s.push_interval ≡ pos d
    → s.max_period ≡ pos m
    → IsRetained s
    → (t : Statistics) × (run_stat_loop rounds s ≡ some t)
      × IsRetained t
      × (t.push_interval ≡ pos d)
      × (t.max_period ≡ pos m)
unfolding run_stat_loop
run_stat_loop_lem d m [] s ed em h = (s, refl, h, ed, em)
run_stat_loop_lem d m ((c, now) ∷ rounds) s ed em h =
    let r =
      take_sample-IsRetained now (record s { counters = c }) (rw em (omega arith))
        (record { spaced = h.spaced; spans = h.spans }) in
    let q = run_stat_loop_lem d m rounds r.0 (r.4 ∙ ed) (r.3 ∙ em) r.2 in
    (q.0, rw (r.1, run_stat_loop) q.1, q.2, q.3, q.4)

-- From a fresh `Statistics` whose period and push interval are not negative, every round of the
-- loop returns, whatever the counters are and the clock shows; consecutive points are at least the
-- push interval apart, the points span at most the period, and so `n` points obey
-- (n - 1) * push interval ≤ period.
pub run_stat_loop_bounded :
    (d m : ℕ) (rounds : List (Counters × ℤ))
    → (t : Statistics) × (run_stat_loop rounds (new_statistics (pos m) (pos d)) ≡ some t)
      × IsRetained t
      × ((length t.data_points - 1) * d ≤ m)
unfolding new_statistics
run_stat_loop_bounded d m rounds =
    let q =
      run_stat_loop_lem d m rounds (new_statistics (pos m) (pos d)) refl refl
        (record { spaced = tt; spans = tt }) in
    (
      q.0,
      q.1,
      q.2,
      rw (← length-times q.0.data_points) (
          length-IsRetained d m (times q.0.data_points)
            (subst (λ x. Spaced x (times q.0.data_points)) q.3 q.2.spaced)
            (subst (λ x. Spans x (times q.0.data_points)) q.4 q.2.spans)),
    )
