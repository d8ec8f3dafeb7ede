-- ===== src/Statistics/Points.antt =====
-- The list of points under the two loops of `takeSample` (server/src/utils/Statistics.cpp).
use canchat.Base.{
  ℤ, pos, pos_part, neg_part, ◌-ℤ◌, ◌≤ℤ◌, ◌<ℤ◌, int_laws, -ℤ_parts, ltb_ℤ, Bool-cases, ℕ, ◌+◌, ◌*◌,
  ◌≤◌, some, List, [], ◌∷◌, ◌++◌, last?, All, length, ◌≡◌, refl, inl, inr, ap, arith,
}
use canchat.Statistics.{StatPoint, Counters, new_point, fill_point, pop_old, fill_last}

abbrev pub times : List StatPoint → List ℤ
times [] = []
times (p ∷ ps) = p.timestamp ∷ times ps

pub times-append : (ps qs : List StatPoint) → times (ps ++ qs) ≡ times ps ++ times qs
times-append [] qs = refl
times-append (p ∷ ps) qs = ap (λ ts. p.timestamp ∷ ts) (times-append ps qs)

pub times-fill_last : (c : Counters) (ps : List StatPoint) → times (fill_last c ps) ≡ times ps
unfolding fill_last fill_point
times-fill_last c [] = refl
times-fill_last c (p ∷ []) = refl
times-fill_last c (p ∷ q ∷ ps) = ap (λ ts. p.timestamp ∷ ts) (times-fill_last c (q ∷ ps))

pub last?-fill_last :
    (c : Counters) (ps : List StatPoint) (p : StatPoint)
    → last? ps ≡ some p
    → last? (fill_last c ps) ≡ some (fill_point c p)
unfolding fill_last
last?-fill_last c [] p e = ground arith
last?-fill_last c (q ∷ []) p e = ground arith
last?-fill_last c (q ∷ r ∷ []) p e = ground arith
last?-fill_last c (q ∷ r ∷ x ∷ ps) p e = last?-fill_last c (r ∷ x ∷ ps) p e

pub last?-append : (ps : List StatPoint) (p : StatPoint) → last? (ps ++ p ∷ []) ≡ some p
last?-append [] p = refl
last?-append (q ∷ []) p = refl
last?-append (q ∷ r ∷ ps) p = last?-append (r ∷ ps) p

-- Consecutive times are at least `d` apart.
abbrev pub Spaced : ℤ → List ℤ → Type 0
Spaced d [] = Unit
Spaced d (t ∷ []) = Unit
Spaced d (t ∷ u ∷ ts) = (d ≤ℤ u -ℤ t) × Spaced d (u ∷ ts)

-- The first time is at most `m` before `now`.
abbrev pub FirstWithin : ℤ → ℤ → List ℤ → Type 0
FirstWithin now m [] = Unit
FirstWithin now m (t ∷ ts) = now -ℤ t ≤ℤ m

pub Spaced-tail : (d t : ℤ) (ts : List ℤ) → Spaced d (t ∷ ts) → Spaced d ts
Spaced-tail d t [] s = tt
Spaced-tail d t (u ∷ ts) s = s.1

pub Spaced-suffix : (d : ℤ) (xs ys : List ℤ) → Spaced d (xs ++ ys) → Spaced d ys
Spaced-suffix d [] ys s = s
Spaced-suffix d (x ∷ xs) ys s = Spaced-suffix d xs ys (Spaced-tail d x (xs ++ ys) s)

-- One more time that is far enough from the last.
pub Spaced-append :
    (d now : ℤ) (ps : List StatPoint)
    → Spaced d (times ps)
    → ((p : StatPoint) → last? ps ≡ some p → d ≤ℤ now -ℤ p.timestamp)
    → Spaced d (times ps ++ now ∷ [])
Spaced-append d now [] s far = tt
Spaced-append d now (p ∷ []) s far = (far p refl, tt)
Spaced-append d now (p ∷ q ∷ ps) s far = (s.0, Spaced-append d now (q ∷ ps) s.1 far)

-- Where the times rise, the first bounds the distance of all.
pub FirstWithin-All :
    (now m d : ℤ) (ps : List StatPoint)
    → pos 0 ≤ℤ d
    → Spaced d (times ps)
    → FirstWithin now m (times ps)
    → All (λ p. now -ℤ p.timestamp ≤ℤ m) ps
FirstWithin-All now m d [] z s f = tt
FirstWithin-All now m d (p ∷ []) z s f = (f, tt)
FirstWithin-All now m d (p ∷ q ∷ ps) z s f =
    (f, FirstWithin-All now m d (q ∷ ps) z s.1 (omega (int_laws, s.0)))

-- The points before the new one fall into those that are popped, all of them older than `m`, and
-- those that are kept, of which the first is not.
pub pop_old_lem :
    (now m : ℤ) (ps : List StatPoint)
    → pos 0 ≤ℤ m
    → (old kept : List StatPoint) × (ps ≡ old ++ kept)
      × (pop_old now m (ps ++ new_point now ∷ []) ≡ some (kept ++ new_point now ∷ []))
      × All (λ p. m <ℤ now -ℤ p.timestamp) old
      × FirstWithin now m (times kept)
unfolding pop_old new_point
pop_old_lem now m [] z = ([], [], refl, ground (arith, -ℤ_parts now now), tt, tt)
pop_old_lem now m (p ∷ ps) z = elim (Bool-cases (ltb_ℤ m (now -ℤ p.timestamp))) [
  | inl e ↦
      (let r = pop_old_lem now m ps z in
        (p ∷ r.0, r.1, ap (λ xs. p ∷ xs) r.2, ground (arith, r.3), (ground arith, r.4), r.5))
  | inr e ↦ ([], p ∷ ps, refl, ground arith, tt, ground arith)
]

abbrev pub last_time : ℤ → List ℤ → ℤ
last_time t [] = t
last_time t (u ∷ ts) = last_time u ts

-- The times take up the space between the first and the last.
pub length-Spaced :
    (d : ℕ) (t : ℤ) (ts : List ℤ)
    → Spaced (pos d) (t ∷ ts)
    → pos_part t + neg_part (last_time t ts) + length ts * d
      ≤ pos_part (last_time t ts) + neg_part t
length-Spaced d t [] s = omega arith
length-Spaced d t (u ∷ ts) s = omega (int_laws, s.0, length-Spaced d u ts s.1)
