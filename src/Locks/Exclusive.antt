-- ===== src/Locks/Exclusive.antt =====
-- What the mutexes of server/src/rooms guard is touched by one thread at a time.
use canchat.Base.{
  arith, inl, inr, ◌⊎◌, ℕ, zero, suc, true, false, Bool-cases, some, List, [], ◌∷◌, All, get_elem?,
  ◌≡◌, refl, sym, subst, ap, ◌∙◌,
}
use mathlib.Core.Option.{none-ne-some, some-injective}
use mathlib.Core.Bool.{false≢true}
use canchat.Base.Options.{set_elem, All-set_elem, All-get_elem?, bind-some, withheld-some}
use canchat.Locks.{
  turn, same_mutex, Mutex, Act, lock, unlock, access, peek, Thread, act, is_held, is_member, tail,
  step, run_schedule,
}
use canchat.Locks.Order.{step-some}
use canchat.Locks.Progress.{same_mutex_sound}
use canchat.Locks.Guarded.{IsGuarded, IsGuardedThread, act-IsGuardedThread}

-- No two threads hold one mutex.
abbrev pub IsExclusive : List Thread → Type 0
IsExclusive ts =
    (m : Mutex) (i j : ℕ) (t u : Thread)
    → get_elem? ts i ≡ some t
    → get_elem? ts j ≡ some u
    → is_member m t.held ≡ true
    → is_member m u.held ≡ true
    → i ≡ j

tail_member :
    (m : Mutex) (held : List Mutex) → is_member m (tail held) ≡ true → is_member m held ≡ true
tail_member m [] h = h
tail_member m (k ∷ held) h = ground arith

-- What a thread holds after an act it held before, or nobody did.
act-is_member :
    (ts : List Thread) (held : List Mutex) (todo : List Act) (u : Thread) (m : Mutex)
    → act ts held todo ≡ some u
    → is_member m u.held ≡ true
    → (is_member m held ≡ true) ⊎ (is_held m ts ≡ false)
act-is_member ts held [] u m e h = absurd (none-ne-some u e)
act-is_member ts held (lock k ∷ todo) u m e h =
    let (free, same) = withheld-some (is_held k ts) (record { held = k ∷ held; todo = todo }) u e in
    let one : is_member m (k ∷ held) ≡ true = ap (λ x. is_member m x.held) same ∙ h in
    elim (Bool-cases (same_mutex m k)) [
      | inl e2 ↦ inr (subst (λ x. is_held x ts ≡ false) (sym (same_mutex_sound m k e2)) free)
      | inr e2 ↦ inl (ground arith)
    ]
act-is_member ts held (unlock ∷ todo) u m e h = inl (
    tail_member m held (
      ap (λ x. is_member m x.held) (some-injective (record { held = tail held; todo = todo }) u e)
      ∙ h))
act-is_member ts held (access k ∷ todo) u m e h =
    inl
      (ap (λ x. is_member m x.held) (some-injective (record { held = held; todo = todo }) u e) ∙ h)
act-is_member ts held (peek k ∷ todo) u m e h =
    inl
      (ap (λ x. is_member m x.held) (some-injective (record { held = held; todo = todo }) u e) ∙ h)

is_held-get_elem? :
    (m : Mutex) (ts : List Thread) (j : ℕ) (u : Thread)
    → get_elem? ts j ≡ some u
    → is_member m u.held ≡ true
    → is_held m ts ≡ true
is_held-get_elem? m [] j u at h = absurd (none-ne-some u at)
is_held-get_elem? m (x ∷ ts) zero u at h =
    let here : is_member m x.held ≡ true =
      ap (λ y. is_member m y.held) (some-injective x u at) ∙ h in
    ground arith
is_held-get_elem? m (x ∷ ts) (suc j) u at h = ground (arith, is_held-get_elem? m ts j u at h)

get_elem?-set_elem :
    (ts : List Thread) (k i : ℕ) (u t : Thread)
    → get_elem? (set_elem ts k u) i ≡ some t
    → ((i ≡ k) × (u ≡ t)) ⊎ (get_elem? ts i ≡ some t)
get_elem?-set_elem [] k i u t at = inr at
get_elem?-set_elem (x ∷ ts) zero zero u t at = inl (refl, some-injective u t at)
get_elem?-set_elem (x ∷ ts) zero (suc i) u t at = inr at
get_elem?-set_elem (x ∷ ts) (suc k) zero u t at = inr at
get_elem?-set_elem (x ∷ ts) (suc k) (suc i) u t at = elim (get_elem?-set_elem ts k i u t at) [
  | inl (e, same) ↦ inl (ap suc e, same)
  | inr old ↦ inr old
]

module _ (ts : List Thread) (k : ℕ) (t0 u0 : Thread) (at0 : get_elem? ts k ≡ some t0)
    (went : turn ts t0 ≡ some u0) (h : IsExclusive ts) where
  -- The thread that went on, and another.
  apart :
      (m : Mutex) (j : ℕ) (u : Thread)
      → get_elem? ts j ≡ some u
      → is_member m u0.held ≡ true
      → is_member m u.held ≡ true
      → k ≡ j
  apart m j u at a b = elim (act-is_member ts t0.held t0.todo u0 m went a) [
    | inl before ↦ h m k j t0 u at0 at before b
    | inr free ↦ absurd (false≢true (sym free ∙ is_held-get_elem? m ts j u at b))
  ]

  set_elem-IsExclusive : IsExclusive (set_elem ts k u0)
  set_elem-IsExclusive m i j t u at_i at_j a b = elim (get_elem?-set_elem ts k i u0 t at_i) [
    | inl (e, same) ↦ elim (get_elem?-set_elem ts k j u0 u at_j) [
      | inl (e2, same2) ↦ e ∙ sym e2
      | inr old ↦ e ∙ apart m j u old (ap (λ x. is_member m x.held) same ∙ a) b
    ]
    | inr old_i ↦ elim (get_elem?-set_elem ts k j u0 u at_j) [
      | inl (e2, same2) ↦
          sym (apart m i t old_i (ap (λ x. is_member m x.held) same2 ∙ b) a) ∙ sym e2
      | inr old_j ↦ h m i j t u old_i old_j a b
    ]
  ]

-- Both stay so.
pub record Safe (ts : List Thread) : Type 0 where
  pub guarded : All IsGuardedThread ts
  pub exclusive : IsExclusive ts

step-Safe : (ts us : List Thread) (i : ℕ) → step i ts ≡ some us → Safe ts → Safe us
step-Safe ts us i e safe =
    let (t, u, at, went, e2) = step-some ts us i e in
    subst Safe e2 (record {
      guarded = All-set_elem IsGuardedThread ts i u safe.guarded (
          act-IsGuardedThread ts t.held t.todo u went
            (All-get_elem? IsGuardedThread ts i t at safe.guarded));
      exclusive = set_elem-IsExclusive ts i t u at went safe.exclusive;
    })

pub run_schedule-Safe :
    (σ : List ℕ) (ts us : List Thread) → run_schedule σ ts ≡ some us → Safe ts → Safe us
unfolding run_schedule
run_schedule-Safe [] ts us e safe = subst Safe (some-injective ts us e) safe
run_schedule-Safe (i ∷ σ) ts us e safe =
    let (vs, s, r) = bind-some (step i ts) (run_schedule σ) us e in
    run_schedule-Safe σ vs us r (step-Safe ts vs i s safe)

-- Two threads whose next act touches the same are one.
pub Safe-access :
    (ts : List Thread) (i j : ℕ) (t u : Thread) (m : Mutex) (later later' : List Act)
    → Safe ts
    → get_elem? ts i ≡ some t
    → get_elem? ts j ≡ some u
    → t.todo ≡ access m ∷ later
    → u.todo ≡ access m ∷ later'
    → i ≡ j
Safe-access ts i j t u m later later' safe at_i at_j e e' =
    safe.exclusive m i j t u at_i at_j
      (subst (IsGuarded t.held) e (All-get_elem? IsGuardedThread ts i t at_i safe.guarded)).0
      (subst (IsGuarded u.held) e' (All-get_elem? IsGuardedThread ts j u at_j safe.guarded)).0
