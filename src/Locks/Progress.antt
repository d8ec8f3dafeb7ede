-- ===== src/Locks/Progress.antt =====
-- Threads that keep to a rank, for server/src/rooms: none waits for ever.
use canchat.Base.{
  zero, ◌+◌, ◌≤◌, All, ◌⊎◌, length, arith, inl, inr, ℕ, suc, ◌<◌, true, Bool-cases, some, List, [],
  ◌∷◌, get_elem?, ◌≡◌, refl, sym, subst, ap, ap₂, ◌∙◌, nat_same_iff,
}
use mathlib.Core.Option.{some-injective, none-ne-some}
use mathlib.Core.Bool.{false≢true}
use canchat.Base.Options.{set_elem, All-get_elem?, bind-some, withheld-some}
use canchat.Locks.{
  access, peek, Act, lock, unlock, act, turn, tail, step, run_schedule, acts_left, IsFinished,
  Guard, rooms_mutex, peer_by_id_lock, file_by_id_lock, history_lock, subscribers_lock, chunk_lock,
  data_lock, guard_number, Mutex, same_mutex, Thread, is_held, is_member,
}
use canchat.Locks.Order.{IsOrderedThread, step-IsOrderedThread, step-some, IsOrdered, Below}

abbrev guards : List Guard
guards =
    rooms_mutex ∷ peer_by_id_lock ∷ file_by_id_lock ∷ history_lock ∷ subscribers_lock ∷ chunk_lock
    ∷ data_lock ∷ []

get_elem?-guard_number : (g : Guard) → get_elem? guards (guard_number g) ≡ some g
get_elem?-guard_number rooms_mutex = refl
get_elem?-guard_number peer_by_id_lock = refl
get_elem?-guard_number file_by_id_lock = refl
get_elem?-guard_number history_lock = refl
get_elem?-guard_number subscribers_lock = refl
get_elem?-guard_number chunk_lock = refl
get_elem?-guard_number data_lock = refl

guard_number-injective : (g h : Guard) → guard_number g ≡ guard_number h → g ≡ h
guard_number-injective g h e =
    some-injective g h
      (sym (get_elem?-guard_number g) ∙ ap (get_elem? guards) e ∙ get_elem?-guard_number h)

pub same_mutex_sound : (a b : Mutex) → same_mutex a b ≡ true → a ≡ b
same_mutex_sound a b h =
    ap₂ (λ g o. record { guard = g; object = o })
      (guard_number-injective a.guard b.guard
        ((nat_same_iff (guard_number a.guard) (guard_number b.guard)).0 (ground arith)))
      ((nat_same_iff a.object b.object).0 (ground arith))

-- Somebody who holds a mutex.
holder :
    (m : Mutex) (ts : List Thread)
    → is_held m ts ≡ true
    → (j : ℕ) × (t : Thread) × (get_elem? ts j ≡ some t) × (is_member m t.held ≡ true)
holder m [] h = absurd (false≢true h)
holder m (t ∷ ts) h = elim (Bool-cases (is_member m t.held)) [
  | inl e ↦ (0, t, refl, e)
  | inr e ↦ let (j, u, at, k) = holder m ts (ground arith) in (suc j, u, at, k)
]

module _ (rank : Mutex → ℕ) where
  Below-is_member :
      (n : ℕ) (m : Mutex) (held : List Mutex)
      → Below rank n held
      → is_member m held ≡ true
      → rank m < n
  Below-is_member n m [] b h = absurd (false≢true h)
  Below-is_member n m (k ∷ held) b h = elim (Bool-cases (same_mutex m k)) [
    | inl e ↦ subst (λ x. rank x < n) (sym (same_mutex_sound m k e)) b.0
    | inr e ↦ Below-is_member n m held b.1 (ground arith)
  ]

  IsFinished-free :
      (held : List Mutex) (m : Mutex) → IsOrdered rank held [] → is_member m held ≡ true → ⊥
  IsFinished-free held m h k = false≢true (subst (λ hs. is_member m hs ≡ true) h k)

abbrev pub Moves : List Thread → Type 0
Moves ts = (i : ℕ) × (us : List Thread) × (step i ts ≡ some us)

turn-Moves :
    (ts : List Thread) (i : ℕ) (t u : Thread)
    → get_elem? ts i ≡ some t
    → turn ts t ≡ some u
    → Moves ts
unfolding step
turn-Moves ts i t u at e = (i, set_elem ts i u, rw (at, e) refl)

first_or_rest :
    (ts : List Thread) (held : List Mutex) (todo : List Act)
    → All IsFinished ts
    → All IsFinished (record { held = held; todo = todo } ∷ ts)
      ⊎ ((i : ℕ) × (a : Act) × (h : List Mutex) × (later : List Act) × (get_elem?
              (record { held = held; todo = todo } ∷ ts)
              i
            ≡ some (record { held = h; todo = a ∷ later })))
first_or_rest ts held [] done = inl (refl, done)
first_or_rest ts held (a ∷ todo) done = inr (0, a, held, todo, refl)

-- Something is left to do, or nothing.
unfinished :
    (ts : List Thread)
    → All IsFinished ts
      ⊎ ((i : ℕ) × (a : Act) × (held : List Mutex) × (todo : List Act) × (get_elem? ts i
            ≡ some (record { held = held; todo = a ∷ todo })))
unfinished [] = inl tt
unfinished (t ∷ ts) = elim (unfinished ts) [
  | inr (i, a, held, todo, at) ↦ inr (suc i, a, held, todo, at)
  | inl done ↦ first_or_rest ts t.held t.todo done
]

module _ (rank : Mutex → ℕ) where
  holder-Moves :
      (ts : List Thread) (m : Mutex) (j : ℕ) (held : List Mutex) (todo : List Act)
      → get_elem? ts j ≡ some (record { held = held; todo = todo })
      → IsOrdered rank held todo
      → is_member m held ≡ true
      → ((n : Mutex) (later : List Act)
          → get_elem? ts j ≡ some (record { held = held; todo = lock n ∷ later })
          → rank m < rank n
          → Moves ts)
      → Moves ts
  holder-Moves ts m j held [] at h k go = absurd (IsFinished-free rank held m h k)
  holder-Moves ts m j held (lock n ∷ todo) at h k go =
      go n todo at (Below-is_member rank (rank n) m held h.0 k)
  holder-Moves ts m j held (unlock ∷ todo) at h k go =
      turn-Moves ts j (record { held = held; todo = unlock ∷ todo })
        (record { held = tail held; todo = todo }) at refl
  holder-Moves ts m j held (access n ∷ todo) at h k go =
      turn-Moves ts j (record { held = held; todo = access n ∷ todo })
        (record { held = held; todo = todo }) at refl
  holder-Moves ts m j held (peek n ∷ todo) at h k go =
      turn-Moves ts j (record { held = held; todo = peek n ∷ todo })
        (record { held = held; todo = todo }) at refl

  -- Who waits, waits for one whose next mutex ranks higher, and the ranks end.
  waits-Moves :
      (top fuel : ℕ) (ts : List Thread) (i : ℕ) (m : Mutex) (held : List Mutex) (todo : List Act)
      → ((m : Mutex) → rank m < top)
      → All (IsOrderedThread rank) ts
      → top ≤ fuel + rank m
      → get_elem? ts i ≡ some (record { held = held; todo = lock m ∷ todo })
      → Moves ts
  waits-Moves top zero ts i m held todo bound h l at = absurd (omega (arith, bound m))
  waits-Moves top (suc n) ts i m held todo bound h l at = elim (Bool-cases (is_held m ts)) [
    | inr free ↦
        turn-Moves ts i (record { held = held; todo = lock m ∷ todo })
          (record { held = m ∷ held; todo = todo }) at (rw free refl)
    | inl kept ↦
        let (j, t, at_j, k) = holder m ts kept in
        holder-Moves ts m j t.held t.todo at_j (All-get_elem? (IsOrderedThread rank) ts j t at_j h)
          k (λ o later at_o above. waits-Moves top n ts j o t.held later bound h (omega arith) at_o)
  ]

  -- Threads that keep to the rank are done, or one of them goes on.
  pub ordered-Moves :
      (top : ℕ) (ts : List Thread)
      → ((m : Mutex) → rank m < top)
      → All (IsOrderedThread rank) ts
      → All IsFinished ts ⊎ Moves ts
  ordered-Moves top ts bound h = elim (unfinished ts) [
    | inl done ↦ inl done
    | inr (i, lock m, held, todo, at) ↦
        inr (waits-Moves top top ts i m held todo bound h (omega arith) at)
    | inr (i, unlock, held, todo, at) ↦ inr (
        turn-Moves ts i (record { held = held; todo = unlock ∷ todo })
          (record { held = tail held; todo = todo }) at refl)
    | inr (i, access n, held, todo, at) ↦ inr (
        turn-Moves ts i (record { held = held; todo = access n ∷ todo })
          (record { held = held; todo = todo }) at refl)
    | inr (i, peek n, held, todo, at) ↦ inr (
        turn-Moves ts i (record { held = held; todo = peek n ∷ todo })
          (record { held = held; todo = todo }) at refl)
  ]

acts_left-set_elem :
    (ts : List Thread) (i : ℕ) (t u : Thread)
    → get_elem? ts i ≡ some t
    → acts_left (set_elem ts i u) + length t.todo ≡ acts_left ts + length u.todo
acts_left-set_elem [] i t u at = absurd (none-ne-some t at)
acts_left-set_elem (x ∷ ts) zero t u at =
    let e : length x.todo ≡ length t.todo = ap (λ y. length y.todo) (some-injective x t at) in
    omega arith
acts_left-set_elem (x ∷ ts) (suc i) t u at = omega (arith, acts_left-set_elem ts i t u at)

act-length :
    (ts : List Thread) (held : List Mutex) (todo : List Act) (u : Thread)
    → act ts held todo ≡ some u
    → length todo ≡ suc (length u.todo)
act-length ts held [] u e = absurd (none-ne-some u e)
act-length ts held (lock m ∷ todo) u e =
    ap (λ x. suc (length x.todo))
      (withheld-some (is_held m ts) (record { held = m ∷ held; todo = todo }) u e).1
act-length ts held (unlock ∷ todo) u e =
    ap (λ x. suc (length x.todo)) (some-injective (record { held = tail held; todo = todo }) u e)
act-length ts held (access m ∷ todo) u e =
    ap (λ x. suc (length x.todo)) (some-injective (record { held = held; todo = todo }) u e)
act-length ts held (peek m ∷ todo) u e =
    ap (λ x. suc (length x.todo)) (some-injective (record { held = held; todo = todo }) u e)

acts_left-step :
    (ts us : List Thread) (i : ℕ) → step i ts ≡ some us → acts_left ts ≡ suc (acts_left us)
acts_left-step ts us i e =
    let (t, u, at, went, e2) = step-some ts us i e in
    let l = acts_left-set_elem ts i t u at in
    let k = act-length ts t.held t.todo u went in let s = ap acts_left e2 in omega arith

-- Each turn of a run does one of the acts.
pub acts_left-run_schedule :
    (σ : List ℕ) (ts us : List Thread)
    → run_schedule σ ts ≡ some us
    → length σ + acts_left us ≡ acts_left ts
unfolding run_schedule
acts_left-run_schedule [] ts us e = let s = ap acts_left (some-injective ts us e) in omega arith
acts_left-run_schedule (i ∷ σ) ts us e =
    let (vs, s, r) = bind-some (step i ts) (run_schedule σ) us e in
    omega (arith, acts_left-step ts vs i s, acts_left-run_schedule σ vs us r)

pub run_schedule-IsOrderedThread :
    (rank : Mutex → ℕ) (σ : List ℕ) (ts us : List Thread)
    → run_schedule σ ts ≡ some us
    → All (IsOrderedThread rank) ts
    → All (IsOrderedThread rank) us
unfolding run_schedule
run_schedule-IsOrderedThread rank [] ts us e h =
    subst (All (IsOrderedThread rank)) (some-injective ts us e) h
run_schedule-IsOrderedThread rank (i ∷ σ) ts us e h =
    let (vs, s, r) = bind-some (step i ts) (run_schedule σ) us e in
    run_schedule-IsOrderedThread rank σ vs us r (step-IsOrderedThread rank ts vs i s h)
