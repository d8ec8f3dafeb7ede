-- ===== src/Locks/Order.antt =====
-- Locks taken in the order of a rank, for server/src/rooms: each mutex a thread takes ranks above
-- those it holds.
use canchat.Base.{
  arith, ℕ, suc, ◌<◌, ◌≤◌, some, List, [], ◌∷◌, ◌++◌, All, get_elem?, ◌≡◌, refl, sym, subst,
  append_assoc, append-nil,
}
use mathlib.Core.Option.{none-ne-some, some-injective}
use canchat.Base.Options.{bind-some, withheld-some, All-set_elem, All-get_elem?, set_elem, ◌>>=◌}
use canchat.Locks.{step, Mutex, Act, lock, unlock, access, peek, Thread, turn, act, is_held, tail}
use canchat.Locks.Methods.{guarded, each}

-- What a step consists of.
pub step-some :
    (ts us : List Thread) (i : ℕ)
    → step i ts ≡ some us
    → (t u : Thread) × (get_elem? ts i ≡ some t) × (turn ts t ≡ some u) × (set_elem ts i u ≡ us)
unfolding step
step-some ts us i e =
    let (t, at, e1) =
      bind-some (get_elem? ts i) (λ t. turn ts t >>= λ u. some (set_elem ts i u)) us e in
    let (u, went, e2) = bind-some (turn ts t) (λ u. some (set_elem ts i u)) us e1 in
    (t, u, at, went, some-injective (set_elem ts i u) us e2)

module _ (rank : Mutex → ℕ) where
  abbrev pub Below : ℕ → List Mutex → Type 0
  Below n held = All (λ h. rank h < n) held

  -- What a thread has left to do keeps the order and gives back all it holds.
  abbrev pub IsOrdered : List Mutex → List Act → Type 0
  IsOrdered held [] = held ≡ []
  IsOrdered held (lock m ∷ todo) = Below (rank m) held × IsOrdered (m ∷ held) todo
  IsOrdered held (unlock ∷ todo) = IsOrdered (tail held) todo
  IsOrdered held (access m ∷ todo) = IsOrdered held todo
  IsOrdered held (peek m ∷ todo) = IsOrdered held todo

  abbrev pub IsOrderedThread : Thread → Type 0
  IsOrderedThread t = IsOrdered t.held t.todo

  pub Below-mono : (m n : ℕ) (held : List Mutex) → m ≤ n → Below m held → Below n held
  Below-mono m n [] l b = tt
  Below-mono m n (h ∷ held) l b = (omega (arith, b.0), Below-mono m n held l b.1)

  -- Acts that only take mutexes from rank `n` on, and give them back.
  abbrev pub Fits : ℕ → List Act → Type 0
  Fits n acts =
      (held : List Mutex) (todo : List Act)
      → Below n held
      → IsOrdered held todo
      → IsOrdered held (acts ++ todo)

  pub Fits-nil : (n : ℕ) → Fits n []
  Fits-nil n held todo b h = h

  pub Fits-append : (n : ℕ) (xs ys : List Act) → Fits n xs → Fits n ys → Fits n (xs ++ ys)
  Fits-append n xs ys p q held todo b h =
      subst (IsOrdered held) (sym (append_assoc xs ys todo))
        (p held (ys ++ todo) b (q held todo b h))

  pub Fits-guarded :
      (n : ℕ) (m : Mutex) (body : List Act)
      → n ≤ rank m
      → Fits (suc (rank m)) body
      → Fits n (guarded m body)
  Fits-guarded n m body l p held todo b h = (
    Below-mono n (rank m) held l b,
    subst (IsOrdered (m ∷ held)) (sym (append_assoc body (unlock ∷ []) todo)) (
        p (m ∷ held) (unlock ∷ todo) (omega arith, Below-mono n (suc (rank m)) held (omega arith) b)
          h),
  )

  pub Fits-each {ℓ} :
      {A : Type ℓ} (n : ℕ) (body : A → List Act) (xs : List A)
      → ((x : A) → Fits n (body x))
      → Fits n (each body xs)
  Fits-each n body [] p = Fits-nil n
  Fits-each n body (x ∷ xs) p = Fits-append n (body x) (each body xs) (p x) (Fits-each n body xs p)

  -- Done from the start, such acts are in order.
  pub Fits-IsOrdered : (acts : List Act) → Fits 0 acts → IsOrdered [] acts
  Fits-IsOrdered acts p = subst (IsOrdered []) (append-nil acts) (p [] [] tt refl)

  act-IsOrderedThread :
      (ts : List Thread) (held : List Mutex) (todo : List Act) (u : Thread)
      → act ts held todo ≡ some u
      → IsOrdered held todo
      → IsOrderedThread u
  act-IsOrderedThread ts held [] u e h = absurd (none-ne-some u e)
  act-IsOrderedThread ts held (lock m ∷ todo) u e h =
      subst IsOrderedThread
        (withheld-some (is_held m ts) (record { held = m ∷ held; todo = todo }) u e).1 h.1
  act-IsOrderedThread ts held (unlock ∷ todo) u e h =
      subst IsOrderedThread (some-injective (record { held = tail held; todo = todo }) u e) h
  act-IsOrderedThread ts held (access m ∷ todo) u e h =
      subst IsOrderedThread (some-injective (record { held = held; todo = todo }) u e) h
  act-IsOrderedThread ts held (peek m ∷ todo) u e h =
      subst IsOrderedThread (some-injective (record { held = held; todo = todo }) u e) h

  pub step-IsOrderedThread :
      (ts us : List Thread) (i : ℕ)
      → step i ts ≡ some us
      → All IsOrderedThread ts
      → All IsOrderedThread us
  step-IsOrderedThread ts us i e h =
      let (t, u, at, went, e2) = step-some ts us i e in
      subst (All IsOrderedThread) e2 (
        All-set_elem IsOrderedThread ts i u h
          (act-IsOrderedThread ts t.held t.todo u went (All-get_elem? IsOrderedThread ts i t at h)))
