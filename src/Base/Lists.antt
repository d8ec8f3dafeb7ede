-- ===== src/Base/Lists.antt =====
-- Lists measured by native numbers, and predicates on their members.
use Prim.Native.Nat.{ℕ, zero, suc, ◌+◌, ◌-◌, ◌≤◌, ◌<◌}
use mathlib.Core.Path.{◌≡◌, refl, sym}
use mathlib.Core.List.{List, [], ◌∷◌, ◌++◌}
use mathlib.Core.Option.{Option, none, some}
use mathlib.Core.Bool.{Bool, true, false, ◌&&◌, false≢true}
use native.Mathlib.Omega.{arith}
use native.Mathlib.Decide.{dec_le}

module _ {ℓ} {A : Type ℓ} where
  abbrev pub length : List A → ℕ
  length [] = 0
  length (x ∷ xs) = suc (length xs)

  abbrev pub drop : ℕ → List A → List A
  drop zero xs = xs
  drop (suc n) [] = []
  drop (suc n) (x ∷ xs) = drop n xs

  abbrev pub last? : List A → Option A
  last? [] = none
  last? (x ∷ []) = some x
  last? (x ∷ y ∷ xs) = last? (y ∷ xs)

  pub length-append : (xs ys : List A) → length (xs ++ ys) ≡ length xs + length ys
  length-append [] ys = omega arith
  length-append (x ∷ xs) ys = omega (arith, length-append xs ys)

module _ {ℓ} {A : Type ℓ} where
  pub length-drop : (n : ℕ) (xs : List A) → length (drop n xs) ≡ length xs - n
  length-drop zero xs = omega arith
  length-drop (suc n) [] = omega arith
  length-drop (suc n) (x ∷ xs) = omega (arith, length-drop n xs)

  -- The last `n` members.
  abbrev pub take_last : ℕ → List A → List A
  take_last n xs = drop (length xs - n) xs

-- Each member satisfies `P`.
abbrev pub All {ℓ κ} : {A : Type ℓ} → (A → Type κ) → List A → Type κ
All P [] = Unit
All P (y ∷ ys) = P y × All P ys

pub All-append {ℓ κ} :
    {A : Type ℓ} (Q : A → Type κ) (ms ns : List A) → All Q ms → All Q ns → All Q (ms ++ ns)
All-append Q [] ns p q = q
All-append Q (a ∷ ms) ns p q = (p.0, All-append Q ms ns p.1 q)

module _ {ℓ} {A : Type ℓ} where
  pub take_last-cons :
      (n : ℕ) (x : A) (xs : List A) → n ≤ length xs → take_last n (x ∷ xs) ≡ take_last n xs
  take_last-cons n x xs h = let e : suc (length xs) - n ≡ suc (length xs - n) = omega arith in rw e

  pub take_last-short : (n : ℕ) (xs : List A) → length xs ≤ n → take_last n xs ≡ xs
  take_last-short n xs h = let e : length xs - n ≡ 0 = omega arith in rw e

  -- What the last `n` members forget does not matter later.
  pub take_last-append :
      (n : ℕ) (xs ys : List A) → take_last n (take_last n xs ++ ys) ≡ take_last n (xs ++ ys)
  take_last-append n [] ys = rw (take_last-short n [] (omega arith))
  take_last-append n (x ∷ xs) ys = elim (dec_le n (length xs)) [
    | yes h ↦
        rw (take_last-cons n x xs h, take_last-append n xs ys)
          (sym (take_last-cons n x (xs ++ ys) (omega (arith, length-append xs ys))))
    | no h ↦ rw (take_last-short n (x ∷ xs) (omega arith))
  ]

  pub length-take_last : (n : ℕ) (xs : List A) → length (take_last n xs) ≤ n
  length-take_last n xs = omega (arith, length-drop (length xs - n) xs)

  pub nil_of_length : (xs : List A) → length xs ≤ 0 → xs ≡ []
  nil_of_length [] h = refl
  nil_of_length (x ∷ xs) h = absurd (omega arith)

  pub take_last-zero : (xs : List A) → take_last 0 xs ≡ []
  take_last-zero xs = nil_of_length (take_last 0 xs) (length-take_last 0 xs)

module _ {ℓ} {A : Type ℓ} where
  abbrev pub get_elem? : List A → ℕ → Option A
  get_elem? [] i = none
  get_elem? (x ∷ xs) zero = some x
  get_elem? (x ∷ xs) (suc i) = get_elem? xs i

  -- Whether the first `n` members, which are all there, pass a test.
  abbrev pub all_first : ℕ → (A → Bool) → List A → Bool
  all_first zero test xs = true
  all_first (suc n) test [] = false
  all_first (suc n) test (x ∷ xs) = test x && all_first n test xs

  -- So a read below `n` finds a member that passes.
  pub get_elem?-all_first :
      (n i : ℕ) (test : A → Bool) (xs : List A)
      → all_first n test xs ≡ true
      → i < n
      → (x : A) × (get_elem? xs i ≡ some x) × (test x ≡ true)
  get_elem?-all_first zero i test xs h l = absurd (omega arith)
  get_elem?-all_first (suc n) i test [] h l = absurd (false≢true h)
  get_elem?-all_first (suc n) zero test (x ∷ xs) h l = (x, refl, ground arith)
  get_elem?-all_first (suc n) (suc i) test (x ∷ xs) h l =
      get_elem?-all_first n i test xs (ground arith) (omega arith)
