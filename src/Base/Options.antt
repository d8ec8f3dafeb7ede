-- ===== src/Base/Options.antt =====
-- Chains of optional results, and one member of a list replaced.
use Prim.Native.Nat.{ℕ, zero, suc}
use mathlib.Core.Path.{◌≡◌, refl, subst}
use mathlib.Core.Option.{Option, none, some, none-ne-some, some-injective}
use mathlib.Core.List.{List, [], ◌∷◌}
use mathlib.Core.Bool.{Bool, true, false}
use canchat.Base.Tests.{if◌then◌else◌}
use canchat.Base.Lists.{All, get_elem?}

infixl 5 ◌>>=◌
abbrev pub ◌>>=◌ {ℓ} : {A B : Type ℓ} → Option A → (A → Option B) → Option B
none >>= f = none
some a >>= f = f a

pub bind-some {ℓ} :
    {A B : Type ℓ} (o : Option A) (f : A → Option B) (b : B)
    → (o >>= f) ≡ some b
    → (a : A) × (o ≡ some a) × (f a ≡ some b)
bind-some none f b e = absurd (none-ne-some b e)
bind-some (some a) f b e = (a, refl, e)

-- A result that a test may withhold.
pub withheld-some {ℓ} :
    {A : Type ℓ} (c : Bool) (x u : A)
    → (if c then none else some x) ≡ some u
    → (c ≡ false) × (x ≡ u)
withheld-some true x u e = absurd (none-ne-some u e)
withheld-some false x u e = (refl, some-injective x u e)

module _ {ℓ} {A : Type ℓ} where
  abbrev pub set_elem : List A → ℕ → A → List A
  set_elem [] i y = []
  set_elem (x ∷ xs) zero y = y ∷ xs
  set_elem (x ∷ xs) (suc i) y = x ∷ set_elem xs i y

  pub All-set_elem {κ} :
      (P : A → Type κ) (xs : List A) (i : ℕ) (y : A) → All P xs → P y → All P (set_elem xs i y)
  All-set_elem P [] i y h p = tt
  All-set_elem P (x ∷ xs) zero y h p = (p, h.1)
  All-set_elem P (x ∷ xs) (suc i) y h p = (h.0, All-set_elem P xs i y h.1 p)

  pub All-get_elem? {κ} :
      (P : A → Type κ) (xs : List A) (i : ℕ) (x : A) → get_elem? xs i ≡ some x → All P xs → P x
  All-get_elem? P [] i x e h = absurd (none-ne-some x e)
  All-get_elem? P (y ∷ xs) zero x e h = subst P (some-injective y x e) h.0
  All-get_elem? P (y ∷ xs) (suc i) x e h = All-get_elem? P xs i x e h.1
