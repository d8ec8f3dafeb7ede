-- ===== src/Base/Map.antt =====
-- `std::unordered_map` as a list of entries, for keys with an equality test.
-- An insertion keeps the place of the key that it replaces; the order of entries is the order in
-- which the loops of the program visit them, and no theorem says which it is.
use mathlib.Core.Path.{◌≡◌, refl}
use mathlib.Core.Logic.{◌≢◌}
use mathlib.Core.Option.{Option, none, some}
use mathlib.Core.List.{List, [], ◌∷◌}
use native.Mathlib.Omega.{arith}
use canchat.Base.Tests.{if◌then◌else◌}
use canchat.Base.Equality.{Eq, ◌==◌}
use canchat.Base.Lists.{All}

abbrev pub Map {ℓ κ} : Type ℓ → Type κ → Type (ℓ ⊔ κ)
Map K V = List (K × V)

abbrev pub values {ℓ κ} : {K : Type ℓ} {V : Type κ} → Map K V → List V
values [] = []
values ((k, v) ∷ m) = v ∷ values m

module _ {ℓ κ} {K : Type ℓ} {V : Type κ} ⦃e : Eq K⦄ where
  -- m.find(k)
  unfoldable pub get : K → Map K V → Option V
  get k [] = none
  get k ((j, v) ∷ m) = if j == k then some v else get k m

  -- m[k] = v
  unfoldable pub insert : K → V → Map K V → Map K V
  insert k v [] = (k, v) ∷ []
  insert k v ((j, w) ∷ m) = if j == k then (k, v) ∷ m else (j, w) ∷ insert k v m

  -- m.erase(k)
  unfoldable pub erase : K → Map K V → Map K V
  erase k [] = []
  erase k ((j, w) ∷ m) = let rest = erase k m in if j == k then rest else (j, w) ∷ rest

  pub get-insert :
      (k j : K) (v : V) (m : Map K V) → get j (insert k v m) ≡ (if k == j then some v else get j m)
  unfolding get insert
  get-insert k j v [] = refl
  get-insert k j v ((i, w) ∷ m) =
      ground (arith, e.same_iff k j, e.same_iff i k, e.same_iff i j, get-insert k j v m)

  pub get-erase : (k j : K) (m : Map K V) → get j (erase k m) ≡ (if k == j then none else get j m)
  unfolding get erase
  get-erase k j [] = ground arith
  get-erase k j ((i, w) ∷ m) =
      ground (arith, e.same_iff k j, e.same_iff i k, e.same_iff i j, get-erase k j m)

  pub get-insert_ne : (k j : K) (v : V) (m : Map K V) → j ≢ k → get j (insert k v m) ≡ get j m
  get-insert_ne k j v m n = ground (arith, n, get-insert k j v m, e.same_iff k j)

  pub get-erase_same : (k : K) (m : Map K V) → get k (erase k m) ≡ none
  get-erase_same k m = ground (arith, get-erase k k m, e.same_iff k k)

  pub get-erase_ne : (k j : K) (m : Map K V) → j ≢ k → get j (erase k m) ≡ get j m
  get-erase_ne k j m n = ground (arith, n, get-erase k j m, e.same_iff k j)

  erase_absent : (k : K) (m : Map K V) → get k m ≡ none → erase k m ≡ m
  unfolding get erase
  erase_absent k [] n = refl
  erase_absent k ((j, w) ∷ m) n = ground (arith, erase_absent k m)

  -- To insert a new key and to erase it.
  pub erase-insert : (k : K) (v : V) (m : Map K V) → get k m ≡ none → erase k (insert k v m) ≡ m
  unfolding get insert erase
  erase-insert k v [] n = ground (arith, e.same_iff k k)
  erase-insert k v ((j, w) ∷ m) n =
      ground (arith, e.same_iff j k, e.same_iff k k, erase-insert k v m, erase_absent k m)

  -- No key has two entries.
  abbrev pub Distinct : Map K V → Type κ
  Distinct [] = Unit
  Distinct ((k, v) ∷ m) = (get k m ≡ none) × Distinct m

  pub insert-Distinct : (k : K) (v : V) (m : Map K V) → Distinct m → Distinct (insert k v m)
  unfolding insert get
  insert-Distinct k v [] d = (refl, tt)
  insert-Distinct k v ((j, w) ∷ m) d =
      ground (arith, e.same_iff j k, e.same_iff k j, get-insert k j v m, insert-Distinct k v m d.1)

  pub erase-Distinct : (k : K) (m : Map K V) → Distinct m → Distinct (erase k m)
  unfolding erase get
  erase-Distinct k [] d = tt
  erase-Distinct k ((j, w) ∷ m) d = ground (arith, get-erase k j m, erase-Distinct k m d.1)

  pub All-insert {μ} :
      (P : V → Type μ) (k : K) (v : V) (m : Map K V)
      → P v
      → All P (values m)
      → All P (values (insert k v m))
  unfolding insert
  All-insert P k v [] p h = (p, tt)
  All-insert P k v ((j, w) ∷ m) p h = ground (arith, All-insert P k v m p h.1)

  pub All-erase {μ} :
      (P : V → Type μ) (k : K) (m : Map K V) → All P (values m) → All P (values (erase k m))
  unfolding erase
  All-erase P k [] h = tt
  All-erase P k ((j, w) ∷ m) h = ground (arith, All-erase P k m h.1)

pub ruleset map_laws = (get-insert, get-erase)
