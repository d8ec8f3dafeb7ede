-- ===== src/Base/Heap.antt =====
-- The objects behind `std::shared_ptr`: a store of cells by address. A cell is never taken back;
-- that a count of references reached zero is not part of the store.
use Prim.Native.Nat.{ℕ, ◌+◌, ◌≤◌}
use mathlib.Core.Path.{◌≡◌, ap, fun_ext}
use mathlib.Core.Logic.{◌≢◌}
use native.Mathlib.Omega.{arith}
use mathlib.Core.Option.{Option, none, some}
use canchat.Base.Tests.{if◌then◌else◌}
use canchat.Base.Equality.{nat_same}

pub record Heap {ℓ} (A : Type ℓ) : Type ℓ where
  pub next : ℕ
  pub cell : ℕ → Option A

module _ {ℓ} {A : Type ℓ} where
  abbrev pub empty : Heap A
  empty = record { next = 0; cell = λ _. none }

  -- std::make_shared: the object at the address `h.next`
  abbrev pub alloc : A → Heap A → Heap A
  alloc a h = record {
    next = h.next + 1;
    cell = λ p. if nat_same p h.next then some a else h.cell p;
  }

  abbrev pub write : ℕ → A → Heap A → Heap A
  write q a h = record h { cell = λ p. if nat_same p q then some a else h.cell p }

  pub cell-write : (q : ℕ) (a : A) (h : Heap A) → (write q a h).cell q ≡ some a
  cell-write q a h = ground arith

  pub cell-write_ne : (q p : ℕ) (a : A) (h : Heap A) → p ≢ q → (write q a h).cell p ≡ h.cell p
  cell-write_ne q p a h n = ground arith

  pub cell-alloc : (a : A) (h : Heap A) → (alloc a h).cell h.next ≡ some a
  cell-alloc a h = ground arith

-- Everything past `next` is free.
abbrev pub IsFresh {ℓ} : {A : Type ℓ} → Heap A → Type ℓ
IsFresh h = (p : ℕ) → h.next ≤ p → h.cell p ≡ none

module _ {ℓ} {A : Type ℓ} where
  pub write-write : (q : ℕ) (a b : A) (h : Heap A) → write q b (write q a h) ≡ write q b h
  write-write q a b h = ap (λ c. record h { cell = c }) (fun_ext λ p. ground arith)

  -- A write of what stands there already.
  pub write_same : (q : ℕ) (a : A) (h : Heap A) → h.cell q ≡ some a → write q a h ≡ h
  write_same q a h e = ap (λ c. record h { cell = c }) (fun_ext λ p. ground arith)
