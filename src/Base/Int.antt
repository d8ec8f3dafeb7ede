-- ===== src/Base/Int.antt =====
-- `v_int64` values as integers, and the wrap of a signed 64-bit counter.
use Prim.Native.Nat.{ℕ, suc, ◌+◌, ◌-◌, ◌%◌, ◌^◌, ◌≤◌}
use mathlib.Core.Path.{◌≡◌}
use mathlib.Core.Logic.{◌↔◌}
use mathlib.Core.Bool.{Bool, true}
use native.Mathlib.Omega.{arith}
use canchat.Base.Tests.{ltb, leb, if◌then◌else◌}
use canchat.Base.Equality.{Eq, nat_same}

-- `negsuc n` is -(n + 1).
pub data ℤ : Type 0 where
  pos : ℕ → ℤ
  negsuc : ℕ → ℤ

abbrev pub pos_part : ℤ → ℕ
pos_part (pos n) = n
pos_part (negsuc n) = 0

abbrev pub neg_part : ℤ → ℕ
neg_part (pos n) = 0
neg_part (negsuc n) = suc n

-- a - b, as an integer.
abbrev pub sub_ℕ : ℕ → ℕ → ℤ
sub_ℕ a b = if leb b a then pos (a - b) else negsuc (b - a - 1)

infixl 65 ◌+ℤ◌ ◌-ℤ◌
unfoldable pub ◌+ℤ◌ : ℤ → ℤ → ℤ
a +ℤ b = sub_ℕ (pos_part a + pos_part b) (neg_part a + neg_part b)

unfoldable pub ◌-ℤ◌ : ℤ → ℤ → ℤ
a -ℤ b = sub_ℕ (pos_part a + neg_part b) (neg_part a + pos_part b)

infix 50 ◌≤ℤ◌ ◌<ℤ◌
abbrev pub ◌≤ℤ◌ : ℤ → ℤ → Type 0
a ≤ℤ b = pos_part a + neg_part b ≤ pos_part b + neg_part a

abbrev pub ◌<ℤ◌ : ℤ → ℤ → Type 0
a <ℤ b = suc (pos_part a + neg_part b) ≤ pos_part b + neg_part a

abbrev pub ltb_ℤ : ℤ → ℤ → Bool
ltb_ℤ a b = ltb (pos_part a + neg_part b) (pos_part b + neg_part a)

abbrev pub int_same : ℤ → ℤ → Bool
int_same a b = nat_same (pos_part a + neg_part b) (pos_part b + neg_part a)

pub int_same_iff : (a b : ℤ) → (int_same a b ≡ true) ↔ (a ≡ b)
int_same_iff a b = ground arith

instance abbrev pub int_eq : Eq ℤ
int_eq = record { same = int_same; same_iff = int_same_iff }

pub +ℤ_parts :
    (a b : ℤ)
    → pos_part (a +ℤ b) + neg_part a + neg_part b ≡ neg_part (a +ℤ b) + pos_part a + pos_part b
unfolding ◌+ℤ◌
+ℤ_parts a b = ground arith

pub -ℤ_parts :
    (a b : ℤ)
    → pos_part (a -ℤ b) + neg_part a + pos_part b ≡ neg_part (a -ℤ b) + pos_part a + neg_part b
unfolding ◌-ℤ◌
-ℤ_parts a b = ground arith

pub eq_of_parts : (a b : ℤ) → pos_part a + neg_part b ≡ pos_part b + neg_part a → a ≡ b
eq_of_parts a b h = ground arith

pub ruleset int_laws = (arith, +ℤ_parts, -ℤ_parts, eq_of_parts)

-- The largest `v_int32` and `v_int64`.
abbrev pub int32_max : ℕ
int32_max = 2 ^ 31 - 1

abbrev pub int64_max : ℕ
int64_max = 2 ^ 63 - 1

-- `++ c` and `-- c` on an atomic of the range -max - 1 to max, which wraps.
unfoldable pub suc_int : ℕ → ℤ → ℤ
suc_int max c = if int_same c (pos max) then negsuc max else c +ℤ pos 1

unfoldable pub pred_int : ℕ → ℤ → ℤ
pred_int max c = if int_same c (negsuc max) then pos max else c -ℤ pos 1

pub suc_int-eq-add : (max : ℕ) (c : ℤ) → c <ℤ pos max → suc_int max c ≡ c +ℤ pos 1
unfolding suc_int
suc_int-eq-add max c h = ground arith

-- `++ c` on a `std::atomic<v_uint64>`.
unfoldable pub suc_uint64 : ℕ → ℕ
suc_uint64 c = (c + 1) % 2 ^ 64

-- `c += n` on the same type.
unfoldable pub add_uint64 : ℕ → ℕ → ℕ
add_uint64 c n = (c + n) % 2 ^ 64
