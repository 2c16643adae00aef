-- ===== src/Base/Int.antt =====
-- Signed integers over the native numbers: Go's `int64` and `int32` values, the order on them, the
-- built-in `min`, and the conversion `int32(x)`.
use Prim.Native.Nat.{ℕ, suc, ◌+◌, ◌-◌, ◌*◌, ◌%◌, ◌≤◌, ◌<◌}
use mathlib.Core.Path.{◌≡◌}
use mathlib.Core.Logic.{◌↔◌, ◌⊎◌}
use mathlib.Core.Bool.{Bool, true, false}
use native.Mathlib.Omega.{arith}
use unifi_reactor.Base.Tests.{ltb, leb, ◌==◌, if◌then◌else◌}

-- `negsuc n` is -(n + 1).
pub data ℤ : Type 0 where
  pos : ℕ → ℤ
  negsuc : ℕ → ℤ

abbrev pub pos_part : ℤ → ℕ
pos_part (pos n) = n
pos_part (negsuc n) = 0

abbrev pub neg_part : ℤ → ℕ
neg_part (pos n) = 0
neg_part (negsuc n) = suc n

abbrev pub sub_ℕ : ℕ → ℕ → ℤ
sub_ℕ a b = if leb b a then pos (a - b) else negsuc (b - a - 1)

infix 50 ◌≤ℤ◌ ◌<ℤ◌
abbrev pub ◌≤ℤ◌ : ℤ → ℤ → Type 0
a ≤ℤ b = pos_part a + neg_part b ≤ pos_part b + neg_part a

abbrev pub ◌<ℤ◌ : ℤ → ℤ → Type 0
a <ℤ b = pos_part a + neg_part b < pos_part b + neg_part a

unfoldable pub ltb_ℤ : ℤ → ℤ → Bool
ltb_ℤ a b = ltb (pos_part a + neg_part b) (pos_part b + neg_part a)

unfoldable pub same_ℤ : ℤ → ℤ → Bool
same_ℤ (pos a) (pos b) = a == b
same_ℤ (negsuc a) (negsuc b) = a == b
same_ℤ _ _ = false

-- `a + b`
unfoldable pub add_ℤ : ℤ → ℤ → ℤ
add_ℤ a b = sub_ℕ (pos_part a + pos_part b) (neg_part a + neg_part b)

-- `a - b`
unfoldable pub sub_ℤ : ℤ → ℤ → ℤ
sub_ℤ a b = sub_ℕ (pos_part a + neg_part b) (neg_part a + pos_part b)

-- `a * b`
unfoldable pub mul_ℤ : ℤ → ℤ → ℤ
mul_ℤ a b =
    sub_ℕ (pos_part a * pos_part b + neg_part a * neg_part b)
      (pos_part a * neg_part b + neg_part a * pos_part b)

unfoldable pub min : ℤ → ℤ → ℤ
unfolding ltb_ℤ
min a b = if ltb_ℤ b a then b else a

pub eq_of_parts : (a b : ℤ) → pos_part a + neg_part b ≡ pos_part b + neg_part a → a ≡ b
eq_of_parts a b h = ground arith

pub ltb_ℤ_iff : (a b : ℤ) → (ltb_ℤ a b ≡ false) ↔ (b ≤ℤ a)
unfolding ltb_ℤ
ltb_ℤ_iff a b = ground arith

pub same_ℤ→eq : (a b : ℤ) → same_ℤ a b ≡ true → a ≡ b
unfolding same_ℤ
same_ℤ→eq a b h = ground arith

pub same_ℤ_refl : (a : ℤ) → same_ℤ a a ≡ true
unfolding same_ℤ
same_ℤ_refl a = ground arith

pub lt_of_le_ne : (a b : ℤ) → a ≤ℤ b → same_ℤ b a ≡ false → a <ℤ b
unfolding same_ℤ
lt_of_le_ne a b h k = ground arith

pub min_comm : (a b : ℤ) → min a b ≡ min b a
unfolding min
min_comm a b = ground arith

pub min_assoc : (a b c : ℤ) → min (min a b) c ≡ min a (min b c)
unfolding min
min_assoc a b c = ground arith

pub min-le_left : (a b : ℤ) → min a b ≤ℤ a
unfolding min
min-le_left a b = ground arith

pub min-le_right : (a b : ℤ) → min a b ≤ℤ b
unfolding min
min-le_right a b = ground arith

-- `int32(x)`: the low 32 bits, read as a signed number.
unfoldable pub to_int32 : ℤ → ℤ
to_int32 (pos n) =
    let r = n % 4294967296 in if ltb r 2147483648 then pos r else negsuc (4294967295 - r)
to_int32 (negsuc n) =
    let r = n % 4294967296 in if ltb r 2147483648 then negsuc r else pos (4294967295 - r)

abbrev pub IsInt32 : ℤ → Type 0
IsInt32 a = (pos_part a < 2147483648) × (neg_part a ≤ 2147483648)

pub to_int32_self : (a : ℤ) → IsInt32 a → to_int32 a ≡ a
unfolding to_int32
to_int32_self (pos n) h = ground arith
to_int32_self (negsuc n) h = ground arith

pub min_cases : (a b : ℤ) → (min a b ≡ a) ⊎ (min a b ≡ b)
unfolding min
min_cases a b = ground arith
