-- ===== src/Prelude/Int.antt =====
-- Signed integers over the native numbers, and Go's `int64` as those of them that fit, with the
-- wrap-around of two's complement written out.
use mathlib.Core.Path.{◌≡◌}
use mathlib.Core.Bool.{Bool, true, false}
use Prim.Native.Nat.{ℕ, suc, ◌+◌, ◌-◌, ◌*◌, ◌%◌, ◌≤◌, ◌<◌}
use native.Mathlib.Omega.{arith}
use codexfold.Prelude.Tests.{ltb, leb, ◌==◌, if◌then◌else◌}

-- `negsuc n` is -(n + 1).
pub data ℤ : Type 0 where
  pos : ℕ → ℤ
  negsuc : ℕ → ℤ

abbrev pub pos_part : ℤ → ℕ
pos_part (pos n) = n
pos_part (negsuc n) = 0

abbrev pub neg_part : ℤ → ℕ
neg_part (pos n) = 0
neg_part (negsuc n) = suc n

abbrev pub sub_ℕ : ℕ → ℕ → ℤ
sub_ℕ a b = if leb b a then pos (a - b) else negsuc (b - a - 1)

infix 50 ◌≤ℤ◌
abbrev pub ◌≤ℤ◌ : ℤ → ℤ → Type 0
a ≤ℤ b = pos_part a + neg_part b ≤ pos_part b + neg_part a

abbrev pub ltb_ℤ : ℤ → ℤ → Bool
ltb_ℤ a b = ltb (pos_part a + neg_part b) (pos_part b + neg_part a)

-- The exact sum and difference, before any wrap-around.
abbrev pub exact_add : ℤ → ℤ → ℤ
exact_add a b = sub_ℕ (pos_part a + pos_part b) (neg_part a + neg_part b)

abbrev pub exact_sub : ℤ → ℤ → ℤ
exact_sub a b = sub_ℕ (pos_part a + neg_part b) (neg_part a + pos_part b)

abbrev pub max_int64 : ℕ
max_int64 = 9223372036854775807

abbrev pub IsInt64 : ℤ → Type 0
IsInt64 (pos n) = n ≤ max_int64
IsInt64 (negsuc n) = n ≤ max_int64

-- The `int64` that has the same 64 low bits as an integer.
unfoldable pub wrap : ℤ → ℤ
wrap (pos n) =
    let r = n % 18446744073709551616 in
    if leb r max_int64 then pos r else negsuc (18446744073709551615 - r)
wrap (negsuc n) =
    let r = n % 18446744073709551616 in
    if leb r max_int64 then negsuc r else pos (18446744073709551615 - r)

pub wrap-IsInt64 : (a : ℤ) → IsInt64 (wrap a)
unfolding wrap
wrap-IsInt64 (pos n) = ground arith
wrap-IsInt64 (negsuc n) = ground arith

-- A value that fits is not changed.
pub wrap-eq_of_IsInt64 : (a : ℤ) → IsInt64 a → wrap a ≡ a
unfolding wrap
wrap-eq_of_IsInt64 (pos n) h = ground arith
wrap-eq_of_IsInt64 (negsuc n) h = ground arith

-- `uint64(x)` and `int64(x)`.
unfoldable pub to_uint64 : ℤ → ℕ
to_uint64 (pos n) = n % 18446744073709551616
to_uint64 (negsuc n) = 18446744073709551615 - n % 18446744073709551616

unfoldable pub of_uint64 : ℕ → ℤ
of_uint64 n = if leb n max_int64 then pos n else negsuc (18446744073709551615 - n)

pub to_uint64-lt : (a : ℤ) → to_uint64 a < 18446744073709551616
unfolding to_uint64
to_uint64-lt (pos n) = omega arith
to_uint64-lt (negsuc n) = omega arith

pub of_uint64-to_uint64 : (a : ℤ) → IsInt64 a → of_uint64 (to_uint64 a) ≡ a
unfolding to_uint64 of_uint64
of_uint64-to_uint64 (pos n) h = ground arith
of_uint64-to_uint64 (negsuc n) h = ground arith

-- The same for 32 bits.
abbrev pub IsInt32 : ℤ → Type 0
IsInt32 (pos n) = n ≤ 2147483647
IsInt32 (negsuc n) = n ≤ 2147483647

unfoldable pub to_uint32 : ℤ → ℕ
to_uint32 (pos n) = n % 4294967296
to_uint32 (negsuc n) = 4294967295 - n % 4294967296

unfoldable pub of_uint32 : ℕ → ℤ
of_uint32 n = if leb n 2147483647 then pos n else negsuc (4294967295 - n)

pub to_uint32-lt : (a : ℤ) → to_uint32 a < 4294967296
unfolding to_uint32
to_uint32-lt (pos n) = omega arith
to_uint32-lt (negsuc n) = omega arith

pub of_uint32-to_uint32 : (a : ℤ) → IsInt32 a → of_uint32 (to_uint32 a) ≡ a
unfolding to_uint32 of_uint32
of_uint32-to_uint32 (pos n) h = ground arith
of_uint32-to_uint32 (negsuc n) h = ground arith

-- Equality of integers as a test.
abbrev pub eq_ℤ : ℤ → ℤ → Bool
eq_ℤ (pos a) (pos b) = a == b
eq_ℤ (negsuc a) (negsuc b) = a == b
eq_ℤ _ _ = false

pub eq_ℤ→eq : (a b : ℤ) → eq_ℤ a b ≡ true → a ≡ b
eq_ℤ→eq (pos a) (pos b) h = ground arith
eq_ℤ→eq (pos a) (negsuc b) h = absurd (ground arith)
eq_ℤ→eq (negsuc a) (pos b) h = absurd (ground arith)
eq_ℤ→eq (negsuc a) (negsuc b) h = ground arith

infixl 65 ◌+64◌ ◌-64◌
-- Sums and differences of `int64`.
unfoldable pub ◌+64◌ : ℤ → ℤ → ℤ
a +64 b = wrap (exact_add a b)

unfoldable pub ◌-64◌ : ℤ → ℤ → ℤ
a -64 b = wrap (exact_sub a b)

abbrev pub is_negative : ℤ → Bool
is_negative (pos n) = false
is_negative (negsuc n) = true

-- On values that do not overflow they are the sums and differences of numbers.
pub +64-pos : (a b : ℕ) → a + b ≤ max_int64 → pos a +64 pos b ≡ pos (a + b)
unfolding ◌+64◌ wrap
+64-pos a b h = ground arith

pub -64-pos : (a b : ℕ) → b ≤ a → a ≤ max_int64 → pos a -64 pos b ≡ pos (a - b)
unfolding ◌-64◌ wrap
-64-pos a b h k = ground arith

-- A difference of two numbers that fit never overflows.
pub -64-sub_ℕ : (a b : ℕ) → a ≤ max_int64 → b ≤ max_int64 → pos a -64 pos b ≡ sub_ℕ a b
unfolding ◌-64◌ wrap
-64-sub_ℕ a b h k = ground arith

infixl 70 ◌*64◌
-- Products of `int64`.
unfoldable pub ◌*64◌ : ℤ → ℤ → ℤ
a *64 b = wrap (
    sub_ℕ (pos_part a * pos_part b + neg_part a * neg_part b)
      (pos_part a * neg_part b + neg_part a * pos_part b))

pub *64-pos : (a b : ℕ) → a * b ≤ max_int64 → pos a *64 pos b ≡ pos (a * b)
unfolding ◌*64◌ wrap
*64-pos a b h = grind arith
