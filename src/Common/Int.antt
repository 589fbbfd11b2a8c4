-- ===== src/Common/Int.antt =====
-- Signed integers over the native numbers, for `int` and `int64_t` where they may be negative.
use Prim.Native.Nat.{ℕ, zero, suc, ◌+◌, ◌-◌, ◌*◌, ◌≤◌, ◌/◌, ◌%◌}
use mathlib.Core.Path.{◌≡◌}
use mathlib.Core.Logic.{◌↔◌}
use mathlib.Core.Bool.{Bool, true}
use mathlib.Core.List.{List, [], ◌∷◌}
use native.Mathlib.Omega.{arith}
use vms_engine.Common.Tests.{ltb, leb, nat_beq, if◌then◌else◌, Eq}

-- `negsuc n` is -(n + 1).
pub data ℤ : Type 0 where
  pos : ℕ → ℤ
  negsuc : ℕ → ℤ

abbrev pub pos_part : ℤ → ℕ
pos_part (pos n) = n
pos_part (negsuc n) = 0

abbrev pub neg_part : ℤ → ℕ
neg_part (pos n) = 0
neg_part (negsuc n) = suc n

-- a - b, as an integer.
abbrev pub sub_ℕ : ℕ → ℕ → ℤ
sub_ℕ a b = if leb b a then pos (a - b) else negsuc (b - a - 1)

infixl 65 ◌+ℤ◌ ◌-ℤ◌
infix 50 ◌≤ℤ◌
unfoldable pub ◌+ℤ◌ : ℤ → ℤ → ℤ
a +ℤ b = sub_ℕ (pos_part a + pos_part b) (neg_part a + neg_part b)

unfoldable pub ◌-ℤ◌ : ℤ → ℤ → ℤ
a -ℤ b = sub_ℕ (pos_part a + neg_part b) (neg_part a + pos_part b)

abbrev pub ◌≤ℤ◌ : ℤ → ℤ → Type 0
a ≤ℤ b = pos_part a + neg_part b ≤ pos_part b + neg_part a

-- a < b
abbrev pub ltb_ℤ : ℤ → ℤ → Bool
ltb_ℤ a b = ltb (pos_part a + neg_part b) (pos_part b + neg_part a)

-- a <= b
abbrev pub leb_ℤ : ℤ → ℤ → Bool
leb_ℤ a b = leb (pos_part a + neg_part b) (pos_part b + neg_part a)

abbrev pub int_beq : ℤ → ℤ → Bool
int_beq a b = nat_beq (pos_part a + neg_part b) (pos_part b + neg_part a)

pub +ℤ_parts :
    (a b : ℤ)
    → pos_part (a +ℤ b) + neg_part a + neg_part b ≡ neg_part (a +ℤ b) + pos_part a + pos_part b
unfolding ◌+ℤ◌
+ℤ_parts a b = ground arith

pub -ℤ_parts :
    (a b : ℤ)
    → pos_part (a -ℤ b) + neg_part a + pos_part b ≡ neg_part (a -ℤ b) + pos_part a + neg_part b
unfolding ◌-ℤ◌
-ℤ_parts a b = ground arith

pub eq_of_parts : (a b : ℤ) → pos_part a + neg_part b ≡ pos_part b + neg_part a → a ≡ b
eq_of_parts a b h = ground arith

pub ruleset int_laws = (arith, +ℤ_parts, -ℤ_parts, eq_of_parts)

pub int_beq_iff : (a b : ℤ) → (int_beq a b ≡ true) ↔ (a ≡ b)
int_beq_iff a b = ground arith

instance abbrev pub int_eq : Eq ℤ
int_eq = record { same = int_beq; same_iff = int_beq_iff }

-- The distance from 0.
unfoldable pub abs : ℤ → ℤ
unfolding ◌-ℤ◌
abs a = if ltb_ℤ a (pos 0) then pos 0 -ℤ a else a

pub abs-abs : (a : ℤ) → abs (abs a) ≡ abs a
unfolding abs ◌-ℤ◌
abs-abs (pos n) = ground arith
abs-abs (negsuc n) = ground arith

abbrev pub u32 : ℕ
u32 = 4294967296

-- static_cast<int> of a uint32_t.
unfoldable pub int_of_u32 : ℕ → ℤ
int_of_u32 n = if ltb n 2147483648 then pos n else negsuc (u32 - n - 1)

-- static_cast<int64_t> of a uint64_t.
unfoldable pub int64_of_u64 : ℕ → ℤ
int64_of_u64 n = if ltb n 9223372036854775808 then pos n else negsuc (18446744073709551616 - n - 1)

-- static_cast<int> of any integer: the value modulo 2 ^ 32, as a signed one.
unfoldable pub to_int : ℤ → ℤ
to_int (pos n) = int_of_u32 (n % u32)
to_int (negsuc n) = int_of_u32 (u32 - 1 - n % u32)

-- The value modulo 2 ^ 64, as a signed one: what is left of an overflow of int64_t that wraps.
unfoldable pub to_int64 : ℤ → ℤ
to_int64 (pos n) = int64_of_u64 (n % 18446744073709551616)
to_int64 (negsuc n) = int64_of_u64 (18446744073709551615 - n % 18446744073709551616)

pub to_int64_fits : (a : ℤ) → abs a ≤ℤ pos 9223372036854775807 → to_int64 a ≡ a
unfolding to_int64 int64_of_u64 abs ◌-ℤ◌
to_int64_fits (pos n) h = ground arith
to_int64_fits (negsuc n) h = ground arith

-- std::llabs, whose result for the smallest value wraps to that value.
unfoldable pub llabs : ℤ → ℤ
unfolding to_int64
llabs a = to_int64 (abs a)

pub llabs_fits : (a : ℤ) → abs a ≤ℤ pos 9223372036854775807 → llabs (to_int64 a) ≡ abs a
unfolding llabs
llabs_fits a h = rw (to_int64_fits a h) (to_int64_fits (abs a) (rw (abs-abs a) h))

-- The value modulo `w`: a cast to an unsigned type.
unfoldable pub to_unsigned : ℕ → ℤ → ℕ
to_unsigned w (pos n) = n % w
to_unsigned w (negsuc n) = w - 1 - n % w

-- What an `int` can hold.
abbrev pub FitsInt : ℤ → Type 0
FitsInt a = (a ≤ℤ pos 2147483647) × (negsuc 2147483647 ≤ℤ a)

pub to_int_fits : (a : ℤ) → FitsInt a → to_int a ≡ a
unfolding to_int int_of_u32
to_int_fits (pos n) h = ground arith
to_int_fits (negsuc n) h = ground arith

-- Of two integers with a signed overflow written as wrapping.
unfoldable pub mul_int : ℤ → ℤ → ℤ
mul_int (pos a) (pos b) = to_int (pos (a * b))
mul_int (pos a) (negsuc b) = to_int (sub_ℕ 0 (a * suc b))
mul_int (negsuc a) (pos b) = to_int (sub_ℕ 0 (suc a * b))
mul_int (negsuc a) (negsuc b) = to_int (pos (suc a * suc b))

-- std::to_string on an unsigned value: `digits_onto` writes the decimal digits of `n` before
-- `acc`, one per step of the fuel.
unfoldable pub digits_onto : ℕ → ℕ → List ℕ → List ℕ
digits_onto zero n acc = acc
digits_onto (suc f) n acc =
    let more = digits_onto f (n / 10) ((48 + n % 10) ∷ acc) in
    if ltb n 10 then (48 + n) ∷ acc else more

-- `n + 1` steps are more than the number of digits.
unfoldable pub nat_to_string : ℕ → List ℕ
unfolding digits_onto
nat_to_string n = digits_onto (n + 1) n []

unfoldable pub int_to_string : ℤ → List ℕ
unfolding nat_to_string
int_to_string (pos n) = nat_to_string n
int_to_string (negsuc n) = b'-' ∷ nat_to_string (n + 1)
