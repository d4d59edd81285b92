-- ===== src/Prelude/Int.antt =====
-- Go's signed `int`: integers over the native numbers, their tests, and 64-bit addition.
use adjudication.Prelude.Tests.{ltb, leb, ◌==◌, if◌then◌else◌}
use Prim.Native.Nat.{ℕ, suc, ◌+◌, ◌-◌, ◌≤◌, ◌<◌, ◌^◌}
use mathlib.Core.Path.{◌≡◌, ap}
use mathlib.Core.Bool.{Bool, true, false}
use native.Mathlib.Omega.{arith}

-- `negsuc n` is -(n + 1).
pub data ℤ : Type 0 where
  pos : ℕ → ℤ
  negsuc : ℕ → ℤ

abbrev pub pos_part : ℤ → ℕ
pos_part (pos n) = n
pos_part (negsuc n) = 0

abbrev pub neg_part : ℤ → ℕ
neg_part (pos n) = 0
neg_part (negsuc n) = suc n

-- a - b, as an integer.
abbrev pub sub_ℕ : ℕ → ℕ → ℤ
sub_ℕ a b = if leb b a then pos (a - b) else negsuc (b - a - 1)

infixl 65 ◌+ℤ◌ ◌-ℤ◌
infix 50 ◌≤ℤ◌ ◌<ℤ◌
unfoldable pub ◌+ℤ◌ : ℤ → ℤ → ℤ
a +ℤ b = sub_ℕ (pos_part a + pos_part b) (neg_part a + neg_part b)

unfoldable pub ◌-ℤ◌ : ℤ → ℤ → ℤ
a -ℤ b = sub_ℕ (pos_part a + neg_part b) (neg_part a + pos_part b)

abbrev pub ◌≤ℤ◌ : ℤ → ℤ → Type 0
a ≤ℤ b = pos_part a + neg_part b ≤ pos_part b + neg_part a

abbrev pub ◌<ℤ◌ : ℤ → ℤ → Type 0
a <ℤ b = pos_part a + neg_part b < pos_part b + neg_part a

abbrev pub ltb_ℤ : ℤ → ℤ → Bool
ltb_ℤ a b = ltb (pos_part a + neg_part b) (pos_part b + neg_part a)

abbrev pub leb_ℤ : ℤ → ℤ → Bool
leb_ℤ a b = leb (pos_part a + neg_part b) (pos_part b + neg_part a)

abbrev pub eq_ℤ : ℤ → ℤ → Bool
eq_ℤ a b = pos_part a + neg_part b == pos_part b + neg_part a

pub eq_ℤ→eq : (a : ℤ) (n : ℕ) → eq_ℤ a (pos n) ≡ true → a ≡ pos n
eq_ℤ→eq (pos m) n h = ap pos (ground arith)
eq_ℤ→eq (negsuc m) n h = ground arith

pub ltb_ℤ→lt : (a b : ℤ) → ltb_ℤ a b ≡ true → a <ℤ b
ltb_ℤ→lt a b h = ground arith

pub ltb_ℤ→le : (a b : ℤ) → ltb_ℤ a b ≡ false → b ≤ℤ a
ltb_ℤ→le a b h = ground arith

pub leb_ℤ→le : (a b : ℤ) → leb_ℤ a b ≡ true → a ≤ℤ b
leb_ℤ→le a b h = ground arith

pub leb_ℤ→lt : (a b : ℤ) → leb_ℤ a b ≡ false → b <ℤ a
leb_ℤ→lt a b h = ground arith

-- 2 ^ 63.
abbrev pub two63 : ℕ
two63 = 9_223_372_036_854_775_808

-- A sum of two 64-bit integers, brought back into range: the sum wraps round at most once.
wrap64 : ℤ → ℤ
wrap64 z =
    if leb_ℤ (pos two63) z
    then z -ℤ pos (two63 + two63)
    else if ltb_ℤ z (negsuc (two63 - 1))
    then z +ℤ pos (two63 + two63)
    else z

unfoldable pub int_add : ℤ → ℤ → ℤ
unfolding wrap64
int_add a b = wrap64 (a +ℤ b)

pub int_add-pos : (a b : ℕ) → a + b < two63 → int_add (pos a) (pos b) ≡ pos (a + b)
unfolding int_add ◌+ℤ◌ ◌-ℤ◌
int_add-pos a b h = ground arith

pub lt→leb_ℤ : (a b : ℤ) → b <ℤ a → leb_ℤ a b ≡ false
lt→leb_ℤ a b h = ground arith

pub le→ltb_ℤ : (a b : ℤ) → b ≤ℤ a → ltb_ℤ a b ≡ false
le→ltb_ℤ a b h = ground arith

pub ruleset int_tests = (arith, ltb_ℤ→lt, ltb_ℤ→le, leb_ℤ→le, leb_ℤ→lt, lt→leb_ℤ, le→ltb_ℤ)

-- The wrapped double of a number is never above its double.
pub int_add_double-le : (z : ℤ) → pos 0 ≤ℤ z → int_add z z ≤ℤ z +ℤ z
unfolding int_add ◌+ℤ◌ ◌-ℤ◌
int_add_double-le (pos n) h = ground arith
int_add_double-le (negsuc n) h = ground arith

pub +ℤ_parts :
    (a b : ℤ)
    → pos_part (a +ℤ b) + neg_part a + neg_part b ≡ neg_part (a +ℤ b) + pos_part a + pos_part b
unfolding ◌+ℤ◌
+ℤ_parts a b = ground arith

-- A small number doubles without wrapping round.
pub int_add_double : (z : ℤ) → pos 0 ≤ℤ z → z <ℤ pos (2 ^ 62) → int_add z z ≡ z +ℤ z
unfolding int_add ◌+ℤ◌ ◌-ℤ◌
int_add_double (pos n) h k = ground arith
int_add_double (negsuc n) h k = ground arith
