-- ===== src/Float/Fixed.antt =====
-- A value of the interface: numbers in units of 10 ** -3, an infinity, and NaN. It computes, so the
-- examples run on it, and it meets the order laws.
use llm_trade.Prelude.{◌+◌, ◌*◌, ◌/◌, Bool, true, false, Option, none, some, arith}
use Prim.Native.Nat.{◌^◌}
use llm_trade.Prelude.Int.{ℤ, pos, negsuc, pos_part, neg_part, sub_ℕ, ◌*ℤ◌, ltb_ℤ, leb_ℤ}
use llm_trade.Float.Order.{Float, IsOrdered, IsMonotone, IsSigned}

pub data Fixed : Type 0 where
  num : ℤ → Fixed
  inf : Fixed
  nan : Fixed

-- Division of integers, towards zero.
abbrev quot : ℤ → ℤ → ℤ
quot a b =
    sub_ℕ (pos_part a / pos_part b + neg_part a / neg_part b)
      (pos_part a / neg_part b + neg_part a / pos_part b)

abbrev pub lift : (ℤ → ℤ → ℤ) → Fixed → Fixed → Fixed
lift f (num a) (num b) = num (f a b)
lift f x y = nan

abbrev pub add_fixed : Fixed → Fixed → Fixed
add_fixed (num a) (num b) = num (sub_ℕ (pos_part a + pos_part b) (neg_part a + neg_part b))
add_fixed nan y = nan
add_fixed x nan = nan
add_fixed x y = inf

abbrev pub sub_fixed : Fixed → Fixed → Fixed
sub_fixed (num a) (num b) = num (sub_ℕ (pos_part a + neg_part b) (neg_part a + pos_part b))
sub_fixed inf (num b) = inf
sub_fixed x y = nan

abbrev pub le_fixed : Fixed → Fixed → Bool
le_fixed (num a) (num b) = leb_ℤ a b
le_fixed (num a) inf = true
le_fixed inf inf = true
le_fixed x y = false

abbrev pub lt_fixed : Fixed → Fixed → Bool
lt_fixed (num a) (num b) = ltb_ℤ a b
lt_fixed (num a) inf = true
lt_fixed x y = false

abbrev pub neg_fixed : Fixed → Fixed
neg_fixed (num a) = num (sub_ℕ (neg_part a) (pos_part a))
neg_fixed x = nan

abbrev pub abs_fixed : Fixed → Fixed
abs_fixed (num a) = num (pos (pos_part a + neg_part a))
abs_fixed x = x

abbrev pub finite_fixed : Fixed → Bool
finite_fixed (num a) = true
finite_fixed x = false

abbrev pub floor_fixed : Fixed → Option ℤ
floor_fixed (num (pos n)) = some (pos (n / 1000))
floor_fixed (num (negsuc n)) = some (negsuc (n / 1000))
floor_fixed x = none

abbrev pub ceil_fixed : Fixed → Option ℤ
ceil_fixed (num (pos n)) = some (pos ((n + 999) / 1000))
ceil_fixed (num (negsuc n)) = some (sub_ℕ 0 ((n + 1) / 1000))
ceil_fixed x = none

abbrev pub of_int_fixed : ℤ → Fixed
of_int_fixed a = num (sub_ℕ (1000 * pos_part a) (1000 * neg_part a))

instance abbrev pub fixed_float : Float Fixed
fixed_float = record {
  dec = λ m k. num (pos (m * 1000 / 10 ^ k));
  infinity = inf;
  add = add_fixed;
  sub = sub_fixed;
  mul = lift (λ a b. quot (a *ℤ b) (pos 1000));
  div = lift (λ a b. quot (a *ℤ pos 1000) b);
  neg = neg_fixed;
  abs = abs_fixed;
  lt = lt_fixed;
  le = le_fixed;
  is_finite = finite_fixed;
  floor = floor_fixed;
  ceil = ceil_fixed;
  round = λ k x. x;
  of_int = of_int_fixed;
}

pub Fixed-IsOrdered : IsOrdered Fixed
Fixed-IsOrdered = ground arith

pub Fixed-IsMonotone : IsMonotone Fixed
Fixed-IsMonotone = ground arith

pub Fixed-IsSigned : IsSigned Fixed
Fixed-IsSigned = ground arith
