-- ===== src/Float/Fixed.antt =====
-- A concrete number type with which the definitions run: whole millionths, and `none` for NaN.
use kaivuriprokkis.Prelude.{
  ℕ, suc, ◌+◌, ◌/◌, ◌%◌, ◌^◌, ◌==◌, Bool, false, Option, none, some, arith, if◌then◌else◌,
}
use kaivuriprokkis.Prelude.Int.{
  ℤ, pos, negsuc, pos_part, neg_part, ◌+ℤ◌, ◌-ℤ◌, ◌*ℤ◌, ltb_ℤ, leb_ℤ, eqb_ℤ,
}
use kaivuriprokkis.Float.Class.{Float, IsOrdered, IsArithmetic}

abbrev pub Fixed : Type 0
Fixed = Option ℤ

abbrev scale : ℕ
scale = 1_000_000

-- a / n, rounded toward zero
abbrev div_ℕ : ℤ → ℕ → ℤ
div_ℕ (pos a) n = pos (a / n)
div_ℕ (negsuc a) n = pos 0 -ℤ pos (suc a / n)

abbrev on_both : (ℤ → ℤ → ℤ) → Fixed → Fixed → Fixed
on_both f (some a) (some b) = some (f a b)
on_both f _ _ = none

abbrev on_one : (ℤ → ℤ) → Fixed → Fixed
on_one f (some a) = some (f a)
on_one f none = none

abbrev test : (ℤ → ℤ → Bool) → Fixed → Fixed → Bool
test f (some a) (some b) = f a b
test f _ _ = false

abbrev negate : ℤ → ℤ
negate a = pos 0 -ℤ a

abbrev quotient : ℤ → ℤ → ℤ
quotient a (pos b) = div_ℕ (a *ℤ pos scale) b
quotient a (negsuc b) = negate (div_ℕ (a *ℤ pos scale) (suc b))

abbrev truncate : Fixed → ℤ
truncate (some a) = div_ℕ a scale
truncate none = pos 0

abbrev is_whole : Fixed → Bool
is_whole (some a) = pos_part a % scale + neg_part a % scale == 0
is_whole none = false

-- `pow` and `sin` are stand-ins: no law mentions them.
instance abbrev pub fixed_float : Float Fixed
fixed_float = record {
  lit = λ m e. some (div_ℕ (m *ℤ pos scale) (10 ^ e));
  of_int = λ n. some (n *ℤ pos scale);
  trunc = truncate;
  is_integer = is_whole;
  add = on_both ◌+ℤ◌;
  sub = on_both ◌-ℤ◌;
  mul = on_both λ a b. div_ℕ (a *ℤ b) scale;
  div = on_both quotient;
  neg = on_one negate;
  abs = on_one λ a. if ltb_ℤ a (pos 0) then negate a else a;
  pow = λ x y. x;
  sin = λ x. on_one (λ a. pos 0) x;
  lt = test ltb_ℤ;
  le = test leb_ℤ;
  eqb = test eqb_ℤ;
}

pub Fixed-IsOrdered : IsOrdered Fixed
unfolding ◌*ℤ◌ ◌-ℤ◌
Fixed-IsOrdered = ground arith

pub Fixed-IsArithmetic : IsArithmetic Fixed
unfolding ◌*ℤ◌ ◌-ℤ◌ ◌+ℤ◌
Fixed-IsArithmetic = ground arith
