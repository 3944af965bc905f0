-- ===== src/Float/Class.antt =====
-- What the program does with a Python float (an IEEE 754 double): any type with these operations.
-- Floats are the interpreter's, not the repository's, so the operations are a parameter, and
-- `IsOrdered` names the documented laws of comparison that the theorems rest on.
use kaivuriprokkis.Prelude.{ℕ, ◌≡◌, Bool, true, false}
use kaivuriprokkis.Prelude.Int.{ℤ, pos, ◌≤ℤ◌}

pub record Float (F : Type 0) : Type 0 where
  -- the double nearest to m / 10 ^ e
  pub lit : ℤ → ℕ → F
  -- float(n), int(x) and x.is_integer()
  pub of_int : ℤ → F
  pub trunc : F → ℤ
  pub is_integer : F → Bool
  pub add : F → F → F
  pub sub : F → F → F
  pub mul : F → F → F
  pub div : F → F → F
  pub neg : F → F
  pub abs : F → F
  pub pow : F → F → F
  pub sin : F → F
  pub lt : F → F → Bool
  pub le : F → F → Bool
  pub eqb : F → F → Bool

infix 4 ◌≼◌
abbrev pub ◌≼◌ : {F : Type 0} ⦃fl : Float F⦄ → F → F → Type 0
◌≼◌ ⦃fl⦄ x y = fl.le x y ≡ true

-- Equal as numbers.
abbrev pub Equals : {F : Type 0} ⦃fl : Float F⦄ → F → F → Type 0
Equals x y = (x ≼ y) × (y ≼ x)

-- Every order comparison with NaN is false.
abbrev pub IsNan : {F : Type 0} ⦃fl : Float F⦄ → F → Type 0
IsNan {F} ⦃fl⦄ x =
    (y : F) → (fl.lt x y ≡ false) × (fl.lt y x ≡ false) × (fl.le x y ≡ false) × (fl.le y x ≡ false)

-- A float is a number when it is `<=` itself; NaN is not. The order is total on numbers only.
pub record IsOrdered (F : Type 0) ⦃fl : Float F⦄ : Type 0 where
  pub le_of_lt : (x y : F) → fl.lt x y ≡ true → x ≼ y
  pub num_left : (x y : F) → x ≼ y → x ≼ x
  pub num_right : (x y : F) → x ≼ y → y ≼ y
  pub le_trans : (x y z : F) → x ≼ y → y ≼ z → x ≼ z
  pub le_of_not_lt : (x y : F) → x ≼ x → y ≼ y → fl.lt x y ≡ false → y ≼ x
  pub not_lt_of_le : (x y : F) → x ≼ y → fl.lt y x ≡ false
  pub of_int_mono : (a b : ℤ) → a ≤ℤ b → fl.of_int a ≼ fl.of_int b
  pub of_int_zero : fl.of_int (pos 0) ≡ fl.lit (pos 0) 0
  pub lit_units : (fl.lit (ℤ.negsuc 0) 0 ≼ fl.lit (pos 0) 0) × (fl.lit (pos 0) 0 ≼ fl.lit (pos 1) 0)

-- The documented laws of rounded arithmetic that the theorems use. NaN spreads through every
-- operation, rounding keeps order, and a difference of equal numbers is zero, or NaN.
pub record IsArithmetic (F : Type 0) ⦃fl : Float F⦄ : Type 0 where
  pub add_num : (x y : F) → fl.add x y ≼ fl.add x y → (x ≼ x) × (y ≼ y)
  pub sub_num : (x y : F) → fl.sub x y ≼ fl.sub x y → (x ≼ x) × (y ≼ y)
  pub mul_num : (x y : F) → fl.mul x y ≼ fl.mul x y → (x ≼ x) × (y ≼ y)
  pub add_grows : (x y : F) → fl.lit (pos 0) 0 ≼ y → fl.add x y ≼ fl.add x y → x ≼ fl.add x y
  pub sub_shrinks : (x y : F) → fl.lit (pos 0) 0 ≼ y → fl.sub x y ≼ fl.sub x y → fl.sub x y ≼ x
  pub sub_nonneg : (x y : F) → x ≼ y → fl.sub y x ≼ fl.sub y x → fl.lit (pos 0) 0 ≼ fl.sub y x
  pub mul_nonneg :
      (x y : F)
      → fl.lit (pos 0) 0 ≼ x
      → fl.lit (pos 0) 0 ≼ y
      → fl.mul x y ≼ fl.mul x y
      → fl.lit (pos 0) 0 ≼ fl.mul x y
  pub abs_nonneg : (x : F) → fl.abs x ≼ fl.abs x → fl.lit (pos 0) 0 ≼ fl.abs x
  pub eqb_zero : fl.eqb (fl.lit (pos 0) 0) (fl.lit (pos 0) 0) ≡ true
  pub mul_zero :
      (n : ℤ) → fl.eqb (fl.mul (fl.lit (pos 0) 0) (fl.of_int n)) (fl.lit (pos 0) 0) ≡ true
  pub sub_self : (x : F) → fl.lt (fl.lit (pos 1) 6) (fl.abs (fl.sub x x)) ≡ false
