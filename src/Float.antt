-- ===== src/Float.antt =====
-- Python's `min`, `max` and the clamp built of them, over the floats of `Float.Class`.
mod Class
pub mod Fixed
pub use Class.{Float, ◌≼◌, Equals, IsNan, IsOrdered, IsArithmetic}
use kaivuriprokkis.Prelude.{◌≡◌, true, false, arith, if◌then◌else◌}
use kaivuriprokkis.Prelude.Int.{ℤ, pos}

module _ {F : Type 0} ⦃fl : Float F⦄ where
  abbrev pub nought : F
  nought = fl.lit (pos 0) 0

  abbrev pub unit : F
  unit = fl.lit (pos 1) 0

  abbrev pub minus_unit : F
  minus_unit = fl.lit (ℤ.negsuc 0) 0

  -- Python's two-argument `min` and `max` keep the first argument unless the second is strictly
  -- smaller or larger.
  unfoldable pub py_min : F → F → F
  py_min a b = if fl.lt b a then b else a

  unfoldable pub py_max : F → F → F
  py_max a b = if fl.lt a b then b else a

  -- max(lo, min(hi, x))
  unfoldable pub clamp : F → F → F → F
  unfolding py_min py_max
  clamp lo hi x = py_max lo (py_min hi x)

  -- Whatever x is, NaN included, the clamped value is within the bounds.
  pub clamp_bounds :
      (laws : IsOrdered F) (lo hi x : F) → lo ≼ hi → (lo ≼ clamp lo hi x) × (clamp lo hi x ≼ hi)
  unfolding clamp
  clamp_bounds laws lo hi x h = ground (
    arith,
    laws.num_left lo hi h,
    laws.num_right lo hi h,
    laws.le_of_lt lo x,
    laws.le_of_lt x hi,
    laws.le_of_lt lo hi,
  )

  -- A clamped NaN is the upper bound.
  pub clamp_nan : (lo hi x : F) → fl.lt lo hi ≡ true → IsNan x → clamp lo hi x ≡ hi
  unfolding clamp
  clamp_nan lo hi x h n = ground (arith, n hi)

  -- A value within the bounds is kept, as a number.
  pub clamp-Equals : (laws : IsOrdered F) (lo hi x : F) → lo ≼ x → x ≼ hi → Equals (clamp lo hi x) x
  unfolding clamp
  clamp-Equals laws lo hi x h k = ground (
    arith,
    laws.num_left x hi k,
    laws.num_right lo x h,
    laws.num_left lo x h,
    laws.num_right x hi k,
    laws.le_of_not_lt x hi,
    laws.le_of_not_lt lo x,
    laws.le_trans lo x hi h k,
    laws.le_of_not_lt lo hi,
    laws.not_lt_of_le x hi k,
    laws.le_trans hi lo x,
    laws.le_trans hi x lo,
    laws.le_trans x hi lo,
  )

  -- Whatever x is, NaN included, `max(lo, x)` is at least lo.
  pub py_max_bound : (laws : IsOrdered F) (lo x : F) → lo ≼ lo → lo ≼ py_max lo x
  unfolding py_max
  py_max_bound laws lo x h = ground (arith, laws.le_of_lt lo x)
