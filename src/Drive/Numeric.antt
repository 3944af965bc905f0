-- ===== src/Drive/Numeric.antt =====
-- What reference/simple_drive.py takes from NumPy and the interpreter: parameters, with the
-- documented laws of `clip` that the theorems rest on.
use kaivuriprokkis.Prelude.{ℕ, ◌≡◌, Bool}
use kaivuriprokkis.Prelude.Int.{ℤ, pos}
use kaivuriprokkis.Float.{Float, ◌≼◌}

pub record Numpy (F : Type 0) : Type 0 where
  pub pi : F
  pub exp : F → F
  pub expm1 : F → F
  pub log : F → F
  pub sqrt : F → F
  pub cos : F → F
  pub floor : F → F
  pub is_finite : F → Bool
  -- clip(x, lo, hi), and x % y of Python
  pub clip : F → F → F → F
  pub rem : F → F → F

-- `streams seed k` is what default_rng makes of SeedSequence([seed, k]).spawn(2).
pub record Random (F G : Type 0) : Type 0 where
  pub streams : ℕ → ℤ → G × G
  pub uniform : F → F → G → F × G
  pub standard_normal : G → F × G

pub record IsClip (F : Type 0) ⦃fl : Float F⦄ ⦃np : Numpy F⦄ : Type 0 where
  pub bounds :
      (x lo hi : F)
      → lo ≼ hi
      → np.clip x lo hi ≼ np.clip x lo hi
      → (lo ≼ np.clip x lo hi) × (np.clip x lo hi ≼ hi)
  pub inside : (x lo hi : F) → lo ≼ x → x ≼ hi → np.clip x lo hi ≡ x
  pub add_zero : fl.add (fl.lit (pos 0) 0) (fl.lit (pos 0) 0) ≡ fl.lit (pos 0) 0
