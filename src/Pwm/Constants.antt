-- ===== src/Pwm/Constants.antt =====
-- reference/modules/pwm/constants.py: hardware and timing constants.
use kaivuriprokkis.Prelude.{ℕ, List, [], ◌∷◌}
use kaivuriprokkis.Prelude.Int.{ℤ, pos}
use kaivuriprokkis.Float.{Float}
use Prim.Native.String.{String}

abbrev pub canonical_channel_names : List String
canonical_channel_names = "slew" ∷ "boom" ∷ "arm" ∷ "bucket" ∷ "trackL" ∷ "trackR" ∷ []

abbrev pub max_channels : ℕ
max_channels = 16

abbrev pub pca9685_count_max : ℕ
pca9685_count_max = 4095

abbrev pub pulse_min_limit : ℤ
pulse_min_limit = pos 0

abbrev pub pulse_max_limit : ℤ
pulse_max_limit = pos 4095

abbrev pub pwm_freq_min : ℤ
pwm_freq_min = pos 30

abbrev pub pwm_freq_max : ℤ
pwm_freq_max = pos 1000

module _ {F : Type 0} ⦃fl : Float F⦄ where
  abbrev pub ramp_dt_max : F
  ramp_dt_max = fl.lit (pos 5) 2

  abbrev pub default_time_window : F
  default_time_window = fl.lit (pos 5) 1
