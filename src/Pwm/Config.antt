-- ===== src/Pwm/Config.antt =====
-- reference/modules/pwm/config.py: the configuration of a channel and of the pump.
use kaivuriprokkis.Prelude.{Bool, Option, none, some}
use kaivuriprokkis.Prelude.Int.{ℤ, pos, ◌-ℤ◌}
use kaivuriprokkis.Float.{Float}

-- The fields as they are given, `center` being optional.
pub record ChannelFields (F : Type 0) : Type 0 where
  pub output_channel : ℤ
  pub pulse_min : ℤ
  pub pulse_max : ℤ
  pub direction : ℤ
  pub center : Option F
  pub deadzone : F
  pub affects_pump : Bool
  pub toggleable : Bool
  pub deadband_us_pos : F
  pub deadband_us_neg : F
  pub dither_enable : Bool
  pub dither_amp_us : F
  pub dither_hz : F
  pub dither_taper : Bool
  pub dither_taper_us : F
  pub ramp_enable : Bool
  pub ramp_limit : F
  pub ramp_skip_deadband : Bool
  pub gamma : F

-- A `ChannelConfig` after `__post_init__`: the centre is set, and four fields are derived.
pub record ChannelConfig (F : Type 0) : Type 0 where
  pub output_channel : ℤ
  pub pulse_min : ℤ
  pub pulse_max : ℤ
  pub direction : ℤ
  pub center : F
  pub deadzone : F
  pub affects_pump : Bool
  pub toggleable : Bool
  pub deadband_us_pos : F
  pub deadband_us_neg : F
  pub dither_enable : Bool
  pub dither_amp_us : F
  pub dither_hz : F
  pub dither_taper : Bool
  pub dither_taper_us : F
  pub ramp_enable : Bool
  pub ramp_limit : F
  pub ramp_skip_deadband : Bool
  pub gamma : F
  pub pulse_range : ℤ
  pub deadzone_threshold : F
  pub dither_omega : F
  pub dither_phase_offset : F

pub record PumpConfig (F : Type 0) : Type 0 where
  pub output_channel : ℤ
  pub pulse_min : ℤ
  pub pulse_max : ℤ
  pub static_pulse_us : F
  pub base_pulse_us : F
  pub activity_gain_us : F

module _ {F : Type 0} ⦃fl : Float F⦄ where
  open fl use {lit, of_int, add, mul, div}

  -- min + range / 2, where the centre is not given
  abbrev pub center_of : Option F → ℤ → ℤ → F
  center_of (some c) low range = c
  center_of none low range = add (of_int low) (div (of_int range) (lit (pos 2) 0))

  unfoldable pub post_init : ChannelFields F → ChannelConfig F
  post_init f = record {
    output_channel = f.output_channel;
    pulse_min = f.pulse_min;
    pulse_max = f.pulse_max;
    direction = f.direction;
    center = center_of f.center f.pulse_min (f.pulse_max -ℤ f.pulse_min);
    deadzone = f.deadzone;
    affects_pump = f.affects_pump;
    toggleable = f.toggleable;
    deadband_us_pos = f.deadband_us_pos;
    deadband_us_neg = f.deadband_us_neg;
    dither_enable = f.dither_enable;
    dither_amp_us = f.dither_amp_us;
    dither_hz = f.dither_hz;
    dither_taper = f.dither_taper;
    dither_taper_us = f.dither_taper_us;
    ramp_enable = f.ramp_enable;
    ramp_limit = f.ramp_limit;
    ramp_skip_deadband = f.ramp_skip_deadband;
    gamma = f.gamma;
    pulse_range = f.pulse_max -ℤ f.pulse_min;
    deadzone_threshold = div f.deadzone (lit (pos 100) 0);
    -- 2.0 * math.pi, the double, to its seventeen digits
    dither_omega = mul (lit (pos 6_283_185_307_179_586) 15) f.dither_hz;
    dither_phase_offset = mul (of_int f.output_channel) (lit (pos 10_471_975_512) 10);
  }
