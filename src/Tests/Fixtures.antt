-- ===== src/Tests/Fixtures.antt =====
-- A register file for the chip, and a configuration of two channels and a pump.
use kaivuriprokkis.Prelude.{
  ℕ, ◌+◌, ◌-◌, ltb, leb, Bool, true, false, ◌&&◌, none, some, List, [], ◌∷◌, get_or, length, arith,
  if◌then◌else◌,
}
use kaivuriprokkis.Prelude.Int.{ℤ, pos, negsuc}
use kaivuriprokkis.Prelude.Dict.{Dict}
use kaivuriprokkis.Float.Fixed.{Fixed, fixed_float}
use kaivuriprokkis.Pwm.Config.{ChannelFields, ChannelConfig, PumpConfig, post_init}
use kaivuriprokkis.Pwm.Validation.{Frequency}
use kaivuriprokkis.Pwm.Writer.{I2c, smbus}
use kaivuriprokkis.Pwm.Writer.Blocks.{IsChip}
use kaivuriprokkis.Pwm.Controller.Setup.{Loaded, Settings}
use Prim.Native.String.{String}

abbrev pub Registers : Type 0
Registers = ℕ → ℕ

abbrev written : ℕ → List ℕ → Registers → Registers
written reg bytes r k =
    if leb reg k && ltb k (reg + length bytes) then get_or bytes (k - reg) 0 else r k

-- The first byte of a busio transfer is the register.
abbrev transferred : List ℕ → Registers → Registers
transferred [] r = r
transferred (reg ∷ bytes) r = written reg bytes r

instance abbrev pub registers : I2c Registers
registers = record {
  write_byte_data = λ addr reg value r. (written reg (value ∷ []) r, true);
  write_i2c_block_data = λ addr reg bytes r. (written reg bytes r, true);
  writeto = λ addr bytes r. (transferred bytes r, true);
}

pub Registers-IsChip : IsChip Registers 64 (λ r k. r k)
Registers-IsChip = record {
  inside = λ reg bytes r i through h. ground arith;
  below = λ reg bytes r k h. ground arith;
}

abbrev pub blank : Registers
blank k = 0

abbrev pub whole : ℕ → Fixed
whole n = fixed_float.of_int (pos n)

abbrev pub track_fields : ℤ → Bool → ChannelFields Fixed
track_fields output affects = record {
  output_channel = output;
  pulse_min = pos 1000;
  pulse_max = pos 2000;
  direction = negsuc 0;
  center = none;
  deadzone = whole 5;
  affects_pump = affects;
  toggleable = true;
  deadband_us_pos = whole 40;
  deadband_us_neg = whole 30;
  dither_enable = true;
  dither_amp_us = whole 8;
  dither_hz = whole 50;
  dither_taper = true;
  dither_taper_us = whole 20;
  ramp_enable = true;
  ramp_limit = whole 2;
  ramp_skip_deadband = true;
  gamma = whole 1;
}

abbrev pub track : ChannelConfig Fixed
track = post_init (track_fields (pos 3) true)

abbrev pub boom : ChannelConfig Fixed
boom = post_init (track_fields (pos 7) false)

abbrev pub channels : Dict String (ChannelConfig Fixed)
channels = ("trackR", track) ∷ ("lift_boom", boom) ∷ []

abbrev pub pump : PumpConfig Fixed
pump = record {
  output_channel = pos 9;
  pulse_min = pos 900;
  pulse_max = pos 1900;
  static_pulse_us = whole 1200;
  base_pulse_us = whole 1300;
  activity_gain_us = whole 400;
}

abbrev pub loaded : Loaded Fixed
loaded = record { channels = channels; pump = some pump; frequency = Frequency.integer (pos 50) }

abbrev pub settings : Settings Fixed
settings = record {
  pump_auto_mode = true;
  toggle_channels = true;
  input_rate_threshold = whole 5;
  default_unset_to_zero = true;
  stale_timeout_s = whole 1;
  cleanup_disable_osc = false;
  pwm_frequency = none;
  driver = smbus;
  i2c_addr = 64;
}
