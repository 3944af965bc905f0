-- ===== src/Tests/Loading.antt =====
-- The configuration at a concrete document: one channel and the pump, the other channels off.
use kaivuriprokkis.Prelude.{ℕ, ◌≡◌, true, false, none, some, List, [], ◌∷◌, refl, All, arith}
use kaivuriprokkis.Prelude.Int.{pos, negsuc, ◌*ℤ◌, ◌+ℤ◌, ◌-ℤ◌}
use kaivuriprokkis.Prelude.Dict.{Dict, lookup, insert}
use kaivuriprokkis.Float.Fixed.{Fixed, fixed_float}
use kaivuriprokkis.Pwm.Config.{post_init}
use kaivuriprokkis.Pwm.Constants.{canonical_channel_names}
use kaivuriprokkis.Pwm.Validation.{
  collect_config_validation_errors, Frequency, raised, frequency_checks, channel_errors,
  channel_checks, is_used, mark_used, pump_errors, pump_checks,
}
use kaivuriprokkis.Pwm.Validation.Gaps.{nan_shaping_passes}
use kaivuriprokkis.Pwm.Validation.Sound.{IsValidConfig, collect-IsValidConfig}
use kaivuriprokkis.Pwm.Parse.{
  missing_from, pump_config_of, channel_fields_of, Scalar, Entry, Channels, Document,
}
use kaivuriprokkis.Pwm.Load.{
  parse_entry, Parsed, nothing_parsed, parse_config, parse_entries, read_config_data,
  read_config_data-IsValidConfig, loaded_of,
}
use kaivuriprokkis.Pwm.Load.Taken.{IsTaken, parse_config-taken}
use kaivuriprokkis.Pwm.Controller.Setup.{Loaded}
use kaivuriprokkis.Tests.Fixtures.{track, channels, pump, whole}
use Prim.Native.String.{String}

abbrev int : ℕ → Scalar Fixed
int n = Scalar.integer (pos n)

abbrev switched_off : Dict String (Scalar Fixed)
switched_off = ("enabled", Scalar.boolean false) ∷ []

abbrev track_entry : Dict String (Scalar Fixed)
track_entry =
    ("output_channel", int 3)
    ∷ ("pulse_min", int 1000)
    ∷ ("pulse_max", Scalar.real (whole 2000))
    ∷ ("direction", Scalar.integer (negsuc 0))
    ∷ ("center", Scalar.characters "None")
    ∷ ("deadzone", int 5)
    ∷ ("affects_pump", Scalar.boolean true)
    ∷ ("toggleable", int 1)
    ∷ ("deadband_us_pos", int 40)
    ∷ ("deadband_us_neg", int 30)
    ∷ ("dither_enable", Scalar.boolean false)
    ∷ ("dither_amp_us", int 8)
    ∷ ("dither_hz", int 50)
    ∷ ("dither_taper", Scalar.boolean true)
    ∷ ("dither_taper_us", int 20)
    ∷ ("ramp_enable", Scalar.boolean false)
    ∷ ("ramp_limit", int 2)
    ∷ ("ramp_skip_deadband", Scalar.boolean true)
    ∷ ("gamma", int 1)
    ∷ []

abbrev pump_entry : Dict String (Scalar Fixed)
pump_entry =
    ("output_channel", int 9)
    ∷ ("pulse_min", int 900)
    ∷ ("pulse_max", int 1900)
    ∷ ("static_pulse_us", int 1200)
    ∷ ("base_pulse_us", int 1300)
    ∷ ("activity_gain_us", int 400)
    ∷ []

abbrev absent : List String → Dict String (Entry Fixed)
absent [] = []
absent (name ∷ names) = (name, Entry.mapping switched_off) ∷ absent names

abbrev configs : Dict String (Entry Fixed)
configs =
    ("track", Entry.mapping track_entry)
    ∷ ("pump", Entry.mapping pump_entry)
    ∷ absent canonical_channel_names

abbrev document : Document Fixed
document = Document.top (some (Channels.entries configs)) (some (int 50))

abbrev parsed : Parsed Fixed
parsed = parse_entries configs nothing_parsed

abbrev read : Loaded Fixed
read = loaded_of (some (int 50)) parsed

collect-IsValidConfig_example : IsValidConfig channels (some pump)
unfolding collect_config_validation_errors raised frequency_checks channel_errors channel_checks
    post_init is_used ◌*ℤ◌ ◌+ℤ◌ ◌-ℤ◌ mark_used insert pump_errors pump_checks
collect-IsValidConfig_example =
    collect-IsValidConfig channels (some pump) (Frequency.integer (pos 50)) refl

parse_config-taken_example : All (λ e. IsTaken e.0 e.1) configs
unfolding parse_config parse_entry lookup missing_from pump_config_of channel_fields_of ◌*ℤ◌
parse_config-taken_example = parse_config-taken configs parsed refl

read_config_data-IsValidConfig_example : IsValidConfig read.channels read.pump
unfolding read_config_data parse_entry pump_config_of channel_fields_of ◌*ℤ◌ ◌+ℤ◌ ◌-ℤ◌
    collect_config_validation_errors raised frequency_checks insert channel_errors channel_checks
    post_init is_used pump_errors pump_checks mark_used lookup missing_from
read_config_data-IsValidConfig_example = read_config_data-IsValidConfig document read refl

nan_shaping_passes_example :
    raised (
      channel_checks [] "track"
        (record track { deadband_us_pos = none; deadband_us_neg = none; gamma = none }))
    ≡ []
unfolding raised channel_checks post_init is_used ◌*ℤ◌ ◌+ℤ◌ ◌-ℤ◌ lookup
nan_shaping_passes_example = nan_shaping_passes [] "track" track none (λ y. ground arith) refl
