-- ===== src/Pwm/Validation.antt =====
-- reference/modules/pwm/validation.py: the semantic checks on a parsed configuration.
pub mod Sound
pub mod Gaps
use kaivuriprokkis.Prelude.{
  ℕ, Bool, true, false, not, ◌&&◌, ◌||◌, Option, none, some, List, [], ◌∷◌, ◌++◌, if◌then◌else◌,
}
use kaivuriprokkis.Prelude.Int.{ℤ, pos, negsuc, ◌-ℤ◌, ltb_ℤ, leb_ℤ, eqb_ℤ}
use kaivuriprokkis.Prelude.Dict.{Dict, insert, lookup}
use kaivuriprokkis.Float.{Float, nought}
use kaivuriprokkis.Pwm.Constants.{
  max_channels, pulse_min_limit, pulse_max_limit, pwm_freq_min, pwm_freq_max,
}
use kaivuriprokkis.Pwm.Config.{ChannelConfig, PumpConfig}
use Prim.Native.String.{String}

-- The error messages, by the check that gives them; a channel's carry its name.
pub data Issue : Type 0 where
  frequency_missing frequency_not_number frequency_out_of_range no_channel : Issue
  direction output_used output_range pulse_min_range pulse_max_range pulse_order : String → Issue
  center_range deadband_pos deadband_neg dither_amp dither_hz : String → Issue
  dither_amp_zero dither_hz_zero dither_taper_zero ramp_limit gamma_range : String → Issue
  pump_output_used pump_output_range pump_pulse_min_range pump_pulse_max_range : Issue
  pump_pulse_order pump_static pump_base pump_gain : Issue

-- A value of `pwm_frequency` as the YAML file gives it; `other` is neither a number nor null.
pub data Frequency (F : Type 0) : Type 0 where
  missing other : Frequency F
  integer : ℤ → Frequency F
  real : F → Frequency F

-- The issues whose test holds, in order.
unfoldable pub raised : List (Bool × Issue) → List Issue
raised [] = []
raised ((b, e) ∷ cs) = if b then e ∷ raised cs else raised cs

-- not lo <= x <= hi
abbrev pub outside : ℤ → ℤ → ℤ → Bool
outside lo hi x = not (leb_ℤ lo x && leb_ℤ x hi)

abbrev pub outside_channels : ℤ → Bool
outside_channels c = not (leb_ℤ (pos 0) c && ltb_ℤ c (pos max_channels))

abbrev pub is_some {ℓ} : {A : Type ℓ} → Option A → Bool
is_some none = false
is_some (some _) = true

abbrev pub UsedOutputs : Type 0
UsedOutputs = Dict ℤ String

-- config.output_channel in used_outputs
unfoldable pub is_used : UsedOutputs → ℤ → Bool
unfolding lookup
is_used used c = is_some (lookup eqb_ℤ c used)

abbrev pub is_empty {ℓ} : {A : Type ℓ} → List A → Bool
is_empty [] = true
is_empty (_ ∷ _) = false

module _ {F : Type 0} ⦃fl : Float F⦄ where
  open fl use {lit, of_int, trunc, mul, lt, le}

  unfoldable pub frequency_checks : Frequency F → List (Bool × Issue)
  frequency_checks Frequency.missing = (true, frequency_missing) ∷ []
  frequency_checks Frequency.other = (true, frequency_not_number) ∷ []
  frequency_checks (Frequency.integer n) =
      (outside pwm_freq_min pwm_freq_max n, frequency_out_of_range) ∷ []
  frequency_checks (Frequency.real x) =
      (outside pwm_freq_min pwm_freq_max (trunc x), frequency_out_of_range) ∷ []

  -- float(x) < 0.0 or float(x) > bound
  abbrev pub unrealistic : F → F → Bool
  unrealistic x bound = lt x nought || lt bound x

  unfoldable pub channel_checks : UsedOutputs → String → ChannelConfig F → List (Bool × Issue)
  channel_checks used name c =
      let rng = of_int (c.pulse_max -ℤ c.pulse_min) in
      let taken = is_used used c.output_channel in
      (not (eqb_ℤ c.direction (negsuc 0) || eqb_ℤ c.direction (pos 1)), direction name)
      ∷ (taken, output_used name)
      ∷ (not taken && outside_channels c.output_channel, output_range name)
      ∷ (outside pulse_min_limit pulse_max_limit c.pulse_min, pulse_min_range name)
      ∷ (outside pulse_min_limit pulse_max_limit c.pulse_max, pulse_max_range name)
      ∷ (leb_ℤ c.pulse_max c.pulse_min, pulse_order name)
      ∷ (
        not (le (of_int c.pulse_min) c.center && le c.center (of_int c.pulse_max)),
        center_range name,
      )
      ∷ (unrealistic c.deadband_us_pos (mul rng (lit (pos 5) 1)), deadband_pos name)
      ∷ (unrealistic c.deadband_us_neg (mul rng (lit (pos 5) 1)), deadband_neg name)
      ∷ (unrealistic c.dither_amp_us (mul rng (lit (pos 25) 2)), dither_amp name)
      ∷ (unrealistic c.dither_hz (lit (pos 200) 0), dither_hz name)
      ∷ (c.dither_enable && le c.dither_amp_us nought, dither_amp_zero name)
      ∷ (c.dither_enable && le c.dither_hz nought, dither_hz_zero name)
      ∷ (c.dither_enable && c.dither_taper && le c.dither_taper_us nought, dither_taper_zero name)
      ∷ (c.ramp_enable && le c.ramp_limit nought, ramp_limit name)
      ∷ (le c.gamma nought || lt (lit (pos 5) 0) c.gamma, gamma_range name)
      ∷ []

  -- The output is recorded only where it is neither taken nor out of range.
  unfoldable pub mark_used : UsedOutputs → String → ChannelConfig F → UsedOutputs
  mark_used used name c =
      if is_used used c.output_channel || outside_channels c.output_channel
      then used
      else insert eqb_ℤ c.output_channel name used

  -- The loop over `channel_configs.items()`, with the outputs that it leaves.
  unfoldable pub channel_errors :
      UsedOutputs → Dict String (ChannelConfig F) → List Issue × UsedOutputs
  channel_errors used [] = ([], used)
  channel_errors used ((name, c) ∷ cs) =
      let (errors, used') = channel_errors (mark_used used name c) cs in
      (raised (channel_checks used name c) ++ errors, used')

  unfoldable pub pump_checks : UsedOutputs → PumpConfig F → List (Bool × Issue)
  pump_checks used p =
      let lo = of_int p.pulse_min in
      let hi = of_int p.pulse_max in
      let taken = is_used used p.output_channel in
      (taken, pump_output_used)
      ∷ (not taken && outside_channels p.output_channel, pump_output_range)
      ∷ (outside pulse_min_limit pulse_max_limit p.pulse_min, pump_pulse_min_range)
      ∷ (outside pulse_min_limit pulse_max_limit p.pulse_max, pump_pulse_max_range)
      ∷ (leb_ℤ p.pulse_max p.pulse_min, pump_pulse_order)
      ∷ (not (le lo p.static_pulse_us && le p.static_pulse_us hi), pump_static)
      ∷ (not (le lo p.base_pulse_us && le p.base_pulse_us hi), pump_base)
      ∷ (
        not (
            le nought p.activity_gain_us
            && le p.activity_gain_us (of_int (p.pulse_max -ℤ p.pulse_min))),
        pump_gain,
      )
      ∷ []

  unfoldable pub pump_errors : UsedOutputs → Option (PumpConfig F) → List Issue
  pump_errors used none = []
  pump_errors used (some p) = raised (pump_checks used p)

  unfoldable pub collect_config_validation_errors :
      Dict String (ChannelConfig F) → Option (PumpConfig F) → Frequency F → List Issue
  collect_config_validation_errors channels pump frequency =
      let (errors, used) = channel_errors [] channels in
      raised (frequency_checks frequency)
      ++ (raised ((is_empty channels && not (is_some pump), no_channel) ∷ [])
          ++ (errors ++ pump_errors used pump))
