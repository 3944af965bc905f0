-- ===== src/Pwm/Validation/Sound.antt =====
-- What a configuration with no validation error satisfies.
use kaivuriprokkis.Prelude.{
  append-eq-nil, ◌≡◌, ◌≢◌, ◌⊎◌, refl, ap, Bool, true, false, ◌||◌, Option, none, some, List, [],
  ◌∷◌, arith, All,
}
use kaivuriprokkis.Prelude.Int.{ℤ, pos, negsuc, ◌≤ℤ◌, eqb_ℤ, eqb_ℤ_iff}
use kaivuriprokkis.Prelude.Dict.{Dict, insert, lookup}
use kaivuriprokkis.Float.{Float, ◌≼◌, nought}
use kaivuriprokkis.Pwm.Config.{ChannelConfig, PumpConfig}
use kaivuriprokkis.Pwm.Validation.{
  Issue, Frequency, raised, UsedOutputs, is_used, frequency_checks, channel_checks, mark_used,
  channel_errors, pump_checks, pump_errors, collect_config_validation_errors,
}
use Prim.Native.String.{String}

abbrev pub IsPassed : List (Bool × Issue) → Type 0
IsPassed = All λ c. c.0 ≡ false

pub raised-eq-nil : (cs : List (Bool × Issue)) → raised cs ≡ [] → IsPassed cs
unfolding raised
raised-eq-nil [] h = tt
raised-eq-nil ((true, e) ∷ cs) h = cc
raised-eq-nil ((false, e) ∷ cs) h = (refl, raised-eq-nil cs h)

is_used-insert :
    (used : UsedOutputs) (k j : ℤ) (name : String)
    → is_used (insert eqb_ℤ k name used) j ≡ (eqb_ℤ k j || is_used used j)
unfolding is_used insert lookup
is_used-insert [] k j name = ground arith
is_used-insert ((i, n) ∷ used) k j name =
    ground (arith, is_used-insert used k j name, eqb_ℤ_iff i k, eqb_ℤ_iff i j, eqb_ℤ_iff k j)

-- An output of the board's range.
abbrev pub IsOutput : ℤ → Type 0
IsOutput c = (pos 0 ≤ℤ c) × (c ≤ℤ pos 15)

module _ {F : Type 0} ⦃fl : Float F⦄ where
  open fl use {lit, of_int, lt, le, mul}

  -- The ranges that one channel's checks establish.
  pub record IsValidChannel (c : ChannelConfig F) : Type 0 where
    pub direction_unit : (c.direction ≡ negsuc 0) ⊎ (c.direction ≡ pos 1)
    pub output_fits : IsOutput c.output_channel
    pub min_fits : pos 0 ≤ℤ c.pulse_min
    pub max_fits : c.pulse_max ≤ℤ pos 4095
    pub min_lt_max : ¬ (c.pulse_max ≤ℤ c.pulse_min)
    pub center_ge_min : of_int c.pulse_min ≼ c.center
    pub center_le_max : c.center ≼ of_int c.pulse_max

  pub record IsValidPump (p : PumpConfig F) : Type 0 where
    pub output_fits : IsOutput p.output_channel
    pub min_fits : pos 0 ≤ℤ p.pulse_min
    pub max_fits : p.pulse_max ≤ℤ pos 4095
    pub min_lt_max : ¬ (p.pulse_max ≤ℤ p.pulse_min)
    pub static_ge_min : of_int p.pulse_min ≼ p.static_pulse_us
    pub static_le_max : p.static_pulse_us ≼ of_int p.pulse_max
    pub gain_ge_zero : nought ≼ p.activity_gain_us

  -- No channel of the list drives the output.
  abbrev pub IsFree : ℤ → Dict String (ChannelConfig F) → Type 0
  IsFree k = All λ e. e.1.output_channel ≢ k

  -- No two channels drive one output.
  abbrev pub IsDistinct : Dict String (ChannelConfig F) → Type 0
  IsDistinct [] = Unit
  IsDistinct ((_, c) ∷ cs) = IsFree c.output_channel cs × IsDistinct cs

  channel_checks-IsValidChannel :
      (used : UsedOutputs) (name : String) (c : ChannelConfig F)
      → raised (channel_checks used name c) ≡ []
      → IsValidChannel c × (is_used used c.output_channel ≡ false)
  unfolding channel_checks
  channel_checks-IsValidChannel used name c h =
      let (dir, (taken, (out, (lo, (hi, (order, (mid, _))))))) =
        raised-eq-nil (channel_checks used name c) h in
      (
        record {
          direction_unit =
              ground (arith, eqb_ℤ_iff c.direction (negsuc 0), eqb_ℤ_iff c.direction (pos 1));
          output_fits = ground arith;
          min_fits = ground arith;
          max_fits = ground arith;
          min_lt_max = ground arith;
          center_ge_min = ground arith;
          center_le_max = ground arith;
        },
        taken,
      )

  is_used-mark_used :
      (used : UsedOutputs) (name : String) (c : ChannelConfig F) (k : ℤ)
      → is_used used k ≡ true
      → is_used (mark_used used name c) k ≡ true
  unfolding mark_used
  is_used-mark_used used name c k h = ground (arith, is_used-insert used c.output_channel k name)

  is_used-mark_used_self :
      (used : UsedOutputs) (name : String) (c : ChannelConfig F)
      → IsOutput c.output_channel
      → is_used (mark_used used name c) c.output_channel ≡ true
  unfolding mark_used
  is_used-mark_used_self used name c h = ground (
    arith,
    is_used-insert used c.output_channel c.output_channel name,
    eqb_ℤ_iff c.output_channel c.output_channel,
  )

  -- An output that is taken before the loop is driven by none of its channels.
  channel_errors-IsFree :
      (used : UsedOutputs) (cs : Dict String (ChannelConfig F)) (k : ℤ)
      → (channel_errors used cs).0 ≡ []
      → is_used used k ≡ true
      → IsFree k cs
  unfolding channel_errors
  channel_errors-IsFree used [] k h u = tt
  channel_errors-IsFree used ((name, c) ∷ cs) k h u =
      let (here, rest) = append-eq-nil (raised (channel_checks used name c)) _ h in
      let free = (channel_checks-IsValidChannel used name c here).1 in
      (
        λ e. cc (u, free, ap (is_used used) e),
        channel_errors-IsFree (mark_used used name c) cs k rest (is_used-mark_used used name c k u),
      )

  channel_errors-IsDistinct :
      (used : UsedOutputs) (cs : Dict String (ChannelConfig F))
      → (channel_errors used cs).0 ≡ []
      → IsDistinct cs × All (λ e. IsValidChannel e.1) cs
  unfolding channel_errors
  channel_errors-IsDistinct used [] h = (tt, tt)
  channel_errors-IsDistinct used ((name, c) ∷ cs) h =
      let (here, rest) = append-eq-nil (raised (channel_checks used name c)) _ h in
      let valid = (channel_checks-IsValidChannel used name c here).0 in
      let used' = mark_used used name c in
      let (distinct, all) = channel_errors-IsDistinct used' cs rest in
      let taken = is_used-mark_used_self used name c valid.output_fits in
      ((channel_errors-IsFree used' cs c.output_channel rest taken, distinct), (valid, all))

  -- What was taken before the loop is taken after it, and so is every channel's output.
  is_used-channel_errors :
      (used : UsedOutputs) (cs : Dict String (ChannelConfig F)) (k : ℤ)
      → is_used used k ≡ true
      → is_used (channel_errors used cs).1 k ≡ true
  unfolding channel_errors
  is_used-channel_errors used [] k u = u
  is_used-channel_errors used ((name, c) ∷ cs) k u =
      is_used-channel_errors (mark_used used name c) cs k (is_used-mark_used used name c k u)

  IsFree-of_unused :
      (used : UsedOutputs) (cs : Dict String (ChannelConfig F)) (k : ℤ)
      → (channel_errors used cs).0 ≡ []
      → is_used (channel_errors used cs).1 k ≡ false
      → IsFree k cs
  unfolding channel_errors
  IsFree-of_unused used [] k h u = tt
  IsFree-of_unused used ((name, c) ∷ cs) k h u =
      let (here, rest) = append-eq-nil (raised (channel_checks used name c)) _ h in
      let valid = (channel_checks-IsValidChannel used name c here).0 in
      let used' = mark_used used name c in
      let taken = is_used-mark_used_self used name c valid.output_fits in
      let last = is_used-channel_errors used' cs c.output_channel taken in
      (
        λ e. cc (last, u, ap (is_used (channel_errors used' cs).1) e),
        IsFree-of_unused used' cs k rest u,
      )

  pump_checks-IsValidPump :
      (used : UsedOutputs) (p : PumpConfig F)
      → raised (pump_checks used p) ≡ []
      → IsValidPump p × (is_used used p.output_channel ≡ false)
  unfolding pump_checks
  pump_checks-IsValidPump used p h =
      let (taken, (out, (lo, (hi, (order, (static, (base, (gain, _)))))))) =
        raised-eq-nil (pump_checks used p) h in
      (
        record {
          output_fits = ground arith;
          min_fits = ground arith;
          max_fits = ground arith;
          min_lt_max = ground arith;
          static_ge_min = ground arith;
          static_le_max = ground arith;
          gain_ge_zero = ground arith;
        },
        taken,
      )

  -- The pump, if there is one, is valid and has an output of its own.
  abbrev pub IsPumpFor : Dict String (ChannelConfig F) → Option (PumpConfig F) → Type 0
  IsPumpFor cs none = Unit
  IsPumpFor cs (some p) = IsValidPump p × IsFree p.output_channel cs

  pump_errors-IsPumpFor :
      (cs : Dict String (ChannelConfig F)) (pump : Option (PumpConfig F))
      → (channel_errors [] cs).0 ≡ []
      → pump_errors (channel_errors [] cs).1 pump ≡ []
      → IsPumpFor cs pump
  unfolding pump_errors
  pump_errors-IsPumpFor cs none h k = tt
  pump_errors-IsPumpFor cs (some p) h k =
      let (valid, free) = pump_checks-IsValidPump (channel_errors [] cs).1 p k in
      (valid, IsFree-of_unused [] cs p.output_channel h free)

  pub record IsValidConfig (cs : Dict String (ChannelConfig F)) (pump : Option (PumpConfig F))
      : Type 0 where
    pub channels : All (λ e. IsValidChannel e.1) cs
    pub distinct : IsDistinct cs
    pub pump_for : IsPumpFor cs pump

  -- A configuration for which no error is collected has valid channels (direction -1 or 1, output
  -- 0 to 15, pulse limits ordered and within 0 to 4095, centre between them), no two of them on one
  -- output, and a valid pump, if any, on an output that no channel drives.
  pub collect-IsValidConfig :
      (cs : Dict String (ChannelConfig F)) (pump : Option (PumpConfig F)) (frequency : Frequency F)
      → collect_config_validation_errors cs pump frequency ≡ []
      → IsValidConfig cs pump
  unfolding collect_config_validation_errors
  collect-IsValidConfig cs pump frequency h =
      let (_, h1) = append-eq-nil (raised (frequency_checks frequency)) _ h in
      let (_, h2) = append-eq-nil (raised _) _ h1 in
      let (errors, last) = append-eq-nil (channel_errors [] cs).0 _ h2 in
      let (distinct, all) = channel_errors-IsDistinct [] cs errors in
      record {
        channels = all;
        distinct = distinct;
        pump_for = pump_errors-IsPumpFor cs pump errors last;
      }
