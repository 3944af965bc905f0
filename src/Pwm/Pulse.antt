-- ===== src/Pwm/Pulse.antt =====
-- reference/modules/pwm/controller.py: from a normalised command to a pulse width in microseconds
-- (`_pulse_from_value` and what it calls).
pub mod Bounds
use kaivuriprokkis.Prelude.{Bool, true, false, not, ◌&&◌, Option, none, some, if◌then◌else◌}
use kaivuriprokkis.Prelude.Int.{ℤ, pos, eqb_ℤ}
use kaivuriprokkis.Prelude.Dict.{Dict, lookup, insert}
use kaivuriprokkis.Float.{Float, nought, unit, minus_unit, py_min, py_max, clamp}
use kaivuriprokkis.Pwm.Constants.{ramp_dt_max}
use kaivuriprokkis.Pwm.Config.{ChannelConfig}

-- One entry of `_channel_ramp_state`; the third field is always written as 0.0.
pub record RampState (F : Type 0) : Type 0 where
  pub last_pulse : F
  pub last_time : F
  pub last_vel : F

abbrev pub RampTable : Type 0 → Type 0
RampTable F = Dict ℤ (RampState F)

-- What the deadband skip decides: the target is reached at once, or the ramp goes on from a pulse.
pub data Skip (F : Type 0) : Type 0 where
  reached : Skip F
  from_pulse : F → Skip F

module _ {F : Type 0} ⦃fl : Float F⦄ where
  open fl use {lit, of_int, add, sub, mul, div, abs, pow, sin, lt, le, eqb}

  -- sign = 1.0 if value >= 0 else -1.0
  abbrev pub sign_of : F → F
  sign_of value = if le nought value then unit else minus_unit

  unfoldable pub apply_deadzone : F → F → F
  apply_deadzone value threshold =
      let abs_val = abs value in
      if le threshold nought
      then value
      else if lt abs_val threshold
      then nought
      else if le unit threshold
      then nought
      else div (mul (sign_of value) (sub abs_val threshold)) (sub unit threshold)

  unfoldable pub apply_gamma : F → F → F
  apply_gamma value gamma =
      if eqb gamma unit
      then value
      else if eqb value nought
      then value
      else mul (sign_of value) (pow (abs value) gamma)

  -- center + deadband_us_pos and center - deadband_us_neg
  abbrev pub pos_edge : ChannelConfig F → F
  pos_edge c = add c.center c.deadband_us_pos

  abbrev pub neg_edge : ChannelConfig F → F
  neg_edge c = sub c.center c.deadband_us_neg

  unfoldable pub compute_base_pulse : ChannelConfig F → F → F
  compute_base_pulse c value =
      let s = mul value (of_int c.direction) in
      if eqb s nought
      then c.center
      else if lt nought s
      then add (pos_edge c) (mul (abs value) (sub (of_int c.pulse_max) (pos_edge c)))
      else sub (neg_edge c) (mul (abs value) (sub (neg_edge c) (of_int c.pulse_min)))

  unfoldable pub dither_amplitude : ChannelConfig F → F → F
  unfolding py_max clamp
  dither_amplitude c pulse =
      let distance_from_edge =
        if lt c.center pulse then sub pulse (pos_edge c) else sub (neg_edge c) pulse in
      let taper_us = py_max c.dither_taper_us (lit (pos 1) 6) in
      if not c.dither_taper
      then c.dither_amp_us
      else mul c.dither_amp_us (clamp nought unit (div distance_from_edge taper_us))

  unfoldable pub clamp_base_for_dither : ChannelConfig F → F → F → F
  unfolding py_max clamp
  clamp_base_for_dither c pulse dither_amp =
      let pulse_min = of_int c.pulse_min in
      let pulse_max = of_int c.pulse_max in
      let lower = add pulse_min (py_max nought dither_amp) in
      let upper = sub pulse_max (py_max nought dither_amp) in
      if lt upper lower
      then mul (add pulse_min pulse_max) (lit (pos 5) 1)
      else clamp lower upper pulse

  unfoldable pub apply_dither : ChannelConfig F → F → F → F → F
  apply_dither c pulse now dither_amp =
      add pulse (mul dither_amp (sin (add (mul c.dither_omega now) c.dither_phase_offset)))

  -- The deadband skip of `_apply_ramp`, from the last pulse to the target.
  unfoldable pub skip_deadband : ChannelConfig F → F → F → Skip F
  skip_deadband c last target =
      if eqb last c.center && not (eqb target c.center)
      then (let edge = if lt c.center target then pos_edge c else neg_edge c in
          if eqb target edge then reached else from_pulse edge)
      else if lt c.center last && lt target c.center
      then (if le (neg_edge c) target then reached else from_pulse (neg_edge c))
      else if lt last c.center && lt c.center target
      then (if le target (pos_edge c) then reached else from_pulse (pos_edge c))
      else from_pulse last

  -- The step toward the target in `dt` seconds, the snap to the centre and the limits.
  unfoldable pub ramp_step : ChannelConfig F → F → F → F → F
  ramp_step c last target dt =
      let delta = sub target last in
      let allowed_step = mul c.ramp_limit dt in
      let moved =
        if le (abs delta) allowed_step
        then target
        else add last (mul allowed_step (if lt nought delta then unit else minus_unit)) in
      let snapped =
        if c.ramp_skip_deadband
          && (eqb target c.center && (lt (neg_edge c) moved && lt moved (pos_edge c)))
        then c.center
        else moved in
      if lt snapped (of_int c.pulse_min)
      then of_int c.pulse_min
      else if lt (of_int c.pulse_max) snapped
      then of_int c.pulse_max
      else snapped

  abbrev pub ramp_entry : F → F → RampState F
  ramp_entry pulse now = record { last_pulse = pulse; last_time = now; last_vel = nought }

  -- The pulse to output; it is also the pulse that the table keeps for the channel.
  unfoldable pub ramp_pulse : ChannelConfig F → F → F → Option (RampState F) → F
  unfolding skip_deadband ramp_step py_min py_max
  ramp_pulse c target now none = target
  ramp_pulse c target now (some state) =
      let ramped = λ (last : F).
        let dt = py_min (py_max nought (sub now state.last_time)) ramp_dt_max in
        if le dt nought then last else ramp_step c last target dt in
      if not (c.ramp_enable && lt nought c.ramp_limit)
      then target
      else if c.ramp_skip_deadband
      then elim (skip_deadband c state.last_pulse target) [
        | reached ↦ target
        | from_pulse last ↦ ramped last
      ]
      else ramped state.last_pulse

  unfoldable pub apply_ramp : ChannelConfig F → F → F → RampTable F → F × RampTable F
  unfolding ramp_pulse lookup insert
  apply_ramp c target now table =
      let pulse = ramp_pulse c target now (lookup eqb_ℤ c.output_channel table) in
      (pulse, insert eqb_ℤ c.output_channel (ramp_entry pulse now) table)

  -- The dither, where it is enabled and the channel is off its centre.
  unfoldable pub dithered : ChannelConfig F → F → F → F
  unfolding dither_amplitude clamp_base_for_dither apply_dither
  dithered c base now =
      let clamped = clamp_base_for_dither c base (dither_amplitude c base) in
      if c.dither_enable
        && (not (eqb c.dither_amp_us nought)
            && (not (eqb c.dither_hz nought) && lt (lit (pos 1) 6) (abs (sub base c.center))))
      then apply_dither c clamped now (dither_amplitude c clamped)
      else base

  -- The ramp, where it is asked for and the channel has it switched on.
  unfoldable pub ramped_pulse : ChannelConfig F → F → F → Bool → RampTable F → F × RampTable F
  unfolding apply_ramp
  ramped_pulse c target now ramp table =
      if ramp && c.ramp_enable then apply_ramp c target now table else (target, table)

  -- `_pulse_from_value`, at the time `now`: the pulse and the ramp table that it leaves.
  unfoldable pub pulse_from_value : ChannelConfig F → F → F → Bool → RampTable F → F × RampTable F
  unfolding ramped_pulse dithered clamp compute_base_pulse apply_gamma apply_deadzone
  pulse_from_value c value now ramp table =
      let shaped = apply_gamma (apply_deadzone value c.deadzone_threshold) c.gamma in
      let target = compute_base_pulse c shaped in
      let (base, table') = ramped_pulse c target now ramp table in
      (clamp (of_int c.pulse_min) (of_int c.pulse_max) (dithered c base now), table')
