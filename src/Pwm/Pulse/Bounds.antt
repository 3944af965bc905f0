-- ===== src/Pwm/Pulse/Bounds.antt =====
-- What a computed pulse satisfies: the configured limits, the neutral pulse, the deadband jump.
use kaivuriprokkis.Prelude.{◌≡◌, refl, Bool, true, false, arith, ◌⊎◌}
use kaivuriprokkis.Float.{
  Float, ◌≼◌, IsOrdered, IsArithmetic, Equals, nought, clamp_bounds, clamp-Equals,
}
use kaivuriprokkis.Pwm.Config.{ChannelConfig}
use kaivuriprokkis.Pwm.Pulse.{
  RampTable, apply_deadzone, apply_gamma, compute_base_pulse, pos_edge, neg_edge, dithered,
  pulse_from_value, ramped_pulse,
}

-- The pulse lies within the channel's limits.
abbrev pub Fits : {F : Type 0} ⦃fl : Float F⦄ → ChannelConfig F → F → Type 0
Fits ⦃fl⦄ c pulse = (fl.of_int c.pulse_min ≼ pulse) × (pulse ≼ fl.of_int c.pulse_max)

module _ {F : Type 0} ⦃fl : Float F⦄ (laws : IsOrdered F) where
  open fl use {of_int, lt, le, eqb, mul}

  -- A channel whose lower limit is at most the upper one gets a pulse within its limits, whatever
  -- the command (NaN included), the time, the shaping parameters, the dither and the ramp table.
  pub pulse_from_value_bounds :
      (c : ChannelConfig F) (value now : F) (ramp : Bool) (table : RampTable F)
      → of_int c.pulse_min ≼ of_int c.pulse_max
      → Fits c (pulse_from_value c value now ramp table).0
  unfolding pulse_from_value
  pulse_from_value_bounds c value now ramp table h = clamp_bounds laws _ _ _ h

  module _ (arithmetic : IsArithmetic F) where
    open arithmetic use {
      eqb_zero, mul_zero, sub_self, add_num, sub_num, mul_num, add_grows, sub_shrinks, sub_nonneg,
      mul_nonneg, abs_nonneg,
    }

    apply_gamma-nought : (gamma : F) → apply_gamma nought gamma ≡ nought
    unfolding apply_gamma
    apply_gamma-nought gamma = ground (arith, eqb_zero)

    compute_base_pulse-nought : (c : ChannelConfig F) → compute_base_pulse c nought ≡ c.center
    unfolding compute_base_pulse
    compute_base_pulse-nought c = rw (mul_zero c.direction) refl

    dithered-center : (c : ChannelConfig F) (now : F) → dithered c c.center now ≡ c.center
    unfolding dithered
    dithered-center c now = ground (arith, sub_self c.center)

    unramped :
        (c : ChannelConfig F) (target now : F) (ramp : Bool) (table : RampTable F)
        → (ramp ≡ false) ⊎ (c.ramp_enable ≡ false)
        → ramped_pulse c target now ramp table ≡ (target, table)
    unfolding ramped_pulse
    unramped c target now ramp table h = ground arith

    -- A command inside the channel's deadzone gives the centre pulse, with no dither, on a channel
    -- whose centre is within its limits, where the ramp is not asked for or the channel has it
    -- switched off; the ramp table then stays as it was.
    pub pulse_from_value_neutral :
        (c : ChannelConfig F) (value now : F) (ramp : Bool) (table : RampTable F)
        → Fits c c.center
        → (ramp ≡ false) ⊎ (c.ramp_enable ≡ false)
        → le c.deadzone_threshold nought ≡ false
        → lt (fl.abs value) c.deadzone_threshold ≡ true
        → Equals (pulse_from_value c value now ramp table).0 c.center
          × ((pulse_from_value c value now ramp table).1 ≡ table)
    unfolding pulse_from_value apply_deadzone
    pulse_from_value_neutral c value now ramp table fits still positive inside =
        rw
          (
            positive,
            inside,
            apply_gamma-nought c.gamma,
            compute_base_pulse-nought c,
            unramped c c.center now ramp table still,
            dithered-center c now,
          )
          (clamp-Equals laws _ _ _ fits.0 fits.1, refl)

    -- A physically positive command jumps over the positive deadband: its base pulse is at least
    -- the deadband's edge, where that is at most the upper limit and the result is a number.
    compute_base_pulse_positive :
        (c : ChannelConfig F) (value : F)
        → eqb (mul value (of_int c.direction)) nought ≡ false
        → lt nought (mul value (of_int c.direction)) ≡ true
        → pos_edge c ≼ of_int c.pulse_max
        → compute_base_pulse c value ≼ compute_base_pulse c value
        → pos_edge c ≼ compute_base_pulse c value
    unfolding compute_base_pulse
    compute_base_pulse_positive c value ne s h num =
        let (edge, span) = add_num (pos_edge c) _ (rw (ne, s) at num) in
        let (size, range) = mul_num (fl.abs value) _ span in
        rw (ne, s)
          (add_grows (pos_edge c) _
            (mul_nonneg _ _ (abs_nonneg value size) (sub_nonneg _ _ h range) span)
            (rw (ne, s) at num))

    -- A physically negative command jumps below the negative deadband: its base pulse is at most
    -- the deadband's lower edge, where that is at least the lower limit and the result is a number.
    compute_base_pulse_negative :
        (c : ChannelConfig F) (value : F)
        → eqb (mul value (of_int c.direction)) nought ≡ false
        → lt nought (mul value (of_int c.direction)) ≡ false
        → of_int c.pulse_min ≼ neg_edge c
        → compute_base_pulse c value ≼ compute_base_pulse c value
        → compute_base_pulse c value ≼ neg_edge c
    unfolding compute_base_pulse
    compute_base_pulse_negative c value ne s h num =
        let (edge, span) = sub_num (neg_edge c) _ (rw (ne, s) at num) in
        let (size, range) = mul_num (fl.abs value) _ span in
        rw (ne, s)
          (sub_shrinks (neg_edge c) _
            (mul_nonneg _ _ (abs_nonneg value size) (sub_nonneg _ _ h range) span)
            (rw (ne, s) at num))
