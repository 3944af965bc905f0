-- ===== src/Pwm/Controller/Centered.antt =====
-- `PWMController.reset`: every channel is put at its centre, and the invariant holds after it.
use kaivuriprokkis.Prelude.{
  ◌≡◌, refl, sym, ◌∙◌, Bool, true, false, Option, none, some, List, [], ◌∷◌, All, length,
  length-set,
}
use kaivuriprokkis.Prelude.Int.{ℤ}
use kaivuriprokkis.Float.{IsOrdered, Float}
use kaivuriprokkis.Pwm.Config.{PumpConfig}
use kaivuriprokkis.Pwm.Validation.Sound.{IsOutput, IsFree, IsDistinct, IsValidConfig}
use kaivuriprokkis.Pwm.Writer.{I2c}
use kaivuriprokkis.Pwm.Controller.State.{Controller, slot, at_channel, put_channel}
use kaivuriprokkis.Pwm.Controller.Lifecycle.{center_pulses, rest_pulse, pump_if, reset}
use kaivuriprokkis.Pwm.Controller.Limits.{Configs, AreValid, AllFit, at-put_self, at-put_ne}
use kaivuriprokkis.Pwm.Controller.Invariant.{PumpFits, AreWithin, IsSafe, pump_limits}

module _ {F : Type 0} ⦃fl : Float F⦄ where
  open fl use {of_int}

  -- Every channel's pulse is that channel's centre.
  abbrev pub AllCentered : Configs F → List F → Type 0
  AllCentered cs pulses = All (λ e. at_channel pulses e.1.output_channel ≡ e.1.center) cs

  length-center_pulses :
      (cs : Configs F) (pulses : List F) → length (center_pulses cs pulses) ≡ length pulses
  unfolding center_pulses
  length-center_pulses [] pulses = refl
  length-center_pulses ((n, c) ∷ cs) pulses =
      length-center_pulses cs (put_channel pulses c.output_channel c.center)
      ∙ length-set pulses (slot c.output_channel) c.center

  center_pulses_frame :
      (cs : Configs F) (pulses : List F) (k : ℤ)
      → AreValid cs
      → IsOutput k
      → IsFree k cs
      → at_channel (center_pulses cs pulses) k ≡ at_channel pulses k
  unfolding center_pulses
  center_pulses_frame [] pulses k v out free = refl
  center_pulses_frame ((n, c) ∷ cs) pulses k v out free =
      center_pulses_frame cs (put_channel pulses c.output_channel c.center) k v.1 out free.1
      ∙ at-put_ne pulses c.output_channel k c.center v.0.output_fits out free.0

  center_pulses-AllCentered :
      (cs : Configs F) (pulses : List F)
      → AreValid cs
      → IsDistinct cs
      → length pulses ≡ 16
      → AllCentered cs (center_pulses cs pulses)
  unfolding center_pulses
  center_pulses-AllCentered [] pulses v distinct size = tt
  center_pulses-AllCentered ((n, c) ∷ cs) pulses v distinct size =
      let next = put_channel pulses c.output_channel c.center in
      let size' = length-set pulses (slot c.output_channel) c.center ∙ size in
      (
        center_pulses_frame cs next c.output_channel v.1 v.0.output_fits distinct.0
            ∙ at-put_self pulses c.output_channel c.center size v.0.output_fits,
        center_pulses-AllCentered cs next v.1 distinct.1 size',
      )

  AllFit-of_centered :
      (cs : Configs F) (pulses : List F) → AreValid cs → AllCentered cs pulses → AllFit cs pulses
  AllFit-of_centered [] pulses v h = tt
  AllFit-of_centered ((n, c) ∷ cs) pulses v h =
      (rw h.0 (v.0.center_ge_min, v.0.center_le_max), AllFit-of_centered cs pulses v.1 h.1)

  put_free-AllCentered :
      (cs : Configs F) (pulses : List F) (k : ℤ) (x : F)
      → AreValid cs
      → IsOutput k
      → IsFree k cs
      → AllCentered cs pulses
      → AllCentered cs (put_channel pulses k x)
  put_free-AllCentered [] pulses k x v out free h = tt
  put_free-AllCentered ((n, c) ∷ cs) pulses k x v out free h = (
    at-put_ne pulses k c.output_channel x out v.0.output_fits (λ e. free.0 (sym e)) ∙ h.0,
    put_free-AllCentered cs pulses k x v.1 out free.1 h.1,
  )

  -- What the pump's output holds after a reset: its rest pulse, or what it held before.
  abbrev pub PumpAfter : Bool → Option (PumpConfig F) → List F → List F → Type 0
  PumpAfter reset_pump none before after = Unit
  PumpAfter true (some p) before after = at_channel after p.output_channel ≡ of_int p.pulse_min
  PumpAfter false (some p) before after =
      at_channel after p.output_channel ≡ at_channel before p.output_channel

  -- The pulses that a reset leaves.
  abbrev after_reset : Bool → Configs F → Option (PumpConfig F) → List F → List F
  after_reset reset_pump cs pump pulses =
      rest_pulse (pump_if reset_pump pump) (center_pulses cs pulses)

  after_reset_lem :
      (reset_pump : Bool) (cs : Configs F) (pump : Option (PumpConfig F)) (pulses : List F)
      → IsValidConfig cs pump
      → length pulses ≡ 16
      → (length (after_reset reset_pump cs pump pulses) ≡ 16)
        × AllCentered cs (after_reset reset_pump cs pump pulses)
        × PumpAfter reset_pump pump pulses (after_reset reset_pump cs pump pulses)
  unfolding rest_pulse
  after_reset_lem true cs none pulses v size = (
    length-center_pulses cs pulses ∙ size,
    center_pulses-AllCentered cs pulses v.channels v.distinct size,
    tt,
  )
  after_reset_lem false cs none pulses v size = (
    length-center_pulses cs pulses ∙ size,
    center_pulses-AllCentered cs pulses v.channels v.distinct size,
    tt,
  )
  after_reset_lem false cs (some p) pulses v size = (
    length-center_pulses cs pulses ∙ size,
    center_pulses-AllCentered cs pulses v.channels v.distinct size,
    center_pulses_frame cs pulses p.output_channel v.channels v.pump_for.0.output_fits v.pump_for.1,
  )
  after_reset_lem true cs (some p) pulses v size =
      let own = v.pump_for.0.output_fits in
      let size' = length-center_pulses cs pulses ∙ size in
      let centered = center_pulses-AllCentered cs pulses v.channels v.distinct size in
      (
        length-set (center_pulses cs pulses) (slot p.output_channel) (of_int p.pulse_min) ∙ size',
        put_free-AllCentered cs (center_pulses cs pulses) p.output_channel (of_int p.pulse_min)
            v.channels own v.pump_for.1 centered,
        at-put_self (center_pulses cs pulses) p.output_channel (of_int p.pulse_min) size' own,
      )

  PumpFits-after :
      (laws : IsOrdered F) (reset_pump : Bool) (cs : Configs F) (pump : Option (PumpConfig F))
      (before after : List F)
      → IsValidConfig cs pump
      → (reset_pump ≡ false → PumpFits pump before)
      → PumpAfter reset_pump pump before after
      → PumpFits pump after
  PumpFits-after laws reset_pump cs none before after v old h = tt
  PumpFits-after laws true cs (some p) before after v old h =
      let limits = pump_limits laws p v.pump_for.0 in rw h (laws.num_left _ _ limits, limits)
  PumpFits-after laws false cs (some p) before after v old h = rw h (old refl)

  within_of_reset :
      (laws : IsOrdered F) (reset_pump : Bool) (cs : Configs F) (pump : Option (PumpConfig F))
      (pulses : List F)
      → IsValidConfig cs pump
      → length pulses ≡ 16
      → (reset_pump ≡ false → PumpFits pump pulses)
      → AreWithin cs pump (after_reset reset_pump cs pump pulses)
  within_of_reset laws reset_pump cs pump pulses v size old =
      let (size', centered, rest) = after_reset_lem reset_pump cs pump pulses v size in
      record {
        size = size';
        channels_fit = AllFit-of_centered cs _ v.channels centered;
        pump_fits = PumpFits-after laws reset_pump cs pump pulses _ v old rest;
      }

module _ {F B : Type 0} ⦃fl : Float F⦄ ⦃bus : I2c B⦄ where
  -- On a valid configuration, `reset` leaves every channel at its centre, the pump at its lower
  -- limit or, where it is not reset, as it was, and the safe state down, whatever the bus does.
  pub reset-AllCentered :
      (reset_pump : Bool) (now : F) (c : Controller F B)
      → IsValidConfig c.channel_configs c.pump_config
      → length c.current_pulse_us ≡ 16
      → let c' = (reset reset_pump now c).0 in
        AllCentered c.channel_configs c'.current_pulse_us
        × PumpAfter reset_pump c.pump_config c.current_pulse_us c'.current_pulse_us
        × (c'.is_safe_state ≡ false)
  unfolding reset
  reset-AllCentered reset_pump now c v size =
      let (_, centered, pump) =
        after_reset_lem reset_pump c.channel_configs c.pump_config c.current_pulse_us v size in
      (centered, pump, refl)

  -- A reset of channels and pump establishes the invariant on any valid configuration.
  pub reset-IsSafe_fresh :
      (laws : IsOrdered F) (now : F) (c : Controller F B)
      → IsValidConfig c.channel_configs c.pump_config
      → length c.current_pulse_us ≡ 16
      → IsSafe (reset true now c).0
  unfolding reset
  reset-IsSafe_fresh laws now c v size = record {
    config = v;
    within =
        within_of_reset laws true c.channel_configs c.pump_config c.current_pulse_us v size
          (λ e. cc);
  }

  pub reset-IsSafe :
      (laws : IsOrdered F) (reset_pump : Bool) (now : F) (c : Controller F B)
      → IsSafe c
      → IsSafe (reset reset_pump now c).0
  unfolding reset
  reset-IsSafe laws reset_pump now c s = record {
    config = s.config;
    within =
        within_of_reset laws reset_pump c.channel_configs c.pump_config c.current_pulse_us s.config
          s.within.size (λ e. s.within.pump_fits);
  }
