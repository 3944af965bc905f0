-- ===== src/Pwm/Controller/Pump.antt =====
-- The pump of `PWMController`: its pulse, and the setters that direct it.
use kaivuriprokkis.Prelude.{ℕ, Bool, true, not, Option, none, some, List, [], ◌∷◌, if◌then◌else◌}
use kaivuriprokkis.Prelude.Int.{ℤ, pos, ◌-ℤ◌}
use kaivuriprokkis.Float.{Float, nought, clamp, py_min, py_max}
use kaivuriprokkis.Pwm.Config.{PumpConfig}
use kaivuriprokkis.Pwm.Writer.{I2c, set_channel}
use kaivuriprokkis.Pwm.Controller.State.{
  Controller, Call, put_channel, count_from_pulse_us, flush_count_updates, with_writer,
}

abbrev pub as_list : Option (ℤ × ℤ) → List (ℤ × ℤ)
as_list none = []
as_list (some u) = u ∷ []

module _ {F : Type 0} ⦃fl : Float F⦄ where
  open fl use {of_int}

  abbrev pub pump_clamp : PumpConfig F → F → F
  pump_clamp p pulse = clamp (of_int p.pulse_min) (of_int p.pulse_max) pulse

  -- max(1, count), as a float
  abbrev at_least_one : ℕ → F
  at_least_one ℕ.zero = of_int (pos 1)
  at_least_one n = of_int (pos n)

  abbrev pub direct_of : Option (PumpConfig F) → Option F → Option F
  direct_of pump none = none
  direct_of none (some pulse) = some pulse
  direct_of (some p) (some pulse) = some (pump_clamp p pulse)

module _ {F B : Type 0} ⦃fl : Float F⦄ where
  open fl use {of_int, add, mul, div}

  -- The four modes: disabled, direct, automatic and static.
  unfoldable pub pump_pulse : PumpConfig F → Controller F B → F
  unfolding clamp
  pump_pulse p c =
      let avg_activity = div c.pump_activity_sum (at_least_one c.pump_activity_count) in
      let automatic = pump_clamp p (add p.base_pulse_us (mul p.activity_gain_us avg_activity)) in
      let undirected = if c.pump_auto_mode then automatic else pump_clamp p p.static_pulse_us in
      if not c.pump_enabled
      then of_int p.pulse_min
      else elim c.pump_direct_us [ some direct ↦ pump_clamp p direct | none ↦ undirected ]

  unfoldable pub pump_count_update_at :
      Option (PumpConfig F) → Controller F B → Controller F B × Option (ℤ × ℤ)
  unfolding pump_pulse count_from_pulse_us
  pump_count_update_at none c = (c, none)
  pump_count_update_at (some p) c =
      let pulse = pump_pulse p c in
      (
        record c { current_pulse_us = put_channel c.current_pulse_us p.output_channel pulse },
        some (p.output_channel, count_from_pulse_us c.pwm_period_us pulse),
      )

  -- `_pump_count_update`
  unfoldable pub pump_count_update : Controller F B → Controller F B × Option (ℤ × ℤ)
  unfolding pump_count_update_at
  pump_count_update c = pump_count_update_at c.pump_config c

  unfoldable pub set_pump_auto : Bool → Controller F B → Controller F B
  set_pump_auto auto c = record c { pump_auto_mode = auto }

  -- The gain that is kept is returned; it is bounded by the pump's pulse range.
  unfoldable pub set_pump_activity_gain_us : F → Controller F B → Controller F B × F
  unfolding py_min py_max
  set_pump_activity_gain_us gain c = elim c.pump_config [
    | none ↦ (c, nought)
    | some p ↦
        let clamped = py_max nought (py_min gain (of_int (p.pulse_max -ℤ p.pulse_min))) in
        (record c { pump_config = some (record p { activity_gain_us = clamped }) }, clamped)
  ]

  unfoldable pub get_pump_activity_gain_us : Controller F B → F
  get_pump_activity_gain_us c = elim c.pump_config [ none ↦ nought | some p ↦ p.activity_gain_us ]

  module _ ⦃bus : I2c B⦄ where
    -- `_update_pump(flush)`
    unfoldable pub update_pump : Bool → Controller F B → Call F B
    unfolding pump_count_update flush_count_updates set_channel
    update_pump flush c =
        let (c', update) = pump_count_update c in
        elim update [
          | none ↦ (c', none)
          | some (channel, count) ↦ with_writer c' (
              if flush
              then flush_count_updates ((channel, count) ∷ []) c'.writer
              else set_channel channel count c'.writer)
        ]

    unfoldable pub set_pump_enabled : Bool → Bool → Controller F B → Call F B
    unfolding update_pump
    set_pump_enabled enabled flush c =
        let c' = record c { pump_enabled = enabled } in
        if flush then update_pump true c' else (c', none)

    unfoldable pub set_pump_speed_us : Option F → Bool → Controller F B → Call F B
    unfolding update_pump clamp
    set_pump_speed_us pulse_us flush c =
        let c' = record c { pump_direct_us = direct_of c.pump_config pulse_us } in
        if flush then update_pump true c' else (c', none)
