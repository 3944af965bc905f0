-- ===== src/Pwm/Controller/Invariant.antt =====
-- The invariant of `PWMController`: the configuration is valid, and every output's last pulse lies
-- within its limits. The pump, `update_named` and `reset` keep it.
use kaivuriprokkis.Prelude.{
  ◌≡◌, refl, ◌∙◌, Bool, Option, none, some, List, length, length-set, Bool-cases, Option-cases, inl,
  inr,
}
use kaivuriprokkis.Float.{Float, ◌≼◌, IsOrdered, clamp_bounds}
use kaivuriprokkis.Pwm.Config.{PumpConfig}
use kaivuriprokkis.Pwm.Validation.Sound.{IsValidPump, IsValidConfig}
use kaivuriprokkis.Pwm.Writer.{I2c}
use kaivuriprokkis.Pwm.Controller.State.{Controller, Updates, slot, at_channel, put_channel}
use kaivuriprokkis.Pwm.Controller.Pump.{pump_pulse, pump_count_update, pump_count_update_at}
use kaivuriprokkis.Pwm.Controller.Commands.{
  Commands, Collected, collect_channel_counts, is_expired, is_held, apply_commands, write_updates,
  note_command, update_named,
}
use kaivuriprokkis.Pwm.Controller.Limits.{
  Configs, AllFit, at-put_self, put_channel-AllFit, length-rounds, rounds_frame, rounds-AllFit,
}

module _ {F : Type 0} ⦃fl : Float F⦄ where
  open fl use {of_int}

  -- The pulse lies within the pump's limits.
  abbrev pub FitsPump : PumpConfig F → F → Type 0
  FitsPump p pulse = (of_int p.pulse_min ≼ pulse) × (pulse ≼ of_int p.pulse_max)

  abbrev pub PumpFits : Option (PumpConfig F) → List F → Type 0
  PumpFits none pulses = Unit
  PumpFits (some p) pulses = FitsPump p (at_channel pulses p.output_channel)

  pub record AreWithin (cs : Configs F) (pump : Option (PumpConfig F)) (pulses : List F)
      : Type 0 where
    pub size : length pulses ≡ 16
    pub channels_fit : AllFit cs pulses
    pub pump_fits : PumpFits pump pulses

  pub record IsSafe {B : Type 0} (c : Controller F B) : Type 0 where
    pub config : IsValidConfig c.channel_configs c.pump_config
    pub within : AreWithin c.channel_configs c.pump_config c.current_pulse_us

module _ {F : Type 0} ⦃fl : Float F⦄ (laws : IsOrdered F) where
  open fl use {of_int}

  pub pump_limits : (p : PumpConfig F) → IsValidPump p → of_int p.pulse_min ≼ of_int p.pulse_max
  pump_limits p v = laws.le_trans _ _ _ v.static_ge_min v.static_le_max

  -- A write to the pump's own output keeps every channel within its limits.
  pub AreWithin-put_pump :
      (cs : Configs F) (p : PumpConfig F) (pulses : List F) (pulse : F)
      → IsValidConfig cs (some p)
      → FitsPump p pulse
      → AreWithin cs (some p) pulses
      → AreWithin cs (some p) (put_channel pulses p.output_channel pulse)
  AreWithin-put_pump cs p pulses pulse v fit w =
      let own = v.pump_for.0.output_fits in
      record {
        size = length-set pulses (slot p.output_channel) pulse ∙ w.size;
        channels_fit =
            put_channel-AllFit cs pulses p.output_channel pulse v.channels own v.pump_for.1
              w.channels_fit;
        pump_fits = rw (at-put_self pulses p.output_channel pulse w.size own) fit;
      }

  PumpFits-rounds :
      (toggle : Bool) (xs : List F) (period now : F) (cs : Configs F) (pump : Option (PumpConfig F))
      (acc : Collected F)
      → IsValidConfig cs pump
      → PumpFits pump acc.pulses
      → PumpFits pump (collect_channel_counts toggle xs period now cs acc).pulses
  PumpFits-rounds toggle xs period now cs none acc v fit = tt
  PumpFits-rounds toggle xs period now cs (some p) acc v fit =
      rw
        (rounds_frame laws toggle xs period now cs acc p.output_channel v.channels
          v.pump_for.0.output_fits v.pump_for.1)
        fit

module _ {F B : Type 0} ⦃fl : Float F⦄ (laws : IsOrdered F) where
  open fl use {of_int}

  -- In every mode (disabled, direct, automatic or static) the pump's pulse lies within the pump's
  -- limits, whatever the activity and the direct command are, NaN included.
  pump_pulse_bounds :
      (p : PumpConfig F) (c : Controller F B) → IsValidPump p → FitsPump p (pump_pulse p c)
  unfolding pump_pulse
  pump_pulse_bounds p c v =
      let h = pump_limits laws p v in
      elim (Bool-cases c.pump_enabled) [
        | inr off ↦ rw off (laws.num_left _ _ h, h)
        | inl on ↦ elim (Option-cases c.pump_direct_us) [
          | inr (direct, e) ↦ rw (on, e) (clamp_bounds laws _ _ direct h)
          | inl e ↦ elim (Bool-cases c.pump_auto_mode) [
            | inl auto ↦ rw (on, e, auto) (clamp_bounds laws _ _ _ h)
            | inr static ↦ rw (on, e, static) (clamp_bounds laws _ _ _ h)
          ]
        ]
      ]

  pump_count_update_at-AreWithin :
      (pump : Option (PumpConfig F)) (c : Controller F B)
      → IsValidConfig c.channel_configs pump
      → AreWithin c.channel_configs pump c.current_pulse_us
      → AreWithin c.channel_configs pump (pump_count_update_at pump c).0.current_pulse_us
  unfolding pump_count_update_at
  pump_count_update_at-AreWithin none c v w = w
  pump_count_update_at-AreWithin (some p) c v w =
      AreWithin-put_pump laws c.channel_configs p c.current_pulse_us (pump_pulse p c) v
        (pump_pulse_bounds p c v.pump_for.0) w

  pump_count_update_at-config :
      (pump : Option (PumpConfig F)) (c : Controller F B)
      → ((pump_count_update_at pump c).0.channel_configs ≡ c.channel_configs)
        × ((pump_count_update_at pump c).0.pump_config ≡ c.pump_config)
  unfolding pump_count_update_at
  pump_count_update_at-config none c = (refl, refl)
  pump_count_update_at-config (some p) c = (refl, refl)

  pub pump_count_update-IsSafe : (c : Controller F B) → IsSafe c → IsSafe (pump_count_update c).0
  unfolding pump_count_update
  pump_count_update-IsSafe c s =
      let (channels, pump) = pump_count_update_at-config c.pump_config c in
      record {
        config = rw (channels, pump) s.config;
        within =
            rw (channels, pump) (pump_count_update_at-AreWithin c.pump_config c s.config s.within);
      }

  pub apply_commands-IsSafe :
      (commands : Commands F) (unset : Option Bool) (now : F) (c : Controller F B)
      → IsSafe c
      → IsSafe (apply_commands commands unset now c).0
  unfolding apply_commands
  apply_commands-IsSafe commands unset now c s = record {
    config = s.config;
    within = record {
      size = length-rounds laws _ _ _ now c.channel_configs _ ∙ s.within.size;
      channels_fit =
          rounds-AllFit laws _ _ _ now c.channel_configs _ s.config.channels s.config.distinct
            s.within.size s.within.channels_fit;
      pump_fits =
          PumpFits-rounds laws _ _ _ now c.channel_configs c.pump_config _ s.config
            s.within.pump_fits;
    };
  }

  pub note_command-IsSafe : (now : F) (c : Controller F B) → IsSafe c → IsSafe (note_command now c)
  unfolding note_command
  note_command-IsSafe now c s = elim (Bool-cases c.skip_rate_checking) [
    | inl e ↦ rw e (record { config = s.config; within = s.within })
    | inr e ↦ rw e (record { config = s.config; within = s.within })
  ]

  module _ ⦃bus : I2c B⦄ where
    pub write_updates-IsSafe :
        (c : Controller F B) (updates : Updates) → IsSafe c → IsSafe (write_updates (c, updates)).0
    unfolding write_updates
    write_updates-IsSafe c updates s =
        let s' = pump_count_update-IsSafe c s in record { config = s'.config; within = s'.within }

    -- `update_named` keeps the invariant on every branch, whatever the commands (NaN and values that
    -- are no numbers included), and whether or not the bus fails.
    pub update_named-IsSafe :
        (commands : Commands F) (unset : Option Bool) (command_ts : Option F) (now_mono now : F)
        (c : Controller F B)
        → IsSafe c
        → IsSafe (update_named commands unset command_ts now_mono now c).0
    unfolding update_named
    update_named-IsSafe commands unset command_ts now_mono now c s =
        let noted = note_command-IsSafe now_mono c s in
        let applied = apply_commands commands unset now (note_command now_mono c) in
        let written =
          write_updates-IsSafe applied.0 applied.1
            (apply_commands-IsSafe commands unset now _ noted) in
        elim (Bool-cases (is_expired command_ts now_mono c)) [
          | inl e ↦ rw e s
          | inr e ↦ elim (Bool-cases (is_held (note_command now_mono c))) [
            | inl h ↦ rw (e, h) noted
            | inr h ↦ rw (e, h) written
          ]
        ]
