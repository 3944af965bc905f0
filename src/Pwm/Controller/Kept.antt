-- ===== src/Pwm/Controller/Kept.antt =====
-- Every method of `PWMController` keeps its invariant: the pump's setters, the monitor's round and
-- `reload_config`.
use kaivuriprokkis.Prelude.{
  Bool, true, false, Option, none, some, arith, Bool-cases, Option-cases, inl, inr, if◌then◌else◌,
}
use kaivuriprokkis.Prelude.Int.{ℤ, pos, ◌-ℤ◌}
use kaivuriprokkis.Float.{Float, ◌≼◌, IsOrdered, nought, py_max_bound, py_min}
use kaivuriprokkis.Pwm.Config.{PumpConfig}
use kaivuriprokkis.Pwm.Validation.Sound.{IsValidConfig, IsValidPump}
use kaivuriprokkis.Pwm.Writer.{I2c}
use kaivuriprokkis.Pwm.Controller.State.{Controller}
use kaivuriprokkis.Pwm.Controller.Pump.{
  direct_of, update_pump, set_pump_enabled, set_pump_auto, set_pump_speed_us,
  set_pump_activity_gain_us, pump_count_update,
}
use kaivuriprokkis.Pwm.Controller.Lifecycle.{
  reset, start_monitoring, stop_monitoring, check_rate, check_stale, monitor_round,
  get_average_input_rate,
}
use kaivuriprokkis.Pwm.Controller.Setup.{
  Loaded, swap_config, load_swap, swapped, build_writer, restart, reload_config,
}
use kaivuriprokkis.Pwm.Controller.Invariant.{AreWithin, IsSafe, pump_count_update-IsSafe}
use kaivuriprokkis.Pwm.Controller.Centered.{reset-IsSafe, reset-IsSafe_fresh}

range_nonneg :
    {F : Type 0} ⦃fl : Float F⦄ (laws : IsOrdered F) (p : PumpConfig F)
    → IsValidPump p
    → nought ≼ fl.of_int (p.pulse_max -ℤ p.pulse_min)
unfolding ◌-ℤ◌
range_nonneg laws p v =
    rw (← laws.of_int_zero) (laws.of_int_mono (pos 0) (p.pulse_max -ℤ p.pulse_min) (ground arith))

-- What reading the file gives, if it gives anything, is a valid configuration.
abbrev pub IsLoadable : {F : Type 0} ⦃fl : Float F⦄ → Option (Loaded F) → Type 0
IsLoadable none = Unit
IsLoadable (some l) = IsValidConfig l.channels l.pump

module _ {F B : Type 0} ⦃fl : Float F⦄ where
  open fl use {of_int}

  pub start_monitoring-IsSafe : (c : Controller F B) → IsSafe c → IsSafe (start_monitoring c)
  unfolding start_monitoring
  start_monitoring-IsSafe c s = ground arith

  pub stop_monitoring-IsSafe : (c : Controller F B) → IsSafe c → IsSafe (stop_monitoring c)
  unfolding stop_monitoring
  stop_monitoring-IsSafe c s = ground arith

  pub check_rate-IsSafe : (now : F) (c : Controller F B) → IsSafe c → IsSafe (check_rate now c)
  unfolding check_rate
  check_rate-IsSafe now c s = ground arith

  pub set_pump_auto-IsSafe :
      (auto : Bool) (c : Controller F B) → IsSafe c → IsSafe (set_pump_auto auto c)
  unfolding set_pump_auto
  set_pump_auto-IsSafe auto c s = ground arith

  pub get_average_input_rate-IsSafe :
      (now : F) (c : Controller F B) → IsSafe c → IsSafe (get_average_input_rate now c).1
  unfolding get_average_input_rate
  get_average_input_rate-IsSafe now c s = ground arith

  module _ ⦃bus : I2c B⦄ (laws : IsOrdered F) where
    pub update_pump-IsSafe :
        (flush : Bool) (c : Controller F B) → IsSafe c → IsSafe (update_pump flush c).0
    unfolding update_pump
    update_pump-IsSafe flush c s =
        let s' = pump_count_update-IsSafe laws c s in
        elim (Option-cases (pump_count_update c).1) [
          | inl e ↦ rw (e, update_pump) s'
          | inr (u, e) ↦ rw (e, update_pump) (record { config = s'.config; within = s'.within })
        ]

    pub set_pump_enabled-IsSafe :
        (enabled flush : Bool) (c : Controller F B)
        → IsSafe c
        → IsSafe (set_pump_enabled enabled flush c).0
    unfolding set_pump_enabled
    set_pump_enabled-IsSafe enabled flush c s =
        let s' : IsSafe (record c { pump_enabled = enabled }) = record {
          config = s.config;
          within = s.within;
        } in
        elim (Bool-cases flush) [ inl e ↦ rw e (update_pump-IsSafe true _ s') | inr e ↦ rw e s' ]

    pub set_pump_speed_us-IsSafe :
        (pulse : Option F) (flush : Bool) (c : Controller F B)
        → IsSafe c
        → IsSafe (set_pump_speed_us pulse flush c).0
    unfolding set_pump_speed_us
    set_pump_speed_us-IsSafe pulse flush c s =
        let s' : IsSafe (record c { pump_direct_us = direct_of c.pump_config pulse }) = record {
          config = s.config;
          within = s.within;
        } in
        elim (Bool-cases flush) [ inl e ↦ rw e (update_pump-IsSafe true _ s') | inr e ↦ rw e s' ]

    pub check_stale-IsSafe :
        (now_mono now : F) (c : Controller F B) → IsSafe c → IsSafe (check_stale now_mono now c).0
    unfolding check_stale
    check_stale-IsSafe now_mono now c s = let s' = reset-IsSafe laws false now c s in ground arith

    pub monitor_round-IsSafe :
        (current_time now_mono now : F) (c : Controller F B)
        → IsSafe c
        → IsSafe (monitor_round current_time now_mono now c).0
    unfolding monitor_round
    monitor_round-IsSafe current_time now_mono now c s =
        let s' = check_stale-IsSafe now_mono now _ (check_rate-IsSafe current_time c s) in
        ground arith

    pub set_pump_activity_gain_us-IsSafe :
        (gain : F) (c : Controller F B) → IsSafe c → IsSafe (set_pump_activity_gain_us gain c).0
    unfolding set_pump_activity_gain_us
    set_pump_activity_gain_us-IsSafe gain c s = elim (Option-cases c.pump_config) [
      | inl e ↦ rw (e, set_pump_activity_gain_us) s
      | inr (p, e) ↦
          let v : IsValidConfig c.channel_configs (some p) = rw e at (s.config) in
          let w : AreWithin c.channel_configs (some p) c.current_pulse_us = rw e at (s.within) in
          let pump = v.pump_for.0 in
          let range = of_int (p.pulse_max -ℤ p.pulse_min) in
          let number = laws.num_left nought range (range_nonneg laws p pump) in
          rw (e, set_pump_activity_gain_us)
            (record {
              config = record {
                channels = v.channels;
                distinct = v.distinct;
                pump_for = (
                  record {
                    output_fits = pump.output_fits;
                    min_fits = pump.min_fits;
                    max_fits = pump.max_fits;
                    min_lt_max = pump.min_lt_max;
                    static_ge_min = pump.static_ge_min;
                    static_le_max = pump.static_le_max;
                    gain_ge_zero = py_max_bound laws nought (py_min gain range) number;
                  },
                  v.pump_for.1,
                );
              };
              within = record {
                size = w.size;
                channels_fit = w.channels_fit;
                pump_fits = w.pump_fits;
              };
            })
    ]

    pub if-IsSafe :
        (b : Bool) (c d : Controller F B) → IsSafe c → IsSafe d → IsSafe (if b then c else d)
    if-IsSafe true c d s t = s
    if-IsSafe false c d s t = t

    pub stopped-IsSafe :
        (c : Controller F B) → IsSafe c → IsSafe (if c.running then stop_monitoring c else c)
    stopped-IsSafe c s = if-IsSafe c.running _ _ (stop_monitoring-IsSafe c s) s

    pub restart-IsSafe : (was : Bool) (c : Controller F B) → IsSafe c → IsSafe (restart was c)
    restart-IsSafe true c s = start_monitoring-IsSafe c s
    restart-IsSafe false c s = s

    pub swap_config-IsSafe :
        (l : Loaded F) (frequency : Option ℤ) (now : F) (c : Controller F B)
        → IsValidConfig l.channels l.pump
        → IsSafe c
        → IsSafe (swap_config l frequency now c).0
    unfolding swap_config
    swap_config-IsSafe l none now c v s = s
    swap_config-IsSafe l (some f) now c v s =
        let (b, made) = build_writer c.writer.i2c c.writer.driver c.writer.addr c.pump_config l f in
        elim (Option-cases made.0) [
          | inl e ↦ rw (e, swap_config) (record { config = s.config; within = s.within })
          | inr (w, e) ↦
              rw (e, swap_config) (reset-IsSafe_fresh laws now (swapped l f w c) v s.within.size)
        ]

    pub load_swap-IsSafe :
        (loaded : Option (Loaded F)) (now : F) (c : Controller F B)
        → IsLoadable loaded
        → IsSafe c
        → IsSafe (load_swap loaded now c).0
    load_swap-IsSafe none now c v s = s
    load_swap-IsSafe (some l) now c v s = swap_config-IsSafe l _ now c v s

    -- A reload keeps the invariant, whether it reads a valid configuration or fails on the way.
    pub reload_config-IsSafe :
        (loaded : Option (Loaded F)) (now : F) (c : Controller F B)
        → IsLoadable loaded
        → IsSafe c
        → IsSafe (reload_config loaded now c).0
    unfolding reload_config
    reload_config-IsSafe loaded now c v s =
        let c0 : Controller F B = if c.running then stop_monitoring c else c in
        let s0 : IsSafe c0 = stopped-IsSafe c s in
        let s1 = reset-IsSafe laws true now c0 s0 in
        let s2 = load_swap-IsSafe loaded now (reset true now c0).0 v s1 in
        elim (Option-cases (reset true now c0).1) [
          | inl e ↦ rw (e, reload_config) (restart-IsSafe c.running _ s2)
          | inr (x, e) ↦ rw (e, reload_config) (restart-IsSafe c.running _ s1)
        ]
