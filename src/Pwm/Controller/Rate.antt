-- ===== src/Pwm/Controller/Rate.antt =====
-- `get_average_input_rate` counts by `input_counter`, which no method raises.
use kaivuriprokkis.Prelude.{
  ◌≡◌, refl, ◌∙◌, ap, Bool, true, false, Option, none, some, arith, Bool-cases, Option-cases, inl,
  inr, if◌then◌else◌,
}
use kaivuriprokkis.Prelude.Int.{ℤ, pos}
use kaivuriprokkis.Float.{Float, nought}
use kaivuriprokkis.Pwm.Config.{PumpConfig}
use kaivuriprokkis.Pwm.Writer.{I2c}
use kaivuriprokkis.Pwm.Controller.State.{Controller, Updates}
use kaivuriprokkis.Pwm.Controller.Pump.{
  direct_of, pump_count_update, pump_count_update_at, update_pump, set_pump_enabled, set_pump_auto,
  set_pump_speed_us, set_pump_activity_gain_us,
}
use kaivuriprokkis.Pwm.Controller.Commands.{
  Commands, update_named, update_named_us, note_command, apply_commands, apply_pulses,
  write_updates,
}
use kaivuriprokkis.Pwm.Controller.Lifecycle.{
  reset, check_rate, check_stale, monitor_round, start_monitoring, stop_monitoring,
  get_average_input_rate,
}
use kaivuriprokkis.Pwm.Controller.Setup.{
  Loaded, reload_config, swap_config, load_swap, restart, swapped, build_writer, disable_channels,
}
use kaivuriprokkis.Pwm.Controller.Steps.{
  Step, Reach, commands, pulses, resets, watches, enables, automates, speeds, gains, reloads,
  asks_rate, disables, here, next,
}

module _ {F B : Type 0} ⦃fl : Float F⦄ where
  -- No command is counted for `get_average_input_rate`.
  abbrev IsUncounted : Controller F B → Type 0
  IsUncounted c = c.input_counter ≡ 0

  pump_at-count :
      (pump : Option (PumpConfig F)) (c : Controller F B)
      → (pump_count_update_at pump c).0.input_counter ≡ c.input_counter
  unfolding pump_count_update_at
  pump_at-count none c = refl
  pump_at-count (some p) c = refl

  pump_count_update-count :
      (c : Controller F B) → (pump_count_update c).0.input_counter ≡ c.input_counter
  unfolding pump_count_update
  pump_count_update-count c = pump_at-count c.pump_config c

  note_command-count :
      (now : F) (c : Controller F B) → (note_command now c).input_counter ≡ c.input_counter
  unfolding note_command
  note_command-count now c = ground arith

  check_rate-count :
      (now : F) (c : Controller F B) → (check_rate now c).input_counter ≡ c.input_counter
  unfolding check_rate
  check_rate-count now c = ground arith

  start_monitoring-count :
      (c : Controller F B) → (start_monitoring c).input_counter ≡ c.input_counter
  unfolding start_monitoring
  start_monitoring-count c = ground arith

  gains-count :
      (gain : F) (c : Controller F B)
      → (set_pump_activity_gain_us gain c).0.input_counter ≡ c.input_counter
  unfolding set_pump_activity_gain_us
  gains-count gain c = ground arith

  asks-IsUncounted :
      (now : F) (c : Controller F B) → IsUncounted c → IsUncounted (get_average_input_rate now c).1
  unfolding get_average_input_rate
  asks-IsUncounted now c h = ground arith

  rate_uncounted :
      (now : F) (d : Controller F B)
      → IsUncounted d
      → (get_average_input_rate now d).0 ≡ (
          if fl.le (fl.sub now d.rate_window_start) nought
          then nought
          else fl.div (fl.of_int (pos 0)) (fl.sub now d.rate_window_start))
  unfolding get_average_input_rate
  rate_uncounted now d h = elim (Bool-cases (fl.le (fl.sub now d.rate_window_start) nought)) [
    | inl e ↦ rw e refl
    | inr e ↦ rw e (ap (λ n. fl.div (fl.of_int (pos n)) (fl.sub now d.rate_window_start)) h)
  ]

  module _ ⦃bus : I2c B⦄ where
    write_updates-count :
        (c : Controller F B) (updates : Updates)
        → (write_updates (c, updates)).0.input_counter ≡ c.input_counter
    unfolding write_updates
    write_updates-count c updates = pump_count_update-count c

    update_named-count :
        (xs : Commands F) (unset : Option Bool) (ts : Option F) (m n : F) (c : Controller F B)
        → (update_named xs unset ts m n c).0.input_counter ≡ c.input_counter
    unfolding update_named apply_commands
    update_named-count xs unset ts m n c =
        let applied = apply_commands xs unset n (note_command m c) in
        ground (arith, note_command-count m c, write_updates-count applied.0 applied.1)

    update_named_us-count :
        (xs : Commands F) (unset : Option Bool) (ts : Option F) (m : F) (c : Controller F B)
        → (update_named_us xs unset ts m c).0.input_counter ≡ c.input_counter
    unfolding update_named_us apply_pulses
    update_named_us-count xs unset ts m c =
        let applied = apply_pulses xs unset (note_command m c) in
        ground (arith, note_command-count m c, write_updates-count applied.0 applied.1)

    reset-IsUncounted : (p : Bool) (now : F) (c : Controller F B) → IsUncounted (reset p now c).0
    unfolding reset
    reset-IsUncounted p now c = refl

    update_pump-count :
        (flush : Bool) (c : Controller F B)
        → (update_pump flush c).0.input_counter ≡ c.input_counter
    unfolding update_pump
    update_pump-count flush c = ground (arith, pump_count_update-count c)

    enables-count :
        (enabled flush : Bool) (c : Controller F B)
        → (set_pump_enabled enabled flush c).0.input_counter ≡ c.input_counter
    unfolding set_pump_enabled
    enables-count enabled flush c =
        ground (arith, update_pump-count true (record c { pump_enabled = enabled }))

    speeds-count :
        (pulse : Option F) (flush : Bool) (c : Controller F B)
        → (set_pump_speed_us pulse flush c).0.input_counter ≡ c.input_counter
    unfolding set_pump_speed_us
    speeds-count pulse flush c = ground (
      arith,
      update_pump-count true (record c { pump_direct_us = direct_of c.pump_config pulse }),
    )

    check_stale-IsUncounted :
        (m n : F) (c : Controller F B) → IsUncounted c → IsUncounted (check_stale m n c).0
    unfolding check_stale
    check_stale-IsUncounted m n c h = ground (arith, reset-IsUncounted false n c)

    monitor_round-IsUncounted :
        (t m n : F) (c : Controller F B) → IsUncounted c → IsUncounted (monitor_round t m n c).0
    unfolding monitor_round
    monitor_round-IsUncounted t m n c h =
        ground (arith, check_rate-count t c, check_stale-IsUncounted m n (check_rate t c))

    restart-count :
        (was : Bool) (c : Controller F B) → (restart was c).input_counter ≡ c.input_counter
    restart-count true c = start_monitoring-count c
    restart-count false c = refl

    swap_config-IsUncounted :
        (l : Loaded F) (f : Option ℤ) (now : F) (c : Controller F B)
        → IsUncounted c
        → IsUncounted (swap_config l f now c).0
    unfolding swap_config
    swap_config-IsUncounted l none now c h = h
    swap_config-IsUncounted l (some f) now c h =
        elim (Option-cases
          (build_writer c.writer.i2c c.writer.driver c.writer.addr c.pump_config l f).1.0) [
            | inl e ↦ rw (e, swap_config) h
            | inr (w, e) ↦ rw (e, swap_config) (reset-IsUncounted true now (swapped l f w c))
          ]

    load_swap-IsUncounted :
        (l : Option (Loaded F)) (now : F) (c : Controller F B)
        → IsUncounted c
        → IsUncounted (load_swap l now c).0
    load_swap-IsUncounted none now c h = h
    load_swap-IsUncounted (some l) now c h = swap_config-IsUncounted l _ now c h

    reload-IsUncounted :
        (l : Option (Loaded F)) (now : F) (c : Controller F B)
        → IsUncounted (reload_config l now c).0
    unfolding reload_config
    reload-IsUncounted l now c =
        let c0 : Controller F B = if c.running then stop_monitoring c else c in
        let c1 = (reset true now c0).0 in
        let h = reset-IsUncounted true now c0 in
        elim (Option-cases (reset true now c0).1) [
          | inl e ↦
              rw (e, reload_config)
                (restart-count c.running (load_swap l now c1).0 ∙ load_swap-IsUncounted l now c1 h)
          | inr (x, e) ↦ rw (e, reload_config) (restart-count c.running c1 ∙ h)
        ]

    Step-IsUncounted : {c d : Controller F B} → Step c d → IsUncounted c → IsUncounted d
    unfolding set_pump_auto disable_channels
    Step-IsUncounted (commands xs u ts m n c) h = update_named-count xs u ts m n c ∙ h
    Step-IsUncounted (pulses xs u ts m c) h = update_named_us-count xs u ts m c ∙ h
    Step-IsUncounted (resets p n c) h = reset-IsUncounted p n c
    Step-IsUncounted (watches t m n c) h = monitor_round-IsUncounted t m n c h
    Step-IsUncounted (enables e f c) h = enables-count e f c ∙ h
    Step-IsUncounted (automates a c) h = h
    Step-IsUncounted (speeds p f c) h = speeds-count p f c ∙ h
    Step-IsUncounted (gains g c) h = gains-count g c ∙ h
    Step-IsUncounted (reloads l n c v) h = reload-IsUncounted l n c
    Step-IsUncounted (asks_rate n c) h = asks-IsUncounted n c h
    Step-IsUncounted (disables d c) h = h

    -- `get_average_input_rate` sees no command: from a state whose `input_counter` is 0, and `reset`
    -- puts it to 0, after any sequence of calls and monitor rounds the rate that it gives is 0 over
    -- the elapsed time, or 0.0, however many commands came.
    pub average_rate_sees_nothing :
        {c d : Controller F B} (now : F)
        → c.input_counter ≡ 0
        → Reach c d
        → (d.input_counter ≡ 0)
          × ((get_average_input_rate now d).0 ≡ (
              if fl.le (fl.sub now d.rate_window_start) nought
              then nought
              else fl.div (fl.of_int (pos 0)) (fl.sub now d.rate_window_start)))
    average_rate_sees_nothing {c} now h here = (h, rate_uncounted now c h)
    average_rate_sees_nothing {d = d} now h (next r st) =
        let e = Step-IsUncounted st (average_rate_sees_nothing now h r).0 in
        (e, rate_uncounted now d e)
