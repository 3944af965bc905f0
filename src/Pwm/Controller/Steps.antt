-- ===== src/Pwm/Controller/Steps.antt =====
-- `PWMController` under any sequence of calls and monitor rounds, each of them one step. The pulses
-- are written under the state lock only, so an interleaving of threads is such a sequence for them.
use kaivuriprokkis.Prelude.{
  ◌≡◌, Bool, true, Option, none, some, [], length-replicate, Option-cases, inl, inr,
}
use kaivuriprokkis.Prelude.Int.{ℤ}
use kaivuriprokkis.Float.{Float, IsOrdered, nought}
use kaivuriprokkis.Pwm.Constants.{max_channels}
use kaivuriprokkis.Pwm.Validation.Sound.{IsValidConfig, collect-IsValidConfig}
use kaivuriprokkis.Pwm.Validation.{collect_config_validation_errors}
use kaivuriprokkis.Pwm.Writer.{I2c}
use kaivuriprokkis.Pwm.Controller.State.{Controller}
use kaivuriprokkis.Pwm.Controller.Pump.{
  set_pump_enabled, set_pump_auto, set_pump_speed_us, set_pump_activity_gain_us,
}
use kaivuriprokkis.Pwm.Controller.Commands.{Commands, update_named, update_named_us}
use kaivuriprokkis.Pwm.Controller.Lifecycle.{
  reset, monitor_round, get_average_input_rate, start_monitoring,
}
use kaivuriprokkis.Pwm.Controller.Setup.{
  Loaded, Settings, reload_config, make_controller, start_up, build_writer, fresh, watched,
  or_frequency, frequency_of, disable_channels,
}
use kaivuriprokkis.Pwm.Controller.Invariant.{AreWithin, IsSafe, update_named-IsSafe}
use kaivuriprokkis.Pwm.Controller.Direct.{update_named_us-IsSafe}
use kaivuriprokkis.Pwm.Controller.Centered.{reset-IsSafe, reset-IsSafe_fresh}
use kaivuriprokkis.Pwm.Controller.Kept.{
  IsLoadable, set_pump_enabled-IsSafe, set_pump_auto-IsSafe, set_pump_speed_us-IsSafe,
  set_pump_activity_gain_us-IsSafe, monitor_round-IsSafe, reload_config-IsSafe,
  get_average_input_rate-IsSafe, start_monitoring-IsSafe, if-IsSafe,
}

-- One call of a public method, or one round of the monitor thread, from a state to the next. A
-- reload reads a validated configuration or raises.
pub data Step {F B : Type 0} ⦃fl : Float F⦄ ⦃bus : I2c B⦄
    : Controller F B → Controller F B → Type 0 where
  commands :
      (xs : Commands F) (unset : Option Bool) (command_ts : Option F) (now_mono now : F)
      (c : Controller F B)
      → Step c (update_named xs unset command_ts now_mono now c).0
  pulses :
      (xs : Commands F) (unset : Option Bool) (command_ts : Option F) (now_mono : F)
      (c : Controller F B)
      → Step c (update_named_us xs unset command_ts now_mono c).0
  resets : (reset_pump : Bool) (now : F) (c : Controller F B) → Step c (reset reset_pump now c).0
  watches :
      (current_time now_mono now : F) (c : Controller F B)
      → Step c (monitor_round current_time now_mono now c).0
  enables :
      (enabled flush : Bool) (c : Controller F B) → Step c (set_pump_enabled enabled flush c).0
  automates : (auto : Bool) (c : Controller F B) → Step c (set_pump_auto auto c)
  speeds :
      (pulse : Option F) (flush : Bool) (c : Controller F B)
      → Step c (set_pump_speed_us pulse flush c).0
  gains : (gain : F) (c : Controller F B) → Step c (set_pump_activity_gain_us gain c).0
  reloads :
      (loaded : Option (Loaded F)) (now : F) (c : Controller F B)
      → IsLoadable loaded
      → Step c (reload_config loaded now c).0
  asks_rate : (now : F) (c : Controller F B) → Step c (get_average_input_rate now c).1
  disables : (disabled : Bool) (c : Controller F B) → Step c (disable_channels disabled c)

pub data Reach {F B : Type 0} ⦃fl : Float F⦄ ⦃bus : I2c B⦄ (c : Controller F B)
    : Controller F B → Type 0 where
  here : Reach c c
  next : {d e : Controller F B} → Reach c d → Step d e → Reach c e

module _ {F B : Type 0} ⦃fl : Float F⦄ ⦃bus : I2c B⦄ (laws : IsOrdered F) where
  Step-IsSafe : {c d : Controller F B} → Step c d → IsSafe c → IsSafe d
  unfolding disable_channels
  Step-IsSafe (commands xs u ts m n c) s = update_named-IsSafe laws xs u ts m n c s
  Step-IsSafe (pulses xs u ts m c) s = update_named_us-IsSafe laws xs u ts m c s
  Step-IsSafe (resets p n c) s = reset-IsSafe laws p n c s
  Step-IsSafe (watches t m n c) s = monitor_round-IsSafe laws t m n c s
  Step-IsSafe (enables e f c) s = set_pump_enabled-IsSafe laws e f c s
  Step-IsSafe (automates a c) s = set_pump_auto-IsSafe a c s
  Step-IsSafe (speeds p f c) s = set_pump_speed_us-IsSafe laws p f c s
  Step-IsSafe (gains g c) s = set_pump_activity_gain_us-IsSafe laws g c s
  Step-IsSafe (reloads l n c v) s = reload_config-IsSafe laws l n c v s
  Step-IsSafe (asks_rate n c) s = get_average_input_rate-IsSafe n c s
  Step-IsSafe (disables d c) s = record { config = s.config; within = s.within }

  Reach-IsSafe_from : {c d : Controller F B} → IsSafe c → Reach c d → IsSafe d
  Reach-IsSafe_from s here = s
  Reach-IsSafe_from s (next r st) = Step-IsSafe st (Reach-IsSafe_from s r)

  watched-IsSafe : (c : Controller F B) → IsSafe c → IsSafe (watched c)
  watched-IsSafe c s = if-IsSafe laws _ (start_monitoring c) c (start_monitoring-IsSafe c s) s

  -- What `__init__` returns, if it returns.
  abbrev IsStarted : Option (Controller F B) → Type 0
  IsStarted none = Unit
  IsStarted (some c) = IsSafe c

  start_up-IsStarted :
      (s : Settings F) (l : Loaded F) (frequency : Option ℤ) (wall mono : F) (b : B)
      → IsValidConfig l.channels l.pump
      → IsStarted (start_up s l frequency wall mono b).0
  unfolding start_up
  start_up-IsStarted s l none wall mono b v = tt
  start_up-IsStarted s l (some f) wall mono b v =
      let made = (build_writer b s.driver s.i2c_addr l.pump l f).1 in
      elim (Option-cases made.0) [
        | inl e ↦ rw (e, start_up) tt
        | inr (w, e) ↦
            let c = fresh s l f wall mono w in
            let safe =
              reset-IsSafe_fresh laws mono c v (length-replicate {A = F} max_channels nought) in
            elim (Option-cases (reset true mono c).1) [
              | inl e' ↦ rw (e, start_up, e') (watched-IsSafe (reset true mono c).0 safe)
              | inr (x, e') ↦ rw (e, start_up, e') tt
            ]
      ]

  -- From a constructor that returned, on a configuration with no validation error, no sequence of
  -- calls and monitor rounds, with whatever arguments, times and bus failures, takes the last pulse
  -- of a channel or of the pump out of its configured limits.
  pub Reach-IsSafe :
      (s : Settings F) (l : Loaded F) (wall mono : F) (b : B) (c d : Controller F B)
      → collect_config_validation_errors l.channels l.pump l.frequency ≡ []
      → (make_controller s l wall mono b).0 ≡ some c
      → Reach c d
      → AreWithin d.channel_configs d.pump_config d.current_pulse_us
  unfolding make_controller
  Reach-IsSafe s l wall mono b c d valid made r =
      let v = collect-IsValidConfig l.channels l.pump l.frequency valid in
      let start : IsSafe c = rw made at (
        start_up-IsStarted s l (or_frequency s.pwm_frequency (frequency_of l.frequency)) wall mono b
          v) in
      (Reach-IsSafe_from start r).within
