-- ===== src/Tests/Controlling.antt =====
-- The controller, its pump and its pulses at concrete inputs.
use kaivuriprokkis.Prelude.{inr, true, false, Option, none, some, [], ◌∷◌, ◌≡◌, refl, arith, inl}
use kaivuriprokkis.Prelude.Int.{pos}
use kaivuriprokkis.Float.{Equals, py_max, nought, IsNan}
use kaivuriprokkis.Float.Fixed.{Fixed, fixed_float, Fixed-IsOrdered, Fixed-IsArithmetic}
use kaivuriprokkis.Prelude.{replicate}
use kaivuriprokkis.Prelude.Int.{◌*ℤ◌, ◌+ℤ◌, ◌-ℤ◌}
use kaivuriprokkis.Prelude.Dict.{insert, lookup}
use kaivuriprokkis.Pwm.Config.{post_init}
use kaivuriprokkis.Pwm.Validation.{
  collect_config_validation_errors, raised, frequency_checks, channel_errors, channel_checks,
  is_used, mark_used, pump_errors, pump_checks,
}
use kaivuriprokkis.Pwm.Validation.Sound.{IsValidConfig, collect-IsValidConfig}
use kaivuriprokkis.Pwm.Writer.{
  Writer, smbus, empty_frame, send_blocks, blocks, fill_frame, put_count, put_bytes,
}
use kaivuriprokkis.Pwm.Controller.State.{Controller, at_channel}
use kaivuriprokkis.Pwm.Controller.Commands.{
  Commands, apply_commands, is_expired, update_named, update_named_us,
}
use kaivuriprokkis.Pwm.Controller.Lifecycle.{reset, get_average_input_rate, monitor_round}
use kaivuriprokkis.Pwm.Controller.Setup.{make_controller, fresh}
use kaivuriprokkis.Pwm.Controller.Invariant.{IsSafe, AreWithin, update_named-IsSafe}
use kaivuriprokkis.Pwm.Controller.Direct.{update_named_us-IsSafe}
use kaivuriprokkis.Pwm.Controller.Centered.{AllCentered, PumpAfter, reset-AllCentered}
use kaivuriprokkis.Pwm.Controller.Steps.{Reach-IsSafe, here, next, commands, watches}
use kaivuriprokkis.Prelude.{if◌then◌else◌}
use kaivuriprokkis.Pwm.Controller.Hold.{
  IsUntouched, none_yet, by_value, reset_holds, dropped-IsUntouched,
}
use kaivuriprokkis.Pwm.Controller.Rate.{average_rate_sees_nothing}
use kaivuriprokkis.Pwm.Controller.Nan.{nan_command_is_full}
use kaivuriprokkis.Pwm.Config.{ChannelConfig}
use kaivuriprokkis.Pwm.Pulse.{pulse_from_value}
use kaivuriprokkis.Pwm.Pulse.Bounds.{pulse_from_value_neutral}
use kaivuriprokkis.Tests.Fixtures.{
  Registers, registers, blank, whole, track, boom, channels, pump, loaded, settings,
}

no_errors : collect_config_validation_errors channels (some pump) loaded.frequency ≡ []
unfolding collect_config_validation_errors raised frequency_checks channel_errors channel_checks
    post_init is_used ◌*ℤ◌ ◌+ℤ◌ ◌-ℤ◌ mark_used insert pump_errors pump_checks
no_errors = refl

is_valid : IsValidConfig channels (some pump)
is_valid = collect-IsValidConfig channels (some pump) loaded.frequency no_errors

abbrev or_else : {A : Type 0} → A → Option A → A
or_else a none = a
or_else a (some b) = b

abbrev bare_writer : Writer Registers
bare_writer = record {
  i2c = blank;
  driver = smbus;
  addr = 64;
  min_ch = 3;
  max_ch = 9;
  num_channels = 7;
  buf = empty_frame 3 7;
  counts = replicate 16 (pos 0);
  frequency = pos 50;
}

-- The object before `reset()` in the constructor.
abbrev idle : Controller Fixed Registers
idle = fresh settings loaded (pos 50) (whole 0) (whole 0) bare_writer

abbrev started : Controller Fixed Registers
started = or_else idle (make_controller settings loaded (whole 0) (whole 0) blank).0

made : (make_controller settings loaded (whole 0) (whole 0) blank).0 ≡ some started
unfolding make_controller post_init send_blocks blocks fill_frame put_count put_bytes
made = refl

-- Full speed on one track, no number for the boom, and a name that is not configured.
abbrev orders : Commands Fixed
orders = ("trackR", some (whole 1)) ∷ ("lift_boom", none) ∷ ("slew", some (whole 1)) ∷ []

abbrev commanded : Controller Fixed Registers
commanded = (update_named orders none none (whole 1) (whole 1) started).0

Reach-IsSafe_example :
    let d = (monitor_round (whole 2) (whole 2) (whole 2) commanded).0 in
    AreWithin d.channel_configs d.pump_config d.current_pulse_us
Reach-IsSafe_example =
    Reach-IsSafe Fixed-IsOrdered settings loaded (whole 0) (whole 0) blank started
      (monitor_round (whole 2) (whole 2) (whole 2) commanded).0 no_errors made
      (next (next here (commands orders none none (whole 1) (whole 1) started))
        (watches (whole 2) (whole 2) (whole 2) commanded))

started-IsSafe : IsSafe started
unfolding make_controller post_init send_blocks blocks fill_frame put_count put_bytes ◌*ℤ◌
started-IsSafe = record {
  config = is_valid;
  within =
      Reach-IsSafe Fixed-IsOrdered settings loaded (whole 0) (whole 0) blank started started
        no_errors made here;
}

update_named-IsSafe_example : IsSafe commanded
update_named-IsSafe_example =
    update_named-IsSafe Fixed-IsOrdered orders none none (whole 1) (whole 1) started started-IsSafe

abbrev widths : Commands Fixed
widths = ("trackR", some (whole 1700)) ∷ ("lift_boom", some none) ∷ []

update_named_us-IsSafe_example :
    IsSafe (update_named_us widths (some true) (some (whole 1)) (whole 1) started).0
update_named_us-IsSafe_example =
    update_named_us-IsSafe Fixed-IsOrdered widths (some true) (some (whole 1)) (whole 1) started
      started-IsSafe

-- The state right after a reset: commands are held.
abbrev held : Controller Fixed Registers
held = (reset false (whole 1) idle).0

reset-AllCentered_example :
    AllCentered channels held.current_pulse_us
    × PumpAfter false (some pump) idle.current_pulse_us held.current_pulse_us
    × (held.is_safe_state ≡ false)
reset-AllCentered_example = reset-AllCentered false (whole 1) idle is_valid refl

reset_holds_example :
    AllCentered channels (update_named orders none none (whole 2) (whole 2) held).0.current_pulse_us
    × ((update_named orders none none (whole 2) (whole 2) held).0.writer ≡ held.writer)
unfolding ◌*ℤ◌
reset_holds_example =
    reset_holds false (whole 1) idle is_valid refl refl
      (by_value orders none none (whole 2) (whole 2) none_yet)

-- The command is nine seconds old, and the limit is one.
dropped-IsUntouched_example :
    IsUntouched idle (update_named orders none (some (whole 0)) (whole 9) (whole 9) idle).0
    × IsUntouched idle (update_named_us orders none (some (whole 0)) (whole 9) idle).0
    × ((update_named orders none (some (whole 0)) (whole 9) (whole 9) idle).1 ≡ none)
    × ((update_named_us orders none (some (whole 0)) (whole 9) idle).1 ≡ none)
unfolding is_expired py_max ◌*ℤ◌ ◌-ℤ◌
dropped-IsUntouched_example =
    dropped-IsUntouched orders none (some (whole 0)) (whole 9) (whole 9) idle (inl (refl, refl))

abbrev asked : Controller Fixed Registers
asked = (update_named orders none none (whole 1) (whole 1) idle).0

average_rate_sees_nothing_example :
    (asked.input_counter ≡ 0)
    × ((get_average_input_rate (whole 2) asked).0 ≡ (
        if fixed_float.le (fixed_float.sub (whole 2) asked.rate_window_start) nought
        then nought
        else fixed_float.div
            (fixed_float.of_int (pos 0))
            (fixed_float.sub (whole 2) asked.rate_window_start)))
average_rate_sees_nothing_example =
    average_rate_sees_nothing {c = idle} (whole 2) refl
      (next here (commands orders none none (whole 1) (whole 1) idle))

none-IsNan : IsNan {F = Fixed} none
none-IsNan y = ground arith

nan_command_is_full_example :
    at_channel
      (apply_commands (("lift_boom", some none) ∷ []) (some false) (whole 1) idle).0.values
      (pos 7)
    ≡ whole 1
unfolding ◌*ℤ◌ ◌-ℤ◌ lookup post_init
nan_command_is_full_example =
    nan_command_is_full "lift_boom" none (some false) (whole 1) idle boom none-IsNan refl refl
      (omega arith, omega arith) refl

-- A command of 0.04, within the deadzone of five percent.
abbrev slight : Fixed
slight = fixed_float.lit (pos 4) 2

abbrev unramped_track : ChannelConfig Fixed
unramped_track = record track { ramp_enable = false }

pulse_from_value_neutral_example :
    Equals (pulse_from_value unramped_track slight (whole 1) true []).0 track.center
    × ((pulse_from_value unramped_track slight (whole 1) true []).1 ≡ [])
unfolding ◌*ℤ◌ ◌-ℤ◌ ◌+ℤ◌ post_init
pulse_from_value_neutral_example =
    pulse_from_value_neutral Fixed-IsOrdered Fixed-IsArithmetic unramped_track slight (whole 1) true
      [] (refl, refl) (inr refl) refl refl
