-- ===== src/Pwm/Controller/State.antt =====
-- The state of `PWMController`, and what its methods share. Logging and the performance tracker
-- write nothing that a method reads, and are left out.
use kaivuriprokkis.Prelude.{
  ℕ, suc, ◌-◌, Bool, not, ◌&&◌, Option, none, List, [], ◌∷◌, get_or, set, if◌then◌else◌,
}
use kaivuriprokkis.Prelude.Int.{ℤ, pos, negsuc}
use kaivuriprokkis.Prelude.Dict.{Dict}
use kaivuriprokkis.Float.{Float, nought, unit, py_max, clamp}
use kaivuriprokkis.Pwm.Constants.{pca9685_count_max}
use kaivuriprokkis.Pwm.Config.{ChannelConfig, PumpConfig}
use kaivuriprokkis.Pwm.Validation.{Frequency}
use kaivuriprokkis.Pwm.Writer.{I2c, Writer, Error, Outcome, ◌then_do◌, set_channel, flush, clamp_ℤ}
use kaivuriprokkis.Pwm.Pulse.{RampTable}
use Prim.Native.String.{String}

pub record Controller (F B : Type 0) : Type 0 where
  pub channel_configs : Dict String (ChannelConfig F)
  pub pump_config : Option (PumpConfig F)
  pub config_pwm_frequency : Frequency F
  pub toggle_channels : Bool
  pub pump_enabled : Bool
  pub pump_auto_mode : Bool
  pub pump_direct_us : Option F
  pub pump_activity_sum : F
  pub pump_activity_count : ℕ
  pub stale_timeout_s : F
  pub last_command_ts : F
  pub input_rate_threshold : F
  pub skip_rate_checking : Bool
  pub is_safe_state : Bool
  pub time_window : F
  -- the flag that the monitor thread watches, whether the thread is alive, and its local flag
  pub running : Bool
  pub monitor_alive : Bool
  pub stale_reset_sent : Bool
  pub values : List F
  pub current_pulse_us : List F
  pub cmd_counter : ℕ
  pub input_counter : ℕ
  pub rate_window_start : F
  pub default_unset_to_zero : Bool
  pub cleanup_disable_osc : Bool
  pub channel_ramp_state : RampTable F
  pub affects_pump_channels : List (ChannelConfig F)
  pub pwm_period_us : F
  pub writer : Writer B

-- A call returns the state, and the error where it raises.
abbrev pub Call : Type 0 → Type 0 → Type 0
Call F B = Controller F B × Option Error

-- The index of `xs[channel]` in a list of sixteen: a negative one counts from the end. A validated
-- configuration has the channels 0 to 15 only.
abbrev pub slot : ℤ → ℕ
slot (pos n) = n
slot (negsuc n) = 16 - suc n

abbrev pub Updates : Type 0
Updates = List (ℤ × ℤ)

module _ {F : Type 0} ⦃fl : Float F⦄ where
  open fl use {of_int, trunc, sub, mul, div, abs, le}

  abbrev pub at_channel : List F → ℤ → F
  at_channel xs channel = get_or xs (slot channel) nought

  abbrev pub put_channel : List F → ℤ → F → List F
  put_channel xs channel x = set xs (slot channel) x

  -- `_count_from_pulse_us`, for a period of `period` microseconds
  unfoldable pub count_from_pulse_us : F → F → ℤ
  count_from_pulse_us period pulse =
      clamp_ℤ (pos 0) (pos pca9685_count_max)
        (trunc (mul (div pulse period) (of_int (pos pca9685_count_max))))

  unfoldable pub clamp_channel_pulse_us : ChannelConfig F → F → F
  unfolding clamp
  clamp_channel_pulse_us c pulse = clamp (of_int c.pulse_min) (of_int c.pulse_max) pulse

  unfoldable pub activity_from_pulse_us : ChannelConfig F → F → F
  unfolding clamp py_max
  activity_from_pulse_us c pulse =
      let max_span =
        py_max (abs (sub (of_int c.pulse_max) c.center))
          (abs (sub c.center (of_int c.pulse_min))) in
      if le max_span nought
      then nought
      else clamp nought unit (div (abs (sub pulse c.center)) max_span)

-- not self.toggle_channels and config.toggleable
abbrev pub is_toggled_off : {F : Type 0} → Bool → ChannelConfig F → Bool
is_toggled_off toggle_channels c = not toggle_channels && c.toggleable

module _ {B : Type 0} ⦃bus : I2c B⦄ where
  unfoldable pub set_channels : Updates → Writer B → Outcome B
  unfolding set_channel
  set_channels [] w = (w, none)
  set_channels ((channel, count) ∷ updates) w =
      set_channel channel count w then_do set_channels updates

  -- `_flush_count_updates`
  unfoldable pub flush_count_updates : Updates → Writer B → Outcome B
  unfolding set_channels flush
  flush_count_updates [] w = (w, none)
  flush_count_updates (u ∷ updates) w = set_channels (u ∷ updates) w then_do flush

abbrev pub with_writer : {F B : Type 0} → Controller F B → Outcome B → Call F B
with_writer c (w, error) = (record c { writer = w }, error)
