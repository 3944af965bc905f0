-- ===== src/Pwm/Controller/Setup.antt =====
-- `PWMController` and its configuration: `__init__`, `_build_writer_state`, `reload_config`, and the
-- queries. Reading the file is a parameter: what `_read_config_data` gives, or that it raises.
use kaivuriprokkis.Prelude.{
  ℕ, Bool, true, false, not, ◌||◌, Option, none, some, List, [], ◌∷◌, ◌++◌, replicate,
  if◌then◌else◌,
}
use kaivuriprokkis.Prelude.Int.{ℤ, pos, ltb_ℤ}
use kaivuriprokkis.Prelude.Dict.{Dict, lookup, insert, values}
use kaivuriprokkis.Float.{Float, nought, clamp, py_max}
use kaivuriprokkis.Pwm.Constants.{default_time_window, max_channels}
use kaivuriprokkis.Pwm.Config.{ChannelConfig, PumpConfig}
use kaivuriprokkis.Pwm.Validation.{Frequency}
use kaivuriprokkis.Pwm.Writer.{I2c, Writer, Driver, Error, make_writer, type_error}
use kaivuriprokkis.Pwm.Pulse.{pulse_from_value}
use kaivuriprokkis.Pwm.Controller.State.{Controller, at_channel}
use kaivuriprokkis.Pwm.Controller.Commands.{Commands, config_of, normalised}
use kaivuriprokkis.Pwm.Controller.Lifecycle.{reset, start_monitoring, stop_monitoring}
use Prim.Native.String.{String}
use text.Mathlib.Text.{◌==◌ as str_eq}

-- What `_read_config_data` returns.
pub record Loaded (F : Type 0) : Type 0 where
  pub channels : Dict String (ChannelConfig F)
  pub pump : Option (PumpConfig F)
  pub frequency : Frequency F

unfoldable pub least : ℤ → List ℤ → ℤ
least m [] = m
least m (x ∷ xs) = least (if ltb_ℤ x m then x else m) xs

unfoldable pub greatest : ℤ → List ℤ → ℤ
greatest m [] = m
greatest m (x ∷ xs) = greatest (if ltb_ℤ m x then x else m) xs

-- min(xs) and max(xs), or 0 and 15 where there is no channel
unfoldable pub channel_span : List ℤ → ℤ × ℤ
unfolding least greatest
channel_span [] = (pos 0, pos 15)
channel_span (x ∷ xs) = (least x xs, greatest x xs)

-- A pump that is not given is the one that the controller has.
abbrev pump_or :
    {F : Type 0} → Option (PumpConfig F) → Option (PumpConfig F) → Option (PumpConfig F)
pump_or (some p) current = some p
pump_or none current = current

module _ {F : Type 0} ⦃fl : Float F⦄ where
  open fl use {trunc}

  -- int(pwm_frequency)
  abbrev pub frequency_of : Frequency F → Option ℤ
  frequency_of (Frequency.integer n) = some n
  frequency_of (Frequency.real x) = some (trunc x)
  frequency_of _ = none

  -- The output channels of the channels, then that of the pump.
  abbrev pub all_channels : Dict String (ChannelConfig F) → Option (PumpConfig F) → List ℤ
  all_channels [] none = []
  all_channels [] (some p) = p.output_channel ∷ []
  all_channels ((_, c) ∷ cs) pump = c.output_channel ∷ all_channels cs pump

  unfoldable pub affecting : List (ChannelConfig F) → List (ChannelConfig F)
  affecting [] = []
  affecting (c ∷ cs) = if c.affects_pump then c ∷ affecting cs else affecting cs

-- The arguments of `__init__` that a method reads; `driver` says what the bus object can do.
pub record Settings (F : Type 0) : Type 0 where
  pub pump_auto_mode : Bool
  pub toggle_channels : Bool
  pub input_rate_threshold : F
  pub default_unset_to_zero : Bool
  pub stale_timeout_s : F
  pub cleanup_disable_osc : Bool
  pub pwm_frequency : Option ℤ
  pub driver : Driver
  pub i2c_addr : ℕ

abbrev succeeded : Option Error → Bool
succeeded none = true
succeeded (some _) = false

abbrev pub or_frequency : Option ℤ → Option ℤ → Option ℤ
or_frequency (some n) m = some n
or_frequency none m = m

module _ {F : Type 0} ⦃fl : Float F⦄ where
  open fl use {of_int, lit, div}

  unfoldable pub names_of : Dict String (ChannelConfig F) → List String
  names_of [] = []
  names_of ((name, _) ∷ cs) = name ∷ names_of cs

  unfoldable pub channel_pulses : Dict String (ChannelConfig F) → List F → Dict String F
  channel_pulses [] pulses = []
  channel_pulses ((name, cfg) ∷ cs) pulses =
      (name, at_channel pulses cfg.output_channel) ∷ channel_pulses cs pulses

  unfoldable pub zero_commands : Bool → Dict String (ChannelConfig F) → Commands F
  zero_commands include_toggleable [] = []
  zero_commands include_toggleable ((name, cfg) ∷ cs) =
      let rest = zero_commands include_toggleable cs in
      if include_toggleable || not cfg.toggleable then (name, some nought) ∷ rest else rest

  -- The period in microseconds: 1e6 / float(frequency).
  abbrev pub period_of : ℤ → F
  period_of frequency = div (lit (pos 1_000_000) 0) (of_int frequency)

module _ {F B : Type 0} ⦃fl : Float F⦄ where
  open fl use {lt, eqb}

  unfoldable pub disable_channels : Bool → Controller F B → Controller F B
  disable_channels disabled c = record c { toggle_channels = not disabled }

  unfoldable pub set_cleanup_disable_osc : Bool → Controller F B → Controller F B
  set_cleanup_disable_osc enabled c = record c { cleanup_disable_osc = enabled }

  -- `compute_pulse` of a number; it applies no ramp.
  unfoldable pub compute_pulse : String → F → F → Controller F B → Option F
  unfolding lookup clamp pulse_from_value
  compute_pulse name value now c = elim (config_of c.channel_configs name) [
    | none ↦ none
    | some cfg ↦ some (pulse_from_value cfg (normalised value) now false c.channel_ramp_state).0
  ]

  -- `get_channel_names`
  unfoldable pub get_channel_names : Bool → Controller F B → List String
  unfolding names_of
  get_channel_names include_pump c = elim c.pump_config [
    | none ↦ names_of c.channel_configs
    | some _ ↦ names_of c.channel_configs ++ (if include_pump then "pump" ∷ [] else [])
  ]

  unfoldable pub get_current_pulses_us : Controller F B → Dict String F
  unfolding channel_pulses insert
  get_current_pulses_us c = elim c.pump_config [
    | none ↦ channel_pulses c.channel_configs c.current_pulse_us
    | some p ↦
        insert str_eq "pump" (at_channel c.current_pulse_us p.output_channel)
          (channel_pulses c.channel_configs c.current_pulse_us)
  ]

  unfoldable pub build_zero_commands : Bool → Bool → Controller F B → Commands F
  unfolding zero_commands insert
  build_zero_commands include_toggleable include_pump c =
      let commands = zero_commands include_toggleable c.channel_configs in
      elim c.pump_config [
        | none ↦ commands
        | some _ ↦ if include_pump then insert str_eq "pump" (some nought) commands else commands
      ]

  module _ ⦃bus : I2c B⦄ where
    -- The writer of `_build_writer_state`, on a bus, with the driver and address of the controller and
    -- the pump that it has.
    unfoldable pub build_writer :
        B
        → Driver
        → ℕ
        → Option (PumpConfig F)
        → Loaded F
        → ℤ
        → B × (Option (Writer B) × Option Error)
    unfolding channel_span make_writer
    build_writer b driver addr current loaded frequency =
        let (lo, hi) = channel_span (all_channels loaded.channels (pump_or loaded.pump current)) in
        make_writer F b driver addr lo hi frequency

    abbrev pub restart : Bool → Controller F B → Controller F B
    restart was_monitoring c = if was_monitoring then start_monitoring c else c

    abbrev pub swapped : Loaded F → ℤ → Writer B → Controller F B → Controller F B
    swapped loaded frequency w c = record c {
      channel_configs = loaded.channels;
      pump_config = loaded.pump;
      config_pwm_frequency = loaded.frequency;
      writer = w;
      pwm_period_us = period_of frequency;
      affects_pump_channels = affecting (values loaded.channels);
    }

    -- The new writer is built on the bus of the old one, and the outputs are reset under it.
    unfoldable pub swap_config : Loaded F → Option ℤ → F → Controller F B → Controller F B × Bool
    unfolding build_writer reset affecting
    swap_config loaded none now c = (c, false)
    swap_config loaded (some frequency) now c =
        let (b, made) =
          build_writer c.writer.i2c c.writer.driver c.writer.addr c.pump_config loaded frequency in
        elim made.0 [
          | none ↦ (record c { writer = record (c.writer) { i2c = b } }, false)
          | some w ↦
              let (c', error) = reset true now (swapped loaded frequency w c) in
              (c', succeeded error)
        ]

    abbrev pub load_swap : Option (Loaded F) → F → Controller F B → Controller F B × Bool
    load_swap none now c = (c, false)
    load_swap (some loaded) now c = swap_config loaded (frequency_of loaded.frequency) now c

    -- `reload_config`, with `none` where reading the file raises; its result says whether it loaded.
    unfoldable pub reload_config : Option (Loaded F) → F → Controller F B → Controller F B × Bool
    unfolding stop_monitoring start_monitoring reset swap_config
    reload_config loaded now c =
        let (c1, error) = reset true now (if c.running then stop_monitoring c else c) in
        let (c2, done) = load_swap loaded now c1 in
        elim error [ some _ ↦ (restart c.running c1, false) | none ↦ (restart c.running c2, done) ]

    -- The object before `reset()` in `__init__`.
    abbrev pub fresh : Settings F → Loaded F → ℤ → F → F → Writer B → Controller F B
    fresh s loaded frequency wall mono w = record {
      channel_configs = loaded.channels;
      pump_config = loaded.pump;
      config_pwm_frequency = loaded.frequency;
      toggle_channels = s.toggle_channels;
      pump_enabled = true;
      pump_auto_mode = s.pump_auto_mode;
      pump_direct_us = none;
      pump_activity_sum = nought;
      pump_activity_count = 0;
      stale_timeout_s = py_max nought s.stale_timeout_s;
      last_command_ts = mono;
      input_rate_threshold = s.input_rate_threshold;
      skip_rate_checking = eqb s.input_rate_threshold nought;
      is_safe_state = not (eqb s.input_rate_threshold nought);
      time_window = default_time_window;
      running = false;
      monitor_alive = false;
      stale_reset_sent = false;
      values = replicate max_channels nought;
      current_pulse_us = replicate max_channels nought;
      cmd_counter = 0;
      input_counter = 0;
      rate_window_start = wall;
      default_unset_to_zero = s.default_unset_to_zero;
      cleanup_disable_osc = s.cleanup_disable_osc;
      channel_ramp_state = [];
      affects_pump_channels = affecting (values loaded.channels);
      pwm_period_us = period_of frequency;
      writer = w;
    }

    abbrev pub watched : Controller F B → Controller F B
    watched c =
        if not c.skip_rate_checking || lt nought c.stale_timeout_s then start_monitoring c else c

    unfoldable pub start_up :
        Settings F → Loaded F → Option ℤ → F → F → B → Option (Controller F B) × Option Error
    unfolding build_writer reset start_monitoring affecting py_max
    start_up s loaded none wall mono b = (none, some type_error)
    start_up s loaded (some frequency) wall mono b =
        let (b', made) = build_writer b s.driver s.i2c_addr loaded.pump loaded frequency in
        elim made.0 [
          | none ↦ (none, made.1)
          | some w ↦
              let (c, error) = reset true mono (fresh s loaded frequency wall mono w) in
              elim error [ none ↦ (some (watched c), none) | some e ↦ (none, some e) ]
        ]

    -- `__init__` on a loaded configuration, at `time.time()` and `time.monotonic()`; no object where
    -- it raises.
    unfoldable pub make_controller :
        Settings F → Loaded F → F → F → B → Option (Controller F B) × Option Error
    unfolding start_up
    make_controller s loaded wall mono b =
        start_up s loaded (or_frequency s.pwm_frequency (frequency_of loaded.frequency)) wall mono b
