-- ===== src/Pwm/Controller/Lifecycle.antt =====
-- `PWMController` over its life: `reset`, the monitor thread and cleanup.
use kaivuriprokkis.Prelude.{
  Bool, true, false, not, ◌&&◌, ◌||◌, Option, none, some, List, [], ◌∷◌, ◌++◌, replicate,
  if◌then◌else◌,
}
use kaivuriprokkis.Prelude.Int.{pos, eqb_ℤ}
use kaivuriprokkis.Prelude.Dict.{Dict, insert}
use kaivuriprokkis.Float.{Float, nought}
use kaivuriprokkis.Pwm.Constants.{max_channels}
use kaivuriprokkis.Pwm.Config.{ChannelConfig, PumpConfig}
use kaivuriprokkis.Pwm.Writer.{I2c, sleep}
use kaivuriprokkis.Pwm.Pulse.{RampTable, ramp_entry}
use kaivuriprokkis.Pwm.Controller.State.{
  Controller, Call, Updates, put_channel, count_from_pulse_us, flush_count_updates, with_writer,
}
use Prim.Native.String.{String}

module _ {F : Type 0} ⦃fl : Float F⦄ where
  open fl use {of_int, lit, div, trunc}

  unfoldable pub center_pulses : Dict String (ChannelConfig F) → List F → List F
  center_pulses [] pulses = pulses
  center_pulses ((_, c) ∷ cs) pulses =
      center_pulses cs (put_channel pulses c.output_channel c.center)

  unfoldable pub center_updates : F → Dict String (ChannelConfig F) → Updates
  unfolding count_from_pulse_us
  center_updates period [] = []
  center_updates period ((_, c) ∷ cs) =
      (c.output_channel, count_from_pulse_us period c.center) ∷ center_updates period cs

  -- `_init_ramp_state`
  unfoldable pub init_ramp_state : F → Dict String (ChannelConfig F) → RampTable F → RampTable F
  unfolding insert
  init_ramp_state now [] table = table
  init_ramp_state now ((_, c) ∷ cs) table =
      init_ramp_state now cs (insert eqb_ℤ c.output_channel (ramp_entry c.center now) table)

  abbrev pub pump_if : Bool → Option (PumpConfig F) → Option (PumpConfig F)
  pump_if true pump = pump
  pump_if false pump = none

  unfoldable pub rest_pulse : Option (PumpConfig F) → List F → List F
  rest_pulse none pulses = pulses
  rest_pulse (some p) pulses = put_channel pulses p.output_channel (of_int p.pulse_min)

  unfoldable pub rest_update : F → Option (PumpConfig F) → Updates
  unfolding count_from_pulse_us
  rest_update period none = []
  rest_update period (some p) =
      (p.output_channel, count_from_pulse_us period (of_int p.pulse_min)) ∷ []

module _ {F B : Type 0} ⦃fl : Float F⦄ where
  open fl use {of_int, lit, sub, div, lt, le}

  -- `reset(reset_pump)` up to the writes, at the time `now` of the ramp table.
  unfoldable pub reset_state : Bool → F → Controller F B → Controller F B
  unfolding center_pulses rest_pulse init_ramp_state
  reset_state reset_pump now c = record c {
    values = replicate max_channels nought;
    pump_activity_sum = nought;
    pump_activity_count = 0;
    pump_direct_us = none;
    current_pulse_us =
        rest_pulse (pump_if reset_pump c.pump_config)
          (center_pulses c.channel_configs c.current_pulse_us);
    channel_ramp_state = init_ramp_state now c.channel_configs [];
    is_safe_state = false;
    input_counter = 0;
  }

  unfoldable pub reset_updates : Bool → Controller F B → Updates
  unfolding center_updates rest_update
  reset_updates reset_pump c =
      center_updates c.pwm_period_us c.channel_configs
      ++ rest_update c.pwm_period_us (pump_if reset_pump c.pump_config)

  -- `_start_monitoring`; a new thread begins with its flag down.
  unfoldable pub start_monitoring : Controller F B → Controller F B
  start_monitoring c =
      if (c.skip_rate_checking && le c.stale_timeout_s nought) || c.monitor_alive
      then c
      else record c { running = true; monitor_alive = true; stale_reset_sent = false }

  unfoldable pub stop_monitoring : Controller F B → Controller F B
  stop_monitoring c = if c.running then record c { running = false; monitor_alive = false } else c

  -- The rate check of one round of `_monitor_loop`, at `time.time()`.
  unfoldable pub check_rate : F → Controller F B → Controller F B
  check_rate current_time c =
      let elapsed = sub current_time c.rate_window_start in
      let rate = if lt nought elapsed then div (of_int (pos c.cmd_counter)) elapsed else nought in
      if not c.skip_rate_checking && le c.time_window elapsed
      then record c {
        cmd_counter = 0;
        is_safe_state = le c.input_rate_threshold rate;
        rate_window_start = current_time;
      }
      else c

  -- (time.monotonic() - self._last_command_ts) > self._stale_timeout_s, where that is watched
  abbrev pub is_stale : F → Controller F B → Bool
  is_stale now_mono c =
      lt nought c.stale_timeout_s && lt c.stale_timeout_s (sub now_mono c.last_command_ts)

  unfoldable pub get_average_input_rate : F → Controller F B → F × Controller F B
  get_average_input_rate current_time c =
      let elapsed = sub current_time c.rate_window_start in
      let rate = div (of_int (pos c.input_counter)) elapsed in
      if le elapsed nought then (nought, c) else (
        rate,
        if le c.time_window elapsed
            then record c { input_counter = 0; rate_window_start = current_time }
            else c,
      )

  module _ ⦃bus : I2c B⦄ where
    unfoldable pub reset : Bool → F → Controller F B → Call F B
    unfolding reset_state reset_updates flush_count_updates
    reset reset_pump now c =
        let c' = reset_state reset_pump now c in
        with_writer c' (flush_count_updates (reset_updates reset_pump c) c'.writer)

    -- The stale check of one round of `_monitor_loop`. An error ends the thread.
    unfoldable pub check_stale : F → F → Controller F B → Call F B
    unfolding reset
    check_stale now_mono now c =
        let (c', error) = reset false now c in
        if not (lt nought c.stale_timeout_s)
        then (c, none)
        else if not (is_stale now_mono c)
        then (record c { stale_reset_sent = false }, none)
        else if c.stale_reset_sent
        then (c, none)
        else elim error [
          | none ↦ (record c' { is_safe_state = false; stale_reset_sent = true }, none)
          | some e ↦ (record c' { monitor_alive = false }, some e)
        ]

    -- One round of `_monitor_loop`, at `time.time()` and the monotonic readings.
    unfoldable pub monitor_round : (current_time now_mono now : F) → Controller F B → Call F B
    unfolding check_rate check_stale
    monitor_round current_time now_mono now c =
        if c.running && c.monitor_alive
        then check_stale now_mono now (check_rate current_time c)
        else (c, none)

    -- `_simple_cleanup`: what it raises is logged and dropped.
    unfoldable pub simple_cleanup : F → Controller F B → Controller F B
    unfolding stop_monitoring reset sleep
    simple_cleanup now c =
        let (c', error) = reset true now (stop_monitoring c) in
        elim error [
          | some e ↦ c'
          | none ↦ if c'.cleanup_disable_osc then record c' { writer = (sleep c'.writer).0 } else c'
        ]
