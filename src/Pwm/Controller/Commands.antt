-- ===== src/Pwm/Controller/Commands.antt =====
-- The command methods of `PWMController`: `update_named` and `update_named_us`.
use kaivuriprokkis.Prelude.{
  ◌+◌, Bool, true, false, not, ◌&&◌, Option, none, some, List, [], ◌∷◌, ◌++◌, length, if◌then◌else◌,
}
use kaivuriprokkis.Prelude.Int.{ℤ, eqb_ℤ}
use kaivuriprokkis.Prelude.Dict.{Dict, lookup, insert}
use kaivuriprokkis.Float.{Float, nought, unit, minus_unit, clamp}
use kaivuriprokkis.Pwm.Config.{ChannelConfig}
use kaivuriprokkis.Pwm.Writer.{I2c}
use kaivuriprokkis.Pwm.Pulse.{RampTable, pulse_from_value}
use kaivuriprokkis.Pwm.Controller.State.{
  Controller, Call, Updates, at_channel, put_channel, is_toggled_off, count_from_pulse_us,
  clamp_channel_pulse_us, activity_from_pulse_us, flush_count_updates, with_writer,
}
use kaivuriprokkis.Pwm.Controller.Pump.{as_list, pump_count_update}
use Prim.Native.String.{String}
use text.Mathlib.Text.{◌==◌ as str_eq}

-- The commands by name; `none` is a value that `float()` refuses.
abbrev pub Commands : Type 0 → Type 0
Commands F = Dict String (Option F)

abbrev pub flag_or : Option Bool → Bool → Bool
flag_or none b = b
flag_or (some a) b = a

-- What `_collect_channel_counts` threads through its loop.
pub record Collected (F : Type 0) : Type 0 where
  pub table : RampTable F
  pub pulses : List F
  pub updates : Updates

-- The pulses that `update_named_us` selects, by output channel.
abbrev pub Selected : Type 0 → Type 0
Selected F = Dict ℤ F

module _ {F : Type 0} ⦃fl : Float F⦄ where
  open fl use {sub, add, abs, lt}

  abbrev pub config_of : Dict String (ChannelConfig F) → String → Option (ChannelConfig F)
  config_of configs name = lookup str_eq name configs

  unfoldable pub zero_values : Dict String (ChannelConfig F) → List F → List F
  zero_values [] xs = xs
  zero_values ((_, c) ∷ cs) xs = zero_values cs (put_channel xs c.output_channel nought)

  -- max(-1.0, min(1.0, value))
  abbrev pub normalised : F → F
  normalised value = clamp minus_unit unit value

  abbrev pub store_value : Option (ChannelConfig F) → Option F → List F → List F
  store_value none value xs = xs
  store_value (some c) none xs = xs
  store_value (some c) (some value) xs = put_channel xs c.output_channel (normalised value)

  -- The loop over `commands.items()` of `update_named`.
  unfoldable pub store_values : Dict String (ChannelConfig F) → Commands F → List F → List F
  unfolding lookup clamp
  store_values configs [] xs = xs
  store_values configs ((name, value) ∷ rest) xs =
      store_values configs rest (store_value (config_of configs name) value xs)

  unfoldable pub activity_sum : List (ChannelConfig F) → List F → F → F
  activity_sum [] xs sum = sum
  activity_sum (c ∷ cs) xs sum = activity_sum cs xs (add sum (abs (at_channel xs c.output_channel)))

  unfoldable pub collect_one : Bool → List F → F → F → ChannelConfig F → Collected F → Collected F
  unfolding pulse_from_value count_from_pulse_us
  collect_one toggle_channels xs period now c acc =
      let (pulse, table) = pulse_from_value c (at_channel xs c.output_channel) now true acc.table in
      if is_toggled_off toggle_channels c then acc else record {
        table = table;
        pulses = put_channel acc.pulses c.output_channel pulse;
        updates = acc.updates ++ ((c.output_channel, count_from_pulse_us period pulse) ∷ []);
      }

  -- `_collect_channel_counts`
  unfoldable pub collect_channel_counts :
      Bool → List F → F → F → Dict String (ChannelConfig F) → Collected F → Collected F
  unfolding collect_one
  collect_channel_counts toggle_channels xs period now [] acc = acc
  collect_channel_counts toggle_channels xs period now ((_, c) ∷ cs) acc =
      collect_channel_counts toggle_channels xs period now cs
        (collect_one toggle_channels xs period now c acc)

  unfoldable pub select_centers : Bool → Dict String (ChannelConfig F) → Selected F → Selected F
  unfolding insert
  select_centers toggle_channels [] selected = selected
  select_centers toggle_channels ((_, c) ∷ cs) selected = select_centers toggle_channels cs (
      if not (is_toggled_off toggle_channels c)
      then insert eqb_ℤ c.output_channel c.center selected
      else selected)

  unfoldable pub select_pulse : Bool → Option (ChannelConfig F) → Option F → Selected F → Selected F
  unfolding insert clamp_channel_pulse_us
  select_pulse toggle_channels none value selected = selected
  select_pulse toggle_channels (some c) none selected = selected
  select_pulse toggle_channels (some c) (some value) selected =
      if is_toggled_off toggle_channels c
      then selected
      else insert eqb_ℤ c.output_channel (clamp_channel_pulse_us c value) selected

  -- The loop over `commands.items()` of `update_named_us`.
  unfoldable pub select_pulses :
      Bool → Dict String (ChannelConfig F) → Commands F → Selected F → Selected F
  unfolding select_pulse lookup
  select_pulses toggle_channels configs [] selected = selected
  select_pulses toggle_channels configs ((name, value) ∷ rest) selected =
      select_pulses toggle_channels configs rest
        (select_pulse toggle_channels (config_of configs name) value selected)

  abbrev or_else : Option F → F → F
  or_else none x = x
  or_else (some y) x = y

  unfoldable pub pulse_activity_sum : List (ChannelConfig F) → Selected F → List F → F → F
  unfolding lookup activity_from_pulse_us
  pulse_activity_sum [] selected pulses sum = sum
  pulse_activity_sum (c ∷ cs) selected pulses sum =
      let pulse =
        or_else (lookup eqb_ℤ c.output_channel selected) (at_channel pulses c.output_channel) in
      pulse_activity_sum cs selected pulses (add sum (activity_from_pulse_us c pulse))

  -- The loop over `selected.items()`.
  unfoldable pub store_pulses : Selected F → List F → List F
  store_pulses [] pulses = pulses
  store_pulses ((channel, pulse) ∷ rest) pulses =
      store_pulses rest (put_channel pulses channel pulse)

  unfoldable pub clear_values : Selected F → List F → List F
  clear_values [] xs = xs
  clear_values ((channel, _) ∷ rest) xs = clear_values rest (put_channel xs channel nought)

  unfoldable pub pulse_updates : F → Selected F → Updates
  unfolding count_from_pulse_us
  pulse_updates period [] = []
  pulse_updates period ((channel, pulse) ∷ rest) =
      (channel, count_from_pulse_us period pulse) ∷ pulse_updates period rest

module _ {F B : Type 0} ⦃fl : Float F⦄ where
  open fl use {sub, lt}

  -- A command whose own time stamp is too old.
  unfoldable pub is_expired : Option F → F → Controller F B → Bool
  is_expired none now_mono c = false
  is_expired (some command_ts) now_mono c =
      lt nought c.stale_timeout_s && lt c.stale_timeout_s (sub now_mono command_ts)

  -- The time of the command is noted, and it is counted where the rate is watched.
  unfoldable pub note_command : F → Controller F B → Controller F B
  note_command now_mono c =
      let noted = record c { last_command_ts = now_mono } in
      if not c.skip_rate_checking then record noted { cmd_counter = c.cmd_counter + 1 } else noted

  -- not self.skip_rate_checking and not self.is_safe_state
  abbrev pub is_held : Controller F B → Bool
  is_held c = not c.skip_rate_checking && not c.is_safe_state

  -- The body of `update_named` behind its guards, without the pump and the writes.
  unfoldable pub apply_commands :
      Commands F → Option Bool → F → Controller F B → Controller F B × Updates
  unfolding zero_values store_values activity_sum collect_channel_counts
  apply_commands commands unset_to_zero now c =
      let start =
        if flag_or unset_to_zero c.default_unset_to_zero
        then zero_values c.channel_configs c.values
        else c.values in
      let xs = store_values c.channel_configs commands start in
      let collected =
        collect_channel_counts c.toggle_channels xs c.pwm_period_us now c.channel_configs
          (record { table = c.channel_ramp_state; pulses = c.current_pulse_us; updates = [] }) in
      (
        record c {
          values = xs;
          pump_activity_sum = activity_sum c.affects_pump_channels xs nought;
          pump_activity_count = length c.affects_pump_channels;
          channel_ramp_state = collected.table;
          current_pulse_us = collected.pulses;
        },
        collected.updates,
      )

  -- The body of `update_named_us` behind its guards, without the pump and the writes.
  unfoldable pub apply_pulses : Commands F → Option Bool → Controller F B → Controller F B × Updates
  unfolding select_centers select_pulses pulse_activity_sum store_pulses clear_values pulse_updates
  apply_pulses commands unset_to_center c =
      let start =
        if flag_or unset_to_center c.default_unset_to_zero
        then select_centers c.toggle_channels c.channel_configs []
        else [] in
      let selected = select_pulses c.toggle_channels c.channel_configs commands start in
      (
        record c {
          values = clear_values selected c.values;
          pump_activity_sum =
              pulse_activity_sum c.affects_pump_channels selected c.current_pulse_us nought;
          pump_activity_count = length c.affects_pump_channels;
          current_pulse_us = store_pulses selected c.current_pulse_us;
        },
        pulse_updates c.pwm_period_us selected,
      )

  module _ ⦃bus : I2c B⦄ where
    -- The pump's update is appended and everything is written.
    unfoldable pub write_updates : Controller F B × Updates → Call F B
    unfolding pump_count_update flush_count_updates
    write_updates (c, updates) =
        let (c', pump) = pump_count_update c in
        with_writer c' (flush_count_updates (updates ++ as_list pump) c'.writer)

    -- The two clock readings are `now_mono` and `now`.
    unfoldable pub update_named :
        Commands F → Option Bool → Option F → (now_mono now : F) → Controller F B → Call F B
    unfolding is_expired note_command apply_commands write_updates
    update_named commands unset_to_zero command_ts now_mono now c =
        let noted = note_command now_mono c in
        let written = write_updates (apply_commands commands unset_to_zero now noted) in
        if is_expired command_ts now_mono c
        then (c, none)
        else if is_held noted
        then (noted, none)
        else written

    unfoldable pub update_named_us :
        Commands F → Option Bool → Option F → F → Controller F B → Call F B
    unfolding is_expired note_command apply_pulses write_updates
    update_named_us commands unset_to_center command_ts now_mono c =
        let noted = note_command now_mono c in
        let written = write_updates (apply_pulses commands unset_to_center noted) in
        if is_expired command_ts now_mono c
        then (c, none)
        else if is_held noted
        then (noted, none)
        else written
