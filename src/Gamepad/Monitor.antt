-- ===== src/Gamepad/Monitor.antt =====
-- reference/modules/gamepad.py: the thread of `XboxController` that waits for a pad and reads its
-- events. What a scan for devices finds, what the driver says of an axis and what a read of events
-- does are inputs.
use kaivuriprokkis.Prelude.{
  ℕ, zero, suc, ◌+◌, ◌==◌, ltb, leb, Bool, true, false, ◌||◌, Option, none, some, List, [], ◌∷◌,
  if◌then◌else◌,
}
use kaivuriprokkis.Prelude.Int.{ℤ, pos, pos_part, neg_part, ltb_ℤ, eqb_ℤ}
use kaivuriprokkis.Float.{Float}
use kaivuriprokkis.Gamepad.{
  Axis, Event, XboxController, reset_values, default_axis_scales, process_events,
}

-- The minimum and maximum of an axis, where the driver tells them.
abbrev pub Probe : Type 0
Probe = Axis → Option (ℤ × ℤ)

-- A pass of the wait: whether a pad is listed, its ranges, and whether the stop event is set by the
-- end of the wait that follows a pass without one.
pub record Scan : Type 0 where
  pub found : Bool
  pub probe : Probe
  pub stops : Bool

-- What `get_gamepad` does.
pub data Reading : Type 0 where
  events : List Event → Reading
  unplugged permission_error os_error unknown_event_type : Reading

abbrev magnitude : ℤ → ℕ
magnitude n = pos_part n + neg_part n

unfoldable pub full_scale : ℤ × ℤ → ℕ
full_scale (minimum, maximum) =
    let high = magnitude maximum + 1 in
    if ltb_ℤ minimum (pos 0)
    then (if ltb (magnitude minimum) high then high else magnitude minimum)
    else magnitude maximum

unfoldable pub gave_up : Option ℕ → ℕ → Bool
gave_up none count = false
gave_up (some m) count = leb m count

module _ {F : Type 0} ⦃fl : Float F⦄ where
  -- An axis without a range, or with an empty one, keeps its default.
  unfoldable pub scale_of : Option (ℤ × ℤ) → F → F
  unfolding full_scale
  scale_of none scale = scale
  scale_of (some (minimum, maximum)) scale =
      let full = full_scale (minimum, maximum) in
      if eqb_ℤ minimum maximum || full == 0 then scale else fl.of_int (pos full)

  unfoldable pub refresh_axis_scales : Probe → XboxController F → XboxController F
  unfolding scale_of default_axis_scales
  refresh_axis_scales probe c = record c {
    axis_scale = λ a. scale_of (probe a) (default_axis_scales a);
  }

  unfoldable pub make_controller : Option ℕ → F → F → XboxController F
  unfolding reset_values default_axis_scales
  make_controller max_reconnect deadzone padding = record {
    max_reconnect = max_reconnect;
    deadzone = fl.div deadzone (fl.lit (pos 100) 0);
    padding = fl.div padding (fl.lit (pos 100) 0);
    axis_scale = default_axis_scales;
    values = reset_values;
    stopping = false;
    connected = false;
    reconnect_count = 0;
    first_scan = true;
    ever_connected = false;
  }

  unfoldable pub found_pad : Probe → XboxController F → XboxController F
  unfolding refresh_axis_scales
  found_pad probe c = record (refresh_axis_scales probe c) {
    first_scan = false;
    connected = true;
    ever_connected = true;
    reconnect_count = 0;
  }

  unfoldable pub missed_pad : XboxController F → XboxController F
  missed_pad c = record c { first_scan = false; reconnect_count = c.reconnect_count + 1 }

  -- `_acquire_pad`, on fuel: the k-th scan is `scans k`. None when the fuel runs out.
  unfoldable pub acquire_pad :
      ℕ → (ℕ → Scan) → ℕ → XboxController F → Option (XboxController F × Bool)
  unfolding found_pad missed_pad gave_up
  acquire_pad zero scans k c = none
  acquire_pad (suc fuel) scans k c =
      let scan = scans k in
      let c' = missed_pad c in
      let rest = acquire_pad fuel scans (k + 1) (record c' { stopping = scan.stops }) in
      if c.stopping
      then some (c, false)
      else if scan.found
      then some (found_pad scan.probe c, true)
      else if gave_up c'.max_reconnect c'.reconnect_count
      then some (c', false)
      else if scan.stops
      then some (record c' { stopping = true }, false)
      else rest

  -- The wait at its end does not change the controller.
  unfoldable pub on_lost : XboxController F → XboxController F
  unfolding reset_values
  on_lost c = record c { connected = false; values = reset_values }

  -- What one read does, and whether it ends `_pump_events`.
  unfoldable pub pump_once : Bool → Reading → XboxController F → XboxController F × Bool
  unfolding on_lost process_events
  pump_once win (events es) c =
      (record c { values = process_events win c.axis_scale es c.values }, false)
  pump_once win unplugged c = (on_lost c, true)
  pump_once win permission_error c = (record c { stopping = true }, true)
  pump_once win os_error c = (on_lost c, true)
  pump_once win unknown_event_type c = (c, false)

  -- `_pump_events`, over what the reads do, each after a look at the stop event, which may be set by
  -- then; and whether it returned, or waits in a read.
  unfoldable pub pump_events :
      Bool → List (Bool × Reading) → XboxController F → XboxController F × Bool
  unfolding pump_once
  pump_events win [] c = (c, false)
  pump_events win ((stop, r) ∷ rs) c =
      let (c', ended) = pump_once win r c in
      let rest = pump_events win rs c' in
      if stop || c.stopping
      then (record c { stopping = true }, true)
      else if ended
      then (c', true)
      else rest

  unfoldable pub stop_monitoring : XboxController F → XboxController F
  unfolding reset_values
  stop_monitoring c = record c { stopping = true; connected = false; values = reset_values }
