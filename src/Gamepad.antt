-- ===== src/Gamepad.antt =====
-- reference/modules/gamepad.py: the values of `XboxController`, how an event sets them and how
-- `read` conditions them. The events come from the `inputs` package; its `WIN`, which says that the
-- platform is Windows, is an argument.
pub mod Monitor
pub mod Acquire
use kaivuriprokkis.Prelude.{ℕ, Bool, Option, List, [], ◌∷◌, if◌then◌else◌}
use kaivuriprokkis.Prelude.Int.{ℤ, pos, negsuc, ltb_ℤ}
use kaivuriprokkis.Float.{Float}

pub data Axis : Type 0 where
  abs_x abs_y abs_rx abs_ry abs_z abs_rz : Axis

pub data Code : Type 0 where
  abs_axis : Axis → Code
  btn_tl btn_tr btn_south btn_north btn_west btn_east : Code
  btn_thumbl btn_thumbr btn_select btn_start : Code
  abs_hat0x abs_hat0y : Code
  btn_trigger_happy1 btn_trigger_happy2 btn_trigger_happy3 btn_trigger_happy4 : Code
  another : Code

pub record Event : Type 0 where
  pub code : Code
  pub state : ℤ

pub record Values (F : Type 0) : Type 0 where
  pub left_joystick_y : F
  pub left_joystick_x : F
  pub right_joystick_y : F
  pub right_joystick_x : F
  pub left_trigger : F
  pub right_trigger : F
  pub left_bumper : ℤ
  pub right_bumper : ℤ
  pub a : ℤ
  pub x : ℤ
  pub y : ℤ
  pub b : ℤ
  pub left_thumb : ℤ
  pub right_thumb : ℤ
  pub back : ℤ
  pub start : ℤ
  pub left_dpad : ℤ
  pub right_dpad : ℤ
  pub up_dpad : ℤ
  pub down_dpad : ℤ

-- `stopping` is whether the stop event is set.
pub record XboxController (F : Type 0) : Type 0 where
  pub max_reconnect : Option ℕ
  pub deadzone : F
  pub padding : F
  pub axis_scale : Axis → F
  pub values : Values F
  pub stopping : Bool
  pub connected : Bool
  pub reconnect_count : ℕ
  pub first_scan : Bool
  pub ever_connected : Bool

unfoldable pub is_below : ℤ → ℤ
is_below state = if ltb_ℤ state (pos 0) then pos 1 else pos 0

unfoldable pub is_above : ℤ → ℤ
is_above state = if ltb_ℤ (pos 0) state then pos 1 else pos 0

module _ {F : Type 0} ⦃fl : Float F⦄ where
  abbrev zero_f : F
  zero_f = fl.lit (pos 0) 0

  abbrev one_f : F
  one_f = fl.lit (pos 1) 0

  unfoldable pub reset_values : Values F
  reset_values = record {
    left_joystick_y = zero_f;
    left_joystick_x = zero_f;
    right_joystick_y = zero_f;
    right_joystick_x = zero_f;
    left_trigger = zero_f;
    right_trigger = zero_f;
    left_bumper = pos 0;
    right_bumper = pos 0;
    a = pos 0;
    x = pos 0;
    y = pos 0;
    b = pos 0;
    left_thumb = pos 0;
    right_thumb = pos 0;
    back = pos 0;
    start = pos 0;
    left_dpad = pos 0;
    right_dpad = pos 0;
    up_dpad = pos 0;
    down_dpad = pos 0;
  }

  -- 2 ** 15 for the sticks and 2 ** 8 for the triggers
  unfoldable pub default_axis_scales : Axis → F
  default_axis_scales abs_z = fl.lit (pos 256) 0
  default_axis_scales abs_rz = fl.lit (pos 256) 0
  default_axis_scales _ = fl.lit (pos 32_768) 0

  -- max(-1.0, min(1.0, x)), where a comparison with NaN is false
  unfoldable pub clamp_unit : F → F
  clamp_unit x =
      let low = if fl.lt x one_f then x else one_f in
      let minus = fl.lit (negsuc 0) 0 in if fl.lt minus low then low else minus

  -- state / (self._axis_scale.get(code) or 1.0)
  unfoldable pub normalize : (Axis → F) → Axis → ℤ → F
  unfolding clamp_unit
  normalize scales code state =
      let scale = scales code in
      clamp_unit (fl.div (fl.of_int state) (if fl.eqb scale zero_f then one_f else scale))

  unfoldable pub y_sign : Bool → F
  y_sign win = if win then one_f else fl.lit (negsuc 0) 0

  -- The branches of `_process_event` for an axis.
  unfoldable pub process_axis : Bool → (Axis → F) → Axis → ℤ → Values F → Values F
  unfolding normalize y_sign
  process_axis win scales abs_y state v = record v {
    left_joystick_y = fl.mul (y_sign win) (normalize scales abs_y state);
  }
  process_axis win scales abs_x state v = record v {
    left_joystick_x = normalize scales abs_x state;
  }
  process_axis win scales abs_ry state v = record v {
    right_joystick_y = fl.mul (y_sign win) (normalize scales abs_ry state);
  }
  process_axis win scales abs_rx state v = record v {
    right_joystick_x = normalize scales abs_rx state;
  }
  process_axis win scales abs_z state v = record v { left_trigger = normalize scales abs_z state }
  process_axis win scales abs_rz state v = record v {
    right_trigger = normalize scales abs_rz state;
  }

  unfoldable pub process_event : Bool → (Axis → F) → Code → ℤ → Values F → Values F
  unfolding process_axis is_below is_above
  process_event win scales (abs_axis code) state v = process_axis win scales code state v
  process_event win scales btn_tl state v = record v { left_bumper = state }
  process_event win scales btn_tr state v = record v { right_bumper = state }
  process_event win scales btn_south state v = record v { a = state }
  process_event win scales btn_north state v =
      if win then record v { y = state } else record v { x = state }
  process_event win scales btn_west state v =
      if win then record v { x = state } else record v { y = state }
  process_event win scales btn_east state v = record v { b = state }
  process_event win scales btn_thumbl state v = record v { left_thumb = state }
  process_event win scales btn_thumbr state v = record v { right_thumb = state }
  process_event win scales btn_select state v = record v { back = state }
  process_event win scales btn_start state v = record v { start = state }
  process_event win scales abs_hat0x state v = record v {
    left_dpad = is_below state;
    right_dpad = is_above state;
  }
  process_event win scales abs_hat0y state v = record v {
    up_dpad = is_below state;
    down_dpad = is_above state;
  }
  process_event win scales btn_trigger_happy1 state v = record v { left_dpad = state }
  process_event win scales btn_trigger_happy2 state v = record v { right_dpad = state }
  process_event win scales btn_trigger_happy3 state v = record v { up_dpad = state }
  process_event win scales btn_trigger_happy4 state v = record v { down_dpad = state }
  process_event win scales another state v = v

  unfoldable pub process_events : Bool → (Axis → F) → List Event → Values F → Values F
  unfolding process_event
  process_events win scales [] v = v
  process_events win scales (e ∷ es) v =
      process_events win scales es (process_event win scales e.code e.state v)

  unfoldable pub apply_deadzone : F → F → F
  apply_deadzone deadzone x =
      let ax = fl.abs x in
      let scaled = fl.div (fl.sub ax deadzone) (fl.sub one_f deadzone) in
      if fl.lt ax deadzone then zero_f else (if fl.lt zero_f x then scaled else fl.neg scaled)

  unfoldable pub apply_padding : F → F → F
  unfolding clamp_unit
  apply_padding padding x =
      if fl.le padding zero_f then x else clamp_unit (fl.div x (fl.sub one_f padding))

  unfoldable pub condition : XboxController F → F → F
  unfolding apply_deadzone apply_padding
  condition c x = apply_padding c.padding (apply_deadzone c.deadzone x)

  unfoldable pub read_values : XboxController F → Values F → Values F
  unfolding condition
  read_values c v = record v {
    left_joystick_y = condition c v.left_joystick_y;
    left_joystick_x = condition c v.left_joystick_x;
    right_joystick_y = condition c v.right_joystick_y;
    right_joystick_x = condition c v.right_joystick_x;
    left_trigger = condition c v.left_trigger;
    right_trigger = condition c v.right_trigger;
  }

  -- `read`, which resets the values of a pad that is not connected
  unfoldable pub read : XboxController F → XboxController F × Values F
  unfolding reset_values read_values
  read c =
      let c' = if c.connected then c else record c { values = reset_values } in
      (c', read_values c' c'.values)
