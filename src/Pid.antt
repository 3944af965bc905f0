-- ===== src/Pid.antt =====
-- reference/modules/pid.py: the PID controller, with its derivative on the measurement, its bounded
-- integral and its sign-aware anti-windup.
pub mod Bounds
use kaivuriprokkis.Prelude.{Bool, true, false, not, ◌&&◌, ◌||◌, Option, none, some, if◌then◌else◌}
use kaivuriprokkis.Prelude.Int.{pos}
use kaivuriprokkis.Float.{Float, nought, py_min, py_max, clamp}

pub record PidController (F : Type 0) : Type 0 where
  pub kp : F
  pub ki : F
  pub kd : F
  pub min_output : F
  pub max_output : F
  pub deriv_filter_tau : F
  pub i_min : F
  pub i_max : F
  pub integral_sum : F
  pub last_error : F
  pub last_value : Option F
  pub d_filt : F
  pub last_time : F

module _ {F : Type 0} ⦃fl : Float F⦄ where
  open fl use {lit, add, sub, mul, div, neg, lt, eqb}

  -- The integral limits of `__init__`, both given or both derived; `inf` is math.inf.
  unfoldable pub integral_limits : F → F → F → F → Option F → Option F → F × F
  integral_limits inf ki min_output max_output (some lo) (some hi) = (lo, hi)
  integral_limits inf ki min_output max_output lo hi =
      if not (eqb ki nought) then (div min_output ki, div max_output ki) else (neg inf, inf)

  -- `__init__`, at the time `now`.
  unfoldable pub make_pid :
      F → (kp ki kd min_output max_output tau : F) → Option F → Option F → F → PidController F
  unfolding integral_limits py_min py_max
  make_pid inf kp ki kd min_output max_output tau given_min given_max now =
      let (lo, hi) = integral_limits inf ki min_output max_output given_min given_max in
      record {
        kp = kp;
        ki = ki;
        kd = kd;
        min_output = min_output;
        max_output = max_output;
        deriv_filter_tau = py_max nought tau;
        i_min = py_min lo hi;
        i_max = py_max lo hi;
        integral_sum = nought;
        last_error = nought;
        last_value = none;
        d_filt = nought;
        last_time = now;
      }

  unfoldable pub reset : Bool → F → PidController F → PidController F
  reset keep_integral now c = record c {
    integral_sum = if not keep_integral then nought else c.integral_sum;
    last_error = nought;
    last_value = none;
    d_filt = nought;
    last_time = now;
  }

  unfoldable pub set_integral_limits : F → F → PidController F → PidController F
  unfolding py_min py_max clamp
  set_integral_limits lo hi c = record c {
    i_min = py_min lo hi;
    i_max = py_max lo hi;
    integral_sum = clamp (py_min lo hi) (py_max lo hi) c.integral_sum;
  }

  -- The time step: the caller's, or the clock's since the last call; at least a millisecond.
  unfoldable pub time_step : Option F → F → F → F
  unfolding py_max
  time_step none now last_time = py_max (sub now last_time) (lit (pos 1) 3)
  time_step (some dt) now last_time = py_max dt (lit (pos 1) 3)

  unfoldable pub raw_derivative : Option F → F → F → F
  raw_derivative none value dt = nought
  raw_derivative (some last) value dt = div (neg (sub value last)) dt

  unfoldable pub filtered_derivative : F → F → F → F → F
  filtered_derivative tau d_filt raw_d dt =
      let alpha = div dt (add tau dt) in
      if eqb tau nought then raw_d else add d_filt (mul alpha (sub raw_d d_filt))

  unfoldable pub tentative_integral : PidController F → F → F → F
  unfolding clamp
  tentative_integral c error dt = clamp c.i_min c.i_max (add c.integral_sum (mul error dt))

  -- The unsaturated output.
  unfoldable pub unsaturated : PidController F → F → F → F → F
  unsaturated c error integral d_filt =
      add (add (mul c.kp error) (mul c.ki integral)) (mul c.kd d_filt)

  -- Whether the integral is held: the output is saturated, and the error pushes further.
  abbrev pub is_held : F → F → F → Bool
  is_held out unsat error =
      not (eqb out unsat)
      && ((lt nought unsat && lt nought error) || (lt unsat nought && lt error nought))

  -- `compute`, at the clock's reading `now`: the output and the next state.
  unfoldable pub compute : F → F → Option F → F → PidController F → F × PidController F
  unfolding time_step raw_derivative filtered_derivative tentative_integral unsaturated clamp
  compute setpoint current_value dt now c =
      let step = time_step dt now c.last_time in
      let error = sub setpoint current_value in
      let raw_d = raw_derivative c.last_value current_value step in
      let d_filt = filtered_derivative c.deriv_filter_tau c.d_filt raw_d step in
      let integral = tentative_integral c error step in
      let unsat = unsaturated c error integral d_filt in
      let out = clamp c.min_output c.max_output unsat in
      (
        out,
        record c {
          d_filt = d_filt;
          integral_sum = if not (is_held out unsat error) then integral else c.integral_sum;
          last_error = error;
          last_value = some current_value;
          last_time = now;
        },
      )
