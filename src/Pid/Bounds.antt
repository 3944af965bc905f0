-- ===== src/Pid/Bounds.antt =====
-- The bounds of the PID controller's output and integral, and its anti-windup.
use kaivuriprokkis.Prelude.{Bool, true, false, not, Option, List, [], ◌∷◌, if◌then◌else◌}
use kaivuriprokkis.Float.{Float, ◌≼◌, IsOrdered, clamp, clamp_bounds}
use kaivuriprokkis.Pid.{
  PidController, time_step, raw_derivative, filtered_derivative, tentative_integral, unsaturated,
  is_held, compute,
}

-- One sample: the setpoint, the measurement, the given time step, and the clock.
pub record Sample (F : Type 0) : Type 0 where
  pub setpoint : F
  pub value : F
  pub dt : Option F
  pub now : F

-- A measuring loop: the outputs of the samples in order, and the state after them.
pub run : {F : Type 0} ⦃fl : Float F⦄ → List (Sample F) → PidController F → List F × PidController F
run [] c = ([], c)
run (s ∷ samples) c =
    let (out, c') = compute s.setpoint s.value s.dt s.now c in
    let (outs, last) = run samples c' in (out ∷ outs, last)

module _ {F : Type 0} ⦃fl : Float F⦄ where
  -- The limits are in order, and the integral lies between its limits.
  pub record IsBounded (c : PidController F) : Type 0 where
    pub outputs : c.min_output ≼ c.max_output
    pub integral_ge : c.i_min ≼ c.integral_sum
    pub integral_le : c.integral_sum ≼ c.i_max

  abbrev pub AllWithin : F → F → List F → Type 0
  AllWithin lo hi [] = Unit
  AllWithin lo hi (x ∷ xs) = (lo ≼ x) × (x ≼ hi) × AllWithin lo hi xs

  chosen_within :
      (lo hi : F) (b : Bool) (x y : F)
      → (lo ≼ x) × (x ≼ hi)
      → (lo ≼ y) × (y ≼ hi)
      → (lo ≼ (if b then x else y)) × ((if b then x else y) ≼ hi)
  chosen_within lo hi true x y p q = p
  chosen_within lo hi false x y p q = q

  module _ (laws : IsOrdered F) where
    compute-IsBounded :
        (setpoint value : F) (dt : Option F) (now : F) (c : PidController F)
        → IsBounded c
        → let (out, c') = compute setpoint value dt now c in
          (c.min_output ≼ out) × (out ≼ c.max_output) × IsBounded c'
    unfolding compute
    compute-IsBounded setpoint value dt now c b =
        let limits = laws.le_trans _ _ _ b.integral_ge b.integral_le in
        let step = time_step dt now c.last_time in
        let error = fl.sub setpoint value in
        let d_filt =
          filtered_derivative c.deriv_filter_tau c.d_filt (raw_derivative c.last_value value step)
            step in
        let integral = tentative_integral c error step in
        let unsat = unsaturated c error integral d_filt in
        let within = clamp_bounds laws c.min_output c.max_output unsat b.outputs in
        let kept =
          clamp_bounds laws c.i_min c.i_max (fl.add c.integral_sum (fl.mul error step)) limits in
        let held = is_held (clamp c.min_output c.max_output unsat) unsat error in
        let chosen =
          chosen_within c.i_min c.i_max (not held) integral c.integral_sum kept
            (b.integral_ge, b.integral_le) in
        (
          within.0,
          within.1,
          record { outputs = b.outputs; integral_ge = chosen.0; integral_le = chosen.1 },
        )

    -- Over any run of samples, with NaN measurements and setpoints too, from a controller whose output
    -- limits are in order and whose stored integral is within its limits: every output lies within the
    -- output limits and the stored integral stays within its limits.
    pub run_bounds :
        (samples : List (Sample F)) (c : PidController F)
        → IsBounded c
        → let (outs, c') = run samples c in AllWithin c.min_output c.max_output outs × IsBounded c'
    unfolding run compute
    run_bounds [] c b = (tt, b)
    run_bounds (s ∷ samples) c b =
        let (lo, hi, b') = compute-IsBounded s.setpoint s.value s.dt s.now c b in
        let (rest, last) = run_bounds samples (compute s.setpoint s.value s.dt s.now c).1 b' in
        ((lo, hi, rest), last)
