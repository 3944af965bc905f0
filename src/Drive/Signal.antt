-- ===== src/Drive/Signal.antt =====
-- reference/simple_drive.py: `get_all`, `get_signal` and `metadata` of the excitation generators. The
-- first sample of a block sets its start; after that only noise and strokes change.
use kaivuriprokkis.Prelude.{
  ℕ, zero, suc, ◌+◌, ◌-◌, ◌%◌, ◌==◌, Bool, true, false, ◌&&◌, Option, none, some, List, [], ◌∷◌,
  if◌then◌else◌,
}
use kaivuriprokkis.Prelude.Int.{pos, negsuc, pos_part}
use kaivuriprokkis.Prelude.Dict.{Dict}
use kaivuriprokkis.Float.{Float, nought, unit, minus_unit, py_min, py_max}
use kaivuriprokkis.Drive.Numeric.{Numpy, Random}
use kaivuriprokkis.Drive.Generator.{
  Joint, slew, boom, arm, bucket, name_of, is_target, at_joint_set, Params, Noise, Block, Sweep,
  Stroke, sine, chirp, stroke, Generator, target_joints,
}
use Prim.Native.String.{String}

abbrev pub all_joints : List Joint
all_joints = slew ∷ boom ∷ arm ∷ bucket ∷ []

-- JOINT_INDEX has it: the stroke waveform drives it.
abbrev pub is_stroked : Joint → Bool
is_stroked slew = false
is_stroked _ = true

module _ {F : Type 0} ⦃fl : Float F⦄ where
  unfoldable pub since : F → F → F
  unfolding py_max
  since t0 t = py_max nought (fl.sub t t0)

  abbrev pub since_start : Option F → F → F
  since_start none t = since t t
  since_start (some t0) t = since t0 t

  abbrev held : F → F
  held x = py_min (fl.lit (pos 3) 0) (py_max (fl.lit (negsuc 2) 0) x)

module _ {F : Type 0} ⦃fl : Float F⦄ ⦃np : Numpy F⦄ where
  unfoldable pub tick_at : F → ℕ
  tick_at e =
      pos_part (fl.trunc (np.floor (fl.add (fl.mul e (fl.lit (pos 100) 0)) (fl.lit (pos 1) 7))))

  abbrev turn : F
  turn = fl.mul (fl.lit (pos 2) 0) np.pi

  unfoldable pub ramp : F → F
  ramp elapsed =
      let half = fl.lit (pos 5) 1 in
      fl.sub half (fl.mul half (np.cos (fl.mul np.pi (np.clip (fl.div elapsed unit) nought unit))))

  unfoldable chirp_phase : Sweep F → F → F
  chirp_phase w elapsed =
      let k = w.log_rate in
      let start = fl.mul turn w.start_hz in
      let up = fl.div (fl.mul start (np.expm1 (fl.mul k w.sweep_s))) k in
      let fall = np.expm1 (fl.mul (fl.neg k) (fl.sub elapsed w.sweep_s)) in
      let down = fl.div (fl.mul (fl.mul turn w.end_hz) fall) (fl.neg k) in
      if fl.lt (fl.abs k) (fl.lit (pos 1) 12)
      then fl.mul start elapsed
      else if fl.le elapsed w.sweep_s
      then fl.div (fl.mul start (np.expm1 (fl.mul k elapsed))) k
      else fl.add up down

  abbrev limit_of : Option F → F
  limit_of none = unit
  limit_of (some a) = a

  -- SineExcitationGenerator.get_signal, of the elapsed time
  unfoldable sine_value : Option F → Params F → F → F → F
  unfolding ramp
  sine_value amplitude p noise e =
      let env = fl.sin (fl.add (fl.mul (fl.mul turn p.f_env) e) p.phi1) in
      let wobble = fl.mul p.depth (fl.sin (fl.mul (fl.mul turn p.f_rate) e)) in
      let car = fl.sin (fl.add (fl.mul (fl.mul turn p.f_car) (fl.add e wobble)) p.phi2) in
      let value = fl.mul (fl.mul (ramp e) p.amp) (fl.add (fl.mul env car) (fl.mul p.noise noise)) in
      let limit = limit_of amplitude in np.clip value (fl.neg limit) limit

  abbrev both_ways : Sweep F → F
  both_ways w = fl.mul (fl.lit (pos 2) 0) w.sweep_s

  unfoldable chirp_value : Sweep F → Params F → F → F
  unfolding ramp chirp_phase
  chirp_value w p elapsed =
      let e = np.rem elapsed (fl.add (both_ways w) (fl.lit (pos 10) 0)) in
      let taper = fl.mul (ramp e) (ramp (fl.sub (both_ways w) e)) in
      if fl.le (both_ways w) e
      then nought
      else fl.mul (fl.mul p.amp taper) (fl.sin (fl.add (chirp_phase w e) p.phi2))

  unfoldable stroke_value : Sweep F → Stroke F → Params F → ℕ → F → F → F → F
  unfolding ramp chirp_phase
  stroke_value w k p strokes ref q e =
      let pull = fl.mul k.gain_per_deg (fl.sub ref q) in
      let base = np.clip pull (fl.neg k.valve_limit) k.valve_limit in
      let phase = chirp_phase w (np.rem e (both_ways w)) in
      let swing = fl.mul (fl.mul p.amp (ramp e)) (fl.sin (fl.add phase p.phi2)) in
      let overlay = if strokes % 2 == 0 then swing else nought in
      np.clip (fl.add (fl.mul (ramp e) base) overlay) minus_unit unit

module _ {F G : Type 0} ⦃fl : Float F⦄ where
  abbrev pub begun_at : Option F → F → Block F G → Block F G
  begun_at none t b = record b { start_time = some t }
  begun_at (some t0) t b = b

  -- _elapsed, which sets the start where there is none
  unfoldable pub elapsed : F → Generator F G → F × Generator F G
  unfolding since
  elapsed t g =
      (since_start g.block.start_time t, record g { block = begun_at g.block.start_time t g.block })

  -- One joint of one tick of the 100 Hz grid.
  unfoldable step_joint : ⦃rn : Random F G⦄ → F × (F × F) → Joint → Noise F G → Noise F G
  unfolding py_min py_max
  step_joint ⦃rn⦄ (alpha, (innovation, gain)) j n =
      let (draw, rng) = rn.standard_normal n.rng in
      let x1 = held (fl.add (fl.mul alpha (n.first j)) (fl.mul innovation draw)) in
      let x2 = held (fl.add (fl.mul alpha (n.second j)) (fl.mul gain x1)) in
      record n { first = at_joint_set j x1 n.first; second = at_joint_set j x2 n.second; rng = rng }

  unfoldable step_joints :
      ⦃rn : Random F G⦄ → (Joint → F × (F × F)) → List Joint → Noise F G → Noise F G
  unfolding step_joint
  step_joints c [] n = n
  step_joints c (j ∷ js) n = step_joints c js (step_joint (c j) j n)

  unfoldable pub step_noise : ⦃rn : Random F G⦄ → (Joint → F × (F × F)) → Noise F G → Noise F G
  unfolding step_joints
  step_noise c n =
      let after = step_joints c all_joints n in record after { noise_tick = n.noise_tick + 1 }

  unfoldable pub steps : ⦃rn : Random F G⦄ → ℕ → (Joint → F × (F × F)) → Noise F G → Noise F G
  unfolding step_noise
  steps zero c n = n
  steps (suc k) c n = steps k c (step_noise c n)

module _ {F G : Type 0} ⦃fl : Float F⦄ ⦃np : Numpy F⦄ ⦃rn : Random F G⦄ where
  -- The loop runs while the tick of the time is ahead.
  unfoldable pub advance_from : F × Generator F G → Generator F G
  unfolding tick_at steps
  advance_from (e, g) =
      let b = g.block in
      record g {
        block = record b {
          noises = steps (tick_at e - b.noises.noise_tick) b.coefficients b.noises;
        };
      }

  unfoldable pub advance_noise : F → Generator F G → Generator F G
  unfolding elapsed advance_from
  advance_noise t g = advance_from (elapsed t g)

  abbrev value_of_joint : Generator F G → Joint → F → F
  value_of_joint g j e = elim g.waveform [
    | sine ↦ sine_value g.amplitude (g.block.params j) (g.block.noises.second j) e
    | chirp w ↦ chirp_value w (g.block.params j) e
    | stroke w k ↦ elim g.angles [
      | none ↦ nought
      | some q ↦ elim (g.block.stroking.ref j) [
        | none ↦ nought
        | some r ↦ stroke_value w k (g.block.params j) (g.block.stroking.strokes j) r (q j) e
      ]
    ]
  ]

  -- A stroke gives no signal to a joint that has no reference yet, before it asks for the time.
  abbrev has_ref : Generator F G → Joint → Bool
  has_ref g j = elim g.waveform [
    | stroke w k ↦ elim (g.block.stroking.ref j) [ none ↦ false | some r ↦ true ]
    | _ ↦ true
  ]

  unfoldable pub get_signal : Joint → F → Generator F G → F × Generator F G
  unfolding elapsed is_target target_joints sine_value chirp_value stroke_value
  get_signal j t g =
      let (e, g1) = elapsed t g in
      if g.enabled && is_target j (target_joints g) && has_ref g j
      then (value_of_joint g j e, g1)
      else (nought, g)

  unfoldable pub get_signals : List Joint → F → Generator F G → Dict String F × Generator F G
  unfolding get_signal
  get_signals [] t g = ([], g)
  get_signals (j ∷ js) t g =
      let (v, g1) = get_signal j t g in
      let (vs, g2) = get_signals js t g1 in ((name_of j, v) ∷ vs, g2)
