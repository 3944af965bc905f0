-- ===== src/Drive/Draw.antt =====
-- reference/simple_drive.py: how a block of the excitation is drawn, and what starts one.
use kaivuriprokkis.Prelude.{ℕ, ◌%◌, ltb, true, Option, none, some, length, if◌then◌else◌}
use kaivuriprokkis.Prelude.Int.{ℤ, pos, negsuc, ◌+ℤ◌}
use kaivuriprokkis.Float.{Float, nought, unit, minus_unit, py_min, py_max}
use kaivuriprokkis.Drive.Numeric.{Numpy, Random}
use kaivuriprokkis.Drive.Generator.{
  Joint, slew, boom, arm, bucket, Params, Block, Waveform, stroke, Generator, is_sine, rem_ℤ,
  disable,
}

-- `entropy` is what the system gives where there is no seed; `none` is the ValueError.
unfoldable pub seed_of : Option ℤ → ℕ → Option ℕ
seed_of none entropy = some (entropy % 4_294_967_296)
seed_of (some (pos n)) entropy = if ltb n 4_294_967_296 then some n else none
seed_of (some (negsuc n)) entropy = none

module _ {F : Type 0} ⦃fl : Float F⦄ ⦃np : Numpy F⦄ where
  abbrev two_pi : F
  two_pi = fl.mul (fl.lit (pos 2) 0) np.pi

  abbrev choose : Params F → Params F → Params F → Params F → Joint → Params F
  choose p q r s slew = p
  choose p q r s boom = q
  choose p q r s arm = r
  choose p q r s bucket = s

  unfoldable coefficients_of : Params F → F × (F × F)
  coefficients_of p =
      let alpha = np.exp (fl.div (fl.mul (fl.neg two_pi) p.f_noise) (fl.lit (pos 100) 0)) in
      let rest = fl.sub unit (fl.mul alpha alpha) in
      (alpha, (np.sqrt rest, fl.div rest (np.sqrt (fl.add unit (fl.mul alpha alpha)))))

  abbrev sign : F → F
  sign u = if fl.lt u (fl.lit (pos 5) 1) then unit else minus_unit

  abbrev signs : F → F → F → Joint → F
  signs u v w slew = unit
  signs u v w boom = sign u
  signs u v w arm = sign v
  signs u v w bucket = sign w

module _ {F G : Type 0} ⦃fl : Float F⦄ ⦃np : Numpy F⦄ ⦃rn : Random F G⦄ where
  abbrev draw_amplitude : Option F → G → F × G
  draw_amplitude none g = rn.uniform (fl.lit (pos 35) 2) unit g
  draw_amplitude (some a) g = (a, g)

  -- _draw_params, with the noise of a chirp or a stroke set to zero
  unfoldable draw_params : Waveform F → Option F → G → Params F × G
  draw_params w amplitude g0 =
      let (u_env, g1) = rn.uniform (fl.lit (pos 60) 2) (fl.lit (pos 150) 2) g0 in
      let (u_car, g2) = rn.uniform (np.log (fl.lit (pos 2) 1)) (np.log (fl.lit (pos 10) 0)) g1 in
      let f_car = np.exp u_car in
      let (u_rate, g3) = rn.uniform (fl.lit (pos 70) 2) (fl.lit (pos 110) 2) g2 in
      let f_rate = fl.mul (fl.lit (pos 4) 2) u_rate in
      let (u_depth, g4) = rn.uniform (fl.lit (pos 70) 2) (fl.lit (pos 120) 2) g3 in
      let depth = fl.mul (fl.lit (pos 99) 2) u_depth in
      let (u_filter, g5) = rn.uniform (fl.lit (pos 70) 2) (fl.lit (pos 130) 2) g4 in
      let headroom = fl.sub (fl.div (fl.lit (pos 12) 0) f_car) unit in
      let (u_noise, g6) = rn.uniform (fl.lit (pos 70) 2) (fl.lit (pos 130) 2) g5 in
      let (amp, g7) = draw_amplitude amplitude g6 in
      let (phi1, g8) = rn.uniform nought two_pi g7 in
      let (phi2, g9) = rn.uniform nought two_pi g8 in
      (
        record {
          f_env = fl.mul (fl.lit (pos 3) 2) u_env;
          f_car = f_car;
          f_rate = f_rate;
          depth = py_min depth (py_max nought (fl.div headroom (fl.mul two_pi f_rate)));
          f_noise = py_min (fl.mul (fl.lit (pos 25) 2) u_filter) (fl.lit (pos 12) 0);
          noise = if is_sine w then fl.mul (fl.lit (pos 10) 2) u_noise else nought;
          amp = amp;
          phi1 = phi1;
          phi2 = phi2;
        },
        g9,
      )

  unfoldable draw_all : Waveform F → Option F → G → (Joint → Params F) × G
  unfolding draw_params
  draw_all w amplitude g0 =
      let (p, g1) = draw_params w amplitude g0 in
      let (q, g2) = draw_params w amplitude g1 in
      let (r, g3) = draw_params w amplitude g2 in
      let (s, g4) = draw_params w amplitude g3 in (choose p q r s, g4)

  -- What a stroke's `randomize` draws after the parameters, for boom, arm and bucket.
  unfoldable draw_directions : Waveform F → G → Joint → F
  draw_directions (stroke _ _) g0 =
      let (u, g1) = rn.uniform nought unit g0 in
      let (v, g2) = rn.uniform nought unit g1 in signs u v (rn.uniform nought unit g2).0
  draw_directions _ g0 = λ j. unit

  unfoldable pub draw_block : Waveform F → Option F → ℕ → ℤ → Block F G
  unfolding draw_all coefficients_of draw_directions
  draw_block w amplitude seed block_id =
      let (parameter_rng, rng) = rn.streams seed block_id in
      let (params, later) = draw_all w amplitude parameter_rng in
      record {
        block_id = block_id;
        params = params;
        coefficients = λ j. coefficients_of (params j);
        noises = record { second = λ _. nought; first = λ _. nought; rng = rng; noise_tick = 0 };
        start_time = none;
        stroking = record {
          ref = λ _. none;
          direction = draw_directions w later;
          strokes = λ _. 0;
          last_t = none;
        };
      }

  unfoldable pub randomize : Generator F G → Generator F G
  unfolding draw_block
  randomize g = record g {
    block = draw_block g.waveform g.amplitude g.seed (g.block.block_id +ℤ pos 1);
  }

  unfoldable pub reseed : Option ℤ → ℕ → Generator F G → Option (Generator F G)
  unfolding seed_of draw_block
  reseed seed entropy g = elim (seed_of seed entropy) [
    | none ↦ none
    | some n ↦ some (record g { seed = n; block = draw_block g.waveform g.amplitude n (pos 0) })
  ]

  unfoldable pub toggle : Generator F G → Generator F G
  unfolding randomize disable
  toggle g = if g.enabled then disable g else randomize (record g { enabled = true })

  unfoldable pub step_target : ℤ → Generator F G → Generator F G
  unfolding randomize rem_ℤ
  step_target direction g =
      randomize (record g { target_idx = rem_ℤ (pos g.target_idx +ℤ direction) (length g.modes) })
