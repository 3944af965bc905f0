-- ===== src/Drive/Options.antt =====
-- reference/simple_drive.py: the checks of the command line, the constructors of the generators, and
-- `make_excitation`. `none` is an error of the parser or a ValueError. The parsing of the options is
-- argparse's.
use kaivuriprokkis.Prelude.{
  ℕ, suc, ltb, Bool, true, false, not, ◌&&◌, ◌||◌, Option, none, some, List, [], ◌∷◌, if◌then◌else◌,
}
use kaivuriprokkis.Prelude.Int.{ℤ, pos, negsuc}
use kaivuriprokkis.Float.{Float, nought, unit}
use kaivuriprokkis.Drive.Numeric.{Numpy, Random}
use kaivuriprokkis.Drive.Generator.{
  Joint, boom, arm, bucket, TargetMode, sine_target_modes, Sweep, Stroke, Waveform, sine, chirp,
  stroke, Generator,
}
use kaivuriprokkis.Drive.Draw.{seed_of, draw_block}
use Prim.Native.String.{String}
use text.Mathlib.Text.{◌==◌ as same_name}

pub data Excitation : Type 0 where
  with_sine with_chirp with_stroke : Excitation

pub record Args (F : Type 0) : Type 0 where
  pub enable_slew : Bool
  pub excitation : Excitation
  pub excitation_target : String
  pub excitation_seed : Option ℤ
  pub excitation_amplitude : Option F
  pub chirp_start_hz : Option F
  pub chirp_end_hz : Option F
  pub chirp_seconds : Option F
  pub stroke_seconds : F
  pub stroke_margin_deg : F

-- The sweep that the defaults complete.
pub record Timing (F : Type 0) : Type 0 where
  pub start_hz : F
  pub end_hz : F
  pub seconds : F

unfoldable pub is_choice : String → List TargetMode → Bool
is_choice target [] = false
is_choice target (m ∷ ms) = same_name m.0 target || is_choice target ms

abbrev pub after : Option ℕ → Option ℕ
after none = none
after (some i) = some (suc i)

-- [name for name, _ in modes].index(target)
unfoldable pub index_name : String → List TargetMode → Option ℕ
index_name target [] = none
index_name target (m ∷ ms) =
    let rest = index_name target ms in if same_name m.0 target then some 0 else after rest

-- 0 <= seed < 2**32, where one is given
unfoldable pub is_seed : Option ℤ → Bool
is_seed none = true
is_seed (some (pos n)) = ltb n 4_294_967_296
is_seed (some (negsuc n)) = false

abbrev pub given {ℓ} : {A : Type ℓ} → Option A → A → A
given none d = d
given (some a) d = a

abbrev pub is_stroke_kind : Excitation → Bool
is_stroke_kind with_stroke = true
is_stroke_kind _ = false

module _ {F : Type 0} ⦃fl : Float F⦄ where
  -- 0 < amplitude <= 1, where one is given
  unfoldable pub is_amplitude : Option F → Bool
  is_amplitude none = true
  is_amplitude (some a) = fl.lt nought a && fl.le a unit

  -- 0 < start <= end <= CHIRP_MAX_HZ
  unfoldable pub are_hertz : F → F → Bool
  are_hertz start end = fl.lt nought start && fl.le start end && fl.le end (fl.lit (pos 15) 0)

  unfoldable pub timing_of : Args F → Timing F
  timing_of a = record {
    start_hz =
        given a.chirp_start_hz
          (if is_stroke_kind a.excitation then fl.lit (pos 5) 1 else fl.lit (pos 5) 2);
    end_hz = given a.chirp_end_hz (fl.lit (pos 12) 0);
    seconds =
        given a.chirp_seconds
          (if is_stroke_kind a.excitation then fl.lit (pos 20) 0 else fl.lit (pos 60) 0);
  }

module _ {F : Type 0} ⦃fl : Float F⦄ ⦃np : Numpy F⦄ where
  unfoldable pub is_duration : F → Bool
  is_duration s = np.is_finite s && not (fl.lt s (fl.lit (pos 2) 0))

  unfoldable pub is_positive_finite : F → Bool
  is_positive_finite x = np.is_finite x && not (fl.le x nought)

  -- What `_parse_args` checks, the choices of the target included.
  unfoldable pub accepts : Args F → Bool
  unfolding is_choice is_amplitude is_seed timing_of are_hertz is_duration is_positive_finite
  accepts a =
      let w = timing_of a in
      let to_slew = same_name "slew" a.excitation_target in
      is_choice a.excitation_target (sine_target_modes true)
      && is_amplitude a.excitation_amplitude
      && is_seed a.excitation_seed
      && are_hertz w.start_hz w.end_hz
      && is_duration w.seconds
      && (is_positive_finite a.stroke_seconds && is_positive_finite a.stroke_margin_deg)
      && not (is_stroke_kind a.excitation && to_slew)
      && not (to_slew && not a.enable_slew)

  abbrev pub sweep_of : Timing F → Sweep F
  sweep_of w = record {
    start_hz = w.start_hz;
    end_hz = w.end_hz;
    sweep_s = w.seconds;
    log_rate = fl.div (np.log (fl.div w.end_hz w.start_hz)) w.seconds;
  }

  unfoldable pub is_sweep : Timing F → Bool
  unfolding are_hertz is_duration
  is_sweep w = are_hertz w.start_hz w.end_hz && is_duration w.seconds

  -- The margin on both sides fits between the limits.
  unfoldable has_span : F → F × F → Bool
  has_span margin (lo, hi) = fl.lt (fl.mul (fl.lit (pos 2) 0) margin) (fl.sub hi lo)

  abbrev pub stroke_of : F → F → (Joint → F × F) → Stroke F
  stroke_of stroke_s margin limits = record {
    stroke_s = stroke_s;
    margin_deg = margin;
    gain_per_deg = fl.lit (pos 5) 2;
    valve_limit = fl.lit (pos 5) 1;
    limits = limits;
  }

  unfoldable pub is_control : F → F → Bool
  unfolding is_positive_finite
  is_control gain valve =
      is_positive_finite gain && is_positive_finite valve && not (fl.lt unit valve)

  unfoldable pub have_span : F → (Joint → F × F) → Bool
  unfolding has_span
  have_span margin limits =
      has_span margin (limits boom)
      && has_span margin (limits arm)
      && has_span margin (limits bucket)

module _ {F G : Type 0} ⦃fl : Float F⦄ ⦃np : Numpy F⦄ ⦃rn : Random F G⦄ where
  abbrev pub fresh_generator : Waveform F → Bool → Option F → ℕ → Generator F G
  fresh_generator w enable_slew amplitude seed = record {
    waveform = w;
    amplitude = amplitude;
    modes = sine_target_modes enable_slew;
    enabled = false;
    target_idx = 0;
    seed = seed;
    block = draw_block w amplitude seed (pos 0);
    angles = none;
  }

  abbrev pub first_block : Waveform F → Bool → Option F → Option ℕ → Option (Generator F G)
  first_block w enable_slew amplitude none = none
  first_block w enable_slew amplitude (some seed) =
      some (fresh_generator w enable_slew amplitude seed)

  -- SineExcitationGenerator.__init__, not enabled
  unfoldable pub make_generator :
      Waveform F → Bool → Option F → Option ℤ → ℕ → Option (Generator F G)
  unfolding is_amplitude seed_of draw_block sine_target_modes
  make_generator w enable_slew amplitude seed entropy =
      if is_amplitude amplitude
      then first_block w enable_slew amplitude (seed_of seed entropy)
      else none

  unfoldable pub make_chirp : Timing F → Bool → Option F → Option ℤ → ℕ → Option (Generator F G)
  unfolding is_sweep make_generator
  make_chirp w enable_slew amplitude seed entropy =
      if is_sweep w
      then make_generator (chirp (sweep_of w)) enable_slew amplitude seed entropy
      else none

  unfoldable pub make_stroke :
      Timing F → F → F → Option (Joint → F × F) → Option F → Option ℤ → ℕ → Option (Generator F G)
  unfolding is_positive_finite is_control have_span is_sweep make_generator
  make_stroke w stroke_s margin none amplitude seed entropy = none
  make_stroke w stroke_s margin (some limits) amplitude seed entropy =
      if is_positive_finite stroke_s
        && is_positive_finite margin
        && is_control (fl.lit (pos 5) 2) (fl.lit (pos 5) 1)
        && have_span margin limits
        && is_sweep w
      then make_generator (stroke (sweep_of w) (stroke_of stroke_s margin limits)) false amplitude
          seed entropy
      else none

  abbrev pub aim_at : Option ℕ → Generator F G → Option (Generator F G)
  aim_at none g = none
  aim_at (some i) g = some (record g { target_idx = i })

  abbrev pub aimed : String → Option (Generator F G) → Option (Generator F G)
  aimed target none = none
  aimed target (some g) = aim_at (index_name target g.modes) g

  abbrev pub make_kind : Excitation → Args F → Option (Joint → F × F) → ℕ → Option (Generator F G)
  make_kind with_sine a limits entropy =
      make_generator sine a.enable_slew a.excitation_amplitude a.excitation_seed entropy
  make_kind with_chirp a limits entropy =
      make_chirp (timing_of a) a.enable_slew
        (some (given a.excitation_amplitude (fl.lit (pos 35) 2))) a.excitation_seed entropy
  make_kind with_stroke a limits entropy =
      make_stroke (timing_of a) a.stroke_seconds a.stroke_margin_deg limits
        (some (given a.excitation_amplitude (fl.lit (pos 4) 1))) a.excitation_seed entropy

  unfoldable pub make_excitation : Args F → Option (Joint → F × F) → ℕ → Option (Generator F G)
  unfolding make_stroke make_chirp make_generator index_name timing_of
  make_excitation a limits entropy =
      aimed a.excitation_target (make_kind a.excitation a limits entropy)
