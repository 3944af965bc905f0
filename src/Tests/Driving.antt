-- ===== src/Tests/Driving.antt =====
-- The open-loop driver, and what a policy run sees and commits, at concrete inputs.
use kaivuriprokkis.Prelude.{
  ℕ, ◌↔◌, Bool, ◌+◌, ◌<◌, ◌≡◌, refl, true, false, none, some, List, [], ◌∷◌, arith, if◌then◌else◌,
}
use kaivuriprokkis.Prelude.Int.{pos, ◌*ℤ◌, ◌-ℤ◌, ◌+ℤ◌, ltb_ℤ}
use kaivuriprokkis.Prelude.Dict.{Dict}
use kaivuriprokkis.Float.Fixed.{Fixed, fixed_float, Fixed-IsOrdered}
use kaivuriprokkis.Tests.Fixtures.{whole}
use kaivuriprokkis.Recording.DriveLog.{make_log, n_samples}
use kaivuriprokkis.Recording.DriveLog.Imu.{clear_imu_raw, n_imu_raw_samples}
use kaivuriprokkis.Recording.DriveLog.Schema.{Sample}
use kaivuriprokkis.Gamepad.{Values, reset_values}
use kaivuriprokkis.Drive.Numeric.{Numpy, Random, IsClip}
use kaivuriprokkis.Drive.Generator.{
  Joint, Sweep, Stroke, sine, stroke, Generator, sine_modes, sine_target_modes,
}
use kaivuriprokkis.Drive.Draw.{draw_block}
use kaivuriprokkis.Drive.Signal.{tick_at, since}
use kaivuriprokkis.Drive.Sampling.{get_all, build_drive_commands}
use kaivuriprokkis.Drive.Polls.{polls, get_all-polls}
use kaivuriprokkis.Drive.Combined.{IsGuarded, build_drive_commands-IsGuarded}
use kaivuriprokkis.Drive.Strokes.{HasRoom}
use kaivuriprokkis.Drive.Watch.{
  none≢some, GeneratorCall, toggled, observed, sampled, generator_calls, IsStroke, IsWatched,
  generator_calls-IsStroke,
}
use kaivuriprokkis.Drive.Logger.{unwritten, has_samples, has_frames}
use kaivuriprokkis.Drive.Session.{Axes, DriveSettings, Pass, DriveSession}
use kaivuriprokkis.Drive.Loop.{pass, main_loop}
use kaivuriprokkis.Drive.Recorded.{IsRecording}
use kaivuriprokkis.Drive.Neutral.{commanded, AreFit, main_loop-AlwaysFit}
use kaivuriprokkis.Drive.Passes.{IsTimely, after_passes, after_passes-IsRecording}
use kaivuriprokkis.Drive.Input.{IsBit, mask_of, mask_of-AreBits}
use kaivuriprokkis.Drive.Options.{Args, is_amplitude, with_chirp, accepts, make_excitation}
use kaivuriprokkis.Drive.Aimed.{IsReady, make_excitation-IsReady}
use kaivuriprokkis.Policy.Rtc.{
  IsSteps, Running, AreRunning, committed_rows, committed_rows-AreRunning,
}
use kaivuriprokkis.Policy.State.{
  Status, RobotState, observed, robot_state, IsFit, robot_state-IsFit,
}
use Prim.Native.String.{String}

abbrev clip_fixed : Fixed → Fixed → Fixed → Fixed
clip_fixed (some x) (some lo) (some hi) =
    let low = if ltb_ℤ x hi then x else hi in some (if ltb_ℤ low lo then lo else low)
clip_fixed _ _ _ = none

-- The functions of NumPy are stand-ins, but for `clip` and `floor` of a whole number.
instance abbrev numbers : Numpy Fixed
numbers = record {
  pi = whole 3;
  exp = λ x. x;
  expm1 = λ x. x;
  log = λ x. x;
  sqrt = λ x. x;
  cos = λ x. whole 1;
  floor = λ x. x;
  is_finite = λ x. fixed_float.le x x;
  clip = clip_fixed;
  rem = λ x y. x;
}

-- The state of the stream counts the draws.
instance abbrev draws : Random Fixed ℕ
draws = record {
  streams = λ seed k. (seed, seed + 1);
  uniform = λ lo hi n. (lo, n + 1);
  standard_normal = λ n. (whole n, n + 1);
}

Fixed-IsClip : IsClip Fixed
unfolding ◌*ℤ◌ ◌-ℤ◌ ◌+ℤ◌
Fixed-IsClip = ground arith

abbrev sine_generator : Generator Fixed ℕ
sine_generator =
    let b = draw_block sine none 7 (pos 0) in
    record {
      waveform = sine;
      amplitude = none;
      modes = sine_modes;
      enabled = true;
      target_idx = 0;
      seed = 7;
      block = record b { start_time = some (whole 0) };
      angles = none;
    }

get_all-polls_example :
    get_all (whole 3) (polls (whole 1 ∷ whole 2 ∷ []) sine_generator)
    ≡ get_all (whole 3) sine_generator
unfolding tick_at since ◌*ℤ◌ ◌-ℤ◌ ◌+ℤ◌
get_all-polls_example =
    get_all-polls (whole 1 ∷ whole 2 ∷ []) (whole 3) (whole 0) sine_generator tt refl
      (omega arith, (omega arith, tt))

abbrev sticks : Dict String Fixed
sticks = ("slew", whole 0) ∷ ("boom", whole 1) ∷ ("arm", none) ∷ ("bucket", whole 2) ∷ []

build_drive_commands-IsGuarded_example :
    IsGuarded true (build_drive_commands sticks sine_generator (whole 1) true)
build_drive_commands-IsGuarded_example =
    build_drive_commands-IsGuarded Fixed-IsOrdered Fixed-IsClip sticks sine_generator (whole 1) true

abbrev sweep : Sweep Fixed
sweep = record { start_hz = whole 1; end_hz = whole 12; sweep_s = whole 20; log_rate = whole 1 }

abbrev degrees : Joint → Fixed × Fixed
degrees j = (whole 0, whole 90)

abbrev strokes_set : Stroke Fixed
strokes_set = record {
  stroke_s = whole 8;
  margin_deg = whole 10;
  gain_per_deg = whole 1;
  valve_limit = whole 1;
  limits = degrees;
}

abbrev stroke_generator : Generator Fixed ℕ
stroke_generator = record {
  waveform = stroke sweep strokes_set;
  amplitude = some (whole 1);
  modes = sine_modes;
  enabled = false;
  target_idx = 0;
  seed = 7;
  block = draw_block (stroke sweep strokes_set) (some (whole 1)) 7 (pos 0);
  angles = none;
}

abbrev stroking : List (GeneratorCall Fixed)
stroking = toggled ∷ observed (some λ j. whole 5) ∷ sampled (whole 1) ∷ sampled (whole 2) ∷ []

room : HasRoom strokes_set
unfolding ◌*ℤ◌ ◌-ℤ◌ ◌+ℤ◌
room j = refl

none_yet : IsStroke sweep strokes_set stroke_generator
unfolding draw_block
none_yet = (refl, λ j r e n. absurd (none≢some e))

generator_calls-IsStroke_example :
    IsStroke sweep strokes_set (generator_calls stroking stroke_generator)
    × ((t : Fixed)
        → IsWatched strokes_set
            (generator_calls stroking stroke_generator)
            (get_all t (generator_calls stroking stroke_generator)))
generator_calls-IsStroke_example =
    generator_calls-IsStroke Fixed-IsOrdered sweep strokes_set room stroking stroke_generator
      none_yet

abbrev centred_axes : Axes Fixed
centred_axes = record {
  right_rl = whole 0;
  right_ud = whole 1;
  left_rl = whole 0;
  left_ud = whole 0;
  right_paddle = whole 0;
  left_paddle = whole 0;
}

abbrev options : DriveSettings Fixed
options = record {
  enable_slew = false;
  enable_tracks = true;
  excitation_seed = some (pos 7);
  imu_on = true;
  n_imu_sensors = 4;
  nan = none;
  radians = λ x. x;
}

abbrev row : Sample Fixed
row = record {
  t = whole 0;
  now = whole 1;
  sample_idx = 0;
  manual = [];
  sine = [];
  combined = [];
  pos_deg = whole 5 ∷ [];
  state_ts = none;
  state_imu_us = none;
  vels = none;
  vel_age = none;
  gyro = none;
  cmd_age_s = whole 0;
  cmd_stale = false;
  sine_enabled = false;
  sine_target = "all";
  sine_seed = pos 7;
  excitation_meta = record {
    mode = none;
    version = none;
    block_id = none;
    elapsed_s = none;
    noise_tick = none;
    stage = none;
  };
}

-- A pass at a time, with a mask of buttons.
abbrev pass_at : ℕ → ℕ → Pass Fixed
pass_at now mask = record {
  now = whole now;
  polled = some (centred_axes, mask);
  entropy = 0;
  started_mono = whole now;
  pump_enabled = some true;
  cmd_age_s = whole 0;
  is_live = true;
  t = whole now;
  angles = none;
  sample = row;
  sampled_mono = whole now;
  stop_frames = [];
  stop_fault = none;
  reset_sends = true;
  sends = true;
  tick_frames = (pos 1, []) ∷ [];
  end_frames = [];
  end_fault = some (unwritten 1);
}

abbrev idle : DriveSession Fixed ℕ
idle = record {
  axes = centred_axes;
  mask_prev = 0;
  record_start_time = none;
  excitation = sine_generator;
  logger = record {
    is_logging = false;
    has_roles = true;
    t0_mono = whole 0;
    log = make_log;
    imu = clear_imu_raw;
    blocks = [];
  };
}

-- A recording by the button A, with the pump, a reload and the excitation, past ten minutes.
abbrev shift : List (Pass Fixed)
shift = pass_at 1 1 ∷ pass_at 2 14 ∷ pass_at 3 32 ∷ pass_at 700 0 ∷ []

main_loop-AlwaysFit_example : AreFit commanded (main_loop options shift none [] idle)
main_loop-AlwaysFit_example =
    main_loop-AlwaysFit Fixed-IsOrdered Fixed-IsClip options shift none [] idle commanded

abbrev early : List (Pass Fixed)
early = pass_at 1 1 ∷ pass_at 2 14 ∷ pass_at 3 0 ∷ []

abbrev reached : DriveSession Fixed ℕ
reached = (after_passes options early idle).0

after_passes-IsRecording_example :
    IsRecording (pass options (pass_at 4 1) reached).session
    × IsTimely (whole 4) (pass options (pass_at 4 1) reached).session
unfolding make_log clear_imu_raw has_samples has_frames n_samples n_imu_raw_samples after_passes
    ◌*ℤ◌ ◌-ℤ◌
after_passes-IsRecording_example =
    after_passes-IsRecording options early (pass_at 4 1) idle (refl, λ h. (refl, refl)) refl refl

abbrev held_keys : Values Fixed
held_keys = record reset_values { a = pos 1; up_dpad = pos 1; right_dpad = pos 1 }

mask_of-AreBits_example :
    IsBit (mask_of held_keys) 0 (pos 1)
    × (IsBit (mask_of held_keys) 1 (pos 0)
        × (IsBit (mask_of held_keys) 2 (pos 0)
            × (IsBit (mask_of held_keys) 3 (pos 0)
                × (IsBit (mask_of held_keys) 4 (pos 1)
                    × (IsBit (mask_of held_keys) 5 (pos 0)
                        × (IsBit (mask_of held_keys) 6 (pos 0)
                            × (IsBit (mask_of held_keys) 7 (pos 1)
                                × (mask_of held_keys < 256))))))))
unfolding reset_values
mask_of-AreBits_example = mask_of-AreBits held_keys

abbrev args : Args Fixed
args = record {
  enable_slew = true;
  excitation = with_chirp;
  excitation_target = "slew";
  excitation_seed = some (pos 42);
  excitation_amplitude = none;
  chirp_start_hz = none;
  chirp_end_hz = some (whole 12);
  chirp_seconds = none;
  stroke_seconds = whole 8;
  stroke_margin_deg = whole 10;
}

args_accepted : accepts args ≡ true
unfolding accepts sine_target_modes ◌*ℤ◌ ◌-ℤ◌ ◌+ℤ◌
args_accepted = refl

default_fits : is_amplitude (some (fixed_float.lit (pos 35) 2)) ≡ true
unfolding is_amplitude ◌*ℤ◌ ◌-ℤ◌ ◌+ℤ◌
default_fits = refl

make_excitation-IsReady_example : IsReady {G = ℕ} "slew" (make_excitation args none 0)
make_excitation-IsReady_example = make_excitation-IsReady args none 0 args_accepted default_fits

Fixed-IsSteps : IsSteps Fixed
unfolding ◌*ℤ◌ ◌-ℤ◌ ◌+ℤ◌
Fixed-IsSteps = ground arith

abbrev running : Running Fixed
running = ((whole 1 ∷ []) ∷ (whole 2 ∷ []) ∷ (whole 3 ∷ []) ∷ [], (pos 0, 4))

committed_rows-AreRunning_example :
    AreRunning clip_fixed
      (λ x. x)
      (λ xs. xs)
      (λ xs. xs)
      running
      (pos 1_000_000_000)
      (pos 5)
      (whole 1)
      (committed_rows clip_fixed
        (λ x. x)
        (λ xs. xs)
        (λ xs. xs)
        (some running)
        (pos 1_000_000_000)
        (pos 5)
        (whole 1))
committed_rows-AreRunning_example =
    committed_rows-AreRunning clip_fixed (λ x. x) (λ xs. xs) (λ xs. xs) Fixed-IsOrdered
      Fixed-IsSteps running (pos 1_000_000_000) (pos 5) (whole 1)

abbrev arm_status : Status Fixed
arm_status = record {
  imu_healthy = true;
  fk_valid = true;
  imu_host_monotonic_ns = some (pos 90);
  angles_rad = some (whole 0 ∷ whole 1 ∷ whole 2 ∷ whole 3 ∷ []);
}

abbrev arm_state : RobotState Fixed
arm_state = record { degrees = whole 0 ∷ whole 57 ∷ whole 114 ∷ whole 171 ∷ []; timestamp = pos 90 }

abbrev is_number : Fixed → Bool
is_number x = fixed_float.le x x

robot_state-IsFit_example :
    (robot_state some is_number (whole 57) (pos 100) (pos 50) arm_status ≡ observed arm_state)
    ↔ IsFit some is_number (whole 57) (pos 100) (pos 50) arm_status arm_state
robot_state-IsFit_example =
    robot_state-IsFit some is_number (whole 57) (pos 100) (pos 50) arm_status arm_state
