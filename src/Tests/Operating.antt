-- ===== src/Tests/Operating.antt =====
-- The operator's side, the recorder, the trackers and the gamepad at concrete inputs.
use kaivuriprokkis.Prelude.{
  ℕ, ◌≡◌, ◌⊎◌, inl, inr, refl, ◌==◌, ◌+◌, Bool, true, false, none, some, List, [], ◌∷◌, arith,
}
use kaivuriprokkis.Prelude.Int.{ℤ, pos, negsuc, ◌*ℤ◌, ◌+ℤ◌, ◌-ℤ◌}
use kaivuriprokkis.Float.Fixed.{Fixed, fixed_float}
use kaivuriprokkis.Tests.Fixtures.{whole}
use kaivuriprokkis.Operator.Tasks.{
  TaskList, IsSelected, AreKept, run, Change, adding, stepping, run-AreKept,
}
use kaivuriprokkis.Operator.Supervisor.{
  Supervisor, make_supervisor, offer, finished, asked, no_first_plan,
}
use kaivuriprokkis.Operator.Supervisor.Round.{Input, tick, drive_round}
use kaivuriprokkis.Operator.Supervisor.Current.{
  Call, calls, offers, drops, rounds, IsCurrent, calls-IsCurrent,
}
use kaivuriprokkis.Operator.Supervisor.Messages.{after_buttons, IsRound, tick-IsRound}
use kaivuriprokkis.Operator.Supervisor.Stops.{IsFinal, calls-IsFinal}
use kaivuriprokkis.Operator.Supervisor.Arm.{Attempt, disarmed, armed, arm}
use kaivuriprokkis.Operator.Supervisor.Arming.{IsArmingOnly, IsArmed, arm-IsArming}
use kaivuriprokkis.Operator.Supervisor.Trouble.{trouble, IsHandled, drive_round-IsHandled}
use kaivuriprokkis.Recording.DriveLog.{DriveLog, make_log, keys, same_keys, are_in, has}
use kaivuriprokkis.Recording.DriveLog.Pack.{values_of}
use kaivuriprokkis.Recording.DriveLog.Appended.{append_all, IsFollowed, append_all-columns}
use kaivuriprokkis.Perf.Control.{make_control}
use kaivuriprokkis.Perf.Control.Counts.{
  TrackerCall, starts, ends, records, IsTracked, tracker_calls, tracker_calls-IsTracked,
}
use kaivuriprokkis.Perf.Welford.{fresh_stats}
use kaivuriprokkis.Perf.Loop.{make_loop_tracker, make_interval_tracker}
use kaivuriprokkis.Perf.Loop.Intervals.{
  ticks, record_samples, samples_all, intervals, ticks-record_samples,
}
use kaivuriprokkis.Gamepad.{XboxController}
use kaivuriprokkis.Gamepad.Monitor.{Scan, make_controller, acquire_pad}
use kaivuriprokkis.Gamepad.Acquire.{IsOutcome, acquire_pad-terminates}
use kaivuriprokkis.Operator.Pad.{
  Pad, DeviceRead, would_block, read_events, ev_key, ev_hat0x, fifo_axes, poll,
}
use kaivuriprokkis.Operator.Pad.Edges.{IsPolled, signals_read, poll-IsPolled}
use text.Mathlib.Text.{◌==◌ as ◌===◌}
use kaivuriprokkis.Recording.DriveLog.Schema.{Cell, Sample, build_row}
use kaivuriprokkis.Recording.DriveLog.Recorded.{equal_texts, rows_of, rows_of-columns}
use Prim.Native.String.{String}

abbrev same_text : String → String → Bool
same_text a b = false

abbrev two_tasks : TaskList
two_tasks = record { items = "dig" ∷ "dump" ∷ []; i = 1; version = 0 }

abbrev changes : List Change
changes = stepping (pos 1) ∷ adding "level" ∷ stepping (negsuc 0) ∷ []

run-AreKept_example :
    IsSelected (run same_text changes two_tasks)
    × AreKept two_tasks (run same_text changes two_tasks)
    × ((run same_text changes two_tasks).version ≡ 3)
run-AreKept_example = run-AreKept same_text changes two_tasks (omega arith)

-- Ten rows a second, with two seconds for the first plan.
abbrev supervisor : Bool → Supervisor Fixed
supervisor pad =
    make_supervisor (whole 10) (whole 1) (whole 0) (whole 2) pad false true none (pos 0)

abbrev row_of_six : List Fixed
row_of_six = whole 0 ∷ whole 0 ∷ whole 0 ∷ whole 0 ∷ whole 0 ∷ whole 0 ∷ []

abbrev input_at : ℤ → Input Fixed
input_at now = record {
  now = now;
  polled = some [];
  sticks = row_of_six;
  hold_clock = now;
  link = true;
  status_link = true;
  armed = some true;
}

-- A plan is offered and sent, and exhausted after three seconds.
abbrev some_calls : List (Call Fixed)
some_calls =
    offers (row_of_six ∷ row_of_six ∷ []) (pos 100) (pos 50)
    ∷ rounds (input_at (pos 200))
    ∷ drops (pos 300)
    ∷ rounds (input_at (pos 3_000_000_000))
    ∷ []

calls-IsCurrent_example : IsCurrent (calls some_calls (supervisor false))
calls-IsCurrent_example =
    calls-IsCurrent (whole 10) (whole 1) (whole 0) (whole 2) false false true none (pos 0)
      some_calls

abbrev running : Supervisor Fixed
running = (offer (row_of_six ∷ row_of_six ∷ []) (pos 100) (pos 50) (supervisor true)).0

tick-IsRound_example :
    ((after_buttons (input_at (pos 200)) running).out ≡ running.out)
    × (((tick (input_at (pos 200)) running).out ≡ running.out)
        ⊎ IsRound
            (input_at (pos 200))
            (after_buttons (input_at (pos 200)) running)
            (tick (input_at (pos 200)) running).out)
tick-IsRound_example = tick-IsRound (input_at (pos 200)) running

abbrev halted : Supervisor Fixed
halted = record (supervisor false) { stopped = some (asked "done", finished); halted = true }

calls-IsFinal_example : IsFinal halted (calls some_calls halted)
calls-IsFinal_example = calls-IsFinal some_calls halted (asked "done", finished) tt refl refl

-- The controller answers that it is still disarmed, then that it is armed.
abbrev some_attempts : List (Attempt Fixed)
some_attempts =
    record { clock = whole 0; link = true; status_link = true; reply = some disarmed }
    ∷ record { clock = whole 1; link = true; status_link = true; reply = some armed }
    ∷ record { clock = whole 2; link = true; status_link = true; reply = none }
    ∷ []

arm-IsArming_example :
    IsArmingOnly false
      (supervisor true)
      (arm true (some disarmed) (whole 0) some_attempts (supervisor true)).0
    × IsArmed
        (some disarmed)
        (whole 2)
        some_attempts
        (arm true (some disarmed) (whole 0) some_attempts (supervisor true)).1
unfolding make_supervisor ◌*ℤ◌ ◌+ℤ◌
arm-IsArming_example =
    arm-IsArming true (some disarmed) (whole 0) some_attempts (supervisor true)
      (inr (inr (inl refl)))

drive_round-IsHandled_example :
    IsHandled
      (supervisor true)
      no_first_plan
      true
      (drive_round (input_at (pos 3_000_000_000)) (supervisor true))
unfolding make_supervisor trouble ◌*ℤ◌ ◌-ℤ◌
drive_round-IsHandled_example =
    drive_round-IsHandled (input_at (pos 3_000_000_000)) (supervisor true) no_first_plan refl refl
      refl refl refl

same_number : (j k : ℕ) → (j == k) ≡ true → j ≡ k
same_number j k e = ground arith

-- The columns 0, the timestamp, and 1.
abbrev log_row : ℕ → List (ℕ × ℕ)
log_row t = (0, t) ∷ (1, t + t) ∷ []

append_all-columns_example :
    (s : DriveLog ℕ ℕ) × ((append_all ◌==◌ same_number 0 (log_row 3 ∷ log_row 4 ∷ []) make_log
        ≡ some s)
      × IsFollowed ◌==◌ same_number 0 (λ _. []) (log_row 3 ∷ log_row 4 ∷ []) (keys (log_row 3)) s)
unfolding keys same_keys are_in has values_of
append_all-columns_example =
    append_all-columns ◌==◌ same_number 0 (log_row 3) (log_row 4 ∷ [])
      ((refl, refl), ((refl, refl), tt)) refl

abbrev some_ticks : List (TrackerCall Fixed)
some_ticks =
    starts (whole 1) ∷ ends (whole 3) ∷ starts (whole 4) ∷ ends (whole 5) ∷ records 0 (whole 1) ∷ []

tracker_calls-IsTracked_example :
    IsTracked (tracker_calls some_ticks (make_control true (whole 1) 100 (whole 0)))
tracker_calls-IsTracked_example = tracker_calls-IsTracked true (whole 1) 100 (whole 0) some_ticks

abbrev infinity : Fixed
infinity = whole 1_000_000_000

abbrev times : List (Fixed × Fixed)
times = (whole 1, whole 2) ∷ (whole 4, whole 5) ∷ (whole 6, whole 9) ∷ []

ticks-record_samples_example :
    ((ticks (whole 1) times (make_loop_tracker infinity (whole 0) true (whole 0))).loop
      ≡ samples_all
          (intervals none (whole 1 ∷ whole 4 ∷ whole 6 ∷ []))
          (fresh_stats infinity (fixed_float.lit (pos 0) 0)))
    × (((record_samples
            (whole 1 ∷ whole 4 ∷ whole 6 ∷ [])
            (make_interval_tracker infinity (whole 0) true (whole 0))).stats
          ≡ samples_all
              (intervals none (whole 1 ∷ whole 4 ∷ whole 6 ∷ []))
              (fresh_stats infinity (fixed_float.lit (pos 0) 0)))
        × ((ticks (whole 1) times (make_loop_tracker infinity (whole 0) true (whole 0))).rate
            ≡ (record_samples
                (whole 1 ∷ whole 4 ∷ whole 6 ∷ [])
                (make_interval_tracker infinity (whole 0) true (whole 0))).rate))
ticks-record_samples_example = ticks-record_samples infinity (whole 0) (whole 1) (whole 0) times

-- No pad is ever listed.
abbrev no_pads : ℕ → Scan
no_pads k = record { found = false; probe = λ a. none; stops = false }

abbrev controller : XboxController Fixed
controller = make_controller (some 3) (whole 25) (whole 0)

acquire_pad-terminates_example :
    (r : XboxController Fixed × Bool) × ((acquire_pad 4 no_pads 0 controller ≡ some r)
      × IsOutcome 3 r)
unfolding make_controller
acquire_pad-terminates_example = acquire_pad-terminates 3 no_pads 0 controller refl

-- The key A goes down, up and down, then the hat goes left.
abbrev pad_reads : List DeviceRead
pad_reads =
    read_events (ev_key 304 (pos 1) ∷ ev_key 304 (pos 0) ∷ ev_key 304 (pos 1) ∷ [])
    ∷ read_events (ev_hat0x (negsuc 0) ∷ ev_key 304 (pos 2) ∷ [])
    ∷ would_block
    ∷ []

abbrev idle_pad : Pad
idle_pad = record { axes = fifo_axes; keys = λ b. false }

poll-IsPolled_example : IsPolled 304 idle_pad [] (signals_read pad_reads) (poll pad_reads idle_pad)
poll-IsPolled_example = poll-IsPolled 304 pad_reads idle_pad refl

-- A sample with no velocities, no sensors and no meta data, and one with a fresh velocity.
abbrev bare_sample : Sample Fixed
bare_sample = record {
  t = whole 0;
  now = whole 5;
  sample_idx = 0;
  manual = ("boom", whole 1) ∷ [];
  sine = [];
  combined = ("boom", whole 1) ∷ [];
  pos_deg = whole 10 ∷ [];
  state_ts = none;
  state_imu_us = none;
  vels = none;
  vel_age = whole 1;
  gyro = none;
  cmd_age_s = whole 0;
  cmd_stale = false;
  sine_enabled = true;
  sine_target = "boom";
  sine_seed = pos 7;
  excitation_meta = record {
    mode = none;
    version = none;
    block_id = none;
    elapsed_s = none;
    noise_tick = none;
    stage = none;
  };
}

abbrev fuller_sample : Sample Fixed
fuller_sample = record bare_sample {
  t = whole 1;
  sample_idx = 1;
  vels = some (whole 3, (whole 3, (whole 3, whole 3)));
  vel_age = whole 0;
}

rows_of-columns_example :
    (log : DriveLog String (Cell Fixed)) × ((append_all ◌===◌ equal_texts "timestamp"
          (rows_of none (λ x. x) (λ x. true) (bare_sample ∷ fuller_sample ∷ []))
          make_log
        ≡ some log)
      × IsFollowed ◌===◌ equal_texts "timestamp"
          (λ _. [])
          (rows_of none (λ x. x) (λ x. true) (bare_sample ∷ fuller_sample ∷ []))
          (keys (build_row none (λ x. x) (λ x. true) bare_sample))
          log)
rows_of-columns_example = rows_of-columns none (λ x. x) (λ x. true) bare_sample (fuller_sample ∷ [])
