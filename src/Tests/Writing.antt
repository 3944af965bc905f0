-- ===== src/Tests/Writing.antt =====
-- The PCA9685 writer and the PID controller at concrete inputs.
use kaivuriprokkis.Prelude.{none, some, List, [], ◌∷◌, ◌≡◌, refl, arith, replicate}
use kaivuriprokkis.Prelude.Int.{ℤ, pos, ◌*ℤ◌}
use kaivuriprokkis.Float.{nought}
use kaivuriprokkis.Float.Fixed.{Fixed, fixed_float, Fixed-IsOrdered}
use kaivuriprokkis.Pwm.Writer.{Writer, smbus, empty_frame, flush}
use kaivuriprokkis.Pwm.Writer.Frame.{decode}
use kaivuriprokkis.Pwm.Writer.Flush.{IsReady, flush_registers, flush_through}
use kaivuriprokkis.Pwm.Writer.Calls.{stores, ranges, flushes, writer_calls, writer_calls-IsReady}
use kaivuriprokkis.Pid.{PidController, make_pid}
use kaivuriprokkis.Pid.Bounds.{Sample, run, IsBounded, AllWithin, run_bounds}
use kaivuriprokkis.Tests.Fixtures.{Registers, registers, Registers-IsChip, blank, whole}

abbrev counts : List ℤ
counts = pos 0 ∷ pos 0 ∷ pos 0 ∷ pos 300 ∷ pos 4095 ∷ pos 0 ∷ replicate 10 (pos 0)

-- Channels 3 to 13: a frame of 45 bytes, sent in two pieces.
abbrev bare : Writer Registers
bare = record {
  i2c = blank;
  driver = smbus;
  addr = 64;
  min_ch = 3;
  max_ch = 13;
  num_channels = 11;
  buf = empty_frame 3 11;
  counts = counts;
  frequency = pos 50;
}

bare-IsReady : IsReady bare
bare-IsReady = record {
  range_fits = omega arith;
  buf_size = refl;
  buf_header = refl;
  counts_size = refl;
  counts_fit = ground arith;
}

writer_calls-IsReady_example : IsReady (
    writer_calls (stores (pos 4) (pos 9999) ∷ flushes ∷ ranges (pos 2) (pos 5) ∷ flushes ∷ []) bare)
writer_calls-IsReady_example =
    writer_calls-IsReady
      (stores (pos 4) (pos 9999) ∷ flushes ∷ ranges (pos 2) (pos 5) ∷ flushes ∷ []) bare
      bare-IsReady

flush_through_example :
    let state = (flush bare).0.i2c in
    ((flush bare).1 ≡ none) × (decode (state 22) (state 23) (state 24) (state 25) ≡ 4095)
flush_through_example =
    flush_through (λ r k. r k) bare Registers-IsChip bare-IsReady refl (λ addr reg bytes b. refl) 1
      4095 (omega arith) refl

bare_sent : (flush bare).1 ≡ none
bare_sent = flush_through_example.0

flush_registers_example :
    let state = (flush bare).0.i2c in decode (state 22) (state 23) (state 24) (state 25) ≡ 4095
flush_registers_example =
    flush_registers (λ r k. r k) bare Registers-IsChip bare-IsReady refl bare_sent 1 4095
      (omega arith) refl

abbrev pid : PidController Fixed
pid =
    make_pid none (whole 2) (whole 1) nought (whole 0) (whole 10) nought (some (whole 0))
      (some (whole 5)) (whole 0)

pid-IsBounded : IsBounded pid
unfolding make_pid ◌*ℤ◌
pid-IsBounded = record { outputs = refl; integral_ge = refl; integral_le = refl }

-- A far setpoint, and a measurement that is no number.
abbrev samples : List (Sample Fixed)
samples =
    (record { setpoint = whole 90; value = whole 1; dt = none; now = whole 1 })
    ∷ (record { setpoint = whole 90; value = none; dt = some (whole 1); now = whole 2 })
    ∷ []

run_bounds_example :
    AllWithin pid.min_output pid.max_output (run samples pid).0 × IsBounded (run samples pid).1
run_bounds_example = run_bounds Fixed-IsOrdered samples pid pid-IsBounded
