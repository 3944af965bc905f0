-- ===== src/Lib.antt =====
-- The excavator's PWM output stage (reference/modules/pwm), its PID controller
-- (reference/modules/pid.py), gamepad, loop timing and drive log (reference/modules), the camera
-- frame history of the policy runtime (native_stack/tools/policy_runtime/history.py), the supervisor
-- of a policy run (native_stack/tools/vla_operator.py) and the open-loop driver that records training
-- data (reference/simple_drive.py).
--
-- `PWMController` takes commands by channel name, as normalised values (`update_named`) or as pulse
-- widths (`update_named_us`), shapes them into pulses, derives the pump's pulse from the valves'
-- activity, and hands 12-bit counts to `DirectPWMWriter`, which puts them into the registers of a
-- PCA9685 over I2C. A monitor thread checks the rate of commands and their age, and resets the
-- outputs to their centres. The configuration comes from a YAML file, is parsed and validated, and
-- may be reloaded while the controller runs.
--
-- A policy run gives plans, rows of commands at a rate, to `Supervisor`, which owns the connection
-- to the drive: its thread sends the newest plan, or the sticks in manual mode, and stops on doubt.
-- `XboxController` is the gamepad of the reference application, `LoopPerfTracker`, `IntervalTracker`
-- and `ControlLoopPerfTracker` time its loops, and `DriveLog` buffers what a recorder writes.
--
-- `main` of simple_drive.py polls a pad or a UDP client at 100 Hz, adds an excitation (a modulated
-- sine, a chirp, or strokes that follow the joint angles) to the sticks, sends the sum to the valves
-- and logs it through `DataLogger`, a recording session over `DriveLog`.
--
-- Files, and the code they model:
--   Pwm/Constants, Pwm/Config    reference/modules/pwm/constants.py and config.py
--   Pwm/Validation               reference/modules/pwm/validation.py; Sound: what it establishes;
--                                Gaps: what it lets through
--   Pwm/Writer                   reference/modules/pwm/writer.py; Frame, Blocks, Flush, Calls: the
--                                frame, the transfers, the chip's registers, any calls
--   Pwm/Pulse                    `_pulse_from_value` and its helpers in controller.py; Bounds
--   Pwm/Parse, Pwm/Load          `_parse_config` and `_read_config_data` in controller.py
--   Pwm/Controller/State         the fields of `PWMController` as the record `Controller`
--   Pwm/Controller/Pump          the pump's pulse and its setters
--   Pwm/Controller/Commands      `update_named` and `update_named_us`
--   Pwm/Controller/Lifecycle     `reset`, the monitor thread, cleanup
--   Pwm/Controller/Setup         `__init__`, `_build_writer_state`, `reload_config`, the queries
--   Pwm/Controller/{Limits, Invariant, Direct, Centered, Kept, Steps, Hold, Rate, Nan}: proofs
--   Pid                          reference/modules/pid.py; Bounds
--   Policy/History               native_stack/tools/policy_runtime/history.py: the camera frames kept
--                                for the policy; Make, Budget, Select
--   Policy/State                 `robot_state` in the same file
--   Policy/Rtc                   `RtcDelay` and `committed_rows` in native_stack/tools/vla_live.py, and
--                                `interp_rows` in vla_operator.py
--   Operator/Tasks               `TaskList` in native_stack/tools/vla_operator.py
--   Operator/Pad                 `Pad` in the same file; Edges: the buttons that it reports
--   Operator/Supervisor          `Supervisor` in the same file, and `Client` in client.py; Round: the
--                                rounds of its thread; Arm: its start; Current, Messages, Stops,
--                                Trouble, Arming: proofs
--   Recording/DriveLog           reference/modules/drive_log.py; Schema: `build_row`; Imu: the raw
--                                frames of the sensors; Pack, Columns, Appended, Recorded: proofs
--   Perf/Welford, Perf/Loop      `LoopPerfTracker` and `IntervalTracker` in
--                                reference/modules/perf_tracker.py; Loop/Intervals
--   Perf/Control                 `ControlLoopPerfTracker` in the same file; Control/Counts
--   Gamepad                      reference/modules/gamepad.py; Monitor: its thread; Acquire
--   Drive/Generator, Drive/Draw  the excitation generators of reference/simple_drive.py: their state,
--                                and how a block is drawn
--   Drive/Signal, Drive/Sampling their signals, and `build_drive_commands`
--   Drive/Logger                 `metadata` and `DataLogger` in the same file
--   Drive/{Session, Buttons, Loop}  the loop of `main`
--   Drive/Input, Drive/Options   the polls of the sources; the checks of the options, the
--                                constructors and `make_excitation`
--   Drive/{Polls, Combined, Strokes, Watch, Neutral, Recorded, Passes, Aimed}: proofs
--   Float, Prelude               Python's numbers, and shared names and lemmas
--   Tests                        the theorems at concrete inputs
--
-- A method is a function from the state to the next state and the error that it raises, if any; the
-- readings of the clocks are arguments. A thread's round is a function too, and the threads are a
-- sequence of steps (`Step`, `Reach`). Loops over lists and dicts are structural recursion. The loop
-- of SMBus transfers runs (length + 31) / 32 rounds, as Python's `range`. The eviction loop of the
-- frame history has fuel for one round per frame; each round drops a frame, and with no frame left
-- the bytes in use are 0, so it is enough.
--
-- The rounds of the supervisor's thread are interleaved with the calls of other threads (`Call`),
-- each of them one step; `_model_tick` takes its snapshot and acts on it in one step, though an offer
-- or a stop may come between. The wait for a gamepad has fuel for one pass more than the attempts that are
-- left, which is enough since each pass counts a failure. The passes of the loop of `arm`, with their
-- clocks, are a list, and one at the deadline or later is enough.
--
-- A pass of the loop of `main` takes what it reads as a record (`Pass`), and gives the next session,
-- its outputs in order and the exception that it raised, if any (`DriveStep`); an exception or the end
-- of the passes leads to the shutdown. A waveform's subclass is a constructor of `Waveform`, and a
-- method that is overridden splits on it. The loop over missed noise ticks counts down their number.
--
-- Parameters: the float type with its operations (`Float`), with the laws of IEEE 754 comparison
-- (`IsOrdered`) and of rounded arithmetic (`IsArithmetic`) that a theorem uses, NaN included; the I2C
-- bus (`I2c`), where any transfer may fail, with the data sheet's reading of a block write
-- (`IsChip`); the value that the YAML library gives (`Document`); whether two prompts are one
-- instruction; what the drive controller, the gamepad's driver and the `inputs` package answer, a velocity for
-- each of the four joints among it; the
-- equality of column names; NumPy's functions and random streams (`Numpy`, `Random`), with what `clip`
-- promises (`IsClip`). `Fixed` is a number type with which
-- everything runs.
--
-- Not modelled: logging and printed notes, the samples of CPU use, sleeping and waiting for locks,
-- finding and decoding the configuration file, the board profile, and the gap in which
-- `_update_pump` holds neither lock. `int()` of a NaN or an infinity raises in Python and gives a
-- number here. A comparison of an integer with a float converts the integer, which is exact for the
-- differences of clocks below 2 ^ 53 ns. The layout and names of the files that a recorder
-- writes, the start-up of the driver, the enumeration of devices,
-- the inverse kinematics, the other policy tools and the C and C++ programs of the repository are
-- not modelled.
pub mod Prelude
pub mod Float
pub mod Pwm
pub mod Pid
pub mod Policy
pub mod Gamepad
pub mod Operator
pub mod Perf
pub mod Recording
pub mod Drive
mod Tests
