-- ===== src/Drive/Loop.antt =====
-- reference/simple_drive.py: the loop of `main`. A pass takes what the input, the clocks and the
-- hardware give it and returns the outputs; an exception ends the loop, and the shutdown follows.
-- Printing, the status line and the sleep at the end of a pass are not modelled.
use kaivuriprokkis.Prelude.{
  Bool, true, false, ◌&&◌, ◌||◌, Option, none, some, List, [], ◌∷◌, ◌++◌, take, if◌then◌else◌,
}
use kaivuriprokkis.Prelude.Int.{pos}
use kaivuriprokkis.Float.{Float}
use kaivuriprokkis.Recording.DriveLog.{LogError}
use kaivuriprokkis.Recording.DriveLog.Schema.{Sample}
use kaivuriprokkis.Drive.Numeric.{Numpy, Random}
use kaivuriprokkis.Drive.Generator.{target_name, observe}
use kaivuriprokkis.Drive.Sampling.{DriveCommands, build_drive_commands}
use kaivuriprokkis.Drive.Logger.{
  Output, gave, cleared, sent, slept, closed_input, emergency_stop, stopped_control, shut_down,
  DataLogger, metadata, has_samples, has_frames, save, log_sample, Fault, unsent, unwritten,
}
use kaivuriprokkis.Drive.Session.{
  DriveError, bad_row, not_sent, ended_by, DriveSettings, Frames, Pass, DriveSession, DriveStep,
  done, in_turn, drain_imu_raw, stop_recording, manual_of, is_stale_input, is_over_time,
}
use kaivuriprokkis.Drive.Buttons.{receive}

module _ {F : Type 0} where
  abbrev pub unless : Option DriveError → List (Output F) → List (Output F) → List (Output F)
  unless (some e) ended rest = ended
  unless none ended rest = rest

  abbrev pub release : List (Output F)
  release = emergency_stop ∷ stopped_control ∷ shut_down ∷ []

  -- The save of `finally`, and the release of the machine, which is left out where the save raises.
  unfoldable pub save_last : Option Fault → DataLogger F → List (Output F)
  unfolding save
  save_last none logger = cleared ∷ sent ∷ slept ∷ (save logger ++ release)
  save_last (some unsent) logger = cleared ∷ []
  save_last (some (unwritten k)) logger = cleared ∷ sent ∷ slept ∷ take k (save logger)

module _ {F G : Type 0} where
  -- `finally`: the frames left, and what is buffered, are saved before the machine is released.
  unfoldable pub finish :
      DriveSettings F → Option Fault → Frames F → DriveSession F G → List (Output F)
  unfolding drain_imu_raw has_samples has_frames save_last
  finish c fault frames s =
      let logger = drain_imu_raw c frames s.logger in
      closed_input
      ∷ (if has_samples logger || has_frames logger
          then save_last fault (record logger { is_logging = false })
          else release)

module _ {F G : Type 0} ⦃fl : Float F⦄ ⦃np : Numpy F⦄ ⦃rn : Random F G⦄ where
  -- The row of a sample takes the commands, and what the generator says of itself.
  abbrev pub sample_of : Pass F → Bool → DriveCommands F G → Sample F
  sample_of i stale c = record i.sample {
    manual = c.manual;
    sine = c.signal;
    combined = c.combined;
    cmd_age_s = i.cmd_age_s;
    cmd_stale = stale;
    sine_enabled = c.excitation.enabled;
    sine_target = target_name c.excitation;
    sine_seed = pos c.excitation.seed;
  }

  unfoldable pub after_sample :
      Option LogError → DriveSettings F → Pass F → DataLogger F → DriveSession F G → DriveStep F G
  unfolding drain_imu_raw done
  after_sample (some e) c i logger s = record {
    session = record s { logger = logger };
    outputs = [];
    error = some (bad_row e);
  }
  after_sample none c i logger s =
      done [] (record s { logger = drain_imu_raw c i.tick_frames logger })

  -- 4. log
  unfoldable pub log_tick :
      DriveSettings F → Pass F → Bool → DriveCommands F G → DriveSession F G → DriveStep F G
  unfolding log_sample metadata after_sample target_name
  log_tick c i stale commands s =
      let m = metadata i.t commands.excitation in
      let (logger, error) =
        log_sample c.nan c.radians i.sampled_mono m (sample_of i stale commands) s.logger in
      after_sample error c i logger s

  -- 3. send
  unfoldable pub send_commands : Bool → DriveCommands F G → DriveSession F G → DriveStep F G
  unfolding done ended_by
  send_commands true commands s =
      done (gave commands.combined ∷ sent ∷ []) (record s { excitation = commands.excitation })
  send_commands false commands s =
      ended_by not_sent (gave commands.combined ∷ [])
        (record s { excitation = commands.excitation })

  unfoldable pub log_part :
      Bool → DriveSettings F → Pass F → Bool → DriveCommands F G → DriveSession F G → DriveStep F G
  unfolding log_tick done
  log_part is_logging c i stale commands s =
      if is_logging then log_tick c i stale commands s else done [] s

  -- 5. auto-stop
  unfoldable pub stop_part : Bool → DriveSettings F → Pass F → DriveSession F G → DriveStep F G
  unfolding is_over_time stop_recording done
  stop_part is_logging c i s =
      if is_logging && is_over_time i.now s.record_start_time
      then stop_recording c i.end_fault i.end_frames s
      else done [] s

  abbrev pub drive_parts :
      DriveCommands F G
      → Bool
      → Bool
      → DriveSettings F
      → Pass F
      → List (DriveSession F G → DriveStep F G)
  drive_parts commands stale is_logging c i =
      send_commands i.sends commands
      ∷ log_part is_logging c i stale commands
      ∷ stop_part is_logging c i
      ∷ []

  unfoldable pub drive_with :
      DriveCommands F G → Bool → DriveSettings F → Pass F → DriveSession F G → DriveStep F G
  unfolding in_turn send_commands log_part stop_part
  drive_with commands stale c i s = in_turn (drive_parts commands stale s.logger.is_logging c i) s

  -- 2. build commands
  unfoldable pub drive : DriveSettings F → Pass F → DriveSession F G → DriveStep F G
  unfolding manual_of is_stale_input observe build_drive_commands drive_with
  drive c i s =
      let stale = is_stale_input i.cmd_age_s i.is_live in
      let watched = observe (if c.imu_on then i.angles else none) s.excitation in
      drive_with (build_drive_commands (manual_of c s.axes) watched i.t stale) stale c i s

  abbrev pub pass_parts : DriveSettings F → Pass F → List (DriveSession F G → DriveStep F G)
  pass_parts c i = receive c i ∷ drive c i ∷ []

  unfoldable pub pass : DriveSettings F → Pass F → DriveSession F G → DriveStep F G
  unfolding in_turn receive drive
  pass c i = in_turn (pass_parts c i)

  -- The passes up to an exception or, after the last of them, an interrupt; then the shutdown.
  unfoldable pub main_loop :
      DriveSettings F → List (Pass F) → Option Fault → Frames F → DriveSession F G → List (Output F)
  unfolding pass finish
  main_loop c [] fault frames s = finish c fault frames s
  main_loop c (i ∷ is) fault frames s =
      let a = pass c i s in
      let rest = main_loop c is fault frames a.session in
      let ended = finish c fault frames a.session in a.outputs ++ unless a.error ended rest
