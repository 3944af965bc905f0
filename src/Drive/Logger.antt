-- ===== src/Drive/Logger.antt =====
-- reference/simple_drive.py: `metadata` of the generators, and `DataLogger`, a recording over the
-- buffers of `DriveLog`. What it does outside is a list of outputs; the names of the files, which hold
-- the date and the label, are not modelled.
use kaivuriprokkis.Prelude.{
  ℕ, ◌%◌, ◌==◌, Bool, true, false, not, ◌&&◌, ◌||◌, Option, none, some, List, [], ◌∷◌, ◌++◌, take,
  if◌then◌else◌,
}
use kaivuriprokkis.Prelude.Int.{ℤ, pos, eqb_ℤ}
use kaivuriprokkis.Prelude.Dict.{Dict, lookup, insert, values}
use kaivuriprokkis.Float.{Float, nought}
use kaivuriprokkis.Recording.DriveLog.{DriveLog, LogError, make_log, append, n_samples, columns}
use kaivuriprokkis.Recording.DriveLog.Imu.{ImuRaw, clear_imu_raw, log_imu_raw, n_imu_raw_samples}
use kaivuriprokkis.Recording.DriveLog.Schema.{Cell, Sample, Meta, build_row}
use kaivuriprokkis.Drive.Numeric.{Numpy}
use kaivuriprokkis.Drive.Generator.{
  Joint, Params, Waveform, sine, chirp, stroke, Generator, target_joints,
}
use kaivuriprokkis.Drive.Signal.{is_stroked, since}
use Prim.Native.String.{String}
use text.Mathlib.Text.{◌==◌ as same_name}

-- `_block_parameters`, less its constants. All of it stays the same during a block.
pub record Parameters (F : Type 0) : Type 0 where
  pub waveform : Waveform F
  pub seed : ℕ
  pub block_id : ℤ
  pub amplitude_limit : Option F
  pub joints : Joint → Params F

pub record ExcitationMeta (F : Type 0) : Type 0 where
  pub mode : String
  pub version : ℕ
  pub seed : ℕ
  pub block_id : ℤ
  pub elapsed_s : F
  pub noise_tick : ℕ
  pub stage : String
  pub parameters : Parameters F

-- An entry of `_excitation_blocks`, by its seed and its block.
pub record BlockEntry (F : Type 0) : Type 0 where
  pub target : String
  pub first_sample_idx : ℕ
  pub first_timestamp_s : F
  pub parameters : Parameters F

abbrev BlockKey : Type 0
BlockKey = ℕ × ℤ

abbrev pub same_key : BlockKey → BlockKey → Bool
same_key (s, b) (s', b') = s == s' && eqb_ℤ b b'

-- What the program makes the machine or the disk do: commands given to the valves, the neutral ones
-- of `clear`, the sending of them, a wait, the pump, a reload of the servo configuration, the capture
-- of raw frames, the three files of a recording, and the shutdown.
pub data Output (F : Type 0) : Type 0 where
  gave : Dict String F → Output F
  cleared sent slept reloaded : Output F
  pump : Bool → Output F
  capturing : Bool → Output F
  wrote_log : List (String × List (Cell F)) → Output F
  wrote_sidecar : List (BlockEntry F) → Output F
  wrote_imu : ImuRaw F → Output F
  closed_input emergency_stop stopped_control shut_down : Output F

-- What raises while a recording is saved: the neutral command is not sent, or a file is not written,
-- after so many that are.
pub data Fault : Type 0 where
  unsent : Fault
  unwritten : ℕ → Fault

-- `t0_mono` is read only while logging.
pub record DataLogger (F : Type 0) : Type 0 where
  pub is_logging : Bool
  pub has_roles : Bool
  pub t0_mono : F
  pub log : DriveLog String (Cell F)
  pub imu : ImuRaw F
  pub blocks : Dict BlockKey (BlockEntry F)

abbrev waveform_name : {F : Type 0} → Waveform F → String
waveform_name sine = "sine"
waveform_name (chirp _) = "chirp"
waveform_name (stroke _ _) = "stroke"

abbrev version_of : {F : Type 0} → Waveform F → ℕ
version_of (stroke _ _) = 1
version_of _ = 3

unfoldable any_even : (Joint → ℕ) → List Joint → Bool
any_even strokes [] = false
any_even strokes (j ∷ js) = (is_stroked j && strokes j % 2 == 0) || any_even strokes js

module _ {F G : Type 0} ⦃fl : Float F⦄ ⦃np : Numpy F⦄ where
  -- The stage of an enabled generator after a time.
  unfoldable stage_of : Waveform F → F → Generator F G → String
  unfolding any_even target_joints
  stage_of sine elapsed g = "run"
  stage_of (chirp w) elapsed g =
      let both = fl.mul (fl.lit (pos 2) 0) w.sweep_s in
      let e = np.rem elapsed (fl.add both (fl.lit (pos 10) 0)) in
      if fl.lt e w.sweep_s then "up" else if fl.lt e both then "down" else "rest"
  stage_of (stroke w k) elapsed g =
      if any_even g.block.stroking.strokes (target_joints g) then "stroke+chirp" else "stroke"

  unfoldable pub metadata : F → Generator F G → ExcitationMeta F
  unfolding since stage_of
  metadata t g =
      let elapsed = elim g.block.start_time as (λ _. F) [ none ↦ nought | some t0 ↦ since t0 t ] in
      record {
        mode = waveform_name g.waveform;
        version = version_of g.waveform;
        seed = g.seed;
        block_id = g.block.block_id;
        elapsed_s = elapsed;
        noise_tick = g.block.noises.noise_tick;
        stage = if g.enabled then stage_of g.waveform elapsed g else "off";
        parameters = record {
          waveform = g.waveform;
          seed = g.seed;
          block_id = g.block.block_id;
          amplitude_limit = g.amplitude;
          joints = g.block.params;
        };
      }

module _ {F : Type 0} where
  -- _clear
  unfoldable pub clear_logger : DataLogger F → DataLogger F
  unfolding make_log clear_imu_raw
  clear_logger s = record s { log = make_log; imu = clear_imu_raw; blocks = [] }

  -- Started at a time of the monotonic clock.
  unfoldable pub start_logging : F → DataLogger F → DataLogger F
  unfolding clear_logger
  start_logging mono s = record (clear_logger s) { is_logging = true; t0_mono = mono }

  unfoldable pub has_samples : DataLogger F → Bool
  unfolding n_samples
  has_samples s = not (n_samples "timestamp" s.log == 0)

  unfoldable pub has_frames : DataLogger F → Bool
  unfolding n_imu_raw_samples
  has_frames s = not (n_imu_raw_samples s.imu == 0)

  abbrev pub key_of : ExcitationMeta F → BlockKey
  key_of m = (m.seed, m.block_id)

  abbrev pub entry_of : String → F → ExcitationMeta F → DataLogger F → BlockEntry F
  entry_of target t m s = record {
    target = target;
    first_sample_idx = n_samples "timestamp" s.log;
    first_timestamp_s = t;
    parameters = m.parameters;
  }

  unfoldable pub noted_in :
      Option (BlockEntry F) → BlockKey → BlockEntry F → DataLogger F → DataLogger F
  unfolding insert
  noted_in (some _) key entry s = s
  noted_in none key entry s = record s { blocks = insert same_key key entry s.blocks }

  -- The entry of a block is written at its first sample.
  unfoldable pub note_block : String → F → ExcitationMeta F → DataLogger F → DataLogger F
  unfolding lookup noted_in n_samples
  note_block target t m s =
      noted_in (lookup same_key (key_of m) s.blocks) (key_of m) (entry_of target t m s) s

  -- The fields of a row that come from the metadata.
  abbrev meta_of : ExcitationMeta F → Meta F
  meta_of m = record {
    mode = some m.mode;
    version = some (pos m.version);
    block_id = some m.block_id;
    elapsed_s = some m.elapsed_s;
    noise_tick = some (pos m.noise_tick);
    stage = some m.stage;
  }

  unfoldable pub log_frames : F → ℕ → List (ℤ × List (List F)) → DataLogger F → DataLogger F
  unfolding log_imu_raw
  log_frames nan n frames s =
      if s.is_logging then record s { imu = log_imu_raw nan n frames s.imu } else s

  unfoldable pub save_imu_raw_strip : DataLogger F → List (Output F)
  unfolding has_frames
  save_imu_raw_strip s = if s.has_roles && has_frames s then wrote_imu s.imu ∷ [] else []

  abbrev pub sidecar : Dict BlockKey (BlockEntry F) → List (Output F)
  sidecar [] = []
  sidecar (b ∷ bs) = wrote_sidecar (values (b ∷ bs)) ∷ []

  unfoldable pub save : DataLogger F → List (Output F)
  unfolding has_samples columns save_imu_raw_strip
  save s =
      if has_samples s
      then wrote_log (columns s.log) ∷ (sidecar s.blocks ++ save_imu_raw_strip s)
      else save_imu_raw_strip s

  -- And whether it returns. The buffers are dropped only once all is written.
  unfoldable pub stop_and_save :
      Option Fault → DataLogger F → DataLogger F × (List (Output F) × Bool)
  unfolding has_samples has_frames save clear_logger
  stop_and_save (some unsent) s = (record s { is_logging = false }, (cleared ∷ [], false))
  stop_and_save (some (unwritten k)) s =
      let stopped = record s { is_logging = false } in
      if has_samples s || has_frames s
      then (stopped, (cleared ∷ sent ∷ slept ∷ take k (save stopped), false))
      else (stopped, (cleared ∷ sent ∷ [], true))
  stop_and_save none s =
      let stopped = record s { is_logging = false } in
      if has_samples s || has_frames s
      then (clear_logger stopped, (cleared ∷ sent ∷ slept ∷ save stopped, true))
      else (stopped, (cleared ∷ sent ∷ [], true))

module _ {F : Type 0} ⦃fl : Float F⦄ ⦃np : Numpy F⦄ where
  -- `sample` is what the arguments, the clocks and the reads give, less what the logger fills in.
  unfoldable pub log_sample :
      F → (F → F) → F → ExcitationMeta F → Sample F → DataLogger F → DataLogger F × Option LogError
  unfolding note_block build_row append n_samples
  log_sample nan radians mono m sample s =
      let t = fl.sub mono s.t0_mono in
      let noted = note_block sample.sine_target t m s in
      let filled = record sample {
        t = t;
        sample_idx = n_samples "timestamp" s.log;
        excitation_meta = meta_of m;
      } in
      let (log, error) =
        append same_name "timestamp" (build_row nan radians np.is_finite filled) noted.log in
      if s.is_logging then (record noted { log = log }, error) else (s, none)
