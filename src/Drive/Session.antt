-- ===== src/Drive/Session.antt =====
-- reference/simple_drive.py: the state of the loop of `main`, what a pass of it reads, and its helpers.
-- A step has a list of outputs and, where one was raised, the exception.
use kaivuriprokkis.Prelude.{
  ℕ, ◌/◌, ◌%◌, ◌^◌, ◌==◌, Bool, false, not, ◌&&◌, ◌||◌, Option, none, some, List, [], ◌∷◌, ◌++◌,
  if◌then◌else◌,
}
use kaivuriprokkis.Prelude.Int.{ℤ, pos}
use kaivuriprokkis.Prelude.Dict.{Dict}
use kaivuriprokkis.Float.{Float, nought}
use kaivuriprokkis.Recording.DriveLog.{LogError}
use kaivuriprokkis.Recording.DriveLog.Schema.{Sample}
use kaivuriprokkis.Drive.Generator.{Joint, Generator, disable}
use kaivuriprokkis.Drive.Logger.{Fault, Output, capturing, DataLogger, log_frames, stop_and_save}
use Prim.Native.String.{String}

pub data DriveError : Type 0 where
  bad_seed : DriveError
  bad_row : LogError → DriveError
  not_sent not_saved : DriveError

pub record Axes (F : Type 0) : Type 0 where
  pub right_rl : F
  pub right_ud : F
  pub left_rl : F
  pub left_ud : F
  pub right_paddle : F
  pub left_paddle : F

-- The options, and what the IMUs give: whether they are on and how many stream.
pub record DriveSettings (F : Type 0) : Type 0 where
  pub enable_slew : Bool
  pub enable_tracks : Bool
  pub excitation_seed : Option ℤ
  pub imu_on : Bool
  pub n_imu_sensors : ℕ
  pub nan : F
  pub radians : F → F

abbrev pub Frames : Type 0 → Type 0
Frames F = List (ℤ × List (List F))

-- What one pass reads. `polled` is none where no packet is new; `pump_enabled` is none without a PWM
-- controller; `angles` are those of a pose with a sensor clock. The raw frames are drained at a stop by
-- the button, after a sample, and at a stop by the time. The faults are those of the two stops, and the
-- flags say whether the commands of the reload and of the pass are sent.
pub record Pass (F : Type 0) : Type 0 where
  pub now : F
  pub polled : Option (Axes F × ℕ)
  pub entropy : ℕ
  pub started_mono : F
  pub pump_enabled : Option Bool
  pub cmd_age_s : F
  pub is_live : Bool
  pub t : F
  pub angles : Option (Joint → F)
  pub sample : Sample F
  pub sampled_mono : F
  pub stop_frames : Frames F
  pub stop_fault : Option Fault
  pub reset_sends : Bool
  pub sends : Bool
  pub tick_frames : Frames F
  pub end_frames : Frames F
  pub end_fault : Option Fault

pub record DriveSession (F G : Type 0) : Type 0 where
  pub axes : Axes F
  pub mask_prev : ℕ
  pub record_start_time : Option F
  pub excitation : Generator F G
  pub logger : DataLogger F

pub record DriveStep (F G : Type 0) : Type 0 where
  pub session : DriveSession F G
  pub outputs : List (Output F)
  pub error : Option DriveError

-- bool(mask & (1 << b))
unfoldable pub has_bit : ℕ → ℕ → Bool
has_bit mask b = mask / 2 ^ b % 2 == 1

-- Pressed now, and not in the mask before.
unfoldable pub is_pressed : ℕ → ℕ → ℕ → Bool
unfolding has_bit
is_pressed mask_prev mask b = has_bit mask b && not (has_bit mask_prev b)

module _ {F : Type 0} where
  abbrev pub passed_on : DriveSettings F → Frames F → DataLogger F → DataLogger F
  passed_on c [] s = s
  passed_on c (f ∷ fs) s = log_frames c.nan c.n_imu_sensors (f ∷ fs) s

  unfoldable pub drain_imu_raw : DriveSettings F → Frames F → DataLogger F → DataLogger F
  unfolding log_frames
  drain_imu_raw c frames s = if c.imu_on && s.is_logging then passed_on c frames s else s

module _ {F G : Type 0} where
  unfoldable pub done : List (Output F) → DriveSession F G → DriveStep F G
  done outputs s = record { session = s; outputs = outputs; error = none }

  -- One part after another, unless an exception ended the first.
  unfoldable pub then_unless :
      Option DriveError → DriveStep F G → (DriveSession F G → DriveStep F G) → DriveStep F G
  then_unless (some e) a k = a
  then_unless none a k = let b = k a.session in record b { outputs = a.outputs ++ b.outputs }

  unfoldable pub then_do : DriveStep F G → (DriveSession F G → DriveStep F G) → DriveStep F G
  unfolding then_unless
  then_do a k = then_unless a.error a k

  unfoldable pub in_turn :
      List (DriveSession F G → DriveStep F G) → DriveSession F G → DriveStep F G
  unfolding then_do done
  in_turn [] s = done [] s
  in_turn (part ∷ parts) s = then_do (part s) (in_turn parts)

  unfoldable pub ended_by : DriveError → List (Output F) → DriveSession F G → DriveStep F G
  ended_by e outputs s = record { session = s; outputs = outputs; error = some e }

  abbrev pub stopped_with : DataLogger F → DriveSession F G → DriveSession F G
  stopped_with logger s = record s { logger = logger; excitation = disable s.excitation }

  unfoldable pub stop_recording :
      DriveSettings F → Option Fault → Frames F → DriveSession F G → DriveStep F G
  unfolding drain_imu_raw stop_and_save disable done ended_by
  stop_recording c fault frames s =
      let (logger, (outputs, ok)) = stop_and_save fault (drain_imu_raw c frames s.logger) in
      if ok
      then done (outputs ++ (if c.imu_on then capturing false ∷ [] else []))
          (record (stopped_with logger s) { record_start_time = none })
      else ended_by not_saved outputs (stopped_with logger s)

module _ {F : Type 0} ⦃fl : Float F⦄ where
  unfoldable pub manual_of : DriveSettings F → Axes F → Dict String F
  manual_of c a =
      ("slew", if c.enable_slew then a.left_rl else nought)
      ∷ ("boom", a.right_ud)
      ∷ ("arm", a.left_ud)
      ∷ ("bucket", a.right_rl)
      ∷ (if c.enable_tracks
          then ("trackR", a.right_paddle) ∷ ("trackL", a.left_paddle) ∷ []
          else [])

  unfoldable pub is_stale_input : F → Bool → Bool
  is_stale_input age live = fl.lt (fl.lit (pos 5) 1) age || not live

  -- RECORD_MINUTES * 60 seconds after the start
  unfoldable pub is_over_time : F → Option F → Bool
  is_over_time now none = false
  is_over_time now (some start) = fl.le (fl.lit (pos 600) 0) (fl.sub now start)
