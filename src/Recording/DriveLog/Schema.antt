-- ===== src/Recording/DriveLog/Schema.antt =====
-- reference/modules/drive_log.py: `DriveLog.build_row`, the names and values of one row. NumPy's
-- `radians` and `isfinite`, and NaN, are parameters.
use kaivuriprokkis.Prelude.{
  ℕ, Bool, Option, none, some, List, [], ◌∷◌, ◌++◌, get_elem?, if◌then◌else◌,
}
use kaivuriprokkis.Prelude.Int.{ℤ, pos, negsuc}
use kaivuriprokkis.Prelude.Dict.{Dict, lookup}
use kaivuriprokkis.Float.{Float}
use Prim.Native.String.{String, ◌++◌ as ◌+++◌}
use text.Mathlib.Text.{◌==◌}

-- A value of a row.
pub data Cell (F : Type 0) : Type 0 where
  number : F → Cell F
  integer : ℤ → Cell F
  label : String → Cell F

abbrev pub Vector : Type 0 → Type 0
Vector F = F × (F × F)

-- What the stream of sensors gives: a vector for each joint, and those of the base.
pub record Gyro (F : Type 0) : Type 0 where
  pub gyro : List (Vector F)
  pub accel : List (Vector F)
  pub base_gyro : Option (Vector F)
  pub base_accel : Option (Vector F)
  pub device_timestamp_us : Option ℤ

pub record Meta (F : Type 0) : Type 0 where
  pub mode : Option String
  pub version : Option ℤ
  pub block_id : Option ℤ
  pub elapsed_s : Option F
  pub noise_tick : Option ℤ
  pub stage : Option String

-- The controller gives one for each joint: slew, boom, arm and bucket.
abbrev pub Velocities : Type 0 → Type 0
Velocities F = F × (F × (F × F))

-- The arguments of `build_row`, with what the clock reads in it and the count of samples.
pub record Sample (F : Type 0) : Type 0 where
  pub t : F
  pub now : F
  pub sample_idx : ℕ
  pub manual : Dict String F
  pub sine : Dict String F
  pub combined : Dict String F
  pub pos_deg : List F
  pub state_ts : Option F
  pub state_imu_us : Option ℤ
  pub vels : Option (Velocities F)
  pub vel_age : F
  pub gyro : Option (Gyro F)
  pub cmd_age_s : F
  pub cmd_stale : Bool
  pub sine_enabled : Bool
  pub sine_target : String
  pub sine_seed : ℤ
  pub excitation_meta : Meta F

-- COMMAND_CHANNELS, VELOCITY_JOINTS with their places in JOINT_NAMES, JOINT_NAMES and
-- IMU_VECTOR_ROLES
abbrev pub command_channels : List (String × String)
command_channels =
    ("slew", "rotate") ∷ ("boom", "lift") ∷ ("arm", "tilt") ∷ ("bucket", "scoop") ∷ []

abbrev pub velocity_joints : List (String × ℕ)
velocity_joints = ("boom", 1) ∷ ("arm", 2) ∷ ("bucket", 3) ∷ []

abbrev pub joint_names : List (String × ℕ)
joint_names = ("slew", 0) ∷ ("boom", 1) ∷ ("arm", 2) ∷ ("bucket", 3) ∷ []

module _ {F : Type 0} ⦃fl : Float F⦄ (nan : F) (radians : F → F) (is_finite : F → Bool) where
  abbrev zero_f : F
  zero_f = fl.lit (pos 0) 0

  -- d.get(joint, 0.0)
  unfoldable pub value_or_zero : Dict String F → String → F
  value_or_zero d joint = elim (lookup ◌==◌ joint d) [ none ↦ zero_f | some v ↦ v ]

  unfoldable pub command_columns :
      String → Dict String F → List (String × String) → List (String × Cell F)
  unfolding value_or_zero
  command_columns head d [] = []
  command_columns head d ((joint, channel) ∷ cs) =
      (head +++ channel, number (value_or_zero d joint)) ∷ command_columns head d cs

  abbrev flag : Bool → Cell F
  flag b = integer (if b then pos 1 else pos 0)

  unfoldable pub combined_columns : Sample F → List (String × String) → List (String × Cell F)
  unfolding value_or_zero
  combined_columns s [] = []
  combined_columns s ((joint, channel) ∷ cs) =
      let requested = fl.add (value_or_zero s.manual joint) (value_or_zero s.sine joint) in
      let limit = fl.add (fl.lit (pos 1) 0) (fl.lit (pos 1) 9) in
      ("combined_cmd_" +++ channel, number (value_or_zero s.combined joint))
      ∷ ("command_clipped_" +++ channel, flag (fl.lt limit (fl.abs requested)))
      ∷ (
        "effective_excitation_cmd_" +++ channel,
        number (fl.sub (value_or_zero s.combined joint) (value_or_zero s.manual joint)),
      )
      ∷ combined_columns s cs

  -- NaN where a list ends before the joint. Velocities come for all four joints; for fewer the source
  -- would raise.
  unfoldable pub at_joint : List F → ℕ → F
  at_joint xs i = elim (get_elem? xs i) [ none ↦ nan | some x ↦ radians x ]

  unfoldable pub joint_columns :
      String → Option (List F) → List (String × ℕ) → List (String × Cell F)
  unfolding at_joint
  joint_columns head xs [] = []
  joint_columns head xs ((joint, i) ∷ js) =
      (head +++ joint, number (elim xs [ none ↦ nan | some xs ↦ at_joint xs i ]))
      ∷ joint_columns head xs js

  -- The velocities, where they are there and fresh.
  unfoldable pub fresh_vels : Sample F → Option (List F)
  fresh_vels s = elim s.vels [
    | none ↦ none
    | some (slew, (boom, (stick, bucket))) ↦
        if fl.lt s.vel_age (fl.lit (pos 5) 2)
        then some (slew ∷ boom ∷ stick ∷ bucket ∷ [])
        else none
  ]

  abbrev scaled : (F → F) → Option (Vector F) → Vector F
  scaled f none = (nan, (nan, nan))
  scaled f (some (x, (y, z))) = (f x, (f y, f z))

  -- firmware g to m/s^2
  abbrev to_ms2 : F → F
  to_ms2 x = fl.mul x (fl.lit (pos 980_665) 5)

  unfoldable pub vector_columns :
      String → Option (Vector F) → Option (Vector F) → List (String × Cell F)
  vector_columns role g a =
      let (gx, (gy, gz)) = scaled radians g in
      let (ax, (ay, az)) = scaled to_ms2 a in
      ("imu_gx_" +++ role, number gx)
      ∷ ("imu_gy_" +++ role, number gy)
      ∷ ("imu_gz_" +++ role, number gz)
      ∷ ("imu_ax_" +++ role, number ax)
      ∷ ("imu_ay_" +++ role, number ay)
      ∷ ("imu_az_" +++ role, number az)
      ∷ []

  abbrev gyros_of : Option (Gyro F) → List (Vector F)
  gyros_of none = []
  gyros_of (some g) = g.gyro

  abbrev accels_of : Option (Gyro F) → List (Vector F)
  accels_of none = []
  accels_of (some g) = g.accel

  abbrev base_of : Option (Gyro F) → Option (Vector F) × Option (Vector F)
  base_of none = (none, none)
  base_of (some g) = (g.base_gyro, g.base_accel)

  unfoldable pub imu_vectors : Option (Gyro F) → List (String × Cell F)
  unfolding vector_columns
  imu_vectors g =
      vector_columns "boom" (get_elem? (gyros_of g) 0) (get_elem? (accels_of g) 0)
      ++ (vector_columns "arm" (get_elem? (gyros_of g) 1) (get_elem? (accels_of g) 1)
          ++ (vector_columns "bucket" (get_elem? (gyros_of g) 2) (get_elem? (accels_of g) 2)
              ++ vector_columns "base" (base_of g).0 (base_of g).1))

  abbrev finite_or_nan : F → Cell F
  finite_or_nan x = number (if is_finite x then x else nan)

  abbrev stamp : Option ℤ → Cell F
  stamp none = integer (negsuc 0)
  stamp (some ts) = integer ts

  -- max(0.0, now - ts)
  abbrev age_of : F → Option F → Cell F
  age_of now none = number nan
  age_of now (some ts) =
      let age = fl.sub now ts in number (if fl.lt zero_f age then age else zero_f)

  abbrev device_stamp : Option (Gyro F) → Cell F
  device_stamp none = integer (negsuc 0)
  device_stamp (some g) = stamp g.device_timestamp_us

  abbrev or_text : Option String → String → Cell F
  or_text none t = label t
  or_text (some s) t = label s

  abbrev or_integer : Option ℤ → ℤ → Cell F
  or_integer none n = integer n
  or_integer (some m) n = integer m

  abbrev or_number : Option F → F → Cell F
  or_number none x = number x
  or_number (some y) x = number y

  -- From `cmd_stale` on
  unfoldable pub clock_columns : Sample F → List (String × Cell F)
  clock_columns s =
      let m = s.excitation_meta in
      ("cmd_stale", flag s.cmd_stale)
      ∷ ("cmd_age_s", finite_or_nan s.cmd_age_s)
      ∷ ("sine_enabled", flag s.sine_enabled)
      ∷ ("state_age_s", age_of s.now s.state_ts)
      ∷ ("vel_age_s", finite_or_nan s.vel_age)
      ∷ ("state_imu_ts_us", stamp s.state_imu_us)
      ∷ ("imu_device_ts_us", device_stamp s.gyro)
      ∷ ("sine_target", label s.sine_target)
      ∷ ("sine_seed", integer s.sine_seed)
      ∷ ("excitation_mode", or_text m.mode "sine")
      ∷ ("excitation_version", or_integer m.version (pos 1))
      ∷ ("excitation_block", or_integer m.block_id (negsuc 0))
      ∷ ("excitation_elapsed_s", or_number m.elapsed_s nan)
      ∷ ("excitation_noise_tick", or_integer m.noise_tick (negsuc 0))
      ∷ ("excitation_stage", or_text m.stage (if s.sine_enabled then "run" else "off"))
      ∷ []

  unfoldable pub build_row : Sample F → List (String × Cell F)
  unfolding command_columns combined_columns joint_columns fresh_vels imu_vectors clock_columns
  build_row s =
      ("timestamp", number s.t)
      ∷ ("sample_idx", integer (pos s.sample_idx))
      ∷ (command_columns "manual_cmd_" s.manual command_channels
          ++ (command_columns "sine_cmd_" s.sine command_channels
              ++ (combined_columns s command_channels
                  ++ (joint_columns "joint_pos_" (some s.pos_deg) joint_names
                      ++ (joint_columns "joint_vel_" (fresh_vels s) velocity_joints
                          ++ (imu_vectors s.gyro ++ clock_columns s))))))
