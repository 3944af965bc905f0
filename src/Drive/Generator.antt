-- ===== src/Drive/Generator.antt =====
-- reference/simple_drive.py: the state of the excitation generators. A subclass is a waveform with its
-- settings. `Block` is what `randomize` sets anew; the stream of the parameters is used there only. A
-- dict with all of JOINT_NAMES as its keys is a function.
use kaivuriprokkis.Prelude.{
  ℕ, ◌%◌, ◌-◌, Bool, true, false, Option, List, [], ◌∷◌, ◌++◌, get_or, if◌then◌else◌,
}
use kaivuriprokkis.Prelude.Int.{ℤ, pos, negsuc}
use Prim.Native.String.{String}

pub data Joint : Type 0 where
  slew boom arm bucket : Joint

abbrev pub same_joint : Joint → Joint → Bool
same_joint slew slew = true
same_joint boom boom = true
same_joint arm arm = true
same_joint bucket bucket = true
same_joint _ _ = false

abbrev pub name_of : Joint → String
name_of slew = "slew"
name_of boom = "boom"
name_of arm = "arm"
name_of bucket = "bucket"

unfoldable pub is_target : Joint → List Joint → Bool
is_target j [] = false
is_target j (k ∷ ks) = if same_joint j k then true else is_target j ks

abbrev pub at_joint_set {ℓ} : {X : Type ℓ} → Joint → X → (Joint → X) → Joint → X
at_joint_set j x f k = if same_joint k j then x else f k

abbrev pub TargetMode : Type 0
TargetMode = String × List Joint

abbrev pub sine_modes : List TargetMode
sine_modes =
    ("all", boom ∷ arm ∷ bucket ∷ [])
    ∷ ("lift", boom ∷ [])
    ∷ ("tilt", arm ∷ [])
    ∷ ("scoop", bucket ∷ [])
    ∷ ("lift+tilt", boom ∷ arm ∷ [])
    ∷ ("lift+scoop", boom ∷ bucket ∷ [])
    ∷ ("tilt+scoop", arm ∷ bucket ∷ [])
    ∷ []

unfoldable pub sine_target_modes : Bool → List TargetMode
sine_target_modes enable_slew =
    if enable_slew then sine_modes ++ (("slew", slew ∷ []) ∷ []) else sine_modes

pub record Params (F : Type 0) : Type 0 where
  pub f_env : F
  pub f_car : F
  pub f_rate : F
  pub depth : F
  pub f_noise : F
  pub noise : F
  pub amp : F
  pub phi1 : F
  pub phi2 : F

-- The two filter poles of each joint, the stream that drives them and the ticks that passed.
pub record Noise (F G : Type 0) : Type 0 where
  pub second : Joint → F
  pub first : Joint → F
  pub rng : G
  pub noise_tick : ℕ

-- The references of the stroke waveform, which the others leave alone.
pub record Strokes (F : Type 0) : Type 0 where
  pub ref : Joint → Option F
  pub direction : Joint → F
  pub strokes : Joint → ℕ
  pub last_t : Option F

pub record Block (F G : Type 0) : Type 0 where
  pub block_id : ℤ
  pub params : Joint → Params F
  pub coefficients : Joint → F × (F × F)
  pub noises : Noise F G
  pub start_time : Option F
  pub stroking : Strokes F

pub record Sweep (F : Type 0) : Type 0 where
  pub start_hz : F
  pub end_hz : F
  pub sweep_s : F
  pub log_rate : F

pub record Stroke (F : Type 0) : Type 0 where
  pub stroke_s : F
  pub margin_deg : F
  pub gain_per_deg : F
  pub valve_limit : F
  pub limits : Joint → F × F

pub data Waveform (F : Type 0) : Type 0 where
  sine : Waveform F
  chirp : Sweep F → Waveform F
  stroke : Sweep F → Stroke F → Waveform F

-- `angles` are the last that `observe` was given, in controller order, which is that of the joints.
pub record Generator (F G : Type 0) : Type 0 where
  pub waveform : Waveform F
  pub amplitude : Option F
  pub modes : List TargetMode
  pub enabled : Bool
  pub target_idx : ℕ
  pub seed : ℕ
  pub block : Block F G
  pub angles : Option (Joint → F)

-- a % n of Python, for n above 0
unfoldable pub rem_ℤ : ℤ → ℕ → ℕ
rem_ℤ (pos a) n = a % n
rem_ℤ (negsuc a) n = n - 1 - a % n

module _ {F : Type 0} where
  abbrev is_stroke : Waveform F → Bool
  is_stroke (stroke _ _) = true
  is_stroke _ = false

  abbrev pub is_sine : Waveform F → Bool
  is_sine sine = true
  is_sine _ = false

module _ {F G : Type 0} where
  abbrev target_mode : Generator F G → TargetMode
  target_mode g = get_or g.modes g.target_idx ("", [])

  unfoldable pub target_name : Generator F G → String
  target_name g = (target_mode g).0

  unfoldable pub target_joints : Generator F G → List Joint
  target_joints g = (target_mode g).1

  unfoldable pub disable : Generator F G → Generator F G
  disable g = record g { enabled = false }

  -- Only the stroke waveform keeps the angles.
  unfoldable pub observe : Option (Joint → F) → Generator F G → Generator F G
  observe angles g = if is_stroke g.waveform then record g { angles = angles } else g
