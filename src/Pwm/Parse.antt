-- ===== src/Pwm/Parse.antt =====
-- reference/modules/pwm/controller.py: `_read_config_data` and `_parse_config`, from the value that
-- the YAML library gives for the file to the configuration. The file and the library are outside.
use kaivuriprokkis.Prelude.{
  Bool, true, false, not, ◌||◌, Option, none, some, List, [], ◌∷◌, ◌++◌, if◌then◌else◌,
}
use kaivuriprokkis.Prelude.Int.{ℤ, pos, eqb_ℤ}
use kaivuriprokkis.Prelude.Dict.{Dict, lookup}
use kaivuriprokkis.Float.{Float}
use kaivuriprokkis.Pwm.Config.{ChannelFields, PumpConfig}
use kaivuriprokkis.Pwm.Validation.{Issue}
use Prim.Native.String.{String}
use text.Mathlib.Text.{◌==◌ as str_eq}

-- A YAML value, as far as the code tells values apart; `other` is a list, a date or the like. A
-- mapping of mappings stands two deep: the values inside an entry are scalars or `other`.
pub data Scalar (F : Type 0) : Type 0 where
  null other : Scalar F
  boolean : Bool → Scalar F
  integer : ℤ → Scalar F
  real : F → Scalar F
  characters : String → Scalar F

pub data Entry (F : Type 0) : Type 0 where
  mapping : Dict String (Scalar F) → Entry F
  scalar : Scalar F → Entry F

pub data Channels (F : Type 0) : Type 0 where
  entries : Dict String (Entry F) → Channels F
  not_mapping : Channels F

-- The document: empty, no mapping, or the two keys that are read.
pub data Document (F : Type 0) : Type 0 where
  empty : Document F
  not_mapping : Document F
  top : Option (Channels F) → Option (Scalar F) → Document F

pub data ParseError : Type 0 where
  not_int not_float not_bool : String → String → ParseError
  entry_not_mapping : String → ParseError
  missing_keys : String → List String → ParseError

-- `PWMConfigLoadError` and `PWMConfigValidationError`
pub data ConfigError : Type 0 where
  is_empty no_top_mapping : ConfigError
  no_channel_configs channel_configs_not_mapping : ConfigError
  missing_canonical : List String → ConfigError
  invalid : List ParseError → ConfigError
  failed_validation : List Issue → ConfigError

-- A conversion: its value, or the error that it appends.
abbrev pub Converted : Type 0 → Type 0
Converted A = Option A × List ParseError

abbrev pub required_pump_keys : List String
required_pump_keys =
    "output_channel" ∷ "pulse_min" ∷ "pulse_max" ∷ "static_pulse_us" ∷ "base_pulse_us"
    ∷ "activity_gain_us" ∷ []

abbrev pub required_channel_keys : List String
required_channel_keys =
    "output_channel" ∷ "pulse_min" ∷ "pulse_max" ∷ "direction" ∷ "center" ∷ "deadzone"
    ∷ "affects_pump" ∷ "toggleable" ∷ "deadband_us_pos" ∷ "deadband_us_neg" ∷ "dither_enable"
    ∷ "dither_amp_us" ∷ "dither_hz" ∷ "dither_taper" ∷ "dither_taper_us" ∷ "ramp_enable"
    ∷ "ramp_limit" ∷ "ramp_skip_deadband" ∷ "gamma" ∷ []

-- The texts that `_normalize_none` takes for None.
unfoldable pub is_none_text : String → Bool
is_none_text s =
    str_eq s "None"
    || (str_eq s "none"
        || (str_eq s "null"
            || (str_eq s "NONE"
                || (str_eq s "Null"
                    || (str_eq s "NULL" || (str_eq s "" || (str_eq s "n/a" || str_eq s "N/A")))))))

abbrev pub is_present {ℓ} : {A : Type ℓ} → Option A → Bool
is_present none = false
is_present (some _) = true

-- [k for k in required if k not in cfg]
unfoldable pub missing_from : {V : Type 0} → List String → Dict String V → List String
unfolding lookup
missing_from [] cfg = []
missing_from (k ∷ ks) cfg =
    let rest = missing_from ks cfg in if is_present (lookup str_eq k cfg) then rest else k ∷ rest

abbrev pub both : {A B : Type 0} → Option (A → B) → Option A → Option B
both (some f) (some a) = some (f a)
both _ _ = none

-- The conversions run in order, and their errors are appended in order.
infixl 40 ◌<*>◌
abbrev pub ◌<*>◌ : {A B : Type 0} → Converted (A → B) → Converted A → Converted B
(f, errors) <*> (a, more) = (both f a, errors ++ more)

abbrev pub refused : {A : Type 0} → ParseError → Converted A
refused e = (none, e ∷ [])

abbrev pub converted : {A : Type 0} → A → Converted A
converted a = (some a, [])

module _ {F : Type 0} ⦃fl : Float F⦄ where
  open fl use {of_int, trunc, is_integer}

  unfoldable pub as_int : String → String → Scalar F → Converted ℤ
  as_int scope key (integer n) = converted n
  as_int scope key (real x) =
      if is_integer x then converted (trunc x) else refused (not_int scope key)
  as_int scope key _ = refused (not_int scope key)

  unfoldable pub as_float : String → String → Scalar F → Converted F
  as_float scope key (integer n) = converted (of_int n)
  as_float scope key (real x) = converted x
  as_float scope key _ = refused (not_float scope key)

  unfoldable pub as_bool : String → String → Scalar F → Converted Bool
  as_bool scope key (boolean b) = converted b
  as_bool scope key (integer n) =
      if eqb_ℤ n (pos 0)
      then converted false
      else if eqb_ℤ n (pos 1)
      then converted true
      else refused (not_bool scope key)
  as_bool scope key _ = refused (not_bool scope key)

  -- `_normalize_none`, and the conversion of what is left
  unfoldable pub as_center : String → String → Scalar F → Converted (Option F)
  unfolding as_float is_none_text
  as_center scope key null = converted none
  as_center scope key (characters s) =
      if is_none_text s then converted none else refused (not_float scope key)
  as_center scope key value =
      let (x, errors) = as_float scope key value in (both (some some) x, errors)

  -- cfg[key], for a key that is there
  abbrev value_at : String → Dict String (Scalar F) → Scalar F
  value_at key cfg = elim (lookup str_eq key cfg) [ none ↦ null | some v ↦ v ]

  unfoldable pub pump_config_of : Dict String (Scalar F) → Converted (PumpConfig F)
  unfolding lookup as_int as_float
  pump_config_of cfg =
      let int = λ (key : String). as_int "Pump" key (value_at key cfg) in
      let float = λ (key : String). as_float "Pump" key (value_at key cfg) in
      converted (λ (a b c : ℤ) (d e f : F).
        let p : PumpConfig F = record {
          output_channel = a;
          pulse_min = b;
          pulse_max = c;
          static_pulse_us = d;
          base_pulse_us = e;
          activity_gain_us = f;
        } in
        p)
      <*> int "output_channel"
      <*> int "pulse_min"
      <*> int "pulse_max"
      <*> float "static_pulse_us"
      <*> float "base_pulse_us"
      <*> float "activity_gain_us"

  abbrev channel_fields :
      (a b c d : ℤ)
      → Option F
      → F
      → Bool
      → Bool
      → F
      → F
      → Bool
      → F
      → F
      → Bool
      → F
      → Bool
      → F
      → Bool
      → F
      → ChannelFields F
  channel_fields a b c d center deadzone affects toggleable band_pos band_neg enable amp hz taper
        taper_us ramp limit skip gamma =
      record {
        output_channel = a;
        pulse_min = b;
        pulse_max = c;
        direction = d;
        center = center;
        deadzone = deadzone;
        affects_pump = affects;
        toggleable = toggleable;
        deadband_us_pos = band_pos;
        deadband_us_neg = band_neg;
        dither_enable = enable;
        dither_amp_us = amp;
        dither_hz = hz;
        dither_taper = taper;
        dither_taper_us = taper_us;
        ramp_enable = ramp;
        ramp_limit = limit;
        ramp_skip_deadband = skip;
        gamma = gamma;
      }

  unfoldable pub channel_fields_of : String → Dict String (Scalar F) → Converted (ChannelFields F)
  unfolding lookup as_int as_float as_bool as_center
  channel_fields_of name cfg =
      let int = λ (key : String). as_int name key (value_at key cfg) in
      let float = λ (key : String). as_float name key (value_at key cfg) in
      let bool = λ (key : String). as_bool name key (value_at key cfg) in
      converted channel_fields
      <*> int "output_channel"
      <*> int "pulse_min"
      <*> int "pulse_max"
      <*> int "direction"
      <*> as_center name "center" (value_at "center" cfg)
      <*> float "deadzone"
      <*> bool "affects_pump"
      <*> bool "toggleable"
      <*> float "deadband_us_pos"
      <*> float "deadband_us_neg"
      <*> bool "dither_enable"
      <*> float "dither_amp_us"
      <*> float "dither_hz"
      <*> bool "dither_taper"
      <*> float "dither_taper_us"
      <*> bool "ramp_enable"
      <*> float "ramp_limit"
      <*> bool "ramp_skip_deadband"
      <*> float "gamma"

  -- cfg.get('enabled', True) is False
  abbrev pub is_disabled : Dict String (Scalar F) → Bool
  is_disabled cfg = elim (lookup str_eq "enabled" cfg) [
    | none ↦ false
    | some (boolean b) ↦ not b
    | some _ ↦ false
  ]
