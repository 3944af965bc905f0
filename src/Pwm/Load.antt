-- ===== src/Pwm/Load.antt =====
-- reference/modules/pwm/controller.py: `_parse_config` over all entries, `_read_config_data`, and
-- `_validate_config_data`.
pub mod Taken
use kaivuriprokkis.Prelude.{
  ℕ, ◌≡◌, refl, sym, ap, ◌∙◌, Bool, true, false, not, ◌&&◌, ◌||◌, Option, none, some, List, [], ◌∷◌,
  ◌++◌, if◌then◌else◌, Bool-cases, arith,
}
use kaivuriprokkis.Prelude.Dict.{Dict, lookup, insert}
use kaivuriprokkis.Float.{Float}
use kaivuriprokkis.Pwm.Constants.{canonical_channel_names}
use kaivuriprokkis.Pwm.Config.{ChannelFields, ChannelConfig, PumpConfig, post_init}
use kaivuriprokkis.Pwm.Validation.{Issue, Frequency, collect_config_validation_errors}
use kaivuriprokkis.Pwm.Validation.Sound.{IsValidConfig, collect-IsValidConfig}
use kaivuriprokkis.Pwm.Controller.Setup.{Loaded}
use kaivuriprokkis.Pwm.Parse.{
  Scalar, Entry, Channels, Document, ParseError, entry_not_mapping, missing_keys, ConfigError,
  is_disabled, missing_from, required_pump_keys, required_channel_keys, pump_config_of,
  channel_fields_of, Converted, is_present,
}
use mathlib.Core.Path.{subst}
use Prim.Native.String.{String}
use text.Mathlib.Text.{◌==◌ as str_eq}

-- `channel_configs`, `pump_config` and `config_errors`.
pub record Parsed (F : Type 0) : Type 0 where
  pub channels : Dict String (ChannelConfig F)
  pub pump : Option (PumpConfig F)
  pub errors : List ParseError

pub data Result (A : Type 0) : Type 0 where
  ok : A → Result A
  failed : ConfigError → Result A

-- if errors: raise ...(errors); return a
unfoldable pub unless_any : {A E : Type 0} → (List E → ConfigError) → List E → A → Result A
unless_any error [] a = ok a
unless_any error (e ∷ es) a = failed (error (e ∷ es))

abbrev pub and_then : {A B : Type 0} → Result A → (A → Result B) → Result B
and_then (ok a) f = f a
and_then (failed e) f = failed e

abbrev IsFailed : {A : Type 0} → Result A → Type 0
IsFailed (ok _) = ⊥
IsFailed (failed _) = Unit

abbrev value_or : {A : Type 0} → A → Result A → A
value_or a (ok b) = b
value_or a (failed _) = a

pub unless_any-ok :
    {A E : Type 0} (error : List E → ConfigError) (es : List E) (a b : A)
    → unless_any error es a ≡ ok b
    → (es ≡ []) × (a ≡ b)
unfolding unless_any
unless_any-ok error [] a b h = (refl, ap (value_or a) h)
unless_any-ok error (e ∷ es) a b h = absurd (subst IsFailed h tt)

and_then-ok :
    {A B : Type 0} (r : Result A) (f : A → Result B) (b : B)
    → and_then r f ≡ ok b
    → (a : A) × ((r ≡ ok a) × (f a ≡ ok b))
and_then-ok (ok a) f b h = (a, (refl, h))
and_then-ok (failed e) f b h = absurd (subst IsFailed h tt)

module _ {F : Type 0} ⦃fl : Float F⦄ where
  abbrev pub note : ParseError → Parsed F → Parsed F
  note e s = record s { errors = s.errors ++ (e ∷ []) }

  -- A value that stands is stored; else the errors are appended and the entry is left out.
  abbrev pub store_pump : Converted (PumpConfig F) → Parsed F → Parsed F
  store_pump (some p, []) s = record s { pump = some p }
  store_pump (_, errors) s = record s { errors = s.errors ++ errors }

  abbrev pub store_channel : String → Converted (ChannelFields F) → Parsed F → Parsed F
  store_channel name (some f, []) s = record s {
    channels = insert str_eq name (post_init f) s.channels;
  }
  store_channel name (_, errors) s = record s { errors = s.errors ++ errors }

  -- Where keys are missing, they are noted and the entry is left out.
  abbrev pub unless_missing : String → List String → Parsed F → Parsed F → Parsed F
  unless_missing name [] stored s = stored
  unless_missing name (k ∷ ks) stored s = note (missing_keys name (k ∷ ks)) s

  unfoldable pub parse_pump : Dict String (Scalar F) → Parsed F → Parsed F
  parse_pump cfg s =
      let missing = missing_from required_pump_keys cfg in
      unless_missing "pump" missing (store_pump (pump_config_of cfg) s) s

  unfoldable pub parse_channel : String → Dict String (Scalar F) → Parsed F → Parsed F
  parse_channel name cfg s =
      let missing = missing_from required_channel_keys cfg in
      unless_missing name missing (store_channel name (channel_fields_of name cfg) s) s

  -- One turn of the loop over `raw_config['CHANNEL_CONFIGS'].items()`.
  unfoldable pub parse_entry : String → Entry F → Parsed F → Parsed F
  unfolding parse_pump parse_channel
  parse_entry name (Entry.scalar _) s = note (entry_not_mapping name) s
  parse_entry name (Entry.mapping cfg) s =
      if is_disabled cfg
      then s
      else if str_eq name "pump"
      then parse_pump cfg s
      else parse_channel name cfg s

  unfoldable pub parse_entries : Dict String (Entry F) → Parsed F → Parsed F
  parse_entries [] s = s
  parse_entries ((name, entry) ∷ rest) s = parse_entries rest (parse_entry name entry s)

  abbrev pub nothing_parsed : Parsed F
  nothing_parsed = record { channels = []; pump = none; errors = [] }

  unfoldable pub parse_config : Dict String (Entry F) → Result (Parsed F)
  unfolding parse_entries unless_any
  parse_config configs =
      let s = parse_entries configs nothing_parsed in unless_any ConfigError.invalid s.errors s

  -- raw_config.get('pwm_frequency', None), as the validation tells values apart
  abbrev pub frequency_value : Option (Scalar F) → Frequency F
  frequency_value none = Frequency.missing
  frequency_value (some Scalar.null) = Frequency.missing
  frequency_value (some (Scalar.integer n)) = Frequency.integer n
  frequency_value (some (Scalar.real x)) = Frequency.real x
  frequency_value (some _) = Frequency.other

  unfoldable pub validate_config_data : Loaded F → Result (Loaded F)
  unfolding unless_any
  validate_config_data l =
      unless_any ConfigError.failed_validation
        (collect_config_validation_errors l.channels l.pump l.frequency) l

  abbrev pub loaded_of : Option (Scalar F) → Parsed F → Loaded F
  loaded_of frequency s = record {
    channels = s.channels;
    pump = s.pump;
    frequency = frequency_value frequency;
  }

  abbrev pub parse_and_validate : Option (Scalar F) → Dict String (Entry F) → Result (Loaded F)
  parse_and_validate frequency configs =
      and_then (parse_config configs) (λ s. validate_config_data (loaded_of frequency s))

  unfoldable pub read_channels : Dict String (Entry F) → Option (Scalar F) → Result (Loaded F)
  unfolding missing_from parse_config validate_config_data unless_any
  read_channels configs frequency =
      let missing = missing_from canonical_channel_names configs in
      and_then (unless_any ConfigError.missing_canonical missing configs)
        (parse_and_validate frequency)

  -- `_read_config_data` from the value of the file on.
  unfoldable pub read_config_data : Document F → Result (Loaded F)
  unfolding read_channels
  read_config_data Document.empty = failed ConfigError.is_empty
  read_config_data Document.not_mapping = failed ConfigError.no_top_mapping
  read_config_data (Document.top none _) = failed ConfigError.no_channel_configs
  read_config_data (Document.top (some Channels.not_mapping) _) =
      failed ConfigError.channel_configs_not_mapping
  read_config_data (Document.top (some (Channels.entries configs)) frequency) =
      read_channels configs frequency

  validate-IsValidConfig :
      (s l : Loaded F) → validate_config_data s ≡ ok l → IsValidConfig l.channels l.pump
  unfolding validate_config_data
  validate-IsValidConfig s l h =
      let errors = collect_config_validation_errors s.channels s.pump s.frequency in
      let (no_error, same) = unless_any-ok ConfigError.failed_validation errors s l h in
      subst (λ m. IsValidConfig m.channels m.pump) same
        (collect-IsValidConfig s.channels s.pump s.frequency no_error)

  read_channels-IsValidConfig :
      (configs : Dict String (Entry F)) (frequency : Option (Scalar F)) (l : Loaded F)
      → read_channels configs frequency ≡ ok l
      → IsValidConfig l.channels l.pump
  unfolding read_channels
  read_channels-IsValidConfig configs frequency l h =
      let missing = missing_from canonical_channel_names configs in
      let checked = unless_any ConfigError.missing_canonical missing configs in
      let validated = λ (s : Parsed F). validate_config_data (loaded_of frequency s) in
      let (present, (_, h1)) = and_then-ok checked (parse_and_validate frequency) l h in
      let (s, (_, h2)) = and_then-ok (parse_config present) validated l h1 in
      validate-IsValidConfig (loaded_of frequency s) l h2

  -- What is read from a file is a valid configuration: the channels are valid and on distinct
  -- outputs, and the pump, if any, is valid and on an output that no channel drives.
  pub read_config_data-IsValidConfig :
      (document : Document F) (l : Loaded F)
      → read_config_data document ≡ ok l
      → IsValidConfig l.channels l.pump
  unfolding read_config_data
  read_config_data-IsValidConfig Document.empty l h = absurd (subst IsFailed h tt)
  read_config_data-IsValidConfig Document.not_mapping l h = absurd (subst IsFailed h tt)
  read_config_data-IsValidConfig (Document.top none _) l h = absurd (subst IsFailed h tt)
  read_config_data-IsValidConfig (Document.top (some Channels.not_mapping) _) l h =
      absurd (subst IsFailed h tt)
  read_config_data-IsValidConfig (Document.top (some (Channels.entries cs)) f) l h =
      read_channels-IsValidConfig cs f l h
