-- ===== src/Pwm/Load/Taken.antt =====
-- reference/modules/pwm/controller.py, `_parse_config`: a parse that succeeds leaves out no entry.
use kaivuriprokkis.Prelude.{
  ◌≢◌, arith, ◌≡◌, refl, true, false, none, some, List, [], ◌∷◌, ◌++◌, All, append-eq-nil,
}
use kaivuriprokkis.Prelude.Dict.{Dict}
use kaivuriprokkis.Float.{Float}
use kaivuriprokkis.Pwm.Config.{ChannelFields, PumpConfig}
use kaivuriprokkis.Pwm.Parse.{
  ConfigError, Scalar, Entry, ParseError, is_disabled, missing_from, required_pump_keys,
  required_channel_keys, pump_config_of, channel_fields_of, Converted, missing_keys,
  entry_not_mapping,
}
use kaivuriprokkis.Pwm.Load.{
  Parsed, ok, parse_pump, parse_channel, parse_entry, parse_entries, parse_config, nothing_parsed,
  unless_any-ok, store_pump, store_channel, unless_missing,
}
use Prim.Native.String.{String}
use text.Mathlib.Text.{◌==◌ as str_eq}

noted : (xs : List ParseError) (e : ParseError) → xs ++ (e ∷ []) ≢ []
noted [] e = cc
noted (x ∷ xs) e = cc

module _ {F : Type 0} ⦃fl : Float F⦄ where
  -- What the code asks of an entry: it is switched off, or it has all its keys and each value
  -- converts.
  pub data IsTaken (name : String) : Entry F → Type 0 where
    switched_off :
        (cfg : Dict String (Scalar F)) → is_disabled cfg ≡ true → IsTaken name (Entry.mapping cfg)
    as_pump :
        (cfg : Dict String (Scalar F))
        → str_eq name "pump" ≡ true
        → missing_from required_pump_keys cfg ≡ []
        → (pump_config_of cfg).1 ≡ []
        → IsTaken name (Entry.mapping cfg)
    as_channel :
        (cfg : Dict String (Scalar F))
        → str_eq name "pump" ≡ false
        → missing_from required_channel_keys cfg ≡ []
        → (channel_fields_of name cfg).1 ≡ []
        → IsTaken name (Entry.mapping cfg)

  stored-pump :
      (v : Converted (PumpConfig F)) (s : Parsed F)
      → (store_pump v s).errors ≡ []
      → (s.errors ≡ []) × (v.1 ≡ [])
  stored-pump (some p, []) s h = (h, refl)
  stored-pump (some p, e ∷ es) s h = append-eq-nil s.errors (e ∷ es) h
  stored-pump (none, es) s h = append-eq-nil s.errors es h

  stored-channel :
      (name : String) (v : Converted (ChannelFields F)) (s : Parsed F)
      → (store_channel name v s).errors ≡ []
      → (s.errors ≡ []) × (v.1 ≡ [])
  stored-channel name (some p, []) s h = (h, refl)
  stored-channel name (some p, e ∷ es) s h = append-eq-nil s.errors (e ∷ es) h
  stored-channel name (none, es) s h = append-eq-nil s.errors es h

  none_missing :
      (name : String) (missing : List String) (stored s : Parsed F)
      → (unless_missing name missing stored s).errors ≡ []
      → (missing ≡ []) × (stored.errors ≡ [])
  none_missing name [] stored s h = (refl, h)
  none_missing name (k ∷ ks) stored s h = absurd (noted s.errors (missing_keys name (k ∷ ks)) h)

  parse_pump-taken :
      (name : String) (cfg : Dict String (Scalar F)) (s : Parsed F)
      → str_eq name "pump" ≡ true
      → (parse_pump cfg s).errors ≡ []
      → (s.errors ≡ []) × IsTaken name (Entry.mapping cfg)
  unfolding parse_pump
  parse_pump-taken name cfg s n h =
      let v = pump_config_of cfg in
      let (present, h1) = none_missing "pump" _ (store_pump v s) s h in
      let (before, converts) = stored-pump v s h1 in (before, as_pump cfg n present converts)

  parse_channel-taken :
      (name : String) (cfg : Dict String (Scalar F)) (s : Parsed F)
      → str_eq name "pump" ≡ false
      → (parse_channel name cfg s).errors ≡ []
      → (s.errors ≡ []) × IsTaken name (Entry.mapping cfg)
  unfolding parse_channel
  parse_channel-taken name cfg s n h =
      let v = channel_fields_of name cfg in
      let (present, h1) = none_missing name _ (store_channel name v s) s h in
      let (before, converts) = stored-channel name v s h1 in
      (before, as_channel cfg n present converts)

  parse_entry-taken :
      (name : String) (e : Entry F) (s : Parsed F)
      → (parse_entry name e s).errors ≡ []
      → (s.errors ≡ []) × IsTaken name e
  unfolding parse_entry
  parse_entry-taken name (Entry.scalar v) s h = absurd (noted s.errors (entry_not_mapping name) h)
  parse_entry-taken name (Entry.mapping cfg) s h =
      let off : is_disabled cfg ≡ true → IsTaken name (Entry.mapping cfg) = switched_off cfg in
      ground (arith, off, parse_pump-taken name cfg s, parse_channel-taken name cfg s)

  parse_entries-taken :
      (configs : Dict String (Entry F)) (s : Parsed F)
      → (parse_entries configs s).errors ≡ []
      → (s.errors ≡ []) × All (λ e. IsTaken e.0 e.1) configs
  unfolding parse_entries
  parse_entries-taken [] s h = (h, tt)
  parse_entries-taken ((name, e) ∷ rest) s h =
      let (h1, taken) = parse_entries-taken rest (parse_entry name e s) h in
      let (before, this) = parse_entry-taken name e s h1 in (before, (this, taken))

  -- A parse that succeeds leaves no entry out for an error: each one is switched off, or is a
  -- mapping that has all its required keys, whose values all convert.
  pub parse_config-taken :
      (configs : Dict String (Entry F)) (s : Parsed F)
      → parse_config configs ≡ ok s
      → All (λ e. IsTaken e.0 e.1) configs
  unfolding parse_config
  parse_config-taken configs s h =
      let parsed = parse_entries configs nothing_parsed in
      let (no_error, _) = unless_any-ok ConfigError.invalid parsed.errors parsed s h in
      (parse_entries-taken configs nothing_parsed no_error).1
