-- ===== src/Pwm/Controller/Hold.antt =====
-- What `PWMController` drops: commands that are too old, and commands while the rate check holds the
-- outputs after a reset.
use kaivuriprokkis.Prelude.{
  ◌≡◌, refl, ◌∙◌, Bool, true, false, Option, none, some, arith, Bool-cases, inl, inr, length, ◌⊎◌,
}
use kaivuriprokkis.Float.{Float, nought}
use kaivuriprokkis.Pwm.Validation.Sound.{IsValidConfig}
use kaivuriprokkis.Pwm.Writer.{I2c}
use kaivuriprokkis.Pwm.Controller.State.{Controller}
use kaivuriprokkis.Pwm.Controller.Commands.{
  Commands, update_named, update_named_us, note_command, is_held, is_expired,
}
use kaivuriprokkis.Pwm.Controller.Lifecycle.{reset}
use kaivuriprokkis.Pwm.Controller.Centered.{AllCentered, reset-AllCentered}

-- Only commands, of either kind.
pub data Commanded {F B : Type 0} ⦃fl : Float F⦄ ⦃bus : I2c B⦄ (c : Controller F B)
    : Controller F B → Type 0 where
  none_yet : Commanded c c
  by_value :
      {d : Controller F B} (xs : Commands F) (unset : Option Bool) (command_ts : Option F)
      (now_mono now : F)
      → Commanded c d
      → Commanded c (update_named xs unset command_ts now_mono now d).0
  by_pulse :
      {d : Controller F B} (xs : Commands F) (unset : Option Bool) (command_ts : Option F)
      (now_mono : F)
      → Commanded c d
      → Commanded c (update_named_us xs unset command_ts now_mono d).0

module _ {F B : Type 0} ⦃fl : Float F⦄ ⦃bus : I2c B⦄ where
  -- As the guards take it.
  abbrev IsGuarded : Option F → F → Controller F B → Type 0
  IsGuarded command_ts now_mono c = (is_expired command_ts now_mono c ≡ true) ⊎ (is_held c ≡ true)

  -- The time of a command, where there is one, is before `now_mono` by more than a positive timeout.
  abbrev IsTooOld : Option F → F → Controller F B → Type 0
  IsTooOld none now_mono c = ⊥
  IsTooOld (some ts) now_mono c =
      (fl.lt nought c.stale_timeout_s ≡ true)
      × (fl.lt c.stale_timeout_s (fl.sub now_mono ts) ≡ true)

  -- Rates are checked, and none was found good since the last reset.
  abbrev IsHolding : Controller F B → Type 0
  IsHolding c = (c.skip_rate_checking ≡ false) × (c.is_safe_state ≡ false)

  -- A command that is dropped.
  abbrev IsDropped : Option F → F → Controller F B → Type 0
  IsDropped command_ts now_mono c = IsTooOld command_ts now_mono c ⊎ IsHolding c

  -- What a dropped command leaves alone.
  pub record IsUntouched (c d : Controller F B) : Type 0 where
    pub same_values : d.values ≡ c.values
    pub same_pulses : d.current_pulse_us ≡ c.current_pulse_us
    pub same_ramp : d.channel_ramp_state ≡ c.channel_ramp_state
    pub same_writer : d.writer ≡ c.writer
    pub same_state : d.is_safe_state ≡ c.is_safe_state
    pub same_skip : d.skip_rate_checking ≡ c.skip_rate_checking

  IsUntouched-refl : (c : Controller F B) → IsUntouched c c
  IsUntouched-refl c = record {
    same_values = refl;
    same_pulses = refl;
    same_ramp = refl;
    same_writer = refl;
    same_state = refl;
    same_skip = refl;
  }

  note_command-IsUntouched :
      (now_mono : F) (c : Controller F B)
      → IsUntouched c (note_command now_mono c) × (is_held (note_command now_mono c) ≡ is_held c)
  unfolding note_command
  note_command-IsUntouched now_mono c = ground arith

  guarded-IsUntouched :
      (xs : Commands F) (unset : Option Bool) (command_ts : Option F) (now_mono now : F)
      (c : Controller F B)
      → IsGuarded command_ts now_mono c
      → IsUntouched c (update_named xs unset command_ts now_mono now c).0
        × IsUntouched c (update_named_us xs unset command_ts now_mono c).0
        × ((update_named xs unset command_ts now_mono now c).1 ≡ none)
        × ((update_named_us xs unset command_ts now_mono c).1 ≡ none)
  unfolding update_named update_named_us
  guarded-IsUntouched xs unset command_ts now_mono now c h =
      let (noted, held) = note_command-IsUntouched now_mono c in
      elim (Bool-cases (is_expired command_ts now_mono c)) [
        | inl e ↦ rw e (IsUntouched-refl c, IsUntouched-refl c, refl, refl)
        | inr e ↦ elim h [ inl e' ↦ cc | inr e' ↦ rw (e, held ∙ e') (noted, noted, refl, refl) ]
      ]

  dropped-IsGuarded :
      (command_ts : Option F) (now_mono : F) (c : Controller F B)
      → IsDropped command_ts now_mono c
      → IsGuarded command_ts now_mono c
  unfolding is_expired
  dropped-IsGuarded none now_mono c (inl h) = elim h [ ]
  dropped-IsGuarded none now_mono c (inr h) = ground arith
  dropped-IsGuarded (some ts) now_mono c h = ground arith

  -- A command that is older than a positive stale timeout, or that comes while rates are checked and
  -- none was found good since the last reset, changes no value, pulse or ramp, leaves the writer and its
  -- bus alone, and raises nothing; this holds of both command methods.
  pub dropped-IsUntouched :
      (xs : Commands F) (unset : Option Bool) (command_ts : Option F) (now_mono now : F)
      (c : Controller F B)
      → IsDropped command_ts now_mono c
      → IsUntouched c (update_named xs unset command_ts now_mono now c).0
        × IsUntouched c (update_named_us xs unset command_ts now_mono c).0
        × ((update_named xs unset command_ts now_mono now c).1 ≡ none)
        × ((update_named_us xs unset command_ts now_mono c).1 ≡ none)
  dropped-IsUntouched xs unset command_ts now_mono now c h =
      guarded-IsUntouched xs unset command_ts now_mono now c
        (dropped-IsGuarded command_ts now_mono c h)

  IsUntouched-trans : {c d e : Controller F B} → IsUntouched c d → IsUntouched d e → IsUntouched c e
  IsUntouched-trans p q = record {
    same_values = q.same_values ∙ p.same_values;
    same_pulses = q.same_pulses ∙ p.same_pulses;
    same_ramp = q.same_ramp ∙ p.same_ramp;
    same_writer = q.same_writer ∙ p.same_writer;
    same_state = q.same_state ∙ p.same_state;
    same_skip = q.same_skip ∙ p.same_skip;
  }

  still_held : (c d : Controller F B) → IsUntouched c d → is_held c ≡ true → is_held d ≡ true
  still_held c d u h = rw (u.same_skip, u.same_state) h

  Commanded-IsUntouched :
      {c d : Controller F B}
      → is_held c ≡ true
      → Commanded c d
      → IsUntouched c d × (is_held d ≡ true)
  Commanded-IsUntouched {c} h none_yet = (IsUntouched-refl c, h)
  Commanded-IsUntouched {c} h (by_value {d = d} xs u ts m n r) =
      let (before, held) = Commanded-IsUntouched h r in
      let step = (guarded-IsUntouched xs u ts m n d (inr held)).0 in
      (IsUntouched-trans before step, still_held d _ step held)
  Commanded-IsUntouched {c} h (by_pulse {d = d} xs u ts m r) =
      let (before, held) = Commanded-IsUntouched h r in
      let step = (guarded-IsUntouched xs u ts m m d (inr held)).1 in
      (IsUntouched-trans before step, still_held d _ step held)

  -- With rate checking on, after a reset no sequence of commands alone moves a channel off its
  -- centre: only a monitor round that sees the required rate lets commands through again.
  pub reset_holds :
      (reset_pump : Bool) (now : F) (c : Controller F B) {d : Controller F B}
      → IsValidConfig c.channel_configs c.pump_config
      → length c.current_pulse_us ≡ 16
      → c.skip_rate_checking ≡ false
      → Commanded (reset reset_pump now c).0 d
      → AllCentered c.channel_configs d.current_pulse_us
        × (d.writer ≡ (reset reset_pump now c).0.writer)
  unfolding reset
  reset_holds reset_pump now c v size on r =
      let (centered, _, _) = reset-AllCentered reset_pump now c v size in
      let held : is_held (reset reset_pump now c).0 ≡ true = rw on refl in
      let (untouched, _) = Commanded-IsUntouched held r in
      (rw untouched.same_pulses centered, untouched.same_writer)
