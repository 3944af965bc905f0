-- ===== src/Drive/Combined.antt =====
-- What `build_drive_commands` lets through.
use kaivuriprokkis.Prelude.{
  ◌≡◌, refl, sym, ap, ◌∙◌, Bool, true, false, none, some, List, [], ◌∷◌, All, Bool-cases, inl, inr,
  if◌then◌else◌,
}
use mathlib.Core.Path.{subst}
use kaivuriprokkis.Prelude.Dict.{Dict, lookup}
use kaivuriprokkis.Float.{Float, ◌≼◌, IsOrdered, nought, unit, minus_unit}
use kaivuriprokkis.Drive.Numeric.{Numpy, Random, IsClip}
use kaivuriprokkis.Drive.Generator.{
  Joint, name_of, Waveform, sine, chirp, stroke, Generator, disable,
}
use kaivuriprokkis.Drive.Signal.{all_joints, get_signal, get_signals, advance_noise}
use kaivuriprokkis.Drive.Sampling.{
  DriveCommands, advance, zeros, forget_time, get_all_stroke, get_all_of, get_all, merge, silence,
  signal_of, combine, build_drive_commands,
}
use Prim.Native.String.{String}
use text.Mathlib.Text.{◌==◌ as same_name}

module _ {F : Type 0} ⦃fl : Float F⦄ where
  -- Within [-1, 1], or NaN.
  abbrev pub IsCommand : F → Type 0
  IsCommand v = v ≼ v → (minus_unit ≼ v) × (v ≼ unit)

  abbrev pub IsSilent : Dict String F → Type 0
  IsSilent d = All (λ e. e.1 ≡ nought) d

  silence-IsSilent : (d : Dict String F) → IsSilent (silence d)
  unfolding silence
  silence-IsSilent [] = tt
  silence-IsSilent ((n, v) ∷ d) = (refl, silence-IsSilent d)

  signal_of-IsSilent : (n : String) (d : Dict String F) → IsSilent d → signal_of n d ≡ nought
  unfolding signal_of lookup
  signal_of-IsSilent n [] h = refl
  signal_of-IsSilent n ((m, v) ∷ d) (e, h) = elim (Bool-cases (same_name m n)) [
    | inl y ↦ rw (signal_of, lookup, y) e
    | inr z ↦ rw (signal_of, lookup, z) (signal_of-IsSilent n d h)
  ]

module _ {F : Type 0} ⦃fl : Float F⦄ ⦃np : Numpy F⦄ (ordered : IsOrdered F) (law : IsClip F) where
  pub combine-IsCommand :
      (signal manual : Dict String F) → All (λ e. IsCommand e.1) (combine signal manual)
  unfolding combine
  combine-IsCommand signal [] = tt
  combine-IsCommand signal ((n, v) ∷ manual) =
      let whole = ordered.le_trans minus_unit nought unit ordered.lit_units.0 ordered.lit_units.1 in
      (
        law.bounds (fl.add v (signal_of n signal)) minus_unit unit whole,
        combine-IsCommand signal manual,
      )

  combine-IsSilent :
      (signal manual : Dict String F)
      → IsSilent signal
      → IsSilent manual
      → IsSilent (combine signal manual)
  unfolding combine
  combine-IsSilent signal [] h k = tt
  combine-IsSilent signal ((n, v) ∷ manual) h (e, k) =
      let sum : fl.add v (signal_of n signal) ≡ nought =
        ap (λ x. fl.add x (signal_of n signal)) e
        ∙ (ap (fl.add nought) (signal_of-IsSilent n signal h) ∙ law.add_zero) in
      let kept = law.inside nought minus_unit unit ordered.lit_units.0 ordered.lit_units.1 in
      (ap (λ x. np.clip x minus_unit unit) sum ∙ kept, combine-IsSilent signal manual h k)

module _ {F G : Type 0} ⦃fl : Float F⦄ ⦃np : Numpy F⦄ ⦃rn : Random F G⦄ where
  -- Of a disabled generator: it stays so, and every signal is zero.
  abbrev IsOff : Dict String F × Generator F G → Type 0
  IsOff (signal, g) = IsSilent signal × (g.enabled ≡ false)

  get_signal-off :
      (j : Joint) (t : F) (g : Generator F G) → g.enabled ≡ false → get_signal j t g ≡ (nought, g)
  unfolding get_signal
  get_signal-off j t g h = rw (get_signal, h) refl

  pub get_signals-IsOff :
      (js : List Joint) (t : F) (g : Generator F G) → g.enabled ≡ false → IsOff (get_signals js t g)
  unfolding get_signals
  get_signals-IsOff [] t g h = (tt, h)
  get_signals-IsOff (j ∷ js) t g h =
      let off = get_signal-off j t g h in
      let (rest, still) = get_signals-IsOff js t g h in
      subst (λ p. IsOff ((name_of j, p.0) ∷ (get_signals js t p.1).0, (get_signals js t p.1).1))
        (sym off) ((refl, rest), still)

  get_all_of-IsOff :
      (w : Waveform F) (t : F) (g : Generator F G) → g.enabled ≡ false → IsOff (get_all_of w t g)
  unfolding get_all_of get_all_stroke forget_time zeros
  get_all_of-IsOff sine t g h =
      subst (λ b. IsOff (get_signals all_joints t (if b then advance_noise t g else g))) (sym h)
        (get_signals-IsOff all_joints t g h)
  get_all_of-IsOff (chirp w) t g h = get_signals-IsOff all_joints t g h
  get_all_of-IsOff (stroke w k) t g h = elim g.angles as (λ q. IsOff (get_all_stroke k q t g)) [
    | none ↦ ((refl, (refl, (refl, (refl, tt)))), h)
    | some q ↦
        let on = get_signals all_joints t (advance k q t g) in
        subst (λ b. IsOff (if b then on else (zeros all_joints, forget_time g))) (sym h)
          ((refl, (refl, (refl, (refl, tt)))), h)
  ]

  -- What the operator may rely on: the commands are within [-1, 1] or NaN, and those of a stale input
  -- are zero, with the excitation off.
  abbrev pub IsGuarded : Bool → DriveCommands F G → Type 0
  IsGuarded false c = All (λ e. IsCommand e.1) c.combined
  IsGuarded true c =
      (IsSilent c.manual × (IsSilent c.signal × IsSilent c.combined))
      × (c.excitation.enabled ≡ false)

  -- Whatever the sticks, the waveform and its state are: the commands that go out are within [-1, 1]
  -- or NaN; and where the input is stale, the manual commands, the signal and the commands are all
  -- zero and the excitation is off.
  pub build_drive_commands-IsGuarded :
      (ordered : IsOrdered F) (law : IsClip F) (manual : Dict String F) (g : Generator F G) (t : F)
      (cmd_stale : Bool)
      → IsGuarded cmd_stale (build_drive_commands manual g t cmd_stale)
  unfolding build_drive_commands disable get_all
  build_drive_commands-IsGuarded ordered law manual g t false =
      combine-IsCommand ordered law (get_all t g).0 (merge (zeros all_joints) manual)
  build_drive_commands-IsGuarded ordered law manual g t true =
      let off = record g { enabled = false } in
      let quiet = silence-IsSilent (merge (zeros all_joints) manual) in
      let (signal, still) = get_all_of-IsOff g.waveform t off refl in
      ((quiet, (signal, combine-IsSilent ordered law (get_all t off).0 _ signal quiet)), still)
