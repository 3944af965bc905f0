-- ===== src/Drive/Aimed.antt =====
-- The options that the command line accepts make a generator.
use kaivuriprokkis.Prelude.{
  ℕ, suc, ◌≡◌, refl, sym, ap, ◌∙◌, Bool, true, false, not, ◌&&◌, ◌||◌, Option, none, some, List, [],
  ◌∷◌, ◌++◌, get_or, Bool-cases, inl, inr, arith, if◌then◌else◌,
}
use mathlib.Core.Path.{subst}
use kaivuriprokkis.Prelude.Int.{ℤ, pos, negsuc}
use kaivuriprokkis.Float.{Float}
use kaivuriprokkis.Recording.DriveLog.Recorded.{equal_texts}
use kaivuriprokkis.Drive.Numeric.{Numpy, Random}
use kaivuriprokkis.Drive.Generator.{
  Joint, slew, TargetMode, sine_modes, sine_target_modes, Waveform, sine, chirp, stroke, Generator,
  target_name,
}
use kaivuriprokkis.Drive.Draw.{seed_of, draw_block}
use kaivuriprokkis.Drive.Strokes.{false≢true}
use kaivuriprokkis.Drive.Options.{
  Excitation, with_sine, with_chirp, with_stroke, Args, given, is_choice, index_name, after,
  is_seed, is_amplitude, timing_of, are_hertz, is_duration, is_positive_finite, accepts,
  is_stroke_kind, fresh_generator, first_block, sweep_of, is_sweep, have_span, stroke_of,
  is_control, make_generator, make_chirp, make_stroke, aim_at, aimed, make_kind, make_excitation,
}
use Prim.Native.String.{String}
use text.Mathlib.Text.{◌==◌ as same_name}

later : (a b : Bool) → a ≡ false → (a || b) ≡ true → b ≡ true
later true b n h = absurd (false≢true (sym n))
later false b n h = h

-- A name is at its index.
index_name-found :
    (t : String) (ms : List TargetMode)
    → is_choice t ms ≡ true
    → (i : ℕ) × ((index_name t ms ≡ some i) × ((get_or ms i ("", [])).0 ≡ t))
unfolding is_choice index_name
index_name-found t [] h = absurd (false≢true h)
index_name-found t (m ∷ ms) h = elim (Bool-cases (same_name m.0 t)) [
  | inl y ↦ (0, (ap (λ b. if b then some 0 else after (index_name t ms)) y, equal_texts m.0 t y))
  | inr n ↦
      let (i, (e, there)) = index_name-found t ms (later (same_name m.0 t) (is_choice t ms) n h) in
      (suc i, (ap (λ b. if b then some 0 else after (index_name t ms)) n ∙ ap after e, there))
]

without_last :
    (t : String) (ms : List TargetMode) (m : TargetMode)
    → is_choice t (ms ++ (m ∷ [])) ≡ true
    → same_name m.0 t ≡ false
    → is_choice t ms ≡ true
unfolding is_choice
without_last t [] m h n = later (same_name m.0 t) false n h
without_last t (k ∷ ms) m h n = elim (Bool-cases (same_name k.0 t)) [
  | inl y ↦ ap (λ b. b || is_choice t ms) y
  | inr z ↦
      ap (λ b. b || is_choice t ms) z
      ∙ without_last t ms m (later (same_name k.0 t) (is_choice t (ms ++ (m ∷ []))) z h) n
]

-- The target of an accepted command line is in the cycle of this run.
target-is_choice :
    (t : String) (enable_slew : Bool)
    → is_choice t (sine_target_modes true) ≡ true
    → (same_name "slew" t && not enable_slew) ≡ false
    → is_choice t (sine_target_modes enable_slew) ≡ true
unfolding sine_target_modes
target-is_choice t true h n = h
target-is_choice t false h n =
    without_last t sine_modes ("slew", slew ∷ []) h (no_slew (same_name "slew" t) n)
  where
    no_slew : (b : Bool) → (b && true) ≡ false → b ≡ false
    no_slew true n = n
    no_slew false n = n

seed_of-is_seed :
    (seed : Option ℤ) (entropy : ℕ)
    → is_seed seed ≡ true
    → (n : ℕ) × (seed_of seed entropy ≡ some n)
unfolding is_seed seed_of
seed_of-is_seed none entropy h = (_, refl)
seed_of-is_seed (some (pos n)) entropy h = (n, ap (λ b. if b then some n else none) h)
seed_of-is_seed (some (negsuc n)) entropy h = absurd (false≢true h)

module _ {F G : Type 0} ⦃fl : Float F⦄ ⦃np : Numpy F⦄ ⦃rn : Random F G⦄ where
  -- A generator that starts off, at its first block, aimed at the target.
  abbrev pub IsReady : String → Option (Generator F G) → Type 0
  IsReady t o =
      (g : Generator F G) × ((o ≡ some g)
        × ((target_name g ≡ t) × ((g.enabled ≡ false) × (g.block.block_id ≡ pos 0))))

  aimed-IsReady :
      (w : Waveform F) (enable_slew : Bool) (amplitude : Option F) (seed : Option ℤ) (entropy : ℕ)
      (t : String)
      → is_amplitude amplitude ≡ true
      → is_seed seed ≡ true
      → is_choice t (sine_target_modes enable_slew) ≡ true
      → IsReady t (aimed t (make_generator w enable_slew amplitude seed entropy))
  unfolding make_generator target_name draw_block
  aimed-IsReady w enable_slew amplitude seed entropy t a s c =
      let (n, e) = seed_of-is_seed seed entropy s in
      let (i, (found, there)) = index_name-found t (sine_target_modes enable_slew) c in
      subst
        (λ b. IsReady t (
          aimed t (if b then first_block w enable_slew amplitude (seed_of seed entropy) else none)))
        (sym a)
        (subst (λ o. IsReady t (aimed t (first_block w enable_slew amplitude o))) (sym e)
          (subst (λ o. IsReady t (aim_at o (fresh_generator w enable_slew amplitude n))) (sym found)
            (
              record (fresh_generator w enable_slew amplitude n) { target_idx = i },
              (refl, (there, (refl, refl))),
            )))

is_false : (b : Bool) → not b ≡ true → b ≡ false
is_false b h = ground arith

both_hold : (a b : Bool) → a ≡ true → b ≡ true → (a && b) ≡ true
both_hold a b h k = ground arith

right_unit : (b : Bool) → b ≡ false → (b && true) ≡ false
right_unit b h = ground arith

all_four : (a b c d : Bool) → a ≡ true → b ≡ true → c ≡ true → d ≡ true → (a && b && c && d) ≡ true
all_four a b c d h k l m = ground arith

conjuncts :
    (a b c d e f g h : Bool)
    → (a && b && c && d && e && f && g && h) ≡ true
    → ((((a ≡ true) × (b ≡ true)) × ((c ≡ true) × (d ≡ true)))
        × (((e ≡ true) × (f ≡ true)) × ((g ≡ true) × (h ≡ true))))
conjuncts a b c d e f g h k = ground arith

module _ {F : Type 0} ⦃fl : Float F⦄ ⦃np : Numpy F⦄ where
  given-is_amplitude :
      (o : Option F) (d : F)
      → is_amplitude o ≡ true
      → is_amplitude (some d) ≡ true
      → is_amplitude (some (given o d)) ≡ true
  given-is_amplitude none d h k = k
  given-is_amplitude (some a) d h k = h

  -- What a waveform needs besides: that its default amplitude is one, and for the stroke that there
  -- are limits, with room for the margins, and that its fixed settings pass their checks.
  abbrev HasNeeds : Excitation → F → Option (Joint → F × F) → Type 0
  HasNeeds with_sine margin limits = Unit
  HasNeeds with_chirp margin limits = is_amplitude (some (fl.lit (pos 35) 2)) ≡ true
  HasNeeds with_stroke margin limits =
      (is_amplitude (some (fl.lit (pos 4) 1)) ≡ true)
      × ((is_control (fl.lit (pos 5) 2) (fl.lit (pos 5) 1) ≡ true)
          × ((l : Joint → F × F) × ((limits ≡ some l) × (have_span margin l ≡ true))))

module _ {F : Type 0} ⦃fl : Float F⦄ ⦃np : Numpy F⦄ where
  -- What an accepted command line has, whichever the waveform.
  abbrev IsSound : Args F → Type 0
  IsSound a =
      ((is_choice a.excitation_target (sine_target_modes a.enable_slew) ≡ true)
        × ((is_amplitude a.excitation_amplitude ≡ true) × (is_seed a.excitation_seed ≡ true)))
      × ((is_sweep (timing_of a) ≡ true)
          × ((is_positive_finite a.stroke_seconds && is_positive_finite a.stroke_margin_deg)
              ≡ true))

  accepts-IsSound : (a : Args F) → accepts a ≡ true → IsSound a
  unfolding accepts is_sweep
  accepts-IsSound a h =
      let w = timing_of a in
      let slew = same_name "slew" a.excitation_target in
      let (((c, m), (s, z)), ((d, p), (k, n))) =
        conjuncts _ _ _ (are_hertz w.start_hz w.end_hz) (is_duration w.seconds) _ _ _ h in
      (
        (target-is_choice a.excitation_target a.enable_slew c (is_false _ n), (m, s)),
        (both_hold (are_hertz w.start_hz w.end_hz) (is_duration w.seconds) z d, p),
      )

  stroke-is_choice :
      (a : Args F)
      → accepts a ≡ true
      → a.excitation ≡ with_stroke
      → is_choice a.excitation_target (sine_target_modes false) ≡ true
  unfolding accepts
  stroke-is_choice a h e =
      let t = a.excitation_target in
      let w = timing_of a in
      let (((c, m), (s, z)), ((d, p), (k, n))) =
        conjuncts _ _ _ (are_hertz w.start_hz w.end_hz) (is_duration w.seconds) _ _ _ h in
      let off = subst (λ x. (is_stroke_kind x && same_name "slew" t) ≡ false) e (is_false _ k) in
      target-is_choice t false c (right_unit (same_name "slew" t) off)

module _ {F G : Type 0} ⦃fl : Float F⦄ ⦃np : Numpy F⦄ ⦃rn : Random F G⦄ where
  -- A guard that holds.
  guarded-IsReady :
      (b : Bool) (t : String) (o : Option (Generator F G))
      → b ≡ true
      → IsReady t (aimed t o)
      → IsReady t (aimed t (if b then o else none))
  guarded-IsReady b t o h r = subst (λ b. IsReady t (aimed t (if b then o else none))) (sym h) r

  make_kind-IsReady :
      (x : Excitation) (a : Args F) (limits : Option (Joint → F × F)) (entropy : ℕ)
      → a.excitation ≡ x
      → accepts a ≡ true
      → HasNeeds x a.stroke_margin_deg limits
      → IsReady {G = G} a.excitation_target
          (aimed a.excitation_target (make_kind x a limits entropy))
  unfolding make_chirp make_stroke
  make_kind-IsReady with_sine a limits entropy x h needs =
      let ((choice, (amplitude, seed)), rest) = accepts-IsSound a h in
      aimed-IsReady sine a.enable_slew a.excitation_amplitude a.excitation_seed entropy
        a.excitation_target amplitude seed choice
  make_kind-IsReady with_chirp a limits entropy x h needs =
      let ((choice, (amplitude, seed)), (sweep, rest)) = accepts-IsSound a h in
      guarded-IsReady (is_sweep (timing_of a)) a.excitation_target _ sweep (
        aimed-IsReady (chirp (sweep_of (timing_of a))) a.enable_slew
          (some (given a.excitation_amplitude (fl.lit (pos 35) 2))) a.excitation_seed entropy
          a.excitation_target
          (given-is_amplitude a.excitation_amplitude (fl.lit (pos 35) 2) amplitude needs) seed
          choice)
  make_kind-IsReady with_stroke a limits entropy x h (default, (control, (l, (there, span)))) =
      let ((choice, (amplitude, seed)), (sweep, positive)) = accepts-IsSound a h in
      let w = timing_of a in
      let k = stroke_of a.stroke_seconds a.stroke_margin_deg l in
      let o = given a.excitation_amplitude (fl.lit (pos 4) 1) in
      subst
        (λ m. IsReady {G = G} a.excitation_target (
          aimed a.excitation_target (
            make_stroke w a.stroke_seconds a.stroke_margin_deg m (some o) a.excitation_seed
              entropy)))
        (sym there)
        (guarded-IsReady
          (is_positive_finite a.stroke_seconds
            && is_positive_finite a.stroke_margin_deg
            && is_control (fl.lit (pos 5) 2) (fl.lit (pos 5) 1)
            && have_span a.stroke_margin_deg l
            && is_sweep w)
          a.excitation_target _
          (all_four _ _ (have_span a.stroke_margin_deg l) (is_sweep w) positive control span sweep)
          (aimed-IsReady (stroke (sweep_of w) k) false (some o) a.excitation_seed entropy
            a.excitation_target
            (given-is_amplitude a.excitation_amplitude (fl.lit (pos 4) 1) amplitude default) seed
            (stroke-is_choice a h x)))

  -- Options that the command line accepts never make `make_excitation` raise, given what their waveform
  -- needs besides: the generator is aimed at the target that was asked for, off, and at its first
  -- block, whatever seed, amplitude and timing were given or left to the defaults.
  pub make_excitation-IsReady :
      (a : Args F) (limits : Option (Joint → F × F)) (entropy : ℕ)
      → accepts a ≡ true
      → HasNeeds a.excitation a.stroke_margin_deg limits
      → IsReady {G = G} a.excitation_target (make_excitation a limits entropy)
  unfolding make_excitation
  make_excitation-IsReady a limits entropy h needs =
      make_kind-IsReady a.excitation a limits entropy refl h needs
