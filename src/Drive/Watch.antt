-- ===== src/Drive/Watch.antt =====
-- The stroke waveform watches the angles: its references stay within the stroke, and an angle out of
-- its limits ends the excitation.
use kaivuriprokkis.Prelude.{
  if_either, ℕ, ◌≡◌, ◌≢◌, refl, sym, ap, ◌∙◌, true, Option, none, some, List, [], ◌∷◌, Bool-cases,
  ◌⊎◌, inl, inr,
}
use mathlib.Core.Path.{subst}
use kaivuriprokkis.Prelude.Int.{ℤ, pos}
use kaivuriprokkis.Prelude.Dict.{Dict}
use kaivuriprokkis.Float.{Float, IsOrdered}
use Prim.Native.String.{String}
use kaivuriprokkis.Drive.Numeric.{Numpy, Random}
use kaivuriprokkis.Drive.Generator.{
  Joint, Stroke, Sweep, stroke, Generator, target_joints, disable, observe,
}
use kaivuriprokkis.Drive.Draw.{toggle, step_target, randomize, reseed, draw_block, seed_of}
use kaivuriprokkis.Drive.Combined.{IsSilent, get_signals-IsOff}
use kaivuriprokkis.Drive.Signal.{all_joints, elapsed, begun_at, get_signal, get_signals}
use kaivuriprokkis.Drive.Sampling.{
  interval_of, advance, forget_time, zeros, get_all_stroke, get_all_of, get_all,
}
use kaivuriprokkis.Drive.Strokes.{
  HasRoom, AreInStroke, AreInside, advance_joints-AreInStroke, advance_joints-inside, false≢true,
}

-- Whatever is called of a generator.
pub data GeneratorCall (F : Type 0) : Type 0 where
  observed : Option (Joint → F) → GeneratorCall F
  sampled : F → GeneratorCall F
  toggled disabled : GeneratorCall F
  stepped : ℤ → GeneratorCall F
  reseeded : Option ℤ → ℕ → GeneratorCall F

pub none≢some {ℓ} : {A : Type ℓ} {a : A} → none ≢ some a
none≢some e = cc

abbrev or_same {ℓ} : {A : Type ℓ} → A → Option A → A
or_same a none = a
or_same a (some b) = b

-- A generator with its start set anew.
abbrev begun : {F G : Type 0} → Option F → Generator F G → Generator F G
begun o g = let b = g.block in record g { block = record b { start_time = o } }

module _ {F : Type 0} ⦃fl : Float F⦄ where
  fresh_AreInStroke : (k : Stroke F) → AreInStroke k λ j. none
  fresh_AreInStroke k j r e n = absurd (none≢some e)

module _ {F G : Type 0} ⦃fl : Float F⦄ ⦃np : Numpy F⦄ ⦃rn : Random F G⦄ where
  elapsed-kept : (t : F) (g : Generator F G) → (o : Option F) × ((elapsed t g).1 ≡ begun o g)
  unfolding elapsed
  elapsed-kept t g =
      let b = g.block in
      elim b.start_time
        as (λ st. (o : Option F) × (record g { block = begun_at st t b } ≡ begun o g)) [
          | none ↦ (some t, refl)
          | some t0 ↦ (b.start_time, refl)
        ]

  get_signal-kept :
      (j : Joint) (t : F) (g : Generator F G) → (o : Option F) × ((get_signal j t g).1 ≡ begun o g)
  unfolding get_signal
  get_signal-kept j t g =
      if_either (λ (p : F × Generator F G). (o : Option F) × (p.1 ≡ begun o g)) _ _ _
        (λ y. elapsed-kept t g) (g.block.start_time, refl)

  get_signals-kept :
      (js : List Joint) (t : F) (g : Generator F G)
      → (o : Option F) × ((get_signals js t g).1 ≡ begun o g)
  unfolding get_signals
  get_signals-kept [] t g = (g.block.start_time, refl)
  get_signals-kept (j ∷ js) t g =
      let (o, one) = get_signal-kept j t g in
      let (p, rest) = get_signals-kept js t (begun o g) in
      (p, ap (λ h. (get_signals js t h).1) one ∙ rest)

  -- The settings of a stroke generator stay, and its references are within the stroke.
  abbrev pub IsStroke : Sweep F → Stroke F → Generator F G → Type 0
  IsStroke w k g = (g.waveform ≡ stroke w k) × AreInStroke k g.block.stroking.ref

  get_signals-IsStroke :
      (w : Sweep F) (k : Stroke F) (js : List Joint) (t : F) (g : Generator F G)
      → IsStroke w k g
      → IsStroke w k (get_signals js t g).1
  get_signals-IsStroke w k js t g h = subst (IsStroke w k) (sym (get_signals-kept js t g).1) h

  advance-IsStroke :
      IsOrdered F
      → (w : Sweep F) (k : Stroke F) → HasRoom k
      → (q : Joint → F) (t : F) (g : Generator F G) → IsStroke w k g
      → IsStroke w k (advance k q t g)
  unfolding advance disable
  advance-IsStroke laws w k room q t g h =
      let s = g.block.stroking in
      let after =
        advance_joints-AreInStroke laws k room (interval_of s.last_t t) q (target_joints g)
          (record s { last_t = some t }) h.1 in
      if_either (IsStroke w k) _ _ _ (λ y. (h.0, after)) (h.0, after)

  get_all_stroke-IsStroke :
      IsOrdered F
      → (w : Sweep F) (k : Stroke F) → HasRoom k
      → (angles : Option (Joint → F)) (t : F) (g : Generator F G) → IsStroke w k g
      → IsStroke w k (get_all_stroke k angles t g).1
  unfolding get_all_stroke forget_time
  get_all_stroke-IsStroke laws w k room none t g h = h
  get_all_stroke-IsStroke laws w k room (some q) t g h =
      let went = advance-IsStroke laws w k room q t g h in
      if_either (λ (p : List (String × F) × Generator F G). IsStroke w k p.1) g.enabled _ _
        (λ y. get_signals-IsStroke w k all_joints t (advance k q t g) went) h

  -- The signal is zero, or the angles are known and those of the driven joints within their limits.
  abbrev pub IsWatched : Stroke F → Generator F G → Dict String F × Generator F G → Type 0
  IsWatched k g (signal, after) =
      IsSilent signal
      ⊎ ((after.enabled ≡ true)
          × ((q : Joint → F) × ((g.angles ≡ some q) × AreInside k q (target_joints g))))

  advance-enabled :
      (k : Stroke F) (q : Joint → F) (t : F) (g : Generator F G)
      → IsOrdered F
      → (advance k q t g).enabled ≡ true
      → AreInside k q (target_joints g)
  unfolding advance disable
  advance-enabled k q t g laws =
      let s = g.block.stroking in
      if_either (λ (h : Generator F G). h.enabled ≡ true → AreInside k q (target_joints g)) _ _ _
        (λ y e.
          advance_joints-inside laws k (interval_of s.last_t t) q (target_joints g)
            (record s { last_t = some t }) y)
        (λ e. absurd (false≢true e))

  get_all_stroke-IsWatched :
      (k : Stroke F) (angles : Option (Joint → F)) (t : F) (g : Generator F G)
      → IsOrdered F
      → g.angles ≡ angles
      → IsWatched k g (get_all_stroke k angles t g)
  unfolding get_all_stroke zeros
  get_all_stroke-IsWatched k none t g laws a = inl (refl, (refl, (refl, (refl, tt))))
  get_all_stroke-IsWatched k (some q) t g laws a =
      let after = advance k q t g in
      if_either (IsWatched k g) g.enabled _ _
        (λ y. elim (Bool-cases after.enabled) [
          | inl on ↦
              let (o, kept) = get_signals-kept all_joints t after in
              inr (ap (λ h. h.enabled) kept ∙ on, (q, (a, advance-enabled k q t g laws on)))
          | inr off ↦ inl (get_signals-IsOff all_joints t after off).0
        ])
        (inl (refl, (refl, (refl, (refl, tt)))))

  unfoldable generator_call : GeneratorCall F → Generator F G → Generator F G
  unfolding observe get_all toggle disable step_target reseed
  generator_call (observed angles) g = observe angles g
  generator_call (sampled t) g = (get_all t g).1
  generator_call toggled g = toggle g
  generator_call disabled g = disable g
  generator_call (stepped direction) g = step_target direction g
  generator_call (reseeded seed entropy) g = or_same g (reseed seed entropy g)

  unfoldable pub generator_calls : List (GeneratorCall F) → Generator F G → Generator F G
  unfolding generator_call
  generator_calls [] g = g
  generator_calls (c ∷ cs) g = generator_calls cs (generator_call c g)

  generator_call-IsStroke :
      IsOrdered F
      → (w : Sweep F) (k : Stroke F) → HasRoom k
      → (c : GeneratorCall F) (g : Generator F G) → IsStroke w k g
      → IsStroke w k (generator_call c g)
  unfolding generator_call observe get_all toggle disable step_target reseed randomize draw_block
      get_all_of
  generator_call-IsStroke laws w k room (observed angles) g h =
      if_either (IsStroke w k) _ _ _ (λ y. h) h
  generator_call-IsStroke laws w k room (sampled t) g h =
      subst (λ v. IsStroke w k (get_all_of v t g).1) (sym h.0)
        (get_all_stroke-IsStroke laws w k room g.angles t g h)
  generator_call-IsStroke laws w k room toggled g h =
      if_either (IsStroke w k) g.enabled _ _ (λ y. h) (h.0, fresh_AreInStroke k)
  generator_call-IsStroke laws w k room disabled g h = h
  generator_call-IsStroke laws w k room (stepped direction) g (h, _) = (h, fresh_AreInStroke k)
  generator_call-IsStroke laws w k room (reseeded seed entropy) g h =
      elim (seed_of seed entropy)
        as (λ o. IsStroke w k (
          or_same g (elim o [
            | none ↦ none
            | some n ↦
                some (record g { seed = n; block = draw_block g.waveform g.amplitude n (pos 0) })
          ]))) [ none ↦ h | some n ↦ (h.0, fresh_AreInStroke k) ]

  -- In any sequence of calls of a stroke generator whose margins leave room between the limits and
  -- whose references are within the stroke (a new one has none): every reference stays within the
  -- limits less the margin, or is NaN; and each sample, from there on, gives only zeros, or leaves the
  -- excitation on, had the angles, and had those of all the driven target joints within their limits.
  pub generator_calls-IsStroke :
      (laws : IsOrdered F) (w : Sweep F) (k : Stroke F) (room : HasRoom k)
      (cs : List (GeneratorCall F)) (g : Generator F G)
      → IsStroke w k g
      → IsStroke w k (generator_calls cs g)
        × ((t : F) → IsWatched k (generator_calls cs g) (get_all t (generator_calls cs g)))
  unfolding generator_calls get_all get_all_of
  generator_calls-IsStroke laws w k room [] g h = (
    h,
    λ t.
        subst (λ v. IsWatched k g (get_all_of v t g)) (sym h.0)
          (get_all_stroke-IsWatched k g.angles t g laws refl),
  )
  generator_calls-IsStroke laws w k room (c ∷ cs) g h =
      generator_calls-IsStroke laws w k room cs (generator_call c g)
        (generator_call-IsStroke laws w k room c g h)
