-- ===== src/Drive/Polls.antt =====
-- The noise runs on its own grid: polls that come earlier change nothing of what a poll gives.
use kaivuriprokkis.Prelude.{
  ℕ, zero, suc, ◌+◌, ◌-◌, ◌≤◌, ◌≡◌, refl, sym, ap, ◌∙◌, Bool, true, false, some, List, [], ◌∷◌, All,
  arith, if◌then◌else◌,
}
use mathlib.Core.Path.{subst}
use kaivuriprokkis.Float.{Float}
use kaivuriprokkis.Drive.Numeric.{Numpy, Random}
use kaivuriprokkis.Drive.Generator.{Joint, Noise, Waveform, sine, chirp, stroke, Generator}
use kaivuriprokkis.Drive.Signal.{
  all_joints, since, since_start, begun_at, elapsed, step_noise, steps, tick_at, advance_from,
  advance_noise, get_signal, get_signals,
}
use kaivuriprokkis.Drive.Sampling.{get_all, get_all_of}

module _ {F G : Type 0} ⦃fl : Float F⦄ ⦃rn : Random F G⦄ where
  steps-noise_tick :
      (k : ℕ) (c : Joint → F × (F × F)) (n : Noise F G)
      → (steps k c n).noise_tick ≡ k + n.noise_tick
  unfolding steps step_noise
  steps-noise_tick zero c n = omega arith
  steps-noise_tick (suc k) c n = omega (arith, steps-noise_tick k c (step_noise c n))

  steps-add :
      (k l m : ℕ) (c : Joint → F × (F × F)) (n : Noise F G)
      → m ≡ l + k
      → steps k c (steps l c n) ≡ steps m c n
  unfolding steps
  steps-add k zero m c n e = let same : k ≡ m = omega (arith, e) in ap (λ i. steps i c n) same
  steps-add k (suc l) zero c n e = absurd (omega (arith, e))
  steps-add k (suc l) (suc m) c n e = steps-add k l m c (step_noise c n) (omega (arith, e))

  -- Up to tick u, then up to tick v.
  steps-to :
      (u v : ℕ) (c : Joint → F × (F × F)) (n : Noise F G)
      → u ≤ v
      → steps (v - (steps (u - n.noise_tick) c n).noise_tick) c (steps (u - n.noise_tick) c n)
        ≡ steps (v - n.noise_tick) c n
  steps-to u v c n h =
      let moved = steps-noise_tick (u - n.noise_tick) c n in
      steps-add (v - (steps (u - n.noise_tick) c n).noise_tick) (u - n.noise_tick)
        (v - n.noise_tick) c n (omega (arith, moved))

abbrev IsOpenLoop : {F : Type 0} → Waveform F → Type 0
IsOpenLoop (stroke _ _) = ⊥
IsOpenLoop _ = Unit

if-kept {ℓ κ} :
    {A : Type ℓ} {B : Type κ} (b : Bool) (x y : A × B) (z : B)
    → x.1 ≡ z
    → y.1 ≡ z
    → (if b then x else y).1 ≡ z
if-kept true x y z h k = h
if-kept false x y z h k = k

module _ {F G : Type 0} ⦃fl : Float F⦄ ⦃np : Numpy F⦄ ⦃rn : Random F G⦄ where
  unfoldable pub polls : List F → Generator F G → Generator F G
  unfolding get_all
  polls [] g = g
  polls (u ∷ us) g = polls us (get_all u g).1

  -- The noise of a generator at the tick of a time, from t0 on.
  abbrev at_tick : F → F → Generator F G → Generator F G
  at_tick t0 t g =
      let b = g.block in
      let n = b.noises in
      record g {
        block = record b { noises = steps (tick_at (since t0 t) - n.noise_tick) b.coefficients n };
      }

  elapsed-kept :
      (t t0 : F) (g : Generator F G) → g.block.start_time ≡ some t0 → elapsed t g ≡ (since t0 t, g)
  unfolding elapsed
  elapsed-kept t t0 g e = ap (λ o. (since_start o t, record g { block = begun_at o t g.block })) e

  get_signal-kept :
      (j : Joint) (t t0 : F) (g : Generator F G)
      → g.block.start_time ≡ some t0
      → (get_signal j t g).1 ≡ g
  unfolding get_signal
  get_signal-kept j t t0 g e =
      if-kept _ (_, (elapsed t g).1) (_, g) g (ap (λ p. p.1) (elapsed-kept t t0 g e)) refl

  get_signals-kept :
      (js : List Joint) (t t0 : F) (g : Generator F G)
      → g.block.start_time ≡ some t0
      → (get_signals js t g).1 ≡ g
  unfolding get_signals
  get_signals-kept [] t t0 g e = refl
  get_signals-kept (j ∷ js) t t0 g e =
      let one = get_signal-kept j t t0 g e in
      ap (λ h. (get_signals js t h).1) one ∙ get_signals-kept js t t0 g e

  advance_noise-at :
      (t t0 : F) (g : Generator F G)
      → g.block.start_time ≡ some t0
      → advance_noise t g ≡ at_tick t0 t g
  unfolding advance_noise advance_from
  advance_noise-at t t0 g e = ap advance_from (elapsed-kept t t0 g e)

  -- The generator of which a poll of an enabled generator, or of another, takes its signals.
  abbrev settled : Bool → F → F → Generator F G → Generator F G
  settled true t0 t g = at_tick t0 t g
  settled false t0 t g = g

  sine-settled :
      (b : Bool) (t t0 : F) (g : Generator F G)
      → g.enabled ≡ b
      → g.block.start_time ≡ some t0
      → get_all_of sine t g ≡ get_signals all_joints t (settled b t0 t g)
  unfolding get_all_of
  sine-settled b t t0 g h e =
      ap (λ c. get_signals all_joints t (if c then advance_noise t g else g)) h
      ∙ ap (get_signals all_joints t)
          (elim b as (λ c. (if c then advance_noise t g else g) ≡ settled c t0 t g) [
            | true ↦ advance_noise-at t t0 g e
            | false ↦ refl
          ])

  settled-twice :
      (b : Bool) (u t t0 : F) (g : Generator F G)
      → tick_at (since t0 u) ≤ tick_at (since t0 t)
      → settled b t0 t (settled b t0 u g) ≡ settled b t0 t g
  settled-twice false u t t0 g k = refl
  settled-twice true u t t0 g k =
      let b = g.block in
      ap (λ n. record g { block = record b { noises = n } })
        (steps-to (tick_at (since t0 u)) (tick_at (since t0 t)) b.coefficients b.noises k)

  settled-same :
      (b : Bool) (u t0 : F) (g : Generator F G)
      → (((settled b t0 u g).enabled ≡ g.enabled)
          × ((settled b t0 u g).block.start_time ≡ g.block.start_time))
        × ((settled b t0 u g).waveform ≡ g.waveform)
  settled-same true u t0 g = ((refl, refl), refl)
  settled-same false u t0 g = ((refl, refl), refl)

  -- What holds of the generator that a poll leaves.
  abbrev IsSame : Waveform F → F → F → Generator F G → Generator F G → Type 0
  IsSame w t0 t g h =
      (get_all_of w t h ≡ get_all_of w t g)
      × ((h.block.start_time ≡ some t0) × (h.waveform ≡ g.waveform))

  -- A poll in between changes nothing of a later one.
  get_all_of-twice :
      (w : Waveform F)
      → IsOpenLoop w
      → (u t t0 : F) (g : Generator F G) → g.block.start_time ≡ some t0
      → tick_at (since t0 u) ≤ tick_at (since t0 t)
      → IsSame w t0 t g (get_all_of w u g).1
  unfolding get_all_of
  get_all_of-twice (stroke _ _) h u t t0 g e k = absurd h
  get_all_of-twice (chirp w) h u t t0 g e k =
      subst (IsSame (chirp w) t0 t g) (sym (get_signals-kept all_joints u t0 g e)) (refl, (e, refl))
  get_all_of-twice sine h u t t0 g e k =
      let b = g.enabled in
      let between = settled b t0 u g in
      let same = settled-same b u t0 g in
      let began = same.0.1 ∙ e in
      let left =
        ap (λ p. p.1) (sine-settled b u t0 g refl e)
        ∙ get_signals-kept all_joints u t0 between began in
      let later =
        sine-settled b t t0 between same.0.0 began
        ∙ (ap (get_signals all_joints t) (settled-twice b u t t0 g k)
            ∙ sym (sine-settled b t t0 g refl e)) in
      subst (IsSame sine t0 t g) (sym left) (later, (began, same.1))

  get_all-twice :
      (u t t0 : F) (g : Generator F G)
      → IsOpenLoop g.waveform
      → g.block.start_time ≡ some t0
      → tick_at (since t0 u) ≤ tick_at (since t0 t)
      → (get_all t (get_all u g).1 ≡ get_all t g)
        × (((get_all u g).1.block.start_time ≡ some t0) × ((get_all u g).1.waveform ≡ g.waveform))
  unfolding get_all
  get_all-twice u t t0 g h e k =
      let (same, (began, kept)) = get_all_of-twice g.waveform h u t t0 g e k in
      (ap (λ w. get_all_of w t (get_all_of g.waveform u g).1) kept ∙ same, (began, kept))

  -- For the sine and the chirp, once a block has started: whatever polls came before a time, none of
  -- them at a later tick of the 100 Hz grid, a poll at that time gives the same signals and leaves the
  -- same generator, its noise and its stream included, as one without them.
  pub get_all-polls :
      (us : List F) (t t0 : F) (g : Generator F G)
      → IsOpenLoop g.waveform
      → g.block.start_time ≡ some t0
      → All (λ u. tick_at (since t0 u) ≤ tick_at (since t0 t)) us
      → get_all t (polls us g) ≡ get_all t g
  unfolding polls
  get_all-polls [] t t0 g h e ahead = refl
  get_all-polls (u ∷ us) t t0 g h e (k, ahead) =
      let (same, (began, kept)) = get_all-twice u t t0 g h e k in
      get_all-polls us t t0 (get_all u g).1 (subst IsOpenLoop (sym kept) h) began ahead ∙ same
