-- ===== src/Drive/Sampling.antt =====
-- reference/simple_drive.py: a sample of the excitation, `get_all`, with the references of the stroke
-- waveform, and `build_drive_commands`, which adds it to what the operator commands.
use kaivuriprokkis.Prelude.{
  ◌+◌, Bool, true, false, not, ◌&&◌, Option, none, some, List, [], ◌∷◌, if◌then◌else◌,
}
use kaivuriprokkis.Prelude.Int.{pos}
use kaivuriprokkis.Prelude.Dict.{Dict, lookup, insert}
use kaivuriprokkis.Float.{Float, nought, unit, minus_unit, py_min, py_max}
use kaivuriprokkis.Drive.Numeric.{Numpy, Random}
use kaivuriprokkis.Drive.Generator.{
  Joint, name_of, at_joint_set, Strokes, Stroke, Waveform, sine, chirp, stroke, Generator,
  target_joints, disable,
}
use kaivuriprokkis.Drive.Signal.{all_joints, is_stroked, advance_noise, get_signals}
use Prim.Native.String.{String}
use text.Mathlib.Text.{◌==◌ as same_name}

pub record DriveCommands (F G : Type 0) : Type 0 where
  pub manual : Dict String F
  pub signal : Dict String F
  pub combined : Dict String F
  pub excitation : Generator F G

module _ {F : Type 0} ⦃fl : Float F⦄ where
  -- if not lo <= x <= hi: the negation
  unfoldable pub is_within : F → F → F → Bool
  is_within lo hi x = fl.le lo x && fl.le x hi

  -- min(max(x, lo), hi)
  unfoldable pub confined : F → F → F → F
  unfolding py_min py_max
  confined lo hi x = py_min (py_max x lo) hi

  unfoldable pub interval_of : Option F → F → F
  unfolding py_min py_max
  interval_of none t = nought
  interval_of (some last) t = py_min (py_max (fl.sub t last) nought) (fl.lit (pos 1) 1)

  abbrev pub or_confined : Option F → F → F → F → F
  or_confined none lo hi q = confined lo hi q
  or_confined (some r) lo hi q = r

  -- The reference of a joint after dt, bounced at the ends of lo..hi.
  unfoldable pub move_ref : Stroke F → F → F → F → F → Joint → Strokes F → Strokes F
  unfolding is_within confined
  move_ref k dt lo hi q j s =
      let span = fl.mul (s.direction j) (fl.sub hi lo) in
      let ref = fl.add (or_confined (s.ref j) lo hi q) (fl.mul (fl.div span k.stroke_s) dt) in
      if is_within lo hi ref then record s { ref = at_joint_set j (some ref) s.ref } else record s {
        ref = at_joint_set j (some (confined lo hi ref)) s.ref;
        direction = at_joint_set j (fl.mul (s.direction j) minus_unit) s.direction;
        strokes = at_joint_set j (s.strokes j + 1) s.strokes;
      }

  abbrev pub low_of : Stroke F → Joint → F
  low_of k j = fl.add (k.limits j).0 k.margin_deg

  abbrev pub high_of : Stroke F → Joint → F
  high_of k j = fl.sub (k.limits j).1 k.margin_deg

  -- The loop of `_advance`, and whether it went over all the joints: a joint outside its limits
  -- ends it.
  unfoldable pub advance_joints :
      Stroke F → F → (Joint → F) → List Joint → Strokes F → Strokes F × Bool
  unfolding is_within move_ref
  advance_joints k dt q [] s = (s, true)
  advance_joints k dt q (j ∷ js) s =
      let skipped = advance_joints k dt q js s in
      let moved = advance_joints k dt q js (move_ref k dt (low_of k j) (high_of k j) (q j) j s) in
      if not (is_stroked j)
      then skipped
      else if is_within (k.limits j).0 (k.limits j).1 (q j)
      then moved
      else (s, false)

  unfoldable pub zeros : List Joint → Dict String F
  zeros [] = []
  zeros (j ∷ js) = (name_of j, nought) ∷ zeros js

  -- {**d, **more}
  unfoldable pub merge : Dict String F → Dict String F → Dict String F
  unfolding insert
  merge d [] = d
  merge d ((name, v) ∷ more) = merge (insert same_name name v d) more

  unfoldable pub silence : Dict String F → Dict String F
  silence [] = []
  silence ((name, v) ∷ d) = (name, nought) ∷ silence d

  unfoldable pub signal_of : String → Dict String F → F
  unfolding lookup
  signal_of name signal = elim (lookup same_name name signal) [ none ↦ nought | some v ↦ v ]

module _ {F : Type 0} ⦃fl : Float F⦄ ⦃np : Numpy F⦄ where
  unfoldable pub combine : Dict String F → Dict String F → Dict String F
  unfolding signal_of
  combine signal [] = []
  combine signal ((name, v) ∷ manual) =
      (name, np.clip (fl.add v (signal_of name signal)) minus_unit unit) ∷ combine signal manual

module _ {F G : Type 0} ⦃fl : Float F⦄ where
  abbrev with_strokes : Strokes F → Generator F G → Generator F G
  with_strokes s g = let b = g.block in record g { block = record b { stroking = s } }

  unfoldable pub advance : Stroke F → (Joint → F) → F → Generator F G → Generator F G
  unfolding interval_of advance_joints disable target_joints
  advance k q t g =
      let s = g.block.stroking in
      let dt = interval_of s.last_t t in
      let (s', ok) = advance_joints k dt q (target_joints g) (record s { last_t = some t }) in
      let g' = with_strokes s' g in if ok then g' else disable g'

  -- self._last_t = None
  unfoldable pub forget_time : Generator F G → Generator F G
  forget_time g = let s = g.block.stroking in with_strokes (record s { last_t = none }) g

module _ {F G : Type 0} ⦃fl : Float F⦄ ⦃np : Numpy F⦄ ⦃rn : Random F G⦄ where
  unfoldable pub get_all_stroke :
      Stroke F → Option (Joint → F) → F → Generator F G → Dict String F × Generator F G
  unfolding advance zeros forget_time get_signals
  get_all_stroke k none t g = (zeros all_joints, forget_time g)
  get_all_stroke k (some q) t g =
      if g.enabled
      then get_signals all_joints t (advance k q t g)
      else (zeros all_joints, forget_time g)

  unfoldable pub get_all_of : Waveform F → F → Generator F G → Dict String F × Generator F G
  unfolding advance_noise get_signals get_all_stroke
  get_all_of sine t g = get_signals all_joints t (if g.enabled then advance_noise t g else g)
  get_all_of (chirp w) t g = get_signals all_joints t g
  get_all_of (stroke w k) t g = get_all_stroke k g.angles t g

  unfoldable pub get_all : F → Generator F G → Dict String F × Generator F G
  unfolding get_all_of
  get_all t g = get_all_of g.waveform t g

  unfoldable pub build_drive_commands : Dict String F → Generator F G → F → Bool → DriveCommands F G
  unfolding merge silence disable get_all combine zeros
  build_drive_commands commanded g t cmd_stale =
      let whole = merge (zeros all_joints) commanded in
      let manual = if cmd_stale then silence whole else whole in
      let (signal, g') = get_all t (if cmd_stale then disable g else g) in
      record { manual = manual; signal = signal; combined = combine signal manual; excitation = g' }
