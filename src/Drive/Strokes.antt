-- ===== src/Drive/Strokes.antt =====
-- The references of the stroke waveform stay within the stroke.
use kaivuriprokkis.Prelude.{
  if_either, ◌≡◌, ◌≢◌, sym, Bool, true, false, not, Option, some, List, [], ◌∷◌, All, arith,
  Bool-cases, inl, inr, if◌then◌else◌,
}
use mathlib.Core.Path.{subst}
use kaivuriprokkis.Float.{Float, ◌≼◌, IsOrdered, py_min, py_max}
use kaivuriprokkis.Drive.Generator.{Joint, same_joint, at_joint_set, Strokes, Stroke}
use kaivuriprokkis.Drive.Signal.{is_stroked}
use kaivuriprokkis.Drive.Sampling.{
  is_within, confined, or_confined, move_ref, low_of, high_of, advance_joints,
}

pub false≢true : false ≢ true
false≢true e = cc

same_joint-eq : (i j : Joint) → same_joint i j ≡ true → i ≡ j
same_joint-eq i j h = ground arith

module _ {F : Type 0} ⦃fl : Float F⦄ where
  -- The margins leave room between the limits.
  abbrev pub HasRoom : Stroke F → Type 0
  HasRoom k = (j : Joint) → low_of k j ≼ high_of k j

  -- A reference, unless it is NaN, is within the limits less the margin.
  abbrev pub AreInStroke : Stroke F → (Joint → Option F) → Type 0
  AreInStroke k ref =
      (j : Joint) (r : F) → ref j ≡ some r → r ≼ r → (low_of k j ≼ r) × (r ≼ high_of k j)

  -- The angles of the joints that the waveform drives are within the limits.
  abbrev pub AreInside : Stroke F → (Joint → F) → List Joint → Type 0
  AreInside k q js =
      All (λ j. is_stroked j ≡ true → ((k.limits j).0 ≼ q j) × (q j ≼ (k.limits j).1)) js

no_both {ℓ} : {A : Type ℓ} (b : Bool) → b ≡ true → not b ≡ true → A
no_both true h k = absurd (false≢true k)
no_both false h k = absurd (false≢true h)

module _ {F : Type 0} ⦃fl : Float F⦄ (laws : IsOrdered F) where
  confined_bounds :
      (lo hi x : F)
      → lo ≼ hi
      → confined lo hi x ≼ confined lo hi x
      → (lo ≼ confined lo hi x) × (confined lo hi x ≼ hi)
  unfolding confined py_min py_max
  confined_bounds lo hi x h = ground (
    arith,
    laws.num_left lo hi h,
    laws.num_right lo hi h,
    laws.le_of_not_lt x lo,
    laws.le_of_not_lt hi x,
  )

  within-le : (lo hi x : F) → is_within lo hi x ≡ true → (lo ≼ x) × (x ≼ hi)
  unfolding is_within
  within-le lo hi x h = ground (arith, h)

  put-AreInStroke :
      (k : Stroke F) (j : Joint) (x : F) (ref : Joint → Option F)
      → AreInStroke k ref
      → (x ≼ x → (low_of k j ≼ x) × (x ≼ high_of k j))
      → AreInStroke k (at_joint_set j (some x) ref)
  put-AreInStroke k j x ref h p i r e n = elim (Bool-cases (same_joint i j)) [
    | inl y ↦
        let there : some x ≡ some r = subst (λ b. (if b then some x else ref i) ≡ some r) y e in
        let here : x ≡ r = cc in
        subst (λ l. (low_of k l ≼ r) × (r ≼ high_of k l)) (sym (same_joint-eq i j y))
          (subst (λ v. v ≼ v → (low_of k j ≼ v) × (v ≼ high_of k j)) here p n)
    | inr z ↦ h i r (subst (λ b. (if b then some x else ref i) ≡ some r) z e) n
  ]

  move_ref-AreInStroke :
      (k : Stroke F)
      → HasRoom k
      → (dt q : F) (j : Joint) (s : Strokes F) → AreInStroke k s.ref
      → AreInStroke k (move_ref k dt (low_of k j) (high_of k j) q j s).ref
  unfolding move_ref
  move_ref-AreInStroke k room dt q j s h =
      let lo = low_of k j in
      let hi = high_of k j in
      let span = fl.mul (s.direction j) (fl.sub hi lo) in
      let x = fl.add (or_confined (s.ref j) lo hi q) (fl.mul (fl.div span k.stroke_s) dt) in
      let inner = put-AreInStroke k j x s.ref h in
      let outer =
        put-AreInStroke k j (confined lo hi x) s.ref h (confined_bounds lo hi x (room j)) in
      if_either (λ (s : Strokes F). AreInStroke k s.ref) (is_within lo hi x) _ _
        (λ y. inner (λ n. within-le lo hi x y)) outer

  pub advance_joints-AreInStroke :
      (k : Stroke F)
      → HasRoom k
      → (dt : F) (q : Joint → F) (js : List Joint) (s : Strokes F) → AreInStroke k s.ref
      → AreInStroke k (advance_joints k dt q js s).0.ref
  unfolding advance_joints
  advance_joints-AreInStroke k room dt q [] s h = h
  advance_joints-AreInStroke k room dt q (j ∷ js) s h =
      let moved = move_ref k dt (low_of k j) (high_of k j) (q j) j s in
      let went = move_ref-AreInStroke k room dt (q j) j s h in
      if_either (λ (p : Strokes F × Bool). AreInStroke k p.0.ref) (not (is_stroked j)) _ _
        (λ y. advance_joints-AreInStroke k room dt q js s h)
        (if_either (λ (p : Strokes F × Bool). AreInStroke k p.0.ref)
          (is_within (k.limits j).0 (k.limits j).1 (q j)) _ _
          (λ y. advance_joints-AreInStroke k room dt q js moved went) h)

  -- Where the loop went over all the joints, those that it drives were within their limits.
  pub advance_joints-inside :
      (k : Stroke F) (dt : F) (q : Joint → F) (js : List Joint) (s : Strokes F)
      → (advance_joints k dt q js s).1 ≡ true
      → AreInside k q js
  unfolding advance_joints
  advance_joints-inside k dt q [] s h = tt
  advance_joints-inside k dt q (j ∷ js) s h =
      let lo = (k.limits j).0 in
      let hi = (k.limits j).1 in
      let moved = move_ref k dt (low_of k j) (high_of k j) (q j) j s in
      if_either Inside (not (is_stroked j)) _ _
        (λ y e. ((λ z. no_both (is_stroked j) z y), advance_joints-inside k dt q js s e))
        (if_either Inside (is_within lo hi (q j)) _ _
          (λ y e. ((λ z. within-le lo hi (q j) y), advance_joints-inside k dt q js moved e))
          (λ e. absurd (false≢true e)))
        h
    where
      Inside : Strokes F × Bool → Type 0
      Inside p = p.1 ≡ true → AreInside k q (j ∷ js)
