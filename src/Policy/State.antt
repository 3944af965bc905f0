-- ===== src/Policy/State.antt =====
-- native_stack/tools/policy_runtime/history.py: `robot_state`, what a policy sees of the arm. Whether a
-- float is finite, and rounding to single precision, which a float may not fit, are parameters.
use kaivuriprokkis.Prelude.{
  arith, ◌==◌, ◌≡◌, ◌↔◌, refl, Bool, true, ◌&&◌, Option, none, some, List, [], ◌∷◌, All, length,
  ◌≢◌, ap, ◌∙◌, inl, inr, Bool-cases, if_split, if◌then◌else◌,
}
use mathlib.Core.Path.{subst}
use kaivuriprokkis.Prelude.Int.{ℤ, pos, ◌-ℤ◌, ◌≤ℤ◌, leb_ℤ}
use kaivuriprokkis.Float.{Float}

-- What a status says. A flag that is absent is false; `angles_rad` is none where it is no list.
pub record Status (F : Type 0) : Type 0 where
  pub imu_healthy : Bool
  pub fk_valid : Bool
  pub imu_host_monotonic_ns : Option ℤ
  pub angles_rad : Option (List F)

pub record RobotState (F : Type 0) : Type 0 where
  pub degrees : List F
  pub timestamp : ℤ

pub data StateError : Type 0 where
  unhealthy no_timestamp out_of_date no_angles overflow : StateError

pub data Observed (F : Type 0) : Type 0 where
  refused : StateError → Observed F
  observed : RobotState F → Observed F

unfoldable are_all {ℓ} : {A : Type ℓ} → (A → Bool) → List A → Bool
are_all p [] = true
are_all p (x ∷ xs) = p x && are_all p xs

-- 0 <= now_ns - timestamp <= max_age_ns
unfoldable pub is_current : ℤ → ℤ → ℤ → Bool
is_current now max_age timestamp =
    leb_ℤ (pos 0) (now -ℤ timestamp) && leb_ℤ (now -ℤ timestamp) max_age

module _ {F : Type 0} where
  abbrev state_of : List F → ℤ → RobotState F
  state_of degrees timestamp = record { degrees = degrees; timestamp = timestamp }

  abbrev or_state : RobotState F → Observed F → RobotState F
  or_state r (refused e) = r
  or_state r (observed q) = q

  abbrev observed_or : Option (List F) → ℤ → Observed F
  observed_or none timestamp = refused overflow
  observed_or (some degrees) timestamp = observed (state_of degrees timestamp)

  abbrev joined : Option F → Option (List F) → Option (List F)
  joined (some d) (some ds) = some (d ∷ ds)
  joined _ _ = none

  refused≢observed : (e : StateError) (r : RobotState F) → refused e ≢ observed r
  refused≢observed e r h = cc

module _ {F : Type 0} ⦃fl : Float F⦄ (single : F → Option F) (is_finite : F → Bool)
    (per_radian : F) where
  -- f32(f32(x) * f32(180 / math.pi))
  abbrev product_of : Option F → Option F → Option F
  product_of (some a) (some b) = single (fl.mul a b)
  product_of _ _ = none

  unfoldable pub to_degrees : F → Option F
  to_degrees x = product_of (single x) (single per_radian)

  unfoldable degrees_of : List F → Option (List F)
  unfolding to_degrees
  degrees_of [] = some []
  degrees_of (x ∷ xs) = joined (to_degrees x) (degrees_of xs)

  unfoldable pub are_angles : List F → Bool
  unfolding are_all
  are_angles xs = length xs == 4 && are_all is_finite xs

  unfoldable state_from : Option (List F) → ℤ → Observed F
  unfolding are_angles degrees_of
  state_from none timestamp = refused no_angles
  state_from (some xs) timestamp =
      if are_angles xs then observed_or (degrees_of xs) timestamp else refused no_angles

  unfoldable state_at : Option ℤ → ℤ → ℤ → Option (List F) → Observed F
  unfolding is_current state_from
  state_at none now max_age angles = refused no_timestamp
  state_at (some ts) now max_age angles =
      if is_current now max_age ts then state_from angles ts else refused out_of_date

  unfoldable pub robot_state : ℤ → ℤ → Status F → Observed F
  unfolding state_at
  robot_state now max_age s =
      if s.imu_healthy && s.fk_valid
      then state_at s.imu_host_monotonic_ns now max_age s.angles_rad
      else refused unhealthy

  -- As the tests take it.
  abbrev IsTaken : ℤ → ℤ → Status F → RobotState F → Type 0
  IsTaken now max_age s r =
      ((s.imu_healthy && s.fk_valid) ≡ true)
      × ((s.imu_host_monotonic_ns ≡ some r.timestamp)
          × ((is_current now max_age r.timestamp ≡ true)
              × ((xs : List F) × ((s.angles_rad ≡ some xs)
                    × ((are_angles xs ≡ true) × (degrees_of xs ≡ some r.degrees))))))

  observed_or_lem :
      (o : Option (List F)) (timestamp : ℤ) (r : RobotState F)
      → observed_or o timestamp ≡ observed r
      → (timestamp ≡ r.timestamp) × (o ≡ some r.degrees)
  observed_or_lem none timestamp r h = absurd (refused≢observed _ r h)
  observed_or_lem (some ds) timestamp r h =
      let same = ap (or_state r) h in (ap (λ q. q.timestamp) same, ap (λ q. some q.degrees) same)

  state_from-IsFit :
      (angles : Option (List F)) (timestamp : ℤ) (r : RobotState F)
      → state_from angles timestamp ≡ observed r
      → (timestamp ≡ r.timestamp)
        × ((xs : List F) × ((angles ≡ some xs)
              × ((are_angles xs ≡ true) × (degrees_of xs ≡ some r.degrees))))
  unfolding state_from
  state_from-IsFit none timestamp r h = absurd (refused≢observed _ r h)
  state_from-IsFit (some xs) timestamp r h =
      if_split (λ (o : Observed F). o ≡ observed r → Good) (are_angles xs) _ _
        (λ y e.
          let (stamp, degrees) = observed_or_lem (degrees_of xs) timestamp r e in
          (stamp, (xs, (refl, (y, degrees)))))
        (λ n e. absurd (refused≢observed _ r e)) h
    where
      Good : Type 0
      Good =
          (timestamp ≡ r.timestamp)
          × ((ys : List F) × ((some xs ≡ some ys)
                × ((are_angles ys ≡ true) × (degrees_of ys ≡ some r.degrees))))

  state_at-IsFit :
      (stamp : Option ℤ) (now max_age : ℤ) (angles : Option (List F)) (r : RobotState F)
      → state_at stamp now max_age angles ≡ observed r
      → (stamp ≡ some r.timestamp)
        × ((is_current now max_age r.timestamp ≡ true)
            × ((xs : List F) × ((angles ≡ some xs)
                  × ((are_angles xs ≡ true) × (degrees_of xs ≡ some r.degrees)))))
  unfolding state_at
  state_at-IsFit none now max_age angles r h = absurd (refused≢observed _ r h)
  state_at-IsFit (some ts) now max_age angles r h = elim (Bool-cases (is_current now max_age ts)) [
    | inl y ↦
        let reached =
          subst (λ b. (if b then state_from angles ts else refused out_of_date) ≡ observed r) y h in
        let (same, rest) = state_from-IsFit angles ts r reached in
        (ap some same, (subst (λ t. is_current now max_age t ≡ true) same y, rest))
    | inr z ↦ absurd (
        refused≢observed _ r
          (subst (λ b. (if b then state_from angles ts else refused out_of_date) ≡ observed r) z h))
  ]

  robot_state-IsTaken :
      (now max_age : ℤ) (s : Status F) (r : RobotState F)
      → (robot_state now max_age s ≡ observed r) ↔ IsTaken now max_age s r
  unfolding robot_state state_at state_from
  robot_state-IsTaken now max_age s r = (from_state, to_state)
    where
      from_state : robot_state now max_age s ≡ observed r → IsTaken now max_age s r
      from_state =
          if_split (λ (o : Observed F). o ≡ observed r → IsTaken now max_age s r)
            (s.imu_healthy && s.fk_valid) _ _
            (λ y e. (y, state_at-IsFit s.imu_host_monotonic_ns now max_age s.angles_rad r e))
            (λ n e. absurd (refused≢observed _ r e))

      to_state : IsTaken now max_age s r → robot_state now max_age s ≡ observed r
      to_state (healthy, (stamp, (fresh, (xs, (angles, (four, degrees)))))) =
          ap
            (λ b.
              if b
              then state_at s.imu_host_monotonic_ns now max_age s.angles_rad
              else refused unhealthy)
            healthy
          ∙ (ap (λ t. state_at t now max_age s.angles_rad) stamp
              ∙ (ap (λ b. if b then state_from s.angles_rad r.timestamp else refused out_of_date)
                    fresh
                  ∙ (ap (λ a. state_from a r.timestamp) angles
                      ∙ (ap
                            (λ b.
                              if b
                              then observed_or (degrees_of xs) r.timestamp
                              else refused no_angles)
                            four
                          ∙ ap (λ o. observed_or o r.timestamp) degrees))))

  -- d is x in degrees: both factors and the product fit a single, and are rounded to one.
  abbrev IsDegrees : F → F → Type 0
  IsDegrees x d =
      (a : F) × ((single x ≡ some a)
        × ((b : F) × ((single per_radian ≡ some b) × (single (fl.mul a b) ≡ some d))))

  abbrev AreDegrees : List F → List F → Type 0
  AreDegrees [] [] = Unit
  AreDegrees (x ∷ xs) (d ∷ ds) = IsDegrees x d × AreDegrees xs ds
  AreDegrees _ _ = ⊥

  -- What makes a status fit for a policy, and the state it gives.
  abbrev pub IsFit : ℤ → ℤ → Status F → RobotState F → Type 0
  IsFit now max_age s r =
      ((s.imu_healthy ≡ true) × (s.fk_valid ≡ true))
      × ((s.imu_host_monotonic_ns ≡ some r.timestamp)
          × (((pos 0 ≤ℤ now -ℤ r.timestamp) × (now -ℤ r.timestamp ≤ℤ max_age))
              × ((xs : List F) × ((s.angles_rad ≡ some xs)
                    × (((length xs ≡ 4) × All (λ x. is_finite x ≡ true) xs)
                        × AreDegrees xs r.degrees)))))

  healthy_iff : (a b : Bool) → ((a && b) ≡ true) ↔ ((a ≡ true) × (b ≡ true))
  healthy_iff a b = ground arith

  current_iff :
      (now max_age t : ℤ)
      → (is_current now max_age t ≡ true) ↔ ((pos 0 ≤ℤ now -ℤ t) × (now -ℤ t ≤ℤ max_age))
  unfolding is_current
  current_iff now max_age t = ground arith

  all_iff : (xs : List F) → (are_all is_finite xs ≡ true) ↔ All (λ x. is_finite x ≡ true) xs
  unfolding are_all
  all_iff [] = ((λ h. tt), (λ h. refl))
  all_iff (x ∷ xs) = ground (arith, all_iff xs)

  angles_iff :
      (xs : List F) → (are_angles xs ≡ true) ↔ ((length xs ≡ 4) × All (λ x. is_finite x ≡ true) xs)
  unfolding are_angles
  angles_iff xs = ground (arith, all_iff xs)

  product_of_lem :
      (o p : Option F) (d : F)
      → product_of o p ≡ some d
      → (a : F) × ((o ≡ some a) × ((b : F) × ((p ≡ some b) × (single (fl.mul a b) ≡ some d))))
  product_of_lem (some a) (some b) d h = (a, (refl, (b, (refl, h))))
  product_of_lem (some a) none d h = ground arith
  product_of_lem none (some b) d h = ground arith
  product_of_lem none none d h = ground arith

  to_degrees-IsDegrees : (x d : F) → to_degrees x ≡ some d → IsDegrees x d
  unfolding to_degrees
  to_degrees-IsDegrees x d h = product_of_lem (single x) (single per_radian) d h

  IsDegrees-to_degrees : (x d : F) → IsDegrees x d → to_degrees x ≡ some d
  unfolding to_degrees
  IsDegrees-to_degrees x d (a, (e, (b, (f, g)))) =
      ap (λ o. product_of o (single per_radian)) e ∙ (ap (product_of (some a)) f ∙ g)

  joined_lem :
      (o : Option F) (l : Option (List F)) (d : F) (ds : List F)
      → joined o l ≡ some (d ∷ ds)
      → (o ≡ some d) × (l ≡ some ds)
  joined_lem none none d ds h = ground arith
  joined_lem none (some _) d ds h = ground arith
  joined_lem (some _) none d ds h = ground arith
  joined_lem (some _) (some _) d ds h = ground arith

  joined≢nil : (o : Option F) (l : Option (List F)) → joined o l ≢ some []
  joined≢nil none none h = ground arith
  joined≢nil none (some _) h = ground arith
  joined≢nil (some _) none h = ground arith
  joined≢nil (some _) (some _) h = ground arith

  degrees_of-AreDegrees : (xs ds : List F) → degrees_of xs ≡ some ds → AreDegrees xs ds
  unfolding degrees_of
  degrees_of-AreDegrees [] [] h = tt
  degrees_of-AreDegrees [] (d ∷ ds) h = ground arith
  degrees_of-AreDegrees (x ∷ xs) [] h = absurd (joined≢nil (to_degrees x) (degrees_of xs) h)
  degrees_of-AreDegrees (x ∷ xs) (d ∷ ds) h =
      let (first, rest) = joined_lem (to_degrees x) (degrees_of xs) d ds h in
      (to_degrees-IsDegrees x d first, degrees_of-AreDegrees xs ds rest)

  AreDegrees-degrees_of : (xs ds : List F) → AreDegrees xs ds → degrees_of xs ≡ some ds
  unfolding degrees_of
  AreDegrees-degrees_of [] [] h = refl
  AreDegrees-degrees_of [] (d ∷ ds) h = elim h [ ]
  AreDegrees-degrees_of (x ∷ xs) [] h = elim h [ ]
  AreDegrees-degrees_of (x ∷ xs) (d ∷ ds) (h, hs) =
      rw (IsDegrees-to_degrees x d h, AreDegrees-degrees_of xs ds hs) refl

  -- A policy is given a state exactly when the IMUs and the kinematics are healthy, the sample is
  -- neither from the future nor older than allowed, and there are four finite angles that fit single
  -- precision in degrees too; the state is then these angles in degrees with the time of that sample.
  pub robot_state-IsFit :
      (now max_age : ℤ) (s : Status F) (r : RobotState F)
      → (robot_state now max_age s ≡ observed r) ↔ IsFit now max_age s r
  robot_state-IsFit now max_age s r = (
    (λ h.
        let (healthy, (stamp, (current, (xs, (angles, (four, degrees)))))) =
          (robot_state-IsTaken now max_age s r).0 h in
        (
          (healthy_iff s.imu_healthy s.fk_valid).0 healthy,
          (
            stamp,
            (
              (current_iff now max_age r.timestamp).0 current,
              (xs, (angles, ((angles_iff xs).0 four, degrees_of-AreDegrees xs r.degrees degrees))),
            ),
          ),
        )),
    (λ (healthy, (stamp, (current, (xs, (angles, (four, degrees)))))).
        (robot_state-IsTaken now max_age s r).1 (
          (healthy_iff s.imu_healthy s.fk_valid).1 healthy,
          (
            stamp,
            (
              (current_iff now max_age r.timestamp).1 current,
              (xs, (angles, ((angles_iff xs).1 four, AreDegrees-degrees_of xs r.degrees degrees))),
            ),
          ),
        )),
  )
