-- ===== src/Operator/Supervisor/Arming.antt =====
-- What `Supervisor.arm` sends and how it ends.
use kaivuriprokkis.Prelude.{
  if_split, ℕ, ◌∙◌, sym, ap, ◌≡◌, refl, Bool, true, false, Option, none, some, List, [], ◌∷◌, ◌++◌,
  ◌⊎◌, inl, inr, arith, ◌+◌, ◌&&◌,
}
use mathlib.Core.Path.{subst}
use mathlib.Core.List.{append_assoc}
use kaivuriprokkis.Prelude.Int.{pos}
use kaivuriprokkis.Float.{Float}
use kaivuriprokkis.Operator.Supervisor.{Message, drive, disarm, status, Supervisor, send, is_packed}
use kaivuriprokkis.Operator.Supervisor.Arm.{
  DriveState, disarmed, armed, fault, another, Attempt, Ending, returned, not_disarmed, faulted,
  timed_out, failed, waiting, ask, arming, answered, attempts, begun, arm,
}

module _ {F : Type 0} ⦃fl : Float F⦄ where
  -- Requests for the status and the centred sticks that arm, no motion and no DISARM.
  abbrev pub AreArming : Bool → List (ℕ × Message F) → Type 0
  AreArming pump [] = Unit
  AreArming pump ((n, status) ∷ ms) = AreArming pump ms
  AreArming pump ((n, disarm) ∷ ms) = ⊥
  AreArming pump ((n, drive rows fs fps t0 obs) ∷ ms) =
      (drive rows fs fps t0 obs ≡ arming pump) × AreArming pump ms

  -- Only the number of packets and what was sent change, and such packets are what is added.
  abbrev pub IsArmingOnly : Bool → Supervisor F → Supervisor F → Type 0
  IsArmingOnly pump s s' =
      (s' ≡ record s { sequence = s'.sequence; out = s'.out })
      × ((sent : List (ℕ × Message F)) × (AreArming pump sent × (s'.out ≡ sent ++ s.out)))

  AreArming-append :
      (pump : Bool) (ms ns : List (ℕ × Message F))
      → AreArming pump ms
      → AreArming pump ns
      → AreArming pump (ms ++ ns)
  AreArming-append pump [] ns h k = k
  AreArming-append pump ((n, status) ∷ ms) ns h k = AreArming-append pump ms ns h k
  AreArming-append pump ((n, disarm) ∷ ms) ns h k = elim h [ ]
  AreArming-append pump ((n, drive rows fs fps t0 obs) ∷ ms) ns h k =
      (h.0, AreArming-append pump ms ns h.1 k)

  IsArmingOnly-refl : (pump : Bool) (s : Supervisor F) → IsArmingOnly pump s s
  IsArmingOnly-refl pump s = (refl, ([], (tt, refl)))

  IsArmingOnly-trans :
      (pump : Bool) (s t u : Supervisor F)
      → IsArmingOnly pump s t
      → IsArmingOnly pump t u
      → IsArmingOnly pump s u
  IsArmingOnly-trans pump s t u (e, (ms, (h, f))) (e', (ns, (h', f'))) = (
    e'
        ∙ ap {A = Supervisor F} {B = Supervisor F}
            (λ x. record x { sequence = u.sequence; out = u.out }) e,
    (
      ns ++ ms,
      (
        AreArming-append pump ns ms h' h,
        f' ∙ (ap (λ l. ns ++ l) f ∙ sym (append_assoc ns ms s.out)),
      ),
    ),
  )

  send-IsArmingOnly :
      (pump link : Bool) (m : Message F) (s : Supervisor F)
      → AreArming pump ((s.sequence + 1, m) ∷ [])
      → IsArmingOnly pump s (send link m s).0
  unfolding send
  send-IsArmingOnly pump link m s h =
      if_split (λ (r : Supervisor F × Bool). IsArmingOnly pump s r.0)
        (is_packed m && (link && s.connected)) _ _
        (λ y. (refl, ((s.sequence + 1, m) ∷ [], (h, refl)))) (λ n. (refl, ([], (tt, refl))))

  ask-IsArmingOnly :
      (pump link : Bool) (reply : Option DriveState) (s : Supervisor F)
      → IsArmingOnly pump s (ask link reply s).0
  unfolding ask
  ask-IsArmingOnly pump link reply s =
      if_split (λ (r : Supervisor F × Option DriveState). IsArmingOnly pump s r.0)
        (send link status s).1 _ _ (λ y. send-IsArmingOnly pump link status s tt)
        (λ n. send-IsArmingOnly pump link status s tt)

  -- A pass before the deadline gives the answer x.
  abbrev pub Answers : F → DriveState → List (Attempt F) → Type 0
  Answers deadline x [] = ⊥
  Answers deadline x (a ∷ more) =
      (fl.lt a.clock deadline ≡ true) × ((a.reply ≡ some x) ⊎ Answers deadline x more)

  -- A pass whose clock is not before the deadline.
  abbrev pub HasLapsed : F → List (Attempt F) → Type 0
  HasLapsed deadline [] = ⊥
  HasLapsed deadline (a ∷ more) = (fl.lt a.clock deadline ≡ false) ⊎ HasLapsed deadline more

  abbrev pub IsEnding : F → List (Attempt F) → Ending → Type 0
  IsEnding deadline tries returned = Answers deadline armed tries
  IsEnding deadline tries faulted = Answers deadline fault tries
  IsEnding deadline tries timed_out = HasLapsed deadline tries
  IsEnding deadline tries failed = Unit
  IsEnding deadline tries not_disarmed = ⊥
  IsEnding deadline tries waiting = ⊥

  IsEnding-later :
      (deadline : F) (a : Attempt F) (more : List (Attempt F)) (e : Ending)
      → fl.lt a.clock deadline ≡ true
      → IsEnding deadline more e
      → IsEnding deadline (a ∷ more) e
  IsEnding-later deadline a more returned y h = (y, inr h)
  IsEnding-later deadline a more faulted y h = (y, inr h)
  IsEnding-later deadline a more timed_out y h = inr h
  IsEnding-later deadline a more failed y h = tt
  IsEnding-later deadline a more not_disarmed y h = h
  IsEnding-later deadline a more waiting y h = h

  ask-reply :
      (link : Bool) (reply : Option DriveState) (s : Supervisor F)
      → ((ask link reply s).1 ≡ none) ⊎ (reply ≡ (ask link reply s).1)
  unfolding ask
  ask-reply link reply s =
      if_split (λ (r : Supervisor F × Option DriveState). (r.1 ≡ none) ⊎ (reply ≡ r.1))
        (send link status s).1 _ _ (λ y. inr refl) (λ n. inl refl)

  answered-IsArming :
      (pump : Bool) (deadline : F) (a : Attempt F) (more : List (Attempt F)) (s s' : Supervisor F)
      (reply : Option DriveState) (rest : Supervisor F × Ending)
      → fl.lt a.clock deadline ≡ true
      → (reply ≡ none) ⊎ (a.reply ≡ reply)
      → IsArmingOnly pump s s'
      → IsArmingOnly pump s rest.0 × IsEnding deadline (a ∷ more) rest.1
      → IsArmingOnly pump s (answered reply rest s').0
        × IsEnding deadline (a ∷ more) (answered reply rest s').1
  answered-IsArming pump deadline a more s s' none rest y o k h = (k, tt)
  answered-IsArming pump deadline a more s s' (some armed) rest y (inl e) k h = ground arith
  answered-IsArming pump deadline a more s s' (some armed) rest y (inr e) k h = (k, (y, inl e))
  answered-IsArming pump deadline a more s s' (some fault) rest y (inl e) k h = ground arith
  answered-IsArming pump deadline a more s s' (some fault) rest y (inr e) k h = (k, (y, inl e))
  answered-IsArming pump deadline a more s s' (some disarmed) rest y o k h = h
  answered-IsArming pump deadline a more s s' (some another) rest y o k h = h

  HasLapsed-later :
      (deadline : F) (a : Attempt F) (more : List (Attempt F))
      → HasLapsed deadline (a ∷ more)
      → fl.lt a.clock deadline ≡ true
      → HasLapsed deadline more
  HasLapsed-later deadline a more (inl n) y = ground arith
  HasLapsed-later deadline a more (inr h) y = h

  attempts-IsArming :
      (pump : Bool) (deadline : F) (tries : List (Attempt F)) (s : Supervisor F)
      → HasLapsed deadline tries
      → IsArmingOnly pump s (attempts pump deadline tries s).0
        × IsEnding deadline tries (attempts pump deadline tries s).1
  unfolding attempts
  attempts-IsArming pump deadline [] s h = elim h [ ]
  attempts-IsArming pump deadline (a ∷ more) s h =
      let s1 = (send a.link (arming pump) s).0 in
      let s2 = (ask a.status_link a.reply s1).0 in
      let sent = send-IsArmingOnly pump a.link (arming pump) s (refl, tt) in
      let asked =
        IsArmingOnly-trans pump s s1 s2 sent (ask-IsArmingOnly pump a.status_link a.reply s1) in
      let P =
        λ (r : Supervisor F × Ending). IsArmingOnly pump s r.0 × IsEnding deadline (a ∷ more) r.1 in
      if_split P (fl.lt a.clock deadline) _ _
        (λ y.
          let rest =
            attempts-IsArming pump deadline more s2 (HasLapsed-later deadline a more h y) in
          if_split P (send a.link (arming pump) s).1 _ _
            (λ ok.
              answered-IsArming pump deadline a more s s2 (ask a.status_link a.reply s1).1
                (attempts pump deadline more s2) y (ask-reply a.status_link a.reply s1) asked
                (
                  IsArmingOnly-trans pump s s2 (attempts pump deadline more s2).0 asked rest.0,
                  IsEnding-later deadline a more (attempts pump deadline more s2).1 y rest.1,
                ))
            (λ no. (sent, tt)))
        (λ n. (IsArmingOnly-refl pump s, inl n))

  -- What the ending of `arm` says of the first answer and of the passes
  abbrev pub IsArmed : Option DriveState → F → List (Attempt F) → Ending → Type 0
  IsArmed (some disarmed) deadline tries e = IsEnding deadline tries e
  IsArmed (some armed) deadline tries e = (e ≡ not_disarmed) ⊎ (e ≡ failed)
  IsArmed (some fault) deadline tries e = (e ≡ not_disarmed) ⊎ (e ≡ failed)
  IsArmed (some another) deadline tries e = (e ≡ not_disarmed) ⊎ (e ≡ failed)
  IsArmed none deadline tries e = e ≡ failed

  IsArmed-failed :
      (reply : Option DriveState) (deadline : F) (tries : List (Attempt F))
      → IsArmed reply deadline tries failed
  IsArmed-failed none deadline tries = refl
  IsArmed-failed (some disarmed) deadline tries = tt
  IsArmed-failed (some armed) deadline tries = inr refl
  IsArmed-failed (some fault) deadline tries = inr refl
  IsArmed-failed (some another) deadline tries = inr refl

  -- By the answer that reached `begun`, where one did
  begun-some :
      (pump : Bool) (x : DriveState) (deadline : F) (tries : List (Attempt F))
      (after : Supervisor F × Ending) (s s' : Supervisor F)
      → IsArmingOnly pump s s'
      → IsArmingOnly pump s after.0 × IsEnding deadline tries after.1
      → IsArmingOnly pump s (begun (some x) after s').0
        × IsArmed (some x) deadline tries (begun (some x) after s').1
  begun-some pump disarmed deadline tries after s s' k h = h
  begun-some pump armed deadline tries after s s' k h = (k, inl refl)
  begun-some pump fault deadline tries after s s' k h = (k, inl refl)
  begun-some pump another deadline tries after s s' k h = (k, inl refl)

  begun-IsArming :
      (pump : Bool) (reply first : Option DriveState) (deadline : F) (tries : List (Attempt F))
      (after : Supervisor F × Ending) (s s' : Supervisor F)
      → (first ≡ none) ⊎ (reply ≡ first)
      → IsArmingOnly pump s s'
      → IsArmingOnly pump s after.0 × IsEnding deadline tries after.1
      → IsArmingOnly pump s (begun first after s').0
        × IsArmed reply deadline tries (begun first after s').1
  begun-IsArming pump reply none deadline tries after s s' o k h =
      (k, IsArmed-failed reply deadline tries)
  begun-IsArming pump reply (some x) deadline tries after s s' (inl e) k h = ground arith
  begun-IsArming pump reply (some x) deadline tries after s s' (inr e) k h =
      let held = begun-some pump x deadline tries after s s' k h in
      (held.0, subst (λ r. IsArmed r deadline tries (begun (some x) after s').1) (sym e) held.1)

  -- `arm`, where some pass of its loop comes two seconds after its start or later, ends: it changes
  -- nothing but what was sent and the sequence number, and adds requests for the status and centred
  -- sticks with the arming flags only. It returns only where the first answer was that the
  -- controller is disarmed and the answer of a pass in time that it is armed; it reports a fault
  -- only where a pass in time answered so; a first answer of another state is refused, or an
  -- exception comes first; and without a first answer it raises.
  pub arm-IsArming :
      (link : Bool) (reply : Option DriveState) (clock : F) (tries : List (Attempt F))
      (s : Supervisor F)
      → HasLapsed (fl.add clock (fl.lit (pos 2) 0)) tries
      → IsArmingOnly s.pump s (arm link reply clock tries s).0
        × IsArmed reply (fl.add clock (fl.lit (pos 2) 0)) tries (arm link reply clock tries s).1
  unfolding arm
  arm-IsArming link reply clock tries s h =
      let deadline = fl.add clock (fl.lit (pos 2) 0) in
      let s' = (ask link reply s).0 in
      let asked = ask-IsArmingOnly s.pump link reply s in
      let rest = attempts-IsArming s.pump deadline tries s' h in
      let after = attempts s.pump deadline tries s' in
      begun-IsArming s.pump reply (ask link reply s).1 deadline tries after s s'
        (ask-reply link reply s) asked (IsArmingOnly-trans s.pump s s' after.0 asked rest.0, rest.1)
