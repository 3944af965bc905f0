-- ===== src/Operator/Supervisor/Messages.antt =====
-- What a round of `Supervisor.run` sends.
use kaivuriprokkis.Prelude.{
  ℕ, ◌≡◌, ◌∙◌, sym, refl, Bool, true, false, Option, none, some, List, [], ◌∷◌, arith,
  if◌then◌else◌, ◌⊎◌, inl, inr, Bool-cases, ◌+◌,
}
use kaivuriprokkis.Prelude.Int.{ℤ, pos, ◌-ℤ◌, leb_ℤ}
use mathlib.Core.Path.{subst}
use kaivuriprokkis.Float.{Float}
use kaivuriprokkis.Operator.Supervisor.{
  Mode, model, manual, Kind, Reason, no_first_plan, supervisor_error, error, gamepad_error, gamepad,
  Button, Plan, Message, drive, status, Supervisor, set_mode, drop_plan, stop, send, flags,
}
use kaivuriprokkis.Operator.Supervisor.Round.{
  Input, Snapshot, follow, switch_task, press, press_all, hold, recorded, send_plan, act,
  model_tick, send_sticks, command, command_in, observe, drive_round, tick, polled_round, snapshot,
  centred, problem, end_of, seconds,
}

module _ {F : Type 0} ⦃fl : Float F⦄ where
  -- The age of the observation is not above its limit, and the last row is not due yet.
  abbrev pub IsFine : ℤ → Supervisor F → Plan F → Type 0
  IsFine now s p =
      (fl.lt s.max_age (seconds (now -ℤ p.obs_ns)) ≡ false) × (leb_ℤ (end_of s.fps p) now ≡ false)

  problem-IsFine :
      (now : ℤ) (p : Plan F) (s : Supervisor F) → problem now p s ≡ none → IsFine now s p
  unfolding problem
  problem-IsFine now p s e = ground arith

  -- The packets that a round may send: the centred sticks, the pad's sticks in manual mode, or in
  -- model mode the running plan, when it is neither too old nor exhausted.
  abbrev pub IsSanctioned : Input F → Supervisor F → Message F → Type 0
  IsSanctioned i s m =
      (m ≡ centred s)
      ⊎ (((s.mode ≡ manual)
            × (m ≡ drive (i.sticks ∷ []) (flags s) (fl.lit (pos 30) 0) (pos 0) (pos 0)))
          ⊎ ((s.mode ≡ model)
              × ((p : Plan F) × ((s.plan ≡ some p)
                    × (IsFine i.now s p × (m ≡ drive p.rows (flags s) s.fps p.t0_ns p.obs_ns))))))

  -- `out` grows by nothing, or by one such packet under the next sequence number.
  abbrev Grows : Input F → Supervisor F → List (ℕ × Message F) → Type 0
  Grows i s out =
      (out ≡ s.out) ⊎ ((m : Message F) × (IsSanctioned i s m × (out ≡ (s.sequence + 1, m) ∷ s.out)))

  -- What a send does to `out`.
  send-out :
      (link : Bool) (m : Message F) (s : Supervisor F)
      → ((send link m s).0.out ≡ s.out) ⊎ ((send link m s).0.out ≡ (s.sequence + 1, m) ∷ s.out)
  unfolding send
  send-out link m s = ground arith

  grows :
      (i : Input F) (s : Supervisor F) (out : List (ℕ × Message F)) (m : Message F)
      → IsSanctioned i s m
      → (out ≡ s.out) ⊎ (out ≡ (s.sequence + 1, m) ∷ s.out)
      → Grows i s out
  grows i s out m h (inl e) = inl e
  grows i s out m h (inr e) = inr (m, (h, e))

  hold-out :
      (r : Reason) (clock : ℤ) (link : Bool) (s : Supervisor F)
      → ((hold r clock link s).0.out ≡ s.out)
        ⊎ ((hold r clock link s).0.out ≡ (s.sequence + 1, centred s) ∷ s.out)
  unfolding hold send set_mode stop centred
  hold-out r clock link s = ground arith

  send_plan-out :
      (now : ℤ) (link fresh : Bool) (p : Plan F) (s : Supervisor F)
      → ((send_plan now link fresh p s).0.out ≡ s.out)
        ⊎ ((send_plan now link fresh p s).0.out
            ≡ (s.sequence + 1, drive p.rows (flags s) s.fps p.t0_ns p.obs_ns) ∷ s.out)
  unfolding send_plan send recorded
  send_plan-out now link fresh p s = ground arith

  follow-Grows :
      (i : Input F) (s : Supervisor F) (fresh : Bool) (p : Plan F) (r : Option Reason)
      → s.mode ≡ model
      → s.plan ≡ some p
      → problem i.now p s ≡ r
      → Grows i s (follow i fresh p r s).0.out
  unfolding follow
  follow-Grows i s fresh p (some r) h e bad =
      grows i s _ (centred s) (inl refl) (hold-out r i.hold_clock i.link s)
  follow-Grows i s fresh p none h e fine =
      grows i s _ (drive p.rows (flags s) s.fps p.t0_ns p.obs_ns)
        (inr (inr (h, (p, (e, (problem-IsFine i.now p s fine, refl))))))
        (send_plan-out i.now i.link fresh p s)

  act-Grows :
      (i : Input F) (s : Supervisor F) (q : Snapshot F) (plan : Option (Plan F))
      → s.mode ≡ model
      → s.plan ≡ q.plan
      → q.plan ≡ plan
      → Grows i s (act i q s).0.out
  unfolding act
  act-Grows i s q none h e n =
      elim (Bool-cases (fl.lt s.first_plan_s (seconds (i.now -ℤ q.since)))) [
        | inl late ↦
            rw (act, n, late)
              (grows i s _ (centred s) (inl refl) (hold-out no_first_plan i.hold_clock i.link s))
        | inr early ↦
            rw (act, n, early) (grows i s _ (centred s) (inl refl) (send-out i.link (centred s) s))
      ]
  act-Grows i s q (some p) h e n =
      rw (act, n) (follow-Grows i s q.fresh p (problem i.now p s) h (e ∙ n) refl)

  command_in-Grows :
      (m : Mode) (i : Input F) (s : Supervisor F) → s.mode ≡ m → Grows i s (command_in m i s).0.out
  unfolding command_in model_tick snapshot send_sticks problem centred
  command_in-Grows model i s h =
      act-Grows i (record s { fresh = false }) (snapshot s).1 s.plan h refl refl
  command_in-Grows manual i s h =
      grows i s _ (drive (i.sticks ∷ []) (flags s) (fl.lit (pos 30) 0) (pos 0) (pos 0))
        (inr (inl (h, refl))) (send-out i.link _ s)

  observe-out :
      (i : Input F) (s : Supervisor F)
      → ((observe i s).out ≡ s.out) ⊎ ((observe i s).out ≡ (s.sequence + 1, status) ∷ s.out)
  unfolding observe send stop
  observe-out i s = ground arith

  stop-out : (r : Reason) (k : Kind) (s : Supervisor F) → (stop r k s).out ≡ s.out
  unfolding stop
  stop-out r k s = ground arith

  press-out : (b : Button) (clock : ℤ) (s : Supervisor F) → (press b clock s).0.out ≡ s.out
  unfolding press switch_task set_mode drop_plan
  press-out b clock s = ground arith

  press_all-out : (bs : List (Button × ℤ)) (s : Supervisor F) → (press_all bs s).0.out ≡ s.out
  unfolding press_all
  press_all-out [] s = refl
  press_all-out ((b, clock) ∷ bs) s =
      ground (arith, press-out b clock s, press_all-out bs (press b clock s).0)

  -- At most one such packet, and then at most one request for the status.
  abbrev pub IsRound : Input F → Supervisor F → List (ℕ × Message F) → Type 0
  IsRound i s out =
      Grows i s out
      ⊎ ((o : List (ℕ × Message F)) × ((n : ℕ) × (Grows i s o × (out ≡ (n, status) ∷ o))))

  drive_round-IsRound : (i : Input F) (s : Supervisor F) → IsRound i s (drive_round i s).out
  unfolding drive_round command
  drive_round-IsRound i s =
      let after = (command i s).0 in
      let g : Grows i s after.out = command_in-Grows s.mode i s refl in
      let e : ((drive_round i s).out ≡ after.out)
          ⊎ ((drive_round i s).out ≡ (after.sequence + 1, status) ∷ after.out) =
        ground (arith, observe-out i after, stop-out supervisor_error error after) in
      elim e [
        | inl e ↦ inl (subst (Grows i s) (sym e) g)
        | inr e ↦ inr (after.out, (after.sequence + 1, (g, e)))
      ]

  -- The supervisor once the buttons of a poll are handled.
  unfoldable pub buttoned : Option (List (Button × ℤ)) → Supervisor F → Supervisor F
  unfolding press_all
  buttoned none s = s
  buttoned (some bs) s = (press_all bs s).0

  polled_round-IsRound :
      (i : Input F) (polled : Option (List (Button × ℤ))) (s : Supervisor F)
      → ((polled_round i polled s).out ≡ s.out)
        ⊎ IsRound i (buttoned polled s) (polled_round i polled s).out
  unfolding polled_round buttoned
  polled_round-IsRound i none s = inl (stop-out gamepad_error gamepad s)
  polled_round-IsRound i (some bs) s =
      let s' = (press_all bs s).0 in
      let e : ((polled_round i (some bs) s).out ≡ s.out)
          ⊎ ((polled_round i (some bs) s).out ≡ (drive_round i s').out) =
        ground (arith, stop-out supervisor_error error s', press_all-out bs s) in
      elim e [
        | inl e ↦ inl e
        | inr e ↦ inr (subst (IsRound i s') (sym e) (drive_round-IsRound i s'))
      ]

  buttoned-out :
      (polled : Option (List (Button × ℤ))) (s : Supervisor F) → (buttoned polled s).out ≡ s.out
  unfolding buttoned
  buttoned-out none s = refl
  buttoned-out (some bs) s = press_all-out bs s

  unfoldable pub after_buttons : Input F → Supervisor F → Supervisor F
  unfolding buttoned
  after_buttons i s = if s.has_pad then buttoned i.polled s else s

  either-IsRound :
      (pad : Bool) (i : Input F) (s : Supervisor F)
      → ((if pad then buttoned i.polled s else s).out ≡ s.out)
        × (((if pad then polled_round i i.polled s else drive_round i s).out ≡ s.out)
            ⊎ IsRound i
                (if pad then buttoned i.polled s else s)
                (if pad then polled_round i i.polled s else drive_round i s).out)
  either-IsRound true i s = (buttoned-out i.polled s, polled_round-IsRound i i.polled s)
  either-IsRound false i s = (refl, inr (drive_round-IsRound i s))

  -- A round of `run` sends nothing, or what `IsRound` allows from the state that the buttons leave,
  -- and the buttons send nothing: at most one drive packet, which is the centred hold, in manual
  -- mode the pad's sticks, or in model mode the running plan, neither too old nor exhausted; and
  -- then at most one request for the status.
  pub tick-IsRound :
      (i : Input F) (s : Supervisor F)
      → ((after_buttons i s).out ≡ s.out)
        × (((tick i s).out ≡ s.out) ⊎ IsRound i (after_buttons i s) (tick i s).out)
  unfolding tick after_buttons
  tick-IsRound i s = either-IsRound s.has_pad i s
