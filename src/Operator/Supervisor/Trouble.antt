-- ===== src/Operator/Supervisor/Trouble.antt =====
-- What a round of `Supervisor.run` does when the plan is missing, too old or exhausted.
use kaivuriprokkis.Prelude.{
  ℕ, ◌≡◌, ◌∙◌, sym, ap, refl, Bool, true, false, Option, none, some, List, ◌∷◌, arith,
  if◌then◌else◌, ◌⊎◌, ◌+◌,
}
use kaivuriprokkis.Prelude.Int.{ℤ, ◌-ℤ◌}
use mathlib.Core.Path.{subst}
use kaivuriprokkis.Float.{Float}
use kaivuriprokkis.Operator.Supervisor.{
  model, manual, plan_problem, Reason, no_first_plan, Plan, Message, status, supervisor_error,
  error, Supervisor, stop, send, set_mode,
}
use kaivuriprokkis.Operator.Supervisor.Round.{
  Input, hold, follow, act, model_tick, command, observe, command_in, drive_round, snapshot,
  centred, problem, seconds,
}

module _ {F : Type 0} ⦃fl : Float F⦄ where
  -- What is wrong with the plan of a state, or with its absence.
  unfoldable pub trouble : ℤ → Option (Plan F) → Supervisor F → Option Reason
  unfolding problem
  trouble now none s =
      if fl.lt s.first_plan_s (seconds (now -ℤ s.model_since)) then some no_first_plan else none
  trouble now (some p) s = problem now p s

  act-trouble :
      (i : Input F) (s : Supervisor F) (plan : Option (Plan F)) (fresh : Bool) (r : Reason)
      → trouble i.now plan s ≡ some r
      → act i (record { plan = plan; fresh = fresh; since = s.model_since }) s
        ≡ hold r i.hold_clock i.link s
  unfolding act trouble follow
  act-trouble i s none fresh r e = ground arith
  act-trouble i s (some p) fresh r e = rw e refl

  -- `trouble` does not read what a snapshot clears.
  trouble-fresh :
      (now : ℤ) (plan : Option (Plan F)) (s : Supervisor F)
      → trouble now plan (record s { fresh = false }) ≡ trouble now plan s
  unfolding trouble problem
  trouble-fresh now none s = refl
  trouble-fresh now (some p) s = refl

  command-trouble :
      (i : Input F) (s : Supervisor F) (r : Reason)
      → s.mode ≡ model
      → trouble i.now s.plan s ≡ some r
      → command i s ≡ hold r i.hold_clock i.link (record s { fresh = false })
  unfolding command command_in model_tick snapshot
  command-trouble i s r h e =
      ap (λ m. command_in m i s) h
      ∙ act-trouble i (record s { fresh = false }) s.plan s.fresh r
          (trouble-fresh i.now s.plan s ∙ e)

  -- The centred hold is the packet of a round, before the request for the status, if it is made.
  abbrev pub IsHeld : Supervisor F → List (ℕ × Message F) → Type 0
  IsHeld s out =
      (out ≡ (s.sequence + 1, centred s) ∷ s.out)
      ⊎ (out ≡ (s.sequence + 1 + 1, status) ∷ (s.sequence + 1, centred s) ∷ s.out)

  -- What a round in trouble does, without and with a pad.
  abbrev pub IsHandled : Supervisor F → Reason → Bool → Supervisor F → Type 0
  IsHandled s r false s' =
      (s'.halted ≡ true) × ((s'.stopped ≡ some (r, plan_problem)) × (s'.out ≡ s.out))
  IsHandled s r true s' = (s'.mode ≡ manual) × ((s'.plan ≡ none) × IsHeld s s'.out)

  -- The rest of a round, from the outcome of its command.
  abbrev rest_of : Input F → Supervisor F × Bool → Supervisor F
  rest_of i c =
      if c.1 then (if c.0.halted then c.0 else observe i c.0) else stop supervisor_error error c.0

  round-rest_of : (i : Input F) (s : Supervisor F) → drive_round i s ≡ rest_of i (command i s)
  unfolding drive_round
  round-rest_of i s = refl

  rest_of-kept :
      (i : Input F) (s : Supervisor F)
      → ((rest_of i (s, true)).mode ≡ s.mode)
        × (((rest_of i (s, true)).plan ≡ s.plan)
            × (((rest_of i (s, true)).out ≡ s.out)
                ⊎ ((rest_of i (s, true)).out ≡ (s.sequence + 1, status) ∷ s.out)))
  unfolding observe send stop
  rest_of-kept i s = ground arith

  -- The state after a fallback that is sent.
  abbrev fallen : ℤ → Supervisor F → Supervisor F
  fallen clock s = record s {
    fresh = false;
    mode = manual;
    plan = none;
    sent_plan = none;
    model_since = clock;
    sequence = s.sequence + 1;
    out = (s.sequence + 1, centred s) ∷ s.out;
  }

  hold-fallen :
      (r : Reason) (clock : ℤ) (link : Bool) (s : Supervisor F)
      → s.has_pad ≡ true
      → link ≡ true
      → s.connected ≡ true
      → hold r clock link (record s { fresh = false }) ≡ (fallen clock s, true)
  unfolding hold set_mode send centred
  hold-fallen r clock link s p l c = ground arith

  hold-IsHandled :
      (i : Input F) (s : Supervisor F) (r : Reason) (pad : Bool)
      → s.has_pad ≡ pad
      → i.link ≡ true
      → s.connected ≡ true
      → s.stopped ≡ none
      → IsHandled s r pad (rest_of i (hold r i.hold_clock i.link (record s { fresh = false })))
  unfolding hold stop
  hold-IsHandled i s r true p l c n =
      subst (λ x. IsHandled s r true (rest_of i x))
        (sym (hold-fallen r i.hold_clock i.link s p l c)) (rest_of-kept i (fallen i.hold_clock s))
  hold-IsHandled i s r false p l c n = ground arith

  -- In model mode on an open connection, where there was no plan in time, or the running plan is
  -- too old or exhausted: a round without a pad halts the run for that reason and sends nothing;
  -- with a pad it falls back to manual mode, drops the plan and sends the centred hold.
  pub drive_round-IsHandled :
      (i : Input F) (s : Supervisor F) (r : Reason)
      → s.mode ≡ model
      → trouble i.now s.plan s ≡ some r
      → i.link ≡ true
      → s.connected ≡ true
      → s.stopped ≡ none
      → IsHandled s r s.has_pad (drive_round i s)
  drive_round-IsHandled i s r h e l c n =
      subst (IsHandled s r s.has_pad)
        (sym (round-rest_of i s ∙ ap (rest_of i) (command-trouble i s r h e)))
        (hold-IsHandled i s r s.has_pad refl l c n)
