-- ===== src/Operator/Supervisor/Current.antt =====
-- That the running plan of a `Supervisor` belongs to the current mode and instruction, through any
-- calls and rounds.
use kaivuriprokkis.Prelude.{
  if_split, ℕ, ◌≡◌, refl, Bool, true, false, Option, none, some, List, [], ◌∷◌, arith,
  if◌then◌else◌,
}
use kaivuriprokkis.Prelude.Int.{ℤ, pos, ltb_ℤ}
use kaivuriprokkis.Operator.Tasks.{TaskList}
use kaivuriprokkis.Float.{Float}
use kaivuriprokkis.Operator.Supervisor.{
  Mode, model, Kind, Reason, supervisor_error, error, gamepad_error, gamepad, make_supervisor,
  Button, Plan, Message, status, Supervisor, set_mode, drop_plan, offer, refusal, stop, send,
}
use kaivuriprokkis.Operator.Supervisor.Arm.{
  DriveState, disarmed, armed, fault, another, Attempt, Ending, ask, arming, answered, attempts,
  begun, arm,
}
use kaivuriprokkis.Operator.Supervisor.Round.{
  Input, Snapshot, follow, switch_task, press, press_all, hold, recorded, send_plan, act,
  model_tick, send_sticks, command, command_in, observe, drive_round, tick, polled_round, shutdown,
  snapshot,
}

abbrev pub IsRunning : {F : Type 0} → Option (Plan F) → Mode → ℤ → ℕ → Type 0
IsRunning none _ since n = Unit
IsRunning (some p) mode since n = (mode ≡ model) × ((ltb_ℤ since p.obs_ns ≡ true) × (p.id ≡ n))

abbrev pub is_some {ℓ} : {A : Type ℓ} → Option A → Bool
is_some none = false
is_some (some _) = true

-- A plan runs in model mode only, was observed after the last change of mode or prompt, and is the
-- last that was accepted; and the run is halted exactly when a reason is recorded.
abbrev pub IsCurrent : {F : Type 0} → Supervisor F → Type 0
IsCurrent s = IsRunning s.plan s.mode s.model_since s.next_id × (s.halted ≡ is_some s.stopped)

module _ {F : Type 0} where
  offer-IsCurrent :
      (rows : List (List F)) (t0 obs : ℤ) (s : Supervisor F)
      → IsCurrent s
      → IsCurrent (offer rows t0 obs s).0
  unfolding offer refusal
  offer-IsCurrent rows t0 obs s h = ground arith

  stop-IsCurrent : (r : Reason) (k : Kind) (s : Supervisor F) → IsCurrent s → IsCurrent (stop r k s)
  unfolding stop
  stop-IsCurrent r k s h = ground arith

  send-IsCurrent :
      (link : Bool) (m : Message F) (s : Supervisor F) → IsCurrent s → IsCurrent (send link m s).0
  unfolding send
  send-IsCurrent link m s h = ground arith

  press-IsCurrent :
      (b : Button) (clock : ℤ) (s : Supervisor F) → IsCurrent s → IsCurrent (press b clock s).0
  unfolding press switch_task set_mode drop_plan
  press-IsCurrent b clock s h = ground arith

  press_all-IsCurrent :
      (bs : List (Button × ℤ)) (s : Supervisor F) → IsCurrent s → IsCurrent (press_all bs s).0
  unfolding press_all
  press_all-IsCurrent [] s h = h
  press_all-IsCurrent ((b, clock) ∷ bs) s h = ground (
    arith,
    press-IsCurrent b clock s h,
    press_all-IsCurrent bs (press b clock s).0 (press-IsCurrent b clock s h),
  )

module _ {F : Type 0} ⦃fl : Float F⦄ where
  hold-IsCurrent :
      (r : Reason) (clock : ℤ) (link : Bool) (s : Supervisor F)
      → IsCurrent s
      → IsCurrent (hold r clock link s).0
  unfolding hold set_mode send stop
  hold-IsCurrent r clock link s h = ground arith

  send_plan-IsCurrent :
      (now : ℤ) (link fresh : Bool) (p : Plan F) (s : Supervisor F)
      → IsCurrent s
      → IsCurrent (send_plan now link fresh p s).0
  unfolding send_plan recorded send
  send_plan-IsCurrent now link fresh p s h = ground arith

  follow-IsCurrent :
      (i : Input F) (fresh : Bool) (p : Plan F) (r : Option Reason) (s : Supervisor F)
      → IsCurrent s
      → IsCurrent (follow i fresh p r s).0
  unfolding follow
  follow-IsCurrent i fresh p (some r) s h = hold-IsCurrent r i.hold_clock i.link s h
  follow-IsCurrent i fresh p none s h = send_plan-IsCurrent i.now i.link fresh p s h

  act-IsCurrent :
      (i : Input F) (q : Snapshot F) (s : Supervisor F) → IsCurrent s → IsCurrent (act i q s).0
  unfolding act
  act-IsCurrent i q s h = grind (arith, hold-IsCurrent, follow-IsCurrent, send-IsCurrent)

  command-IsCurrent : (i : Input F) (s : Supervisor F) → IsCurrent s → IsCurrent (command i s).0
  unfolding command command_in model_tick send_sticks snapshot
  command-IsCurrent i s h = grind (arith, act-IsCurrent, send-IsCurrent)

  observe-IsCurrent : (i : Input F) (s : Supervisor F) → IsCurrent s → IsCurrent (observe i s)
  unfolding observe
  observe-IsCurrent i s h = grind (arith, send-IsCurrent, stop-IsCurrent)

  drive_round-IsCurrent :
      (i : Input F) (s : Supervisor F) → IsCurrent s → IsCurrent (drive_round i s)
  unfolding drive_round
  drive_round-IsCurrent i s h =
      grind (arith, command-IsCurrent i s h, observe-IsCurrent, stop-IsCurrent)

  polled_round-IsCurrent :
      (i : Input F) (polled : Option (List (Button × ℤ))) (s : Supervisor F)
      → IsCurrent s
      → IsCurrent (polled_round i polled s)
  unfolding polled_round
  polled_round-IsCurrent i none s h = stop-IsCurrent gamepad_error gamepad s h
  polled_round-IsCurrent i (some bs) s h = ground (
    arith,
    drive_round-IsCurrent i (press_all bs s).0 (press_all-IsCurrent bs s h),
    stop-IsCurrent supervisor_error error (press_all bs s).0 (press_all-IsCurrent bs s h),
  )

  tick-IsCurrent : (i : Input F) (s : Supervisor F) → IsCurrent s → IsCurrent (tick i s)
  unfolding tick
  tick-IsCurrent i s h =
      ground (arith, polled_round-IsCurrent i i.polled s h, drive_round-IsCurrent i s h)

  ask-IsCurrent :
      (link : Bool) (reply : Option DriveState) (s : Supervisor F)
      → IsCurrent s
      → IsCurrent (ask link reply s).0
  unfolding ask
  ask-IsCurrent link reply s h = ground (arith, send-IsCurrent link status s h)

  answered-IsCurrent :
      (reply : Option DriveState) (rest : Supervisor F × Ending) (s : Supervisor F)
      → IsCurrent rest.0
      → IsCurrent s
      → IsCurrent (answered reply rest s).0
  answered-IsCurrent none rest s h k = k
  answered-IsCurrent (some armed) rest s h k = k
  answered-IsCurrent (some fault) rest s h k = k
  answered-IsCurrent (some disarmed) rest s h k = h
  answered-IsCurrent (some another) rest s h k = h

  begun-IsCurrent :
      (reply : Option DriveState) (after : Supervisor F × Ending) (s : Supervisor F)
      → IsCurrent after.0
      → IsCurrent s
      → IsCurrent (begun reply after s).0
  begun-IsCurrent none after s h k = k
  begun-IsCurrent (some armed) after s h k = k
  begun-IsCurrent (some fault) after s h k = k
  begun-IsCurrent (some disarmed) after s h k = h
  begun-IsCurrent (some another) after s h k = k

  attempts-IsCurrent :
      (pump : Bool) (deadline : F) (tries : List (Attempt F)) (s : Supervisor F)
      → IsCurrent s
      → IsCurrent (attempts pump deadline tries s).0
  unfolding attempts
  attempts-IsCurrent pump deadline [] s h = h
  attempts-IsCurrent pump deadline (a ∷ more) s h =
      let s1 = (send a.link (arming pump) s).0 in
      let s2 = (ask a.status_link a.reply s1).0 in
      let sent = send-IsCurrent a.link (arming pump) s h in
      let asked = ask-IsCurrent a.status_link a.reply s1 sent in
      let Held = λ (r : Supervisor F × Ending). IsCurrent r.0 in
      if_split Held (fl.lt a.clock deadline) _ _
        (λ y.
          if_split Held (send a.link (arming pump) s).1 _ _
            (λ z.
              answered-IsCurrent (ask a.status_link a.reply s1).1 (attempts pump deadline more s2)
                s2 (attempts-IsCurrent pump deadline more s2 asked) asked)
            (λ z. sent))
        (λ n. h)

  arm-IsCurrent :
      (link : Bool) (reply : Option DriveState) (clock : F) (tries : List (Attempt F))
      (s : Supervisor F)
      → IsCurrent s
      → IsCurrent (arm link reply clock tries s).0
  unfolding arm
  arm-IsCurrent link reply clock tries s h =
      let asked = ask-IsCurrent link reply s h in
      let s' = (ask link reply s).0 in
      let deadline = fl.add clock (fl.lit (pos 2) 0) in
      begun-IsCurrent (ask link reply s).1 (attempts s.pump deadline tries s') s'
        (attempts-IsCurrent s.pump deadline tries s' asked) asked

  shutdown-IsCurrent : (link : Bool) (s : Supervisor F) → IsCurrent s → IsCurrent (shutdown link s)
  unfolding shutdown send
  shutdown-IsCurrent link s h = ground arith

-- A call from another thread, a round of the loop or `shutdown`; the loop leaves for `shutdown` once it
-- is halted. A round is one step: `late` is one in which a stop comes after the loop's test, and what
-- else comes within a round is taken before or after it.
pub data Call (F : Type 0) : Type 0 where
  offers : List (List F) → ℤ → ℤ → Call F
  drops : ℤ → Call F
  stops : Reason → Kind → Call F
  rounds : Input F → Call F
  late : Reason → Kind → Input F → Call F
  shuts : Bool → Call F
  modes : Mode → ℤ → Call F
  arms : Bool → Option DriveState → F → List (Attempt F) → Call F

module _ {F : Type 0} ⦃fl : Float F⦄ where
  unfoldable pub call : Call F → Supervisor F → Supervisor F
  unfolding offer drop_plan stop tick shutdown set_mode arm
  call (offers rows t0 obs) s = (offer rows t0 obs s).0
  call (drops clock) s = drop_plan clock s
  call (stops r k) s = stop r k s
  call (rounds i) s = if s.halted then shutdown i.link s else tick i s
  call (late r k i) s = let s' = stop r k s in if s.halted then shutdown i.link s' else tick i s'
  call (shuts link) s = shutdown link s
  call (modes m clock) s = set_mode m clock s
  call (arms link reply clock tries) s = (arm link reply clock tries s).0

  call-IsCurrent : (c : Call F) (s : Supervisor F) → IsCurrent s → IsCurrent (call c s)
  unfolding call drop_plan set_mode
  call-IsCurrent (offers rows t0 obs) s h = offer-IsCurrent rows t0 obs s h
  call-IsCurrent (drops clock) s h = (tt, h.1)
  call-IsCurrent (stops r k) s h = stop-IsCurrent r k s h
  call-IsCurrent (rounds i) s h =
      ground (arith, shutdown-IsCurrent i.link s h, tick-IsCurrent i s h)
  call-IsCurrent (late r k i) s h =
      let s' = stop r k s in
      let h' = stop-IsCurrent r k s h in
      if_split IsCurrent s.halted (shutdown i.link s') (tick i s')
        (λ y. shutdown-IsCurrent i.link s' h') (λ n. tick-IsCurrent i s' h')
  call-IsCurrent (shuts link) s h = shutdown-IsCurrent link s h
  call-IsCurrent (modes m clock) s h = (tt, h.1)
  call-IsCurrent (arms link reply clock tries) s h = arm-IsCurrent link reply clock tries s h

  unfoldable pub calls : List (Call F) → Supervisor F → Supervisor F
  unfolding call
  calls [] s = s
  calls (c ∷ cs) s = calls cs (call c s)

  calls-IsCurrent_from :
      (cs : List (Call F)) (s : Supervisor F) → IsCurrent s → IsCurrent (calls cs s)
  unfolding calls
  calls-IsCurrent_from [] s h = h
  calls-IsCurrent_from (c ∷ cs) s h = calls-IsCurrent_from cs (call c s) (call-IsCurrent c s h)

  -- After any calls and rounds in any order: a plan runs in model mode only, was observed after
  -- the last change of mode or prompt, and is the last that was accepted; and the run is halted
  -- exactly when a reason is recorded.
  pub calls-IsCurrent :
      (fps max_age renew first_plan_s : F) (has_pad pump start_model : Bool)
      (tasks : Option TaskList) (clock : ℤ) (cs : List (Call F))
      → IsCurrent (
          calls cs
            (make_supervisor fps max_age renew first_plan_s has_pad pump start_model tasks clock))
  unfolding make_supervisor
  calls-IsCurrent fps max_age renew first_plan_s has_pad pump start_model tasks clock cs =
      calls-IsCurrent_from cs
        (make_supervisor fps max_age renew first_plan_s has_pad pump start_model tasks clock)
        (tt, refl)
