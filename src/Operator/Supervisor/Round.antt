-- ===== src/Operator/Supervisor/Round.antt =====
-- native_stack/tools/vla_operator.py: the rounds of `Supervisor.run`. The commands of a round and
-- `shutdown` are one step each, whose inputs are what they read from outside.
use kaivuriprokkis.Prelude.{
  ℕ, ◌+◌, ◌-◌, ◌==◌, Bool, true, false, not, ◌||◌, Option, none, some, List, [], ◌∷◌, length, drop,
  replicate, if◌then◌else◌,
}
use kaivuriprokkis.Prelude.Int.{ℤ, pos, negsuc, ◌+ℤ◌, ◌-ℤ◌, leb_ℤ}
use kaivuriprokkis.Prelude.Dict.{Dict, insert}
use kaivuriprokkis.Float.{Float}
use kaivuriprokkis.Operator.Tasks.{step}
use Prim.Native.String.{String}
use kaivuriprokkis.Operator.Supervisor.{
  Mode, model, manual, plan_problem, gamepad, controller, error, Reason, no_first_plan,
  observation_age, chunk_exhausted, gamepad_error, controller_state, supervisor_error, Button,
  btn_a, btn_x, btn_b, btn_dpad_left, btn_dpad_right, other, Plan, Message, drive, disarm, status,
  Supervisor, flags, set_mode, drop_plan, stop, send,
}

-- What a round reads from outside: the clock, the buttons of a poll, each with the clock of its
-- handler, or none when the pad fails, the sticks, the clock of a fallback, the links and the reply.
pub record Input (F : Type 0) : Type 0 where
  pub now : ℤ
  pub polled : Option (List (Button × ℤ))
  pub sticks : List F
  pub hold_clock : ℤ
  pub link : Bool
  pub status_link : Bool
  pub armed : Option Bool

-- self.plan, fresh and model_since, read at once, with fresh cleared
pub record Snapshot (F : Type 0) : Type 0 where
  pub plan : Option (Plan F)
  pub fresh : Bool
  pub since : ℤ

unfoldable pub toggled : Mode → Mode
toggled model = manual
toggled manual = model

abbrev is_nil : List String → Bool
is_nil [] = true
is_nil (_ ∷ _) = false

module _ {F : Type 0} where
  -- A D-pad button: a new instruction, where there are tasks. A step of no tasks divides by zero.
  unfoldable pub switch_task : ℤ → ℤ → Supervisor F → Supervisor F × Bool
  unfolding drop_plan step
  switch_task d clock s = elim s.tasks [
    | none ↦ (s, true)
    | some l ↦
        if is_nil l.items
        then (drop_plan clock s, false)
        else (record (drop_plan clock s) { tasks = some (step d l) }, true)
  ]

  unfoldable pub press : Button → ℤ → Supervisor F → Supervisor F × Bool
  unfolding set_mode switch_task toggled
  press btn_a clock s = (set_mode (toggled s.mode) clock s, true)
  press btn_x clock s = (record s { pump = not s.pump }, true)
  press btn_b clock s = (s, true)
  press btn_dpad_left clock s = switch_task (negsuc 0) clock s
  press btn_dpad_right clock s = switch_task (pos 1) clock s
  press other clock s = (s, true)

  unfoldable pub press_all : List (Button × ℤ) → Supervisor F → Supervisor F × Bool
  unfolding press
  press_all [] s = (s, true)
  press_all ((b, clock) ∷ bs) s =
      let (s', ok) = press b clock s in
      let rest = press_all bs s' in if ok then rest else (s', false)

  unfoldable pub snapshot : Supervisor F → Supervisor F × Snapshot F
  snapshot s =
      (record s { fresh = false }, record { plan = s.plan; fresh = s.fresh; since = s.model_since })

module _ {F : Type 0} ⦃fl : Float F⦄ where
  -- [(0.0,) * 6] with the defaults of `send`
  unfoldable pub centred : Supervisor F → Message F
  centred s =
      drive (replicate 6 (fl.lit (pos 0) 0) ∷ []) (flags s) (fl.lit (pos 30) 0) (pos 0) (pos 0)

  abbrev pub seconds : ℤ → F
  seconds n = fl.div (fl.of_int n) (fl.lit (pos 1_000_000_000) 0)

  -- `_hold`, and whether it returns
  unfoldable pub hold : Reason → ℤ → Bool → Supervisor F → Supervisor F × Bool
  unfolding centred stop set_mode send
  hold r clock link s =
      if s.has_pad
      then send link (centred s) (set_mode manual clock s)
      else (stop r plan_problem s, true)

  -- The time at which the last row of a plan is due.
  unfoldable pub end_of : F → Plan F → ℤ
  end_of fps p =
      p.t0_ns
      +ℤ fl.trunc (
          fl.mul (fl.div (fl.of_int (pos (length p.rows) -ℤ pos 1)) fps)
            (fl.lit (pos 1_000_000_000) 0))

  unfoldable pub problem : ℤ → Plan F → Supervisor F → Option Reason
  unfolding end_of
  problem now p s =
      if fl.lt s.max_age (seconds (now -ℤ p.obs_ns))
      then some observation_age
      else if leb_ℤ (end_of s.fps p) now
      then some chunk_exhausted
      else none

  -- The packets that are looked up again: the last 256.
  abbrev trimmed : Dict ℕ (ℤ × List (List F)) → Dict ℕ (ℤ × List (List F))
  trimmed m = drop (length m - 256) m

  -- What follows the send of a plan, where it returns.
  unfoldable pub recorded : ℤ → Plan F → Supervisor F × Bool → Supervisor F × Bool
  recorded now p (s, false) = (s, false)
  recorded now p (s, true) = (
    record s {
      by_sequence = trimmed (insert ◌==◌ s.sequence (p.t0_ns, p.rows) s.by_sequence);
      sent_plan = some (p.rows, (p.t0_ns, p.id));
      sent = s.sent + 1;
      last_send = now;
    },
    true,
  )

  -- The part of `_model_tick` that sends the plan.
  unfoldable pub send_plan : ℤ → Bool → Bool → Plan F → Supervisor F → Supervisor F × Bool
  unfolding send recorded
  send_plan now link fresh p s =
      if fresh
        || fl.le (fl.mul s.renew (fl.lit (pos 1_000_000_000) 0)) (fl.of_int (now -ℤ s.last_send))
      then recorded now p (send link (drive p.rows (flags s) s.fps p.t0_ns p.obs_ns) s)
      else (s, true)

  -- What `_model_tick` does with a plan, by what is wrong with it.
  unfoldable pub follow :
      Input F → Bool → Plan F → Option Reason → Supervisor F → Supervisor F × Bool
  unfolding hold send_plan
  follow i fresh p (some r) s = hold r i.hold_clock i.link s
  follow i fresh p none s = send_plan i.now i.link fresh p s

  unfoldable pub act : Input F → Snapshot F → Supervisor F → Supervisor F × Bool
  unfolding hold problem follow centred send
  act i q s = elim q.plan [
    | none ↦
        if fl.lt s.first_plan_s (seconds (i.now -ℤ q.since))
        then hold no_first_plan i.hold_clock i.link s
        else send i.link (centred s) s
    | some p ↦ follow i q.fresh p (problem i.now p s) s
  ]

  unfoldable pub model_tick : Input F → Supervisor F → Supervisor F × Bool
  unfolding snapshot act
  model_tick i s = let (s', q) = snapshot s in act i q s'

  unfoldable pub send_sticks : Input F → Supervisor F → Supervisor F × Bool
  unfolding send
  send_sticks i s =
      send i.link (drive (i.sticks ∷ []) (flags s) (fl.lit (pos 30) 0) (pos 0) (pos 0)) s

  unfoldable pub command_in : Mode → Input F → Supervisor F → Supervisor F × Bool
  unfolding model_tick send_sticks
  command_in model i s = model_tick i s
  command_in manual i s = send_sticks i s

  unfoldable pub command : Input F → Supervisor F → Supervisor F × Bool
  unfolding command_in
  command i s = command_in s.mode i s

  -- The controller's answer: no answer raises, and any state but armed stops the run.
  unfoldable pub observe : Input F → Supervisor F → Supervisor F
  unfolding send stop
  observe i s =
      let (s', ok) = send i.status_link status s in
      if ok
      then elim i.armed [
        | none ↦ stop supervisor_error error s'
        | some armed ↦ if armed then s' else stop controller_state controller s'
      ]
      else stop supervisor_error error s'

  unfoldable pub drive_round : Input F → Supervisor F → Supervisor F
  unfolding command observe stop
  drive_round i s =
      let (s', ok) = command i s in
      if ok then (if s'.halted then s' else observe i s') else stop supervisor_error error s'

  -- A round from what a poll reports on
  unfoldable pub polled_round : Input F → Option (List (Button × ℤ)) → Supervisor F → Supervisor F
  unfolding press_all drive_round stop
  polled_round i none s = stop gamepad_error gamepad s
  polled_round i (some bs) s =
      let (s', ok) = press_all bs s in
      if ok then drive_round i s' else stop supervisor_error error s'

  -- One round of the loop of `run`. Every way out of the loop has set `halted`.
  unfoldable pub tick : Input F → Supervisor F → Supervisor F
  unfolding polled_round drive_round
  tick i s = if s.has_pad then polled_round i i.polled s else drive_round i s

  unfoldable pub shutdown : Bool → Supervisor F → Supervisor F
  unfolding send
  shutdown link s =
      if s.closed
      then s
      else record (send link disarm (record s { closed = true })).0 { connected = false }
