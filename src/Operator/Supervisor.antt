-- ===== src/Operator/Supervisor.antt =====
-- native_stack/tools/vla_operator.py: `Supervisor`, the thread that owns the drive connection, with
-- the `send` and `status` of the `Client` in native_stack/tools/client.py that it calls. The clock,
-- the sticks, the buttons that a poll reports, whether a packet is sent and the controller's answer
-- are the inputs of a round. The printed notes and the buffers that record a run are left out.
pub mod Round
pub mod Current
pub mod Trouble
pub mod Messages
pub mod Stops
pub mod Arm
pub mod Arming
use kaivuriprokkis.Prelude.{
  not, ◌||◌, ℕ, ◌+◌, ◌-◌, ◌==◌, Bool, true, false, not, ◌&&◌, ◌||◌, Option, none, some, List, [],
  ◌∷◌, ◌++◌, length, drop, replicate, if◌then◌else◌,
}
use kaivuriprokkis.Prelude.Int.{ℤ, pos, negsuc, ◌+ℤ◌, ◌-ℤ◌, ltb_ℤ, leb_ℤ}
use kaivuriprokkis.Prelude.Dict.{Dict, insert}
use kaivuriprokkis.Float.{Float}
use kaivuriprokkis.Operator.Tasks.{TaskList, step}
use Prim.Native.String.{String}

pub data Mode : Type 0 where
  model manual : Mode

pub data Kind : Type 0 where
  finished plan_problem gamepad controller error : Kind

-- Why a run stops; `asked` is a caller's text.
pub data Reason : Type 0 where
  no_first_plan observation_age chunk_exhausted gamepad_error controller_state supervisor_error :
      Reason
  asked : String → Reason

pub data Button : Type 0 where
  btn_a btn_x btn_b btn_dpad_left btn_dpad_right other : Button

pub record Plan (F : Type 0) : Type 0 where
  pub rows : List (List F)
  pub t0_ns : ℤ
  pub obs_ns : ℤ
  pub id : ℕ

-- A packet: the rows, the flags, fps, t0_ns and observation_ns of a DRIVE.
pub data Message (F : Type 0) : Type 0 where
  drive : List (List F) → ℕ → F → ℤ → ℤ → Message F
  disarm status : Message F

-- `out` is what was sent on the connection, each with its sequence number, the newest first.
pub record Supervisor (F : Type 0) : Type 0 where
  pub fps : F
  pub max_age : F
  pub renew : F
  pub first_plan_s : F
  pub has_pad : Bool
  pub pump : Bool
  pub tasks : Option TaskList
  pub mode : Mode
  pub model_since : ℤ
  pub plan : Option (Plan F)
  pub sent_plan : Option (List (List F) × (ℤ × ℕ))
  pub fresh : Bool
  pub next_id : ℕ
  pub stopped : Option (Reason × Kind)
  pub halted : Bool
  pub closed : Bool
  pub connected : Bool
  pub sequence : ℕ
  pub by_sequence : Dict ℕ (ℤ × List (List F))
  pub sent : ℕ
  pub last_send : ℤ
  pub out : List (ℕ × Message F)

pub data Refusal : Type 0 where
  manual_mode observed_before not_newer : Refusal

module _ {F : Type 0} where
  -- DEADMAN | (PUMP if self.pump else 0)
  abbrev pub flags : Supervisor F → ℕ
  flags s = if s.pump then 5 else 1

  -- `clock` is the time of the construction.
  unfoldable pub make_supervisor :
      F → F → F → F → Bool → Bool → Bool → Option TaskList → ℤ → Supervisor F
  make_supervisor fps max_age renew first_plan_s has_pad pump start_model tasks clock = record {
    fps = fps;
    max_age = max_age;
    renew = renew;
    first_plan_s = first_plan_s;
    has_pad = has_pad;
    pump = pump;
    tasks = tasks;
    mode = if not has_pad || start_model then model else manual;
    model_since = clock;
    plan = none;
    sent_plan = none;
    fresh = false;
    next_id = 0;
    stopped = none;
    halted = false;
    closed = false;
    connected = true;
    sequence = 0;
    by_sequence = [];
    sent = 0;
    last_send = pos 0;
    out = [];
  }

  unfoldable pub set_mode : Mode → ℤ → Supervisor F → Supervisor F
  set_mode m clock s = record s { mode = m; plan = none; sent_plan = none; model_since = clock }

  unfoldable pub drop_plan : ℤ → Supervisor F → Supervisor F
  drop_plan clock s = record s { plan = none; sent_plan = none; model_since = clock }

  unfoldable pub running_plan : Supervisor F → Option (List (List F) × (ℤ × ℕ))
  running_plan s = elim s.plan [ none ↦ none | some p ↦ some (p.rows, (p.t0_ns, p.id)) ]

  -- The reason to refuse an offer, in the order of the tests.
  unfoldable pub refusal : ℤ → Supervisor F → Option Refusal
  refusal obs s = elim s.mode [
    | manual ↦ some manual_mode
    | model ↦ if leb_ℤ obs s.model_since then some observed_before else elim s.plan [
      | none ↦ none
      | some p ↦ if leb_ℤ obs p.obs_ns then some not_newer else none
    ]
  ]

  unfoldable pub offer : List (List F) → ℤ → ℤ → Supervisor F → Supervisor F × Option Refusal
  unfolding refusal
  offer rows t0 obs s = elim (refusal obs s) [
    | some r ↦ (s, some r)
    | none ↦ (
      record s {
        next_id = s.next_id + 1;
        plan = some (record { rows = rows; t0_ns = t0; obs_ns = obs; id = s.next_id + 1 });
        fresh = true;
      },
      none,
    )
  ]

  -- The first reason stays.
  unfoldable pub stop : Reason → Kind → Supervisor F → Supervisor F
  stop r k s = elim s.stopped [
    | none ↦ record s { stopped = some (r, k); halted = true }
    | some _ ↦ record s { halted = true }
  ]

  abbrev pub are_six : List (List F) → Bool
  are_six [] = true
  are_six (r ∷ rs) = length r == 6 && are_six rs

  -- Only a DRIVE has rows, and each must be of six controls.
  abbrev pub is_packed : Message F → Bool
  is_packed (drive rows _ _ _ _) = are_six rows
  is_packed disarm = true
  is_packed status = true

  -- `Client.send`, and whether it returns: `link` says whether the open socket takes the packet.
  unfoldable pub send : Bool → Message F → Supervisor F → Supervisor F × Bool
  send link m s =
      if is_packed m && (link && s.connected)
      then (record s { sequence = s.sequence + 1; out = (s.sequence + 1, m) ∷ s.out }, true)
      else (record s { sequence = s.sequence + 1 }, false)
