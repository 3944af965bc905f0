-- ===== src/Operator/Supervisor/Arm.antt =====
-- native_stack/tools/vla_operator.py: `Supervisor.arm`, with the `arm` of the `Client` in
-- native_stack/tools/client.py that it calls.
use kaivuriprokkis.Prelude.{Bool, Option, none, some, List, [], ◌∷◌, replicate, if◌then◌else◌}
use kaivuriprokkis.Prelude.Int.{pos}
use kaivuriprokkis.Float.{Float}
use kaivuriprokkis.Operator.Supervisor.{Message, drive, status, Supervisor, send}

-- The `state` of an answer that is told apart
pub data DriveState : Type 0 where
  disarmed armed fault another : DriveState

-- A pass of the loop of `Client.arm`: the clock of its test, whether the two packets go out, and the
-- answer, or none when it raises.
pub record Attempt (F : Type 0) : Type 0 where
  pub clock : F
  pub link : Bool
  pub status_link : Bool
  pub reply : Option DriveState

-- How the call ends; `waiting` is a loop that has not left yet.
pub data Ending : Type 0 where
  returned not_disarmed faulted timed_out failed waiting : Ending

module _ {F : Type 0} where
  -- `Client.status`: the answer, where the request went out
  unfoldable pub ask : Bool → Option DriveState → Supervisor F → Supervisor F × Option DriveState
  unfolding send
  ask link reply s = let (s', ok) = send link status s in if ok then (s', reply) else (s', none)

module _ {F : Type 0} ⦃fl : Float F⦄ where
  -- [(0,) * 6] with DEADMAN | ARM | (PUMP if pump else 0)
  abbrev pub arming : Bool → Message F
  arming pump =
      drive (replicate 6 (fl.lit (pos 0) 0) ∷ []) (if pump then 7 else 3) (fl.lit (pos 30) 0)
        (pos 0) (pos 0)

  -- What a pass does with its answer, and the passes after it
  abbrev pub answered :
      Option DriveState → Supervisor F × Ending → Supervisor F → Supervisor F × Ending
  answered none rest s = (s, failed)
  answered (some armed) rest s = (s, returned)
  answered (some fault) rest s = (s, faulted)
  answered (some disarmed) rest s = rest
  answered (some another) rest s = rest

  -- The loop of `Client.arm`
  unfoldable pub attempts : Bool → F → List (Attempt F) → Supervisor F → Supervisor F × Ending
  unfolding send ask
  attempts pump deadline [] s = (s, waiting)
  attempts pump deadline (a ∷ more) s =
      let (s1, ok) = send a.link (arming pump) s in
      let (s2, reply) = ask a.status_link a.reply s1 in
      let rest = attempts pump deadline more s2 in
      if fl.lt a.clock deadline
      then (if ok then answered reply rest s2 else (s1, failed))
      else (s, timed_out)

  -- What `Supervisor.arm` does with the answer to its request, and `Client.arm` after it
  abbrev pub begun :
      Option DriveState → Supervisor F × Ending → Supervisor F → Supervisor F × Ending
  begun none after s = (s, failed)
  begun (some disarmed) after s = after
  begun (some armed) after s = (s, not_disarmed)
  begun (some fault) after s = (s, not_disarmed)
  begun (some another) after s = (s, not_disarmed)

  -- `clock` is the time when `Client.arm` is entered, `reply` the answer to the first request.
  unfoldable pub arm :
      Bool → Option DriveState → F → List (Attempt F) → Supervisor F → Supervisor F × Ending
  unfolding ask attempts
  arm link reply clock tries s =
      let (s', first) = ask link reply s in
      let after = attempts s.pump (fl.add clock (fl.lit (pos 2) 0)) tries s' in begun first after s'
