-- ===== src/Drive/Buttons.antt =====
-- reference/simple_drive.py: what the loop of `main` does with a poll of the input, the edges of the
-- buttons.
use kaivuriprokkis.Prelude.{
  ℕ, Bool, true, false, not, Option, none, some, List, [], ◌∷◌, if◌then◌else◌,
}
use kaivuriprokkis.Prelude.Int.{ℤ, pos, negsuc}
use kaivuriprokkis.Float.{Float}
use kaivuriprokkis.Drive.Numeric.{Numpy, Random}
use kaivuriprokkis.Drive.Generator.{Generator}
use kaivuriprokkis.Drive.Draw.{reseed, toggle, step_target}
use kaivuriprokkis.Drive.Logger.{cleared, sent, slept, reloaded, pump, capturing, start_logging}
use kaivuriprokkis.Drive.Session.{
  bad_seed, not_sent, ended_by, Axes, DriveSettings, Pass, DriveSession, DriveStep, is_pressed,
  done, in_turn, stop_recording,
}

module _ {F G : Type 0} ⦃fl : Float F⦄ ⦃np : Numpy F⦄ ⦃rn : Random F G⦄ where
  unfoldable pub start_with :
      Option (Generator F G) → DriveSettings F → Pass F → DriveSession F G → DriveStep F G
  unfolding start_logging done
  start_with none c i s = record { session = s; outputs = []; error = some bad_seed }
  start_with (some g) c i s = done (if c.imu_on then capturing true ∷ [] else []) (record s {
    excitation = g;
    logger = start_logging i.started_mono s.logger;
    record_start_time = some i.now;
  })

  unfoldable pub start_recording : DriveSettings F → Pass F → DriveSession F G → DriveStep F G
  unfolding reseed start_with
  start_recording c i s = start_with (reseed c.excitation_seed i.entropy s.excitation) c i s

  unfoldable pub press_a : DriveSettings F → Pass F → Bool → DriveSession F G → DriveStep F G
  unfolding start_recording stop_recording done
  press_a c i pressed s =
      if pressed
      then (if s.logger.is_logging
          then stop_recording c i.stop_fault i.stop_frames s
          else start_recording c i s)
      else done [] s

  unfoldable pub press_b : Bool → DriveSession F G → DriveStep F G
  unfolding toggle done
  press_b pressed s = done [] (if pressed then record s { excitation = toggle s.excitation } else s)

  unfoldable pub press_x : Option Bool → Bool → DriveSession F G → DriveStep F G
  unfolding done
  press_x (some on) true s = done (pump (not on) ∷ []) s
  press_x _ _ s = done [] s

  unfoldable pub press_y : Bool → Bool → DriveSession F G → DriveStep F G
  unfolding done ended_by
  press_y sends false s = done [] s
  press_y true true s = done (cleared ∷ sent ∷ slept ∷ reloaded ∷ []) s
  press_y false true s = ended_by not_sent (cleared ∷ []) s

  unfoldable pub press_dpad : ℤ → Bool → DriveSession F G → DriveStep F G
  unfolding step_target done
  press_dpad step pressed s =
      done [] (if pressed then record s { excitation = step_target step s.excitation } else s)

  abbrev took : Axes F → DriveSession F G → DriveSession F G
  took axes s = record s { axes = axes }

  unfoldable pub note_mask : ℕ → DriveSession F G → DriveStep F G
  unfolding done
  note_mask mask s = done [] (record s { mask_prev = mask })

  abbrev pub press_parts :
      DriveSettings F → Pass F → (ℕ → Bool) → ℕ → List (DriveSession F G → DriveStep F G)
  press_parts c i on mask =
      press_a c i (on 0)
      ∷ press_b (on 1)
      ∷ press_x i.pump_enabled (on 2)
      ∷ press_y i.reset_sends (on 3)
      ∷ press_dpad (pos 1) (on 4)
      ∷ press_dpad (negsuc 0) (on 5)
      ∷ note_mask mask
      ∷ []

  -- The buttons newly pressed, in order.
  unfoldable pub press_buttons :
      DriveSettings F → Pass F → (ℕ → Bool) → ℕ → DriveSession F G → DriveStep F G
  unfolding in_turn press_a press_b press_x press_y press_dpad note_mask
  press_buttons c i on mask = in_turn (press_parts c i on mask)

  unfoldable pub receive_from :
      Option (Axes F × ℕ) → DriveSettings F → Pass F → DriveSession F G → DriveStep F G
  unfolding press_buttons is_pressed done
  receive_from none c i s = done [] s
  receive_from (some (axes, mask)) c i s =
      press_buttons c i (is_pressed s.mask_prev mask) mask (took axes s)

  unfoldable pub receive : DriveSettings F → Pass F → DriveSession F G → DriveStep F G
  unfolding receive_from
  receive c i s = receive_from i.polled c i s
