-- ===== src/Drive/Neutral.antt =====
-- What the loop of `main` sends to the valves, over a whole run.
use kaivuriprokkis.Prelude.{
  if_either, ℕ, ◌≡◌, refl, Bool, true, false, ◌&&◌, ◌||◌, Option, none, some, List, [], ◌∷◌, ◌++◌,
  All, take, zero, suc, if◌then◌else◌,
}
use kaivuriprokkis.Prelude.Int.{ℤ, pos, negsuc}
use kaivuriprokkis.Prelude.Dict.{Dict}
use kaivuriprokkis.Float.{Float, IsOrdered}
use kaivuriprokkis.Recording.DriveLog.{LogError}
use Prim.Native.String.{String}
use kaivuriprokkis.Drive.Numeric.{Numpy, Random, IsClip}
use kaivuriprokkis.Drive.Generator.{Generator, observe}
use kaivuriprokkis.Drive.Draw.{reseed}
use kaivuriprokkis.Drive.Sampling.{DriveCommands, build_drive_commands}
use kaivuriprokkis.Drive.Combined.{IsCommand, combine-IsCommand}
use kaivuriprokkis.Drive.Logger.{
  Output, gave, cleared, sent, reloaded, wrote_log, wrote_sidecar, wrote_imu, DataLogger,
  BlockEntry, save_imu_raw_strip, has_samples, has_frames, sidecar, save, stop_and_save, Fault,
  unsent, unwritten,
}
use kaivuriprokkis.Drive.Session.{
  Axes, DriveSettings, Frames, Pass, DriveSession, DriveStep, is_pressed, done, then_unless,
  then_do, in_turn, is_over_time, manual_of, is_stale_input, drain_imu_raw, stop_recording,
  ended_by,
}
use kaivuriprokkis.Drive.Buttons.{
  start_with, start_recording, press_buttons, receive_from, press_a, press_b, press_x, press_y,
  press_dpad, note_mask, press_parts, receive,
}
use kaivuriprokkis.Drive.Loop.{
  unless, after_sample, log_tick, send_commands, log_part, stop_part, drive_parts, drive_with,
  drive, pass_parts, pass, release, save_last, finish, main_loop,
}

-- How the valves stand: under a command, with a neutral command not yet sent, or neutral.
pub data Valves : Type 0 where
  commanded pending neutral : Valves

abbrev after_sent : Valves → Valves
after_sent commanded = commanded
after_sent _ = neutral

module _ {F : Type 0} where
  unfoldable pub valves_after : Output F → Valves → Valves
  valves_after (gave _) v = commanded
  valves_after cleared v = pending
  valves_after sent v = after_sent v
  valves_after _ v = v

module _ {F : Type 0} ⦃fl : Float F⦄ where
  -- A command is within [-1, 1] or NaN, and a file is written, or the configuration reloaded, only with
  -- the valves neutral.
  abbrev Fit : Valves → Output F → Type 0
  Fit v (gave commands) = All (λ e. IsCommand e.1) commands
  Fit v reloaded = v ≡ neutral
  Fit v (wrote_log _) = v ≡ neutral
  Fit v (wrote_sidecar _) = v ≡ neutral
  Fit v (wrote_imu _) = v ≡ neutral
  Fit v _ = Unit

  abbrev pub AreFit : Valves → List (Output F) → Type 0
  AreFit v [] = Unit
  AreFit v (o ∷ os) = Fit v o × AreFit (valves_after o v) os

  -- However the valves stand before.
  abbrev AlwaysFit : List (Output F) → Type 0
  AlwaysFit os = (v : Valves) → AreFit v os

  append-AreFit :
      (v : Valves) (os ps : List (Output F)) → AreFit v os → AlwaysFit ps → AreFit v (os ++ ps)
  append-AreFit v [] ps h k = k v
  append-AreFit v (o ∷ os) ps (f, h) k = (f, append-AreFit (valves_after o v) os ps h k)

  append-AlwaysFit : (os ps : List (Output F)) → AlwaysFit os → AlwaysFit ps → AlwaysFit (os ++ ps)
  append-AlwaysFit os ps h k v = append-AreFit v os ps (h v) k

  imu_strip-AreFit : (s : DataLogger F) → AreFit neutral (save_imu_raw_strip s)
  unfolding save_imu_raw_strip
  imu_strip-AreFit s =
      if_either (AreFit neutral) (s.has_roles && has_frames s) _ _ (λ y. (refl, tt)) tt

  save-AreFit : (s : DataLogger F) → AreFit neutral (save s)
  unfolding save valves_after
  save-AreFit s =
      if_either (AreFit neutral) (has_samples s) _ _ (λ y. (refl, files s.blocks))
        (imu_strip-AreFit s)
    where
      files :
          (bs : Dict (ℕ × ℤ) (BlockEntry F)) → AreFit neutral (sidecar bs ++ save_imu_raw_strip s)
      files [] = imu_strip-AreFit s
      files (b ∷ bs) = (refl, imu_strip-AreFit s)

  take-AreFit : (k : ℕ) (os : List (Output F)) (v : Valves) → AreFit v os → AreFit v (take k os)
  take-AreFit zero os v h = tt
  take-AreFit (suc k) [] v h = tt
  take-AreFit (suc k) (o ∷ os) v (f, h) = (f, take-AreFit k os (valves_after o v) h)

  stop_and_save-AlwaysFit :
      (fault : Option Fault) (s : DataLogger F) → AlwaysFit (stop_and_save fault s).1.0
  unfolding stop_and_save valves_after
  stop_and_save-AlwaysFit none s v =
      if_either (λ (p : DataLogger F × (List (Output F) × Bool)). AreFit v p.1.0)
        (has_samples s || has_frames s) _ _
        (λ y. (tt, (tt, (tt, save-AreFit (record s { is_logging = false }))))) (tt, (tt, tt))
  stop_and_save-AlwaysFit (some unsent) s v = (tt, tt)
  stop_and_save-AlwaysFit (some (unwritten k)) s v =
      let stopped = record s { is_logging = false } in
      if_either (λ (p : DataLogger F × (List (Output F) × Bool)). AreFit v p.1.0)
        (has_samples s || has_frames s) _ _
        (λ y. (tt, (tt, (tt, take-AreFit k (save stopped) neutral (save-AreFit stopped)))))
        (tt, (tt, tt))

  save_last-AlwaysFit : (fault : Option Fault) (s : DataLogger F) → AlwaysFit (save_last fault s)
  unfolding save_last valves_after
  save_last-AlwaysFit none s v = (
    tt,
    (tt, (tt, append-AreFit neutral (save s) release (save-AreFit s) (λ w. (tt, (tt, (tt, tt)))))),
  )
  save_last-AlwaysFit (some unsent) s v = (tt, tt)
  save_last-AlwaysFit (some (unwritten k)) s v =
      (tt, (tt, (tt, take-AreFit k (save s) neutral (save-AreFit s))))

module _ {F G : Type 0} ⦃fl : Float F⦄ where
  -- The outputs of a step are fit, however the valves stand before.
  unfoldable IsFitStep : DriveStep F G → Type 0
  IsFitStep a = AlwaysFit a.outputs

  stop_recording-AlwaysFit :
      (c : DriveSettings F) (fault : Option Fault) (frames : Frames F) (s : DriveSession F G)
      → IsFitStep (stop_recording c fault frames s)
  unfolding stop_recording done ended_by IsFitStep
  stop_recording-AlwaysFit c fault frames s =
      let logger = drain_imu_raw c frames s.logger in
      let saved = stop_and_save-AlwaysFit fault logger in
      if_either (λ (a : DriveStep F G). AlwaysFit a.outputs) (stop_and_save fault logger).1.1 _ _
        (λ y.
          append-AlwaysFit _ _ saved (if_either AlwaysFit c.imu_on _ _ (λ y v. (tt, tt)) (λ v. tt)))
        saved

  then_do-AlwaysFit :
      (a : DriveStep F G) (k : DriveSession F G → DriveStep F G)
      → IsFitStep a
      → ((s : DriveSession F G) → IsFitStep (k s))
      → IsFitStep (then_do a k)
  unfolding then_do then_unless IsFitStep
  then_do-AlwaysFit a k h f = elim a.error as (λ o. IsFitStep (then_unless o a k)) [
    | some e ↦ h
    | none ↦ append-AlwaysFit a.outputs (k a.session).outputs h (f a.session)
  ]

  finish-AlwaysFit :
      (c : DriveSettings F) (fault : Option Fault) (frames : Frames F) (s : DriveSession F G)
      → AlwaysFit (finish c fault frames s)
  unfolding finish valves_after
  finish-AlwaysFit c fault frames s v =
      let logger = drain_imu_raw c frames s.logger in
      (
        tt,
        if_either (AreFit v) (has_samples logger || has_frames logger) _ _
            (λ y. save_last-AlwaysFit fault (record logger { is_logging = false }) v)
            (tt, (tt, (tt, tt))),
      )

module _ {F G : Type 0} ⦃fl : Float F⦄ ⦃np : Numpy F⦄ ⦃rn : Random F G⦄ (ordered : IsOrdered F)
    (law : IsClip F) where
  start-AlwaysFit :
      (o : Option (Generator F G)) (c : DriveSettings F) (i : Pass F) (s : DriveSession F G)
      → IsFitStep (start_with o c i s)
  unfolding start_with done IsFitStep
  start-AlwaysFit none c i s = λ v. tt
  start-AlwaysFit (some g) c i s = if_either AlwaysFit c.imu_on _ _ (λ y v. (tt, tt)) (λ v. tt)

  done-AlwaysFit : (s : DriveSession F G) → IsFitStep (done [] s)
  unfolding done IsFitStep
  done-AlwaysFit s = λ v. tt

  press_a-AlwaysFit :
      (c : DriveSettings F) (i : Pass F) (on : Bool) (s : DriveSession F G)
      → IsFitStep (press_a c i on s)
  unfolding press_a start_recording
  press_a-AlwaysFit c i on s =
      let started = start-AlwaysFit (reseed c.excitation_seed i.entropy s.excitation) c i s in
      let ended = stop_recording-AlwaysFit c i.stop_fault i.stop_frames s in
      if_either IsFitStep on _ _
        (λ y. if_either IsFitStep s.logger.is_logging _ _ (λ z. ended) started) (done-AlwaysFit s)

  press_x-AlwaysFit :
      (enabled : Option Bool) (on : Bool) (s : DriveSession F G) → IsFitStep (press_x enabled on s)
  unfolding press_x done IsFitStep
  press_x-AlwaysFit none on s = λ v. tt
  press_x-AlwaysFit (some b) true s = λ v. (tt, tt)
  press_x-AlwaysFit (some b) false s = λ v. tt

  press_y-AlwaysFit : (sends on : Bool) (s : DriveSession F G) → IsFitStep (press_y sends on s)
  unfolding press_y done ended_by IsFitStep valves_after
  press_y-AlwaysFit true true s = λ v. (tt, (tt, (tt, (refl, tt))))
  press_y-AlwaysFit false true s = λ v. (tt, tt)
  press_y-AlwaysFit sends false s = λ v. tt

  press_b-AlwaysFit : (on : Bool) (s : DriveSession F G) → IsFitStep (press_b on s)
  unfolding press_b
  press_b-AlwaysFit on s = done-AlwaysFit _

  press_dpad-AlwaysFit :
      (step : ℤ) (on : Bool) (s : DriveSession F G) → IsFitStep (press_dpad step on s)
  unfolding press_dpad
  press_dpad-AlwaysFit step on s = done-AlwaysFit _

  note_mask-AlwaysFit : (mask : ℕ) (s : DriveSession F G) → IsFitStep (note_mask mask s)
  unfolding note_mask
  note_mask-AlwaysFit mask s = done-AlwaysFit _

  in_turn-AlwaysFit :
      (parts : List (DriveSession F G → DriveStep F G))
      → All (λ part. (s : DriveSession F G) → IsFitStep (part s)) parts
      → (s : DriveSession F G) → IsFitStep (in_turn parts s)
  unfolding in_turn
  in_turn-AlwaysFit [] h s = done-AlwaysFit s
  in_turn-AlwaysFit (part ∷ parts) (h, hs) s =
      then_do-AlwaysFit (part s) (in_turn parts) (h s) (in_turn-AlwaysFit parts hs)

  press_buttons-AlwaysFit :
      (c : DriveSettings F) (i : Pass F) (on : ℕ → Bool) (mask : ℕ) (s : DriveSession F G)
      → IsFitStep (press_buttons c i on mask s)
  unfolding press_buttons
  press_buttons-AlwaysFit c i on mask = in_turn-AlwaysFit (press_parts c i on mask) (
    press_a-AlwaysFit c i (on 0),
    (
      press_b-AlwaysFit (on 1),
      (
        press_x-AlwaysFit i.pump_enabled (on 2),
        (
          press_y-AlwaysFit i.reset_sends (on 3),
          (
            press_dpad-AlwaysFit (pos 1) (on 4),
            (press_dpad-AlwaysFit (negsuc 0) (on 5), (note_mask-AlwaysFit mask, tt)),
          ),
        ),
      ),
    ),
  )

  receive-AlwaysFit :
      (polled : Option (Axes F × ℕ)) (c : DriveSettings F) (i : Pass F) (s : DriveSession F G)
      → IsFitStep (receive_from polled c i s)
  unfolding receive_from done IsFitStep
  receive-AlwaysFit none c i s = λ v. tt
  receive-AlwaysFit (some (axes, mask)) c i s =
      press_buttons-AlwaysFit c i (is_pressed s.mask_prev mask) mask (record s { axes = axes })

  after_sample-AlwaysFit :
      (o : Option LogError) (c : DriveSettings F) (i : Pass F) (logger : DataLogger F)
      (s : DriveSession F G)
      → IsFitStep (after_sample o c i logger s)
  unfolding after_sample done IsFitStep
  after_sample-AlwaysFit none c i logger s = λ v. tt
  after_sample-AlwaysFit (some e) c i logger s = λ v. tt

  commands-IsCommand :
      (manual : Dict String F) (g : Generator F G) (t : F) (stale : Bool)
      → All (λ e. IsCommand e.1) (build_drive_commands manual g t stale).combined
  unfolding build_drive_commands
  commands-IsCommand manual g t stale = combine-IsCommand ordered law _ _

  send_commands-AlwaysFit :
      (sends : Bool) (commands : DriveCommands F G)
      → All (λ e. IsCommand e.1) commands.combined
      → (s : DriveSession F G) → IsFitStep (send_commands sends commands s)
  unfolding send_commands done ended_by IsFitStep valves_after
  send_commands-AlwaysFit true commands h s = λ v. (h, (tt, tt))
  send_commands-AlwaysFit false commands h s = λ v. (h, tt)

  log_part-AlwaysFit :
      (is_logging : Bool) (c : DriveSettings F) (i : Pass F) (stale : Bool)
      (commands : DriveCommands F G) (s : DriveSession F G)
      → IsFitStep (log_part is_logging c i stale commands s)
  unfolding log_part log_tick
  log_part-AlwaysFit false c i stale commands s = done-AlwaysFit s
  log_part-AlwaysFit true c i stale commands s = after_sample-AlwaysFit _ c i _ s

  stop_part-AlwaysFit :
      (is_logging : Bool) (c : DriveSettings F) (i : Pass F) (s : DriveSession F G)
      → IsFitStep (stop_part is_logging c i s)
  unfolding stop_part
  stop_part-AlwaysFit is_logging c i s =
      if_either IsFitStep (is_logging && is_over_time i.now s.record_start_time) _ _
        (λ y. stop_recording-AlwaysFit c i.end_fault i.end_frames s) (done-AlwaysFit s)

  drive-AlwaysFit :
      (c : DriveSettings F) (i : Pass F) (s : DriveSession F G) → IsFitStep (drive c i s)
  unfolding drive drive_with
  drive-AlwaysFit c i s =
      let stale = is_stale_input i.cmd_age_s i.is_live in
      let watched = observe (if c.imu_on then i.angles else none) s.excitation in
      let manual = manual_of c s.axes in
      let commands = build_drive_commands manual watched i.t stale in
      in_turn-AlwaysFit (drive_parts commands stale s.logger.is_logging c i)
        (
          send_commands-AlwaysFit i.sends commands (commands-IsCommand manual watched i.t stale),
          (
            log_part-AlwaysFit s.logger.is_logging c i stale commands,
            (stop_part-AlwaysFit s.logger.is_logging c i, tt),
          ),
        )
        s

  pass-AlwaysFit :
      (c : DriveSettings F) (i : Pass F) (s : DriveSession F G) → IsFitStep (pass c i s)
  unfolding pass receive
  pass-AlwaysFit c i =
      in_turn-AlwaysFit (pass_parts c i)
        ((λ s. receive-AlwaysFit i.polled c i s), ((λ s. drive-AlwaysFit c i s), tt))

  -- Over a whole run, whatever the input, the hardware and the clocks give in each pass, whether or
  -- not an exception ends it, and however the valves stand before: every command that is given is
  -- within [-1, 1] or NaN; and a recording is written, during the run or in the shutdown, and the
  -- servo configuration reloaded, only after a neutral command was sent and none given since.
  pub main_loop-AlwaysFit :
      (c : DriveSettings F) (is : List (Pass F)) (fault : Option Fault) (frames : Frames F)
      (s : DriveSession F G) (v : Valves)
      → AreFit v (main_loop c is fault frames s)
  unfolding main_loop IsFitStep
  main_loop-AlwaysFit c [] fault frames s v = finish-AlwaysFit c fault frames s v
  main_loop-AlwaysFit c (i ∷ is) fault frames s v =
      let a = pass c i s in
      append-AlwaysFit _ _ (pass-AlwaysFit c i s)
        (elim a.error
          as (λ o.
            AlwaysFit (
              unless o (finish c fault frames a.session) (main_loop c is fault frames a.session))) [
                | some e ↦ finish-AlwaysFit c fault frames a.session
                | none ↦ main_loop-AlwaysFit c is fault frames a.session
              ])
        v
