-- ===== src/Drive/Passes.antt =====
-- A recording over the passes of the loop of `main`.
use kaivuriprokkis.Prelude.{
  if_split, ℕ, ◌≡◌, refl, sym, ap, ◌∙◌, Bool, true, false, ◌&&◌, Option, none, some, List, [], ◌∷◌,
  Option-cases, inl, inr, if◌then◌else◌,
}
use mathlib.Core.Path.{subst}
use kaivuriprokkis.Prelude.Int.{ℤ, pos, negsuc}
use kaivuriprokkis.Float.{Float}
use kaivuriprokkis.Recording.DriveLog.{LogError}
use kaivuriprokkis.Drive.Numeric.{Numpy, Random}
use kaivuriprokkis.Drive.Generator.{Generator, observe}
use kaivuriprokkis.Drive.Draw.{reseed}
use kaivuriprokkis.Drive.Sampling.{DriveCommands, build_drive_commands}
use kaivuriprokkis.Drive.Strokes.{false≢true}
use kaivuriprokkis.Drive.Logger.{DataLogger, clear_logger, start_logging, metadata, stop_and_save}
use kaivuriprokkis.Drive.Session.{
  Axes, DriveError, DriveSettings, Pass, DriveSession, is_pressed, done, in_turn, stop_recording,
  ended_by, drain_imu_raw, is_over_time, is_stale_input, manual_of,
}
use kaivuriprokkis.Drive.Buttons.{
  start_with, start_recording, press_buttons, receive_from, press_a, press_b, press_x, press_y,
  press_dpad, note_mask, press_parts, receive,
}
use kaivuriprokkis.Drive.Loop.{
  after_sample, sample_of, log_tick, send_commands, log_part, stop_part, drive_parts, drive_with,
  drive, pass_parts, pass,
}
use kaivuriprokkis.Drive.Watch.{none≢some}
use kaivuriprokkis.Drive.Recorded.{
  is_some, IsKept, log_sample-IsKept, drain-IsKept, IsRecording, IsKeptStep, done-IsKept,
  stop_recording-IsKept, in_turn-IsKept, Ends, then_do-Ends,
}

abbrev pub ended_or {ℓ} : {A : Type ℓ} → Option DriveError → A → A → A
ended_or (some e) ended a = ended
ended_or none ended a = a

module _ {F G : Type 0} ⦃fl : Float F⦄ ⦃np : Numpy F⦄ ⦃rn : Random F G⦄ where
  start_with-IsKept :
      (o : Option (Generator F G)) (c : DriveSettings F) (i : Pass F) (s : DriveSession F G)
      → IsRecording s
      → IsKeptStep (start_with o c i s)
  unfolding start_with start_logging clear_logger done IsKeptStep
  start_with-IsKept none c i s h = λ n. h
  start_with-IsKept (some g) c i s h = λ n. (refl, λ off. absurd (false≢true (sym off)))

  press_a-IsKept :
      (c : DriveSettings F) (i : Pass F) (on : Bool) (s : DriveSession F G)
      → IsRecording s
      → IsKeptStep (press_a c i on s)
  unfolding press_a start_recording
  press_a-IsKept c i on s h =
      let started = start_with-IsKept (reseed c.excitation_seed i.entropy s.excitation) c i s h in
      if_split IsKeptStep on _ _
        (λ y.
          if_split IsKeptStep s.logger.is_logging _ _
            (λ z. stop_recording-IsKept c i.stop_fault i.stop_frames s) (λ z. started))
        (λ n. done-IsKept [] s h)

  press_b-IsKept : (on : Bool) (s : DriveSession F G) → IsRecording s → IsKeptStep (press_b on s)
  unfolding press_b
  press_b-IsKept true s h = done-IsKept [] _ h
  press_b-IsKept false s h = done-IsKept [] s h

  press_x-IsKept :
      (enabled : Option Bool) (on : Bool) (s : DriveSession F G)
      → IsRecording s
      → IsKeptStep (press_x enabled on s)
  unfolding press_x
  press_x-IsKept none on s h = done-IsKept [] s h
  press_x-IsKept (some b) true s h = done-IsKept _ s h
  press_x-IsKept (some b) false s h = done-IsKept [] s h

  press_y-IsKept :
      (sends on : Bool) (s : DriveSession F G) → IsRecording s → IsKeptStep (press_y sends on s)
  unfolding press_y done ended_by IsKeptStep
  press_y-IsKept sends false s h = λ n. h
  press_y-IsKept true true s h = λ n. h
  press_y-IsKept false true s h = λ n. h

  press_dpad-IsKept :
      (step : ℤ) (on : Bool) (s : DriveSession F G)
      → IsRecording s
      → IsKeptStep (press_dpad step on s)
  unfolding press_dpad
  press_dpad-IsKept step true s h = done-IsKept [] _ h
  press_dpad-IsKept step false s h = done-IsKept [] s h

  note_mask-IsKept :
      (mask : ℕ) (s : DriveSession F G) → IsRecording s → IsKeptStep (note_mask mask s)
  unfolding note_mask
  note_mask-IsKept mask s h = done-IsKept [] _ h

  receive_from-IsKept :
      (polled : Option (Axes F × ℕ)) (c : DriveSettings F) (i : Pass F) (s : DriveSession F G)
      → IsRecording s
      → IsKeptStep (receive_from polled c i s)
  unfolding receive_from press_buttons
  receive_from-IsKept none c i s h = done-IsKept [] s h
  receive_from-IsKept (some (axes, mask)) c i s h =
      let on = is_pressed s.mask_prev mask in
      in_turn-IsKept (press_parts c i on mask)
        (
          press_a-IsKept c i (on 0),
          (
            press_b-IsKept (on 1),
            (
              press_x-IsKept i.pump_enabled (on 2),
              (
                press_y-IsKept i.reset_sends (on 3),
                (
                  press_dpad-IsKept (pos 1) (on 4),
                  (press_dpad-IsKept (negsuc 0) (on 5), (note_mask-IsKept mask, tt)),
                ),
              ),
            ),
          ),
        )
        (record s { axes = axes }) h

  send_commands-IsKept :
      (sends : Bool) (commands : DriveCommands F G) (s : DriveSession F G)
      → IsRecording s
      → IsKeptStep (send_commands sends commands s)
  unfolding send_commands done ended_by IsKeptStep
  send_commands-IsKept true commands s h = λ n. h
  send_commands-IsKept false commands s h = λ n. h

  after_sample-IsKept :
      (o : Option LogError) (c : DriveSettings F) (i : Pass F) (l : DataLogger F)
      (s : DriveSession F G)
      → IsKept s.record_start_time l
      → IsKeptStep (after_sample o c i l s)
  unfolding after_sample done IsKeptStep
  after_sample-IsKept (some e) c i l s h = λ n. h
  after_sample-IsKept none c i l s h = λ n. drain-IsKept c i.tick_frames s.record_start_time l h

  log_part-IsKept :
      (is_logging : Bool) (c : DriveSettings F) (i : Pass F) (stale : Bool)
      (commands : DriveCommands F G) (s : DriveSession F G)
      → IsRecording s
      → IsKeptStep (log_part is_logging c i stale commands s)
  unfolding log_part log_tick
  log_part-IsKept false c i stale commands s h = done-IsKept [] s h
  log_part-IsKept true c i stale commands s h = after_sample-IsKept _ c i _ s (
      log_sample-IsKept c.nan c.radians i.sampled_mono (metadata i.t commands.excitation)
        (sample_of i stale commands) s.record_start_time s.logger h)

  stop_part-IsKept :
      (is_logging : Bool) (c : DriveSettings F) (i : Pass F) (s : DriveSession F G)
      → IsRecording s
      → IsKeptStep (stop_part is_logging c i s)
  unfolding stop_part
  stop_part-IsKept is_logging c i s h =
      if_split IsKeptStep (is_logging && is_over_time i.now s.record_start_time) _ _
        (λ y. stop_recording-IsKept c i.end_fault i.end_frames s) (λ n. done-IsKept [] s h)

  drive-IsKept :
      (c : DriveSettings F) (i : Pass F) (s : DriveSession F G)
      → IsRecording s
      → IsKeptStep (drive c i s)
  unfolding drive drive_with
  drive-IsKept c i s h =
      let stale = is_stale_input i.cmd_age_s i.is_live in
      let watched = observe (if c.imu_on then i.angles else none) s.excitation in
      let commands = build_drive_commands (manual_of c s.axes) watched i.t stale in
      in_turn-IsKept (drive_parts commands stale s.logger.is_logging c i)
        (
          send_commands-IsKept i.sends commands,
          (
            log_part-IsKept s.logger.is_logging c i stale commands,
            (stop_part-IsKept s.logger.is_logging c i, tt),
          ),
        )
        s h

  pass-IsKept :
      (c : DriveSettings F) (i : Pass F) (s : DriveSession F G)
      → IsRecording s
      → IsKeptStep (pass c i s)
  unfolding pass receive
  pass-IsKept c i =
      in_turn-IsKept (pass_parts c i)
        ((λ s. receive_from-IsKept i.polled c i s), ((λ s. drive-IsKept c i s), tt))

module _ {F : Type 0} ⦃fl : Float F⦄ where
  not_over :
      (b : Bool) (now : F) (start : Option F)
      → is_some start ≡ b
      → (b && is_over_time now start) ≡ false
      → is_over_time now start ≡ false
  unfolding is_over_time
  not_over b now none h n = refl
  not_over true now (some t) h n = n
  not_over false now (some t) h n = absurd (false≢true (sym h))

module _ {F G : Type 0} ⦃fl : Float F⦄ where
  -- The recording, if one is on, began less than ten minutes before `now`.
  abbrev pub IsTimely : F → DriveSession F G → Type 0
  IsTimely now s = is_over_time now s.record_start_time ≡ false

module _ {F G : Type 0} ⦃fl : Float F⦄ ⦃np : Numpy F⦄ ⦃rn : Random F G⦄ where
  stop_part-IsTimely :
      (b : Bool) (c : DriveSettings F) (i : Pass F) (s : DriveSession F G)
      → is_some s.record_start_time ≡ b
      → Ends (IsTimely i.now) (stop_part b c i s)
  unfolding stop_part stop_recording done ended_by is_over_time
  stop_part-IsTimely b c i s h =
      let logger = drain_imu_raw c i.end_frames s.logger in
      if_split (Ends (IsTimely i.now)) (b && is_over_time i.now s.record_start_time) _ _
        (λ y.
          if_split (Ends (IsTimely i.now)) (stop_and_save i.end_fault logger).1.1 _ _ (λ z n. refl)
            (λ z n. absurd (none≢some (sym n))))
        (λ z n. not_over b i.now s.record_start_time h z)

  after_sample-start :
      (o : Option LogError) (c : DriveSettings F) (i : Pass F) (l : DataLogger F)
      (s : DriveSession F G)
      → (after_sample o c i l s).session.record_start_time ≡ s.record_start_time
  unfolding after_sample done
  after_sample-start none c i l s = refl
  after_sample-start (some e) c i l s = refl

  log_part-start :
      (b : Bool) (c : DriveSettings F) (i : Pass F) (stale : Bool) (commands : DriveCommands F G)
      (s : DriveSession F G)
      → (log_part b c i stale commands s).session.record_start_time ≡ s.record_start_time
  unfolding log_part log_tick done
  log_part-start false c i stale commands s = refl
  log_part-start true c i stale commands s = after_sample-start _ c i _ s

  abbrev Started : Bool → DriveSession F G → Type 0
  Started b s = is_some s.record_start_time ≡ b

  send_commands-Started :
      (sends : Bool) (commands : DriveCommands F G) (s : DriveSession F G) (b : Bool)
      → Started b s
      → Ends (Started b) (send_commands sends commands s)
  unfolding send_commands done ended_by
  send_commands-Started true commands s b h n = h
  send_commands-Started false commands s b h n = h

  auto_stop-IsTimely :
      (b : Bool) (c : DriveSettings F) (i : Pass F) (s : DriveSession F G)
      → Started b s
      → Ends (IsTimely i.now) (in_turn (stop_part b c i ∷ []) s)
  unfolding in_turn done
  auto_stop-IsTimely b c i s h =
      then_do-Ends (IsTimely i.now) (IsTimely i.now) (stop_part b c i s) (in_turn [])
        (stop_part-IsTimely b c i s h) (λ s t z. t)

  drive-IsTimely :
      (c : DriveSettings F) (i : Pass F) (s : DriveSession F G)
      → IsRecording s
      → Ends (IsTimely i.now) (drive c i s)
  unfolding drive drive_with in_turn
  drive-IsTimely c i s h =
      let b = s.logger.is_logging in
      let stale = is_stale_input i.cmd_age_s i.is_live in
      let watched = observe (if c.imu_on then i.angles else none) s.excitation in
      let commands = build_drive_commands (manual_of c s.axes) watched i.t stale in
      then_do-Ends (Started b) (IsTimely i.now) (send_commands i.sends commands s)
        (in_turn (log_part b c i stale commands ∷ stop_part b c i ∷ []))
        (send_commands-Started i.sends commands s b h.0)
        λ s p.
          then_do-Ends (Started b) (IsTimely i.now) (log_part b c i stale commands s)
            (in_turn (stop_part b c i ∷ []))
            (λ z. ap is_some (log_part-start b c i stale commands s) ∙ p) (auto_stop-IsTimely b c i)

  pass-IsTimely :
      (c : DriveSettings F) (i : Pass F) (s : DriveSession F G)
      → IsRecording s
      → Ends (IsTimely i.now) (pass c i s)
  unfolding pass receive in_turn done IsKeptStep
  pass-IsTimely c i s h =
      then_do-Ends IsRecording (IsTimely i.now) (receive c i s) (in_turn (drive c i ∷ []))
        (receive_from-IsKept i.polled c i s h)
        λ s r.
          then_do-Ends (IsTimely i.now) (IsTimely i.now) (drive c i s) (in_turn [])
            (drive-IsTimely c i s r) (λ s t z. t)

  -- The session after the passes, up to one that raises, and the exception.
  unfoldable pub after_passes :
      DriveSettings F → List (Pass F) → DriveSession F G → DriveSession F G × Option DriveError
  unfolding pass
  after_passes c [] s = (s, none)
  after_passes c (i ∷ is) s =
      let a = pass c i s in ended_or a.error (a.session, a.error) (after_passes c is a.session)

  after_passes-IsKept :
      (c : DriveSettings F) (is : List (Pass F)) (s : DriveSession F G)
      → IsRecording s
      → (after_passes c is s).1 ≡ none
      → IsRecording (after_passes c is s).0
  unfolding after_passes IsKeptStep
  after_passes-IsKept c [] s h = λ n. h
  after_passes-IsKept c (i ∷ is) s h =
      let a = pass c i s in
      let Kept = λ (r : DriveSession F G × Option DriveError). r.1 ≡ none → IsRecording r.0 in
      elim (Option-cases a.error) [
        | inl y ↦
            subst (λ o. Kept (ended_or o (a.session, a.error) (after_passes c is a.session)))
              (sym y) (after_passes-IsKept c is a.session (pass-IsKept c i s h y))
        | inr (e, y) ↦
            subst (λ o. Kept (ended_or o (a.session, a.error) (after_passes c is a.session)))
              (sym y) (λ n. absurd (none≢some (sym n ∙ y)))
      ]

  -- From a session that records exactly when it has a start, and has nothing buffered when it does not
  -- record: after passes of which none raises, and a further pass that raises nothing, the same holds,
  -- so that no row or frame of a recording that ended is left in a buffer; and no recording is on that
  -- began ten minutes or more before the time of the last pass.
  pub after_passes-IsRecording :
      (c : DriveSettings F) (is : List (Pass F)) (i : Pass F) (s : DriveSession F G)
      → IsRecording s
      → (after_passes c is s).1 ≡ none
      → (pass c i (after_passes c is s).0).error ≡ none
      → IsRecording (pass c i (after_passes c is s).0).session
        × IsTimely i.now (pass c i (after_passes c is s).0).session
  unfolding IsKeptStep
  after_passes-IsRecording c is i s h n m =
      let reached = (after_passes c is s).0 in
      let kept = after_passes-IsKept c is s h n in
      (pass-IsKept c i reached kept m, pass-IsTimely c i reached kept m)
