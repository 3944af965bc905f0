-- ===== src/Drive/Recorded.antt =====
-- The recordings of a run of the loop of `main`.
use kaivuriprokkis.Prelude.{
  if_split, ◌≡◌, refl, sym, ◌∙◌, Bool, true, false, ◌&&◌, ◌||◌, Option, none, some, List, [], ◌∷◌,
  All, Option-cases, inl, inr,
}
use Prim.Native.String.{String}
use kaivuriprokkis.Prelude.Dict.{lookup}
use kaivuriprokkis.Float.{Float}
use kaivuriprokkis.Recording.DriveLog.{LogError, make_log, n_samples}
use kaivuriprokkis.Recording.DriveLog.Imu.{clear_imu_raw, n_imu_raw_samples}
use kaivuriprokkis.Recording.DriveLog.Schema.{Sample}
use kaivuriprokkis.Drive.Numeric.{Numpy}
use kaivuriprokkis.Drive.Strokes.{false≢true}
use kaivuriprokkis.Drive.Logger.{
  Output, DataLogger, ExcitationMeta, has_samples, has_frames, noted_in, same_key, key_of, entry_of,
  note_block, log_frames, clear_logger, stop_and_save, log_sample, Fault, unsent, unwritten,
}
use kaivuriprokkis.Drive.Watch.{none≢some}
use mathlib.Core.Path.{subst}
use kaivuriprokkis.Drive.Session.{
  ended_by, DriveSettings, Frames, DriveSession, DriveStep, done, then_unless, then_do, in_turn,
  passed_on, drain_imu_raw, stop_recording,
}

right_holds : (a b : Bool) → (a && b) ≡ true → b ≡ true
right_holds true b h = h
right_holds false b h = absurd (false≢true h)

neither_holds : (a b : Bool) → (a || b) ≡ false → (a ≡ false) × (b ≡ false)
neither_holds true b h = absurd (false≢true (sym h))
neither_holds false b h = (refl, h)

abbrev pub is_some : {F : Type 0} → Option F → Bool
is_some none = false
is_some (some x) = true

module _ {F : Type 0} where
  -- A recording is on exactly when it has a start, and nothing is buffered when it is off.
  abbrev pub IsKept : Option F → DataLogger F → Type 0
  IsKept start l =
      (is_some start ≡ l.is_logging)
      × (l.is_logging ≡ false → (has_samples l ≡ false) × (has_frames l ≡ false))

  -- A logger that is logging, and was kept, may have buffered more.
  still-IsKept :
      (start : Option F) (l m : DataLogger F)
      → IsKept start l
      → l.is_logging ≡ true
      → m.is_logging ≡ l.is_logging
      → IsKept start m
  still-IsKept start l m h on same =
      (h.0 ∙ sym same, λ off. absurd (false≢true (sym off ∙ (same ∙ on))))

  note_block-is_logging :
      (target : String) (t : F) (m : ExcitationMeta F) (l : DataLogger F)
      → (note_block target t m l).is_logging ≡ l.is_logging
  unfolding note_block noted_in
  note_block-is_logging target t m l =
      elim (lookup same_key (key_of m) l.blocks)
        as (λ o. (noted_in o (key_of m) (entry_of target t m l) l).is_logging ≡ l.is_logging) [
          | some e ↦ refl
          | none ↦ refl
        ]

  passed_on-is_logging :
      (c : DriveSettings F) (frames : Frames F) (l : DataLogger F)
      → (passed_on c frames l).is_logging ≡ l.is_logging
  unfolding log_frames
  passed_on-is_logging c [] l = refl
  passed_on-is_logging c (f ∷ fs) l =
      if_split (λ (m : DataLogger F). m.is_logging ≡ l.is_logging) l.is_logging _ _ (λ y. refl)
        (λ n. refl)

  pub drain-IsKept :
      (c : DriveSettings F) (frames : Frames F) (start : Option F) (l : DataLogger F)
      → IsKept start l
      → IsKept start (drain_imu_raw c frames l)
  unfolding drain_imu_raw
  drain-IsKept c frames start l h =
      if_split (IsKept start) (c.imu_on && l.is_logging) _ _
        (λ y.
          still-IsKept start l _ h (right_holds c.imu_on l.is_logging y)
            (passed_on-is_logging c frames l))
        (λ z. h)

  -- Where it returns.
  stop_and_save-IsKept :
      (fault : Option Fault) (l : DataLogger F)
      → (stop_and_save fault l).1.1 ≡ true
      → IsKept none (stop_and_save fault l).0
  unfolding stop_and_save clear_logger has_samples has_frames n_samples n_imu_raw_samples make_log
      clear_imu_raw
  stop_and_save-IsKept (some unsent) l = λ y. absurd (false≢true y)
  stop_and_save-IsKept (some (unwritten k)) l =
      if_split (λ (p : DataLogger F × (List (Output F) × Bool)). p.1.1 ≡ true → IsKept none p.0)
        (has_samples l || has_frames l) _ _ (λ h y. absurd (false≢true y))
        (λ n y. (refl, λ z. neither_holds (has_samples l) (has_frames l) n))
  stop_and_save-IsKept none l =
      if_split (λ (p : DataLogger F × (List (Output F) × Bool)). p.1.1 ≡ true → IsKept none p.0)
        (has_samples l || has_frames l) _ _ (λ h y. (refl, λ z. (refl, refl)))
        (λ n y. (refl, λ z. neither_holds (has_samples l) (has_frames l) n))

module _ {F : Type 0} ⦃fl : Float F⦄ ⦃np : Numpy F⦄ where
  pub log_sample-IsKept :
      (nan : F) (radians : F → F) (mono : F) (m : ExcitationMeta F) (sample : Sample F)
      (start : Option F) (l : DataLogger F)
      → IsKept start l
      → IsKept start (log_sample nan radians mono m sample l).0
  unfolding log_sample
  log_sample-IsKept nan radians mono m sample start l h =
      if_split (λ (p : DataLogger F × Option LogError). IsKept start p.0) l.is_logging _ _
        (λ y.
          still-IsKept start l _ h y
            (note_block-is_logging sample.sine_target (fl.sub mono l.t0_mono) m l))
        (λ n. h)

module _ {F G : Type 0} ⦃fl : Float F⦄ where
  -- A session, and the session that a step leaves.
  abbrev pub IsRecording : DriveSession F G → Type 0
  IsRecording s = IsKept s.record_start_time s.logger

  -- What holds after a step that raises nothing.
  abbrev pub Ends : (DriveSession F G → Type 0) → DriveStep F G → Type 0
  Ends Q a = a.error ≡ none → Q a.session

  pub then_do-Ends :
      (P Q : DriveSession F G → Type 0) (a : DriveStep F G) (k : DriveSession F G → DriveStep F G)
      → Ends P a
      → ((s : DriveSession F G) → P s → Ends Q (k s))
      → Ends Q (then_do a k)
  unfolding then_do then_unless
  then_do-Ends P Q a k p f = elim (Option-cases a.error) [
    | inl n ↦ subst (λ o. Ends Q (then_unless o a k)) (sym n) (f a.session (p n))
    | inr (e, y) ↦
        subst (λ o. Ends Q (then_unless o a k)) (sym y) (λ z. absurd (none≢some (sym z ∙ y)))
  ]

  unfoldable pub IsKeptStep : DriveStep F G → Type 0
  IsKeptStep a = Ends IsRecording a

  pub done-IsKept :
      (os : List (Output F)) (s : DriveSession F G) → IsRecording s → IsKeptStep (done os s)
  unfolding done IsKeptStep
  done-IsKept os s h = λ n. h

  pub stop_recording-IsKept :
      (c : DriveSettings F) (fault : Option Fault) (frames : Frames F) (s : DriveSession F G)
      → IsKeptStep (stop_recording c fault frames s)
  unfolding stop_recording done ended_by IsKeptStep
  stop_recording-IsKept c fault frames s =
      let logger = drain_imu_raw c frames s.logger in
      if_split (Ends IsRecording) (stop_and_save fault logger).1.1 _ _
        (λ y n. stop_and_save-IsKept fault logger y) (λ y n. absurd (none≢some (sym n)))

  pub in_turn-IsKept :
      (parts : List (DriveSession F G → DriveStep F G))
      → All (λ part. (s : DriveSession F G) → IsRecording s → IsKeptStep (part s)) parts
      → (s : DriveSession F G) → IsRecording s
      → IsKeptStep (in_turn parts s)
  unfolding in_turn IsKeptStep
  in_turn-IsKept [] h s r = done-IsKept [] s r
  in_turn-IsKept (part ∷ parts) (h, hs) s r =
      then_do-Ends IsRecording IsRecording (part s) (in_turn parts) (h s r)
        (in_turn-IsKept parts hs)
