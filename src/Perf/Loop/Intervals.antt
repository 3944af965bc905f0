-- ===== src/Perf/Loop/Intervals.antt =====
-- What the two trackers measure: the positive intervals between the times that they see, and the
-- violations of the period.
use kaivuriprokkis.Prelude.{
  ◌≤◌, ◌≡◌, ◌∙◌, sym, refl, true, Option, none, some, List, [], ◌∷◌, if◌then◌else◌, arith,
}
use kaivuriprokkis.Prelude.Int.{pos}
use kaivuriprokkis.Float.{Float}
use kaivuriprokkis.Perf.Welford.{Stats, Rate, fresh_stats, fresh_rate, sample, count_tick}
use kaivuriprokkis.Perf.Loop.{
  LoopPerfTracker, IntervalTracker, is_positive, track, make_loop_tracker, make_interval_tracker,
  count_sample, track_interval, add_interval, tick_start, tick_end, tick_end_from, add_tick,
  record_sample,
}

module _ {F : Type 0} ⦃fl : Float F⦄ where
  -- The positive differences of consecutive times.
  unfoldable pub intervals : Option F → List F → List F
  intervals last [] = []
  intervals none (now ∷ times) = intervals (some now) times
  intervals (some last) (now ∷ times) =
      if is_positive (fl.sub now last)
      then fl.sub now last ∷ intervals (some now) times
      else intervals (some now) times

  unfoldable pub samples_all : List F → Stats F → Stats F
  unfolding sample
  samples_all [] s = s
  samples_all (x ∷ xs) s = samples_all xs (sample x s)

  -- The loop of a caller: each tick starts at the first time and ends at the second, for a period.
  unfoldable pub ticks : F → List (F × F) → LoopPerfTracker F → LoopPerfTracker F
  unfolding tick_start tick_end
  ticks target [] t = t
  ticks target ((now, done) ∷ times) t =
      ticks target times (tick_end target done (tick_start now t))

  unfoldable pub record_samples : List F → IntervalTracker F → IntervalTracker F
  unfolding record_sample
  record_samples [] t = t
  record_samples (now ∷ times) t = record_samples times (record_sample now t)

  abbrev pub starts : List (F × F) → List F
  starts [] = []
  starts ((now, _) ∷ times) = now ∷ starts times

  tick_end_from-kept :
      (target now : F) (start : Option F) (t : LoopPerfTracker F)
      → ((tick_end_from target now start t).loop ≡ t.loop)
        × (((tick_end_from target now start t).rate ≡ t.rate)
            × (((tick_end_from target now start t).last_tick_start ≡ t.last_tick_start)
                × ((tick_end_from target now start t).enabled ≡ t.enabled)))
  unfolding tick_end_from add_tick
  tick_end_from-kept target now none t = (refl, (refl, (refl, refl)))
  tick_end_from-kept target now (some start) t = ground arith

  track-intervals :
      (now : F) (last : Option F) (times : List F) (s : Stats F)
      → samples_all (intervals (some now) times) (track now last s)
        ≡ samples_all (intervals last (now ∷ times)) s
  unfolding samples_all intervals track
  track-intervals now none times s = refl
  track-intervals now (some last) times s = ground arith

  -- An enabled tracker with these statistics, this rate and this last time.
  abbrev pub IsLoopAt : Stats F → Rate F → Option F → LoopPerfTracker F → Type 0
  IsLoopAt s r last t =
      (t.enabled ≡ true) × ((t.loop ≡ s) × ((t.rate ≡ r) × (t.last_tick_start ≡ last)))

  abbrev pub IsIntervalAt : Stats F → Rate F → Option F → IntervalTracker F → Type 0
  IsIntervalAt s r last t =
      (t.enabled ≡ true) × ((t.stats ≡ s) × ((t.rate ≡ r) × (t.last_ts ≡ last)))

  tick_start-IsLoopAt :
      (now : F) (s : Stats F) (r : Rate F) (last : Option F) (t : LoopPerfTracker F)
      → IsLoopAt s r last t
      → IsLoopAt (track now last s) (count_tick now r) (some now) (tick_start now t)
  unfolding tick_start
  tick_start-IsLoopAt now s r last t h = ground arith

  record_sample-IsIntervalAt :
      (now : F) (s : Stats F) (r : Rate F) (last : Option F) (t : IntervalTracker F)
      → IsIntervalAt s r last t
      → IsIntervalAt (track now last s) (count_tick now r) (some now) (record_sample now t)
  unfolding record_sample track_interval count_sample add_interval track count_tick sample
  record_sample-IsIntervalAt now s r none t h = ground arith
  record_sample-IsIntervalAt now s r (some x) t h = ground arith

  tick_end-IsLoopAt :
      (target done : F) (s : Stats F) (r : Rate F) (last : Option F) (t : LoopPerfTracker F)
      → IsLoopAt s r last t
      → IsLoopAt s r last (tick_end target done t)
  unfolding tick_end
  tick_end-IsLoopAt target done s r last t (e, (l, (n, k))) =
      let (l', (n', (k', e'))) = tick_end_from-kept target done t.current_tick_start t in
      (e' ∙ e, (l' ∙ l, (n' ∙ n, k' ∙ k)))

  unfoldable pub count_ticks : List F → Rate F → Rate F
  unfolding count_tick
  count_ticks [] r = r
  count_ticks (now ∷ times) r = count_ticks times (count_tick now r)

  ticks-measured :
      (target : F) (times : List (F × F)) (s : Stats F) (r : Rate F) (last : Option F)
      (t : LoopPerfTracker F)
      → IsLoopAt s r last t
      → ((ticks target times t).loop ≡ samples_all (intervals last (starts times)) s)
        × ((ticks target times t).rate ≡ count_ticks (starts times) r)
  unfolding ticks count_ticks samples_all intervals
  ticks-measured target [] s r last t (e, (l, (n, k))) = (l, n)
  ticks-measured target ((now, done) ∷ times) s r last t h =
      let (l, n) =
        ticks-measured target times (track now last s) (count_tick now r) (some now)
          (tick_end target done (tick_start now t))
          (tick_end-IsLoopAt target done (track now last s) (count_tick now r) (some now)
            (tick_start now t) (tick_start-IsLoopAt now s r last t h)) in
      (l ∙ track-intervals now last (starts times) s, n)

  record_samples-measured :
      (times : List F) (s : Stats F) (r : Rate F) (last : Option F) (t : IntervalTracker F)
      → IsIntervalAt s r last t
      → ((record_samples times t).stats ≡ samples_all (intervals last times) s)
        × ((record_samples times t).rate ≡ count_ticks times r)
  unfolding record_samples count_ticks samples_all intervals
  record_samples-measured [] s r last t (e, (l, (n, k))) = (l, n)
  record_samples-measured (now ∷ times) s r last t h =
      let (l, n) =
        record_samples-measured times (track now last s) (count_tick now r) (some now)
          (record_sample now t) (record_sample-IsIntervalAt now s r last t h) in
      (l ∙ track-intervals now last times s, n)

  -- Enabled trackers of both kinds that are made at one time, one of ticks that start at the times of
  -- the samples of the other, whatever their ends and the period are: both keep the statistics of
  -- exactly the positive intervals between consecutive times, in order, and they measure one rate.
  pub ticks-record_samples :
      (inf neg_inf target now : F) (times : List (F × F))
      → ((ticks target times (make_loop_tracker inf neg_inf true now)).loop
          ≡ samples_all (intervals none (starts times)) (fresh_stats inf (fl.lit (pos 0) 0)))
        × (((record_samples (starts times) (make_interval_tracker inf neg_inf true now)).stats
              ≡ samples_all (intervals none (starts times)) (fresh_stats inf (fl.lit (pos 0) 0)))
            × ((ticks target times (make_loop_tracker inf neg_inf true now)).rate
                ≡ (record_samples
                    (starts times)
                    (make_interval_tracker inf neg_inf true now)).rate))
  unfolding make_loop_tracker make_interval_tracker
  ticks-record_samples inf neg_inf target now times =
      let s = fresh_stats inf (fl.lit (pos 0) 0) in
      let (l, r) =
        ticks-measured target times s (fresh_rate now) none (make_loop_tracker inf neg_inf true now)
          (refl, (refl, (refl, refl))) in
      let (l', r') =
        record_samples-measured (starts times) s (fresh_rate now) none
          (make_interval_tracker inf neg_inf true now) (refl, (refl, (refl, refl))) in
      (l, (l', r ∙ sym r'))

  -- Violations are among the ticks whose headroom is measured, and each tick is processed once.
  abbrev pub IsCounted : LoopPerfTracker F → Type 0
  IsCounted t =
      (t.violation_count ≤ t.head.n) × ((t.head.n ≤ t.total_count) × (t.proc.n ≡ t.total_count))

  tick_start-IsCounted :
      (now : F) (t : LoopPerfTracker F) → IsCounted t → IsCounted (tick_start now t)
  unfolding tick_start
  tick_start-IsCounted now t h = ground arith

  tick_end_from-IsCounted :
      (target now : F) (start : Option F) (t : LoopPerfTracker F)
      → IsCounted t
      → IsCounted (tick_end_from target now start t)
  unfolding tick_end_from add_tick sample
  tick_end_from-IsCounted target now none t h = h
  tick_end_from-IsCounted target now (some start) t h = ground arith

  ticks-IsCounted :
      (target : F) (times : List (F × F)) (t : LoopPerfTracker F)
      → IsCounted t
      → IsCounted (ticks target times t)
  unfolding ticks tick_end
  ticks-IsCounted target [] t h = h
  ticks-IsCounted target ((now, done) ∷ times) t h =
      ticks-IsCounted target times (tick_end target done (tick_start now t)) (
        tick_end_from-IsCounted target done (tick_start now t).current_tick_start (tick_start now t)
          (tick_start-IsCounted now t h))
