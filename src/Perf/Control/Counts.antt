-- ===== src/Perf/Control/Counts.antt =====
-- The counters of `ControlLoopPerfTracker` against its ring buffers.
use kaivuriprokkis.Prelude.{
  ℕ, zero, suc, ◌+◌, ◌-◌, ◌≤◌, ◌≡◌, ◌==◌, Bool, Option, none, some, List, [], ◌∷◌, ◌++◌, length,
  drop, arith, length-drop,
}
use kaivuriprokkis.Prelude.Dict.{lookup}
use kaivuriprokkis.Float.{Float}
use kaivuriprokkis.Perf.Control.{
  ControlTracker, push_bounded, make_control, set_enabled, reset, count_rate, is_over, bump,
  loosened, add_interval, track_interval, loop_start, add_compute, loop_end_from, loop_end,
  stage_start, record_stage, stage_end_from, stage_end, count_over,
}

module _ {F : Type 0} ⦃fl : Float F⦄ where
  count_over-append :
      (limit : F) (xs ys : List F)
      → count_over limit (xs ++ ys) ≡ count_over limit xs + count_over limit ys
  unfolding count_over
  count_over-append limit [] ys = omega arith
  count_over-append limit (x ∷ xs) ys = ground (arith, count_over-append limit xs ys)

  count_over-drop :
      (limit : F) (n : ℕ) (xs : List F) → count_over limit (drop n xs) ≤ count_over limit xs
  unfolding count_over
  count_over-drop limit zero xs = omega arith
  count_over-drop limit (suc n) [] = omega arith
  count_over-drop limit (suc n) (x ∷ xs) = ground (arith, count_over-drop limit n xs)

  -- A bounded push keeps the bound, and adds to a count what the value adds.
  push_bounded-count :
      (limit : F) (n : ℕ) (xs : List F) (x : F)
      → (length (push_bounded n xs x) ≤ n)
        × (count_over limit (push_bounded n xs x) ≤ bump (is_over limit x) (count_over limit xs))
  unfolding push_bounded count_over
  push_bounded-count limit n xs x =
      let all = xs ++ (x ∷ []) in
      (
        omega (arith, length-drop (length all - n) all),
        ground (
          arith,
          count_over-drop limit (length all - n) all,
          count_over-append limit xs (x ∷ []),
        ),
      )

  -- The buffers are bounded, and what they count of late is at most what was counted in all.
  abbrev pub IsTracked : ControlTracker F → Type 0
  IsTracked t =
      (length t.loop_times ≤ t.buffer_size)
      × ((length t.compute_times ≤ t.buffer_size)
          × ((count_over t.target_period t.loop_times ≤ t.deadline_miss_count)
              × ((count_over (loosened t.target_period) t.loop_times ≤ t.deadline_miss_1pct_count)
                  × ((count_over t.target_period t.compute_times ≤ t.compute_overrun_count)
                      × ((t.violation_count ≡ t.compute_overrun_count)
                          × (t.compute_overrun_count ≤ t.loop_count))))))

  reset-IsTracked : (now : F) (t : ControlTracker F) → IsTracked (reset now t)
  unfolding reset count_over
  reset-IsTracked now t = ground arith

  count_rate-IsTracked :
      (now : F) (t : ControlTracker F) → IsTracked t → IsTracked (count_rate now t)
  unfolding count_rate
  count_rate-IsTracked now t h = ground arith

  add_interval-IsTracked :
      (x : F) (t : ControlTracker F) → IsTracked t → IsTracked (add_interval x t)
  unfolding add_interval
  add_interval-IsTracked x t h = ground (
    arith,
    push_bounded-count t.target_period t.buffer_size t.loop_times x,
    push_bounded-count (loosened t.target_period) t.buffer_size t.loop_times x,
  )

  track_interval-IsTracked :
      (now : F) (last : Option F) (t : ControlTracker F)
      → IsTracked t
      → IsTracked (track_interval now last t)
  unfolding track_interval
  track_interval-IsTracked now none t h = h
  track_interval-IsTracked now (some last) t h =
      ground (arith, add_interval-IsTracked (fl.sub now last) t h)

  loop_start-IsTracked :
      (now : F) (t : ControlTracker F) → IsTracked t → IsTracked (loop_start now t)
  unfolding loop_start
  loop_start-IsTracked now t h = ground (
    arith,
    track_interval-IsTracked now t.last_loop_start (count_rate now t)
        (count_rate-IsTracked now t h),
  )

  add_compute-IsTracked : (x : F) (t : ControlTracker F) → IsTracked t → IsTracked (add_compute x t)
  unfolding add_compute
  add_compute-IsTracked x t h =
      ground (arith, push_bounded-count t.target_period t.buffer_size t.compute_times x)

  loop_end_from-IsTracked :
      (now : F) (start : Option F) (t : ControlTracker F)
      → IsTracked t
      → IsTracked (loop_end_from now start t)
  unfolding loop_end_from
  loop_end_from-IsTracked now none t h = h
  loop_end_from-IsTracked now (some start) t h =
      ground (arith, add_compute-IsTracked (fl.sub now start) t h)

  record_stage-IsTracked :
      (stage : ℕ) (x : F) (t : ControlTracker F) → IsTracked t → IsTracked (record_stage stage x t)
  unfolding record_stage
  record_stage-IsTracked stage x t h = ground arith

  stage_end_from-IsTracked :
      (stage : ℕ) (now : F) (start : Option F) (t : ControlTracker F)
      → IsTracked t
      → IsTracked (stage_end_from stage now start t)
  unfolding stage_end_from
  stage_end_from-IsTracked stage now none t h = h
  stage_end_from-IsTracked stage now (some start) t h =
      ground (arith, record_stage-IsTracked stage (fl.sub now start) t h)

-- Any call but `set_target_hz`, with the clock that it reads.
pub data TrackerCall (F : Type 0) : Type 0 where
  starts ends resets : F → TrackerCall F
  stage_starts_at stage_ends_at records : ℕ → F → TrackerCall F
  enables : Bool → TrackerCall F

module _ {F : Type 0} ⦃fl : Float F⦄ where
  unfoldable pub tracker_call : TrackerCall F → ControlTracker F → ControlTracker F
  unfolding loop_start loop_end reset stage_start stage_end record_stage set_enabled
  tracker_call (starts now) t = loop_start now t
  tracker_call (ends now) t = loop_end now t
  tracker_call (resets now) t = reset now t
  tracker_call (stage_starts_at stage now) t = stage_start stage now t
  tracker_call (stage_ends_at stage now) t = stage_end stage now t
  tracker_call (records stage x) t = record_stage stage x t
  tracker_call (enables enabled) t = set_enabled enabled t

  unfoldable pub tracker_calls : List (TrackerCall F) → ControlTracker F → ControlTracker F
  unfolding tracker_call
  tracker_calls [] t = t
  tracker_calls (c ∷ cs) t = tracker_calls cs (tracker_call c t)

  tracker_call-IsTracked :
      (c : TrackerCall F) (t : ControlTracker F) → IsTracked t → IsTracked (tracker_call c t)
  unfolding tracker_call loop_end stage_end stage_start set_enabled
  tracker_call-IsTracked (starts now) t h = loop_start-IsTracked now t h
  tracker_call-IsTracked (ends now) t h = loop_end_from-IsTracked now t.current_loop_start t h
  tracker_call-IsTracked (resets now) t h = reset-IsTracked now t
  tracker_call-IsTracked (stage_starts_at stage now) t h = ground arith
  tracker_call-IsTracked (stage_ends_at stage now) t h =
      stage_end_from-IsTracked stage now (lookup ◌==◌ stage t.stage_starts) t h
  tracker_call-IsTracked (records stage x) t h = record_stage-IsTracked stage x t h
  tracker_call-IsTracked (enables enabled) t h = h

  tracker_calls-IsTracked_from :
      (cs : List (TrackerCall F)) (t : ControlTracker F)
      → IsTracked t
      → IsTracked (tracker_calls cs t)
  unfolding tracker_calls
  tracker_calls-IsTracked_from [] t h = h
  tracker_calls-IsTracked_from (c ∷ cs) t h =
      tracker_calls-IsTracked_from cs (tracker_call c t) (tracker_call-IsTracked c t h)

  -- After any calls at one target frequency: the two ring buffers hold at most `buffer_size`
  -- times; the deadline misses, with and without the margin of a hundredth, and the overruns among
  -- the times they hold are at most those counted since the last reset; and the violations are the
  -- overruns, at most one for each counted loop.
  pub tracker_calls-IsTracked :
      (enabled : Bool) (target_hz : F) (buffer_size : ℕ) (now : F) (cs : List (TrackerCall F))
      → IsTracked (tracker_calls cs (make_control enabled target_hz buffer_size now))
  unfolding make_control count_over
  tracker_calls-IsTracked enabled target_hz buffer_size now cs =
      tracker_calls-IsTracked_from cs (make_control enabled target_hz buffer_size now)
        (ground arith)
