-- ===== src/Perf/Control.antt =====
-- reference/modules/perf_tracker.py: `ControlLoopPerfTracker`, without the report of its averages.
-- `now` is what the clock reads in a call. A deque is its list, the oldest first.
pub mod Counts
use kaivuriprokkis.Prelude.{
  ℕ, ◌+◌, ◌-◌, ltb, Bool, true, false, ◌==◌, Option, none, some, List, [], ◌∷◌, ◌++◌, length, drop,
  if◌then◌else◌,
}
use kaivuriprokkis.Prelude.Int.{ℤ, pos, ◌-ℤ◌, ltb_ℤ}
use kaivuriprokkis.Prelude.Dict.{Dict, lookup, insert}
use kaivuriprokkis.Float.{Float}

-- The samples of CPU use, which only the report reads, are left out. A stage is a number.
pub record ControlTracker (F : Type 0) : Type 0 where
  pub enabled : Bool
  pub target_period : F
  pub buffer_size : ℕ
  pub loop_times : List F
  pub compute_times : List F
  pub stage_times : Dict ℕ (List F)
  pub stage_starts : Dict ℕ F
  pub violation_count : ℕ
  pub loop_count : ℕ
  pub rate_count : ℕ
  pub rate_window_start : F
  pub hz : F
  pub last_loop_start : Option F
  pub current_loop_start : Option F
  pub deadline_miss_count : ℕ
  pub deadline_miss_1pct_count : ℕ
  pub compute_overrun_count : ℕ

-- deque(maxlen=n).append(x)
unfoldable pub push_bounded {ℓ} : {A : Type ℓ} → ℕ → List A → A → List A
push_bounded n xs x = drop (length (xs ++ (x ∷ [])) - n) (xs ++ (x ∷ []))

-- del d[k]
unfoldable pub remove : {A : Type 0} → ℕ → Dict ℕ A → Dict ℕ A
remove k [] = []
remove k ((j, v) ∷ m) = if j == k then m else (j, v) ∷ remove k m

abbrev pub bump : Bool → ℕ → ℕ
bump b n = if b then n + 1 else n

module _ {F : Type 0} ⦃fl : Float F⦄ where
  -- 1.0 / max(1.0, hz)
  unfoldable pub period_of : F → F
  period_of hz = let one = fl.lit (pos 1) 0 in fl.div one (if fl.lt one hz then hz else one)

  unfoldable pub make_control : Bool → F → ℕ → F → ControlTracker F
  unfolding period_of
  make_control enabled target_hz buffer_size now = record {
    enabled = enabled;
    target_period = period_of target_hz;
    buffer_size = if ltb 100 buffer_size then buffer_size else 100;
    loop_times = [];
    compute_times = [];
    stage_times = [];
    stage_starts = [];
    violation_count = 0;
    loop_count = 0;
    rate_count = 0;
    rate_window_start = now;
    hz = fl.lit (pos 0) 0;
    last_loop_start = none;
    current_loop_start = none;
    deadline_miss_count = 0;
    deadline_miss_1pct_count = 0;
    compute_overrun_count = 0;
  }

  unfoldable pub set_enabled : Bool → ControlTracker F → ControlTracker F
  set_enabled enabled t = record t { enabled = enabled }

  unfoldable pub set_target_hz : F → ControlTracker F → ControlTracker F
  unfolding period_of
  set_target_hz hz t = record t { target_period = period_of hz }

  unfoldable pub reset : F → ControlTracker F → ControlTracker F
  reset now t = record t {
    loop_times = [];
    compute_times = [];
    stage_times = [];
    stage_starts = [];
    violation_count = 0;
    loop_count = 0;
    rate_count = 0;
    rate_window_start = now;
    hz = fl.lit (pos 0) 0;
    last_loop_start = none;
    current_loop_start = none;
    deadline_miss_count = 0;
    deadline_miss_1pct_count = 0;
    compute_overrun_count = 0;
  }

  unfoldable pub count_rate : F → ControlTracker F → ControlTracker F
  count_rate now t =
      let elapsed = fl.sub now t.rate_window_start in
      if fl.le (fl.lit (pos 5) 1) elapsed
      then record t {
        rate_count = 0;
        rate_window_start = now;
        hz = fl.div (fl.of_int (pos (t.rate_count + 1))) elapsed;
      }
      else record t { rate_count = t.rate_count + 1 }

  abbrev pub is_over : F → F → Bool
  is_over limit x = fl.lt limit x

  -- self._target_period * 1.01
  abbrev pub loosened : F → F
  loosened target = fl.mul target (fl.lit (pos 101) 2)

  unfoldable pub add_interval : F → ControlTracker F → ControlTracker F
  unfolding push_bounded
  add_interval interval t = record t {
    loop_times = push_bounded t.buffer_size t.loop_times interval;
    deadline_miss_count = bump (is_over t.target_period interval) t.deadline_miss_count;
    deadline_miss_1pct_count =
        bump (is_over (loosened t.target_period) interval) t.deadline_miss_1pct_count;
  }

  -- The interval since the last start, where there was one before `now`.
  unfoldable pub track_interval : F → Option F → ControlTracker F → ControlTracker F
  unfolding add_interval
  track_interval now none t = t
  track_interval now (some last) t =
      let interval = fl.sub now last in
      if fl.lt (fl.lit (pos 0) 0) interval then add_interval interval t else t

  unfoldable pub loop_start : F → ControlTracker F → ControlTracker F
  unfolding count_rate track_interval
  loop_start now t =
      if t.enabled
      then record (track_interval now t.last_loop_start (count_rate now t)) {
        last_loop_start = some now;
        current_loop_start = some now;
      }
      else t

  unfoldable pub add_compute : F → ControlTracker F → ControlTracker F
  unfolding push_bounded
  add_compute time t = record t {
    compute_times = push_bounded t.buffer_size t.compute_times time;
    loop_count = t.loop_count + 1;
    violation_count = bump (is_over t.target_period time) t.violation_count;
    compute_overrun_count = bump (is_over t.target_period time) t.compute_overrun_count;
    current_loop_start = none;
  }

  unfoldable pub loop_end_from : F → Option F → ControlTracker F → ControlTracker F
  unfolding add_compute
  loop_end_from now none t = t
  loop_end_from now (some start) t = if t.enabled then add_compute (fl.sub now start) t else t

  unfoldable pub loop_end : F → ControlTracker F → ControlTracker F
  unfolding loop_end_from
  loop_end now t = loop_end_from now t.current_loop_start t

  unfoldable pub stage_start : ℕ → F → ControlTracker F → ControlTracker F
  stage_start stage now t =
      if t.enabled then record t { stage_starts = insert ◌==◌ stage now t.stage_starts } else t

  abbrev or_nil : Option (List F) → List F
  or_nil none = []
  or_nil (some xs) = xs

  unfoldable pub record_stage : ℕ → F → ControlTracker F → ControlTracker F
  unfolding push_bounded
  record_stage stage duration t =
      if t.enabled
      then record t {
        stage_times =
            insert ◌==◌ stage
              (push_bounded t.buffer_size (or_nil (lookup ◌==◌ stage t.stage_times)) duration)
              t.stage_times;
      }
      else t

  unfoldable pub stage_end_from : ℕ → F → Option F → ControlTracker F → ControlTracker F
  unfolding record_stage remove
  stage_end_from stage now none t = t
  stage_end_from stage now (some start) t =
      if t.enabled
      then record (record_stage stage (fl.sub now start) t) {
        stage_starts = remove stage t.stage_starts;
      }
      else t

  unfoldable pub stage_end : ℕ → F → ControlTracker F → ControlTracker F
  unfolding stage_end_from
  stage_end stage now t = stage_end_from stage now (lookup ◌==◌ stage t.stage_starts) t

  -- sum(1 for t in times if t > limit)
  unfoldable pub count_over : F → List F → ℕ
  count_over limit [] = 0
  count_over limit (x ∷ xs) = bump (is_over limit x) (count_over limit xs)

  -- min(int(len * q), len - 1), the index of a percentile
  unfoldable pub percentile_index : F → List F → ℤ
  percentile_index q xs =
      let i = fl.trunc (fl.mul (fl.of_int (pos (length xs))) q) in
      let last = pos (length xs) -ℤ pos 1 in if ltb_ℤ last i then last else i
