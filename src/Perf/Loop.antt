-- ===== src/Perf/Loop.antt =====
-- reference/modules/perf_tracker.py: `LoopPerfTracker` and `IntervalTracker`. `now` is what the clock
-- reads in a call; `inf` and `neg_inf` are the infinities.
pub mod Intervals
use kaivuriprokkis.Prelude.{
  ℕ, ◌+◌, ltb, Bool, not, ◌||◌, Option, none, some, List, [], ◌∷◌, if◌then◌else◌,
}
use kaivuriprokkis.Prelude.Int.{pos}
use kaivuriprokkis.Float.{Float}
use kaivuriprokkis.Perf.Welford.{
  Stats, Rate, fresh_stats, fresh_rate, sample, count_tick, compute_std, unless_at, in_ms,
}

pub record LoopPerfTracker (F : Type 0) : Type 0 where
  pub enabled : Bool
  pub loop : Stats F
  pub proc : Stats F
  pub head : Stats F
  pub rate : Rate F
  pub violation_count : ℕ
  pub total_count : ℕ
  pub last_tick_start : Option F
  pub current_tick_start : Option F

pub record IntervalTracker (F : Type 0) : Type 0 where
  pub enabled : Bool
  pub stats : Stats F
  pub rate : Rate F
  pub last_ts : Option F

-- The report, in milliseconds.
pub record LoopReport (F : Type 0) : Type 0 where
  pub hz : F
  pub loop_avg_ms : F
  pub loop_std_ms : F
  pub loop_min_ms : F
  pub loop_max_ms : F
  pub proc_avg_ms : F
  pub proc_std_ms : F
  pub proc_min_ms : F
  pub proc_max_ms : F
  pub headroom_avg_ms : F
  pub headroom_std_ms : F
  pub headroom_min_ms : F
  pub headroom_max_ms : F
  pub violation_pct : F
  pub violation_count : ℕ
  pub samples : ℕ

pub record IntervalReport (F : Type 0) : Type 0 where
  pub hz : F
  pub avg_interval_ms : F
  pub std_interval_ms : F
  pub min_interval_ms : F
  pub max_interval_ms : F
  pub samples : ℕ

module _ {F : Type 0} ⦃fl : Float F⦄ where
  abbrev zero_f : F
  zero_f = fl.lit (pos 0) 0

  abbrev pub is_positive : F → Bool
  is_positive x = fl.lt zero_f x

  -- The interval since the last time, where there was one before `now`.
  unfoldable pub track : F → Option F → Stats F → Stats F
  unfolding sample
  track now none s = s
  track now (some last) s =
      let interval = fl.sub now last in if is_positive interval then sample interval s else s

  -- `IntervalTracker` has an update and a window of its own.
  unfoldable pub add_interval : F → IntervalTracker F → IntervalTracker F
  add_interval interval t =
      let delta = fl.sub interval t.stats.mean in
      let mean = fl.add t.stats.mean (fl.div delta (fl.of_int (pos (t.stats.n + 1)))) in
      record t {
        stats = record {
          n = t.stats.n + 1;
          mean = mean;
          m2 = fl.add t.stats.m2 (fl.mul delta (fl.sub interval mean));
          least = if fl.lt interval t.stats.least then interval else t.stats.least;
          most = if fl.lt t.stats.most interval then interval else t.stats.most;
        };
      }

  unfoldable pub count_sample : F → IntervalTracker F → IntervalTracker F
  count_sample now t =
      let count = t.rate.count + 1 in
      let elapsed = fl.sub now t.rate.window_start in
      if fl.le (fl.lit (pos 5) 1) elapsed
      then record t {
        rate = record {
          count = 0;
          window_start = now;
          hz = fl.div (fl.of_int (pos count)) elapsed;
        };
      }
      else record t { rate = record (t.rate) { count = count } }

  unfoldable pub track_interval : F → Option F → IntervalTracker F → IntervalTracker F
  unfolding add_interval
  track_interval now none t = t
  track_interval now (some last) t =
      let interval = fl.sub now last in if is_positive interval then add_interval interval t else t

  module _ (inf neg_inf : F) where
    unfoldable pub make_loop_tracker : Bool → F → LoopPerfTracker F
    unfolding fresh_stats fresh_rate
    make_loop_tracker enabled now = record {
      enabled = enabled;
      loop = fresh_stats inf zero_f;
      proc = fresh_stats inf zero_f;
      head = fresh_stats inf neg_inf;
      rate = fresh_rate now;
      violation_count = 0;
      total_count = 0;
      last_tick_start = none;
      current_tick_start = none;
    }

    -- `reset` keeps whether it is enabled.
    unfoldable pub reset_loop : F → LoopPerfTracker F → LoopPerfTracker F
    unfolding make_loop_tracker
    reset_loop now t = make_loop_tracker t.enabled now

    unfoldable pub make_interval_tracker : Bool → F → IntervalTracker F
    unfolding fresh_stats fresh_rate
    make_interval_tracker enabled now = record {
      enabled = enabled;
      stats = fresh_stats inf zero_f;
      rate = fresh_rate now;
      last_ts = none;
    }

    unfoldable pub reset_intervals : F → IntervalTracker F → IntervalTracker F
    unfolding make_interval_tracker
    reset_intervals now t = make_interval_tracker t.enabled now

    unfoldable pub get_loop_stats : LoopPerfTracker F → Option (LoopReport F)
    unfolding compute_std unless_at in_ms
    get_loop_stats t =
        if t.enabled
        then some (record {
          hz = t.rate.hz;
          loop_avg_ms = in_ms t.loop.mean;
          loop_std_ms = in_ms (compute_std t.loop.n t.loop.m2);
          loop_min_ms = in_ms (unless_at inf t.loop.least);
          loop_max_ms = in_ms t.loop.most;
          proc_avg_ms = in_ms t.proc.mean;
          proc_std_ms = in_ms (compute_std t.proc.n t.proc.m2);
          proc_min_ms = in_ms (unless_at inf t.proc.least);
          proc_max_ms = in_ms t.proc.most;
          headroom_avg_ms = in_ms t.head.mean;
          headroom_std_ms = in_ms (compute_std t.head.n t.head.m2);
          headroom_min_ms = in_ms (unless_at neg_inf t.head.least);
          headroom_max_ms = in_ms (unless_at neg_inf t.head.most);
          violation_pct =
              if ltb 0 t.total_count
              then fl.mul
                  (fl.div (fl.of_int (pos t.violation_count)) (fl.of_int (pos t.total_count)))
                  (fl.lit (pos 100) 0)
              else zero_f;
          violation_count = t.violation_count;
          samples = t.loop.n;
        })
        else none

    unfoldable pub get_interval_stats : IntervalTracker F → Option (IntervalReport F)
    unfolding compute_std unless_at in_ms
    get_interval_stats t =
        if t.enabled
        then some (record {
          hz = t.rate.hz;
          avg_interval_ms = in_ms t.stats.mean;
          std_interval_ms = in_ms (compute_std t.stats.n t.stats.m2);
          min_interval_ms = if fl.eqb t.stats.least inf then zero_f else in_ms t.stats.least;
          max_interval_ms = in_ms t.stats.most;
          samples = t.stats.n;
        })
        else none

  unfoldable pub tick_start : F → LoopPerfTracker F → LoopPerfTracker F
  unfolding track count_tick
  tick_start now t =
      if t.enabled
      then record t {
        rate = count_tick now t.rate;
        loop = track now t.last_tick_start t.loop;
        last_tick_start = some now;
        current_tick_start = some now;
      }
      else t

  -- What `tick_end` records of a tick, where the period is positive the headroom too.
  unfoldable pub add_tick : F → F → LoopPerfTracker F → LoopPerfTracker F
  unfolding sample
  add_tick target proc_time t =
      if is_positive target
      then record t {
        total_count = t.total_count + 1;
        proc = sample proc_time t.proc;
        head = sample (fl.sub target proc_time) t.head;
        violation_count =
            if fl.lt target proc_time then t.violation_count + 1 else t.violation_count;
        current_tick_start = none;
      }
      else record t {
        total_count = t.total_count + 1;
        proc = sample proc_time t.proc;
        current_tick_start = none;
      }

  unfoldable pub tick_end_from : F → F → Option F → LoopPerfTracker F → LoopPerfTracker F
  unfolding add_tick
  tick_end_from target now none t = t
  tick_end_from target now (some start) t =
      if t.enabled then add_tick target (fl.sub now start) t else t

  unfoldable pub tick_end : F → F → LoopPerfTracker F → LoopPerfTracker F
  unfolding tick_end_from
  tick_end target now t = tick_end_from target now t.current_tick_start t

  unfoldable pub record_loop_interval : F → LoopPerfTracker F → LoopPerfTracker F
  unfolding sample
  record_loop_interval interval t =
      if not t.enabled || fl.le interval zero_f
      then t
      else record t { loop = sample interval t.loop }

  -- `now` is the timestamp that is given, or else the clock.
  unfoldable pub record_sample : F → IntervalTracker F → IntervalTracker F
  unfolding track_interval count_sample
  record_sample now t =
      if t.enabled
      then record (track_interval now t.last_ts (count_sample now t)) { last_ts = some now }
      else t

  unfoldable pub record_interval : F → F → IntervalTracker F → IntervalTracker F
  unfolding add_interval count_sample
  record_interval interval now t =
      if not t.enabled || fl.le interval zero_f
      then t
      else add_interval interval (count_sample now t)
