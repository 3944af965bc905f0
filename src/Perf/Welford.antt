-- ===== src/Perf/Welford.antt =====
-- reference/modules/perf_tracker.py: the running statistics that `LoopPerfTracker` keeps three times
-- and `IntervalTracker` once, and the rate that both measure over windows of half a second. The
-- infinities are parameters, as the operations on floats are.
use kaivuriprokkis.Prelude.{ℕ, ◌+◌, ◌-◌, ltb, if◌then◌else◌}
use kaivuriprokkis.Prelude.Int.{pos}
use kaivuriprokkis.Float.{Float}

pub record Stats (F : Type 0) : Type 0 where
  pub n : ℕ
  pub mean : F
  pub m2 : F
  pub least : F
  pub most : F

pub record Rate (F : Type 0) : Type 0 where
  pub count : ℕ
  pub window_start : F
  pub hz : F

module _ {F : Type 0} ⦃fl : Float F⦄ where
  -- The least starts at +inf, the most at zero or at -inf.
  unfoldable pub fresh_stats : F → F → Stats F
  fresh_stats inf most = record {
    n = 0;
    mean = fl.lit (pos 0) 0;
    m2 = fl.lit (pos 0) 0;
    least = inf;
    most = most;
  }

  unfoldable pub fresh_rate : F → Rate F
  fresh_rate now = record { count = 0; window_start = now; hz = fl.lit (pos 0) 0 }

  unfoldable pub sample : F → Stats F → Stats F
  sample x s =
      let delta = fl.sub x s.mean in
      let mean = fl.add s.mean (fl.div delta (fl.of_int (pos (s.n + 1)))) in
      record {
        n = s.n + 1;
        mean = mean;
        m2 = fl.add s.m2 (fl.mul delta (fl.sub x mean));
        least = if fl.lt x s.least then x else s.least;
        most = if fl.lt s.most x then x else s.most;
      }

  unfoldable pub count_tick : F → Rate F → Rate F
  count_tick now r =
      let elapsed = fl.sub now r.window_start in
      if fl.le (fl.lit (pos 5) 1) elapsed
      then record {
        count = 0;
        window_start = now;
        hz = fl.div (fl.of_int (pos (r.count + 1))) elapsed;
      }
      else record r { count = r.count + 1 }

  -- (m2 / (n - 1)) ** 0.5
  unfoldable pub compute_std : ℕ → F → F
  compute_std n m2 =
      if ltb 1 n
      then fl.pow (fl.div m2 (fl.of_int (pos (n - 1)))) (fl.lit (pos 5) 1)
      else fl.lit (pos 0) 0

  -- 0.0 if val == limit else val
  unfoldable pub unless_at : F → F → F
  unless_at limit val = if fl.eqb val limit then fl.lit (pos 0) 0 else val

  unfoldable pub in_ms : F → F
  in_ms x = fl.mul x (fl.lit (pos 1000) 0)
