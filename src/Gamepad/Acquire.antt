-- ===== src/Gamepad/Acquire.antt =====
-- That the wait of `XboxController` for a pad ends.
use kaivuriprokkis.Prelude.{
  ℕ, zero, suc, ◌+◌, ◌-◌, ◌≤◌, ◌≡◌, refl, Bool, true, false, Option, none, some, arith, ◌⊎◌,
}
use kaivuriprokkis.Float.{Float}
use kaivuriprokkis.Gamepad.{XboxController}
use kaivuriprokkis.Gamepad.Monitor.{
  Scan, found_pad, missed_pad, gave_up, acquire_pad, refresh_axis_scales,
}

module _ {F : Type 0} ⦃fl : Float F⦄ where
  -- A pad is connected and its count of failures is cleared, or the wait was stopped or gave up.
  abbrev pub IsOutcome : ℕ → XboxController F × Bool → Type 0
  IsOutcome m (c, true) = (c.connected ≡ true) × (c.reconnect_count ≡ 0)
  IsOutcome m (c, false) = (c.stopping ≡ true) ⊎ (m ≤ c.reconnect_count)

  abbrev Ends : ℕ → Option (XboxController F × Bool) → Type 0
  Ends m none = ⊥
  Ends m (some r) = IsOutcome m r

  acquire_pad-Ends :
      (fuel m : ℕ) (scans : ℕ → Scan) (k : ℕ) (c : XboxController F)
      → c.max_reconnect ≡ some m
      → m - c.reconnect_count ≤ fuel
      → Ends m (acquire_pad (suc fuel) scans k c)
  unfolding acquire_pad found_pad missed_pad gave_up refresh_axis_scales
  acquire_pad-Ends zero m scans k c e h = ground arith
  acquire_pad-Ends (suc fuel) m scans k c e h = ground (
    arith,
    acquire_pad-Ends fuel m scans (k + 1) (record (missed_pad c) { stopping = (scans k).stops }) e,
  )

  ended :
      (m : ℕ) (o : Option (XboxController F × Bool))
      → Ends m o
      → (r : XboxController F × Bool) × ((o ≡ some r) × IsOutcome m r)
  ended m none h = absurd h
  ended m (some r) h = (r, (refl, h))

  -- With `max_reconnect` set, the wait for a pad ends, whatever the scans find: it takes at most one
  -- pass more than the attempts that are left. It returns true with the controller connected and no
  -- failure counted, or false because it was stopped or the count has reached `max_reconnect`.
  pub acquire_pad-terminates :
      (m : ℕ) (scans : ℕ → Scan) (k : ℕ) (c : XboxController F)
      → c.max_reconnect ≡ some m
      → (r : XboxController F × Bool) × ((acquire_pad (suc (m - c.reconnect_count)) scans k c
            ≡ some r)
          × IsOutcome m r)
  acquire_pad-terminates m scans k c e =
      ended m (acquire_pad (suc (m - c.reconnect_count)) scans k c)
        (acquire_pad-Ends (m - c.reconnect_count) m scans k c e (omega arith))
