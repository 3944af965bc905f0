-- ===== src/Recording/DriveLog/Imu.antt =====
-- reference/modules/drive_log.py: the raw frames of the sensors that `DriveLog` buffers at their own
-- rate. An array that a list is packed into is the list; `nan` pads the frames of old firmware.
use kaivuriprokkis.Prelude.{
  ℕ, zero, suc, ◌+◌, ◌-◌, ◌*◌, ◌≡◌, ◌∙◌, refl, leb, List, [], ◌∷◌, ◌++◌, length, take, get_or,
  replicate, length-append, length-take, length-replicate, arith, if◌then◌else◌,
}
use kaivuriprokkis.Prelude.Int.{ℤ}

pub record ImuRaw (F : Type 0) : Type 0 where
  pub ts : List ℤ
  pub vals : List (List F)
  pub packed : List (List ℤ × List (List F))

abbrev pub pack_imu_frames : ℕ
pack_imu_frames = 100

module _ {F : Type 0} where
  unfoldable pub clear_imu_raw : ImuRaw F
  clear_imu_raw = record { ts = []; vals = []; packed = [] }

  -- pkt[:10] + [nan] * (10 - len(pkt[:10]))
  unfoldable pub padded : F → List F → List F
  padded nan pkt = take 10 pkt ++ replicate (10 - length (take 10 pkt)) nan

  -- The row of a frame, from the i-th sensor on.
  unfoldable pub frame_row : F → ℕ → ℕ → List (List F) → List F
  unfolding padded
  frame_row nan i zero packets = []
  frame_row nan i (suc n) packets =
      padded nan (get_or packets i []) ++ frame_row nan (i + 1) n packets

  unfoldable pub buffer : F → ℕ → List (ℤ × List (List F)) → ImuRaw F → ImuRaw F
  unfolding frame_row
  buffer nan n [] s = s
  buffer nan n ((ts_us, packets) ∷ frames) s =
      buffer nan n frames
        (record s { ts = s.ts ++ (ts_us ∷ []); vals = s.vals ++ (frame_row nan 0 n packets ∷ []) })

  unfoldable pub pack_imu : ImuRaw F → ImuRaw F
  pack_imu s =
      if leb pack_imu_frames (length s.ts)
      then record { ts = []; vals = []; packed = s.packed ++ ((s.ts, s.vals) ∷ []) }
      else s

  unfoldable pub log_imu_raw : F → ℕ → List (ℤ × List (List F)) → ImuRaw F → ImuRaw F
  unfolding buffer pack_imu
  log_imu_raw nan n frames s = pack_imu (buffer nan n frames s)

  abbrev pub count_packed : List (List ℤ × List (List F)) → ℕ
  count_packed [] = 0
  count_packed ((ts, _) ∷ ps) = length ts + count_packed ps

  unfoldable pub n_imu_raw_samples : ImuRaw F → ℕ
  n_imu_raw_samples s = count_packed s.packed + length s.ts

  count_packed-append :
      (ps qs : List (List ℤ × List (List F)))
      → count_packed (ps ++ qs) ≡ count_packed ps + count_packed qs
  count_packed-append [] qs = omega arith
  count_packed-append ((ts, _) ∷ ps) qs = omega (arith, count_packed-append ps qs)

  pack_imu-count : (s : ImuRaw F) → n_imu_raw_samples (pack_imu s) ≡ n_imu_raw_samples s
  unfolding pack_imu n_imu_raw_samples
  pack_imu-count s = ground (arith, count_packed-append s.packed ((s.ts, s.vals) ∷ []))

  buffer-count :
      (nan : F) (n : ℕ) (frames : List (ℤ × List (List F))) (s : ImuRaw F)
      → n_imu_raw_samples (buffer nan n frames s) ≡ n_imu_raw_samples s + length frames
  unfolding buffer n_imu_raw_samples
  buffer-count nan n [] s = omega arith
  buffer-count nan n ((t, packets) ∷ frames) s =
      let s1 = record s {
        ts = s.ts ++ (t ∷ []);
        vals = s.vals ++ (frame_row nan 0 n packets ∷ []);
      } in
      omega (arith, buffer-count nan n frames s1, length-append s.ts (t ∷ []))

  -- Logging counts every frame, whether or not the block is packed.
  pub log_imu_raw-count :
      (nan : F) (n : ℕ) (frames : List (ℤ × List (List F))) (s : ImuRaw F)
      → n_imu_raw_samples (log_imu_raw nan n frames s) ≡ n_imu_raw_samples s + length frames
  unfolding log_imu_raw
  log_imu_raw-count nan n frames s =
      pack_imu-count (buffer nan n frames s) ∙ buffer-count nan n frames s

  -- A row has ten values for each sensor.
  pub length-frame_row :
      (nan : F) (i n : ℕ) (packets : List (List F)) → length (frame_row nan i n packets) ≡ 10 * n
  unfolding frame_row padded
  length-frame_row nan i zero packets = refl
  length-frame_row nan i (suc n) packets =
      let pkt = get_or packets i [] in
      omega (
        arith,
        length-append (padded nan pkt) (frame_row nan (i + 1) n packets),
        length-append (take 10 pkt) (replicate (10 - length (take 10 pkt)) nan),
        length-take 10 pkt,
        length-replicate (10 - length (take 10 pkt)) nan,
        length-frame_row nan (i + 1) n packets,
      )
