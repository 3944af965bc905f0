-- ===== src/Pwm/Writer/Frame.antt =====
-- The frame that `DirectPWMWriter.flush` builds in place, read back as the PCA9685 reads it.
use kaivuriprokkis.Prelude.{
  ℕ, zero, suc, ◌+◌, ◌*◌, ◌/◌, ◌%◌, ◌≤◌, ◌<◌, ◌≡◌, refl, ◌∙◌, List, arith, get_or, set,
  get_or-set_self, get_or-set_ne, length, length-set, leb, if◌then◌else◌,
}
use kaivuriprokkis.Prelude.Int.{ℤ, pos}
use native.Mathlib.Decide.{dec_lt}
use kaivuriprokkis.Pwm.Writer.{on_off, put_bytes, put_count, fill_frame}

-- The count that four registers stand for: bit 12 of ON is full on and bit 12 of OFF is full off;
-- otherwise the output is high from tick 0 to the OFF tick.
abbrev pub decode : ℕ → ℕ → ℕ → ℕ → ℕ
decode on_l on_h off_l off_h =
    if leb 4096 (on_l + 256 * on_h)
    then 4095
    else if leb 4096 (off_l + 256 * off_h)
    then 0
    else off_l + 256 * off_h

-- The count that channel j of a frame (behind its header byte) stands for.
abbrev pub decode_at : List ℕ → ℕ → ℕ
decode_at buf j =
    decode (get_or buf (1 + j * 4) 0) (get_or buf (1 + j * 4 + 1) 0) (get_or buf (1 + j * 4 + 2) 0)
      (get_or buf (1 + j * 4 + 3) 0)

length-put_count : (buf : List ℕ) (i : ℕ) (count : ℤ) → length (put_count buf i count) ≡ length buf
unfolding put_count put_bytes
length-put_count buf i count =
    length-set _ _ _ ∙ (length-set _ _ _ ∙ (length-set _ _ _ ∙ length-set _ _ _))

put_count_before :
    (buf : List ℕ) (i k : ℕ) (count : ℤ)
    → k < 1 + i * 4
    → get_or (put_count buf i count) k 0 ≡ get_or buf k 0
unfolding put_count put_bytes
put_count_before buf i k count h =
    get_or-set_ne _ _ k _ 0 (omega arith)
    ∙ (get_or-set_ne _ _ k _ 0 (omega arith)
        ∙ (get_or-set_ne _ _ k _ 0 (omega arith) ∙ get_or-set_ne _ _ k _ 0 (omega arith)))

pub fill_frame_before :
    (left i min_ch : ℕ) (counts : List ℤ) (buf : List ℕ) (k : ℕ)
    → k < 1 + i * 4
    → get_or (fill_frame left i min_ch counts buf) k 0 ≡ get_or buf k 0
unfolding fill_frame
fill_frame_before zero i min_ch counts buf k h = refl
fill_frame_before (suc left) i min_ch counts buf k h =
    fill_frame_before left (i + 1) min_ch counts _ k (omega arith)
    ∙ put_count_before buf i k (get_or counts (min_ch + i) (pos 0)) h

pub length-fill_frame :
    (left i min_ch : ℕ) (counts : List ℤ) (buf : List ℕ)
    → length (fill_frame left i min_ch counts buf) ≡ length buf
unfolding fill_frame
length-fill_frame zero i min_ch counts buf = refl
length-fill_frame (suc left) i min_ch counts buf =
    length-fill_frame left (i + 1) min_ch counts _ ∙ length-put_count buf i _

module _ (buf : List ℕ) (o on_val off_val : ℕ) (room : o + 3 < length buf) where
  -- The four bytes that `put_bytes` leaves.
  get_or-put_bytes :
      (get_or (put_bytes buf o on_val off_val) o 0 ≡ on_val % 256)
      × (get_or (put_bytes buf o on_val off_val) (o + 1) 0 ≡ on_val / 256 % 256)
      × (get_or (put_bytes buf o on_val off_val) (o + 2) 0 ≡ off_val % 256)
      × (get_or (put_bytes buf o on_val off_val) (o + 3) 0 ≡ off_val / 256 % 256)
  unfolding put_bytes
  get_or-put_bytes =
      let b0 = set buf o (on_val % 256) in
      let b1 = set b0 (o + 1) (on_val / 256 % 256) in
      let b2 = set b1 (o + 2) (off_val % 256) in
      let l0 = length-set buf o (on_val % 256) in
      let l1 = length-set b0 (o + 1) (on_val / 256 % 256) in
      let l2 = length-set b1 (o + 2) (off_val % 256) in
      (
        get_or-set_ne b2 (o + 3) o _ 0 (omega arith)
            ∙ (get_or-set_ne b1 (o + 2) o _ 0 (omega arith)
                ∙ (get_or-set_ne b0 (o + 1) o _ 0 (omega arith)
                    ∙ get_or-set_self buf o _ 0 (omega arith))),
        get_or-set_ne b2 (o + 3) (o + 1) _ 0 (omega arith)
            ∙ (get_or-set_ne b1 (o + 2) (o + 1) _ 0 (omega arith)
                ∙ get_or-set_self b0 (o + 1) _ 0 (omega arith)),
        get_or-set_ne b2 (o + 3) (o + 2) _ 0 (omega arith)
            ∙ get_or-set_self b1 (o + 2) _ 0 (omega arith),
        get_or-set_self b2 (o + 3) _ 0 (omega arith),
      )

abbrev decode_words : ℕ × ℕ → ℕ
decode_words (on_val, off_val) =
    decode (on_val % 256) (on_val / 256 % 256) (off_val % 256) (off_val / 256 % 256)

decode-on_off : (n : ℕ) → n ≤ 4095 → decode_words (on_off (pos n)) ≡ n
unfolding on_off
decode-on_off n h = ground arith

decode-put_count :
    (buf : List ℕ) (i n : ℕ)
    → 1 + i * 4 + 3 < length buf
    → n ≤ 4095
    → decode_at (put_count buf i (pos n)) i ≡ n
unfolding put_count
decode-put_count buf i n h k =
    let (a, b, c, d) = get_or-put_bytes buf (1 + i * 4) (on_off (pos n)).0 (on_off (pos n)).1 h in
    rw (a, b, c, d) (decode-on_off n k)

-- A later round leaves channel j alone.
decode-fill_frame_before :
    (left i min_ch : ℕ) (counts : List ℤ) (buf : List ℕ) (j : ℕ)
    → j < i
    → decode_at (fill_frame left i min_ch counts buf) j ≡ decode_at buf j
decode-fill_frame_before left i min_ch counts buf j h = rw (
  fill_frame_before left i min_ch counts buf (1 + j * 4) (omega arith),
  fill_frame_before left i min_ch counts buf (1 + j * 4 + 1) (omega arith),
  fill_frame_before left i min_ch counts buf (1 + j * 4 + 2) (omega arith),
  fill_frame_before left i min_ch counts buf (1 + j * 4 + 3) (omega arith),
)

-- Channel j of the frame, for every round of the loop that writes it.
decode-fill_frame_from :
    (left i min_ch : ℕ) (counts : List ℤ) (buf : List ℕ) (j n : ℕ)
    → (i + left) * 4 < length buf
    → i ≤ j
    → j < i + left
    → get_or counts (min_ch + j) (pos 0) ≡ pos n
    → n ≤ 4095
    → decode_at (fill_frame left i min_ch counts buf) j ≡ n
unfolding fill_frame
decode-fill_frame_from zero i min_ch counts buf j n room lo hi e k = absurd (omega arith)
decode-fill_frame_from (suc left) i min_ch counts buf j n room lo hi e k =
    let here = put_count buf i (get_or counts (min_ch + i) (pos 0)) in
    elim (dec_lt i j) [
      | yes later ↦
          decode-fill_frame_from left (i + 1) min_ch counts here j n
            (omega (arith, length-put_count buf i (get_or counts (min_ch + i) (pos 0))))
            (omega arith) (omega arith) e k
      | no now ↦
          let same : i ≡ j = omega arith in
          let count : get_or counts (min_ch + i) (pos 0) ≡ pos n = rw same e in
          decode-fill_frame_before left (i + 1) min_ch counts here j (omega arith)
          ∙ rw (count, ← same) (decode-put_count buf i n (omega arith) k)
    ]

-- In the frame that `flush` builds, the bytes of each channel of the writer's range stand for that
-- channel's stored count, whatever the frame held before; the header byte is kept.
pub decode-fill_frame :
    (num min_ch : ℕ) (counts : List ℤ) (buf : List ℕ) (j n : ℕ)
    → length buf ≡ 1 + 4 * num
    → j < num
    → get_or counts (min_ch + j) (pos 0) ≡ pos n
    → n ≤ 4095
    → let frame = fill_frame num 0 min_ch counts buf in
      (decode_at frame j ≡ n) × (get_or frame 0 0 ≡ get_or buf 0 0) × (length frame ≡ length buf)
decode-fill_frame num min_ch counts buf j n size h e k = (
  decode-fill_frame_from num 0 min_ch counts buf j n (omega arith) (omega arith) (omega arith) e k,
  fill_frame_before num 0 min_ch counts buf 0 (omega arith),
  length-fill_frame num 0 min_ch counts buf,
)
