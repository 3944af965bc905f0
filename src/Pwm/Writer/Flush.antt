-- ===== src/Pwm/Writer/Flush.antt =====
-- `DirectPWMWriter` as a whole: the invariant of its methods, and what `flush` does to the chip.
use kaivuriprokkis.Prelude.{
  ℕ, suc, ◌+◌, ◌-◌, ◌*◌, ◌≤◌, ◌<◌, ◌≡◌, refl, ◌∙◌, ap, sym, Bool, true, none, some, if◌then◌else◌,
  List, [], ◌∷◌, arith, get_or, length, length-set, length-replicate, All, All-set, All-get_or,
}
use kaivuriprokkis.Prelude.Int.{ℤ, pos, pos_part, ◌≤ℤ◌}
use kaivuriprokkis.Pwm.Writer.{
  I2c, Writer, Outcome, smbus, index_error, set_channel, set_channel_range, flush, fill_frame,
  header, clamp_ℤ, payload, blocks, block_count, send_blocks, led0_on_l, is_indexed, frame_rounds,
  send_frame,
}
use kaivuriprokkis.Pwm.Writer.Frame.{
  decode, decode-fill_frame, length-fill_frame, fill_frame_before,
}
use kaivuriprokkis.Pwm.Writer.Blocks.{IsChip, send_blocks_inside}

abbrev pub IsCount : ℤ → Type 0
IsCount n = (pos 0 ≤ℤ n) × (n ≤ℤ pos 4095)

pub record IsReady {B : Type 0} (w : Writer B) : Type 0 where
  pub range_fits : w.min_ch + w.num_channels ≤ 16
  pub buf_size : length w.buf ≡ 1 + 4 * w.num_channels
  pub buf_header : get_or w.buf 0 0 ≡ header w.min_ch
  pub counts_size : length w.counts ≡ 16
  pub counts_fit : All IsCount w.counts

clamp_ℤ-IsCount : (n : ℤ) → IsCount (clamp_ℤ (pos 0) (pos 0x0FFF) n)
clamp_ℤ-IsCount n = ground arith

module _ {B : Type 0} ⦃bus : I2c B⦄ where
  -- Storing a count keeps the writer ready, whatever the channel and the count, in or out of range.
  pub set_channel-IsReady :
      (channel count : ℤ) (w : Writer B) → IsReady w → IsReady (set_channel channel count w).0
  unfolding set_channel
  set_channel-IsReady channel count w r = ground (
    arith,
    length-set w.counts (pos_part channel) (clamp_ℤ (pos 0) (pos 0x0FFF) count),
    All-set IsCount w.counts (pos_part channel) (clamp_ℤ (pos 0) (pos 0x0FFF) count) r.counts_fit
        (clamp_ℤ-IsCount count),
  )

  -- Changing the range of channels keeps the writer ready, whatever the two ends are: the buffer is
  -- built anew for a range within 0 to 15, and all stays as it was otherwise.
  pub set_channel_range-IsReady :
      (lo hi : ℤ) (w : Writer B) → IsReady w → IsReady (set_channel_range lo hi w).0
  unfolding set_channel_range
  set_channel_range-IsReady lo hi w r =
      ground (arith, length-replicate (4 * (pos_part hi + 1 - pos_part lo)) (let z : ℕ = 0 in z))

length-payload : (buf : List ℕ) → length (payload buf) ≡ length buf - 1
length-payload [] = refl
length-payload (x ∷ xs) = omega arith

get_or-payload : (buf : List ℕ) (i k : ℕ) → k ≡ i + 1 → get_or (payload buf) i 0 ≡ get_or buf k 0
get_or-payload [] i k e = refl
get_or-payload (x ∷ xs) i k e = let e' : suc i ≡ k = omega arith in ap (λ m. get_or (x ∷ xs) m 0) e'

-- The buffer that `flush` leaves.
abbrev frame_of : {B : Type 0} → Writer B → List ℕ
frame_of w = fill_frame w.num_channels 0 w.min_ch w.counts w.buf

-- A ready writer is inside its lists.
is_indexed-ready : {B : Type 0} (w : Writer B) → IsReady w → is_indexed w ≡ true
is_indexed-ready w r = ground (arith, r.range_fits, r.buf_size, r.counts_size)

whole_frame : {B : Type 0} (w : Writer B) → IsReady w → frame_rounds w ≡ w.num_channels
whole_frame w r = ground (arith, r.range_fits, r.counts_size)

module _ {B : Type 0} ⦃bus : I2c B⦄ where
  send_frame-smbus :
      (buf : List ℕ) (w : Writer B)
      → w.driver ≡ smbus
      → send_frame buf w
        ≡ send_blocks (blocks (block_count (length (payload buf))) (get_or buf 0 0) (payload buf)) w
  unfolding send_frame
  send_frame-smbus buf w e = rw e refl

module _ {B : Type 0} ⦃bus : I2c B⦄ (register : B → ℕ → ℕ) (w : Writer B)
    (chip : IsChip B w.addr register) (ready : IsReady w) where
  flush-smbus :
      w.driver ≡ smbus
      → let buf = frame_of w in
        flush w
        ≡ send_blocks
            (blocks (block_count (length (payload buf))) (get_or buf 0 0) (payload buf))
            (record w { buf = buf })
  unfolding flush
  flush-smbus e =
      let filled = λ (n : ℕ). record w { buf = fill_frame n 0 w.min_ch w.counts w.buf } in
      let ended = λ (b : Bool) (n : ℕ).
        if b then send_frame (filled n).buf (filled n) else (filled n, some index_error) in
      let sent : flush w ≡ send_frame (frame_of w) (record w { buf = frame_of w }) =
        ap (ended (is_indexed w)) (whole_frame w ready)
        ∙ ap (λ b. ended b w.num_channels) (is_indexed-ready w ready) in
      sent ∙ send_frame-smbus (frame_of w) (record w { buf = frame_of w }) e

  module _ (is_smbus : w.driver ≡ smbus) (sent : (flush w).1 ≡ none) where
    -- Each byte of the frame stands in its register.
    register-flush :
        (i k reg : ℕ)
        → k ≡ i + 1
        → k < 1 + 4 * w.num_channels
        → header w.min_ch + i ≡ reg
        → register (flush w).0.i2c reg ≡ get_or (frame_of w) k 0
    register-flush i k reg e h r =
        let buf = frame_of w in
        let size = length-fill_frame w.num_channels 0 w.min_ch w.counts w.buf in
        let same = flush-smbus is_smbus in
        let done = ap (λ o. o.1) (sym same) ∙ sent in
        let kept = fill_frame_before w.num_channels 0 w.min_ch w.counts w.buf 0 (omega arith) in
        let first : get_or buf 0 0 + i ≡ reg = rw (kept, ready.buf_header) r in
        ap (register (flush w).0.i2c) (sym first)
        ∙ (ap (λ o. register o.0.i2c (get_or buf 0 0 + i)) same
            ∙ (send_blocks_inside w.addr register chip (block_count (length (payload buf)))
                  (get_or buf 0 0) (payload buf) (record w { buf = buf }) i refl (omega arith)
                  (omega (arith, ready.buf_size, length-payload buf)) done
                ∙ get_or-payload buf i k e))

    -- After a flush that raised nothing, over an SMBus driver, the four registers of each channel
    -- of the writer's range stand for the count that was stored for it.
    pub flush_registers :
        (j n : ℕ)
        → j < w.num_channels
        → get_or w.counts (w.min_ch + j) (pos 0) ≡ pos n
        → let state = (flush w).0.i2c in
          let reg = led0_on_l + (w.min_ch + j) * 4 in
          decode
            (register state reg)
            (register state (reg + 1))
            (register state (reg + 2))
            (register state (reg + 3))
          ≡ n
    flush_registers j n h e =
        let reg = led0_on_l + (w.min_ch + j) * 4 in
        let fits : IsCount (pos n) =
          rw e at
            (All-get_or IsCount w.counts (w.min_ch + j) (pos 0) ready.counts_fit (omega arith)) in
        let decoded =
          decode-fill_frame w.num_channels w.min_ch w.counts w.buf j n ready.buf_size h e
            (omega arith) in
        rw
          (
            register-flush (j * 4) (1 + j * 4) reg (omega arith) (omega arith) (omega arith),
            register-flush (j * 4 + 1) (1 + j * 4 + 1) (reg + 1) (omega arith) (omega arith)
                (omega arith),
            register-flush (j * 4 + 2) (1 + j * 4 + 2) (reg + 2) (omega arith) (omega arith)
                (omega arith),
            register-flush (j * 4 + 3) (1 + j * 4 + 3) (reg + 3) (omega arith) (omega arith)
                (omega arith),
          )
          decoded.0

module _ {B : Type 0} ⦃bus : I2c B⦄ where
  -- What a sequence of transfers leaves of the writer: all but the bus.
  abbrev IsKept : Writer B → Outcome B → Type 0
  IsKept w (v, _) = v ≡ record w { i2c = v.i2c }

  send_blocks-IsKept : (bs : List (ℕ × List ℕ)) (w : Writer B) → IsKept w (send_blocks bs w)
  unfolding send_blocks
  send_blocks-IsKept [] w = refl
  send_blocks-IsKept ((reg, bytes) ∷ bs) w =
      let b = (bus.write_i2c_block_data w.addr reg bytes w.i2c).0 in
      ground (arith, send_blocks-IsKept bs (record w { i2c = b }))

  sent_frame-IsKept : (buf : List ℕ) (w : Writer B) → IsKept w (send_frame buf w)
  unfolding send_frame
  sent_frame-IsKept buf w = ground (
    arith,
    send_blocks-IsKept (blocks (block_count (length (payload buf))) (get_or buf 0 0) (payload buf))
        w,
  )

  -- A flush keeps the writer ready, on either driver, also when a transfer fails.
  pub flush-IsReady : (w : Writer B) → IsReady w → IsReady (flush w).0
  unfolding flush
  flush-IsReady w r =
      let n = frame_rounds w in
      let buf = fill_frame n 0 w.min_ch w.counts w.buf in
      let w' : Writer B = record w { buf = buf } in
      ground (
        arith,
        length-fill_frame n 0 w.min_ch w.counts w.buf,
        fill_frame_before n 0 w.min_ch w.counts w.buf 0 (omega arith),
        sent_frame-IsKept buf w',
      )

  send_blocks_through :
      ((addr reg : ℕ) (bytes : List ℕ) (b : B)
        → (bus.write_i2c_block_data addr reg bytes b).1 ≡ true)
      → (bs : List (ℕ × List ℕ)) (w : Writer B) → (send_blocks bs w).1 ≡ none
  unfolding send_blocks
  send_blocks_through answers [] w = refl
  send_blocks_through answers ((reg, bytes) ∷ bs) w =
      let b = (bus.write_i2c_block_data w.addr reg bytes w.i2c).0 in
      ground (
        arith,
        answers w.addr reg bytes w.i2c,
        send_blocks_through answers bs (record w { i2c = b }),
      )

module _ {B : Type 0} ⦃bus : I2c B⦄ (register : B → ℕ → ℕ) (w : Writer B)
    (chip : IsChip B w.addr register) (ready : IsReady w) where
  -- On an SMBus driver whose transfers all go through, a flush of a ready writer raises nothing, no
  -- index error either, and the four registers of each channel of the range then stand for the count
  -- that was stored for it.
  pub flush_through :
      w.driver ≡ smbus
      → ((addr reg : ℕ) (bytes : List ℕ) (b : B)
          → (bus.write_i2c_block_data addr reg bytes b).1 ≡ true)
      → (j n : ℕ) → j < w.num_channels
      → get_or w.counts (w.min_ch + j) (pos 0) ≡ pos n
      → let state = (flush w).0.i2c in
        let reg = led0_on_l + (w.min_ch + j) * 4 in
        ((flush w).1 ≡ none)
        × (decode
              (register state reg)
              (register state (reg + 1))
              (register state (reg + 2))
              (register state (reg + 3))
            ≡ n)
  flush_through e answers j n h stored =
      let through : (flush w).1 ≡ none =
        ap (λ o. o.1) (flush-smbus register w chip ready e) ∙ send_blocks_through answers _ _ in
      (through, flush_registers register w chip ready e through j n h stored)
