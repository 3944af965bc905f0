-- ===== src/Pwm/Writer.antt =====
-- reference/modules/pwm/writer.py: the direct I2C writer of the PCA9685. The bus is the caller's: a
-- parameter that answers each transfer with its next state and whether it went through (`false` is
-- an exception that the driver raises). Waiting for `try_lock` is the bus's and leaves no trace.
pub mod Frame
pub mod Blocks
pub mod Flush
pub mod Calls
use kaivuriprokkis.Prelude.{
  ℕ, zero, suc, ◌+◌, ◌-◌, ◌*◌, ◌/◌, ◌%◌, Bool, true, false, not, ◌&&◌, Option, none, some, List, [],
  ◌∷◌, ◌==◌, ◌||◌, leb, ltb, get_or, set, take, drop, replicate, length, if◌then◌else◌,
}
use kaivuriprokkis.Prelude.Int.{ℤ, pos, pos_part, ◌*ℤ◌, leb_ℤ, ltb_ℤ}
use kaivuriprokkis.Float.{Float}
use kaivuriprokkis.Pwm.Constants.{max_channels}

pub record I2c (B : Type 0) : Type 0 where
  -- address, register, value
  pub write_byte_data : ℕ → ℕ → ℕ → B → B × Bool
  -- address, first register, bytes
  pub write_i2c_block_data : ℕ → ℕ → List ℕ → B → B × Bool
  -- address, bytes: the busio transfer
  pub writeto : ℕ → List ℕ → B → B × Bool

-- Which of the two driver interfaces the bus object has; SMBus is preferred.
pub data Driver : Type 0 where
  smbus busio unknown : Driver

pub data Error : Type 0 where
  value_error type_error index_error hardware_io : Error

pub record Writer (B : Type 0) : Type 0 where
  pub i2c : B
  pub driver : Driver
  pub addr : ℕ
  pub min_ch : ℕ
  pub max_ch : ℕ
  pub num_channels : ℕ
  pub buf : List ℕ
  pub counts : List ℤ
  pub frequency : ℤ

abbrev pub led0_on_l : ℕ
led0_on_l = 0x06

abbrev pub mode1 : ℕ
mode1 = 0x00

abbrev pub mode2 : ℕ
mode2 = 0x01

abbrev pub pre_scale : ℕ
pre_scale = 0xFE

-- SLEEP | AI, AI, AI | RESTART
abbrev pub sleep_ai : ℕ
sleep_ai = 0x30

abbrev pub ai : ℕ
ai = 0x20

abbrev pub ai_restart : ℕ
ai_restart = 0xA0

-- max(lo, min(hi, n)) on integers
abbrev pub clamp_ℤ : ℤ → ℤ → ℤ → ℤ
clamp_ℤ lo hi n = let m = if ltb_ℤ n hi then n else hi in if ltb_ℤ lo m then m else lo

-- `on_val` and `off_val` of a count
unfoldable pub on_off : ℤ → ℕ × ℕ
on_off count =
    if leb_ℤ (pos 0x0FFF) count
    then (0x1000, 0)
    else if leb_ℤ count (pos 0)
    then (0, 0x1000)
    else (0, pos_part count)

-- The four bytes of an entry, written in place.
unfoldable pub put_bytes : List ℕ → (offset on_val off_val : ℕ) → List ℕ
put_bytes buf offset on_val off_val =
    let b0 = set buf offset (on_val % 256) in
    let b1 = set b0 (offset + 1) (on_val / 256 % 256) in
    let b2 = set b1 (offset + 2) (off_val % 256) in set b2 (offset + 3) (off_val / 256 % 256)

-- Channel i of the frame, at 1 + 4 * i.
unfoldable pub put_count : List ℕ → ℕ → ℤ → List ℕ
put_count buf i count =
    let (on_val, off_val) = on_off count in put_bytes buf (1 + i * 4) on_val off_val

-- `for i in range(num)`, with `left` rounds to go
unfoldable pub fill_frame : (left i min_ch : ℕ) → List ℤ → List ℕ → List ℕ
fill_frame zero i min_ch counts buf = buf
fill_frame (suc left) i min_ch counts buf =
    fill_frame left (i + 1) min_ch counts (put_count buf i (get_or counts (min_ch + i) (pos 0)))

-- The SMBus transfers of `data`, which starts at register `reg`: pieces of 32 bytes.
unfoldable pub blocks : (rounds reg : ℕ) → List ℕ → List (ℕ × List ℕ)
blocks zero reg bytes = []
blocks (suc rounds) reg bytes = (reg, take 32 bytes) ∷ blocks rounds (reg + 32) (drop 32 bytes)

-- len(range(0, n, 32))
abbrev pub block_count : ℕ → ℕ
block_count n = (n + 31) / 32

abbrev pub header : ℕ → ℕ
header min_ch = led0_on_l + min_ch * 4

abbrev pub empty_frame : ℕ → ℕ → List ℕ
empty_frame min_ch num = header min_ch ∷ replicate (4 * num) 0

-- 0 <= lo <= hi < 16
abbrev pub is_range : ℤ → ℤ → Bool
is_range lo hi = leb_ℤ (pos 0) lo && (leb_ℤ lo hi && ltb_ℤ hi (pos max_channels))

-- The writer, with `none` where the call returns, and the error that it raises otherwise.
abbrev pub Outcome : Type 0 → Type 0
Outcome B = Writer B × Option Error

abbrev pub payload : List ℕ → List ℕ
payload [] = []
payload (_ ∷ bytes) = bytes

-- int(25_000_000 / (4096 * frequency) - 1), clamped to 3..255
unfoldable pub prescale_of : (F : Type 0) ⦃fl : Float F⦄ → ℤ → ℤ
prescale_of F ⦃fl⦄ frequency = clamp_ℤ (pos 3) (pos 255) (
    fl.trunc (
      fl.sub (fl.div (fl.lit (pos 25_000_000) 0) (fl.of_int (pos 4096 *ℤ frequency)))
        (fl.lit (pos 1) 0)))

module _ {B : Type 0} where
  -- Every index of the loop of `flush` is inside its list.
  abbrev pub is_indexed : Writer B → Bool
  is_indexed w =
      w.num_channels == 0
      || (leb (w.min_ch + w.num_channels) (length w.counts)
          && leb (1 + 4 * w.num_channels) (length w.buf))

  -- The rounds before the counts end. A round past the end of the buffer writes the bytes that it has.
  abbrev pub frame_rounds : Writer B → ℕ
  frame_rounds w =
      let left = length w.counts - w.min_ch in
      if ltb left w.num_channels then left else w.num_channels

module _ {B : Type 0} ⦃bus : I2c B⦄ where
  open bus use {write_byte_data, write_i2c_block_data, writeto}

  abbrev answer : Writer B → B × Bool → Outcome B
  answer w (b, true) = (record w { i2c = b }, none)
  answer w (b, false) = (record w { i2c = b }, some hardware_io)

  unfoldable pub write_reg : ℕ → ℕ → Writer B → Outcome B
  write_reg reg value w = elim w.driver [
    | smbus ↦ answer w (write_byte_data w.addr reg value w.i2c)
    | _ ↦ answer w (writeto w.addr (reg ∷ value ∷ []) w.i2c)
  ]

  infixl 5 ◌then_do◌
  abbrev pub ◌then_do◌ : Outcome B → (Writer B → Outcome B) → Outcome B
  (w, none) then_do f = f w
  (w, some e) then_do f = (w, some e)

  unfoldable pub sleep : Writer B → Outcome B
  unfolding write_reg
  sleep = write_reg mode1 sleep_ai

  unfoldable pub wake : Writer B → Outcome B
  unfolding write_reg
  wake w = write_reg mode1 ai w then_do write_reg mode1 ai_restart

  unfoldable pub set_channel : ℤ → ℤ → Writer B → Outcome B
  set_channel channel count w =
      if leb_ℤ (pos 0) channel && ltb_ℤ channel (pos max_channels)
      then (
        record w { counts = set w.counts (pos_part channel) (clamp_ℤ (pos 0) (pos 0x0FFF) count) },
        none,
      )
      else (w, some value_error)

  unfoldable pub set_channel_range : ℤ → ℤ → Writer B → Outcome B
  set_channel_range lo hi w =
      let num = pos_part hi + 1 - pos_part lo in
      if is_range lo hi
      then (
        record w {
          min_ch = pos_part lo;
          max_ch = pos_part hi;
          num_channels = num;
          buf = empty_frame (pos_part lo) num;
        },
        none,
      )
      else (w, some value_error)

  -- The transfers in order; the first that fails raises.
  unfoldable pub send_blocks : List (ℕ × List ℕ) → Writer B → Outcome B
  send_blocks [] w = (w, none)
  send_blocks ((reg, bytes) ∷ rest) w =
      answer w (write_i2c_block_data w.addr reg bytes w.i2c) then_do send_blocks rest

  unfoldable pub send_frame : List ℕ → Writer B → Outcome B
  unfolding send_blocks
  send_frame buf w = elim w.driver [
    | smbus ↦
        send_blocks (blocks (block_count (length (payload buf))) (get_or buf 0 0) (payload buf)) w
    | _ ↦ answer w (writeto w.addr buf w.i2c)
  ]

  unfoldable pub flush : Writer B → Outcome B
  unfolding send_frame
  flush w =
      let buf = fill_frame (frame_rounds w) 0 w.min_ch w.counts w.buf in
      let w' = record w { buf = buf } in
      if is_indexed w then send_frame buf w' else (w', some index_error)

  abbrev made : Outcome B → B × (Option (Writer B) × Option Error)
  made (w, none) = (w.i2c, (some w, none))
  made (w, some e) = (w.i2c, (none, some e))

module _ (F : Type 0) {B : Type 0} ⦃bus : I2c B⦄ ⦃fl : Float F⦄ where
  unfoldable pub init_chip : ℤ → Writer B → Outcome B
  unfolding write_reg prescale_of
  init_chip frequency w =
      (write_reg mode1 sleep_ai w
        then_do write_reg mode2 0x04
        then_do write_reg pre_scale (pos_part (prescale_of F frequency))
        then_do write_reg mode1 ai
        then_do write_reg mode1 ai_restart)
      then_do λ v. (record v { frequency = frequency }, none)

  -- `DirectPWMWriter.__init__`: no writer where it raises, with what the bus has become.
  unfoldable pub make_writer : B → Driver → ℕ → ℤ → ℤ → ℤ → B × (Option (Writer B) × Option Error)
  unfolding init_chip
  make_writer b driver address lo hi frequency =
      let num = pos_part hi + 1 - pos_part lo in
      let fresh : Writer B = record {
        i2c = b;
        driver = driver;
        addr = address;
        min_ch = pos_part lo;
        max_ch = pos_part hi;
        num_channels = num;
        buf = empty_frame (pos_part lo) num;
        counts = replicate 16 (pos 0);
        frequency = frequency;
      } in
      if not (is_range lo hi) then (b, (none, some value_error)) else elim driver [
        | unknown ↦ (b, (none, some type_error))
        | _ ↦ made (init_chip frequency fresh)
      ]
