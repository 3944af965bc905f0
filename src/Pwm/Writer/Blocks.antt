-- ===== src/Pwm/Writer/Blocks.antt =====
-- The SMBus transfers of `DirectPWMWriter.flush`: how the frame is cut, and what it does to the
-- chip's registers.
use kaivuriprokkis.Prelude.{
  ℕ, zero, suc, ◌+◌, ◌-◌, ◌*◌, ◌≤◌, ◌<◌, ◌≡◌, refl, ◌∙◌, ap, sym, true, none, List, [], ◌∷◌, ◌++◌,
  arith, get_or, get_or-take, get_or-drop, length, length-take, length-drop, take, drop,
  take-append-drop,
}
use native.Mathlib.Decide.{dec_lt}
use kaivuriprokkis.Pwm.Writer.{I2c, Writer, blocks, block_count, send_blocks}

-- Transfers that follow one another from a register on, none of them empty or over 32 bytes, and
-- the bytes that they carry.
abbrev pub IsContiguous : ℕ → List (ℕ × List ℕ) → Type 0
IsContiguous reg [] = Unit
IsContiguous reg ((r, bytes) ∷ rest) =
    (r ≡ reg) × (0 < length bytes) × (length bytes ≤ 32) × IsContiguous (reg + length bytes) rest

abbrev pub carried : List (ℕ × List ℕ) → List ℕ
carried [] = []
carried ((_, bytes) ∷ rest) = bytes ++ carried rest

carried-blocks :
    (rounds reg : ℕ) (xs : List ℕ) → length xs ≤ 32 * rounds → carried (blocks rounds reg xs) ≡ xs
unfolding blocks
carried-blocks zero reg [] h = refl
carried-blocks zero reg (x ∷ xs) h = absurd (omega arith)
carried-blocks (suc rounds) reg xs h =
    rw (carried-blocks rounds (reg + 32) (drop 32 xs) (omega (arith, length-drop 32 xs)))
      (take-append-drop 32 xs)

IsContiguous-no_block :
    (rounds reg reg' : ℕ) (xs : List ℕ) → rounds ≡ 0 → IsContiguous reg' (blocks rounds reg xs)
unfolding blocks
IsContiguous-no_block zero reg reg' xs z = tt
IsContiguous-no_block (suc rounds) reg reg' xs z = absurd (omega arith)

blocks-IsContiguous :
    (rounds reg : ℕ) (xs : List ℕ)
    → length xs ≤ 32 * rounds
    → 32 * rounds < length xs + 32
    → IsContiguous reg (blocks rounds reg xs)
unfolding blocks
blocks-IsContiguous zero reg xs h k = tt
blocks-IsContiguous (suc rounds) reg xs h k =
    let size = length-take 32 xs in
    let rest = length-drop 32 xs in
    (
      refl,
      omega arith,
      omega arith,
      elim (dec_lt 0 rounds) [
        | yes more ↦
            let full : length (take 32 xs) ≡ 32 = omega arith in
            rw full (blocks-IsContiguous rounds (reg + 32) (drop 32 xs) (omega arith) (omega arith))
        | no last ↦ IsContiguous-no_block rounds _ _ (drop 32 xs) (omega arith)
      ],
    )

-- The transfers carry exactly the bytes to send, in order, to consecutive registers, at most 32 in
-- each and none empty.
blocks_cover :
    (reg : ℕ) (xs : List ℕ)
    → let sent = blocks (block_count (length xs)) reg xs in
      (carried sent ≡ xs) × IsContiguous reg sent
blocks_cover reg xs = (
  carried-blocks _ reg xs (omega arith),
  blocks-IsContiguous _ reg xs (omega arith) (omega arith),
)

-- What the data sheet says of a block write that goes through, with auto-increment on: the bytes
-- stand in the registers from the first on, and no other register changes.
pub record IsChip (B : Type 0) ⦃bus : I2c B⦄ (addr : ℕ) (register : B → ℕ → ℕ) : Type 0 where
  pub inside :
      (reg : ℕ) (bytes : List ℕ) (b : B) (i : ℕ)
      → (bus.write_i2c_block_data addr reg bytes b).1 ≡ true
      → i < length bytes
      → register (bus.write_i2c_block_data addr reg bytes b).0 (reg + i) ≡ get_or bytes i 0
  pub below :
      (reg : ℕ) (bytes : List ℕ) (b : B) (k : ℕ)
      → k < reg
      → register (bus.write_i2c_block_data addr reg bytes b).0 k ≡ register b k

module _ {B : Type 0} ⦃bus : I2c B⦄ (addr : ℕ) (register : B → ℕ → ℕ)
    (chip : IsChip B addr register) where
  open bus use {write_i2c_block_data}

  -- Registers below the first are untouched.
  send_blocks_below :
      (rounds reg : ℕ) (xs : List ℕ) (w : Writer B) (k : ℕ)
      → w.addr ≡ addr
      → k < reg
      → register (send_blocks (blocks rounds reg xs) w).0.i2c k ≡ register w.i2c k
  unfolding blocks send_blocks
  send_blocks_below zero reg xs w k a h = refl
  send_blocks_below (suc rounds) reg xs w k a h =
      let (b, sent) = write_i2c_block_data addr reg (take 32 xs) w.i2c in
      ground (
        arith,
        chip.below reg (take 32 xs) w.i2c k h,
        send_blocks_below rounds (reg + 32) (drop 32 xs) (record w { i2c = b }) k a (omega arith),
      )

  -- The rest is sent only after a transfer that went through.
  send_blocks-cons :
      (reg : ℕ) (bytes : List ℕ) (rest : List (ℕ × List ℕ)) (w : Writer B)
      → w.addr ≡ addr
      → (send_blocks ((reg, bytes) ∷ rest) w).1 ≡ none
      → ((write_i2c_block_data addr reg bytes w.i2c).1 ≡ true)
        × (send_blocks ((reg, bytes) ∷ rest) w
            ≡ send_blocks rest (record w { i2c = (write_i2c_block_data addr reg bytes w.i2c).0 }))
  unfolding send_blocks
  send_blocks-cons reg bytes rest w a e = ground arith

  -- When no transfer fails, each byte stands in its register.
  pub send_blocks_inside :
      (rounds reg : ℕ) (xs : List ℕ) (w : Writer B) (i : ℕ)
      → w.addr ≡ addr
      → length xs ≤ 32 * rounds
      → i < length xs
      → (send_blocks (blocks rounds reg xs) w).1 ≡ none
      → register (send_blocks (blocks rounds reg xs) w).0.i2c (reg + i) ≡ get_or xs i 0
  unfolding blocks
  send_blocks_inside zero reg xs w i a size h e = absurd (omega arith)
  send_blocks_inside (suc rounds) reg xs w i a size h e =
      let rest = blocks rounds (reg + 32) (drop 32 xs) in
      let w' : Writer B = record w { i2c = (write_i2c_block_data addr reg (take 32 xs) w.i2c).0 } in
      let (through, same) = send_blocks-cons reg (take 32 xs) rest w a e in
      let sent : (send_blocks rest w').1 ≡ none = ap (λ o. o.1) (sym same) ∙ e in
      ap (λ o. register o.0.i2c (reg + i)) same ∙ elim (dec_lt i 32) [
        | yes near ↦
            send_blocks_below rounds (reg + 32) (drop 32 xs) w' (reg + i) a (omega arith)
            ∙ (chip.inside reg (take 32 xs) w.i2c i through (omega (arith, length-take 32 xs))
                ∙ get_or-take 32 xs i 0 near)
        | no far ↦
            let next : reg + i ≡ reg + 32 + (i - 32) = omega arith in
            let back : 32 + (i - 32) ≡ i = omega arith in
            ap (register (send_blocks rest w').0.i2c) next
            ∙ (send_blocks_inside rounds (reg + 32) (drop 32 xs) w' (i - 32) a
                  (omega (arith, length-drop 32 xs)) (omega (arith, length-drop 32 xs)) sent
                ∙ (get_or-drop 32 xs (i - 32) 0 ∙ ap (λ k. get_or xs k 0) back))
      ]
