-- ===== src/Drive/Input.antt =====
-- reference/simple_drive.py: the two sources of input. `UDPSocket` is not in the repository: what it
-- received, and its scaling of a packet's integers, are parameters.
use kaivuriprokkis.Prelude.{
  ℕ, zero, suc, ◌+◌, ◌/◌, ◌%◌, ◌↔◌, ◌≢◌, ◌^◌, ◌<◌, ◌≡◌, refl, sym, ◌&&◌, ltb, ltb→lt, length, Bool,
  true, false, not, Option, none, some, List, [], ◌∷◌, take, get_or, arith, if◌then◌else◌,
}
use kaivuriprokkis.Prelude.Int.{ℤ, pos, pos_part, eqb_ℤ, eqb_ℤ_iff}
use kaivuriprokkis.Float.{Float, nought, unit, minus_unit}
use kaivuriprokkis.Gamepad.{XboxController, Values, read}
use kaivuriprokkis.Drive.Session.{Axes, has_bit}

-- if int(value)
unfoldable is_down : ℤ → Bool
is_down value = not (eqb_ℤ value (pos 0))

-- mask |= 1 << bit
unfoldable set_bit : ℕ → ℕ → ℕ
unfolding has_bit
set_bit bit mask = if has_bit mask bit then mask else mask + 2 ^ bit

unfoldable mask_from : ℕ → List Bool → ℕ → ℕ
unfolding set_bit
mask_from bit [] mask = mask
mask_from bit (down ∷ rest) mask =
    mask_from (bit + 1) rest (if down then set_bit bit mask else mask)

-- int(raw[8]), which is not negative: the mask is sent as an unsigned short
abbrev mask_at : List ℤ → ℕ
mask_at raw = pos_part (get_or raw 8 (pos 0))

module _ {F : Type 0} where
  -- BTN_A to BTN_DPAD_RIGHT, bits 0 to 7
  unfoldable pub keys_of : Values F → List Bool
  unfolding is_down
  keys_of v =
      is_down v.a
      ∷ is_down v.b
      ∷ is_down v.x
      ∷ is_down v.y
      ∷ is_down v.up_dpad
      ∷ is_down v.down_dpad
      ∷ is_down v.left_dpad
      ∷ is_down v.right_dpad
      ∷ []

  unfoldable pub mask_of : Values F → ℕ
  unfolding mask_from keys_of
  mask_of v = mask_from 0 (keys_of v) 0

module _ {F : Type 0} ⦃fl : Float F⦄ where
  -- Reversed while the bumper of its side is held.
  unfoldable track_sign : ℤ → F
  unfolding is_down
  track_sign bumper = if is_down bumper then minus_unit else unit

  unfoldable local_axes : Values F → Axes F
  unfolding track_sign
  local_axes v = record {
    right_rl = fl.neg v.right_joystick_x;
    right_ud = v.right_joystick_y;
    left_rl = fl.neg v.left_joystick_x;
    left_ud = fl.neg v.left_joystick_y;
    right_paddle = fl.mul (track_sign v.right_bumper) v.right_trigger;
    left_paddle = fl.mul (track_sign v.left_bumper) v.left_trigger;
  }

  -- LocalGamepadInput.poll, with the pad as `read` leaves it
  unfoldable local_poll : XboxController F → XboxController F × (Axes F × ℕ)
  unfolding read local_axes mask_of
  local_poll pad = let (pad', v) = read pad in (pad', (local_axes v, mask_of v))

  -- COMMAND_STALE_TIMEOUT_S
  unfoldable is_udp_live : F → Bool
  is_udp_live age = fl.le age (fl.lit (pos 5) 1)

  -- A packet is eight axes and the mask; where none is new, or it is empty, there are no axes.
  unfoldable udp_poll : (List ℤ → List F) → Option (List ℤ) → Option (Axes F × ℕ)
  udp_poll ints_to_floats none = none
  udp_poll ints_to_floats (some []) = none
  udp_poll ints_to_floats (some (n ∷ ns)) =
      let fs = ints_to_floats (take 8 (n ∷ ns)) in
      some (
        record {
          right_rl = get_or fs 0 nought;
          right_ud = get_or fs 1 nought;
          left_rl = get_or fs 3 nought;
          left_ud = get_or fs 4 nought;
          right_paddle = get_or fs 6 nought;
          left_paddle = get_or fs 7 nought;
        },
        mask_at (n ∷ ns),
      )

both : (a b : Bool) → (a && b) ≡ true → (a ≡ true) × (b ≡ true)
both a b h = ground arith

-- The bits of a mask from bit k on.
abbrev AreBits : ℕ → List Bool → ℕ → Type 0
AreBits k [] mask = Unit
AreBits k (b ∷ bs) mask = (has_bit mask k ≡ b) × AreBits (k + 1) bs mask

abbrev same : Bool → Bool → Bool
same true b = b
same false b = not b

abbrev are_bits : ℕ → List Bool → ℕ → Bool
are_bits k [] mask = true
are_bits k (b ∷ bs) mask = same (has_bit mask k) b && are_bits (k + 1) bs mask

are_bits-AreBits :
    (k : ℕ) (bs : List Bool) (mask : ℕ) → are_bits k bs mask ≡ true → AreBits k bs mask
are_bits-AreBits k [] mask h = tt
are_bits-AreBits k (b ∷ bs) mask h =
    let (e, rest) = both (same (has_bit mask k) b) (are_bits (k + 1) bs mask) h in
    (same-eq (has_bit mask k) b e, are_bits-AreBits (k + 1) bs mask rest)
  where
    same-eq : (a b : Bool) → same a b ≡ true → a ≡ b
    same-eq true b h = sym h
    same-eq false true h = h
    same-eq false false h = refl

-- A test of all the lists of n Booleans.
abbrev every : ℕ → (List Bool → Bool) → Bool
every zero test = test []
every (suc n) test = every n (λ bs. test (true ∷ bs)) && every n λ bs. test (false ∷ bs)

every_lem :
    (n : ℕ) (test : List Bool → Bool)
    → every n test ≡ true
    → (bs : List Bool) → length bs ≡ n
    → test bs ≡ true
every_lem zero test h [] e = h
every_lem zero test h (b ∷ bs) e = absurd (omega (arith, e))
every_lem (suc n) test h [] e = absurd (omega (arith, e))
every_lem (suc n) test h (true ∷ bs) e =
    every_lem n (λ bs. test (true ∷ bs)) (both _ _ h).0 bs (omega (arith, e))
every_lem (suc n) test h (false ∷ bs) e =
    every_lem n (λ bs. test (false ∷ bs)) (both (every n λ bs. test (true ∷ bs)) _ h).1 bs
      (omega (arith, e))

abbrev fits : List Bool → Bool
fits bs = are_bits 0 bs (mask_from 0 bs 0) && ltb (mask_from 0 bs 0) 256

every_mask : every 8 fits ≡ true
unfolding has_bit mask_from set_bit
every_mask = refl

-- Bit k of a mask is set exactly when a value of the pad is not zero.
abbrev pub IsBit : ℕ → ℕ → ℤ → Type 0
IsBit mask k value = (mask / 2 ^ k % 2 ≡ 1) ↔ (value ≢ pos 0)

is_down-IsBit : (mask k : ℕ) (value : ℤ) → has_bit mask k ≡ is_down value → IsBit mask k value
unfolding has_bit is_down
is_down-IsBit mask k value h =
    let (to, from) = eqb_ℤ_iff value (pos 0) in ground (arith, h, to, from)

-- Whatever a read of the pad gives, in the mask of a poll the bits 0 to 7 are those of A, B, X, Y and
-- the D-pad's up, down, left and right, each set exactly when the value of its button is not zero; and
-- no other bit is set.
pub mask_of-AreBits :
    {F : Type 0} (v : Values F)
    → IsBit (mask_of v) 0 v.a
      × (IsBit (mask_of v) 1 v.b
          × (IsBit (mask_of v) 2 v.x
              × (IsBit (mask_of v) 3 v.y
                  × (IsBit (mask_of v) 4 v.up_dpad
                      × (IsBit (mask_of v) 5 v.down_dpad
                          × (IsBit (mask_of v) 6 v.left_dpad
                              × (IsBit (mask_of v) 7 v.right_dpad × (mask_of v < 256))))))))
unfolding mask_of keys_of
mask_of-AreBits v =
    let mask = mask_of v in
    let all = every_lem 8 fits every_mask (keys_of v) refl in
    let (bits, small) = both (are_bits 0 (keys_of v) mask) (ltb mask 256) all in
    let (b0, (b1, (b2, (b3, (b4, (b5, (b6, (b7, _)))))))) =
      are_bits-AreBits 0 (keys_of v) mask bits in
    (
      is_down-IsBit mask 0 v.a b0,
      (
        is_down-IsBit mask 1 v.b b1,
        (
          is_down-IsBit mask 2 v.x b2,
          (
            is_down-IsBit mask 3 v.y b3,
            (
              is_down-IsBit mask 4 v.up_dpad b4,
              (
                is_down-IsBit mask 5 v.down_dpad b5,
                (
                  is_down-IsBit mask 6 v.left_dpad b6,
                  (is_down-IsBit mask 7 v.right_dpad b7, ltb→lt mask 256 small),
                ),
              ),
            ),
          ),
        ),
      ),
    )
