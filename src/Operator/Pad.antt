-- ===== src/Operator/Pad.antt =====
-- native_stack/tools/vla_operator.py: `Pad`, the Xbox pad that a run reads itself. What a read of the
-- device gives, and what the driver says of an axis, are inputs; an event comes decoded.
pub mod Edges
use kaivuriprokkis.Prelude.{
  ℕ, ◌+◌, ◌==◌, ltb, Bool, true, false, not, ◌&&◌, ◌||◌, Option, none, some, List, [], ◌∷◌, ◌++◌,
  if◌then◌else◌,
}
use kaivuriprokkis.Prelude.Int.{ℤ, pos, negsuc, pos_part, neg_part, ltb_ℤ, leb_ℤ, eqb_ℤ}
use kaivuriprokkis.Float.{Float}

pub data Stick : Type 0 where
  abs_x abs_y abs_rx abs_ry : Stick

-- An event, by its type: a SYN_DROPPED, a key with its value, an axis that the pad reads, the hat of
-- the D-pad, or one that `poll` ignores.
pub data PadEvent : Type 0 where
  syn_dropped ignored : PadEvent
  ev_key : ℕ → ℤ → PadEvent
  ev_abs : Stick → ℤ → PadEvent
  ev_hat0x : ℤ → PadEvent

pub data PadError : Type 0 where
  disconnected overrun no_axes : PadError

-- A read of the device, where one that would block ends a poll.
pub data DeviceRead : Type 0 where
  would_block failed : DeviceRead
  read_events : List PadEvent → DeviceRead

-- The value, the minimum and the maximum of an axis.
pub record Range : Type 0 where
  pub value : ℤ
  pub lo : ℤ
  pub hi : ℤ

-- `keys` says of a key whether it is down.
pub record Pad : Type 0 where
  pub axes : Stick → Range
  pub keys : ℕ → Bool

abbrev pub btn_left : ℕ
btn_left = 0x222

abbrev pub btn_right : ℕ
btn_right = 0x223

-- _read_axes, on a pipe and on a device
unfoldable pub fifo_axes : Stick → Range
fifo_axes _ = record { value = pos 0; lo = negsuc 32_767; hi = pos 32_767 }

abbrev is_empty : Range → Bool
is_empty r = leb_ℤ r.hi r.lo

abbrev same_stick : Stick → Stick → Bool
same_stick abs_x abs_x = true
same_stick abs_y abs_y = true
same_stick abs_rx abs_rx = true
same_stick abs_ry abs_ry = true
same_stick _ _ = false

-- Each axis in turn, up to one whose range is empty.
unfoldable pub read_each : List Stick → (Stick → Range) → (Stick → Range) → (Stick → Range) × Bool
read_each [] probe axes = (axes, true)
read_each (code ∷ codes) probe axes =
    let rest = read_each codes probe (λ s. if same_stick s code then probe code else axes s) in
    if is_empty (probe code) then (axes, false) else rest

-- `_read_axes`, and whether it returns
unfoldable pub read_axes : Bool → (Stick → Range) → (Stick → Range) → (Stick → Range) × Bool
unfolding fifo_axes read_each
read_axes fifo probe axes =
    let each = read_each (abs_x ∷ abs_y ∷ abs_rx ∷ abs_ry ∷ []) probe axes in
    if fifo then (fifo_axes, true) else each

-- Drop what is queued, and read the sticks again. The reads end with one that would block.
unfoldable pub drain : Bool → (Stick → Range) → List DeviceRead → Pad → Pad × Option PadError
unfolding read_axes
drain fifo probe (failed ∷ reads) p = (p, some disconnected)
drain fifo probe (read_events [] ∷ reads) p = (p, some disconnected)
drain fifo probe (read_events (_ ∷ _) ∷ reads) p = drain fifo probe reads p
drain fifo probe _ p =
    let (axes, ok) = read_axes fifo probe p.axes in
    (record { axes = axes; keys = λ b. false }, if ok then none else some no_axes)

unfoldable pub set_axis : Stick → ℤ → (Stick → Range) → Stick → Range
set_axis code val axes s = if same_stick s code then record (axes s) { value = val } else axes s

-- The keys that an event says are down or up: itself, or for the hat both keys of the D-pad.
unfoldable pub signals : PadEvent → List (ℕ × Bool)
signals (ev_key code val) = (code, not (eqb_ℤ val (pos 0))) ∷ []
signals (ev_hat0x val) = (btn_left, ltb_ℤ val (pos 0)) ∷ (btn_right, ltb_ℤ (pos 0) val) ∷ []
signals _ = []

-- What a poll has gathered: the keys that are down, and those that were newly pressed, in order.
unfoldable pub signal : ℕ × Bool → (ℕ → Bool) × List ℕ → (ℕ → Bool) × List ℕ
signal (b, on) (keys, pressed) = (
  (λ k. if k == b then on else keys k),
  if on && not (keys b) then pressed ++ (b ∷ []) else pressed,
)

unfoldable pub signal_all : List (ℕ × Bool) → (ℕ → Bool) × List ℕ → (ℕ → Bool) × List ℕ
unfolding signal
signal_all [] s = s
signal_all (x ∷ xs) s = signal_all xs (signal x s)

abbrev moved : PadEvent → (Stick → Range) → Stick → Range
moved (ev_abs code val) axes = set_axis code val axes
moved _ axes = axes

abbrev is_dropped : PadEvent → Bool
is_dropped syn_dropped = true
is_dropped _ = false

-- The events of one read, up to a SYN_DROPPED, which raises.
unfoldable pub handle : List PadEvent → Pad → List ℕ → Pad × (List ℕ × Option PadError)
unfolding signal_all signals set_axis
handle [] p pressed = (p, (pressed, none))
handle (e ∷ es) p pressed =
    let (keys, pressed') = signal_all (signals e) (p.keys, pressed) in
    let rest = handle es (record { axes = moved e p.axes; keys = keys }) pressed' in
    if is_dropped e then (p, (pressed, some overrun)) else rest

unfoldable pub poll_from : List DeviceRead → Pad → List ℕ → Pad × (List ℕ × Option PadError)
unfolding handle
poll_from [] p pressed = (p, (pressed, none))
poll_from (would_block ∷ reads) p pressed = (p, (pressed, none))
poll_from (failed ∷ reads) p pressed = (p, (pressed, some disconnected))
poll_from (read_events [] ∷ reads) p pressed = (p, (pressed, some disconnected))
poll_from (read_events (e ∷ es) ∷ reads) p pressed =
    let (p', (pressed', error)) = handle (e ∷ es) p pressed in
    let rest = poll_from reads p' pressed' in
    elim error [ some why ↦ (p', (pressed', some why)) | none ↦ rest ]

-- `poll`: the buttons that are newly pressed, or the error that it raises.
unfoldable pub poll : List DeviceRead → Pad → Pad × (List ℕ × Option PadError)
unfolding poll_from
poll reads p = poll_from reads p []

abbrev magnitude : ℤ → ℕ
magnitude n = pos_part n + neg_part n

module _ {F : Type 0} ⦃fl : Float F⦄ where
  abbrev unit : F → F
  unit x =
      let one = fl.lit (pos 1) 0 in
      let minus = fl.lit (negsuc 0) 0 in
      let high = if fl.lt x minus then minus else x in if fl.lt one high then one else high

  -- The stick from -1 to 1, with a dead zone of a quarter.
  unfoldable pub axis : Range → F
  axis r =
      let low = magnitude r.lo in
      let high = magnitude r.hi + 1 in
      let scale = if ltb low high then high else low in
      let x = unit (fl.div (fl.of_int r.value) (fl.of_int (pos scale))) in
      let quarter = fl.lit (pos 25) 2 in
      let size = fl.div (fl.sub (fl.abs x) quarter) (fl.lit (pos 75) 2) in
      if fl.lt (fl.abs x) quarter
      then fl.lit (pos 0) 0
      else (if fl.lt x (fl.lit (pos 0) 0) then fl.neg size else size)

  -- Slew, boom, arm, bucket and the two tracks.
  unfoldable pub action : Bool → Pad → List F
  unfolding axis
  action slew p =
      let zero = fl.lit (pos 0) 0 in
      (if slew then fl.neg (axis (p.axes abs_x)) else zero)
      ∷ fl.neg (axis (p.axes abs_ry))
      ∷ axis (p.axes abs_y)
      ∷ fl.neg (axis (p.axes abs_rx))
      ∷ zero
      ∷ zero
      ∷ []
