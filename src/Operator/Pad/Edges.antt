-- ===== src/Operator/Pad/Edges.antt =====
-- The buttons that a poll of `Pad` reports.
use kaivuriprokkis.Prelude.{
  ℕ, ◌+◌, ◌≡◌, ◌∙◌, sym, refl, ap, ◌==◌, Bool, true, false, not, ◌&&◌, Option, none, List, [], ◌∷◌,
  ◌++◌, if◌then◌else◌, arith, inl, inr, Bool-cases,
}
use kaivuriprokkis.Operator.Pad.{
  Pad, PadEvent, PadError, DeviceRead, would_block, failed, read_events, signals, signal,
  signal_all, handle, is_dropped, poll_from, poll, moved,
}

abbrev pub times_in : ℕ → List ℕ → ℕ
times_in b [] = 0
times_in b (k ∷ ks) = (if b == k then 1 else 0) + times_in b ks

-- The times that a key goes down, from its first level on, and its last level.
unfoldable pub edges : ℕ → Bool → List (ℕ × Bool) → ℕ
edges b level [] = 0
edges b level ((k, on) ∷ xs) =
    if b == k then (if on && not level then 1 else 0) + edges b on xs else edges b level xs

unfoldable pub last_level : ℕ → Bool → List (ℕ × Bool) → Bool
last_level b level [] = level
last_level b level ((k, on) ∷ xs) = last_level b (if b == k then on else level) xs

-- All the signals of the reads up to the one that would block.
unfoldable pub signals_of : List PadEvent → List (ℕ × Bool)
unfolding signals
signals_of [] = []
signals_of (e ∷ es) = signals e ++ signals_of es

unfoldable pub signals_read : List DeviceRead → List (ℕ × Bool)
unfolding signals_of
signals_read (read_events es ∷ reads) = signals_of es ++ signals_read reads
signals_read _ = []

times_in-append : (b : ℕ) (xs ys : List ℕ) → times_in b (xs ++ ys) ≡ times_in b xs + times_in b ys
times_in-append b [] ys = omega arith
times_in-append b (x ∷ xs) ys = omega (arith, times_in-append b xs ys)

same_number : (j k : ℕ) → (j == k) ≡ true → j ≡ k
same_number j k e = ground arith

-- What a list of signals does to one key.
abbrev pub IsReported : ℕ → (ℕ → Bool) → List ℕ → List (ℕ × Bool) → (ℕ → Bool) → List ℕ → Type 0
IsReported b keys pressed xs keys' pressed' =
    (times_in b pressed' ≡ times_in b pressed + edges b (keys b) xs)
    × (keys' b ≡ last_level b (keys b) xs)

signal_all-IsReported :
    (b : ℕ) (xs : List (ℕ × Bool)) (keys : ℕ → Bool) (pressed : List ℕ)
    → IsReported b keys pressed xs
        (signal_all xs (keys, pressed)).0
        (signal_all xs (keys, pressed)).1
unfolding signal_all signal edges last_level
signal_all-IsReported b [] keys pressed = (omega arith, refl)
signal_all-IsReported b ((k, on) ∷ xs) keys pressed =
    let (counted, level) =
      signal_all-IsReported b xs (signal (k, on) (keys, pressed)).0
        (signal (k, on) (keys, pressed)).1 in
    elim (Bool-cases (b == k)) [
      | inl e ↦
          let same : keys b ≡ keys k = ap keys (same_number b k e) in
          ground (arith, counted, level, times_in-append b pressed (k ∷ []))
      | inr e ↦ ground (arith, counted, level, times_in-append b pressed (k ∷ []))
    ]

edges-append :
    (b : ℕ) (level : Bool) (xs ys : List (ℕ × Bool))
    → edges b level (xs ++ ys) ≡ edges b level xs + edges b (last_level b level xs) ys
unfolding edges last_level
edges-append b level [] ys = omega arith
edges-append b level ((k, on) ∷ xs) ys =
    ground (arith, edges-append b on xs ys, edges-append b level xs ys)

last_level-append :
    (b : ℕ) (level : Bool) (xs ys : List (ℕ × Bool))
    → last_level b level (xs ++ ys) ≡ last_level b (last_level b level xs) ys
unfolding last_level
last_level-append b level [] ys = refl
last_level-append b level ((k, on) ∷ xs) ys =
    last_level-append b (if b == k then on else level) xs ys

-- Two lists of signals, one after the other.
IsReported-trans :
    (b : ℕ) (k0 k1 k2 : ℕ → Bool) (p0 p1 p2 : List ℕ) (xs ys : List (ℕ × Bool))
    → IsReported b k0 p0 xs k1 p1
    → IsReported b k1 p1 ys k2 p2
    → IsReported b k0 p0 (xs ++ ys) k2 p2
IsReported-trans b k0 k1 k2 p0 p1 p2 xs ys (c, l) (c', l') =
    let at_last : edges b (k1 b) ys ≡ edges b (last_level b (k0 b) xs) ys =
      ap (λ level. edges b level ys) l in
    (
      omega (arith, c, c', at_last, edges-append b (k0 b) xs ys),
      l' ∙ (ap (λ level. last_level b level ys) l ∙ sym (last_level-append b (k0 b) xs ys)),
    )

-- Events with no SYN_DROPPED among them.
abbrev pub are_kept : List PadEvent → Bool
are_kept [] = true
are_kept (e ∷ es) = not (is_dropped e) && are_kept es

-- Up to the read that would block, no read fails or is empty, and no event is a SYN_DROPPED.
abbrev pub are_clean : List DeviceRead → Bool
are_clean [] = true
are_clean (would_block ∷ reads) = true
are_clean (failed ∷ reads) = false
are_clean (read_events [] ∷ reads) = false
are_clean (read_events (e ∷ es) ∷ reads) = are_kept (e ∷ es) && are_clean reads

-- No error, and the signals reported.
abbrev pub IsPolled : ℕ → Pad → List ℕ → List (ℕ × Bool) → Pad × (List ℕ × Option PadError) → Type 0
IsPolled b p pressed xs (p', (pressed', error)) =
    (error ≡ none) × IsReported b p.keys pressed xs p'.keys pressed'

handle-IsPolled :
    (b : ℕ) (es : List PadEvent) (p : Pad) (pressed : List ℕ)
    → are_kept es ≡ true
    → IsPolled b p pressed (signals_of es) (handle es p pressed)
unfolding handle signals_of edges last_level
handle-IsPolled b [] p pressed h = (refl, (omega arith, refl))
handle-IsPolled b (e ∷ es) p pressed h =
    let one = signal_all (signals e) (p.keys, pressed) in
    let p1 : Pad = record { axes = moved e p.axes; keys = one.0 } in
    let first = signal_all-IsReported b (signals e) p.keys pressed in
    let kept : is_dropped e ≡ false = ground arith in
    let (ok, rest) = handle-IsPolled b es p1 one.1 (ground arith) in
    rw kept (
      ok,
      IsReported-trans b p.keys one.0 (handle es p1 one.1).0.keys pressed one.1
          (handle es p1 one.1).1.0 (signals e) (signals_of es) first rest,
    )

poll_from-IsPolled :
    (b : ℕ) (reads : List DeviceRead) (p : Pad) (pressed : List ℕ)
    → are_clean reads ≡ true
    → IsPolled b p pressed (signals_read reads) (poll_from reads p pressed)
unfolding poll_from signals_read edges last_level
poll_from-IsPolled b [] p pressed h = (refl, (omega arith, refl))
poll_from-IsPolled b (would_block ∷ reads) p pressed h = (refl, (omega arith, refl))
poll_from-IsPolled b (failed ∷ reads) p pressed h = cc
poll_from-IsPolled b (read_events [] ∷ reads) p pressed h = cc
poll_from-IsPolled b (read_events (e ∷ es) ∷ reads) p pressed h =
    let (ok, first) = handle-IsPolled b (e ∷ es) p pressed (ground arith) in
    let c = handle (e ∷ es) p pressed in
    let (ok', rest) = poll_from-IsPolled b reads c.0 c.1.0 (ground arith) in
    rw (poll_from, ok)
      (
        ok',
        IsReported-trans b p.keys c.0.keys (poll_from reads c.0 c.1.0).0.keys pressed c.1.0
            (poll_from reads c.0 c.1.0).1.0 (signals_of (e ∷ es)) (signals_read reads) first rest,
      )

-- A poll of reads that are clean up to the one that would block raises nothing. It reports each
-- button as often as it goes down in the signals of the events, keys and the hat alike, from the
-- level that the last poll left, and leaves it at the level that they end with.
pub poll-IsPolled :
    (b : ℕ) (reads : List DeviceRead) (p : Pad)
    → are_clean reads ≡ true
    → IsPolled b p [] (signals_read reads) (poll reads p)
unfolding poll
poll-IsPolled b reads p h = poll_from-IsPolled b reads p [] h
