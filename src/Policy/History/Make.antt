-- ===== src/Policy/History/Make.antt =====
-- `FrameHistory.__init__`: the offsets, the tolerance and the empty queues.
use kaivuriprokkis.Prelude.{
  ℕ, ltb, ◌≡◌, refl, Bool, true, false, not, ◌&&◌, ◌||◌, Option, none, some, List, [], ◌∷◌, arith,
  replicate, if◌then◌else◌, zero, suc,
}
use kaivuriprokkis.Prelude.Int.{ℤ, pos, ◌+ℤ◌, ltb_ℤ, eqb_ℤ}
use kaivuriprokkis.Float.{Float, nought}
use kaivuriprokkis.Policy.History.{Frame, FrameHistory, push}
use kaivuriprokkis.Policy.History.Budget.{IsWithinBudget, push-IsWithinBudget, total}

-- A set of integers, sorted in reverse.
unfoldable pub insert_desc : ℤ → List ℤ → List ℤ
insert_desc x [] = x ∷ []
insert_desc x (y ∷ ys) =
    let rest = insert_desc x ys in
    if eqb_ℤ x y then y ∷ ys else if ltb_ℤ y x then x ∷ y ∷ ys else y ∷ rest

abbrev first_or : ℤ → List ℤ → ℤ
first_or x [] = x
first_or x (y ∷ _) = y

module _ {F : Type 0} ⦃fl : Float F⦄ where
  open fl use {lit, trunc, mul, lt, le}

  -- A value within the range is finite, so the range test covers the code's `math.isfinite`.
  unfoldable pub all_within : F → List F → Bool
  all_within hi [] = true
  all_within hi (x ∷ xs) = le nought x && (le x hi && all_within hi xs)

  -- int(x * 1e6)
  abbrev pub to_ns : F → ℤ
  to_ns x = trunc (mul x (lit (pos 1_000_000) 0))

  -- sorted({...} | {0}, reverse=True)
  unfoldable pub offsets_of : List F → List ℤ
  unfolding insert_desc
  offsets_of [] = pos 0 ∷ []
  offsets_of (x ∷ xs) = insert_desc (to_ns x) (offsets_of xs)

  abbrev is_empty_list : List F → Bool
  is_empty_list [] = true
  is_empty_list (_ ∷ _) = false

  unfoldable pub make_history : ℕ → List F → F → ℕ → Option FrameHistory
  unfolding all_within offsets_of
  make_history views offsets_ms tolerance_ms max_bytes =
      let offsets = offsets_of offsets_ms in
      let tolerance = to_ns tolerance_ms in
      if ltb views 1 || ltb max_bytes 1
      then none
      else if is_empty_list offsets_ms || not (all_within (lit (pos 5000) 0) offsets_ms)
      then none
      else if not (lt nought tolerance_ms && le tolerance_ms (lit (pos 1000) 0))
      then none
      else some (record {
        offsets = offsets;
        tolerance = tolerance;
        retention = first_or (pos 0) offsets +ℤ tolerance +ℤ pos 500_000_000;
        frames = replicate views [];
        max_bytes = max_bytes;
        bytes = 0;
        evictions = 0;
      })

-- Pushes in order; one that raises leaves the history to the next.
unfoldable pub push_all : List (ℕ × Frame) → FrameHistory → FrameHistory
unfolding push
push_all [] h = h
push_all ((view, f) ∷ rest) h = push_all rest (push view f h).0

no_frame : (views : ℕ) → total (replicate views []) ≡ 0
no_frame zero = refl
no_frame (suc views) = omega (arith, no_frame views)

push_all-IsWithinBudget :
    (pushes : List (ℕ × Frame)) (h : FrameHistory)
    → IsWithinBudget h
    → IsWithinBudget (push_all pushes h)
unfolding push_all
push_all-IsWithinBudget [] h b = b
push_all-IsWithinBudget ((view, f) ∷ rest) h b =
    push_all-IsWithinBudget rest (push view f h).0 (push-IsWithinBudget view f h b)

-- Each entry is smaller than the one before, the first at most `hi`.
abbrev pub IsDescending : List ℤ → Type 0
IsDescending [] = Unit
IsDescending (x ∷ []) = Unit
IsDescending (x ∷ y ∷ ys) = (ltb_ℤ y x ≡ true) × IsDescending (y ∷ ys)

insert_desc-IsDescending : (x : ℤ) (xs : List ℤ) → IsDescending xs → IsDescending (insert_desc x xs)
unfolding insert_desc
insert_desc-IsDescending x [] h = tt
insert_desc-IsDescending x (y ∷ []) h = ground arith
insert_desc-IsDescending x (y ∷ z ∷ zs) h =
    let rest = insert_desc-IsDescending x (z ∷ zs) h.1 in ground arith

module _ {F : Type 0} ⦃fl : Float F⦄ where
  offsets_of-IsDescending : (xs : List F) → IsDescending (offsets_of xs)
  unfolding offsets_of
  offsets_of-IsDescending [] = tt
  offsets_of-IsDescending (x ∷ xs) =
      insert_desc-IsDescending (to_ns x) (offsets_of xs) (offsets_of-IsDescending xs)

  -- A history that the constructor returned asks for strictly falling offsets, and after any pushes
  -- its memory counter is the bytes of the frames that are kept, within the budget.
  pub make_history-IsWithinBudget :
      (views : ℕ) (offsets_ms : List F) (tolerance_ms : F) (max_bytes : ℕ) (h : FrameHistory)
      (pushes : List (ℕ × Frame))
      → make_history views offsets_ms tolerance_ms max_bytes ≡ some h
      → IsDescending h.offsets × IsWithinBudget (push_all pushes h)
  unfolding make_history
  make_history-IsWithinBudget views offsets_ms tolerance_ms max_bytes h pushes e =
      let offsets : offsets_of offsets_ms ≡ h.offsets = ground arith in
      let frames : replicate views [] ≡ h.frames = ground arith in
      let bytes : 0 ≡ h.bytes = ground arith in
      let start : total h.frames ≡ 0 = rw (← frames) (no_frame views) in
      (
        rw (← offsets) (offsets_of-IsDescending offsets_ms),
        push_all-IsWithinBudget pushes h (omega arith, omega arith),
      )
