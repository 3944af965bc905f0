-- ===== src/Policy/History/Select.antt =====
-- `FrameHistory.select`: which frames it gives.
use kaivuriprokkis.Prelude.{
  ◌≡◌, refl, false, some, List, [], ◌∷◌, arith, Option-cases, inl, inr, ◌⊎◌,
}
use kaivuriprokkis.Prelude.Int.{ℤ, ltb_ℤ, ◌-ℤ◌, ◌≤ℤ◌}
use mathlib.Core.Path.{subst}
use kaivuriprokkis.Policy.History.{
  NotReady, Frame, FrameHistory, Selection, selected, not_ready, match_frame, slot_of, select_slots,
  select, current_of, is_stale,
}

Selection-cases :
    {A : Type 0} (s : Selection A)
    → ((why : NotReady) × (s ≡ not_ready why)) ⊎ ((a : A) × (s ≡ selected a))
Selection-cases (not_ready why) = inl (why, refl)
Selection-cases (selected a) = inr (a, refl)

-- The frame stands in the queue.
abbrev pub IsKept : Frame → List Frame → Type 0
IsKept m [] = ⊥
IsKept m (f ∷ q) = (f ≡ m) ⊎ IsKept m q

-- A frame for an offset back from the newest frame of its view: a kept one, not newer than asked
-- for, and older by the tolerance at most.
pub record IsMatch (tolerance offset : ℤ) (latest : Frame) (q : List Frame) (m : Frame)
    : Type 0 where
  pub kept : IsKept m q
  pub not_newer : m.timestamp ≤ℤ (latest.timestamp -ℤ offset)
  pub near : ((latest.timestamp -ℤ offset) -ℤ m.timestamp) ≤ℤ tolerance

abbrev pub AreMatches : ℤ → ℤ → List (List Frame) → List Frame → List Frame → Type 0
AreMatches tolerance offset (q ∷ qs) (l ∷ ls) (m ∷ ms) =
    IsMatch tolerance offset l q m × AreMatches tolerance offset qs ls ms
AreMatches tolerance offset [] _ ms = ms ≡ []
AreMatches tolerance offset (_ ∷ _) [] ms = ms ≡ []
AreMatches tolerance offset (_ ∷ _) (_ ∷ _) [] = ⊥

abbrev pub AreSlots : ℤ → List ℤ → List (List Frame) → List Frame → List (List Frame) → Type 0
AreSlots tolerance [] qs ls slots = slots ≡ []
AreSlots tolerance (o ∷ os) qs ls [] = ⊥
AreSlots tolerance (o ∷ os) qs ls (ms ∷ slots) =
    AreMatches tolerance o qs ls ms × AreSlots tolerance os qs ls slots

match_frame-IsKept :
    (target : ℤ) (q : List Frame) (m : Frame)
    → match_frame target q ≡ some m
    → IsKept m q × (m.timestamp ≤ℤ target)
unfolding match_frame
match_frame-IsKept target [] m e = cc
match_frame-IsKept target (f ∷ q) m e = elim (Option-cases (match_frame target q)) [
  | inr (g, found) ↦ ground (arith, match_frame-IsKept target q m)
  | inl none_later ↦ ground arith
]

slot_of-AreMatches :
    (tolerance offset : ℤ) (qs : List (List Frame)) (ls ms : List Frame)
    → slot_of tolerance offset qs ls ≡ some ms
    → AreMatches tolerance offset qs ls ms
unfolding slot_of
slot_of-AreMatches tolerance offset [] ls ms e = ground arith
slot_of-AreMatches tolerance offset (q ∷ qs) [] ms e = ground arith
slot_of-AreMatches tolerance offset (q ∷ qs) (l ∷ ls) ms e =
    let target = l.timestamp -ℤ offset in
    elim (Option-cases (match_frame target q)) [
      | inl missing ↦ absurd (ground arith)
      | inr (m, found) ↦ elim (Option-cases (slot_of tolerance offset qs ls)) [
        | inl missing ↦ absurd (ground arith)
        | inr (rest, others) ↦
            let same : m ∷ rest ≡ ms = ground arith in
            let (kept, not_newer) = match_frame-IsKept target q m found in
            let near : ltb_ℤ tolerance (target -ℤ m.timestamp) ≡ false = ground arith in
            let matched : IsMatch tolerance offset l q m = record {
              kept = kept;
              not_newer = not_newer;
              near = ground arith;
            } in
            subst (AreMatches tolerance offset (q ∷ qs) (l ∷ ls)) same
              (matched, slot_of-AreMatches tolerance offset qs ls rest others)
      ]
    ]

select_slots-AreSlots :
    (tolerance max_skew : ℤ) (offsets : List ℤ) (qs : List (List Frame)) (ls : List Frame)
    (slots : List (List Frame))
    → select_slots tolerance max_skew offsets qs ls ≡ selected slots
    → AreSlots tolerance offsets qs ls slots
unfolding select_slots
select_slots-AreSlots tolerance max_skew [] qs ls slots e = ground arith
select_slots-AreSlots tolerance max_skew (o ∷ os) qs ls slots e =
    elim (Option-cases (slot_of tolerance o qs ls)) [
      | inl missing ↦ absurd (ground arith)
      | inr (ms, found) ↦ elim (Selection-cases (select_slots tolerance max_skew os qs ls)) [
        | inl (why, missing) ↦ absurd (ground arith)
        | inr (rest, others) ↦
            let same : ms ∷ rest ≡ slots = ground arith in
            subst (AreSlots tolerance (o ∷ os) qs ls) same (
              slot_of-AreMatches tolerance o qs ls ms found,
              select_slots-AreSlots tolerance max_skew os qs ls rest others,
            )
      ]
    ]

-- What `select` gives, where it gives frames: for each offset, and for each view, a frame that is
-- kept for that view, that is not newer than the view's newest frame less the offset, and that is
-- older than that by at most the tolerance; and no newest frame is stale.
pub select-AreSlots :
    (now max_age max_skew : ℤ) (h : FrameHistory) (slots : List (List Frame))
    → select now max_age max_skew h ≡ selected slots
    → (ls : List Frame) × (current_of h.frames ≡ some ls)
      × (is_stale now max_age ls ≡ false)
      × AreSlots h.tolerance h.offsets h.frames ls slots
unfolding select
select-AreSlots now max_age max_skew h slots e = elim (Option-cases (current_of h.frames)) [
  | inl missing ↦ absurd (ground arith)
  | inr (ls, current) ↦
      let fresh : is_stale now max_age ls ≡ false = ground arith in
      let chosen : select_slots h.tolerance max_skew h.offsets h.frames ls ≡ selected slots =
        ground arith in
      (
        ls,
        current,
        fresh,
        select_slots-AreSlots h.tolerance max_skew h.offsets h.frames ls slots chosen,
      )
]
