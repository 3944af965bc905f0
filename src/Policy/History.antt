-- ===== src/Policy/History.antt =====
-- native_stack/tools/policy_runtime/history.py: the frames of the cameras that are kept, under a
-- memory budget, and the choice of frames at past offsets.
pub mod Budget
pub mod Select
pub mod Make
use kaivuriprokkis.Prelude.{
  ℕ, zero, suc, ◌+◌, ◌-◌, ◌*◌, ◌%◌, ◌==◌, ltb, Bool, true, false, not, ◌&&◌, ◌||◌, Option, none,
  some, List, [], ◌∷◌, ◌++◌, length, if◌then◌else◌, get_elem?,
}
use kaivuriprokkis.Prelude.Int.{ℤ, pos, ◌-ℤ◌, ◌+ℤ◌, ◌*ℤ◌, ltb_ℤ, leb_ℤ, eqb_ℤ}

-- A frame: the metadata that the code reads, and the bytes.
pub record Frame : Type 0 where
  pub width : ℤ
  pub height : ℤ
  pub stride : ℤ
  pub pixel_bytes : ℤ
  pub ir_index : ℤ
  pub valid_metadata : ℕ
  pub sequence : ℤ
  pub timestamp : ℤ
  pub pixels : List ℕ

pub data PushError : Type 0 where
  no_view not_packed no_timestamps clock_reset configuration_changed over_budget : PushError

pub data NotReady : Type 0 where
  waiting stale no_history skew : NotReady

-- Queues are oldest first. `bytes` is never below what is subtracted from it, so ℕ serves.
pub record FrameHistory : Type 0 where
  pub offsets : List ℤ
  pub tolerance : ℤ
  pub retention : ℤ
  pub frames : List (List Frame)
  pub max_bytes : ℕ
  pub bytes : ℕ
  pub evictions : ℕ

abbrev pub size : Frame → ℕ
size f = length f.pixels

-- The checks that a frame passes by itself.
unfoldable pub check_frame : Frame → Option PushError
check_frame f =
    if leb_ℤ f.width (pos 0)
      || (leb_ℤ f.height (pos 0)
          || (not (eqb_ℤ f.ir_index (pos 1) || eqb_ℤ f.ir_index (pos 2))
              || (not (eqb_ℤ f.stride f.width)
                  || (not (eqb_ℤ f.pixel_bytes (f.width *ℤ f.height))
                      || not (eqb_ℤ (pos (size f)) f.pixel_bytes)))))
    then some not_packed
    else if not (f.valid_metadata % 4 == 3)
    then some no_timestamps
    else none

-- q[-1]
abbrev pub newest : List Frame → Option Frame
newest [] = none
newest (f ∷ []) = some f
newest (f ∷ g ∷ q) = newest (g ∷ q)

pub data Verdict : Type 0 where
  accepted duplicate : Verdict
  refused : PushError → Verdict

abbrev is_duplicate : Frame → Frame → Bool
is_duplicate p f = eqb_ℤ f.sequence p.sequence && eqb_ℤ f.timestamp p.timestamp

abbrev is_same_stream : Frame → Frame → Bool
is_same_stream p f =
    eqb_ℤ f.width p.width && (eqb_ℤ f.height p.height && eqb_ℤ f.ir_index p.ir_index)

-- The checks against the newest frame of the view.
unfoldable pub check_previous : Option Frame → Frame → Verdict
check_previous none f = accepted
check_previous (some p) f =
    if is_duplicate p f
    then duplicate
    else if leb_ℤ f.timestamp p.timestamp || leb_ℤ f.sequence p.sequence
    then refused clock_reset
    else if not (is_same_stream p f)
    then refused configuration_changed
    else accepted

abbrev is_nil : List Frame → Bool
is_nil [] = true
is_nil (_ ∷ _) = false

-- The inner loop over one queue: while it has more than one frame and its oldest is out of date.
unfoldable pub trim_queue : ℤ → ℤ → List Frame → ℕ → List Frame × ℕ
trim_queue retention now [] bytes = ([], bytes)
trim_queue retention now (f ∷ q) bytes =
    let trimmed = trim_queue retention now q (bytes - size f) in
    if not (is_nil q) && ltb_ℤ retention (now -ℤ f.timestamp) then trimmed else (f ∷ q, bytes)

unfoldable pub trim : ℤ → ℤ → List (List Frame) → ℕ → List (List Frame) × ℕ
unfolding trim_queue
trim retention now [] bytes = ([], bytes)
trim retention now (q ∷ qs) bytes =
    let (q', bytes') = trim_queue retention now q bytes in
    let (qs', left) = trim retention now qs bytes' in (q' ∷ qs', left)

-- The timestamp of the oldest first frame, over the queues that have one.
abbrev pub earlier : ℤ → Option ℤ → Option ℤ
earlier t none = some t
earlier t (some s) = if ltb_ℤ s t then some s else some t

unfoldable pub oldest : List (List Frame) → Option ℤ
oldest [] = none
oldest ([] ∷ qs) = oldest qs
oldest ((f ∷ q) ∷ qs) = earlier f.timestamp (oldest qs)

-- The first queue with that first timestamp loses its first frame; the bytes that are freed.
unfoldable pub drop_first : ℤ → List (List Frame) → List (List Frame) × ℕ
drop_first t [] = ([], 0)
drop_first t ([] ∷ qs) = let (qs', n) = drop_first t qs in ([] ∷ qs', n)
drop_first t ((f ∷ q) ∷ qs) =
    let (qs', n) = drop_first t qs in
    if eqb_ℤ f.timestamp t then (q ∷ qs, size f) else ((f ∷ q) ∷ qs', n)

-- `while self.bytes > self.max_bytes`, on fuel.
unfoldable pub evict : ℕ → FrameHistory → FrameHistory
unfolding oldest drop_first
evict zero h = h
evict (suc fuel) h = elim (oldest h.frames) [
  | none ↦ h
  | some t ↦
      let (frames, freed) = drop_first t h.frames in
      let rest =
        evict fuel
          (record h { frames = frames; bytes = h.bytes - freed; evictions = h.evictions + 1 }) in
      if ltb h.max_bytes h.bytes then rest else h
]

abbrev pub count : List (List Frame) → ℕ
count [] = 0
count (q ∷ qs) = length q + count qs

-- q.append(frame), on the view's queue
unfoldable pub append_to : ℕ → Frame → List (List Frame) → List (List Frame)
append_to view f [] = []
append_to zero f (q ∷ qs) = (q ++ (f ∷ [])) ∷ qs
append_to (suc view) f (q ∷ qs) = q ∷ append_to view f qs

-- What `push` does with a frame that passes its checks.
unfoldable pub store : ℕ → Frame → FrameHistory → FrameHistory
unfolding trim append_to evict
store view f h =
    let (frames, bytes) =
      trim h.retention f.timestamp (append_to view f h.frames) (h.bytes + size f) in
    evict (count frames) (record h { frames = frames; bytes = bytes })

unfoldable pub push_to :
    Option (List Frame) → ℕ → Frame → FrameHistory → FrameHistory × Option PushError
unfolding check_frame check_previous store
push_to none view f h = (h, some no_view)
push_to (some q) view f h = elim (check_frame f) [
  | some e ↦ (h, some e)
  | none ↦ elim (check_previous (newest q) f) [
    | duplicate ↦ (h, none)
    | refused e ↦ (h, some e)
    | accepted ↦ if ltb h.max_bytes (size f) then (h, some over_budget) else (store view f h, none)
  ]
]

unfoldable pub push : ℕ → Frame → FrameHistory → FrameHistory × Option PushError
unfolding push_to
push view f h = push_to (get_elem? h.frames view) view f h

-- The newest frame of a queue that is at most `target`, if any.
unfoldable pub match_frame : ℤ → List Frame → Option Frame
match_frame target [] = none
match_frame target (f ∷ q) = elim (match_frame target q) [
  | some g ↦ some g
  | none ↦ if leb_ℤ f.timestamp target then some f else none
]

pub data Selection (A : Type 0) : Type 0 where
  selected : A → Selection A
  not_ready : NotReady → Selection A

-- The frames of one offset, a frame for each view.
unfoldable pub slot_of : ℤ → ℤ → List (List Frame) → List Frame → Option (List Frame)
unfolding match_frame
slot_of tolerance offset (q ∷ qs) (latest ∷ currents) =
    let target = latest.timestamp -ℤ offset in
    let rest = slot_of tolerance offset qs currents in
    elim (match_frame target q) [
      | none ↦ none
      | some m ↦
          if ltb_ℤ tolerance (target -ℤ m.timestamp)
          then none
          else elim rest [ none ↦ none | some ms ↦ some (m ∷ ms) ]
    ]
slot_of tolerance offset _ _ = some []

-- max(times) and min(times), from the first on
unfoldable pub latest_of : ℤ → List Frame → ℤ
latest_of t [] = t
latest_of t (f ∷ fs) = latest_of (if ltb_ℤ t f.timestamp then f.timestamp else t) fs

unfoldable pub earliest_of : ℤ → List Frame → ℤ
earliest_of t [] = t
earliest_of t (f ∷ fs) = earliest_of (if ltb_ℤ f.timestamp t then f.timestamp else t) fs

unfoldable pub is_skewed : ℤ → List Frame → Bool
unfolding latest_of earliest_of
is_skewed max_skew [] = false
is_skewed max_skew (f ∷ fs) =
    ltb_ℤ max_skew (latest_of f.timestamp fs -ℤ earliest_of f.timestamp fs)

unfoldable pub select_slots :
    ℤ → ℤ → List ℤ → List (List Frame) → List Frame → Selection (List (List Frame))
unfolding slot_of is_skewed
select_slots tolerance max_skew [] frames current = selected []
select_slots tolerance max_skew (offset ∷ offsets) frames current =
    let rest = select_slots tolerance max_skew offsets frames current in
    elim (slot_of tolerance offset frames current) [
      | none ↦ not_ready no_history
      | some slot ↦
          if is_skewed max_skew slot
          then not_ready skew
          else elim rest [ not_ready e ↦ not_ready e | selected slots ↦ selected (slot ∷ slots) ]
    ]

-- [q[-1] for q in self.frames], where every queue has a frame
unfoldable pub current_of : List (List Frame) → Option (List Frame)
current_of [] = some []
current_of (q ∷ qs) =
    let rest = current_of qs in
    elim (newest q) [ none ↦ none | some f ↦ elim rest [ none ↦ none | some fs ↦ some (f ∷ fs) ] ]

unfoldable pub is_stale : ℤ → ℤ → List Frame → Bool
is_stale now max_age [] = false
is_stale now max_age (f ∷ fs) =
    let age = now -ℤ f.timestamp in
    not (leb_ℤ (pos 0) age && leb_ℤ age max_age) || is_stale now max_age fs

unfoldable pub select : ℤ → ℤ → ℤ → FrameHistory → Selection (List (List Frame))
unfolding current_of is_stale select_slots
select now max_age max_skew h = elim (current_of h.frames) [
  | none ↦ not_ready waiting
  | some current ↦
      if is_stale now max_age current
      then not_ready stale
      else select_slots h.tolerance max_skew h.offsets h.frames current
]
