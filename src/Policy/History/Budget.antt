-- ===== src/Policy/History/Budget.antt =====
-- The memory budget of `FrameHistory.push`.
use kaivuriprokkis.Prelude.{
  ℕ, zero, suc, ◌+◌, ◌-◌, ◌≤◌, ◌≡◌, refl, Option, none, some, List, [], ◌∷◌, ◌++◌, arith,
  Option-cases, Bool-cases, inl, inr, get_elem?, ltb,
}
use kaivuriprokkis.Prelude.Int.{ℤ, eqb_ℤ, eqb_ℤ_iff}
use kaivuriprokkis.Policy.History.{
  Frame, FrameHistory, size, count, trim_queue, trim, oldest, drop_first, evict, append_to, store,
  push, push_to,
}

abbrev pub queue_bytes : List Frame → ℕ
queue_bytes [] = 0
queue_bytes (f ∷ q) = size f + queue_bytes q

abbrev pub total : List (List Frame) → ℕ
total [] = 0
total (q ∷ qs) = queue_bytes q + total qs

-- The counter is the memory in use, and the budget holds.
abbrev pub IsWithinBudget : FrameHistory → Type 0
IsWithinBudget h = (h.bytes ≡ total h.frames) × (h.bytes ≤ h.max_bytes)

trim_queue-queue_bytes :
    (retention now : ℤ) (q : List Frame) (bytes : ℕ)
    → queue_bytes q ≤ bytes
    → let (q', left) = trim_queue retention now q bytes in
      left + queue_bytes q ≡ bytes + queue_bytes q'
unfolding trim_queue
trim_queue-queue_bytes retention now [] bytes h = refl
trim_queue-queue_bytes retention now (f ∷ q) bytes h =
    ground (arith, trim_queue-queue_bytes retention now q (bytes - size f) (omega arith))

trim-total :
    (retention now : ℤ) (qs : List (List Frame)) (bytes : ℕ)
    → total qs ≤ bytes
    → let (qs', left) = trim retention now qs bytes in left + total qs ≡ bytes + total qs'
unfolding trim
trim-total retention now [] bytes h = refl
trim-total retention now (q ∷ qs) bytes h =
    let first = trim_queue-queue_bytes retention now q bytes (omega arith) in
    let left = (trim_queue retention now q bytes).1 in
    let rest = trim-total retention now qs left (omega arith) in omega arith

queue_bytes-append :
    (q : List Frame) (f : Frame) → queue_bytes (q ++ (f ∷ [])) ≡ queue_bytes q + size f
queue_bytes-append [] f = omega arith
queue_bytes-append (g ∷ q) f = omega (arith, queue_bytes-append q f)

append_to-total :
    (view : ℕ) (f : Frame) (qs : List (List Frame)) (q : List Frame)
    → get_elem? qs view ≡ some q
    → total (append_to view f qs) ≡ total qs + size f
unfolding append_to
append_to-total view f [] q e = cc
append_to-total zero f (q ∷ qs) r e = omega (arith, queue_bytes-append q f)
append_to-total (suc view) f (q ∷ qs) r e = omega (arith, append_to-total view f qs r e)

count-total : (qs : List (List Frame)) → oldest qs ≡ none → total qs ≡ 0
unfolding oldest
count-total [] e = refl
count-total ([] ∷ qs) e = omega (arith, count-total qs e)
count-total ((f ∷ q) ∷ qs) e = ground arith

drop_first-total :
    (t : ℤ) (qs : List (List Frame))
    → oldest qs ≡ some t
    → let (qs', freed) = drop_first t qs in
      (total qs ≡ total qs' + freed) × (count qs ≡ suc (count qs'))
unfolding oldest drop_first
drop_first-total t [] e = cc
drop_first-total t ([] ∷ qs) e =
    let (bytes, frames) = drop_first-total t qs e in (omega arith, omega arith)
drop_first-total t ((f ∷ q) ∷ qs) e = elim (Bool-cases (eqb_ℤ f.timestamp t)) [
  | inl here ↦ rw here (omega arith, omega arith)
  | inr there ↦
      let rest : oldest qs ≡ some t = ground (arith, eqb_ℤ_iff f.timestamp t) in
      let (bytes, frames) = drop_first-total t qs rest in rw there (omega arith, omega arith)
]

no_frame-total : (qs : List (List Frame)) → count qs ≤ 0 → total qs ≡ 0
no_frame-total [] h = refl
no_frame-total ([] ∷ qs) h = omega (arith, no_frame-total qs (omega arith))
no_frame-total ((f ∷ q) ∷ qs) h = absurd (omega arith)

evict-IsWithinBudget :
    (fuel : ℕ) (h : FrameHistory)
    → count h.frames ≤ fuel
    → h.bytes ≡ total h.frames
    → IsWithinBudget (evict fuel h)
unfolding evict
evict-IsWithinBudget zero h n e = (e, omega (arith, no_frame-total h.frames n))
evict-IsWithinBudget (suc fuel) h n e = elim (Option-cases (oldest h.frames)) [
  | inl empty ↦ rw (empty, evict) (e, omega (arith, count-total h.frames empty))
  | inr (t, some_left) ↦
      let (bytes, frames) = drop_first-total t h.frames some_left in
      let (qs, freed) = drop_first t h.frames in
      let next =
        evict-IsWithinBudget fuel
          (record h { frames = qs; bytes = h.bytes - freed; evictions = h.evictions + 1 })
          (omega arith) (omega arith) in
      elim (Bool-cases (ltb h.max_bytes h.bytes)) [
        | inl over ↦ rw (some_left, over, evict) next
        | inr fits ↦ rw (some_left, fits, evict) (e, ground arith)
      ]
]

store-IsWithinBudget :
    (view : ℕ) (f : Frame) (h : FrameHistory) (q : List Frame)
    → get_elem? h.frames view ≡ some q
    → IsWithinBudget h
    → IsWithinBudget (store view f h)
unfolding store
store-IsWithinBudget view f h q e b =
    let appended = append_to view f h.frames in
    let grown = append_to-total view f h.frames q e in
    let kept = trim-total h.retention f.timestamp appended (h.bytes + size f) (omega arith) in
    let (frames, bytes) = trim h.retention f.timestamp appended (h.bytes + size f) in
    evict-IsWithinBudget (count frames) (record h { frames = frames; bytes = bytes }) (omega arith)
      (omega arith)

push_to-IsWithinBudget :
    (o : Option (List Frame)) (view : ℕ) (f : Frame) (h : FrameHistory)
    → get_elem? h.frames view ≡ o
    → IsWithinBudget h
    → IsWithinBudget (push_to o view f h).0
unfolding push_to
push_to-IsWithinBudget none view f h e b = b
push_to-IsWithinBudget (some q) view f h e b = ground (arith, store-IsWithinBudget view f h q e b)

-- A push keeps the memory counter equal to the bytes of the frames that are kept, and within the
-- budget, whatever the view and the frame are and whether or not the push raises.
pub push-IsWithinBudget :
    (view : ℕ) (f : Frame) (h : FrameHistory) → IsWithinBudget h → IsWithinBudget (push view f h).0
unfolding push
push-IsWithinBudget view f h b = push_to-IsWithinBudget _ view f h refl b
