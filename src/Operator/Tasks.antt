-- ===== src/Operator/Tasks.antt =====
-- native_stack/tools/vla_operator.py: `TaskList`, the prompts that a run switches between. Whether two
-- texts are one instruction is the model's to say: `same` is a parameter.
use kaivuriprokkis.Prelude.{
  ℕ, zero, suc, ◌+◌, ◌-◌, ◌%◌, ◌<◌, ◌≡◌, refl, Bool, true, Option, none, some, List, [], ◌∷◌, ◌++◌,
  arith, length, if◌then◌else◌, ◌⊎◌, inl, inr, Option-cases, Bool-cases, get_elem?, length-append,
}
use kaivuriprokkis.Prelude.Int.{ℤ, pos, negsuc}
use native.Mathlib.Nat.{mod-lt}
use Prim.Native.String.{String}

pub record TaskList : Type 0 where
  pub items : List String
  pub i : ℕ
  pub version : ℕ

-- The first k, from `k` on, whose text is the same instruction.
unfoldable pub index_of : (String → String → Bool) → String → ℕ → List String → Option ℕ
index_of same text k [] = none
index_of same text k (t ∷ ts) =
    let rest = index_of same text (k + 1) ts in if same t text then some k else rest

unfoldable pub add : (String → String → Bool) → String → TaskList → TaskList
unfolding index_of
add same text l = elim (index_of same text 0 l.items) [
  | some k ↦ record l { i = k; version = l.version + 1 }
  | none ↦ record {
    items = l.items ++ (text ∷ []);
    i = length (l.items ++ (text ∷ [])) - 1;
    version = l.version + 1;
  }
]

-- (self.i + d) % len(self.items), where Python's remainder is never negative
abbrev pub shifted : ℕ → ℤ → ℕ → ℕ
shifted i (pos d) n = (i + d) % n
shifted i (negsuc d) n = (i + (n - suc d % n)) % n

unfoldable pub step : ℤ → TaskList → TaskList
step d l = record l { i = shifted l.i d (length l.items); version = l.version + 1 }

-- items[k], where it stands
unfoldable pub current : TaskList → ℕ × (Option String × ℕ)
current l = (l.i, (get_elem? l.items l.i, l.version))

unfoldable pub make_tasks : (String → String → Bool) → List String → Option String → TaskList
unfolding add
make_tasks same tasks none = record { items = tasks; i = 0; version = 0 }
make_tasks same tasks (some start) = add same start (record { items = tasks; i = 0; version = 0 })

-- The selected index is one of the list's.
abbrev pub IsSelected : TaskList → Type 0
IsSelected l = l.i < length l.items

index_of-bound :
    (same : String → String → Bool) (text : String) (k : ℕ) (ts : List String) (j : ℕ)
    → index_of same text k ts ≡ some j
    → j < k + length ts
unfolding index_of
index_of-bound same text k [] j e = cc
index_of-bound same text k (t ∷ ts) j e = ground (arith, index_of-bound same text (k + 1) ts j)

-- The text at the index is the same instruction.
abbrev pub IsSame : (String → String → Bool) → String → Option String → Type 0
IsSame same text none = ⊥
IsSame same text (some t) = (same t text ≡ true) ⊎ (t ≡ text)

get_elem?-last :
    (ts : List String) (text : String) → get_elem? (ts ++ (text ∷ [])) (length ts) ≡ some text
get_elem?-last [] text = refl
get_elem?-last (t ∷ ts) text = get_elem?-last ts text

index_of-IsSame :
    (same : String → String → Bool) (text : String) (k : ℕ) (ts : List String) (j : ℕ)
    → index_of same text k ts ≡ some j
    → (i : ℕ) × (j ≡ k + i) × IsSame same text (get_elem? ts i)
unfolding index_of
index_of-IsSame same text k [] j e = cc
index_of-IsSame same text k (t ∷ ts) j e = elim (Bool-cases (same t text)) [
  | inl s ↦ (0, ground arith, inl s)
  | inr s ↦
      let (i, h, p) = index_of-IsSame same text (k + 1) ts j ground arith in (suc i, omega arith, p)
]

step-IsSelected : (d : ℤ) (l : TaskList) → IsSelected l → IsSelected (step d l)
unfolding step
step-IsSelected (pos d) l h = mod-lt (l.i + d) (omega arith)
step-IsSelected (negsuc d) l h =
    mod-lt (l.i + (length l.items - suc d % length l.items)) (omega arith)

add-IsSelected :
    (same : String → String → Bool) (text : String) (l : TaskList) → IsSelected (add same text l)
unfolding add
add-IsSelected same text l = elim (Option-cases (index_of same text 0 l.items)) [
  | inl e ↦ ground (arith, length-append l.items (text ∷ []))
  | inr (k, e) ↦ ground (arith, index_of-bound same text 0 l.items k e)
]

pub data Change : Type 0 where
  adding : String → Change
  stepping : ℤ → Change

unfoldable pub change : (String → String → Bool) → Change → TaskList → TaskList
unfolding add step
change same (adding text) l = add same text l
change same (stepping d) l = step d l

unfoldable pub run : (String → String → Bool) → List Change → TaskList → TaskList
unfolding change
run same [] l = l
run same (c ∷ cs) l = run same cs (change same c l)

change-IsSelected :
    (same : String → String → Bool) (c : Change) (l : TaskList)
    → IsSelected l
    → IsSelected (change same c l)
unfolding change
change-IsSelected same (adding text) l h = add-IsSelected same text l
change-IsSelected same (stepping d) l h = step-IsSelected d l h

change-version :
    (same : String → String → Bool) (c : Change) (l : TaskList)
    → (change same c l).version ≡ l.version + 1
unfolding change add step
change-version same (adding text) l = ground arith
change-version same (stepping d) l = refl

get_elem?-append :
    (ts us : List String) (k : ℕ) (t : String)
    → get_elem? ts k ≡ some t
    → get_elem? (ts ++ us) k ≡ some t
get_elem?-append [] us k t h = cc
get_elem?-append (u ∷ ts) us zero t h = h
get_elem?-append (u ∷ ts) us (suc k) t h = get_elem?-append ts us k t h

-- Every prompt of the first list stands at its index in the second.
abbrev pub AreKept : TaskList → TaskList → Type 0
AreKept l l' = (k : ℕ) (t : String) → get_elem? l.items k ≡ some t → get_elem? l'.items k ≡ some t

change-AreKept :
    (same : String → String → Bool) (c : Change) (l : TaskList) → AreKept l (change same c l)
unfolding change add step
change-AreKept same (adding text) l k t h =
    ground (arith, get_elem?-append l.items (text ∷ []) k t h)
change-AreKept same (stepping d) l k t h = h

-- Whatever prompts are added and whatever steps are taken, from a list whose selected index is in
-- range, the selected index stays in range, no prompt is lost or moves, and the version counts
-- the changes.
pub run-AreKept :
    (same : String → String → Bool) (cs : List Change) (l : TaskList)
    → IsSelected l
    → IsSelected (run same cs l)
      × AreKept l (run same cs l)
      × ((run same cs l).version ≡ l.version + length cs)
unfolding run
run-AreKept same [] l h = (h, (λ k t e. e), omega arith)
run-AreKept same (c ∷ cs) l h =
    let (s, kept, n) = run-AreKept same cs (change same c l) (change-IsSelected same c l h) in
    (
      s,
      (λ k t e. kept k t (change-AreKept same c l k t e)),
      omega (arith, n, change-version same c l),
    )

-- After `add`, the selected prompt is the text that was added, or one that is the same
-- instruction.
pub add-IsSame :
    (same : String → String → Bool) (text : String) (l : TaskList)
    → IsSame same text (current (add same text l)).1.0
unfolding add current
add-IsSame same text l =
    let len : length (l.items ++ (text ∷ [])) - 1 ≡ length l.items =
      omega (arith, length-append l.items (text ∷ [])) in
    elim (Option-cases (index_of same text 0 l.items)) [
      | inl e ↦ rw (add, e, len, get_elem?-last l.items text) (inr refl)
      | inr (k, e) ↦
          let (i, h, p) = index_of-IsSame same text 0 l.items k e in
          let at_k : k ≡ i = omega (arith, h) in rw (add, e, at_k) p
    ]
