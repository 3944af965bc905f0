-- ===== src/Policy/Rtc.antt =====
-- The plan that is committed while the next one is inferred: `RtcDelay` and `committed_rows` of
-- native_stack/tools/vla_live.py, and `interp_rows` of native_stack/tools/vla_operator.py. NumPy's and
-- math's functions are parameters; so is `model_actions`, which the adapter of a model gives.
use kaivuriprokkis.Prelude.{
  if_split, ℕ, zero, suc, ◌+◌, ◌-◌, ◌<◌, ◌≤◌, ◌==◌, ltb, ◌≡◌, refl, Bool, true, false, ◌&&◌, ◌||◌,
  Option, none, some, List, [], ◌∷◌, map, length, get_or, arith, Bool-cases, ◌⊎◌, inl, inr,
  if◌then◌else◌,
}
use mathlib.Core.Path.{subst}
use kaivuriprokkis.Prelude.Int.{ℤ, pos, pos_part, ◌-ℤ◌, ltb_ℤ, eqb_ℤ}
use kaivuriprokkis.Float.{Float, ◌≼◌, IsOrdered, nought, py_max}
use kaivuriprokkis.Perf.Control.{push_bounded}

pub record RtcDelay (F : Type 0) : Type 0 where
  pub max_delay : ℕ
  pub fps : F
  pub margin : F
  pub window : ℕ
  pub lat : List F

-- A running plan: its rows, its time and its id.
abbrev pub Running : Type 0 → Type 0
Running F = List (List F) × (ℤ × ℕ)

-- min(self.max, n), for an integer n
abbrev at_most : ℕ → ℤ → ℤ
at_most m n = if ltb_ℤ n (pos m) then n else pos m

module _ {F : Type 0} where
  unfoldable add_latency : F → RtcDelay F → RtcDelay F
  unfolding push_bounded
  add_latency ms s = record s { lat = push_bounded s.window s.lat ms }

module _ {F : Type 0} ⦃fl : Float F⦄ where
  -- max(xs), of x and the rest
  abbrev greatest : F → List F → F
  greatest x [] = x
  greatest x (y ∷ ys) = greatest (py_max x y) ys

  abbrev want_of : (F → ℤ) → RtcDelay F → List F → ℤ
  want_of ceil s [] = pos s.max_delay
  want_of ceil s (x ∷ xs) =
      let ms = fl.add (greatest x xs) s.margin in
      at_most s.max_delay (ceil (fl.div (fl.mul ms s.fps) (fl.lit (pos 1000) 0)))

  unfoldable want : (F → ℤ) → RtcDelay F → ℤ
  unfolding py_max
  want ceil s = if s.max_delay == 0 then pos 0 else want_of ceil s s.lat

  -- pos[k]: the row of the running plan at row k of a chunk anchored at t0.
  unfoldable pub position : F → ℤ → ℤ → ℕ → F
  position fps t0 t0_old k =
      let base = fl.div (fl.mul (fl.of_int (t0 -ℤ t0_old)) fps) (fl.lit (pos 1_000_000_000) 0) in
      fl.add base (fl.of_int (pos k))

  -- (pos >= 0) & (pos <= len(rows) - 1)
  unfoldable pub is_in_plan : ℕ → F → Bool
  is_in_plan n x = fl.le nought x && fl.le x (fl.of_int (pos n -ℤ pos 1))

  abbrev between : F → F → F → F
  between a b f = fl.add a (fl.mul (fl.sub b a) f)

  abbrev blend : List F → List F → F → List F
  blend (x ∷ xs) (y ∷ ys) f = between x y f ∷ blend xs ys f
  blend _ _ f = []

  -- One row of `interp_rows`, at x clipped to the rows; there is at least one.
  unfoldable pub interp_row : (F → F → F → F) → (F → F) → List (List F) → F → List F
  interp_row clip floor rows x =
      let last = length rows - 1 in
      let at = clip x nought (fl.of_int (pos last)) in
      let i = pos_part (fl.trunc (floor at)) in
      let j = if ltb (i + 1) last then i + 1 else last in
      blend (get_or rows i []) (get_or rows j []) (fl.sub at (fl.of_int (pos i)))

-- How many k hold from i on, of n.
unfoldable count_from : (ℕ → Bool) → ℕ → ℕ → ℕ
count_from p i zero = 0
count_from p i (suc n) = let rest = count_from p (i + 1) n in if p i then suc rest else rest

-- f 0, ..., f (n - 1), from i on
abbrev pub listed {ℓ} : {A : Type ℓ} → (ℕ → A) → ℕ → ℕ → List A
listed f i zero = []
listed f i (suc n) = f i ∷ listed f (i + 1) n

pub record Committed (P : Type 0) : Type 0 where
  pub d : ℕ
  pub prefix : Option P
  pub plan_id : Option ℕ

module _ {F P : Type 0} ⦃fl : Float F⦄ (clip : F → F → F → F) (floor : F → F)
    (columns : List F → List F) (model_actions : List (List F) → P) where
  abbrev nothing : Option ℕ → Committed P
  nothing id = record { d = 0; prefix = none; plan_id = id }

  unfoldable pub committed_rows : Option (Running F) → ℤ → ℤ → F → Committed P
  unfolding position is_in_plan interp_row count_from
  committed_rows none t0 want fps = nothing none
  committed_rows (some (rows, (t0_old, id))) t0 want fps =
      let at = position fps t0 t0_old in
      let d = count_from (λ k. is_in_plan (length rows) (at k)) 0 (pos_part want) in
      let valves = map (interp_row clip floor (map columns rows)) (listed at 0 d) in
      if eqb_ℤ want (pos 0)
      then nothing none
      else if d == 0 || fl.lt (at 0) nought
      then nothing (some id)
      else record { d = d; prefix = some (model_actions valves); plan_id = some id }

count_from-le : (p : ℕ → Bool) (i n : ℕ) → count_from p i n ≤ n
unfolding count_from
count_from-le p i zero = omega arith
count_from-le p i (suc n) = ground (arith, count_from-le p (i + 1) n)

-- Where a test that fails once fails from there on, what is counted comes first.
count_from-none :
    (p : ℕ → Bool) (i n : ℕ)
    → ((k : ℕ) → p k ≡ false → p (k + 1) ≡ false)
    → p i ≡ false
    → count_from p i n ≡ 0
unfolding count_from
count_from-none p i zero down h = refl
count_from-none p i (suc n) down h = ground (arith, count_from-none p (i + 1) n down (down i h), h)

count_from-first :
    (p : ℕ → Bool) (i n k : ℕ)
    → ((k : ℕ) → p k ≡ false → p (k + 1) ≡ false)
    → k < count_from p i n
    → p (i + k) ≡ true
unfolding count_from
count_from-first p i zero k down h = absurd (omega (arith, h))
count_from-first p i (suc n) k down h = elim (Bool-cases (p i)) [
  | inl y ↦
      go k (subst (λ b. k < (if b then suc rest else rest)) y h) y
        λ l r. count_from-first p (i + 1) n l down r
  | inr z ↦ absurd (
      omega (
        arith,
        subst (λ b. k < (if b then suc rest else rest)) z h,
        count_from-none p (i + 1) n down (down i z),
      ))
]
  where
    rest : ℕ
    rest = count_from p (i + 1) n

    go :
        (k : ℕ)
        → k < suc rest
        → p i ≡ true
        → ((l : ℕ) → l < rest → p (i + 1 + l) ≡ true)
        → p (i + k) ≡ true
    go zero h y later = let e : i ≡ i + 0 = omega arith in subst (λ m. p m ≡ true) e y
    go (suc l) h y later =
        let e : i + 1 + l ≡ i + suc l = omega arith in
        subst (λ m. p m ≡ true) e (later l (omega (arith, h)))

both : (a b : Bool) → (a && b) ≡ true → (a ≡ true) × (b ≡ true)
both a b h = ground arith

neither : (a b : Bool) → (a || b) ≡ false → (a ≡ false) × (b ≡ false)
neither a b h = ground arith

clash : (a b c : Bool) → (a && b) ≡ false → a ≡ true → b ≡ true → c ≡ false
clash a b c h k l = ground arith

-- What arithmetic promises of a number plus whole rows.
pub record IsSteps (F : Type 0) ⦃fl : Float F⦄ : Type 0 where
  pub steps_num :
      (b : F) (k : ℕ) → b ≼ b → fl.add b (fl.of_int (pos k)) ≼ fl.add b (fl.of_int (pos k))
  pub num_steps :
      (b : F) (k : ℕ) → fl.add b (fl.of_int (pos k)) ≼ fl.add b (fl.of_int (pos k)) → b ≼ b
  pub steps_mono :
      (b : F) (k : ℕ) → b ≼ b → fl.add b (fl.of_int (pos k)) ≼ fl.add b (fl.of_int (pos (k + 1)))

module _ {F P : Type 0} ⦃fl : Float F⦄ (clip : F → F → F → F) (floor : F → F)
    (columns : List F → List F) (model_actions : List (List F) → P) where
  -- The committed rows are at most those wanted, each at a position within the running plan, and the
  -- prefix is what the plan does at these positions; with none, there is no prefix.
  abbrev pub AreRunning : Running F → ℤ → ℤ → F → Committed P → Type 0
  AreRunning (rows, (t0_old, id)) t0 want fps c =
      (c.d ≤ pos_part want)
      × (((k : ℕ) → k < c.d → is_in_plan (length rows) (position fps t0 t0_old k) ≡ true)
          × (((c.d ≡ 0) × (c.prefix ≡ none))
              ⊎ (c.prefix
                  ≡ some (
                      model_actions (
                        map (interp_row clip floor (map columns rows))
                          (listed (position fps t0 t0_old) 0 c.d))))))

  from_start :
      (laws : IsOrdered F) (law : IsSteps F) (b : F) (k : ℕ)
      → b ≼ b
      → nought ≼ fl.add b (fl.of_int (pos 0))
      → nought ≼ fl.add b (fl.of_int (pos k))
  from_start laws law b zero n h = h
  from_start laws law b (suc k) n h =
      let next = laws.le_trans nought _ _ (from_start laws law b k n h) (law.steps_mono b k n) in
      let e : k + 1 ≡ suc k = omega arith in
      subst (λ m. nought ≼ fl.add b (fl.of_int (pos m))) e next

  closed :
      (laws : IsOrdered F) (law : IsSteps F) (n : ℕ) (fps : F) (t0 t0_old : ℤ)
      → fl.lt (position fps t0 t0_old 0) nought ≡ false
      → (k : ℕ) → is_in_plan n (position fps t0 t0_old k) ≡ false
      → is_in_plan n (position fps t0 t0_old (k + 1)) ≡ false
  unfolding position is_in_plan
  closed laws law n fps t0 t0_old start k h =
      let b = fl.div (fl.mul (fl.of_int (t0 -ℤ t0_old)) fps) (fl.lit (pos 1_000_000_000) 0) in
      elim (Bool-cases (is_in_plan n (position fps t0 t0_old (k + 1)))) [
        | inl y ↦
            let (low, high) = both (fl.le nought _) _ y in
            let num = law.num_steps b (k + 1) (laws.num_right nought _ low) in
            let zeroth =
              laws.le_of_not_lt _ nought (law.steps_num b 0 num) (laws.num_left nought _ low)
                start in
            let lower = from_start laws law b k num zeroth in
            let upper = laws.le_trans _ _ _ (law.steps_mono b k num) high in
            clash (fl.le nought _) _ _ h lower upper
        | inr z ↦ z
      ]

  -- Of a running plan: the rows that a new chunk is committed to are at most those wanted, each at a
  -- position of the running plan, from the anchor of the chunk on without a gap; where there are none
  -- there is no prefix, and otherwise the prefix is what the running plan does at these positions.
  pub committed_rows-AreRunning :
      (laws : IsOrdered F) (law : IsSteps F) (plan : Running F) (t0 want : ℤ) (fps : F)
      → AreRunning plan t0 want fps
          (committed_rows clip floor columns model_actions (some plan) t0 want fps)
  unfolding committed_rows
  committed_rows-AreRunning laws law (rows, (t0_old, id)) t0 want fps =
      if_split Good (eqb_ℤ want (pos 0)) _ _ (λ y. none_there none)
        λ n.
          if_split Good (d == 0 || fl.lt (at 0) nought) _ _ (λ y. none_there (some id))
            λ z.
              let (some_rows, start) = neither (d == 0) (fl.lt (at 0) nought) z in
              let here : (k : ℕ) → k < d → p k ≡ true = λ k h.
                let e : 0 + k ≡ k = omega arith in
                subst (λ m. p m ≡ true) e
                  (count_from-first p 0 (pos_part want) k
                    (closed laws law (length rows) fps t0 t0_old start) h) in
              (count_from-le p 0 (pos_part want), (here, inr refl))
    where
      at : ℕ → F
      at = position fps t0 t0_old

      p : ℕ → Bool
      p k = is_in_plan (length rows) (at k)

      d : ℕ
      d = count_from p 0 (pos_part want)

      Good : Committed P → Type 0
      Good = AreRunning (rows, (t0_old, id)) t0 want fps

      none_there : (i : Option ℕ) → Good (record { d = 0; prefix = none; plan_id = i })
      none_there i = (omega arith, ((λ k h. absurd (omega (arith, h))), inl (refl, refl)))
