-- ===== src/Recording/DriveLog/Columns.antt =====
-- One row in the columns of a `DriveLog`.
use kaivuriprokkis.Prelude.{
  ◌+◌, ◌≡◌, ◌∙◌, sym, ap, refl, leb, Bool, true, false, Option, none, some, List, [], ◌++◌, length,
  take, arith, Bool-cases, ◌⊎◌, inl, inr, length-append, leb→le, if◌then◌else◌, ◌<◌, ◌≤◌,
}
use kaivuriprokkis.Recording.DriveLog.{
  DriveLog, pack_rows, pack_columns_per_row, has, are_in, concat, or_nil, keys, column, fan_out,
  pack, pack_some, close_block, extend, n_samples,
}
use kaivuriprokkis.Recording.DriveLog.Pack.{
  values_of, append_assoc, append_nil, fan_out-values, pack-whole, pack-none, pack-gone,
  has-take-drop, are_in-has, values_of-nil,
}

module _ {K V : Type 0} (eqb : K → K → Bool) (sound : (j k : K) → eqb j k ≡ true → j ≡ k)
    (timestamp : K) where
  -- The columns are `vs`, and what is open or closing has a name.
  abbrev pub IsKept : (K → List V) → DriveLog K V → Type 0
  IsKept vs s =
      ((k : K) → column k s ≡ vs k)
      × (((k : K) → has eqb k s.names ≡ false → s.cols k ≡ [])
          × ((k : K) → (s.closing k ≡ none) ⊎ (has eqb k s.closing_names ≡ true)))

  -- Besides, every row has been counted and the open block is not full.
  abbrev pub IsWhole : (K → List V) → DriveLog K V → Type 0
  IsWhole vs s =
      IsKept vs s
      × ((n_samples timestamp s ≡ length (vs timestamp)) × (length (s.cols timestamp) < pack_rows))

  pack_some-column : (s : DriveLog K V) (k : K) → column k (pack_some eqb s) ≡ column k s
  unfolding pack_some column
  pack_some-column s k =
      sym (append_assoc (concat after.1) (or_nil after.0) (s.cols k))
      ∙ (ap (λ l. l ++ s.cols k) (pack-whole eqb sound first s.closing s.packed k)
          ∙ append_assoc (concat (s.packed k)) (or_nil (s.closing k)) (s.cols k))
    where
      first : List K
      first = take pack_columns_per_row s.closing_names

      after : Option (List V) × List (List V)
      after = ((pack eqb first s.closing s.packed).0 k, (pack eqb first s.closing s.packed).1 k)

  close_block-column :
      (s : DriveLog K V) (k : K)
      → ((j : K) → has eqb j s.names ≡ false → s.cols j ≡ [])
      → ((j : K) → (s.closing j ≡ none) ⊎ (has eqb j s.closing_names ≡ true))
      → column k (close_block eqb s) ≡ column k s
  unfolding close_block column
  close_block-column s k out pend =
      let packed = (pack eqb s.closing_names s.closing s.packed) in
      let gone : packed.0 k ≡ none = elim (pend k) [
        | inl n ↦ pack-none eqb sound s.closing_names s.closing s.packed k n
        | inr h ↦ pack-gone eqb sound s.closing_names s.closing s.packed k h
      ] in
      let rest : concat (packed.1 k) ≡ concat (s.packed k) ++ or_nil (s.closing k) =
        sym (append_nil (concat (packed.1 k)))
        ∙ (ap (λ c. concat (packed.1 k) ++ or_nil c) (sym gone)
            ∙ pack-whole eqb sound s.closing_names s.closing s.packed k) in
      let shut : or_nil (if has eqb k s.names then some (s.cols k) else none) ++ [] ≡ s.cols k =
        elim (Bool-cases (has eqb k s.names)) [
          | inl h ↦ rw h (append_nil (s.cols k))
          | inr h ↦ rw h (sym (out k h))
        ] in
      ap (λ l. concat (packed.1 k) ++ l) shut
      ∙ (ap (λ l. l ++ s.cols k) rest
          ∙ append_assoc (concat (s.packed k)) (or_nil (s.closing k)) (s.cols k))

  close_block-IsKept :
      (vs : K → List V) (s : DriveLog K V) → IsKept vs s → IsKept vs (close_block eqb s)
  unfolding close_block
  close_block-IsKept vs s (whole, (out, pend)) = (
    (λ k. close_block-column s k out pend ∙ whole k),
    (
      (λ k e. refl),
      λ k. elim (Bool-cases (has eqb k s.names)) [ inl h ↦ inr h | inr h ↦ inl (rw h refl) ],
    ),
  )

  -- The state when a row is fanned out and a few columns are packed.
  abbrev filled : List (K × V) → DriveLog K V → DriveLog K V
  filled row s = pack_some eqb (record s { cols = fan_out eqb row s.cols })

  filled-column :
      (row : List (K × V)) (s : DriveLog K V) (k : K)
      → column k (filled row s) ≡ column k s ++ values_of eqb k row
  unfolding column
  filled-column row s k =
      pack_some-column (record s { cols = fan_out eqb row s.cols }) k
      ∙ (ap (λ l. concat (s.packed k) ++ (or_nil (s.closing k) ++ l))
            (fan_out-values eqb sound row s.cols k)
          ∙ (ap (λ l. concat (s.packed k) ++ l)
                (sym (append_assoc (or_nil (s.closing k)) (s.cols k) (values_of eqb k row)))
              ∙ sym (
                  append_assoc (concat (s.packed k)) (or_nil (s.closing k) ++ s.cols k)
                    (values_of eqb k row))))

  pack_some-pending :
      (s : DriveLog K V) (k : K)
      → (s.closing k ≡ none) ⊎ (has eqb k s.closing_names ≡ true)
      → ((pack_some eqb s).closing k ≡ none) ⊎ (has eqb k (pack_some eqb s).closing_names ≡ true)
  unfolding pack_some
  pack_some-pending s k (inl n) =
      inl (pack-none eqb sound (take pack_columns_per_row s.closing_names) s.closing s.packed k n)
  pack_some-pending s k (inr h) =
      elim (has-take-drop eqb sound pack_columns_per_row s.closing_names k h) [
        | inl t ↦
            inl (
              pack-gone eqb sound (take pack_columns_per_row s.closing_names) s.closing s.packed k
                t)
        | inr d ↦ inr d
      ]

  filled-IsKept :
      (row : List (K × V)) (vs : K → List V) (s : DriveLog K V)
      → are_in eqb (keys row) s.names ≡ true
      → IsKept vs s
      → IsKept (λ k. vs k ++ values_of eqb k row) (filled row s)
  unfolding pack_some
  filled-IsKept row vs s a (whole, (out, pend)) = (
    (λ k. filled-column row s k ∙ ap (λ l. l ++ values_of eqb k row) (whole k)),
    (
      (λ k e.
          fan_out-values eqb sound row s.cols k
          ∙ rw
              (
                out k e,
                values_of-nil eqb sound row k (are_in-has eqb sound (keys row) s.names k a e),
              )
              refl),
      λ k. pack_some-pending (record s { cols = fan_out eqb row s.cols }) k (pend k),
    ),
  )

  -- The open block closes when it is full.
  abbrev ending : DriveLog K V → DriveLog K V
  ending s = if leb pack_rows (length (s.cols timestamp)) then close_block eqb s else s

  ending-IsWhole :
      (vs : K → List V) (s : DriveLog K V)
      → IsKept vs s
      → n_samples timestamp s ≡ length (vs timestamp)
      → length (s.cols timestamp) ≤ pack_rows
      → IsWhole vs (ending s)
  unfolding n_samples close_block
  ending-IsWhole vs s kept n full = elim (Bool-cases (leb pack_rows (length (s.cols timestamp)))) [
    | inl h ↦ rw h (
      close_block-IsKept vs s kept,
      (omega (arith, leb→le pack_rows (length (s.cols timestamp)) h, n), omega arith),
    )
    | inr h ↦ rw h (kept, (n, ground arith))
  ]

  extend-ending :
      (row : List (K × V)) (s : DriveLog K V)
      → has eqb timestamp s.names ≡ true
      → extend eqb timestamp row s ≡ (ending (filled row s), none)
  unfolding extend pack_some
  extend-ending row s t = rw t refl

  pub extend-IsWhole :
      (row : List (K × V)) (vs : K → List V) (s : DriveLog K V)
      → are_in eqb (keys row) s.names ≡ true
      → has eqb timestamp s.names ≡ true
      → length (values_of eqb timestamp row) ≡ 1
      → IsWhole vs s
      → IsWhole (λ k. vs k ++ values_of eqb k row) (extend eqb timestamp row s).0
        × ((extend eqb timestamp row s).1 ≡ none)
  unfolding n_samples pack_some
  extend-IsWhole row vs s a t one (kept, (n, full)) =
      let len : length (fan_out eqb row s.cols timestamp) ≡ length (s.cols timestamp) + 1 =
        ap length (fan_out-values eqb sound row s.cols timestamp)
        ∙ (length-append (s.cols timestamp) (values_of eqb timestamp row) ∙ rw one refl) in
      let total : length (vs timestamp ++ values_of eqb timestamp row) ≡ length (vs timestamp) + 1 =
        length-append (vs timestamp) (values_of eqb timestamp row) ∙ rw one refl in
      rw (extend-ending row s t) (
        ending-IsWhole (λ k. vs k ++ values_of eqb k row) (filled row s)
            (filled-IsKept row vs s a kept) (omega (arith, len, total, n))
            (omega (arith, len, full)),
        refl,
      )
