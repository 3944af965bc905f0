-- ===== src/Recording/DriveLog/Appended.antt =====
-- The columns of `DriveLog` are the values that were appended, in order.
use kaivuriprokkis.Prelude.{
  ◌+◌, ◌≡◌, ◌∙◌, sym, ap, refl, Bool, true, false, Option, none, some, List, [], ◌∷◌, ◌++◌, length,
  arith, inl, length-append,
}
use kaivuriprokkis.Recording.DriveLog.{
  DriveLog, is_nil, has, are_in, same_keys, keys, make_log, named, column, pack_some, close_block,
  extend, append, n_samples,
}
use mathlib.Core.Path.{subst}
use kaivuriprokkis.Recording.DriveLog.Pack.{values_of, all_values, append_assoc, append_nil}
use kaivuriprokkis.Recording.DriveLog.Columns.{IsWhole, extend-IsWhole}

module _ {K : Type 0} (eqb : K → K → Bool) where
  are_in-same_keys : (ks js : List K) → same_keys eqb ks js ≡ true → are_in eqb ks js ≡ true
  unfolding same_keys
  are_in-same_keys ks js h = ground arith

  is_nil-has : (timestamp : K) (ks : List K) → has eqb timestamp ks ≡ true → is_nil ks ≡ false
  unfolding has
  is_nil-has timestamp [] h = cc
  is_nil-has timestamp (k ∷ ks) h = refl

module _ {K V : Type 0} (eqb : K → K → Bool) (sound : (j k : K) → eqb j k ≡ true → j ≡ k)
    (timestamp : K) where
  -- The rows that follow the first, each with its names and one timestamp.
  abbrev pub AreRows : List K → List (List (K × V)) → Type 0
  AreRows names [] = Unit
  AreRows names (row ∷ rows) =
      ((same_keys eqb (keys row) names ≡ true) × (length (values_of eqb timestamp row) ≡ 1))
      × AreRows names rows

  -- None when an append raises.
  unfoldable pub append_all : List (List (K × V)) → DriveLog K V → Option (DriveLog K V)
  unfolding append
  append_all [] s = some s
  append_all (row ∷ rows) s =
      let (s', e) = append eqb timestamp row s in
      let rest = append_all rows s' in elim e [ some _ ↦ none | none ↦ rest ]

  append-extend :
      (row : List (K × V)) (s : DriveLog K V)
      → same_keys eqb (keys row) s.names ≡ true
      → has eqb timestamp s.names ≡ true
      → append eqb timestamp row s ≡ extend eqb timestamp row s
  unfolding append named has
  append-extend row s k t = rw (is_nil-has eqb timestamp s.names t, k) refl

  append_all-next :
      (row : List (K × V)) (rows : List (List (K × V))) (s s' : DriveLog K V)
      → append eqb timestamp row s ≡ (s', none)
      → append_all (row ∷ rows) s ≡ append_all rows s'
  unfolding append_all
  append_all-next row rows s s' e =
      ap (λ c. elim c.1 [ some _ ↦ none | none ↦ append_all rows c.0 ]) e

  append_all-same :
      (row : List (K × V)) (rows : List (List (K × V))) (s s' : DriveLog K V)
      → append eqb timestamp row s ≡ append eqb timestamp row s'
      → append_all (row ∷ rows) s ≡ append_all (row ∷ rows) s'
  unfolding append_all
  append_all-same row rows s s' e =
      ap (λ c. elim c.1 [ some _ ↦ none | none ↦ append_all rows c.0 ]) e

  extend-names :
      (row : List (K × V)) (s : DriveLog K V) → (extend eqb timestamp row s).0.names ≡ s.names
  unfolding extend pack_some close_block
  extend-names row s = ground arith

  -- What a log holds when `rows` follow values of which there are `vs`.
  abbrev pub IsFollowed : (K → List V) → List (List (K × V)) → List K → DriveLog K V → Type 0
  IsFollowed vs rows names s =
      (s.names ≡ names)
      × (((k : K) → column k s ≡ vs k ++ all_values eqb k rows)
          × (n_samples timestamp s ≡ length (vs timestamp) + length rows))

  append_all-IsFollowed :
      (rows : List (List (K × V))) (vs : K → List V) (s : DriveLog K V)
      → AreRows s.names rows
      → has eqb timestamp s.names ≡ true
      → IsWhole eqb sound timestamp vs s
      → (s' : DriveLog K V) × ((append_all rows s ≡ some s') × IsFollowed vs rows s.names s')
  unfolding append_all all_values
  append_all-IsFollowed [] vs s rs t ((whole, _), (n, _)) =
      (s, (refl, (refl, ((λ k. whole k ∙ sym (append_nil (vs k))), omega (arith, n)))))
  append_all-IsFollowed (row ∷ rows) vs s ((same, one), rs) t h =
      let (h', e) =
        extend-IsWhole eqb sound timestamp row vs s (are_in-same_keys eqb (keys row) s.names same) t
          one h in
      let names = extend-names row s in
      let s1 = (extend eqb timestamp row s).0 in
      let (s', (e', (names', (whole', n')))) =
        append_all-IsFollowed rows (λ k. vs k ++ values_of eqb k row) s1
          (subst (λ ks. AreRows ks rows) (sym names) rs) (ap (has eqb timestamp) names ∙ t) h' in
      (
        s',
        (
          append_all-next row rows s s1 (append-extend row s same t ∙ ap (λ x. (s1, x)) e) ∙ e',
          (
            names' ∙ names,
            (
              (λ k. whole' k ∙ append_assoc (vs k) (values_of eqb k row) (all_values eqb k rows)),
              omega (arith, n', one, length-append (vs timestamp) (values_of eqb timestamp row)),
            ),
          ),
        ),
      )

  -- The rows of a recording are appended without an error, where each has the names of the first,
  -- with one timestamp, and `timestamp` is a name. Then each column of the log, packed, closing and
  -- open together, is the values of the rows under its name, in order, the columns are those of the
  -- first row, and the count of samples is the number of rows.
  pub append_all-columns :
      (row : List (K × V)) (rows : List (List (K × V)))
      → AreRows (keys row) (row ∷ rows)
      → has eqb timestamp (keys row) ≡ true
      → (s : DriveLog K V) × ((append_all (row ∷ rows) make_log ≡ some s)
          × IsFollowed (λ _. []) (row ∷ rows) (keys row) s)
  unfolding append_all append make_log named n_samples column
  append_all-columns row rows rs t =
      let start : DriveLog K V = named row make_log in
      let started : IsWhole eqb sound timestamp (λ _. []) start =
        (((λ k. refl), ((λ k e. refl), λ k. inl refl)), (refl, omega arith)) in
      let (s, (e, held)) = append_all-IsFollowed (row ∷ rows) (λ _. []) start rs t started in
      (
        s,
        (
          sym (append_all-same row rows start make_log (append-extend row start rs.0.0 t)) ∙ e,
          held,
        ),
      )
