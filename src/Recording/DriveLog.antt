-- ===== src/Recording/DriveLog.antt =====
-- reference/modules/drive_log.py: the column buffers of `DriveLog`. A dict of columns is the list of
-- its names in order and a function from a name; the keys are any type with a test for equality. An
-- array that a list is packed into is the list.
pub mod Pack
pub mod Columns
pub mod Appended
pub mod Imu
pub mod Schema
pub mod Recorded
use kaivuriprokkis.Prelude.{
  ℕ, ◌+◌, leb, Bool, true, false, not, ◌&&◌, ◌||◌, Option, none, some, List, [], ◌∷◌, ◌++◌, length,
  take, drop, if◌then◌else◌,
}

pub data LogError : Type 0 where
  changed_shape missing_timestamp : LogError

-- `cols` is the open block, `closing` a closed block that is being packed, `packed` the packed
-- blocks. A name that left `closing` has none there.
pub record DriveLog (K V : Type 0) : Type 0 where
  pub names : List K
  pub cols : K → List V
  pub closing_names : List K
  pub closing : K → Option (List V)
  pub packed : K → List (List V)
  pub closed_rows : ℕ

abbrev pub pack_rows : ℕ
pack_rows = 250

abbrev pub pack_columns_per_row : ℕ
pack_columns_per_row = 16

module _ {K : Type 0} where
  abbrev pub is_nil : List K → Bool
  is_nil [] = true
  is_nil (_ ∷ _) = false

module _ {K : Type 0} (eqb : K → K → Bool) where
  unfoldable pub has : K → List K → Bool
  has k [] = false
  has k (j ∷ js) = eqb k j || has k js

  unfoldable pub are_in : List K → List K → Bool
  unfolding has
  are_in [] js = true
  are_in (k ∷ ks) js = has k js && are_in ks js

  -- row.keys() == self._cols.keys()
  unfoldable pub same_keys : List K → List K → Bool
  unfolding are_in
  same_keys ks js = are_in ks js && are_in js ks

  -- f[k] = x
  abbrev pub assign {ℓ} : {X : Type ℓ} → K → X → (K → X) → K → X
  assign k x f j = if eqb j k then x else f j

module _ {V : Type 0} where
  abbrev pub concat : List (List V) → List V
  concat [] = []
  concat (vs ∷ vss) = vs ++ concat vss

  abbrev pub or_nil : Option (List V) → List V
  or_nil none = []
  or_nil (some vs) = vs

module _ {K V : Type 0} where
  unfoldable pub keys : List (K × V) → List K
  keys [] = []
  keys ((k, _) ∷ row) = k ∷ keys row

  unfoldable pub make_log : DriveLog K V
  make_log = record {
    names = [];
    cols = λ _. [];
    closing_names = [];
    closing = λ _. none;
    packed = λ _. [];
    closed_rows = 0;
  }

  -- The first row names the columns.
  unfoldable pub named : List (K × V) → DriveLog K V → DriveLog K V
  unfolding keys
  named row s =
      if is_nil s.names then record s { names = keys row; cols = λ _. []; packed = λ _. [] } else s

  unfoldable pub n_samples : K → DriveLog K V → ℕ
  n_samples timestamp s = s.closed_rows + length (s.cols timestamp)

  -- The array of one column.
  unfoldable pub column : K → DriveLog K V → List V
  column k s = concat (s.packed k) ++ (or_nil (s.closing k) ++ s.cols k)

  unfoldable pub columns_of : List K → DriveLog K V → List (K × List V)
  unfolding column
  columns_of [] s = []
  columns_of (k ∷ ks) s = (k, column k s) ∷ columns_of ks s

  unfoldable pub columns : DriveLog K V → List (K × List V)
  unfolding columns_of
  columns s = columns_of s.names s

module _ {K V : Type 0} (eqb : K → K → Bool) where
  -- self._cols[name].append(value), for each item of a row
  unfoldable pub fan_out : List (K × V) → (K → List V) → K → List V
  fan_out [] cols = cols
  fan_out ((k, v) ∷ row) cols = fan_out row (assign eqb k (cols k ++ (v ∷ [])) cols)

  -- self._packed[name].append(self._closing.pop(name)), for each of the names
  unfoldable pub pack :
      List K
      → (K → Option (List V))
      → (K → List (List V))
      → (K → Option (List V)) × (K → List (List V))
  pack [] closing packed = (closing, packed)
  pack (k ∷ ks) closing packed = elim (closing k) [
    | none ↦ pack ks closing packed
    | some vs ↦ pack ks (assign eqb k none closing) (assign eqb k (packed k ++ (vs ∷ [])) packed)
  ]

  unfoldable pub pack_some : DriveLog K V → DriveLog K V
  unfolding pack
  pack_some s =
      let (closing, packed) = pack (take pack_columns_per_row s.closing_names) s.closing s.packed in
      record s {
        closing_names = drop pack_columns_per_row s.closing_names;
        closing = closing;
        packed = packed;
      }

  -- What a full open block starts: the rest of the closing block is packed, and the open one closes.
  unfoldable pub close_block : DriveLog K V → DriveLog K V
  unfolding pack has
  close_block s = record s {
    packed = (pack s.closing_names s.closing s.packed).1;
    closing_names = s.names;
    closing = λ k. if has eqb k s.names then some (s.cols k) else none;
    cols = λ _. [];
    closed_rows = s.closed_rows + pack_rows;
  }

  module _ (timestamp : K) where
    -- `append` from the loop over the row's items on
    unfoldable pub extend : List (K × V) → DriveLog K V → DriveLog K V × Option LogError
    unfolding fan_out pack_some close_block has
    extend row s =
        let s2 = pack_some (record s { cols = fan_out row s.cols }) in
        if not (has eqb timestamp s2.names)
        then (s2, some missing_timestamp)
        else ((if leb pack_rows (length (s2.cols timestamp)) then close_block s2 else s2), none)

    unfoldable pub append : List (K × V) → DriveLog K V → DriveLog K V × Option LogError
    unfolding named same_keys keys extend
    append row s =
        if not (is_nil s.names) && not (same_keys eqb (keys row) s.names)
        then (s, some changed_shape)
        else extend row (named row s)
