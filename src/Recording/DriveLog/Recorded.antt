-- ===== src/Recording/DriveLog/Recorded.antt =====
-- A recording by `DriveLog` of the rows that `build_row` builds.
use kaivuriprokkis.Prelude.{◌≡◌, refl, Bool, true, some, List, [], ◌∷◌}
use kaivuriprokkis.Float.{Float}
use kaivuriprokkis.Recording.DriveLog.{DriveLog, has, are_in, same_keys, keys, make_log}
use kaivuriprokkis.Recording.DriveLog.Pack.{values_of}
use kaivuriprokkis.Recording.DriveLog.Appended.{AreRows, IsFollowed, append_all, append_all-columns}
use Prim.Native.String.{String}
use text.Mathlib.Text.{◌==◌}
use text.Mathlib.TextEquality.{eq_iff}
use kaivuriprokkis.Recording.DriveLog.Schema.{
  Cell, Sample, build_row, command_columns, combined_columns, joint_columns, imu_vectors,
  vector_columns, clock_columns,
}

pub equal_texts : (j k : String) → (j == k) ≡ true → j ≡ k
equal_texts j k = (eq_iff j k).0

module _ {F : Type 0} ⦃fl : Float F⦄ (nan : F) (radians : F → F) (is_finite : F → Bool) where
  unfoldable pub rows_of : List (Sample F) → List (List (String × Cell F))
  unfolding build_row
  rows_of [] = []
  rows_of (s ∷ ss) = build_row nan radians is_finite s ∷ rows_of ss

  build_row-AreRows :
      (first : Sample F) (ss : List (Sample F))
      → AreRows ◌==◌ equal_texts "timestamp"
          (keys (build_row nan radians is_finite first))
          (rows_of ss)
  unfolding rows_of build_row keys same_keys are_in has values_of command_columns combined_columns
      joint_columns imu_vectors vector_columns clock_columns
  build_row-AreRows first [] = tt
  build_row-AreRows first (s ∷ ss) = ((refl, refl), build_row-AreRows first ss)

  -- A recording of rows that `build_row` builds, whatever the samples hold or lack, is appended
  -- without an error: no row changes shape. Each column of the log is then the values of the rows
  -- under its name, in order, and the samples are counted.
  pub rows_of-columns :
      (s : Sample F) (ss : List (Sample F))
      → (log : DriveLog String (Cell F)) × ((append_all ◌==◌ equal_texts "timestamp"
              (rows_of (s ∷ ss))
              make_log
            ≡ some log)
          × IsFollowed ◌==◌ equal_texts "timestamp"
              (λ _. [])
              (rows_of (s ∷ ss))
              (keys (build_row nan radians is_finite s))
              log)
  unfolding rows_of build_row keys has
  rows_of-columns s ss =
      append_all-columns ◌==◌ equal_texts "timestamp" (build_row nan radians is_finite s)
        (rows_of ss) (build_row-AreRows s (s ∷ ss)) refl
