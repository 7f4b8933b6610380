-- ===== src/InternalState/Columns.antt =====
-- common/internalstate.go: the statistics of the columns. Each operation is under the lock; `now` is
-- the time that it reads.
use skyr_block_explorer.Prelude.{ℕ, Option, none, some, List, [], ◌∷◌, get_elem?, set}
use skyr_block_explorer.Prelude.Int.{ℤ, pos, ◌+ℤ◌}
use skyr_block_explorer.Prelude.Bytes.{Bytes}
use skyr_block_explorer.Chain.Parser.{to_uint64, to_int64}

pub record InternalStateColumn : Type 0 where
  pub name : Bytes
  pub version : ℕ
  pub rows : ℤ
  pub key_bytes : ℤ
  pub value_bytes : ℤ
  pub updated : ℕ

-- The sum of two int64.
unfoldable pub plus_int64 : ℤ → ℤ → ℤ
plus_int64 a b = to_int64 (to_uint64 (a +ℤ b))

unfoldable pub changed_column : ℕ → ℤ → ℤ → ℤ → InternalStateColumn → InternalStateColumn
changed_column now rows_diff key_bytes_diff value_bytes_diff dc = record dc {
  rows = plus_int64 dc.rows rows_diff;
  key_bytes = plus_int64 dc.key_bytes key_bytes_diff;
  value_bytes = plus_int64 dc.value_bytes value_bytes_diff;
  updated = now;
}

-- A column that is not there is an index out of range.
unfoldable pub at_column :
    ℕ
    → (InternalStateColumn → InternalStateColumn)
    → List InternalStateColumn
    → Option (List InternalStateColumn)
at_column c f columns = elim (get_elem? columns c) [
  | none ↦ none
  | some dc ↦ some (set columns c (f dc))
]

unfoldable pub add_db_column_stats :
    ℕ → ℕ → ℤ → ℤ → ℤ → List InternalStateColumn → Option (List InternalStateColumn)
add_db_column_stats now c rows_diff key_bytes_diff value_bytes_diff columns =
    at_column c (changed_column now rows_diff key_bytes_diff value_bytes_diff) columns

unfoldable pub set_db_column_stats :
    ℕ → ℕ → ℤ → ℤ → ℤ → List InternalStateColumn → Option (List InternalStateColumn)
set_db_column_stats now c rows key_bytes value_bytes columns =
    at_column c
      (λ dc. record dc {
        rows = rows;
        key_bytes = key_bytes;
        value_bytes = value_bytes;
        updated = now;
      })
      columns

unfoldable pub get_db_column_stat_values : ℕ → List InternalStateColumn → ℤ × ℤ × ℤ
get_db_column_stat_values c columns = elim (get_elem? columns c) [
  | none ↦ (pos 0, pos 0, pos 0)
  | some dc ↦ (dc.rows, dc.key_bytes, dc.value_bytes)
]

-- `total += c.KeyBytes + c.ValueBytes`, from the first column on.
unfoldable pub size_from : ℤ → List InternalStateColumn → ℤ
size_from total [] = total
size_from total (c ∷ columns) =
    size_from (plus_int64 total (plus_int64 c.key_bytes c.value_bytes)) columns

unfoldable pub db_size_total : List InternalStateColumn → ℤ
db_size_total columns = size_from (pos 0) columns
