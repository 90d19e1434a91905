-- ===== src/Jobs/Rows/RoundTrip.antt =====
-- A row that is serialized, sent and kept reads as the row that it was.
use quickbite_order_service.Prelude.{◌≡◌, refl, true, false, some, List, [], ◌∷◌, map, All}
use quickbite_order_service.Prelude.Text.{Text}
use quickbite_order_service.Jobs.Rows.{
  Value, null_value, scalar_value, date_value, buffer_value, object_value, Row, SweepEnv,
  serialize_value, serialize_columns, serialize_row_for_insert, kept_value, kept_columns, kept_row,
  kept_rows,
}

module _ {J : Type 0} where
  -- A column of a row as the driver reads it: objects and arrays are in the JSONB columns, and there
  -- are no JSON scalars in these.
  unfoldable pub IsReadable : SweepEnv J → Text → Text × Value J → Type 0
  IsReadable env table (key, scalar_value t) = env.is_jsonb table key ≡ false
  IsReadable env table (key, object_value j) = env.is_jsonb table key ≡ true
  IsReadable env table (key, null_value) = Unit
  IsReadable env table (key, date_value t) = Unit
  IsReadable env table (key, buffer_value b) = Unit

  abbrev pub IsReadableRow : SweepEnv J → Text → Row J → Type 0
  IsReadableRow env table row = All (IsReadable env table) row.columns

module _ {J : Type 0} (env : SweepEnv J) (table : Text)
    (read_jsonb-stringify : (j : J) → env.read_jsonb (env.json_stringify j) ≡ some j) where
  kept_value-serialize :
      (key : Text) (value : Value J)
      → IsReadable env table (key, value)
      → kept_value env table key (serialize_value env value) ≡ some value
  unfolding IsReadable kept_value serialize_value
  kept_value-serialize key null_value h = refl
  kept_value-serialize key (scalar_value t) h = rw h
  kept_value-serialize key (date_value t) h = refl
  kept_value-serialize key (buffer_value b) h = refl
  kept_value-serialize key (object_value j) h = rw (h, read_jsonb-stringify j)

  kept_columns-serialize :
      (columns : List (Text × Value J))
      → All (IsReadable env table) columns
      → kept_columns env table (serialize_columns env columns) ≡ some columns
  unfolding kept_columns serialize_columns
  kept_columns-serialize [] h = refl
  kept_columns-serialize ((key, value) ∷ rest) (h, t) =
      rw (kept_columns, kept_value-serialize key value h, kept_columns-serialize rest t)

  -- Where the database reads back the JSON text that the worker writes, a row with its objects in
  -- JSONB columns and no JSON scalars there is kept by the archive as the row that it was.
  pub kept_row-serialize_row_for_insert :
      (row : Row J)
      → IsReadableRow env table row
      → kept_row env table (serialize_row_for_insert env row) ≡ some row
  unfolding kept_row serialize_row_for_insert
  kept_row-serialize_row_for_insert row h = rw (kept_row, kept_columns-serialize row.columns h)

  pub kept_rows-serialize :
      (rows : List (Row J))
      → All (IsReadableRow env table) rows
      → kept_rows env table (map (serialize_row_for_insert env) rows) ≡ some rows
  unfolding kept_rows
  kept_rows-serialize [] h = refl
  kept_rows-serialize (row ∷ rows) (h, t) =
      rw (kept_rows, kept_row-serialize_row_for_insert row h, kept_rows-serialize rows t)
