-- ===== src/Jobs/Rows.antt =====
-- The rows that the archival moves, as the driver gives and takes them and as the database keeps them:
-- the statements of lib/jobs/archival.worker.ts and its `serializeRowForInsert`.
pub mod RoundTrip
pub mod Laws
use quickbite_order_service.Prelude.{
  ℕ, zero, suc, ◌+◌, ◌++◌, Bool, true, false, not, ◌||◌, Option, none, some, List, [], ◌∷◌, ltb,
  leb, ◌==◌, if◌then◌else◌, is_some, length, take, any, map,
}
use quickbite_order_service.Prelude.Sort.{order_by}
use quickbite_order_service.Prelude.Text.{Text, text_eq}
use quickbite_order_service.Prelude.Rows.{find_where, select_where, insert_row}

-- What the driver gives and takes for a column; `J` are the objects and arrays of JSON, and a scalar
-- is given by its text.
pub data Value (J : Type 0) : Type 0 where
  null_value : Value J
  scalar_value : Text → Value J
  date_value : ℕ → Value J
  buffer_value : List ℕ → Value J
  object_value : J → Value J

pub record Row (J : Type 0) : Type 0 where
  pub id : ℕ
  pub columns : List (Text × Value J)

pub record ArchivalTable : Type 0 where
  pub name : Text
  pub ts_column : Text

pub record ArchiveRunOptions : Type 0 where
  pub batch_size : ℕ
  pub max_runtime_ms : ℕ

-- What a run finds around it: the k-th reading of the clock, the start of the year, whether the
-- k-th statement fails, `JSON.stringify`, and of the database how it reads a text for a JSONB column
-- which columns of a table those are, and which rows of a table have the same value under a unique
-- key other than the id.
pub record SweepEnv (J : Type 0) : Type 0 where
  pub clock : ℕ → ℕ
  pub year_start : ℕ
  pub is_failing : ℕ → Bool
  pub json_stringify : J → Text
  pub read_jsonb : Text → Option J
  pub is_jsonb : Text → Text → Bool
  pub clashes : Text → Row J → Row J → Bool

module _ {J : Type 0} where
  unfoldable pub serialize_value : SweepEnv J → Value J → Value J
  serialize_value env (object_value j) = scalar_value (env.json_stringify j)
  serialize_value env null_value = null_value
  serialize_value env (scalar_value t) = scalar_value t
  serialize_value env (date_value t) = date_value t
  serialize_value env (buffer_value b) = buffer_value b

  unfoldable pub serialize_columns : SweepEnv J → List (Text × Value J) → List (Text × Value J)
  serialize_columns env [] = []
  serialize_columns env ((key, value) ∷ rest) =
      (key, serialize_value env value) ∷ serialize_columns env rest

  unfoldable pub serialize_row_for_insert : SweepEnv J → Row J → Row J
  serialize_row_for_insert env row = record row { columns = serialize_columns env row.columns }

  -- A value as the database keeps it: a text for a JSONB column is read as JSON, which can fail.
  unfoldable pub kept_value : SweepEnv J → Text → Text → Value J → Option (Value J)
  kept_value env table key (scalar_value t) =
      if env.is_jsonb table key
      then elim (env.read_jsonb t) [ none ↦ none | some j ↦ some (object_value j) ]
      else some (scalar_value t)
  kept_value env table key null_value = some null_value
  kept_value env table key (date_value t) = some (date_value t)
  kept_value env table key (buffer_value b) = some (buffer_value b)
  kept_value env table key (object_value j) = none

  unfoldable pub kept_columns :
      SweepEnv J → Text → List (Text × Value J) → Option (List (Text × Value J))
  kept_columns env table [] = some []
  kept_columns env table ((key, value) ∷ rest) = elim (kept_value env table key value) [
    | none ↦ none
    | some v ↦ elim (kept_columns env table rest) [ none ↦ none | some vs ↦ some ((key, v) ∷ vs) ]
  ]

  unfoldable pub kept_row : SweepEnv J → Text → Row J → Option (Row J)
  kept_row env table row = elim (kept_columns env table row.columns) [
    | none ↦ none
    | some columns ↦ some (record row { columns = columns })
  ]

  unfoldable pub kept_rows : SweepEnv J → Text → List (Row J) → Option (List (Row J))
  kept_rows env table [] = some []
  kept_rows env table (row ∷ rows) = elim (kept_row env table row) [
    | none ↦ none
    | some r ↦ elim (kept_rows env table rows) [ none ↦ none | some rs ↦ some (r ∷ rs) ]
  ]

  abbrev pub has_id : ℕ → Row J → Bool
  has_id id row = row.id == id

  abbrev pub find_id : ℕ → List (Row J) → Option (Row J)
  find_id id rows = find_where (has_id id) rows

  unfoldable pub column : Text → List (Text × Value J) → Value J
  column key [] = null_value
  column key ((k, value) ∷ rest) = if text_eq k key then value else column key rest

  -- `ts < date_trunc('year', NOW())`, which NULL does not pass.
  unfoldable pub is_prior_year : SweepEnv J → Text → Row J → Bool
  is_prior_year env ts_column row = elim (column ts_column row.columns) [
    | date_value t ↦ ltb t env.year_start
    | _ ↦ false
  ]

  -- SELECT … WHERE … ORDER BY id LIMIT.
  unfoldable pub select_batch : SweepEnv J → ArchivalTable → ℕ → List (Row J) → List (Row J)
  select_batch env table limit rows =
      take limit (order_by (λ r. r.id) (select_where (is_prior_year env table.ts_column) rows))

  -- A row of the table has the same id or the same value under another unique key.
  abbrev pub in_conflict : SweepEnv J → Text → Row J → Row J → Bool
  in_conflict env name row other = other.id == row.id || env.clashes name row other

  -- The rows agree on a unique key only if they agree on the id.
  abbrev pub is_apart : SweepEnv J → Text → Row J → Row J → Bool
  is_apart env name row other = not (env.clashes name row other) || other.id == row.id

  -- INSERT … ON CONFLICT DO NOTHING.
  unfoldable pub insert_ignore : SweepEnv J → Text → List (Row J) → List (Row J) → List (Row J)
  insert_ignore env name [] table = table
  insert_ignore env name (row ∷ rows) table = insert_ignore env name rows (
      if is_some (find_where (in_conflict env name row) table) then table else insert_row row table)

  -- DELETE … WHERE id IN.
  unfoldable pub delete_ids : List ℕ → List (Row J) → List (Row J)
  delete_ids ids rows = select_where (λ row. not (any (λ id. row.id == id) ids)) rows
