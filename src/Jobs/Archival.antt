-- ===== src/Jobs/Archival.antt =====
-- The nightly archival of one region's rows of prior years: lib/jobs/archival.worker.ts. The two
-- clusters are the state; each statement can fail and each reading of the clock is a step, so that
-- a run can be stopped or cut off anywhere.
pub mod View
pub mod Keeps
pub mod Turns
pub mod Drains
pub mod Lock
use quickbite_order_service.Prelude.{
  ℕ, zero, suc, ◌+◌, Bool, true, false, Option, none, some, List, [], ◌∷◌, ◌++◌, leb, if◌then◌else◌,
  is_some, length, map,
}
use quickbite_order_service.Prelude.Text.{Text, codes, text_eq}
use quickbite_order_service.Jobs.Rows.{
  Row, ArchivalTable, ArchiveRunOptions, SweepEnv, serialize_row_for_insert, kept_rows,
  select_batch, insert_ignore, delete_ids,
}

-- The two clusters, with the number of readings of the clock and of statements so far.
pub record Shards (J : Type 0) : Type 0 where
  pub hot : Text → List (Row J)
  pub archive : Text → List (Row J)
  pub readings : ℕ
  pub statements : ℕ

pub record ArchiveRunResult : Type 0 where
  pub region : Text
  pub moved : List (Text × ℕ)
  pub total_moved : ℕ
  pub timed_out : Bool

-- How a run ends; `rejected` is a promise that a failed statement rejects.
pub data RegionEnd : Type 0 where
  finished : ArchiveRunResult → RegionEnd
  rejected skipped out_of_fuel : RegionEnd

-- The Redis keys of the locks beside the clusters.
pub record Worker (J : Type 0) : Type 0 where
  pub locks : Text → Option (Unit {0})
  pub shards : Shards J

abbrev lock_key : Text → Text
lock_key region = codes "archival:" ++ region ++ codes ":lock"

abbrev set_lock : Text → Option (Unit {0}) → (Text → Option (Unit {0})) → Text → Option (Unit {0})
set_lock key held locks k = if text_eq key k then held else locks k

abbrev pub archival_tables : List ArchivalTable
archival_tables =
    record { name = codes "agent_earnings"; ts_column = codes "earned_at" }
    ∷ record { name = codes "payment_webhook_events"; ts_column = codes "received_at" }
    ∷ record { name = codes "payment_sessions"; ts_column = codes "created_at" }
    ∷ record { name = codes "transactions"; ts_column = codes "created_at" }
    ∷ record { name = codes "order_items"; ts_column = codes "created_at" }
    ∷ record { name = codes "orders"; ts_column = codes "created_at" }
    ∷ []

-- One turn of the loop over a table's batches.
pub data BatchEnd : Type 0 where
  past_deadline : BatchEnd
  nothing_left : BatchEnd
  threw : BatchEnd
  batch_moved : ℕ → BatchEnd

-- How the sweep of a table ends; `unfinished` is for want of fuel.
pub data TableEnd : Type 0 where
  swept : TableEnd
  timed_out : TableEnd
  failed : TableEnd
  unfinished : TableEnd

unfoldable pub total_of : List (Text × ℕ) → ℕ
total_of [] = 0
total_of ((name, n) ∷ rest) = n + total_of rest

abbrev pub region_result : Text → List (Text × ℕ) → Bool → ArchiveRunResult
region_result region moved is_timed_out = record {
  region = region;
  moved = moved;
  total_moved = total_of moved;
  timed_out = is_timed_out;
}

abbrev region_end : Text → List (Text × ℕ) → TableEnd → RegionEnd
region_end region moved swept = finished (region_result region moved false)
region_end region moved timed_out = finished (region_result region moved true)
region_end region moved failed = rejected
region_end region moved unfinished = out_of_fuel

module _ {J : Type 0} where
  abbrev set_table : Text → List (Row J) → (Text → List (Row J)) → Text → List (Row J)
  set_table name rows tables n = if text_eq name n then rows else tables n

  abbrev ticked : Shards J → Shards J
  ticked s = record s { readings = s.readings + 1 }

  abbrev stated : Shards J → Shards J
  stated s = record s { statements = s.statements + 1 }

  -- The clusters after the two statements of a batch.
  unfoldable pub copied_to_archive : SweepEnv J → ArchivalTable → List (Row J) → Shards J → Shards J
  copied_to_archive env table rows s = record (stated s) {
    archive =
        set_table table.name (insert_ignore env table.name rows (s.archive table.name)) s.archive;
  }

  unfoldable pub deleted_from_hot : ArchivalTable → List (Row J) → Shards J → Shards J
  deleted_from_hot table rows s = record (stated s) {
    hot = set_table table.name (delete_ids (map (λ r. r.id) rows) (s.hot table.name)) s.hot;
  }

  unfoldable pub delete_from_hot :
      SweepEnv J → ArchivalTable → List (Row J) → Shards J → BatchEnd × Shards J
  delete_from_hot env table rows s =
      if env.is_failing s.statements
      then (threw, stated s)
      else (batch_moved (length rows), deleted_from_hot table rows s)

  unfoldable pub copy_to_archive :
      SweepEnv J → ArchivalTable → List (Row J) → Shards J → BatchEnd × Shards J
  copy_to_archive env table rows s =
      if env.is_failing s.statements
      then (threw, stated s)
      else elim (kept_rows env table.name (map (serialize_row_for_insert env) rows)) [
        | none ↦ (threw, stated s)
        | some kept ↦ delete_from_hot env table rows (copied_to_archive env table kept s)
      ]

  unfoldable pub move_batch :
      SweepEnv J → ArchivalTable → List (Row J) → Shards J → BatchEnd × Shards J
  move_batch env table [] s = (nothing_left, s)
  move_batch env table (row ∷ rows) s = copy_to_archive env table (row ∷ rows) s

  unfoldable pub archive_batch :
      SweepEnv J → ArchiveRunOptions → ℕ → ArchivalTable → Shards J → BatchEnd × Shards J
  archive_batch env opts started_at table s =
      if leb (opts.max_runtime_ms + started_at) (env.clock s.readings)
      then (past_deadline, ticked s)
      else if env.is_failing s.statements
      then (threw, stated (ticked s))
      else move_batch env table (select_batch env table opts.batch_size (s.hot table.name))
          (stated (ticked s))

  unfoldable pub archive_table :
      ℕ
      → SweepEnv J
      → ArchiveRunOptions
      → ℕ
      → ArchivalTable
      → ℕ
      → Shards J
      → TableEnd × ℕ × Shards J
  archive_table zero env opts started_at table moved s = (unfinished, moved, s)
  archive_table (suc fuel) env opts started_at table moved s =
      let turn = archive_batch env opts started_at table s in
      elim turn.0 [
        | past_deadline ↦ (timed_out, moved, turn.1)
        | nothing_left ↦ (swept, moved, turn.1)
        | threw ↦ (failed, moved, turn.1)
        | batch_moved n ↦ archive_table fuel env opts started_at table (moved + n) turn.1
      ]

  -- A turn that moves a batch deletes a row, so that one turn more than there are rows is enough.
  abbrev turns : ArchivalTable → Shards J → ℕ
  turns table s = suc (length (s.hot table.name))

  -- The tables in turn, with the counts so far, until one is timed out or a statement fails.
  unfoldable pub archive_tables :
      SweepEnv J
      → ArchiveRunOptions
      → ℕ
      → List ArchivalTable
      → List (Text × ℕ)
      → Shards J
      → TableEnd × List (Text × ℕ) × Shards J
  archive_tables env opts started_at [] moved s = (swept, moved, s)
  archive_tables env opts started_at (table ∷ tables) moved s =
      let end = archive_table (turns table s) env opts started_at table 0 s in
      let counts = moved ++ (table.name, end.1) ∷ [] in
      elim end.0 [
        | swept ↦ archive_tables env opts started_at tables counts end.2
        | timed_out ↦ (timed_out, counts, end.2)
        | failed ↦ (failed, counts, end.2)
        | unfinished ↦ (unfinished, counts, end.2)
      ]

  abbrev pub swept_region :
      SweepEnv J → ArchiveRunOptions → Shards J → TableEnd × List (Text × ℕ) × Shards J
  swept_region env opts s =
      archive_tables env opts (env.clock s.readings) archival_tables [] (ticked s)

  unfoldable pub archive_region :
      SweepEnv J → Text → ArchiveRunOptions → Shards J → RegionEnd × Shards J
  archive_region env region opts s =
      let end = swept_region env opts s in (region_end region end.1 end.0, end.2)

  unfoldable pub run_archival_with_lock :
      SweepEnv J → Text → ArchiveRunOptions → Worker J → RegionEnd × Worker J
  run_archival_with_lock env region opts w =
      let key = lock_key region in
      if is_some (w.locks key)
      then (skipped, w)
      else let end = archive_region env region opts w.shards in
        (
          end.0,
          record { locks = set_lock key none (set_lock key (some tt) w.locks); shards = end.1 },
        )
