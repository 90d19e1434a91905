-- ===== src/Tests/Jobs.antt =====
-- Runs of the archival: one that a failed statement cuts off, and one that is carried through.
use quickbite_order_service.Prelude.{
  ℕ, ◌≡◌, ◌≢◌, refl, Bool, false, none, some, List, [], ◌∷◌, ◌==◌, if◌then◌else◌, inl, inr,
  Bool-cases,
}
use quickbite_order_service.Prelude.Text.{Text, codes, text_eq}
use quickbite_order_service.Prelude.Sort.{order_by, insert_by}
use quickbite_order_service.Jobs.Rows.{
  null_value, date_value, object_value, Row, ArchiveRunOptions, SweepEnv, serialize_row_for_insert,
  kept_row, kept_rows, kept_columns, kept_value, serialize_columns, serialize_value, select_batch,
  is_prior_year, column, insert_ignore, delete_ids,
}
use quickbite_order_service.Jobs.Rows.RoundTrip.{
  IsReadable, IsReadableRow, kept_row-serialize_row_for_insert,
}
use quickbite_order_service.Jobs.Archival.{
  Shards, Worker, run_archival_with_lock, archive_region, archive_tables, archive_table,
  archive_batch, move_batch, copy_to_archive, delete_from_hot, deleted_from_hot, copied_to_archive,
  rejected, out_of_fuel,
}
use quickbite_order_service.Jobs.Archival.View.{IsConsistent}
use quickbite_order_service.Jobs.Archival.Keeps.{IsSound, IsPreserved}
use quickbite_order_service.Jobs.Archival.Lock.{run_archival_with_lock-IsPreserved}
use quickbite_order_service.Jobs.Archival.Drains.{archive_region-Terminates}

-- The JSON is kept as its text.
abbrev env_of : (ℕ → Bool) → SweepEnv Text
env_of is_failing = record {
  clock = λ k. 100;
  year_start = 50;
  is_failing = is_failing;
  json_stringify = λ j. j;
  read_jsonb = λ t. some t;
  is_jsonb = λ table key. text_eq key (codes "payload");
  clashes = λ table a b. a.id == b.id;
}

abbrev options : ArchiveRunOptions
options = record { batch_size = 1; max_runtime_ms = 10 }

abbrev row_at : ℕ → ℕ → Row Text
row_at id created_at = record {
  id = id;
  columns =
      (codes "created_at", date_value created_at)
      ∷ (codes "payload", object_value (codes "{}"))
      ∷ (codes "note", null_value)
      ∷ [];
}

abbrev hot_orders : List (Row Text)
hot_orders = row_at 3 60 ∷ row_at 2 20 ∷ row_at 1 10 ∷ []

-- The first order has been copied by a run before.
abbrev archived_orders : List (Row Text)
archived_orders = row_at 1 10 ∷ []

abbrev shards_1 : Shards Text
shards_1 = record {
  hot = λ name. if text_eq (codes "orders") name then hot_orders else [];
  archive = λ name. if text_eq (codes "orders") name then archived_orders else [];
  readings = 0;
  statements = 0;
}

row_at-IsReadable :
    (is_failing : ℕ → Bool) (name : Text) (id created_at : ℕ)
    → IsReadableRow (env_of is_failing) name (row_at id created_at)
unfolding IsReadable text_eq
row_at-IsReadable is_failing name id created_at = (tt, (refl, (tt, tt)))

-- The copy is a copy of the first order, and of the others there is none.
hot_orders-IsConsistent :
    (is_failing : ℕ → Bool) (name : Text)
    → IsConsistent (env_of is_failing) name hot_orders archived_orders
hot_orders-IsConsistent is_failing name = (
  record {
    in_hot = refl;
    in_archive = λ a e. cc;
    readable = row_at-IsReadable is_failing name 3 60;
    apart_hot = (refl, (refl, (refl, tt)));
    apart_archive = (refl, tt);
  },
  (
    record {
      in_hot = refl;
      in_archive = λ a e. cc;
      readable = row_at-IsReadable is_failing name 2 20;
      apart_hot = (refl, (refl, (refl, tt)));
      apart_archive = (refl, tt);
    },
    (
      record {
        in_hot = refl;
        in_archive = λ a e. cc;
        readable = row_at-IsReadable is_failing name 1 10;
        apart_hot = (refl, (refl, (refl, tt)));
        apart_archive = (refl, tt);
      },
      tt,
    ),
  ),
)

shards_1-IsSound : (is_failing : ℕ → Bool) → IsSound (env_of is_failing) shards_1
unfolding IsSound
shards_1-IsSound is_failing name = elim (Bool-cases (text_eq (codes "orders") name)) [
  | inl e ↦ rw e (hot_orders-IsConsistent is_failing name)
  | inr e ↦ rw e tt
]

read_back : (j : Text) → some j ≡ some j
read_back j = refl

kept_row-serialize_row_for_insert_example :
    kept_row
      (env_of (λ k. false))
      (codes "orders")
      (serialize_row_for_insert (env_of (λ k. false)) (row_at 1 10))
    ≡ some (row_at 1 10)
kept_row-serialize_row_for_insert_example =
    kept_row-serialize_row_for_insert (env_of (λ k. false)) (codes "orders") read_back (row_at 1 10)
      (row_at-IsReadable (λ k. false) (codes "orders") 1 10)

-- The deletion of the first batch of the orders fails.
abbrev is_cut_off : ℕ → Bool
is_cut_off k = k == 7

abbrev worker_1 : Worker Text
worker_1 = record { locks = λ key. none; shards = shards_1 }

run_archival_with_lock-IsPreserved_example :
    IsPreserved
      (env_of is_cut_off)
      shards_1
      (run_archival_with_lock (env_of is_cut_off) (codes "eg") options worker_1).1.shards
    × ((k : Text)
        → (run_archival_with_lock (env_of is_cut_off) (codes "eg") options worker_1).1.locks k
          ≡ none)
run_archival_with_lock-IsPreserved_example =
    run_archival_with_lock-IsPreserved (env_of is_cut_off) read_back (codes "eg") options worker_1
      (shards_1-IsSound is_cut_off)

cut_off : (archive_region (env_of is_cut_off) (codes "eg") options shards_1).0 ≡ rejected
unfolding archive_region archive_tables archive_table archive_batch move_batch copy_to_archive
    delete_from_hot deleted_from_hot copied_to_archive kept_rows kept_row kept_columns kept_value
    serialize_row_for_insert serialize_columns serialize_value select_batch order_by insert_by
    is_prior_year column insert_ignore delete_ids text_eq
cut_off = refl

archive_region-Terminates_example :
    (archive_region (env_of is_cut_off) (codes "eg") options shards_1).0 ≢ out_of_fuel
archive_region-Terminates_example =
    archive_region-Terminates (env_of is_cut_off) read_back (codes "eg") options shards_1
      (shards_1-IsSound is_cut_off)
