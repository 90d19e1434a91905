-- ===== src/Jobs/Archival/Lock.antt =====
-- The job of a region: the run under its lock.
use quickbite_order_service.Prelude.{
  ◌≡◌, refl, sym, ◌∙◌, ap, Option, none, some, inl, inr, Bool-cases, Option-cases,
}
use quickbite_order_service.Prelude.Text.{Text, text_eq, text_eq_sound}
use quickbite_order_service.Jobs.Rows.{ArchiveRunOptions, SweepEnv}
use quickbite_order_service.Jobs.Archival.{Worker, run_archival_with_lock, lock_key, set_lock}
use quickbite_order_service.Jobs.Archival.Keeps.{
  IsSound, IsPreserved, IsPreserved-refl, archive_region-IsPreserved,
}

module _ {J : Type 0} (env : SweepEnv J)
    (read_jsonb-stringify : (j : J) → env.read_jsonb (env.json_stringify j) ≡ some j) where
  -- The keys after a lock is taken and released are those of before.
  released_lock :
      (key : Text) (locks : Text → Option (Unit {0})) (k : Text)
      → locks key ≡ none
      → set_lock key none (set_lock key (some tt) locks) k ≡ locks k
  released_lock key locks k free = elim (Bool-cases (text_eq key k)) [
    | inl e ↦ rw e (sym free ∙ ap locks (text_eq_sound key k e))
    | inr e ↦ rw e refl
  ]

  -- Where the database reads back the JSON that the worker writes, and in every table the ids of
  -- hot rows are unique, these are readable, their copies in the archive are copies, and no row of
  -- another id, hot or archived, has the value of a hot row under a unique key: a job over a
  -- region, whether it is skipped for a lock that is held or its run ends (done, at its deadline,
  -- or with a statement that failed anywhere), leaves the locks as they were, and a reader who asks
  -- the hot cluster first and then the archive finds under every id of every table the very row of
  -- before; and the tables are again as this theorem wants them.
  pub run_archival_with_lock-IsPreserved :
      (region : Text) (opts : ArchiveRunOptions) (w : Worker J)
      → IsSound env w.shards
      → IsPreserved env w.shards (run_archival_with_lock env region opts w).1.shards
        × ((k : Text) → (run_archival_with_lock env region opts w).1.locks k ≡ w.locks k)
  unfolding run_archival_with_lock
  run_archival_with_lock-IsPreserved region opts w h =
      let key = lock_key region in
      elim (Option-cases (w.locks key)) [
        | inl free ↦ rw free (
          archive_region-IsPreserved env read_jsonb-stringify region opts w.shards h,
          λ k. released_lock key w.locks k free,
        )
        | inr (held, e) ↦ rw e (IsPreserved-refl env read_jsonb-stringify w.shards h, λ k. refl)
      ]
