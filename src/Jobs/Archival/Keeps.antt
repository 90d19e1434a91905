-- ===== src/Jobs/Archival/Keeps.antt =====
-- A run of the archival, however it ends, hides no row from a reader of both clusters.
use mathlib.Core.Path.{subst}
use quickbite_order_service.Prelude.{
  ℕ, zero, suc, ◌+◌, ◌++◌, ◌≡◌, refl, ◌∙◌, false, Option, some, List, [], ◌∷◌, All, leb, inl, inr,
  Bool-cases,
}
use quickbite_order_service.Prelude.Text.{Text, text_eq, text_eq_sound, text_eq_refl}
use quickbite_order_service.Jobs.Rows.{
  Row, ArchivalTable, ArchiveRunOptions, SweepEnv, select_batch,
}
use quickbite_order_service.Jobs.Rows.RoundTrip.{IsReadableRow, kept_rows-serialize}
use quickbite_order_service.Prelude.Sort.{All-weaken}
use quickbite_order_service.Jobs.Rows.Laws.{All-select_batch}
use quickbite_order_service.Jobs.Archival.{
  Shards, TableEnd, past_deadline, nothing_left, threw, batch_moved, swept, timed_out, failed,
  unfinished, ticked, stated, deleted_from_hot, copied_to_archive, delete_from_hot, copy_to_archive,
  move_batch, archive_batch, archive_table, archive_tables, archival_tables, turns, archive_region,
}
use quickbite_order_service.Jobs.Archival.View.{
  row_of, IsKept, IsConsistent, row_of-copied, row_of-moved, IsConsistent-copied,
  IsConsistent-moved,
}

module _ {J : Type 0} where
  -- The row of an id of a table, for a reader of both clusters.
  unfoldable pub view : Shards J → Text → ℕ → Option (Row J)
  view s name id = row_of id (s.hot name) (s.archive name)

  -- In every table the ids of hot rows are unique, these are readable, their copies in the archive are
  -- copies, and no row of another id has the value of a hot row under a unique key.
  unfoldable pub IsSound : SweepEnv J → Shards J → Type 0
  IsSound env s = (name : Text) → IsConsistent env name (s.hot name) (s.archive name)

  abbrev pub IsKeptBatch : SweepEnv J → ArchivalTable → List (Row J) → Shards J → Type 0
  IsKeptBatch env table rows s =
      All (IsKept env table.name (s.hot table.name) (s.archive table.name)) rows

  pub record IsPreserved (env : SweepEnv J) (s s' : Shards J) : Type 0 where
    pub sound : IsSound env s'
    pub same_view : (name : Text) (id : ℕ) → view s' name id ≡ view s name id

module _ {J : Type 0} (env : SweepEnv J)
    (read_jsonb-stringify : (j : J) → env.read_jsonb (env.json_stringify j) ≡ some j) where
  pub IsPreserved-refl : (s : Shards J) → IsSound env s → IsPreserved env s s
  IsPreserved-refl s h = record { sound = h; same_view = λ name id. refl }

  IsPreserved-trans :
      (s t u : Shards J) → IsPreserved env s t → IsPreserved env t u → IsPreserved env s u
  IsPreserved-trans s t u p q = record {
    sound = q.sound;
    same_view = λ name id. q.same_view name id ∙ p.same_view name id;
  }

  -- It is enough to look at the one table that changes.
  IsPreserved-at :
      (s t : Shards J) (name : Text)
      → IsSound env s
      → ((n : Text) → text_eq name n ≡ false → (t.hot n ≡ s.hot n) × (t.archive n ≡ s.archive n))
      → IsConsistent env name (t.hot name) (t.archive name)
      → ((id : ℕ) → view t name id ≡ view s name id)
      → IsPreserved env s t
  unfolding view IsSound
  IsPreserved-at s t name sound others h same = record {
    sound = λ n. elim (Bool-cases (text_eq name n)) [
      | inl e ↦ subst (λ m. IsConsistent env m (t.hot m) (t.archive m)) (text_eq_sound name n e) h
      | inr e ↦ rw ((others n e).0, (others n e).1) (sound n)
    ];
    same_view = λ n id. elim (Bool-cases (text_eq name n)) [
      | inl e ↦ subst (λ m. view t m id ≡ view s m id) (text_eq_sound name n e) (same id)
      | inr e ↦ rw ((others n e).0, (others n e).1) refl
    ];
  }

  IsPreserved-copied :
      (table : ArchivalTable) (rows : List (Row J)) (s : Shards J)
      → IsSound env s
      → IsKeptBatch env table rows s
      → IsPreserved env s (copied_to_archive env table rows s)
  unfolding view copied_to_archive IsSound
  IsPreserved-copied table rows s h kept =
      let name = table.name in
      IsPreserved-at s (copied_to_archive env table rows s) name h (λ n e. (refl, rw e refl))
        (rw (text_eq_refl name)
          (IsConsistent-copied env name (s.hot name) (s.archive name) rows kept (h name)))
        (λ id.
          rw (text_eq_refl name)
            (row_of-copied env name (s.hot name) (s.archive name) rows kept id))

  IsPreserved-moved :
      (table : ArchivalTable) (rows : List (Row J)) (s : Shards J)
      → IsSound env s
      → IsKeptBatch env table rows s
      → IsPreserved env s (deleted_from_hot table rows (copied_to_archive env table rows s))
  unfolding view copied_to_archive deleted_from_hot IsSound
  IsPreserved-moved table rows s h kept =
      let name = table.name in
      IsPreserved-at s (deleted_from_hot table rows (copied_to_archive env table rows s)) name h
        (λ n e. (rw e refl, rw e refl))
        (rw (text_eq_refl name)
          (IsConsistent-moved env name (s.hot name) (s.archive name) rows kept (h name)))
        (λ id.
          rw (text_eq_refl name) (row_of-moved env name (s.hot name) (s.archive name) rows kept id))

  -- The counters of a run do not matter.
  IsPreserved-stated : (s t : Shards J) → IsPreserved env s t → IsPreserved env s (stated t)
  unfolding view IsSound
  IsPreserved-stated s t p = record { sound = p.sound; same_view = p.same_view }

  IsPreserved-copy_to_archive :
      (table : ArchivalTable) (rows : List (Row J)) (s : Shards J)
      → IsSound env s
      → IsKeptBatch env table rows s
      → IsPreserved env s (copy_to_archive env table rows s).1
  unfolding copy_to_archive delete_from_hot view IsSound
  IsPreserved-copy_to_archive table rows s h kept =
      let readable =
        All-weaken (IsKept env table.name (s.hot table.name) (s.archive table.name))
          (IsReadableRow env table.name) (λ r k. k.readable) rows kept in
      elim (Bool-cases (env.is_failing s.statements)) [
        | inl e ↦ rw e record { sound = h; same_view = λ name id. refl }
        | inr e ↦
            rw (e, kept_rows-serialize env table.name read_jsonb-stringify rows readable)
              (elim (Bool-cases (env.is_failing (copied_to_archive env table rows s).statements)) [
                | inl f ↦ rw f (
                    IsPreserved-stated s (copied_to_archive env table rows s)
                      (IsPreserved-copied table rows s h kept))
                | inr f ↦ rw f (IsPreserved-moved table rows s h kept)
              ])
      ]

  IsPreserved-move_batch :
      (table : ArchivalTable) (rows : List (Row J)) (s : Shards J)
      → IsSound env s
      → IsKeptBatch env table rows s
      → IsPreserved env s (move_batch env table rows s).1
  unfolding move_batch
  IsPreserved-move_batch table [] s h kept = IsPreserved-refl s h
  IsPreserved-move_batch table (r ∷ rows) s h kept =
      IsPreserved-copy_to_archive table (r ∷ rows) s h kept

  pub IsPreserved-archive_batch :
      (opts : ArchiveRunOptions) (started_at : ℕ) (table : ArchivalTable) (s : Shards J)
      → IsSound env s
      → IsPreserved env s (archive_batch env opts started_at table s).1
  unfolding archive_batch view IsSound
  IsPreserved-archive_batch opts started_at table s h =
      let hot = s.hot table.name in
      let rows = select_batch env table opts.batch_size hot in
      let kept =
        All-select_batch (IsKept env table.name hot (s.archive table.name)) env table
          opts.batch_size hot (h table.name) in
      let p = IsPreserved-move_batch table rows (stated (ticked s)) h kept in
      elim (Bool-cases (leb (opts.max_runtime_ms + started_at) (env.clock s.readings))) [
        | inl e ↦ rw e record { sound = h; same_view = λ name id. refl }
        | inr e ↦ elim (Bool-cases (env.is_failing s.statements)) [
          | inl f ↦ rw (e, f) record { sound = h; same_view = λ name id. refl }
          | inr f ↦ rw (e, f) record { sound = p.sound; same_view = p.same_view }
        ]
      ]

  -- The sweep of a table.
  pub IsPreserved-archive_table :
      (fuel : ℕ) (opts : ArchiveRunOptions) (started_at : ℕ) (table : ArchivalTable) (moved : ℕ)
      (s : Shards J)
      → IsSound env s
      → IsPreserved env s (archive_table fuel env opts started_at table moved s).2
  unfolding archive_table
  IsPreserved-archive_table zero opts started_at table moved s h = IsPreserved-refl s h
  IsPreserved-archive_table (suc fuel) opts started_at table moved s h =
      let turn = archive_batch env opts started_at table s in
      let p = IsPreserved-archive_batch opts started_at table s h in
      elim turn.0
        as (λ b.
          IsPreserved env s
            (elim b as (λ x. TableEnd × ℕ × Shards J) [
              | past_deadline ↦ (timed_out, moved, turn.1)
              | nothing_left ↦ (swept, moved, turn.1)
              | threw ↦ (failed, moved, turn.1)
              | batch_moved n ↦ archive_table fuel env opts started_at table (moved + n) turn.1
            ]).2) [
              | past_deadline ↦ p
              | nothing_left ↦ p
              | threw ↦ p
              | batch_moved n ↦
                  IsPreserved-trans s turn.1 _ p (
                    IsPreserved-archive_table fuel opts started_at table (moved + n) turn.1 p.sound)
            ]

  IsPreserved-archive_tables :
      (opts : ArchiveRunOptions) (started_at : ℕ) (tables : List ArchivalTable)
      (moved : List (Text × ℕ)) (s : Shards J)
      → IsSound env s
      → IsPreserved env s (archive_tables env opts started_at tables moved s).2
  unfolding archive_tables
  IsPreserved-archive_tables opts started_at [] moved s h = IsPreserved-refl s h
  IsPreserved-archive_tables opts started_at (table ∷ tables) moved s h =
      let end = archive_table (turns table s) env opts started_at table 0 s in
      let counts = moved ++ (table.name, end.1) ∷ [] in
      let p = IsPreserved-archive_table (turns table s) opts started_at table 0 s h in
      elim end.0
        as (λ b.
          IsPreserved env s
            (elim b as (λ x. TableEnd × List (Text × ℕ) × Shards J) [
              | swept ↦ archive_tables env opts started_at tables counts end.2
              | timed_out ↦ (timed_out, counts, end.2)
              | failed ↦ (failed, counts, end.2)
              | unfinished ↦ (unfinished, counts, end.2)
            ]).2) [
              | swept ↦
                  IsPreserved-trans s end.2 _ p
                    (IsPreserved-archive_tables opts started_at tables counts end.2 p.sound)
              | timed_out ↦ p
              | failed ↦ p
              | unfinished ↦ p
            ]

  -- Where the database reads back the JSON that the worker writes, and in every table the ids of
  -- hot rows are unique, these are readable, their copies in the archive are copies, and no row of
  -- another id, hot or archived, has the value of a hot row under a unique key: however a run over
  -- a region ends (done, at its deadline, or with a statement that failed anywhere), a reader who
  -- asks the hot cluster first and then the archive finds under every id of every table the very
  -- row of before, and the tables are again as this theorem wants them.
  pub archive_region-IsPreserved :
      (region : Text) (opts : ArchiveRunOptions) (s : Shards J)
      → IsSound env s
      → IsPreserved env s (archive_region env region opts s).1
  unfolding archive_region view IsSound
  archive_region-IsPreserved region opts s h =
      let p =
        IsPreserved-archive_tables opts (env.clock s.readings) archival_tables [] (ticked s) h in
      record { sound = p.sound; same_view = p.same_view }
