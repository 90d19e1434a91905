-- ===== src/Jobs/Archival/Drains.antt =====
-- A sweep ends, and where nothing fails and there is time no row of a prior year is left hot.
use quickbite_order_service.Prelude.{
  ℕ, zero, suc, ◌+◌, ◌++◌, ◌<◌, ◌≡◌, ◌≢◌, refl, ◌∙◌, false, some, List, [], ◌∷◌, All, length, arith,
}
use quickbite_order_service.Prelude.Text.{Text, text_eq}
use quickbite_order_service.Prelude.Rows.{select_where}
use quickbite_order_service.Jobs.Rows.{ArchivalTable, ArchiveRunOptions, SweepEnv, is_prior_year}
use quickbite_order_service.Jobs.Archival.{
  Shards, past_deadline, nothing_left, threw, batch_moved, TableEnd, swept, timed_out, failed,
  unfinished, out_of_fuel, ticked, archive_batch, archive_table, archive_tables, archival_tables,
  turns, swept_region, archive_region, region_end,
}
use quickbite_order_service.Jobs.Archival.Keeps.{
  IsSound, IsPreserved-archive_batch, IsPreserved-archive_table,
}
use quickbite_order_service.Jobs.Archival.Turns.{IsCalm, IsProgress, archive_batch-IsTurn}

-- What an end tells of the tables `P`, which are drained where all is calm.
abbrev IsEnd : Type 0 → Type 0 → TableEnd → Type 0
IsEnd C P swept = C → P
IsEnd C P timed_out = ¬ C
IsEnd C P failed = ¬ C
IsEnd C P unfinished = ⊥

IsEnd-both : (C P Q : Type 0) (e : TableEnd) → (C → P) → IsEnd C Q e → IsEnd C (P × Q) e
IsEnd-both C P Q swept p q = λ c. (p c, q c)
IsEnd-both C P Q timed_out p q = q
IsEnd-both C P Q failed p q = q
IsEnd-both C P Q unfinished p q = q

module _ {J : Type 0} where
  -- No row of the table that is to be archived is hot.
  abbrev pub IsDrained : SweepEnv J → Shards J → ArchivalTable → Type 0
  IsDrained env s table = select_where (is_prior_year env table.ts_column) (s.hot table.name) ≡ []

  record IsTableRun (env : SweepEnv J) (opts : ArchiveRunOptions) (started_at : ℕ)
      (table : ArchivalTable) (s : Shards J) (run : TableEnd × ℕ × Shards J) : Type 0 where
    others : (n : Text) → text_eq table.name n ≡ false → run.2.hot n ≡ s.hot n
    ends : IsEnd (IsCalm env opts started_at) (IsDrained env run.2 table) run.0

module _ {J : Type 0} (env : SweepEnv J)
    (read_jsonb-stringify : (j : J) → env.read_jsonb (env.json_stringify j) ≡ some j)
    (opts : ArchiveRunOptions) (started_at : ℕ) where
  archive_table-IsTableRun :
      (fuel : ℕ) (table : ArchivalTable) (moved : ℕ) (s : Shards J)
      → IsSound env s
      → length (s.hot table.name) < fuel
      → IsTableRun env opts started_at table s
          (archive_table fuel env opts started_at table moved s)
  unfolding archive_table
  archive_table-IsTableRun zero table moved s h enough = absurd (omega arith)
  archive_table-IsTableRun (suc fuel) table moved s h enough =
      let turn = archive_batch env opts started_at table s in
      let k = archive_batch-IsTurn env read_jsonb-stringify opts started_at table s h in
      let kept = IsPreserved-archive_batch env read_jsonb-stringify opts started_at table s h in
      (elim turn.0
          as (λ b.
            IsProgress env opts started_at table s b turn.1
            → IsTableRun env opts started_at table s (elim b as (λ x. TableEnd × ℕ × Shards J) [
              | past_deadline ↦ (timed_out, moved, turn.1)
              | nothing_left ↦ (swept, moved, turn.1)
              | threw ↦ (failed, moved, turn.1)
              | batch_moved n ↦ archive_table fuel env opts started_at table (moved + n) turn.1
            ])) [
              | past_deadline ↦ λ p. record { others = k.others; ends = p }
              | nothing_left ↦ λ p. record { others = k.others; ends = p }
              | threw ↦ λ p. record { others = k.others; ends = p }
              | batch_moved n ↦ λ p.
                  let rest =
                    archive_table-IsTableRun fuel table (moved + n) turn.1 kept.sound
                      (omega arith) in
                  record { others = λ m e. rest.others m e ∙ k.others m e; ends = rest.ends }
            ])
        k.progress

  -- The names of the tables are not that of the given one; and no two are the same.
  abbrev IsOther : Text → ArchivalTable → Type 0
  IsOther name table = text_eq table.name name ≡ false

  abbrev AreDistinct : List ArchivalTable → Type 0
  AreDistinct [] = Unit
  AreDistinct (table ∷ tables) = All (IsOther table.name) tables × AreDistinct tables

  -- The sweep of the other tables leaves a table alone.
  archive_tables-others :
      (tables : List ArchivalTable) (moved : List (Text × ℕ)) (s : Shards J) (name : Text)
      → IsSound env s
      → All (IsOther name) tables
      → (archive_tables env opts started_at tables moved s).2.hot name ≡ s.hot name
  unfolding archive_tables
  archive_tables-others [] moved s name h t = refl
  archive_tables-others (table ∷ tables) moved s name h (o, t) =
      let end = archive_table (turns table s) env opts started_at table 0 s in
      let counts = moved ++ (table.name, end.1) ∷ [] in
      let run = archive_table-IsTableRun (turns table s) table 0 s h (omega arith) in
      let kept =
        IsPreserved-archive_table env read_jsonb-stringify (turns table s) opts started_at table 0 s
          h in
      elim end.0
        as (λ b.
          (elim b as (λ x. TableEnd × List (Text × ℕ) × Shards J) [
            | swept ↦ archive_tables env opts started_at tables counts end.2
            | timed_out ↦ (timed_out, counts, end.2)
            | failed ↦ (failed, counts, end.2)
            | unfinished ↦ (unfinished, counts, end.2)
          ]).2.hot
            name
          ≡ s.hot name) [
            | swept ↦
                archive_tables-others tables counts end.2 name kept.sound t ∙ run.others name o
            | timed_out ↦ run.others name o
            | failed ↦ run.others name o
            | unfinished ↦ run.others name o
          ]

  archive_tables-IsEnd :
      (tables : List ArchivalTable) (moved : List (Text × ℕ)) (s : Shards J)
      → IsSound env s
      → AreDistinct tables
      → IsEnd
          (IsCalm env opts started_at)
          (All (IsDrained env (archive_tables env opts started_at tables moved s).2) tables)
          (archive_tables env opts started_at tables moved s).0
  unfolding archive_tables
  archive_tables-IsEnd [] moved s h d = λ calm. tt
  archive_tables-IsEnd (table ∷ tables) moved s h (o, d) =
      let end = archive_table (turns table s) env opts started_at table 0 s in
      let counts = moved ++ (table.name, end.1) ∷ [] in
      let run = archive_table-IsTableRun (turns table s) table 0 s h (omega arith) in
      let kept =
        IsPreserved-archive_table env read_jsonb-stringify (turns table s) opts started_at table 0 s
          h in
      let same = archive_tables-others tables counts end.2 table.name kept.sound o in
      let rest = archive_tables-IsEnd tables counts end.2 kept.sound d in
      (elim end.0
          as (λ b.
            IsEnd (IsCalm env opts started_at) (IsDrained env end.2 table) b
            → IsEnd (IsCalm env opts started_at)
                (All
                  (IsDrained env
                    (elim b as (λ x. TableEnd × List (Text × ℕ) × Shards J) [
                      | swept ↦ archive_tables env opts started_at tables counts end.2
                      | timed_out ↦ (timed_out, counts, end.2)
                      | failed ↦ (failed, counts, end.2)
                      | unfinished ↦ (unfinished, counts, end.2)
                    ]).2)
                  (table ∷ tables))
                (elim b as (λ x. TableEnd × List (Text × ℕ) × Shards J) [
                  | swept ↦ archive_tables env opts started_at tables counts end.2
                  | timed_out ↦ (timed_out, counts, end.2)
                  | failed ↦ (failed, counts, end.2)
                  | unfinished ↦ (unfinished, counts, end.2)
                ]).0) [
                  | swept ↦ λ p.
                      let after = archive_tables env opts started_at tables counts end.2 in
                      IsEnd-both (IsCalm env opts started_at) (IsDrained env after.2 table)
                        (All (IsDrained env after.2) tables) after.0 (λ calm. rw same (p calm)) rest
                  | timed_out ↦ λ p. p
                  | failed ↦ λ p. p
                  | unfinished ↦ λ p. p
                ])
        run.ends

module _ {J : Type 0} (env : SweepEnv J)
    (read_jsonb-stringify : (j : J) → env.read_jsonb (env.json_stringify j) ≡ some j) where
  region-IsEnd :
      (opts : ArchiveRunOptions) (s : Shards J)
      → IsSound env s
      → IsEnd
          (IsCalm env opts (env.clock s.readings))
          (All (IsDrained env (swept_region env opts s).2) archival_tables)
          (swept_region env opts s).0
  unfolding IsSound text_eq
  region-IsEnd opts s h =
      archive_tables-IsEnd env read_jsonb-stringify opts (env.clock s.readings) archival_tables []
        (ticked s) h
        (
          (refl, (refl, (refl, (refl, (refl, tt))))),
          (
            (refl, (refl, (refl, (refl, tt)))),
            ((refl, (refl, (refl, tt))), ((refl, (refl, tt)), ((refl, tt), (tt, tt)))),
          ),
        )

  region_end-Terminates :
      (C P : Type 0) (region : Text) (moved : List (Text × ℕ)) (e : TableEnd)
      → IsEnd C P e
      → region_end region moved e ≢ out_of_fuel
  region_end-Terminates C P region moved swept p q = cc
  region_end-Terminates C P region moved timed_out p q = cc
  region_end-Terminates C P region moved failed p q = cc
  region_end-Terminates C P region moved unfinished p q = absurd p

  -- Where the database reads back the JSON that the worker writes, and in every table the ids of
  -- hot rows are unique, these are readable, their copies in the archive are copies, and no row of
  -- another id, hot or archived, has the value of a hot row under a unique key: every run over a
  -- region ends, whatever statements fail and however large the batches are.
  pub archive_region-Terminates :
      (region : Text) (opts : ArchiveRunOptions) (s : Shards J)
      → IsSound env s
      → (archive_region env region opts s).0 ≢ out_of_fuel
  unfolding archive_region
  archive_region-Terminates region opts s h =
      let end = swept_region env opts s in
      region_end-Terminates (IsCalm env opts (env.clock s.readings))
        (All (IsDrained env end.2) archival_tables) region end.1 end.0 (region-IsEnd opts s h)
