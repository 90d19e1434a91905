-- ===== src/Jobs/Archival/Turns.antt =====
-- What one turn of the loop over the batches of a table is good for.
use quickbite_order_service.Prelude.{
  ℕ, ◌+◌, ◌<◌, ◌≡◌, refl, sym, ◌∙◌, true, false, not, some, List, [], ◌∷◌, map, any, ◌==◌, leb,
  length, length-take, ap, arith, inl, inr, Bool-cases,
}
use quickbite_order_service.Prelude.Text.{Text, text_eq, text_eq_refl}
use quickbite_order_service.Prelude.Rows.{select_where}
use quickbite_order_service.Jobs.Rows.{
  Row, ArchivalTable, ArchiveRunOptions, SweepEnv, has_id, is_prior_year, select_batch, delete_ids,
}
use quickbite_order_service.Jobs.Rows.RoundTrip.{IsReadableRow, kept_rows-serialize}
use quickbite_order_service.Prelude.Sort.{
  order_by, length-order_by, All-weaken, nil_of_length, length-select_where_lt,
}
use quickbite_order_service.Jobs.Rows.Laws.{All-select_batch}
use quickbite_order_service.Jobs.Archival.{
  Shards, BatchEnd, past_deadline, nothing_left, threw, batch_moved, ticked, stated,
  copied_to_archive, deleted_from_hot, delete_from_hot, copy_to_archive, move_batch, archive_batch,
}
use quickbite_order_service.Jobs.Archival.View.{IsKept}
use quickbite_order_service.Jobs.Archival.Keeps.{IsSound, IsKeptBatch}

module _ {J : Type 0} where
  -- An empty batch is of no rows to select.
  select_batch-empty :
      (env : SweepEnv J) (table : ArchivalTable) (limit : ℕ) (rows : List (Row J))
      → 0 < limit
      → select_batch env table limit rows ≡ []
      → select_where (is_prior_year env table.ts_column) rows ≡ []
  unfolding select_batch
  select_batch-empty env table limit rows positive e =
      let p = is_prior_year env table.ts_column in
      nil_of_length (select_where p rows) (
        omega (
          arith,
          length-take limit (order_by (λ r. r.id) (select_where p rows)),
          length-order_by (λ r. r.id) (select_where p rows),
          ap length e,
        ))

  delete_ids-shorter :
      (env : SweepEnv J) (name : Text) (hot archive : List (Row J)) (r : Row J)
      (rows : List (Row J))
      → IsKept env name hot archive r
      → length (delete_ids (map (λ b. b.id) (r ∷ rows)) hot) < length hot
  unfolding delete_ids
  delete_ids-shorter env name hot archive r rows k =
      length-select_where_lt (λ x. not (any (λ id. x.id == id) (map (λ b. b.id) (r ∷ rows))))
        (has_id r.id) hot r k.in_hot (ground arith)

-- The statements succeed, there is time at each reading of the clock, and batches have rows.
pub record IsCalm {J : Type 0} (env : SweepEnv J) (opts : ArchiveRunOptions) (started_at : ℕ)
    : Type 0 where
  pub in_time : (k : ℕ) → leb (opts.max_runtime_ms + started_at) (env.clock k) ≡ false
  pub succeeds : (k : ℕ) → env.is_failing k ≡ false
  pub positive : 0 < opts.batch_size

-- A turn deletes rows, or it is the last and, where all is calm, because no row is left.
abbrev pub IsProgress :
    {J : Type 0}
    → SweepEnv J
    → ArchiveRunOptions
    → ℕ
    → ArchivalTable
    → Shards J
    → BatchEnd
    → Shards J
    → Type 0
IsProgress env opts started_at table s past_deadline t = ¬ IsCalm env opts started_at
IsProgress env opts started_at table s threw t = ¬ IsCalm env opts started_at
IsProgress env opts started_at table s nothing_left t =
    IsCalm env opts started_at
    → select_where (is_prior_year env table.ts_column) (t.hot table.name) ≡ []
IsProgress env opts started_at table s (batch_moved n) t =
    length (t.hot table.name) < length (s.hot table.name)

pub record IsTurn {J : Type 0} (env : SweepEnv J) (opts : ArchiveRunOptions) (started_at : ℕ)
    (table : ArchivalTable) (s : Shards J) (turn : BatchEnd × Shards J) : Type 0 where
  pub others : (n : Text) → text_eq table.name n ≡ false → turn.1.hot n ≡ s.hot n
  pub progress : IsProgress env opts started_at table s turn.0 turn.1

impossible_test : true ≡ false → ⊥
impossible_test h = cc

module _ {J : Type 0} (env : SweepEnv J)
    (read_jsonb-stringify : (j : J) → env.read_jsonb (env.json_stringify j) ≡ some j)
    (opts : ArchiveRunOptions) (started_at : ℕ) (table : ArchivalTable) where
  copy_to_archive-IsTurn :
      (r : Row J) (rows : List (Row J)) (s : Shards J)
      → IsKeptBatch env table (r ∷ rows) s
      → IsTurn env opts started_at table s (copy_to_archive env table (r ∷ rows) s)
  unfolding copy_to_archive delete_from_hot copied_to_archive deleted_from_hot
  copy_to_archive-IsTurn r rows s kept =
      let readable =
        All-weaken (IsKept env table.name (s.hot table.name) (s.archive table.name))
          (IsReadableRow env table.name) (λ r k. k.readable) (r ∷ rows) kept in
      elim (Bool-cases (env.is_failing s.statements)) [
        | inl e ↦ rw e record {
          others = λ n h. refl;
          progress = λ calm. impossible_test (sym e ∙ calm.succeeds s.statements);
        }
        | inr e ↦
            rw (e, kept_rows-serialize env table.name read_jsonb-stringify (r ∷ rows) readable)
              (elim (Bool-cases (env.is_failing (s.statements + 1))) [
                | inl f ↦ rw f record {
                  others = λ n h. refl;
                  progress = λ calm. impossible_test (sym f ∙ calm.succeeds (s.statements + 1));
                }
                | inr f ↦ rw f record {
                  others = λ n h. rw h refl;
                  progress = rw (text_eq_refl table.name) (
                      delete_ids-shorter env table.name (s.hot table.name) (s.archive table.name) r
                        rows kept.0);
                }
              ])
      ]

  move_batch-IsTurn :
      (rows : List (Row J)) (s : Shards J)
      → (0 < opts.batch_size
          → rows ≡ []
          → select_where (is_prior_year env table.ts_column) (s.hot table.name) ≡ [])
      → IsKeptBatch env table rows s
      → IsTurn env opts started_at table s (move_batch env table rows s)
  unfolding move_batch
  move_batch-IsTurn [] s none_left kept = record {
    others = λ n h. refl;
    progress = λ calm. none_left calm.positive refl;
  }
  move_batch-IsTurn (r ∷ rows) s none_left kept = copy_to_archive-IsTurn r rows s kept

  -- The counters before the turn do not matter.
  IsTurn-stated :
      (s : Shards J) (turn : BatchEnd × Shards J)
      → IsTurn env opts started_at table (stated (ticked s)) turn
      → IsTurn env opts started_at table s turn
  IsTurn-stated s (past_deadline, t) k = record { others = k.others; progress = k.progress }
  IsTurn-stated s (nothing_left, t) k = record { others = k.others; progress = k.progress }
  IsTurn-stated s (threw, t) k = record { others = k.others; progress = k.progress }
  IsTurn-stated s (batch_moved n, t) k = record { others = k.others; progress = k.progress }

  pub archive_batch-IsTurn :
      (s : Shards J)
      → IsSound env s
      → IsTurn env opts started_at table s (archive_batch env opts started_at table s)
  unfolding archive_batch IsSound
  archive_batch-IsTurn s h =
      let hot = s.hot table.name in
      let p =
        All-select_batch (IsKept env table.name hot (s.archive table.name)) env table
          opts.batch_size hot (h table.name) in
      let turn =
        move_batch-IsTurn (select_batch env table opts.batch_size hot) (stated (ticked s))
          (select_batch-empty env table opts.batch_size hot) p in
      elim (Bool-cases (leb (opts.max_runtime_ms + started_at) (env.clock s.readings))) [
        | inl e ↦ rw e record {
          others = λ n _. refl;
          progress = λ calm. impossible_test (sym e ∙ calm.in_time s.readings);
        }
        | inr e ↦ elim (Bool-cases (env.is_failing s.statements)) [
          | inl f ↦
              rw (e, f)
                record {
                  others = λ n _. refl;
                  progress = λ calm. impossible_test (sym f ∙ calm.succeeds s.statements);
                }
          | inr f ↦ rw (e, f) (IsTurn-stated s _ turn)
        ]
      ]
