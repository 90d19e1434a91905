-- ===== src/Jobs/Rows/Laws.antt =====
-- What the statements of the archival do to a table: selecting, inserting and deleting by ids.
use quickbite_order_service.Prelude.{
  ℕ, ◌≡◌, refl, Bool, true, false, none, some, List, [], ◌∷◌, map, All, any, ◌==◌, if◌then◌else◌,
  is_some, arith,
}
use mathlib.Core.Path.{subst}
use quickbite_order_service.Prelude.{inl, inr, Bool-cases, Option-cases, ==_iff}
use quickbite_order_service.Prelude.Sort.{
  order_by, All-weaken, All-take, All-select_where, All-order_by,
}
use quickbite_order_service.Prelude.Rows.{select_where, find_where, insert_row, find_where-append}
use quickbite_order_service.Prelude.Text.{Text}
use quickbite_order_service.Jobs.Rows.{
  Row, ArchivalTable, SweepEnv, has_id, find_id, is_prior_year, select_batch, insert_ignore,
  in_conflict, is_apart, delete_ids,
}

module _ {J : Type 0} where
  -- What holds of the rows of a table holds of a batch of it.
  pub All-select_batch :
      (P : Row J → Type 0) (env : SweepEnv J) (table : ArchivalTable) (limit : ℕ)
      (rows : List (Row J))
      → All P rows
      → All P (select_batch env table limit rows)
  unfolding select_batch
  All-select_batch P env table limit rows h =
      let p = is_prior_year env table.ts_column in
      All-take P limit (order_by (λ r. r.id) (select_where p rows)) (
        All-order_by (λ r. r.id) P (select_where p rows)
          (All-weaken (λ x. P x × (p x ≡ true)) P (λ x q. q.0) (select_where p rows)
            (All-select_where P p rows h)))

  -- The id is among the ids of the rows exactly where a row is found.
  pub any-ids :
      (id : ℕ) (rows : List (Row J))
      → any (λ i. id == i) (map (λ r. r.id) rows) ≡ is_some (find_id id rows)
  any-ids id [] = refl
  any-ids id (r ∷ rows) = ground (arith, any-ids id rows)

  pub find_id-delete_ids :
      (id : ℕ) (ids : List ℕ) (rows : List (Row J))
      → find_id id (delete_ids ids rows)
        ≡ (if any (λ i. id == i) ids then none else find_id id rows)
  unfolding delete_ids
  find_id-delete_ids id ids [] = ground arith
  find_id-delete_ids id ids (r ∷ rows) = ground (arith, find_id-delete_ids id ids rows)

  find_id-insert_same :
      (r : Row J) (table : List (Row J))
      → find_id r.id (if is_some (find_id r.id table) then table else insert_row r table)
        ≡ elim (find_id r.id table) [ none ↦ find_id r.id (r ∷ []) | some a ↦ some a ]
  find_id-insert_same r table = elim (Option-cases (find_id r.id table)) [
    | inl e ↦ ground (arith, find_where-append (has_id r.id) table (r ∷ []))
    | inr (a, e) ↦ ground arith
  ]

  find_id-insert_one :
      (id : ℕ) (r : Row J) (table : List (Row J))
      → find_id id (if is_some (find_id r.id table) then table else insert_row r table)
        ≡ elim (find_id id table) [ none ↦ find_id id (r ∷ []) | some a ↦ some a ]
  find_id-insert_one id r table = elim (Bool-cases (r.id == id)) [
    | inl e ↦
        subst
          (λ i.
            find_id i (if is_some (find_id r.id table) then table else insert_row r table)
            ≡ elim (find_id i table) [ none ↦ find_id i (r ∷ []) | some a ↦ some a ])
          ((==_iff r.id id).0 e) (find_id-insert_same r table)
    | inr e ↦ ground (arith, find_where-append (has_id id) table (r ∷ []))
  ]

  All-insert_if :
      (P : Row J → Type 0) (b : Bool) (r : Row J) (table : List (Row J))
      → P r
      → All P table
      → All P (if b then table else insert_row r table)
  All-insert_if P true r table h t = t
  All-insert_if P false r [] h t = (h, tt)
  All-insert_if P false r (x ∷ table) h t = (t.0, All-insert_if P false r table h t.1)

  -- The rows of the table agree with a row on a unique key only if they have its id.
  abbrev pub IsApartFrom : SweepEnv J → Text → List (Row J) → Row J → Type 0
  IsApartFrom env name table r = All (λ x. is_apart env name r x ≡ true) table

  in_conflict_lem :
      (env : SweepEnv J) (name : Text) (r : Row J) (table : List (Row J))
      → IsApartFrom env name table r
      → is_some (find_where (in_conflict env name r) table) ≡ is_some (find_id r.id table)
  in_conflict_lem env name r [] h = refl
  in_conflict_lem env name r (x ∷ table) h =
      let rest = in_conflict_lem env name r table h.1 in ground (arith, h.0)

  apart_tail :
      (env : SweepEnv J) (name : Text) (r : Row J) (rest table rows : List (Row J))
      → All (IsApartFrom env name table) rows
      → All (IsApartFrom env name (r ∷ rest)) rows
      → All
          (IsApartFrom env name (
            if is_some (find_where (in_conflict env name r) table)
            then table
            else insert_row r table))
          rows
  apart_tail env name r rest table [] h a = tt
  apart_tail env name r rest table (q ∷ rows) h a = (
    All-insert_if (λ x. is_apart env name q x ≡ true)
        (is_some (find_where (in_conflict env name r) table)) r table a.0.0 h.0,
    apart_tail env name r rest table rows h.1 a.1,
  )

  -- The rows already there are first.
  pub find_id-insert_ignore :
      (env : SweepEnv J) (name : Text) (id : ℕ) (rows table : List (Row J))
      → All (IsApartFrom env name table) rows
      → All (IsApartFrom env name rows) rows
      → find_id id (insert_ignore env name rows table)
        ≡ elim (find_id id table) [ none ↦ find_id id rows | some r ↦ some r ]
  unfolding insert_ignore
  find_id-insert_ignore env name id [] table h a = ground arith
  find_id-insert_ignore env name id (r ∷ rows) table h a =
      let next =
        if is_some (find_where (in_conflict env name r) table) then table else insert_row r table in
      rw
        (
          find_id-insert_ignore env name id rows next
              (apart_tail env name r rows table rows h.1 a.1)
              (All-weaken (IsApartFrom env name (r ∷ rows)) (IsApartFrom env name rows) (λ q p. p.1)
                rows a.1),
          in_conflict_lem env name r table h.0,
          find_id-insert_one id r table,
        )
        (ground arith)

  pub All-insert_ignore :
      (P : Row J → Type 0) (env : SweepEnv J) (name : Text) (rows table : List (Row J))
      → All P rows
      → All P table
      → All P (insert_ignore env name rows table)
  unfolding insert_ignore
  All-insert_ignore P env name [] table h t = t
  All-insert_ignore P env name (r ∷ rows) table h t =
      All-insert_ignore P env name rows _ h.1
        (All-insert_if P (is_some (find_where (in_conflict env name r) table)) r table h.0 t)
