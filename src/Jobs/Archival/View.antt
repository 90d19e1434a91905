-- ===== src/Jobs/Archival/View.antt =====
-- One table on its two clusters, seen through both: what copying a batch of it and deleting the
-- batch leave of it.
use mathlib.Core.Path.{subst}
use quickbite_order_service.Prelude.{
  ℕ, ◌≡◌, sym, not, Bool, true, Option, none, some, List, map, All, any, ◌==◌, if◌then◌else◌,
  is_some, arith, inl, inr, Option-cases, ==_iff,
}
use quickbite_order_service.Prelude.Text.{Text}
use quickbite_order_service.Prelude.Rows.{find_where_sound}
use quickbite_order_service.Jobs.Rows.{
  Row, SweepEnv, has_id, find_id, is_apart, insert_ignore, delete_ids,
}
use quickbite_order_service.Jobs.Rows.RoundTrip.{IsReadableRow}
use quickbite_order_service.Prelude.Sort.{All-weaken, All-select_where, All-find_where}
use quickbite_order_service.Jobs.Rows.Laws.{
  any-ids, find_id-delete_ids, find_id-insert_ignore, IsApartFrom, All-insert_ignore,
}

module _ {J : Type 0} where
  -- The row of an id, for a reader who asks the hot cluster first and then the archive.
  abbrev pub row_of : ℕ → List (Row J) → List (Row J) → Option (Row J)
  row_of id hot archive = elim (find_id id hot) [ none ↦ find_id id archive | some r ↦ some r ]

  -- The row is the one of its id in the hot table, and in the archive there is none or the same; and
  -- no row of another id, hot or archived, has its value under a unique key.
  pub record IsKept (env : SweepEnv J) (table : Text) (hot archive : List (Row J)) (r : Row J)
      : Type 0 where
    pub in_hot : find_id r.id hot ≡ some r
    pub in_archive : (a : Row J) → find_id r.id archive ≡ some a → a ≡ r
    pub readable : IsReadableRow env table r
    pub apart_hot : IsApartFrom env table hot r
    pub apart_archive : IsApartFrom env table archive r

  abbrev pub IsConsistent : SweepEnv J → Text → List (Row J) → List (Row J) → Type 0
  IsConsistent env table hot archive = All (IsKept env table hot archive) hot

module _ {J : Type 0} (env : SweepEnv J) (table : Text) (hot archive batch : List (Row J))
    (kept : All (IsKept env table hot archive) batch) where
  -- A row of the batch is the row of its id.
  find_id-batch : (id : ℕ) (b : Row J) → find_id id batch ≡ some b → find_id id hot ≡ some b
  find_id-batch id b e =
      let same = (==_iff b.id id).0 (find_where_sound (has_id id) batch b e) in
      let k = All-find_where (IsKept env table hot archive) (has_id id) batch b kept e in
      subst (λ i. find_id i hot ≡ some b) same k.in_hot

  -- The batch is of hot rows.
  All-batch : (P : Row J → Type 0) → All P hot → All P batch
  All-batch P h =
      All-weaken (IsKept env table hot archive) P
        (λ r k. All-find_where P (has_id r.id) hot r h k.in_hot) batch kept

  archived-batch :
      (id : ℕ) (a b : Row J) → find_id id batch ≡ some b → find_id id archive ≡ some a → a ≡ b
  archived-batch id a b e h =
      let same = (==_iff b.id id).0 (find_where_sound (has_id id) batch b e) in
      let k = All-find_where (IsKept env table hot archive) (has_id id) batch b kept e in
      k.in_archive a (subst (λ i. find_id i archive ≡ some a) (sym same) h)

  abbrev copied : List (Row J)
  copied = insert_ignore env table batch archive

  abbrev left : List (Row J)
  left = delete_ids (map (λ r. r.id) batch) hot

  find_id-copied :
      (id : ℕ)
      → find_id id copied ≡ elim (find_id id archive) [ none ↦ find_id id batch | some r ↦ some r ]
  find_id-copied id =
      find_id-insert_ignore env table id batch archive
        (All-weaken (IsKept env table hot archive) (IsApartFrom env table archive)
          (λ r k. k.apart_archive) batch kept)
        (All-weaken (IsKept env table hot archive) (IsApartFrom env table batch)
          (λ r k. All-batch (λ x. is_apart env table r x ≡ true) k.apart_hot) batch kept)

  find_id-left :
      (id : ℕ) → find_id id left ≡ (if is_some (find_id id batch) then none else find_id id hot)
  find_id-left id = rw (← any-ids id batch) (find_id-delete_ids id (map (λ r. r.id) batch) hot)

  -- To copy a batch changes no row of the reader …
  pub row_of-copied : (id : ℕ) → row_of id hot copied ≡ row_of id hot archive
  row_of-copied id = elim (Option-cases (find_id id hot)) [
    | inl e ↦ elim (Option-cases (find_id id batch)) [
      | inl none_b ↦ ground (arith, find_id-copied id)
      | inr (b, some_b) ↦ ground (arith, find_id-batch id b some_b)
    ]
    | inr (r, e) ↦ ground arith
  ]

  -- … and neither does to delete it then.
  pub row_of-moved : (id : ℕ) → row_of id left copied ≡ row_of id hot archive
  row_of-moved id = elim (Option-cases (find_id id batch)) [
    | inl e ↦ ground (arith, find_id-copied id, find_id-left id)
    | inr (b, e) ↦ elim (Option-cases (find_id id archive)) [
      | inl none_a ↦ ground (arith, find_id-copied id, find_id-left id, find_id-batch id b e)
      | inr (a, some_a) ↦ ground (
        arith,
        find_id-copied id,
        find_id-left id,
        find_id-batch id b e,
        archived-batch id a b e some_a,
      )
    ]
  ]

  IsKept-copied : (r : Row J) → IsKept env table hot archive r → IsKept env table hot copied r
  IsKept-copied r k = record {
    in_hot = k.in_hot;
    in_archive = λ a e. elim (Option-cases (find_id r.id archive)) [
      | inl none_a ↦ ground (arith, find_id-copied r.id, find_id-batch r.id a, k.in_hot)
      | inr (a', some_a) ↦ ground (arith, find_id-copied r.id, k.in_archive a' some_a)
    ];
    readable = k.readable;
    apart_hot = k.apart_hot;
    apart_archive =
        All-insert_ignore (λ x. is_apart env table r x ≡ true) env table batch archive
          (All-batch (λ x. is_apart env table r x ≡ true) k.apart_hot) k.apart_archive;
  }

  pub IsConsistent-copied : IsConsistent env table hot archive → IsConsistent env table hot copied
  IsConsistent-copied h =
      All-weaken (IsKept env table hot archive) (IsKept env table hot copied) IsKept-copied hot h

  abbrev is_left : Row J → Bool
  is_left r = not (any (λ id. r.id == id) (map (λ b. b.id) batch))

  IsKept-left :
      (r : Row J)
      → IsKept env table hot copied r
        × (not (any (λ id. r.id == id) (map (λ b. b.id) batch)) ≡ true)
      → IsKept env table left copied r
  unfolding delete_ids
  IsKept-left r (k, stays) = record {
    in_hot = ground (arith, find_id-left r.id, any-ids r.id batch, k.in_hot);
    in_archive = k.in_archive;
    readable = k.readable;
    apart_hot =
        All-weaken (λ x. (is_apart env table r x ≡ true) × (is_left x ≡ true))
          (λ x. is_apart env table r x ≡ true) (λ x p. p.0) left
          (All-select_where (λ x. is_apart env table r x ≡ true) is_left hot k.apart_hot);
    apart_archive = k.apart_archive;
  }

  pub IsConsistent-moved : IsConsistent env table hot archive → IsConsistent env table left copied
  unfolding delete_ids
  IsConsistent-moved h =
      All-weaken (λ r. IsKept env table hot copied r × (is_left r ≡ true))
        (IsKept env table left copied) IsKept-left left
        (All-select_where (IsKept env table hot copied) is_left hot (IsConsistent-copied h))
