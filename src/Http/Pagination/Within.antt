-- ===== src/Http/Pagination/Within.antt =====
-- A page holds nothing but rows of the query.
use mathlib.Core.Path.{subst}
use quickbite_order_service.Prelude.{
  ℕ, ◌+◌, ◌≡◌, true, Option, none, some, List, [], ◌∷◌, ltb, length, take, All, inl, inr,
  Bool-cases,
}
use quickbite_order_service.Prelude.Text.{Text}
use quickbite_order_service.Prelude.Rows.{select_where}
use quickbite_order_service.Prelude.Sort.{
  order_by, All-weaken, All-take, All-select_where, All-order_by,
}
use quickbite_order_service.Http.Pagination.{
  PaginationParams, SortOrder, asc, desc, SortColumns, is_past, reversed_onto, sorted, past_cursor,
  apply_cursor_pagination, build_pagination_result, camel_to_snake,
}

module _ {A : Type 0} (P : A → Type 0) where
  All-reversed_onto : (xs ys : List A) → All P xs → All P ys → All P (reversed_onto xs ys)
  All-reversed_onto [] ys h t = t
  All-reversed_onto (x ∷ xs) ys (hx, h) t = All-reversed_onto xs (x ∷ ys) h (hx, t)

  All-sorted :
      (order : SortOrder) (key : A → ℕ) (rows : List A) → All P rows → All P (sorted order key rows)
  unfolding sorted
  All-sorted asc key rows h = All-order_by key P rows h
  All-sorted desc key rows h =
      All-reversed_onto (order_by key rows) [] (All-order_by key P rows h) tt

  -- What holds of the rows that an answer has, if there is one.
  abbrev AllOf : Option (List A) → Type 0
  AllOf none = Unit
  AllOf (some rows) = All P rows

  AllOf-past :
      (order : SortOrder) (key : A → ℕ) (rows : List A) (o : Option ℕ)
      → All P rows
      → AllOf (elim o [ none ↦ none | some k ↦ some (select_where (is_past order k key) rows) ])
  AllOf-past order key rows none h = tt
  AllOf-past order key rows (some k) h =
      let p = is_past order k key in
      All-weaken (λ r. P r × (p r ≡ true)) P (λ r q. q.0) (select_where p rows)
        (All-select_where P p rows h)

  AllOf-past_cursor :
      (columns : SortColumns A) (params : PaginationParams) (key : A → ℕ) (rows : List A)
      (cursor : Option Text)
      → All P rows
      → AllOf (past_cursor columns (record params { cursor = cursor }) key rows)
  unfolding past_cursor
  AllOf-past_cursor columns params key rows none h = h
  AllOf-past_cursor columns params key rows (some []) h = h
  AllOf-past_cursor columns params key rows (some (c ∷ cs)) h =
      AllOf-past params.sort_order key rows (columns.read_key (c ∷ cs)) h

  AllOf-sorted :
      (order : SortOrder) (limit : ℕ) (key : A → ℕ) (o : Option (List A))
      → AllOf o
      → AllOf (elim o [ none ↦ none | some rest ↦ some (take (limit + 1) (sorted order key rest)) ])
  AllOf-sorted order limit key none h = tt
  AllOf-sorted order limit key (some rest) h =
      All-take P (limit + 1) (sorted order key rest) (All-sorted order key rest h)

  AllOf-keyed :
      (columns : SortColumns A) (params : PaginationParams) (rows : List A) (o : Option (A → ℕ))
      → All P rows
      → AllOf (elim o as (λ x. Option (List A)) [
        | none ↦ none
        | some key ↦ elim (past_cursor columns params key rows) [
          | none ↦ none
          | some rest ↦ some (take (params.limit + 1) (sorted params.sort_order key rest))
        ]
      ])
  AllOf-keyed columns params rows none h = tt
  AllOf-keyed columns params rows (some key) h =
      AllOf-sorted params.sort_order params.limit key (past_cursor columns params key rows)
        (AllOf-past_cursor columns params key rows params.cursor h)

  AllOf-apply_cursor_pagination :
      (columns : SortColumns A) (params : PaginationParams) (rows : List A) (sort_by : Text)
      → All P rows
      → AllOf (apply_cursor_pagination columns (record params { sort_by = sort_by }) rows)
  unfolding apply_cursor_pagination
  AllOf-apply_cursor_pagination columns params rows [] h = h
  AllOf-apply_cursor_pagination columns params rows (c ∷ cs) h =
      AllOf-keyed columns (record params { sort_by = c ∷ cs }) rows
        (columns.key_of (camel_to_snake (c ∷ cs))) h

  -- What holds of the rows of a query holds of the rows of a page of it.
  pub build_pagination_result-Within :
      (property : A → Text → Text) (columns : SortColumns A) (params : PaginationParams)
      (rows found : List A)
      → All P rows
      → apply_cursor_pagination columns params rows ≡ some found
      → All P (build_pagination_result property found params.limit params.sort_by).data_rows
  unfolding build_pagination_result
  build_pagination_result-Within property columns params rows found h e =
      let all : All P found =
        subst AllOf e (AllOf-apply_cursor_pagination columns params rows params.sort_by h) in
      elim (Bool-cases (ltb params.limit (length found))) [
        | inl more ↦ rw more (All-take P params.limit found all)
        | inr more ↦ rw more all
      ]
