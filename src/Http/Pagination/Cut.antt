-- ===== src/Http/Pagination/Cut.antt =====
-- What a page holds: the rows up to its limit, cut off from one row more than the limit.
use quickbite_order_service.Prelude.{
  ℕ, zero, suc, ◌+◌, ◌≤◌, min, ◌≡◌, refl, sym, ◌∙◌, ap, Bool, true, false, Option, none, some, List,
  [], ◌∷◌, ltb, if◌then◌else◌, length, take, get_last?, length-take, take-length_le, arith,
  Bool-cases, inl, inr, ◌⊎◌,
}
use quickbite_order_service.Prelude.Text.{Text}
use quickbite_order_service.Http.Pagination.{
  Page, PageQuery, build_pagination_result, parse_pagination_query, max_limit, default_sort_by,
  includes,
}

module _ {A : Type 0} where
  cursor_if :
      (property : A → Text → Text) (sort_by : Text) (o : Option A) (b : Bool)
      → elim o as (λ x. Option Text) [
        | none ↦ none
        | some last ↦ if b then some (property last sort_by) else none
      ]
        ≡ (if b then elim o [ none ↦ none | some last ↦ some (property last sort_by) ] else none)
  cursor_if property sort_by none true = refl
  cursor_if property sort_by none false = refl
  cursor_if property sort_by (some a) true = refl
  cursor_if property sort_by (some a) false = refl

  take-take_le : (n m : ℕ) (xs : List A) → n ≤ m → take n (take m xs) ≡ take n xs
  take-take_le zero m xs h = refl
  take-take_le (suc n) zero xs h = absurd (omega arith)
  take-take_le (suc n) (suc m) [] h = refl
  take-take_le (suc n) (suc m) (x ∷ xs) h = ap (λ t. x ∷ t) (take-take_le n m xs (omega arith))

  same_test :
      (limit : ℕ) (xs : List A) → ltb limit (length (take (limit + 1) xs)) ≡ ltb limit (length xs)
  same_test limit xs = ground (arith, length-take (limit + 1) xs)

  same_rows :
      (limit : ℕ) (xs : List A)
      → (if ltb limit (length (take (limit + 1) xs))
          then take limit (take (limit + 1) xs)
          else take (limit + 1) xs)
        ≡ take limit xs
  same_rows limit xs = elim (Bool-cases (ltb limit (length xs))) [
    | inl e ↦ rw (same_test limit xs, e) (take-take_le limit (limit + 1) xs (omega arith))
    | inr e ↦
        let short : length xs ≤ limit = ground arith in
        rw (same_test limit xs, e)
          (take-length_le (limit + 1) xs (omega arith) ∙ sym (take-length_le limit xs short))
  ]

  -- The page that is cut from the first `limit + 1` rows is the first `limit` rows, told apart from
  -- all of them.
  pub record IsPageOf (property : A → Text → Text) (xs : List A) (limit : ℕ) (sort_by : Text)
      (page : Page A) : Type 0 where
    pub rows : page.data_rows ≡ take limit xs
    pub more : page.meta.has_more ≡ ltb limit (length xs)
    pub counted : page.meta.count ≡ min limit (length xs)
    pub cursor : page.meta.next_cursor ≡ (
        if ltb limit (length xs)
        then elim (get_last? (take limit xs)) [
          | none ↦ none
          | some last ↦ some (property last sort_by)
        ]
        else none)

  pub build_pagination_result-IsPageOf :
      (property : A → Text → Text) (xs : List A) (limit : ℕ) (sort_by : Text)
      → IsPageOf property xs limit sort_by
          (build_pagination_result property (take (limit + 1) xs) limit sort_by)
  unfolding build_pagination_result
  build_pagination_result-IsPageOf property xs limit sort_by =
      let test = same_test limit xs in
      let rows = same_rows limit xs in
      let cursor_by : List A → Bool → Option Text = λ p b. elim (get_last? p) [
        | none ↦ none
        | some last ↦ if b then some (property last sort_by) else none
      ] in
      record {
        rows = rows;
        more = test;
        counted = ap length rows ∙ length-take limit xs;
        cursor =
            ap (λ p. cursor_by p (ltb limit (length (take (limit + 1) xs)))) rows
            ∙ ap (λ b. cursor_by (take limit xs) b) test
            ∙ cursor_if property sort_by (get_last? (take limit xs)) (ltb limit (length xs));
      }

  cursor_of_last :
      (property : A → Text → Text) (sort_by c : Text) (o : Option A) (b : Bool)
      → elim o as (λ x. Option Text) [
        | none ↦ none
        | some last ↦ if b then some (property last sort_by) else none
      ]
        ≡ some c
      → (last : A) × (c ≡ property last sort_by)
  cursor_of_last property sort_by c none b h = cc
  cursor_of_last property sort_by c (some a) true h = (a, cc)
  cursor_of_last property sort_by c (some a) false h = cc

  -- A cursor is the property of a row.
  pub build_pagination_result-cursor :
      (property : A → Text → Text) (rows : List A) (limit : ℕ) (sort_by c : Text)
      → (build_pagination_result property rows limit sort_by).meta.next_cursor ≡ some c
      → (last : A) × (c ≡ property last sort_by)
  unfolding build_pagination_result
  build_pagination_result-cursor property rows limit sort_by c h =
      let has_more = ltb limit (length rows) in
      cursor_of_last property sort_by c (get_last? (if has_more then take limit rows else rows))
        has_more h

chosen_column :
    (o : Option Text) (allowed : List Text)
    → let s = elim o as (λ x. Text) [
      | none ↦ default_sort_by
      | some t ↦ if includes allowed t then t else default_sort_by
    ] in
      (includes allowed s ≡ true) ⊎ (s ≡ default_sort_by)
chosen_column none allowed = inr refl
chosen_column (some t) allowed = elim (Bool-cases (includes allowed t)) [
  | inl e ↦ inl (rw (e, e) refl)
  | inr e ↦ inr (rw e refl)
]

-- Whatever the query says, a limit is at most a hundred, and it is not zero unless it is a positive
-- number below one; a column is one that is allowed, or the creation time.
parse_pagination_query-bounds :
    (query : PageQuery) (allowed : List Text)
    → let params = parse_pagination_query query allowed in
      (params.limit ≤ max_limit)
      × (params.limit ≡ 0 → (query.limit.is_positive ≡ true) × (query.limit.whole ≡ 0))
      × ((includes allowed params.sort_by ≡ true) ⊎ (params.sort_by ≡ default_sort_by))
unfolding parse_pagination_query
parse_pagination_query-bounds query allowed =
    (ground arith, (λ h. ground arith), chosen_column query.sort_by allowed)
