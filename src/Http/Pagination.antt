-- ===== src/Http/Pagination.antt =====
-- Pages behind a cursor: lib/http/pagination/cursor-pagination.ts and parse-query.ts. A column is an
-- order of the rows by a number, and the database reads the cursor as such a number.
pub mod Cut
pub mod Within
use quickbite_order_service.Prelude.{
  ℕ, suc, ◌+◌, min, ◌&&◌, ◌++◌, Bool, true, false, Option, none, some, List, [], ◌∷◌, ltb, leb,
  if◌then◌else◌, length, take, get_last?,
}
use quickbite_order_service.Prelude.Text.{Text, codes, text_eq}
use quickbite_order_service.Prelude.Rows.{select_where}
use quickbite_order_service.Prelude.Sort.{order_by}

pub data SortOrder : Type 0 where
  asc desc : SortOrder

-- A limit counts by its whole part: of it and one more, of `slice` and of the comparison, only that
-- part matters.
pub record PaginationParams : Type 0 where
  pub cursor : Option Text
  pub limit : ℕ
  pub sort_by : Text
  pub sort_order : SortOrder

pub record PaginationMeta : Type 0 where
  pub next_cursor : Option Text
  pub has_more : Bool
  pub count : ℕ

pub record Page (A : Type 0) : Type 0 where
  pub data_rows : List A
  pub meta : PaginationMeta

-- What `Number` makes of a text: the whole part is that of a positive finite number.
pub record JsNumber : Type 0 where
  pub is_finite : Bool
  pub is_positive : Bool
  pub whole : ℕ

-- The query's fields; `limit` is that of `Number(query.limit)`.
pub record PageQuery : Type 0 where
  pub cursor : Option Text
  pub limit : JsNumber
  pub sort_by : Option Text
  pub sort_order : Option Text

abbrev pub default_sort_by : Text
default_sort_by = codes "createdAt"

abbrev default_limit : ℕ
default_limit = 20

abbrev max_limit : ℕ
max_limit = 100

unfoldable pub includes : List Text → Text → Bool
includes [] t = false
includes (s ∷ ss) t = if text_eq s t then true else includes ss t

unfoldable parse_pagination_query : PageQuery → List Text → PaginationParams
parse_pagination_query query allowed = record {
  cursor = query.cursor;
  limit =
      if query.limit.is_finite && query.limit.is_positive
      then min max_limit query.limit.whole
      else default_limit;
  sort_by = elim query.sort_by [
    | none ↦ default_sort_by
    | some s ↦ if includes allowed s then s else default_sort_by
  ];
  sort_order = elim query.sort_order [
    | none ↦ desc
    | some s ↦ if text_eq s (codes "asc") then asc else desc
  ];
}

-- A capital letter becomes an underscore and its small letter.
unfoldable pub camel_to_snake : Text → Text
camel_to_snake [] = []
camel_to_snake (c ∷ s) =
    let rest = camel_to_snake s in if leb 65 c && leb c 90 then 95 ∷ (c + 32) ∷ rest else c ∷ rest

-- The columns by which a table can be sorted, and how a cursor is read for them; no such column and
-- no such number are errors of the database.
pub record SortColumns (A : Type 0) : Type 0 where
  pub key_of : Text → Option (A → ℕ)
  pub read_key : Text → Option ℕ

module _ {A : Type 0} where
  unfoldable pub is_past : SortOrder → ℕ → (A → ℕ) → A → Bool
  is_past asc cursor key row = ltb cursor (key row)
  is_past desc cursor key row = ltb (key row) cursor

  abbrev pub reversed_onto : List A → List A → List A
  reversed_onto [] ys = ys
  reversed_onto (x ∷ xs) ys = reversed_onto xs (x ∷ ys)

  unfoldable pub sorted : SortOrder → (A → ℕ) → List A → List A
  sorted asc key rows = order_by key rows
  sorted desc key rows = reversed_onto (order_by key rows) []

  -- `if (params.cursor)`: an empty cursor is none; `none` when the database refuses it.
  unfoldable pub past_cursor : SortColumns A → PaginationParams → (A → ℕ) → List A → Option (List A)
  past_cursor columns params key rows = elim params.cursor [
    | some (c ∷ cs) ↦ elim (columns.read_key (c ∷ cs)) [
      | none ↦ none
      | some k ↦ some (select_where (is_past params.sort_order k key) rows)
    ]
    | _ ↦ some rows
  ]

  unfoldable pub apply_cursor_pagination :
      SortColumns A → PaginationParams → List A → Option (List A)
  apply_cursor_pagination columns params rows = elim params.sort_by [
    | [] ↦ some rows
    | c ∷ cs ↦ elim (columns.key_of (camel_to_snake (c ∷ cs))) [
      | none ↦ none
      | some key ↦ elim (past_cursor columns params key rows) [
        | none ↦ none
        | some rest ↦ some (take (params.limit + 1) (sorted params.sort_order key rest))
      ]
    ]
  ]

  -- `property row key` is `String(row[key])`.
  unfoldable pub build_pagination_result : (A → Text → Text) → List A → ℕ → Text → Page A
  build_pagination_result property rows limit sort_by =
      let has_more = ltb limit (length rows) in
      let page = if has_more then take limit rows else rows in
      record {
        data_rows = page;
        meta = record {
          next_cursor = elim (get_last? page) [
            | none ↦ none
            | some last ↦ if has_more then some (property last sort_by) else none
          ];
          has_more = has_more;
          count = length page;
        };
      }
