-- ===== src/Http/Filters.antt =====
-- The filters of a list: `applyFilters` of lib/http/pagination/cursor-pagination.ts, as the conditions
-- that it adds to the query.
use quickbite_order_service.Prelude.{List, [], ◌∷◌, ◌++◌}
use quickbite_order_service.Prelude.Text.{Text, codes}

pub data FilterOperator : Type 0 where
  eq gt lt lte gte in_list like : FilterOperator

pub data FilterValue : Type 0 where
  one_text : Text → FilterValue
  many_texts : List Text → FilterValue

pub record FilterParams : Type 0 where
  pub field : Text
  pub operator : FilterOperator
  pub value : FilterValue

-- What the database is asked of a row.
pub data Condition : Type 0 where
  compares : Text → Text → FilterValue → Condition
  is_like : Text → Text → Condition
  is_in : Text → List Text → Condition

-- A list of texts within a template is joined with commas.
unfoldable pub joined : List Text → Text
joined [] = []
joined (t ∷ []) = t
joined (t ∷ u ∷ ts) = t ++ codes "," ++ joined (u ∷ ts)

unfoldable pub template_text : FilterValue → Text
template_text (one_text t) = t
template_text (many_texts ts) = joined ts

unfoldable pub values_of : FilterValue → List Text
values_of (one_text t) = t ∷ []
values_of (many_texts ts) = ts

unfoldable pub condition_for : Text → FilterOperator → FilterValue → Condition
condition_for field eq value = compares field (codes "=") value
condition_for field gt value = compares field (codes ">") value
condition_for field lt value = compares field (codes "<") value
condition_for field lte value = compares field (codes "<=") value
condition_for field gte value = compares field (codes ">=") value
condition_for field like value = is_like field (codes "%" ++ template_text value ++ codes "%")
condition_for field in_list value = is_in field (values_of value)

unfoldable pub apply_filters : List FilterParams → List Condition
apply_filters [] = []
apply_filters (filter ∷ filters) =
    condition_for filter.field filter.operator filter.value ∷ apply_filters filters
