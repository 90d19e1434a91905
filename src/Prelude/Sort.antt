-- ===== src/Prelude/Sort.antt =====
-- ORDER BY a number, and predicates of all rows through the clauses of a SELECT.
use Prim.Native.Nat.{ℕ, zero, suc, ◌≤◌, ◌<◌}
use mathlib.Core.Path.{◌≡◌, refl}
use mathlib.Core.Logic.{inl, inr}
use mathlib.Core.Bool.{Bool, true, false}
use mathlib.Core.Option.{some}
use mathlib.Core.List.{List, [], ◌∷◌}
use native.Mathlib.Omega.{arith}
use quickbite_order_service.Prelude.Tests.{leb, if◌then◌else◌, Bool-cases}
use quickbite_order_service.Prelude.Lists.{length, take, All}
use quickbite_order_service.Prelude.Rows.{find_where, select_where}

module _ {A : Type 0} (key : A → ℕ) where
  unfoldable pub insert_by : A → List A → List A
  insert_by x [] = x ∷ []
  insert_by x (y ∷ ys) =
      let rest = insert_by x ys in if leb (key x) (key y) then x ∷ y ∷ ys else y ∷ rest

  unfoldable pub order_by : List A → List A
  order_by [] = []
  order_by (x ∷ xs) = insert_by x (order_by xs)

  All-insert_by : (P : A → Type 0) (x : A) (xs : List A) → P x → All P xs → All P (insert_by x xs)
  unfolding insert_by
  All-insert_by P x [] h t = (h, tt)
  All-insert_by P x (y ∷ ys) h (hy, t) = elim (Bool-cases (leb (key x) (key y))) [
    | inl e ↦ rw e (h, (hy, t))
    | inr e ↦ rw e (hy, All-insert_by P x ys h t)
  ]

  pub All-order_by : (P : A → Type 0) (xs : List A) → All P xs → All P (order_by xs)
  unfolding order_by
  All-order_by P [] h = tt
  All-order_by P (x ∷ xs) (h, t) = All-insert_by P x (order_by xs) h (All-order_by P xs t)

  length-insert_by : (x : A) (xs : List A) → length (insert_by x xs) ≡ suc (length xs)
  unfolding insert_by
  length-insert_by x [] = refl
  length-insert_by x (y ∷ ys) = ground (arith, length-insert_by x ys)

  pub length-order_by : (xs : List A) → length (order_by xs) ≡ length xs
  unfolding order_by
  length-order_by [] = refl
  length-order_by (x ∷ xs) = omega (arith, length-insert_by x (order_by xs), length-order_by xs)

-- A predicate of all elements, weakened, restricted and looked up.
module _ {A : Type 0} where
  pub All-weaken : (P Q : A → Type 0) → ((x : A) → P x → Q x) → (xs : List A) → All P xs → All Q xs
  All-weaken P Q f [] h = tt
  All-weaken P Q f (x ∷ xs) (h, t) = (f x h, All-weaken P Q f xs t)

  pub All-take : (P : A → Type 0) (n : ℕ) (xs : List A) → All P xs → All P (take n xs)
  All-take P zero xs h = tt
  All-take P (suc n) [] h = tt
  All-take P (suc n) (x ∷ xs) (h, t) = (h, All-take P n xs t)

  pub All-select_where :
      (P : A → Type 0) (p : A → Bool) (xs : List A)
      → All P xs
      → All (λ x. P x × (p x ≡ true)) (select_where p xs)
  All-select_where P p [] h = tt
  All-select_where P p (x ∷ xs) (h, t) = elim (Bool-cases (p x)) [
    | inl e ↦ rw e ((h, e), All-select_where P p xs t)
    | inr e ↦ rw e (All-select_where P p xs t)
  ]

  pub All-find_where :
      (P : A → Type 0) (p : A → Bool) (xs : List A) (y : A)
      → All P xs
      → find_where p xs ≡ some y
      → P y
  All-find_where P p [] y h e = cc
  All-find_where P p (x ∷ xs) y (h, t) e = ground (arith, All-find_where P p xs y)

  pub nil_of_length : (xs : List A) → length xs ≡ 0 → xs ≡ []
  nil_of_length [] h = refl
  nil_of_length (x ∷ xs) h = absurd (omega arith)

  length-select_where_le : (p : A → Bool) (xs : List A) → length (select_where p xs) ≤ length xs
  length-select_where_le p [] = omega arith
  length-select_where_le p (x ∷ xs) = ground (arith, length-select_where_le p xs)

  -- A row that is passed over makes the selection shorter.
  pub length-select_where_lt :
      (p q : A → Bool) (xs : List A) (y : A)
      → find_where q xs ≡ some y
      → p y ≡ false
      → length (select_where p xs) < length xs
  length-select_where_lt p q [] y e h = cc
  length-select_where_lt p q (x ∷ xs) y e h =
      ground (arith, length-select_where_le p xs, length-select_where_lt p q xs y)

-- Every row's key is at most the keys of the rows after it.
module _ {A : Type 0} (key : A → ℕ) where
  abbrev pub IsAscending : List A → Type 0
  IsAscending [] = Unit {0}
  IsAscending (x ∷ xs) = All (λ y. key x ≤ key y) xs × IsAscending xs

  IsAscending-insert_by : (x : A) (xs : List A) → IsAscending xs → IsAscending (insert_by key x xs)
  unfolding insert_by
  IsAscending-insert_by x [] h = (tt, tt)
  IsAscending-insert_by x (y ∷ ys) (first, rest) = elim (Bool-cases (leb (key x) (key y))) [
    | inl e ↦
        let low : key x ≤ key y = ground arith in
        rw e (
          (low, All-weaken (λ z. key y ≤ key z) (λ z. key x ≤ key z) (λ z h. omega arith) ys first),
          (first, rest),
        )
    | inr e ↦
        let high : key y ≤ key x = ground arith in
        rw e
          (All-insert_by key (λ z. key y ≤ key z) x ys high first, IsAscending-insert_by x ys rest)
  ]

  IsAscending-order_by : (xs : List A) → IsAscending (order_by key xs)
  unfolding order_by
  IsAscending-order_by [] = tt
  IsAscending-order_by (x ∷ xs) =
      IsAscending-insert_by x (order_by key xs) (IsAscending-order_by xs)

  IsAscending-take : (n : ℕ) (xs : List A) → IsAscending xs → IsAscending (take n xs)
  IsAscending-take zero xs h = tt
  IsAscending-take (suc n) [] h = tt
  IsAscending-take (suc n) (x ∷ xs) (first, rest) =
      (All-take (λ y. key x ≤ key y) n xs first, IsAscending-take n xs rest)

  -- The first rows by their key come in the order of it.
  pub IsAscending-first : (n : ℕ) (xs : List A) → IsAscending (take n (order_by key xs))
  IsAscending-first n xs = IsAscending-take n (order_by key xs) (IsAscending-order_by xs)
