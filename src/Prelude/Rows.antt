-- ===== src/Prelude/Rows.antt =====
-- A table as the list of its rows, oldest first: what the SQL of the repositories does to it.
use mathlib.Core.Path.{◌≡◌, refl}
use mathlib.Core.Bool.{Bool, true, false}
use mathlib.Core.Option.{Option, none, some}
use mathlib.Core.List.{List, [], ◌∷◌, ◌++◌}
use native.Mathlib.Omega.{arith}
use quickbite_order_service.Prelude.Tests.{if◌then◌else◌, is_some}

module _ {A : Type 0} where
  -- SELECT … WHERE p, the first row of the answer.
  abbrev pub find_where : (A → Bool) → List A → Option A
  find_where p [] = none
  find_where p (x ∷ xs) = if p x then some x else find_where p xs

  -- SELECT … WHERE p.
  abbrev pub select_where : (A → Bool) → List A → List A
  select_where p [] = []
  select_where p (x ∷ xs) = let rest = select_where p xs in if p x then x ∷ rest else rest

  -- UPDATE … SET f WHERE p.
  abbrev pub update_where : (A → Bool) → (A → A) → List A → List A
  update_where p f [] = []
  update_where p f (x ∷ xs) = (if p x then f x else x) ∷ update_where p f xs

  -- An update that touches no row leaves the table alone.
  pub update_where-none :
      (p : A → Bool) (f : A → A) (xs : List A) → find_where p xs ≡ none → update_where p f xs ≡ xs
  update_where-none p f [] h = refl
  update_where-none p f (x ∷ xs) h = ground (arith, update_where-none p f xs)

  -- A row that the update keeps inside a second test is found by it as updated.
  pub find_where-update_self :
      (p : A → Bool) (f : A → A) (xs : List A)
      → ((x : A) → p x ≡ true → p (f x) ≡ true)
      → find_where p (update_where p f xs)
        ≡ elim (find_where p xs) [ none ↦ none | some x ↦ some (f x) ]
  find_where-update_self p f [] keep = refl
  find_where-update_self p f (x ∷ xs) keep =
      ground (arith, keep x, find_where-update_self p f xs keep)

  -- An update of rows that a second test passes over is invisible to it.
  pub find_where-update_other :
      (p q : A → Bool) (f : A → A) (xs : List A)
      → ((x : A) → p x ≡ true → q x ≡ false)
      → ((x : A) → p x ≡ true → q (f x) ≡ false)
      → find_where q (update_where p f xs) ≡ find_where q xs
  find_where-update_other p q f [] old new = refl
  find_where-update_other p q f (x ∷ xs) old new =
      ground (arith, old x, new x, find_where-update_other p q f xs old new)

  pub find_where-append :
      (p : A → Bool) (xs ys : List A)
      → find_where p (xs ++ ys)
        ≡ elim (find_where p xs) [ none ↦ find_where p ys | some x ↦ some x ]
  find_where-append p [] ys = refl
  find_where-append p (x ∷ xs) ys = ground (arith, find_where-append p xs ys)

  pub find_where_sound :
      (p : A → Bool) (xs : List A) (y : A) → find_where p xs ≡ some y → p y ≡ true
  find_where_sound p [] y h = cc
  find_where_sound p (x ∷ xs) y h = ground (arith, find_where_sound p xs y)

  -- … RETURNING, the first row of the answer of an update.
  abbrev pub first_returned : (A → Bool) → (A → A) → List A → Option A
  first_returned p f xs = elim (find_where p xs) [ none ↦ none | some x ↦ some (f x) ]

  -- INSERT of one row.
  abbrev pub insert_row : A → List A → List A
  insert_row x xs = xs ++ x ∷ []

  -- An update that keeps a test keeps whether a row passes it.
  pub is_some-find_where-update :
      (p q : A → Bool) (f : A → A) (xs : List A)
      → ((x : A) → p (f x) ≡ p x)
      → is_some (find_where p (update_where q f xs)) ≡ is_some (find_where p xs)
  is_some-find_where-update p q f [] keep = refl
  is_some-find_where-update p q f (x ∷ xs) keep =
      ground (arith, keep x, is_some-find_where-update p q f xs keep)

  -- A row that passes a test is found once it has been inserted.
  pub is_some-find_where-insert :
      (p : A → Bool) (x : A) (xs : List A)
      → p x ≡ true
      → is_some (find_where p (insert_row x xs)) ≡ true
  is_some-find_where-insert p x [] h = ground arith
  is_some-find_where-insert p x (y ∷ ys) h = ground (arith, is_some-find_where-insert p x ys h)

  -- No row passes a test that the update of the rows that pass it takes away.
  pub find_where-update_gone :
      (p : A → Bool) (f : A → A) (xs : List A)
      → ((x : A) → p (f x) ≡ false)
      → find_where p (update_where p f xs) ≡ none
  find_where-update_gone p f [] gone = refl
  find_where-update_gone p f (x ∷ xs) gone =
      ground (arith, gone x, find_where-update_gone p f xs gone)

  -- The first row of a test, updated by a second test that it passes and that keeps the first.
  pub find_where-update_found :
      (p q : A → Bool) (f : A → A) (xs : List A) (x : A)
      → ((y : A) → p (f y) ≡ p y)
      → find_where p xs ≡ some x
      → q x ≡ true
      → find_where p (update_where q f xs) ≡ some (f x)
  find_where-update_found p q f [] x same h e = cc
  find_where-update_found p q f (y ∷ ys) x same h e =
      ground (arith, same y, find_where-update_found p q f ys x same)
