-- ===== src/Store/Laws.antt =====
-- Steps of actions, and what a transaction gives every handler that uses one.
use quickbite_order_service.Prelude.{
  ap, Bool-cases, ◌∙◌, ◌≡◌, refl, true, false, arith, ◌⊎◌, inl, inr,
}
use quickbite_order_service.Store.{
  AppError, Db, Env, World, Result, ok, err, Action, transaction, infrastructure, ◌>>=◌, ◌>>◌,
  continue, conclude,
}

-- Opens what a chain of actions waits on.
pub ruleset steps = (◌>>=◌, ◌>>◌, continue)

module _ {A B : Type 0} where
  pub >>=-ok :
      (m : Action A) (f : A → Action B) (w : World) {a : A} {v : World}
      → m w ≡ (ok a, v)
      → (m >>= f) w ≡ f a v
  >>=-ok m f w h = ap (λ r. continue f r) h

  pub >>=-err :
      (m : Action A) (f : A → Action B) (w : World) {e : AppError} {v : World}
      → m w ≡ (err e, v)
      → (m >>= f) w ≡ (err e, v)
  >>=-err m f w h = ap (λ r. continue f r) h

pub Result-cases :
    {A : Type 0} (r : Result A) → ((a : A) × (r ≡ ok a)) ⊎ ((e : AppError) × (r ≡ err e))
Result-cases (ok a) = inl (a, refl)
Result-cases (err e) = inr (e, refl)

-- How an action ended.
pub run_cases :
    {A : Type 0} (r : Result A × World)
    → ((a : A) × (v : World) × (r ≡ (ok a, v))) ⊎ ((e : AppError) × (v : World) × (r ≡ (err e, v)))
run_cases (ok a, v) = inl (a, v, refl)
run_cases (err e, v) = inr (e, v, refl)

conclude-err :
    {A : Type 0} (env : Env) (before : Db) (r : Result A × World) {e : AppError}
    → (conclude env before r).0 ≡ err e
    → (conclude env before r).1.db ≡ before
conclude-err env before (ok a, w) h = ground arith
conclude-err env before (err e, w) h = refl

-- A transaction that throws has left the tables as they were.
pub transaction-err :
    {A : Type 0} (env : Env) (body : Action A) (w : World) {e : AppError}
    → (transaction env body w).0 ≡ err e
    → (transaction env body w).1.db ≡ w.db
unfolding transaction
transaction-err env body w h = conclude-err env w.db (body w) h

-- A transaction that is carried through is its body.
pub transaction-ok :
    {A : Type 0} (env : Env) (body : Action A) (w : World) {a : A} {v : World}
    → env.is_committed ≡ true
    → body w ≡ (ok a, v)
    → transaction env body w ≡ (ok a, v)
unfolding transaction
transaction-ok env body w c h = ap (λ r. conclude env w.db r) h ∙ rw c

-- A transaction whose commit is lost throws, with the tables of before.
pub transaction-lost :
    {A : Type 0} (env : Env) (body : Action A) (w : World) {a : A} {v : World}
    → env.is_committed ≡ false
    → body w ≡ (ok a, v)
    → transaction env body w ≡ (err infrastructure, record v { db = w.db })
unfolding transaction
transaction-lost env body w c h = ap (λ r. conclude env w.db r) h ∙ rw c

-- The action leaves a part of the world alone, however it ends.
abbrev pub Keeps : {A B : Type 0} → (World → B) → Action A → Type 0
Keeps view m = (w : World) → view (m w).1 ≡ view w

module _ {B : Type 0} (view : World → B) where
  continue-Keeps :
      {A C : Type 0} (f : A → Action C) (r : Result A × World)
      → ((a : A) → Keeps view (f a))
      → view (continue f r).1 ≡ view r.1
  continue-Keeps f (ok a, w) keep = keep a w
  continue-Keeps f (err e, w) keep = refl

  -- A chain keeps what its links keep.
  pub >>=-Keeps :
      {A C : Type 0} (m : Action A) (f : A → Action C)
      → Keeps view m
      → ((a : A) → Keeps view (f a))
      → Keeps view (m >>= f)
  >>=-Keeps m f first rest w = continue-Keeps f (m w) rest ∙ first w

conclude-Keeps :
    {A B : Type 0} (view : Db → B) (env : Env) (before : Db) (r : Result A × World)
    → view r.1.db ≡ view before
    → view (conclude env before r).1.db ≡ view before
conclude-Keeps view env before (ok a, w) h = elim (Bool-cases env.is_committed) [
  | inl c ↦ rw c h
  | inr c ↦ rw c
]
conclude-Keeps view env before (err e, w) h = refl

-- A transaction keeps the tables that its body keeps: the rollback restores them.
pub transaction-Keeps :
    {A B : Type 0} (view : Db → B) (env : Env) (body : Action A)
    → Keeps (λ w. view w.db) body
    → Keeps (λ w. view w.db) (transaction env body)
unfolding transaction
transaction-Keeps view env body keep w = conclude-Keeps view env w.db (body w) (keep w)
