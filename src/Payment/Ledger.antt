-- ===== src/Payment/Ledger.antt =====
-- The ledger as an account book: what the succeeded transactions leave an account with.
use quickbite_order_service.Prelude.{
  ℕ, ◌≡◌, ◌≢◌, Bool, true, false, Option, none, some, List, [], ◌∷◌, ◌++◌, ◌==◌, if◌then◌else◌,
  arith,
}
use quickbite_order_service.Prelude.Int.{ℤ, pos, ◌+ℤ◌, ◌-ℤ◌, int_laws}
use quickbite_order_service.Prelude.Text.{Text, text_eq, text_eq_refl}
use quickbite_order_service.Prelude.Rows.{find_where-append}
use quickbite_order_service.Payment.Entity.{TransactionStatus, succeeded, TransactionEntity}
use quickbite_order_service.Payment.Repo.{
  CreateTransactionInput, new_transaction, key_taken, insert_transaction,
}
use quickbite_order_service.Store.{Env}

abbrev is_succeeded : TransactionStatus → Bool
is_succeeded succeeded = true
is_succeeded _ = false

abbrev is_account : ℕ → Option ℕ → Bool
is_account account none = false
is_account account (some a) = a == account

-- What one transaction brings to the account: its amount in, less its amount out.
abbrev pub movement : ℕ → TransactionStatus → Option ℕ → Option ℕ → ℕ → ℤ
movement account status src dst amount =
    if is_succeeded status
    then pos (if is_account account dst then amount else 0)
      -ℤ pos (if is_account account src then amount else 0)
    else pos 0

abbrev pub net_of : ℕ → List TransactionEntity → ℤ
net_of account [] = pos 0
net_of account (t ∷ ts) =
    movement account t.status t.src_acc_id t.dst_acc_id t.amount +ℤ net_of account ts

pub movement_in :
    (account src amount : ℕ)
    → src ≢ account
    → movement account succeeded (some src) (some account) amount ≡ pos amount
movement_in account src amount ne = grind int_laws

pub movement_out :
    (account amount : ℕ)
    → movement account succeeded (some account) none amount ≡ pos 0 -ℤ pos amount
movement_out account amount = grind int_laws

net_of-append :
    (account : ℕ) (ts : List TransactionEntity) (t : TransactionEntity)
    → net_of account (ts ++ t ∷ [])
      ≡ net_of account ts +ℤ movement account t.status t.src_acc_id t.dst_acc_id t.amount
net_of-append account [] t = omega int_laws
net_of-append account (s ∷ ts) t = rw (net_of-append account ts t) (omega int_laws)

-- A transaction with a new key moves the account by its movement.
pub net_of-insert :
    (env : Env) (k account : ℕ) (input : CreateTransactionInput) (ts : List TransactionEntity)
    → key_taken input.idempotency_key ts ≡ false
    → net_of account (insert_transaction env k input ts)
      ≡ net_of account ts
        +ℤ movement account input.status input.src_acc_id input.dst_acc_id input.amount
unfolding insert_transaction new_transaction
net_of-insert env k account input ts fresh = rw fresh (net_of-append account ts _)

-- A transaction whose key is taken leaves the ledger alone.
pub insert_transaction-taken :
    (env : Env) (k : ℕ) (input : CreateTransactionInput) (ts : List TransactionEntity)
    → key_taken input.idempotency_key ts ≡ true
    → insert_transaction env k input ts ≡ ts
unfolding insert_transaction
insert_transaction-taken env k input ts taken = rw taken

-- An insert takes its own key.
pub key_taken-insert_self :
    (env : Env) (k : ℕ) (input : CreateTransactionInput) (key : Text) (ts : List TransactionEntity)
    → input.idempotency_key ≡ some key
    → key_taken (some key) (insert_transaction env k input ts) ≡ true
unfolding insert_transaction key_taken new_transaction
key_taken-insert_self env k input key ts e = grind (arith, find_where-append, text_eq_refl)

-- An insert under another key takes no further key.
pub key_taken-insert_other :
    (env : Env) (k : ℕ) (input : CreateTransactionInput) (key other : Text)
    (ts : List TransactionEntity)
    → input.idempotency_key ≡ some other
    → text_eq other key ≡ false
    → key_taken (some key) (insert_transaction env k input ts) ≡ key_taken (some key) ts
unfolding insert_transaction key_taken new_transaction
key_taken-insert_other env k input key other ts e ne = grind (arith, find_where-append)

-- A key that is taken stays taken.
pub key_taken-insert_mono :
    (env : Env) (k : ℕ) (input : CreateTransactionInput) (key : Text) (ts : List TransactionEntity)
    → key_taken (some key) ts ≡ true
    → key_taken (some key) (insert_transaction env k input ts) ≡ true
unfolding insert_transaction key_taken
key_taken-insert_mono env k input key ts h = grind (arith, find_where-append)
