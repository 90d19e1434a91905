-- ===== src/Order/Status/Life.antt =====
-- The life of an order under accepted checks: it is short, and the last statuses hold it.
use quickbite_order_service.Prelude.{ℕ, zero, suc, ◌+◌, ◌≤◌, ◌≡◌, true, Option, arith, ap}
use quickbite_order_service.Order.Enums.{
  OrderStatus, pending_payment, rejected, delivered, cancelled,
}
use quickbite_order_service.Order.Status.{
  Stamp, AssertTransitionContext, stamped, invalid_status_transition, assert_transition,
}
use quickbite_order_service.Order.Status.Diagram.{Edge-rank, is_terminal, rank}
use quickbite_order_service.Order.Status.Rules.{assert_transition_iff}
use quickbite_order_service.Order.Status.Refusals.{assert_transition-invalid}

-- `History s n t`: `n` accepted checks in a row, at any times and by any actors, lead from `s` to `t`.
pub data History (s : OrderStatus) : ℕ → OrderStatus → Type 0 where
  start : History s zero s
  then :
      {n : ℕ} {t u : OrderStatus} (now : ℕ) (ctx : AssertTransitionContext) (c : Option Stamp)
      → History s n t
      → assert_transition now t u ctx ≡ stamped c
      → History s (suc n) u

History-rank : {s t : OrderStatus} {n : ℕ} → History s n t → n + rank s ≤ rank t
History-rank start = omega arith
History-rank (then now ctx c past h) =
    omega (arith, History-rank past, Edge-rank ((assert_transition_iff now _ _ ctx c).0 h).0.edge)

rank-le : (t : OrderStatus) → rank t ≤ 7
rank-le pending_payment = omega arith
rank-le _ = omega arith

-- Accepted status checks in a row, each from the status that the one before led to, are at most seven,
-- and do not lead back to the status that they start from. (Other writes do: an agent who goes offline
-- gives an assigned order back to ready.)
pub History-bounded : {s t : OrderStatus} {n : ℕ} → History s n t → (n ≤ 7) × (s ≡ t → n ≡ zero)
History-bounded {s} {t} h =
    (omega (arith, History-rank h, rank-le t), λ e. omega (arith, History-rank h, ap rank e))

terminal-rank : (s : OrderStatus) → is_terminal s ≡ true → rank s ≡ 7
terminal-rank rejected h = omega arith
terminal-rank delivered h = omega arith
terminal-rank cancelled h = omega arith
terminal-rank _ h = cc

-- From a terminal status every check is refused as invalid, whoever asks.
terminal-refuses :
    (now : ℕ) (from to : OrderStatus) (ctx : AssertTransitionContext)
    → is_terminal from ≡ true
    → assert_transition now from to ctx ≡ invalid_status_transition
terminal-refuses now from to ctx h =
    (assert_transition-invalid now from to ctx).1
      (λ edge. omega (arith, Edge-rank edge, terminal-rank from h, rank-le to))
