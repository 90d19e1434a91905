-- ===== src/Agent/Entity.antt =====
-- What an agent earned with an order: app/agent/entity/agent-earning.entity.ts, the rows of
-- `agent_earnings`, at most one for an order.
use quickbite_order_service.Prelude.{ℕ}
use quickbite_order_service.Prelude.Text.{Text}

pub record AgentEarningEntity : Type 0 where
  pub id : ℕ
  pub region : Text
  pub agent_id : ℕ
  pub order_id : ℕ
  pub amount : ℕ
  pub currency : Text
  pub earned_at : ℕ
