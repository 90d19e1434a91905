-- ===== src/Agent/Repo.antt =====
-- The statements on `agent_earnings`: app/agent/repository/agent-earning.repo.ts.
pub mod Laws
use quickbite_order_service.Prelude.{
  ℕ, ◌+◌, Bool, ◌&&◌, List, [], ◌∷◌, ◌==◌, leb, ltb, if◌then◌else◌, is_some, take,
}
use quickbite_order_service.Prelude.Text.{Text}
use quickbite_order_service.Prelude.Rows.{find_where, select_where, insert_row}
use quickbite_order_service.Agent.Entity.{AgentEarningEntity}
use quickbite_order_service.Store.{Db, World, Env, Action, Result, ok, query, modify_db}

pub record InsertAgentEarningInput : Type 0 where
  pub region : Text
  pub agent_id : ℕ
  pub order_id : ℕ
  pub amount : ℕ
  pub currency : Text

abbrev pub earned_for : ℕ → AgentEarningEntity → Bool
earned_for order_id e = e.order_id == order_id

-- The table after `INSERT … ON CONFLICT (order_id) DO NOTHING`.
unfoldable pub insert_earning_row :
    Env → ℕ → InsertAgentEarningInput → List AgentEarningEntity → List AgentEarningEntity
insert_earning_row env k input es =
    if is_some (find_where (earned_for input.order_id) es)
    then es
    else insert_row
        (record {
          id = env.next_id k;
          region = input.region;
          agent_id = input.agent_id;
          order_id = input.order_id;
          amount = input.amount;
          currency = input.currency;
          earned_at = env.now;
        })
        es

unfoldable pub insert_earning : Env → ℕ → InsertAgentEarningInput → Action (Unit {0})
insert_earning env k input =
    modify_db
      (λ db. record db { agent_earnings = insert_earning_row env k input db.agent_earnings })

-- The agent's earnings in `[from, to)`.
abbrev pub earned_in : ℕ → ℕ → ℕ → AgentEarningEntity → Bool
earned_in agent_id from to e = e.agent_id == agent_id && leb from e.earned_at && ltb e.earned_at to

abbrev pub sum_amounts : List AgentEarningEntity → ℕ
sum_amounts [] = 0
sum_amounts (e ∷ es) = e.amount + sum_amounts es

unfoldable pub sum_by_agent : ℕ → ℕ → ℕ → Action ℕ
sum_by_agent agent_id from to =
    query (λ db. sum_amounts (select_where (earned_in agent_id from to) db.agent_earnings))
