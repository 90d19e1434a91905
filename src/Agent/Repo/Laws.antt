-- ===== src/Agent/Repo/Laws.antt =====
-- The unique order of an earning.
use quickbite_order_service.Prelude.{ℕ, ◌≡◌, List, arith}
use quickbite_order_service.Prelude.Rows.{find_where-append}
use quickbite_order_service.Agent.Entity.{AgentEarningEntity}
use quickbite_order_service.Agent.Repo.{InsertAgentEarningInput, insert_earning_row}
use quickbite_order_service.Store.{Env}

-- A second earning for an order is not inserted, whatever it says.
pub insert_earning_row-again :
    (env later : Env) (k j : ℕ) (input other : InsertAgentEarningInput)
    (es : List AgentEarningEntity)
    → other.order_id ≡ input.order_id
    → insert_earning_row later j other (insert_earning_row env k input es)
      ≡ insert_earning_row env k input es
unfolding insert_earning_row
insert_earning_row-again env later k j input other es e = rw e (grind (arith, find_where-append))
