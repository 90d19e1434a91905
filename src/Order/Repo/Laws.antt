-- ===== src/Order/Repo/Laws.antt =====
-- The statements on `orders` as a client of the table sees them.
use quickbite_order_service.Prelude.{ℕ, ◌≡◌, Option, some, List, arith}
use quickbite_order_service.Prelude.Text.{Text, text_eq_sound}
use quickbite_order_service.Prelude.Rows.{find_where, update_where, find_where_sound}
use quickbite_order_service.Order.Enums.{OrderStatus}
use quickbite_order_service.Order.Entity.{OrderEntity}
use quickbite_order_service.Order.Status.{Stamp}
use quickbite_order_service.Order.Repo.{
  has_public_id, with_status, set_stamp, update_order_status, set_orders,
}
use quickbite_order_service.Store.{World, Env, ok}

-- The order that is found has the id that was asked for.
pub found-public_id :
    (public_id : Text) (orders : List OrderEntity) (o : OrderEntity)
    → find_where (has_public_id public_id) orders ≡ some o
    → o.public_id ≡ public_id
found-public_id public_id orders o h =
    text_eq_sound _ _ (find_where_sound (has_public_id public_id) orders o h)

-- A status write changes the status and leaves the identity, the money, the parties and the agent.
pub record SameOrder (o p : OrderEntity) : Type 0 where
  pub id : p.id ≡ o.id
  pub public_id : p.public_id ≡ o.public_id
  pub restaurant_id : p.restaurant_id ≡ o.restaurant_id
  pub restaurant_owner_id : p.restaurant_owner_id ≡ o.restaurant_owner_id
  pub branch_id : p.branch_id ≡ o.branch_id
  pub customer_id : p.customer_id ≡ o.customer_id
  pub subtotal : p.subtotal ≡ o.subtotal
  pub delivery_fee : p.delivery_fee ≡ o.delivery_fee
  pub service_fee : p.service_fee ≡ o.service_fee
  pub total : p.total ≡ o.total
  pub commission : p.commission ≡ o.commission
  pub currency : p.currency ≡ o.currency
  pub payment_method : p.payment_method ≡ o.payment_method
  pub delivery_agent_id : p.delivery_agent_id ≡ o.delivery_agent_id
  pub created_at : p.created_at ≡ o.created_at

pub with_status-SameOrder :
    (status : OrderStatus) (stamp : Option Stamp) (now : ℕ) (o : OrderEntity)
    → SameOrder o (with_status status stamp now o)
      × ((with_status status stamp now o).status ≡ status)
unfolding with_status set_stamp
with_status-SameOrder status stamp now o = ground arith

pub update_order_status_lem :
    (env : Env) (public_id : Text) (status : OrderStatus) (stamp : Option Stamp) (o : OrderEntity)
    (w : World)
    → find_where (has_public_id public_id) w.db.orders ≡ some o
    → update_order_status env public_id status stamp w ≡ (
      ok (with_status status stamp env.now o),
      record w {
        db =
            set_orders
              (update_where
                (has_public_id public_id)
                (with_status status stamp env.now)
                w.db.orders)
              w.db;
      },
    )
unfolding update_order_status
update_order_status_lem env public_id status stamp o w h = ground arith
