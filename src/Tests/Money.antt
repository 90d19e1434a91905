-- ===== src/Tests/Money.antt =====
-- Runs of the flows of money: settlements, payouts and webhooks.
use quickbite_order_service.Prelude.{
  ◌≡◌, ◌⊎◌, refl, true, false, Bool, if◌then◌else◌, none, some, [], ◌∷◌, arith,
}
use quickbite_order_service.Prelude.Int.{pos, ◌+ℤ◌, ◌-ℤ◌}
use quickbite_order_service.Prelude.Text.{Text, codes, text_eq}
use quickbite_order_service.Order.Enums.{picked, delivered, cod, method_eq}
use quickbite_order_service.Order.Entity.{OrderEntity}
use quickbite_order_service.Prelude.Rows.{find_where}
use quickbite_order_service.Order.Repo.{has_public_id, find_owner_id_for_restaurant}
use quickbite_order_service.Order.Service.{update_status}
use quickbite_order_service.Agent.Settlement.{share_of, bps_or_zero, settle_delivered}
use quickbite_order_service.Agent.Settlement.Effect.{
  Settles, settled_here, after_settlement, settle_delivered_atomic,
}
use quickbite_order_service.Agent.Settlement.Money.{IsUnbooked, settle_delivered-balances}
use quickbite_order_service.Agent.Settlement.Again.{settle_delivered-twice}
use quickbite_order_service.Agent.Settlement.Bypass.{deliver_request, update_status-unsettled}
use quickbite_order_service.Payment.Entity.{
  kashier_provider_id, KashierWebhookData, KashierWebhookEnvelope,
}
use quickbite_order_service.Payment.Repo.{key_taken}
use quickbite_order_service.Payment.Ledger.{net_of}
use quickbite_order_service.Payment.Webhook.{
  ParsedWebhook, truthy, parse_envelope, process_kashier_webhook,
}
use quickbite_order_service.Payment.Webhook.Duplicates.{
  is_logged, process_kashier_webhook-again, process_kashier_webhook-authentic,
}
use quickbite_order_service.Finance.Repo.Laws.{balance_of}
use quickbite_order_service.Finance.Service.{CreatePayoutRequest, record_payout, payout_response}
use quickbite_order_service.Finance.Service.Payout.{
  IsSolvent, Pays, tx, after_payout, record_payout-err, record_payout-IsSolvent, record_payout-made,
  record_payout-again,
}
use quickbite_order_service.Store.{World, AppError, ok, err, infrastructure, restaurant_not_found}
use quickbite_order_service.Tests.Data.{
  env_1, env_2, order_id_1, order_in, account_1, world_of, agent_actor,
}
use quickbite_order_service.Order.Enums.{pending_payment, placed, online}
use quickbite_order_service.Payment.Entity.{PaymentSessionEntity, initialized}
use quickbite_order_service.Payment.Repo.{newest_session}
use quickbite_order_service.Payment.Webhook.{reconcile}
use quickbite_order_service.Payment.Webhook.Capture.{Captures, after_capture, reconcile-Captures}
use quickbite_order_service.Tests.Data.{db_with}

abbrev order_1 : OrderEntity
order_1 = order_in picked cod (some 8)

abbrev world_1 : World
world_1 = world_of order_1 none (some 8)

abbrev eg : Text
eg = codes "eg"

Settles-order_1 : Settles env_1 order_id_1 8 world_1 order_1
unfolding text_eq
Settles-order_1 = record { found = refl; held = refl; committed = refl }

settle_delivered_atomic_example :
    ((order : OrderEntity) × Settles env_1 order_id_1 8 world_1 order
      × (((false ≡ false)
            × (settle_delivered env_1 8000 (some 1000) order_id_1 8 eg world_1 ≡ (
              ok (settled_here env_1 8000 (some 1000) order_id_1 8 eg world_1 order),
              after_settlement env_1 8000 (some 1000) order_id_1 8 eg world_1 order,
            )))
          ⊎ ((false ≡ true)
              × ((v : World) × (settle_delivered env_1 8000 (some 1000) order_id_1 8 eg world_1
                    ≡ (err infrastructure, v))
                  × (v.db
                      ≡ (after_settlement env_1 8000 (some 1000) order_id_1 8 eg world_1 order).db)
                  × (v.sent ≡ world_1.sent)))))
    ⊎ ((e : AppError) × (settle_delivered env_1 8000 (some 1000) order_id_1 8 eg world_1
          ≡ (err e, world_1)))
settle_delivered_atomic_example =
    settle_delivered_atomic env_1 8000 (some 1000) order_id_1 8 eg world_1

IsUnbooked-order_1 : IsUnbooked order_1 []
unfolding key_taken
IsUnbooked-order_1 = record {
  no_cod = refl;
  no_commission = refl;
  no_service_fee = refl;
  no_delivery_fee = refl;
}

settle_delivered-balances_example :
    let after = (settle_delivered env_1 8000 (some 1000) order_id_1 8 eg world_1).1.db in
    let credit = pos 120 -ℤ pos (share_of 120 (bps_or_zero (some 1000))) in
    (balance_of 4 (codes "EGP") after.restaurant_balances
      ≡ balance_of 4 (codes "EGP") world_1.db.restaurant_balances +ℤ credit)
    × (net_of 40 after.transactions +ℤ pos (if method_eq cod cod then 0 else 160)
        ≡ net_of 40 world_1.db.transactions +ℤ credit)
settle_delivered-balances_example =
    settle_delivered-balances env_1 8000 (some 1000) order_id_1 8 eg world_1 order_1 Settles-order_1
      refl (λ e. cc) IsUnbooked-order_1

settle_delivered-twice_example :
    let once = settle_delivered env_1 8000 (some 1000) order_id_1 8 eg world_1 in
    let twice = settle_delivered env_2 8000 (some 1000) order_id_1 8 eg once.1 in
    let credit = pos 120 -ℤ pos (share_of 120 (bps_or_zero (some 1000))) in
    (twice.1.db.transactions ≡ once.1.db.transactions)
    × (twice.1.db.agent_earnings ≡ once.1.db.agent_earnings)
    × (balance_of 4 (codes "EGP") twice.1.db.restaurant_balances
        ≡ balance_of 4 (codes "EGP") world_1.db.restaurant_balances +ℤ credit +ℤ credit)
settle_delivered-twice_example =
    settle_delivered-twice env_1 env_2 8000 (some 1000) order_id_1 8 eg world_1 order_1
      Settles-order_1 refl

found_1 : find_where (has_public_id order_id_1) world_1.db.orders ≡ some order_1
unfolding text_eq
found_1 = refl

update_status-unsettled_example :
    let r = update_status env_1 agent_actor order_id_1 deliver_request world_1 in
    (r.0 ≡ ok (record order_1 { status = delivered; delivered_at = some 5000; updated_at = 5000 }))
    × (r.1.db.transactions ≡ [])
    × (r.1.db.restaurant_balances ≡ account_1 ∷ [])
    × (r.1.db.agent_earnings ≡ [])
update_status-unsettled_example =
    update_status-unsettled env_1 agent_actor order_id_1 world_1 order_1 found_1 refl refl refl refl

abbrev payout_1 : CreatePayoutRequest
payout_1 = record {
  restaurant_id = 4;
  amount = 200;
  currency = codes "EGP";
  provider_reference_id = codes "bank-1";
}

abbrev payout_key : Text
payout_key = codes "k1"

pays_1 : Pays env_1 payout_1 payout_key world_1 40 account_1
unfolding text_eq key_taken
pays_1 = record {
  owned = refl;
  found = refl;
  covered = omega arith;
  fresh = refl;
  committed = refl;
}

record_payout-made_example :
    (record_payout env_1 payout_1 eg payout_key world_1 ≡ (
      ok (payout_response (tx env_1 payout_1 eg payout_key world_1 40 account_1 pays_1)),
      after_payout env_1 payout_1 eg payout_key world_1 40 account_1 pays_1,
    ))
    × (balance_of 4
          (codes "EGP")
          (record_payout env_1 payout_1 eg payout_key world_1).1.db.restaurant_balances
        ≡ balance_of 4 (codes "EGP") world_1.db.restaurant_balances -ℤ pos 200)
record_payout-made_example =
    record_payout-made env_1 payout_1 eg payout_key world_1 40 account_1 pays_1

-- A world of later, with the payout in the ledger and no orders.
abbrev paid_world : World
paid_world = record world_1 {
  db = record world_1.db {
    orders = [];
    transactions = tx env_1 payout_1 eg payout_key world_1 40 account_1 pays_1 ∷ [];
  };
}

paid_world-taken : key_taken (some payout_key) paid_world.db.transactions ≡ true
unfolding key_taken text_eq
paid_world-taken = refl

record_payout-again_example :
    (key_taken
        (some payout_key)
        (record_payout env_1 payout_1 eg payout_key world_1).1.db.transactions
      ≡ true)
    × ((e : AppError) × (record_payout env_2 payout_1 eg payout_key paid_world
          ≡ (err e, paid_world)))
record_payout-again_example =
    record_payout-again env_1 env_2 payout_1 payout_1 eg payout_key world_1 paid_world 40 account_1
      pays_1 paid_world-taken

record_payout-IsSolvent_example :
    IsSolvent (record_payout env_1 payout_1 eg payout_key world_1).1.db
record_payout-IsSolvent_example =
    record_payout-IsSolvent env_1 payout_1 eg payout_key world_1 (omega arith, tt)

abbrev payout_2 : CreatePayoutRequest
payout_2 = record payout_1 { restaurant_id = 9 }

unknown_restaurant :
    (record_payout env_1 payout_2 eg payout_key world_1).0 ≡ err restaurant_not_found
unfolding record_payout find_owner_id_for_restaurant
unknown_restaurant = refl

record_payout-err_example : (record_payout env_1 payout_2 eg payout_key world_1).1 ≡ world_1
record_payout-err_example =
    record_payout-err env_1 payout_2 eg payout_key world_1 unknown_restaurant

abbrev webhook_1 : ParsedWebhook
webhook_1 = record {
  event = some (codes "pay");
  transaction_id = some (codes "t1");
  merchant_order_id = order_id_1;
  kashier_order_id = codes "k1";
  status = codes "SUCCESS";
  signature_keys = some [];
}

abbrev envelope_1 : KashierWebhookEnvelope
envelope_1 = record {
  is_pay = true;
  content = record {
    transaction_id = codes "t1";
    merchant_order_id = order_id_1;
    kashier_order_id = codes "k1";
    is_success = true;
    signature_keys = [];
  };
}

-- A provider that takes one signature, and the texts of the errors.
abbrev verify_1 : KashierWebhookData → Text → Bool
verify_1 content signature = text_eq signature (codes "s")

abbrev message_1 : AppError → Text
message_1 e = codes "failed"

parsed_1 : parse_envelope (some webhook_1) ≡ ok envelope_1
unfolding parse_envelope text_eq
parsed_1 = refl

verified_1 : verify_1 envelope_1.content (codes "s") ≡ true
unfolding text_eq
verified_1 = refl

-- A world of later, with the event and an order that has moved on.
abbrev later_world : World
later_world = record world_1 {
  db = record world_1.db {
    orders = [];
    payment_webhook_events =
        record {
          id = 1;
          region = eg;
          provider_id = 1;
          provider_event_id = codes "t1";
          signature = codes "s";
          payload = envelope_1;
          received_at = 5000;
          processed_at = none;
          process_error = some (codes "e");
        }
        ∷ [];
  };
}

later_world-logged :
    is_logged kashier_provider_id envelope_1.content.transaction_id later_world ≡ true
unfolding is_logged text_eq
later_world-logged = refl

process_kashier_webhook-again_example :
    (is_logged kashier_provider_id envelope_1.content.transaction_id
        (process_kashier_webhook verify_1 message_1 env_1
          (some webhook_1)
          (some (codes "s"))
          eg
          world_1).1
      ≡ true)
    × (process_kashier_webhook verify_1 message_1 env_2
          (some webhook_1)
          (some (codes "s"))
          eg
          later_world
        ≡ (ok tt, later_world))
process_kashier_webhook-again_example =
    process_kashier_webhook-again verify_1 message_1 env_1 env_2 (some webhook_1) (some (codes "s"))
      eg envelope_1 (codes "s") parsed_1 refl verified_1 refl world_1 later_world later_world-logged

process_kashier_webhook-authentic_example :
    ((envelope : KashierWebhookEnvelope) × (signature : Text) × (parse_envelope none ≡ ok envelope)
      × (truthy (some (codes "s")) ≡ some signature)
      × (verify_1 envelope.content signature ≡ true))
    ⊎ ((e : AppError) × (process_kashier_webhook verify_1 message_1 env_1 none
            (some (codes "s"))
            eg
            world_1
          ≡ (err e, world_1)))
process_kashier_webhook-authentic_example =
    process_kashier_webhook-authentic verify_1 message_1 env_1 none (some (codes "s")) eg world_1

abbrev unpaid_order : OrderEntity
unpaid_order = order_in pending_payment online none

abbrev session_1 : PaymentSessionEntity
session_1 = record {
  id = 2;
  region = codes "eg";
  order_id = 1;
  provider_id = 1;
  provider_session_id = codes "ps1";
  redirect_url = [];
  amount = 160;
  currency = codes "EGP";
  status = initialized;
  raw_init_payload = [];
  raw_last_payload = none;
  created_at = 1000;
  updated_at = 1000;
}

abbrev unpaid_world : World
unpaid_world = record world_1 {
  db = record (db_with unpaid_order) { payment_sessions = session_1 ∷ [] };
}

Captures-order : Captures env_1 envelope_1 unpaid_world unpaid_order session_1
unfolding text_eq key_taken newest_session
Captures-order = record {
  is_payment = refl;
  succeeds = refl;
  found = refl;
  waiting = refl;
  opened = refl;
  stored = refl;
  fresh = refl;
  committed = refl;
}

reconcile-Captures_example :
    (reconcile env_1 eg envelope_1 unpaid_world
      ≡ (ok tt, after_capture env_1 eg envelope_1 unpaid_world unpaid_order session_1))
    × (find_where
          (has_public_id order_id_1)
          (reconcile env_1 eg envelope_1 unpaid_world).1.db.orders
        ≡ some (record unpaid_order { status = placed; updated_at = 5000 }))
reconcile-Captures_example =
    reconcile-Captures env_1 eg envelope_1 unpaid_world unpaid_order session_1 Captures-order
