-- ===== src/Payment.antt =====
-- The payment module of the service, app/payment.
pub mod Entity
pub mod Repo
pub mod Ledger
pub mod Webhook
pub mod Service
