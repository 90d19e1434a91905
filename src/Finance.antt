-- ===== src/Finance.antt =====
-- The finance module of the service, app/finance.
pub mod Entity
pub mod Repo
pub mod Service
