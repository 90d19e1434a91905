-- ===== src/Order.antt =====
-- The order module of the service, app/order.
pub mod Enums
pub mod Status
pub mod Entity
pub mod Core
pub mod Drafts
pub mod Repo
pub mod Access
pub mod Service
pub mod Place
pub mod Response
pub mod Reads
pub mod CoreCache
