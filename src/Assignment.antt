-- ===== src/Assignment.antt =====
-- The assignment module of the service, app/assignment.
pub mod Offers
pub mod Claims
