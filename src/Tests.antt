-- ===== src/Tests.antt =====
-- Runs of the modelled code on small data.
mod Data
mod Jobs
mod Events
mod Reads
mod Auth
mod Orders
mod Money
mod Delivery
