-- ===== src/Http.antt =====
-- What the routes share, lib/http.
pub mod Pagination
pub mod Filters
