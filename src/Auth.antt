-- ===== src/Auth.antt =====
-- Who may call a route: lib/auth/rbac.ts and lib/rbac.
pub mod Permissions
pub mod Guards
