-- ===== src/Auth/Permissions.antt =====
-- The permissions of the restaurant roles, cached for an hour: lib/rbac/permission-cache.service.ts,
-- with the call of lib/core-client/rbac.client.ts as an argument.
pub mod Fresh
use quickbite_order_service.Prelude.{
  ℕ, ◌+◌, ◌-◌, ◌*◌, ◌++◌, Bool, true, false, Option, none, some, List, [], ◌∷◌, ltb, if◌then◌else◌,
  any,
}
use quickbite_order_service.Prelude.Text.{Text, codes, text_eq}

pub record CachedPermissions : Type 0 where
  pub permissions : List Text
  pub cached_at : ℕ

-- The map from roles to what is cached of them.
abbrev pub PermissionCache : Type 0
PermissionCache = Text → Option CachedPermissions

abbrev permissions_ttl : ℕ
permissions_ttl = 60 * 60 * 1000

-- What a request finds around it: the time, and what core answers for a role, unless the call fails.
pub record PermissionEnv : Type 0 where
  pub now : ℕ
  pub fetch : Text → Option (List Text)

unfoldable pub is_fresh : ℕ → CachedPermissions → Bool
is_fresh now cached = ltb now (cached.cached_at + permissions_ttl)

abbrev set_cached : Text → Option CachedPermissions → PermissionCache → PermissionCache
set_cached role entry cache r = if text_eq role r then entry else cache r

unfoldable pub fetch_permissions :
    PermissionEnv → Text → PermissionCache → Option (List Text) × PermissionCache
fetch_permissions env role cache = elim (env.fetch role) [
  | none ↦ (none, cache)
  | some permissions ↦ (
    some permissions,
    set_cached role (some record { permissions = permissions; cached_at = env.now }) cache,
  )
]

-- The answer is `none` when the call of core throws.
unfoldable pub get_permissions :
    PermissionEnv → Text → PermissionCache → Option (List Text) × PermissionCache
get_permissions env role cache = elim (cache role) [
  | none ↦ fetch_permissions env role cache
  | some cached ↦
      if is_fresh env.now cached
      then (some cached.permissions, cache)
      else fetch_permissions env role cache
]

unfoldable pub has_permission : List Text → Text → Text → Bool
has_permission permissions resource action =
    any (λ p. text_eq p (resource ++ codes ":" ++ action)) permissions

-- An empty role name clears the cache as a missing one does.
unfoldable pub invalidate : Option Text → PermissionCache → PermissionCache
invalidate (some (c ∷ cs)) cache = set_cached (c ∷ cs) none cache
invalidate (some []) cache = λ r. none
invalidate none cache = λ r. none

-- The payload's role, in the cache of the process that takes the message, of a payload that may be missing.
abbrev pub handle_permissions_changed : Option (Option Text) → PermissionCache → PermissionCache
handle_permissions_changed none cache = invalidate none cache
handle_permissions_changed (some role) cache = invalidate role cache

-- The server and the worker have a cache each. Both consume the one queue of core's events, so that
-- one of them takes a message.
pub data Process : Type 0 where
  server worker : Process

pub record PermissionCaches : Type 0 where
  pub of_server : PermissionCache
  pub of_worker : PermissionCache

abbrev pub cache_of : Process → PermissionCaches → PermissionCache
cache_of server caches = caches.of_server
cache_of worker caches = caches.of_worker

unfoldable pub take_permissions_changed :
    Process → Option (Option Text) → PermissionCaches → PermissionCaches
take_permissions_changed server payload caches = record caches {
  of_server = handle_permissions_changed payload caches.of_server;
}
take_permissions_changed worker payload caches = record caches {
  of_worker = handle_permissions_changed payload caches.of_worker;
}
