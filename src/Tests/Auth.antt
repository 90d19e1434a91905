-- ===== src/Tests/Auth.antt =====
-- The permissions of a role before and after a change of them.
use quickbite_order_service.Prelude.{◌≡◌, refl, inl, some, [], ◌∷◌}
use quickbite_order_service.Prelude.Text.{codes}
use quickbite_order_service.Auth.Permissions.{
  PermissionCache, PermissionEnv, get_permissions, is_fresh, server, worker, PermissionCaches,
  cache_of, take_permissions_changed,
}
use quickbite_order_service.Auth.Permissions.Fresh.{get_permissions-changed}

-- Core gives the role one permission; the cache has it without any, since a moment.
abbrev permission_env : PermissionEnv
permission_env = record { now = 10; fetch = λ role. some (codes "orders:read" ∷ []) }

abbrev stale_cache : PermissionCache
stale_cache = λ role. some record { permissions = []; cached_at = 9 }

still_stale : (get_permissions permission_env (codes "manager") stale_cache).0 ≡ some []
unfolding get_permissions is_fresh
still_stale = refl

abbrev stale_caches : PermissionCaches
stale_caches = record { of_server = stale_cache; of_worker = stale_cache }

get_permissions-changed_example :
    let after = take_permissions_changed worker (some (some (codes "manager"))) stale_caches in
    ((get_permissions permission_env (codes "manager") (cache_of worker after)).0
      ≡ some (codes "orders:read" ∷ []))
    × (cache_of server after ≡ stale_cache)
get_permissions-changed_example =
    get_permissions-changed permission_env (codes "manager") (some (some (codes "manager"))) worker
      stale_caches (inl refl)
