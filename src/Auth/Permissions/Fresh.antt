-- ===== src/Auth/Permissions/Fresh.antt =====
-- How old the permissions that decide a request can be.
use quickbite_order_service.Prelude.{
  ◌≡◌, refl, ◌⊎◌, inl, inr, Option, none, some, [], ◌∷◌, Option-cases,
}
use quickbite_order_service.Prelude.Text.{Text, text_eq_refl}
use quickbite_order_service.Auth.Permissions.{
  PermissionCache, PermissionEnv, Process, server, worker, PermissionCaches, cache_of,
  take_permissions_changed, fetch_permissions, get_permissions, invalidate,
  handle_permissions_changed,
}

fetched_answer :
    (env : PermissionEnv) (role : Text) (cache : PermissionCache)
    → (fetch_permissions env role cache).0 ≡ env.fetch role
unfolding fetch_permissions
fetched_answer env role cache = elim (Option-cases (env.fetch role)) [
  | inl e ↦ rw (fetch_permissions, e) refl
  | inr (ps, e) ↦ rw (fetch_permissions, e) refl
]

uncached_answer :
    (env : PermissionEnv) (role : Text) (cache : PermissionCache)
    → cache role ≡ none
    → (get_permissions env role cache).0 ≡ env.fetch role
unfolding get_permissions
uncached_answer env role cache e = rw (get_permissions, e) (fetched_answer env role cache)

-- The change of a role is of that role; that of an empty, a missing or no role is of all of them.
invalidated :
    (role : Text) (cache : PermissionCache)
    → (invalidate (some role) cache role ≡ none) × (invalidate none cache role ≡ none)
unfolding invalidate
invalidated [] cache = (refl, refl)
invalidated (c ∷ cs) cache = (rw (text_eq_refl (c ∷ cs)) refl, refl)

changed_role :
    (env : PermissionEnv) (role : Text) (payload : Option (Option Text)) (cache : PermissionCache)
    → (payload ≡ some (some role)) ⊎ (payload ≡ some none) ⊎ (payload ≡ none)
    → (get_permissions env role (handle_permissions_changed payload cache)).0 ≡ env.fetch role
unfolding get_permissions fetch_permissions invalidate
changed_role env role payload cache h =
    uncached_answer env role (handle_permissions_changed payload cache) (elim h [
      | inl e ↦ rw e (invalidated role cache).0
      | inr other ↦ elim other [
        | inl e ↦ rw e (invalidated role cache).1
        | inr e ↦ rw e (invalidated role cache).1
      ]
    ])

abbrev pub other_process : Process → Process
other_process server = worker
other_process worker = server

-- Once a process, the server or the worker, has taken the message that a role's permissions have
-- changed, or all roles' have, its next request of the role gets what core answers then, an error
-- included; the cache of the other process stays as it was.
pub get_permissions-changed :
    (env : PermissionEnv) (role : Text) (payload : Option (Option Text)) (taker : Process)
    (caches : PermissionCaches)
    → (payload ≡ some (some role)) ⊎ (payload ≡ some none) ⊎ (payload ≡ none)
    → ((get_permissions env role (cache_of taker (take_permissions_changed taker payload caches))).0
        ≡ env.fetch role)
      × (cache_of (other_process taker) (take_permissions_changed taker payload caches)
          ≡ cache_of (other_process taker) caches)
unfolding take_permissions_changed
get_permissions-changed env role payload server caches h =
    (changed_role env role payload caches.of_server h, refl)
get_permissions-changed env role payload worker caches h =
    (changed_role env role payload caches.of_worker h, refl)
