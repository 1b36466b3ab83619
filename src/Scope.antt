-- ===== src/Scope.antt =====
-- internal/auth/scope.go: which API keys may call a route.
pub mod Access
pub mod Routes
pub mod Laws
mod Tests
use simple_host_enterprise.Common.{
  String, Bool, true, false, ◌&&◌, ◌||◌, not, Option, none, some, String_eq, ◌==◌, if◌then◌else◌,
  Bytes, codes, List_eq, ℕ_eq,
}
use simple_host_enterprise.Common.Maps.{lookup}
use simple_host_enterprise.Common.Text.{has_prefix, has_suffix, cut_prefix, contains, after_byte}
use simple_host_enterprise.Scope.Access.{
  KeyAccess, key_never, key_full, key_publish, key_offboard, site_api_pattern,
  site_api_delete_pattern, site_api_storage_write_pattern,
}
use simple_host_enterprise.Scope.Routes.{route_key_access}

abbrev pub scope_publish : String
scope_publish = "publish"

abbrev pub scope_full : String
scope_full = "full"

abbrev pub scope_offboard : String
scope_offboard = "offboard"

abbrev pub is_publish : KeyAccess → Bool
is_publish key_publish = true
is_publish _ = false

abbrev pub is_full : KeyAccess → Bool
is_full key_full = true
is_full _ = false

abbrev pub is_offboard : KeyAccess → Bool
is_offboard key_offboard = true
is_offboard _ = false

-- The switch of `KeyScopeAllows` on the key's scope.
unfoldable pub scope_reaches : String → KeyAccess → Bool
scope_reaches scope access =
    if scope == scope_publish
    then is_publish access
    else if scope == scope_full
    then is_publish access || is_full access
    else if scope == scope_offboard
    then is_offboard access
    else false

-- `KeyScopeAllows`: a pattern that the table does not hold is refused to every key.
unfoldable pub key_scope_allows : String → String → Bool
key_scope_allows scope pattern = elim (lookup pattern route_key_access) [
  | none ↦ false
  | some access ↦ scope_reaches scope access
]

-- The messages of `KeyScopeRefusal`; the last is followed by the name of the scope.
pub data Refusal : Type 0 where
  offboard_only needs_admin_sign_in needs_sign_in : Refusal
  wrong_scope : String → Refusal

abbrev pub is_never : Option KeyAccess → Bool
is_never (some key_never) = true
is_never _ = false

unfoldable pub key_scope_refusal : String → String → Refusal
key_scope_refusal scope pattern =
    if scope == scope_offboard
    then offboard_only
    else if is_never (lookup pattern route_key_access)
    then (if contains (codes " /api/admin/") (codes pattern)
          || has_suffix (codes " /admin") (codes pattern)
        then needs_admin_sign_in
        else needs_sign_in)
    else wrong_scope scope

-- What the scope check reads of a request: whether the host gate marked it as its site API
-- (`WithSiteAPI`), the method, the path and the pattern that the mux matched.
pub record Request : Type 0 where
  pub site_api : Bool
  pub method : String
  pub path : String
  pub pattern : String

-- A path below `/api/site/` or below `/api/sites/{site}/`: is it `storage` or under it?
unfoldable pub is_storage_suffix : Bytes → Bool
is_storage_suffix rest = rest == codes "storage" || has_prefix (codes "storage/") rest

unfoldable pub is_storage_path : Bytes → Bool
is_storage_path p = elim (cut_prefix (codes "/api/site/") p) [
  | some rest ↦ is_storage_suffix rest
  | none ↦ elim (cut_prefix (codes "/api/sites/") p) [
    | some rest ↦ is_storage_suffix (after_byte b'/' rest)
    | none ↦ false
  ]
]

unfoldable pub request_pattern : Request → String
request_pattern r =
    if r.site_api
    then (if r.method == "DELETE"
        then site_api_delete_pattern
        else if not (r.method == "GET")
            && not (r.method == "HEAD")
            && is_storage_path (codes r.path)
        then site_api_storage_write_pattern
        else site_api_pattern)
    else r.pattern
