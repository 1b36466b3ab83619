-- ===== src/Scope/Laws.antt =====
-- What the classification of the routes promises.
use simple_host_enterprise.Common.{
  String, ◌≡◌, ◌≢◌, ◌↔◌, refl, sym, subst, ◌∙◌, Bool, true, false, not, some, arith, String_eq,
  ◌==◌, ==_iff, if◌then◌else◌, codes, all, Bool-cases, Option-cases, inl, inr, ◌⊎◌, false≢true,
  List_eq, ℕ_eq,
}
use simple_host_enterprise.Common.Maps.{lookup, all-lookup}
use simple_host_enterprise.Common.Text.{contains, has_prefix}
use simple_host_enterprise.Scope.{
  scope_publish, scope_full, scope_offboard, is_publish, is_offboard, is_never, scope_reaches,
  key_scope_allows, needs_admin_sign_in, needs_sign_in, key_scope_refusal, Request, request_pattern,
  is_storage_path,
}
use simple_host_enterprise.Scope.Access.{
  KeyAccess, key_never, key_full, key_publish, key_offboard, site_api_pattern,
  site_api_delete_pattern, site_api_storage_write_pattern,
}
use simple_host_enterprise.Scope.Routes.{route_key_access}

-- The one route of an offboard key.
abbrev pub disable_route : String
disable_route = "POST /api/admin/users/disable"

-- What an allowed call went through.
allows-reaches :
    (scope pattern : String)
    → key_scope_allows scope pattern ≡ true
    → (access : KeyAccess) × (lookup pattern route_key_access ≡ some access)
      × (scope_reaches scope access ≡ true)
unfolding key_scope_allows
allows-reaches scope pattern h = elim (Option-cases (lookup pattern route_key_access)) [
  | inl e ↦ absurd (false≢true (rw (e, key_scope_allows) at h))
  | inr (access, e) ↦ (access, e, rw (e, key_scope_allows) at h)
]

-- Tests of every entry of the table.
offboard_entry : String → KeyAccess → Bool
offboard_entry pattern access = if is_offboard access then pattern == disable_route else true

offboard_entries : all (λ (x : String × KeyAccess). offboard_entry x.0 x.1) route_key_access ≡ true
unfolding offboard_entry route_key_access
offboard_entries = refl

-- Is the pattern an administrator's route?
unfoldable pub is_admin_route : String → Bool
unfolding contains
is_admin_route pattern = contains (codes " /api/admin/") (codes pattern)

-- Does the pattern delete something?
unfoldable pub is_delete_route : String → Bool
unfolding has_prefix
is_delete_route pattern = has_prefix (codes "DELETE ") (codes pattern)

admin_entry : String → KeyAccess → Bool
unfolding is_admin_route
admin_entry pattern access =
    if is_admin_route pattern
    then (if is_never (some access) then true else pattern == disable_route)
    else true

admin_entries : all (λ (x : String × KeyAccess). admin_entry x.0 x.1) route_key_access ≡ true
unfolding admin_entry route_key_access
admin_entries = refl

delete_entry : String → KeyAccess → Bool
unfolding is_delete_route
delete_entry pattern access =
    if is_delete_route pattern
    then (if is_publish access then pattern == "DELETE /mcp" else true)
    else true

delete_entries : all (λ (x : String × KeyAccess). delete_entry x.0 x.1) route_key_access ≡ true
unfolding delete_entry route_key_access
delete_entries = refl

-- What each scope's switch lets through.
publish-reaches :
    (access : KeyAccess) → scope_reaches scope_publish access ≡ true → is_publish access ≡ true
unfolding scope_reaches
publish-reaches access h = h

full-reaches :
    (access : KeyAccess) → is_publish access ≡ true → scope_reaches scope_full access ≡ true
unfolding scope_reaches
full-reaches key_publish h = refl
full-reaches key_never h = cc
full-reaches key_full h = cc
full-reaches key_offboard h = cc

offboard-reaches :
    (access : KeyAccess) → scope_reaches scope_offboard access ≡ true → is_offboard access ≡ true
unfolding scope_reaches
offboard-reaches access h = h

never-unreached : (scope : String) → scope_reaches scope key_never ≡ false
unfolding scope_reaches
never-unreached scope =
    ground (arith, ==_iff scope scope_publish, ==_iff scope scope_full, ==_iff scope scope_offboard)

admin_absurd :
    (scope pattern : String) (access : KeyAccess)
    → is_admin_route pattern ≡ true
    → pattern ≢ disable_route
    → admin_entry pattern access ≡ true
    → scope_reaches scope access ≡ true
    → ⊥
unfolding admin_entry
admin_absurd scope pattern key_never admin other entry reach =
    absurd (false≢true (sym (never-unreached scope) ∙ reach))
admin_absurd scope pattern access admin other entry reach =
    other ((==_iff pattern disable_route).0 (rw (admin, admin_entry) at entry))

-- Whatever a publish key may call, a full key may call.
pub publish_within_full :
    (pattern : String)
    → key_scope_allows scope_publish pattern ≡ true
    → key_scope_allows scope_full pattern ≡ true
unfolding key_scope_allows
publish_within_full pattern h = elim (Option-cases (lookup pattern route_key_access)) [
  | inl e ↦ absurd (false≢true (rw (e, key_scope_allows) at h))
  | inr (access, e) ↦
      rw (e, key_scope_allows)
        (full-reaches access (publish-reaches access (rw (e, key_scope_allows) at h)))
]

offboard_to :
    (pattern : String) → key_scope_allows scope_offboard pattern ≡ true → pattern ≡ disable_route
unfolding offboard_entry
offboard_to pattern h =
    let (access, e, reach) = allows-reaches scope_offboard pattern h in
    let entry = all-lookup offboard_entry route_key_access pattern access offboard_entries e in
    (==_iff pattern disable_route).0 (rw (offboard-reaches access reach, offboard_entry) at entry)

offboard_from : key_scope_allows scope_offboard disable_route ≡ true
unfolding key_scope_allows scope_reaches lookup route_key_access
offboard_from = refl

-- An offboard key may call the route that disables an account, and no other.
pub offboard_only_disables :
    (pattern : String)
    → (key_scope_allows scope_offboard pattern ≡ true) ↔ (pattern ≡ disable_route)
offboard_only_disables pattern = (
  offboard_to pattern,
  λ e. subst (λ p. key_scope_allows scope_offboard p ≡ true) (sym e) offboard_from,
)

is_never-eq : (access : KeyAccess) → is_never (some access) ≡ true → access ≡ key_never
is_never-eq key_never h = refl
is_never-eq key_full h = cc
is_never-eq key_publish h = cc
is_never-eq key_offboard h = cc

-- A pattern under `/api/admin/` other than the route that disables an account is refused to every
-- key, of whatever scope, whether or not the table lists it.
pub admin_refused :
    (scope pattern : String)
    → is_admin_route pattern ≡ true
    → pattern ≢ disable_route
    → key_scope_allows scope pattern ≡ false
admin_refused scope pattern admin other = elim (Bool-cases (key_scope_allows scope pattern)) [
  | inr e ↦ e
  | inl h ↦
      let (access, e, reach) = allows-reaches scope pattern h in
      let entry = all-lookup admin_entry route_key_access pattern access admin_entries e in
      absurd (admin_absurd scope pattern access admin other entry reach)
]

-- A publish key deletes nothing: of the patterns whose method is DELETE it may call only the one
-- that ends a session of the tool protocol.
pub publish_never_deletes :
    (pattern : String)
    → is_delete_route pattern ≡ true
    → key_scope_allows scope_publish pattern ≡ true
    → pattern ≡ "DELETE /mcp"
unfolding delete_entry
publish_never_deletes pattern deletes h =
    let (access, e, reach) = allows-reaches scope_publish pattern h in
    let entry = all-lookup delete_entry route_key_access pattern access delete_entries e in
    (==_iff pattern "DELETE /mcp").0
      (rw (deletes, publish-reaches access reach, delete_entry) at entry)

refusal-never :
    (scope pattern : String)
    → ((key_scope_refusal scope pattern ≡ needs_admin_sign_in)
        ⊎ (key_scope_refusal scope pattern ≡ needs_sign_in))
    → is_never (lookup pattern route_key_access) ≡ true
unfolding key_scope_refusal
refusal-never scope pattern h = ground (arith, h)

never-refused :
    (scope pattern : String) (access : KeyAccess)
    → lookup pattern route_key_access ≡ some access
    → is_never (some access) ≡ true
    → key_scope_allows scope pattern ≡ false
unfolding key_scope_allows
never-refused scope pattern key_never e h = rw (e, key_scope_allows) (never-unreached scope)
never-refused scope pattern key_full e h = cc
never-refused scope pattern key_publish e h = cc
never-refused scope pattern key_offboard e h = cc

-- A refusal that says no key can call the route is true of every scope.
pub refusal_sound :
    (scope other pattern : String)
    → ((key_scope_refusal scope pattern ≡ needs_admin_sign_in)
        ⊎ (key_scope_refusal scope pattern ≡ needs_sign_in))
    → key_scope_allows other pattern ≡ false
refusal_sound scope other pattern h =
    let never = refusal-never scope pattern h in
    elim (Option-cases (lookup pattern route_key_access)) [
      | inl e ↦ absurd (false≢true (rw e at never))
      | inr (access, e) ↦ never-refused other pattern access e (rw e at never)
    ]

-- What a publish key may do through the site API: everything but a DELETE and a write below `storage`.
unfoldable pub publish_may : Request → Bool
publish_may r =
    if r.method == "DELETE"
    then false
    else if r.method == "GET"
    then true
    else if r.method == "HEAD"
    then true
    else not (is_storage_path (codes r.path))

site_api_full :
    (key_scope_allows scope_full site_api_pattern ≡ true)
    × (key_scope_allows scope_full site_api_delete_pattern ≡ true)
    × (key_scope_allows scope_full site_api_storage_write_pattern ≡ true)
unfolding key_scope_allows scope_reaches lookup route_key_access
site_api_full = (refl, refl, refl)

site_api_publish :
    (key_scope_allows scope_publish site_api_pattern ≡ true)
    × (key_scope_allows scope_publish site_api_delete_pattern ≡ false)
    × (key_scope_allows scope_publish site_api_storage_write_pattern ≡ false)
unfolding key_scope_allows scope_reaches lookup route_key_access
site_api_publish = (refl, refl, refl)

-- On a request that came in by its site's own API, a full key is always allowed; a publish key is
-- allowed to read, and to write outside `storage`, but neither to delete nor to write below
-- `storage`.
pub site_api_scopes :
    (r : Request)
    → r.site_api ≡ true
    → (key_scope_allows scope_full (request_pattern r) ≡ true)
      × (key_scope_allows scope_publish (request_pattern r) ≡ publish_may r)
unfolding request_pattern publish_may
site_api_scopes r h = ground (arith, site_api_full, site_api_publish, h)
