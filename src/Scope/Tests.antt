-- ===== src/Scope/Tests.antt =====
-- The theorems on the key scopes at concrete routes, and runs of the tests of internal/auth/scope.go.
use simple_host_enterprise.Common.{
  String, ◌≡◌, ◌≢◌, refl, true, false, String_eq, ==_iff, false≢true,
}
use simple_host_enterprise.Common.Maps.{lookup}
use simple_host_enterprise.Common.Text.{contains, has_prefix, cut_prefix}
use simple_host_enterprise.Scope.{
  scope_publish, scope_full, scope_reaches, key_scope_allows, key_scope_refusal,
  needs_admin_sign_in, Request, is_storage_path, is_storage_suffix,
}
use simple_host_enterprise.Scope.Routes.{route_key_access}
use simple_host_enterprise.Scope.Laws.{disable_route, is_admin_route, is_delete_route, publish_may}

deploy_allowed : key_scope_allows scope_publish "PUT /api/sites/{sitename}" ≡ true
unfolding key_scope_allows scope_reaches lookup route_key_access
deploy_allowed = refl

abbrev purge_route : String
purge_route = "POST /api/admin/keys/revoke"

purge_admin : is_admin_route purge_route ≡ true
unfolding is_admin_route contains has_prefix
purge_admin = refl

purge_other : purge_route ≢ disable_route
purge_other e = false≢true ((==_iff purge_route disable_route).1 e)

end_session_deletes : is_delete_route "DELETE /mcp" ≡ true
unfolding is_delete_route has_prefix
end_session_deletes = refl

end_session_allowed : key_scope_allows scope_publish "DELETE /mcp" ≡ true
unfolding key_scope_allows scope_reaches lookup route_key_access
end_session_allowed = refl

purge_refusal : key_scope_refusal scope_full "GET /api/admin/export" ≡ needs_admin_sign_in
unfolding key_scope_refusal lookup route_key_access contains has_prefix
purge_refusal = refl

abbrev put_file : Request
put_file = record { site_api = true; method = "PUT"; path = "/api/site/storage/logo"; pattern = "" }

put_file_refused : publish_may put_file ≡ false
unfolding publish_may is_storage_path is_storage_suffix cut_prefix has_prefix
put_file_refused = refl
