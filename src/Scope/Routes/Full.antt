-- ===== src/Scope/Routes/Full.antt =====
-- internal/auth/scope.go, part of the table `routeKeyAccess`: what a full key alone may call, and the session-only routes.
use simple_host_enterprise.Common.{String, [], ◌∷◌}
use simple_host_enterprise.Common.Maps.{Map}
use simple_host_enterprise.Scope.Access.{
  KeyAccess, key_full, site_api_delete_pattern, site_api_storage_write_pattern,
}

abbrev pub full_routes : Map String KeyAccess
full_routes =
    ("DELETE /api/sites/{sitename}", key_full)
    ∷ ("DELETE /api/collaboration/sites/{owner}/{sitename}/assets/{id}", key_full)
    ∷ ("PUT /api/collaboration/sites/{owner}/{sitename}/storage/resources/{name}", key_full)
    ∷ ("DELETE /api/collaboration/sites/{owner}/{sitename}/storage/resources/{name}", key_full)
    ∷ (site_api_delete_pattern, key_full)
    ∷ (site_api_storage_write_pattern, key_full)
    ∷ ("DELETE /api/collaboration/sites/{owner}/{sitename}", key_full)
    ∷ ("POST /api/sites/{sitename}/transfer", key_full)
    ∷ ("POST /api/collaboration/sites/{owner}/{sitename}/transfer", key_full)
    ∷ ("POST /api/sites/{sitename}/rename", key_full)
    ∷ ("POST /api/collaboration/sites/{owner}/{sitename}/rename", key_full)
    ∷ ("POST /api/sites/{sitename}/keep", key_full)
    ∷ ("POST /api/collaboration/sites/{owner}/{sitename}/keep", key_full)
    ∷ ("GET /api/deleted-sites", key_full)
    ∷ ("POST /api/sites/{sitename}/restore", key_full)
    ∷ ("POST /api/collaboration/sites/{owner}/{sitename}/restore", key_full)
    ∷ ("POST /api/collaboration/sites/{owner}/{sitename}/export-link", key_full)
    ∷ ("POST /api/sites/{sitename}/access", key_full)
    ∷ ("POST /api/collaboration/sites/{owner}/{sitename}/access", key_full)
    ∷ ("GET /api/collaboration/sites/{owner}/{sitename}/viewers", key_full)
    ∷ ("POST /api/collaboration/sites/{owner}/{sitename}/viewers", key_full)
    ∷ ("DELETE /api/collaboration/sites/{owner}/{sitename}/viewers/{username}", key_full)
    ∷ ("GET /api/collaboration/sites/{owner}/{sitename}/viewer-candidates", key_full)
    ∷ ("POST /api/teams", key_full)
    ∷ ("GET /api/teams", key_full)
    ∷ ("GET /api/teams/{team}/members", key_full)
    ∷ ("GET /api/teams/{team}/member-candidates", key_full)
    ∷ ("POST /api/teams/{team}/members", key_full)
    ∷ ("DELETE /api/teams/{team}/members/{username}", key_full)
    ∷ ("POST /api/teams/{team}/leave", key_full)
    ∷ ("DELETE /api/teams/{team}", key_full)
    ∷ ("GET /api/audit", key_full)
    ∷ ("GET /api/access", key_full)
    ∷ ("GET /api/search", key_full)
    ∷ ("POST /api/search/click", key_full)
    ∷ ("GET /api/keys", key_full)
    ∷ ("POST /api/keys", key_full)
    ∷ ("DELETE /api/keys/{id}", key_full)
    ∷ ("GET /api/me/connections", key_full)
    ∷ ("DELETE /api/me/connections/{id}", key_full)
    ∷ ("POST /auth/sessions/revoke-all", key_full)
    ∷ ("GET /auth/handoff", key_full)
    ∷ ("GET /auth/sessions", key_full)
    ∷ ("POST /auth/sessions/{id}/revoke", key_full)
    ∷ ("POST /auth/logout", key_full)
    ∷ ("POST /oauth/authorize", key_full)
    ∷ []
