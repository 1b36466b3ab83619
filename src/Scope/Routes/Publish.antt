-- ===== src/Scope/Routes/Publish.antt =====
-- internal/auth/scope.go, part of the table `routeKeyAccess`: what a publish key may call.
use simple_host_enterprise.Common.{String, [], ◌∷◌}
use simple_host_enterprise.Common.Maps.{Map}
use simple_host_enterprise.Scope.Access.{KeyAccess, key_publish, site_api_pattern}

abbrev pub publish_routes : Map String KeyAccess
publish_routes =
    ("GET /api/me", key_publish)
    ∷ ("GET /api/sites", key_publish)
    ∷ ("POST /api/sites/{sitename}", key_publish)
    ∷ ("PUT /api/sites/{sitename}", key_publish)
    ∷ ("POST /api/sites/{sitename}/rollback", key_publish)
    ∷ ("GET /api/sites/{sitename}/versions", key_publish)
    ∷ ("GET /api/collaboration/sites", key_publish)
    ∷ ("GET /api/collaboration/sites/{owner}/{sitename}", key_publish)
    ∷ ("POST /api/collaboration/sites/{owner}/{sitename}", key_publish)
    ∷ ("PUT /api/collaboration/sites/{owner}/{sitename}", key_publish)
    ∷ ("POST /api/collaboration/sites/{owner}/{sitename}/rollback", key_publish)
    ∷ ("GET /api/collaboration/sites/{owner}/{sitename}/versions", key_publish)
    ∷ ("GET /api/collaboration/sites/{owner}/{sitename}/versions/{version}/archive", key_publish)
    ∷ ("GET /api/collaboration/sites/{owner}/{sitename}/versions/{version}/files", key_publish)
    ∷ ("GET /api/collaboration/sites/{owner}/{sitename}/versions/{version}/preview", key_publish)
    ∷ ("GET /api/collaboration/sites/{owner}/{sitename}/state-versions", key_publish)
    ∷ ("GET /api/collaboration/sites/{owner}/{sitename}/state-versions/{id}", key_publish)
    ∷ ("POST /api/collaboration/sites/{owner}/{sitename}/state-versions/{id}/restore", key_publish)
    ∷ ("GET /api/collaboration/sites/{owner}/{sitename}/assets", key_publish)
    ∷ ("GET /api/collaboration/sites/{owner}/{sitename}/storage", key_publish)
    ∷ (site_api_pattern, key_publish)
    ∷ ("POST /mcp", key_publish)
    ∷ ("GET /mcp", key_publish)
    ∷ ("DELETE /mcp", key_publish)
    ∷ []
