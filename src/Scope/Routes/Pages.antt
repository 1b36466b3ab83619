-- ===== src/Scope/Routes/Pages.antt =====
-- internal/auth/scope.go, part of the table `routeKeyAccess`: the discovery documents, notifications, photos and profile routes.
use simple_host_enterprise.Common.{String, [], ◌∷◌}
use simple_host_enterprise.Common.Maps.{Map}
use simple_host_enterprise.Scope.Access.{KeyAccess, key_full, key_never, key_publish}

abbrev pub page_routes : Map String KeyAccess
page_routes =
    ("GET /openapi.json", key_never)
    ∷ ("GET /index.md", key_never)
    ∷ ("GET /llms.txt", key_never)
    ∷ ("GET /auth.md", key_never)
    ∷ ("GET /.well-known/mcp/server-card.json", key_never)
    ∷ ("GET /.well-known/agent-card.json", key_never)
    ∷ ("GET /.well-known/ard.json", key_never)
    ∷ ("GET /.well-known/api-catalog", key_never)
    ∷ ("GET /api/notifications", key_full)
    ∷ ("GET /api/sites/{sitename}/notifications", key_full)
    ∷ ("POST /api/sites/{sitename}/notifications", key_full)
    ∷ ("PATCH /api/sites/{sitename}/notifications/{id}", key_full)
    ∷ ("DELETE /api/sites/{sitename}/notifications/{id}", key_full)
    ∷ ("POST /api/sites/{sitename}/notifications/{id}/test", key_full)
    ∷ ("POST /api/sites/{sitename}/notifications/{id}/rotate-secret", key_full)
    ∷ ("GET /api/sites/{sitename}/notifications/{id}/deliveries", key_full)
    ∷ ("GET /api/collaboration/sites/{owner}/{sitename}/notifications", key_full)
    ∷ ("POST /api/collaboration/sites/{owner}/{sitename}/notifications", key_full)
    ∷ ("PATCH /api/collaboration/sites/{owner}/{sitename}/notifications/{id}", key_full)
    ∷ ("DELETE /api/collaboration/sites/{owner}/{sitename}/notifications/{id}", key_full)
    ∷ ("POST /api/collaboration/sites/{owner}/{sitename}/notifications/{id}/test", key_full)
    ∷ (
      "POST /api/collaboration/sites/{owner}/{sitename}/notifications/{id}/rotate-secret", key_full,
    )
    ∷ ("GET /api/collaboration/sites/{owner}/{sitename}/notifications/{id}/deliveries", key_full)
    ∷ ("POST /v1/sites/{site}/photos", key_publish)
    ∷ ("GET /photos", key_never)
    ∷ ("GET /photo-codecs/v3/{file}", key_never)
    ∷ ("GET /api/me/home", key_never)
    ∷ ("PUT /api/me/home", key_never)
    ∷ ("GET /api/me/bio", key_never)
    ∷ ("PUT /api/me/bio", key_never)
    ∷ ("GET /api/sites/{sitename}/showcase", key_never)
    ∷ ("PUT /api/sites/{sitename}/showcase", key_never)
    ∷ []
