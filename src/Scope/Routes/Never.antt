-- ===== src/Scope/Routes/Never.antt =====
-- internal/auth/scope.go, part of the table `routeKeyAccess`: the offboarding route, and the routes that no key may call.
use simple_host_enterprise.Common.{String, [], ◌∷◌}
use simple_host_enterprise.Common.Maps.{Map}
use simple_host_enterprise.Scope.Access.{KeyAccess, key_never, key_offboard}

abbrev pub never_routes : Map String KeyAccess
never_routes =
    ("POST /api/admin/users/disable", key_offboard)
    ∷ ("GET /admin", key_never)
    ∷ ("POST /api/admin/users/{username}/disable", key_never)
    ∷ ("POST /api/admin/users/{username}/enable", key_never)
    ∷ ("POST /api/admin/users/{username}/rename", key_never)
    ∷ ("POST /api/admin/teams/{team}/delete", key_never)
    ∷ ("POST /api/admin/sites/{owner}/{sitename}/transfer", key_never)
    ∷ ("POST /api/admin/users/{username}/transfer-sites", key_never)
    ∷ ("POST /api/admin/users/{username}/delete-sites", key_never)
    ∷ ("GET /api/admin/users/{username}/export", key_never)
    ∷ ("POST /api/admin/users/{username}/erase", key_never)
    ∷ ("GET /api/admin/erased-identities", key_never)
    ∷ ("POST /api/admin/erased-identities/{id}/allow", key_never)
    ∷ ("GET /api/admin/export", key_never)
    ∷ ("POST /api/admin/keys/revoke", key_never)
    ∷ ("GET /api/admin/deleted-sites", key_never)
    ∷ ("POST /api/admin/deleted-sites/{owner}/{sitename}/restore", key_never)
    ∷ ("POST /api/admin/access-requests/{owner}/{sitename}/approve", key_never)
    ∷ ("POST /api/admin/access-requests/{owner}/{sitename}/decline", key_never)
    ∷ ("POST /api/admin/access-requests/{owner}/{sitename}/revoke", key_never)
    ∷ ("POST /api/admin/sites/{owner}/{sitename}/restrict", key_never)
    ∷ ("POST /api/admin/sites/{owner}/{sitename}/unrestrict", key_never)
    ∷ ("GET /", key_never)
    ∷ ("GET /{$}", key_never)
    ∷ ("GET /openapi.yaml", key_never)
    ∷ ("GET /capabilities.html", key_never)
    ∷ ("GET /favicon.svg", key_never)
    ∷ ("GET /favicon.ico", key_never)
    ∷ ("GET /favicon-32.png", key_never)
    ∷ ("GET /apple-touch-icon.png", key_never)
    ∷ ("GET /healthz", key_never)
    ∷ ("GET /readyz", key_never)
    ∷ ("GET /metrics", key_never)
    ∷ ("GET /dashboard", key_never)
    ∷ ("GET /api/site-export/{token}", key_never)
    ∷ ("GET /showcase", key_never)
    ∷ ("GET /plugin.zip", key_never)
    ∷ ("GET /skills.zip", key_never)
    ∷ ("GET /skills/version", key_never)
    ∷ ("GET /skills/sha256/{digest}/skills.zip", key_never)
    ∷ ("GET /auth/login", key_never)
    ∷ ("GET /auth/callback", key_never)
    ∷ ("GET /.well-known/oauth-protected-resource", key_never)
    ∷ ("GET /.well-known/oauth-protected-resource/mcp", key_never)
    ∷ ("GET /.well-known/oauth-authorization-server", key_never)
    ∷ ("GET /.well-known/muse-client.json", key_never)
    ∷ ("POST /oauth/register", key_never)
    ∷ ("GET /oauth/authorize", key_never)
    ∷ ("POST /oauth/token", key_never)
    ∷ ("POST /oauth/revoke", key_never)
    ∷ []
