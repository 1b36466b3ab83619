-- ===== src/Scope/Routes.antt =====
-- internal/auth/scope.go: the table `routeKeyAccess`, in the four parts of its children.
mod Pages
mod Publish
mod Full
mod Never
use simple_host_enterprise.Common.{String, ◌++◌}
use simple_host_enterprise.Common.Maps.{Map}
use simple_host_enterprise.Scope.Access.{KeyAccess}
pub use Pages.{page_routes}
pub use Publish.{publish_routes}
pub use Full.{full_routes}
pub use Never.{never_routes}

-- The entries in the order of the source; a key stands once.
unfoldable pub route_key_access : Map String KeyAccess
route_key_access = page_routes ++ (publish_routes ++ (full_routes ++ never_routes))
