-- ===== src/Scope/Access.antt =====
-- internal/auth/scope.go: how a route is classified, and the patterns that stand for the site API.
use simple_host_enterprise.Common.{String}

pub data KeyAccess : Type 0 where
  key_never key_full key_publish key_offboard : KeyAccess

abbrev pub site_api_pattern : String
site_api_pattern = "HOSTGATE /api/sites/{site}/{state|assets}"

abbrev pub site_api_delete_pattern : String
site_api_delete_pattern = "HOSTGATE DELETE /api/sites/{site}/assets/{id}"

abbrev pub site_api_storage_write_pattern : String
site_api_storage_write_pattern = "HOSTGATE WRITE /api/sites/{site}/storage/..."
