-- ===== src/SafePath/Tests.antt =====
-- The theorem on canonical paths at a concrete path, and paths that are refused.
use simple_host_enterprise.Common.{◌≡◌, ◌⊎◌, refl, true, false, ℕ_eq, List_eq, codes, ok, err}
use simple_host_enterprise.Common.Text.{has_prefix, has_suffix}
use simple_host_enterprise.SafePath.{
  not_canonical, not_relative, valid_utf8, has_control, validate_segment, split, join, clean_parts,
  clean, trim_dots, trim_slash, validate_all, check_value, check_relative, canonical_relative_path,
}
use simple_host_enterprise.SafePath.Laws.{IsSafe, canonical_relative_path-IsSafe}

accepted : canonical_relative_path (codes "././css/site.css") false ≡ ok (codes "css/site.css")
unfolding canonical_relative_path check_relative check_value validate_all trim_slash trim_dots clean
    clean_parts join split validate_segment has_control valid_utf8 has_prefix has_suffix
accepted = refl

climbs : canonical_relative_path (codes "a/../../b") false ≡ err not_canonical
unfolding canonical_relative_path check_relative check_value validate_all trim_slash trim_dots clean
    clean_parts join split validate_segment has_control valid_utf8 has_prefix has_suffix
climbs = refl

absolute : canonical_relative_path (codes "/etc/passwd") false ≡ err not_relative
unfolding canonical_relative_path check_relative check_value validate_all trim_slash trim_dots clean
    clean_parts join split validate_segment has_control valid_utf8 has_prefix has_suffix
absolute = refl

doubled : canonical_relative_path (codes "a//b") false ≡ err not_canonical
unfolding canonical_relative_path check_relative check_value validate_all trim_slash trim_dots clean
    clean_parts join split validate_segment has_control valid_utf8 has_prefix has_suffix
doubled = refl

canonical_relative_path-IsSafe_example :
    ((false ≡ true) × (codes "css/site.css" ≡ codes ".")) ⊎ IsSafe (codes "css/site.css")
canonical_relative_path-IsSafe_example =
    canonical_relative_path-IsSafe (codes "././css/site.css") false (codes "css/site.css") accepted
