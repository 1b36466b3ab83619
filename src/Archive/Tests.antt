-- ===== src/Archive/Tests.antt =====
-- The theorems on extraction at a small ZIP archive, and archives that are refused.
use simple_host_enterprise.Common.{
  ℕ, String, ◌≤◌, ◌≡◌, ◌≢◌, refl, false, some, List, [], ◌∷◌, ◌++◌, ℕ_eq, List_eq, Bytes, codes,
  length, sum_by, All, ok, err,
}
use simple_host_enterprise.Common.Maps.{Map, lookup, insert}
use simple_host_enterprise.Common.Text.{has_prefix, has_suffix}
use simple_host_enterprise.SafePath.{
  valid_utf8, has_control, validate_segment, split, join, clean_parts, clean, trim_dots, trim_slash,
  validate_all, check_value, check_relative, canonical_relative_path,
}
use simple_host_enterprise.Archive.Tracker.{
  file_ancestor, declared_too_large, produced_more, insert_path, add_ancestor, add_ancestors,
  add_directory, add_file, add_path,
}
use simple_host_enterprise.Archive.Entry.{
  Limits, directory, regular, size, Entry, is_reserved_assets_path, should_skip, compute_read_limit,
  check_declared_size, read_file_content, check_header, take_file, take_placed, take_named,
  take_entry,
}
use simple_host_enterprise.Archive.Sound.{size_of}
use simple_host_enterprise.Archive.Extract.{extract_zip, extract_zip_archive}
use simple_host_enterprise.Archive.Safety.{from_zip, extraction_bounded, extraction_consistent}

abbrev limits : Limits
limits = record { total = 10; file = 6; path_metadata = 1000; entries = 4 }

abbrev folder : String → Entry
folder name = record {
  name = codes name;
  kind = directory;
  declared = size 0;
  stream = record { bytes = []; fails = false; over_limit = false; close_fails = false };
}

abbrev file : String → ℕ → String → Entry
file name declared content = record {
  name = codes name;
  kind = regular;
  declared = size declared;
  stream = record { bytes = codes content; fails = false; over_limit = false; close_fails = false };
}

abbrev archive : List Entry
archive =
    file "./index.html" 5 "hello" ∷ folder "css/" ∷ file "css/a" 2 "ab" ∷ file "css/._a" 1 "x" ∷ []

abbrev files : Map Bytes Bytes
files = (codes "index.html", codes "hello") ∷ (codes "css/a", codes "ab") ∷ []

archive_extracted : extract_zip_archive limits archive ≡ ok files
unfolding extract_zip take_entry take_named take_placed take_file check_header read_file_content
    check_declared_size compute_read_limit should_skip is_reserved_assets_path add_path add_file
    add_directory add_ancestors add_ancestor insert_path canonical_relative_path check_relative
    check_value validate_all trim_slash trim_dots clean clean_parts join split validate_segment
    has_control valid_utf8 has_prefix has_suffix lookup insert
archive_extracted = refl

clash_refused :
    extract_zip_archive limits (file "a" 1 "x" ∷ file "a/b" 1 "y" ∷ []) ≡ err file_ancestor
unfolding extract_zip take_entry take_named take_placed take_file check_header read_file_content
    check_declared_size compute_read_limit should_skip is_reserved_assets_path add_path add_file
    add_directory add_ancestors add_ancestor insert_path canonical_relative_path check_relative
    check_value validate_all trim_slash trim_dots clean clean_parts join split validate_segment
    has_control valid_utf8 has_prefix has_suffix lookup insert
clash_refused = refl

lie_refused : extract_zip_archive limits (file "a" 1 "xyz" ∷ []) ≡ err produced_more
unfolding extract_zip take_entry take_named take_placed take_file check_header read_file_content
    check_declared_size compute_read_limit should_skip is_reserved_assets_path add_path add_file
    add_directory add_ancestors add_ancestor insert_path canonical_relative_path check_relative
    check_value validate_all trim_slash trim_dots clean clean_parts join split validate_segment
    has_control valid_utf8 has_prefix has_suffix lookup insert
lie_refused = refl

bomb_refused :
    extract_zip_archive limits (file "a" 6 "abcdef" ∷ file "b" 5 "abcde" ∷ [])
    ≡ err declared_too_large
unfolding extract_zip take_entry take_named take_placed take_file check_header read_file_content
    check_declared_size compute_read_limit should_skip is_reserved_assets_path add_path add_file
    add_directory add_ancestors add_ancestor insert_path canonical_relative_path check_relative
    check_value validate_all trim_slash trim_dots clean clean_parts join split validate_segment
    has_control valid_utf8 has_prefix has_suffix lookup insert
bomb_refused = refl

extraction_bounded_example :
    (sum_by size_of files ≤ 10) × All (λ x. size_of x ≤ 6) files × (length files ≤ 4)
extraction_bounded_example = extraction_bounded limits files (from_zip archive archive_extracted)

page_there : lookup (codes "index.html") files ≡ some (codes "hello")
unfolding lookup
page_there = refl

style_there : lookup (codes "css/a") files ≡ some (codes "ab")
unfolding lookup
style_there = refl

extraction_consistent_example :
    (split (codes "css/a") ≢ split (codes "index.html") ++ (codes "b" ∷ []))
    × (is_reserved_assets_path (codes "index.html") ≡ false)
extraction_consistent_example =
    extraction_consistent limits files (codes "index.html") (codes "css/a") (codes "hello")
      (codes "ab") (codes "b") [] (from_zip archive archive_extracted) page_there style_there
