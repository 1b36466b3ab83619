-- ===== src/Archive/Tracker.antt =====
-- internal/tarball/extract.go: `archivePathTracker`. A key of its map is kept as its components,
-- whose joining by slashes is the key of the source: a component holds no slash.
use simple_host_enterprise.Common.{
  ℕ, suc, ◌+◌, ◌-◌, Bool, none, some, List, [], ◌∷◌, ◌++◌, ℕ_eq, List_eq, ltb, if◌then◌else◌, Bytes,
  length, sum_by, Result, ok, err, ◌>>=◌,
}
use simple_host_enterprise.Common.Maps.{Map, lookup, insert}
use simple_host_enterprise.SafePath.{PathError, split}

pub data ArchiveError : Type 0 where
  too_many_entries unsupported_type invalid_size directory_with_data reserved_path : ArchiveError
  file_ancestor duplicate file_and_directory metadata_limit : ArchiveError
  total_limit declared_too_large read_failed ended_early produced_more stream_limit broken_archive :
      ArchiveError
  invalid_path : PathError → ArchiveError

-- `archivePathKind`; 0, no entry, is `none` of a lookup.
pub data PathKind : Type 0 where
  implicit_dir explicit_dir regular_file : PathKind

abbrev pub Key : Type 0
Key = List Bytes

-- The limit is not negative: it is the constant `maxPathMetadataSize`.
pub record Tracker : Type 0 where
  pub entries : Map Key PathKind
  pub metadata_used : ℕ
  pub metadata_limit : ℕ

abbrev pub path_metadata_entry_overhead : ℕ
path_metadata_entry_overhead = 64

abbrev pub new_tracker : ℕ → Tracker
new_tracker limit = record { entries = []; metadata_used = 0; metadata_limit = limit }

-- The bytes of the joined key.
abbrev pub key_length : Key → ℕ
key_length key = sum_by (λ part. suc (length part)) key - 1

-- `archivePathTracker.insert`.
unfoldable pub insert_path : Key → PathKind → Tracker → Result ArchiveError Tracker
insert_path key kind t =
    let cost = key_length key + path_metadata_entry_overhead in
    if ltb t.metadata_limit t.metadata_used
    then err metadata_limit
    else if ltb (t.metadata_limit - t.metadata_used) cost
    then err metadata_limit
    else ok
        (record t { entries = insert key kind t.entries; metadata_used = t.metadata_used + cost })

-- The body of the loop over the ancestors.
unfoldable pub add_ancestor : Key → Tracker → Result ArchiveError Tracker
add_ancestor key t = elim (lookup key t.entries) [
  | some regular_file ↦ err file_ancestor
  | none ↦ insert_path key implicit_dir t
  | some _ ↦ ok t
]

-- The loop, from the ancestor `above` over the components that are left; the last one is the path.
unfoldable pub add_ancestors : Key → Key → Tracker → Result ArchiveError Tracker
add_ancestors above [] t = ok t
add_ancestors above (part ∷ []) t = ok t
add_ancestors above (part ∷ next ∷ parts) t = do
  u ← add_ancestor (above ++ (part ∷ [])) t
  add_ancestors (above ++ (part ∷ [])) (next ∷ parts) u

-- What `add` does with the path itself.
unfoldable pub add_directory : Key → Tracker → Result ArchiveError Tracker
add_directory key t = elim (lookup key t.entries) [
  | none ↦ insert_path key explicit_dir t
  | some implicit_dir ↦ ok (record t { entries = insert key explicit_dir t.entries })
  | some explicit_dir ↦ err duplicate
  | some regular_file ↦ err file_and_directory
]

unfoldable pub add_file : Key → Tracker → Result ArchiveError Tracker
add_file key t = elim (lookup key t.entries) [
  | none ↦ insert_path key regular_file t
  | some regular_file ↦ err duplicate
  | some _ ↦ err file_and_directory
]

-- `archivePathTracker.add`.
unfoldable pub add_path : Bytes → Bool → Tracker → Result ArchiveError Tracker
add_path name directory t = do
  u ← add_ancestors [] (split name) t
  if directory then add_directory (split name) u else add_file (split name) u
