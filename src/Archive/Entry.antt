-- ===== src/Archive/Entry.antt =====
-- internal/tarball/extract.go: the limits, and what is done with one entry of an archive.
use simple_host_enterprise.Common.{
  ℕ, ◌+◌, ◌-◌, Bool, true, false, ◌||◌, List, [], ◌∷◌, ◌++◌, ℕ_eq, List_eq, ◌==◌, ltb,
  if◌then◌else◌, Bytes, codes, length, Result, ok, err, ◌>>=◌, ◌>>◌, refuse_if,
}
use simple_host_enterprise.Common.Maps.{Map, insert}
use simple_host_enterprise.Common.Text.{has_prefix}
use simple_host_enterprise.SafePath.{PathError, split, canonical_relative_path}
use simple_host_enterprise.Archive.Tracker.{
  ArchiveError, too_many_entries, unsupported_type, invalid_size, directory_with_data,
  reserved_path, total_limit, declared_too_large, stream_limit, read_failed, ended_early,
  produced_more, invalid_path, Tracker, new_tracker, add_path,
}

-- `extractLimits`, without those on the compressed bytes and on the stream of the archive.
pub record Limits : Type 0 where
  pub total : ℕ
  pub file : ℕ
  pub path_metadata : ℕ
  pub entries : ℕ

pub data EntryKind : Type 0 where
  directory regular special : EntryKind

-- The size that a header declares.
pub data Declared : Type 0 where
  size : ℕ → Declared
  negative : Declared

-- What an entry's reader yields: its bytes, and then either the end or an error. An entry of a ZIP
-- archive that cannot be opened fails before its first byte. `over_limit` says that the limit on the
-- TAR stream was passed (never for ZIP), `close_fails` that closing failed (never for TAR).
pub record Stream : Type 0 where
  pub bytes : Bytes
  pub fails : Bool
  pub over_limit : Bool
  pub close_fails : Bool

pub record Entry : Type 0 where
  pub name : Bytes
  pub kind : EntryKind
  pub declared : Declared
  pub stream : Stream

-- The state of the loop.
pub record State : Type 0 where
  pub files : Map Bytes Bytes
  pub paths : Tracker
  pub total_size : ℕ
  pub entry_count : ℕ

abbrev pub start : Limits → State
start limits = record {
  files = [];
  paths = new_tracker limits.path_metadata;
  total_size = 0;
  entry_count = 0;
}

abbrev pub reserved_assets_path : Bytes
reserved_assets_path = codes "_assets"

-- `isReservedAssetsPath`.
unfoldable pub is_reserved_assets_path : Bytes → Bool
is_reserved_assets_path name =
    name == reserved_assets_path || has_prefix (reserved_assets_path ++ codes "/") name

abbrev pub last_part : List Bytes → Bytes
last_part [] = []
last_part (part ∷ []) = part
last_part (part ∷ parts) = last_part parts

-- `shouldSkip`; the base of a canonical name is its last component.
unfoldable pub should_skip : Bytes → Bool
should_skip name =
    let base = last_part (split name) in base == codes ".DS_Store" || has_prefix (codes "._") base

-- `computeReadLimit`.
unfoldable pub compute_read_limit : ℕ → Limits → Result ArchiveError ℕ
compute_read_limit total_size limits = do
  refuse_if (ltb limits.total total_size) total_limit
  let remaining = limits.total - total_size
  ok (if ltb remaining limits.file then remaining else limits.file)

-- `checkDeclaredSize`.
unfoldable pub check_declared_size : ℕ → ℕ → Result ArchiveError ℕ
check_declared_size declared read_limit =
    if ltb read_limit declared then err declared_too_large else ok declared

-- `readFileContent`: as many bytes as were declared, and then a probe for one more.
unfoldable pub read_file_content : Stream → ℕ → Result ArchiveError Bytes
read_file_content s declared =
    if ltb (length s.bytes) declared
    then (if s.fails then err read_failed else err ended_early)
    else if ltb declared (length s.bytes)
    then err produced_more
    else if s.fails
    then err read_failed
    else ok s.bytes

abbrev pub is_dir : EntryKind → Bool
is_dir directory = true
is_dir _ = false

-- The tests on an entry's type and size. A size of a ZIP entry is never negative.
unfoldable pub check_header : Entry → Result ArchiveError ℕ
check_header e = elim e.kind [
  | special ↦ err unsupported_type
  | directory ↦ elim e.declared [
    | negative ↦ err invalid_size
    | size n ↦ if n == 0 then ok n else err directory_with_data
  ]
  | regular ↦ elim e.declared [ negative ↦ err invalid_size | size n ↦ ok n ]
]

abbrev pub named : Result PathError Bytes → Result ArchiveError Bytes
named (ok name) = ok name
named (err e) = err (invalid_path e)

-- A file's content is read, counted and kept.
unfoldable pub take_file : Limits → Bytes → ℕ → Stream → State → Result ArchiveError State
take_file limits name declared stream st = do
  read_limit ← compute_read_limit st.total_size limits
  wanted ← check_declared_size declared read_limit
  refuse_if stream.over_limit stream_limit
  content ← read_file_content stream wanted
  refuse_if stream.close_fails read_failed
  ok (record st {
    total_size = st.total_size + length content;
    files = if should_skip name then st.files else insert name content st.files;
  })

-- A directory has no content.
unfoldable pub take_placed : Limits → Bytes → ℕ → Entry → State → Result ArchiveError State
take_placed limits name declared e st =
    if is_dir e.kind then ok st else take_file limits name declared e.stream st

unfoldable pub take_named : Limits → Bytes → ℕ → Entry → State → Result ArchiveError State
take_named limits name declared e st = do
  refuse_if (is_reserved_assets_path name) reserved_path
  paths ← add_path name (is_dir e.kind) st.paths
  take_placed limits name declared e (record st { paths = paths })

-- The body of the loop of `extractTarGz` and of `extractZip` on an entry that the reader gave.
unfoldable pub take_entry : Limits → Entry → State → Result ArchiveError State
take_entry limits e st = do
  refuse_if (ltb limits.entries (st.entry_count + 1)) too_many_entries
  let counted : State = record st { entry_count = st.entry_count + 1 }
  declared ← check_header e
  name ← named (canonical_relative_path e.name (is_dir e.kind))
  if name == codes "." then ok counted else take_named limits name declared e counted
