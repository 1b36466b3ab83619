-- ===== src/Archive/Extract.antt =====
-- internal/tarball/extract.go: the loops over the entries of the two formats.
use simple_host_enterprise.Common.{
  Bool, List, [], ◌∷◌, if◌then◌else◌, Bytes, Result, ok, err, ◌>>=◌, ◌>>◌, refuse_if,
}
use simple_host_enterprise.Common.Maps.{Map}
use simple_host_enterprise.Archive.Tracker.{ArchiveError, stream_limit, broken_archive}
use simple_host_enterprise.Archive.Entry.{Limits, Entry, State, start, take_entry}

-- What reading a decompressed TAR stream gives: the next entry, the end, or an error, each with
-- whether the limit on the stream had been passed when it was read.
pub data TarStream : Type 0 where
  tar_entry : (over : Bool) → Entry → TarStream → TarStream
  tar_end : (over drain_fails over_drain : Bool) → TarStream
  tar_error : (over : Bool) → TarStream

-- The loop of `extractTarGz`.
unfoldable pub extract_tar : Limits → TarStream → State → Result ArchiveError (Map Bytes Bytes)
extract_tar limits (tar_error over) st = if over then err stream_limit else err broken_archive
extract_tar limits (tar_end over drain_fails over_drain) st = do
  refuse_if over stream_limit
  refuse_if drain_fails broken_archive
  refuse_if over_drain stream_limit
  ok st.files
extract_tar limits (tar_entry over e rest) st = do
  refuse_if over stream_limit
  next ← take_entry limits e st
  extract_tar limits rest next

-- The loop of `extractZip`.
unfoldable pub extract_zip : Limits → List Entry → State → Result ArchiveError (Map Bytes Bytes)
extract_zip limits [] st = ok st.files
extract_zip limits (e ∷ rest) st = do next ← take_entry limits e st; extract_zip limits rest next

abbrev pub extract_tar_gz : Limits → TarStream → Result ArchiveError (Map Bytes Bytes)
extract_tar_gz limits stream = extract_tar limits stream (start limits)

abbrev pub extract_zip_archive : Limits → List Entry → Result ArchiveError (Map Bytes Bytes)
extract_zip_archive limits entries = extract_zip limits entries (start limits)
