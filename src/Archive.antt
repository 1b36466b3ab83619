-- ===== src/Archive.antt =====
-- internal/tarball/extract.go: an uploaded archive becomes the files of a site. What the packages
-- `archive/tar`, `archive/zip` and `compress/gzip` read is a list of entries, a parameter.
pub mod Tracker
pub mod Entry
pub mod Extract
pub mod Tree
pub mod Placing
pub mod Sound
pub mod Taking
pub mod Safety
mod Tests
