-- ===== src/Audit.antt =====
-- internal/audit: the hash chain over the audit events. `Json` and `Numeric` are what canonical.go
-- renders, `Canonical` is an event's canonical form, `Chain` is chain.go; `Fields` compares
-- events by that form.
pub mod Json
pub mod Numeric
pub mod Canonical
pub mod Chain
pub mod Intact
pub mod Trimming
pub mod History
pub mod Texts
pub mod Scanning
pub mod Numbers
pub mod Values
pub mod Members
pub mod Fields
pub mod Evidence
mod Tests
