-- ===== src/Storage.antt =====
-- internal/storage: what a server keeps of the bucket. `Budget` is budget.go, `Keys` keys.go,
-- `Cache` is cache.go.
pub mod Budget
pub mod Waiting
pub mod Cache
pub mod Eviction
pub mod Recency
pub mod Leases
pub mod Sections
pub mod Sharing
pub mod Keys
pub mod Decimals
pub mod Naming
pub mod Parsing
mod Tests
mod KeyTests
