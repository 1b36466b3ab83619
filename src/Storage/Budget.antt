-- ===== src/Storage/Budget.antt =====
-- internal/storage/budget.go: a weighted semaphore over bytes.
use simple_host_enterprise.Common.{ℕ, ◌+◌, ◌-◌, Option, none, some, ltb, if◌then◌else◌}

-- A Go integer.
pub data ℤ : Type 0 where
  pos negsuc : ℕ → ℤ

-- `memoryBudget`; the channel `changed` only wakes those who wait, who then try again.
pub record MemoryBudget : Type 0 where
  pub total : ℕ
  pub free : ℕ

abbrev pub new_memory_budget : ℕ → MemoryBudget
new_memory_budget total = record { total = total; free = total }

unfoldable pub clamp : MemoryBudget → ℤ → ℕ
clamp b (pos n) = if ltb b.total n then b.total else n
clamp b (negsuc n) = 0

-- `tryAcquire`, and one round of the loop of `acquire`: `none` is a refusal, or a wait.
unfoldable pub try_acquire : MemoryBudget → ℤ → Option MemoryBudget
try_acquire b n =
    if ltb b.free (clamp b n) then none else some (record b { free = b.free - clamp b n })

unfoldable pub release : MemoryBudget → ℤ → MemoryBudget
release b n = record b { free = b.free + clamp b n }
