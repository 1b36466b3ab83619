-- ===== src/Storage/Tests.antt =====
-- The theorems on the memory budget and on the cache at short histories.
use simple_host_enterprise.Common.{ℕ, ◌+◌, ◌≤◌, ◌≡◌, refl, some, [], ◌∷◌, arith, sum_by}
use simple_host_enterprise.Storage.Budget.{pos, MemoryBudget, clamp, try_acquire, release}
use simple_host_enterprise.Storage.Waiting.{
  acquires, releases, Reach, starts, steps, held_bytes, budget_conserved, idle_serves,
}
use simple_host_enterprise.Common.{◌⊎◌, ◌≢◌, String_eq, All}
use simple_host_enterprise.Common.Maps.{lookup, insert, erase}
use simple_host_enterprise.Storage.Cache.{
  CacheEntry, Cache, new_cache, find_victim, evict, acquire, without_fill, finish_fill,
  release_entry,
}
use simple_host_enterprise.Storage.Eviction.{entry_size, IsBusy}
use simple_host_enterprise.Storage.Leases.{Run, opened, fills, fetched, released, leases_of}
use simple_host_enterprise.Storage.Sharing.{cache_bounded, leased_kept}
use simple_host_enterprise.Common.{String, none}
use simple_host_enterprise.Common.Maps.{Map}
use simple_host_enterprise.Common.Unique.{IsIn}
use simple_host_enterprise.Storage.Eviction.{Named}
use simple_host_enterprise.Storage.Recency.{IsNoOlder, evicts_least_recent}

abbrev budget : ℕ → MemoryBudget
budget free = record { total = 10; free = free }

acquired_four : Reach 10 (budget 6) (pos 4 ∷ [])
unfolding try_acquire clamp
acquired_four =
    steps (budget 10) (budget 6) [] (pos 4 ∷ []) starts
      (acquires (budget 10) (budget 6) [] (pos 4) refl)

acquired_three : Reach 10 (budget 3) (pos 3 ∷ pos 4 ∷ [])
unfolding try_acquire clamp
acquired_three =
    steps (budget 6) (budget 3) (pos 4 ∷ []) (pos 3 ∷ pos 4 ∷ []) acquired_four
      (acquires (budget 6) (budget 3) (pos 4 ∷ []) (pos 3) refl)

whole : Reach 10 (budget 0) (pos 25 ∷ [])
unfolding try_acquire clamp
whole =
    steps (budget 10) (budget 0) [] (pos 25 ∷ []) starts
      (acquires (budget 10) (budget 0) [] (pos 25) refl)

given_back : Reach 10 (budget 10) []
unfolding release clamp
given_back =
    steps (budget 6) (budget 10) (pos 4 ∷ []) [] acquired_four (releases (budget 6) [] [] (pos 4))

budget_conserved_example : 3 + held_bytes 10 (pos 3 ∷ pos 4 ∷ []) ≡ 10
budget_conserved_example = budget_conserved 10 (budget 3) (pos 3 ∷ pos 4 ∷ []) acquired_three

idle_serves_example : (c : MemoryBudget) × (try_acquire (budget 10) (pos 25) ≡ some c)
idle_serves_example = idle_serves 10 (budget 10) (pos 25) given_back

-- A cache of 10 bytes: "a" is fetched and released, then "b", 8 bytes, is fetched, so that "a" goes.
abbrev filling : Cache
filling = record { max_bytes = 10; entries = []; fills = "a" ∷ []; used = 0 }

abbrev after_a : Cache
after_a = finish_fill "a" (some 6) 1 filling

abbrev idle_a : Cache
idle_a = release_entry "a" 2 after_a

abbrev filling_b : Cache
filling_b = record {
  max_bytes = 10;
  entries = ("a", record { size = 6; refs = 0; last_used = 2 }) ∷ [];
  fills = "b" ∷ [];
  used = 6;
}

abbrev after_b : Cache
after_b = finish_fill "b" (some 8) 4 filling_b

Run-a : Run 10 idle_a []
unfolding acquire lookup
Run-a =
    released after_a [] [] "a" 2
      (fetched filling [] "a" 6 1 (fills (new_cache 10) filling [] "a" 0 opened refl) refl)

Run-b : Run 10 after_b ("b" ∷ [])
unfolding acquire lookup insert erase find_victim evict finish_fill without_fill release_entry
Run-b = fetched filling_b [] "b" 8 4 (fills idle_a filling_b [] "b" 3 Run-a refl) refl

evicted_a : after_b ≡ (record {
  max_bytes = 10;
  entries = ("b", record { size = 8; refs = 1; last_used = 4 }) ∷ [];
  fills = [];
  used = 8;
})
unfolding lookup insert erase find_victim evict finish_fill without_fill
evicted_a = refl

b_leased : leases_of "b" ("b" ∷ []) ≢ 0
b_leased z = absurd (omega (arith, z))

cache_bounded_example :
    (after_b.used ≡ sum_by entry_size after_b.entries)
    × ((after_b.used ≤ 10) ⊎ All IsBusy after_b.entries)
cache_bounded_example = cache_bounded 10 after_b ("b" ∷ []) Run-b

leased_kept_example :
    (e : CacheEntry) × (lookup "b" after_b.entries ≡ some e) × (e.refs ≡ leases_of "b" ("b" ∷ []))
leased_kept_example = leased_kept 10 after_b ("b" ∷ []) "b" Run-b b_leased

abbrev three : Map String CacheEntry
three =
    ("a", record { size = 1; refs = 0; last_used = 5 })
    ∷ ("b", record { size = 1; refs = 2; last_used = 1 })
    ∷ ("c", record { size = 1; refs = 0; last_used = 3 })
    ∷ []

abbrev oldest : Named
oldest = ("c", record { size = 1; refs = 0; last_used = 3 })

oldest_found : find_victim three none ≡ some oldest
unfolding find_victim
oldest_found = refl

evicts_least_recent_example : IsIn oldest three × (oldest.1.refs ≡ 0) × All (IsNoOlder oldest) three
evicts_least_recent_example = evicts_least_recent three oldest oldest_found
