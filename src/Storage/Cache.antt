-- ===== src/Storage/Cache.antt =====
-- internal/storage/cache.go: the local copies of objects of the bucket. A method runs under the
-- cache's mutex or in the sections between two holds of it, so a history is a list of these sections.
-- The files themselves are not modelled. A lease is the name of the entry that it pins: an entry in
-- use stays under its name, and `release` reaches it there.
use simple_host_enterprise.Common.{
  ℕ, zero, suc, ◌+◌, ◌-◌, String, ◌&&◌, Option, none, some, List, [], ◌∷◌, String_eq, ℕ_eq, ◌==◌,
  ltb, any, if◌then◌else◌, length,
}
use simple_host_enterprise.Common.Maps.{Map, lookup, insert, erase}

-- `cacheEntry`; its name is its key in the map.
pub record CacheEntry : Type 0 where
  pub size : ℕ
  pub refs : ℕ
  pub last_used : ℕ

-- `cache`: the names in `fills` are being fetched.
pub record Cache : Type 0 where
  pub max_bytes : ℕ
  pub entries : Map String CacheEntry
  pub fills : List String
  pub used : ℕ

abbrev pub new_cache : ℕ → Cache
new_cache max_bytes = record { max_bytes = max_bytes; entries = []; fills = []; used = 0 }

-- The inner loop of `evictLocked`: the idle entry used least recently, of those that were seen.
unfoldable pub find_victim :
    Map String CacheEntry → Option (String × CacheEntry) → Option (String × CacheEntry)
find_victim [] best = best
find_victim ((name, e) ∷ rest) none =
    find_victim rest (if e.refs == 0 then some (name, e) else none)
find_victim ((name, e) ∷ rest) (some (n, v)) =
    find_victim rest
      (if e.refs == 0 && ltb e.last_used v.last_used then some (name, e) else some (n, v))

-- `evictLocked`, on fuel: each round takes one entry, so their number is enough.
unfoldable pub evict : ℕ → Cache → Cache
evict zero c = c
evict (suc fuel) c = elim (find_victim c.entries none) [
  | none ↦ c
  | some (name, v) ↦
      let rest = evict fuel (record c { entries = erase name c.entries; used = c.used - v.size }) in
      if ltb c.max_bytes c.used then rest else c
]

abbrev pub evict_locked : Cache → Cache
evict_locked c = evict (length c.entries) c

-- The first section of `acquire`: a hit, a wait for a fill that runs, or a fill to run.
pub data Lookup : Type 0 where
  hit : Cache → Lookup
  wait : Lookup
  fill : Cache → Lookup

unfoldable pub acquire : String → ℕ → Cache → Lookup
acquire name now c = elim (lookup name c.entries) [
  | some e ↦ hit (record c {
    entries = insert name (record e { refs = e.refs + 1; last_used = now }) c.entries;
  })
  | none ↦ if any (λ n. n == name) c.fills then wait else fill (record c { fills = name ∷ c.fills })
]

unfoldable pub without_fill : String → List String → List String
without_fill name [] = []
without_fill name (n ∷ rest) =
    let others = without_fill name rest in if n == name then others else n ∷ others

-- The last section of `acquire`, behind a fill that failed or gave an entry of `size` bytes.
unfoldable pub finish_fill : String → Option ℕ → ℕ → Cache → Cache
finish_fill name none now c = record c { fills = without_fill name c.fills }
finish_fill name (some size) now c = evict_locked (record c {
  fills = without_fill name c.fills;
  entries = insert name (record { size = size; refs = 1; last_used = now }) c.entries;
  used = c.used + size;
})

-- `release`.
unfoldable pub release_entry : String → ℕ → Cache → Cache
release_entry name now c = elim (lookup name c.entries) [
  | none ↦ c
  | some e ↦ evict_locked (record c {
    entries = insert name (record e { refs = e.refs - 1; last_used = now }) c.entries;
  })
]
