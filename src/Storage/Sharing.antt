-- ===== src/Storage/Sharing.antt =====
-- Every history of `acquire` and `release` keeps what holds of a shared cache.
use simple_host_enterprise.Common.{
  ℕ, ◌+◌, ◌-◌, ◌≤◌, String, ◌≡◌, ◌≢◌, ◌⊎◌, refl, sym, ap, ◌∙◌, subst, some, List, [], ◌∷◌, ◌++◌,
  arith, String_eq, ◌==◌, ==_self, sum_by, sum_by-append, All, inl, false≢true,
}
use simple_host_enterprise.Common.Maps.{lookup, insert}
use simple_host_enterprise.Common.Unique.{insert-IsUnique, sum_by-replace}
use simple_host_enterprise.Storage.Cache.{CacheEntry, Cache, release_entry}
use simple_host_enterprise.Storage.Eviction.{entry_size, IsBusy, refs_in}
use simple_host_enterprise.Storage.Leases.{
  Run, opened, hits, fills, fetched, failed, released, one_if, leases_of, IsSound, evicted-IsSound,
  counted-insert, apart-insert, entry_there,
}
use simple_host_enterprise.Storage.Sections.{
  acquire-hit, acquire-fill, entry_apart, hit-IsSound, fill-IsSound, failed-IsSound,
  fetched-IsSound,
}

-- The leases before and after one of them is given back.
given_back :
    (name n : String) (before after : List String)
    → leases_of n (before ++ (name ∷ after)) ≡ one_if (name == n) + leases_of n (before ++ after)
given_back name n before after = omega (
  arith,
  sum_by-append (λ x. one_if (x == n)) before (name ∷ after),
  sum_by-append (λ x. one_if (x == n)) before after,
)

released-IsSound :
    (max_bytes : ℕ) (c : Cache) (before after : List String) (name : String) (now : ℕ)
    → IsSound max_bytes c (before ++ (name ∷ after))
    → IsSound max_bytes (release_entry name now c) (before ++ after)
unfolding release_entry
released-IsSound max_bytes c before after name now s =
    let one : leases_of name (before ++ (name ∷ after)) ≡ 1 + leases_of name (before ++ after) =
      given_back name name before after
      ∙ ap (λ b. one_if b + leases_of name (before ++ after)) (==_self name) in
    let (e, there, refs) =
      entry_there max_bytes c (before ++ (name ∷ after)) name s
        (λ z. absurd (omega (arith, z, one))) in
    let new : CacheEntry = record e { refs = e.refs - 1; last_used = now } in
    rw (there, release_entry)
      (evicted-IsSound max_bytes (record c { entries = insert name new c.entries })
        (before ++ after) s.max
        (record {
          unique = insert-IsUnique name new c.entries s.accounted.unique;
          sum =
              omega (arith, s.accounted.sum, sum_by-replace entry_size name new e c.entries there);
        })
        (counted-insert c name new (before ++ (name ∷ after)) (before ++ after) s.counted
          (omega (arith, refs, one))
          (λ n other. omega (
            arith,
            given_back name n before after
                ∙ ap (λ b. one_if b + leases_of n (before ++ after)) other,
          )))
        (apart-insert c name new c.fills
          (λ n h. entry_apart max_bytes c (before ++ (name ∷ after)) name n e s there h)))

empty-lookup : (name : String) → refs_in (lookup name []) ≡ 0
unfolding lookup
empty-lookup name = refl

Run-IsSound :
    (max_bytes : ℕ) (c : Cache) (leases : List String)
    → Run max_bytes c leases
    → IsSound max_bytes c leases
Run-IsSound max_bytes _ _ opened = record {
  max = refl;
  accounted = record { unique = tt; sum = refl };
  counted = λ name. empty-lookup name;
  apart = λ name h. absurd (false≢true h);
  bounded = inl (omega arith);
}
Run-IsSound max_bytes _ _ (hits c d leases name now r h) =
    let (e, there, shape) = acquire-hit name now c d h in
    subst (λ x. IsSound max_bytes x (name ∷ leases)) (sym shape)
      (hit-IsSound max_bytes c leases name now e (Run-IsSound max_bytes c leases r) there)
Run-IsSound max_bytes _ _ (fills c d leases name now r h) =
    let (free, shape) = acquire-fill name now c d h in
    subst (λ x. IsSound max_bytes x leases) (sym shape)
      (fill-IsSound max_bytes c leases name (Run-IsSound max_bytes c leases r) free)
Run-IsSound max_bytes _ _ (fetched c leases name size now r h) =
    fetched-IsSound max_bytes c leases name size now (Run-IsSound max_bytes c leases r) h
Run-IsSound max_bytes _ _ (failed c leases name now r h) =
    failed-IsSound max_bytes c leases name now (Run-IsSound max_bytes c leases r)
Run-IsSound max_bytes _ _ (released c before after name now r) =
    released-IsSound max_bytes c before after name now
      (Run-IsSound max_bytes c (before ++ (name ∷ after)) r)

-- In every history of the cache what is used is the sum of the sizes of the entries, and it is
-- within the bound or every entry is in use.
pub cache_bounded :
    (max_bytes : ℕ) (c : Cache) (leases : List String)
    → Run max_bytes c leases
    → (c.used ≡ sum_by entry_size c.entries) × ((c.used ≤ max_bytes) ⊎ All IsBusy c.entries)
cache_bounded max_bytes c leases r =
    let s = Run-IsSound max_bytes c leases r in
    (s.accounted.sum, subst (λ m. (c.used ≤ m) ⊎ All IsBusy c.entries) s.max s.bounded)

-- An entry in use is never evicted: in every history of the cache a name that is leased has its
-- entry, and the entry counts exactly the leases of it that are out.
pub leased_kept :
    (max_bytes : ℕ) (c : Cache) (leases : List String) (name : String)
    → Run max_bytes c leases
    → leases_of name leases ≢ 0
    → (e : CacheEntry) × (lookup name c.entries ≡ some e) × (e.refs ≡ leases_of name leases)
leased_kept max_bytes c leases name r h =
    entry_there max_bytes c leases name (Run-IsSound max_bytes c leases r) h
