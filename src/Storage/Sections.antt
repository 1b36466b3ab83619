-- ===== src/Storage/Sections.antt =====
-- The sections of `acquire`, one by one, keep what holds of a shared cache.
use simple_host_enterprise.Common.{
  ℕ, ◌+◌, String, ◌≡◌, refl, sym, ap, ◌∙◌, subst, true, false, none, some, List, ◌∷◌, arith,
  String_eq, ◌==◌, ==_iff, ==_self, any, Bool-cases, Option-cases, inl, inr,
}
use simple_host_enterprise.Common.Maps.{lookup, insert, insert-All}
use simple_host_enterprise.Common.Unique.{insert-IsUnique, sum_by-replace, sum_by-new}
use simple_host_enterprise.Storage.Cache.{
  CacheEntry, Cache, hit, wait, fill, acquire, without_fill, finish_fill,
}
use simple_host_enterprise.Storage.Eviction.{entry_size, IsBusy, refs_in}
use simple_host_enterprise.Storage.Leases.{
  leases_of, IsSound, evicted-IsSound, counted-insert, apart-insert, without_fill-any, some≢none,
}

pub hit-injective : {c d : Cache} → hit c ≡ hit d → d ≡ c
hit-injective h = cc h

pub fill-injective : {c d : Cache} → fill c ≡ fill d → d ≡ c
fill-injective h = cc h

pub wait≢hit : {c : Cache} → wait ≡ hit c → ⊥
wait≢hit h = cc

pub wait≢fill : {c : Cache} → wait ≡ fill c → ⊥
wait≢fill h = cc

pub fill≢hit : {c d : Cache} → fill c ≡ hit d → ⊥
fill≢hit h = cc

pub hit≢fill : {c d : Cache} → hit c ≡ fill d → ⊥
hit≢fill h = cc

pub acquire-hit :
    (name : String) (now : ℕ) (c d : Cache)
    → acquire name now c ≡ hit d
    → (e : CacheEntry) × (lookup name c.entries ≡ some e)
      × (d ≡ record c {
        entries = insert name (record e { refs = e.refs + 1; last_used = now }) c.entries;
      })
unfolding acquire
acquire-hit name now c d h = elim (Option-cases (lookup name c.entries)) [
  | inr (e, there) ↦ (e, there, hit-injective (rw (there, acquire) at h))
  | inl free ↦ elim (Bool-cases (any (λ n. n == name) c.fills)) [
    | inl running ↦ absurd (wait≢hit (rw (free, running, acquire) at h))
    | inr idle ↦ absurd (fill≢hit (rw (free, idle, acquire) at h))
  ]
]

pub acquire-fill :
    (name : String) (now : ℕ) (c d : Cache)
    → acquire name now c ≡ fill d
    → (lookup name c.entries ≡ none) × (d ≡ record c { fills = name ∷ c.fills })
unfolding acquire
acquire-fill name now c d h = elim (Option-cases (lookup name c.entries)) [
  | inr (e, there) ↦ absurd (hit≢fill (rw (there, acquire) at h))
  | inl free ↦ elim (Bool-cases (any (λ n. n == name) c.fills)) [
    | inl running ↦ absurd (wait≢fill (rw (free, running, acquire) at h))
    | inr idle ↦ (free, fill-injective (rw (free, idle, acquire) at h))
  ]
]

pub one_more :
    (name n : String) (leases : List String)
    → (name == n) ≡ false
    → leases_of n (name ∷ leases) ≡ leases_of n leases
one_more name n leases h = rw h (omega arith)

pub one_itself :
    (name : String) (leases : List String)
    → leases_of name (name ∷ leases) ≡ 1 + leases_of name leases
one_itself name leases = rw (==_self name) refl

-- A name that holds an entry is not the name of a fill.
pub entry_apart :
    (max_bytes : ℕ) (c : Cache) (leases : List String) (name n : String) (e : CacheEntry)
    → IsSound max_bytes c leases
    → lookup name c.entries ≡ some e
    → any (λ x. x == n) c.fills ≡ true
    → ((name == n) ≡ false) × (lookup n c.entries ≡ none)
entry_apart max_bytes c leases name n e s there h = elim (Bool-cases (name == n)) [
  | inr other ↦ (other, s.apart n h)
  | inl same ↦ absurd (
      some≢none (
        sym there
        ∙ subst (λ x. lookup x c.entries ≡ none) (sym ((==_iff name n).0 same)) (s.apart n h)))
]

pub hit-IsSound :
    (max_bytes : ℕ) (c : Cache) (leases : List String) (name : String) (now : ℕ) (e : CacheEntry)
    → IsSound max_bytes c leases
    → lookup name c.entries ≡ some e
    → IsSound max_bytes
        (record c {
          entries = insert name (record e { refs = e.refs + 1; last_used = now }) c.entries;
        })
        (name ∷ leases)
hit-IsSound max_bytes c leases name now e s there =
    let new : CacheEntry = record e { refs = e.refs + 1; last_used = now } in
    record {
      max = s.max;
      accounted = record {
        unique = insert-IsUnique name new c.entries s.accounted.unique;
        sum = omega (arith, s.accounted.sum, sum_by-replace entry_size name new e c.entries there);
      };
      counted =
          counted-insert c name new leases (name ∷ leases) s.counted
            (omega (arith, one_itself name leases, sym (ap refs_in there) ∙ s.counted name))
            (λ n other. one_more name n leases other);
      apart =
          apart-insert c name new c.fills
            (λ n h. entry_apart max_bytes c leases name n e s there h);
      bounded = elim s.bounded [
        | inl within ↦ inl within
        | inr busy ↦
            inr (insert-All IsBusy name new c.entries (λ z. absurd (omega (arith, z))) busy)
      ];
    }

pub fill-IsSound :
    (max_bytes : ℕ) (c : Cache) (leases : List String) (name : String)
    → IsSound max_bytes c leases
    → lookup name c.entries ≡ none
    → IsSound max_bytes (record c { fills = name ∷ c.fills }) leases
fill-IsSound max_bytes c leases name s free = record {
  max = s.max;
  accounted = record { unique = s.accounted.unique; sum = s.accounted.sum };
  counted = s.counted;
  apart = λ n h. elim (Bool-cases (name == n)) [
    | inl same ↦ subst (λ x. lookup x c.entries ≡ none) ((==_iff name n).0 same) free
    | inr other ↦ s.apart n (rw other at h)
  ];
  bounded = s.bounded;
}

pub failed-IsSound :
    (max_bytes : ℕ) (c : Cache) (leases : List String) (name : String) (now : ℕ)
    → IsSound max_bytes c leases
    → IsSound max_bytes (finish_fill name none now c) leases
unfolding finish_fill
failed-IsSound max_bytes c leases name now s = record {
  max = s.max;
  accounted = record { unique = s.accounted.unique; sum = s.accounted.sum };
  counted = s.counted;
  apart = λ n h. s.apart n (without_fill-any name n c.fills h).1;
  bounded = s.bounded;
}

pub fetched-IsSound :
    (max_bytes : ℕ) (c : Cache) (leases : List String) (name : String) (size now : ℕ)
    → IsSound max_bytes c leases
    → any (λ n. n == name) c.fills ≡ true
    → IsSound max_bytes (finish_fill name (some size) now c) (name ∷ leases)
unfolding finish_fill
fetched-IsSound max_bytes c leases name size now s running =
    let new : CacheEntry = record { size = size; refs = 1; last_used = now } in
    let free = s.apart name running in
    evicted-IsSound max_bytes
      (record c {
        fills = without_fill name c.fills;
        entries = insert name new c.entries;
        used = c.used + size;
      })
      (name ∷ leases) s.max
      (record {
        unique = insert-IsUnique name new c.entries s.accounted.unique;
        sum = omega (arith, s.accounted.sum, sum_by-new entry_size name new c.entries free);
      })
      (counted-insert c name new leases (name ∷ leases) s.counted
        (omega (arith, one_itself name leases, sym (ap refs_in free) ∙ s.counted name))
        (λ n other. one_more name n leases other))
      (apart-insert c name new (without_fill name c.fills)
        (λ n h. let (other, there) = without_fill-any name n c.fills h in (other, s.apart n there)))
