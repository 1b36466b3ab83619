-- ===== src/Storage/Eviction.antt =====
-- What `evictLocked` leaves: the accounts, the entries in use, and a cache within its bound.
use simple_host_enterprise.Common.{
  ℕ, zero, suc, ◌-◌, ◌≤◌, String, ◌≡◌, ◌≢◌, ◌⊎◌, refl, sym, ap, ◌∙◌, subst, false, ◌&&◌, Option,
  none, some, [], ◌∷◌, arith, String_eq, ℕ_eq, ◌==◌, ==_iff, ltb, length, sum_by, All, Bool-cases,
  Option-cases, &&-true, inl, inr, false≢true,
}
use mathlib.Core.Option.{some-injective}
use simple_host_enterprise.Common.Maps.{Map, lookup, erase, lookup-erase}
use simple_host_enterprise.Common.Unique.{IsUnique, IsIn, erase-IsUnique, IsIn-lookup, sum_by-erase}
use simple_host_enterprise.Storage.Cache.{CacheEntry, Cache, find_victim, evict, evict_locked}

abbrev pub Named : Type 0
Named = String × CacheEntry

abbrev pub entry_size : Named → ℕ
entry_size (name, e) = e.size

abbrev pub IsBusy : Named → Type 0
IsBusy (name, e) = e.refs ≢ 0

-- How many leases an entry counts; 0 where there is none.
abbrev pub refs_in : Option CacheEntry → ℕ
refs_in none = 0
refs_in (some e) = e.refs

-- An entry stands under each name once, and `used` is what the entries take.
pub record IsAccounted (c : Cache) : Type 0 where
  pub unique : IsUnique c.entries
  pub sum : c.used ≡ sum_by entry_size c.entries

-- The cache is within its bound, or nothing in it can be evicted.
abbrev pub IsBounded : Cache → Type 0
IsBounded c = (c.used ≤ c.max_bytes) ⊎ All IsBusy c.entries

pub none≢some : {A : Type 0} {a : A} → ◌≡◌ {A = Option A} none (some a) → ⊥
none≢some h = cc

some≢none : {A : Type 0} {a : A} → ◌≡◌ {A = Option A} (some a) none → ⊥
some≢none h = cc

found_here :
    (name : String) (e : CacheEntry) (rest : Map String CacheEntry) (v : Named)
    → ◌≡◌ {A = Option Named} (some (name, e)) (some v)
    → e.refs ≡ 0
    → IsIn v ((name, e) ∷ rest) × (v.1.refs ≡ 0)
found_here name e rest v h z =
    let same = some-injective (name, e) v h in
    (inl (sym same), sym (ap (λ (x : Named). x.1.refs) same) ∙ z)

-- The entry found is an idle one of the map.
pub find_victim-some :
    (m : Map String CacheEntry) (best : Option Named) (v : Named)
    → find_victim m best ≡ some v
    → (best ≡ some v) ⊎ (IsIn v m × (v.1.refs ≡ 0))
unfolding find_victim
find_victim-some [] best v h = inl h
find_victim-some ((name, e) ∷ rest) none v h = elim (Bool-cases (e.refs == 0)) [
  | inl idle ↦ elim (find_victim-some rest (some (name, e)) v (rw (idle, find_victim) at h)) [
    | inl same ↦ inr (found_here name e rest v same ((==_iff e.refs 0).0 idle))
    | inr (there, z) ↦ inr (inr there, z)
  ]
  | inr busy ↦ elim (find_victim-some rest none v (rw (busy, find_victim) at h)) [
    | inl same ↦ absurd (none≢some same)
    | inr (there, z) ↦ inr (inr there, z)
  ]
]
find_victim-some ((name, e) ∷ rest) (some (n, w)) v h =
    elim (Bool-cases (e.refs == 0 && ltb e.last_used w.last_used)) [
      | inl older ↦ elim (find_victim-some rest (some (name, e)) v (rw (older, find_victim) at h)) [
        | inl same ↦
            inr (
              found_here name e rest v same ((==_iff e.refs 0).0 (&&-true (e.refs == 0) _ older).0))
        | inr (there, z) ↦ inr (inr there, z)
      ]
      | inr newer ↦ elim (find_victim-some rest (some (n, w)) v (rw (newer, find_victim) at h)) [
        | inl same ↦ inl same
        | inr (there, z) ↦ inr (inr there, z)
      ]
    ]

-- Where none is found, none is idle.
find_victim-none :
    (m : Map String CacheEntry) (best : Option Named)
    → find_victim m best ≡ none
    → (best ≡ none) × All IsBusy m
unfolding find_victim
find_victim-none [] best h = (h, tt)
find_victim-none ((name, e) ∷ rest) none h = elim (Bool-cases (e.refs == 0)) [
  | inl idle ↦
      absurd (some≢none (find_victim-none rest (some (name, e)) (rw (idle, find_victim) at h)).0)
  | inr busy ↦ (
    refl,
    (
      λ z. false≢true (sym busy ∙ (==_iff e.refs 0).1 z),
      (find_victim-none rest none (rw (busy, find_victim) at h)).1,
    ),
  )
]
find_victim-none ((name, e) ∷ rest) (some (n, w)) h =
    elim (Bool-cases (e.refs == 0 && ltb e.last_used w.last_used)) [
      | inl older ↦
          absurd
            (some≢none (find_victim-none rest (some (name, e)) (rw (older, find_victim) at h)).0)
      | inr newer ↦
          absurd (some≢none (find_victim-none rest (some (n, w)) (rw (newer, find_victim) at h)).0)
    ]

-- What is evicted changes no lease and brings nothing in.
pub record IsEvicted (c d : Cache) : Type 0 where
  pub accounted : IsAccounted d
  pub same_max : d.max_bytes ≡ c.max_bytes
  pub same_fills : d.fills ≡ c.fills
  pub same_refs :
      (name : String) → refs_in (lookup name d.entries) ≡ refs_in (lookup name c.entries)
  pub absent : (name : String) → lookup name c.entries ≡ none → lookup name d.entries ≡ none

IsEvicted-self : (c : Cache) → IsAccounted c → IsEvicted c c
IsEvicted-self c a = record {
  accounted = a;
  same_max = refl;
  same_fills = refl;
  same_refs = λ name. refl;
  absent = λ name h. h;
}

abbrev minus_victim : Named → Cache → Cache
minus_victim v c = record c { entries = erase v.0 c.entries; used = c.used - v.1.size }

refs-erase :
    (v : Named) (c : Cache)
    → lookup v.0 c.entries ≡ some v.1
    → v.1.refs ≡ 0
    → (name : String)
    → refs_in (lookup name (erase v.0 c.entries)) ≡ refs_in (lookup name c.entries)
refs-erase v c found idle name = elim (Bool-cases (v.0 == name)) [
  | inl same ↦
      let there : lookup name c.entries ≡ some v.1 =
        subst (λ x. lookup x c.entries ≡ some v.1) ((==_iff v.0 name).0 same) found in
      rw (lookup-erase v.0 name c.entries, same, there) (sym idle)
  | inr other ↦ rw (lookup-erase v.0 name c.entries, other) refl
]

absent-erase :
    (v : Named) (c : Cache) (name : String)
    → lookup name c.entries ≡ none
    → lookup name (erase v.0 c.entries) ≡ none
absent-erase v c name h = elim (Bool-cases (v.0 == name)) [
  | inl same ↦ rw (lookup-erase v.0 name c.entries, same) refl
  | inr other ↦ rw (lookup-erase v.0 name c.entries, other) h
]

nothing-IsBusy : (m : Map String CacheEntry) → length m ≤ 0 → All IsBusy m
nothing-IsBusy [] h = tt
nothing-IsBusy (x ∷ m) h = absurd (omega (arith, h))

not_over : (c : Cache) → ltb c.max_bytes c.used ≡ false → c.used ≤ c.max_bytes
not_over c h = ground arith

-- One round takes an idle entry away.
one-IsEvicted :
    (v : Named) (c : Cache)
    → IsAccounted c
    → find_victim c.entries none ≡ some v
    → IsEvicted c (minus_victim v c) × (suc (length (minus_victim v c).entries) ≡ length c.entries)
one-IsEvicted v c a h = elim (find_victim-some c.entries none v h) [
  | inl same ↦ absurd (none≢some same)
  | inr (there, idle) ↦
      let found = IsIn-lookup v.0 v.1 c.entries a.unique there in
      let (sums, lengths) = sum_by-erase entry_size v.0 v.1 c.entries a.unique found in
      (
        record {
          accounted = record {
            unique = erase-IsUnique v.0 c.entries a.unique;
            sum = omega (arith, a.sum, sums);
          };
          same_max = refl;
          same_fills = refl;
          same_refs = refs-erase v c found idle;
          absent = absent-erase v c;
        },
        lengths,
      )
]

IsEvicted-trans : (c d e : Cache) → IsEvicted c d → IsEvicted d e → IsEvicted c e
IsEvicted-trans c d e x y = record {
  accounted = y.accounted;
  same_max = y.same_max ∙ x.same_max;
  same_fills = y.same_fills ∙ x.same_fills;
  same_refs = λ name. y.same_refs name ∙ x.same_refs name;
  absent = λ name h. y.absent name (x.absent name h);
}

evict-IsEvicted : (fuel : ℕ) (c : Cache) → IsAccounted c → IsEvicted c (evict fuel c)
unfolding evict
evict-IsEvicted zero c a = IsEvicted-self c a
evict-IsEvicted (suc fuel) c a = elim (Option-cases (find_victim c.entries none)) [
  | inl none_idle ↦ rw (none_idle, evict) (IsEvicted-self c a)
  | inr (v, found) ↦ elim (Bool-cases (ltb c.max_bytes c.used)) [
    | inl over ↦
        let (one, shorter) = one-IsEvicted v c a found in
        rw (found, over, evict)
          (IsEvicted-trans c (minus_victim v c) _ one
            (evict-IsEvicted fuel (minus_victim v c) one.accounted))
    | inr within ↦ rw (found, within, evict) (IsEvicted-self c a)
  ]
]

evict-IsBounded :
    (fuel : ℕ) (c : Cache) → IsAccounted c → length c.entries ≤ fuel → IsBounded (evict fuel c)
unfolding evict
evict-IsBounded zero c a h = inr (nothing-IsBusy c.entries h)
evict-IsBounded (suc fuel) c a h = elim (Option-cases (find_victim c.entries none)) [
  | inl none_idle ↦ rw (none_idle, evict) (inr (find_victim-none c.entries none none_idle).1)
  | inr (v, found) ↦ elim (Bool-cases (ltb c.max_bytes c.used)) [
    | inl over ↦
        let (one, shorter) = one-IsEvicted v c a found in
        rw (found, over, evict)
          (evict-IsBounded fuel (minus_victim v c) one.accounted (omega (arith, h, shorter)))
    | inr within ↦ rw (found, within, evict) (inl (not_over c within))
  ]
]

-- The whole of `evictLocked`: its loop ends within its fuel, in a cache that is bounded.
pub evict_locked-lem :
    (c : Cache) → IsAccounted c → IsEvicted c (evict_locked c) × IsBounded (evict_locked c)
evict_locked-lem c a =
    (evict-IsEvicted (length c.entries) c a, evict-IsBounded (length c.entries) c a (omega arith))
