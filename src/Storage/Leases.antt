-- ===== src/Storage/Leases.antt =====
-- The cache as its readers share it: every history of its sections.
use simple_host_enterprise.Common.{
  ℕ, String, ◌≡◌, ◌≢◌, refl, sym, ap, ◌∙◌, subst, Bool, true, false, ◌||◌, Option, none, some, List,
  [], ◌∷◌, ◌++◌, String_eq, ◌==◌, ==_iff, any, sum_by, Bool-cases, Option-cases, inl, inr,
  false≢true,
}
use simple_host_enterprise.Common.Maps.{lookup, insert, lookup-insert}
use simple_host_enterprise.Common.Unique.{flip}
use simple_host_enterprise.Storage.Cache.{
  CacheEntry, Cache, new_cache, evict_locked, hit, fill, acquire, without_fill, finish_fill,
  release_entry,
}
use simple_host_enterprise.Storage.Eviction.{refs_in, IsAccounted, IsBounded, evict_locked-lem}

-- The caches that the sections of `acquire` and `release` lead to from an empty one, with the leases
-- that are out. A fill is finished by the caller that started it; a lease is released once.
pub data Run (max_bytes : ℕ) : Cache → List String → Type 0 where
  opened : Run max_bytes (new_cache max_bytes) []
  hits :
      (c d : Cache) (leases : List String) (name : String) (now : ℕ)
      → Run max_bytes c leases
      → acquire name now c ≡ hit d
      → Run max_bytes d (name ∷ leases)
  fills :
      (c d : Cache) (leases : List String) (name : String) (now : ℕ)
      → Run max_bytes c leases
      → acquire name now c ≡ fill d
      → Run max_bytes d leases
  fetched :
      (c : Cache) (leases : List String) (name : String) (size now : ℕ)
      → Run max_bytes c leases
      → any (λ n. n == name) c.fills ≡ true
      → Run max_bytes (finish_fill name (some size) now c) (name ∷ leases)
  failed :
      (c : Cache) (leases : List String) (name : String) (now : ℕ)
      → Run max_bytes c leases
      → any (λ n. n == name) c.fills ≡ true
      → Run max_bytes (finish_fill name none now c) leases
  released :
      (c : Cache) (before after : List String) (name : String) (now : ℕ)
      → Run max_bytes c (before ++ (name ∷ after))
      → Run max_bytes (release_entry name now c) (before ++ after)

-- How many leases of a name are out.
abbrev pub one_if : Bool → ℕ
one_if true = 1
one_if false = 0

abbrev pub leases_of : String → List String → ℕ
leases_of name leases = sum_by (λ n. one_if (n == name)) leases

pub record IsSound (max_bytes : ℕ) (c : Cache) (leases : List String) : Type 0 where
  pub max : c.max_bytes ≡ max_bytes
  pub accounted : IsAccounted c
  pub counted : (name : String) → refs_in (lookup name c.entries) ≡ leases_of name leases
  pub apart : (name : String) → any (λ n. n == name) c.fills ≡ true → lookup name c.entries ≡ none
  pub bounded : IsBounded c

-- An eviction keeps all of it, and gives the bound.
pub evicted-IsSound :
    (max_bytes : ℕ) (c : Cache) (leases : List String)
    → c.max_bytes ≡ max_bytes
    → IsAccounted c
    → ((name : String) → refs_in (lookup name c.entries) ≡ leases_of name leases)
    → ((name : String) → any (λ n. n == name) c.fills ≡ true → lookup name c.entries ≡ none)
    → IsSound max_bytes (evict_locked c) leases
evicted-IsSound max_bytes c leases m a k p =
    let (e, bounded) = evict_locked-lem c a in
    record {
      max = e.same_max ∙ m;
      accounted = e.accounted;
      counted = λ name. e.same_refs name ∙ k name;
      apart = λ name h.
          e.absent name (p name (subst (λ fs. any (λ n. n == name) fs ≡ true) e.same_fills h));
      bounded = bounded;
    }

-- What a change of one entry does to the count of every name.
pub counted-insert :
    (c : Cache) (name : String) (e : CacheEntry) (old new : List String)
    → ((n : String) → refs_in (lookup n c.entries) ≡ leases_of n old)
    → e.refs ≡ leases_of name new
    → ((n : String) → (name == n) ≡ false → leases_of n new ≡ leases_of n old)
    → (n : String) → refs_in (lookup n (insert name e c.entries)) ≡ leases_of n new
counted-insert c name e old new k at_name elsewhere n = elim (Bool-cases (name == n)) [
  | inl same ↦
      rw (lookup-insert name n e c.entries, same)
        (at_name ∙ ap (λ x. leases_of x new) ((==_iff name n).0 same))
  | inr other ↦ rw (lookup-insert name n e c.entries, other) (k n ∙ sym (elsewhere n other))
]

pub apart-insert :
    (c : Cache) (name : String) (e : CacheEntry) (fs : List String)
    → ((n : String)
        → any (λ x. x == n) fs ≡ true
        → ((name == n) ≡ false) × (lookup n c.entries ≡ none))
    → (n : String) → any (λ x. x == n) fs ≡ true
    → lookup n (insert name e c.entries) ≡ none
apart-insert c name e fs p n h =
    let (other, free) = p n h in rw (lookup-insert name n e c.entries, other) free

||-right : (a : Bool) {b : Bool} → b ≡ true → (a || b) ≡ true
||-right true h = refl
||-right false h = h

pub without_fill-any :
    (name n : String) (fs : List String)
    → any (λ x. x == n) (without_fill name fs) ≡ true
    → ((name == n) ≡ false) × (any (λ x. x == n) fs ≡ true)
unfolding without_fill
without_fill-any name n [] h = absurd (false≢true h)
without_fill-any name n (x ∷ fs) h = elim (Bool-cases (x == name)) [
  | inl same ↦
      let (other, there) = without_fill-any name n fs (rw (same, without_fill) at h) in
      (other, ||-right (x == n) there)
  | inr kept ↦ elim (Bool-cases (x == n)) [
    | inl here ↦
        let at_n = (==_iff x n).0 here in
        (subst (λ y. (name == y) ≡ false) at_n (flip x name kept), rw here refl)
    | inr not_here ↦
        let (other, there) = without_fill-any name n fs (rw (kept, not_here, without_fill) at h) in
        (other, rw not_here there)
  ]
]

pub some≢none : {A : Type 0} {a : A} → ◌≡◌ {A = Option A} (some a) none → ⊥
some≢none h = cc

pub entry_there :
    (max_bytes : ℕ) (c : Cache) (leases : List String) (name : String)
    → IsSound max_bytes c leases
    → leases_of name leases ≢ 0
    → (e : CacheEntry) × (lookup name c.entries ≡ some e) × (e.refs ≡ leases_of name leases)
entry_there max_bytes c leases name s h = elim (Option-cases (lookup name c.entries)) [
  | inl e ↦ absurd (h (sym (s.counted name) ∙ ap refs_in e))
  | inr (e, there) ↦ (e, there, sym (ap refs_in there) ∙ s.counted name)
]
