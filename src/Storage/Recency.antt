-- ===== src/Storage/Recency.antt =====
-- Which entry `evictLocked` takes.
use simple_host_enterprise.Common.{
  ℕ, ◌≤◌, String, ◌≡◌, ◌≢◌, ◌⊎◌, sym, ◌∙◌, subst, true, false, ◌&&◌, Option, none, some, [], ◌∷◌,
  arith, ℕ_eq, String_eq, ◌==◌, ==_iff, ltb, All, Bool-cases, &&-true, inl, inr, false≢true,
}
use mathlib.Core.Option.{some-injective}
use simple_host_enterprise.Common.Maps.{Map}
use simple_host_enterprise.Common.Unique.{IsIn}
use simple_host_enterprise.Storage.Cache.{CacheEntry, find_victim}
use simple_host_enterprise.Storage.Eviction.{Named, find_victim-some, none≢some}

-- In use, or used no earlier than `v`.
abbrev pub IsNoOlder : Named → Named → Type 0
IsNoOlder v x = (x.1.refs ≢ 0) ⊎ (v.1.last_used ≤ x.1.last_used)

abbrev NoOlderThan : Named → Option Named → Type 0
NoOlderThan v none = Unit
NoOlderThan v (some b) = v.1.last_used ≤ b.1.last_used

before : (a t v : ℕ) → ltb a t ≡ true → v ≤ a → v ≤ t
before a t v h le = ground arith

not_before : (a t v : ℕ) → ltb a t ≡ false → v ≤ t → v ≤ a
not_before a t v h le = ground arith

at_most : (b v : Named) → ◌≡◌ {A = Option Named} (some b) (some v) → v.1.last_used ≤ b.1.last_used
at_most b v h =
    subst (λ (x : Named). x.1.last_used ≤ b.1.last_used) (some-injective b v h) (omega arith)

earlier :
    (e w : CacheEntry) (v : Named)
    → (e.refs == 0 && ltb e.last_used w.last_used) ≡ true
    → v.1.last_used ≤ e.last_used
    → v.1.last_used ≤ w.last_used
earlier e w v h le = before e.last_used w.last_used v.1.last_used (&&-true (e.refs == 0) _ h).1 le

newer_or_busy :
    (e : CacheEntry) (t v : ℕ)
    → (e.refs == 0 && ltb e.last_used t) ≡ false
    → v ≤ t
    → (e.refs ≢ 0) ⊎ (v ≤ e.last_used)
newer_or_busy e t v h le = elim (Bool-cases (e.refs == 0)) [
  | inr busy ↦ inl (λ z. false≢true (sym busy ∙ (==_iff e.refs 0).1 z))
  | inl idle ↦ inr (not_before e.last_used t v (rw idle at h) le)
]

find_victim-least :
    (m : Map String CacheEntry) (best : Option Named) (v : Named)
    → find_victim m best ≡ some v
    → NoOlderThan v best × All (IsNoOlder v) m
unfolding find_victim
find_victim-least [] none v h = (tt, tt)
find_victim-least [] (some b) v h = (at_most b v h, tt)
find_victim-least ((name, e) ∷ rest) none v h = elim (Bool-cases (e.refs == 0)) [
  | inl idle ↦
      let (here, there) = find_victim-least rest (some (name, e)) v (rw (idle, find_victim) at h) in
      (tt, (inr here, there))
  | inr busy ↦
      let (none_yet, there) = find_victim-least rest none v (rw (busy, find_victim) at h) in
      (tt, (inl (λ z. false≢true (sym busy ∙ (==_iff e.refs 0).1 z)), there))
]
find_victim-least ((name, e) ∷ rest) (some (n, w)) v h =
    elim (Bool-cases (e.refs == 0 && ltb e.last_used w.last_used)) [
      | inl older ↦
          let (here, there) =
            find_victim-least rest (some (name, e)) v (rw (older, find_victim) at h) in
          (earlier e w v older here, (inr here, there))
      | inr newer ↦
          let (here, there) =
            find_victim-least rest (some (n, w)) v (rw (newer, find_victim) at h) in
          (here, (newer_or_busy e w.last_used v.1.last_used newer here, there))
    ]

-- The entry taken is an idle one of the cache, and of all that are idle none was used earlier.
pub evicts_least_recent :
    (m : Map String CacheEntry) (v : Named)
    → find_victim m none ≡ some v
    → IsIn v m × (v.1.refs ≡ 0) × All (IsNoOlder v) m
evicts_least_recent m v h = elim (find_victim-some m none v h) [
  | inl same ↦ absurd (none≢some same)
  | inr (there, idle) ↦ (there, idle, (find_victim-least m none v h).1)
]
