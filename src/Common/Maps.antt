-- ===== src/Common/Maps.antt =====
-- Go's maps as association lists. A key stands at most once in a list that `insert` built; the order
-- of the list is the order in which `range` visits the map, which Go leaves open.
use mathlib.Core.Path.{◌≡◌, refl, subst}
use mathlib.Core.Logic.{inl, inr}
use mathlib.Core.Bool.{Bool, true}
use mathlib.Core.Option.{Option, none, some, some-injective}
use mathlib.Core.List.{List, [], ◌∷◌}
use native.Mathlib.Omega.{arith}
use Prim.Native.Nat.{ℕ, suc, ◌+◌, ◌≤◌}
use simple_host_enterprise.Common.Lists.{all, length, sum_by, All}
use simple_host_enterprise.Common.Tests.{Eq, ◌==◌, if◌then◌else◌, Bool-cases, &&-true}

abbrev pub Map {ℓ κ} : Type ℓ → Type κ → Type (ℓ ⊔ κ)
Map K V = List (K × V)

module _ {ℓ κ} {K : Type ℓ} {V : Type κ} ⦃e : Eq K⦄ where
  unfoldable pub lookup : K → Map K V → Option V
  lookup k [] = none
  lookup k ((j, v) ∷ m) = if j == k then some v else lookup k m

  unfoldable pub insert : K → V → Map K V → Map K V
  insert k v [] = (k, v) ∷ []
  insert k v ((j, w) ∷ m) = if j == k then (k, v) ∷ m else (j, w) ∷ insert k v m

  unfoldable pub erase : K → Map K V → Map K V
  erase k [] = []
  erase k ((j, w) ∷ m) = let rest = erase k m in if j == k then rest else (j, w) ∷ rest

  pub lookup-insert :
      (k j : K) (v : V) (rows : Map K V)
      → lookup j (insert k v rows) ≡ (if k == j then some v else lookup j rows)
  unfolding lookup insert
  lookup-insert k j v [] = refl
  lookup-insert k j v ((i, w) ∷ rows) =
      ground (arith, e.beq_iff k j, e.beq_iff i k, e.beq_iff i j, lookup-insert k j v rows)

  pub lookup-erase :
      (k j : K) (m : Map K V) → lookup j (erase k m) ≡ (if k == j then none else lookup j m)
  unfolding lookup erase
  lookup-erase k j [] = ground arith
  lookup-erase k j ((i, w) ∷ m) =
      ground (arith, e.beq_iff k j, e.beq_iff i k, e.beq_iff i j, lookup-erase k j m)

-- What a test says of every entry, it says of what a lookup finds.
pub all-lookup {ℓ κ} :
    {K : Type ℓ} {V : Type κ} ⦃e : Eq K⦄ (f : K → V → Bool) (m : Map K V) (k : K) (v : V)
    → all (λ (x : K × V). f x.0 x.1) m ≡ true
    → lookup k m ≡ some v
    → f k v ≡ true
unfolding lookup
all-lookup ⦃e⦄ f [] k v h p = cc
all-lookup ⦃e⦄ f ((j, w) ∷ m) k v h p = elim (Bool-cases (j == k)) [
  | inl same ↦
      let at_k = (e.beq_iff j k).0 same in
      let at_v = some-injective w v (rw same at p) in
      subst (λ x. f k x ≡ true) at_v (subst (λ x. f x w ≡ true) at_k (&&-true (f j w) _ h).0)
  | inr other ↦ all-lookup f m k v (&&-true (f j w) _ h).1 (rw other at p)
]

module _ {ℓ κ} {K : Type ℓ} {V : Type κ} ⦃e : Eq K⦄ where
  pub sum_by-insert :
      (f : K × V → ℕ) (k : K) (v : V) (m : Map K V)
      → sum_by f (insert k v m) ≤ f (k, v) + sum_by f m
  unfolding insert
  sum_by-insert f k v [] = omega arith
  sum_by-insert f k v ((j, w) ∷ m) = elim (Bool-cases (j == k)) [
    | inl same ↦ rw same (omega arith)
    | inr other ↦ rw other (omega (arith, sum_by-insert f k v m))
  ]

  pub length-insert : (k : K) (v : V) (m : Map K V) → length (insert k v m) ≤ suc (length m)
  unfolding insert
  length-insert k v [] = omega arith
  length-insert k v ((j, w) ∷ m) = elim (Bool-cases (j == k)) [
    | inl same ↦ rw same (omega arith)
    | inr other ↦ rw other (omega (arith, length-insert k v m))
  ]

  pub insert-All {μ} :
      (P : K × V → Type μ) (k : K) (v : V) (m : Map K V) → P (k, v) → All P m → All P (insert k v m)
  unfolding insert
  insert-All P k v [] p h = (p, tt)
  insert-All P k v ((j, w) ∷ m) p h = elim (Bool-cases (j == k)) [
    | inl same ↦ rw same (p, h.1)
    | inr other ↦ rw other (h.0, insert-All P k v m p h.1)
  ]
