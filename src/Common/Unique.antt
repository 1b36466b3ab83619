-- ===== src/Common/Unique.antt =====
-- Maps whose keys stand once, and what sums over them become.
use Prim.Native.Nat.{ℕ, suc, ◌+◌}
use mathlib.Core.Path.{◌≡◌, refl, sym, ap, ◌∙◌, subst}
use mathlib.Core.Logic.{◌⊎◌, inl, inr}
use mathlib.Core.Bool.{false, false≢true}
use mathlib.Core.Option.{Option, none, some, some-injective}
use mathlib.Core.List.{[], ◌∷◌}
use native.Mathlib.Omega.{arith}
use simple_host_enterprise.Common.Lists.{length, sum_by}
use simple_host_enterprise.Common.Tests.{Eq, ◌==◌, ==_iff, Bool-cases}
use simple_host_enterprise.Common.Maps.{Map, lookup, insert, erase, lookup-insert, lookup-erase}

pub flip : {K : Type 0} ⦃e : Eq K⦄ (j k : K) → (j == k) ≡ false → (k == j) ≡ false
flip j k h = elim (Bool-cases (k == j)) [
  | inr p ↦ p
  | inl p ↦ absurd (false≢true (sym h ∙ (==_iff j k).1 (sym ((==_iff k j).0 p))))
]

pub some≢none : {V : Type 0} {v : V} → ◌≡◌ {A = Option V} (some v) none → ⊥
some≢none h = cc

module _ {K : Type 0} {V : Type 0} ⦃e : Eq K⦄ where
  abbrev pub IsUnique : Map K V → Type 0
  IsUnique [] = Unit
  IsUnique ((k, v) ∷ m) = (lookup k m ≡ none) × IsUnique m

  abbrev pub IsIn : K × V → Map K V → Type 0
  IsIn x [] = ⊥
  IsIn x (y ∷ m) = (x ≡ y) ⊎ IsIn x m

  pub insert-IsUnique : (k : K) (v : V) (m : Map K V) → IsUnique m → IsUnique (insert k v m)
  unfolding insert lookup
  insert-IsUnique k v [] u = (refl, tt)
  insert-IsUnique k v ((j, w) ∷ m) u = elim (Bool-cases (j == k)) [
    | inl same ↦ rw same (subst (λ x. lookup x m ≡ none) ((==_iff j k).0 same) u.0, u.1)
    | inr other ↦
        rw other (rw (lookup-insert k j v m, flip j k other) u.0, insert-IsUnique k v m u.1)
  ]

  pub erase-IsUnique : (k : K) (m : Map K V) → IsUnique m → IsUnique (erase k m)
  unfolding erase
  erase-IsUnique k [] u = tt
  erase-IsUnique k ((j, w) ∷ m) u = elim (Bool-cases (j == k)) [
    | inl same ↦ rw same (erase-IsUnique k m u.1)
    | inr other ↦ rw other (rw (lookup-erase k j m, flip j k other) u.0, erase-IsUnique k m u.1)
  ]

  pub IsIn-lookup : (k : K) (v : V) (m : Map K V) → IsUnique m → IsIn (k, v) m → lookup k m ≡ some v
  unfolding lookup
  IsIn-lookup k v [] u h = absurd h
  IsIn-lookup k v ((j, w) ∷ m) u (inl h) =
      rw ((==_iff j k).1 (sym (ap (λ (x : K × V). x.0) h)))
        (ap some (sym (ap (λ (x : K × V). x.1) h)))
  IsIn-lookup k v ((j, w) ∷ m) u (inr h) =
      let found = IsIn-lookup k v m u.1 h in
      elim (Bool-cases (j == k)) [
        | inr other ↦ rw other found
        | inl same ↦
            absurd
              (some≢none (sym found ∙ subst (λ x. lookup x m ≡ none) ((==_iff j k).0 same) u.0))
      ]

  pub erase-absent : (k : K) (m : Map K V) → lookup k m ≡ none → erase k m ≡ m
  unfolding erase lookup
  erase-absent k [] h = refl
  erase-absent k ((j, w) ∷ m) h = elim (Bool-cases (j == k)) [
    | inl same ↦ absurd (some≢none (rw (same, lookup) at h))
    | inr other ↦ rw other (ap (λ x. (j, w) ∷ x) (erase-absent k m (rw (other, lookup) at h)))
  ]

  pub sum_by-erase :
      (f : K × V → ℕ) (k : K) (v : V) (m : Map K V)
      → IsUnique m
      → lookup k m ≡ some v
      → (sum_by f (erase k m) + f (k, v) ≡ sum_by f m) × (suc (length (erase k m)) ≡ length m)
  unfolding erase lookup
  sum_by-erase f k v [] u h = absurd (some≢none (sym h))
  sum_by-erase f k v ((j, w) ∷ m) u h = elim (Bool-cases (j == k)) [
    | inl same ↦
        let key = (==_iff j k).0 same in
        let value = some-injective w v (rw (same, lookup) at h) in
        let gone = erase-absent k m (subst (λ x. lookup x m ≡ none) key u.0) in
        let cost : f (j, w) ≡ f (k, v) = ap (λ x. f (x, w)) key ∙ ap (λ x. f (k, x)) value in
        rw (same, gone) (omega (arith, cost), refl)
    | inr other ↦
        let (sums, lengths) = sum_by-erase f k v m u.1 (rw (other, lookup) at h) in
        rw other (omega (arith, sums), omega (arith, lengths))
  ]

  pub sum_by-replace :
      (f : K × V → ℕ) (k : K) (v w : V) (m : Map K V)
      → lookup k m ≡ some w
      → sum_by f (insert k v m) + f (k, w) ≡ sum_by f m + f (k, v)
  unfolding insert lookup
  sum_by-replace f k v w [] h = absurd (some≢none (sym h))
  sum_by-replace f k v w ((j, z) ∷ m) h = elim (Bool-cases (j == k)) [
    | inl same ↦
        let key = (==_iff j k).0 same in
        let value = some-injective z w (rw (same, lookup) at h) in
        let cost : f (j, z) ≡ f (k, w) = ap (λ x. f (x, z)) key ∙ ap (λ x. f (k, x)) value in
        rw same (omega (arith, cost))
    | inr other ↦ rw other (omega (arith, sum_by-replace f k v w m (rw (other, lookup) at h)))
  ]

  pub sum_by-new :
      (f : K × V → ℕ) (k : K) (v : V) (m : Map K V)
      → lookup k m ≡ none
      → sum_by f (insert k v m) ≡ sum_by f m + f (k, v)
  unfolding insert lookup
  sum_by-new f k v [] h = omega arith
  sum_by-new f k v ((j, z) ∷ m) h = elim (Bool-cases (j == k)) [
    | inl same ↦ absurd (some≢none (rw (same, lookup) at h))
    | inr other ↦ rw other (omega (arith, sum_by-new f k v m (rw (other, lookup) at h)))
  ]
