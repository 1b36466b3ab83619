-- ===== src/Common/RowSets.antt =====
-- What every row of a table satisfies, and what an update or a deletion does to counts and sums.
use Prim.Native.Nat.{ℕ, ◌+◌, ◌≤◌}
use mathlib.Core.Path.{◌≡◌, refl, sym, subst}
use mathlib.Core.Logic.{inl, inr}
use mathlib.Core.Bool.{Bool, true, false, not, ◌&&◌}
use mathlib.Core.Option.{none, some, some-injective}
use mathlib.Core.List.{[], ◌∷◌}
use native.Mathlib.Omega.{arith}
use simple_host_enterprise.Common.Lists.{All, sum_by}
use simple_host_enterprise.Common.Tests.{Eq, ◌==◌, ==_iff, Bool-cases}
use simple_host_enterprise.Common.Maps.{Map, lookup}
use simple_host_enterprise.Common.Unique.{IsUnique}
use simple_host_enterprise.Common.Rows.{
  update_rows, delete_rows, count_rows, find_row, row_passes, select_rows,
}

-- What every row satisfies.
module _ {K : Type 0} {V : Type 0} where
  pub update_rows-All :
      (P Q : K × V → Type 0) (f : K → V → V) (m : Map K V)
      → ((x : K × V) → P x → Q (x.0, f x.0 x.1))
      → All P m
      → All Q (update_rows f m)
  unfolding update_rows
  update_rows-All P Q f [] g h = tt
  update_rows-All P Q f ((k, v) ∷ m) g h = (g (k, v) h.0, update_rows-All P Q f m g h.1)

  pub All-trivial : (P : K × V → Type 0) (m : Map K V) → ((x : K × V) → P x) → All P m
  All-trivial P [] g = tt
  All-trivial P ((k, v) ∷ m) g = (g (k, v), All-trivial P m g)

  pub delete_rows-All :
      (P : K × V → Type 0) (p : K → V → Bool) (m : Map K V) → All P m → All P (delete_rows p m)
  unfolding delete_rows
  delete_rows-All P p [] h = tt
  delete_rows-All P p ((k, v) ∷ m) h = elim (Bool-cases (p k v)) [
    | inl d ↦ rw d (delete_rows-All P p m h.1)
    | inr d ↦ rw d (h.0, delete_rows-All P p m h.1)
  ]

  -- What a deletion leaves fails its test.
  pub delete_rows-fails :
      (p : K → V → Bool) (m : Map K V) → All (λ (x : K × V). p x.0 x.1 ≡ false) (delete_rows p m)
  unfolding delete_rows
  delete_rows-fails p [] = tt
  delete_rows-fails p ((k, v) ∷ m) = elim (Bool-cases (p k v)) [
    | inl d ↦ rw d (delete_rows-fails p m)
    | inr d ↦ rw d (d, delete_rows-fails p m)
  ]

  pub find_row-All :
      (P : K × V → Type 0) (p : K → V → Bool) (m : Map K V) (x : K × V)
      → All P m
      → find_row p m ≡ some x
      → P x × (p x.0 x.1 ≡ true)
  unfolding find_row
  find_row-All P p [] x h e = cc
  find_row-All P p ((k, v) ∷ m) x h e = elim (Bool-cases (p k v)) [
    | inl d ↦
        subst (λ (y : K × V). P y × (p y.0 y.1 ≡ true)) (some-injective (k, v) x (rw d at e))
          (h.0, d)
    | inr d ↦ find_row-All P p m x h.1 (rw d at e)
  ]

module _ {K : Type 0} {V : Type 0} ⦃e : Eq K⦄ where
  pub lookup-All :
      (P : K × V → Type 0) (k : K) (v : V) (m : Map K V) → All P m → lookup k m ≡ some v → P (k, v)
  unfolding lookup
  lookup-All P k v [] h found = cc
  lookup-All P k v ((j, w) ∷ m) h found = elim (Bool-cases (j == k)) [
    | inl same ↦
        subst (λ x. P (x, v)) ((==_iff j k).0 same)
          (subst (λ x. P (j, x)) (some-injective w v (rw (same, lookup) at found)) h.0)
    | inr other ↦ lookup-All P k v m h.1 (rw (other, lookup) at found)
  ]

-- Rows that pass go on passing, by another test, after an update that sees to it.
pub count_rows-update_rows :
    {K : Type 0} {V : Type 0} (p q : K → V → Bool) (f : K → V → V) (m : Map K V)
    → ((k : K) (v : V) → p k v ≡ true → q k (f k v) ≡ true)
    → count_rows p m ≤ count_rows q (update_rows f m)
unfolding count_rows update_rows
count_rows-update_rows p q f [] g = omega arith
count_rows-update_rows p q f ((k, v) ∷ m) g =
    let rest = count_rows-update_rows p q f m g in
    elim (Bool-cases (p k v)) [
      | inl passes ↦ rw (passes, g k v passes) (omega (arith, rest))
      | inr fails ↦ elim (Bool-cases (q k (f k v))) [
        | inl c ↦ rw (fails, c) (omega (arith, rest))
        | inr c ↦ rw (fails, c) rest
      ]
    ]

-- A row that does not pass need not be counted.
pub count_rows-without :
    {K : Type 0} {V : Type 0} ⦃e : Eq K⦄ (p : K → V → Bool) (k : K) (m : Map K V)
    → IsUnique m
    → row_passes (p k) (lookup k m) ≡ false
    → count_rows p m ≤ count_rows (λ j v. p j v && not (j == k)) m
unfolding count_rows lookup row_passes
count_rows-without p k [] u h = omega arith
count_rows-without p k ((j, v) ∷ m) u h = elim (Bool-cases (j == k)) [
  | inl same ↦
      let key = (==_iff j k).0 same in
      let fails : p j v ≡ false =
        subst (λ x. p x v ≡ false) (sym key) (rw (same, row_passes) at h) in
      let gone = subst (λ x. lookup x m ≡ none) key u.0 in
      rw (fails) (count_rows-without p k m u.1 (rw (gone, row_passes) refl))
  | inr other ↦
      let rest = count_rows-without p k m u.1 (rw (other) at h) in
      elim (Bool-cases (p j v)) [ inl c ↦ rw (c, other) (omega (arith, rest)) | inr c ↦ rw c rest ]
]

-- What is deleted and what is left are together what there was.
pub sum_by-delete_rows :
    {K : Type 0} {V : Type 0} (f : K × V → ℕ) (p : K → V → Bool) (m : Map K V)
    → sum_by f (delete_rows p m) + sum_by f (select_rows p m) ≡ sum_by f m
unfolding delete_rows select_rows
sum_by-delete_rows f p [] = omega arith
sum_by-delete_rows f p ((k, v) ∷ m) =
    let rest = sum_by-delete_rows f p m in
    elim (Bool-cases (p k v)) [
      | inl c ↦ rw c (omega (arith, rest))
      | inr c ↦ rw c (omega (arith, rest))
    ]
