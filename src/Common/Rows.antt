-- ===== src/Common/Rows.antt =====
-- Tables: maps whose rows a statement updates or deletes by a test.
use Prim.Native.Nat.{ℕ, suc}
use mathlib.Core.Path.{◌≡◌, refl, subst}
use mathlib.Core.Logic.{inl, inr}
use mathlib.Core.Bool.{Bool, false, ◌||◌}
use mathlib.Core.Option.{Option, none, some, some-injective}
use mathlib.Core.List.{List, [], ◌∷◌}
use native.Mathlib.Omega.{arith}
use simple_host_enterprise.Common.Tests.{Eq, ◌==◌, ==_iff, ==_self, Bool-cases, if◌then◌else◌}
use simple_host_enterprise.Common.Maps.{Map, lookup}
use simple_host_enterprise.Common.Unique.{IsUnique}

module _ {K : Type 0} {V : Type 0} where
  -- `UPDATE ... WHERE`: `f` leaves a row as it is where the test fails.
  unfoldable pub update_rows : (K → V → V) → Map K V → Map K V
  update_rows f [] = []
  update_rows f ((k, v) ∷ m) = (k, f k v) ∷ update_rows f m

  -- `DELETE ... WHERE`.
  unfoldable pub delete_rows : (K → V → Bool) → Map K V → Map K V
  delete_rows p [] = []
  delete_rows p ((k, v) ∷ m) = let rest = delete_rows p m in if p k v then rest else (k, v) ∷ rest

  -- `SELECT count(*) ... WHERE`.
  unfoldable pub count_rows : (K → V → Bool) → Map K V → ℕ
  count_rows p [] = 0
  count_rows p ((k, v) ∷ m) = if p k v then suc (count_rows p m) else count_rows p m

  -- `SELECT ... WHERE`, the first row.
  unfoldable pub find_row : (K → V → Bool) → Map K V → Option (K × V)
  find_row p [] = none
  find_row p ((k, v) ∷ m) = if p k v then some (k, v) else find_row p m

  unfoldable pub keys_where : (K → V → Bool) → Map K V → List K
  keys_where p [] = []
  keys_where p ((k, v) ∷ m) = let rest = keys_where p m in if p k v then k ∷ rest else rest

module _ {K : Type 0} ⦃e : Eq K⦄ where
  unfoldable pub is_member : K → List K → Bool
  is_member k [] = false
  is_member k (j ∷ js) = j == k || is_member k js

unfoldable pub map_row : {V : Type 0} → (V → V) → Option V → Option V
map_row f none = none
map_row f (some v) = some (f v)

-- The row unless the test deletes it.
unfoldable pub spare_row : {V : Type 0} → (V → Bool) → Option V → Option V
spare_row p none = none
spare_row p (some v) = if p v then none else some v

module _ {K : Type 0} {V : Type 0} ⦃e : Eq K⦄ where
  pub lookup-update_rows :
      (f : K → V → V) (k : K) (m : Map K V)
      → lookup k (update_rows f m) ≡ map_row (f k) (lookup k m)
  unfolding lookup update_rows map_row
  lookup-update_rows f k [] = refl
  lookup-update_rows f k ((j, v) ∷ m) = elim (Bool-cases (j == k)) [
    | inl same ↦ rw (same, (==_iff j k).0 same) refl
    | inr other ↦ rw other (lookup-update_rows f k m)
  ]

  delete_rows-absent :
      (p : K → V → Bool) (k : K) (m : Map K V)
      → lookup k m ≡ none
      → lookup k (delete_rows p m) ≡ none
  unfolding lookup delete_rows
  delete_rows-absent p k [] h = refl
  delete_rows-absent p k ((j, v) ∷ m) h = elim (Bool-cases (j == k)) [
    | inl same ↦ cc (rw (same, lookup) at h)
    | inr other ↦
        let rest = delete_rows-absent p k m (rw (other, lookup) at h) in
        elim (Bool-cases (p j v)) [ inl d ↦ rw d rest | inr d ↦ rw (d, other) rest ]
  ]

  pub lookup-delete_rows :
      (p : K → V → Bool) (k : K) (m : Map K V)
      → IsUnique m
      → lookup k (delete_rows p m) ≡ spare_row (p k) (lookup k m)
  unfolding lookup delete_rows spare_row
  lookup-delete_rows p k [] u = refl
  lookup-delete_rows p k ((j, v) ∷ m) u = elim (Bool-cases (j == k)) [
    | inl same ↦
        let key = (==_iff j k).0 same in
        let gone = delete_rows-absent p k m (subst (λ x. lookup x m ≡ none) key u.0) in
        elim (Bool-cases (p k v)) [
          | inl d ↦ rw (same, key, d) gone
          | inr d ↦ rw (same, key, d, ==_self k) refl
        ]
    | inr other ↦
        let rest = lookup-delete_rows p k m u.1 in
        elim (Bool-cases (p j v)) [ inl d ↦ rw (d, other) rest | inr d ↦ rw (d, other) rest ]
  ]

  pub update_rows-IsUnique : (f : K → V → V) (m : Map K V) → IsUnique m → IsUnique (update_rows f m)
  unfolding update_rows map_row
  update_rows-IsUnique f [] u = tt
  update_rows-IsUnique f ((k, v) ∷ m) u =
      (rw (lookup-update_rows f k m, u.0) refl, update_rows-IsUnique f m u.1)

  pub delete_rows-IsUnique :
      (p : K → V → Bool) (m : Map K V) → IsUnique m → IsUnique (delete_rows p m)
  unfolding delete_rows
  delete_rows-IsUnique p [] u = tt
  delete_rows-IsUnique p ((k, v) ∷ m) u = elim (Bool-cases (p k v)) [
    | inl d ↦ rw d (delete_rows-IsUnique p m u.1)
    | inr d ↦ rw d (delete_rows-absent p k m u.0, delete_rows-IsUnique p m u.1)
  ]

-- Whether a row is there and passes.
unfoldable pub row_passes : {V : Type 0} → (V → Bool) → Option V → Bool
row_passes p none = false
row_passes p (some v) = p v

module _ {K : Type 0} {V : Type 0} ⦃e : Eq K⦄ where
  keys_where-absent :
      (p : K → V → Bool) (k : K) (m : Map K V)
      → lookup k m ≡ none
      → is_member k (keys_where p m) ≡ false
  unfolding lookup keys_where is_member
  keys_where-absent p k [] h = refl
  keys_where-absent p k ((j, v) ∷ m) h = elim (Bool-cases (j == k)) [
    | inl same ↦ cc (rw (same, lookup) at h)
    | inr other ↦
        let rest = keys_where-absent p k m (rw (other, lookup) at h) in
        elim (Bool-cases (p j v)) [ inl d ↦ rw (d, other) rest | inr d ↦ rw d rest ]
  ]

  pub is_member-keys_where :
      (p : K → V → Bool) (k : K) (m : Map K V)
      → IsUnique m
      → is_member k (keys_where p m) ≡ row_passes (p k) (lookup k m)
  unfolding lookup keys_where is_member row_passes
  is_member-keys_where p k [] u = refl
  is_member-keys_where p k ((j, v) ∷ m) u = elim (Bool-cases (j == k)) [
    | inl same ↦
        let key = (==_iff j k).0 same in
        let gone = keys_where-absent p k m (subst (λ x. lookup x m ≡ none) key u.0) in
        elim (Bool-cases (p k v)) [
          | inl d ↦ rw (same, key, d, ==_self k) refl
          | inr d ↦ rw (same, key, d) gone
        ]
    | inr other ↦
        let rest = is_member-keys_where p k m u.1 in
        elim (Bool-cases (p j v)) [ inl d ↦ rw (d, other) rest | inr d ↦ rw (d, other) rest ]
  ]

  -- A statement that no row passes changes nothing; one that a row passes counts it.
  pub count_rows-zero :
      (p : K → V → Bool) (k : K) (v : V) (m : Map K V)
      → count_rows p m ≡ 0
      → lookup k m ≡ some v
      → p k v ≡ false
  unfolding lookup count_rows
  count_rows-zero p k v [] c h = cc
  count_rows-zero p k v ((j, w) ∷ m) c h = elim (Bool-cases (p j w)) [
    | inl passes ↦ absurd (omega (arith, rw passes at c))
    | inr fails ↦
        let rest = rw fails at c in
        elim (Bool-cases (j == k)) [
          | inl same ↦
              subst (λ x. p x v ≡ false) ((==_iff j k).0 same)
                (subst (λ x. p j x ≡ false) (some-injective w v (rw (same, lookup) at h)) fails)
          | inr other ↦ count_rows-zero p k v m rest (rw (other, lookup) at h)
        ]
  ]

-- `SELECT ... WHERE`, all the rows.
unfoldable pub select_rows : {K : Type 0} {V : Type 0} → (K → V → Bool) → Map K V → List (K × V)
select_rows p [] = []
select_rows p ((k, v) ∷ m) = let rest = select_rows p m in if p k v then (k, v) ∷ rest else rest
