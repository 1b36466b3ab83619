-- ===== src/Quota/Enforcing.antt =====
-- What the statements of a deploy do to the bytes that an owner's usage counts.
use simple_host_enterprise.Common.{
  ℕ, ◌+◌, ◌≤◌, ◌≡◌, refl, sym, subst, ◌∙◌, Bool, true, none, some, List, [], ◌∷◌, Bytes,
  if◌then◌else◌, ◌==◌, ==_iff, ℕ_eq, List_eq, sum_by, All, Bool-cases, inl, inr, arith,
}
use simple_host_enterprise.Common.Maps.{Map, lookup}
use simple_host_enterprise.Common.Rows.{update_rows, select_rows}
use simple_host_enterprise.Common.Unique.{IsUnique, some≢none}
use simple_host_enterprise.Quota.{Version, version_bytes, sized_row}

pub sum_by-same :
    {A : Type 0} (f g : A → ℕ) (xs : List A) → ((x : A) → f x ≡ g x) → sum_by f xs ≡ sum_by g xs
sum_by-same f g [] h = refl
sum_by-same f g (x ∷ xs) h = omega (arith, h x, sum_by-same f g xs h)

-- What holds of what a lookup finds holds of every row, where keys stand once.
pub All-lookups :
    (P : Bytes × Version → Type 0) (m : Map Bytes Version)
    → IsUnique m
    → ((k : Bytes) (v : Version) → lookup k m ≡ some v → P (k, v))
    → All P m
unfolding lookup
All-lookups P [] u h = tt
All-lookups P ((j, w) ∷ m) u h =
    let head : (if j == j then some w else lookup j m) ≡ some w = rw ((==_iff j j).1 refl) refl in
    (
      h j w head,
      All-lookups P m u.1 (λ k v found. elim (Bool-cases (j == k)) [
        | inl same ↦
            absurd
              (some≢none (sym found ∙ subst (λ x. lookup x m ≡ none) ((==_iff j k).0 same) u.0))
        | inr other ↦ h k v (rw other found)
      ]),
    )

-- The bytes of what is pruned, counted by the usage or by what it frees.
pub select_rows-sum :
    (f g : Bytes × Version → ℕ) (p : Bytes → Version → Bool) (m : Map Bytes Version)
    → All (λ (x : Bytes × Version). p x.0 x.1 ≡ true → f x ≡ g x) m
    → sum_by f (select_rows p m) ≡ sum_by g (select_rows p m)
unfolding select_rows
select_rows-sum f g p [] h = refl
select_rows-sum f g p ((k, v) ∷ m) h =
    let rest = select_rows-sum f g p m h.1 in
    elim (Bool-cases (p k v)) [ inl c ↦ rw c (omega (arith, h.0 c, rest)) | inr c ↦ rw c rest ]

-- Setting one size adds at most that.
pub sized-absent :
    (counted : Bytes → Bool) (id : Bytes) (size : ℕ) (m : Map Bytes Version)
    → lookup id m ≡ none
    → sum_by (version_bytes counted) (update_rows (sized_row id size) m)
      ≡ sum_by (version_bytes counted) m
unfolding update_rows sized_row lookup
sized-absent counted id size [] h = refl
sized-absent counted id size ((k, v) ∷ m) h = elim (Bool-cases (k == id)) [
  | inl same ↦ absurd (some≢none (rw (same, lookup) at h))
  | inr other ↦ rw other (omega (arith, sized-absent counted id size m (rw (other, lookup) at h)))
]

pub sized-adds :
    (counted : Bytes → Bool) (id : Bytes) (size : ℕ) (m : Map Bytes Version)
    → IsUnique m
    → sum_by (version_bytes counted) (update_rows (sized_row id size) m)
      ≤ sum_by (version_bytes counted) m + size
unfolding update_rows sized_row version_bytes
sized-adds counted id size [] u = omega arith
sized-adds counted id size ((k, v) ∷ m) u = elim (Bool-cases (k == id)) [
  | inl same ↦
      let absent = subst (λ x. lookup x m ≡ none) ((==_iff k id).0 same) u.0 in
      let rest = sized-absent counted id size m absent in
      elim (Bool-cases (counted v.site_id)) [
        | inl c ↦ rw (same, c) (omega (arith, rest))
        | inr c ↦ rw (same, c) (omega (arith, rest))
      ]
  | inr other ↦ rw other (omega (arith, sized-adds counted id size m u.1))
]
