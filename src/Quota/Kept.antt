-- ===== src/Quota/Kept.antt =====
-- What a prune of a site's versions keeps.
use simple_host_enterprise.Common.{
  ℕ, zero, suc, ◌≤◌, ◌<◌, ◌≡◌, ◌≢◌, refl, sym, ap, subst, ◌∙◌, ◌⊎◌, Bool, true, not, ◌&&◌, none,
  some, List, [], ◌∷◌, map, Bytes, leb, ◌==◌, ==_iff, ℕ_eq, List_eq, All, Bool-cases, &&-true, inl,
  inr, arith, false≢true,
}
use mathlib.Core.Option.{some-injective}
use simple_host_enterprise.Common.Maps.{Map, lookup}
use simple_host_enterprise.Common.Rows.{
  delete_rows, count_rows, select_rows, spare_row, is_member, lookup-delete_rows,
}
use simple_host_enterprise.Common.Unique.{IsUnique, IsIn, IsIn-lookup}
use simple_host_enterprise.Quota.{
  Version, Store, insert_newest, newest_first, drop, is_of_site, doomed, is_pruned, prune_versions,
}
use simple_host_enterprise.Quota.Pruning.{
  Newer, IsNewestFirst, newest_first-IsNewestFirst, newest_first-IsIn, drop-IsIn, select_rows-IsIn,
  is_member-IsIn,
}

insert_newest-count :
    (p : Bytes → Version → Bool) (x : Bytes × Version) (ys : List (Bytes × Version))
    → count_rows p (insert_newest x ys) ≡ count_rows p (x ∷ ys)
unfolding insert_newest count_rows
insert_newest-count p x [] = refl
insert_newest-count p x (y ∷ ys) = elim (Bool-cases (leb y.1.version_number x.1.version_number)) [
  | inl c ↦ rw c refl
  | inr c ↦
      rw (c, insert_newest-count p x ys)
        (elim (Bool-cases (p x.0 x.1)) [
          | inl a ↦ elim (Bool-cases (p y.0 y.1)) [
            | inl b ↦ rw (a, b) refl
            | inr b ↦ rw (a, b) refl
          ]
          | inr a ↦ elim (Bool-cases (p y.0 y.1)) [
            | inl b ↦ rw (a, b) refl
            | inr b ↦ rw (a, b) refl
          ]
        ])
]

newest_first-count :
    (p : Bytes → Version → Bool) (xs : List (Bytes × Version))
    → count_rows p (newest_first xs) ≡ count_rows p xs
unfolding newest_first count_rows
newest_first-count p [] = refl
newest_first-count p (x ∷ xs) =
    insert_newest-count p x (newest_first xs) ∙ elim (Bool-cases (p x.0 x.1)) [
      | inl c ↦ rw (c, newest_first-count p xs) refl
      | inr c ↦ rw (c, newest_first-count p xs) refl
    ]

select_rows-count :
    (p q : Bytes → Version → Bool) (m : Map Bytes Version)
    → count_rows q (select_rows p m) ≡ count_rows (λ k v. p k v && q k v) m
unfolding select_rows count_rows
select_rows-count p q [] = refl
select_rows-count p q ((k, v) ∷ m) =
    let rest = select_rows-count p q m in
    elim (Bool-cases (p k v)) [
      | inr a ↦ rw a rest
      | inl a ↦ elim (Bool-cases (q k v)) [
        | inl b ↦ rw (a, b) (ap suc rest)
        | inr b ↦ rw (a, b) rest
      ]
    ]

-- As new as a version, or newer.
unfoldable pub is_as_new : ℕ → Bytes → Version → Bool
is_as_new n k v = leb n v.version_number

IsIn-count :
    (z : Bytes × Version) (xs : List (Bytes × Version))
    → IsIn z xs
    → 1 ≤ count_rows (is_as_new z.1.version_number) xs
unfolding count_rows is_as_new
IsIn-count z [] h = absurd h
IsIn-count z (x ∷ xs) (inl e) =
    let same : z.1.version_number ≡ x.1.version_number =
      ap (λ (y : Bytes × Version). y.1.version_number) e in
    let passes : leb z.1.version_number x.1.version_number ≡ true = ground (arith, same) in
    rw passes (omega arith)
IsIn-count z (x ∷ xs) (inr h) =
    let rest = IsIn-count z xs h in
    elim (Bool-cases (leb z.1.version_number x.1.version_number)) [
      | inl c ↦ rw c (omega (arith, rest))
      | inr c ↦ rw c rest
    ]

All-IsIn :
    (P : Bytes × Version → Type 0) (z : Bytes × Version) (xs : List (Bytes × Version))
    → All P xs
    → IsIn z xs
    → P z
All-IsIn P z [] h i = absurd i
All-IsIn P z (x ∷ xs) h (inl e) = subst P (sym e) h.0
All-IsIn P z (x ∷ xs) h (inr i) = All-IsIn P z xs h.1 i

drop-count :
    (z : Bytes × Version) (n : ℕ) (xs : List (Bytes × Version))
    → IsNewestFirst xs
    → IsIn z (drop n xs)
    → n < count_rows (is_as_new z.1.version_number) xs
unfolding drop count_rows is_as_new
drop-count z zero xs sorted i = omega (arith, IsIn-count z xs i)
drop-count z (suc n) [] sorted i = absurd i
drop-count z (suc n) (x ∷ xs) sorted i =
    let rest = drop-count z n xs sorted.1 i in
    let newer = All-IsIn (Newer x) z xs sorted.0 (drop-IsIn z n xs i) in
    let passes : leb z.1.version_number x.1.version_number ≡ true = ground (arith, newer) in
    rw passes (omega (arith, rest))

pub is_pruned_lem :
    (site_id : Bytes) (active_version keep : ℕ) (versions : Map Bytes Version) (k : Bytes)
    (v : Version)
    → IsUnique versions
    → lookup k versions ≡ some v
    → is_pruned site_id active_version keep versions k v ≡ true
    → (v.site_id ≡ site_id)
      × (v.version_number ≢ active_version)
      × (keep
          < count_rows (λ j w. is_of_site site_id j w && is_as_new v.version_number j w) versions)
unfolding is_pruned doomed is_of_site
is_pruned_lem site_id active_version keep versions k v u found h =
    let of_site = select_rows (is_of_site site_id) versions in
    let (listed, inactive) =
      &&-true (is_member k (map (λ (x : Bytes × Version). x.0) (drop keep (newest_first of_site))))
        (not (v.version_number == active_version)) h in
    let (w, dropped) = is_member-IsIn k (drop keep (newest_first of_site)) listed in
    let (there, own) =
      select_rows-IsIn (is_of_site site_id) (k, w) versions
        (newest_first-IsIn (k, w) of_site (drop-IsIn (k, w) keep (newest_first of_site) dropped)) in
    let same : w ≡ v = some-injective w v (sym (IsIn-lookup k w versions u there) ∙ found) in
    let many =
      drop-count (k, w) keep (newest_first of_site) (newest_first-IsNewestFirst of_site) dropped in
    let counted =
      newest_first-count (is_as_new w.version_number) of_site
      ∙ select_rows-count (is_of_site site_id) (is_as_new w.version_number) versions in
    (
      subst (λ (x : Version). x.site_id ≡ site_id) same ((==_iff w.site_id site_id).0 own),
      λ e. false≢true (rw ((==_iff v.version_number active_version).1 e) at inactive),
      subst
          (λ (x : Version).
            keep
            < count_rows (λ j y. is_of_site site_id j y && is_as_new x.version_number j y) versions)
          same (subst (λ n. keep < n) counted many),
    )

-- A prune deletes only versions of its site, never the active one, and only a version for which the
-- site has more than `keep` as new as it, itself included; every other version stays as it is. The id
-- is the primary key of `versions`.
pub prune_versions-keeps :
    (site_id : Bytes) (active_version keep : ℕ) (st : Store) (k : Bytes) (v : Version)
    → IsUnique st.versions
    → lookup k st.versions ≡ some v
    → (lookup k (prune_versions site_id active_version keep st).0.versions ≡ some v)
      ⊎ ((lookup k (prune_versions site_id active_version keep st).0.versions ≡ none)
          × (v.site_id ≡ site_id)
          × (v.version_number ≢ active_version)
          × (keep
              < count_rows
                  (λ j w. is_of_site site_id j w && is_as_new v.version_number j w)
                  st.versions))
unfolding prune_versions spare_row
prune_versions-keeps site_id active_version keep st k v u found =
    let test = is_pruned site_id active_version keep st.versions in
    elim (Bool-cases (test k v)) [
      | inl pruned ↦
          let gone : lookup k (delete_rows test st.versions) ≡ none =
            rw (lookup-delete_rows test k st.versions u, found, spare_row, pruned) refl in
          let (own, inactive, many) =
            is_pruned_lem site_id active_version keep st.versions k v u found pruned in
          inr (gone, own, inactive, many)
      | inr kept ↦ inl (rw (lookup-delete_rows test k st.versions u, found, spare_row, kept) refl)
    ]
