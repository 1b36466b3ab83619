-- ===== src/Quota/Pruning.antt =====
-- The order in which a prune looks at a site's versions.
use simple_host_enterprise.Common.{
  ℕ, zero, suc, ◌≤◌, ◌≡◌, sym, ap, subst, ◌⊎◌, Bool, true, List, [], ◌∷◌, map, Bytes, leb, ◌==◌,
  ==_iff, ℕ_eq, List_eq, All, All-map, Bool-cases, inl, inr, arith, leb→le,
}
use simple_host_enterprise.Common.Maps.{Map}
use simple_host_enterprise.Common.Rows.{select_rows, is_member}
use simple_host_enterprise.Common.Unique.{IsIn}
use simple_host_enterprise.Quota.{Version, insert_newest, newest_first, drop}

-- The list holds no version newer than the one before it.
abbrev pub Newer : Bytes × Version → Bytes × Version → Type 0
Newer x y = y.1.version_number ≤ x.1.version_number

abbrev pub IsNewestFirst : List (Bytes × Version) → Type 0
IsNewestFirst [] = Unit
IsNewestFirst (x ∷ xs) = All (Newer x) xs × IsNewestFirst xs

insert_newest-All :
    (P : Bytes × Version → Type 0) (x : Bytes × Version) (ys : List (Bytes × Version))
    → P x
    → All P ys
    → All P (insert_newest x ys)
unfolding insert_newest
insert_newest-All P x [] p h = (p, tt)
insert_newest-All P x (y ∷ ys) p h = elim (Bool-cases (leb y.1.version_number x.1.version_number)) [
  | inl c ↦ rw c (p, h)
  | inr c ↦ rw c (h.0, insert_newest-All P x ys p h.1)
]

insert_newest-IsNewestFirst :
    (x : Bytes × Version) (ys : List (Bytes × Version))
    → IsNewestFirst ys
    → IsNewestFirst (insert_newest x ys)
unfolding insert_newest
insert_newest-IsNewestFirst x [] h = (tt, tt)
insert_newest-IsNewestFirst x (y ∷ ys) h =
    elim (Bool-cases (leb y.1.version_number x.1.version_number)) [
      | inl c ↦
          let first = leb→le y.1.version_number x.1.version_number c in
          let others =
            All-map {P = Newer y} {Q = Newer x} ys (λ z q. omega (arith, first, q)) h.0 in
          rw c ((first, others), h)
      | inr c ↦
          let newer : Newer y x = ground (arith, c) in
          rw c (insert_newest-All (Newer y) x ys newer h.0, insert_newest-IsNewestFirst x ys h.1)
    ]

pub newest_first-IsNewestFirst : (xs : List (Bytes × Version)) → IsNewestFirst (newest_first xs)
unfolding newest_first
newest_first-IsNewestFirst [] = tt
newest_first-IsNewestFirst (x ∷ xs) =
    insert_newest-IsNewestFirst x (newest_first xs) (newest_first-IsNewestFirst xs)

insert_newest-IsIn :
    (z x : Bytes × Version) (ys : List (Bytes × Version))
    → IsIn z (insert_newest x ys)
    → (z ≡ x) ⊎ IsIn z ys
unfolding insert_newest
insert_newest-IsIn z x [] h = h
insert_newest-IsIn z x (y ∷ ys) h = elim (Bool-cases (leb y.1.version_number x.1.version_number)) [
  | inl c ↦ rw c at h
  | inr c ↦ elim (rw c at h) [
    | inl e ↦ inr (inl e)
    | inr later ↦ elim (insert_newest-IsIn z x ys later) [ inl e ↦ inl e | inr e ↦ inr (inr e) ]
  ]
]

pub newest_first-IsIn :
    (z : Bytes × Version) (xs : List (Bytes × Version)) → IsIn z (newest_first xs) → IsIn z xs
unfolding newest_first
newest_first-IsIn z [] h = h
newest_first-IsIn z (x ∷ xs) h = elim (insert_newest-IsIn z x (newest_first xs) h) [
  | inl e ↦ inl e
  | inr e ↦ inr (newest_first-IsIn z xs e)
]

pub drop-IsIn :
    (z : Bytes × Version) (n : ℕ) (xs : List (Bytes × Version)) → IsIn z (drop n xs) → IsIn z xs
unfolding drop
drop-IsIn z zero xs h = h
drop-IsIn z (suc n) [] h = h
drop-IsIn z (suc n) (x ∷ xs) h = inr (drop-IsIn z n xs h)

pub select_rows-IsIn :
    (p : Bytes → Version → Bool) (z : Bytes × Version) (m : Map Bytes Version)
    → IsIn z (select_rows p m)
    → IsIn z m × (p z.0 z.1 ≡ true)
unfolding select_rows
select_rows-IsIn p z [] h = absurd h
select_rows-IsIn p z ((k, v) ∷ m) h = elim (Bool-cases (p k v)) [
  | inl c ↦ elim (rw c at h) [
    | inl e ↦ (inl e, subst (λ (x : Bytes × Version). p x.0 x.1 ≡ true) (sym e) c)
    | inr later ↦ let (there, passes) = select_rows-IsIn p z m later in (inr there, passes)
  ]
  | inr c ↦ let (there, passes) = select_rows-IsIn p z m (rw c at h) in (inr there, passes)
]

pub is_member-IsIn :
    (k : Bytes) (xs : List (Bytes × Version))
    → is_member k (map (λ (x : Bytes × Version). x.0) xs) ≡ true
    → (v : Version) × IsIn (k, v) xs
unfolding is_member
is_member-IsIn k [] h = cc
is_member-IsIn k ((j, v) ∷ xs) h = elim (Bool-cases (j == k)) [
  | inl same ↦ (v, inl (ap (λ x. (x, v)) (sym ((==_iff j k).0 same))))
  | inr other ↦ let (w, there) = is_member-IsIn k xs (rw other at h) in (w, inr there)
]
