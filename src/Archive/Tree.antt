-- ===== src/Archive/Tree.antt =====
-- The tracker's map is a tree: what is in it stands at the top or in a directory of the map.
use simple_host_enterprise.Common.{
  ◌≤◌, ◌≡◌, ◌≢◌, ◌⊎◌, refl, sym, ap, subst, Option, none, some, [], ◌∷◌, ◌++◌, arith, ℕ_eq, List_eq,
  ◌==◌, ==_iff, Bytes, length, ok, Bool-cases, inl, inr,
}
use simple_host_enterprise.Common.Maps.{Map, lookup, insert, lookup-insert}
use simple_host_enterprise.Archive.Tracker.{
  PathKind, implicit_dir, explicit_dir, regular_file, Key, Tracker, insert_path,
}

abbrev pub IsDir : Option PathKind → Type 0
IsDir (some implicit_dir) = Unit
IsDir (some explicit_dir) = Unit
IsDir _ = ⊥

-- A path below `above` may stand in the map.
abbrev pub HasParent : Map Key PathKind → Key → Type 0
HasParent m above = (above ≡ []) ⊎ IsDir (lookup above m)

abbrev pub IsTree : Map Key PathKind → Type 0
IsTree m =
    (above : Key) (part : Bytes) (kind : PathKind)
    → lookup (above ++ (part ∷ [])) m ≡ some kind
    → HasParent m above

pub Kind-cases :
    (o : Option PathKind)
    → (o ≡ none) ⊎ (o ≡ some regular_file) ⊎ (o ≡ some implicit_dir) ⊎ (o ≡ some explicit_dir)
Kind-cases none = inl refl
Kind-cases (some regular_file) = inr (inl refl)
Kind-cases (some implicit_dir) = inr (inr (inl refl))
Kind-cases (some explicit_dir) = inr (inr (inr refl))

-- The key is free, or what is put there is a directory.
abbrev Compatible : Map Key PathKind → Key → PathKind → Type 0
Compatible m key kind = (lookup key m ≡ none) ⊎ IsDir (some kind)

IsDir-insert :
    (m : Map Key PathKind) (key q : Key) (kind : PathKind)
    → Compatible m key kind
    → IsDir (lookup q m)
    → IsDir (lookup q (insert key kind m))
IsDir-insert m key q kind c d = elim (Bool-cases (key == q)) [
  | inr other ↦ rw (lookup-insert key q kind m, other) d
  | inl same ↦
      rw (lookup-insert key q kind m, same)
        (elim c [
          | inr k ↦ k
          | inl free ↦
              absurd
                (subst IsDir free (subst (λ x. IsDir (lookup x m)) (sym ((==_iff key q).0 same)) d))
        ])
]

snoc-injective : (a b : Key) (x y : Bytes) → (a ++ (x ∷ [])) ≡ (b ++ (y ∷ [])) → a ≡ b
snoc-injective [] [] x y h = refl
snoc-injective [] (c ∷ []) x y h = absurd (omega (arith, ap (λ (z : Key). length z) h))
snoc-injective [] (c ∷ d ∷ b) x y h = absurd (omega (arith, ap (λ (z : Key). length z) h))
snoc-injective (c ∷ []) [] x y h = absurd (omega (arith, ap (λ (z : Key). length z) h))
snoc-injective (c ∷ d ∷ a) [] x y h = absurd (omega (arith, ap (λ (z : Key). length z) h))
snoc-injective (c ∷ a) (d ∷ b) x y h =
    let tails : (a ++ (x ∷ [])) ≡ (b ++ (y ∷ [])) = cc h in
    let heads : c ≡ d = cc h in cc (heads, snoc-injective a b x y tails)

pub insert-IsTree :
    (m : Map Key PathKind) (above : Key) (part : Bytes) (kind : PathKind)
    → IsTree m
    → HasParent m above
    → Compatible m (above ++ (part ∷ [])) kind
    → IsTree (insert (above ++ (part ∷ [])) kind m)
insert-IsTree m above part kind t p c q d k h =
    elim (Bool-cases ((above ++ (part ∷ [])) == (q ++ (d ∷ [])))) [
      | inl same ↦
          let up =
            snoc-injective above q part d
              ((==_iff (above ++ (part ∷ [])) (q ++ (d ∷ []))).0 same) in
          subst (HasParent (insert (above ++ (part ∷ [])) kind m)) up (elim p [
            | inl top ↦ inl top
            | inr dir ↦ inr (IsDir-insert m (above ++ (part ∷ [])) above kind c dir)
          ])
      | inr other ↦
          elim (t q d k
            (rw (lookup-insert (above ++ (part ∷ [])) (q ++ (d ∷ [])) kind m, other) at h)) [
              | inl top ↦ inl top
              | inr dir ↦ inr (IsDir-insert m (above ++ (part ∷ [])) q kind c dir)
            ]
    ]

-- Files stay where they are.
abbrev pub KeepsFiles : Map Key PathKind → Map Key PathKind → Type 0
KeepsFiles m n = (key : Key) → lookup key m ≡ some regular_file → lookup key n ≡ some regular_file

pub insert-KeepsFiles :
    (m : Map Key PathKind) (key : Key) (kind : PathKind)
    → lookup key m ≢ some regular_file
    → KeepsFiles m (insert key kind m)
insert-KeepsFiles m key kind free q h = elim (Bool-cases (key == q)) [
  | inr other ↦ rw (lookup-insert key q kind m, other) h
  | inl same ↦
      absurd (free (subst (λ x. lookup x m ≡ some regular_file) (sym ((==_iff key q).0 same)) h))
]

pub record IsGood (t : Tracker) : Type 0 where
  pub tree : IsTree t.entries
  pub within : t.metadata_used ≤ t.metadata_limit

pub insert_path-ok :
    (key : Key) (kind : PathKind) (t u : Tracker)
    → insert_path key kind t ≡ ok u
    → (u.entries ≡ insert key kind t.entries) × (u.metadata_used ≤ u.metadata_limit)
unfolding insert_path
insert_path-ok key kind t u h = ground (arith, h)
