-- ===== src/Archive/Placing.antt =====
-- `archivePathTracker.add` keeps the tree, the budget and the files that are there.
use simple_host_enterprise.Common.{
  ◌≡◌, ◌⊎◌, refl, sym, ap, ◌∙◌, subst, Bool, true, Option, none, some, [], ◌∷◌, ◌++◌, ℕ_eq, List_eq,
  ◌==◌, ==_self, Bytes, Result, ok, err, >>=-eq-ok, ok-injective, Bool-cases, inl, inr,
}
use simple_host_enterprise.Common.Maps.{Map, lookup, insert, lookup-insert}
use simple_host_enterprise.SafePath.{split}
use simple_host_enterprise.Archive.Tracker.{
  ArchiveError, PathKind, implicit_dir, explicit_dir, regular_file, Key, Tracker, insert_path,
  add_ancestor, add_ancestors, add_directory, add_file, add_path,
}
use simple_host_enterprise.Archive.Tree.{
  IsDir, HasParent, IsTree, Kind-cases, insert-IsTree, KeepsFiles, insert-KeepsFiles, IsGood,
  insert_path-ok,
}

lookup-inserted :
    (key : Key) (kind : PathKind) (m : Map Key PathKind)
    → lookup key (insert key kind m) ≡ some kind
lookup-inserted key kind m = rw (lookup-insert key key kind m, ==_self key) refl

some≢none : {A : Type 0} {a : A} → ◌≡◌ {A = Option A} none (some a) → ⊥
some≢none h = cc

-- What a step leaves behind: a good tracker that has the files of the one before.
abbrev pub Kept : Tracker → Tracker → Type 0
Kept t u = IsGood u × KeepsFiles t.entries u.entries

placed :
    (above : Key) (part : Bytes) (kind : PathKind) (t u : Tracker)
    → IsGood t
    → HasParent t.entries above
    → lookup (above ++ (part ∷ [])) t.entries ≡ none
    → insert_path (above ++ (part ∷ [])) kind t ≡ ok u
    → Kept t u × (lookup (above ++ (part ∷ [])) u.entries ≡ some kind)
placed above part kind t u g p free h =
    let (shape, within) = insert_path-ok (above ++ (part ∷ [])) kind t u h in
    (
      (
        record {
          tree =
              subst IsTree (sym shape)
                (insert-IsTree t.entries above part kind g.tree p (inl free));
          within = within;
        },
        subst (KeepsFiles t.entries) (sym shape) (
            insert-KeepsFiles t.entries (above ++ (part ∷ [])) kind
              (λ e. some≢none (sym free ∙ e))),
      ),
      ap (λ (m : Map Key PathKind). lookup (above ++ (part ∷ [])) m) shape
          ∙ lookup-inserted (above ++ (part ∷ [])) kind t.entries,
    )

err≢ok : {e : ArchiveError} {u : Tracker} → ◌≡◌ {A = Result ArchiveError Tracker} (err e) (ok u) → ⊥
err≢ok h = cc

implicit≢file : ◌≡◌ {A = Option PathKind} (some implicit_dir) (some regular_file) → ⊥
implicit≢file h = cc

unchanged :
    (above : Key) (part : Bytes) (t u : Tracker)
    → IsGood t
    → ◌≡◌ {A = Result ArchiveError Tracker} (ok t) (ok u)
    → IsDir (lookup (above ++ (part ∷ [])) t.entries)
    → Kept t u × IsDir (lookup (above ++ (part ∷ [])) u.entries)
unchanged above part t u g h d =
    subst (λ (x : Tracker). Kept t x × IsDir (lookup (above ++ (part ∷ [])) x.entries))
      (ok-injective h) ((g, λ key e. e), d)

add_ancestor-Kept :
    (above : Key) (part : Bytes) (t u : Tracker)
    → IsGood t
    → HasParent t.entries above
    → add_ancestor (above ++ (part ∷ [])) t ≡ ok u
    → Kept t u × IsDir (lookup (above ++ (part ∷ [])) u.entries)
unfolding add_ancestor
add_ancestor-Kept above part t u g p h =
    elim (Kind-cases (lookup (above ++ (part ∷ [])) t.entries)) [
      | inl e ↦
          let (kept, there) =
            placed above part implicit_dir t u g p e (rw (e, add_ancestor) at h) in
          (kept, subst IsDir (sym there) tt)
      | inr (inl e) ↦ absurd (err≢ok (rw (e, add_ancestor) at h))
      | inr (inr (inl e)) ↦
          unchanged above part t u g (rw (e, add_ancestor) at h) (subst IsDir (sym e) tt)
      | inr (inr (inr e)) ↦
          unchanged above part t u g (rw (e, add_ancestor) at h) (subst IsDir (sym e) tt)
    ]

pub append-snoc :
    (above : Key) (part : Bytes) (parts : Key)
    → (above ++ (part ∷ parts)) ≡ ((above ++ (part ∷ [])) ++ parts)
append-snoc [] part parts = refl
append-snoc (x ∷ above) part parts = ap (λ xs. x ∷ xs) (append-snoc above part parts)

Kept-trans : (t u w : Tracker) → Kept t u → Kept u w → Kept t w
Kept-trans t u w (g, k) (h, l) = (h, λ key e. l key (k key e))

-- Where the loop has come to the last component, the path's parent is there.
abbrev pub Ends : Map Key PathKind → Key → Type 0
Ends m key = (a : Key) × (p : Bytes) × (key ≡ a ++ (p ∷ [])) × HasParent m a

add_ancestors-Kept :
    (above : Key) (part : Bytes) (parts : Key) (t u : Tracker)
    → IsGood t
    → HasParent t.entries above
    → add_ancestors above (part ∷ parts) t ≡ ok u
    → Kept t u × Ends u.entries (above ++ (part ∷ parts))
unfolding add_ancestors
add_ancestors-Kept above part [] t u g p h =
    subst (λ (x : Tracker). Kept t x × Ends x.entries (above ++ (part ∷ []))) (ok-injective h)
      ((g, λ key e. e), (above, part, refl, p))
add_ancestors-Kept above part (next ∷ parts) t u g p h =
    let (w, first, rest) = >>=-eq-ok (add_ancestor (above ++ (part ∷ [])) t) _ h in
    let (kept, dir) = add_ancestor-Kept above part t w g p first in
    let (more, ends) =
      add_ancestors-Kept (above ++ (part ∷ [])) next parts w u kept.0 (inr dir) rest in
    (
      Kept-trans t w u kept more,
      subst (Ends u.entries) (sym (append-snoc above part (next ∷ parts))) ends,
    )

add_directory-Kept :
    (key : Key) (t u : Tracker)
    → IsGood t
    → Ends t.entries key
    → add_directory key t ≡ ok u
    → Kept t u
unfolding add_directory
add_directory-Kept key t u g (a, p, shape, parent) h = elim (Kind-cases (lookup key t.entries)) [
  | inl e ↦
      (placed a p explicit_dir t u g parent (subst (λ k. lookup k t.entries ≡ none) shape e)
        (subst (λ k. insert_path k explicit_dir t ≡ ok u) shape (rw (e, add_directory) at h))).0
  | inr (inl e) ↦ absurd (err≢ok (rw (e, add_directory) at h))
  | inr (inr (inl e)) ↦ subst (Kept t) (ok-injective (rw (e, add_directory) at h)) (
    record {
      tree =
          subst (λ k. IsTree (insert k explicit_dir t.entries)) (sym shape)
            (insert-IsTree t.entries a p explicit_dir g.tree parent (inr tt));
      within = g.within;
    },
    insert-KeepsFiles t.entries key explicit_dir (λ f. implicit≢file (sym e ∙ f)),
  )
  | inr (inr (inr e)) ↦ absurd (err≢ok (rw (e, add_directory) at h))
]

add_file-Kept :
    (key : Key) (t u : Tracker)
    → IsGood t
    → Ends t.entries key
    → add_file key t ≡ ok u
    → Kept t u × (lookup key u.entries ≡ some regular_file)
unfolding add_file
add_file-Kept key t u g (a, p, shape, parent) h = elim (Kind-cases (lookup key t.entries)) [
  | inl e ↦
      subst (λ k. Kept t u × (lookup k u.entries ≡ some regular_file)) (sym shape)
        (placed a p regular_file t u g parent (subst (λ k. lookup k t.entries ≡ none) shape e)
          (subst (λ k. insert_path k regular_file t ≡ ok u) shape (rw (e, add_file) at h)))
  | inr (inl e) ↦ absurd (err≢ok (rw (e, add_file) at h))
  | inr (inr (inl e)) ↦ absurd (err≢ok (rw (e, add_file) at h))
  | inr (inr (inr e)) ↦ absurd (err≢ok (rw (e, add_file) at h))
]

pub split-cons : (s : Bytes) → (part : Bytes) × (parts : Key) × (split s ≡ part ∷ parts)
unfolding split
split-cons [] = ([], [], refl)
split-cons (c ∷ s) =
    let (part, parts, e) = split-cons s in
    elim (Bool-cases (c == b'/')) [
      | inl slash ↦ ([], part ∷ parts, rw (e, slash, split) refl)
      | inr other ↦ (c ∷ part, parts, rw (e, other, split) refl)
    ]

-- A path that is added leaves the tracker good, keeps the files, and is there itself.
pub add_path-Kept :
    (name : Bytes) (directory : Bool) (t u : Tracker)
    → IsGood t
    → add_path name directory t ≡ ok u
    → Kept t u × ((directory ≡ true) ⊎ (lookup (split name) u.entries ≡ some regular_file))
unfolding add_path
add_path-Kept name directory t u g h =
    let (part, parts, shape) = split-cons name in
    let (w, ancestors, itself) = >>=-eq-ok (add_ancestors [] (split name) t) _ h in
    let (kept, ends) =
      add_ancestors-Kept [] part parts t w g (inl refl)
        (subst (λ k. add_ancestors [] k t ≡ ok w) shape ancestors) in
    let here = subst (Ends w.entries) (sym shape) ends in
    elim (Bool-cases directory) [
      | inl d ↦ (
        Kept-trans t w u kept (add_directory-Kept (split name) w u kept.0 here (rw d at itself)),
        inl d,
      )
      | inr d ↦
          let (more, there) = add_file-Kept (split name) w u kept.0 here (rw d at itself) in
          (Kept-trans t w u kept more, inr there)
    ]
