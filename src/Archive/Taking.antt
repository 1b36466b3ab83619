-- ===== src/Archive/Taking.antt =====
-- Every entry keeps what holds of the files taken so far.
use simple_host_enterprise.Common.{
  ℕ, suc, ◌+◌, ◌≤◌, ◌≡◌, ◌⊎◌, sym, ◌∙◌, subst, Bool, true, false, some, [], ◌∷◌, ◌++◌, arith, ℕ_eq,
  List_eq, ◌==◌, ==_iff, Eq, ltb, if◌then◌else◌, Bytes, codes, length, ok, >>=-eq-ok,
  refuse_if-passed, ok-injective, Bool-cases, inl, inr, false≢true,
}
use simple_host_enterprise.Common.Maps.{
  Map, lookup, insert, lookup-insert, sum_by-insert, length-insert, insert-All,
}
use simple_host_enterprise.SafePath.{split, canonical_relative_path}
use simple_host_enterprise.Archive.Tracker.{regular_file, Tracker, add_path}
use simple_host_enterprise.Archive.Placing.{Kept, add_path-Kept}
use simple_host_enterprise.Archive.Entry.{
  Limits, Entry, State, start, is_reserved_assets_path, should_skip, is_dir, check_header, named,
  take_placed, take_named, take_entry,
}
use simple_host_enterprise.Archive.Sound.{size_of, IsSound, take_file-ok}

inserted-lookup :
    (P : Bytes → Type 0) (name : Bytes) (content : Bytes) (files : Map Bytes Bytes)
    → P name
    → ((k c : Bytes) → lookup k files ≡ some c → P k)
    → (k c : Bytes) → lookup k (insert name content files) ≡ some c
    → P k
inserted-lookup P name content files p h k c e = elim (Bool-cases (name == k)) [
  | inl same ↦ subst P ((==_iff name k).0 same) p
  | inr other ↦ h k c (rw (lookup-insert name k content files, other) at e)
]

with_content :
    (limits : Limits) (name content : Bytes) (st : State) (skip : Bool)
    → IsSound limits st
    → lookup (split name) st.paths.entries ≡ some regular_file
    → is_reserved_assets_path name ≡ false
    → suc (length st.files) ≤ st.entry_count
    → length content ≤ limits.file
    → st.total_size + length content ≤ limits.total
    → IsSound limits (record st {
      total_size = st.total_size + length content;
      files = if skip then st.files else insert name content st.files;
    })
with_content limits name content st true s there free room small fits = record {
  good = s.good;
  registered = s.registered;
  unreserved = s.unreserved;
  total = fits;
  sums = omega (arith, s.sums);
  each = s.each;
  count = s.count;
  number = s.number;
}
with_content limits name content st false s there free room small fits = record {
  good = s.good;
  registered =
      inserted-lookup (λ k. lookup (split k) st.paths.entries ≡ some regular_file) name content
        st.files there s.registered;
  unreserved =
      inserted-lookup (λ k. is_reserved_assets_path k ≡ false) name content st.files free
        s.unreserved;
  total = fits;
  sums = omega (arith, s.sums, sum_by-insert size_of name content st.files);
  each = insert-All (λ x. size_of x ≤ limits.file) name content st.files small s.each;
  count = s.count;
  number = omega (arith, room, length-insert name content st.files);
}

take_placed-IsSound :
    (limits : Limits) (name : Bytes) (declared : ℕ) (e : Entry) (st u : State)
    → IsSound limits st
    → ((is_dir e.kind ≡ true) ⊎ (lookup (split name) st.paths.entries ≡ some regular_file))
    → is_reserved_assets_path name ≡ false
    → suc (length st.files) ≤ st.entry_count
    → take_placed limits name declared e st ≡ ok u
    → IsSound limits u
unfolding take_placed
take_placed-IsSound limits name declared e st u s place free room h =
    elim (Bool-cases (is_dir e.kind)) [
      | inl d ↦ subst (IsSound limits) (ok-injective (rw (d, take_placed) at h)) s
      | inr d ↦
          let (content, small, fits, shape) =
            take_file-ok limits name declared e.stream st u (rw (d, take_placed) at h) in
          elim place [
            | inl d2 ↦ absurd (false≢true (sym d ∙ d2))
            | inr there ↦ subst (IsSound limits) (sym shape) (
                with_content limits name content st (should_skip name) s there free room small fits)
          ]
    ]

re-placed :
    (limits : Limits) (st : State) (paths : Tracker)
    → IsSound limits st
    → Kept st.paths paths
    → IsSound limits (record st { paths = paths })
re-placed limits st paths s (g, kept) = record {
  good = g;
  registered = λ name content e. kept (split name) (s.registered name content e);
  unreserved = s.unreserved;
  total = s.total;
  sums = s.sums;
  each = s.each;
  count = s.count;
  number = s.number;
}

take_named-IsSound :
    (limits : Limits) (name : Bytes) (declared : ℕ) (e : Entry) (st u : State)
    → IsSound limits st
    → suc (length st.files) ≤ st.entry_count
    → take_named limits name declared e st ≡ ok u
    → IsSound limits u
unfolding take_named
take_named-IsSound limits name declared e st u s room h =
    let (free, h1) = refuse_if-passed (is_reserved_assets_path name) _ _ h in
    let (paths, added, h2) = >>=-eq-ok (add_path name (is_dir e.kind) st.paths) _ h1 in
    let (kept, place) = add_path-Kept name (is_dir e.kind) st.paths paths s.good added in
    take_placed-IsSound limits name declared e (record st { paths = paths }) u
      (re-placed limits st paths s kept) place free room h2

pub take_entry-IsSound :
    (limits : Limits) (e : Entry) (st u : State)
    → IsSound limits st
    → take_entry limits e st ≡ ok u
    → IsSound limits u
unfolding take_entry
take_entry-IsSound limits e st u s h =
    let (room, h1) = refuse_if-passed (ltb limits.entries (st.entry_count + 1)) _ _ h in
    let (declared, header, h2) = >>=-eq-ok (check_header e) _ h1 in
    let (name, canonical, h3) =
      >>=-eq-ok (named (canonical_relative_path e.name (is_dir e.kind))) _ h2 in
    let counted : State = record st { entry_count = st.entry_count + 1 } in
    let sound : IsSound limits counted = record {
      good = s.good;
      registered = s.registered;
      unreserved = s.unreserved;
      total = s.total;
      sums = s.sums;
      each = s.each;
      count = ground (arith, room);
      number = omega (arith, s.number);
    } in
    elim (Bool-cases (name == codes ".")) [
      | inl root ↦ subst (IsSound limits) (ok-injective (rw root at h3)) sound
      | inr other ↦
          take_named-IsSound limits name declared e counted u sound (omega (arith, s.number))
            (rw other at h3)
    ]

lookup-nothing : {K : Type 0} {V : Type 0} ⦃e : Eq K⦄ (k : K) (v : V) → lookup k [] ≡ some v → ⊥
unfolding lookup
lookup-nothing k v h = cc

pub start-IsSound : (limits : Limits) → IsSound limits (start limits)
start-IsSound limits = record {
  good = record {
    tree = λ above part kind h. absurd (lookup-nothing (above ++ (part ∷ [])) kind h);
    within = omega arith;
  };
  registered = λ name content e. absurd (lookup-nothing name content e);
  unreserved = λ name content e. absurd (lookup-nothing name content e);
  total = omega arith;
  sums = omega arith;
  each = tt;
  count = omega arith;
  number = omega arith;
}
