-- ===== src/Archive/Safety.antt =====
-- What an extraction that succeeds gives, for both formats.
use simple_host_enterprise.Common.{
  ◌≤◌, ◌≡◌, ◌≢◌, refl, sym, ap, ◌∙◌, subst, true, false, Option, none, some, List, [], ◌∷◌, ◌++◌,
  arith, ℕ_eq, List_eq, Bytes, length, sum_by, All, ok, >>=-eq-ok, refuse_if-passed, ok-injective,
  inl, inr,
}
use simple_host_enterprise.Common.Maps.{Map, lookup}
use simple_host_enterprise.SafePath.{split}
use simple_host_enterprise.Archive.Tracker.{PathKind, regular_file, Key}
use simple_host_enterprise.Archive.Tree.{IsDir, IsTree}
use simple_host_enterprise.Archive.Placing.{split-cons, append-snoc}
use simple_host_enterprise.Archive.Entry.{
  Limits, Entry, State, start, is_reserved_assets_path, take_entry,
}
use simple_host_enterprise.Archive.Sound.{size_of, IsSound}
use simple_host_enterprise.Archive.Taking.{take_entry-IsSound, start-IsSound}
use simple_host_enterprise.Archive.Extract.{
  TarStream, tar_entry, tar_end, tar_error, extract_tar, extract_zip, extract_tar_gz,
  extract_zip_archive,
}

-- The files are those of a state that is sound.
abbrev FromSound : Limits → Map Bytes Bytes → Type 0
FromSound limits files = (st : State) × IsSound limits st × (st.files ≡ files)

extract_tar-FromSound :
    (limits : Limits) (stream : TarStream) (st : State) (files : Map Bytes Bytes)
    → IsSound limits st
    → extract_tar limits stream st ≡ ok files
    → FromSound limits files
unfolding extract_tar
extract_tar-FromSound limits (tar_error true) st files s h = cc
extract_tar-FromSound limits (tar_error false) st files s h = cc
extract_tar-FromSound limits (tar_end over drain_fails over_drain) st files s h =
    let (a, h1) = refuse_if-passed over _ _ h in
    let (b, h2) = refuse_if-passed drain_fails _ _ h1 in
    let (c, h3) = refuse_if-passed over_drain _ _ h2 in (st, s, ok-injective h3)
extract_tar-FromSound limits (tar_entry over e rest) st files s h =
    let (a, h1) = refuse_if-passed over _ _ h in
    let (next, taken, h2) = >>=-eq-ok (take_entry limits e st) _ h1 in
    extract_tar-FromSound limits rest next files (take_entry-IsSound limits e st next s taken) h2

extract_zip-FromSound :
    (limits : Limits) (entries : List Entry) (st : State) (files : Map Bytes Bytes)
    → IsSound limits st
    → extract_zip limits entries st ≡ ok files
    → FromSound limits files
unfolding extract_zip
extract_zip-FromSound limits [] st files s h = (st, s, ok-injective h)
extract_zip-FromSound limits (e ∷ rest) st files s h =
    let (next, taken, h1) = >>=-eq-ok (take_entry limits e st) _ h in
    extract_zip-FromSound limits rest next files (take_entry-IsSound limits e st next s taken) h1

-- Either format extracted these files.
pub data Extracts (limits : Limits) (files : Map Bytes Bytes) : Type 0 where
  from_tar : (stream : TarStream) → extract_tar_gz limits stream ≡ ok files → Extracts limits files
  from_zip :
      (entries : List Entry) → extract_zip_archive limits entries ≡ ok files → Extracts limits files

extracted :
    (limits : Limits) (files : Map Bytes Bytes) → Extracts limits files → FromSound limits files
extracted limits files (from_tar stream h) =
    extract_tar-FromSound limits stream (start limits) files (start-IsSound limits) h
extracted limits files (from_zip entries h) =
    extract_zip-FromSound limits entries (start limits) files (start-IsSound limits) h

-- An archive of either format that is extracted stays within its limits, whatever its headers
-- declared: the contents together are at most `total` bytes, each is at most `file` bytes, and there
-- are at most `entries` files.
pub extraction_bounded :
    (limits : Limits) (files : Map Bytes Bytes)
    → Extracts limits files
    → (sum_by size_of files ≤ limits.total)
      × All (λ x. size_of x ≤ limits.file) files
      × (length files ≤ limits.entries)
extraction_bounded limits files h =
    let (st, s, e) = extracted limits files h in
    subst
      (λ fs.
        (sum_by size_of fs ≤ limits.total)
        × All (λ x. size_of x ≤ limits.file) fs
        × (length fs ≤ limits.entries))
      e (omega (arith, s.sums, s.total), s.each, omega (arith, s.number, s.count))

cons≢[] : (part : Bytes) (parts : Key) → (part ∷ parts) ≢ []
cons≢[] part parts h = cc

dir-some : (o : Option PathKind) → IsDir o → (kind : PathKind) × (o ≡ some kind)
dir-some none h = absurd h
dir-some (some kind) h = (kind, refl)

snoc≢[] : (above : Key) (part : Bytes) → (above ++ (part ∷ [])) ≢ []
snoc≢[] [] part h = cc
snoc≢[] (a ∷ above) part h = cc

-- In a tree every ancestor of a path is a directory.
ancestor-IsDir :
    (m : Map Key PathKind) (above : Key) (part : Bytes) (below : Key) (kind : PathKind)
    → IsTree m
    → above ≢ []
    → lookup (above ++ (part ∷ below)) m ≡ some kind
    → IsDir (lookup above m)
ancestor-IsDir m above part [] kind t some_path h = elim (t above part kind h) [
  | inl top ↦ absurd (some_path top)
  | inr dir ↦ dir
]
ancestor-IsDir m above part (next ∷ below) kind t some_path h =
    let nearer =
      ancestor-IsDir m (above ++ (part ∷ [])) next below kind t (snoc≢[] above part)
        (subst (λ k. lookup k m ≡ some kind) (append-snoc above part (next ∷ below)) h) in
    let (dir_kind, there) = dir-some (lookup (above ++ (part ∷ [])) m) nearer in
    elim (t above part dir_kind there) [ inl top ↦ absurd (some_path top) | inr dir ↦ dir ]

split≢[] : (name : Bytes) → split name ≢ []
split≢[] name h = let (part, parts, e) = split-cons name in cons≢[] part parts (sym e ∙ h)

-- The files of an extracted archive fit together: the components of no file's name continue those
-- of another file's, and no name is the reserved path or below it.
pub extraction_consistent :
    (limits : Limits) (files : Map Bytes Bytes) (name other content also : Bytes) (part : Bytes)
    (below : Key)
    → Extracts limits files
    → lookup name files ≡ some content
    → lookup other files ≡ some also
    → (split other ≢ split name ++ (part ∷ below)) × (is_reserved_assets_path name ≡ false)
extraction_consistent limits files name other content also part below h p q =
    let (st, s, e) = extracted limits files h in
    let here = s.registered name content (ap (λ fs. lookup name fs) e ∙ p) in
    let there = s.registered other also (ap (λ fs. lookup other fs) e ∙ q) in
    (
      λ under. subst IsDir here (
          ancestor-IsDir st.paths.entries (split name) part below regular_file s.good.tree
            (split≢[] name)
            (subst (λ k. lookup k st.paths.entries ≡ some regular_file) under there)),
      s.unreserved name content (ap (λ fs. lookup name fs) e ∙ p),
    )
