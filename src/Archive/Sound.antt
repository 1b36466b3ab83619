-- ===== src/Archive/Sound.antt =====
-- What holds of the files taken so far, and that every entry keeps it.
use simple_host_enterprise.Common.{
  ℕ, ◌+◌, ◌≤◌, ◌≡◌, sym, false, some, arith, ℕ_eq, List_eq, if◌then◌else◌, Bytes, length, sum_by,
  All, ok, >>=-eq-ok, refuse_if-passed, ok-injective,
}
use simple_host_enterprise.Common.Maps.{lookup, insert}
use simple_host_enterprise.SafePath.{split}
use simple_host_enterprise.Archive.Tracker.{regular_file}
use simple_host_enterprise.Archive.Tree.{IsGood}
use simple_host_enterprise.Archive.Entry.{
  Limits, Stream, State, is_reserved_assets_path, should_skip, compute_read_limit,
  check_declared_size, read_file_content, take_file,
}

abbrev pub size_of : Bytes × Bytes → ℕ
size_of (name, content) = length content

pub record IsSound (limits : Limits) (st : State) : Type 0 where
  pub good : IsGood st.paths
  pub registered :
      (name content : Bytes)
      → lookup name st.files ≡ some content
      → lookup (split name) st.paths.entries ≡ some regular_file
  pub unreserved :
      (name content : Bytes)
      → lookup name st.files ≡ some content
      → is_reserved_assets_path name ≡ false
  pub total : st.total_size ≤ limits.total
  pub sums : sum_by size_of st.files ≤ st.total_size
  pub each : All (λ x. size_of x ≤ limits.file) st.files
  pub count : st.entry_count ≤ limits.entries
  pub number : length st.files ≤ st.entry_count

compute_read_limit-ok :
    (n r : ℕ) (limits : Limits)
    → compute_read_limit n limits ≡ ok r
    → (r ≤ limits.file) × (n + r ≤ limits.total)
unfolding compute_read_limit
compute_read_limit-ok n r limits h = ground (arith, h)

check_declared_size-ok : (n r w : ℕ) → check_declared_size n r ≡ ok w → w ≤ r
unfolding check_declared_size
check_declared_size-ok n r w h = ground (arith, h)

read_file_content-ok :
    (s : Stream) (w : ℕ) (c : Bytes) → read_file_content s w ≡ ok c → length c ≡ w
unfolding read_file_content
read_file_content-ok s w c h = ground (arith, h)

-- The content that was read fits both limits; the rest of the state is as it was.
pub take_file-ok :
    (limits : Limits) (name : Bytes) (declared : ℕ) (s : Stream) (st u : State)
    → take_file limits name declared s st ≡ ok u
    → (content : Bytes) × (length content ≤ limits.file)
      × (st.total_size + length content ≤ limits.total)
      × (u ≡ record st {
        total_size = st.total_size + length content;
        files = if should_skip name then st.files else insert name content st.files;
      })
unfolding take_file
take_file-ok limits name declared s st u h =
    let (r, r_ok, h1) = >>=-eq-ok (compute_read_limit st.total_size limits) _ h in
    let (w, w_ok, h2) = >>=-eq-ok (check_declared_size declared r) _ h1 in
    let (under, h3) = refuse_if-passed s.over_limit _ _ h2 in
    let (c, c_ok, h4) = >>=-eq-ok (read_file_content s w) _ h3 in
    let (closed, h5) = refuse_if-passed s.close_fails _ _ h4 in
    let (in_file, in_total) = compute_read_limit-ok st.total_size r limits r_ok in
    let w_le = check_declared_size-ok declared r w w_ok in
    let len = read_file_content-ok s w c c_ok in
    (
      c,
      omega (arith, in_file, w_le, len),
      omega (arith, in_total, w_le, len),
      sym (ok-injective h5),
    )
