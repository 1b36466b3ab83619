-- ===== src/SafePath/Laws.antt =====
-- What a path that passed `CanonicalRelativePath` is.
use simple_host_enterprise.Common.{
  ◌≤◌, ◌≡◌, ◌≢◌, ◌⊎◌, refl, sym, ◌∙◌, subst, Bool, true, false, ◌&&◌, ◌||◌, not, List, [], ◌∷◌,
  arith, ℕ_eq, List_eq, ◌==◌, ==_iff, ltb, if◌then◌else◌, Bytes, codes, length, any, All, Result,
  ok, err, >>=-eq-ok, refuse_if-passed, ok-injective, Bool-cases, ||-false, inl, inr, false≢true,
}
use simple_host_enterprise.Common.Text.{has_prefix, has_suffix}
use simple_host_enterprise.SafePath.{
  SegmentError, PathError, valid_utf8, has_control, validate_segment, split, clean, trim_dots,
  trim_slash, validate_all, check_value, check_relative, canonical_relative_path,
}

-- One component: a name, neither the directory itself nor the one above, of at most 255 bytes of
-- valid UTF-8, with no separator and no control character.
pub record IsSegment (v : Bytes) : Type 0 where
  pub nonempty : v ≢ []
  pub not_here : v ≢ codes "."
  pub not_above : v ≢ codes ".."
  pub short : length v ≤ 255
  pub utf8 : valid_utf8 (length v) v ≡ true
  pub no_separator : any (λ c. c == b'/' || c == b'\\') v ≡ false
  pub no_control : has_control v ≡ false

validate_segment-to : (v : Bytes) → validate_segment v ≡ ok tt → IsSegment v
unfolding validate_segment
validate_segment-to v h =
    let (a, h1) = refuse_if-passed (v == []) _ _ h in
    let (b, h2) = refuse_if-passed (v == codes "." || v == codes "..") _ _ h1 in
    let (c, h3) = refuse_if-passed (ltb 255 (length v)) _ _ h2 in
    let (d, h4) = refuse_if-passed (not (valid_utf8 (length v) v)) _ _ h3 in
    let (e, h5) = refuse_if-passed (any (λ c. c == b'/' || c == b'\\') v) _ _ h4 in
    let dots = ||-false (v == codes ".") (v == codes "..") b in
    record {
      nonempty = λ p. false≢true (sym a ∙ (==_iff v []).1 p);
      not_here = λ p. false≢true (sym dots.0 ∙ (==_iff v (codes ".")).1 p);
      not_above = λ p. false≢true (sym dots.1 ∙ (==_iff v (codes "..")).1 p);
      short = ground (arith, c);
      utf8 = ground (arith, d);
      no_separator = e;
      no_control = ground (arith, h5);
    }

err≢ok : {e : PathError} → ◌≡◌ {A = Result PathError (Unit {0})} (err e) (ok tt) → ⊥
err≢ok h = cc

path_err≢ok : {e : PathError} {v : Bytes} → ◌≡◌ {A = Result PathError Bytes} (err e) (ok v) → ⊥
path_err≢ok h = cc

result-cases :
    (r : Result SegmentError (Unit {0})) → (r ≡ ok tt) ⊎ ((e : SegmentError) × (r ≡ err e))
result-cases (ok tt) = inl refl
result-cases (err e) = inr (e, refl)

segment-cases :
    (part : Bytes)
    → (validate_segment part ≡ ok tt) ⊎ ((e : SegmentError) × (validate_segment part ≡ err e))
segment-cases part = result-cases (validate_segment part)

validate_all-to : (parts : List Bytes) → validate_all parts ≡ ok tt → All IsSegment parts
unfolding validate_all
validate_all-to [] h = tt
validate_all-to (part ∷ parts) h = elim (segment-cases part) [
  | inl p ↦ (validate_segment-to part p, validate_all-to parts (rw (p, validate_all) at h))
  | inr (e, p) ↦ absurd (err≢ok (rw (p, validate_all) at h))
]

-- A path that is neither refused nor the root.
pub record IsSafe (v : Bytes) : Type 0 where
  pub segments : All IsSegment (split v)
  pub shallow : length (split v) ≤ 32
  pub short : length v ≤ 1024
  pub cleaned : clean v ≡ v
  pub relative : has_prefix (codes "../") v ≡ false

check_value-to : (value v : Bytes) → check_value value ≡ ok v → IsSafe v
unfolding check_value
check_value-to value v h =
    let (a, h1) =
      refuse_if-passed
        (ltb 1024 (length value)
          || (not (clean value == value)
              || (value == codes ".." || has_prefix (codes "../") value)))
        _ _ h in
    let (b, h2) = refuse_if-passed (ltb 32 (length (split value))) _ _ h1 in
    let (unit, c, h3) = >>=-eq-ok (validate_all (split value)) _ h2 in
    let (long, a1) = ||-false (ltb 1024 (length value)) _ a in
    let (unclean, a2) = ||-false (not (clean value == value)) _ a1 in
    let (above, below) = ||-false (value == codes "..") _ a2 in
    subst IsSafe (ok-injective h3) (record {
      segments = validate_all-to (split value) c;
      shallow = ground (arith, b);
      short = ground (arith, long);
      cleaned = (==_iff (clean value) value).0 (ground (arith, unclean));
      relative = below;
    })

check_relative-to :
    (directory : Bool) (value v : Bytes)
    → check_relative directory value ≡ ok v
    → ((directory ≡ true) × (v ≡ codes ".")) ⊎ IsSafe v
unfolding check_relative
check_relative-to directory value v h = elim (Bool-cases (value == [] || value == codes ".")) [
  | inr other ↦ inr (check_value-to value v (rw (other, check_relative) at h))
  | inl root ↦ elim (Bool-cases directory) [
    | inl d ↦ inl (d, sym (ok-injective (rw (d, root, check_relative) at h)))
    | inr d ↦ absurd (path_err≢ok (rw (d, root, check_relative) at h))
  ]
]

-- A path that is accepted is the root, and then it was asked for as a directory, or every one of
-- its at most 32 components is a proper name: none is empty, "." or "..", none is longer than 255
-- bytes, holds a separator or a control character, or is invalid UTF-8; the whole is at most 1024
-- bytes, is its own cleaned form and does not start with "../".
pub canonical_relative_path-IsSafe :
    (raw : Bytes) (directory : Bool) (v : Bytes)
    → canonical_relative_path raw directory ≡ ok v
    → ((directory ≡ true) × (v ≡ codes ".")) ⊎ IsSafe v
unfolding canonical_relative_path
canonical_relative_path-IsSafe raw directory v h =
    let (a, h1) = refuse_if-passed (raw == [] || not (valid_utf8 (length raw) raw)) _ _ h in
    let (b, h2) = refuse_if-passed (ltb 1024 (length raw)) _ _ h1 in
    let (c, h3) =
      refuse_if-passed (any (λ c. c == b'\\') raw || has_prefix (codes "/") raw) _ _ h2 in
    let (d, h4) = refuse_if-passed (has_control raw) _ _ h3 in
    let (e, h5) =
      refuse_if-passed (not directory && has_suffix (codes "/") (trim_dots raw)) _ _ h4 in
    check_relative-to directory (if directory then trim_slash (trim_dots raw) else trim_dots raw) v
      h5
