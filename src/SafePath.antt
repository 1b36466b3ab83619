-- ===== src/SafePath.antt =====
-- internal/safepath/safepath.go: the lexical check of paths from archives and requests.
pub mod Laws
mod Tests
use simple_host_enterprise.Common.{
  ℕ, zero, suc, ◌+◌, ◌*◌, ◌-◌, Bool, true, false, ◌&&◌, ◌||◌, not, Option, none, some, List, [],
  ◌∷◌, ◌++◌, ℕ_eq, List_eq, ◌==◌, leb, ltb, if◌then◌else◌, Bytes, codes, length, any, all, Result,
  ok, err, ◌>>=◌, ◌>>◌, refuse_if,
}
use simple_host_enterprise.Common.Text.{has_prefix, has_suffix}
use mathlib.Core.List.{reverse}

abbrev pub max_segment_bytes : ℕ
max_segment_bytes = 255

abbrev pub max_relative_path_bytes : ℕ
max_relative_path_bytes = 1024

abbrev pub max_relative_path_depth : ℕ
max_relative_path_depth = 32

pub data SegmentError : Type 0 where
  empty reserved too_long not_utf8 separator control : SegmentError

pub data PathError : Type 0 where
  invalid_encoding exceeds_bytes not_relative control_character directory_suffix empty_path
        not_canonical exceeds_depth :
      PathError
  invalid_component : SegmentError → PathError

-- A continuation byte of UTF-8.
abbrev pub is_continuation : ℕ → Bool
is_continuation c = leb 128 c && ltb c 192

-- The second byte of a sequence of three or four: the ranges that leave out overlong forms, the
-- surrogates and what lies above U+10FFFF.
abbrev pub second_fits : ℕ → ℕ → Bool
second_fits lead c =
    if lead == 224
    then leb 160 c && ltb c 192
    else if lead == 237
    then leb 128 c && ltb c 160
    else if lead == 240
    then leb 144 c && ltb c 192
    else if lead == 244
    then leb 128 c && ltb c 144
    else is_continuation c

-- `utf8.ValidString`, on fuel for the bytes; their number is enough.
unfoldable pub valid_utf8 : ℕ → Bytes → Bool
valid_utf8 n [] = true
valid_utf8 zero (c ∷ s) = false
valid_utf8 (suc n) (c ∷ []) = ltb c 128
valid_utf8 (suc n) (c ∷ d ∷ []) =
    let one = valid_utf8 n (d ∷ []) in
    if ltb c 128 then one else leb 194 c && (ltb c 224 && is_continuation d)
valid_utf8 (suc n) (c ∷ d ∷ e ∷ []) =
    let one = valid_utf8 n (d ∷ e ∷ []) in
    let two = valid_utf8 n (e ∷ []) in
    if ltb c 128
    then one
    else if leb 194 c && ltb c 224
    then is_continuation d && two
    else leb 224 c && (ltb c 240 && (second_fits c d && is_continuation e))
valid_utf8 (suc n) (c ∷ d ∷ e ∷ f ∷ s) =
    let one = valid_utf8 n (d ∷ e ∷ f ∷ s) in
    let two = valid_utf8 n (e ∷ f ∷ s) in
    let three = valid_utf8 n (f ∷ s) in
    let four = valid_utf8 n s in
    if ltb c 128
    then one
    else if leb 194 c && ltb c 224
    then is_continuation d && two
    else if leb 224 c && ltb c 240
    then second_fits c d && (is_continuation e && three)
    else leb 240 c
      && (ltb c 245 && (second_fits c d && (is_continuation e && (is_continuation f && four))))

-- Is a rune of a valid text a control character (`unicode.IsControl`)? U+0000 to U+001F and U+007F
-- are one byte, U+0080 to U+009F are the byte 194 and one below 160.
unfoldable pub has_control : Bytes → Bool
has_control [] = false
has_control (c ∷ []) = ltb c 32 || c == 127
has_control (c ∷ d ∷ s) =
    ltb c 32 || (c == 127 || ((c == 194 && (leb 128 d && ltb d 160)) || has_control (d ∷ s)))

-- `ValidateSegment`.
unfoldable pub validate_segment : Bytes → Result SegmentError (Unit {0})
validate_segment v = do
  refuse_if (v == []) empty
  refuse_if (v == codes "." || v == codes "..") reserved
  refuse_if (ltb max_segment_bytes (length v)) too_long
  refuse_if (not (valid_utf8 (length v) v)) not_utf8
  refuse_if (any (λ c. c == b'/' || c == b'\\') v) separator
  refuse_if (has_control v) control

-- `strings.Split(s, "/")`.
unfoldable pub split : Bytes → List Bytes
split [] = [] ∷ []
split (c ∷ s) = elim (split s) [
  | [] ↦ [] ∷ []
  | part ∷ parts ↦ if c == b'/' then [] ∷ part ∷ parts else (c ∷ part) ∷ parts
]

-- `strings.Join(parts, "/")`.
unfoldable pub join : List Bytes → Bytes
join [] = []
join (part ∷ []) = part
join (part ∷ parts) = part ++ (b'/' ∷ join parts)

-- The components that `path.Clean` keeps, the last one first: "" and "." fall away, ".." takes one
-- away where there is one to take, and falls away at the root.
unfoldable pub clean_parts : Bool → List Bytes → List Bytes → List Bytes
clean_parts rooted kept [] = kept
clean_parts rooted kept (part ∷ parts) =
    clean_parts rooted
      (if part == [] || part == codes "."
        then kept
        else if part == codes ".."
        then elim kept [
          | [] ↦ if rooted then [] else part ∷ []
          | top ∷ below ↦ if top == codes ".." then part ∷ top ∷ below else below
        ]
        else part ∷ kept)
      parts

-- `path.Clean`.
unfoldable pub clean : Bytes → Bytes
clean s =
    let rooted = has_prefix (codes "/") s in
    let body = join (reverse (clean_parts rooted [] (split s))) in
    if rooted then b'/' ∷ body else if body == [] then codes "." else body

-- The loop that takes leading "./" away.
unfoldable pub trim_dots : Bytes → Bytes
trim_dots (c ∷ d ∷ s) = let rest = trim_dots s in if c == b'.' && d == b'/' then rest else c ∷ d ∷ s
trim_dots s = s

-- `strings.TrimSuffix(s, "/")`.
unfoldable pub trim_slash : Bytes → Bytes
trim_slash [] = []
trim_slash (c ∷ []) = if c == b'/' then [] else c ∷ []
trim_slash (c ∷ s) = c ∷ trim_slash s

unfoldable pub validate_all : List Bytes → Result PathError (Unit {0})
validate_all [] = ok tt
validate_all (part ∷ parts) = elim (validate_segment part) [
  | ok _ ↦ validate_all parts
  | err e ↦ err (invalid_component e)
]

-- The tests on a value that is neither empty nor ".".
unfoldable pub check_value : Bytes → Result PathError Bytes
check_value value = do
  refuse_if
      (ltb max_relative_path_bytes (length value)
        || (not (clean value == value) || (value == codes ".." || has_prefix (codes "../") value)))
      not_canonical
  refuse_if (ltb max_relative_path_depth (length (split value))) exceeds_depth
  validate_all (split value)
  ok value

-- An empty value or "." is the root, which is a directory.
unfoldable pub check_relative : Bool → Bytes → Result PathError Bytes
check_relative directory value =
    if value == [] || value == codes "."
    then (if directory then ok (codes ".") else err empty_path)
    else check_value value

-- `CanonicalRelativePath`.
unfoldable pub canonical_relative_path : Bytes → Bool → Result PathError Bytes
canonical_relative_path raw directory = do
  refuse_if (raw == [] || not (valid_utf8 (length raw) raw)) invalid_encoding
  refuse_if (ltb max_relative_path_bytes (length raw)) exceeds_bytes
  refuse_if (any (λ c. c == b'\\') raw || has_prefix (codes "/") raw) not_relative
  refuse_if (has_control raw) control_character
  let dotless = trim_dots raw
  refuse_if (not directory && has_suffix (codes "/") dotless) directory_suffix
  let value = if directory then trim_slash dotless else dotless
  check_relative directory value
