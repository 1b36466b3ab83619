-- ===== src/Storage/Keys.antt =====
-- internal/storage/keys.go, and ManifestKey of manifest.go: the names of a site's objects in the bucket.
-- A version is a natural number; a negative one is refused as 0 is.
use simple_host_enterprise.Common.{
  ℕ, zero, suc, ◌+◌, ◌/◌, ◌%◌, Bool, true, false, not, ◌&&◌, ◌||◌, [], ◌∷◌, ◌++◌, Bytes, codes,
  length, ltb, leb, if◌then◌else◌, ◌==◌, ℕ_eq, Result, ok, err, ◌>>=◌, Option, none, some, List_eq,
}
use simple_host_enterprise.Common.Text.{cut_prefix, trim_suffix}
use simple_host_enterprise.Audit.Numeric.{Exponent, plus, minus, atoi, take, drop}

pub data KeyError : Type 0 where
  invalid_site_id : Bytes → KeyError
  invalid_version : ℕ → KeyError
  asset_not_found : KeyError

abbrev pub hyphen : ℕ
hyphen = 45

abbrev pub slash : ℕ
slash = 47

unfoldable pub is_hyphen_place : ℕ → Bool
is_hyphen_place i = i == 8 || i == 13 || i == 18 || i == 23

unfoldable pub is_uuid_byte : ℕ → ℕ → Bool
is_uuid_byte i c =
    if is_hyphen_place i then c == hyphen else (leb 48 c && leb c 57) || (leb 97 c && leb c 102)

-- The loop from the byte at `i` on.
unfoldable pub is_uuid_from : ℕ → Bytes → Bool
is_uuid_from i [] = true
is_uuid_from i (c ∷ cs) = is_uuid_byte i c && is_uuid_from (suc i) cs

unfoldable pub is_uuid : Bytes → Bool
is_uuid value = length value == 36 && is_uuid_from 0 value

-- `strconv.Itoa` of a natural number, in front of `rest`; the number is fuel enough for its digits.
unfoldable pub itoa_from : ℕ → ℕ → Bytes → Bytes
itoa_from zero n rest = (n % 10 + 48) ∷ rest
itoa_from (suc fuel) n rest =
    if ltb n 10 then (n + 48) ∷ rest else itoa_from fuel (n / 10) ((n % 10 + 48) ∷ rest)

unfoldable pub itoa : ℕ → Bytes
itoa n = itoa_from n n []

unfoldable pub site_prefix : Bytes → Result KeyError Bytes
site_prefix site_id =
    if not (is_uuid site_id)
    then err (invalid_site_id site_id)
    else ok (codes "sites/" ++ (site_id ++ slash ∷ []))

unfoldable pub version_key : Bytes → ℕ → Result KeyError Bytes
version_key site_id version = site_prefix site_id >>= λ prefix.
    if ltb version 1
    then err (invalid_version version)
    else ok (prefix ++ (codes "v" ++ (itoa version ++ codes ".tar.gz")))

unfoldable pub asset_key : Bytes → Bytes → Result KeyError Bytes
asset_key site_id asset_id = site_prefix site_id >>= λ prefix.
    if not (is_uuid asset_id)
    then err asset_not_found
    else ok (prefix ++ (codes "assets/" ++ asset_id))

abbrev pub manifest_name : Bytes
manifest_name = codes "manifest.json"

unfoldable pub manifest_key : Bytes → Result KeyError Bytes
manifest_key site_id = site_prefix site_id >>= λ prefix. ok (prefix ++ manifest_name)

-- internal/storage/reencrypt.go and store.go: a key read back, as its site, its version and whether
-- it is an asset or the manifest, which have no version.
pub record StoreKey : Type 0 where
  pub site_id : Bytes
  pub version : ℕ
  pub is_asset : Bool

unfoldable pub positive : Option Exponent → Option ℕ
positive none = none
positive (some (minus n)) = none
positive (some (plus n)) = if ltb n 1 then none else some n

abbrev pub archive_suffix : Bytes
archive_suffix = codes ".tar.gz"

unfoldable pub version_text : Option Bytes → Option ℕ
version_text none = none
version_text (some text) = positive (atoi text)

unfoldable pub cut_version_archive_name : Bytes → Option ℕ
cut_version_archive_name [] = none
cut_version_archive_name (c ∷ cs) =
    if ltb (length (c ∷ cs)) 9 || not (c == 118)
    then none
    else version_text (trim_suffix archive_suffix cs)

unfoldable pub parse_version : Bytes → Bytes → Option ℕ → Option StoreKey
parse_version site_id name none = none
parse_version site_id name (some n) =
    if codes "v" ++ (itoa n ++ archive_suffix) == name
    then some (record { site_id = site_id; version = n; is_asset = false })
    else none

unfoldable pub parse_asset : Bytes → Bytes → Option Bytes → Option StoreKey
parse_asset site_id name (some asset_id) =
    if is_uuid asset_id
    then some (record { site_id = site_id; version = 0; is_asset = true })
    else none
parse_asset site_id name none = parse_version site_id name (cut_version_archive_name name)

unfoldable pub parse_name : Bytes → Bytes → Option StoreKey
parse_name site_id [] = none
parse_name site_id (c ∷ name) =
    if not (c == slash)
    then none
    else if name == manifest_name
    then some (record { site_id = site_id; version = 0; is_asset = true })
    else parse_asset site_id name (cut_prefix (codes "assets/") name)

unfoldable pub parse_rest : Option Bytes → Option StoreKey
parse_rest none = none
parse_rest (some rest) =
    if ltb (length rest) 37 || not (is_uuid (take 36 rest))
    then none
    else parse_name (take 36 rest) (drop 36 rest)

unfoldable pub parse_store_key : Bytes → Option StoreKey
parse_store_key key = parse_rest (cut_prefix (codes "sites/") key)
