-- ===== src/Hosts.antt =====
-- internal/handler/host.go: the labels of owners and sites. `strings.ToLower` is written out for ASCII
-- texts; on others it is an argument, `lower_unicode`, as is the SHA-256 of a site's name.
pub mod Normal
pub mod Model
pub mod Stems
pub mod Parts
pub mod Classifying
pub mod Apart
mod Tests
use simple_host_enterprise.Common.{
  ℕ, zero, suc, ◌+◌, ◌-◌, ◌/◌, ◌%◌, Bool, true, false, not, ◌&&◌, ◌||◌, Option, none, some, List,
  [], ◌∷◌, ◌++◌, map, Bytes, codes, length, all, ltb, leb, if◌then◌else◌, ◌==◌, ℕ_eq, List_eq,
}
use simple_host_enterprise.Common.Text.{has_prefix, cut_prefix, lower_byte}

abbrev pub dash : ℕ
dash = 45

abbrev pub dot : ℕ
dot = 46

abbrev pub is_ascii : ℕ → Bool
is_ascii c = ltb c 128

unfoldable pub to_lower : (Bytes → Bytes) → Bytes → Bytes
to_lower lower_unicode s = if all is_ascii s then map lower_byte s else lower_unicode s

-- `strings.ReplaceAll(s, ".", "-")`.
unfoldable pub dashed : Bytes → Bytes
dashed [] = []
dashed (c ∷ cs) = (if c == dot then dash else c) ∷ dashed cs

unfoldable pub owner_label : (Bytes → Bytes) → Bytes → Bytes
owner_label lower_unicode username = dashed (to_lower lower_unicode username)

unfoldable pub site_label : (Bytes → Bytes) → Bytes → Bytes
site_label lower_unicode name = dashed (to_lower lower_unicode name)

unfoldable pub is_alphanumeric : ℕ → Bool
is_alphanumeric c = (leb 97 c && leb c 122) || (leb 48 c && leb c 57)

unfoldable pub is_label_byte : ℕ → Bool
is_label_byte c = is_alphanumeric c || c == dash

unfoldable pub starts_with_dash : Bytes → Bool
starts_with_dash [] = false
starts_with_dash (c ∷ cs) = c == dash

unfoldable pub ends_with_dash : Bytes → Bool
ends_with_dash [] = false
ends_with_dash (c ∷ cs) = if cs == [] then c == dash else ends_with_dash cs

abbrev pub max_label_len : ℕ
max_label_len = 63

abbrev pub max_host_len : ℕ
max_host_len = 253

abbrev pub site_hash_len : ℕ
site_hash_len = 6

unfoldable pub is_valid_label : Bytes → Bool
is_valid_label label =
    not (label == [] || ltb max_label_len (length label))
    && not (starts_with_dash label || ends_with_dash label)
    && all is_label_byte label

abbrev pub punycode : Bytes
punycode = 120 ∷ 110 ∷ 45 ∷ 45 ∷ []

-- One round of the loop that builds the stem.
unfoldable pub write_byte : Bytes → ℕ → Bytes
write_byte built c =
    if is_alphanumeric c
    then built ++ c ∷ []
    else if not (built == []) && not (ends_with_dash built)
    then built ++ dash ∷ []
    else built

unfoldable pub write_bytes : Bytes → Bytes → Bytes
write_bytes built [] = built
write_bytes built (c ∷ cs) = write_bytes (write_byte built c) cs

-- `strings.TrimRight(s, "-")`.
unfoldable pub trim_dashes : Bytes → Bytes
trim_dashes [] = []
trim_dashes (c ∷ cs) = let rest = trim_dashes cs in if c == dash && rest == [] then [] else c ∷ rest

abbrev or_whole : Bytes → Option Bytes → Bytes
or_whole s none = s
or_whole s (some rest) = rest

-- `strings.TrimPrefix(s, "xn-")`.
unfoldable pub trim_xn : Bytes → Bytes
trim_xn s = or_whole s (cut_prefix (120 ∷ 110 ∷ 45 ∷ []) s)

unfoldable pub take : ℕ → Bytes → Bytes
take zero s = []
take (suc n) [] = []
take (suc n) (c ∷ cs) = c ∷ take n cs

unfoldable pub hex_digit : ℕ → ℕ
hex_digit n = if ltb n 10 then n + 48 else n + 87

-- `hex.EncodeToString`.
unfoldable pub hex : Bytes → Bytes
hex [] = []
hex (b ∷ bs) = hex_digit (b / 16) ∷ hex_digit (b % 16) ∷ hex bs

unfoldable pub stem_of : Bytes → Bytes
stem_of folded =
    let stem = trim_xn (trim_dashes (write_bytes [] folded)) in
    let limit = max_label_len - site_hash_len - 1 in
    if ltb limit (length stem) then trim_dashes (take limit stem) else stem

unfoldable pub site_host_part : (Bytes → Bytes) → (Bytes → Bytes) → Bytes → Bytes
site_host_part lower_unicode sha256 name =
    let folded = site_label lower_unicode name in
    let stem = stem_of folded in
    let digest = take site_hash_len (hex (sha256 name)) in
    if is_valid_label folded && not (has_prefix punycode folded)
    then folded
    else if stem == []
    then 115 ∷ dash ∷ digest
    else stem ++ dash ∷ digest
