-- ===== src/Hosts/Model.antt =====
-- internal/handler/host.go: HostModel, which classifies the host of a request and builds the hosts and
-- addresses of owners and sites. The standard library's test for an IP literal is an argument, and so
-- are its trimming of space and its lower case where a text is not ASCII.
use simple_host_enterprise.Common.{
  ℕ, ◌+◌, ◌/◌, ◌%◌, Bool, true, not, ◌&&◌, ◌||◌, Option, none, some, [], ◌∷◌, ◌++◌, Bytes, codes,
  length, ltb, leb, if◌then◌else◌, ◌==◌, ℕ_eq, List_eq,
}
use simple_host_enterprise.Common.Text.{has_prefix, contains, cut_byte, trim_suffix}
use simple_host_enterprise.Hosts.{
  dot, owner_label, is_alphanumeric, is_valid_label, punycode, max_host_len, site_host_part,
}
use simple_host_enterprise.Hosts.Normal.{colon, has_byte, normalize_host}

pub data HostKind : Type 0 where
  host_unknown host_base host_owner host_site host_legacy_site : HostKind

pub record HostModel : Type 0 where
  pub base : Bytes
  pub scheme : Bytes
  pub port : Bytes
  pub ready : Option (Bytes → Bool)

unfoldable pub owner_ready : HostModel → Bytes → Bool
owner_ready m label = elim m.ready [ none ↦ true | some ready ↦ ready label ]

abbrev pub label_of : Bytes → Option Bytes → Bytes
label_of h none = h
label_of h (some label) = label

abbrev pub double_dash : Bytes
double_dash = 45 ∷ 45 ∷ []

-- The parts around the first "--".
unfoldable pub split_legacy_site_label : Bytes → Option (Bytes × Bytes)
split_legacy_site_label [] = none
split_legacy_site_label (c ∷ cs) =
    let rest = split_legacy_site_label cs in
    if has_prefix double_dash (c ∷ cs)
    then elim cs [ [] ↦ none | d ∷ ds ↦ some ([], ds) ]
    else elim rest [ none ↦ none | some p ↦ some (c ∷ p.0, p.1) ]

unfoldable pub classify_single : Bytes → Option (Bytes × Bytes) → HostKind × Bytes
classify_single label none = (host_owner, label)
classify_single label (some (owner, site)) =
    if not (is_valid_label owner) || not (is_valid_label site)
    then (host_unknown, [])
    else (host_legacy_site, label)

unfoldable pub classify_parts : Bytes → Option (Bytes × Bytes) → HostKind × Bytes
classify_parts label (some (site_part, owner_part)) =
    if has_byte dot owner_part
      || contains double_dash owner_part
      || not (is_valid_label owner_part)
      || not (is_valid_label site_part)
    then (host_unknown, [])
    else (host_site, label)
classify_parts label none =
    if not (is_valid_label label)
    then (host_unknown, [])
    else classify_single label (split_legacy_site_label label)

unfoldable pub classify_label : Option Bytes → HostKind × Bytes
classify_label none = (host_unknown, [])
classify_label (some label) =
    if has_prefix punycode label
    then (host_unknown, [])
    else classify_parts label (cut_byte dot label)

unfoldable pub classify_normal : HostModel → Bytes → HostKind × Bytes
classify_normal m h =
    if h == [] || m.base == []
    then (host_unknown, [])
    else if h == m.base
    then (host_base, [])
    else classify_label (trim_suffix (dot ∷ m.base) h)

unfoldable pub classify : (Bytes → Bytes) → (Bytes → Bool) → HostModel → Bytes → HostKind × Bytes
classify trim_unicode is_ip m raw = classify_normal m (normalize_host trim_unicode is_ip raw)

unfoldable pub redirect_host : (Bytes → Bytes) → (Bytes → Bool) → HostModel → Bytes → Bytes
redirect_host trim_unicode is_ip m raw =
    let found = classify trim_unicode is_ip m raw in
    elim found.0 [
      | host_unknown ↦ m.base
      | host_base ↦ m.base
      | host_owner ↦ found.1 ++ dot ∷ m.base
      | host_site ↦ found.1 ++ dot ∷ m.base
      | host_legacy_site ↦ found.1 ++ dot ∷ m.base
    ]

unfoldable pub owner_origin : HostModel → Bytes → Bytes
owner_origin m label =
    let authority = label ++ dot ∷ m.base in
    m.scheme ++ codes "://" ++ (if m.port == [] then authority else authority ++ colon ∷ m.port)

unfoldable pub upper_hex : ℕ → ℕ
upper_hex n = if ltb n 10 then n + 48 else n + 55

-- `url.PathEscape`.
unfoldable pub path_byte : ℕ → Bytes
path_byte c =
    if is_alphanumeric c || (leb 65 c && leb c 90) || has_byte c (codes "-_.~$&+:=@")
    then c ∷ []
    else 37 ∷ upper_hex (c / 16) ∷ upper_hex (c % 16) ∷ []

unfoldable pub path_escape : Bytes → Bytes
path_escape [] = []
path_escape (c ∷ cs) = path_byte c ++ path_escape cs

module _ (lower_unicode sha256 : Bytes → Bytes) where
  unfoldable pub owner_host : HostModel → Bytes → Bytes
  owner_host m username = owner_label lower_unicode username ++ dot ∷ m.base

  unfoldable pub is_addressable_owner : Bytes → Bool
  is_addressable_owner username = is_valid_label (owner_label lower_unicode username)

  -- An empty text is no host.
  unfoldable pub site_host : HostModel → Bytes → Bytes → Bytes
  site_host m owner name =
      let host =
        site_host_part lower_unicode sha256 name
        ++ dot ∷ (owner_label lower_unicode owner ++ dot ∷ m.base) in
      if m.base == [] || not (is_addressable_owner owner)
      then []
      else if ltb max_host_len (length host)
      then []
      else host

  unfoldable pub valid_new_site_name : HostModel → Bytes → Bytes → Bool
  valid_new_site_name m owner name =
      is_valid_label name
      && not (has_prefix punycode name)
      && (m.base == [] || not (site_host m owner name == []))

  unfoldable pub owner_page_url : HostModel → Bytes → Bytes
  owner_page_url m username = owner_origin m (owner_label lower_unicode username) ++ codes "/"

  unfoldable pub site_url : HostModel → Bytes → Bytes → Bytes
  site_url m username name =
      let host = site_host m username name in
      let label = owner_label lower_unicode username in
      if host == []
      then []
      else if not (owner_ready m label)
      then owner_origin m label ++ codes "/" ++ path_escape name ++ codes "/"
      else owner_origin m (label_of host (trim_suffix (dot ∷ m.base) host)) ++ codes "/"

  -- `none` is the error that the site has no address.
  unfoldable pub site_host_resolver : HostModel → Bytes → Bytes → Option Bytes
  site_host_resolver m owner site =
      if site_host m owner site == []
      then none
      else if not (owner_ready m (owner_label lower_unicode owner))
      then some (owner_host m owner)
      else some (site_host m owner site)

  unfoldable pub owns_label : HostModel → Bytes → Bytes → Bool
  owns_label m label username = owner_label lower_unicode username == label
