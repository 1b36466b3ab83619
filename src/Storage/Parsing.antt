-- ===== src/Storage/Parsing.antt =====
-- The keys that parseStoreKey of internal/storage/reencrypt.go takes are those that keys.go builds.
use mathlib.Core.Option.{some-injective}
use simple_host_enterprise.Common.{
  ℕ, ◌^◌, ◌≤◌, ◌<◌, ◌≡◌, ◌↔◌, refl, sym, ap, ◌∙◌, subst, Bool, true, false, not, ◌&&◌, ◌||◌, Option,
  none, some, [], ◌∷◌, ◌++◌, Bytes, codes, length, ltb, leb, if◌then◌else◌, ◌==◌, ==_iff, ℕ_eq,
  List_eq, Bool-cases, Option-cases, &&-true, ||-false, inl, inr, arith, ok,
}
use simple_host_enterprise.Common.Text.{cut_prefix, cut_prefix-some, trim_suffix}
use simple_host_enterprise.Audit.Numeric.{
  Exponent, plus, minus, atoi, take, drop, digits_value, is_number,
}
use simple_host_enterprise.Storage.Keys.{
  slash, is_uuid, itoa, version_key, asset_key, manifest_name, manifest_key, StoreKey, positive,
  archive_suffix, version_text, cut_version_archive_name, parse_version, parse_asset, parse_name,
  parse_rest, parse_store_key,
}
use simple_host_enterprise.Storage.Naming.{
  IsNamed, of_version, of_asset, of_manifest, take-drop, under, under-append, site_prefix-built,
  named-parsed,
}

version_key-built :
    (site_id : Bytes) (n : ℕ)
    → is_uuid site_id ≡ true
    → 1 ≤ n
    → version_key site_id n ≡ ok (under site_id (codes "v" ++ (itoa n ++ archive_suffix)))
unfolding version_key
version_key-built site_id n u least =
    let enough : ltb n 1 ≡ false = ground (arith, least) in
    rw (site_prefix-built site_id u, enough)
      (ap ok (under-append site_id (codes "v" ++ (itoa n ++ archive_suffix))))

asset_key-built :
    (site_id asset_id : Bytes)
    → is_uuid site_id ≡ true
    → is_uuid asset_id ≡ true
    → asset_key site_id asset_id ≡ ok (under site_id (codes "assets/" ++ asset_id))
unfolding asset_key
asset_key-built site_id asset_id u a =
    rw (site_prefix-built site_id u, a) (ap ok (under-append site_id (codes "assets/" ++ asset_id)))

manifest_key-built :
    (site_id : Bytes)
    → is_uuid site_id ≡ true
    → manifest_key site_id ≡ ok (under site_id manifest_name)
unfolding manifest_key
manifest_key-built site_id u =
    rw (site_prefix-built site_id u) (ap ok (under-append site_id manifest_name))

-- A number that was tested to be in range.
tested-small :
    (number : Bool) (m n : ℕ)
    → (if number && ltb m (2 ^ 63) then some (plus m) else none) ≡ some (plus n)
    → n < 2 ^ 63
tested-small number m n h = elim (Bool-cases (number && ltb m (2 ^ 63))) [
  | inr e ↦ cc (rw e at h)
  | inl e ↦
      let small : m < 2 ^ 63 = ground (arith, (&&-true number (ltb m (2 ^ 63)) e).1) in
      let same : m ≡ n = cc (some-injective (plus m) (plus n) (rw e at h)) in
      subst (λ x. x < 2 ^ 63) same small
]

-- `strconv.Atoi` gives no number out of range.
atoi-small : (s : Bytes) (n : ℕ) → atoi s ≡ some (plus n) → n < 2 ^ 63
unfolding atoi
atoi-small [] n h = cc
atoi-small (c ∷ s) n h = elim (Bool-cases (c == b'-')) [
  | inl e ↦ elim (Bool-cases (is_number s && leb (digits_value 0 s) (2 ^ 63))) [
    | inl t ↦ cc (rw (e, t) at h)
    | inr t ↦ cc (rw (e, t) at h)
  ]
  | inr e ↦ elim (Bool-cases (c == b'+')) [
    | inl p ↦ tested-small (is_number s) (digits_value 0 s) n (rw (e, p) at h)
    | inr p ↦ tested-small (is_number (c ∷ s)) (digits_value 0 (c ∷ s)) n (rw (e, p) at h)
  ]
]

positive-some : (o : Option Exponent) (n : ℕ) → positive o ≡ some n → (o ≡ some (plus n)) × (1 ≤ n)
unfolding positive
positive-some none n h = cc
positive-some (some (minus m)) n h = cc
positive-some (some (plus m)) n h = elim (Bool-cases (ltb m 1)) [
  | inl e ↦ cc (rw e at h)
  | inr e ↦
      let same = some-injective m n (rw e at h) in
      (ap (λ x. some (plus x)) same, subst (λ x. 1 ≤ x) same (ground (arith, e)))
]

cut_version-small :
    (name : Bytes) (n : ℕ) → cut_version_archive_name name ≡ some n → (1 ≤ n) × (n < 2 ^ 63)
unfolding cut_version_archive_name version_text
cut_version-small [] n h = cc
cut_version-small (c ∷ cs) n h = elim (Bool-cases (ltb (length (c ∷ cs)) 9 || not (c == 118))) [
  | inl e ↦ cc (rw e at h)
  | inr e ↦ elim (Option-cases (trim_suffix archive_suffix cs)) [
    | inl gone ↦ cc (rw (e, gone) at h)
    | inr (text, found) ↦
        let (read, least) = positive-some (atoi text) n (rw (e, found) at h) in
        (least, atoi-small text n read)
  ]
]

version-IsNamed :
    (site_id name : Bytes) (parsed : StoreKey) (o : Option ℕ)
    → is_uuid site_id ≡ true
    → ((n : ℕ) → o ≡ some n → (1 ≤ n) × (n < 2 ^ 63))
    → parse_version site_id name o ≡ some parsed
    → IsNamed (under site_id name) parsed
unfolding parse_version
version-IsNamed site_id name parsed none u small h = cc
version-IsNamed site_id name parsed (some n) u small h =
    let text = codes "v" ++ (itoa n ++ archive_suffix) in
    elim (Bool-cases (text == name)) [
      | inr e ↦ cc (rw e at h)
      | inl e ↦
          let same = (==_iff text name).0 e in
          let key = version_key-built site_id n u (small n refl).0 in
          subst (IsNamed (under site_id name)) (some-injective _ parsed (rw e at h))
            (of_version site_id n (key ∙ ap (λ x. ok (under site_id x)) same) (small n refl).1)
    ]

asset-IsNamed :
    (site_id name : Bytes) (parsed : StoreKey) (o : Option Bytes)
    → is_uuid site_id ≡ true
    → cut_prefix (codes "assets/") name ≡ o
    → parse_asset site_id name o ≡ some parsed
    → IsNamed (under site_id name) parsed
unfolding parse_asset
asset-IsNamed site_id name parsed none u cut h =
    version-IsNamed site_id name parsed (cut_version_archive_name name) u (cut_version-small name) h
asset-IsNamed site_id name parsed (some asset_id) u cut h = elim (Bool-cases (is_uuid asset_id)) [
  | inr e ↦ cc (rw e at h)
  | inl e ↦
      let same = sym (cut_prefix-some (codes "assets/") name asset_id cut) in
      subst (IsNamed (under site_id name)) (some-injective _ parsed (rw e at h)) (
        of_asset site_id asset_id
          (asset_key-built site_id asset_id u e ∙ ap (λ x. ok (under site_id x)) same))
]

name-IsNamed :
    (site_id name : Bytes) (parsed : StoreKey)
    → is_uuid site_id ≡ true
    → parse_name site_id name ≡ some parsed
    → IsNamed (codes "sites/" ++ (site_id ++ name)) parsed
unfolding parse_name
name-IsNamed site_id [] parsed u h = cc
name-IsNamed site_id (c ∷ name) parsed u h = elim (Bool-cases (c == slash)) [
  | inr e ↦ cc (rw e at h)
  | inl e ↦
      subst (λ x. IsNamed (codes "sites/" ++ (site_id ++ x ∷ name)) parsed)
        (sym ((==_iff c slash).0 e))
        (elim (Bool-cases (name == manifest_name)) [
          | inl m ↦
              let same = sym ((==_iff name manifest_name).0 m) in
              subst (IsNamed (under site_id name)) (some-injective _ parsed (rw (e, m) at h)) (
                of_manifest site_id
                  (manifest_key-built site_id u ∙ ap (λ x. ok (under site_id x)) same))
          | inr m ↦
              asset-IsNamed site_id name parsed (cut_prefix (codes "assets/") name) u refl
                (rw (e, m) at h)
        ])
]

parsed-IsNamed :
    (key : Bytes) (parsed : StoreKey) → parse_store_key key ≡ some parsed → IsNamed key parsed
unfolding parse_store_key parse_rest
parsed-IsNamed key parsed h = elim (Option-cases (cut_prefix (codes "sites/") key)) [
  | inl e ↦ cc (rw e at h)
  | inr (rest, e) ↦ elim (Bool-cases (ltb (length rest) 37 || not (is_uuid (take 36 rest)))) [
    | inl bad ↦ cc (rw (e, bad) at h)
    | inr good ↦
        let u : is_uuid (take 36 rest) ≡ true =
          ground (arith, (||-false (ltb (length rest) 37) (not (is_uuid (take 36 rest))) good).1) in
        let named = name-IsNamed (take 36 rest) (drop 36 rest) parsed u (rw (e, good) at h) in
        subst (λ x. IsNamed x parsed)
          (ap (λ x. codes "sites/" ++ x) (take-drop 36 rest)
            ∙ sym (cut_prefix-some (codes "sites/") key rest e))
          named
  ]
]

-- A key is read as a site, a version and a kind exactly when the functions that build keys give that
-- key for it: a version's archive with a version below 2^63, an asset or the site's manifest.
pub parse_store_key_iff :
    (key : Bytes) (parsed : StoreKey) → (parse_store_key key ≡ some parsed) ↔ IsNamed key parsed
parse_store_key_iff key parsed = (parsed-IsNamed key parsed, named-parsed key parsed)
