-- ===== src/Storage/Naming.antt =====
-- The keys that are read back are the keys that are built.
use simple_host_enterprise.Common.{
  ℕ, zero, suc, ◌^◌, ◌≤◌, ◌<◌, ◌≡◌, refl, sym, ap, ◌∙◌, true, false, some, [], ◌∷◌, ◌++◌, Bytes,
  codes, length, length-append, ltb, ◌==◌, ==_iff, ==_self, ℕ_eq, List_eq, Bool-cases, &&-true, inl,
  inr, arith, ok, >>=-eq-ok, ok-injective,
}
use simple_host_enterprise.Common.Text.{cut_prefix, append_assoc, trim_suffix-append}
use simple_host_enterprise.Audit.Numeric.{take, drop, is_number}
use simple_host_enterprise.Storage.Keys.{
  slash, is_uuid, itoa, site_prefix, version_key, asset_key, manifest_name, manifest_key, StoreKey,
  positive, archive_suffix, version_text, cut_version_archive_name, parse_version, parse_asset,
  parse_name, parse_rest, parse_store_key,
}
use simple_host_enterprise.Storage.Decimals.{atoi-itoa, itoa-digits}

-- What a key names. A version of the source is below 2^63.
pub data IsNamed (key : Bytes) : StoreKey → Type 0 where
  of_version :
      (site_id : Bytes) (n : ℕ)
      → version_key site_id n ≡ ok key
      → n < 2 ^ 63
      → IsNamed key (record { site_id = site_id; version = n; is_asset = false })
  of_asset :
      (site_id asset_id : Bytes)
      → asset_key site_id asset_id ≡ ok key
      → IsNamed key (record { site_id = site_id; version = 0; is_asset = true })
  of_manifest :
      (site_id : Bytes)
      → manifest_key site_id ≡ ok key
      → IsNamed key (record { site_id = site_id; version = 0; is_asset = true })

take-front : (n : ℕ) (xs ys : Bytes) → length xs ≡ n → take n (xs ++ ys) ≡ xs
take-front zero [] ys h = refl
take-front zero (x ∷ xs) ys h = absurd (omega (arith, h))
take-front (suc n) [] ys h = absurd (omega (arith, h))
take-front (suc n) (x ∷ xs) ys h = rw (take-front n xs ys (omega (arith, h))) refl

drop-front : (n : ℕ) (xs ys : Bytes) → length xs ≡ n → drop n (xs ++ ys) ≡ ys
drop-front zero [] ys h = refl
drop-front zero (x ∷ xs) ys h = absurd (omega (arith, h))
drop-front (suc n) [] ys h = absurd (omega (arith, h))
drop-front (suc n) (x ∷ xs) ys h = drop-front n xs ys (omega (arith, h))

pub take-drop : (n : ℕ) (xs : Bytes) → take n xs ++ drop n xs ≡ xs
take-drop zero xs = refl
take-drop (suc n) [] = refl
take-drop (suc n) (x ∷ xs) = rw (take-drop n xs) refl

is_uuid-length : (s : Bytes) → is_uuid s ≡ true → length s ≡ 36
unfolding is_uuid
is_uuid-length s h = (==_iff (length s) 36).0 (&&-true (length s == 36) _ h).0

-- The prefix of a site, with what follows it put together.
abbrev pub under : Bytes → Bytes → Bytes
under site_id name = codes "sites/" ++ (site_id ++ slash ∷ name)

pub under-append :
    (site_id name : Bytes)
    → (codes "sites/" ++ (site_id ++ slash ∷ [])) ++ name ≡ under site_id name
under-append site_id name = ap (λ x. codes "sites/" ++ x) (append_assoc site_id (slash ∷ []) name)

site_prefix-ok :
    (site_id p : Bytes)
    → site_prefix site_id ≡ ok p
    → (is_uuid site_id ≡ true) × (codes "sites/" ++ (site_id ++ slash ∷ []) ≡ p)
unfolding site_prefix
site_prefix-ok site_id p h = elim (Bool-cases (is_uuid site_id)) [
  | inl e ↦ (e, ok-injective (rw e at h))
  | inr e ↦ cc (rw e at h)
]

pub site_prefix-built :
    (site_id : Bytes)
    → is_uuid site_id ≡ true
    → site_prefix site_id ≡ ok (codes "sites/" ++ (site_id ++ slash ∷ []))
unfolding site_prefix
site_prefix-built site_id h = rw h refl

-- Behind the site, the name is what is read.
parse_under :
    (site_id name : Bytes)
    → is_uuid site_id ≡ true
    → parse_store_key (under site_id name) ≡ parse_name site_id (slash ∷ name)
unfolding parse_store_key parse_rest cut_prefix
parse_under site_id name h =
    let size = is_uuid-length site_id h in
    let long : ltb (length (site_id ++ slash ∷ name)) 37 ≡ false =
      ground (arith, length-append site_id (slash ∷ name), size) in
    rw
      (
        long,
        take-front 36 site_id (slash ∷ name) size,
        drop-front 36 site_id (slash ∷ name) size,
        h,
      )
      refl

number-length : (s : Bytes) → is_number s ≡ true → 1 ≤ length s
unfolding is_number
number-length [] h = cc
number-length (c ∷ s) h = omega arith

cut_version-itoa :
    (n : ℕ)
    → 1 ≤ n
    → n < 2 ^ 63
    → cut_version_archive_name (codes "v" ++ (itoa n ++ archive_suffix)) ≡ some n
unfolding cut_version_archive_name version_text positive
cut_version-itoa n positive_n small =
    let long : ltb (length (codes "v" ++ (itoa n ++ archive_suffix))) 9 ≡ false =
      ground
        (arith, length-append (itoa n) archive_suffix, number-length (itoa n) (itoa-digits n)) in
    let least : ltb n 1 ≡ false = ground (arith, positive_n) in
    rw (long, trim_suffix-append (codes "tar.gz") (itoa n) 46, atoi-itoa n small, least) refl

parse_name-version :
    (site_id : Bytes) (n : ℕ)
    → 1 ≤ n
    → n < 2 ^ 63
    → parse_name site_id (slash ∷ (codes "v" ++ (itoa n ++ archive_suffix)))
      ≡ some (record { site_id = site_id; version = n; is_asset = false })
unfolding parse_name parse_asset parse_version cut_prefix
parse_name-version site_id n positive_n small =
    let name = codes "v" ++ (itoa n ++ archive_suffix) in
    rw (cut_version-itoa n positive_n small, ==_self name) refl

parse_name-asset :
    (site_id asset_id : Bytes)
    → is_uuid asset_id ≡ true
    → parse_name site_id (slash ∷ (codes "assets/" ++ asset_id))
      ≡ some (record { site_id = site_id; version = 0; is_asset = true })
unfolding parse_name parse_asset cut_prefix
parse_name-asset site_id asset_id h = rw h refl

parse_name-manifest :
    (site_id : Bytes)
    → parse_name site_id (slash ∷ manifest_name)
      ≡ some (record { site_id = site_id; version = 0; is_asset = true })
unfolding parse_name
parse_name-manifest site_id = refl

-- What a key that was built comes from.
version_key-ok :
    (site_id key : Bytes) (n : ℕ)
    → version_key site_id n ≡ ok key
    → (is_uuid site_id ≡ true)
      × (1 ≤ n)
      × (under site_id (codes "v" ++ (itoa n ++ archive_suffix)) ≡ key)
unfolding version_key
version_key-ok site_id key n h =
    let (p, made, rest) = >>=-eq-ok (site_prefix site_id) _ h in
    let (u, same) = site_prefix-ok site_id p made in
    elim (Bool-cases (ltb n 1)) [
      | inl e ↦ cc (rw e at rest)
      | inr e ↦ (
        u,
        ground (arith, e),
        sym (under-append site_id (codes "v" ++ (itoa n ++ archive_suffix)))
            ∙ ap (λ x. x ++ (codes "v" ++ (itoa n ++ archive_suffix))) same
            ∙ ok-injective (rw e at rest),
      )
    ]

asset_key-ok :
    (site_id asset_id key : Bytes)
    → asset_key site_id asset_id ≡ ok key
    → (is_uuid site_id ≡ true)
      × (is_uuid asset_id ≡ true)
      × (under site_id (codes "assets/" ++ asset_id) ≡ key)
unfolding asset_key
asset_key-ok site_id asset_id key h =
    let (p, made, rest) = >>=-eq-ok (site_prefix site_id) _ h in
    let (u, same) = site_prefix-ok site_id p made in
    elim (Bool-cases (is_uuid asset_id)) [
      | inr e ↦ cc (rw e at rest)
      | inl e ↦ (
        u,
        e,
        sym (under-append site_id (codes "assets/" ++ asset_id))
            ∙ ap (λ x. x ++ (codes "assets/" ++ asset_id)) same
            ∙ ok-injective (rw e at rest),
      )
    ]

manifest_key-ok :
    (site_id key : Bytes)
    → manifest_key site_id ≡ ok key
    → (is_uuid site_id ≡ true) × (under site_id manifest_name ≡ key)
unfolding manifest_key
manifest_key-ok site_id key h =
    let (p, made, rest) = >>=-eq-ok (site_prefix site_id) _ h in
    let (u, same) = site_prefix-ok site_id p made in
    (
      u,
      sym (under-append site_id manifest_name)
          ∙ ap (λ x. x ++ manifest_name) same
          ∙ ok-injective rest,
    )

pub named-parsed :
    (key : Bytes) (parsed : StoreKey) → IsNamed key parsed → parse_store_key key ≡ some parsed
named-parsed key _ (of_version site_id n h small) =
    let (u, least, same) = version_key-ok site_id key n h in
    ap parse_store_key (sym same)
    ∙ parse_under site_id _ u
    ∙ parse_name-version site_id n least small
named-parsed key _ (of_asset site_id asset_id h) =
    let (u, a, same) = asset_key-ok site_id asset_id key h in
    ap parse_store_key (sym same) ∙ parse_under site_id _ u ∙ parse_name-asset site_id asset_id a
named-parsed key _ (of_manifest site_id h) =
    let (u, same) = manifest_key-ok site_id key h in
    ap parse_store_key (sym same) ∙ parse_under site_id _ u ∙ parse_name-manifest site_id
