-- ===== src/Hosts/Apart.antt =====
-- internal/handler/host.go: the hosts of sites, classified and compared.
use mathlib.Core.Option.{some-injective}
use simple_host_enterprise.Common.{
  ℕ, ◌≡◌, refl, sym, ap, subst, ◌∙◌, Bool, true, false, not, ◌&&◌, [], ◌∷◌, ◌++◌, Bytes, All,
  length, length-append, all, ltb, ◌==◌, ==_iff, ℕ_eq, List_eq, Bool-cases, &&-true, inl, inr,
  arith, false≢true,
}
use simple_host_enterprise.Common.Text.{
  has_prefix, contains, cut_byte, HasNo, cut_byte-append, append_assoc, trim_suffix-append,
}
use simple_host_enterprise.Hosts.{
  dot, to_lower, owner_label, is_alphanumeric, is_label_byte, is_valid_label, punycode,
  max_host_len, site_host_part,
}
use simple_host_enterprise.Hosts.Model.{
  HostModel, host_site, double_dash, classify_parts, classify_label, classify_normal, classify,
  is_addressable_owner, site_host,
}
use simple_host_enterprise.Accounts.Base64.{IsByte}
use simple_host_enterprise.Hosts.{dashed, site_label}
use simple_host_enterprise.Hosts.Model.{valid_new_site_name}
use simple_host_enterprise.Hosts.Parts.{site_host_part-valid}
use simple_host_enterprise.Hosts.Classifying.{
  is_host_byte, ends_with_dot, is_normal_host, normal-ascii, normal-lower, normalize_host-normal,
  prefix-before_dot, label-facts, label-no_dot, label-host_bytes, ends-behind,
}

behind-there : (xs ys : Bytes) (c : ℕ) → (xs ++ c ∷ ys == []) ≡ false
behind-there [] ys c = refl
behind-there (x ∷ xs) ys c = refl

front-differs : (xs ys : Bytes) (c : ℕ) → (xs ++ c ∷ ys == ys) ≡ false
front-differs xs ys c = elim (Bool-cases (xs ++ c ∷ ys == ys)) [
  | inr e ↦ e
  | inl e ↦
      let same = ap length ((==_iff (xs ++ c ∷ ys) ys).0 e) in
      absurd (omega (arith, same, length-append xs (c ∷ ys)))
]

-- Two labels in front of the base.
two_labels-classified :
    (m : HostModel) (site_part owner_part : Bytes)
    → (m.base == []) ≡ false
    → is_valid_label site_part ≡ true
    → is_valid_label owner_part ≡ true
    → has_prefix punycode site_part ≡ false
    → contains double_dash owner_part ≡ false
    → classify_normal m (site_part ++ dot ∷ (owner_part ++ dot ∷ m.base))
      ≡ (host_site, site_part ++ dot ∷ owner_part)
unfolding classify_normal classify_label classify_parts HasNo
two_labels-classified m site_part owner_part based site_valid owner_valid plain single =
    let (there, dash_free, bytes) = label-facts site_part site_valid in
    let (owner_there, owner_dash, owner_bytes) = label-facts owner_part owner_valid in
    let (undotted, absent) = label-no_dot site_part bytes in
    let (owner_undotted, owner_absent) = label-no_dot owner_part owner_bytes in
    let label = site_part ++ dot ∷ owner_part in
    let shape : label ++ dot ∷ m.base ≡ site_part ++ dot ∷ (owner_part ++ dot ∷ m.base) =
      append_assoc site_part (dot ∷ owner_part) (dot ∷ m.base) in
    let cut = cut_byte-append dot site_part owner_part undotted in
    let punycode_undotted : HasNo dot punycode =
      ((λ e. cc e), ((λ e. cc e), ((λ e. cc e), ((λ e. cc e), tt)))) in
    let prefix = prefix-before_dot punycode site_part owner_part punycode_undotted plain in
    subst (λ h. classify_normal m h ≡ (host_site, label)) shape
      (rw
        (
          behind-there label m.base dot,
          based,
          front-differs label m.base dot,
          trim_suffix-append m.base label dot,
          prefix,
          cut,
          owner_absent,
          single,
          owner_valid,
          site_valid,
        )
        refl)

not-false : (b : Bool) → not b ≡ true → b ≡ false
not-false true h = cc
not-false false h = refl

-- What a site with a host has.
site_host-there :
    (lower_unicode sha256 : Bytes → Bytes) (m : HostModel) (owner name : Bytes)
    → (site_host lower_unicode sha256 m owner name == []) ≡ false
    → ((m.base == []) ≡ false)
      × (is_valid_label (owner_label lower_unicode owner) ≡ true)
      × (site_host lower_unicode sha256 m owner name
          ≡ site_host_part lower_unicode sha256 name
            ++ dot ∷ (owner_label lower_unicode owner ++ dot ∷ m.base))
unfolding site_host is_addressable_owner
site_host-there lower_unicode sha256 m owner name h =
    let host =
      site_host_part lower_unicode sha256 name
      ++ dot ∷ (owner_label lower_unicode owner ++ dot ∷ m.base) in
    elim (Bool-cases (m.base == [])) [
      | inl e ↦ absurd (false≢true (sym (rw e at h)))
      | inr e ↦ elim (Bool-cases (is_valid_label (owner_label lower_unicode owner))) [
        | inr v ↦ absurd (false≢true (sym (rw (e, v) at h)))
        | inl v ↦ elim (Bool-cases (ltb max_host_len (length host))) [
          | inl long ↦ absurd (false≢true (sym (rw (e, v, long) at h)))
          | inr short ↦ rw (e, v, short) (refl, refl, refl)
        ]
      ]
    ]

dashed-same : (s : Bytes) → HasNo dot s → dashed s ≡ s
unfolding dashed HasNo
dashed-same [] h = refl
dashed-same (c ∷ cs) (d, h) =
    let other : (c == dot) ≡ false = ground (arith, d) in rw (other, dashed-same cs h) refl

label-is_host : (s : Bytes) → all is_label_byte s ≡ true → all is_host_byte s ≡ true
unfolding is_host_byte
label-is_host [] h = refl
label-is_host (c ∷ cs) h =
    let (first, rest) = &&-true (is_label_byte c) (all is_label_byte cs) h in
    rw (first, label-is_host cs rest) refl

-- A name that a new site may have is its own host part.
new_name-part :
    (lower_unicode sha256 : Bytes → Bytes) (name : Bytes)
    → is_valid_label name ≡ true
    → has_prefix punycode name ≡ false
    → site_host_part lower_unicode sha256 name ≡ name
unfolding site_host_part site_label to_lower
new_name-part lower_unicode sha256 name valid plain =
    let (there, dash_free, bytes) = label-facts name valid in
    let host = label-is_host name bytes in
    rw
      (
        normal-ascii name host,
        normal-lower name host,
        dashed-same name (label-no_dot name bytes).0,
        valid,
        plain,
      )
      refl

module _ (lower_unicode sha256 trim_unicode : Bytes → Bytes) (is_ip : Bytes → Bool)
    (bytes : (text : Bytes) → All IsByte (sha256 text))
    (size : (text : Bytes) → length (sha256 text) ≡ 32) where
  -- The host that a site is given is classified as a site's, with the site's part and its owner's
  -- label; the base host is in its normal form, and the owner's label has no double dash, which no
  -- new owner's has.
  pub classify-site_host :
      (m : HostModel) (owner name : Bytes)
      → is_normal_host m.base ≡ true
      → contains double_dash (owner_label lower_unicode owner) ≡ false
      → (site_host lower_unicode sha256 m owner name == []) ≡ false
      → classify trim_unicode is_ip m (site_host lower_unicode sha256 m owner name) ≡ (
        host_site,
        site_host_part lower_unicode sha256 name ++ dot ∷ owner_label lower_unicode owner,
      )
  unfolding classify is_normal_host is_host_byte is_label_byte is_alphanumeric
  classify-site_host m owner name normal single h =
      let (based, owner_valid, shape) = site_host-there lower_unicode sha256 m owner name h in
      let part = site_host_part lower_unicode sha256 name in
      let label = owner_label lower_unicode owner in
      let (valid, plain) =
        &&-true (is_valid_label part) (not (has_prefix punycode part))
          (site_host_part-valid lower_unicode sha256 bytes size name) in
      let (base_bytes, base_ends) =
        &&-true (all is_host_byte m.base) (not (ends_with_dot m.base)) normal in
      let (there, dash_free, part_bytes) = label-facts part valid in
      let (owner_there, owner_dash, owner_bytes) = label-facts label owner_valid in
      let host = part ++ dot ∷ (label ++ dot ∷ m.base) in
      let host_bytes =
        label-host_bytes part (dot ∷ (label ++ dot ∷ m.base)) part_bytes
          (label-host_bytes label (dot ∷ m.base) owner_bytes base_bytes) in
      let ends : ends_with_dot host ≡ false =
        ends-behind part (dot ∷ (label ++ dot ∷ m.base)) refl
        ∙ ends-behind (dot ∷ label) (dot ∷ m.base) refl
        ∙ ends-behind (dot ∷ []) m.base based
        ∙ not-false (ends_with_dot m.base) base_ends in
      let normal_host : is_normal_host host ≡ true = rw (host_bytes, ends) refl in
      rw
        (
          shape,
          normalize_host-normal trim_unicode is_ip host
              (behind-there part (label ++ dot ∷ m.base) dot) normal_host,
        )
        (two_labels-classified m part label based valid owner_valid
          (not-false (has_prefix punycode part) plain) single)

-- No two new sites are given one host, up to the owner's label: under a base host, sites with names
-- that new sites may have, and whose own hosts are the same, have one name, and owners of one label.
pub new_sites_apart :
    (lower_unicode sha256 : Bytes → Bytes) (m : HostModel)
    (owner name other_owner other_name : Bytes)
    → (m.base == []) ≡ false
    → valid_new_site_name lower_unicode sha256 m owner name ≡ true
    → valid_new_site_name lower_unicode sha256 m other_owner other_name ≡ true
    → site_host lower_unicode sha256 m owner name
      ≡ site_host lower_unicode sha256 m other_owner other_name
    → (name ≡ other_name)
      × (owner_label lower_unicode owner ≡ owner_label lower_unicode other_owner)
unfolding valid_new_site_name
new_sites_apart lower_unicode sha256 m owner name other_owner other_name based first second same =
    let (names1, addressed1) =
      &&-true (is_valid_label name && not (has_prefix punycode name)) _ first in
    let (names2, addressed2) =
      &&-true (is_valid_label other_name && not (has_prefix punycode other_name)) _ second in
    let (valid1, plain1) = &&-true (is_valid_label name) _ names1 in
    let (valid2, plain2) = &&-true (is_valid_label other_name) _ names2 in
    let there1 =
      not-false (site_host lower_unicode sha256 m owner name == []) (rw based at addressed1) in
    let there2 =
      not-false (site_host lower_unicode sha256 m other_owner other_name == [])
        (rw based at addressed2) in
    let (b1, v1, shape1) = site_host-there lower_unicode sha256 m owner name there1 in
    let (b2, v2, shape2) = site_host-there lower_unicode sha256 m other_owner other_name there2 in
    let part1 =
      new_name-part lower_unicode sha256 name valid1
        (not-false (has_prefix punycode name) plain1) in
    let part2 =
      new_name-part lower_unicode sha256 other_name valid2
        (not-false (has_prefix punycode other_name) plain2) in
    let label1 = owner_label lower_unicode owner in
    let label2 = owner_label lower_unicode other_owner in
    let host1 : site_host lower_unicode sha256 m owner name
        ≡ name ++ dot ∷ (label1 ++ dot ∷ m.base) =
      shape1 ∙ ap (λ x. x ++ dot ∷ (label1 ++ dot ∷ m.base)) part1 in
    let host2 : site_host lower_unicode sha256 m other_owner other_name
        ≡ other_name ++ dot ∷ (label2 ++ dot ∷ m.base) =
      shape2 ∙ ap (λ x. x ++ dot ∷ (label2 ++ dot ∷ m.base)) part2 in
    let hosts : name ++ dot ∷ (label1 ++ dot ∷ m.base)
        ≡ other_name ++ dot ∷ (label2 ++ dot ∷ m.base) =
      sym host1 ∙ same ∙ host2 in
    let undotted1 = (label-no_dot name (label-facts name valid1).2).0 in
    let undotted2 = (label-no_dot other_name (label-facts other_name valid2).2).0 in
    let cuts : (name, label1 ++ dot ∷ m.base) ≡ (other_name, label2 ++ dot ∷ m.base) =
      some-injective (name, label1 ++ dot ∷ m.base) (other_name, label2 ++ dot ∷ m.base)
        (sym (cut_byte-append dot name (label1 ++ dot ∷ m.base) undotted1)
          ∙ ap (cut_byte dot) hosts
          ∙ cut_byte-append dot other_name (label2 ++ dot ∷ m.base) undotted2) in
    let rest : label1 ++ dot ∷ m.base ≡ label2 ++ dot ∷ m.base =
      ap (λ (x : Bytes × Bytes). x.1) cuts in
    let no_dot1 = (label-no_dot label1 (label-facts label1 v1).2).0 in
    let no_dot2 = (label-no_dot label2 (label-facts label2 v2).2).0 in
    let owners : (label1, m.base) ≡ (label2, m.base) =
      some-injective (label1, m.base) (label2, m.base)
        (sym (cut_byte-append dot label1 m.base no_dot1)
          ∙ ap (cut_byte dot) rest
          ∙ cut_byte-append dot label2 m.base no_dot2) in
    (ap (λ (x : Bytes × Bytes). x.0) cuts, ap (λ (x : Bytes × Bytes). x.0) owners)
