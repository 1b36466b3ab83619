-- ===== src/Hosts/Tests.antt =====
-- Runs of the host model, and the theorems at concrete inputs.
use simple_host_enterprise.Common.{
  ℕ, ◌≡◌, ◌<◌, refl, Bool, true, false, not, ◌&&◌, none, [], ◌∷◌, ◌++◌, Bytes, codes, length, All,
  ℕ_eq, List_eq, arith,
}
use simple_host_enterprise.Common.Text.{
  has_prefix, contains, cut_byte, cut_prefix, lower_byte, trim_suffix,
}
use simple_host_enterprise.Accounts.Base64.{IsByte}
use simple_host_enterprise.Hosts.{
  dot, to_lower, dashed, owner_label, site_label, is_alphanumeric, is_label_byte, starts_with_dash,
  ends_with_dash, is_valid_label, punycode, write_byte, write_bytes, trim_dashes, trim_xn, take,
  hex_digit, hex, stem_of, site_host_part,
}
use simple_host_enterprise.Hosts.Normal.{
  is_space, trim_left, trim_right, trim_space, split_host_port, split_plain, split_bracketed,
  trim_dot, unwrap, drop_port, normalize_host,
}
use simple_host_enterprise.Hosts.Model.{
  HostModel, host_site, host_legacy_site, host_unknown, split_legacy_site_label, classify_single,
  classify_parts, classify_label, classify_normal, classify, is_addressable_owner, site_host,
  valid_new_site_name,
}
use simple_host_enterprise.Hosts.Parts.{site_host_part-valid}
use simple_host_enterprise.Hosts.Classifying.{is_normal_host, is_host_byte, ends_with_dot}
use simple_host_enterprise.Hosts.Apart.{classify-site_host, new_sites_apart}

abbrev lower_other : Bytes → Bytes
lower_other s = s

abbrev trim_other : Bytes → Bytes
trim_other s = s

abbrev no_ip : Bytes → Bool
no_ip s = false

abbrev sum : Bytes → Bytes
sum s =
    171 ∷ 205 ∷ 239 ∷ 1 ∷ 2 ∷ 3 ∷ 4 ∷ 5 ∷ 6 ∷ 7 ∷ 8 ∷ 9 ∷ 10 ∷ 11 ∷ 12 ∷ 13 ∷ 14 ∷ 15 ∷ 16 ∷ 17 ∷ 18
    ∷ 19 ∷ 20 ∷ 21 ∷ 22 ∷ 23 ∷ 24 ∷ 25 ∷ 26 ∷ 27 ∷ 28 ∷ 29 ∷ []

sum-IsByte : (s : Bytes) → All IsByte (sum s)
unfolding IsByte
sum-IsByte s =
    let b : (n : ℕ) → n < 240 → n < 256 = λ n h. omega (arith, h) in
    (
      b 171 (omega arith),
      (
        b 205 (omega arith),
        (
          b 239 (omega arith),
          (
            b 1 (omega arith),
            (
              b 2 (omega arith),
              (
                b 3 (omega arith),
                (
                  b 4 (omega arith),
                  (
                    b 5 (omega arith),
                    (
                      b 6 (omega arith),
                      (
                        b 7 (omega arith),
                        (
                          b 8 (omega arith),
                          (
                            b 9 (omega arith),
                            (
                              b 10 (omega arith),
                              (
                                b 11 (omega arith),
                                (
                                  b 12 (omega arith),
                                  (
                                    b 13 (omega arith),
                                    (
                                      b 14 (omega arith),
                                      (
                                        b 15 (omega arith),
                                        (
                                          b 16 (omega arith),
                                          (
                                            b 17 (omega arith),
                                            (
                                              b 18 (omega arith),
                                              (
                                                b 19 (omega arith),
                                                (
                                                  b 20 (omega arith),
                                                  (
                                                    b 21 (omega arith),
                                                    (
                                                      b 22 (omega arith),
                                                      (
                                                        b 23 (omega arith),
                                                        (
                                                          b 24 (omega arith),
                                                          (
                                                            b 25 (omega arith),
                                                            (
                                                            b 26 (omega arith),
                                                            (
                                                            b 27 (omega arith),
                                                            (
                                                            b 28 (omega arith),
                                                            (b 29 (omega arith), tt),
                                                            ),
                                                            ),
                                                            ),
                                                          ),
                                                        ),
                                                      ),
                                                    ),
                                                  ),
                                                ),
                                              ),
                                            ),
                                          ),
                                        ),
                                      ),
                                    ),
                                  ),
                                ),
                              ),
                            ),
                          ),
                        ),
                      ),
                    ),
                  ),
                ),
              ),
            ),
          ),
        ),
      ),
    )

sum-length : (s : Bytes) → length (sum s) ≡ 32
sum-length s = refl

-- A name that is no label gets its stem and a digest.
strange_part : site_host_part lower_other sum (codes "My Site!") ≡ codes "my-site-abcdef"
unfolding site_host_part site_label to_lower lower_byte dashed is_valid_label starts_with_dash
    ends_with_dash is_label_byte is_alphanumeric stem_of write_bytes write_byte trim_dashes trim_xn
    cut_prefix take hex hex_digit
strange_part = refl

site_host_part-valid_example :
    (is_valid_label (site_host_part lower_other sum (codes "My Site!"))
      && not (has_prefix punycode (site_host_part lower_other sum (codes "My Site!"))))
    ≡ true
site_host_part-valid_example =
    site_host_part-valid lower_other sum sum-IsByte sum-length (codes "My Site!")

abbrev model : HostModel
model = record { base = codes "ex.org"; scheme = codes "https"; port = []; ready = none }

classify-site_host_example :
    classify trim_other no_ip model
      (site_host lower_other sum model (codes "Al.Ice") (codes "blog"))
    ≡ (
      host_site,
      site_host_part lower_other sum (codes "blog")
          ++ dot ∷ owner_label lower_other (codes "Al.Ice"),
    )
unfolding is_normal_host is_host_byte is_label_byte is_alphanumeric ends_with_dot contains
    has_prefix owner_label to_lower lower_byte dashed site_host is_addressable_owner is_valid_label
    starts_with_dash ends_with_dash site_host_part site_label
classify-site_host_example =
    classify-site_host lower_other sum trim_other no_ip sum-IsByte sum-length model (codes "Al.Ice")
      (codes "blog") refl refl refl

new_sites_apart_example :
    (codes "blog" ≡ codes "blog")
    × (owner_label lower_other (codes "Al.Ice") ≡ owner_label lower_other (codes "al-ice"))
unfolding valid_new_site_name has_prefix is_label_byte is_alphanumeric owner_label to_lower
    lower_byte dashed site_host is_addressable_owner is_valid_label starts_with_dash ends_with_dash
    site_host_part site_label
new_sites_apart_example =
    new_sites_apart lower_other sum model (codes "Al.Ice") (codes "blog") (codes "al-ice")
      (codes "blog") refl refl refl refl

-- A legacy host, with a port, in upper case and with a dot at its end.
legacy_classified :
    classify trim_other no_ip model (codes "Al--Blog.ex.org.:443")
    ≡ (host_legacy_site, codes "al--blog")
unfolding classify normalize_host trim_space trim_left trim_right is_space split_host_port
    split_plain drop_port has_prefix cut_byte unwrap trim_dot lower_byte classify_normal trim_suffix
    classify_label classify_parts classify_single split_legacy_site_label is_valid_label
    starts_with_dash ends_with_dash is_label_byte is_alphanumeric
legacy_classified = refl

bracketed_refused : classify trim_other no_ip model (codes "[al.ex.org]:443") ≡ (host_unknown, [])
unfolding classify normalize_host trim_space trim_left trim_right is_space split_host_port
    split_bracketed drop_port has_prefix cut_byte classify_normal
bracketed_refused = refl
