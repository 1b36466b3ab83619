-- ===== src/Hosts/Parts.antt =====
-- The host part of any site's name is a label.
use simple_host_enterprise.Common.{
  ℕ, zero, suc, ◌/◌, ◌%◌, ◌≤◌, ◌<◌, ◌≡◌, refl, sym, subst, ◌∙◌, Bool, true, false, not, ◌&&◌, [],
  ◌∷◌, ◌++◌, Bytes, All, length, length-append, all, ltb, ◌==◌, ==_iff, ℕ_eq, List_eq, Bool-cases,
  Option-cases, &&-true, inl, inr, arith, false≢true,
}
use simple_host_enterprise.Common.Text.{has_prefix, cut_prefix, cut_prefix-some}
use simple_host_enterprise.Hosts.{
  dash, site_hash_len, is_alphanumeric, is_label_byte, starts_with_dash, ends_with_dash,
  is_valid_label, punycode, write_bytes, trim_dashes, or_whole, trim_xn, take, hex_digit, hex,
  stem_of, site_host_part, site_label,
}
use simple_host_enterprise.Accounts.Base64.{IsByte}
use simple_host_enterprise.Hosts.Stems.{
  is_tidy, tidy-head, tidy-letter, alphanumeric-not_dash, tidy-join, write_bytes-tidy,
  trim_dashes-tidy, trim_dashes-ends, take-tidy,
}

pub has_prefix-true : (p s : Bytes) → has_prefix p s ≡ true → (r : Bytes) × (s ≡ p ++ r)
unfolding has_prefix
has_prefix-true [] s h = (s, refl)
has_prefix-true (c ∷ p) [] h = cc
has_prefix-true (c ∷ p) (d ∷ s) h =
    let (same, rest) = &&-true (c == d) (has_prefix p s) h in
    let (r, e) = has_prefix-true p s rest in (r, rw (sym ((==_iff c d).0 same), e) refl)

tidy-not_punycode : (s : Bytes) → is_tidy true s ≡ true → has_prefix punycode s ≡ false
unfolding is_tidy is_alphanumeric
tidy-not_punycode s h = elim (Bool-cases (has_prefix punycode s)) [
  | inr e ↦ e
  | inl e ↦
      let (r, shape) = has_prefix-true punycode s e in
      absurd (false≢true (subst (λ x. is_tidy true x ≡ true) shape h))
]

-- Tidy, and without a dash at its end.
unfoldable pub IsStem : Bytes → Type 0
IsStem s = (is_tidy true s ≡ true) × (ends_with_dash s ≡ false)

trim_xn-IsStem : (s : Bytes) → IsStem s → IsStem (trim_xn s)
unfolding IsStem trim_xn is_tidy is_alphanumeric ends_with_dash
trim_xn-IsStem s (h, l) = elim (Option-cases (cut_prefix (120 ∷ 110 ∷ 45 ∷ []) s)) [
  | inl e ↦ rw (e, or_whole) (h, l)
  | inr (r, e) ↦
      let shape = cut_prefix-some (120 ∷ 110 ∷ 45 ∷ []) s r e in
      let tidy : is_tidy true (120 ∷ 110 ∷ 45 ∷ r) ≡ true =
        subst (λ x. is_tidy true x ≡ true) shape h in
      let ends : ends_with_dash (120 ∷ 110 ∷ 45 ∷ r) ≡ false =
        subst (λ x. ends_with_dash x ≡ false) shape l in
      rw (e, or_whole)
        (
          tidy,
          elim (Bool-cases (r == [])) [
            | inl c ↦ absurd (false≢true (sym (rw c at ends)))
            | inr c ↦ rw c at ends
          ],
        )
]

length-trim_dashes : (s : Bytes) → length (trim_dashes s) ≤ length s
unfolding trim_dashes
length-trim_dashes [] = omega arith
length-trim_dashes (c ∷ cs) = elim (Bool-cases (c == dash && trim_dashes cs == [])) [
  | inl e ↦ rw e (omega arith)
  | inr e ↦ rw e (omega (arith, length-trim_dashes cs))
]

length-take : (n : ℕ) (s : Bytes) → length (take n s) ≤ n
unfolding take
length-take zero s = omega arith
length-take (suc n) [] = omega arith
length-take (suc n) (c ∷ cs) = omega (arith, length-take n cs)

stem_of-IsStem : (folded : Bytes) → IsStem (stem_of folded) × (length (stem_of folded) ≤ 56)
unfolding stem_of IsStem is_tidy
stem_of-IsStem folded =
    let built = write_bytes-tidy [] folded refl in
    let first : IsStem (trim_dashes (write_bytes [] folded)) = (
      trim_dashes-tidy true (write_bytes [] folded) built,
      trim_dashes-ends (write_bytes [] folded),
    ) in
    let stem = trim_xn (trim_dashes (write_bytes [] folded)) in
    let kept = trim_xn-IsStem (trim_dashes (write_bytes [] folded)) first in
    elim (Bool-cases (ltb 56 (length stem))) [
      | inl long ↦ rw long (
        (
          trim_dashes-tidy true (take 56 stem) (take-tidy 56 true stem kept.0),
          trim_dashes-ends (take 56 stem),
        ),
        omega (arith, length-trim_dashes (take 56 stem), length-take 56 stem),
      )
      | inr short ↦ rw short (kept, ground (arith, short))
    ]

hex_digit-alphanumeric : (n : ℕ) → n < 16 → is_alphanumeric (hex_digit n) ≡ true
unfolding hex_digit is_alphanumeric
hex_digit-alphanumeric n h = ground (arith, h)

hex-alphanumeric : (bs : Bytes) → All IsByte bs → all is_alphanumeric (hex bs) ≡ true
unfolding hex IsByte
hex-alphanumeric [] h = refl
hex-alphanumeric (b ∷ bs) (small, h) =
    let high = hex_digit-alphanumeric (b / 16) (omega arith) in
    let low = hex_digit-alphanumeric (b % 16) (omega arith) in
    rw (high, low, hex-alphanumeric bs h) refl

take-alphanumeric :
    (n : ℕ) (s : Bytes) → all is_alphanumeric s ≡ true → all is_alphanumeric (take n s) ≡ true
unfolding take
take-alphanumeric zero s h = refl
take-alphanumeric (suc n) [] h = refl
take-alphanumeric (suc n) (c ∷ cs) h =
    let (first, rest) = &&-true (is_alphanumeric c) (all is_alphanumeric cs) h in
    rw (first, take-alphanumeric n cs rest) refl

alphanumeric-tidy : (d : Bool) (s : Bytes) → all is_alphanumeric s ≡ true → is_tidy d s ≡ true
unfolding is_tidy
alphanumeric-tidy d [] h = refl
alphanumeric-tidy d (c ∷ cs) h =
    let (first, rest) = &&-true (is_alphanumeric c) (all is_alphanumeric cs) h in
    rw (alphanumeric-not_dash c first, first) (alphanumeric-tidy false cs rest)

alphanumeric-ends : (s : Bytes) → all is_alphanumeric s ≡ true → ends_with_dash s ≡ false
unfolding ends_with_dash
alphanumeric-ends [] h = refl
alphanumeric-ends (c ∷ cs) h =
    let (first, rest) = &&-true (is_alphanumeric c) (all is_alphanumeric cs) h in
    elim (Bool-cases (cs == [])) [
      | inl e ↦ rw e (alphanumeric-not_dash c first)
      | inr e ↦ rw e (alphanumeric-ends cs rest)
    ]

ends-join : (s t : Bytes) → (t == []) ≡ false → ends_with_dash (s ++ dash ∷ t) ≡ ends_with_dash t
unfolding ends_with_dash
ends-join [] t n = rw n refl
ends-join (x ∷ []) t n = ends-join [] t n
ends-join (x ∷ y ∷ ys) t n = ends-join (y ∷ ys) t n

tidy-label_bytes : (d : Bool) (s : Bytes) → is_tidy d s ≡ true → all is_label_byte s ≡ true
unfolding is_label_byte
tidy-label_bytes d [] h = refl
tidy-label_bytes d (c ∷ cs) h = elim (Bool-cases (c == dash)) [
  | inl e ↦
      let rest = tidy-label_bytes true cs (tidy-head d c cs e h).1 in
      elim (Bool-cases (is_alphanumeric c)) [
        | inl a ↦ rw (a, rest) refl
        | inr a ↦ rw (a, e, rest) refl
      ]
  | inr e ↦
      let (letter, tail) = tidy-letter d c cs e h in
      rw (letter, tidy-label_bytes false cs tail) refl
]

tidy-starts : (s : Bytes) → is_tidy true s ≡ true → starts_with_dash s ≡ false
unfolding starts_with_dash
tidy-starts [] h = refl
tidy-starts (c ∷ cs) h = elim (Bool-cases (c == dash)) [
  | inr e ↦ e
  | inl e ↦ absurd (false≢true (sym (tidy-head true c cs e h).0))
]

stem-valid :
    (s : Bytes)
    → IsStem s
    → (s == []) ≡ false
    → length s ≤ 63
    → is_valid_label s && not (has_prefix punycode s) ≡ true
unfolding IsStem is_valid_label
stem-valid s (h, l) there short =
    let fits : ltb 63 (length s) ≡ false = ground (arith, short) in
    rw (there, fits, tidy-starts s h, l, tidy-label_bytes true s h, tidy-not_punycode s h) refl

-- Six hexadecimal digits.
digest-shape :
    (digest : Bytes) → length digest ≡ 32 → (take site_hash_len (hex digest) == []) ≡ false
unfolding take hex
digest-shape [] h = absurd (omega (arith, h))
digest-shape (b ∷ bs) h = refl

join-not_empty : (s t : Bytes) → (s ++ dash ∷ t == []) ≡ false
join-not_empty [] t = refl
join-not_empty (x ∷ xs) t = refl

-- Whatever a site is called, its host part is a valid label that no browser shows as Unicode: a
-- letter, digit or dash throughout, no dash at either end, at most 63 bytes, not starting with "xn--".
-- A SHA-256 has 32 bytes.
pub site_host_part-valid :
    (lower_unicode sha256 : Bytes → Bytes)
    → ((text : Bytes) → All IsByte (sha256 text))
    → ((text : Bytes) → length (sha256 text) ≡ 32)
    → (name : Bytes)
    → (is_valid_label (site_host_part lower_unicode sha256 name)
        && not (has_prefix punycode (site_host_part lower_unicode sha256 name)))
      ≡ true
unfolding site_host_part is_tidy is_alphanumeric IsStem ends_with_dash
site_host_part-valid lower_unicode sha256 bytes size name =
    let folded = site_label lower_unicode name in
    let digest = take site_hash_len (hex (sha256 name)) in
    let letters =
      take-alphanumeric site_hash_len (hex (sha256 name))
        (hex-alphanumeric (sha256 name) (bytes name)) in
    let there = digest-shape (sha256 name) (size name) in
    let short = length-take site_hash_len (hex (sha256 name)) in
    let tidy = alphanumeric-tidy true digest letters in
    let ends = alphanumeric-ends digest letters in
    let ((stem_tidy, stem_ends), stem_short) = stem_of-IsStem folded in
    elim (Bool-cases (is_valid_label folded && not (has_prefix punycode folded))) [
      | inl plain ↦ rw plain plain
      | inr strange ↦ elim (Bool-cases (stem_of folded == [])) [
        | inl empty ↦
            rw (strange, empty)
              (stem-valid (115 ∷ dash ∷ digest)
                (
                  tidy-join true (115 ∷ []) digest refl refl refl tidy,
                  ends-join (115 ∷ []) digest there ∙ ends,
                )
                refl (omega (arith, short)))
        | inr full ↦
            rw (strange, full)
              (stem-valid (stem_of folded ++ dash ∷ digest)
                (
                  tidy-join true (stem_of folded) digest full stem_ends stem_tidy tidy,
                  ends-join (stem_of folded) digest there ∙ ends,
                )
                (join-not_empty (stem_of folded) digest)
                (omega (arith, length-append (stem_of folded) (dash ∷ digest), stem_short, short)))
      ]
    ]
