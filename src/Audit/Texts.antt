-- ===== src/Audit/Texts.antt =====
-- internal/audit/canonical.go: a JSON text that is written, read back.
use mathlib.Core.Option.{some-injective}
use simple_host_enterprise.Common.{
  ℕ, ◌+◌, ◌-◌, ◌*◌, ◌/◌, ◌%◌, ◌<◌, ◌≡◌, refl, sym, ap, ◌∙◌, subst, Option, none, some, [], ◌∷◌,
  ◌++◌, ℕ_eq, List_eq, ◌==◌, ==_iff, Bool-cases, inl, inr, ltb, if◌then◌else◌, Bytes, arith,
}
use simple_host_enterprise.Common.Text.{append_assoc}
use simple_host_enterprise.Common.Unique.{some≢none}
use simple_host_enterprise.Audit.Json.{hex_digit, escape_byte, escape, write_text}

abbrev hex_value : ℕ → ℕ
hex_value c = if ltb c b'a' then c - b'0' else c - b'a' + 10

-- Behind a backslash.
read_escaped : Bytes → Option (ℕ × Bytes)
read_escaped [] = none
read_escaped (c ∷ s) =
    if c == b'b'
    then some (8, s)
    else if c == b'f'
    then some (12, s)
    else if c == b'n'
    then some (10, s)
    else if c == b'r'
    then some (13, s)
    else if c == b't'
    then some (9, s)
    else if c == b'u'
    then elim s [
      | [] ↦ none
      | a ∷ s1 ↦ elim s1 [
        | [] ↦ none
        | b ∷ s2 ↦ elim s2 [
          | [] ↦ none
          | h ∷ s3 ↦ elim s3 [ [] ↦ none | l ∷ s4 ↦ some (16 * hex_value h + hex_value l, s4) ]
        ]
      ]
    ]
    else some (c, s)

-- One byte of a text; `none` at the quote that ends it.
read_byte : Bytes → Option (ℕ × Bytes)
unfolding read_escaped
read_byte [] = none
read_byte (c ∷ s) = if c == b'"' then none else if c == b'\\' then read_escaped s else some (c, s)

hex-value :
    (c : ℕ) → c < 32 → 16 * hex_value (hex_digit (c / 16)) + hex_value (hex_digit (c % 16)) ≡ c
hex-value c h = ground (arith, h)

read-escape : (c : ℕ) (x : Bytes) → read_byte (escape_byte c ++ x) ≡ some (c, x)
unfolding read_byte read_escaped escape_byte
read-escape c x =
    let at_literal : (n : ℕ)
        → c ≡ n
        → read_byte (escape_byte n ++ x) ≡ some (n, x)
        → read_byte (escape_byte c ++ x) ≡ some (c, x) =
      λ n e h. subst (λ m. read_byte (escape_byte m ++ x) ≡ some (m, x)) (sym e) h in
    elim (Bool-cases (c == 8)) [
      | inl e ↦ at_literal 8 ((==_iff c 8).0 e) refl
      | inr n0 ↦ elim (Bool-cases (c == 12)) [
        | inl e ↦ at_literal 12 ((==_iff c 12).0 e) refl
        | inr n1 ↦ elim (Bool-cases (c == 10)) [
          | inl e ↦ at_literal 10 ((==_iff c 10).0 e) refl
          | inr n2 ↦ elim (Bool-cases (c == 13)) [
            | inl e ↦ at_literal 13 ((==_iff c 13).0 e) refl
            | inr n3 ↦ elim (Bool-cases (c == 9)) [
              | inl e ↦ at_literal 9 ((==_iff c 9).0 e) refl
              | inr n4 ↦ elim (Bool-cases (c == 34)) [
                | inl e ↦ at_literal 34 ((==_iff c 34).0 e) refl
                | inr n5 ↦ elim (Bool-cases (c == 92)) [
                  | inl e ↦ at_literal 92 ((==_iff c 92).0 e) refl
                  | inr n6 ↦ elim (Bool-cases (ltb c 32)) [
                    | inl small ↦
                        rw (n0, n1, n2, n3, n4, n5, n6, small)
                          (ap (λ n. some (n, x)) (hex-value c (ground (arith, small))))
                    | inr large ↦ rw (n0, n1, n2, n3, n4, n5, n6, large, n5, n6) refl
                  ]
                ]
              ]
            ]
          ]
        ]
      ]
    ]

pub escape-injective :
    (s t x y : Bytes) → escape s ++ b'"' ∷ x ≡ escape t ++ b'"' ∷ y → (s ≡ t) × (x ≡ y)
unfolding escape read_byte
escape-injective [] [] x y h = (refl, cc h)
escape-injective [] (d ∷ t) x y h = absurd (
    some≢none (
      sym (read-escape d (escape t ++ b'"' ∷ y))
      ∙ ap read_byte (sym (h ∙ append_assoc (escape_byte d) (escape t) (b'"' ∷ y)))))
escape-injective (c ∷ s) [] x y h = absurd (
    some≢none (
      sym (read-escape c (escape s ++ b'"' ∷ x))
      ∙ ap read_byte (sym (append_assoc (escape_byte c) (escape s) (b'"' ∷ x)) ∙ h)))
escape-injective (c ∷ s) (d ∷ t) x y h =
    let left = append_assoc (escape_byte c) (escape s) (b'"' ∷ x) in
    let right = append_assoc (escape_byte d) (escape t) (b'"' ∷ y) in
    let same =
      some-injective (c, escape s ++ b'"' ∷ x) (d, escape t ++ b'"' ∷ y)
        (sym (read-escape c (escape s ++ b'"' ∷ x))
          ∙ ap read_byte (sym left ∙ h ∙ right)
          ∙ read-escape d (escape t ++ b'"' ∷ y)) in
    let (more, rest) = escape-injective s t x y (ap (λ p. p.1) same) in
    let first = ap (λ (p : ℕ × Bytes). p.0) same in (cc (first, more), rest)

-- What stands behind a written text is determined, and so is the text.
pub write_text-injective :
    (s t x y : Bytes) → write_text s ++ x ≡ write_text t ++ y → (s ≡ t) × (x ≡ y)
unfolding write_text
write_text-injective s t x y h =
    escape-injective s t x y
      (sym (append_assoc (escape s) (b'"' ∷ []) x) ∙ cc h ∙ append_assoc (escape t) (b'"' ∷ []) y)
