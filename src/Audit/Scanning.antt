-- ===== src/Audit/Scanning.antt =====
-- internal/audit/canonical.go: a reader that follows quotes and brackets to the end of a JSON value.
use simple_host_enterprise.Common.{
  ℕ, zero, suc, ◌/◌, ◌%◌, ◌<◌, ◌≡◌, refl, sym, ap, ◌∙◌, subst, Bool, true, false, not, ◌||◌, Option,
  none, some, [], ◌∷◌, ◌++◌, ℕ_eq, List_eq, ◌==◌, ==_iff, Bool-cases, &&-true, inl, inr, ltb,
  if◌then◌else◌, Bytes, codes, all, arith,
}
use simple_host_enterprise.Common.Text.{append_assoc}
use simple_host_enterprise.Audit.Json.{hex_digit, escape_byte, escape, write_text}

-- Outside of a text, inside one, or behind a backslash in one, with so many brackets open.
pub data Place : Type 0 where
  outside inside escaped : ℕ → Place

abbrev pub is_open : ℕ → Bool
is_open c = c == b'{' || c == b'['

abbrev pub is_close : ℕ → Bool
is_close c = c == b'}' || c == b']'

-- Outside of texts, with no bracket open, a comma or a closing bracket ends the value.
unfoldable pub step : Place → ℕ → Option Place
step (outside d) c =
    if c == b'"'
    then some (inside d)
    else if is_open c
    then some (outside (suc d))
    else if is_close c
    then elim d [ zero ↦ none | suc n ↦ some (outside n) ]
    else if c == b','
    then elim d [ zero ↦ none | suc n ↦ some (outside (suc n)) ]
    else some (outside d)
step (inside d) c =
    if c == b'"' then some (outside d) else if c == b'\\' then some (escaped d) else some (inside d)
step (escaped d) c = some (inside d)

abbrev pub go_on : Bytes → (Place → Bytes) → Option Place → Bytes
go_on s rest none = s
go_on s rest (some p) = rest p

-- What is left where the value ends.
unfoldable pub scan : Bytes → Place → Bytes
scan [] p = []
scan (c ∷ s) p = go_on (c ∷ s) (scan s) (step p c)

-- The reader passes over the text, with any number of brackets open.
unfoldable pub IsPassed : Bytes → Type 0
IsPassed t = (d : ℕ) (x : Bytes) → scan (t ++ x) (outside d) ≡ scan x (outside d)

abbrev pub is_plain : ℕ → Bool
is_plain c = not (c == b'"' || is_open c || is_close c || c == b',')

plain-step : (c d : ℕ) → is_plain c ≡ true → step (outside d) c ≡ some (outside d)
unfolding step
plain-step c d h =
    let quote : (c == b'"') ≡ false = ground (arith, h) in
    let opened : is_open c ≡ false = ground (arith, h) in
    let closed : is_close c ≡ false = ground (arith, h) in
    let comma : (c == b',') ≡ false = ground (arith, h) in rw (quote, opened, closed, comma) refl

pub plain-IsPassed : (t : Bytes) → all is_plain t ≡ true → IsPassed t
unfolding IsPassed scan
plain-IsPassed [] h d x = refl
plain-IsPassed (c ∷ t) h d x =
    let (first, more) = &&-true (is_plain c) (all is_plain t) h in
    rw (plain-step c d first) (plain-IsPassed t more d x)

skip-hex :
    (a b d : ℕ) (x : Bytes)
    → a < 16
    → b < 16
    → scan (codes "\\u00" ++ (hex_digit a ∷ hex_digit b ∷ []) ++ x) (inside d) ≡ scan x (inside d)
unfolding scan step
skip-hex a b d x small_a small_b =
    let quote_a : (hex_digit a == b'"') ≡ false = ground (arith, small_a) in
    let slash_a : (hex_digit a == b'\\') ≡ false = ground (arith, small_a) in
    let quote_b : (hex_digit b == b'"') ≡ false = ground (arith, small_b) in
    let slash_b : (hex_digit b == b'\\') ≡ false = ground (arith, small_b) in
    rw (quote_a, slash_a, quote_b, slash_b) refl

skip-escape : (c d : ℕ) (x : Bytes) → scan (escape_byte c ++ x) (inside d) ≡ scan x (inside d)
unfolding scan step escape_byte
skip-escape c d x =
    let at_literal : (n : ℕ)
        → c ≡ n
        → scan (escape_byte n ++ x) (inside d) ≡ scan x (inside d)
        → scan (escape_byte c ++ x) (inside d) ≡ scan x (inside d) =
      λ n e h. subst (λ m. scan (escape_byte m ++ x) (inside d) ≡ scan x (inside d)) (sym e) h in
    elim (Bool-cases (c == 8)) [
      | inl e ↦ at_literal 8 ((==_iff c 8).0 e) refl
      | inr n0 ↦ elim (Bool-cases (c == 12)) [
        | inl e ↦ at_literal 12 ((==_iff c 12).0 e) refl
        | inr n1 ↦ elim (Bool-cases (c == 10)) [
          | inl e ↦ at_literal 10 ((==_iff c 10).0 e) refl
          | inr n2 ↦ elim (Bool-cases (c == 13)) [
            | inl e ↦ at_literal 13 ((==_iff c 13).0 e) refl
            | inr n3 ↦ elim (Bool-cases (c == 9)) [
              | inl e ↦ at_literal 9 ((==_iff c 9).0 e) refl
              | inr n4 ↦ elim (Bool-cases (c == 34)) [
                | inl e ↦ at_literal 34 ((==_iff c 34).0 e) refl
                | inr n5 ↦ elim (Bool-cases (c == 92)) [
                  | inl e ↦ at_literal 92 ((==_iff c 92).0 e) refl
                  | inr n6 ↦ elim (Bool-cases (ltb c 32)) [
                    | inl small ↦
                        rw (n0, n1, n2, n3, n4, n5, n6, small)
                          (skip-hex (c / 16) (c % 16) d x (ground (arith, small)) (omega arith))
                    | inr large ↦ rw (n0, n1, n2, n3, n4, n5, n6, large, n5, n6) refl
                  ]
                ]
              ]
            ]
          ]
        ]
      ]
    ]

skip-text :
    (s : Bytes) (d : ℕ) (x : Bytes) → scan (escape s ++ b'"' ∷ x) (inside d) ≡ scan x (outside d)
unfolding scan step escape
skip-text [] d x = refl
skip-text (c ∷ s) d x =
    ap (λ z. scan z (inside d)) (append_assoc (escape_byte c) (escape s) (b'"' ∷ x))
    ∙ skip-escape c d (escape s ++ b'"' ∷ x)
    ∙ skip-text s d x

pub text-IsPassed : (s : Bytes) → IsPassed (write_text s)
unfolding IsPassed write_text scan step
text-IsPassed s d x =
    ap (λ z. scan z (inside d)) (append_assoc (escape s) (b'"' ∷ []) x) ∙ skip-text s d x

pub append-IsPassed : (s t : Bytes) → IsPassed s → IsPassed t → IsPassed (s ++ t)
unfolding IsPassed
append-IsPassed s t p q d x =
    ap (λ z. scan z (outside d)) (append_assoc s t x) ∙ p d (t ++ x) ∙ q d x
