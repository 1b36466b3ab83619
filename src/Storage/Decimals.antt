-- ===== src/Storage/Decimals.antt =====
-- The decimal text of a number, read back.
use simple_host_enterprise.Common.{
  ℕ, zero, suc, ◌+◌, ◌/◌, ◌%◌, ◌^◌, ◌≤◌, ◌<◌, ◌≡◌, refl, sym, ap, ◌∙◌, subst, true, false, some, [],
  ◌∷◌, Bytes, all, ltb, ◌==◌, ℕ_eq, Bool-cases, &&-true, inl, inr, arith,
}
use simple_host_enterprise.Audit.Numeric.{plus, atoi, digits_value, is_digit, is_number}
use simple_host_enterprise.Storage.Keys.{itoa_from, itoa}

atoi-number :
    (s : Bytes)
    → is_number s ≡ true
    → digits_value 0 s < 2 ^ 63
    → atoi s ≡ some (plus (digits_value 0 s))
unfolding atoi is_number
atoi-number [] h small = cc
atoi-number (c ∷ s) h small =
    let digit : is_digit c ≡ true = (&&-true (is_digit c) (all is_digit s) h).0 in
    let minus_sign : (c == b'-') ≡ false = ground (arith, digit) in
    let plus_sign : (c == b'+') ≡ false = ground (arith, digit) in
    let fits : ltb (digits_value 0 (c ∷ s)) (2 ^ 63) ≡ true = ground (arith, small) in
    rw (minus_sign, plus_sign, h, fits) refl

digits_value-itoa_from :
    (fuel n : ℕ) (rest : Bytes)
    → n ≤ fuel
    → digits_value 0 (itoa_from fuel n rest) ≡ digits_value n rest
unfolding itoa_from digits_value
digits_value-itoa_from zero n rest h = ap (λ x. digits_value x rest) (omega (arith, h))
digits_value-itoa_from (suc fuel) n rest h = elim (Bool-cases (ltb n 10)) [
  | inl small ↦ rw small (ap (λ x. digits_value x rest) (omega arith))
  | inr large ↦ rw large (
      digits_value-itoa_from fuel (n / 10) _ (ground (arith, large, h))
      ∙ ap (λ x. digits_value x rest) (omega arith))
]

digit-more :
    (d : ℕ) (rest : Bytes)
    → d < 10
    → all is_digit rest ≡ true
    → all is_digit ((d + 48) ∷ rest) ≡ true
digit-more d rest small h =
    let digit : is_digit (d + 48) ≡ true = ground (arith, small) in rw digit h

itoa_from-digits :
    (fuel n : ℕ) (rest : Bytes)
    → all is_digit rest ≡ true
    → is_number (itoa_from fuel n rest) ≡ true
unfolding itoa_from is_number
itoa_from-digits zero n rest h = digit-more (n % 10) rest (omega arith) h
itoa_from-digits (suc fuel) n rest h = elim (Bool-cases (ltb n 10)) [
  | inl small ↦ rw small (digit-more n rest (ground (arith, small)) h)
  | inr large ↦
      rw large (itoa_from-digits fuel (n / 10) _ (digit-more (n % 10) rest (omega arith) h))
]

pub itoa-digits : (n : ℕ) → is_number (itoa n) ≡ true
unfolding itoa
itoa-digits n = itoa_from-digits n n [] refl

pub atoi-itoa : (n : ℕ) → n < 2 ^ 63 → atoi (itoa n) ≡ some (plus n)
unfolding itoa digits_value
atoi-itoa n small =
    let value = digits_value-itoa_from n n [] (omega arith) in
    atoi-number (itoa n) (itoa_from-digits n n [] refl) (subst (λ x. x < 2 ^ 63) (sym value) small)
    ∙ ap (λ x. some (plus x)) value
