-- ===== src/Accounts/Base64.antt =====
-- The standard library's base64.RawURLEncoding: no padding, carriage returns and line feeds skipped,
-- the unused bits of the last digit ignored.
use simple_host_enterprise.Common.{
  ℕ, ◌+◌, ◌-◌, ◌*◌, ◌/◌, ◌%◌, ◌<◌, ◌≤◌, ◌≡◌, ◌≢◌, refl, false, ◌||◌, Option, none, some, [], ◌∷◌,
  Bytes, All, ltb, nat_eq, if◌then◌else◌, arith,
}

unfoldable pub encode_digit : ℕ → ℕ
encode_digit i =
    if ltb i 26
    then i + 65
    else if ltb i 52
    then i + 71
    else if ltb i 62
    then i - 4
    else if nat_eq i 62
    then 45
    else 95

unfoldable pub decode_digit : ℕ → Option ℕ
decode_digit c =
    if ltb c 45
    then none
    else if nat_eq c 45
    then some 62
    else if ltb c 48
    then none
    else if ltb c 58
    then some (c + 4)
    else if ltb c 65
    then none
    else if ltb c 91
    then some (c - 65)
    else if nat_eq c 95
    then some 63
    else if ltb c 97
    then none
    else if ltb c 123
    then some (c - 71)
    else none

unfoldable pub encode : Bytes → Bytes
encode [] = []
encode (a ∷ []) = encode_digit (a / 4) ∷ encode_digit (a % 4 * 16) ∷ []
encode (a ∷ b ∷ []) =
    encode_digit (a / 4) ∷ encode_digit (a % 4 * 16 + b / 16) ∷ encode_digit (b % 16 * 4) ∷ []
encode (a ∷ b ∷ c ∷ rest) =
    encode_digit (a / 4)
    ∷ encode_digit (a % 4 * 16 + b / 16)
    ∷ encode_digit (b % 16 * 4 + c / 64)
    ∷ encode_digit (c % 64)
    ∷ encode rest

unfoldable pub without_newlines : Bytes → Bytes
without_newlines [] = []
without_newlines (c ∷ cs) =
    let rest = without_newlines cs in if nat_eq c 10 || nat_eq c 13 then rest else c ∷ rest

abbrev pub bind {ℓ κ} : {A : Type ℓ} {B : Type κ} → Option A → (A → Option B) → Option B
bind none f = none
bind (some a) f = f a

unfoldable pub decode_quanta : Bytes → Option Bytes
decode_quanta [] = some []
decode_quanta (c ∷ []) = none
decode_quanta (c ∷ d ∷ []) =
    bind (decode_digit c) (λ x. bind (decode_digit d) (λ y. some ((x * 4 + y / 16) ∷ [])))
decode_quanta (c ∷ d ∷ e ∷ []) = bind (decode_digit c) (λ x.
    bind (decode_digit d)
      (λ y. bind (decode_digit e) (λ z. some ((x * 4 + y / 16) ∷ (y % 16 * 16 + z / 4) ∷ []))))
decode_quanta (c ∷ d ∷ e ∷ f ∷ rest) = bind (decode_digit c) (λ x. bind (decode_digit d) (λ y.
    bind (decode_digit e) (λ z. bind (decode_digit f) (λ w.
      bind (decode_quanta rest)
        (λ more. some ((x * 4 + y / 16) ∷ (y % 16 * 16 + z / 4) ∷ (z % 4 * 64 + w) ∷ more))))))

unfoldable pub decode : Bytes → Option Bytes
decode s = decode_quanta (without_newlines s)

unfoldable pub IsByte : ℕ → Type 0
IsByte b = b < 256

-- A character that the encoding uses: no dot and no newline.
unfoldable pub IsDigit : ℕ → Type 0
IsDigit c = (c ≢ 46) × (45 ≤ c)

decode-encode_digit : (i : ℕ) → i < 64 → decode_digit (encode_digit i) ≡ some i
unfolding decode_digit encode_digit
decode-encode_digit i h = ground arith

encode_digit-IsDigit : (i : ℕ) → i < 64 → IsDigit (encode_digit i)
unfolding encode_digit IsDigit
encode_digit-IsDigit i h = ground arith

pub encode-IsDigit : (bs : Bytes) → All IsByte bs → All IsDigit (encode bs)
unfolding encode IsByte
encode-IsDigit [] h = tt
encode-IsDigit (a ∷ []) (ha, _) =
    let d1 = encode_digit-IsDigit (a / 4) (omega arith) in
    let d2 = encode_digit-IsDigit (a % 4 * 16) (omega arith) in (d1, (d2, tt))
encode-IsDigit (a ∷ b ∷ []) (ha, (hb, _)) =
    let d1 = encode_digit-IsDigit (a / 4) (omega arith) in
    let d2 = encode_digit-IsDigit (a % 4 * 16 + b / 16) (omega arith) in
    let d3 = encode_digit-IsDigit (b % 16 * 4) (omega arith) in (d1, (d2, (d3, tt)))
encode-IsDigit (a ∷ b ∷ c ∷ rest) (ha, (hb, (hc, h))) =
    let d1 = encode_digit-IsDigit (a / 4) (omega arith) in
    let d2 = encode_digit-IsDigit (a % 4 * 16 + b / 16) (omega arith) in
    let d3 = encode_digit-IsDigit (b % 16 * 4 + c / 64) (omega arith) in
    let d4 = encode_digit-IsDigit (c % 64) (omega arith) in
    (d1, (d2, (d3, (d4, encode-IsDigit rest h))))

without_newlines-digits : (cs : Bytes) → All IsDigit cs → without_newlines cs ≡ cs
unfolding without_newlines IsDigit
without_newlines-digits [] h = refl
without_newlines-digits (c ∷ cs) (d, h) =
    let rest = without_newlines-digits cs h in
    let test : (nat_eq c 10 || nat_eq c 13) ≡ false = ground (arith, d.1) in rw (test, rest) refl

decode_quanta-encode : (bs : Bytes) → All IsByte bs → decode_quanta (encode bs) ≡ some bs
unfolding decode_quanta encode IsByte
decode_quanta-encode [] h = refl
decode_quanta-encode (a ∷ []) (ha, _) =
    let d1 = decode-encode_digit (a / 4) (omega arith) in
    let d2 = decode-encode_digit (a % 4 * 16) (omega arith) in
    let first : a / 4 * 4 + a % 4 * 16 / 16 ≡ a = omega arith in rw (d1, d2, first) refl
decode_quanta-encode (a ∷ b ∷ []) (ha, (hb, _)) =
    let d1 = decode-encode_digit (a / 4) (omega arith) in
    let d2 = decode-encode_digit (a % 4 * 16 + b / 16) (omega arith) in
    let d3 = decode-encode_digit (b % 16 * 4) (omega arith) in
    let first : a / 4 * 4 + (a % 4 * 16 + b / 16) / 16 ≡ a = omega arith in
    let second : (a % 4 * 16 + b / 16) % 16 * 16 + b % 16 * 4 / 4 ≡ b = omega arith in
    rw (d1, d2, d3, first, second) refl
decode_quanta-encode (a ∷ b ∷ c ∷ rest) (ha, (hb, (hc, h))) =
    let d1 = decode-encode_digit (a / 4) (omega arith) in
    let d2 = decode-encode_digit (a % 4 * 16 + b / 16) (omega arith) in
    let d3 = decode-encode_digit (b % 16 * 4 + c / 64) (omega arith) in
    let d4 = decode-encode_digit (c % 64) (omega arith) in
    let first : a / 4 * 4 + (a % 4 * 16 + b / 16) / 16 ≡ a = omega arith in
    let second : (a % 4 * 16 + b / 16) % 16 * 16 + (b % 16 * 4 + c / 64) / 4 ≡ b = omega arith in
    let third : (b % 16 * 4 + c / 64) % 4 * 64 + c % 64 ≡ c = omega arith in
    rw (d1, d2, d3, d4, decode_quanta-encode rest h, first, second, third) refl

-- A text of bytes is decoded from its encoding.
pub decode-encode : (bs : Bytes) → All IsByte bs → decode (encode bs) ≡ some bs
unfolding decode
decode-encode bs h =
    rw (without_newlines-digits (encode bs) (encode-IsDigit bs h)) (decode_quanta-encode bs h)
