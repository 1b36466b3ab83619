-- ===== src/Audit/Numeric.antt =====
-- internal/audit/canonical.go: `numericText`, a JSON number in the notation of Postgres's numeric.
use simple_host_enterprise.Common.{
  ℕ, zero, suc, ◌+◌, ◌-◌, ◌*◌, ◌^◌, Bool, false, ◌&&◌, ◌||◌, not, Option, none, some, [], ◌∷◌, ◌++◌,
  ℕ_eq, List_eq, ◌==◌, leb, ltb, if◌then◌else◌, Bytes, codes, length, all, Result, ok, err, ◌>>=◌,
}
use simple_host_enterprise.Common.Text.{has_prefix}

-- The number that `numericText` cannot read.
pub data NumberError : Type 0 where
  bad_exponent : Bytes → NumberError

-- An integer as `strconv.Atoi` reads it.
pub data Exponent : Type 0 where
  plus minus : ℕ → Exponent

abbrev pub is_digit : ℕ → Bool
is_digit c = leb b'0' c && leb c b'9'

-- The value of a text of digits.
unfoldable pub digits_value : ℕ → Bytes → ℕ
digits_value n [] = n
digits_value n (c ∷ s) = digits_value (10 * n + (c - b'0')) s

unfoldable pub is_number : Bytes → Bool
is_number [] = false
is_number (c ∷ s) = all is_digit (c ∷ s)

-- `strconv.Atoi`: an optional sign, digits, and the range of 64 bits.
unfoldable pub atoi : Bytes → Option Exponent
atoi [] = none
atoi (c ∷ s) =
    if c == b'-'
    then (if is_number s && leb (digits_value 0 s) (2 ^ 63)
        then some (minus (digits_value 0 s))
        else none)
    else if c == b'+'
    then (if is_number s && ltb (digits_value 0 s) (2 ^ 63)
        then some (plus (digits_value 0 s))
        else none)
    else if is_number (c ∷ s) && ltb (digits_value 0 (c ∷ s)) (2 ^ 63)
    then some (plus (digits_value 0 (c ∷ s)))
    else none

-- The text before the first byte that passes the test, and the text behind it where there is one.
unfoldable pub split_at : (ℕ → Bool) → Bytes → Bytes × Option Bytes
split_at p [] = ([], none)
split_at p (c ∷ s) = let rest = split_at p s in if p c then ([], some s) else (c ∷ rest.0, rest.1)

abbrev pub zeros : ℕ → Bytes
zeros zero = []
zeros (suc n) = b'0' ∷ zeros n

abbrev pub take : ℕ → Bytes → Bytes
take zero s = []
take (suc n) [] = []
take (suc n) (c ∷ s) = c ∷ take n s

abbrev pub drop : ℕ → Bytes → Bytes
drop zero s = s
drop (suc n) [] = []
drop (suc n) (c ∷ s) = drop n s

-- `strings.TrimLeft(s, "0")`.
unfoldable pub trim_zeros : Bytes → Bytes
trim_zeros [] = []
trim_zeros (c ∷ s) = if c == b'0' then trim_zeros s else c ∷ s

-- The exponent and the mantissa of an unsigned text.
unfoldable pub split_exponent : Bytes → Bytes → Result NumberError (Bytes × Exponent)
split_exponent whole s =
    let (mant, after) = split_at (λ c. c == b'e' || c == b'E') s in
    elim after [
      | none ↦ ok (mant, plus 0)
      | some digits ↦ elim (atoi digits) [ some e ↦ ok (mant, e) | none ↦ err (bad_exponent whole) ]
    ]

-- The digits and the scale, `len(frac) - exp` with trailing zeros added where it is negative.
unfoldable pub scaled : Bytes → ℕ → Exponent → Bytes × ℕ
scaled digits places (minus e) = (digits, places + e)
scaled digits places (plus e) =
    if leb e places then (digits, places - e) else (digits ++ zeros (e - places), 0)

-- Leading zeros, so that a digit stands before the point.
unfoldable pub padded : Bytes → ℕ → Bytes
padded digits scale =
    if leb (length digits) scale then zeros (scale - length digits + 1) ++ digits else digits

unfoldable pub plain_text : Bool → Bytes → ℕ → Bytes
plain_text neg digits scale =
    let split = length digits - scale in
    let trimmed = trim_zeros (take split digits) in
    let whole = if trimmed == [] then codes "0" else trimmed in
    let out = if ltb 0 scale then whole ++ (b'.' ∷ drop split digits) else whole in
    if neg && not (all (λ c. c == b'0') digits) then b'-' ∷ out else out

unfoldable pub numeric_text : Bytes → Result NumberError Bytes
numeric_text s = do
  let neg = has_prefix (codes "-") s
  parts ← split_exponent s (if neg then drop 1 s else s)
  let (int_part, frac) = split_at (λ c. c == b'.') parts.0
  let places : Bytes = elim frac [ some f ↦ f | none ↦ [] ]
  let (digits, scale) = scaled (int_part ++ places) (length places) parts.1
  ok (plain_text neg (padded digits scale) scale)
