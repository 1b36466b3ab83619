-- ===== src/Audit/Json.antt =====
-- internal/audit/canonical.go: JSON values as Postgres prints its jsonb.
use simple_host_enterprise.Common.{
  ℕ, ◌+◌, ◌-◌, ◌/◌, ◌%◌, Bool, true, false, List, [], ◌∷◌, ◌++◌, ℕ_eq, List_eq, ◌==◌, ltb,
  if◌then◌else◌, Bytes, codes, length, Result, ok, ◌>>=◌,
}
use simple_host_enterprise.Audit.Numeric.{NumberError, numeric_text}

-- A decoded JSON value. An object is Go's map: its members stand in any order, a key at most once.
mutual
  pub data Value : Type 0 where
    null : Value
    bool : Bool → Value
    text number : Bytes → Value
    array : Values → Value
    object : Members → Value

  pub data Values : Type 0 where
    no_values : Values
    value_and : Value → Values → Values

  pub data Members : Type 0 where
    no_members : Members
    member_and : Bytes → Value → Members → Members

-- `jsonbMinusKey`: an object loses the key, an array the texts equal to it.
unfoldable pub without_key : Bytes → Members → Members
without_key key no_members = no_members
without_key key (member_and k v rest) =
    let others = without_key key rest in if k == key then others else member_and k v others

unfoldable pub is_text : Bytes → Value → Bool
is_text key (text s) = s == key
is_text key _ = false

unfoldable pub without_text : Bytes → Values → Values
without_text key no_values = no_values
without_text key (value_and v rest) =
    let others = without_text key rest in if is_text key v then others else value_and v others

unfoldable pub jsonb_minus_key : Value → Bytes → Value
jsonb_minus_key (object members) key = object (without_key key members)
jsonb_minus_key (array values) key = array (without_text key values)
jsonb_minus_key v key = v

-- A digit of `%04x`.
abbrev pub hex_digit : ℕ → ℕ
hex_digit n = if ltb n 10 then b'0' + n else b'a' + (n - 10)

-- One byte of `writeJSONBString`.
unfoldable pub escape_byte : ℕ → Bytes
escape_byte c =
    if c == 8
    then codes "\\b"
    else if c == 12
    then codes "\\f"
    else if c == 10
    then codes "\\n"
    else if c == 13
    then codes "\\r"
    else if c == 9
    then codes "\\t"
    else if c == b'"'
    then codes "\\\""
    else if c == b'\\'
    then codes "\\\\"
    else if ltb c 32
    then codes "\\u00" ++ (hex_digit (c / 16) ∷ hex_digit (c % 16) ∷ [])
    else c ∷ []

unfoldable pub escape : Bytes → Bytes
escape [] = []
escape (c ∷ s) = escape_byte c ++ escape s

unfoldable pub write_text : Bytes → Bytes
write_text s = b'"' ∷ (escape s ++ (b'"' ∷ []))

-- The order of an object's keys: by length, then bytewise.
unfoldable pub bytes_less : Bytes → Bytes → Bool
bytes_less s [] = false
bytes_less [] (d ∷ t) = true
bytes_less (c ∷ s) (d ∷ t) = if c == d then bytes_less s t else ltb c d

unfoldable pub key_less : Bytes → Bytes → Bool
key_less s t = if length s == length t then bytes_less s t else ltb (length s) (length t)

-- A member with its value's text, where that could be written.
abbrev pub Written : Type 0
Written = Bytes × Result NumberError Bytes

-- `sort.Slice`; the keys of a map differ, so the order of the result is determined.
unfoldable pub insert_member : Written → List Written → List Written
insert_member x [] = x ∷ []
insert_member x (y ∷ ys) =
    let rest = insert_member x ys in if key_less y.0 x.0 then y ∷ rest else x ∷ y ∷ ys

unfoldable pub sort_members : List Written → List Written
sort_members [] = []
sort_members (x ∷ xs) = insert_member x (sort_members xs)

-- The loop over the keys, with ", " between the members and ": " behind a key.
unfoldable pub join_members : List Written → Result NumberError Bytes
join_members [] = ok []
join_members ((k, v) ∷ []) = do t ← v; ok (write_text k ++ codes ": " ++ t)
join_members ((k, v) ∷ rest) = do
  t ← v
  tail ← join_members rest
  ok (write_text k ++ codes ": " ++ t ++ codes ", " ++ tail)

unfoldable mutual
  -- `writeJSONB`.
  pub write_value : Value → Result NumberError Bytes
  write_value null = ok (codes "null")
  write_value (bool true) = ok (codes "true")
  write_value (bool false) = ok (codes "false")
  write_value (text s) = ok (write_text s)
  write_value (number n) = numeric_text n
  write_value (array values) = do inner ← write_values values; ok (codes "[" ++ inner ++ codes "]")
  write_value (object members) = do
    inner ← join_members (sort_members (write_members members))
    ok (codes "{" ++ inner ++ codes "}")

  pub write_values : Values → Result NumberError Bytes
  write_values no_values = ok []
  write_values (value_and v no_values) = write_value v
  write_values (value_and v rest) = do
    t ← write_value v
    tail ← write_values rest
    ok (t ++ codes ", " ++ tail)

  pub write_members : Members → List Written
  write_members no_members = []
  write_members (member_and k v rest) = (k, write_value v) ∷ write_members rest
