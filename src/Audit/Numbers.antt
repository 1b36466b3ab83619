-- ===== src/Audit/Numbers.antt =====
-- internal/audit/canonical.go: the bytes of the numbers that `numericText` writes.
use simple_host_enterprise.Common.{
  ℕ, zero, suc, ◌+◌, ◌-◌, ◌≡◌, refl, ap, subst, Bool, true, false, not, ◌&&◌, ◌||◌, Option, none,
  some, [], ◌∷◌, ◌++◌, ℕ_eq, List_eq, ◌==◌, Bool-cases, Option-cases, &&-true, inl, inr, ltb, leb,
  if◌then◌else◌, Bytes, codes, all, length, ok, >>=-eq-ok, ok-injective,
}
use simple_host_enterprise.Common.Text.{has_prefix}
use simple_host_enterprise.Audit.Numeric.{
  Exponent, plus, minus, atoi, split_at, zeros, take, drop, trim_zeros, split_exponent, scaled,
  padded, plain_text, numeric_text,
}
use simple_host_enterprise.Audit.Scanning.{is_plain}

-- The text is plain.
abbrev pub IsPlain : Bytes → Type 0
IsPlain s = all is_plain s ≡ true

append-IsPlain : (s t : Bytes) → IsPlain s → IsPlain t → IsPlain (s ++ t)
append-IsPlain [] t p q = q
append-IsPlain (c ∷ s) t p q =
    let (first, more) = &&-true (is_plain c) (all is_plain s) p in
    rw (first) (append-IsPlain s t more q)

zeros-IsPlain : (n : ℕ) → IsPlain (zeros n)
zeros-IsPlain zero = refl
zeros-IsPlain (suc n) = zeros-IsPlain n

take-IsPlain : (n : ℕ) (s : Bytes) → IsPlain s → IsPlain (take n s)
take-IsPlain zero s p = refl
take-IsPlain (suc n) [] p = refl
take-IsPlain (suc n) (c ∷ s) p =
    let (first, more) = &&-true (is_plain c) (all is_plain s) p in
    rw (first) (take-IsPlain n s more)

drop-IsPlain : (n : ℕ) (s : Bytes) → IsPlain s → IsPlain (drop n s)
drop-IsPlain zero s p = p
drop-IsPlain (suc n) [] p = refl
drop-IsPlain (suc n) (c ∷ s) p = drop-IsPlain n s (&&-true (is_plain c) (all is_plain s) p).1

trim-IsPlain : (s : Bytes) → IsPlain s → IsPlain (trim_zeros s)
unfolding trim_zeros
trim-IsPlain [] p = refl
trim-IsPlain (c ∷ s) p = elim (Bool-cases (c == b'0')) [
  | inl e ↦ rw e (trim-IsPlain s (&&-true (is_plain c) (all is_plain s) p).1)
  | inr e ↦ rw e p
]

or_empty : Option Bytes → Bytes
or_empty o = elim o [ some f ↦ f | none ↦ [] ]

split-IsPlain :
    (test : ℕ → Bool) (s : Bytes)
    → IsPlain s
    → IsPlain (split_at test s).0 × IsPlain (or_empty (split_at test s).1)
unfolding split_at or_empty
split-IsPlain test [] p = (refl, refl)
split-IsPlain test (c ∷ s) p =
    let (first, more) = &&-true (is_plain c) (all is_plain s) p in
    let rest = split-IsPlain test s more in
    elim (Bool-cases (test c)) [
      | inl e ↦ rw e (refl, more)
      | inr e ↦ rw e (rw (first) rest.0, rest.1)
    ]

scaled-IsPlain : (s : Bytes) (n : ℕ) (e : Exponent) → IsPlain s → IsPlain (scaled s n e).0
unfolding scaled
scaled-IsPlain s n (minus e) p = p
scaled-IsPlain s n (plus e) p = elim (Bool-cases (leb e n)) [
  | inl c ↦ rw c p
  | inr c ↦ rw c (append-IsPlain s (zeros (e - n)) p (zeros-IsPlain (e - n)))
]

padded-IsPlain : (s : Bytes) (n : ℕ) → IsPlain s → IsPlain (padded s n)
unfolding padded
padded-IsPlain s n p = elim (Bool-cases (leb (length s) n)) [
  | inl c ↦ rw c (append-IsPlain (zeros (n - length s + 1)) s (zeros-IsPlain (n - length s + 1)) p)
  | inr c ↦ rw c p
]

plain_text-IsPlain : (neg : Bool) (s : Bytes) (n : ℕ) → IsPlain s → IsPlain (plain_text neg s n)
unfolding plain_text
plain_text-IsPlain neg s n p =
    let split = length s - n in
    let trimmed = trim_zeros (take split s) in
    let whole : Bytes = if trimmed == [] then codes "0" else trimmed in
    let out : Bytes = if ltb 0 n then whole ++ (b'.' ∷ drop split s) else whole in
    let whole_plain : IsPlain whole = elim (Bool-cases (trimmed == [])) [
      | inl e ↦ rw e refl
      | inr e ↦ rw e (trim-IsPlain (take split s) (take-IsPlain split s p))
    ] in
    let out_plain : IsPlain out = elim (Bool-cases (ltb 0 n)) [
      | inl e ↦
          rw e (append-IsPlain whole (b'.' ∷ drop split s) whole_plain (drop-IsPlain split s p))
      | inr e ↦ rw e whole_plain
    ] in
    elim (Bool-cases (neg && not (all (λ c. c == b'0') s))) [
      | inl e ↦ rw e out_plain
      | inr e ↦ rw e out_plain
    ]

mantissa-IsPlain :
    (whole s : Bytes) (parts : Bytes × Exponent)
    → IsPlain s
    → split_exponent whole s ≡ ok parts
    → IsPlain parts.0
unfolding split_exponent
mantissa-IsPlain whole s parts p h =
    let test : ℕ → Bool = λ c. c == b'e' || c == b'E' in
    let mant = (split-IsPlain test s p).0 in
    elim (Option-cases (split_at test s).1) [
      | inl e ↦
          subst IsPlain
            (ap (λ (q : Bytes × Exponent). q.0) (ok-injective (rw (e, split_exponent) at h))) mant
      | inr (digits, e) ↦ elim (Option-cases (atoi digits)) [
        | inl bad ↦ cc (rw (e, split_exponent, bad) at h)
        | inr (n, good) ↦
            subst IsPlain
              (ap (λ (q : Bytes × Exponent). q.0)
                (ok-injective (rw (e, split_exponent, good) at h)))
              mant
      ]
    ]

sign-IsPlain : (b : Bool) (s : Bytes) → IsPlain s → IsPlain (if b then drop 1 s else s)
sign-IsPlain true s p = drop-IsPlain 1 s p
sign-IsPlain false s p = p

pub numeric_text-IsPlain : (s t : Bytes) → IsPlain s → numeric_text s ≡ ok t → IsPlain t
unfolding numeric_text or_empty
numeric_text-IsPlain s t p h =
    let neg = has_prefix (codes "-") s in
    let (parts, read, made) = >>=-eq-ok (split_exponent s (if neg then drop 1 s else s)) _ h in
    let unsigned = if neg then drop 1 s else s in
    let mant = mantissa-IsPlain s unsigned parts (sign-IsPlain neg s p) read in
    let halves = split-IsPlain (λ c. c == b'.') parts.0 mant in
    let cut = split_at (λ c. c == b'.') parts.0 in
    let digits = append-IsPlain cut.0 (or_empty cut.1) halves.0 halves.1 in
    subst IsPlain (ok-injective made)
      (plain_text-IsPlain neg _ _ (padded-IsPlain _ _ (scaled-IsPlain _ _ parts.1 digits)))
