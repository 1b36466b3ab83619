-- ===== src/Hosts/Classifying.antt =====
-- Hosts in their normal form, and what the classification makes of their parts.
use simple_host_enterprise.Common.{
  ℕ, ◌≡◌, ◌≢◌, refl, Bool, true, false, not, ◌&&◌, ◌||◌, [], ◌∷◌, ◌++◌, map, Bytes, length, all,
  ltb, if◌then◌else◌, ◌==◌, ℕ_eq, List_eq, Bool-cases, &&-true, inl, inr, arith, false≢true,
}
use simple_host_enterprise.Common.Text.{has_prefix, lower_byte, HasNo}
use simple_host_enterprise.Hosts.{
  dot, is_ascii, is_alphanumeric, is_label_byte, starts_with_dash, ends_with_dash, is_valid_label,
  max_label_len,
}
use simple_host_enterprise.Hosts.Normal.{
  has_byte, colon, is_space, trim_left, trim_right, trim_space, trim_dot, unwrap, open_bracket,
  normalize_host,
}

-- A byte of a host name in its normal form.
unfoldable pub is_host_byte : ℕ → Bool
is_host_byte c = is_label_byte c || c == dot

unfoldable pub ends_with_dot : Bytes → Bool
ends_with_dot [] = false
ends_with_dot (c ∷ cs) = if cs == [] then c == dot else ends_with_dot cs

-- A host in its normal form: letters, digits, dashes and dots, and no dot at its end.
unfoldable pub is_normal_host : Bytes → Bool
is_normal_host h = all is_host_byte h && not (ends_with_dot h)

host_byte-facts :
    (c : ℕ)
    → is_host_byte c ≡ true
    → (is_ascii c ≡ true)
      × (is_space c ≡ false)
      × ((c == colon) ≡ false)
      × ((c == open_bracket) ≡ false)
      × (lower_byte c ≡ c)
unfolding is_host_byte is_label_byte is_alphanumeric is_space lower_byte
host_byte-facts c h =
    (ground (arith, h), ground (arith, h), ground (arith, h), ground (arith, h), ground (arith, h))

pub normal-ascii : (h : Bytes) → all is_host_byte h ≡ true → all is_ascii h ≡ true
normal-ascii [] n = refl
normal-ascii (c ∷ cs) n =
    let (first, rest) = &&-true (is_host_byte c) (all is_host_byte cs) n in
    rw ((host_byte-facts c first).0, normal-ascii cs rest) refl

normal-trim_left : (h : Bytes) → all is_host_byte h ≡ true → trim_left h ≡ h
unfolding trim_left
normal-trim_left [] n = refl
normal-trim_left (c ∷ cs) n =
    rw ((host_byte-facts c (&&-true (is_host_byte c) (all is_host_byte cs) n).0).1) refl

normal-trim_right : (h : Bytes) → all is_host_byte h ≡ true → trim_right h ≡ h
unfolding trim_right
normal-trim_right [] n = refl
normal-trim_right (c ∷ cs) n =
    let (first, rest) = &&-true (is_host_byte c) (all is_host_byte cs) n in
    rw ((host_byte-facts c first).1, normal-trim_right cs rest) refl

normal-no_colon : (h : Bytes) → all is_host_byte h ≡ true → has_byte colon h ≡ false
normal-no_colon [] n = refl
normal-no_colon (c ∷ cs) n =
    let (first, rest) = &&-true (is_host_byte c) (all is_host_byte cs) n in
    rw ((host_byte-facts c first).2) (normal-no_colon cs rest)

pub normal-lower : (h : Bytes) → all is_host_byte h ≡ true → map lower_byte h ≡ h
normal-lower [] n = refl
normal-lower (c ∷ cs) n =
    let (first, rest) = &&-true (is_host_byte c) (all is_host_byte cs) n in
    rw ((host_byte-facts c first).4, normal-lower cs rest) refl

normal-unwrap : (is_ip : Bytes → Bool) (h : Bytes) → all is_host_byte h ≡ true → unwrap is_ip h ≡ h
unfolding unwrap
normal-unwrap is_ip [] n = refl
normal-unwrap is_ip (c ∷ cs) n =
    rw ((host_byte-facts c (&&-true (is_host_byte c) (all is_host_byte cs) n).0).3) refl

normal-trim_dot : (h : Bytes) → ends_with_dot h ≡ false → trim_dot h ≡ h
unfolding trim_dot ends_with_dot
normal-trim_dot [] e = refl
normal-trim_dot (c ∷ []) e = rw e refl
normal-trim_dot (c ∷ d ∷ ds) e =
    let rest = normal-trim_dot (d ∷ ds) e in
    elim (Bool-cases (c == dot)) [ inl x ↦ rw (x, rest) refl | inr x ↦ rw (x, rest) refl ]

-- A host in its normal form is left as it is.
pub normalize_host-normal :
    (trim_unicode : Bytes → Bytes) (is_ip : Bytes → Bool) (h : Bytes)
    → (h == []) ≡ false
    → is_normal_host h ≡ true
    → normalize_host trim_unicode is_ip h ≡ h
unfolding normalize_host trim_space is_normal_host
normalize_host-normal trim_unicode is_ip h there normal =
    let (n, ends) = &&-true (all is_host_byte h) (not (ends_with_dot h)) normal in
    let plain : ends_with_dot h ≡ false = elim (Bool-cases (ends_with_dot h)) [
      | inr e ↦ e
      | inl e ↦ absurd (false≢true (rw e at ends))
    ] in
    rw
      (
        normal-ascii h n,
        normal-trim_left h n,
        normal-trim_right h n,
        there,
        normal-ascii h n,
        normal-no_colon h n,
        normal-unwrap is_ip h n,
        normal-lower h n,
      )
      (normal-trim_dot h plain)

-- A prefix without a dot is not made by what follows a dot.
pub prefix-before_dot :
    (p s t : Bytes) → HasNo dot p → has_prefix p s ≡ false → has_prefix p (s ++ dot ∷ t) ≡ false
unfolding has_prefix HasNo
prefix-before_dot [] s t n h = cc
prefix-before_dot (c ∷ p) [] t n h =
    let other : (c == dot) ≡ false = ground (arith, n.0) in rw other refl
prefix-before_dot (c ∷ p) (d ∷ s) t n h = elim (Bool-cases (c == d)) [
  | inl e ↦ rw e (prefix-before_dot p s t n.1 (rw e at h))
  | inr e ↦ rw e refl
]

pub label-facts :
    (label : Bytes)
    → is_valid_label label ≡ true
    → ((label == []) ≡ false) × (ends_with_dash label ≡ false) × (all is_label_byte label ≡ true)
unfolding is_valid_label
label-facts label h =
    let (most, bytes) =
      &&-true
        (not (label == [] || ltb max_label_len (length label))
          && not (starts_with_dash label || ends_with_dash label))
        _ h in
    let (size, ends) = &&-true (not (label == [] || ltb max_label_len (length label))) _ most in
    (ground (arith, size), ground (arith, ends), bytes)

pub label-no_dot : (s : Bytes) → all is_label_byte s ≡ true → HasNo dot s × (has_byte dot s ≡ false)
unfolding HasNo is_label_byte is_alphanumeric
label-no_dot [] h = (tt, refl)
label-no_dot (c ∷ cs) h =
    let (first, rest) = &&-true (is_label_byte c) (all is_label_byte cs) h in
    let differs : c ≢ dot = ground (arith, first) in
    let test : (c == dot) ≡ false = ground (arith, first) in
    let (none_there, absent) = label-no_dot cs rest in ((differs, none_there), rw test absent)

pub label-host_bytes :
    (s t : Bytes)
    → all is_label_byte s ≡ true
    → all is_host_byte t ≡ true
    → all is_host_byte (s ++ t) ≡ true
unfolding is_host_byte
label-host_bytes [] t h k = k
label-host_bytes (c ∷ cs) t h k =
    let (first, rest) = &&-true (is_label_byte c) (all is_label_byte cs) h in
    rw (first, label-host_bytes cs t rest k) refl

pub ends-behind : (s t : Bytes) → (t == []) ≡ false → ends_with_dot (s ++ t) ≡ ends_with_dot t
unfolding ends_with_dot
ends-behind [] t n = refl
ends-behind (c ∷ []) t n = rw n refl
ends-behind (c ∷ d ∷ ds) t n = ends-behind (d ∷ ds) t n
