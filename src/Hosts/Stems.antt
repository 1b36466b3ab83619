-- ===== src/Hosts/Stems.antt =====
-- The stem of a site's host part: what its loop writes and what the trimming leaves.
use simple_host_enterprise.Common.{
  ℕ, zero, suc, ◌≡◌, refl, Bool, true, false, not, ◌&&◌, [], ◌∷◌, ◌++◌, Bytes, if◌then◌else◌, ◌==◌,
  ℕ_eq, List_eq, Bool-cases, &&-true, inl, inr, arith,
}
use simple_host_enterprise.Hosts.{
  dash, is_alphanumeric, ends_with_dash, write_byte, write_bytes, trim_dashes, take,
}

-- No dash behind a dash, nor at the start where `after_dash` says so, and nothing but letters, digits
-- and dashes.
unfoldable pub is_tidy : Bool → Bytes → Bool
is_tidy after_dash [] = true
is_tidy after_dash (c ∷ cs) =
    if c == dash then not after_dash && is_tidy true cs else is_alphanumeric c && is_tidy false cs

pub tidy-head :
    (d : Bool) (c : ℕ) (cs : Bytes)
    → (c == dash) ≡ true
    → is_tidy d (c ∷ cs) ≡ true
    → (d ≡ false) × (is_tidy true cs ≡ true)
unfolding is_tidy
tidy-head true c cs e h = cc (rw e at h)
tidy-head false c cs e h = (refl, rw e at h)

pub tidy-letter :
    (d : Bool) (c : ℕ) (cs : Bytes)
    → (c == dash) ≡ false
    → is_tidy d (c ∷ cs) ≡ true
    → (is_alphanumeric c ≡ true) × (is_tidy false cs ≡ true)
unfolding is_tidy
tidy-letter d c cs e h = &&-true (is_alphanumeric c) (is_tidy false cs) (rw e at h)

pub alphanumeric-not_dash : (c : ℕ) → is_alphanumeric c ≡ true → (c == dash) ≡ false
unfolding is_alphanumeric
alphanumeric-not_dash c h = ground (arith, h)

-- A letter or a digit may follow.
tidy-snoc :
    (d : Bool) (s : Bytes) (c : ℕ)
    → is_alphanumeric c ≡ true
    → is_tidy d s ≡ true
    → is_tidy d (s ++ c ∷ []) ≡ true
unfolding is_tidy
tidy-snoc d [] c a h = rw (alphanumeric-not_dash c a, a) refl
tidy-snoc d (x ∷ xs) c a h = elim (Bool-cases (x == dash)) [
  | inl e ↦ let (first, rest) = tidy-head d x xs e h in rw (e, first) (tidy-snoc true xs c a rest)
  | inr e ↦
      let (letter, rest) = tidy-letter d x xs e h in rw (e, letter) (tidy-snoc false xs c a rest)
]

-- A dash and then a tidy text may follow what does not end with a dash.
pub tidy-join :
    (d : Bool) (s t : Bytes)
    → (s == []) ≡ false
    → ends_with_dash s ≡ false
    → is_tidy d s ≡ true
    → is_tidy true t ≡ true
    → is_tidy d (s ++ dash ∷ t) ≡ true
unfolding is_tidy ends_with_dash
tidy-join d [] t n l h k = cc
tidy-join d (x ∷ []) t n l h k = let (letter, rest) = tidy-letter d x [] l h in rw (l, letter) k
tidy-join d (x ∷ y ∷ ys) t n l h k = elim (Bool-cases (x == dash)) [
  | inl e ↦
      let (first, rest) = tidy-head d x (y ∷ ys) e h in
      rw (e, first) (tidy-join true (y ∷ ys) t refl l rest k)
  | inr e ↦
      let (letter, rest) = tidy-letter d x (y ∷ ys) e h in
      rw (e, letter) (tidy-join false (y ∷ ys) t refl l rest k)
]

write_byte-tidy : (s : Bytes) (c : ℕ) → is_tidy true s ≡ true → is_tidy true (write_byte s c) ≡ true
unfolding write_byte is_tidy
write_byte-tidy s c h = elim (Bool-cases (is_alphanumeric c)) [
  | inl a ↦ rw a (tidy-snoc true s c a h)
  | inr a ↦ elim (Bool-cases (s == [])) [
    | inl e ↦ rw (a, e) h
    | inr e ↦ elim (Bool-cases (ends_with_dash s)) [
      | inl l ↦ rw (a, e, l) h
      | inr l ↦ rw (a, e, l) (tidy-join true s [] e l h refl)
    ]
  ]
]

pub write_bytes-tidy :
    (s cs : Bytes) → is_tidy true s ≡ true → is_tidy true (write_bytes s cs) ≡ true
unfolding write_bytes
write_bytes-tidy s [] h = h
write_bytes-tidy s (c ∷ cs) h = write_bytes-tidy (write_byte s c) cs (write_byte-tidy s c h)

pub trim_dashes-tidy :
    (d : Bool) (s : Bytes) → is_tidy d s ≡ true → is_tidy d (trim_dashes s) ≡ true
unfolding trim_dashes is_tidy
trim_dashes-tidy d [] h = refl
trim_dashes-tidy d (c ∷ cs) h = elim (Bool-cases (c == dash)) [
  | inl e ↦
      let (first, rest) = tidy-head d c cs e h in
      let kept = trim_dashes-tidy true cs rest in
      elim (Bool-cases (trim_dashes cs == [])) [
        | inl gone ↦ rw (e, gone) refl
        | inr there ↦ rw (e, there) (rw (e, first) kept)
      ]
  | inr e ↦
      let (letter, rest) = tidy-letter d c cs e h in
      rw e (rw (e, letter) (trim_dashes-tidy false cs rest))
]

pub trim_dashes-ends : (s : Bytes) → ends_with_dash (trim_dashes s) ≡ false
unfolding trim_dashes ends_with_dash
trim_dashes-ends [] = refl
trim_dashes-ends (c ∷ cs) = elim (Bool-cases (trim_dashes cs == [])) [
  | inl gone ↦ elim (Bool-cases (c == dash)) [
    | inl e ↦ rw (gone, e) refl
    | inr e ↦ rw (gone, e) (rw (gone) e)
  ]
  | inr there ↦ elim (Bool-cases (c == dash)) [
    | inl e ↦ rw (there, e) (rw there (trim_dashes-ends cs))
    | inr e ↦ rw (there, e) (rw there (trim_dashes-ends cs))
  ]
]

pub take-tidy : (n : ℕ) (d : Bool) (s : Bytes) → is_tidy d s ≡ true → is_tidy d (take n s) ≡ true
unfolding take is_tidy
take-tidy zero d s h = refl
take-tidy (suc n) d [] h = refl
take-tidy (suc n) d (c ∷ cs) h = elim (Bool-cases (c == dash)) [
  | inl e ↦ let (first, rest) = tidy-head d c cs e h in rw (e, first) (take-tidy n true cs rest)
  | inr e ↦
      let (letter, rest) = tidy-letter d c cs e h in rw (e, letter) (take-tidy n false cs rest)
]
