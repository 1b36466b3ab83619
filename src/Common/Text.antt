-- ===== src/Common/Text.antt =====
-- What the source uses of Go's package `strings`, over texts as lists of bytes.
use mathlib.Core.Path.{◌≡◌, refl, sym, ap}
use mathlib.Core.Logic.{◌≢◌, inl, inr}
use mathlib.Core.Bool.{Bool, true, false, ◌&&◌, ◌||◌}
use mathlib.Core.Option.{Option, none, some, some-injective}
use mathlib.Core.List.{[], ◌∷◌, ◌++◌, reverse}
use native.Mathlib.Omega.{arith}
use Prim.Native.Nat.{ℕ, ◌+◌}
use simple_host_enterprise.Common.Tests.{
  ℕ_eq, List_eq, ◌==◌, ==_iff, leb, if◌then◌else◌, Bool-cases,
}
use simple_host_enterprise.Common.Lists.{Bytes, All, length, length-append}

-- `strings.HasPrefix(s, p)`, with the prefix first.
unfoldable pub has_prefix : Bytes → Bytes → Bool
has_prefix [] s = true
has_prefix (c ∷ p) [] = false
has_prefix (c ∷ p) (d ∷ s) = c == d && has_prefix p s

-- `strings.CutPrefix(s, p)`, with the prefix first.
unfoldable pub cut_prefix : Bytes → Bytes → Option Bytes
cut_prefix [] s = some s
cut_prefix (c ∷ p) [] = none
cut_prefix (c ∷ p) (d ∷ s) = if c == d then cut_prefix p s else none

-- `strings.HasSuffix(s, p)`, with the suffix first.
unfoldable pub has_suffix : Bytes → Bytes → Bool
unfolding has_prefix
has_suffix p s = has_prefix (reverse p) (reverse s)

-- `strings.Contains(s, p)`, with the part first.
unfoldable pub contains : Bytes → Bytes → Bool
unfolding has_prefix
contains p [] = has_prefix p []
contains p (c ∷ s) = has_prefix p (c ∷ s) || contains p s

-- What `strings.Cut(s, sep)` returns as the part behind a separator of one byte; it is empty where
-- the separator does not occur.
unfoldable pub after_byte : ℕ → Bytes → Bytes
after_byte sep [] = []
after_byte sep (c ∷ s) = if c == sep then s else after_byte sep s

-- A letter in lower case.
unfoldable pub lower_byte : ℕ → ℕ
lower_byte c = if leb 65 c && leb c 90 then c + 32 else c

-- `strings.Cut(s, sep)` with a separator of one byte; `none` where it does not occur.
unfoldable pub cut_byte : ℕ → Bytes → Option (Bytes × Bytes)
cut_byte sep [] = none
cut_byte sep (c ∷ cs) =
    let rest = cut_byte sep cs in
    if c == sep then some ([], cs) else elim rest [ none ↦ none | some p ↦ some (c ∷ p.0, p.1) ]

-- The byte does not occur.
unfoldable pub HasNo : ℕ → Bytes → Type 0
HasNo sep = All (λ c. c ≢ sep)

pub cut_byte-append :
    (sep : ℕ) (xs ys : Bytes) → HasNo sep xs → cut_byte sep (xs ++ sep ∷ ys) ≡ some (xs, ys)
unfolding cut_byte HasNo
cut_byte-append sep [] ys h = rw ((==_iff sep sep).1 refl) refl
cut_byte-append sep (c ∷ cs) ys (d, h) =
    let other : (c == sep) ≡ false = ground (arith, d) in
    rw (other, cut_byte-append sep cs ys h) refl

-- The text in front of the suffix, where it ends with it.
unfoldable pub trim_suffix : Bytes → Bytes → Option Bytes
trim_suffix suffix [] = if suffix == [] then some [] else none
trim_suffix suffix (c ∷ cs) =
    let rest = trim_suffix suffix cs in
    if c ∷ cs == suffix then some [] else elim rest [ none ↦ none | some s ↦ some (c ∷ s) ]

pub cut_prefix-some : (p s r : Bytes) → cut_prefix p s ≡ some r → s ≡ p ++ r
unfolding cut_prefix
cut_prefix-some [] s r h = some-injective s r h
cut_prefix-some (c ∷ p) [] r h = cc
cut_prefix-some (c ∷ p) (d ∷ s) r h = elim (Bool-cases (c == d)) [
  | inl e ↦ rw (sym ((==_iff c d).0 e), cut_prefix-some p s r (rw e at h)) refl
  | inr e ↦ cc (rw e at h)
]

pub append_assoc : (xs ys zs : Bytes) → (xs ++ ys) ++ zs ≡ xs ++ (ys ++ zs)
append_assoc [] ys zs = refl
append_assoc (x ∷ xs) ys zs = rw (append_assoc xs ys zs) refl

pub longer-differs : (c : ℕ) (xs ys : Bytes) → (c ∷ (xs ++ ys) == ys) ≡ false
longer-differs c xs ys = elim (Bool-cases (c ∷ (xs ++ ys) == ys)) [
  | inr e ↦ e
  | inl e ↦
      let same = ap length ((==_iff (c ∷ (xs ++ ys)) ys).0 e) in
      absurd (omega (arith, same, length-append xs ys))
]

pub trim_suffix-append :
    (suffix xs : Bytes) (c : ℕ) → trim_suffix (c ∷ suffix) (xs ++ c ∷ suffix) ≡ some xs
unfolding trim_suffix
trim_suffix-append suffix [] c = rw ((==_iff (c ∷ suffix) (c ∷ suffix)).1 refl) refl
trim_suffix-append suffix (x ∷ xs) c =
    rw (longer-differs x xs (c ∷ suffix), trim_suffix-append suffix xs c) refl
