-- ===== src/Policy/Rules.antt =====
-- What `Check` accepts, stated without its loop and its order of tests.
use simple_host_enterprise.Common.{ℕ, ◌≤◌, ◌≡◌, ◌≢◌, ◌↔◌, refl, true, false, none, some, arith, ltb}
use simple_host_enterprise.Policy.{
  Who, Who_eq, who_eq_iff, nobody, owner, own, signed_in, anyone, unset, other, actions, Matrix,
  get, rank, is_valid, wider, uses_own, first_invalid, check_rules, check,
}

-- How far a value opens an action.
abbrev pub width : Who → ℕ
width nobody = 0
width owner = 1
width own = 2
width signed_in = 3
width anyone = 4
width unset = 0
width (other _) = 0

abbrev pub IsKnown : Who → Type 0
IsKnown unset = ⊥
IsKnown (other _) = ⊥
IsKnown _ = Unit

pub record IsAllowed (m : Matrix) : Type 0 where
  pub read_known : IsKnown m.read
  pub add_known : IsKnown m.add
  pub edit_known : IsKnown m.edit
  pub delete_known : IsKnown m.delete
  pub edit_signed_in : m.edit ≢ anyone
  pub delete_signed_in : m.delete ≢ anyone
  pub add_not_own : m.add ≢ own
  pub own_needs_adder : m.add ≡ anyone → (m.read ≢ own) × (m.edit ≢ own) × (m.delete ≢ own)
  pub edit_sees : width m.edit ≤ width m.read
  pub delete_sees : width m.delete ≤ width m.read

pub is_valid→IsKnown : (w : Who) → is_valid w ≡ true → IsKnown w
unfolding is_valid
is_valid→IsKnown unset h = cc
is_valid→IsKnown (other s) h = cc
is_valid→IsKnown _ h = tt

pub IsKnown→is_valid : (w : Who) → IsKnown w → is_valid w ≡ true
unfolding is_valid
IsKnown→is_valid unset h = absurd h
IsKnown→is_valid (other s) h = absurd h
IsKnown→is_valid _ h = refl

rank-width : (w : Who) → IsKnown w → rank w ≡ some (width w)
unfolding rank
rank-width unset h = absurd h
rank-width (other s) h = absurd h
rank-width _ h = refl

-- Between known values, the test `wider` compares widths.
pub wider-width : (a b : Who) → IsKnown a → IsKnown b → wider a b ≡ ltb (width b) (width a)
unfolding wider
wider-width a b ha hb = rw (rank-width a ha, rank-width b hb)

module _ (m : Matrix) where
  first_invalid-none :
      first_invalid m actions ≡ none
      → IsKnown m.read × IsKnown m.add × IsKnown m.edit × IsKnown m.delete
  unfolding first_invalid get
  first_invalid-none h = ground (
    arith,
    is_valid→IsKnown m.read,
    is_valid→IsKnown m.add,
    is_valid→IsKnown m.edit,
    is_valid→IsKnown m.delete,
  )

  first_invalid-known :
      IsKnown m.read
      → IsKnown m.add
      → IsKnown m.edit
      → IsKnown m.delete
      → first_invalid m actions ≡ none
  unfolding first_invalid get
  first_invalid-known r a e d = rw (
    IsKnown→is_valid m.read r,
    IsKnown→is_valid m.add a,
    IsKnown→is_valid m.edit e,
    IsKnown→is_valid m.delete d,
  )

  uses_own-false : uses_own m ≡ false → (m.read ≢ own) × (m.edit ≢ own) × (m.delete ≢ own)
  unfolding uses_own
  uses_own-false h = ground (
    arith,
    who_eq_iff m.read own,
    who_eq_iff m.add own,
    who_eq_iff m.edit own,
    who_eq_iff m.delete own,
  )

  uses_own-true :
      m.add ≢ own → (m.read ≢ own) × (m.edit ≢ own) × (m.delete ≢ own) → uses_own m ≡ false
  unfolding uses_own
  uses_own-true ha h = ground (
    arith,
    who_eq_iff m.read own,
    who_eq_iff m.add own,
    who_eq_iff m.edit own,
    who_eq_iff m.delete own,
  )

  module _ (r : IsKnown m.read) (a : IsKnown m.add) (e : IsKnown m.edit)
      (d : IsKnown m.delete) where
    check_rules-none : check_rules m ≡ none → IsAllowed m
    unfolding check_rules
    check_rules-none h = record {
      read_known = r;
      add_known = a;
      edit_known = e;
      delete_known = d;
      edit_signed_in = ground (arith, who_eq_iff m.edit anyone);
      delete_signed_in = ground (arith, who_eq_iff m.delete anyone);
      add_not_own = ground (arith, who_eq_iff m.add own);
      own_needs_adder = λ p. uses_own-false (ground (arith, who_eq_iff m.add anyone));
      edit_sees = ground (arith, wider-width m.edit m.read e r);
      delete_sees = ground (arith, wider-width m.delete m.read d r);
    }

  check_rules-allowed : IsAllowed m → check_rules m ≡ none
  unfolding check_rules
  check_rules-allowed h = ground (
    arith,
    who_eq_iff m.edit anyone,
    who_eq_iff m.delete anyone,
    who_eq_iff m.add own,
    who_eq_iff m.add anyone,
    uses_own-true h.add_not_own,
    h.own_needs_adder,
    wider-width m.edit m.read h.edit_known h.read_known,
    wider-width m.delete m.read h.delete_known h.read_known,
  )

-- `Check` returns nil exactly for the matrices whose four values are known, that let nobody without
-- a sign-in edit or delete, never add `own`, use `own` only where an adder is known, and let nobody
-- edit or delete what the value of `read` hides.
pub check_iff : (m : Matrix) → (check m ≡ none) ↔ IsAllowed m
unfolding check
check_iff m = (to, from)
  where
    to : check m ≡ none → IsAllowed m
    to h =
        let (r, a, e, d) = first_invalid-none m (ground arith) in
        check_rules-none m r a e d (ground arith)

    from : IsAllowed m → check m ≡ none
    from h =
        rw (first_invalid-known m h.read_known h.add_known h.edit_known h.delete_known, check)
          (check_rules-allowed m h)
