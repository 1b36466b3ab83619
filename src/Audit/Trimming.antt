-- ===== src/Audit/Trimming.antt =====
-- A prune and an append keep the chain: what each leaves of the rows.
use simple_host_enterprise.Common.{
  ℕ, ◌+◌, ◌≤◌, ◌<◌, ◌≡◌, ◌≢◌, ◌⊎◌, refl, sym, ap, ◌∙◌, subst, false, Option, none, some, List, [],
  ◌∷◌, ◌++◌, arith, ℕ_eq, List_eq, leb, Bytes, All, ok, >>=-eq-ok, ok-injective, Bool-cases, inl,
  inr,
}
use simple_host_enterprise.Audit.Canonical.{ChainedEvent, canonical}
use simple_host_enterprise.Audit.Chain.{
  ChainRow, ChainHead, ChainExpectation, delete_to, last_older, trim_chain, append_event,
}
use simple_host_enterprise.Audit.Intact.{
  Follows, AllFollow, last_of, EndsAt, MeetsExpectation, IsGenuine, IsIntact,
}

-- Nothing is expected.
abbrev pub no_expectation : ChainExpectation
no_expectation = record { seq = 0; hash = [] }

pub AllFollow-append :
    (last : Option ChainRow) (rows : List ChainRow) (r : ChainRow)
    → AllFollow last rows
    → Follows (last_of last rows) r
    → AllFollow last (rows ++ (r ∷ []))
AllFollow-append last [] r f g = (g, tt)
AllFollow-append last (q ∷ rows) r f g = (f.0, AllFollow-append (some q) rows r f.1 g)

pub last_of-append :
    (last : Option ChainRow) (rows : List ChainRow) (r : ChainRow)
    → last_of last (rows ++ (r ∷ [])) ≡ some r
last_of-append last [] r = refl
last_of-append last (q ∷ rows) r = last_of-append (some q) rows r

pub Follows-head :
    (head : ChainHead) (last : Option ChainRow) (r : ChainRow)
    → EndsAt head last
    → r.seq ≡ head.seq + 1
    → r.prev_hash ≡ head.hash
    → Follows last r
Follows-head head none r e s p = tt
Follows-head head (some q) r e s p = (s ∙ ap (λ n. n + 1) (sym e.0), p ∙ sym e.1)

pub nothing_expected : (rows : List ChainRow) → All (MeetsExpectation no_expectation) rows
nothing_expected [] = tt
nothing_expected (r ∷ rows) = (λ n e. absurd (n refl), nothing_expected rows)

later : (a b : ℕ) → b < a → leb a b ≡ false
later a b h = ground arith

sooner : (a b : ℕ) → leb a b ≡ false → b ≤ a
sooner a b h = ground arith

-- The rows that go are the first ones.
kept_all :
    (n : ℕ) (last : ChainRow) (rows : List ChainRow)
    → AllFollow (some last) rows
    → n ≤ last.seq
    → delete_to n rows ≡ rows
unfolding delete_to
kept_all n last [] f h = refl
kept_all n last (r ∷ rows) ((next, prev), rest) h =
    rw (kept_all n r rows rest (omega arith), later r.seq n (omega arith)) refl

-- What is left of the rows is nothing, or ends where they end.
abbrev EndsLike : Option ChainRow → List ChainRow → List ChainRow → Type 0
EndsLike last rows kept =
    (kept ≡ [])
    ⊎ ((q : ChainRow) × (ks : List ChainRow) × (kept ≡ q ∷ ks)
        × AllFollow (some q) ks
        × (last_of (some q) ks ≡ last_of last rows))

delete_to-ends :
    (n : ℕ) (last : Option ChainRow) (rows : List ChainRow)
    → AllFollow last rows
    → EndsLike last rows (delete_to n rows)
unfolding delete_to
delete_to-ends n last [] f = inl refl
delete_to-ends n last (r ∷ rows) f = elim (Bool-cases (leb r.seq n)) [
  | inl e ↦ rw e (delete_to-ends n (some r) rows f.1)
  | inr e ↦ inr (r, rows, rw (kept_all n r rows f.1 (sooner r.seq n e), e) refl, f.1, refl)
]

delete_to-All :
    (P : ChainRow → Type 0) (n : ℕ) (rows : List ChainRow) → All P rows → All P (delete_to n rows)
unfolding delete_to
delete_to-All P n [] h = tt
delete_to-All P n (r ∷ rows) h = elim (Bool-cases (leb r.seq n)) [
  | inl e ↦ rw e (delete_to-All P n rows h.1)
  | inr e ↦ rw e (h.0, delete_to-All P n rows h.1)
]

module _ (sha256 : Bytes → Bytes) where
  trim-keeps :
      (expect : ChainExpectation) (head : ChainHead) (rows : List ChainRow) (n : ℕ)
      → IsIntact sha256 expect head rows
      → delete_to n rows ≢ []
      → IsIntact sha256 expect head (delete_to n rows)
  trim-keeps expect head rows n h some_left = elim (delete_to-ends n none rows h.linked) [
    | inl e ↦ absurd (some_left e)
    | inr (q, ks, e, f, l) ↦ record {
      linked = subst (AllFollow none) (sym e) (tt, f);
      genuine = delete_to-All _ n rows h.genuine;
      expected = delete_to-All _ n rows h.expected;
      reached = h.reached;
      ends = subst (λ x. EndsAt head (last_of none x)) (sym e) (subst (EndsAt head) (sym l) h.ends);
    }
  ]

  -- A prune keeps an intact chain intact: whatever the cutoff, if any row is left then the rows
  -- that are left are intact, with the same head and the same expectation.
  pub trim_chain-IsIntact :
      (expect : ChainExpectation) (head : ChainHead) (rows : List ChainRow) (cutoff : ℕ)
      → IsIntact sha256 expect head rows
      → trim_chain cutoff rows ≢ []
      → IsIntact sha256 expect head (trim_chain cutoff rows)
  unfolding trim_chain
  trim_chain-IsIntact expect head rows cutoff h left =
      trim-keeps expect head rows (last_older cutoff rows) h left

  -- What the trigger did, where it did not fail.
  pub append-shape :
      (id at : ℕ) (e : ChainedEvent) (head : ChainHead) (x : ChainHead × ChainRow)
      → append_event sha256 id at e head ≡ ok x
      → IsGenuine sha256 x.1
        × (x.1.seq ≡ head.seq + 1)
        × (x.1.prev_hash ≡ head.hash)
        × (x.0.seq ≡ x.1.seq)
        × (x.0.hash ≡ x.1.hash)
  unfolding append_event
  append-shape id at e head x h =
      let (b, form, shape) = >>=-eq-ok (canonical e) _ h in
      let made = ok-injective shape in
      subst
        (λ (y : ChainHead × ChainRow).
          IsGenuine sha256 y.1
          × (y.1.seq ≡ head.seq + 1)
          × (y.1.prev_hash ≡ head.hash)
          × (y.0.seq ≡ y.1.seq)
          × (y.0.hash ≡ y.1.hash))
        made
        (
          record { event = e; bytes = b; present = refl; canonical_form = form; hashed = refl },
          refl,
          refl,
          refl,
          refl,
        )
