-- ===== src/Audit/Intact.antt =====
-- What an unbroken chain is, said without the loop of internal/audit/chain.go.
use simple_host_enterprise.Common.{
  ℕ, ◌+◌, ◌≤◌, ◌≡◌, ◌≢◌, ◌↔◌, refl, sym, ap, ◌∙◌, subst, Option, none, some, List, [], ◌∷◌, ◌++◌,
  arith, ℕ_eq, List_eq, ==_iff, Bytes, length, All, Result, ok, >>=-eq-ok, ok-injective,
  Option-cases, inl, inr,
}
use simple_host_enterprise.Audit.Numeric.{NumberError}
use simple_host_enterprise.Audit.Canonical.{ChainedEvent, canonical}
use simple_host_enterprise.Audit.Chain.{
  Walked, stop_or, report_of, ChainRow, ChainHead, ChainExpectation, Reason, ChainReport,
  check_event, check_hash, check_link, check_row, walk, check_end, verify_chain, first_seq_of,
}

-- The row names the one before it: the next number, and its hash.
abbrev pub Follows : Option ChainRow → ChainRow → Type 0
Follows none r = Unit
Follows (some last) r = (r.seq ≡ last.seq + 1) × (r.prev_hash ≡ last.hash)

abbrev pub AllFollow : Option ChainRow → List ChainRow → Type 0
AllFollow last [] = Unit
AllFollow last (r ∷ rows) = Follows last r × AllFollow (some r) rows

abbrev pub last_of : Option ChainRow → List ChainRow → Option ChainRow
last_of last [] = last
last_of last (r ∷ rows) = last_of (some r) rows

-- The head is the last row; where no row was ever written its number is 0.
abbrev pub EndsAt : ChainHead → Option ChainRow → Type 0
EndsAt head none = head.seq ≡ 0
EndsAt head (some r) = (r.seq ≡ head.seq) × (r.hash ≡ head.hash)

-- The row kept outside the database is unchanged.
abbrev pub MeetsExpectation : ChainExpectation → ChainRow → Type 0
MeetsExpectation expect r = expect.seq ≢ 0 → r.seq ≡ expect.seq → r.hash ≡ expect.hash

module _ (sha256 : Bytes → Bytes) where
  -- The event is there and its canonical form behind the previous hash gives the row's hash.
  pub record IsGenuine (r : ChainRow) : Type 0 where
    pub event : ChainedEvent
    pub bytes : Bytes
    pub present : r.event ≡ some event
    pub canonical_form : canonical event ≡ ok bytes
    pub hashed : sha256 (r.prev_hash ++ bytes) ≡ r.hash

  pub record IsIntact (expect : ChainExpectation) (head : ChainHead) (rows : List ChainRow)
      : Type 0 where
    pub linked : AllFollow none rows
    pub genuine : All IsGenuine rows
    pub expected : All (MeetsExpectation expect) rows
    pub reached : expect.seq ≤ head.seq
    pub ends : EndsAt head (last_of none rows)

check_link_iff :
    (last : Option ChainRow) (r : ChainRow) → (check_link last r ≡ none) ↔ Follows last r
unfolding check_link
check_link_iff none r = (λ h. tt, λ h. refl)
check_link_iff (some last) r =
    ground (arith, ==_iff r.seq (last.seq + 1), ==_iff r.prev_hash last.hash)

check_end_iff :
    (expect : ChainExpectation) (head : ChainHead) (last : Option ChainRow)
    → (check_end expect head last ≡ none) ↔ ((expect.seq ≤ head.seq) × EndsAt head last)
unfolding check_end
check_end_iff expect head none = ground (arith, ==_iff head.seq 0)
check_end_iff expect head (some r) = ground (arith, ==_iff r.seq head.seq, ==_iff r.hash head.hash)

none_is_some : {A : Type 0} {a : A} → ◌≡◌ {A = Option A} (some a) none → ⊥
none_is_some h = cc

stop_or-passes :
    (n : ℕ) (last end : Option ChainRow) (k : ℕ) (r : ChainRow) (found : Option Reason)
    (rest : Result NumberError Walked)
    → stop_or n last r found rest ≡ ok (k, end, none)
    → (found ≡ none) × (rest ≡ ok (k, end, none))
stop_or-passes n last end k r none rest h = (refl, h)
stop_or-passes n last end k r (some reason) rest h = cc

report_of-unbroken :
    (expect : ChainExpectation) (head : ChainHead) (first : ℕ) (w : Walked)
    → (report_of expect head first w).break ≡ none
    → (check_end expect head w.1 ≡ none) × (w.2 ≡ none)
report_of-unbroken expect head first (n, last, none) h = (h, refl)
report_of-unbroken expect head first (n, last, some (r, reason)) h = cc

end_of : (w : Walked) → w.2 ≡ none → w ≡ (w.0, w.1, none)
end_of (n, last, failed) h = ap (λ f. (n, last, f)) h

module _ (sha256 : Bytes → Bytes) (expect : ChainExpectation) where
  check_hash_iff :
      (r : ChainRow) (b : Bytes)
      → (check_hash sha256 expect r b ≡ none)
        ↔ ((sha256 (r.prev_hash ++ b) ≡ r.hash) × MeetsExpectation expect r)
  unfolding check_hash
  check_hash_iff r b = ground (
    arith,
    ==_iff (sha256 (r.prev_hash ++ b)) r.hash,
    ==_iff expect.seq 0,
    ==_iff r.seq expect.seq,
    ==_iff r.hash expect.hash,
  )

  check_event-IsGenuine :
      (r : ChainRow)
      → check_event sha256 expect r ≡ ok none
      → IsGenuine sha256 r × MeetsExpectation expect r
  unfolding check_event
  check_event-IsGenuine r h = elim (Option-cases r.event) [
    | inl p ↦ absurd (none_is_some (ok-injective (rw (p, check_event) at h)))
    | inr (e, p) ↦
        let (b, form, passed) = >>=-eq-ok (canonical e) _ (rw (p, check_event) at h) in
        let (same, meets) = (check_hash_iff r b).0 (ok-injective passed) in
        (record { event = e; bytes = b; present = p; canonical_form = form; hashed = same }, meets)
  ]

  genuine-check_event :
      (r : ChainRow)
      → IsGenuine sha256 r
      → MeetsExpectation expect r
      → check_event sha256 expect r ≡ ok none
  unfolding check_event
  genuine-check_event r g m =
      rw (g.present, g.canonical_form, check_event)
        (ap ok ((check_hash_iff r g.bytes).1 (g.hashed, m)))

  check_row-passes :
      (last : Option ChainRow) (r : ChainRow)
      → check_row sha256 expect last r ≡ ok none
      → Follows last r × IsGenuine sha256 r × MeetsExpectation expect r
  unfolding check_row
  check_row-passes last r h = elim (Option-cases (check_link last r)) [
    | inr (reason, p) ↦ absurd (none_is_some (ok-injective (rw (p, check_row) at h)))
    | inl p ↦
        let (genuine, meets) = check_event-IsGenuine r (rw (p, check_row) at h) in
        ((check_link_iff last r).0 p, genuine, meets)
  ]

  passes-check_row :
      (last : Option ChainRow) (r : ChainRow)
      → Follows last r
      → IsGenuine sha256 r
      → MeetsExpectation expect r
      → check_row sha256 expect last r ≡ ok none
  unfolding check_row
  passes-check_row last r f g m =
      rw ((check_link_iff last r).1 f, check_row) (genuine-check_event r g m)

  -- The loop finds no failure only past every row.
  walk-passes :
      (n : ℕ) (last end : Option ChainRow) (k : ℕ) (rows : List ChainRow)
      → walk sha256 expect n last rows ≡ ok (k, end, none)
      → AllFollow last rows
        × All (IsGenuine sha256) rows
        × All (MeetsExpectation expect) rows
        × (end ≡ last_of last rows)
  unfolding walk
  walk-passes n last end k [] h = (tt, tt, tt, sym (ap (λ (x : Walked). x.1) (ok-injective h)))
  walk-passes n last end k (r ∷ rows) h =
      let (found, row, rest) = >>=-eq-ok (check_row sha256 expect last r) _ h in
      let (fine, further) = stop_or-passes n last end k r found _ rest in
      let (follows, genuine, meets) = check_row-passes last r (row ∙ ap ok fine) in
      let (linked, all_genuine, all_meet, ends) = walk-passes (n + 1) (some r) end k rows further in
      ((follows, linked), (genuine, all_genuine), (meets, all_meet), ends)

  passes-walk :
      (n : ℕ) (last : Option ChainRow) (rows : List ChainRow)
      → AllFollow last rows
      → All (IsGenuine sha256) rows
      → All (MeetsExpectation expect) rows
      → walk sha256 expect n last rows ≡ ok (n + length rows, last_of last rows, none)
  unfolding walk
  passes-walk n last [] f g m = ap (λ k. ok (k, last, none)) (omega arith)
  passes-walk n last (r ∷ rows) f g m = rw (passes-check_row last r f.0 g.0 m.0) (
      passes-walk (n + 1) (some r) rows f.1 g.1 m.1
      ∙ ap (λ k. ok (k, last_of (some r) rows, none)) (omega arith))

  verified-IsIntact :
      (head : ChainHead) (rows : List ChainRow)
      → ((report : ChainReport) × (verify_chain sha256 expect head rows ≡ ok report)
          × (report.break ≡ none))
      → IsIntact sha256 expect head rows
  unfolding verify_chain
  verified-IsIntact head rows (report, h, unbroken) =
      let (walked, passed, shape) = >>=-eq-ok (walk sha256 expect 0 none rows) _ h in
      let (end, finished) =
        report_of-unbroken expect head (first_seq_of rows) walked
          (ap (λ (x : ChainReport). x.break) (ok-injective shape) ∙ unbroken) in
      let (linked, genuine, expected, last) =
        walk-passes 0 none walked.1 walked.0 rows (passed ∙ ap ok (end_of walked finished)) in
      let (reached, ends) = (check_end_iff expect head walked.1).0 end in
      record {
        linked = linked;
        genuine = genuine;
        expected = expected;
        reached = reached;
        ends = subst (EndsAt head) last ends;
      }

  IsIntact-verified :
      (head : ChainHead) (rows : List ChainRow)
      → IsIntact sha256 expect head rows
      → (report : ChainReport) × (verify_chain sha256 expect head rows ≡ ok report)
        × (report.break ≡ none)
  unfolding verify_chain
  IsIntact-verified head rows h =
      let walked = passes-walk 0 none rows h.linked h.genuine h.expected in
      (
        report_of expect head (first_seq_of rows) (0 + length rows, last_of none rows, none),
        rw walked refl,
        (check_end_iff expect head (last_of none rows)).1 (h.reached, h.ends),
      )

  -- The chain verifies without a break exactly when it is intact: every row has the number after the
  -- one before it and names its hash, has its event, and hashes to what is stored; the row kept
  -- outside the database is unchanged and not beyond the head; and the head is the last row.
  pub verify_chain_iff :
      (head : ChainHead) (rows : List ChainRow)
      → ((report : ChainReport) × (verify_chain sha256 expect head rows ≡ ok report)
          × (report.break ≡ none))
        ↔ IsIntact sha256 expect head rows
  verify_chain_iff head rows = (verified-IsIntact head rows, IsIntact-verified head rows)
