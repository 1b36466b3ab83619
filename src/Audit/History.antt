-- ===== src/Audit/History.antt =====
-- The chain as it is written: the trigger appends, a prune trims. Both keep it unbroken.
use simple_host_enterprise.Common.{
  ℕ, zero, suc, ◌≡◌, ◌≢◌, ◌⊎◌, refl, sym, subst, none, some, List, [], ◌∷◌, ◌++◌, arith, ℕ_eq,
  List_eq, ==_iff, Bytes, All-append, Result, ok, err, inl, inr,
}
use simple_host_enterprise.Audit.Numeric.{NumberError}
use simple_host_enterprise.Audit.Canonical.{ChainedEvent}
use simple_host_enterprise.Audit.Chain.{
  ChainRow, ChainHead, ChainReport, empty_chain, verify_chain, walk, check_end, report_of,
  delete_to, last_older, trim_chain, append_event,
}
use simple_host_enterprise.Audit.Intact.{last_of, EndsAt, IsIntact, verify_chain_iff}
use simple_host_enterprise.Audit.Trimming.{
  no_expectation, AllFollow-append, last_of-append, Follows-head, nothing_expected, append-shape,
  trim_chain-IsIntact,
}

-- The chain with its head, and what happens to it: an event is inserted, or a prune runs.
abbrev pub Table : Type 0
Table = ChainHead × List ChainRow

pub data Change : Type 0 where
  append : ℕ → ℕ → ChainedEvent → Change
  prune : ℕ → Change

abbrev pub zero_bytes : ℕ → Bytes
zero_bytes zero = []
zero_bytes (suc n) = 0 ∷ zero_bytes n

-- The tables as the migration creates them.
abbrev pub fresh : Table
fresh = (record { seq = 0; hash = zero_bytes 32 }, [])

-- An insert whose trigger fails is rolled back.
unfoldable pub change : (Bytes → Bytes) → Change → Table → Table
change sha256 (append id at e) (head, rows) = elim (append_event sha256 id at e head) [
  | ok (next, r) ↦ (next, rows ++ (r ∷ []))
  | err _ ↦ (head, rows)
]
change sha256 (prune cutoff) (head, rows) = (head, trim_chain cutoff rows)

unfoldable pub change_all : (Bytes → Bytes) → List Change → Table → Table
change_all sha256 [] t = t
change_all sha256 (c ∷ cs) t = change_all sha256 cs (change sha256 c t)

Result-cases :
    {A : Type 0} (r : Result NumberError A)
    → ((x : A) × (r ≡ ok x)) ⊎ ((e : NumberError) × (r ≡ err e))
Result-cases (ok x) = inl (x, refl)
Result-cases (err e) = inr (e, refl)

check_end-emptied :
    (head : ChainHead)
    → (check_end no_expectation head none ≡ none)
      ⊎ ((head.seq ≢ 0)
          × (check_end no_expectation head none
              ≡ some (record { seq = head.seq; event_id = none; reason = empty_chain })))
unfolding check_end
check_end-emptied head = ground (arith, ==_iff head.seq 0)

trim-nothing : (cutoff : ℕ) → trim_chain cutoff [] ≡ []
unfolding trim_chain delete_to last_older
trim-nothing cutoff = refl

module _ (sha256 : Bytes → Bytes) where
  IsUnbroken : Table → Type 0
  IsUnbroken (head, rows) = (rows ≡ []) ⊎ IsIntact sha256 no_expectation head rows

  appended-IsIntact :
      (id at : ℕ) (e : ChainedEvent) (head : ChainHead) (rows : List ChainRow)
      (x : ChainHead × ChainRow)
      → append_event sha256 id at e head ≡ ok x
      → IsUnbroken (head, rows)
      → IsIntact sha256 no_expectation x.0 (rows ++ (x.1 ∷ []))
  unfolding IsUnbroken
  appended-IsIntact id at e head rows x h u =
      let (genuine, seq, prev, new_seq, new_hash) = append-shape sha256 id at e head x h in
      let ends : EndsAt x.0 (some x.1) = (sym new_seq, sym new_hash) in
      elim u [
        | inl p ↦
            subst (λ (rs : List ChainRow). IsIntact sha256 no_expectation x.0 (rs ++ (x.1 ∷ [])))
              (sym p)
              (record {
                linked = (tt, tt);
                genuine = (genuine, tt);
                expected = nothing_expected (x.1 ∷ []);
                reached = omega arith;
                ends = ends;
              })
        | inr i ↦ record {
          linked =
              AllFollow-append none rows x.1 i.linked
                (Follows-head head (last_of none rows) x.1 i.ends seq prev);
          genuine = All-append _ rows (x.1 ∷ []) i.genuine (genuine, tt);
          expected = nothing_expected (rows ++ (x.1 ∷ []));
          reached = omega arith;
          ends = subst (EndsAt x.0) (sym (last_of-append none rows x.1)) ends;
        }
      ]

  empty-or : (rows : List ChainRow) → (rows ≡ []) ⊎ (rows ≢ [])
  empty-or [] = inl refl
  empty-or (r ∷ rows) = inr (λ h. cc)

  change-IsUnbroken : (c : Change) (t : Table) → IsUnbroken t → IsUnbroken (change sha256 c t)
  unfolding change IsUnbroken
  change-IsUnbroken (append id at e) (head, rows) u =
      elim (Result-cases (append_event sha256 id at e head)) [
        | inl (x, h) ↦ rw (h, change) (inr (appended-IsIntact id at e head rows x h u))
        | inr (n, h) ↦ rw (h, change) u
      ]
  change-IsUnbroken (prune cutoff) (head, rows) u = elim (empty-or (trim_chain cutoff rows)) [
    | inl e ↦ inl e
    | inr left ↦ elim u [
      | inr i ↦ inr (trim_chain-IsIntact sha256 no_expectation head rows cutoff i left)
      | inl e ↦
          absurd (left (subst (λ rs. trim_chain cutoff rs ≡ []) (sym e) (trim-nothing cutoff)))
    ]
  ]

  all-IsUnbroken :
      (cs : List Change) (t : Table) → IsUnbroken t → IsUnbroken (change_all sha256 cs t)
  unfolding change_all
  all-IsUnbroken [] t u = u
  all-IsUnbroken (c ∷ cs) t u = all-IsUnbroken cs (change sha256 c t) (change-IsUnbroken c t u)

  -- The verdict on a table: no break, or that of an emptied chain.
  abbrev pub Verdict : Table → ChainReport → Type 0
  Verdict (head, rows) report =
      (report.break ≡ none)
      ⊎ ((rows ≡ [])
          × (head.seq ≢ 0)
          × (report.break
              ≡ some (record { seq = head.seq; event_id = none; reason = empty_chain })))

  emptied :
      (head : ChainHead)
      → (report : ChainReport) × (verify_chain sha256 no_expectation head [] ≡ ok report)
        × Verdict (head, []) report
  unfolding verify_chain walk check_end
  emptied head = (
    report_of no_expectation head 0 (0, none, none),
    refl,
    elim (check_end-emptied head) [ inl z ↦ inl z | inr (nonzero, z) ↦ inr (refl, nonzero, z) ],
  )

  verdict :
      (t : Table)
      → IsUnbroken t
      → (report : ChainReport) × (verify_chain sha256 no_expectation t.0 t.1 ≡ ok report)
        × Verdict t report
  unfolding IsUnbroken
  verdict (head, rows) (inr i) =
      let (report, h, unbroken) = (verify_chain_iff sha256 no_expectation head rows).1 i in
      (report, h, inl unbroken)
  verdict (head, rows) (inl e) =
      subst
        (λ rs.
          (report : ChainReport) × (verify_chain sha256 no_expectation head rs ≡ ok report)
          × Verdict (head, rs) report)
        (sym e) (emptied head)

  -- However the chain was written, by events inserted and prunes in any order, its check gives a
  -- report, and the report names no break, unless the prunes have deleted every row: then, if any row
  -- was ever written, it says that the chain is empty.
  pub history_verifies :
      (cs : List Change)
      → (report : ChainReport) × (verify_chain sha256 no_expectation
            (change_all sha256 cs fresh).0
            (change_all sha256 cs fresh).1
          ≡ ok report)
        × Verdict (change_all sha256 cs fresh) report
  unfolding IsUnbroken
  history_verifies cs = verdict (change_all sha256 cs fresh) (all-IsUnbroken cs fresh (inl refl))
