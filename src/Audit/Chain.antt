-- ===== src/Audit/Chain.antt =====
-- internal/audit/chain.go: the check of the hash chain, the trim after a prune, and the trigger that
-- appends (internal/migrate/sql/0036_audit_chain.sql). The tables are lists in the order of `seq`.
-- The digest `sha256` is a parameter. Errors of the database are not modelled.
use simple_host_enterprise.Common.{
  ℕ, ◌+◌, ◌-◌, Bool, false, ◌&&◌, ◌||◌, not, Option, none, some, List, [], ◌∷◌, ◌++◌, ℕ_eq, List_eq,
  ◌==◌, leb, ltb, if◌then◌else◌, Bytes, Result, ok, ◌>>=◌,
}
use simple_host_enterprise.Audit.Numeric.{NumberError}
use simple_host_enterprise.Audit.Canonical.{ChainedEvent, canonical}

-- A row of `audit_chain` joined with the event that it names, where that is present.
pub record ChainRow : Type 0 where
  pub seq : ℕ
  pub event_id : ℕ
  pub event_at : ℕ
  pub prev_hash : Bytes
  pub hash : Bytes
  pub event : Option ChainedEvent

-- The row of `audit_chain_head`.
pub record ChainHead : Type 0 where
  pub seq : ℕ
  pub hash : Bytes

-- `ChainExpectation`; a `seq` of 0 checks nothing.
pub record ChainExpectation : Type 0 where
  pub seq : ℕ
  pub hash : Bytes

-- The texts of `ChainBreak.Reason`.
pub data Reason : Type 0 where
  rows_missing : ℕ → ℕ → Reason
  prev_mismatch event_missing event_changed rewritten beyond_head empty_chain not_head : Reason

pub record ChainBreak : Type 0 where
  pub seq : ℕ
  pub event_id : Option ℕ
  pub reason : Reason

pub record ChainReport : Type 0 where
  pub rows : ℕ
  pub first_seq : ℕ
  pub head : ChainHead
  pub break : Option ChainBreak
  pub expect_pruned : Bool

-- The tests on a row and the one before it.
unfoldable pub check_link : Option ChainRow → ChainRow → Option Reason
check_link none r = none
check_link (some last) r =
    if not (r.seq == last.seq + 1)
    then some (rows_missing (last.seq + 1) (r.seq - 1))
    else if not (r.prev_hash == last.hash)
    then some prev_mismatch
    else none

abbrev pub first_seq_of : List ChainRow → ℕ
first_seq_of [] = 0
first_seq_of (r ∷ rows) = r.seq

-- What the code behind the loop reports.
unfoldable pub check_end : ChainExpectation → ChainHead → Option ChainRow → Option ChainBreak
check_end expect head last =
    if ltb head.seq expect.seq
    then some (record { seq = expect.seq; event_id = none; reason = beyond_head })
    else elim last [
      | none ↦
          if not (head.seq == 0)
          then some (record { seq = head.seq; event_id = none; reason = empty_chain })
          else none
      | some r ↦
          if not (r.seq == head.seq) || not (r.hash == head.hash)
          then some (record { seq = r.seq; event_id = some r.event_id; reason = not_head })
          else none
    ]

-- Is the expected row older than the first row that remains?
unfoldable pub is_pruned : ChainExpectation → ChainHead → ℕ → ℕ → Bool
is_pruned expect head n first =
    (not (expect.seq == 0) && (n == 0 || ltb expect.seq first)) && leb expect.seq head.seq

-- What the loop returns: how many rows passed, the last of them, and the row that failed with why.
abbrev pub Walked : Type 0
Walked = ℕ × Option ChainRow × Option (ChainRow × Reason)

-- A failed test ends the loop.
abbrev pub stop_or :
    ℕ
    → Option ChainRow
    → ChainRow
    → Option Reason
    → Result NumberError Walked
    → Result NumberError Walked
stop_or n last r (some reason) rest = ok (n, last, some (r, reason))
stop_or n last r none rest = rest

-- The report of a loop that stopped early, or of one that passed every row.
abbrev pub report_of : ChainExpectation → ChainHead → ℕ → Walked → ChainReport
report_of expect head first (n, last, some (r, reason)) = record {
  rows = n;
  first_seq = first;
  head = head;
  break = some (record { seq = r.seq; event_id = some r.event_id; reason = reason });
  expect_pruned = false;
}
report_of expect head first (n, last, none) = record {
  rows = n;
  first_seq = first;
  head = head;
  break = check_end expect head last;
  expect_pruned = is_pruned expect head n first;
}

module _ (sha256 : Bytes → Bytes) where
  -- The tests on a row whose event has the canonical form `bytes`.
  unfoldable pub check_hash : ChainExpectation → ChainRow → Bytes → Option Reason
  check_hash expect r bytes =
      if not (sha256 (r.prev_hash ++ bytes) == r.hash)
      then some event_changed
      else if not (expect.seq == 0) && (r.seq == expect.seq && not (r.hash == expect.hash))
      then some rewritten
      else none

  -- The tests on a row itself: its event is present and hashes to the stored value, and the row is
  -- the one expected under its number.
  unfoldable pub check_event : ChainExpectation → ChainRow → Result NumberError (Option Reason)
  check_event expect r = elim r.event [
    | none ↦ ok (some event_missing)
    | some e ↦ do bytes ← canonical e; ok (check_hash expect r bytes)
  ]

  unfoldable pub check_row :
      ChainExpectation → Option ChainRow → ChainRow → Result NumberError (Option Reason)
  check_row expect last r = elim (check_link last r) [
    | some reason ↦ ok (some reason)
    | none ↦ check_event expect r
  ]

  -- The loop over the rows.
  unfoldable pub walk :
      ChainExpectation → ℕ → Option ChainRow → List ChainRow → Result NumberError Walked
  walk expect n last [] = ok (n, last, none)
  walk expect n last (r ∷ rows) = do
    found ← check_row expect last r
    let rest = walk expect (n + 1) (some r) rows
    stop_or n last r found rest

  -- `VerifyChain` on the rows and the head of one snapshot. The first row's number is reported as
  -- soon as the row is read.
  unfoldable pub verify_chain :
      ChainExpectation → ChainHead → List ChainRow → Result NumberError ChainReport
  verify_chain expect head rows = do
    walked ← walk expect 0 none rows
    ok (report_of expect head (first_seq_of rows) walked)

-- `SELECT max(seq) FROM audit_chain WHERE event_at < cutoff`, 0 where there is none.
unfoldable pub last_older : ℕ → List ChainRow → ℕ
last_older cutoff [] = 0
last_older cutoff (r ∷ rows) =
    let rest = last_older cutoff rows in
    if ltb r.event_at cutoff then (if ltb rest r.seq then r.seq else rest) else rest

unfoldable pub delete_to : ℕ → List ChainRow → List ChainRow
delete_to seq [] = []
delete_to seq (r ∷ rows) = let rest = delete_to seq rows in if leb r.seq seq then rest else r ∷ rest

-- `trimChain`: the rows that remain. No row has the number 0.
unfoldable pub trim_chain : ℕ → List ChainRow → List ChainRow
trim_chain cutoff rows = delete_to (last_older cutoff rows) rows

-- The trigger `audit_chain_append` on an event just inserted: the new head and the new row.
unfoldable pub append_event :
    (Bytes → Bytes) → ℕ → ℕ → ChainedEvent → ChainHead → Result NumberError (ChainHead × ChainRow)
append_event sha256 id at e head = do
  bytes ← canonical e
  let hash = sha256 (head.hash ++ bytes)
  ok (
    record { seq = head.seq + 1; hash = hash },
    record {
      seq = head.seq + 1;
      event_id = id;
      event_at = at;
      prev_hash = head.hash;
      hash = hash;
      event = some e;
    },
  )
