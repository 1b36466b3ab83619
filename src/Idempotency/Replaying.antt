-- ===== src/Idempotency/Replaying.antt =====
-- A key is claimed once, and its first response is the answer from then on.
use simple_host_enterprise.Common.{
  ℕ, ◌+◌, ◌<◌, ◌≡◌, ◌≢◌, refl, sym, ap, ◌∙◌, Bool, true, false, ◌&&◌, ◌||◌, some, Bytes, leb,
  if◌then◌else◌, ◌==◌, ==_self, ℕ_eq, List_eq, Pair_eq, ok, err, Bool-cases, Option-cases, inl, inr,
  arith,
}
use simple_host_enterprise.Common.Maps.{lookup, lookup-insert}
use simple_host_enterprise.Common.Rows.{
  delete_rows, map_row, lookup-update_rows, update_rows-IsUnique, delete_rows-IsUnique,
}
use simple_host_enterprise.Common.Unique.{IsUnique, insert-IsUnique}
use simple_host_enterprise.Idempotency.{
  CreateReplay, Entry, Table, idempotency_reused, replayed, claimed, retention, pending, is_expired,
  count_own, count_all, claim_row, claim_create, complete_row, complete_create,
}
use simple_host_enterprise.Idempotency.Held.{IsHeld, Run, live-IsHeld, Run-IsHeld}

-- What a claim of a key that is held gives.
held-answer :
    (account key hash body_hash : Bytes) (now until per_account total : ℕ) (P : Entry → Type 0)
    (table : Table)
    → ((e : Entry) → P e → e.body_hash ≡ body_hash)
    → now < until
    → IsHeld (account, key) until P table
    → (e : Entry) × P e
      × ((claim_create now account key hash per_account total table).1
          ≡ (if body_hash == hash then ok (replayed e.replay) else err idempotency_reused))
unfolding IsHeld claim_create claim_row
held-answer account key hash body_hash now until per_account total P table hashes early held =
    let (u, (e, found, lives, p)) = live-IsHeld (account, key) now until P table early held in
    (
      e,
      p,
      elim (Bool-cases (body_hash == hash)) [
        | inl same ↦ rw (found, claim_row, hashes e p, same) refl
        | inr other ↦ rw (found, claim_row, hashes e p, other) refl
      ],
    )

-- A claim that succeeded holds its key.
claimed-IsHeld :
    (now : ℕ) (account key hash : Bytes) (per_account total : ℕ) (table : Table)
    → IsUnique table
    → (claim_create now account key hash per_account total table).1 ≡ ok claimed
    → IsHeld
        (account, key)
        (now + retention)
        (λ e. e.body_hash ≡ hash)
        (claim_create now account key hash per_account total table).0
unfolding IsHeld claim_create claim_row
claimed-IsHeld now account key hash per_account total table u h =
    let live = delete_rows (is_expired now) table in
    let row : Entry = record { body_hash = hash; replay = pending; expires_at = now + retention } in
    let id : Bytes × Bytes = (account, key) in
    elim (Option-cases (lookup (account, key) live)) [
      | inl absent ↦
          elim (Bool-cases
            (leb per_account (count_own account live) || leb total (count_all live))) [
              | inl full ↦ cc (rw (absent, claim_row, full) at h)
              | inr room ↦
                  rw (absent, claim_row, room)
                    (
                      insert-IsUnique (account, key) row live
                          (delete_rows-IsUnique (is_expired now) table u),
                      (
                        row,
                        rw (lookup-insert (account, key) (account, key) row live, ==_self id) refl,
                        omega arith,
                        refl,
                      ),
                    )
            ]
      | inr (e, found) ↦ elim (Bool-cases (e.body_hash == hash)) [
        | inl same ↦ cc (rw (found, claim_row, same) at h)
        | inr other ↦ cc (rw (found, claim_row, other) at h)
      ]
    ]

replay-not_claimed :
    (same : Bool) (r : CreateReplay)
    → (if same then ok (replayed r) else err idempotency_reused) ≢ ok claimed
replay-not_claimed true r h = cc
replay-not_claimed false r h = cc

-- A key is claimed once: for a day after a claim that succeeded, and whatever is claimed and completed
-- in between, no further claim of the key succeeds, with whatever body and caps. The account with the
-- key is the primary key of the table.
pub claimed_once :
    (account key hash other_hash : Bytes) (start now : ℕ)
    (per_account total other_per_account other_total : ℕ) (table after : Table)
    → IsUnique table
    → (claim_create start account key hash per_account total table).1 ≡ ok claimed
    → Run start
        (start + retention)
        (claim_create start account key hash per_account total table).0
        after
    → now < start + retention
    → (claim_create now account key other_hash other_per_account other_total after).1 ≢ ok claimed
unfolding complete_row
claimed_once account key hash other_hash start now per_account total other_per_account other_total
      table after u h run early again =
    let same_hash : Entry → Type 0 = λ (e : Entry). e.body_hash ≡ hash in
    let held =
      Run-IsHeld (account, key) start same_hash _ after
        (λ t replay target e p.
          elim (Bool-cases ((account, key) == target && e.replay.status == 0)) [
            | inl c ↦ rw c p
            | inr c ↦ rw c p
          ])
        run (claimed-IsHeld start account key hash per_account total table u h) in
    let (e, p, answer) =
      held-answer account key other_hash hash now (start + retention) other_per_account other_total
        same_hash after (λ x q. q) early held in
    replay-not_claimed (hash == other_hash) e.replay (sym answer ∙ again)

-- The first response stands: once a pending row is completed with a response, and whatever is claimed
-- and completed in the day after that, that key's later completions included, a claim of the key is
-- answered with that response where the body is the first one's, and is refused as a reuse where it is
-- not. A response's status is not 0.
pub first_response_stands :
    (account key hash body_hash : Bytes) (start now : ℕ) (per_account total : ℕ)
    (replay : CreateReplay) (e : Entry) (table after : Table)
    → IsUnique table
    → lookup (account, key) table ≡ some e
    → e.replay.status ≡ 0
    → e.body_hash ≡ body_hash
    → (replay.status == 0) ≡ false
    → Run start (start + retention) (complete_create start account key replay table) after
    → now < start + retention
    → (claim_create now account key hash per_account total after).1
      ≡ (if body_hash == hash then ok (replayed replay) else err idempotency_reused)
unfolding complete_row complete_create IsHeld map_row
first_response_stands account key hash body_hash start now per_account total replay e table after u
      found unanswered same_body answered run early =
    let id : Bytes × Bytes = (account, key) in
    let row = complete_row start id replay in
    let Answered : Entry → Type 0 =
      λ (x : Entry). (x.body_hash ≡ body_hash) × (x.replay ≡ replay) in
    let completed : row id e ≡ record e { replay = replay; expires_at = start + retention } =
      rw (==_self id, unanswered) refl in
    let first : IsHeld id (start + retention) Answered
        (complete_create start account key replay table) =
      (
        update_rows-IsUnique row table u,
        (
          record e { replay = replay; expires_at = start + retention },
          lookup-update_rows row id table ∙ rw (found, map_row) (ap some completed),
          omega arith,
          (same_body, refl),
        ),
      ) in
    let held =
      Run-IsHeld id start Answered _ after
        (λ t r target x p.
          let closed : (x.replay.status == 0) ≡ false = rw (p.1) answered in
          elim (Bool-cases (id == target)) [ inl c ↦ rw (c, closed) p | inr c ↦ rw c p ])
        run first in
    let (x, p, answer) =
      held-answer account key hash body_hash now (start + retention) per_account total Answered
        after (λ y q. q.0) early held in
    rw (answer, p.1) refl
