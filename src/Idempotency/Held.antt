-- ===== src/Idempotency/Held.antt =====
-- A row that is held stays held through every claim and completion.
use simple_host_enterprise.Common.{
  ℕ, ◌+◌, ◌≤◌, ◌<◌, ◌≡◌, refl, sym, subst, ◌∙◌, false, ◌&&◌, ◌||◌, none, some, Bytes, leb, ◌==◌,
  ==_iff, ℕ_eq, List_eq, Pair_eq, Bool-cases, Option-cases, inl, inr, arith,
}
use simple_host_enterprise.Common.Maps.{lookup, insert, lookup-insert}
use simple_host_enterprise.Common.Rows.{
  delete_rows, map_row, spare_row, lookup-update_rows, lookup-delete_rows, update_rows-IsUnique,
  delete_rows-IsUnique,
}
use simple_host_enterprise.Common.Unique.{IsUnique, insert-IsUnique, some≢none}
use simple_host_enterprise.Idempotency.{
  CreateReplay, Entry, Table, retention, is_expired, count_own, count_all, claim_row, claim_create,
  complete_row, complete_create,
}

-- The key has a row that lives until then and is as `P` says.
unfoldable pub IsHeld : Bytes × Bytes → ℕ → (Entry → Type 0) → Table → Type 0
IsHeld k until P table =
    IsUnique table × ((e : Entry) × (lookup k table ≡ some e) × (until ≤ e.expires_at) × P e)

-- What requests do with any keys, the key at hand included, between two times.
pub data Step (from until : ℕ) : Table → Table → Type 0 where
  claim :
      {table : Table} (now : ℕ) (account key hash : Bytes) (per_account total : ℕ)
      → from ≤ now
      → now < until
      → Step from until table (claim_create now account key hash per_account total table).0
  complete :
      {table : Table} (now : ℕ) (account key : Bytes) (replay : CreateReplay)
      → from ≤ now
      → Step from until table (complete_create now account key replay table)

pub data Run (from until : ℕ) : Table → Table → Type 0 where
  done : {table : Table} → Run from until table table
  next :
      {table mid after : Table}
      → Run from until table mid
      → Step from until mid after
      → Run from until table after

-- The deletion of what expired before then spares the row.
pub live-IsHeld :
    (k : Bytes × Bytes) (now until : ℕ) (P : Entry → Type 0) (table : Table)
    → now < until
    → IsHeld k until P table
    → IsHeld k until P (delete_rows (is_expired now) table)
unfolding IsHeld is_expired spare_row
live-IsHeld k now until P table early (u, (e, found, lives, p)) =
    let kept : leb e.expires_at now ≡ false = ground (arith, early, lives) in
    (
      delete_rows-IsUnique (is_expired now) table u,
      (
        e,
        rw (lookup-delete_rows (is_expired now) k table u, found, spare_row, kept) refl,
        lives,
        p,
      ),
    )

pub insert-IsHeld :
    (k j : Bytes × Bytes) (until : ℕ) (P : Entry → Type 0) (row : Entry) (table : Table)
    → lookup j table ≡ none
    → IsHeld k until P table
    → IsHeld k until P (insert j row table)
unfolding IsHeld
insert-IsHeld k j until P row table absent (u, (e, found, lives, p)) = elim (Bool-cases (j == k)) [
  | inl same ↦
      absurd
        (some≢none (sym found ∙ subst (λ x. lookup x table ≡ none) ((==_iff j k).0 same) absent))
  | inr other ↦
      (insert-IsUnique j row table u, (e, rw (lookup-insert j k row table, other) found, lives, p))
]

pub claim-IsHeld :
    (k : Bytes × Bytes) (until : ℕ) (P : Entry → Type 0) (now : ℕ) (account key hash : Bytes)
    (per_account total : ℕ) (table : Table)
    → now < until
    → IsHeld k until P table
    → IsHeld k until P (claim_create now account key hash per_account total table).0
unfolding claim_create claim_row
claim-IsHeld k until P now account key hash per_account total table early held =
    let live = delete_rows (is_expired now) table in
    let kept = live-IsHeld k now until P table early held in
    elim (Option-cases (lookup (account, key) live)) [
      | inl absent ↦
          elim (Bool-cases
            (leb per_account (count_own account live) || leb total (count_all live))) [
              | inl full ↦ rw (absent, claim_row, full) held
              | inr room ↦
                  rw (absent, claim_row, room)
                    (insert-IsHeld k (account, key) until P _ live absent kept)
            ]
      | inr (e, found) ↦ elim (Bool-cases (e.body_hash == hash)) [
        | inl same ↦ rw (found, claim_row, same) kept
        | inr other ↦ rw (found, claim_row, other) held
      ]
    ]

pub complete-IsHeld :
    (k : Bytes × Bytes) (from : ℕ) (P : Entry → Type 0) (now : ℕ) (account key : Bytes)
    (replay : CreateReplay) (table : Table)
    → ((target : Bytes × Bytes) (e : Entry) → P e → P (complete_row now target replay k e))
    → from ≤ now
    → IsHeld k (from + retention) P table
    → IsHeld k (from + retention) P (complete_create now account key replay table)
unfolding IsHeld complete_create map_row complete_row
complete-IsHeld k from P now account key replay table keeps late (u, (e, found, lives, p)) =
    let row = complete_row now (account, key) replay in
    (
      update_rows-IsUnique row table u,
      (
        row k e,
        rw (lookup-update_rows row k table, found, map_row) refl,
        elim (Bool-cases (k == (account, key) && e.replay.status == 0)) [
          | inl c ↦ rw c (omega (arith, late))
          | inr c ↦ rw c lives
        ],
        keeps (account, key) e p,
      ),
    )

pub Run-IsHeld :
    (k : Bytes × Bytes) (from : ℕ) (P : Entry → Type 0) (table after : Table)
    → ((now : ℕ) (replay : CreateReplay) (target : Bytes × Bytes) (e : Entry)
        → P e
        → P (complete_row now target replay k e))
    → Run from (from + retention) table after
    → IsHeld k (from + retention) P table
    → IsHeld k (from + retention) P after
Run-IsHeld k from P table _ keeps done held = held
Run-IsHeld k from P table after keeps (next {mid = mid} run step) held =
    step-IsHeld mid after step (Run-IsHeld k from P table mid keeps run held)
  where
    step-IsHeld :
        (x y : Table)
        → Step from (from + retention) x y
        → IsHeld k (from + retention) P x
        → IsHeld k (from + retention) P y
    step-IsHeld x _ (claim now account key hash per_account total late early) h =
        claim-IsHeld k (from + retention) P now account key hash per_account total x early h
    step-IsHeld x _ (complete now account key replay late) h =
        complete-IsHeld k from P now account key replay x (keeps now replay) late h
