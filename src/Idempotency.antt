-- ===== src/Idempotency.antt =====
-- internal/db/idempotency.go: a create request that names a key is carried out once, and answered with
-- the first response afterwards. The JSON of the headers is not written out: a row keeps the headers.
pub mod Handler
pub mod Waiting
pub mod Refusing
pub mod Held
pub mod Replaying
mod Tests
use simple_host_enterprise.Common.{
  ℕ, ◌+◌, ◌*◌, Bool, true, false, not, ◌&&◌, ◌||◌, Option, none, some, List, [], Bytes, leb,
  if◌then◌else◌, ◌==◌, ℕ_eq, List_eq, Pair_eq, Result, ok, err,
}
use simple_host_enterprise.Common.Maps.{Map, lookup, insert}
use simple_host_enterprise.Common.Rows.{update_rows, delete_rows, count_rows}

-- `http.Header`.
abbrev pub Header : Type 0
Header = Map Bytes (List Bytes)

pub record CreateReplay : Type 0 where
  pub status : ℕ
  pub header : Header
  pub body : Bytes

-- A row of `create_idempotency` without its key; a pending one has the status 0.
pub record Entry : Type 0 where
  pub body_hash : Bytes
  pub replay : CreateReplay
  pub expires_at : ℕ

-- The primary key is the account with the request's key.
abbrev pub Table : Type 0
Table = Map (Bytes × Bytes) Entry

pub data IdempotencyError : Type 0 where
  idempotency_reused idempotency_full : IdempotencyError

pub data Claim : Type 0 where
  replayed : CreateReplay → Claim
  claimed : Claim

-- 24 hours, in microseconds.
abbrev pub retention : ℕ
retention = 86400000000

abbrev pub pending : CreateReplay
pending = record { status = 0; header = []; body = [] }

unfoldable pub is_expired : ℕ → Bytes × Bytes → Entry → Bool
is_expired now k e = leb e.expires_at now

unfoldable pub count_own : Bytes → Table → ℕ
count_own account live = count_rows (λ (k : Bytes × Bytes) (e : Entry). k.0 == account) live

unfoldable pub count_all : Table → ℕ
count_all live = count_rows (λ (k : Bytes × Bytes) (e : Entry). true) live

-- What follows the deletion of what expired; a refusal rolls the transaction back, to `before`.
unfoldable pub claim_row :
    ℕ
    → Bytes
    → Bytes
    → Bytes
    → ℕ
    → ℕ
    → Table
    → Table
    → Option Entry
    → Table × Result IdempotencyError Claim
claim_row now account key hash per_account total before live (some e) =
    if not (e.body_hash == hash)
    then (before, err idempotency_reused)
    else (live, ok (replayed e.replay))
claim_row now account key hash per_account total before live none =
    if leb per_account (count_own account live) || leb total (count_all live)
    then (before, err idempotency_full)
    else (
      insert (account, key)
          (record { body_hash = hash; replay = pending; expires_at = now + retention }) live,
      ok claimed,
    )

unfoldable pub claim_create :
    ℕ → Bytes → Bytes → Bytes → ℕ → ℕ → Table → Table × Result IdempotencyError Claim
claim_create now account key hash per_account total table =
    let live = delete_rows (is_expired now) table in
    claim_row now account key hash per_account total table live (lookup (account, key) live)

-- The row that the statement completes.
unfoldable pub complete_row : ℕ → Bytes × Bytes → CreateReplay → Bytes × Bytes → Entry → Entry
complete_row now target replay k e =
    if k == target && e.replay.status == 0
    then record e { replay = replay; expires_at = now + retention }
    else e

unfoldable pub complete_create : ℕ → Bytes → Bytes → CreateReplay → Table → Table
complete_create now account key replay table =
    update_rows (complete_row now (account, key) replay) table
