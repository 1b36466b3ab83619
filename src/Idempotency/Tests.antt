-- ===== src/Idempotency/Tests.antt =====
-- Runs of the claims, and the theorems at concrete inputs.
use simple_host_enterprise.Common.{
  ◌↔◌, some, none, true, false, ◌+◌, ◌≡◌, ◌≢◌, refl, [], ◌∷◌, Bytes, if◌then◌else◌, ◌==◌, ℕ_eq,
  List_eq, ok, err, arith,
}
use simple_host_enterprise.Common.Maps.{lookup, insert}
use simple_host_enterprise.Common.Rows.{delete_rows, update_rows, count_rows}
use simple_host_enterprise.Idempotency.{
  CreateReplay, Entry, Table, idempotency_reused, idempotency_full, replayed, claimed, retention,
  pending, is_expired, count_own, count_all, claim_row, claim_create, complete_create, complete_row,
}
use simple_host_enterprise.Idempotency.Held.{complete, done, next}
use simple_host_enterprise.Idempotency.Replaying.{claimed_once, first_response_stands}
use simple_host_enterprise.Idempotency.Handler.{
  Request, World, responded, poll, settle, await_create, replay_create,
}
use simple_host_enterprise.Idempotency.Waiting.{replay_create-ends}
use simple_host_enterprise.Idempotency.Refusing.{IsRefused, claim_create-IsRefused_iff}

abbrev one : Bytes
one = 1 ∷ []

abbrev two : Bytes
two = 2 ∷ []

abbrev created : CreateReplay
created = record { status = 201; header = []; body = 7 ∷ [] }

abbrev pending_entry : Entry
pending_entry = record { body_hash = two; replay = pending; expires_at = 10 + retention }

abbrev claimed_table : Table
claimed_table = ((one, one), pending_entry) ∷ []

first_claim : claim_create 10 one one two 2 9 [] ≡ (claimed_table, ok claimed)
unfolding claim_create claim_row delete_rows lookup insert count_own count_all count_rows
first_claim = refl

full_claim : claim_create 20 one two two 1 9 claimed_table ≡ (claimed_table, err idempotency_full)
unfolding claim_create claim_row delete_rows is_expired lookup insert count_own count_all count_rows
full_claim = refl

claimed_once_example : (claim_create 30 one one one 5 9 claimed_table).1 ≢ ok claimed
unfolding claim_create claim_row delete_rows lookup insert count_own count_all count_rows is_expired
claimed_once_example =
    claimed_once one one two one 10 30 2 9 5 9 [] claimed_table tt refl done (omega arith)

first_response_stands_example :
    (claim_create 40 one one two 2 9
      (complete_create 35 one one pending (complete_create 30 one one created claimed_table))).1
    ≡ (if two == two then ok (replayed created) else err idempotency_reused)
unfolding lookup
first_response_stands_example =
    first_response_stands one one two two 30 40 2 9 created pending_entry claimed_table
      (complete_create 35 one one pending (complete_create 30 one one created claimed_table))
      (refl, tt) refl refl refl refl (next done (complete 35 one one pending (omega arith)))
      (omega arith)

claim_create-IsRefused_iff_example :
    (claim_create 20 one two two 1 9 claimed_table ≡ (claimed_table, err idempotency_full))
    ↔ IsRefused 20 one two two 1 9 claimed_table idempotency_full
unfolding lookup
claim_create-IsRefused_iff_example =
    claim_create-IsRefused_iff 20 one two two 1 9 claimed_table idempotency_full (refl, tt)

-- The second request of a key: the first one's response arrives while it waits.
abbrev retry : Request
retry = record {
  is_post = true;
  key = one;
  account = one;
  request_key = one;
  hash = two;
  body_refused = none;
}

abbrev unlucky : CreateReplay
unlucky = record { status = 500; header = []; body = [] }

abbrev busy : World
busy = record {
  delay = λ round. 1;
  others = λ round table. complete_create 60 one one created table;
  cancelled = λ round. false;
  claim_fails = λ round. false;
  response = unlucky;
  took = 5;
  meanwhile = λ table. table;
  save_fails = false;
}

abbrev completed_entry : Entry
completed_entry = record { body_hash = two; replay = created; expires_at = 60 + retention }

retry_replayed :
    await_create 2 2 9 50 retry busy 0 50 claimed_table
    ≡ some (responded created, ((one, one), completed_entry) ∷ [])
unfolding await_create poll settle claim_create claim_row complete_create complete_row delete_rows
    update_rows is_expired lookup
retry_replayed = refl

replay_create-ends_example : replay_create 2 9 50 retry busy claimed_table ≢ none
replay_create-ends_example = replay_create-ends 2 9 50 retry busy claimed_table
