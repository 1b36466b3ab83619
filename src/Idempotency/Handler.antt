-- ===== src/Idempotency/Handler.antt =====
-- internal/handler/idempotency.go: replayCreate around a create handler, which is an argument with what
-- other requests do meanwhile. The wait is a loop of polls; the clock moves on by what each one took.
use simple_host_enterprise.Common.{
  ℕ, zero, suc, ◌+◌, ◌-◌, Bool, true, not, ◌&&◌, ◌||◌, Option, none, some, List, [], ◌∷◌, Bytes,
  ltb, leb, if◌then◌else◌, any, all, codes, length, ◌==◌, ℕ_eq, List_eq, Result, ok, err,
}
use simple_host_enterprise.Common.Text.{has_prefix, lower_byte}
use simple_host_enterprise.Common.Rows.{delete_rows}
use simple_host_enterprise.Idempotency.{
  Header, CreateReplay, Table, IdempotencyError, idempotency_reused, idempotency_full, Claim,
  replayed, claimed, claim_create, complete_create,
}

-- What the request brings; `body_refused` is the status of a body that could not be taken in.
pub record Request : Type 0 where
  pub is_post : Bool
  pub key : Bytes
  pub account : Bytes
  pub request_key : Bytes
  pub hash : Bytes
  pub body_refused : Option ℕ

-- What the world does: how long each poll and pause took beyond its 50 milliseconds, what others do to
-- the table before the next poll, whether the caller is gone by then, which polls the database fails;
-- and, for the create itself, its response, its time, what others do meanwhile, and whether the
-- response can be saved.
pub record World : Type 0 where
  pub delay : ℕ → ℕ
  pub others : ℕ → Table → Table
  pub cancelled : ℕ → Bool
  pub claim_fails : ℕ → Bool
  pub response : CreateReplay
  pub took : ℕ
  pub meanwhile : Table → Table
  pub save_fails : Bool

pub data Answer : Type 0 where
  refused : (status : ℕ) → Answer
  responded : CreateReplay → Answer
  caller_gone : Answer

abbrev pub max_key_bytes : ℕ
max_key_bytes = 255

-- 50 milliseconds and 30 seconds, in microseconds.
abbrev pub poll_interval : ℕ
poll_interval = 50000

abbrev pub replay_deadline : ℕ
replay_deadline = 30000000

-- `http.CanonicalHeaderKey`: a letter at the start or behind a dash is upper case, the others are
-- lower case; a name with a byte that no name has stays as it is.
unfoldable pub is_name_byte : ℕ → Bool
is_name_byte c =
    (leb 48 c && leb c 57)
    || (leb 65 c && leb c 90)
    || (leb 97 c && leb c 122)
    || any (λ x. x == c) (codes "!#$%&'*+-.^_`|~")

unfoldable pub upper_byte : ℕ → ℕ
upper_byte c = if leb 97 c && leb c 122 then c - 32 else c

unfoldable pub canonical_from : Bool → Bytes → Bytes
canonical_from upper [] = []
canonical_from upper (c ∷ cs) =
    (if upper then upper_byte c else lower_byte c) ∷ canonical_from (c == 45) cs

unfoldable pub canonical_header_key : Bytes → Bytes
canonical_header_key name = if all is_name_byte name then canonical_from true name else name

-- `Header.Del` deletes the canonical name, so a name that is not canonical stays.
unfoldable pub without_admission : Header → Header
without_admission header =
    delete_rows
      (λ name (values : List Bytes).
        has_prefix (codes "Ratelimit") (canonical_header_key name)
        && canonical_header_key name == name)
      header

unfoldable pub recorded : CreateReplay → CreateReplay
recorded r = if r.status == 0 then record r { status = 200 } else r

-- The create has been claimed: it runs, its response is saved and sent.
unfoldable pub run_create : ℕ → Request → World → Table → Answer × Table
run_create now r world table =
    let result = recorded world.response in
    let after = world.meanwhile table in
    if world.save_fails then (refused 503, after) else (
      responded result,
      complete_create (now + world.took) r.account r.request_key
          (record result { header = without_admission result.header }) after,
    )

-- What a poll settles; `none` waits for the first request to complete.
unfoldable pub settle :
    ℕ → Request → World → Result IdempotencyError Claim → Table → Option (Answer × Table)
settle now r world (err idempotency_reused) table = some (refused 422, table)
settle now r world (err idempotency_full) table = some (refused 429, table)
settle now r world (ok claimed) table = some (run_create now r world table)
settle now r world (ok (replayed replay)) table =
    if replay.status == 0 then none else some (responded replay, table)

unfoldable pub poll : ℕ → ℕ → ℕ → Request → ℕ → World → Table → Option (Answer × Table) × Table
poll per_account total now r round world table =
    if world.claim_fails round
    then (some (refused 503, table), table)
    else (let result = claim_create now r.account r.request_key r.hash per_account total table in
        (settle now r world result.1 result.0, result.0))

abbrev pub or_wait {ℓ} : {A : Type ℓ} → Option A → Option A → Option A
or_wait (some a) rest = some a
or_wait none rest = rest

-- The loop; `none` is that the fuel ran out.
unfoldable pub await_create :
    ℕ → ℕ → ℕ → ℕ → Request → World → ℕ → ℕ → Table → Option (Answer × Table)
await_create zero per_account total start r world round now table = none
await_create (suc fuel) per_account total start r world round now table =
    let polled = poll per_account total now r round world table in
    or_wait polled.0 (
      if world.cancelled round
      then some (caller_gone, polled.1)
      else if leb (start + replay_deadline) (now + poll_interval)
      then some (refused 409, polled.1)
      else await_create fuel per_account total start r world (suc round)
          (now + poll_interval + world.delay round) (world.others round polled.1))

abbrev pub enough_fuel : ℕ
enough_fuel = 600

unfoldable pub with_body : Option ℕ → Table → Option (Answer × Table) → Option (Answer × Table)
with_body (some status) table wait = some (refused status, table)
with_body none table wait = wait

-- The table is as others have left it where the create runs without a key.
unfoldable pub replay_create : ℕ → ℕ → ℕ → Request → World → Table → Option (Answer × Table)
replay_create per_account total start r world table =
    if not r.is_post || r.key == [] || r.account == []
    then some (responded (recorded world.response), world.meanwhile table)
    else if ltb max_key_bytes (length r.key)
    then some (refused 400, table)
    else with_body r.body_refused table
        (await_create enough_fuel per_account total start r world 0 start table)
