-- ===== src/Idempotency/Waiting.antt =====
-- The wait for the first request ends.
use simple_host_enterprise.Common.{
  ℕ, zero, suc, ◌+◌, ◌*◌, ◌≤◌, ◌≡◌, ◌≢◌, false, not, ◌||◌, Option, none, some, ltb, leb, length,
  ◌==◌, ℕ_eq, List_eq, Bool-cases, inl, inr, arith, [],
}
use simple_host_enterprise.Idempotency.{Table}
use simple_host_enterprise.Idempotency.Handler.{
  Request, World, Answer, poll, poll_interval, replay_deadline, max_key_bytes, or_wait,
  await_create, with_body, replay_create,
}

or_wait-some : {A : Type 0} (first rest : Option A) → rest ≢ none → or_wait first rest ≢ none
or_wait-some (some a) rest h e = cc
or_wait-some none rest h e = h e

-- A poll that is not the last, where the rest of the wait ends.
polled-ends :
    (fuel per_account total start : ℕ) (r : Request) (world : World) (round now : ℕ) (table : Table)
    → (leb (start + replay_deadline) (now + poll_interval) ≡ false
        → await_create fuel per_account total start r world
            (suc round)
            (now + poll_interval + world.delay round)
            (world.others round (poll per_account total now r round world table).1)
          ≢ none)
    → await_create (suc fuel) per_account total start r world round now table ≢ none
unfolding await_create
polled-ends fuel per_account total start r world round now table rest =
    or_wait-some (poll per_account total now r round world table).0 _
      (elim (Bool-cases (world.cancelled round)) [
        | inl gone ↦ rw gone (λ e. cc)
        | inr there ↦ elim (Bool-cases (leb (start + replay_deadline) (now + poll_interval))) [
          | inl late ↦ rw (there, late) (λ e. cc)
          | inr early ↦ rw (there, early) (rest early)
        ]
      ])

await_create-ends :
    (fuel per_account total start : ℕ) (r : Request) (world : World) (round now : ℕ) (table : Table)
    → start + replay_deadline ≤ now + poll_interval * suc fuel
    → await_create (suc fuel) per_account total start r world round now table ≢ none
await_create-ends zero per_account total start r world round now table enough =
    polled-ends zero per_account total start r world round now table
      (λ early. absurd (ground (arith, enough, early)))
await_create-ends (suc fuel) per_account total start r world round now table enough =
    polled-ends (suc fuel) per_account total start r world round now table (λ early.
      await_create-ends fuel per_account total start r world (suc round) _ _
        (omega (arith, enough)))

with_body-some :
    (refusal : Option ℕ) (table : Table) (wait : Option (Answer × Table))
    → wait ≢ none
    → with_body refusal table wait ≢ none
unfolding with_body
with_body-some (some status) table wait h e = cc
with_body-some none table wait h e = h e

-- Every request gets an answer: the wait for the first request ends within 600 polls, whatever the
-- database, the other requests and the caller do, since a poll takes 50 milliseconds at least and the
-- wait has a deadline of 30 seconds.
pub replay_create-ends :
    (per_account total start : ℕ) (r : Request) (world : World) (table : Table)
    → replay_create per_account total start r world table ≢ none
unfolding replay_create with_body
replay_create-ends per_account total start r world table =
    elim (Bool-cases (not r.is_post || r.key == [] || r.account == [])) [
      | inl plain ↦ rw plain (λ e. cc)
      | inr keyed ↦ elim (Bool-cases (ltb max_key_bytes (length r.key))) [
        | inl long ↦ rw (keyed, long) (λ e. cc)
        | inr short ↦
            rw (keyed, short)
              (with_body-some r.body_refused table _
                (await_create-ends 599 per_account total start r world 0 start table (omega arith)))
      ]
    ]
