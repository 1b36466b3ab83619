-- ===== src/Accounts/Codes.antt =====
-- A hand-off code works once, on the host that it was minted for, for a minute.
use mathlib.Core.Option.{some-injective}
use simple_host_enterprise.Common.{
  ℕ, ◌+◌, ◌<◌, ◌≡◌, ◌↔◌, refl, sym, ap, ◌∙◌, true, not, ◌&&◌, ◌||◌, Option, none, some, Bytes, ltb,
  if◌then◌else◌, ◌==◌, ==_iff, ==_self, ℕ_eq, List_eq, ok, err, refuse_if-passed, ok-injective,
  Bool-cases, Option-cases, &&-true, inl, inr, arith, false≢true,
}
use simple_host_enterprise.Common.Maps.{lookup, lookup-insert}
use simple_host_enterprise.Common.Rows.{row_passes}
use simple_host_enterprise.Common.Unique.{IsUnique, insert-IsUnique}
use simple_host_enterprise.Accounts.{
  HandoffCode, Database, handoff_code_invalid, is_some, handoff_code_ttl,
}
use simple_host_enterprise.Accounts.Handoff.{
  create_handoff_code, hash_matches, redeem_row, redeem_handoff_code,
}
use simple_host_enterprise.Accounts.Spent.{IsSpent, CodeRun, stay, more, step-IsSpent}

run-IsSpent :
    (code : Bytes) (db after : Database)
    → CodeRun code db after
    → IsSpent code db
    → IsSpent code after
run-IsSpent code db _ stay w = w
run-IsSpent code db after (more {mid = mid} run step) w =
    step-IsSpent code mid after step (run-IsSpent code db mid run w)

spent-refused :
    (code : Bytes) (now : ℕ) (host : Bytes) (presented : Option Bytes) (db : Database)
    → IsSpent code db
    → (redeem_handoff_code now code host presented db).1 ≡ err handoff_code_invalid
unfolding IsSpent redeem_handoff_code redeem_row row_passes
spent-refused code now host presented db (u, s) =
    elim (Option-cases (lookup code db.handoff_codes)) [
      | inl e ↦ rw (e, redeem_row) refl
      | inr (c, e) ↦ elim (Bool-cases (is_some c.redeemed_at)) [
        | inl spent ↦ rw (e, redeem_row, spent) refl
        | inr fresh ↦ absurd (false≢true (sym (rw (e, row_passes, fresh) at s)))
      ]
    ]

attempt-IsSpent :
    (code : Bytes) (now : ℕ) (host : Bytes) (presented : Option Bytes) (db : Database)
    → IsUnique db.handoff_codes
    → IsSpent code (redeem_handoff_code now code host presented db).0
unfolding IsSpent redeem_handoff_code redeem_row row_passes
attempt-IsSpent code now host presented db u = elim (Option-cases (lookup code db.handoff_codes)) [
  | inl e ↦ rw (e, redeem_row) (u, rw (e, row_passes) refl)
  | inr (c, e) ↦ elim (Bool-cases (is_some c.redeemed_at)) [
    | inl spent ↦ rw (e, redeem_row, spent) (u, rw (e, row_passes, spent) refl)
    | inr fresh ↦
        let row : HandoffCode = record c { redeemed_at = some now } in
        rw (e, redeem_row, fresh)
          (
            insert-IsUnique code row db.handoff_codes u,
            rw (lookup-insert code code row db.handoff_codes, ==_self code) refl,
          )
  ]
]

-- A hand-off code is spent by the first attempt to redeem it, whether that succeeds or not: after it,
-- and after whatever is then done to the codes but minting this one again, every attempt is refused,
-- on any host and with any nonce. The hash is the primary key of `handoff_codes`.
pub redeemed_once :
    (code : Bytes) (now later : ℕ) (host other_host : Bytes) (presented other_nonce : Option Bytes)
    (db after : Database)
    → IsUnique db.handoff_codes
    → CodeRun code (redeem_handoff_code now code host presented db).0 after
    → (redeem_handoff_code later code other_host other_nonce after).1 ≡ err handoff_code_invalid
redeemed_once code now later host other_host presented other_nonce db after u run =
    spent-refused code later other_host other_nonce after (
      run-IsSpent code (redeem_handoff_code now code host presented db).0 after run
        (attempt-IsSpent code now host presented db u))

answer_iff :
    (session_id host nonce_hash target session : Bytes) (presented : Option Bytes) (later until : ℕ)
    → ((if ltb later until && host == target && hash_matches nonce_hash presented
          then ok session_id
          else err handoff_code_invalid)
        ≡ ok session)
      ↔ ((session_id ≡ session) × (host ≡ target) × (presented ≡ some nonce_hash) × (later < until))
unfolding hash_matches
answer_iff session_id host nonce_hash target session none later until =
    elim (Bool-cases (ltb later until && host == target)) [
      | inl a ↦ rw a (λ h. cc, λ h. cc h.2)
      | inr a ↦ rw a (λ h. cc, λ h. cc h.2)
    ]
answer_iff session_id host nonce_hash target session (some n) later until =
    elim (Bool-cases (ltb later until && host == target && nonce_hash == n)) [
      | inl a ↦
          let (both, same) = &&-true (ltb later until && host == target) (nonce_hash == n) a in
          let (early, there) = &&-true (ltb later until) (host == target) both in
          rw a (
            λ h. (
              ok-injective h,
              (==_iff host target).0 there,
              ap some (sym ((==_iff nonce_hash n).0 same)),
              ground (arith, early),
            ),
            λ h. ap ok h.0,
          )
      | inr a ↦ rw a (
        λ h. cc,
        λ (e, there, same, early).
            let t : ltb later until ≡ true = ground (arith, early) in
            absurd (
              false≢true (
                sym a
                ∙ rw
                    (
                      t,
                      (==_iff host target).1 there,
                      (==_iff nonce_hash n).1 (sym (some-injective n nonce_hash same)),
                    )
                    refl)),
      )
    ]

-- A code that was just minted is redeemed exactly on the host that it was minted for, with the nonce
-- that it was minted with, and within the minute, and then for the session it was minted for.
pub redeem-create_iff :
    (code session_id host nonce_hash target : Bytes) (presented : Option Bytes) (session : Bytes)
    (now later : ℕ) (db after : Database)
    → create_handoff_code now code session_id host nonce_hash db ≡ ok after
    → ((redeem_handoff_code later code target presented after).1 ≡ ok session) ↔ (
        (session_id ≡ session)
        × (host ≡ target)
        × (presented ≡ some nonce_hash)
        × (later < now + handoff_code_ttl))
unfolding create_handoff_code redeem_handoff_code redeem_row hash_matches
redeem-create_iff code session_id host nonce_hash target presented session now later db after h =
    let (free, h1) =
      refuse_if-passed
        (is_some (lookup code db.handoff_codes) || not (is_some (lookup session_id db.sessions))) _
        _ h in
    let row : HandoffCode = record {
      session_id = session_id;
      target_host = host;
      nonce_hash = nonce_hash;
      created_at = now;
      redeemed_at = none;
    } in
    let found : lookup code after.handoff_codes ≡ some row =
      ap (λ (d : Database). lookup code d.handoff_codes) (sym (ok-injective h1))
      ∙ rw (lookup-insert code code row db.handoff_codes, ==_self code) refl in
    rw (found, redeem_row)
      (answer_iff session_id host nonce_hash target session presented later
        (now + handoff_code_ttl))
