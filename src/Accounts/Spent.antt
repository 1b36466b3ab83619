-- ===== src/Accounts/Spent.antt =====
-- A hand-off code that is spent stays spent through every step.
use simple_host_enterprise.Common.{
  ℕ, zero, suc, ◌≡◌, refl, sym, ap, subst, Bool, false, not, ◌||◌, Option, none, some, Bytes, ◌==◌,
  ℕ_eq, List_eq, ok, refuse_if-passed, ok-injective, Bool-cases, Option-cases, inl, inr,
}
use simple_host_enterprise.Common.Maps.{Map, lookup, lookup-insert}
use simple_host_enterprise.Common.Rows.{
  delete_rows, row_passes, spare_row, lookup-delete_rows, delete_rows-IsUnique,
}
use simple_host_enterprise.Common.Unique.{IsUnique, insert-IsUnique}
use simple_host_enterprise.Storage.Budget.{ℤ, pos, negsuc}
use simple_host_enterprise.Accounts.{HandoffCode, Database, is_some, is_older, day, prune_sessions}
use simple_host_enterprise.Accounts.Handoff.{create_handoff_code, redeem_row, redeem_handoff_code}

-- No code of that hash can be redeemed.
unfoldable pub IsSpent : Bytes → Database → Type 0
IsSpent code db =
    IsUnique db.handoff_codes
    × (row_passes (λ (c : HandoffCode). not (is_some c.redeemed_at)) (lookup code db.handoff_codes)
        ≡ false)

-- What is done to the hand-off codes but minting this one again.
pub data CodeStep (code : Bytes) : Database → Database → Type 0 where
  mint :
      {db after : Database} (now : ℕ) (other session_id target_host nonce_hash : Bytes)
      → (other == code) ≡ false
      → create_handoff_code now other session_id target_host nonce_hash db ≡ ok after
      → CodeStep code db after
  redeem :
      {db : Database} (now : ℕ) (any target_host : Bytes) (nonce_hash : Option Bytes)
      → CodeStep code db (redeem_handoff_code now any target_host nonce_hash db).0
  prune :
      {db after : Database} (now deleted : ℕ) (retention_days : ℤ)
      → prune_sessions now retention_days db ≡ ok (after, deleted)
      → CodeStep code db after
  elsewhere :
      {db after : Database} → after.handoff_codes ≡ db.handoff_codes → CodeStep code db after

pub data CodeRun (code : Bytes) : Database → Database → Type 0 where
  stay : {db : Database} → CodeRun code db db
  more :
      {db mid after : Database}
      → CodeRun code db mid
      → CodeStep code mid after
      → CodeRun code db after

abbrev pub unredeemed : HandoffCode → Bool
unredeemed c = not (is_some c.redeemed_at)

pub create-IsSpent :
    (code : Bytes) (now : ℕ) (other session_id target_host nonce_hash : Bytes) (db after : Database)
    → (other == code) ≡ false
    → create_handoff_code now other session_id target_host nonce_hash db ≡ ok after
    → IsSpent code db
    → IsSpent code after
unfolding create_handoff_code IsSpent
create-IsSpent code now other session_id target_host nonce_hash db after differs h (u, s) =
    let (free, h1) =
      refuse_if-passed
        (is_some (lookup other db.handoff_codes) || not (is_some (lookup session_id db.sessions))) _
        _ h in
    let row : HandoffCode = record {
      session_id = session_id;
      target_host = target_host;
      nonce_hash = nonce_hash;
      created_at = now;
      redeemed_at = none;
    } in
    subst (IsSpent code) (ok-injective h1) (
      insert-IsUnique other row db.handoff_codes u,
      rw (lookup-insert other code row db.handoff_codes, differs) s,
    )

pub redeem-IsSpent :
    (code : Bytes) (now : ℕ) (any target_host : Bytes) (nonce_hash : Option Bytes) (db : Database)
    → IsSpent code db
    → IsSpent code (redeem_handoff_code now any target_host nonce_hash db).0
unfolding redeem_handoff_code redeem_row IsSpent row_passes
redeem-IsSpent code now any target_host nonce_hash db (u, s) =
    elim (Option-cases (lookup any db.handoff_codes)) [
      | inl e ↦ rw (e, redeem_row) (u, s)
      | inr (c, e) ↦ elim (Bool-cases (is_some c.redeemed_at)) [
        | inl spent ↦ rw (e, redeem_row, spent) (u, s)
        | inr fresh ↦
            let row : HandoffCode = record c { redeemed_at = some now } in
            rw (e, redeem_row, fresh)
              (
                insert-IsUnique any row db.handoff_codes u,
                elim (Bool-cases (any == code)) [
                  | inl same ↦ rw (lookup-insert any code row db.handoff_codes, same) refl
                  | inr other ↦ rw (lookup-insert any code row db.handoff_codes, other) s
                ],
              )
      ]
    ]

pub delete-IsSpent :
    (code : Bytes) (p : Bytes → HandoffCode → Bool) (m : Map Bytes HandoffCode)
    → IsUnique m
    → row_passes unredeemed (lookup code m) ≡ false
    → row_passes unredeemed (lookup code (delete_rows p m)) ≡ false
unfolding row_passes spare_row
delete-IsSpent code p m u s = elim (Option-cases (lookup code m)) [
  | inl e ↦ rw (lookup-delete_rows p code m u, e, spare_row) refl
  | inr (c, e) ↦ elim (Bool-cases (p code c)) [
    | inl d ↦ rw (lookup-delete_rows p code m u, e, spare_row, d) refl
    | inr d ↦ rw (lookup-delete_rows p code m u, e, spare_row, d) (rw (e, row_passes) at s)
  ]
]

pub prune-IsSpent :
    (code : Bytes) (now deleted : ℕ) (retention_days : ℤ) (db after : Database)
    → prune_sessions now retention_days db ≡ ok (after, deleted)
    → IsSpent code db
    → IsSpent code after
unfolding prune_sessions IsSpent
prune-IsSpent code now deleted (pos zero) db after h w = cc
prune-IsSpent code now deleted (negsuc d) db after h w = cc
prune-IsSpent code now deleted (pos (suc d)) db after h (u, s) =
    let old = λ (k : Bytes) (c : HandoffCode). is_older now (pos day) c.created_at in
    let u1 = delete_rows-IsUnique old db.handoff_codes u in
    subst (IsSpent code) (ap (λ (x : Database × ℕ). x.0) (ok-injective h)) (
      delete_rows-IsUnique _ _ u1,
      delete-IsSpent code _ _ u1 (delete-IsSpent code old db.handoff_codes u s),
    )

pub step-IsSpent :
    (code : Bytes) (db after : Database)
    → CodeStep code db after
    → IsSpent code db
    → IsSpent code after
unfolding IsSpent
step-IsSpent code db after (mint now other session host presented d h) w =
    create-IsSpent code now other session host presented db after d h w
step-IsSpent code db _ (redeem now any host presented) w =
    redeem-IsSpent code now any host presented db w
step-IsSpent code db after (prune now deleted days h) w =
    prune-IsSpent code now deleted days db after h w
step-IsSpent code db after (elsewhere e) (u, s) =
    (subst IsUnique (sym e) u, subst (λ m. row_passes unredeemed (lookup code m) ≡ false) (sym e) s)
