-- ===== src/Accounts/Disabling.antt =====
-- internal/db/identity.go: what disabling a person leaves of their sessions, keys and tokens.
use simple_host_enterprise.Common.{
  ℕ, ◌≡◌, refl, sym, ap, subst, inl, inr, Bool, true, false, not, ◌&&◌, Option, none, some, Bytes,
  All, ◌==◌, ℕ_eq, List_eq, ok, >>=-eq-ok, refuse_if-passed, ok-injective, Bool-cases, arith,
}
use simple_host_enterprise.Common.Rows.{count_rows}
use simple_host_enterprise.Common.RowSets.{
  update_rows-All, All-trivial, delete_rows-All, delete_rows-fails,
}
use simple_host_enterprise.Accounts.{
  Session, ApiKey, Database, is_some, revoke_row, revoke_all_sessions_for_user,
}
use simple_host_enterprise.Accounts.Credentials.{
  revoke_key_row, revoke_all_api_keys_for_user, delete_oauth_grants_for_user, is_that_person,
  set_disabled_at, set_user_disabled, is_target_admin, other_admins,
}
use simple_host_enterprise.Accounts.SignedOut.{is_spent_session, is_spent_key, IsSignedOut}

abbrev pub SpentSession : Bytes → Bytes × Session → Type 0
SpentSession user_id x = is_spent_session user_id x.1 ≡ true

abbrev pub SpentKey : Bytes → Bytes × ApiKey → Type 0
SpentKey user_id x = is_spent_key user_id x.1 ≡ true

pub revoke_row-spent :
    (user_id : Bytes) (now : ℕ) (c : Bool) (s : Session)
    → is_spent_session user_id s ≡ true
    → is_spent_session user_id (revoke_row now c s) ≡ true
unfolding is_spent_session revoke_row
revoke_row-spent user_id now c s h = elim (Bool-cases (c && not (is_some s.revoked_at))) [
  | inl t ↦ rw t (ground arith)
  | inr t ↦ rw t h
]

pub revoke_key_row-spent :
    (user_id : Bytes) (now : ℕ) (c : Bool) (a : ApiKey)
    → is_spent_key user_id a ≡ true
    → is_spent_key user_id (revoke_key_row now c a) ≡ true
unfolding is_spent_key revoke_key_row
revoke_key_row-spent user_id now c a h = elim (Bool-cases (c && not (is_some a.revoked_at))) [
  | inl t ↦ rw t (ground arith)
  | inr t ↦ rw t h
]

-- A revocation of all that is the person's.
revoke_row-all :
    (user_id : Bytes) (now : ℕ) (s : Session)
    → is_spent_session user_id (revoke_row now (s.user_id == user_id) s) ≡ true
unfolding is_spent_session revoke_row
revoke_row-all user_id now s = elim (Bool-cases (s.user_id == user_id)) [
  | inl own ↦ elim (Bool-cases (is_some s.revoked_at)) [
    | inl gone ↦ rw (own, gone) (rw (own, gone) refl)
    | inr live ↦ rw (own, live) (rw own refl)
  ]
  | inr other ↦ rw other (rw other refl)
]

revoke_key_row-all :
    (user_id : Bytes) (now : ℕ) (a : ApiKey)
    → is_spent_key user_id (revoke_key_row now (a.user_id == user_id) a) ≡ true
unfolding is_spent_key revoke_key_row
revoke_key_row-all user_id now a = elim (Bool-cases (a.user_id == user_id)) [
  | inl own ↦ elim (Bool-cases (is_some a.revoked_at)) [
    | inl gone ↦ rw (own, gone) (rw (own, gone) refl)
    | inr live ↦ rw (own, live) (rw own refl)
  ]
  | inr other ↦ rw other (rw other refl)
]

-- Disabling and enabling change the persons' rows alone.
set_disabled_at-kept :
    (person : Bytes) (t : Option ℕ) (db after : Database)
    → set_disabled_at person t db ≡ ok after
    → (after.sessions ≡ db.sessions)
      × (after.api_keys ≡ db.api_keys)
      × (after.oauth_grants ≡ db.oauth_grants)
unfolding set_disabled_at
set_disabled_at-kept person t db after h =
    let (counted, h1) = refuse_if-passed (count_rows (is_that_person person) db.users == 0) _ _ h in
    let shape = ok-injective h1 in
    (
      ap (λ (d : Database). d.sessions) (sym shape),
      ap (λ (d : Database). d.api_keys) (sym shape),
      ap (λ (d : Database). d.oauth_grants) (sym shape),
    )

-- Disabling itself, whatever the tables were before.
pub disable-IsSignedOut :
    (now : ℕ) (user_id : Bytes) (db after : Database)
    → set_user_disabled now user_id true db ≡ ok after
    → IsSignedOut user_id after
unfolding set_user_disabled IsSignedOut revoke_all_sessions_for_user revoke_all_api_keys_for_user
    delete_oauth_grants_for_user
disable-IsSignedOut now user_id db after h =
    let (kept, h1) =
      refuse_if-passed (is_target_admin user_id db && other_admins user_id db == 0) _ _ h in
    let (mid, disabled, h2) = >>=-eq-ok (set_disabled_at user_id (some now) db) _ h1 in
    let sessions =
      update_rows-All (λ x. Unit {0}) (SpentSession user_id) _ mid.sessions
        (λ x t. revoke_row-all user_id now x.1)
        (All-trivial (λ x. Unit {0}) mid.sessions (λ x. tt)) in
    let keys =
      update_rows-All (λ x. Unit {0}) (SpentKey user_id) _ mid.api_keys
        (λ x t. revoke_key_row-all user_id now x.1)
        (All-trivial (λ x. Unit {0}) mid.api_keys (λ x. tt)) in
    let grants = delete_rows-fails (λ (k : Bytes) owner. owner == user_id) mid.oauth_grants in
    subst (IsSignedOut user_id) (ok-injective h2) (sessions, keys, grants)

-- Any disabling or enabling keeps a person signed out.
pub set_user_disabled-IsSignedOut :
    (now : ℕ) (user_id person : Bytes) (disabled : Bool) (db after : Database)
    → set_user_disabled now person disabled db ≡ ok after
    → IsSignedOut user_id db
    → IsSignedOut user_id after
unfolding set_user_disabled IsSignedOut revoke_all_sessions_for_user revoke_all_api_keys_for_user
    delete_oauth_grants_for_user
set_user_disabled-IsSignedOut now user_id person false db after h (s, k, g) =
    let (es, ek, eg) = set_disabled_at-kept person none db after h in
    (
      subst (All (SpentSession user_id)) (sym es) s,
      subst (All (SpentKey user_id)) (sym ek) k,
      subst (All (λ (x : Bytes × Bytes). (x.1 == user_id) ≡ false)) (sym eg) g,
    )
set_user_disabled-IsSignedOut now user_id person true db after h (s, k, g) =
    let (kept, h1) =
      refuse_if-passed (is_target_admin person db && other_admins person db == 0) _ _ h in
    let (mid, disabled, h2) = >>=-eq-ok (set_disabled_at person (some now) db) _ h1 in
    let (es, ek, eg) = set_disabled_at-kept person (some now) db mid disabled in
    let sessions =
      update_rows-All (SpentSession user_id) (SpentSession user_id) _ mid.sessions
        (λ x t. revoke_row-spent user_id now (x.1.user_id == person) x.1 t)
        (subst (All (SpentSession user_id)) (sym es) s) in
    let keys =
      update_rows-All (SpentKey user_id) (SpentKey user_id) _ mid.api_keys
        (λ x t. revoke_key_row-spent user_id now (x.1.user_id == person) x.1 t)
        (subst (All (SpentKey user_id)) (sym ek) k) in
    let grants =
      delete_rows-All (λ (x : Bytes × Bytes). (x.1 == user_id) ≡ false)
        (λ (j : Bytes) owner. owner == person) mid.oauth_grants
        (subst (All (λ (x : Bytes × Bytes). (x.1 == user_id) ≡ false)) (sym eg) g) in
    subst (IsSignedOut user_id) (ok-injective h2) (sessions, keys, grants)
