-- ===== src/Accounts/SignedOut.antt =====
-- What is done to the accounts of internal/db, in any order, and what leaves a person signed out.
use simple_host_enterprise.Common.{
  ℕ, ◌≡◌, Bool, true, false, not, ◌||◌, Option, Bytes, String, All, ◌==◌, ℕ_eq, List_eq, ok,
}
use simple_host_enterprise.Storage.Budget.{ℤ}
use simple_host_enterprise.Accounts.{
  Session, ApiKey, Database, is_some, create_session, touch_session, revoke_session,
  revoke_all_sessions_for_user, prune_sessions,
}
use simple_host_enterprise.Accounts.Handoff.{create_handoff_code, redeem_handoff_code}
use simple_host_enterprise.Accounts.Credentials.{
  create_api_key, touch_api_key, revoke_api_key, set_user_disabled,
}

-- A session or a key that is someone else's or revoked.
unfoldable pub is_spent_session : Bytes → Session → Bool
is_spent_session user_id s = not (s.user_id == user_id) || is_some s.revoked_at

unfoldable pub is_spent_key : Bytes → ApiKey → Bool
is_spent_key user_id a = not (a.user_id == user_id) || is_some a.revoked_at

-- Nothing in the tables signs the person in.
unfoldable pub IsSignedOut : Bytes → Database → Type 0
IsSignedOut user_id db =
    All (λ (x : Bytes × Session). is_spent_session user_id x.1 ≡ true) db.sessions
    × All (λ (x : Bytes × ApiKey). is_spent_key user_id x.1 ≡ true) db.api_keys
    × All (λ (x : Bytes × Bytes). (x.1 == user_id) ≡ false) db.oauth_grants

-- What is done to the accounts but signing this person in, giving them a key or connecting an app.
pub data Step (user_id : Bytes) : Database → Database → Type 0 where
  sign_in :
      {db after : Database} (now : ℕ) (id other : Bytes) (expires_at : ℕ) (ip user_agent : Bytes)
      → (other == user_id) ≡ false
      → create_session now id other expires_at ip user_agent db ≡ ok after
      → Step user_id db after
  mint :
      {db after : Database} (now : ℕ) (id other name key_hash prefix last4 : Bytes) (expires_at : ℕ)
      (scope : String)
      → (other == user_id) ≡ false
      → create_api_key now id other name key_hash prefix last4 expires_at scope db ≡ ok after
      → Step user_id db after
  touch : {db : Database} (now : ℕ) (id : Bytes) → Step user_id db (touch_session now id db)
  touch_key : {db : Database} (now : ℕ) (id : Bytes) → Step user_id db (touch_api_key now id db)
  revoke :
      {db after : Database} (now : ℕ) (owner id : Bytes)
      → revoke_session now owner id db ≡ ok after
      → Step user_id db after
  revoke_all :
      {db : Database} (now : ℕ) (owner : Bytes)
      → Step user_id db (revoke_all_sessions_for_user now owner db)
  revoke_key :
      {db after : Database} (now : ℕ) (owner id : Bytes)
      → revoke_api_key now owner id db ≡ ok after
      → Step user_id db after
  prune :
      {db after : Database} (now deleted : ℕ) (retention_days : ℤ)
      → prune_sessions now retention_days db ≡ ok (after, deleted)
      → Step user_id db after
  hand_off :
      {db after : Database} (now : ℕ) (code_hash session_id target_host nonce_hash : Bytes)
      → create_handoff_code now code_hash session_id target_host nonce_hash db ≡ ok after
      → Step user_id db after
  redeem :
      {db : Database} (now : ℕ) (code_hash target_host : Bytes) (nonce_hash : Option Bytes)
      → Step user_id db (redeem_handoff_code now code_hash target_host nonce_hash db).0
  set_disabled :
      {db after : Database} (now : ℕ) (person : Bytes) (disabled : Bool)
      → set_user_disabled now person disabled db ≡ ok after
      → Step user_id db after

pub data Run (user_id : Bytes) : Database → Database → Type 0 where
  done : {db : Database} → Run user_id db db
  next :
      {db mid after : Database} → Run user_id db mid → Step user_id mid after → Run user_id db after
