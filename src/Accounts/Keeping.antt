-- ===== src/Accounts/Keeping.antt =====
-- Each operation on the accounts keeps a person signed out who is.
use simple_host_enterprise.Common.{
  ℕ, zero, suc, ◌≡◌, refl, ap, subst, inl, inr, true, false, not, ◌&&◌, ◌||◌, Option, none, Bytes,
  String, ◌==◌, ℕ_eq, List_eq, ok, refuse_if-passed, ok-injective, Bool-cases, Option-cases,
}
use simple_host_enterprise.Common.Maps.{lookup, insert-All}
use simple_host_enterprise.Common.Rows.{count_rows, find_row}
use simple_host_enterprise.Common.RowSets.{update_rows-All, delete_rows-All}
use simple_host_enterprise.Storage.Budget.{ℤ, pos, negsuc}
use simple_host_enterprise.Accounts.{
  Session, ApiKey, Database, is_some, is_older, create_session, touch_session,
  touch_session_interval, is_own_session, revocable, revoke_session, prune_sessions,
}
use simple_host_enterprise.Accounts.Handoff.{create_handoff_code, redeem_handoff_code, redeem_row}
use simple_host_enterprise.Accounts.Credentials.{
  create_api_key, touches, touch_api_key, is_own_key, revoke_api_key,
}
use simple_host_enterprise.Accounts.SignedOut.{is_spent_session, is_spent_key, IsSignedOut}
use simple_host_enterprise.Accounts.Disabling.{
  SpentSession, SpentKey, revoke_row-spent, revoke_key_row-spent,
}

-- A row that is new and someone else's is spent.
others-spent :
    (user_id : Bytes) (s : Session)
    → (s.user_id == user_id) ≡ false
    → is_spent_session user_id s ≡ true
unfolding is_spent_session
others-spent user_id s h = rw h refl

others_key-spent :
    (user_id : Bytes) (a : ApiKey) → (a.user_id == user_id) ≡ false → is_spent_key user_id a ≡ true
unfolding is_spent_key
others_key-spent user_id a h = rw h refl

pub create_session-IsSignedOut :
    (user_id : Bytes) (now : ℕ) (id other : Bytes) (expires_at : ℕ) (ip user_agent : Bytes)
    (db after : Database)
    → (other == user_id) ≡ false
    → create_session now id other expires_at ip user_agent db ≡ ok after
    → IsSignedOut user_id db
    → IsSignedOut user_id after
unfolding create_session IsSignedOut
create_session-IsSignedOut user_id now id other expires_at ip user_agent db after differs h
      (s, k, g) =
    let (free, h1) =
      refuse_if-passed (is_some (lookup id db.sessions) || not (is_some (lookup other db.users))) _
        _ h in
    let row : Session = record {
      user_id = other;
      created_at = now;
      expires_at = expires_at;
      last_seen_at = now;
      ip = ip;
      user_agent = user_agent;
      revoked_at = none;
    } in
    subst (IsSignedOut user_id) (ok-injective h1) (
      insert-All (SpentSession user_id) id row db.sessions (others-spent user_id row differs) s,
      k,
      g,
    )

pub create_api_key-IsSignedOut :
    (user_id : Bytes) (now : ℕ) (id other name key_hash prefix last4 : Bytes) (expires_at : ℕ)
    (scope : String) (db after : Database)
    → (other == user_id) ≡ false
    → create_api_key now id other name key_hash prefix last4 expires_at scope db ≡ ok after
    → IsSignedOut user_id db
    → IsSignedOut user_id after
unfolding create_api_key IsSignedOut
create_api_key-IsSignedOut user_id now id other name key_hash prefix last4 expires_at scope db after
      differs h (s, k, g) =
    let (free, h1) =
      refuse_if-passed
        (is_some (lookup id db.api_keys)
          || is_some (find_row (λ (j : Bytes) (a : ApiKey). a.key_hash == key_hash) db.api_keys)
          || not (is_some (lookup other db.users)))
        _ _ h in
    let row : ApiKey = record {
      user_id = other;
      name = name;
      key_hash = key_hash;
      prefix = prefix;
      last4 = last4;
      created_at = now;
      last_used_at = none;
      revoked_at = none;
      expires_at = expires_at;
      scope = scope;
    } in
    subst (IsSignedOut user_id) (ok-injective h1) (
      s,
      insert-All (SpentKey user_id) id row db.api_keys (others_key-spent user_id row differs) k,
      g,
    )

pub touch_session-IsSignedOut :
    (user_id : Bytes) (now : ℕ) (id : Bytes) (db : Database)
    → IsSignedOut user_id db
    → IsSignedOut user_id (touch_session now id db)
unfolding touch_session IsSignedOut is_spent_session
touch_session-IsSignedOut user_id now id db (s, k, g) = (
  update_rows-All (SpentSession user_id) (SpentSession user_id) _ db.sessions
      (λ x t.
        elim (Bool-cases
          (x.0 == id && is_older now (pos touch_session_interval) x.1.last_seen_at)) [
            | inl c ↦ rw c t
            | inr c ↦ rw c t
          ])
      s,
  k,
  g,
)

pub touch_api_key-IsSignedOut :
    (user_id : Bytes) (now : ℕ) (id : Bytes) (db : Database)
    → IsSignedOut user_id db
    → IsSignedOut user_id (touch_api_key now id db)
unfolding touch_api_key IsSignedOut is_spent_key
touch_api_key-IsSignedOut user_id now id db (s, k, g) = (
  s,
  update_rows-All (SpentKey user_id) (SpentKey user_id) _ db.api_keys
      (λ x t. elim (Bool-cases (touches now id x.0 x.1)) [ inl c ↦ rw c t | inr c ↦ rw c t ]) k,
  g,
)

pub revoke_session-IsSignedOut :
    (user_id : Bytes) (now : ℕ) (owner id : Bytes) (db after : Database)
    → revoke_session now owner id db ≡ ok after
    → IsSignedOut user_id db
    → IsSignedOut user_id after
unfolding revoke_session IsSignedOut
revoke_session-IsSignedOut user_id now owner id db after h (s, k, g) =
    let (found, h1) = refuse_if-passed (count_rows (revocable owner id) db.sessions == 0) _ _ h in
    subst (IsSignedOut user_id) (ok-injective h1) (
      update_rows-All (SpentSession user_id) (SpentSession user_id) _ db.sessions
          (λ x t. revoke_row-spent user_id now (is_own_session owner id x.0 x.1) x.1 t) s,
      k,
      g,
    )

pub revoke_api_key-IsSignedOut :
    (user_id : Bytes) (now : ℕ) (owner id : Bytes) (db after : Database)
    → revoke_api_key now owner id db ≡ ok after
    → IsSignedOut user_id db
    → IsSignedOut user_id after
unfolding revoke_api_key IsSignedOut
revoke_api_key-IsSignedOut user_id now owner id db after h (s, k, g) =
    let (found, h1) =
      refuse_if-passed
        (count_rows (λ j a. is_own_key owner id j a && not (is_some a.revoked_at)) db.api_keys == 0)
        _ _ h in
    subst (IsSignedOut user_id) (ok-injective h1) (
      s,
      update_rows-All (SpentKey user_id) (SpentKey user_id) _ db.api_keys
          (λ x t. revoke_key_row-spent user_id now (is_own_key owner id x.0 x.1) x.1 t) k,
      g,
    )

pub prune_sessions-IsSignedOut :
    (user_id : Bytes) (now deleted : ℕ) (retention_days : ℤ) (db after : Database)
    → prune_sessions now retention_days db ≡ ok (after, deleted)
    → IsSignedOut user_id db
    → IsSignedOut user_id after
unfolding prune_sessions IsSignedOut
prune_sessions-IsSignedOut user_id now deleted (pos zero) db after h w = cc
prune_sessions-IsSignedOut user_id now deleted (negsuc d) db after h w = cc
prune_sessions-IsSignedOut user_id now deleted (pos (suc d)) db after h (s, k, g) =
    let shape = ap (λ (x : Database × ℕ). x.0) (ok-injective h) in
    subst (IsSignedOut user_id) shape (delete_rows-All (SpentSession user_id) _ db.sessions s, k, g)

pub create_handoff_code-IsSignedOut :
    (user_id : Bytes) (now : ℕ) (code_hash session_id target_host nonce_hash : Bytes)
    (db after : Database)
    → create_handoff_code now code_hash session_id target_host nonce_hash db ≡ ok after
    → IsSignedOut user_id db
    → IsSignedOut user_id after
unfolding create_handoff_code IsSignedOut
create_handoff_code-IsSignedOut user_id now code_hash session_id target_host nonce_hash db after h
      w =
    let (free, h1) =
      refuse_if-passed
        (is_some (lookup code_hash db.handoff_codes)
          || not (is_some (lookup session_id db.sessions)))
        _ _ h in
    subst (IsSignedOut user_id) (ok-injective h1) w

pub redeem_handoff_code-IsSignedOut :
    (user_id : Bytes) (now : ℕ) (code_hash target_host : Bytes) (nonce_hash : Option Bytes)
    (db : Database)
    → IsSignedOut user_id db
    → IsSignedOut user_id (redeem_handoff_code now code_hash target_host nonce_hash db).0
unfolding redeem_handoff_code redeem_row IsSignedOut
redeem_handoff_code-IsSignedOut user_id now code_hash target_host nonce_hash db w =
    elim (Option-cases (lookup code_hash db.handoff_codes)) [
      | inl e ↦ rw (e, redeem_row) w
      | inr (c, e) ↦ elim (Bool-cases (is_some c.redeemed_at)) [
        | inl spent ↦ rw (e, redeem_row, spent) w
        | inr fresh ↦ rw (e, redeem_row, fresh) w
      ]
    ]
