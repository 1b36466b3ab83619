-- ===== src/Accounts/StaysOut.antt =====
-- Nothing but a new sign-in, a new key or a newly connected app lets a person who was disabled act.
use simple_host_enterprise.Common.{
  ℕ, ◌≡◌, refl, ap, subst, inl, inr, Bool, true, false, not, ◌&&◌, Bytes, ◌==◌, ℕ_eq, List_eq, ok,
  >>=-eq-ok, refuse_if-passed, ok-injective, Bool-cases, Option-cases, &&-true, ltb, false≢true,
}
use simple_host_enterprise.Common.Maps.{lookup}
use simple_host_enterprise.Common.Rows.{find_row, row_passes}
use simple_host_enterprise.Common.RowSets.{update_rows-All, find_row-All, lookup-All}
use simple_host_enterprise.Storage.Budget.{ℤ}
use simple_host_enterprise.Accounts.{
  User, Session, ApiKey, Database, no_rows, is_some, or_error, get_valid_session,
  revoke_all_sessions_for_user,
}
use simple_host_enterprise.Accounts.Credentials.{is_live_key, get_user_by_api_key_hash}
use simple_host_enterprise.Accounts.SignedOut.{
  is_spent_session, is_spent_key, IsSignedOut, Step, sign_in, mint, touch, touch_key, revoke,
  revoke_all, revoke_key, prune, hand_off, redeem, set_disabled, Run, done, next,
}
use simple_host_enterprise.Accounts.Disabling.{
  SpentSession, SpentKey, revoke_row-spent, set_user_disabled-IsSignedOut,
}
use simple_host_enterprise.Accounts.Blocking.{get_valid_session-ok, or_error-ok}
use simple_host_enterprise.Accounts.Middleware.{Principal, by_key, by_grant, by_session}
use simple_host_enterprise.Accounts.Keeping.{
  create_session-IsSignedOut, create_api_key-IsSignedOut, touch_session-IsSignedOut,
  touch_api_key-IsSignedOut, revoke_session-IsSignedOut, revoke_api_key-IsSignedOut,
  prune_sessions-IsSignedOut, create_handoff_code-IsSignedOut, redeem_handoff_code-IsSignedOut,
}

revoke_all-IsSignedOut :
    (user_id : Bytes) (now : ℕ) (owner : Bytes) (db : Database)
    → IsSignedOut user_id db
    → IsSignedOut user_id (revoke_all_sessions_for_user now owner db)
unfolding revoke_all_sessions_for_user IsSignedOut
revoke_all-IsSignedOut user_id now owner db (s, k, g) = (
  update_rows-All (SpentSession user_id) (SpentSession user_id) _ db.sessions
      (λ x t. revoke_row-spent user_id now (x.1.user_id == owner) x.1 t) s,
  k,
  g,
)

Step-IsSignedOut :
    (user_id : Bytes) (db after : Database)
    → Step user_id db after
    → IsSignedOut user_id db
    → IsSignedOut user_id after
Step-IsSignedOut u db after (sign_in now id other expires_at ip agent d h) w =
    create_session-IsSignedOut u now id other expires_at ip agent db after d h w
Step-IsSignedOut u db after (mint now id other name hash prefix last4 expires_at scope d h) w =
    create_api_key-IsSignedOut u now id other name hash prefix last4 expires_at scope db after d h w
Step-IsSignedOut u db _ (touch now id) w = touch_session-IsSignedOut u now id db w
Step-IsSignedOut u db _ (touch_key now id) w = touch_api_key-IsSignedOut u now id db w
Step-IsSignedOut u db after (revoke now owner id h) w =
    revoke_session-IsSignedOut u now owner id db after h w
Step-IsSignedOut u db _ (revoke_all now owner) w = revoke_all-IsSignedOut u now owner db w
Step-IsSignedOut u db after (revoke_key now owner id h) w =
    revoke_api_key-IsSignedOut u now owner id db after h w
Step-IsSignedOut u db after (prune now deleted days h) w =
    prune_sessions-IsSignedOut u now deleted days db after h w
Step-IsSignedOut u db after (hand_off now code session host nonce h) w =
    create_handoff_code-IsSignedOut u now code session host nonce db after h w
Step-IsSignedOut u db _ (redeem now code host nonce) w =
    redeem_handoff_code-IsSignedOut u now code host nonce db w
Step-IsSignedOut u db after (set_disabled now person disabled h) w =
    set_user_disabled-IsSignedOut now u person disabled db after h w

pub Run-IsSignedOut :
    (user_id : Bytes) (db after : Database)
    → Run user_id db after
    → IsSignedOut user_id db
    → IsSignedOut user_id after
Run-IsSignedOut u db _ done w = w
Run-IsSignedOut u db after (next {mid = mid} run step) w =
    Step-IsSignedOut u mid after step (Run-IsSignedOut u db mid run w)

-- Whether a request is made in the person's name.
unfoldable pub acts_as : Database → Bytes → Principal → Bool
acts_as db user_id (by_key u id a) = a.user_id == user_id
acts_as db user_id (by_grant u grant_id) =
    row_passes (λ owner. owner == user_id) (lookup grant_id db.oauth_grants)
acts_as db user_id (by_session u s id) = s.user_id == user_id

-- What is spent does not sign in.
spent-others :
    (user_id : Bytes) (s : Session)
    → is_spent_session user_id s ≡ true
    → is_some s.revoked_at ≡ false
    → (s.user_id == user_id) ≡ false
unfolding is_spent_session
spent-others user_id s spent live = elim (Bool-cases (s.user_id == user_id)) [
  | inl own ↦ absurd (false≢true (rw (own, live) at spent))
  | inr other ↦ other
]

pub session-not_acting :
    (now : ℕ) (id : Bytes) (idle : ℤ) (db : Database) (s : Session) (u : User) (user_id : Bytes)
    → IsSignedOut user_id db
    → get_valid_session now id idle db ≡ ok (s, u)
    → (s.user_id == user_id) ≡ false
unfolding IsSignedOut
session-not_acting now id idle db s u user_id w h =
    let valid = get_valid_session-ok now id idle db s u h in
    spent-others user_id s (lookup-All (SpentSession user_id) id s db.sessions w.0 valid.0) valid.2

pub key-not_acting :
    (now : ℕ) (key_hash : Bytes) (db : Database) (u : User) (id : Bytes) (a : ApiKey)
    (user_id : Bytes)
    → IsSignedOut user_id db
    → get_user_by_api_key_hash now key_hash db ≡ ok (u, (id, a))
    → (a.user_id == user_id) ≡ false
unfolding IsSignedOut get_user_by_api_key_hash is_live_key is_spent_key
key-not_acting now key_hash db u id a user_id w h =
    let ((j, b), found, h1) =
      >>=-eq-ok
        (or_error no_rows (find_row (λ k (x : ApiKey). is_live_key now key_hash x) db.api_keys)) _
        h in
    let (owner, o, h2) = >>=-eq-ok (or_error no_rows (lookup b.user_id db.users)) _ h1 in
    let (enabled, h3) = refuse_if-passed (is_some owner.disabled_at) _ _ h2 in
    let (spent, live) =
      find_row-All (SpentKey user_id) (λ k (x : ApiKey). is_live_key now key_hash x) db.api_keys
        (j, b) w.1 (or_error-ok no_rows _ found) in
    let unrevoked =
      &&-true (b.key_hash == key_hash) (not (is_some b.revoked_at))
        (&&-true (b.key_hash == key_hash && not (is_some b.revoked_at)) (ltb now b.expires_at)
          live).0 in
    let same : b ≡ a = ap (λ (x : User × (Bytes × ApiKey)). x.1.1) (ok-injective h3) in
    subst (λ (x : ApiKey). (x.user_id == user_id) ≡ false) same
      (elim (Bool-cases (b.user_id == user_id)) [
        | inr other ↦ other
        | inl own ↦ elim (Bool-cases (is_some b.revoked_at)) [
          | inl gone ↦ absurd (false≢true (rw gone at unrevoked.1))
          | inr kept ↦ absurd (false≢true (rw (own, kept) at spent))
        ]
      ])

pub grant-not_acting :
    (db : Database) (u : User) (grant_id user_id : Bytes)
    → IsSignedOut user_id db
    → acts_as db user_id (by_grant u grant_id) ≡ false
unfolding IsSignedOut acts_as row_passes
grant-not_acting db u grant_id user_id w = elim (Option-cases (lookup grant_id db.oauth_grants)) [
  | inl e ↦ rw (e, row_passes) refl
  | inr (owner, e) ↦
      rw (e, row_passes)
        (lookup-All (λ (x : Bytes × Bytes). (x.1 == user_id) ≡ false) grant_id owner db.oauth_grants
          w.2 e)
]
