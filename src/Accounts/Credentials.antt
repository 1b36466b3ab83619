-- ===== src/Accounts/Credentials.antt =====
-- internal/db/api_keys.go, the tokens of internal/db/oauth.go, and SetUserDisabledTx of
-- internal/db/identity.go: what else signs a person in, and disabling the person.
use simple_host_enterprise.Common.{
  ℕ, Bool, true, false, not, ◌&&◌, ◌||◌, Option, none, some, Bytes, String, ltb, if◌then◌else◌,
  ◌==◌, List_eq, ℕ_eq, Result, ok, ◌>>=◌, ◌>>◌, refuse_if,
}
use simple_host_enterprise.Common.Maps.{lookup, insert}
use simple_host_enterprise.Common.Rows.{update_rows, delete_rows, count_rows, find_row, row_passes}
use simple_host_enterprise.Storage.Budget.{pos}
use simple_host_enterprise.Accounts.{
  User, ApiKey, OauthToken, access, refresh, Database, AccountError, no_rows, constraint_violated,
  last_admin, is_some, or_error, is_person, is_older, touch_session_interval,
  revoke_all_sessions_for_user,
}

-- The id is what `gen_random_uuid` gives.
unfoldable pub create_api_key :
    ℕ
    → Bytes
    → Bytes
    → Bytes
    → Bytes
    → Bytes
    → Bytes
    → ℕ
    → String
    → Database
    → Result AccountError Database
create_api_key now id user_id name key_hash prefix last4 expires_at scope db = do
  refuse_if
      (is_some (lookup id db.api_keys)
        || is_some (find_row (λ k (a : ApiKey). a.key_hash == key_hash) db.api_keys)
        || not (is_some (lookup user_id db.users)))
      constraint_violated
  let row : ApiKey = record {
    user_id = user_id;
    name = name;
    key_hash = key_hash;
    prefix = prefix;
    last4 = last4;
    created_at = now;
    last_used_at = none;
    revoked_at = none;
    expires_at = expires_at;
    scope = scope;
  }
  ok (record db { api_keys = insert id row db.api_keys })

-- The row of a key that is neither revoked nor expired.
unfoldable pub is_live_key : ℕ → Bytes → ApiKey → Bool
is_live_key now key_hash a =
    a.key_hash == key_hash && not (is_some a.revoked_at) && ltb now a.expires_at

unfoldable pub get_user_by_api_key_hash :
    ℕ → Bytes → Database → Result AccountError (User × (Bytes × ApiKey))
get_user_by_api_key_hash now key_hash db = do
  row ← or_error no_rows (find_row (λ k a. is_live_key now key_hash a) db.api_keys)
  u ← or_error no_rows (lookup row.1.user_id db.users)
  refuse_if (is_some u.disabled_at) no_rows
  ok (u, row)

-- Whether the key's stamp is renewed.
unfoldable pub touches : ℕ → Bytes → Bytes → ApiKey → Bool
touches now id k a =
    k == id
    && elim a.last_used_at [ none ↦ true | some t ↦ is_older now (pos touch_session_interval) t ]

unfoldable pub touch_api_key : ℕ → Bytes → Database → Database
touch_api_key now id db = record db {
  api_keys =
      update_rows
        (λ k (a : ApiKey). if touches now id k a then record a { last_used_at = some now } else a)
        db.api_keys;
}

unfoldable pub revoke_key_row : ℕ → Bool → ApiKey → ApiKey
revoke_key_row now concerned a =
    if concerned && not (is_some a.revoked_at) then record a { revoked_at = some now } else a

unfoldable pub is_own_key : Bytes → Bytes → Bytes → ApiKey → Bool
is_own_key user_id id k a = k == id && a.user_id == user_id

unfoldable pub revoke_api_key : ℕ → Bytes → Bytes → Database → Result AccountError Database
revoke_api_key now user_id id db = do
  let affected =
      count_rows (λ k a. is_own_key user_id id k a && not (is_some a.revoked_at)) db.api_keys
  refuse_if (affected == 0) no_rows
  ok (record db {
    api_keys = update_rows (λ k a. revoke_key_row now (is_own_key user_id id k a) a) db.api_keys;
  })

unfoldable pub revoke_all_api_keys_for_user : ℕ → Bytes → Database → Database
revoke_all_api_keys_for_user now user_id db = record db {
  api_keys =
      update_rows (λ k (a : ApiKey). revoke_key_row now (a.user_id == user_id) a) db.api_keys;
}

-- The tokens of a deleted grant go with it (`ON DELETE CASCADE`).
unfoldable pub delete_oauth_grants_for_user : Bytes → Database → Database
delete_oauth_grants_for_user user_id db =
    let grants = delete_rows (λ (k : Bytes) owner. owner == user_id) db.oauth_grants in
    let orphan = λ (k : Bytes) (t : OauthToken). not (is_some (lookup t.grant_id grants)) in
    record db { oauth_grants = grants; oauth_tokens = delete_rows orphan db.oauth_tokens }

unfoldable pub get_user_by_oauth_access_token :
    ℕ → Bytes → Database → Result AccountError (User × Bytes)
get_user_by_oauth_access_token now token_hash db = do
  t ← or_error no_rows (lookup token_hash db.oauth_tokens)
  refuse_if (elim t.kind [ access ↦ false | refresh ↦ true ] || not (ltb now t.expires_at)) no_rows
  user_id ← or_error no_rows (lookup t.grant_id db.oauth_grants)
  u ← or_error no_rows (lookup user_id db.users)
  refuse_if (is_some u.disabled_at || not (is_person u)) no_rows
  ok (u, t.grant_id)

unfoldable pub is_enabled_admin : User → Bool
is_enabled_admin u = u.is_admin && not (is_some u.disabled_at)

-- The enabled admins but `user_id`.
unfoldable pub other_admins : Bytes → Database → ℕ
other_admins user_id db =
    count_rows (λ k u. is_enabled_admin u && is_person u && not (k == user_id)) db.users

unfoldable pub is_that_person : Bytes → Bytes → User → Bool
is_that_person user_id k u = k == user_id && is_person u

unfoldable pub disable_row : Bytes → Option ℕ → Bytes → User → User
disable_row user_id t k u = if is_that_person user_id k u then record u { disabled_at = t } else u

unfoldable pub set_disabled_at : Bytes → Option ℕ → Database → Result AccountError Database
set_disabled_at user_id t db = do
  refuse_if (count_rows (is_that_person user_id) db.users == 0) no_rows
  ok (record db { users = update_rows (disable_row user_id t) db.users })

-- Whether the person exists and is an enabled admin.
unfoldable pub is_target_admin : Bytes → Database → Bool
is_target_admin user_id db = row_passes is_enabled_admin (lookup user_id db.users)

unfoldable pub set_user_disabled : ℕ → Bytes → Bool → Database → Result AccountError Database
set_user_disabled now user_id false db = set_disabled_at user_id none db
set_user_disabled now user_id true db = do
  refuse_if (is_target_admin user_id db && other_admins user_id db == 0) last_admin
  disabled ← set_disabled_at user_id (some now) db
  let signed_out = revoke_all_sessions_for_user now user_id disabled
  let without_keys = revoke_all_api_keys_for_user now user_id signed_out
  ok (delete_oauth_grants_for_user user_id without_keys)
