-- ===== src/Accounts.antt =====
-- internal/db/sessions.go, api_keys.go, handoff.go, SetUserDisabledTx of identity.go and the grants
-- of oauth.go: who is signed in. The tables are maps from a row's primary key. Times are natural
-- numbers of microseconds, and one clock stands for the server's and the database's.

pub mod Base64
pub mod Blocking
pub mod Cookie
pub mod HostCookies
pub mod Middleware
pub mod SignedOut
pub mod Disabling
pub mod Keeping
pub mod Admins
pub mod Spent
pub mod Codes
pub mod StaysOut
mod Tests
pub mod Refusing
pub mod Handoff
pub mod Credentials
use simple_host_enterprise.Common.{
  ℕ, zero, suc, ◌+◌, ◌*◌, Bool, true, false, not, ◌&&◌, ◌||◌, Option, none, some, List, Bytes,
  String, ltb, leb, nat_eq, if◌then◌else◌, Eq, ◌==◌, ℕ_eq, List_eq, Result, ok, err, ◌>>=◌, ◌>>◌,
  refuse_if,
}
use simple_host_enterprise.Common.Maps.{Map, lookup, insert}
use simple_host_enterprise.Common.Rows.{
  update_rows, delete_rows, count_rows, find_row, keys_where, row_passes,
}
use simple_host_enterprise.Storage.Budget.{ℤ, pos, negsuc}

-- `users.kind`.
pub data Kind : Type 0 where
  person team : Kind

pub record User : Type 0 where
  pub username : Bytes
  pub is_admin : Bool
  pub created_at : ℕ
  pub kind : Kind
  pub email : Bytes
  pub disabled_at : Option ℕ

-- A row of `sessions` without its id.
pub record Session : Type 0 where
  pub user_id : Bytes
  pub created_at : ℕ
  pub expires_at : ℕ
  pub last_seen_at : ℕ
  pub ip : Bytes
  pub user_agent : Bytes
  pub revoked_at : Option ℕ

-- A row of `handoff_codes` without the hash of its code.
pub record HandoffCode : Type 0 where
  pub session_id : Bytes
  pub target_host : Bytes
  pub nonce_hash : Bytes
  pub created_at : ℕ
  pub redeemed_at : Option ℕ

pub record ApiKey : Type 0 where
  pub user_id : Bytes
  pub name : Bytes
  pub key_hash : Bytes
  pub prefix : Bytes
  pub last4 : Bytes
  pub created_at : ℕ
  pub last_used_at : Option ℕ
  pub revoked_at : Option ℕ
  pub expires_at : ℕ
  pub scope : String

-- `oauth_tokens.kind`.
pub data TokenKind : Type 0 where
  access refresh : TokenKind

pub record OauthToken : Type 0 where
  pub grant_id : Bytes
  pub kind : TokenKind
  pub expires_at : ℕ

-- The tables; a connected app (`oauth_grants`) keeps the person it acts for.
pub record Database : Type 0 where
  pub users : Map Bytes User
  pub sessions : Map Bytes Session
  pub handoff_codes : Map Bytes HandoffCode
  pub api_keys : Map Bytes ApiKey
  pub oauth_grants : Map Bytes Bytes
  pub oauth_tokens : Map Bytes OauthToken

pub data AccountError : Type 0 where
  no_rows constraint_violated session_invalid handoff_code_invalid last_admin
        retention_not_positive :
      AccountError

unfoldable pub is_person : User → Bool
is_person u = elim u.kind [ person ↦ true | team ↦ false ]

abbrev pub is_some {ℓ} : {A : Type ℓ} → Option A → Bool
is_some none = false
is_some (some a) = true

abbrev pub or_error {ℓ} : {A : Type ℓ} → AccountError → Option A → Result AccountError A
or_error e none = err e
or_error e (some a) = ok a

-- `t < now - d`.
unfoldable pub is_older : ℕ → ℤ → ℕ → Bool
is_older now (pos d) t = ltb (t + d) now
is_older now (negsuc d) t = ltb t (now + suc d)

abbrev pub second : ℕ
second = 1000000

abbrev pub day : ℕ
day = 86400 * second

-- Five minutes.
abbrev pub touch_session_interval : ℕ
touch_session_interval = 300 * second

abbrev pub handoff_code_ttl : ℕ
handoff_code_ttl = 60 * second

-- The id is what `gen_random_uuid` gives; `last_seen_at` and `created_at` have the default `now()`.
unfoldable pub create_session :
    ℕ → Bytes → Bytes → ℕ → Bytes → Bytes → Database → Result AccountError Database
unfolding is_older
create_session now id user_id expires_at ip user_agent db = do
  refuse_if (is_some (lookup id db.sessions) || not (is_some (lookup user_id db.users)))
      constraint_violated
  let row : Session = record {
    user_id = user_id;
    created_at = now;
    expires_at = expires_at;
    last_seen_at = now;
    ip = ip;
    user_agent = user_agent;
    revoked_at = none;
  }
  ok (record db { sessions = insert id row db.sessions })

-- Whether the session sat idle: no timeout above zero, no check.
unfoldable pub is_idle : ℕ → ℤ → Session → Bool
is_idle now (pos zero) s = false
is_idle now (pos (suc d)) s = ltb (s.last_seen_at + suc d) now
is_idle now (negsuc d) s = false

unfoldable pub get_valid_session : ℕ → Bytes → ℤ → Database → Result AccountError (Session × User)
get_valid_session now id idle_timeout db = do
  s ← or_error session_invalid (lookup id db.sessions)
  u ← or_error session_invalid (lookup s.user_id db.users)
  refuse_if (is_some s.revoked_at || is_some u.disabled_at) session_invalid
  refuse_if (ltb s.expires_at now) session_invalid
  refuse_if (is_idle now idle_timeout s) session_invalid
  ok (s, u)

unfoldable pub touch_session : ℕ → Bytes → Database → Database
touch_session now id db = record db {
  sessions =
      update_rows
        (λ k (s : Session).
          if k == id && is_older now (pos touch_session_interval) s.last_seen_at
          then record s { last_seen_at = now }
          else s)
        db.sessions;
}

-- `UPDATE sessions SET revoked_at = now() WHERE revoked_at IS NULL AND ...`.
unfoldable pub revoke_row : ℕ → Bool → Session → Session
revoke_row now concerned s =
    if concerned && not (is_some s.revoked_at) then record s { revoked_at = some now } else s

unfoldable pub is_own_session : Bytes → Bytes → Bytes → Session → Bool
is_own_session user_id id k s = k == id && s.user_id == user_id

-- The rows that the statement changes.
unfoldable pub revocable : Bytes → Bytes → Bytes → Session → Bool
revocable user_id id k s = is_own_session user_id id k s && not (is_some s.revoked_at)

unfoldable pub revoke_session : ℕ → Bytes → Bytes → Database → Result AccountError Database
revoke_session now user_id id db = do
  refuse_if (count_rows (revocable user_id id) db.sessions == 0) no_rows
  ok (record db {
    sessions = update_rows (λ k s. revoke_row now (is_own_session user_id id k s) s) db.sessions;
  })

unfoldable pub revoke_all_sessions_for_user : ℕ → Bytes → Database → Database
revoke_all_sessions_for_user now user_id db = record db {
  sessions = update_rows (λ k (s : Session). revoke_row now (s.user_id == user_id) s) db.sessions;
}

unfoldable pub is_blocked : ℕ → ℤ → Session → User → Bool
is_blocked now idle_timeout s u =
    is_some s.revoked_at
    || ltb s.expires_at now
    || is_older now idle_timeout s.last_seen_at
    || is_some u.disabled_at

-- The row, joined with its person.
unfoldable pub is_blocked_row : ℕ → ℤ → Map Bytes User → Bytes → Session → Bool
is_blocked_row now idle_timeout users id s =
    row_passes (is_blocked now idle_timeout s) (lookup s.user_id users)

unfoldable pub list_blocked_session_ids : ℕ → ℤ → Database → List Bytes
list_blocked_session_ids now idle_timeout db =
    keys_where (is_blocked_row now idle_timeout db.users) db.sessions

-- Expired or revoked longer than `retention` ago.
unfoldable pub is_past : ℤ → ℕ → Session → Bool
is_past retention now s =
    is_older now retention s.expires_at
    || elim s.revoked_at [ none ↦ false | some t ↦ is_older now retention t ]

-- Rows whose session is gone go with it (`ON DELETE CASCADE`).
unfoldable pub prune_sessions : ℕ → ℤ → Database → Result AccountError (Database × ℕ)
prune_sessions now (pos zero) db = err retention_not_positive
prune_sessions now (negsuc d) db = err retention_not_positive
prune_sessions now (pos (suc d)) db =
    let retention = pos (suc d * day) in
    let codes =
      delete_rows (λ k (c : HandoffCode). is_older now (pos day) c.created_at) db.handoff_codes in
    let sessions = delete_rows (λ k s. is_past retention now s) db.sessions in
    let orphan = λ (k : Bytes) (c : HandoffCode). not (is_some (lookup c.session_id sessions)) in
    ok (
      record db { sessions = sessions; handoff_codes = delete_rows orphan codes },
      count_rows (λ k s. is_past retention now s) db.sessions,
    )
