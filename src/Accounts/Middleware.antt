-- ===== src/Accounts/Middleware.antt =====
-- internal/auth/middleware.go: whom a request is made by. The digest of an API key or of a token is
-- the caller's; the header and the pattern of the route come with the request.
use simple_host_enterprise.Common.{
  ℕ, String, Bool, not, Option, none, some, List, Bytes, if◌then◌else◌, ◌==◌, ℕ_eq, List_eq, Result,
  ok, err,
}
use simple_host_enterprise.Storage.Budget.{ℤ}
use simple_host_enterprise.Scope.{key_scope_allows}
use simple_host_enterprise.Accounts.{
  Database, User, Session, ApiKey, AccountError, get_valid_session, touch_session,
}
use simple_host_enterprise.Accounts.Credentials.{
  get_user_by_api_key_hash, touch_api_key, get_user_by_oauth_access_token,
}
use simple_host_enterprise.Accounts.Cookie.{
  SigningKey, SessionPayload, VerifiedSession, CookieError, equal_fold, verify_session_cookie,
}

-- An absent header or cookie is `none`.
pub record Request : Type 0 where
  pub api_key_hash : Option Bytes
  pub bearer_hash : Option Bytes
  pub via_mcp : Bool
  pub cookie : Option Bytes
  pub expected_host : Bytes
  pub pattern : String

pub data Principal : Type 0 where
  by_key : User → Bytes → ApiKey → Principal
  by_grant : User → Bytes → Principal
  by_session : User → Session → Bytes → Principal

-- 401 and 403.
pub data Refused : Type 0 where
  unauthorized forbidden : Refused

unfoldable pub admit_key :
    ℕ
    → String
    → Result AccountError (User × (Bytes × ApiKey))
    → Database
    → Database × Result Refused Principal
admit_key now pattern (err e) db = (db, err unauthorized)
admit_key now pattern (ok (u, (id, a))) db = (
  touch_api_key now id db,
  if not (key_scope_allows a.scope pattern) then err forbidden else ok (by_key u id a),
)

unfoldable pub admit_grant : Result AccountError (User × Bytes) → Result Refused Principal
admit_grant (err e) = err unauthorized
admit_grant (ok (u, grant_id)) = ok (by_grant u grant_id)

unfoldable pub admit_row :
    ℕ
    → VerifiedSession
    → Result AccountError (Session × User)
    → Database
    → Database × Result Refused Principal
admit_row now v (err e) db = (db, err unauthorized)
admit_row now v (ok (s, u)) db =
    if s.user_id == v.user_id
    then (touch_session now v.session_id db, ok (by_session u s v.session_id))
    else (db, err unauthorized)

unfoldable pub admit_cookie :
    ℕ
    → ℤ
    → Bytes
    → Result CookieError VerifiedSession
    → Database
    → Database × Result Refused Principal
admit_cookie now idle_timeout expected_host (err e) db = (db, err unauthorized)
admit_cookie now idle_timeout expected_host (ok v) db =
    if not (equal_fold v.host expected_host)
    then (db, err unauthorized)
    else admit_row now v (get_valid_session now v.session_id idle_timeout db) db

module _ (hmac : Bytes → Bytes → Bytes) (marshal : SessionPayload → Bytes)
    (unmarshal : Bytes → Option SessionPayload) where
  -- The last two arms of the handler.
  unfoldable pub authenticate_browser :
      ℕ
      → ℤ
      → List SigningKey
      → Option Bytes
      → Bytes
      → Database
      → Database × Result Refused Principal
  authenticate_browser now idle_timeout keys none expected_host db = (db, err unauthorized)
  authenticate_browser now idle_timeout keys (some value) expected_host db =
      admit_cookie now idle_timeout expected_host
        (verify_session_cookie hmac marshal unmarshal now keys value) db

  unfoldable pub authenticate_bearer :
      ℕ
      → ℤ
      → List SigningKey
      → Request
      → Option Bytes
      → Database
      → Database × Result Refused Principal
  authenticate_bearer now idle_timeout keys r none db =
      authenticate_browser now idle_timeout keys r.cookie r.expected_host db
  authenticate_bearer now idle_timeout keys r (some token_hash) db =
      if not r.via_mcp
      then (db, err unauthorized)
      else (db, admit_grant (get_user_by_oauth_access_token now token_hash db))

  unfoldable pub authenticate_key :
      ℕ
      → ℤ
      → List SigningKey
      → Request
      → Option Bytes
      → Database
      → Database × Result Refused Principal
  authenticate_key now idle_timeout keys r none db =
      authenticate_bearer now idle_timeout keys r r.bearer_hash db
  authenticate_key now idle_timeout keys r (some key_hash) db =
      admit_key now r.pattern (get_user_by_api_key_hash now key_hash db) db

  unfoldable pub authenticate :
      ℕ → ℤ → List SigningKey → Request → Database → Database × Result Refused Principal
  authenticate now idle_timeout keys r db =
      authenticate_key now idle_timeout keys r r.api_key_hash db
