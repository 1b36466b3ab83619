-- ===== src/Accounts/Cookie.antt =====
-- internal/auth/session_cookie.go and VerifyHostedSession of internal/auth/hostsession.go: the signed
-- cookie of a browser session. The digest (HMAC-SHA256) and the JSON of a payload are the standard
-- library's, and they are parameters here.
use simple_host_enterprise.Common.{
  ℕ, ◌*◌, ◌/◌, Bool, not, ◌||◌, Option, none, some, List, [], ◌∷◌, ◌++◌, map, Bytes, ltb,
  if◌then◌else◌, ◌==◌, ℕ_eq, List_eq, Result, ok, err, ◌>>=◌, ◌>>◌, refuse_if,
}
use simple_host_enterprise.Common.Text.{lower_byte, cut_byte}
use simple_host_enterprise.Common.Rows.{is_member}
use simple_host_enterprise.Accounts.{second}
use simple_host_enterprise.Accounts.Base64.{encode, decode}

pub record SigningKey : Type 0 where
  pub id : Bytes
  pub key : Bytes

-- `sessionPayload`; the time is in seconds.
pub record SessionPayload : Type 0 where
  pub session_id : Bytes
  pub user_id : Bytes
  pub exp : ℕ
  pub host : Bytes

pub record VerifiedSession : Type 0 where
  pub session_id : Bytes
  pub user_id : Bytes
  pub host : Bytes

pub data CookieError : Type 0 where
  session_cookie_invalid no_signing_key host_required : CookieError

abbrev pub dot : ℕ
dot = 46

-- `strings.ToLower` and `strings.EqualFold` on host names, which are ASCII.
abbrev pub to_lower : Bytes → Bytes
to_lower = map lower_byte

unfoldable pub equal_fold : Bytes → Bytes → Bool
equal_fold a b = to_lower a == to_lower b

abbrev pub or_invalid {ℓ} : {A : Type ℓ} → Option A → Result CookieError A
or_invalid none = err session_cookie_invalid
or_invalid (some a) = ok a

-- `strings.SplitN(value, ".", 3)` where it has three parts.
unfoldable pub split_dots : Bytes → Result CookieError (Bytes × (Bytes × Bytes))
split_dots value = do
  p ← or_invalid (cut_byte dot value)
  q ← or_invalid (cut_byte dot p.1)
  ok (p.0, (q.0, q.1))

unfoldable pub find_key : Bytes → List SigningKey → Result CookieError Bytes
find_key id [] = err session_cookie_invalid
find_key id (k ∷ ks) = if k.id == id then ok k.key else find_key id ks

-- The payload that SignHostSession signs.
abbrev pub host_payload : Bytes → Bytes → Bytes → ℕ → SessionPayload
host_payload session_id user_id host expires = record {
  session_id = session_id;
  user_id = user_id;
  exp = expires / second;
  host = to_lower host;
}

-- What VerifyHostedSession makes of a verified cookie; `blocked` is the snapshot of the negative cache.
unfoldable pub accept_hosted :
    List Bytes → Bytes → Result CookieError VerifiedSession → Option (Bytes × Bytes)
accept_hosted blocked expected_host (err e) = none
accept_hosted blocked expected_host (ok v) =
    if v.host == [] || not (equal_fold v.host expected_host)
    then none
    else if is_member v.session_id blocked
    then none
    else some (v.user_id, v.session_id)

module _ (hmac : Bytes → Bytes → Bytes) (marshal : SessionPayload → Bytes)
    (unmarshal : Bytes → Option SessionPayload) where
  unfoldable pub sign_session_payload : List SigningKey → SessionPayload → Result CookieError Bytes
  sign_session_payload [] p = err no_signing_key
  sign_session_payload (signing ∷ more) p =
      let encoded = encode (marshal p) in
      ok (signing.id ++ dot ∷ (encoded ++ dot ∷ encode (hmac signing.key encoded)))

  unfoldable pub sign_session : List SigningKey → Bytes → Bytes → ℕ → Result CookieError Bytes
  sign_session keys session_id user_id expires =
      sign_session_payload keys
        (record { session_id = session_id; user_id = user_id; exp = expires / second; host = [] })

  unfoldable pub sign_host_session :
      List SigningKey → Bytes → Bytes → Bytes → ℕ → Result CookieError Bytes
  sign_host_session keys session_id user_id [] expires = err host_required
  sign_host_session keys session_id user_id (c ∷ cs) expires =
      sign_session_payload keys (host_payload session_id user_id (c ∷ cs) expires)

  unfoldable pub verify_session_cookie :
      ℕ → List SigningKey → Bytes → Result CookieError VerifiedSession
  verify_session_cookie now keys value = do
    parts ← split_dots value
    key ← find_key parts.0 keys
    signature ← or_invalid (decode parts.1.1)
    refuse_if (not (signature == hmac key parts.1.0)) session_cookie_invalid
    bytes ← or_invalid (decode parts.1.0)
    p ← or_invalid (unmarshal bytes)
    refuse_if (p.session_id == [] || p.user_id == []) session_cookie_invalid
    refuse_if (ltb (p.exp * second) now) session_cookie_invalid
    ok (record { session_id = p.session_id; user_id = p.user_id; host = p.host })

  unfoldable pub verify_hosted_session :
      ℕ → List SigningKey → List Bytes → Bytes → Bytes → Option (Bytes × Bytes)
  verify_hosted_session now keys blocked value expected_host =
      accept_hosted blocked expected_host (verify_session_cookie now keys value)
