-- ===== src/Accounts/Refusing.antt =====
-- Whom the middleware lets act, and whom it never does.
use simple_host_enterprise.Common.{
  ℕ, Bytes, String, ◌≡◌, refl, subst, true, false, Option, none, some, List, ◌==◌, ℕ_eq, List_eq,
  Result, ok, err, ok-injective, Bool-cases, inl, inr,
}
use simple_host_enterprise.Storage.Budget.{ℤ}
use simple_host_enterprise.Scope.{key_scope_allows}
use simple_host_enterprise.Accounts.{
  Database, User, Session, ApiKey, AccountError, get_valid_session,
}
use simple_host_enterprise.Accounts.Credentials.{
  get_user_by_api_key_hash, get_user_by_oauth_access_token, set_user_disabled,
}
use simple_host_enterprise.Accounts.Cookie.{
  SigningKey, SessionPayload, VerifiedSession, CookieError, equal_fold, verify_session_cookie,
}
use simple_host_enterprise.Accounts.Middleware.{
  Request, Principal, by_grant, admit_key, admit_grant, admit_row, admit_cookie,
  authenticate_browser, authenticate_bearer, authenticate_key, authenticate,
}
use simple_host_enterprise.Accounts.SignedOut.{IsSignedOut, Run}
use simple_host_enterprise.Accounts.Disabling.{disable-IsSignedOut}
use simple_host_enterprise.Accounts.StaysOut.{
  acts_as, session-not_acting, key-not_acting, grant-not_acting, Run-IsSignedOut,
}

admit_key-not_acting :
    (now : ℕ) (pattern : String) (r : Result AccountError (User × (Bytes × ApiKey))) (db : Database)
    (user_id : Bytes) (p : Principal)
    → ((u : User) (id : Bytes) (a : ApiKey) → r ≡ ok (u, (id, a)) → (a.user_id == user_id) ≡ false)
    → (admit_key now pattern r db).1 ≡ ok p
    → acts_as db user_id p ≡ false
unfolding admit_key acts_as
admit_key-not_acting now pattern (err e) db user_id p f h = cc
admit_key-not_acting now pattern (ok (u, (id, a))) db user_id p f h =
    elim (Bool-cases (key_scope_allows a.scope pattern)) [
      | inl allowed ↦
          subst (λ x. acts_as db user_id x ≡ false) (ok-injective (rw allowed at h)) (f u id a refl)
      | inr refused ↦ cc (rw refused at h)
    ]

admit_grant-not_acting :
    (r : Result AccountError (User × Bytes)) (db : Database) (user_id : Bytes) (p : Principal)
    → ((u : User) (g : Bytes) → acts_as db user_id (by_grant u g) ≡ false)
    → admit_grant r ≡ ok p
    → acts_as db user_id p ≡ false
unfolding admit_grant
admit_grant-not_acting (err e) db user_id p f h = cc
admit_grant-not_acting (ok (u, g)) db user_id p f h =
    subst (λ x. acts_as db user_id x ≡ false) (ok-injective h) (f u g)

admit_row-not_acting :
    (now : ℕ) (v : VerifiedSession) (r : Result AccountError (Session × User)) (db : Database)
    (user_id : Bytes) (p : Principal)
    → ((s : Session) (u : User) → r ≡ ok (s, u) → (s.user_id == user_id) ≡ false)
    → (admit_row now v r db).1 ≡ ok p
    → acts_as db user_id p ≡ false
unfolding admit_row acts_as
admit_row-not_acting now v (err e) db user_id p f h = cc
admit_row-not_acting now v (ok (s, u)) db user_id p f h =
    elim (Bool-cases (s.user_id == v.user_id)) [
      | inl same ↦
          subst (λ x. acts_as db user_id x ≡ false) (ok-injective (rw same at h)) (f s u refl)
      | inr other ↦ cc (rw other at h)
    ]

admit_cookie-not_acting :
    (now : ℕ) (idle : ℤ) (host : Bytes) (r : Result CookieError VerifiedSession) (db : Database)
    (user_id : Bytes) (p : Principal)
    → IsSignedOut user_id db
    → (admit_cookie now idle host r db).1 ≡ ok p
    → acts_as db user_id p ≡ false
unfolding admit_cookie
admit_cookie-not_acting now idle host (err e) db user_id p w h = cc
admit_cookie-not_acting now idle host (ok v) db user_id p w h =
    elim (Bool-cases (equal_fold v.host host)) [
      | inl same ↦
          admit_row-not_acting now v (get_valid_session now v.session_id idle db) db user_id p
            (λ s u e. session-not_acting now v.session_id idle db s u user_id w e) (rw same at h)
      | inr other ↦ cc (rw other at h)
    ]

module _ (hmac : Bytes → Bytes → Bytes) (marshal : SessionPayload → Bytes)
    (unmarshal : Bytes → Option SessionPayload) (now : ℕ) (idle : ℤ) (keys : List SigningKey)
    (db : Database) (user_id : Bytes) (p : Principal) (w : IsSignedOut user_id db) where
  browser-not_acting :
      (cookie : Option Bytes) (host : Bytes)
      → (authenticate_browser hmac marshal unmarshal now idle keys cookie host db).1 ≡ ok p
      → acts_as db user_id p ≡ false
  unfolding authenticate_browser
  browser-not_acting none host h = cc
  browser-not_acting (some value) host h =
      admit_cookie-not_acting now idle host
        (verify_session_cookie hmac marshal unmarshal now keys value) db user_id p w h

  bearer-not_acting :
      (r : Request) (bearer : Option Bytes)
      → (authenticate_bearer hmac marshal unmarshal now idle keys r bearer db).1 ≡ ok p
      → acts_as db user_id p ≡ false
  unfolding authenticate_bearer
  bearer-not_acting r none h = browser-not_acting r.cookie r.expected_host h
  bearer-not_acting r (some token) h = elim (Bool-cases r.via_mcp) [
    | inl mcp ↦
        admit_grant-not_acting (get_user_by_oauth_access_token now token db) db user_id p
          (λ u g. grant-not_acting db u g user_id w) (rw mcp at h)
    | inr plain ↦ cc (rw plain at h)
  ]

  key_arm-not_acting :
      (r : Request) (key : Option Bytes)
      → (authenticate_key hmac marshal unmarshal now idle keys r key db).1 ≡ ok p
      → acts_as db user_id p ≡ false
  unfolding authenticate_key
  key_arm-not_acting r none h = bearer-not_acting r r.bearer_hash h
  key_arm-not_acting r (some hash) h =
      admit_key-not_acting now r.pattern (get_user_by_api_key_hash now hash db) db user_id p
        (λ u id a found. key-not_acting now hash db u id a user_id w found) h

  authenticate-not_acting :
      (r : Request)
      → (authenticate hmac marshal unmarshal now idle keys r db).1 ≡ ok p
      → acts_as db user_id p ≡ false
  unfolding authenticate
  authenticate-not_acting r h = key_arm-not_acting r r.api_key_hash h

-- The middleware keeps a disabled person out, and for good: once a person has been disabled, and
-- whatever of this is done after that in any order: sign-ins and new keys of others, touches,
-- revocations, prunes, hand-offs, and further disabling or enabling of anyone, the person included; the
-- middleware authenticates no request in the person's name, whether it comes with a session cookie, an
-- API key or a token of a connected app. This is not about the cookies of a site's own host, which are
-- checked elsewhere.
pub disabled_stays_out :
    (hmac : Bytes → Bytes → Bytes) (marshal : SessionPayload → Bytes)
    (unmarshal : Bytes → Option SessionPayload) (start now : ℕ) (idle : ℤ) (keys : List SigningKey)
    (user_id : Bytes) (before disabled after : Database) (r : Request) (p : Principal)
    → set_user_disabled start user_id true before ≡ ok disabled
    → Run user_id disabled after
    → (authenticate hmac marshal unmarshal now idle keys r after).1 ≡ ok p
    → acts_as after user_id p ≡ false
disabled_stays_out hmac marshal unmarshal start now idle keys user_id before disabled after r p h
      run e =
    let out =
      Run-IsSignedOut user_id disabled after run
        (disable-IsSignedOut start user_id before disabled h) in
    authenticate-not_acting hmac marshal unmarshal now idle keys after user_id p out r e
