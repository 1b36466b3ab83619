-- ===== src/Accounts/Blocking.antt =====
-- The list of blocked sessions says what GetValidSession refuses.
use simple_host_enterprise.Common.{
  ℕ, suc, Bytes, ℕ_eq, List_eq, ◌≡◌, refl, sym, ◌∙◌, ◌↔◌, false, ◌||◌, Option, none, some, ltb, ok,
  >>=-eq-ok, refuse_if-passed, ok-injective, ||-false, subst, ◌+◌,
}
use simple_host_enterprise.Common.Maps.{lookup}
use simple_host_enterprise.Common.Rows.{is_member, is_member-keys_where, row_passes}
use simple_host_enterprise.Common.Unique.{IsUnique}
use simple_host_enterprise.Storage.Budget.{pos}
use simple_host_enterprise.Accounts.{
  User, Session, Database, AccountError, session_invalid, is_some, or_error, is_older, is_idle,
  is_blocked_row, is_blocked, get_valid_session, list_blocked_session_ids,
}

pub or_error-ok {ℓ} :
    {A : Type ℓ} (e : AccountError) (o : Option A) {a : A} → or_error e o ≡ ok a → o ≡ some a
or_error-ok e none h = cc
or_error-ok e (some x) h = cc

-- What a session that is accepted passed.
pub get_valid_session-ok :
    (now : ℕ) (id : Bytes) (idle : _) (db : Database) (s : Session) (u : User)
    → get_valid_session now id idle db ≡ ok (s, u)
    → (lookup id db.sessions ≡ some s)
      × (lookup s.user_id db.users ≡ some u)
      × (is_some s.revoked_at ≡ false)
      × (is_some u.disabled_at ≡ false)
      × (ltb s.expires_at now ≡ false)
      × (is_idle now idle s ≡ false)
unfolding get_valid_session
get_valid_session-ok now id idle db s u h =
    let (s', found, h1) = >>=-eq-ok (or_error session_invalid (lookup id db.sessions)) _ h in
    let (u', owner, h2) = >>=-eq-ok (or_error session_invalid (lookup s'.user_id db.users)) _ h1 in
    let (alive, h3) = refuse_if-passed (is_some s'.revoked_at || is_some u'.disabled_at) _ _ h2 in
    let (fresh, h4) = refuse_if-passed (ltb s'.expires_at now) _ _ h3 in
    let (awake, h5) = refuse_if-passed (is_idle now idle s') _ _ h4 in
    let both = ||-false (is_some s'.revoked_at) (is_some u'.disabled_at) alive in
    let pair : (s', u') ≡ (s, u) = ok-injective h5 in
    subst
      (λ (x : Session × User).
        (lookup id db.sessions ≡ some x.0)
        × (lookup x.0.user_id db.users ≡ some x.1)
        × (is_some x.0.revoked_at ≡ false)
        × (is_some x.1.disabled_at ≡ false)
        × (ltb x.0.expires_at now ≡ false)
        × (is_idle now idle x.0 ≡ false))
      pair
      (
        or_error-ok session_invalid _ found,
        or_error-ok session_invalid _ owner,
        both.0,
        both.1,
        fresh,
        awake,
      )

-- A session is accepted, with an idle timeout, exactly when it and its person exist and the list of
-- blocked sessions of that moment does not have it. The id is the primary key of `sessions`.
pub get_valid_session_iff :
    (now : ℕ) (id : Bytes) (idle : ℕ) (db : Database) (s : Session) (u : User)
    → IsUnique db.sessions
    → (get_valid_session now id (pos (suc idle)) db ≡ ok (s, u)) ↔ (
        (lookup id db.sessions ≡ some s)
        × (lookup s.user_id db.users ≡ some u)
        × (is_member id (list_blocked_session_ids now (pos (suc idle)) db) ≡ false))
unfolding get_valid_session list_blocked_session_ids is_blocked_row is_blocked is_idle is_older
    row_passes
get_valid_session_iff now id idle db s u unique =
    let listed =
      is_member-keys_where (is_blocked_row now (pos (suc idle)) db.users) id db.sessions unique in
    (
      λ h.
          let (found, owner, live, enabled, fresh, awake) =
            get_valid_session-ok now id (pos (suc idle)) db s u h in
          (
            found,
            owner,
            rw (listed, found, row_passes, owner, row_passes, live, fresh, awake, enabled) refl,
          ),
      λ (found, owner, h).
          let clear : (is_some s.revoked_at
                || ltb s.expires_at now
                || ltb (s.last_seen_at + suc idle) now
                || is_some u.disabled_at)
              ≡ false =
            rw (found, row_passes, owner, row_passes) at (sym listed ∙ h) in
          let (most, enabled) =
            ||-false
              (is_some s.revoked_at || ltb s.expires_at now || ltb (s.last_seen_at + suc idle) now)
              (is_some u.disabled_at) clear in
          let (more, awake) =
            ||-false (is_some s.revoked_at || ltb s.expires_at now)
              (ltb (s.last_seen_at + suc idle) now) most in
          let (live, fresh) = ||-false (is_some s.revoked_at) (ltb s.expires_at now) more in
          rw (found, owner, live, enabled, fresh, awake) refl,
    )
