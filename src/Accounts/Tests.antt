-- ===== src/Accounts/Tests.antt =====
-- Runs of the account operations, and the theorems at concrete inputs.
use simple_host_enterprise.Common.{
  ℕ, ◌+◌, ◌%◌, ◌<◌, ◌≤◌, ◌≡◌, ◌↔◌, refl, true, false, Option, none, some, [], ◌∷◌, ◌++◌, map, Bytes,
  All, codes, ok, err, arith, ℕ_eq, List_eq,
}
use simple_host_enterprise.Common.Maps.{lookup, insert}
use simple_host_enterprise.Common.Rows.{
  is_member, keys_where, row_passes, update_rows, delete_rows, count_rows, find_row,
}
use simple_host_enterprise.Storage.Budget.{pos}
use simple_host_enterprise.Scope.{key_scope_allows, scope_reaches}
use simple_host_enterprise.Scope.Routes.{route_key_access}
use simple_host_enterprise.Accounts.{
  person, User, Session, ApiKey, Database, last_admin, session_invalid, handoff_code_invalid,
  handoff_code_ttl, get_valid_session, list_blocked_session_ids, is_idle, is_blocked,
  is_blocked_row, is_older, is_person, revoke_row, revoke_all_sessions_for_user,
}
use simple_host_enterprise.Accounts.Handoff.{create_handoff_code, redeem_handoff_code}
use simple_host_enterprise.Accounts.Credentials.{
  set_user_disabled, is_target_admin, other_admins, set_disabled_at, disable_row, is_that_person,
  is_enabled_admin, revoke_all_api_keys_for_user, delete_oauth_grants_for_user, revoke_key_row,
  get_user_by_api_key_hash, is_live_key,
}
use simple_host_enterprise.Accounts.Base64.{IsByte, encode}
use simple_host_enterprise.Common.Text.{lower_byte, cut_byte, HasNo}
use simple_host_enterprise.Accounts.Cookie.{
  SigningKey, SessionPayload, dot, find_key, sign_session_payload, to_lower, sign_host_session,
  verify_hosted_session, host_payload,
}
use simple_host_enterprise.Accounts.Middleware.{
  Request, by_key, authenticate, authenticate_key, admit_key,
}
use simple_host_enterprise.Accounts.Blocking.{get_valid_session_iff}
use simple_host_enterprise.Accounts.HostCookies.{verify_hosted_session_iff}
use simple_host_enterprise.Accounts.SignedOut.{set_disabled, done, next}
use simple_host_enterprise.Accounts.StaysOut.{acts_as}
use simple_host_enterprise.Accounts.Refusing.{disabled_stays_out}
use simple_host_enterprise.Accounts.Admins.{admins, is_admin_person, set_user_disabled-admins}
use simple_host_enterprise.Accounts.Spent.{stay}
use simple_host_enterprise.Accounts.Codes.{redeemed_once, redeem-create_iff}

abbrev alice : Bytes
alice = codes "alice"

abbrev bob : Bytes
bob = codes "bob"

abbrev admin_user : User
admin_user = record {
  username = [];
  is_admin = true;
  created_at = 1;
  kind = person;
  email = [];
  disabled_at = none;
}

abbrev alice_session : Session
alice_session = record {
  user_id = alice;
  created_at = 5;
  expires_at = 1000;
  last_seen_at = 5;
  ip = [];
  user_agent = [];
  revoked_at = none;
}

abbrev bob_key : ApiKey
bob_key = record {
  user_id = bob;
  name = codes "ci";
  key_hash = 7 ∷ [];
  prefix = [];
  last4 = [];
  created_at = 1;
  last_used_at = none;
  revoked_at = none;
  expires_at = 1000;
  scope = "full";
}

abbrev start : Database
start = record {
  users = (alice, admin_user) ∷ (bob, admin_user) ∷ [];
  sessions = (codes "s1", alice_session) ∷ [];
  handoff_codes = [];
  api_keys = (codes "k1", bob_key) ∷ [];
  oauth_grants = (codes "g1", alice) ∷ [];
  oauth_tokens = [];
}

get_valid_session_iff_example :
    (get_valid_session 10 (codes "s1") (pos 30) start ≡ ok (alice_session, admin_user)) ↔ (
      (lookup (codes "s1") start.sessions ≡ some alice_session)
      × (lookup alice start.users ≡ some admin_user)
      × (is_member (codes "s1") (list_blocked_session_ids 10 (pos 30) start) ≡ false))
unfolding lookup
get_valid_session_iff_example =
    get_valid_session_iff 10 (codes "s1") 29 start alice_session admin_user (refl, tt)

-- An idle session is refused, and listed.
idle_refused : get_valid_session 40 (codes "s1") (pos 30) start ≡ err session_invalid
unfolding get_valid_session lookup is_idle
idle_refused = refl

idle_listed : is_member (codes "s1") (list_blocked_session_ids 40 (pos 30) start) ≡ true
unfolding list_blocked_session_ids keys_where is_blocked_row is_blocked is_older row_passes lookup
    is_member
idle_listed = refl

-- A digest and a payload's text for the runs: the fields stand behind one another with zeros between.
abbrev digest : Bytes → Bytes → Bytes
digest key message = 1 ∷ 2 ∷ 3 ∷ []

abbrev as_byte : ℕ → ℕ
as_byte c = c % 256

abbrev written : SessionPayload → Bytes
written p = as_byte p.exp ∷ map as_byte (p.session_id ++ dot ∷ (p.user_id ++ dot ∷ p.host))

abbrev read : Bytes → Option SessionPayload
read [] = none
read (exp ∷ rest) = elim (cut_byte dot rest) [
  | none ↦ none
  | some p ↦ elim (cut_byte dot p.1) [
    | none ↦ none
    | some q ↦ some (record { session_id = p.0; user_id = q.0; exp = exp; host = q.1 })
  ]
]

digest-IsByte : (k m : Bytes) → All IsByte (digest k m)
unfolding IsByte
digest-IsByte k m =
    let a : 1 < 256 = omega arith in
    let b : 2 < 256 = omega arith in let c : 3 < 256 = omega arith in (a, (b, (c, tt)))

map-IsByte : (xs : Bytes) → All IsByte (map as_byte xs)
unfolding IsByte
map-IsByte [] = tt
map-IsByte (c ∷ cs) = let small : c % 256 < 256 = omega arith in (small, map-IsByte cs)

written-IsByte : (p : SessionPayload) → All IsByte (written p)
unfolding IsByte
written-IsByte p = let small : p.exp % 256 < 256 = omega arith in (small, map-IsByte _)

abbrev signing_key : SigningKey
signing_key = record { id = codes "k"; key = 9 ∷ [] }

abbrev host_cookie : Bytes
host_cookie =
    codes "k"
    ++ dot
      ∷ (encode (written (host_payload (codes "s1") alice (codes "A.ex") 100000000))
          ++ dot ∷ encode (1 ∷ 2 ∷ 3 ∷ []))

verify_hosted_session_iff_example :
    (verify_hosted_session digest written read 50 (signing_key ∷ []) [] host_cookie (codes "a.ex")
      ≡ some (alice, codes "s1"))
    ↔ ((to_lower (codes "A.ex") ≡ to_lower (codes "a.ex")) × (is_member (codes "s1") [] ≡ false))
unfolding sign_host_session sign_session_payload find_key HasNo cut_byte lower_byte
verify_hosted_session_iff_example =
    verify_hosted_session_iff digest written read digest-IsByte written-IsByte 50 signing_key []
      (signing_key ∷ []) [] (codes "s1") alice (codes "A.ex") (codes "a.ex") host_cookie 100000000
      refl (ground arith, tt) refl refl (omega arith) refl

abbrev alice_disabled : User
alice_disabled = record admin_user { disabled_at = some 10 }

abbrev disabled_tables : Database
disabled_tables = record start {
  users = (alice, alice_disabled) ∷ (bob, admin_user) ∷ [];
  sessions = (codes "s1", record alice_session { revoked_at = some 10 }) ∷ [];
  oauth_grants = [];
}

abbrev enabled_tables : Database
enabled_tables = record disabled_tables { users = (alice, admin_user) ∷ (bob, admin_user) ∷ [] }

alice_is_disabled : set_user_disabled 10 alice true start ≡ ok disabled_tables
unfolding set_user_disabled is_target_admin other_admins set_disabled_at disable_row is_that_person
    is_person is_enabled_admin revoke_all_sessions_for_user revoke_all_api_keys_for_user
    delete_oauth_grants_for_user revoke_row revoke_key_row update_rows delete_rows count_rows
    row_passes lookup
alice_is_disabled = refl

alice_is_enabled : set_user_disabled 11 alice false disabled_tables ≡ ok enabled_tables
unfolding set_user_disabled set_disabled_at disable_row is_that_person is_person update_rows
    count_rows
alice_is_enabled = refl

abbrev key_request : Request
key_request = record {
  api_key_hash = some (7 ∷ []);
  bearer_hash = none;
  via_mcp = false;
  cookie = none;
  expected_host = [];
  pattern = "GET /api/teams";
}

bob_acts :
    (authenticate digest written read 20 (pos 30) [] key_request enabled_tables).1
    ≡ ok (by_key admin_user (codes "k1") bob_key)
unfolding authenticate authenticate_key admit_key get_user_by_api_key_hash is_live_key find_row
    lookup key_scope_allows scope_reaches route_key_access
bob_acts = refl

disabled_stays_out_example :
    acts_as enabled_tables alice (by_key admin_user (codes "k1") bob_key) ≡ false
disabled_stays_out_example =
    disabled_stays_out digest written read 10 20 (pos 30) [] alice start disabled_tables
      enabled_tables key_request (by_key admin_user (codes "k1") bob_key) alice_is_disabled
      (next done (set_disabled 11 alice false alice_is_enabled)) bob_acts

set_user_disabled-admins_example : 1 ≤ admins disabled_tables
unfolding count_rows is_admin_person is_enabled_admin is_person lookup
set_user_disabled-admins_example =
    set_user_disabled-admins 10 alice true start disabled_tables (refl, (refl, tt)) (omega arith)
      alice_is_disabled

abbrev the_nonce : Option Bytes
the_nonce = some (8 ∷ [])

abbrev minted : Database
minted = record start {
  handoff_codes =
      (
        5 ∷ [],
        record {
          session_id = codes "s1";
          target_host = codes "a.ex";
          nonce_hash = 8 ∷ [];
          created_at = 10;
          redeemed_at = none;
        },
      )
      ∷ [];
}

code_is_minted :
    create_handoff_code 10 (5 ∷ []) (codes "s1") (codes "a.ex") (8 ∷ []) start ≡ ok minted
unfolding create_handoff_code lookup insert
code_is_minted = refl

redeem-create_iff_example :
    ((redeem_handoff_code 20 (5 ∷ []) (codes "a.ex") the_nonce minted).1 ≡ ok (codes "s1")) ↔ (
      (codes "s1" ≡ codes "s1")
      × (codes "a.ex" ≡ codes "a.ex")
      × (the_nonce ≡ some (8 ∷ []))
      × (20 < 10 + handoff_code_ttl))
redeem-create_iff_example =
    redeem-create_iff (5 ∷ []) (codes "s1") (codes "a.ex") (8 ∷ []) (codes "a.ex") the_nonce
      (codes "s1") 10 20 start minted code_is_minted

redeemed_once_example :
    (redeem_handoff_code 21
      (5 ∷ [])
      (codes "a.ex")
      (some (8 ∷ []))
      (redeem_handoff_code 20 (5 ∷ []) (codes "b.ex") none minted).0).1
    ≡ err handoff_code_invalid
unfolding lookup
redeemed_once_example =
    redeemed_once (5 ∷ []) 20 21 (codes "b.ex") (codes "a.ex") none (some (8 ∷ [])) minted
      (redeem_handoff_code 20 (5 ∷ []) (codes "b.ex") none minted).0 (refl, tt) stay

-- The last enabled admin cannot be disabled.
last_admin_kept : set_user_disabled 12 bob true disabled_tables ≡ err last_admin
unfolding set_user_disabled is_target_admin other_admins is_person is_enabled_admin count_rows
    row_passes lookup
last_admin_kept = refl
