-- ===== src/Accounts/Admins.antt =====
-- Disabling never leaves the server without an admin.
use simple_host_enterprise.Common.{
  ℕ, ◌≤◌, ◌≡◌, refl, sym, ap, Bool, true, false, not, ◌&&◌, Option, none, some, Bytes, ◌==◌, ℕ_eq,
  List_eq, ok, >>=-eq-ok, refuse_if-passed, ok-injective, Bool-cases, Option-cases, &&-true, inl,
  inr, arith, false≢true,
}
use simple_host_enterprise.Common.Maps.{lookup}
use simple_host_enterprise.Common.Rows.{update_rows, count_rows, row_passes}
use simple_host_enterprise.Common.RowSets.{count_rows-update_rows, count_rows-without}
use simple_host_enterprise.Common.Unique.{IsUnique}
use simple_host_enterprise.Accounts.{
  User, Database, is_some, is_person, revoke_all_sessions_for_user,
}
use simple_host_enterprise.Accounts.Credentials.{
  is_enabled_admin, other_admins, is_that_person, disable_row, set_disabled_at, set_user_disabled,
  is_target_admin, revoke_all_api_keys_for_user, delete_oauth_grants_for_user,
}

unfoldable pub is_admin_person : Bytes → User → Bool
is_admin_person k u = is_enabled_admin u && is_person u

-- The persons who are admins and enabled.
abbrev pub admins : Database → ℕ
admins db = count_rows is_admin_person db.users

enabling-keeps :
    (person k : Bytes) (u : User)
    → is_admin_person k u ≡ true
    → is_admin_person k (disable_row person none k u) ≡ true
unfolding is_admin_person disable_row is_enabled_admin is_person
enabling-keeps person k u h = elim (Bool-cases (is_that_person person k u)) [
  | inl c ↦
      let (enabled, kind) = &&-true (u.is_admin && not (is_some u.disabled_at)) _ h in
      let admin = &&-true u.is_admin (not (is_some u.disabled_at)) enabled in
      rw (c, admin.0, kind) refl
  | inr c ↦ rw c h
]

disabling-keeps :
    (person : Bytes) (t : Option ℕ) (k : Bytes) (u : User)
    → (is_admin_person k u && not (k == person)) ≡ true
    → is_admin_person k (disable_row person t k u) ≡ true
unfolding disable_row is_that_person
disabling-keeps person t k u h =
    let (admin, other) = &&-true (is_admin_person k u) _ h in
    elim (Bool-cases (k == person)) [
      | inl same ↦ absurd (false≢true (rw same at other))
      | inr differs ↦ rw differs admin
    ]

others_left :
    (person : Bytes) (db : Database)
    → IsUnique db.users
    → (is_target_admin person db && other_admins person db == 0) ≡ false
    → 1 ≤ admins db
    → 1 ≤ count_rows (λ k u. is_admin_person k u && not (k == person)) db.users
unfolding is_target_admin other_admins is_admin_person row_passes
others_left person db unique kept h = elim (Bool-cases (is_target_admin person db)) [
  | inl target ↦
      let some_left : (other_admins person db == 0) ≡ false = rw target at kept in
      ground (arith, some_left)
  | inr plain ↦
      let none_there : row_passes (is_admin_person person) (lookup person db.users) ≡ false =
        elim (Option-cases (lookup person db.users)) [
          | inl e ↦ rw (e, row_passes) refl
          | inr (u, e) ↦ rw (e, row_passes, (rw (is_target_admin, e, row_passes) at plain)) refl
        ] in
      omega (arith, h, count_rows-without is_admin_person person db.users unique none_there)
]

set_disabled_at-users :
    (person : Bytes) (t : Option ℕ) (db after : Database)
    → set_disabled_at person t db ≡ ok after
    → after.users ≡ update_rows (disable_row person t) db.users
unfolding set_disabled_at
set_disabled_at-users person t db after h =
    let (counted, h1) = refuse_if-passed (count_rows (is_that_person person) db.users == 0) _ _ h in
    ap (λ (d : Database). d.users) (sym (ok-injective h1))

-- Where there is an enabled admin among the persons, there is one after any disabling or enabling
-- that succeeds. The id is the primary key of `users`.
pub set_user_disabled-admins :
    (now : ℕ) (person : Bytes) (disabled : Bool) (db after : Database)
    → IsUnique db.users
    → 1 ≤ admins db
    → set_user_disabled now person disabled db ≡ ok after
    → 1 ≤ admins after
unfolding set_user_disabled revoke_all_sessions_for_user revoke_all_api_keys_for_user
    delete_oauth_grants_for_user
set_user_disabled-admins now person false db after unique h e =
    rw (set_disabled_at-users person none db after e) (
      omega (
        arith,
        h,
        count_rows-update_rows is_admin_person is_admin_person (disable_row person none) db.users
            (enabling-keeps person),
      ))
set_user_disabled-admins now person true db after unique h e =
    let (kept, e1) =
      refuse_if-passed (is_target_admin person db && other_admins person db == 0) _ _ e in
    let (mid, changed, e2) = >>=-eq-ok (set_disabled_at person (some now) db) _ e1 in
    let left = others_left person db unique kept h in
    let shape : after.users ≡ mid.users = ap (λ (d : Database). d.users) (sym (ok-injective e2)) in
    rw (shape, set_disabled_at-users person (some now) db mid changed)
      (omega (
        arith,
        left,
        count_rows-update_rows (λ k u. is_admin_person k u && not (k == person)) is_admin_person
            (disable_row person (some now)) db.users (disabling-keeps person (some now)),
      ))
