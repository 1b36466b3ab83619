-- ===== src/Access.antt =====
-- internal/db/site_access.go: who can open a site. A `Site` is the site's row of the table `sites`,
-- the columns of access alone, with its rows of `network_access_approvals`
-- (internal/migrate/sql/0038_network_access_approvals.sql). A result `err` is a transaction that is
-- rolled back. Errors of the database itself are not modelled here.
pub mod Invariant
pub mod Approvals
pub mod Quorum
pub mod Operations
pub mod Safety
pub mod Network
pub mod Restriction
pub mod Handlers
pub mod Audited
mod Tests
mod HandlerTests
use simple_host_enterprise.Common.{
  ℕ, ◌+◌, String, ◌≡◌, ◌↔◌, refl, Bool, true, false, ◌&&◌, ◌||◌, not, Option, none, some, List, [],
  ◌∷◌, arith, Eq, String_eq, ◌==◌, ℕ_eq, ltb, nat_eq, any, if◌then◌else◌, Result, ok, err, ◌>>=◌,
  ◌>>◌, refuse_if,
}

-- `unknown` is a text that names none of the five levels.
pub data Level : Type 0 where
  only_me specific company listed network : Level
  unknown : String → Level

unfoldable pub level_eq : Level → Level → Bool
level_eq only_me only_me = true
level_eq specific specific = true
level_eq company company = true
level_eq listed listed = true
level_eq network network = true
level_eq (unknown s) (unknown t) = s == t
level_eq _ _ = false

pub level_eq_iff : (a b : Level) → (level_eq a b ≡ true) ↔ (a ≡ b)
unfolding level_eq
level_eq_iff only_me only_me = ground arith
level_eq_iff specific specific = ground arith
level_eq_iff company company = ground arith
level_eq_iff listed listed = ground arith
level_eq_iff network network = ground arith
level_eq_iff (unknown s) (unknown t) = ground (arith, String_eq.beq_iff s t)
level_eq_iff _ _ = ground arith

instance abbrev pub Level_eq : Eq Level
Level_eq = record { beq = level_eq; beq_iff = level_eq_iff }

unfoldable pub valid_access_level : Level → Bool
valid_access_level (unknown _) = false
valid_access_level _ = true

-- `sites.access_decision`.
pub data AccessDecision : Type 0 where
  declined revoked restricted : AccessDecision

-- One admin's approval of the request made at `requested_at`.
pub record Approval : Type 0 where
  pub requested_at : ℕ
  pub admin_id : String

-- A column that may be NULL is an `Option`.
pub record Site : Type 0 where
  pub access : Level
  pub is_public : Bool
  pub requested_at : Option ℕ
  pub requested_by : Option String
  pub request_reason : Option String
  pub decision : Option AccessDecision
  pub decision_at : Option ℕ
  pub decision_reason : Option String
  pub decision_previous : Option Level
  pub is_deleted : Bool
  pub approvals : List Approval

pub data AccessError : Type 0 where
  no_rows invalid_level already_network no_pending_request self_approval not_restricted :
      AccessError
  site_restricted : String → AccessError

-- `NULLIF(text, '')`.
abbrev pub null_if_empty : String → Option String
null_if_empty s = if s == "" then none else some s

-- A NULL text is scanned into the empty string.
abbrev pub text_of : Option String → String
text_of none = ""
text_of (some s) = s

abbrev pub is_some {ℓ} : {A : Type ℓ} → Option A → Bool
is_some none = false
is_some (some _) = true

unfoldable pub is_restricted : Site → Bool
is_restricted s = elim s.decision [ some restricted ↦ true | _ ↦ false ]

abbrev pub clear_network_approvals : Site → Site
clear_network_approvals s = record s { approvals = [] }

-- `setSiteAccess`: the level before, and the changed row.
unfoldable pub move_to : Level → Site → Level × Site
move_to level s = (
  s.access,
  clear_network_approvals (record s {
    access = level;
    is_public = level == listed || level == network;
    requested_at = none;
    requested_by = none;
    request_reason = none;
  }),
)

-- `checkNotRestricted`.
unfoldable pub check_not_restricted : Site → Result AccessError (Unit {0})
check_not_restricted s = refuse_if (is_restricted s) (site_restricted (text_of s.decision_reason))

-- `DropNetworkAccess`: whether the site was on the network, whether it had a request, and the row.
unfoldable pub drop_network_access : Site → Bool × Bool × Site
drop_network_access s =
    let was_network = s.access == network in
    let had_request = is_some s.requested_at in
    if not was_network && not had_request
    then (false, false, s)
    else (was_network, had_request, (move_to (if was_network then company else s.access) s).1)

-- `SetSiteAccess`.
unfoldable pub set_site_access : Level → Site → Result AccessError (Level × Site)
set_site_access level s = do
  refuse_if (not (valid_access_level level) || level == network) invalid_level
  if not (level == only_me) then check_not_restricted s else ok tt
  ok (move_to level s)

-- `RequestNetworkAccess` at the time `now`.
unfoldable pub request_network_access : ℕ → String → String → Site → Result AccessError Site
request_network_access now requested_by reason s = do
  check_not_restricted s
  refuse_if (s.access == network) already_network
  ok (
      clear_network_approvals (record s {
        requested_at = some now;
        requested_by = some requested_by;
        request_reason = some reason;
        decision = none;
        decision_at = none;
        decision_reason = none;
        decision_previous = none;
      }))

-- `NetworkApproval`.
pub record NetworkApproval : Type 0 where
  pub previous : Level
  pub approved : Bool
  pub approvals : ℕ
  pub duplicate : Bool

unfoldable pub same_approval : Approval → Approval → Bool
same_approval a b = a.requested_at == b.requested_at && a.admin_id == b.admin_id

-- `INSERT … ON CONFLICT DO NOTHING` under the primary key: whether a row was inserted, and the rows.
unfoldable pub record_approval : Approval → List Approval → Bool × List Approval
unfolding same_approval
record_approval a rows = if any (same_approval a) rows then (false, rows) else (true, a ∷ rows)

-- The join of the approvals with the row of the site on the request's timestamp.
unfoldable pub count_approvals : ℕ → List Approval → ℕ
count_approvals at [] = 0
count_approvals at (a ∷ rows) =
    let rest = count_approvals at rows in if a.requested_at == at then 1 + rest else rest

-- `max(required, 1)`.
abbrev pub at_least_one : ℕ → ℕ
at_least_one n = if ltb n 1 then 1 else n

unfoldable pub approve_pending : ℕ → String → ℕ → Site → NetworkApproval × Site
approve_pending at admin_id required s =
    let (inserted, rows) =
      record_approval (record { requested_at = at; admin_id = admin_id }) s.approvals in
    let count = count_approvals at rows in
    let enough = not (ltb count (at_least_one required)) in
    (
      record {
        previous = s.access;
        approved = enough;
        approvals = count;
        duplicate = not inserted;
      },
      if enough then (move_to network s).1 else record s { approvals = rows },
    )

-- `ApproveNetworkAccess`.
unfoldable pub approve_network_access :
    String → ℕ → Site → Result AccessError (NetworkApproval × Site)
approve_network_access admin_id required s = do
  refuse_if s.is_deleted no_rows
  at ← elim s.requested_at [ some at ↦ ok at | none ↦ err no_pending_request ]
  refuse_if (elim s.requested_by [ some u ↦ u == admin_id | none ↦ false ]) self_approval
  ok (approve_pending at admin_id required s)

-- `DeclineNetworkAccess`.
unfoldable pub decline_network_access : ℕ → String → Site → Result AccessError Site
decline_network_access now reason s = do
  refuse_if (not (is_some s.requested_at)) no_pending_request
  ok (
      clear_network_approvals (record s {
        requested_at = none;
        requested_by = none;
        request_reason = none;
        decision = some declined;
        decision_at = some now;
        decision_reason = null_if_empty reason;
        decision_previous = none;
      }))

-- `RecordNetworkRevoked`.
unfoldable pub record_network_revoked : ℕ → String → Site → Site
record_network_revoked now reason s = record s {
  decision = some revoked;
  decision_at = some now;
  decision_reason = null_if_empty reason;
  decision_previous = none;
}

-- `RestrictSite`: the level that lifting the restriction restores, and the row.
unfoldable pub restrict_site : ℕ → String → Site → Level × Site
restrict_site now reason s =
    let (current, moved) = move_to only_me s in
    let previous : Level = elim s.decision_previous [
      | some before ↦ if is_restricted s then before else current
      | none ↦ current
    ] in
    (
      previous,
      record moved {
        decision = some restricted;
        decision_at = some now;
        decision_reason = some reason;
        decision_previous = some previous;
      },
    )

-- The level that `LiftSiteRestriction` restores; a NULL level is the empty text, no level.
unfoldable pub restored_level : Option Level → Level
restored_level none = only_me
restored_level (some network) = company
restored_level (some level) = if not (valid_access_level level) then only_me else level

-- `LiftSiteRestriction`.
unfoldable pub lift_site_restriction : Site → Result AccessError (Level × Site)
lift_site_restriction s = do
  refuse_if (not (is_restricted s)) not_restricted
  let level = restored_level s.decision_previous
  ok (
    level,
    record (move_to level s).1 {
      decision = none;
      decision_at = none;
      decision_reason = none;
      decision_previous = none;
    },
  )

-- `NetworkOpen`.
unfoldable pub network_open : Site → Bool
network_open s = s.access == network && not s.is_deleted
