-- ===== src/Access/Handlers.antt =====
-- internal/handler/access.go: the handlers that change who can open a site, each a transaction that
-- writes its audit events with the change. What comes before a handler's own checks (the path, the
-- rate limit, the body, the note of an admin, the owner's account) is `early`, the status it answers with
-- where it ends the request; the reason is trimmed.
use simple_host_enterprise.Common.{
  ℕ, String, Bool, ◌&&◌, ◌||◌, not, Option, none, some, List, [], ◌∷◌, ◌++◌, String_eq, ◌==◌, ℕ_eq,
  ltb, if◌then◌else◌, codes, length, Result, ok, err,
}
use simple_host_enterprise.Access.{
  Level, Level_eq, network, company, valid_access_level, Site, AccessError, site_restricted,
  already_network, no_pending_request, self_approval, not_restricted, set_site_access,
  request_network_access, NetworkApproval, approve_network_access, decline_network_access,
  record_network_revoked, restrict_site, lift_site_restriction, network_open,
}

-- The `Action` of an audit event, with what it carries in `Extra`.
pub data Event : Type 0 where
  network_access_requested : String → Event
  site_access : Level → Level → Event
  network_access_reverted : Event
  network_access_approved network_access_approval_added : ℕ → Event
  network_access_declined : Event
  site_restricted_event : Level → String → Event
  site_restriction_lifted : Level → Event

-- The site's row and the audit events, the newest first.
pub record Store : Type 0 where
  pub site : Site
  pub log : List Event

-- What the database does to a handler's transaction: it cannot begin or lock, finds no such site,
-- refuses an audit event, or fails to commit.
pub record Environment : Type 0 where
  pub early : Option ℕ
  pub begin_fails : Bool
  pub found : Bool
  pub record_fails : Bool
  pub commit_fails : Bool

pub record Answer : Type 0 where
  pub status : ℕ
  pub store : Store

-- A transaction that is rolled back.
abbrev pub refuse : ℕ → Store → Answer
refuse status st = record { status = status; store = st }

-- `RecordTx` and `Commit`.
unfoldable pub finish : Environment → Store → ℕ → List Event → Site → Answer
finish env st status events site =
    if env.record_fails
    then refuse 500 st
    else if env.commit_fails
    then refuse 500 st
    else record { status = status; store = record { site = site; log = events ++ st.log } }

unfoldable pub answer_request : Environment → Store → String → Result AccessError Site → Answer
answer_request env st reason (ok site) =
    finish env st 202 (network_access_requested reason ∷ []) site
answer_request env st reason (err (site_restricted _)) = refuse 409 st
answer_request env st reason (err already_network) = refuse 409 st
answer_request env st reason (err _) = refuse 500 st

unfoldable pub answer_set : Environment → Store → Level → Result AccessError (Level × Site) → Answer
answer_set env st level (ok (previous, site)) =
    finish env st 200
      (if previous == network
        then site_access previous level ∷ network_access_reverted ∷ []
        else site_access previous level ∷ [])
      site
answer_set env st level (err (site_restricted _)) = refuse 409 st
answer_set env st level (err _) = refuse 500 st

abbrev pub max_network_reason_runes : ℕ
max_network_reason_runes = 500

-- `setSiteAccessForTarget`, within its transaction.
unfoldable pub set_within : Environment → ℕ → String → Level → String → Store → Answer
set_within env now actor level reason st =
    if level == network
    then answer_request env st reason (request_network_access now actor reason st.site)
    else answer_set env st level (set_site_access level st.site)

unfoldable pub with_site : Environment → Store → Answer → Answer
with_site env st answer =
    if env.begin_fails then refuse 500 st else if not env.found then refuse 404 st else answer

unfoldable pub with_early : Environment → Store → Answer → Answer
with_early env st answer = elim env.early [ some status ↦ refuse status st | none ↦ answer ]

-- `setSiteAccessForTarget`.
unfoldable pub set_site_access_for_target :
    Environment → ℕ → String → Level → String → Store → Answer
set_site_access_for_target env now actor level reason st = with_early env st (
    if not (valid_access_level level)
    then refuse 400 st
    else if level == network
        && (reason == "" || ltb max_network_reason_runes (length (codes reason)))
    then refuse 400 st
    else with_site env st (set_within env now actor level reason st))

-- `requiredNetworkApprovals`.
unfoldable pub required_network_approvals : ℕ → ℕ
required_network_approvals n = if n == 2 then 2 else 1

unfoldable pub answer_approve :
    Environment → Store → Result AccessError (NetworkApproval × Site) → Answer
answer_approve env st (ok (approval, site)) =
    if approval.approved
    then finish env st 200 (network_access_approved approval.approvals ∷ []) site
    else if approval.duplicate
    then refuse 200 st
    else finish env st 200 (network_access_approval_added approval.approvals ∷ []) site
answer_approve env st (err no_pending_request) = refuse 409 st
answer_approve env st (err self_approval) = refuse 403 st
answer_approve env st (err _) = refuse 500 st

unfoldable pub answer_decline : Environment → Store → Result AccessError Site → Answer
answer_decline env st (ok site) = finish env st 200 (network_access_declined ∷ []) site
answer_decline env st (err no_pending_request) = refuse 409 st
answer_decline env st (err self_approval) = refuse 403 st
answer_decline env st (err _) = refuse 500 st

unfoldable pub answer_revoke :
    Environment → ℕ → String → Store → Result AccessError (Level × Site) → Answer
answer_revoke env now note st (ok (previous, site)) =
    finish env st 200 (network_access_reverted ∷ []) (record_network_revoked now note site)
answer_revoke env now note st (err no_pending_request) = refuse 409 st
answer_revoke env now note st (err self_approval) = refuse 403 st
answer_revoke env now note st (err _) = refuse 500 st

unfoldable pub answer_lift : Environment → Store → Result AccessError (Level × Site) → Answer
answer_lift env st (ok (level, site)) = finish env st 200 (site_restriction_lifted level ∷ []) site
answer_lift env st (err not_restricted) = refuse 409 st
answer_lift env st (err _) = refuse 500 st

-- What an admin decides, or restricts and lifts.
pub data AdminAction : Type 0 where
  approves : ℕ → AdminAction
  declines reverts restricts : String → AdminAction
  unrestricts : AdminAction

-- The switches of `decideNetworkAccess` and `setSiteRestriction`.
unfoldable pub admin_within : Environment → ℕ → String → AdminAction → Store → Answer
admin_within env now admin (approves n) st =
    answer_approve env st (approve_network_access admin (required_network_approvals n) st.site)
admin_within env now admin (declines note) st =
    answer_decline env st (decline_network_access now note st.site)
admin_within env now admin (reverts note) st =
    if not (network_open st.site)
    then refuse 409 st
    else answer_revoke env now note st (set_site_access company st.site)
admin_within env now admin (restricts reason) st =
    finish env st 200 (site_restricted_event (restrict_site now reason st.site).0 reason ∷ [])
      (restrict_site now reason st.site).1
admin_within env now admin unrestricts st = answer_lift env st (lift_site_restriction st.site)

-- `decideNetworkAccess` and `setSiteRestriction`.
unfoldable pub decide_as_admin : Environment → ℕ → String → AdminAction → Store → Answer
decide_as_admin env now admin action st =
    with_early env st (with_site env st (admin_within env now admin action st))
