-- ===== src/Access/Operations.antt =====
-- The operations on a site's access in any order. Each runs in a transaction on the locked row, so a
-- history is a list of operations; one that returns an error is rolled back and changes nothing.
-- `revoke` is the revoke case of `decideNetworkAccess` (internal/handler/access.go). The last three
-- are made elsewhere: the row of a user who asked or approved is deleted (the foreign keys of the
-- migrations 0033 and 0038), or the site is deleted or restored.
use simple_host_enterprise.Common.{
  ℕ, String, Bool, none, List, [], ◌∷◌, String_eq, ◌==◌, if◌then◌else◌, Result, ok, err,
}
use simple_host_enterprise.Access.{
  Level, company, Approval, Site, AccessError, set_site_access, request_network_access,
  approve_network_access, decline_network_access, record_network_revoked, restrict_site,
  lift_site_restriction, drop_network_access, network_open,
}

pub data Operation : Type 0 where
  set : Level → Operation
  request : ℕ → String → String → Operation
  approve : String → ℕ → Operation
  decline : ℕ → String → Operation
  revoke : ℕ → String → Operation
  restrict : ℕ → String → Operation
  lift drop forget_requester : Operation
  forget_admin : String → Operation
  mark_deleted : Bool → Operation

-- The row after a transaction that returned the row, or a value and the row.
abbrev pub kept : Site → Result AccessError Site → Site
kept s (ok t) = t
kept s (err e) = s

abbrev pub kept_second {ℓ} : {A : Type ℓ} → Site → Result AccessError (A × Site) → Site
kept_second s (ok (a, t)) = t
kept_second s (err e) = s

unfoldable pub without : String → List Approval → List Approval
without admin_id [] = []
without admin_id (a ∷ rows) =
    let rest = without admin_id rows in if a.admin_id == admin_id then rest else a ∷ rest

unfoldable pub revoked_row : ℕ → String → Site → Result AccessError (Level × Site) → Site
revoked_row now reason s (ok (previous, t)) = record_network_revoked now reason t
revoked_row now reason s (err e) = s

unfoldable pub run : Operation → Site → Site
run (set level) s = kept_second s (set_site_access level s)
run (request now by reason) s = kept s (request_network_access now by reason s)
run (approve admin_id required) s = kept_second s (approve_network_access admin_id required s)
run (decline now reason) s = kept s (decline_network_access now reason s)
run (revoke now reason) s =
    if network_open s then revoked_row now reason s (set_site_access company s) else s
run (restrict now reason) s = (restrict_site now reason s).1
run lift s = kept_second s (lift_site_restriction s)
run drop s = (drop_network_access s).2
run forget_requester s = record s { requested_by = none }
run (forget_admin admin_id) s = record s { approvals = without admin_id s.approvals }
run (mark_deleted b) s = record s { is_deleted = b }

unfoldable pub run_all : List Operation → Site → Site
run_all [] s = s
run_all (op ∷ ops) s = run_all ops (run op s)
