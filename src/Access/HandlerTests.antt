-- ===== src/Access/HandlerTests.antt =====
-- The theorems on the handlers at a site that asks for the network, and runs that fail.
use simple_host_enterprise.Common.{◌≡◌, refl, Bool, true, false, none, [], ◌∷◌, String_eq, ℕ_eq}
use simple_host_enterprise.Access.{
  level_eq, company, network, valid_access_level, is_restricted, check_not_restricted, move_to,
  request_network_access, same_approval, record_approval, count_approvals, approve_pending,
  approve_network_access,
}
use simple_host_enterprise.Access.Operations.{run}
use simple_host_enterprise.Access.Handlers.{
  network_access_requested, network_access_approval_added, Store, Environment, Answer, finish,
  answer_request, set_within, with_site, with_early, set_site_access_for_target,
  required_network_approvals, answer_approve, approves, admin_within, decide_as_admin,
}
use simple_host_enterprise.Access.Audited.{
  Audited, set_operation, admin_operation, set_site_access_for_target-Audited,
  decide_as_admin-Audited,
}

abbrev env : Bool → Environment
env commit_fails = record {
  early = none;
  begin_fails = false;
  found = true;
  record_fails = false;
  commit_fails = commit_fails;
}

abbrev shared : Store
shared = record {
  site = record {
    access = company;
    is_public = false;
    requested_at = none;
    requested_by = none;
    request_reason = none;
    decision = none;
    decision_at = none;
    decision_reason = none;
    decision_previous = none;
    is_deleted = false;
    approvals = [];
  };
  log = [];
}

abbrev asked : Answer
asked = set_site_access_for_target (env false) 7 "ann" network "open day" shared

asked_status : asked.status ≡ 202
unfolding set_site_access_for_target decide_as_admin with_early with_site set_within admin_within
    answer_request answer_approve finish required_network_approvals request_network_access
    approve_network_access approve_pending record_approval same_approval count_approvals move_to
    check_not_restricted is_restricted valid_access_level level_eq
asked_status = refl

asked_log : asked.store.log ≡ network_access_requested "open day" ∷ []
unfolding set_site_access_for_target decide_as_admin with_early with_site set_within admin_within
    answer_request answer_approve finish required_network_approvals request_network_access
    approve_network_access approve_pending record_approval same_approval count_approvals move_to
    check_not_restricted is_restricted valid_access_level level_eq
asked_log = refl

-- One approval of two is recorded and opens nothing; a failed commit leaves the log as it was.
first_approval :
    (decide_as_admin (env false) 9 "bob" (approves 2) asked.store).store.log
    ≡ network_access_approval_added 1 ∷ network_access_requested "open day" ∷ []
unfolding set_site_access_for_target decide_as_admin with_early with_site set_within admin_within
    answer_request answer_approve finish required_network_approvals request_network_access
    approve_network_access approve_pending record_approval same_approval count_approvals move_to
    check_not_restricted is_restricted valid_access_level level_eq
first_approval = refl

lost_approval : (decide_as_admin (env true) 9 "bob" (approves 1) asked.store).store ≡ asked.store
unfolding set_site_access_for_target decide_as_admin with_early with_site set_within admin_within
    answer_request answer_approve finish required_network_approvals request_network_access
    approve_network_access approve_pending record_approval same_approval count_approvals move_to
    check_not_restricted is_restricted valid_access_level level_eq
lost_approval = refl

set_site_access_for_target-Audited_example :
    Audited shared
      (run (set_operation 7 "ann" network "open day") shared.site)
      (set_site_access_for_target (env false) 7 "ann" network "open day" shared)
set_site_access_for_target-Audited_example =
    set_site_access_for_target-Audited (env false) 7 "ann" network "open day" shared

decide_as_admin-Audited_example :
    Audited asked.store
      (run (admin_operation 9 "bob" (approves 1)) asked.store.site)
      (decide_as_admin (env false) 9 "bob" (approves 1) asked.store)
decide_as_admin-Audited_example =
    decide_as_admin-Audited (env false) 9 "bob" (approves 1) asked.store
