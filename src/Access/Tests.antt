-- ===== src/Access/Tests.antt =====
-- Histories of one site, and the theorems of its access at concrete inputs.
use simple_host_enterprise.Common.{
  ◌≡◌, refl, true, false, none, some, List, [], ◌∷◌, String_eq, ◌==◌, if◌then◌else◌, ◌⊎◌,
}
use simple_host_enterprise.Access.{
  Level_eq, level_eq, only_me, company, listed, network, restricted, Site, is_restricted,
  check_not_restricted, move_to, request_network_access, record_approval, count_approvals,
  approve_pending, approve_network_access, valid_access_level,
}
use simple_host_enterprise.Access.Invariant.{IsSound}
use simple_host_enterprise.Access.Operations.{
  Operation, set, request, approve, restrict, lift, run, run_all,
}
use simple_host_enterprise.Access.Safety.{run_all-IsSound}
use simple_host_enterprise.Access.Network.{OpenedBy, network_by_quorum}
use simple_host_enterprise.Access.Restriction.{restriction_sticky, lift-restrict}

-- A site listed by its owner.
abbrev site : Site
site = record {
  access = listed;
  is_public = true;
  requested_at = none;
  requested_by = none;
  request_reason = none;
  decision = none;
  decision_at = none;
  decision_reason = none;
  decision_previous = none;
  is_deleted = false;
  approvals = [];
}

site-IsSound : IsSound site
unfolding level_eq
site-IsSound = record {
  public_matches = refl;
  current = tt;
  distinct = tt;
  not_requester = tt;
  restricted_closed = λ p. cc;
  network_settled = λ p. cc;
}

-- The owner asks; the same admin approves twice.
abbrev two_tries : List Operation
two_tries = request 7 "owner" "demo" ∷ approve "ann" 2 ∷ approve "ann" 2 ∷ []

abbrev pending : Site
pending = run_all two_tries site

one_admin_waits : pending.access ≡ listed
unfolding run_all run request_network_access approve_network_access approve_pending record_approval
    count_approvals check_not_restricted is_restricted level_eq move_to
one_admin_waits = refl

second_admin_opens : (run (approve "bob" 2) pending).access ≡ network
unfolding run_all run request_network_access approve_network_access approve_pending record_approval
    count_approvals check_not_restricted is_restricted level_eq move_to
second_admin_opens = refl

requester_cannot : run (approve "owner" 1) pending ≡ pending
unfolding run_all run request_network_access approve_network_access approve_pending record_approval
    count_approvals check_not_restricted is_restricted level_eq move_to
requester_cannot = refl

run_all-IsSound_example : IsSound pending
run_all-IsSound_example = run_all-IsSound two_tries site site-IsSound

network_by_quorum_example : (pending.access ≡ network) ⊎ OpenedBy pending (approve "bob" 2)
network_by_quorum_example =
    network_by_quorum (approve "bob" 2) pending run_all-IsSound_example second_admin_opens

-- A site that an admin took down.
abbrev taken_down : Site
taken_down = record site {
  access = only_me;
  is_public = false;
  decision = some restricted;
  decision_at = some 9;
  decision_reason = some "spam";
  decision_previous = some listed;
}

taken_down-IsSound : IsSound taken_down
unfolding level_eq
taken_down-IsSound = record {
  public_matches = refl;
  current = tt;
  distinct = tt;
  not_requester = tt;
  restricted_closed = λ p. (refl, refl);
  network_settled = λ p. refl;
}

abbrev attempts : List Operation
attempts = set company ∷ request 10 "owner" "please" ∷ approve "ann" 1 ∷ []

restriction_sticky_example :
    ((run_all attempts taken_down).access ≡ only_me)
    × ((run_all attempts taken_down).decision ≡ some restricted)
    × ((run_all attempts taken_down).requested_at ≡ none)
restriction_sticky_example =
    restriction_sticky attempts taken_down listed taken_down-IsSound
      (record { held = refl; remembered = refl }) ((λ p. cc), ((λ p. cc), ((λ p. cc), tt)))

lift-restrict_example :
    ((run lift (run_all attempts (run (restrict 9 "spam") site))).access
      ≡ (if site.access == network then company else site.access))
    × ((run lift (run_all attempts (run (restrict 9 "spam") site))).decision ≡ none)
unfolding valid_access_level
lift-restrict_example =
    lift-restrict 9 "spam" attempts site site-IsSound (λ p. cc) refl
      ((λ p. cc), ((λ p. cc), ((λ p. cc), tt)))
