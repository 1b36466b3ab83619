-- ===== src/Access/Quorum.antt =====
-- The admins behind a site that an approval opens to the network.
use simple_host_enterprise.Common.{
  ℕ, ◌≤◌, String, ◌≡◌, ◌≢◌, sym, subst, true, not, none, some, List, arith, ltb, if◌then◌else◌, All,
  length, Bool-cases, inl, inr, ◌⊎◌,
}
use simple_host_enterprise.Access.{
  Level_eq, network, Approval, Site, move_to, count_approvals, at_least_one, approve_pending,
}
use simple_host_enterprise.Access.Invariant.{Distinct, IsSound, move_to-IsSound}
use simple_host_enterprise.Access.Approvals.{
  Member, voters, voters-current, voters-Distinct, voters-not_requester, voters-known, voters-count,
}

-- A set of approvals of the pending request that suffices to open the site: by different admins,
-- none of them the requester, as many as are required and at least one; each is `admin_id`'s or was
-- recorded before.
pub record IsQuorum (s : Site) (admin_id : String) (required : ℕ) (by : List Approval)
    : Type 0 where
  pub distinct : Distinct by
  pub not_requester : All (λ a. s.requested_by ≢ some a.admin_id) by
  pub required_met : required ≤ length by
  pub not_empty : 1 ≤ length by
  pub known : All (λ a. (a.admin_id ≡ admin_id) ⊎ Member a s.approvals) by

module _ (s : Site) (sound : IsSound s) (at : ℕ) (admin_id : String) (required : ℕ)
    (pending : s.requested_at ≡ some at) (not_own : s.requested_by ≢ some admin_id) where
  pub pending-IsSound : IsSound (approve_pending at admin_id required s).1
  unfolding approve_pending
  pending-IsSound =
      elim (Bool-cases (
        not (
          ltb (count_approvals at (voters s sound at admin_id pending)) (at_least_one required)))) [
            | inl e ↦ rw e (
                move_to-IsSound network s
                  (λ p. absurd (open_request (sound.restricted_closed p).1)))
            | inr e ↦ rw e (record {
              public_matches = sound.public_matches;
              current =
                  subst
                    (λ o.
                      All (λ (a : Approval). some a.requested_at ≡ o)
                        (voters s sound at admin_id pending))
                    (sym pending) (voters-current s sound at admin_id pending);
              distinct = voters-Distinct s sound at admin_id pending;
              not_requester = voters-not_requester s sound at admin_id pending not_own;
              restricted_closed = sound.restricted_closed;
              network_settled = sound.network_settled;
            })
          ]
    where
      open_request : s.requested_at ≢ none
      open_request p = cc

  pub pending-opens :
      (approve_pending at admin_id required s).0.approved ≡ true
      → IsQuorum s admin_id required (voters s sound at admin_id pending)
  unfolding approve_pending
  pending-opens h =
      let counted = voters-count s sound at admin_id pending in
      record {
        distinct = voters-Distinct s sound at admin_id pending;
        not_requester = voters-not_requester s sound at admin_id pending not_own;
        required_met = ground arith;
        not_empty = ground arith;
        known = voters-known s sound at admin_id pending;
      }

  pub pending-access :
      (approve_pending at admin_id required s).1.access
      ≡ (if (approve_pending at admin_id required s).0.approved then network else s.access)
  unfolding approve_pending move_to
  pending-access = ground arith
