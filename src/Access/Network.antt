-- ===== src/Access/Network.antt =====
-- How a site comes to be on the network.
use simple_host_enterprise.Common.{
  ℕ, String, ◌≡◌, ◌≢◌, sym, ap, ◌∙◌, Option, none, some, List, arith, String_eq, ok, Bool-cases,
  inl, inr, ◌⊎◌,
}
use simple_host_enterprise.Access.{
  Level, Level_eq, level_eq_iff, network, only_me, company, unknown, Approval, Site, move_to,
  NetworkApproval, set_site_access, request_network_access, approve_network_access, approve_pending,
  decline_network_access, record_network_revoked, restrict_site, lift_site_restriction,
  valid_access_level, restored_level, drop_network_access, network_open,
}
use simple_host_enterprise.Access.Invariant.{
  IsSound, request_network_access-ok, decline_network_access-ok, lift_site_restriction-ok,
}
use simple_host_enterprise.Access.Approvals.{approve-ok, voters}
use simple_host_enterprise.Access.Quorum.{IsQuorum, pending-opens, pending-access}
use simple_host_enterprise.Access.Operations.{
  Operation, set, request, approve, decline, revoke, restrict, lift, drop, forget_requester,
  forget_admin, mark_deleted, run,
}
use simple_host_enterprise.Access.Safety.{kept-keeps, kept_second-keeps, revoked_row-keeps}

set-ne-network :
    (level : Level) (s : Site) (x : Level × Site)
    → set_site_access level s ≡ ok x
    → x.1.access ≢ network
unfolding set_site_access move_to
set-ne-network level s x h p = ground (arith, level_eq_iff level network)

restored-ne-network : (o : Option Level) → restored_level o ≢ network
unfolding restored_level valid_access_level
restored-ne-network none p = cc
restored-ne-network (some (unknown t)) p = cc
restored-ne-network (some only_me) p = cc
restored-ne-network (some _) p = cc

revoked-ne-network :
    (now : ℕ) (reason : String) (s : Site) (x : Level × Site)
    → set_site_access company s ≡ ok x
    → (record_network_revoked now reason x.1).access ≢ network
unfolding record_network_revoked
revoked-ne-network now reason s x e p = set-ne-network company s x e p

restricted-ne-network :
    (now : ℕ) (reason : String) (s : Site) → (restrict_site now reason s).1.access ≢ network
unfolding restrict_site move_to
restricted-ne-network now reason s p = ground arith

lifted-ne-network :
    (s : Site) (x : Level × Site) → lift_site_restriction s ≡ ok x → x.1.access ≢ network
unfolding move_to
lifted-ne-network s x e p =
    let (was, shape) = lift_site_restriction-ok s e in
    restored-ne-network s.decision_previous (sym (ap (λ (y : Level × Site). y.1.access) shape) ∙ p)

dropped-network : (s : Site) → (drop_network_access s).2.access ≡ network → s.access ≡ network
unfolding drop_network_access move_to
dropped-network s p = ground (arith, level_eq_iff s.access network)

-- An approval by `admin_id` with a quorum behind it.
pub data OpenedBy (s : Site) : Operation → Type 0 where
  quorum :
      (admin_id : String) (required : ℕ) (by : List Approval)
      → IsQuorum s admin_id required by
      → OpenedBy s (approve admin_id required)

module _ (s : Site) (sound : IsSound s) where
  approved-OpenedBy :
      (admin_id : String) (required : ℕ) (x : NetworkApproval × Site)
      → approve_network_access admin_id required s ≡ ok x
      → x.1.access ≡ network
      → (s.access ≡ network) ⊎ OpenedBy s (approve admin_id required)
  approved-OpenedBy admin_id required x e p =
      let (at, live, pending, not_own, shape) = approve-ok admin_id required s e in
      let outcome = approve_pending at admin_id required s in
      let after = pending-access s sound at admin_id required pending not_own in
      elim (Bool-cases outcome.0.approved) [
        | inl opened ↦ inr (
            quorum admin_id required (voters s sound at admin_id pending)
              (pending-opens s sound at admin_id required pending not_own opened))
        | inr waiting ↦ inl (
            sym (rw waiting at after)
            ∙ sym (ap (λ (y : NetworkApproval × Site). y.1.access) shape)
            ∙ p)
      ]

-- An operation on a row that satisfies the invariant and that leaves the site on the network found
-- it there, or is an approval by an admin with a quorum behind it: different admins, none of them
-- the requester, as many as are required, each of them recorded as having approved the pending
-- request, the last one's approval included.
pub network_by_quorum :
    (op : Operation) (s : Site)
    → IsSound s
    → (run op s).access ≡ network
    → (s.access ≡ network) ⊎ OpenedBy s op
unfolding run
network_by_quorum (set level) s sound =
    kept_second-keeps (λ t. t.access ≡ network → (s.access ≡ network) ⊎ OpenedBy s (set level)) s
      (set_site_access level s) inl (λ x e p. absurd (set-ne-network level s x e p))
network_by_quorum (request now by reason) s sound =
    kept-keeps (λ t. t.access ≡ network → (s.access ≡ network) ⊎ OpenedBy s (request now by reason))
      s (request_network_access now by reason s) inl
      (λ t e p.
        inl (sym (ap (λ (y : Site). y.access) (request_network_access-ok now by reason s e).1) ∙ p))
network_by_quorum (approve admin_id required) s sound =
    kept_second-keeps
      (λ t. t.access ≡ network → (s.access ≡ network) ⊎ OpenedBy s (approve admin_id required)) s
      (approve_network_access admin_id required s) inl (approved-OpenedBy s sound admin_id required)
network_by_quorum (decline now reason) s sound =
    kept-keeps (λ t. t.access ≡ network → (s.access ≡ network) ⊎ OpenedBy s (decline now reason)) s
      (decline_network_access now reason s) inl
      (λ t e p.
        inl (sym (ap (λ (y : Site). y.access) (decline_network_access-ok now reason s e).1) ∙ p))
network_by_quorum (revoke now reason) s sound = elim (Bool-cases (network_open s)) [
  | inl e ↦ rw e (
      revoked_row-keeps
        (λ t. t.access ≡ network → (s.access ≡ network) ⊎ OpenedBy s (revoke now reason)) now reason
        s (set_site_access company s) inl (λ x q p. absurd (revoked-ne-network now reason s x q p)))
  | inr e ↦ rw e inl
]
network_by_quorum (restrict now reason) s sound = λ p. absurd (restricted-ne-network now reason s p)
network_by_quorum lift s sound =
    kept_second-keeps (λ t. t.access ≡ network → (s.access ≡ network) ⊎ OpenedBy s lift) s
      (lift_site_restriction s) inl (λ x e p. absurd (lifted-ne-network s x e p))
network_by_quorum drop s sound = λ p. inl (dropped-network s p)
network_by_quorum forget_requester s sound = inl
network_by_quorum (forget_admin admin_id) s sound = inl
network_by_quorum (mark_deleted b) s sound = inl
