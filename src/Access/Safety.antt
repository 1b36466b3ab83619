-- ===== src/Access/Safety.antt =====
-- Histories of operations: the invariant holds throughout, and the network is reached by a quorum.
use simple_host_enterprise.Common.{
  ℕ, String, ◌≡◌, refl, sym, subst, List, [], ◌∷◌, String_eq, ◌==◌, Result, ok, err, All, All-map,
  Bool-cases, inl, inr,
}
use simple_host_enterprise.Access.{
  Level, Level_eq, company, Approval, Site, AccessError, NetworkApproval, set_site_access,
  request_network_access, approve_network_access, decline_network_access, record_network_revoked,
  lift_site_restriction, network_open,
}
use simple_host_enterprise.Access.Invariant.{
  Distinct, IsSound, set_site_access-IsSound, drop_network_access-IsSound,
  request_network_access-IsSound, decline_network_access-IsSound, record_network_revoked-IsSound,
  restrict_site-IsSound, lift_site_restriction-IsSound,
}
use simple_host_enterprise.Access.Approvals.{approve-ok}
use simple_host_enterprise.Access.Quorum.{pending-IsSound}
use simple_host_enterprise.Access.Operations.{
  Operation, set, request, approve, decline, revoke, restrict, lift, drop, forget_requester,
  forget_admin, mark_deleted, kept, kept_second, revoked_row, without, run, run_all,
}

-- A transaction keeps a property of the row if its result has it.
pub kept-keeps :
    (P : Site → Type 0) (s : Site) (r : Result AccessError Site)
    → P s
    → ((t : Site) → r ≡ ok t → P t)
    → P (kept s r)
kept-keeps P s (ok t) h f = f t refl
kept-keeps P s (err e) h f = h

pub kept_second-keeps :
    {A : Type 0} (P : Site → Type 0) (s : Site) (r : Result AccessError (A × Site))
    → P s
    → ((x : A × Site) → r ≡ ok x → P x.1)
    → P (kept_second s r)
kept_second-keeps P s (ok x) h f = f x refl
kept_second-keeps P s (err e) h f = h

without-All :
    (P : Approval → Type 0) (admin_id : String) (rows : List Approval)
    → All P rows
    → All P (without admin_id rows)
unfolding without
without-All P admin_id [] h = tt
without-All P admin_id (a ∷ rows) (p, h) = elim (Bool-cases (a.admin_id == admin_id)) [
  | inl e ↦ rw e (without-All P admin_id rows h)
  | inr e ↦ rw e (p, without-All P admin_id rows h)
]

without-Distinct :
    (admin_id : String) (rows : List Approval) → Distinct rows → Distinct (without admin_id rows)
unfolding without
without-Distinct admin_id [] h = tt
without-Distinct admin_id (a ∷ rows) (p, h) = elim (Bool-cases (a.admin_id == admin_id)) [
  | inl e ↦ rw e (without-Distinct admin_id rows h)
  | inr e ↦ rw e (without-All _ admin_id rows p, without-Distinct admin_id rows h)
]

approve-IsSound :
    (admin_id : String) (required : ℕ) (s : Site)
    → IsSound s
    → (x : NetworkApproval × Site) → approve_network_access admin_id required s ≡ ok x
    → IsSound x.1
approve-IsSound admin_id required s h x e =
    let (at, live, pending, not_own, shape) = approve-ok admin_id required s e in
    subst (λ (y : NetworkApproval × Site). IsSound y.1) (sym shape)
      (pending-IsSound s h at admin_id required pending not_own)

pub revoked_row-keeps :
    (P : Site → Type 0) (now : ℕ) (reason : String) (s : Site)
    (r : Result AccessError (Level × Site))
    → P s
    → ((x : Level × Site) → r ≡ ok x → P (record_network_revoked now reason x.1))
    → P (revoked_row now reason s r)
unfolding revoked_row
revoked_row-keeps P now reason s (ok x) h f = f x refl
revoked_row-keeps P now reason s (err e) h f = h

revoke-IsSound :
    (now : ℕ) (reason : String) (s : Site) → IsSound s → IsSound (run (revoke now reason) s)
unfolding run
revoke-IsSound now reason s h = elim (Bool-cases (network_open s)) [
  | inl e ↦ rw e (
      revoked_row-keeps IsSound now reason s (set_site_access company s) h (λ x p.
        record_network_revoked-IsSound now reason x.1 (set_site_access-IsSound company s p)))
  | inr e ↦ rw e h
]

pub Run-IsSound : (op : Operation) (s : Site) → IsSound s → IsSound (run op s)
unfolding run
Run-IsSound (set level) s h =
    kept_second-keeps IsSound s (set_site_access level s) h
      (λ x e. set_site_access-IsSound level s e)
Run-IsSound (request now by reason) s h =
    kept-keeps IsSound s (request_network_access now by reason s) h
      (λ t e. request_network_access-IsSound now by reason s h e)
Run-IsSound (approve admin_id required) s h =
    kept_second-keeps IsSound s (approve_network_access admin_id required s) h
      (approve-IsSound admin_id required s h)
Run-IsSound (decline now reason) s h =
    kept-keeps IsSound s (decline_network_access now reason s) h
      (λ t e. decline_network_access-IsSound now reason s h e)
Run-IsSound (revoke now reason) s h = revoke-IsSound now reason s h
Run-IsSound (restrict now reason) s h = restrict_site-IsSound now reason s
Run-IsSound lift s h =
    kept_second-keeps IsSound s (lift_site_restriction s) h
      (λ x e. lift_site_restriction-IsSound s e)
Run-IsSound drop s h = drop_network_access-IsSound s h
Run-IsSound forget_requester s h = record {
  public_matches = h.public_matches;
  current = h.current;
  distinct = h.distinct;
  not_requester = All-map s.approvals (λ a q p. cc) h.not_requester;
  restricted_closed = h.restricted_closed;
  network_settled = h.network_settled;
}
Run-IsSound (forget_admin admin_id) s h = record {
  public_matches = h.public_matches;
  current = without-All _ admin_id s.approvals h.current;
  distinct = without-Distinct admin_id s.approvals h.distinct;
  not_requester = without-All _ admin_id s.approvals h.not_requester;
  restricted_closed = h.restricted_closed;
  network_settled = h.network_settled;
}
Run-IsSound (mark_deleted b) s h = record {
  public_matches = h.public_matches;
  current = h.current;
  distinct = h.distinct;
  not_requester = h.not_requester;
  restricted_closed = h.restricted_closed;
  network_settled = h.network_settled;
}

-- Whatever is done to a site, in whatever order, a row that satisfies the invariant satisfies it
-- afterwards: `public` is "listed or wider", every approval is of the pending request and by a
-- different admin other than the requester, a restricted site is closed, and a site on the network
-- has no request pending.
pub run_all-IsSound : (ops : List Operation) (s : Site) → IsSound s → IsSound (run_all ops s)
unfolding run_all
run_all-IsSound [] s h = h
run_all-IsSound (op ∷ ops) s h = run_all-IsSound ops (run op s) (Run-IsSound op s h)
