-- ===== src/Access/Invariant.antt =====
-- The invariant of a site's access columns, kept by every operation.
use simple_host_enterprise.Common.{
  ℕ, String, ◌≡◌, ◌≢◌, refl, ◌&&◌, ◌||◌, not, none, some, List, [], ◌∷◌, arith, String_eq, ℕ_eq,
  ◌==◌, if◌then◌else◌, ok, All, subst, sym, Bool-cases, inl, inr,
}
use simple_host_enterprise.Access.{
  Level, Level_eq, level_eq, level_eq_iff, only_me, company, listed, network, declined, restricted,
  Approval, Site, null_if_empty, is_some, is_restricted, check_not_restricted, move_to,
  drop_network_access, set_site_access, request_network_access, decline_network_access,
  record_network_revoked, restrict_site, restored_level, lift_site_restriction,
}

-- No admin stands twice among the approvals.
abbrev pub Distinct : List Approval → Type 0
Distinct [] = Unit
Distinct (a ∷ rows) = All (λ b. a.admin_id ≢ b.admin_id) rows × Distinct rows

pub record IsSound (s : Site) : Type 0 where
  -- `sites.public` is "listed or wider".
  pub public_matches : s.is_public ≡ (s.access == listed || s.access == network)
  -- Every approval is one of the pending request, by a different admin, none of them the requester.
  pub current : All (λ a. some a.requested_at ≡ s.requested_at) s.approvals
  pub distinct : Distinct s.approvals
  pub not_requester : All (λ a. s.requested_by ≢ some a.admin_id) s.approvals
  -- A restricted site is only its owner's, with no request pending.
  pub restricted_closed :
      s.decision ≡ some restricted → (s.access ≡ only_me) × (s.requested_at ≡ none)
  -- A site on the network has no request pending.
  pub network_settled : s.access ≡ network → s.requested_at ≡ none

pub move_to-IsSound :
    (level : Level) (s : Site)
    → (s.decision ≡ some restricted → level ≡ only_me)
    → IsSound (move_to level s).1
unfolding move_to
move_to-IsSound level s h = record {
  public_matches = refl;
  current = tt;
  distinct = tt;
  not_requester = tt;
  restricted_closed = λ p. (h p, refl);
  network_settled = λ p. refl;
}

pub set_site_access-ok :
    (level : Level) (s : Site) {x : Level × Site}
    → set_site_access level s ≡ ok x
    → (move_to level s ≡ x) × (s.decision ≡ some restricted → level ≡ only_me)
unfolding set_site_access check_not_restricted is_restricted
set_site_access-ok level s h = ground (arith, level_eq_iff level only_me)

pub set_site_access-IsSound :
    (level : Level) (s : Site) {x : Level × Site} → set_site_access level s ≡ ok x → IsSound x.1
set_site_access-IsSound level s h =
    let (e, closed) = set_site_access-ok level s h in
    subst (λ (y : Level × Site). IsSound y.1) e (move_to-IsSound level s closed)

kept_level :
    (s : Site)
    → IsSound s
    → s.decision ≡ some restricted
    → (if s.access == network then company else s.access) ≡ only_me
unfolding level_eq
kept_level s h e = let closed = (h.restricted_closed e).0 in rw closed

pub drop_network_access-IsSound : (s : Site) → IsSound s → IsSound (drop_network_access s).2
unfolding drop_network_access
drop_network_access-IsSound s h =
    elim (Bool-cases (not (s.access == network) && not (is_some s.requested_at))) [
      | inl e ↦ rw e h
      | inr e ↦
          rw e
            (move_to-IsSound (if s.access == network then company else s.access) s (kept_level s h))
    ]

pub request_network_access-ok :
    (now : ℕ) (by reason : String) (s : Site) {t : Site}
    → request_network_access now by reason s ≡ ok t
    → (s.access ≢ network)
      × (t ≡ record s {
        requested_at = some now;
        requested_by = some by;
        request_reason = some reason;
        decision = none;
        decision_at = none;
        decision_reason = none;
        decision_previous = none;
        approvals = [];
      })
unfolding request_network_access check_not_restricted is_restricted
request_network_access-ok now by reason s h = ground (arith, level_eq_iff s.access network)

pub request_network_access-IsSound :
    (now : ℕ) (by reason : String) (s : Site) {t : Site}
    → IsSound s
    → request_network_access now by reason s ≡ ok t
    → IsSound t
request_network_access-IsSound now by reason s sound h =
    let (off_network, e) = request_network_access-ok now by reason s h in
    subst IsSound (sym e) (record {
      public_matches = sound.public_matches;
      current = tt;
      distinct = tt;
      not_requester = tt;
      restricted_closed = λ p. cc;
      network_settled = λ p. absurd (off_network p);
    })

pub decline_network_access-ok :
    (now : ℕ) (reason : String) (s : Site) {t : Site}
    → decline_network_access now reason s ≡ ok t
    → (s.requested_at ≢ none)
      × (t ≡ record s {
        requested_at = none;
        requested_by = none;
        request_reason = none;
        decision = some declined;
        decision_at = some now;
        decision_reason = null_if_empty reason;
        decision_previous = none;
        approvals = [];
      })
unfolding decline_network_access
decline_network_access-ok now reason s h = ground arith

pub decline_network_access-IsSound :
    (now : ℕ) (reason : String) (s : Site) {t : Site}
    → IsSound s
    → decline_network_access now reason s ≡ ok t
    → IsSound t
decline_network_access-IsSound now reason s sound h =
    let (pending, e) = decline_network_access-ok now reason s h in
    subst IsSound (sym e) (record {
      public_matches = sound.public_matches;
      current = tt;
      distinct = tt;
      not_requester = tt;
      restricted_closed = λ p. cc;
      network_settled = λ p. refl;
    })

-- Recorded by the revoke handler alone, which finds the site on the network and moves it off.
pub record_network_revoked-IsSound :
    (now : ℕ) (reason : String) (s : Site)
    → IsSound s
    → IsSound (record_network_revoked now reason s)
unfolding record_network_revoked
record_network_revoked-IsSound now reason s h = record {
  public_matches = h.public_matches;
  current = h.current;
  distinct = h.distinct;
  not_requester = h.not_requester;
  restricted_closed = λ p. cc;
  network_settled = h.network_settled;
}

pub restrict_site-IsSound :
    (now : ℕ) (reason : String) (s : Site) → IsSound (restrict_site now reason s).1
unfolding restrict_site move_to
restrict_site-IsSound now reason s = record {
  public_matches = refl;
  current = tt;
  distinct = tt;
  not_requester = tt;
  restricted_closed = λ p. (refl, refl);
  network_settled = λ p. refl;
}

pub lift_site_restriction-ok :
    (s : Site) {x : Level × Site}
    → lift_site_restriction s ≡ ok x
    → (s.decision ≡ some restricted)
      × (x ≡ (
        restored_level s.decision_previous,
        record (move_to (restored_level s.decision_previous) s).1 {
          decision = none;
          decision_at = none;
          decision_reason = none;
          decision_previous = none;
        },
      ))
unfolding lift_site_restriction is_restricted
lift_site_restriction-ok s h = ground arith

pub lift_site_restriction-IsSound :
    (s : Site) {x : Level × Site} → lift_site_restriction s ≡ ok x → IsSound x.1
unfolding move_to
lift_site_restriction-IsSound s h =
    let (was, e) = lift_site_restriction-ok s h in
    subst (λ (y : Level × Site). IsSound y.1) (sym e)
      (record {
        public_matches = refl;
        current = tt;
        distinct = tt;
        not_requester = tt;
        restricted_closed = λ p. cc;
        network_settled = λ p. refl;
      })
