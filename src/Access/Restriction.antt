-- ===== src/Access/Restriction.antt =====
-- An admin's restriction: it holds until it is lifted, and lifting it restores the level.
use simple_host_enterprise.Common.{
  ℕ, String, ◌≡◌, ◌≢◌, refl, sym, ◌∙◌, subst, true, false, none, some, List, [], ◌∷◌, arith,
  String_eq, ◌==◌, if◌then◌else◌, ok, All,
}
use simple_host_enterprise.Access.{
  Level, Level_eq, level_eq, network, only_me, company, unknown, restricted, Site, is_restricted,
  check_not_restricted, move_to, set_site_access, request_network_access, approve_network_access,
  decline_network_access, restrict_site, lift_site_restriction, valid_access_level, restored_level,
  drop_network_access, network_open,
}
use simple_host_enterprise.Access.Invariant.{IsSound, set_site_access-ok}
use simple_host_enterprise.Access.Operations.{
  Operation, set, request, approve, decline, revoke, restrict, lift, drop, forget_requester,
  forget_admin, mark_deleted, kept, kept_second, run, run_all,
}
use simple_host_enterprise.Access.Safety.{Run-IsSound, run_all-IsSound, kept_second-keeps}

restored :
    (level : Level)
    → valid_access_level level ≡ true
    → restored_level (some level) ≡ (if level == network then company else level)
unfolding restored_level valid_access_level level_eq
restored (unknown t) h = cc
restored network h = refl
restored _ h = refl

-- The site is restricted, and had the level `before`.
pub record IsHeld (before : Level) (s : Site) : Type 0 where
  pub held : s.decision ≡ some restricted
  pub remembered : s.decision_previous ≡ some before

module _ (before : Level) (s : Site) (sound : IsSound s) (h : IsHeld before s) where
  closed : s.access ≡ only_me
  closed = (sound.restricted_closed h.held).0

  not_pending : s.requested_at ≡ none
  not_pending = (sound.restricted_closed h.held).1

  set-IsHeld :
      (level : Level) (x : Level × Site) → set_site_access level s ≡ ok x → IsHeld before x.1
  unfolding move_to
  set-IsHeld level x e =
      subst (λ (y : Level × Site). IsHeld before y.1) (set_site_access-ok level s e).0
        (record { held = h.held; remembered = h.remembered })

  approve-none :
      (admin_id : String) (required : ℕ)
      → kept_second s (approve_network_access admin_id required s) ≡ s
  unfolding approve_network_access
  approve-none admin_id required = ground (arith, not_pending)

  decline-none : (now : ℕ) (reason : String) → kept s (decline_network_access now reason s) ≡ s
  unfolding decline_network_access
  decline-none now reason = ground (arith, not_pending)

  request-none :
      (now : ℕ) (by reason : String) → kept s (request_network_access now by reason s) ≡ s
  unfolding request_network_access check_not_restricted is_restricted
  request-none now by reason = ground (arith, h.held)

  not_open : network_open s ≡ false
  unfolding network_open level_eq
  not_open = rw closed

  drop-none : (drop_network_access s).2 ≡ s
  unfolding drop_network_access level_eq
  drop-none = rw (closed, not_pending)

  Run-IsHeld : (op : Operation) → op ≢ lift → IsHeld before (run op s)
  unfolding run
  Run-IsHeld (set level) other =
      kept_second-keeps (IsHeld before) s (set_site_access level s) h (set-IsHeld level)
  Run-IsHeld (request now by reason) other =
      subst (IsHeld before) (sym (request-none now by reason)) h
  Run-IsHeld (approve admin_id required) other =
      subst (IsHeld before) (sym (approve-none admin_id required)) h
  Run-IsHeld (decline now reason) other = subst (IsHeld before) (sym (decline-none now reason)) h
  Run-IsHeld (revoke now reason) other = rw not_open h
  Run-IsHeld (restrict now reason) other =
      unfold restrict_site move_to is_restricted in
      record { held = refl; remembered = ground (arith, h.held, h.remembered) }
  Run-IsHeld lift other = absurd (other refl)
  Run-IsHeld drop other = subst (IsHeld before) (sym drop-none) h
  Run-IsHeld forget_requester other = record { held = h.held; remembered = h.remembered }
  Run-IsHeld (forget_admin admin_id) other = record { held = h.held; remembered = h.remembered }
  Run-IsHeld (mark_deleted b) other = record { held = h.held; remembered = h.remembered }

run_all-IsHeld :
    (before : Level) (ops : List Operation) (s : Site)
    → IsSound s
    → IsHeld before s
    → All (λ op. op ≢ lift) ops
    → IsHeld before (run_all ops s)
unfolding run_all
run_all-IsHeld before [] s sound h other = h
run_all-IsHeld before (op ∷ ops) s sound h (first, rest) =
    run_all-IsHeld before ops (run op s) (Run-IsSound op s sound)
      (Run-IsHeld before s sound h op first) rest

-- A restriction is sticky: from a restricted site that satisfies the invariant, no operation but
-- `lift` opens it up or ends the restriction, in whatever number and order they come.
pub restriction_sticky :
    (ops : List Operation) (s : Site) (before : Level)
    → IsSound s
    → IsHeld before s
    → All (λ op. op ≢ lift) ops
    → ((run_all ops s).access ≡ only_me)
      × ((run_all ops s).decision ≡ some restricted)
      × ((run_all ops s).requested_at ≡ none)
restriction_sticky ops s before sound h other =
    let after = run_all-IsHeld before ops s sound h other in
    let (level, request_gone) = (run_all-IsSound ops s sound).restricted_closed after.held in
    (level, after.held, request_gone)

restrict-IsHeld :
    (now : ℕ) (reason : String) (s : Site)
    → s.decision ≢ some restricted
    → IsHeld s.access (run (restrict now reason) s)
unfolding run restrict_site move_to is_restricted
restrict-IsHeld now reason s free = record { held = refl; remembered = ground arith }

lift-held :
    (before : Level) (s : Site)
    → IsHeld before s
    → ((run lift s).access ≡ restored_level (some before)) × ((run lift s).decision ≡ none)
unfolding run lift_site_restriction is_restricted move_to
lift-held before s h = ground (arith, h.held, h.remembered)

-- Lifting a restriction gives a site that satisfied the invariant and was not restricted before
-- back the valid level that it had when it was restricted, whatever but a lift was tried in
-- between, except that a site that was on the network goes back to `company`.
pub lift-restrict :
    (now : ℕ) (reason : String) (ops : List Operation) (s : Site)
    → IsSound s
    → s.decision ≢ some restricted
    → valid_access_level s.access ≡ true
    → All (λ op. op ≢ lift) ops
    → ((run lift (run_all ops (run (restrict now reason) s))).access
        ≡ (if s.access == network then company else s.access))
      × ((run lift (run_all ops (run (restrict now reason) s))).decision ≡ none)
lift-restrict now reason ops s sound free valid other =
    let held = restrict-IsHeld now reason s free in
    let between =
      run_all-IsHeld s.access ops (run (restrict now reason) s)
        (Run-IsSound (restrict now reason) s sound) held other in
    let (level, undecided) = lift-held s.access _ between in
    (level ∙ restored s.access valid, undecided)
