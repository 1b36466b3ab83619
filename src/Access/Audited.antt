-- ===== src/Access/Audited.antt =====
-- Every change that a handler makes is one operation on the site, recorded with it.
use simple_host_enterprise.Common.{
  ℕ, ◌<◌, String, ◌≡◌, ◌⊎◌, refl, ◌&&◌, ◌||◌, List, [], ◌∷◌, ◌++◌, arith, String_eq, ◌==◌, ℕ_eq,
  ltb, if◌then◌else◌, codes, length, Result, ok, err, Bool-cases, Option-cases, inl, inr,
}
use simple_host_enterprise.Access.{
  Level, Level_eq, network, company, Site, AccessError, no_rows, invalid_level, site_restricted,
  already_network, no_pending_request, self_approval, not_restricted, valid_access_level,
  set_site_access, request_network_access, NetworkApproval, approve_network_access,
  decline_network_access, record_network_revoked, restrict_site, lift_site_restriction,
  network_open,
}
use simple_host_enterprise.Access.Operations.{
  Operation, set, request, approve, decline, revoke, restrict, lift, kept, kept_second, revoked_row,
  run,
}
use simple_host_enterprise.Access.Handlers.{
  Event, network_access_requested, site_access, network_access_reverted, network_access_approved,
  network_access_approval_added, network_access_declined, site_restricted_event,
  site_restriction_lifted, Store, Environment, Answer, finish, answer_request, answer_set,
  set_within, with_site, with_early, set_site_access_for_target, required_network_approvals,
  answer_approve, answer_decline, answer_revoke, answer_lift, AdminAction, approves, declines,
  reverts, restricts, unrestricts, admin_within, decide_as_admin,
}

-- Nothing changed; or the request succeeded, the site is `after`, and something was recorded.
abbrev pub Audited : Store → Site → Answer → Type 0
Audited st after answer =
    (answer.store ≡ st)
    ⊎ ((answer.status < 300)
        × (answer.store.site ≡ after)
        × ((e : Event) × (more : List Event) × (answer.store.log ≡ (e ∷ more) ++ st.log)))

finish-Audited :
    (env : Environment) (st : Store) (status : ℕ) (e : Event) (more : List Event) (after : Site)
    → status < 300
    → Audited st after (finish env st status (e ∷ more) after)
unfolding finish
finish-Audited env st status e more after h = elim (Bool-cases env.record_fails) [
  | inl r ↦ rw r (inl refl)
  | inr r ↦ elim (Bool-cases env.commit_fails) [
    | inl c ↦ rw (r, c) (inl refl)
    | inr c ↦ rw (r, c) (inr (h, refl, (e, more, refl)))
  ]
]

answer_request-Audited :
    (env : Environment) (st : Store) (reason : String) (r : Result AccessError Site)
    → Audited st (kept st.site r) (answer_request env st reason r)
unfolding answer_request
answer_request-Audited env st reason (ok site) =
    finish-Audited env st 202 (network_access_requested reason) [] site (omega arith)
answer_request-Audited env st reason (err (site_restricted s)) = inl refl
answer_request-Audited env st reason (err already_network) = inl refl
answer_request-Audited env st reason (err no_rows) = inl refl
answer_request-Audited env st reason (err invalid_level) = inl refl
answer_request-Audited env st reason (err no_pending_request) = inl refl
answer_request-Audited env st reason (err self_approval) = inl refl
answer_request-Audited env st reason (err not_restricted) = inl refl

answer_set-Audited :
    (env : Environment) (st : Store) (level : Level) (r : Result AccessError (Level × Site))
    → Audited st (kept_second st.site r) (answer_set env st level r)
unfolding answer_set
answer_set-Audited env st level (ok (previous, site)) = elim (Bool-cases (previous == network)) [
  | inl p ↦ rw p (
      finish-Audited env st 200 (site_access previous level) (network_access_reverted ∷ []) site
        (omega arith))
  | inr p ↦ rw p (finish-Audited env st 200 (site_access previous level) [] site (omega arith))
]
answer_set-Audited env st level (err (site_restricted s)) = inl refl
answer_set-Audited env st level (err already_network) = inl refl
answer_set-Audited env st level (err no_rows) = inl refl
answer_set-Audited env st level (err invalid_level) = inl refl
answer_set-Audited env st level (err no_pending_request) = inl refl
answer_set-Audited env st level (err self_approval) = inl refl
answer_set-Audited env st level (err not_restricted) = inl refl

answer_approve-Audited :
    (env : Environment) (st : Store) (r : Result AccessError (NetworkApproval × Site))
    → Audited st (kept_second st.site r) (answer_approve env st r)
unfolding answer_approve
answer_approve-Audited env st (ok (approval, site)) = elim (Bool-cases approval.approved) [
  | inl p ↦
      rw p (
        finish-Audited env st 200 (network_access_approved approval.approvals) [] site
          (omega arith))
  | inr p ↦ elim (Bool-cases approval.duplicate) [
    | inl d ↦ rw (p, d) (inl refl)
    | inr d ↦
        rw (p, d)
          (finish-Audited env st 200 (network_access_approval_added approval.approvals) [] site
            (omega arith))
  ]
]
answer_approve-Audited env st (err no_rows) = inl refl
answer_approve-Audited env st (err invalid_level) = inl refl
answer_approve-Audited env st (err already_network) = inl refl
answer_approve-Audited env st (err no_pending_request) = inl refl
answer_approve-Audited env st (err self_approval) = inl refl
answer_approve-Audited env st (err not_restricted) = inl refl
answer_approve-Audited env st (err (site_restricted s)) = inl refl

answer_decline-Audited :
    (env : Environment) (st : Store) (r : Result AccessError Site)
    → Audited st (kept st.site r) (answer_decline env st r)
unfolding answer_decline
answer_decline-Audited env st (ok site) =
    finish-Audited env st 200 network_access_declined [] site (omega arith)
answer_decline-Audited env st (err no_rows) = inl refl
answer_decline-Audited env st (err invalid_level) = inl refl
answer_decline-Audited env st (err already_network) = inl refl
answer_decline-Audited env st (err no_pending_request) = inl refl
answer_decline-Audited env st (err self_approval) = inl refl
answer_decline-Audited env st (err not_restricted) = inl refl
answer_decline-Audited env st (err (site_restricted s)) = inl refl

answer_revoke-Audited :
    (env : Environment) (now : ℕ) (note : String) (st : Store)
    (r : Result AccessError (Level × Site))
    → Audited st (revoked_row now note st.site r) (answer_revoke env now note st r)
unfolding answer_revoke revoked_row
answer_revoke-Audited env now note st (ok (previous, site)) =
    finish-Audited env st 200 network_access_reverted [] (record_network_revoked now note site)
      (omega arith)
answer_revoke-Audited env now note st (err no_rows) = inl refl
answer_revoke-Audited env now note st (err invalid_level) = inl refl
answer_revoke-Audited env now note st (err already_network) = inl refl
answer_revoke-Audited env now note st (err no_pending_request) = inl refl
answer_revoke-Audited env now note st (err self_approval) = inl refl
answer_revoke-Audited env now note st (err not_restricted) = inl refl
answer_revoke-Audited env now note st (err (site_restricted s)) = inl refl

answer_lift-Audited :
    (env : Environment) (st : Store) (r : Result AccessError (Level × Site))
    → Audited st (kept_second st.site r) (answer_lift env st r)
unfolding answer_lift
answer_lift-Audited env st (ok (level, site)) =
    finish-Audited env st 200 (site_restriction_lifted level) [] site (omega arith)
answer_lift-Audited env st (err no_rows) = inl refl
answer_lift-Audited env st (err invalid_level) = inl refl
answer_lift-Audited env st (err already_network) = inl refl
answer_lift-Audited env st (err no_pending_request) = inl refl
answer_lift-Audited env st (err self_approval) = inl refl
answer_lift-Audited env st (err not_restricted) = inl refl
answer_lift-Audited env st (err (site_restricted s)) = inl refl

-- The operation that a request asks for.
unfoldable pub set_operation : ℕ → String → Level → String → Operation
set_operation now actor level reason =
    if level == network then request now actor reason else set level

unfoldable pub admin_operation : ℕ → String → AdminAction → Operation
admin_operation now admin (approves n) = approve admin (required_network_approvals n)
admin_operation now admin (declines note) = decline now note
admin_operation now admin (reverts note) = revoke now note
admin_operation now admin (restricts reason) = restrict now reason
admin_operation now admin unrestricts = lift

guarded :
    (env : Environment) (st : Store) (after : Site) (answer : Answer)
    → Audited st after answer
    → Audited st after (with_site env st answer)
unfolding with_site
guarded env st after answer h = elim (Bool-cases env.begin_fails) [
  | inl b ↦ rw b (inl refl)
  | inr b ↦ elim (Bool-cases env.found) [ inl f ↦ rw (b, f) h | inr f ↦ rw (b, f) (inl refl) ]
]

guarded_early :
    (env : Environment) (st : Store) (after : Site) (answer : Answer)
    → Audited st after answer
    → Audited st after (with_early env st answer)
unfolding with_early
guarded_early env st after answer h = elim (Option-cases env.early) [
  | inl e ↦ rw (e, with_early) h
  | inr (status, e) ↦ rw (e, with_early) (inl refl)
]

set_within-Audited :
    (env : Environment) (now : ℕ) (actor : String) (level : Level) (reason : String) (st : Store)
    → Audited st
        (run (set_operation now actor level reason) st.site)
        (set_within env now actor level reason st)
unfolding set_within set_operation run
set_within-Audited env now actor level reason st = elim (Bool-cases (level == network)) [
  | inl n ↦
      rw n (answer_request-Audited env st reason (request_network_access now actor reason st.site))
  | inr n ↦ rw n (answer_set-Audited env st level (set_site_access level st.site))
]

admin_within-Audited :
    (env : Environment) (now : ℕ) (admin : String) (action : AdminAction) (st : Store)
    → Audited st
        (run (admin_operation now admin action) st.site)
        (admin_within env now admin action st)
unfolding admin_within admin_operation run
admin_within-Audited env now admin (approves n) st =
    answer_approve-Audited env st
      (approve_network_access admin (required_network_approvals n) st.site)
admin_within-Audited env now admin (declines note) st =
    answer_decline-Audited env st (decline_network_access now note st.site)
admin_within-Audited env now admin (reverts note) st = elim (Bool-cases (network_open st.site)) [
  | inl o ↦ rw o (answer_revoke-Audited env now note st (set_site_access company st.site))
  | inr o ↦ rw o (inl refl)
]
admin_within-Audited env now admin (restricts reason) st =
    finish-Audited env st 200 (site_restricted_event (restrict_site now reason st.site).0 reason) []
      (restrict_site now reason st.site).1 (omega arith)
admin_within-Audited env now admin unrestricts st =
    answer_lift-Audited env st (lift_site_restriction st.site)

-- A request to set a site's level changes nothing, or it succeeds, does exactly the operation asked
-- for (a request for approval where the level is `network`), and leaves an event in the audit log:
-- whatever the database refuses, the site is never changed without one.
pub set_site_access_for_target-Audited :
    (env : Environment) (now : ℕ) (actor : String) (level : Level) (reason : String) (st : Store)
    → Audited st
        (run (set_operation now actor level reason) st.site)
        (set_site_access_for_target env now actor level reason st)
unfolding set_site_access_for_target
set_site_access_for_target-Audited env now actor level reason st =
    guarded_early env st _ _ (elim (Bool-cases (valid_access_level level)) [
      | inr v ↦ rw v (inl refl)
      | inl v ↦
          elim (Bool-cases
            (level == network && (reason == "" || ltb 500 (length (codes reason))))) [
              | inl bad ↦ rw (v, bad) (inl refl)
              | inr fine ↦
                  rw (v, fine)
                    (guarded env st _ _ (set_within-Audited env now actor level reason st))
            ]
    ])

-- What an admin decides, restricts or lifts changes nothing, or it succeeds, does exactly the
-- operation asked for, and leaves an event in the audit log: whatever the database refuses, the
-- site is never changed without one.
pub decide_as_admin-Audited :
    (env : Environment) (now : ℕ) (admin : String) (action : AdminAction) (st : Store)
    → Audited st
        (run (admin_operation now admin action) st.site)
        (decide_as_admin env now admin action st)
unfolding decide_as_admin
decide_as_admin-Audited env now admin action st =
    guarded_early env st _ _ (guarded env st _ _ (admin_within-Audited env now admin action st))
