-- ===== src/Access/Approvals.antt =====
-- Approvals of a network request: `ApproveNetworkAccess` keeps the invariant, and opens a site only
-- with enough admins behind it.
use simple_host_enterprise.Common.{
  ℕ, String, ◌≡◌, ◌≢◌, refl, ◌∙◌, false, some, List, [], ◌∷◌, arith, String_eq, ℕ_eq, any, ok, All,
  All-map, length, Bool-cases, Option-cases, ==_self, inl, inr, ◌⊎◌,
}
use simple_host_enterprise.Access.{
  Level_eq, Approval, Site, NetworkApproval, same_approval, record_approval, count_approvals,
  approve_pending, approve_network_access,
}
use simple_host_enterprise.Access.Invariant.{Distinct, IsSound}

abbrev pub Member : {A : Type 0} → A → List A → Type 0
Member a [] = ⊥
Member a (x ∷ xs) = (a ≡ x) ⊎ Member a xs

pub All-Member : {A : Type 0} (xs : List A) → All (λ a. Member a xs) xs
All-Member [] = tt
All-Member (x ∷ xs) = (inl refl, All-map xs (λ y m. inr m) (All-Member xs))

module _ (at : ℕ) (admin_id : String) where
  abbrev pub vote : Approval
  vote = record { requested_at = at; admin_id = admin_id }

  -- An approval of this request that is not the same row is another admin's.
  new_voter :
      (rows : List Approval)
      → All (λ a. some a.requested_at ≡ some at) rows
      → any (same_approval vote) rows ≡ false
      → All (λ b. admin_id ≢ b.admin_id) rows
  unfolding same_approval
  new_voter [] h e = tt
  new_voter (b ∷ rows) (same, h) e =
      (ground (arith, String_eq.beq_iff admin_id b.admin_id), new_voter rows h (ground arith))

  record_approval-Distinct :
      (rows : List Approval)
      → All (λ a. some a.requested_at ≡ some at) rows
      → Distinct rows
      → Distinct (record_approval vote rows).1
  unfolding record_approval
  record_approval-Distinct rows h d = elim (Bool-cases (any (same_approval vote) rows)) [
    | inl e ↦ rw e d
    | inr e ↦ rw e (new_voter rows h e, d)
  ]

  record_approval-All {κ} :
      (P : Approval → Type κ) (rows : List Approval)
      → P vote
      → All P rows
      → All P (record_approval vote rows).1
  unfolding record_approval
  record_approval-All P rows p h = elim (Bool-cases (any (same_approval vote) rows)) [
    | inl e ↦ rw e h
    | inr e ↦ rw e (p, h)
  ]

  -- The count of the join is the number of the approvals, if all are of this request.
  count-length :
      (rows : List Approval)
      → All (λ a. some a.requested_at ≡ some at) rows
      → count_approvals at rows ≡ length rows
  unfolding count_approvals
  count-length [] h = refl
  count-length (a ∷ rows) (e, h) = ground (arith, count-length rows h)

-- What a recorded approval went through.
pub approve-ok :
    (admin_id : String) (required : ℕ) (s : Site) {x : NetworkApproval × Site}
    → approve_network_access admin_id required s ≡ ok x
    → (at : ℕ) × (s.is_deleted ≡ false)
      × (s.requested_at ≡ some at)
      × (s.requested_by ≢ some admin_id)
      × (x ≡ approve_pending at admin_id required s)
unfolding approve_network_access
approve-ok admin_id required s h = elim (Option-cases s.requested_at) [
  | inl e ↦ absurd (ground arith)
  | inr (at, e) ↦ (at, ground arith, e, not_own, ground arith)
]
  where
    not_own : s.requested_by ≢ some admin_id
    not_own p = ground (arith, ==_self admin_id)

-- The approvals after this one, all of the pending request.
module _ (s : Site) (sound : IsSound s) (at : ℕ) (admin_id : String)
    (pending : s.requested_at ≡ some at) where
  abbrev pub voters : List Approval
  voters = (record_approval (vote at admin_id) s.approvals).1

  earlier : All (λ a. some a.requested_at ≡ some at) s.approvals
  earlier = All-map s.approvals (λ a e. e ∙ pending) sound.current

  pub voters-current : All (λ a. some a.requested_at ≡ some at) voters
  voters-current =
      record_approval-All at admin_id (λ a. some a.requested_at ≡ some at) s.approvals refl earlier

  pub voters-Distinct : Distinct voters
  voters-Distinct = record_approval-Distinct at admin_id s.approvals earlier sound.distinct

  pub voters-not_requester :
      s.requested_by ≢ some admin_id → All (λ a. s.requested_by ≢ some a.admin_id) voters
  voters-not_requester h =
      record_approval-All at admin_id (λ a. s.requested_by ≢ some a.admin_id) s.approvals h
        sound.not_requester

  pub voters-known : All (λ a. (a.admin_id ≡ admin_id) ⊎ Member a s.approvals) voters
  voters-known =
      record_approval-All at admin_id (λ a. (a.admin_id ≡ admin_id) ⊎ Member a s.approvals)
        s.approvals (inl refl) (All-map s.approvals (λ a m. inr m) (All-Member s.approvals))

  pub voters-count : count_approvals at voters ≡ length voters
  voters-count = count-length at admin_id voters voters-current
