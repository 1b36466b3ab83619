-- ===== src/Policy/Deciding.antt =====
-- What `Decide` grants, for the matrices that pass the rules.
use simple_host_enterprise.Common.{
  ℕ, ◌≤◌, ◌≡◌, ◌≢◌, refl, Bool, false, ◌&&◌, arith, String_eq, ◌==◌, ==_iff, if◌then◌else◌, nat_eq,
  Bool-cases, inl, inr, ◌⊎◌, none, sym, ◌∙◌, false≢true,
}
use simple_host_enterprise.Policy.{
  Who, Who_eq, who_eq, who_eq_iff, nobody, owner, own, anyone, unset, other, Action, read, add,
  edit, delete, Matrix, get, check,
}
use simple_host_enterprise.Policy.Rules.{IsAllowed, check_iff, width}
use simple_host_enterprise.Policy.Decide.{
  Caller, Decision, refused, allowed, own_only, is_read, by_value, decide,
}

-- How much a decision lets through: nothing, the caller's own entries, every entry.
abbrev pub reach : Decision → ℕ
reach refused = 0
reach own_only = 1
reach allowed = 2

by_value_mono :
    (v w : Who) (o : Bool) → width v ≤ width w → reach (by_value v o) ≤ reach (by_value w o)
unfolding by_value
by_value_mono nobody w o h = omega arith
by_value_mono unset w o h = omega arith
by_value_mono (other _) w o h = omega arith
by_value_mono owner nobody o h = absurd (omega arith)
by_value_mono owner unset o h = absurd (omega arith)
by_value_mono owner (other _) o h = absurd (omega arith)
by_value_mono _ owner o h = ground arith
by_value_mono _ own o h = ground arith
by_value_mono _ _ o h = ground arith

-- The test of the anonymous branch, by widths.
anyone_width : (v : Who) → (v == anyone) ≡ nat_eq (width v) 4
unfolding who_eq
anyone_width nobody = refl
anyone_width _ = refl

anonymous_mono :
    (t : Bool) (v w : Who)
    → width v ≤ width w
    → reach (if t && v == anyone then allowed else refused)
      ≤ reach (if t && w == anyone then allowed else refused)
anonymous_mono t v w h = rw (anyone_width v, anyone_width w) (ground arith)

-- A wider value never grants less: for every action and caller, if the second matrix has at least as
-- wide a value for the action then it grants at least as much.
pub decide_mono :
    (m n : Matrix) (a : Action) (c : Caller)
    → width (get m a) ≤ width (get n a)
    → reach (decide m a c) ≤ reach (decide n a c)
unfolding decide
decide_mono m n a c h = ground (
  arith,
  anonymous_mono (is_read a) (get m a) (get n a) h,
  by_value_mono (get m a) (get n a) c.owner h,
)

-- What `Decide` returns beyond the two early exits is the value's own grant.
module _ (m : Matrix) (a : Action) (c : Caller) where
  -- An anonymous caller who is not the owner's tool is allowed to read, where `read` is `anyone`, and
  -- is refused everything else.
  pub decide_anonymous :
      c.user_id ≡ ""
      → (c.owner && c.tool) ≡ false
      → (decide m a c ≡ refused) ⊎ ((decide m a c ≡ allowed) × (a ≡ read) × (m.read ≡ anyone))
  unfolding decide get
  decide_anonymous anonymous page = rw (page, (==_iff c.user_id "").1 anonymous) (by_action a)
    where
      by_action :
          (b : Action)
          → ((if is_read b && get m b == anyone then allowed else refused) ≡ refused)
            ⊎ (((if is_read b && get m b == anyone then allowed else refused) ≡ allowed)
                × (b ≡ read)
                × (m.read ≡ anyone))
      by_action read = elim (Bool-cases (m.read == anyone)) [
        | inl e ↦ inr (rw e refl, refl, (who_eq_iff m.read anyone).0 e)
        | inr e ↦ inl (rw e refl)
      ]
      by_action add = inl refl
      by_action edit = inl refl
      by_action delete = inl refl

  sees :
      is_read a ≡ false
      → width (get m a) ≤ width (get m read)
      → reach (decide m a c) ≤ reach (decide m read c)
  unfolding decide
  sees change h = ground (arith, by_value_mono (get m a) (get m read) c.owner h)

-- Under a matrix that passes the rules nobody changes what they cannot see: whatever a caller may
-- edit or delete (every entry, their own, none), they may read at least that.
pub decide_no_blind_change :
    (m : Matrix) (c : Caller)
    → check m ≡ none
    → (reach (decide m edit c) ≤ reach (decide m read c))
      × (reach (decide m delete c) ≤ reach (decide m read c))
unfolding get
decide_no_blind_change m c h =
    let fine = (check_iff m).0 h in
    (sees m edit c refl fine.edit_sees, sees m delete c refl fine.delete_sees)

by_value_own : (w : Who) (o : Bool) → by_value w o ≡ own_only → (w ≡ own) × (o ≡ false)
unfolding by_value
by_value_own own o h = ground arith
by_value_own _ o h = ground arith

-- A caller who is held to their own entries is signed in, is not the owner, and meets `own`.
own_only_branch :
    (m : Matrix) (a : Action) (c : Caller)
    → decide m a c ≡ own_only
    → ((c.user_id == "") ≡ false) × (c.owner ≡ false) × (get m a ≡ own)
unfolding decide
own_only_branch m a c d = ground (arith, by_value_own (get m a) c.owner)

own_adder : (m : Matrix) (a : Action) → IsAllowed m → get m a ≡ own → m.add ≢ anyone
unfolding get
own_adder m read h e p = (h.own_needs_adder p).0 e
own_adder m add h e p = h.add_not_own e
own_adder m edit h e p = (h.own_needs_adder p).1 e
own_adder m delete h e p = (h.own_needs_adder p).2 e

-- Under a matrix that passes the rules, whoever is held to their own entries is signed in and is not
-- the owner, the action's value is `own`, and every entry has a known adder: `add` is not `anyone`.
pub decide_own_only :
    (m : Matrix) (a : Action) (c : Caller)
    → check m ≡ none
    → decide m a c ≡ own_only
    → (c.user_id ≢ "") × (c.owner ≡ false) × (get m a ≡ own) × (m.add ≢ anyone)
decide_own_only m a c h d =
    let (signed, page, own_value) = own_only_branch m a c d in
    (
      λ p. false≢true (sym signed ∙ (==_iff c.user_id "").1 p),
      page,
      own_value,
      own_adder m a ((check_iff m).0 h) own_value,
    )
