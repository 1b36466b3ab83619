-- ===== src/Policy/Resolving/Overrides.antt =====
-- The loop of `Resolve` over the overrides, and what a successful run of `Resolve` went through.
use simple_host_enterprise.Common.{
  String, ◌≡◌, inl, inr, ap, sym, ◌∙◌, refl, Bool, true, false, not, ◌||◌, Option, none, some, List,
  [], ◌∷◌, arith, String_eq, ◌==◌, if◌then◌else◌, ok, Bool-cases, passed, ok-injective, >>=-eq-ok,
}
use simple_host_enterprise.Policy.{
  Who, Who_eq, who_eq_iff, unset, Action, read, add, edit, delete, actions, Matrix, get, set,
  invalid_value, is_valid, check, RuleError,
}
use simple_host_enterprise.Policy.Rules.{IsAllowed, check_iff}
use simple_host_enterprise.Policy.Presets.{
  Spec, Resolved, starting_point, override_of, apply_overrides, refused, label, resolve,
}

-- The value of one action after the overrides of the spec.
abbrev pub chosen : Spec → Matrix → Action → Who
chosen s m a = if override_of s a == unset then get m a else override_of s a

set-get : (m : Matrix) (a : Action) → set m a (get m a) ≡ m
unfolding get set
set-get m read = refl
set-get m _ = refl

unchanged : (v w : Who) (b : Bool) → (not (v == w) || b) ≡ false → (b ≡ false) × (v ≡ w)
unchanged v w b p = ground (arith, who_eq_iff v w)

-- One round of the loop sets the action to its chosen value, and raises the flag if that is new.
module _ (s : Spec) (a : Action) (rest : List Action) (m : Matrix) (b : Bool) where
  round :
      (r : Matrix × Bool)
      → apply_overrides s (a ∷ rest) m b ≡ ok r
      → (b' : Bool) × (apply_overrides s rest (set m a (chosen s m a)) b' ≡ ok r)
        × (b' ≡ false → (b ≡ false) × (chosen s m a ≡ get m a))
  unfolding apply_overrides
  round r h = elim (Bool-cases (override_of s a == unset)) [
    | inl e ↦ (b, rw (e, set-get m a) (kept e), λ p. rw e (p, refl))
    | inr e ↦ (
      not (override_of s a == get m a) || b,
      rw e (taken e),
      λ p. rw e (unchanged (override_of s a) (get m a) b p),
    )
  ]
    where
      kept : (override_of s a == unset) ≡ true → apply_overrides s rest m b ≡ ok r
      kept e = rw e at h

      taken :
          (override_of s a == unset) ≡ false
          → apply_overrides s rest
              (set m a (override_of s a))
              (not (override_of s a == get m a) || b)
            ≡ ok r
      taken e =
          let rest_run =
            apply_overrides s rest (set m a (override_of s a))
              (not (override_of s a == get m a) || b) in
          (passed (not (is_valid (override_of s a))) (invalid_value a) rest_run (rw e at h)).1

-- The matrix of the chosen values.
abbrev pub overridden_matrix : Spec → Matrix → Matrix
overridden_matrix s m = record {
  read = chosen s m read;
  add = chosen s m add;
  edit = chosen s m edit;
  delete = chosen s m delete;
}

-- The loop of the overrides over all four actions gives each action its chosen value, and its flag
-- is down only if the matrix is the one that it started from.
module _ (s : Spec) (m : Matrix) where
  pub overrides_lem :
      (r : Matrix × Bool)
      → apply_overrides s actions m false ≡ ok r
      → (r.0 ≡ overridden_matrix s m) × (r.1 ≡ false → overridden_matrix s m ≡ m)
  unfolding apply_overrides get set
  overrides_lem r h =
      let (b1, h1, c1) = round s read (add ∷ edit ∷ delete ∷ []) m false r h in
      let m1 = set m read (chosen s m read) in
      let (b2, h2, c2) = round s add (edit ∷ delete ∷ []) m1 b1 r h1 in
      let m2 = set m1 add (chosen s m add) in
      let (b3, h3, c3) = round s edit (delete ∷ []) m2 b2 r h2 in
      let m3 = set m2 edit (chosen s m edit) in
      let (b4, h4, c4) = round s delete [] m3 b3 r h3 in
      let e : ◌≡◌ {A = Matrix × Bool} (overridden_matrix s m, b4) r = ok-injective h4 in
      (
        ap (λ (x : Matrix × Bool). x.0) (sym e),
        λ p.
            let (p3, q4) = c4 (ap (λ (x : Matrix × Bool). x.1) e ∙ p) in
            let (p2, q3) = c3 p3 in
            let (p1, q2) = c2 p2 in
            let q1 = (c1 p1).1 in
            λ i. record { read = q1 i; add = q2 i; edit = q3 i; delete = q4 i },
      )

refused-ok : (e : Option RuleError) {u : Unit {0}} → refused e ≡ ok u → e ≡ none
unfolding refused
refused-ok none h = refl
refused-ok (some e) h = cc

-- What a successful `Resolve` went through: its starting point, an allowed matrix of the chosen
-- values, and the label that it gave it.
module _ (s : Spec) (fallback : Resolved) where
  pub resolve_inversion :
      {r : Resolved}
      → resolve s fallback ≡ ok r
      → (start : Matrix × String) × (overridden : Bool) × (starting_point s fallback ≡ ok start)
        × IsAllowed (overridden_matrix s start.0)
        × (overridden ≡ false → overridden_matrix s start.0 ≡ start.0)
        × (label s fallback (overridden_matrix s start.0) start.1 overridden ≡ r)
  unfolding resolve refused
  resolve_inversion h =
      let (start, started, h1) = >>=-eq-ok (starting_point s fallback) _ h in
      let (x, looped, h2) = >>=-eq-ok (apply_overrides s actions start.0 false) _ h1 in
      let (u, checked, h3) = >>=-eq-ok (refused (check x.0)) _ h2 in
      let (chosen_values, flag) = overrides_lem s start.0 x looped in
      let allowed_matrix = (check_iff x.0).0 (refused-ok (check x.0) checked) in
      (
        start,
        x.1,
        started,
        rw chosen_values at allowed_matrix,
        flag,
        rw chosen_values at (ok-injective h3),
      )
