-- ===== src/Policy/Resolving.antt =====
-- What `Resolve` returns: an allowed matrix, with the overrides of the spec, under its right name.
mod Overrides
use simple_host_enterprise.Common.{
  String, ◌≡◌, ◌≢◌, ◌⊎◌, inl, inr, ◌↔◌, ap, sym, subst, false≢true, ◌∙◌, refl, Bool, true, false,
  not, ◌||◌, Option, none, some, List, [], ◌∷◌, arith, String_eq, ◌==◌, ==_iff, ==_self, &&-true,
  if◌then◌else◌, Result, ok, err, Bool-cases, Option-cases, All, passed, ok-injective, ◌>>=◌,
  >>=-eq-ok,
}
use simple_host_enterprise.Common.Maps.{lookup}
use simple_host_enterprise.Policy.{
  Who, Who_eq, who_eq, who_eq_iff, unset, Action, read, add, edit, delete, actions, Matrix, get,
  set, invalid_value, is_valid, check, RuleError,
}
pub use Overrides.{chosen, overridden_matrix}
use Overrides.{resolve_inversion}
use simple_host_enterprise.Policy.Rules.{IsAllowed, check_iff}
use simple_host_enterprise.Policy.Presets.{
  presets, preset_order, preset, matrix_eq, name_among, name_of, Spec, Resolved, starting_point,
  override_of, apply_overrides, refused, label, resolve,
}

matrix_eq_self : (m : Matrix) → matrix_eq m m ≡ true
unfolding matrix_eq
matrix_eq_self m = rw (==_self m.read, ==_self m.add, ==_self m.edit, ==_self m.delete)

matrix_eq_sound : (m n : Matrix) → matrix_eq m n ≡ true → m ≡ n
unfolding matrix_eq
matrix_eq_sound m n h = λ i. record {
  read = (who_eq_iff m.read n.read).0 (ground arith) i;
  add = (who_eq_iff m.add n.add).0 (ground arith) i;
  edit = (who_eq_iff m.edit n.edit).0 (ground arith) i;
  delete = (who_eq_iff m.delete n.delete).0 (ground arith) i;
}

-- The name of a resolved matrix is that of the preset that it is, or "custom".
abbrev pub IsNamed : Resolved → Type 0
IsNamed r = (r.preset ≡ "custom") ⊎ (lookup r.preset presets ≡ some r.matrix)

name_among-lookup :
    (names : List String) (m : Matrix)
    → All (λ n. lookup n presets ≡ some (preset n)) names
    → (name_among names m ≡ "") ⊎ (lookup (name_among names m) presets ≡ some m)
unfolding name_among
name_among-lookup [] m h = inl refl
name_among-lookup (n ∷ ns) m h = elim (Bool-cases (matrix_eq (preset n) m)) [
  | inl e ↦ rw e (inr (h.0 ∙ ap some (matrix_eq_sound (preset n) m e)))
  | inr e ↦ rw e (name_among-lookup ns m h.1)
]

order-presets : All (λ n. lookup n presets ≡ some (preset n)) preset_order
unfolding lookup preset
order-presets = (refl, (refl, (refl, (refl, (refl, (refl, (refl, tt)))))))

name_of-lookup : (m : Matrix) → (name_of m ≡ "") ⊎ (lookup (name_of m) presets ≡ some m)
unfolding name_of
name_of-lookup m = name_among-lookup preset_order m order-presets

-- The matrix that the spec names by its preset or, where it names none, that of the fallback.
abbrev pub base_matrix : Spec → Resolved → Matrix
base_matrix s fallback = if s.preset == "" then fallback.matrix else preset s.preset

module _ (s : Spec) (fallback : Resolved) (start : Matrix × String) where
  starting_point-base : starting_point s fallback ≡ ok start → start.0 ≡ base_matrix s fallback
  unfolding starting_point preset
  starting_point-base h = ground (arith, Option-cases (lookup s.preset presets))

  starting_point-preset :
      starting_point s fallback ≡ ok start
      → (s.preset == "") ≡ false
      → (start.1 ≡ s.preset) × (lookup s.preset presets ≡ some start.0)
  unfolding starting_point
  starting_point-preset h named = ground (arith, Option-cases (lookup s.preset presets))

-- The four ways in which a checked matrix is labelled.
data Labelled (s : Spec) (fallback : Resolved) (m : Matrix) (base : String) (r : Resolved)
    : Bool → Type 0 where
  by_preset :
      (s.preset == "") ≡ false
      → r ≡ record { matrix = m; preset = base; base = "" }
      → Labelled s fallback m base r false
  unchanged_fallback : (s.preset == "") ≡ true → r ≡ fallback → Labelled s fallback m base r false
  by_name :
      (b : Bool)
      → name_of m ≢ ""
      → r ≡ record { matrix = m; preset = name_of m; base = "" }
      → Labelled s fallback m base r b
  custom :
      (b : Bool)
      → r ≡ record { matrix = m; preset = "custom"; base = base }
      → Labelled s fallback m base r b

module _ (s : Spec) (fallback : Resolved) (m : Matrix) (base : String) {r : Resolved} where
  by_the_name :
      (b : Bool)
      → (if not (name_of m == "")
          then record { matrix = m; preset = name_of m; base = "" }
          else record { matrix = m; preset = "custom"; base = base })
        ≡ r
      → Labelled s fallback m base r b
  by_the_name b h = elim (Bool-cases (name_of m == "")) [
    | inl e ↦ custom b (sym (rw e at h))
    | inr e ↦ by_name b (λ p. false≢true (sym e ∙ (==_iff (name_of m) "").1 p)) (sym (rw e at h))
  ]

  label-Labelled : (b : Bool) → label s fallback m base b ≡ r → Labelled s fallback m base r b
  unfolding label
  label-Labelled true h = by_the_name true h
  label-Labelled false h = elim (Bool-cases (s.preset == "")) [
    | inl e ↦ unchanged_fallback e (ground (arith, Bool-cases (base == "")))
    | inr e ↦ elim (Bool-cases (base == "")) [
      | inl f ↦ by_the_name false (rw (e, f) at h)
      | inr f ↦ by_preset e (sym (rw (e, f) at h))
    ]
  ]

Labelled-matrix :
    (s : Spec) (fallback : Resolved) (m : Matrix) (base : String) (r : Resolved) (b : Bool)
    → Labelled s fallback m base r b
    → (b ≡ false → (s.preset == "") ≡ true → m ≡ fallback.matrix)
    → r.matrix ≡ m
Labelled-matrix s fallback m base r b (by_preset _ e) h = ap (λ (x : Resolved). x.matrix) e
Labelled-matrix s fallback m base r b (unchanged_fallback p e) h =
    ap (λ (x : Resolved). x.matrix) e ∙ sym (h refl p)
Labelled-matrix s fallback m base r b (by_name _ _ e) h = ap (λ (x : Resolved). x.matrix) e
Labelled-matrix s fallback m base r b (custom _ e) h = ap (λ (x : Resolved). x.matrix) e

chosen-get : (s : Spec) (m : Matrix) (a : Action) → get (overridden_matrix s m) a ≡ chosen s m a
unfolding get
chosen-get s m read = refl
chosen-get s m add = refl
chosen-get s m edit = refl
chosen-get s m delete = refl

-- A successful `Resolve` returns a matrix that passes the rules, and the value of each action is the
-- override where the spec has one, and otherwise that of the preset that the spec names or, where it
-- names none, of the fallback.
pub resolve_matrix :
    (s : Spec) (fallback r : Resolved)
    → resolve s fallback ≡ ok r
    → IsAllowed r.matrix × ((a : Action) → get r.matrix a ≡ chosen s (base_matrix s fallback) a)
resolve_matrix s fallback r h =
    let (start, b, started, fine, flag, labelled) = resolve_inversion s fallback h in
    let m = overridden_matrix s start.0 in
    let based = starting_point-base s fallback start started in
    let same : r.matrix ≡ m =
      Labelled-matrix s fallback m start.1 r b (label-Labelled s fallback m start.1 b labelled)
        (λ p q. flag p ∙ based ∙ (rw q)) in
    (
      subst IsAllowed (sym same) fine,
      λ a.
          ap (λ (n : Matrix). get n a) same ∙ chosen-get s start.0 a ∙ ap (λ n. chosen s n a) based,
    )

Labelled-IsNamed :
    (s : Spec) (fallback : Resolved) (m : Matrix) (base : String) (r : Resolved) (b : Bool)
    → Labelled s fallback m base r b
    → IsNamed fallback
    → (b ≡ false → (s.preset == "") ≡ false → lookup base presets ≡ some m)
    → IsNamed r
Labelled-IsNamed s fallback m base r b (by_preset q e) named h = inr (rw e (h refl q))
Labelled-IsNamed s fallback m base r b (unchanged_fallback p e) named h =
    subst IsNamed (sym e) named
Labelled-IsNamed s fallback m base r b (by_name _ q e) named h = elim (name_of-lookup m) [
  | inl p ↦ absurd (q p)
  | inr p ↦ inr (rw e p)
]
Labelled-IsNamed s fallback m base r b (custom _ e) named h =
    inl (ap (λ (x : Resolved). x.preset) e)

-- A successful `Resolve` calls its matrix by the name of the preset that it is, or "custom", if the
-- fallback is named so.
pub resolve-IsNamed :
    (s : Spec) (fallback r : Resolved) → IsNamed fallback → resolve s fallback ≡ ok r → IsNamed r
resolve-IsNamed s fallback r named h =
    let (start, b, started, fine, flag, labelled) = resolve_inversion s fallback h in
    let m = overridden_matrix s start.0 in
    Labelled-IsNamed s fallback m start.1 r b (label-Labelled s fallback m start.1 b labelled) named
      (λ p q.
        let (e, found) = starting_point-preset s fallback start started q in
        ap (λ n. lookup n presets) e ∙ found ∙ ap some (sym (flag p)))
