-- ===== src/Policy/Tests.antt =====
-- Runs of the storage policy, and its theorems at concrete inputs.
use simple_host_enterprise.Common.{
  ◌≤◌, ◌≡◌, ◌≢◌, ◌↔◌, refl, false, arith, none, some, inr, ok, String_eq,
}
use simple_host_enterprise.Common.Maps.{lookup}
use simple_host_enterprise.Policy.{
  who_eq, owner, own, signed_in, anyone, unset, other, Action, read, add, edit, delete, Matrix, get,
  uses_own, check, invalid_value,
}
use simple_host_enterprise.Policy.Rules.{IsAllowed, check_iff}
use simple_host_enterprise.Policy.Presets.{
  matrix, preset, matrix_eq, Spec, Resolved, default, starting_point, apply_overrides, label,
  resolve,
}
use simple_host_enterprise.Policy.Resolving.{chosen, base_matrix, IsNamed, resolve_matrix}
use simple_host_enterprise.Policy.Decide.{Caller, own_only, decide}
use simple_host_enterprise.Policy.Deciding.{reach, decide_mono, decide_no_blind_change}

abbrev wall : Matrix
wall = matrix anyone signed_in owner own

check-wall : check wall ≡ none
unfolding check who_eq uses_own
check-wall = refl

check_blind : check (matrix owner owner anyone owner) ≢ none
unfolding check who_eq uses_own
check_blind h = cc

check_unknown : check (matrix owner (other "all") owner owner) ≡ some (invalid_value add)
unfolding check who_eq uses_own
check_unknown = refl

check_iff_example : (check wall ≡ none) ↔ IsAllowed wall
check_iff_example = check_iff wall

-- The wall preset with `delete` narrowed to the owner: no preset has that matrix.
abbrev narrowed : Spec
narrowed = record { preset = "wall"; read = unset; add = unset; edit = unset; delete = owner }

abbrev narrowed_wall : Resolved
narrowed_wall = record {
  matrix = matrix anyone signed_in owner owner;
  preset = "custom";
  base = "wall";
}

resolve-narrowed : resolve narrowed default ≡ ok narrowed_wall
unfolding resolve default starting_point apply_overrides label check uses_own matrix_eq who_eq
    lookup
resolve-narrowed = refl

-- Overrides that spell another preset take its name.
abbrev as_personal : Spec
as_personal = record { preset = "wall"; read = own; add = unset; edit = own; delete = unset }

resolve_renamed :
    resolve as_personal default
    ≡ ok (record { matrix = matrix own signed_in own own; preset = "personal"; base = "" })
unfolding resolve default starting_point apply_overrides label check uses_own matrix_eq who_eq
    lookup
resolve_renamed = refl

resolve_matrix_example :
    IsAllowed narrowed_wall.matrix
    × ((a : Action) → get narrowed_wall.matrix a ≡ chosen narrowed (base_matrix narrowed default) a)
resolve_matrix_example = resolve_matrix narrowed default narrowed_wall resolve-narrowed

default-IsNamed : IsNamed default
unfolding default preset
default-IsNamed = inr refl

abbrev visitor : Caller
visitor = record { user_id = ""; owner = false; tool = false }

abbrev colleague : Caller
colleague = record { user_id = "u1"; owner = false; tool = false }

decide_mono_example :
    reach (decide (matrix owner owner owner owner) read colleague)
    ≤ reach (decide wall read colleague)
decide_mono_example =
    decide_mono (matrix owner owner owner owner) wall read colleague (unfold get in omega arith)

decide_no_blind_change_example :
    (reach (decide wall edit colleague) ≤ reach (decide wall read colleague))
    × (reach (decide wall delete colleague) ≤ reach (decide wall read colleague))
decide_no_blind_change_example = decide_no_blind_change wall colleague check-wall

colleague_deletes : decide wall delete colleague ≡ own_only
unfolding decide who_eq
colleague_deletes = refl
