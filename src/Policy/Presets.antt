-- ===== src/Policy/Presets.antt =====
-- internal/storagepolicy/policy.go: the presets, and how a spec becomes a checked matrix.
use simple_host_enterprise.Common.{
  String, Bool, false, ◌&&◌, ◌||◌, Option, none, some, List, [], ◌∷◌, String_eq, ◌==◌, not,
  if◌then◌else◌, Result, ok, err, ◌>>=◌, ◌>>◌,
}
use simple_host_enterprise.Common.Maps.{Map, lookup}
use simple_host_enterprise.Policy.{
  Who, Who_eq, owner, own, signed_in, anyone, unset, Action, read, add, edit, delete, actions,
  Matrix, get, set, RuleError, invalid_value, unknown_preset, is_valid, check,
}

abbrev pub matrix : Who → Who → Who → Who → Matrix
matrix r a e d = record { read = r; add = a; edit = e; delete = d }

abbrev pub presets : Map String Matrix
presets =
    ("public", matrix anyone owner owner owner)
    ∷ ("inbox", matrix owner anyone owner owner)
    ∷ ("wall", matrix anyone signed_in owner own)
    ∷ ("records", matrix own signed_in owner owner)
    ∷ ("personal", matrix own signed_in own own)
    ∷ ("board", matrix signed_in signed_in signed_in owner)
    ∷ ("private", matrix owner owner owner owner)
    ∷ []

abbrev pub preset_order : List String
preset_order = "public" ∷ "inbox" ∷ "wall" ∷ "records" ∷ "personal" ∷ "board" ∷ "private" ∷ []

-- `Presets[name]` of a name that is there; the zero matrix of a name that is not.
unfoldable pub preset : String → Matrix
unfolding lookup
preset name = elim (lookup name presets) [ some m ↦ m | none ↦ matrix unset unset unset unset ]

unfoldable pub matrix_eq : Matrix → Matrix → Bool
matrix_eq m n = m.read == n.read && m.add == n.add && m.edit == n.edit && m.delete == n.delete

-- The loop of `Name`; the empty string when no preset has the matrix.
unfoldable pub name_among : List String → Matrix → String
unfolding preset
name_among [] m = ""
name_among (name ∷ names) m = if matrix_eq (preset name) m then name else name_among names m

unfoldable pub name_of : Matrix → String
unfolding name_among
name_of = name_among preset_order

-- An action that the spec leaves out is `unset`, a preset that it leaves out is "".
pub record Spec : Type 0 where
  pub preset : String
  pub read : Who
  pub add : Who
  pub edit : Who
  pub delete : Who

pub record Resolved : Type 0 where
  pub matrix : Matrix
  pub preset : String
  pub base : String

abbrev pub default_preset : String
default_preset = "private"

unfoldable pub default : Resolved
unfolding preset
default = record { matrix = preset default_preset; preset = default_preset; base = "" }

-- The matrix and the base name that the overrides start from.
unfoldable pub starting_point : Spec → Resolved → Result RuleError (Matrix × String)
unfolding lookup
starting_point s fallback =
    if not (s.preset == "")
    then elim (lookup s.preset presets) [ some m ↦ ok (m, s.preset) | none ↦ err unknown_preset ]
    else ok
        (fallback.matrix, if fallback.preset == "custom" then fallback.base else fallback.preset)

-- The inner switch of `Resolve`.
unfoldable pub override_of : Spec → Action → Who
override_of s read = s.read
override_of s add = s.add
override_of s edit = s.edit
override_of s delete = s.delete

-- The loop over the actions: the matrix so far, and whether an override changed it.
unfoldable pub apply_overrides :
    Spec → List Action → Matrix → Bool → Result RuleError (Matrix × Bool)
unfolding override_of is_valid get set
apply_overrides s [] m overridden = ok (m, overridden)
apply_overrides s (a ∷ rest) m overridden =
    let w = override_of s a in
    let skipped = apply_overrides s rest m overridden in
    let taken = apply_overrides s rest (set m a w) (not (w == get m a) || overridden) in
    if w == unset then skipped else if not (is_valid w) then err (invalid_value a) else taken

unfoldable pub refused : Option RuleError → Result RuleError (Unit {0})
refused none = ok tt
refused (some e) = err e

-- How a checked matrix is called.
unfoldable pub label : Spec → Resolved → Matrix → String → Bool → Resolved
unfolding name_of
label s fallback m base overridden =
    if not overridden && (not (base == "") && not (s.preset == ""))
    then record { matrix = m; preset = base; base = "" }
    else if not overridden && s.preset == ""
    then fallback
    else if not (name_of m == "")
    then record { matrix = m; preset = name_of m; base = "" }
    else record { matrix = m; preset = "custom"; base = base }

unfoldable pub resolve : Spec → Resolved → Result RuleError Resolved
unfolding refused
resolve s fallback = do
  (m, base) ← starting_point s fallback
  (m', overridden) ← apply_overrides s actions m false
  refused (check m')
  ok (label s fallback m' base overridden)
