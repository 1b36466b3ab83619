-- ===== src/Policy.antt =====
-- internal/storagepolicy/policy.go, first part: the five values, the four actions, the matrix and the
-- rules that a matrix must pass.
pub mod Presets
pub mod Decide
pub mod Rules
pub mod Resolving
pub mod Deciding
mod Tests
use text.Mathlib.Text.{◌==◌ as str_eq}
use text.Mathlib.TextEquality.{eq_iff}
use simple_host_enterprise.Common.{
  ℕ, ◌+◌, String, ◌≡◌, refl, Bool, true, false, ◌&&◌, ◌||◌, Option, none, some, List, [], ◌∷◌,
  arith, Eq, ◌==◌, ltb, not, if◌then◌else◌, ◌↔◌,
}

-- A `Who` is a string; `unset` is the empty string and `other` any string that is none of the five
-- values and not empty.
pub data Who : Type 0 where
  nobody owner own signed_in anyone unset : Who
  other : String → Who

unfoldable pub who_eq : Who → Who → Bool
who_eq nobody nobody = true
who_eq owner owner = true
who_eq own own = true
who_eq signed_in signed_in = true
who_eq anyone anyone = true
who_eq unset unset = true
who_eq (other s) (other t) = str_eq s t
who_eq _ _ = false

pub who_eq_iff : (a b : Who) → (who_eq a b ≡ true) ↔ (a ≡ b)
unfolding who_eq
who_eq_iff nobody nobody = ground arith
who_eq_iff owner owner = ground arith
who_eq_iff own own = ground arith
who_eq_iff signed_in signed_in = ground arith
who_eq_iff anyone anyone = ground arith
who_eq_iff unset unset = ground arith
who_eq_iff (other s) (other t) = ground (arith, eq_iff s t)
who_eq_iff _ _ = ground arith

-- `==` on two values.
instance abbrev pub Who_eq : Eq Who
Who_eq = record { beq = who_eq; beq_iff = who_eq_iff }

-- `Values`, narrowest first.
abbrev pub values : List Who
values = nobody ∷ owner ∷ own ∷ signed_in ∷ anyone ∷ []

-- The loop of `rank` over the values from index `i` on; `none` is its result -1.
unfoldable pub index_of : ℕ → List Who → Who → Option ℕ
unfolding who_eq
index_of i [] w = none
index_of i (v ∷ vs) w = if v == w then some i else index_of (i + 1) vs w

unfoldable pub rank : Who → Option ℕ
unfolding index_of
rank = index_of 0 values

-- `rank(a) > rank(b)` where -1 is below every index.
unfoldable pub above : Option ℕ → Option ℕ → Bool
above none _ = false
above (some i) none = true
above (some i) (some j) = ltb j i

-- `Who.Valid`.
unfoldable pub is_valid : Who → Bool
unfolding rank
is_valid w = elim (rank w) [ none ↦ false | some i ↦ true ]

unfoldable pub wider : Who → Who → Bool
unfolding rank above
wider a b = above (rank a) (rank b)

pub data Action : Type 0 where
  read add edit delete : Action

abbrev pub actions : List Action
actions = read ∷ add ∷ edit ∷ delete ∷ []

pub record Matrix : Type 0 where
  pub read : Who
  pub add : Who
  pub edit : Who
  pub delete : Who

-- `Matrix.Get`; the type has no fifth action.
unfoldable pub get : Matrix → Action → Who
get m read = m.read
get m add = m.add
get m edit = m.edit
get m delete = m.delete

unfoldable pub set : Matrix → Action → Who → Matrix
set m read w = record m { read = w }
set m add w = record m { add = w }
set m edit w = record m { edit = w }
set m delete w = record m { delete = w }

unfoldable pub uses_own : Matrix → Bool
uses_own m = m.read == own || m.add == own || m.edit == own || m.delete == own

-- `RuleError` by its code; the hint of `invalid_value` names the action, the others are fixed.
pub data RuleError : Type 0 where
  invalid_value : Action → RuleError
  anonymous_change add_own own_needs_signed_in_add blind_change unknown_preset : RuleError

-- The first loop of `Check`: the first action whose value is none of the five.
unfoldable pub first_invalid : Matrix → List Action → Option RuleError
unfolding is_valid get
first_invalid m [] = none
first_invalid m (a ∷ as_) =
    if not (is_valid (get m a)) then some (invalid_value a) else first_invalid m as_

check_rules : Matrix → Option RuleError
unfolding uses_own wider
check_rules m =
    if m.edit == anyone || m.delete == anyone
    then some anonymous_change
    else if m.add == own
    then some add_own
    else if m.add == anyone && uses_own m
    then some own_needs_signed_in_add
    else if wider m.edit m.read || wider m.delete m.read
    then some blind_change
    else none

-- `Check`: the first of the four rules that refuses the matrix; `none` is Go's nil.
unfoldable pub check : Matrix → Option RuleError
unfolding first_invalid check_rules
check m = elim (first_invalid m actions) [ some e ↦ some e | none ↦ check_rules m ]
