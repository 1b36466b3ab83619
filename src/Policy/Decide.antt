-- ===== src/Policy/Decide.antt =====
-- internal/storagepolicy/policy.go: what a caller may do under a matrix.
use simple_host_enterprise.Common.{String, Bool, true, false, ◌&&◌, String_eq, ◌==◌, if◌then◌else◌}
use simple_host_enterprise.Policy.{
  Who, Who_eq, nobody, owner, own, signed_in, anyone, unset, other, Action, read, Matrix, get,
}

pub record Caller : Type 0 where
  pub user_id : String
  pub owner : Bool
  pub tool : Bool

pub data Decision : Type 0 where
  refused allowed own_only : Decision

abbrev pub is_read : Action → Bool
is_read read = true
is_read _ = false

-- The last switch of `Decide`.
unfoldable pub by_value : Who → Bool → Decision
by_value nobody is_owner = refused
by_value owner is_owner = if is_owner then allowed else refused
by_value own is_owner = if is_owner then allowed else own_only
by_value signed_in is_owner = allowed
by_value anyone is_owner = allowed
by_value unset is_owner = refused
by_value (other _) is_owner = refused

unfoldable pub decide : Matrix → Action → Caller → Decision
unfolding get by_value
decide m a c =
    if c.owner && c.tool
    then allowed
    else if c.user_id == ""
    then (if is_read a && get m a == anyone then allowed else refused)
    else by_value (get m a) c.owner
