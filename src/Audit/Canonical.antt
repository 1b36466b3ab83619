-- ===== src/Audit/Canonical.antt =====
-- internal/audit/canonical.go: the canonical form of an event, over which the chain's hash is taken.
use simple_host_enterprise.Common.{
  Bool, Option, none, some, ℕ_eq, List_eq, ◌==◌, if◌then◌else◌, Bytes, codes, Result,
}
use simple_host_enterprise.Audit.Numeric.{NumberError}
use simple_host_enterprise.Audit.Json.{
  Value, null, bool, text, number, object, Members, no_members, member_and, jsonb_minus_key,
  write_value,
}

-- `chainedEvent`. `id` is printed in decimal and `at` in UTC with its microseconds, as the package
-- `strconv` and `time` print them; `detail` is decoded, which cannot fail on a jsonb column.
pub record ChainedEvent : Type 0 where
  pub id : Bytes
  pub at : Bytes
  pub request_id : Option Bytes
  pub actor_id : Option Bytes
  pub actor_kind : Bytes
  pub key_id : Option Bytes
  pub action : Bytes
  pub owner_id : Option Bytes
  pub site_id : Option Bytes
  pub team_id : Option Bytes
  pub via_site_label : Option Bytes
  pub via_site_name : Option Bytes
  pub via_site_observed : Bool
  pub ip : Option Bytes
  pub user_agent : Option Bytes
  pub detail : Option Value

-- The closure `str`.
abbrev pub nullable : Option Bytes → Value
nullable none = null
nullable (some s) = text s

-- The detail, without the count of a `state_write`.
unfoldable pub chained_detail : ChainedEvent → Value
chained_detail e = elim e.detail [
  | none ↦ null
  | some v ↦ if e.action == codes "state_write" then jsonb_minus_key v (codes "count") else v
]

unfoldable pub event_members : ChainedEvent → Members
event_members e = member_and (codes "id") (number e.id) (
    member_and (codes "at") (text e.at) (
      member_and (codes "request_id") (nullable e.request_id) (
        member_and (codes "actor_id") (nullable e.actor_id) (
          member_and (codes "actor_kind") (text e.actor_kind) (
            member_and (codes "key_id") (nullable e.key_id) (
              member_and (codes "action") (text e.action) (
                member_and (codes "owner_id") (nullable e.owner_id) (
                  member_and (codes "site_id") (nullable e.site_id) (
                    member_and (codes "team_id") (nullable e.team_id) (
                      member_and (codes "via_site_label") (nullable e.via_site_label) (
                        member_and (codes "via_site_name") (nullable e.via_site_name) (
                          member_and (codes "via_site_observed") (bool e.via_site_observed) (
                            member_and (codes "ip") (nullable e.ip) (
                              member_and (codes "user_agent") (nullable e.user_agent) (
                                member_and (codes "detail") (chained_detail e)
                                  no_members)))))))))))))))

unfoldable pub canonical : ChainedEvent → Result NumberError Bytes
canonical e = write_value (object (event_members e))
