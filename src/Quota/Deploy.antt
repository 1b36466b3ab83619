-- ===== src/Quota/Deploy.antt =====
-- The transaction of a new version of a site that exists: the part of updateSiteForTarget in
-- internal/handler/site.go that writes the tables of the quota.
use simple_host_enterprise.Common.{
  ℕ, suc, Bool, true, false, ◌&&◌, Option, none, some, [], ◌∷◌, Bytes, ltb, if◌then◌else◌, ◌==◌,
  ℕ_eq, List_eq, Result, ok, err, ◌>>=◌, ◌>>◌, refuse_if,
}
use simple_host_enterprise.Common.Maps.{Map, lookup, insert}
use simple_host_enterprise.Common.Rows.{update_rows, row_passes}
use simple_host_enterprise.Quota.{
  Site, Version, Store, UploadQuota, QuotaRefusal, prune_to_quota, enforce_quota,
}

pub data DeployError : Type 0 where
  site_not_found constraint_violated : DeployError
  refused : QuotaRefusal → DeployError

unfoldable pub get_max_version_number : Bytes → Map Bytes Version → ℕ
get_max_version_number site_id [] = 0
get_max_version_number site_id ((k, v) ∷ versions) =
    let rest = get_max_version_number site_id versions in
    if v.site_id == site_id && ltb rest v.version_number then v.version_number else rest

-- The id is what `gen_random_uuid` gives; the size is filled in later.
unfoldable pub create_version : Bytes → Bytes → ℕ → Store → Result DeployError Store
create_version version_id site_id number st = do
  refuse_if (row_passes (λ (v : Version). true) (lookup version_id st.versions)) constraint_violated
  let row : Version = record { site_id = site_id; version_number = number; size_bytes = none }
  ok (record st { versions = insert version_id row st.versions })

unfoldable pub activate : Bytes → ℕ → Bytes → Site → Site
activate site_id number k s = if k == site_id then record s { active_version = number } else s

unfoldable pub update_site_active_version : Bytes → ℕ → Store → Store
update_site_active_version site_id number st = record st {
  sites = update_rows (activate site_id number) st.sites;
}

-- A refusal rolls back.
unfoldable pub or_refused : Option QuotaRefusal × Store → Result DeployError Store
or_refused (none, st) = ok st
or_refused (some r, st) = err (refused r)

-- What follows the row of the version: it is made active or not, the old ones are pruned, the quota
-- is checked.
unfoldable pub place_version :
    ℕ
    → ℕ
    → UploadQuota
    → Bytes
    → Bytes
    → Bytes
    → ℕ
    → Bool
    → ℕ
    → ℕ
    → Store
    → Result DeployError Store
place_version now retention quota owner_id site_id version_id added publish number active_version
      created =
    let live = if publish then number else active_version in
    let placed = if publish then update_site_active_version site_id number created else created in
    let pruned = prune_to_quota quota site_id live placed in
    or_refused (enforce_quota now retention quota owner_id version_id added pruned.1 false pruned.0)

unfoldable pub deploy_version :
    ℕ → ℕ → UploadQuota → Bytes → Bytes → Bytes → ℕ → Bool → Site → Store → Result DeployError Store
deploy_version now retention quota owner_id site_id version_id added publish site st = do
  let number = suc (get_max_version_number site_id st.versions)
  created ← create_version version_id site_id number st
  place_version now retention quota owner_id site_id version_id added publish number
      site.active_version created

-- A site of the owner's that is not deleted.
unfoldable pub is_live_site : Bytes → Site → Bool
is_live_site owner_id s =
    s.user_id == owner_id && elim s.deleted_at [ none ↦ true | some t ↦ false ]

unfoldable pub get_site : Bytes → Option Site → Result DeployError Site
get_site owner_id none = err site_not_found
get_site owner_id (some s) = if is_live_site owner_id s then ok s else err site_not_found

unfoldable pub deploy_update :
    ℕ → ℕ → UploadQuota → Bytes → Bytes → Bytes → ℕ → Bool → Store → Result DeployError Store
deploy_update now retention quota owner_id site_id version_id added publish st = do
  site ← get_site owner_id (lookup site_id st.sites)
  deploy_version now retention quota owner_id site_id version_id added publish site st
