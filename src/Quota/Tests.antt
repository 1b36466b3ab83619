-- ===== src/Quota/Tests.antt =====
-- Runs of a prune and a deploy, and the theorems at concrete inputs.
use simple_host_enterprise.Common.{
  ℕ, ℕ_eq, List_eq, ◌≤◌, ◌<◌, ◌≡◌, ◌≢◌, ◌⊎◌, refl, true, ◌&&◌, none, some, [], ◌∷◌, Bytes, ok, err,
  arith,
}
use simple_host_enterprise.Common.Maps.{lookup, insert}
use simple_host_enterprise.Common.Rows.{
  update_rows, delete_rows, select_rows, count_rows, row_passes, is_member,
}
use simple_host_enterprise.Storage.Budget.{pos}
use simple_host_enterprise.Quota.{
  Site, Version, Store, UploadQuota, storage_quota, owner_usage_of, is_counted, is_counted_site,
  version_bytes, sized_row, set_version_size, insert_newest, newest_first, drop, is_of_site, doomed,
  is_pruned, prune_versions, versions_to_keep, is_enforced, check_usage, check_owner_quota,
  prune_to_quota, enforce_quota,
}
use simple_host_enterprise.Quota.Kept.{is_as_new, prune_versions-keeps}
use simple_host_enterprise.Quota.Deploy.{
  refused, get_max_version_number, create_version, activate, update_site_active_version, or_refused,
  place_version, deploy_version, is_live_site, get_site, deploy_update,
}
use simple_host_enterprise.Quota.Passing.{stored_bytes}
use simple_host_enterprise.Quota.Bounded.{deploy_update-within}

abbrev owner : Bytes
owner = 1 ∷ []

abbrev site_id : Bytes
site_id = 2 ∷ []

abbrev blog : Site
blog = record { user_id = owner; deleted_at = none; purge_at = none; active_version = 1 }

abbrev sized : ℕ → ℕ → Version
sized number size = record { site_id = site_id; version_number = number; size_bytes = some size }

abbrev start : Store
start = record {
  sites = (site_id, blog) ∷ [];
  versions = (1 ∷ [], sized 1 40) ∷ (3 ∷ [], sized 3 20) ∷ (2 ∷ [], sized 2 30) ∷ [];
  site_assets = [];
  site_storage_files = [];
}

-- The oldest is active and stays; of the others the newest is kept.
pruned_store :
    (prune_versions site_id 1 1 start).0.versions ≡ (1 ∷ [], sized 1 40) ∷ (3 ∷ [], sized 3 20) ∷ []
unfolding prune_versions is_pruned doomed newest_first insert_newest drop is_of_site select_rows
    delete_rows is_member
pruned_store = refl

prune_versions-keeps_example :
    (lookup (2 ∷ []) (prune_versions site_id 1 1 start).0.versions ≡ some (sized 2 30))
    ⊎ ((lookup (2 ∷ []) (prune_versions site_id 1 1 start).0.versions ≡ none)
        × (site_id ≡ site_id)
        × ((◌≢◌ {A = ℕ}) 2 1)
        × (1 < count_rows (λ j w. is_of_site site_id j w && is_as_new 2 j w) start.versions))
unfolding lookup
prune_versions-keeps_example =
    prune_versions-keeps site_id 1 1 start (2 ∷ []) (sized 2 30) (refl, (refl, (refl, tt))) refl

abbrev quota : UploadQuota
quota = record { max_sites = 0; max_bytes = 100; max_versions = pos 2 }

abbrev deployed : Store
deployed = record {
  sites = (site_id, record blog { active_version = 4 }) ∷ [];
  versions = (3 ∷ [], sized 3 20) ∷ (4 ∷ [], sized 4 75) ∷ [];
  site_assets = [];
  site_storage_files = [];
}

deploy_succeeds : deploy_update 50 9 quota owner site_id (4 ∷ []) 75 true start ≡ ok deployed
unfolding deploy_update get_site is_live_site deploy_version place_version create_version
    get_max_version_number update_site_active_version activate or_refused prune_to_quota
    prune_versions versions_to_keep is_pruned doomed newest_first insert_newest drop is_of_site
    enforce_quota set_version_size sized_row check_owner_quota is_enforced check_usage
    owner_usage_of is_counted_site is_counted version_bytes lookup insert update_rows delete_rows
    select_rows count_rows row_passes is_member
deploy_succeeds = refl

deploy_refused :
    deploy_update 50 9 quota owner site_id (4 ∷ []) 95 true start
    ≡ err (refused (storage_quota 90 95 100))
unfolding deploy_update get_site is_live_site deploy_version place_version create_version
    get_max_version_number update_site_active_version activate or_refused prune_to_quota
    prune_versions versions_to_keep is_pruned doomed newest_first insert_newest drop is_of_site
    enforce_quota set_version_size sized_row check_owner_quota is_enforced check_usage
    owner_usage_of is_counted_site is_counted version_bytes lookup insert update_rows delete_rows
    select_rows count_rows row_passes is_member
deploy_refused = refl

deploy_update-within_example :
    (stored_bytes 50 9 owner deployed ≤ 100)
    ⊎ (stored_bytes 50 9 owner deployed ≤ stored_bytes 50 9 owner start)
unfolding lookup
deploy_update-within_example =
    deploy_update-within 50 9 quota owner site_id (4 ∷ []) 75 true start deployed
      (refl, (refl, (refl, tt))) (omega arith) deploy_succeeds
