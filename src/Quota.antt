-- ===== src/Quota.antt =====
-- internal/db/quota.go and internal/handler/upload_limits.go: what an owner may store. The tables keep
-- the columns that the quota reads. The refusals keep their code and their numbers.
pub mod Deploy
pub mod Pruning
pub mod Kept
pub mod Enforcing
pub mod Passing
pub mod Bounded
mod Tests
use simple_host_enterprise.Common.{
  ℕ, zero, suc, ◌+◌, ◌-◌, Bool, true, false, not, ◌&&◌, ◌||◌, Option, none, some, List, [], ◌∷◌,
  map, Bytes, ltb, leb, if◌then◌else◌, ◌==◌, ℕ_eq, List_eq, sum_by,
}
use simple_host_enterprise.Common.Maps.{Map, lookup, insert}
use simple_host_enterprise.Common.Rows.{
  update_rows, delete_rows, count_rows, select_rows, row_passes, is_member,
}
use simple_host_enterprise.Storage.Budget.{ℤ, pos, negsuc}

pub record Site : Type 0 where
  pub user_id : Bytes
  pub deleted_at : Option ℕ
  pub purge_at : Option ℕ
  pub active_version : ℕ

pub record Version : Type 0 where
  pub site_id : Bytes
  pub version_number : ℕ
  pub size_bytes : Option ℕ

pub record Asset : Type 0 where
  pub site_id : Bytes
  pub size : ℕ
  pub deleted_at : Option ℕ

pub record StorageFile : Type 0 where
  pub site_id : Bytes
  pub size : ℕ

pub record Store : Type 0 where
  pub sites : Map Bytes Site
  pub versions : Map Bytes Version
  pub site_assets : List Asset
  pub site_storage_files : List StorageFile

pub record OwnerUsage : Type 0 where
  pub sites : ℕ
  pub bytes : ℕ

abbrev pub or_else : Option ℕ → ℕ → ℕ
or_else none d = d
or_else (some n) d = n

-- The site counts: it is the owner's, and it is live or can still be recovered.
unfoldable pub is_counted : ℕ → ℕ → Bytes → Site → Bool
is_counted now retention owner_id s =
    s.user_id == owner_id
    && elim s.deleted_at [ none ↦ true | some t ↦ ltb now (or_else s.purge_at (t + retention)) ]

-- The join with the row's site.
unfoldable pub is_counted_site : ℕ → ℕ → Bytes → Map Bytes Site → Bytes → Bool
is_counted_site now retention owner_id sites id =
    row_passes (is_counted now retention owner_id) (lookup id sites)

unfoldable pub version_bytes : (Bytes → Bool) → Bytes × Version → ℕ
version_bytes counted (k, v) = if counted v.site_id then or_else v.size_bytes 0 else 0

unfoldable pub asset_bytes : (Bytes → Bool) → Asset → ℕ
asset_bytes counted a =
    if counted a.site_id && elim a.deleted_at [ none ↦ true | some t ↦ false ] then a.size else 0

unfoldable pub file_bytes : (Bytes → Bool) → StorageFile → ℕ
file_bytes counted f = if counted f.site_id then f.size else 0

unfoldable pub owner_usage_of : ℕ → ℕ → Bytes → Store → OwnerUsage
owner_usage_of now retention owner_id st =
    let counted = is_counted_site now retention owner_id st.sites in
    record {
      sites = count_rows (λ k s. is_counted now retention owner_id s) st.sites;
      bytes =
          sum_by (version_bytes counted) st.versions
          + sum_by (asset_bytes counted) st.site_assets
          + sum_by (file_bytes counted) st.site_storage_files;
    }

unfoldable pub sized_row : Bytes → ℕ → Bytes → Version → Version
sized_row version_id size k v = if k == version_id then record v { size_bytes = some size } else v

unfoldable pub set_version_size : Bytes → ℕ → Store → Store
set_version_size version_id size st = record st {
  versions = update_rows (sized_row version_id size) st.versions;
}

-- `ORDER BY version_number DESC`.
unfoldable pub insert_newest : Bytes × Version → List (Bytes × Version) → List (Bytes × Version)
insert_newest x [] = x ∷ []
insert_newest x (y ∷ ys) =
    let rest = insert_newest x ys in
    if leb y.1.version_number x.1.version_number then x ∷ y ∷ ys else y ∷ rest

unfoldable pub newest_first : List (Bytes × Version) → List (Bytes × Version)
newest_first [] = []
newest_first (x ∷ xs) = insert_newest x (newest_first xs)

-- `OFFSET`.
unfoldable pub drop : {A : Type 0} → ℕ → List A → List A
drop zero xs = xs
drop (suc n) [] = []
drop (suc n) (x ∷ xs) = drop n xs

unfoldable pub is_of_site : Bytes → Bytes → Version → Bool
is_of_site site_id k v = v.site_id == site_id

unfoldable pub doomed : Bytes → ℕ → Map Bytes Version → List (Bytes × Version)
doomed site_id keep versions = drop keep (newest_first (select_rows (is_of_site site_id) versions))

-- The rows that the statement deletes.
unfoldable pub is_pruned : Bytes → ℕ → ℕ → Map Bytes Version → Bytes → Version → Bool
is_pruned site_id active_version keep versions k v =
    is_member k (map (λ (x : Bytes × Version). x.0) (doomed site_id keep versions))
    && not (v.version_number == active_version)

-- The store without the versions that were pruned, and those.
unfoldable pub prune_versions : Bytes → ℕ → ℕ → Store → Store × List (Bytes × Version)
prune_versions site_id active_version keep st =
    let test = is_pruned site_id active_version keep st.versions in
    (record st { versions = delete_rows test st.versions }, select_rows test st.versions)

-- `UploadQuota`; no sites or no bytes is no limit.
pub record UploadQuota : Type 0 where
  pub max_sites : ℕ
  pub max_bytes : ℕ
  pub max_versions : ℤ

abbrev pub default_max_versions : ℕ
default_max_versions = 5

unfoldable pub versions_to_keep : UploadQuota → ℕ
versions_to_keep q = elim q.max_versions [
  | negsuc n ↦ default_max_versions
  | pos n ↦ if n == 0 then default_max_versions else n
]

unfoldable pub is_enforced : UploadQuota → Bool
is_enforced q = ltb 0 q.max_sites || ltb 0 q.max_bytes

-- The answers 409 and 413.
pub data QuotaRefusal : Type 0 where
  site_limit : (used limit : ℕ) → QuotaRefusal
  storage_quota : (used adding limit : ℕ) → QuotaRefusal

-- The subtraction of the source is clipped at 0 before it is shown.
unfoldable pub check_usage : UploadQuota → OwnerUsage → Bool → ℕ → ℕ → Option QuotaRefusal
check_usage quota usage new_site added freed =
    if new_site && ltb 0 quota.max_sites && ltb quota.max_sites usage.sites
    then some (site_limit (usage.sites - 1) quota.max_sites)
    else if ltb 0 quota.max_bytes && ltb quota.max_bytes usage.bytes && ltb freed added
    then some (storage_quota (usage.bytes + freed - added) added quota.max_bytes)
    else none

unfoldable pub check_owner_quota :
    ℕ → ℕ → UploadQuota → Bytes → Bool → ℕ → ℕ → Store → Option QuotaRefusal
check_owner_quota now retention quota owner_id new_site added freed st =
    if not (is_enforced quota)
    then none
    else check_usage quota (owner_usage_of now retention owner_id st) new_site added freed

-- The handler's pruneVersions, with the bytes that it frees.
unfoldable pub prune_to_quota : UploadQuota → Bytes → ℕ → Store → Store × ℕ
prune_to_quota quota site_id active_version st =
    let result = prune_versions site_id active_version (versions_to_keep quota) st in
    (result.0, sum_by (λ (x : Bytes × Version). or_else x.1.size_bytes 0) result.1)

-- `enforceQuota`: the store with the version's size, or the refusal, which rolls back.
unfoldable pub enforce_quota :
    ℕ → ℕ → UploadQuota → Bytes → Bytes → ℕ → ℕ → Bool → Store → Option QuotaRefusal × Store
enforce_quota now retention quota owner_id version_id added freed new_site st =
    let sized = set_version_size version_id added st in
    (check_owner_quota now retention quota owner_id new_site added freed sized, sized)

unfoldable pub check_asset_quota : ℕ → ℕ → UploadQuota → Bytes → ℕ → Store → Option QuotaRefusal
check_asset_quota now retention quota owner_id size st =
    let usage = owner_usage_of now retention owner_id st in
    if ltb quota.max_bytes (usage.bytes + size)
    then some (storage_quota usage.bytes size quota.max_bytes)
    else none
