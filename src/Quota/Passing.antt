-- ===== src/Quota/Passing.antt =====
-- An enforced quota: what is pruned and checked leaves the owner within it.
use simple_host_enterprise.Common.{
  ℕ, ◌+◌, ◌≤◌, ◌<◌, ◌≡◌, refl, subst, ◌⊎◌, Bool, true, false, ◌||◌, Option, none, some, Bytes, ltb,
  ℕ_eq, List_eq, sum_by, ok, ok-injective, Bool-cases, inl, inr, arith,
}
use simple_host_enterprise.Common.Rows.{delete_rows-IsUnique}
use simple_host_enterprise.Common.RowSets.{sum_by-delete_rows}
use simple_host_enterprise.Common.Unique.{IsUnique, some≢none}
use simple_host_enterprise.Quota.{
  Version, Store, OwnerUsage, UploadQuota, QuotaRefusal, is_counted_site, version_bytes,
  owner_usage_of, set_version_size, is_pruned, prune_versions, prune_to_quota, versions_to_keep,
  check_usage, check_owner_quota, is_enforced, enforce_quota, or_else,
}
use simple_host_enterprise.Quota.Kept.{is_pruned_lem}
use simple_host_enterprise.Quota.Deploy.{or_refused}
use simple_host_enterprise.Quota.Enforcing.{All-lookups, select_rows-sum, sized-adds}

-- The bytes of an owner's usage.
abbrev pub stored_bytes : ℕ → ℕ → Bytes → Store → ℕ
stored_bytes now retention owner_id st = (owner_usage_of now retention owner_id st).bytes

pub prune-conserves :
    (counted : Bytes → Bool) (quota : UploadQuota) (site_id : Bytes) (active_version : ℕ)
    (st : Store)
    → IsUnique st.versions
    → counted site_id ≡ true
    → sum_by (version_bytes counted) (prune_to_quota quota site_id active_version st).0.versions
        + (prune_to_quota quota site_id active_version st).1
      ≡ sum_by (version_bytes counted) st.versions
unfolding prune_to_quota prune_versions version_bytes
prune-conserves counted quota site_id active_version st u there =
    let test = is_pruned site_id active_version (versions_to_keep quota) st.versions in
    let freed = λ (x : Bytes × Version). or_else x.1.size_bytes 0 in
    let each =
      All-lookups (λ x. test x.0 x.1 ≡ true → version_bytes counted x ≡ freed x) st.versions u
        (λ k v found pruned.
          let (own, inactive, many) =
            is_pruned_lem site_id active_version (versions_to_keep quota) st.versions k v u found
              pruned in
          let c : counted v.site_id ≡ true = rw own there in rw c refl) in
    omega (
      arith,
      sum_by-delete_rows (version_bytes counted) test st.versions,
      select_rows-sum (version_bytes counted) freed test st.versions each,
    )

pub prune-IsUnique :
    (quota : UploadQuota) (site_id : Bytes) (active_version : ℕ) (st : Store)
    → IsUnique st.versions
    → IsUnique (prune_to_quota quota site_id active_version st).0.versions
unfolding prune_to_quota prune_versions
prune-IsUnique quota site_id active_version st u = delete_rows-IsUnique _ st.versions u

pub check_usage-passed :
    (quota : UploadQuota) (usage : OwnerUsage) (added freed : ℕ)
    → 0 < quota.max_bytes
    → check_usage quota usage false added freed ≡ none
    → (usage.bytes ≤ quota.max_bytes) ⊎ (added ≤ freed)
unfolding check_usage
check_usage-passed quota usage added freed limited h =
    let on : ltb 0 quota.max_bytes ≡ true = ground (arith, limited) in
    elim (Bool-cases (ltb quota.max_bytes usage.bytes)) [
      | inr within ↦ inl (ground (arith, within))
      | inl over ↦ elim (Bool-cases (ltb freed added)) [
        | inr smaller ↦ inr (ground (arith, smaller))
        | inl larger ↦ absurd (some≢none (rw (on, over, larger) at h))
      ]
    ]

pub or_refused-ok :
    (r : Option QuotaRefusal) (st after : Store)
    → or_refused (r, st) ≡ ok after
    → (r ≡ none) × (st ≡ after)
unfolding or_refused
or_refused-ok none st after h = (refl, ok-injective h)
or_refused-ok (some r) st after h = cc

-- The end of the transaction, from the store in which the version has its row.
pub enforced-within :
    (now retention : ℕ) (quota : UploadQuota) (owner_id site_id version_id : Bytes)
    (active_version added : ℕ) (st after : Store)
    → IsUnique st.versions
    → is_counted_site now retention owner_id st.sites site_id ≡ true
    → 0 < quota.max_bytes
    → or_refused (
        enforce_quota now retention quota owner_id version_id added
          (prune_to_quota quota site_id active_version st).1
          false
          (prune_to_quota quota site_id active_version st).0)
      ≡ ok after
    → (stored_bytes now retention owner_id after ≤ quota.max_bytes)
      ⊎ (stored_bytes now retention owner_id after ≤ stored_bytes now retention owner_id st)
unfolding enforce_quota check_owner_quota is_enforced owner_usage_of set_version_size prune_to_quota
    prune_versions
enforced-within now retention quota owner_id site_id version_id active_version added st after u
      there limited h =
    let counted = is_counted_site now retention owner_id st.sites in
    let pruned = (prune_to_quota quota site_id active_version st).0 in
    let freed = (prune_to_quota quota site_id active_version st).1 in
    let (passes, shape) =
      or_refused-ok
        (check_owner_quota now retention quota owner_id false added freed
          (set_version_size version_id added pruned))
        (set_version_size version_id added pruned) after h in
    let on : (ltb 0 quota.max_sites || ltb 0 quota.max_bytes) ≡ true = ground (arith, limited) in
    let usage = owner_usage_of now retention owner_id (set_version_size version_id added pruned) in
    let result = check_usage-passed quota usage added freed limited (rw on at passes) in
    subst
      (λ s.
        (stored_bytes now retention owner_id s ≤ quota.max_bytes)
        ⊎ (stored_bytes now retention owner_id s ≤ stored_bytes now retention owner_id st))
      shape
      (elim result [
        | inl within ↦ inl within
        | inr smaller ↦ inr (
            omega (
              arith,
              smaller,
              sized-adds counted version_id added pruned.versions
                  (prune-IsUnique quota site_id active_version st u),
              prune-conserves counted quota site_id active_version st u there,
            ))
      ])
