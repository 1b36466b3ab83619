-- ===== src/Quota/Bounded.antt =====
-- A deploy keeps the owner within the quota.
use simple_host_enterprise.Common.{
  ℕ, suc, ◌≤◌, ◌<◌, ◌≡◌, refl, sym, ap, subst, ◌∙◌, ◌⊎◌, Bool, true, false, Option, none, some,
  Bytes, ◌==◌, ℕ_eq, List_eq, ok, >>=-eq-ok, refuse_if-passed, ok-injective, Bool-cases,
  Option-cases, &&-true, inl, inr, arith, false≢true,
}
use simple_host_enterprise.Common.Maps.{Map, lookup}
use simple_host_enterprise.Common.Rows.{update_rows, map_row, row_passes, lookup-update_rows}
use simple_host_enterprise.Common.Unique.{IsUnique, insert-IsUnique, sum_by-new}
use simple_host_enterprise.Quota.{
  Site, Version, Store, UploadQuota, is_counted, is_counted_site, version_bytes, asset_bytes,
  file_bytes, owner_usage_of,
}
use simple_host_enterprise.Quota.Deploy.{
  create_version, activate, update_site_active_version, place_version, deploy_version, is_live_site,
  get_site, deploy_update, get_max_version_number,
}
use simple_host_enterprise.Quota.Enforcing.{sum_by-same}
use simple_host_enterprise.Quota.Passing.{stored_bytes, enforced-within}

-- A new active version changes no site's part in the usage.
activate-is_counted :
    (now retention : ℕ) (owner_id site_id : Bytes) (number : ℕ) (id : Bytes) (s : Site)
    → is_counted now retention owner_id (activate site_id number id s)
      ≡ is_counted now retention owner_id s
unfolding is_counted activate
activate-is_counted now retention owner_id site_id number id s = elim (Bool-cases (id == site_id)) [
  | inl c ↦
      let e : activate site_id number id s ≡ record s { active_version = number } = rw c refl in
      ap (is_counted now retention owner_id) e
  | inr c ↦
      let e : activate site_id number id s ≡ s = rw c refl in
      ap (is_counted now retention owner_id) e
]

activate-counted :
    (now retention : ℕ) (owner_id site_id : Bytes) (number : ℕ) (sites : Map Bytes Site)
    (id : Bytes)
    → is_counted_site now retention owner_id (update_rows (activate site_id number) sites) id
      ≡ is_counted_site now retention owner_id sites id
unfolding is_counted_site is_counted activate row_passes map_row
activate-counted now retention owner_id site_id number sites id =
    elim (Option-cases (lookup id sites)) [
      | inl e ↦ rw (lookup-update_rows (activate site_id number) id sites, e, map_row) refl
      | inr (s, e) ↦
          rw (lookup-update_rows (activate site_id number) id sites, e, map_row)
            (activate-is_counted now retention owner_id site_id number id s)
    ]

activate-bytes :
    (now retention : ℕ) (owner_id site_id : Bytes) (number : ℕ) (st : Store)
    → stored_bytes now retention owner_id (update_site_active_version site_id number st)
      ≡ stored_bytes now retention owner_id st
unfolding owner_usage_of update_site_active_version version_bytes asset_bytes file_bytes
activate-bytes now retention owner_id site_id number st =
    let counted = is_counted_site now retention owner_id st.sites in
    let later =
      is_counted_site now retention owner_id (update_rows (activate site_id number) st.sites) in
    let same = activate-counted now retention owner_id site_id number st.sites in
    omega (
      arith,
      sum_by-same (version_bytes later) (version_bytes counted) st.versions
          (λ x. rw (same x.1.site_id) refl),
      sum_by-same (asset_bytes later) (asset_bytes counted) st.site_assets
          (λ x. rw (same x.site_id) refl),
      sum_by-same (file_bytes later) (file_bytes counted) st.site_storage_files
          (λ x. rw (same x.site_id) refl),
    )

-- A new version has no size yet.
create_version-ok :
    (version_id site_id : Bytes) (number now retention : ℕ) (owner_id : Bytes) (st after : Store)
    → IsUnique st.versions
    → create_version version_id site_id number st ≡ ok after
    → IsUnique after.versions
      × (after.sites ≡ st.sites)
      × (stored_bytes now retention owner_id after ≡ stored_bytes now retention owner_id st)
unfolding create_version owner_usage_of version_bytes row_passes
create_version-ok version_id site_id number now retention owner_id st after u h =
    let counted = is_counted_site now retention owner_id st.sites in
    let row : Version = record { site_id = site_id; version_number = number; size_bytes = none } in
    let (free, h1) =
      refuse_if-passed (row_passes (λ (v : Version). true) (lookup version_id st.versions)) _ _ h in
    let absent : lookup version_id st.versions ≡ none =
      elim (Option-cases (lookup version_id st.versions)) [
        | inl e ↦ e
        | inr (v, e) ↦ absurd (false≢true (sym (rw (e, row_passes) at free)))
      ] in
    let empty : version_bytes counted (version_id, row) ≡ 0 = elim (Bool-cases (counted site_id)) [
      | inl c ↦ rw c refl
      | inr c ↦ rw c refl
    ] in
    let sums = sum_by-new (version_bytes counted) version_id row st.versions absent in
    subst
      (λ (x : Store).
        IsUnique x.versions
        × (x.sites ≡ st.sites)
        × (stored_bytes now retention owner_id x ≡ stored_bytes now retention owner_id st))
      (ok-injective h1)
      (insert-IsUnique version_id row st.versions u, refl, omega (arith, sums, empty))

live-counted :
    (now retention : ℕ) (owner_id : Bytes) (s : Site)
    → is_live_site owner_id s ≡ true
    → is_counted now retention owner_id s ≡ true
unfolding is_live_site is_counted
live-counted now retention owner_id s h = elim (Option-cases s.deleted_at) [
  | inl e ↦ rw e (rw e at h)
  | inr (t, e) ↦ absurd (false≢true ((&&-true (s.user_id == owner_id) false (rw e at h)).1))
]

get_site-ok :
    (owner_id : Bytes) (found : Option Site) (s : Site)
    → get_site owner_id found ≡ ok s
    → (found ≡ some s) × (is_live_site owner_id s ≡ true)
unfolding get_site
get_site-ok owner_id none s h = cc
get_site-ok owner_id (some x) s h = elim (Bool-cases (is_live_site owner_id x)) [
  | inr c ↦ cc (rw c at h)
  | inl c ↦
      let same : x ≡ s = ok-injective (rw c at h) in
      (ap some same, subst (λ y. is_live_site owner_id y ≡ true) same c)
]

-- Either way of placing the version.
placed-within :
    (now retention : ℕ) (quota : UploadQuota) (owner_id site_id version_id : Bytes)
    (added number active_version : ℕ) (publish : Bool) (created after : Store)
    → IsUnique created.versions
    → is_counted_site now retention owner_id created.sites site_id ≡ true
    → 0 < quota.max_bytes
    → place_version now retention quota owner_id site_id version_id added publish number
        active_version created
      ≡ ok after
    → (stored_bytes now retention owner_id after ≤ quota.max_bytes)
      ⊎ (stored_bytes now retention owner_id after ≤ stored_bytes now retention owner_id created)
unfolding update_site_active_version place_version
placed-within now retention quota owner_id site_id version_id added number active_version true
      created after u there limited h =
    let published = update_site_active_version site_id number created in
    let still : is_counted_site now retention owner_id published.sites site_id ≡ true =
      activate-counted now retention owner_id site_id number created.sites site_id ∙ there in
    elim (enforced-within now retention quota owner_id site_id version_id number added published
      after u still limited h) [
        | inl a ↦ inl a
        | inr b ↦
            inr (omega (arith, b, activate-bytes now retention owner_id site_id number created))
      ]
placed-within now retention quota owner_id site_id version_id added number active_version false
      created after u there limited h =
    enforced-within now retention quota owner_id site_id version_id active_version added created
      after u there limited h

-- A deploy that succeeds leaves the owner within the limit of bytes, or with no more than before:
-- whatever was stored, the versions that the prune takes away included. The id is the primary key of
-- `versions`.
pub deploy_update-within :
    (now retention : ℕ) (quota : UploadQuota) (owner_id site_id version_id : Bytes) (added : ℕ)
    (publish : Bool) (st after : Store)
    → IsUnique st.versions
    → 0 < quota.max_bytes
    → deploy_update now retention quota owner_id site_id version_id added publish st ≡ ok after
    → (stored_bytes now retention owner_id after ≤ quota.max_bytes)
      ⊎ (stored_bytes now retention owner_id after ≤ stored_bytes now retention owner_id st)
unfolding deploy_update deploy_version is_counted_site row_passes update_site_active_version
deploy_update-within now retention quota owner_id site_id version_id added publish st after u
      limited h =
    let (site, got, h1) = >>=-eq-ok (get_site owner_id (lookup site_id st.sites)) _ h in
    let (found, live) = get_site-ok owner_id (lookup site_id st.sites) site got in
    let number = suc (get_max_version_number site_id st.versions) in
    let (created, made, h2) = >>=-eq-ok (create_version version_id site_id number st) _ h1 in
    let (unique, sites, bytes) =
      create_version-ok version_id site_id number now retention owner_id st created u made in
    let there : is_counted_site now retention owner_id created.sites site_id ≡ true =
      rw (sites, found, row_passes) (live-counted now retention owner_id site live) in
    elim (placed-within now retention quota owner_id site_id version_id added number
      site.active_version publish created after unique there limited h2) [
        | inl a ↦ inl a
        | inr b ↦ inr (omega (arith, b, bytes))
      ]
