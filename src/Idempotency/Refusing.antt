-- ===== src/Idempotency/Refusing.antt =====
-- What a refused claim means, and what the caps keep.
use mathlib.Core.Option.{some-injective}
use simple_host_enterprise.Common.{
  false≢true, ℕ, suc, ◌+◌, ◌≤◌, ◌<◌, ◌≡◌, ◌≢◌, ◌↔◌, ◌⊎◌, ◌∙◌, refl, sym, ap, subst, Bool, true,
  false, not, ◌&&◌, ◌||◌, Option, none, some, [], ◌∷◌, Bytes, leb, ltb, ==_iff, ◌==◌, ℕ_eq, List_eq,
  Pair_eq, Eq, ok, err, Bool-cases, Option-cases, ||-false, inl, inr, arith,
}
use simple_host_enterprise.Common.Maps.{Map, lookup, insert}
use simple_host_enterprise.Common.Rows.{delete_rows, count_rows, spare_row, lookup-delete_rows}
use simple_host_enterprise.Common.Unique.{IsUnique, some≢none}
use simple_host_enterprise.Idempotency.{
  Entry, Table, IdempotencyError, idempotency_reused, idempotency_full, claimed, retention, pending,
  is_expired, count_own, count_all, claim_row, claim_create,
}

-- Is the row alive at the time?
unfoldable pub is_live : ℕ → Entry → Bool
is_live now e = ltb now e.expires_at

-- How many rows of the table are alive, and how many of those are the account's.
unfoldable pub live_rows : ℕ → Table → ℕ
live_rows now table = count_rows (λ (k : Bytes × Bytes) e. is_live now e) table

unfoldable pub live_rows_of : Bytes → ℕ → Table → ℕ
live_rows_of account now table =
    count_rows (λ (k : Bytes × Bytes) e. (k.0 == account) && is_live now e) table

-- When a claim is to be refused, by the table that it finds.
unfoldable pub IsRefused : ℕ → Bytes → Bytes → Bytes → ℕ → ℕ → Table → IdempotencyError → Type 0
IsRefused now account key hash per_account total table idempotency_reused =
    (e : Entry) × (lookup (account, key) table ≡ some e)
    × (now < e.expires_at)
    × (e.body_hash ≢ hash)
IsRefused now account key hash per_account total table idempotency_full =
    ((e : Entry) → lookup (account, key) table ≡ some e → e.expires_at ≤ now)
    × ((per_account ≤ live_rows_of account now table) ⊎ (total ≤ live_rows now table))

-- A deletion leaves the rows that fail its test to be counted.
count_rows-delete_rows :
    {K : Type 0} {V : Type 0} (p q r : K → V → Bool) (m : Map K V)
    → ((k : K) (v : V) → r k v ≡ (p k v && not (q k v)))
    → count_rows p (delete_rows q m) ≡ count_rows r m
unfolding count_rows delete_rows
count_rows-delete_rows p q r [] g = refl
count_rows-delete_rows p q r ((k, v) ∷ m) g =
    let rest = count_rows-delete_rows p q r m g in
    elim (Bool-cases (q k v)) [
      | inl gone ↦ elim (Bool-cases (p k v)) [
        | inl c ↦ rw (gone, g k v, gone, c) rest
        | inr c ↦ rw (gone, g k v, gone, c) rest
      ]
      | inr left ↦ elim (Bool-cases (p k v)) [
        | inl c ↦ rw (left, g k v, left, c) (ap suc rest)
        | inr c ↦ rw (left, g k v, left, c) rest
      ]
    ]

live-expired : (now : ℕ) (k : Bytes × Bytes) (e : Entry) → is_live now e ≡ not (is_expired now k e)
unfolding is_live is_expired
live-expired now k e = ground arith

live-lt :
    (now : ℕ) (k : Bytes × Bytes) (e : Entry) → is_expired now k e ≡ false → now < e.expires_at
unfolding is_expired
live-lt now k e h = ground (arith, h)

expired-le :
    (now : ℕ) (k : Bytes × Bytes) (e : Entry) → is_expired now k e ≡ true → e.expires_at ≤ now
unfolding is_expired
expired-le now k e h = ground (arith, h)

own-live :
    (account : Bytes) (now : ℕ) (table : Table)
    → count_own account (delete_rows (is_expired now) table) ≡ live_rows_of account now table
unfolding count_own live_rows_of
own-live account now table =
    count_rows-delete_rows _ (is_expired now) _ table (λ k e. rw (live-expired now k e) refl)

all-live :
    (now : ℕ) (table : Table) → count_all (delete_rows (is_expired now) table) ≡ live_rows now table
unfolding count_all live_rows
all-live now table = count_rows-delete_rows _ (is_expired now) _ table (λ k e. live-expired now k e)

-- The row of the key after what expired is deleted.
live-row :
    (now : ℕ) (k : Bytes × Bytes) (table : Table) (o : Option Entry)
    → IsUnique table
    → lookup k table ≡ o
    → lookup k (delete_rows (is_expired now) table) ≡ spare_row (is_expired now k) o
live-row now k table o u found = rw (lookup-delete_rows (is_expired now) k table u, found) refl

-- Has a cap been reached, counted on the table that the claim finds?
caps_iff :
    (now : ℕ) (account : Bytes) (per_account total : ℕ) (table : Table)
    → ((leb per_account (count_own account (delete_rows (is_expired now) table))
          || leb total (count_all (delete_rows (is_expired now) table)))
        ≡ true)
      ↔ ((per_account ≤ live_rows_of account now table) ⊎ (total ≤ live_rows now table))
caps_iff now account per_account total table =
    rw (own-live account now table, all-live now table) (ground arith)

-- Where the key has no live row, a claim is refused at a cap only.
dead-IsRefused :
    (now : ℕ) (account key hash : Bytes) (per_account total : ℕ) (table : Table)
    → ((e : Entry) → lookup (account, key) table ≡ some e → e.expires_at ≤ now)
    → (e : IdempotencyError)
    → (claim_row now account key hash per_account total table
          (delete_rows (is_expired now) table)
          none
        ≡ (table, err e))
      ↔ IsRefused now account key hash per_account total table e
unfolding claim_row IsRefused
dead-IsRefused now account key hash per_account total table dead idempotency_reused =
    let live = delete_rows (is_expired now) table in
    elim (Bool-cases (leb per_account (count_own account live) || leb total (count_all live))) [
      | inl full ↦ rw full (λ h. cc, λ h. absurd (omega (arith, dead h.0 h.1, h.2)))
      | inr room ↦ rw room (λ h. cc, λ h. absurd (omega (arith, dead h.0 h.1, h.2)))
    ]
dead-IsRefused now account key hash per_account total table dead idempotency_full =
    let live = delete_rows (is_expired now) table in
    let caps = caps_iff now account per_account total table in
    elim (Bool-cases (leb per_account (count_own account live) || leb total (count_all live))) [
      | inl full ↦ rw full (λ h. (dead, caps.0 full), λ h. refl)
      | inr room ↦ rw room (λ h. cc, λ h. absurd (false≢true (sym room ∙ caps.1 h.1)))
    ]

-- Where it has a live row, a claim is refused for another body only.
live-IsRefused :
    (now : ℕ) (account key hash : Bytes) (per_account total : ℕ) (table : Table) (row : Entry)
    → lookup (account, key) table ≡ some row
    → now < row.expires_at
    → (e : IdempotencyError)
    → (claim_row now account key hash per_account total table
          (delete_rows (is_expired now) table)
          (some row)
        ≡ (table, err e))
      ↔ IsRefused now account key hash per_account total table e
unfolding claim_row IsRefused
live-IsRefused now account key hash per_account total table row found alive idempotency_reused =
    elim (Bool-cases (row.body_hash == hash)) [
      | inl same ↦ rw same (
        λ h. cc,
        λ h. absurd (
            h.3 (
              ap (λ (e : Entry). e.body_hash) (some-injective h.0 row (sym h.1 ∙ found))
              ∙ (==_iff row.body_hash hash).0 same)),
      )
      | inr other ↦ rw other (
        λ h. (row, found, alive, λ p. false≢true (sym other ∙ (==_iff row.body_hash hash).1 p)),
        λ h. refl,
      )
    ]
live-IsRefused now account key hash per_account total table row found alive idempotency_full =
    elim (Bool-cases (row.body_hash == hash)) [
      | inl same ↦ rw same (λ h. cc, λ h. absurd (omega (arith, h.0 row found, alive)))
      | inr other ↦ rw other (λ h. cc, λ h. absurd (omega (arith, h.0 row found, alive)))
    ]

-- When a claim is refused, by the table that it finds, whose keys differ. It is refused as a reuse, with
-- the table as it was, exactly where the key has a row that has not expired, of another body. It is
-- refused as full, with the table as it was, exactly where every row of the key has expired and the
-- rows that have not expired, those of the account or all, have reached their cap.
pub claim_create-IsRefused_iff :
    (now : ℕ) (account key hash : Bytes) (per_account total : ℕ) (table : Table)
    (e : IdempotencyError)
    → IsUnique table
    → (claim_create now account key hash per_account total table ≡ (table, err e))
      ↔ IsRefused now account key hash per_account total table e
unfolding claim_create spare_row
claim_create-IsRefused_iff now account key hash per_account total table e u =
    elim (Option-cases (lookup (account, key) table)) [
      | inl absent ↦
          rw (live-row now (account, key) table none u absent, spare_row)
            (dead-IsRefused now account key hash per_account total table
              (λ e found. absurd (some≢none (sym found ∙ absent))) e)
      | inr (row, found) ↦ elim (Bool-cases (is_expired now (account, key) row)) [
        | inl expired ↦
            rw (live-row now (account, key) table (some row) u found, spare_row, expired)
              (dead-IsRefused now account key hash per_account total table
                (λ e other.
                  subst (λ (x : Entry). x.expires_at ≤ now)
                    (some-injective row e (sym found ∙ other))
                    (expired-le now (account, key) row expired))
                e)
        | inr alive ↦
            rw (live-row now (account, key) table (some row) u found, spare_row, alive)
              (live-IsRefused now account key hash per_account total table row found
                (live-lt now (account, key) row alive) e)
      ]
    ]

-- An insertion adds at most one to a count.
count_rows-insert :
    {K : Type 0} {V : Type 0} ⦃i : Eq K⦄ (p : K → V → Bool) (k : K) (v : V) (m : Map K V)
    → count_rows p (insert k v m) ≤ suc (count_rows p m)
unfolding count_rows insert
count_rows-insert p k v [] = elim (Bool-cases (p k v)) [
  | inl c ↦ rw c (omega arith)
  | inr c ↦ rw c (omega arith)
]
count_rows-insert p k v ((j, w) ∷ m) =
    let rest = count_rows-insert p k v m in
    elim (Bool-cases (j == k)) [
      | inl same ↦ ground (arith, same)
      | inr other ↦ ground (arith, other, rest)
    ]

-- The caps hold: after a claim that succeeds the account has at most `per_account` rows, and the table
-- at most `total`.
pub claim_create-capped :
    (now : ℕ) (account key hash : Bytes) (per_account total : ℕ) (table : Table)
    → (claim_create now account key hash per_account total table).1 ≡ ok claimed
    → (count_own account (claim_create now account key hash per_account total table).0
        ≤ per_account)
      × (count_all (claim_create now account key hash per_account total table).0 ≤ total)
unfolding claim_create claim_row count_own count_all
claim_create-capped now account key hash per_account total table h =
    let live = delete_rows (is_expired now) table in
    let row : Entry = record { body_hash = hash; replay = pending; expires_at = now + retention } in
    elim (Option-cases (lookup (account, key) live)) [
      | inl absent ↦
          elim (Bool-cases
            (leb per_account (count_own account live) || leb total (count_all live))) [
              | inl full ↦ cc (rw (absent, claim_row, full) at h)
              | inr room ↦
                  let (own, all) =
                    ||-false (leb per_account (count_own account live)) (leb total (count_all live))
                      room in
                  rw (absent, claim_row, room)
                    (
                      ground (
                        arith,
                        own,
                        count_rows-insert (λ (k : Bytes × Bytes) (e : Entry). k.0 == account)
                            (account, key) row live,
                      ),
                      ground (
                        arith,
                        all,
                        count_rows-insert (λ (k : Bytes × Bytes) (e : Entry). true) (account, key)
                            row live,
                      ),
                    )
            ]
      | inr (e, found) ↦ elim (Bool-cases (e.body_hash == hash)) [
        | inl same ↦ cc (rw (found, claim_row, same) at h)
        | inr other ↦ cc (rw (found, claim_row, other) at h)
      ]
    ]
