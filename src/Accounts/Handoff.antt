-- ===== src/Accounts/Handoff.antt =====
-- internal/db/handoff.go: one-time codes that carry a sign-in to another host.
use simple_host_enterprise.Common.{
  ℕ, ◌+◌, Bool, false, not, ◌&&◌, ◌||◌, Option, none, some, Bytes, ltb, if◌then◌else◌, ◌==◌,
  List_eq, ℕ_eq, Result, ok, err, ◌>>◌, refuse_if,
}
use simple_host_enterprise.Common.Maps.{lookup, insert}
use simple_host_enterprise.Accounts.{
  HandoffCode, Database, AccountError, constraint_violated, handoff_code_invalid, is_some,
  handoff_code_ttl,
}

-- The caller hashes the code; its row has the hash as its key.
unfoldable pub create_handoff_code :
    ℕ → Bytes → Bytes → Bytes → Bytes → Database → Result AccountError Database
create_handoff_code now code_hash session_id target_host nonce_hash db = do
  refuse_if
      (is_some (lookup code_hash db.handoff_codes) || not (is_some (lookup session_id db.sessions)))
      constraint_violated
  let row : HandoffCode = record {
    session_id = session_id;
    target_host = target_host;
    nonce_hash = nonce_hash;
    created_at = now;
    redeemed_at = none;
  }
  ok (record db { handoff_codes = insert code_hash row db.handoff_codes })

-- A comparison with a missing hash is null in SQL, and the code does not count as valid.
unfoldable pub hash_matches : Bytes → Option Bytes → Bool
hash_matches stored none = false
hash_matches stored (some h) = stored == h

-- The row that was found: it is marked whatever the answer is.
unfoldable pub redeem_row :
    ℕ
    → Bytes
    → Bytes
    → Option Bytes
    → Database
    → Option HandoffCode
    → Database × Result AccountError Bytes
redeem_row now code_hash target_host nonce_hash db none = (db, err handoff_code_invalid)
redeem_row now code_hash target_host nonce_hash db (some c) =
    if is_some c.redeemed_at then (db, err handoff_code_invalid) else (
      record db {
        handoff_codes = insert code_hash (record c { redeemed_at = some now }) db.handoff_codes;
      },
      if ltb now (c.created_at + handoff_code_ttl)
            && c.target_host == target_host
            && hash_matches c.nonce_hash nonce_hash
          then ok c.session_id
          else err handoff_code_invalid,
    )

unfoldable pub redeem_handoff_code :
    ℕ → Bytes → Bytes → Option Bytes → Database → Database × Result AccountError Bytes
redeem_handoff_code now code_hash target_host nonce_hash db =
    redeem_row now code_hash target_host nonce_hash db (lookup code_hash db.handoff_codes)
