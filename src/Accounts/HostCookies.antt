-- ===== src/Accounts/HostCookies.antt =====
-- A cookie that the server signed is read back, on the host that it was signed for and on no other.
use simple_host_enterprise.Common.{
  ℕ, ◌*◌, ◌/◌, ◌≤◌, ◌≡◌, ◌↔◌, refl, sym, ◌∙◌, false, ◌||◌, Option, some, List, [], ◌∷◌, ◌++◌, Bytes,
  All, All-map, ltb, ◌==◌, ==_self, ==_iff, ℕ_eq, List_eq, ok, ok-injective, Bool-cases, inl, inr,
  arith, false≢true,
}
use simple_host_enterprise.Common.Rows.{is_member}
use simple_host_enterprise.Accounts.{second}
use simple_host_enterprise.Accounts.Base64.{encode, IsByte, IsDigit, encode-IsDigit, decode-encode}
use simple_host_enterprise.Common.Text.{lower_byte, HasNo, cut_byte-append}
use simple_host_enterprise.Accounts.Cookie.{
  SigningKey, SessionPayload, dot, to_lower, equal_fold, split_dots, accept_hosted, find_key,
  sign_session_payload, host_payload, sign_host_session, verify_session_cookie,
  verify_hosted_session,
}

split_dots-append :
    (id a b : Bytes)
    → HasNo dot id
    → HasNo dot a
    → split_dots (id ++ dot ∷ (a ++ dot ∷ b)) ≡ ok (id, (a, b))
unfolding split_dots
split_dots-append id a b h k =
    rw (cut_byte-append dot id (a ++ dot ∷ b) h, cut_byte-append dot a b k) refl

encode-HasNoDot : (bs : Bytes) → All IsByte bs → HasNo dot (encode bs)
unfolding HasNo IsDigit
encode-HasNoDot bs h = All-map (encode bs) (λ c d. d.0) (encode-IsDigit bs h)

lower_byte-lower_byte : (c : ℕ) → lower_byte (lower_byte c) ≡ lower_byte c
unfolding lower_byte
lower_byte-lower_byte c = ground arith

to_lower-to_lower : (s : Bytes) → to_lower (to_lower s) ≡ to_lower s
to_lower-to_lower [] = refl
to_lower-to_lower (c ∷ cs) = rw (lower_byte-lower_byte c, to_lower-to_lower cs) refl

module _ (hmac : Bytes → Bytes → Bytes) (marshal : SessionPayload → Bytes)
    (unmarshal : Bytes → Option SessionPayload) (hmac_bytes : (k m : Bytes) → All IsByte (hmac k m))
    (marshal_bytes : (p : SessionPayload) → All IsByte (marshal p)) where
  -- A cookie that was signed for a payload with a session and a person, by a key whose name has no
  -- dot, is verified until the payload's time, with any keys of which the first of that name is the
  -- key that signed; it gives back the session, the person and the host.
  pub verify-sign :
      (now : ℕ) (signing : SigningKey) (more keys : List SigningKey) (p : SessionPayload)
      (cookie : Bytes)
      → unmarshal (marshal p) ≡ some p
      → HasNo dot signing.id
      → find_key signing.id keys ≡ ok signing.key
      → (p.session_id == [] || p.user_id == []) ≡ false
      → now ≤ p.exp * second
      → sign_session_payload hmac marshal unmarshal (signing ∷ more) p ≡ ok cookie
      → verify_session_cookie hmac marshal unmarshal now keys cookie
        ≡ ok (record { session_id = p.session_id; user_id = p.user_id; host = p.host })
  unfolding sign_session_payload verify_session_cookie
  verify-sign now signing more keys p cookie read undotted key named fresh signed =
      let parts =
        split_dots-append signing.id (encode (marshal p))
          (encode (hmac signing.key (encode (marshal p)))) undotted
          (encode-HasNoDot (marshal p) (marshal_bytes p)) in
      let signature = decode-encode (hmac signing.key (encode (marshal p))) (hmac_bytes _ _) in
      let bytes = decode-encode (marshal p) (marshal_bytes p) in
      let same = ==_self (hmac signing.key (encode (marshal p))) in
      let timely : ltb (p.exp * second) now ≡ false = ground (arith, fresh) in
      rw (sym (ok-injective signed), parts, key, signature, same, bytes, read, named, timely) refl

  -- A cookie that was signed for a host is accepted on a request for hosted content, and gives back
  -- the person and the session, exactly where the request's host is that host, letter case aside,
  -- and the session is not in the snapshot of the blocked ones. This holds until the cookie's time,
  -- for a session and a person whose ids are not empty, where the payload's JSON reads back as the
  -- payload, the signing key's name has no dot, and the first of the keys with that name is the
  -- signing key; the MAC and the JSON are texts of bytes.
  pub verify_hosted_session_iff :
      (now : ℕ) (signing : SigningKey) (more keys : List SigningKey) (blocked : List Bytes)
      (session_id user_id host expected_host cookie : Bytes) (expires : ℕ)
      → unmarshal (marshal (host_payload session_id user_id host expires))
        ≡ some (host_payload session_id user_id host expires)
      → HasNo dot signing.id
      → find_key signing.id keys ≡ ok signing.key
      → (session_id == [] || user_id == []) ≡ false
      → now ≤ expires / second * second
      → sign_host_session hmac marshal unmarshal (signing ∷ more) session_id user_id host expires
        ≡ ok cookie
      → (verify_hosted_session hmac marshal unmarshal now keys blocked cookie expected_host
          ≡ some (user_id, session_id))
        ↔ ((to_lower host ≡ to_lower expected_host) × (is_member session_id blocked ≡ false))
  unfolding sign_host_session verify_hosted_session accept_hosted equal_fold
  verify_hosted_session_iff now signing more keys blocked session_id user_id [] expected_host cookie
        expires read undotted key named fresh signed =
      cc
  verify_hosted_session_iff now signing more keys blocked session_id user_id (c ∷ cs) expected_host
        cookie expires read undotted key named fresh signed =
      let p = host_payload session_id user_id (c ∷ cs) expires in
      let verified =
        verify-sign now signing more keys p cookie read undotted key named fresh signed in
      let folded = to_lower-to_lower (c ∷ cs) in
      elim (Bool-cases (to_lower (c ∷ cs) == to_lower expected_host)) [
        | inl same ↦ elim (Bool-cases (is_member session_id blocked)) [
          | inl listed ↦ rw (verified, accept_hosted, folded, same, listed) (λ h. cc, λ h. cc)
          | inr clear ↦
              rw (verified, accept_hosted, folded, same, clear)
                (
                  λ h. ((==_iff (to_lower (c ∷ cs)) (to_lower expected_host)).0 same, refl),
                  λ h. refl,
                )
        ]
        | inr other ↦
            rw (verified, accept_hosted, folded, other)
              (
                λ h. cc,
                λ h. absurd (
                    false≢true
                      (sym other ∙ (==_iff (to_lower (c ∷ cs)) (to_lower expected_host)).1 h.0)),
              )
      ]
