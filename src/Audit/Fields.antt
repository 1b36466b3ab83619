-- ===== src/Audit/Fields.antt =====
-- internal/audit/canonical.go: what the canonical form of an event says of its fields.
use simple_host_enterprise.Common.{
  ◌≡◌, refl, sym, ap, ◌∙◌, Bool, true, false, Option, none, some, List, [], ◌∷◌, ◌++◌, ℕ_eq,
  List_eq, Bytes, codes, All, ok, >>=-eq-ok, ok-injective,
}
use simple_host_enterprise.Audit.Numeric.{numeric_text}
use simple_host_enterprise.Audit.Json.{
  null, bool, text, number, write_text, key_less, bytes_less, Written, insert_member, sort_members,
  join_members, write_value, write_members,
}
use simple_host_enterprise.Audit.Canonical.{
  ChainedEvent, nullable, chained_detail, event_members, canonical,
}
use simple_host_enterprise.Audit.Texts.{write_text-injective}
use simple_host_enterprise.Audit.Numbers.{IsPlain}
use simple_host_enterprise.Audit.Values.{HasPlainNumbers, AreWritten, value-IsPassed}
use simple_host_enterprise.Audit.Members.{same-front, same-back, SameKeys, SameValues, join-same}

-- What the values say of the fields.
text-same : (s t : Bytes) → write_value (text s) ≡ write_value (text t) → s ≡ t
unfolding write_value
text-same s t h = (write_text-injective s t [] [] (ap (λ z. z ++ []) (ok-injective h))).0

nullable-same : (o p : Option Bytes) → write_value (nullable o) ≡ write_value (nullable p) → o ≡ p
unfolding write_value write_text
nullable-same none none h = refl
nullable-same none (some t) h = cc (ok-injective h)
nullable-same (some s) none h = cc (ok-injective h)
nullable-same (some s) (some t) h = ap some (text-same s t h)

bool-same : (a b : Bool) → write_value (bool a) ≡ write_value (bool b) → a ≡ b
unfolding write_value
bool-same true true h = refl
bool-same true false h = cc (ok-injective h)
bool-same false true h = cc (ok-injective h)
bool-same false false h = refl

-- The members in the order in which they are written.
ordered : ChainedEvent → List Written
ordered e =
    (codes "at", write_value (text e.at))
    ∷ (codes "id", write_value (number e.id))
    ∷ (codes "ip", write_value (nullable e.ip))
    ∷ (codes "action", write_value (text e.action))
    ∷ (codes "detail", write_value (chained_detail e))
    ∷ (codes "key_id", write_value (nullable e.key_id))
    ∷ (codes "site_id", write_value (nullable e.site_id))
    ∷ (codes "team_id", write_value (nullable e.team_id))
    ∷ (codes "actor_id", write_value (nullable e.actor_id))
    ∷ (codes "owner_id", write_value (nullable e.owner_id))
    ∷ (codes "actor_kind", write_value (text e.actor_kind))
    ∷ (codes "request_id", write_value (nullable e.request_id))
    ∷ (codes "user_agent", write_value (nullable e.user_agent))
    ∷ (codes "via_site_name", write_value (nullable e.via_site_name))
    ∷ (codes "via_site_label", write_value (nullable e.via_site_label))
    ∷ (codes "via_site_observed", write_value (bool e.via_site_observed))
    ∷ []

members-ordered : (e : ChainedEvent) → sort_members (write_members (event_members e)) ≡ ordered e
unfolding ordered sort_members insert_member key_less bytes_less write_members event_members
members-ordered e = refl

-- The numbers that are hashed of an event are plain texts, as decimal and JSON numbers are.
abbrev pub IsReadable : ChainedEvent → Type 0
IsReadable e = IsPlain e.id × HasPlainNumbers (chained_detail e)

-- The events agree in every field; of the numbers and of the detail, in what is hashed of them.
pub record SameEvent (e f : ChainedEvent) : Type 0 where
  pub same_at : e.at ≡ f.at
  pub same_id : numeric_text e.id ≡ numeric_text f.id
  pub same_ip : e.ip ≡ f.ip
  pub same_action : e.action ≡ f.action
  pub same_detail : write_value (chained_detail e) ≡ write_value (chained_detail f)
  pub same_key_id : e.key_id ≡ f.key_id
  pub same_site_id : e.site_id ≡ f.site_id
  pub same_team_id : e.team_id ≡ f.team_id
  pub same_actor_id : e.actor_id ≡ f.actor_id
  pub same_owner_id : e.owner_id ≡ f.owner_id
  pub same_actor_kind : e.actor_kind ≡ f.actor_kind
  pub same_request_id : e.request_id ≡ f.request_id
  pub same_user_agent : e.user_agent ≡ f.user_agent
  pub same_via_site_name : e.via_site_name ≡ f.via_site_name
  pub same_via_site_label : e.via_site_label ≡ f.via_site_label
  pub same_via_site_observed : e.via_site_observed ≡ f.via_site_observed

-- Between the braces of the canonical form.
canonical-inner :
    (e : ChainedEvent) (b : Bytes)
    → canonical e ≡ ok b
    → (inner : Bytes) × (join_members (ordered e) ≡ ok inner)
      × (codes "{" ++ inner ++ codes "}" ≡ b)
unfolding canonical write_value
canonical-inner e b h =
    let (inner, joined, made) =
      >>=-eq-ok (join_members (sort_members (write_members (event_members e)))) _ h in
    (inner, ap join_members (sym (members-ordered e)) ∙ joined, ok-injective made)

of_text : (s : Bytes) → AreWritten (write_value (text s))
unfolding HasPlainNumbers
of_text s = value-IsPassed (text s) tt

of_nullable : (o : Option Bytes) → AreWritten (write_value (nullable o))
unfolding HasPlainNumbers
of_nullable none = value-IsPassed null tt
of_nullable (some s) = value-IsPassed (text s) tt

of_id : (e : ChainedEvent) → IsReadable e → AreWritten (write_value (number e.id))
unfolding HasPlainNumbers
of_id e r = value-IsPassed (number e.id) r.0

of_detail : (e : ChainedEvent) → IsReadable e → AreWritten (write_value (chained_detail e))
of_detail e r = value-IsPassed (chained_detail e) r.1

of_bool : (b : Bool) → AreWritten (write_value (bool b))
unfolding HasPlainNumbers
of_bool b = value-IsPassed (bool b) tt

ordered-written :
    (e : ChainedEvent) → IsReadable e → All (λ (w : Written). AreWritten w.1) (ordered e)
unfolding ordered
ordered-written e r = (
  of_text e.at,
  (
    of_id e r,
    (
      of_nullable e.ip,
      (
        of_text e.action,
        (
          of_detail e r,
          (
            of_nullable e.key_id,
            (
              of_nullable e.site_id,
              (
                of_nullable e.team_id,
                (
                  of_nullable e.actor_id,
                  (
                    of_nullable e.owner_id,
                    (
                      of_text e.actor_kind,
                      (
                        of_nullable e.request_id,
                        (
                          of_nullable e.user_agent,
                          (
                            of_nullable e.via_site_name,
                            (of_nullable e.via_site_label, (of_bool e.via_site_observed, tt)),
                          ),
                        ),
                      ),
                    ),
                  ),
                ),
              ),
            ),
          ),
        ),
      ),
    ),
  ),
)

ordered-keys : (e f : ChainedEvent) → SameKeys (ordered e) (ordered f)
unfolding ordered
ordered-keys e f = (
  refl,
  (
    refl,
    (
      refl,
      (
        refl,
        (
          refl,
          (
            refl,
            (refl, (refl, (refl, (refl, (refl, (refl, (refl, (refl, (refl, (refl, tt)))))))))),
          ),
        ),
      ),
    ),
  ),
)

ordered-same : (e f : ChainedEvent) → SameValues (ordered e) (ordered f) → SameEvent e f
unfolding ordered numeric_text write_value
ordered-same e f v = record {
  same_at = text-same e.at f.at v.0;
  same_id = v.1.0;
  same_ip = nullable-same e.ip f.ip v.1.1.0;
  same_action = text-same e.action f.action v.1.1.1.0;
  same_detail = v.1.1.1.1.0;
  same_key_id = nullable-same e.key_id f.key_id v.1.1.1.1.1.0;
  same_site_id = nullable-same e.site_id f.site_id v.1.1.1.1.1.1.0;
  same_team_id = nullable-same e.team_id f.team_id v.1.1.1.1.1.1.1.0;
  same_actor_id = nullable-same e.actor_id f.actor_id v.1.1.1.1.1.1.1.1.0;
  same_owner_id = nullable-same e.owner_id f.owner_id v.1.1.1.1.1.1.1.1.1.0;
  same_actor_kind = text-same e.actor_kind f.actor_kind v.1.1.1.1.1.1.1.1.1.1.0;
  same_request_id = nullable-same e.request_id f.request_id v.1.1.1.1.1.1.1.1.1.1.1.0;
  same_user_agent = nullable-same e.user_agent f.user_agent v.1.1.1.1.1.1.1.1.1.1.1.1.0;
  same_via_site_name = nullable-same e.via_site_name f.via_site_name v.1.1.1.1.1.1.1.1.1.1.1.1.1.0;
  same_via_site_label =
      nullable-same e.via_site_label f.via_site_label v.1.1.1.1.1.1.1.1.1.1.1.1.1.1.0;
  same_via_site_observed =
      bool-same e.via_site_observed f.via_site_observed v.1.1.1.1.1.1.1.1.1.1.1.1.1.1.1.0;
}

pub canonical-injective :
    (e f : ChainedEvent) (b : Bytes)
    → IsReadable e
    → IsReadable f
    → canonical e ≡ ok b
    → canonical f ≡ ok b
    → SameEvent e f
canonical-injective e f b r q h g =
    let (s, s_joined, s_made) = canonical-inner e b h in
    let (t, t_joined, t_made) = canonical-inner f b g in
    let same = same-front s t (codes "}") (same-back (codes "{") _ _ (s_made ∙ sym t_made)) in
    ordered-same e f (
      join-same (ordered e) (ordered f) t (ordered-keys e f) (ordered-written e r)
        (ordered-written f q) (s_joined ∙ ap ok same) t_joined)
