-- ===== src/Audit/Members.antt =====
-- internal/audit/canonical.go: the members of an object, compared by the text that is written for them.
use simple_host_enterprise.Common.{
  ◌≡◌, refl, sym, ap, ◌∙◌, subst, List, [], ◌∷◌, ◌++◌, ℕ_eq, List_eq, Bytes, codes, length,
  length-append, All, arith, Result, ok, >>=-eq-ok, ok-injective,
}
use simple_host_enterprise.Common.Text.{append_assoc}
use simple_host_enterprise.Audit.Numeric.{NumberError}
use simple_host_enterprise.Audit.Json.{write_text, Written, join_members}
use simple_host_enterprise.Audit.Scanning.{outside, step, scan, IsPassed}
use simple_host_enterprise.Audit.Values.{AreWritten}

-- Texts joined behind prefixes of one length are equal part by part.
pub append-injective :
    {A : Type 0} (a b c d : List A) → length a ≡ length c → (a ++ b) ≡ (c ++ d) → (a ≡ c) × (b ≡ d)
append-injective [] b [] d n h = (refl, h)
append-injective [] b (y ∷ c) d n h = absurd (omega (arith, n))
append-injective (x ∷ a) b [] d n h = absurd (omega (arith, n))
append-injective (x ∷ a) b (y ∷ c) d n h =
    let (front, back) = append-injective a b c d (omega (arith, n)) (cc h) in (cc (h, front), back)

pub same-front : (a c b : Bytes) → a ++ b ≡ c ++ b → a ≡ c
same-front a c b h =
    let sizes = ap (λ (s : Bytes). length s) h in
    (append-injective a b c b (omega (arith, sizes, length-append a b, length-append c b)) h).0

pub same-back : (a b d : Bytes) → a ++ b ≡ a ++ d → b ≡ d
same-back a b d h = (append-injective a b a d refl h).1

-- Two values in front of a comma, with what follows.
pub same-value :
    (t u x y : Bytes)
    → IsPassed t
    → IsPassed u
    → t ++ (codes ", " ++ x) ≡ u ++ (codes ", " ++ y)
    → (t ≡ u) × (x ≡ y)
unfolding IsPassed scan step
same-value t u x y p q h =
    let rest : codes ", " ++ x ≡ codes ", " ++ y =
      sym (p 0 (codes ", " ++ x)) ∙ ap (λ z. scan z (outside 0)) h ∙ q 0 (codes ", " ++ y) in
    (
      same-front t u (codes ", " ++ x) (h ∙ ap (λ z. u ++ z) (sym rest)),
      same-back (codes ", ") x y rest,
    )

-- Two lists of members of the same text, which begin with the same key, have the same first value,
-- and the rest of them is the same text.
pub peel :
    (k : Bytes) (v w : Result NumberError Bytes) (x y : Written) (xs ys : List Written) (s : Bytes)
    → AreWritten v
    → AreWritten w
    → join_members ((k, v) ∷ x ∷ xs) ≡ ok s
    → join_members ((k, w) ∷ y ∷ ys) ≡ ok s
    → (v ≡ w)
      × ((tail : Bytes) × (join_members (x ∷ xs) ≡ ok tail) × (join_members (y ∷ ys) ≡ ok tail))
unfolding join_members
peel k v w x y xs ys s p q h g =
    let (t, t_made, t_more) = >>=-eq-ok v _ h in
    let (t_tail, t_rest, t_all) = >>=-eq-ok (join_members (x ∷ xs)) _ t_more in
    let (u, u_made, u_more) = >>=-eq-ok w _ g in
    let (u_tail, u_rest, u_all) = >>=-eq-ok (join_members (y ∷ ys)) _ u_more in
    let front = write_text k ++ codes ": " in
    let shape : (a b : Bytes) → front ++ a ++ codes ", " ++ b ≡ front ++ (a ++ (codes ", " ++ b)) =
      λ a b. append_assoc (front ++ a) (codes ", ") b ∙ append_assoc front a (codes ", " ++ b) in
    let (value, tail) = same-value t u t_tail u_tail (p t t_made) (q u u_made) (
      same-back front _ _
        (sym (shape t t_tail) ∙ ok-injective t_all ∙ sym (ok-injective u_all) ∙ shape u u_tail)) in
    (t_made ∙ ap ok value ∙ sym u_made, (u_tail, t_rest ∙ ap ok tail, u_rest))

pub last-value :
    (k : Bytes) (v w : Result NumberError Bytes) (s : Bytes)
    → join_members ((k, v) ∷ []) ≡ ok s
    → join_members ((k, w) ∷ []) ≡ ok s
    → v ≡ w
unfolding join_members
last-value k v w s h g =
    let (t, t_made, t_all) = >>=-eq-ok v _ h in
    let (u, u_made, u_all) = >>=-eq-ok w _ g in
    let same =
      same-back (write_text k ++ codes ": ") t u (ok-injective t_all ∙ sym (ok-injective u_all)) in
    t_made ∙ ap ok same ∙ sym u_made

abbrev pub SameKeys : List Written → List Written → Type 0
SameKeys [] [] = Unit
SameKeys (x ∷ xs) (y ∷ ys) = (x.0 ≡ y.0) × SameKeys xs ys
SameKeys _ _ = ⊥

abbrev pub SameValues : List Written → List Written → Type 0
SameValues [] [] = Unit
SameValues (x ∷ xs) (y ∷ ys) = (x.1 ≡ y.1) × SameValues xs ys
SameValues _ _ = ⊥

-- Members of the same keys that are written as one text have the same values.
pub join-same :
    (xs ys : List Written) (s : Bytes)
    → SameKeys xs ys
    → All (λ (w : Written). AreWritten w.1) xs
    → All (λ (w : Written). AreWritten w.1) ys
    → join_members xs ≡ ok s
    → join_members ys ≡ ok s
    → SameValues xs ys
join-same [] [] s k p q h g = tt
join-same [] (y ∷ ys) s k p q h g = absurd k
join-same (x ∷ xs) [] s k p q h g = absurd k
join-same ((j, v) ∷ []) ((k, w) ∷ []) s e p q h g =
    (last-value k v w s (subst (λ z. join_members ((z, v) ∷ []) ≡ ok s) e.0 h) g, tt)
join-same (x ∷ []) (y ∷ z ∷ ys) s e p q h g = absurd e.1
join-same (x ∷ z ∷ xs) (y ∷ []) s e p q h g = absurd e.1
join-same ((j, v) ∷ x ∷ xs) ((k, w) ∷ y ∷ ys) s e p q h g =
    let peeled =
      peel k v w x y xs ys s p.0 q.0 (subst (λ z. join_members ((z, v) ∷ x ∷ xs) ≡ ok s) e.0 h) g in
    (peeled.0, join-same (x ∷ xs) (y ∷ ys) peeled.1.0 e.1 p.1 q.1 peeled.1.1 peeled.1.2)
