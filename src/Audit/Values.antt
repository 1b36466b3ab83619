-- ===== src/Audit/Values.antt =====
-- internal/audit/canonical.go: where a JSON value that is written ends.
use simple_host_enterprise.Common.{
  ℕ, suc, ◌≡◌, refl, ap, ◌∙◌, subst, true, false, List, [], ◌∷◌, ◌++◌, ℕ_eq, List_eq, Bool-cases,
  inl, inr, Bytes, codes, All, Result, ok, >>=-eq-ok, ok-injective,
}
use simple_host_enterprise.Common.Text.{append_assoc}
use simple_host_enterprise.Audit.Numeric.{NumberError}
use simple_host_enterprise.Audit.Json.{
  Value, null, bool, text, number, array, object, Values, no_values, value_and, Members, no_members,
  member_and, write_text, key_less, Written, insert_member, sort_members, join_members, write_value,
  write_values, write_members,
}
use simple_host_enterprise.Audit.Scanning.{
  outside, step, scan, IsPassed, plain-IsPassed, text-IsPassed,
}
use simple_host_enterprise.Audit.Numbers.{IsPlain, numeric_text-IsPlain}

-- The numbers of the value are plain texts, as JSON's numbers are.
unfoldable mutual
  pub HasPlainNumbers : Value → Type 0
  HasPlainNumbers null = Unit
  HasPlainNumbers (bool b) = Unit
  HasPlainNumbers (text s) = Unit
  HasPlainNumbers (number n) = IsPlain n
  HasPlainNumbers (array values) = ValuesPlain values
  HasPlainNumbers (object members) = MembersPlain members

  pub ValuesPlain : Values → Type 0
  ValuesPlain no_values = Unit
  ValuesPlain (value_and v rest) = HasPlainNumbers v × ValuesPlain rest

  pub MembersPlain : Members → Type 0
  MembersPlain no_members = Unit
  MembersPlain (member_and k v rest) = HasPlainNumbers v × MembersPlain rest

-- Between brackets, where commas are passed over too.
unfoldable pub IsPassedWithin : Bytes → Type 0
IsPassedWithin t = (d : ℕ) (x : Bytes) → scan (t ++ x) (outside (suc d)) ≡ scan x (outside (suc d))

abbrev pub AreWritten : Result NumberError Bytes → Type 0
AreWritten v = (t : Bytes) → v ≡ ok t → IsPassed t

insert_member-All :
    (P : Written → Type 0) (x : Written) (ys : List Written)
    → P x
    → All P ys
    → All P (insert_member x ys)
unfolding insert_member
insert_member-All P x [] p h = (p, tt)
insert_member-All P x (y ∷ ys) p h = elim (Bool-cases (key_less y.0 x.0)) [
  | inl e ↦ rw e (h.0, insert_member-All P x ys p h.1)
  | inr e ↦ rw e (p, h)
]

sort_members-All : (P : Written → Type 0) (xs : List Written) → All P xs → All P (sort_members xs)
unfolding sort_members
sort_members-All P [] h = tt
sort_members-All P (x ∷ xs) h =
    insert_member-All P x (sort_members xs) h.0 (sort_members-All P xs h.1)

within : (t : Bytes) → IsPassed t → IsPassedWithin t
unfolding IsPassed IsPassedWithin
within t p d x = p (suc d) x

append-within : (s t : Bytes) → IsPassedWithin s → IsPassedWithin t → IsPassedWithin (s ++ t)
unfolding IsPassedWithin
append-within s t p q d x =
    ap (λ z. scan z (outside (suc d))) (append_assoc s t x) ∙ p d (t ++ x) ∙ q d x

empty-within : (t : Bytes) → ◌≡◌ {A = Result NumberError Bytes} (ok []) (ok t) → IsPassedWithin t
unfolding IsPassedWithin
empty-within t e = subst IsPassedWithin (ok-injective e) (λ d x. refl)

-- A value, a comma and a space, and more values.
comma-within :
    (t tail : Bytes)
    → IsPassedWithin t
    → IsPassedWithin tail
    → IsPassedWithin (t ++ codes ", " ++ tail)
unfolding IsPassedWithin scan step
comma-within t tail p q =
    append-within (t ++ codes ", ") tail (append-within t (codes ", ") p (λ d x. refl)) q

member-within : (k t : Bytes) → IsPassed t → IsPassedWithin (write_text k ++ codes ": " ++ t)
unfolding IsPassedWithin scan step
member-within k t p =
    append-within (write_text k ++ codes ": ") t
      (append-within (write_text k) (codes ": ") (within (write_text k) (text-IsPassed k))
        (λ d x. refl))
      (within t p)

join-within :
    (ws : List Written) (t : Bytes)
    → All (λ (w : Written). AreWritten w.1) ws
    → join_members ws ≡ ok t
    → IsPassedWithin t
unfolding join_members
join-within [] t h e = empty-within t e
join-within ((k, v) ∷ []) t h e =
    let (mid, written, made) = >>=-eq-ok v _ e in
    subst IsPassedWithin (ok-injective made) (member-within k mid (h.0 mid written))
join-within ((k, v) ∷ w ∷ ws) t h e =
    let (mid, written, more) = >>=-eq-ok v _ e in
    let (tail, joined, made) = >>=-eq-ok (join_members (w ∷ ws)) _ more in
    subst IsPassedWithin (ok-injective made) (
      comma-within (write_text k ++ codes ": " ++ mid) tail (member-within k mid (h.0 mid written))
        (join-within (w ∷ ws) tail h.1 joined))

braces-IsPassed : (t : Bytes) → IsPassedWithin t → IsPassed (codes "{" ++ (t ++ codes "}"))
unfolding IsPassed IsPassedWithin scan step
braces-IsPassed t p d x =
    ap (λ z. scan z (outside (suc d))) (append_assoc t (codes "}") x) ∙ p d (codes "}" ++ x)

brackets-IsPassed : (t : Bytes) → IsPassedWithin t → IsPassed (codes "[" ++ (t ++ codes "]"))
unfolding IsPassed IsPassedWithin scan step
brackets-IsPassed t p d x =
    ap (λ z. scan z (outside (suc d))) (append_assoc t (codes "]") x) ∙ p d (codes "]" ++ x)

mutual
  unfolding HasPlainNumbers ValuesPlain MembersPlain write_value write_values write_members

  pub value-IsPassed : (v : Value) → HasPlainNumbers v → AreWritten (write_value v)
  value-IsPassed null h t e = subst IsPassed (ok-injective e) (plain-IsPassed (codes "null") refl)
  value-IsPassed (bool true) h t e =
      subst IsPassed (ok-injective e) (plain-IsPassed (codes "true") refl)
  value-IsPassed (bool false) h t e =
      subst IsPassed (ok-injective e) (plain-IsPassed (codes "false") refl)
  value-IsPassed (text s) h t e = subst IsPassed (ok-injective e) (text-IsPassed s)
  value-IsPassed (number n) h t e = plain-IsPassed t (numeric_text-IsPlain n t h e)
  value-IsPassed (array values) h t e =
      let (inner, written, made) = >>=-eq-ok (write_values values) _ e in
      subst IsPassed (ok-injective made)
        (brackets-IsPassed inner (values-within values h inner written))
  value-IsPassed (object members) h t e =
      let (inner, joined, made) =
        >>=-eq-ok (join_members (sort_members (write_members members))) _ e in
      subst IsPassed (ok-injective made) (
        braces-IsPassed inner (
          join-within _ inner
            (sort_members-All _ (write_members members) (members-written members h)) joined))

  values-within :
      (values : Values)
      → ValuesPlain values
      → (t : Bytes) → write_values values ≡ ok t
      → IsPassedWithin t
  values-within no_values h t e = empty-within t e
  values-within (value_and v no_values) h t e = within t (value-IsPassed v h.0 t e)
  values-within (value_and v (value_and w rest)) h t e =
      let (mid, written, more) = >>=-eq-ok (write_value v) _ e in
      let (tail, joined, made) = >>=-eq-ok (write_values (value_and w rest)) _ more in
      subst IsPassedWithin (ok-injective made) (
        comma-within mid tail (within mid (value-IsPassed v h.0 mid written))
          (values-within (value_and w rest) h.1 tail joined))

  members-written :
      (members : Members)
      → MembersPlain members
      → All (λ (w : Written). AreWritten w.1) (write_members members)
  members-written no_members h = tt
  members-written (member_and k v rest) h = (value-IsPassed v h.0, members-written rest h.1)
