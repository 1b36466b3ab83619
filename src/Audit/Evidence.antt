-- ===== src/Audit/Evidence.antt =====
-- internal/audit/chain.go: what the head's hash says of the rows and their events.
use simple_host_enterprise.Common.{
  ◌≡◌, ◌≢◌, ◌⊎◌, refl, sym, ap, ◌∙◌, subst, Option, none, some, List, [], ◌∷◌, ◌++◌, arith, ℕ_eq,
  List_eq, ◌==◌, ==_iff, Bytes, length, All, ok, Bool-cases, inl, inr, false≢true,
}
use simple_host_enterprise.Audit.Canonical.{ChainedEvent, canonical}
use simple_host_enterprise.Audit.Members.{append-injective}
use simple_host_enterprise.Audit.Fields.{IsReadable, SameEvent, canonical-injective}
use simple_host_enterprise.Audit.Chain.{
  ChainRow, ChainHead, ChainExpectation, ChainReport, verify_chain,
}
use simple_host_enterprise.Audit.Intact.{
  AllFollow, last_of, EndsAt, IsGenuine, IsIntact, verify_chain_iff,
}

-- The text that the hash of a row is taken of: the previous hash and the event's canonical form.
pub record IsTextOf (r : ChainRow) (hashed_text : Bytes) : Type 0 where
  pub event : ChainedEvent
  pub bytes : Bytes
  pub present : r.event ≡ some event
  pub canonical_form : canonical event ≡ ok bytes
  pub joined : r.prev_hash ++ bytes ≡ hashed_text

-- The texts of the two rows differ and have the same digest.
pub record Collision (sha256 : Bytes → Bytes) (r q : ChainRow) : Type 0 where
  pub left : Bytes
  pub right : Bytes
  pub left_text : IsTextOf r left
  pub right_text : IsTextOf q right
  pub differ : left ≢ right
  pub same_digest : sha256 left ≡ sha256 right

-- Two rows in the same place collide.
abbrev pub AnyCollide : (Bytes → Bytes) → List ChainRow → List ChainRow → Type 0
AnyCollide sha256 (r ∷ rows) (q ∷ others) = Collision sha256 r q ⊎ AnyCollide sha256 rows others
AnyCollide sha256 _ _ = ⊥

-- The rows hold the same hashes, and events of the same canonical form.
pub record Agree (r q : ChainRow) : Type 0 where
  pub same_hash : r.hash ≡ q.hash
  pub same_prev : r.prev_hash ≡ q.prev_hash
  pub event : ChainedEvent
  pub other_event : ChainedEvent
  pub present : r.event ≡ some event
  pub other_present : q.event ≡ some other_event
  pub form : Bytes
  pub canonical_form : canonical event ≡ ok form
  pub other_canonical_form : canonical other_event ≡ ok form

abbrev pub AllAgree : List ChainRow → List ChainRow → Type 0
AllAgree [] [] = Unit
AllAgree (r ∷ rows) (q ∷ others) = Agree r q × AllAgree rows others
AllAgree _ _ = ⊥

-- The numbers of the row's event are plain texts.
abbrev pub IsReadableRow : ChainRow → Type 0
IsReadableRow r = (e : ChainedEvent) → r.event ≡ some e → IsReadable e

-- The rows hold the same hashes and the same event.
pub record SameRow (r q : ChainRow) : Type 0 where
  pub agree : Agree r q
  pub same_event : SameEvent agree.event agree.other_event

abbrev pub AllSame : List ChainRow → List ChainRow → Type 0
AllSame [] [] = Unit
AllSame (r ∷ rows) (q ∷ others) = SameRow r q × AllSame rows others
AllSame _ _ = ⊥

agree-same :
    (rows others : List ChainRow)
    → All IsReadableRow rows
    → All IsReadableRow others
    → AllAgree rows others
    → AllSame rows others
agree-same [] [] a b h = tt
agree-same [] (q ∷ others) a b h = absurd h
agree-same (r ∷ rows) [] a b h = absurd h
agree-same (r ∷ rows) (q ∷ others) a b h =
    let g = h.0 in
    let here : SameRow r q = record {
      agree = g;
      same_event =
          canonical-injective g.event g.other_event g.form (a.0 g.event g.present)
            (b.0 g.other_event g.other_present) g.canonical_form g.other_canonical_form;
    } in
    (here, agree-same rows others a.1 b.1 h.1)

abbrev HashOf : Option ChainRow → Bytes → Type 0
HashOf none hash = ⊥
HashOf (some r) hash = r.hash ≡ hash

end-HashOf :
    (head : ChainHead) (r : ChainRow) (rows : List ChainRow)
    → EndsAt head (last_of (some r) rows)
    → HashOf (last_of (some r) rows) head.hash
end-HashOf head r [] e = e.1
end-HashOf head r (q ∷ rows) e = end-HashOf head q rows e

module _ (sha256 : Bytes → Bytes) (width : (s : Bytes) → length (sha256 s) ≡ 32) where
  text_of : (r : ChainRow) (g : IsGenuine sha256 r) → IsTextOf r (r.prev_hash ++ g.bytes)
  text_of r g = record {
    event = g.event;
    bytes = g.bytes;
    present = g.present;
    canonical_form = g.canonical_form;
    joined = refl;
  }

  -- Rows of the same hash agree, or show a collision.
  rows-Agree :
      (r q : ChainRow)
      → IsGenuine sha256 r
      → IsGenuine sha256 q
      → length r.prev_hash ≡ 32
      → length q.prev_hash ≡ 32
      → r.hash ≡ q.hash
      → Collision sha256 r q ⊎ Agree r q
  rows-Agree r q g h m n e =
      elim (Bool-cases ((r.prev_hash ++ g.bytes) == (q.prev_hash ++ h.bytes))) [
        | inr other ↦ inl (record {
          left = r.prev_hash ++ g.bytes;
          right = q.prev_hash ++ h.bytes;
          left_text = text_of r g;
          right_text = text_of q h;
          differ = λ p.
              false≢true
                (sym other ∙ (==_iff (r.prev_hash ++ g.bytes) (q.prev_hash ++ h.bytes)).1 p);
          same_digest = g.hashed ∙ e ∙ sym h.hashed;
        })
        | inl same ↦
            let (prev, bytes) =
              append-injective r.prev_hash g.bytes q.prev_hash h.bytes (m ∙ sym n)
                ((==_iff (r.prev_hash ++ g.bytes) (q.prev_hash ++ h.bytes)).0 same) in
            inr (record {
              same_hash = e;
              same_prev = prev;
              event = g.event;
              other_event = h.event;
              present = g.present;
              other_present = h.present;
              form = h.bytes;
              canonical_form = g.canonical_form ∙ ap ok bytes;
              other_canonical_form = h.canonical_form;
            })
      ]

  genuine-width : (r : ChainRow) → IsGenuine sha256 r → length r.hash ≡ 32
  genuine-width r g = subst (λ s. length s ≡ 32) g.hashed (width (r.prev_hash ++ g.bytes))

  -- From rows whose tails end in the same hash: the tails agree and so do their own hashes.
  tails_agree :
      (r q : ChainRow) (rows others : List ChainRow) (hash : Bytes)
      → length rows ≡ length others
      → AllFollow (some r) rows
      → AllFollow (some q) others
      → All (IsGenuine sha256) (r ∷ rows)
      → All (IsGenuine sha256) (q ∷ others)
      → HashOf (last_of (some r) rows) hash
      → HashOf (last_of (some q) others) hash
      → AnyCollide sha256 rows others ⊎ ((r.hash ≡ q.hash) × AllAgree rows others)
  tails_agree r q [] [] hash n f g a b x y = inr (x ∙ sym y, tt)
  tails_agree r q [] (q2 ∷ others) hash n f g a b x y = absurd (omega (arith, n))
  tails_agree r q (r2 ∷ rows) [] hash n f g a b x y = absurd (omega (arith, n))
  tails_agree r q (r2 ∷ rows) (q2 ∷ others) hash n f g a b x y =
      elim (tails_agree r2 q2 rows others hash (omega (arith, n)) f.1 g.1 a.1 b.1 x y) [
        | inl c ↦ inl (inr c)
        | inr (e, rest) ↦
            elim (rows-Agree r2 q2 a.1.0 b.1.0
              (ap (λ (s : Bytes). length s) f.0.1 ∙ genuine-width r a.0)
              (ap (λ (s : Bytes). length s) g.0.1 ∙ genuine-width q b.0) e) [
                | inl c ↦ inl (inl c)
                | inr agree ↦ inr (sym f.0.1 ∙ agree.same_prev ∙ g.0.1, (agree, rest))
              ]
      ]

  intact-agree :
      (expect also : ChainExpectation) (head other : ChainHead) (r q : ChainRow)
      (rows others : List ChainRow)
      → IsIntact sha256 expect head (r ∷ rows)
      → IsIntact sha256 also other (q ∷ others)
      → head.hash ≡ other.hash
      → length rows ≡ length others
      → length r.prev_hash ≡ 32
      → length q.prev_hash ≡ 32
      → AnyCollide sha256 (r ∷ rows) (q ∷ others) ⊎ AllAgree (r ∷ rows) (q ∷ others)
  intact-agree expect also head other r q rows others h k e n m l =
      elim (tails_agree r q rows others head.hash n h.linked.1 k.linked.1 h.genuine k.genuine
        (end-HashOf head r rows h.ends)
        (subst (HashOf (last_of (some q) others)) (sym e) (end-HashOf other q others k.ends))) [
          | inl c ↦ inl (inr c)
          | inr (same, rest) ↦ elim (rows-Agree r q h.genuine.0 k.genuine.0 m l same) [
            | inl c ↦ inl (inl c)
            | inr agree ↦ inr (agree, rest)
          ]
        ]

  -- The chain is tamper-evident: under a digest of 32 bytes, two chains of the same length that both
  -- verify without a break, against heads of the same hash, and whose first rows name a hash of 32
  -- bytes, hold row by row the same hashes and the same event, or else two rows in the same place
  -- collide: the texts that their hashes are taken of, the previous hash followed by the canonical
  -- form, differ and have one digest. The same event is the same time, action, actor and address, and
  -- so on for every field, the number and the detail as far as they are hashed. The events' numbers are
  -- texts without quotes, brackets or commas, as decimal and JSON numbers are.
  pub tamper_evident :
      (expect also : ChainExpectation) (head other : ChainHead) (r q : ChainRow)
      (rows others : List ChainRow) (report also_report : ChainReport)
      → All IsReadableRow (r ∷ rows)
      → All IsReadableRow (q ∷ others)
      → verify_chain sha256 expect head (r ∷ rows) ≡ ok report
      → report.break ≡ none
      → verify_chain sha256 also other (q ∷ others) ≡ ok also_report
      → also_report.break ≡ none
      → head.hash ≡ other.hash
      → length rows ≡ length others
      → length r.prev_hash ≡ 32
      → length q.prev_hash ≡ 32
      → AnyCollide sha256 (r ∷ rows) (q ∷ others) ⊎ AllSame (r ∷ rows) (q ∷ others)
  tamper_evident expect also head other r q rows others report also_report a b v unbroken w
        also_unbroken e n m l =
      elim (intact-agree expect also head other r q rows others
        ((verify_chain_iff sha256 expect head (r ∷ rows)).0 (report, v, unbroken))
        ((verify_chain_iff sha256 also other (q ∷ others)).0 (also_report, w, also_unbroken)) e n m
        l) [ inl c ↦ inl c | inr agree ↦ inr (agree-same (r ∷ rows) (q ∷ others) a b agree) ]
