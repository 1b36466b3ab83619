-- ===== src/SavedState/Restoring.antt =====
-- What a restore does, and that it can be undone.
use simple_host_enterprise.Common.{
  ℕ, zero, suc, ◌+◌, ◌≤◌, ◌<◌, String, ◌≡◌, refl, sym, ap, ◌∙◌, subst, true, false, none, some,
  List, [], ◌∷◌, arith, String_eq, ◌==◌, ==_self, ℕ_eq, ltb, if◌then◌else◌, Result, ok, err,
  ok-injective, length, All, Option-cases, inl, inr,
}
use simple_host_enterprise.SavedState.{
  HistoryEntry, Saved, StateError, no_rows, insert_row, newest, record_state_history,
  get_state_history, restore_state_history,
}

newer : (a b : ℕ) → a < b → ltb a b ≡ true
newer a b h = ground arith

other_id : (id old : ℕ) → old < id → (id == old) ≡ false
other_id id old h = ground arith

err≢ok :
    {S : Type 0} {x : ℕ × Saved S}
    → ◌≡◌ {A = Result StateError (ℕ × Saved S)} (err no_rows) (ok x)
    → ⊥
err≢ok h = cc

module _ {S : Type 0} where
  -- The ids fall, no more than the limit are kept, and the newest is the data that is current.
  abbrev pub IsFalling : List (HistoryEntry S) → Type 0
  IsFalling [] = Unit
  IsFalling (r ∷ rows) = All (λ (q : HistoryEntry S). q.id < r.id) rows × IsFalling rows

  pub record IsHistory (s : Saved S) : Type 0 where
    pub falling : IsFalling s.history
    pub limited : length s.history ≤ 20
    pub newest_row : HistoryEntry S
    pub older : List (HistoryEntry S)
    pub shape : s.history ≡ newest_row ∷ older
    pub current : newest_row.state ≡ s.state
    pub current_version : newest_row.state_version ≡ s.state_version

  abbrev pub IsFresh : ℕ → List (HistoryEntry S) → Type 0
  IsFresh id rows = All (λ (q : HistoryEntry S). q.id < id) rows

  newest-All :
      (P : HistoryEntry S → Type 0) (n : ℕ) (rows : List (HistoryEntry S))
      → All P rows
      → All P (newest n rows)
  newest-All P zero rows h = tt
  newest-All P (suc n) [] h = tt
  newest-All P (suc n) (r ∷ rows) h = (h.0, newest-All P n rows h.1)

  newest-IsFalling :
      (n : ℕ) (rows : List (HistoryEntry S)) → IsFalling rows → IsFalling (newest n rows)
  newest-IsFalling zero rows h = tt
  newest-IsFalling (suc n) [] h = tt
  newest-IsFalling (suc n) (r ∷ rows) h = (newest-All _ n rows h.0, newest-IsFalling n rows h.1)

  length-newest : (n : ℕ) (rows : List (HistoryEntry S)) → length (newest n rows) ≤ n
  length-newest zero rows = omega arith
  length-newest (suc n) [] = omega arith
  length-newest (suc n) (r ∷ rows) = omega (arith, length-newest n rows)

  -- A row with a fresh id is the first.
  insert_row-first :
      (e : HistoryEntry S) (rows : List (HistoryEntry S))
      → IsFresh e.id rows
      → insert_row e rows ≡ e ∷ rows
  unfolding insert_row
  insert_row-first e [] h = refl
  insert_row-first e (r ∷ rows) h = rw (newer r.id e.id h.0) refl

  abbrev entry_of : ℕ → String → Saved S → HistoryEntry S
  entry_of id by s = record {
    id = id;
    state_version = s.state_version;
    state = s.state;
    written_by = if by == "" then none else some by;
  }

  recorded :
      (id : ℕ) (by : String) (s : Saved S)
      → IsFresh id s.history
      → (record_state_history id by s).history ≡ entry_of id by s ∷ newest 19 s.history
  unfolding record_state_history
  recorded id by s h = ap (λ rows. newest 20 rows) (insert_row-first (entry_of id by s) s.history h)

  -- After a write is recorded the history is in order, within its limit, and its newest entry is the
  -- data that is current.
  pub record_state_history-IsHistory :
      (id : ℕ) (by : String) (s : Saved S)
      → IsFalling s.history
      → IsFresh id s.history
      → IsHistory (record_state_history id by s)
  unfolding record_state_history
  record_state_history-IsHistory id by s f h =
      let shape = recorded id by s h in
      record {
        falling =
            subst IsFalling (sym shape)
              (newest-All _ 19 s.history h, newest-IsFalling 19 s.history f);
        limited =
            subst (λ (rows : List (HistoryEntry S)). length rows ≤ 20) (sym shape)
              (omega (arith, length-newest 19 s.history));
        newest_row = entry_of id by s;
        older = newest 19 s.history;
        shape = shape;
        current = refl;
        current_version = refl;
      }

  restored :
      (id new_id : ℕ) (by : String) (s : Saved S) (x : ℕ × Saved S)
      → restore_state_history id new_id by s ≡ ok x
      → (h : HistoryEntry S) × (get_state_history id s.history ≡ some h)
        × (x ≡ (
          s.state_version + 1,
          record_state_history new_id by
              (record s { state = h.state; state_version = s.state_version + 1 }),
        ))
  unfolding restore_state_history
  restored id new_id by s x e = elim (Option-cases (get_state_history id s.history)) [
    | inl p ↦ absurd (err≢ok (rw (p, restore_state_history) at e))
    | inr (h, p) ↦ (h, p, sym (ok-injective (rw (p, restore_state_history) at e)))
  ]

  -- What was current stands second in the history that a restore leaves.
  second :
      (id : ℕ) (by : String) (s : Saved S) (top : HistoryEntry S) (older : List (HistoryEntry S))
      → s.history ≡ top ∷ older
      → IsFresh id s.history
      → get_state_history top.id (record_state_history id by s).history ≡ some top
  unfolding get_state_history
  second id by s top older shape h =
      let before = subst (IsFresh id) shape h in
      let whole = recorded id by s h ∙ ap (λ rows. entry_of id by s ∷ newest 19 rows) shape in
      subst (λ rows. get_state_history top.id rows ≡ some top) (sym whole)
        (rw (other_id id top.id before.0, ==_self top.id) refl)

  restore-found :
      (id new_id : ℕ) (by : String) (s : Saved S) (h : HistoryEntry S)
      → get_state_history id s.history ≡ some h
      → restore_state_history id new_id by s
        ≡ ok (
          s.state_version + 1,
          record_state_history new_id by
              (record s { state = h.state; state_version = s.state_version + 1 }),
        )
  unfolding restore_state_history
  restore-found id new_id by s h e = rw (e, restore_state_history) refl

  recorded_state :
      (id : ℕ) (by : String) (s : Saved S)
      → ((record_state_history id by s).state ≡ s.state)
        × ((record_state_history id by s).state_version ≡ s.state_version)
  unfolding record_state_history
  recorded_state id by s = (refl, refl)

  -- Restoring the entry `top` later gives back the data and moves the version on.
  abbrev pub IsUndone : Saved S → HistoryEntry S → ℕ → String → Saved S → Type 0
  IsUndone s top later_id again t =
      (y : ℕ × Saved S) × (restore_state_history top.id later_id again t ≡ ok y)
      × (y.1.state ≡ s.state)
      × (y.0 ≡ s.state_version + 2)

  undone :
      (new_id later_id : ℕ) (by again : String) (s mid : Saved S) (h : IsHistory s)
      → IsFresh new_id s.history
      → mid.history ≡ s.history
      → mid.state_version ≡ s.state_version + 1
      → IsUndone s h.newest_row later_id again (record_state_history new_id by mid)
  undone new_id later_id by again s mid h fresh same version =
      let t = record_state_history new_id by mid in
      let there =
        second new_id by mid h.newest_row h.older (same ∙ h.shape)
          (subst (IsFresh new_id) (sym same) fresh) in
      let left : Saved S = record t {
        state = h.newest_row.state;
        state_version = t.state_version + 1;
      } in
      (
        (t.state_version + 1, record_state_history later_id again left),
        restore-found h.newest_row.id later_id again t h.newest_row there,
        (recorded_state later_id again left).0 ∙ h.current,
        omega (arith, (recorded_state new_id by mid).1, version),
      )

  -- A restore makes the old data current as a new version, keeps the history in order with the
  -- restored data as its newest entry, and loses nothing that was current: restoring the entry that
  -- was the newest before succeeds, and gives back the data from before the restore as a version that
  -- is newer again.
  pub restore-restore :
      (id new_id later_id : ℕ) (by again : String) (s : Saved S) (x : ℕ × Saved S) (h : IsHistory s)
      → IsFresh new_id s.history
      → restore_state_history id new_id by s ≡ ok x
      → (x.0 ≡ s.state_version + 1)
        × (x.1.state_version ≡ x.0)
        × IsHistory x.1
        × IsUndone s h.newest_row later_id again x.1
  restore-restore id new_id later_id by again s x h fresh e =
      let (old, found, shape) = restored id new_id by s x e in
      let mid : Saved S = record s { state = old.state; state_version = s.state_version + 1 } in
      subst
        (λ (z : ℕ × Saved S).
          (z.0 ≡ s.state_version + 1)
          × (z.1.state_version ≡ z.0)
          × IsHistory z.1
          × IsUndone s h.newest_row later_id again z.1)
        (sym shape)
        (
          refl,
          (recorded_state new_id by mid).1,
          record_state_history-IsHistory new_id by mid h.falling fresh,
          undone new_id later_id by again s mid h fresh refl refl,
        )
