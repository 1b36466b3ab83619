-- ===== src/SavedState.antt =====
-- internal/db/site_access.go: the history of a site's saved data. A site's rows of
-- `site_state_history` are a list in the order of their ids, the newest first; the next id of the
-- table's sequence is an argument.
pub mod Restoring
mod Tests
use simple_host_enterprise.Common.{
  ℕ, zero, suc, ◌+◌, String, Bool, Option, none, some, List, [], ◌∷◌, String_eq, ◌==◌, ℕ_eq, ltb,
  if◌then◌else◌, Result, ok, err,
}

abbrev pub max_state_history : ℕ
max_state_history = 20

-- `StateHistoryEntry`; `S` is the saved data.
pub record HistoryEntry (S : Type 0) : Type 0 where
  pub id : ℕ
  pub state_version : ℕ
  pub state : S
  pub written_by : Option String

-- The columns of the site, and its history.
pub record Saved (S : Type 0) : Type 0 where
  pub state : S
  pub state_version : ℕ
  pub history : List (HistoryEntry S)

pub data StateError : Type 0 where
  no_rows : StateError

module _ {S : Type 0} where
  -- A row in its place by `ORDER BY id DESC`.
  unfoldable pub insert_row : HistoryEntry S → List (HistoryEntry S) → List (HistoryEntry S)
  insert_row e [] = e ∷ []
  insert_row e (r ∷ rows) =
      let rest = insert_row e rows in if ltb r.id e.id then e ∷ r ∷ rows else r ∷ rest

  -- `LIMIT`.
  abbrev pub newest : ℕ → List (HistoryEntry S) → List (HistoryEntry S)
  newest zero rows = []
  newest (suc n) [] = []
  newest (suc n) (r ∷ rows) = r ∷ newest n rows

  -- `RecordStateHistory`: an empty name is stored as NULL.
  unfoldable pub record_state_history : ℕ → String → Saved S → Saved S
  record_state_history id written_by s = record s {
    history = newest max_state_history (
        insert_row
          (record {
            id = id;
            state_version = s.state_version;
            state = s.state;
            written_by = if written_by == "" then none else some written_by;
          })
          s.history);
  }

  -- `GetStateHistory`.
  unfoldable pub get_state_history : ℕ → List (HistoryEntry S) → Option (HistoryEntry S)
  get_state_history id [] = none
  get_state_history id (r ∷ rows) = if r.id == id then some r else get_state_history id rows

  -- `RestoreStateHistory`: the new version, and the site.
  unfoldable pub restore_state_history : ℕ → ℕ → String → Saved S → Result StateError (ℕ × Saved S)
  restore_state_history id new_id actor_id s = elim (get_state_history id s.history) [
    | none ↦ err no_rows
    | some h ↦ ok (
      s.state_version + 1,
      record_state_history new_id actor_id
          (record s { state = h.state; state_version = s.state_version + 1 }),
    )
  ]
