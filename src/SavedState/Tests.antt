-- ===== src/SavedState/Tests.antt =====
-- The theorems on the history of saved data at a site that was written twice.
use simple_host_enterprise.Common.{
  ℕ, ◌+◌, String, ◌≡◌, refl, some, [], ◌∷◌, arith, String_eq, ℕ_eq, ok,
}
use simple_host_enterprise.SavedState.{
  HistoryEntry, Saved, insert_row, record_state_history, get_state_history, restore_state_history,
}
use simple_host_enterprise.SavedState.Restoring.{
  IsHistory, IsUndone, record_state_history-IsHistory, restore-restore,
}

abbrev row : ℕ → ℕ → String → HistoryEntry String
row id version saved = record {
  id = id;
  state_version = version;
  state = saved;
  written_by = some "ann";
}

abbrev written : Saved String
written = record { state = "second"; state_version = 2; history = row 1 1 "first" ∷ [] }

abbrev site : Saved String
site = record {
  state = "second";
  state_version = 2;
  history = row 4 2 "second" ∷ row 1 1 "first" ∷ [];
}

abbrev restored_site : Saved String
restored_site = record {
  state = "first";
  state_version = 3;
  history = row 6 3 "first" ∷ row 4 2 "second" ∷ row 1 1 "first" ∷ [];
}

site_recorded : record_state_history 4 "ann" written ≡ site
unfolding record_state_history insert_row
site_recorded = refl

site_restored : restore_state_history 1 6 "ann" site ≡ ok (3, restored_site)
unfolding restore_state_history get_state_history record_state_history insert_row
site_restored = refl

record_state_history-IsHistory_example : IsHistory (record_state_history 4 "ann" written)
record_state_history-IsHistory_example =
    record_state_history-IsHistory 4 "ann" written (tt, tt) (omega arith, tt)

abbrev known_site : IsHistory site
known_site = record {
  falling = ((omega arith, tt), (tt, tt));
  limited = omega arith;
  newest_row = row 4 2 "second";
  older = row 1 1 "first" ∷ [];
  shape = refl;
  current = refl;
  current_version = refl;
}

restore-restore_example :
    (◌≡◌ {A = ℕ} 3 (2 + 1))
    × (restored_site.state_version ≡ 3)
    × IsHistory restored_site
    × IsUndone site (row 4 2 "second") 8 "bob" restored_site
restore-restore_example =
    restore-restore 1 6 8 "ann" "bob" site (3, restored_site) known_site
      (omega arith, (omega arith, tt)) site_restored
