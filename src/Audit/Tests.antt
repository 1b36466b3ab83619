-- ===== src/Audit/Tests.antt =====
-- The theorems on the audit chain at a chain of two events under a toy digest, and runs of the
-- renderer on the numbers that the comment of `numericText` names.
use mathlib.Core.Option.{some-injective}
use simple_host_enterprise.Common.{
  sym, ◌∙◌, subst, All, ◌⊎◌, String, ◌%◌, ◌≡◌, ◌≢◌, ◌↔◌, ◌⊎◌, refl, false, none, some, List, [],
  ◌∷◌, Bytes, codes, length, sum_by, ok,
}
use simple_host_enterprise.Common.Text.{has_prefix}
use simple_host_enterprise.Audit.Numeric.{
  numeric_text, split_exponent, split_at, atoi, digits_value, is_number, scaled, padded, plain_text,
  trim_zeros,
}
use simple_host_enterprise.Audit.Json.{
  Value, null, number, object, no_members, member_and, without_key, jsonb_minus_key, escape_byte,
  escape, write_text, bytes_less, key_less, insert_member, sort_members, join_members, write_value,
}
use simple_host_enterprise.Audit.Canonical.{ChainedEvent, chained_detail, event_members, canonical}
use simple_host_enterprise.Audit.Chain.{
  ChainRow, ChainHead, ChainReport, check_hash, check_event, check_link, check_row, walk, check_end,
  is_pruned, verify_chain, last_older, delete_to, trim_chain,
}
use simple_host_enterprise.Audit.Intact.{IsIntact, verify_chain_iff}
use simple_host_enterprise.Audit.Trimming.{no_expectation, trim_chain-IsIntact}
use simple_host_enterprise.Audit.History.{
  Change, append, fresh, zero_bytes, change_all, Verdict, history_verifies,
}
use simple_host_enterprise.Audit.Fields.{IsReadable}
use simple_host_enterprise.Audit.Values.{HasPlainNumbers, MembersPlain}
use simple_host_enterprise.Audit.Evidence.{AnyCollide, AllSame, IsReadableRow, tamper_evident}

fraction : numeric_text (codes "1.50e1") ≡ ok (codes "15.0")
unfolding numeric_text split_exponent split_at atoi digits_value is_number scaled padded plain_text
    trim_zeros has_prefix
fraction = refl

thousand : numeric_text (codes "1e3") ≡ ok (codes "1000")
unfolding numeric_text split_exponent split_at atoi digits_value is_number scaled padded plain_text
    trim_zeros has_prefix
thousand = refl

small : numeric_text (codes "-1.5e-3") ≡ ok (codes "-0.0015")
unfolding numeric_text split_exponent split_at atoi digits_value is_number scaled padded plain_text
    trim_zeros has_prefix
small = refl

-- A digest of 32 bytes.
abbrev digest : Bytes → Bytes
digest s = (sum_by (λ c. c) s % 256) ∷ zero_bytes 31

width : (s : Bytes) → length (digest s) ≡ 32
width s = refl

abbrev event : String → Value → ChainedEvent
event action detail = record {
  id = codes "1";
  at = codes "2026-01-02T03:04:05.000000Z";
  request_id = none;
  actor_id = none;
  actor_kind = codes "user";
  key_id = none;
  action = codes action;
  owner_id = none;
  site_id = none;
  team_id = none;
  via_site_label = none;
  via_site_name = none;
  via_site_observed = false;
  ip = none;
  user_agent = none;
  detail = some detail;
}

abbrev changes : List Change
changes =
    append 1 5 (event "sign_in" null)
    ∷ append 2 9
        (event "state_write" (object (member_and (codes "count") (number (codes "3")) no_members)))
    ∷ []

history_verifies_example :
    (report : ChainReport) × (verify_chain digest no_expectation
        (change_all digest changes fresh).0
        (change_all digest changes fresh).1
      ≡ ok report)
    × Verdict digest (change_all digest changes fresh) report
history_verifies_example = history_verifies digest changes

abbrev first_hash : Bytes
first_hash = 75 ∷ zero_bytes 31

abbrev second_hash : Bytes
second_hash = 151 ∷ zero_bytes 31

abbrev first_row : ChainRow
first_row = record {
  seq = 1;
  event_id = 1;
  event_at = 5;
  prev_hash = zero_bytes 32;
  hash = first_hash;
  event = some (event "sign_in" null);
}

-- The second event is a write of saved data; its count is not part of the canonical form.
abbrev second_row : String → ChainRow
second_row count = record {
  seq = 2;
  event_id = 2;
  event_at = 9;
  prev_hash = first_hash;
  hash = second_hash;
  event =
      some (
        event "state_write"
          (object (member_and (codes "count") (number (codes count)) no_members)));
}

abbrev rows : String → List ChainRow
rows count = first_row ∷ second_row count ∷ []

abbrev head : ChainHead
head = record { seq = 2; hash = second_hash }

abbrev report : ChainReport
report = record { rows = 2; first_seq = 1; head = head; break = none; expect_pruned = false }

verified : verify_chain digest no_expectation head (rows "3") ≡ ok report
unfolding verify_chain walk check_row check_link check_event check_hash check_end is_pruned
    canonical event_members write_value sort_members insert_member join_members key_less bytes_less
    write_text escape escape_byte chained_detail jsonb_minus_key without_key numeric_text
    split_exponent split_at atoi digits_value is_number scaled padded plain_text trim_zeros
    has_prefix
verified = refl

recounted : verify_chain digest no_expectation head (rows "4") ≡ ok report
unfolding verify_chain walk check_row check_link check_event check_hash check_end is_pruned
    canonical event_members write_value sort_members insert_member join_members key_less bytes_less
    write_text escape escape_byte chained_detail jsonb_minus_key without_key numeric_text
    split_exponent split_at atoi digits_value is_number scaled padded plain_text trim_zeros
    has_prefix
recounted = refl

verify_chain_iff_example :
    ((r : ChainReport) × (verify_chain digest no_expectation head (rows "3") ≡ ok r)
      × (r.break ≡ none))
    ↔ IsIntact digest no_expectation head (rows "3")
verify_chain_iff_example = verify_chain_iff digest no_expectation head (rows "3")

intact : IsIntact digest no_expectation head (rows "3")
intact = (verify_chain_iff digest no_expectation head (rows "3")).0 (report, verified, refl)

also-IsIntact : IsIntact digest no_expectation head (rows "4")
also-IsIntact = (verify_chain_iff digest no_expectation head (rows "4")).0 (report, recounted, refl)

trimmed : trim_chain 7 (rows "3") ≡ second_row "3" ∷ []
unfolding trim_chain last_older delete_to
trimmed = refl

some_left : trim_chain 7 (rows "3") ≢ []
unfolding trim_chain last_older delete_to
some_left h = cc

trim_chain-IsIntact_example : IsIntact digest no_expectation head (trim_chain 7 (rows "3"))
trim_chain-IsIntact_example =
    trim_chain-IsIntact digest no_expectation head (rows "3") 7 intact some_left

readable_row : (r : ChainRow) (e : ChainedEvent) → r.event ≡ some e → IsReadable e → IsReadableRow r
readable_row r e there h f found = subst IsReadable (some-injective e f (sym there ∙ found)) h

readable_rows : All IsReadableRow (rows "3") × All IsReadableRow (rows "4")
unfolding HasPlainNumbers MembersPlain chained_detail jsonb_minus_key without_key
readable_rows =
    let first = readable_row first_row (event "sign_in" null) refl (refl, tt) in
    let second : (count : String) → IsReadableRow (second_row count) =
      λ count. readable_row (second_row count) _ refl (refl, tt) in
    ((first, (second "3", tt)), (first, (second "4", tt)))

tamper_evident_example : AnyCollide digest (rows "3") (rows "4") ⊎ AllSame (rows "3") (rows "4")
tamper_evident_example =
    tamper_evident digest width no_expectation no_expectation head head first_row first_row
      (second_row "3" ∷ []) (second_row "4" ∷ []) report report readable_rows.0 readable_rows.1
      verified refl recounted refl refl refl refl refl
