-- ===== src/Importer/ActionLog/Examples.antt =====
-- A log whose entries stand in another order than their numbers, and one that repeats an action.
use sec_app.Base.{ℕ, String, Option, none, some, List, [], ◌∷◌, ◌≡◌, refl}
use sec_app.Data.Jcs.{jcs_sha256}
use sec_app.Data.Order.{compare_unicode_code_units}
use sec_app.Importer.Checked.{accepts, rejects, digest_mismatch, reject_if, ◌>>◌}
use sec_app.Importer.ActionLog.{
  LogEntry, Log, insert, sort_from, entry_seal, log_seal, check_entries, verify_action_log,
}
use sec_app.Importer.ActionLog.Chain.{Chained, verify_action_log-Chained}

-- Stands in for SHA-256.
abbrev flat : String → String
flat s = "d"

abbrev entry : ℕ → Option String → String → String → LogEntry
entry n previous action t = record {
  sequence_number = n;
  previous_entry_digest = previous;
  entry_digest = "d";
  digest_keys = [];
  audit_run_id = "run";
  action_id = action;
  timestamp = t;
  others = [];
}

abbrev log_of : List LogEntry → Log
log_of entries = record {
  run_id = "run";
  entries = entries;
  log_digest = "d";
  digest_keys = [];
  others = [];
}

abbrev second_first : List LogEntry
second_first = entry 1 (some "d") "b" "2026-01-02" ∷ entry 0 none "a" "2026-01-01" ∷ []

chained : verify_action_log flat (log_of second_first) ≡ accepts tt
unfolding verify_action_log check_entries entry_seal log_seal sort_from insert jcs_sha256
    compare_unicode_code_units reject_if ◌>>◌
chained = refl

repeated_action :
    verify_action_log flat (log_of (entry 0 none "a" "1" ∷ entry 1 (some "d") "a" "1" ∷ []))
    ≡ rejects digest_mismatch
unfolding verify_action_log check_entries entry_seal log_seal sort_from insert jcs_sha256
    compare_unicode_code_units reject_if ◌>>◌
repeated_action = refl

verify_action_log-Chained_example : Chained flat (log_of second_first)
verify_action_log-Chained_example = verify_action_log-Chained flat (log_of second_first) chained
