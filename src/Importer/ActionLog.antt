-- ===== src/Importer/ActionLog.antt =====
-- src/import/import-normalization.mjs: `verifyActionLog`.
pub mod Chain
mod Examples
use sec_app.Base.{
  ℕ, ◌+◌, ◌==◌, Ordering, String, Bool, true, false, not, ◌||◌, Option, none, some, List, [], ◌∷◌,
  ◌++◌, ltb, str_eq, opt_eq, any, if◌then◌else◌,
}
use sec_app.Data.Json.{Json, num, str, object, array, nullable}
use sec_app.Data.Jcs.{jcs_sha256}
use sec_app.Data.Order.{compare_unicode_code_units}
use sec_app.Importer.Checked.{digest_mismatch, Checked, accepts, ◌>>◌, reject_if}

-- An entry by the keys that are read; `digest_keys` are those of `entry_digest` beside its digest, and
-- `others` those of the entry.
pub record LogEntry : Type 0 where
  pub sequence_number : ℕ
  pub previous_entry_digest : Option String
  pub entry_digest : String
  pub digest_keys : List (String × Json)
  pub audit_run_id : String
  pub action_id : String
  pub timestamp : String
  pub others : List (String × Json)

pub record Log : Type 0 where
  pub run_id : String
  pub entries : List LogEntry
  pub log_digest : String
  pub digest_keys : List (String × Json)
  pub others : List (String × Json)

-- An entry without its `entry_digest`.
pub entry_body : LogEntry → List (String × Json)
entry_body e =
    ("sequence_number", num e.sequence_number)
    ∷ ("previous_entry_digest", nullable str e.previous_entry_digest)
    ∷ ("audit_run_id", str e.audit_run_id)
    ∷ ("action_id", str e.action_id)
    ∷ ("timestamp", str e.timestamp)
    ∷ e.others

pub entry_json : LogEntry → Json
unfolding entry_body
entry_json e =
    object
      (("entry_digest", object (("digest", str e.entry_digest) ∷ e.digest_keys)) ∷ entry_body e)

-- `sort`, which keeps the order of equal numbers.
unfoldable pub insert : LogEntry → List LogEntry → List LogEntry
insert e [] = e ∷ []
insert e (x ∷ xs) =
    let rest = insert e xs in
    if ltb e.sequence_number x.sequence_number then e ∷ x ∷ xs else x ∷ rest

unfoldable pub sort_from : List LogEntry → List LogEntry → List LogEntry
unfolding insert
sort_from sorted [] = sorted
sort_from sorted (e ∷ es) = sort_from (insert e sorted) es

-- `priorTimestamp !== null && entry.timestamp < priorTimestamp`
abbrev pub is_earlier : String → Option String → Bool
is_earlier t none = false
is_earlier t (some prior) = elim (compare_unicode_code_units t prior) [
  | Ordering.lt ↦ true
  | _ ↦ false
]

-- `sha256` is SHA-256 of a text's UTF-8 bytes.
module _ (sha256 : String → String) where
  unfoldable pub entry_seal : LogEntry → String
  unfolding jcs_sha256 entry_body
  entry_seal e = jcs_sha256 sha256 (object (entry_body e))

  -- The digest over `normalized` without `log_digest.digest`, for its entries in order.
  unfoldable pub log_seal : Log → List LogEntry → String
  unfolding jcs_sha256 entry_json
  log_seal log sorted = jcs_sha256 sha256 (
      object (
        ("run_id", str log.run_id)
        ∷ ("entries", array entry_json sorted)
        ∷ ("log_digest", object log.digest_keys)
        ∷ log.others))

  abbrev pub is_broken : String → ℕ → Option String → Option String → List String → LogEntry → Bool
  is_broken run index previous prior seen e =
      not (e.sequence_number == index)
      || not (opt_eq e.previous_entry_digest previous)
      || not (str_eq (entry_seal e) e.entry_digest)
      || not (str_eq e.audit_run_id run)
      || any (str_eq e.action_id) seen
      || is_earlier e.timestamp prior

  -- The loop, with its index, `previous`, `priorTimestamp` and `actionIds`.
  unfoldable pub check_entries :
      String → ℕ → Option String → Option String → List String → List LogEntry → Checked (Unit {0})
  unfolding entry_seal
  check_entries run index previous prior seen [] = accepts tt
  check_entries run index previous prior seen (e ∷ es) = do
    reject_if (is_broken run index previous prior seen e) digest_mismatch
    check_entries run (index + 1) (some (entry_seal e)) (some e.timestamp) (e.action_id ∷ seen) es

  unfoldable pub verify_action_log : Log → Checked (Unit {0})
  unfolding check_entries sort_from log_seal
  verify_action_log log = do
    let sorted = sort_from [] log.entries
    check_entries log.run_id 0 none none [] sorted
    reject_if (not (str_eq (log_seal log sorted) log.log_digest)) digest_mismatch
