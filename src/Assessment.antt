-- ===== src/Assessment.antt =====
-- src/assessment/windows-protection.mjs: `assessWindowsProtection`, over the observations of an import.
pub mod Executed
pub mod Passed
pub mod Grounds
pub mod Examples
use sec_app.Base.{
  ℕ, ◌+◌, ◌==◌, String, Bool, true, false, not, ◌&&◌, ◌||◌, Option, none, some, List, [], ◌∷◌, ◌++◌,
  str_eq, opt_eq, is_some, any, all, map, length, if◌then◌else◌,
}

-- The parts of the profile (src/assessment/windows-protection-profile.mjs) that the code reads.
pub record Domain : Type 0 where
  pub area : String
  pub schema_id : String
  pub subject : String

pub record Check : Type 0 where
  pub field : String
  pub known : List String
  pub expected : String

pub record Rule : Type 0 where
  pub id : String
  pub area : String
  pub severity : String
  pub checks : List Check

pub record Profile : Type 0 where
  pub domains : List Domain
  pub rules : List Rule

pub record Observation : Type 0 where
  pub run_id : String
  pub observation_id : String
  pub execution_id : String
  pub area : String
  pub data_schema : String
  pub subject_kind : Option String
  pub subject_key : Option String
  pub privacy_class : String
  pub fields : List (String × String)

pub record Execution : Type 0 where
  pub execution_id : String
  pub run_id : String
  pub state : String
  pub observation_ids : List String

-- What an import holds of the two kinds of contract, in its order.
pub record Import : Type 0 where
  pub package_kind : String
  pub observations : List Observation
  pub executions : List Execution

pub data Refusal : Type 0 where
  domain_mismatch duplicate_domain payload_invalid integrity_failed execution_mismatch : Refusal
  run_mismatch : Refusal

pub data Reason : Type 0 where
  unsupported_schema collection_not_succeeded missing_or_unsupported_state missing_observation :
      Reason
  reported_state : Reason

pub data RowOutcome : Type 0 where
  concern no_concern_reported not_tested : RowOutcome

pub data AssessmentStatus : Type 0 where
  untested partial complete : AssessmentStatus

-- An entry of `byArea`.
pub record Selected : Type 0 where
  pub area : String
  pub observation : Option Observation
  pub reason : Option Reason

pub record Tally : Type 0 where
  pub by_area : List Selected
  pub ignored : ℕ

pub record Row : Type 0 where
  pub rule_id : String
  pub outcome : RowOutcome
  pub severity : String
  pub reason : Reason
  pub source : Option String

pub record Report : Type 0 where
  pub status : AssessmentStatus
  pub run_id : Option String
  pub ignored : ℕ
  pub rows : List Row

pub data Assessed {ℓ} (A : Type ℓ) : Type ℓ where
  rejects : Refusal → Assessed A
  assesses : A → Assessed A

-- `find`, with the place of what it finds.
abbrev pub find_at {ℓ} : {A : Type ℓ} → (A → Bool) → List A → ℕ → Option (ℕ × A)
find_at p [] i = none
find_at p (x ∷ xs) i = let rest = find_at p xs (i + 1) in if p x then some (i, x) else rest

abbrev pub find {ℓ} : {A : Type ℓ} → (A → Bool) → List A → Option A
find p [] = none
find p (x ∷ xs) = let rest = find p xs in if p x then some x else rest

-- `executions.get`: the last execution of an id, after the one `found` so far.
abbrev pub execution_of : Option Execution → List Execution → String → Option Execution
execution_of found [] id = found
execution_of found (x ∷ xs) id =
    execution_of (if str_eq x.execution_id id then some x else found) xs id

-- `schemaDomain && schemaDomain !== domain`
abbrev pub other_domain : Option (ℕ × Domain) → Option (ℕ × Domain) → Bool
other_domain none domain = false
other_domain (some x) none = true
other_domain (some x) (some y) = not (x.0 == y.0)

abbrev pub is_mismatched : Option Execution → Observation → Bool
is_mismatched none o = false
is_mismatched (some x) o =
    not (str_eq x.run_id o.run_id) || not (any (str_eq o.observation_id) x.observation_ids)

-- `failedCollection`
abbrev pub has_failed : String → Option Execution → Bool
has_failed kind none = str_eq kind "AuditPackageZip"
has_failed kind (some x) = not (any (str_eq x.state) ("Succeeded" ∷ "Partial" ∷ []))

abbrev pub is_foreign : Domain → Observation → Bool
is_foreign d o =
    not (opt_eq o.subject_kind (some "SecurityControl"))
    || not (opt_eq o.subject_key (some d.subject))
    || not (str_eq o.privacy_class "SensitiveSecurityData")

-- `validateObservation(...) === true`, and `verifyContractIntegrity` of
-- src/import/import-normalization.mjs, which throws where it does not hold.
module _ (valid : Observation → Bool) (intact : Observation → Bool) (profile : Profile) where
  -- The rest of a round, on an observation of the domain's own schema.
  unfoldable pub accept : String → Option Execution → Tally → Domain → Observation → Assessed Tally
  accept kind execution t d o =
      if is_foreign d o
      then rejects domain_mismatch
      else if not (valid o)
      then rejects payload_invalid
      else if not (intact o)
      then rejects integrity_failed
      else if is_mismatched execution o
      then rejects execution_mismatch
      else assesses (record t {
        by_area =
            t.by_area
            ++ record {
              area = d.area;
              observation = some o;
              reason = if has_failed kind execution then some collection_not_succeeded else none;
            }
              ∷ [];
      })

  abbrev pub in_domain :
      String → Option Execution → Tally → Option (ℕ × Domain) → Observation → Assessed Tally
  in_domain kind execution t none o = assesses (record t { ignored = t.ignored + 1 })
  in_domain kind execution t (some (i, d)) o =
      if any (λ (s : Selected). str_eq s.area d.area) t.by_area
      then rejects duplicate_domain
      else if not (str_eq o.data_schema d.schema_id)
      then assesses (record t {
        by_area =
            t.by_area
            ++ record { area = d.area; observation = none; reason = some unsupported_schema } ∷ [];
      })
      else accept kind execution t d o

  -- One round of the loop over the observations.
  unfoldable pub observe : Import → Tally → Observation → Assessed Tally
  observe i t o =
      let domain = find_at (λ (d : Domain). str_eq d.area o.area) profile.domains 0 in
      let by_schema =
        find_at (λ (d : Domain). str_eq d.schema_id o.data_schema) profile.domains 0 in
      if other_domain by_schema domain
      then rejects domain_mismatch
      else in_domain i.package_kind (execution_of none i.executions o.execution_id) t domain o

  abbrev pub chained : Assessed Tally → (Tally → Assessed Tally) → Assessed Tally
  chained (rejects r) next = rejects r
  chained (assesses t) next = next t

  unfoldable pub collect : Import → Tally → List Observation → Assessed Tally
  collect i t [] = assesses t
  collect i t (o ∷ os) = chained (observe i t o) (λ next. collect i next os)

  abbrev pub value_of : List (String × String) → String → Option String
  value_of [] field = none
  value_of ((k, v) ∷ rest) field =
      let more = value_of rest field in if str_eq k field then some v else more

  -- `check.known.includes(observation.data[check.field])`
  abbrev pub is_listed : List String → Option String → Bool
  is_listed known none = false
  is_listed known (some v) = any (str_eq v) known

  abbrev pub is_known : Observation → Rule → Bool
  is_known o r = all (λ (c : Check). is_listed c.known (value_of o.fields c.field)) r.checks

  abbrev pub has_concern : Observation → Rule → Bool
  has_concern o r =
      any (λ (c : Check). not (opt_eq (value_of o.fields c.field) (some c.expected))) r.checks

  abbrev pub missing_row : Rule → Reason → Option String → Row
  missing_row r why source = record {
    rule_id = r.id;
    outcome = not_tested;
    severity = "Info";
    reason = why;
    source = source;
  }

  -- The row of a rule on an observation without a reason against it.
  abbrev pub known_row : Rule → Observation → Row
  known_row r o = record {
    rule_id = r.id;
    outcome = if has_concern o r then concern else no_concern_reported;
    severity = if has_concern o r then r.severity else "Info";
    reason = reported_state;
    source = some o.observation_id;
  }

  abbrev pub observed_row : Rule → Observation → Option Reason → Row
  observed_row r o (some why) = missing_row r why (some o.observation_id)
  observed_row r o none =
      if is_known o r
      then known_row r o
      else missing_row r missing_or_unsupported_state (some o.observation_id)

  abbrev or_missing : Option Reason → Reason
  or_missing none = missing_observation
  or_missing (some why) = why

  abbrev pub selected_row : Rule → Option Selected → Row
  selected_row r none = missing_row r missing_observation none
  selected_row r (some s) = elim s.observation [
    | none ↦ missing_row r (or_missing s.reason) none
    | some o ↦ observed_row r o s.reason
  ]

  unfoldable pub row_of : List Selected → Rule → Row
  row_of by_area r = selected_row r (find (λ (s : Selected). str_eq s.area r.area) by_area)

  -- `runIds.size > 1`
  abbrev pub run_ids_differ : List Observation → Bool
  run_ids_differ [] = false
  run_ids_differ (o ∷ os) = any (λ (x : Observation). not (str_eq o.run_id x.run_id)) os

  abbrev pub first_run : List Observation → Option String
  first_run [] = none
  first_run (o ∷ os) = some o.run_id

  abbrev is_untested : RowOutcome → Bool
  is_untested not_tested = true
  is_untested _ = false

  abbrev pub status_of : List Row → AssessmentStatus
  status_of rows =
      if all (λ (x : Row). is_untested x.outcome) rows
      then untested
      else if any (λ (x : Row). is_untested x.outcome) rows
      then partial
      else complete

  unfoldable pub report_on : Import → Tally → Report
  unfolding row_of
  report_on i t = record {
    status = status_of (map (row_of t.by_area) profile.rules);
    run_id = first_run i.observations;
    ignored = t.ignored;
    rows = map (row_of t.by_area) profile.rules;
  }

  abbrev pub concluded : Import → Assessed Tally → Assessed Report
  concluded i (rejects r) = rejects r
  concluded i (assesses t) =
      if run_ids_differ i.observations then rejects run_mismatch else assesses (report_on i t)

  unfoldable pub assess_windows_protection : Import → Assessed Report
  assess_windows_protection i =
      concluded i (collect i (record { by_area = []; ignored = 0 }) i.observations)
