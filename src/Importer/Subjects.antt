-- ===== src/Importer/Subjects.antt =====
-- The contracts of an audit package, by the fields that src/import/import-manifest.mjs reads.
use sec_app.Base.{String, Bool, Option, none, some, List, [], ◌∷◌}

pub data PassKind : Type 0 where
  standard elevated reboot_continuation post_reboot : PassKind

pub record ManifestReference : Type 0 where
  pub manifest_id : String
  pub logical_path : String

pub record LogReference : Type 0 where
  pub action_log_id : String
  pub logical_path : String
  pub log_digest : String

pub record PassReference : Type 0 where
  pub pass_id : String
  pub kind : PassKind
  pub privilege_class : String
  pub logical_path : String
  pub object_digest : String

pub record ObjectReference : Type 0 where
  pub object_id : String
  pub object_digest : String

pub record AuditRun : Type 0 where
  pub run_id : String
  pub manifest_reference : ManifestReference
  pub action_log_reference : LogReference
  pub pass_references : List PassReference
  pub execution_references : List ObjectReference
  pub observation_references : List ObjectReference
  pub evidence_references : List ObjectReference
  pub finding_references : List ObjectReference
  pub consent_receipt_ids : List String

-- `object_digest` is `integrity?.object_digest`.
pub record AuditPass : Type 0 where
  pub pass_id : String
  pub run_id : String
  pub kind : PassKind
  pub privilege_class : String
  pub prerequisite_pass_ids : List String
  pub collector_execution_ids : List String
  pub object_digest : Option String

pub record Execution : Type 0 where
  pub execution_id : String
  pub run_id : String
  pub pass_id : String
  pub privilege : String
  pub collector_id : String
  pub collector_version : String
  pub collector_definition_digest : String
  pub observation_ids : List String
  pub object_digest : Option String

pub record Observation : Type 0 where
  pub observation_id : String
  pub run_id : String
  pub execution_id : String
  pub evidence_ids : List String
  pub object_digest : Option String

pub record Evidence : Type 0 where
  pub evidence_id : String
  pub run_id : String
  pub observation_id : String
  pub logical_path : String
  pub object_digest : Option String

pub record Finding : Type 0 where
  pub finding_id : String
  pub run_id : String
  pub rule_id : String
  pub rule_version : String
  pub rule_definition_digest : String
  pub observation_ids : List String
  pub evidence_ids : List String
  pub object_digest : Option String

-- A CollectorDefinition or a RuleDefinition.
pub record Definition : Type 0 where
  pub id : String
  pub version : String
  pub object_digest : String

-- The log's entries by their `audit_run_id`.
pub record ActionLog : Type 0 where
  pub action_log_id : String
  pub run_id : String
  pub log_digest : String
  pub entry_run_ids : List String

pub data Contract : Type 0 where
  audit_run : AuditRun → Contract
  audit_pass : AuditPass → Contract
  collector_execution : Execution → Contract
  observation : Observation → Contract
  evidence_reference : Evidence → Contract
  finding : Finding → Contract
  collector_definition : Definition → Contract
  rule_definition : Definition → Contract
  action_log : ActionLog → Contract
  -- a ConsentReceipt by its receipt_id and audit_run_id
  consent_receipt : String → String → Contract
  -- a RebootContinuationState by its expected_run_id
  reboot_continuation_state : String → Contract
  other_contract : Contract

pub record Subject : Type 0 where
  pub logical_path : String
  pub contract : Contract

-- The fields of an AuditManifest; `has_observed_identity` is of its `backend`.
pub record AuditManifest : Type 0 where
  pub run_id : String
  pub manifest_id : String
  pub action_log_reference : LogReference
  pub has_observed_identity : Bool
  pub availability_state : String

-- A value with the logical path of its subject.
pub record Located (A : Type 0) : Type 0 where
  pub path : String
  pub value : A

-- `subjects.filter((item) => item.contractKind === kind)`, with the values of that kind.
abbrev pub select : {A : Type 0} → (Contract → Option A) → List Subject → List (Located A)
select as_kind [] = []
select as_kind (s ∷ ss) =
    let rest = select as_kind ss in
    elim (as_kind s.contract) [
      | none ↦ rest
      | some x ↦ record { path = s.logical_path; value = x } ∷ rest
    ]

abbrev pub as_run : Contract → Option AuditRun
as_run (audit_run x) = some x
as_run _ = none

abbrev pub as_pass : Contract → Option AuditPass
as_pass (audit_pass x) = some x
as_pass _ = none

abbrev pub as_execution : Contract → Option Execution
as_execution (collector_execution x) = some x
as_execution _ = none

abbrev pub as_observation : Contract → Option Observation
as_observation (observation x) = some x
as_observation _ = none

abbrev pub as_evidence : Contract → Option Evidence
as_evidence (evidence_reference x) = some x
as_evidence _ = none

abbrev pub as_finding : Contract → Option Finding
as_finding (finding x) = some x
as_finding _ = none

abbrev pub as_collector : Contract → Option Definition
as_collector (collector_definition x) = some x
as_collector _ = none

abbrev pub as_rule : Contract → Option Definition
as_rule (rule_definition x) = some x
as_rule _ = none

abbrev pub as_log : Contract → Option ActionLog
as_log (action_log x) = some x
as_log _ = none

-- a receipt's own id
abbrev pub as_receipt : Contract → Option String
as_receipt (consent_receipt id run) = some id
as_receipt _ = none
