-- ===== src/Importer/References.antt =====
-- src/import/import-manifest.mjs: `finalizeAuditPackage` and the checks of an audit package's references
-- that it calls.
use sec_app.Base.{
  ℕ, ◌+◌, ◌==◌, String, Bool, false, not, ◌&&◌, ◌||◌, Option, none, some, List, [], ◌∷◌, ◌++◌,
  str_eq, any, if◌then◌else◌,
}
use sec_app.Importer.Checked.{
  reference_set_mismatch, manifest_required_role_missing, run_id_mismatch,
  backend_identity_state_conflict, Checked, rejects, accepts, ◌>>=◌, ◌>>◌, reject_if, each, get,
}
use sec_app.Importer.Subjects.{
  LogReference, AuditRun, AuditPass, Execution, Observation, Evidence, Finding, Definition,
  ActionLog, Contract, audit_pass, collector_execution, observation, evidence_reference, finding,
  consent_receipt, reboot_continuation_state, Subject, AuditManifest, Located, select, as_run,
  as_execution, as_observation, as_evidence, as_finding, as_collector, as_rule, as_log, as_receipt,
}
use sec_app.Importer.Members.{
  pass_key, execution_key, observation_key, evidence_key, finding_key, definition_key, receipt_key,
  has, index_kind, exact_ids, validate_role_paths, validate_object_references,
}
use sec_app.Importer.Passes.{validate_passes}

-- An entry of `ownership`: an execution's id and a pass's.
abbrev pub Owned : Type 0
Owned = String × String

abbrev pub owner_key : Owned → String
owner_key o = o.0

-- The inner loop over a pass's `collector_execution_ids`.
unfoldable pub own_ids :
    List (Located Execution) → String → List Owned → List String → Checked (List Owned)
own_ids executions pass owned [] = accepts owned
own_ids executions pass owned (id ∷ ids) = do
  reject_if (has owner_key owned id || not (has execution_key executions id)) reference_set_mismatch
  own_ids executions pass (owned ++ (id, pass) ∷ []) ids

unfoldable pub own :
    List (Located Execution) → List Owned → List (Located AuditPass) → Checked (List Owned)
own executions owned [] = accepts owned
own executions owned (p ∷ ps) = do
  next ← own_ids executions p.value.pass_id owned p.value.collector_execution_ids
  own executions next ps

abbrev pub count_id : String → List String → ℕ
count_id id [] = 0
count_id id (x ∷ xs) = let rest = count_id id xs in if str_eq x id then rest + 1 else rest

abbrev pub is_owned_by : Option Owned → String → Bool
is_owned_by none pass = false
is_owned_by (some o) pass = str_eq o.1 pass

abbrev pub has_privilege : Option (Located AuditPass) → String → Bool
has_privilege none privilege = false
has_privilege (some p) privilege = str_eq p.value.privilege_class privilege

abbrev pub is_version : Option (Located Definition) → String → String → Bool
is_version none version digest = false
is_version (some d) version digest =
    str_eq d.value.version version && str_eq d.value.object_digest digest

-- `observations.get(id)?.value.execution_id === execution_id`
abbrev pub comes_from : Option (Located Observation) → String → Bool
comes_from none id = false
comes_from (some o) id = str_eq o.value.execution_id id

abbrev pub shows : Option (Located Evidence) → String → Bool
shows none id = false
shows (some e) id = str_eq e.value.observation_id id

abbrev pub lists_observation : Option (Located Execution) → String → Bool
lists_observation none id = false
lists_observation (some x) id = count_id id x.value.observation_ids == 1

abbrev pub lists_evidence : Option (Located Observation) → String → Bool
lists_evidence none id = false
lists_evidence (some o) id = count_id id o.value.evidence_ids == 1

-- The maps of `validateGraphLinks`.
pub record Maps : Type 0 where
  pub executions : List (Located Execution)
  pub observations : List (Located Observation)
  pub evidence : List (Located Evidence)
  pub findings : List (Located Finding)
  pub definitions : List (Located Definition)
  pub rules : List (Located Definition)

unfoldable pub index_subjects : List Subject → Checked Maps
index_subjects subjects = do
  executions ← index_kind execution_key [] (select as_execution subjects)
  observations ← index_kind observation_key [] (select as_observation subjects)
  evidence ← index_kind evidence_key [] (select as_evidence subjects)
  findings ← index_kind finding_key [] (select as_finding subjects)
  definitions ← index_kind definition_key [] (select as_collector subjects)
  rules ← index_kind definition_key [] (select as_rule subjects)
  accepts (record {
    executions = executions;
    observations = observations;
    evidence = evidence;
    findings = findings;
    definitions = definitions;
    rules = rules;
  })

-- The rounds of the loops of `validateGraphLinks`.
module _ (passes : List (Located AuditPass)) (m : Maps) where
  unfoldable pub check_execution : List Owned → Located Execution → Checked (Unit {0})
  check_execution owned x = do
    reject_if
        (not (is_owned_by (get owner_key owned x.value.execution_id) x.value.pass_id)
          || not (has_privilege (get pass_key passes x.value.pass_id) x.value.privilege))
        reference_set_mismatch
    reject_if
        (not (
          is_version (get definition_key m.definitions x.value.collector_id)
            x.value.collector_version x.value.collector_definition_digest))
        reference_set_mismatch
    each
        (λ id.
          reject_if (not (comes_from (get observation_key m.observations id) x.value.execution_id))
            reference_set_mismatch)
        x.value.observation_ids

  unfoldable pub check_observation : Located Observation → Checked (Unit {0})
  check_observation o = do
    reject_if
        (not (
          lists_observation (get execution_key m.executions o.value.execution_id)
            o.value.observation_id))
        reference_set_mismatch
    each
        (λ id.
          reject_if (not (shows (get evidence_key m.evidence id) o.value.observation_id))
            reference_set_mismatch)
        o.value.evidence_ids

  unfoldable pub check_evidence : Located Evidence → Checked (Unit {0})
  check_evidence e =
      reject_if
        (not (
          lists_evidence (get observation_key m.observations e.value.observation_id)
            e.value.evidence_id))
        reference_set_mismatch

  unfoldable pub check_finding : Located Finding → Checked (Unit {0})
  check_finding f =
      reject_if
        (not (
            is_version (get definition_key m.rules f.value.rule_id) f.value.rule_version
              f.value.rule_definition_digest)
          || any (λ id. not (has observation_key m.observations id)) f.value.observation_ids
          || any (λ id. not (has evidence_key m.evidence id)) f.value.evidence_ids)
        reference_set_mismatch

unfoldable pub validate_graph_links :
    AuditRun → List Subject → List (Located AuditPass) → Checked (Unit {0})
validate_graph_links run subjects passes = do
  m ← index_subjects subjects
  owned ← own m.executions [] passes
  each (check_execution passes m owned) m.executions
  each (check_observation passes m) m.observations
  each (check_evidence passes m) m.evidence
  each (check_finding passes m) m.findings
  validate_object_references run subjects

-- The `run_id` that a subject must share with the run.
abbrev pub bound_run : Contract → Option String
bound_run (audit_pass x) = some x.run_id
bound_run (collector_execution x) = some x.run_id
bound_run (observation x) = some x.run_id
bound_run (evidence_reference x) = some x.run_id
bound_run (finding x) = some x.run_id
bound_run (consent_receipt id run) = some run
bound_run (reboot_continuation_state run) = some run
bound_run _ = none

abbrev pub strays : String → Option String → Bool
strays run none = false
strays run (some id) = not (str_eq id run)

abbrev pub misses_log : LogReference → Located ActionLog → Bool
misses_log r log =
    not (str_eq r.action_log_id log.value.action_log_id)
    || not (str_eq r.logical_path log.path)
    || not (str_eq r.log_digest log.value.log_digest)

-- What follows once there is one run and one log.
unfoldable pub finalize_run :
    AuditManifest → List Subject → AuditRun → Located ActionLog → Checked (Unit {0})
finalize_run manifest subjects run log = do
  reject_if
      (not (str_eq manifest.run_id run.run_id)
        || not (str_eq log.value.run_id run.run_id)
        || any (λ (s : Subject). strays run.run_id (bound_run s.contract)) subjects)
      run_id_mismatch
  reject_if
      (not (str_eq run.manifest_reference.manifest_id manifest.manifest_id)
        || not (str_eq run.manifest_reference.logical_path "manifest.json"))
      reference_set_mismatch
  reject_if
      (misses_log run.action_log_reference log || misses_log manifest.action_log_reference log)
      reference_set_mismatch
  reject_if
      (not (
        if any (str_eq manifest.availability_state) ("Found" ∷ "Started" ∷ [])
        then manifest.has_observed_identity
        else not manifest.has_observed_identity))
      backend_identity_state_conflict
  passes ← validate_passes run subjects
  validate_graph_links run subjects passes
  consents ← index_kind receipt_key [] (select as_receipt subjects)
  reject_if (not (exact_ids receipt_key consents run.consent_receipt_ids)) reference_set_mismatch
  reject_if (any (λ id. not (str_eq id run.run_id)) log.value.entry_run_ids) run_id_mismatch

abbrev pub with_one :
    List (Located AuditRun)
    → List (Located ActionLog)
    → (AuditRun → Located ActionLog → Checked (Unit {0}))
    → Checked (Unit {0})
with_one (run ∷ []) (log ∷ []) k = k run.value log
with_one _ _ k = rejects manifest_required_role_missing

-- `verify_contract_integrity` is the function of src/import/import-normalization.mjs.
unfoldable pub finalize_audit_package :
    (Contract → Checked (Unit {0})) → AuditManifest → List Subject → Checked (Unit {0})
finalize_audit_package verify_contract_integrity manifest subjects = do
  each (λ (s : Subject). verify_contract_integrity s.contract) subjects
  validate_role_paths subjects
  with_one (select as_run subjects) (select as_log subjects) (finalize_run manifest subjects)
