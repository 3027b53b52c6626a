-- ===== src/Importer/Members.antt =====
-- src/import/import-manifest.mjs: `indexKind`, `exactIds`, `validateRolePaths` and
-- `validateObjectReferences`.
use Prim.Native.String
use sec_app.Base.{
  ◌==◌, String, Bool, true, false, not, ◌&&◌, Option, none, some, List, [], ◌∷◌, ◌++◌, str_eq,
  opt_eq, is_some, all, map, length, if◌then◌else◌,
}
use sec_app.Importer.Checked.{
  reference_duplicate_id, reference_set_mismatch, reference_digest_mismatch,
  manifest_role_path_mismatch, Checked, rejects, accepts, ◌>>=◌, ◌>>◌, reject_if, each, get,
}
use sec_app.Importer.Subjects.{
  ObjectReference, AuditRun, AuditPass, Execution, Observation, Evidence, Finding, Definition,
  Contract, audit_run, audit_pass, collector_execution, observation, evidence_reference, finding,
  action_log, Subject, Located, select, as_execution, as_observation, as_evidence, as_finding,
}

-- ID_FIELD
abbrev pub pass_key : Located AuditPass → String
pass_key m = m.value.pass_id

abbrev pub execution_key : Located Execution → String
execution_key m = m.value.execution_id

abbrev pub observation_key : Located Observation → String
observation_key m = m.value.observation_id

abbrev pub evidence_key : Located Evidence → String
evidence_key m = m.value.evidence_id

abbrev pub finding_key : Located Finding → String
finding_key m = m.value.finding_id

abbrev pub definition_key : Located Definition → String
definition_key m = m.value.id

abbrev pub receipt_key : Located String → String
receipt_key m = m.value

abbrev pub has : {A : Type 0} → (A → String) → List A → String → Bool
has key xs id = is_some (get key xs id)

-- The loop of `indexKind` over the members of a kind; `found` is `result` with its values in order.
unfoldable pub index_kind : {A : Type 0} → (A → String) → List A → List A → Checked (List A)
index_kind key found [] = accepts found
index_kind key found (x ∷ xs) =
    let rest = index_kind key (found ++ x ∷ []) xs in
    if has key found (key x) then rejects reference_duplicate_id else rest

unfoldable pub exact_ids : {A : Type 0} → (A → String) → List A → List String → Bool
exact_ids key actual expected = length actual == length expected && all (has key actual) expected

path_of : String → String → String
path_of folder id = String.◌++◌ (String.◌++◌ folder id) ".json"

-- `expected`
unfoldable pub expected_path : Contract → Option String
unfolding path_of
expected_path (audit_run x) = some "run.json"
expected_path (audit_pass x) = some (path_of "passes/" x.pass_id)
expected_path (collector_execution x) = some (path_of "executions/" x.execution_id)
expected_path (observation x) = some (path_of "observations/" x.observation_id)
expected_path (evidence_reference x) = some (path_of "evidence/" x.evidence_id)
expected_path (finding x) = some (path_of "findings/" x.finding_id)
expected_path (action_log x) = some "action-log/action-log.json"
expected_path _ = none

abbrev pub is_misplaced : Option String → String → Bool
is_misplaced none path = false
is_misplaced (some p) path = not (str_eq path p)

abbrev pub is_moved : Contract → String → Bool
is_moved (evidence_reference x) path = not (str_eq x.logical_path path)
is_moved _ path = false

unfoldable pub validate_role_paths : List Subject → Checked (Unit {0})
validate_role_paths = each λ s. do
  reject_if (is_misplaced (expected_path s.contract) s.logical_path) manifest_role_path_mismatch
  reject_if (is_moved s.contract s.logical_path) manifest_role_path_mismatch

-- `integrityDigest(index.get(id).value) !== reference.object_digest`, of an id that `exactIds` has found.
abbrev pub digest_differs : {A : Type 0} → (A → Option String) → Option A → ObjectReference → Bool
digest_differs digest none r = true
digest_differs digest (some x) r = not (opt_eq (digest x) (some r.object_digest))

-- A round of the loop over `specifications`.
unfoldable pub validate_kind :
    {A : Type 0}
    → (A → String)
    → (A → Option String)
    → List A
    → List ObjectReference
    → Checked (Unit {0})
validate_kind key digest members references = do
  index ← index_kind key [] members
  reject_if (not (exact_ids key index (map ObjectReference.object_id references)))
      reference_set_mismatch
  each
      (λ r.
        reject_if (digest_differs digest (get key index r.object_id) r) reference_digest_mismatch)
      references

unfoldable pub validate_object_references : AuditRun → List Subject → Checked (Unit {0})
validate_object_references run subjects = do
  validate_kind execution_key (λ m. m.value.object_digest) (select as_execution subjects)
      run.execution_references
  validate_kind observation_key (λ m. m.value.object_digest) (select as_observation subjects)
      run.observation_references
  validate_kind evidence_key (λ m. m.value.object_digest) (select as_evidence subjects)
      run.evidence_references
  validate_kind finding_key (λ m. m.value.object_digest) (select as_finding subjects)
      run.finding_references
