-- ===== src/Importer/Examples.antt =====
-- A package of two passes that is accepted, and packages that are not.
use mathlib.Core.WellFounded.{Acc}
use sec_app.Base.{String, true, some, List, [], ◌∷◌, ◌≡◌, ◌↔◌, refl, Memᴰ}
use sec_app.Importer.Checked.{
  Checked, rejects, accepts, ◌>>=◌, ◌>>◌, reject_if, each, pass_model_invalid,
  manifest_required_role_missing,
}
use sec_app.Importer.Subjects.{
  standard, elevated, ObjectReference, LogReference, AuditRun, Execution, Definition, Contract,
  audit_run, audit_pass, collector_execution, observation, evidence_reference, finding,
  collector_definition, rule_definition, action_log, Subject, AuditManifest, Located,
}
use sec_app.Importer.References.{
  own_ids, own, index_subjects, check_execution, check_observation, check_evidence, check_finding,
  validate_graph_links, finalize_run, finalize_audit_package,
}
use sec_app.Importer.Passes.{resolve, check_passes, validate_passes}
use sec_app.Importer.Members.{
  execution_key, index_kind, exact_ids, expected_path, validate_role_paths, validate_kind,
  validate_object_references,
}
use sec_app.Importer.Linked.Links.{Linked, finalize_audit_package-Linked}
use sec_app.Importer.Exact.{exact_ids_iff}
use sec_app.Importer.Referenced.{Referenced, finalize_audit_package-Referenced}
use sec_app.Importer.Founded.{Requires, finalize_audit_package-Acc}

abbrev whole : Contract → Checked (Unit {0})
whole c = accepts tt

abbrev log_reference : LogReference
log_reference = record {
  action_log_id = "log";
  logical_path = "action-log/action-log.json";
  log_digest = "l";
}

abbrev manifest : AuditManifest
manifest = record {
  run_id = "run";
  manifest_id = "manifest";
  action_log_reference = log_reference;
  has_observed_identity = true;
  availability_state = "Found";
}

abbrev object : String → ObjectReference
object id = record { object_id = id; object_digest = "d" }

abbrev run : AuditRun
run = record {
  run_id = "run";
  manifest_reference = record { manifest_id = "manifest"; logical_path = "manifest.json" };
  action_log_reference = log_reference;
  pass_references =
      record {
        pass_id = "p1";
        kind = standard;
        privilege_class = "User";
        logical_path = "passes/p1.json";
        object_digest = "d";
      }
      ∷ record {
        pass_id = "p2";
        kind = elevated;
        privilege_class = "Admin";
        logical_path = "passes/p2.json";
        object_digest = "d";
      }
      ∷ [];
  execution_references = object "x" ∷ [];
  observation_references = object "o" ∷ [];
  evidence_references = object "e" ∷ [];
  finding_references = object "f" ∷ [];
  consent_receipt_ids = [];
}

abbrev execution : Execution
execution = record {
  execution_id = "x";
  run_id = "run";
  pass_id = "p1";
  privilege = "User";
  collector_id = "c";
  collector_version = "1";
  collector_definition_digest = "d";
  observation_ids = "o" ∷ [];
  object_digest = some "d";
}

abbrev definition : String → Definition
definition name = record { id = name; version = "1"; object_digest = "d" }

-- The package, with the prerequisites of its first pass.
abbrev audit_package_with : List String → List Subject
audit_package_with prerequisites =
    record { logical_path = "run.json"; contract = audit_run run }
    ∷ record {
      logical_path = "passes/p1.json";
      contract = audit_pass (record {
        pass_id = "p1";
        run_id = "run";
        kind = standard;
        privilege_class = "User";
        prerequisite_pass_ids = prerequisites;
        collector_execution_ids = "x" ∷ [];
        object_digest = some "d";
      });
    }
    ∷ record {
      logical_path = "passes/p2.json";
      contract = audit_pass (record {
        pass_id = "p2";
        run_id = "run";
        kind = elevated;
        privilege_class = "Admin";
        prerequisite_pass_ids = "p1" ∷ [];
        collector_execution_ids = [];
        object_digest = some "d";
      });
    }
    ∷ record { logical_path = "executions/x.json"; contract = collector_execution execution }
    ∷ record {
      logical_path = "observations/o.json";
      contract = observation (record {
        observation_id = "o";
        run_id = "run";
        execution_id = "x";
        evidence_ids = "e" ∷ [];
        object_digest = some "d";
      });
    }
    ∷ record {
      logical_path = "evidence/e.json";
      contract = evidence_reference (record {
        evidence_id = "e";
        run_id = "run";
        observation_id = "o";
        logical_path = "evidence/e.json";
        object_digest = some "d";
      });
    }
    ∷ record {
      logical_path = "findings/f.json";
      contract = finding (record {
        finding_id = "f";
        run_id = "run";
        rule_id = "r";
        rule_version = "1";
        rule_definition_digest = "d";
        observation_ids = "o" ∷ [];
        evidence_ids = "e" ∷ [];
        object_digest = some "d";
      });
    }
    ∷ record { logical_path = "c.json"; contract = collector_definition (definition "c") }
    ∷ record { logical_path = "r.json"; contract = rule_definition (definition "r") }
    ∷ record {
      logical_path = "action-log/action-log.json";
      contract = action_log (record {
        action_log_id = "log";
        run_id = "run";
        log_digest = "l";
        entry_run_ids = "run" ∷ [];
      });
    }
    ∷ []

abbrev audit_package : List Subject
audit_package = audit_package_with []

accepted : finalize_audit_package whole manifest audit_package ≡ accepts tt
unfolding finalize_audit_package each validate_role_paths expected_path finalize_run validate_passes
    index_kind exact_ids resolve check_passes validate_graph_links index_subjects own own_ids
    check_execution check_observation check_evidence check_finding validate_object_references
    validate_kind reject_if ◌>>=◌ ◌>>◌
accepted = refl

cyclic :
    finalize_audit_package whole manifest (audit_package_with ("p2" ∷ []))
    ≡ rejects pass_model_invalid
unfolding finalize_audit_package each validate_role_paths expected_path finalize_run validate_passes
    index_kind exact_ids resolve check_passes validate_graph_links index_subjects own own_ids
    check_execution check_observation check_evidence check_finding validate_object_references
    validate_kind reject_if ◌>>=◌ ◌>>◌
cyclic = refl

empty : finalize_audit_package whole manifest [] ≡ rejects manifest_required_role_missing
unfolding finalize_audit_package each validate_role_paths expected_path finalize_run validate_passes
    index_kind exact_ids resolve check_passes validate_graph_links index_subjects own own_ids
    check_execution check_observation check_evidence check_finding validate_object_references
    validate_kind reject_if ◌>>=◌ ◌>>◌
empty = refl

finalize_audit_package-Linked_example : Linked audit_package
finalize_audit_package-Linked_example =
    finalize_audit_package-Linked whole manifest audit_package accepted

finalize_audit_package-Acc_example : Acc (Requires audit_package) "p2"
finalize_audit_package-Acc_example =
    finalize_audit_package-Acc whole manifest audit_package "p2" accepted

abbrev executions : List (Located Execution)
executions = record { path = "executions/x.json"; value = execution } ∷ []

indexed : index_kind execution_key [] executions ≡ accepts executions
unfolding index_kind
indexed = refl

exact_ids_iff_example : (exact_ids execution_key executions ("x" ∷ []) ≡ true) ↔ (
    (id : String)
    → Memᴰ id ("x" ∷ []) ↔ ((x : Located Execution) × Memᴰ x executions × (execution_key x ≡ id)))
exact_ids_iff_example =
    exact_ids_iff execution_key executions ("x" ∷ []) indexed ((λ m. elim m [ ]), tt)

-- Ids that are repeated pass for a set of members that they do not name.
repeated : exact_ids (λ (s : String). s) ("a" ∷ "b" ∷ []) ("a" ∷ "a" ∷ []) ≡ true
unfolding exact_ids
repeated = refl

finalize_audit_package-Referenced_example : (r : AuditRun) × Referenced manifest audit_package r
finalize_audit_package-Referenced_example =
    finalize_audit_package-Referenced whole manifest audit_package accepted
