-- ===== src/Deployment/Types.antt =====
-- tools/lib/deployment-model.mjs: the documents. A record's fields are the keys that `record` checks;
-- the constant keys (schema_version, model_kind, privacy_class, provenance, kind) are left out.
use sec_app.Base.{ℕ, String, Option, List, [], ◌∷◌}
use sec_app.Data.Json.{Json, num, str, object, nullable}

pub data Operation : Type 0 where
  install update enroll_backend repair uninstall : Operation

pub data Event : Type 0 where
  prepare stage verify begin_publish commit begin_cleanup finish : Event
  cancel fail crash busy trust_unavailable reboot_required : Event
  rollback_unavailable inconsistent_state cleanup_failed : Event

pub data Decision : Type 0 where
  approved declined : Decision

pub data Machine : Type 0 where
  machine_a machine_b : Machine

-- The tuple of identities that a machine selects.
pub record Selection : Type 0 where
  pub app_id : String
  pub supervisor_id : String
  pub backend_id : Option String
  pub policy_id : String
  pub compatibility_id : String
  pub security_epoch : ℕ
  pub manifest_digest : String
  pub policy_digest : String

pub record Snapshot : Type 0 where
  pub generation : ℕ
  pub security_floor : ℕ
  pub selection : Option Selection

pub record Intent : Type 0 where
  pub operation : Operation
  pub expected_generation : ℕ
  pub next_generation : ℕ
  pub desired : Option Selection

pub record Confirmation : Type 0 where
  pub decision : Decision
  pub operation : Operation
  pub machine_id : Machine
  pub expected_generation : ℕ
  pub binding_digest : String
  pub nonce : String
  pub issued_at : String
  pub expires_at : String

pub record Scenario : Type 0 where
  pub simulated_at : String
  pub machine_id : Machine
  pub snapshot : Snapshot
  pub intent : Intent
  pub confirmation : Option Confirmation
  pub used_nonces : List String
  pub events : List Event

abbrev pub operation_text : Operation → String
operation_text install = "Install"
operation_text update = "Update"
operation_text enroll_backend = "EnrollBackend"
operation_text repair = "Repair"
operation_text uninstall = "Uninstall"

abbrev pub machine_text : Machine → String
machine_text machine_a = "synthetic-machine-a"
machine_text machine_b = "synthetic-machine-b"

unfoldable pub selection_json : Selection → Json
selection_json t = object (
    ("app_id", str t.app_id)
    ∷ ("supervisor_id", str t.supervisor_id)
    ∷ ("backend_id", nullable str t.backend_id)
    ∷ ("policy_id", str t.policy_id)
    ∷ ("compatibility_id", str t.compatibility_id)
    ∷ ("security_epoch", num t.security_epoch)
    ∷ ("manifest_digest", str t.manifest_digest)
    ∷ ("policy_digest", str t.policy_digest)
    ∷ [])

unfoldable pub snapshot_json : Snapshot → Json
unfolding selection_json
snapshot_json s = object (
    ("generation", num s.generation)
    ∷ ("security_floor", num s.security_floor)
    ∷ ("selection", nullable selection_json s.selection)
    ∷ [])

unfoldable pub intent_json : Intent → Json
unfolding selection_json
intent_json i = object (
    ("operation", str (operation_text i.operation))
    ∷ ("expected_generation", num i.expected_generation)
    ∷ ("next_generation", num i.next_generation)
    ∷ ("desired", nullable selection_json i.desired)
    ∷ [])

unfoldable pub binding_json : Machine → Snapshot → Intent → Json
unfolding snapshot_json intent_json
binding_json machine snapshot intent = object (
    ("machine_id", str (machine_text machine))
    ∷ ("snapshot", snapshot_json snapshot)
    ∷ ("intent", intent_json intent)
    ∷ [])
