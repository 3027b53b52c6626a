-- ===== src/Protocol/Types.antt =====
-- tools/lib/maintenance-protocol-model.mjs and its schemas: the documents of the protocol. The
-- constant keys of a message (its versions, privacy class and provenance) are left out.
use sec_app.Base.{ℕ, String, Option, List}
use sec_app.Deployment.Types.{Operation, Selection, Decision, Machine}

pub data Phase : Type 0 where
  phase_admitted phase_publish_pending phase_committed : Phase

pub data Outcome : Type 0 where
  not_committed unknown_outcome uninstalled backend_not_enrolled installed_launch_blocked : Outcome

pub record LineageEntry : Type 0 where
  pub transaction_id : String
  pub counter : ℕ
  pub offer_digest : String
  pub confirmation_digest : String

pub record Journal : Type 0 where
  pub origin_transaction_id : String
  pub phase : Phase
  pub highest_generation : ℕ
  pub reserved_floor : ℕ
  pub previous : Option Selection
  pub candidate : Option Selection
  pub lineage : List LineageEntry
  pub journal_digest : String

pub record LastResult : Type 0 where
  pub transaction_id : String
  pub counter : ℕ
  pub offer_digest : String
  pub outcome : Outcome

pub record Store : Type 0 where
  pub machine_id : Machine
  pub counter : ℕ
  pub generation : ℕ
  pub security_floor : ℕ
  pub selection : Option Selection
  pub journal : Option Journal
  pub last_result : Option LastResult

pub data StorageStatus : Type 0 where
  known unknown : StorageStatus

pub record Context : Type 0 where
  pub helper_instance : String
  pub client_instance : String
  pub helper_identity_digest : String
  pub policy_digest : String
  pub consent_text_digest : String
  pub storage_status : StorageStatus
  pub store : Store

pub record Member : Type 0 where
  pub member_id : String
  pub size_bytes : ℕ
  pub file_digest : String

pub data RecoveryTarget : Type 0 where
  finalize_candidate restore_permitted_previous finish_committed_cleanup : RecoveryTarget

pub record Recovery : Type 0 where
  pub recovery_target : RecoveryTarget
  pub original_transaction_id : String
  pub journal_digest : String
  pub highest_generation : ℕ

-- What distinguishes the two kinds of a proposal.
pub data Request : Type 0 where
  maintenance : Operation → Request
  recovery : Recovery → Request

pub record Proposal : Type 0 where
  pub request : Request
  pub expected_head_digest : String
  pub expected_generation : ℕ
  pub desired : Option Selection
  pub members : List Member

pub data State : Type 0 where
  await_peer await_hello await_bind bound proposed reviewed offered confirmed : State
  admitted payload_verified publish_pending committed cleanup_pending completed : State
  rejected aborted recovery_required : State

-- A message's type is its payload's constructor.
pub data Payload : Type 0 where
  helper_hello : String → String → Payload
  client_bind : String → String → String → Payload
  propose_operation : Proposal → Payload
  verified_offer : String → ℕ → Payload
  admission_recorded : String → ℕ → Payload
  payload_chunk : String → ℕ → ℕ → String → Payload
  cancel : String → Payload
  query_status : ℕ → Payload
  progress : State → Payload
  result : State → Option String → Payload

pub record Message : Type 0 where
  pub channel_id : String
  pub transaction_id : Option String
  pub sequence : ℕ
  pub payload : Payload
  pub payload_digest : String

pub data PeerVerdict : Type 0 where
  matched mismatch unavailable : PeerVerdict

pub data ReviewVerdict : Type 0 where
  review_allowed revoked review_unknown : ReviewVerdict

pub data ReserveResult : Type 0 where
  durable not_written reserve_unknown : ReserveResult

pub data PayloadVerdict : Type 0 where
  payload_allowed payload_refused payload_unknown : PayloadVerdict

pub data Quiescence : Type 0 where
  quiescent busy quiescence_unknown : Quiescence

pub data CommitVerdict : Type 0 where
  consistent commit_unknown : CommitVerdict

pub data CleanupResult : Type 0 where
  complete failed : CleanupResult

-- Why a session stops, by its own checks or by an interruption.
pub data Reason : Type 0 where
  storage_unknown storage_invalid clock_rejected expired replay_rejected limit_exceeded : Reason
  order_rejected peer_rejected trust_rejected binding_mismatch consent_declined head_changed :
      Reason
  admission_not_written persistence_uncertain payload_rejected runtime_busy : Reason
  cleanup_incomplete digest_mismatch sequence_rejected scope_rejected epoch_rejected : Reason
  generation_rejected cancelled disconnect crash clock_uncertain trust_unavailable : Reason

pub data Action : Type 0 where
  observe_peers : PeerVerdict → String → String → Action
  review_offer : ReviewVerdict → Action
  -- The offer's digest, the approver and the decision.
  confirm : String → String → Decision → Action
  reserve : String → ReserveResult → Action
  verify_payload : PayloadVerdict → Action
  begin_publish : Quiescence → Action
  commit : CommitVerdict → Action
  cleanup : CleanupResult → Action
  interrupt : Reason → Action

pub data Delivery : Type 0 where
  delivered lost : Delivery

-- An event at a time in milliseconds.
pub data Event : Type 0 where
  local : ℕ → Action → Event
  wire : ℕ → Delivery → Message → Event

pub record Scenario : Type 0 where
  pub context : Context
  pub events : List Event
