-- ===== src/Protocol/Encode.antt =====
-- tools/lib/maintenance-protocol-model.mjs: the documents as JSON, for their digests.
use sec_app.Base.{String, false, List, [], ◌∷◌}
use sec_app.Data.Json.{Json, str, num, bool, object, array, nullable}
use sec_app.Deployment.Types.{operation_text, machine_text, selection_json}
use sec_app.Protocol.Types.{
  Phase, phase_admitted, phase_publish_pending, phase_committed, Outcome, not_committed,
  unknown_outcome, uninstalled, backend_not_enrolled, installed_launch_blocked, LineageEntry,
  Journal, LastResult, Store, StorageStatus, known, unknown, Context, Member, RecoveryTarget,
  finalize_candidate, restore_permitted_previous, finish_committed_cleanup, Request, maintenance,
  recovery, Proposal, State, await_peer, await_hello, await_bind, bound, proposed, reviewed,
  offered, confirmed, admitted, payload_verified, publish_pending, committed, cleanup_pending,
  completed, rejected, aborted, recovery_required, Payload, helper_hello, client_bind,
  propose_operation, verified_offer, admission_recorded, payload_chunk, cancel, query_status,
  progress, result,
}

abbrev phase_text : Phase → String
phase_text phase_admitted = "Admitted"
phase_text phase_publish_pending = "PublishPending"
phase_text phase_committed = "Committed"

abbrev outcome_text : Outcome → String
outcome_text not_committed = "NotCommitted"
outcome_text unknown_outcome = "Unknown"
outcome_text uninstalled = "Uninstalled"
outcome_text backend_not_enrolled = "BackendNotEnrolled"
outcome_text installed_launch_blocked = "InstalledLaunchBlocked"

abbrev status_text : StorageStatus → String
status_text known = "Known"
status_text unknown = "Unknown"

abbrev target_text : RecoveryTarget → String
target_text finalize_candidate = "FinalizeCandidate"
target_text restore_permitted_previous = "RestorePermittedPrevious"
target_text finish_committed_cleanup = "FinishCommittedCleanup"

abbrev state_text : State → String
state_text await_peer = "AwaitPeer"
state_text await_hello = "AwaitHello"
state_text await_bind = "AwaitBind"
state_text bound = "Bound"
state_text proposed = "Proposed"
state_text reviewed = "Reviewed"
state_text offered = "Offered"
state_text confirmed = "Confirmed"
state_text admitted = "Admitted"
state_text payload_verified = "PayloadVerified"
state_text publish_pending = "PublishPending"
state_text committed = "Committed"
state_text cleanup_pending = "CleanupPending"
state_text completed = "Completed"
state_text rejected = "Rejected"
state_text aborted = "Aborted"
state_text recovery_required = "RecoveryRequired"

unfoldable pub entry_json : LineageEntry → Json
entry_json e = object (
    ("transaction_id", str e.transaction_id)
    ∷ ("counter", num e.counter)
    ∷ ("offer_digest", str e.offer_digest)
    ∷ ("confirmation_digest", str e.confirmation_digest)
    ∷ [])

unfoldable pub journal_json : Journal → Json
unfolding entry_json selection_json
journal_json j = object (
    ("origin_transaction_id", str j.origin_transaction_id)
    ∷ ("phase", str (phase_text j.phase))
    ∷ ("highest_generation", num j.highest_generation)
    ∷ ("reserved_floor", num j.reserved_floor)
    ∷ ("previous", nullable selection_json j.previous)
    ∷ ("candidate", nullable selection_json j.candidate)
    ∷ ("lineage", array entry_json j.lineage)
    ∷ ("journal_digest", str j.journal_digest)
    ∷ [])

unfoldable pub last_result_json : LastResult → Json
last_result_json r = object (
    ("transaction_id", str r.transaction_id)
    ∷ ("counter", num r.counter)
    ∷ ("offer_digest", str r.offer_digest)
    ∷ ("outcome", str (outcome_text r.outcome))
    ∷ [])

unfoldable pub store_json : Store → Json
unfolding journal_json last_result_json selection_json
store_json s = object (
    ("machine_id", str (machine_text s.machine_id))
    ∷ ("counter", num s.counter)
    ∷ ("generation", num s.generation)
    ∷ ("security_floor", num s.security_floor)
    ∷ ("selection", nullable selection_json s.selection)
    ∷ ("journal", nullable journal_json s.journal)
    ∷ ("last_result", nullable last_result_json s.last_result)
    ∷ [])

-- The context with the store as it stands: the source's context holds the store that it changes.
unfoldable pub context_json : Context → Store → Json
unfolding store_json
context_json c s = object (
    ("helper_instance", str c.helper_instance)
    ∷ ("client_instance", str c.client_instance)
    ∷ ("helper_identity_digest", str c.helper_identity_digest)
    ∷ ("policy_digest", str c.policy_digest)
    ∷ ("consent_text_digest", str c.consent_text_digest)
    ∷ ("storage_status", str (status_text c.storage_status))
    ∷ ("store", store_json s)
    ∷ [])

unfoldable pub member_json : Member → Json
member_json m = object (
    ("member_id", str m.member_id)
    ∷ ("size_bytes", num m.size_bytes)
    ∷ ("file_digest", str m.file_digest)
    ∷ [])

abbrev request_fields : Request → List (String × Json) → List (String × Json)
request_fields (maintenance operation) rest =
    ("kind", str "Maintenance") ∷ ("operation", str (operation_text operation)) ∷ rest
request_fields (recovery r) rest =
    ("kind", str "Recovery")
    ∷ ("recovery_target", str (target_text r.recovery_target))
    ∷ ("original_transaction_id", str r.original_transaction_id)
    ∷ ("journal_digest", str r.journal_digest)
    ∷ ("highest_generation", num r.highest_generation)
    ∷ rest

unfoldable pub proposal_json : Proposal → Json
unfolding member_json selection_json
proposal_json p = object (
    request_fields p.request (
      ("expected_head_digest", str p.expected_head_digest)
      ∷ ("expected_generation", num p.expected_generation)
      ∷ ("desired", nullable selection_json p.desired)
      ∷ ("members", array member_json p.members)
      ∷ []))

unfoldable pub payload_json : Payload → Json
unfolding proposal_json
payload_json (helper_hello challenge instance_id) =
    object (("helper_challenge", str challenge) ∷ ("helper_instance", str instance_id) ∷ [])
payload_json (client_bind helper client instance_id) = object (
    ("helper_challenge", str helper)
    ∷ ("client_challenge", str client)
    ∷ ("client_instance", str instance_id)
    ∷ [])
payload_json (propose_operation p) = proposal_json p
payload_json (verified_offer digest expires) =
    object (("offer_digest", str digest) ∷ ("expires_at_ms", num expires) ∷ [])
payload_json (admission_recorded digest counter) =
    object (("offer_digest", str digest) ∷ ("counter", num counter) ∷ [])
payload_json (payload_chunk member offset length digest) = object (
    ("member_id", str member)
    ∷ ("offset", num offset)
    ∷ ("length", num length)
    ∷ ("chunk_digest", str digest)
    ∷ [])
payload_json (cancel digest) = object (("offer_digest", str digest) ∷ [])
payload_json (query_status counter) = object (("counter", num counter) ∷ [])
payload_json (progress s) = object (("state", str (state_text s)) ∷ [])
payload_json (result s digest) = object (
    ("state", str (state_text s))
    ∷ ("store_digest", nullable str digest)
    ∷ ("execution_enabled", bool false)
    ∷ [])

-- MAINTENANCE_PROTOCOL_LIMITS
unfoldable pub limits_json : Json
limits_json = object (
    ("control_bytes", num 65536)
    ∷ ("control_frames", num 128)
    ∷ ("payload_chunk_bytes", num 65536)
    ∷ ("payload_frames", num 8200)
    ∷ ("payload_members", num 8)
    ∷ ("payload_bytes", num 536870912)
    ∷ ("pairing_ms", num 30000)
    ∷ ("offer_ms", num 300000)
    ∷ ("payload_idle_ms", num 30000)
    ∷ ("intake_ms", num 600000)
    ∷ ("local_events", num 64)
    ∷ ("lineage", num 16)
    ∷ [])
