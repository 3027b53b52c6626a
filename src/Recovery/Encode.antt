-- ===== src/Recovery/Encode.antt =====
-- The documents of a recovery as JSON, for their digests and sizes. The constant keys that the schema
-- fixes stand where the source digests them.
use sec_app.Base.{String, List, [], ◌∷◌, ◌++◌}
use sec_app.Data.Json.{Json, bool, num, str, object, array, nullable}
use sec_app.Recovery.Types.{
  Operation, maintenance, recover_publication, finish_committed_cleanup, retire_admitted_candidate,
  compact_terminal_state, reconcile_checkpoint, Target, no_target, finalize_candidate,
  restore_permitted_previous, Scope, synthetic_deployment_only, metadata_only, Outcome, completed,
  candidate_retired, metadata_authorized, Stage, admitted, blocked, committed, Phase, stable_phase,
  stage_phase, Classification, stable, active, checkpoint_pending, prepared_unpublished,
  published_unretired, conflict_or_unknown, RecordKind, admission, block, commit, complete, retire,
  authorize_checkpoint, Decision, approved_synthetic, declined, Selection, Minimum, Terminal,
  Anchor, Head, Context, Basis, Offer, Authorization, Record, LineageEntry, Active, State,
}

abbrev operation_text : Operation → String
operation_text maintenance = "Maintenance"
operation_text recover_publication = "RecoverPublication"
operation_text finish_committed_cleanup = "FinishCommittedCleanup"
operation_text retire_admitted_candidate = "RetireAdmittedCandidate"
operation_text compact_terminal_state = "CompactTerminalState"
operation_text reconcile_checkpoint = "ReconcileCheckpoint"

abbrev target_text : Target → String
target_text no_target = "None"
target_text finalize_candidate = "FinalizeCandidate"
target_text restore_permitted_previous = "RestorePermittedPrevious"

abbrev scope_text : Scope → String
scope_text synthetic_deployment_only = "SyntheticDeploymentOnly"
scope_text metadata_only = "MetadataOnly"

abbrev outcome_text : Outcome → String
outcome_text completed = "Completed"
outcome_text candidate_retired = "CandidateRetired"
outcome_text metadata_authorized = "MetadataAuthorized"

abbrev stage_text : Stage → String
stage_text admitted = "Admitted"
stage_text blocked = "Blocked"
stage_text committed = "Committed"

abbrev phase_text : Phase → String
phase_text stable_phase = "Stable"
phase_text (stage_phase s) = stage_text s

abbrev classification_text : Classification → String
classification_text stable = "Stable"
classification_text active = "Active"
classification_text checkpoint_pending = "CheckpointPending"
classification_text prepared_unpublished = "PreparedUnpublished"
classification_text published_unretired = "PublishedUnretired"
classification_text conflict_or_unknown = "ConflictOrUnknown"

abbrev pub kind_text : RecordKind → String
kind_text admission = "Admission"
kind_text block = "Block"
kind_text commit = "Commit"
kind_text complete = "Complete"
kind_text retire = "Retire"
kind_text authorize_checkpoint = "AuthorizeCheckpoint"

abbrev decision_text : Decision → String
decision_text approved_synthetic = "ApprovedSynthetic"
decision_text declined = "Declined"

unfoldable pub selection_json : Selection → Json
selection_json t = object (("digest", str t.digest) ∷ ("epoch", num t.epoch) ∷ [])

unfoldable pub minimum_json : Minimum → Json
minimum_json m = object (
    ("counter", num m.counter)
    ∷ ("generation", num m.generation)
    ∷ ("security_floor", num m.security_floor)
    ∷ [])

unfoldable pub terminal_json : Terminal → Json
terminal_json t = object (
    ("transaction_id", str t.transaction_id)
    ∷ ("operation", str (operation_text t.operation))
    ∷ ("outcome", str (outcome_text t.outcome))
    ∷ ("terminal_digest", str t.terminal_digest)
    ∷ [])

-- The keys of an anchor but its digest.
unfoldable pub anchor_body : Anchor → List (String × Json)
unfolding selection_json terminal_json
anchor_body a =
    ("machine_id", str a.machine_id)
    ∷ ("sequence", num a.sequence)
    ∷ ("counter", num a.counter)
    ∷ ("generation", num a.generation)
    ∷ ("generation_floor", num a.generation_floor)
    ∷ ("security_floor", num a.security_floor)
    ∷ ("selection", nullable selection_json a.selection)
    ∷ ("terminal", nullable terminal_json a.terminal)
    ∷ []

unfoldable pub anchor_json : Anchor → Json
unfolding anchor_body
anchor_json a = object (anchor_body a ++ ("anchor_digest", str a.anchor_digest) ∷ [])

unfoldable pub head_body : Head → List (String × Json)
unfolding selection_json
head_body h =
    ("machine_id", str h.machine_id)
    ∷ ("sequence", num h.sequence)
    ∷ ("counter", num h.counter)
    ∷ ("generation", num h.generation)
    ∷ ("generation_floor", num h.generation_floor)
    ∷ ("security_floor", num h.security_floor)
    ∷ ("selection", nullable selection_json h.selection)
    ∷ ("phase", str (phase_text h.phase))
    ∷ ("tail_digest", str h.tail_digest)
    ∷ []

unfoldable pub head_json : Head → Json
unfolding head_body
head_json h = object (head_body h ++ ("head_digest", str h.head_digest) ∷ [])

unfoldable pub context_json : Context → Json
context_json c = object (
    ("session_id", str c.session_id)
    ∷ ("peer_id", str c.peer_id)
    ∷ ("approver_id", str c.approver_id)
    ∷ ("challenge", str c.challenge)
    ∷ ("helper_digest", str c.helper_digest)
    ∷ ("policy_digest", str c.policy_digest)
    ∷ ("confirmation_version", str "SyntheticMetadataConsent-v2")
    ∷ ("confirmation_text_digest", str c.confirmation_text_digest)
    ∷ [])

unfoldable pub basis_json : Basis → Json
unfolding head_json anchor_json minimum_json
basis_json b = object (
    ("anchor_digest", str b.anchor_digest)
    ∷ ("records_digest", str b.records_digest)
    ∷ ("head", head_json b.head)
    ∷ ("checkpoint_candidate", nullable anchor_json b.checkpoint_candidate)
    ∷ ("obsolete_checkpoint", nullable anchor_json b.obsolete_checkpoint)
    ∷ ("minimum", minimum_json b.minimum)
    ∷ ("state_digest", str b.state_digest)
    ∷ ("classification", str (classification_text b.classification))
    ∷ ("journal_bytes", num b.journal_bytes)
    ∷ ("record_count", num b.record_count)
    ∷ [])

unfoldable pub offer_body : Offer → List (String × Json)
unfolding basis_json context_json selection_json
offer_body o =
    ("format", str "SyntheticRecovery-v2")
    ∷ ("operation", str (operation_text o.operation))
    ∷ ("transaction_id", str o.transaction_id)
    ∷ ("origin_transaction_id", nullable str o.origin_transaction_id)
    ∷ ("candidate", nullable selection_json o.candidate)
    ∷ ("recovery_target", str (target_text o.recovery_target))
    ∷ ("effects_scope", str (scope_text o.effects_scope))
    ∷ ("basis", basis_json o.basis)
    ∷ ("context", context_json o.context)
    ∷ ("required_records", num o.required_records)
    ∷ ("expires_at", str o.expires_at)
    ∷ []

unfoldable pub authorization_json : Authorization → Json
unfolding offer_body
authorization_json a = object (
    ("offer", object (offer_body a.offer ++ ("offer_digest", str a.offer.offer_digest) ∷ []))
    ∷ (
      "confirmation",
      object (
          ("decision", str (decision_text a.confirmation.decision))
          ∷ ("offer_digest", str a.confirmation.offer_digest)
          ∷ []),
    )
    ∷ [])

unfoldable pub record_body : Record → List (String × Json)
unfolding authorization_json
record_body r =
    ("sequence", num r.sequence)
    ∷ ("record_kind", str (kind_text r.record_kind))
    ∷ ("transaction_id", str r.transaction_id)
    ∷ ("authorization", nullable authorization_json r.authorization)
    ∷ ("previous_digest", str r.previous_digest)
    ∷ []

unfoldable pub record_json : Record → Json
unfolding record_body
record_json r = object (record_body r ++ ("record_digest", str r.record_digest) ∷ [])

abbrev entry_json : LineageEntry → Json
entry_json e =
    object (("transaction_id", str e.transaction_id) ∷ ("offer_digest", str e.offer_digest) ∷ [])

unfoldable pub active_json : Active → Json
unfolding selection_json
active_json a = object (
    ("transaction_id", str a.transaction_id)
    ∷ ("origin_transaction_id", str a.origin_transaction_id)
    ∷ ("operation", str (operation_text a.operation))
    ∷ ("original_operation", str (operation_text a.original_operation))
    ∷ ("stage", str (stage_text a.stage))
    ∷ ("publication_seen", bool a.publication_seen)
    ∷ ("target_generation", num a.target_generation)
    ∷ ("candidate", nullable selection_json a.candidate)
    ∷ ("original_candidate", nullable selection_json a.original_candidate)
    ∷ ("previous", nullable selection_json a.previous)
    ∷ ("lineage", array entry_json a.lineage)
    ∷ [])

unfoldable pub state_json : State → Json
unfolding selection_json terminal_json active_json
state_json s = object (
    ("machine_id", str s.machine_id)
    ∷ ("sequence", num s.sequence)
    ∷ ("counter", num s.counter)
    ∷ ("generation", num s.generation)
    ∷ ("generation_floor", num s.generation_floor)
    ∷ ("security_floor", num s.security_floor)
    ∷ ("selection", nullable selection_json s.selection)
    ∷ ("terminal", nullable terminal_json s.terminal)
    ∷ ("tail_digest", str s.tail_digest)
    ∷ ("active", nullable active_json s.active)
    ∷ [])
