-- ===== src/Persistence/Encode.antt =====
-- The documents of the journal as JSON, for their digests and sizes.
use sec_app.Base.{String, List, [], ◌∷◌}
use sec_app.Data.Json.{Json, bool, num, str, object, array, nullable}
use sec_app.Persistence.Types.{
  RecordKind, reserve, block, commit, complete, Stage, admitted, blocked, committed, IntentKind,
  maintenance, recovery, RecoveryTarget, finalize_candidate, restore_permitted_previous,
  finish_committed_cleanup, Confirmation, approved_synthetic, declined, unknown_confirmation, Phase,
  stable, active_phase, Anchor, Head, Intent, Record, LineageEntry, Active, State,
}

abbrev kind_text : RecordKind → String
kind_text reserve = "Reserve"
kind_text block = "Block"
kind_text commit = "Commit"
kind_text complete = "Complete"

abbrev stage_text : Stage → String
stage_text admitted = "Admitted"
stage_text blocked = "Blocked"
stage_text committed = "Committed"

abbrev phase_text : Phase → String
phase_text stable = "Stable"
phase_text (active_phase s) = stage_text s

abbrev intent_kind_text : IntentKind → String
intent_kind_text maintenance = "Maintenance"
intent_kind_text recovery = "Recovery"

abbrev target_text : RecoveryTarget → String
target_text finalize_candidate = "FinalizeCandidate"
target_text restore_permitted_previous = "RestorePermittedPrevious"
target_text finish_committed_cleanup = "FinishCommittedCleanup"

abbrev confirmation_text : Confirmation → String
confirmation_text approved_synthetic = "ApprovedSynthetic"
confirmation_text declined = "Declined"
confirmation_text unknown_confirmation = "Unknown"

unfoldable pub anchor_json : Anchor → Json
anchor_json a = object (
    ("machine_id", str a.machine_id)
    ∷ ("sequence", num a.sequence)
    ∷ ("counter", num a.counter)
    ∷ ("generation", num a.generation)
    ∷ ("security_floor", num a.security_floor)
    ∷ ("selection_digest", nullable str a.selection_digest)
    ∷ ("selection_epoch", num a.selection_epoch)
    ∷ ("last_transaction_id", nullable str a.last_transaction_id)
    ∷ ("anchor_digest", str a.anchor_digest)
    ∷ [])

unfoldable pub head_json : Head → Json
head_json h = object (
    ("machine_id", str h.machine_id)
    ∷ ("sequence", num h.sequence)
    ∷ ("tail_digest", str h.tail_digest)
    ∷ ("counter", num h.counter)
    ∷ ("generation", num h.generation)
    ∷ ("generation_floor", num h.generation_floor)
    ∷ ("security_floor", num h.security_floor)
    ∷ ("phase", str (phase_text h.phase))
    ∷ ("selection_digest", nullable str h.selection_digest)
    ∷ ("selection_epoch", num h.selection_epoch)
    ∷ ("head_digest", str h.head_digest)
    ∷ [])

-- The members of an intent but its two digests.
abbrev scope_fields : Intent → List (String × Json)
scope_fields i =
    ("kind", str (intent_kind_text i.kind))
    ∷ ("transaction_id", str i.transaction_id)
    ∷ ("origin_transaction_id", nullable str i.origin_transaction_id)
    ∷ ("recovery_target", nullable (λ t. str (target_text t)) i.recovery_target)
    ∷ ("expected_state_digest", str i.expected_state_digest)
    ∷ ("selection_digest", nullable str i.selection_digest)
    ∷ ("selection_epoch", num i.selection_epoch)
    ∷ ("confirmation", str (confirmation_text i.confirmation))
    ∷ []

unfoldable pub scope_json : Intent → Json
scope_json i = object (scope_fields i)

unfoldable pub intent_json : Intent → Json
intent_json i = object (
    ("intent_digest", str i.intent_digest)
    ∷ ("confirmation_digest", str i.confirmation_digest)
    ∷ scope_fields i)

unfoldable pub record_json : Record → Json
unfolding intent_json
record_json r = object (
    ("sequence", num r.sequence)
    ∷ ("record_kind", str (kind_text r.record_kind))
    ∷ ("transaction_id", str r.transaction_id)
    ∷ ("intent", nullable intent_json r.intent)
    ∷ ("previous_digest", str r.previous_digest)
    ∷ ("record_digest", str r.record_digest)
    ∷ [])

abbrev lineage_json : LineageEntry → Json
lineage_json e = object (
    ("transaction_id", str e.transaction_id)
    ∷ ("intent_digest", str e.intent_digest)
    ∷ ("confirmation_digest", str e.confirmation_digest)
    ∷ [])

abbrev active_json : Active → Json
active_json a = object (
    ("transaction_id", str a.transaction_id)
    ∷ ("origin_transaction_id", str a.origin_transaction_id)
    ∷ ("stage", str (stage_text a.stage))
    ∷ ("publication_pending", bool a.publication_pending)
    ∷ ("cleanup_only", bool a.cleanup_only)
    ∷ ("target_generation", num a.target_generation)
    ∷ ("candidate_digest", nullable str a.candidate_digest)
    ∷ ("candidate_epoch", num a.candidate_epoch)
    ∷ ("original_candidate_digest", nullable str a.original_candidate_digest)
    ∷ ("original_candidate_epoch", num a.original_candidate_epoch)
    ∷ ("previous_selection_digest", nullable str a.previous_selection_digest)
    ∷ ("previous_selection_epoch", num a.previous_selection_epoch)
    ∷ ("lineage", array lineage_json a.lineage)
    ∷ [])

unfoldable pub state_json : State → Json
state_json s = object (
    ("machine_id", str s.machine_id)
    ∷ ("sequence", num s.sequence)
    ∷ ("tail_digest", str s.tail_digest)
    ∷ ("counter", num s.counter)
    ∷ ("generation", num s.generation)
    ∷ ("generation_floor", num s.generation_floor)
    ∷ ("security_floor", num s.security_floor)
    ∷ ("selection_digest", nullable str s.selection_digest)
    ∷ ("selection_epoch", num s.selection_epoch)
    ∷ ("last_transaction_id", nullable str s.last_transaction_id)
    ∷ ("active", nullable active_json s.active)
    ∷ [])
