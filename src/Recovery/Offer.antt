-- ===== src/Recovery/Offer.antt =====
-- tools/lib/maintenance-recovery-model.mjs: `basisFor`, `validateScope`, `validateAuthorization` and
-- `prepareRecoveryOffer`.
use sec_app.Base.{
  ◌+◌, max, String, Bool, true, false, not, ◌&&◌, ◌||◌, Option, none, some, ◌==◌, str_eq, opt_eq,
  is_some, length, if◌then◌else◌, max_safe_integer,
}
use sec_app.Data.Json.{array}
use sec_app.Data.Jcs.{jcs_sha256, same}
use sec_app.Persistence.Types.{tx}
use sec_app.Recovery.Types.{
  Operation, maintenance, recover_publication, finish_committed_cleanup, retire_admitted_candidate,
  compact_terminal_state, reconcile_checkpoint, Target, no_target, finalize_candidate,
  restore_permitted_previous, Scope, synthetic_deployment_only, metadata_only, Classification,
  stable, prepared_unpublished, published_unretired, Decision, approved_synthetic, declined,
  Checked, fails, gives, ◌>>=◌, ◌>>◌, fail_if, origin_mismatch, scope_rejected,
  publication_unresolved, checkpoint_conflict, below_floor, generation_overflow,
  confirmation_required, confirmation_rejected, offer_changed, Selection, Minimum, Basis, Offer,
  Authorization, Storage, Active, State,
}
use sec_app.Recovery.Encode.{record_json, basis_json}
use sec_app.Recovery.State.{offer_seal, verify, state_hash, same_selection, classify}
use sec_app.Recovery.Terms.{
  meta, is_committed, is_admitted, epoch_of, below, recovery_bytes, capacity,
}

-- `old?.origin_transaction_id ?? null`
abbrev pub origin_of : Option Active → Option String
origin_of none = none
origin_of (some a) = some a.origin_transaction_id

abbrev pub scope_for : Operation → Scope
scope_for operation = if meta operation then metadata_only else synthetic_deployment_only

abbrev scope_eq : Scope → Scope → Bool
scope_eq synthetic_deployment_only synthetic_deployment_only = true
scope_eq metadata_only metadata_only = true
scope_eq _ _ = false

abbrev pub is_no_target : Target → Bool
is_no_target no_target = true
is_no_target _ = false

abbrev is_recover : Operation → Bool
is_recover recover_publication = true
is_recover _ = false

abbrev is_maintenance : Operation → Bool
is_maintenance maintenance = true
is_maintenance _ = false

abbrev pub is_cleanup : Operation → Bool
is_cleanup finish_committed_cleanup = true
is_cleanup _ = false

abbrev is_stable : Classification → Bool
is_stable stable = true
is_stable _ = false

abbrev is_checkpointed : Classification → Bool
is_checkpointed prepared_unpublished = true
is_checkpointed published_unretired = true
is_checkpointed _ = false

abbrev pub is_approved : Decision → Bool
is_approved approved_synthetic = true
is_approved declined = false

-- The selection that a recovery's target stands for.
abbrev pub target_selection : Active → Target → Option (Option Selection)
target_selection a finalize_candidate = some a.original_candidate
target_selection a restore_permitted_previous = some a.previous
target_selection a no_target = none

module _ (sha256 : String → String) where
  unfoldable pub same_basis : Basis → Basis → Bool
  unfolding same basis_json
  same_basis a b = same sha256 (basis_json a) (basis_json b)

  -- `basisFor`
  unfoldable pub basis_for : Storage → State → Minimum → Checked Basis
  unfolding jcs_sha256 recovery_bytes record_json
  basis_for disk s minimum = do
    class ← classify sha256 disk s minimum
    gives (record {
      anchor_digest = disk.anchor.anchor_digest;
      records_digest = jcs_sha256 sha256 (array record_json disk.records);
      head = disk.head;
      checkpoint_candidate = disk.checkpoint_candidate;
      obsolete_checkpoint = disk.obsolete_checkpoint;
      minimum = minimum;
      state_digest = state_hash sha256 s;
      classification = class;
      journal_bytes = recovery_bytes (array record_json disk.records);
      record_count = length disk.records;
    })

  abbrev pub targets : Active → Offer → Bool
  targets a o = elim (target_selection a o.recovery_target) [
    | none ↦ false
    | some expected ↦ same_selection sha256 expected o.candidate
  ]

  -- The branches of `validateScope` by operation.
  abbrev pub operation_scope : State → Offer → Operation → Option Active → Checked (Unit {0})
  operation_scope s o maintenance old =
      fail_if (is_some old || not (is_stable o.basis.classification)) scope_rejected
  operation_scope s o recover_publication none = fails scope_rejected
  operation_scope s o recover_publication (some a) =
      fail_if (not a.publication_seen || is_committed a.stage) scope_rejected
      >> fail_if (not (targets a o)) scope_rejected
  operation_scope s o finish_committed_cleanup none = fails scope_rejected
  operation_scope s o finish_committed_cleanup (some a) =
      fail_if (not (is_committed a.stage) || not (same_selection sha256 o.candidate s.selection))
        scope_rejected
  operation_scope s o retire_admitted_candidate none = fails publication_unresolved
  operation_scope s o retire_admitted_candidate (some a) =
      fail_if
        (not (is_maintenance a.original_operation)
          || not (is_admitted a.stage)
          || a.publication_seen
          || not (same_selection sha256 a.previous s.selection)
          || not (same_selection sha256 o.candidate s.selection))
        publication_unresolved
  operation_scope s o compact_terminal_state old =
      fail_if (is_some old || not (same_selection sha256 o.candidate s.selection)) scope_rejected
      >> fail_if (not (is_stable o.basis.classification) || (o.basis.record_count == 0))
          checkpoint_conflict
  operation_scope s o reconcile_checkpoint old =
      fail_if (is_some old || not (same_selection sha256 o.candidate s.selection)) scope_rejected
      >> fail_if
          (not (is_checkpointed o.basis.classification) || is_some o.basis.obsolete_checkpoint)
          checkpoint_conflict

  -- `validateScope`
  unfoldable pub validate_scope : State → Offer → Checked (Unit {0})
  validate_scope s o = do
    fail_if (not (opt_eq o.origin_transaction_id (origin_of s.active))) origin_mismatch
    fail_if (not (scope_eq o.effects_scope (scope_for o.operation))) scope_rejected
    fail_if (not (is_recover o.operation) && not (is_no_target o.recovery_target)) scope_rejected
    operation_scope s o o.operation s.active
    fail_if (below o.candidate (max s.security_floor (epoch_of s.selection))) below_floor
    fail_if
        (not (meta o.operation)
          && not (is_cleanup o.operation)
          && (s.generation_floor == max_safe_integer))
        generation_overflow

  -- `validateAuthorization`, on an authorization that there is.
  unfoldable pub validate_offer : Storage → State → Authorization → Checked (Unit {0})
  validate_offer disk s a = do
    verify sha256 a.offer.offer_digest (offer_seal sha256 a.offer)
    fail_if
        (not (is_approved a.confirmation.decision)
          || not (str_eq a.confirmation.offer_digest a.offer.offer_digest))
        confirmation_rejected
    basis ← basis_for disk s a.offer.basis.minimum
    fail_if (not (same_basis a.offer.basis basis)) offer_changed
    required ← capacity disk s a.offer.operation
    fail_if
        (not (a.offer.required_records == required)
          || not (str_eq a.offer.transaction_id (tx (s.counter + 1))))
        offer_changed
    validate_scope s a.offer

  abbrev pub validate_authorization : Storage → State → Option Authorization → Checked (Unit {0})
  validate_authorization disk s none = fails confirmation_required
  validate_authorization disk s (some a) = validate_offer disk s a
