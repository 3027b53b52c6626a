-- ===== src/Recovery/Types.antt =====
-- tools/lib/maintenance-recovery-model.mjs and its schema: the documents of a recovery. The constant
-- keys (versions, format, privacy class and provenance) are left out.
use sec_app.Base.{ℕ, String, Bool, Option, List}

pub data Operation : Type 0 where
  maintenance recover_publication finish_committed_cleanup retire_admitted_candidate : Operation
  compact_terminal_state reconcile_checkpoint : Operation

pub data Target : Type 0 where
  no_target finalize_candidate restore_permitted_previous : Target

pub data Scope : Type 0 where
  synthetic_deployment_only metadata_only : Scope

pub data Outcome : Type 0 where
  completed candidate_retired metadata_authorized : Outcome

pub data Stage : Type 0 where
  admitted blocked committed : Stage

-- The head's phase.
pub data Phase : Type 0 where
  stable_phase : Phase
  stage_phase : Stage → Phase

pub data Classification : Type 0 where
  stable active checkpoint_pending prepared_unpublished published_unretired : Classification
  conflict_or_unknown : Classification

pub data RecordKind : Type 0 where
  admission block commit complete retire authorize_checkpoint : RecordKind

pub data Integrity : Type 0 where
  known unknown : Integrity

pub data Decision : Type 0 where
  approved_synthetic declined : Decision

-- Why a run stops; the first ones are those that a `Problem` carries.
pub data Problem : Type 0 where
  digest_mismatch anchor_invalid active_lineage minimum_conflict unknown_evidence : Problem
  head_mismatch checkpoint_conflict capacity_invalid capacity_exhausted : Problem
  counter_or_sequence_overflow lineage_full origin_mismatch scope_rejected : Problem
  publication_unresolved below_floor generation_overflow confirmation_required : Problem
  confirmation_rejected offer_changed order_rejected chain_invalid offer_expired : Problem
  crash cancel status_required busy_or_unknown_quiescence not_written write_uncertain : Problem
  flush_uncertain read_back_mismatch retirement_unknown status_rejected : Problem

-- What a function that may throw a `Problem` gives.
pub data Checked {ℓ} (A : Type ℓ) : Type ℓ where
  fails : Problem → Checked A
  gives : A → Checked A

infixl 5 ◌>>=◌ ◌>>◌
unfoldable pub ◌>>=◌ {ℓ κ} : {A : Type ℓ} {B : Type κ} → Checked A → (A → Checked B) → Checked B
fails p >>= k = fails p
gives x >>= k = k x

unfoldable pub ◌>>◌ {ℓ κ} : {A : Type ℓ} {B : Type κ} → Checked A → Checked B → Checked B
fails p >> m = fails p
gives x >> m = m

-- `if (condition) fail(reason);`
unfoldable pub fail_if : Bool → Problem → Checked (Unit {0})
fail_if Bool.true p = fails p
fail_if Bool.false p = gives tt

pub record Selection : Type 0 where
  pub digest : String
  pub epoch : ℕ

pub record Minimum : Type 0 where
  pub counter : ℕ
  pub generation : ℕ
  pub security_floor : ℕ

pub record Terminal : Type 0 where
  pub transaction_id : String
  pub operation : Operation
  pub outcome : Outcome
  pub terminal_digest : String

pub record Anchor : Type 0 where
  pub machine_id : String
  pub sequence : ℕ
  pub counter : ℕ
  pub generation : ℕ
  pub generation_floor : ℕ
  pub security_floor : ℕ
  pub selection : Option Selection
  pub terminal : Option Terminal
  pub anchor_digest : String

pub record Head : Type 0 where
  pub machine_id : String
  pub sequence : ℕ
  pub counter : ℕ
  pub generation : ℕ
  pub generation_floor : ℕ
  pub security_floor : ℕ
  pub selection : Option Selection
  pub phase : Phase
  pub tail_digest : String
  pub head_digest : String

pub record Context : Type 0 where
  pub session_id : String
  pub peer_id : String
  pub approver_id : String
  pub challenge : String
  pub helper_digest : String
  pub policy_digest : String
  pub confirmation_text_digest : String

-- What an offer says of the storage that it was made on.
pub record Basis : Type 0 where
  pub anchor_digest : String
  pub records_digest : String
  pub head : Head
  pub checkpoint_candidate : Option Anchor
  pub obsolete_checkpoint : Option Anchor
  pub minimum : Minimum
  pub state_digest : String
  pub classification : Classification
  pub journal_bytes : ℕ
  pub record_count : ℕ

pub record Offer : Type 0 where
  pub operation : Operation
  pub transaction_id : String
  pub origin_transaction_id : Option String
  pub candidate : Option Selection
  pub recovery_target : Target
  pub effects_scope : Scope
  pub basis : Basis
  pub context : Context
  pub required_records : ℕ
  pub expires_at : String
  pub offer_digest : String

pub record Confirmation : Type 0 where
  pub decision : Decision
  pub offer_digest : String

pub record Authorization : Type 0 where
  pub offer : Offer
  pub confirmation : Confirmation

pub record Record : Type 0 where
  pub sequence : ℕ
  pub record_kind : RecordKind
  pub transaction_id : String
  pub authorization : Option Authorization
  pub previous_digest : String
  pub record_digest : String

pub record Storage : Type 0 where
  pub anchor : Anchor
  pub records : List Record
  pub head : Head
  pub checkpoint_candidate : Option Anchor
  pub obsolete_checkpoint : Option Anchor
  pub integrity : Integrity

pub record LineageEntry : Type 0 where
  pub transaction_id : String
  pub offer_digest : String

-- The transaction in progress.
pub record Active : Type 0 where
  pub transaction_id : String
  pub origin_transaction_id : String
  pub operation : Operation
  pub original_operation : Operation
  pub stage : Stage
  pub publication_seen : Bool
  pub target_generation : ℕ
  pub candidate : Option Selection
  pub original_candidate : Option Selection
  pub previous : Option Selection
  pub lineage : List LineageEntry

pub record State : Type 0 where
  pub machine_id : String
  pub sequence : ℕ
  pub counter : ℕ
  pub generation : ℕ
  pub generation_floor : ℕ
  pub security_floor : ℕ
  pub selection : Option Selection
  pub terminal : Option Terminal
  pub tail_digest : String
  pub active : Option Active
