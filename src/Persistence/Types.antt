-- ===== src/Persistence/Types.antt =====
-- tools/lib/maintenance-persistence-model.mjs and its schema: the documents of the journal.
use sec_app.Base.{ℕ, String, Bool, Option, List}
use Prim.Native.String
use sec_app.Data.Decimal.{decimal}

-- The reasons that a `Problem` carries or that `stop` is given.
pub data Problem : Type 0 where
  storage_unknown storage_invalid head_mismatch watermark_regression : Problem
  coordinator_unavailable order_rejected intent_rejected confirmation_rejected : Problem
  counter_overflow generation_overflow sequence_overflow scope_rejected epoch_rejected : Problem
  lineage_full limit_exceeded not_written write_uncertain flush_uncertain : Problem
  read_back_mismatch runtime_busy status_rejected compaction_uncertain crash_stop : Problem

-- What a computation that may throw a `Problem` returns.
pub data Result {κ} (S : Type κ) : Type κ where
  problem : Problem → Result S
  ok : S → Result S

infixl 5 ◌>>=◌ ◌>>◌
-- `if (condition) problem(reason);`
abbrev pub refuse_if : Bool → Problem → Result (Unit {0})
refuse_if Bool.false why = ok tt
refuse_if Bool.true why = problem why

-- What follows runs only where no `Problem` was thrown before it.
abbrev pub ◌>>=◌ {κ ℓ} : {S : Type κ} {T : Type ℓ} → Result S → (S → Result T) → Result T
problem why >>= next = problem why
ok s >>= next = next s

abbrev pub ◌>>◌ {ℓ} : {T : Type ℓ} → Result (Unit {0}) → Result T → Result T
check >> after = check >>= λ _. after

pub data RecordKind : Type 0 where
  reserve block commit complete : RecordKind

pub data Stage : Type 0 where
  admitted blocked committed : Stage

pub data IntentKind : Type 0 where
  maintenance recovery : IntentKind

pub data RecoveryTarget : Type 0 where
  finalize_candidate restore_permitted_previous finish_committed_cleanup : RecoveryTarget

pub data Confirmation : Type 0 where
  approved_synthetic declined unknown_confirmation : Confirmation

pub data Integrity : Type 0 where
  known unknown : Integrity

-- The head's phase: Stable, or the stage of the active transaction, Blocked while it is uncertain.
pub data Phase : Type 0 where
  stable : Phase
  active_phase : Stage → Phase

pub record Anchor : Type 0 where
  pub machine_id : String
  pub sequence : ℕ
  pub counter : ℕ
  pub generation : ℕ
  pub security_floor : ℕ
  pub selection_digest : Option String
  pub selection_epoch : ℕ
  pub last_transaction_id : Option String
  pub anchor_digest : String

pub record Head : Type 0 where
  pub machine_id : String
  pub sequence : ℕ
  pub tail_digest : String
  pub counter : ℕ
  pub generation : ℕ
  pub generation_floor : ℕ
  pub security_floor : ℕ
  pub phase : Phase
  pub selection_digest : Option String
  pub selection_epoch : ℕ
  pub head_digest : String

pub record Intent : Type 0 where
  pub kind : IntentKind
  pub transaction_id : String
  pub origin_transaction_id : Option String
  pub recovery_target : Option RecoveryTarget
  pub expected_state_digest : String
  pub selection_digest : Option String
  pub selection_epoch : ℕ
  pub confirmation : Confirmation
  pub intent_digest : String
  pub confirmation_digest : String

pub record Record : Type 0 where
  pub sequence : ℕ
  pub record_kind : RecordKind
  pub transaction_id : String
  pub intent : Option Intent
  pub previous_digest : String
  pub record_digest : String

pub record Storage : Type 0 where
  pub anchor : Anchor
  pub records : List Record
  pub head : Head
  pub integrity : Integrity
  pub checkpoint_candidate : Option Anchor

pub record LineageEntry : Type 0 where
  pub transaction_id : String
  pub intent_digest : String
  pub confirmation_digest : String

-- The transaction in progress.
pub record Active : Type 0 where
  pub transaction_id : String
  pub origin_transaction_id : String
  pub stage : Stage
  pub publication_pending : Bool
  pub cleanup_only : Bool
  pub target_generation : ℕ
  pub candidate_digest : Option String
  pub candidate_epoch : ℕ
  pub original_candidate_digest : Option String
  pub original_candidate_epoch : ℕ
  pub previous_selection_digest : Option String
  pub previous_selection_epoch : ℕ
  pub lineage : List LineageEntry

-- What a replay of the journal rebuilds.
pub record State : Type 0 where
  pub machine_id : String
  pub sequence : ℕ
  pub tail_digest : String
  pub counter : ℕ
  pub generation : ℕ
  pub generation_floor : ℕ
  pub security_floor : ℕ
  pub selection_digest : Option String
  pub selection_epoch : ℕ
  pub last_transaction_id : Option String
  pub active : Option Active

-- `tx`: the transaction id of a counter.
unfoldable pub tx : ℕ → String
unfolding decimal
tx counter = String.◌++◌ "synthetic-tx-" (decimal counter)
