-- ===== src/Persistence/Advance.antt =====
-- tools/lib/maintenance-persistence-model.mjs: `advance`, one record applied to a state.
pub mod Cases
pub mod Monotone
pub mod Invariant
use sec_app.Base.{
  ℕ, ◌+◌, max, String, Bool, true, false, not, ◌&&◌, ◌||◌, Option, none, some, List, [], ◌∷◌, ◌++◌,
  ltb, leb, ◌==◌, str_eq, opt_eq, is_some, length, if◌then◌else◌, max_safe_integer,
}
use sec_app.Data.Json.{Json, cons, nil, arr, str, num, nullable}
use sec_app.Data.Jcs.{same}
use sec_app.Persistence.Types.{
  Problem, order_rejected, intent_rejected, confirmation_rejected, counter_overflow,
  generation_overflow, scope_rejected, epoch_rejected, lineage_full, Result, ok, problem, refuse_if,
  ◌>>◌, ◌>>=◌, RecordKind, reserve, block, commit, complete, Stage, admitted, blocked, committed,
  IntentKind, maintenance, recovery, RecoveryTarget, finalize_candidate, restore_permitted_previous,
  finish_committed_cleanup, Confirmation, approved_synthetic, Intent, LineageEntry, Active, State,
  tx,
}
use sec_app.Persistence.State.{state_digest, intent_digest, confirmation_digest}

abbrev pub is_approved : Confirmation → Bool
is_approved approved_synthetic = true
is_approved _ = false

-- `intent.recovery_target === "FinishCommittedCleanup"`
abbrev pub is_cleanup : Option RecoveryTarget → Bool
is_cleanup (some finish_committed_cleanup) = true
is_cleanup _ = false

abbrev pub is_committed : Stage → Bool
is_committed committed = true
is_committed _ = false

abbrev pub is_admitted : Stage → Bool
is_admitted admitted = true
is_admitted _ = false

abbrev pub is_blocked : Stage → Bool
is_blocked blocked = true
is_blocked _ = false

-- The pair of a selection's digest and epoch, as `same` compares it.
abbrev pub pair_json : Option String → ℕ → Json
pair_json digest epoch = arr (cons (nullable str digest) (cons (num epoch) nil))

-- Maintenance wants no transaction in progress; a recovery wants the one that it names.
abbrev pub kind_refused : IntentKind → Option String → Option Active → Bool
kind_refused maintenance origin old = is_some old
kind_refused recovery origin none = true
kind_refused recovery origin (some old) = not (opt_eq origin (some old.origin_transaction_id))

abbrev pub entry_of : Intent → String → LineageEntry
entry_of i transaction = record {
  transaction_id = transaction;
  intent_digest = i.intent_digest;
  confirmation_digest = i.confirmation_digest;
}

-- The active transaction that a reservation starts or takes over.
unfoldable pub reserved : State → Option Active → Intent → String → Active
reserved s old i transaction =
    let cleanup = is_cleanup i.recovery_target in
    record {
      transaction_id = transaction;
      origin_transaction_id = elim old [ none ↦ transaction | some a ↦ a.origin_transaction_id ];
      stage = if cleanup then committed else admitted;
      publication_pending = elim old [ none ↦ false | some a ↦ a.publication_pending ];
      cleanup_only = cleanup;
      target_generation = if cleanup then s.generation else s.generation_floor + 1;
      candidate_digest = i.selection_digest;
      candidate_epoch = i.selection_epoch;
      original_candidate_digest = elim old [
        | none ↦ i.selection_digest
        | some a ↦ a.original_candidate_digest
      ];
      original_candidate_epoch = elim old [
        | none ↦ i.selection_epoch
        | some a ↦ a.original_candidate_epoch
      ];
      previous_selection_digest = elim old [
        | none ↦ s.selection_digest
        | some a ↦ a.previous_selection_digest
      ];
      previous_selection_epoch = elim old [
        | none ↦ s.selection_epoch
        | some a ↦ a.previous_selection_epoch
      ];
      lineage = elim old [
        | none ↦ entry_of i transaction ∷ []
        | some a ↦ a.lineage ++ entry_of i transaction ∷ []
      ];
    }

module _ (sha256 : String → String) where
  -- The selection that a recovery must name.
  abbrev pub expected_pair : State → Active → Option RecoveryTarget → Json
  expected_pair s old (some finish_committed_cleanup) =
      pair_json s.selection_digest s.selection_epoch
  expected_pair s old (some finalize_candidate) =
      pair_json old.original_candidate_digest old.original_candidate_epoch
  expected_pair s old _ = pair_json old.previous_selection_digest old.previous_selection_epoch

  -- The checks of `advance` on the transaction in progress.
  unfoldable pub check_old : State → Option Active → Intent → Result (Unit {0})
  unfolding same
  check_old s none i = ok tt
  check_old s (some old) i = do
    refuse_if (leb 16 (length old.lineage)) lineage_full
    refuse_if
        (if is_cleanup i.recovery_target
          then not (is_committed old.stage) || old.publication_pending
          else not old.publication_pending)
        scope_rejected
    refuse_if
        (not (
          same sha256 (expected_pair s old i.recovery_target)
            (pair_json i.selection_digest i.selection_epoch)))
        scope_rejected

  -- A `Reserve` record: the intent is bound to this state and confirmed, and its scope is exact.
  unfoldable pub advance_reserve : State → Intent → String → Result State
  advance_reserve s i transaction = do
    refuse_if
        (not (str_eq i.intent_digest (intent_digest sha256 i))
          || not (str_eq i.expected_state_digest (state_digest sha256 s)))
        intent_rejected
    refuse_if
        (not (is_approved i.confirmation)
          || not (str_eq i.confirmation_digest (confirmation_digest sha256 i)))
        confirmation_rejected
    refuse_if (s.counter == max_safe_integer) counter_overflow
    refuse_if
        (not (str_eq transaction (tx (s.counter + 1))) || not (str_eq i.transaction_id transaction))
        intent_rejected
    refuse_if (kind_refused i.kind i.origin_transaction_id s.active) scope_rejected
    check_old s s.active i
    refuse_if
        (is_some i.selection_digest
          && ltb i.selection_epoch (max s.security_floor s.selection_epoch))
        epoch_rejected
    refuse_if (not (is_cleanup i.recovery_target) && (s.generation_floor == max_safe_integer))
        generation_overflow
    ok (record s { counter = s.counter + 1; active = some (reserved s s.active i transaction) })

-- `Block`: the publication begins, and its generation and floor are reserved for good.
unfoldable pub advance_block : State → Active → Result State
advance_block s a = do
  refuse_if (not (is_admitted a.stage) || a.cleanup_only) order_rejected
  ok (record s {
    active = some (record a { stage = blocked; publication_pending = true });
    generation_floor = a.target_generation;
    security_floor = max (max s.security_floor s.selection_epoch) a.candidate_epoch;
  })

-- `Commit`: the candidate is the selection.
unfoldable pub advance_commit : State → Active → Result State
advance_commit s a = do
  refuse_if (not (is_blocked a.stage)) order_rejected
  ok (record s {
    generation = a.target_generation;
    selection_digest = a.candidate_digest;
    selection_epoch = a.candidate_epoch;
    active = some (record a { stage = committed; publication_pending = false });
  })

-- `Complete`: the transaction is over.
unfoldable pub advance_complete : State → Active → String → Result State
advance_complete s a transaction = do
  refuse_if (not (is_committed a.stage)) order_rejected
  ok (record s { last_transaction_id = some transaction; active = none })

-- A record that is no reservation, against the transaction in progress.
unfoldable pub advance_active :
    State → Option Active → RecordKind → Option Intent → String → Result State
unfolding advance_block advance_commit advance_complete
advance_active s none kind intent transaction = problem order_rejected
advance_active s (some a) kind intent transaction =
    if not (str_eq a.transaction_id transaction) || is_some intent
    then problem order_rejected
    else elim kind [
      | reserve ↦ problem order_rejected
      | block ↦ advance_block s a
      | commit ↦ advance_commit s a
      | complete ↦ advance_complete s a transaction
    ]

unfoldable pub advance :
    (String → String) → State → RecordKind → Option Intent → String → Result State
unfolding advance_reserve advance_active
advance sha256 s reserve none transaction = problem intent_rejected
advance sha256 s reserve (some i) transaction = advance_reserve sha256 s i transaction
advance sha256 s kind intent transaction = advance_active s s.active kind intent transaction
