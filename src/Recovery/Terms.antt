-- ===== src/Recovery/Terms.antt =====
-- tools/lib/maintenance-recovery-model.mjs: the operations' kinds and costs, the anchor and the head of a
-- state without their digests, `checkMin` and `checkRecoveryCapacity`.
use Prim.Native.String.{len}
use sec_app.Base.{
  ℕ, ◌-◌, ◌*◌, String, Bool, true, false, not, ◌&&◌, ◌||◌, Option, none, some, List, [], ◌∷◌, ltb,
  leb, ◌==◌, str_eq, length, any, if◌then◌else◌, max_safe_integer,
}
use sec_app.Data.Json.{Json, array}
use sec_app.Data.Jcs.{jcs}
use sec_app.Persistence.Types.{tx}
use sec_app.Recovery.Types.{
  Operation, maintenance, recover_publication, finish_committed_cleanup, retire_admitted_candidate,
  compact_terminal_state, reconcile_checkpoint, Outcome, completed, candidate_retired,
  metadata_authorized, Stage, admitted, committed, Phase, stable_phase, stage_phase, RecordKind,
  admission, Integrity, known, unknown, Checked, gives, ◌>>◌, fail_if, minimum_conflict,
  capacity_invalid, capacity_exhausted, counter_or_sequence_overflow, lineage_full, Selection,
  Minimum, Terminal, Anchor, Head, Record, Storage, Active, State,
}
use sec_app.Recovery.Encode.{anchor_json, head_json, record_json}

-- `meta`
abbrev pub meta : Operation → Bool
meta maintenance = false
meta recover_publication = false
meta finish_committed_cleanup = false
meta _ = true

-- `checkpointOp`
abbrev pub checkpoint_op : Operation → Bool
checkpoint_op compact_terminal_state = true
checkpoint_op reconcile_checkpoint = true
checkpoint_op _ = false

-- `terminalOutcomes`
abbrev pub terminal_outcome : Operation → Outcome
terminal_outcome maintenance = completed
terminal_outcome recover_publication = completed
terminal_outcome finish_committed_cleanup = completed
terminal_outcome retire_admitted_candidate = candidate_retired
terminal_outcome compact_terminal_state = metadata_authorized
terminal_outcome reconcile_checkpoint = metadata_authorized

-- `costs`: the records that an operation writes.
abbrev pub costs : Operation → ℕ
costs maintenance = 6
costs recover_publication = 6
costs compact_terminal_state = 2
costs reconcile_checkpoint = 2
costs finish_committed_cleanup = 4
costs retire_admitted_candidate = 4

-- Outcomes are texts in the source.
abbrev pub outcome_eq : Outcome → Outcome → Bool
outcome_eq completed completed = true
outcome_eq candidate_retired candidate_retired = true
outcome_eq metadata_authorized metadata_authorized = true
outcome_eq _ _ = false

abbrev pub is_committed : Stage → Bool
is_committed committed = true
is_committed _ = false

abbrev pub is_admitted : Stage → Bool
is_admitted admitted = true
is_admitted _ = false

abbrev pub is_known : Integrity → Bool
is_known known = true
is_known unknown = false

-- `x?.epoch ?? 0`
abbrev pub epoch_of : Option Selection → ℕ
epoch_of none = 0
epoch_of (some t) = t.epoch

abbrev pub below : Option Selection → ℕ → Bool
below none floor = false
below (some t) floor = ltb t.epoch floor

-- recoveryBytes: the size of the canonical text in UTF-8.
unfoldable pub recovery_bytes : Json → ℕ
unfolding jcs
recovery_bytes v = len (jcs v)

-- The anchor of a state, before its digest.
abbrev pub anchor_of : State → String → Anchor
anchor_of s digest = record {
  machine_id = s.machine_id;
  sequence = s.sequence;
  counter = s.counter;
  generation = s.generation;
  generation_floor = s.generation_floor;
  security_floor = s.security_floor;
  selection = s.selection;
  terminal = s.terminal;
  anchor_digest = digest;
}

-- The state that an anchor stands for.
abbrev pub opened : Anchor → State
opened a = record {
  machine_id = a.machine_id;
  sequence = a.sequence;
  counter = a.counter;
  generation = a.generation;
  generation_floor = a.generation_floor;
  security_floor = a.security_floor;
  selection = a.selection;
  terminal = a.terminal;
  tail_digest = a.anchor_digest;
  active = none;
}

abbrev pub bad_terminal : Option Terminal → ℕ → Bool
bad_terminal none counter = false
bad_terminal (some t) counter =
    not (str_eq t.transaction_id (tx counter))
    || not (outcome_eq t.outcome (terminal_outcome t.operation))

-- The phase and the selection of a head: none while a publication was seen and not committed.
abbrev pub is_uncertain : Option Active → Bool
is_uncertain none = false
is_uncertain (some a) = a.publication_seen && not (is_committed a.stage)

abbrev pub phase_of : Option Active → Phase
phase_of none = stable_phase
phase_of (some a) = stage_phase a.stage

abbrev pub head_of : State → String → Head
head_of s digest = record {
  machine_id = s.machine_id;
  sequence = s.sequence;
  counter = s.counter;
  generation = s.generation;
  generation_floor = s.generation_floor;
  security_floor = s.security_floor;
  selection = if is_uncertain s.active then none else s.selection;
  phase = phase_of s.active;
  tail_digest = s.tail_digest;
  head_digest = digest;
}

unfoldable pub check_min : State → Minimum → Checked (Unit {0})
check_min s minimum =
    fail_if
      (not (s.counter == minimum.counter)
        || not (s.generation_floor == minimum.generation)
        || not (s.security_floor == minimum.security_floor))
      minimum_conflict

abbrev pub is_metadata_authorized : Option Terminal → Bool
is_metadata_authorized none = false
is_metadata_authorized (some t) = outcome_eq t.outcome metadata_authorized

-- Array.prototype.length !== 0
abbrev pub has_records : List Record → Bool
has_records [] = false
has_records (_ ∷ _) = true

abbrev pub is_admission : RecordKind → Bool
is_admission admission = true
is_admission _ = false

-- `findLast` of an admission; `found` is the one seen so far.
abbrev pub last_admission : Option Record → List Record → Option Record
last_admission found [] = found
last_admission found (r ∷ rs) =
    last_admission (if is_admission r.record_kind then some r else found) rs

abbrev pub is_reconcile : Operation → Bool
is_reconcile reconcile_checkpoint = true
is_reconcile _ = false

-- What `checkRecoveryCapacity` is given.
pub record Capacity : Type 0 where
  pub operation : Operation
  pub record_count : ℕ
  pub journal_bytes : ℕ
  pub sequence : ℕ
  pub counter : ℕ
  pub lineage : ℕ
  pub head_bytes : ℕ
  pub anchor_bytes : ℕ

abbrev pub unsafe : Capacity → Bool
unsafe v = any (ltb max_safe_integer) (
    v.record_count ∷ v.journal_bytes ∷ v.sequence ∷ v.counter ∷ v.lineage ∷ v.head_bytes
    ∷ v.anchor_bytes ∷ [])

unfoldable pub check_recovery_capacity : Capacity → Checked ℕ
check_recovery_capacity v = do
  fail_if (unsafe v) capacity_invalid
  fail_if
      (ltb (64 - costs v.operation) v.record_count
        || ltb (1048576 - costs v.operation * 16385) v.journal_bytes
        || ltb 8192 v.head_bytes
        || ltb 8192 v.anchor_bytes)
      capacity_exhausted
  fail_if (ltb (max_safe_integer - costs v.operation) v.sequence || (v.counter == max_safe_integer))
      counter_or_sequence_overflow
  fail_if (leb 16 v.lineage) lineage_full
  gives (costs v.operation)

abbrev pub lineage_length : Option Active → ℕ
lineage_length none = 0
lineage_length (some a) = length a.lineage

-- `capacity`
unfoldable pub capacity : Storage → State → Operation → Checked ℕ
unfolding check_recovery_capacity recovery_bytes record_json head_json anchor_json
capacity disk s operation = check_recovery_capacity (record {
  operation = operation;
  record_count = length disk.records;
  journal_bytes = recovery_bytes (array record_json disk.records);
  sequence = s.sequence;
  counter = s.counter;
  lineage = lineage_length s.active;
  head_bytes = recovery_bytes (head_json disk.head);
  anchor_bytes = recovery_bytes (anchor_json disk.anchor);
})
