-- ===== src/Persistence/Examples.antt =====
-- A maintenance transaction on a machine whose selection stands at epoch 4, over a floor of 3.
use sec_app.Base.{
  ℕ, ◌+◌, ◌*◌, ◌%◌, String, true, false, none, some, List, [], ◌∷◌, ◌≡◌, ◌++◌, ◌≤◌, ◌⊎◌, length,
  Memᴰ, refl,
}
use sec_app.Persistence.Replay.Authorized.{Authorized, replay-Authorized}
use sec_app.Persistence.Advance.Invariant.{WellFormed, advance-WellFormed, from_anchor-WellFormed}
use sec_app.Persistence.Advance.Monotone.{Grows, advance-Grows, advance-Selects}
use sec_app.Persistence.Replay.Chain.{replay_chain, reservations, tail_of}
use sec_app.Persistence.Machine.Seal.{from_anchor-anchor_for}
use sec_app.Persistence.Machine.Faithful.{Settled, Durable, simulate-Settled, simulate-Durable}
use sec_app.Data.Decimal.{decimal}
use sec_app.Data.Order.{units}
use sec_app.Persistence.Types.{
  RecordKind, reserve, block, commit, complete, blocked, committed, Active, maintenance,
  approved_synthetic, known, ok, Anchor, Intent, Record, Storage, State, tx,
}
use sec_app.Persistence.State.{
  anchor_seal, from_anchor, head_for, intent_digest, confirmation_digest, state_digest,
}
use sec_app.Persistence.Machine.Replies.{is_sent}
use sec_app.Persistence.Machine.Types.{
  Event, write_record, flush, read_back, write_head, observe_quiescence, acknowledge, written,
  durable_hypothesis, matches, quiescent, journal_target, head_target, result_phase, delivered,
  held, Scenario,
}
use sec_app.Persistence.Machine.Run.{simulate_maintenance_persistence}
use sec_app.Persistence.Advance.{reserved, check_old, advance}
use sec_app.Persistence.State.{persistence_bytes}
use sec_app.Persistence.Replay.{links, replay_record, replay, persistence_state_digest}
use sec_app.Persistence.Machine.Checkpoint.{anchor_for}
use sec_app.Persistence.Machine.Journal.{
  next_record, write_record_case, flush_case, read_back_case, write_head_case,
}
use sec_app.Persistence.Machine.Run.{
  dispatch, guarded, step, loop, below_minimum, initial, start, finish,
}
use sec_app.Persistence.Machine.Replies.{observe_quiescence_case, acknowledge_case}

-- A stand-in for node:crypto's SHA-256: a polynomial digest, in decimal.
abbrev fold : ℕ → List ℕ → ℕ
fold h [] = h
fold h (c ∷ cs) = fold ((h * 131 + c) % 1000003) cs

unfoldable hash : String → String
unfolding units decimal
hash s = decimal (fold 7 (units s))

abbrev blank_anchor : Anchor
blank_anchor = record {
  machine_id = "synthetic-machine-A";
  sequence = 10;
  counter = 2;
  generation = 7;
  security_floor = 3;
  selection_digest = some "aa";
  selection_epoch = 4;
  last_transaction_id = some "synthetic-tx-2";
  anchor_digest = "";
}

abbrev anchor : Anchor
anchor = record blank_anchor { anchor_digest = anchor_seal hash blank_anchor }

abbrev state : State
state = record {
  machine_id = "synthetic-machine-A";
  sequence = 10;
  tail_digest = anchor.anchor_digest;
  counter = 2;
  generation = 7;
  generation_floor = 7;
  security_floor = 3;
  selection_digest = some "aa";
  selection_epoch = 4;
  last_transaction_id = some "synthetic-tx-2";
  active = none;
}

abbrev blank_intent : Intent
blank_intent = record {
  kind = maintenance;
  transaction_id = "synthetic-tx-3";
  origin_transaction_id = none;
  recovery_target = none;
  expected_state_digest = state_digest hash state;
  selection_digest = some "bb";
  selection_epoch = 5;
  confirmation = approved_synthetic;
  intent_digest = "";
  confirmation_digest = "";
}

abbrev bound_intent : Intent
bound_intent = record blank_intent { intent_digest = intent_digest hash blank_intent }

abbrev intent : Intent
intent = record bound_intent { confirmation_digest = confirmation_digest hash bound_intent }

abbrev storage : Storage
storage = record {
  anchor = anchor;
  records = [];
  head = head_for hash state;
  integrity = known;
  checkpoint_candidate = none;
}

-- A record is written, made durable and read back, and then the head after it.
abbrev recorded : RecordKind → List Event
recorded kind =
    write_record kind written
    ∷ flush journal_target durable_hypothesis
    ∷ read_back journal_target matches
    ∷ write_head written
    ∷ flush head_target durable_hypothesis
    ∷ read_back head_target matches
    ∷ []

abbrev whole : List Event
whole =
    recorded reserve
    ++ (observe_quiescence quiescent ∷ recorded block)
    ++ recorded commit
    ++ recorded complete
    ++ acknowledge result_phase delivered ∷ []

abbrev scenario : List Event → Scenario
scenario es = record {
  storage = storage;
  minimum = record { counter = 2; generation = 7; security_floor = 3 };
  intent = some intent;
  coordinator = held;
  events = es;
}

settled_whole : (simulate_maintenance_persistence hash (scenario whole)).selection_known ≡ true
unfolding reserved check_old advance persistence_bytes intent_digest confirmation_digest
    persistence_state_digest next_record write_record_case flush_case read_back_case write_head_case
    dispatch guarded step loop below_minimum initial start finish simulate_maintenance_persistence
    observe_quiescence_case acknowledge_case hash
settled_whole = refl

told_whole : is_sent (simulate_maintenance_persistence hash (scenario whole)).result_ack ≡ true
unfolding reserved check_old advance persistence_bytes intent_digest confirmation_digest
    persistence_state_digest next_record write_record_case flush_case read_back_case write_head_case
    dispatch guarded step loop below_minimum initial start finish simulate_maintenance_persistence
    observe_quiescence_case acknowledge_case hash
told_whole = refl

simulate-Settled_example : Settled hash (simulate_maintenance_persistence hash (scenario whole))
simulate-Settled_example = simulate-Settled hash (scenario whole) settled_whole

simulate-Durable_example :
    Durable hash (some intent) (simulate_maintenance_persistence hash (scenario whole))
simulate-Durable_example = simulate-Durable hash (scenario whole) told_whole

opened : from_anchor hash anchor ≡ ok state
unfolding from_anchor hash
opened = refl

state-WellFormed : WellFormed state
state-WellFormed = from_anchor-WellFormed hash anchor opened

from_anchor-anchor_for_example :
    from_anchor hash (anchor_for hash state)
    ≡ ok (record state { tail_digest = (anchor_for hash state).anchor_digest })
from_anchor-anchor_for_example = from_anchor-anchor_for hash state state-WellFormed refl

abbrev reserved_state : State
reserved_state = record state {
  counter = 3;
  active = some (reserved state none intent "synthetic-tx-3");
}

reservation : advance hash state reserve (some intent) "synthetic-tx-3" ≡ ok reserved_state
unfolding advance check_old intent_digest confirmation_digest state_digest tx hash anchor_seal
reservation = refl

advance-WellFormed_example : WellFormed reserved_state
advance-WellFormed_example =
    advance-WellFormed hash state reserved_state reserve (some intent) "synthetic-tx-3"
      state-WellFormed reservation

advance-Grows_example : Grows 1 state reserved_state
advance-Grows_example =
    advance-Grows hash state reserved_state reserve (some intent) "synthetic-tx-3" state-WellFormed
      reservation

-- The state after the reservation, the block and the commit.
abbrev blocked_active : Active
blocked_active = record (reserved state none intent "synthetic-tx-3") {
  stage = blocked;
  publication_pending = true;
}

abbrev blocked_state : State
blocked_state = record reserved_state {
  active = some blocked_active;
  generation_floor = 8;
  security_floor = 5;
}

abbrev committed_state : State
committed_state = record blocked_state {
  generation = 8;
  selection_digest = some "bb";
  selection_epoch = 5;
  active = some (record blocked_active { stage = committed; publication_pending = false });
}

commitment : advance hash blocked_state commit none "synthetic-tx-3" ≡ ok committed_state
unfolding advance reserved
commitment = refl

advance-Selects_example :
    ((committed_state.selection_digest ≡ blocked_state.selection_digest)
      × (committed_state.selection_epoch ≡ blocked_state.selection_epoch))
    ⊎ ((commit ≡ commit)
        × (a : Active) × (blocked_state.active ≡ some a)
        × (a.stage ≡ blocked)
        × (committed_state.selection_digest ≡ a.candidate_digest)
        × (committed_state.selection_epoch ≡ a.candidate_epoch))
advance-Selects_example =
    advance-Selects hash blocked_state committed_state commit none "synthetic-tx-3" commitment

-- The journal of one reservation.
abbrev journal : Storage
journal = record storage { records = next_record hash (some intent) state reserve ∷ [] }

abbrev journal_state : State
journal_state = record reserved_state {
  sequence = 11;
  tail_digest = (next_record hash (some intent) state reserve).record_digest;
}

replayed : replay hash journal ≡ ok journal_state
unfolding replay advance check_old intent_digest confirmation_digest state_digest tx hash
    next_record links replay_record
replayed = refl

replay_chain_example :
    WellFormed journal_state
    × (journal_state.counter ≡ journal.anchor.counter + reservations journal.records)
    × (journal_state.sequence ≡ journal.anchor.sequence + length journal.records)
    × (journal_state.tail_digest ≡ tail_of journal.anchor.anchor_digest journal.records)
    × (journal.anchor.generation ≤ journal_state.generation)
    × (journal.anchor.security_floor ≤ journal_state.security_floor)
replay_chain_example = replay_chain hash journal replayed

abbrev reserving : Record
reserving = next_record hash (some intent) state reserve

reserving_kind : reserving.record_kind ≡ reserve
unfolding next_record
reserving_kind = refl

replay-Authorized_example :
    (before : List Record) × (after : List Record) × (s : State) × (before ++ reserving ∷ after
      ≡ journal.records)
    × (replay hash (record journal { records = before }) ≡ ok s)
    × Authorized hash s reserving
replay-Authorized_example = replay-Authorized hash journal replayed (Memᴰ.head refl) reserving_kind
