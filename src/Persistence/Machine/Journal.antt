-- ===== src/Persistence/Machine/Journal.antt =====
-- tools/lib/maintenance-persistence-model.mjs: the cases that write records and heads. A case
-- returns the machine that it leaves, stopped or not, or throws a `Problem` before a change.
use sec_app.Base.{
  ◌+◌, String, Bool, true, false, not, ◌&&◌, ◌||◌, Option, none, some, [], ◌∷◌, ◌++◌, ltb, leb,
  ◌==◌, is_some, length, if◌then◌else◌, max_safe_integer,
}
use sec_app.Data.Json.{array}
use sec_app.Persistence.Types.{
  order_rejected, runtime_busy, sequence_overflow, limit_exceeded, not_written, write_uncertain,
  flush_uncertain, read_back_mismatch, Result, ok, problem, refuse_if, ◌>>◌, ◌>>=◌, RecordKind,
  reserve, block, Anchor, Intent, Record, State,
}
use sec_app.Persistence.Encode.{record_json}
use sec_app.Persistence.State.{persistence_bytes, record_seal, from_anchor, head_for}
use sec_app.Persistence.Advance.{advance}
use sec_app.Persistence.Machine.Types.{
  WriteResult, written, not_written as nothing_written, FlushResult, durable_hypothesis, ReadResult,
  matches, Target, journal_target, head_target, checkpoint_target, Write, journal_write, head_write,
  checkpoint_write, Pending, Machine, raise_state, stop,
}

abbrev pub is_reserve : RecordKind → Bool
is_reserve reserve = true
is_reserve _ = false

abbrev is_block : RecordKind → Bool
is_block block = true
is_block _ = false

-- `input.intent?.transaction_id`; undefined, which equals no text, where there is no intent.
abbrev pub intent_transaction : Option Intent → String
intent_transaction none = ""
intent_transaction (some i) = i.transaction_id

abbrev target_eq : Target → Write → Bool
target_eq journal_target (journal_write r s) = true
target_eq head_target (head_write h c) = true
target_eq checkpoint_target checkpoint_write = true
target_eq _ _ = false

module _ (sha256 : String → String) (intent : Option Intent) where
  -- The record that a state is followed by.
  unfoldable pub next_record : State → RecordKind → Record
  unfolding record_seal
  next_record s kind =
      let blank : Record = record {
        sequence = s.sequence + 1;
        record_kind = kind;
        transaction_id = intent_transaction intent;
        intent = if is_reserve kind then intent else none;
        previous_digest = s.tail_digest;
        record_digest = "";
      } in
      record blank { record_digest = record_seal sha256 blank }

  -- A record that is written: its counters are reserved even where the write is uncertain.
  abbrev pub record_written : Machine → Record → State → WriteResult → Machine
  record_written m r next nothing_written = stop sha256 not_written false m
  record_written m r next written = record m {
    watermarks = raise_state m.watermarks next;
    pending = some (record { flushed = false; write = journal_write r next });
  }
  record_written m r next _ =
      stop sha256 write_uncertain true (record m { watermarks = raise_state m.watermarks next })

  unfoldable pub write_record_case : Machine → RecordKind → WriteResult → Result Machine
  write_record_case m kind result = do
    refuse_if (is_some m.pending || m.head_required || is_some m.disk.checkpoint_candidate)
        order_rejected
    refuse_if (if is_reserve kind then m.session_reserved else not m.session_reserved)
        order_rejected
    refuse_if (is_block kind && not m.quiescent) runtime_busy
    refuse_if (m.state.sequence == max_safe_integer) sequence_overflow
    refuse_if (leb 64 (length m.disk.records)) limit_exceeded
    advanced ←
        advance sha256 m.state kind (if is_reserve kind then intent else none)
          (intent_transaction intent)
    let r : Record = next_record m.state kind
    let next : State = record advanced { sequence = r.sequence; tail_digest = r.record_digest }
    refuse_if
        (ltb 16384 (persistence_bytes (record_json r))
          || ltb 1048576 (persistence_bytes (array record_json (m.disk.records ++ r ∷ []))))
        limit_exceeded
    ok (record_written m r next result)

  -- A write that has become durable.
  unfoldable pub settle : Machine → Write → Machine
  settle m (journal_write r next) = record m {
    disk = record m.disk { records = m.disk.records ++ r ∷ [] };
    state = next;
    session_reserved = m.session_reserved || is_reserve r.record_kind;
    pending = some (record { flushed = true; write = journal_write r next });
  }
  settle m (head_write h c) = record m {
    disk = record m.disk { head = h };
    pending = some (record { flushed = true; write = head_write h c });
  }
  settle m checkpoint_write = record m {
    pending = some (record { flushed = true; write = checkpoint_write });
  }

  unfoldable pub flush_case : Machine → Option Pending → Target → FlushResult → Result Machine
  unfolding settle
  flush_case m none target result = problem order_rejected
  flush_case m (some p) target result = do
    refuse_if (not (target_eq target p.write) || p.flushed) order_rejected
    ok (elim result [
      | durable_hypothesis ↦ settle m p.write
      | _ ↦ stop sha256 flush_uncertain true m
    ])

  -- A write that has been read back.
  unfoldable pub confirm : Machine → Write → Machine
  confirm m (journal_write r next) = record m { head_required = true; pending = none }
  confirm m (head_write h c) = record m {
    head_required = false;
    checkpoint_published = if c then true else m.checkpoint_published;
    pending = none;
  }
  confirm m checkpoint_write = record m { checkpoint_verified = true; pending = none }

  unfoldable pub read_back_case : Machine → Option Pending → Target → ReadResult → Result Machine
  unfolding confirm
  read_back_case m none target result = problem order_rejected
  read_back_case m (some p) target result = do
    refuse_if (not (target_eq target p.write) || not p.flushed) order_rejected
    ok (elim result [ matches ↦ confirm m p.write | _ ↦ stop sha256 read_back_mismatch true m ])

  -- The state whose head is written: the candidate's once the checkpoint is verified.
  abbrev pub head_source : Machine → Option Anchor → Result State
  head_source m none = ok m.state
  head_source m (some a) = if m.checkpoint_verified then from_anchor sha256 a else ok m.state

  abbrev pub head_written : Machine → State → Machine
  head_written m s = record m {
    pending =
        some (record {
          flushed = false;
          write = head_write (head_for sha256 s) m.checkpoint_verified;
        });
  }

  unfoldable pub write_head_case : Machine → WriteResult → Result Machine
  write_head_case m result = do
    refuse_if
        (is_some m.pending
          || (not m.head_required && not m.checkpoint_verified)
          || m.checkpoint_published)
        order_rejected
    elim result [
      | nothing_written ↦ ok (stop sha256 not_written false m)
      | written ↦ head_source m m.disk.checkpoint_candidate >>= λ s. ok (head_written m s)
      | _ ↦ ok (stop sha256 write_uncertain true m)
    ]
