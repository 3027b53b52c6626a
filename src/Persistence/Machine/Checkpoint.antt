-- ===== src/Persistence/Machine/Checkpoint.antt =====
-- tools/lib/maintenance-persistence-model.mjs: the checkpoint, and the journal's retirement.
use sec_app.Base.{String, true, false, not, ◌||◌, Option, none, some, [], ◌==◌, is_some, length}
use sec_app.Persistence.Types.{
  order_rejected, not_written, compaction_uncertain, Result, ok, problem, refuse_if, ◌>>◌, Anchor,
  Intent, Storage, State,
}
use sec_app.Persistence.State.{anchor_seal, from_anchor}
use sec_app.Persistence.Machine.Replies.{is_own}
use sec_app.Persistence.Machine.Types.{
  WriteResult, written, not_written as nothing_written, RetireResult, retired, not_retired,
  retire_unknown, checkpoint_write, Machine, head_current, stop,
}

module _ (sha256 : String → String) where
  -- The anchor of a state with no transaction in progress.
  unfoldable pub anchor_for : State → Anchor
  unfolding anchor_seal
  anchor_for s =
      let blank : Anchor = record {
        machine_id = s.machine_id;
        sequence = s.sequence;
        counter = s.counter;
        generation = s.generation;
        security_floor = s.security_floor;
        selection_digest = s.selection_digest;
        selection_epoch = s.selection_epoch;
        last_transaction_id = s.last_transaction_id;
        anchor_digest = "";
      } in
      record blank { anchor_digest = anchor_seal sha256 blank }

  -- The storage in which the checkpoint has taken the journal's place.
  abbrev pub compacted_disk : Storage → Anchor → Storage
  compacted_disk disk a = record disk { anchor = a; checkpoint_candidate = none; records = [] }

  abbrev pub compacted : Machine → Anchor → Result State → Machine
  compacted m a (ok s) = record m {
    disk = compacted_disk m.disk a;
    state = s;
    checkpoint_verified = false;
    checkpoint_published = false;
  }
  compacted m a (problem p) = stop sha256 p false (record m { disk = compacted_disk m.disk a })

  -- The journal gives way to its checkpoint. `fromAnchor` runs when the storage has changed, so a
  -- problem of its is a stop of the changed machine.
  unfoldable pub compact : Machine → Anchor → Machine
  compact m a = compacted m a (from_anchor sha256 a)

  unfoldable pub retire_journal_case : Machine → Option Anchor → RetireResult → Result Machine
  unfolding compact
  retire_journal_case m none result = problem order_rejected
  retire_journal_case m (some candidate) result = do
    refuse_if
        (is_some m.pending
          || not m.checkpoint_published
          || not m.checkpoint_verified
          || is_some m.state.active)
        order_rejected
    ok (elim result [
      | retired ↦ compact m candidate
      | retire_unknown ↦ stop sha256 compaction_uncertain true m
      | not_retired ↦ stop sha256 compaction_uncertain false m
    ])

  abbrev pub checkpoint_written : Machine → WriteResult → Machine
  checkpoint_written m nothing_written = stop sha256 not_written false m
  checkpoint_written m written = record m {
    disk = record m.disk { checkpoint_candidate = some (anchor_for m.state) };
    pending = some (record { flushed = false; write = checkpoint_write });
  }
  checkpoint_written m _ = stop sha256 compaction_uncertain true m

  unfoldable pub write_checkpoint_case : Option Intent → Machine → WriteResult → Result Machine
  write_checkpoint_case intent m result = do
    refuse_if
        (is_some m.pending
          || m.head_required
          || is_some m.disk.checkpoint_candidate
          || is_some m.state.active
          || not (head_current sha256 m)
          || not m.session_reserved
          || not (is_own m.state.last_transaction_id intent)
          || (length m.disk.records == 0))
        order_rejected
    ok (checkpoint_written m result)
