-- ===== src/Persistence/Machine/Run.antt =====
-- tools/lib/maintenance-persistence-model.mjs: the start, the loop and `finish`.
use sec_app.Base.{
  ◌+◌, String, Bool, true, false, not, ◌&&◌, ◌||◌, Option, none, some, List, [], ◌∷◌, ltb, is_some,
  if◌then◌else◌,
}
use sec_app.Persistence.Types.{
  Problem, storage_unknown, watermark_regression, head_mismatch, status_rejected,
  coordinator_unavailable, crash_stop, Result, ok, problem, refuse_if, ◌>>◌, ◌>>=◌, unknown, Anchor,
  Storage, State,
}
use sec_app.Persistence.State.{is_pending, head_matches}
use sec_app.Persistence.Replay.{is_known, replay}
use sec_app.Persistence.Machine.Types.{
  Event, write_record, flush, read_back, write_head, observe_quiescence, acknowledge, query_status,
  crash, write_checkpoint, retire_journal, Coordinator, held, Ack, not_sent, not_queried, Status,
  stable, in_progress, publication_blocked, completed, recovery_required, at_stage, Watermarks,
  Write, journal_write, head_write, checkpoint_write, Scenario, Machine, raise, raise_state,
  head_current, stop,
}
use sec_app.Persistence.Machine.Journal.{
  write_record_case, flush_case, read_back_case, write_head_case,
}
use sec_app.Persistence.Machine.Replies.{
  observe_quiescence_case, acknowledge_case, query_status_case,
}
use sec_app.Persistence.Machine.Checkpoint.{write_checkpoint_case, retire_journal_case}

abbrev is_held : Coordinator → Bool
is_held held = true
is_held _ = false

-- The events that are served without the coordinator and while a lost reply is open.
abbrev is_exempt : Event → Bool
is_exempt (query_status t c) = true
is_exempt crash = true
is_exempt _ = false

module _ (sha256 : String → String) (input : Scenario) where
  -- The `switch` of the loop.
  unfoldable pub dispatch : Machine → Event → Result Machine
  dispatch m (write_record kind result) = write_record_case sha256 input.intent m kind result
  dispatch m (flush target result) = flush_case sha256 input.intent m m.pending target result
  dispatch m (read_back target result) =
      read_back_case sha256 input.intent m m.pending target result
  dispatch m (write_head result) = write_head_case sha256 input.intent m result
  dispatch m (observe_quiescence result) = observe_quiescence_case sha256 input.intent m result
  dispatch m (acknowledge phase delivery) = acknowledge_case sha256 input.intent m phase delivery
  dispatch m (query_status t c) = query_status_case sha256 input.intent m t c
  dispatch m crash = ok (stop sha256 crash_stop false (record m { crashed = true }))
  dispatch m (write_checkpoint result) = write_checkpoint_case sha256 input.intent m result
  dispatch m (retire_journal result) =
      retire_journal_case sha256 m m.disk.checkpoint_candidate result

  -- One event under the two checks that stand before the switch.
  unfoldable pub guarded : Machine → Event → Result Machine
  guarded m e = do
    refuse_if (m.waiting_status && not (is_exempt e)) status_rejected
    refuse_if (not (is_exempt e) && not (is_held input.coordinator)) coordinator_unavailable
    dispatch m e

  -- One round of the loop: a `Problem` stops the run.
  unfoldable pub step : Machine → Event → Machine
  step m e =
      let counted : Machine = record m { events_processed = m.events_processed + 1 } in
      elim (guarded counted e) [ ok n ↦ n | problem p ↦ stop sha256 p false counted ]

  unfoldable pub loop : Machine → List Event → Machine
  loop m [] = m
  loop m (e ∷ es) = let rest = loop (step m e) es in if m.stopped then m else rest

  -- The checks of the start, on the replayed state.
  unfoldable pub below_minimum : State → Bool
  below_minimum s =
      ltb s.counter input.minimum.counter
      || ltb s.generation_floor input.minimum.generation
      || ltb s.security_floor input.minimum.security_floor

  -- `raise(disk.anchor)`: the watermarks before the replay.
  abbrev pub anchor_watermarks : Watermarks
  anchor_watermarks =
      let a : Anchor = input.storage.anchor in
      raise input.minimum a.counter a.generation a.security_floor

  -- The machine that begins on a replayed state.
  unfoldable pub initial : State → Machine
  initial s = record {
    disk = input.storage;
    state = s;
    pending = none;
    checkpoint_verified = false;
    checkpoint_published = false;
    head_required = false;
    quiescent = false;
    session_reserved = false;
    waiting_status = false;
    stopped = false;
    crashed = false;
    watermarks = raise_state anchor_watermarks s;
    status = stable;
    reason = none;
    admission_ack = not_sent;
    result_ack = not_sent;
    last_status = not_queried;
    events_processed = 0;
  }

  abbrev pub replayed : Result State
  replayed =
      refuse_if
        (not (is_known input.storage.integrity) || is_some input.storage.checkpoint_candidate)
        storage_unknown
      >> replay sha256 input.storage

  -- The start: the machine at its first event, or stopped with the storage unknown. Without a
  -- state there is no machine, and the projection holds the reason and the anchor's watermarks.
  unfoldable pub start : Result Machine
  unfolding replay head_matches
  start = replayed >>= λ s.
      let m = initial s in
      ok (
        if below_minimum s
        then stop sha256 watermark_regression true m
        else if not (head_current sha256 m)
        then stop sha256 head_mismatch true m
        else m)

-- What `finish` reports of the stage of a write.
pub data PendingStage : Type 0 where
  no_stage checkpoint_published_stage checkpoint_verified_stage : PendingStage
  journal_stage head_stage checkpoint_stage : Bool → PendingStage

pub record Projection : Type 0 where
  pub status : Status
  pub reason : Option Problem
  pub watermarks : Watermarks
  pub selection_known : Bool
  pub selected_digest : Option String
  pub pending_stage : PendingStage
  pub storage : Storage
  pub admission_ack : Ack
  pub result_ack : Ack

-- `${pending.target}${pending.flushed ? "Flushed" : "Written"}`
abbrev write_stage : Write → Bool → PendingStage
write_stage (journal_write r s) flushed = journal_stage flushed
write_stage (head_write h c) flushed = head_stage flushed
write_stage checkpoint_write flushed = checkpoint_stage flushed

unfoldable pub stage_of : Machine → PendingStage
stage_of m = elim m.pending [
  | some p ↦ write_stage p.write p.flushed
  | none ↦
      if is_some m.disk.checkpoint_candidate
      then if m.checkpoint_published then checkpoint_published_stage else checkpoint_verified_stage
      else no_stage
]

-- The status of a run that no event stopped.
unfoldable pub running_status : Machine → Status
running_status m =
    if is_some m.pending || m.head_required || is_some m.disk.checkpoint_candidate
    then in_progress
    else elim m.state.active [
      | none ↦ if m.session_reserved then completed else stable
      | some a ↦ if a.publication_pending then publication_blocked else at_stage a.stage
    ]

-- The statuses under which no selection is reported.
abbrev is_unsettled : Status → Bool
is_unsettled recovery_required = true
is_unsettled in_progress = true
is_unsettled publication_blocked = true
is_unsettled _ = false

module _ (sha256 : String → String) where
  -- `finish`: an interrupted write leaves the storage unknown, and a selection is reported only
  -- where the storage, the head and the transaction leave no doubt of it.
  unfoldable pub finish : Machine → Projection
  unfolding stage_of running_status
  finish m =
      let disk : Storage =
        if is_some m.pending then record m.disk { integrity = unknown } else m.disk in
      let status = if m.stopped then m.status else running_status m in
      let is_selected =
        is_known disk.integrity
        && not (is_some m.pending)
        && not (is_some disk.checkpoint_candidate)
        && head_current sha256 m
        && not (is_pending m.state.active)
        && not (is_unsettled status) in
      record {
        status = status;
        reason = m.reason;
        watermarks = m.watermarks;
        selection_known = is_selected;
        selected_digest = if is_selected then m.state.selection_digest else none;
        pending_stage = stage_of m;
        storage = disk;
        admission_ack = m.admission_ack;
        result_ack = m.result_ack;
      }

  -- The projection of a start that found no state.
  unfoldable pub refused : Scenario → Problem → Projection
  refused input why = record {
    status = recovery_required;
    reason = some why;
    watermarks = anchor_watermarks sha256 input;
    selection_known = false;
    selected_digest = none;
    pending_stage =
        if is_some input.storage.checkpoint_candidate then checkpoint_verified_stage else no_stage;
    storage = record input.storage { integrity = unknown };
    admission_ack = not_sent;
    result_ack = not_sent;
  }

  abbrev pub projected : Scenario → Result Machine → Projection
  projected input (ok m) = finish (loop sha256 input m input.events)
  projected input (problem p) = refused input p

  unfoldable pub simulate_maintenance_persistence : Scenario → Projection
  simulate_maintenance_persistence input = projected input (start sha256 input)
