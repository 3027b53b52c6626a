-- ===== src/Recovery/Run.antt =====
-- tools/lib/maintenance-recovery-model.mjs: the replies, the start, the loop and the end of
-- `simulateMaintenanceRecovery`.
use sec_app.Base.{
  ℕ, String, Bool, true, false, not, ◌&&◌, ◌||◌, Option, none, some, List, [], ◌∷◌, ltb, ◌==◌,
  str_eq, is_some, any, if◌then◌else◌,
}
use sec_app.Persistence.Types.{tx}
use sec_app.Recovery.Types.{
  candidate_retired, Classification, stable, active, conflict_or_unknown, Checked, fails, gives,
  ◌>>=◌, ◌>>◌, fail_if, Problem, unknown_evidence, order_rejected, crash, cancel, status_required,
  busy_or_unknown_quiescence, status_rejected, Selection, Minimum, Terminal, Storage, LineageEntry,
  Active, State, unknown, Authorization,
}
use sec_app.Recovery.State.{head_for, same_head, classify}
use sec_app.Recovery.Terms.{outcome_eq, opened}
use sec_app.Recovery.Advance.{reconstruct, inspect_recovery_snapshot}
use sec_app.Recovery.Machine.{
  stop, raise_state, raise_anchor, raise_head, is_own, is_checkpointing, write_record_case,
  flush_case, read_back_case, write_head_case, write_checkpoint_case, retire_journal_case,
}
use sec_app.Recovery.Scenario.{
  Event, write_record, write_head, write_checkpoint, retire_journal, flush, read_back, query_status,
  acknowledge, crash_event, cancel_event, Availability, ready, Trust, trusted_synthetic, untrusted,
  Scenario, AckPhase, admission_phase, result_phase, Delivery, not_sent, lost, LastStatus,
  not_queried, recovery_required_status, active_status, candidate_retired_status, completed_status,
  retired_status, Machine,
}

abbrev is_lost : Delivery → Bool
is_lost lost = true
is_lost _ = false

abbrev pub is_sent : Delivery → Bool
is_sent not_sent = false
is_sent _ = true

abbrev pub is_ready : Availability → Bool
is_ready ready = true
is_ready _ = false

abbrev pub is_trusted : Trust → Bool
is_trusted trusted_synthetic = true
is_trusted untrusted = false

-- `["Stable", "Active"].includes(classification)`
abbrev pub is_settled : Classification → Bool
is_settled stable = true
is_settled active = true
is_settled _ = false

abbrev pub class_of : Checked Classification → Classification
class_of (fails p) = conflict_or_unknown
class_of (gives c) = c

abbrev is_query : Event → Bool
is_query (query_status counter) = true
is_query _ = false

abbrev pub publication_seen : Option Active → Bool
publication_seen none = false
publication_seen (some a) = a.publication_seen

abbrev in_lineage : Option Active → String → Bool
in_lineage none t = false
in_lineage (some a) t = any (λ (e : LineageEntry). str_eq e.transaction_id t) a.lineage

abbrev names : Option Terminal → String → Bool
names none t = false
names (some x) t = str_eq x.transaction_id t

abbrev is_retired : Option Terminal → Bool
is_retired none = false
is_retired (some x) = outcome_eq x.outcome candidate_retired

abbrev is_named : Option Authorization → String → Bool
is_named none t = false
is_named (some a) t = str_eq t a.offer.transaction_id

pub data Status : Type 0 where
  stable_status active_run completed_run recovery_required : Status

pub record Projection : Type 0 where
  pub status : Status
  pub reason : Option Problem
  pub classification : Classification
  pub storage : Storage
  pub minimum : Minimum
  pub selection_known : Bool
  pub selection : Option Selection
  pub admission_ack : Delivery
  pub result_ack : Delivery
  pub last_status : LastStatus

module _ (sha256 : String → String) (date_parse : String → ℕ) (input : Scenario) where
  abbrev pub acknowledge_phase : Machine → AckPhase → Delivery → Checked Machine
  acknowledge_phase m admission_phase fate =
      fail_if (not (is_some m.state.active) || is_sent m.admission_ack) order_rejected
      >> gives (record m { admission_ack = fate; waiting = is_lost fate })
  acknowledge_phase m result_phase fate =
      fail_if
        (is_some m.state.active
          || not (is_own sha256 date_parse input m.state.terminal input.authorization)
          || is_sent m.result_ack
          || (is_checkpointing sha256 date_parse input m.state.terminal
              && not m.completed_checkpoint))
        order_rejected
      >> gives (record m { result_ack = fate; waiting = is_lost fate })

  unfoldable pub acknowledge_case : Machine → AckPhase → Delivery → Checked Machine
  acknowledge_case m phase fate =
      fail_if
        (is_some m.pending
          || m.head_required
          || not m.admitted
          || not (same_head sha256 m.disk.head (head_for sha256 m.state)))
        order_rejected
      >> acknowledge_phase m phase fate

  unfoldable pub status_of : Machine → String → LastStatus
  status_of m t =
      if is_some m.pending
        || m.head_required
        || not (is_settled (class_of (classify sha256 m.disk m.state m.minimum)))
      then recovery_required_status
      else if in_lineage m.state.active t
      then if publication_seen m.state.active && not m.admitted
        then recovery_required_status
        else active_status
      else if names m.state.terminal t
      then if is_retired m.state.terminal then candidate_retired_status else completed_status
      else retired_status

  unfoldable pub query_status_case : Machine → ℕ → Checked Machine
  unfolding status_of
  query_status_case m counter =
      fail_if (ltb m.state.counter counter || (counter == 0)) status_rejected
      >> gives (record m {
        last_status = status_of m (tx counter);
        waiting =
            if (counter == m.state.counter) && is_named input.authorization (tx counter)
            then false
            else m.waiting;
      })

  -- The checks before the `switch`, and the `switch`.
  abbrev pub dispatch : Machine → Event → Checked Machine
  dispatch m (write_record kind result) = write_record_case sha256 date_parse input m kind result
  dispatch m (flush target result) = flush_case sha256 date_parse input m m.pending target result
  dispatch m (read_back target result) =
      read_back_case sha256 date_parse input m m.pending target result
  dispatch m (write_head result) = write_head_case sha256 date_parse input m result
  dispatch m (write_checkpoint result) = write_checkpoint_case sha256 date_parse input m result
  dispatch m (retire_journal result) = retire_journal_case sha256 date_parse input m result
  dispatch m (acknowledge phase fate) = acknowledge_case m phase fate
  dispatch m (query_status counter) = query_status_case m counter
  dispatch m crash_event = gives (stop crash false m)
  dispatch m cancel_event = gives (stop cancel false m)

  abbrev is_end : Event → Bool
  is_end crash_event = true
  is_end cancel_event = true
  is_end _ = false

  unfoldable pub guarded : Machine → Event → Checked Machine
  guarded m e = do
    fail_if (not (is_end e) && m.waiting && not (is_query e)) status_required
    fail_if
        (not (is_end e)
          && not (is_query e)
          && (not (is_ready input.coordinator) || not (is_ready input.quiescence)))
        busy_or_unknown_quiescence
    dispatch m e

  -- A thrown `Problem` stops the run.
  abbrev pub caught : Machine → Checked Machine → Machine
  caught m (fails p) = stop p false m
  caught m (gives n) = n

  -- One round of the loop.
  unfoldable pub step : Machine → Event → Machine
  unfolding stop
  step m e = caught m (guarded m e)

  unfoldable pub loop : Machine → List Event → Machine
  loop m [] = m
  loop m (e ∷ es) = let rest = loop (step m e) es in if m.stopped then m else rest

  -- The minimum that the documents of the storage ask for.
  abbrev pub first_minimum : Minimum
  first_minimum =
      raise_anchor
        (raise_anchor
          (raise_head (raise_anchor input.minimum (some input.storage.anchor)) input.storage.head)
          input.storage.checkpoint_candidate)
        input.storage.obsolete_checkpoint

  abbrev pub raise_all : Minimum → List State → Minimum
  raise_all l [] = l
  raise_all l (s ∷ ss) = raise_all (raise_state l s) ss

  abbrev pub initial : Minimum → State → Machine
  initial minimum s = record {
    disk = input.storage;
    state = s;
    minimum = minimum;
    reason = none;
    stopped = false;
    pending = none;
    head_required = false;
    admitted = false;
    waiting = false;
    initial_accepted = false;
    checkpoint_verified = false;
    checkpoint_published = false;
    completed_checkpoint = false;
    admission_ack = not_sent;
    result_ack = not_sent;
    last_status = not_queried;
  }

  -- The `try` before the loop. Where the storage cannot be reconstructed there is no state; the run has
  -- stopped then and reads none.
  unfoldable pub start : Checked State → Minimum → Machine
  unfolding stop
  start (fails p) minimum = stop p false (initial minimum (opened input.storage.anchor))
  start (gives s) minimum = caught (initial minimum s) (
      classify sha256 input.storage s input.minimum >>= λ class.
      fail_if (not (is_trusted input.evidence_trust)) unknown_evidence
      >> gives (record (initial minimum s) { initial_accepted = true }))

  abbrev pub is_open : Machine → Bool
  is_open m = is_some m.pending || m.head_required

  unfoldable pub status_at : Machine → Classification → Status
  status_at m class =
      if m.stopped
      then recovery_required
      else if is_open m
          || not (is_settled class)
          || (publication_seen m.state.active && not m.admitted)
      then recovery_required
      else if is_some m.state.active
      then active_run
      else if m.admitted
      then completed_run
      else stable_status

  abbrev pub knows : Machine → Classification → Bool
  knows m class =
      m.initial_accepted
      && not (is_open m)
      && is_settled class
      && not (publication_seen m.state.active)

  abbrev pub snapshot_class : Checked (Classification × State) → Classification
  snapshot_class (fails p) = conflict_or_unknown
  snapshot_class (gives x) = x.0

  -- A storage with an unfinished write is not known to be whole.
  abbrev pub closed : Machine → Storage
  closed m = if is_open m then record m.disk { integrity = unknown } else m.disk

  unfoldable pub project : Machine → Classification → Projection
  unfolding status_at
  project m class = record {
    status = status_at m class;
    reason = m.reason;
    classification = class;
    storage = closed m;
    minimum = m.minimum;
    selection_known = knows m class;
    selection = if knows m class then m.state.selection else none;
    admission_ack = m.admission_ack;
    result_ack = m.result_ack;
    last_status = m.last_status;
  }

  unfoldable pub finish : Machine → Projection
  unfolding project
  finish m = project m (snapshot_class (inspect_recovery_snapshot sha256 (closed m) m.minimum))

  -- The machine at the end of the loop.
  abbrev pub ended : Machine
  ended =
      let whole = reconstruct sha256 input.storage in
      loop (start whole.1 (raise_all first_minimum whole.0)) input.events

  unfoldable pub simulate_maintenance_recovery : Projection
  simulate_maintenance_recovery = finish ended
