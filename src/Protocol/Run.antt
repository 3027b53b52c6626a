-- ===== src/Protocol/Run.antt =====
-- tools/lib/maintenance-protocol-model.mjs: the checks before an event, the loop and the projection.
use sec_app.Base.{
  ℕ, ◌+◌, ◌-◌, max, String, Bool, true, false, not, ◌&&◌, ◌||◌, Option, none, some, List, [], ◌∷◌,
  ltb, leb, length, if◌then◌else◌,
}
use sec_app.Protocol.Types.{
  Outcome, not_committed, unknown_outcome, Store, Context, StorageStatus, known, unknown, State,
  await_peer, await_hello, await_bind, reviewed, offered, confirmed, admitted, publish_pending,
  Payload, query_status, Reason, storage_unknown, storage_invalid, clock_rejected, expired,
  replay_rejected, limit_exceeded, Action, interrupt, Event, local, wire, Scenario, Journal,
}
use sec_app.Protocol.Store.{store_problem}
use sec_app.Protocol.Session.{
  Session, Admission, not_consumed, LastStatus, not_queried, is_in, state_eq, recover, fail_if,
}
use sec_app.Protocol.Local.{local_case}
use sec_app.Protocol.Wire.{wire_case, journal_pending}

abbrev pub time_of : Event → ℕ
time_of (local t a) = t
time_of (wire t d x) = t

-- Shutdown and an exact status query go on after a lost reply.
abbrev is_query : Payload → Bool
is_query (query_status counter) = true
is_query _ = false

abbrev is_interrupt : Action → Bool
is_interrupt (interrupt why) = true
is_interrupt _ = false

abbrev survives_loss : Event → Bool
survives_loss (local t a) = is_interrupt a
survives_loss (wire t d x) = is_query x.payload

-- The three deadlines of a session.
abbrev pairing_over : Session → Bool
pairing_over m = is_in (await_peer ∷ await_hello ∷ await_bind ∷ []) m.state && ltb 30000 m.last_time

abbrev has_passed : Option ℕ → ℕ → Bool
has_passed none now = true
has_passed (some deadline) now = leb deadline now

abbrev pub offer_over : Session → Bool
offer_over m =
    is_in (reviewed ∷ offered ∷ confirmed ∷ []) m.state
    && has_passed m.offer_expires_at_ms m.last_time

abbrev intake_over : Session → Bool
intake_over m =
    state_eq m.state admitted
    && (ltb 600000 (m.last_time - m.intake_at)
        || (ltb m.member_index (length m.received) && ltb 30000 (m.last_time - m.payload_at)))

abbrev is_known : StorageStatus → Bool
is_known known = true
is_known unknown = false

-- What a run returns.
pub record Projection : Type 0 where
  pub state : State
  pub reason : Option Reason
  pub offer_digest : Option String
  pub confirmation_digest : Option String
  pub transaction_id : Option String
  pub admission : Admission
  pub counter_floor : ℕ
  pub security_floor : ℕ
  pub projected_store : Option Store
  pub outcome : Outcome
  pub control_frames : ℕ
  pub payload_frames : ℕ
  pub payload_bytes : ℕ
  pub last_status : LastStatus
  pub reply_lost : Bool

module _ (sha256 : String → String) (context : Context) where
  unfoldable pub event_case : Session → Event → Session
  event_case m (local t a) =
      fail_if (ltb 64 (m.local_count + 1)) limit_exceeded
        (record m { local_count = m.local_count + 1 })
        (local_case sha256 context (record m { local_count = m.local_count + 1 }) a)
  event_case m (wire t d x) = wire_case sha256 context m d x

  -- The checks at the time of an event.
  unfoldable pub timed_case : Session → Event → Session
  timed_case m e = fail_if (pairing_over m) expired m (
      fail_if (offer_over m) expired m (
        fail_if (intake_over m) expired m
          (fail_if (m.reply_lost && not (survives_loss e)) replay_rejected m (event_case m e))))

  -- One round of the loop.
  unfoldable pub step : Session → Event → Session
  step m e =
      let counted : Session = record m { events_processed = m.events_processed + 1 } in
      fail_if (ltb (time_of e) m.last_time) clock_rejected counted
        (timed_case (record counted { last_time = time_of e }) e)

  unfoldable pub loop : Session → List Event → Session
  loop m [] = m
  loop m (e ∷ es) = let rest = loop (step m e) es in if m.terminal then m else rest

  abbrev reserved_of : Option Journal → ℕ
  reserved_of none = 0
  reserved_of (some j) = j.reserved_floor

  abbrev pub initial : Session
  initial = record {
    store = context.store;
    state = await_peer;
    reason = none;
    offer_digest = none;
    confirmation_digest = none;
    offer_expires_at_ms = none;
    transaction_id = none;
    admission = not_consumed;
    counter_floor = context.store.counter;
    security_floor = max context.store.security_floor (reserved_of context.store.journal);
    hidden = false;
    outcome = not_committed;
    control_frames = 0;
    payload_frames = 0;
    payload_bytes = 0;
    events_processed = 0;
    last_status = not_queried;
    reply_lost = false;
    channel = none;
    helper_challenge = none;
    client_challenge = none;
    proposal = none;
    last_time = 0;
    local_count = 0;
    intake_at = 0;
    payload_at = 0;
    next_generation = 0;
    received = [];
    member_index = 0;
    helper_sequence = 0;
    ui_sequence = 0;
    terminal = false;
  }

  -- A selected store is never advertised while a publication is uncertain.
  unfoldable pub hide_pending : Session → Session
  hide_pending m =
      if state_eq m.state publish_pending || journal_pending m.store.journal
      then record m { hidden = true; outcome = unknown_outcome }
      else m

  unfoldable pub project : Session → Projection
  project m = record {
    state = m.state;
    reason = m.reason;
    offer_digest = m.offer_digest;
    confirmation_digest = m.confirmation_digest;
    transaction_id = m.transaction_id;
    admission = m.admission;
    counter_floor = m.counter_floor;
    security_floor = m.security_floor;
    projected_store = if m.hidden then none else some m.store;
    outcome = m.outcome;
    control_frames = m.control_frames;
    payload_frames = m.payload_frames;
    payload_bytes = m.payload_bytes;
    last_status = m.last_status;
    reply_lost = m.reply_lost;
  }

  -- The checks of the store before the first event.
  abbrev pub refusal : Option Reason
  refusal =
      if not (is_known context.storage_status)
      then some storage_unknown
      else if store_problem sha256 context.store
      then some storage_invalid
      else none

  abbrev pub finished : Option Reason → List Event → Session
  finished (some why) es = recover why initial
  finished none es = hide_pending (loop initial es)

unfoldable pub simulate_maintenance_protocol : (String → String) → Scenario → Projection
simulate_maintenance_protocol sha256 input =
    project sha256 input.context
      (finished sha256 input.context (refusal sha256 input.context) input.events)
