-- ===== src/Protocol/Session.antt =====
-- tools/lib/maintenance-protocol-model.mjs: the variables of the run, `fail` and `requireState`.
use sec_app.Base.{
  ℕ, String, Bool, true, false, ◌&&◌, ◌||◌, Option, some, List, [], ◌∷◌, ◌==◌, any, is_some,
  if◌then◌else◌,
}
use sec_app.Protocol.Types.{
  Outcome, unknown_outcome, Store, Member, Proposal, State, await_peer, await_hello, await_bind,
  bound, proposed, reviewed, offered, confirmed, admitted, payload_verified, publish_pending,
  committed, cleanup_pending, completed, rejected, aborted, recovery_required, Reason,
  order_rejected, persistence_uncertain, trust_unavailable,
}

pub data Admission : Type 0 where
  not_consumed unknown_admission consumed : Admission

pub data LastStatus : Type 0 where
  not_queried completed_status recovery_required_status active_status retired_status : LastStatus

-- A member of the payload and how many of its bytes came in.
pub record Intake : Type 0 where
  pub member : Member
  pub received : ℕ

-- The variables of the loop, with the fields of `result` that it sets. `hidden` says that
-- `projected_store` is null; otherwise it is the store. `next_generation` is set with `proposal`.
pub record Session : Type 0 where
  pub store : Store
  pub state : State
  pub reason : Option Reason
  pub offer_digest : Option String
  pub confirmation_digest : Option String
  pub offer_expires_at_ms : Option ℕ
  pub transaction_id : Option String
  pub admission : Admission
  pub counter_floor : ℕ
  pub security_floor : ℕ
  pub hidden : Bool
  pub outcome : Outcome
  pub control_frames : ℕ
  pub payload_frames : ℕ
  pub payload_bytes : ℕ
  pub events_processed : ℕ
  pub last_status : LastStatus
  pub reply_lost : Bool
  pub channel : Option String
  pub helper_challenge : Option String
  pub client_challenge : Option String
  pub proposal : Option Proposal
  pub last_time : ℕ
  pub local_count : ℕ
  pub intake_at : ℕ
  pub payload_at : ℕ
  pub next_generation : ℕ
  pub received : List Intake
  pub member_index : ℕ
  pub helper_sequence : ℕ
  pub ui_sequence : ℕ
  pub terminal : Bool

abbrev pub state_code : State → ℕ
state_code await_peer = 0
state_code await_hello = 1
state_code await_bind = 2
state_code bound = 3
state_code proposed = 4
state_code reviewed = 5
state_code offered = 6
state_code confirmed = 7
state_code admitted = 8
state_code payload_verified = 9
state_code publish_pending = 10
state_code committed = 11
state_code cleanup_pending = 12
state_code completed = 13
state_code rejected = 14
state_code aborted = 15
state_code recovery_required = 16

abbrev pub state_eq : State → State → Bool
state_eq s t = state_code s == state_code t

-- `[...].includes(result.state)`
abbrev pub is_in : List State → State → Bool
is_in states s = any (state_eq s) states

abbrev pub is_uncertain : Reason → Bool
is_uncertain persistence_uncertain = true
is_uncertain trust_unavailable = true
is_uncertain _ = false

abbrev pub is_unconsumed : Admission → Bool
is_unconsumed not_consumed = true
is_unconsumed _ = false

abbrev pub is_consumed : Admission → Bool
is_consumed consumed = true
is_consumed _ = false

-- `recover`
unfoldable pub recover : Reason → Session → Session
recover why m = record m {
  state = recovery_required;
  reason = some why;
  hidden = true;
  outcome = unknown_outcome;
}

-- The branches of `fail` before the session is over.
unfoldable pub failed : Reason → Session → Session
unfolding recover
failed why m =
    if state_eq m.state publish_pending
      || is_uncertain why
      || (is_unconsumed m.admission && is_some m.store.journal)
    then recover why m
    else if state_eq m.state completed
    then record m { reason = some why }
    else if is_in (committed ∷ cleanup_pending ∷ []) m.state
    then record m { state = cleanup_pending; reason = some why }
    else record m {
      state = if is_consumed m.admission then aborted else rejected;
      reason = some why;
    }

unfoldable pub fail : Reason → Session → Session
unfolding failed
fail why m = record (failed why m) { terminal = true }

-- `if (!requireState(...states)) break;` before the rest of a case.
unfoldable pub require_state : List State → Session → Session → Session
require_state states m next = if is_in states m.state then next else fail order_rejected m

-- `if (condition) { fail(reason); break; }`
unfoldable pub fail_if : Bool → Reason → Session → Session → Session
fail_if refused why m next = if refused then fail why m else next
