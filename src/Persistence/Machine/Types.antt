-- ===== src/Persistence/Machine/Types.antt =====
-- tools/lib/maintenance-persistence-model.mjs: the events, and the variables of the run.
use sec_app.Base.{
  ℕ, max, String, Bool, true, not, ◌||◌, Option, none, some, List, is_some, if◌then◌else◌,
}
use sec_app.Persistence.Types.{
  Problem, RecordKind, Stage, admitted, blocked, committed, unknown, Head, Intent, Record, Storage,
  State, Active,
}
use sec_app.Persistence.State.{is_pending, head_matches}

pub data WriteResult : Type 0 where
  written not_written torn uncertain : WriteResult

pub data FlushResult : Type 0 where
  durable_hypothesis flush_failed flush_unknown : FlushResult

pub data ReadResult : Type 0 where
  matches mismatch read_unknown : ReadResult

pub data Quiescence : Type 0 where
  quiescent busy quiescence_unknown : Quiescence

pub data Target : Type 0 where
  journal_target head_target checkpoint_target : Target

pub data AckPhase : Type 0 where
  admission_phase result_phase : AckPhase

pub data Delivery : Type 0 where
  delivered lost : Delivery

pub data RetireResult : Type 0 where
  retired not_retired retire_unknown : RetireResult

pub data Event : Type 0 where
  write_record : RecordKind → WriteResult → Event
  flush : Target → FlushResult → Event
  read_back : Target → ReadResult → Event
  write_head : WriteResult → Event
  observe_quiescence : Quiescence → Event
  acknowledge : AckPhase → Delivery → Event
  query_status : String → ℕ → Event
  crash : Event
  write_checkpoint : WriteResult → Event
  retire_journal : RetireResult → Event

pub data Coordinator : Type 0 where
  held coordinator_busy coordinator_unknown : Coordinator

pub data Ack : Type 0 where
  not_sent : Ack
  sent : Delivery → Ack

pub data LastStatus : Type 0 where
  not_queried active_status completed_status retired_status recovery_required_status : LastStatus

pub data Status : Type 0 where
  stable in_progress publication_blocked completed cleanup_pending : Status
  rejected recovery_required stopped_status : Status
  at_stage : Stage → Status

pub record Watermarks : Type 0 where
  pub counter : ℕ
  pub generation : ℕ
  pub security_floor : ℕ

-- What has been written and is not yet read back.
pub data Write : Type 0 where
  journal_write : Record → State → Write
  head_write : Head → Bool → Write
  checkpoint_write : Write

pub record Pending : Type 0 where
  pub flushed : Bool
  pub write : Write

pub record Scenario : Type 0 where
  pub storage : Storage
  pub minimum : Watermarks
  pub intent : Option Intent
  pub coordinator : Coordinator
  pub events : List Event

-- The variables of the loop, with the fields of `result` that it sets.
pub record Machine : Type 0 where
  pub disk : Storage
  pub state : State
  pub pending : Option Pending
  pub checkpoint_verified : Bool
  pub checkpoint_published : Bool
  pub head_required : Bool
  pub quiescent : Bool
  pub session_reserved : Bool
  pub waiting_status : Bool
  pub stopped : Bool
  pub crashed : Bool
  pub watermarks : Watermarks
  pub status : Status
  pub reason : Option Problem
  pub admission_ack : Ack
  pub result_ack : Ack
  pub last_status : LastStatus
  pub events_processed : ℕ

-- `raise`.
unfoldable pub raise : Watermarks → ℕ → ℕ → ℕ → Watermarks
raise w counter generation floor = record {
  counter = max w.counter counter;
  generation = max w.generation generation;
  security_floor = max w.security_floor floor;
}

abbrev pub raise_state : Watermarks → State → Watermarks
raise_state w s = raise w s.counter s.generation_floor s.security_floor

-- The status of a stop that leaves nothing uncertain.
abbrev settled_status : Option Active → Bool → Status
settled_status none crashed = if crashed then stopped_status else rejected
settled_status (some a) crashed = elim a.stage [
  | committed ↦ cleanup_pending
  | admitted ↦ recovery_required
  | blocked ↦ recovery_required
]

module _ (sha256 : String → String) where
  -- `headMatches()`
  abbrev pub head_current : Machine → Bool
  head_current m = head_matches sha256 m.disk.head m.state

  -- `stop`: the run ends; an uncertain write leaves the storage unknown.
  unfoldable pub stop : Problem → Bool → Machine → Machine
  stop why unsure m =
      let disk : Storage = if unsure then record m.disk { integrity = unknown } else m.disk in
      record m {
        disk = disk;
        stopped = true;
        reason = some why;
        status =
            if unsure
              || is_some m.pending
              || is_some m.disk.checkpoint_candidate
              || not (head_current m)
              || is_pending m.state.active
            then recovery_required
            else settled_status m.state.active m.crashed;
      }
