-- ===== src/Recovery/Scenario.antt =====
-- tools/lib/maintenance-recovery-model.mjs: the scenario of a run, its events and its variables.
use sec_app.Base.{ℕ, String, Bool, Option, List}
use sec_app.Recovery.Types.{
  RecordKind, Problem, Minimum, Anchor, Head, Context, Authorization, Record, Storage, State,
}

pub data WriteResult : Type 0 where
  written unwritten write_unknown : WriteResult

pub data FlushResult : Type 0 where
  durable_hypothesis flush_unknown : FlushResult

pub data ReadResult : Type 0 where
  matches mismatch : ReadResult

pub data WriteTarget : Type 0 where
  record_target head_target checkpoint_target : WriteTarget

pub data AckPhase : Type 0 where
  admission_phase result_phase : AckPhase

pub data Delivery : Type 0 where
  not_sent delivered lost : Delivery

pub data Event : Type 0 where
  write_record : RecordKind → WriteResult → Event
  write_head write_checkpoint retire_journal : WriteResult → Event
  flush : WriteTarget → FlushResult → Event
  read_back : WriteTarget → ReadResult → Event
  query_status : ℕ → Event
  acknowledge : AckPhase → Delivery → Event
  crash_event cancel_event : Event

pub data Availability : Type 0 where
  ready busy availability_unknown : Availability

pub data Trust : Type 0 where
  trusted_synthetic untrusted : Trust

pub record Scenario : Type 0 where
  pub simulated_at : String
  pub storage : Storage
  pub minimum : Minimum
  pub context : Context
  pub evidence_trust : Trust
  pub coordinator : Availability
  pub quiescence : Availability
  pub authorization : Option Authorization
  pub events : List Event

-- What is written and not read back yet.
pub data Written : Type 0 where
  written_record : Record → State → Written
  written_head : Bool → Head → Written
  written_checkpoint : Anchor → Written

pub record Pending : Type 0 where
  pub flushed : Bool
  pub content : Written

pub data LastStatus : Type 0 where
  not_queried recovery_required_status active_status candidate_retired_status : LastStatus
  completed_status retired_status : LastStatus

pub record Machine : Type 0 where
  pub disk : Storage
  pub state : State
  pub minimum : Minimum
  pub reason : Option Problem
  pub stopped : Bool
  pub pending : Option Pending
  pub head_required : Bool
  pub admitted : Bool
  pub waiting : Bool
  pub initial_accepted : Bool
  pub checkpoint_verified : Bool
  pub checkpoint_published : Bool
  pub completed_checkpoint : Bool
  pub admission_ack : Delivery
  pub result_ack : Delivery
  pub last_status : LastStatus
