-- ===== src/Persistence/Machine/Sync.antt =====
-- What holds between the storage and the variables of the run.
use sec_app.Base.{String, Bool, true, false, Option, none, some, ◌≡◌, if◌then◌else◌}
use sec_app.Persistence.Types.{Problem, unknown, ok, Intent, Anchor, Storage, State, tx}
use sec_app.Persistence.Replay.{replay_record, replay}
use sec_app.Persistence.Machine.Types.{
  Ack, Write, journal_write, head_write, checkpoint_write, Pending, Machine, stop,
}
use sec_app.Persistence.Machine.Journal.{intent_transaction, is_reserve}
use sec_app.Persistence.Machine.Replies.{is_own, is_sent}
use sec_app.Persistence.Machine.Checkpoint.{anchor_for}

module _ (sha256 : String → String) (intent : Option Intent) where
  -- The transaction of the run is the one that the counter names.
  abbrev pub Named : State → Type 0
  Named s = intent_transaction intent ≡ tx s.counter

  -- A result that was acknowledged is that of the run's transaction, which is over.
  abbrev pub Concluded : State → Type 0
  Concluded s = (s.active ≡ none) × (is_own s.last_transaction_id intent ≡ true)

  -- A journal record that is written and not yet durable continues the journal, and nothing that
  -- would be retired or acknowledged stands beside it.
  abbrev pub WriteOk : Storage → State → Bool → Ack → Bool → Write → Type 0
  WriteOk disk s is_reserved result false (journal_write r n) =
      (replay_record sha256 s r ≡ ok n)
      × (disk.checkpoint_candidate ≡ none)
      × (is_sent result ≡ false)
      × (is_reserved ≡ true → n.counter ≡ s.counter)
      × (is_reserve r.record_kind ≡ true → Named n)
  WriteOk disk s is_reserved result flushed write = Unit {0}

  abbrev pub PendingOk : Storage → State → Bool → Ack → Option Pending → Type 0
  PendingOk disk s is_reserved result none = Unit {0}
  PendingOk disk s is_reserved result (some p) = WriteOk disk s is_reserved result p.flushed p.write

  -- A candidate is the checkpoint of the state, with no transaction in progress.
  abbrev pub CandidateOk : State → Option Anchor → Type 0
  CandidateOk s none = Unit {0}
  CandidateOk s (some a) = (a ≡ anchor_for sha256 s) × (s.active ≡ none)

  -- The storage replays to the state.
  pub record Synced (disk : Storage) (s : State) (pending : Option Pending) (is_reserved : Bool)
      (result : Ack) : Type 0 where
    pub replays : replay sha256 disk ≡ ok s
    pub pending_ok : PendingOk disk s is_reserved result pending
    pub candidate_ok : CandidateOk s disk.checkpoint_candidate
    pub named : is_reserved ≡ true → Named s
    pub concluded : is_sent result ≡ true → (is_reserved ≡ true) × Concluded s

  abbrev pub InSync : Machine → Type 0
  InSync m = Synced m.disk m.state m.pending m.session_reserved m.result_ack

  unsure-Synced :
      (unsure : Bool) (disk : Storage) (s : State) (p : Option Pending) (is_reserved : Bool)
      (result : Ack)
      → Synced disk s p is_reserved result
      → Synced (if unsure then record disk { integrity = unknown } else disk) s p is_reserved result
  unfolding replay
  unsure-Synced false disk s p is_reserved result w = w
  unsure-Synced true disk s none is_reserved result w = record {
    replays = w.replays;
    pending_ok = tt;
    candidate_ok = w.candidate_ok;
    named = w.named;
    concluded = w.concluded;
  }
  unsure-Synced true disk s (some p) is_reserved result w = record {
    replays = w.replays;
    pending_ok = write p.flushed p.write w.pending_ok;
    candidate_ok = w.candidate_ok;
    named = w.named;
    concluded = w.concluded;
  }
    where
      write :
          (flushed : Bool) (x : Write)
          → WriteOk disk s is_reserved result flushed x
          → WriteOk (record disk { integrity = unknown }) s is_reserved result flushed x
      write false (journal_write r n) h = h
      write false (head_write k c) h = tt
      write false checkpoint_write h = tt
      write true x h = tt

  pub stop-InSync :
      (why : Problem) (unsure : Bool) (m : Machine) → InSync m → InSync (stop sha256 why unsure m)
  unfolding stop
  stop-InSync why unsure m w =
      unsure-Synced unsure m.disk m.state m.pending m.session_reserved m.result_ack w

  -- What is in sync stays so when nothing is pending any more.
  pub cleared :
      {disk : Storage} {s : State} {p : Option Pending} {is_reserved : Bool} {result : Ack}
      → Synced disk s p is_reserved result
      → Synced disk s none is_reserved result
  cleared w = record {
    replays = w.replays;
    pending_ok = tt;
    candidate_ok = w.candidate_ok;
    named = w.named;
    concluded = w.concluded;
  }
