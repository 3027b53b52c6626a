-- ===== src/Persistence/Machine/Durable.antt =====
-- tools/lib/maintenance-persistence-model.mjs: the journal cases keep the storage and the state of
-- the run in step.
use sec_app.Base.{
  ℕ, String, Bool, true, false, not, ◌||◌, Option, none, some, ◌≡◌, ◌≢◌, sym, ◌∙◌, ap, inl, inr,
  arith, subst, is_some, if◌then◌else◌, Bool-cases, max_safe_integer, ◌==◌, ==_iff,
}
use sec_app.Persistence.Types.{
  not_written, write_uncertain, flush_uncertain, read_back_mismatch, Result, ok, RecordKind,
  reserve, block, commit, complete, Intent, Record, State, tx,
}
use sec_app.Persistence.Advance.{advance}
use sec_app.Persistence.Advance.Cases.{
  refuse-ok, Advanced, reserves, blocks, commits, completes, advance-Advanced,
}
use sec_app.Persistence.Advance.Invariant.{WellFormed}
use sec_app.Persistence.Advance.Monotone.{advance-Grows}
use sec_app.Persistence.Replay.{replay_record, replay}
use sec_app.Persistence.Replay.Chain.{bind-ok, replay_chain}
use sec_app.Persistence.Machine.Types.{
  WriteResult, written, torn, uncertain, not_written as nothing_written, FlushResult,
  durable_hypothesis, flush_failed, flush_unknown, ReadResult, matches, mismatch, read_unknown,
  Target, Write, journal_write, head_write, checkpoint_write, Pending, Machine, stop,
}
use sec_app.Persistence.Machine.Journal.{
  intent_transaction, is_reserve, next_record, record_written, write_record_case, settle,
  flush_case, confirm, read_back_case,
}
use sec_app.Persistence.Machine.Replies.{is_sent}
use sec_app.Persistence.Machine.Seal.{next_record-links, replay-append, ok-injective}
use sec_app.Persistence.Machine.Sync.{Named, WriteOk, PendingOk, InSync, stop-InSync, cleared}

pub third {ℓ} : {A : Type ℓ} (a b : Bool) (o : Option A) → (a || b || is_some o) ≡ false → o ≡ none
third a b o h = ground arith

second : (a b : Bool) → (a || b) ≡ false → b ≡ false
second a b h = ground arith

distinct : (m n : ℕ) → (m == n) ≡ false → m ≢ n
distinct m n h = ground (arith, ==_iff m n)

module _ (sha256 : String → String) (intent : Option Intent) where
  next_record-advance :
      (s : State) (kind : RecordKind) {r : Result State}
      → advance sha256 s kind (if is_reserve kind then intent else none) (intent_transaction intent)
        ≡ r
      → (let q : Record = next_record sha256 intent s kind in
          advance sha256 s q.record_kind q.intent q.transaction_id)
        ≡ r
  unfolding next_record
  next_record-advance s kind e = e

  -- The record that is written is replayed as it was advanced.
  next_record-replay :
      (s : State) (kind : RecordKind) {n : State}
      → s.sequence ≢ max_safe_integer
      → advance sha256 s kind (if is_reserve kind then intent else none) (intent_transaction intent)
        ≡ ok n
      → replay_record sha256 s (next_record sha256 intent s kind)
        ≡ ok (record n {
          sequence = (next_record sha256 intent s kind).sequence;
          tail_digest = (next_record sha256 intent s kind).record_digest;
        })
  unfolding replay_record
  next_record-replay s kind h e =
      rw (next_record-links sha256 s intent kind h, next_record-advance s kind e)

  -- A reservation names the counter that it takes.
  reserve-Named :
      (s : State) (kind : RecordKind) (i : Option Intent) {n : State}
      → advance sha256 s kind i (intent_transaction intent) ≡ ok n
      → is_reserve kind ≡ true
      → Named sha256 intent n
  reserve-Named s reserve (some i) h _ = elim (advance-Advanced sha256 s _ _ reserve (some i) h) [
    | reserves can made ↦ ground (arith, can.next)
  ]
  reserve-Named s reserve none h _ = elim (advance-Advanced sha256 s _ _ reserve none h) [ ]
  reserve-Named s block i h e = cc
  reserve-Named s commit i h e = cc
  reserve-Named s complete i h e = cc

  Advanced-idle :
      {s n : State} {t : String} {kind : RecordKind} {i : Option Intent}
      → Advanced sha256 s t n kind i
      → is_reserve kind ≡ false
      → s.active ≢ none
  Advanced-idle (reserves can made) e = ground arith
  Advanced-idle (blocks now _ _ _ _) e = λ free. ground arith
  Advanced-idle (commits now _ _ _) e = λ free. ground arith
  Advanced-idle (completes now _ _ _) e = λ free. ground arith

  -- No other record is accepted without a transaction in progress.
  idle-reserve :
      (s : State) (kind : RecordKind) (i : Option Intent) (t : String) {n : State}
      → advance sha256 s kind i t ≡ ok n
      → is_reserve kind ≡ false
      → s.active ≢ none
  idle-reserve s kind i t h e = Advanced-idle (advance-Advanced sha256 s t _ kind i h) e

  other-counter :
      (s : State) (kind : RecordKind) (i : Option Intent) (t : String) {n : State}
      → WellFormed s
      → advance sha256 s kind i t ≡ ok n
      → is_reserve kind ≡ false
      → n.counter ≡ s.counter
  other-counter s kind i t w h e = ground (arith, advance-Grows sha256 s _ kind i t w h)

  -- Nothing is written after the result of the run is acknowledged.
  unsent :
      (m : Machine) (kind : RecordKind) (i : Option Intent) (t : String) {n : State}
      → InSync sha256 intent m
      → (if is_reserve kind then m.session_reserved else not m.session_reserved) ≡ false
      → advance sha256 m.state kind i t ≡ ok n
      → is_sent m.result_ack ≡ false
  unsent m kind i t w turn h = elim (Bool-cases (is_sent m.result_ack)) [
    | inr e ↦ e
    | inl e ↦
        let (own, idle) = w.concluded e in
        absurd (idle-reserve m.state kind i t h (ground (arith, own)) idle.0)
  ]

  journal-WriteOk :
      (m : Machine) (kind : RecordKind) {a : State}
      → InSync sha256 intent m
      → m.disk.checkpoint_candidate ≡ none
      → m.state.sequence ≢ max_safe_integer
      → (if is_reserve kind then m.session_reserved else not m.session_reserved) ≡ false
      → advance sha256 m.state kind
          (if is_reserve kind then intent else none)
          (intent_transaction intent)
        ≡ ok a
      → (let r : Record = next_record sha256 intent m.state kind in
          WriteOk sha256 intent m.disk m.state m.session_reserved m.result_ack false
            (journal_write r (record a { sequence = r.sequence; tail_digest = r.record_digest })))
  unfolding next_record
  journal-WriteOk m kind w no_candidate room turn h = (
    next_record-replay m.state kind room h,
    no_candidate,
    unsent m kind _ _ w turn h,
    (λ own.
        other-counter m.state kind _ _ (replay_chain sha256 m.disk w.replays).0 h (ground arith)),
    reserve-Named m.state kind _ h,
  )

  record_written-InSync :
      (m : Machine) (r : Record) (next : State) (result : WriteResult)
      → InSync sha256 intent m
      → WriteOk sha256 intent m.disk m.state m.session_reserved m.result_ack false
          (journal_write r next)
      → InSync sha256 intent (record_written sha256 intent m r next result)
  record_written-InSync m r next nothing_written w h =
      stop-InSync sha256 intent not_written false m w
  record_written-InSync m r next written w h = record {
    replays = w.replays;
    pending_ok = h;
    candidate_ok = w.candidate_ok;
    named = w.named;
    concluded = w.concluded;
  }
  record_written-InSync m r next torn w h = stop-InSync sha256 intent write_uncertain true _ w
  record_written-InSync m r next uncertain w h = stop-InSync sha256 intent write_uncertain true _ w

  pub write_record-InSync :
      (m : Machine) (kind : RecordKind) (result : WriteResult) {n : Machine}
      → InSync sha256 intent m
      → write_record_case sha256 intent m kind result ≡ ok n
      → InSync sha256 intent n
  unfolding write_record_case
  write_record-InSync m kind result {n} w h0 =
      let (quiet, h1) = refuse-ok _ _ _ h0 in
      let (turn, h2) = refuse-ok _ _ _ h1 in
      let (_, h3) = refuse-ok _ _ _ h2 in
      let (room, h4) = refuse-ok _ _ _ h3 in
      let (_, h5) = refuse-ok _ _ _ h4 in
      let (a, stepped, h6) = bind-ok _ _ h5 in
      let (_, h7) = refuse-ok _ _ _ h6 in
      subst (InSync sha256 intent) (ok-injective _ _ h7) (
        record_written-InSync m _ _ result w (
          journal-WriteOk m kind w (third (is_some m.pending) m.head_required _ quiet)
            (distinct m.state.sequence max_safe_integer room) turn stepped))

  -- A write that becomes durable.
  settle-InSync :
      (m : Machine) (p : Pending)
      → InSync sha256 intent m
      → m.pending ≡ some p
      → p.flushed ≡ false
      → InSync sha256 intent (settle sha256 intent m p.write)
  unfolding settle replay
  settle-InSync m p w e f = at p.write (
      subst (λ b. WriteOk sha256 intent m.disk m.state m.session_reserved m.result_ack b p.write) f
        (subst (PendingOk sha256 intent m.disk m.state m.session_reserved m.result_ack) e
          w.pending_ok))
    where
      at :
          (x : Write)
          → WriteOk sha256 intent m.disk m.state m.session_reserved m.result_ack false x
          → InSync sha256 intent (settle sha256 intent m x)
      at (journal_write r next) h = record {
        replays = replay-append sha256 m.disk r w.replays h.0;
        pending_ok = tt;
        candidate_ok = rw h.1 tt;
        named = λ own. elim (Bool-cases (is_reserve r.record_kind)) [
          | inl e ↦ h.4 e
          | inr e ↦
              let before : m.session_reserved ≡ true = ground (arith, own) in
              w.named before ∙ ap tx (sym (h.3 before))
        ];
        concluded = λ told. ground (arith, told, h.2);
      }
      at (head_write k c) h = record {
        replays = w.replays;
        pending_ok = tt;
        candidate_ok = w.candidate_ok;
        named = w.named;
        concluded = w.concluded;
      }
      at checkpoint_write h = record {
        replays = w.replays;
        pending_ok = tt;
        candidate_ok = w.candidate_ok;
        named = w.named;
        concluded = w.concluded;
      }

  flushed-InSync :
      (m : Machine) (p : Pending) (result : FlushResult)
      → InSync sha256 intent m
      → m.pending ≡ some p
      → p.flushed ≡ false
      → InSync sha256 intent (elim result [
        | durable_hypothesis ↦ settle sha256 intent m p.write
        | _ ↦ stop sha256 flush_uncertain true m
      ])
  flushed-InSync m p durable_hypothesis w e f = settle-InSync m p w e f
  flushed-InSync m p flush_failed w e f = stop-InSync sha256 intent flush_uncertain true m w
  flushed-InSync m p flush_unknown w e f = stop-InSync sha256 intent flush_uncertain true m w

  pub flush-InSync :
      (m : Machine) (o : Option Pending) (target : Target) (result : FlushResult) {n : Machine}
      → InSync sha256 intent m
      → m.pending ≡ o
      → flush_case sha256 intent m o target result ≡ ok n
      → InSync sha256 intent n
  unfolding flush_case
  flush-InSync m none target result w e h = ground arith
  flush-InSync m (some p) target result w e h =
      let (turn, h1) = refuse-ok _ _ _ h in
      subst (InSync sha256 intent) (ok-injective _ _ h1)
        (flushed-InSync m p result w e (second _ _ turn))

  confirm-InSync :
      (m : Machine) (x : Write)
      → InSync sha256 intent m
      → InSync sha256 intent (confirm sha256 intent m x)
  unfolding confirm
  confirm-InSync m (journal_write r n) w = cleared sha256 intent w
  confirm-InSync m (head_write k c) w = cleared sha256 intent w
  confirm-InSync m checkpoint_write w = cleared sha256 intent w

  read-InSync :
      (m : Machine) (p : Pending) (result : ReadResult)
      → InSync sha256 intent m
      → InSync sha256 intent (elim result [
        | matches ↦ confirm sha256 intent m p.write
        | _ ↦ stop sha256 read_back_mismatch true m
      ])
  read-InSync m p matches w = confirm-InSync m p.write w
  read-InSync m p mismatch w = stop-InSync sha256 intent read_back_mismatch true m w
  read-InSync m p read_unknown w = stop-InSync sha256 intent read_back_mismatch true m w

  pub read_back-InSync :
      (m : Machine) (o : Option Pending) (target : Target) (result : ReadResult) {n : Machine}
      → InSync sha256 intent m
      → read_back_case sha256 intent m o target result ≡ ok n
      → InSync sha256 intent n
  unfolding read_back_case
  read_back-InSync m none target result w h = ground arith
  read_back-InSync m (some p) target result w h =
      let (_, h1) = refuse-ok _ _ _ h in
      subst (InSync sha256 intent) (ok-injective _ _ h1) (read-InSync m p result w)
