-- ===== src/Persistence/Machine/Faithful.antt =====
-- tools/lib/maintenance-persistence-model.mjs: what a run reports, against the storage it leaves.
use sec_app.Base.{
  ◌+◌, String, Bool, true, false, not, ◌&&◌, ◌||◌, Option, none, List, [], ◌∷◌, ◌≡◌, refl, arith,
  subst, is_some, if◌then◌else◌,
}
use sec_app.Persistence.Types.{
  Problem, crash_stop, head_mismatch, watermark_regression, storage_unknown, status_rejected,
  coordinator_unavailable, Result, ok, problem, unknown, Intent, Storage, State,
}
use sec_app.Persistence.State.{is_pending, head_matches}
use sec_app.Persistence.Advance.Cases.{refuse-ok}
use sec_app.Persistence.Replay.{is_known, replay}
use sec_app.Persistence.Replay.Chain.{bind-ok}
use sec_app.Persistence.Machine.Types.{
  Event, write_record, flush, read_back, write_head, observe_quiescence, acknowledge, query_status,
  crash, write_checkpoint, retire_journal, Scenario, Machine, stop,
}
use sec_app.Persistence.Machine.Replies.{is_own, is_sent}
use sec_app.Persistence.Machine.Seal.{ok-injective}
use sec_app.Persistence.Machine.Sync.{Named, InSync, stop-InSync}
use sec_app.Persistence.Machine.Durable.{write_record-InSync, flush-InSync, read_back-InSync}
use sec_app.Persistence.Machine.Kept.{
  observe-InSync, query-InSync, write_head-InSync, acknowledge-InSync, write_checkpoint-InSync,
  retire-InSync,
}
use sec_app.Persistence.Machine.Run.{
  dispatch, guarded, step, loop, below_minimum, initial, replayed, start, Projection, finish,
  refused, projected, simulate_maintenance_persistence,
}

no_candidate {ℓ} : {A : Type ℓ} (b : Bool) (o : Option A) → (b || is_some o) ≡ false → o ≡ none
no_candidate b o h = ground arith

module _ (sha256 : String → String) (input : Scenario) where
  dispatch-InSync :
      (m : Machine) (e : Event) {n : Machine}
      → InSync sha256 input.intent m
      → dispatch sha256 input m e ≡ ok n
      → InSync sha256 input.intent n
  unfolding dispatch
  dispatch-InSync m (write_record kind result) w h =
      write_record-InSync sha256 input.intent m kind result w h
  dispatch-InSync m (flush target result) w h =
      flush-InSync sha256 input.intent m m.pending target result w refl h
  dispatch-InSync m (read_back target result) w h =
      read_back-InSync sha256 input.intent m m.pending target result w h
  dispatch-InSync m (write_head result) w h = write_head-InSync sha256 input.intent m result w h
  dispatch-InSync m (observe_quiescence result) w h =
      observe-InSync sha256 input.intent m result w h
  dispatch-InSync m (acknowledge phase d) w h = acknowledge-InSync sha256 input.intent m phase d w h
  dispatch-InSync m (query_status t c) w h = query-InSync sha256 input.intent m t c w h
  dispatch-InSync m crash w h =
      subst (InSync sha256 input.intent) (ok-injective _ _ h)
        (stop-InSync sha256 input.intent crash_stop false (record m { crashed = true }) w)
  dispatch-InSync m (write_checkpoint result) w h =
      write_checkpoint-InSync sha256 input.intent m result w h
  dispatch-InSync m (retire_journal result) w h =
      retire-InSync sha256 input.intent m m.disk.checkpoint_candidate result w refl h

  guarded-InSync :
      (m : Machine) (e : Event) {n : Machine}
      → InSync sha256 input.intent m
      → guarded sha256 input m e ≡ ok n
      → InSync sha256 input.intent n
  unfolding guarded
  guarded-InSync m e w h =
      let (_, h1) = refuse-ok _ status_rejected _ h in
      let (_, h2) = refuse-ok _ coordinator_unavailable _ h1 in dispatch-InSync m e w h2

  outcome-InSync :
      (m : Machine) (r : Result Machine)
      → InSync sha256 input.intent m
      → ((n : Machine) → r ≡ ok n → InSync sha256 input.intent n)
      → InSync sha256 input.intent (elim r [ ok n ↦ n | problem p ↦ stop sha256 p false m ])
  outcome-InSync m (ok n) w h = h n refl
  outcome-InSync m (problem p) w h = stop-InSync sha256 input.intent p false m w

  step-InSync :
      (m : Machine) (e : Event)
      → InSync sha256 input.intent m
      → InSync sha256 input.intent (step sha256 input m e)
  unfolding step
  step-InSync m e w =
      let counted : Machine = record m { events_processed = m.events_processed + 1 } in
      outcome-InSync counted (guarded sha256 input counted e) w
        (λ n h. guarded-InSync counted e w h)

  choice-InSync :
      (b : Bool) (m n : Machine)
      → InSync sha256 input.intent m
      → InSync sha256 input.intent n
      → InSync sha256 input.intent (if b then m else n)
  choice-InSync true m n v w = v
  choice-InSync false m n v w = w

  loop-InSync :
      (m : Machine) (es : List Event)
      → InSync sha256 input.intent m
      → InSync sha256 input.intent (loop sha256 input m es)
  unfolding loop
  loop-InSync m [] w = w
  loop-InSync m (e ∷ es) w =
      choice-InSync m.stopped m _ w (loop-InSync (step sha256 input m e) es (step-InSync m e w))

  initial-InSync :
      (s : State)
      → replay sha256 input.storage ≡ ok s
      → input.storage.checkpoint_candidate ≡ none
      → InSync sha256 input.intent (initial sha256 input s)
  unfolding initial
  initial-InSync s h e = record {
    replays = h;
    pending_ok = tt;
    candidate_ok = rw e tt;
    named = λ own. ground arith;
    concluded = λ told. ground arith;
  }

  start-InSync : {m : Machine} → start sha256 input ≡ ok m → InSync sha256 input.intent m
  unfolding start
  start-InSync h =
      let (s, found, h1) = bind-ok (replayed sha256 input) _ h in
      let (sound, replays) = refuse-ok _ storage_unknown _ found in
      let w = initial-InSync s replays (no_candidate _ _ sound) in
      let stopped =
        λ (why : Problem). stop-InSync sha256 input.intent why true (initial sha256 input s) w in
      subst (InSync sha256 input.intent) (ok-injective _ _ h1) (
        choice-InSync (below_minimum sha256 input s) _ _ (stopped watermark_regression)
          (choice-InSync _ _ _ (stopped head_mismatch) w))

  -- A run that begins leaves a machine in step with its storage.
  run-InSync :
      {m : Machine}
      → start sha256 input ≡ ok m
      → InSync sha256 input.intent (loop sha256 input m input.events)
  run-InSync {m} h = loop-InSync m input.events (start-InSync h)

-- A projection that names a selection: its storage is whole, it replays to a state that its head
-- matches and in which no publication is pending, and the selection is that state's.
pub record Settled (sha256 : String → String) (r : Projection) : Type 0 where
  pub state : State
  pub integrity : is_known r.storage.integrity ≡ true
  pub candidate : r.storage.checkpoint_candidate ≡ none
  pub replays : replay sha256 r.storage ≡ ok state
  pub head : head_matches sha256 r.storage.head state ≡ true
  pub published : is_pending state.active ≡ false
  pub selected : r.selected_digest ≡ state.selection_digest

-- A projection whose result was acknowledged: its storage replays to a state with no transaction in
-- progress, whose last transaction is the run's own, the one that the counter names.
pub record Durable (sha256 : String → String) (intent : Option Intent) (r : Projection)
    : Type 0 where
  pub state : State
  pub replays : replay sha256 r.storage ≡ ok state
  pub over : state.active ≡ none
  pub own : is_own state.last_transaction_id intent ≡ true
  pub named : Named sha256 intent state

settled_parts :
    (a b c d e f : Bool)
    → (a && not b && not c && d && not e && not f) ≡ true
    → (a ≡ true) × (b ≡ false) × (c ≡ false) × (d ≡ true) × (e ≡ false)
settled_parts a b c d e f h = ground arith

absent {ℓ} : {A : Type ℓ} (o : Option A) → is_some o ≡ false → o ≡ none
absent o h = ground arith

module _ (sha256 : String → String) where
  -- The mark of an interrupted write changes nothing that is replayed.
  marked-replay :
      (b : Bool) (disk : Storage) {s : State}
      → replay sha256 disk ≡ ok s
      → replay sha256 (if b then record disk { integrity = unknown } else disk) ≡ ok s
  unfolding replay
  marked-replay true disk h = h
  marked-replay false disk h = h

  finish-Settled :
      (intent : Option Intent) (m : Machine)
      → InSync sha256 intent m
      → (finish sha256 m).selection_known ≡ true
      → Settled sha256 (finish sha256 m)
  unfolding finish
  finish-Settled intent m w h =
      let (known, quiet, free, head, published) = settled_parts _ _ _ _ _ _ h in
      record {
        state = m.state;
        integrity = known;
        candidate = absent _ free;
        replays = marked-replay (is_some m.pending) m.disk w.replays;
        head = rw quiet head;
        published = published;
        selected = rw h refl;
      }

  finish-Durable :
      (intent : Option Intent) (m : Machine)
      → InSync sha256 intent m
      → is_sent (finish sha256 m).result_ack ≡ true
      → Durable sha256 intent (finish sha256 m)
  unfolding finish
  finish-Durable intent m w h =
      let (own, over) = w.concluded h in
      record {
        state = m.state;
        replays = marked-replay (is_some m.pending) m.disk w.replays;
        over = over.0;
        own = over.1;
        named = w.named own;
      }

  refused-selection :
      (input : Scenario) (p : Problem) → (refused sha256 input p).selection_known ≡ false
  unfolding refused
  refused-selection input p = refl

  refused-result :
      (input : Scenario) (p : Problem) → is_sent (refused sha256 input p).result_ack ≡ false
  unfolding refused
  refused-result input p = refl

  projected-Settled :
      (input : Scenario) (r : Result Machine)
      → start sha256 input ≡ r
      → (projected sha256 input r).selection_known ≡ true
      → Settled sha256 (projected sha256 input r)
  projected-Settled input (ok m) e h = finish-Settled input.intent _ (run-InSync sha256 input e) h
  projected-Settled input (problem p) e h = ground (arith, h, refused-selection input p)

  projected-Durable :
      (input : Scenario) (r : Result Machine)
      → start sha256 input ≡ r
      → is_sent (projected sha256 input r).result_ack ≡ true
      → Durable sha256 input.intent (projected sha256 input r)
  projected-Durable input (ok m) e h = finish-Durable input.intent _ (run-InSync sha256 input e) h
  projected-Durable input (problem p) e h = ground (arith, h, refused-result input p)

  -- Whatever the events, a run that names a selection leaves a storage that is known to be whole and
  -- replays to a state with that selection, whose head matches it and in which no publication is
  -- pending.
  pub simulate-Settled :
      (input : Scenario)
      → (simulate_maintenance_persistence sha256 input).selection_known ≡ true
      → Settled sha256 (simulate_maintenance_persistence sha256 input)
  unfolding simulate_maintenance_persistence
  simulate-Settled input h = projected-Settled input (start sha256 input) refl h

  -- Whatever the events, a run that acknowledges a result leaves a storage that replays to a state
  -- with no transaction in progress, in which the run's own transaction is the last one and the one
  -- that the counter names.
  pub simulate-Durable :
      (input : Scenario)
      → is_sent (simulate_maintenance_persistence sha256 input).result_ack ≡ true
      → Durable sha256 input.intent (simulate_maintenance_persistence sha256 input)
  unfolding simulate_maintenance_persistence
  simulate-Durable input h = projected-Durable input (start sha256 input) refl h
