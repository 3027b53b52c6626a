-- ===== src/Recovery/Invariant/Below.antt =====
-- tools/lib/maintenance-recovery-model.mjs: the minimum of a run, step by step.
use sec_app.Base.{
  ℕ, ◌≤◌, String, Bool, true, false, Option, none, some, List, [], ◌∷◌, arith, if-keeps,
}
use sec_app.Recovery.Types.{
  Checked, fails, gives, ◌>>=◌, ◌>>◌, fail_if, Problem, Minimum, State, Anchor, RecordKind, Record,
  not_written, write_uncertain,
}
use sec_app.Recovery.State.{from_anchor}
use sec_app.Recovery.Advance.{reconstruct}
use sec_app.Recovery.Machine.{
  stop, raised, raise_state, raise_anchor, write_result, write_record_case, flushed_as, flush_case,
  read_as, read_back_case, head_result, write_head_case, checkpoint_result, write_checkpoint_case,
  retire_to, retired, retire_journal_case,
}
use sec_app.Recovery.Scenario.{
  Event, write_record, write_head, write_checkpoint, retire_journal, flush, read_back, query_status,
  acknowledge, crash_event, cancel_event, Scenario, AckPhase, admission_phase, result_phase,
  Delivery, Machine, WriteResult, written, unwritten, write_unknown, FlushResult,
  durable_hypothesis, flush_unknown, ReadResult, matches, mismatch, WriteTarget, Written,
  written_record, written_head, written_checkpoint, Pending,
}
use sec_app.Recovery.Run.{
  acknowledge_phase, acknowledge_case, query_status_case, dispatch, guarded, caught, step, loop,
  first_minimum, raise_all, initial, start, ended,
}

-- No number of a minimum is above the other's.
pub record Below (l m : Minimum) : Type 0 where
  pub counter : l.counter ≤ m.counter
  pub generation : l.generation ≤ m.generation
  pub security_floor : l.security_floor ≤ m.security_floor

pub Below-refl : (l : Minimum) → Below l l
Below-refl l = record {
  counter = omega arith;
  generation = omega arith;
  security_floor = omega arith;
}

pub Below_trans : (k l m : Minimum) → Below k l → Below l m → Below k m
Below_trans k l m h i = record {
  counter = omega (arith, h.counter, i.counter);
  generation = omega (arith, h.generation, i.generation);
  security_floor = omega (arith, h.security_floor, i.security_floor);
}

pub raised-Below : (k l : Minimum) (c g f s : ℕ) → Below k l → Below k (raised l c g f s)
raised-Below k l c g f s h = record {
  counter = omega (arith, h.counter);
  generation = omega (arith, h.generation);
  security_floor = omega (arith, h.security_floor);
}

module _ (k : Minimum) (sha256 : String → String) (date_parse : String → ℕ) (input : Scenario) where
  abbrev Kept : Machine → Type 0
  Kept m = Below k m.minimum

  -- What is given, if anything is, keeps the minimum.
  abbrev Gives : Checked Machine → Type 0
  Gives (fails p) = Unit {0}
  Gives (gives m) = Kept m

  stop-Kept : (why : Problem) (u : Bool) (m : Machine) → Kept m → Kept (stop why u m)
  unfolding stop
  stop-Kept why u m h = h

  after_check :
      (c : Bool) (p : Problem) (next : Checked Machine) → Gives next → Gives (fail_if c p >> next)
  unfolding fail_if ◌>>◌
  after_check true p next h = tt
  after_check false p next h = h

  after {ℓ} :
      {A : Type ℓ} (x : Checked A) (next : A → Checked Machine)
      → ((a : A) → Gives (next a))
      → Gives (x >>= next)
  unfolding ◌>>=◌
  after (fails p) next h = tt
  after (gives a) next h = h a

  after_all : (c : Checked (Unit {0})) (next : Checked Machine) → Gives next → Gives (c >> next)
  unfolding ◌>>◌
  after_all (fails p) next h = tt
  after_all (gives tt) next h = h

  write_result-Kept :
      (m : Machine) (r : Record) (n : State) (result : WriteResult)
      → Kept m
      → Kept (write_result sha256 date_parse input m r n result)
  unfolding write_result
  write_result-Kept m r n written h =
      raised-Below k m.minimum n.counter n.generation n.generation_floor n.security_floor h
  write_result-Kept m r n unwritten h = stop-Kept not_written false m h
  write_result-Kept m r n write_unknown h =
      stop-Kept write_uncertain true (record m { minimum = raise_state m.minimum n })
        (raised-Below k m.minimum n.counter n.generation n.generation_floor n.security_floor h)

  write_record-Gives :
      (m : Machine) (kind : RecordKind) (result : WriteResult)
      → Kept m
      → Gives (write_record_case sha256 date_parse input m kind result)
  unfolding write_record_case
  write_record-Gives m kind result h = after_check _ _ _ (
      after_all _ _
        (after_check _ _ _ (after _ _ (λ n. after_check _ _ _ (write_result-Kept m _ _ result h)))))

  flushed_as-Kept :
      (m : Machine) (w : Written) → Kept m → Kept (flushed_as sha256 date_parse input m w)
  unfolding flushed_as
  flushed_as-Kept m (written_record r n) h = h
  flushed_as-Kept m (written_head c x) h = h
  flushed_as-Kept m (written_checkpoint a) h = h

  read_as-Kept : (m : Machine) (w : Written) → Kept m → Kept (read_as sha256 date_parse input m w)
  unfolding read_as
  read_as-Kept m (written_record r n) h = h
  read_as-Kept m (written_head c x) h = h
  read_as-Kept m (written_checkpoint a) h = h

  flush-Gives :
      (m : Machine) (o : Option Pending) (t : WriteTarget) (r : FlushResult)
      → Kept m
      → Gives (flush_case sha256 date_parse input m o t r)
  unfolding flush_case stop
  flush-Gives m none t r h = tt
  flush-Gives m (some p) t durable_hypothesis h = after_check _ _ _ (flushed_as-Kept m p.content h)
  flush-Gives m (some p) t flush_unknown h = after_check _ _ _ h

  read_back-Gives :
      (m : Machine) (o : Option Pending) (t : WriteTarget) (r : ReadResult)
      → Kept m
      → Gives (read_back_case sha256 date_parse input m o t r)
  unfolding read_back_case stop
  read_back-Gives m none t r h = tt
  read_back-Gives m (some p) t matches h = after_check _ _ _ (read_as-Kept m p.content h)
  read_back-Gives m (some p) t mismatch h = after_check _ _ _ h

  write_head-Gives :
      (m : Machine) (r : WriteResult) → Kept m → Gives (write_head_case sha256 date_parse input m r)
  unfolding write_head_case head_result stop
  write_head-Gives m written h = after_check _ _ _ (after _ _ (λ s. h))
  write_head-Gives m unwritten h = after_check _ _ _ h
  write_head-Gives m write_unknown h = after_check _ _ _ h

  write_checkpoint-Gives :
      (m : Machine) (r : WriteResult)
      → Kept m
      → Gives (write_checkpoint_case sha256 date_parse input m r)
  unfolding write_checkpoint_case checkpoint_result stop
  write_checkpoint-Gives m written h = after_check _ _ _ (after _ _ (λ a. after_check _ _ _ h))
  write_checkpoint-Gives m unwritten h = after_check _ _ _ h
  write_checkpoint-Gives m write_unknown h = after_check _ _ _ h

  retire_to-Kept :
      (m : Machine) (a : Anchor) (s : Checked State)
      → Kept m
      → Kept (retire_to sha256 date_parse input m a s)
  unfolding retire_to stop
  retire_to-Kept m a (fails p) h = h
  retire_to-Kept m a (gives s) h = h

  retired-Kept :
      (m : Machine) (o : Option Anchor) → Kept m → Kept (retired sha256 date_parse input m o)
  retired-Kept m none h = h
  retired-Kept m (some a) h = retire_to-Kept m a (from_anchor sha256 a) h

  retire_journal-Gives :
      (m : Machine) (r : WriteResult)
      → Kept m
      → Gives (retire_journal_case sha256 date_parse input m r)
  unfolding retire_journal_case stop
  retire_journal-Gives m written h =
      after_check _ _ _ (retired-Kept m m.disk.checkpoint_candidate h)
  retire_journal-Gives m unwritten h = after_check _ _ _ h
  retire_journal-Gives m write_unknown h = after_check _ _ _ h

  acknowledge_phase-Gives :
      (m : Machine) (p : AckPhase) (d : Delivery)
      → Kept m
      → Gives (acknowledge_phase sha256 date_parse input m p d)
  acknowledge_phase-Gives m admission_phase d h = after_check _ _ _ h
  acknowledge_phase-Gives m result_phase d h = after_check _ _ _ h

  dispatch-Gives : (m : Machine) (e : Event) → Kept m → Gives (dispatch sha256 date_parse input m e)
  unfolding acknowledge_case query_status_case stop
  dispatch-Gives m (write_record kind r) h = write_record-Gives m kind r h
  dispatch-Gives m (flush t r) h = flush-Gives m m.pending t r h
  dispatch-Gives m (read_back t r) h = read_back-Gives m m.pending t r h
  dispatch-Gives m (write_head r) h = write_head-Gives m r h
  dispatch-Gives m (write_checkpoint r) h = write_checkpoint-Gives m r h
  dispatch-Gives m (retire_journal r) h = retire_journal-Gives m r h
  dispatch-Gives m (acknowledge p d) h = after_check _ _ _ (acknowledge_phase-Gives m p d h)
  dispatch-Gives m (query_status c) h = after_check _ _ _ h
  dispatch-Gives m crash_event h = h
  dispatch-Gives m cancel_event h = h

  caught-Kept :
      (m : Machine) (n : Checked Machine)
      → Kept m
      → Gives n
      → Kept (caught sha256 date_parse input m n)
  caught-Kept m (fails p) h k = stop-Kept p false m h
  caught-Kept m (gives n) h k = k

  step-Kept : (m : Machine) (e : Event) → Kept m → Kept (step sha256 date_parse input m e)
  unfolding step guarded
  step-Kept m e h = caught-Kept m _ h (after_check _ _ _ (after_check _ _ _ (dispatch-Gives m e h)))

  loop-Kept : (m : Machine) (es : List Event) → Kept m → Kept (loop sha256 date_parse input m es)
  unfolding loop
  loop-Kept m [] h = h
  loop-Kept m (e ∷ es) h =
      if-keeps Kept m.stopped m (loop sha256 date_parse input (step sha256 date_parse input m e) es)
        (λ _. h) (λ _. loop-Kept (step sha256 date_parse input m e) es (step-Kept m e h))

  start-Kept :
      (s : Checked State) (l : Minimum) → Below k l → Kept (start sha256 date_parse input s l)
  unfolding start stop
  start-Kept (fails p) l h = h
  start-Kept (gives s) l h =
      caught-Kept (initial sha256 date_parse input l s) _ h
        (after _ _ (λ class. after_check _ _ _ h))

  pub raise_anchor-Below :
      (l : Minimum) (o : Option Anchor) → Below k l → Below k (raise_anchor l o)
  raise_anchor-Below l none h = h
  raise_anchor-Below l (some a) h =
      raised-Below k l a.counter a.generation a.generation_floor a.security_floor h

  pub raise_all-Below :
      (l : Minimum) (ss : List State) → Below k l → Below k (raise_all sha256 date_parse input l ss)
  raise_all-Below l [] h = h
  raise_all-Below l (s ∷ ss) h =
      raise_all-Below (raise_state l s) ss
        (raised-Below k l s.counter s.generation s.generation_floor s.security_floor h)

  pub ended-Kept :
      Below k (
        raise_all sha256 date_parse input
          (first_minimum sha256 date_parse input)
          (reconstruct sha256 input.storage).0)
      → Kept (ended sha256 date_parse input)
  ended-Kept h =
      let whole = reconstruct sha256 input.storage in
      loop-Kept _ input.events (start-Kept whole.1 _ h)
