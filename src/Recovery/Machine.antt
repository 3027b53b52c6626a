-- ===== src/Recovery/Machine.antt =====
-- tools/lib/maintenance-recovery-model.mjs: the cases of `simulateMaintenanceRecovery` that write,
-- flush and read back.
use sec_app.Base.{
  ℕ, ◌+◌, max, String, Bool, true, false, not, ◌&&◌, ◌||◌, Option, none, some, [], ◌∷◌, ◌++◌, ltb,
  leb, ◌==◌, str_eq, is_some, length, if◌then◌else◌, max_safe_integer,
}
use sec_app.Data.Json.{array}
use sec_app.Data.Jcs.{same}
use sec_app.Persistence.Types.{tx}
use sec_app.Recovery.Types.{
  RecordKind, Checked, fails, gives, ◌>>=◌, ◌>>◌, fail_if, Problem, order_rejected,
  confirmation_required, offer_changed, offer_expired, capacity_exhausted, not_written,
  write_uncertain, flush_uncertain, read_back_mismatch, retirement_unknown, Minimum, Terminal,
  Anchor, Head, Context, Authorization, Record, Storage, State, unknown,
}
use sec_app.Recovery.Encode.{record_json, head_json, anchor_json, context_json, minimum_json}
use sec_app.Recovery.State.{record_seal, from_anchor, head_for, same_head, compact_anchor}
use sec_app.Recovery.Terms.{checkpoint_op, recovery_bytes, is_admission}
use sec_app.Recovery.Advance.{advance}
use sec_app.Recovery.Scenario.{
  WriteResult, written, unwritten, write_unknown, FlushResult, durable_hypothesis, flush_unknown,
  ReadResult, matches, mismatch, WriteTarget, record_target, head_target, checkpoint_target,
  Scenario, Written, written_record, written_head, written_checkpoint, Pending, Machine,
}

-- `stop`
unfoldable pub stop : Problem → Bool → Machine → Machine
stop why uncertain m = record m {
  stopped = true;
  reason = some why;
  disk = if uncertain then record m.disk { integrity = unknown } else m.disk;
}

-- `raise`, by the numbers that it reads.
abbrev pub raised : Minimum → ℕ → ℕ → ℕ → ℕ → Minimum
raised l counter generation generation_floor security_floor = record {
  counter = max l.counter counter;
  generation = max (max l.generation generation) generation_floor;
  security_floor = max l.security_floor security_floor;
}

abbrev pub raise_state : Minimum → State → Minimum
raise_state l s = raised l s.counter s.generation s.generation_floor s.security_floor

abbrev pub raise_anchor : Minimum → Option Anchor → Minimum
raise_anchor l none = l
raise_anchor l (some a) = raised l a.counter a.generation a.generation_floor a.security_floor

abbrev pub raise_head : Minimum → Head → Minimum
raise_head l h = raised l h.counter h.generation h.generation_floor h.security_floor

abbrev pub is_written : WriteResult → Bool
is_written written = true
is_written _ = false

abbrev pub is_unwritten : WriteResult → Bool
is_unwritten unwritten = true
is_unwritten _ = false

abbrev pub is_unknown : WriteResult → Bool
is_unknown write_unknown = true
is_unknown _ = false

abbrev is_durable : FlushResult → Bool
is_durable durable_hypothesis = true
is_durable flush_unknown = false

abbrev is_match : ReadResult → Bool
is_match matches = true
is_match mismatch = false

-- `pending.target === target`
abbrev pub aims : Written → WriteTarget → Bool
aims (written_record r n) record_target = true
aims (written_head c h) head_target = true
aims (written_checkpoint a) checkpoint_target = true
aims _ _ = false

-- The record that a run would write.
abbrev pub transaction_of : Option Authorization → String
transaction_of none = tx 0
transaction_of (some a) = a.offer.transaction_id

-- `stop(e.result === "NotWritten" ? "NotWritten" : reason, e.result === "Unknown")`
abbrev pub stop_write : Problem → WriteResult → Machine → Machine
stop_write why result m =
    stop (if is_unwritten result then not_written else why) (is_unknown result) m

module _ (sha256 : String → String) (date_parse : String → ℕ) (input : Scenario) where
  abbrev pub same_context : Context → Context → Bool
  same_context a b = same sha256 (context_json a) (context_json b)

  abbrev pub same_minimum : Minimum → Minimum → Bool
  same_minimum a b = same sha256 (minimum_json a) (minimum_json b)

  -- What an admission asks of the run's authorization.
  unfoldable pub check_admission : Option Authorization → Checked (Unit {0})
  check_admission none = fails confirmation_required
  check_admission (some a) = do
    fail_if
        (not (same_context a.offer.context input.context)
          || not (same_minimum a.offer.basis.minimum input.minimum))
        offer_changed
    fail_if (leb (date_parse a.offer.expires_at) (date_parse input.simulated_at)) offer_expired

  unfoldable pub next_record : State → RecordKind → Record
  unfolding record_seal
  next_record s kind =
      let body : Record = record {
        sequence = s.sequence + 1;
        record_kind = kind;
        transaction_id = transaction_of input.authorization;
        authorization = if is_admission kind then input.authorization else none;
        previous_digest = s.tail_digest;
        record_digest = "";
      } in
      record body { record_digest = record_seal sha256 body }

  abbrev pub too_large : Machine → Record → State → Bool
  too_large m r next =
      ltb 16384 (recovery_bytes (record_json r))
      || ltb 1048576 (recovery_bytes (array record_json (m.disk.records ++ r ∷ [])))
      || ltb 8192 (recovery_bytes (head_json (head_for sha256 next)))

  -- The outcome of a write that the checks admit.
  unfoldable pub write_result : Machine → Record → State → WriteResult → Machine
  write_result m r next unwritten = stop not_written false m
  write_result m r next write_unknown =
      stop write_uncertain true (record m { minimum = raise_state m.minimum next })
  write_result m r next written = record m {
    minimum = raise_state m.minimum next;
    pending = some (record { flushed = false; content = written_record r next });
  }

  unfoldable pub write_record_case : Machine → RecordKind → WriteResult → Checked Machine
  write_record_case m kind result = do
    fail_if
        (is_some m.pending
          || m.head_required
          || m.checkpoint_verified
          || (if is_admission kind then m.admitted else not m.admitted))
        order_rejected
    if is_admission kind then check_admission input.authorization else gives tt
    fail_if ((m.state.sequence == max_safe_integer) || leb 64 (length m.disk.records))
        capacity_exhausted
    advanced ← advance sha256 m.state (next_record m.state kind) m.disk
    let next : State = record advanced {
      sequence = (next_record m.state kind).sequence;
      tail_digest = (next_record m.state kind).record_digest;
    }
    fail_if (too_large m (next_record m.state kind) next) capacity_exhausted
    gives (write_result m (next_record m.state kind) next result)

  -- What a flush leaves.
  unfoldable pub flushed_as : Machine → Written → Machine
  flushed_as m (written_record r next) = record m {
    disk = record m.disk { records = m.disk.records ++ r ∷ [] };
    state = next;
    admitted = is_admission r.record_kind || m.admitted;
    pending = some (record { flushed = true; content = written_record r next });
  }
  flushed_as m (written_head c h) = record m {
    disk = record m.disk { head = h };
    pending = some (record { flushed = true; content = written_head c h });
  }
  flushed_as m (written_checkpoint a) = record m {
    disk = record m.disk {
      obsolete_checkpoint = m.disk.checkpoint_candidate;
      checkpoint_candidate = some a;
    };
    pending = some (record { flushed = true; content = written_checkpoint a });
  }

  unfoldable pub flush_case : Machine → Option Pending → WriteTarget → FlushResult → Checked Machine
  unfolding flushed_as stop
  flush_case m none target result = fails order_rejected
  flush_case m (some p) target result =
      fail_if (not (aims p.content target) || p.flushed) order_rejected
      >> gives (if is_durable result then flushed_as m p.content else stop flush_uncertain true m)

  -- What a read back leaves.
  unfoldable pub read_as : Machine → Written → Machine
  read_as m (written_record r next) = record m { head_required = true; pending = none }
  read_as m (written_head c h) = record m {
    head_required = false;
    checkpoint_published = c || m.checkpoint_published;
    pending = none;
  }
  read_as m (written_checkpoint a) = record m { checkpoint_verified = true; pending = none }

  unfoldable pub read_back_case :
      Machine → Option Pending → WriteTarget → ReadResult → Checked Machine
  unfolding read_as stop
  read_back_case m none target result = fails order_rejected
  read_back_case m (some p) target result =
      fail_if (not (aims p.content target) || not p.flushed) order_rejected
      >> gives (if is_match result then read_as m p.content else stop read_back_mismatch true m)

  -- The state that a head is written for: a candidate's once its checkpoint is verified.
  abbrev pub head_state : Machine → Option Anchor → Checked State
  head_state m none = gives m.state
  head_state m (some a) = if m.checkpoint_verified then from_anchor sha256 a else gives m.state

  unfoldable pub head_result : Machine → WriteResult → Checked State → Checked Machine
  unfolding stop
  head_result m result s =
      if is_written result
      then s >>= (λ x. gives (record m {
        pending = some (record {
          flushed = false;
          content = written_head m.checkpoint_verified (head_for sha256 x);
        });
      }))
      else gives (stop_write write_uncertain result m)

  unfoldable pub write_head_case : Machine → WriteResult → Checked Machine
  unfolding head_result
  write_head_case m result = do
    fail_if
        (is_some m.pending
          || (not m.head_required && not m.checkpoint_verified)
          || m.checkpoint_published)
        order_rejected
    head_result m result (head_state m m.disk.checkpoint_candidate)

  -- A terminal state of a checkpoint operation, by this run's own transaction.
  abbrev pub is_own : Option Terminal → Option Authorization → Bool
  is_own (some t) (some a) = str_eq t.transaction_id a.offer.transaction_id
  is_own _ _ = false

  abbrev pub is_checkpointing : Option Terminal → Bool
  is_checkpointing none = false
  is_checkpointing (some t) = checkpoint_op t.operation

  unfoldable pub checkpoint_result : Machine → WriteResult → Checked Anchor → Checked Machine
  unfolding stop
  checkpoint_result m result compacted =
      if is_written result
      then compacted >>= (λ a.
        fail_if (ltb 8192 (recovery_bytes (anchor_json a))) capacity_exhausted
        >> gives (record m {
          pending = some (record { flushed = false; content = written_checkpoint a });
        }))
      else gives (stop_write write_uncertain result m)

  unfoldable pub write_checkpoint_case : Machine → WriteResult → Checked Machine
  unfolding checkpoint_result
  write_checkpoint_case m result = do
    fail_if
        (is_some m.pending
          || m.head_required
          || not m.admitted
          || is_some m.state.active
          || not (is_checkpointing m.state.terminal)
          || not (is_own m.state.terminal input.authorization)
          || not (same_head sha256 m.disk.head (head_for sha256 m.state))
          || is_some m.disk.obsolete_checkpoint
          || m.checkpoint_verified
          || m.completed_checkpoint)
        order_rejected
    checkpoint_result m result (compact_anchor sha256 m.state)

  -- The journal that starts anew from a candidate.
  abbrev pub renewed : Anchor → Storage → Storage
  renewed a disk = record disk {
    anchor = a;
    records = [];
    checkpoint_candidate = none;
    obsolete_checkpoint = none;
  }

  unfoldable pub retire_to : Machine → Anchor → Checked State → Machine
  unfolding stop
  retire_to m a (fails p) = stop p false (record m { disk = renewed a m.disk })
  retire_to m a (gives s) = record m {
    disk = renewed a m.disk;
    state = s;
    completed_checkpoint = true;
    checkpoint_verified = false;
    checkpoint_published = false;
  }

  -- A verified checkpoint stands on the disk, so that there is a candidate.
  abbrev pub retired : Machine → Option Anchor → Machine
  retired m none = m
  retired m (some a) = retire_to m a (from_anchor sha256 a)

  unfoldable pub retire_journal_case : Machine → WriteResult → Checked Machine
  unfolding stop
  retire_journal_case m result =
      fail_if
        (is_some m.pending
          || m.head_required
          || not m.checkpoint_verified
          || not m.checkpoint_published
          || is_some m.state.active)
        order_rejected
      >> gives (
          if is_written result
          then retired m m.disk.checkpoint_candidate
          else stop_write retirement_unknown result m)
