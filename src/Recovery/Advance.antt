-- ===== src/Recovery/Advance.antt =====
-- tools/lib/maintenance-recovery-model.mjs: `advance`, `reconstruct` and `inspectRecoverySnapshot`.
use sec_app.Base.{
  ◌+◌, max, String, Bool, true, false, not, ◌&&◌, ◌||◌, Option, none, some, List, [], ◌∷◌, ◌++◌,
  ◌==◌, str_eq, is_some, if◌then◌else◌, max_safe_integer,
}
use sec_app.Data.Json.{str, object}
use sec_app.Data.Jcs.{jcs_sha256}
use sec_app.Recovery.Types.{
  Operation, maintenance, recover_publication, retire_admitted_candidate, Outcome, completed,
  candidate_retired, metadata_authorized, Stage, admitted, blocked, committed, RecordKind,
  admission, block, commit, complete, retire, authorize_checkpoint, known, Checked, fails, gives,
  ◌>>=◌, ◌>>◌, fail_if, origin_mismatch, order_rejected, chain_invalid, confirmation_required,
  Minimum, Offer, Authorization, Record, Storage, LineageEntry, Active, State, Classification,
}
use sec_app.Recovery.Encode.{kind_text}
use sec_app.Recovery.State.{record_seal, verify, state_hash, from_anchor, head_for, classify}
use sec_app.Recovery.Terms.{meta, checkpoint_op, is_committed, is_admitted, epoch_of}
use sec_app.Recovery.Offer.{is_cleanup, validate_offer}

abbrev pub publishes : Operation → Bool
publishes maintenance = true
publishes recover_publication = true
publishes _ = false

abbrev is_retirement : Operation → Bool
is_retirement retire_admitted_candidate = true
is_retirement _ = false

abbrev pub is_blocked : Stage → Bool
is_blocked blocked = true
is_blocked _ = false

abbrev pub entry_of : Offer → LineageEntry
entry_of o = record { transaction_id = o.transaction_id; offer_digest = o.offer_digest }

-- The transaction that an admission starts, or takes over from the one in progress.
abbrev pub admitted_active : State → Offer → Option Active → Active
admitted_active s o none = record {
  transaction_id = o.transaction_id;
  origin_transaction_id = o.transaction_id;
  operation = o.operation;
  original_operation = o.operation;
  stage = if is_cleanup o.operation then committed else admitted;
  publication_seen = false;
  target_generation =
      if meta o.operation || is_cleanup o.operation then s.generation else s.generation_floor + 1;
  candidate = o.candidate;
  original_candidate = o.candidate;
  previous = s.selection;
  lineage = entry_of o ∷ [];
}
admitted_active s o (some old) = record {
  transaction_id = o.transaction_id;
  origin_transaction_id = old.origin_transaction_id;
  operation = o.operation;
  original_operation = old.original_operation;
  stage = if is_cleanup o.operation then committed else admitted;
  publication_seen = old.publication_seen;
  target_generation =
      if meta o.operation || is_cleanup o.operation then s.generation else s.generation_floor + 1;
  candidate = o.candidate;
  original_candidate = old.original_candidate;
  previous = old.previous;
  lineage = old.lineage ++ entry_of o ∷ [];
}

-- A record of another kind than an admission belongs to the transaction in progress.
unfoldable pub owned : Record → Active → Bool
owned r a = not (is_some r.authorization) && str_eq r.transaction_id a.transaction_id

-- The kinds that end a transaction, and what they ask of it.
abbrev pub may_end : RecordKind → Active → Bool
may_end retire a = is_retirement a.operation && is_admitted a.stage && not a.publication_seen
may_end authorize_checkpoint a = checkpoint_op a.operation && is_admitted a.stage
may_end complete a = is_committed a.stage
may_end _ a = false

abbrev pub outcome_of : RecordKind → Outcome
outcome_of retire = candidate_retired
outcome_of authorize_checkpoint = metadata_authorized
outcome_of _ = completed

unfoldable pub advance_block : State → Active → Checked State
advance_block s a =
    fail_if (not (publishes a.operation) || not (is_admitted a.stage)) order_rejected
    >> gives (record s {
      active = some (record a { stage = blocked; publication_seen = true });
      generation_floor = a.target_generation;
      security_floor = max (max s.security_floor (epoch_of a.candidate)) (epoch_of s.selection);
    })

unfoldable pub advance_commit : State → Active → Checked State
advance_commit s a =
    fail_if (not (is_blocked a.stage)) order_rejected
    >> gives (record s {
      generation = a.target_generation;
      selection = a.candidate;
      active = some (record a { stage = committed });
    })

-- A state that is observed before what follows it, or the `Problem` that was thrown.
abbrev pub seen_first :
    Checked State → (State → List State × Checked State) → List State × Checked State
seen_first (fails p) rest = ([], fails p)
seen_first (gives s) rest = let more = rest s in (s ∷ more.0, more.1)

module _ (sha256 : String → String) where
  unfoldable pub advance_admission : State → Record → Storage → Option Authorization → Checked State
  advance_admission s r disk none = fails confirmation_required
  advance_admission s r disk (some a) = do
    validate_offer sha256 disk s a
    fail_if (not (str_eq r.transaction_id a.offer.transaction_id)) origin_mismatch
    gives (record s { counter = s.counter + 1; active = some (admitted_active s a.offer s.active) })

  unfoldable pub terminal_digest : State → RecordKind → String
  unfolding jcs_sha256
  terminal_digest s kind = jcs_sha256 sha256 (
      object (
        ("domain", str "SecApp-Synthetic-Recovery-v2-Terminal")
        ∷ ("before", str (state_hash sha256 s))
        ∷ ("kind", str (kind_text kind))
        ∷ []))

  unfoldable pub advance_end : State → RecordKind → Active → Checked State
  advance_end s kind a =
      fail_if (not (may_end kind a)) order_rejected
      >> gives (record s {
        terminal = some (record {
          transaction_id = a.transaction_id;
          operation = a.operation;
          outcome = outcome_of kind;
          terminal_digest = terminal_digest s kind;
        });
        active = none;
      })

  -- The transaction in progress, by the kind of its record.
  abbrev pub advance_kind : State → RecordKind → Active → Checked State
  advance_kind s block a = advance_block s a
  advance_kind s commit a = advance_commit s a
  advance_kind s kind a = advance_end s kind a

  unfoldable pub advance_active : State → Record → Option Active → Checked State
  advance_active s r none = fails order_rejected
  advance_active s r (some a) =
      fail_if (not (owned r a)) order_rejected >> advance_kind s r.record_kind a

  abbrev pub advance_by : State → Record → Storage → RecordKind → Checked State
  advance_by s r disk admission = advance_admission s r disk r.authorization
  advance_by s r disk kind = advance_active s r s.active

  -- `advance`
  unfoldable pub advance : State → Record → Storage → Checked State
  advance s r disk = advance_by s r disk r.record_kind

  -- A record is the next of the chain.
  unfoldable pub links : State → Record → Bool
  links s r =
      not (s.sequence == max_safe_integer)
      && (r.sequence == s.sequence + 1)
      && str_eq r.previous_digest s.tail_digest

  -- What an earlier admission observed, or the head that stood there.
  abbrev pub observed : Storage → List Record → State → Option Authorization → Storage
  observed disk before s none = record {
    anchor = disk.anchor;
    records = before;
    head = head_for sha256 s;
    checkpoint_candidate = none;
    obsolete_checkpoint = none;
    integrity = known;
  }
  observed disk before s (some a) = record {
    anchor = disk.anchor;
    records = before;
    head = a.offer.basis.head;
    checkpoint_candidate = a.offer.basis.checkpoint_candidate;
    obsolete_checkpoint = a.offer.basis.obsolete_checkpoint;
    integrity = known;
  }

  -- One round of the loop over the records, after those `before`.
  unfoldable pub reconstruct_record : Storage → List Record → State → Record → Checked State
  reconstruct_record disk before s r = do
    verify sha256 r.record_digest (record_seal sha256 r)
    fail_if (not (links s r)) chain_invalid
    next ← advance s r (observed disk before s r.authorization)
    gives (record next { sequence = r.sequence; tail_digest = r.record_digest })

  -- The rest of the loop: the states after each record that is accepted, and the end.
  unfoldable pub reconstruct_from :
      Storage → List Record → State → List Record → List State × Checked State
  reconstruct_from disk before s [] = ([], gives s)
  reconstruct_from disk before s (r ∷ rs) =
      seen_first (reconstruct_record disk before s r)
        (λ next. reconstruct_from disk (before ++ r ∷ []) next rs)

  -- `reconstruct` with the states that it gives to `observe`.
  abbrev pub reconstruct_opened : Storage → Checked State → List State × Checked State
  reconstruct_opened disk s = seen_first s (λ opened. reconstruct_from disk [] opened disk.records)

  unfoldable pub reconstruct : Storage → List State × Checked State
  unfolding reconstruct_from
  reconstruct disk = reconstruct_opened disk (from_anchor sha256 disk.anchor)

  -- `inspectRecoverySnapshot`, on a minimum that is well formed.
  unfoldable pub inspect_recovery_snapshot : Storage → Minimum → Checked (Classification × State)
  unfolding reconstruct
  inspect_recovery_snapshot disk minimum = do
    s ← (reconstruct disk).1
    class ← classify sha256 disk s minimum
    gives (class, s)
