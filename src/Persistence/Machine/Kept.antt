-- ===== src/Persistence/Machine/Kept.antt =====
-- tools/lib/maintenance-persistence-model.mjs: the other cases, and the loop.
use sec_app.Base.{
  ℕ, String, Bool, true, false, not, ◌&&◌, ◌||◌, Option, none, some, ◌≡◌, refl, sym, arith, subst,
  is_some, ◌==◌, length,
}
use sec_app.Persistence.Types.{
  order_rejected, runtime_busy, not_written, write_uncertain, compaction_uncertain, ok, Intent,
  Anchor, Storage, State,
}
use sec_app.Persistence.State.{from_anchor}
use sec_app.Persistence.Advance.Cases.{refuse-ok}
use sec_app.Persistence.Replay.{replay_from, replay}
use sec_app.Persistence.Replay.Chain.{bind-ok, replay_chain}
use sec_app.Persistence.Machine.Types.{
  WriteResult, written, torn, uncertain, not_written as nothing_written, Quiescence, quiescent,
  busy, quiescence_unknown, AckPhase, admission_phase, result_phase, Delivery, RetireResult,
  retired, not_retired, retire_unknown, sent, Machine, head_current, stop,
}
use sec_app.Persistence.Machine.Journal.{head_source, head_written, write_head_case}
use sec_app.Persistence.Machine.Replies.{
  is_own, is_sent, is_lost, observe_quiescence_case, acknowledge_case, query_status_case,
}
use sec_app.Persistence.Machine.Checkpoint.{
  anchor_for, compact, compacted, compacted_disk, checkpoint_written, retire_journal_case,
  write_checkpoint_case,
}
use sec_app.Persistence.Machine.Seal.{from_anchor-anchor_for, ok-injective}
use sec_app.Persistence.Machine.Sync.{Concluded, CandidateOk, InSync, stop-InSync}

first {ℓ} :
    {A : Type ℓ} (o : Option A) (b c d : Bool) → (is_some o || b || c || d) ≡ false → o ≡ none
first o b c d h = ground arith

module _ (sha256 : String → String) (intent : Option Intent) where
  pub observe-InSync :
      (m : Machine) (result : Quiescence) {n : Machine}
      → InSync sha256 intent m
      → observe_quiescence_case sha256 intent m result ≡ ok n
      → InSync sha256 intent n
  unfolding observe_quiescence_case
  observe-InSync m result w h =
      let (_, h1) = refuse-ok _ _ _ h in
      subst (InSync sha256 intent) (ok-injective _ _ h1) (at result)
    where
      at :
          (result : Quiescence)
          → InSync sha256 intent (elim result [
            | quiescent ↦ record m { quiescent = true }
            | _ ↦ stop sha256 runtime_busy false m
          ])
      at quiescent = w
      at busy = stop-InSync sha256 intent runtime_busy false m w
      at quiescence_unknown = stop-InSync sha256 intent runtime_busy false m w

  pub query-InSync :
      (m : Machine) (t : String) (counter : ℕ) {n : Machine}
      → InSync sha256 intent m
      → query_status_case sha256 intent m t counter ≡ ok n
      → InSync sha256 intent n
  unfolding query_status_case
  query-InSync m t counter w h =
      let (_, h1) = refuse-ok _ _ _ h in subst (InSync sha256 intent) (ok-injective _ _ h1) w

  head_written-InSync :
      (m : Machine) (s : State)
      → InSync sha256 intent m
      → InSync sha256 intent (head_written sha256 intent m s)
  head_written-InSync m s w = record {
    replays = w.replays;
    pending_ok = tt;
    candidate_ok = w.candidate_ok;
    named = w.named;
    concluded = w.concluded;
  }

  pub write_head-InSync :
      (m : Machine) (result : WriteResult) {n : Machine}
      → InSync sha256 intent m
      → write_head_case sha256 intent m result ≡ ok n
      → InSync sha256 intent n
  unfolding write_head_case
  write_head-InSync m nothing_written w h =
      let (_, h1) = refuse-ok _ _ _ h in
      subst (InSync sha256 intent) (ok-injective _ _ h1)
        (stop-InSync sha256 intent not_written false m w)
  write_head-InSync m torn w h =
      let (_, h1) = refuse-ok _ _ _ h in
      subst (InSync sha256 intent) (ok-injective _ _ h1)
        (stop-InSync sha256 intent write_uncertain true m w)
  write_head-InSync m uncertain w h =
      let (_, h1) = refuse-ok _ _ _ h in
      subst (InSync sha256 intent) (ok-injective _ _ h1)
        (stop-InSync sha256 intent write_uncertain true m w)
  write_head-InSync m written w h =
      let (_, h1) =
        refuse-ok
          (is_some m.pending
            || (not m.head_required && not m.checkpoint_verified)
            || m.checkpoint_published)
          order_rejected _ h in
      let (s, _, h2) =
        bind-ok (head_source sha256 intent m m.disk.checkpoint_candidate)
          (λ s. ok (head_written sha256 intent m s)) h1 in
      subst (InSync sha256 intent) (ok-injective _ _ h2) (head_written-InSync m s w)

  -- The guard of an acknowledgement.
  abbrev unready : Machine → Bool
  unready m =
      is_some m.pending
      || m.head_required
      || is_some m.disk.checkpoint_candidate
      || not (head_current sha256 m)
      || not m.session_reserved

  ready : (m : Machine) → unready m ≡ false → (m.pending ≡ none) × (m.session_reserved ≡ true)
  ready m h = ground arith

  told-InSync :
      (m : Machine) (d : Delivery)
      → InSync sha256 intent m
      → m.pending ≡ none
      → m.session_reserved ≡ true
      → Concluded sha256 intent m.state
      → InSync sha256 intent (record m { result_ack = sent d; waiting_status = is_lost d })
  told-InSync m d w quiet own over = record {
    replays = w.replays;
    pending_ok = rw quiet tt;
    candidate_ok = w.candidate_ok;
    named = w.named;
    concluded = λ _. (own, over);
  }

  pub acknowledge-InSync :
      (m : Machine) (phase : AckPhase) (d : Delivery) {n : Machine}
      → InSync sha256 intent m
      → acknowledge_case sha256 intent m phase d ≡ ok n
      → InSync sha256 intent n
  unfolding acknowledge_case
  acknowledge-InSync m admission_phase d w h =
      let (quiet, h1) = refuse-ok (unready m) order_rejected _ h in
      let (_, h2) = refuse-ok _ _ _ h1 in
      subst (InSync sha256 intent) (ok-injective _ _ h2) (record {
        replays = w.replays;
        pending_ok = w.pending_ok;
        candidate_ok = w.candidate_ok;
        named = w.named;
        concluded = w.concluded;
      })
  acknowledge-InSync m result_phase d w h =
      let (quiet, h1) = refuse-ok (unready m) order_rejected _ h in
      let (over, h2) =
        refuse-ok
          (is_some m.state.active
            || not (is_own m.state.last_transaction_id intent)
            || is_sent m.result_ack)
          order_rejected _ h1 in
      let (none_pending, own) = ready m quiet in
      subst (InSync sha256 intent) (ok-injective _ _ h2)
        (told-InSync m d w none_pending own (ground (arith, over)))

  replay-compacted :
      (disk : Storage) (a : Anchor) {s : State}
      → from_anchor sha256 a ≡ ok s
      → replay sha256 (compacted_disk sha256 disk a) ≡ ok s
  unfolding replay replay_from
  replay-compacted disk a h = rw h

  checkpoint_written-InSync :
      (m : Machine) (result : WriteResult)
      → InSync sha256 intent m
      → m.state.active ≡ none
      → InSync sha256 intent (checkpoint_written sha256 m result)
  unfolding replay
  checkpoint_written-InSync m nothing_written w free =
      stop-InSync sha256 intent not_written false m w
  checkpoint_written-InSync m torn w free = stop-InSync sha256 intent compaction_uncertain true m w
  checkpoint_written-InSync m uncertain w free =
      stop-InSync sha256 intent compaction_uncertain true m w
  checkpoint_written-InSync m written w free = record {
    replays = w.replays;
    pending_ok = tt;
    candidate_ok = (refl, free);
    named = w.named;
    concluded = w.concluded;
  }

  -- The guard of a checkpoint.
  abbrev unsettled : Machine → Bool
  unsettled m =
      is_some m.pending
      || m.head_required
      || is_some m.disk.checkpoint_candidate
      || is_some m.state.active
      || not (head_current sha256 m)
      || not m.session_reserved
      || not (is_own m.state.last_transaction_id intent)
      || (length m.disk.records == 0)

  idle : (m : Machine) → unsettled m ≡ false → m.state.active ≡ none
  idle m h = ground arith

  pub write_checkpoint-InSync :
      (m : Machine) (result : WriteResult) {n : Machine}
      → InSync sha256 intent m
      → write_checkpoint_case sha256 intent m result ≡ ok n
      → InSync sha256 intent n
  unfolding write_checkpoint_case
  write_checkpoint-InSync m result w h =
      let (settled, h1) = refuse-ok (unsettled m) order_rejected _ h in
      subst (InSync sha256 intent) (ok-injective _ _ h1)
        (checkpoint_written-InSync m result w (idle m settled))

  -- The checkpoint takes the journal's place without a loss.
  compact-InSync :
      (m : Machine) (a : Anchor)
      → InSync sha256 intent m
      → m.pending ≡ none
      → a ≡ anchor_for sha256 m.state
      → m.state.active ≡ none
      → InSync sha256 intent (compact sha256 m a)
  unfolding compact
  compact-InSync m a w quiet made free =
      let s : State = record m.state { tail_digest = (anchor_for sha256 m.state).anchor_digest } in
      let opened : from_anchor sha256 a ≡ ok s =
        rw made
          (from_anchor-anchor_for sha256 m.state (replay_chain sha256 m.disk w.replays).0 free) in
      subst (λ r. InSync sha256 intent (compacted sha256 m a r)) (sym opened)
        (record {
          replays = replay-compacted m.disk a opened;
          pending_ok = rw quiet tt;
          candidate_ok = tt;
          named = w.named;
          concluded = w.concluded;
        })

  pub retire-InSync :
      (m : Machine) (o : Option Anchor) (result : RetireResult) {n : Machine}
      → InSync sha256 intent m
      → m.disk.checkpoint_candidate ≡ o
      → retire_journal_case sha256 m o result ≡ ok n
      → InSync sha256 intent n
  unfolding retire_journal_case
  retire-InSync m none result w e h = ground arith
  retire-InSync m (some a) result w e h =
      let (quiet, h1) = refuse-ok _ _ _ h in
      let (made, free) = subst (CandidateOk sha256 intent m.state) e w.candidate_ok in
      subst (InSync sha256 intent) (ok-injective _ _ h1)
        (at result made free (first m.pending _ _ _ quiet))
    where
      at :
          (result : RetireResult)
          → a ≡ anchor_for sha256 m.state
          → m.state.active ≡ none
          → m.pending ≡ none
          → InSync sha256 intent (elim result [
            | retired ↦ compact sha256 m a
            | retire_unknown ↦ stop sha256 compaction_uncertain true m
            | not_retired ↦ stop sha256 compaction_uncertain false m
          ])
      at retired made free idle = compact-InSync m a w idle made free
      at retire_unknown _ _ _ = stop-InSync sha256 intent compaction_uncertain true m w
      at not_retired _ _ _ = stop-InSync sha256 intent compaction_uncertain false m w
