-- ===== src/Protocol/Invariant/Publish.antt =====
-- tools/lib/maintenance-protocol-model.mjs: publication and cleanup keep what holds of a
-- session.
use sec_app.Base.{
  ℕ, max, String, Bool, true, false, not, Option, none, some, List, ◌≡◌, refl, sym, arith, ◌∙◌,
  subst, inl, inr, Memᴰ, Bool-cases, if◌then◌else◌,
}
use sec_app.Deployment.Types.{Selection}
use sec_app.Deployment.Admission.{epoch_of}
use sec_app.Protocol.Types
use sec_app.Protocol.Types.{
  Outcome, Reason, Journal, LineageEntry, Store, Context, Proposal, Request, maintenance, recovery,
  PeerVerdict, ReviewVerdict, ReserveResult, not_written, reserve_unknown, durable, PayloadVerdict,
  Quiescence, CommitVerdict, CleanupResult, Event, local, Action, State, observe_peers,
  review_offer, confirm, reserve, verify_payload, begin_publish, commit, cleanup, interrupt,
}
use sec_app.Protocol.Store.{below, seal}
use sec_app.Protocol.Session.{
  state_eq, Session, Admission, not_consumed, consumed, unknown_admission,
}
use sec_app.Protocol.Local.{
  publish, begin_publish_case, commit_publication, commit_case, completion, may_clean_up, is_failed,
  outcome_of, cleanup_case, local_case,
}
use sec_app.Protocol.Invariant.Stored.{publish-Valid, commit_publication-Valid, completion-Valid}
use sec_app.Protocol.Invariant.Local.{
  observe_peers-Sound, review_offer-Sound, confirm-Sound, reserve-Sound, verify_payload-Sound,
}
use sec_app.Protocol.Invariant.{
  Accounted, Working, StagedAt, Sound, fail-Sound, fail_if-Sound, at_state-Sound, state_eq_sound,
}

module _ (context : Context) (events : List Event) (sha256 : String → String) where
  abbrev Good : Session → Type 0
  Good m = Sound context events sha256 m

  planned-published :
      (o : Option Selection) (floor : ℕ) (selection : Option Selection)
      → below o (max floor (epoch_of selection)) ≡ false
      → below o (max (max (max floor (epoch_of selection)) (epoch_of o)) (epoch_of selection))
        ≡ false
  planned-published none floor selection h = refl
  planned-published (some t) floor selection h = ground arith

  planned-again :
      (p q : Proposal) (floor : ℕ) (selection : Option Selection)
      → p ≡ q
      → below p.desired (max floor (epoch_of selection)) ≡ false
      → below q.desired
          (max (max (max floor (epoch_of selection)) (epoch_of p.desired)) (epoch_of selection))
        ≡ false
  planned-again p q floor selection e h =
      subst
        (λ x.
          below (Proposal.desired x)
            (max (max (max floor (epoch_of selection)) (epoch_of p.desired)) (epoch_of selection))
          ≡ false)
        e (planned-published p.desired floor selection h)

  consumed-Accounted :
      (s t : Store) (a : Admission) (floor : ℕ) (offer : Option String)
      → a ≡ consumed
      → s.counter ≡ t.counter
      → Accounted context events a s floor offer
      → Accounted context events a t floor offer
  consumed-Accounted s t not_consumed floor offer e k h = ground arith
  consumed-Accounted s t unknown_admission floor offer e k h = ground arith
  consumed-Accounted s t consumed floor offer e k h = (sym k ∙ h.0, h.1, h.2)

  sealed_numbers :
      (k i : Journal)
      → some (seal sha256 k) ≡ some i
      → (i.highest_generation ≡ k.highest_generation) × (i.reserved_floor ≡ k.reserved_floor)
  unfolding seal
  sealed_numbers k i f = (ground arith, ground arith)

  publish-Sound :
      (m : Session) (p : Proposal) (j : Journal)
      → Good m
      → m.proposal ≡ some p
      → m.store.journal ≡ some j
      → StagedAt context events m Types.payload_verified
      → Good (publish sha256 context m p j)
  unfolding publish
  publish-Sound m p j h e k s = record {
    facts = record {
      valid = publish-Valid sha256 context m p j h.facts.valid k h.facts.floor_kept (s.1 p e).1;
      floor_kept = omega (arith, h.facts.floor_kept);
      floor_grown = h.facts.floor_grown;
      generation_grown = h.facts.generation_grown;
      accounted =
          consumed-Accounted _ _ m.admission m.counter_floor m.offer_digest s.0.spent refl
            h.facts.accounted;
    };
    staged = λ _. (
      record { spent = s.0.spent; named = s.0.named },
      λ q f. (
        planned-again p q m.security_floor m.store.selection (ground arith) (s.1 p e).0,
        (s.1 p e).1,
      ),
      λ i f. (sealed_numbers _ i f),
    );
  }

  begin_publish-Sound :
      (m : Session) (o : Option Proposal) (jo : Option Journal) (q : Quiescence)
      → m.proposal ≡ o
      → m.store.journal ≡ jo
      → Good m
      → m.terminal ≡ false
      → Good (begin_publish_case sha256 context m o jo q)
  begin_publish-Sound m none jo q e k h live =
      at_state-Sound context events sha256 _ m _ h live (λ _ _. h)
  begin_publish-Sound m (some p) none q e k h live =
      at_state-Sound context events sha256 _ m _ h live (λ _ _. h)
  begin_publish-Sound m (some p) (some j) q e k h live =
      at_state-Sound context events sha256 _ m _ h live
        (λ _ s. fail_if-Sound context events sha256 _ _ m _ h (λ _. publish-Sound m p j h e k s))

  commit_publication-Sound :
      (m : Session) (p : Proposal) (j : Journal)
      → Good m
      → m.proposal ≡ some p
      → m.store.journal ≡ some j
      → StagedAt context events m Types.publish_pending
      → Good (commit_publication sha256 context m p j)
  unfolding commit_publication
  commit_publication-Sound m p j h e k s = record {
    facts = record {
      valid =
          commit_publication-Valid sha256 context m p j h.facts.valid k (s.2 j k).0 (s.2 j k).1
            (s.1 p e).0;
      floor_kept = omega arith;
      floor_grown = omega (arith, h.facts.floor_grown, h.facts.floor_kept);
      generation_grown = omega (arith, h.facts.generation_grown, (s.1 p e).1);
      accounted =
          consumed-Accounted m.store _ m.admission m.counter_floor m.offer_digest s.0.spent refl
            h.facts.accounted;
    };
    staged = λ _. record { spent = s.0.spent; named = s.0.named };
  }

  commit-Sound :
      (m : Session) (o : Option Proposal) (jo : Option Journal) (v : CommitVerdict)
      → m.proposal ≡ o
      → m.store.journal ≡ jo
      → Good m
      → m.terminal ≡ false
      → Good (commit_case sha256 context m o jo v)
  commit-Sound m none jo v e k h live = at_state-Sound context events sha256 _ m _ h live (λ _ _. h)
  commit-Sound m (some p) none v e k h live =
      at_state-Sound context events sha256 _ m _ h live (λ _ _. h)
  commit-Sound m (some p) (some j) v e k h live =
      at_state-Sound context events sha256 _ m _ h live (λ _ s.
        fail_if-Sound context events sha256 _ _ m _ h (λ _. commit_publication-Sound m p j h e k s))

  completion-Sound :
      (m : Session)
      → Good m
      → Working context events m.store m.admission m.transaction_id
      → Good (completion m)
  unfolding completion
  completion-Sound m h w = record {
    facts = record {
      valid = completion-Valid sha256 context m h.facts.valid w.named;
      floor_kept = h.facts.floor_kept;
      floor_grown = h.facts.floor_grown;
      generation_grown = h.facts.generation_grown;
      accounted =
          consumed-Accounted m.store _ m.admission m.counter_floor m.offer_digest w.spent refl
            h.facts.accounted;
    };
    staged = λ _. record { spent = w.spent; named = w.named };
  }

  admitted_otherwise :
      (m : Session) (o : Option Proposal)
      → not (may_clean_up m o) ≡ false
      → state_eq m.state Types.committed ≡ false
      → state_eq m.state Types.admitted ≡ true
  admitted_otherwise m none e c = ground arith
  admitted_otherwise m (some p) e c = ground arith

  clean_up-Working :
      (m : Session) (o : Option Proposal)
      → Good m
      → m.terminal ≡ false
      → not (may_clean_up m o) ≡ false
      → Working context events m.store m.admission m.transaction_id
  clean_up-Working m o h live e = elim (Bool-cases (state_eq m.state Types.committed)) [
    | inl c ↦
        subst (λ x. StagedAt context events m x) (sym (state_eq_sound m.state Types.committed c))
          (h.staged live)
    | inr c ↦
        (subst (λ x. StagedAt context events m x)
          (sym (state_eq_sound m.state Types.admitted (admitted_otherwise m o e c)))
          (h.staged live)).0
  ]

  cleaned-Sound :
      (m : Session) (failed : Bool) (why : Option Reason)
      → Good m
      → Working context events m.store m.admission m.transaction_id
      → Good (
          if failed then record m { state = Types.cleanup_pending; reason = why } else completion m)
  cleaned-Sound m true why h w = record {
    facts = h.facts;
    staged = λ _. record { spent = w.spent; named = w.named };
  }
  cleaned-Sound m false why h w = completion-Sound m h w

  -- Another outcome and state, for a session that works on.
  retold-Sound : (m : Session) (o : Outcome) → Good m → Good (record m { outcome = o })
  retold-Sound m o h = record { facts = h.facts; staged = h.staged }

  cleanup-Sound :
      (m : Session) (r : CleanupResult)
      → Good m
      → m.terminal ≡ false
      → Good (cleanup_case sha256 context m r)
  unfolding cleanup_case
  cleanup-Sound m r h live = fail_if-Sound context events sha256 _ _ m _ h (λ e.
      cleaned-Sound (record m { outcome = outcome_of m.store.selection }) (is_failed r)
        (some Types.cleanup_incomplete) (retold-Sound m (outcome_of m.store.selection) h)
        (clean_up-Working m m.proposal h live e))

  pub local_case-Sound :
      (m : Session) (t : ℕ) (a : Action)
      → Memᴰ (local t a) events
      → Good m
      → m.terminal ≡ false
      → Good (local_case sha256 context m a)
  unfolding local_case
  local_case-Sound m t (observe_peers v helper client) said h live =
      observe_peers-Sound context events sha256 m v helper client h live
  local_case-Sound m t (review_offer v) said h live =
      review_offer-Sound context events sha256 m m.proposal v h live
  local_case-Sound m t (confirm digest approver d) said h live =
      confirm-Sound context events sha256 m t digest approver d said h live
  local_case-Sound m t (reserve head r) said h live =
      reserve-Sound context events sha256 m m.proposal head r refl h live
  local_case-Sound m t (verify_payload v) said h live =
      verify_payload-Sound context events sha256 m m.proposal v h live
  local_case-Sound m t (begin_publish q) said h live =
      begin_publish-Sound m m.proposal m.store.journal q refl refl h live
  local_case-Sound m t (commit v) said h live =
      commit-Sound m m.proposal m.store.journal v refl refl h live
  local_case-Sound m t (cleanup r) said h live = cleanup-Sound m r h live
  local_case-Sound m t (interrupt why) said h live = fail-Sound context events sha256 why m h
