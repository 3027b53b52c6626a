-- ===== src/Protocol/Invariant/Local.antt =====
-- tools/lib/maintenance-protocol-model.mjs: the local events keep what holds of a session.
use sec_app.Base.{
  ℕ, ◌+◌, String, true, false, not, Option, none, some, List, ◌≡◌, refl, sym, arith, ap, subst,
  Memᴰ, eq_iff, opt_eq,
}
use sec_app.Deployment.Types.{Decision, approved, declined}
use sec_app.Deployment.Admission.{is_approved}
use sec_app.Protocol.Types
use sec_app.Protocol.Types.{
  Journal, LineageEntry, Store, Context, Proposal, Request, maintenance, recovery, PeerVerdict,
  ReviewVerdict, ReserveResult, not_written, reserve_unknown, durable, PayloadVerdict, Quiescence,
  CommitVerdict, CleanupResult, Event, local, Action, State, observe_peers, review_offer, confirm,
  reserve, verify_payload, begin_publish, commit, cleanup, interrupt,
}
use sec_app.Protocol.Session.{Session, Admission, not_consumed, consumed, unknown_admission}
use sec_app.Protocol.Local.{
  offer_digest, admit, observe_peers_case, review_offer_case, confirm_case, reserve_result,
  reserve_case, verify_payload_case,
}
use sec_app.Protocol.Invariant.Stored.{admit-Valid}
use sec_app.Protocol.Invariant.{
  Approved, Accounted, StagedAt, Facts, Sound, fail-Sound, over-Sound, fail_if-Sound,
  at_state-Sound,
}

module _ (context : Context) (events : List Event) (sha256 : String → String) where
  abbrev Good : Session → Type 0
  Good m = Sound context events sha256 m

  pub observe_peers-Sound :
      (m : Session) (v : PeerVerdict) (helper client : String)
      → Good m
      → m.terminal ≡ false
      → Good (observe_peers_case sha256 context m v helper client)
  observe_peers-Sound m v helper client h live =
      at_state-Sound context events sha256 _ m _ h live (λ _ s.
        fail_if-Sound context events sha256 _ _ m _ h
          (λ _. record { facts = h.facts; staged = λ _. s }))

  unconsumed-Accounted :
      (s : Store) (a : Admission) (floor : ℕ) (offer new : Option String)
      → a ≡ not_consumed
      → Accounted context events a s floor offer
      → Accounted context events a s floor new
  unconsumed-Accounted s not_consumed floor offer new e h = h
  unconsumed-Accounted s unknown_admission floor offer new e h = ground arith
  unconsumed-Accounted s consumed floor offer new e h = ground arith

  reoffered :
      (s : Store) (a : Admission) (sf floor : ℕ) (offer new : Option String)
      → a ≡ not_consumed
      → Facts context events sha256 s a sf floor offer
      → Facts context events sha256 s a sf floor new
  reoffered s a sf floor offer new e h = record {
    valid = h.valid;
    floor_kept = h.floor_kept;
    floor_grown = h.floor_grown;
    generation_grown = h.generation_grown;
    accounted = unconsumed-Accounted s a floor offer new e h.accounted;
  }

  pub review_offer-Sound :
      (m : Session) (o : Option Proposal) (v : ReviewVerdict)
      → Good m
      → m.terminal ≡ false
      → Good (review_offer_case sha256 context m o v)
  review_offer-Sound m none v h live = at_state-Sound context events sha256 _ m _ h live (λ _ _. h)
  review_offer-Sound m (some p) v h live = at_state-Sound context events sha256 _ m _ h live (λ _ s.
      fail_if-Sound context events sha256 _ _ m _ h (λ _.
        fail_if-Sound context events sha256 _ _ m _ h (λ _. record {
          facts =
              reoffered m.store m.admission m.security_floor m.counter_floor m.offer_digest
                (some (offer_digest sha256 context m p)) s.0.unconsumed h.facts;
          staged = λ _. s;
        })))

  approved-only : (d : Decision) → is_approved d ≡ true → d ≡ approved
  approved-only approved h = refl
  approved-only declined h = ground arith

  digest-Approved :
      (t : ℕ) (digest approver : String) (d : Decision) (o : Option String)
      → Memᴰ (local t (confirm digest approver d)) events
      → not (opt_eq (some digest) o) ≡ false
      → not (is_approved d) ≡ false
      → Approved context events o
  digest-Approved t digest approver d none said same ok = ground arith
  digest-Approved t digest approver d (some o) said same ok = (
    digest,
    ap some (sym ((eq_iff digest o).0 (ground arith))),
    record {
      time = t;
      approver = approver;
      said =
          subst (λ x. Memᴰ (local t (confirm digest approver x)) events)
            (approved-only d (ground arith)) said;
    },
  )

  pub confirm-Sound :
      (m : Session) (t : ℕ) (digest approver : String) (d : Decision)
      → Memᴰ (local t (confirm digest approver d)) events
      → Good m
      → m.terminal ≡ false
      → Good (confirm_case sha256 context m digest approver d)
  confirm-Sound m t digest approver d said h live =
      at_state-Sound context events sha256 _ m _ h live (λ _ s.
        fail_if-Sound context events sha256 _ _ m _ h (λ same.
          fail_if-Sound context events sha256 _ _ m _ h (λ ok. record {
            facts = h.facts;
            staged =
                λ _. (s.0, s.1, digest-Approved t digest approver d m.offer_digest said same ok);
          })))

  unspent :
      (s : Store) (a : Admission) (floor : ℕ) (offer : Option String)
      → a ≡ not_consumed
      → Accounted context events a s floor offer
      → (s ≡ context.store) × (floor ≡ context.store.counter)
  unspent s not_consumed floor offer e h = h
  unspent s unknown_admission floor offer e h = ground arith
  unspent s consumed floor offer e h = ground arith

  next_counter :
      (m : Session)
      → Good m
      → m.admission ≡ not_consumed
      → m.store.counter + 1 ≡ context.store.counter + 1
  next_counter m h e =
      ap (λ s. Store.counter s + 1)
        (unspent m.store m.admission m.counter_floor m.offer_digest e h.facts.accounted).0

  admit-Sound :
      (m : Session) (p : Proposal)
      → Good m
      → m.proposal ≡ some p
      → StagedAt context events m Types.confirmed
      → Good (admit sha256 context m p)
  unfolding admit
  admit-Sound m p h e s = record {
    facts = record {
      valid = admit-Valid sha256 context m p h.facts.valid s.0.named;
      floor_kept = h.facts.floor_kept;
      floor_grown = h.facts.floor_grown;
      generation_grown = h.facts.generation_grown;
      accounted = (next_counter m h s.0.unconsumed, next_counter m h s.0.unconsumed, s.2);
    };
    staged = λ _. (record { spent = refl; named = s.0.named }, s.1);
  }

  reserve_result-Sound :
      (m : Session) (p : Proposal) (r : ReserveResult)
      → Good m
      → m.proposal ≡ some p
      → StagedAt context events m Types.confirmed
      → Good (reserve_result sha256 context m p r)
  reserve_result-Sound m p not_written h e s = fail-Sound context events sha256 _ m h
  reserve_result-Sound m p reserve_unknown h e s = over-Sound context events sha256 _ _ (record {
    valid = h.facts.valid;
    floor_kept = h.facts.floor_kept;
    floor_grown = h.facts.floor_grown;
    generation_grown = h.facts.generation_grown;
    accounted = (
      (unspent m.store m.admission m.counter_floor m.offer_digest s.0.unconsumed
          h.facts.accounted).0,
      next_counter m h s.0.unconsumed,
      s.2,
    );
  })
  reserve_result-Sound m p durable h e s = admit-Sound m p h e s

  pub reserve-Sound :
      (m : Session) (o : Option Proposal) (head : String) (r : ReserveResult)
      → m.proposal ≡ o
      → Good m
      → m.terminal ≡ false
      → Good (reserve_case sha256 context m o head r)
  reserve-Sound m none head r e h live =
      at_state-Sound context events sha256 _ m _ h live (λ _ _. h)
  reserve-Sound m (some p) head r e h live =
      at_state-Sound context events sha256 _ m _ h live (λ _ s.
        fail_if-Sound context events sha256 _ _ m _ h (λ _. reserve_result-Sound m p r h e s))

  pub verify_payload-Sound :
      (m : Session) (o : Option Proposal) (v : PayloadVerdict)
      → Good m
      → m.terminal ≡ false
      → Good (verify_payload_case sha256 context m o v)
  verify_payload-Sound m none v h live =
      at_state-Sound context events sha256 _ m _ h live (λ _ _. h)
  verify_payload-Sound m (some p) v h live =
      at_state-Sound context events sha256 _ m _ h live (λ _ s.
        fail_if-Sound context events sha256 _ _ m _ h (λ _.
          fail_if-Sound context events sha256 _ _ m _ h
            (λ _. record { facts = h.facts; staged = λ _. s })))
