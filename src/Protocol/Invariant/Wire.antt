-- ===== src/Protocol/Invariant/Wire.antt =====
-- tools/lib/maintenance-protocol-model.mjs: the messages keep what holds of a session.
use sec_app.Base.{
  ℕ, ◌+◌, ◌≤◌, max, String, false, not, Option, none, some, List, ◌≡◌, refl, arith, ap, ◌∙◌, subst,
  inl, inr, Bool-cases, eq_iff, opt_eq,
}
use sec_app.Deployment.Admission.{epoch_of}
use sec_app.Persistence.Types.{tx}
use sec_app.Protocol.Types.{
  Journal, Store, Context, Proposal, Event, State, Payload, helper_hello, client_bind,
  propose_operation, verified_offer, admission_recorded, payload_chunk, cancel, query_status,
  progress, result, Message, Delivery,
}
use sec_app.Protocol.Store.{below}
use sec_app.Protocol.Session.{Session, Intake}
use sec_app.Protocol.Wire.{
  highest_of, nth, helper_hello_case, client_bind_case, generation_for, propose_operation_case,
  verified_offer_case, admission_recorded_case, take_payload, payload_chunk_case, cancel_case,
  query_status_case, progress_case, result_case, message_case, counted_frame, sequenced,
  delivered_case, counted_case, wire_case, is_chunk, from_helper,
}
use sec_app.Protocol.Valid.{ValidJournal, ValidStore}
use sec_app.Protocol.Invariant.{
  Planned, Sound, fail-Sound, fail_if-Sound, require_state-Sound, at_state-Sound,
}

opt_eq_sound : (a b : Option String) → not (opt_eq a b) ≡ false → a ≡ b
opt_eq_sound none none h = refl
opt_eq_sound none (some t) h = ground arith
opt_eq_sound (some s) none h = ground arith
opt_eq_sound (some s) (some t) h = ap some ((eq_iff s t).0 (ground arith))

module _ (context : Context) (events : List Event) (sha256 : String → String) where
  abbrev Good : Session → Type 0
  Good m = Sound context events sha256 m

  helper_hello-Sound :
      (m : Session) (channel challenge helper : String)
      → Good m
      → m.terminal ≡ false
      → Good (helper_hello_case sha256 context m channel challenge helper)
  helper_hello-Sound m channel challenge helper h live =
      at_state-Sound context events sha256 _ m _ h live (λ _ s.
        fail_if-Sound context events sha256 _ _ m _ h
          (λ _. record { facts = h.facts; staged = λ _. s }))

  client_bind-Sound :
      (m : Session) (helper client instance_of : String)
      → Good m
      → m.terminal ≡ false
      → Good (client_bind_case sha256 context m helper client instance_of)
  client_bind-Sound m helper client instance_of h live =
      at_state-Sound context events sha256 _ m _ h live (λ _ s.
        fail_if-Sound context events sha256 _ _ m _ h
          (λ _. record { facts = h.facts; staged = λ _. s }))

  highest_of-grown :
      (s : Store) (o : Option Journal)
      → s.journal ≡ o
      → ValidStore sha256 s
      → s.generation ≤ highest_of s o
  highest_of-grown s none e v = omega arith
  highest_of-grown s (some j) e v = ValidJournal.highest (v.journal_ok j e)

  generation_for-grown :
      (m : Session) (p : Proposal)
      → ValidStore sha256 m.store
      → m.store.generation ≤ generation_for sha256 context m p
  generation_for-grown m p v = ground (arith, highest_of-grown m.store m.store.journal refl v)

  proposed-Planned :
      (m : Session) (p : Proposal)
      → ValidStore sha256 m.store
      → below p.desired (max m.security_floor (epoch_of m.store.selection)) ≡ false
      → Planned context events (some p) m.store m.security_floor (generation_for sha256 context m p)
  proposed-Planned m p v h q e = (
    let same : p ≡ q = ground arith in
        subst
          (λ x.
            below (Proposal.desired x) (max m.security_floor (epoch_of m.store.selection)) ≡ false)
          same h,
    generation_for-grown m p v,
  )

  propose_operation-Sound :
      (m : Session) (t : Option String) (p : Proposal)
      → Good m
      → m.terminal ≡ false
      → Good (propose_operation_case sha256 context m t p)
  unfolding propose_operation_case
  propose_operation-Sound m t p h live = at_state-Sound context events sha256 _ m _ h live (λ _ s.
      fail_if-Sound context events sha256 _ _ m _ h (λ e0.
        fail_if-Sound context events sha256 _ _ m _ h (λ _.
          fail_if-Sound context events sha256 _ _ m _ h (λ _.
            fail_if-Sound context events sha256 _ _ m _ h (λ e3.
              fail_if-Sound context events sha256 _ _ m _ h (λ _.
                fail_if-Sound context events sha256 _ _ m _ h (λ _. record {
                  facts = h.facts;
                  staged = λ _. (
                    record {
                      unconsumed = s;
                      named = opt_eq_sound t (some (tx (m.store.counter + 1))) (ground arith);
                    },
                    proposed-Planned m p h.facts.valid e3,
                  );
                })))))))

  verified_offer-Sound :
      (m : Session) (digest : String) (expires : ℕ)
      → Good m
      → m.terminal ≡ false
      → Good (verified_offer_case sha256 context m digest expires)
  verified_offer-Sound m digest expires h live =
      at_state-Sound context events sha256 _ m _ h live (λ _ s.
        fail_if-Sound context events sha256 _ _ m _ h
          (λ _. record { facts = h.facts; staged = λ _. s }))

  admission_recorded-Sound :
      (m : Session) (fate : Delivery) (digest : String) (counter : ℕ)
      → Good m
      → Good (admission_recorded_case sha256 context m fate digest counter)
  admission_recorded-Sound m fate digest counter h =
      require_state-Sound context events sha256 _ m _ h (λ _.
        fail_if-Sound context events sha256 _ _ m _ h
          (λ _. record { facts = h.facts; staged = h.staged }))

  take_payload-Sound :
      (m : Session) (x : Intake) (length : ℕ)
      → Good m
      → Good (take_payload sha256 context m x length)
  unfolding take_payload
  take_payload-Sound m x length h = record { facts = h.facts; staged = h.staged }

  payload_chunk-Sound :
      (m : Session) (o : Option Intake) (member : String) (offset length : ℕ)
      → Good m
      → Good (payload_chunk_case sha256 context m o member offset length)
  payload_chunk-Sound m none member offset length h =
      require_state-Sound context events sha256 _ m _ h
        (λ _. fail-Sound context events sha256 _ m h)
  payload_chunk-Sound m (some x) member offset length h =
      require_state-Sound context events sha256 _ m _ h
        (λ _. fail_if-Sound context events sha256 _ _ m _ h (λ _. take_payload-Sound m x length h))

  cancel-Sound :
      (m : Session) (digest : String) → Good m → Good (cancel_case sha256 context m digest)
  cancel-Sound m digest h = require_state-Sound context events sha256 _ m _ h (λ _.
      fail_if-Sound context events sha256 _ _ m _ h (λ _. fail-Sound context events sha256 _ m h))

  query_status-Sound :
      (m : Session) (t : Option String) (counter : ℕ)
      → Good m
      → Good (query_status_case sha256 context m t counter)
  query_status-Sound m t counter h = fail_if-Sound context events sha256 _ _ m _ h (λ _.
      fail_if-Sound context events sha256 _ _ m _ h
        (λ _. record { facts = h.facts; staged = h.staged }))

  progress-Sound : (m : Session) (s : State) → Good m → Good (progress_case sha256 context m s)
  progress-Sound m s h =
      require_state-Sound context events sha256 _ m _ h
        (λ _. fail_if-Sound context events sha256 _ _ m _ h (λ _. h))

  result-Sound :
      (m : Session) (fate : Delivery) (s : State) (digest : Option String)
      → Good m
      → Good (result_case sha256 context m fate s digest)
  result-Sound m fate s digest h = require_state-Sound context events sha256 _ m _ h (λ _.
      fail_if-Sound context events sha256 _ _ m _ h
        (λ _. record { facts = h.facts; staged = h.staged }))

  message_case-Sound :
      (m : Session) (fate : Delivery) (x : Message) (y : Payload)
      → Good m
      → m.terminal ≡ false
      → Good (message_case sha256 context m fate x y)
  unfolding message_case
  message_case-Sound m fate x (helper_hello challenge helper) h live =
      helper_hello-Sound m x.channel_id challenge helper h live
  message_case-Sound m fate x (client_bind helper client i) h live =
      client_bind-Sound m helper client i h live
  message_case-Sound m fate x (propose_operation p) h live =
      propose_operation-Sound m x.transaction_id p h live
  message_case-Sound m fate x (verified_offer digest expires) h live =
      verified_offer-Sound m digest expires h live
  message_case-Sound m fate x (admission_recorded digest counter) h live =
      admission_recorded-Sound m fate digest counter h
  message_case-Sound m fate x (payload_chunk member offset length digest) h live =
      payload_chunk-Sound m (nth m.received m.member_index) member offset length h
  message_case-Sound m fate x (cancel digest) h live = cancel-Sound m digest h
  message_case-Sound m fate x (query_status counter) h live =
      query_status-Sound m x.transaction_id counter h
  message_case-Sound m fate x (progress s) h live = progress-Sound m s h
  message_case-Sound m fate x (result s digest) h live = result-Sound m fate s digest h

  delivered_case-Sound :
      (m : Session) (fate : Delivery) (x : Message)
      → Good m
      → m.terminal ≡ false
      → Good (delivered_case sha256 context m fate x)
  delivered_case-Sound m fate x h live = fail_if-Sound context events sha256 _ _ m _ h (λ _.
      fail_if-Sound context events sha256 _ _ m _ h (λ _.
        fail_if-Sound context events sha256 _ _ m _ h
          (λ _. message_case-Sound m fate x x.payload h live)))

  -- The counters of the frames do not matter.
  record Alike (m n : Session) : Type 0 where
    good : Good m → Good n
    live : n.terminal ≡ m.terminal

  counted_frame-Alike : (m : Session) (x : Payload) → Alike m (counted_frame sha256 context m x)
  unfolding counted_frame
  counted_frame-Alike m x = elim (Bool-cases (is_chunk sha256 context x)) [
    | inl e ↦
        rw e (record { good = λ h. record { facts = h.facts; staged = h.staged }; live = refl })
    | inr e ↦
        rw e (record { good = λ h. record { facts = h.facts; staged = h.staged }; live = refl })
  ]

  sequenced-Alike : (m : Session) (x : Message) → Alike m (sequenced sha256 context m x)
  unfolding sequenced
  sequenced-Alike m x = elim (Bool-cases (from_helper sha256 context x.payload)) [
    | inl e ↦
        rw e (record { good = λ h. record { facts = h.facts; staged = h.staged }; live = refl })
    | inr e ↦
        rw e (record { good = λ h. record { facts = h.facts; staged = h.staged }; live = refl })
  ]

  counted_case-Sound :
      (m : Session) (fate : Delivery) (x : Message)
      → Good m
      → m.terminal ≡ false
      → Good (counted_case sha256 context m fate x)
  unfolding counted_case
  counted_case-Sound m fate x h live = fail_if-Sound context events sha256 _ _ m _ h (λ _.
      fail_if-Sound context events sha256 _ _ m _ h (λ _.
        let next = sequenced-Alike m x in
        delivered_case-Sound (sequenced sha256 context m x) fate x (next.good h)
          (next.live ∙ live)))

  pub wire_case-Sound :
      (m : Session) (fate : Delivery) (x : Message)
      → Good m
      → m.terminal ≡ false
      → Good (wire_case sha256 context m fate x)
  unfolding wire_case
  wire_case-Sound m fate x h live = fail_if-Sound context events sha256 _ _ m _ h (λ _.
      let next = counted_frame-Alike m x.payload in
      counted_case-Sound (counted_frame sha256 context m x.payload) fate x (next.good h)
        (next.live ∙ live))
