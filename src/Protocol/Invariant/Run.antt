-- ===== src/Protocol/Invariant/Run.antt =====
-- tools/lib/maintenance-protocol-model.mjs: what holds of every run.
use sec_app.Base.{
  ℕ, ◌+◌, ◌≤◌, String, false, ◌||◌, Option, none, some, List, [], ◌∷◌, ◌≡◌, ◌≢◌, refl, sym, arith,
  ◌∙◌, subst, inl, inr, Bool-cases, if-keeps, Memᴰ,
}
use sec_app.Protocol.Types.{Store, Context, Event, local, wire, Reason, Scenario, publish_pending}
use sec_app.Protocol.Store.{store_problem}
use sec_app.Protocol.Session.{
  Session, Admission, not_consumed, unknown_admission, consumed, recover, state_eq,
}
use sec_app.Protocol.Wire.{journal_pending}
use sec_app.Protocol.Run.{
  event_case, timed_case, step, loop, initial, hide_pending, project, refusal, finished,
  simulate_maintenance_protocol,
}
use sec_app.Protocol.Valid.{store_problem-Valid, Valid-store_problem}
use sec_app.Protocol.Invariant.Publish.{local_case-Sound}
use sec_app.Protocol.Invariant.Wire.{wire_case-Sound}
use sec_app.Protocol.Invariant.{Approved, Accounted, Sound, fail_if-Sound}

module _ (context : Context) (sha256 : String → String) where
  -- A store that a run shows is valid and settled, and no number of it has gone down.
  pub record ShownStore (floor : ℕ) (s : Store) : Type 0 where
    pub accepted : store_problem sha256 s ≡ false
    pub settled : journal_pending s.journal ≡ false
    pub floor_grown : context.store.security_floor ≤ s.security_floor
    pub floor_kept : s.security_floor ≤ floor
    pub generation_grown : context.store.generation ≤ s.generation

  -- The store that a run shows is the one it started from, or the one after the admission.
  abbrev pub ShownAt : Admission → ℕ → Store → Type 0
  ShownAt not_consumed floor s = (s ≡ context.store) × (floor ≡ s.counter)
  ShownAt unknown_admission floor s = (s ≡ context.store) × (floor ≡ s.counter + 1)
  ShownAt consumed floor s = (s.counter ≡ context.store.counter + 1) × (floor ≡ s.counter)

module _ (context : Context) (events : List Event) (sha256 : String → String) where
  abbrev Good : Session → Type 0
  Good m = Sound context events sha256 m

  event_case-Sound :
      (m : Session) (e : Event)
      → Memᴰ e events
      → Good m
      → m.terminal ≡ false
      → Good (event_case sha256 context m e)
  unfolding event_case
  event_case-Sound m (local t a) said h live =
      let more : Good (record m { local_count = m.local_count + 1 }) = record {
        facts = h.facts;
        staged = h.staged;
      } in
      fail_if-Sound context events sha256 _ _ _ _ more
        (λ _. local_case-Sound context events sha256 _ t a said more live)
  event_case-Sound m (wire t fate x) said h live =
      wire_case-Sound context events sha256 m fate x h live

  timed_case-Sound :
      (m : Session) (e : Event)
      → Memᴰ e events
      → Good m
      → m.terminal ≡ false
      → Good (timed_case sha256 context m e)
  unfolding timed_case
  timed_case-Sound m e said h live = fail_if-Sound context events sha256 _ _ m _ h (λ _.
      fail_if-Sound context events sha256 _ _ m _ h (λ _.
        fail_if-Sound context events sha256 _ _ m _ h (λ _.
          fail_if-Sound context events sha256 _ _ m _ h (λ _. event_case-Sound m e said h live))))

  step-Sound :
      (m : Session) (e : Event)
      → Memᴰ e events
      → Good m
      → m.terminal ≡ false
      → Good (step sha256 context m e)
  unfolding step
  step-Sound m e said h live =
      fail_if-Sound context events sha256 _ _ _ _ (record { facts = h.facts; staged = h.staged })
        (λ _. timed_case-Sound _ e said (record { facts = h.facts; staged = h.staged }) live)

  loop-Sound :
      (m : Session) (es : List Event)
      → ((e : Event) → Memᴰ e es → Memᴰ e events)
      → Good m
      → Good (loop sha256 context m es)
  unfolding loop
  loop-Sound m [] said h = h
  loop-Sound m (e ∷ es) said h =
      if-keeps Good m.terminal m (loop sha256 context (step sha256 context m e) es) (λ _. h)
        (λ live.
          loop-Sound (step sha256 context m e) es (λ x at. said x (Memᴰ.tail at))
            (step-Sound m e (said e (Memᴰ.head refl)) h live))

  initial-Sound : store_problem sha256 context.store ≡ false → Good (initial sha256 context)
  initial-Sound h = record {
    facts = record {
      valid = store_problem-Valid sha256 context.store h;
      floor_kept = omega arith;
      floor_grown = omega arith;
      generation_grown = omega arith;
      accounted = (refl, refl);
    };
    staged = λ _. refl;
  }

  -- What a run leaves: a store that is hidden, or one that is shown.
  hide_pending-Sound : (m : Session) → Good m → Good (hide_pending sha256 context m)
  unfolding hide_pending
  hide_pending-Sound m h =
      if-keeps Good (state_eq m.state publish_pending || journal_pending m.store.journal) _ m
        (λ _. record { facts = h.facts; staged = h.staged }) (λ _. h)

  hide_pending-shown :
      (m : Session)
      → (hide_pending sha256 context m).hidden ≡ false
      → journal_pending (hide_pending sha256 context m).store.journal ≡ false
  unfolding hide_pending
  hide_pending-shown m h =
      elim (Bool-cases (state_eq m.state publish_pending || journal_pending m.store.journal)) [
        | inl e ↦ ground arith
        | inr e ↦ ground arith
      ]

  abbrev loop_of : List Event → Session
  loop_of es = hide_pending sha256 context (loop sha256 context (initial sha256 context) es)

  run-Sound : store_problem sha256 context.store ≡ false → Good (loop_of events)
  run-Sound h = hide_pending-Sound _ (loop-Sound _ events (λ e at. at) (initial-Sound h))

  Sound-Shown :
      (m : Session)
      → Good m
      → journal_pending m.store.journal ≡ false
      → ShownStore context sha256 m.security_floor m.store
  Sound-Shown m h settled = record {
    accepted = Valid-store_problem sha256 m.store h.facts.valid;
    settled = settled;
    floor_grown = h.facts.floor_grown;
    floor_kept = h.facts.floor_kept;
    generation_grown = h.facts.generation_grown;
  }

  Accounted-ShownAt :
      (a : Admission) (s : Store) (floor : ℕ) (offer : Option String)
      → Accounted context events a s floor offer
      → ShownAt context sha256 a floor s
  Accounted-ShownAt not_consumed s floor offer h = (h.0, rw h.0 h.1)
  Accounted-ShownAt unknown_admission s floor offer h = (h.0, rw h.0 h.1)
  Accounted-ShownAt consumed s floor offer h = (h.0, h.1 ∙ sym h.0)

  Accounted-Approved :
      (a : Admission) (s : Store) (floor : ℕ) (offer : Option String)
      → a ≢ not_consumed
      → Accounted context events a s floor offer
      → Approved context events offer
  Accounted-Approved not_consumed s floor offer ne h = absurd (ne refl)
  Accounted-Approved unknown_admission s floor offer ne h = h.2
  Accounted-Approved consumed s floor offer ne h = h.2

accepted_store :
    (sha256 : String → String) (c : Context)
    → refusal sha256 c ≡ none
    → store_problem sha256 c.store ≡ false
accepted_store sha256 c h = ground arith

module _ (sha256 : String → String) (input : Scenario) where
  abbrev ended : Option Reason → Session
  ended r = finished sha256 input.context r input.events

  visible :
      (m : Session) (s : Store)
      → (project sha256 input.context m).projected_store ≡ some s
      → (m.hidden ≡ false) × (m.store ≡ s)
  unfolding project
  visible m s h = (ground arith, ground arith)

  -- A run that shows a store did not refuse the one that it started from.
  visible-unrefused :
      (r : Option Reason) (s : Store)
      → (project sha256 input.context (ended r)).projected_store ≡ some s
      → r ≡ none
  unfolding recover project
  visible-unrefused none s h = refl
  visible-unrefused (some why) s h = ground arith

  finished-Shown :
      (r : Option Reason) (s : Store)
      → refusal sha256 input.context ≡ r
      → (project sha256 input.context (ended r)).projected_store ≡ some s
      → ShownStore input.context sha256 (ended r).security_floor s
        × ShownAt input.context sha256 (ended r).admission (ended r).counter_floor s
  finished-Shown (some why) s e h = ground (arith, visible-unrefused (some why) s h)
  finished-Shown none s e h =
      let good =
        run-Sound input.context input.events sha256 (accepted_store sha256 input.context e) in
      let m = loop_of input.context input.events sha256 input.events in
      let seen = visible m s h in
      (
        subst (λ x. ShownStore input.context sha256 m.security_floor x) seen.1
            (Sound-Shown input.context input.events sha256 m good
              (hide_pending-shown input.context input.events sha256 _ seen.0)),
        subst (λ x. ShownAt input.context sha256 m.admission m.counter_floor x) seen.1
            (Accounted-ShownAt input.context input.events sha256 m.admission m.store m.counter_floor
              m.offer_digest good.facts.accounted),
      )

  finished-Approved :
      (r : Option Reason)
      → refusal sha256 input.context ≡ r
      → (ended r).admission ≢ not_consumed
      → Approved input.context input.events (ended r).offer_digest
  unfolding recover
  finished-Approved (some why) e ne = absurd (ne refl)
  finished-Approved none e ne =
      let good =
        run-Sound input.context input.events sha256 (accepted_store sha256 input.context e) in
      let m = loop_of input.context input.events sha256 input.events in
      Accounted-Approved input.context input.events sha256 m.admission m.store m.counter_floor
        m.offer_digest ne good.facts.accounted

-- The store that a run shows passes the model's own checks, has no publication pending, and neither
-- its security floor nor its generation is below that of the store that the run started from; its
-- security floor is not above the one that the run reports.
pub projected_store-ShownStore :
    (sha256 : String → String) (input : Scenario) (s : Store)
    → (simulate_maintenance_protocol sha256 input).projected_store ≡ some s
    → ShownStore input.context sha256 (simulate_maintenance_protocol sha256 input).security_floor s
unfolding simulate_maintenance_protocol project
projected_store-ShownStore sha256 input s h =
    (finished-Shown sha256 input (refusal sha256 input.context) s refl h).0

-- The store that a run shows is the one that it started from, unless the admission was consumed: then
-- its counter is one more, and is the counter floor that the run reports.
pub projected_store-ShownAt :
    (sha256 : String → String) (input : Scenario) (s : Store)
    → (simulate_maintenance_protocol sha256 input).projected_store ≡ some s
    → ShownAt input.context sha256
        (simulate_maintenance_protocol sha256 input).admission
        (simulate_maintenance_protocol sha256 input).counter_floor
        s
unfolding simulate_maintenance_protocol project
projected_store-ShownAt sha256 input s h =
    (finished-Shown sha256 input (refusal sha256 input.context) s refl h).1

-- A run in which the admission may have been consumed had an approval among its events, and it named
-- the digest of the offer that the run reports.
pub admission-Approved :
    (sha256 : String → String) (input : Scenario)
    → (simulate_maintenance_protocol sha256 input).admission ≢ not_consumed
    → Approved input.context input.events (simulate_maintenance_protocol sha256 input).offer_digest
unfolding simulate_maintenance_protocol project
admission-Approved sha256 input ne =
    finished-Approved sha256 input (refusal sha256 input.context) refl ne
