-- ===== src/Deployment/Path.antt =====
-- The diagram of the states, and that the list of states in a projection is a way through it.
use sec_app.Base.{
  ℕ, String, Bool, true, false, some, List, [], ◌∷◌, ◌++◌, ◌≡◌, refl, inl, inr, sym, subst, arith,
}
use mathlib.Core.Option.{some-injective}
use sec_app.Deployment.Types.{
  Event, Scenario, prepare, stage, verify, begin_publish, commit, begin_cleanup, finish,
}
use sec_app.Deployment.Run.{
  State, requested, prepared, staged, verified, publish_pending, committed, cleanup_pending,
  completed, recovery_required, rejected, cancelled, deferred, Projection, step, loop, initial,
  hide_pending, is_below_floor, simulate_deployment, nothing, outcome_of,
}
use sec_app.Deployment.Outcome.{
  is_open, loop-cons, simulate_cases, Selected, committed_snapshot, reserved_floor,
}
use sec_app.Deployment.Admissible.{Admissible, admission_reason-Admissible}

-- Before the publication a run may leave by any exit; after it the selection is uncertain or kept.
pub data IsEarly : State → Type 0 where
  at_requested : IsEarly requested
  at_prepared : IsEarly prepared
  at_staged : IsEarly staged
  at_verified : IsEarly verified

pub data IsLate : State → Type 0 where
  at_pending : IsLate publish_pending
  at_committed : IsLate committed
  at_cleanup : IsLate cleanup_pending

pub data Edge : State → State → Type 0 where
  prepares : Edge requested prepared
  stages : Edge prepared staged
  verifies : Edge staged verified
  publishes : Edge verified publish_pending
  commits : Edge publish_pending committed
  cleans : Edge committed cleanup_pending
  finishes : Edge cleanup_pending completed
  keeps : Edge cleanup_pending cleanup_pending
  rejects : {s : State} → IsEarly s → Edge s rejected
  cancels : {s : State} → IsEarly s → Edge s cancelled
  defers : {s : State} → IsEarly s → Edge s deferred
  doubts : {s : State} → IsEarly s → Edge s recovery_required
  loses : {s : State} → IsLate s → Edge s recovery_required

-- `Trace ss s`: the states `ss` are visited in this order along edges, from `requested` to `s`.
pub data Trace : List State → State → Type 0 where
  start : {ss : List State} → ss ≡ requested ∷ [] → Trace ss requested
  next : {ss ts : List State} {s t : State} → Trace ss s → Edge s t → ts ≡ ss ++ t ∷ [] → Trace ts t

step-Edge :
    (i : Scenario) (s : State) (r : Projection) (e : Event) {q : Projection} {t : Bool}
    → is_open s ≡ true
    → step i s r e ≡ some (q, t)
    → Edge s q.state × (q.states ≡ r.states ++ q.state ∷ []) × (t ≡ false → is_open q.state ≡ true)
unfolding step
step-Edge i requested r e o h = ground (
  arith,
  prepares,
  rejects at_requested,
  cancels at_requested,
  defers at_requested,
  doubts at_requested,
)
step-Edge i prepared r e o h = ground (
  arith,
  stages,
  rejects at_prepared,
  cancels at_prepared,
  defers at_prepared,
  doubts at_prepared,
)
step-Edge i staged r e o h =
    ground
      (arith, verifies, rejects at_staged, cancels at_staged, defers at_staged, doubts at_staged)
step-Edge i verified r e o h = ground (
  arith,
  publishes,
  rejects at_verified,
  cancels at_verified,
  defers at_verified,
  doubts at_verified,
)
step-Edge i publish_pending r e o h = ground (arith, commits, loses at_pending)
step-Edge i committed r e o h = ground (arith, cleans, loses at_committed)
step-Edge i cleanup_pending r e o h = ground (arith, finishes, keeps, loses at_cleanup)
step-Edge i _ r e o h = cc

loop-Trace :
    (i : Scenario) (t : Bool) (r : Projection) (es : List Event) {q : Projection}
    → (t ≡ false → is_open r.state ≡ true)
    → Trace r.states r.state
    → loop i t r es ≡ some q
    → Trace q.states q.state
unfolding loop
loop-Trace i t r [] o h p =
    subst (λ (x : Projection). Trace x.states x.state) (some-injective r _ p) h
loop-Trace i t r (e ∷ es) o h p =
    let (going, q, ended, stepped, rest) = loop-cons i t r e es p in
    let (edge, longer, open') = step-Edge i r.state r e (o going) stepped in
    loop-Trace i ended q es open' (next h edge longer) rest

hide_pending-Trace :
    (r : Projection) → Trace r.states r.state → Trace (hide_pending r).states (hide_pending r).state
unfolding hide_pending
hide_pending-Trace r h = ground (arith, h)

abbrev pub straight : List Event
straight = prepare ∷ stage ∷ verify ∷ begin_publish ∷ commit ∷ begin_cleanup ∷ finish ∷ []

abbrev finished : Scenario → Projection
finished i = record {
  state = completed;
  reason = nothing;
  states =
      requested ∷ prepared ∷ staged ∷ verified ∷ publish_pending ∷ committed ∷ cleanup_pending
      ∷ completed ∷ [];
  projected_snapshot = some (committed_snapshot i);
  minimum_security_floor = reserved_floor i;
  confirmation_consumed = true;
  outcome = outcome_of i.intent.desired;
}

loop-straight : (i : Scenario) → loop i false (initial i) straight ≡ some (finished i)
unfolding loop initial
loop-straight i = refl

module _ (sha256 : String → String) (date_parse : String → ℕ) (i : Scenario) where
  -- The states that a projection lists are a way through the diagram, from `requested` to the state
  -- that it ends in: no run skips a step before a commit or undoes one after it.
  pub simulate-Trace :
      {r : Projection} → simulate_deployment sha256 date_parse i ≡ some r → Trace r.states r.state
  unfolding initial
  simulate-Trace {r = r} p = elim (simulate_cases sha256 date_parse i p) [
    | inl (_, e, _, listed) ↦ next (start refl) (rw e (doubts at_requested)) listed
    | inr (inl (_, _, _, e, _, listed)) ↦ next (start refl) (rw e (rejects at_requested)) listed
    | inr (inr (q, _, _, looped, e)) ↦
        subst (λ (x : Projection). Trace x.states x.state) (sym e)
          (hide_pending-Trace q (
            loop-Trace i false (initial i) i.events (λ _. ground arith) (start (ground arith))
              looped))
  ]

  -- An admissible operation over a sound snapshot, followed by the seven events of the straight
  -- path, completes: the desired selection stands under the reserved floor.
  pub simulate_straight :
      Admissible sha256 date_parse i
      → is_below_floor i.snapshot ≡ false
      → i.events ≡ straight
      → (r : Projection) × (simulate_deployment sha256 date_parse i ≡ some r)
        × (r.state ≡ completed)
        × Selected i r
  unfolding simulate_deployment hide_pending loop
  simulate_straight a high e = (
    finished i,
    rw (high, (admission_reason-Admissible sha256 date_parse i).1 a, e, loop-straight i),
    refl,
    (refl, refl, refl, refl),
  )
