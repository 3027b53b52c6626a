-- ===== src/Deployment/Outcome.antt =====
-- What the projection of a deployment says of the selection, state by state.
use sec_app.Base.{
  ℕ, String, Bool, true, false, none, some, List, [], ◌∷◌, max, ◌≡◌, refl, ◌⊎◌, inl, inr, arith,
  Option-cases, Bool-cases, subst, sym,
}
use mathlib.Core.Option.{some-injective, none-ne-some}
use sec_app.Deployment.Types.{Event, Scenario, Snapshot}
use sec_app.Deployment.Admission.{epoch_of, Reason, admission_reason}
use sec_app.Deployment.Run.{
  State, requested, prepared, staged, verified, publish_pending, committed, cleanup_pending,
  completed, recovery_required, rejected, cancelled, deferred, Projection, not_committed, unknown,
  outcome_of, step, loop, initial, hide_pending, is_below_floor, simulate_deployment,
}

-- The floor that a publication reserves: no lower than the old one, the selected epoch and the
-- desired epoch.
abbrev pub reserved_floor : Scenario → ℕ
reserved_floor i =
    max (max i.snapshot.security_floor (epoch_of i.snapshot.selection)) (epoch_of i.intent.desired)

abbrev pub committed_snapshot : Scenario → Snapshot
committed_snapshot i = record {
  generation = i.intent.next_generation;
  security_floor = reserved_floor i;
  selection = i.intent.desired;
}

-- The old snapshot stands, with the old floor.
abbrev Untouched : Scenario → Projection → Type 0
Untouched i r =
    (r.projected_snapshot ≡ some i.snapshot)
    × (r.minimum_security_floor ≡ i.snapshot.security_floor)
    × (r.outcome ≡ not_committed)

-- The new snapshot stands, with the confirmation used up.
abbrev pub Selected : Scenario → Projection → Type 0
Selected i r =
    (r.projected_snapshot ≡ some (committed_snapshot i))
    × (r.minimum_security_floor ≡ reserved_floor i)
    × (r.outcome ≡ outcome_of i.intent.desired)
    × (r.confirmation_consumed ≡ true)

abbrev pub Holds : Scenario → State → Projection → Type 0
Holds i requested r = Untouched i r
Holds i prepared r = (r.confirmation_consumed ≡ true) × Untouched i r
Holds i staged r = (r.confirmation_consumed ≡ true) × Untouched i r
Holds i verified r = (r.confirmation_consumed ≡ true) × Untouched i r
Holds i publish_pending r =
    (r.confirmation_consumed ≡ true) × (r.minimum_security_floor ≡ reserved_floor i)
Holds i committed r = Selected i r
Holds i cleanup_pending r = Selected i r
Holds i completed r = Selected i r
Holds i recovery_required r =
    (r.projected_snapshot ≡ none)
    × (r.outcome ≡ unknown)
    × ((r.minimum_security_floor ≡ i.snapshot.security_floor)
        ⊎ (r.minimum_security_floor ≡ reserved_floor i))
Holds i rejected r = Untouched i r
Holds i cancelled r = Untouched i r
Holds i deferred r = Untouched i r

-- The states that the loop steps from: it stops at the others.
abbrev pub is_open : State → Bool
is_open requested = true
is_open prepared = true
is_open staged = true
is_open verified = true
is_open publish_pending = true
is_open committed = true
is_open cleanup_pending = true
is_open _ = false

pub step-Holds :
    (i : Scenario) (s : State) (r : Projection) (e : Event) {q : Projection} {t : Bool}
    → is_open s ≡ true
    → Holds i s r
    → step i s r e ≡ some (q, t)
    → Holds i q.state q × (t ≡ false → is_open q.state ≡ true)
unfolding step
step-Holds i requested r e o h p = ground arith
step-Holds i _ r e o h p = ground arith

-- A loop that accepts an event has not ended, and goes on from where the step leads.
pub loop-cons :
    (i : Scenario) (t : Bool) (r : Projection) (e : Event) (es : List Event) {q : Projection}
    → loop i t r (e ∷ es) ≡ some q
    → (t ≡ false)
      × (next : Projection) × (ended : Bool) × (step i r.state r e ≡ some (next, ended))
      × (loop i ended next es ≡ some q)
unfolding loop
loop-cons i true r e es p = cc
loop-cons i false r e es {q = q} p = elim (Option-cases (step i r.state r e)) [
  | inl stuck ↦ absurd (none-ne-some q (rw (stuck, loop) at p))
  | inr ((next, ended), stepped) ↦ (refl, next, ended, stepped, rw (stepped, loop) at p)
]

pub loop-Holds :
    (i : Scenario) (t : Bool) (r : Projection) (es : List Event) {q : Projection}
    → (t ≡ false → is_open r.state ≡ true)
    → Holds i r.state r
    → loop i t r es ≡ some q
    → Holds i q.state q
unfolding loop
loop-Holds i t r [] o h p = subst (λ (x : Projection). Holds i x.state x) (some-injective r _ p) h
loop-Holds i t r (e ∷ es) o h p =
    let (going, next, ended, stepped, rest) = loop-cons i t r e es p in
    let (held, open') = step-Holds i r.state r e (o going) h stepped in
    loop-Holds i ended next es open' held rest

-- What a finished run reports: as `Holds`, and nothing is reported of a publication in progress.
abbrev pub Reported : Scenario → State → Projection → Type 0
Reported i publish_pending r =
    (r.projected_snapshot ≡ none)
    × (r.outcome ≡ unknown)
    × (r.confirmation_consumed ≡ true)
    × (r.minimum_security_floor ≡ reserved_floor i)
Reported i s r = Holds i s r

hide_pending-Reported :
    (i : Scenario) (s : State) (r : Projection)
    → r.state ≡ s
    → Holds i s r
    → Reported i (hide_pending r).state (hide_pending r)
unfolding hide_pending
hide_pending-Reported i requested r e h = ground arith
hide_pending-Reported i _ r e h = ground arith

Holds-Reported :
    (i : Scenario) (r : Projection)
    → (r.state ≡ recovery_required) ⊎ (r.state ≡ rejected)
    → Holds i r.state r
    → Reported i r.state r
Holds-Reported i r (inl e) h = rw e (rw e at h)
Holds-Reported i r (inr e) h = rw e (rw e at h)

module _ (sha256 : String → String) (date_parse : String → ℕ) (i : Scenario) where
  -- A run that returns a projection began below the floor, or was refused, or went through the loop.
  pub simulate_cases :
      {r : Projection}
      → simulate_deployment sha256 date_parse i ≡ some r
      → ((is_below_floor i.snapshot ≡ true)
          × (r.state ≡ recovery_required)
          × Holds i r.state r
          × (r.states ≡ requested ∷ r.state ∷ []))
        ⊎ ((why : Reason) × (is_below_floor i.snapshot ≡ false)
            × (admission_reason sha256 date_parse i ≡ some why)
            × (r.state ≡ rejected)
            × Holds i r.state r
            × (r.states ≡ requested ∷ r.state ∷ []))
        ⊎ ((q : Projection) × (is_below_floor i.snapshot ≡ false)
            × (admission_reason sha256 date_parse i ≡ none)
            × (loop i false (initial i) i.events ≡ some q)
            × (r ≡ hide_pending q))
  unfolding simulate_deployment
  simulate_cases {r = r} p = elim (Bool-cases (is_below_floor i.snapshot)) [
    | inl low ↦ inl (low, ground arith, ground arith, ground arith)
    | inr high ↦ elim (Option-cases (admission_reason sha256 date_parse i)) [
      | inr (why, e) ↦ inr (inl (why, high, e, ground arith, ground arith, ground arith))
      | inl e ↦ elim (Option-cases (loop i false (initial i) i.events)) [
        | inl stuck ↦ absurd (none-ne-some r (rw (high, e, stuck, simulate_deployment) at p))
        | inr (q, looped) ↦ inr (
            inr (
              q,
              high,
              e,
              looped,
              sym (some-injective _ r (rw (high, e, looped, simulate_deployment) at p)),
            ))
      ]
    ]
  ]

  -- Every projection that a run returns, at the state that it ends in: an uncertain publication and
  -- a recovery report no snapshot and an unknown outcome; a committed one reports exactly the
  -- desired selection under the reserved floor, with the confirmation used up; any other reports
  -- the old snapshot, its floor and no commit.
  pub simulate-Reported :
      {r : Projection} → simulate_deployment sha256 date_parse i ≡ some r → Reported i r.state r
  unfolding initial
  simulate-Reported {r = r} p = elim (simulate_cases p) [
    | inl (_, e, h, _) ↦ Holds-Reported i r (inl e) h
    | inr (inl (_, _, _, e, h, _)) ↦ Holds-Reported i r (inr e) h
    | inr (inr (q, _, _, looped, e)) ↦
        subst (λ (x : Projection). Reported i x.state x) (sym e)
          (hide_pending-Reported i q.state q refl
            (loop-Holds i false (initial i) i.events (λ _. refl) (ground arith) looped))
  ]
