-- ===== src/Deployment/Floor.antt =====
-- The security floor of a deployment: no projection lowers it or selects below it.
use sec_app.Base.{ℕ, ◌≤◌, String, true, false, some, ◌≡◌, inl, inr, arith, Option-cases}
use sec_app.Deployment.Types.{Scenario, Snapshot}
use sec_app.Deployment.Run.{
  State, requested, recovery_required, rejected, Projection, is_below_floor, simulate_deployment,
}
use sec_app.Deployment.Admissible.{Admissible, admission_reason-Admissible}
use sec_app.Deployment.Outcome.{
  Holds, Reported, committed_snapshot, simulate_cases, simulate-Reported,
}

-- The floor of a projection is kept, and what it selects is not below the floor that it states.
abbrev pub KeepsFloor : Scenario → Projection → Type 0
KeepsFloor i r =
    (i.snapshot.security_floor ≤ r.minimum_security_floor)
    × ((s : Snapshot)
        → r.projected_snapshot ≡ some s
        → (i.snapshot.security_floor ≤ s.security_floor)
          × (s.security_floor ≤ r.minimum_security_floor)
          × (is_below_floor s ≡ false))

Reported-KeepsFloor :
    (i : Scenario) (s : State) (r : Projection)
    → is_below_floor i.snapshot ≡ false
    → is_below_floor (committed_snapshot i) ≡ false
    → Reported i s r
    → KeepsFloor i r
Reported-KeepsFloor i requested r low new h = (ground arith, λ s e. ground arith)
Reported-KeepsFloor i _ r low new h = (ground arith, λ s e. ground arith)

module _ (sha256 : String → String) (date_parse : String → ℕ) (i : Scenario) where
  committed_above : Admissible sha256 date_parse i → is_below_floor (committed_snapshot i) ≡ false
  committed_above a = elim (Option-cases i.intent.desired) [
    | inl e ↦ rw e
    | inr (d, e) ↦ rw e (ground (arith, a.epoch d e))
  ]

  -- A run never lowers the security floor; a snapshot that it reports keeps the old floor, states
  -- one within the projection's, and does not select an epoch below it.
  pub simulate-KeepsFloor :
      {r : Projection} → simulate_deployment sha256 date_parse i ≡ some r → KeepsFloor i r
  simulate-KeepsFloor {r = r} p = elim (simulate_cases sha256 date_parse i p) [
    | inl (low, e, h, _) ↦ recovering low e h
    | inr (inl (why, high, _, e, h, _)) ↦ refused high e h
    | inr (inr (q, high, ok, _, _)) ↦
        Reported-KeepsFloor i r.state r high
          (committed_above ((admission_reason-Admissible sha256 date_parse i).0 ok))
          (simulate-Reported sha256 date_parse i p)
  ]
    where
      recovering :
          is_below_floor i.snapshot ≡ true
          → r.state ≡ recovery_required
          → Holds i r.state r
          → KeepsFloor i r
      recovering low e h =
          let k : Holds i recovery_required r = rw e at h in (ground arith, λ s e'. ground arith)

      refused :
          is_below_floor i.snapshot ≡ false
          → r.state ≡ rejected
          → Holds i r.state r
          → KeepsFloor i r
      refused high e h =
          let k : Holds i rejected r = rw e at h in (ground arith, λ s e'. ground arith)
