-- ===== src/Deployment/Examples.antt =====
-- An update on a machine whose selection stands at epoch 4, over a floor of 3.
use sec_app.Base.{ℕ, String, true, none, some, List, [], ◌∷◌, ◌≡◌, refl, str_eq, if◌then◌else◌}
use sec_app.Deployment.Types.{
  update, Event, approved, machine_a, Selection, Snapshot, Intent, Confirmation, Scenario, crash,
  prepare, stage, verify, begin_publish,
}
use sec_app.Deployment.Admission.{
  maintenance_binding_digest, admission_reason, in_scope, receipt_reason,
}
use sec_app.Deployment.Admissible.{Admissible, admission_reason-Admissible}
use sec_app.Deployment.Run.{
  requested, prepared, staged, verified, publish_pending, recovery_required,
  explicit_recovery_required, unknown, Projection, completed, simulate_deployment, loop,
  hide_pending,
}
use sec_app.Deployment.Floor.{KeepsFloor, simulate-KeepsFloor}
use sec_app.Deployment.Outcome.{Reported, Selected, simulate-Reported}
use sec_app.Deployment.Path.{Trace, simulate-Trace, straight, simulate_straight}

-- Stand-ins for node:crypto's SHA-256 and for Date.parse.
abbrev hash : String → String
hash s = s

abbrev clock : String → ℕ
clock s =
    if str_eq s "2026-01-01T00:00:00Z"
    then 1000000
    else if str_eq s "2026-01-01T00:01:00Z"
    then 1060000
    else 1200000

abbrev old_selection : Selection
old_selection = record {
  app_id = "synthetic-app-1";
  supervisor_id = "synthetic-supervisor-1";
  backend_id = some "synthetic-backend-1";
  policy_id = "synthetic-policy-1";
  compatibility_id = "synthetic-compat-1";
  security_epoch = 4;
  manifest_digest = "aa";
  policy_digest = "cc";
}

abbrev new_selection : Selection
new_selection = record old_selection { security_epoch = 5; manifest_digest = "bb" }

abbrev old_snapshot : Snapshot
old_snapshot = record { generation = 7; security_floor = 3; selection = some old_selection }

abbrev new_intent : Intent
new_intent = record {
  operation = update;
  expected_generation = 7;
  next_generation = 8;
  desired = some new_selection;
}

abbrev receipt : Confirmation
receipt = record {
  decision = approved;
  operation = update;
  machine_id = machine_a;
  expected_generation = 7;
  binding_digest = maintenance_binding_digest hash machine_a old_snapshot new_intent;
  nonce = "synthetic-nonce-2";
  issued_at = "2026-01-01T00:00:00Z";
  expires_at = "2026-01-01T00:02:00Z";
}

abbrev scenario : List Event → Scenario
scenario es = record {
  simulated_at = "2026-01-01T00:01:00Z";
  machine_id = machine_a;
  snapshot = old_snapshot;
  intent = new_intent;
  confirmation = some receipt;
  used_nonces = "synthetic-nonce-1" ∷ [];
  events = es;
}

admitted : (es : List Event) → admission_reason hash clock (scenario es) ≡ none
unfolding admission_reason in_scope receipt_reason
admitted es = refl

admission_reason-Admissible_example : Admissible hash clock (scenario straight)
admission_reason-Admissible_example =
    (admission_reason-Admissible hash clock (scenario straight)).0 (admitted straight)

simulate_straight_example :
    (r : Projection) × (simulate_deployment hash clock (scenario straight) ≡ some r)
    × (r.state ≡ completed)
    × Selected (scenario straight) r
simulate_straight_example =
    simulate_straight hash clock (scenario straight)
      ((admission_reason-Admissible hash clock (scenario straight)).0 (admitted straight)) refl refl

-- A crash while the publication is pending.
abbrev crashed : List Event
crashed = prepare ∷ stage ∷ verify ∷ begin_publish ∷ crash ∷ []

abbrev crashed_projection : Projection
crashed_projection = record {
  state = recovery_required;
  reason = explicit_recovery_required;
  states = requested ∷ prepared ∷ staged ∷ verified ∷ publish_pending ∷ recovery_required ∷ [];
  projected_snapshot = none;
  minimum_security_floor = 5;
  confirmation_consumed = true;
  outcome = unknown;
}

crashed_run : simulate_deployment hash clock (scenario crashed) ≡ some crashed_projection
unfolding simulate_deployment loop hide_pending admission_reason in_scope receipt_reason
crashed_run = refl

simulate-Reported_example : Reported (scenario crashed) recovery_required crashed_projection
simulate-Reported_example = simulate-Reported hash clock (scenario crashed) crashed_run

simulate-KeepsFloor_example : KeepsFloor (scenario crashed) crashed_projection
simulate-KeepsFloor_example = simulate-KeepsFloor hash clock (scenario crashed) crashed_run

simulate-Trace_example : Trace crashed_projection.states recovery_required
simulate-Trace_example = simulate-Trace hash clock (scenario crashed) crashed_run
