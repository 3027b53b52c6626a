-- ===== src/Deployment/Run.antt =====
-- tools/lib/deployment-model.mjs: `simulateDeployment`. `none` is an input error, which throws. The
-- projection's constant keys and its two digests are left out.
use sec_app.Base.{
  ℕ, String, Bool, true, false, Option, none, some, List, [], ◌∷◌, ◌++◌, max, ltb, if◌then◌else◌,
}
use sec_app.Deployment.Types.{
  Event, prepare, stage, verify, begin_publish, commit, begin_cleanup, finish, cancel, busy,
  trust_unavailable, reboot_required, inconsistent_state, cleanup_failed, Selection, Snapshot,
  Scenario,
}
use sec_app.Deployment.Admission.{Reason, epoch_of, admission_reason}

pub data State : Type 0 where
  requested prepared staged verified publish_pending committed cleanup_pending completed : State
  recovery_required rejected cancelled deferred : State

-- Why a run left the straight path.
pub data Cause : Type 0 where
  nothing snapshot_below_floor explicit_recovery_required cleanup_incomplete : Cause
  cancelled_before_publish : Cause
  refused : Reason → Cause
  event : Event → Cause

pub data Outcome : Type 0 where
  not_committed unknown uninstalled backend_not_enrolled installed_launch_blocked : Outcome

pub record Projection : Type 0 where
  pub state : State
  pub reason : Cause
  pub states : List State
  pub projected_snapshot : Option Snapshot
  pub minimum_security_floor : ℕ
  pub confirmation_consumed : Bool
  pub outcome : Outcome

-- STATES[state] at the event that it expects.
abbrev pub expected : State → Event → Option State
expected requested prepare = some prepared
expected prepared stage = some staged
expected staged verify = some verified
expected verified begin_publish = some publish_pending
expected publish_pending commit = some committed
expected committed begin_cleanup = some cleanup_pending
expected cleanup_pending finish = some completed
expected _ _ = none

-- `move`.
unfoldable pub move : Projection → State → Cause → Projection
move r s why = record r { state = s; reason = why; states = r.states ++ s ∷ [] }

abbrev pub outcome_of : Option Selection → Outcome
outcome_of none = uninstalled
outcome_of (some t) = elim t.backend_id [
  | none ↦ backend_not_enrolled
  | some _ ↦ installed_launch_blocked
]

-- What the expected event does besides the move.
unfoldable pub effect : Scenario → Event → Projection → Projection
effect input prepare r = record r { confirmation_consumed = true }
effect input begin_publish r = record r {
  minimum_security_floor =
      max (max r.minimum_security_floor (epoch_of input.snapshot.selection))
        (epoch_of input.intent.desired);
}
effect input commit r = record r {
  projected_snapshot = some (record {
    generation = input.intent.next_generation;
    security_floor = r.minimum_security_floor;
    selection = input.intent.desired;
  });
  outcome = outcome_of input.intent.desired;
}
effect input _ r = r

-- The events of the straight path: out of place they are an input error.
abbrev pub is_path_event : Event → Bool
is_path_event prepare = true
is_path_event stage = true
is_path_event verify = true
is_path_event begin_publish = true
is_path_event commit = true
is_path_event begin_cleanup = true
is_path_event finish = true
is_path_event _ = false

abbrev pub is_after_commit : State → Bool
is_after_commit committed = true
is_after_commit cleanup_pending = true
is_after_commit _ = false

unfoldable pub unknown_selection : Projection → Projection
unfolding move
unknown_selection r = record (move r recovery_required explicit_recovery_required) {
  projected_snapshot = none;
  outcome = unknown;
}

-- The rest of an interrupting event, by the state that it meets: inconsistent evidence and an
-- uncertain publication need recovery, a committed selection keeps its cleanup pending.
unfoldable pub interrupt : State → Event → Projection → Projection
unfolding unknown_selection
interrupt s inconsistent_state r = unknown_selection r
interrupt publish_pending e r = unknown_selection r
interrupt committed trust_unavailable r = unknown_selection r
interrupt cleanup_pending trust_unavailable r = unknown_selection r
interrupt committed e r = move r cleanup_pending cleanup_incomplete
interrupt cleanup_pending e r = move r cleanup_pending cleanup_incomplete
interrupt s cancel r = move r cancelled cancelled_before_publish
interrupt s busy r = move r deferred (event busy)
interrupt s reboot_required r = move r deferred (event reboot_required)
interrupt s e r = move r rejected (event e)

abbrev pub is_completed : State → Bool
is_completed completed = true
is_completed _ = false

-- An event that the state does not expect.
unfoldable pub unexpected : State → Event → Projection → Option (Projection × Bool)
unfolding interrupt
unexpected s cleanup_failed r =
    if is_after_commit s then some (interrupt s cleanup_failed r, true) else none
unexpected s e r = if is_path_event e then none else some (interrupt s e r, true)

-- One event in state `s`: the new projection, and whether it is terminal.
unfoldable pub step : Scenario → State → Projection → Event → Option (Projection × Bool)
unfolding effect unexpected
step input s r e = elim (expected s e) [
  | some t ↦ some (move (effect input e r) t nothing, is_completed t)
  | none ↦ unexpected s e r
]

-- The loop over the events: one after the terminal one is an input error.
unfoldable pub loop : Scenario → Bool → Projection → List Event → Option Projection
unfolding step
loop input terminal r [] = some r
loop input true r (e ∷ es) = none
loop input false r (e ∷ es) = elim (step input r.state r e) [
  | none ↦ none
  | some (next, ended) ↦ loop input ended next es
]

-- A projection must not present the old selection while the publication is uncertain.
unfoldable pub hide_pending : Projection → Projection
hide_pending r = elim r.state [
  | publish_pending ↦ record r { projected_snapshot = none; outcome = unknown }
  | _ ↦ r
]

abbrev pub is_below_floor : Snapshot → Bool
is_below_floor s = elim s.selection [
  | none ↦ false
  | some t ↦ ltb t.security_epoch s.security_floor
]

unfoldable pub initial : Scenario → Projection
initial input = record {
  state = requested;
  reason = nothing;
  states = requested ∷ [];
  projected_snapshot = some input.snapshot;
  minimum_security_floor = input.snapshot.security_floor;
  confirmation_consumed = false;
  outcome = not_committed;
}

module _ (sha256 : String → String) (date_parse : String → ℕ) where
  unfoldable pub simulate_deployment : Scenario → Option Projection
  unfolding move initial
  simulate_deployment input =
      if is_below_floor input.snapshot
      then some (record (move (initial input) recovery_required snapshot_below_floor) {
        projected_snapshot = none;
        outcome = unknown;
      })
      else elim (admission_reason sha256 date_parse input) [
        | some why ↦ some (move (initial input) rejected (refused why))
        | none ↦ elim (loop input false (initial input) input.events) [
          | none ↦ none
          | some r ↦ some (hide_pending r)
        ]
      ]
