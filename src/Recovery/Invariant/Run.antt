-- ===== src/Recovery/Invariant/Run.antt =====
-- tools/lib/maintenance-recovery-model.mjs: what a run reports of the storage that it leaves.
use sec_app.Base.{ℕ, String, true, ◌≡◌, refl, arith}
use sec_app.Recovery.Types.{
  Checked, fails, gives, Minimum, Storage, State, Classification, known, Integrity, unknown,
}
use sec_app.Recovery.State.{classify}
use sec_app.Recovery.Terms.{check_min, is_known}
use sec_app.Recovery.Advance.{reconstruct, inspect_recovery_snapshot}
use sec_app.Recovery.Scenario.{Scenario, Machine}
use sec_app.Recovery.Run.{
  is_settled, snapshot_class, closed, project, finish, simulate_maintenance_recovery, ended,
}
use sec_app.Recovery.Invariant.{fail_if-gives, check-gives, bind-gives, check-passed}
use sec_app.Recovery.Invariant.Anchored.{Reconstructed, reconstruct-Reconstructed}

-- A storage that is known to be whole and that reconstructs to a state with the numbers of a minimum.
pub record Accounts (sha256 : String → String) (disk : Storage) (minimum : Minimum) : Type 0 where
  pub state : State
  pub whole : disk.integrity ≡ known
  pub rebuilt : (reconstruct sha256 disk).1 ≡ gives state
  pub sound : Reconstructed sha256 disk state
  pub counter : state.counter ≡ minimum.counter
  pub generation : state.generation_floor ≡ minimum.generation
  pub security_floor : state.security_floor ≡ minimum.security_floor

known-only : (i : Integrity) → is_known i ≡ true → i ≡ known
known-only known h = refl
known-only unknown h = ground arith

classify-counts :
    (sha256 : String → String) (disk : Storage) (s : State) (l : Minimum) (c : Classification)
    → classify sha256 disk s l ≡ gives c
    → (disk.integrity ≡ known)
      × (s.counter ≡ l.counter)
      × (s.generation_floor ≡ l.generation)
      × (s.security_floor ≡ l.security_floor)
unfolding classify check_min
classify-counts sha256 disk s l c h =
    let (whole, h1) = fail_if-gives _ _ _ c h in
    let (kept, _) = check-gives _ _ c h1 in
    let same = check-passed _ _ kept in
    (known-only disk.integrity (ground arith), ground arith, ground arith, ground arith)

inspected :
    (sha256 : String → String) (disk : Storage) (l : Minimum) (x : Classification × State)
    → inspect_recovery_snapshot sha256 disk l ≡ gives x
    → Accounts sha256 disk l
unfolding inspect_recovery_snapshot
inspected sha256 disk l x h =
    let (s, e, h1) = bind-gives _ _ x h in
    let (c, k, _) = bind-gives _ _ x h1 in
    let numbers = classify-counts sha256 disk s l c k in
    record {
      state = s;
      whole = numbers.0;
      rebuilt = e;
      sound = reconstruct-Reconstructed sha256 disk s e;
      counter = numbers.1;
      generation = numbers.2;
      security_floor = numbers.3;
    }

settled-inspected :
    (sha256 : String → String) (date_parse : String → ℕ) (input : Scenario) (disk : Storage)
    (l : Minimum) (m : Checked (Classification × State))
    → inspect_recovery_snapshot sha256 disk l ≡ m
    → is_settled (snapshot_class sha256 date_parse input m) ≡ true
    → Accounts sha256 disk l
settled-inspected sha256 date_parse input disk l (fails p) e h = ground arith
settled-inspected sha256 date_parse input disk l (gives x) e h = inspected sha256 disk l x e

finish-Accounts :
    (sha256 : String → String) (date_parse : String → ℕ) (input : Scenario) (m : Machine)
    → (finish sha256 date_parse input m).selection_known ≡ true
    → Accounts sha256
        (finish sha256 date_parse input m).storage
        (finish sha256 date_parse input m).minimum
unfolding finish project
finish-Accounts sha256 date_parse input m h =
    settled-inspected sha256 date_parse input (closed sha256 date_parse input m) m.minimum _ refl
      (ground arith)

-- A run that says that the selection is known leaves a storage that is known to be whole and that
-- reconstructs to a well-formed state, whose counter, generation floor and security floor are exactly
-- the minimum that the run reports.
pub simulate-Accounts :
    (sha256 : String → String) (date_parse : String → ℕ) (input : Scenario)
    → (simulate_maintenance_recovery sha256 date_parse input).selection_known ≡ true
    → Accounts sha256
        (simulate_maintenance_recovery sha256 date_parse input).storage
        (simulate_maintenance_recovery sha256 date_parse input).minimum
unfolding simulate_maintenance_recovery
simulate-Accounts sha256 date_parse input h =
    finish-Accounts sha256 date_parse input (ended sha256 date_parse input) h
