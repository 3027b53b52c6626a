-- ===== src/Persistence/Advance/Cases.antt =====
-- What a record that `advance` accepts has met, and what it changes.
use sec_app.Base.{
  ◌+◌, ◌≤◌, max, String, Bool, true, false, Option, none, some, ◌≡◌, ◌≢◌, refl, inl, inr, arith,
  eq_iff, max_safe_integer, Option-cases,
}
use sec_app.Persistence.Types.{
  Problem, Result, ok, refuse_if, ◌>>◌, RecordKind, reserve, block, commit, complete, admitted,
  blocked, committed, approved_synthetic, Intent, Active, State, tx,
}
use sec_app.Persistence.State.{state_digest, intent_digest, confirmation_digest}
use sec_app.Persistence.Advance.{
  is_cleanup, kind_refused, check_old, reserved, advance_reserve, advance_active, advance,
}

-- What a reservation has met.
pub record CanReserve (sha256 : String → String) (s : State) (i : Intent) (t : String)
    : Type 0 where
  pub intact : i.intent_digest ≡ intent_digest sha256 i
  pub bound : i.expected_state_digest ≡ state_digest sha256 s
  pub approved : i.confirmation ≡ approved_synthetic
  pub confirmed : i.confirmation_digest ≡ confirmation_digest sha256 i
  pub countable : s.counter ≢ max_safe_integer
  pub next : t ≡ tx (s.counter + 1)
  pub own : i.transaction_id ≡ t
  pub kind : kind_refused i.kind i.origin_transaction_id s.active ≡ false
  pub scope : check_old sha256 s s.active i ≡ ok tt
  pub epoch :
      (d : String)
      → i.selection_digest ≡ some d
      → max s.security_floor s.selection_epoch ≤ i.selection_epoch
  pub room : is_cleanup i.recovery_target ≡ false → s.generation_floor ≢ max_safe_integer

-- `Advanced s t n kind intent`: a record of transaction `t` takes state `s` to `n`.
pub data Advanced (sha256 : String → String) (s : State) (t : String) (n : State)
    : RecordKind → Option Intent → Type 0 where
  reserves :
      {i : Intent}
      → CanReserve sha256 s i t
      → n ≡ record s { counter = s.counter + 1; active = some (reserved s s.active i t) }
      → Advanced sha256 s t n reserve (some i)
  blocks :
      {a : Active}
      → s.active ≡ some a
      → a.transaction_id ≡ t
      → a.stage ≡ admitted
      → a.cleanup_only ≡ false
      → n ≡ record s {
        active = some (record a { stage = blocked; publication_pending = true });
        generation_floor = a.target_generation;
        security_floor = max (max s.security_floor s.selection_epoch) a.candidate_epoch;
      }
      → Advanced sha256 s t n block none
  commits :
      {a : Active}
      → s.active ≡ some a
      → a.transaction_id ≡ t
      → a.stage ≡ blocked
      → n ≡ record s {
        generation = a.target_generation;
        selection_digest = a.candidate_digest;
        selection_epoch = a.candidate_epoch;
        active = some (record a { stage = committed; publication_pending = false });
      }
      → Advanced sha256 s t n commit none
  completes :
      {a : Active}
      → s.active ≡ some a
      → a.transaction_id ≡ t
      → a.stage ≡ committed
      → n ≡ record s { last_transaction_id = some t; active = none }
      → Advanced sha256 s t n complete none

-- A check that let the rest go on has passed.
pub refuse-ok {ℓ} :
    {A : Type ℓ} (b : Bool) (p : Problem) (k : Result A) {x : A}
    → (refuse_if b p >> k) ≡ ok x
    → (b ≡ false) × (k ≡ ok x)
refuse-ok true p k h = ground arith
refuse-ok false p k h = (refl, h)

module _ (sha256 : String → String) (s : State) (t : String) (n : State) where
  reserve-CanReserve :
      (i : Intent)
      → advance_reserve sha256 s i t ≡ ok n
      → CanReserve sha256 s i t
        × (n ≡ record s { counter = s.counter + 1; active = some (reserved s s.active i t) })
  unfolding advance_reserve
  reserve-CanReserve i h = ground (
    arith,
    eq_iff i.intent_digest (intent_digest sha256 i),
    eq_iff i.expected_state_digest (state_digest sha256 s),
    eq_iff i.confirmation_digest (confirmation_digest sha256 i),
    eq_iff t (tx (s.counter + 1)),
    eq_iff i.transaction_id t,
  )

  active-Advanced :
      (a : Active) (kind : RecordKind) (intent : Option Intent)
      → s.active ≡ some a
      → kind ≢ reserve
      → advance_active s (some a) kind intent t ≡ ok n
      → Advanced sha256 s t n kind intent
  unfolding advance_active
  active-Advanced a reserve intent e no_reserve h = absurd (no_reserve refl)
  active-Advanced a block none e _ h =
      blocks e (ground (arith, eq_iff a.transaction_id t)) (ground arith) (ground arith)
        (ground arith)
  active-Advanced a commit none e _ h =
      commits e (ground (arith, eq_iff a.transaction_id t)) (ground arith) (ground arith)
  active-Advanced a complete none e _ h =
      completes e (ground (arith, eq_iff a.transaction_id t)) (ground arith) (ground arith)
  active-Advanced a block (some i) e _ h = ground arith
  active-Advanced a commit (some i) e _ h = ground arith
  active-Advanced a complete (some i) e _ h = ground arith

  -- Every record that `advance` accepts is one of these steps.
  pub advance-Advanced :
      (kind : RecordKind) (intent : Option Intent)
      → advance sha256 s kind intent t ≡ ok n
      → Advanced sha256 s t n kind intent
  unfolding advance
  advance-Advanced reserve none h = ground arith
  advance-Advanced reserve (some i) h = let (can, e) = reserve-CanReserve i h in reserves can e
  advance-Advanced block intent h = elim (Option-cases s.active) [
    | inl e ↦ ground arith
    | inr (a, e) ↦ active-Advanced a block intent e (λ k. cc) (rw e at h)
  ]
  advance-Advanced commit intent h = elim (Option-cases s.active) [
    | inl e ↦ ground arith
    | inr (a, e) ↦ active-Advanced a commit intent e (λ k. cc) (rw e at h)
  ]
  advance-Advanced complete intent h = elim (Option-cases s.active) [
    | inl e ↦ ground arith
    | inr (a, e) ↦ active-Advanced a complete intent e (λ k. cc) (rw e at h)
  ]
