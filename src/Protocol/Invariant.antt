-- ===== src/Protocol/Invariant.antt =====
-- tools/lib/maintenance-protocol-model.mjs: what holds of every session that the loop reaches.
pub mod Local
pub mod Stored
pub mod Publish
pub mod Wire
pub mod Run
use sec_app.Base.{
  ℕ, ◌+◌, ◌≤◌, max, String, Bool, true, false, Option, none, some, List, [], ◌∷◌, ◌≡◌, refl, sym,
  arith, inl, inr, subst, ap, ◌∙◌, Memᴰ, Bool-cases, any, ◌||◌, ◌&&◌, ==_iff, ◌==◌, if◌then◌else◌,
  is_some,
}
use sec_app.Deployment.Types.{approved}
use sec_app.Deployment.Admission.{epoch_of}
use sec_app.Persistence.Types.{tx}
use sec_app.Protocol.Types.{
  Journal, Store, Context, Proposal, State, await_peer, await_hello, await_bind, bound, proposed,
  reviewed, offered, confirmed, admitted, payload_verified, publish_pending, committed,
  cleanup_pending, completed, rejected, aborted, recovery_required, Reason, order_rejected, Outcome,
  confirm, Event, local,
}
use sec_app.Protocol.Store.{below}
use sec_app.Protocol.Session.{
  Admission, not_consumed, unknown_admission, consumed, Session, state_code, state_eq, is_in,
  is_unconsumed, is_uncertain, recover, failed, fail, require_state, fail_if,
}
use sec_app.Protocol.Valid.{ValidStore}

state_of : ℕ → State
state_of n =
    if n == 0
    then await_peer
    else if n == 1
    then await_hello
    else if n == 2
    then await_bind
    else if n == 3
    then bound
    else if n == 4
    then proposed
    else if n == 5
    then reviewed
    else if n == 6
    then offered
    else if n == 7
    then confirmed
    else if n == 8
    then admitted
    else if n == 9
    then payload_verified
    else if n == 10
    then publish_pending
    else if n == 11
    then committed
    else if n == 12
    then cleanup_pending
    else if n == 13
    then completed
    else if n == 14
    then rejected
    else if n == 15
    then aborted
    else recovery_required

state_of-state_code : (s : State) → state_of (state_code s) ≡ s
unfolding state_of
state_of-state_code await_peer = refl
state_of-state_code await_hello = refl
state_of-state_code await_bind = refl
state_of-state_code bound = refl
state_of-state_code proposed = refl
state_of-state_code reviewed = refl
state_of-state_code offered = refl
state_of-state_code confirmed = refl
state_of-state_code admitted = refl
state_of-state_code payload_verified = refl
state_of-state_code publish_pending = refl
state_of-state_code committed = refl
state_of-state_code cleanup_pending = refl
state_of-state_code completed = refl
state_of-state_code rejected = refl
state_of-state_code aborted = refl
state_of-state_code recovery_required = refl

pub state_eq_sound : (s t : State) → state_eq s t ≡ true → t ≡ s
state_eq_sound s t h =
    sym (state_of-state_code t)
    ∙ ap state_of (sym ((==_iff (state_code s) (state_code t)).0 h))
    ∙ state_of-state_code s

pub is_in-only : (s t : State) → is_in (s ∷ []) t ≡ true → t ≡ s
is_in-only s t h = state_eq_sound s t (ground arith)

-- What `fail` sets.
abbrev stopped : Session → State → Option Reason → Bool → Outcome → Session
stopped m s why h o = record m { state = s; reason = why; hidden = h; outcome = o; terminal = true }

-- A predicate that the fields set by `fail` do not matter to holds after `fail`.
pub fail-keeps {ℓ} :
    (P : Session → Type ℓ) (why : Reason) (m : Session)
    → ((s : State) (r : Option Reason) (h : Bool) (o : Outcome) → P (stopped m s r h o))
    → P (fail why m)
unfolding fail failed recover
fail-keeps P why m k =
    elim (Bool-cases (
      state_eq m.state publish_pending
      || is_uncertain why
      || (is_unconsumed m.admission && is_some m.store.journal))) [
        | inl e ↦ rw e (k _ _ _ _)
        | inr e ↦ rw e (elim (Bool-cases (state_eq m.state completed)) [
          | inl f ↦ rw f (k _ _ _ _)
          | inr f ↦ rw f (elim (Bool-cases (is_in (committed ∷ cleanup_pending ∷ []) m.state)) [
            | inl g ↦ rw g (k _ _ _ _)
            | inr g ↦ rw g (k _ _ _ _)
          ])
        ])
      ]

pub fail_if-keeps {ℓ} :
    (P : Session → Type ℓ) (c : Bool) (why : Reason) (m next : Session)
    → P (fail why m)
    → (c ≡ false → P next)
    → P (fail_if c why m next)
unfolding fail_if
fail_if-keeps P true why m next h k = h
fail_if-keeps P false why m next h k = k refl

module _ (context : Context) (events : List Event) where
  -- An approval of the offer with this digest is among the events.
  pub record Approval (digest : String) : Type 0 where
    pub time : ℕ
    pub approver : String
    pub said : Memᴰ (local time (confirm digest approver approved)) events

  abbrev pub Approved : Option String → Type 0
  Approved offer = (digest : String) × (offer ≡ some digest) × Approval digest

  -- The counter is spent exactly once, by an admission that was approved.
  abbrev pub Accounted : Admission → Store → ℕ → Option String → Type 0
  Accounted consumed s floor offer =
      (s.counter ≡ context.store.counter + 1) × (floor ≡ context.store.counter + 1) × Approved offer
  Accounted unknown_admission s floor offer =
      (s ≡ context.store) × (floor ≡ context.store.counter + 1) × Approved offer
  Accounted not_consumed s floor offer = (s ≡ context.store) × (floor ≡ context.store.counter)

  -- A proposal never goes below the floor or the generation.
  abbrev pub Planned : Option Proposal → Store → ℕ → ℕ → Type 0
  Planned proposal s floor next =
      (p : Proposal)
      → proposal ≡ some p
      → (below p.desired (max floor (epoch_of s.selection)) ≡ false) × (s.generation ≤ next)

  abbrev pub Pending : Store → ℕ → ℕ → Type 0
  Pending s floor next =
      (j : Journal)
      → s.journal ≡ some j
      → (j.highest_generation ≡ next) × (j.reserved_floor ≡ floor)

  pub record Offering (s : Store) (a : Admission) (t : Option String) : Type 0 where
    pub unconsumed : a ≡ not_consumed
    pub named : t ≡ some (tx (s.counter + 1))

  pub record Working (s : Store) (a : Admission) (t : Option String) : Type 0 where
    pub spent : a ≡ consumed
    pub named : t ≡ some (tx s.counter)

  -- What a state of a session that goes on says of its other variables.
  abbrev pub Staged :
      State → Store → Admission → Option String → Option Proposal → ℕ → ℕ → Option String → Type 0
  Staged await_peer s a t p floor next offer = a ≡ not_consumed
  Staged await_hello s a t p floor next offer = a ≡ not_consumed
  Staged await_bind s a t p floor next offer = a ≡ not_consumed
  Staged bound s a t p floor next offer = a ≡ not_consumed
  Staged proposed s a t p floor next offer = Offering s a t × Planned p s floor next
  Staged reviewed s a t p floor next offer = Offering s a t × Planned p s floor next
  Staged offered s a t p floor next offer = Offering s a t × Planned p s floor next
  Staged confirmed s a t p floor next offer =
      Offering s a t × Planned p s floor next × Approved offer
  Staged admitted s a t p floor next offer = Working s a t × Planned p s floor next
  Staged payload_verified s a t p floor next offer = Working s a t × Planned p s floor next
  Staged publish_pending s a t p floor next offer =
      Working s a t × Planned p s floor next × Pending s floor next
  Staged committed s a t p floor next offer = Working s a t
  Staged cleanup_pending s a t p floor next offer = Working s a t
  Staged completed s a t p floor next offer = Working s a t
  Staged _ s a t p floor next offer = Unit {0}

  abbrev pub StagedAt : Session → State → Type 0
  StagedAt m state =
      Staged state m.store m.admission m.transaction_id m.proposal m.security_floor
        m.next_generation m.offer_digest

  module _ (sha256 : String → String) where
    pub record Facts (s : Store) (a : Admission) (floor counter_floor : ℕ) (offer : Option String)
        : Type 0 where
      pub valid : ValidStore sha256 s
      pub floor_kept : s.security_floor ≤ floor
      pub floor_grown : context.store.security_floor ≤ s.security_floor
      pub generation_grown : context.store.generation ≤ s.generation
      pub accounted : Accounted a s counter_floor offer

    -- What holds of every session: the store is valid, its numbers have not gone down, and its
    -- counter was spent at most once.
    pub record Sound (m : Session) : Type 0 where
      pub facts : Facts m.store m.admission m.security_floor m.counter_floor m.offer_digest
      pub staged : m.terminal ≡ false → StagedAt m m.state

    -- A session that is over is not at a stage.
    pub over-Sound :
        (why : Reason) (m : Session)
        → Facts m.store m.admission m.security_floor m.counter_floor m.offer_digest
        → Sound (fail why m)
    over-Sound why m h =
        fail-keeps Sound why m (λ s r hidden o. record { facts = h; staged = λ e. ground arith })

    pub fail-Sound : (why : Reason) (m : Session) → Sound m → Sound (fail why m)
    fail-Sound why m h = over-Sound why m h.facts

    pub fail_if-Sound :
        (c : Bool) (why : Reason) (m next : Session)
        → Sound m
        → (c ≡ false → Sound next)
        → Sound (fail_if c why m next)
    fail_if-Sound c why m next h k = fail_if-keeps Sound c why m next (fail-Sound why m h) k

    pub require_state-Sound :
        (states : List State) (m next : Session)
        → Sound m
        → (is_in states m.state ≡ true → Sound next)
        → Sound (require_state states m next)
    unfolding require_state
    require_state-Sound states m next h k = elim (Bool-cases (is_in states m.state)) [
      | inl e ↦ rw e (k e)
      | inr e ↦ rw e (fail-Sound order_rejected m h)
    ]

    -- A single state, and what it says.
    pub at_state-Sound :
        (s : State) (m next : Session)
        → Sound m
        → m.terminal ≡ false
        → (m.state ≡ s → StagedAt m s → Sound next)
        → Sound (require_state (s ∷ []) m next)
    at_state-Sound s m next h live k = require_state-Sound (s ∷ []) m next h (λ e.
        let at = is_in-only s m.state e in k at (subst (λ x. StagedAt m x) at (h.staged live)))
