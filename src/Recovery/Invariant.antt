-- ===== src/Recovery/Invariant.antt =====
-- tools/lib/maintenance-recovery-model.mjs: what holds of every state that a journal reaches.
pub mod Admission
pub mod Advance
pub mod Anchored
pub mod Run
pub mod Below
pub mod Minimum
use sec_app.Base.{
  ℕ, ◌+◌, ◌≤◌, max, String, Bool, true, false, not, ◌&&◌, ◌||◌, Option, none, some, List, [], ◌∷◌,
  ◌++◌, ◌≡◌, refl, arith, inl, inr, eq_iff, eq_refl, str_eq, length, length-append, Bool-cases,
  Option-cases, ltb, leb, is_some, opt_eq, max_safe_integer, ◌==◌, if◌then◌else◌, ap, sym, ◌∙◌,
}
use sec_app.Persistence.Types.{tx}
use sec_app.Recovery.Types.{
  Operation, maintenance, recover_publication, finish_committed_cleanup, retire_admitted_candidate,
  compact_terminal_state, reconcile_checkpoint, Stage, admitted, blocked, committed, Checked, fails,
  gives, ◌>>◌, ◌>>=◌, fail_if, Problem, Selection, Terminal, Anchor, Offer, Authorization, Storage,
  Active, State, RecordKind, admission, block, commit, complete, retire, authorize_checkpoint,
  Record,
}
use sec_app.Recovery.State.{from_anchor}
use sec_app.Recovery.Terms.{
  meta, checkpoint_op, is_committed, is_admitted, epoch_of, below, bad_terminal, is_uncertain,
  opened, check_recovery_capacity, capacity, outcome_eq, terminal_outcome, costs, lineage_length,
}
use sec_app.Recovery.Offer.{is_cleanup, operation_scope, validate_scope, validate_offer, origin_of}
use sec_app.Recovery.Advance.{
  publishes, is_blocked, admitted_active, entry_of, owned, may_end, outcome_of, advance_block,
  advance_commit, advance_admission, advance_end, advance_kind, advance_active, advance_by, advance,
  links, reconstruct_record, reconstruct_from, reconstruct_opened, reconstruct, terminal_digest,
}

-- A check that passes gives what follows it.
pub fail_if-gives {ℓ} :
    {A : Type ℓ} (c : Bool) (p : Problem) (m : Checked A) (x : A)
    → (fail_if c p >> m) ≡ gives x
    → (c ≡ false) × (m ≡ gives x)
unfolding fail_if ◌>>◌
fail_if-gives true p m x h = ground arith
fail_if-gives false p m x h = (refl, h)

pub check-gives {ℓ} :
    {A : Type ℓ} (c : Checked (Unit {0})) (m : Checked A) (x : A)
    → (c >> m) ≡ gives x
    → (c ≡ gives tt) × (m ≡ gives x)
unfolding ◌>>◌
check-gives (fails p) m x h = ground arith
check-gives (gives tt) m x h = (refl, h)

-- A step that gives something went through a value.
pub bind-gives {ℓ κ} :
    {A : Type ℓ} {B : Type κ} (m : Checked A) (k : A → Checked B) (y : B)
    → (m >>= k) ≡ gives y
    → (x : A) × (m ≡ gives x) × (k x ≡ gives y)
unfolding ◌>>=◌
bind-gives (fails p) k y h = ground arith
bind-gives (gives x) k y h = (x, refl, h)

pub gives-injective {ℓ} : {A : Type ℓ} (x y : A) → gives x ≡ gives y → x ≡ y
gives-injective x y h = ground arith

pub check-passed : (c : Bool) (p : Problem) → fail_if c p ≡ gives tt → c ≡ false
unfolding fail_if
check-passed true p h = ground arith
check-passed false p h = refl

-- The transaction in progress, stage by stage.
abbrev pub StageOk : State → Active → Stage → Type 0
StageOk s a admitted =
    (meta a.operation ≡ true → a.publication_seen ≡ false)
    × (publishes a.operation ≡ true
        → (a.target_generation ≡ s.generation_floor + 1)
          × (below a.candidate (max s.security_floor (epoch_of s.selection)) ≡ false))
StageOk s a blocked =
    (publishes a.operation ≡ true)
    × (a.publication_seen ≡ true)
    × (a.target_generation ≡ s.generation_floor)
    × (below a.candidate s.security_floor ≡ false)
StageOk s a committed = meta a.operation ≡ false

abbrev pub ActiveOk : State → Option Active → Type 0
ActiveOk s none = bad_terminal s.terminal s.counter ≡ false
ActiveOk s (some a) =
    (a.transaction_id ≡ tx s.counter) × StageOk s a a.stage × (length a.lineage ≤ 16)

-- The generation is the floor and the selection is above the floor, unless a publication is uncertain;
-- the transaction in progress, or else the last one, is the one that the counter names.
pub record WellFormed (s : State) : Type 0 where
  pub generations : s.generation ≤ s.generation_floor
  pub settled :
      is_uncertain s.active ≡ false
      → (s.generation ≡ s.generation_floor) × (below s.selection s.security_floor ≡ false)
  pub active_ok : ActiveOk s s.active

below-raised :
    (o : Option Selection) (floor epoch : ℕ)
    → below o (max floor epoch) ≡ false
    → below o (max (max floor (epoch_of o)) epoch) ≡ false
below-raised none floor epoch h = refl
below-raised (some t) floor epoch h = ground arith

pub committed-only : (s : Stage) → is_committed s ≡ true → s ≡ committed
committed-only admitted h = ground arith
committed-only blocked h = ground arith
committed-only committed h = refl

pub admitted-only : (s : Stage) → is_admitted s ≡ true → s ≡ admitted
admitted-only admitted h = refl
admitted-only blocked h = ground arith
admitted-only committed h = ground arith

pub blocked-only : (s : Stage) → is_blocked s ≡ true → s ≡ blocked
blocked-only admitted h = ground arith
blocked-only blocked h = refl
blocked-only committed h = ground arith

pub publishes-meta : (o : Operation) → publishes o ≡ true → meta o ≡ false
publishes-meta maintenance h = refl
publishes-meta recover_publication h = refl
publishes-meta finish_committed_cleanup h = ground arith
publishes-meta retire_admitted_candidate h = ground arith
publishes-meta compact_terminal_state h = ground arith
publishes-meta reconcile_checkpoint h = ground arith

pub stage_ok :
    (s : State) (a : Active) (g : Stage) → a.stage ≡ g → StageOk s a a.stage → StageOk s a g
stage_ok s a g e h = rw e at h

pub blocked-WellFormed :
    (s : State) (a : Active)
    → WellFormed s
    → s.active ≡ some a
    → a.stage ≡ admitted
    → publishes a.operation ≡ true
    → WellFormed (record s {
      active = some (record a { stage = blocked; publication_seen = true });
      generation_floor = a.target_generation;
      security_floor = max (max s.security_floor (epoch_of a.candidate)) (epoch_of s.selection);
    })
blocked-WellFormed s a w e stage p =
    let ok : ActiveOk s (some a) = rw e at w.active_ok in
    let now = (stage_ok s a admitted stage ok.1).1 p in
    record {
      generations = omega (arith, w.generations, now.0);
      settled = λ u. ground arith;
      active_ok = (
        ok.0,
        (p, refl, refl, below-raised a.candidate s.security_floor (epoch_of s.selection) now.1),
        ok.2,
      );
    }

pub committed-WellFormed :
    (s : State) (a : Active)
    → WellFormed s
    → s.active ≡ some a
    → a.stage ≡ blocked
    → WellFormed (record s {
      generation = a.target_generation;
      selection = a.candidate;
      active = some (record a { stage = committed });
    })
committed-WellFormed s a w e stage =
    let ok : ActiveOk s (some a) = rw e at w.active_ok in
    let now = stage_ok s a blocked stage ok.1 in
    record {
      generations = omega (arith, now.2);
      settled = λ u. (now.2, now.3);
      active_ok = (ok.0, publishes-meta a.operation now.0, ok.2);
    }

-- The outcome that a kind gives is the one of the operation that it ends.
pub ending-outcome :
    (kind : RecordKind) (a : Active)
    → may_end kind a ≡ true
    → (a.stage ≡ committed → meta a.operation ≡ false)
    → outcome_eq (outcome_of kind) (terminal_outcome a.operation) ≡ true
ending-outcome admission a h m = ground arith
ending-outcome block a h m = ground arith
ending-outcome commit a h m = ground arith
ending-outcome complete a h m = let done = m (committed-only a.stage h) in ground arith
ending-outcome retire a h m = ground arith
ending-outcome authorize_checkpoint a h m = ground arith

-- A transaction that may end has no publication in doubt.
pub ending-certain :
    (kind : RecordKind) (s : State) (a : Active)
    → may_end kind a ≡ true
    → StageOk s a a.stage
    → is_uncertain (some a) ≡ false
ending-certain admission s a h k = ground arith
ending-certain block s a h k = ground arith
ending-certain commit s a h k = ground arith
ending-certain complete s a h k = ground arith
ending-certain retire s a h k = ground arith
ending-certain authorize_checkpoint s a h k =
    let now = stage_ok s a admitted (admitted-only a.stage (ground arith)) k in
    let unseen = now.0 (ground arith) in ground arith
