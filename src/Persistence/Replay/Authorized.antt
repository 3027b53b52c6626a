-- ===== src/Persistence/Replay/Authorized.antt =====
-- What the reservations of a journal that replays have met.
use sec_app.Base.{
  opt_eq-some, ℕ, ◌+◌, ◌≤◌, ◌<◌, String, Bool, true, false, not, ◌||◌, Option, none, some, List, [],
  ◌∷◌, ◌++◌, if◌then◌else◌, ◌≡◌, ◌≢◌, refl, sym, ap, subst, arith, length, leb, Memᴰ, eq_iff,
}
use sec_app.Data.Json.{cons, nil, arr, str, num, nullable}
use sec_app.Data.Jcs.{jcs_sha256, same}
use sec_app.Persistence.Types.{
  Problem, ok, refuse_if, RecordKind, reserve, Stage, committed, IntentKind, maintenance, recovery,
  RecoveryTarget, finalize_candidate, restore_permitted_previous, finish_committed_cleanup,
  approved_synthetic, Intent, Active, Record, Storage, State, tx,
}
use sec_app.Persistence.State.{from_anchor, state_digest, intent_digest, confirmation_digest}
use sec_app.Persistence.Advance.{
  is_cleanup, is_committed, kind_refused, pair_json, expected_pair, check_old,
}
use sec_app.Persistence.Advance.Cases.{
  Advanced, reserves, blocks, commits, completes, refuse-ok, advance-Advanced,
}
use sec_app.Persistence.Replay.{replay_record, replay_from, replay}
use sec_app.Persistence.Replay.Chain.{bind-ok, replay_record-advance}

-- A selection's digest and epoch as the text that is digested, and that two of them have one digest.
abbrev pub SamePair : (String → String) → Option String → ℕ → Option String → ℕ → Type 0
SamePair sha256 d e d' e' =
    jcs_sha256 sha256 (arr (cons (nullable str d) (cons (num e) nil)))
    ≡ jcs_sha256 sha256 (arr (cons (nullable str d') (cons (num e') nil)))

-- What a recovery may do with the transaction in progress: finish the cleanup of one that is committed
-- and not pending, for the selection in force; or, of a pending publication, finalize its first
-- candidate or restore the selection that was before it.
pub data Recovers (sha256 : String → String) (s : State) (i : Intent) (old : Active) : Type 0 where
  cleans :
      i.recovery_target ≡ some finish_committed_cleanup
      → old.stage ≡ committed
      → old.publication_pending ≡ false
      → SamePair sha256 s.selection_digest s.selection_epoch i.selection_digest i.selection_epoch
      → Recovers sha256 s i old
  finalizes :
      i.recovery_target ≡ some finalize_candidate
      → old.publication_pending ≡ true
      → SamePair sha256 old.original_candidate_digest old.original_candidate_epoch
          i.selection_digest i.selection_epoch
      → Recovers sha256 s i old
  restores :
      i.recovery_target ≢ some finish_committed_cleanup
      → i.recovery_target ≢ some finalize_candidate
      → old.publication_pending ≡ true
      → SamePair sha256 old.previous_selection_digest old.previous_selection_epoch
          i.selection_digest i.selection_epoch
      → Recovers sha256 s i old

-- The kind of an intent fits the transaction in progress.
pub data Scoped (sha256 : String → String) (s : State) (i : Intent) : Type 0 where
  maintains : i.kind ≡ maintenance → s.active ≡ none → Scoped sha256 s i
  takes_over :
      {old : Active}
      → i.kind ≡ recovery
      → s.active ≡ some old
      → i.origin_transaction_id ≡ some old.origin_transaction_id
      → length old.lineage < 16
      → Recovers sha256 s i old
      → Scoped sha256 s i

-- A reservation in a state: its intent was approved, is bound to the state by its digests, and has the
-- next transaction; its selection is not below the floor nor the selected epoch.
pub record Authorized (sha256 : String → String) (s : State) (r : Record) : Type 0 where
  pub intent : Intent
  pub carried : r.intent ≡ some intent
  pub approved : intent.confirmation ≡ approved_synthetic
  pub intact : intent.intent_digest ≡ intent_digest sha256 intent
  pub confirmed : intent.confirmation_digest ≡ confirmation_digest sha256 intent
  pub bound : intent.expected_state_digest ≡ state_digest sha256 s
  pub own : intent.transaction_id ≡ r.transaction_id
  pub next : r.transaction_id ≡ tx (s.counter + 1)
  pub floored :
      (d : String)
      → intent.selection_digest ≡ some d
      → (s.security_floor ≤ intent.selection_epoch) × (s.selection_epoch ≤ intent.selection_epoch)
  pub scoped : Scoped sha256 s intent

committed-only : (g : Stage) → is_committed g ≡ true → g ≡ committed
committed-only committed h = refl
committed-only Stage.admitted h = absurd (ground arith)
committed-only Stage.blocked h = absurd (ground arith)

module _ (sha256 : String → String) (s : State) (i : Intent) where
  same-SamePair :
      (d d' : Option String) (e e' : ℕ)
      → same sha256 (pair_json d e) (pair_json d' e') ≡ true
      → SamePair sha256 d e d' e'
  unfolding same
  same-SamePair d d' e e' h = (eq_iff _ _).0 h

  refused-none : (b : Bool) (p : Problem) → refuse_if b p ≡ ok tt → b ≡ false
  refused-none true p h = ground arith
  refused-none false p h = refl

  -- The three checks on the transaction that a recovery takes over.
  check_old-parts :
      (old : Active)
      → check_old sha256 s (some old) i ≡ ok tt
      → (leb 16 (length old.lineage) ≡ false)
        × ((if is_cleanup i.recovery_target
              then not (is_committed old.stage) || old.publication_pending
              else not old.publication_pending)
            ≡ false)
        × (not (
              same sha256
                (expected_pair sha256 s old i.recovery_target)
                (pair_json i.selection_digest i.selection_epoch))
            ≡ false)
  unfolding check_old
  check_old-parts old h =
      let (short, h1) = refuse-ok _ _ _ h in
      let (staged, h2) = refuse-ok _ _ _ h1 in (short, staged, refused-none _ _ h2)

  check_old-Recovers :
      (old : Active) (t : Option RecoveryTarget)
      → i.recovery_target ≡ t
      → (if is_cleanup t
          then not (is_committed old.stage) || old.publication_pending
          else not old.publication_pending)
        ≡ false
      → not (
          same sha256
            (expected_pair sha256 s old t)
            (pair_json i.selection_digest i.selection_epoch))
        ≡ false
      → Recovers sha256 s i old
  check_old-Recovers old none e staged paired =
      restores (λ h. cc) (λ h. cc) (ground arith) (same-SamePair _ _ _ _ (ground arith))
  check_old-Recovers old (some restore_permitted_previous) e staged paired =
      restores (λ h. ground arith) (λ h. ground arith) (ground arith)
        (same-SamePair _ _ _ _ (ground arith))
  check_old-Recovers old (some finalize_candidate) e staged paired =
      finalizes e (ground arith) (same-SamePair _ _ _ _ (ground arith))
  check_old-Recovers old (some finish_committed_cleanup) e staged paired =
      cleans e (committed-only old.stage (ground arith)) (ground arith)
        (same-SamePair _ _ _ _ (ground arith))

  kind-Scoped :
      (k : IntentKind) (a : Option Active)
      → i.kind ≡ k
      → s.active ≡ a
      → kind_refused k i.origin_transaction_id a ≡ false
      → check_old sha256 s a i ≡ ok tt
      → Scoped sha256 s i
  kind-Scoped maintenance none ek ea fits checked = maintains ek ea
  kind-Scoped maintenance (some old) ek ea fits checked = ground arith
  kind-Scoped recovery none ek ea fits checked = ground arith
  kind-Scoped recovery (some old) ek ea fits checked =
      let (short, staged, paired) = check_old-parts old checked in
      takes_over ek ea
        (opt_eq-some i.origin_transaction_id old.origin_transaction_id (ground arith))
        (ground arith) (check_old-Recovers old i.recovery_target refl staged paired)

module _ (sha256 : String → String) where
  reserves-Authorized :
      (s n : State) (r : Record) {kind : RecordKind} {given : Option Intent}
      → r.record_kind ≡ reserve
      → kind ≡ r.record_kind
      → given ≡ r.intent
      → Advanced sha256 s r.transaction_id n kind given
      → Authorized sha256 s r
  reserves-Authorized s n r is_reserve ek eg (reserves {i} can made) = record {
    intent = i;
    carried = sym eg;
    approved = can.approved;
    intact = can.intact;
    confirmed = can.confirmed;
    bound = can.bound;
    own = can.own;
    next = can.next;
    floored = λ d e. omega (arith, can.epoch d e);
    scoped = kind-Scoped sha256 s i i.kind s.active refl refl can.kind can.scope;
  }
  reserves-Authorized s n r is_reserve ek eg (blocks e same_id stage cleanup made) = ground arith
  reserves-Authorized s n r is_reserve ek eg (commits e same_id stage made) = ground arith
  reserves-Authorized s n r is_reserve ek eg (completes e same_id stage made) = ground arith

  -- A record of a run that replays is accepted in the state that the records before it lead to.
  replay_from-split :
      (s : State) (rs : List Record) {n : State} {r : Record}
      → replay_from sha256 s rs ≡ ok n
      → Memᴰ r rs
      → (before : List Record) × (after : List Record) × (m : State) × (k : State) × (before
            ++ r ∷ after
          ≡ rs)
        × (replay_from sha256 s before ≡ ok m)
        × (replay_record sha256 m r ≡ ok k)
  unfolding replay_from
  replay_from-split s [] h m = elim m [ ]
  replay_from-split s (q ∷ rs) {n} {r} h (Memᴰ.head e) =
      let (next, first, rest) = bind-ok (replay_record sha256 s q) _ h in
      (
        [],
        rs,
        s,
        next,
        ap (λ x. x ∷ rs) e,
        refl,
        subst (λ x. replay_record sha256 s x ≡ ok next) (sym e) first,
      )
  replay_from-split s (q ∷ rs) {n} {r} h (Memᴰ.tail m) =
      let (next, first, rest) = bind-ok (replay_record sha256 s q) _ h in
      let (before, after, reached, k, parts, run, accepted) = replay_from-split next rs rest m in
      (q ∷ before, after, reached, k, ap (λ xs. q ∷ xs) parts, ground (arith, first, run), accepted)

  -- In a journal that replays, every reservation stands after records that replay themselves, to a
  -- state in which it was authorized: its intent was approved and is bound to that very state, has
  -- the next transaction, and selects nothing below the floor or the selected epoch; a maintenance
  -- met no transaction in progress, and a recovery the one that it names, with fewer than sixteen
  -- intents, for the selection that its target allows.
  pub replay-Authorized :
      (disk : Storage) {n : State} {r : Record}
      → replay sha256 disk ≡ ok n
      → Memᴰ r disk.records
      → r.record_kind ≡ reserve
      → (before : List Record) × (after : List Record) × (s : State) × (before ++ r ∷ after
          ≡ disk.records)
        × (replay sha256 (record disk { records = before }) ≡ ok s)
        × Authorized sha256 s r
  unfolding replay
  replay-Authorized disk {n} {r} h m is_reserve =
      let (begun, opened, rest) = bind-ok (from_anchor sha256 disk.anchor) _ h in
      let (before, after, s, k, parts, run, accepted) =
        replay_from-split begun disk.records rest m in
      let (linked, next, stepped, made) = replay_record-advance sha256 s r accepted in
      (
        before,
        after,
        s,
        parts,
        ground (arith, opened, run),
        reserves-Authorized s next r is_reserve refl refl
            (advance-Advanced sha256 s r.transaction_id next r.record_kind r.intent stepped),
      )
