-- ===== src/Persistence/Advance/Invariant.antt =====
-- What holds of every state that a journal reaches.
use sec_app.Base.{
  ℕ, ◌+◌, ◌≤◌, max, String, true, false, Option, none, some, [], ◌∷◌, ◌≡◌, refl, sym, ap, ◌∙◌, ◌⊎◌,
  inr, eq_iff, str_eq, subst, arith, length, length-append, leb, Bool-cases, inl,
}
use sec_app.Persistence.Types.{
  ok, lineage_full, tx, RecordKind, Stage, admitted, blocked, committed, Intent, Active, State,
  Anchor,
}
use sec_app.Persistence.State.{is_pending, from_anchor}
use sec_app.Persistence.Advance.{entry_of, is_cleanup, check_old, reserved, advance}
use sec_app.Persistence.Advance.Cases.{
  refuse-ok, CanReserve, Advanced, reserves, blocks, commits, completes, advance-Advanced,
}

-- A named selection is not below the floor.
abbrev pub AtFloor : ℕ → Option String → ℕ → Type 0
AtFloor floor digest epoch = (d : String) → digest ≡ some d → floor ≤ epoch

-- The transaction in progress, stage by stage. The candidate is never below the floor.
abbrev pub StageOk : State → Active → Stage → Type 0
StageOk s a admitted =
    (a.target_generation ≡ s.generation_floor + 1)
    × (a.cleanup_only ≡ false)
    × AtFloor (max s.security_floor s.selection_epoch) a.candidate_digest a.candidate_epoch
StageOk s a blocked =
    (a.target_generation ≡ s.generation_floor)
    × (a.publication_pending ≡ true)
    × AtFloor s.security_floor a.candidate_digest a.candidate_epoch
StageOk s a committed = (a.publication_pending ≡ false) × (a.target_generation ≡ s.generation)

abbrev pub ActiveOk : State → Option Active → Type 0
ActiveOk s none = Unit {0}
ActiveOk s (some a) = StageOk s a a.stage × (length a.lineage ≤ 16)

-- The transaction in progress, or else the last one, is the one that the counter names.
abbrev pub NamesCounter : ℕ → Option String → Option Active → Type 0
NamesCounter counter last none = (last ≡ none) ⊎ (last ≡ some (tx counter))
NamesCounter counter last (some a) = a.transaction_id ≡ tx counter

pub record WellFormed (s : State) : Type 0 where
  pub generations : s.generation ≤ s.generation_floor
  pub active_ok : ActiveOk s s.active
  pub settled : is_pending s.active ≡ false → s.generation_floor ≡ s.generation
  pub named : NamesCounter s.counter s.last_transaction_id s.active
  pub at_floor :
      is_pending s.active ≡ false → AtFloor s.security_floor s.selection_digest s.selection_epoch

last-named :
    (o : Option String) (t : String)
    → (elim o [ none ↦ true | some u ↦ str_eq u t ]) ≡ true
    → (o ≡ none) ⊎ (o ≡ some t)
last-named none t h = inl refl
last-named (some u) t h = inr (ap some ((eq_iff u t).0 h))

module _ (sha256 : String → String) where
  -- An anchor that is accepted gives a well-formed state.
  pub from_anchor-WellFormed : (a : Anchor) {s : State} → from_anchor sha256 a ≡ ok s → WellFormed s
  unfolding from_anchor
  from_anchor-WellFormed a {s} h = record {
    generations = ground arith;
    active_ok = ground arith;
    settled = λ _. ground arith;
    named = ground (arith, last-named a.last_transaction_id (tx a.counter));
    at_floor = λ _ d e. ground arith;
  }

  -- The lineage has room for the entry that a reservation adds.
  lineage-reserved :
      (s : State) (o : Option Active) (i : Intent) (t : String)
      → check_old sha256 s o i ≡ ok tt
      → length (reserved s o i t).lineage ≤ 16
  unfolding reserved check_old
  lineage-reserved s none i t h = omega arith
  lineage-reserved s (some old) i t h = ground (
    arith,
    length-append old.lineage (entry_of i t ∷ []),
    refuse-ok (leb 16 (length old.lineage)) lineage_full _ h,
  )

  pending-reserved :
      (s : State) (o : Option Active) (i : Intent) (t : String)
      → is_pending (some (reserved s o i t)) ≡ is_pending o
  unfolding reserved
  pending-reserved s none i t = refl
  pending-reserved s (some old) i t = refl

  cleanup-reserved :
      (s : State) (o : Option Active) (i : Intent) (t : String)
      → is_cleanup i.recovery_target ≡ true
      → check_old sha256 s o i ≡ ok tt
      → (reserved s o i t).publication_pending ≡ false
  unfolding reserved check_old
  cleanup-reserved s none i t c h = refl
  cleanup-reserved s (some old) i t c h = ground arith

  stage-reserved :
      (s : State) (o : Option Active) (i : Intent) (t : String) (n : State)
      → s.active ≡ o
      → CanReserve sha256 s i t
      → n ≡ record s { counter = s.counter + 1; active = some (reserved s o i t) }
      → StageOk n (reserved s o i t) (reserved s o i t).stage
  unfolding reserved check_old
  stage-reserved s o i t n e can made = elim (Bool-cases (is_cleanup i.recovery_target)) [
    | inl c ↦ rw c (cleanup-reserved s o i t c (rw e at can.scope), ground arith)
    | inr c ↦ rw c (ground arith, refl, λ d named. ground (arith, can.epoch d named))
  ]

  named-reserved :
      (s : State) (o : Option Active) (i : Intent) (t : String)
      → t ≡ tx (s.counter + 1)
      → (reserved s o i t).transaction_id ≡ tx (s.counter + 1)
  unfolding reserved
  named-reserved s o i t e = e

  reserved-WellFormed :
      (s : State) (i : Intent) (t : String)
      → WellFormed s
      → CanReserve sha256 s i t
      → WellFormed (record s { counter = s.counter + 1; active = some (reserved s s.active i t) })
  reserved-WellFormed s i t w can = record {
    generations = w.generations;
    active_ok =
        (stage-reserved s s.active i t _ refl can refl, lineage-reserved s s.active i t can.scope);
    settled = λ free. w.settled (sym (pending-reserved s s.active i t) ∙ free);
    named = named-reserved s s.active i t can.next;
    at_floor = λ free d named. w.at_floor (sym (pending-reserved s s.active i t) ∙ free) d named;
  }

  -- The transaction in progress at the stage that a record wants.
  pub stage_of :
      (s : State) (a : Active) (stage : Stage)
      → WellFormed s
      → s.active ≡ some a
      → a.stage ≡ stage
      → StageOk s a stage × (length a.lineage ≤ 16)
  stage_of s a stage w e at =
      let ok' : ActiveOk s (some a) = subst (ActiveOk s) e w.active_ok in
      (subst (StageOk s a) at ok'.0, ok'.1)

  names_of :
      (s : State) (a : Active) → WellFormed s → s.active ≡ some a → a.transaction_id ≡ tx s.counter
  names_of s a w e = subst (NamesCounter s.counter s.last_transaction_id) e w.named

  blocked-WellFormed :
      (s : State) (a : Active)
      → WellFormed s
      → s.active ≡ some a
      → a.stage ≡ admitted
      → WellFormed (record s {
        active = some (record a { stage = blocked; publication_pending = true });
        generation_floor = a.target_generation;
        security_floor = max (max s.security_floor s.selection_epoch) a.candidate_epoch;
      })
  blocked-WellFormed s a w e at =
      let (stage, size) = stage_of s a admitted w e at in
      record {
        generations = omega (arith, w.generations, stage.0);
        active_ok = ((refl, refl, λ d named. omega (arith, stage.2 d named)), size);
        settled = λ free. ground arith;
        named = names_of s a w e;
        at_floor = λ free. ground arith;
      }

  committed-WellFormed :
      (s : State) (a : Active)
      → WellFormed s
      → s.active ≡ some a
      → a.stage ≡ blocked
      → WellFormed (record s {
        generation = a.target_generation;
        selection_digest = a.candidate_digest;
        selection_epoch = a.candidate_epoch;
        active = some (record a { stage = committed; publication_pending = false });
      })
  committed-WellFormed s a w e at =
      let (stage, size) = stage_of s a blocked w e at in
      record {
        generations = omega (arith, stage.0);
        active_ok = ((refl, refl), size);
        settled = λ _. sym stage.0;
        named = names_of s a w e;
        at_floor = λ _ d named. stage.2 d named;
      }

  completed-WellFormed :
      (s : State) (a : Active) (t : String)
      → WellFormed s
      → s.active ≡ some a
      → a.stage ≡ committed
      → a.transaction_id ≡ t
      → WellFormed (record s { last_transaction_id = some t; active = none })
  completed-WellFormed s a t w e at same_id =
      let (stage, size) = stage_of s a committed w e at in
      record {
        generations = w.generations;
        active_ok = tt;
        settled = λ _. w.settled (ground arith);
        named = inr (ap some (sym same_id ∙ names_of s a w e));
        at_floor = λ _ d named. w.at_floor (ground arith) d named;
      }

  Advanced-WellFormed :
      {s n : State} {t : String} {kind : RecordKind} {intent : Option Intent}
      → WellFormed s
      → Advanced sha256 s t n kind intent
      → WellFormed n
  Advanced-WellFormed {s} {t = t} w (reserves {i} can made) =
      subst WellFormed (sym made) (reserved-WellFormed s i t w can)
  Advanced-WellFormed {s} w (blocks {a} e same_id stage cleanup made) =
      subst WellFormed (sym made) (blocked-WellFormed s a w e stage)
  Advanced-WellFormed {s} w (commits {a} e same_id stage made) =
      subst WellFormed (sym made) (committed-WellFormed s a w e stage)
  Advanced-WellFormed {s} {t = t} w (completes {a} e same_id stage made) =
      subst WellFormed (sym made) (completed-WellFormed s a t w e stage same_id)

  -- Every record that is accepted keeps the state well formed: the generation stays within its
  -- floor, no selection outside a pending publication is below the security floor, the candidate of
  -- a publication is not below it either, and the lineage keeps within its sixteen entries.
  pub advance-WellFormed :
      (s n : State) (kind : RecordKind) (intent : Option Intent) (t : String)
      → WellFormed s
      → advance sha256 s kind intent t ≡ ok n
      → WellFormed n
  advance-WellFormed s n kind intent t w h =
      Advanced-WellFormed w (advance-Advanced sha256 s t n kind intent h)
