-- ===== src/Recovery/Invariant/Admission.antt =====
-- tools/lib/maintenance-recovery-model.mjs: what an admission asks and what it leaves.
use sec_app.Base.{
  ℕ, ◌+◌, ◌≤◌, max, String, true, false, ◌||◌, Option, none, some, [], ◌∷◌, ◌≡◌, refl, arith, inl,
  inr, eq_iff, length, length-append, Bool-cases, leb, is_some, if◌then◌else◌, ap, sym, ◌∙◌,
}
use sec_app.Persistence.Types.{tx}
use sec_app.Recovery.Types.{
  Operation, maintenance, recover_publication, finish_committed_cleanup, retire_admitted_candidate,
  compact_terminal_state, reconcile_checkpoint, admitted, committed, gives, Offer, Authorization,
  Storage, Active, State,
}
use sec_app.Recovery.Terms.{
  meta, epoch_of, below, is_uncertain, check_recovery_capacity, capacity, lineage_length,
}
use sec_app.Recovery.Offer.{is_cleanup, operation_scope, validate_scope, validate_offer}
use sec_app.Recovery.Advance.{publishes, admitted_active, entry_of}
use sec_app.Recovery.Invariant.{
  fail_if-gives, check-gives, bind-gives, check-passed, StageOk, WellFormed,
}

module _ (sha256 : String → String) where
  -- What the scope of an operation says of the transaction before it.
  abbrev pub Fits : Operation → Option Active → Type 0
  Fits maintenance old = is_some old ≡ false
  Fits recover_publication old = is_uncertain old ≡ true
  Fits finish_committed_cleanup old = is_uncertain old ≡ false
  Fits retire_admitted_candidate old = (a : Active) × (old ≡ some a) × (a.publication_seen ≡ false)
  Fits compact_terminal_state old = is_some old ≡ false
  Fits reconcile_checkpoint old = is_some old ≡ false

  operation_scope-Fits :
      (s : State) (o : Offer) (op : Operation) (old : Option Active)
      → operation_scope sha256 s o op old ≡ gives tt
      → Fits op old
  operation_scope-Fits s o maintenance none h = refl
  operation_scope-Fits s o maintenance (some a) h = let c = check-passed _ _ h in ground arith
  operation_scope-Fits s o recover_publication none h = ground arith
  operation_scope-Fits s o recover_publication (some a) h =
      let c = (fail_if-gives _ _ _ tt h).0 in ground arith
  operation_scope-Fits s o finish_committed_cleanup none h = ground arith
  operation_scope-Fits s o finish_committed_cleanup (some a) h =
      let c = check-passed _ _ h in ground arith
  operation_scope-Fits s o retire_admitted_candidate none h = ground arith
  operation_scope-Fits s o retire_admitted_candidate (some a) h =
      let c = check-passed _ _ h in (a, refl, ground arith)
  operation_scope-Fits s o compact_terminal_state old h =
      let c = (fail_if-gives _ _ _ tt h).0 in ground arith
  operation_scope-Fits s o reconcile_checkpoint old h =
      let c = (fail_if-gives _ _ _ tt h).0 in ground arith

  -- What an offer that passes the checks says.
  pub record Admits (s : State) (o : Offer) : Type 0 where
    pub named : o.transaction_id ≡ tx (s.counter + 1)
    pub room : leb 16 (lineage_length s.active) ≡ false
    pub fits : Fits o.operation s.active
    pub above : below o.candidate (max s.security_floor (epoch_of s.selection)) ≡ false

  capacity-room :
      (disk : Storage) (s : State) (op : Operation) (n : ℕ)
      → capacity disk s op ≡ gives n
      → leb 16 (lineage_length s.active) ≡ false
  unfolding capacity check_recovery_capacity
  capacity-room disk s op n h =
      (fail_if-gives _ _ _ n
        (fail_if-gives _ _ _ n (fail_if-gives _ _ _ n (fail_if-gives _ _ _ n h).1).1).1).0

  validate_scope-Fits :
      (s : State) (o : Offer)
      → validate_scope sha256 s o ≡ gives tt
      → Fits o.operation s.active
        × (below o.candidate (max s.security_floor (epoch_of s.selection)) ≡ false)
  unfolding validate_scope
  validate_scope-Fits s o h =
      let passed =
        check-gives _ _ tt
          (fail_if-gives _ _ _ tt (fail_if-gives _ _ _ tt (fail_if-gives _ _ _ tt h).1).1).1 in
      (operation_scope-Fits s o o.operation s.active passed.0, (fail_if-gives _ _ _ tt passed.1).0)

  pub validate_offer-Admits :
      (disk : Storage) (s : State) (a : Authorization)
      → validate_offer sha256 disk s a ≡ gives tt
      → Admits s a.offer
  unfolding validate_offer
  validate_offer-Admits disk s a h =
      let (basis, _, h1) =
        bind-gives _ _ tt (fail_if-gives _ _ _ tt (fail_if-gives _ _ _ tt h).1).1 in
      let (required, k, h2) = bind-gives _ _ tt (fail_if-gives _ _ _ tt h1).1 in
      let (bound, h3) = fail_if-gives _ _ _ tt h2 in
      let (fits, above) = validate_scope-Fits s a.offer h3 in
      record {
        named = (eq_iff a.offer.transaction_id (tx (s.counter + 1))).0 (ground arith);
        room = capacity-room disk s a.offer.operation required k;
        fits = fits;
        above = above;
      }

  -- A publication that is in doubt stays in doubt.
  admitted-certain :
      (s : State) (o : Offer) (op : Operation) (old : Option Active)
      → o.operation ≡ op
      → Fits op old
      → is_uncertain (some (admitted_active s o old)) ≡ false
      → is_uncertain old ≡ false
  admitted-certain s o op none e f h = refl
  admitted-certain s o maintenance (some a) e f h = ground arith
  admitted-certain s o recover_publication (some a) e f h = ground (arith, e)
  admitted-certain s o finish_committed_cleanup (some a) e f h = f
  admitted-certain s o retire_admitted_candidate (some a) e (b, same, unseen) h = ground arith
  admitted-certain s o compact_terminal_state (some a) e f h = ground arith
  admitted-certain s o reconcile_checkpoint (some a) e f h = ground arith

  -- A metadata operation has seen no publication.
  admitted-unseen :
      (s : State) (o : Offer) (op : Operation) (old : Option Active)
      → o.operation ≡ op
      → Fits op old
      → meta op ≡ true
      → (admitted_active s o old).publication_seen ≡ false
  admitted-unseen s o op none e f h = refl
  admitted-unseen s o maintenance (some a) e f h = ground arith
  admitted-unseen s o recover_publication (some a) e f h = ground arith
  admitted-unseen s o finish_committed_cleanup (some a) e f h = ground arith
  admitted-unseen s o retire_admitted_candidate (some a) e (b, same, unseen) h = ground arith
  admitted-unseen s o compact_terminal_state (some a) e f h = ground arith
  admitted-unseen s o reconcile_checkpoint (some a) e f h = ground arith

  -- The fields that an admission sets whatever stood before it.
  record Fresh (s : State) (o : Offer) (a : Active) : Type 0 where
    operation : a.operation ≡ o.operation
    named : a.transaction_id ≡ o.transaction_id
    candidate : a.candidate ≡ o.candidate
    stage : a.stage ≡ (if is_cleanup o.operation then committed else admitted)
    target : a.target_generation ≡ (
        if meta o.operation || is_cleanup o.operation then s.generation else s.generation_floor + 1)

  admitted_active-Fresh :
      (s : State) (o : Offer) (old : Option Active) → Fresh s o (admitted_active s o old)
  admitted_active-Fresh s o none = record {
    operation = refl;
    named = refl;
    candidate = refl;
    stage = refl;
    target = refl;
  }
  admitted_active-Fresh s o (some a) = record {
    operation = refl;
    named = refl;
    candidate = refl;
    stage = refl;
    target = refl;
  }

  publishes-target : (op : Operation) → publishes op ≡ true → (meta op || is_cleanup op) ≡ false
  publishes-target maintenance h = refl
  publishes-target recover_publication h = refl
  publishes-target finish_committed_cleanup h = ground arith
  publishes-target retire_admitted_candidate h = ground arith
  publishes-target compact_terminal_state h = ground arith
  publishes-target reconcile_checkpoint h = ground arith

  cleanup-meta : (op : Operation) → is_cleanup op ≡ true → meta op ≡ false
  cleanup-meta maintenance h = refl
  cleanup-meta recover_publication h = refl
  cleanup-meta finish_committed_cleanup h = refl
  cleanup-meta retire_admitted_candidate h = ground arith
  cleanup-meta compact_terminal_state h = ground arith
  cleanup-meta reconcile_checkpoint h = ground arith

  -- The state after an admission, with the transaction that it starts.
  abbrev pub admitting : State → Active → State
  admitting s a = record s { counter = s.counter + 1; active = some a }

  stage-admitted :
      (s : State) (o : Offer) (a : Active)
      → Fresh s o a
      → Admits s o
      → (meta o.operation ≡ true → a.publication_seen ≡ false)
      → StageOk (admitting s a) a a.stage
  stage-admitted s o a f can unseen = elim (Bool-cases (is_cleanup o.operation)) [
    | inl c ↦
        let at : a.stage ≡ committed = ground (arith, f.stage) in
        rw at (ap meta f.operation ∙ cleanup-meta o.operation c)
    | inr c ↦
        let at : a.stage ≡ admitted = ground (arith, f.stage) in
        rw at (
          λ m. unseen (sym (ap meta f.operation) ∙ m),
          λ p.
              let q = publishes-target o.operation (sym (ap publishes f.operation) ∙ p) in
              (
                ground (arith, f.target),
                ap (λ x. below x (max s.security_floor (epoch_of s.selection))) f.candidate
                    ∙ can.above,
              ),
        )
  ]

  lineage-admitted :
      (s : State) (o : Offer) (old : Option Active)
      → leb 16 (lineage_length old) ≡ false
      → length (admitted_active s o old).lineage ≤ 16
  lineage-admitted s o none h = omega arith
  lineage-admitted s o (some a) h = ground (arith, length-append a.lineage (entry_of o ∷ []))

  pub admitted-WellFormed :
      (s : State) (o : Offer)
      → WellFormed s
      → Admits s o
      → WellFormed (admitting s (admitted_active s o s.active))
  admitted-WellFormed s o w can =
      let a = admitted_active s o s.active in
      let f = admitted_active-Fresh s o s.active in
      record {
        generations = w.generations;
        settled = λ u. w.settled (admitted-certain s o o.operation s.active refl can.fits u);
        active_ok = (
          f.named ∙ can.named,
          stage-admitted s o a f can
              (λ m. admitted-unseen s o o.operation s.active refl can.fits m),
          lineage-admitted s o s.active can.room,
        );
      }
