-- ===== src/Persistence/Machine/Seal.antt =====
-- tools/lib/maintenance-persistence-model.mjs: what the machine seals, as the replay checks it.
use sec_app.Base.{
  ℕ, String, true, false, Option, none, some, List, [], ◌∷◌, ◌++◌, ◌≡◌, ◌≢◌, ◌⊎◌, refl, inl, inr,
  arith, eq_refl, str_eq, ap, ◌∙◌, subst, ltb, max_safe_integer, is_some, ◌&&◌,
}
use sec_app.Persistence.Types.{
  Result, ok, problem, ◌>>=◌, RecordKind, Intent, Anchor, Record, Storage, State, tx,
}
use sec_app.Persistence.State.{is_pending, record_seal, anchor_seal, from_anchor}
use sec_app.Persistence.Advance.Invariant.{WellFormed, AtFloor, NamesCounter}
use sec_app.Persistence.Replay.{links, replay_record, replay_from, replay}
use sec_app.Persistence.Replay.Chain.{bind-ok}
use sec_app.Persistence.Machine.Journal.{next_record}
use sec_app.Persistence.Machine.Checkpoint.{anchor_for}

bind_ok_right {ℓ} : {A : Type ℓ} (m : Result A) → (m >>= λ x. ok x) ≡ m
bind_ok_right (ok a) = refl
bind_ok_right (problem p) = refl

pub ok-injective {ℓ} : {A : Type ℓ} (a b : A) → ok a ≡ ok b → a ≡ b
ok-injective a b h = ground arith

module _ (sha256 : String → String) where
  record_seal-next :
      (s : State) (i : Option Intent) (kind : RecordKind)
      → record_seal sha256 (next_record sha256 i s kind)
        ≡ (next_record sha256 i s kind).record_digest
  unfolding next_record
  record_seal-next s i kind = refl

  pub next_record-links :
      (s : State) (i : Option Intent) (kind : RecordKind)
      → s.sequence ≢ max_safe_integer
      → links sha256 s (next_record sha256 i s kind) ≡ true
  unfolding links next_record
  next_record-links s i kind h =
      ground (arith, h, eq_refl s.tail_digest, eq_refl (next_record sha256 i s kind).record_digest)

  anchor_seal-anchor_for :
      (s : State) → anchor_seal sha256 (anchor_for sha256 s) ≡ (anchor_for sha256 s).anchor_digest
  unfolding anchor_for
  anchor_seal-anchor_for s = refl

  not_below :
      (floor : ℕ) (o : Option String) (epoch : ℕ)
      → AtFloor floor o epoch
      → (is_some o && ltb epoch floor) ≡ false
  not_below floor none epoch h = refl
  not_below floor (some d) epoch h = ground (arith, h d refl)

  last_current :
      (o : Option String) (t : String)
      → (o ≡ none) ⊎ (o ≡ some t)
      → (elim o [ none ↦ true | some u ↦ str_eq u t ]) ≡ true
  last_current o t (inl e) = rw e
  last_current o t (inr e) = rw e (eq_refl t)

  abbrev opened : Anchor → State
  opened a = record {
    machine_id = a.machine_id;
    sequence = a.sequence;
    tail_digest = a.anchor_digest;
    counter = a.counter;
    generation = a.generation;
    generation_floor = a.generation;
    security_floor = a.security_floor;
    selection_digest = a.selection_digest;
    selection_epoch = a.selection_epoch;
    last_transaction_id = a.last_transaction_id;
    active = none;
  }

  from_anchor-sealed :
      (a : Anchor)
      → anchor_seal sha256 a ≡ a.anchor_digest
      → (elim a.last_transaction_id [ none ↦ true | some u ↦ str_eq u (tx a.counter) ]) ≡ true
      → (is_some a.selection_digest && ltb a.selection_epoch a.security_floor) ≡ false
      → from_anchor sha256 a ≡ ok (opened a)
  unfolding from_anchor
  from_anchor-sealed a sealed last above = rw (sealed, eq_refl a.anchor_digest, last, above)

  opened-state :
      (s : State) (d : String)
      → s.generation_floor ≡ s.generation
      → s.active ≡ none
      → record {
        machine_id = s.machine_id;
        sequence = s.sequence;
        tail_digest = d;
        counter = s.counter;
        generation = s.generation;
        generation_floor = s.generation;
        security_floor = s.security_floor;
        selection_digest = s.selection_digest;
        selection_epoch = s.selection_epoch;
        last_transaction_id = s.last_transaction_id;
        active = none;
      }
        ≡ record s { tail_digest = d }
  opened-state s d f e = rw (f, e)

  last-anchor_for :
      (s : State)
      → s.active ≡ none
      → WellFormed s
      → (elim (anchor_for sha256 s).last_transaction_id [
        | none ↦ true
        | some u ↦ str_eq u (tx (anchor_for sha256 s).counter)
      ])
        ≡ true
  unfolding anchor_for
  last-anchor_for s e w =
      last_current s.last_transaction_id (tx s.counter)
        (subst (NamesCounter s.counter s.last_transaction_id) e w.named)

  above-anchor_for :
      (s : State)
      → is_pending s.active ≡ false
      → WellFormed s
      → (is_some (anchor_for sha256 s).selection_digest
          && ltb (anchor_for sha256 s).selection_epoch (anchor_for sha256 s).security_floor)
        ≡ false
  unfolding anchor_for
  above-anchor_for s free w =
      not_below s.security_floor s.selection_digest s.selection_epoch (w.at_floor free)

  opened-anchor_for :
      (s : State)
      → is_pending s.active ≡ false
      → s.active ≡ none
      → WellFormed s
      → opened (anchor_for sha256 s)
        ≡ record s { tail_digest = (anchor_for sha256 s).anchor_digest }
  unfolding anchor_for
  opened-anchor_for s free e w = opened-state s _ (w.settled free) e

  -- The checkpoint of a well-formed state with no transaction in progress is accepted, and gives
  -- that state back, its tail the checkpoint's digest.
  pub from_anchor-anchor_for :
      (s : State)
      → WellFormed s
      → s.active ≡ none
      → from_anchor sha256 (anchor_for sha256 s)
        ≡ ok (record s { tail_digest = (anchor_for sha256 s).anchor_digest })
  from_anchor-anchor_for s w e =
      let free : is_pending s.active ≡ false = rw e in
      from_anchor-sealed (anchor_for sha256 s) (anchor_seal-anchor_for s) (last-anchor_for s e w)
        (above-anchor_for s free w)
      ∙ ap ok (opened-anchor_for s free e w)

  pub replay_from-append :
      (s : State) (rs : List Record) (r : Record) {m : State}
      → replay_from sha256 s rs ≡ ok m
      → replay_from sha256 s (rs ++ r ∷ []) ≡ (replay_record sha256 m r)
  unfolding replay_from
  replay_from-append s [] r {m} h =
      bind_ok_right (replay_record sha256 s r)
      ∙ ap (λ x. replay_record sha256 x r) (ok-injective s m h)
  replay_from-append s (q ∷ rs) r h =
      let (m, first, rest) = bind-ok (replay_record sha256 s q) _ h in
      rw first (replay_from-append m rs r rest)

  pub replay-append :
      (disk : Storage) (r : Record) {m n : State}
      → replay sha256 disk ≡ ok m
      → replay_record sha256 m r ≡ ok n
      → replay sha256 (record disk { records = disk.records ++ r ∷ [] }) ≡ ok n
  unfolding replay
  replay-append disk r h e =
      let (s, begun, rest) = bind-ok (from_anchor sha256 disk.anchor) _ h in
      rw begun (replay_from-append s disk.records r rest ∙ e)
