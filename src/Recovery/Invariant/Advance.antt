-- ===== src/Recovery/Invariant/Advance.antt =====
-- tools/lib/maintenance-recovery-model.mjs: a record keeps what holds of a state.
use sec_app.Base.{ℕ, ◌+◌, ◌≤◌, String, true, Option, none, some, ◌≡◌, refl, arith, eq_iff}
use sec_app.Persistence.Types.{tx}
use sec_app.Recovery.Types.{
  admitted, blocked, committed, gives, Authorization, Storage, Active, State, RecordKind, admission,
  block, commit, complete, retire, authorize_checkpoint, Record,
}
use sec_app.Recovery.Advance.{
  publishes, may_end, outcome_of, advance_block, advance_commit, advance_admission, advance_end,
  advance_kind, advance_active, advance_by, advance, terminal_digest,
}
use sec_app.Recovery.Invariant.{
  fail_if-gives, check-gives, gives-injective, ActiveOk, WellFormed, admitted-only, blocked-only,
  stage_ok, blocked-WellFormed, committed-WellFormed, ending-outcome, ending-certain,
}
use sec_app.Recovery.Invariant.Admission.{validate_offer-Admits, admitted-WellFormed}

-- From `s` to `n` the counter has grown by `k`, and neither the generation nor a floor has fallen.
pub record Grows (k : ℕ) (s n : State) : Type 0 where
  pub counter : n.counter ≡ s.counter + k
  pub generation : s.generation ≤ n.generation
  pub generation_floor : s.generation_floor ≤ n.generation_floor
  pub security_floor : s.security_floor ≤ n.security_floor

-- One more if the record is an admission.
abbrev pub counted : RecordKind → ℕ
counted admission = 1
counted _ = 0

module _ (sha256 : String → String) where
  ended-WellFormed :
      (s : State) (a : Active) (kind : RecordKind)
      → WellFormed s
      → s.active ≡ some a
      → may_end kind a ≡ true
      → WellFormed (record s {
        terminal = some (record {
          transaction_id = a.transaction_id;
          operation = a.operation;
          outcome = outcome_of kind;
          terminal_digest = terminal_digest sha256 s kind;
        });
        active = none;
      })
  ended-WellFormed s a kind w e h =
      let ok : ActiveOk s (some a) = rw e at w.active_ok in
      let certain = ending-certain kind s a h ok.1 in
      let told = ending-outcome kind a h (λ c. stage_ok s a committed c ok.1) in
      record {
        generations = w.generations;
        settled = λ u. w.settled (rw e certain);
        active_ok = ground (arith, (eq_iff a.transaction_id (tx s.counter)).1 ok.0, told);
      }

  -- A record leaves a well-formed state, and no number has fallen.
  pub record Kept (k : ℕ) (s n : State) : Type 0 where
    pub well_formed : WellFormed n
    pub grows : Grows k s n

  advance_block-Kept :
      (s n : State) (a : Active)
      → WellFormed s
      → s.active ≡ some a
      → advance_block s a ≡ gives n
      → Kept 0 s n
  unfolding advance_block
  advance_block-Kept s n a w e h =
      let (c, made) = fail_if-gives _ _ _ n h in
      let stage = admitted-only a.stage (ground arith) in
      let p : publishes a.operation ≡ true = ground arith in
      let ok : ActiveOk s (some a) = rw e at w.active_ok in
      let now = (stage_ok s a admitted stage ok.1).1 p in
      rw⁻¹ (gives-injective _ n made) (record {
        well_formed = blocked-WellFormed s a w e stage p;
        grows = record {
          counter = omega arith;
          generation = omega arith;
          generation_floor = omega (arith, now.0);
          security_floor = omega arith;
        };
      })

  advance_commit-Kept :
      (s n : State) (a : Active)
      → WellFormed s
      → s.active ≡ some a
      → advance_commit s a ≡ gives n
      → Kept 0 s n
  unfolding advance_commit
  advance_commit-Kept s n a w e h =
      let (c, made) = fail_if-gives _ _ _ n h in
      let stage = blocked-only a.stage (ground arith) in
      let ok : ActiveOk s (some a) = rw e at w.active_ok in
      let now = stage_ok s a blocked stage ok.1 in
      rw⁻¹ (gives-injective _ n made) (record {
        well_formed = committed-WellFormed s a w e stage;
        grows = record {
          counter = omega arith;
          generation = omega (arith, now.2, w.generations);
          generation_floor = omega arith;
          security_floor = omega arith;
        };
      })

  advance_end-Kept :
      (s n : State) (kind : RecordKind) (a : Active)
      → WellFormed s
      → s.active ≡ some a
      → advance_end sha256 s kind a ≡ gives n
      → Kept 0 s n
  unfolding advance_end
  advance_end-Kept s n kind a w e h =
      let (c, made) = fail_if-gives _ _ _ n h in
      rw⁻¹ (gives-injective _ n made) (record {
        well_formed = ended-WellFormed s a kind w e (ground arith);
        grows = record {
          counter = omega arith;
          generation = omega arith;
          generation_floor = omega arith;
          security_floor = omega arith;
        };
      })

  advance_kind-Kept :
      (s n : State) (kind : RecordKind) (a : Active)
      → WellFormed s
      → s.active ≡ some a
      → advance_kind sha256 s kind a ≡ gives n
      → Kept 0 s n
  advance_kind-Kept s n admission a w e h = advance_end-Kept s n admission a w e h
  advance_kind-Kept s n block a w e h = advance_block-Kept s n a w e h
  advance_kind-Kept s n commit a w e h = advance_commit-Kept s n a w e h
  advance_kind-Kept s n complete a w e h = advance_end-Kept s n complete a w e h
  advance_kind-Kept s n retire a w e h = advance_end-Kept s n retire a w e h
  advance_kind-Kept s n authorize_checkpoint a w e h =
      advance_end-Kept s n authorize_checkpoint a w e h

  advance_active-Kept :
      (s n : State) (r : Record) (o : Option Active)
      → WellFormed s
      → s.active ≡ o
      → advance_active sha256 s r o ≡ gives n
      → Kept 0 s n
  unfolding advance_active
  advance_active-Kept s n r none w e h = ground arith
  advance_active-Kept s n r (some a) w e h =
      advance_kind-Kept s n r.record_kind a w e (fail_if-gives _ _ _ n h).1

  advance_admission-Kept :
      (s n : State) (r : Record) (disk : Storage) (o : Option Authorization)
      → WellFormed s
      → advance_admission sha256 s r disk o ≡ gives n
      → Kept 1 s n
  unfolding advance_admission
  advance_admission-Kept s n r disk none w h = ground arith
  advance_admission-Kept s n r disk (some a) w h =
      let (valid, h1) = check-gives _ _ n h in
      let made = (fail_if-gives _ _ _ n h1).1 in
      rw⁻¹ (gives-injective _ n made) (record {
        well_formed =
            admitted-WellFormed sha256 s a.offer w (validate_offer-Admits sha256 disk s a valid);
        grows = record {
          counter = refl;
          generation = omega arith;
          generation_floor = omega arith;
          security_floor = omega arith;
        };
      })

  advance_by-Kept :
      (s n : State) (r : Record) (disk : Storage) (kind : RecordKind)
      → WellFormed s
      → advance_by sha256 s r disk kind ≡ gives n
      → Kept (counted kind) s n
  advance_by-Kept s n r disk admission w h = advance_admission-Kept s n r disk r.authorization w h
  advance_by-Kept s n r disk block w h = advance_active-Kept s n r s.active w refl h
  advance_by-Kept s n r disk commit w h = advance_active-Kept s n r s.active w refl h
  advance_by-Kept s n r disk complete w h = advance_active-Kept s n r s.active w refl h
  advance_by-Kept s n r disk retire w h = advance_active-Kept s n r s.active w refl h
  advance_by-Kept s n r disk authorize_checkpoint w h = advance_active-Kept s n r s.active w refl h

  -- A record that a well-formed state accepts leaves a well-formed state; it raises the counter by
  -- one where it is an admission and not at all otherwise, and lowers neither the generation nor a
  -- floor.
  pub advance-Kept :
      (s n : State) (r : Record) (disk : Storage)
      → WellFormed s
      → advance sha256 s r disk ≡ gives n
      → Kept (counted r.record_kind) s n
  unfolding advance
  advance-Kept s n r disk w h = advance_by-Kept s n r disk r.record_kind w h
