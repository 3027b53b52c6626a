-- ===== src/Recovery/Invariant/Minimum.antt =====
-- tools/lib/maintenance-recovery-model.mjs: the minimum of a run against what the run has seen.
use sec_app.Base.{
  ℕ, ◌≤◌, String, Option, some, List, [], ◌∷◌, ◌≡◌, ◌⊎◌, inl, inr, refl, sym, subst, Memᴰ, arith,
}
use sec_app.Recovery.Types.{Minimum, State, Anchor}
use sec_app.Recovery.Advance.{reconstruct}
use sec_app.Recovery.Machine.{raised, raise_state, raise_anchor}
use sec_app.Recovery.Scenario.{Scenario}
use sec_app.Recovery.Run.{first_minimum, raise_all, project, finish, simulate_maintenance_recovery}
use sec_app.Recovery.Invariant.Below.{
  Below, Below-refl, Below_trans, raised-Below, raise_anchor-Below, raise_all-Below, ended-Kept,
}

-- A minimum that is not below the numbers of a document: its counter, its generation and generation
-- floor, and its security floor.
pub record Covers (m : Minimum) (counter generation generation_floor security_floor : ℕ)
    : Type 0 where
  pub counted : counter ≤ m.counter
  pub generated : generation ≤ m.generation
  pub reserved : generation_floor ≤ m.generation
  pub secured : security_floor ≤ m.security_floor

-- A minimum that is not below what a run was given and what its storage shows.
pub record Remembers (input : Scenario) (states : List State) (m : Minimum) : Type 0 where
  pub given : Below input.minimum m
  pub anchored :
      let a = input.storage.anchor in
      Covers m a.counter a.generation a.generation_floor a.security_floor
  pub headed :
      let h = input.storage.head in
      Covers m h.counter h.generation h.generation_floor h.security_floor
  pub checkpointed :
      (a : Anchor)
      → (input.storage.checkpoint_candidate ≡ some a) ⊎ (input.storage.obsolete_checkpoint ≡ some a)
      → Covers m a.counter a.generation a.generation_floor a.security_floor
  pub reached :
      (s : State)
      → Memᴰ s states
      → Covers m s.counter s.generation s.generation_floor s.security_floor

raised-Covers : (l : Minimum) (c g f s : ℕ) → Covers (raised l c g f s) c g f s
raised-Covers l c g f s = record {
  counted = omega arith;
  generated = omega arith;
  reserved = omega arith;
  secured = omega arith;
}

Below-Covers : (l m : Minimum) (c g f s : ℕ) → Below l m → Covers l c g f s → Covers m c g f s
Below-Covers l m c g f s h k = record {
  counted = omega (arith, h.counter, k.counted);
  generated = omega (arith, h.generation, k.generated);
  reserved = omega (arith, h.generation, k.reserved);
  secured = omega (arith, h.security_floor, k.secured);
}

raise_anchor-Covers :
    (l : Minimum) (o : Option Anchor) (a : Anchor)
    → o ≡ some a
    → Covers (raise_anchor l o) a.counter a.generation a.generation_floor a.security_floor
raise_anchor-Covers l o a e =
    subst
      (λ x. Covers (raise_anchor l x) a.counter a.generation a.generation_floor a.security_floor)
      (sym e) (raised-Covers l a.counter a.generation a.generation_floor a.security_floor)

module _ (sha256 : String → String) (date_parse : String → ℕ) (input : Scenario) where
  raise_all-Covers :
      (l : Minimum) (ss : List State) (s : State)
      → Memᴰ s ss
      → Covers
          (raise_all sha256 date_parse input l ss)
          s.counter
          s.generation
          s.generation_floor
          s.security_floor
  raise_all-Covers l [] s at = elim at [ ]
  raise_all-Covers l (x ∷ ss) s (Memᴰ.head e) =
      subst
        (λ (y : State).
          Covers (raise_all sha256 date_parse input (raise_state l x) ss) y.counter y.generation
            y.generation_floor y.security_floor)
        (sym e)
        (Below-Covers (raise_state l x) _ _ _ _ _
          (raise_all-Below (raise_state l x) sha256 date_parse input _ ss (Below-refl _))
          (raised-Covers l x.counter x.generation x.generation_floor x.security_floor))
  raise_all-Covers l (x ∷ ss) s (Memᴰ.tail at) = raise_all-Covers (raise_state l x) ss s at

  -- What a minimum that is not below the first one remembers.
  first_minimum-Remembers :
      (ss : List State) (m : Minimum)
      → Below (raise_all sha256 date_parse input (first_minimum sha256 date_parse input) ss) m
      → Remembers input ss m
  first_minimum-Remembers ss m h =
      let disk = input.storage in
      let start_from = λ (l : Minimum) (o : Option Anchor).
        raise_anchor-Below l sha256 date_parse input l o (Below-refl l) in
      let m1 = raise_anchor input.minimum (some disk.anchor) in
      let d = disk.head in
      let m2 = raised m1 d.counter d.generation d.generation_floor d.security_floor in
      let m3 = raise_anchor m2 disk.checkpoint_candidate in
      let m4 = raise_anchor m3 disk.obsolete_checkpoint in
      let b4 : Below m4 m =
        Below_trans m4 _ m (raise_all-Below m4 sha256 date_parse input m4 ss (Below-refl m4)) h in
      let b3 = Below_trans m3 m4 m (start_from m3 disk.obsolete_checkpoint) b4 in
      let b2 = Below_trans m2 m3 m (start_from m2 disk.checkpoint_candidate) b3 in
      let b1 =
        Below_trans m1 m2 m
          (raised-Below m1 m1 d.counter d.generation d.generation_floor d.security_floor
            (Below-refl m1))
          b2 in
      record {
        given = Below_trans input.minimum m1 m (start_from input.minimum (some disk.anchor)) b1;
        anchored =
            Below-Covers m1 m _ _ _ _ b1
              (raise_anchor-Covers input.minimum (some disk.anchor) disk.anchor refl);
        headed = Below-Covers m2 m _ _ _ _ b2 (raised-Covers m1 _ _ _ _);
        checkpointed = λ a either. elim either [
          | inl e ↦ Below-Covers m3 m _ _ _ _ b3 (raise_anchor-Covers m2 _ a e)
          | inr e ↦ Below-Covers m4 m _ _ _ _ b4 (raise_anchor-Covers m3 _ a e)
        ];
        reached = λ s at. Below-Covers _ m _ _ _ _ h (raise_all-Covers m4 ss s at);
      }

-- The minimum that a run reports is not below the one that it was given, nor below the counter, the
-- generation, the generation floor and the security floor of the anchor, of the head and of the
-- checkpoints of its storage, nor below those of any state that its reconstruction reached, even
-- where a later record was refused.
pub simulate-Remembers :
    (sha256 : String → String) (date_parse : String → ℕ) (input : Scenario)
    → Remembers input
        (reconstruct sha256 input.storage).0
        (simulate_maintenance_recovery sha256 date_parse input).minimum
unfolding simulate_maintenance_recovery finish project
simulate-Remembers sha256 date_parse input =
    first_minimum-Remembers sha256 date_parse input (reconstruct sha256 input.storage).0 _
      (ended-Kept _ sha256 date_parse input (Below-refl _))
