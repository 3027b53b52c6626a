-- ===== src/Persistence/Replay/Chain.antt =====
-- What a journal that replays guarantees.
use sec_app.Base.{
  ℕ, ◌+◌, ◌≤◌, String, true, not, Option, none, some, List, [], ◌∷◌, ◌≡◌, refl, arith, length,
  subst, sym,
}
use sec_app.Persistence.Types.{
  Result, Stage, admitted, blocked, committed, Active, ok, problem, ◌>>=◌, storage_invalid, Anchor,
  Record, Storage, State,
}
use sec_app.Persistence.State.{from_anchor}
use sec_app.Persistence.Advance.{advance}
use sec_app.Persistence.Advance.Cases.{refuse-ok}
use sec_app.Persistence.Advance.Invariant.{
  WellFormed, ActiveOk, StageOk, advance-WellFormed, from_anchor-WellFormed,
}
use sec_app.Persistence.Advance.Monotone.{counted, Grows, advance-Grows}
use sec_app.Persistence.Replay.{links, replay_record, replay_from, replay}

-- The reservations among the records.
abbrev pub reservations : List Record → ℕ
reservations [] = 0
reservations (r ∷ rs) = counted r.record_kind + reservations rs

-- The digest that the next record must name.
abbrev pub tail_of : String → List Record → String
tail_of d [] = d
tail_of d (r ∷ rs) = tail_of r.record_digest rs

Grows-trans : {j k : ℕ} {s m n : State} → Grows j s m → Grows k m n → Grows (j + k) s n
Grows-trans g h = ground arith

-- A chain that succeeds has a first part that succeeds.
pub bind-ok {κ ℓ} :
    {S : Type κ} {T : Type ℓ} (begun : Result S) (next : S → Result T) {t : T}
    → (begun >>= next) ≡ ok t
    → (s : S) × (begun ≡ ok s) × (next s ≡ ok t)
bind-ok (problem why) next h = cc
bind-ok (ok s) next h = (s, refl, h)

module _ (sha256 : String → String) where
  -- A record that is replayed links to the state before it, and is accepted by `advance`.
  pub replay_record-advance :
      (s : State) (r : Record) {n : State}
      → replay_record sha256 s r ≡ ok n
      → (links sha256 s r ≡ true)
        × (m : State) × (advance sha256 s r.record_kind r.intent r.transaction_id ≡ ok m)
        × (n ≡ record m { sequence = r.sequence; tail_digest = r.record_digest })
  unfolding replay_record
  replay_record-advance s r {n} h =
      let (linked, rest) = refuse-ok (not (links sha256 s r)) storage_invalid _ h in
      let (m, stepped, made) =
        bind-ok (advance sha256 s r.record_kind r.intent r.transaction_id) _ rest in
      (ground arith, m, stepped, ground arith)

  -- A change of the chain's place changes nothing that an invariant reads.
  placed-WellFormed :
      (m : State) (k : ℕ) (d : String)
      → WellFormed m
      → WellFormed (record m { sequence = k; tail_digest = d })
  placed-WellFormed m k d w = record {
    generations = w.generations;
    active_ok = placed-active m.active w.active_ok;
    settled = w.settled;
    named = w.named;
    at_floor = w.at_floor;
  }
    where
      placed-active :
          (o : Option Active)
          → ActiveOk m o
          → ActiveOk (record m { sequence = k; tail_digest = d }) o
      placed-active none h = tt
      placed-active (some a) h = (placed-stage a a.stage h.0, h.1)
        where
          placed-stage :
              (a : Active) (g : Stage)
              → StageOk m a g
              → StageOk (record m { sequence = k; tail_digest = d }) a g
          placed-stage a admitted h = h
          placed-stage a blocked h = h
          placed-stage a committed h = h

  pub replay_record-WellFormed :
      (s : State) (r : Record) {n : State}
      → WellFormed s
      → replay_record sha256 s r ≡ ok n
      → WellFormed n × Grows (counted r.record_kind) s n
  replay_record-WellFormed s r {n} w h =
      let (linked, m, stepped, made) = replay_record-advance s r h in
      (
        subst WellFormed (sym made) (
            placed-WellFormed m r.sequence r.record_digest
              (advance-WellFormed sha256 s m r.record_kind r.intent r.transaction_id w stepped)),
        ground (arith, advance-Grows sha256 s m r.record_kind r.intent r.transaction_id w stepped),
      )

  pub replay_record-place :
      (s : State) (r : Record) {n : State}
      → replay_record sha256 s r ≡ ok n
      → (n.sequence ≡ s.sequence + 1) × (n.tail_digest ≡ r.record_digest)
  unfolding links
  replay_record-place s r h =
      let (linked, m, stepped, made) = replay_record-advance s r h in (ground arith, ground arith)

  pub replay_from-WellFormed :
      (s : State) (rs : List Record) {n : State}
      → WellFormed s
      → replay_from sha256 s rs ≡ ok n
      → WellFormed n
        × Grows (reservations rs) s n
        × (n.sequence ≡ s.sequence + length rs)
        × (n.tail_digest ≡ tail_of s.tail_digest rs)
  unfolding replay_from
  replay_from-WellFormed s [] w h = (ground (arith, w), ground arith, ground arith, ground arith)
  replay_from-WellFormed s (r ∷ rs) w h =
      let (m, first, rest) = bind-ok (replay_record sha256 s r) _ h in
      let (ok_m, grown) = replay_record-WellFormed s r w first in
      let (placed, tail) = replay_record-place s r first in
      let (ok_n, more, count, last) = replay_from-WellFormed m rs ok_m rest in
      (ok_n, Grows-trans grown more, omega (arith, count, placed), rw (last, tail))

  from_anchor-fields :
      (a : Anchor) {s : State}
      → from_anchor sha256 a ≡ ok s
      → (s.sequence ≡ a.sequence)
        × (s.tail_digest ≡ a.anchor_digest)
        × (s.counter ≡ a.counter)
        × (s.generation ≡ a.generation)
        × (s.security_floor ≡ a.security_floor)
  unfolding from_anchor
  from_anchor-fields a h = ground arith

  -- A journal that replays from its anchor: the state is well formed, its counter is the anchor's
  -- and one more for each reservation, its sequence number is the anchor's and one more for each
  -- record, its tail is the last record's digest, and no watermark is below the anchor's.
  pub replay_chain :
      (disk : Storage) {n : State}
      → replay sha256 disk ≡ ok n
      → WellFormed n
        × (n.counter ≡ disk.anchor.counter + reservations disk.records)
        × (n.sequence ≡ disk.anchor.sequence + length disk.records)
        × (n.tail_digest ≡ tail_of disk.anchor.anchor_digest disk.records)
        × (disk.anchor.generation ≤ n.generation)
        × (disk.anchor.security_floor ≤ n.security_floor)
  unfolding replay
  replay_chain disk {n} h =
      let (s, begun, rest) = bind-ok (from_anchor sha256 disk.anchor) _ h in
      let (ok_n, grown, count, last) =
        replay_from-WellFormed s disk.records (from_anchor-WellFormed sha256 disk.anchor begun)
          rest in
      let (sequence, tail, counter, generation, floor) = from_anchor-fields disk.anchor begun in
      (
        ok_n,
        omega (arith, grown.counter, counter),
        omega (arith, count, sequence),
        rw (last, tail),
        omega (arith, grown.generation, generation),
        omega (arith, grown.security_floor, floor),
      )
