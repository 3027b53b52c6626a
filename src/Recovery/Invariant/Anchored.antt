-- ===== src/Recovery/Invariant/Anchored.antt =====
-- tools/lib/maintenance-recovery-model.mjs: what the reconstruction of a journal gives.
use sec_app.Base.{
  subst, Memᴰ, ℕ, ◌+◌, ◌≤◌, String, true, false, Option, none, some, List, [], ◌∷◌, ◌++◌, ◌≡◌, refl,
  arith, eq_iff, eq_refl, Option-cases, ap, sym, ◌∙◌,
}
use sec_app.Recovery.Types.{
  Decision, approved_synthetic, declined, Checked, fails, gives, ◌>>◌, fail_if, Anchor,
  Authorization, Storage, State, RecordKind, admission, block, commit, complete, retire,
  authorize_checkpoint, Record,
}
use sec_app.Recovery.Encode.{anchor_body}
use sec_app.Recovery.State.{offer_seal, compact_anchor, sealed_anchor, anchor_seal, from_anchor}
use sec_app.Recovery.Terms.{anchor_of, bad_terminal, opened}
use sec_app.Recovery.Offer.{is_approved, validate_offer}
use sec_app.Recovery.Advance.{
  seen_first, advance_admission, advance_by, advance, reconstruct_record, reconstruct_from,
  reconstruct,
}
use sec_app.Recovery.Invariant.{fail_if-gives, check-gives, bind-gives, gives-injective, WellFormed}
use sec_app.Recovery.Invariant.Advance.{Grows, counted, Kept, advance-Kept}

-- How many of the records are admissions.
abbrev pub admissions : List Record → ℕ
admissions [] = 0
admissions (r ∷ rs) = counted r.record_kind + admissions rs

seen_first-gives :
    (m : Checked State) (rest : State → List State × Checked State) (n : State)
    → (seen_first m rest).1 ≡ gives n
    → (t : State) × (m ≡ gives t) × ((rest t).1 ≡ gives n)
seen_first-gives (fails p) rest n h = ground arith
seen_first-gives (gives s) rest n h = (s, refl, h)

-- An admission was approved, by a confirmation of the very offer, whose digest is its own,
-- and carries the offer's transaction.
pub record Consented (sha256 : String → String) (r : Record) : Type 0 where
  pub authorization : Authorization
  pub carried : r.authorization ≡ some authorization
  pub approved : authorization.confirmation.decision ≡ approved_synthetic
  pub bound : authorization.confirmation.offer_digest ≡ authorization.offer.offer_digest
  pub sealed : authorization.offer.offer_digest ≡ offer_seal sha256 authorization.offer
  pub named : r.transaction_id ≡ authorization.offer.transaction_id

approved-only : (d : Decision) → is_approved d ≡ true → d ≡ approved_synthetic
approved-only approved_synthetic h = refl
approved-only declined h = ground arith

Grows-trans : (j k : ℕ) (s t u : State) → Grows j s t → Grows k t u → Grows (j + k) s u
Grows-trans j k s t u g h = record {
  counter = omega (arith, g.counter, h.counter);
  generation = omega (arith, g.generation, h.generation);
  generation_floor = omega (arith, g.generation_floor, h.generation_floor);
  security_floor = omega (arith, g.security_floor, h.security_floor);
}

module _ (sha256 : String → String) where
  -- An anchor that is accepted stands for a well-formed state.
  pub from_anchor-WellFormed :
      (a : Anchor) (s : State) → from_anchor sha256 a ≡ gives s → WellFormed s
  unfolding from_anchor
  from_anchor-WellFormed a s h =
      let (c, made) = fail_if-gives _ _ _ s (fail_if-gives _ _ _ s h).1 in
      rw⁻¹ (gives-injective _ s made) (record {
        generations = ground arith;
        settled = λ u. (ground arith, ground arith);
        active_ok = ground arith;
      })

  anchor_seal-anchor_of :
      (s : State) (d : String)
      → anchor_seal sha256 (anchor_of s d) ≡ anchor_seal sha256 (anchor_of s "")
  unfolding anchor_seal anchor_body
  anchor_seal-anchor_of s d = refl

  from_anchor-sealed :
      (s : State)
      → WellFormed s
      → s.active ≡ none
      → from_anchor sha256 (sealed_anchor sha256 s) ≡ gives (opened (sealed_anchor sha256 s))
  unfolding from_anchor fail_if ◌>>◌
  from_anchor-sealed s w e =
      let now = w.settled (rw e refl) in
      let last : bad_terminal s.terminal s.counter ≡ false = rw e at w.active_ok in
      rw (anchor_seal-anchor_of s (anchor_seal sha256 (anchor_of s "")))
        (ground (arith, eq_refl (anchor_seal sha256 (anchor_of s "")), now, last))

  -- A well-formed state that is compacted to an anchor is the state that the anchor stands for, but
  -- for the digest of its tail, which is the anchor's.
  pub from_anchor-compact_anchor :
      (s : State) (a : Anchor)
      → WellFormed s
      → compact_anchor sha256 s ≡ gives a
      → from_anchor sha256 a ≡ gives (record s { tail_digest = a.anchor_digest })
  unfolding compact_anchor
  from_anchor-compact_anchor s a w h =
      let (c, made) = fail_if-gives _ _ _ a h in
      let idle : s.active ≡ none = ground (arith, Option-cases s.active) in
      let same : sealed_anchor sha256 s ≡ a = gives-injective _ a made in
      subst (λ x. from_anchor sha256 x ≡ gives (record s { tail_digest = Anchor.anchor_digest x }))
        same
        (from_anchor-sealed s w idle
          ∙ ap
              (λ o.
                gives (record s { tail_digest = anchor_seal sha256 (anchor_of s ""); active = o }))
              (sym idle))

  advance-Consented :
      (s n : State) (r : Record) (disk : Storage) (o : Option Authorization)
      → r.authorization ≡ o
      → advance_admission sha256 s r disk o ≡ gives n
      → Consented sha256 r
  unfolding advance_admission validate_offer
  advance-Consented s n r disk none e h = ground arith
  advance-Consented s n r disk (some a) e h =
      let (valid, h1) = check-gives _ _ n h in
      let (intact, rest) = fail_if-gives _ _ _ tt valid in
      let (confirmed, _) = fail_if-gives _ _ _ tt rest in
      let (named, _) = fail_if-gives _ _ _ n h1 in
      record {
        authorization = a;
        carried = e;
        approved = approved-only a.confirmation.decision (ground arith);
        bound = (eq_iff a.confirmation.offer_digest a.offer.offer_digest).0 (ground arith);
        sealed = (eq_iff a.offer.offer_digest (offer_seal sha256 a.offer)).0 (ground arith);
        named = (eq_iff r.transaction_id a.offer.transaction_id).0 (ground arith);
      }

  advance_by-Consented :
      (s n : State) (r : Record) (disk : Storage) (kind : RecordKind)
      → kind ≡ admission
      → advance_by sha256 s r disk kind ≡ gives n
      → Consented sha256 r
  advance_by-Consented s n r disk admission e h =
      advance-Consented s n r disk r.authorization refl h
  advance_by-Consented s n r disk block e h = ground arith
  advance_by-Consented s n r disk commit e h = ground arith
  advance_by-Consented s n r disk complete e h = ground arith
  advance_by-Consented s n r disk retire e h = ground arith
  advance_by-Consented s n r disk authorize_checkpoint e h = ground arith

  -- What one round of the loop gives.
  reconstruct_record-Kept :
      (disk : Storage) (before : List Record) (s n : State) (r : Record)
      → WellFormed s
      → reconstruct_record sha256 disk before s r ≡ gives n
      → Kept sha256 (counted r.record_kind) s n × (r.record_kind ≡ admission → Consented sha256 r)
  unfolding reconstruct_record advance
  reconstruct_record-Kept disk before s n r w h =
      let (next, stepped, made) =
        bind-gives _ _ n (fail_if-gives _ _ _ n (fail_if-gives _ _ _ n h).1).1 in
      let kept = advance-Kept sha256 s next r _ w stepped in
      (
        rw⁻¹ (gives-injective _ n made) (record {
          well_formed = record {
            generations = kept.well_formed.generations;
            settled = kept.well_formed.settled;
            active_ok = kept.well_formed.active_ok;
          };
          grows = record {
            counter = kept.grows.counter;
            generation = kept.grows.generation;
            generation_floor = kept.grows.generation_floor;
            security_floor = kept.grows.security_floor;
          };
        }),
        λ e. advance_by-Consented s next r _ r.record_kind e stepped,
      )

  -- What the rest of the journal gives.
  record Rebuilt (rs : List Record) (s n : State) : Type 0 where
    well_formed : WellFormed n
    grows : Grows (admissions rs) s n
    consented : (r : Record) → Memᴰ r rs → r.record_kind ≡ admission → Consented sha256 r

  Rebuilt-none : (s : State) → WellFormed s → Rebuilt [] s s
  Rebuilt-none s w = record {
    well_formed = w;
    grows = record {
      counter = omega arith;
      generation = omega arith;
      generation_floor = omega arith;
      security_floor = omega arith;
    };
    consented = λ r at k. elim at [ ];
  }

  Rebuilt-more :
      (r : Record) (rs : List Record) (s t n : State)
      → Kept sha256 (counted r.record_kind) s t × (r.record_kind ≡ admission → Consented sha256 r)
      → Rebuilt rs t n
      → Rebuilt (r ∷ rs) s n
  Rebuilt-more r rs s t n (kept, said) rest = record {
    well_formed = rest.well_formed;
    grows = Grows-trans (counted r.record_kind) (admissions rs) s t n kept.grows rest.grows;
    consented = λ x at k. elim at [
      | Memᴰ.head e ↦ subst (Consented sha256) (sym e) (said (sym (ap Record.record_kind e) ∙ k))
      | Memᴰ.tail later ↦ rest.consented x later k
    ];
  }

  reconstruct_from-Rebuilt :
      (disk : Storage) (before : List Record) (s n : State) (rs : List Record)
      → WellFormed s
      → (reconstruct_from sha256 disk before s rs).1 ≡ gives n
      → Rebuilt rs s n
  unfolding reconstruct_from
  reconstruct_from-Rebuilt disk before s n [] w h =
      subst (λ x. Rebuilt [] s x) (gives-injective s n h) (Rebuilt-none s w)
  reconstruct_from-Rebuilt disk before s n (r ∷ rs) w h =
      let (t, e, k) = seen_first-gives _ _ n h in
      let kept = reconstruct_record-Kept disk before s t r w e in
      Rebuilt-more r rs s t n kept
        (reconstruct_from-Rebuilt disk (before ++ r ∷ []) t n rs kept.0.well_formed k)

  -- What the whole journal gives.
  pub record Reconstructed (disk : Storage) (n : State) : Type 0 where
    pub well_formed : WellFormed n
    pub counter : n.counter ≡ disk.anchor.counter + admissions disk.records
    pub generation : disk.anchor.generation ≤ n.generation
    pub generation_floor : disk.anchor.generation_floor ≤ n.generation_floor
    pub security_floor : disk.anchor.security_floor ≤ n.security_floor

  from_anchor-opened : (a : Anchor) (s : State) → from_anchor sha256 a ≡ gives s → opened a ≡ s
  unfolding from_anchor
  from_anchor-opened a s h =
      gives-injective _ s (fail_if-gives _ _ _ s (fail_if-gives _ _ _ s h).1).1

  reconstruct-Rebuilt :
      (disk : Storage) (n : State)
      → (reconstruct sha256 disk).1 ≡ gives n
      → Rebuilt disk.records (opened disk.anchor) n
  unfolding reconstruct
  reconstruct-Rebuilt disk n h =
      let (s, e, k) = seen_first-gives _ _ n h in
      subst (λ x. Rebuilt disk.records x n) (sym (from_anchor-opened disk.anchor s e))
        (reconstruct_from-Rebuilt disk [] s n disk.records (from_anchor-WellFormed disk.anchor s e)
          k)

  -- A journal that is reconstructed gives a well-formed state, whose counter is the anchor's with one
  -- more for each admission, and whose generation and floors are not below the anchor's.
  pub reconstruct-Reconstructed :
      (disk : Storage) (n : State) → (reconstruct sha256 disk).1 ≡ gives n → Reconstructed disk n
  reconstruct-Reconstructed disk n h =
      let whole = reconstruct-Rebuilt disk n h in
      record {
        well_formed = whole.well_formed;
        counter = whole.grows.counter;
        generation = whole.grows.generation;
        generation_floor = whole.grows.generation_floor;
        security_floor = whole.grows.security_floor;
      }

  -- Each admission of a journal that is reconstructed was approved, by a confirmation that is bound to
  -- the offer that it carries, whose digest is that of its own content, and has the offer's
  -- transaction.
  pub reconstruct-Consented :
      (disk : Storage) (n : State) (r : Record)
      → (reconstruct sha256 disk).1 ≡ gives n
      → Memᴰ r disk.records
      → r.record_kind ≡ admission
      → Consented sha256 r
  reconstruct-Consented disk n r h at k = (reconstruct-Rebuilt disk n h).consented r at k
