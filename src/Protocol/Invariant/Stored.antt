-- ===== src/Protocol/Invariant/Stored.antt =====
-- tools/lib/maintenance-protocol-model.mjs: the events that change the store keep it valid.
use sec_app.Base.{
  ℕ, ◌+◌, ◌≤◌, max, String, true, false, Option, none, some, [], ◌∷◌, ◌++◌, ◌≡◌, refl, arith, ap,
  subst, eq_refl,
}
use sec_app.Data.Jcs.{same}
use sec_app.Deployment.Types.{Selection}
use sec_app.Deployment.Admission.{epoch_of}
use sec_app.Persistence.Types.{tx}
use sec_app.Protocol.Types.{
  phase_admitted, phase_publish_pending, phase_committed, Journal, LastResult, Store, Context,
  Proposal, Request, maintenance, recovery,
}
use sec_app.Protocol.Store.{
  below, bad_result, not_before, last_counter, phase_problem, seal, same_selection,
}
use sec_app.Protocol.Session.{Session}
use sec_app.Protocol.Local.{
  text_of, entry_of, opened_journal, admitted_journal, admit, published_floor, publish,
  commit_publication, completion,
}
use sec_app.Protocol.Valid.{ValidJournal, ValidStore, last_counter-append, seal-IsSealed}

same_selection_refl :
    (sha256 : String → String) (o : Option Selection) → same_selection sha256 o o ≡ true
unfolding same_selection same
same_selection_refl sha256 o = eq_refl _

bad_result-later :
    (r : Option LastResult) (c : ℕ) → bad_result r c ≡ false → bad_result r (c + 1) ≡ false
bad_result-later none c h = refl
bad_result-later (some r) c h = ground arith

not_before-next :
    (r : Option LastResult) (c : ℕ) → bad_result r c ≡ false → not_before r (c + 1) ≡ false
not_before-next none c h = refl
not_before-next (some r) c h = ground arith

module _ (sha256 : String → String) (context : Context) where
  -- The store that an admission leaves.
  abbrev admitted_store : Store → Journal → Store
  admitted_store s j = record s { counter = s.counter + 1; journal = some (seal sha256 j) }

  opened-Valid :
      (m : Session) (p : Proposal)
      → ValidStore sha256 m.store
      → m.transaction_id ≡ some (tx (m.store.counter + 1))
      → ValidJournal sha256
          (admitted_store m.store (opened_journal m p))
          (seal sha256 (opened_journal m p))
  unfolding seal last_counter
  opened-Valid m p v t = record {
    sealed = seal-IsSealed sha256 (opened_journal m p);
    highest = omega arith;
    reserved = omega arith;
    first = entry_of m;
    rest = [];
    shape = refl;
    origin = eq_refl (text_of m.transaction_id);
    ends = rw t (ground (arith, eq_refl (tx (m.store.counter + 1))));
    later = not_before-next m.store.last_result m.store.counter v.last_ok;
    phase_ok = ground (arith, same_selection_refl sha256 m.store.selection);
  }

  abbrev extended : Session → Journal → Journal
  extended m j = record j { lineage = j.lineage ++ entry_of m ∷ [] }

  phase-extended :
      (m : Session) (j : Journal)
      → phase_problem sha256 m.store j j.phase ≡ false
      → phase_problem sha256
          (admitted_store m.store (extended m j))
          (seal sha256 (extended m j))
          j.phase
        ≡ false
  unfolding seal
  phase-extended m j h = elim (j.phase) [
    | phase_admitted ↦ h
    | phase_publish_pending ↦ h
    | phase_committed ↦ h
  ]

  extended-Valid :
      (m : Session) (j : Journal)
      → ValidStore sha256 m.store
      → ValidJournal sha256 m.store j
      → m.transaction_id ≡ some (tx (m.store.counter + 1))
      → ValidJournal sha256 (admitted_store m.store (extended m j)) (seal sha256 (extended m j))
  unfolding seal
  extended-Valid m j v w t = record {
    sealed = seal-IsSealed sha256 (extended m j);
    highest = w.highest;
    reserved = w.reserved;
    first = w.first;
    rest = w.rest ++ entry_of m ∷ [];
    shape = ap (λ l. l ++ entry_of m ∷ []) w.shape;
    origin = w.origin;
    ends =
        last_counter-append m.store.counter 0 (w.first ∷ w.rest) (entry_of m) w.ends refl
          (ap text_of t);
    later = w.later;
    phase_ok = phase-extended m j w.phase_ok;
  }

  admitted_journal-Valid :
      (m : Session) (p : Proposal) (o : Option Journal) (r : Request)
      → ValidStore sha256 m.store
      → m.store.journal ≡ o
      → m.transaction_id ≡ some (tx (m.store.counter + 1))
      → ValidJournal sha256
          (admitted_store m.store (admitted_journal m p o r))
          (seal sha256 (admitted_journal m p o r))
  admitted_journal-Valid m p none r v e t = opened-Valid m p v t
  admitted_journal-Valid m p (some j) (maintenance operation) v e t = opened-Valid m p v t
  admitted_journal-Valid m p (some j) (recovery r) v e t = extended-Valid m j v (v.journal_ok j e) t

  some-Valid :
      (s : Store) (j : Journal)
      → ValidJournal sha256 s j
      → s.journal ≡ some j
      → (k : Journal) → s.journal ≡ some k
      → ValidJournal sha256 s k
  some-Valid s j v e k f = subst (λ x. ValidJournal sha256 s x) (ground arith) v

  pub admit-Valid :
      (m : Session) (p : Proposal)
      → ValidStore sha256 m.store
      → m.transaction_id ≡ some (tx (m.store.counter + 1))
      → ValidStore sha256 (admit sha256 context m p).store
  unfolding admit
  admit-Valid m p v t = record {
    at_floor = v.at_floor;
    last_ok = bad_result-later m.store.last_result m.store.counter v.last_ok;
    journal_ok =
        some-Valid _ _ (admitted_journal-Valid m p m.store.journal p.request v refl t) refl;
  }

  published_store-Valid :
      (m : Session) (p : Proposal) (j k : Journal)
      → ValidStore sha256 m.store
      → m.store.journal ≡ some j
      → m.store.security_floor ≤ m.security_floor
      → m.store.generation ≤ m.next_generation
      → k ≡ record j {
        reserved_floor = published_floor m p;
        highest_generation = m.next_generation;
        phase = phase_publish_pending;
      }
      → ValidStore sha256 (record m.store { journal = some (seal sha256 k) })
  unfolding seal
  published_store-Valid m p j k v e floor next made =
      let w = v.journal_ok j e in
      record {
        at_floor = v.at_floor;
        last_ok = v.last_ok;
        journal_ok =
            some-Valid _ (seal sha256 k)
              (record {
                sealed = seal-IsSealed sha256 k;
                highest = rw made next;
                reserved = rw made (omega (arith, floor));
                first = w.first;
                rest = w.rest;
                shape = rw made w.shape;
                origin = rw made w.origin;
                ends = w.ends;
                later = w.later;
                phase_ok = rw made refl;
              })
              refl;
      }

  pub publish-Valid :
      (m : Session) (p : Proposal) (j : Journal)
      → ValidStore sha256 m.store
      → m.store.journal ≡ some j
      → m.store.security_floor ≤ m.security_floor
      → m.store.generation ≤ m.next_generation
      → ValidStore sha256 (publish sha256 context m p j).store
  unfolding publish
  publish-Valid m p j v e floor next = published_store-Valid m p j _ v e floor next refl

  -- What a publication selects.
  abbrev selected : Session → Proposal → Journal → Store
  selected m p j = record m.store {
    selection = p.desired;
    generation = m.next_generation;
    security_floor = m.security_floor;
    journal = some (seal sha256 (record j { candidate = p.desired; phase = phase_committed }));
  }

  selected-journal :
      (m : Session) (p : Proposal) (j : Journal)
      → ValidStore sha256 m.store
      → m.store.journal ≡ some j
      → j.highest_generation ≡ m.next_generation
      → j.reserved_floor ≡ m.security_floor
      → ValidJournal sha256
          (selected m p j)
          (seal sha256 (record j { candidate = p.desired; phase = phase_committed }))
  unfolding seal
  selected-journal m p j v e highest reserved =
      let w = v.journal_ok j e in
      record {
        sealed = seal-IsSealed sha256 (record j { candidate = p.desired; phase = phase_committed });
        highest = omega (arith, highest);
        reserved = omega (arith, reserved);
        first = w.first;
        rest = w.rest;
        shape = w.shape;
        origin = w.origin;
        ends = w.ends;
        later = w.later;
        phase_ok = ground (arith, highest, reserved, same_selection_refl sha256 p.desired);
      }

  below-lower :
      (o : Option Selection) (floor epoch : ℕ)
      → below o (max floor epoch) ≡ false
      → below o floor ≡ false
  below-lower none floor epoch h = refl
  below-lower (some t) floor epoch h = ground arith

  pub commit_publication-Valid :
      (m : Session) (p : Proposal) (j : Journal)
      → ValidStore sha256 m.store
      → m.store.journal ≡ some j
      → j.highest_generation ≡ m.next_generation
      → j.reserved_floor ≡ m.security_floor
      → below p.desired (max m.security_floor (epoch_of m.store.selection)) ≡ false
      → ValidStore sha256 (commit_publication sha256 context m p j).store
  unfolding commit_publication
  commit_publication-Valid m p j v e highest reserved planned = record {
    at_floor = below-lower p.desired m.security_floor (epoch_of m.store.selection) planned;
    last_ok = v.last_ok;
    journal_ok = some-Valid _ _ (selected-journal m p j v e highest reserved) refl;
  }

  pub completion-Valid :
      (m : Session)
      → ValidStore sha256 m.store
      → m.transaction_id ≡ some (tx m.store.counter)
      → ValidStore sha256 (completion m).store
  unfolding completion
  completion-Valid m v t = record {
    at_floor = v.at_floor;
    last_ok = rw t (ground (arith, eq_refl (tx m.store.counter)));
    journal_ok = λ j e. ground arith;
  }
