-- ===== src/Protocol/Valid.antt =====
-- tools/lib/maintenance-protocol-model.mjs: the stores that `storeProblem` accepts.
use sec_app.Base.{
  ℕ, ◌+◌, ◌≤◌, String, true, false, Option, none, some, List, [], ◌∷◌, ◌++◌, ◌≡◌, refl, arith,
  eq_iff, eq_refl, str_eq, Option-cases, inl, inr,
}
use sec_app.Persistence.Types.{tx}
use sec_app.Protocol.Types.{LineageEntry, Journal, Store}
use sec_app.Protocol.Store.{
  below, bad_result, last_counter, ends_at, not_before, journal_seal, seal, phase_problem,
  journal_problem, store_problem,
}

abbrev prior_of : Option ℕ → ℕ
prior_of none = 0
prior_of (some n) = n

ends_at-some : (o : Option ℕ) (n : ℕ) → ends_at o n ≡ true → o ≡ some n
ends_at-some none n h = ground arith
ends_at-some (some m) n h = ground arith

-- An entry of the next counter ends the lineage there.
pub last_counter-append :
    (c prior : ℕ) (es : List LineageEntry) (e : LineageEntry)
    → last_counter c prior es ≡ some c
    → e.counter ≡ c + 1
    → e.transaction_id ≡ tx (c + 1)
    → last_counter (c + 1) prior (es ++ e ∷ []) ≡ some (c + 1)
unfolding last_counter
last_counter-append c prior [] e h k t = ground (arith, eq_refl e.transaction_id)
last_counter-append c prior (x ∷ es) e h k t =
    ground (arith, last_counter-append c x.counter es e, h, k, t)

module _ (sha256 : String → String) where
  pub record ValidJournal (s : Store) (j : Journal) : Type 0 where
    pub sealed : str_eq j.journal_digest (journal_seal sha256 j) ≡ true
    pub highest : s.generation ≤ j.highest_generation
    pub reserved : s.security_floor ≤ j.reserved_floor
    pub first : LineageEntry
    pub rest : List LineageEntry
    pub shape : j.lineage ≡ first ∷ rest
    pub origin : str_eq j.origin_transaction_id first.transaction_id ≡ true
    pub ends : last_counter s.counter 0 (first ∷ rest) ≡ some s.counter
    pub later : not_before s.last_result first.counter ≡ false
    pub phase_ok : phase_problem sha256 s j j.phase ≡ false

  pub record ValidStore (s : Store) : Type 0 where
    pub at_floor : below s.selection s.security_floor ≡ false
    pub last_ok : bad_result s.last_result s.counter ≡ false
    pub journal_ok : (j : Journal) → s.journal ≡ some j → ValidJournal s j

  seal-sealed : (j : Journal) → (seal sha256 j).journal_digest ≡ journal_seal sha256 (seal sha256 j)
  unfolding seal journal_seal
  seal-sealed j = refl

  pub seal-IsSealed :
      (j : Journal)
      → str_eq (seal sha256 j).journal_digest (journal_seal sha256 (seal sha256 j)) ≡ true
  seal-IsSealed j = (eq_iff _ _).1 (seal-sealed j)

  journal_problem-Valid :
      (s : Store) (j : Journal) (es : List LineageEntry)
      → j.lineage ≡ es
      → journal_problem sha256 s j es ≡ false
      → ValidJournal s j
  unfolding journal_problem
  journal_problem-Valid s j [] e h = ground arith
  journal_problem-Valid s j (x ∷ es) e h = record {
    sealed = ground arith;
    highest = ground arith;
    reserved = ground arith;
    first = x;
    rest = es;
    shape = e;
    origin = ground arith;
    ends = ends_at-some (last_counter s.counter 0 (x ∷ es)) s.counter (ground arith);
    later = ground arith;
    phase_ok = ground arith;
  }

  Valid-journal_problem :
      (s : Store) (j : Journal) → ValidJournal s j → journal_problem sha256 s j j.lineage ≡ false
  unfolding journal_problem
  Valid-journal_problem s j v =
      rw v.shape
        (ground (arith, v.sealed, v.highest, v.reserved, v.origin, v.ends, v.later, v.phase_ok))

  pub store_problem-Valid : (s : Store) → store_problem sha256 s ≡ false → ValidStore s
  unfolding store_problem
  store_problem-Valid s h = record {
    at_floor = ground arith;
    last_ok = ground arith;
    journal_ok = λ j e. journal_problem-Valid s j j.lineage refl (ground arith);
  }

  pub Valid-store_problem : (s : Store) → ValidStore s → store_problem sha256 s ≡ false
  unfolding store_problem
  Valid-store_problem s v = elim (Option-cases s.journal) [
    | inl e ↦ rw e (ground (arith, v.at_floor, v.last_ok))
    | inr (j, e) ↦
        rw e (ground (arith, v.at_floor, v.last_ok, Valid-journal_problem s j (v.journal_ok j e)))
  ]
