-- ===== src/Protocol/Store.antt =====
-- tools/lib/maintenance-protocol-model.mjs: the checks of a store and of a proposal's scope.
use sec_app.Base.{
  ℕ, String, Bool, true, false, not, ◌&&◌, ◌||◌, Option, none, some, List, [], ◌∷◌, ltb, leb, ◌==◌,
  str_eq, opt_eq, is_some, length, if◌then◌else◌,
}
use sec_app.Data.Json.{nullable}
use sec_app.Data.Jcs.{jcs_sha256, digest_with_exclusion, same}
use sec_app.Deployment.Types.{
  install, update, enroll_backend, repair, uninstall, Operation, Selection, selection_json,
}
use sec_app.Deployment.Admission.{unchanged_but_backend}
use sec_app.Persistence.Types.{tx}
use sec_app.Protocol.Types.{
  Phase, phase_admitted, phase_publish_pending, phase_committed, LineageEntry, Journal, LastResult,
  Store, RecoveryTarget, finalize_candidate, restore_permitted_previous, finish_committed_cleanup,
  Request, maintenance, recovery, Proposal,
}
use sec_app.Protocol.Encode.{store_json, journal_json}

-- Array.prototype.length === 0
abbrev pub is_empty {ℓ} : {A : Type ℓ} → List A → Bool
is_empty [] = true
is_empty (_ ∷ _) = false

-- A selection below the security floor.
abbrev pub below : Option Selection → ℕ → Bool
below none floor = false
below (some t) floor = ltb t.security_epoch floor

-- A last result that the counter does not cover or name.
abbrev pub bad_result : Option LastResult → ℕ → Bool
bad_result none counter = false
bad_result (some r) counter = ltb counter r.counter || not (str_eq r.transaction_id (tx r.counter))

-- The loop over the lineage: its counters grow from `prior`, name their transactions and stay within
-- `counter`; the last of them, or none where one fails.
unfoldable pub last_counter : ℕ → ℕ → List LineageEntry → Option ℕ
last_counter counter prior [] = some prior
last_counter counter prior (e ∷ es) =
    let rest = last_counter counter e.counter es in
    if leb e.counter prior || not (str_eq e.transaction_id (tx e.counter)) || ltb counter e.counter
    then none
    else rest

abbrev pub ends_at : Option ℕ → ℕ → Bool
ends_at none counter = false
ends_at (some last) counter = last == counter

-- The last result comes before the journal's first transaction.
abbrev pub not_before : Option LastResult → ℕ → Bool
not_before none first = false
not_before (some r) first = leb first r.counter

abbrev pub is_committed : Phase → Bool
is_committed phase_committed = true
is_committed _ = false

abbrev pub is_pending : Phase → Bool
is_pending phase_publish_pending = true
is_pending _ = false

module _ (sha256 : String → String) where
  unfoldable pub maintenance_head_digest : Store → String
  unfolding jcs_sha256 store_json
  maintenance_head_digest s = jcs_sha256 sha256 (store_json s)

  unfoldable pub journal_seal : Journal → String
  unfolding digest_with_exclusion journal_json
  journal_seal j = digest_with_exclusion sha256 (journal_json j) "journal_digest"

  unfoldable pub seal : Journal → Journal
  seal j = record j { journal_digest = journal_seal j }

  unfoldable pub same_selection : Option Selection → Option Selection → Bool
  unfolding same selection_json
  same_selection a b = same sha256 (nullable selection_json a) (nullable selection_json b)

  -- The phases whose journal stands by the store.
  abbrev pub phase_problem : Store → Journal → Phase → Bool
  phase_problem s j phase_admitted =
      not (j.highest_generation == s.generation)
      || not (j.reserved_floor == s.security_floor)
      || not (same_selection j.previous s.selection)
  phase_problem s j phase_committed =
      not (j.highest_generation == s.generation)
      || not (j.reserved_floor == s.security_floor)
      || not (same_selection j.candidate s.selection)
  phase_problem s j phase_publish_pending = false

  -- The checks of a journal. Its lineage has an entry by the schema.
  unfoldable pub journal_problem : Store → Journal → List LineageEntry → Bool
  unfolding last_counter
  journal_problem s j [] = true
  journal_problem s j (first ∷ rest) =
      not (str_eq j.journal_digest (journal_seal j))
      || ltb j.highest_generation s.generation
      || ltb j.reserved_floor s.security_floor
      || not (str_eq j.origin_transaction_id first.transaction_id)
      || not (ends_at (last_counter s.counter 0 (first ∷ rest)) s.counter)
      || not_before s.last_result first.counter
      || phase_problem s j j.phase

  unfoldable pub store_problem : Store → Bool
  store_problem s =
      below s.selection s.security_floor
      || bad_result s.last_result s.counter
      || elim s.journal [ none ↦ false | some j ↦ journal_problem s j j.lineage ]

  -- `normalScope` by operation, on a store without a journal.
  abbrev pub operation_scope : Operation → Option Selection → Proposal → Option Selection → Bool
  operation_scope install none p (some after) = not (is_some after.backend_id)
  operation_scope uninstall (some before) p none = is_empty p.members
  operation_scope repair (some before) p after = same_selection (some before) after
  operation_scope update (some before) p (some after) =
      opt_eq before.backend_id after.backend_id
      && not (str_eq before.manifest_digest after.manifest_digest)
  operation_scope enroll_backend (some before) p (some after) =
      not (is_some before.backend_id)
      && is_some after.backend_id
      && not (str_eq before.manifest_digest after.manifest_digest)
      && unchanged_but_backend before after
  operation_scope _ _ _ _ = false

  -- `recoveryScope` by target.
  abbrev pub target_scope : RecoveryTarget → Store → Journal → Proposal → Bool
  target_scope finish_committed_cleanup s j p =
      is_committed j.phase && same_selection p.desired s.selection && is_empty p.members
  target_scope finalize_candidate s j p =
      is_pending j.phase
      && same_selection p.desired j.candidate
      && (is_some j.candidate || is_empty p.members)
  target_scope restore_permitted_previous s j p =
      is_pending j.phase
      && same_selection p.desired j.previous
      && (is_some j.previous || is_empty p.members)

  unfoldable pub in_scope : Store → Option Journal → Proposal → Request → Bool
  in_scope s none p (maintenance operation) = operation_scope operation s.selection p p.desired
  in_scope s none p (recovery r) = false
  in_scope s (some j) p (maintenance operation) = false
  in_scope s (some j) p (recovery r) =
      str_eq r.original_transaction_id j.origin_transaction_id
      && str_eq r.journal_digest j.journal_digest
      && (r.highest_generation == j.highest_generation)
      && ltb (length j.lineage) 16
      && target_scope r.recovery_target s j p
