-- ===== src/Importer/Referenced.antt =====
-- What an accepted audit package's run names is there, under its own run and at its own place.
use sec_app.Base.{
  any-none, refl, sym, ap, ◌∙◌, String, false, Option, some, List, [], ◌∷◌, ◌≡◌, subst, Memᴰ,
  Option-cases, inl, inr, eq_iff, any, map,
}
use sec_app.Importer.Checked.{
  Checked, accepts, >>-accepts, >>=-accepts, reject_if-accepts, rejected-false, each-Mem, not-false,
}
use sec_app.Importer.Subjects.{
  AuditRun, AuditPass, ActionLog, Contract, audit_run, audit_pass, collector_execution, observation,
  evidence_reference, finding, collector_definition, rule_definition, action_log, consent_receipt,
  reboot_continuation_state, other_contract, Subject, AuditManifest, Located, select, as_run,
  as_log, as_execution, as_observation, as_evidence, as_finding,
}
use sec_app.Importer.Members.{
  execution_key, observation_key, evidence_key, finding_key, expected_path, is_misplaced, is_moved,
  validate_role_paths, validate_object_references,
}
use sec_app.Importer.References.{
  validate_graph_links, bound_run, strays, finalize_run, finalize_audit_package,
}
use sec_app.Importer.Accepted.{with_one-sole, finalize_run-passes}
use sec_app.Importer.Placed.{
  Resolves, first-false, rest-false, validate_kind-Resolves, IsBound, IsPlaced,
}

-- What an accepted package's subjects are to its run.
pub record Referenced (manifest : AuditManifest) (subjects : List Subject) (run : AuditRun)
    : Type 0 where
  pub sole : map Located.value (select as_run subjects) ≡ run ∷ []
  pub logged : (l : ActionLog) × (map Located.value (select as_log subjects) ≡ l ∷ [])
  pub named : manifest.run_id ≡ run.run_id
  pub bound : (s : Subject) → Memᴰ s subjects → IsBound run.run_id s.contract
  pub placed : (s : Subject) → Memᴰ s subjects → IsPlaced s.logical_path s.contract
  pub executions :
      Resolves execution_key
        (λ x. x.value.object_digest)
        (select as_execution subjects)
        run.execution_references
  pub observations :
      Resolves observation_key
        (λ x. x.value.object_digest)
        (select as_observation subjects)
        run.observation_references
  pub evidence :
      Resolves evidence_key
        (λ x. x.value.object_digest)
        (select as_evidence subjects)
        run.evidence_references
  pub findings :
      Resolves finding_key
        (λ x. x.value.object_digest)
        (select as_finding subjects)
        run.finding_references

validate_graph_links-objects :
    (run : AuditRun) (subjects : List Subject) (passes : List (Located AuditPass))
    → validate_graph_links run subjects passes ≡ accepts tt
    → validate_object_references run subjects ≡ accepts tt
unfolding validate_graph_links
validate_graph_links-objects run subjects passes h =
    let (m, em, hm) = >>=-accepts _ _ tt h in
    let (owned, eo, ho) = >>=-accepts _ _ tt hm in
    (>>-accepts _ _ tt (>>-accepts _ _ tt (>>-accepts _ _ tt (>>-accepts _ _ tt ho).1).1).1).1

same_path : (path p : String) → is_misplaced (some p) path ≡ false → path ≡ p
same_path path p h = (eq_iff path p).0 (not-false _ h)

placed_lem :
    (c : Contract) (path : String)
    → is_misplaced (expected_path c) path ≡ false
    → is_moved c path ≡ false
    → IsPlaced path c
unfolding expected_path
placed_lem (audit_run x) path h k = same_path path _ h
placed_lem (audit_pass x) path h k = same_path path _ h
placed_lem (collector_execution x) path h k = same_path path _ h
placed_lem (observation x) path h k = same_path path _ h
placed_lem (evidence_reference x) path h k =
    (same_path path _ h, (eq_iff x.logical_path path).0 (not-false _ k))
placed_lem (finding x) path h k = same_path path _ h
placed_lem (action_log x) path h k = same_path path _ h
placed_lem (collector_definition x) path h k = tt
placed_lem (rule_definition x) path h k = tt
placed_lem (consent_receipt id run) path h k = tt
placed_lem (reboot_continuation_state run) path h k = tt
placed_lem other_contract path h k = tt

validate_role_paths-IsPlaced :
    (subjects : List Subject) (s : Subject)
    → validate_role_paths subjects ≡ accepts tt
    → Memᴰ s subjects
    → IsPlaced s.logical_path s.contract
unfolding validate_role_paths
validate_role_paths-IsPlaced subjects s h at =
    let (a, ha) = reject_if-accepts _ _ _ tt (each-Mem _ subjects s h at) in
    placed_lem s.contract s.logical_path a (rejected-false _ _ ha)

same_run : (run id : String) → strays run (some id) ≡ false → id ≡ run
same_run run id h = (eq_iff id run).0 (not-false _ h)

-- What `select` gives holds every contract of the kind.
Mem-select :
    {A : Type 0} (as_kind : Contract → Option A) (subjects : List Subject) (s : Subject) (x : A)
    → Memᴰ s subjects
    → as_kind s.contract ≡ some x
    → Memᴰ x (map Located.value (select as_kind subjects))
Mem-select as_kind [] s x at e = elim at [ ]
Mem-select as_kind (y ∷ ys) s x at e = elim at [
  | Memᴰ.head same ↦
      let here : as_kind y.contract ≡ some x =
        ap (λ (z : Subject). as_kind z.contract) (sym same) ∙ e in
      rw (here, map) (Memᴰ.head refl)
  | Memᴰ.tail later ↦
      let rest = Mem-select as_kind ys s x later e in
      elim (Option-cases (as_kind y.contract)) [
        | inl none_here ↦ rw (none_here, map) rest
        | inr (z, here) ↦ rw (here, map) (Memᴰ.tail rest)
      ]
]

only : {A : Type 0} (x y : A) (xs : List A) → xs ≡ y ∷ [] → Memᴰ x xs → x ≡ y
only x y xs e at = elim (subst (Memᴰ x) e at) [
  | Memᴰ.head same ↦ same
  | Memᴰ.tail later ↦ elim later [ ]
]

-- The one run, the one log, and what the scans of `finalizeAuditPackage` leave of the others.
module _ (subjects : List Subject) (run : AuditRun) (log : Located ActionLog)
    (runs : map Located.value (select as_run subjects) ≡ run ∷ [])
    (logs : map Located.value (select as_log subjects) ≡ log.value ∷ [])
    (own : log.value.run_id ≡ run.run_id)
    (entries : (id : String) → Memᴰ id log.value.entry_run_ids → id ≡ run.run_id) where
  bound_lem :
      (s : Subject) (c : Contract)
      → Memᴰ s subjects
      → s.contract ≡ c
      → strays run.run_id (bound_run c) ≡ false
      → IsBound run.run_id c
  bound_lem s (audit_run x) at e h =
      ap AuditRun.run_id (only x run _ runs (Mem-select as_run subjects s x at (ap as_run e)))
  bound_lem s (audit_pass x) at e h = same_run _ _ h
  bound_lem s (collector_execution x) at e h = same_run _ _ h
  bound_lem s (observation x) at e h = same_run _ _ h
  bound_lem s (evidence_reference x) at e h = same_run _ _ h
  bound_lem s (finding x) at e h = same_run _ _ h
  bound_lem s (collector_definition x) at e h = tt
  bound_lem s (rule_definition x) at e h = tt
  bound_lem s (action_log x) at e h =
      let same = only x log.value _ logs (Mem-select as_log subjects s x at (ap as_log e)) in
      (
        ap ActionLog.run_id same ∙ own,
        λ id m. entries id (subst (λ (y : ActionLog). Memᴰ id y.entry_run_ids) same m),
      )
  bound_lem s (consent_receipt id r) at e h = same_run _ _ h
  bound_lem s (reboot_continuation_state r) at e h = same_run _ _ h
  bound_lem s other_contract at e h = tt

-- What `finalizeAuditPackage` has compared with the run.
finalize_run-ids :
    (manifest : AuditManifest) (subjects : List Subject) (run : AuditRun) (log : Located ActionLog)
    → finalize_run manifest subjects run log ≡ accepts tt
    → (manifest.run_id ≡ run.run_id)
      × (log.value.run_id ≡ run.run_id)
      × (any (λ (s : Subject). strays run.run_id (bound_run s.contract)) subjects ≡ false)
      × ((id : String) → Memᴰ id log.value.entry_run_ids → id ≡ run.run_id)
unfolding finalize_run
finalize_run-ids manifest subjects run log h =
    let (ids, h1) = reject_if-accepts _ _ _ tt h in
    let (b, h2) = reject_if-accepts _ _ _ tt h1 in
    let (c, h3) = reject_if-accepts _ _ _ tt h2 in
    let (d, h4) = reject_if-accepts _ _ _ tt h3 in
    let (passes, ep, h5) = >>=-accepts _ _ tt h4 in
    let (e, h6) = >>-accepts _ _ tt h5 in
    let (consents, ec, h7) = >>=-accepts _ _ tt h6 in
    let (f, h8) = reject_if-accepts _ _ _ tt h7 in
    (
      (eq_iff manifest.run_id run.run_id).0 (not-false _ (first-false _ _ (first-false _ _ ids))),
      (eq_iff log.value.run_id run.run_id).0 (not-false _ (rest-false _ _ (first-false _ _ ids))),
      rest-false _ _ ids,
      λ id at.
          (eq_iff id run.run_id).0
            (not-false _ (any-none _ log.value.entry_run_ids id (rejected-false _ _ h8) at)),
    )

-- In an audit package that is accepted there is one run and one action log. The manifest names the
-- run, and so do the log and its entries and every pass, execution, observation, evidence, finding,
-- consent receipt and continuation state; every run, pass, execution, observation, evidence,
-- finding and log stands at the place of its kind; and every execution, observation, evidence and
-- finding that the run refers to is a member with the digest of the reference.
pub finalize_audit_package-Referenced :
    (verify_contract_integrity : Contract → Checked (Unit {0})) (manifest : AuditManifest)
    (subjects : List Subject)
    → finalize_audit_package verify_contract_integrity manifest subjects ≡ accepts tt
    → (run : AuditRun) × Referenced manifest subjects run
unfolding finalize_audit_package validate_object_references
finalize_audit_package-Referenced v manifest subjects h =
    let (a, ha) = >>-accepts _ _ tt h in
    let (paths, hp) = >>-accepts _ _ tt ha in
    let (run, log, runs, logs, hr) =
      with_one-sole (select as_run subjects) (select as_log subjects)
        (finalize_run manifest subjects) hp in
    let (named, own, scan, entries) = finalize_run-ids manifest subjects run log hr in
    let (passes, ep, links) = finalize_run-passes manifest subjects run log hr in
    let (x, hx) = >>-accepts _ _ tt (validate_graph_links-objects run subjects passes links) in
    let (o, ho) = >>-accepts _ _ tt hx in
    let (e, hf) = >>-accepts _ _ tt ho in
    (
      run,
      record {
        sole = runs;
        logged = (log.value, logs);
        named = named;
        bound = λ s at. bound_lem subjects run log runs logs own entries s s.contract at refl (
            any-none (λ (y : Subject). strays run.run_id (bound_run y.contract)) subjects s scan
              at);
        placed = λ s. validate_role_paths-IsPlaced subjects s paths;
        executions = validate_kind-Resolves _ _ _ _ x;
        observations = validate_kind-Resolves _ _ _ _ o;
        evidence = validate_kind-Resolves _ _ _ _ e;
        findings = validate_kind-Resolves _ _ _ _ hf;
      },
    )
