-- ===== src/Importer/Accepted.antt =====
-- What is known of an audit package once `finalizeAuditPackage` accepts it.
use sec_app.Base.{
  refl, map, ◌==◌, ◌≤◌, Bool, true, false, not, ◌||◌, none, List, [], ◌∷◌, ◌≡◌, ap, ◌∙◌, subst,
  arith,
}
use sec_app.Importer.Checked.{
  Checked, accepts, >>-accepts, >>=-accepts, reject_if-accepts, not-false,
}
use sec_app.Importer.Subjects.{
  AuditRun, AuditPass, ActionLog, PassReference, Contract, Subject, AuditManifest, Located, select,
  as_pass, as_run, as_log,
}
use sec_app.Importer.References.{
  validate_graph_links, finalize_run, with_one, finalize_audit_package,
}
use sec_app.Importer.Passes.{
  Ordered, resolve, standards, repeats_optional, order_from, check_passes, validate_passes,
}
use sec_app.Importer.Members.{pass_key, index_kind, exact_ids}
use sec_app.Importer.Linked.Index.{index_kind-same}

pub with_one-sole :
    (runs : List (Located AuditRun)) (logs : List (Located ActionLog))
    (k : AuditRun → Located ActionLog → Checked (Unit {0}))
    → with_one runs logs k ≡ accepts tt
    → (run : AuditRun) × (log : Located ActionLog) × (map Located.value runs ≡ run ∷ [])
      × (map Located.value logs ≡ log.value ∷ [])
      × (k run log ≡ accepts tt)
with_one-sole (run ∷ []) (log ∷ []) k h = (run.value, log, refl, refl, h)
with_one-sole [] logs k h = absurd (ground arith)
with_one-sole (r ∷ s ∷ runs) logs k h = absurd (ground arith)
with_one-sole (r ∷ []) [] k h = absurd (ground arith)
with_one-sole (r ∷ []) (l ∷ n ∷ logs) k h = absurd (ground arith)

-- What an accepted package's run passed.
pub finalize_run-passes :
    (manifest : AuditManifest) (subjects : List Subject) (run : AuditRun) (log : Located ActionLog)
    → finalize_run manifest subjects run log ≡ accepts tt
    → (passes : List (Located AuditPass)) × (validate_passes run subjects ≡ accepts passes)
      × (validate_graph_links run subjects passes ≡ accepts tt)
unfolding finalize_run
finalize_run-passes manifest subjects run log h =
    let (a, ha) = reject_if-accepts _ _ _ tt h in
    let (b, hb) = reject_if-accepts _ _ _ tt ha in
    let (c, hc) = reject_if-accepts _ _ _ tt hb in
    let (d, hd) = reject_if-accepts _ _ _ tt hc in
    let (passes, ep, hp) = >>=-accepts _ _ tt hd in (passes, ep, (>>-accepts _ _ tt hp).0)

pub finalize-run :
    (verify_contract_integrity : Contract → Checked (Unit {0})) (manifest : AuditManifest)
    (subjects : List Subject)
    → finalize_audit_package verify_contract_integrity manifest subjects ≡ accepts tt
    → (run : AuditRun) × (log : Located ActionLog) × (finalize_run manifest subjects run log
        ≡ accepts tt)
unfolding finalize_audit_package
finalize-run v manifest subjects h =
    let (a, ha) = >>-accepts _ _ tt h in
    let (paths, hp) = >>-accepts _ _ tt ha in
    let (run, log, sole, logs, hr) =
      with_one-sole (select as_run subjects) (select as_log subjects)
        (finalize_run manifest subjects) hp in
    (run, log, hr)

pub one-le :
    (xs : List Ordered) (b : Bool) → not (standards xs == 1) || b ≡ false → standards xs ≤ 1
one-le xs b h = ground arith

-- What `validatePasses` has found of the passes and the run's references to them.
pub record Validated (run : AuditRun) (subjects : List Subject) (ordered : List Ordered)
    : Type 0 where
  pub index : index_kind pass_key [] (select as_pass subjects) ≡ accepts (select as_pass subjects)
  pub exact :
      exact_ids pass_key (select as_pass subjects) (map PassReference.pass_id run.pass_references)
      ≡ true
  pub resolved : resolve (select as_pass subjects) run.pass_references ≡ accepts ordered
  pub one : standards ordered ≤ 1
  pub single : repeats_optional ordered ≡ false
  pub checked : check_passes (order_from none 0 ordered) 0 ordered ≡ accepts tt

some_passes : (x y : List (Located AuditPass)) → accepts x ≡ accepts y → y ≡ x
some_passes x y h = ground arith

pub validate_passes-Validated :
    (run : AuditRun) (subjects : List Subject) (passes : List (Located AuditPass))
    → validate_passes run subjects ≡ accepts passes
    → (ordered : List Ordered) × Validated run subjects ordered × (passes ≡ select as_pass subjects)
unfolding validate_passes
validate_passes-Validated run subjects passes h =
    let (found, ef, hf) = >>=-accepts _ _ passes h in
    let (a, ha) = reject_if-accepts _ _ _ passes hf in
    let (ordered, eo, ho) = >>=-accepts _ _ passes ha in
    let (b, hb) = reject_if-accepts _ _ _ passes ho in
    let (c, hc) = reject_if-accepts _ _ _ passes hb in
    let (d, hd) = reject_if-accepts _ _ _ passes hc in
    let (e, he) = >>-accepts _ _ passes hd in
    let members = index_kind-same pass_key [] (select as_pass subjects) found ef in
    let ids = map PassReference.pass_id run.pass_references in
    (
      ordered,
      record {
        index = ef ∙ ap accepts members;
        exact = subst (λ t. exact_ids pass_key t ids ≡ true) members (not-false _ a);
        resolved = subst (λ t. resolve t run.pass_references ≡ accepts ordered) members eo;
        one = one-le ordered _ b;
        single = c;
        checked = e;
      },
      some_passes found passes he ∙ members,
    )
