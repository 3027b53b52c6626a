-- ===== src/Importer/Linked/Links.antt =====
-- The references of an accepted audit package, from both ends.
use sec_app.Base.{
  any-none, String, true, some, List, [], ◌≡◌, ◌∙◌, subst, arith, Memᴰ, Option-cases, inl, inr,
  eq_iff,
}
use sec_app.Importer.Checked.{Checked, accepts, each-Mem, get, get-Mem, not-false}
use sec_app.Importer.Subjects.{
  AuditPass, Execution, Observation, Evidence, Finding, Contract, Subject, AuditManifest, Located,
  select, as_pass, as_execution, as_observation, as_evidence, as_finding, as_collector, as_rule,
}
use sec_app.Importer.References.{owner_key, Owned, count_id, is_owned_by, finalize_audit_package}
use sec_app.Importer.Members.{pass_key, observation_key, evidence_key, index_kind}
use sec_app.Importer.Linked.Index.{get-own, has-Mem}
use sec_app.Importer.Linked.Owned.{IsListed, own-IsListed}
use sec_app.Importer.Linked.Found.{
  Defined, is_version-Defined, comes_from-Mem, shows-Mem, lists_observation-Mem, lists_evidence-Mem,
}
use sec_app.Importer.Linked.Rounds.{
  maps_of, check_execution-accepts, check_observation-accepts, check_evidence-accepts,
  check_finding-accepts, Checks, validate_graph_links-Checks,
}
use sec_app.Importer.Accepted.{validate_passes-Validated, finalize_run-passes, finalize-run}

-- What the members say of each other: an execution belongs to a pass that lists it and has its privilege,
-- runs a known collector, and has the observations that it lists; an observation is listed once by
-- its execution and has the evidence that it lists; evidence is listed once by its observation; a
-- finding names a rule, observations and evidence of the package.
pub record Linked (subjects : List Subject) : Type 0 where
  pub passed :
      (x : Located Execution)
      → Memᴰ x (select as_execution subjects)
      → (p : Located AuditPass) × Memᴰ p (select as_pass subjects)
        × (p.value.pass_id ≡ x.value.pass_id)
        × Memᴰ x.value.execution_id p.value.collector_execution_ids
        × (p.value.privilege_class ≡ x.value.privilege)
  pub collected :
      (x : Located Execution)
      → Memᴰ x (select as_execution subjects)
      → Defined
          (select as_collector subjects)
          x.value.collector_id
          x.value.collector_version
          x.value.collector_definition_digest
  pub observed :
      (x : Located Execution) (id : String)
      → Memᴰ x (select as_execution subjects)
      → Memᴰ id x.value.observation_ids
      → (o : Located Observation) × Memᴰ o (select as_observation subjects)
        × (o.value.observation_id ≡ id)
        × (o.value.execution_id ≡ x.value.execution_id)
  pub executed :
      (o : Located Observation)
      → Memᴰ o (select as_observation subjects)
      → (x : Located Execution) × Memᴰ x (select as_execution subjects)
        × (x.value.execution_id ≡ o.value.execution_id)
        × (count_id o.value.observation_id x.value.observation_ids ≡ 1)
  pub evidenced :
      (o : Located Observation) (id : String)
      → Memᴰ o (select as_observation subjects)
      → Memᴰ id o.value.evidence_ids
      → (e : Located Evidence) × Memᴰ e (select as_evidence subjects)
        × (e.value.evidence_id ≡ id)
        × (e.value.observation_id ≡ o.value.observation_id)
  pub shown :
      (e : Located Evidence)
      → Memᴰ e (select as_evidence subjects)
      → (o : Located Observation) × Memᴰ o (select as_observation subjects)
        × (o.value.observation_id ≡ e.value.observation_id)
        × (count_id e.value.evidence_id o.value.evidence_ids ≡ 1)
  pub ruled :
      (f : Located Finding)
      → Memᴰ f (select as_finding subjects)
      → Defined
          (select as_rule subjects)
          f.value.rule_id
          f.value.rule_version
          f.value.rule_definition_digest
  pub founded :
      (f : Located Finding) (id : String)
      → Memᴰ f (select as_finding subjects)
      → Memᴰ id f.value.observation_ids
      → (o : Located Observation) × Memᴰ o (select as_observation subjects)
        × (o.value.observation_id ≡ id)
  pub supported :
      (f : Located Finding) (id : String)
      → Memᴰ f (select as_finding subjects)
      → Memᴰ id f.value.evidence_ids
      → (e : Located Evidence) × Memᴰ e (select as_evidence subjects) × (e.value.evidence_id ≡ id)

-- The pass that owns an execution is the pass that the execution names.
owned-Mem :
    (passes : List (Located AuditPass)) (owned : List Owned) (id pass : String)
    → ((o : Owned) → Memᴰ o owned → IsListed passes o)
    → is_owned_by (get owner_key owned id) pass ≡ true
    → (p : Located AuditPass) × Memᴰ p passes
      × (p.value.pass_id ≡ pass)
      × Memᴰ id p.value.collector_execution_ids
owned-Mem passes owned id pass all h = elim (Option-cases (get owner_key owned id)) [
  | inl e ↦ absurd (ground (arith, e, h))
  | inr (o, e) ↦
      let (at, same) = get-Mem owner_key owned id o e in
      let (p, member, named, listed) = all o at in
      (
        p,
        member,
        named ∙ ground (arith, e, h, eq_iff o.1 pass),
        subst (λ x. Memᴰ x p.value.collector_execution_ids) same listed,
      )
]

Checks-Linked :
    (subjects : List Subject) (owned : List Owned)
    → index_kind pass_key [] (select as_pass subjects) ≡ accepts (select as_pass subjects)
    → Checks (select as_pass subjects) (maps_of subjects) owned
    → Linked subjects
Checks-Linked subjects owned distinct c =
    let passes = select as_pass subjects in
    let m = maps_of subjects in
    let execution = λ (x : Located Execution) (at : Memᴰ x (select as_execution subjects)).
      check_execution-accepts passes m owned x (each-Mem _ _ x c.by_execution at) in
    let observation = λ (o : Located Observation) (at : Memᴰ o (select as_observation subjects)).
      check_observation-accepts passes m o (each-Mem _ _ o c.by_observation at) in
    let finding = λ (f : Located Finding) (at : Memᴰ f (select as_finding subjects)).
      check_finding-accepts passes m f (each-Mem _ _ f c.by_finding at) in
    record {
      passed = λ x at.
          let (p, member, named, listed) =
            owned-Mem passes owned x.value.execution_id x.value.pass_id
              (λ o k. own-IsListed m.executions passes owned o c.owners k) (execution x at).0 in
          let own_key : get pass_key passes x.value.pass_id ≡ some p =
            subst (λ id. get pass_key passes id ≡ some p) named
              (get-own pass_key passes passes p distinct member) in
          (
            p,
            member,
            named,
            listed,
            ground (
              arith,
              own_key,
              (execution x at).1,
              eq_iff p.value.privilege_class x.value.privilege,
            ),
          );
      collected = λ x at. is_version-Defined _ _ _ _ (execution x at).2;
      observed = λ x id at listed. comes_from-Mem _ id _ ((execution x at).3 id listed);
      executed = λ o at. lists_observation-Mem _ _ _ (observation o at).0;
      evidenced = λ o id at listed. shows-Mem _ id _ ((observation o at).1 id listed);
      shown = λ e at.
          lists_evidence-Mem _ _ _
            (check_evidence-accepts passes m e (each-Mem _ _ e c.by_evidence at));
      ruled = λ f at. is_version-Defined _ _ _ _ (finding f at).0;
      founded = λ f id at listed.
          has-Mem observation_key _ id (not-false _ (any-none _ _ id (finding f at).1 listed));
      supported = λ f id at listed.
          has-Mem evidence_key _ id (not-false _ (any-none _ _ id (finding f at).2 listed));
    }

-- In an audit package that is accepted, every execution belongs to a pass that lists it and has its
-- privilege, and runs a collector of the package in its version and digest; it has the observations
-- that it lists, and each observation is listed exactly once by its execution; each observation has
-- the evidence that it lists, and each evidence is listed exactly once by its observation; each
-- finding names a rule of the package in its version and digest, and observations and evidence of the package.
pub finalize_audit_package-Linked :
    (verify_contract_integrity : Contract → Checked (Unit {0})) (manifest : AuditManifest)
    (subjects : List Subject)
    → finalize_audit_package verify_contract_integrity manifest subjects ≡ accepts tt
    → Linked subjects
finalize_audit_package-Linked v manifest subjects h =
    let (run, log, hr) = finalize-run v manifest subjects h in
    let (passes, ep, hp) = finalize_run-passes manifest subjects run log hr in
    let (ordered, valid, same) = validate_passes-Validated run subjects passes ep in
    let (owned, c) = validate_graph_links-Checks run subjects passes hp in
    Checks-Linked subjects owned valid.index (subst (λ p. Checks p (maps_of subjects) owned) same c)
