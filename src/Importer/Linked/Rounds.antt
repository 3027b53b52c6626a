-- ===== src/Importer/Linked/Rounds.antt =====
-- What the loops of `validateGraphLinks` accept.
use sec_app.Base.{String, true, false, not, List, [], ◌≡◌, subst, arith, Memᴰ, any}
use sec_app.Importer.Checked.{
  accepts, each, >>-accepts, >>=-accepts, reject_if-accepts, rejected-false, each-Mem, get,
  not-false,
}
use sec_app.Importer.Subjects.{
  AuditRun, AuditPass, Execution, Observation, Evidence, Finding, Subject, Located, select,
  as_execution, as_observation, as_evidence, as_finding, as_collector, as_rule,
}
use sec_app.Importer.References.{
  owner_key, Maps, index_subjects, Owned, own, is_owned_by, has_privilege, is_version, comes_from,
  shows, lists_observation, lists_evidence, check_execution, check_observation, check_evidence,
  check_finding, validate_graph_links,
}
use sec_app.Importer.Members.{
  pass_key, execution_key, observation_key, evidence_key, definition_key, has,
}
use sec_app.Importer.Linked.Index.{index_kind-same}

abbrev pub maps_of : List Subject → Maps
maps_of subjects = record {
  executions = select as_execution subjects;
  observations = select as_observation subjects;
  evidence = select as_evidence subjects;
  findings = select as_finding subjects;
  definitions = select as_collector subjects;
  rules = select as_rule subjects;
}

pub index_subjects-same :
    (subjects : List Subject) (m : Maps)
    → index_subjects subjects ≡ accepts m
    → m ≡ maps_of subjects
unfolding index_subjects
index_subjects-same subjects m h =
    let (a, ea, ha) = >>=-accepts _ _ m h in
    let (b, eb, hb) = >>=-accepts _ _ m ha in
    let (c, ec, hc) = >>=-accepts _ _ m hb in
    let (d, ed, hd) = >>=-accepts _ _ m hc in
    let (e, ee, he) = >>=-accepts _ _ m hd in
    let (f, ef, hf) = >>=-accepts _ _ m he in
    ground (
      arith,
      hf,
      index_kind-same execution_key [] _ a ea,
      index_kind-same observation_key [] _ b eb,
      index_kind-same evidence_key [] _ c ec,
      index_kind-same _ [] _ d ed,
      index_kind-same definition_key [] _ e ee,
      index_kind-same definition_key [] _ f ef,
    )

-- What one round accepts.
module _ (passes : List (Located AuditPass)) (m : Maps) where
  pub check_execution-accepts :
      (owned : List Owned) (x : Located Execution)
      → check_execution passes m owned x ≡ accepts tt
      → (is_owned_by (get owner_key owned x.value.execution_id) x.value.pass_id ≡ true)
        × (has_privilege (get pass_key passes x.value.pass_id) x.value.privilege ≡ true)
        × (is_version
              (get definition_key m.definitions x.value.collector_id)
              x.value.collector_version
              x.value.collector_definition_digest
            ≡ true)
        × ((id : String)
            → Memᴰ id x.value.observation_ids
            → comes_from (get observation_key m.observations id) x.value.execution_id ≡ true)
  unfolding check_execution
  check_execution-accepts owned x h =
      let (a, ha) = reject_if-accepts _ _ _ tt h in
      let (b, hb) = reject_if-accepts _ _ _ tt ha in
      (
        ground (arith, a),
        ground (arith, a),
        not-false _ b,
        λ id at. not-false _ (rejected-false _ _ (each-Mem _ _ id hb at)),
      )

  pub check_observation-accepts :
      (o : Located Observation)
      → check_observation passes m o ≡ accepts tt
      → (lists_observation
            (get execution_key m.executions o.value.execution_id)
            o.value.observation_id
          ≡ true)
        × ((id : String)
            → Memᴰ id o.value.evidence_ids
            → shows (get evidence_key m.evidence id) o.value.observation_id ≡ true)
  unfolding check_observation
  check_observation-accepts o h =
      let (a, ha) = reject_if-accepts _ _ _ tt h in
      (not-false _ a, λ id at. not-false _ (rejected-false _ _ (each-Mem _ _ id ha at)))

  pub check_evidence-accepts :
      (e : Located Evidence)
      → check_evidence passes m e ≡ accepts tt
      → lists_evidence
          (get observation_key m.observations e.value.observation_id)
          e.value.evidence_id
        ≡ true
  unfolding check_evidence
  check_evidence-accepts e h = not-false _ (rejected-false _ _ h)

  pub check_finding-accepts :
      (f : Located Finding)
      → check_finding passes m f ≡ accepts tt
      → (is_version
            (get definition_key m.rules f.value.rule_id)
            f.value.rule_version
            f.value.rule_definition_digest
          ≡ true)
        × (any (λ id. not (has observation_key m.observations id)) f.value.observation_ids ≡ false)
        × (any (λ id. not (has evidence_key m.evidence id)) f.value.evidence_ids ≡ false)
  unfolding check_finding
  check_finding-accepts f h =
      let e = rejected-false _ _ h in (ground (arith, e), ground (arith, e), ground (arith, e))

  -- What the loops of `validateGraphLinks` accept, with the map that `ownership` becomes.
  pub record Checks (owned : List Owned) : Type 0 where
    pub owners : own m.executions [] passes ≡ accepts owned
    pub by_execution : each (check_execution passes m owned) m.executions ≡ accepts tt
    pub by_observation : each (check_observation passes m) m.observations ≡ accepts tt
    pub by_evidence : each (check_evidence passes m) m.evidence ≡ accepts tt
    pub by_finding : each (check_finding passes m) m.findings ≡ accepts tt

pub validate_graph_links-Checks :
    (run : AuditRun) (subjects : List Subject) (passes : List (Located AuditPass))
    → validate_graph_links run subjects passes ≡ accepts tt
    → (owned : List Owned) × Checks passes (maps_of subjects) owned
unfolding validate_graph_links
validate_graph_links-Checks run subjects passes h =
    let (m, em, hm) = >>=-accepts _ _ tt h in
    let (owned, eo, ho) = >>=-accepts _ _ tt hm in
    let (a, ha) = >>-accepts _ _ tt ho in
    let (b, hb) = >>-accepts _ _ tt ha in
    let (c, hc) = >>-accepts _ _ tt hb in
    let (d, hd) = >>-accepts _ _ tt hc in
    (
      owned,
      subst (λ n. Checks passes n owned) (index_subjects-same subjects m em)
          (record {
            owners = eo;
            by_execution = a;
            by_observation = b;
            by_evidence = c;
            by_finding = d;
          }),
    )
