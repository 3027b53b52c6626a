-- ===== src/Importer/Linked/Found.antt =====
-- What the looked up members of an audit package say of their ids.
use sec_app.Base.{String, true, List, ◌≡◌, arith, Memᴰ, Option-cases, inl, inr, eq_iff}
use sec_app.Importer.Checked.{get, get-Mem}
use sec_app.Importer.Subjects.{Execution, Observation, Evidence, Definition, Located}
use sec_app.Importer.References.{
  count_id, is_version, comes_from, shows, lists_observation, lists_evidence,
}
use sec_app.Importer.Members.{execution_key, observation_key, evidence_key, definition_key}

-- A definition of the version and the digest that are named.
pub record Defined (members : List (Located Definition)) (id version digest : String) : Type 0 where
  pub definition : Located Definition
  pub member : Memᴰ definition members
  pub named : definition.value.id ≡ id
  pub versioned : definition.value.version ≡ version
  pub whole : definition.value.object_digest ≡ digest

pub is_version-Defined :
    (members : List (Located Definition)) (id version digest : String)
    → is_version (get definition_key members id) version digest ≡ true
    → Defined members id version digest
is_version-Defined members id version digest h =
    elim (Option-cases (get definition_key members id)) [
      | inl e ↦ absurd (ground (arith, e, h))
      | inr (x, e) ↦
          let (at, same) = get-Mem definition_key members id x e in
          record {
            definition = x;
            member = at;
            named = same;
            versioned = ground (arith, e, h, eq_iff x.value.version version);
            whole = ground (arith, e, h, eq_iff x.value.object_digest digest);
          }
    ]

pub comes_from-Mem :
    (xs : List (Located Observation)) (id origin : String)
    → comes_from (get observation_key xs id) origin ≡ true
    → (o : Located Observation) × Memᴰ o xs
      × (o.value.observation_id ≡ id)
      × (o.value.execution_id ≡ origin)
comes_from-Mem xs id origin h = elim (Option-cases (get observation_key xs id)) [
  | inl e ↦ absurd (ground (arith, e, h))
  | inr (x, e) ↦
      let (at, same) = get-Mem observation_key xs id x e in
      (x, at, same, ground (arith, e, h, eq_iff x.value.execution_id origin))
]

pub shows-Mem :
    (xs : List (Located Evidence)) (id origin : String)
    → shows (get evidence_key xs id) origin ≡ true
    → (e : Located Evidence) × Memᴰ e xs
      × (e.value.evidence_id ≡ id)
      × (e.value.observation_id ≡ origin)
shows-Mem xs id origin h = elim (Option-cases (get evidence_key xs id)) [
  | inl e ↦ absurd (ground (arith, e, h))
  | inr (x, e) ↦
      let (at, same) = get-Mem evidence_key xs id x e in
      (x, at, same, ground (arith, e, h, eq_iff x.value.observation_id origin))
]

pub lists_observation-Mem :
    (xs : List (Located Execution)) (id o : String)
    → lists_observation (get execution_key xs id) o ≡ true
    → (x : Located Execution) × Memᴰ x xs
      × (x.value.execution_id ≡ id)
      × (count_id o x.value.observation_ids ≡ 1)
lists_observation-Mem xs id o h = elim (Option-cases (get execution_key xs id)) [
  | inl e ↦ absurd (ground (arith, e, h))
  | inr (x, e) ↦
      let (at, same) = get-Mem execution_key xs id x e in (x, at, same, ground (arith, e, h))
]

pub lists_evidence-Mem :
    (xs : List (Located Observation)) (id e : String)
    → lists_evidence (get observation_key xs id) e ≡ true
    → (o : Located Observation) × Memᴰ o xs
      × (o.value.observation_id ≡ id)
      × (count_id e o.value.evidence_ids ≡ 1)
lists_evidence-Mem xs id v h = elim (Option-cases (get observation_key xs id)) [
  | inl e ↦ absurd (ground (arith, e, h))
  | inr (x, e) ↦
      let (at, same) = get-Mem observation_key xs id x e in (x, at, same, ground (arith, e, h))
]
