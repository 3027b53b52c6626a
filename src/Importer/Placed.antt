-- ===== src/Importer/Placed.antt =====
-- src/import/import-manifest.mjs: references, the run and the places of the subjects.
use Prim.Native.String
use sec_app.Base.{
  opt_eq-some, Bool, ◌||◌, refl, String, true, false, Option, some, List, [], ◌≡◌, subst, arith,
  Memᴰ, Option-cases, inl, inr,
}
use sec_app.Importer.Checked.{
  accepts, >>=-accepts, reject_if-accepts, rejected-false, each-Mem, get, get-Mem, not-false,
}
use sec_app.Importer.Subjects.{
  ObjectReference, Contract, audit_run, audit_pass, collector_execution, observation,
  evidence_reference, finding, collector_definition, rule_definition, action_log, consent_receipt,
  reboot_continuation_state, other_contract,
}
use sec_app.Importer.Members.{validate_kind}
use sec_app.Importer.Linked.Index.{index_kind-same}

-- Each reference has a member with its id and its digest.
pub Resolves :
    {A : Type 0} → (A → String) → (A → Option String) → List A → List ObjectReference → Type 0
Resolves {A} key digest members references =
    (r : ObjectReference)
    → Memᴰ r references
    → (x : A) × Memᴰ x members × (key x ≡ r.object_id) × (digest x ≡ some r.object_digest)

pub first-false : (a b : Bool) → a || b ≡ false → a ≡ false
first-false false b h = refl
first-false true b h = h

pub rest-false : (a b : Bool) → a || b ≡ false → b ≡ false
rest-false false b h = h
rest-false true b h = absurd (ground arith)

pub validate_kind-Resolves :
    {A : Type 0} (key : A → String) (digest : A → Option String) (members : List A)
    (references : List ObjectReference)
    → validate_kind key digest members references ≡ accepts tt
    → Resolves key digest members references
unfolding validate_kind Resolves
validate_kind-Resolves key digest members references h r at =
    let (index, ei, hi) = >>=-accepts _ _ tt h in
    let (a, ha) = reject_if-accepts _ _ _ tt hi in
    let same = index_kind-same key [] members index ei in
    let matches = rejected-false _ _ (each-Mem _ references r ha at) in
    elim (Option-cases (get key index r.object_id)) [
      | inl e ↦ absurd (ground (arith, e, matches))
      | inr (x, e) ↦
          let (member, named) = get-Mem key index r.object_id x e in
          (
            x,
            subst (Memᴰ x) same member,
            named,
            opt_eq-some (digest x) r.object_digest (not-false _ (rw e at matches)),
          )
    ]

-- `${folder}${id}.json`
abbrev pub named_in : String → String → String
named_in folder id = String.◌++◌ (String.◌++◌ folder id) ".json"

-- A contract that names a run names this one, and so do the entries of a log.
abbrev pub IsBound : String → Contract → Type 0
IsBound run (audit_run x) = x.run_id ≡ run
IsBound run (audit_pass x) = x.run_id ≡ run
IsBound run (collector_execution x) = x.run_id ≡ run
IsBound run (observation x) = x.run_id ≡ run
IsBound run (evidence_reference x) = x.run_id ≡ run
IsBound run (finding x) = x.run_id ≡ run
IsBound run (collector_definition x) = Unit
IsBound run (rule_definition x) = Unit
IsBound run (action_log x) = (x.run_id ≡ run) × ((id : String) → Memᴰ id x.entry_run_ids → id ≡ run)
IsBound run (consent_receipt id own) = own ≡ run
IsBound run (reboot_continuation_state own) = own ≡ run
IsBound run other_contract = Unit

-- A contract of a kind with a fixed place stands there, and evidence where it says.
abbrev pub IsPlaced : String → Contract → Type 0
IsPlaced path (audit_run x) = path ≡ "run.json"
IsPlaced path (audit_pass x) = path ≡ named_in "passes/" x.pass_id
IsPlaced path (collector_execution x) = path ≡ named_in "executions/" x.execution_id
IsPlaced path (observation x) = path ≡ named_in "observations/" x.observation_id
IsPlaced path (evidence_reference x) =
    (path ≡ named_in "evidence/" x.evidence_id) × (x.logical_path ≡ path)
IsPlaced path (finding x) = path ≡ named_in "findings/" x.finding_id
IsPlaced path (collector_definition x) = Unit
IsPlaced path (rule_definition x) = Unit
IsPlaced path (action_log x) = path ≡ "action-log/action-log.json"
IsPlaced path (consent_receipt id run) = Unit
IsPlaced path (reboot_continuation_state run) = Unit
IsPlaced path other_contract = Unit
