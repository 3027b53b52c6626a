-- ===== src/Assessment/Passed.antt =====
-- The observations that an assessment selects: what each of them has passed.
use sec_app.Base.{
  opt_eq-some, ℕ, Bool, true, false, Option, none, some, List, [], ◌∷◌, ◌++◌, ◌≡◌, ◌≢◌, ◌⊎◌, refl,
  sym, ap, ◌∙◌, subst, arith, inl, inr, Memᴰ, Bool-cases, str_eq, eq_iff, any, any-mem, last-Mem,
  if◌then◌else◌,
}
use sec_app.Assessment.{
  Domain, Profile, Observation, Execution, Import, collection_not_succeeded, Selected, Tally,
  Assessed, rejects, assesses, find_at, execution_of, is_mismatched, has_failed, is_foreign,
  other_domain, accept, in_domain, observe, chained, collect,
}
use sec_app.Assessment.Executed.{
  find_at-Mem, some-injective, Executed, execution_of-Mem, execution_of-none,
}

module _ (valid : Observation → Bool) (intact : Observation → Bool) (profile : Profile)
    (i : Import) where
  -- An observation of the import that passed the checks of its domain: one of the profile, of the
  -- observation's own area, whose schema and subject it has. Its execution, if the import has one,
  -- is of its run and lists it.
  pub record Passed (o : Observation) : Type 0 where
    pub domain : Domain
    pub profiled : Memᴰ domain profile.domains
    pub in_area : domain.area ≡ o.area
    pub in_schema : domain.schema_id ≡ o.data_schema
    pub imported : Memᴰ o i.observations
    pub subject_kind : o.subject_kind ≡ some "SecurityControl"
    pub subject_key : o.subject_key ≡ some domain.subject
    pub privacy : o.privacy_class ≡ "SensitiveSecurityData"
    pub validated : valid o ≡ true
    pub whole : intact o ≡ true
    pub executed :
        ((x : Execution) → Memᴰ x i.executions → x.execution_id ≢ o.execution_id)
        ⊎ ((x : Execution) × Executed i o x)

  -- Its collection succeeded: the execution did, at least in part, and a package has one.
  pub Collected : Observation → Type 0
  Collected o =
      ((x : Execution) × Executed i o x × Memᴰ x.state ("Succeeded" ∷ "Partial" ∷ []))
      ⊎ (((x : Execution) → Memᴰ x i.executions → x.execution_id ≢ o.execution_id)
          × (i.package_kind ≢ "AuditPackageZip"))

  pub record Good (s : Selected) : Type 0 where
    pub passed : (o : Observation) → s.observation ≡ some o → Passed o
    pub placed : (o : Observation) → s.observation ≡ some o → s.area ≡ o.area
    pub collected : (o : Observation) → s.observation ≡ some o → s.reason ≡ none → Collected o

  abbrev pub AllGood : Tally → Type 0
  AllGood t = (s : Selected) → Memᴰ s t.by_area → Good s

  -- What is assessed, if anything is, selects only observations that passed.
  abbrev pub Gives : Assessed Tally → Type 0
  Gives (rejects r) = Unit {0}
  Gives (assesses t) = AllGood t

  added :
      (t : Tally) (s : Selected)
      → AllGood t
      → Good s
      → AllGood (record t { by_area = t.by_area ++ s ∷ [] })
  added t s h k x at = elim (last-Mem x s t.by_area at) [
    | inl e ↦ subst Good (sym e) k
    | inr before ↦ h x before
  ]

  lookup : Observation → Option Execution
  lookup o = execution_of none i.executions o.execution_id

  found-Executed :
      (o : Observation) (x : Execution)
      → execution_of none i.executions o.execution_id ≡ some x
      → is_mismatched (some x) o ≡ false
      → Executed i o x
  found-Executed o x e h = elim (execution_of-Mem none i.executions o.execution_id x e) [
    | inl never ↦ absurd (ground arith)
    | inr (at, named) ↦ record {
      member = at;
      named = named;
      same_run = ground (arith, h, eq_iff x.run_id o.run_id);
      listed = any-mem o.observation_id x.observation_ids (ground (arith, h));
    }
  ]

  unfound :
      (o : Observation) (x : Execution)
      → execution_of none i.executions o.execution_id ≡ none
      → Memᴰ x i.executions
      → x.execution_id ≢ o.execution_id
  unfound o x e = (execution_of-none none i.executions o.execution_id x e).1

  -- What the execution of an observation is, and what it is where the collection did not fail.
  executed_lem :
      (o : Observation) (m : Option Execution)
      → execution_of none i.executions o.execution_id ≡ m
      → is_mismatched m o ≡ false
      → ((x : Execution) → Memᴰ x i.executions → x.execution_id ≢ o.execution_id)
        ⊎ ((x : Execution) × Executed i o x)
  executed_lem o none e h = inl (λ x. unfound o x e)
  executed_lem o (some x) e h = inr (x, found-Executed o x e h)

  collected_lem :
      (o : Observation) (m : Option Execution)
      → execution_of none i.executions o.execution_id ≡ m
      → is_mismatched m o ≡ false
      → has_failed i.package_kind m ≡ false
      → Collected o
  unfolding Collected
  collected_lem o none e h k =
      inr (λ x. unfound o x e, λ zip. ground (arith, k, eq_iff i.package_kind "AuditPackageZip"))
  collected_lem o (some x) e h k = inl (
    x,
    found-Executed o x e h,
    any-mem x.state ("Succeeded" ∷ "Partial" ∷ []) (ground (arith, k)),
  )

  -- The domain of an observation, by its area and its schema.
  record Domained (o : Observation) (d : Domain) : Type 0 where
    pub profiled : Memᴰ d profile.domains
    pub in_area : d.area ≡ o.area
    pub in_schema : d.schema_id ≡ o.data_schema

  passed_lem :
      (d : Domain) (o : Observation)
      → Memᴰ o i.observations
      → Domained o d
      → is_foreign d o ≡ false
      → valid o ≡ true
      → intact o ≡ true
      → is_mismatched (execution_of none i.executions o.execution_id) o ≡ false
      → Passed o
  passed_lem d o at dom native v w m = record {
    domain = d;
    profiled = dom.profiled;
    in_area = dom.in_area;
    in_schema = dom.in_schema;
    imported = at;
    subject_kind = opt_eq-some o.subject_kind "SecurityControl" (ground (arith, native));
    subject_key = opt_eq-some o.subject_key d.subject (ground (arith, native));
    privacy = ground (arith, native, eq_iff o.privacy_class "SensitiveSecurityData");
    validated = v;
    whole = w;
    executed = executed_lem o (execution_of none i.executions o.execution_id) refl m;
  }

  selected_lem :
      (d : Domain) (o : Observation)
      → Domained o d
      → Passed o
      → is_mismatched (execution_of none i.executions o.execution_id) o ≡ false
      → Good (record {
        area = d.area;
        observation = some o;
        reason =
            if has_failed i.package_kind (execution_of none i.executions o.execution_id)
            then some collection_not_succeeded
            else none;
      })
  selected_lem d o dom p m = record {
    passed = λ x e. subst Passed (some-injective o x e) p;
    placed = λ x e. dom.in_area ∙ ap Observation.area (some-injective o x e);
    collected = λ x e r. subst Collected (some-injective o x e) (
        collected_lem o (execution_of none i.executions o.execution_id) refl m
          (elim (Bool-cases
            (has_failed i.package_kind (execution_of none i.executions o.execution_id))) [
              | inl f ↦ absurd (ground (arith, f, r))
              | inr f ↦ f
            ]));
  }

  accept-Gives :
      (t : Tally) (d : Domain) (o : Observation)
      → Memᴰ o i.observations
      → Domained o d
      → AllGood t
      → Gives (
          accept valid intact profile i.package_kind
            (execution_of none i.executions o.execution_id)
            t
            d
            o)
  unfolding accept
  accept-Gives t d o at dom h = elim (Bool-cases (is_foreign d o)) [
    | inl e ↦ rw e tt
    | inr native ↦ rw native (elim (Bool-cases (valid o)) [
      | inr e ↦ rw e tt
      | inl v ↦ rw v (elim (Bool-cases (intact o)) [
        | inr e ↦ rw e tt
        | inl w ↦
            rw w
              (elim (Bool-cases (is_mismatched (execution_of none i.executions o.execution_id) o)) [
                | inl e ↦ rw e tt
                | inr m ↦
                    rw m (added t _ h (selected_lem d o dom (passed_lem d o at dom native v w m) m))
              ])
      ])
    ])
  ]

  in_domain-Gives :
      (t : Tally) (d : Option (ℕ × Domain)) (o : Observation)
      → find_at (λ (x : Domain). str_eq x.area o.area) profile.domains 0 ≡ d
      → Memᴰ o i.observations
      → AllGood t
      → Gives (
          in_domain valid intact profile i.package_kind
            (execution_of none i.executions o.execution_id)
            t
            d
            o)
  in_domain-Gives t none o e at h = h
  in_domain-Gives t (some (n, d)) o e at h =
      elim (Bool-cases (any (λ (s : Selected). str_eq s.area d.area) t.by_area)) [
        | inl twice ↦ rw twice tt
        | inr once ↦ rw once (elim (Bool-cases (str_eq o.data_schema d.schema_id)) [
          | inr f ↦ rw f (
              added t _ h (record {
                passed = λ x k. absurd (ground (arith, k));
                placed = λ x k. absurd (ground (arith, k));
                collected = λ x k. absurd (ground (arith, k));
              }))
          | inl f ↦
              let (listed, area) =
                find_at-Mem (λ (x : Domain). str_eq x.area o.area) profile.domains 0 n d e in
              rw f (
                accept-Gives t d o at
                  (record {
                    profiled = listed;
                    in_area = (eq_iff d.area o.area).0 area;
                    in_schema = sym ((eq_iff o.data_schema d.schema_id).0 f);
                  })
                  h)
        ])
      ]

  observe-Gives :
      (t : Tally) (o : Observation)
      → Memᴰ o i.observations
      → AllGood t
      → Gives (observe valid intact profile i t o)
  unfolding observe
  observe-Gives t o at h =
      let domain = find_at (λ (d : Domain). str_eq d.area o.area) profile.domains 0 in
      let by_schema =
        find_at (λ (d : Domain). str_eq d.schema_id o.data_schema) profile.domains 0 in
      elim (Bool-cases (other_domain by_schema domain)) [
        | inl e ↦ rw e tt
        | inr e ↦ rw e (in_domain-Gives t domain o refl at h)
      ]

  chained-Gives :
      (m : Assessed Tally) (next : Tally → Assessed Tally)
      → Gives m
      → ((t : Tally) → AllGood t → Gives (next t))
      → Gives (chained valid intact profile m next)
  chained-Gives (rejects r) next h k = tt
  chained-Gives (assesses t) next h k = k t h

  pub collect-Gives :
      (t : Tally) (os : List Observation)
      → ((o : Observation) → Memᴰ o os → Memᴰ o i.observations)
      → AllGood t
      → Gives (collect valid intact profile i t os)
  unfolding collect
  collect-Gives t [] at h = h
  collect-Gives t (o ∷ os) at h =
      chained-Gives (observe valid intact profile i t o) (λ n. collect valid intact profile i n os)
        (observe-Gives t o (at o (Memᴰ.head refl)) h)
        (λ n k. collect-Gives n os (λ x m. at x (Memᴰ.tail m)) k)
