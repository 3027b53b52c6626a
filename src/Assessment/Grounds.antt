-- ===== src/Assessment/Grounds.antt =====
-- What a row of an assessment that is tested stands on.
use sec_app.Base.{
  opt_eq-some, String, Bool, true, not, Option, none, some, List, [], ◌≡◌, ◌≢◌, ◌⊎◌, refl, sym, ap,
  ◌∙◌, subst, arith, inl, inr, Memᴰ, Bool-cases, str_eq, opt_eq, eq_iff, eq_refl, any-mem, any-none,
  any-some, all-Mem, map-Mem,
}
use sec_app.Assessment.{
  Check, Rule, Profile, Observation, Import, Reason, concern, no_concern_reported, not_tested,
  reported_state, Selected, Tally, Row, Report, Assessed, rejects, assesses, find, value_of,
  is_listed, is_known, has_concern, known_row, observed_row, selected_row, row_of, run_ids_differ,
  report_on, concluded, assess_windows_protection,
}
use sec_app.Assessment.Passed.{Passed, Collected, Good, AllGood, Gives, collect-Gives}
use sec_app.Assessment.Executed.{find-Mem, assesses-injective}

module _ (valid : Observation → Bool) (intact : Observation → Bool) (profile : Profile)
    (i : Import) where
  abbrev value : Observation → Check → Option String
  value o c = value_of valid intact profile o.fields c.field

  -- How a rule comes out on an observation: a concern, as severe as the rule, where a field differs
  -- from what the rule expects, and none where all are as expected.
  pub Told : Rule → Observation → Row → Type 0
  Told r o x =
      ((x.outcome ≡ concern)
        × (x.severity ≡ r.severity)
        × ((c : Check) × Memᴰ c r.checks × (value o c ≢ some c.expected)))
      ⊎ ((x.outcome ≡ no_concern_reported)
          × (x.severity ≡ "Info")
          × ((c : Check) → Memᴰ c r.checks → value o c ≡ some c.expected))

  -- What a row that is tested stands on: an observation of the rule's area that passed the checks and
  -- was collected, in which every field of the rule has a known value, and that the row names.
  pub record Grounded (x : Row) : Type 0 where
    pub rule : Rule
    pub observation : Observation
    pub listed : Memᴰ rule profile.rules
    pub in_area : observation.area ≡ rule.area
    pub passed : Passed valid intact profile i observation
    pub collected : Collected valid intact profile i observation
    pub known :
        (c : Check)
        → Memᴰ c rule.checks
        → (v : String) × (value observation c ≡ some v) × Memᴰ v c.known
    pub rule_named : x.rule_id ≡ rule.id
    pub source_named : x.source ≡ some observation.observation_id
    pub reported : x.reason ≡ reported_state
    pub told : Told rule observation x

  is_listed-Mem :
      (known : List String) (o : Option String)
      → is_listed valid intact profile known o ≡ true
      → (v : String) × (o ≡ some v) × Memᴰ v known
  is_listed-Mem known none h = absurd (ground arith)
  is_listed-Mem known (some v) h = (v, refl, any-mem v known h)

  opt_eq_refl : (o : Option String) (s : String) → o ≡ some s → opt_eq o (some s) ≡ true
  opt_eq_refl o s e = rw e (eq_refl s)

  known_row-Told : (r : Rule) (o : Observation) → Told r o (known_row valid intact profile r o)
  unfolding Told
  known_row-Told r o = elim (Bool-cases (has_concern valid intact profile o r)) [
    | inl e ↦
        let (c, at, differs) =
          any-some (λ (c : Check). not (opt_eq (value o c) (some c.expected))) r.checks e in
        rw e (
          inl (
            refl,
            refl,
            (c, at, λ same. ground (arith, differs, opt_eq_refl (value o c) c.expected same)),
          ))
    | inr e ↦ rw e (
        inr (
          refl,
          refl,
          λ c at. opt_eq-some (value o c) c.expected (
              ground (
                arith,
                any-none (λ (c : Check). not (opt_eq (value o c) (some c.expected))) r.checks c e
                    at,
              )),
        ))
  ]

  observed-Grounded :
      (r : Rule) (o : Observation) (why : Option Reason)
      → Memᴰ r profile.rules
      → o.area ≡ r.area
      → Passed valid intact profile i o
      → (why ≡ none → Collected valid intact profile i o)
      → Row.outcome (observed_row valid intact profile r o why) ≢ not_tested
      → Grounded (observed_row valid intact profile r o why)
  observed-Grounded r o (some why) at area p k ne = absurd (ne refl)
  observed-Grounded r o none at area p k ne =
      elim (Bool-cases (is_known valid intact profile o r)) [
        | inl e ↦ rw e (record {
          rule = r;
          observation = o;
          listed = at;
          in_area = area;
          passed = p;
          collected = k refl;
          known = λ c m. is_listed-Mem c.known (value o c) (
              all-Mem (λ (c : Check). is_listed valid intact profile c.known (value o c)) r.checks c
                e m);
          rule_named = refl;
          source_named = refl;
          reported = refl;
          told = known_row-Told r o;
        })
        | inr e ↦ absurd (ne (rw e refl))
      ]

  selected-Grounded :
      (r : Rule) (s : Selected) (o : Option Observation)
      → Memᴰ r profile.rules
      → s.area ≡ r.area
      → s.observation ≡ o
      → Good valid intact profile i s
      → Row.outcome (selected_row valid intact profile r (some s)) ≢ not_tested
      → Grounded (selected_row valid intact profile r (some s))
  selected-Grounded r s none at area e g ne = absurd (ne (rw e refl))
  selected-Grounded r s (some o) at area e g ne = rw e (
      observed-Grounded r o s.reason at (sym (g.placed o e) ∙ area) (g.passed o e) (g.collected o e)
        (rw e at ne))

  row_of-Grounded :
      (t : Tally) (r : Rule) (s : Option Selected)
      → find (λ (x : Selected). str_eq x.area r.area) t.by_area ≡ s
      → Memᴰ r profile.rules
      → AllGood valid intact profile i t
      → Row.outcome (selected_row valid intact profile r s) ≢ not_tested
      → Grounded (selected_row valid intact profile r s)
  row_of-Grounded t r none e at h ne = absurd (ne refl)
  row_of-Grounded t r (some s) e at h ne =
      let (member, area) = find-Mem (λ (x : Selected). str_eq x.area r.area) t.by_area s e in
      selected-Grounded r s s.observation at ((eq_iff s.area r.area).0 area) refl (h s member) ne

  report-Grounded :
      (t : Tally) (x : Row)
      → AllGood valid intact profile i t
      → Memᴰ x (report_on valid intact profile i t).rows
      → x.outcome ≢ not_tested
      → Grounded x
  unfolding report_on row_of
  report-Grounded t x h at ne =
      let (r, listed, e) = map-Mem (row_of valid intact profile t.by_area) profile.rules x at in
      subst Grounded (sym e) (
        row_of-Grounded t r (find (λ (s : Selected). str_eq s.area r.area) t.by_area) refl listed h
          (λ k. ne (ap Row.outcome e ∙ k)))

  concluded-Grounded :
      (m : Assessed Tally) (report : Report) (x : Row)
      → Gives valid intact profile i m
      → concluded valid intact profile i m ≡ assesses report
      → Memᴰ x report.rows
      → x.outcome ≢ not_tested
      → Grounded x
  concluded-Grounded (rejects r) report x h e at ne = ground arith
  concluded-Grounded (assesses t) report x h e at ne =
      elim (Bool-cases (run_ids_differ valid intact profile i.observations)) [
        | inl d ↦ let k = rw d at e in ground arith
        | inr d ↦
            let same : report_on valid intact profile i t ≡ report =
              assesses-injective _ report (rw d at e) in
            report-Grounded t x h (subst (λ y. Memᴰ x (Report.rows y)) (sym same) at) ne
      ]

-- A row of an assessment that is tested stands on an observation of the import, which it names, of the
-- area of the row's rule: it has the schema and the subject that the profile wants in that area and
-- passed the local schema and its digest; it belongs to an execution of its run that lists it and
-- succeeded at least in part, or, outside an audit package, to none of the import; each field of the
-- rule has a known value in it; and the row is a concern, with the rule's severity, if a field
-- differs from what the rule expects, and otherwise reports none.
pub assess_windows_protection-Grounded :
    (valid intact : Observation → Bool) (profile : Profile) (i : Import) (report : Report) (x : Row)
    → assess_windows_protection valid intact profile i ≡ assesses report
    → Memᴰ x report.rows
    → x.outcome ≢ not_tested
    → Grounded valid intact profile i x
unfolding assess_windows_protection
assess_windows_protection-Grounded valid intact profile i report x h at ne =
    concluded-Grounded valid intact profile i _ report x
      (collect-Gives valid intact profile i (record { by_area = []; ignored = 0 }) i.observations
        (λ o k. k) (λ s k. elim k [ ]))
      h at ne
