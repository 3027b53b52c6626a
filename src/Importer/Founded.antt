-- ===== src/Importer/Founded.antt =====
-- The prerequisites of the passes of an accepted audit package: they have no cycle.
use mathlib.Core.WellFounded.{Acc}
use sec_app.Base.{
  any-none, ℕ, zero, suc, ◌+◌, ◌≤◌, ◌<◌, String, false, Option, none, some, List, [], ◌∷◌, ◌≡◌, ◌⊎◌,
  refl, sym, ap, ◌∙◌, subst, arith, Memᴰ, Bool-cases, Option-cases, inl, inr, str_eq, eq_iff,
  eq_refl, map, if◌then◌else◌,
}
use sec_app.Importer.Checked.{Checked, accepts, reject_if-accepts, some-injective}
use sec_app.Importer.Subjects.{
  AuditRun, AuditPass, PassReference, Contract, Subject, AuditManifest, Located, select, as_pass,
}
use sec_app.Importer.References.{finalize_audit_package}
use sec_app.Importer.Passes.{Ordered, order_from, not_before, check_passes}
use sec_app.Importer.Members.{pass_key}
use sec_app.Importer.Exact.{Distinct, exact_ids-Mem}
use sec_app.Importer.Linked.Index.{get-own}
use sec_app.Importer.Resolved.{ordered_key, resolve-Mem, resolve-Distinct}
use sec_app.Importer.Accepted.{
  Validated, validate_passes-Validated, finalize_run-passes, finalize-run,
}

-- A place found at c or later stays so, and an id met from c on has such a place.
order_from-ge :
    (xs : List Ordered) (found : Option ℕ) (i c : ℕ) (id : String)
    → c ≤ i
    → ((j : ℕ) × (found ≡ some j) × (c ≤ j)) ⊎ Memᴰ id (map ordered_key xs)
    → (k : ℕ) × (order_from found i xs id ≡ some k) × (c ≤ k)
order_from-ge [] found i c id le (inl p) = p
order_from-ge [] found i c id le (inr at) = elim at [ ]
order_from-ge (x ∷ xs) found i c id le met = elim (Bool-cases (str_eq (pass_key x.1) id)) [
  | inl e ↦ rw e (order_from-ge xs (some i) (i + 1) c id (omega arith) (inl (i, refl, le)))
  | inr e ↦ rw e (
      order_from-ge xs found (i + 1) c id (omega arith) (elim met [
        | inl p ↦ inl p
        | inr at ↦ elim at [
          | Memᴰ.head same ↦ absurd (ground (arith, e, same, eq_iff (pass_key x.1) id))
          | Memᴰ.tail later ↦ inr later
        ]
      ]))
]

not_before-lt : (o : Option ℕ) (i : ℕ) → not_before o i ≡ false → (j : ℕ) × (o ≡ some j) × (j < i)
not_before-lt none i h = absurd (ground arith)
not_before-lt (some j) i h = (j, refl, ground arith)

-- What the loop accepts: each prerequisite has an earlier place than its pass.
check_passes-lt :
    (order found : String → Option ℕ) (i : ℕ) (xs : List Ordered) (x : Ordered) (id : String)
    → ((s : String) → order s ≡ order_from (found s) i xs s)
    → check_passes order i xs ≡ accepts tt
    → Memᴰ x xs
    → Memᴰ id x.1.value.prerequisite_pass_ids
    → (j : ℕ) × (k : ℕ) × (order id ≡ some j) × (order (ordered_key x) ≡ some k) × (j < k)
unfolding check_passes
check_passes-lt order found i [] x id whole h at listed = elim at [ ]
check_passes-lt order found i ((r, p) ∷ xs) x id whole h at listed =
    let (a, ha) = reject_if-accepts _ _ _ tt h in
    let (b, hb) = reject_if-accepts _ _ _ tt ha in
    elim at [
      | Memᴰ.head e ↦
          let first =
            any-none _ p.value.prerequisite_pass_ids id b (
              subst (λ t. Memᴰ id (AuditPass.prerequisite_pass_ids (Located.value t.1))) e
                listed) in
          let (k, ek, le) =
            order_from-ge xs (some i) (i + 1) i (pass_key p) (omega arith)
              (inl (i, refl, omega arith)) in
          let (j, ej, lt) = not_before-lt (order id) i first in
          let own : order (pass_key p) ≡ some k =
            (rw (eq_refl (pass_key p)) at (whole (pass_key p))) ∙ ek in
          (j, k, ej, ap (λ y. order (ordered_key y)) e ∙ own, omega (arith, lt, le))
      | Memᴰ.tail later ↦
          check_passes-lt order (λ s. if str_eq (pass_key p) s then some i else found s) (i + 1) xs
            x id whole hb later listed
    ]

-- A pass with the id b of the subjects has the prerequisite a.
abbrev pub Requires : List Subject → String → String → Type 0
Requires subjects a b =
    (p : Located AuditPass) × Memᴰ p (select as_pass subjects)
    × (p.value.pass_id ≡ b)
    × Memᴰ a p.value.prerequisite_pass_ids

-- The places that put a before b.
abbrev Precedes : (String → Option ℕ) → String → String → Type 0
Precedes order a b = (j : ℕ) × (k : ℕ) × (order a ≡ some j) × (order b ≡ some k) × (j < k)

-- The pass with an id stands at its reference.
Validated-place :
    (run : AuditRun) (subjects : List Subject) (ordered : List Ordered) (p : Located AuditPass)
    → Validated run subjects ordered
    → Memᴰ p (select as_pass subjects)
    → (o : Ordered) × Memᴰ o ordered × (o.1 ≡ p)
Validated-place run subjects ordered p v at =
    let passes = select as_pass subjects in
    let ids = map PassReference.pass_id run.pass_references in
    let distinct : Distinct ids =
      resolve-Distinct passes run.pass_references ordered v.resolved v.one v.single in
    let (o, place, got) =
      resolve-Mem passes run.pass_references ordered (pass_key p) v.resolved
        (exact_ids-Mem pass_key passes ids p distinct v.exact at) in
    (o, place, some-injective _ _ (sym got ∙ get-own pass_key passes passes p v.index at))

Validated-Precedes :
    (run : AuditRun) (subjects : List Subject) (ordered : List Ordered) (a b : String)
    → Validated run subjects ordered
    → Requires subjects a b
    → Precedes (order_from none 0 ordered) a b
Validated-Precedes run subjects ordered a b v (p, at, named, listed) =
    let (o, place, same) = Validated-place run subjects ordered p v at in
    let (j, k, ej, ek, lt) =
      check_passes-lt (order_from none 0 ordered) (λ s. none) 0 ordered o a (λ s. refl) v.checked
        place
        (subst (λ t. Memᴰ a (AuditPass.prerequisite_pass_ids (Located.value t))) (sym same)
          listed) in
    (j, k, ej, subst (λ t. order_from none 0 ordered t ≡ some k) (ap pass_key same ∙ named) ek, lt)

Precedes-Acc :
    (order : String → Option ℕ) (R : String → String → Type 0)
    → ((a b : String) → R a b → Precedes order a b)
    → (n : ℕ) (b : String) → ((k : ℕ) → order b ≡ some k → k < n)
    → Acc R b
Precedes-Acc order R step zero b bound =
    Acc.intro b (λ a r. let (j, k, ej, ek, lt) = step a b r in absurd (omega (arith, bound k ek)))
Precedes-Acc order R step (suc n) b bound = Acc.intro b (λ a r.
    let (j, k, ej, ek, lt) = step a b r in
    Precedes-Acc order R step n a (λ i e. ground (arith, e, ej, bound k ek, lt)))

-- In an audit package that is accepted, the prerequisites of passes have no cycle: going from any
-- pass to its prerequisites, to theirs and so on comes to an end.
pub finalize_audit_package-Acc :
    (verify_contract_integrity : Contract → Checked (Unit {0})) (manifest : AuditManifest)
    (subjects : List Subject) (id : String)
    → finalize_audit_package verify_contract_integrity manifest subjects ≡ accepts tt
    → Acc (Requires subjects) id
finalize_audit_package-Acc v manifest subjects id h =
    let (run, log, hr) = finalize-run v manifest subjects h in
    let (passes, ep, hp) = finalize_run-passes manifest subjects run log hr in
    let (ordered, v, same) = validate_passes-Validated run subjects passes ep in
    let order = order_from none 0 ordered in
    let step = λ (a b : String) (r : Requires subjects a b).
      Validated-Precedes run subjects ordered a b v r in
    elim (Option-cases (order id)) [
      | inl e ↦
          Precedes-Acc order (Requires subjects) step 0 id (λ k ek. absurd (ground (arith, e, ek)))
      | inr (k, e) ↦
          Precedes-Acc order (Requires subjects) step (suc k) id (λ i ei. ground (arith, e, ei))
    ]
