-- ===== src/Importer/Resolved.antt =====
-- The passes of a run in the order of its references.
use sec_app.Base.{
  any-none, ◌==◌, ◌≤◌, String, false, some, List, [], ◌∷◌, ◌≡◌, refl, sym, ap, ◌∙◌, subst, arith,
  Memᴰ, Bool-cases, Option-cases, inl, inr, map,
}
use sec_app.Importer.Checked.{Checked, rejects, accepts, get}
use sec_app.Importer.Subjects.{AuditPass, PassReference, Located}
use sec_app.Importer.Passes.{Ordered, resolve, kind_of, standards, repeats_optional}
use sec_app.Importer.Members.{pass_key}
use sec_app.Importer.Exact.{Distinct}

abbrev pub ordered_key : Ordered → String
ordered_key x = pass_key x.1

pub paired-accepts :
    (passes : List (Located AuditPass)) (r : PassReference) (rs : List PassReference)
    (out : List Ordered)
    → resolve passes (r ∷ rs) ≡ accepts out
    → (p : Located AuditPass) × (rest : List Ordered) × (get pass_key passes r.pass_id ≡ some p)
      × (resolve passes rs ≡ accepts rest)
      × (out ≡ (r, p) ∷ rest)
unfolding resolve
paired-accepts passes r rs out h = elim (Option-cases (get pass_key passes r.pass_id)) [
  | inl e ↦ absurd (ground (arith, e, h))
  | inr (p, e) ↦ paired-rest p e (resolve passes rs) refl
]
  where
    paired-rest :
        (p : Located AuditPass)
        → get pass_key passes r.pass_id ≡ some p
        → (m : Checked (List Ordered)) → resolve passes rs ≡ m
        → (q : Located AuditPass) × (rest : List Ordered) × (get pass_key passes r.pass_id ≡ some q)
          × (resolve passes rs ≡ accepts rest)
          × (out ≡ (r, q) ∷ rest)
    paired-rest p e (rejects c) k = absurd (ground (arith, e, k, h))
    paired-rest p e (accepts rest) k = (p, rest, e, k, ground (arith, e, k, h))

-- Every reference has its pass among the ordered ones.
pub resolve-Mem :
    (passes : List (Located AuditPass)) (rs : List PassReference) (out : List Ordered) (id : String)
    → resolve passes rs ≡ accepts out
    → Memᴰ id (map PassReference.pass_id rs)
    → (x : Ordered) × Memᴰ x out × (get pass_key passes id ≡ some x.1)
unfolding resolve
resolve-Mem passes [] out id h at = elim at [ ]
resolve-Mem passes (r ∷ rs) out id h (Memᴰ.head e) =
    let (p, rest, found, next, shape) = paired-accepts passes r rs out h in
    (
      (r, p),
      subst (λ t. Memᴰ (r, p) t) (sym shape) (Memᴰ.head refl),
      subst (λ t. get pass_key passes t ≡ some p) (sym e) found,
    )
resolve-Mem passes (r ∷ rs) out id h (Memᴰ.tail at) =
    let (p, rest, found, next, shape) = paired-accepts passes r rs out h in
    let (x, m, k) = resolve-Mem passes rs rest id next at in
    (x, subst (λ t. Memᴰ x t) (sym shape) (Memᴰ.tail m), k)

pub standards-pos : (xs : List Ordered) (x : Ordered) → Memᴰ x xs → kind_of x ≡ 0 → 1 ≤ standards xs
standards-pos [] x at e = elim at [ ]
standards-pos (y ∷ ys) x (Memᴰ.head same) e = ground (arith, ap kind_of same)
standards-pos (y ∷ ys) x (Memᴰ.tail at) e = ground (arith, standards-pos ys x at e)

-- References to passes of different kinds are references to different passes.
pub resolve-Distinct :
    (passes : List (Located AuditPass)) (rs : List PassReference) (out : List Ordered)
    → resolve passes rs ≡ accepts out
    → standards out ≤ 1
    → repeats_optional out ≡ false
    → Distinct (map PassReference.pass_id rs)
unfolding resolve
resolve-Distinct passes [] out h s n = tt
resolve-Distinct passes (r ∷ rs) out h s n =
    let (p, rest, found, next, shape) = paired-accepts passes r rs out h in
    let s' : standards ((r, p) ∷ rest) ≤ 1 = subst (λ t. standards t ≤ 1) shape s in
    let n' : repeats_optional ((r, p) ∷ rest) ≡ false = ap repeats_optional (sym shape) ∙ n in
    (
      λ again.
          let (x, at, k) = resolve-Mem passes rs rest r.pass_id next again in
          let same : kind_of (r, p) ≡ kind_of x = ground (arith, found, k) in
          elim (Bool-cases (kind_of (r, p) == 0)) [
            | inl e ↦ absurd (ground (arith, standards-pos rest x at, same, e, s'))
            | inr e ↦ absurd (
                ground (
                  arith,
                  e,
                  n',
                  same,
                  any-none (λ (y : Ordered). kind_of (r, p) == kind_of y) rest x
                      (ground (arith, e, n')) at,
                ))
          ],
      resolve-Distinct passes rs rest next (ground (arith, s')) (ground (arith, n')),
    )
