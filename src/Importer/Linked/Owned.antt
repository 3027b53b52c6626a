-- ===== src/Importer/Linked/Owned.antt =====
-- What `ownership` holds: each execution with the pass that lists it.
use sec_app.Base.{
  String, not, ◌||◌, List, [], ◌∷◌, ◌++◌, ◌≡◌, refl, sym, subst, arith, Memᴰ, inl, inr, last-Mem,
}
use sec_app.Importer.Checked.{accepts, >>=-accepts, reject_if-accepts, reference_set_mismatch}
use sec_app.Importer.Subjects.{AuditPass, Execution, Located}
use sec_app.Importer.References.{Owned, owner_key, own_ids, own}
use sec_app.Importer.Members.{execution_key, has}

-- A pass of the list that has the id and lists the execution of an entry.
abbrev pub IsListed : List (Located AuditPass) → Owned → Type 0
IsListed passes o =
    (p : Located AuditPass) × Memᴰ p passes
    × (p.value.pass_id ≡ o.1)
    × Memᴰ o.0 p.value.collector_execution_ids

abbrev AllListed : List (Located AuditPass) → List Owned → Type 0
AllListed passes owned = (o : Owned) → Memᴰ o owned → IsListed passes o

module _ (executions : List (Located Execution)) (passes : List (Located AuditPass)) where
  own_ids-AllListed :
      (p : Located AuditPass) (owned : List Owned) (ids : List String) (out : List Owned)
      → Memᴰ p passes
      → ((id : String) → Memᴰ id ids → Memᴰ id p.value.collector_execution_ids)
      → AllListed passes owned
      → own_ids executions p.value.pass_id owned ids ≡ accepts out
      → AllListed passes out
  unfolding own_ids
  own_ids-AllListed p owned [] out at inside all h =
      subst (AllListed passes) (ground (arith, h)) all
  own_ids-AllListed p owned (id ∷ ids) out at inside all h =
      let (fresh, rest) =
        reject_if-accepts (has owner_key owned id || not (has execution_key executions id))
          reference_set_mismatch
          (own_ids executions p.value.pass_id (owned ++ (id, p.value.pass_id) ∷ []) ids) out h in
      own_ids-AllListed p (owned ++ (id, p.value.pass_id) ∷ []) ids out at
        (λ x m. inside x (Memᴰ.tail m))
        (λ o m. elim (last-Mem o (id, p.value.pass_id) owned m) [
          | inl e ↦ subst (IsListed passes) (sym e) (p, at, refl, inside id (Memᴰ.head refl))
          | inr before ↦ all o before
        ])
        rest

  own-AllListed :
      (owned : List Owned) (ps : List (Located AuditPass)) (out : List Owned)
      → ((p : Located AuditPass) → Memᴰ p ps → Memᴰ p passes)
      → AllListed passes owned
      → own executions owned ps ≡ accepts out
      → AllListed passes out
  unfolding own
  own-AllListed owned [] out inside all h = subst (AllListed passes) (ground (arith, h)) all
  own-AllListed owned (p ∷ ps) out inside all h =
      let (next, first, rest) = >>=-accepts _ _ out h in
      own-AllListed next ps out (λ x m. inside x (Memᴰ.tail m))
        (own_ids-AllListed p owned p.value.collector_execution_ids next (inside p (Memᴰ.head refl))
          (λ x m. m) all first)
        rest

  pub own-IsListed :
      (out : List Owned) (o : Owned)
      → own executions [] passes ≡ accepts out
      → Memᴰ o out
      → IsListed passes o
  own-IsListed out o h = own-AllListed [] passes out (λ p m. m) (λ x m. elim m [ ]) h o
