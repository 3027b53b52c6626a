-- ===== src/Importer/Passes.antt =====
-- src/import/import-manifest.mjs: `validatePasses`.
use sec_app.Base.{
  ℕ, ◌+◌, ◌==◌, String, Bool, true, false, not, ◌&&◌, ◌||◌, Option, none, some, List, [], ◌∷◌, ltb,
  leb, str_eq, opt_eq, any, map, if◌then◌else◌,
}
use sec_app.Importer.Checked.{
  reference_set_mismatch, reference_digest_mismatch, pass_model_invalid, undefined_read, Checked,
  rejects, accepts, ◌>>=◌, ◌>>◌, reject_if, get,
}
use sec_app.Importer.Subjects.{
  PassKind, standard, elevated, reboot_continuation, post_reboot, PassReference, AuditRun,
  AuditPass, Subject, Located, select, as_pass,
}
use sec_app.Importer.Members.{pass_key, index_kind, exact_ids}

-- `ranks`
abbrev pub rank : PassKind → ℕ
rank standard = 0
rank elevated = 1
rank reboot_continuation = 2
rank post_reboot = 3

-- A pass reference with the pass that `passes.get` gives for it.
abbrev pub Ordered : Type 0
Ordered = PassReference × Located AuditPass

abbrev paired :
    PassReference → Option (Located AuditPass) → Checked (List Ordered) → Checked (List Ordered)
paired r none rest = rejects undefined_read
paired r (some p) (rejects c) = rejects c
paired r (some p) (accepts rest) = accepts ((r, p) ∷ rest)

-- `ordered`
unfoldable pub resolve : List (Located AuditPass) → List PassReference → Checked (List Ordered)
resolve passes [] = accepts []
resolve passes (r ∷ rs) = paired r (get pass_key passes r.pass_id) (resolve passes rs)

abbrev pub kind_of : Ordered → ℕ
kind_of (r, p) = rank p.value.kind

abbrev pub standards : List Ordered → ℕ
standards [] = 0
standards (x ∷ xs) = let rest = standards xs in if kind_of x == 0 then rest + 1 else rest

abbrev pub starts_standard : List Ordered → Bool
starts_standard [] = false
starts_standard (x ∷ xs) = kind_of x == 0

-- `new Set(optionalKinds).size !== optionalKinds.length`
abbrev pub repeats_optional : List Ordered → Bool
repeats_optional [] = false
repeats_optional (x ∷ xs) =
    not (kind_of x == 0) && any (λ y. kind_of x == kind_of y) xs || repeats_optional xs

abbrev pub falls : List Ordered → Bool
falls [] = false
falls (x ∷ []) = false
falls (x ∷ y ∷ xs) = ltb (kind_of y) (kind_of x) || falls (y ∷ xs)

-- `order.get`: the last place of an id, after the one found so far.
abbrev pub order_from : Option ℕ → ℕ → List Ordered → String → Option ℕ
order_from found i [] id = found
order_from found i (x ∷ xs) id =
    order_from (if str_eq (pass_key x.1) id then some i else found) (i + 1) xs id

abbrev pub not_before : Option ℕ → ℕ → Bool
not_before none i = true
not_before (some j) i = leb i j

abbrev pub pass_differs : PassReference → Located AuditPass → Bool
pass_differs r p =
    not (rank p.value.kind == rank r.kind)
    || not (str_eq p.value.privilege_class r.privilege_class)
    || not (str_eq p.path r.logical_path)
    || not (opt_eq p.value.object_digest (some r.object_digest))

-- The loop over `ordered` from the place i.
unfoldable pub check_passes : (String → Option ℕ) → ℕ → List Ordered → Checked (Unit {0})
check_passes order i [] = accepts tt
check_passes order i ((r, p) ∷ xs) = do
  reject_if (pass_differs r p) reference_digest_mismatch
  reject_if (any (λ id. not_before (order id) i) p.value.prerequisite_pass_ids) pass_model_invalid
  check_passes order (i + 1) xs

unfoldable pub validate_passes : AuditRun → List Subject → Checked (List (Located AuditPass))
validate_passes run subjects = do
  passes ← index_kind pass_key [] (select as_pass subjects)
  reject_if (not (exact_ids pass_key passes (map PassReference.pass_id run.pass_references)))
      reference_set_mismatch
  ordered ← resolve passes run.pass_references
  reject_if (not (standards ordered == 1) || not (starts_standard ordered)) pass_model_invalid
  reject_if (repeats_optional ordered) pass_model_invalid
  reject_if (falls ordered) pass_model_invalid
  check_passes (order_from none 0 ordered) 0 ordered
  accepts passes
