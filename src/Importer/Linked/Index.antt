-- ===== src/Importer/Linked/Index.antt =====
-- What `indexKind`, and a look at its map, say of the members.
use mathlib.Core.List.{append-nil, append_assoc}
use sec_app.Base.{
  String, true, false, Option, none, some, List, [], ◌∷◌, ◌++◌, ◌≡◌, refl, ◌∙◌, arith, Memᴰ,
  Bool-cases, Option-cases, inl, inr, str_eq, is_some, eq_refl,
}
use sec_app.Importer.Checked.{accepts, get, get-Mem}
use sec_app.Importer.Members.{has, index_kind}

absent : {A : Type 0} (o : Option A) → is_some o ≡ false → o ≡ none
absent none h = refl
absent (some x) h = absurd (ground arith)

module _ {A : Type 0} (key : A → String) where
  -- What is accepted are the members, in their order.
  pub index_kind-same :
      (found xs ys : List A) → index_kind key found xs ≡ accepts ys → ys ≡ found ++ xs
  unfolding index_kind
  index_kind-same found [] ys h = ground (arith, h, append-nil found)
  index_kind-same found (x ∷ xs) ys h = elim (Bool-cases (has key found (key x))) [
    | inl e ↦ absurd (ground (arith, e, h))
    | inr e ↦ index_kind-same (found ++ x ∷ []) xs ys (rw e at h) ∙ append_assoc found (x ∷ []) xs
  ]

  pub get-append :
      (xs : List A) (x : A) (id : String)
      → get key (xs ++ x ∷ []) id ≡ none
      → (get key xs id ≡ none) × (str_eq (key x) id ≡ false)
  get-append [] x id h = ground arith
  get-append (y ∷ ys) x id h = ground (arith, get-append ys x id)

  -- A member is what its own key finds.
  pub index_kind-get :
      (found xs ys : List A) (x : A)
      → index_kind key found xs ≡ accepts ys
      → Memᴰ x xs
      → (get key found (key x) ≡ none) × (get key xs (key x) ≡ some x)
  unfolding index_kind
  index_kind-get found [] ys x h at = elim at [ ]
  index_kind-get found (y ∷ xs) ys x h at = elim (Bool-cases (has key found (key y))) [
    | inl e ↦ absurd (ground (arith, e, h))
    | inr e ↦ elim at [
      | Memᴰ.head same ↦ rw same (absent _ e, rw (eq_refl (key y)) refl)
      | Memᴰ.tail later ↦
          let (unseen, own) = index_kind-get (found ++ y ∷ []) xs ys x (rw e at h) later in
          let (before, differs) = get-append found y (key x) unseen in (before, rw differs own)
    ]
  ]

  pub get-own :
      (xs ys : List A) (x : A)
      → index_kind key [] xs ≡ accepts ys
      → Memᴰ x xs
      → get key xs (key x) ≡ some x
  get-own xs ys x h at = (index_kind-get [] xs ys x h at).1

  -- What a map has is a member.
  pub has-Mem :
      (xs : List A) (id : String) → has key xs id ≡ true → (x : A) × Memᴰ x xs × (key x ≡ id)
  has-Mem xs id h = elim (Option-cases (get key xs id)) [
    | inl e ↦ absurd (ground (arith, e, h))
    | inr (x, e) ↦ let (at, same) = get-Mem key xs id x e in (x, at, same)
  ]
