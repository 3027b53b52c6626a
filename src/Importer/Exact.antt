-- ===== src/Importer/Exact.antt =====
-- When `exactIds` holds: the ids are those of the members.
use sec_app.Base.{
  suc, ◌≤◌, String, true, some, List, [], ◌∷◌, ◌++◌, ◌≡◌, ◌⊎◌, ◌↔◌, refl, sym, ap, ◌∙◌, subst,
  arith, Memᴰ, Bool-cases, inl, inr, eq_iff, all, length, map, map-Mem,
}
use sec_app.Importer.Checked.{accepts, get}
use sec_app.Importer.Members.{has, index_kind, exact_ids}
use sec_app.Importer.Linked.Index.{get-append, index_kind-get, has-Mem, get-own}

abbrev pub Distinct : List String → Type 0
Distinct [] = Unit
Distinct (x ∷ xs) = (Memᴰ x xs → ⊥) × Distinct xs

-- A member can be taken out.
taken :
    (x : String) (xs : List String)
    → Memᴰ x xs
    → (rest : List String) × (length xs ≡ suc (length rest))
      × ((y : String) → Memᴰ y xs → (y ≡ x) ⊎ Memᴰ y rest)
taken x [] at = elim at [ ]
taken x (z ∷ zs) (Memᴰ.head e) =
    (zs, refl, λ y k. elim k [ Memᴰ.head f ↦ inl (f ∙ sym e) | Memᴰ.tail later ↦ inr later ])
taken x (z ∷ zs) (Memᴰ.tail at) =
    let (rest, size, split) = taken x zs at in
    (
      z ∷ rest,
      ap suc size,
      λ y k. elim k [
        | Memᴰ.head f ↦ inr (Memᴰ.head f)
        | Memᴰ.tail later ↦ elim (split y later) [ inl e ↦ inl e | inr m ↦ inr (Memᴰ.tail m) ]
      ],
    )

Within : List String → List String → Type 0
Within xs ys = (x : String) → Memᴰ x xs → Memᴰ x ys

-- Distinct ids within a list are no more than it has, and all of it where they are as many.
Within-le :
    (xs ys : List String)
    → Distinct xs
    → Within xs ys
    → (length xs ≤ length ys) × (length xs ≡ length ys → Within ys xs)
unfolding Within
Within-le [] [] d w = (omega arith, λ e x m. m)
Within-le [] (y ∷ ys) d w = (omega arith, λ e x m. absurd (omega (arith, e)))
Within-le (x ∷ xs) ys d w =
    let (rest, size, split) = taken x ys (w x (Memᴰ.head refl)) in
    let inside : Within xs rest = λ y m. elim (split y (w y (Memᴰ.tail m))) [
      | inl e ↦ absurd (d.0 (subst (λ t. Memᴰ t xs) e m))
      | inr k ↦ k
    ] in
    let (le, back) = Within-le xs rest d.1 inside in
    (
      omega (arith, le, size),
      λ e y m. elim (split y m) [
        | inl same ↦ Memᴰ.head same
        | inr k ↦ Memᴰ.tail (back (omega (arith, e, size)) y k)
      ],
    )

module _ {A : Type 0} (key : A → String) where
  mem-map : (xs : List A) (x : A) → Memᴰ x xs → Memᴰ (key x) (map key xs)
  mem-map [] x at = elim at [ ]
  mem-map (y ∷ ys) x (Memᴰ.head e) = Memᴰ.head (ap key e)
  mem-map (y ∷ ys) x (Memᴰ.tail at) = Memᴰ.tail (mem-map ys x at)

  index_kind-Distinct :
      (found xs ys : List A) → index_kind key found xs ≡ accepts ys → Distinct (map key xs)
  unfolding index_kind
  index_kind-Distinct found [] ys h = tt
  index_kind-Distinct found (x ∷ xs) ys h = elim (Bool-cases (has key found (key x))) [
    | inl e ↦ absurd (ground (arith, e, h))
    | inr e ↦
        let rest : index_kind key (found ++ x ∷ []) xs ≡ accepts ys = rw e at h in
        (
          λ m.
              let (y, at, same) = map-Mem key xs (key x) m in
              let unseen = (index_kind-get key (found ++ x ∷ []) xs ys y rest at).0 in
              ground
                (arith, (get-append key found x (key y) unseen).1, eq_iff (key x) (key y), same),
          index_kind-Distinct (found ++ x ∷ []) xs ys rest,
        )
  ]

  length-map : (xs : List A) → length (map key xs) ≡ length xs
  length-map [] = refl
  length-map (x ∷ xs) = ap suc (length-map xs)

  all-has :
      (xs : List A) (ids : List String) → all (has key xs) ids ≡ true → Within ids (map key xs)
  unfolding Within
  all-has xs [] h id at = elim at [ ]
  all-has xs (i ∷ ids) h id (Memᴰ.head e) =
      let (x, at, same) = has-Mem key xs i (ground (arith, h)) in
      subst (λ t. Memᴰ t (map key xs)) (same ∙ sym e) (mem-map xs x at)
  all-has xs (i ∷ ids) h id (Memᴰ.tail at) = all-has xs ids (ground (arith, h)) id at

  has-all :
      (xs ys : List A) (ids : List String)
      → index_kind key [] xs ≡ accepts ys
      → Within ids (map key xs)
      → all (has key xs) ids ≡ true
  unfolding Within
  has-all xs ys [] h w = refl
  has-all xs ys (i ∷ ids) h w =
      let (x, at, same) = map-Mem key xs i (w i (Memᴰ.head refl)) in
      let found : get key xs i ≡ some x =
        subst (λ t. get key xs t ≡ some x) (sym same) (get-own key xs ys x h at) in
      ground (arith, found, has-all xs ys ids h (λ y m. w y (Memᴰ.tail m)))

  -- An accepted list of distinct ids names every member.
  pub exact_ids-Mem :
      (xs : List A) (ids : List String) (x : A)
      → Distinct ids
      → exact_ids key xs ids ≡ true
      → Memᴰ x xs
      → Memᴰ (key x) ids
  unfolding exact_ids Within
  exact_ids-Mem xs ids x d h at =
      (Within-le ids (map key xs) d (all-has xs ids (ground (arith, h)))).1
        (ground (arith, h, length-map xs)) (key x) (mem-map xs x at)

-- Where the members have different keys and the expected ids are all different, `exactIds` holds exactly when
-- the expected ids are the keys of the members.
pub exact_ids_iff :
    {A : Type 0} (key : A → String) (actual : List A) (expected : List String)
    → index_kind key [] actual ≡ accepts actual
    → Distinct expected
    → (exact_ids key actual expected ≡ true)
      ↔ ((id : String) → Memᴰ id expected ↔ ((x : A) × Memᴰ x actual × (key x ≡ id)))
unfolding exact_ids Within
exact_ids_iff {A} key actual expected index d =
    let keys = map key actual in
    (
      λ h id. (
        λ at.
            let (x, m, e) =
              map-Mem key actual id (all-has key actual expected (ground (arith, h)) id at) in
            (x, m, sym e),
        λ (x, m, e). subst (λ t. Memᴰ t expected) e (exact_ids-Mem key actual expected x d h m),
      ),
      λ same.
          let into : Within expected keys = λ id at.
            let (x, m, e) = (same id).0 at in subst (λ t. Memᴰ t keys) e (mem-map key actual x m) in
          let back : Within keys expected =
            λ id at. let (x, m, e) = map-Mem key actual id at in (same id).1 (x, m, sym e) in
          let le = (Within-le expected keys d into).0 in
          let ge =
            (Within-le keys expected (index_kind-Distinct key [] actual actual index) back).0 in
          ground
            (arith, le, ge, length-map key actual, has-all key actual actual expected index into),
    )
