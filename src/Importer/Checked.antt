-- ===== src/Importer/Checked.antt =====
-- src/import/import-errors.mjs: `reject` as a value, with the code of its error, and loops that only
-- reject.
use sec_app.Base.{
  Bool, true, false, not, List, [], ◌∷◌, ◌≡◌, refl, arith, Memᴰ, Option, none, some, String, str_eq,
  Bool-cases, if◌then◌else◌, eq_iff, subst, sym, inl, inr,
}

-- The codes without their prefix `IMPORT_`; `undefined_read` stands for a TypeError.
pub data Code : Type 0 where
  reference_duplicate_id reference_set_mismatch reference_digest_mismatch pass_model_invalid : Code
  manifest_role_path_mismatch manifest_required_role_missing run_id_mismatch : Code
  backend_identity_state_conflict digest_mismatch undefined_read : Code

pub data Checked {ℓ} (A : Type ℓ) : Type ℓ where
  rejects : Code → Checked A
  accepts : A → Checked A

infixl 5 ◌>>=◌ ◌>>◌
unfoldable pub ◌>>=◌ {ℓ κ} : {A : Type ℓ} {B : Type κ} → Checked A → (A → Checked B) → Checked B
rejects c >>= k = rejects c
accepts x >>= k = k x

unfoldable pub ◌>>◌ {ℓ} : {B : Type ℓ} → Checked (Unit {0}) → Checked B → Checked B
rejects c >> m = rejects c
accepts x >> m = m

-- `if (condition) reject(code);`
unfoldable pub reject_if : Bool → Code → Checked (Unit {0})
reject_if true c = rejects c
reject_if false c = accepts tt

-- `for (const x of xs) f(x);`
unfoldable pub each {ℓ} : {A : Type ℓ} → (A → Checked (Unit {0})) → List A → Checked (Unit {0})
unfolding ◌>>◌
each f [] = accepts tt
each f (x ∷ xs) = f x >> each f xs

-- `Map.prototype.get` on members under their key, of which no two are the same.
abbrev pub get {ℓ} : {A : Type ℓ} → (A → String) → List A → String → Option A
get key [] id = none
get key (x ∷ xs) id = let rest = get key xs id in if str_eq (key x) id then some x else rest

module _ {ℓ} {B : Type ℓ} where
  pub >>-accepts :
      (m : Checked (Unit {0})) (k : Checked B) (b : B)
      → (m >> k) ≡ accepts b
      → (m ≡ accepts tt) × (k ≡ accepts b)
  unfolding ◌>>◌
  >>-accepts (rejects c) k b h = absurd (ground arith)
  >>-accepts (accepts tt) k b h = (refl, h)

  pub reject_if-accepts :
      (c : Bool) (code : Code) (k : Checked B) (b : B)
      → (reject_if c code >> k) ≡ accepts b
      → (c ≡ false) × (k ≡ accepts b)
  unfolding ◌>>◌ reject_if
  reject_if-accepts true code k b h = absurd (ground arith)
  reject_if-accepts false code k b h = (refl, h)

  pub >>=-accepts {κ} :
      {A : Type κ} (m : Checked A) (k : A → Checked B) (b : B)
      → (m >>= k) ≡ accepts b
      → (a : A) × (m ≡ accepts a) × (k a ≡ accepts b)
  unfolding ◌>>=◌
  >>=-accepts (rejects c) k b h = absurd (ground arith)
  >>=-accepts (accepts a) k b h = (a, refl, h)

pub rejected-false : (c : Bool) (code : Code) → reject_if c code ≡ accepts tt → c ≡ false
unfolding reject_if
rejected-false true code h = absurd (ground arith)
rejected-false false code h = refl

module _ {ℓ} {A : Type ℓ} where
  -- What a loop of checks accepts, it accepts for each member.
  pub each-Mem :
      (f : A → Checked (Unit {0})) (xs : List A) (x : A)
      → each f xs ≡ accepts tt
      → Memᴰ x xs
      → f x ≡ accepts tt
  unfolding each
  each-Mem f [] x h at = elim at [ ]
  each-Mem f (y ∷ ys) x h (Memᴰ.head e) =
      subst (λ z. f z ≡ accepts tt) (sym e) (>>-accepts (f y) (each f ys) tt h).0
  each-Mem f (y ∷ ys) x h (Memᴰ.tail at) = each-Mem f ys x (>>-accepts (f y) (each f ys) tt h).1 at

  -- What is found under a key is a member with that key.
  pub get-Mem :
      (key : A → String) (xs : List A) (id : String) (x : A)
      → get key xs id ≡ some x
      → Memᴰ x xs × (key x ≡ id)
  get-Mem key [] id x h = absurd (ground arith)
  get-Mem key (y ∷ ys) id x h = elim (Bool-cases (str_eq (key y) id)) [
    | inl e ↦
        let same : y ≡ x = ground (arith, e, h) in
        (Memᴰ.head (sym same), ground (arith, same, e, eq_iff (key y) id))
    | inr e ↦ let (at, k) = get-Mem key ys id x (ground (arith, e, h)) in (Memᴰ.tail at, k)
  ]

pub not-false : (b : Bool) → not b ≡ false → b ≡ true
not-false true h = refl
not-false false h = absurd (ground arith)

pub some-injective {ℓ} : {A : Type ℓ} (x y : A) → some x ≡ some y → x ≡ y
some-injective x y h = ground arith
