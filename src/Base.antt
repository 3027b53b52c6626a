-- ===== src/Base.antt =====
-- The names that the other modules share: the libraries', passed on, and small helpers over the
-- native numbers, options and texts.
pub use Prim.Native.Nat.{
  ℕ, zero, suc, ◌+◌, ◌-◌, ◌*◌, ◌/◌, ◌%◌, ◌^◌, ◌≤◌, ◌<◌, max, compare, Ordering,
}
pub use Prim.Native.Char.{Char, code}
pub use Prim.Native.String.{String}
pub use mathlib.Core.Path.{◌≡◌, refl, sym, ap, ◌∙◌, subst}
pub use mathlib.Core.Logic.{◌≢◌, ◌↔◌, ◌⊎◌, inl, inr}
pub use mathlib.Core.Bool.{Bool, true, false, not, ◌&&◌, ◌||◌}
pub use mathlib.Core.Option.{Option, none, some}
pub use mathlib.Core.List.{List, [], ◌∷◌, ◌++◌, map, Memᴰ}
pub use native.Mathlib.Omega.{arith}
pub use text.Mathlib.TextEquality.{eq_iff}
pub use text.Mathlib.TextPositions.{eq_refl}
use text.Mathlib.Text

-- Boolean tests; they compute to `compare`.
abbrev pub ltb : ℕ → ℕ → Bool
ltb a b = elim (compare a b) [ Ordering.lt ↦ true | _ ↦ false ]

abbrev pub leb : ℕ → ℕ → Bool
leb a b = elim (compare a b) [ Ordering.gt ↦ false | _ ↦ true ]

infix 50 ◌==◌
abbrev pub ◌==◌ : ℕ → ℕ → Bool
a == b = elim (compare a b) [ Ordering.eq ↦ true | _ ↦ false ]

infix 1 if◌then◌else◌
abbrev pub if◌then◌else◌ {ℓ} : {A : Type ℓ} → Bool → A → A → A
if true then x else y = x
if false then x else y = y

-- `===` on texts.
abbrev pub str_eq : String → String → Bool
str_eq s t = Text.◌==◌ s t

-- `===` on a text or null.
abbrev pub opt_eq : Option String → Option String → Bool
opt_eq none none = true
opt_eq none (some _) = false
opt_eq (some _) none = false
opt_eq (some s) (some t) = str_eq s t

-- Number.MAX_SAFE_INTEGER
abbrev pub max_safe_integer : ℕ
max_safe_integer = 2 ^ 53 - 1

abbrev pub is_some {ℓ} : {A : Type ℓ} → Option A → Bool
is_some none = false
is_some (some _) = true

module _ {ℓ} {A : Type ℓ} where
  abbrev pub length : List A → ℕ
  length [] = 0
  length (x ∷ xs) = suc (length xs)

  -- Array.prototype.some and every
  abbrev pub any : (A → Bool) → List A → Bool
  any p [] = false
  any p (x ∷ xs) = p x || any p xs

  abbrev pub all : (A → Bool) → List A → Bool
  all p [] = true
  all p (x ∷ xs) = p x && all p xs

  pub length-append : (xs ys : List A) → length (xs ++ ys) ≡ length xs + length ys
  length-append [] ys = omega arith
  length-append (x ∷ xs) ys = omega (arith, length-append xs ys)

  pub Option-cases : (o : Option A) → (o ≡ none) ⊎ ((a : A) × (o ≡ some a))
  Option-cases none = inl refl
  Option-cases (some a) = inr (a, refl)

pub Bool-cases : (b : Bool) → (b ≡ true) ⊎ (b ≡ false)
Bool-cases true = inl refl
Bool-cases false = inr refl

pub ==_iff : (a b : ℕ) → ((a == b) ≡ true) ↔ (a ≡ b)
==_iff a b = ground arith

-- `includes` finds exactly the members.
pub any-mem : (s : String) (xs : List String) → any (str_eq s) xs ≡ true → Memᴰ s xs
any-mem s [] h = cc
any-mem s (x ∷ xs) h = elim (Bool-cases (str_eq s x)) [
  | inl e ↦ Memᴰ.head ((eq_iff s x).0 e)
  | inr e ↦ Memᴰ.tail (any-mem s xs (ground arith))
]

pub mem-any : (s : String) (xs : List String) → Memᴰ s xs → any (str_eq s) xs ≡ true
mem-any s [] m = elim m [ ]
mem-any s (x ∷ xs) (Memᴰ.head e) = ground (arith, eq_iff s x)
mem-any s (x ∷ xs) (Memᴰ.tail m) = ground (arith, mem-any s xs m)

-- What holds of both branches holds of a conditional.
pub if-keeps {ℓ ℓ'} :
    {A : Type ℓ} (P : A → Type ℓ') (c : Bool) (x y : A)
    → (c ≡ true → P x)
    → (c ≡ false → P y)
    → P (if c then x else y)
if-keeps P true x y h k = h refl
if-keeps P false x y h k = k refl

-- A member of a list with one more at its end is that one or was there.
pub last-Mem {ℓ} :
    {A : Type ℓ} (x y : A) (xs : List A) → Memᴰ x (xs ++ y ∷ []) → (x ≡ y) ⊎ Memᴰ x xs
last-Mem x y [] (Memᴰ.head e) = inl e
last-Mem x y [] (Memᴰ.tail m) = elim m [ ]
last-Mem x y (z ∷ zs) (Memᴰ.head e) = inr (Memᴰ.head e)
last-Mem x y (z ∷ zs) (Memᴰ.tail m) = elim (last-Mem x y zs m) [
  | inl e ↦ inl e
  | inr at ↦ inr (Memᴰ.tail at)
]

pub map-Mem {ℓ κ} :
    {A : Type ℓ} {B : Type κ} (f : A → B) (xs : List A) (y : B)
    → Memᴰ y (map f xs)
    → (x : A) × Memᴰ x xs × (y ≡ f x)
map-Mem f [] y m = elim m [ ]
map-Mem f (x ∷ xs) y (Memᴰ.head e) = (x, Memᴰ.head refl, e)
map-Mem f (x ∷ xs) y (Memᴰ.tail m) = let (z, at, e) = map-Mem f xs y m in (z, Memᴰ.tail at, e)

-- What a test says of each member.
pub any-none {ℓ} :
    {A : Type ℓ} (p : A → Bool) (xs : List A) (x : A) → any p xs ≡ false → Memᴰ x xs → p x ≡ false
any-none p [] x h at = elim at [ ]
any-none p (y ∷ ys) x h (Memᴰ.head e) = rw e (ground (arith, h))
any-none p (y ∷ ys) x h (Memᴰ.tail at) = any-none p ys x (ground (arith, h)) at

pub any-some {ℓ} :
    {A : Type ℓ} (p : A → Bool) (xs : List A) → any p xs ≡ true → (x : A) × Memᴰ x xs × (p x ≡ true)
any-some p [] h = absurd (ground arith)
any-some p (y ∷ ys) h = elim (Bool-cases (p y)) [
  | inl e ↦ (y, Memᴰ.head refl, e)
  | inr e ↦ let (x, at, k) = any-some p ys (ground (arith, h, e)) in (x, Memᴰ.tail at, k)
]

pub all-Mem {ℓ} :
    {A : Type ℓ} (p : A → Bool) (xs : List A) (x : A) → all p xs ≡ true → Memᴰ x xs → p x ≡ true
all-Mem p [] x h at = elim at [ ]
all-Mem p (y ∷ ys) x h (Memᴰ.head e) = rw e (ground (arith, h))
all-Mem p (y ∷ ys) x h (Memᴰ.tail at) = all-Mem p ys x (ground (arith, h)) at

pub opt_eq-some : (a : Option String) (s : String) → opt_eq a (some s) ≡ true → a ≡ some s
opt_eq-some none s h = absurd (ground arith)
opt_eq-some (some t) s h = ground (arith, eq_iff t s)
