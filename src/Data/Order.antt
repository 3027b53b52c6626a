-- ===== src/Data/Order.antt =====
-- tools/lib/order.mjs: the order of two texts by UTF-16 code units.
use Prim.Native.Char.{char}
use mathlib.Core.Path.{ap₂}
use text.Mathlib.TextEquality.{Char-path}
use sec_app.Base.{
  ℕ, ◌+◌, ◌-◌, ◌/◌, ◌%◌, ◌≡◌, refl, Char, code, ◌<◌, ◌⊎◌, String, List, [], ◌∷◌, compare, Ordering,
  arith, ltb, if◌then◌else◌,
}

-- The UTF-16 code units of a text, as charCodeAt returns them.
unfoldable pub units : String → List ℕ
units String.[] = []
units (String.◌∷◌ c s) =
    let rest = units s in
    if ltb (code c) 0x10000
    then code c ∷ rest
    else (0xd800 + (code c - 0x10000) / 1024) ∷ (0xdc00 + (code c - 0x10000) % 1024) ∷ rest

-- The sign of the difference that `compareUnicodeCodeUnits` returns: of the first two units that
-- differ, else of the lengths.
unfoldable pub compare_units : List ℕ → List ℕ → Ordering
compare_units [] [] = Ordering.eq
compare_units [] (y ∷ ys) = Ordering.lt
compare_units (x ∷ xs) [] = Ordering.gt
compare_units (x ∷ xs) (y ∷ ys) = elim (compare x y) [
  | Ordering.lt ↦ Ordering.lt
  | Ordering.eq ↦ compare_units xs ys
  | Ordering.gt ↦ Ordering.gt
]

unfoldable pub compare_unicode_code_units : String → String → Ordering
unfolding units compare_units
compare_unicode_code_units left right = compare_units (units left) (units right)

pub compare_units_refl : (xs : List ℕ) → compare_units xs xs ≡ Ordering.eq
unfolding compare_units
compare_units_refl [] = refl
compare_units_refl (x ∷ xs) = ground (arith, compare_units_refl xs)

-- Swapping the arguments swaps the answer.
abbrev pub opposite : Ordering → Ordering
opposite Ordering.lt = Ordering.gt
opposite Ordering.eq = Ordering.eq
opposite Ordering.gt = Ordering.lt

pub compare_units_swap : (xs ys : List ℕ) → compare_units ys xs ≡ opposite (compare_units xs ys)
unfolding compare_units
compare_units_swap [] [] = refl
compare_units_swap [] (y ∷ ys) = refl
compare_units_swap (x ∷ xs) [] = refl
compare_units_swap (x ∷ xs) (y ∷ ys) = ground (arith, compare_units_swap xs ys)

pub compare_units-eq : (xs ys : List ℕ) → compare_units xs ys ≡ Ordering.eq → xs ≡ ys
unfolding compare_units
compare_units-eq [] [] e = refl
compare_units-eq [] (y ∷ ys) e = ground arith
compare_units-eq (x ∷ xs) [] e = ground arith
compare_units-eq (x ∷ xs) (y ∷ ys) e = ground (arith, compare_units-eq xs ys)

pub compare_units_trans :
    (xs ys zs : List ℕ)
    → compare_units xs ys ≡ Ordering.lt
    → compare_units ys zs ≡ Ordering.lt
    → compare_units xs zs ≡ Ordering.lt
unfolding compare_units
compare_units_trans [] [] zs h k = ground arith
compare_units_trans [] (y ∷ ys) [] h k = ground arith
compare_units_trans [] (y ∷ ys) (z ∷ zs) h k = refl
compare_units_trans (x ∷ xs) [] zs h k = ground arith
compare_units_trans (x ∷ xs) (y ∷ ys) [] h k = ground arith
compare_units_trans (x ∷ xs) (y ∷ ys) (z ∷ zs) h k = ground (arith, compare_units_trans xs ys zs)

-- A character is no surrogate, and below 0x110000.
scalar_range : (c : Char) → (code c < 0xd800) ⊎ ((0xdfff < code c) × (code c < 0x110000))
scalar_range (char n p) = ground arith

pub units-injective : (s t : String) → units s ≡ units t → s ≡ t
unfolding units
units-injective String.[] String.[] e = refl
units-injective String.[] (String.◌∷◌ d t) e = ground arith
units-injective (String.◌∷◌ c s) String.[] e = ground arith
units-injective (String.◌∷◌ c s) (String.◌∷◌ d t) e =
    ap₂ String.◌∷◌ (Char-path c d same_code) (units-injective s t same_rest)
  where
    same_code : code c ≡ code d
    same_code = ground (arith, scalar_range c, scalar_range d)

    same_rest : units s ≡ units t
    same_rest = ground (arith, scalar_range c, scalar_range d)

pub compare-swap :
    (s t : String) → compare_unicode_code_units t s ≡ opposite (compare_unicode_code_units s t)
unfolding compare_unicode_code_units
compare-swap s t = compare_units_swap (units s) (units t)

-- Only equal texts compare as equal.
pub compare-eq : (s t : String) → compare_unicode_code_units s t ≡ Ordering.eq → s ≡ t
unfolding compare_unicode_code_units
compare-eq s t e = units-injective s t (compare_units-eq (units s) (units t) e)

pub compare_trans :
    (s t u : String)
    → compare_unicode_code_units s t ≡ Ordering.lt
    → compare_unicode_code_units t u ≡ Ordering.lt
    → compare_unicode_code_units s u ≡ Ordering.lt
unfolding compare_unicode_code_units
compare_trans s t u = compare_units_trans (units s) (units t) (units u)
