-- ===== src/Data/Json.antt =====
-- JSON documents: what JSON.parse returns and what tools/lib/jcs.mjs digests. Numbers are the
-- nonnegative safe integers, the only ones in the documents that the models digest; a text is a
-- sequence of Unicode scalar values, so `canonical` of jcs.mjs has no unpaired surrogate to refuse.
use sec_app.Base.{ℕ, Bool, String, Option, none, some, List, [], ◌∷◌}

mutual
  pub data Json : Type 0 where
    null : Json
    bool : Bool → Json
    num : ℕ → Json
    str : String → Json
    arr : Items → Json
    obj : Fields → Json

  pub data Items : Type 0 where
    nil : Items
    cons : Json → Items → Items

  pub data Fields : Type 0 where
    end : Fields
    field : String → Json → Fields → Fields

abbrev pub items {ℓ} : {A : Type ℓ} → (A → Json) → List A → Items
items f [] = nil
items f (x ∷ xs) = cons (f x) (items f xs)

abbrev pub fields : List (String × Json) → Fields
fields [] = end
fields ((k, v) ∷ rest) = field k v (fields rest)

-- An object literal and an array.
abbrev pub object : List (String × Json) → Json
object kvs = obj (fields kvs)

abbrev pub array {ℓ} : {A : Type ℓ} → (A → Json) → List A → Json
array f xs = arr (items f xs)

abbrev pub nullable {ℓ} : {A : Type ℓ} → (A → Json) → Option A → Json
nullable f none = null
nullable f (some x) = f x
