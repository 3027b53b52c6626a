-- ===== src/Data/Jcs.antt =====
-- tools/lib/jcs.mjs: the canonical text of a JSON document (RFC 8785) and its digest.
-- SHA-256 of the UTF-8 bytes of a text is node:crypto's, and a parameter of what digests.
-- What `canonical` refuses (proxies, cycles, symbols, accessors, sparse arrays, unpaired
-- surrogates, non-finite numbers) is no value of the type `Json`.
mod Permute
mod Examples
use Prim.Native.String.{◌++◌, slice}
use sec_app.Base.{
  ℕ, ◌+◌, ◌/◌, ◌%◌, ◌≡◌, refl, Char, code, String, Option, none, some, List, [], ◌∷◌, Ordering,
  Bool, true, false, ltb, ◌==◌, if◌then◌else◌, str_eq,
}
use sec_app.Data.Decimal.{decimal}
use sec_app.Data.Json.{Json, null, bool, num, str, arr, obj, Items, nil, cons, Fields, end, field}
use sec_app.Data.Order.{compare_unicode_code_units}

abbrev hex_digit : ℕ → String
hex_digit d = slice "0123456789abcdef" d (d + 1)

-- One character inside the quotes that JSON.stringify writes.
escape : Char → String
escape c =
    let n = code c in
    if n == b'"'
    then "\\\""
    else if n == b'\\'
    then "\\\\"
    else if n == 8
    then "\\b"
    else if n == 12
    then "\\f"
    else if n == 10
    then "\\n"
    else if n == 13
    then "\\r"
    else if n == 9
    then "\\t"
    else if ltb n 32
    then "\\u00" ++ (hex_digit (n / 16) ++ hex_digit (n % 16))
    else String.◌∷◌ c String.[]

escape_all : String → String
escape_all String.[] = ""
escape_all (String.◌∷◌ c s) = escape c ++ escape_all s

-- JSON.stringify of a text.
pub stringify : String → String
unfolding escape escape_all
stringify s = "\"" ++ (escape_all s ++ "\"")

-- Array.prototype.join(",")
pub join : List String → String
join [] = ""
join (s ∷ []) = s
join (s ∷ t ∷ rest) = s ++ ("," ++ join (t ∷ rest))

-- The members in the order of `sort(compareUnicodeCodeUnits)`; keys of one object differ.
pub insert_member : String × String → List (String × String) → List (String × String)
insert_member m [] = m ∷ []
insert_member m (x ∷ xs) =
    let later = x ∷ insert_member m xs in
    elim (compare_unicode_code_units m.0 x.0) [
      | Ordering.gt ↦ later
      | Ordering.eq ↦ m ∷ x ∷ xs
      | Ordering.lt ↦ m ∷ x ∷ xs
    ]

pub sort_members : List (String × String) → List (String × String)
sort_members [] = []
sort_members (m ∷ ms) = insert_member m (sort_members ms)

pub member_texts : List (String × String) → List String
member_texts [] = []
member_texts ((key, text) ∷ ms) = (stringify key ++ (":" ++ text)) ∷ member_texts ms

unfoldable mutual
  pub canonical : Json → String
  canonical null = "null"
  canonical (bool true) = "true"
  canonical (bool false) = "false"
  canonical (num n) = decimal n
  canonical (str s) = stringify s
  canonical (arr xs) = "[" ++ (join (canonical_items xs) ++ "]")
  canonical (obj fs) = "{" ++ (join (member_texts (sort_members (canonical_fields fs))) ++ "}")

  pub canonical_items : Items → List String
  canonical_items nil = []
  canonical_items (cons x xs) = canonical x ∷ canonical_items xs

  pub canonical_fields : Fields → List (String × String)
  canonical_fields end = []
  canonical_fields (field k v fs) = (k, canonical v) ∷ canonical_fields fs

unfoldable pub jcs : Json → String
unfolding canonical decimal stringify join insert_member sort_members member_texts
    compare_unicode_code_units
jcs v = canonical v

-- `deleteJsonPointer` for a key of the object itself; a missing key throws.
delete_field : String → Fields → Option Fields
delete_field key end = none
delete_field key (field k v fs) = elim (str_eq k key) [
  | true ↦ some fs
  | false ↦ elim (delete_field key fs) [ none ↦ none | some rest ↦ some (field k v rest) ]
]

unfoldable pub delete_json_pointer : Json → String → Option Json
unfolding delete_field
delete_json_pointer (obj fs) key = elim (delete_field key fs) [
  | none ↦ none
  | some rest ↦ some (obj rest)
]
delete_json_pointer _ key = none

module _ (sha256 : String → String) where
  unfoldable pub jcs_sha256 : Json → String
  unfolding jcs
  jcs_sha256 v = sha256 (jcs v)

  -- The digest of a document without one of its keys. A missing key throws in the source; the
  -- documents of the models always have theirs.
  unfoldable pub digest_with_exclusion : Json → String → String
  unfolding jcs_sha256 delete_json_pointer
  digest_with_exclusion v key = elim (delete_json_pointer v key) [
    | none ↦ ""
    | some rest ↦ jcs_sha256 rest
  ]

  -- The models' `same`: equal digests.
  unfoldable pub same : Json → Json → Bool
  unfolding jcs_sha256
  same a b = str_eq (jcs_sha256 a) (jcs_sha256 b)
