-- ===== src/Data/Jcs/Permute.antt =====
-- The canonical text does not depend on the order in which an object lists its members.
use Prim.Native.String.{◌++◌}
use sec_app.Base.{String, ◌≡◌, refl, ap, ◌∙◌, ◌≢◌, List, [], ◌∷◌, arith}
use sec_app.Data.Json.{Json, arr, obj, Items, nil, cons, Fields, end, field}
use sec_app.Data.Order.{compare-swap, compare-eq, compare_trans}
use sec_app.Data.Jcs.{
  insert_member, sort_members, member_texts, join, canonical, canonical_items, canonical_fields,
  jcs,
}

-- `Reordered a b`: the same document, the members of each object listed in another order.
mutual
  pub data Reordered : Json → Json → Type 0 where
    unchanged : {a : Json} → Reordered a a
    in_array : {xs ys : Items} → ReorderedItems xs ys → Reordered (arr xs) (arr ys)
    in_object : {fs gs : Fields} → ReorderedFields fs gs → Reordered (obj fs) (obj gs)

  pub data ReorderedItems : Items → Items → Type 0 where
    no_items : ReorderedItems nil nil
    both_items :
        {a b : Json} {xs ys : Items}
        → Reordered a b
        → ReorderedItems xs ys
        → ReorderedItems (cons a xs) (cons b ys)

  pub data ReorderedFields : Fields → Fields → Type 0 where
    no_fields : ReorderedFields end end
    both_fields :
        {k : String} {a b : Json} {fs gs : Fields}
        → Reordered a b
        → ReorderedFields fs gs
        → ReorderedFields (field k a fs) (field k b gs)
    swapped :
        {k j : String} {a b : Json} {fs : Fields}
        → k ≢ j
        → ReorderedFields (field k a (field j b fs)) (field j b (field k a fs))
    then :
        {fs gs hs : Fields} → ReorderedFields fs gs → ReorderedFields gs hs → ReorderedFields fs hs

insert_member_comm :
    (m n : String × String) (xs : List (String × String))
    → m.0 ≢ n.0
    → insert_member m (insert_member n xs) ≡ insert_member n (insert_member m xs)
unfolding insert_member
insert_member_comm m n [] h = ground (arith, compare-swap m.0 n.0, compare-eq m.0 n.0)
insert_member_comm m n (x ∷ xs) h = ground (
  arith,
  compare-swap m.0 n.0,
  compare-eq m.0 n.0,
  compare-swap m.0 x.0,
  compare-eq m.0 x.0,
  compare-swap n.0 x.0,
  compare-eq n.0 x.0,
  compare_trans m.0 x.0 n.0,
  compare_trans n.0 x.0 m.0,
  insert_member_comm m n xs h,
)

mutual
  unfolding canonical sort_members

  Reordered-canonical : {a b : Json} → Reordered a b → canonical a ≡ canonical b
  Reordered-canonical unchanged = refl
  Reordered-canonical (in_array r) =
      ap (λ (ts : List String). "[" ++ (join ts ++ "]")) (items-canonical r)
  Reordered-canonical (in_object r) =
      ap (λ (ms : List (String × String)). "{" ++ (join (member_texts ms) ++ "}"))
        (fields-canonical r)

  items-canonical : {xs ys : Items} → ReorderedItems xs ys → canonical_items xs ≡ canonical_items ys
  items-canonical no_items = refl
  items-canonical (both_items r rs) = cc (Reordered-canonical r, items-canonical rs)

  fields-canonical :
      {fs gs : Fields}
      → ReorderedFields fs gs
      → sort_members (canonical_fields fs) ≡ sort_members (canonical_fields gs)
  fields-canonical no_fields = refl
  fields-canonical (both_fields r rs) = cc (Reordered-canonical r, fields-canonical rs)
  fields-canonical (swapped {k} {j} {a} {b} {fs} h) =
      insert_member_comm (k, canonical a) (j, canonical b) (sort_members (canonical_fields fs)) h
  fields-canonical (then r s) = fields-canonical r ∙ fields-canonical s

-- Two documents that differ only in the order of their objects' members, at any depth, have one
-- canonical text.
pub jcs-Reordered : {a b : Json} → Reordered a b → jcs a ≡ jcs b
unfolding jcs
jcs-Reordered r = Reordered-canonical r
