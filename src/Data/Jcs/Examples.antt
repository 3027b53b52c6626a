-- ===== src/Data/Jcs/Examples.antt =====
-- Two listings of one document.
use sec_app.Base.{String, true, ◌≡◌, ◌≢◌, arith, eq_iff, str_eq}
use sec_app.Data.Json.{Json, num, bool, obj, end, field}
use sec_app.Data.Jcs.{jcs}
use sec_app.Data.Jcs.Permute.{in_object, swapped, jcs-Reordered}

abbrev left : Json
left = obj (field "b" (num 1) (field "a" (bool true) end))

abbrev right : Json
right = obj (field "a" (bool true) (field "b" (num 1) end))

names_differ : ◌≢◌ {A = String} "b" "a"
names_differ = λ e. let same : str_eq "b" "a" ≡ true = (eq_iff "b" "a").1 e in ground arith

jcs-Reordered_example : jcs left ≡ jcs right
jcs-Reordered_example = jcs-Reordered (in_object (swapped names_differ))
