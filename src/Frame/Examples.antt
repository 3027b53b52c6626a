-- ===== src/Frame/Examples.antt =====
-- A frame under a digest of 32 bytes, and what is read from it.
use sec_app.Base.{ℕ, none, some, List, [], ◌∷◌, ◌++◌, ◌≡◌, refl, arith}
use sec_app.Frame.{write_u32, magic, encode_frame, decode_frame}
use sec_app.Frame.Roundtrip.{decode_frame-encode_frame}

-- Stands in for the digest: 32 bytes whatever the text.
abbrev flat : List ℕ → List ℕ
flat x = let a = 1 ∷ 2 ∷ 3 ∷ 4 ∷ 5 ∷ 6 ∷ 7 ∷ 8 ∷ [] in a ++ (a ++ (a ++ a))

abbrev empty_object : List ℕ
empty_object = 123 ∷ 125 ∷ []

abbrev framed : List ℕ
framed = (magic ++ write_u32 2) ++ (flat [] ++ empty_object)

encoded : encode_frame flat empty_object ≡ some framed
unfolding encode_frame
encoded = refl

misnamed : decode_frame flat (0 ∷ framed) ≡ none
unfolding decode_frame
misnamed = refl

decode_frame-encode_frame_example : decode_frame flat framed ≡ some empty_object
decode_frame-encode_frame_example =
    decode_frame-encode_frame flat empty_object framed (λ x. refl) (ground arith) encoded
