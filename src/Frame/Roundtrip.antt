-- ===== src/Frame/Roundtrip.antt =====
-- What is read from the frame of a payload.
use sec_app.Base.{
  ℕ, ◌+◌, ◌≤◌, true, some, List, [], ◌∷◌, ◌++◌, ◌≡◌, refl, sym, ap, ◌∙◌, arith, length,
  length-append,
}
use sec_app.Frame.{
  take, drop, bytes_eq, write_u32, read_u32, magic, frame_digest, encode_frame, decode_frame,
}

take-append : (xs ys : List ℕ) → take (length xs) (xs ++ ys) ≡ xs
take-append [] [] = refl
take-append [] (y ∷ ys) = refl
take-append (x ∷ xs) ys = ground (arith, take-append xs ys)

drop-append : (xs ys : List ℕ) → drop (length xs) (xs ++ ys) ≡ ys
drop-append [] [] = refl
drop-append [] (y ∷ ys) = refl
drop-append (x ∷ xs) ys = ground (arith, drop-append xs ys)

bytes_eq_refl : (xs : List ℕ) → bytes_eq xs xs ≡ true
bytes_eq_refl [] = refl
bytes_eq_refl (x ∷ xs) = ground (arith, bytes_eq_refl xs)

read_u32-write_u32 : (n : ℕ) (rest : List ℕ) → n ≤ 4194304 → read_u32 (write_u32 n ++ rest) ≡ n
read_u32-write_u32 n rest h = omega (arith, h)

module _ (digest : List ℕ → List ℕ) (payload : List ℕ)
    (sized : (x : List ℕ) → length (digest x) ≡ 32) where
  abbrev head : List ℕ
  head = magic ++ write_u32 (length payload)

  abbrev seal : List ℕ
  seal = frame_digest digest head payload

  take-head : take 12 (head ++ (seal ++ payload)) ≡ head
  take-head = take-append head (seal ++ payload)

  drop-head : drop 12 (head ++ (seal ++ payload)) ≡ seal ++ payload
  drop-head = drop-append head (seal ++ payload)

  take-seal : take 32 (seal ++ payload) ≡ seal
  take-seal = ap (λ n. take n (seal ++ payload)) (sym (sized _)) ∙ take-append seal payload

  drop-seal : drop 44 (head ++ (seal ++ payload)) ≡ payload
  drop-seal = ap (λ n. drop n (seal ++ payload)) (sym (sized _)) ∙ drop-append seal payload

  length-frame : length (head ++ (seal ++ payload)) ≡ 44 + length payload
  length-frame = ground (arith, length-append seal payload, sized (head ++ payload))

  sealed-authentic :
      bytes_eq (take 32 (drop 12 (head ++ (seal ++ payload)))) (
        frame_digest digest
          (take 12 (head ++ (seal ++ payload)))
          (drop 44 (head ++ (seal ++ payload))))
      ≡ true
  sealed-authentic =
      ap
        (λ v. bytes_eq (take 32 v) (
          frame_digest digest (take 12 (head ++ (seal ++ payload)))
            (drop 44 (head ++ (seal ++ payload)))))
        drop-head
      ∙ ap
          (λ v. bytes_eq v (
            frame_digest digest (take 12 (head ++ (seal ++ payload)))
              (drop 44 (head ++ (seal ++ payload)))))
          take-seal
      ∙ ap (λ v. bytes_eq seal (frame_digest digest v (drop 44 (head ++ (seal ++ payload)))))
          take-head
      ∙ ap (λ v. bytes_eq seal (frame_digest digest head v)) drop-seal
      ∙ bytes_eq_refl seal

  accepts_sealed :
      2 ≤ length payload
      → length payload ≤ 4194304
      → decode_frame digest (head ++ (seal ++ payload)) ≡ some payload
  unfolding decode_frame
  accepts_sealed low high = ground (
    arith,
    read_u32-write_u32 (length payload) (seal ++ payload) high,
    sealed-authentic,
    drop-seal,
    length-frame,
  )

-- Where the digest of any bytes has 32 bytes, a payload of at least two bytes that is encoded is what
-- decoding its frame gives back.
pub decode_frame-encode_frame :
    (digest : List ℕ → List ℕ) (payload frame : List ℕ)
    → ((x : List ℕ) → length (digest x) ≡ 32)
    → 2 ≤ length payload
    → encode_frame digest payload ≡ some frame
    → decode_frame digest frame ≡ some payload
unfolding encode_frame
decode_frame-encode_frame digest payload frame sized low encoded =
    ground (arith, encoded, low, accepts_sealed digest payload sized low)
