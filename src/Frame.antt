-- ===== src/Frame.antt =====
-- tools/lib/maintenance-store-codec.mjs: the frame around the canonical text of a document, in bytes.
pub mod Roundtrip
pub mod Examples
use sec_app.Base.{
  ℕ, ◌+◌, ◌-◌, ◌*◌, ◌/◌, ◌%◌, ◌==◌, Bool, true, false, not, ◌&&◌, ◌||◌, Option, none, some, List,
  [], ◌∷◌, ◌++◌, ltb, length, if◌then◌else◌,
}

-- `subarray(0, n)` and `subarray(n)`
abbrev pub take : ℕ → List ℕ → List ℕ
take n [] = []
take n (x ∷ xs) = let rest = take (n - 1) xs in if n == 0 then [] else x ∷ rest

abbrev pub drop : ℕ → List ℕ → List ℕ
drop n [] = []
drop n (x ∷ xs) = let rest = drop (n - 1) xs in if n == 0 then x ∷ xs else rest

-- `equals`
abbrev pub bytes_eq : List ℕ → List ℕ → Bool
bytes_eq [] [] = true
bytes_eq [] (_ ∷ _) = false
bytes_eq (_ ∷ _) [] = false
bytes_eq (x ∷ xs) (y ∷ ys) = (x == y) && bytes_eq xs ys

-- `writeUInt32BE` and `readUInt32BE`
abbrev pub write_u32 : ℕ → List ℕ
write_u32 n = n / 16777216 % 256 ∷ n / 65536 % 256 ∷ n / 256 % 256 ∷ n % 256 ∷ []

abbrev pub read_u32 : List ℕ → ℕ
read_u32 (a ∷ b ∷ c ∷ d ∷ _) = a * 16777216 + b * 65536 + c * 256 + d
read_u32 _ = 0

-- SA_MSC01
abbrev pub magic : List ℕ
magic = 83 ∷ 65 ∷ 95 ∷ 77 ∷ 83 ∷ 67 ∷ 48 ∷ 49 ∷ []

-- `digest` is node:crypto's SHA-256 of bytes.
module _ (digest : List ℕ → List ℕ) where
  -- `frameDigest`
  abbrev pub frame_digest : List ℕ → List ℕ → List ℕ
  frame_digest head payload = digest (head ++ payload)

  -- What `encodeMaintenanceStore` makes of a payload.
  unfoldable pub encode_frame : List ℕ → Option (List ℕ)
  encode_frame payload =
      let head = magic ++ write_u32 (length payload) in
      if ltb 4194304 (length payload)
      then none
      else some (head ++ (frame_digest head payload ++ payload))

  -- The payload that `decodeMaintenanceStore` finds in a frame, after the bounds of `snapshotBytes` on its length.
  unfoldable pub decode_frame : List ℕ → Option (List ℕ)
  decode_frame frame =
      let size = read_u32 (drop 8 frame) in
      if ltb (length frame) 46 || ltb 4194348 (length frame)
      then none
      else if not (bytes_eq (take 8 frame) magic)
      then none
      else if ltb size 2 || ltb 4194304 size || not (length frame == 44 + size)
      then none
      else if not
          (bytes_eq (take 32 (drop 12 frame)) (frame_digest (take 12 frame) (drop 44 frame)))
      then none
      else some (drop 44 frame)
