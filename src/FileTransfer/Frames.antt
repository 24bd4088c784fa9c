-- ===== src/FileTransfer/Frames.antt =====
-- The frames that `splitFileChunkFrames` of src/net/fileTransferProtocol.ts makes of a chunk.
use native.Mathlib.Nat.{div-eq-sub-div, div-eq_of_lt}
use nkc.Base.{
  ℕ, zero, suc, ◌+◌, ◌-◌, ◌/◌, ◌≤◌, ◌<◌, ◌≡◌, refl, sym, subst, ◌∙◌, ap, inl, inr, true, ◌⊎◌, some,
  List, [], ◌∷◌, ◌++◌, String, length, take, drop, arith,
}
use nkc.FileTransfer.{
  Bytes, Frame, ceil_div, frames_from, split_file_chunk_frames, is_uuid, max_frames_per_chunk,
}

-- What the frames carry.
abbrev pub payload : List Frame → Bytes
payload [] = []
payload (f ∷ fs) = f.ciphertext ++ payload fs

-- A frame of a chunk, at an index and an offset.
pub record Piece (transfer : String) (chunk total count index offset : ℕ) (f : Frame) : Type 0 where
  pub version : f.protocol_version ≡ 1
  pub transfer_is : f.transfer_id ≡ transfer
  pub chunk_is : f.chunk_index ≡ chunk
  pub total_is : f.ciphertext_length ≡ total
  pub count_is : f.frame_count ≡ count
  pub index_is : f.frame_index ≡ index
  pub offset_is : f.ciphertext_offset ≡ offset
  pub some_byte : 1 ≤ length f.ciphertext

module _ (transfer : String) (chunk total count : ℕ) where
  -- The frames follow on each other, from an index and an offset on.
  abbrev pub Tiles : ℕ → ℕ → List Frame → Type 0
  Tiles index offset [] = Unit
  Tiles index offset (f ∷ fs) =
      Piece transfer chunk total count index offset f
      × Tiles (suc index) (offset + length f.ciphertext) fs

  ceil_step : (a b : ℕ) → 1 ≤ b → ceil_div (suc a) b ≡ a / b + 1
  ceil_step a b some_b =
      div-eq-sub-div {m = b} {n = suc a + (b - 1)} (omega arith) (omega arith)
      ∙ ap (λ k. k / b + 1) {x = suc a + (b - 1) - b} {y = a} (omega arith)

  ceil_zero : (a b : ℕ) → 1 ≤ b → ceil_div a b ≡ 0 → a ≡ 0
  ceil_zero zero b some_b h = refl
  ceil_zero (suc a) b some_b h = absurd (omega (arith, ceil_step a b some_b))

  ceil_rest : (a b : ℕ) → 1 ≤ b → (b ≤ a) ⊎ (a < b) → ceil_div (suc a - b) b ≡ a / b
  ceil_rest a b some_b (inl le) = ap (λ k. k / b) {x = suc a - b + (b - 1)} {y = a} (omega arith)
  ceil_rest a b some_b (inr lt) =
      div-eq_of_lt {n = suc a - b + (b - 1)} {m = b} (omega arith)
      ∙ sym (div-eq_of_lt {n = a} {m = b} lt)

  le_or_lt : (a b : ℕ) → (b ≤ a) ⊎ (a < b)
  le_or_lt a b = ground arith

  ceil_suc : (a b n : ℕ) → 1 ≤ b → ceil_div a b ≡ suc n → (1 ≤ a) × (ceil_div (a - b) b ≡ n)
  ceil_suc zero b n some_b h =
      absurd (omega (arith, div-eq_of_lt {n = 0 + (b - 1)} {m = b} (omega arith)))
  ceil_suc (suc a) b n some_b h =
      (omega arith, ceil_rest a b some_b (le_or_lt a b) ∙ omega (arith, ceil_step a b some_b))

  take-drop : {A : Type 0} (n : ℕ) (xs : List A) → take n xs ++ drop n xs ≡ xs
  take-drop zero xs = refl
  take-drop (suc n) [] = refl
  take-drop (suc n) (x ∷ xs) = ap (λ ys. x ∷ ys) (take-drop n xs)

  length-drop : {A : Type 0} (n : ℕ) (xs : List A) → length (drop n xs) ≡ length xs - n
  length-drop zero xs = omega arith
  length-drop (suc n) [] = omega arith
  length-drop (suc n) (x ∷ xs) = omega (arith, length-drop n xs)

  length-take :
      {A : Type 0} (n : ℕ) (xs : List A)
      → (length (take n xs) ≡ n) ⊎ ((length (take n xs) ≡ length xs) × (length xs ≤ n))
  length-take zero xs = inl refl
  length-take (suc n) [] = inr (refl, omega arith)
  length-take (suc n) (x ∷ xs) = ground (arith, length-take n xs)

  no_bytes : (rest : Bytes) → length rest ≡ 0 → [] ≡ rest
  no_bytes [] h = refl
  no_bytes (x ∷ xs) h = absurd (omega arith)

  pub frames_from-Tiles :
      (size index offset n : ℕ) (rest : Bytes)
      → 1 ≤ size
      → ceil_div (length rest) size ≡ n
      → let fs = frames_from transfer chunk total size count index offset n rest in
        Tiles index offset fs × (payload fs ≡ rest) × (length fs ≡ n)
  unfolding frames_from
  frames_from-Tiles size index offset zero rest some_size h =
      (tt, no_bytes rest (ceil_zero (length rest) size some_size h), refl)
  frames_from-Tiles size index offset (suc n) rest some_size h =
      let next = ceil_suc (length rest) size n some_size h in
      let later =
        frames_from-Tiles size (suc index) (offset + size) n (drop size rest) some_size
          (ap (λ k. ceil_div k size) (length-drop size rest) ∙ next.1) in
      (
        (
          record {
            version = refl;
            transfer_is = refl;
            chunk_is = refl;
            total_is = refl;
            count_is = refl;
            index_is = refl;
            offset_is = refl;
            some_byte = first_some (length-take size rest) next.0;
          },
          tiles_on (length-take size rest) next.1 later.0,
        ),
        ap (λ ys. take size rest ++ ys) later.1 ∙ take-drop size rest,
        ap suc later.2,
      )
    where
      first_some :
          (length (take size rest) ≡ size)
            ⊎ ((length (take size rest) ≡ length rest) × (length rest ≤ size))
          → 1 ≤ length rest
          → 1 ≤ length (take size rest)
      first_some (inl full) some_rest = omega arith
      first_some (inr (all, short)) some_rest = omega arith

      later_frames : ℕ → List Frame
      later_frames k =
          frames_from transfer chunk total size count (suc index) (offset + size) k (drop size rest)

      tiles_on :
          (length (take size rest) ≡ size)
            ⊎ ((length (take size rest) ≡ length rest) × (length rest ≤ size))
          → ceil_div (length rest - size) size ≡ n
          → Tiles (suc index) (offset + size) (later_frames n)
          → Tiles (suc index) (offset + length (take size rest)) (later_frames n)
      tiles_on (inl full) count_is t =
          subst (λ k. Tiles (suc index) (offset + k) (later_frames n)) (sym full) t
      tiles_on (inr (all, short)) count_is t =
          let none_left : ceil_div (length rest - size) size ≡ 0 =
            div-eq_of_lt {n = length rest - size + (size - 1)} {m = size} (omega arith) in
          subst (λ k. Tiles (suc index) (offset + length (take size rest)) (later_frames k))
            (sym none_left ∙ count_is) tt

-- What a successful split has checked, and its frames.
pub split_file_chunk_frames_lem :
    (transfer : String) (chunk : ℕ) (ciphertext : Bytes) (size : ℕ) (fs : List Frame)
    → split_file_chunk_frames transfer chunk ciphertext size ≡ some fs
    → let count = ceil_div (length ciphertext) size in
      (is_uuid transfer ≡ true)
      × (1 ≤ size)
      × (1 ≤ count)
      × (count ≤ max_frames_per_chunk)
      × (frames_from transfer chunk (length ciphertext) size count 0 0 count ciphertext ≡ fs)
unfolding split_file_chunk_frames
split_file_chunk_frames_lem transfer chunk ciphertext size fs h = ground arith
