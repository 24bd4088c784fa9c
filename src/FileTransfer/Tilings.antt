-- ===== src/FileTransfer/Tilings.antt =====
-- Frames that follow on each other, as `FileFrameAssembler` of src/net/fileTransferProtocol.ts sees
-- them: none is a duplicate, none overlaps, and sorted by offset they leave no gap.
use nkc.Base.{
  ℕ, suc, ◌+◌, ◌≤◌, ◌≡◌, refl, sym, subst, ◌∙◌, ap, true, false, none, some, List, [], ◌∷◌, ◌++◌,
  String, ◌==◌, length, length-append, arith, append-nil, append_assoc,
}
use nkc.Base.Sort
use nkc.FileTransfer.{Frame}
use nkc.FileTransfer.Assembler.{frame_at, overlaps_any, cover, offset_le}
use nkc.FileTransfer.Frames.{payload, Piece, Tiles}

module _ (transfer : String) (chunk total count : ℕ) where
  abbrev pub IsPiece : ℕ → ℕ → Frame → Type 0
  IsPiece index offset f = Piece transfer chunk total count index offset f

  abbrev pub IsTiling : ℕ → ℕ → List Frame → Type 0
  IsTiling index offset fs = Tiles transfer chunk total count index offset fs

  pub at_place : (f : Frame) (i j o q : ℕ) → i ≡ j → o ≡ q → IsPiece i o f → IsPiece j q f
  at_place f i j o q same_index same_offset p =
      subst (λ k. IsPiece k q f) same_index (subst (λ k. IsPiece i k f) same_offset p)

  pub IsTiling-snoc :
      (index offset : ℕ) (fs : List Frame) (f : Frame)
      → IsTiling index offset fs
      → IsPiece (index + length fs) (offset + length (payload fs)) f
      → IsTiling index offset (fs ++ (f ∷ []))
  IsTiling-snoc index offset [] f t p = (at_place f _ _ _ _ (omega arith) (omega arith) p, tt)
  IsTiling-snoc index offset (g ∷ gs) f t p = (
    t.0,
    IsTiling-snoc (suc index) (offset + length g.ciphertext) gs f t.1 (
        at_place f _ _ _ _ (omega arith) (omega (arith, length-append g.ciphertext (payload gs)))
          p),
  )

  pub extended :
      (done : List Frame) (f : Frame)
      → IsTiling 0 0 done
      → IsPiece (length done) (length (payload done)) f
      → IsTiling 0 0 (done ++ (f ∷ []))
  extended done f t p =
      IsTiling-snoc 0 0 done f t (at_place f _ _ _ _ (omega arith) (omega arith) p)

  -- The same frames, from an index and an offset that are written in another way.
  pub moved : (i j o q : ℕ) (fs : List Frame) → i ≡ j → o ≡ q → IsTiling i o fs → IsTiling j q fs
  moved i j o q fs same_index same_offset t =
      subst (λ k. IsTiling k q fs) same_index (subst (λ k. IsTiling i k fs) same_offset t)

  pub payload-snoc :
      (fs : List Frame) (f : Frame) → payload (fs ++ (f ∷ [])) ≡ payload fs ++ f.ciphertext
  payload-snoc [] f = append-nil f.ciphertext
  payload-snoc (g ∷ gs) f =
      ap (λ ys. g.ciphertext ++ ys) (payload-snoc gs f)
      ∙ sym (append_assoc g.ciphertext (payload gs) f.ciphertext)

  -- No earlier frame has the index, or touches the range, of one that follows them.
  pub frame_at-later :
      (index offset later : ℕ) (fs : List Frame)
      → IsTiling index offset fs
      → index + length fs ≤ later
      → frame_at later fs ≡ none
  unfolding frame_at
  frame_at-later index offset later [] t h = refl
  frame_at-later index offset later (f ∷ fs) t h =
      let i : f.frame_index ≡ index = t.0.index_is in
      ground (
        arith,
        frame_at-later (suc index) (offset + length f.ciphertext) later fs t.1 (omega arith),
        i,
      )

  pub overlaps_any-later :
      (index offset : ℕ) (fs : List Frame) (f : Frame)
      → IsTiling index offset fs
      → offset + length (payload fs) ≤ f.ciphertext_offset
      → overlaps_any f fs ≡ false
  unfolding overlaps_any
  overlaps_any-later index offset [] f t h = refl
  overlaps_any-later index offset (g ∷ gs) f t h =
      let size = length-append g.ciphertext (payload gs) in
      let i : g.ciphertext_offset ≡ offset = t.0.offset_is in
      let later =
        overlaps_any-later (suc index) (offset + length g.ciphertext) gs f t.1
          (omega (arith, size)) in
      ground (arith, later, i, size)

  pub sort-IsTiling :
      (index offset : ℕ) (fs : List Frame) → IsTiling index offset fs → Sort.sort offset_le fs ≡ fs
  unfolding Sort.sort Sort.insert
  sort-IsTiling index offset [] t = refl
  sort-IsTiling index offset (f ∷ []) t = refl
  sort-IsTiling index offset (f ∷ g ∷ gs) t =
      let rest = sort-IsTiling (suc index) (offset + length f.ciphertext) (g ∷ gs) t.1 in
      let in_order : offset_le f g ≡ true = ground (arith, t.0.offset_is, t.1.0.offset_is) in
      ap (Sort.insert offset_le f) rest ∙ simp in_order refl

  pub cover-IsTiling :
      (index offset : ℕ) (fs : List Frame)
      → IsTiling index offset fs
      → cover offset fs ≡ some (payload fs)
  unfolding cover
  cover-IsTiling index offset [] t = refl
  cover-IsTiling index offset (f ∷ fs) t =
      let rest = cover-IsTiling (suc index) (offset + length f.ciphertext) fs t.1 in
      let here : (f.ciphertext_offset == offset) ≡ true = ground (arith, t.0.offset_is) in
      rw (here, rest, cover) refl
