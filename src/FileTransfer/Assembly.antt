-- ===== src/FileTransfer/Assembly.antt =====
-- `FileFrameAssembler` of src/net/fileTransferProtocol.ts gives back what was split.
use nkc.Base.{
  ℕ, ◌+◌, ◌^◌, ◌≤◌, ◌<◌, ◌≡◌, refl, subst, ◌∙◌, ap, true, false, not, ◌||◌, none, some, List, [],
  ◌∷◌, ◌++◌, String, ltb, leb, ◌==◌, length, length-append, arith, append_assoc, eq_refl,
}
use nkc.FileTransfer.{
  Bytes, Frame, is_uuid, chunk_size, tag_bytes, max_frames_per_chunk, max_incomplete_chunks,
  split_file_chunk_frames, ceil_div,
}
use nkc.FileTransfer.Assembler.{
  PartialChunk, Pushed, waits, gives, frame_error, find_chunk, delete_chunk, frame_at, overlaps_any,
  cover, assemble, finish, add_frame, push_into, push, push_all, new_chunk, has_key,
}
use nkc.FileTransfer.Frames.{payload, frames_from-Tiles, split_file_chunk_frames_lem}
use nkc.FileTransfer.Tilings.{
  IsPiece, IsTiling, extended, moved, payload-snoc, frame_at-later, overlaps_any-later,
  sort-IsTiling, cover-IsTiling,
}

module _ (transfer : String) (chunk total count : ℕ) where
  -- The map entry that has taken these frames.
  abbrev entry : List Frame → PartialChunk
  entry fs = record {
    transfer_id = transfer;
    chunk_index = chunk;
    size = total;
    frame_count = count;
    frames = fs;
  }

  add_frame-waits :
      (fs : List Frame) (f : Frame) (others : List PartialChunk)
      → overlaps_any f fs ≡ false
      → length fs + 1 < count
      → add_frame f (entry fs) others ≡ (waits, entry (fs ++ (f ∷ [])) ∷ others)
  unfolding add_frame
  add_frame-waits fs f others apart more =
      let size = length-append fs (f ∷ []) in
      let unfinished : (length (fs ++ (f ∷ [])) == count) ≡ false = ground (arith, size) in
      simp (apart, unfinished) refl

  add_frame-gives :
      (fs : List Frame) (f : Frame) (others : List PartialChunk)
      → overlaps_any f fs ≡ false
      → length fs + 1 ≡ count
      → IsTiling transfer chunk total count 0 0 (fs ++ (f ∷ []))
      → length (payload (fs ++ (f ∷ []))) ≡ total
      → add_frame f (entry fs) others ≡ (gives (payload (fs ++ (f ∷ []))), others)
  unfolding add_frame finish assemble
  add_frame-gives fs f others apart last t whole =
      let all = fs ++ (f ∷ []) in
      let size = length-append fs (f ∷ []) in
      let finished : (length all == count) ≡ true = ground (arith, size) in
      let covered =
        ap (cover 0) (sort-IsTiling transfer chunk total count 0 0 all t)
        ∙ cover-IsTiling transfer chunk total count 0 0 all t in
      let full : (length (payload all) == total) ≡ true = ground arith in
      simp (apart, finished) (rw (covered, full, finish, assemble) refl)

  delete_absent :
      (cs : List PartialChunk)
      → find_chunk transfer chunk cs ≡ none
      → delete_chunk transfer chunk cs ≡ cs
  unfolding find_chunk delete_chunk
  delete_absent [] h = refl
  delete_absent (c ∷ cs) h = ground (arith, delete_absent cs)

  is_entry : (fs : List Frame) → has_key transfer chunk (entry fs) ≡ true
  is_entry fs = simp (eq_refl transfer) (ground arith)

  push_into-adds :
      (fs : List Frame) (f : Frame) (others : List PartialChunk)
      → IsTiling transfer chunk total count 0 0 fs
      → IsPiece transfer chunk total count (length fs) (length (payload fs)) f
      → push_into f (entry fs) others ≡ add_frame f (entry fs) others
  unfolding push_into
  push_into-adds fs f others t p =
      let same : (not (total == f.ciphertext_length) || not (count == f.frame_count)) ≡ false =
        ground (arith, p.total_is, p.count_is) in
      let new : frame_at f.frame_index fs ≡ none =
        frame_at-later transfer chunk total count 0 0 f.frame_index fs t
          (omega (arith, p.index_is)) in
      simp same (rw (new, push_into) refl)

  found_entry :
      (fs : List Frame) (others : List PartialChunk) (f : Frame) (index offset : ℕ)
      → IsPiece transfer chunk total count index offset f
      → find_chunk f.transfer_id f.chunk_index (entry fs ∷ others) ≡ some (entry fs)
  unfolding find_chunk
  found_entry fs others f index offset p = rw (p.transfer_is, p.chunk_is) (simp (is_entry fs) refl)

  deleted_entry :
      (fs : List Frame) (others : List PartialChunk) (f : Frame) (index offset : ℕ)
      → IsPiece transfer chunk total count index offset f
      → find_chunk transfer chunk others ≡ none
      → delete_chunk f.transfer_id f.chunk_index (entry fs ∷ others) ≡ others
  unfolding delete_chunk
  deleted_entry fs others f index offset p absent =
      let all = entry fs ∷ others in
      ap (λ x. delete_chunk x f.chunk_index all) p.transfer_is
      ∙ ap (λ x. delete_chunk transfer x all) p.chunk_is
      ∙ simp (is_entry fs) (delete_absent others absent)

  module _ (uuid : is_uuid transfer ≡ true) (small : chunk < 2 ^ 32) (some_frame : 1 ≤ count)
      (few_frames : count ≤ max_frames_per_chunk) (some_byte : tag_bytes < total)
      (few_bytes : total ≤ chunk_size + tag_bytes) where
    frame_error-none :
        (index offset : ℕ) (f : Frame)
        → IsPiece transfer chunk total count index offset f
        → index < count
        → offset + length f.ciphertext ≤ total
        → frame_error f ≡ none
    unfolding frame_error
    frame_error-none index offset f p inside fits = simp (e1, e2, e3, e4, e5, e6, e7) refl
      where
        e1 : (f.protocol_version == 1) ≡ true
        e1 = ground (arith, p.version)

        e2 : is_uuid f.transfer_id ≡ true
        e2 = ap is_uuid p.transfer_is ∙ uuid

        e3 : leb (2 ^ 32) f.chunk_index ≡ false
        e3 = ground (arith, p.chunk_is)

        e4 : (ltb f.frame_count 1 || ltb max_frames_per_chunk f.frame_count) ≡ false
        e4 = ground (arith, p.count_is)

        e5 : leb f.frame_count f.frame_index ≡ false
        e5 = ground (arith, p.count_is, p.index_is)

        e6 :
            (leb f.ciphertext_length tag_bytes || ltb (chunk_size + tag_bytes) f.ciphertext_length)
            ≡ false
        e6 = ground (arith, p.total_is)

        e7 :
            ((length f.ciphertext == 0)
              || ltb f.ciphertext_length (f.ciphertext_offset + length f.ciphertext))
            ≡ false
        e7 = ground (arith, p.total_is, p.offset_is, p.some_byte)

    push-known :
        (fs : List Frame) (f : Frame) (others : List PartialChunk)
        → IsTiling transfer chunk total count 0 0 fs
        → IsPiece transfer chunk total count (length fs) (length (payload fs)) f
        → length fs < count
        → length (payload fs) + length f.ciphertext ≤ total
        → find_chunk transfer chunk others ≡ none
        → push f (entry fs ∷ others) ≡ add_frame f (entry fs) others
    unfolding push find_chunk delete_chunk
    push-known fs f others t p inside fits absent =
        rw
          (
            frame_error-none (length fs) (length (payload fs)) f p inside fits,
            found_entry fs others f _ _ p,
            push,
          )
          (ap (push_into f (entry fs)) (deleted_entry fs others f _ _ p absent)
            ∙ push_into-adds fs f others t p)

    push-new :
        (f : Frame) (others : List PartialChunk)
        → IsPiece transfer chunk total count 0 0 f
        → length f.ciphertext ≤ total
        → find_chunk transfer chunk others ≡ none
        → length others < max_incomplete_chunks
        → push f others ≡ add_frame f (entry []) others
    unfolding push
    push-new f others p fits absent room =
        let no_entry : find_chunk f.transfer_id f.chunk_index others ≡ none =
          rw (p.transfer_is, p.chunk_is) absent in
        let enough : leb max_incomplete_chunks (length others) ≡ false = ground arith in
        let fresh : new_chunk f ≡ entry [] =
          rw (p.transfer_is, p.chunk_is, p.total_is, p.count_is) refl in
        rw (frame_error-none 0 0 f p some_frame (omega (arith, fits)), no_entry, enough, push)
          (ap (λ c. push_into f c others) fresh ∙ push_into-adds [] f others tt p)

    -- Frames for a chunk of which some have come.
    push_all-known :
        (done : List Frame) (f : Frame) (fs : List Frame) (others : List PartialChunk) (r : Pushed)
        → IsTiling transfer chunk total count 0 0 done
        → IsTiling transfer chunk total count (length done) (length (payload done)) (f ∷ fs)
        → length done + length (f ∷ fs) ≡ count
        → length (payload done) + length (payload (f ∷ fs)) ≡ total
        → find_chunk transfer chunk others ≡ none
        → push_all (f ∷ fs) (r, entry done ∷ others) ≡ (gives (payload (done ++ (f ∷ fs))), others)
    unfolding push_all
    push_all-known done f [] others r t next last whole absent =
        let size = length-append f.ciphertext (payload []) in
        let all = extended transfer chunk total count done f t next.0 in
        let total_size =
          ap length (payload-snoc transfer chunk total count done f)
          ∙ length-append (payload done) f.ciphertext in
        push-known done f others t next.0 (omega arith) (omega (arith, size)) absent
        ∙ add_frame-gives done f others
            (overlaps_any-later transfer chunk total count 0 0 done f t
              (omega (arith, next.0.offset_is)))
            last all (omega (arith, total_size, size))
    push_all-known done f (g ∷ gs) others r t next last whole absent =
        let size = length-append f.ciphertext (payload (g ∷ gs)) in
        let all = extended transfer chunk total count done f t next.0 in
        let count_size = length-append done (f ∷ []) in
        let total_size =
          ap length (payload-snoc transfer chunk total count done f)
          ∙ length-append (payload done) f.ciphertext in
        let first =
          push-known done f others t next.0 (omega arith) (omega (arith, size)) absent
          ∙ add_frame-waits done f others
              (overlaps_any-later transfer chunk total count 0 0 done f t
                (omega (arith, next.0.offset_is)))
              (omega arith) in
        ap (push_all (g ∷ gs)) first
        ∙ push_all-known (done ++ (f ∷ [])) g gs others waits all
            (moved transfer chunk total count _ _ _ _ (g ∷ gs) (omega (arith, count_size))
              (omega (arith, total_size)) next.1)
            (omega (arith, count_size)) (omega (arith, total_size, size)) absent
        ∙ ap (λ xs. (gives (payload xs), others)) (append_assoc done (f ∷ []) (g ∷ gs))

    push_all-new :
        (fs : List Frame) (others : List PartialChunk) (r : Pushed)
        → IsTiling transfer chunk total count 0 0 fs
        → length fs ≡ count
        → length (payload fs) ≡ total
        → find_chunk transfer chunk others ≡ none
        → length others < max_incomplete_chunks
        → push_all fs (r, others) ≡ (gives (payload fs), others)
    unfolding push_all overlaps_any
    push_all-new [] others r t all whole absent room = absurd (omega arith)
    push_all-new (f ∷ []) others r t all whole absent room =
        let size = length-append f.ciphertext (payload []) in
        push-new f others t.0 (omega (arith, size)) absent room
        ∙ add_frame-gives [] f others refl (omega arith) t whole
    push_all-new (f ∷ g ∷ gs) others r t all whole absent room =
        let size = length-append f.ciphertext (payload (g ∷ gs)) in
        let alone = length-append f.ciphertext [] in
        let first =
          push-new f others t.0 (omega (arith, size)) absent room
          ∙ add_frame-waits [] f others refl (omega arith) in
        ap (push_all (g ∷ gs)) first
        ∙ push_all-known (f ∷ []) g gs others waits (t.0, tt)
            (moved transfer chunk total count _ _ _ _ (g ∷ gs) refl (omega (arith, alone)) t.1)
            (omega arith) (omega (arith, alone, size)) absent

-- The frames of a split chunk, pushed in their order into an assembler that has none of the chunk
-- yet and room for it, give back the chunk, and leave the assembler as it was. The chunk is longer
-- than its tag and no longer than a sealed chunk of a megabyte.
pub split_file_chunk_frames-push_all :
    (transfer : String) (chunk : ℕ) (ciphertext : Bytes) (size : ℕ) (fs : List Frame)
    (others : List PartialChunk)
    → split_file_chunk_frames transfer chunk ciphertext size ≡ some fs
    → chunk < 2 ^ 32
    → tag_bytes < length ciphertext
    → length ciphertext ≤ chunk_size + tag_bytes
    → find_chunk transfer chunk others ≡ none
    → length others < max_incomplete_chunks
    → push_all fs (waits, others) ≡ (gives ciphertext, others)
split_file_chunk_frames-push_all transfer chunk ciphertext size fs others split small long short
      absent room =
    let (uuid, some_size, some_frame, few_frames, made) =
      split_file_chunk_frames_lem transfer chunk ciphertext size fs split in
    let total = length ciphertext in
    let count = ceil_div total size in
    let (tiles, whole, all) =
      frames_from-Tiles transfer chunk total count size 0 0 count ciphertext some_size refl in
    subst (λ gs. push_all gs (waits, others) ≡ (gives ciphertext, others)) made
      (push_all-new transfer chunk total count uuid small some_frame few_frames long short _ others
          waits tiles all (ap length whole) absent room
        ∙ ap (λ bytes. (gives bytes, others)) whole)
