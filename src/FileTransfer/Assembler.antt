-- ===== src/FileTransfer/Assembler.antt =====
-- `FileFrameAssembler` of src/net/fileTransferProtocol.ts: the map of chunks whose frames are coming in.
use nkc.Base.{
  ℕ, ◌+◌, ◌^◌, Bool, true, false, ◌&&◌, ◌||◌, not, Option, none, some, List, [], ◌∷◌, ◌++◌, String,
  str_eq, ltb, leb, ◌==◌, if◌then◌else◌, length,
}
use nkc.Base.Sort
use nkc.FileTransfer.{
  Bytes, Frame, chunk_size, tag_bytes, max_frames_per_chunk, max_incomplete_chunks, is_uuid,
}

-- An entry of the map, with its key; the frames in the order in which they came.
pub record PartialChunk : Type 0 where
  pub transfer_id : String
  pub chunk_index : ℕ
  pub size : ℕ
  pub frame_count : ℕ
  pub frames : List Frame

pub data Pushed : Type 0 where
  threw : String → Pushed
  waits : Pushed
  gives : Bytes → Pushed

abbrev pub has_key : String → ℕ → PartialChunk → Bool
has_key transfer chunk c = str_eq c.transfer_id transfer && c.chunk_index == chunk

unfoldable pub find_chunk : String → ℕ → List PartialChunk → Option PartialChunk
find_chunk transfer chunk [] = none
find_chunk transfer chunk (c ∷ cs) =
    let later = find_chunk transfer chunk cs in if has_key transfer chunk c then some c else later

unfoldable pub delete_chunk : String → ℕ → List PartialChunk → List PartialChunk
delete_chunk transfer chunk [] = []
delete_chunk transfer chunk (c ∷ cs) =
    let rest = delete_chunk transfer chunk cs in if has_key transfer chunk c then rest else c ∷ rest

-- The frame under an index.
unfoldable pub frame_at : ℕ → List Frame → Option Frame
frame_at index [] = none
frame_at index (f ∷ fs) =
    let later = frame_at index fs in if f.frame_index == index then some f else later

unfoldable pub same_bytes : Bytes → Bytes → Bool
same_bytes [] [] = true
same_bytes [] (y ∷ ys) = false
same_bytes (x ∷ xs) [] = false
same_bytes (x ∷ xs) (y ∷ ys) = (x == y) && same_bytes xs ys

abbrev pub overlap : Frame → Frame → Bool
overlap f g =
    ltb f.ciphertext_offset (g.ciphertext_offset + length g.ciphertext)
    && ltb g.ciphertext_offset (f.ciphertext_offset + length f.ciphertext)

unfoldable pub overlaps_any : Frame → List Frame → Bool
overlaps_any f [] = false
overlaps_any f (g ∷ gs) = overlap f g || overlaps_any f gs

-- What is wrong with the numbers of a frame.
unfoldable pub frame_error : Frame → Option String
frame_error f =
    if not (f.protocol_version == 1)
    then some "unsupported frame protocol version"
    else if not (is_uuid f.transfer_id)
    then some "invalid canonical UUID"
    else if leb (2 ^ 32) f.chunk_index
    then some "chunkIndex out of range"
    else if ltb f.frame_count 1 || ltb max_frames_per_chunk f.frame_count
    then some "frameCount out of range"
    else if leb f.frame_count f.frame_index
    then some "frameIndex out of range"
    else if leb f.ciphertext_length tag_bytes || ltb (chunk_size + tag_bytes) f.ciphertext_length
    then some "ciphertextLength out of range"
    else if (length f.ciphertext == 0)
        || ltb f.ciphertext_length (f.ciphertext_offset + length f.ciphertext)
    then some "frame bounds invalid"
    else none

abbrev pub offset_le : Frame → Frame → Bool
offset_le a b = leb a.ciphertext_offset b.ciphertext_offset

-- The payloads one after another; `none` where the source finds a gap.
unfoldable pub cover : ℕ → List Frame → Option Bytes
cover covered [] = some []
cover covered (f ∷ fs) =
    let rest = cover (covered + length f.ciphertext) fs in
    if f.ciphertext_offset == covered
    then elim rest [ none ↦ none | some bytes ↦ some (f.ciphertext ++ bytes) ]
    else none

unfoldable pub assemble : PartialChunk → Pushed
unfolding cover
assemble c = elim (cover 0 (Sort.sort offset_le c.frames)) [
  | none ↦ threw "frame ranges contain a gap"
  | some bytes ↦
      if length bytes == c.size then gives bytes else threw "frame ranges do not cover ciphertext"
]

-- The entry stays where the assembled frames are refused.
unfoldable pub finish : PartialChunk → List PartialChunk → Pushed × List PartialChunk
unfolding assemble
finish c others = elim (assemble c) [
  | gives bytes ↦ (gives bytes, others)
  | waits ↦ (waits, c ∷ others)
  | threw message ↦ (threw message, c ∷ others)
]

unfoldable pub add_frame : Frame → PartialChunk → List PartialChunk → Pushed × List PartialChunk
unfolding finish
add_frame f c others =
    let added = record c { frames = c.frames ++ (f ∷ []) } in
    if overlaps_any f c.frames
    then (threw "overlapping frame ranges", c ∷ others)
    else if length added.frames == c.frame_count
    then finish added others
    else (waits, added ∷ others)

-- A frame for an entry of the map; `others` are the other entries.
unfoldable pub push_into : Frame → PartialChunk → List PartialChunk → Pushed × List PartialChunk
unfolding add_frame
push_into f c others =
    if not (c.size == f.ciphertext_length) || not (c.frame_count == f.frame_count)
    then (threw "inconsistent frame metadata", c ∷ others)
    else elim (frame_at f.frame_index c.frames) [
      | none ↦ add_frame f c others
      | some g ↦
          if (g.ciphertext_offset == f.ciphertext_offset) && same_bytes g.ciphertext f.ciphertext
          then (waits, c ∷ others)
          else (threw "conflicting duplicate frame", c ∷ others)
    ]

abbrev pub new_chunk : Frame → PartialChunk
new_chunk f = record {
  transfer_id = f.transfer_id;
  chunk_index = f.chunk_index;
  size = f.ciphertext_length;
  frame_count = f.frame_count;
  frames = [];
}

unfoldable pub push : Frame → List PartialChunk → Pushed × List PartialChunk
unfolding push_into
push f chunks = elim (frame_error f) [
  | some message ↦ (threw message, chunks)
  | none ↦ elim (find_chunk f.transfer_id f.chunk_index chunks) [
    | none ↦
        if leb max_incomplete_chunks (length chunks)
        then (threw "too many incomplete chunks", chunks)
        else push_into f (new_chunk f) chunks
    | some c ↦ push_into f c (delete_chunk f.transfer_id f.chunk_index chunks)
  ]
]

-- Frames one after another, and what the last one gave.
unfoldable pub push_all : List Frame → Pushed × List PartialChunk → Pushed × List PartialChunk
push_all [] r = r
push_all (f ∷ fs) r = push_all fs (push f r.1)
