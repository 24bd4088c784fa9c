-- ===== src/FileTransfer.antt =====
-- Frames of an encrypted file chunk: `splitFileChunkFrames` and `FileFrameAssembler` of
-- src/net/fileTransferProtocol.ts. The numbers of a frame are natural numbers; the source also
-- rejects what is no such number. The key of the assembler's map, the transfer and the chunk joined
-- by a colon, is the pair of the two, since no accepted transfer has a colon in its name.
pub mod Frames
pub mod Assembler
pub mod Tilings
pub mod Assembly
use Prim.Native.Char.{code}
use Prim.Native.String
use nkc.Base.{
  ℕ, zero, suc, ◌+◌, ◌-◌, ◌*◌, ◌/◌, ◌^◌, Bool, true, false, ◌&&◌, ◌||◌, not, Option, none, some,
  List, [], ◌∷◌, ◌++◌, String, str_eq, ltb, leb, ◌==◌, if◌then◌else◌, length, take, drop,
}
use nkc.Base.Sort

abbrev pub Bytes : Type 0
Bytes = List ℕ

abbrev pub chunk_size : ℕ
chunk_size = 1024 * 1024

abbrev pub tag_bytes : ℕ
tag_bytes = 16

abbrev pub max_frames_per_chunk : ℕ
max_frames_per_chunk = 64

abbrev pub max_incomplete_chunks : ℕ
max_incomplete_chunks = 16

pub record Frame : Type 0 where
  pub protocol_version : ℕ
  pub transfer_id : String
  pub chunk_index : ℕ
  pub frame_index : ℕ
  pub frame_count : ℕ
  pub ciphertext_offset : ℕ
  pub ciphertext_length : ℕ
  pub ciphertext : Bytes

-- The classes of characters in `UUID_RE`.
pub data UuidClass : Type 0 where
  hex dash version variant : UuidClass

abbrev pub between : ℕ → ℕ → ℕ → Bool
between low high c = leb low c && leb c high

pub in_class : UuidClass → ℕ → Bool
in_class hex c = between 48 57 c || (between 65 70 c || between 97 102 c)
in_class dash c = c == 45
in_class version c = between 49 56 c
in_class variant c = c == 56 || (c == 57 || ((c == 65 || c == 66) || (c == 97 || c == 98)))

pub matches : List UuidClass → String → Bool
unfolding in_class
matches [] String.[] = true
matches [] (String.◌∷◌ c s) = false
matches (x ∷ xs) String.[] = false
matches (x ∷ xs) (String.◌∷◌ c s) = in_class x (code c) && matches xs s

-- Eight, four, four, four and twelve digits.
abbrev pub uuid_re : List UuidClass
uuid_re =
    hex ∷ hex ∷ hex ∷ hex ∷ hex ∷ hex ∷ hex ∷ hex ∷ dash ∷ hex ∷ hex ∷ hex ∷ hex ∷ dash ∷ version
    ∷ hex ∷ hex ∷ hex ∷ dash ∷ variant ∷ hex ∷ hex ∷ hex ∷ dash ∷ hex ∷ hex ∷ hex ∷ hex ∷ hex ∷ hex
    ∷ hex ∷ hex ∷ hex ∷ hex ∷ hex ∷ hex ∷ []

-- The check of `uuidToBytes`.
unfoldable pub is_uuid : String → Bool
unfolding matches
is_uuid s = matches uuid_re s

-- The frames from an index on, whose offset is the index times the frame size.
unfoldable pub frames_from :
    String → (chunk total size count : ℕ) → (index offset n : ℕ) → Bytes → List Frame
frames_from transfer chunk total size count index offset zero rest = []
frames_from transfer chunk total size count index offset (suc n) rest =
    record {
      protocol_version = 1;
      transfer_id = transfer;
      chunk_index = chunk;
      frame_index = index;
      frame_count = count;
      ciphertext_offset = offset;
      ciphertext_length = total;
      ciphertext = take size rest;
    }
    ∷ frames_from transfer chunk total size count (suc index) (offset + size) n (drop size rest)

-- `Math.ceil(a / b)`
abbrev pub ceil_div : ℕ → ℕ → ℕ
ceil_div a b = (a + (b - 1)) / b

-- `none` where the source throws.
unfoldable pub split_file_chunk_frames : String → ℕ → Bytes → ℕ → Option (List Frame)
unfolding is_uuid frames_from
split_file_chunk_frames transfer chunk ciphertext size =
    let count = ceil_div (length ciphertext) size in
    if not (is_uuid transfer)
    then none
    else if ltb size (32 * 1024) || ltb (256 * 1024) size
    then none
    else if ltb count 1 || ltb max_frames_per_chunk count
    then none
    else some (frames_from transfer chunk (length ciphertext) size count 0 0 count ciphertext)
