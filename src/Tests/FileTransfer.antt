-- ===== src/Tests/FileTransfer.antt =====
-- A sealed chunk of twenty bytes in one frame.
use nkc.Base.{◌≡◌, refl, List, [], ◌∷◌, String, arith}
use nkc.FileTransfer.{Bytes, Frame, split_file_chunk_frames}
use nkc.FileTransfer.Assembler.{gives, waits, push_all, find_chunk}
use nkc.FileTransfer.Assembly.{split_file_chunk_frames-push_all}

abbrev transfer : String
transfer = "0123abcd-0123-4567-89ab-0123456789ab"

abbrev sealed : Bytes
sealed =
    1 ∷ 2 ∷ 3 ∷ 4 ∷ 5 ∷ 6 ∷ 7 ∷ 8 ∷ 9 ∷ 10 ∷ 11 ∷ 12 ∷ 13 ∷ 14 ∷ 15 ∷ 16 ∷ 17 ∷ 18 ∷ 19 ∷ 20 ∷ []

abbrev frames : List Frame
frames =
    record {
      protocol_version = 1;
      transfer_id = transfer;
      chunk_index = 4;
      frame_index = 0;
      frame_count = 1;
      ciphertext_offset = 0;
      ciphertext_length = 20;
      ciphertext = sealed;
    }
    ∷ []

split_file_chunk_frames-push_all_example : push_all frames (waits, []) ≡ (gives sealed, [])
unfolding split_file_chunk_frames find_chunk
split_file_chunk_frames-push_all_example =
    split_file_chunk_frames-push_all transfer 4 sealed 65536 frames [] refl (omega arith)
      (omega arith) (omega arith) refl (omega arith)
