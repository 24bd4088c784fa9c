-- ===== src/Tests/Friends.antt =====
-- A friend request between two toy devices.
use nkc.Base.{ℕ, suc, ◌≡◌, refl, true, false, Option, none, some, [], ◌∷◌, String}
use nkc.Friends.{
  Bytes, Json, null, num, text, obj, Crypto, friend_req, identity_dh, Protocol, Frame,
}
use nkc.Friends.Records.{
  build_handshake_record, build_contact_exchange_record, verify_handshake_record,
  verify_contact_exchange_record,
}
use nkc.Base.Text.{trim}
use nkc.Friends.KeyAgreement.{verify_key_agreement_record, verify_method}
use nkc.Friends.Keys.{Peer, Own, VerifyOptions}
use nkc.Friends.Secrets.{compute_confirmation}
use nkc.Friends.Frames.{check_friend_code, verify_protocol, verify_friend_control_frame_protocol}
use nkc.Friends.Soundness.{IsVouched, verify_friend_control_frame_protocol_sound}

-- A hash is the number of bytes, a signature the number of bytes and the key.
abbrev count : Bytes → ℕ
count [] = 0
count (x ∷ xs) = suc (count xs)

abbrev bytes_of : Json → Bytes
bytes_of null = 0 ∷ []
bytes_of (num n) = 1 ∷ n ∷ []
bytes_of (text s) = 2 ∷ []
bytes_of (obj fs) = 3 ∷ []

abbrev toy : Crypto
toy = record {
  generichash = λ b. count b ∷ [];
  sign_detached = λ m k. count m ∷ [];
  verify_detached = λ s m k. some true;
  identity_of = λ k. k;
  scalarmult = λ a b. some [];
  dh_of = λ k. k;
  json_bytes = bytes_of;
  parse_json = λ b. none;
  encode = λ b. "A";
  decode = λ s. some (7 ∷ []);
  text_lt = λ a b. false;
}

abbrev own : Own
own = record { identity_pub = 7 ∷ []; dh_pub = 7 ∷ []; dh_priv = 7 ∷ []; device_id = "laptop" }

abbrev no_code : String → Option Peer
no_code s = none

abbrev request : Frame
request = record {
  frame_type = friend_req;
  conv_id = some "chat";
  trace_id = none;
  sender = record {
    identity_pub = "A";
    dh_pub = "A";
    device_id = some "phone";
    friend_code = none;
  };
  profile = none;
  protocol = none;
  ts = some 5;
}

abbrev verify_options : VerifyOptions
verify_options = record { local_friend_code = none; local_dh_priv = none }

abbrev vouched : Protocol
vouched =
    let h = build_handshake_record toy request (7 ∷ []) in
    let c = build_contact_exchange_record toy request h (7 ∷ []) in
    record {
      v = 1;
      handshake = h;
      contact_exchange = c;
      key_agreement = record {
        v = 1;
        method = identity_dh;
        nonce = "n";
        confirmation = "A";
        commitment = none;
        payload = none;
        role = none;
        master_key_hint = none;
        psk_hint = none;
      };
    }

abbrev sent : Frame
sent = record request { protocol = some vouched }

verify_friend_control_frame_protocol_sound_example :
    (p : Protocol) × ((sent.protocol ≡ some p) × IsVouched toy sent p)
unfolding check_friend_code verify_protocol verify_handshake_record build_handshake_record
    verify_contact_exchange_record build_contact_exchange_record verify_key_agreement_record trim
    verify_method compute_confirmation verify_friend_control_frame_protocol
verify_friend_control_frame_protocol_sound_example =
    verify_friend_control_frame_protocol_sound toy no_code own sent verify_options refl
