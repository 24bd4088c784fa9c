-- ===== src/Tests/Acceptance.antt =====
-- A friend request from a phone to a tablet, with operations that meet what the protocol relies on.
use nkc.Base.{
  ℕ, zero, suc, ◌+◌, ◌≡◌, refl, ap, Bool, true, false, ◌&&◌, Option, none, some, [], ◌∷◌, String,
  ◌==◌, arith,
}
use nkc.Base.Text.{trim}
use nkc.Tests.Texts.{
  encode, decode, decode-encode, encode_visible, text_lt, text_lt_asym, text_lt_total,
}
use nkc.Tests.Codec.{json_bytes, parse_json, parse-json_bytes, length-json_bytes}
use nkc.Friends.{Bytes, Crypto, IsLawful, ok, friend_req, Frame}
use nkc.Friends.Keys.{Peer, Own, BuildOptions, VerifyOptions}
use nkc.Friends.KeyAgreement.{peer_from_code, resolve_local_peer, resolve_remote_peer}
use nkc.Friends.Frames.{
  check_friend_code, enrich_friend_control_frame_with_protocol,
  verify_friend_control_frame_protocol,
}
use nkc.Friends.Acceptance.{verify-enrich_friend_control_frame}

abbrev bytes_eq : Bytes → Bytes → Bool
bytes_eq [] [] = true
bytes_eq [] (y ∷ ys) = false
bytes_eq (x ∷ xs) [] = false
bytes_eq (x ∷ xs) (y ∷ ys) = x == y && bytes_eq xs ys

bytes_eq_refl : (b : Bytes) → bytes_eq b b ≡ true
bytes_eq_refl [] = refl
bytes_eq_refl (x ∷ b) = ground (arith, bytes_eq_refl b)

abbrev sum : Bytes → ℕ
sum [] = 0
sum (x ∷ b) = x + sum b

abbrev repeat : ℕ → ℕ → Bytes
repeat zero x = []
repeat (suc n) x = x ∷ repeat n x

-- A key is its own public part, a signature is the key, and keys are exchanged by their sum.
abbrev toy : Crypto
toy = record {
  generichash = λ b. repeat 32 (sum b);
  sign_detached = λ m k. k;
  verify_detached = λ s m k. some (bytes_eq s k);
  identity_of = λ k. k;
  scalarmult = λ a b. some ((sum a + sum b) ∷ []);
  dh_of = λ k. k;
  json_bytes = json_bytes;
  parse_json = parse_json;
  encode = encode;
  decode = decode;
  text_lt = text_lt;
}

toy-IsLawful : IsLawful toy
toy-IsLawful = record {
  verify-sign = λ m k. ap some (bytes_eq_refl k);
  scalarmult_comm = λ a b. ap (λ n. some (n ∷ [])) (omega arith);
  parse-json = λ v distinct. parse-json_bytes v;
  decode-encode = decode-encode;
  encode_visible = encode_visible;
  length-json_bytes = length-json_bytes;
  length-generichash = λ b. refl;
  text_lt_total = text_lt_total;
  text_lt_asym = text_lt_asym;
}

abbrev no_code : String → Option Peer
no_code s = none

abbrev phone : Own
phone = record { identity_pub = 1 ∷ []; dh_pub = 5 ∷ []; dh_priv = 5 ∷ []; device_id = "phone" }

abbrev tablet : Own
tablet = record { identity_pub = 2 ∷ []; dh_pub = 9 ∷ []; dh_priv = 9 ∷ []; device_id = "tablet" }

abbrev tablet_peer : Peer
tablet_peer = record {
  identity_pub = encode (2 ∷ []);
  dh_pub = encode (9 ∷ []);
  device_id = some "tablet";
  onion_addr = none;
}

abbrev request : Frame
request = record {
  frame_type = friend_req;
  conv_id = some "chat";
  trace_id = none;
  sender = record {
    identity_pub = encode (1 ∷ []);
    dh_pub = encode (5 ∷ []);
    device_id = some "phone";
    friend_code = none;
  };
  profile = none;
  protocol = none;
  ts = some 5;
}

abbrev to_tablet : BuildOptions
to_tablet = record {
  psk_hint = none;
  local_dh_priv = none;
  local_friend_code = none;
  remote_friend_code = none;
  remote_identity_pub = some (encode (2 ∷ []));
  remote_dh_pub = some (encode (9 ∷ []));
  remote_device_id = some "tablet";
  remote_onion_addr = none;
}

abbrev plain : VerifyOptions
plain = record { local_friend_code = none; local_dh_priv = none }

verify-enrich_friend_control_frame_example :
    (sent : Frame) × ((enrich_friend_control_frame_with_protocol toy no_code phone request
          (1 ∷ [])
          "nonce"
          to_tablet
        ≡ ok sent)
      × (verify_friend_control_frame_protocol toy no_code tablet sent plain ≡ ok true))
unfolding peer_from_code resolve_local_peer resolve_remote_peer check_friend_code trim
verify-enrich_friend_control_frame_example =
    verify-enrich_friend_control_frame toy toy-IsLawful no_code phone tablet request (1 ∷ [])
      "nonce" to_tablet plain tablet_peer (5 ∷ []) (9 ∷ []) (14 ∷ []) refl refl refl refl refl refl
      refl refl refl refl refl refl refl refl refl refl
