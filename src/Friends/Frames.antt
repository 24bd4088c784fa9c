-- ===== src/Friends/Frames.antt =====
-- Friend control frames: src/friends/friendControlFrame.ts, and the checks with which
-- handleIncomingFriendFrame of src/sync/syncEngine.ts begins.
use nkc.Base.{
  ℕ, ◌+◌, ◌-◌, ◌*◌, Bool, true, false, not, ◌&&◌, ◌||◌, Option, none, some, String, str_eq, ◌==◌,
  leb, if◌then◌else◌,
}
use nkc.Base.Text.{trim, non_empty}
use nkc.Friends.{
  Bytes, Json, Fields, num, text, obj, end, field, optional, Crypto, Outcome, ok, fails, throws,
  ◌>>=◌, ◌>>◌, require, or_throw, From, Profile, Method, identity_dh, friend_code_oob_v1,
  other_method, Role, alice, bob, Protocol, Frame,
}
use nkc.Friends.Records.{
  canonical_bytes, type_name, build_handshake_record, verify_handshake_record,
  build_contact_exchange_record, verify_contact_exchange_record,
}
use nkc.Friends.Keys.{Peer, Own, BuildOptions, VerifyOptions}
use nkc.Friends.KeyAgreement.{build_key_agreement_record, verify_key_agreement_record}

abbrev pub friend_control_max_age_ms : ℕ
friend_control_max_age_ms = 7 * 24 * 60 * 60 * 1000

abbrev pub friend_control_max_future_skew_ms : ℕ
friend_control_max_future_skew_ms = 5 * 60 * 1000

unfoldable pub is_friend_control_frame_fresh : Option ℕ → ℕ → Bool
is_friend_control_frame_fresh none now = false
is_friend_control_frame_fresh (some ts) now =
    leb (now - friend_control_max_age_ms) ts && leb ts (now + friend_control_max_future_skew_ms)

unfoldable pub method_name : Method → String
method_name identity_dh = "identity_dh"
method_name friend_code_oob_v1 = "friend_code_oob_v1"
method_name other_method = ""

unfoldable pub role_name : Role → String
role_name alice = "alice"
role_name bob = "bob"

abbrev pub optional_role : Option Role → Fields → Fields
optional_role none fs = fs
optional_role (some r) fs = field "role" (text (role_name r)) fs

unfoldable pub protocol_json : Protocol → Json
unfolding method_name role_name
protocol_json p =
    let h = p.handshake in
    let c = p.contact_exchange in
    let k = p.key_agreement in
    obj (
      field "v" (num p.v) (
        field "handshake"
          (obj (
            field "v" (num h.v) (
              field "transcriptHash" (text h.transcript_hash)
                (field "proofSig" (text h.proof_sig) end))))
          (field "contactExchange"
            (obj (
              field "v" (num c.v) (
                field "profileHash" (text c.profile_hash) (
                  field "keyCommitment" (text c.key_commitment)
                    (field "profileSig" (text c.profile_sig) end)))))
            (field "keyAgreement"
              (obj (
                field "v" (num k.v) (
                  field "method" (text (method_name k.method)) (
                    field "nonce" (text k.nonce) (
                      field "confirmation" (text k.confirmation) (
                        optional "commitment" k.commitment (
                          optional "payload" k.payload (
                            optional_role k.role (
                              optional "masterKeyHint" k.master_key_hint
                                (optional "pskHint" k.psk_hint end))))))))))
              end))))

abbrev pub optional_json : String → Option Json → Fields → Fields
optional_json k none fs = fs
optional_json k (some v) fs = field k v fs

abbrev pub profile_json : Profile → Json
profile_json p = obj (
    optional "displayName" p.display_name
      (optional "status" p.status (optional_json "avatarRef" p.avatar_ref end)))

abbrev pub map_json {ℓ} : {A : Type ℓ} → (A → Json) → Option A → Option Json
map_json f none = none
map_json f (some a) = some (f a)

unfoldable pub frame_json : Frame → Json
unfolding protocol_json type_name
frame_json f = obj (
    field "type" (text (type_name f.frame_type)) (
      optional "convId" f.conv_id (
        optional "traceId" f.trace_id (
          field "from"
            (obj (
              field "identityPub" (text f.sender.identity_pub) (
                field "dhPub" (text f.sender.dh_pub) (
                  optional "deviceId" f.sender.device_id
                    (optional "friendCode" f.sender.friend_code end)))))
            (optional_json "profile" (map_json profile_json f.profile) (
              optional_json "protocol" (map_json protocol_json f.protocol)
                (optional_json "ts" (map_json num f.ts) end)))))))

abbrev pub to_bool : Outcome Bool → Bool
to_bool (ok b) = b
to_bool (fails r) = false
to_bool throws = false

module _ (C : Crypto) (decode_friend_code : String → Option Peer) (own : Own) where
  unfoldable pub sign_friend_control_frame : Frame → Bytes → String
  sign_friend_control_frame f identity_priv =
      C.encode (C.sign_detached (canonical_bytes C (frame_json f)) identity_priv)

  unfoldable pub verify_friend_control_frame_signature : Frame → Option String → Bool
  verify_friend_control_frame_signature f none = false
  verify_friend_control_frame_signature f (some sig) =
      let valid : Outcome Bool = or_throw (C.decode sig) >>= (λ sig_bytes.
        or_throw (C.decode f.sender.identity_pub) >>= (λ verify_key.
          or_throw (C.verify_detached sig_bytes (canonical_bytes C (frame_json f)) verify_key))) in
      if str_eq (trim sig) "" || str_eq (trim f.sender.identity_pub) ""
      then false
      else to_bool valid

  -- The frame with the three records, unless it has some. The nonce is random.
  unfoldable pub enrich_friend_control_frame_with_protocol :
      Frame → Bytes → String → BuildOptions → Outcome Frame
  enrich_friend_control_frame_with_protocol f identity_priv nonce o =
      let handshake = build_handshake_record C f identity_priv in
      let contact = build_contact_exchange_record C f handshake identity_priv in
      let built : Outcome Frame =
        build_key_agreement_record C decode_friend_code own handshake contact nonce o
        >>= (λ agreement. ok (record f {
          protocol = some (record {
            v = 1;
            handshake = handshake;
            contact_exchange = contact;
            key_agreement = agreement;
          });
        })) in
      elim f.protocol [ none ↦ built | some p ↦ ok f ]

  abbrev pub both_differ : Option String → Option String → Bool
  both_differ none b = false
  both_differ (some a) none = false
  both_differ (some a) (some b) = not (str_eq a b)

  -- A friend code that comes with the frame says the same as the frame.
  unfoldable pub check_friend_code : From → Outcome (Unit {0})
  check_friend_code from = elim (non_empty from.friend_code) [
    | none ↦ ok tt
    | some code ↦ elim (decode_friend_code code) [
      | none ↦ fails "friend-code-invalid"
      | some p ↦ do
        require (str_eq p.identity_pub from.identity_pub) "friend-code-identity-mismatch"
        require (str_eq p.dh_pub from.dh_pub) "friend-code-dh-mismatch"
        require (not (both_differ (non_empty p.device_id) (non_empty from.device_id)))
            "friend-code-device-mismatch"
    ]
  ]

  unfoldable pub verify_protocol : Frame → Protocol → VerifyOptions → Outcome (Unit {0})
  verify_protocol f p o = do
    require (p.v == 1) "protocol-version"
    verify_handshake_record C f p.handshake
    verify_contact_exchange_record C f p.handshake p.contact_exchange
    verify_key_agreement_record C decode_friend_code own f.sender p.handshake p.contact_exchange
        p.key_agreement o

  -- Whether the frame has a protocol that was verified, where nothing is wrong with it.
  unfoldable pub verify_friend_control_frame_protocol : Frame → VerifyOptions → Outcome Bool
  verify_friend_control_frame_protocol f o = do
    check_friend_code f.sender
    elim f.protocol [ none ↦ ok false | some p ↦ verify_protocol f p o >> ok true ]

  abbrev pub is_replayed : Option ℕ → Option ℕ → Bool
  is_replayed none last = false
  is_replayed (some ts) none = false
  is_replayed (some ts) (some last) = leb ts last

  abbrev pub passes : Outcome Bool → Bool
  passes (ok b) = true
  passes (fails r) = false
  passes throws = false

  -- What is not said by the type of a frame.
  unfoldable pub is_friend_control_frame : Frame → Bool
  is_friend_control_frame f =
      not (str_eq (trim f.sender.identity_pub) "") && not (str_eq (trim f.sender.dh_pub) "")

  -- `last`: the time of the last control frame of the same identity. A throw drops the frame too.
  unfoldable pub admits_friend_frame :
      Frame → Option String → Bool → Option ℕ → VerifyOptions → ℕ → Bool
  admits_friend_frame f sig trusted_envelope last o now =
      is_friend_control_frame f
      && ((trusted_envelope
            || (is_friend_control_frame_fresh f.ts now
                && verify_friend_control_frame_signature f sig))
          && (passes (verify_friend_control_frame_protocol f o) && not (is_replayed f.ts last)))
