-- ===== src/Friends/Records.antt =====
-- The handshake and the contact exchange of a friend frame:
-- src/net/friendProtocol/handshakeManager.ts and contactExchangeManager.ts.
use nkc.Base.{Option, none, some, String, str_eq, ◌==◌, or_default}
use nkc.Friends.{
  Bytes, Json, null, num, text, obj, end, field, canonicalize, Crypto, Outcome, ◌>>=◌, ◌>>◌,
  require, or_throw, catch_as, FrameType, friend_req, friend_accept, friend_decline, Profile,
  HandshakeRecord, ContactRecord, Frame,
}

unfoldable pub type_name : FrameType → String
type_name friend_req = "friend_req"
type_name friend_accept = "friend_accept"
type_name friend_decline = "friend_decline"

unfoldable pub to_transcript : Frame → Json
unfolding type_name
to_transcript f = obj (
    field "type" (text (type_name f.frame_type)) (
      field "convId" (text (or_default f.conv_id "")) (
        field "ts" (num (or_default f.ts 0)) (
          field "from"
            (obj (
              field "identityPub" (text f.sender.identity_pub) (
                field "dhPub" (text f.sender.dh_pub)
                  (field "deviceId" (text (or_default f.sender.device_id "")) end))))
            end))))

abbrev pub profile_text : (Profile → Option String) → Option Profile → String
profile_text get none = ""
profile_text get (some p) = or_default (get p) ""

abbrev pub avatar_of : Option Profile → Json
avatar_of none = null
avatar_of (some p) = or_default p.avatar_ref null

unfoldable pub to_profile_record : Frame → Json
to_profile_record f = obj (
    field "displayName" (text (profile_text (λ p. p.display_name) f.profile)) (
      field "status" (text (profile_text (λ p. p.status) f.profile)) (
        field "avatarRef" (avatar_of f.profile)
          (field "friendCode" (text (or_default f.sender.friend_code "")) end))))

unfoldable pub to_key_commitment_record : Frame → String → Json
to_key_commitment_record f transcript_hash = obj (
    field "identityPub" (text f.sender.identity_pub) (
      field "dhPub" (text f.sender.dh_pub) (
        field "deviceId" (text (or_default f.sender.device_id ""))
          (field "transcriptHash" (text transcript_hash) end))))

unfoldable pub signed_contact : String → String → String → Json
signed_contact profile_hash key_commitment transcript_hash = obj (
    field "profileHash" (text profile_hash) (
      field "keyCommitment" (text key_commitment)
        (field "transcriptHash" (text transcript_hash) end)))

module _ (C : Crypto) where
  -- src/crypto/canonicalJson.ts
  unfoldable pub canonical_bytes : Json → Bytes
  canonical_bytes v = C.json_bytes (canonicalize v)

  unfoldable pub hash_of : Json → String
  unfolding canonical_bytes
  hash_of v = C.encode (C.generichash (canonical_bytes v))

  unfoldable pub build_handshake_record : Frame → Bytes → HandshakeRecord
  unfolding canonical_bytes hash_of to_transcript
  build_handshake_record f identity_priv = record {
    v = 1;
    transcript_hash = hash_of (to_transcript f);
    proof_sig = C.encode (C.sign_detached (canonical_bytes (to_transcript f)) identity_priv);
  }

  -- The signature over a value by the key that the text stands for.
  unfoldable pub check_signature : String → Json → String → String → Outcome (Unit {0})
  unfolding canonical_bytes
  check_signature identity_pub signed sig reason = do
    verify_key ← or_throw (C.decode identity_pub)
    sig_bytes ← or_throw (C.decode sig)
    valid ← or_throw (C.verify_detached sig_bytes (canonical_bytes signed) verify_key)
    require valid reason

  unfoldable pub verify_handshake_record : Frame → HandshakeRecord → Outcome (Unit {0})
  unfolding hash_of to_transcript check_signature
  verify_handshake_record f r = do
    require (r.v == 1) "handshake-version"
    catch_as "handshake-verify-error" (
        require (str_eq r.transcript_hash (hash_of (to_transcript f))) "handshake-transcript-hash"
        >> check_signature f.sender.identity_pub (to_transcript f) r.proof_sig
            "handshake-proof-sig")

  unfoldable pub build_contact_exchange_record : Frame → HandshakeRecord → Bytes → ContactRecord
  unfolding canonical_bytes hash_of to_profile_record to_key_commitment_record signed_contact
  build_contact_exchange_record f h identity_priv =
      let profile_hash = hash_of (to_profile_record f) in
      let key_commitment = hash_of (to_key_commitment_record f h.transcript_hash) in
      record {
        v = 1;
        profile_hash = profile_hash;
        key_commitment = key_commitment;
        profile_sig = C.encode (
            C.sign_detached
              (canonical_bytes (signed_contact profile_hash key_commitment h.transcript_hash))
              identity_priv);
      }

  unfoldable pub verify_contact_exchange_record :
      Frame → HandshakeRecord → ContactRecord → Outcome (Unit {0})
  unfolding hash_of to_profile_record to_key_commitment_record signed_contact check_signature
  verify_contact_exchange_record f h r = do
    require (r.v == 1) "contact-version"
    catch_as "contact-verify-error" (
        require (str_eq r.profile_hash (hash_of (to_profile_record f))) "contact-profile-hash"
        >> (require
              (str_eq r.key_commitment (hash_of (to_key_commitment_record f h.transcript_hash)))
              "contact-key-commitment"
            >> check_signature f.sender.identity_pub
                (signed_contact r.profile_hash r.key_commitment h.transcript_hash) r.profile_sig
                "contact-profile-sig"))
