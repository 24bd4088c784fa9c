-- ===== src/Friends/Soundness.antt =====
-- What is known of a friend frame that has been accepted: src/friends/friendControlFrame.ts and
-- src/net/friendProtocol/.
use nkc.Base.{◌≡◌, refl, ap, ◌∙◌, Bool, true, false, Option, none, some, String, str_eq, eq_iff}
use nkc.Friends.{
  Bytes, Json, Crypto, Outcome, ok, fails, throws, ◌>>=◌, ◌>>◌, require, or_throw, catch_as,
  HandshakeRecord, ContactRecord, Protocol, Frame,
}
use nkc.Friends.Keys.{Peer, Own, VerifyOptions}
use nkc.Friends.KeyAgreement.{verify_key_agreement_record}
use nkc.Friends.Frames.{check_friend_code, verify_protocol, verify_friend_control_frame_protocol}
use nkc.Friends.Records.{
  canonical_bytes, hash_of, to_transcript, to_profile_record, to_key_commitment_record,
  check_signature, signed_contact, verify_handshake_record, verify_contact_exchange_record,
}

require->> {ℓ} :
    {B : Type ℓ} (b : Bool) (r : String) (k : Outcome B) (x : B)
    → require b r >> k ≡ ok x
    → (b ≡ true) × (k ≡ ok x)
require->> true r k x e = (refl, e)
require->> false r k x e = cc

require-ok : (b : Bool) (r : String) (x : Unit) → require b r ≡ ok x → b ≡ true
require-ok true r x e = refl
require-ok false r x e = cc

catch_as-ok {ℓ} : {A : Type ℓ} (r : String) (m : Outcome A) (x : A) → catch_as r m ≡ ok x → m ≡ ok x
catch_as-ok r (ok a) x e = e
catch_as-ok r (fails s) x e = cc
catch_as-ok r throws x e = cc

or_throw->>= {ℓ κ} :
    {A : Type ℓ} {B : Type κ} (o : Option A) (k : A → Outcome B) (x : B)
    → or_throw o >>= k ≡ ok x
    → (a : A) × ((o ≡ some a) × (k a ≡ ok x))
or_throw->>= (some a) k x e = (a, (refl, e))
or_throw->>= none k x e = cc

>>-ok {ℓ} :
    {B : Type ℓ} (m : Outcome Unit) (k : Outcome B) (x : B)
    → m >> k ≡ ok x
    → (m ≡ ok tt) × (k ≡ ok x)
>>-ok (ok u) k x e = (refl, e)
>>-ok (fails r) k x e = cc
>>-ok throws k x e = cc

require-str_eq :
    (s t r : String) {B : Type 0} (k : Outcome B) (x : B)
    → require (str_eq s t) r >> k ≡ ok x
    → (s ≡ t) × (k ≡ ok x)
require-str_eq s t r k x e =
    let (same, rest) = require->> (str_eq s t) r k x e in ((eq_iff s t).0 same, rest)

verified-some :
    (given : Option Protocol) (verify : Protocol → Outcome Unit)
    → elim given [ none ↦ ok false | some p ↦ verify p >> ok true ] ≡ ok true
    → (p : Protocol) × ((given ≡ some p) × (verify p ≡ ok tt))
verified-some none verify e = cc
verified-some (some p) verify e = (p, (refl, (>>-ok (verify p) (ok true) true e).0))

-- The owner of an identity has signed the value.
pub record IsSigned (C : Crypto) (identity_pub : String) (v : Json) (sig : String) : Type 0 where
  pub key : Bytes
  pub sig_bytes : Bytes
  pub key_lem : C.decode identity_pub ≡ some key
  pub sig_lem : C.decode sig ≡ some sig_bytes
  pub valid : C.verify_detached sig_bytes (canonical_bytes C v) key ≡ some true

-- The records of a frame stand for what the frame says, and its sender has signed them.
pub record IsVouched (C : Crypto) (f : Frame) (p : Protocol) : Type 0 where
  pub transcript : p.handshake.transcript_hash ≡ hash_of C (to_transcript f)
  pub proof : IsSigned C f.sender.identity_pub (to_transcript f) p.handshake.proof_sig
  pub profile : p.contact_exchange.profile_hash ≡ hash_of C (to_profile_record f)
  pub commitment :
      p.contact_exchange.key_commitment
      ≡ hash_of C (to_key_commitment_record f p.handshake.transcript_hash)
  pub profile_proof :
      IsSigned C f.sender.identity_pub
        (signed_contact p.contact_exchange.profile_hash p.contact_exchange.key_commitment
          p.handshake.transcript_hash)
        p.contact_exchange.profile_sig

module _ (C : Crypto) where
  check_signature-IsSigned :
      (identity_pub : String) (v : Json) (sig reason : String)
      → check_signature C identity_pub v sig reason ≡ ok tt
      → IsSigned C identity_pub v sig
  unfolding check_signature
  check_signature-IsSigned identity_pub v sig reason e =
      let (key, (key_lem, e₁)) = or_throw->>= (C.decode identity_pub) (λ k. _) tt e in
      let (s, (sig_lem, e₂)) = or_throw->>= (C.decode sig) (λ k. _) tt e₁ in
      let (b, (valid, e₃)) =
        or_throw->>= (C.verify_detached s (canonical_bytes C v) key) (λ k. _) tt e₂ in
      let good : b ≡ true = require-ok b reason tt e₃ in
      record {
        key = key;
        sig_bytes = s;
        key_lem = key_lem;
        sig_lem = sig_lem;
        valid = valid ∙ ap some good;
      }

  verify_handshake_record_sound :
      (f : Frame) (r : HandshakeRecord)
      → verify_handshake_record C f r ≡ ok tt
      → (r.transcript_hash ≡ hash_of C (to_transcript f))
        × IsSigned C f.sender.identity_pub (to_transcript f) r.proof_sig
  unfolding verify_handshake_record
  verify_handshake_record_sound f r e =
      let (version, e₁) = require->> _ _ _ tt e in
      let e₂ = catch_as-ok "handshake-verify-error" _ tt e₁ in
      let (same, e₃) = require-str_eq _ _ _ _ tt e₂ in (same, check_signature-IsSigned _ _ _ _ e₃)

  verify_contact_exchange_record_sound :
      (f : Frame) (h : HandshakeRecord) (r : ContactRecord)
      → verify_contact_exchange_record C f h r ≡ ok tt
      → (r.profile_hash ≡ hash_of C (to_profile_record f))
        × ((r.key_commitment ≡ hash_of C (to_key_commitment_record f h.transcript_hash))
            × IsSigned C f.sender.identity_pub
                (signed_contact r.profile_hash r.key_commitment h.transcript_hash)
                r.profile_sig)
  unfolding verify_contact_exchange_record
  verify_contact_exchange_record_sound f h r e =
      let (version, e₁) = require->> _ _ _ tt e in
      let e₂ = catch_as-ok "contact-verify-error" _ tt e₁ in
      let (same, e₃) = require-str_eq _ _ _ _ tt e₂ in
      let (committed, e₄) = require-str_eq _ _ _ _ tt e₃ in
      (same, (committed, check_signature-IsSigned _ _ _ _ e₄))

  module _ (decode_friend_code : String → Option Peer) (own : Own) where
    verify_protocol-IsVouched :
        (f : Frame) (p : Protocol) (o : VerifyOptions)
        → verify_protocol C decode_friend_code own f p o ≡ ok tt
        → IsVouched C f p
          × (verify_key_agreement_record C decode_friend_code own f.sender p.handshake
                p.contact_exchange p.key_agreement o
              ≡ ok tt)
    unfolding verify_protocol
    verify_protocol-IsVouched f p o e =
        let (version, e₁) = require->> _ _ _ tt e in
        let (handshake, e₂) = >>-ok _ _ tt e₁ in
        let (contact, agreed) = >>-ok _ _ tt e₂ in
        let (transcript, proof) = verify_handshake_record_sound f p.handshake handshake in
        let (profile, (commitment, profile_proof)) =
          verify_contact_exchange_record_sound f p.handshake p.contact_exchange contact in
        (
          record {
            transcript = transcript;
            proof = proof;
            profile = profile;
            commitment = commitment;
            profile_proof = profile_proof;
          },
          agreed,
        )

    -- A frame that is accepted as verified has a protocol. Its transcript hash, its profile hash and
    -- its commitment to the keys are the hashes of what the frame says, and the owner of the
    -- identity that the frame names has signed the transcript and the three hashes.
    pub verify_friend_control_frame_protocol_sound :
        (f : Frame) (o : VerifyOptions)
        → verify_friend_control_frame_protocol C decode_friend_code own f o ≡ ok true
        → (p : Protocol) × ((f.protocol ≡ some p) × IsVouched C f p)
    unfolding verify_friend_control_frame_protocol
    verify_friend_control_frame_protocol_sound f o e =
        let (code, e₁) = >>-ok (check_friend_code C decode_friend_code own f.sender) _ true e in
        let (p, (given, valid)) =
          verified-some f.protocol (λ p. verify_protocol C decode_friend_code own f p o) e₁ in
        (p, (given, (verify_protocol-IsVouched f p o valid).0))
