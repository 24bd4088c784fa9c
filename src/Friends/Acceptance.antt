-- ===== src/Friends/Acceptance.antt =====
-- A friend frame goes from its sender to its receiver: src/friends/friendControlFrame.ts and
-- src/net/friendProtocol/.
use nkc.Base.{
  ◌<◌, ◌≡◌, refl, sym, ap, subst, ◌∙◌, inl, inr, true, false, Option, none, some, [], ◌∷◌, ◌++◌,
  String, str_eq, eq_iff, or_default, arith, take, length, Bool-cases,
}
use nkc.Base.Text.{trim, non_empty}
use nkc.Friends.{
  Bytes, Crypto, IsLawful, Outcome, ok, fails, ◌>>=◌, From, HandshakeRecord, ContactRecord, Role,
  KeyAgreementRecord, Protocol, Frame, FriendCodePayload,
}
use nkc.Friends.Records.{
  to_transcript, to_profile_record, to_key_commitment_record, build_handshake_record,
  build_contact_exchange_record, verify_handshake_record, verify_contact_exchange_record,
}
use nkc.Friends.Keys.{
  Peer, Own, BuildOptions, VerifyOptions, shared_secret_label, key_agreement_protocol_version, pick,
  commit_label, trimmed, all_present,
}
use nkc.Friends.Secrets.{
  identity_record, derive_shared_secret, encode_friend_code_payload, parse_friend_code_payload,
}
use nkc.Friends.KeyAgreement.{
  resolve_local_peer, resolve_remote_peer, build_for_peer, build_key_agreement_record,
  verify_payload, verify_oob, verify_method, verify_key_agreement_record,
}
use nkc.Friends.Frames.{
  check_friend_code, enrich_friend_control_frame_with_protocol, verify_protocol,
  verify_friend_control_frame_protocol,
}
use nkc.Friends.Symmetry.{
  payload_for, role_of, parse-encode_friend_code_payload, verify-build_handshake_record,
  verify-build_contact_exchange_record,
}
use nkc.Friends.Agreement.{agreed, build_for_peer-agreed, verify_payload-agreed}

length-take-pos : (b : Bytes) → 0 < length b → 0 < length (take 16 b)
length-take-pos [] h = h
length-take-pos (x ∷ b) h = omega arith

-- A text that is not blank is not empty.
non_empty-visible : (s : String) → str_eq (trim s) "" ≡ false → non_empty (some s) ≡ some s
unfolding trim
non_empty-visible s h = elim (Bool-cases (str_eq s "")) [
  | inl e ↦
      let empty : s ≡ "" = (eq_iff s "").0 e in
      let no : true ≡ false = subst (λ t. str_eq (trim t) "" ≡ false) empty h in cc
  | inr e ↦ rw e refl
]

module _ (C : Crypto) (L : IsLawful C) where
  encode-visible : (b : Bytes) → 0 < length b → str_eq (trim (C.encode b)) "" ≡ false
  encode-visible [] h = absurd (omega arith)
  encode-visible (x ∷ b) h = L.encode_visible x b

  commitment_visible :
      (p : Peer) (key : Bytes) → str_eq (trim (payload_for C p key).commitment) "" ≡ false
  commitment_visible p key =
      let hash = C.generichash (commit_label ++ key) in
      let full : length hash ≡ 32 = L.length-generichash (commit_label ++ key) in
      encode-visible (take 16 hash) (length-take-pos hash (omega (arith, full)))

  payload_visible :
      (l : FriendCodePayload) → str_eq (trim (encode_friend_code_payload C l)) "" ≡ false
  unfolding encode_friend_code_payload
  payload_visible l = encode-visible _ (L.length-json_bytes _)

  -- The secret of two keys whose exchange does not fail.
  shared_secret :
      (a x y : Bytes) (role : Role) (s : Bytes)
      → C.scalarmult a y ≡ some s
      → (secret : Bytes) × (derive_shared_secret C a x y role ≡ ok secret)
  unfolding derive_shared_secret
  shared_secret a x y role s e = (
    C.generichash (
        shared_secret_label
        ++ (s ++ (key_agreement_protocol_version ∷ (pick role x y ++ pick role y x)))),
    rw e refl,
  )

  -- A record whose parts are there and can be read.
  verify_oob_lem :
      (decode : String → Option Peer) (own : Own) (from : From) (h : HandshakeRecord)
      (c : ContactRecord) (r : KeyAgreementRecord) (nonce e k : String) (role : Role)
      (remote : FriendCodePayload) (o : VerifyOptions)
      → non_empty r.payload ≡ some e
      → non_empty r.commitment ≡ some k
      → r.role ≡ some role
      → parse_friend_code_payload C e ≡ some remote
      → verify_oob C decode own from h c r nonce o
        ≡ verify_payload C decode own from h c r nonce k remote role o
  unfolding verify_oob
  verify_oob_lem decode own from h c r nonce e k role remote o x y z parsed =
      rw (ap (λ p. all_present p (non_empty r.commitment) r.role) x) (
        rw (ap (λ p. all_present (some e) p r.role) y) (
          rw (ap (λ p. all_present (some e) (some k) p) z) (
            ap
              (λ found. elim found [
                | none ↦ fails "key-agreement-payload-parse"
                | some l ↦ verify_payload C decode own from h c r nonce k l role o
              ])
              parsed)))

  module _ (decode_friend_code : String → Option Peer) (h : HandshakeRecord) (c : ContactRecord)
      (nonce : String) (hint : Option String) (p q : Peer) (a b secret : Bytes)
      (p_key : p.dh_pub ≡ C.encode (C.dh_of a)) (q_key : q.dh_pub ≡ C.encode (C.dh_of b))
      (shared : derive_shared_secret C a
          (C.dh_of a)
          (C.dh_of b)
          (role_of C p (C.dh_of a) q (C.dh_of b))
        ≡ ok secret) where
    -- The receiver finds the record of the sender right.
    verify_key_agreement_record-agreed :
        (own : Own) (from : From) (o : VerifyOptions)
        → trimmed (some nonce) ≡ some nonce
        → str_eq (trim p.identity_pub) "" ≡ false
        → str_eq (trim p.dh_pub) "" ≡ false
        → from.identity_pub ≡ p.identity_pub
        → from.dh_pub ≡ p.dh_pub
        → str_eq p.identity_pub q.identity_pub ≡ false
        → resolve_local_peer C decode_friend_code own o.local_friend_code ≡ q
        → or_default o.local_dh_priv own.dh_priv ≡ b
        → verify_key_agreement_record C decode_friend_code own from h c
            (agreed C L decode_friend_code h c nonce hint p q a b secret)
            o
          ≡ ok tt
    unfolding verify_key_agreement_record verify_method
    verify_key_agreement_record-agreed own from o fresh vi vd i d differ local_q priv =
        let l = payload_for C p (C.dh_of a) in
        let e = encode_friend_code_payload C l in
        let present = non_empty-visible e (payload_visible l) in
        let committed = non_empty-visible l.commitment (commitment_visible p (C.dh_of a)) in
        let parsed =
          parse-encode_friend_code_payload C L l (commitment_visible p (C.dh_of a)) vi vd in
        let last =
          verify_payload-agreed C L decode_friend_code h c nonce hint p q a b secret p_key q_key
            shared own from o i d differ local_q priv in
        rw fresh (
          verify_oob_lem decode_friend_code own from h c
            (agreed C L decode_friend_code h c nonce hint p q a b secret) nonce e l.commitment
            (role_of C p (C.dh_of a) q (C.dh_of b)) l o present committed refl parsed
          ∙ last)

  build_known_lem :
      (decode : String → Option Peer) (own : Own) (h : HandshakeRecord) (c : ContactRecord)
      (nonce : String) (bo : BuildOptions) (q : Peer) (a : Bytes) (k : KeyAgreementRecord)
      → resolve_remote_peer C decode own bo ≡ some q
      → or_default bo.local_dh_priv own.dh_priv ≡ a
      → build_for_peer C decode own h c nonce
          (trimmed bo.psk_hint)
          (resolve_local_peer C decode own bo.local_friend_code)
          q
          a
        ≡ ok k
      → build_key_agreement_record C decode own h c nonce bo ≡ ok k
  unfolding build_key_agreement_record
  build_known_lem decode own h c nonce bo q a k remote priv built =
      let p = resolve_local_peer C decode own bo.local_friend_code in
      ap
        (λ found. elim found [
          | none ↦ ok (identity_record C h c nonce (trimmed bo.psk_hint))
          | some r ↦
              build_for_peer C decode own h c nonce (trimmed bo.psk_hint) p r
                (or_default bo.local_dh_priv own.dh_priv)
        ])
        remote
      ∙ ap (λ x. build_for_peer C decode own h c nonce (trimmed bo.psk_hint) p q x) priv
      ∙ built

  enrich_bare_lem :
      (decode : String → Option Peer) (own : Own) (f : Frame) (key : Bytes) (nonce : String)
      (bo : BuildOptions) (k : KeyAgreementRecord)
      → f.protocol ≡ none
      → let h = build_handshake_record C f key in
        let c = build_contact_exchange_record C f h key in
        let r : Protocol = record {
          v = 1;
          handshake = h;
          contact_exchange = c;
          key_agreement = k;
        } in
        build_key_agreement_record C decode own h c nonce bo ≡ ok k
        → enrich_friend_control_frame_with_protocol C decode own f key nonce bo
          ≡ ok (record f { protocol = some r })
  unfolding enrich_friend_control_frame_with_protocol
  enrich_bare_lem decode own f key nonce bo k bare built =
      let h = build_handshake_record C f key in
      let c = build_contact_exchange_record C f h key in
      let with : KeyAgreementRecord → Outcome Frame = λ x. ok (record f {
        protocol = some (record { v = 1; handshake = h; contact_exchange = c; key_agreement = x });
      }) in
      ap
        (λ x. elim x [
          | none ↦ build_key_agreement_record C decode own h c nonce bo >>= with
          | some p ↦ ok f
        ])
        bare
      ∙ ap (λ x. x >>= with) built

  same_handshake :
      (f : Frame) (r : Option Protocol) (h : HandshakeRecord)
      → verify_handshake_record C (record f { protocol = r }) h ≡ verify_handshake_record C f h
  unfolding verify_handshake_record to_transcript
  same_handshake f r h = refl

  same_contact :
      (f : Frame) (r : Option Protocol) (h : HandshakeRecord) (c : ContactRecord)
      → verify_contact_exchange_record C (record f { protocol = r }) h c
        ≡ verify_contact_exchange_record C f h c
  unfolding verify_contact_exchange_record to_profile_record to_key_commitment_record
  same_contact f r h c = refl

  -- The checks of a frame do not read the records that it carries.
  verify_protocol_lem :
      (decode : String → Option Peer) (own : Own) (f : Frame) (key : Bytes) (k : KeyAgreementRecord)
      (o : VerifyOptions)
      → f.sender.identity_pub ≡ C.encode (C.identity_of key)
      → let h = build_handshake_record C f key in
        let c = build_contact_exchange_record C f h key in
        let r : Protocol = record {
          v = 1;
          handshake = h;
          contact_exchange = c;
          key_agreement = k;
        } in
        verify_key_agreement_record C decode own f.sender h c k o ≡ ok tt
        → check_friend_code C decode own f.sender ≡ ok tt
        → verify_friend_control_frame_protocol C decode own (record f { protocol = some r }) o
          ≡ ok true
  unfolding verify_friend_control_frame_protocol verify_protocol
  verify_protocol_lem decode own f key k o named found code =
      let h = build_handshake_record C f key in
      let c = build_contact_exchange_record C f h key in
      let r : Protocol = record { v = 1; handshake = h; contact_exchange = c; key_agreement = k } in
      let first = same_handshake f (some r) h ∙ verify-build_handshake_record C L f key named in
      let second =
        same_contact f (some r) h c ∙ verify-build_contact_exchange_record C L f h key named in
      rw code (rw first (rw second (rw found refl)))

  -- A frame without a protocol that its sender enriches for a receiver is accepted by the receiver as
  -- verified. Its sender is named by its own keys and by a friend code, if any, that says the same;
  -- both sides hold the same description of the receiver, with its identity, key, device id and
  -- onion address; the two identities differ; and the exchange of the two keys does not fail.
  pub verify-enrich_friend_control_frame :
      (decode_friend_code : String → Option Peer) (sender receiver : Own) (f : Frame)
      (identity_priv : Bytes) (nonce : String) (bo : BuildOptions) (o : VerifyOptions) (q : Peer)
      (a b s : Bytes)
      → let p = resolve_local_peer C decode_friend_code sender bo.local_friend_code in
        f.protocol ≡ none
        → f.sender.identity_pub ≡ C.encode (C.identity_of identity_priv)
        → f.sender.dh_pub ≡ C.encode (C.dh_of a)
        → check_friend_code C decode_friend_code receiver f.sender ≡ ok tt
        → str_eq (trim f.sender.identity_pub) "" ≡ false
        → str_eq (trim f.sender.dh_pub) "" ≡ false
        → trimmed (some nonce) ≡ some nonce
        → p.identity_pub ≡ f.sender.identity_pub
        → p.dh_pub ≡ f.sender.dh_pub
        → or_default bo.local_dh_priv sender.dh_priv ≡ a
        → resolve_remote_peer C decode_friend_code sender bo ≡ some q
        → resolve_local_peer C decode_friend_code receiver o.local_friend_code ≡ q
        → q.dh_pub ≡ C.encode (C.dh_of b)
        → or_default o.local_dh_priv receiver.dh_priv ≡ b
        → str_eq f.sender.identity_pub q.identity_pub ≡ false
        → C.scalarmult a (C.dh_of b) ≡ some s
        → (sent : Frame) × ((enrich_friend_control_frame_with_protocol C decode_friend_code sender f
                identity_priv nonce bo
              ≡ ok sent)
            × (verify_friend_control_frame_protocol C decode_friend_code receiver sent o ≡ ok true))
  verify-enrich_friend_control_frame decode sender receiver f key nonce bo o q a b s bare named
        keyed code vi vd fresh pi pd priv_a remote local_q q_key priv_b differ exchanged =
      let p = resolve_local_peer C decode sender bo.local_friend_code in
      let h = build_handshake_record C f key in
      let c = build_contact_exchange_record C f h key in
      let role = role_of C p (C.dh_of a) q (C.dh_of b) in
      let (secret, shared) = shared_secret a (C.dh_of a) (C.dh_of b) role s exchanged in
      let hint = trimmed bo.psk_hint in
      let k = agreed C L decode h c nonce hint p q a b secret in
      let p_key : p.dh_pub ≡ C.encode (C.dh_of a) = pd ∙ keyed in
      let built =
        build_for_peer-agreed C L decode h c nonce hint p q a b secret p_key q_key shared sender in
      let found =
        verify_key_agreement_record-agreed decode h c nonce hint p q a b secret p_key q_key shared
          receiver f.sender o fresh (rw pi vi) (rw pd vd) (sym pi) (sym pd) (rw pi differ) local_q
          priv_b in
      let records : Protocol = record {
        v = 1;
        handshake = h;
        contact_exchange = c;
        key_agreement = k;
      } in
      (
        record f { protocol = some records },
        (
          enrich_bare_lem decode sender f key nonce bo k bare
              (build_known_lem decode sender h c nonce bo q a k remote priv_a built),
          verify_protocol_lem decode receiver f key k o named found code,
        ),
      )
