-- ===== src/Friends/Agreement.antt =====
-- What the two sides of a key agreement compute alike: src/net/friendProtocol/keyAgreementManager.ts.
use nkc.Base.{
  ◌≡◌, refl, ap, ◌∙◌, true, false, Option, some, ◌++◌, String, str_eq, eq_refl, or_default, arith,
  take,
}
use nkc.Friends.{
  Bytes, Crypto, IsLawful, ok, From, HandshakeRecord, ContactRecord, Role, alice, bob,
  friend_code_oob_v1, KeyAgreementRecord,
}
use nkc.Friends.Records.{canonical_bytes}
use nkc.Friends.Keys.{
  Peer, Own, VerifyOptions, other_role, role_eq, to_confirmation_payload, commit_label,
}
use nkc.Friends.Secrets.{
  derive_shared_secret, derive_confirmation_v1, derive_commitment_bytes, encode_friend_code_payload,
  derive_master_key_hint, check_hint,
}
use nkc.Friends.KeyAgreement.{build_for_peer, verify_payload}
use nkc.Friends.KeyAgreement.{resolve_local_peer}
use nkc.Friends.Symmetry.{
  create_payload_lem, resolve_role_lem, role_of-swap, secret-swap, confirmation-swap, payload_for,
  role_of,
}

module _ (C : Crypto) (L : IsLawful C) (decode_friend_code : String → Option Peer) where
  -- The record that `p` with the private key `a` makes for `q` with the private key `b`.
  abbrev pub agreed :
      HandshakeRecord
      → ContactRecord
      → String
      → Option String
      → Peer
      → Peer
      → Bytes
      → Bytes
      → Bytes
      → KeyAgreementRecord
  agreed h c nonce hint p q a b secret =
      let l = payload_for C p (C.dh_of a) in
      let r = payload_for C q (C.dh_of b) in
      let role = role_of C p (C.dh_of a) q (C.dh_of b) in
      record {
        v = 1;
        method = friend_code_oob_v1;
        nonce = nonce;
        confirmation =
            derive_confirmation_v1 C secret l r (C.dh_of a) (C.dh_of b) role role
              (canonical_bytes C (to_confirmation_payload h c nonce hint));
        commitment = some l.commitment;
        payload = some (encode_friend_code_payload C l);
        role = some role;
        master_key_hint = some (derive_master_key_hint C secret);
        psk_hint = hint;
      }

  commitment_lem :
      (from : From) (key : Bytes)
      → C.decode from.dh_pub ≡ some key
      → derive_commitment_bytes C from.dh_pub ≡ ok (take 16 (C.generichash (commit_label ++ key)))
  unfolding derive_commitment_bytes
  commitment_lem from key e = rw e refl

  role_eq-other : (r : Role) → role_eq r (other_role (other_role r)) ≡ true
  role_eq-other alice = refl
  role_eq-other bob = refl

  hint_lem : (secret : Bytes) → check_hint C (some (derive_master_key_hint C secret)) secret ≡ ok tt
  unfolding check_hint
  hint_lem secret = rw (eq_refl (derive_master_key_hint C secret)) (ground arith)

  module _ (h : HandshakeRecord) (c : ContactRecord) (nonce : String) (hint : Option String)
      (p q : Peer) (a b secret : Bytes) (p_key : p.dh_pub ≡ C.encode (C.dh_of a))
      (q_key : q.dh_pub ≡ C.encode (C.dh_of b))
      (shared : derive_shared_secret C a
          (C.dh_of a)
          (C.dh_of b)
          (role_of C p (C.dh_of a) q (C.dh_of b))
        ≡ ok secret) where
    pub build_for_peer-agreed :
        (own : Own)
        → build_for_peer C decode_friend_code own h c nonce hint p q a
          ≡ ok (agreed h c nonce hint p q a b secret)
    unfolding build_for_peer
    build_for_peer-agreed own =
        let found_p : C.decode p.dh_pub ≡ some (C.dh_of a) =
          rw p_key (L.decode-encode (C.dh_of a)) in
        let found_q : C.decode q.dh_pub ≡ some (C.dh_of b) =
          rw q_key (L.decode-encode (C.dh_of b)) in
        simp (
          create_payload_lem C L p (C.dh_of a) p_key,
          create_payload_lem C L q (C.dh_of b) q_key,
          resolve_role_lem C L p q (C.dh_of a) (C.dh_of b),
          found_p,
          found_q,
          shared,
        )

    -- The other side, whose own peer is `q`, comes to the same confirmation.
    pub verify_payload-agreed :
        (own : Own) (from : From) (o : VerifyOptions)
        → from.identity_pub ≡ p.identity_pub
        → from.dh_pub ≡ p.dh_pub
        → str_eq p.identity_pub q.identity_pub ≡ false
        → resolve_local_peer C decode_friend_code own o.local_friend_code ≡ q
        → or_default o.local_dh_priv own.dh_priv ≡ b
        → verify_payload C decode_friend_code own from h c
            (agreed h c nonce hint p q a b secret)
            nonce
            (payload_for C p (C.dh_of a)).commitment
            (payload_for C p (C.dh_of a))
            (role_of C p (C.dh_of a) q (C.dh_of b))
            o
          ≡ ok tt
    unfolding verify_payload
    verify_payload-agreed own from o i d differ local_q priv =
        let role = role_of C p (C.dh_of a) q (C.dh_of b) in
        let l = payload_for C p (C.dh_of a) in
        let r = payload_for C q (C.dh_of b) in
        let context = canonical_bytes C (to_confirmation_payload h c nonce hint) in
        let found_p : C.decode from.dh_pub ≡ some (C.dh_of a) =
          rw (d, p_key) (L.decode-encode (C.dh_of a)) in
        let found_q : C.decode q.dh_pub ≡ some (C.dh_of b) =
          rw q_key (L.decode-encode (C.dh_of b)) in
        let roles =
          resolve_role_lem C L q p (C.dh_of b) (C.dh_of a)
          ∙ ap ok (role_of-swap C L p q (C.dh_of a) (C.dh_of b) differ) in
        let same_secret : derive_shared_secret C b (C.dh_of b) (C.dh_of a) (other_role role)
            ≡ ok secret =
          secret-swap C L a b role ∙ shared in
        let committed = commitment_lem from (C.dh_of a) found_p in
        let same_i : str_eq p.identity_pub from.identity_pub ≡ true =
          rw i (eq_refl p.identity_pub) in
        let same_d : str_eq p.dh_pub from.dh_pub ≡ true = rw d (eq_refl p.dh_pub) in
        simp (
          same_i,
          same_d,
          committed,
          local_q,
          priv,
          create_payload_lem C L q (C.dh_of b) q_key,
          roles,
          found_p,
          found_q,
          same_secret,
          role_eq-other,
          confirmation-swap C L secret l r (C.dh_of a) (C.dh_of b) role context,
          hint_lem secret,
          eq_refl,
        )
