-- ===== src/Friends/Secrets.antt =====
-- The hashes of a key agreement: what src/net/friendProtocol/keyAgreementManager.ts computes with
-- libsodium.
use nkc.Base.{◌||◌, Option, none, some, ◌∷◌, ◌++◌, String, str_eq, take}
use nkc.Friends.{
  Bytes, Crypto, Outcome, ok, ◌>>=◌, require, or_throw, HandshakeRecord, ContactRecord, identity_dh,
  Role, KeyAgreementRecord, FriendCodePayload,
}
use nkc.Friends.Records.{canonical_bytes, hash_of}
use nkc.Friends.Keys.{
  Peer, commit_label, shared_secret_label, master_key_label, confirmation_key_label,
  confirmation_mac_label, key_agreement_protocol_version, to_confirmation_payload, compare_bytes,
  payload_json, read_payload, pick, role_by,
}

module _ (C : Crypto) where
  unfoldable pub compute_confirmation :
      HandshakeRecord → ContactRecord → String → Option String → String
  unfolding hash_of to_confirmation_payload
  compute_confirmation h c nonce psk_hint = hash_of C (to_confirmation_payload h c nonce psk_hint)

  unfoldable pub derive_commitment_bytes : String → Outcome Bytes
  derive_commitment_bytes dh_pub = do
    key ← or_throw (C.decode dh_pub)
    ok (take 16 (C.generichash (commit_label ++ key)))

  unfoldable pub create_payload : Peer → Outcome FriendCodePayload
  unfolding derive_commitment_bytes
  create_payload p = do
    commitment ← derive_commitment_bytes p.dh_pub
    ok (record {
      commitment = C.encode commitment;
      identity_pub = p.identity_pub;
      dh_pub = p.dh_pub;
      device_id = p.device_id;
      onion_addr = p.onion_addr;
    })

  unfoldable pub encode_friend_code_payload : FriendCodePayload → String
  unfolding canonical_bytes payload_json
  encode_friend_code_payload p = C.encode (canonical_bytes C (payload_json p))

  unfoldable pub parse_friend_code_payload : String → Option FriendCodePayload
  unfolding read_payload
  parse_friend_code_payload encoded = elim (C.decode encoded) [
    | none ↦ none
    | some b ↦ elim (C.parse_json b) [ none ↦ none | some v ↦ read_payload v ]
  ]

  unfoldable pub resolve_role : FriendCodePayload → FriendCodePayload → Outcome Role
  unfolding compare_bytes
  resolve_role l r = do
    local_commit ← or_throw (C.decode l.commitment)
    remote_commit ← or_throw (C.decode r.commitment)
    ok (
        role_by (compare_bytes local_commit remote_commit)
          (C.text_lt l.identity_pub r.identity_pub))

  unfoldable pub derive_shared_secret : Bytes → Bytes → Bytes → Role → Outcome Bytes
  derive_shared_secret local_priv local_pub remote_pub sender_role = do
    shared ← or_throw (C.scalarmult local_priv remote_pub)
    ok (
        C.generichash (
          shared_secret_label
          ++ (shared
              ++ (key_agreement_protocol_version
                  ∷ (pick sender_role local_pub remote_pub
                      ++ pick sender_role remote_pub local_pub)))))

  unfoldable pub derive_confirmation_v1 :
      Bytes → FriendCodePayload → FriendCodePayload → Bytes → Bytes → Role → Role → Bytes → String
  unfolding canonical_bytes payload_json
  derive_confirmation_v1 secret l r local_pub remote_pub local_role sender_role context =
      let ck = C.generichash (confirmation_key_label ++ secret) in
      let local_bytes = canonical_bytes C (payload_json l) in
      let remote_bytes = canonical_bytes C (payload_json r) in
      let of_alice =
        pick local_role local_bytes remote_bytes ++ pick local_role local_pub remote_pub in
      let of_bob =
        pick local_role remote_bytes local_bytes ++ pick local_role remote_pub local_pub in
      C.encode (
        C.generichash (
          confirmation_mac_label
          ++ (ck
              ++ ((pick sender_role of_alice of_bob ++ pick sender_role of_bob of_alice)
                  ++ context))))

  unfoldable pub derive_master_key_hint : Bytes → String
  derive_master_key_hint secret = C.encode (take 12 (C.generichash (master_key_label ++ secret)))

  unfoldable pub identity_record :
      HandshakeRecord → ContactRecord → String → Option String → KeyAgreementRecord
  unfolding compute_confirmation
  identity_record h c nonce psk_hint = record {
    v = 1;
    method = identity_dh;
    nonce = nonce;
    confirmation = compute_confirmation h c nonce psk_hint;
    commitment = none;
    payload = none;
    role = none;
    master_key_hint = none;
    psk_hint = psk_hint;
  }

  unfoldable pub check_hint : Option String → Bytes → Outcome (Unit {0})
  unfolding derive_master_key_hint
  check_hint none secret = ok tt
  check_hint (some hint) secret =
      require (str_eq hint "" || str_eq (derive_master_key_hint secret) hint)
        "key-agreement-master-key-hint"
