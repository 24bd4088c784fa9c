-- ===== src/Friends/KeyAgreement.antt =====
-- The key agreement of two friends: src/net/friendProtocol/keyAgreementManager.ts.
use nkc.Base.{◌&&◌, Option, none, some, String, str_eq, ◌==◌, or_default}
use nkc.Base.Text.{non_empty, first_of}
use nkc.Friends.{
  Bytes, Crypto, Outcome, ok, fails, ◌>>=◌, ◌>>◌, require, or_throw, From, HandshakeRecord,
  ContactRecord, Method, identity_dh, friend_code_oob_v1, other_method, Role, KeyAgreementRecord,
  FriendCodePayload,
}
use nkc.Friends.Records.{canonical_bytes}
use nkc.Friends.Keys.{
  Peer, Own, BuildOptions, VerifyOptions, trimmed, to_confirmation_payload, other_role, role_eq,
  peer_of, all_present,
}
use nkc.Friends.Secrets.{
  check_hint, compute_confirmation, create_payload, derive_commitment_bytes, derive_confirmation_v1,
  derive_master_key_hint, derive_shared_secret, encode_friend_code_payload, identity_record,
  parse_friend_code_payload, resolve_role,
}

module _ (C : Crypto) (decode_friend_code : String → Option Peer) (own : Own) where
  -- Blank codes and those that cannot be decoded say nothing.
  unfoldable pub peer_from_code : Option String → Option Peer
  peer_from_code code = elim (trimmed code) [ none ↦ none | some s ↦ decode_friend_code s ]

  abbrev pub code_field : (Peer → Option String) → Option String → Option String
  code_field f code = elim (peer_from_code code) [ none ↦ none | some p ↦ f p ]

  unfoldable pub resolve_local_peer : Option String → Peer
  resolve_local_peer code = record {
    identity_pub =
        or_default (code_field (λ p. some p.identity_pub) code) (C.encode own.identity_pub);
    dh_pub = or_default (code_field (λ p. some p.dh_pub) code) (C.encode own.dh_pub);
    device_id = some (or_default (code_field (λ p. p.device_id) code) own.device_id);
    onion_addr = code_field (λ p. p.onion_addr) code;
  }

  unfoldable pub resolve_remote_peer : BuildOptions → Option Peer
  resolve_remote_peer o =
      peer_of
        (non_empty (
          first_of o.remote_identity_pub
            (code_field (λ p. some p.identity_pub) o.remote_friend_code)))
        (non_empty
          (first_of o.remote_dh_pub (code_field (λ p. some p.dh_pub) o.remote_friend_code)))
        (first_of o.remote_device_id (code_field (λ p. p.device_id) o.remote_friend_code))
        (first_of o.remote_onion_addr (code_field (λ p. p.onion_addr) o.remote_friend_code))

  -- The record for a peer that is known.
  unfoldable pub build_for_peer :
      HandshakeRecord
      → ContactRecord
      → String
      → Option String
      → Peer
      → Peer
      → Bytes
      → Outcome KeyAgreementRecord
  build_for_peer h c nonce psk_hint local_peer remote_peer dh_priv = do
    l ← create_payload C local_peer
    r ← create_payload C remote_peer
    role ← resolve_role C l r
    let context = canonical_bytes C (to_confirmation_payload h c nonce psk_hint)
    local_pub ← or_throw (C.decode local_peer.dh_pub)
    remote_pub ← or_throw (C.decode remote_peer.dh_pub)
    secret ← derive_shared_secret C dh_priv local_pub remote_pub role
    ok (record {
      v = 1;
      method = friend_code_oob_v1;
      nonce = nonce;
      confirmation = derive_confirmation_v1 C secret l r local_pub remote_pub role role context;
      commitment = some l.commitment;
      payload = some (encode_friend_code_payload C l);
      role = some role;
      master_key_hint = some (derive_master_key_hint C secret);
      psk_hint = psk_hint;
    })

  unfoldable pub build_key_agreement_record :
      HandshakeRecord → ContactRecord → String → BuildOptions → Outcome KeyAgreementRecord
  build_key_agreement_record h c nonce o =
      let psk_hint = trimmed o.psk_hint in
      elim (resolve_remote_peer o) [
        | none ↦ ok (identity_record C h c nonce psk_hint)
        | some remote ↦
            build_for_peer h c nonce psk_hint (resolve_local_peer o.local_friend_code) remote
              (or_default o.local_dh_priv own.dh_priv)
      ]

  -- The checks of a record that comes with a payload.
  unfoldable pub verify_payload :
      From
      → HandshakeRecord
      → ContactRecord
      → KeyAgreementRecord
      → String
      → String
      → FriendCodePayload
      → Role
      → VerifyOptions
      → Outcome (Unit {0})
  verify_payload from h c r nonce commitment remote role o = do
    require (str_eq remote.identity_pub from.identity_pub) "key-agreement-identity-mismatch"
    require (str_eq remote.dh_pub from.dh_pub) "key-agreement-dh-mismatch"
    expected_bytes ← derive_commitment_bytes C from.dh_pub
    let expected_commit = C.encode expected_bytes
    require (str_eq commitment expected_commit && str_eq remote.commitment expected_commit)
        "key-agreement-commitment"
    let local_peer = resolve_local_peer o.local_friend_code
    l ← create_payload C local_peer
    local_role ← resolve_role C l remote
    require (role_eq role (other_role local_role)) "key-agreement-role"
    let context = canonical_bytes C (to_confirmation_payload h c nonce r.psk_hint)
    local_pub ← or_throw (C.decode local_peer.dh_pub)
    remote_pub ← or_throw (C.decode from.dh_pub)
    secret ←
        derive_shared_secret C (or_default o.local_dh_priv own.dh_priv) local_pub remote_pub
          local_role
    require
        (str_eq r.confirmation
          (derive_confirmation_v1 C secret l remote local_pub remote_pub local_role role context))
        "key-agreement-confirmation"
    check_hint C r.master_key_hint secret

  unfoldable pub verify_oob :
      From
      → HandshakeRecord
      → ContactRecord
      → KeyAgreementRecord
      → String
      → VerifyOptions
      → Outcome (Unit {0})
  verify_oob from h c r nonce o = do
    parts ← all_present (non_empty r.payload) (non_empty r.commitment) r.role
    elim (parse_friend_code_payload C parts.0) [
      | none ↦ fails "key-agreement-payload-parse"
      | some remote ↦ verify_payload from h c r nonce parts.1 remote parts.2 o
    ]

  unfoldable pub verify_method :
      From
      → HandshakeRecord
      → ContactRecord
      → KeyAgreementRecord
      → String
      → VerifyOptions
      → Method
      → Outcome (Unit {0})
  verify_method from h c r nonce o identity_dh =
      require (str_eq r.confirmation (compute_confirmation C h c nonce r.psk_hint))
        "key-agreement-confirmation"
  verify_method from h c r nonce o friend_code_oob_v1 = verify_oob from h c r nonce o
  verify_method from h c r nonce o other_method = fails "key-agreement-method"

  unfoldable pub verify_key_agreement_record :
      From
      → HandshakeRecord
      → ContactRecord
      → KeyAgreementRecord
      → VerifyOptions
      → Outcome (Unit {0})
  verify_key_agreement_record from h c r o = do
    require (r.v == 1) "key-agreement-version"
    elim (trimmed (some r.nonce)) [
      | none ↦ fails "key-agreement-nonce"
      | some nonce ↦ verify_method from h c r nonce o r.method
    ]
