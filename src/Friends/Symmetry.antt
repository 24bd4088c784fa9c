-- ===== src/Friends/Symmetry.antt =====
-- What two friends compute alike from either side: src/net/friendProtocol/.
use nkc.Base.{
  ◌≡◌, refl, ap, inl, inr, Bool, true, false, not, Option, none, some, [], ◌∷◌, ◌++◌, String,
  str_eq, eq_refl, ◌==◌, arith, Bool-cases, take,
}
use Prim.Native.Nat.{Ordering}
use nkc.Base.Text.{trim}
use nkc.Friends.{
  Bytes, Json, canonicalize, insert_field, has_distinct_keys, Crypto, IsLawful, ok, catch_as,
  HandshakeRecord, Role, alice, bob, Frame, FriendCodePayload,
}
use nkc.Friends.Records.{
  canonical_bytes, hash_of, to_transcript, to_profile_record, to_key_commitment_record,
  check_signature, signed_contact, build_handshake_record, verify_handshake_record,
  build_contact_exchange_record, verify_contact_exchange_record,
}
use nkc.Friends.Keys.{
  Peer, compare_bytes, role_by, other_role, payload_json, read_payload, commit_label,
}
use nkc.Friends.Secrets.{
  resolve_role, derive_shared_secret, derive_confirmation_v1, create_payload,
  derive_commitment_bytes, encode_friend_code_payload, parse_friend_code_payload,
}

module _ (C : Crypto) where
  -- The payload of a peer whose key is known.
  abbrev pub payload_for : Peer → Bytes → FriendCodePayload
  payload_for p key = record {
    commitment = C.encode (take 16 (C.generichash (commit_label ++ key)));
    identity_pub = p.identity_pub;
    dh_pub = p.dh_pub;
    device_id = p.device_id;
    onion_addr = p.onion_addr;
  }

  -- The role of the first of two peers.
  abbrev pub role_of : Peer → Bytes → Peer → Bytes → Role
  role_of p k q m =
      role_by
        (compare_bytes (take 16 (C.generichash (commit_label ++ k)))
          (take 16 (C.generichash (commit_label ++ m))))
        (C.text_lt p.identity_pub q.identity_pub)

module _ (C : Crypto) (L : IsLawful C) where
  check_signature-own :
      (identity : String) (key : Bytes) (v : Json) (reason : String)
      → identity ≡ C.encode (C.identity_of key)
      → check_signature C identity v (C.encode (C.sign_detached (canonical_bytes C v) key)) reason
        ≡ ok tt
  unfolding check_signature
  check_signature-own identity key v reason e = rw e (simp (L.decode-encode, L.verify-sign))

  pub verify-build_handshake_record :
      (f : Frame) (key : Bytes)
      → f.sender.identity_pub ≡ C.encode (C.identity_of key)
      → verify_handshake_record C f (build_handshake_record C f key) ≡ ok tt
  unfolding verify_handshake_record build_handshake_record
  verify-build_handshake_record f key e = rw (eq_refl (hash_of C (to_transcript f))) (
      ap (catch_as "handshake-verify-error")
        (check_signature-own f.sender.identity_pub key (to_transcript f) "handshake-proof-sig" e))

  pub verify-build_contact_exchange_record :
      (f : Frame) (h : HandshakeRecord) (key : Bytes)
      → f.sender.identity_pub ≡ C.encode (C.identity_of key)
      → verify_contact_exchange_record C f h (build_contact_exchange_record C f h key) ≡ ok tt
  unfolding verify_contact_exchange_record build_contact_exchange_record
  verify-build_contact_exchange_record f h key e =
      let p = hash_of C (to_profile_record f) in
      let k = hash_of C (to_key_commitment_record f h.transcript_hash) in
      rw (eq_refl p, eq_refl k)
        (ap (catch_as "contact-verify-error") (
          check_signature-own f.sender.identity_pub key (signed_contact p k h.transcript_hash)
            "contact-profile-sig" e))

  -- The two sides of a pair of payloads take different roles.
  compare_bytes-swap :
      (xs ys : Bytes) (b b' : Bool)
      → (compare_bytes xs ys ≡ Ordering.eq → b' ≡ not b)
      → role_by (compare_bytes ys xs) b' ≡ other_role (role_by (compare_bytes xs ys) b)
  unfolding compare_bytes
  compare_bytes-swap [] [] true b' h = rw (h refl) refl
  compare_bytes-swap [] [] false b' h = rw (h refl) refl
  compare_bytes-swap [] (y ∷ ys) b b' h = refl
  compare_bytes-swap (x ∷ xs) [] b b' h = refl
  compare_bytes-swap (x ∷ xs) (y ∷ ys) b b' h = elim (Bool-cases (x == y)) [
    | inl e ↦
        let back : (y == x) ≡ true = ground arith in
        rw (e, back) (compare_bytes-swap xs ys b b' (rw e at h))
    | inr e ↦ let back : (y == x) ≡ false = ground arith in rw (e, back) (ground arith)
  ]

  -- Which is the smaller identity is asked only where the commitments agree.
  text_lt-swap : (i j : String) → str_eq i j ≡ false → C.text_lt j i ≡ not (C.text_lt i j)
  text_lt-swap i j differ = elim (Bool-cases (C.text_lt i j)) [
    | inl e ↦ rw e (L.text_lt_asym i j e)
    | inr e ↦ rw e (L.text_lt_total i j differ e)
  ]

  pub create_payload_lem :
      (p : Peer) (key : Bytes)
      → p.dh_pub ≡ C.encode key
      → create_payload C p ≡ ok (payload_for C p key)
  unfolding create_payload derive_commitment_bytes
  create_payload_lem p key e =
      let found : C.decode p.dh_pub ≡ some key = rw e (L.decode-encode key) in rw found refl

  pub resolve_role_lem :
      (p q : Peer) (k m : Bytes)
      → resolve_role C (payload_for C p k) (payload_for C q m) ≡ ok (role_of C p k q m)
  unfolding resolve_role
  resolve_role_lem p q k m = simp (L.decode-encode)

  pub role_of-swap :
      (p q : Peer) (k m : Bytes)
      → str_eq p.identity_pub q.identity_pub ≡ false
      → role_of C q m p k ≡ other_role (role_of C p k q m)
  role_of-swap p q k m differ =
      compare_bytes-swap (take 16 (C.generichash (commit_label ++ k)))
        (take 16 (C.generichash (commit_label ++ m))) (C.text_lt p.identity_pub q.identity_pub)
        (C.text_lt q.identity_pub p.identity_pub)
        (λ same. text_lt-swap p.identity_pub q.identity_pub differ)

  -- Both sides derive one secret, and one confirmation.
  pub secret-swap :
      (a b : Bytes) (role : Role)
      → derive_shared_secret C b (C.dh_of b) (C.dh_of a) (other_role role)
        ≡ derive_shared_secret C a (C.dh_of a) (C.dh_of b) role
  unfolding derive_shared_secret
  secret-swap a b alice = rw (L.scalarmult_comm b a) refl
  secret-swap a b bob = rw (L.scalarmult_comm b a) refl

  pub confirmation-swap :
      (secret : Bytes) (l r : FriendCodePayload) (x y : Bytes) (role : Role) (context : Bytes)
      → derive_confirmation_v1 C secret r l y x (other_role role) role context
        ≡ derive_confirmation_v1 C secret l r x y role role context
  unfolding derive_confirmation_v1
  confirmation-swap secret l r x y alice context = refl
  confirmation-swap secret l r x y bob context = refl

  read-payload_json :
      (c i d : String) (device onion : Option String)
      → str_eq (trim c) "" ≡ false
      → str_eq (trim i) "" ≡ false
      → str_eq (trim d) "" ≡ false
      → let p : FriendCodePayload = record {
        commitment = c;
        identity_pub = i;
        dh_pub = d;
        device_id = device;
        onion_addr = onion;
      } in
        (has_distinct_keys (canonicalize (payload_json p)) ≡ true)
        × (read_payload (canonicalize (payload_json p)) ≡ some p)
  unfolding payload_json read_payload canonicalize insert_field has_distinct_keys
  read-payload_json c i d none none x y z = (refl, rw (x, y, z) refl)
  read-payload_json c i d none (some o) x y z = (refl, rw (x, y, z) refl)
  read-payload_json c i d (some e) none x y z = (refl, rw (x, y, z) refl)
  read-payload_json c i d (some e) (some o) x y z = (refl, rw (x, y, z) refl)

  -- A payload that has been encoded is read again.
  pub parse-encode_friend_code_payload :
      (p : FriendCodePayload)
      → str_eq (trim p.commitment) "" ≡ false
      → str_eq (trim p.identity_pub) "" ≡ false
      → str_eq (trim p.dh_pub) "" ≡ false
      → parse_friend_code_payload C (encode_friend_code_payload C p) ≡ some p
  unfolding parse_friend_code_payload encode_friend_code_payload canonical_bytes
  parse-encode_friend_code_payload p x y z =
      let (distinct, same) =
        read-payload_json p.commitment p.identity_pub p.dh_pub p.device_id p.onion_addr x y z in
      let v = canonicalize (payload_json p) in
      rw (L.decode-encode (C.json_bytes v), parse_friend_code_payload)
        (rw (L.parse-json v distinct, parse_friend_code_payload) same)
