-- ===== src/Friends/Keys.antt =====
-- Payloads, roles and secrets of the key agreement of two friends:
-- src/net/friendProtocol/keyAgreementManager.ts.
use nkc.Base.{
  ℕ, Bool, true, false, Option, none, some, [], ◌∷◌, String, str_eq, ◌==◌, or_default,
  if◌then◌else◌,
}
use nkc.Base.Text.{trim, non_empty}
use nkc.Ratchet.{codes}
use Prim.Native.Nat.{Ordering, compare}
use nkc.Friends.{
  Bytes, Json, Fields, null, num, text, obj, end, field, optional, Outcome, ok, fails,
  HandshakeRecord, ContactRecord, Role, alice, bob, FriendCodePayload,
}

-- What a friend code says. Its decoding belongs to src/security/friendCode.ts.
pub record Peer : Type 0 where
  pub identity_pub : String
  pub dh_pub : String
  pub device_id : Option String
  pub onion_addr : Option String

-- The device that the code runs on.
pub record Own : Type 0 where
  pub identity_pub : Bytes
  pub dh_pub : Bytes
  pub dh_priv : Bytes
  pub device_id : String

pub record BuildOptions : Type 0 where
  pub psk_hint : Option String
  pub local_dh_priv : Option Bytes
  pub local_friend_code : Option String
  pub remote_friend_code : Option String
  pub remote_identity_pub : Option String
  pub remote_dh_pub : Option String
  pub remote_device_id : Option String
  pub remote_onion_addr : Option String

pub record VerifyOptions : Type 0 where
  pub local_friend_code : Option String
  pub local_dh_priv : Option Bytes

-- The labels are spelled as hexadecimal digits in the source.
abbrev pub label : String → Bytes
label name = codes name

abbrev pub commit_label : Bytes
commit_label = label "org.briarproject.bramble.keyagreement/COMMIT"

abbrev pub shared_secret_label : Bytes
shared_secret_label = label "org.briarproject.bramble.keyagreement/SHARED_SECRET"

abbrev pub master_key_label : Bytes
master_key_label = label "org.briarproject.bramble.keyagreement/MASTER_SECRET"

abbrev pub confirmation_key_label : Bytes
confirmation_key_label = label "org.briarproject.bramble.keyagreement/CONFIRMATION_KEY"

abbrev pub confirmation_mac_label : Bytes
confirmation_mac_label = label "org.briarproject.bramble.keyagreement/CONFIRMATION_MAC"

abbrev pub key_agreement_protocol_version : ℕ
key_agreement_protocol_version = 1

abbrev pub trimmed : Option String → Option String
trimmed none = none
trimmed (some s) = non_empty (some (trim s))

unfoldable pub to_confirmation_payload :
    HandshakeRecord → ContactRecord → String → Option String → Json
to_confirmation_payload h c nonce psk_hint = obj (
    field "transcriptHash" (text h.transcript_hash) (
      field "profileHash" (text c.profile_hash) (
        field "keyCommitment" (text c.key_commitment)
          (field "nonce" (text nonce) (field "pskHint" (text (or_default psk_hint "")) end)))))

-- The first difference decides, else the length.
unfoldable pub compare_bytes : Bytes → Bytes → Ordering
compare_bytes [] [] = Ordering.eq
compare_bytes [] (y ∷ ys) = Ordering.lt
compare_bytes (x ∷ xs) [] = Ordering.gt
compare_bytes (x ∷ xs) (y ∷ ys) =
    let rest = compare_bytes xs ys in if x == y then rest else compare x y

unfoldable pub payload_json : FriendCodePayload → Json
payload_json p = obj (
    field "v" (num 1) (
      field "commitment" (text p.commitment) (
        field "identityPub" (text p.identity_pub) (
          field "dhPub" (text p.dh_pub)
            (optional "deviceId" p.device_id (optional "onionAddr" p.onion_addr end))))))

abbrev pub find_field : String → Fields → Option Json
find_field k end = none
find_field k (field j v fs) = if str_eq j k then some v else find_field k fs

abbrev pub as_text : Option Json → Option String
as_text (some (text s)) = some s
as_text (some null) = none
as_text (some (num n)) = none
as_text (some (obj fs)) = none
as_text none = none

abbrev pub is_one : Option Json → Bool
is_one (some (num n)) = n == 1
is_one (some null) = false
is_one (some (text s)) = false
is_one (some (obj fs)) = false
is_one none = false

-- A text that is not blank.
abbrev pub visible_text : Option String → Option String
visible_text none = none
visible_text (some s) = if str_eq (trim s) "" then none else some s

abbrev pub payload_of :
    Option String
    → Option String
    → Option String
    → Option String
    → Option String
    → Option FriendCodePayload
payload_of (some c) (some i) (some d) device onion = some (record {
  commitment = c;
  identity_pub = i;
  dh_pub = d;
  device_id = device;
  onion_addr = onion;
})
payload_of none i d device onion = none
payload_of (some c) none d device onion = none
payload_of (some c) (some i) none device onion = none

unfoldable pub read_payload : Json → Option FriendCodePayload
read_payload null = none
read_payload (num n) = none
read_payload (text s) = none
read_payload (obj fs) =
    if is_one (find_field "v" fs)
    then payload_of (visible_text (as_text (find_field "commitment" fs)))
        (visible_text (as_text (find_field "identityPub" fs)))
        (visible_text (as_text (find_field "dhPub" fs))) (as_text (find_field "deviceId" fs))
        (as_text (find_field "onionAddr" fs))
    else none

abbrev pub other_role : Role → Role
other_role alice = bob
other_role bob = alice

abbrev pub role_eq : Role → Role → Bool
role_eq alice alice = true
role_eq alice bob = false
role_eq bob alice = false
role_eq bob bob = true

abbrev pub pick {ℓ} : {A : Type ℓ} → Role → A → A → A
pick alice x y = x
pick bob x y = y

abbrev pub role_by : Ordering → Bool → Role
role_by Ordering.lt b = alice
role_by Ordering.gt b = bob
role_by Ordering.eq b = if b then alice else bob

abbrev pub peer_of : Option String → Option String → Option String → Option String → Option Peer
peer_of (some i) (some d) device onion =
    some (record { identity_pub = i; dh_pub = d; device_id = device; onion_addr = onion })
peer_of none d device onion = none
peer_of (some i) none device onion = none

abbrev pub all_present :
    Option String → Option String → Option Role → Outcome (String × String × Role)
all_present (some p) (some c) (some r) = ok (p, c, r)
all_present none c r = fails "key-agreement-payload-missing"
all_present (some p) none r = fails "key-agreement-payload-missing"
all_present (some p) (some c) none = fails "key-agreement-payload-missing"
