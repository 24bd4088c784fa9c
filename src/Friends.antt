-- ===== src/Friends.antt =====
-- The friend protocol: the types of src/net/friendProtocol/types.ts, the canonical form of
-- src/crypto/canonicalJson.ts and what the records are made with.
pub mod Records
pub mod Keys
pub mod Secrets
pub mod KeyAgreement
pub mod Frames
pub mod Symmetry
pub mod Agreement
pub mod Acceptance
pub mod Soundness
use nkc.Base.{
  ℕ, ◌<◌, ◌≡◌, Bool, true, false, not, ◌&&◌, ◌||◌, Option, none, some, List, [], ◌∷◌, String,
  str_eq, length, if◌then◌else◌,
}
use nkc.Base.Text.{trim}
use Prim.Native.Nat.{Ordering}
use Prim.Native.String.{compare}

abbrev pub Bytes : Type 0
Bytes = List ℕ

-- A value of JSON, with no arrays, which the records have none of. An undefined field is left out.
mutual
  pub data Json : Type 0 where
    null : Json
    num : ℕ → Json
    text : String → Json
    obj : Fields → Json

  pub data Fields : Type 0 where
    end : Fields
    field : String → Json → Fields → Fields

abbrev pub optional : String → Option String → Fields → Fields
optional k none fs = fs
optional k (some s) fs = field k (text s) fs

abbrev pub key_le : String → String → Bool
key_le a b = elim (compare a b) [ Ordering.gt ↦ false | _ ↦ true ]

-- `Object.keys(value).sort()`, by code points.
unfoldable pub insert_field : String → Json → Fields → Fields
insert_field k v end = field k v end
insert_field k v (field j w fs) =
    let rest = insert_field k v fs in
    if key_le k j then field k v (field j w fs) else field j w rest

unfoldable mutual
  unfolding insert_field

  pub canonicalize : Json → Json
  canonicalize null = null
  canonicalize (num n) = num n
  canonicalize (text s) = text s
  canonicalize (obj fs) = obj (canonicalize_fields fs)

  pub canonicalize_fields : Fields → Fields
  canonicalize_fields end = end
  canonicalize_fields (field k v fs) = insert_field k (canonicalize v) (canonicalize_fields fs)

-- No object has a key twice.
abbrev pub has_key : String → Fields → Bool
has_key k end = false
has_key k (field j v fs) = str_eq j k || has_key k fs

unfoldable mutual
  pub has_distinct_keys : Json → Bool
  has_distinct_keys null = true
  has_distinct_keys (num n) = true
  has_distinct_keys (text s) = true
  has_distinct_keys (obj fs) = are_distinct fs

  pub are_distinct : Fields → Bool
  are_distinct end = true
  are_distinct (field k v fs) = not (has_key k fs) && (has_distinct_keys v && are_distinct fs)

-- libsodium, JSON and the base64 of src/security/base64url.ts. `none` stands for a call that throws.
pub record Crypto : Type 0 where
  pub generichash : Bytes → Bytes
  -- a message and a private key
  pub sign_detached : Bytes → Bytes → Bytes
  -- a signature, a message and a public key
  pub verify_detached : Bytes → Bytes → Bytes → Option Bool
  pub identity_of : Bytes → Bytes
  pub scalarmult : Bytes → Bytes → Option Bytes
  pub dh_of : Bytes → Bytes
  pub json_bytes : Json → Bytes
  pub parse_json : Bytes → Option Json
  pub encode : Bytes → String
  pub decode : String → Option Bytes
  -- `a < b` on texts
  pub text_lt : String → String → Bool

-- What the protocol relies on.
pub record IsLawful (C : Crypto) : Type 0 where
  pub verify-sign :
      (m k : Bytes) → C.verify_detached (C.sign_detached m k) m (C.identity_of k) ≡ some true
  pub scalarmult_comm : (a b : Bytes) → C.scalarmult a (C.dh_of b) ≡ C.scalarmult b (C.dh_of a)
  pub parse-json : (v : Json) → has_distinct_keys v ≡ true → C.parse_json (C.json_bytes v) ≡ some v
  pub decode-encode : (b : Bytes) → C.decode (C.encode b) ≡ some b
  pub encode_visible : (x : ℕ) (b : Bytes) → str_eq (trim (C.encode (x ∷ b))) "" ≡ false
  pub length-json_bytes : (v : Json) → 0 < length (C.json_bytes v)
  pub length-generichash : (b : Bytes) → length (C.generichash b) ≡ 32
  pub text_lt_total :
      (a b : String) → str_eq a b ≡ false → C.text_lt a b ≡ false → C.text_lt b a ≡ true
  pub text_lt_asym : (a b : String) → C.text_lt a b ≡ true → C.text_lt b a ≡ false

-- The result of a check, or of a function that may throw.
pub data Outcome {ℓ} (A : Type ℓ) : Type ℓ where
  ok : A → Outcome A
  fails : String → Outcome A
  throws : Outcome A

infixl 5 ◌>>=◌ ◌>>◌
abbrev pub ◌>>=◌ {ℓ κ} : {A : Type ℓ} {B : Type κ} → Outcome A → (A → Outcome B) → Outcome B
ok a >>= f = f a
fails r >>= f = fails r
throws >>= f = throws

abbrev pub ◌>>◌ {ℓ} : {B : Type ℓ} → Outcome (Unit {0}) → Outcome B → Outcome B
m >> k = m >>= λ _. k

abbrev pub require : Bool → String → Outcome (Unit {0})
require true r = ok tt
require false r = fails r

abbrev pub or_throw {ℓ} : {A : Type ℓ} → Option A → Outcome A
or_throw none = throws
or_throw (some a) = ok a

-- `catch { return { ok: false, reason } }`
abbrev pub catch_as {ℓ} : {A : Type ℓ} → String → Outcome A → Outcome A
catch_as r (ok a) = ok a
catch_as r (fails s) = fails s
catch_as r throws = fails r

pub data FrameType : Type 0 where
  friend_req friend_accept friend_decline : FrameType

pub record From : Type 0 where
  pub identity_pub : String
  pub dh_pub : String
  pub device_id : Option String
  pub friend_code : Option String

pub record Profile : Type 0 where
  pub display_name : Option String
  pub status : Option String
  pub avatar_ref : Option Json

pub record HandshakeRecord : Type 0 where
  pub v : ℕ
  pub transcript_hash : String
  pub proof_sig : String

pub record ContactRecord : Type 0 where
  pub v : ℕ
  pub profile_hash : String
  pub key_commitment : String
  pub profile_sig : String

pub data Method : Type 0 where
  identity_dh friend_code_oob_v1 other_method : Method

-- A role with another text, which the source refuses, is not represented.
pub data Role : Type 0 where
  alice bob : Role

pub record KeyAgreementRecord : Type 0 where
  pub v : ℕ
  pub method : Method
  pub nonce : String
  pub confirmation : String
  pub commitment : Option String
  pub payload : Option String
  pub role : Option Role
  pub master_key_hint : Option String
  pub psk_hint : Option String

pub record Protocol : Type 0 where
  pub v : ℕ
  pub handshake : HandshakeRecord
  pub contact_exchange : ContactRecord
  pub key_agreement : KeyAgreementRecord

-- `ts` is `none` where it is no finite number.
pub record Frame : Type 0 where
  pub frame_type : FrameType
  pub conv_id : Option String
  pub trace_id : Option String
  pub sender : From
  pub profile : Option Profile
  pub protocol : Option Protocol
  -- A time that is no natural number is left out.
  pub ts : Option ℕ

pub record FriendCodePayload : Type 0 where
  pub commitment : String
  pub identity_pub : String
  pub dh_pub : String
  pub device_id : Option String
  pub onion_addr : Option String
