-- ===== src/Sync/Handshake/Frames.antt =====
-- The frames of a handshake, their nonces and signatures: src/sync/syncEngine.ts.
use nkc.Base.{ℕ, ◌*◌, Bool, true, false, ◌&&◌, ◌||◌, Option, String, leb, ◌==◌, suc, if◌then◌else◌}
use Prim.Native.Char.{code}
use nkc.Sync.{PeerCaps}

abbrev pub handshake_nonce_ttl_ms : ℕ
handshake_nonce_ttl_ms = 5 * 60 * 1000

abbrev pub max_seen_hello_nonces : ℕ
max_seen_hello_nonces = 2048

pub data FrameType : Type 0 where
  hello ack : FrameType

pub record Profile : Type 0 where
  pub display_name : Option String
  pub status : Option String

pub record HelloFrame : Type 0 where
  pub device_id : String
  pub identity_pub : String
  pub nonce : String
  pub sig : String
  pub caps : Option PeerCaps
  pub profile : Option Profile

pub record AckFrame : Type 0 where
  pub device_id : String
  pub identity_pub : String
  pub nonce : String
  pub sig : String
  pub caps : Option PeerCaps

-- What is signed. The older form has no field for the capabilities at all.
pub data SignedCaps : Type 0 where
  no_field : SignedCaps
  field : Option PeerCaps → SignedCaps

pub record Payload : Type 0 where
  pub frame_type : FrameType
  pub identity_pub : String
  pub device_id : String
  pub nonce : String
  pub caps : SignedCaps

pub record PendingHello : Type 0 where
  pub nonce : String
  pub created_at : ℕ

pub record RoleChange : Type 0 where
  pub event_id : String
  pub ts : ℕ

-- `verify_handshake` is the check of a signature by libsodium over the canonical bytes of a payload.
-- `apply_role` is updateFromRoleEvent (`none`: it throws), `apply_verification` what the profile of
-- a friend becomes.
pub record HandshakeDeps : Type 1 where
  pub World : Type 0
  pub verify_handshake : Payload → String → String → Bool
  pub sign_handshake : Payload → String
  pub own_identity : String
  pub own_device_id : String
  pub apply_role : RoleChange → World → Option World
  pub apply_verification : String → String → Option Profile → World → World

is_nonce_char : ℕ → Bool
is_nonce_char c =
    (leb b'A' c && leb c b'Z')
    || ((leb b'a' c && leb c b'z') || ((leb b'0' c && leb c b'9') || (c == b'_' || c == b'-')))

abbrev pub string_length : String → ℕ
string_length String.[] = 0
string_length (String.◌∷◌ c s) = suc (string_length s)

are_nonce_chars : String → Bool
unfolding is_nonce_char
are_nonce_chars String.[] = true
are_nonce_chars (String.◌∷◌ c s) = is_nonce_char (code c) && are_nonce_chars s

-- `/^[A-Za-z0-9_-]{16,256}$/`
unfoldable pub is_nonce : String → Bool
unfolding are_nonce_chars
is_nonce s = leb 16 (string_length s) && (leb (string_length s) 256 && are_nonce_chars s)

-- The capabilities that a frame names must be signed; a frame without any may have the older form.
unfoldable pub verify_handshake_compat :
    (Payload → String → String → Bool) → Payload → Payload → String → String → Bool → Bool
verify_handshake_compat verify payload legacy sig identity has_caps =
    if verify payload sig identity
    then true
    else if has_caps
    then false
    else verify legacy sig identity
