-- ===== src/Sync.antt =====
-- Synchronisation of event logs between peers: src/sync/syncEngine.ts. This file holds the frames,
-- what a peer can do, and the lamport numbers that have been seen.
pub mod Lamports
pub mod Responses
pub mod Flow
pub mod Apply
pub mod Handshake
pub mod Connection
use nkc.Base.{
  ℕ, ◌-◌, ◌≡◌, Bool, true, false, not, ◌&&◌, ◌||◌, Option, none, some, List, [], ◌∷◌, ◌++◌, String,
  str_eq, ltb, leb, ◌==◌, if◌then◌else◌, or_default,
}
use nkc.Base.Dict.{Dict, get, set}
use nkc.Receipts.{◌<>◌}

-- A lamport number that comes from a peer: `none` is a value that is not a finite number.
pub record EnvelopeEvent : Type 0 where
  pub event_id : String
  pub conv_id : String
  pub author_device_id : String
  pub lamport : Option ℕ
  pub ts : ℕ
  pub envelope_json : String

pub record EventRecord : Type 0 where
  pub event_id : String
  pub conv_id : String
  pub author_device_id : String
  pub lamport : ℕ
  pub ts : ℕ
  pub envelope_json : String
  pub prev_hash : Option String
  pub event_hash : String
  pub conflict : Option Bool

abbrev pub event_key : EventRecord → String
event_key r = r.event_id

-- A version is `none` where it is absent or not a finite number from 0 on.
pub record PeerCaps : Type 0 where
  pub proto : Option ℕ
  pub sync : Option ℕ
  pub ratchet : Option ℕ
  pub media_chunks : Option Bool
  pub media : Option ℕ
  pub device_roles : Option Bool
  pub devices : Option ℕ

pub record NormalizedPeerCaps : Type 0 where
  pub proto : ℕ
  pub sync : ℕ
  pub ratchet : ℕ
  pub media_chunks : Bool
  pub media : ℕ
  pub device_roles : Bool
  pub devices : ℕ

abbrev pub legacy_peer_caps : NormalizedPeerCaps
legacy_peer_caps = record {
  proto = 1;
  sync = 1;
  ratchet = 0;
  media_chunks = false;
  media = 0;
  device_roles = false;
  devices = 0;
}

abbrev pub local_caps : PeerCaps
local_caps = record {
  proto = some 1;
  sync = some 2;
  ratchet = some 2;
  media_chunks = some true;
  media = some 2;
  device_roles = some true;
  devices = some 1;
}

unfoldable pub normalize_peer_caps : Option PeerCaps → NormalizedPeerCaps
normalize_peer_caps none = legacy_peer_caps
normalize_peer_caps (some c) = record {
  proto = or_default c.proto legacy_peer_caps.proto;
  sync = or_default c.sync legacy_peer_caps.sync;
  ratchet = or_default c.ratchet legacy_peer_caps.ratchet;
  media_chunks = or_default c.media_chunks false;
  media = or_default c.media legacy_peer_caps.media;
  device_roles = or_default c.device_roles false;
  devices = or_default c.devices legacy_peer_caps.devices;
}

pub data PeerKind : Type 0 where
  friend device : PeerKind

pub record PeerContext : Type 0 where
  pub kind : Option PeerKind
  pub onion_addr : Option String
  pub direct_addr : Option String
  pub friend_key_id : Option String
  pub identity_pub : Option String
  pub dh_pub : Option String
  pub peer_device_id : Option String
  pub peer_caps : Option NormalizedPeerCaps

abbrev pub caps_of : Option PeerContext → Option NormalizedPeerCaps
caps_of none = none
caps_of (some c) = c.peer_caps

unfoldable pub get_peer_caps : Dict PeerContext → String → NormalizedPeerCaps
get_peer_caps peers conv = or_default (caps_of (get peers conv)) legacy_peer_caps

unfoldable pub can_use_binary_media_transport : Dict PeerContext → String → Bool
unfolding get_peer_caps
can_use_binary_media_transport peers conv =
    (get_peer_caps peers conv).media_chunks && leb 2 (get_peer_caps peers conv).media

unfoldable pub can_use_role_events : NormalizedPeerCaps → Bool
can_use_role_events c = c.device_roles && leb 1 c.devices

unfoldable pub can_use_flow_control : Dict PeerContext → String → Bool
unfolding get_peer_caps
can_use_flow_control peers conv = leb 2 (get_peer_caps peers conv).sync

pub data Scope : Type 0 where
  conv contacts conversations global : Scope

-- The log that a request of a scope is about.
unfoldable pub scope_conv_id : Scope → Option String → String → String
scope_conv_id conv c fallback = or_default c fallback
scope_conv_id contacts c fallback = "contacts:" <> or_default c fallback
scope_conv_id conversations c fallback = "convs:" <> or_default c fallback
scope_conv_id global c fallback = "global:" <> or_default c fallback

pub record SyncReq : Type 0 where
  pub scope : Scope
  pub conv_id : Option String
  pub since : Dict ℕ

pub record FlowInfo : Type 0 where
  pub session_id : String
  pub chunk_index : ℕ
  pub total_chunks : ℕ
  pub final : Bool

pub record SyncRes : Type 0 where
  pub scope : Scope
  pub conv_id : Option String
  pub events : List EnvelopeEvent
  pub next : Dict ℕ
  pub flow : Option FlowInfo

-- The highest lamport number of each author, over all logs and in each log.
pub record Seen : Type 0 where
  pub per_author : Dict ℕ
  pub per_conv : Dict (Dict ℕ)

unfoldable pub raise : Dict ℕ → String → ℕ → Dict ℕ
raise m author lamport =
    if ltb (or_default (get m author) 0) lamport then set m author lamport else m

unfoldable pub update_lamport_seen : Seen → String → String → ℕ → Seen
unfolding raise
update_lamport_seen s log author lamport = record {
  per_author = raise s.per_author author lamport;
  per_conv = set s.per_conv log (raise (or_default (get s.per_conv log) []) author lamport);
}

unfoldable pub get_lamport_seen : Seen → String → String → ℕ
get_lamport_seen s log author = or_default (get (or_default (get s.per_conv log) []) author) 0

-- Without a conversation the numbers over all logs.
unfoldable pub get_since_map : Seen → Option String → Dict ℕ
get_since_map s none = s.per_author
get_since_map s (some log) = or_default (get s.per_conv log) []
