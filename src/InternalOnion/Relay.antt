-- ===== src/InternalOnion/Relay.antt =====
-- Source-routed relay frames: src/net/internalOnion/relayNetwork.ts. What a call does to the world,
-- the frames that it sends and the handlers that it calls, is part of its result. JSON, base64 and
-- text decoding are parameters, and so are signatures.
pub mod Handle
pub mod Chains
pub mod Travel
pub mod Arrival
pub mod Answers
pub mod Handshake
use nkc.Base.{
  ℕ, zero, suc, ◌+◌, Bool, true, false, ◌&&◌, ◌||◌, not, Option, none, some, List, [], ◌∷◌, ◌++◌,
  map, String, str_eq, ltb, leb, ◌==◌, if◌then◌else◌, or_default, length, take, keep, contains,
}
use nkc.Base.Text.{trim}
use nkc.InternalOnion.{HopState, RouteState, ControlMessage, hello, ack, ping, pong}
use nkc.InternalOnion.RouteManager.Steps.{is_ready}

-- The payload of a `TransportPacket`.
pub data Wire : Type 0 where
  text : String → Wire
  bytes : List ℕ → Wire
  b64 : String → Wire
  unreadable : Wire

-- A `TransportPacket`, with the fields that may name its target.
pub record Packet : Type 0 where
  pub id : String
  pub payload : Wire
  pub to_device_id : Option String
  pub meta_to_device_id : Option String
  pub route_to_device_id : Option String
  pub to : Option String
  pub route_to : Option String
  pub meta_to : Option String

-- `RelayPayload`
pub data Payload : Type 0 where
  control : ControlMessage → Payload
  data_packet : Packet → Payload

-- `RelayEnvelope`; the fields `type` and `v` are constants.
pub record Envelope : Type 0 where
  pub ts : ℕ
  pub circuit_id : String
  pub sender_peer_id : String
  pub chain : List String
  pub hop_cursor : ℕ
  pub payload : Payload

-- A parsed JSON object: the cursor is absent unless it is an integer that is not negative, the chain
-- unless it is an array.
pub record Frame : Type 0 where
  pub type : Option String
  pub v : Option ℕ
  pub ts : ℕ
  pub circuit_id : String
  pub sender_peer_id : String
  pub chain : Option (List String)
  pub hop_cursor : Option ℕ
  pub payload : Payload

-- `RelayDeps`. A send returns the message of the error that it throws; signing may throw.
pub record Deps : Type 0 where
  pub now : ℕ
  pub local_peer_id : String
  pub send_relay_envelope : String → Envelope → Option String
  pub sign_control_message : ControlMessage → Option ControlMessage
  pub verify_control_message : ControlMessage → String → Bool
  -- Whether `registerInternalOnionControlHandlers` has been called.
  pub has_handlers : Bool

-- What JSON, base64 and text decoding give.
pub record Codec : Type 0 where
  pub decode_text : List ℕ → String
  pub decode_b64 : String → Option (List ℕ)
  pub parse_json : String → Option Frame

-- What a call has done: the frames sent, newest last, and how it ended.
pub record Sent : Type 0 where
  pub frames : List (String × Envelope)
  pub error : Option String

-- `RelayHandleResult`, with the frames sent and the messages given to the control handlers.
pub record Handled : Type 0 where
  pub handled : Bool
  pub delivered : Option Packet
  pub frames : List (String × Envelope)
  pub called : List ControlMessage
  pub error : Option String

abbrev pub relay_frame_type : String
relay_frame_type = "internal_onion_relay"

abbrev pub max_chain_length : ℕ
max_chain_length = 8

abbrev pub not_sent : String → Sent
not_sent message = record { frames = []; error = some message }

abbrev pub unhandled : Handled
unhandled = record { handled = false; delivered = none; frames = []; called = []; error = none }

abbrev pub ignored : Handled
ignored = record unhandled { handled = true }

abbrev pub after_send : Sent → Handled
after_send s = record ignored { frames = s.frames; error = s.error }

-- `decodePayloadToText`
unfoldable pub decode_payload_to_text : Codec → Wire → Option String
decode_payload_to_text k (text s) = some s
decode_payload_to_text k (bytes bs) = some (k.decode_text bs)
decode_payload_to_text k (b64 s) = elim (k.decode_b64 s) [
  | none ↦ none
  | some bs ↦ some (k.decode_text bs)
]
decode_payload_to_text k unreadable = none

-- `isRelayEnvelope`
unfoldable pub is_relay_envelope : Frame → Bool
is_relay_envelope f = elim f.type [
  | none ↦ false
  | some t ↦ str_eq t relay_frame_type && elim f.v [ none ↦ false | some v ↦ v == 1 ]
]

-- `Array.from(new Set(xs))`, without what has been seen.
unfoldable pub distinct_from : List String → List String → List String
distinct_from seen [] = []
distinct_from seen (x ∷ xs) =
    let skipped = distinct_from seen xs in
    let kept = x ∷ distinct_from (x ∷ seen) xs in if contains seen x then skipped else kept

-- `hop.peerId?.trim()`, with an absent or an empty name left out.
unfoldable pub trimmed_peers : List HopState → List String
trimmed_peers [] = []
trimmed_peers (h ∷ hs) =
    let rest = trimmed_peers hs in
    elim h.peer_id [ none ↦ rest | some p ↦ if str_eq (trim p) "" then rest else trim p ∷ rest ]

-- `buildChainForHop`
unfoldable pub build_chain_for_hop : RouteState → ℕ → List String
unfolding distinct_from trimmed_peers
build_chain_for_hop route index =
    distinct_from [] (trimmed_peers (keep (λ h. leb h.hop_index index) route.hops))

-- `a ?? b` of two that may be absent.
abbrev or_else : Option String → Option String → Option String
or_else none b = b
or_else (some a) b = some a

unfoldable pub resolve_data_target_peer_id : Packet → Option String
resolve_data_target_peer_id p = or_else p.to_device_id (
    or_else p.meta_to_device_id
      (or_else p.route_to_device_id (or_else p.to (or_else p.route_to p.meta_to))))

unfoldable pub build_relay_chain_for_data : RouteState → String → List String
unfolding distinct_from trimmed_peers
build_relay_chain_for_data route target = take max_chain_length (
    distinct_from [] (keep (λ p. not (str_eq p target)) (trimmed_peers route.hops))
    ++ (target ∷ []))

unfoldable pub send_envelope : Deps → Envelope → Sent
send_envelope d e = elim e.chain [
  | [] ↦ not_sent "relay chain empty"
  | first ∷ rest ↦
      if ltb max_chain_length (length e.chain)
      then not_sent "relay chain too long"
      else record { frames = (first, e) ∷ []; error = d.send_relay_envelope first e }
]

unfoldable pub build_relay_envelope : Deps → String → List String → Payload → Envelope
build_relay_envelope d circuit chain payload = record {
  ts = d.now;
  circuit_id = circuit;
  sender_peer_id = d.local_peer_id;
  chain = chain;
  hop_cursor = 0;
  payload = payload;
}

-- The message signed and sent along a chain.
abbrev sign_and_send : Deps → String → List String → ControlMessage → Sent
sign_and_send d circuit chain message = elim (d.sign_control_message message) [
  | none ↦ not_sent "sign failed"
  | some signed ↦ send_envelope d (build_relay_envelope d circuit chain (control signed))
]

unfoldable pub send_control_to_peer : Deps → String → String → ControlMessage → Sent
send_control_to_peer d to circuit message = sign_and_send d circuit (to ∷ []) message

send_along_hops : Deps → String → List String → ControlMessage → Sent
send_along_hops d circuit [] message = not_sent "relay chain unavailable"
send_along_hops d circuit (p ∷ ps) message = sign_and_send d circuit (p ∷ ps) message

unfoldable pub send_control_plane_message : Deps → RouteState → ControlMessage → Sent
unfolding send_along_hops
send_control_plane_message d route (hello m) =
    send_along_hops d m.circuit_id (build_chain_for_hop route m.hop_index) (hello m)
send_control_plane_message d route (ping m) =
    send_along_hops d m.circuit_id (build_chain_for_hop route m.hop_index) (ping m)
send_control_plane_message d route _ = record { frames = []; error = none }

abbrev send_along_relays : Deps → String → List String → Packet → Sent
send_along_relays d circuit [] packet = not_sent "internal onion relay chain is empty"
send_along_relays d circuit (p ∷ ps) packet =
    send_envelope d (build_relay_envelope d circuit (p ∷ ps) (data_packet packet))

-- `new_id` is what `createId` returns.
unfoldable pub send_data_via_current_route : Deps → RouteState → String → Packet → Sent
send_data_via_current_route d route new_id packet =
    let target = trim (or_default (resolve_data_target_peer_id packet) "") in
    if not (is_ready route.status)
    then not_sent "internal onion route not ready"
    else if str_eq target ""
    then not_sent "internal onion target peer missing"
    else send_along_relays d (or_default route.circuit_id new_id)
        (build_relay_chain_for_data route target) packet
