-- ===== src/InternalOnion/Relay/Handle.antt =====
-- `handleIncomingRelayPacket` of src/net/internalOnion/relayNetwork.ts: forward, deliver or answer.
use nkc.Base.{
  ◌+◌, ◌-◌, Bool, true, false, ◌&&◌, ◌||◌, not, Option, none, some, [], ◌∷◌, String, str_eq, ltb,
  leb, ◌==◌, if◌then◌else◌, length, get_elem?,
}
use nkc.InternalOnion.{ControlMessage, hello, ack, ping, pong}
use nkc.InternalOnion.Relay.{
  Codec, Deps, Envelope, Frame, Handled, Packet, Payload, control, data_packet, ignored, unhandled,
  after_send, max_chain_length, decode_payload_to_text, is_relay_envelope, send_control_to_peer,
}

abbrev pub is_at : Option String → String → Bool
is_at none peer = false
is_at (some p) peer = str_eq p peer

-- The signer that a message names, or else the sender of its envelope.
unfoldable pub signer_of : String → ControlMessage → String
signer_of sender (hello m) = m.sender_peer_id
signer_of sender (ack m) = m.relay_peer_id
signer_of sender _ = sender

abbrev pub give : Deps → ControlMessage → Handled
give d m = record ignored { called = if d.has_handlers then m ∷ [] else [] }

-- What a signed message asks for.
unfoldable pub act : Deps → String → ControlMessage → Handled
act d sender (hello m) = after_send (
    send_control_to_peer d sender m.circuit_id (
      ack (record {
        circuit_id = m.circuit_id;
        hop_index = m.hop_index;
        ts = d.now;
        relay_peer_id = d.local_peer_id;
        accepted = true;
      })))
act d sender (ping m) = after_send (
    send_control_to_peer d sender m.circuit_id
      (pong (record { circuit_id = m.circuit_id; hop_index = m.hop_index; ts = d.now })))
act d sender (ack m) = give d (ack m)
act d sender (pong m) = give d (pong m)

unfoldable pub forward : Deps → Envelope → Handled
forward d e =
    let next = record e { ts = d.now; hop_cursor = e.hop_cursor + 1 } in
    elim (get_elem? e.chain (e.hop_cursor + 1)) [
      | none ↦ ignored
      | some peer ↦ record ignored {
        frames = (peer, next) ∷ [];
        error = d.send_relay_envelope peer next;
      }
    ]

unfoldable pub arrive : Deps → String → Payload → Handled
arrive d sender (data_packet p) = record ignored { delivered = some p }
arrive d sender (control m) =
    if str_eq (signer_of sender m) sender && d.verify_control_message m (signer_of sender m)
    then act d sender m
    else ignored

-- A frame whose chain and cursor have the right types.
unfoldable pub handle_envelope : Deps → Envelope → Handled
handle_envelope d e =
    if (length e.chain == 0) || ltb max_chain_length (length e.chain)
    then ignored
    else if leb (length e.chain) e.hop_cursor
    then ignored
    else if not (is_at (get_elem? e.chain e.hop_cursor) d.local_peer_id)
    then ignored
    else if e.hop_cursor == length e.chain - 1
    then arrive d e.sender_peer_id e.payload
    else forward d e

unfoldable pub handle_frame : Deps → Frame → Handled
handle_frame d f =
    if is_relay_envelope f
    then elim f.chain [
      | none ↦ ignored
      | some chain ↦ elim f.hop_cursor [
        | none ↦ ignored
        | some cursor ↦ handle_envelope d (record {
          ts = f.ts;
          circuit_id = f.circuit_id;
          sender_peer_id = f.sender_peer_id;
          chain = chain;
          hop_cursor = cursor;
          payload = f.payload;
        })
      ]
    ]
    else unhandled

unfoldable pub handle_incoming_relay_packet : Codec → Deps → Packet → Handled
handle_incoming_relay_packet k d p = elim (decode_payload_to_text k p.payload) [
  | none ↦ unhandled
  | some raw ↦
      if str_eq raw ""
      then unhandled
      else elim (k.parse_json raw) [ none ↦ unhandled | some f ↦ handle_frame d f ]
]
