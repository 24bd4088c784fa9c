-- ===== src/InternalOnion/Relay/Handshake.antt =====
-- A hello and its acknowledgement through two relays' `handleIncomingRelayPacket`
-- (src/net/internalOnion/relayNetwork.ts).
use nkc.Base.{
  ◌≡◌, refl, true, false, some, [], ◌∷◌, eq_refl, length, arith, ltb, leb, ◌==◌, ◌-◌, ◌||◌, ◌≤◌,
}
use nkc.InternalOnion.{HopHello, HopAck, hello, ack}
use nkc.InternalOnion.Relay.{
  Deps, Envelope, control, max_chain_length, send_control_to_peer, send_envelope, sign_and_send,
  build_relay_envelope,
}
use nkc.InternalOnion.Relay.Handle.{signer_of, act, arrive, handle_envelope}
use nkc.InternalOnion.Relay.Answers.{IsAddressed}

-- The acknowledgement that a relay makes for a hello.
abbrev pub ack_of : Deps → HopHello → HopAck
ack_of d m = record {
  circuit_id = m.circuit_id;
  hop_index = m.hop_index;
  ts = d.now;
  relay_peer_id = d.local_peer_id;
  accepted = true;
}

arrived :
    (d : Deps) (e : Envelope)
    → IsAddressed d e
    → 1 ≤ length e.chain
    → handle_envelope d e ≡ arrive d e.sender_peer_id e.payload
unfolding handle_envelope
arrived d e here some_peer = simp (guard_length, guard_cursor, here.0, last) refl
  where
    guard_length : ((length e.chain == 0) || ltb max_chain_length (length e.chain)) ≡ false
    guard_length = ground arith

    guard_cursor : leb (length e.chain) e.hop_cursor ≡ false
    guard_cursor = ground arith

    last : (e.hop_cursor == length e.chain - 1) ≡ true
    last = ground arith

-- The relay's frame with its acknowledgement.
abbrev pub answer : Deps → HopHello → Envelope
answer d m = record {
  ts = d.now;
  circuit_id = m.circuit_id;
  sender_peer_id = d.local_peer_id;
  chain = m.sender_peer_id ∷ [];
  hop_cursor = 0;
  payload = control (ack (ack_of d m));
}

-- A hello that has come to the last peer of its chain, signed by the sender of its frame, is
-- answered to that sender, and nobody else, with one frame; and that frame, at the sender, gives
-- the control handlers the acknowledgement of that hop of that circuit under the relay's name.
-- Signing must succeed, the sender must accept the signature, and it must have handlers.
pub hello_is_answered :
    (d origin : Deps) (e : Envelope) (m : HopHello)
    → IsAddressed d e
    → 1 ≤ length e.chain
    → e.payload ≡ control (hello m)
    → e.sender_peer_id ≡ m.sender_peer_id
    → origin.local_peer_id ≡ m.sender_peer_id
    → d.verify_control_message (hello m) m.sender_peer_id ≡ true
    → d.sign_control_message (ack (ack_of d m)) ≡ some (ack (ack_of d m))
    → origin.verify_control_message (ack (ack_of d m)) d.local_peer_id ≡ true
    → origin.has_handlers ≡ true
    → ((handle_envelope d e).frames ≡ (m.sender_peer_id, answer d m) ∷ [])
      × ((handle_envelope origin (answer d m)).called ≡ ack (ack_of d m) ∷ [])
unfolding arrive act signer_of send_control_to_peer send_envelope build_relay_envelope
    handle_envelope
hello_is_answered d origin e m here some_peer carries from named verified signed accepted handlers =
    (
      rw (arrived d e here some_peer) (
          rw (carries, from)
            (simp (eq_refl m.sender_peer_id, verified) (rw (signed, sign_and_send) refl))),
      simp (named, eq_refl m.sender_peer_id, eq_refl d.local_peer_id, accepted, handlers) refl,
    )
