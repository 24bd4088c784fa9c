-- ===== src/Tests/Relay.antt =====
-- Three peers on a route: frames that are forwarded, delivered and answered.
use nkc.Base.{ℕ, ◌≡◌, refl, inl, true, some, none, [], ◌∷◌, String, length, arith}
use nkc.Base.Text.{trim}
use nkc.InternalOnion.{HopHello, HopState, RouteState, ready, ok, hello, ack}
use nkc.InternalOnion.Relay.{
  Deps, Envelope, Packet, text, control, data_packet, ignored, send_data_via_current_route,
  resolve_data_target_peer_id,
}
use nkc.InternalOnion.Relay.Handle.{handle_envelope, signer_of, arrive, act}
use nkc.InternalOnion.Relay.Travel.{travel, travel-arrives, handle_envelope-between}
use nkc.InternalOnion.Relay.Arrival.{send_data_via_current_route-arrives}
use nkc.InternalOnion.Relay.Answers.{IsAddressed, handle_envelope-calls}
use nkc.InternalOnion.Relay.Handshake.{answer, ack_of, hello_is_answered}

abbrev node : String → Deps
node peer = record {
  now = 5;
  local_peer_id = peer;
  send_relay_envelope = λ to e. none;
  sign_control_message = λ m. some m;
  verify_control_message = λ m signer. true;
  has_handlers = true;
}

abbrev hop : ℕ → String → HopState
hop index peer = record {
  hop_index = index;
  peer_id = some peer;
  status = ok;
  last_seen_ts = none;
  rtt_ms = none;
}

abbrev route : RouteState
route = record {
  desired_hops = 2;
  established_hops = 2;
  status = ready;
  circuit_id = some "c1";
  hops = hop 1 "p" ∷ hop 2 "q" ∷ [];
  last_error = none;
  updated_at_ts = 0;
}

abbrev packet : Packet
packet = record {
  id = "m";
  payload = text "hi";
  to_device_id = none;
  meta_to_device_id = none;
  route_to_device_id = none;
  to = some "bob";
  route_to = none;
  meta_to = none;
}

send_data_via_current_route-arrives_example :
    (first : String) × (e : Envelope) × ((send_data_via_current_route
        (node "me")
        route
        "new"
        packet).frames
      ≡ (first, e) ∷ [])
    × (travel node (length e.chain) first e ≡ some ("bob", packet))
unfolding trim resolve_data_target_peer_id
send_data_via_current_route-arrives_example =
    send_data_via_current_route-arrives node (λ p. refl) (node "me") route "new" packet "bob" refl
      (omega arith) refl refl

abbrev frame : Envelope
frame = record {
  ts = 0;
  circuit_id = "c1";
  sender_peer_id = "me";
  chain = "p" ∷ "q" ∷ "bob" ∷ [];
  hop_cursor = 1;
  payload = data_packet packet;
}

travel-arrives_example : travel node 2 "q" frame ≡ some ("bob", packet)
travel-arrives_example =
    travel-arrives node (λ p. refl) 1 frame "q" "bob" packet (omega arith) refl refl refl refl

handle_envelope-between_example : handle_envelope (node "q") frame ≡ record ignored {
  frames = ("bob", record frame { ts = 5; hop_cursor = 2 }) ∷ [];
  error = none;
}
handle_envelope-between_example =
    handle_envelope-between (node "q") frame "bob" (omega arith) refl (omega arith) refl

abbrev last_frame : Envelope
last_frame = record frame { hop_cursor = 2 }

abbrev greeting : HopHello
greeting = record { circuit_id = "c1"; hop_index = 2; ts = 1; sender_peer_id = "me" }

abbrev hello_frame : Envelope
hello_frame = record frame { chain = "p" ∷ "q" ∷ []; payload = control (hello greeting) }

hello_is_answered_example :
    ((handle_envelope (node "q") hello_frame).frames ≡ ("me", answer (node "q") greeting) ∷ [])
    × ((handle_envelope (node "me") (answer (node "q") greeting)).called
        ≡ ack (ack_of (node "q") greeting) ∷ [])
hello_is_answered_example =
    hello_is_answered (node "q") (node "me") hello_frame greeting (refl, refl, omega arith)
      (omega arith) refl refl refl refl refl refl refl

handle_envelope-calls_example :
    IsAddressed (node "me") (answer (node "q") greeting)
    × (control (ack (ack_of (node "q") greeting)) ≡ control (ack (ack_of (node "q") greeting)))
    × (signer_of "q" (ack (ack_of (node "q") greeting)) ≡ "q")
    × ((node "me").verify_control_message (ack (ack_of (node "q") greeting)) "q" ≡ true)
unfolding handle_envelope arrive act signer_of
handle_envelope-calls_example =
    handle_envelope-calls (node "me") (answer (node "q") greeting)
      (ack (ack_of (node "q") greeting)) (inl refl)
