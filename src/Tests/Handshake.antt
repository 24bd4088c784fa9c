-- ===== src/Tests/Handshake.antt =====
-- A peer that greets twice.
use nkc.Base.{ℕ, ◌+◌, ◌≡◌, refl, ◌⊎◌, true, false, none, some, List, [], ◌∷◌, arith}
use nkc.Base.Dict.{get, has}
use nkc.Sync.{PeerContext, local_caps}
use nkc.Sync.Handshake.{
  Engine, Incoming, hello_frame, ack_frame, ack_payload, is_pinned_to_other, greet, handle_hello,
  handle_ack, receive, forget_old,
}
use nkc.Sync.Handshake.Frames.{
  HandshakeDeps, HelloFrame, AckFrame, is_nonce, verify_handshake_compat,
}
use nkc.Sync.Handshake.Pinned.{identity_of, receive-pinned, handle_hello-authentic}
use nkc.Sync.Handshake.Replays.{IsBounded, receive-IsBounded}
use nkc.Sync.Handshake.Repeats.{handle_hello-replay}
use nkc.Sync.Handshake.Acks.{handle_ack_once}

-- Every signature is right.
abbrev deps : HandshakeDeps
deps = record {
  World = ℕ;
  verify_handshake = λ p sig identity. true;
  sign_handshake = λ p. "signed";
  own_identity = "me";
  own_device_id = "laptop";
  apply_role = λ r w. none;
  apply_verification = λ identity device_id profile w. w + 1;
}

abbrev greeting : HelloFrame
greeting = record {
  device_id = "phone";
  identity_pub = "you";
  nonce = "0123456789abcdef";
  sig = "signed";
  caps = some local_caps;
  profile = none;
}

abbrev reply : AckFrame
reply = record {
  device_id = "phone";
  identity_pub = "you";
  nonce = "n";
  sig = "signed";
  caps = none;
}

abbrev context : PeerContext
context = record {
  kind = none;
  onion_addr = none;
  direct_addr = none;
  friend_key_id = none;
  identity_pub = some "you";
  dh_pub = none;
  peer_device_id = none;
  peer_caps = none;
}

abbrev engine : Engine deps
engine = record {
  peers = ("chat", context) ∷ [];
  pending_hello = ("chat", record { nonce = "n"; created_at = 0 }) ∷ [];
  seen_hello = [];
  deferred_roles = [];
  world = 0;
}

abbrev frames : List (Incoming deps)
frames =
    hello_frame "chat" greeting 10
    ∷ hello_frame "chat" (record greeting { identity_pub = "thief" }) 11
    ∷ ack_frame "chat" reply 12
    ∷ []

receive-pinned_example : identity_of (receive deps engine frames).peers "chat" ≡ some "you"
unfolding get
receive-pinned_example = receive-pinned deps frames engine "chat" "you" refl refl

receive-IsBounded_example : IsBounded (receive deps engine frames).seen_hello
receive-IsBounded_example = receive-IsBounded deps frames engine (omega arith, tt)

handle_hello-authentic_example :
    (is_nonce "0123456789abcdef" ≡ true)
    × (is_pinned_to_other deps engine.peers "chat" "you" ≡ false)
    × ((true ≡ true) ⊎ ((some local_caps ≡ none) × (true ≡ true)))
    × (identity_of (handle_hello deps "chat" greeting 10 engine).0.peers "chat" ≡ some "you")
unfolding handle_hello greet is_nonce is_pinned_to_other verify_handshake_compat has get forget_old
handle_hello-authentic_example =
    handle_hello-authentic deps "chat" greeting 10 engine (ack_payload deps greeting, "signed") refl

handle_hello-replay_example :
    let t =
      receive deps
        (handle_hello deps "chat" greeting 10 engine).0
        (ack_frame "chat" reply 12 ∷ hello_frame "chat" greeting 15 ∷ []) in
    let (u, again) = handle_hello deps "other" greeting 20 t in
    (again ≡ none)
    × (u.peers ≡ t.peers)
    × (u.pending_hello ≡ t.pending_hello)
    × (u.deferred_roles ≡ t.deferred_roles)
    × (u.world ≡ t.world)
unfolding handle_hello greet is_nonce is_pinned_to_other verify_handshake_compat has get forget_old
handle_hello-replay_example =
    handle_hello-replay deps "chat" "other" greeting 10 20 engine
      (ack_payload deps greeting, "signed")
      (ack_frame "chat" reply 12 ∷ hello_frame "chat" greeting 15 ∷ []) refl (omega arith)
      (omega arith, (omega arith, tt)) (omega arith)

handle_ack_once_example :
    let t = handle_ack deps "chat" reply 5 engine in
    let u = receive deps t (hello_frame "chat" greeting 6 ∷ []) in
    (t ≡ engine) ⊎ (handle_ack deps "chat" reply 7 u ≡ u)
handle_ack_once_example =
    handle_ack_once deps "chat" reply reply 5 7 engine (hello_frame "chat" greeting 6 ∷ [])
