-- ===== src/InternalOnion/Relay/Answers.antt =====
-- What `handleIncomingRelayPacket` of src/net/internalOnion/relayNetwork.ts lets a frame do.
use nkc.Base.{
  subst, ◌⊎◌, ◌+◌, ◌-◌, ◌≤◌, ◌≡◌, refl, ap, inl, inr, Bool, true, false, Option, none, some, [],
  ◌∷◌, String, str_eq, eq_iff, length, get_elem?, Elem, arith, ◌&&◌, ◌||◌, ltb, leb, ◌==◌,
  if◌then◌else◌,
}
use nkc.InternalOnion.{ControlMessage, hello, ack, ping, pong}
use nkc.InternalOnion.Relay.{
  Deps, Envelope, Handled, Packet, Payload, control, data_packet, ignored, max_chain_length,
}
use nkc.InternalOnion.Relay.Handle.{is_at, signer_of, act, arrive, forward, handle_envelope}

-- The peer is the last of the chain, and the frame has come to it.
abbrev pub IsAddressed : Deps → Envelope → Type 0
IsAddressed d e =
    (is_at (get_elem? e.chain e.hop_cursor) d.local_peer_id ≡ true)
    × (e.hop_cursor ≡ length e.chain - 1)
    × (length e.chain ≤ max_chain_length)

forward-only_forwards :
    (d : Deps) (e : Envelope) → ((forward d e).delivered ≡ none) × ((forward d e).called ≡ [])
unfolding forward
forward-only_forwards d e = by_next (get_elem? e.chain (e.hop_cursor + 1))
  where
    moved : Envelope
    moved = record e { ts = d.now; hop_cursor = e.hop_cursor + 1 }

    onward : Option String → Handled
    onward none = ignored
    onward (some peer) = record ignored {
      frames = (peer, moved) ∷ [];
      error = d.send_relay_envelope peer moved;
    }

    by_next :
        (next : Option String) → ((onward next).delivered ≡ none) × ((onward next).called ≡ [])
    by_next none = (refl, refl)
    by_next (some peer) = (refl, refl)

-- What comes of a frame is what `arrive` gives where the peer is addressed, and is otherwise a
-- frame to another place of the chain at most.
handle_envelope-cases :
    (d : Deps) (e : Envelope)
    → (IsAddressed d e × (handle_envelope d e ≡ arrive d e.sender_peer_id e.payload))
      ⊎ (((handle_envelope d e).delivered ≡ none) × ((handle_envelope d e).called ≡ []))
unfolding handle_envelope
handle_envelope-cases d e = by_tests _ _ _ _ refl refl refl refl
  where
    by_tests :
        (b1 b2 b3 b4 : Bool)
        → ((length e.chain == 0) || ltb max_chain_length (length e.chain)) ≡ b1
        → leb (length e.chain) e.hop_cursor ≡ b2
        → is_at (get_elem? e.chain e.hop_cursor) d.local_peer_id ≡ b3
        → (e.hop_cursor == length e.chain - 1) ≡ b4
        → (IsAddressed d e × (handle_envelope d e ≡ arrive d e.sender_peer_id e.payload))
          ⊎ (((handle_envelope d e).delivered ≡ none) × ((handle_envelope d e).called ≡ []))
    by_tests true b2 b3 b4 t1 t2 t3 t4 = inr (simp t1 (refl, refl))
    by_tests false true b3 b4 t1 t2 t3 t4 = inr (simp (t1, t2) (refl, refl))
    by_tests false false false b4 t1 t2 t3 t4 = inr (simp (t1, t2, t3) (refl, refl))
    by_tests false false true true t1 t2 t3 t4 =
        inl ((t3, ground arith, ground arith), simp (t1, t2, t3, t4) refl)
    by_tests false false true false t1 t2 t3 t4 =
        inr (simp (t1, t2, t3, t4) (forward-only_forwards d e))

act-delivers : (d : Deps) (sender : String) (m : ControlMessage) → (act d sender m).delivered ≡ none
unfolding act
act-delivers d sender (hello m) = refl
act-delivers d sender (ack m) = refl
act-delivers d sender (ping m) = refl
act-delivers d sender (pong m) = refl

act-calls :
    (d : Deps) (sender : String) (m n : ControlMessage) → Elem n (act d sender m).called → m ≡ n
unfolding act
act-calls d sender (hello m) n h = absurd h
act-calls d sender (ack m) n h = ground arith
act-calls d sender (ping m) n h = absurd h
act-calls d sender (pong m) n h = ground arith

arrive-delivers :
    (d : Deps) (sender : String) (q : Payload) (p : Packet)
    → (arrive d sender q).delivered ≡ some p
    → q ≡ data_packet p
unfolding arrive
arrive-delivers d sender (data_packet q) p h = cc
arrive-delivers d sender (control m) p h = ground (arith, act-delivers d sender m)

arrive-calls :
    (d : Deps) (sender : String) (q : Payload) (n : ControlMessage)
    → Elem n (arrive d sender q).called
    → (q ≡ control n)
      × (str_eq (signer_of sender n) sender ≡ true)
      × (d.verify_control_message n (signer_of sender n) ≡ true)
unfolding arrive
arrive-calls d sender (data_packet q) n h = absurd h
arrive-calls d sender (control m) n h =
    by_test (str_eq (signer_of sender m) sender) refl
      (d.verify_control_message m (signer_of sender m)) refl h
  where
    by_test :
        (b : Bool)
        → str_eq (signer_of sender m) sender ≡ b
        → (v : Bool) → d.verify_control_message m (signer_of sender m) ≡ v
        → Elem n (if b && v then act d sender m else ignored).called
        → (control m ≡ control n)
          × (str_eq (signer_of sender n) sender ≡ true)
          × (d.verify_control_message n (signer_of sender n) ≡ true)
    by_test true eb true ev h =
        let same = act-calls d sender m n h in
        (
          ap control same,
          subst (λ x. str_eq (signer_of sender x) sender ≡ true) same eb,
          subst (λ x. d.verify_control_message x (signer_of sender x) ≡ true) same ev,
        )
    by_test true eb false ev h = absurd h
    by_test false eb v ev h = absurd h

-- A packet is delivered only to the last peer of a chain of at most eight, from a data frame that
-- has come to it, and then as it was sent.
pub handle_envelope-delivers :
    (d : Deps) (e : Envelope) (p : Packet)
    → (handle_envelope d e).delivered ≡ some p
    → IsAddressed d e × (e.payload ≡ data_packet p)
handle_envelope-delivers d e p h = elim (handle_envelope-cases d e) [
  | inl (here, is) ↦ (
    here,
    arrive-delivers d e.sender_peer_id e.payload p (subst (λ x. x.delivered ≡ some p) is h),
  )
  | inr (nothing, more) ↦ cc
]

-- A message reaches the control handlers only at the last peer of the chain, and only if it is the
-- one that the frame carries, the signer that it names is the sender of the frame, and its
-- signature is that signer's.
pub handle_envelope-calls :
    (d : Deps) (e : Envelope) (m : ControlMessage)
    → Elem m (handle_envelope d e).called
    → IsAddressed d e
      × (e.payload ≡ control m)
      × (signer_of e.sender_peer_id m ≡ e.sender_peer_id)
      × (d.verify_control_message m e.sender_peer_id ≡ true)
handle_envelope-calls d e m h = elim (handle_envelope-cases d e) [
  | inl (here, is) ↦
      let made = arrive-calls d e.sender_peer_id e.payload m (subst (λ x. Elem m x.called) is h) in
      let signer : signer_of e.sender_peer_id m ≡ e.sender_peer_id =
        ground (arith, eq_iff (signer_of e.sender_peer_id m) e.sender_peer_id, made.1) in
      (here, made.0, signer, subst (λ x. d.verify_control_message m x ≡ true) signer made.2)
  | inr (nothing, uncalled) ↦ absurd (subst (λ x. Elem m x) uncalled h)
]
