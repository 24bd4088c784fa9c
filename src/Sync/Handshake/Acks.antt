-- ===== src/Sync/Handshake/Acks.antt =====
-- Acknowledgements that come again: handleAck of src/sync/syncEngine.ts, frames handled one after
-- another.
use nkc.Base.{
  ℕ, ◌≡◌, refl, ◌∙◌, ◌⊎◌, inl, inr, true, false, Option, none, List, [], ◌∷◌, String, str_eq,
  eq_refl, arith, Bool-cases, or_default,
}
use nkc.Base.Dict.{get, set, delete, get-delete}
use nkc.Sync.{PeerCaps}
use nkc.Sync.Handshake.{
  Engine, is_signed, flush_deferred_role_events, flush_roles, checked_context, no_context,
  is_pinned_to_other, accept_peer, forget_old, evict, replay_key, greet, handle_hello, is_awaited,
  handle_ack, Incoming, hello_frame, ack_frame, receive,
}
use nkc.Sync.Handshake.Frames.{HandshakeDeps, HelloFrame, AckFrame, Profile, ack}

module _ (D : HandshakeDeps) where
  unawaited :
      (c : String) (f : AckFrame) (now : ℕ) (e : Engine D)
      → is_awaited D (get e.pending_hello c) f now ≡ false
      → handle_ack D c f now e ≡ e
  unfolding handle_ack
  unawaited c f now e x = rw x refl

  flush-pending :
      (e : Engine D) (conv : String)
      → (flush_deferred_role_events D e conv).pending_hello ≡ e.pending_hello
  unfolding flush_deferred_role_events flush_roles
  flush-pending e conv = ground arith

  settled :
      (c : String) (f : AckFrame) (now : ℕ) (e : Engine D)
      → is_awaited D (get e.pending_hello c) f now ≡ true
      → is_pinned_to_other D e.peers c f.identity_pub ≡ false
      → is_signed D ack f.identity_pub f.device_id f.nonce f.caps f.sig ≡ true
      → get (handle_ack D c f now e).pending_hello c ≡ none
  unfolding handle_ack accept_peer
  settled c f now e x y s =
      let context =
        checked_context D (or_default (get e.peers c) (no_context D)) f.identity_pub f.device_id
          f.caps in
      let start = record e {
        pending_hello = delete e.pending_hello c;
        peers = set e.peers c context;
      } in
      rw (x, y, s) (rw (flush-pending start c) (rw (eq_refl c) at (get-delete e.pending_hello c c)))

  accept_peer-pending :
      (c identity device_id : String) (caps : Option PeerCaps) (profile : Option Profile)
      (e : Engine D)
      → (accept_peer D c identity device_id caps profile e).pending_hello ≡ e.pending_hello
  unfolding accept_peer
  accept_peer-pending c identity device_id caps profile e =
      flush-pending
        (record e {
          peers = set e.peers c (
              checked_context D (or_default (get e.peers c) (no_context D)) identity device_id
                caps);
        })
        c

  -- A greeting that comes in changes nothing of what is awaited.
  handle_hello-pending :
      (c : String) (f : HelloFrame) (now : ℕ) (e : Engine D)
      → (handle_hello D c f now e).0.pending_hello ≡ e.pending_hello
  unfolding handle_hello greet
  handle_hello-pending c f now e =
      let m = forget_old D now e.seen_hello in
      ground (
        arith,
        accept_peer-pending c f.identity_pub f.device_id f.caps f.profile
            (record e { seen_hello = evict D (set m (replay_key D f) now) }),
      )

  handle_ack-pending :
      (c : String) (f : AckFrame) (now : ℕ) (e : Engine D)
      → ((handle_ack D c f now e).pending_hello ≡ e.pending_hello)
        ⊎ ((handle_ack D c f now e).pending_hello ≡ delete e.pending_hello c)
  unfolding handle_ack
  handle_ack-pending c f now e = ground (
    arith,
    accept_peer-pending c f.identity_pub f.device_id f.caps none
        (record e { pending_hello = delete e.pending_hello c }),
  )

  handle_ack-unawaited :
      (c c' : String) (f : AckFrame) (now : ℕ) (e : Engine D)
      → get e.pending_hello c ≡ none
      → get (handle_ack D c' f now e).pending_hello c ≡ none
  handle_ack-unawaited c c' f now e h = elim (handle_ack-pending c' f now e) [
    | inl same ↦ rw same h
    | inr gone ↦ rw gone (elim (Bool-cases (str_eq c' c)) [
      | inl x ↦ rw x at (get-delete e.pending_hello c' c)
      | inr x ↦ (rw x at (get-delete e.pending_hello c' c)) ∙ h
    ])
  ]

  receive-unawaited :
      (fs : List (Incoming D)) (c : String) (e : Engine D)
      → get e.pending_hello c ≡ none
      → get (receive D e fs).pending_hello c ≡ none
  unfolding receive
  receive-unawaited [] c e h = h
  receive-unawaited (hello_frame c' f now ∷ fs) c e h =
      receive-unawaited fs c (handle_hello D c' f now e).0 (rw (handle_hello-pending c' f now e) h)
  receive-unawaited (ack_frame c' f now ∷ fs) c e h =
      receive-unawaited fs c (handle_ack D c' f now e) (handle_ack-unawaited c c' f now e h)

  -- After any acknowledgement the engine is as before, or from then on, whatever greetings and
  -- acknowledgements come in between, no acknowledgement changes anything in the conversation;
  -- frames are handled one after another, and none of them sends a greeting.
  pub handle_ack_once :
      (c : String) (f f' : AckFrame) (now later : ℕ) (e : Engine D) (fs : List (Incoming D))
      → let t = handle_ack D c f now e in
        (t ≡ e) ⊎ (handle_ack D c f' later (receive D t fs) ≡ receive D t fs)
  handle_ack_once c f f' now later e fs =
      elim (Bool-cases (is_awaited D (get e.pending_hello c) f now)) [
        | inr x ↦ inl (unawaited c f now e x)
        | inl x ↦ elim (Bool-cases (is_pinned_to_other D e.peers c f.identity_pub)) [
          | inl y ↦ inl (unfold handle_ack in rw (x, y) refl)
          | inr y ↦
              elim (Bool-cases (is_signed D ack f.identity_pub f.device_id f.nonce f.caps f.sig)) [
                | inr s ↦ inl (unfold handle_ack in rw (x, y, s) refl)
                | inl s ↦
                    let t = handle_ack D c f now e in
                    let none_left = receive-unawaited fs c t (settled c f now e x y s) in
                    inr (unawaited c f' later (receive D t fs) (rw none_left refl))
              ]
        ]
      ]
