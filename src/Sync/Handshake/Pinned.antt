-- ===== src/Sync/Handshake/Pinned.antt =====
-- Who a conversation may be with: handleHello and handleAck of src/sync/syncEngine.ts.
use nkc.Base.{
  ℕ, ◌≡◌, refl, ap, ◌∙◌, ◌⊎◌, inl, inr, Bool, true, false, Option, none, some, List, [], ◌∷◌,
  String, str_eq, eq_refl, eq_iff, if◌then◌else◌, or_default, arith, Bool-cases, Option-cases,
}
use nkc.Base.Dict.{Dict, get, set, delete, get-set, has}
use nkc.Sync.{PeerContext, PeerCaps}
use nkc.Sync.Apply.{peer_field}
use nkc.Sync.Handshake.{
  Engine, payload, is_signed, flush_deferred_role_events, flush_roles, is_pinned_to_other,
  accept_peer, checked_context, no_context, forget_old, evict, replay_key, greet, handle_hello,
  is_awaited, handle_ack, Incoming, hello_frame, ack_frame, receive,
}
use nkc.Sync.Handshake.Frames.{
  HandshakeDeps, HelloFrame, AckFrame, Payload, Profile, hello, ack, field, no_field, is_nonce,
  verify_handshake_compat,
}

-- The identity that a conversation is bound to.
abbrev pub identity_of : Dict PeerContext → String → Option String
identity_of peers conv = peer_field (λ p. p.identity_pub) (get peers conv)

identity_of-set :
    (peers : Dict PeerContext) (c : String) (p : PeerContext) (conv : String)
    → identity_of (set peers c p) conv
      ≡ (if str_eq c conv then p.identity_pub else identity_of peers conv)
identity_of-set peers c p conv = rw (get-set peers c p conv) (go (str_eq c conv))
  where
    go :
        (b : Bool)
        → peer_field (λ p. p.identity_pub) (if b then some p else get peers conv)
          ≡ (if b then p.identity_pub else identity_of peers conv)
    go true = refl
    go false = refl

module _ (D : HandshakeDeps) where
  pub flush-peers :
      (e : Engine D) (conv : String) → (flush_deferred_role_events D e conv).peers ≡ e.peers
  unfolding flush_deferred_role_events flush_roles
  flush-peers e conv = ground arith

  accept_peer-peers :
      (c identity device_id : String) (caps : Option PeerCaps) (profile : Option Profile)
      (e : Engine D) (conv : String)
      → identity_of (accept_peer D c identity device_id caps profile e).peers conv
        ≡ (if str_eq c conv then some identity else identity_of e.peers conv)
  unfolding accept_peer
  accept_peer-peers c identity device_id caps profile e conv =
      let context =
        checked_context D (or_default (get e.peers c) (no_context D)) identity device_id caps in
      rw (flush-peers (record e { peers = set e.peers c context }) c)
        (identity_of-set e.peers c context conv)

  -- Only the identity to which a conversation is bound passes the check.
  pinned_passes :
      (peers : Dict PeerContext) (conv identity id : String)
      → identity_of peers conv ≡ some id
      → str_eq id "" ≡ false
      → is_pinned_to_other D peers conv identity ≡ false
      → identity ≡ id
  unfolding is_pinned_to_other
  pinned_passes peers conv identity id pinned named free = ground (arith, eq_iff id identity)

  accept_peer-pinned :
      (c identity device_id : String) (caps : Option PeerCaps) (profile : Option Profile)
      (e : Engine D) (conv id : String)
      → identity_of e.peers conv ≡ some id
      → str_eq id "" ≡ false
      → is_pinned_to_other D e.peers c identity ≡ false
      → identity_of (accept_peer D c identity device_id caps profile e).peers conv ≡ some id
  accept_peer-pinned c identity device_id caps profile e conv id pinned named free =
      let after = accept_peer-peers c identity device_id caps profile e conv in
      elim (Bool-cases (str_eq c conv)) [
        | inr other ↦ rw other at after ∙ pinned
        | inl here ↦
            let same : c ≡ conv = (eq_iff c conv).0 here in
            let bound : identity_of e.peers c ≡ some id = rw same pinned in
            rw here at after ∙ ap some (pinned_passes e.peers c identity id bound named free)
      ]

  greet-pinned :
      (c : String) (f : HelloFrame) (now : ℕ) (e : Engine D) (conv id : String)
      → identity_of e.peers conv ≡ some id
      → str_eq id "" ≡ false
      → is_pinned_to_other D e.peers c f.identity_pub ≡ false
      → identity_of (greet D c f now e).0.peers conv ≡ some id
  unfolding greet
  greet-pinned c f now e conv id pinned named free =
      let fresh = forget_old D now e.seen_hello in
      elim (Bool-cases (has fresh (replay_key D f))) [
        | inl again ↦ rw again pinned
        | inr first ↦ rw first (
            accept_peer-pinned c f.identity_pub f.device_id f.caps f.profile
              (record e { seen_hello = evict D (set fresh (replay_key D f) now) }) conv id pinned
              named free)
      ]

  handle_hello-pinned :
      (c : String) (f : HelloFrame) (now : ℕ) (e : Engine D) (conv id : String)
      → identity_of e.peers conv ≡ some id
      → str_eq id "" ≡ false
      → identity_of (handle_hello D c f now e).0.peers conv ≡ some id
  unfolding handle_hello greet
  handle_hello-pinned c f now e conv id pinned named = elim (Bool-cases (is_nonce f.nonce)) [
    | inr a ↦ rw a pinned
    | inl a ↦ elim (Bool-cases (is_pinned_to_other D e.peers c f.identity_pub)) [
      | inl b ↦ rw (a, b) pinned
      | inr b ↦
          elim (Bool-cases (is_signed D hello f.identity_pub f.device_id f.nonce f.caps f.sig)) [
            | inr s ↦ rw (a, b, s) pinned
            | inl s ↦ rw (a, b, s) (greet-pinned c f now e conv id pinned named b)
          ]
    ]
  ]

  handle_ack-pinned :
      (c : String) (f : AckFrame) (now : ℕ) (e : Engine D) (conv id : String)
      → identity_of e.peers conv ≡ some id
      → str_eq id "" ≡ false
      → identity_of (handle_ack D c f now e).peers conv ≡ some id
  unfolding handle_ack
  handle_ack-pinned c f now e conv id pinned named =
      elim (Bool-cases (is_awaited D (get e.pending_hello c) f now)) [
        | inr a ↦ rw a pinned
        | inl a ↦ elim (Bool-cases (is_pinned_to_other D e.peers c f.identity_pub)) [
          | inl b ↦ rw (a, b) pinned
          | inr b ↦
              elim (Bool-cases (is_signed D ack f.identity_pub f.device_id f.nonce f.caps f.sig)) [
                | inr s ↦ rw (a, b, s) pinned
                | inl s ↦
                    rw (a, b, s)
                      (accept_peer-pinned c f.identity_pub f.device_id f.caps none
                        (record e { pending_hello = delete e.pending_hello c }) conv id pinned named
                        b)
              ]
        ]
      ]

  -- Once a conversation is bound to an identity, no handshake frames, whoever sends them and in
  -- whatever conversation, bind it to another.
  pub receive-pinned :
      (fs : List (Incoming D)) (e : Engine D) (conv id : String)
      → identity_of e.peers conv ≡ some id
      → str_eq id "" ≡ false
      → identity_of (receive D e fs).peers conv ≡ some id
  unfolding receive
  receive-pinned [] e conv id pinned named = pinned
  receive-pinned (hello_frame c f now ∷ fs) e conv id pinned named =
      receive-pinned fs (handle_hello D c f now e).0 conv id
        (handle_hello-pinned c f now e conv id pinned named) named
  receive-pinned (ack_frame c f now ∷ fs) e conv id pinned named =
      receive-pinned fs (handle_ack D c f now e) conv id
        (handle_ack-pinned c f now e conv id pinned named) named

  -- What has been checked of a greeting that is answered.
  pub answered-greet :
      (conv : String) (f : HelloFrame) (now : ℕ) (e : Engine D) (answer : Payload × String)
      → (handle_hello D conv f now e).1 ≡ some answer
      → (is_nonce f.nonce ≡ true)
        × (is_pinned_to_other D e.peers conv f.identity_pub ≡ false)
        × (is_signed D hello f.identity_pub f.device_id f.nonce f.caps f.sig ≡ true)
        × (has (forget_old D now e.seen_hello) (replay_key D f) ≡ false)
        × (handle_hello D conv f now e ≡ greet D conv f now e)
  unfolding handle_hello greet
  answered-greet conv f now e answer h = elim (Bool-cases (is_nonce f.nonce)) [
    | inr a ↦ absurd (ground (arith, a))
    | inl a ↦ elim (Bool-cases (is_pinned_to_other D e.peers conv f.identity_pub)) [
      | inl b ↦ absurd (ground (arith, a, b))
      | inr b ↦
          elim (Bool-cases (is_signed D hello f.identity_pub f.device_id f.nonce f.caps f.sig)) [
            | inr s ↦ absurd (ground (arith, a, b, s))
            | inl s ↦ elim (Bool-cases (has (forget_old D now e.seen_hello) (replay_key D f))) [
              | inl k ↦ absurd (ground (arith, a, b, s, k))
              | inr k ↦ (a, b, s, k, rw (a, b, s) refl)
            ]
          ]
    ]
  ]

  signed_either :
      (f : HelloFrame)
      → is_signed D hello f.identity_pub f.device_id f.nonce f.caps f.sig ≡ true
      → (D.verify_handshake
            (payload D hello f.identity_pub f.device_id f.nonce (field f.caps))
            f.sig
            f.identity_pub
          ≡ true)
        ⊎ ((f.caps ≡ none)
            × (D.verify_handshake
                  (payload D hello f.identity_pub f.device_id f.nonce no_field)
                  f.sig
                  f.identity_pub
                ≡ true))
  unfolding verify_handshake_compat
  signed_either f h = ground (arith, Option-cases f.caps)

  -- A greeting is answered only if its nonce has the form of one, the conversation is not bound to
  -- another identity, and the identity that it names has signed its identity, device, nonce and
  -- capabilities. Without the capabilities in what is signed it is answered only if it names none.
  -- Then the conversation is bound to that identity.
  pub handle_hello-authentic :
      (conv : String) (f : HelloFrame) (now : ℕ) (e : Engine D) (answer : Payload × String)
      → (handle_hello D conv f now e).1 ≡ some answer
      → (is_nonce f.nonce ≡ true)
        × (is_pinned_to_other D e.peers conv f.identity_pub ≡ false)
        × ((D.verify_handshake
                (payload D hello f.identity_pub f.device_id f.nonce (field f.caps))
                f.sig
                f.identity_pub
              ≡ true)
            ⊎ ((f.caps ≡ none)
                × (D.verify_handshake
                      (payload D hello f.identity_pub f.device_id f.nonce no_field)
                      f.sig
                      f.identity_pub
                    ≡ true)))
        × (identity_of (handle_hello D conv f now e).0.peers conv ≡ some f.identity_pub)
  unfolding greet
  handle_hello-authentic conv f now e answer answered =
      let (a, b, s, k, greets) = answered-greet conv f now e answer answered in
      let noted = evict D (set (forget_old D now e.seen_hello) (replay_key D f) now) in
      let bound =
        accept_peer-peers conv f.identity_pub f.device_id f.caps f.profile
          (record e { seen_hello = noted }) conv in
      (a, b, signed_either f s, rw greets (rw k (rw (eq_refl conv) at bound)))
