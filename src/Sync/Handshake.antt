-- ===== src/Sync/Handshake.antt =====
-- The handshake of two peers: handleHello, handleAck and what they call in src/sync/syncEngine.ts.
pub mod Frames
pub mod Replays
pub mod Repeats
pub mod Acks
pub mod Pinned
use nkc.Base.{
  ℕ, ◌-◌, ◌*◌, ◌≡◌, Bool, true, false, not, ◌&&◌, ◌||◌, Option, none, some, List, [], ◌∷◌, String,
  str_eq, ltb, leb, ◌==◌, suc, if◌then◌else◌, or_default, is_some, length, keep,
}
use Prim.Native.Char.{code}
use nkc.Base.Sort.{sort}
use nkc.Base.Text.{non_empty}
use nkc.Sync.Apply.{peer_field}
use nkc.Base.Dict.{Dict, get, set, delete, has, size}
use nkc.Receipts.{◌<>◌}
use nkc.Sync.{
  PeerCaps, PeerContext, normalize_peer_caps, can_use_role_events, get_peer_caps, local_caps,
  caps_of,
}
use nkc.Sync.Handshake.Frames.{
  handshake_nonce_ttl_ms, max_seen_hello_nonces, FrameType, Profile, HelloFrame, AckFrame,
  SignedCaps, Payload, PendingHello, RoleChange, HandshakeDeps, is_nonce, verify_handshake_compat,
  hello, ack, no_field, field,
}

module _ (D : HandshakeDeps) where
  open D use {World}

  pub record Engine : Type 0 where
    pub peers : Dict PeerContext
    pub pending_hello : Dict PendingHello
    pub seen_hello : Dict ℕ
    pub deferred_roles : Dict (List RoleChange)
    pub world : World

  abbrev pub known_caps : Engine → String → Bool
  known_caps e conv = is_some (caps_of (get e.peers conv))

  -- Each change that can be applied leaves the pending ones.
  unfoldable pub apply_roles : List RoleChange → World → List RoleChange → World × List RoleChange
  apply_roles [] w pending = (w, pending)
  apply_roles (r ∷ rs) w pending =
      let applied = D.apply_role r w in
      apply_roles rs (or_default applied w) (
        if is_some applied then keep (λ x. not (str_eq x.event_id r.event_id)) pending else pending)

  abbrev pub role_le : RoleChange → RoleChange → Bool
  role_le a b = leb a.ts b.ts

  abbrev pub deferred : Engine → String → List RoleChange
  deferred e conv = or_default (get e.deferred_roles conv) []

  unfoldable pub flush_roles : Engine → String → List RoleChange → Engine
  unfolding apply_roles
  flush_roles e conv pending =
      let (w, left) = apply_roles (sort role_le pending) e.world pending in
      record e {
        world = w;
        deferred_roles =
            if length left == 0
            then delete e.deferred_roles conv
            else set e.deferred_roles conv left;
      }

  unfoldable pub flush_deferred_role_events : Engine → String → Engine
  unfolding flush_roles
  flush_deferred_role_events e conv =
      if length (deferred e conv) == 0
      then e
      else if not (known_caps e conv)
      then e
      else if not (can_use_role_events (get_peer_caps e.peers conv))
      then record e { deferred_roles = delete e.deferred_roles conv }
      else flush_roles e conv (deferred e conv)

  -- The context of the peer that has been checked.
  abbrev pub checked_context : PeerContext → String → String → Option PeerCaps → PeerContext
  checked_context p identity device_id caps = record p {
    identity_pub = some identity;
    peer_device_id = some device_id;
    peer_caps = some (normalize_peer_caps caps);
  }

  abbrev pub no_context : PeerContext
  no_context = record {
    kind = none;
    onion_addr = none;
    direct_addr = none;
    friend_key_id = none;
    identity_pub = none;
    dh_pub = none;
    peer_device_id = none;
    peer_caps = none;
  }

  -- The conversation is bound to another identity.
  unfoldable pub is_pinned_to_other : Dict PeerContext → String → String → Bool
  is_pinned_to_other peers conv identity =
      elim (non_empty (peer_field (λ p. p.identity_pub) (get peers conv))) [
        | none ↦ false
        | some pinned ↦ not (str_eq pinned identity)
      ]

  abbrev pub payload : FrameType → String → String → String → SignedCaps → Payload
  payload t identity device_id nonce caps = record {
    frame_type = t;
    identity_pub = identity;
    device_id = device_id;
    nonce = nonce;
    caps = caps;
  }

  abbrev pub is_signed : FrameType → String → String → String → Option PeerCaps → String → Bool
  is_signed t identity device_id nonce caps sig =
      verify_handshake_compat D.verify_handshake (payload t identity device_id nonce (field caps))
        (payload t identity device_id nonce no_field) sig identity (is_some caps)

  -- The peer is known from now on, and so is what was waiting for it.
  unfoldable pub accept_peer :
      String → String → String → Option PeerCaps → Option Profile → Engine → Engine
  unfolding flush_deferred_role_events
  accept_peer conv identity device_id caps profile e =
      let context =
        checked_context (or_default (get e.peers conv) no_context) identity device_id caps in
      let flushed =
        flush_deferred_role_events (record e { peers = set e.peers conv context }) conv in
      record flushed { world = D.apply_verification identity device_id profile flushed.world }

  unfoldable pub forget_old : ℕ → Dict ℕ → Dict ℕ
  forget_old now m = keep (λ (k, at). not (ltb handshake_nonce_ttl_ms (now - at))) m

  -- The oldest entry goes where there are too many.
  unfoldable pub evict : Dict ℕ → Dict ℕ
  evict [] = []
  evict ((k, at) ∷ m) =
      if ltb max_seen_hello_nonces (size ((k, at) ∷ m)) && not (str_eq k "")
      then delete ((k, at) ∷ m) k
      else (k, at) ∷ m

  abbrev pub replay_key : HelloFrame → String
  replay_key f = f.identity_pub <> ":" <> f.nonce

  abbrev pub ack_payload : HelloFrame → Payload
  ack_payload f = payload ack D.own_identity D.own_device_id f.nonce (field (some local_caps))

  -- A greeting whose form, identity and signature are right.
  unfoldable pub greet : String → HelloFrame → ℕ → Engine → Engine × Option (Payload × String)
  unfolding forget_old evict accept_peer
  greet conv f now e =
      let fresh = forget_old now e.seen_hello in
      let noted = evict (set fresh (replay_key f) now) in
      if has fresh (replay_key f) then (record e { seen_hello = fresh }, none) else (
        accept_peer conv f.identity_pub f.device_id f.caps f.profile
            (record e { seen_hello = noted }),
        some (ack_payload f, D.sign_handshake (ack_payload f)),
      )

  -- The engine after a greeting, and the answer with its signature. A frame is one step here, where
  -- the source awaits the check of the signature between its tests and its writes: frames are taken
  -- one after another.
  unfoldable pub handle_hello :
      String → HelloFrame → ℕ → Engine → Engine × Option (Payload × String)
  unfolding is_pinned_to_other greet
  handle_hello conv f now e =
      if not (is_nonce f.nonce)
      then (e, none)
      else if is_pinned_to_other e.peers conv f.identity_pub
      then (e, none)
      else if is_signed hello f.identity_pub f.device_id f.nonce f.caps f.sig
      then greet conv f now e
      else (e, none)

  abbrev pub is_awaited : Option PendingHello → AckFrame → ℕ → Bool
  is_awaited none f now = false
  is_awaited (some p) f now =
      str_eq p.nonce f.nonce && not (ltb handshake_nonce_ttl_ms (now - p.created_at))

  -- One step as well, where the source awaits the signature between the test of the nonce and its
  -- deletion: two copies of a frame that are in work at once may both pass.
  unfoldable pub handle_ack : String → AckFrame → ℕ → Engine → Engine
  unfolding is_pinned_to_other accept_peer
  handle_ack conv f now e =
      if not (is_awaited (get e.pending_hello conv) f now)
      then e
      else if is_pinned_to_other e.peers conv f.identity_pub
      then e
      else if is_signed ack f.identity_pub f.device_id f.nonce f.caps f.sig
      then accept_peer conv f.identity_pub f.device_id f.caps none
          (record e { pending_hello = delete e.pending_hello conv })
      else e

  pub data Incoming : Type 0 where
    hello_frame : String → HelloFrame → ℕ → Incoming
    ack_frame : String → AckFrame → ℕ → Incoming

  unfoldable pub receive : Engine → List Incoming → Engine
  unfolding handle_hello handle_ack
  receive e [] = e
  receive e (hello_frame conv f now ∷ fs) = receive (handle_hello conv f now e).0 fs
  receive e (ack_frame conv f now ∷ fs) = receive (handle_ack conv f now e) fs
