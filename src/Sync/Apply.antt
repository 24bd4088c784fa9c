-- ===== src/Sync/Apply.antt =====
-- Applying the events that a peer sends: applyEnvelopeEvents, persistAppliedEnvelope, handleSyncRes
-- and the keys of src/sync/syncEngine.ts.
pub mod Batches
pub mod Once
pub mod Losses
use nkc.Base.{
  ℕ, ◌≡◌, Bool, true, false, not, ◌&&◌, ◌||◌, Option, none, some, List, [], ◌∷◌, String, str_eq,
  leb, ◌==◌, if◌then◌else◌, or_default, is_some, length, map,
}
use nkc.Base.Text.{non_empty, first_of}
use nkc.Base.Dict.{Dict, get, set}
use nkc.Base.Sort.{sort}
use nkc.Receipts.{◌<>◌}
use nkc.Table.{Table}
use nkc.Sync.{
  EnvelopeEvent, EventRecord, event_key, PeerContext, PeerKind, device, SyncRes, Seen,
  update_lamport_seen, get_lamport_seen, scope_conv_id,
}
use nkc.Sync.Responses.{sort_events_deterministic}

-- `i` is `none` where it is no finite number, `dh` where it is no text.
pub record Rk : Type 0 where
  pub v : ℕ
  pub i : Option ℕ
  pub dh : Option String

pub record Header : Type 0 where
  pub conv_id : String
  pub event_id : String
  pub author_device_id : String
  pub ts : ℕ
  pub lamport : ℕ
  pub prev : Option String
  pub rk : Option Rk

pub record Envelope : Type 0 where
  pub header : Header
  pub ciphertext : String
  pub nonce : String
  pub sig : String

-- What the engine calls: JSON and base64 decoding, libsodium, the ratchets, and the effects of a
-- body that has been decrypted, on a world of their own. `none` stands for a call that throws.
pub record ApplyDeps : Type 1 where
  pub World : Type 0
  pub Key : Type 0
  pub Body : Type 0
  pub local_device_id : String
  pub own_identity_key : Key
  -- `none` also where what was parsed has no header
  pub parse_envelope : String → Option Envelope
  pub to_json : Envelope → String
  pub decode_key : String → Option Key
  pub verify_envelope_signature : Envelope → Key → Bool
  -- the public key of the peer, the id of its shared secret, the context
  pub derive_key : World → String → String → String → Option Key
  -- `none`: the message is deferred; else its key and the commit
  pub try_recv_dh_key : World → String → Key → Rk → Option (Key × (World → World))
  pub try_recv_key : World → String → Key → ℕ → World × Option Key
  pub decrypt_envelope : Key → Envelope → Key → Option Body
  pub is_ephemeral_media_chunk : Body → Bool
  pub compute_envelope_hash : Envelope → String
  pub apply_decrypted_body : String → Envelope → Body → World → World
  -- the order of the primary keys of a table
  pub key_le : String → String → Bool
  pub locale_le : String → String → Bool

-- A field of the context of a peer.
abbrev pub peer_field : (PeerContext → Option String) → Option PeerContext → Option String
peer_field f none = none
peer_field f (some p) = f p

module _ (T : Table EventRecord event_key) (D : ApplyDeps) where
  open D use {World, Key, Body}

  pub record State : Type 0 where
    pub seen : Seen
    pub events : T.Store
    pub world : World

  unfoldable pub get_peer_verify_key : Dict PeerContext → String → String → Option Key
  get_peer_verify_key peers conv author =
      if str_eq author D.local_device_id
      then some D.own_identity_key
      else elim (non_empty (peer_field (λ p. p.identity_pub) (get peers conv))) [
        | none ↦ none
        | some pub_key ↦ D.decode_key pub_key
      ]

  abbrev pub friend_key_id_of : Dict PeerContext → String → String
  friend_key_id_of peers conv =
      or_default
        (first_of (peer_field (λ p. p.friend_key_id) (get peers conv))
          (peer_field (λ p. p.direct_addr) (get peers conv)))
        conv

  unfoldable pub resolve_ratchet_base_key : Dict PeerContext → World → String → String → Option Key
  resolve_ratchet_base_key peers w conv context =
      elim (non_empty (peer_field (λ p. p.dh_pub) (get peers conv))) [
        | none ↦ none
        | some dh ↦ D.derive_key w dh (friend_key_id_of peers conv) ("conv:" <> context)
      ]

  unfoldable pub resolve_legacy_key : Dict PeerContext → World → String → Option Key
  resolve_legacy_key peers w conv =
      let id = friend_key_id_of peers conv in
      elim (non_empty (peer_field (λ p. p.dh_pub) (get peers conv))) [
        | none ↦ none
        | some dh ↦ D.derive_key w dh id ("direct:" <> id)
      ]

  abbrev pub last_le : EventRecord → EventRecord → Bool
  last_le a b =
      if a.lamport == b.lamport then D.key_le a.event_id b.event_id else leb a.lamport b.lamport

  abbrev pub last_hash : List EventRecord → Option String
  last_hash [] = none
  last_hash (e ∷ []) = some e.event_hash
  last_hash (e ∷ f ∷ es) = last_hash (f ∷ es)

  -- getLastEventHash of src/db/repo.ts
  unfoldable pub get_last_event_hash : T.Store → String → Option String
  get_last_event_hash s conv = last_hash (sort last_le (T.query s (λ e. str_eq e.conv_id conv)))

  abbrev pub same_hash : Option String → Option String → Bool
  same_hash none none = true
  same_hash none (some b) = false
  same_hash (some a) none = false
  same_hash (some a) (some b) = str_eq a b

  -- The row of an envelope. It is marked where it does not follow the last stored event.
  unfoldable pub applied_row : T.Store → Envelope → EventRecord
  unfolding get_last_event_hash
  applied_row s e =
      let mismatch = not (same_hash e.header.prev (get_last_event_hash s e.header.conv_id)) in
      record {
        event_id = e.header.event_id;
        conv_id = e.header.conv_id;
        author_device_id = e.header.author_device_id;
        lamport = e.header.lamport;
        ts = e.header.ts;
        envelope_json = D.to_json e;
        prev_hash = e.header.prev;
        event_hash = D.compute_envelope_hash e;
        conflict = if mismatch then some true else none;
      }

  unfoldable pub persist_applied_envelope : Envelope → Body → T.Store → T.Store
  unfolding applied_row
  persist_applied_envelope e body s =
      if D.is_ephemeral_media_chunk body then s else T.put s (applied_row s e)

  -- What follows a decryption, in the three ways.
  unfoldable pub commit_body :
      String → EnvelopeEvent → ℕ → Envelope → Option Body → World → State → State
  unfolding persist_applied_envelope
  commit_body conv event lamport e none w s = s
  commit_body conv event lamport e (some body) w s = record {
    seen = update_lamport_seen s.seen event.conv_id event.author_device_id lamport;
    events = persist_applied_envelope e body s.events;
    world = D.apply_decrypted_body conv e body w;
  }

  module _ (peers : Dict PeerContext) (conv : String) (event : EnvelopeEvent) (lamport : ℕ)
      (e : Envelope) (verify_key : Key) where
    unfoldable pub apply_v2 : Rk → State → State
    unfolding resolve_ratchet_base_key commit_body
    apply_v2 rk s = elim (resolve_ratchet_base_key peers s.world conv e.header.conv_id) [
      | none ↦ s
      | some base ↦ elim (D.try_recv_dh_key s.world e.header.conv_id base rk) [
        | none ↦ s
        | some (msg_key, commit) ↦
            commit_body conv event lamport e (D.decrypt_envelope msg_key e verify_key)
              (commit s.world) s
      ]
    ]

    -- The first ratchet moves on before the envelope is decrypted.
    unfoldable pub apply_v1 : ℕ → State → State
    unfolding resolve_ratchet_base_key commit_body
    apply_v1 i s = elim (resolve_ratchet_base_key peers s.world conv e.header.conv_id) [
      | none ↦ s
      | some base ↦
          let (w, received) = D.try_recv_key s.world e.header.conv_id base i in
          let moved : State = record s { world = w } in
          elim received [
            | none ↦ moved
            | some msg_key ↦
                commit_body conv event lamport e (D.decrypt_envelope msg_key e verify_key) w moved
          ]
    ]

    unfoldable pub apply_legacy : State → State
    unfolding resolve_legacy_key commit_body
    apply_legacy s = elim (resolve_legacy_key peers s.world conv) [
      | none ↦ s
      | some key ↦ commit_body conv event lamport e (D.decrypt_envelope key e verify_key) s.world s
    ]

    unfoldable pub apply_by_rk : Option Rk → State → State
    unfolding apply_v2 apply_v1 apply_legacy
    apply_by_rk none s = apply_legacy s
    apply_by_rk (some rk) s =
        if rk.v == 2 && (is_some rk.i && is_some rk.dh)
        then apply_v2 rk s
        else if rk.v == 1
        then elim rk.i [ none ↦ apply_legacy s | some i ↦ apply_v1 i s ]
        else apply_legacy s

  unfoldable pub apply_envelope :
      Dict PeerContext → String → EnvelopeEvent → ℕ → Envelope → State → State
  unfolding get_peer_verify_key apply_by_rk
  apply_envelope peers conv event lamport e s =
      if str_eq e.header.event_id event.event_id
      then elim (get_peer_verify_key peers conv e.header.author_device_id) [
        | none ↦ s
        | some key ↦
            if D.verify_envelope_signature e key
            then apply_by_rk peers conv event lamport e key e.header.rk s
            else s
      ]
      else s
