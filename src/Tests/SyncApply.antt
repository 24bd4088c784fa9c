-- ===== src/Tests/SyncApply.antt =====
-- A peer with one friend, whose events are signed and encrypted by nothing, and one whose messages
-- are all deferred.
use nkc.Base.{ℕ, ◌+◌, ◌≡◌, refl, ◌⊎◌, inl, true, false, none, some, List, [], ◌∷◌, String, arith}
use nkc.Base.Dict.{Dict, get, set}
use nkc.Table.Memory.{memory, get as stored}
use nkc.Sync.{
  EnvelopeEvent, EventRecord, event_key, PeerContext, SyncRes, Scope, scope_conv_id,
  get_lamport_seen, get_since_map, update_lamport_seen, raise,
}
use nkc.Sync.Responses.{is_wanted}
use nkc.Sync.Apply.{
  ApplyDeps, State, Header, apply_envelope, apply_by_rk, apply_legacy, get_peer_verify_key,
  resolve_legacy_key, commit_body,
}
use nkc.Sync.Apply.Batches.{
  apply_event, apply_new, apply_envelope_events, handle_sync_res, is_device_sync_allowed,
}
use nkc.Sync.Apply.Once.{apply_batches, apply_event_once}
use nkc.Sync.Apply.Losses.{handle_sync_res-skips, apply_event-known, apply_envelope_events-late}

abbrev header : String → ℕ → Header
header id n = record {
  conv_id = "chat";
  event_id = id;
  author_device_id = "phone";
  ts = n;
  lamport = n;
  prev = none;
  rk = none;
}

-- The text of an envelope is its id.
abbrev deps : ApplyDeps
deps = record {
  World = ℕ;
  Key = String;
  Body = String;
  local_device_id = "own";
  own_identity_key = "own key";
  parse_envelope =
      λ id. some (record { header = header id 1; ciphertext = ""; nonce = ""; sig = "" });
  to_json = λ e. e.header.event_id;
  decode_key = λ k. some k;
  verify_envelope_signature = λ e k. true;
  derive_key = λ w pub_key id context. some pub_key;
  try_recv_dh_key = λ w conv k rk. none;
  try_recv_key = λ w conv k i. (w, none);
  decrypt_envelope = λ k e v. some "text";
  is_ephemeral_media_chunk = λ b. false;
  compute_envelope_hash = λ e. e.header.event_id;
  apply_decrypted_body = λ conv e b w. w + 1;
  key_le = λ a b. true;
  locale_le = λ a b. true;
}

abbrev peers : Dict PeerContext
peers =
    (
      "chat",
      record {
        kind = none;
        onion_addr = none;
        direct_addr = none;
        friend_key_id = none;
        identity_pub = some "their key";
        dh_pub = some "their dh key";
        peer_device_id = none;
        peer_caps = none;
      },
    )
    ∷ []

abbrev event : String → ℕ → ℕ → EnvelopeEvent
event id lamport ts = record {
  event_id = id;
  conv_id = "chat";
  author_device_id = "phone";
  lamport = some lamport;
  ts = ts;
  envelope_json = id;
}

abbrev row : String → ℕ → EventRecord
row id n = record {
  event_id = id;
  conv_id = "chat";
  author_device_id = "phone";
  lamport = n;
  ts = n;
  envelope_json = id;
  prev_hash = none;
  event_hash = id;
  conflict = none;
}

abbrev state : List EventRecord → State (memory event_key) deps
state rows = record { seen = record { per_author = []; per_conv = [] }; events = rows; world = 0 }

apply_event_once_example :
    let t = apply_event (memory event_key) deps peers "chat" (event "a" 1 1) (state []) in
    let u = apply_batches (memory event_key) deps ((peers, "chat", event "b" 2 2 ∷ []) ∷ []) t in
    ((t.seen ≡ record { per_author = []; per_conv = [] }) × (t.events ≡ []))
    ⊎ (apply_event (memory event_key) deps peers "chat" (event "a" 1 1) u ≡ u)
apply_event_once_example =
    apply_event_once (memory event_key) deps peers peers "chat" "chat" (event "a" 1 1) 1 (state [])
      ((peers, "chat", event "b" 2 2 ∷ []) ∷ []) refl

-- The response holds no event, but gives the author the number 4.
abbrev response : SyncRes
response = record {
  scope = Scope.conv;
  conv_id = some "chat";
  events = [];
  next = ("phone", 4) ∷ [];
  flow = none;
}

handle_sync_res-skips_example :
    let u =
      (handle_sync_res (memory event_key) deps peers (λ d. none) "chat" response (state [])).0 in
    (apply_event (memory event_key) deps peers "chat" (event "a" 3 3) u ≡ u)
    × (is_wanted (get_since_map u.seen (some "chat")) (row "a" 3) ≡ false)
unfolding is_device_sync_allowed scope_conv_id get
handle_sync_res-skips_example =
    handle_sync_res-skips (memory event_key) deps peers peers (λ d. none) "chat" "chat" response
      (state []) [] (event "a" 3 3) (row "a" 3) 3 4 refl tt (inl refl) refl refl (omega arith) refl
      refl

apply_event-known_example :
    let u =
      apply_event (memory event_key) deps peers "chat" (event "a" 9 9) (state (row "a" 1 ∷ [])) in
    apply_event (memory event_key) deps peers "chat" (event "b" 2 2) u ≡ u
unfolding stored
apply_event-known_example =
    apply_event-known (memory event_key) deps peers peers "chat" "chat" (event "a" 9 9)
      (event "b" 2 2) (row "a" 1) 9 2 (state (row "a" 1 ∷ [])) [] refl refl refl (omega arith) refl
      refl

apply_envelope_events-late_example :
    apply_envelope_events
      (memory event_key)
      deps
      peers
      "chat"
      (event "a" 1 8 ∷ event "b" 2 5 ∷ [])
      (state [])
    ≡ apply_event (memory event_key) deps peers "chat" (event "b" 2 5) (state [])
unfolding apply_event apply_new apply_envelope apply_by_rk apply_legacy get_peer_verify_key
    resolve_legacy_key commit_body get_lamport_seen update_lamport_seen raise stored get set
apply_envelope_events-late_example =
    apply_envelope_events-late (memory event_key) deps peers "chat" (event "a" 1 8) (event "b" 2 5)
      1 2 (state []) refl refl refl refl refl refl (omega arith) (omega arith) (omega arith)
