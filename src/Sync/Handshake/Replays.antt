-- ===== src/Sync/Handshake/Replays.antt =====
-- The greetings that handleHello of src/sync/syncEngine.ts remembers.
use nkc.Base.{
  ℕ, suc, ◌-◌, ◌≤◌, ◌≡◌, refl, ◌∙◌, inl, inr, Bool, true, false, not, ◌&&◌, Option, none, some,
  List, [], ◌∷◌, String, str_eq, eq_refl, eq_iff, ltb, arith, Bool-cases, length, length-keep-le,
  All, All-keep, keep, or_default,
}
use nkc.Base.Dict.{Dict, get, set, delete, has, size, get-set, get-delete}
use text.Mathlib.TextLemmas.{append-eq-nil_iff}
use nkc.Receipts.{◌<>◌}
use nkc.Sync.{PeerCaps}
use nkc.Sync.Handshake.{
  Engine, is_signed, flush_deferred_role_events, flush_roles, checked_context, no_context,
  is_pinned_to_other, accept_peer, forget_old, evict, replay_key, greet, handle_hello, handle_ack,
  Incoming, hello_frame, ack_frame, receive,
}
use nkc.Sync.Handshake.Frames.{
  HandshakeDeps, HelloFrame, AckFrame, Profile, hello, is_nonce, max_seen_hello_nonces,
  handshake_nonce_ttl_ms,
}

-- At most 2048 greetings are remembered, each under a key that is not empty.
abbrev pub IsBounded : Dict ℕ → Type 0
IsBounded m = (length m ≤ max_seen_hello_nonces) × All (λ (k, at). str_eq k "" ≡ false) m

pub length-set : (m : Dict ℕ) (k : String) (v : ℕ) → length (set m k v) ≤ suc (length m)
unfolding set
length-set [] k v = omega arith
length-set ((j, w) ∷ m) k v = ground (arith, length-set m k v)

pub length-delete-le : (m : Dict ℕ) (k : String) → length (delete m k) ≤ length m
unfolding delete
length-delete-le [] k = omega arith
length-delete-le ((j, w) ∷ m) k = ground (arith, length-delete-le m k)

All-set :
    (m : Dict ℕ) (k : String) (v : ℕ)
    → str_eq k "" ≡ false
    → All (λ (k, at). str_eq k "" ≡ false) m
    → All (λ (k, at). str_eq k "" ≡ false) (set m k v)
unfolding set
All-set [] k v named h = (named, tt)
All-set ((j, w) ∷ m) k v named h = ground (arith, All-set m k v named h.1)

All-delete :
    (m : Dict ℕ) (k : String)
    → All (λ (k, at). str_eq k "" ≡ false) m
    → All (λ (k, at). str_eq k "" ≡ false) (delete m k)
unfolding delete
All-delete [] k h = tt
All-delete ((j, w) ∷ m) k h = elim (Bool-cases (str_eq j k)) [
  | inl e ↦ rw e (All-delete m k h.1)
  | inr e ↦ rw e (h.0, All-delete m k h.1)
]

-- An entry that is young enough is kept.
pub get-keep :
    (p : String × ℕ → Bool) (m : Dict ℕ) (k : String) (v : ℕ)
    → get m k ≡ some v
    → p (k, v) ≡ true
    → get (keep p m) k ≡ some v
unfolding get
get-keep p [] k v g h = cc
get-keep p ((j, w) ∷ m) k v g h = elim (Bool-cases (str_eq j k)) [
  | inl e ↦
      let same : j ≡ k = (eq_iff j k).0 e in
      let value : w ≡ v = ground (arith) in
      let kept : p (j, w) ≡ true = rw (same, value) h in rw kept (rw (e, value) refl)
  | inr e ↦
      let ih = get-keep p m k v (rw e at g) h in
      elim (Bool-cases (p (j, w))) [ inl y ↦ rw y (rw e ih) | inr y ↦ rw y ih ]
]

get-set_new :
    (j k : String) (w v : ℕ) (m : Dict ℕ) → str_eq j k ≡ false → get ((j, w) ∷ set m k v) k ≡ some v
unfolding get
get-set_new j k w v m other = rw other (rw (eq_refl k) at (get-set m k v k))

pub named_pair : (a b : String) → str_eq (a <> ":" <> b) "" ≡ false
named_pair a b = elim (Bool-cases (str_eq (a <> ":" <> b) "")) [
  | inr other ↦ other
  | inl empty ↦
      let tail =
        (append-eq-nil_iff {p = a} {q = ":" <> b}).0 ((eq_iff (a <> ":" <> b) "").0 empty) in
      let colon = ((append-eq-nil_iff {p = ":"} {q = b}).0 tail.1).0 in cc
]

module _ (D : HandshakeDeps) where
  evict-IsBounded :
      (m : Dict ℕ)
      → length m ≤ suc max_seen_hello_nonces
      → All (λ (k, at). str_eq k "" ≡ false) m
      → IsBounded (evict D m)
  unfolding evict delete
  evict-IsBounded [] l h = (omega arith, tt)
  evict-IsBounded ((k, at) ∷ m) l h =
      ground (arith, eq_refl k, length-delete-le m k, All-delete m k h.1)

  get-evict :
      (m : Dict ℕ) (j k : String) (w v : ℕ)
      → str_eq j k ≡ false
      → get ((j, w) ∷ m) k ≡ some v
      → get (evict D ((j, w) ∷ m)) k ≡ some v
  unfolding evict
  get-evict m j k w v other g =
      elim (Bool-cases (ltb max_seen_hello_nonces (size ((j, w) ∷ m)) && not (str_eq j ""))) [
        | inl full ↦ rw full ((rw other at (get-delete ((j, w) ∷ m) j k)) ∙ g)
        | inr room ↦ rw room g
      ]

  -- A new entry is not the oldest.
  pub get-evict-set :
      (m : Dict ℕ) (k : String) (v : ℕ) → has m k ≡ false → get (evict D (set m k v)) k ≡ some v
  unfolding evict set get has delete
  get-evict-set [] k v h = rw (eq_refl k) refl
  get-evict-set ((j, w) ∷ m) k v h =
      let other : str_eq j k ≡ false = ground arith in
      rw other (get-evict (set m k v) j k w v other (get-set_new j k w v m other))

  evict-IsBounded-greet :
      (m : Dict ℕ) (now : ℕ) (k : String)
      → IsBounded m
      → str_eq k "" ≡ false
      → IsBounded (evict D (set (forget_old D now m) k now))
  unfolding forget_old
  evict-IsBounded-greet m now k (l, named) fresh =
      let young = λ (p : String × ℕ). not (ltb handshake_nonce_ttl_ms (now - p.1)) in
      let kept = keep young m in
      evict-IsBounded (set kept k now)
        (omega (arith, length-set kept k now, length-keep-le young m))
        (All-set kept k now fresh (All-keep (λ (j, at). str_eq j "" ≡ false) young m named))

  forget_old-IsBounded : (now : ℕ) (m : Dict ℕ) → IsBounded m → IsBounded (forget_old D now m)
  unfolding forget_old
  forget_old-IsBounded now m (l, named) =
      let young = λ (p : String × ℕ). not (ltb handshake_nonce_ttl_ms (now - p.1)) in
      (
        omega (arith, l, length-keep-le young m),
        All-keep (λ (j, at). str_eq j "" ≡ false) young m named,
      )

  flush-seen :
      (e : Engine D) (conv : String)
      → (flush_deferred_role_events D e conv).seen_hello ≡ e.seen_hello
  unfolding flush_deferred_role_events flush_roles
  flush-seen e conv = ground arith

  pub accept_peer-seen :
      (c identity device_id : String) (caps : Option PeerCaps) (profile : Option Profile)
      (e : Engine D)
      → (accept_peer D c identity device_id caps profile e).seen_hello ≡ e.seen_hello
  unfolding accept_peer
  accept_peer-seen c identity device_id caps profile e =
      flush-seen
        (record e {
          peers = set e.peers c (
              checked_context D (or_default (get e.peers c) (no_context D)) identity device_id
                caps);
        })
        c

  greet-IsBounded :
      (c : String) (f : HelloFrame) (now : ℕ) (e : Engine D)
      → IsBounded e.seen_hello
      → IsBounded (greet D c f now e).0.seen_hello
  unfolding greet
  greet-IsBounded c f now e b =
      elim (Bool-cases (has (forget_old D now e.seen_hello) (replay_key D f))) [
        | inl again ↦ rw again (forget_old-IsBounded now e.seen_hello b)
        | inr first ↦
            let noted = evict D (set (forget_old D now e.seen_hello) (replay_key D f) now) in
            rw first (
              rw
                (accept_peer-seen c f.identity_pub f.device_id f.caps f.profile
                  (record e { seen_hello = noted }))
                (evict-IsBounded-greet e.seen_hello now (replay_key D f) b
                  (named_pair f.identity_pub f.nonce)))
      ]

  handle_hello-IsBounded :
      (c : String) (f : HelloFrame) (now : ℕ) (e : Engine D)
      → IsBounded e.seen_hello
      → IsBounded (handle_hello D c f now e).0.seen_hello
  unfolding handle_hello
  handle_hello-IsBounded c f now e b = elim (Bool-cases (is_nonce f.nonce)) [
    | inr x ↦ rw x b
    | inl x ↦ elim (Bool-cases (is_pinned_to_other D e.peers c f.identity_pub)) [
      | inl y ↦ rw (x, y) b
      | inr y ↦
          elim (Bool-cases (is_signed D hello f.identity_pub f.device_id f.nonce f.caps f.sig)) [
            | inr s ↦ rw (x, y, s) b
            | inl s ↦ rw (x, y, s) (greet-IsBounded c f now e b)
          ]
    ]
  ]

  pub handle_ack-seen :
      (c : String) (f : AckFrame) (now : ℕ) (e : Engine D)
      → (handle_ack D c f now e).seen_hello ≡ e.seen_hello
  unfolding handle_ack
  handle_ack-seen c f now e = ground (
    arith,
    accept_peer-seen c f.identity_pub f.device_id f.caps none
        (record e { pending_hello = delete e.pending_hello c }),
  )

  -- However many greetings come, at most 2048 are remembered.
  pub receive-IsBounded :
      (fs : List (Incoming D)) (e : Engine D)
      → IsBounded e.seen_hello
      → IsBounded (receive D e fs).seen_hello
  unfolding receive
  receive-IsBounded [] e b = b
  receive-IsBounded (hello_frame c f now ∷ fs) e b =
      receive-IsBounded fs (handle_hello D c f now e).0 (handle_hello-IsBounded c f now e b)
  receive-IsBounded (ack_frame c f now ∷ fs) e b =
      receive-IsBounded fs (handle_ack D c f now e) (rw (handle_ack-seen c f now e) b)
