-- ===== src/Sync/Handshake/Repeats.antt =====
-- Greetings that come again: handleHello of src/sync/syncEngine.ts, frames handled one after another.
use nkc.Base.{
  ℕ, suc, ◌+◌, ◌-◌, ◌≤◌, ◌<◌, ◌≡◌, refl, ◌∙◌, inl, inr, Bool, false, not, ◌&&◌, Option, none, some,
  List, [], ◌∷◌, String, str_eq, eq_refl, eq_iff, ltb, arith, Bool-cases, length, length-keep-le,
  All, keep, if◌then◌else◌,
}
use nkc.Base.Dict.{Dict, get, set, delete, has, size, get-set, get-delete}
use nkc.Sync.Handshake.{
  Engine, is_signed, is_pinned_to_other, forget_old, evict, replay_key, greet, handle_hello,
  handle_ack, Incoming, hello_frame, ack_frame, receive,
}
use nkc.Sync.Handshake.Frames.{
  HandshakeDeps, HelloFrame, Payload, hello, is_nonce, max_seen_hello_nonces,
  handshake_nonce_ttl_ms,
}
use nkc.Sync.Handshake.Pinned.{answered-greet}
use nkc.Sync.Handshake.Replays.{
  length-set, length-delete-le, get-keep, accept_peer-seen, handle_ack-seen,
}

-- How many entries were put behind that of a key.
unfoldable behind : Dict ℕ → String → ℕ
behind [] k = 0
behind ((j, w) ∷ m) k = if str_eq j k then length m else behind m k

behind-le-length : (m : Dict ℕ) (k : String) → behind m k ≤ length m
unfolding behind
behind-le-length [] k = omega arith
behind-le-length ((j, w) ∷ m) k = ground (arith, behind-le-length m k)

behind-keep-le :
    (p : String × ℕ → Bool) (m : Dict ℕ) (k : String) → behind (keep p m) k ≤ behind m k
unfolding behind
behind-keep-le p [] k = omega arith
behind-keep-le p ((j, w) ∷ m) k =
    ground (arith, behind-keep-le p m k, behind-le-length (keep p m) k, length-keep-le p m)

behind-delete-le :
    (m : Dict ℕ) (j k : String) → str_eq j k ≡ false → behind (delete m j) k ≤ behind m k
unfolding behind delete
behind-delete-le [] j k other = omega arith
behind-delete-le ((i, w) ∷ m) j k other = elim (Bool-cases (str_eq i j)) [
  | inl e ↦
      let same : i ≡ j = (eq_iff i j).0 e in
      let skipped : str_eq i k ≡ false = rw same other in
      rw (e, skipped) (behind-delete-le m j k other)
  | inr e ↦ ground (arith, behind-delete-le m j k, length-delete-le m j)
]

behind-set-le :
    (m : Dict ℕ) (j k : String) (v w : ℕ)
    → str_eq j k ≡ false
    → get m k ≡ some w
    → behind (set m j v) k ≤ suc (behind m k)
unfolding behind set get
behind-set-le [] j k v w other g = cc
behind-set-le ((i, u) ∷ m) j k v w other g = elim (Bool-cases (str_eq i k)) [
  | inl e ↦ let same : i ≡ k = (eq_iff i k).0 e in ground (arith, same, length-set m j v)
  | inr e ↦ ground (arith, behind-set-le m j k v w other)
]

behind-set_new : (m : Dict ℕ) (k : String) (v : ℕ) → has m k ≡ false → behind (set m k v) k ≡ 0
unfolding behind set has get
behind-set_new [] k v h = rw (eq_refl k) refl
behind-set_new ((j, w) ∷ m) k v h = ground (arith, behind-set_new m k v)

-- An entry, with no more than `n` put behind it.
abbrev IsKept : String → ℕ → ℕ → Dict ℕ → Type 0
IsKept k v n m = (get m k ≡ some v) × (behind m k ≤ n)

new_key :
    (m : Dict ℕ) (j k : String) (v : ℕ) → get m k ≡ some v → has m j ≡ false → str_eq j k ≡ false
unfolding has
new_key m j k v g h = elim (Bool-cases (str_eq j k)) [
  | inr other ↦ other
  | inl e ↦ let same : j ≡ k = (eq_iff j k).0 e in let found = rw (same, g) at h in cc
]

module _ (D : HandshakeDeps) where
  evict-IsKept :
      (k : String) (v n : ℕ) (m : Dict ℕ)
      → n < max_seen_hello_nonces
      → IsKept k v n m
      → IsKept k v n (evict D m)
  unfolding evict
  evict-IsKept k v n [] l h = h
  evict-IsKept k v n ((j, w) ∷ m) l h =
      elim (Bool-cases (ltb max_seen_hello_nonces (size ((j, w) ∷ m)) && not (str_eq j ""))) [
        | inr room ↦ rw room h
        | inl full ↦ elim (Bool-cases (str_eq j k)) [
          | inl same ↦ absurd (unfold behind in ground (arith, same, full, h.1))
          | inr other ↦ rw full (
            (rw other at (get-delete ((j, w) ∷ m) j k)) ∙ h.0,
            omega (arith, h.1, behind-delete-le ((j, w) ∷ m) j k other),
          )
        ]
      ]

  forget_old-IsKept :
      (k : String) (v n now : ℕ) (m : Dict ℕ)
      → now ≤ v + handshake_nonce_ttl_ms
      → IsKept k v n m
      → IsKept k v n (forget_old D now m)
  unfolding forget_old
  forget_old-IsKept k v n now m soon h =
      let young = λ (p : String × ℕ). not (ltb handshake_nonce_ttl_ms (now - p.1)) in
      (get-keep young m k v h.0 (ground arith), omega (arith, h.1, behind-keep-le young m k))

  greet-IsKept :
      (k : String) (v n : ℕ) (c : String) (f : HelloFrame) (now : ℕ) (e : Engine D)
      → suc n < max_seen_hello_nonces
      → now ≤ v + handshake_nonce_ttl_ms
      → IsKept k v n e.seen_hello
      → IsKept k v (suc n) (greet D c f now e).0.seen_hello
  unfolding greet
  greet-IsKept k v n c f now e l soon h =
      let m = forget_old D now e.seen_hello in
      let (g, b) = forget_old-IsKept k v n now e.seen_hello soon h in
      elim (Bool-cases (has m (replay_key D f))) [
        | inl again ↦ rw again (g, omega arith)
        | inr first ↦
            let other = new_key m (replay_key D f) k v g first in
            let noted = evict D (set m (replay_key D f) now) in
            rw first (
              rw
                (accept_peer-seen D c f.identity_pub f.device_id f.caps f.profile
                  (record e { seen_hello = noted }))
                (evict-IsKept k v (suc n) (set m (replay_key D f) now) l (
                  (rw other at (get-set m (replay_key D f) now k)) ∙ g,
                  omega (arith, b, behind-set-le m (replay_key D f) k now v other g),
                )))
      ]

  handle_hello-IsKept :
      (k : String) (v n : ℕ) (c : String) (f : HelloFrame) (now : ℕ) (e : Engine D)
      → suc n < max_seen_hello_nonces
      → now ≤ v + handshake_nonce_ttl_ms
      → IsKept k v n e.seen_hello
      → IsKept k v (suc n) (handle_hello D c f now e).0.seen_hello
  unfolding handle_hello
  handle_hello-IsKept k v n c f now e l soon h =
      let same : IsKept k v (suc n) e.seen_hello = (h.0, omega (arith, h.1)) in
      elim (Bool-cases (is_nonce f.nonce)) [
        | inr x ↦ rw x same
        | inl x ↦ elim (Bool-cases (is_pinned_to_other D e.peers c f.identity_pub)) [
          | inl y ↦ rw (x, y) same
          | inr y ↦
              elim (Bool-cases
                (is_signed D hello f.identity_pub f.device_id f.nonce f.caps f.sig)) [
                  | inr s ↦ rw (x, y, s) same
                  | inl s ↦ rw (x, y, s) (greet-IsKept k v n c f now e l soon h)
                ]
        ]
      ]

  -- The frame is handled no later than at a time.
  abbrev pub IsBy : ℕ → Incoming D → Type 0
  IsBy limit (hello_frame c f now) = now ≤ limit
  IsBy limit (ack_frame c f now) = now ≤ limit

  receive-IsKept :
      (fs : List (Incoming D)) (k : String) (v n : ℕ) (e : Engine D)
      → n + length fs < max_seen_hello_nonces
      → All (IsBy (v + handshake_nonce_ttl_ms)) fs
      → IsKept k v n e.seen_hello
      → get (receive D e fs).seen_hello k ≡ some v
  unfolding receive
  receive-IsKept [] k v n e l by h = h.0
  receive-IsKept (hello_frame c f now ∷ fs) k v n e l by h =
      receive-IsKept fs k v (suc n) (handle_hello D c f now e).0 (omega arith) by.1
        (handle_hello-IsKept k v n c f now e (omega arith) by.0 h)
  receive-IsKept (ack_frame c f now ∷ fs) k v n e l by h =
      receive-IsKept fs k v n (handle_ack D c f now e) (omega arith) by.1
        (rw (handle_ack-seen D c f now e) h)

  Unanswered : Engine D → Engine D × Option (Payload × String) → Type 0
  Unanswered t (u, again) =
      (again ≡ none)
      × (u.peers ≡ t.peers)
      × (u.pending_hello ≡ t.pending_hello)
      × (u.deferred_roles ≡ t.deferred_roles)
      × (u.world ≡ t.world)

  seen_again :
      (c : String) (f : HelloFrame) (now later : ℕ) (t : Engine D)
      → get t.seen_hello (replay_key D f) ≡ some now
      → later ≤ now + handshake_nonce_ttl_ms
      → Unanswered t (handle_hello D c f later t)
  unfolding handle_hello greet forget_old has Unanswered
  seen_again c f now later t known soon =
      let young = λ (p : String × ℕ). not (ltb handshake_nonce_ttl_ms (later - p.1)) in
      let kept = get-keep young t.seen_hello (replay_key D f) now known (ground arith) in
      elim (Bool-cases (is_nonce f.nonce)) [
        | inr x ↦ rw x (refl, refl, refl, refl, refl)
        | inl x ↦ elim (Bool-cases (is_pinned_to_other D t.peers c f.identity_pub)) [
          | inl y ↦ rw (x, y) (refl, refl, refl, refl, refl)
          | inr y ↦
              elim (Bool-cases
                (is_signed D hello f.identity_pub f.device_id f.nonce f.caps f.sig)) [
                  | inr s ↦ rw (x, y, s) (refl, refl, refl, refl, refl)
                  | inl s ↦ rw (x, y, s, kept) (refl, refl, refl, refl, refl)
                ]
        ]
      ]

  noted_greet :
      (c : String) (f : HelloFrame) (now : ℕ) (e : Engine D)
      → has (forget_old D now e.seen_hello) (replay_key D f) ≡ false
      → IsKept (replay_key D f) now 0 (greet D c f now e).0.seen_hello
  unfolding greet
  noted_greet c f now e first =
      let m = forget_old D now e.seen_hello in
      let k = replay_key D f in
      let noted = evict D (set m k now) in
      let put : get (set m k now) k ≡ some now = rw (eq_refl k) at (get-set m k now k) in
      let last = behind-set_new m k now first in
      rw first (
        rw
          (accept_peer-seen D c f.identity_pub f.device_id f.caps f.profile
            (record e { seen_hello = noted }))
          (evict-IsKept k now 0 (set m k now) (omega arith) (put, omega (arith, last))))

  -- A greeting that has been answered is not answered when it comes again, in any conversation,
  -- within five minutes and after fewer than 2048 other frames, none of them later than that; and
  -- it then changes neither what is known of any peer nor what is awaited nor anything else but the
  -- greetings that are remembered.
  pub handle_hello-replay :
      (c c' : String) (f : HelloFrame) (now later : ℕ) (e : Engine D) (answer : Payload × String)
      (fs : List (Incoming D))
      → (handle_hello D c f now e).1 ≡ some answer
      → length fs < max_seen_hello_nonces
      → All (IsBy (now + handshake_nonce_ttl_ms)) fs
      → later ≤ now + handshake_nonce_ttl_ms
      → let t = receive D (handle_hello D c f now e).0 fs in
        let (u, again) = handle_hello D c' f later t in
        (again ≡ none)
        × (u.peers ≡ t.peers)
        × (u.pending_hello ≡ t.pending_hello)
        × (u.deferred_roles ≡ t.deferred_roles)
        × (u.world ≡ t.world)
  unfolding Unanswered
  handle_hello-replay c c' f now later e answer fs answered few by soon =
      let (_, _, _, first, greets) = answered-greet D c f now e answer answered in
      let start : IsKept (replay_key D f) now 0 (handle_hello D c f now e).0.seen_hello =
        rw greets (noted_greet c f now e first) in
      seen_again c' f now later (receive D (handle_hello D c f now e).0 fs)
        (receive-IsKept fs (replay_key D f) now 0 (handle_hello D c f now e).0 (omega arith) by
          start)
        soon
