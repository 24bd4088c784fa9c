-- ===== src/Ratchet/Exchange.antt =====
-- A new key of the exchange of src/crypto/ratchet.ts, from the sender to the receiver.
mod Takes
mod Sends
use nkc.Base.{
  ℕ, zero, suc, ◌+◌, ◌≤◌, ◌<◌, ◌≡◌, refl, sym, ap, ◌∙◌, ◌⊎◌, inl, inr, Bool, true, false, not, ◌||◌,
  ◌&&◌, is_some, Option, none, some, List, [], ◌∷◌, ltb, leb, if◌then◌else◌, arith, All,
}
use nkc.Ratchet.{
  Bytes, Sodium, Derived, HeaderV2, DhRatchetStateV2, Mode, Received, dh_step, msg_key, next_ck,
  get_or_init_dh_ratchet_state, enter_dh, step_sending, rotate, rotate_every, next_send_dh_key,
  Candidate, try_recv_dh_key, is_bytes, is_dh, derive_recv_key_at_index, skip, recv_candidates,
  stepped_candidate, try_candidates, received,
}
use nkc.Ratchet.Steps.{dh_step_agree, single_candidate, bytes_equal_refl}
use Takes.{steps_to, takes}
use Sends.{IsTurned, enters, renews, stays}

-- A message that is received with the key under which it was sent.
abbrev pub SameKey : Bytes × Option Bytes → Type 0
SameKey (key, got) = got ≡ some key

module _ (S : Sodium) where
  -- The sender enters the exchange, or renews its key pair with the given private key, which the
  -- receiver has not seen.
  abbrev pub IsTurn : DhRatchetStateV2 → DhRatchetStateV2 → Bytes → Type 0
  IsTurn s t fresh =
      ((s.mode ≡ Mode.sym) × (t.mode ≡ Mode.sym))
      ⊎ ((s.mode ≡ Mode.dh)
          × (rotate_every ≤ s.send_i)
          × (is_bytes t.dh_remote_pub (S.public_key fresh) ≡ false))

  -- Two sides between messages of the one: the receiver has the key, the chain and the index of the
  -- sender.
  pub record IsLinked (s t : DhRatchetStateV2) : Type 0 where
    pub root : t.rk ≡ s.rk
    pub chain : t.recv_ck ≡ s.send_ck
    pub index : t.recv_i ≡ s.send_i
    pub key : t.dh_remote_pub ≡ some s.dh_self_pub
    pub entered : (s.mode ≡ Mode.dh) × (t.mode ≡ Mode.dh)

  -- A message arrives under its key, and the two sides are linked after it.
  abbrev pub Arrives :
      Bytes → Bytes → ℕ → DhRatchetStateV2 → (Bytes × HeaderV2 × DhRatchetStateV2) → Type 0
  Arrives base init_priv max_skip t (key, header, u) =
      (r : Received) × ((try_recv_dh_key S base init_priv header max_skip (some t)).0 ≡ some r)
      × (r.msg_key ≡ key)
      × IsLinked u r.commit

  linked_next :
      (base init_priv init_priv' fresh : Bytes) (s t : DhRatchetStateV2) (max_skip : ℕ)
      → IsLinked s t
      → s.send_i < rotate_every
      → Arrives base init_priv' max_skip t (next_send_dh_key S base init_priv fresh (some s))
  unfolding next_send_dh_key try_recv_dh_key get_or_init_dh_ratchet_state received
  linked_next base init_priv init_priv' fresh s t max_skip l few =
      rw (stays S s fresh l.entered.0 few) (
        received S (record { state = t; prefer = t.mode }) false s.dh_self_pub
            (record {
              msg_key = msg_key S t.recv_ck;
              next_ck = next_ck S t.recv_ck;
              next_recv_i = s.send_i + 1;
            }),
        takes S t s.dh_self_pub s.send_i max_skip l.key l.entered.1 l.index,
        ap (msg_key S) l.chain,
        record {
          root = l.root;
          chain = ap (next_ck S) l.chain;
          index = refl;
          key = l.key;
          entered = (l.entered.0, ground (arith, l.entered.1));
        },
      )

  -- The messages of one side from a turn on, each received and committed before the next: the key
  -- under which each is sent, and the key with which it is received.
  unfoldable pub transfer :
      (base init_priv init_priv' fresh : Bytes) (max_skip : ℕ)
      → ℕ
      → DhRatchetStateV2
      → DhRatchetStateV2
      → List (Bytes × Option Bytes)
  unfolding next_send_dh_key try_recv_dh_key
  transfer base init_priv init_priv' fresh max_skip zero s t = []
  transfer base init_priv init_priv' fresh max_skip (suc n) s t =
      let (key, header, u) = next_send_dh_key S base init_priv fresh (some s) in
      elim (try_recv_dh_key S base init_priv' header max_skip (some t)).0 [
        | none ↦ (key, none) ∷ transfer base init_priv init_priv' fresh max_skip n u t
        | some r ↦
            (key, some r.msg_key) ∷ transfer base init_priv init_priv' fresh max_skip n u r.commit
      ]

  either_way : (b : Bool) (remote : Bytes) → (if b then some remote else some remote) ≡ some remote
  either_way true remote = refl
  either_way false remote = refl

  turn_arrives :
      (base init_priv : Bytes) (s t : DhRatchetStateV2) (priv : Bytes) (max_skip : ℕ)
      (sent : Bytes × HeaderV2 × DhRatchetStateV2)
      → IsTurned S s t priv sent
      → s.rk ≡ t.rk
      → t.dh_self_pub ≡ S.public_key t.dh_self_priv
      → 0 < t.recv_i
      → (not (is_bytes t.dh_remote_pub (S.public_key priv))
          || (not (is_dh t.mode) && is_some t.dh_remote_pub))
        ≡ true
      → Arrives base init_priv max_skip t sent
  unfolding try_recv_dh_key get_or_init_dh_ratchet_state received stepped_candidate dh_step
  turn_arrives base init_priv s t priv max_skip (key, header, u) x roots own before turns =
      let remote = S.public_key priv in
      let changed = not (is_bytes t.dh_remote_pub remote) in
      let (root, chain, _) =
        dh_step_agree S (record s { dh_self_priv = priv; dh_self_pub = remote }) t roots refl own in
      (
        received S (stepped_candidate S t remote) changed remote (record {
          msg_key = msg_key S (dh_step S t remote true).recv_ck;
          next_ck = next_ck S (dh_step S t remote true).recv_ck;
          next_recv_i = 1;
        }),
        rw (x.announced, x.at_start) (steps_to S t remote max_skip changed before turns),
        sym (x.first_key ∙ ap (msg_key S) chain),
        record {
          root = sym (x.new_root ∙ root);
          chain = sym (x.new_chain ∙ ap (next_ck S) chain);
          index = sym x.counted;
          key = either_way changed remote ∙ ap some (sym x.own_key);
          entered = (x.entered, refl);
        },
      )

  turn :
      (base init_priv init_priv' fresh : Bytes) (s t : DhRatchetStateV2) (max_skip : ℕ)
      → s.dh_remote_pub ≡ some t.dh_self_pub
      → s.rk ≡ t.rk
      → s.dh_self_pub ≡ S.public_key s.dh_self_priv
      → t.dh_self_pub ≡ S.public_key t.dh_self_priv
      → 0 < t.recv_i
      → IsTurn s t fresh
      → let sent = next_send_dh_key S base init_priv fresh (some s) in
        Arrives base init_priv' max_skip t sent × (sent.2.send_i ≡ 1)
  turn base init_priv init_priv' fresh s t max_skip remote roots own own_t before (inl (m, m')) =
      let x = enters S base init_priv fresh s t remote own m in
      (
        turn_arrives base init_priv' s t s.dh_self_priv max_skip _ x roots own_t before
            (ground (arith, m')),
        x.counted,
      )
  turn base init_priv init_priv' fresh s t max_skip remote roots own own_t before
        (inr (m, many, unseen)) =
      let x = renews S base init_priv fresh s t remote m many in
      (
        turn_arrives base init_priv' s t fresh max_skip _ x roots own_t before (rw unseen refl),
        x.counted,
      )

  counted_next :
      (base init_priv fresh : Bytes) (s : DhRatchetStateV2)
      → s.mode ≡ Mode.dh
      → s.send_i < rotate_every
      → (next_send_dh_key S base init_priv fresh (some s)).2.send_i ≡ s.send_i + 1
  unfolding next_send_dh_key get_or_init_dh_ratchet_state
  counted_next base init_priv fresh s m few =
      ap (λ (u : DhRatchetStateV2). u.send_i + 1) (stays S s fresh m few)

  transfer_next :
      (base init_priv init_priv' fresh : Bytes) (max_skip n : ℕ) (s t : DhRatchetStateV2)
      → Arrives base init_priv' max_skip t (next_send_dh_key S base init_priv fresh (some s))
      → ((r : DhRatchetStateV2)
          → IsLinked (next_send_dh_key S base init_priv fresh (some s)).2 r
          → All SameKey (
              transfer base init_priv init_priv' fresh max_skip n
                (next_send_dh_key S base init_priv fresh (some s)).2
                r))
      → All SameKey (transfer base init_priv init_priv' fresh max_skip (suc n) s t)
  unfolding transfer
  transfer_next base init_priv init_priv' fresh max_skip n s t (r, arrived, same, linked) later =
      rw (arrived, transfer) (ap some same, later r.commit linked)

  linked_transfer :
      (base init_priv init_priv' fresh : Bytes) (max_skip n : ℕ) (s t : DhRatchetStateV2)
      → IsLinked s t
      → n + s.send_i ≤ rotate_every
      → All SameKey (transfer base init_priv init_priv' fresh max_skip n s t)
  unfolding transfer
  linked_transfer base init_priv init_priv' fresh max_skip zero s t l few = tt
  linked_transfer base init_priv init_priv' fresh max_skip (suc n) s t l few =
      transfer_next base init_priv init_priv' fresh max_skip n s t
        (linked_next base init_priv init_priv' fresh s t max_skip l (omega arith))
        (λ r linked.
          linked_transfer base init_priv init_priv' fresh max_skip n _ r linked
            (omega (arith, counted_next base init_priv fresh s l.entered.0 (omega arith))))

  -- From a turn of the sender on, its next fifty messages, received one after another, are each
  -- received with the key under which they are sent. Both sides hold one root key, and the sender
  -- the public key of the receiver; each has the public key of its private one; the receiver has had
  -- a message on its present chain; and either both enter the exchange, or the sender renews its key
  -- pair after fifty messages with a key that is not the one that the receiver knows.
  pub exchange_agrees :
      (base init_priv init_priv' fresh : Bytes) (max_skip n : ℕ) (s t : DhRatchetStateV2)
      → s.dh_remote_pub ≡ some t.dh_self_pub
      → s.rk ≡ t.rk
      → s.dh_self_pub ≡ S.public_key s.dh_self_priv
      → t.dh_self_pub ≡ S.public_key t.dh_self_priv
      → 0 < t.recv_i
      → IsTurn s t fresh
      → n ≤ rotate_every
      → All SameKey (transfer base init_priv init_priv' fresh max_skip n s t)
  unfolding transfer
  exchange_agrees base init_priv init_priv' fresh max_skip zero s t remote roots own own_t before
        turns few =
      tt
  exchange_agrees base init_priv init_priv' fresh max_skip (suc n) s t remote roots own own_t before
        turns few =
      let (arrives, counted) =
        turn base init_priv init_priv' fresh s t max_skip remote roots own own_t before turns in
      transfer_next base init_priv init_priv' fresh max_skip n s t arrives (λ r linked.
        linked_transfer base init_priv init_priv' fresh max_skip n _ r linked
          (omega (arith, counted)))
