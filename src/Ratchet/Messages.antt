-- ===== src/Ratchet/Messages.antt =====
-- The first version of the ratchet, one chain for both directions: who derives which key.
use nkc.Base.{
  ℕ, zero, suc, ◌+◌, ◌-◌, ◌≤◌, ◌≡◌, refl, sym, ◌∙◌, ap, subst, Bool, Option, none, some, ltb,
  if◌then◌else◌, arith,
}
use nkc.Ratchet.{
  Bytes, Sodium, Derived, RatchetStateV1, msg_key, next_ck, init_ck, skip, next_send_key,
  try_recv_key, get_or_init_ratchet_state, derive_recv_key_at_index,
}
use nkc.Ratchet.Chain.{
  chain, next_ck-chain, chain-chain, key_for, key_for_inside, key_for_behind, key_for_next,
  derive_recv_key_at_index_lem,
}

module _ (S : Sodium) (base : Bytes) where
  abbrev pub current : Option RatchetStateV1 → RatchetStateV1
  current stored = get_or_init_ratchet_state S base stored

  -- The receiver of the first version in terms of the derivation that it shares with the second.
  abbrev accepted : RatchetStateV1 → Option Derived → Option Bytes × RatchetStateV1
  accepted s none = (none, s)
  accepted s (some d) = (some d.msg_key, record s { ck = d.next_ck; recv_i = d.next_recv_i })

  pub try_recv_key_lem :
      (target max_skip : ℕ) (stored : Option RatchetStateV1)
      → let s = current stored in
        try_recv_key S base target max_skip stored
        ≡ accepted s (key_for S s.ck s.recv_i target max_skip)
  unfolding try_recv_key derive_recv_key_at_index
  try_recv_key_lem target max_skip stored =
      let s = current stored in
      by_tests (ltb target s.recv_i) (skip S max_skip s.ck s.recv_i target)
      ∙ ap (accepted s) (derive_recv_key_at_index_lem S s.ck s.recv_i target max_skip)
    where
      by_tests :
          (behind : Bool) (r : Bytes × ℕ)
          → (if behind
              then (none, current stored)
              else if ltb r.1 target
              then (none, current stored)
              else (
                some (msg_key S r.0),
                record (current stored) { ck = next_ck S r.0; recv_i = r.1 + 1 },
              ))
            ≡ accepted (current stored) (
                if behind
                then none
                else if ltb r.1 target
                then none
                else some (record {
                  msg_key = msg_key S r.0;
                  next_ck = next_ck S r.0;
                  next_recv_i = r.1 + 1;
                }))
      by_tests behind r = ground arith

  module _ (target earlier max_skip max_skip' : ℕ) (le : earlier ≤ target) where
    abbrev Defers : Option Bytes × RatchetStateV1 → Type 0
    Defers r =
        (key : Bytes)
        → r.0 ≡ some key
        → try_recv_key S base earlier max_skip' (some r.1) ≡ (none, r.1)

    accepted-Defers :
        (s : RatchetStateV1) (o : Option Derived)
        → key_for S s.ck s.recv_i target max_skip ≡ o
        → Defers (accepted s o)
    unfolding get_or_init_ratchet_state
    accepted-Defers s none e key h = cc
    accepted-Defers s (some d) e key h =
        let next = key_for_next S s.ck s.recv_i target max_skip d e in
        let after = record s { ck = d.next_ck; recv_i = d.next_recv_i } in
        try_recv_key_lem earlier max_skip' (some after)
        ∙ ap (accepted after)
            (key_for_behind S d.next_ck d.next_recv_i earlier max_skip' (omega arith))

    -- An index that has been accepted, and any before it, is deferred from then on, and the state
    -- stays as it is.
    pub try_recv_key_replay :
        (stored : Option RatchetStateV1) (key : Bytes)
        → (try_recv_key S base target max_skip stored).0 ≡ some key
        → let after = (try_recv_key S base target max_skip stored).1 in
          try_recv_key S base earlier max_skip' (some after) ≡ (none, after)
    try_recv_key_replay stored key =
        subst Defers (sym (try_recv_key_lem target max_skip stored))
          (accepted-Defers (current stored) _ refl) key

  -- The state of a side after it has sent a number of messages and received none.
  pub after_sends : ℕ → RatchetStateV1
  after_sends zero = current none
  after_sends (suc n) = (next_send_key S base (some (after_sends n))).2

  after_sends_lem :
      (n : ℕ) → after_sends n ≡ record { ck = chain S n (init_ck S base); send_i = n; recv_i = 0 }
  unfolding after_sends get_or_init_ratchet_state next_send_key chain
  after_sends_lem zero = refl
  after_sends_lem (suc n) =
      rw (after_sends_lem n) (ground (arith, next_ck-chain S n (init_ck S base)))

  send_lem :
      (n : ℕ)
      → let sent = next_send_key S base (some (after_sends n)) in
        (sent.0 ≡ msg_key S (chain S n (init_ck S base))) × (sent.1 ≡ n)
  unfolding next_send_key get_or_init_ratchet_state
  send_lem n = rw (after_sends_lem n) (refl, refl)

  -- A side that has only received: its chain stands at the index that it expects.
  pub record InStep (s : RatchetStateV1) : Type 0 where
    pub at_index : s.ck ≡ chain S s.recv_i (init_ck S base)

  -- While one side only sends and the other, whose chain stands at the index that it expects, only
  -- receives, the key of every message within the window is the one that its sender used, also
  -- where earlier messages were lost; and the receiver stays in step.
  pub one_way :
      (n max_skip : ℕ) (s : RatchetStateV1)
      → InStep s
      → s.recv_i ≤ n
      → n ≤ s.recv_i + max_skip
      → let (key, i, _) = next_send_key S base (some (after_sends n)) in
        let r = try_recv_key S base i max_skip (some s) in
        (i ≡ n) × (r.0 ≡ some key) × (r.1.recv_i ≡ n + 1) × InStep r.1
  unfolding get_or_init_ratchet_state
  one_way n max_skip s v from until =
      let ck0 = init_ck S base in
      let (key, index) = send_lem n in
      let walk : chain S (n - s.recv_i) s.ck ≡ chain S n ck0 = rw v.at_index (
        chain-chain S (n - s.recv_i) s.recv_i ck0
        ∙ ap (λ k. chain S k ck0) {x = s.recv_i + (n - s.recv_i)} {y = n} (omega arith)) in
      let walk' : chain S (suc (n - s.recv_i)) s.ck ≡ chain S (n + 1) ck0 = rw v.at_index (
        chain-chain S (suc (n - s.recv_i)) s.recv_i ck0
        ∙ ap (λ k. chain S k ck0) {x = s.recv_i + suc (n - s.recv_i)} {y = n + 1} (omega arith)) in
      let got =
        try_recv_key_lem n max_skip (some s)
        ∙ ap (accepted s) (key_for_inside S s.ck s.recv_i n max_skip from until) in
      rw (index, key, got) (refl, rw walk, refl, record { at_index = walk' })

  first_after_sends :
      (sent max_skip : ℕ)
      → (try_recv_key S base 0 max_skip (some (after_sends sent))).0
        ≡ some (msg_key S (chain S sent (init_ck S base)))
  unfolding get_or_init_ratchet_state chain
  first_after_sends sent max_skip =
      let ck = chain S sent (init_ck S base) in
      let s : RatchetStateV1 = record { ck = ck; send_i = sent; recv_i = 0 } in
      rw (after_sends_lem sent) (
        ap (λ r. r.0)
          (try_recv_key_lem 0 max_skip (some s)
            ∙ ap (accepted s) (key_for_inside S ck 0 0 max_skip (omega arith) (omega arith))))

  -- Where the receiver has sent before it receives anything, it answers its peer's first message
  -- with the key at a later place of the shared chain, while the peer used the key at the start of
  -- the chain.
  pub crossed_first_message :
      (sent max_skip : ℕ)
      → ((try_recv_key S base 0 max_skip (some (after_sends (suc sent)))).0
          ≡ some (msg_key S (chain S (suc sent) (init_ck S base))))
        × ((next_send_key S base none).0 ≡ msg_key S (init_ck S base))
  unfolding get_or_init_ratchet_state next_send_key
  crossed_first_message sent max_skip = (first_after_sends (suc sent) max_skip, refl)
