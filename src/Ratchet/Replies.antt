-- ===== src/Ratchet/Replies.antt =====
-- The first reply of a conversation under the second version of the ratchet.
use nkc.Base.{ℕ, ◌≡◌, refl, sym, ◌∙◌, Option, none, some, false, arith}
use nkc.Ratchet.{
  Bytes, Sodium, DhRatchetStateV2, HeaderV2, Received, dh_step, msg_key, init_ck, next_ck,
  next_send_dh_key, try_recv_dh_key, get_or_init_dh_ratchet_state, enter_dh, rotate,
  recv_candidates, try_candidates, received, derive_recv_key_at_index,
}
use nkc.Ratchet.Chain.{chain, key_for_inside, derive_recv_key_at_index_lem}

-- Two sides of a fresh conversation with private keys `a` and `b`. The first side sends, the second
-- receives and commits, and then replies; the first side receives the reply.
module _ (S : Sodium) (base a b unused : Bytes) (max_skip : ℕ) where
  abbrev pub opening : Bytes × HeaderV2 × DhRatchetStateV2
  opening = next_send_dh_key S base a unused none

  abbrev pub opened : Option Received × DhRatchetStateV2
  opened = try_recv_dh_key S base b opening.1 max_skip none

  abbrev pub reply : DhRatchetStateV2 → Bytes × HeaderV2 × DhRatchetStateV2
  reply s = next_send_dh_key S base b unused (some s)

  abbrev pub replied : HeaderV2 → Option Received × DhRatchetStateV2
  replied header = try_recv_dh_key S base a header max_skip (some opening.2)

  -- The message of the opening as the second side takes it, and its state from then on.
  abbrev pub first_received : Received
  first_received = record {
    msg_key = msg_key S (init_ck S base);
    commit = record (get_or_init_dh_ratchet_state S base b none) {
      recv_ck = next_ck S (init_ck S base);
      recv_i = 1;
      dh_remote_pub = some (S.public_key a);
    };
  }

  derive_first :
      (ck : Bytes)
      → derive_recv_key_at_index S ck 0 0 max_skip
        ≡ some (record { msg_key = msg_key S ck; next_ck = next_ck S ck; next_recv_i = 1 })
  unfolding chain
  derive_first ck =
      derive_recv_key_at_index_lem S ck 0 0 max_skip
      ∙ key_for_inside S ck 0 0 max_skip (omega arith) (omega arith)

  opened_lem : (opened.0 ≡ some first_received) × (opening.0 ≡ msg_key S (init_ck S base))
  unfolding next_send_dh_key try_recv_dh_key get_or_init_dh_ratchet_state enter_dh rotate
      recv_candidates try_candidates received
  opened_lem = (rw (derive_first (init_ck S base), try_candidates), refl)

  abbrev pub key_of : Option Received → Option Bytes
  key_of none = none
  key_of (some r) = some r.msg_key

  -- The second side reads the opening with its key. It sends its reply under a key of the first
  -- exchange, with the index 0; but the first side takes the key of the opening's chain for it.
  pub first_reply :
      (opened.0 ≡ some first_received)
      × (first_received.msg_key ≡ opening.0)
      × ((reply first_received.commit).0
          ≡ msg_key S (dh_step S first_received.commit (S.public_key a) false).send_ck)
      × (key_of (replied (reply first_received.commit).1).0 ≡ some (msg_key S (init_ck S base)))
  unfolding next_send_dh_key try_recv_dh_key get_or_init_dh_ratchet_state enter_dh rotate
      recv_candidates try_candidates received
  first_reply = (
    opened_lem.0,
    sym opened_lem.1,
    refl,
    rw (derive_first (init_ck S base), try_candidates) refl,
  )
