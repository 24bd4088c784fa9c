-- ===== src/Tests/Ratchet.antt =====
-- The ratchets over a toy key exchange, in which a public key is its private key.
use nkc.Base.{All, inl, ℕ, ◌+◌, ◌≡◌, refl, some, none, List, [], ◌∷◌, arith, false, true, ap}
use nkc.Ratchet.{
  Bytes, Sodium, DhRatchetStateV2, RatchetStateV1, Mode, Received, get_or_init_dh_ratchet_state,
  dh_step, init_ck, msg_key, next_ck, next_send_key, try_recv_key, try_recv_dh_key,
  derive_recv_key_at_index, skip, bytes_equal,
}
use nkc.Ratchet.Chain.{chain}
use nkc.Ratchet.Messages.{InStep, after_sends, one_way}
use nkc.Ratchet.Exchange.{SameKey, transfer, exchange_agrees}
use nkc.Ratchet.Replays.{Use, comes, sends, use_each, try_recv_dh_key_replay}
use nkc.Ratchet.Replies.{opening, opened, reply, replied, first_received, key_of, first_reply}

abbrev total : Bytes → ℕ
total [] = 0
total (x ∷ xs) = x + total xs

abbrev toy : Sodium
toy = record {
  generichash = λ b. b;
  scalarmult = λ a b. (total a + total b) ∷ [];
  public_key = λ a. a;
  scalarmult_comm = λ a b. ap (λ n. n ∷ []) (omega arith);
}

abbrev base : Bytes
base = 7 ∷ []

abbrev side : ℕ → DhRatchetStateV2
side key = get_or_init_dh_ratchet_state toy base (key ∷ []) none

-- Two sides that enter the exchange: the one knows the key of the other, which has had a message.
abbrev opener : DhRatchetStateV2
opener = record (side 1) { dh_remote_pub = some (2 ∷ []) }

abbrev answerer : DhRatchetStateV2
answerer = record (side 2) { recv_i = 1 }

exchange_agrees_example : All SameKey (transfer toy base [] [] (3 ∷ []) 5 3 opener answerer)
unfolding get_or_init_dh_ratchet_state
exchange_agrees_example =
    exchange_agrees toy base [] [] (3 ∷ []) 5 3 opener answerer refl refl refl refl (omega arith)
      (inl (refl, refl)) (omega arith)

abbrev receiver : RatchetStateV1
receiver = record { ck = init_ck toy base; send_i = 0; recv_i = 0 }

one_way_example :
    let (key, i, _) = next_send_key toy base (some (after_sends toy base 2)) in
    let r = try_recv_key toy base i 5 (some receiver) in
    (i ≡ 2) × (r.0 ≡ some key) × (r.1.recv_i ≡ 3) × InStep toy base r.1
unfolding chain
one_way_example =
    one_way toy base 2 5 receiver (record { at_index = refl }) (omega arith) (omega arith)

abbrev first_key : Bytes
first_key = msg_key toy (chain toy 2 (init_ck toy base))

first_reply_example :
    let first = first_received toy base (1 ∷ []) (2 ∷ []) (3 ∷ []) 5 in
    (opened toy base (1 ∷ []) (2 ∷ []) (3 ∷ []) 5).0 ≡ some first
    × (first.msg_key ≡ (opening toy base (1 ∷ []) (2 ∷ []) (3 ∷ []) 5).0)
    × ((reply toy base (1 ∷ []) (2 ∷ []) (3 ∷ []) 5 first.commit).0
        ≡ msg_key toy (dh_step toy first.commit (1 ∷ []) false).send_ck)
    × (key_of toy base
          (1 ∷ [])
          (2 ∷ [])
          (3 ∷ [])
          5
          (replied toy base
            (1 ∷ [])
            (2 ∷ [])
            (3 ∷ [])
            5
            (reply toy base (1 ∷ []) (2 ∷ []) (3 ∷ []) 5 first.commit).1).0
        ≡ some (msg_key toy (init_ck toy base)))
first_reply_example = first_reply toy base (1 ∷ []) (2 ∷ []) (3 ∷ []) 5

-- A conversation in which the key exchange has been entered: a message at index 0 is received.
abbrev entered : DhRatchetStateV2
entered = record (side 1) { mode = Mode.dh; dh_remote_pub = some (2 ∷ []) }

abbrev taken : Received
taken = record {
  msg_key = msg_key toy (init_ck toy base);
  commit = record entered { recv_ck = next_ck toy (init_ck toy base); recv_i = 1 };
}

-- A message is sent, and the next one comes in and opens.
abbrev later : List Use
later = sends [] (3 ∷ []) ∷ comes (record { i = 1; dh = some (2 ∷ []); pn = none }) 5 true ∷ []

try_recv_dh_key_replay_example :
    (try_recv_dh_key toy base
      (1 ∷ [])
      (record { i = 0; dh = some (2 ∷ []); pn = none })
      5
      (some (use_each toy base later taken.commit))).0
    ≡ none
unfolding get_or_init_dh_ratchet_state try_recv_dh_key derive_recv_key_at_index bytes_equal skip
try_recv_dh_key_replay_example =
    try_recv_dh_key_replay toy base (1 ∷ []) (2 ∷ []) 0 0 5 5 none none (some entered) taken later
      refl refl (omega arith) (tt, (refl, tt))
