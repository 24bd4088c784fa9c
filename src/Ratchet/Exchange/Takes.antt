-- ===== src/Ratchet/Exchange/Takes.antt =====
-- Which state receives a message of the exchange: tryRecvDhKey of src/crypto/ratchet.ts.
use nkc.Base.{
  ℕ, zero, suc, ◌+◌, ◌<◌, ◌≡◌, refl, ap, ◌∙◌, Bool, true, false, not, ◌||◌, ◌&&◌, is_some, none,
  some, List, [], ◌∷◌, ltb, if◌then◌else◌, arith,
}
use nkc.Ratchet.{
  Bytes, Sodium, Derived, DhRatchetStateV2, Mode, dh_step, msg_key, next_ck, Candidate, is_bytes,
  is_dh, derive_recv_key_at_index, skip, recv_candidates, stepped_candidate, try_candidates,
  received,
}
use nkc.Ratchet.Steps.{single_candidate, bytes_equal_refl}

module _ (S : Sodium) where
  derive_at :
      (ck : Bytes) (i max_skip : ℕ)
      → derive_recv_key_at_index S ck i i max_skip
        ≡ some (record { msg_key = msg_key S ck; next_ck = next_ck S ck; next_recv_i = i + 1 })
  unfolding derive_recv_key_at_index skip
  derive_at ck i zero = let here : ltb i i ≡ false = ground arith in rw here refl
  derive_at ck i (suc n) =
      let here : ltb i i ≡ false = ground arith in rw here (rw (here, skip) (rw here refl))

  derive_behind :
      (ck : Bytes) (recv_i max_skip : ℕ)
      → 0 < recv_i
      → derive_recv_key_at_index S ck recv_i 0 max_skip ≡ none
  unfolding derive_recv_key_at_index
  derive_behind ck recv_i max_skip h = let late : ltb 0 recv_i ≡ true = ground arith in rw late

  try_first :
      (c : Candidate) (cs : List Candidate) (changed : Bool) (remote : Bytes) (i max_skip : ℕ)
      (d : Derived)
      → derive_recv_key_at_index S c.state.recv_ck c.state.recv_i i max_skip ≡ some d
      → try_candidates S (c ∷ cs) changed remote i max_skip ≡ some (received S c changed remote d)
  unfolding try_candidates
  try_first c cs changed remote i max_skip d e = rw (e, try_candidates) refl

  try_later :
      (c : Candidate) (cs : List Candidate) (changed : Bool) (remote : Bytes) (i max_skip : ℕ)
      → derive_recv_key_at_index S c.state.recv_ck c.state.recv_i i max_skip ≡ none
      → try_candidates S (c ∷ cs) changed remote i max_skip
        ≡ try_candidates S cs changed remote i max_skip
  unfolding try_candidates
  try_later c cs changed remote i max_skip e = rw (e, try_candidates) refl

  two_candidates :
      (t : DhRatchetStateV2) (remote : Bytes)
      → (not (is_bytes t.dh_remote_pub remote) || (not (is_dh t.mode) && is_some t.dh_remote_pub))
        ≡ true
      → recv_candidates S t remote
        ≡ record { state = t; prefer = t.mode } ∷ stepped_candidate S t remote ∷ []
  unfolding recv_candidates
  two_candidates t remote turns =
      ap
        (λ (b : Bool).
          record { state = t; prefer = t.mode }
          ∷ (if b then stepped_candidate S t remote ∷ [] else []))
        turns

  -- A receiver that has had a message takes the first one under a new key by its step.
  pub steps_to :
      (t : DhRatchetStateV2) (remote : Bytes) (max_skip : ℕ) (changed : Bool)
      → 0 < t.recv_i
      → (not (is_bytes t.dh_remote_pub remote) || (not (is_dh t.mode) && is_some t.dh_remote_pub))
        ≡ true
      → try_candidates S (recv_candidates S t remote) changed remote 0 max_skip
        ≡ some (
            received S (stepped_candidate S t remote) changed remote (record {
              msg_key = msg_key S (dh_step S t remote true).recv_ck;
              next_ck = next_ck S (dh_step S t remote true).recv_ck;
              next_recv_i = 1;
            }))
  unfolding stepped_candidate
  steps_to t remote max_skip changed some_before turns = rw (two_candidates t remote turns) (
      try_later (record { state = t; prefer = t.mode }) _ changed remote 0 max_skip
        (derive_behind t.recv_ck t.recv_i max_skip some_before)
      ∙ try_first (stepped_candidate S t remote) [] changed remote 0 max_skip _
          (derive_at (dh_step S t remote true).recv_ck 0 max_skip))

  -- The next message under a known key.
  pub takes :
      (t : DhRatchetStateV2) (remote : Bytes) (i max_skip : ℕ)
      → t.dh_remote_pub ≡ some remote
      → t.mode ≡ Mode.dh
      → t.recv_i ≡ i
      → try_candidates S
          (recv_candidates S t remote)
          (not (is_bytes t.dh_remote_pub remote))
          remote
          i
          max_skip
        ≡ some (
            received S
              (record { state = t; prefer = t.mode })
              false
              remote
              (record {
                msg_key = msg_key S t.recv_ck;
                next_ck = next_ck S t.recv_ck;
                next_recv_i = i + 1;
              }))
  takes t remote i max_skip known m at =
      let same : is_bytes t.dh_remote_pub remote ≡ true = rw known (bytes_equal_refl remote) in
      let here : derive_recv_key_at_index S t.recv_ck t.recv_i i max_skip
          ≡ some (record {
            msg_key = msg_key S t.recv_ck;
            next_ck = next_ck S t.recv_ck;
            next_recv_i = i + 1;
          }) =
        ap (λ n. derive_recv_key_at_index S t.recv_ck n i max_skip) at
        ∙ derive_at t.recv_ck i max_skip in
      rw (single_candidate S t remote same m) (
        try_first (record { state = t; prefer = t.mode }) [] _ remote i max_skip _ here
        ∙ ap
            (λ changed. some (
              received S (record { state = t; prefer = t.mode }) (not changed) remote
                (record {
                  msg_key = msg_key S t.recv_ck;
                  next_ck = next_ck S t.recv_ck;
                  next_recv_i = i + 1;
                })))
            same)
