-- ===== src/Ratchet/Chain.antt =====
-- A chain of keys, and the key that a receiver derives for an index of it.
use nkc.Base.{
  ℕ, zero, suc, ◌+◌, ◌-◌, ◌≤◌, ◌<◌, ◌≡◌, refl, ◌∙◌, ap, inl, inr, true, false, Option, none, some,
  ltb, leb, if◌then◌else◌, min, arith, Bool-cases,
}
use nkc.Ratchet.{Bytes, Sodium, Derived, msg_key, next_ck, skip, derive_recv_key_at_index}

module _ (S : Sodium) where
  -- The chain key after a number of messages.
  unfoldable pub chain : ℕ → Bytes → Bytes
  chain zero ck = ck
  chain (suc n) ck = chain n (next_ck S ck)

  pub next_ck-chain : (n : ℕ) (ck : Bytes) → next_ck S (chain n ck) ≡ chain (suc n) ck
  unfolding chain
  next_ck-chain zero ck = refl
  next_ck-chain (suc n) ck = next_ck-chain n (next_ck S ck)

  pub chain-chain : (m n : ℕ) (ck : Bytes) → chain m (chain n ck) ≡ chain (n + m) ck
  unfolding chain
  chain-chain m zero ck = ap (λ k. chain k ck) {x = m} {y = zero + m} (omega arith)
  chain-chain m (suc n) ck =
      chain-chain m n (next_ck S ck)
      ∙ ap (λ k. chain k ck) {x = suc (n + m)} {y = suc n + m} (omega arith)

  -- The loop walks to the target, or as far as its steps last.
  pub skip-chain :
      (steps : ℕ) (ck : Bytes) (cursor target : ℕ)
      → cursor ≤ target
      → let k = min steps (target - cursor) in
        skip S steps ck cursor target ≡ (chain k ck, cursor + k)
  unfolding skip chain
  skip-chain zero ck cursor target h =
      let none_left : min 0 (target - cursor) ≡ 0 = omega arith in rw none_left (ground arith)
  skip-chain (suc steps) ck cursor target h = elim (Bool-cases (ltb cursor target)) [
    | inl more ↦
        let one : min (suc steps) (target - cursor) ≡ suc (min steps (target - (cursor + 1))) =
          ground arith in
        rw (more, skip, one)
          (skip-chain steps (next_ck S ck) (cursor + 1) target (ground arith) ∙ ground arith)
    | inr done ↦
        let no_more : min (suc steps) (target - cursor) ≡ 0 = ground arith in
        rw (done, skip, no_more) (ground arith)
  ]

  -- The key for an index: deferred where the index is behind the chain or too far ahead.
  unfoldable pub key_for : Bytes → (recv_i target max_skip : ℕ) → Option Derived
  key_for ck recv_i target max_skip =
      if ltb target recv_i
      then none
      else if leb (target - recv_i) max_skip
      then some (record {
        msg_key = msg_key S (chain (target - recv_i) ck);
        next_ck = chain (suc (target - recv_i)) ck;
        next_recv_i = target + 1;
      })
      else none

  -- The derivation gives the key of the hash chain at the index, for every index from the expected
  -- one up to the end of the window, and for no other.
  pub derive_recv_key_at_index_lem :
      (ck : Bytes) (recv_i target max_skip : ℕ)
      → derive_recv_key_at_index S ck recv_i target max_skip ≡ key_for ck recv_i target max_skip
  unfolding derive_recv_key_at_index key_for
  derive_recv_key_at_index_lem ck recv_i target max_skip = elim (Bool-cases (ltb target recv_i)) [
    | inl behind ↦ rw behind
    | inr ahead ↦
        rw (ahead, skip-chain max_skip ck recv_i target (ground arith))
          (elim (Bool-cases (leb (target - recv_i) max_skip)) [
            | inl near ↦
                let all : min max_skip (target - recv_i) ≡ target - recv_i = ground arith in
                let there : recv_i + (target - recv_i) ≡ target = ground arith in
                let there_yet : ltb target target ≡ false = ground arith in
                rw (near, all, there, there_yet) (rw (next_ck-chain (target - recv_i) ck))
            | inr far ↦
                let short : ltb (recv_i + min max_skip (target - recv_i)) target ≡ true =
                  ground arith in
                rw (far, short)
          ])
  ]

  pub key_for_inside :
      (ck : Bytes) (recv_i target max_skip : ℕ)
      → recv_i ≤ target
      → target ≤ recv_i + max_skip
      → key_for ck recv_i target max_skip
        ≡ some (record {
          msg_key = msg_key S (chain (target - recv_i) ck);
          next_ck = chain (suc (target - recv_i)) ck;
          next_recv_i = target + 1;
        })
  unfolding key_for
  key_for_inside ck recv_i target max_skip h k =
      let ahead : ltb target recv_i ≡ false = ground arith in
      let near : leb (target - recv_i) max_skip ≡ true = ground arith in rw (ahead, near)

  pub key_for_behind :
      (ck : Bytes) (recv_i target max_skip : ℕ)
      → target < recv_i
      → key_for ck recv_i target max_skip ≡ none
  unfolding key_for
  key_for_behind ck recv_i target max_skip h =
      let behind : ltb target recv_i ≡ true = ground arith in rw behind

  pub key_for_next :
      (ck : Bytes) (recv_i target max_skip : ℕ) (d : Derived)
      → key_for ck recv_i target max_skip ≡ some d
      → d.next_recv_i ≡ target + 1
  unfolding key_for
  key_for_next ck recv_i target max_skip d h = ground arith
