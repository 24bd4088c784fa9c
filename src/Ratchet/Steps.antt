-- ===== src/Ratchet/Steps.antt =====
-- The second version of the ratchet: rotation, the exchange, and what a message commits.
use nkc.Base.{
  ℕ, ◌+◌, ◌<◌, ◌≡◌, refl, sym, ◌∙◌, subst, Bool, true, false, not, Option, none, some, List, [],
  ◌∷◌, if◌then◌else◌, arith, All,
}
use nkc.Ratchet.{
  Bytes, Sodium, Derived, DhRatchetStateV2, Mode, Candidate, Received, dh_step,
  get_or_init_dh_ratchet_state, enter_dh, step_sending, rotate, rotate_every, next_send_dh_key,
  bytes_equal, is_bytes, derive_recv_key_at_index, recv_candidates, stepped_candidate,
  try_candidates, received,
}
use nkc.Ratchet.Chain.{key_for_behind, key_for_next, derive_recv_key_at_index_lem}

pub bytes_equal_refl : (b : Bytes) → bytes_equal b b ≡ true
unfolding bytes_equal
bytes_equal_refl [] = refl
bytes_equal_refl (x ∷ xs) = ground (arith, bytes_equal_refl xs)

module _ (S : Sodium) where
  send_i-rotate : (priv : Bytes) (s : DhRatchetStateV2) → (rotate S priv s).send_i < rotate_every
  unfolding rotate step_sending
  send_i-rotate priv s = ground arith

  -- No message is sent under an index of fifty or more, and its key pair is announced with it.
  pub next_send_dh_key_bounds :
      (base init_priv rotated_priv : Bytes) (stored : Option DhRatchetStateV2)
      → let (key, header, s) = next_send_dh_key S base init_priv rotated_priv stored in
        (header.i < rotate_every) × (s.send_i ≡ header.i + 1) × (header.dh ≡ some s.dh_self_pub)
  unfolding next_send_dh_key
  next_send_dh_key_bounds base init_priv rotated_priv stored = (
    send_i-rotate rotated_priv (enter_dh S (get_or_init_dh_ratchet_state S base init_priv stored)),
    refl,
    refl,
  )

  -- From two states with one root key, each with the public key of its private one, the results of
  -- the step of the one and the swapped step of the other have one root key, and the chains cross.
  -- Of its own step a sender keeps only the root key and the sending chain.
  pub dh_step_agree :
      (s t : DhRatchetStateV2)
      → s.rk ≡ t.rk
      → s.dh_self_pub ≡ S.public_key s.dh_self_priv
      → t.dh_self_pub ≡ S.public_key t.dh_self_priv
      → let a = dh_step S s t.dh_self_pub false in
        let b = dh_step S t s.dh_self_pub true in
        (a.rk ≡ b.rk) × (a.send_ck ≡ b.recv_ck) × (a.recv_ck ≡ b.send_ck)
  unfolding dh_step
  dh_step_agree s t e p q =
      rw (p, q, e, S.scalarmult_comm s.dh_self_priv t.dh_self_priv) (refl, refl, refl)

  -- A candidate that knows the key of the header, unless the key is about to be stored.
  abbrev pub Knows : Bool → Bytes → Candidate → Type 0
  Knows changed remote c = changed ≡ false → is_bytes c.state.dh_remote_pub remote ≡ true

  abbrev pub Commits : Bytes → ℕ → Received → Type 0
  Commits remote i r = (is_bytes r.commit.dh_remote_pub remote ≡ true) × (r.commit.recv_i ≡ i + 1)

  received-Commits :
      (c : Candidate) (changed : Bool) (remote : Bytes) (i : ℕ) (d : Derived)
      → Knows changed remote c
      → d.next_recv_i ≡ i + 1
      → Commits remote i (received S c changed remote d)
  unfolding received
  received-Commits c true remote i d k e = (bytes_equal_refl remote, e)
  received-Commits c false remote i d k e = (k refl, e)

  pub try_candidates-Commits :
      (cs : List Candidate) (changed : Bool) (remote : Bytes) (i max_skip : ℕ) (r : Received)
      → All (Knows changed remote) cs
      → try_candidates S cs changed remote i max_skip ≡ some r
      → Commits remote i r
  unfolding try_candidates
  try_candidates-Commits [] changed remote i max_skip r k h = cc
  try_candidates-Commits (c ∷ cs) changed remote i max_skip r k h =
      by_key (derive_recv_key_at_index S c.state.recv_ck c.state.recv_i i max_skip)
        (try_candidates-Commits cs changed remote i max_skip r k.1) refl h
    where
      by_key :
          (o : Option Derived)
          → (try_candidates S cs changed remote i max_skip ≡ some r → Commits remote i r)
          → derive_recv_key_at_index S c.state.recv_ck c.state.recv_i i max_skip ≡ o
          → elim o [
            | none ↦ try_candidates S cs changed remote i max_skip
            | some d ↦ some (received S c changed remote d)
          ]
            ≡ some r
          → Commits remote i r
      by_key none tail e h' = tail h'
      by_key (some d) tail e h' =
          let next =
            key_for_next S c.state.recv_ck c.state.recv_i i max_skip d (
              sym (derive_recv_key_at_index_lem S c.state.recv_ck c.state.recv_i i max_skip) ∙ e) in
          let same : received S c changed remote d ≡ r = cc in
          subst (Commits remote i) same (received-Commits c changed remote i d k.0 next)

  pub recv_candidates_know :
      (s : DhRatchetStateV2) (remote : Bytes)
      → All (Knows (not (is_bytes s.dh_remote_pub remote)) remote) (recv_candidates S s remote)
  unfolding recv_candidates stepped_candidate
  recv_candidates_know s remote = (λ e. ground arith, second _)
    where
      second :
          (b : Bool)
          → All
              (Knows (not (is_bytes s.dh_remote_pub remote)) remote)
              (if b then stepped_candidate S s remote ∷ [] else [])
      second true = (λ e. bytes_equal_refl remote, tt)
      second false = tt

  pub single_candidate :
      (c : DhRatchetStateV2) (remote : Bytes)
      → is_bytes c.dh_remote_pub remote ≡ true
      → c.mode ≡ Mode.dh
      → recv_candidates S c remote ≡ record { state = c; prefer = c.mode } ∷ []
  unfolding recv_candidates
  single_candidate c remote known m = ground arith

  pub committed_defers :
      (c : DhRatchetStateV2) (remote : Bytes) (changed : Bool) (earlier max_skip : ℕ)
      → is_bytes c.dh_remote_pub remote ≡ true
      → c.mode ≡ Mode.dh
      → earlier < c.recv_i
      → try_candidates S (recv_candidates S c remote) changed remote earlier max_skip ≡ none
  unfolding try_candidates
  committed_defers c remote changed earlier max_skip known m late =
      let behind =
        derive_recv_key_at_index_lem S c.recv_ck c.recv_i earlier max_skip
        ∙ key_for_behind S c.recv_ck c.recv_i earlier max_skip late in
      rw (single_candidate c remote known m, behind, try_candidates)
