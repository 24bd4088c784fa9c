-- ===== src/Ratchet/Replays.antt =====
-- A message of the second version of the ratchet that comes again: src/crypto/ratchet.ts.
use nkc.Base.{
  ℕ, ◌≤◌, ◌<◌, ◌≡◌, refl, sym, ap, subst, inl, inr, Bool, true, false, not, Option, none, some,
  List, [], ◌∷◌, ltb, arith, All, Bool-cases, Option-cases,
}
use nkc.Ratchet.{
  Bytes, Sodium, HeaderV2, DhRatchetStateV2, Mode, Received, get_or_init_dh_ratchet_state, enter_dh,
  step_sending, rotate, next_send_dh_key, try_recv_dh_key, is_bytes, derive_recv_key_at_index,
  recv_candidates, try_candidates, received,
}
use nkc.Ratchet.Steps.{
  try_candidates-Commits, recv_candidates_know, single_candidate, committed_defers,
}

-- A message comes in, and its state is committed if it opens; or one is sent.
pub data Use : Type 0 where
  comes : (header : HeaderV2) → (max_skip : ℕ) → (opens : Bool) → Use
  sends : (init_priv rotated_priv : Bytes) → Use

-- A message that comes in under the named key, or one that is sent.
abbrev pub IsUnder : Bytes → Use → Type 0
IsUnder remote (comes header max_skip opens) = header.dh ≡ some remote
IsUnder remote (sends init_priv rotated_priv) = Unit

abbrev pub commit_if : Bool → Option Received → DhRatchetStateV2 → DhRatchetStateV2
commit_if true (some r) s = r.commit
commit_if true none s = s
commit_if false o s = s

module _ (S : Sodium) (base : Bytes) where
  unfoldable pub use_once : Use → DhRatchetStateV2 → DhRatchetStateV2
  unfolding try_recv_dh_key next_send_dh_key
  use_once (comes header max_skip opens) s =
      let (o, t) = try_recv_dh_key S base [] header max_skip (some s) in commit_if opens o t
  use_once (sends init_priv rotated_priv) s =
      (next_send_dh_key S base init_priv rotated_priv (some s)).2

  unfoldable pub use_each : List Use → DhRatchetStateV2 → DhRatchetStateV2
  unfolding use_once
  use_each [] s = s
  use_each (u ∷ us) s = use_each us (use_once u s)

  -- The exchange is entered, the key is known, and the index has been passed.
  record IsPast (remote : Bytes) (i : ℕ) (s : DhRatchetStateV2) : Type 0 where
    known : is_bytes s.dh_remote_pub remote ≡ true
    entered : s.mode ≡ Mode.dh
    passed : i < s.recv_i

  -- What a message under a known key commits stays in the exchange.
  commit-mode :
      (s : DhRatchetStateV2) (remote : Bytes) (changed : Bool) (j max_skip : ℕ) (r : Received)
      → is_bytes s.dh_remote_pub remote ≡ true
      → s.mode ≡ Mode.dh
      → try_candidates S (recv_candidates S s remote) changed remote j max_skip ≡ some r
      → r.commit.mode ≡ Mode.dh
  unfolding try_candidates received
  commit-mode s remote changed j max_skip r known m h =
      let single = rw (single_candidate S s remote known m) at h in
      elim (Option-cases (derive_recv_key_at_index S s.recv_ck s.recv_i j max_skip)) [
        | inl e ↦ let missing = rw (e, try_candidates) at single in cc
        | inr (d, e) ↦ let found = rw (e, try_candidates) at single in ground (arith, found, m)
      ]

  accepted-IsPast :
      (remote : Bytes) (i j max_skip : ℕ) (s : DhRatchetStateV2) (r : Received)
      → IsPast remote i s
      → try_candidates S
          (recv_candidates S s remote)
          (not (is_bytes s.dh_remote_pub remote))
          remote
          j
          max_skip
        ≡ some r
      → IsPast remote i r.commit
  accepted-IsPast remote i j max_skip s r p h =
      let changed = not (is_bytes s.dh_remote_pub remote) in
      let (known, next) =
        try_candidates-Commits S (recv_candidates S s remote) changed remote j max_skip r
          (recv_candidates_know S s remote) h in
      record {
        known = known;
        entered = commit-mode s remote changed j max_skip r p.known p.entered h;
        passed = elim (Bool-cases (ltb j s.recv_i)) [
          | inl late ↦
              let deferred =
                committed_defers S s remote changed j max_skip p.known p.entered
                  (ground (arith, late)) in
              absurd (ground (arith, deferred, h))
          | inr ahead ↦ ground (arith, p.passed, next, ahead)
        ];
      }

  comes-IsPast :
      (remote : Bytes) (i j max_skip : ℕ) (pn : Option ℕ) (opens : Bool) (s : DhRatchetStateV2)
      → IsPast remote i s
      → IsPast remote i
          (use_once (comes (record { i = j; dh = some remote; pn = pn }) max_skip opens) s)
  unfolding use_once try_recv_dh_key get_or_init_dh_ratchet_state
  comes-IsPast remote i j max_skip pn opens s p =
      by_answer
        (try_candidates S (recv_candidates S s remote) (not (is_bytes s.dh_remote_pub remote))
          remote j max_skip)
        opens refl
    where
      by_answer :
          (o : Option Received) (opens : Bool)
          → try_candidates S
              (recv_candidates S s remote)
              (not (is_bytes s.dh_remote_pub remote))
              remote
              j
              max_skip
            ≡ o
          → IsPast remote i (commit_if opens o s)
      by_answer none true e = p
      by_answer none false e = p
      by_answer (some r) true e = accepted-IsPast remote i j max_skip s r p e
      by_answer (some r) false e = p

  -- Sending changes neither the receiving side nor leaves the exchange.
  sends-IsPast :
      (remote : Bytes) (i : ℕ) (init_priv rotated_priv : Bytes) (s : DhRatchetStateV2)
      → IsPast remote i s
      → IsPast remote i (use_once (sends init_priv rotated_priv) s)
  unfolding use_once next_send_dh_key get_or_init_dh_ratchet_state enter_dh rotate step_sending
  sends-IsPast remote i init_priv rotated_priv s p = record {
    known = ground (arith, p.known, p.entered);
    entered = ground (arith, p.known, p.entered);
    passed = ground (arith, p.known, p.entered, p.passed);
  }

  use_each-IsPast :
      (us : List Use) (remote : Bytes) (i : ℕ) (s : DhRatchetStateV2)
      → All (IsUnder remote) us
      → IsPast remote i s
      → IsPast remote i (use_each us s)
  unfolding use_each
  use_each-IsPast [] remote i s under p = p
  use_each-IsPast (comes header max_skip opens ∷ us) remote i s under p =
      let first = comes-IsPast remote i header.i max_skip header.pn opens s p in
      let key : record { i = header.i; dh = some remote; pn = header.pn } ≡ header =
        ap (λ o. record header { dh = o }) (sym under.0) in
      use_each-IsPast us remote i (use_once (comes header max_skip opens) s) under.1
        (subst (λ h. IsPast remote i (use_once (comes h max_skip opens) s)) key first)
  use_each-IsPast (sends init_priv rotated_priv ∷ us) remote i s under p =
      use_each-IsPast us remote i (use_once (sends init_priv rotated_priv) s) under.1
        (sends-IsPast remote i init_priv rotated_priv s p)

  -- Once a message has been accepted and its state, one of the exchange, has been committed, the
  -- header of that message, and any with the same key and an earlier index, is deferred, whatever
  -- further messages under the same key come in, open or not, and whatever messages are sent.
  pub try_recv_dh_key_replay :
      (init_priv remote : Bytes) (i earlier max_skip max_skip' : ℕ) (pn pn' : Option ℕ)
      (stored : Option DhRatchetStateV2) (r : Received) (us : List Use)
      → (try_recv_dh_key S base init_priv
          (record { i = i; dh = some remote; pn = pn })
          max_skip
          stored).0
        ≡ some r
      → r.commit.mode ≡ Mode.dh
      → earlier ≤ i
      → All (IsUnder remote) us
      → (try_recv_dh_key S base init_priv
          (record { i = earlier; dh = some remote; pn = pn' })
          max_skip'
          (some (use_each us r.commit))).0
        ≡ none
  unfolding try_recv_dh_key get_or_init_dh_ratchet_state
  try_recv_dh_key_replay init_priv remote i earlier max_skip max_skip' pn pn' stored r us h m le
        under =
      let s = get_or_init_dh_ratchet_state S base init_priv stored in
      let (known, next) =
        try_candidates-Commits S (recv_candidates S s remote)
          (not (is_bytes s.dh_remote_pub remote)) remote i max_skip r
          (recv_candidates_know S s remote) h in
      let p =
        use_each-IsPast us remote i r.commit under
          (record { known = known; entered = m; passed = omega (arith, next) }) in
      committed_defers S (use_each us r.commit) remote _ earlier max_skip' p.known p.entered
        (omega (arith, p.passed))
