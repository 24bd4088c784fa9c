-- ===== src/Ratchet/Exchange/Sends.antt =====
-- What a sender sends under a new key: nextSendDhKey of src/crypto/ratchet.ts.
use nkc.Base.{
  ◌≤◌, ◌<◌, ◌≡◌, refl, ap, ◌∙◌, Bool, true, false, Option, none, some, leb, if◌then◌else◌, arith,
}
use nkc.Ratchet.{
  Bytes, Sodium, HeaderV2, DhRatchetStateV2, Mode, dh_step, msg_key, next_ck,
  get_or_init_dh_ratchet_state, enter_dh, step_sending, rotate, rotate_every, next_send_dh_key,
}

module _ (S : Sodium) where
  -- What a sender that turns sends and becomes, with the private key that it then has.
  pub record IsTurned (s t : DhRatchetStateV2) (priv : Bytes)
      (sent : Bytes × HeaderV2 × DhRatchetStateV2) : Type 0 where
    pub at_start : sent.1.i ≡ 0
    pub announced : sent.1.dh ≡ some (S.public_key priv)
    pub first_key :
        sent.0
        ≡ msg_key S (dh_step S (record s { dh_self_priv = priv }) t.dh_self_pub false).send_ck
    pub new_root : sent.2.rk ≡ (dh_step S (record s { dh_self_priv = priv }) t.dh_self_pub false).rk
    pub new_chain :
        sent.2.send_ck
        ≡ next_ck S (dh_step S (record s { dh_self_priv = priv }) t.dh_self_pub false).send_ck
    pub counted : sent.2.send_i ≡ 1
    pub own_key : sent.2.dh_self_pub ≡ S.public_key priv
    pub entered : sent.2.mode ≡ Mode.dh

  -- enterDh over what it looks at.
  unfoldable enter_with : DhRatchetStateV2 → Option Bytes → Mode → DhRatchetStateV2
  enter_with s none mode = s
  enter_with s (some remote) Mode.dh = s
  enter_with s (some remote) Mode.sym = record s {
    rk = (dh_step S s remote false).rk;
    send_ck = (dh_step S s remote false).send_ck;
    send_i = 0;
    pn = some s.send_i;
    mode = Mode.dh;
  }

  enter_dh_lem : (s : DhRatchetStateV2) → enter_dh S s ≡ enter_with s s.dh_remote_pub s.mode
  unfolding enter_dh enter_with
  enter_dh_lem s = by_fields s.dh_remote_pub s.mode
    where
      by_fields :
          (o : Option Bytes) (mode : Mode)
          → elim o as (λ x. DhRatchetStateV2) [
            | none ↦ s
            | some remote ↦ elim mode as (λ x. DhRatchetStateV2) [
              | Mode.dh ↦ s
              | Mode.sym ↦
                  let stepped = dh_step S s remote false in
                  record s {
                    rk = stepped.rk;
                    send_ck = stepped.send_ck;
                    send_i = 0;
                    pn = some s.send_i;
                    mode = Mode.dh;
                  }
            ]
          ]
            ≡ enter_with s o mode
      by_fields none mode = refl
      by_fields (some remote) Mode.dh = refl
      by_fields (some remote) Mode.sym = refl

  entering :
      (s : DhRatchetStateV2) (remote : Bytes)
      → s.dh_remote_pub ≡ some remote
      → s.mode ≡ Mode.sym
      → enter_dh S s ≡ enter_with s (some remote) Mode.sym
  entering s remote known m = enter_dh_lem s ∙ (λ i. enter_with s (known i) (m i))

  entered_already : (s : DhRatchetStateV2) → s.mode ≡ Mode.dh → enter_dh S s ≡ s
  unfolding enter_with
  entered_already s m = enter_dh_lem s ∙ ap (enter_with s s.dh_remote_pub) m ∙ same s.dh_remote_pub
    where
      same : (o : Option Bytes) → enter_with s o Mode.dh ≡ s
      same none = refl
      same (some remote) = refl

  not_full :
      (fresh : Bytes) (s : DhRatchetStateV2)
      → leb rotate_every s.send_i ≡ false
      → rotate S fresh s ≡ s
  unfolding rotate
  not_full fresh s few = simp few refl

  renewed : (fresh : Bytes) (s : DhRatchetStateV2) (remote : Bytes) → DhRatchetStateV2
  renewed fresh s remote =
      let stepped = dh_step S (record s { dh_self_priv = fresh }) remote false in
      record s {
        dh_self_priv = fresh;
        dh_self_pub = S.public_key fresh;
        rk = stepped.rk;
        send_ck = stepped.send_ck;
        send_i = 0;
        pn = some s.send_i;
        mode = Mode.dh;
      }

  stepping :
      (s : DhRatchetStateV2) (remote : Bytes)
      → s.dh_remote_pub ≡ some remote
      → step_sending S s ≡ record s {
        rk = (dh_step S s remote false).rk;
        send_ck = (dh_step S s remote false).send_ck;
        mode = Mode.dh;
      }
  unfolding step_sending
  stepping s remote known = λ i. elim (known i) as (λ x. DhRatchetStateV2) [
    | none ↦ s
    | some q ↦ record s {
      rk = (dh_step S s q false).rk;
      send_ck = (dh_step S s q false).send_ck;
      mode = Mode.dh;
    }
  ]

  renewing :
      (fresh : Bytes) (s : DhRatchetStateV2) (remote : Bytes)
      → s.dh_remote_pub ≡ some remote
      → leb rotate_every s.send_i ≡ true
      → rotate S fresh s ≡ renewed fresh s remote
  unfolding rotate renewed dh_step
  renewing fresh s remote known many =
      let start : DhRatchetStateV2 = record s {
        dh_self_priv = fresh;
        dh_self_pub = S.public_key fresh;
        pn = some s.send_i;
        send_i = 0;
      } in
      ap (λ (b : Bool). if b then step_sending S start else s) many ∙ stepping start remote known

  pub enters :
      (base init_priv fresh : Bytes) (s t : DhRatchetStateV2)
      → s.dh_remote_pub ≡ some t.dh_self_pub
      → s.dh_self_pub ≡ S.public_key s.dh_self_priv
      → s.mode ≡ Mode.sym
      → IsTurned s t s.dh_self_priv (next_send_dh_key S base init_priv fresh (some s))
  unfolding next_send_dh_key get_or_init_dh_ratchet_state enter_with
  enters base init_priv fresh s t remote own m = rw (entering s t.dh_self_pub remote m) (record {
    at_start = refl;
    announced = ap some own;
    first_key = refl;
    new_root = refl;
    new_chain = refl;
    counted = refl;
    own_key = own;
    entered = refl;
  })

  pub renews :
      (base init_priv fresh : Bytes) (s t : DhRatchetStateV2)
      → s.dh_remote_pub ≡ some t.dh_self_pub
      → s.mode ≡ Mode.dh
      → rotate_every ≤ s.send_i
      → IsTurned s t fresh (next_send_dh_key S base init_priv fresh (some s))
  unfolding next_send_dh_key get_or_init_dh_ratchet_state renewed
  renews base init_priv fresh s t remote m many =
      rw (entered_already s m, renewing fresh s t.dh_self_pub remote (ground arith))
        (record {
          at_start = refl;
          announced = refl;
          first_key = refl;
          new_root = refl;
          new_chain = refl;
          counted = refl;
          own_key = refl;
          entered = refl;
        })

  pub stays :
      (s : DhRatchetStateV2) (fresh : Bytes)
      → s.mode ≡ Mode.dh
      → s.send_i < rotate_every
      → rotate S fresh (enter_dh S s) ≡ s
  stays s fresh m few = rw (entered_already s m) (not_full fresh s (ground arith))
