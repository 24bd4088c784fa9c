-- ===== src/Ratchet.antt =====
-- The message ratchets: src/crypto/ratchet.ts. libsodium is not part of the repository: its hash,
-- its scalar multiplication and the public key of a private one are a record of operations with the
-- law of the key exchange. A function takes the state that the store of src/security/ratchetStore.ts
-- holds for the conversation and returns the state that it leaves there. Random private keys are
-- arguments. The public key of a header is the bytes that its text stands for, `none` where the text
-- is missing or is not base64.
pub mod Chain
pub mod Messages
pub mod Steps
pub mod Replays
pub mod Exchange
pub mod Replies
use Prim.Native.Char.{code}
use nkc.Base.{
  ℕ, zero, suc, ◌+◌, ◌-◌, ◌≡◌, Bool, true, false, ◌&&◌, ◌||◌, not, Option, none, some, List, [],
  ◌∷◌, ◌++◌, String, ltb, leb, ◌==◌, if◌then◌else◌, or_default, is_some,
}

abbrev pub Bytes : Type 0
Bytes = List ℕ

pub record Sodium : Type 0 where
  pub generichash : Bytes → Bytes
  pub scalarmult : Bytes → Bytes → Bytes
  pub public_key : Bytes → Bytes
  pub scalarmult_comm : (a b : Bytes) → scalarmult a (public_key b) ≡ scalarmult b (public_key a)

-- `textEncoder.encode` of the labels, which are ASCII.
abbrev pub codes : String → Bytes
codes String.[] = []
codes (String.◌∷◌ c s) = code c ∷ codes s

abbrev concat_bytes : List Bytes → Bytes
concat_bytes [] = []
concat_bytes (chunk ∷ chunks) = chunk ++ concat_bytes chunks

unfoldable pub bytes_equal : Bytes → Bytes → Bool
bytes_equal [] [] = true
bytes_equal [] (y ∷ ys) = false
bytes_equal (x ∷ xs) [] = false
bytes_equal (x ∷ xs) (y ∷ ys) = (x == y) && bytes_equal xs ys

-- `bytesEqual` on values that may be absent.
abbrev pub is_bytes : Option Bytes → Bytes → Bool
is_bytes none b = false
is_bytes (some a) b = bytes_equal a b

abbrev pub rotate_every : ℕ
rotate_every = 50

pub record RatchetStateV1 : Type 0 where
  pub ck : Bytes
  pub send_i : ℕ
  pub recv_i : ℕ

pub data Mode : Type 0 where
  sym dh : Mode

pub record DhRatchetStateV2 : Type 0 where
  pub rk : Bytes
  pub dh_self_priv : Bytes
  pub dh_self_pub : Bytes
  pub dh_remote_pub : Option Bytes
  pub send_ck : Bytes
  pub send_i : ℕ
  pub recv_ck : Bytes
  pub recv_i : ℕ
  pub pn : Option ℕ
  pub mode : Mode

pub record HeaderV2 : Type 0 where
  pub i : ℕ
  pub dh : Option Bytes
  pub pn : Option ℕ

pub record Derived : Type 0 where
  pub msg_key : Bytes
  pub next_ck : Bytes
  pub next_recv_i : ℕ

-- The chain keys of one step of the key exchange.
pub record Stepped : Type 0 where
  pub rk : Bytes
  pub send_ck : Bytes
  pub recv_ck : Bytes

pub record Candidate : Type 0 where
  pub state : DhRatchetStateV2
  pub prefer : Mode

-- What `tryRecvDhKey` hands out: the key, and the state that its `commit` stores.
pub record Received : Type 0 where
  pub msg_key : Bytes
  pub commit : DhRatchetStateV2

abbrev pub is_dh : Mode → Bool
is_dh dh = true
is_dh sym = false

module _ (S : Sodium) where
  open S use {generichash, scalarmult, public_key}

  pub hash_parts : String → List Bytes → Bytes
  hash_parts label parts = generichash (concat_bytes (codes "nkc:ratchet:v1" ∷ codes label ∷ parts))

  abbrev pub hash : String → Bytes → Bytes
  hash label bytes = hash_parts label (bytes ∷ [])

  -- The two results of `deriveMsgKey`.
  unfoldable pub msg_key : Bytes → Bytes
  msg_key ck = hash "nkc:ratchet:msg" ck

  unfoldable pub next_ck : Bytes → Bytes
  next_ck ck = hash "nkc:ratchet:ck" ck

  unfoldable pub init_ck : Bytes → Bytes
  init_ck base = hash "nkc:ratchet:init" base

  unfoldable pub get_or_init_ratchet_state : Bytes → Option RatchetStateV1 → RatchetStateV1
  get_or_init_ratchet_state base stored =
      or_default stored (record { ck = init_ck base; send_i = 0; recv_i = 0 })

  -- The key, the index of the header, and the state.
  unfoldable pub next_send_key : Bytes → Option RatchetStateV1 → Bytes × ℕ × RatchetStateV1
  unfolding get_or_init_ratchet_state
  next_send_key base stored =
      let s = get_or_init_ratchet_state base stored in
      (msg_key s.ck, s.send_i, record s { ck = next_ck s.ck; send_i = s.send_i + 1 })

  -- `while (cursorI < targetI && steps < maxSkip)`, which both receivers run. The fuel is the number
  -- of steps that may still be made.
  unfoldable pub skip : ℕ → Bytes → (cursor target : ℕ) → Bytes × ℕ
  skip zero ck cursor target = (ck, cursor)
  skip (suc steps) ck cursor target = elim (ltb cursor target) [
    | true ↦ skip steps (next_ck ck) (cursor + 1) target
    | false ↦ (ck, cursor)
  ]

  -- `none` stands for a deferred message.
  unfoldable pub derive_recv_key_at_index : Bytes → (recv_i target max_skip : ℕ) → Option Derived
  derive_recv_key_at_index ck recv_i target max_skip =
      if ltb target recv_i
      then none
      else (let (cursor_ck, cursor_i) = skip max_skip ck recv_i target in
          if ltb cursor_i target
          then none
          else some (record {
            msg_key = msg_key cursor_ck;
            next_ck = next_ck cursor_ck;
            next_recv_i = cursor_i + 1;
          }))

  unfoldable pub try_recv_key :
      Bytes → (target max_skip : ℕ) → Option RatchetStateV1 → Option Bytes × RatchetStateV1
  unfolding get_or_init_ratchet_state
  try_recv_key base target max_skip stored =
      let s = get_or_init_ratchet_state base stored in
      if ltb target s.recv_i
      then (none, s)
      else (let (ck, recv_i) = skip max_skip s.ck s.recv_i target in
          if ltb recv_i target
          then (none, s)
          else (some (msg_key ck), record s { ck = next_ck ck; recv_i = recv_i + 1 }))

  -- `kdfRk` and the exchange of `dhStep`.
  unfoldable pub dh_step : DhRatchetStateV2 → Bytes → (swap : Bool) → Stepped
  dh_step s remote swap =
      let shared = scalarmult s.dh_self_priv remote in
      let tmp = hash_parts "nkc:dr:rk" (s.rk ∷ shared ∷ []) in
      let send = hash_parts "nkc:dr:send" (tmp ∷ []) in
      let recv = hash_parts "nkc:dr:recv" (tmp ∷ []) in
      record {
        rk = hash_parts "nkc:dr:rk2" (tmp ∷ []);
        send_ck = if swap then recv else send;
        recv_ck = if swap then send else recv;
      }

  unfoldable pub get_or_init_dh_ratchet_state :
      Bytes → (fresh_priv : Bytes) → Option DhRatchetStateV2 → DhRatchetStateV2
  get_or_init_dh_ratchet_state base fresh_priv stored = or_default stored (record {
    rk = hash_parts "nkc:dr:init" (base ∷ []);
    dh_self_priv = fresh_priv;
    dh_self_pub = public_key fresh_priv;
    dh_remote_pub = none;
    send_ck = init_ck base;
    send_i = 0;
    recv_ck = init_ck base;
    recv_i = 0;
    pn = none;
    mode = sym;
  })

  -- The first exchange, once the key of the other side is known.
  pub enter_dh : DhRatchetStateV2 → DhRatchetStateV2
  enter_dh s = elim s.dh_remote_pub [
    | none ↦ s
    | some remote ↦ elim s.mode [
      | dh ↦ s
      | sym ↦
          let stepped = dh_step s remote false in
          record s {
            rk = stepped.rk;
            send_ck = stepped.send_ck;
            send_i = 0;
            pn = some s.send_i;
            mode = dh;
          }
    ]
  ]

  step_sending : DhRatchetStateV2 → DhRatchetStateV2
  step_sending s = elim s.dh_remote_pub [
    | none ↦ s
    | some remote ↦
        let stepped = dh_step s remote false in
        record s { rk = stepped.rk; send_ck = stepped.send_ck; mode = dh }
  ]

  -- A new key pair after fifty messages.
  pub rotate : (fresh_priv : Bytes) → DhRatchetStateV2 → DhRatchetStateV2
  unfolding step_sending
  rotate fresh_priv s =
      if leb rotate_every s.send_i
      then step_sending (record s {
        dh_self_priv = fresh_priv;
        dh_self_pub = public_key fresh_priv;
        pn = some s.send_i;
        send_i = 0;
      })
      else s

  unfoldable pub next_send_dh_key :
      Bytes
      → (init_priv rotated_priv : Bytes) → Option DhRatchetStateV2
      → Bytes × HeaderV2 × DhRatchetStateV2
  unfolding get_or_init_dh_ratchet_state enter_dh rotate
  next_send_dh_key base init_priv rotated_priv stored =
      let s = rotate rotated_priv (enter_dh (get_or_init_dh_ratchet_state base init_priv stored)) in
      (
        msg_key s.send_ck,
        record { i = s.send_i; dh = some s.dh_self_pub; pn = s.pn },
        record s { send_ck = next_ck s.send_ck; send_i = s.send_i + 1; pn = none },
      )

  -- The states that are tried, in order.
  pub stepped_candidate : DhRatchetStateV2 → Bytes → Candidate
  stepped_candidate s remote =
      let stepped = dh_step s remote true in
      record {
        state = record s {
          rk = stepped.rk;
          send_ck = stepped.send_ck;
          recv_ck = stepped.recv_ck;
          send_i = 0;
          recv_i = 0;
          pn = some s.send_i;
          dh_remote_pub = some remote;
          mode = dh;
        };
        prefer = dh;
      }

  pub recv_candidates : DhRatchetStateV2 → Bytes → List Candidate
  unfolding stepped_candidate
  recv_candidates s remote =
      record { state = s; prefer = s.mode }
      ∷ (if not (is_bytes s.dh_remote_pub remote) || (not (is_dh s.mode) && is_some s.dh_remote_pub)
          then stepped_candidate s remote ∷ []
          else [])

  pub received : Candidate → (changed : Bool) → Bytes → Derived → Received
  received c changed remote d = record {
    msg_key = d.msg_key;
    commit = record c.state {
      recv_ck = d.next_ck;
      recv_i = d.next_recv_i;
      dh_remote_pub = if changed then some remote else c.state.dh_remote_pub;
      mode = if is_dh c.prefer then dh else c.state.mode;
    };
  }

  pub try_candidates :
      List Candidate → (changed : Bool) → Bytes → (i max_skip : ℕ) → Option Received
  unfolding received
  try_candidates [] changed remote i max_skip = none
  try_candidates (c ∷ cs) changed remote i max_skip =
      let rest = try_candidates cs changed remote i max_skip in
      elim (derive_recv_key_at_index c.state.recv_ck c.state.recv_i i max_skip) [
        | none ↦ rest
        | some d ↦ some (received c changed remote d)
      ]

  -- The state that is stored at once is that of `getOrInitDhRatchetState`; the rest waits for the
  -- commit.
  unfoldable pub try_recv_dh_key :
      Bytes
      → (init_priv : Bytes) → HeaderV2
      → (max_skip : ℕ) → Option DhRatchetStateV2
      → Option Received × DhRatchetStateV2
  unfolding get_or_init_dh_ratchet_state recv_candidates try_candidates
  try_recv_dh_key base init_priv header max_skip stored =
      let s = get_or_init_dh_ratchet_state base init_priv stored in
      elim header.dh [
        | none ↦ (none, s)
        | some remote ↦ (
          try_candidates (recv_candidates s remote) (not (is_bytes s.dh_remote_pub remote)) remote
              header.i max_skip,
          s,
        )
      ]
