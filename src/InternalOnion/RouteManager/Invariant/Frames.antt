-- ===== src/InternalOnion/RouteManager/Invariant/Frames.antt =====
-- What the handlers of acknowledgements leave alone, and how they move the entries of builds.
use nkc.Base.{
  ℕ, ◌≡◌, inl, inr, ◌∷◌, String, if◌then◌else◌, All, All-append, arith, Option-cases, Bool-cases,
  not, str_eq,
}
use nkc.InternalOnion.{HopAck}
use nkc.InternalOnion.RouteManager.{
  Build, resolved, rejected, Config, Env, Manager, find_ack, delete_ack, is_circuit,
  handle_hello_ack, ack_timeout,
}
use nkc.InternalOnion.RouteManager.Steps.{send_hello}
use nkc.InternalOnion.RouteManager.Invariant.Lists.{
  EntryFits, JobFits, OutcomeFits, All-delete_ack, All-find_ack,
}

-- All but the entries, the queue and the log of two managers is the same.
pub record Same (m n : Manager) : Type 0 where
  pub running : n.running ≡ m.running
  pub desired_hops : n.desired_hops ≡ m.desired_hops
  pub route : n.route ≡ m.route
  pub circuit : n.circuit ≡ m.circuit
  pub keepalive_timer : n.keepalive_timer ≡ m.keepalive_timer
  pub rebuild_timer : n.rebuild_timer ≡ m.rebuild_timer
  pub backoff_index : n.backoff_index ≡ m.backoff_index
  pub pending_pings : n.pending_pings ≡ m.pending_pings

-- Every build that waits or goes on is one of a route with `d` hops.
pub record Fits (d : ℕ) (m : Manager) : Type 0 where
  pub entries : All (EntryFits d) m.pending_acks
  pub queue : All (JobFits d) m.jobs

pub handle_hello_ack-Same : (a : HopAck) (m : Manager) → Same m (handle_hello_ack a m)
unfolding handle_hello_ack
handle_hello_ack-Same a m = ground arith

pub ack_timeout-Same : (i : ℕ) (m : Manager) → Same m (ack_timeout i m)
unfolding ack_timeout
ack_timeout-Same i m = ground arith

pub send_hello-Same :
    (c : Config) (e : Env) (b : Build) (peer : String) (m : Manager)
    → Same m (send_hello c e b peer m)
unfolding send_hello handle_hello_ack
send_hello-Same c e b peer m = ground arith

pub ack_timeout-Fits : (i d : ℕ) (m : Manager) → Fits d m → Fits d (ack_timeout i m)
unfolding ack_timeout
ack_timeout-Fits i d m f = elim (Option-cases (find_ack i m.pending_acks)) [
  | inl e ↦ rw (e, ack_timeout) f
  | inr (p, e) ↦
      rw (e, ack_timeout)
        (record {
          entries = All-delete_ack (EntryFits d) i m.pending_acks f.entries;
          queue = All-append (JobFits d) m.jobs _ f.queue (tt, tt);
        })
]

outcome_fits :
    (d : ℕ) (b : Build) (a : HopAck) (peer : String)
    → b.desired_hops ≡ d
    → OutcomeFits d b (
        if not a.accepted
        then rejected "HOP_ACK_REJECTED"
        else if str_eq a.relay_peer_id peer
        then resolved a
        else rejected "HOP_ACK_PEER_MISMATCH")
outcome_fits d b a peer h = ground arith

pub handle_hello_ack-Fits :
    (a : HopAck) (d : ℕ) (m : Manager) → Fits d m → Fits d (handle_hello_ack a m)
unfolding handle_hello_ack
handle_hello_ack-Fits a d m f = elim (Bool-cases (is_circuit m.circuit a.circuit_id)) [
  | inr other ↦ rw other f
  | inl current ↦ elim (Option-cases (find_ack a.hop_index m.pending_acks)) [
    | inl e ↦ rw (current, e, handle_hello_ack) f
    | inr (p, e) ↦
        let fits = All-find_ack (EntryFits d) a.hop_index m.pending_acks p f.entries e in
        rw (current, e, handle_hello_ack)
          (record {
            entries = All-delete_ack (EntryFits d) a.hop_index m.pending_acks f.entries;
            queue =
                All-append (JobFits d) m.jobs _ f.queue
                  (outcome_fits d p.build a p.peer_id fits, tt);
          })
  ]
]

pub send_hello-Fits :
    (c : Config) (e : Env) (b : Build) (peer : String) (d : ℕ) (m : Manager)
    → b.desired_hops ≡ d
    → Fits d m
    → Fits d (send_hello c e b peer m)
unfolding send_hello
send_hello-Fits c e b peer d m h f = elim (Bool-cases c.emits) [
  | inl emits ↦ rw emits (record { entries = entries; queue = f.queue })
  | inr alone ↦
      rw alone (handle_hello_ack-Fits _ d _ (record { entries = entries; queue = f.queue }))
]
  where
    entries : All (EntryFits d) (
        record { hop_index = b.hop_index; peer_id = peer; build = b }
        ∷ delete_ack b.hop_index m.pending_acks)
    entries = (h, All-delete_ack (EntryFits d) b.hop_index m.pending_acks f.entries)
