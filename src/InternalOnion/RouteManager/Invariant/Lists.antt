-- ===== src/InternalOnion/RouteManager/Invariant/Lists.antt =====
-- What the list operations of the route manager keep.
use nkc.Base.{
  ℕ, zero, suc, ◌≡◌, refl, ap, List, [], ◌∷◌, map, String, length, All, arith, some, ◌==◌, subst,
  Bool-cases, inl, inr,
}
use nkc.InternalOnion.{HopState}
use nkc.InternalOnion.RouteManager.{
  Build, PendingAck, Job, Outcome, resolved, rejected, create_hops, create_hops_from,
  compute_established_hops, update_hop, find_ack, delete_ack, reject_all,
}
use nkc.InternalOnion.RouteManager.Steps.{revived}

pub length-update_hop :
    (i : ℕ) (f : HopState → HopState) (hs : List HopState) → length (update_hop i f hs) ≡ length hs
unfolding update_hop
length-update_hop i f [] = refl
length-update_hop i f (h ∷ hs) = ap suc (length-update_hop i f hs)

pub length-map-revived : (hs : List HopState) → length (map revived hs) ≡ length hs
length-map-revived [] = refl
length-map-revived (h ∷ hs) = ap suc (length-map-revived hs)

length-create_hops_from : (i n : ℕ) (peers : List String) → length (create_hops_from i n peers) ≡ n
unfolding create_hops_from
length-create_hops_from i zero peers = refl
length-create_hops_from i (suc n) peers = ap suc (length-create_hops_from (suc i) n _)

pub length-create_hops : (n : ℕ) (peers : List String) → length (create_hops n peers) ≡ n
unfolding create_hops
length-create_hops n peers = length-create_hops_from 1 n peers

established-create_hops_from :
    (i n : ℕ) (peers : List String) → compute_established_hops (create_hops_from i n peers) ≡ 0
unfolding create_hops_from compute_established_hops
established-create_hops_from i zero peers = refl
established-create_hops_from i (suc n) peers =
    omega (arith, established-create_hops_from (suc i) n _)

-- New hops count as none.
pub established-create_hops :
    (n : ℕ) (peers : List String) → compute_established_hops (create_hops n peers) ≡ 0
unfolding create_hops
established-create_hops n peers = established-create_hops_from 1 n peers

-- A build of a route with this many hops.
abbrev pub EntryFits : ℕ → PendingAck → Type 0
EntryFits d p = p.build.desired_hops ≡ d

-- A job that goes on with a build of such a route, or one that gives a build up.
abbrev pub OutcomeFits : ℕ → Build → Outcome → Type 0
OutcomeFits d b (resolved a) = b.desired_hops ≡ d
OutcomeFits d b (rejected code) = Unit

abbrev pub JobFits : ℕ → Job → Type 0
JobFits d j = OutcomeFits d j.build j.outcome

pub All-delete_ack :
    (P : PendingAck → Type 0) (i : ℕ) (ps : List PendingAck) → All P ps → All P (delete_ack i ps)
unfolding delete_ack
All-delete_ack P i [] h = tt
All-delete_ack P i (p ∷ ps) h = ground (arith, All-delete_ack P i ps h.1)

pub All-find_ack :
    (P : PendingAck → Type 0) (i : ℕ) (ps : List PendingAck) (p : PendingAck)
    → All P ps
    → find_ack i ps ≡ some p
    → P p
unfolding find_ack
All-find_ack P i [] p h e = cc
All-find_ack P i (q ∷ qs) p h e = elim (Bool-cases (q.hop_index == i)) [
  | inl hit ↦ let same : q ≡ p = ground arith in subst P same h.0
  | inr miss ↦ All-find_ack P i qs p h.1 (ground arith)
]

pub All-reject_all :
    (d : ℕ) (code : String) (ps : List PendingAck) → All (JobFits d) (reject_all code ps)
All-reject_all d code [] = tt
All-reject_all d code (p ∷ ps) = (tt, All-reject_all d code ps)
