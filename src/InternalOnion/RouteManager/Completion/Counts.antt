-- ===== src/InternalOnion/RouteManager/Completion/Counts.antt =====
-- The count of established hops while a build goes from hop to hop.
use nkc.Base.{
  Bool-cases, inl, inr, ℕ, zero, suc, ◌+◌, ◌≤◌, ◌<◌, ◌≡◌, refl, some, List, [], ◌∷◌, map, String,
  length, arith, ◌==◌,
}
use nkc.InternalOnion.{HopState, HopAck, ok, pending}
use nkc.InternalOnion.RouteManager.{
  create_hops, create_hops_from, compute_established_hops, update_hop,
}
use nkc.InternalOnion.RouteManager.Steps.{revived}

-- The hops are numbered from `s` on, and those from `i` on are pending.
abbrev pub Open : ℕ → ℕ → List HopState → Type 0
Open i s [] = Unit
Open i s (h ∷ hs) = (h.hop_index ≡ s) × (i ≤ s → h.status ≡ pending) × Open i (suc s) hs

-- A hop that has answered.
abbrev pub answered : HopAck → HopState → HopState
answered a h = record h { peer_id = some a.relay_peer_id; status = ok; last_seen_ts = some a.ts }

Open-later :
    (a : HopAck) (i s : ℕ) (hs : List HopState)
    → i < s
    → Open i s hs
    → (compute_established_hops (update_hop i (answered a) hs) ≡ compute_established_hops hs)
      × Open (suc i) s (update_hop i (answered a) hs)
unfolding update_hop compute_established_hops
Open-later a i s [] past h = (refl, tt)
Open-later a i s (h ∷ hs) past o = ground (arith, Open-later a i (suc s) hs (omega arith) o.2)

-- The answer of the first pending hop counts one more.
pub Open-answered :
    (a : HopAck) (i s : ℕ) (hs : List HopState)
    → s ≤ i
    → i < s + length hs
    → Open i s hs
    → (compute_established_hops (update_hop i (answered a) hs) ≡ suc (compute_established_hops hs))
      × Open (suc i) s (update_hop i (answered a) hs)
unfolding update_hop compute_established_hops
Open-answered a i s [] from within o = absurd (omega arith)
Open-answered a i s (h ∷ hs) from within o = elim (Bool-cases (h.hop_index == i)) [
  | inl hit ↦
      let now : h.status ≡ pending = o.1 (ground arith) in
      let later = Open-later a i (suc s) hs (ground arith) o.2 in
      simp hit (
        rw now (ground (arith, later.0)),
        (ground arith, λ past. absurd (omega (arith, past)), later.1),
      )
  | inr miss ↦
      let later = Open-answered a i (suc s) hs (ground arith) (omega arith) o.2 in
      simp miss (omega (arith, later.0), (o.0, λ past. o.1 (omega (arith, past)), later.1))
]

Open-create_hops_from : (i s n : ℕ) (peers : List String) → Open i s (create_hops_from s n peers)
unfolding create_hops_from
Open-create_hops_from i s zero peers = tt
Open-create_hops_from i s (suc n) peers = (refl, λ h. refl, Open-create_hops_from i (suc s) n _)

pub Open-create_hops : (n : ℕ) (peers : List String) → Open 1 1 (create_hops n peers)
unfolding create_hops
Open-create_hops n peers = Open-create_hops_from 1 1 n peers

pub established-map-revived :
    (hs : List HopState) → compute_established_hops (map revived hs) ≡ compute_established_hops hs
unfolding compute_established_hops
established-map-revived [] = refl
established-map-revived (h ∷ hs) = ground (arith, established-map-revived hs)
