-- ===== src/InternalOnion/Relay/Arrival.antt =====
-- A data packet from `sendDataViaCurrentRoute` of src/net/internalOnion/relayNetwork.ts to its target.
use nkc.Base.{
  suc, ◌-◌, ◌≤◌, ◌≡◌, refl, sym, ◌∙◌, ap, subst, true, false, some, List, [], ◌∷◌, ◌++◌, String,
  str_eq, length, get_elem?, arith, length-append, or_default, ltb,
}
use nkc.Base.Text.{trim}
use nkc.InternalOnion.{RouteState}
use nkc.InternalOnion.RouteManager.Steps.{is_ready}
use nkc.InternalOnion.Relay.{
  Deps, Envelope, Packet, data_packet, max_chain_length, resolve_data_target_peer_id,
  build_relay_envelope, send_envelope, send_along_relays, send_data_via_current_route,
}
use nkc.InternalOnion.Relay.Chains.{build_relay_chain_for_data-target, last-append}
use nkc.InternalOnion.Relay.Travel.{travel, travel-arrives}

-- A chain that ends at the target has a first peer.
first_of : List String → String → String
first_of [] target = target
first_of (p ∷ ps) target = p

module _ (node : String → Deps) (named : (p : String) → (node p).local_peer_id ≡ p) where
  chain_arrives :
      (e : Envelope) (ps : List String) (target : String) (p : Packet)
      → e.chain ≡ ps ++ (target ∷ [])
      → length ps ≤ 7
      → e.hop_cursor ≡ 0
      → e.payload ≡ data_packet p
      → travel node (length e.chain) (first_of ps target) e ≡ some (target, p)
  unfolding first_of
  chain_arrives e ps target p is_chain short at_start carries =
      subst (λ n. travel node n (first_of ps target) e ≡ some (target, p)) (sym size)
        (travel-arrives node named (length ps) e (first_of ps target) target p (omega (arith, size))
          (rw (is_chain, at_start) (first ps)) (omega (arith, size)) at_last carries)
    where
      size : length e.chain ≡ suc (length ps)
      size = ap length is_chain ∙ omega (arith, length-append ps (target ∷ []))

      last_place : length (ps ++ (target ∷ [])) - 1 ≡ length ps
      last_place = omega (arith, length-append ps (target ∷ []))

      at_last : get_elem? e.chain (length e.chain - 1) ≡ some target
      at_last = rw (is_chain, last_place) (last-append ps target)

      first : (qs : List String) → get_elem? (qs ++ (target ∷ [])) 0 ≡ some (first_of qs target)
      first [] = refl
      first (q ∷ qs) = refl

send_along_relays-sends :
    (d : Deps) (circuit : String) (ps : List String) (target : String) (p : Packet)
    → length ps ≤ 7
    → (send_along_relays d circuit (ps ++ (target ∷ [])) p).frames
      ≡ (first_of ps target, build_relay_envelope d circuit (ps ++ (target ∷ [])) (data_packet p))
        ∷ []
unfolding send_envelope build_relay_envelope first_of
send_along_relays-sends d circuit [] target p short = refl
send_along_relays-sends d circuit (q ∷ qs) target p short = simp few refl
  where
    few : ltb max_chain_length (suc (length (qs ++ (target ∷ [])))) ≡ false
    few = ground (arith, length-append qs (target ∷ []))

-- On a ready route of at most seven hops, a packet that names a target is sent in one frame; and
-- where each peer has a relay under its name that handles the frame when it comes to it, as many
-- relays as the chain has peers, from the receiver of the frame on, deliver the packet at that
-- target.
pub send_data_via_current_route-arrives :
    (node : String → Deps)
    → ((p : String) → (node p).local_peer_id ≡ p)
    → (d : Deps) (route : RouteState) (new_id : String) (p : Packet) (target : String)
    → is_ready route.status ≡ true
    → length route.hops ≤ 7
    → trim (or_default (resolve_data_target_peer_id p) "") ≡ target
    → str_eq target "" ≡ false
    → (first : String) × (e : Envelope) × ((send_data_via_current_route d route new_id p).frames
        ≡ (first, e) ∷ [])
      × (travel node (length e.chain) first e ≡ some (target, p))
unfolding send_data_via_current_route build_relay_envelope
send_data_via_current_route-arrives node named d route new_id p target on few names some_target =
    let chain = build_relay_chain_for_data-target route target few in
    let circuit = or_default route.circuit_id new_id in
    let e = build_relay_envelope d circuit (chain.0 ++ (target ∷ [])) (data_packet p) in
    (
      first_of chain.0 target,
      e,
      simp (names, on, some_target)
          (rw chain.1 (send_along_relays-sends d circuit chain.0 target p chain.2)),
      chain_arrives node named e chain.0 target p refl chain.2 refl refl,
    )
