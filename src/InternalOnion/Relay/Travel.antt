-- ===== src/InternalOnion/Relay/Travel.antt =====
-- A data frame on its way: every relay of the chain hands it on, and the last one delivers it.
use nkc.Base.{
  ℕ, zero, suc, ◌+◌, ◌-◌, ◌≤◌, ◌<◌, ◌≡◌, refl, sym, ◌∙◌, ap, true, false, Option, none, some, List,
  [], ◌∷◌, String, eq_refl, length, get_elem?, arith, ◌==◌, ltb, leb, ◌||◌,
}
use nkc.InternalOnion.Relay.{
  Deps, Envelope, Handled, Packet, data_packet, ignored, max_chain_length,
}
use nkc.InternalOnion.Relay.Handle.{is_at, arrive, forward, handle_envelope}

-- The peer that a relay hands the frame to, with the frame, or the packet that it delivers.
pub data Step : Type 0 where
  lost : Step
  moves : String → Envelope → Step
  arrives : Packet → Step

unfoldable pub outcome : Handled → Step
outcome h = elim h.delivered [
  | some p ↦ arrives p
  | none ↦ elim h.frames [ [] ↦ lost | (to, e) ∷ more ↦ moves to e ]
]

abbrev go_on :
    (String → Envelope → Option (String × Packet)) → String → Step → Option (String × Packet)
go_on later to lost = none
go_on later to (moves next e) = later next e
go_on later to (arrives p) = some (to, p)

-- The frame is handled by one relay after another, `node peer` being the relay of a peer.
unfoldable pub travel : (String → Deps) → ℕ → String → Envelope → Option (String × Packet)
unfolding outcome
travel node zero to e = none
travel node (suc fuel) to e = go_on (travel node fuel) to (outcome (handle_envelope (node to) e))

is_at_self : (o : Option String) (p : String) → o ≡ some p → is_at o p ≡ true
is_at_self o p h = rw h (eq_refl p)

-- A relay that a frame is at hands it to the next peer, with the cursor moved on, and does nothing
-- else with it.
pub handle_envelope-between :
    (d : Deps) (e : Envelope) (next : String)
    → length e.chain ≤ max_chain_length
    → get_elem? e.chain e.hop_cursor ≡ some d.local_peer_id
    → e.hop_cursor + 1 < length e.chain
    → get_elem? e.chain (e.hop_cursor + 1) ≡ some next
    → handle_envelope d e ≡ (
        let moved = record e { ts = d.now; hop_cursor = e.hop_cursor + 1 } in
        record ignored { frames = (next, moved) ∷ []; error = d.send_relay_envelope next moved })
unfolding handle_envelope forward
handle_envelope-between d e next short here more there =
    simp (guard_length, guard_cursor, at_here, not_last) (rw (there, forward) refl)
  where
    guard_length : ((length e.chain == 0) || ltb max_chain_length (length e.chain)) ≡ false
    guard_length = ground arith

    guard_cursor : leb (length e.chain) e.hop_cursor ≡ false
    guard_cursor = ground arith

    at_here : is_at (get_elem? e.chain e.hop_cursor) d.local_peer_id ≡ true
    at_here = is_at_self _ _ here

    not_last : (e.hop_cursor == length e.chain - 1) ≡ false
    not_last = ground arith

handle_envelope-last :
    (d : Deps) (e : Envelope) (p : Packet)
    → length e.chain ≤ max_chain_length
    → get_elem? e.chain e.hop_cursor ≡ some d.local_peer_id
    → e.hop_cursor + 1 ≡ length e.chain
    → e.payload ≡ data_packet p
    → handle_envelope d e ≡ record ignored { delivered = some p }
unfolding handle_envelope arrive
handle_envelope-last d e p short here last carries =
    simp (guard_length, guard_cursor, at_here, is_last) (rw (carries, arrive) refl)
  where
    guard_length : ((length e.chain == 0) || ltb max_chain_length (length e.chain)) ≡ false
    guard_length = ground arith

    guard_cursor : leb (length e.chain) e.hop_cursor ≡ false
    guard_cursor = ground arith

    at_here : is_at (get_elem? e.chain e.hop_cursor) d.local_peer_id ≡ true
    at_here = is_at_self _ _ here

    is_last : (e.hop_cursor == length e.chain - 1) ≡ true
    is_last = ground arith

get_elem?-some :
    {A : Type 0} (xs : List A) (i : ℕ) → i < length xs → (x : A) × (get_elem? xs i ≡ some x)
get_elem?-some [] i h = absurd (omega arith)
get_elem?-some (x ∷ xs) zero h = (x, refl)
get_elem?-some (x ∷ xs) (suc i) h = get_elem?-some xs i (omega arith)

some_inj : {A : Type 0} {x y : A} → some x ≡ some y → x ≡ y
some_inj h = cc

module _ (node : String → Deps) (named : (p : String) → (node p).local_peer_id ≡ p) where
  -- A data frame of at most eight hops, handled by each relay in turn from any place of its chain
  -- on, is delivered at the last peer of the chain, whatever relays it passes.
  pub travel-arrives :
      (n : ℕ) (e : Envelope) (to last : String) (p : Packet)
      → length e.chain ≤ max_chain_length
      → get_elem? e.chain e.hop_cursor ≡ some to
      → e.hop_cursor + suc n ≡ length e.chain
      → get_elem? e.chain (length e.chain - 1) ≡ some last
      → e.payload ≡ data_packet p
      → travel node (suc n) to e ≡ some (last, p)
  unfolding travel outcome
  travel-arrives zero e to last p short here left at_last carries =
      ap (λ h. go_on (travel node 0) to (outcome h))
        (handle_envelope-last (node to) e p short (rw (named to) here) (omega arith) carries)
      ∙ ap (λ q. some (q, p)) same
    where
      at_end : e.hop_cursor ≡ length e.chain - 1
      at_end = omega arith

      same : to ≡ last
      same = some_inj (sym here ∙ ap (get_elem? e.chain) at_end ∙ at_last)
  travel-arrives (suc n) e to last p short here left at_last carries =
      let next = get_elem?-some e.chain (e.hop_cursor + 1) (omega arith) in
      ap (λ h. go_on (travel node (suc n)) to (outcome h))
        (handle_envelope-between (node to) e next.0 short (rw (named to) here) (omega arith) next.1)
      ∙ travel-arrives n (record e { ts = (node to).now; hop_cursor = e.hop_cursor + 1 }) next.0
          last p short next.1 (omega arith) at_last carries
