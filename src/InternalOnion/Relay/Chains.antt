-- ===== src/InternalOnion/Relay/Chains.antt =====
-- The chain of relays for a data packet: its bound, its end, and that it names no peer twice.
use nkc.Base.{
  ℕ, zero, suc, ◌≤◌, ◌≡◌, refl, ap, inl, inr, false, not, some, List, [], ◌∷◌, ◌++◌, String, str_eq,
  length, get_elem?, take, keep, contains, arith, Bool-cases, length-append, length-take-le,
  length-keep-le,
}
use nkc.InternalOnion.{HopState, RouteState}
use nkc.InternalOnion.Relay.{
  max_chain_length, distinct_from, trimmed_peers, build_relay_chain_for_data,
}

length-distinct_from : (seen xs : List String) → length (distinct_from seen xs) ≤ length xs
unfolding distinct_from
length-distinct_from seen [] = omega arith
length-distinct_from seen (x ∷ xs) =
    ground (arith, length-distinct_from seen xs, length-distinct_from (x ∷ seen) xs)

length-trimmed_peers : (hs : List HopState) → length (trimmed_peers hs) ≤ length hs
unfolding trimmed_peers
length-trimmed_peers [] = omega arith
length-trimmed_peers (h ∷ hs) = ground (arith, length-trimmed_peers hs)

-- No name stands in the list twice, or is one of those seen.
abbrev pub Fresh : List String → List String → Type 0
Fresh seen [] = Unit
Fresh seen (x ∷ xs) = (contains seen x ≡ false) × Fresh (x ∷ seen) xs

distinct_from-Fresh : (seen xs : List String) → Fresh seen (distinct_from seen xs)
unfolding distinct_from
distinct_from-Fresh seen [] = tt
distinct_from-Fresh seen (x ∷ xs) = elim (Bool-cases (contains seen x)) [
  | inl old ↦ simp old (distinct_from-Fresh seen xs)
  | inr new ↦ simp new (refl, distinct_from-Fresh (x ∷ seen) xs)
]

take-all : {A : Type 0} (n : ℕ) (xs : List A) → length xs ≤ n → take n xs ≡ xs
take-all zero [] h = refl
take-all zero (x ∷ xs) h = absurd (omega arith)
take-all (suc n) [] h = refl
take-all (suc n) (x ∷ xs) h = ap (λ ys. x ∷ ys) (take-all n xs (omega arith))

pub last-append :
    {A : Type 0} (xs : List A) (x : A) → get_elem? (xs ++ (x ∷ [])) (length xs) ≡ some x
last-append [] x = refl
last-append (y ∷ xs) x = last-append xs x

-- A peer that differs from every listed one can be added at the end.
Fresh-snoc :
    (seen xs : List String) (x : String)
    → contains seen x ≡ false
    → contains xs x ≡ false
    → Fresh seen xs
    → Fresh seen (xs ++ (x ∷ []))
Fresh-snoc seen [] x old new h = (old, tt)
Fresh-snoc seen (y ∷ xs) x old new h =
    (h.0, Fresh-snoc (y ∷ seen) xs x (ground arith) (ground arith) h.1)

not_target-distinct_from :
    (seen xs : List String) (target : String)
    → contains xs target ≡ false
    → contains (distinct_from seen xs) target ≡ false
unfolding distinct_from
not_target-distinct_from seen [] target h = refl
not_target-distinct_from seen (x ∷ xs) target h =
    ground (
      arith,
      not_target-distinct_from seen xs target,
      not_target-distinct_from (x ∷ seen) xs target,
    )

contains-keep :
    (xs : List String) (target : String)
    → contains (keep (λ p. not (str_eq p target)) xs) target ≡ false
contains-keep [] target = refl
contains-keep (x ∷ xs) target = ground (arith, contains-keep xs target)

Fresh-take :
    (seen : List String) (n : ℕ) (xs : List String) → Fresh seen xs → Fresh seen (take n xs)
Fresh-take seen zero xs h = tt
Fresh-take seen (suc n) [] h = tt
Fresh-take seen (suc n) (x ∷ xs) h = (h.0, Fresh-take (x ∷ seen) n xs h.1)

-- Whatever the route and the target, the chain of a data packet has at most eight peers, as many as
-- a relay accepts, and names no peer twice.
pub build_relay_chain_for_data-bounded :
    (route : RouteState) (target : String)
    → (length (build_relay_chain_for_data route target) ≤ max_chain_length)
      × Fresh [] (build_relay_chain_for_data route target)
unfolding build_relay_chain_for_data
build_relay_chain_for_data-bounded route target =
    let relays = keep (λ p. not (str_eq p target)) (trimmed_peers route.hops) in
    (
      length-take-le max_chain_length _,
      Fresh-take [] max_chain_length _ (
          Fresh-snoc [] (distinct_from [] relays) target refl
            (not_target-distinct_from [] relays target
              (contains-keep (trimmed_peers route.hops) target))
            (distinct_from-Fresh [] relays)),
    )

-- On a route of at most seven hops the chain ends at the target: the cut at eight peers does not
-- reach it.
pub build_relay_chain_for_data-target :
    (route : RouteState) (target : String)
    → length route.hops ≤ 7
    → (ps : List String) × (build_relay_chain_for_data route target ≡ ps ++ (target ∷ []))
      × (length ps ≤ 7)
unfolding build_relay_chain_for_data
build_relay_chain_for_data-target route target few =
    let relays = keep (λ p. not (str_eq p target)) (trimmed_peers route.hops) in
    let ps = distinct_from [] relays in
    let short : length ps ≤ 7 = omega (
      arith,
      length-distinct_from [] relays,
      length-keep-le (λ p. not (str_eq p target)) (trimmed_peers route.hops),
      length-trimmed_peers route.hops,
    ) in
    (ps, take-all max_chain_length _ (omega (arith, length-append ps (target ∷ []))), short)
