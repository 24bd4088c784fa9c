-- ===== src/Sync/Lamports.antt =====
-- The lamport numbers that a peer has seen: updateLamportSeen, getLamportSeen and buildNextMap of
-- src/sync/syncEngine.ts.
use nkc.Base.{
  ℕ, ◌≤◌, ◌≡◌, String, str_eq, eq_iff, eq_refl, ltb, if◌then◌else◌, or_default, arith, [], ap,
}
use nkc.Base.Dict.{Dict, get, get-set}
use nkc.Sync.{Seen, raise, update_lamport_seen, get_lamport_seen}

abbrev pub seen_at : Dict ℕ → String → ℕ
seen_at m author = or_default (get m author) 0

pub get-raise :
    (m : Dict ℕ) (author : String) (n : ℕ) (k : String)
    → seen_at (raise m author n) k
      ≡ (if str_eq author k then if ltb (seen_at m k) n then n else seen_at m k else seen_at m k)
unfolding raise
get-raise m author n k =
    ground (arith, get-set m author n k, eq_iff author k, ap (get m) {x = author} {y = k})

-- A number that has been seen stays seen.
pub get_lamport_seen-update :
    (s : Seen) (log author : String) (n : ℕ) (l a : String)
    → get_lamport_seen (update_lamport_seen s log author n) l a ≡ (
        if str_eq log l
        then seen_at (raise (or_default (get s.per_conv l) []) author n) a
        else get_lamport_seen s l a)
unfolding get_lamport_seen update_lamport_seen
get_lamport_seen-update s log author n l a = ground (
  arith,
  get-set s.per_conv log (raise (or_default (get s.per_conv log) []) author n) l,
  eq_iff log l,
  ap (get s.per_conv) {x = log} {y = l},
)

pub get_lamport_seen_mono :
    (s : Seen) (log author : String) (n : ℕ) (l a : String)
    → get_lamport_seen s l a ≤ get_lamport_seen (update_lamport_seen s log author n) l a
unfolding get_lamport_seen
get_lamport_seen_mono s log author n l a = ground (
  arith,
  get_lamport_seen-update s log author n l a,
  get-raise (or_default (get s.per_conv l) []) author n a,
)

pub get_lamport_seen_self :
    (s : Seen) (log author : String) (n : ℕ)
    → n ≤ get_lamport_seen (update_lamport_seen s log author n) log author
get_lamport_seen_self s log author n = ground (
  arith,
  get_lamport_seen-update s log author n log author,
  get-raise (or_default (get s.per_conv log) []) author n author,
  eq_refl log,
  eq_refl author,
)
