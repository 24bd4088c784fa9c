-- ===== src/Sync/Flow/Windows.antt =====
-- The window of a flow session: pumpFlowSession of src/sync/syncEngine.ts.
use nkc.Base.{
  ℕ, zero, suc, ◌+◌, ◌≤◌, ◌<◌, ◌≡◌, refl, sym, ap, ◌∙◌, ◌⊎◌, inl, inr, true, false, some, List, [],
  ◌∷◌, ◌++◌, ◌==◌, arith, length, get_elem?, drop, if◌then◌else◌, Bool-cases,
}
use nkc.Sync.{SyncRes}
use nkc.Sync.Flow.{
  Entry, InFlight, Session, find_entry, set_entry, delete_entry, can_send, first_attempt, pump_loop,
  sync_flow_window, sync_flow_max_retries,
}

-- The chunks in flight ascend from `lo` on and stay below `n`; each was sent once to three times.
abbrev pub Ordered : ℕ → ℕ → InFlight → Type 0
Ordered lo n [] = lo ≤ n
Ordered lo n ((k, e) ∷ m) =
    (lo ≤ k) × (1 ≤ e.attempts) × (e.attempts ≤ sync_flow_max_retries) × Ordered (suc k) n m

Ordered-le : (lo n : ℕ) (m : InFlight) → Ordered lo n m → lo ≤ n
Ordered-le lo n [] h = h
Ordered-le lo n ((k, e) ∷ m) h = omega (arith, Ordered-le (suc k) n m h.3)

pub Ordered-weaken : (lo lo' n : ℕ) (m : InFlight) → lo' ≤ lo → Ordered lo n m → Ordered lo' n m
Ordered-weaken lo lo' n [] l h = omega arith
Ordered-weaken lo lo' n ((k, e) ∷ m) l h = (omega arith, h.1, h.2, h.3)

pub delete_entry-Ordered :
    (lo n k : ℕ) (m : InFlight) → Ordered lo n m → Ordered lo n (delete_entry m k)
unfolding delete_entry
delete_entry-Ordered lo n k [] h = h
delete_entry-Ordered lo n k ((j, e) ∷ m) h =
    let rest = delete_entry-Ordered (suc j) n k m h.3 in
    elim (Bool-cases (j == k)) [
      | inl e ↦ rw e (Ordered-weaken (suc j) lo n (delete_entry m k) (omega arith) rest)
      | inr e ↦ rw e (h.0, h.1, h.2, rest)
    ]

-- A chunk below all that are in flight is not there.
delete_entry-below : (lo n k : ℕ) (m : InFlight) → Ordered lo n m → k < lo → delete_entry m k ≡ m
unfolding delete_entry
delete_entry-below lo n k [] h l = refl
delete_entry-below lo n k ((j, e) ∷ m) h l =
    let other : (j == k) ≡ false = ground arith in
    rw other (ap (λ r. (j, e) ∷ r) (delete_entry-below (suc j) n k m h.3 (omega arith)))

pub length-delete_entry :
    (lo n k : ℕ) (m : InFlight) (e : Entry)
    → Ordered lo n m
    → find_entry m k ≡ some e
    → length m ≡ suc (length (delete_entry m k))
unfolding find_entry delete_entry
length-delete_entry lo n k [] e h f = cc
length-delete_entry lo n k ((j, d) ∷ m) e h f = elim (Bool-cases (j == k)) [
  | inl same ↦
      rw same (ap (λ r. suc (length r)) (sym (delete_entry-below (suc j) n k m h.3 (ground arith))))
  | inr other ↦ rw other (ap suc (length-delete_entry (suc j) n k m e h.3 (rw other at f)))
]

pub length-delete_entry-le : (k : ℕ) (m : InFlight) → length (delete_entry m k) ≤ length m
unfolding delete_entry
length-delete_entry-le k [] = omega arith
length-delete_entry-le k ((j, d) ∷ m) = ground (arith, length-delete_entry-le k m)

-- The next chunk is new, and is put last.
set_entry-next :
    (lo n : ℕ) (m : InFlight) (e : Entry)
    → Ordered lo n m
    → 1 ≤ e.attempts
    → e.attempts ≤ sync_flow_max_retries
    → Ordered lo (suc n) (set_entry m n e) × (length (set_entry m n e) ≡ suc (length m))
unfolding set_entry
set_entry-next lo n [] e h a b = ((h, a, b, omega arith), omega arith)
set_entry-next lo n ((j, d) ∷ m) e h a b =
    let below = Ordered-le (suc j) n m h.3 in
    let other : (j == n) ≡ false = ground arith in
    let ih = set_entry-next (suc j) n m e h.3 a b in rw other ((h.0, h.1, h.2, ih.0), ap suc ih.1)

-- A chunk in flight is set anew.
pub set_entry-Ordered :
    (lo n k : ℕ) (m : InFlight) (d e : Entry)
    → Ordered lo n m
    → find_entry m k ≡ some d
    → 1 ≤ e.attempts
    → e.attempts ≤ sync_flow_max_retries
    → Ordered lo n (set_entry m k e) × (length (set_entry m k e) ≡ length m)
unfolding find_entry set_entry
set_entry-Ordered lo n k [] d e h f a b = cc
set_entry-Ordered lo n k ((j, c) ∷ m) d e h f a b = elim (Bool-cases (j == k)) [
  | inl same ↦ rw same ((h.0, a, b, h.3), refl)
  | inr other ↦
      let ih = set_entry-Ordered (suc j) n k m d e h.3 (rw other at f) a b in
      rw other ((h.0, h.1, h.2, ih.0), ap suc ih.1)
]

pub find_entry-attempts :
    (lo n k : ℕ) (m : InFlight) (e : Entry)
    → Ordered lo n m
    → find_entry m k ≡ some e
    → (1 ≤ e.attempts) × (e.attempts ≤ sync_flow_max_retries) × (k < n)
unfolding find_entry
find_entry-attempts lo n k [] e h f = cc
find_entry-attempts lo n k ((j, d) ∷ m) e h f = elim (Bool-cases (j == k)) [
  | inl same ↦
      let below = Ordered-le (suc j) n m h.3 in
      let found : some d ≡ some e = rw same at f in ground (arith)
  | inr other ↦ find_entry-attempts (suc j) n k m e h.3 (rw other at f)
]

find-set_entry :
    (m : InFlight) (k i : ℕ) (e : Entry)
    → find_entry (set_entry m k e) i ≡ (if k == i then some e else find_entry m i)
unfolding find_entry set_entry
find-set_entry [] k i e = refl
find-set_entry ((j, d) ∷ m) k i e = ground (arith, find-set_entry m k i e)

-- A chunk that was sent once, before its timer is set.
abbrev pub sent_once : Entry
sent_once = record { attempts = 1; armed = false }

pub drop-get_elem? :
    {A : Type 0} (xs : List A) (n : ℕ)
    → n < length xs
    → (x : A) × (get_elem? xs n ≡ some x) × (drop n xs ≡ x ∷ drop (suc n) xs)
drop-get_elem? [] n h = absurd (omega arith)
drop-get_elem? (x ∷ xs) zero h = (x, refl, refl)
drop-get_elem? (x ∷ xs) (suc n) h = drop-get_elem? xs n (omega arith)

-- What sending as far as the window allows makes of a session: the frames sent are the next ones,
-- each is filed under its own index as sent once, and what was in flight stays there as it was.
pub record Pumped (s t : Session) (out : List SyncRes) : Type 0 where
  pub frames : t.frames ≡ s.frames
  pub conv_id : t.conv_id ≡ s.conv_id
  pub ordered : Ordered 0 t.next_to_send t.in_flight
  pub within : t.next_to_send ≤ length s.frames
  pub sent : out ++ drop t.next_to_send s.frames ≡ drop s.next_to_send s.frames
  pub counted : length t.in_flight + s.next_to_send ≡ length s.in_flight + t.next_to_send
  pub windowed : (length t.in_flight ≤ sync_flow_window) ⊎ (length t.in_flight ≡ length s.in_flight)
  pub kept :
      (k : ℕ) (e : Entry) → find_entry s.in_flight k ≡ some e → find_entry t.in_flight k ≡ some e
  pub filed :
      (k : ℕ) → s.next_to_send ≤ k → k < t.next_to_send → find_entry t.in_flight k ≡ some sent_once

Pumped-refl :
    (s : Session)
    → Ordered 0 s.next_to_send s.in_flight
    → s.next_to_send ≤ length s.frames
    → Pumped s s []
Pumped-refl s o w = record {
  frames = refl;
  conv_id = refl;
  ordered = o;
  within = w;
  sent = refl;
  counted = refl;
  windowed = inr refl;
  kept = λ k e f. f;
  filed = λ k l h. absurd (omega arith);
}

first_attempt-kept :
    (s : Session) (k : ℕ) (e : Entry)
    → Ordered 0 s.next_to_send s.in_flight
    → find_entry s.in_flight k ≡ some e
    → find_entry (first_attempt s).in_flight k ≡ some e
first_attempt-kept s k e o f =
    let (_, _, below) = find_entry-attempts 0 s.next_to_send k s.in_flight e o f in
    let other : (s.next_to_send == k) ≡ false = ground arith in
    (rw other at (find-set_entry s.in_flight s.next_to_send k sent_once)) ∙ f

first_attempt-filed :
    (s : Session) (k : ℕ)
    → s.next_to_send ≡ k
    → find_entry (first_attempt s).in_flight k ≡ some sent_once
first_attempt-filed s k e =
    let same : (s.next_to_send == k) ≡ true = ground arith in
    rw same at (find-set_entry s.in_flight s.next_to_send k sent_once)

first_attempt-Pumped :
    (s t : Session) (f : SyncRes) (out : List SyncRes)
    → Ordered 0 s.next_to_send s.in_flight
    → can_send s ≡ true
    → drop s.next_to_send s.frames ≡ f ∷ drop (suc s.next_to_send) s.frames
    → Pumped (first_attempt s) t out
    → Pumped s t (f ∷ out)
first_attempt-Pumped s t f out o can here p =
    let (_, grown) =
      set_entry-next 0 s.next_to_send s.in_flight (record { attempts = 1; armed = false }) o
        (omega arith) (omega arith) in
    record {
      frames = p.frames;
      conv_id = p.conv_id;
      ordered = p.ordered;
      within = p.within;
      sent = ap (λ r. f ∷ r) p.sent ∙ sym here;
      counted = omega (arith, p.counted, grown);
      windowed = ground (arith, p.windowed, grown);
      kept = λ k e h. p.kept k e (first_attempt-kept s k e o h);
      filed = λ k low high. elim (Bool-cases (s.next_to_send == k)) [
        | inl same ↦ p.kept k sent_once (first_attempt-filed s k (ground arith))
        | inr other ↦ p.filed k (ground arith) high
      ];
    }

-- With as many rounds of fuel as frames are left, the loop of pumpFlowSession ends by its own test:
-- every frame has been sent or two chunks are in flight. From a session whose chunks in flight
-- ascend below the next one to send, it sends the next frames in their order, files each under its
-- own index as sent once, leaves what was in flight as it was, and keeps the chunks ascending.
pub pump_loop-Pumped :
    (fuel : ℕ) (s : Session)
    → Ordered 0 s.next_to_send s.in_flight
    → s.next_to_send ≤ length s.frames
    → length s.frames ≤ s.next_to_send + fuel
    → Pumped s (pump_loop fuel s).0 (pump_loop fuel s).1 × (can_send (pump_loop fuel s).0 ≡ false)
unfolding pump_loop
pump_loop-Pumped zero s o w enough = (Pumped-refl s o w, ground arith)
pump_loop-Pumped (suc fuel) s o w enough = elim (Bool-cases (can_send s)) [
  | inr full ↦ rw full (Pumped-refl s o w, full)
  | inl can ↦
      let (f, here, rest) = drop-get_elem? s.frames s.next_to_send (ground arith) in
      let (o', _) =
        set_entry-next 0 s.next_to_send s.in_flight (record { attempts = 1; armed = false }) o
          (omega arith) (omega arith) in
      let ih = pump_loop-Pumped fuel (first_attempt s) o' (ground arith) (omega arith) in
      rw (can, here, pump_loop)
        (
          first_attempt-Pumped s (pump_loop fuel (first_attempt s)).0 f
              (pump_loop fuel (first_attempt s)).1 o can rest ih.0,
          ih.1,
        )
]
