-- ===== src/Outbox/Listing.antt =====
-- What the bounded, sorted listings of src/storage/outboxStore.ts return.
use nkc.Base.{
  ℕ, zero, suc, ◌≤◌, ◌<◌, ◌≡◌, refl, ap, ◌⊎◌, inl, inr, Bool, true, false, Option, none, some, List,
  [], ◌∷◌, All, All-take, All-map, Elem, length, take, length-take-le, arith, Bool-cases, ltb, leb,
}
use nkc.Base.Sort
use nkc.Base.Sort.{IsSorted}
use nkc.Table.{Table}
use nkc.Outbox.{
  OutboxRecord, record_key, Status, pending, in_flight, acked, expired, is_pending, at_most, due_at,
  is_retryable, is_timed_out, due_le, deadline_le, list_retryable_outbox, list_in_flight_timed_out,
}

due_le-total : (a b : OutboxRecord) → due_le a b ≡ false → due_le b a ≡ true
unfolding due_le
due_le-total a b h = ground arith

due_le_trans : (a b c : OutboxRecord) → due_le a b ≡ true → due_le b c ≡ true → due_le a c ≡ true
unfolding due_le
due_le_trans a b c h k = ground arith

-- A row to be sent now: pending, its next attempt not ahead, and not expired.
abbrev pub IsDue : ℕ → OutboxRecord → Type 0
IsDue now r =
    (r.status ≡ some pending)
    × ((at : ℕ) × (r.next_attempt_at_ms ≡ some at) × (at ≤ now))
    × (now < r.expires_at_ms)

-- By the time of the next attempt, then by that of creation.
abbrev pub IsBefore : OutboxRecord → OutboxRecord → Type 0
IsBefore a b = (due_at a < due_at b) ⊎ ((due_at a ≡ due_at b) × (a.created_at_ms ≤ b.created_at_ms))

abbrev pub IsInOrder : List OutboxRecord → Type 0
IsInOrder [] = Unit
IsInOrder (r ∷ rs) = All (IsBefore r) rs × IsInOrder rs

pending_status : (status : Option Status) → is_pending status ≡ true → status ≡ some pending
pending_status none h = cc
pending_status (some pending) h = refl
pending_status (some in_flight) h = cc
pending_status (some acked) h = cc
pending_status (some expired) h = cc

time_at_most : (o : Option ℕ) (n : ℕ) → at_most o n ≡ true → (at : ℕ) × (o ≡ some at) × (at ≤ n)
time_at_most none n h = cc
time_at_most (some at) n h = (at, refl, ground arith)

is_retryable-IsDue : (now : ℕ) (r : OutboxRecord) → is_retryable now r ≡ true → IsDue now r
unfolding is_retryable
is_retryable-IsDue now r h = (
  pending_status r.status (ground arith),
  time_at_most r.next_attempt_at_ms now (ground arith),
  ground arith,
)

IsDue-is_retryable : (now : ℕ) (r : OutboxRecord) → IsDue now r → is_retryable now r ≡ true
unfolding is_retryable
IsDue-is_retryable now r (status, (at, time, soon), fresh) =
    let early : leb at now ≡ true = ground arith in
    let late : ltb now r.expires_at_ms ≡ true = ground arith in rw (status, time, early, late) refl

due_le-IsBefore : (a b : OutboxRecord) → due_le a b ≡ true → IsBefore a b
unfolding due_le
due_le-IsBefore a b h = elim (Bool-cases (ltb (due_at a) (due_at b))) [
  | inl x ↦ inl (ground arith)
  | inr x ↦ inr (ground arith, ground arith)
]

IsSorted-IsInOrder : (rs : List OutboxRecord) → IsSorted due_le rs → IsInOrder rs
IsSorted-IsInOrder [] h = tt
IsSorted-IsInOrder (r ∷ rs) h = (
  All-map (λ x. due_le r x ≡ true) (IsBefore r) (due_le-IsBefore r) rs h.0,
  IsSorted-IsInOrder rs h.1,
)

-- What is not taken is left out because enough was.
take-full :
    (n : ℕ) (rs : List OutboxRecord) (r : OutboxRecord)
    → Elem r rs
    → Elem r (take n rs) ⊎ (length (take n rs) ≡ n)
take-full zero rs r h = inr refl
take-full (suc n) [] r h = absurd h
take-full (suc n) (x ∷ rs) r (inl e) = inl (inl e)
take-full (suc n) (x ∷ rs) r (inr h) = elim (take-full n rs r h) [
  | inl e ↦ inl (inr e)
  | inr l ↦ inr (ap suc l)
]

module _ (T : Table OutboxRecord record_key) where
  open T use {Store, get, query}

  abbrev pub Listed : Store → (OutboxRecord → Bool) → OutboxRecord → Type 0
  Listed s p r = (p r ≡ true) × (get s (record_key r) ≡ some r)

  -- A stored row that is due.
  abbrev pub IsDueRow : Store → ℕ → OutboxRecord → Type 0
  IsDueRow s now r = IsDue now r × (get s (record_key r) ≡ some r)

  -- A row is listed, or as many rows as are asked for are, none of which comes after it.
  abbrev pub IsServed : ℕ → List OutboxRecord → OutboxRecord → Type 0
  IsServed limit rows r = Elem r rows ⊎ ((length rows ≡ limit) × All (λ x. IsBefore x r) rows)

  list_retryable_outbox_sound :
      (s : Store) (now limit : ℕ)
      → let rows = list_retryable_outbox T now limit s in
        All (Listed s (is_retryable now)) rows × IsSorted due_le rows × (length rows ≤ limit)
  unfolding list_retryable_outbox
  list_retryable_outbox_sound s now limit =
      let found = query s (is_retryable now) in
      let ordered = Sort.sort due_le found in
      (
        All-take (Listed s (is_retryable now)) limit ordered (
            Sort.All-sort due_le (Listed s (is_retryable now)) found
              (T.query_sound s (is_retryable now))),
        Sort.take-IsSorted due_le limit ordered
            (Sort.sort-IsSorted due_le due_le-total due_le_trans found),
        length-take-le limit ordered,
      )

  list_retryable_outbox_urgent :
      (s : Store) (now limit : ℕ) (r : OutboxRecord)
      → get s (record_key r) ≡ some r
      → is_retryable now r ≡ true
      → let rows = list_retryable_outbox T now limit s in
        Elem r rows ⊎ All (λ x. due_le x r ≡ true) rows
  unfolding list_retryable_outbox
  list_retryable_outbox_urgent s now limit r stored ok =
      let found = query s (is_retryable now) in
      Sort.take-IsSorted_first due_le limit (Sort.sort due_le found) r
        (Sort.sort-IsSorted due_le due_le-total due_le_trans found)
        (Sort.Elem-sort due_le r found (T.query_complete s (is_retryable now) r stored ok))

  list_retryable_outbox_full :
      (s : Store) (now limit : ℕ) (r : OutboxRecord)
      → get s (record_key r) ≡ some r
      → is_retryable now r ≡ true
      → let rows = list_retryable_outbox T now limit s in Elem r rows ⊎ (length rows ≡ limit)
  unfolding list_retryable_outbox
  list_retryable_outbox_full s now limit r stored ok =
      let found = query s (is_retryable now) in
      take-full limit (Sort.sort due_le found) r
        (Sort.Elem-sort due_le r found (T.query_complete s (is_retryable now) r stored ok))

  list_retryable_outbox_serves :
      (s : Store) (now limit : ℕ) (r : OutboxRecord)
      → IsDueRow s now r
      → IsServed limit (list_retryable_outbox T now limit s) r
  list_retryable_outbox_serves s now limit r (due, stored) =
      let ok = IsDue-is_retryable now r due in
      elim (list_retryable_outbox_urgent s now limit r stored ok) [
        | inl listed ↦ inl listed
        | inr after ↦ elim (list_retryable_outbox_full s now limit r stored ok) [
          | inl listed ↦ inl listed
          | inr full ↦ inr (
            full,
            All-map (λ x. due_le x r ≡ true) (λ x. IsBefore x r) (λ x. due_le-IsBefore x r)
                (list_retryable_outbox T now limit s) after,
          )
        ]
      ]

  -- The retry listing: each row is stored, pending, its next attempt is not ahead and it has not
  -- expired; the rows come in the order of their next attempts, then of their creation; there are
  -- at most `limit`; and a stored row that is due is left out only where `limit` rows are listed,
  -- none of which comes after it.
  pub list_retryable_outbox_lem :
      (s : Store) (now limit : ℕ)
      → let rows = list_retryable_outbox T now limit s in
        All (IsDueRow s now) rows
        × IsInOrder rows
        × (length rows ≤ limit)
        × ((r : OutboxRecord) → IsDueRow s now r → IsServed limit rows r)
  list_retryable_outbox_lem s now limit =
      let rows = list_retryable_outbox T now limit s in
      let (listed, sorted, few) = list_retryable_outbox_sound s now limit in
      (
        All-map (Listed s (is_retryable now)) (IsDueRow s now)
            (λ r (ok, stored). (is_retryable-IsDue now r ok, stored)) rows listed,
        IsSorted-IsInOrder rows sorted,
        few,
        list_retryable_outbox_serves s now limit,
      )

  pub list_in_flight_timed_out_sound :
      (s : Store) (now limit : ℕ)
      → All (Listed s (is_timed_out now)) (list_in_flight_timed_out T now limit s)
  unfolding list_in_flight_timed_out
  list_in_flight_timed_out_sound s now limit =
      let found = query s (is_timed_out now) in
      All-take (Listed s (is_timed_out now)) limit (Sort.sort deadline_le found) (
        Sort.All-sort deadline_le (Listed s (is_timed_out now)) found
          (T.query_sound s (is_timed_out now)))
