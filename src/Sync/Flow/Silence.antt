-- ===== src/Sync/Flow/Silence.antt =====
-- Flow sessions without an acknowledgement: the retries of src/sync/syncEngine.ts come to an end.
use nkc.Base.{
  ℕ, suc, ◌+◌, ◌-◌, ◌*◌, ◌≤◌, ◌≡◌, refl, inl, inr, true, false, Option, none, some, List, [], ◌∷◌,
  ◌==◌, String, eq_refl, leb, arith, length, length-append, All, Bool-cases, Option-cases,
}
use nkc.Base.Dict.{get, set, delete, get-set, get-delete}
use nkc.Sync.Flow.{
  Entry, InFlight, Session, Sessions, FlowEvent, respond, sent, fires, acked, find_entry, set_entry,
  clear_flow_session, schedule_flow_retry, retry, retry_fires, flow_step, flow_run,
  sync_flow_max_retries,
}
use nkc.Sync.Flow.Windows.{Ordered, find_entry-attempts, drop-get_elem?}
use nkc.Sync.Flow.Sessions.{AllOpen, flow_step-AllOpen, flow_run-keeps}

-- How often the chunks in flight may still be sent again.
unfoldable budget : InFlight → ℕ
budget [] = 0
budget ((k, e) ∷ m) = (sync_flow_max_retries - e.attempts) + budget m

abbrev budget_of : Option Session → ℕ
budget_of none = 0
budget_of (some s) = budget s.in_flight

budget-le : (lo n : ℕ) (m : InFlight) → Ordered lo n m → budget m ≤ 2 * length m
unfolding budget
budget-le lo n [] h = omega arith
budget-le lo n ((k, e) ∷ m) h = omega (arith, budget-le (suc k) n m h.3, h.1)

budget-set_entry :
    (m : InFlight) (k : ℕ) (d e : Entry)
    → find_entry m k ≡ some d
    → budget (set_entry m k e) + (sync_flow_max_retries - d.attempts)
      ≡ budget m + (sync_flow_max_retries - e.attempts)
unfolding budget find_entry set_entry
budget-set_entry [] k d e f = cc
budget-set_entry ((j, c) ∷ m) k d e f = elim (Bool-cases (j == k)) [
  | inl same ↦
      let found : some c ≡ some d = rw same at f in
      let value : c ≡ d = cc in rw (same, value) (omega arith)
  | inr other ↦ rw other (omega (arith, budget-set_entry m k d e (rw other at f)))
]

get-set_self : (m : Sessions) (id : String) (s : Session) → get (set m id s) id ≡ some s
get-set_self m id s = rw (eq_refl id) at (get-set m id s id)

-- The timer of a frame of the session is set, or fires.
abbrev pub IsQuiet : String → FlowEvent → Type 0
IsQuiet id (respond conv frames) = ⊥
IsQuiet id (sent j k) = j ≡ id
IsQuiet id (fires j k) = j ≡ id
IsQuiet id (acked j k) = ⊥

sent-budget :
    (m : Sessions) (id : String) (k : ℕ)
    → budget_of (get (schedule_flow_retry m id k) id) ≡ budget_of (get m id)
unfolding schedule_flow_retry
sent-budget m id k = elim (Option-cases (get m id)) [
  | inl e ↦ rw (e, schedule_flow_retry) (rw e refl)
  | inr (s, e) ↦ elim (Option-cases (find_entry s.in_flight k)) [
    | inl f ↦ rw (e, f, schedule_flow_retry) (rw e refl)
    | inr (d, f) ↦
        let armed = record d { armed = true } in
        rw
          (
            e,
            f,
            schedule_flow_retry,
            get-set_self m id (record s { in_flight = set_entry s.in_flight k armed }),
          )
          (omega (arith, budget-set_entry s.in_flight k d armed f))
  ]
]

-- A frame that is sent again takes one from the budget; a session that is given up has none.
retry-budget :
    (m : Sessions) (id : String) (k : ℕ) (s : Session) (d : Entry)
    → AllOpen m
    → get m id ≡ some s
    → find_entry s.in_flight k ≡ some d
    → length (retry m id k s d).1 + budget_of (get (retry m id k s d).0 id) ≤ budget s.in_flight
unfolding retry clear_flow_session
retry-budget m id k s d h e f = elim (Bool-cases (leb sync_flow_max_retries d.attempts)) [
  | inl over ↦
      let gone : get (delete m id) id ≡ none = rw (eq_refl id) at (get-delete m id id) in
      rw (over, gone) (omega arith)
  | inr again ↦
      let o = h id s e in
      let (_, _, below) = find_entry-attempts 0 s.next_to_send k s.in_flight d o.ordered f in
      let (x, here, _) = drop-get_elem? s.frames k (omega (arith, o.within)) in
      let next : Entry = record { attempts = suc d.attempts; armed = false } in
      rw
        (
          again,
          here,
          retry,
          get-set_self m id (record s { in_flight = set_entry s.in_flight k next }),
        )
        (ground (arith, budget-set_entry s.in_flight k d next f))
]

fires-budget :
    (m : Sessions) (id : String) (k : ℕ)
    → AllOpen m
    → length (retry_fires m id k).1 + budget_of (get (retry_fires m id k).0 id)
      ≤ budget_of (get m id)
unfolding retry_fires
fires-budget m id k h = elim (Option-cases (get m id)) [
  | inl e ↦ rw (e, retry_fires) (rw e (omega arith))
  | inr (s, e) ↦ elim (Option-cases (find_entry s.in_flight k)) [
    | inl f ↦ rw (e, f, retry_fires) (rw e (omega arith))
    | inr (d, f) ↦ elim (Bool-cases d.armed) [
      | inl a ↦ rw (e, f, a, retry_fires) (retry-budget m id k s d h e f)
      | inr a ↦ rw (e, f, a, retry_fires) (rw e (omega arith))
    ]
  ]
]

quiet-budget :
    (m : Sessions) (id : String) (e : FlowEvent)
    → AllOpen m
    → IsQuiet id e
    → length (flow_step m e).1 + budget_of (get (flow_step m e).0 id) ≤ budget_of (get m id)
unfolding flow_step
quiet-budget m id (respond conv frames) h quiet = absurd quiet
quiet-budget m id (sent j k) h quiet = rw quiet (omega (arith, sent-budget m id k))
quiet-budget m id (fires j k) h quiet = rw quiet (fires-budget m id k h)
quiet-budget m id (acked j k) h quiet = absurd quiet

quiet_run-budget :
    (m : Sessions) (id : String) (qs : List FlowEvent)
    → AllOpen m
    → All (IsQuiet id) qs
    → length (flow_run m qs).1 ≤ budget_of (get m id)
unfolding flow_run
quiet_run-budget m id [] h quiet = omega arith
quiet_run-budget m id (q ∷ qs) h quiet =
    let (m', out) = flow_step m q in
    omega (
      arith,
      length-append out (flow_run m' qs).1,
      quiet-budget m id q h quiet.0,
      quiet_run-budget m' id qs (flow_step-AllOpen m q h) quiet.1,
    )

-- A session waits for at most two chunks, each of which may be sent again twice.
budget_of-le : (m : Sessions) (id : String) → AllOpen m → budget_of (get m id) ≤ 4
budget_of-le m id h = elim (Option-cases (get m id)) [
  | inl e ↦ rw e (omega arith)
  | inr (s, e) ↦
      let o = h id s e in
      rw e (omega (arith, budget-le 0 s.next_to_send s.in_flight o.ordered, o.windowed))
]

-- Whatever responses, sends, timers and acknowledgements come, in whatever order: of every session
-- that is kept at most two chunks are in flight, in ascending order and below the next one to send,
-- each recorded as sent once to three times; and the session waits for one of them, with either two
-- of them in flight or every frame sent. However long the timers of one session are then set and
-- fire without an acknowledgement or a response, they send at most four frames again.
pub flow_run-AllOpen :
    (es qs : List FlowEvent) (id : String)
    → All (IsQuiet id) qs
    → let m = (flow_run [] es).0 in AllOpen m × (length (flow_run m qs).1 ≤ 4)
unfolding get
flow_run-AllOpen es qs id quiet =
    let m = (flow_run [] es).0 in
    let open_all : AllOpen m = flow_run-keeps [] es (λ j s g. cc) in
    (open_all, omega (arith, quiet_run-budget m id qs open_all quiet, budget_of-le m id open_all))
