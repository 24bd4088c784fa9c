-- ===== src/Sync/Flow/Sessions.antt =====
-- What holds of the outgoing flow sessions of src/sync/syncEngine.ts between two events.
use nkc.Base.{
  ℕ, suc, ◌≤◌, ◌<◌, ◌≡◌, sym, ap, subst, ◌∙◌, inl, inr, true, false, none, some, List, [], ◌∷◌,
  String, str_eq, eq_refl, leb, arith, length, get_elem?, Bool-cases, Option-cases,
}
use nkc.Base.Dict.{get, set, delete, get-set, get-delete}
use nkc.Sync.{SyncRes}
use nkc.Sync.Flow.{
  Entry, Session, Sessions, FlowEvent, respond, sent, fires, acked, find_entry, set_entry,
  delete_entry, can_send, is_over, pump_loop, pump_session, pump_flow_session, clear_flow_session,
  open_session, send_sync_response_frames, schedule_flow_retry, retry, retry_fires,
  handle_sync_flow_ack, flow_step, flow_run, sync_flow_window, sync_flow_max_retries,
}
use nkc.Sync.Flow.Windows.{
  Ordered, pump_loop-Pumped, delete_entry-Ordered, set_entry-Ordered, find_entry-attempts,
  length-delete_entry-le,
}

-- A session that is kept: at most two chunks are in flight, in order, among those already sent, each
-- sent at most three times; no more can be sent now, and the session is waiting for something.
pub record IsOpen (s : Session) : Type 0 where
  pub ordered : Ordered 0 s.next_to_send s.in_flight
  pub within : s.next_to_send ≤ length s.frames
  pub windowed : length s.in_flight ≤ sync_flow_window
  pub full : can_send s ≡ false
  pub waiting : 0 < length s.in_flight

-- Every session but the named one is such.
abbrev pub OpenBut : String → Sessions → Type 0
OpenBut id m = (j : String) (s : Session) → str_eq id j ≡ false → get m j ≡ some s → IsOpen s

abbrev pub AllOpen : Sessions → Type 0
AllOpen m = (j : String) (s : Session) → get m j ≡ some s → IsOpen s

AllOpen-set :
    (m : Sessions) (id : String) (t : Session) → OpenBut id m → IsOpen t → AllOpen (set m id t)
AllOpen-set m id t h o j s g = elim (Bool-cases (str_eq id j)) [
  | inl same ↦
      let found : some t ≡ some s = sym (rw same at (get-set m id t j)) ∙ g in
      let e : t ≡ s = cc in subst IsOpen e o
  | inr other ↦ h j s other (sym (rw other at (get-set m id t j)) ∙ g)
]

AllOpen-delete : (m : Sessions) (id : String) → OpenBut id m → AllOpen (delete m id)
AllOpen-delete m id h j s g = elim (Bool-cases (str_eq id j)) [
  | inl same ↦ let found : none ≡ some s = sym (rw same at (get-delete m id j)) ∙ g in cc
  | inr other ↦ h j s other (sym (rw other at (get-delete m id j)) ∙ g)
]

-- A session with room in its window is sent on.
pump_session-AllOpen :
    (m : Sessions) (id : String) (s : Session)
    → OpenBut id m
    → Ordered 0 s.next_to_send s.in_flight
    → s.next_to_send ≤ length s.frames
    → length s.in_flight ≤ sync_flow_window
    → AllOpen (pump_session m id s).0
unfolding pump_session
pump_session-AllOpen m id s h o w room =
    let (p, done) = pump_loop-Pumped (length s.frames) s o w (omega arith) in
    let t = (pump_loop (length s.frames) s).0 in
    let same = ap length p.frames in
    elim (Bool-cases (is_over t)) [
      | inl over ↦ rw over (AllOpen-delete m id h)
      | inr more ↦ rw more (
          AllOpen-set m id t h (record {
            ordered = p.ordered;
            within = omega (arith, p.within, same);
            windowed = ground (arith, p.windowed);
            full = done;
            waiting = ground (arith, p.within);
          }))
    ]

open_session-AllOpen :
    (m : Sessions) (id conv : String) (frames : List SyncRes)
    → AllOpen m
    → AllOpen (open_session m id conv frames).0
unfolding open_session pump_flow_session clear_flow_session
open_session-AllOpen m id conv frames h =
    let s : Session = record {
      conv_id = conv;
      frames = frames;
      next_to_send = 0;
      in_flight = [];
    } in
    let start = set (delete m id) id s in
    let others : OpenBut id start = λ j u other g.
      AllOpen-delete m id (λ i v _ f. h i v f) j u
        (sym (rw other at (get-set (delete m id) id s j)) ∙ g) in
    let found : get start id ≡ some s = rw (eq_refl id) at (get-set (delete m id) id s id) in
    rw (found, pump_flow_session)
      (pump_session-AllOpen start id s others (omega arith) (omega arith) (omega arith))

respond-AllOpen :
    (m : Sessions) (conv : String) (frames : List SyncRes)
    → AllOpen m
    → AllOpen (send_sync_response_frames m conv frames).0
unfolding send_sync_response_frames
respond-AllOpen m conv [] h = h
respond-AllOpen m conv (f ∷ []) h = h
respond-AllOpen m conv (f ∷ g ∷ fs) h = elim (Option-cases f.flow) [
  | inl e ↦ rw (e, send_sync_response_frames) h
  | inr (flow, e) ↦
      rw (e, send_sync_response_frames) (open_session-AllOpen m flow.session_id conv (f ∷ g ∷ fs) h)
]

-- A chunk in flight gets another entry.
re_enter-AllOpen :
    (m : Sessions) (id : String) (s : Session) (k : ℕ) (d e : Entry)
    → AllOpen m
    → get m id ≡ some s
    → find_entry s.in_flight k ≡ some d
    → 1 ≤ e.attempts
    → e.attempts ≤ sync_flow_max_retries
    → AllOpen (set m id (record s { in_flight = set_entry s.in_flight k e }))
re_enter-AllOpen m id s k d e h g f a b =
    let o = h id s g in
    let (ordered, same) = set_entry-Ordered 0 s.next_to_send k s.in_flight d e o.ordered f a b in
    AllOpen-set m id (record s { in_flight = set_entry s.in_flight k e }) (λ j u _ i. h j u i)
      (record {
        ordered = ordered;
        within = o.within;
        windowed = omega (arith, o.windowed, same);
        full = rw same o.full;
        waiting = omega (arith, o.waiting, same);
      })

sent-AllOpen :
    (m : Sessions) (id : String) (k : ℕ) → AllOpen m → AllOpen (schedule_flow_retry m id k)
unfolding schedule_flow_retry
sent-AllOpen m id k h = elim (Option-cases (get m id)) [
  | inl e ↦ rw (e, schedule_flow_retry) h
  | inr (s, e) ↦ elim (Option-cases (find_entry s.in_flight k)) [
    | inl f ↦ rw (e, f, schedule_flow_retry) h
    | inr (d, f) ↦
        let (one, three, _) =
          find_entry-attempts 0 s.next_to_send k s.in_flight d (h id s e).ordered f in
        rw (e, f, schedule_flow_retry)
          (re_enter-AllOpen m id s k d (record d { armed = true }) h e f one three)
  ]
]

-- A chunk is no longer awaited, and what has room is sent.
drop_entry-AllOpen :
    (m : Sessions) (id : String) (s : Session) (k : ℕ)
    → AllOpen m
    → get m id ≡ some s
    → AllOpen (pump_session m id (record s { in_flight = delete_entry s.in_flight k })).0
drop_entry-AllOpen m id s k h e =
    let o = h id s e in
    pump_session-AllOpen m id (record s { in_flight = delete_entry s.in_flight k })
      (λ j u _ i. h j u i) (delete_entry-Ordered 0 s.next_to_send k s.in_flight o.ordered) o.within
      (omega (arith, o.windowed, length-delete_entry-le k s.in_flight))

acked-AllOpen :
    (m : Sessions) (id : String) (k : ℕ) → AllOpen m → AllOpen (handle_sync_flow_ack m id k).0
unfolding handle_sync_flow_ack
acked-AllOpen m id k h = elim (Option-cases (get m id)) [
  | inl e ↦ rw (e, handle_sync_flow_ack) h
  | inr (s, e) ↦ rw (e, handle_sync_flow_ack) (drop_entry-AllOpen m id s k h e)
]

retry-AllOpen :
    (m : Sessions) (id : String) (k : ℕ) (s : Session) (d : Entry)
    → AllOpen m
    → get m id ≡ some s
    → find_entry s.in_flight k ≡ some d
    → AllOpen (retry m id k s d).0
unfolding retry clear_flow_session
retry-AllOpen m id k s d h e f = elim (Bool-cases (leb sync_flow_max_retries d.attempts)) [
  | inl over ↦ rw over (AllOpen-delete m id (λ j u _ i. h j u i))
  | inr again ↦ elim (Option-cases (get_elem? s.frames k)) [
    | inl x ↦ rw (again, x, retry) (drop_entry-AllOpen m id s k h e)
    | inr (y, x) ↦
        rw (again, x, retry)
          (re_enter-AllOpen m id s k d (record { attempts = suc d.attempts; armed = false }) h e f
            (omega arith) (ground arith))
  ]
]

fires-AllOpen : (m : Sessions) (id : String) (k : ℕ) → AllOpen m → AllOpen (retry_fires m id k).0
unfolding retry_fires
fires-AllOpen m id k h = elim (Option-cases (get m id)) [
  | inl e ↦ rw (e, retry_fires) h
  | inr (s, e) ↦ elim (Option-cases (find_entry s.in_flight k)) [
    | inl f ↦ rw (e, f, retry_fires) h
    | inr (d, f) ↦ elim (Bool-cases d.armed) [
      | inl a ↦ rw (e, f, a, retry_fires) (retry-AllOpen m id k s d h e f)
      | inr a ↦ rw (e, f, a, retry_fires) h
    ]
  ]
]

pub flow_step-AllOpen : (m : Sessions) (e : FlowEvent) → AllOpen m → AllOpen (flow_step m e).0
unfolding flow_step
flow_step-AllOpen m (respond conv frames) h = respond-AllOpen m conv frames h
flow_step-AllOpen m (sent id k) h = sent-AllOpen m id k h
flow_step-AllOpen m (fires id k) h = fires-AllOpen m id k h
flow_step-AllOpen m (acked id k) h = acked-AllOpen m id k h

pub flow_run-keeps : (m : Sessions) (es : List FlowEvent) → AllOpen m → AllOpen (flow_run m es).0
unfolding flow_run
flow_run-keeps m [] h = h
flow_run-keeps m (e ∷ es) h = flow_run-keeps (flow_step m e).0 es (flow_step-AllOpen m e h)
