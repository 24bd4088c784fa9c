-- ===== src/Sync/Flow/Transfers.antt =====
-- A response in several frames whose frames are acknowledged: sendSyncResponseFrames,
-- pumpFlowSession and handleSyncFlowAck of src/sync/syncEngine.ts.
use nkc.Base.{
  ℕ, zero, suc, ◌+◌, ◌-◌, ◌≤◌, ◌<◌, ◌≡◌, refl, sym, ap, subst, ◌∙◌, inl, inr, true, Option, none,
  some, List, [], ◌∷◌, ◌++◌, map, String, eq_refl, arith, length, drop, Bool-cases, Option-cases,
}
use nkc.Base.Dict.{get, set, delete, get-set, get-delete}
use nkc.Sync.{SyncRes, FlowInfo}
use nkc.Sync.Flow.{
  Entry, Session, Sessions, Sent, FlowEvent, respond, sent, fires, acked, find_entry, set_entry,
  delete_entry, is_over, pump_loop, pump_session, pump_flow_session, clear_flow_session,
  open_session, send_sync_response_frames, schedule_flow_retry, handle_sync_flow_ack, flow_step,
  flow_run, sync_flow_window,
}
use nkc.Sync.Flow.Windows.{
  Ordered, pump_loop-Pumped, delete_entry-Ordered, length-delete_entry, set_entry-Ordered,
  find_entry-attempts,
}

-- The chunk is in flight in the session.
abbrev pub IsInFlightIn : Option Session → ℕ → Type 0
IsInFlightIn none k = ⊥
IsInFlightIn (some s) k = (e : Entry) × (find_entry s.in_flight k ≡ some e)

abbrev pub IsInFlight : Sessions → String → ℕ → Type 0
IsInFlight m id k = IsInFlightIn (get m id) k

-- The events say only that a frame of the session has been sent, or acknowledge a chunk in flight.
abbrev pub AreAcks : String → Sessions → List FlowEvent → Type 0
AreAcks id m [] = Unit
AreAcks id m (sent j k ∷ es) = (j ≡ id) × AreAcks id (flow_step m (sent j k)).0 es
AreAcks id m (acked j k ∷ es) =
    (j ≡ id) × IsInFlight m id k × AreAcks id (flow_step m (acked j k)).0 es
AreAcks id m (respond c fs ∷ es) = ⊥
AreAcks id m (fires j k ∷ es) = ⊥

abbrev pub count_acks : List FlowEvent → ℕ
count_acks [] = 0
count_acks (acked j k ∷ es) = suc (count_acks es)
count_acks (sent j k ∷ es) = count_acks es
count_acks (respond c fs ∷ es) = count_acks es
count_acks (fires j k ∷ es) = count_acks es

abbrev pub with_conv : String → List SyncRes → List Sent
with_conv conv fs = map (λ f. (conv, f)) fs

-- The session is open with `n` chunks that are not acknowledged, or is over with none; what it has
-- still to send is `rest`.
abbrev AwaitsIn : Option Session → ℕ → List Sent → Type 0
AwaitsIn none n rest = (n ≡ 0) × (rest ≡ [])
AwaitsIn (some s) n rest =
    Ordered 0 s.next_to_send s.in_flight
    × (s.next_to_send ≤ length s.frames)
    × (length s.in_flight ≤ sync_flow_window)
    × (length s.in_flight + length s.frames ≡ n + s.next_to_send)
    × (rest ≡ with_conv s.conv_id (drop s.next_to_send s.frames))
    × (0 < n)

abbrev Awaits : String → Sessions → ℕ → List Sent → Type 0
Awaits id m n rest = AwaitsIn (get m id) n rest

get-set_self :
    {V : Type 0} (m : List (String × V)) (id : String) (v : V) → get (set m id v) id ≡ some v
get-set_self m id v = rw (eq_refl id) at (get-set m id v id)

get-delete_self : {V : Type 0} (m : List (String × V)) (id : String) → get (delete m id) id ≡ none
get-delete_self m id = rw (eq_refl id) at (get-delete m id id)

with_conv-append :
    (conv : String) (xs ys : List SyncRes)
    → with_conv conv (xs ++ ys) ≡ with_conv conv xs ++ with_conv conv ys
with_conv-append conv [] ys = refl
with_conv-append conv (x ∷ xs) ys = ap (λ r. (conv, x) ∷ r) (with_conv-append conv xs ys)

drop-all : {A : Type 0} (xs : List A) (n : ℕ) → length xs ≤ n → drop n xs ≡ []
drop-all [] zero h = refl
drop-all [] (suc n) h = refl
drop-all (x ∷ xs) zero h = absurd (omega arith)
drop-all (x ∷ xs) (suc n) h = drop-all xs n (omega arith)

-- Sending on takes from what is left.
pump_session-Awaits :
    (m : Sessions) (id : String) (s : Session) (n : ℕ)
    → Ordered 0 s.next_to_send s.in_flight
    → s.next_to_send ≤ length s.frames
    → length s.in_flight ≤ sync_flow_window
    → length s.in_flight + length s.frames ≡ n + s.next_to_send
    → (rest : List Sent) × (with_conv s.conv_id (drop s.next_to_send s.frames)
        ≡ (pump_session m id s).1 ++ rest)
      × Awaits id (pump_session m id s).0 n rest
unfolding pump_session
pump_session-Awaits m id s n o w room count =
    let (p, done) = pump_loop-Pumped (length s.frames) s o w (omega arith) in
    let t = (pump_loop (length s.frames) s).0 in
    let out = (pump_loop (length s.frames) s).1 in
    let rest = with_conv s.conv_id (drop t.next_to_send s.frames) in
    let same = ap length p.frames in
    let split =
      ap (with_conv s.conv_id) (sym p.sent)
      ∙ with_conv-append s.conv_id out (drop t.next_to_send s.frames) in
    elim (Bool-cases (is_over t)) [
      | inl over ↦ (
        rest,
        split,
        rw (over, get-delete_self m id)
            (
              ground (arith, p.within, p.counted),
              ap (with_conv s.conv_id) (drop-all s.frames t.next_to_send (ground arith)),
            ),
      )
      | inr more ↦ (
        rest,
        split,
        rw (more, get-set_self m id t)
            (
              p.ordered,
              omega (arith, p.within, same),
              ground (arith, p.windowed),
              omega (arith, p.counted, count, same),
              rw (p.conv_id, p.frames) refl,
              ground (arith, p.within, p.counted),
            ),
      )
    ]

acked-Awaits :
    (m : Sessions) (id : String) (k n : ℕ) (left : List Sent)
    → Awaits id m n left
    → IsInFlight m id k
    → (rest : List Sent) × (left ≡ (handle_sync_flow_ack m id k).1 ++ rest)
      × (n' : ℕ) × (n ≡ suc n')
      × Awaits id (handle_sync_flow_ack m id k).0 n' rest
unfolding handle_sync_flow_ack
acked-Awaits m id k n left a f = elim (Option-cases (get m id)) [
  | inl e ↦ absurd (subst (λ o. IsInFlightIn o k) e f)
  | inr (s, e) ↦
      let (entry, found) = subst (λ o. IsInFlightIn o k) e f in
      let (o, w, room, count, same, pos) = subst (λ u. AwaitsIn u n left) e a in
      let one = length-delete_entry 0 s.next_to_send k s.in_flight entry o found in
      let (rest, split, next) =
        pump_session-Awaits m id (record s { in_flight = delete_entry s.in_flight k }) (n - 1)
          (delete_entry-Ordered 0 s.next_to_send k s.in_flight o) w (omega (arith, one))
          (omega (arith, one, count)) in
      (
        rest,
        rw (e, handle_sync_flow_ack) (same ∙ split),
        n - 1,
        omega (arith, one, count),
        rw (e, handle_sync_flow_ack) next,
      )
]

sent-Awaits :
    (m : Sessions) (id : String) (k n : ℕ) (left : List Sent)
    → Awaits id m n left
    → Awaits id (schedule_flow_retry m id k) n left
unfolding schedule_flow_retry
sent-Awaits m id k n left a = elim (Option-cases (get m id)) [
  | inl e ↦ rw (e, schedule_flow_retry) a
  | inr (s, e) ↦ elim (Option-cases (find_entry s.in_flight k)) [
    | inl f ↦ rw (e, f, schedule_flow_retry) a
    | inr (d, f) ↦
        let (o, w, room, count, same, pos) = subst (λ u. AwaitsIn u n left) e a in
        let (one, three, _) = find_entry-attempts 0 s.next_to_send k s.in_flight d o f in
        let (o', kept) =
          set_entry-Ordered 0 s.next_to_send k s.in_flight d (record d { armed = true }) o f one
            three in
        let t = record s { in_flight = set_entry s.in_flight k (record d { armed = true }) } in
        rw (e, f, schedule_flow_retry)
          (rw (get-set_self m id t)
            (o', w, omega (arith, room, kept), omega (arith, count, kept), same, pos))
  ]
]

flow_run-Awaits :
    (m : Sessions) (id : String) (n : ℕ) (left : List Sent) (es : List FlowEvent)
    → Awaits id m n left
    → AreAcks id m es
    → count_acks es ≡ n
    → (get (flow_run m es).0 id ≡ none) × ((flow_run m es).1 ≡ left)
unfolding flow_run flow_step
flow_run-Awaits m id n left [] a acks count = elim (Option-cases (get m id)) [
  | inl e ↦ (e, sym (subst (λ o. AwaitsIn o n left) e a).1)
  | inr (s, e) ↦
      let (o, w, room, same, rest, pos) = subst (λ u. AwaitsIn u n left) e a in
      absurd (omega (arith, count, pos))
]
flow_run-Awaits m id n left (respond c fs ∷ es) a acks count = absurd acks
flow_run-Awaits m id n left (fires j k ∷ es) a acks count = absurd acks
flow_run-Awaits m id n left (sent j k ∷ es) a (same, acks) count =
    flow_run-Awaits (schedule_flow_retry m j k) id n left es
      (subst (λ i. Awaits id (schedule_flow_retry m i k) n left) (sym same)
        (sent-Awaits m id k n left a))
      acks count
flow_run-Awaits m id n left (acked j k ∷ es) a (same, there, acks) count =
    let (rest, split, n', less, next) = acked-Awaits m id k n left a there in
    let after : Awaits id (handle_sync_flow_ack m j k).0 n' rest =
      subst (λ i. Awaits id (handle_sync_flow_ack m i k).0 n' rest) (sym same) next in
    let (over, all) =
      flow_run-Awaits (handle_sync_flow_ack m j k).0 id n' rest es after acks (omega arith) in
    (
      over,
      ap (λ o. (handle_sync_flow_ack m j k).1 ++ o) all
          ∙ subst (λ i. (handle_sync_flow_ack m i k).1 ++ rest ≡ left) (sym same) (sym split),
    )

open_session-pumps :
    (m : Sessions) (id conv : String) (frames : List SyncRes)
    → let start : Session = record {
      conv_id = conv;
      frames = frames;
      next_to_send = 0;
      in_flight = [];
    } in
      open_session m id conv frames ≡ pump_session (set (delete m id) id start) id start
unfolding open_session pump_flow_session clear_flow_session
open_session-pumps m id conv frames =
    let start : Session = record {
      conv_id = conv;
      frames = frames;
      next_to_send = 0;
      in_flight = [];
    } in
    rw (get-set_self (delete m id) id start, pump_flow_session) refl

respond-opens :
    (m : Sessions) (conv : String) (f g : SyncRes) (fs : List SyncRes) (flow : FlowInfo)
    → f.flow ≡ some flow
    → flow_step m (respond conv (f ∷ g ∷ fs))
      ≡ pump_session
          (set
            (delete m flow.session_id)
            flow.session_id
            (record { conv_id = conv; frames = f ∷ g ∷ fs; next_to_send = 0; in_flight = [] }))
          flow.session_id
          (record { conv_id = conv; frames = f ∷ g ∷ fs; next_to_send = 0; in_flight = [] })
unfolding flow_step send_sync_response_frames
respond-opens m conv f g fs flow e =
    (λ i. elim (e i) [
      | none ↦ (m, (conv, f) ∷ [])
      | some found ↦ open_session m found.session_id conv (f ∷ g ∷ fs)
    ])
    ∙ open_session-pumps m flow.session_id conv (f ∷ g ∷ fs)

-- A response in several frames, under the name of its session, whatever other sessions there are:
-- if no timer of a frame fires and the peer acknowledges chunks in flight until it has acknowledged as many as there are frames,
-- then every frame has been sent exactly once, in order, and the session is over.
pub acked_transfer :
    (m : Sessions) (conv : String) (f g : SyncRes) (fs : List SyncRes) (flow : FlowInfo)
    (es : List FlowEvent)
    → f.flow ≡ some flow
    → AreAcks flow.session_id (flow_step m (respond conv (f ∷ g ∷ fs))).0 es
    → count_acks es ≡ length (f ∷ g ∷ fs)
    → let (after, out) = flow_run m (respond conv (f ∷ g ∷ fs) ∷ es) in
      (get after flow.session_id ≡ none) × (out ≡ with_conv conv (f ∷ g ∷ fs))
unfolding flow_run
acked_transfer m conv f g fs flow es e acks count =
    let start : Session = record {
      conv_id = conv;
      frames = f ∷ g ∷ fs;
      next_to_send = 0;
      in_flight = [];
    } in
    let opened = set (delete m flow.session_id) flow.session_id start in
    let (rest, split, awaits) =
      pump_session-Awaits opened flow.session_id start (length (f ∷ g ∷ fs)) (omega arith)
        (omega arith) (omega arith) (omega arith) in
    let first : flow_step m (respond conv (f ∷ g ∷ fs))
        ≡ pump_session opened flow.session_id start =
      respond-opens m conv f g fs flow e in
    let (over, all) =
      flow_run-Awaits (pump_session opened flow.session_id start).0 flow.session_id
        (length (f ∷ g ∷ fs)) rest es awaits
        (subst (λ r. AreAcks flow.session_id r.0 es) first acks) count in
    rw first (over, ap (λ o. (pump_session opened flow.session_id start).1 ++ o) all ∙ sym split)
