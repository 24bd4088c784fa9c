-- ===== src/Sync/Connection/Lifetimes/Openings.antt =====
-- Openings, losses and plans keep a manager sound: src/sync/connectionManager.ts.
use nkc.Base.{
  ℕ, ◌≤◌, ◌≡◌, refl, sym, ap, inl, inr, Bool, true, false, Option, none, some, is_some, ◌||◌, not,
  ◌∙◌, ◌^◌, ◌*◌, subst, or_default, arith, Option-cases, if◌then◌else◌,
}
use native.Mathlib.Nat.{min-le_right}
use nkc.Sync.Connection.{
  closed, Opening, awaits_schedule, awaits_connect, awaits_flush, no_task, Options, Manager,
  schedule_reconnect_if_needed, open_connection, stop, opened, plan_reconnect, planned,
  detach_connection, backoff_delay_ms, stop_heartbeat, is_idle, emit, asks_outbox, connects, closes,
  flushes, start_heartbeat, attach_connection, connecting, connected, after_schedule, idle,
}

-- A manager that has been stopped is closed, without a connection and without a timer that would
-- make one. The heartbeat beats while there is a connection; a ping is pending only then. A timer to
-- connect again runs no longer than the longest backoff. An opening waits for the planning of the
-- next attempt only while that is going on.
pub record IsSound (o : Options) (m : Manager) : Type 0 where
  pub state_lem : m.closed ≡ true → m.state ≡ closed
  pub connection_lem : m.closed ≡ true → m.connection ≡ none
  pub timer_lem : m.closed ≡ true → m.reconnect_timer ≡ none
  pub heartbeat_lem : m.heartbeat ≡ is_some m.connection
  pub ping_lem : m.heartbeat ≡ false → m.pending_ping ≡ none
  pub bounded : (delay : ℕ) → m.reconnect_timer ≡ some delay → delay ≤ o.max_backoff_ms
  pub waiting : m.opening ≡ awaits_schedule → m.scheduling ≡ true

-- A manager that is not closed and has neither a connection nor a ping.
pub open_lem :
    (o : Options) (m : Manager)
    → m.closed ≡ false
    → m.heartbeat ≡ is_some m.connection
    → (m.heartbeat ≡ false → m.pending_ping ≡ none)
    → ((delay : ℕ) → m.reconnect_timer ≡ some delay → delay ≤ o.max_backoff_ms)
    → (m.opening ≡ awaits_schedule → m.scheduling ≡ true)
    → IsSound o m
open_lem o m live h p b w = record {
  state_lem = λ c. cc;
  connection_lem = λ c. cc;
  timer_lem = λ c. cc;
  heartbeat_lem = h;
  ping_lem = p;
  bounded = b;
  waiting = w;
}

-- A property of both branches.
pub if-holds {ℓ} :
    {A : Type ℓ} (P : A → Type 0) (b : Bool) {x y : A}
    → (b ≡ true → P x)
    → (b ≡ false → P y)
    → P (if b then x else y)
if-holds P true f g = f refl
if-holds P false f g = g refl

pub elim-holds {ℓ κ} :
    {A : Type ℓ} {B : Type κ} (P : A → Type 0) (found : Option B) {x : A} {f : B → A}
    → (found ≡ none → P x)
    → ((b : B) → found ≡ some b → P (f b))
    → P (elim found [ none ↦ x | some b ↦ f b ])
elim-holds P none f g = f refl
elim-holds P (some b) f g = g b refl

-- Operations that leave the connection, the timer and the state alone.
pub kept :
    (o : Options) (m n : Manager)
    → IsSound o m
    → n.closed ≡ m.closed
    → n.state ≡ m.state
    → n.connection ≡ m.connection
    → n.reconnect_timer ≡ m.reconnect_timer
    → n.heartbeat ≡ m.heartbeat
    → (m.heartbeat ≡ false → n.pending_ping ≡ none)
    → (n.opening ≡ awaits_schedule → n.scheduling ≡ true)
    → IsSound o n
kept o m n s c st cn t h p w = record {
  state_lem = λ e. st ∙ s.state_lem (sym c ∙ e);
  connection_lem = λ e. cn ∙ s.connection_lem (sym c ∙ e);
  timer_lem = λ e. t ∙ s.timer_lem (sym c ∙ e);
  heartbeat_lem = h ∙ s.heartbeat_lem ∙ ap is_some (sym cn);
  ping_lem = λ e. p (sym h ∙ e);
  bounded = λ d e. s.bounded d (sym t ∙ e);
  waiting = w;
}

pub closed-detach_connection : (m : Manager) → (detach_connection m).closed ≡ m.closed
closed-detach_connection m = elim (Option-cases m.connection) [
  | inl e ↦ rw e refl
  | inr (c, e) ↦ rw e refl
]

pub timer-detach_connection :
    (m : Manager) → (detach_connection m).reconnect_timer ≡ m.reconnect_timer
timer-detach_connection m = elim (Option-cases m.connection) [
  | inl e ↦ rw e refl
  | inr (c, e) ↦ rw e refl
]

pub after_schedule-ends : (x : Opening) → after_schedule x ≡ awaits_schedule → false ≡ true
after_schedule-ends no_task e = cc
after_schedule-ends awaits_connect e = cc
after_schedule-ends awaits_flush e = cc
after_schedule-ends awaits_schedule e = cc

pub backoff_delay_ms-bounded : (attempt limit : ℕ) → backoff_delay_ms attempt limit ≤ limit
unfolding backoff_delay_ms
backoff_delay_ms-bounded attempt limit = min-le_right (2 ^ attempt * 1000) limit

-- What the answer of the outbox makes of a manager that is not closed.
pub planned-IsSound :
    (o : Options) (answer : Option Bool) (m : Manager)
    → m.closed ≡ false
    → IsSound o m
    → IsSound o (planned o answer m)
unfolding planned
planned-IsSound o none m live s = s
planned-IsSound o (some false) m live s =
    open_lem o (record m { state = idle }) live s.heartbeat_lem s.ping_lem s.bounded s.waiting
planned-IsSound o (some true) m live s =
    open_lem o (planned o (some true) m) live s.heartbeat_lem s.ping_lem
      (λ d t.
        subst (λ x. x ≤ o.max_backoff_ms) (ap (λ x. or_default x 0) t)
          (backoff_delay_ms-bounded m.reconnect_attempt o.max_backoff_ms))
      s.waiting

module _ (o : Options) (m : Manager) (s : IsSound o m) where
  pub dropped-IsSound : IsSound o (detach_connection (stop_heartbeat m))
  dropped-IsSound = elim (Option-cases m.connection) [
    | inl e ↦ rw e (record {
      state_lem = s.state_lem;
      connection_lem = λ c. refl;
      timer_lem = s.timer_lem;
      heartbeat_lem = refl;
      ping_lem = λ c. refl;
      bounded = s.bounded;
      waiting = s.waiting;
    })
    | inr (c, e) ↦ rw e (record {
      state_lem = s.state_lem;
      connection_lem = λ c. refl;
      timer_lem = s.timer_lem;
      heartbeat_lem = refl;
      ping_lem = λ c. refl;
      bounded = s.bounded;
      waiting = s.waiting;
    })
  ]

  pub schedule-IsSound : IsSound o (schedule_reconnect_if_needed m)
  unfolding schedule_reconnect_if_needed
  schedule-IsSound =
      if-holds (IsSound o) (m.closed || (is_some m.reconnect_timer || m.scheduling)) {x = m}
        {y = emit asks_outbox (record m { scheduling = true })} (λ e. s)
        (λ e. kept o m _ s refl refl refl refl refl s.ping_lem (λ w. refl))

  pub open_connection-IsSound : IsSound o (open_connection m)
  unfolding open_connection
  open_connection-IsSound =
      if-holds (IsSound o) (m.closed || not (is_idle m.opening)) {x = m}
        {y = emit connects (record m { state = connecting; opening = awaits_connect })} (λ e. s)
        (λ e. open_lem o _ (ground arith) s.heartbeat_lem s.ping_lem s.bounded (λ w. cc))

  pub opened-IsSound : (c now : ℕ) → IsSound o (opened c now m)
  unfolding opened
  opened-IsSound c now =
      if-holds (IsSound o) m.closed {x = emit (closes c) (record m { opening = no_task })}
        {y = emit flushes (
          start_heartbeat (record (attach_connection c now m) {
            reconnect_attempt = 0;
            state = connected;
            opening = awaits_flush;
          }))}
        (λ e. kept o m _ s refl refl refl refl refl s.ping_lem (λ w. cc))
        (λ e.
          open_lem o _ (closed-detach_connection m ∙ e) refl (λ h. cc)
            (λ d t. s.bounded d (sym (timer-detach_connection m) ∙ t)) (λ w. cc))

  pub stop-IsSound : IsSound o (stop m)
  unfolding stop
  stop-IsSound = elim (Option-cases m.connection) [
    | inl e ↦
        rw (e, stop)
          (record {
            state_lem = λ c. refl;
            connection_lem = λ c. refl;
            timer_lem = λ c. refl;
            heartbeat_lem = refl;
            ping_lem = λ c. refl;
            bounded = λ d t. cc;
            waiting = s.waiting;
          })
    | inr (c, e) ↦
        rw (e, stop)
          (record {
            state_lem = λ c. refl;
            connection_lem = λ c. refl;
            timer_lem = λ c. refl;
            heartbeat_lem = refl;
            ping_lem = λ c. refl;
            bounded = λ d t. cc;
            waiting = s.waiting;
          })
  ]

  pub plan_reconnect-IsSound : (answer : Option Bool) → IsSound o (plan_reconnect o answer m)
  unfolding plan_reconnect
  plan_reconnect-IsSound answer =
      let ended = record m { scheduling = false; opening = after_schedule m.opening } in
      let same : IsSound o ended =
        kept o m ended s refl refl refl refl refl s.ping_lem (after_schedule-ends m.opening) in
      if-holds (IsSound o) (m.closed || is_some m.reconnect_timer) {x = ended}
        {y = planned o answer ended} (λ e. same)
        (λ e. planned-IsSound o answer ended (ground arith) same)
