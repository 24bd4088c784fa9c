-- ===== src/Sync/Connection/Recovery.antt =====
-- A lost connection is made again: src/sync/connectionManager.ts.
use nkc.Base.{
  ℕ, zero, suc, ◌+◌, ◌≡◌, refl, sym, subst, true, false, none, some, List, [], ◌∷◌, ◌==◌, arith,
  ◌*◌, ◌^◌, min,
}
use nkc.Sync.Connection.{
  reconnecting, connected, no_task, Options, Manager, backoff_delay_ms,
  schedule_reconnect_if_needed, open_connection, opened, plan_reconnect, planned, fail_opening,
  handle_connection_lost,
}
use nkc.Sync.Connection.Events.{
  Event, connect_fails, reconnects, connects_with, outbox_answers, write_fails, step, run,
  reconnect_fires,
}

-- A manager that waits to connect again, for the `n`th time.
pub record IsWaiting (o : Options) (n : ℕ) (m : Manager) : Type 0 where
  pub live : m.closed ≡ false
  pub state : m.state ≡ reconnecting
  pub detached : m.connection ≡ none
  pub timed : m.reconnect_timer ≡ some (backoff_delay_ms n o.max_backoff_ms)
  pub attempts : m.reconnect_attempt ≡ n + 1
  pub unopened : m.opening ≡ no_task
  pub unasked : m.scheduling ≡ false

-- An attempt that fails, after which something is still to be sent.
abbrev pub failed_attempt : List Event → List Event
failed_attempt es = reconnects ∷ connect_fails ∷ outbox_answers (some true) ∷ es

abbrev pub failed_attempts : ℕ → List Event → List Event
failed_attempts zero es = es
failed_attempts (suc k) es = failed_attempt (failed_attempts k es)

waiting : Options → ℕ → Manager → Manager
waiting o n m = record m {
  closed = false;
  state = reconnecting;
  connection = none;
  reconnect_timer = some (backoff_delay_ms n o.max_backoff_ms);
  reconnect_attempt = n + 1;
  opening = no_task;
  scheduling = false;
}

waiting_lem : (o : Options) (n : ℕ) (m : Manager) → IsWaiting o n m → Path Manager (waiting o n m) m
unfolding waiting
waiting_lem o n m w = λ i. record m {
  closed = sym w.live i;
  state = sym w.state i;
  connection = sym w.detached i;
  reconnect_timer = sym w.timed i;
  reconnect_attempt = sym w.attempts i;
  opening = sym w.unopened i;
  scheduling = sym w.unasked i;
}

failed_attempt-IsWaiting :
    (o : Options) (n : ℕ) (m : Manager)
    → IsWaiting o n m
    → IsWaiting o (n + 1) (run o m (failed_attempt []))
unfolding run step reconnect_fires open_connection fail_opening schedule_reconnect_if_needed
    plan_reconnect planned waiting
failed_attempt-IsWaiting o n m w =
    subst (λ x. IsWaiting o (n + 1) (run o x (failed_attempt []))) (waiting_lem o n m w)
      (record {
        live = refl;
        state = refl;
        detached = refl;
        timed = refl;
        attempts = refl;
        unopened = refl;
        unasked = refl;
      })

made_again :
    (o : Options) (n d now : ℕ) (m : Manager)
    → IsWaiting o n m
    → let after = run o m (reconnects ∷ connects_with d now ∷ []) in
      (after.connection ≡ some d) × (after.state ≡ connected) × (after.reconnect_attempt ≡ 0)
unfolding run step reconnect_fires open_connection opened waiting
made_again o n d now m w =
    subst
      (λ x.
        let after = run o x (reconnects ∷ connects_with d now ∷ []) in
        (after.connection ≡ some d) × (after.state ≡ connected) × (after.reconnect_attempt ≡ 0))
      (waiting_lem o n m w) (refl, refl, refl)

-- What the manager comes to after any number of failed attempts and one that succeeds.
attempts_end :
    (o : Options) (n k d now : ℕ) (m : Manager)
    → IsWaiting o n m
    → IsWaiting o (n + k) (run o m (failed_attempts k []))
      × (let after = run o m (failed_attempts k (reconnects ∷ connects_with d now ∷ [])) in
          (after.connection ≡ some d) × (after.state ≡ connected) × (after.reconnect_attempt ≡ 0))
unfolding run
attempts_end o n zero d now m w =
    let count : n + 0 ≡ n = omega arith in (rw count w, made_again o n d now m w)
attempts_end o n (suc k) d now m w =
    let (waits, again) =
      attempts_end o (n + 1) k d now (run o m (failed_attempt []))
        (failed_attempt-IsWaiting o n m w) in
    let count : n + suc k ≡ n + 1 + k = omega arith in (rw count waits, again)

lost-IsWaiting :
    (o : Options) (m : Manager) (c : ℕ)
    → m.closed ≡ false
    → m.connection ≡ some c
    → m.reconnect_timer ≡ none
    → m.opening ≡ no_task
    → m.scheduling ≡ false
    → IsWaiting o m.reconnect_attempt (run o m (write_fails c ∷ outbox_answers (some true) ∷ []))
unfolding run step handle_connection_lost schedule_reconnect_if_needed plan_reconnect planned
lost-IsWaiting o m c live attached untimed unopened unasked =
    let given : Path Manager
        (record m {
          closed = false;
          connection = some c;
          reconnect_timer = none;
          opening = no_task;
          scheduling = false;
        })
        m =
      λ i. record m {
        closed = sym live i;
        connection = sym attached i;
        reconnect_timer = sym untimed i;
        opening = sym unopened i;
        scheduling = sym unasked i;
      } in
    let same : (c == c) ≡ true = ground arith in
    subst
      (λ x.
        IsWaiting o x.reconnect_attempt (run o x (write_fails c ∷ outbox_answers (some true) ∷ [])))
      given
      (rw same (record {
        live = refl;
        state = refl;
        detached = refl;
        timed = refl;
        attempts = refl;
        unopened = refl;
        unasked = refl;
      }))

-- A manager whose connection is lost, while no opening, planning or timer is under way and something
-- is to be sent, tries again however many attempts fail. After `k` failures it waits twice as long
-- for each attempt since the last success, up to the longest backoff; and the first attempt that
-- succeeds makes it connected over the new connection, with the count of attempts at 0.
pub lost_connection_recovers :
    (o : Options) (m : Manager) (c d k now : ℕ)
    → m.closed ≡ false
    → m.connection ≡ some c
    → m.reconnect_timer ≡ none
    → m.opening ≡ no_task
    → m.scheduling ≡ false
    → let waits = run o m (write_fails c ∷ outbox_answers (some true) ∷ failed_attempts k []) in
      let after = run o m (
        write_fails c
        ∷ outbox_answers (some true)
        ∷ failed_attempts k (reconnects ∷ connects_with d now ∷ [])) in
      (waits.state ≡ reconnecting)
      × (waits.reconnect_timer ≡ some (min (2 ^ (m.reconnect_attempt + k) * 1000) o.max_backoff_ms))
      × (after.connection ≡ some d)
      × (after.state ≡ connected)
      × (after.reconnect_attempt ≡ 0)
unfolding run backoff_delay_ms
lost_connection_recovers o m c d k now live attached untimed unopened unasked =
    let lost = run o m (write_fails c ∷ outbox_answers (some true) ∷ []) in
    let w = lost-IsWaiting o m c live attached untimed unopened unasked in
    let (waits, (made, up, none_failed)) = attempts_end o m.reconnect_attempt k d now lost w in
    (waits.state, waits.timed, made, up, none_failed)
