-- ===== src/Socket/Reachable.antt =====
-- Every event of websocket.ts keeps the invariant, so it holds after any history of a new client.
use zero_mes.Common.{
  ℕ, suc, zero, ◌-◌, ◌*◌, ◌^◌, ◌≤◌, ◌<◌, min, ◌≡◌, String, Bool, true, inl, inr, Option, some, List,
  [], ◌∷◌, All, All-map, arith, ltb, set, Option-cases, subst, ap,
}
use zero_mes.Socket.State.{
  disconnected, opened, closed, socket_failed, Task, reconnect, ping, wait_timeout, wait_done,
  Timer, Runtime, add_timer, clear_timer, max_reconnect_delay,
}
use zero_mes.Socket.Client.{
  Location, new_client, set_status, clear_reconnect_timer, clear_ping_interval, on_message,
  off_message, on_status, off_status, on_error, off_error, send,
}
use zero_mes.Socket.Events.{
  schedule_reconnect, handle_close, fire, fire_timer, Event, connects, disconnects, sends, waits,
  message_on, message_off, status_on, status_off, error_on, error_off, opens, fails, fires,
  receives, shuts, deliver, run, find_timer, ping_message,
}
use zero_mes.Socket.Timers.{
  Owned, Owned-no_reconnect, reconnects, pings, reconnects_le_one, pings_le_one,
}
use zero_mes.Socket.Invariant.{
  Inv, clear_timer-Inv, clear_reconnect_timer-Inv, reconnect_timer-clear, clear_ping_interval-Inv,
  set_status-Inv, connect-Inv, disconnect-Inv, send-Inv, sockets-Inv, handle_error-Inv,
  handle_open-Inv, handle_message-Inv, wait_for_connection-Inv,
}

-- The delay of the next attempt, from the number of attempts before it.
abbrev pub backoff : ℕ → ℕ
backoff n = min (1000 * 2 ^ n) 30000

pub backoff_bounds : (n : ℕ) → n < 5 → (1000 ≤ backoff n) × (backoff n ≤ 16000)
backoff_bounds zero h = omega arith
backoff_bounds (suc zero) h = omega arith
backoff_bounds (suc (suc zero)) h = omega arith
backoff_bounds (suc (suc (suc zero))) h = omega arith
backoff_bounds (suc (suc (suc (suc zero)))) h = omega arith
backoff_bounds (suc (suc (suc (suc (suc n))))) h = absurd (omega arith)

reconnect_attempts-clear :
    (r : Runtime) → (clear_reconnect_timer r).reconnect_attempts ≡ r.reconnect_attempts
unfolding clear_reconnect_timer clear_timer
reconnect_attempts-clear r = ground arith

pub backoff_lem : (d n : ℕ) → d ≡ 1000 → min (d * 2 ^ (suc n - 1)) max_reconnect_delay ≡ backoff n
backoff_lem d n e = rw e (ap (λ k. min (1000 * 2 ^ k) 30000) (omega arith))

schedule_reconnect-Inv :
    (r : Runtime) → r.reconnect_attempts < 5 → Inv r → Inv (schedule_reconnect r)
unfolding schedule_reconnect add_timer
schedule_reconnect-Inv r few v =
    let q = clear_reconnect_timer r in
    let w = clear_reconnect_timer-Inv r v in
    let same = reconnect_attempts-clear r in
    let mine =
      subst (λ rt. All (Owned rt q.ping_interval) q.timers) (reconnect_timer-clear r) w.owned in
    let owned = Owned-no_reconnect q.ping_interval (some q.next_timer) q.timers mine in
    let bounds = backoff_bounds q.reconnect_attempts (omega arith) in
    let same_delay = backoff_lem q.reconnect_delay q.reconnect_attempts w.delay in ground arith

reconnect_attempts-below :
    (r : Runtime) → ltb r.reconnect_attempts 5 ≡ true → r.reconnect_attempts < 5
reconnect_attempts-below r h = ground arith

handle_close-Inv : (code : ℕ) (r : Runtime) → Inv r → Inv (handle_close code r)
unfolding handle_close
handle_close-Inv code r v =
    let gone = set_status disconnected (clear_ping_interval r) in
    let w = set_status-Inv disconnected _ (clear_ping_interval-Inv r v) in
    ground (arith, schedule_reconnect-Inv gone)

fire-Inv : (task : Task) (r : Runtime) → Inv r → Inv (fire task r)
unfolding fire
fire-Inv reconnect r v = connect-Inv r v
fire-Inv ping r v = elim (Option-cases (send ping_message r)) [
  | inl e ↦ rw e (ground arith)
  | inr (q, e) ↦ rw e (ground (arith, send-Inv ping_message r q v e))
]
fire-Inv (wait_timeout t) r v = ground arith
fire-Inv (wait_done t) r v = ground arith

fire_timer-Inv : (t : Timer) (r : Runtime) → Inv r → Inv (fire_timer t r)
unfolding fire_timer
fire_timer-Inv t r v =
    ground
      (arith, fire-Inv t.task r v, fire-Inv t.task (clear_timer t.id r), clear_timer-Inv t.id r v)

pub deliver-Inv : (e : Event) (r : Runtime) → Inv r → Inv (deliver e r)
unfolding deliver
deliver-Inv connects r v = connect-Inv r v
deliver-Inv disconnects r v = disconnect-Inv r v
deliver-Inv (sends m) r v = elim (Option-cases (send m r)) [
  | inl e ↦ rw (e, deliver) v
  | inr (q, e) ↦ rw (e, deliver) (send-Inv m r q v e)
]
deliver-Inv (waits timeout) r v = wait_for_connection-Inv timeout r v
deliver-Inv (opens i) r v = ground (
  arith,
  handle_open-Inv (record r { sockets = set r.sockets i opened }) (sockets-Inv i opened r v),
)
deliver-Inv (receives i frame) r v = ground (arith, handle_message-Inv frame r v)
deliver-Inv (fails i) r v = ground (arith, handle_error-Inv socket_failed r v)
deliver-Inv (shuts i code) r v = ground (
  arith,
  handle_close-Inv code (record r { sockets = set r.sockets i closed }) (sockets-Inv i closed r v),
)
deliver-Inv (fires k) r v = elim (Option-cases (find_timer k r.timers)) [
  | inl e ↦ rw (e, deliver) v
  | inr (t, e) ↦ rw (e, deliver) (fire_timer-Inv t r v)
]
deliver-Inv (message_on h) r v = unfold on_message in ground arith
deliver-Inv (message_off h) r v = unfold off_message in ground arith
deliver-Inv (status_on h) r v = unfold on_status in ground arith
deliver-Inv (status_off h) r v = unfold off_status in ground arith
deliver-Inv (error_on h) r v = unfold on_error in ground arith
deliver-Inv (error_off h) r v = unfold off_error in ground arith

pub run-Inv : (es : List Event) (r : Runtime) → Inv r → Inv (run es r)
unfolding run
run-Inv [] r v = v
run-Inv (e ∷ es) r v = run-Inv es (deliver e r) (deliver-Inv e r v)

pub new_client-Inv :
    (base : Option String) (here : Location) (allowed : Bool) → Inv (new_client base here allowed)
unfolding new_client
new_client-Inv base here allowed = ground arith

-- After any history of a new client, at most one reconnect timer and at most one ping interval run,
-- at most 5 attempts are counted, and each reconnect timer waits between 1 and 16 seconds.
pub timers-run :
    (base : Option String) (here : Location) (allowed : Bool) (es : List Event)
    → let r = run es (new_client base here allowed) in
      (reconnects r.timers ≤ 1)
      × (pings r.timers ≤ 1)
      × (r.reconnect_attempts ≤ 5)
      × All (λ t. t.task ≡ reconnect → (1000 ≤ t.delay) × (t.delay ≤ 16000)) r.timers
timers-run base here allowed es =
    let r = run es (new_client base here allowed) in
    let v = run-Inv es _ (new_client-Inv base here allowed) in
    (
      reconnects_le_one r.ping_interval r.reconnect_timer r.next_timer r.timers v.falls v.owned,
      pings_le_one r.reconnect_timer r.ping_interval r.next_timer r.timers v.falls v.owned,
      v.attempts,
      All-map (Owned r.reconnect_timer r.ping_interval) _ r.timers (λ t o e. ((o.0 e).1, (o.0 e).2))
          v.owned,
    )
