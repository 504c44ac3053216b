-- ===== src/Socket/Lifetime.antt =====
-- A promise of waitForConnection through any history of the client of websocket.ts: its timers, and every event.
use zero_mes.Common.{
  ℕ, ◌+◌, ◌≤◌, ◌≡◌, refl, ap, sym, subst, not, some, List, [], ◌∷◌, select, All, ◌==◌, arith, set,
  get_elem?, Option-cases, Bool-cases, inl, inr, if◌then◌else◌,
}
use zero_mes.Socket.State.{
  opened, closed, listener, waiter, socket_failed, Task, reconnect, ping, wait_timeout, wait_done,
  Timer, Runtime, clear_timer, is_opened,
}
use zero_mes.Socket.Client.{
  delete_status_handler, is_connected, handle_error, send, on_message, off_message, on_status,
  off_status, on_error, off_error,
}
use zero_mes.Socket.Events.{
  fire, fire_timer, repeats, find_timer, ping_message, Event, connects, disconnects, sends, waits,
  message_on, message_off, status_on, status_off, error_on, error_off, opens, fails, fires,
  receives, shuts, deliver, run, is_alive, is_connecting, handle_open, handle_message, handle_close,
}
use zero_mes.Socket.Timers.{Falls}
use zero_mes.Socket.Invariant.{Inv, sockets-Inv}
use zero_mes.Socket.Settling.{waiters-add}
use zero_mes.Socket.Reachable.{deliver-Inv}
use zero_mes.Socket.Histories.{deliver-Once, waiters-delete_listener}
use zero_mes.Socket.Waits.{
  one, is_done, is_timeout, waiters, timeouts, dones, settles, Once, waiters-delete,
}
use zero_mes.Socket.Firing.{timeouts-find}
use zero_mes.Socket.Free.{
  FreeName, FreeHandler, FreeName-Frees, FreeHandler-Frees, clear_timer-Frees, Away-next,
  dones-select-Away, FreeHandler-delete, FreeHandler-add,
}
use zero_mes.Socket.Lasting.{Lasts}
use zero_mes.Socket.Kept.{
  same-Lasts, if-Lasts, connect-Lasts, disconnect-Lasts, send-Lasts, wait_for_connection-Lasts,
  handle_error-Lasts, handle_open-Lasts, handle_message-Lasts, handle_close-Lasts,
}

module _ (t c : ℕ) where
  -- A timer that is found is the only one with its number.
  dones-found :
      (k n : ℕ) (xs : List Timer) (x : Timer)
      → Falls n xs
      → find_timer k xs ≡ some x
      → (x.id ≡ k)
        × (dones t (select (λ y. not (y.id == k)) xs) + one (is_done t x.task) ≡ dones t xs)
  unfolding find_timer
  dones-found k n [] x f e = cc
  dones-found k n (y ∷ xs) x f e = elim (Bool-cases (y.id == k)) [
    | inl h ↦
        let same : y ≡ x = ground arith in
        let rest = dones-select-Away t k xs (Away-next t y.id k xs (ground (arith, h)) f.1) in
        ground (arith, rest, ap (λ z. one (is_done t z.task)) same)
    | inr h ↦ ground (arith, dones-found k y.id xs x f.1)
  ]

  -- What is left of the promise while the callback of a timer runs.
  record Fires (task : Task) (r : Runtime) : Type 0 where
    rest :
        (c
          ≤ waiters t r.status_handlers
            + dones t r.timers
            + settles t r.trace
            + one (is_done t task))
        × (waiters t r.status_handlers + dones t r.timers + settles t r.trace + one (is_done t task)
            ≤ 1)
    reconnect_free : FreeName t r r.reconnect_timer
    ping_free : FreeName t r r.ping_interval
    handlers_free : All (FreeHandler t r) r.status_handlers

  clear_timer-Fires :
      (k : ℕ) (x : Timer) (r : Runtime)
      → Falls r.next_timer r.timers
      → find_timer k r.timers ≡ some x
      → Lasts t c r
      → Fires x.task (clear_timer x.id r)
  unfolding clear_timer
  clear_timer-Fires k x r f e v =
      let q = clear_timer x.id r in
      let frees = clear_timer-Frees t x.id r in
      let (id, count) = dones-found k r.next_timer r.timers x f e in
      let counted : dones t q.timers + one (is_done t x.task) ≡ dones t r.timers =
        subst
          (λ j.
            dones t (select (λ y. not (y.id == j)) r.timers) + one (is_done t x.task)
            ≡ dones t r.timers)
          (sym id) count in
      record {
        rest = omega (arith, v.total, counted);
        reconnect_free = FreeName-Frees t r q r.reconnect_timer frees v.reconnect_free;
        ping_free = FreeName-Frees t r q r.ping_interval frees v.ping_free;
        handlers_free = FreeHandler-Frees t r q r.status_handlers frees v.handlers_free;
      }

  fire-timeout :
      (u : ℕ) (r : Runtime)
      → one (u == t) ≤ waiters t r.status_handlers
      → Fires (wait_timeout u) r
      → Lasts t c (fire (wait_timeout u) r)
  unfolding fire
  fire-timeout u r here v =
      let gone = waiters-delete t u r.status_handlers in
      let left = waiters t (delete_status_handler (waiter u) r.status_handlers) in
      let total : (c ≤ left + dones t r.timers + (one (u == t) + settles t r.trace))
          × (left + dones t r.timers + (one (u == t) + settles t r.trace) ≤ 1) =
        elim (Bool-cases (u == t)) [
          | inl e ↦
              let zero_left : waiters t (delete_status_handler (waiter u) r.status_handlers) ≡ 0 =
                ground (arith, gone) in
              omega (arith, v.rest, here, zero_left, ap one e)
          | inr e ↦
              let kept : waiters t (delete_status_handler (waiter u) r.status_handlers)
                  ≡ waiters t r.status_handlers =
                ground (arith, gone) in
              omega (arith, v.rest, kept, ap one e)
        ] in
      record {
        total = total;
        reconnect_free = v.reconnect_free;
        ping_free = v.ping_free;
        handlers_free = FreeHandler-delete t r (waiter u) r.status_handlers v.handlers_free;
      }

  fire-done : (u : ℕ) (r : Runtime) → Fires (wait_done u) r → Lasts t c (fire (wait_done u) r)
  unfolding fire
  fire-done u r v = record {
    total = omega (arith, v.rest);
    reconnect_free = v.reconnect_free;
    ping_free = v.ping_free;
    handlers_free = v.handlers_free;
  }

  fire-reconnect : (r : Runtime) → Fires reconnect r → Lasts t c (fire reconnect r)
  unfolding fire
  fire-reconnect r v = connect-Lasts t c r (record {
    total = omega (arith, v.rest);
    reconnect_free = v.reconnect_free;
    ping_free = v.ping_free;
    handlers_free = v.handlers_free;
  })

  fire-ping : (r : Runtime) → Lasts t c r → Lasts t c (fire ping r)
  unfolding fire
  fire-ping r v = elim (Option-cases (send ping_message r)) [
    | inl e ↦ rw e (if-Lasts t c (is_connected r) r r v v)
    | inr (q, e) ↦ rw e (if-Lasts t c (is_connected r) q r (send-Lasts t c ping_message r q v e) v)
  ]

  again-Lasts :
      (task : Task) (x : Timer) (r : Runtime)
      → x.task ≡ task
      → Lasts t c (fire task (if repeats task then r else clear_timer x.id r))
      → Lasts t c (fire_timer x r)
  unfolding fire_timer
  again-Lasts task x r e v =
      subst (λ k. Lasts t c (fire k (if repeats k then r else clear_timer x.id r))) (sym e) v

  cleared_as :
      (task : Task) (k : ℕ) (x : Timer) (r : Runtime)
      → x.task ≡ task
      → find_timer k r.timers ≡ some x
      → Inv r
      → Lasts t c r
      → Fires task (clear_timer x.id r)
  cleared_as task k x r e f i v =
      subst (λ y. Fires y (clear_timer x.id r)) e (clear_timer-Fires k x r i.falls f v)

  -- A timeout runs only while its promise waits.
  still_waits :
      (u k : ℕ) (x : Timer) (r : Runtime)
      → x.task ≡ wait_timeout u
      → find_timer k r.timers ≡ some x
      → Once t r
      → one (u == t) ≤ waiters t (clear_timer x.id r).status_handlers
  unfolding clear_timer
  still_waits u k x r e f o =
      let found = timeouts-find t k r.timers x f in
      let counted : one (u == t) ≤ timeouts t r.timers =
        subst (λ y. one (is_timeout t y) ≤ timeouts t r.timers) e found in
      omega (arith, o.guarded, counted)

  fire_timer-Lasts :
      (task : Task) (k : ℕ) (x : Timer) (r : Runtime)
      → x.task ≡ task
      → find_timer k r.timers ≡ some x
      → Inv r
      → Once t r
      → Lasts t c r
      → Lasts t c (fire_timer x r)
  fire_timer-Lasts reconnect k x r e f i o v =
      again-Lasts reconnect x r e
        (fire-reconnect (clear_timer x.id r) (cleared_as reconnect k x r e f i v))
  fire_timer-Lasts ping k x r e f i o v = again-Lasts ping x r e (fire-ping r v)
  fire_timer-Lasts (wait_timeout u) k x r e f i o v = again-Lasts (wait_timeout u) x r e (
      fire-timeout u (clear_timer x.id r) (still_waits u k x r e f o)
        (cleared_as (wait_timeout u) k x r e f i v))
  fire_timer-Lasts (wait_done u) k x r e f i o v =
      again-Lasts (wait_done u) x r e
        (fire-done u (clear_timer x.id r) (cleared_as (wait_done u) k x r e f i v))

  deliver-Lasts :
      (e : Event) (r : Runtime) → Inv r → Once t r → Lasts t c r → Lasts t c (deliver e r)
  unfolding deliver
  deliver-Lasts connects r i o v = connect-Lasts t c r v
  deliver-Lasts disconnects r i o v = disconnect-Lasts t c r v
  deliver-Lasts (sends m) r i o v = elim (Option-cases (send m r)) [
    | inl e ↦ rw (e, deliver) v
    | inr (q, e) ↦ rw (e, deliver) (send-Lasts t c m r q v e)
  ]
  deliver-Lasts (waits timeout) r i o v = wait_for_connection-Lasts t c timeout r i o v
  deliver-Lasts (opens j) r i o v =
      let q = record r { sockets = set r.sockets j opened } in
      if-Lasts t c (is_connecting (get_elem? r.sockets j)) (handle_open q) r
        (handle_open-Lasts t c q (sockets-Inv j opened r i)
          (same-Lasts t c r q refl refl refl refl refl refl v))
        v
  deliver-Lasts (receives j frame) r i o v =
      if-Lasts t c (is_opened (get_elem? r.sockets j)) (handle_message frame r) r
        (handle_message-Lasts t c frame r v) v
  deliver-Lasts (fails j) r i o v =
      if-Lasts t c (is_alive (get_elem? r.sockets j)) (handle_error socket_failed r) r
        (handle_error-Lasts t c socket_failed r v) v
  deliver-Lasts (shuts j code) r i o v =
      let q = record r { sockets = set r.sockets j closed } in
      if-Lasts t c (is_alive (get_elem? r.sockets j)) (handle_close code q) r
        (handle_close-Lasts t c code q (sockets-Inv j closed r i)
          (same-Lasts t c r q refl refl refl refl refl refl v))
        v
  deliver-Lasts (fires k) r i o v = elim (Option-cases (find_timer k r.timers)) [
    | inl e ↦ rw (e, deliver) v
    | inr (x, e) ↦ rw (e, deliver) (fire_timer-Lasts x.task k x r refl e i o v)
  ]
  deliver-Lasts (message_on h) r i o v =
      unfold on_message in same-Lasts t c r _ refl refl refl refl refl refl v
  deliver-Lasts (message_off h) r i o v =
      unfold off_message in same-Lasts t c r _ refl refl refl refl refl refl v
  deliver-Lasts (status_on h) r i o v =
      let (more, most, _) = waiters-add t (listener h) r.status_handlers in
      unfold on_status in
      record {
        total = omega (arith, v.total, more, most);
        reconnect_free = v.reconnect_free;
        ping_free = v.ping_free;
        handlers_free = FreeHandler-add t r (listener h) r.status_handlers tt v.handlers_free;
      }
  deliver-Lasts (status_off h) r i o v =
      let same = waiters-delete_listener t h r.status_handlers in
      unfold off_status in
      record {
        total = omega (arith, v.total, same);
        reconnect_free = v.reconnect_free;
        ping_free = v.ping_free;
        handlers_free = FreeHandler-delete t r (listener h) r.status_handlers v.handlers_free;
      }
  deliver-Lasts (error_on h) r i o v =
      unfold on_error in same-Lasts t c r _ refl refl refl refl refl refl v
  deliver-Lasts (error_off h) r i o v =
      unfold off_error in same-Lasts t c r _ refl refl refl refl refl refl v

  pub run-Lasts :
      (es : List Event) (r : Runtime) → Inv r → Once t r → Lasts t c r → Lasts t c (run es r)
  unfolding run
  run-Lasts [] r i o v = v
  run-Lasts (e ∷ es) r i o v =
      run-Lasts es (deliver e r) (deliver-Inv e r i) (deliver-Once t e r o)
        (deliver-Lasts e r i o v)
