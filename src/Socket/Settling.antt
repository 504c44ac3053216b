-- ===== src/Socket/Settling.antt =====
-- The methods and socket handlers of websocket.ts keep what Socket.Waits states of a promise of waitForConnection.
use zero_mes.Common.{
  ℕ, ◌+◌, ◌≤◌, ◌≡◌, ap, Option, none, some, List, [], ◌∷◌, ◌==◌, arith, Bool-cases, inl, inr,
}
use zero_mes.Json.{Json}
use zero_mes.Socket.State.{
  connecting, connected, disconnected, error, StatusHandler, waiter, Failure, constructor_failed,
  bad_frame, wait_timeout, Runtime, add_timer,
}
use zero_mes.Socket.Client.{
  add_status_handler, set_status, clear_ping_interval, start_ping, handle_error, open_socket,
  connect, close_socket, disconnect, send, wait_for_connection,
}
use zero_mes.Socket.Events.{schedule_reconnect, handle_open, handle_message, handle_close}
use zero_mes.Socket.Waits.{
  one, is_waiter, waiters, Once, set_status-Once, notify_error-Once, call_message_handlers-Once,
  clear_reconnect_timer-Once, clear_ping_interval-Once,
}

module _ (t : ℕ) where
  start_ping-Once : (r : Runtime) → Once t r → Once t (start_ping r)
  unfolding start_ping add_timer
  start_ping-Once r v = let w = clear_ping_interval-Once t r v in ground arith

  pub handle_error-Once : (e : Failure) (r : Runtime) → Once t r → Once t (handle_error e r)
  unfolding handle_error
  handle_error-Once e r v = notify_error-Once t e _ (set_status-Once t error r v)

  open_socket-Once : (r : Runtime) → Once t r → Once t (open_socket r)
  unfolding open_socket
  open_socket-Once r v = ground (arith, handle_error-Once constructor_failed r)

  pub connect-Once : (r : Runtime) → Once t r → Once t (connect r)
  unfolding connect
  connect-Once r v =
      ground (arith, open_socket-Once (set_status connecting r), set_status-Once t connecting r)

  close_socket-Once : (o : Option ℕ) (r : Runtime) → Once t r → Once t (close_socket o r)
  unfolding close_socket
  close_socket-Once none r v = v
  close_socket-Once (some i) r v = ground arith

  pub disconnect-Once : (r : Runtime) → Once t r → Once t (disconnect r)
  unfolding disconnect
  disconnect-Once r v =
      set_status-Once t disconnected _
        (close_socket-Once _ _ (clear_ping_interval-Once t _ (clear_reconnect_timer-Once t r v)))

  pub send-Once : (m : Json) (r q : Runtime) → Once t r → send m r ≡ some q → Once t q
  unfolding send
  send-Once m r q v e = ground arith

  pub waiters-add :
      (h : StatusHandler) (hs : List StatusHandler)
      → (waiters t hs ≤ waiters t (add_status_handler h hs))
        × (waiters t (add_status_handler h hs) ≤ waiters t hs + one (is_waiter t h))
        × (one (is_waiter t h) ≤ waiters t (add_status_handler h hs))
  unfolding add_status_handler
  waiters-add h [] = ground arith
  waiters-add h (x ∷ hs) = ground (arith, waiters-add h hs)

  begun : ℕ → Runtime → Runtime
  unfolding add_timer
  begun timeout r =
      add_timer (wait_timeout r.next_timer) timeout
        (record r { status_handlers = add_status_handler (waiter r.next_timer) r.status_handlers })

  begun-Once : (timeout : ℕ) (r : Runtime) → Once t r → Once t (begun timeout r)
  unfolding begun
  begun-Once timeout r v =
      let (more, most, least) = waiters-add (waiter r.next_timer) r.status_handlers in
      elim (Bool-cases (r.next_timer == t)) [
        | inl e ↦
            let first : one (r.next_timer == t) ≡ 1 = ap one e in
            let none_yet = v.fresh (ground arith) in
            record {
              own = (λ h. ground arith, v.own);
              guarded = omega (arith, v.guarded, none_yet, first, least);
              once = omega (arith, none_yet, first, most);
              fresh = λ h. ground arith;
            }
        | inr e ↦
            let other : one (r.next_timer == t) ≡ 0 = ap one e in
            record {
              own = (λ h. ground arith, v.own);
              guarded = omega (arith, v.guarded, other, more);
              once = omega (arith, v.once, other, most);
              fresh = λ h. omega (arith, v.fresh (omega arith), other, most);
            }
      ]

  pub wait_for_connection-Once :
      (timeout : ℕ) (r : Runtime) → Once t r → Once t (wait_for_connection timeout r).0
  unfolding wait_for_connection add_timer begun
  wait_for_connection-Once timeout r v = ground (arith, begun-Once timeout r v)

  pub handle_open-Once : (r : Runtime) → Once t r → Once t (handle_open r)
  unfolding handle_open
  handle_open-Once r v = start_ping-Once _ (set_status-Once t connected _ (ground arith))

  pub handle_message-Once :
      (frame : Option Json) (r : Runtime) → Once t r → Once t (handle_message frame r)
  unfolding handle_message
  handle_message-Once none r v = ground (arith, notify_error-Once t bad_frame r v)
  handle_message-Once (some m) r v = ground (
    arith,
    notify_error-Once t bad_frame r v,
    call_message_handlers-Once t m r.message_handlers r v,
  )

  schedule_reconnect-Once : (r : Runtime) → Once t r → Once t (schedule_reconnect r)
  unfolding schedule_reconnect add_timer
  schedule_reconnect-Once r v = let w = clear_reconnect_timer-Once t r v in ground arith

  pub handle_close-Once : (code : ℕ) (r : Runtime) → Once t r → Once t (handle_close code r)
  unfolding handle_close
  handle_close-Once code r v =
      let gone = set_status disconnected (clear_ping_interval r) in
      let w = set_status-Once t disconnected _ (clear_ping_interval-Once t r v) in
      ground (arith, schedule_reconnect-Once gone)
