-- ===== src/Socket/Kept.antt =====
-- Every event of websocket.ts keeps a promise of waitForConnection that was made.
use zero_mes.Common.{
  ℕ, ◌+◌, ◌≤◌, ◌<◌, ◌≡◌, refl, ap, sym, subst, Bool, true, false, not, ◌&&◌, ltb, Option, none,
  some, ◌∷◌, All, ◌==◌, arith, Option-cases, Bool-cases, inl, inr, if◌then◌else◌,
}
use zero_mes.Json.{Json, member, is_text}
use zero_mes.Socket.Settling.{waiters-add}
use zero_mes.Socket.State.{
  connecting, connected, disconnected, error, waiter, Failure, constructor_failed, bad_frame,
  reconnect, ping, wait_timeout, sent, created, closes, Runtime, same_status,
  max_reconnect_attempts, add_timer, emit,
}
use zero_mes.Socket.Client.{
  add_status_handler, set_status, call_message_handlers, clear_reconnect_timer, clear_ping_interval,
  start_ping, is_connected, handle_error, open_socket, connect, close_socket, disconnect, send,
  wait_for_connection,
}
use zero_mes.Socket.Events.{
  is_auth_failure, schedule_reconnect, handle_open, handle_message, handle_close,
}
use zero_mes.Socket.Invariant.{
  Inv, clear_reconnect_timer-Inv, clear_ping_interval-Inv, set_status-Inv,
}
use zero_mes.Socket.Waits.{one, waiters, dones, settles, Once}
use zero_mes.Socket.Free.{
  Away, FreeName, FreeHandler, Frees, FreeName-Frees, FreeHandler-Frees, add_timer-Frees,
  add_timer-Free, FreeHandler-add,
}
use zero_mes.Socket.Lasting.{
  Lasts, emit-Lasts, add_timer-Lasts, set_status-Lasts, notify_error-Lasts,
  call_message_handlers-Lasts, clear_reconnect_timer-Lasts, clear_ping_interval-Lasts,
}

module _ (t c : ℕ) where
  -- Only what these fields hold is asked of a client.
  pub same-Lasts :
      (r q : Runtime)
      → q.status_handlers ≡ r.status_handlers
      → q.timers ≡ r.timers
      → q.trace ≡ r.trace
      → q.next_timer ≡ r.next_timer
      → q.reconnect_timer ≡ r.reconnect_timer
      → q.ping_interval ≡ r.ping_interval
      → Lasts t c r
      → Lasts t c q
  same-Lasts r q a b g d e f v =
      let frees : Frees t r q =
        (λ i h. (subst (λ n. i < n) (sym d) h.0, subst (λ xs. Away t i xs) (sym b) h.1)) in
      record {
        total = rw (a, b, g) v.total;
        reconnect_free =
            subst (FreeName t q) (sym e)
              (FreeName-Frees t r q r.reconnect_timer frees v.reconnect_free);
        ping_free =
            subst (FreeName t q) (sym f) (FreeName-Frees t r q r.ping_interval frees v.ping_free);
        handlers_free =
            subst (λ hs. All (FreeHandler t q) hs) (sym a)
              (FreeHandler-Frees t r q r.status_handlers frees v.handlers_free);
      }

  pub if-Lasts :
      (b : Bool) (p q : Runtime) → Lasts t c p → Lasts t c q → Lasts t c (if b then p else q)
  if-Lasts true p q v w = v
  if-Lasts false p q v w = w

  start_ping-Lasts : (r : Runtime) → Inv r → Lasts t c r → Lasts t c (start_ping r)
  unfolding start_ping add_timer
  start_ping-Lasts r i v =
      let q = clear_ping_interval r in
      let w = add_timer-Lasts t c ping 30000 q refl (clear_ping_interval-Lasts t c r v) in
      record {
        total = w.total;
        reconnect_free = w.reconnect_free;
        ping_free = add_timer-Free t ping 30000 q (clear_ping_interval-Inv r i).falls refl;
        handlers_free = w.handlers_free;
      }

  schedule_reconnect-Lasts : (r : Runtime) → Inv r → Lasts t c r → Lasts t c (schedule_reconnect r)
  unfolding schedule_reconnect add_timer
  schedule_reconnect-Lasts r i v =
      let q = clear_reconnect_timer r in
      let w = add_timer-Lasts t c reconnect 0 q refl (clear_reconnect_timer-Lasts t c r v) in
      record {
        total = w.total;
        reconnect_free = add_timer-Free t reconnect 0 q (clear_reconnect_timer-Inv r i).falls refl;
        ping_free = w.ping_free;
        handlers_free = w.handlers_free;
      }

  pub handle_error-Lasts : (e : Failure) (r : Runtime) → Lasts t c r → Lasts t c (handle_error e r)
  unfolding handle_error
  handle_error-Lasts e r v = notify_error-Lasts t c e _ (set_status-Lasts t c error r v)

  open_socket-Lasts : (r : Runtime) → Lasts t c r → Lasts t c (open_socket r)
  unfolding open_socket
  open_socket-Lasts r v =
      if-Lasts r.url_allowed _ _
        (same-Lasts (emit (created r.url) r) _ refl refl refl refl refl refl
          (emit-Lasts t c (created r.url) r refl v))
        (handle_error-Lasts constructor_failed r v)

  pub connect-Lasts : (r : Runtime) → Lasts t c r → Lasts t c (connect r)
  unfolding connect
  connect-Lasts r v = elim (Bool-cases (is_connected r)) [
    | inl e ↦ rw e v
    | inr e ↦ rw e (open_socket-Lasts _ (set_status-Lasts t c connecting r v))
  ]

  closed_socket :
      (r q : Runtime) (i : ℕ)
      → q.status_handlers ≡ r.status_handlers
      → q.timers ≡ r.timers
      → q.trace ≡ closes i 1000 ∷ r.trace
      → q.next_timer ≡ r.next_timer
      → q.reconnect_timer ≡ r.reconnect_timer
      → q.ping_interval ≡ r.ping_interval
      → Lasts t c r
      → Lasts t c q
  closed_socket r q i a b g d e f v =
      same-Lasts (emit (closes i 1000) r) q a b g d e f (emit-Lasts t c (closes i 1000) r refl v)

  close_socket-Lasts : (o : Option ℕ) (r : Runtime) → Lasts t c r → Lasts t c (close_socket o r)
  unfolding close_socket
  close_socket-Lasts none r v = v
  close_socket-Lasts (some i) r v =
      closed_socket r (close_socket (some i) r) i (ground arith) (ground arith) (ground arith)
        (ground arith) (ground arith) (ground arith) v

  pub disconnect-Lasts : (r : Runtime) → Lasts t c r → Lasts t c (disconnect r)
  unfolding disconnect
  disconnect-Lasts r v = set_status-Lasts t c disconnected _ (
      close_socket-Lasts _ _
        (clear_ping_interval-Lasts t c _ (clear_reconnect_timer-Lasts t c r v)))

  pub send-Lasts : (m : Json) (r q : Runtime) → Lasts t c r → send m r ≡ some q → Lasts t c q
  unfolding send
  send-Lasts m r q v e = elim (Bool-cases (same_status r.status connected && is_connected r)) [
    | inl up ↦ elim (Option-cases r.ws) [
      | inl w ↦ let no : ⊥ = ground (arith, e, up, w) in absurd no
      | inr (i, w) ↦
          let same : emit (sent i m) r ≡ q = ground (arith, e, up, w) in
          subst (Lasts t c) same (emit-Lasts t c (sent i m) r refl v)
    ]
    | inr up ↦ let no : ⊥ = ground (arith, e, up) in absurd no
  ]

  unfoldable pub begun : ℕ → Runtime → Runtime
  unfolding add_timer
  begun timeout r =
      add_timer (wait_timeout r.next_timer) timeout
        (record r { status_handlers = add_status_handler (waiter r.next_timer) r.status_handlers })

  -- Another promise is made.
  pub begun-Lasts :
      (timeout : ℕ) (r : Runtime) → Inv r → Once t r → Lasts t c r → Lasts t c (begun timeout r)
  unfolding begun add_timer
  begun-Lasts timeout r i o v =
      let q = begun timeout r in
      let frees = add_timer-Frees t (wait_timeout r.next_timer) timeout r in
      let (more, most, _) = waiters-add t (waiter r.next_timer) r.status_handlers in
      let total : (c ≤ waiters t q.status_handlers + dones t q.timers + settles t q.trace)
          × (waiters t q.status_handlers + dones t q.timers + settles t q.trace ≤ 1) =
        elim (Bool-cases (r.next_timer == t)) [
          | inl e ↦
              let none_yet = o.fresh (ground (arith, e)) in
              omega (arith, v.total, more, most, none_yet, ap one e)
          | inr e ↦ omega (arith, v.total, more, most, ap one e)
        ] in
      record {
        total = total;
        reconnect_free = FreeName-Frees t r q r.reconnect_timer frees v.reconnect_free;
        ping_free = FreeName-Frees t r q r.ping_interval frees v.ping_free;
        handlers_free =
            FreeHandler-add t q (waiter r.next_timer) r.status_handlers
              (add_timer-Free t (wait_timeout r.next_timer) timeout r i.falls refl)
              (FreeHandler-Frees t r q r.status_handlers frees v.handlers_free);
      }

  pub wait_for_connection-Lasts :
      (timeout : ℕ) (r : Runtime)
      → Inv r
      → Once t r
      → Lasts t c r
      → Lasts t c (wait_for_connection timeout r).0
  unfolding wait_for_connection add_timer begun
  wait_for_connection-Lasts timeout r i o v =
      elim (Bool-cases (same_status r.status connected && is_connected r)) [
        | inl e ↦ rw e v
        | inr e ↦ rw e (begun-Lasts timeout r i o v)
      ]

  pub handle_open-Lasts : (r : Runtime) → Inv r → Lasts t c r → Lasts t c (handle_open r)
  unfolding handle_open
  handle_open-Lasts r i v =
      let q = record r { reconnect_attempts = 0; reconnect_delay = 1000 } in
      let invariant : Inv q = record {
        attempts = omega arith;
        delay = refl;
        falls = i.falls;
        owned = i.owned;
        socket = i.socket;
      } in
      start_ping-Lasts _ (set_status-Inv connected q invariant)
        (set_status-Lasts t c connected q (same-Lasts r q refl refl refl refl refl refl v))

  passed-Lasts :
      (frame : Option Json) (r : Runtime)
      → Lasts t c r
      → Lasts t c (elim frame [ none ↦ r | some m ↦ call_message_handlers m r.message_handlers r ])
  passed-Lasts none r v = v
  passed-Lasts (some m) r v = call_message_handlers-Lasts t c m r.message_handlers r v

  pub handle_message-Lasts :
      (frame : Option Json) (r : Runtime) → Lasts t c r → Lasts t c (handle_message frame r)
  unfolding handle_message
  handle_message-Lasts frame r v = elim (Option-cases (member "type" frame)) [
    | inl e ↦ rw (e, handle_message) (notify_error-Lasts t c bad_frame r v)
    | inr (k, e) ↦
        rw (e, handle_message)
          (if-Lasts (is_text k "pong") r
            (elim frame [ none ↦ r | some m ↦ call_message_handlers m r.message_handlers r ]) v
            (passed-Lasts frame r v))
  ]

  pub handle_close-Lasts :
      (code : ℕ) (r : Runtime) → Inv r → Lasts t c r → Lasts t c (handle_close code r)
  unfolding handle_close
  handle_close-Lasts code r i v =
      let gone = set_status disconnected (clear_ping_interval r) in
      let w = set_status-Lasts t c disconnected _ (clear_ping_interval-Lasts t c r v) in
      let j = set_status-Inv disconnected _ (clear_ping_interval-Inv r i) in
      if-Lasts (is_auth_failure code) gone _ w (
        if-Lasts (not (code == 1000) && ltb gone.reconnect_attempts max_reconnect_attempts) _ gone
          (schedule_reconnect-Lasts gone j w) w)
