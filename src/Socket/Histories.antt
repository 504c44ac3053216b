-- ===== src/Socket/Histories.antt =====
-- A promise of waitForConnection settles at most once, whatever event of websocket.ts comes.
use zero_mes.Common.{ℕ, ◌≡◌, refl, List, [], ◌∷◌, arith, Option-cases, inl, inr, set}
use zero_mes.Socket.State.{
  opened, closed, ReadyState, StatusHandler, listener, waiter, socket_failed, Runtime,
}
use zero_mes.Socket.Client.{
  delete_status_handler, send, on_message, off_message, on_status, off_status, on_error, off_error,
}
use zero_mes.Socket.Events.{
  Event, connects, disconnects, sends, waits, message_on, message_off, status_on, status_off,
  error_on, error_off, opens, fails, fires, receives, shuts, deliver, run, find_timer,
}
use zero_mes.Socket.Waits.{waiters, Once}
use zero_mes.Socket.Settling.{
  waiters-add, connect-Once, disconnect-Once, send-Once, wait_for_connection-Once, handle_open-Once,
  handle_message-Once, handle_close-Once, handle_error-Once,
}
use zero_mes.Socket.Firing.{fire-Once}

module _ (t : ℕ) where
  sockets-Once :
      (i : ℕ) (s : ReadyState) (r : Runtime)
      → Once t r
      → Once t (record r { sockets = set r.sockets i s })
  sockets-Once i s r v = record { own = v.own; guarded = v.guarded; once = v.once; fresh = v.fresh }

  pub waiters-delete_listener :
      (h : ℕ) (hs : List StatusHandler)
      → waiters t (delete_status_handler (listener h) hs) ≡ waiters t hs
  unfolding delete_status_handler
  waiters-delete_listener h [] = refl
  waiters-delete_listener h (listener k ∷ hs) = ground (arith, waiters-delete_listener h hs)
  waiters-delete_listener h (waiter k ∷ hs) = ground (arith, waiters-delete_listener h hs)

  pub deliver-Once : (e : Event) (r : Runtime) → Once t r → Once t (deliver e r)
  unfolding deliver
  deliver-Once connects r v = connect-Once t r v
  deliver-Once disconnects r v = disconnect-Once t r v
  deliver-Once (sends m) r v = elim (Option-cases (send m r)) [
    | inl e ↦ rw (e, deliver) v
    | inr (q, e) ↦ rw (e, deliver) (send-Once t m r q v e)
  ]
  deliver-Once (waits timeout) r v = wait_for_connection-Once t timeout r v
  deliver-Once (opens i) r v = ground (
    arith,
    handle_open-Once t (record r { sockets = set r.sockets i opened }) (sockets-Once i opened r v),
  )
  deliver-Once (receives i frame) r v = ground (arith, handle_message-Once t frame r v)
  deliver-Once (fails i) r v = ground (arith, handle_error-Once t socket_failed r v)
  deliver-Once (shuts i code) r v = ground (
    arith,
    handle_close-Once t code (record r { sockets = set r.sockets i closed })
        (sockets-Once i closed r v),
  )
  deliver-Once (fires k) r v = elim (Option-cases (find_timer k r.timers)) [
    | inl e ↦ rw (e, deliver) v
    | inr (x, e) ↦ rw (e, deliver) (fire-Once t x.task k x r refl e v)
  ]
  deliver-Once (message_on h) r v = unfold on_message in ground arith
  deliver-Once (message_off h) r v = unfold off_message in ground arith
  deliver-Once (status_on h) r v =
      let (more, most, _) = waiters-add t (listener h) r.status_handlers in
      unfold on_status in
      record {
        own = v.own;
        guarded = omega (arith, v.guarded, more);
        once = omega (arith, v.once, most);
        fresh = λ n. omega (arith, v.fresh n, most);
      }
  deliver-Once (status_off h) r v =
      let same = waiters-delete_listener h r.status_handlers in
      unfold off_status in
      record {
        own = v.own;
        guarded = omega (arith, v.guarded, same);
        once = omega (arith, v.once, same);
        fresh = λ n. omega (arith, v.fresh n, same);
      }
  deliver-Once (error_on h) r v = unfold on_error in ground arith
  deliver-Once (error_off h) r v = unfold off_error in ground arith

  pub run-Once : (es : List Event) (r : Runtime) → Once t r → Once t (run es r)
  unfolding run
  run-Once [] r v = v
  run-Once (e ∷ es) r v = run-Once es (deliver e r) (deliver-Once e r v)
