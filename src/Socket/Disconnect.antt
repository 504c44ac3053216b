-- ===== src/Socket/Disconnect.antt =====
-- `disconnect` of websocket.ts, and what a socket can still do that it has closed.
use zero_mes.Common.{
  ℕ, zero, suc, [], ◌∷◌, ◌<◌, ◌≡◌, refl, true, Option, none, some, List, set, get_elem?, ap, ◌∙◌,
  arith,
}
use zero_mes.Json.{Json}
use zero_mes.Socket.State.{disconnected, ReadyState, closing, closed, Runtime}
use zero_mes.Socket.Client.{
  clear_reconnect_timer, clear_ping_interval, close_socket, disconnect, is_connected, send,
}
use zero_mes.Socket.Events.{shuts, deliver, is_alive}
use zero_mes.Socket.Timers.{reconnects, pings}
use zero_mes.Socket.Invariant.{
  Inv, reconnect_timer-clear, ping_interval-clear, disconnect-Inv, sockets-Inv,
}
use zero_mes.Socket.Closing.{
  set_disconnected, clear_ping-keeps, clear_reconnect-keeps, no_pings, no_reconnects, Abnormal,
  handle_close_retries,
}

close_socket-keeps :
    (o : Option ℕ) (r : Runtime)
    → r.ws ≡ o
    → let q = close_socket o r in
      (q.ws ≡ none)
      × (q.reconnect_attempts ≡ r.reconnect_attempts)
      × (q.reconnect_timer ≡ r.reconnect_timer)
      × (q.ping_interval ≡ r.ping_interval)
unfolding close_socket
close_socket-keeps none r e = (e, refl, refl, refl)
close_socket-keeps (some i) r e = ground arith

-- What `disconnect` leaves in the fields.
disconnect-fields :
    (r : Runtime)
    → let q = disconnect r in
      (q.ws ≡ none)
      × (q.reconnect_attempts ≡ r.reconnect_attempts)
      × (q.reconnect_timer ≡ none)
      × (q.ping_interval ≡ none)
      × (q.status ≡ disconnected)
unfolding disconnect
disconnect-fields r =
    let a = clear_reconnect_timer r in
    let b = clear_ping_interval a in
    let c = close_socket-keeps b.ws b refl in
    let (t, e) = set_disconnected (close_socket b.ws b) in
    rw e (
      c.0,
      c.1 ∙ (clear_ping-keeps a).0 ∙ (clear_reconnect-keeps r).0,
      c.2 ∙ (clear_ping-keeps a).2 ∙ reconnect_timer-clear r,
      c.3 ∙ ping_interval-clear a,
      refl,
    )

send_refused : (m : Json) (q : Runtime) → q.ws ≡ none → send m q ≡ none
unfolding send is_connected
send_refused m q e = ground arith

-- After `disconnect` no reconnect timer and no ping interval runs, the client holds no socket and is
-- 'disconnected', and every send is refused.
pub disconnect_stops :
    (r : Runtime)
    → Inv r
    → let q = disconnect r in
      (reconnects q.timers ≡ 0)
      × (pings q.timers ≡ 0)
      × (q.ws ≡ none)
      × (q.status ≡ disconnected)
      × ((m : Json) → send m q ≡ none)
disconnect_stops r v =
    let q = disconnect r in
    let w = disconnect-Inv r v in
    let (ws, _, timer, ping, status) = disconnect-fields r in
    (no_reconnects q w timer, no_pings q w ping, ws, status, λ m. send_refused m q ws)

is_alive-set_closing :
    (i : ℕ) (ss : List ReadyState)
    → is_alive (get_elem? ss i) ≡ true
    → is_alive (get_elem? (set ss i closing) i) ≡ true
is_alive-set_closing i [] h = h
is_alive-set_closing zero (s ∷ ss) h = refl
is_alive-set_closing (suc i) (s ∷ ss) h = is_alive-set_closing i ss h

is_alive-close_socket :
    (i : ℕ) (r : Runtime)
    → is_alive (get_elem? r.sockets i) ≡ true
    → is_alive (get_elem? (close_socket (some i) r).sockets i) ≡ true
unfolding close_socket
is_alive-close_socket i r h = ground (arith, is_alive-set_closing i r.sockets h)

-- The browser still holds the socket that `disconnect` closes: its end is to come.
is_alive-disconnect :
    (i : ℕ) (r : Runtime)
    → r.ws ≡ some i
    → is_alive (get_elem? r.sockets i) ≡ true
    → is_alive (get_elem? (disconnect r).sockets i) ≡ true
unfolding disconnect
is_alive-disconnect i r e h =
    let a = clear_reconnect_timer r in
    let b = clear_ping_interval a in
    let (t, d) = set_disconnected (close_socket b.ws b) in
    let ws : b.ws ≡ some i = (clear_ping-keeps a).3 ∙ (clear_reconnect-keeps r).4 ∙ e in
    let sockets : b.sockets ≡ r.sockets = (clear_ping-keeps a).4 ∙ (clear_reconnect-keeps r).5 in
    let alive : is_alive (get_elem? b.sockets i) ≡ true =
      ap (λ ss. is_alive (get_elem? ss i)) sockets ∙ h in
    let kept : is_alive (get_elem? (close_socket b.ws b).sockets i) ≡ true =
      ap (λ o. is_alive (get_elem? (close_socket o b).sockets i)) ws
      ∙ is_alive-close_socket i b alive in
    ap (λ q. is_alive (get_elem? q.sockets i)) d ∙ kept

-- A disconnected client connects again: when the socket that `disconnect` closed then ends with an
-- abnormal code (1006, if it was still connecting), and fewer than 5 attempts were counted, a
-- reconnect timer runs.
pub reconnects_after_disconnect :
    (i code : ℕ) (r : Runtime)
    → Inv r
    → r.ws ≡ some i
    → is_alive (get_elem? r.sockets i) ≡ true
    → Abnormal code
    → r.reconnect_attempts < 5
    → reconnects (deliver (shuts i code) (disconnect r)).timers ≡ 1
unfolding deliver
reconnects_after_disconnect i code r v e alive abnormal few =
    let q = disconnect r in
    rw (is_alive-disconnect i r e alive)
      (handle_close_retries code (record q { sockets = set q.sockets i closed })
        (sockets-Inv i closed q (disconnect-Inv r v)) abnormal (rw (disconnect-fields r).1 few)).0
