-- ===== src/Socket/Tests.antt =====
-- Runs of the WebSocket client, and the theorems at concrete inputs.
use zero_mes.Common.{◌+◌, ◌≤◌, ◌≡◌, refl, true, inl, inr, none, some, List, [], ◌∷◌, ◌++◌, arith}
use zero_mes.Json.{Json, str, obj, field, end}
use zero_mes.Socket.State.{add_timer, clear_timer, connected, Runtime}
use zero_mes.Socket.Client.{
  connect, on_status, open_socket, close_socket, is_connected, handle_error, notify_error,
  call_error_handlers, call_message_handlers, call_status_handlers, call_status_handler, on_wait,
  start_ping, clear_ping_interval, clear_reconnect_timer, wait_for_connection, Location, new_client,
  disconnect, on_message, off_message, set_status, send,
}
use zero_mes.Socket.Events.{
  handle_open, schedule_reconnect, fire, fire_timer, Event, connects, message_on, status_on, opens,
  fires, waits, shuts, deliver, run, handle_message, handle_close,
}
use zero_mes.Socket.Timers.{reconnects, pings}
use zero_mes.Socket.Invariant.{Inv}
use zero_mes.Socket.Waits.{waiters, dones, settles, timeouts}
use zero_mes.Socket.Settled.{settles_once}
use zero_mes.Socket.Reachable.{timers-run, run-Inv, new_client-Inv}
use zero_mes.Socket.Closing.{handle_close_retries, handle_close_final}
use zero_mes.Socket.Disconnect.{disconnect_stops, reconnects_after_disconnect}

abbrev here : Location
here = record { protocol = "https:"; host = "chat.example" }

abbrev fresh : Runtime
fresh = new_client none here true

-- A history of a new client, with all that it computes by.
trial : List Event → Runtime
unfolding run deliver new_client connect disconnect send on_message off_message on_status set_status
    open_socket close_socket is_connected handle_open handle_close handle_message handle_error
    notify_error call_error_handlers call_message_handlers call_status_handlers call_status_handler
    on_wait schedule_reconnect start_ping clear_ping_interval clear_reconnect_timer add_timer
    clear_timer fire fire_timer wait_for_connection
trial es = run es fresh

trial-Inv : (es : List Event) → Inv (trial es)
unfolding trial
trial-Inv es = run-Inv es fresh (new_client-Inv none here true)

abbrev dial : List Event
dial = status_on 1 ∷ message_on 7 ∷ connects ∷ []

abbrev online : List Event
online = dial ++ opens 0 ∷ []

online_tests :
    ((trial online).status ≡ connected)
    × (pings (trial online).timers ≡ 1)
    × (reconnects (trial online).timers ≡ 0)
unfolding trial
online_tests = (refl, refl, refl)

-- 1 s, then 2 s, while the server cannot be reached.
lost_tests :
    (reconnects (trial (online ++ shuts 0 1006 ∷ [])).timers ≡ 1)
    × (reconnects (trial (online ++ shuts 0 4401 ∷ [])).timers ≡ 0)
    × ((trial (online ++ shuts 0 1006 ∷ fires 1 ∷ shuts 1 1006 ∷ [])).reconnect_attempts ≡ 2)
unfolding trial
lost_tests = (refl, refl, refl)

-- A second `connect` before the socket opens makes a second socket.
two_sockets : (trial (dial ++ connects ∷ [])).ws ≡ some 1
unfolding trial
two_sockets = refl

timers-run_example : reconnects (run (online ++ shuts 0 1006 ∷ []) fresh).timers ≤ 1
timers-run_example = (timers-run none here true (online ++ shuts 0 1006 ∷ [])).0

handle_close_retries_example : reconnects (handle_close 1006 (trial online)).timers ≡ 1
unfolding trial
handle_close_retries_example =
    (handle_close_retries 1006 (trial online) (trial-Inv online) (omega arith) (omega arith)).0

handle_close_final_example : pings (handle_close 1008 (trial online)).timers ≡ 0
handle_close_final_example =
    (handle_close_final 1008 (trial online) (trial-Inv online) (inr (inl refl))).3

disconnect_stops_example : pings (disconnect (trial online)).timers ≡ 0
disconnect_stops_example = (disconnect_stops (trial online) (trial-Inv online)).1

reconnects_after_disconnect_example :
    reconnects (deliver (shuts 0 1006) (disconnect (trial dial))).timers ≡ 1
unfolding trial
reconnects_after_disconnect_example =
    reconnects_after_disconnect 0 1006 (trial dial) (trial-Inv dial) refl refl (omega arith)
      (omega arith)

abbrev pong : Json
pong = obj (field "type" (str "pong") end)

-- A wait that begins before the socket opens: it is about to resolve then, resolves once, and never times out.
abbrev waited : List Event
waited = dial ++ waits 5000 ∷ opens 0 ∷ []

wait_tests :
    (dones 0 (trial waited).timers ≡ 1)
    × (timeouts 0 (trial waited).timers ≡ 0)
    × (settles 0 (trial (waited ++ fires 0 ∷ fires 1 ∷ fires 1 ∷ [])).trace ≡ 1)
unfolding trial
wait_tests = (refl, refl, refl)

settles_once_example :
    waiters 0
        (run (opens 0 ∷ fires 1 ∷ []) (wait_for_connection 5000 (run dial fresh)).0).status_handlers
      + dones 0 (run (opens 0 ∷ fires 1 ∷ []) (wait_for_connection 5000 (run dial fresh)).0).timers
      + settles 0 (run (opens 0 ∷ fires 1 ∷ []) (wait_for_connection 5000 (run dial fresh)).0).trace
    ≡ 1
unfolding run deliver new_client connect disconnect send on_message off_message on_status set_status
    open_socket close_socket is_connected handle_open handle_close handle_message handle_error
    notify_error call_error_handlers call_message_handlers call_status_handlers call_status_handler
    on_wait schedule_reconnect start_ping clear_ping_interval clear_reconnect_timer add_timer
    clear_timer fire fire_timer wait_for_connection
settles_once_example = (settles_once none here true dial (opens 0 ∷ fires 1 ∷ []) 5000 0 refl).0
