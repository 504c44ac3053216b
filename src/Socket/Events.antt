-- ===== src/Socket/Events.antt =====
-- What the browser calls in src/frontend/src/lib/api/websocket.ts: the handlers of a socket's events,
-- the timers, and the module's single client.
use zero_mes.Common.{
  ℕ, suc, ◌-◌, ◌*◌, ◌^◌, min, String, Bool, not, Option, none, some, List, [], ◌∷◌, ◌&&◌, ◌||◌,
  ◌==◌, true, false, ltb, set, get_elem?, if◌then◌else◌,
}
use zero_mes.Json.{Json, str, obj, field, end, member, is_text}
use zero_mes.Socket.State.{
  connected, disconnected, ReadyState, opened, closed, waiter, socket_failed, bad_frame, resolved,
  timed_out, Task, reconnect, ping, wait_timeout, wait_done, settled, Timer, Runtime,
  max_reconnect_attempts, max_reconnect_delay, is_opened, add_timer, clear_timer, emit,
}
use zero_mes.Socket.Client.{
  Location, new_client, delete_status_handler, set_status, notify_error, call_message_handlers,
  clear_reconnect_timer, clear_ping_interval, start_ping, is_connected, handle_error, connect,
  disconnect, send, on_message, off_message, on_status, off_status, on_error, off_error,
  wait_for_connection,
}

unfoldable pub handle_open : Runtime → Runtime
handle_open r =
    start_ping (set_status connected (record r { reconnect_attempts = 0; reconnect_delay = 1000 }))

-- `none` is a frame that JSON.parse refuses; reading `type` of `null` throws too.
unfoldable pub handle_message : Option Json → Runtime → Runtime
handle_message frame r = elim (member "type" frame) [
  | none ↦ notify_error bad_frame r
  | some type ↦
      if is_text type "pong"
      then r
      else elim frame [ none ↦ r | some m ↦ call_message_handlers m r.message_handlers r ]
]

unfoldable pub is_auth_failure : ℕ → Bool
is_auth_failure code = code == 1008 || code == 4001 || code == 4401

unfoldable pub schedule_reconnect : Runtime → Runtime
schedule_reconnect r =
    let cleared = clear_reconnect_timer r in
    let attempts = suc cleared.reconnect_attempts in
    add_timer reconnect (min (cleared.reconnect_delay * 2 ^ (attempts - 1)) max_reconnect_delay)
      (record cleared { reconnect_attempts = attempts; reconnect_timer = some cleared.next_timer })

unfoldable pub handle_close : ℕ → Runtime → Runtime
unfolding is_auth_failure
handle_close code r =
    let gone = set_status disconnected (clear_ping_interval r) in
    if is_auth_failure code
    then gone
    else if not (code == 1000) && ltb gone.reconnect_attempts max_reconnect_attempts
    then schedule_reconnect gone
    else gone

abbrev pub ping_message : Json
ping_message = obj (field "type" (str "ping") end)

-- The callback of a timer. A timeout has left the list by then; an interval stays.
unfoldable pub fire : Task → Runtime → Runtime
fire reconnect r = connect r
fire ping r = if is_connected r then elim (send ping_message r) [ none ↦ r | some q ↦ q ] else r
fire (wait_timeout t) r =
    emit (settled t timed_out)
      (record r { status_handlers = delete_status_handler (waiter t) r.status_handlers })
fire (wait_done t) r = emit (settled t resolved) r

abbrev pub repeats : Task → Bool
repeats ping = true
repeats _ = false

unfoldable pub fire_timer : Timer → Runtime → Runtime
fire_timer t r = fire t.task (if repeats t.task then r else clear_timer t.id r)

unfoldable pub find_timer : ℕ → List Timer → Option Timer
find_timer k [] = none
find_timer k (t ∷ ts) = if t.id == k then some t else find_timer k ts

-- What a caller, the browser or a timer does next.
pub data Event : Type 0 where
  connects disconnects : Event
  sends : Json → Event
  waits : ℕ → Event
  message_on message_off status_on status_off error_on error_off : ℕ → Event
  opens fails fires : ℕ → Event
  receives : ℕ → Option Json → Event
  shuts : ℕ → ℕ → Event

abbrev pub is_connecting : Option ReadyState → Bool
is_connecting (some ReadyState.connecting) = true
is_connecting _ = false

abbrev pub is_alive : Option ReadyState → Bool
is_alive none = false
is_alive (some closed) = false
is_alive (some _) = true

-- An event that the browser's rules exclude does nothing: a socket opens once, frames come to an open
-- socket only, a socket closes once, and a timer fires while it runs.
unfoldable pub deliver : Event → Runtime → Runtime
unfolding find_timer
deliver connects r = connect r
deliver disconnects r = disconnect r
deliver (sends m) r = elim (send m r) [ none ↦ r | some q ↦ q ]
deliver (waits timeout) r = (wait_for_connection timeout r).0
deliver (message_on h) r = on_message h r
deliver (message_off h) r = off_message h r
deliver (status_on h) r = on_status h r
deliver (status_off h) r = off_status h r
deliver (error_on h) r = on_error h r
deliver (error_off h) r = off_error h r
deliver (opens i) r =
    if is_connecting (get_elem? r.sockets i)
    then handle_open (record r { sockets = set r.sockets i opened })
    else r
deliver (receives i frame) r =
    if is_opened (get_elem? r.sockets i) then handle_message frame r else r
deliver (fails i) r = if is_alive (get_elem? r.sockets i) then handle_error socket_failed r else r
deliver (shuts i code) r =
    if is_alive (get_elem? r.sockets i)
    then handle_close code (record r { sockets = set r.sockets i closed })
    else r
deliver (fires k) r = elim (find_timer k r.timers) [ none ↦ r | some t ↦ fire_timer t r ]

unfoldable pub run : List Event → Runtime → Runtime
run [] r = r
run (e ∷ es) r = run es (deliver e r)

-- The module's `wsClient`, and the clients that were in its place before. These are out of reach, but
-- their sockets and timers live on.
pub record Singleton : Type 0 where
  pub current : Option Runtime
  pub retired : List Runtime

unfoldable pub get_web_socket_client :
    Option String → Location → Bool → Singleton → Singleton × Runtime
get_web_socket_client base here allowed s = elim s.current [
  | none ↦ let fresh = new_client base here allowed in (record s { current = some fresh }, fresh)
  | some c ↦ (s, c)
]

unfoldable pub reset_web_socket_client : Singleton → Singleton
reset_web_socket_client s = elim s.current [
  | none ↦ s
  | some c ↦ record { current = none; retired = disconnect c ∷ s.retired }
]
