-- ===== src/Socket/Client.antt =====
-- The methods of `WebSocketClient` in src/frontend/src/lib/api/websocket.ts. A call of a handler of the
-- application is recorded in `trace`, the latest first; what such a handler does is not modelled,
-- and an exception of it is caught by the code.
use Prim.Native.String.{◌++◌ as append}
use zero_mes.Common.{
  ℕ, String, Bool, not, Option, none, some, List, [], ◌∷◌, ◌++◌, ◌&&◌, ◌==◌, length, set, get_elem?,
  select, non_empty, str_eq, if◌then◌else◌,
}
use zero_mes.Json.{Json}
use zero_mes.Socket.State.{
  Status, connected, disconnected, error, ReadyState, closing, StatusHandler, listener, waiter,
  Failure, constructor_failed, connection_failed, ping, wait_timeout, wait_done, created, closes,
  sent, status_called, message_called, error_called, settled, Runtime, ready_state, is_opened,
  same_status, same_handler, add_timer, clear_timer, emit,
}

-- The part of `window.location` that the constructor reads.
pub record Location : Type 0 where
  pub protocol : String
  pub host : String

unfoldable pub socket_url : Option String → Location → String
socket_url none here =
    append
      (append (append (if str_eq here.protocol "https:" then "wss:" else "ws:") "//") here.host)
      "/ws"
socket_url (some base) here =
    if non_empty base
    then append base "/ws"
    else append
        (append (append (if str_eq here.protocol "https:" then "wss:" else "ws:") "//") here.host)
        "/ws"

-- The constructor, in a browser that has no sockets and no timers yet.
unfoldable pub new_client : Option String → Location → Bool → Runtime
new_client base here allowed = record {
  ws = none;
  url = socket_url base here;
  reconnect_attempts = 0;
  reconnect_delay = 1000;
  reconnect_timer = none;
  ping_interval = none;
  status = disconnected;
  message_handlers = [];
  status_handlers = [];
  error_handlers = [];
  url_allowed = allowed;
  sockets = [];
  timers = [];
  next_timer = 0;
  trace = [];
}

-- Set.add and Set.delete, in insertion order
unfoldable pub add_handler : ℕ → List ℕ → List ℕ
add_handler h [] = h ∷ []
add_handler h (x ∷ xs) = if x == h then x ∷ xs else x ∷ add_handler h xs

unfoldable pub delete_handler : ℕ → List ℕ → List ℕ
delete_handler h = select (λ x. not (x == h))

unfoldable pub add_status_handler : StatusHandler → List StatusHandler → List StatusHandler
add_status_handler h [] = h ∷ []
add_status_handler h (x ∷ xs) = if same_handler x h then x ∷ xs else x ∷ add_status_handler h xs

unfoldable pub delete_status_handler : StatusHandler → List StatusHandler → List StatusHandler
delete_status_handler h = select (λ x. not (same_handler x h))

-- The handler that `waitForConnection` adds: it settles the wait on 'connected' and on 'error'.
unfoldable pub on_wait : ℕ → Status → Runtime → Runtime
on_wait t connected r =
    let stopped = clear_timer t r in
    add_timer (wait_done t) 50
      (record stopped { status_handlers = delete_status_handler (waiter t) r.status_handlers })
on_wait t error r =
    let stopped = clear_timer t r in
    emit (settled t connection_failed)
      (record stopped { status_handlers = delete_status_handler (waiter t) r.status_handlers })
on_wait t _ r = r

unfoldable pub call_status_handler : Status → StatusHandler → Runtime → Runtime
call_status_handler s (listener h) r = emit (status_called h s) r
call_status_handler s (waiter t) r = on_wait t s r

-- the `forEach` of `setStatus`
unfoldable pub call_status_handlers : Status → List StatusHandler → Runtime → Runtime
call_status_handlers s [] r = r
call_status_handlers s (h ∷ hs) r = call_status_handlers s hs (call_status_handler s h r)

unfoldable pub set_status : Status → Runtime → Runtime
set_status s r =
    if same_status r.status s
    then r
    else call_status_handlers s r.status_handlers (record r { status = s })

unfoldable pub call_error_handlers : Failure → List ℕ → Runtime → Runtime
call_error_handlers e [] r = r
call_error_handlers e (h ∷ hs) r = call_error_handlers e hs (emit (error_called h e) r)

unfoldable pub notify_error : Failure → Runtime → Runtime
notify_error e r = call_error_handlers e r.error_handlers r

unfoldable pub call_message_handlers : Json → List ℕ → Runtime → Runtime
call_message_handlers m [] r = r
call_message_handlers m (h ∷ hs) r = call_message_handlers m hs (emit (message_called h m) r)

unfoldable pub clear_reconnect_timer : Runtime → Runtime
clear_reconnect_timer r = elim r.reconnect_timer [
  | none ↦ r
  | some i ↦ let stopped = clear_timer i r in record stopped { reconnect_timer = none }
]

unfoldable pub clear_ping_interval : Runtime → Runtime
clear_ping_interval r = elim r.ping_interval [
  | none ↦ r
  | some i ↦ let stopped = clear_timer i r in record stopped { ping_interval = none }
]

unfoldable pub start_ping : Runtime → Runtime
start_ping r =
    let stopped = clear_ping_interval r in
    add_timer ping 30000 (record stopped { ping_interval = some stopped.next_timer })

unfoldable pub is_connected : Runtime → Bool
is_connected r = is_opened (ready_state r.ws r.sockets)

unfoldable pub handle_error : Failure → Runtime → Runtime
handle_error e r = notify_error e (set_status error r)

-- `new WebSocket(this.url)` and the handlers' assignments, inside `try`
unfoldable pub open_socket : Runtime → Runtime
open_socket r =
    if r.url_allowed
    then emit (created r.url) (record r {
      ws = some (length r.sockets);
      sockets = r.sockets ++ ReadyState.connecting ∷ [];
    })
    else handle_error constructor_failed r

unfoldable pub connect : Runtime → Runtime
connect r = if is_connected r then r else open_socket (set_status Status.connecting r)

-- `ws.close(1000, …)`; a socket that is closed stays so
unfoldable pub close_socket : Option ℕ → Runtime → Runtime
close_socket none r = r
close_socket (some i) r = elim (get_elem? r.sockets i) [
  | some ReadyState.closed ↦ emit (closes i 1000) (record r { ws = none })
  | _ ↦ emit (closes i 1000) (record r { ws = none; sockets = set r.sockets i closing })
]

unfoldable pub disconnect : Runtime → Runtime
disconnect r =
    let stopped = clear_ping_interval (clear_reconnect_timer r) in
    set_status disconnected (close_socket stopped.ws stopped)

-- `none` is the error 'WebSocket is not connected'.
unfoldable pub send : Json → Runtime → Option Runtime
send message r =
    if same_status r.status connected && is_connected r
    then elim r.ws [ none ↦ none | some i ↦ some (emit (sent i message) r) ]
    else none

unfoldable pub on_message : ℕ → Runtime → Runtime
unfolding add_handler
on_message h r = record r { message_handlers = add_handler h r.message_handlers }

unfoldable pub off_message : ℕ → Runtime → Runtime
unfolding delete_handler
off_message h r = record r { message_handlers = delete_handler h r.message_handlers }

unfoldable pub on_status : ℕ → Runtime → Runtime
unfolding add_status_handler
on_status h r =
    emit (status_called h r.status)
      (record r { status_handlers = add_status_handler (listener h) r.status_handlers })

unfoldable pub off_status : ℕ → Runtime → Runtime
unfolding delete_status_handler
off_status h r = record r { status_handlers = delete_status_handler (listener h) r.status_handlers }

unfoldable pub on_error : ℕ → Runtime → Runtime
unfolding add_handler
on_error h r = record r { error_handlers = add_handler h r.error_handlers }

unfoldable pub off_error : ℕ → Runtime → Runtime
unfolding delete_handler
off_error h r = record r { error_handlers = delete_handler h r.error_handlers }

unfoldable pub get_status : Runtime → Status
get_status r = r.status

-- The promise of `waitForConnection`: resolved at once, or the number of its timeout.
pub data Wait : Type 0 where
  at_once : Wait
  waiting : ℕ → Wait

unfoldable pub wait_for_connection : ℕ → Runtime → Runtime × Wait
wait_for_connection timeout r =
    if same_status r.status connected && is_connected r then (r, at_once) else (
      add_timer (wait_timeout r.next_timer) timeout (record r {
        status_handlers = add_status_handler (waiter r.next_timer) r.status_handlers;
      }),
      waiting r.next_timer,
    )
