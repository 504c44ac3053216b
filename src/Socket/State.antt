-- ===== src/Socket/State.antt =====
-- The data of src/frontend/src/lib/api/websocket.ts: the fields of `WebSocketClient`, and the part of
-- the browser that it drives (sockets by their number, running timers, what was called and sent).
use zero_mes.Common.{
  ℕ, suc, String, Bool, true, false, not, Option, none, some, List, ◌∷◌, ◌==◌, get_elem?, select,
}
use zero_mes.Json.{Json}

-- WebSocketStatus
pub data Status : Type 0 where
  connecting connected disconnected error : Status

-- WebSocket.readyState
pub data ReadyState : Type 0 where
  connecting opened closing closed : ReadyState

-- A status handler is a listener of the application, or the handler of a `waitForConnection`, which
-- goes by the number of its timeout.
pub data StatusHandler : Type 0 where
  listener waiter : ℕ → StatusHandler

pub data Failure : Type 0 where
  constructor_failed socket_failed bad_frame : Failure

-- How a `waitForConnection` that waits is settled.
pub data Settled : Type 0 where
  resolved timed_out connection_failed : Settled

-- What a timer does when it fires; the waits name their timeout.
pub data Task : Type 0 where
  reconnect ping : Task
  wait_timeout wait_done : ℕ → Task

pub record Timer : Type 0 where
  pub id : ℕ
  pub task : Task
  pub delay : ℕ

pub data Effect : Type 0 where
  created : String → Effect
  closes : ℕ → ℕ → Effect
  sent : ℕ → Json → Effect
  status_called : ℕ → Status → Effect
  message_called : ℕ → Json → Effect
  error_called : ℕ → Failure → Effect
  settled : ℕ → Settled → Effect

-- `url_allowed` says whether `new WebSocket(url)` accepts the address or throws.
pub record Runtime : Type 0 where
  pub ws : Option ℕ
  pub url : String
  pub reconnect_attempts : ℕ
  pub reconnect_delay : ℕ
  pub reconnect_timer : Option ℕ
  pub ping_interval : Option ℕ
  pub status : Status
  pub message_handlers : List ℕ
  pub status_handlers : List StatusHandler
  pub error_handlers : List ℕ
  pub url_allowed : Bool
  pub sockets : List ReadyState
  pub timers : List Timer
  pub next_timer : ℕ
  pub trace : List Effect

abbrev pub max_reconnect_attempts : ℕ
max_reconnect_attempts = 5

abbrev pub max_reconnect_delay : ℕ
max_reconnect_delay = 30000

-- `this.ws?.readyState`
abbrev pub ready_state : Option ℕ → List ReadyState → Option ReadyState
ready_state none sockets = none
ready_state (some i) sockets = get_elem? sockets i

abbrev pub is_opened : Option ReadyState → Bool
is_opened (some ReadyState.opened) = true
is_opened _ = false

abbrev pub same_status : Status → Status → Bool
same_status Status.connecting Status.connecting = true
same_status connected connected = true
same_status disconnected disconnected = true
same_status error error = true
same_status _ _ = false

abbrev pub same_handler : StatusHandler → StatusHandler → Bool
same_handler (listener a) (listener b) = a == b
same_handler (waiter a) (waiter b) = a == b
same_handler _ _ = false

-- `setTimeout` and `setInterval`: the new timer goes by `next_timer`.
unfoldable pub add_timer : Task → ℕ → Runtime → Runtime
add_timer task delay r = record r {
  timers = (record { id = r.next_timer; task = task; delay = delay }) ∷ r.timers;
  next_timer = suc r.next_timer;
}

-- `clearTimeout` and `clearInterval`
unfoldable pub clear_timer : ℕ → Runtime → Runtime
clear_timer i r = record r { timers = select (λ t. not (t.id == i)) r.timers }

abbrev pub emit : Effect → Runtime → Runtime
emit e r = record r { trace = e ∷ r.trace }
