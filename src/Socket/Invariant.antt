-- ===== src/Socket/Invariant.antt =====
-- What holds of the client of websocket.ts whatever its callers and the browser do.
use zero_mes.Common.{
  ℕ, ◌≤◌, ◌<◌, ◌≡◌, ◌≢◌, inl, inr, Option, none, some, List, [], ◌∷◌, not, ◌==◌, All, All-select,
  arith, length, length-append, length-set, set, Option-cases, subst,
}
use zero_mes.Json.{Json}
use zero_mes.Socket.State.{
  Status, connected, disconnected, error, connecting, ReadyState, StatusHandler, listener, waiter,
  Failure, constructor_failed, bad_frame, Task, reconnect, ping, wait_done, Runtime, status_called,
  add_timer, clear_timer, emit,
}
use zero_mes.Socket.Client.{
  on_wait, call_status_handler, call_status_handlers, set_status, call_error_handlers, notify_error,
  call_message_handlers, clear_reconnect_timer, clear_ping_interval, start_ping, handle_error,
  open_socket, connect, close_socket, disconnect, send, wait_for_connection,
}
use zero_mes.Socket.Events.{handle_open, handle_message}
use zero_mes.Socket.Timers.{
  Falls, Falls-select, Owned, Owned-cleared_reconnect, Owned-cleared_ping, Owned-no_ping,
}

abbrev pub InRange : Option ℕ → ℕ → Type 0
InRange none n = Unit
InRange (some i) n = i < n

pub record Inv (r : Runtime) : Type 0 where
  pub attempts : r.reconnect_attempts ≤ 5
  pub delay : r.reconnect_delay ≡ 1000
  pub falls : Falls r.next_timer r.timers
  pub owned : All (Owned r.reconnect_timer r.ping_interval) r.timers
  pub socket : InRange r.ws (length r.sockets)

pub clear_timer-Inv : (i : ℕ) (r : Runtime) → Inv r → Inv (clear_timer i r)
unfolding clear_timer
clear_timer-Inv i r v = record {
  attempts = v.attempts;
  delay = v.delay;
  falls = Falls-select i r.next_timer r.timers v.falls;
  owned =
      All-select (Owned r.reconnect_timer r.ping_interval) (λ t. not (t.id == i)) r.timers v.owned;
  socket = v.socket;
}

pub add_timer-Inv :
    (task : Task) (d : ℕ) (r : Runtime)
    → task ≢ reconnect
    → task ≢ ping
    → Inv r
    → Inv (add_timer task d r)
unfolding add_timer
add_timer-Inv task d r no_reconnect no_ping v = ground arith

pub on_wait-Inv : (t : ℕ) (s : Status) (r : Runtime) → Inv r → Inv (on_wait t s r)
unfolding on_wait
on_wait-Inv t connected r v =
    add_timer-Inv (wait_done t) 50 _ (λ e. cc) (λ e. cc)
      (let w = clear_timer-Inv t r v in
        record {
          attempts = w.attempts;
          delay = w.delay;
          falls = w.falls;
          owned = w.owned;
          socket = w.socket;
        })
on_wait-Inv t error r v =
    let w = clear_timer-Inv t r v in
    record {
      attempts = w.attempts;
      delay = w.delay;
      falls = w.falls;
      owned = w.owned;
      socket = w.socket;
    }
on_wait-Inv t _ r v = v

pub call_status_handlers-Inv :
    (s : Status) (hs : List StatusHandler) (r : Runtime) → Inv r → Inv (call_status_handlers s hs r)
unfolding call_status_handlers call_status_handler
call_status_handlers-Inv s [] r v = v
call_status_handlers-Inv s (listener h ∷ hs) r v =
    call_status_handlers-Inv s hs (emit (status_called h s) r) (ground arith)
call_status_handlers-Inv s (waiter t ∷ hs) r v =
    call_status_handlers-Inv s hs (on_wait t s r) (on_wait-Inv t s r v)

pub set_status-Inv : (s : Status) (r : Runtime) → Inv r → Inv (set_status s r)
unfolding set_status
set_status-Inv s r v =
    ground (arith, call_status_handlers-Inv s r.status_handlers (record r { status = s }))

pub call_error_handlers-Inv :
    (e : Failure) (hs : List ℕ) (r : Runtime) → Inv r → Inv (call_error_handlers e hs r)
unfolding call_error_handlers
call_error_handlers-Inv e [] r v = v
call_error_handlers-Inv e (h ∷ hs) r v = call_error_handlers-Inv e hs _ (ground arith)

pub notify_error-Inv : (e : Failure) (r : Runtime) → Inv r → Inv (notify_error e r)
unfolding notify_error
notify_error-Inv e r v = call_error_handlers-Inv e r.error_handlers r v

pub call_message_handlers-Inv :
    (m : Json) (hs : List ℕ) (r : Runtime) → Inv r → Inv (call_message_handlers m hs r)
unfolding call_message_handlers
call_message_handlers-Inv m [] r v = v
call_message_handlers-Inv m (h ∷ hs) r v = call_message_handlers-Inv m hs _ (ground arith)

pub clear_reconnect_timer-Inv : (r : Runtime) → Inv r → Inv (clear_reconnect_timer r)
unfolding clear_reconnect_timer clear_timer
clear_reconnect_timer-Inv r v = elim (Option-cases r.reconnect_timer) [
  | inl e ↦ rw (e, clear_reconnect_timer) v
  | inr (i, e) ↦
      let falls = Falls-select i r.next_timer r.timers v.falls in
      let mine = subst (λ rt. All (Owned rt r.ping_interval) r.timers) e v.owned in
      let owned = Owned-cleared_reconnect r.ping_interval i none r.timers mine in ground arith
]

pub clear_ping_interval-Inv : (r : Runtime) → Inv r → Inv (clear_ping_interval r)
unfolding clear_ping_interval clear_timer
clear_ping_interval-Inv r v = elim (Option-cases r.ping_interval) [
  | inl e ↦ rw (e, clear_ping_interval) v
  | inr (i, e) ↦
      let falls = Falls-select i r.next_timer r.timers v.falls in
      let mine = subst (λ pi. All (Owned r.reconnect_timer pi) r.timers) e v.owned in
      let owned = Owned-cleared_ping r.reconnect_timer i none r.timers mine in ground arith
]

-- Both leave no name behind.
pub reconnect_timer-clear : (r : Runtime) → (clear_reconnect_timer r).reconnect_timer ≡ none
unfolding clear_reconnect_timer
reconnect_timer-clear r = ground arith

pub ping_interval-clear : (r : Runtime) → (clear_ping_interval r).ping_interval ≡ none
unfolding clear_ping_interval
ping_interval-clear r = ground arith

pub start_ping-Inv : (r : Runtime) → Inv r → Inv (start_ping r)
unfolding start_ping add_timer
start_ping-Inv r v =
    let w = clear_ping_interval-Inv r v in
    let q = clear_ping_interval r in
    let mine =
      subst (λ pi. All (Owned q.reconnect_timer pi) q.timers) (ping_interval-clear r) w.owned in
    let owned = Owned-no_ping q.reconnect_timer (some q.next_timer) q.timers mine in ground arith

pub handle_error-Inv : (e : Failure) (r : Runtime) → Inv r → Inv (handle_error e r)
unfolding handle_error
handle_error-Inv e r v = notify_error-Inv e _ (set_status-Inv error r v)

pub InRange-mono : (o : Option ℕ) (m n : ℕ) → m ≤ n → InRange o m → InRange o n
InRange-mono none m n h p = tt
InRange-mono (some i) m n h p = omega arith

pub open_socket-Inv : (r : Runtime) → Inv r → Inv (open_socket r)
unfolding open_socket
open_socket-Inv r v = ground (
  arith,
  handle_error-Inv constructor_failed r,
  length-append r.sockets (ReadyState.connecting ∷ []),
)

pub connect-Inv : (r : Runtime) → Inv r → Inv (connect r)
unfolding connect
connect-Inv r v =
    ground (arith, open_socket-Inv (set_status connecting r), set_status-Inv connecting r)

-- A socket's state changes, and its place stays.
pub sockets-Inv :
    (i : ℕ) (s : ReadyState) (r : Runtime) → Inv r → Inv (record r { sockets = set r.sockets i s })
sockets-Inv i s r v = record {
  attempts = v.attempts;
  delay = v.delay;
  falls = v.falls;
  owned = v.owned;
  socket = rw (length-set r.sockets i s) v.socket;
}

pub close_socket-Inv : (o : Option ℕ) (r : Runtime) → Inv r → Inv (close_socket o r)
unfolding close_socket
close_socket-Inv none r v = v
close_socket-Inv (some i) r v = ground arith

pub disconnect-Inv : (r : Runtime) → Inv r → Inv (disconnect r)
unfolding disconnect
disconnect-Inv r v =
    set_status-Inv disconnected _
      (close_socket-Inv _ _ (clear_ping_interval-Inv _ (clear_reconnect_timer-Inv r v)))

pub send-Inv : (m : Json) (r q : Runtime) → Inv r → send m r ≡ some q → Inv q
unfolding send
send-Inv m r q v e = ground arith

pub wait_for_connection-Inv :
    (timeout : ℕ) (r : Runtime) → Inv r → Inv (wait_for_connection timeout r).0
unfolding wait_for_connection add_timer
wait_for_connection-Inv timeout r v = ground arith

pub handle_open-Inv : (r : Runtime) → Inv r → Inv (handle_open r)
unfolding handle_open
handle_open-Inv r v = start_ping-Inv _ (set_status-Inv connected _ (ground arith))

pub handle_message-Inv : (frame : Option Json) (r : Runtime) → Inv r → Inv (handle_message frame r)
unfolding handle_message
handle_message-Inv none r v = ground (arith, notify_error-Inv bad_frame r v)
handle_message-Inv (some m) r v =
    ground
      (arith, notify_error-Inv bad_frame r v, call_message_handlers-Inv m r.message_handlers r v)
