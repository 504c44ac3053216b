-- ===== src/Socket/Delivery.antt =====
-- Who is called in websocket.ts: message frames, errors, status changes, and subscriptions.
use mathlib.Core.List.{reverse, reverse-cons, append_assoc, map-append}
use zero_mes.Common.{
  ℕ, ◌≡◌, refl, Bool, false, none, some, List, [], ◌∷◌, ◌++◌, map, not, ◌==◌, ◌||◌, ◌&&◌, arith, ap,
  ◌∙◌, if◌then◌else◌,
}
use zero_mes.Json.{Json, null, Value, member, is_text}
use zero_mes.Socket.State.{
  Status, StatusHandler, listener, waiter, Failure, bad_frame, Effect, status_called,
  message_called, error_called, Runtime, same_status, emit, add_timer, clear_timer,
}
use zero_mes.Socket.Client.{
  add_handler, delete_handler, on_wait, call_status_handler, call_status_handlers, set_status,
  call_error_handlers, notify_error, call_message_handlers, on_message, off_message,
}
use zero_mes.Socket.Events.{handle_message}

-- One call for each handler; a trace has the latest first.
abbrev pub calls : (ℕ → Effect) → List ℕ → List Effect → List Effect
calls f hs es = map f (reverse hs) ++ es

calls-cons :
    (f : ℕ → Effect) (h : ℕ) (hs : List ℕ) (es : List Effect)
    → calls f hs (f h ∷ es) ≡ calls f (h ∷ hs) es
calls-cons f h hs es = simp (reverse-cons, map-append, append_assoc)

call_error_handlers-calls :
    (e : Failure) (hs : List ℕ) (r : Runtime)
    → call_error_handlers e hs r ≡ record r { trace = calls (λ h. error_called h e) hs r.trace }
unfolding call_error_handlers
call_error_handlers-calls e [] r = refl
call_error_handlers-calls e (h ∷ hs) r = call_error_handlers-calls e hs _ ∙ λ i. record r {
  trace = calls-cons (λ k. error_called k e) h hs r.trace i;
}

call_message_handlers-calls :
    (m : Json) (hs : List ℕ) (r : Runtime)
    → call_message_handlers m hs r ≡ record r { trace = calls (λ h. message_called h m) hs r.trace }
unfolding call_message_handlers
call_message_handlers-calls m [] r = refl
call_message_handlers-calls m (h ∷ hs) r = call_message_handlers-calls m hs _ ∙ λ i. record r {
  trace = calls-cons (λ k. message_called k m) h hs r.trace i;
}

-- A frame that is no JSON, or is `null`, goes to every error handler; a pong goes to nobody; any other
-- goes to every message handler, in their order and once. Nothing but the trace changes.
pub handle_message_lem :
    (r : Runtime) (m : Json) (type : Value)
    → member "type" (some m) ≡ some type
    → (handle_message none r
        ≡ record r { trace = calls (λ h. error_called h bad_frame) r.error_handlers r.trace })
      × (handle_message (some null) r
          ≡ record r { trace = calls (λ h. error_called h bad_frame) r.error_handlers r.trace })
      × (handle_message (some m) r ≡ (
          if is_text type "pong"
          then r
          else record r { trace = calls (λ h. message_called h m) r.message_handlers r.trace }))
unfolding handle_message notify_error member
handle_message_lem r m type e = (
  call_error_handlers-calls bad_frame r.error_handlers r,
  call_error_handlers-calls bad_frame r.error_handlers r,
  rw (e, handle_message) (ground (arith, call_message_handlers-calls m r.message_handlers r)),
)

abbrev pub contains : ℕ → List ℕ → Bool
contains h [] = false
contains h (x ∷ xs) = x == h || contains h xs

contains-add : (h k : ℕ) (hs : List ℕ) → contains k (add_handler h hs) ≡ (h == k || contains k hs)
unfolding add_handler
contains-add h k [] = ground arith
contains-add h k (x ∷ xs) = ground (arith, contains-add h k xs)

contains-delete :
    (h k : ℕ) (hs : List ℕ) → contains k (delete_handler h hs) ≡ (not (h == k) && contains k hs)
unfolding delete_handler
contains-delete h k [] = ground arith
contains-delete h k (x ∷ xs) = ground (arith, contains-delete h k xs)

-- `onMessage` adds its handler and `unsubscribe` takes it away; both leave every other handler alone.
pub subscription :
    (h k : ℕ) (r : Runtime)
    → (contains k (on_message h r).message_handlers ≡ (h == k || contains k r.message_handlers))
      × (contains k (off_message h r).message_handlers
          ≡ (not (h == k) && contains k r.message_handlers))
unfolding on_message off_message
subscription h k r = (contains-add h k r.message_handlers, contains-delete h k r.message_handlers)

-- The calls of status listeners in a trace, and the listeners among the handlers.
abbrev pub status_calls : List Effect → List (ℕ × Status)
status_calls [] = []
status_calls (status_called h s ∷ es) = (h, s) ∷ status_calls es
status_calls (_ ∷ es) = status_calls es

abbrev pub listeners : List StatusHandler → List ℕ
listeners [] = []
listeners (listener h ∷ hs) = h ∷ listeners hs
listeners (waiter t ∷ hs) = listeners hs

status_calls-on_wait :
    (t : ℕ) (s : Status) (r : Runtime) → status_calls (on_wait t s r).trace ≡ status_calls r.trace
unfolding on_wait add_timer clear_timer
status_calls-on_wait t s r = ground arith

call_status_handlers-calls :
    (s : Status) (hs : List StatusHandler) (r : Runtime)
    → status_calls (call_status_handlers s hs r).trace
      ≡ map (λ h. (h, s)) (reverse (listeners hs)) ++ status_calls r.trace
unfolding call_status_handlers call_status_handler
call_status_handlers-calls s [] r = refl
call_status_handlers-calls s (listener h ∷ hs) r =
    call_status_handlers-calls s hs (emit (status_called h s) r)
    ∙ simp (reverse-cons, map-append, append_assoc)
call_status_handlers-calls s (waiter t ∷ hs) r =
    call_status_handlers-calls s hs (on_wait t s r)
    ∙ ap (λ c. map (λ h. (h, s)) (reverse (listeners hs)) ++ c) (status_calls-on_wait t s r)

-- A change of status calls every listener once, in their order, with the new status; setting the
-- status that the client has calls nobody.
pub set_status-calls :
    (s : Status) (r : Runtime)
    → status_calls (set_status s r).trace ≡ (
        if same_status r.status s
        then status_calls r.trace
        else map (λ h. (h, s)) (reverse (listeners r.status_handlers)) ++ status_calls r.trace)
unfolding set_status
set_status-calls s r =
    ground (arith, call_status_handlers-calls s r.status_handlers (record r { status = s }))
