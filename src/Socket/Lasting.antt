-- ===== src/Socket/Lasting.antt =====
-- A promise of waitForConnection is never lost: what the methods of websocket.ts keep of one that was made.
use zero_mes.Common.{
  ℕ, ◌+◌, ◌≤◌, ◌≡◌, refl, ap, sym, subst, false, List, [], ◌∷◌, All, ◌==◌, arith, Option-cases,
  Bool-cases, inl, inr,
}
use zero_mes.Json.{Json}
use zero_mes.Socket.State.{
  Status, connected, error, StatusHandler, listener, waiter, Failure, wait_done, Runtime, Task,
  Effect, status_called, error_called, message_called, same_status, add_timer, clear_timer, emit,
}
use zero_mes.Socket.Client.{
  delete_status_handler, on_wait, call_status_handler, call_status_handlers, set_status,
  call_error_handlers, notify_error, call_message_handlers, clear_reconnect_timer,
  clear_ping_interval,
}
use zero_mes.Socket.Waits.{
  one, is_settled, is_done, waiters, dones, settles, waiters-delete, waiters-on_wait,
}
use zero_mes.Socket.Free.{
  Free, FreeName, FreeHandler, Frees, FreeName-Frees, FreeHandler-Frees, clear_timer-Frees,
  add_timer-Frees, dones-clear, FreeHandler-delete,
}

module _ (t c : ℕ) where
  -- The promise waits, is about to resolve, or has settled, once it was made (`c` is 1 then), and no number that the client may clear is that of
  -- the timer that is about to resolve it.
  pub record Lasts (r : Runtime) : Type 0 where
    pub total :
        (c ≤ waiters t r.status_handlers + dones t r.timers + settles t r.trace)
        × (waiters t r.status_handlers + dones t r.timers + settles t r.trace ≤ 1)
    pub reconnect_free : FreeName t r r.reconnect_timer
    pub ping_free : FreeName t r r.ping_interval
    pub handlers_free : All (FreeHandler t r) r.status_handlers

  -- A call of a handler settles nothing.
  pub emit-Lasts : (e : Effect) (r : Runtime) → is_settled t e ≡ false → Lasts r → Lasts (emit e r)
  emit-Lasts e r other v = record {
    total = omega (arith, v.total, ap one other);
    reconnect_free = v.reconnect_free;
    ping_free = v.ping_free;
    handlers_free = v.handlers_free;
  }

  pub add_timer-Lasts :
      (task : Task) (d : ℕ) (r : Runtime)
      → is_done t task ≡ false
      → Lasts r
      → Lasts (add_timer task d r)
  unfolding add_timer
  add_timer-Lasts task d r other v =
      let q = add_timer task d r in
      let frees = add_timer-Frees t task d r in
      record {
        total = omega (arith, v.total, ap one other);
        reconnect_free = FreeName-Frees t r q r.reconnect_timer frees v.reconnect_free;
        ping_free = FreeName-Frees t r q r.ping_interval frees v.ping_free;
        handlers_free = FreeHandler-Frees t r q r.status_handlers frees v.handlers_free;
      }

  on_wait-Frees : (u : ℕ) (s : Status) (r : Runtime) → Frees t r (on_wait u s r)
  unfolding on_wait add_timer clear_timer
  on_wait-Frees u connected r i h =
      add_timer-Frees t (wait_done u) 50 (clear_timer u r) i (clear_timer-Frees t u r i h)
  on_wait-Frees u error r i h = clear_timer-Frees t u r i h
  on_wait-Frees u _ r i h = h

  on_wait-total :
      (u : ℕ) (s : Status) (r : Runtime)
      → one (u == t) ≤ waiters t r.status_handlers
      → Free t r u
      → (c ≤ waiters t r.status_handlers + dones t r.timers + settles t r.trace)
        × (waiters t r.status_handlers + dones t r.timers + settles t r.trace ≤ 1)
      → let q = on_wait u s r in
        (c ≤ waiters t q.status_handlers + dones t q.timers + settles t q.trace)
        × (waiters t q.status_handlers + dones t q.timers + settles t q.trace ≤ 1)
  unfolding on_wait add_timer clear_timer
  on_wait-total u connected r here f total =
      let gone = waiters-delete t u r.status_handlers in
      let same = dones-clear t u r f in
      elim (Bool-cases (u == t)) [
        | inl e ↦
            let one_u : one (u == t) ≡ 1 = ap one e in
            let zero_left : waiters t (delete_status_handler (waiter u) r.status_handlers) ≡ 0 =
              ground (arith, gone) in
            omega (arith, total, here, same, zero_left, one_u)
        | inr e ↦
            let one_u : one (u == t) ≡ 0 = ap one e in
            let kept : waiters t (delete_status_handler (waiter u) r.status_handlers)
                ≡ waiters t r.status_handlers =
              ground (arith, gone) in
            omega (arith, total, same, kept, one_u)
      ]
  on_wait-total u error r here f total =
      let gone = waiters-delete t u r.status_handlers in
      let same = dones-clear t u r f in
      elim (Bool-cases (u == t)) [
        | inl e ↦
            let one_u : one (u == t) ≡ 1 = ap one e in
            let zero_left : waiters t (delete_status_handler (waiter u) r.status_handlers) ≡ 0 =
              ground (arith, gone) in
            omega (arith, total, here, same, zero_left, one_u)
        | inr e ↦
            let one_u : one (u == t) ≡ 0 = ap one e in
            let kept : waiters t (delete_status_handler (waiter u) r.status_handlers)
                ≡ waiters t r.status_handlers =
              ground (arith, gone) in
            omega (arith, total, same, kept, one_u)
      ]
  on_wait-total u _ r here f total = total

  on_wait-handlers :
      (u : ℕ) (s : Status) (r : Runtime)
      → All (FreeHandler t r) r.status_handlers
      → All (FreeHandler t r) (on_wait u s r).status_handlers
  unfolding on_wait add_timer clear_timer
  on_wait-handlers u connected r h = FreeHandler-delete t r (waiter u) r.status_handlers h
  on_wait-handlers u error r h = FreeHandler-delete t r (waiter u) r.status_handlers h
  on_wait-handlers u _ r h = h

  on_wait-names :
      (u : ℕ) (s : Status) (r : Runtime)
      → ((on_wait u s r).reconnect_timer ≡ r.reconnect_timer)
        × ((on_wait u s r).ping_interval ≡ r.ping_interval)
  unfolding on_wait add_timer clear_timer
  on_wait-names u connected r = (refl, refl)
  on_wait-names u error r = (refl, refl)
  on_wait-names u _ r = (refl, refl)

  on_wait-Lasts :
      (u : ℕ) (s : Status) (r : Runtime)
      → one (u == t) ≤ waiters t r.status_handlers
      → Free t r u
      → Lasts r
      → Lasts (on_wait u s r)
  on_wait-Lasts u s r here f v =
      let q = on_wait u s r in
      let frees = on_wait-Frees u s r in
      let names = on_wait-names u s r in
      record {
        total = on_wait-total u s r here f v.total;
        reconnect_free =
            subst (FreeName t q) (sym names.0)
              (FreeName-Frees t r q r.reconnect_timer frees v.reconnect_free);
        ping_free =
            subst (FreeName t q) (sym names.1)
              (FreeName-Frees t r q r.ping_interval frees v.ping_free);
        handlers_free =
            FreeHandler-Frees t r q q.status_handlers frees
              (on_wait-handlers u s r v.handlers_free);
      }

  pub call_status_handlers-Lasts :
      (s : Status) (hs : List StatusHandler) (r : Runtime)
      → waiters t hs ≤ waiters t r.status_handlers
      → All (FreeHandler t r) hs
      → Lasts r
      → Lasts (call_status_handlers s hs r)
  unfolding call_status_handlers call_status_handler
  call_status_handlers-Lasts s [] r le f v = v
  call_status_handlers-Lasts s (listener h ∷ hs) r le f v =
      call_status_handlers-Lasts s hs (emit (status_called h s) r) (omega (arith, le)) f.1
        (emit-Lasts (status_called h s) r refl v)
  call_status_handlers-Lasts s (waiter u ∷ hs) r le f v =
      call_status_handlers-Lasts s hs (on_wait u s r)
        (omega (arith, le, waiters-on_wait t u s r (omega (arith, v.total))))
        (FreeHandler-Frees t r (on_wait u s r) hs (on_wait-Frees u s r) f.1)
        (on_wait-Lasts u s r (omega (arith, le)) f.0 v)

  pub set_status-Lasts : (s : Status) (r : Runtime) → Lasts r → Lasts (set_status s r)
  unfolding set_status
  set_status-Lasts s r v =
      let called =
        call_status_handlers-Lasts s r.status_handlers (record r { status = s }) (omega arith)
          v.handlers_free
          (record {
            total = v.total;
            reconnect_free = v.reconnect_free;
            ping_free = v.ping_free;
            handlers_free = v.handlers_free;
          }) in
      elim (Bool-cases (same_status r.status s)) [ inl e ↦ rw e v | inr e ↦ rw e called ]

  call_error_handlers-Lasts :
      (e : Failure) (hs : List ℕ) (r : Runtime) → Lasts r → Lasts (call_error_handlers e hs r)
  unfolding call_error_handlers
  call_error_handlers-Lasts e [] r v = v
  call_error_handlers-Lasts e (h ∷ hs) r v =
      call_error_handlers-Lasts e hs _ (emit-Lasts (error_called h e) r refl v)

  pub notify_error-Lasts : (e : Failure) (r : Runtime) → Lasts r → Lasts (notify_error e r)
  unfolding notify_error
  notify_error-Lasts e r v = call_error_handlers-Lasts e r.error_handlers r v

  pub call_message_handlers-Lasts :
      (m : Json) (hs : List ℕ) (r : Runtime) → Lasts r → Lasts (call_message_handlers m hs r)
  unfolding call_message_handlers
  call_message_handlers-Lasts m [] r v = v
  call_message_handlers-Lasts m (h ∷ hs) r v =
      call_message_handlers-Lasts m hs _ (emit-Lasts (message_called h m) r refl v)

  -- A timer with a free number is cleared.
  pub clear_timer-Lasts : (i : ℕ) (r : Runtime) → Free t r i → Lasts r → Lasts (clear_timer i r)
  unfolding clear_timer
  clear_timer-Lasts i r f v =
      let q = clear_timer i r in
      let frees = clear_timer-Frees t i r in
      let same = dones-clear t i r f in
      record {
        total = omega (arith, v.total, same);
        reconnect_free = FreeName-Frees t r q r.reconnect_timer frees v.reconnect_free;
        ping_free = FreeName-Frees t r q r.ping_interval frees v.ping_free;
        handlers_free = FreeHandler-Frees t r q r.status_handlers frees v.handlers_free;
      }

  pub clear_reconnect_timer-Lasts : (r : Runtime) → Lasts r → Lasts (clear_reconnect_timer r)
  unfolding clear_reconnect_timer
  clear_reconnect_timer-Lasts r v = elim (Option-cases r.reconnect_timer) [
    | inl e ↦ rw (e, clear_reconnect_timer) v
    | inr (i, e) ↦
        let w = clear_timer-Lasts i r (subst (FreeName t r) e v.reconnect_free) v in
        rw (e, clear_reconnect_timer)
          (record {
            total = w.total;
            reconnect_free = tt;
            ping_free = w.ping_free;
            handlers_free = w.handlers_free;
          })
  ]

  pub clear_ping_interval-Lasts : (r : Runtime) → Lasts r → Lasts (clear_ping_interval r)
  unfolding clear_ping_interval
  clear_ping_interval-Lasts r v = elim (Option-cases r.ping_interval) [
    | inl e ↦ rw (e, clear_ping_interval) v
    | inr (i, e) ↦
        let w = clear_timer-Lasts i r (subst (FreeName t r) e v.ping_free) v in
        rw (e, clear_ping_interval)
          (record {
            total = w.total;
            reconnect_free = w.reconnect_free;
            ping_free = tt;
            handlers_free = w.handlers_free;
          })
  ]
