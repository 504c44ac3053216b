-- ===== src/Socket/Waits.antt =====
-- The promises of waitForConnection in websocket.ts: what still waits, what has settled, and what every method
-- of the client keeps of them. A wait goes by the number of its timeout.
use zero_mes.Common.{
  ℕ, ◌+◌, ◌≤◌, ◌≡◌, refl, ap, Bool, true, false, not, List, [], ◌∷◌, select, All, All-select, ◌==◌,
  arith, if◌then◌else◌, Option-cases, Bool-cases, inl, inr,
}
use zero_mes.Json.{Json}
use zero_mes.Socket.State.{
  Status, connected, error, StatusHandler, listener, waiter, Failure, Task, wait_timeout, wait_done,
  Timer, Effect, status_called, settled, Runtime, add_timer, clear_timer, emit,
}
use zero_mes.Socket.Client.{
  delete_status_handler, on_wait, call_status_handler, call_status_handlers, set_status,
  call_error_handlers, notify_error, call_message_handlers, clear_reconnect_timer,
  clear_ping_interval,
}

abbrev pub one : Bool → ℕ
one true = 1
one false = 0

module _ (t : ℕ) where
  abbrev pub is_timeout : Task → Bool
  is_timeout (wait_timeout u) = u == t
  is_timeout _ = false

  abbrev pub is_done : Task → Bool
  is_done (wait_done u) = u == t
  is_done _ = false

  abbrev pub is_settled : Effect → Bool
  is_settled (settled u _) = u == t
  is_settled _ = false

  abbrev pub is_waiter : StatusHandler → Bool
  is_waiter (waiter u) = u == t
  is_waiter _ = false

  abbrev pub waiters : List StatusHandler → ℕ
  waiters [] = 0
  waiters (h ∷ hs) = one (is_waiter h) + waiters hs

  abbrev pub timeouts : List Timer → ℕ
  timeouts [] = 0
  timeouts (x ∷ xs) = one (is_timeout x.task) + timeouts xs

  abbrev pub dones : List Timer → ℕ
  dones [] = 0
  dones (x ∷ xs) = one (is_done x.task) + dones xs

  abbrev pub settles : List Effect → ℕ
  settles [] = 0
  settles (e ∷ es) = one (is_settled e) + settles es

  abbrev pub Own : Timer → Type 0
  Own x = is_timeout x.task ≡ true → x.id ≡ t

  -- The timeout of a wait runs only while its handler is there, and a wait is pending, about to settle, or
  -- settled, once.
  pub record Once (r : Runtime) : Type 0 where
    pub own : All Own r.timers
    pub guarded : timeouts r.timers ≤ waiters r.status_handlers
    pub once : waiters r.status_handlers + dones r.timers + settles r.trace ≤ 1
    pub fresh : r.next_timer ≤ t → waiters r.status_handlers + dones r.timers + settles r.trace ≡ 0

  pub timeouts-select : (p : Timer → Bool) (xs : List Timer) → timeouts (select p xs) ≤ timeouts xs
  timeouts-select p [] = omega arith
  timeouts-select p (x ∷ xs) = ground (arith, timeouts-select p xs)

  pub dones-select : (p : Timer → Bool) (xs : List Timer) → dones (select p xs) ≤ dones xs
  dones-select p [] = omega arith
  dones-select p (x ∷ xs) = ground (arith, dones-select p xs)

  pub clear_timer-Once : (i : ℕ) (r : Runtime) → Once r → Once (clear_timer i r)
  unfolding clear_timer
  clear_timer-Once i r v =
      let fewer = timeouts-select (λ x. not (x.id == i)) r.timers in
      let done = dones-select (λ x. not (x.id == i)) r.timers in
      record {
        own = All-select Own (λ x. not (x.id == i)) r.timers v.own;
        guarded = omega (arith, fewer, v.guarded);
        once = omega (arith, done, v.once);
        fresh = λ h. omega (arith, done, v.fresh h);
      }

  -- Its own timeout is gone when it is cleared.
  pub timeouts-clear :
      (u : ℕ) (xs : List Timer)
      → (u == t) ≡ true
      → All Own xs
      → timeouts (select (λ x. not (x.id == u)) xs) ≡ 0
  timeouts-clear u [] e h = refl
  timeouts-clear u (x ∷ xs) e h = ground (arith, timeouts-clear u xs e h.1)

  pub waiters-delete :
      (u : ℕ) (hs : List StatusHandler)
      → waiters (delete_status_handler (waiter u) hs) ≡ (if u == t then 0 else waiters hs)
  unfolding delete_status_handler
  waiters-delete u [] = ground arith
  waiters-delete u (listener h ∷ hs) = ground (arith, waiters-delete u hs)
  waiters-delete u (waiter h ∷ hs) = ground (arith, waiters-delete u hs)

  -- What `on_wait` leaves before it settles, or promises to.
  Left : ℕ → Runtime → Runtime → Type 0
  Left u r q =
      All Own q.timers
      × (timeouts q.timers ≤ waiters q.status_handlers)
      × (waiters q.status_handlers + dones q.timers + settles q.trace + one (u == t) ≤ 1)
      × (r.next_timer ≤ t
          → waiters q.status_handlers + dones q.timers + settles q.trace + one (u == t) ≡ 0)

  leave : ℕ → Runtime → Runtime
  unfolding clear_timer
  leave u r =
      let stopped = clear_timer u r in
      record stopped { status_handlers = delete_status_handler (waiter u) r.status_handlers }

  leave-Left :
      (u : ℕ) (r : Runtime)
      → one (u == t) ≤ waiters r.status_handlers
      → Once r
      → Left u r (leave u r)
  unfolding clear_timer Left leave
  leave-Left u r here v =
      let w = clear_timer-Once u r v in
      let gone = waiters-delete u r.status_handlers in
      elim (Bool-cases (u == t)) [
        | inl e ↦
            let none_left = timeouts-clear u r.timers e v.own in
            let zero_left : waiters (delete_status_handler (waiter u) r.status_handlers) ≡ 0 =
              ground (arith, gone) in
            let done = dones-select (λ x. not (x.id == u)) r.timers in
            let one_u : one (u == t) ≡ 1 = ap one e in
            (
              w.own,
              omega (arith, none_left),
              omega (arith, done, v.once, here, zero_left, one_u),
              λ h. omega (arith, done, v.fresh h, here, zero_left, one_u),
            )
        | inr e ↦
            let same : waiters (delete_status_handler (waiter u) r.status_handlers)
                ≡ waiters r.status_handlers =
              ground (arith, gone) in
            let one_u : one (u == t) ≡ 0 = ap one e in
            (
              w.own,
              omega (arith, w.guarded, same),
              omega (arith, w.once, same, one_u),
              λ h. omega (arith, w.fresh h, same, one_u),
            )
      ]

  on_wait-Once :
      (u : ℕ) (s : Status) (r : Runtime)
      → one (u == t) ≤ waiters r.status_handlers
      → Once r
      → Once (on_wait u s r)
  unfolding on_wait add_timer clear_timer leave Left
  on_wait-Once u connected r here v =
      let (own, guarded, once, fresh) = leave-Left u r here v in
      record {
        own = (λ e. ground arith, own);
        guarded = ground arith;
        once = omega (arith, once);
        fresh = λ h. omega (arith, fresh (omega arith));
      }
  on_wait-Once u error r here v =
      let (own, guarded, once, fresh) = leave-Left u r here v in
      record {
        own = own;
        guarded = guarded;
        once = omega (arith, once);
        fresh = λ h. omega (arith, fresh h);
      }
  on_wait-Once u _ r here v = v

  pub waiters-on_wait :
      (u : ℕ) (s : Status) (r : Runtime)
      → waiters r.status_handlers ≤ 1
      → waiters r.status_handlers ≤ waiters (on_wait u s r).status_handlers + one (u == t)
  unfolding on_wait add_timer clear_timer
  waiters-on_wait u connected r h = ground (arith, waiters-delete u r.status_handlers)
  waiters-on_wait u error r h = ground (arith, waiters-delete u r.status_handlers)
  waiters-on_wait u _ r h = omega arith

  -- The handlers that are still to be called include no wait that has left.
  pub call_status_handlers-Once :
      (s : Status) (hs : List StatusHandler) (r : Runtime)
      → waiters hs ≤ waiters r.status_handlers
      → Once r
      → Once (call_status_handlers s hs r)
  unfolding call_status_handlers call_status_handler
  call_status_handlers-Once s [] r le v = v
  call_status_handlers-Once s (listener h ∷ hs) r le v =
      call_status_handlers-Once s hs (emit (status_called h s) r) (omega (arith, le)) (ground arith)
  call_status_handlers-Once s (waiter u ∷ hs) r le v =
      call_status_handlers-Once s hs (on_wait u s r)
        (omega (arith, le, waiters-on_wait u s r (omega (arith, v.once))))
        (on_wait-Once u s r (omega (arith, le)) v)

  pub set_status-Once : (s : Status) (r : Runtime) → Once r → Once (set_status s r)
  unfolding set_status
  set_status-Once s r v =
      ground (
        arith,
        call_status_handlers-Once s r.status_handlers (record r { status = s }) (omega arith),
      )

  call_error_handlers-Once :
      (e : Failure) (hs : List ℕ) (r : Runtime) → Once r → Once (call_error_handlers e hs r)
  unfolding call_error_handlers
  call_error_handlers-Once e [] r v = v
  call_error_handlers-Once e (h ∷ hs) r v = call_error_handlers-Once e hs _ (ground arith)

  pub notify_error-Once : (e : Failure) (r : Runtime) → Once r → Once (notify_error e r)
  unfolding notify_error
  notify_error-Once e r v = call_error_handlers-Once e r.error_handlers r v

  pub call_message_handlers-Once :
      (m : Json) (hs : List ℕ) (r : Runtime) → Once r → Once (call_message_handlers m hs r)
  unfolding call_message_handlers
  call_message_handlers-Once m [] r v = v
  call_message_handlers-Once m (h ∷ hs) r v = call_message_handlers-Once m hs _ (ground arith)

  pub clear_reconnect_timer-Once : (r : Runtime) → Once r → Once (clear_reconnect_timer r)
  unfolding clear_reconnect_timer clear_timer
  clear_reconnect_timer-Once r v = elim (Option-cases r.reconnect_timer) [
    | inl e ↦ rw (e, clear_reconnect_timer) v
    | inr (i, e) ↦ let w = clear_timer-Once i r v in ground arith
  ]

  pub clear_ping_interval-Once : (r : Runtime) → Once r → Once (clear_ping_interval r)
  unfolding clear_ping_interval clear_timer
  clear_ping_interval-Once r v = elim (Option-cases r.ping_interval) [
    | inl e ↦ rw (e, clear_ping_interval) v
    | inr (i, e) ↦ let w = clear_timer-Once i r v in ground arith
  ]
