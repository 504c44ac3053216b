-- ===== src/Socket/Closing.antt =====
-- The end of a connection in websocket.ts: `handleClose`, code by code.
use zero_mes.Common.{
  ℕ, suc, ◌*◌, ◌^◌, ◌≤◌, ◌<◌, ◌≡◌, ◌≢◌, refl, true, false, inl, inr, none, List, [], ◌∷◌, not, ◌==◌,
  ◌⊎◌, All, arith, lt→ltb, Bool-cases, subst, ap, ◌∙◌,
}
use zero_mes.Socket.State.{
  Status, disconnected, StatusHandler, listener, waiter, Effect, status_called, reconnect, Timer,
  Runtime, add_timer, clear_timer, same_status,
}
use zero_mes.Socket.Client.{
  on_wait, call_status_handler, call_status_handlers, set_status, clear_reconnect_timer,
  clear_ping_interval,
}
use zero_mes.Socket.Events.{schedule_reconnect, handle_close, is_auth_failure}
use zero_mes.Socket.Timers.{Owned, reconnects, pings, reconnects-none, pings-none}
use zero_mes.Socket.Reachable.{backoff, backoff_lem, backoff_bounds}
use zero_mes.Socket.Invariant.{
  Inv, set_status-Inv, clear_reconnect_timer-Inv, reconnect_timer-clear, clear_ping_interval-Inv,
  ping_interval-clear,
}

-- The calls that the status handlers make on 'disconnected', which settles no wait.
abbrev called : List StatusHandler → List Effect → List Effect
called [] es = es
called (listener h ∷ hs) es = called hs (status_called h disconnected ∷ es)
called (waiter t ∷ hs) es = called hs es

call_disconnected :
    (hs : List StatusHandler) (r : Runtime)
    → call_status_handlers disconnected hs r ≡ record r { trace = called hs r.trace }
unfolding call_status_handlers call_status_handler on_wait
call_disconnected [] r = refl
call_disconnected (listener h ∷ hs) r = call_disconnected hs _
call_disconnected (waiter t ∷ hs) r = call_disconnected hs r

same_status→eq : (s : Status) → same_status s disconnected ≡ true → s ≡ disconnected
same_status→eq disconnected h = refl
same_status→eq _ h = cc

-- Becoming 'disconnected' changes the status and the trace alone.
pub set_disconnected :
    (r : Runtime)
    → (t : List Effect) × (set_status disconnected r
        ≡ record r { status = disconnected; trace = t })
unfolding set_status
set_disconnected r = elim (Bool-cases (same_status r.status disconnected)) [
  | inl e ↦ (r.trace, rw e (λ i. record r { status = same_status→eq r.status e i }))
  | inr e ↦ (
    called r.status_handlers r.trace,
    rw e (call_disconnected r.status_handlers (record r { status = disconnected })),
  )
]

-- The fields that `handleClose` and `disconnect` decide by, through each of their steps.
pub clear_ping-keeps :
    (r : Runtime)
    → let q = clear_ping_interval r in
      (q.reconnect_attempts ≡ r.reconnect_attempts)
      × (q.next_timer ≡ r.next_timer)
      × (q.reconnect_timer ≡ r.reconnect_timer)
      × (q.ws ≡ r.ws)
      × (q.sockets ≡ r.sockets)
unfolding clear_ping_interval clear_timer
clear_ping-keeps r = ground arith

pub clear_reconnect-keeps :
    (r : Runtime)
    → let q = clear_reconnect_timer r in
      (q.reconnect_attempts ≡ r.reconnect_attempts)
      × (q.reconnect_delay ≡ r.reconnect_delay)
      × (q.next_timer ≡ r.next_timer)
      × (q.ping_interval ≡ r.ping_interval)
      × (q.ws ≡ r.ws)
      × (q.sockets ≡ r.sockets)
unfolding clear_reconnect_timer clear_timer
clear_reconnect-keeps r = ground arith

-- The codes after which the client tries again.
abbrev pub Abnormal : ℕ → Type 0
Abnormal code = (code ≢ 1000) × (code ≢ 1008) × (code ≢ 4001) × (code ≢ 4401)

pub no_pings : (r : Runtime) → Inv r → r.ping_interval ≡ none → pings r.timers ≡ 0
no_pings r v e =
    pings-none r.reconnect_timer r.timers
      (subst (λ pi. All (Owned r.reconnect_timer pi) r.timers) e v.owned)

pub no_reconnects : (r : Runtime) → Inv r → r.reconnect_timer ≡ none → reconnects r.timers ≡ 0
no_reconnects r v e =
    reconnects-none r.ping_interval r.timers
      (subst (λ rt. All (Owned rt r.ping_interval) r.timers) e v.owned)

-- The timers after `scheduleReconnect`.
schedule_reconnect-timers :
    (r : Runtime)
    → Inv r
    → let q = schedule_reconnect r in
      (reconnects q.timers ≡ 1)
      × (q.reconnect_attempts ≡ suc r.reconnect_attempts)
      × (pings q.timers ≡ pings (clear_reconnect_timer r).timers)
      × (q.status ≡ (clear_reconnect_timer r).status)
      × ((ts : List Timer) × (q.timers
            ≡ (record { id = r.next_timer; task = reconnect; delay = backoff r.reconnect_attempts })
              ∷ ts))
unfolding schedule_reconnect add_timer
schedule_reconnect-timers r v =
    let q = clear_reconnect_timer r in
    let w = clear_reconnect_timer-Inv r v in
    let k = clear_reconnect-keeps r in
    let same_delay = backoff_lem q.reconnect_delay q.reconnect_attempts w.delay ∙ ap backoff k.0 in
    (
      ap suc (no_reconnects q w (reconnect_timer-clear r)),
      ap suc k.0,
      refl,
      refl,
      (q.timers, λ i. (record { id = k.2 i; task = reconnect; delay = same_delay i }) ∷ q.timers),
    )

-- The client when `handleClose` has told the status handlers.
abbrev gone : Runtime → Runtime
gone r = set_status disconnected (clear_ping_interval r)

gone-keeps :
    (r : Runtime)
    → ((gone r).reconnect_attempts ≡ r.reconnect_attempts)
      × ((gone r).next_timer ≡ r.next_timer)
      × ((gone r).reconnect_timer ≡ r.reconnect_timer)
      × ((gone r).timers ≡ (clear_ping_interval r).timers)
      × ((gone r).status ≡ disconnected)
gone-keeps r =
    let (t, e) = set_disconnected (clear_ping_interval r) in
    let k = clear_ping-keeps r in
    (
      ap (λ q. q.reconnect_attempts) e ∙ k.0,
      ap (λ q. q.next_timer) e ∙ k.1,
      ap (λ q. q.reconnect_timer) e ∙ k.2,
      ap (λ q. q.timers) e,
      ap (λ q. q.status) e,
    )

gone-Inv : (r : Runtime) → Inv r → Inv (gone r)
gone-Inv r v = set_status-Inv disconnected _ (clear_ping_interval-Inv r v)

Abnormal-tests :
    (code : ℕ) → Abnormal code → (is_auth_failure code ≡ false) × (not (code == 1000) ≡ true)
unfolding is_auth_failure
Abnormal-tests code h = ground arith

handle_close-Abnormal :
    (code : ℕ) (r : Runtime)
    → Abnormal code
    → r.reconnect_attempts < 5
    → handle_close code r ≡ schedule_reconnect (gone r)
unfolding handle_close
handle_close-Abnormal code r h few =
    let (other, abnormal) = Abnormal-tests code h in
    rw (other, abnormal, (gone-keeps r).0, lt→ltb r.reconnect_attempts 5 few)

handle_close_stops :
    (code : ℕ) (r : Runtime)
    → ((code ≡ 1000) ⊎ (code ≡ 1008) ⊎ (code ≡ 4001) ⊎ (code ≡ 4401) ⊎ (5 ≤ r.reconnect_attempts))
    → handle_close code r ≡ gone r
unfolding handle_close is_auth_failure
handle_close_stops code r h = ground (arith, (gone-keeps r).0)

backoff_uncapped : (n : ℕ) → n < 5 → backoff n ≡ 1000 * 2 ^ n
backoff_uncapped n h = omega (arith, backoff_bounds n h)

-- The end of a connection with an abnormal code, while fewer than 5 attempts are counted: one
-- reconnect timer runs, with the delay 1000 · 2ⁿ ms after n attempts, and the attempt is counted.
pub handle_close_retries :
    (code : ℕ) (r : Runtime)
    → Inv r
    → Abnormal code
    → r.reconnect_attempts < 5
    → let q = handle_close code r in
      (reconnects q.timers ≡ 1)
      × (q.reconnect_attempts ≡ suc r.reconnect_attempts)
      × ((ts : List Timer) × (q.timers
            ≡ (record {
              id = r.next_timer;
              task = reconnect;
              delay = 1000 * 2 ^ r.reconnect_attempts;
            })
              ∷ ts))
handle_close_retries code r v h few =
    let s = schedule_reconnect-timers (gone r) (gone-Inv r v) in
    let k = gone-keeps r in
    let same_delay = ap backoff k.0 ∙ backoff_uncapped r.reconnect_attempts few in
    rw (handle_close-Abnormal code r h few) (
      s.0,
      s.1 ∙ ap suc k.0,
      (s.4.0, s.4.1 ∙ λ i. (record { id = k.1 i; task = reconnect; delay = same_delay i }) ∷ s.4.0),
    )

-- After a normal close, an authentication failure, or 5 attempts, no timer is started and no attempt
-- is counted; the ping interval has stopped.
pub handle_close_final :
    (code : ℕ) (r : Runtime)
    → Inv r
    → ((code ≡ 1000) ⊎ (code ≡ 1008) ⊎ (code ≡ 4001) ⊎ (code ≡ 4401) ⊎ (5 ≤ r.reconnect_attempts))
    → let q = handle_close code r in
      (q.next_timer ≡ r.next_timer)
      × (q.reconnect_attempts ≡ r.reconnect_attempts)
      × (q.reconnect_timer ≡ r.reconnect_timer)
      × (pings q.timers ≡ 0)
      × (q.status ≡ disconnected)
handle_close_final code r v h =
    let k = gone-keeps r in
    let p = clear_ping_interval r in
    let quiet = no_pings p (clear_ping_interval-Inv r v) (ping_interval-clear r) in
    rw (handle_close_stops code r h) (k.1, k.0, k.2, ap pings k.3 ∙ quiet, k.4)
