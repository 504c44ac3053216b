-- ===== src/Socket/Settled.antt =====
-- A promise of waitForConnection is neither lost nor settled twice, whatever happens in websocket.ts.
use zero_mes.Common.{
  ℕ, ◌+◌, ◌≤◌, ◌≡◌, ap, String, Bool, true, Option, List, ◌&&◌, ◌==◌, arith, Bool-cases, inl, inr,
}
use zero_mes.Socket.State.{connected, waiter, Runtime, same_status, add_timer}
use zero_mes.Socket.Client.{Location, waiting, new_client, is_connected, wait_for_connection}
use zero_mes.Socket.Events.{Event, run}
use zero_mes.Socket.Invariant.{Inv, wait_for_connection-Inv}
use zero_mes.Socket.Reachable.{run-Inv, new_client-Inv}
use zero_mes.Socket.Waits.{one, waiters, timeouts, dones, settles, Once}
use zero_mes.Socket.Settling.{waiters-add, wait_for_connection-Once}
use zero_mes.Socket.Histories.{run-Once}
use zero_mes.Socket.Lasting.{Lasts}
use zero_mes.Socket.Kept.{begun, begun-Lasts}
use zero_mes.Socket.Lifetime.{run-Lasts}

new_client-Once :
    (t : ℕ) (base : Option String) (here : Location) (allowed : Bool)
    → Once t (new_client base here allowed)
unfolding new_client
new_client-Once t base here allowed = record {
  own = tt;
  guarded = omega arith;
  once = omega arith;
  fresh = λ h. omega arith;
}

new_client-Lasts :
    (t : ℕ) (base : Option String) (here : Location) (allowed : Bool)
    → Lasts t 0 (new_client base here allowed)
unfolding new_client
new_client-Lasts t base here allowed = record {
  total = omega arith;
  reconnect_free = tt;
  ping_free = tt;
  handlers_free = tt;
}

-- The promise that a call of waitForConnection gives, if it has to wait.
made-Lasts :
    (timeout t : ℕ) (r : Runtime)
    → Inv r
    → Once t r
    → Lasts t 0 r
    → (wait_for_connection timeout r).1 ≡ waiting t
    → Lasts t 1 (wait_for_connection timeout r).0
unfolding wait_for_connection begun add_timer
made-Lasts timeout t r i o v m =
    elim (Bool-cases (same_status r.status connected && is_connected r)) [
      | inl e ↦ let no : ⊥ = ground (arith, m, e) in absurd no
      | inr e ↦
          let same : (r.next_timer == t) ≡ true = ground (arith, m, e) in
          let w = begun-Lasts t 0 timeout r i o v in
          let (_, _, least) = waiters-add t (waiter r.next_timer) r.status_handlers in
          rw e (record {
            total = omega (arith, w.total, least, ap one same);
            reconnect_free = w.reconnect_free;
            ping_free = w.ping_free;
            handlers_free = w.handlers_free;
          })
    ]

-- A promise that waitForConnection gives, after any history of a new client, is never lost: after any further
-- history it waits, or it is about to resolve, or it has settled, exactly one of these and exactly once. Its
-- timeout runs only while it waits. The call had to wait: it was not resolved at once.
pub settles_once :
    (base : Option String) (here : Location) (allowed : Bool) (before after : List Event)
    (timeout t : ℕ)
    → (wait_for_connection timeout (run before (new_client base here allowed))).1 ≡ waiting t
    → let r =
        run after (wait_for_connection timeout (run before (new_client base here allowed))).0 in
      (waiters t r.status_handlers + dones t r.timers + settles t r.trace ≡ 1)
      × (timeouts t r.timers ≤ waiters t r.status_handlers)
settles_once base here allowed before after timeout t m =
    let fresh = new_client base here allowed in
    let first = run before fresh in
    let made = (wait_for_connection timeout first).0 in
    let i = run-Inv before fresh (new_client-Inv base here allowed) in
    let o = run-Once t before fresh (new_client-Once t base here allowed) in
    let v =
      run-Lasts t 0 before fresh (new_client-Inv base here allowed)
        (new_client-Once t base here allowed) (new_client-Lasts t base here allowed) in
    let j = wait_for_connection-Inv timeout first i in
    let p = wait_for_connection-Once t timeout first o in
    let w = run-Lasts t 1 after made j p (made-Lasts timeout t first i o v m) in
    let q = run-Once t after made p in (omega (arith, w.total), q.guarded)
