-- ===== src/Socket/Firing.antt =====
-- A timer of websocket.ts that fires: a wait that times out, and one that is about to resolve.
use zero_mes.Common.{
  ℕ, ◌+◌, ◌≤◌, ◌≡◌, ap, sym, subst, ◌∙◌, not, some, List, [], ◌∷◌, select, All, ◌==◌, arith,
  if◌then◌else◌, Option-cases, Bool-cases, inl, inr,
}
use zero_mes.Socket.State.{
  waiter, Task, reconnect, ping, wait_timeout, wait_done, Timer, Runtime, clear_timer,
}
use zero_mes.Socket.Client.{delete_status_handler, send}
use zero_mes.Socket.Events.{fire, fire_timer, find_timer, ping_message}
use zero_mes.Socket.Waits.{
  one, is_timeout, is_done, waiters, timeouts, dones, Own, Once, clear_timer-Once, timeouts-clear,
  waiters-delete, dones-select,
}
use zero_mes.Socket.Settling.{connect-Once, send-Once}
use zero_mes.Socket.Events.{repeats}

module _ (t : ℕ) where
  -- A timer that is found is counted, and its clearing takes it off.
  dones-find :
      (k : ℕ) (xs : List Timer) (x : Timer)
      → find_timer k xs ≡ some x
      → (x.id ≡ k)
        × (dones t (select (λ y. not (y.id == k)) xs) + one (is_done t x.task) ≤ dones t xs)
  unfolding find_timer
  dones-find k [] x e = cc
  dones-find k (y ∷ xs) x e = elim (Bool-cases (y.id == k)) [
    | inl h ↦
        let same : y ≡ x = ground arith in
        let less = dones-select t (λ z. not (z.id == k)) xs in
        ground (arith, less, ap (λ z. one (is_done t z.task)) same)
    | inr h ↦ ground (arith, dones-find k xs x)
  ]

  pub timeouts-find :
      (k : ℕ) (xs : List Timer) (x : Timer)
      → find_timer k xs ≡ some x
      → one (is_timeout t x.task) ≤ timeouts t xs
  unfolding find_timer
  timeouts-find k [] x e = cc
  timeouts-find k (y ∷ xs) x e = ground (arith, timeouts-find k xs x)

  find-Own :
      (k : ℕ) (xs : List Timer) (x : Timer) → All (Own t) xs → find_timer k xs ≡ some x → Own t x
  unfolding find_timer
  find-Own k [] x h e = cc
  find-Own k (y ∷ xs) x h e = ground (arith, find-Own k xs x h.1)

  -- The timer that fires: a wait that times out, and one that is about to resolve.
  fire-timeout :
      (u : ℕ) (x : Timer) (r : Runtime)
      → Once t r
      → x.task ≡ wait_timeout u
      → Own t x
      → one (is_timeout t x.task) ≤ timeouts t r.timers
      → Once t (fire (wait_timeout u) (clear_timer x.id r))
  unfolding fire clear_timer
  fire-timeout u x r v task own found =
      let w = clear_timer-Once t x.id r v in
      let gone = waiters-delete t u r.status_handlers in
      let done = dones-select t (λ z. not (z.id == x.id)) r.timers in
      let counted : one (u == t) ≤ timeouts t r.timers =
        subst (λ y. one (is_timeout t y) ≤ timeouts t r.timers) task found in
      elim (Bool-cases (u == t)) [
        | inl e ↦
            let one_u : one (u == t) ≡ 1 = ap one e in
            let id : x.id ≡ t = own (ap (is_timeout t) task ∙ e) in
            let none_left = timeouts-clear t x.id r.timers (ground arith) v.own in
            let zero_left : waiters t (delete_status_handler (waiter u) r.status_handlers) ≡ 0 =
              ground (arith, gone) in
            record {
              own = w.own;
              guarded = omega (arith, none_left);
              once = omega (arith, v.once, v.guarded, counted, one_u, zero_left, done);
              fresh = λ h. omega (arith, v.fresh h, v.guarded, counted, one_u);
            }
        | inr e ↦
            let one_u : one (u == t) ≡ 0 = ap one e in
            let same : waiters t (delete_status_handler (waiter u) r.status_handlers)
                ≡ waiters t r.status_handlers =
              ground (arith, gone) in
            record {
              own = w.own;
              guarded = omega (arith, w.guarded, same);
              once = omega (arith, w.once, same, one_u);
              fresh = λ h. omega (arith, w.fresh h, same, one_u);
            }
      ]

  fire-done :
      (u : ℕ) (x : Timer) (r : Runtime)
      → Once t r
      → x.task ≡ wait_done u
      → dones t (select (λ y. not (y.id == x.id)) r.timers) + one (is_done t x.task)
        ≤ dones t r.timers
      → Once t (fire (wait_done u) (clear_timer x.id r))
  unfolding fire clear_timer
  fire-done u x r v task found =
      let w = clear_timer-Once t x.id r v in
      let counted =
        subst
          (λ y.
            dones t (select (λ y. not (y.id == x.id)) r.timers) + one (is_done t y)
            ≤ dones t r.timers)
          task found in
      record {
        own = w.own;
        guarded = w.guarded;
        once = omega (arith, v.once, counted);
        fresh = λ h. omega (arith, v.fresh h, counted);
      }

  again :
      (task : Task) (x : Timer) (r : Runtime)
      → x.task ≡ task
      → Once t (fire task (if repeats task then r else clear_timer x.id r))
      → Once t (fire_timer x r)
  unfolding fire_timer
  again task x r e v =
      subst (λ k. Once t (fire k (if repeats k then r else clear_timer x.id r))) (sym e) v

  ping-Once : (r : Runtime) → Once t r → Once t (fire ping r)
  unfolding fire
  ping-Once r v = elim (Option-cases (send ping_message r)) [
    | inl e ↦ rw e (ground arith)
    | inr (q, e) ↦ rw e (ground (arith, send-Once t ping_message r q v e))
  ]

  pub fire-Once :
      (task : Task) (k : ℕ) (x : Timer) (r : Runtime)
      → x.task ≡ task
      → find_timer k r.timers ≡ some x
      → Once t r
      → Once t (fire_timer x r)
  unfolding fire
  fire-Once reconnect k x r e f v =
      again reconnect x r e (connect-Once t (clear_timer x.id r) (clear_timer-Once t x.id r v))
  fire-Once ping k x r e f v = again ping x r e (ping-Once r v)
  fire-Once (wait_timeout u) k x r e f v =
      again (wait_timeout u) x r e
        (fire-timeout u x r v e (find-Own k r.timers x v.own f) (timeouts-find k r.timers x f))
  fire-Once (wait_done u) k x r e f v =
      let (id, fewer) = dones-find k r.timers x f in
      again (wait_done u) x r e (
        fire-done u x r v e (
          subst
            (λ j.
              dones t (select (λ y. not (y.id == j)) r.timers) + one (is_done t x.task)
              ≤ dones t r.timers)
            (sym id) fewer))
