-- ===== src/Socket/Free.antt =====
-- The numbers of timers that websocket.ts may clear: none is the number of a timer that is about to resolve a
-- promise of waitForConnection.
use zero_mes.Common.{
  ℕ, ◌<◌, ◌≤◌, ◌≡◌, refl, true, false, not, Option, none, some, List, [], ◌∷◌, select, All,
  All-select, ◌==◌, arith, Bool-cases, inl, inr,
}
use zero_mes.Socket.State.{
  StatusHandler, listener, waiter, Task, Timer, Runtime, add_timer, clear_timer,
}
use zero_mes.Socket.Client.{delete_status_handler, add_status_handler}
use zero_mes.Socket.Timers.{Falls}
use zero_mes.Socket.Waits.{is_done, dones}

module _ (t : ℕ) where
  abbrev pub Away : ℕ → List Timer → Type 0
  Away i [] = Unit
  Away i (x ∷ xs) = (is_done t x.task ≡ true → (x.id == i) ≡ false) × Away i xs

  abbrev pub Free : Runtime → ℕ → Type 0
  Free r i = (i < r.next_timer) × Away i r.timers

  abbrev pub FreeName : Runtime → Option ℕ → Type 0
  FreeName r none = Unit
  FreeName r (some i) = Free r i

  abbrev pub FreeHandler : Runtime → StatusHandler → Type 0
  FreeHandler r (listener h) = Unit
  FreeHandler r (waiter u) = Free r u

  -- What is free in the one is free in the other.
  abbrev pub Frees : Runtime → Runtime → Type 0
  Frees r q = (i : ℕ) → Free r i → Free q i

  pub FreeName-Frees : (r q : Runtime) (o : Option ℕ) → Frees r q → FreeName r o → FreeName q o
  FreeName-Frees r q none k h = tt
  FreeName-Frees r q (some i) k h = k i h

  pub FreeHandler-Frees :
      (r q : Runtime) (hs : List StatusHandler)
      → Frees r q
      → All (FreeHandler r) hs
      → All (FreeHandler q) hs
  FreeHandler-Frees r q [] k h = tt
  FreeHandler-Frees r q (listener l ∷ hs) k h = (tt, FreeHandler-Frees r q hs k h.1)
  FreeHandler-Frees r q (waiter u ∷ hs) k h = (k u h.0, FreeHandler-Frees r q hs k h.1)

  Away-select : (i j : ℕ) (xs : List Timer) → Away i xs → Away i (select (λ x. not (x.id == j)) xs)
  Away-select i j [] a = tt
  Away-select i j (x ∷ xs) a = elim (Bool-cases (x.id == j)) [
    | inl e ↦ rw e (Away-select i j xs a.1)
    | inr e ↦ rw e (a.0, Away-select i j xs a.1)
  ]

  pub clear_timer-Frees : (j : ℕ) (r : Runtime) → Frees r (clear_timer j r)
  unfolding clear_timer
  clear_timer-Frees j r i h = (h.0, Away-select i j r.timers h.1)

  pub add_timer-Frees : (task : Task) (d : ℕ) (r : Runtime) → Frees r (add_timer task d r)
  unfolding add_timer
  add_timer-Frees task d r i h = (omega (arith, h.0), ((λ e. ground (arith, h.0)), h.1))

  -- To clear a free number leaves all that are about to resolve.
  pub dones-select-Away :
      (i : ℕ) (xs : List Timer)
      → Away i xs
      → dones t (select (λ x. not (x.id == i)) xs) ≡ dones t xs
  dones-select-Away i [] a = refl
  dones-select-Away i (x ∷ xs) a = ground (arith, dones-select-Away i xs a.1)

  pub dones-clear :
      (i : ℕ) (r : Runtime) → Free r i → dones t (clear_timer i r).timers ≡ dones t r.timers
  unfolding clear_timer
  dones-clear i r h = dones-select-Away i r.timers h.1

  -- A number that is not drawn yet.
  pub Away-next : (n m : ℕ) (xs : List Timer) → n ≤ m → Falls n xs → Away m xs
  Away-next n m [] le f = tt
  Away-next n m (x ∷ xs) le f =
      ((λ e. ground (arith, f.0, le)), Away-next x.id m xs (omega (arith, f.0, le)) f.1)

  pub FreeHandler-delete :
      (r : Runtime) (h : StatusHandler) (hs : List StatusHandler)
      → All (FreeHandler r) hs
      → All (FreeHandler r) (delete_status_handler h hs)
  unfolding delete_status_handler
  FreeHandler-delete r h hs a = All-select (FreeHandler r) _ hs a

  pub FreeHandler-add :
      (r : Runtime) (h : StatusHandler) (hs : List StatusHandler)
      → FreeHandler r h
      → All (FreeHandler r) hs
      → All (FreeHandler r) (add_status_handler h hs)
  unfolding add_status_handler
  FreeHandler-add r h [] f a = (f, tt)
  FreeHandler-add r h (x ∷ hs) f a = ground (arith, FreeHandler-add r h hs f a.1)

  pub add_timer-Free :
      (task : Task) (d : ℕ) (r : Runtime)
      → Falls r.next_timer r.timers
      → is_done t task ≡ false
      → Free (add_timer task d r) r.next_timer
  unfolding add_timer
  add_timer-Free task d r f e = (
    omega arith,
    ((λ y. ground (arith, e, y)), Away-next r.next_timer r.next_timer r.timers (omega arith) f),
  )
