-- ===== src/Interface/Expiry.antt =====
-- The toasts go.
use zero_mes.Common.{
  ℕ, zero, suc, ◌+◌, ◌*◌, ◌≤◌, ◌≡◌, refl, ap, String, List, [], ◌∷◌, map, ltb, eq_refl, length,
  arith, All, if◌then◌else◌,
}
use zero_mes.Interface.{
  Toast, Toasts, duration, restarted, without_toast, remove_toasts, render, fire_toasts, run_timers,
}

-- Timers fire, turn by turn, with no new toast.
pub rounds : List ℕ → Toasts → Toasts
rounds [] s = s
rounds (more ∷ ms) s = rounds ms (run_timers more s)

length-without : (id : String) (ts : List Toast) → length (without_toast id ts) ≤ length ts
length-without id [] = omega arith
length-without id (t ∷ ts) = ground (arith, length-without id ts)

length-remove : (n : ℕ) (firing ts : List Toast) → length (remove_toasts n firing ts) ≤ length ts
length-remove zero firing ts = omega arith
length-remove (suc n) [] ts = omega arith
length-remove (suc n) (t ∷ firing) ts =
    let rest = length-remove n firing (without_toast t.id ts) in
    let one = length-without t.id ts in omega arith

length-restarted : (time : ℕ) (ts : List Toast) → length (map (restarted time) ts) ≡ length ts
length-restarted time [] = refl
length-restarted time (t ∷ ts) = ap suc (length-restarted time ts)

empty : (ts : List Toast) → length ts ≤ 0 → ts ≡ []
empty [] h = refl
empty (t ∷ ts) h = let no : ⊥ = omega arith in absurd no

-- All timers fire at the latest at this time.
abbrev pub IsDue : ℕ → List Toast → Type 0
IsDue time = All (λ t. t.deadline ≤ time)

restarted-IsDue :
    (time bound : ℕ) (ts : List Toast) → time ≤ bound → IsDue bound (map (restarted time) ts)
restarted-IsDue time bound [] h = tt
restarted-IsDue time bound (t ∷ ts) h = (h, restarted-IsDue time bound ts h)

-- One turn: a toast less, and the timers run for 5 s at most.
fire_toasts_lem :
    (more n bound : ℕ) (s : Toasts) (ts : List Toast)
    → length ts ≤ suc n
    → IsDue bound ts
    → s.now ≤ bound
    → s.toasts ≡ ts
    → (length (fire_toasts more s ts).toasts ≤ n)
      × IsDue (bound + duration) (fire_toasts more s ts).toasts
      × ((fire_toasts more s ts).now ≤ bound)
unfolding fire_toasts render
fire_toasts_lem more n bound s [] small due past e = (rw e (omega arith), rw e tt, past)
fire_toasts_lem more n bound s (t ∷ ts) small due past e =
    let left = remove_toasts more ts (without_toast t.id (t ∷ ts)) in
    let gone = length-remove more ts (without_toast t.id (t ∷ ts)) in
    let first : length (without_toast t.id (t ∷ ts)) ≤ length ts =
      ground (arith, eq_refl t.id, length-without t.id ts) in
    let time = if ltb s.now t.deadline then t.deadline else s.now in
    let early : time ≤ bound = ground (arith, due.0) in
    (
      omega (arith, length-restarted (time + duration) left),
      restarted-IsDue (time + duration) (bound + duration) left (omega arith),
      early,
    )

-- When no new toast is shown, every toast goes: after as many turns of firing timers as there are toasts none is left, whatever
-- other timers are due in a turn, and this takes at most 5 s for each toast from the time at which all timers would have fired.
pub rounds-run_timers :
    (ms : List ℕ) (bound : ℕ) (s : Toasts)
    → length s.toasts ≤ length ms
    → IsDue bound s.toasts
    → s.now ≤ bound
    → ((rounds ms s).toasts ≡ []) × ((rounds ms s).now ≤ bound + duration * length ms)
unfolding rounds run_timers
rounds-run_timers [] bound s small due past = (empty s.toasts small, omega arith)
rounds-run_timers (more ∷ ms) bound s small due past =
    let turn = fire_toasts_lem more (length ms) bound s s.toasts small due past refl in
    let rest =
      rounds-run_timers ms (bound + duration) (fire_toasts more s s.toasts) turn.0 turn.1
        (omega arith) in
    (rest.0, omega arith)
