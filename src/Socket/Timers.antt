-- ===== src/Socket/Timers.antt =====
-- The running timers of the client: which of them the fields `reconnectTimer` and `pingInterval` own.
use zero_mes.Common.{
  ℕ, suc, ◌≤◌, ◌<◌, ◌≡◌, refl, Option, none, some, List, [], ◌∷◌, not, ◌==◌, select, All, arith,
}
use zero_mes.Socket.State.{reconnect, ping, Timer}

-- The numbers of the timers fall along the list, from a bound on.
abbrev pub Falls : ℕ → List Timer → Type 0
Falls n [] = Unit {0}
Falls n (t ∷ ts) = (t.id < n) × Falls t.id ts

pub Falls-mono : (m n : ℕ) (ts : List Timer) → m ≤ n → Falls m ts → Falls n ts
Falls-mono m n [] h f = tt
Falls-mono m n (t ∷ ts) h f = (omega arith, f.1)

pub Falls-select :
    (i n : ℕ) (ts : List Timer) → Falls n ts → Falls n (select (λ t. not (t.id == i)) ts)
Falls-select i n [] f = tt
Falls-select i n (t ∷ ts) f =
    ground (arith, Falls-select i t.id ts f.1, Falls-mono t.id n (select (λ u. not (u.id == i)) ts))

-- A reconnect timer is the one that `reconnectTimer` names, with a delay between 1 and 16 seconds; a
-- ping interval is the one that `pingInterval` names.
abbrev pub Owned : Option ℕ → Option ℕ → Timer → Type 0
Owned rt pi t =
    (t.task ≡ reconnect → (rt ≡ some t.id) × (1000 ≤ t.delay) × (t.delay ≤ 16000))
    × (t.task ≡ ping → pi ≡ some t.id)

module _ (pi : Option ℕ) where
  -- With its timer cleared, no reconnect timer is left, so any name for one will do.
  pub Owned-cleared_reconnect :
      (i : ℕ) (rt : Option ℕ) (ts : List Timer)
      → All (Owned (some i) pi) ts
      → All (Owned rt pi) (select (λ t. not (t.id == i)) ts)
  Owned-cleared_reconnect i rt [] h = tt
  Owned-cleared_reconnect i rt (t ∷ ts) h = ground (arith, Owned-cleared_reconnect i rt ts h.1)

  pub Owned-no_reconnect :
      (rt : Option ℕ) (ts : List Timer) → All (Owned none pi) ts → All (Owned rt pi) ts
  Owned-no_reconnect rt [] h = tt
  Owned-no_reconnect rt (t ∷ ts) h = ground (arith, Owned-no_reconnect rt ts h.1)

module _ (rt : Option ℕ) where
  pub Owned-cleared_ping :
      (i : ℕ) (pi : Option ℕ) (ts : List Timer)
      → All (Owned rt (some i)) ts
      → All (Owned rt pi) (select (λ t. not (t.id == i)) ts)
  Owned-cleared_ping i pi [] h = tt
  Owned-cleared_ping i pi (t ∷ ts) h = ground (arith, Owned-cleared_ping i pi ts h.1)

  pub Owned-no_ping :
      (pi : Option ℕ) (ts : List Timer) → All (Owned rt none) ts → All (Owned rt pi) ts
  Owned-no_ping pi [] h = tt
  Owned-no_ping pi (t ∷ ts) h = ground (arith, Owned-no_ping pi ts h.1)

-- How many timers of a list reconnect, and how many ping.
abbrev pub reconnects : List Timer → ℕ
reconnects [] = 0
reconnects (t ∷ ts) = elim t.task [ reconnect ↦ suc (reconnects ts) | _ ↦ reconnects ts ]

abbrev pub pings : List Timer → ℕ
pings [] = 0
pings (t ∷ ts) = elim t.task [ ping ↦ suc (pings ts) | _ ↦ pings ts ]

module _ (pi : Option ℕ) where
  pub reconnects-none : (ts : List Timer) → All (Owned none pi) ts → reconnects ts ≡ 0
  reconnects-none [] h = refl
  reconnects-none (t ∷ ts) h = ground (arith, reconnects-none ts h.1)

  reconnects_below :
      (i k : ℕ) (ts : List Timer)
      → k ≤ i
      → Falls k ts
      → All (Owned (some i) pi) ts
      → reconnects ts ≡ 0
  reconnects_below i k [] le f h = refl
  reconnects_below i k (t ∷ ts) le f h =
      ground (arith, reconnects_below i t.id ts (omega arith) f.1 h.1)

  pub reconnects_le_one :
      (rt : Option ℕ) (n : ℕ) (ts : List Timer)
      → Falls n ts
      → All (Owned rt pi) ts
      → reconnects ts ≤ 1
  reconnects_le_one rt n [] f h = omega arith
  reconnects_le_one none n (t ∷ ts) f h = ground (arith, reconnects-none (t ∷ ts) h)
  reconnects_le_one (some i) n (t ∷ ts) f h =
      ground (arith, reconnects_le_one (some i) t.id ts f.1 h.1, reconnects_below i t.id ts)

module _ (rt : Option ℕ) where
  pub pings-none : (ts : List Timer) → All (Owned rt none) ts → pings ts ≡ 0
  pings-none [] h = refl
  pings-none (t ∷ ts) h = ground (arith, pings-none ts h.1)

  pings_below :
      (i k : ℕ) (ts : List Timer) → k ≤ i → Falls k ts → All (Owned rt (some i)) ts → pings ts ≡ 0
  pings_below i k [] le f h = refl
  pings_below i k (t ∷ ts) le f h = ground (arith, pings_below i t.id ts (omega arith) f.1 h.1)

  pub pings_le_one :
      (pi : Option ℕ) (n : ℕ) (ts : List Timer) → Falls n ts → All (Owned rt pi) ts → pings ts ≤ 1
  pings_le_one pi n [] f h = omega arith
  pings_le_one none n (t ∷ ts) f h = ground (arith, pings-none (t ∷ ts) h)
  pings_le_one (some i) n (t ∷ ts) f h =
      ground (arith, pings_le_one (some i) t.id ts f.1 h.1, pings_below i t.id ts)
