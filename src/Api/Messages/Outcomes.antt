-- ===== src/Api/Messages/Outcomes.antt =====
-- Every call of messages.ts settles; what its timeout leaves behind.
use zero_mes.Common.{
  ◌<◌, ℕ, zero, suc, ◌≡◌, refl, ap, ◌∙◌, true, false, not, none, some, List, [], ◌∷◌, map, ◌==◌,
  ◌&&◌, get_elem?, arith, ◌+◌, subst,
}
use zero_mes.Socket.State.{Runtime}
use zero_mes.Socket.Delivery.{contains, subscription}
use zero_mes.Api.Messages.{
  Call, Session, settle, at_handler, is_online_check, timeout, expire_call, unsubscribes, expire,
  Step, run_steps,
}
use zero_mes.Api.Messages.Numbering.{Live, Numbered, run-Ordered}

-- The call at a place, by its number.
Numbered-get_elem :
    (n : ℕ) (cs : List Call) (i : ℕ) (c : Call)
    → Numbered n cs
    → get_elem? cs i ≡ some c
    → (c.handler ≡ n + i) × Live c
Numbered-get_elem n [] i c w e = cc
Numbered-get_elem n (x ∷ cs) zero c (h, l, w) e =
    let same : x ≡ c = ground arith in
    (omega (arith, h, ap (λ y. y.handler) same), subst Live same l)
Numbered-get_elem n (x ∷ cs) (suc i) c (h, l, w) e =
    let (k, live) = Numbered-get_elem (suc n) cs i c w e in (omega (arith, k), live)

abbrev pub new_session : Runtime → Session
new_session r = record { socket = r; calls = []; next_handler = 0 }

-- The calls of a history, which starts with none.
reached :
    (r : Runtime) (es : List Step) (i : ℕ) (c : Call)
    → get_elem? (run_steps es (new_session r)).calls i ≡ some c
    → (c.handler ≡ i) × Live c
reached r es i c e =
    let w = run-Ordered es (new_session r) (record { numbered = tt; next = refl }) in
    let (h, l) = Numbered-get_elem 0 _ i c w.numbered e in (omega (arith, h), l)

get_elem?-at :
    (h : ℕ) (f : Call → Call) (cs : List Call) (i : ℕ) (c : Call)
    → get_elem? cs i ≡ some c
    → get_elem? (map (at_handler h f) cs) i ≡ some (at_handler h f c)
get_elem?-at h f [] i c e = cc
get_elem?-at h f (x ∷ cs) zero c e = ground arith
get_elem?-at h f (x ∷ cs) (suc i) c e = get_elem?-at h f cs i c e

expired : Call → Call
expired c = record c { timer = false; outcome = some (timeout c.request) }

expire_call-waits : (c : Call) → Live c → c.outcome ≡ none → expire_call c ≡ expired c
unfolding expire_call settle expired
expire_call-waits c l e = ground arith

-- Whatever has happened, a call that has not settled has a timeout that runs, and the timeout rejects it with
-- a timeout error: no call waits for ever.
pub expire-settles :
    (r : Runtime) (es : List Step) (i : ℕ) (c : Call)
    → let s = run_steps es (new_session r) in
      get_elem? s.calls i ≡ some c
      → c.outcome ≡ none
      → (c.timer ≡ true)
        × (get_elem? (expire i s).calls i
            ≡ some (record c { timer = false; outcome = some (timeout c.request) }))
unfolding expire expired
expire-settles r es i c at e =
    let (h, l) = reached r es i c at in
    (
      ground arith,
      get_elem?-at i expire_call (run_steps es (new_session r)).calls i c at
          ∙ ground (arith, expire_call-waits c l e),
    )

-- Only the call at a place has its number.
unsubscribes-below : (h n : ℕ) (cs : List Call) → h < n → Numbered n cs → unsubscribes h cs ≡ false
unsubscribes-below h n [] lt w = refl
unsubscribes-below h n (x ∷ cs) lt (e, l, w) =
    ground (arith, unsubscribes-below h (suc n) cs (omega (arith, lt)) w)

unsubscribes-get :
    (n k : ℕ) (cs : List Call) (i : ℕ) (c : Call)
    → Numbered n cs
    → get_elem? cs i ≡ some c
    → k ≡ n + i
    → unsubscribes k cs ≡ (c.timer && is_online_check c.request)
unsubscribes-get n k [] i c w e at = cc
unsubscribes-get n k (x ∷ cs) zero c (h, l, w) e at =
    ground (arith, unsubscribes-below k (suc n) cs (omega (arith, at)) w)
unsubscribes-get n k (x ∷ cs) (suc i) c (h, l, w) e at =
    ground (arith, unsubscribes-get (suc n) k cs i c w e (omega (arith, at)))

-- The timeout of a call unsubscribes its handler for checkOnlineStatus alone. Of any other call the handler
-- stays, and no handler of another call is touched.
pub expire-handlers :
    (r : Runtime) (es : List Step) (i k : ℕ) (c : Call)
    → let s = run_steps es (new_session r) in
      get_elem? s.calls i ≡ some c
      → c.outcome ≡ none
      → contains k (expire i s).socket.message_handlers
        ≡ (contains k s.socket.message_handlers && not (i == k && is_online_check c.request))
unfolding expire
expire-handlers r es i k c at e =
    let s = run_steps es (new_session r) in
    let w = run-Ordered es (new_session r) (record { numbered = tt; next = refl }) in
    let (_, l) = reached r es i c at in
    ground (
      arith,
      unsubscribes-get 0 i s.calls i c w.numbered at (omega arith),
      (subscription i k s.socket).1,
    )
