-- ===== src/Api/Messages/Numbering.antt =====
-- The calls of messages.ts are numbered by their places, and a call that waits has a timeout that runs.
use zero_mes.Common.{
  ℕ, String, suc, ◌≡◌, refl, inl, inr, ap, sym, ◌∙◌, true, Option, none, some, List, [], ◌∷◌, ◌++◌,
  map, ◌==◌, ◌||◌, length, is_some, Bool-cases, arith, length-append, ◌+◌,
}
use zero_mes.Json.{Json}
use zero_mes.Socket.State.{Runtime}
use zero_mes.Socket.Client.{send, on_message}
use zero_mes.Socket.Events.{Event, deliver}
use zero_mes.Api.Messages.{
  Request, send_message, get_messages, mark_as_read, edit_message, delete_message,
  check_online_status, get_chats, save_chat_keys, Call, Session, settle, react, at_handler,
  call_handler, call_handlers, add_call, begin_online, begin_sent, sent_first, sent_online, begin,
  expire_call, expire, frame, dispatched, dispatch, begins, expires, occurs, Step, step, run_steps,
}

-- The numbers of the calls are their places, and a call that waits has a timeout that runs.
abbrev pub Live : Call → Type 0
Live c = (is_some c.outcome || c.timer) ≡ true

abbrev pub Numbered : ℕ → List Call → Type 0
Numbered n [] = Unit
Numbered n (c ∷ cs) = (c.handler ≡ n) × Live c × Numbered (suc n) cs

pub record Ordered (s : Session) : Type 0 where
  pub numbered : Numbered 0 s.calls
  pub next : s.next_handler ≡ length s.calls

-- A change of a call that keeps what the theorems need.
abbrev Keeps : (Call → Call) → Type 0
Keeps f = (c : Call) → ((f c).handler ≡ c.handler) × (Live c → Live (f c))

react-Keeps : (m : Json) → Keeps (react m)
unfolding react settle
react-Keeps m c = (ground arith, λ l. ground arith)

expire_call-Keeps : Keeps expire_call
unfolding expire_call settle
expire_call-Keeps c = (ground arith, λ l. ground arith)

map-Numbered :
    (h : ℕ) (f : Call → Call)
    → Keeps f
    → (n : ℕ) (cs : List Call) → Numbered n cs
    → Numbered n (map (at_handler h f) cs)
map-Numbered h f k n [] w = tt
map-Numbered h f k n (c ∷ cs) (e, l, w) =
    let (same, live) = k c in
    elim (Bool-cases (c.handler == h)) [
      | inl t ↦ rw t (same ∙ e, live l, map-Numbered h f k (suc n) cs w)
      | inr t ↦ rw t (e, l, map-Numbered h f k (suc n) cs w)
    ]

-- A call that begins comes last.
abbrev pub Adds : Request → Session → Session → Type 0
Adds q s s' =
    (c : Call) × (s'.calls ≡ s.calls ++ c ∷ [])
    × (c.handler ≡ s.next_handler)
    × (c.request ≡ q)
    × Live c
    × (s'.next_handler ≡ suc s.next_handler)

add_call-Adds :
    (c : Call) (r : Runtime) (s : Session)
    → c.handler ≡ s.next_handler
    → Live c
    → Adds c.request s (add_call c r s)
add_call-Adds c r s e l = (c, refl, e, refl, l, refl)

sent_first-Adds : (q : Request) (o : Option Runtime) (s : Session) → Adds q s (sent_first q o s)
sent_first-Adds q none s = add_call-Adds _ s.socket s refl refl
sent_first-Adds q (some r) s = add_call-Adds _ (on_message s.next_handler r) s refl refl

sent_online-Adds :
    (q : Request) (heard : Runtime) (o : Option Runtime) (s : Session)
    → Adds q s (sent_online q heard o s)
sent_online-Adds q heard none s = add_call-Adds _ heard s refl refl
sent_online-Adds q heard (some r) s = add_call-Adds _ r s refl refl

begin_sent-Adds : (q : Request) (s : Session) → Adds q s (begin_sent q s)
begin_sent-Adds q s = sent_first-Adds q (send (frame q) s.socket) s

begin_online-Adds : (u : String) (s : Session) → Adds (check_online_status u) s (begin_online u s)
begin_online-Adds u s =
    let heard = on_message s.next_handler s.socket in
    sent_online-Adds (check_online_status u) heard (send (frame (check_online_status u)) heard) s

pub begin-Adds : (q : Request) (s : Session) → Adds q s (begin q s)
unfolding begin
begin-Adds (send_message d) s = begin_sent-Adds (send_message d) s
begin-Adds (get_messages p) s = begin_sent-Adds (get_messages p) s
begin-Adds (mark_as_read c l) s = begin_sent-Adds (mark_as_read c l) s
begin-Adds (edit_message i t) s = begin_sent-Adds (edit_message i t) s
begin-Adds (delete_message i) s = begin_sent-Adds (delete_message i) s
begin-Adds (check_online_status u) s = begin_online-Adds u s
begin-Adds get_chats s = begin_sent-Adds get_chats s
begin-Adds (save_chat_keys d) s = begin_sent-Adds (save_chat_keys d) s

append-Numbered :
    (n : ℕ) (cs : List Call) (c : Call)
    → Numbered n cs
    → c.handler ≡ n + length cs
    → Live c
    → Numbered n (cs ++ c ∷ [])
append-Numbered n [] c w e l = (omega arith, l, tt)
append-Numbered n (x ∷ cs) c (h, k, w) e l = (h, k, append-Numbered (suc n) cs c w (omega arith) l)

begin-Ordered : (q : Request) (s : Session) → Ordered s → Ordered (begin q s)
begin-Ordered q s w =
    let (c, calls, handler, _, live, next) = begin-Adds q s in
    record {
      numbered =
          rw calls (append-Numbered 0 s.calls c w.numbered (omega (arith, handler, w.next)) live);
      next = rw (next, calls) (omega (arith, w.next, length-append s.calls (c ∷ [])));
    }

length-at_handler :
    (h : ℕ) (f : Call → Call) (cs : List Call) → length (map (at_handler h f) cs) ≡ length cs
length-at_handler h f [] = refl
length-at_handler h f (c ∷ cs) = ap suc (length-at_handler h f cs)

expire-Ordered : (h : ℕ) (s : Session) → Ordered s → Ordered (expire h s)
unfolding expire
expire-Ordered h s w = record {
  numbered = map-Numbered h expire_call expire_call-Keeps 0 s.calls w.numbered;
  next = w.next ∙ sym (length-at_handler h expire_call s.calls);
}

call_handlers-Ordered :
    (m : Json) (hs : List ℕ) (s : Session) → Ordered s → Ordered (call_handlers m hs s)
unfolding call_handlers call_handler
call_handlers-Ordered m [] s w = w
call_handlers-Ordered m (h ∷ hs) s w = call_handlers-Ordered m hs (call_handler m h s) (record {
  numbered = map-Numbered h (react m) (react-Keeps m) 0 s.calls w.numbered;
  next = w.next ∙ sym (length-at_handler h (react m) s.calls);
})

moved : Event → Session → Session
moved e s = record s { socket = deliver e s.socket }

moved-Ordered : (e : Event) (s : Session) → Ordered s → Ordered (moved e s)
unfolding moved
moved-Ordered e s w = record { numbered = w.numbered; next = w.next }

dispatch-Ordered :
    (o : Option Json) (hs : List ℕ) (s : Session) → Ordered s → Ordered (dispatch o hs s)
dispatch-Ordered none hs s w = w
dispatch-Ordered (some m) hs s w = call_handlers-Ordered m hs s w

step-Ordered : (e : Step) (s : Session) → Ordered s → Ordered (step e s)
unfolding step moved
step-Ordered (begins q) s w = begin-Ordered q s w
step-Ordered (expires h) s w = expire-Ordered h s w
step-Ordered (occurs e) s w =
    dispatch-Ordered (dispatched e s.socket) s.socket.message_handlers (moved e s)
      (moved-Ordered e s w)

pub run-Ordered : (es : List Step) (s : Session) → Ordered s → Ordered (run_steps es s)
unfolding run_steps
run-Ordered [] s w = w
run-Ordered (e ∷ es) s w = run-Ordered es (step e s) (step-Ordered e s w)
