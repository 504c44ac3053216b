-- ===== src/Api/Messages/Answers.antt =====
-- How the frames that come in settle the calls of messages.ts.
use zero_mes.Common.{
  ℕ, zero, suc, ◌≡◌, refl, ap, ◌∙◌, String, Bool, true, false, not, none, some, List, [], ◌∷◌, map,
  ◌&&◌, ◌||◌, get_elem?, is_some, arith, if◌then◌else◌, non_empty,
}
use zero_mes.Json.{
  Json, Value, str, obj, field, end, member, get_field, optional_member, or_default, truthy,
  is_text,
}
use zero_mes.Socket.Events.{Event, deliver}
use zero_mes.Socket.Delivery.{contains, subscription}
use zero_mes.Api.Messages.Frames.{
  Outcome, rejected, payload, has_type, payload_error, settle_on, no_messages, on_message_sent,
  on_messages, on_marked_as_read, on_message_deleted, on_message_altered, on_chats,
  on_chat_keys_saved, on_online_status,
}
use zero_mes.Api.Messages.{
  Request, send_message, get_messages, mark_as_read, edit_message, delete_message,
  check_online_status, get_chats, save_chat_keys, answer, Call, Session, settle, react, at_handler,
  answers, call_handler, call_handlers, dispatched, occurs, step,
}

-- The type of the frame that answers a request, and whether error frames are read.
abbrev pub reply_type : Request → String
reply_type (send_message _) = "message_sent"
reply_type (get_messages _) = "messages"
reply_type (mark_as_read _ _) = "marked_as_read"
reply_type (edit_message _ _) = "message_altered"
reply_type (delete_message _) = "message_deleted"
reply_type (check_online_status _) = "online_status"
reply_type get_chats = "chats"
reply_type (save_chat_keys _) = "chat_keys_saved"

abbrev pub reads_errors : Request → Bool
reads_errors (check_online_status _) = false
reads_errors get_chats = false
reads_errors _ = true

abbrev pub is_about : Request → Json → Bool
is_about (check_online_status user_id) m = is_text (optional_member "user_id" (payload m)) user_id
is_about _ m = true

settle_on-some :
    (done : String) (value : Json → Value) (fallback : String) (m : Json)
    → is_some (settle_on done value fallback m) ≡ (has_type done m || has_type "error" m)
unfolding settle_on
settle_on-some done value fallback m = ground arith

-- A call settles on a frame of its reply type, which for checkOnlineStatus has to be about its user, and on
-- any error frame, unless it is getChats or checkOnlineStatus; it settles on no other frame.
pub answer_iff :
    (q : Request) (m : Json)
    → is_some (answer q m)
      ≡ ((has_type (reply_type q) m && is_about q m) || (reads_errors q && has_type "error" m))
unfolding answer on_message_sent on_messages on_marked_as_read on_message_deleted on_message_altered
    on_chats on_chat_keys_saved on_online_status
answer_iff (send_message d) m =
    ground (arith, settle_on-some "message_sent" payload "Failed to send message" m)
answer_iff (get_messages p) m = ground (
  arith,
  settle_on-some "messages" (λ m. some (or_default (payload m) no_messages))
      "Failed to get messages" m,
)
answer_iff (mark_as_read c l) m =
    ground (arith, settle_on-some "marked_as_read" (λ m. none) "Failed to mark as read" m)
answer_iff (edit_message i t) m =
    ground (arith, settle_on-some "message_altered" (λ m. none) "Failed to edit message" m)
answer_iff (delete_message i) m =
    ground (arith, settle_on-some "message_deleted" (λ m. none) "Failed to delete message" m)
answer_iff (check_online_status u) m = ground arith
answer_iff get_chats m = ground arith
answer_iff (save_chat_keys d) m = ground arith

react-react : (m : Json) (c : Call) → react m (react m c) ≡ react m c
unfolding react settle
react-react m c = ground arith

-- A frame changes a call that is subscribed as its handler says, and no other.
abbrev pub heard : Json → List ℕ → Call → Call
heard m hs c = if contains c.handler hs then react m c else c

handler-react : (m : Json) (c : Call) → (react m c).handler ≡ c.handler
unfolding react settle
handler-react m c = ground arith

request-react : (m : Json) (c : Call) → (react m c).request ≡ c.request
unfolding react settle
request-react m c = ground arith

heard-cons :
    (m : Json) (h : ℕ) (hs : List ℕ) (c : Call)
    → heard m hs (at_handler h (react m) c) ≡ heard m (h ∷ hs) c
heard-cons m h hs c = ground (arith, react-react m c, handler-react m c)

map-heard :
    (m : Json) (h : ℕ) (hs : List ℕ) (cs : List Call)
    → map (heard m hs) (map (at_handler h (react m)) cs) ≡ map (heard m (h ∷ hs)) cs
map-heard m h hs [] = refl
map-heard m h hs (c ∷ cs) = λ i. heard-cons m h hs c i ∷ map-heard m h hs cs i

map-unheard : (m : Json) (cs : List Call) → cs ≡ map (heard m []) cs
map-unheard m [] = refl
map-unheard m (c ∷ cs) = ap (◌∷◌ c) (map-unheard m cs)

call_handlers-heard :
    (m : Json) (hs : List ℕ) (s : Session) → (call_handlers m hs s).calls ≡ map (heard m hs) s.calls
unfolding call_handlers call_handler
call_handlers-heard m [] s = map-unheard m s.calls
call_handlers-heard m (h ∷ hs) s =
    call_handlers-heard m hs (call_handler m h s) ∙ map-heard m h hs s.calls

answers-react :
    (m : Json) (k h : ℕ) (cs : List Call)
    → answers m h (map (at_handler k (react m)) cs) ≡ answers m h cs
answers-react m k h [] = refl
answers-react m k h (c ∷ cs) =
    ground (arith, answers-react m k h cs, handler-react m c, request-react m c)

contains-answered :
    (m : Json) (k : ℕ) (hs : List ℕ) (s : Session)
    → contains k (call_handlers m hs s).socket.message_handlers
      ≡ (contains k s.socket.message_handlers && not (contains k hs && answers m k s.calls))
unfolding call_handlers call_handler
contains-answered m k [] s = ground arith
contains-answered m k (h ∷ hs) s = ground (
  arith,
  contains-answered m k hs (call_handler m h s),
  answers-react m h k s.calls,
  (subscription h k s.socket).1,
)

answers-get :
    (m : Json) (cs : List Call) (i : ℕ) (c : Call) (o : Outcome)
    → get_elem? cs i ≡ some c
    → answer c.request m ≡ some o
    → answers m c.handler cs ≡ true
answers-get m [] i c o e a = cc
answers-get m (x ∷ cs) zero c o e a = ground arith
answers-get m (x ∷ cs) (suc i) c o e a = ground (arith, answers-get m cs i c o e a)

get_elem?-map :
    {A B : Type 0} (f : A → B) (xs : List A) (i : ℕ) (x : A)
    → get_elem? xs i ≡ some x
    → get_elem? (map f xs) i ≡ some (f x)
get_elem?-map f [] i x e = cc
get_elem?-map f (y ∷ xs) zero x e = ground arith
get_elem?-map f (y ∷ xs) (suc i) x e = get_elem?-map f xs i x e

react-answer :
    (m : Json) (c : Call) (o : Outcome)
    → answer c.request m ≡ some o
    → c.outcome ≡ none
    → react m c ≡ record c { timer = false; outcome = some o }
unfolding react settle
react-answer m c o a e = ground arith

heard-settles :
    (m : Json) (hs : List ℕ) (c : Call) (o : Outcome)
    → contains c.handler hs ≡ true
    → c.outcome ≡ none
    → answer c.request m ≡ some o
    → heard m hs c ≡ record c { timer = false; outcome = some o }
heard-settles m hs c o subscribed waits a = rw subscribed (react-answer m c o a waits)

step-dispatched :
    (e : Event) (m : Json) (s : Session)
    → dispatched e s.socket ≡ some m
    → step (occurs e) s
      ≡ call_handlers m s.socket.message_handlers (record s { socket = deliver e s.socket })
unfolding step
step-dispatched e m s d = ground arith

-- A frame that the handler of a waiting call accepts settles that call with its answer, stops its timeout and
-- unsubscribes it: so every call that accepts it, not only the one it was sent for.
pub step-settles :
    (e : Event) (m : Json) (s : Session) (i : ℕ) (c : Call) (o : Outcome)
    → dispatched e s.socket ≡ some m
    → get_elem? s.calls i ≡ some c
    → contains c.handler s.socket.message_handlers ≡ true
    → c.outcome ≡ none
    → answer c.request m ≡ some o
    → (get_elem? (step (occurs e) s).calls i ≡ some (record c { timer = false; outcome = some o }))
      × (contains c.handler (step (occurs e) s).socket.message_handlers ≡ false)
step-settles e m s i c o d at subscribed waits a =
    let hs = s.socket.message_handlers in
    let moved = record s { socket = deliver e s.socket } in
    rw (step-dispatched e m s d) (
      ap (λ cs. get_elem? cs i) (call_handlers-heard m hs moved)
          ∙ get_elem?-map (heard m hs) s.calls i c at
          ∙ ap some (heard-settles m hs c o subscribed waits a),
      contains-answered m c.handler hs moved ∙ ground (arith, answers-get m s.calls i c o at a),
    )

-- What the server sends on an error: the text is in the payload.
abbrev pub error_frame : String → Json
error_frame text =
    obj (field "type" (str "error") (field "payload" (obj (field "error" (str text) end)) end))

abbrev pub is_save : Request → Bool
is_save (save_chat_keys _) = true
is_save _ = false

-- An error of the server rejects every call that reads errors; with the server's text, except that
-- saveChatKeys loses it and says "Failed to save chat keys".
pub answer-error_frame :
    (q : Request) (text : String)
    → reads_errors q ≡ true
    → non_empty text ≡ true
    → answer q (error_frame text)
      ≡ some (rejected (if is_save q then str "Failed to save chat keys" else str text))
unfolding answer on_message_sent on_messages on_marked_as_read on_message_deleted on_message_altered
    on_chats on_chat_keys_saved on_online_status settle_on has_type payload_error member get_field
    is_text or_default optional_member truthy
answer-error_frame (send_message d) text r e = ground arith
answer-error_frame (get_messages p) text r e = ground arith
answer-error_frame (mark_as_read c l) text r e = ground arith
answer-error_frame (edit_message i t) text r e = ground arith
answer-error_frame (delete_message i) text r e = ground arith
answer-error_frame (check_online_status u) text r e = ground arith
answer-error_frame get_chats text r e = ground arith
answer-error_frame (save_chat_keys d) text r e = ground arith
