-- ===== src/Api/Messages.antt =====
-- The calls of src/frontend/src/lib/api/messages.ts over the WebSocket, from the moment at which
-- `waitForConnection` has resolved. Many run at once over one client, and its handlers tell them apart.
pub mod Frames
pub mod Answers
pub mod Numbering
pub mod Outcomes
pub mod Begin
mod Tests
use zero_mes.Common.{
  ℕ, suc, String, Bool, true, false, not, Option, none, some, List, [], ◌∷◌, ◌++◌, map, ◌==◌, ◌&&◌,
  ◌||◌, get_elem?, is_some, if◌then◌else◌,
}
use zero_mes.Json.{Json, str, member, is_text}
use zero_mes.Socket.State.{Runtime, is_opened}
use zero_mes.Socket.Client.{send, on_message, off_message}
use zero_mes.Socket.Events.{Event, receives, deliver}
use zero_mes.Api.Types.{SendMessageRequest, GetMessagesRequest, SaveChatKeysRequest}
use zero_mes.Api.Messages.Frames.{
  Outcome, rejected, send_message_frame, get_messages_frame, mark_as_read_frame,
  delete_message_frame, edit_message_frame, get_chats_frame, save_chat_keys_frame,
  check_online_status_frame, on_message_sent, on_messages, on_marked_as_read, on_message_deleted,
  on_message_altered, on_chats, on_chat_keys_saved, on_online_status,
}

pub data Request : Type 0 where
  send_message : SendMessageRequest → Request
  get_messages : GetMessagesRequest → Request
  mark_as_read edit_message : String → String → Request
  delete_message check_online_status : String → Request
  get_chats : Request
  save_chat_keys : SaveChatKeysRequest → Request

unfoldable pub frame : Request → Json
frame (send_message d) = send_message_frame d
frame (get_messages p) = get_messages_frame p
frame (mark_as_read chat_id last_id) = mark_as_read_frame chat_id last_id
frame (edit_message id content) = edit_message_frame id content
frame (delete_message id) = delete_message_frame id
frame (check_online_status user_id) = check_online_status_frame user_id
frame get_chats = get_chats_frame
frame (save_chat_keys d) = save_chat_keys_frame d

-- The handler that the call gives to `onMessage`.
unfoldable pub answer : Request → Json → Option Outcome
answer (send_message d) m = on_message_sent m
answer (get_messages p) m = on_messages m
answer (mark_as_read _ _) m = on_marked_as_read m
answer (edit_message _ _) m = on_message_altered m
answer (delete_message _) m = on_message_deleted m
answer (check_online_status user_id) m = on_online_status user_id m
answer get_chats m = on_chats m
answer (save_chat_keys d) m = on_chat_keys_saved m

-- A call: the number of its handler, whether its timeout runs, and how its promise has settled.
pub record Call : Type 0 where
  pub handler : ℕ
  pub request : Request
  pub timer : Bool
  pub outcome : Option Outcome

pub record Session : Type 0 where
  pub socket : Runtime
  pub calls : List Call
  pub next_handler : ℕ

-- What `resolve` and `reject` of the language do: a promise that has settled stays as it is.
unfoldable pub settle : Outcome → Call → Call
settle o c = elim c.outcome [ none ↦ record c { outcome = some o } | some _ ↦ c ]

-- The call's handler on one frame, without `unsubscribe()`.
unfoldable pub react : Json → Call → Call
unfolding settle
react m c = elim (answer c.request m) [ none ↦ c | some o ↦ settle o (record c { timer = false }) ]

abbrev pub at_handler : ℕ → (Call → Call) → Call → Call
at_handler h f c = if c.handler == h then f c else c

-- Does the handler `h` settle a call, and so unsubscribe, on this frame?
abbrev pub answers : Json → ℕ → List Call → Bool
answers m h [] = false
answers m h (c ∷ cs) = (c.handler == h && is_some (answer c.request m)) || answers m h cs

unfoldable pub call_handler : Json → ℕ → Session → Session
call_handler m h s = record s {
  calls = map (at_handler h (react m)) s.calls;
  socket = if answers m h s.calls then off_message h s.socket else s.socket;
}

-- The `forEach` of `handleMessage`, over the handlers that are subscribed when the frame comes.
unfoldable pub call_handlers : Json → List ℕ → Session → Session
call_handlers m [] s = s
call_handlers m (h ∷ hs) s = call_handlers m hs (call_handler m h s)

abbrev pub waiting : ℕ → Request → Call
waiting h q = record { handler = h; request = q; timer = true; outcome = none }

abbrev pub not_connected : Outcome
not_connected = rejected (str "WebSocket is not connected")

abbrev pub add_call : Call → Runtime → Session → Session
add_call c r s = record s {
  socket = r;
  calls = s.calls ++ c ∷ [];
  next_handler = suc s.next_handler;
}

-- checkOnlineStatus subscribes and starts its timeout before it sends; when `send` throws, both stay.
abbrev pub sent_online : Request → Runtime → Option Runtime → Session → Session
sent_online q heard none s =
    add_call (record (waiting s.next_handler q) { outcome = some not_connected }) heard s
sent_online q heard (some sent) s = add_call (waiting s.next_handler q) sent s

abbrev pub begin_online : String → Session → Session
begin_online user_id s =
    let q = check_online_status user_id in
    let heard = on_message s.next_handler s.socket in sent_online q heard (send (frame q) heard) s

-- The others send first; when `send` throws, they have neither a timeout nor a handler.
abbrev pub sent_first : Request → Option Runtime → Session → Session
sent_first q none s =
    add_call (record (waiting s.next_handler q) { outcome = some not_connected; timer = false })
      s.socket s
sent_first q (some sent) s = add_call (waiting s.next_handler q) (on_message s.next_handler sent) s

abbrev pub begin_sent : Request → Session → Session
begin_sent q s = sent_first q (send (frame q) s.socket) s

abbrev pub is_online_check : Request → Bool
is_online_check (check_online_status _) = true
is_online_check _ = false

unfoldable pub begin : Request → Session → Session
unfolding frame
begin (check_online_status user_id) s = begin_online user_id s
begin q s = begin_sent q s

abbrev pub timeout : Request → Outcome
timeout (check_online_status _) = rejected (str "Timeout checking online status")
timeout _ = rejected (str "Timeout")

-- The timeout of a call, after 5 s: it settles the promise, and only checkOnlineStatus unsubscribes.
unfoldable pub expire_call : Call → Call
unfolding settle
expire_call c = if c.timer then settle (timeout c.request) (record c { timer = false }) else c

abbrev pub unsubscribes : ℕ → List Call → Bool
unsubscribes h [] = false
unsubscribes h (c ∷ cs) =
    (c.handler == h && c.timer && is_online_check c.request) || unsubscribes h cs

unfoldable pub expire : ℕ → Session → Session
expire h s = record s {
  calls = map (at_handler h expire_call) s.calls;
  socket = if unsubscribes h s.calls then off_message h s.socket else s.socket;
}

-- The message that an event of the socket hands to the handlers, if it does.
unfoldable pub dispatched : Event → Runtime → Option Json
dispatched (receives i (some m)) r =
    if is_opened (get_elem? r.sockets i)
    then elim (member "type" (some m)) [
      | none ↦ none
      | some v ↦ if is_text v "pong" then none else some m
    ]
    else none
dispatched _ r = none

abbrev pub dispatch : Option Json → List ℕ → Session → Session
dispatch none hs s = s
dispatch (some m) hs s = call_handlers m hs s

pub data Step : Type 0 where
  begins : Request → Step
  expires : ℕ → Step
  occurs : Event → Step

unfoldable pub step : Step → Session → Session
step (begins q) s = begin q s
step (expires h) s = expire h s
step (occurs e) s =
    dispatch (dispatched e s.socket) s.socket.message_handlers
      (record s { socket = deliver e s.socket })

unfoldable pub run_steps : List Step → Session → Session
run_steps [] s = s
run_steps (e ∷ es) s = run_steps es (step e s)
