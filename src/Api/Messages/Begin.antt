-- ===== src/Api/Messages/Begin.antt =====
-- What a call of messages.ts does when its promise is made, on a connection that is there or is lost.
use zero_mes.Common.{
  ℕ, ◌≡◌, refl, sym, ap, ◌∙◌, subst, String, true, false, none, some, List, [], ◌∷◌, ◌++◌, ◌==◌,
  ◌&&◌, ◌||◌, arith,
}
use zero_mes.Json.{Json}
use zero_mes.Socket.State.{Runtime, connected, sent, emit}
use zero_mes.Socket.Client.{send, on_message, is_connected}
use zero_mes.Socket.Delivery.{contains, subscription}
use zero_mes.Api.Messages.{
  Request, send_message, get_messages, mark_as_read, edit_message, delete_message,
  check_online_status, get_chats, save_chat_keys, Call, Session, not_connected, waiting, sent_first,
  sent_online, begin, begin_sent, begin_online, is_online_check, frame,
}

-- `send` neither reads nor changes who is subscribed.
send-lost : (m : Json) (r : Runtime) → is_connected r ≡ false → send m r ≡ none
unfolding send
send-lost m r e = ground arith

connected-on_message : (h : ℕ) (r : Runtime) → is_connected (on_message h r) ≡ is_connected r
unfolding is_connected on_message
connected-on_message h r = refl

abbrev pub refused : Request → Session → List Call
refused q s =
    s.calls
    ++ record {
      handler = s.next_handler;
      request = q;
      timer = is_online_check q;
      outcome = some not_connected;
    }
      ∷ []

abbrev Refuses : Request → Session → Session → Type 0
Refuses q s s' =
    (s'.calls ≡ refused q s)
    × ((k : ℕ)
        → contains k s'.socket.message_handlers
          ≡ (contains k s.socket.message_handlers || (s.next_handler == k && is_online_check q)))

begin_sent-Refuses :
    (q : Request) (s : Session)
    → is_online_check q ≡ false
    → is_connected s.socket ≡ false
    → Refuses q s (begin_sent q s)
begin_sent-Refuses q s o e =
    subst (Refuses q s) (ap (λ x. sent_first q x s) (sym (send-lost (frame q) s.socket e)))
      (rw o (refl, λ k. ground arith))

begin_online-Refuses :
    (u : String) (s : Session)
    → is_connected s.socket ≡ false
    → Refuses (check_online_status u) s (begin_online u s)
begin_online-Refuses u s e =
    let q = check_online_status u in
    let r = on_message s.next_handler s.socket in
    let lost = send-lost (frame q) r (connected-on_message s.next_handler s.socket ∙ e) in
    subst (Refuses q s) (ap (λ x. sent_online q r x s) (sym lost))
      (refl, λ k. ground (arith, (subscription s.next_handler k s.socket).0))

-- On a connection that was lost a call is rejected at once. Nothing is subscribed and no timeout runs, except
-- for checkOnlineStatus, which leaves both behind.
pub begin-lost :
    (q : Request) (s : Session)
    → is_connected s.socket ≡ false
    → ((begin q s).calls ≡ refused q s)
      × ((k : ℕ)
          → contains k (begin q s).socket.message_handlers
            ≡ (contains k s.socket.message_handlers || (s.next_handler == k && is_online_check q)))
unfolding begin
begin-lost (send_message d) s e = begin_sent-Refuses (send_message d) s refl e
begin-lost (get_messages p) s e = begin_sent-Refuses (get_messages p) s refl e
begin-lost (mark_as_read c l) s e = begin_sent-Refuses (mark_as_read c l) s refl e
begin-lost (edit_message i t) s e = begin_sent-Refuses (edit_message i t) s refl e
begin-lost (delete_message i) s e = begin_sent-Refuses (delete_message i) s refl e
begin-lost (check_online_status u) s e = begin_online-Refuses u s e
begin-lost get_chats s e = begin_sent-Refuses get_chats s refl e
begin-lost (save_chat_keys d) s e = begin_sent-Refuses (save_chat_keys d) s refl e

abbrev Sends : Request → ℕ → Session → Session → Type 0
Sends q i s s' =
    (s'.socket.trace ≡ sent i (frame q) ∷ s.socket.trace)
    × (contains s.next_handler s'.socket.message_handlers ≡ true)
    × (s'.calls ≡ s.calls ++ waiting s.next_handler q ∷ [])

send-open :
    (m : Json) (i : ℕ) (r : Runtime)
    → r.status ≡ connected
    → r.ws ≡ some i
    → is_connected r ≡ true
    → send m r ≡ some (emit (sent i m) r)
unfolding send
send-open m i r st w e = ground arith

own : (h : ℕ) (r : Runtime) → contains h (on_message h r).message_handlers ≡ true
own h r = (subscription h h r).0 ∙ ground arith

begin_sent-Sends :
    (q : Request) (i : ℕ) (s : Session)
    → s.socket.status ≡ connected
    → s.socket.ws ≡ some i
    → is_connected s.socket ≡ true
    → Sends q i s (begin_sent q s)
unfolding on_message
begin_sent-Sends q i s st w e =
    subst (Sends q i s) (ap (λ x. sent_first q x s) (sym (send-open (frame q) i s.socket st w e)))
      (refl, own s.next_handler (emit (sent i (frame q)) s.socket), refl)

begin_online-Sends :
    (u : String) (i : ℕ) (s : Session)
    → s.socket.status ≡ connected
    → s.socket.ws ≡ some i
    → is_connected s.socket ≡ true
    → Sends (check_online_status u) i s (begin_online u s)
unfolding on_message
begin_online-Sends u i s st w e =
    let q = check_online_status u in
    let r = on_message s.next_handler s.socket in
    let open_now = connected-on_message s.next_handler s.socket ∙ e in
    subst (Sends q i s)
      (ap (λ x. sent_online q r x s) (sym (send-open (frame q) i r st w open_now)))
      (refl, own s.next_handler s.socket, refl)

-- On an open connection the frame of the call is sent on its socket and nothing else is, its handler is
-- subscribed, and the call waits with its timeout.
pub begin-open :
    (q : Request) (i : ℕ) (s : Session)
    → s.socket.status ≡ connected
    → s.socket.ws ≡ some i
    → is_connected s.socket ≡ true
    → ((begin q s).socket.trace ≡ sent i (frame q) ∷ s.socket.trace)
      × (contains s.next_handler (begin q s).socket.message_handlers ≡ true)
      × ((begin q s).calls ≡ s.calls ++ waiting s.next_handler q ∷ [])
unfolding begin
begin-open (send_message d) i s st w e = begin_sent-Sends (send_message d) i s st w e
begin-open (get_messages p) i s st w e = begin_sent-Sends (get_messages p) i s st w e
begin-open (mark_as_read c l) i s st w e = begin_sent-Sends (mark_as_read c l) i s st w e
begin-open (edit_message j t) i s st w e = begin_sent-Sends (edit_message j t) i s st w e
begin-open (delete_message j) i s st w e = begin_sent-Sends (delete_message j) i s st w e
begin-open (check_online_status u) i s st w e = begin_online-Sends u i s st w e
begin-open get_chats i s st w e = begin_sent-Sends get_chats i s st w e
begin-open (save_chat_keys d) i s st w e = begin_sent-Sends (save_chat_keys d) i s st w e
