-- ===== src/ChatWindow/Frames.antt =====
-- The handler of ChatWindow.tsx for frames of the WebSocket. A frame is what the code casts it to. What
-- the handler does with a frame is a change of the window; that it awaits the decryption is in Awaiting.
use zero_mes.Common.{
  String, Bool, false, Option, none, some, List, [], ◌∷◌, str_eq, non_empty, if◌then◌else◌,
}
use zero_mes.Crypto.Primitives.{Bytes, Encoding, Subtle, JsonText}
use zero_mes.Crypto.Encryption as Encryption
use zero_mes.Crypto.Encryption.{Result, ok, err, decrypt_message_content}
use zero_mes.ChatWindow.{
  Message, text, Chat, Window, or_text, insert_new, remove_message, alter_message, mark_read,
}

pub record NewMessage : Type 0 where
  pub id : Option String
  pub message_id : Option String
  pub chat_id : Option String
  pub sender_id : Option String
  pub encrypted_content : Option String
  pub timestamp : Option String
  pub created_at : Option String

-- The payload is `none` where it is undefined or null.
pub data Frame : Type 0 where
  message_sent : Frame
  new_message : Option NewMessage → Frame
  message_deleted : (message_id : Option String) → Frame
  message_altered : (message_id new_content : Option String) → Frame
  message_read : (chat_id last_message_id : Option String) → Frame
  other : String → Frame

pub data Change : Type 0 where
  insert : Message → Change
  remove : String → Change
  alter : (id content plain : String) → Change
  mark : String → Change

-- `a === b`, where `a` may be undefined
abbrev pub is_same : Option String → String → Bool
is_same none s = false
is_same (some r) s = str_eq r s

-- A text that is truthy.
abbrev pub given : Option String → Option String
given none = none
given (some s) = if non_empty s then some s else none

-- The object of an incoming message; `now` is new Date().toISOString().
unfoldable pub received : Chat → String → String → NewMessage → Message
received chat now plain p = record {
  id = or_text p.message_id (or_text p.id "");
  chat_id = or_text p.chat_id "";
  sender_id = or_text p.sender_id "";
  recipient_id = chat.companion_id;
  encrypted_content = or_text p.encrypted_content "";
  message_type = "text";
  created_at = or_text p.timestamp (or_text p.created_at now);
  status = text "delivered";
  local_status = none;
  decrypted_content = some plain;
}

unfoldable pub apply_change : Change → Window → Window
apply_change (insert m) w = record w { messages = insert_new m w.messages }
apply_change (remove id) w = record w { messages = remove_message id w.messages }
apply_change (alter id content plain) w = record w {
  messages = alter_message id content plain w.messages;
}
apply_change (mark id) w = record w { messages = mark_read w.chat.companion_id id w.messages }

abbrev pub make_change : Option Change → Window → Window
make_change none w = w
make_change (some c) w = apply_change c w

unfoldable pub apply_changes : List Change → Window → Window
apply_changes [] w = w
apply_changes (c ∷ cs) w = apply_changes cs (apply_change c w)

abbrev pub with_text : (String → Change) → Option String → Option Change
with_text change none = none
with_text change (some i) = some (change i)

-- A decryption in a `try`, whose `catch` only logs.
abbrev pub attempt : (String → Change) → Result String → Option Change
attempt change (err _) = none
attempt change (ok plain) = some (change plain)

module _ (browser : Encryption.Window) (enc : Encoding) (subtle : Subtle) (json : JsonText) where
  abbrev decrypted : String → Bytes → Result String
  decrypted content key = decrypt_message_content browser enc subtle json content key

  unfoldable pub on_new_message : Chat → Bytes → String → NewMessage → Option Change
  unfolding received
  on_new_message chat key now p =
      if is_same p.chat_id chat.id
      then attempt (λ plain. insert (received chat now plain p))
          (decrypted (or_text p.encrypted_content "") key)
      else none

  unfoldable pub on_altered : Bytes → Option String → Option String → Option Change
  on_altered key none content = none
  on_altered key (some id) none = none
  on_altered key (some id) (some content) = attempt (alter id content) (decrypted content key)

  -- What the handler does with a frame of a chat that has its key.
  unfoldable pub change_of : Chat → Bytes → String → Frame → Option Change
  unfolding on_new_message on_altered
  change_of chat key now message_sent = none
  change_of chat key now (new_message none) = none
  change_of chat key now (new_message (some p)) = on_new_message chat key now p
  change_of chat key now (message_deleted id) = with_text remove (given id)
  change_of chat key now (message_altered id content) = on_altered key (given id) (given content)
  change_of chat key now (message_read chat_id last) =
      if is_same chat_id chat.id then with_text mark (given last) else none
  change_of chat key now (other _) = none

  -- One frame, with its decryption. Without a key nothing is subscribed.
  unfoldable pub frame_under : String → Frame → Option Bytes → Window → Window
  unfolding change_of
  frame_under now f none w = w
  frame_under now f (some key) w = make_change (change_of w.chat key now f) w

  unfoldable pub on_frame : String → Frame → Window → Window
  unfolding frame_under
  on_frame now f w = frame_under now f w.chat_key w
