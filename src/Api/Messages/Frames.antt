-- ===== src/Api/Messages/Frames.antt =====
-- src/frontend/src/lib/api/messages.ts: the frame that each call sends, and what its handler makes of a
-- frame that comes in. A handler that does not settle its promise gives `none`.
use zero_mes.Common.{
  ℕ, String, Bool, false, Option, none, some, if◌then◌else◌, ◌==◌, ◌&&◌, non_empty,
}
use zero_mes.Json.{
  Json, Value, bool, num, str, arr, obj, nil, field, end, Fields, member, optional_member,
  or_default, or_nullish, is_text,
}
use zero_mes.Api.Types.{SendMessageRequest, GetMessagesRequest, SaveChatKeysRequest}

-- How a promise settles; a rejection holds the message of its Error.
pub data Outcome : Type 0 where
  resolved : Value → Outcome
  rejected : Json → Outcome

abbrev pub payload : Json → Value
payload m = optional_member "payload" (some m)

-- `message.type === type`
unfoldable pub has_type : String → Json → Bool
has_type type m = elim (member "type" (some m)) [ none ↦ false | some v ↦ is_text v type ]

-- `errorPayload?.error || fallback`
unfoldable pub payload_error : String → Json → Json
payload_error fallback m = or_default (optional_member "error" (payload m)) (str fallback)

abbrev typed : String → Fields → Json
typed type rest = obj (field "type" (str type) rest)

abbrev text : String → String → Fields → Fields
text name s rest = field name (str s) rest

-- `text || fallback` and `n || fallback`
abbrev or_text : String → String → String
or_text s fallback = if non_empty s then s else fallback

abbrev limit_or : Option ℕ → ℕ → ℕ
limit_or none d = d
limit_or (some n) d = if n == 0 then d else n

abbrev id_or_empty : Option String → String
id_or_empty none = ""
id_or_empty (some s) = s

unfoldable pub send_message_frame : SendMessageRequest → Json
send_message_frame d = typed "send_message" (
    text "chat_id" d.chat_id (
      text "recipient_id" d.recipient_id (
        text "content" d.encrypted_content
          (text "message_type" (or_text d.message_type "text") end))))

unfoldable pub get_messages_frame : GetMessagesRequest → Json
get_messages_frame p = typed "get_messages" (
    text "chat_id" p.chat_id (
      field "limit" (num (limit_or p.limit 50))
        (text "last_message_id" (id_or_empty p.last_message_id) end)))

unfoldable pub mark_as_read_frame : String → String → Json
mark_as_read_frame chat_id last_message_id =
    typed "mark_as_read" (text "chat_id" chat_id (text "last_message_id" last_message_id end))

unfoldable pub delete_message_frame : String → Json
delete_message_frame message_id = typed "delete_message" (text "message_id" message_id end)

unfoldable pub edit_message_frame : String → String → Json
edit_message_frame message_id new_content =
    typed "alter_message" (text "message_id" message_id (text "new_content" new_content end))

unfoldable pub get_chats_frame : Json
get_chats_frame = typed "get_chats" end

unfoldable pub save_chat_keys_frame : SaveChatKeysRequest → Json
save_chat_keys_frame d = typed "save_chat_keys" (
    text "user_id" d.user_id (
      text "companion_id" d.companion_id
        (text "encrypted_key" d.encrypted_key (text "key_iv" d.key_iv end))))

unfoldable pub check_online_status_frame : String → Json
check_online_status_frame user_id = typed "check_online_status" (text "user_id" user_id end)

-- The shape that five of the handlers share: a frame of one type resolves, an error frame rejects.
unfoldable pub settle_on : String → (Json → Value) → String → Json → Option Outcome
settle_on done value fallback m =
    if has_type done m
    then some (resolved (value m))
    else if has_type "error" m
    then some (rejected (payload_error fallback m))
    else none

unfoldable pub on_message_sent : Json → Option Outcome
on_message_sent = settle_on "message_sent" payload "Failed to send message"

abbrev pub no_messages : Json
no_messages = obj (
    field "messages" (arr nil)
      (field "next_message_id" (str "") (field "has_more" (bool false) end)))

unfoldable pub on_messages : Json → Option Outcome
on_messages =
    settle_on "messages" (λ m. some (or_default (payload m) no_messages)) "Failed to get messages"

unfoldable pub on_marked_as_read : Json → Option Outcome
on_marked_as_read = settle_on "marked_as_read" (λ m. none) "Failed to mark as read"

unfoldable pub on_message_deleted : Json → Option Outcome
on_message_deleted = settle_on "message_deleted" (λ m. none) "Failed to delete message"

unfoldable pub on_message_altered : Json → Option Outcome
on_message_altered = settle_on "message_altered" (λ m. none) "Failed to edit message"

-- getChats does not listen to error frames.
unfoldable pub on_chats : Json → Option Outcome
on_chats m =
    if has_type "chats" m
    then some (resolved (some (or_default (optional_member "chats" (payload m)) (arr nil))))
    else none

abbrev pub success : Json
success = obj (field "success" (bool Bool.true) end)

-- saveChatKeys reads `error` of the frame itself, not of its payload.
unfoldable pub on_chat_keys_saved : Json → Option Outcome
on_chat_keys_saved m =
    if has_type "chat_keys_saved" m
    then some (resolved (some success))
    else if has_type "error" m
    then some
        (rejected (or_default (optional_member "error" (some m)) (str "Failed to save chat keys")))
    else none

unfoldable pub on_online_status : String → Json → Option Outcome
on_online_status user_id m =
    if has_type "online_status" m && is_text (optional_member "user_id" (payload m)) user_id
    then some (resolved (some (or_nullish (optional_member "is_online" (payload m)) (bool false))))
    else none
