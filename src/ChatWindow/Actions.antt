-- ===== src/ChatWindow/Actions.antt =====
-- Loading, sending and editing in ChatWindow.tsx. A handler that awaits the server is two functions: up to
-- the call, and from its answer on, where `none` is a promise that rejects.
use Prim.Native.Char.{code}
use Prim.Native.String.{◌++◌ as append}
use mathlib.Core.List.{reverse}
use zero_mes.Common.{
  String, Bool, true, false, not, Option, none, some, List, [], ◌∷◌, ◌++◌, map, ◌&&◌, non_empty,
  is_space, is_some, if◌then◌else◌,
}
use zero_mes.Crypto.Primitives.{Bytes, Encoding, Subtle, JsonText}
use zero_mes.Crypto.Encryption as Encryption
use zero_mes.Crypto.Encryption.{
  Result, ok, err, EncryptedMessage, to_json, encrypt_message, decrypt_message_content,
  decrypt_chat_key_with_private_key,
}
use zero_mes.Api.Types.{SendMessageRequest}
use zero_mes.ChatWindow.{
  Message, text, pending, sent, Chat, Window, or_text, remove_message, alter_message,
  replace_message,
}

-- `!s.trim()`
unfoldable pub is_blank : String → Bool
is_blank String.[] = true
is_blank (String.◌∷◌ c s) = is_space (code c) && is_blank s

-- GetMessagesResponse
pub record Page : Type 0 where
  pub messages : List Message
  pub has_more : Bool

-- A call of getMessages.
pub record Query : Type 0 where
  pub chat_id : String
  pub last_message_id : Option String

-- What handleSendMessage keeps across its awaits; the request is `none` where the encryption rejects.
pub record Sending : Type 0 where
  pub temp_id : String
  pub content : String
  pub request : Option SendMessageRequest

pub record Edit : Type 0 where
  pub id : String
  pub content : String
  pub encrypted : Result String

abbrev failed_text : String
failed_text = "[Decryption failed]"

abbrev pub temporary : Chat → String → String → String → Message
temporary chat id now plain = record {
  id = id;
  chat_id = chat.id;
  sender_id = or_text (some chat.user_id) "me";
  recipient_id = chat.companion_id;
  encrypted_content = "";
  message_type = "text";
  created_at = now;
  status = text "sent";
  local_status = some pending;
  decrypted_content = some plain;
}

abbrev pub send_request : Chat → Result String → Option SendMessageRequest
send_request chat (err _) = none
send_request chat (ok content) = some (record {
  chat_id = chat.id;
  recipient_id = chat.companion_id;
  encrypted_content = content;
  message_type = "text";
})

abbrev pub sealed : JsonText → Result EncryptedMessage → Result String
sealed json (err e) = err e
sealed json (ok e) = ok (json.stringify (to_json e))

module _ (browser : Encryption.Window) (enc : Encoding) (subtle : Subtle) (json : JsonText) where
  -- The first effect: `none` is a key that could not be restored.
  unfoldable pub decrypt_key : Option Bytes → Window → Window
  decrypt_key none w = record w { chat_key = none }
  decrypt_key (some private_key) w =
      if non_empty w.chat.encrypted_key
      then elim (decrypt_chat_key_with_private_key browser enc subtle w.chat.encrypted_key
          private_key) [
            | err _ ↦ record w { chat_key = none }
            | ok key ↦ record w { chat_key = some key }
          ]
      else record w { chat_key = none }

  -- Each message of a page with its text, and whether its decryption failed.
  unfoldable pub decrypt_one : Bytes → Message → Message
  decrypt_one key m =
      elim (decrypt_message_content browser enc subtle json m.encrypted_content key) [
        | ok plain ↦ record m { decrypted_content = some plain }
        | err _ ↦ record m { decrypted_content = some failed_text }
      ]

  unfoldable pub failures : Bytes → List Message → List String
  failures key [] = []
  failures key (m ∷ ms) =
      let rest = failures key ms in
      elim (decrypt_message_content browser enc subtle json m.encrypted_content key) [
        | ok _ ↦ rest
        | err _ ↦ "Failed to decrypt some messages" ∷ rest
      ]

  abbrev pub is_ready : Window → Bool
  is_ready w = non_empty w.chat.id && is_some w.chat_key

  -- loadMessages
  unfoldable pub begin_load : Window → Option (Window × Query)
  begin_load w =
      if is_ready w
      then some
          (record w { loading = true }, record { chat_id = w.chat.id; last_message_id = none })
      else none

  unfoldable pub end_load : Bytes → Option Page → Window → Window
  unfolding decrypt_one failures
  end_load key none w = record w { loading = false }
  end_load key (some page) w = record w {
    messages = reverse (map (decrypt_one key) page.messages);
    has_more = page.has_more;
    initial_load_done = true;
    toasts = failures key page.messages ++ w.toasts;
    loading = false;
  }

  -- loadMoreMessages
  unfoldable pub begin_load_more : Window → Option (Window × Query)
  begin_load_more w = elim w.messages [
    | [] ↦ none
    | oldest ∷ _ ↦
        if is_ready w && w.has_more && not w.loading_more
        then some (
          record w { loading_more = true },
          record { chat_id = w.chat.id; last_message_id = some oldest.id },
        )
        else none
  ]

  unfoldable pub add_page : Bytes → Page → List Message → Window → Window
  unfolding decrypt_one
  add_page key page [] w = record w { has_more = false; loading_more = false }
  add_page key page (m ∷ ms) w = record w {
    messages = reverse (map (decrypt_one key) (m ∷ ms)) ++ w.messages;
    has_more = page.has_more;
    loading_more = false;
  }

  unfoldable pub end_load_more : Bytes → Option Page → Window → Window
  unfolding add_page
  end_load_more key none w = record w { loading_more = false }
  end_load_more key (some page) w = add_page key page page.messages w

  -- encryptMessage and JSON.stringify; `nonce` is what getRandomValues draws.
  unfoldable pub seal : Bytes → String → Bytes → Result String
  seal nonce plain key = sealed json (encrypt_message browser enc subtle nonce plain key)

  -- handleSendMessage; `stamp` is the text of Date.now(), `now` that of new Date().toISOString().
  unfoldable pub begin_send :
      (nonce : Bytes) (stamp now : String) → Window → Option (Window × Sending)
  unfolding is_blank seal
  begin_send nonce stamp now w = elim w.chat_key [
    | none ↦ none
    | some key ↦
        if is_blank w.message_text
        then none
        else some (
          record w {
            messages =
                w.messages ++ temporary w.chat (append "temp-" stamp) now w.message_text ∷ [];
            message_text = "";
          },
          record {
            temp_id = append "temp-" stamp;
            content = w.message_text;
            request = send_request w.chat (seal nonce w.message_text key);
          },
        )
  ]

  -- handleSubmitEdit
  unfoldable pub begin_edit : (nonce : Bytes) → Window → Option Edit
  unfolding is_blank seal
  begin_edit nonce w = elim w.editing_message [
    | none ↦ none
    | some e ↦ elim w.chat_key [
      | none ↦ none
      | some key ↦
          if is_blank w.message_text
          then none
          else some (record {
            id = e.id;
            content = w.message_text;
            encrypted = seal nonce w.message_text key;
          })
    ]
  ]

unfoldable pub end_send : Sending → Option Message → Window → Window
end_send s (some m) w = record w {
  messages =
      replace_message s.temp_id
        (record m { decrypted_content = some s.content; local_status = some sent }) w.messages;
}
end_send s none w = record w {
  messages = remove_message s.temp_id w.messages;
  message_text = s.content;
}

-- Does editMessage succeed, if it is called?
unfoldable pub end_edit : Edit → Bool → Window → Window
end_edit e succeeds w = elim e.encrypted [
  | err _ ↦ record w { toasts = "Failed to edit message. Please try again." ∷ w.toasts }
  | ok encrypted ↦
      if succeeds
      then record w {
        messages = alter_message e.id encrypted e.content w.messages;
        message_text = "";
        editing_message = none;
        toasts = "Message updated" ∷ w.toasts;
      }
      else record w { toasts = "Failed to edit message. Please try again." ∷ w.toasts }
]

unfoldable pub cancel_edit : Window → Window
cancel_edit w = record w { editing_message = none; message_text = "" }
