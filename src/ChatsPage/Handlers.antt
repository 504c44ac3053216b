-- ===== src/ChatsPage/Handlers.antt =====
-- The handlers of ChatsPage.tsx. Each awaits its answers, which are arguments here, and then updates the page.
use Prim.Native.String.{◌++◌ as append}
use zero_mes.Common.{
  suc, String, Bool, false, Option, none, some, List, ◌∷◌, map, str_eq, non_empty, if◌then◌else◌,
}
use zero_mes.Crypto.Primitives.{Bytes, Units, Encoding, Subtle, Curve, JsonText}
use zero_mes.Crypto.Encryption as Encryption
use zero_mes.Crypto.Encryption.{Result, ok, err, ◌>>=◌}
use zero_mes.Dates.{Clock}
use zero_mes.ChatsPage.{
  Chat, Page, find_chat, find_companion, selected_among, processed_with, message_key,
}
use zero_mes.ChatsPage.Chats.{at_chat, sort_chats, with_message, with_unread}
use zero_mes.ChatsPage.Keys.{
  Answers, companion_bytes, chat_key_with, saved_key, read_preview, load_chats,
}

-- NewMessagePayload, as it is received; a text that the code reads without a test is there.
pub record Payload : Type 0 where
  pub id : Option String
  pub chat_id : Option String
  pub sender_id : String
  pub encrypted_content : String
  pub timestamp : Option String
  pub created_at : Option String

-- `a || b || c`
abbrev pub first_text : Option String → Option String → String → String
first_text none none d = d
first_text none (some s) d = if non_empty s then s else d
first_text (some s) none d = if non_empty s then s else d
first_text (some s) (some t) d = if non_empty s then s else if non_empty t then t else d

abbrev pub message_time : String → Payload → String
message_time now p = first_text p.timestamp p.created_at now

-- The user of a search.
pub record User : Type 0 where
  pub id : String
  pub login : String
  pub public_key : String

-- What the server answers to a message: getUserPublicKey, saveChatKeys, and getChats with what its chats need.
pub record Server : Type 0 where
  pub public_key : Option String
  pub saved : Bool
  pub chats : Option (List Chat)
  pub answers : Chat → Answers

module _ (clock : Clock) where
  -- The update of the list for a message that was read, which leaves the list where it was not.
  unfoldable pub show_message :
      (Units → Chat → Chat) → String → Result Units → List Chat → List Chat
  unfolding sort_chats
  show_message update id (err _) chats = chats
  show_message update id (ok text) chats = sort_chats clock (map (at_chat id (update text)) chats)

abbrev pub bump : Option Chat → String → Page → Page
bump none id page = page
bump (some c) id page =
    if str_eq c.id id
    then record page { chat_update_trigger = suc page.chat_update_trigger }
    else page

module _ (clock : Clock) (browser : Encryption.Window) (enc : Encoding) (subtle : Subtle)
    (curve : Curve) (json : JsonText) where
  -- The preview of a message of a companion whose public key is asked for.
  unfoldable pub read_message : Bytes → Option String → String → Result Units
  unfolding companion_bytes chat_key_with read_preview
  read_message private_key answer content = do
    companion_key ← companion_bytes browser enc subtle curve json answer
    chat_key ← chat_key_with browser enc subtle curve json private_key companion_key
    read_preview browser enc subtle curve json content chat_key

  -- A message of a chat in the list.
  unfoldable pub on_known_chat : Bytes → Server → String → String → Payload → Page → Page
  unfolding read_message show_message selected_among
  on_known_chat private_key server now id p page =
      bump (selected_among page.selected_chat_id page.chats) id (record page {
        chats =
            show_message clock (λ text. with_unread page.selected_chat_id text (message_time now p))
              id (read_message private_key server.public_key p.encrypted_content) page.chats;
      })

  -- The key of a new chat, with the ciphertext that is saved; saveChatKeys may reject.
  unfoldable pub new_key : Bytes → Bytes → Option String → Result (Bytes × String)
  unfolding companion_bytes chat_key_with saved_key
  new_key nonce private_key answer = do
    companion_key ← companion_bytes browser enc subtle curve json answer
    chat_key ← chat_key_with browser enc subtle curve json private_key companion_key
    ciphertext ← saved_key browser enc subtle curve json nonce private_key chat_key
    ok (chat_key, ciphertext)

  -- loadChats, and the preview that the list may not have yet.
  unfoldable pub reloaded : Server → String → String → Payload → Bytes → Page → Page
  unfolding show_message read_preview
  reloaded server now id p chat_key loaded = record loaded {
    chats =
        show_message clock (λ text. with_message text (message_time now p)) id
          (read_preview browser enc subtle curve json p.encrypted_content chat_key) loaded.chats;
  }

  unfoldable pub started :
      Bytes → Server → String → String → Payload → Page → Result (Bytes × String) → Page
  unfolding load_chats reloaded
  started private_key server now id p page (err _) = page
  started private_key server now id p page (ok (chat_key, _)) =
      if server.saved
      then reloaded server now id p chat_key (
          load_chats browser enc subtle curve json (some private_key) server.answers server.chats
            page)
      else page

  unfoldable pub on_new_chat :
      (nonce : Bytes) → Bytes → Server → String → String → Payload → Page → Page
  unfolding new_key started
  on_new_chat nonce private_key server now id p page =
      started private_key server now id p page (new_key nonce private_key server.public_key)

  unfoldable pub by_chat :
      Bytes → Bytes → Server → String → String → Payload → Page → Option Chat → Page
  unfolding on_new_chat on_known_chat
  by_chat nonce private_key server now id p page none =
      on_new_chat nonce private_key server now id p page
  by_chat nonce private_key server now id p page (some c) =
      on_known_chat private_key server now id p page

  unfoldable pub unless_processed :
      Bytes → Bytes → Server → String → String → Payload → Page → Option (List String) → Page
  unfolding by_chat find_chat
  unless_processed nonce private_key server now id p page none = page
  unless_processed nonce private_key server now id p page (some keys) =
      by_chat nonce private_key server now id p (record page { processed_messages = keys })
        (find_chat id page.chats)

  -- A payload without a chat is refused; `server.public_key` is that of the sender or of the companion of the chat.
  unfoldable pub on_new_message : (nonce : Bytes) → Bytes → Server → String → Payload → Page → Page
  unfolding unless_processed processed_with message_key
  on_new_message nonce private_key server now p page = elim p.chat_id [
    | none ↦ page
    | some id ↦
        if non_empty id
        then unless_processed nonce private_key server now id p page
            (processed_with (message_key p.id id) page.processed_messages)
        else page
  ]

  unfoldable pub sent_in : Bytes → Server → String → String → Payload → Page → Option Chat → Page
  unfolding read_message show_message
  sent_in private_key server now id p page none = page
  sent_in private_key server now id p page (some c) = record page {
    chats =
        show_message clock (λ text. with_message text (message_time now p)) id
          (read_message private_key server.public_key p.encrypted_content) page.chats;
  }

  -- A payload without a chat is passed over.
  unfoldable pub sent_to : Bytes → Server → String → Payload → Page → Option String → Page
  unfolding sent_in find_chat
  sent_to private_key server now p page none = page
  sent_to private_key server now p page (some id) =
      if non_empty id
      then sent_in private_key server now id p page (find_chat id page.chats)
      else page

  -- The confirmation of a message of ours.
  unfoldable pub on_message_sent : Bytes → Server → String → Payload → Page → Page
  unfolding sent_to
  on_message_sent private_key server now p page = sent_to private_key server now p page p.chat_id

  abbrev pub new_chat : User → String → String → Chat
  new_chat user now ciphertext = record {
    id = append "temp-" user.id;
    user_id = "";
    companion_id = user.id;
    companion_login = some user.login;
    created_at = now;
    last_message_at = now;
    encrypted_key = ciphertext;
    key_iv = "";
    last_message = none;
    last_message_preview = none;
    is_online = none;
    unread_count = none;
  }

  abbrev pub failed_chat : Page → Page
  failed_chat page = record page {
    alerts = "Failed to create chat. Please try again." ∷ page.alerts;
  }

  abbrev pub created : User → String → Bool → Page → Result (Bytes × String) → Page
  created user now saved page (err _) = failed_chat page
  created user now saved page (ok (_, ciphertext)) =
      if saved
      then record page {
        chats = new_chat user now ciphertext ∷ page.chats;
        selected_chat_id = some (append "temp-" user.id);
        show_search = false;
      }
      else failed_chat page

  unfoldable pub create_chat : Bytes → User → String → Bool → Page → Option Bytes → Page
  unfolding new_key
  create_chat nonce user now saved page none = record page { route = some "/login" }
  create_chat nonce user now saved page (some private_key) =
      created user now saved page (new_key nonce private_key (some user.public_key))

  unfoldable pub open_chat : Bytes → User → String → Bool → Page → Option Bytes → Option Chat → Page
  unfolding create_chat
  open_chat nonce user now saved page key none = create_chat nonce user now saved page key
  open_chat nonce user now saved page key (some c) = record page {
    selected_chat_id = some c.id;
    show_search = false;
  }

  -- `key` is what restorePrivateKey finds, `saved` whether saveChatKeys succeeds.
  unfoldable pub handle_new_chat :
      (nonce : Bytes) → Option Bytes → Bool → String → User → Page → Page
  unfolding open_chat find_companion
  handle_new_chat nonce key saved now user page =
      open_chat nonce user now saved page key (find_companion user.id page.chats)
