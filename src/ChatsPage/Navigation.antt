-- ===== src/ChatsPage/Navigation.antt =====
-- The selection, the online statuses and the connection in ChatsPage.tsx.
use Prim.Native.Char.{code}
use zero_mes.Common.{
  ℕ, String, Bool, true, false, Option, none, some, List, [], ◌∷◌, ◌||◌, ◌&&◌, ◌==◌, str_eq,
  if◌then◌else◌,
}
use zero_mes.Crypto.Primitives.{Bytes, Encoding, Subtle}
use zero_mes.Crypto.Storage.{Browser, is_remember_me_enabled}
use zero_mes.Logout.{App, perform_logout}
use zero_mes.Api.Http.{Network}
use zero_mes.ChatWindow.{after}
use zero_mes.ChatsPage.{Chat, Page}
use zero_mes.ChatsPage.Chats.{reset_unread, OnlineStatus, update_statuses}

unfoldable pub handle_select_chat : Chat → Page → Page
unfolding reset_unread
handle_select_chat c page = record page {
  selected_chat_id = some c.id;
  chats = reset_unread c.id page.chats;
}

unfoldable pub handle_back_to_chats : Page → Page
handle_back_to_chats page = record page { selected_chat_id = none }

-- checkAllOnlineStatuses, once the answers are there
unfoldable pub set_online_statuses : List OnlineStatus → Page → Page
unfolding update_statuses
set_online_statuses ss page = record page { chats = update_statuses ss page.chats }

-- The begin of initializeConnection: without a private key it goes to the login page and subscribes nothing.
unfoldable pub begin_connection : (key : Option Bytes) → Page → Page
begin_connection none page = record page { route = some "/login" }
begin_connection (some _) page = page

-- The index that VirtualizedChatList scrolls to.
unfoldable pub chat_index : String → List Chat → Option ℕ
chat_index id [] = none
chat_index id (c ∷ cs) =
    let rest = chat_index id cs in if str_eq c.id id then some 0 else after rest

unfoldable pub scroll_to_selected : Option Chat → List Chat → Option ℕ
unfolding chat_index
scroll_to_selected none chats = none
scroll_to_selected (some c) chats = chat_index c.id chats

unfoldable pub on_status : String → Page → Page
on_status status page = record page { ws_connected = str_eq status "connected" }

-- `message.includes(word)`
unfoldable pub starts_with : String → String → Bool
starts_with String.[] _ = true
starts_with (String.◌∷◌ _ _) String.[] = false
starts_with (String.◌∷◌ c w) (String.◌∷◌ d s) = code c == code d && starts_with w s

unfoldable pub includes_word : String → String → Bool
unfolding starts_with
includes_word w String.[] = starts_with w String.[]
includes_word w (String.◌∷◌ c s) = starts_with w (String.◌∷◌ c s) || includes_word w s

module _ (enc : Encoding) (subtle : Subtle) where
  -- The `catch` of the connection: does it log out and go to the login page?
  unfoldable pub on_connect_error : Network → Browser → String → Page × App → Page × App
  unfolding includes_word perform_logout
  on_connect_error net b message (page, app) =
      if includes_word "Connection" message || includes_word "timeout" message
      then (record page { route = some "/login" }, (perform_logout enc subtle net b app).0)
      else (page, app)

  unfoldable pub handle_before_unload : Network → Browser → App → App
  unfolding is_remember_me_enabled perform_logout
  handle_before_unload net b app =
      if is_remember_me_enabled enc subtle app.store
      then app
      else (perform_logout enc subtle net b app).0
