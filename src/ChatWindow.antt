-- ===== src/ChatWindow.antt =====
-- src/frontend/src/components/ChatWindow.tsx: the state of an open chat, and the updates of its list of
-- messages. The component is mounted anew for each chat, so `chat` does not change in a state.
pub mod Frames
pub mod Awaiting
pub mod Actions
pub mod Controls
pub mod Unique
pub mod View
pub mod Carried
pub mod Refinement
pub mod Sending
pub mod Marks
pub mod Removal
pub mod Reading
mod Tests
use zero_mes.Common.{
  ℕ, zero, suc, String, Bool, true, false, not, Option, none, some, List, [], ◌∷◌, ◌++◌, map, ◌&&◌,
  ◌||◌, leb, select, str_eq, non_empty, if◌then◌else◌,
}
use zero_mes.Crypto.Primitives.{Bytes}

-- localStatus
pub data LocalStatus : Type 0 where
  pending sent delivered read : LocalStatus

-- The server sends numbers, the client texts.
pub data Status : Type 0 where
  text : String → Status
  number : ℕ → Status

-- DecryptedMessage
pub record Message : Type 0 where
  pub id : String
  pub chat_id : String
  pub sender_id : String
  pub recipient_id : String
  pub encrypted_content : String
  pub message_type : String
  pub created_at : String
  pub status : Status
  pub local_status : Option LocalStatus
  pub decrypted_content : Option String

-- The part of a Chat that the window reads.
pub record Chat : Type 0 where
  pub id : String
  pub user_id : String
  pub companion_id : String
  pub encrypted_key : String

pub record Menu : Type 0 where
  pub x : ℕ
  pub y : ℕ
  pub message_id : String
  pub message_content : String

pub record Editing : Type 0 where
  pub id : String
  pub content : String

-- The states and refs of the component; `toasts` holds what showError and showSuccess were given, the latest
-- first, and `clipboard` the text that was copied last.
pub record Window : Type 0 where
  pub chat : Chat
  pub messages : List Message
  pub message_text : String
  pub loading : Bool
  pub chat_key : Option Bytes
  pub is_online : Bool
  pub context_menu : Option Menu
  pub delete_confirm : Option String
  pub editing_message : Option Editing
  pub has_more : Bool
  pub loading_more : Bool
  pub initial_load_done : Bool
  pub show_scroll_button : Bool
  pub toasts : List String
  pub clipboard : Option String

-- The first render.
unfoldable pub mounted : Chat → Window
mounted chat = record {
  chat = chat;
  messages = [];
  message_text = "";
  loading = false;
  chat_key = none;
  is_online = false;
  context_menu = none;
  delete_confirm = none;
  editing_message = none;
  has_more = true;
  loading_more = false;
  initial_load_done = false;
  show_scroll_button = false;
  toasts = [];
  clipboard = none;
}

-- `a || b` on texts that may be undefined
abbrev pub or_text : Option String → String → String
or_text none d = d
or_text (some s) d = if non_empty s then s else d

-- `prev.some(m => m.id === id)`
unfoldable pub exists : String → List Message → Bool
exists id [] = false
exists id (m ∷ ms) = str_eq m.id id || exists id ms

-- A new message is added unless it is there.
unfoldable pub insert_new : Message → List Message → List Message
unfolding exists
insert_new m prev = if exists m.id prev then prev else prev ++ m ∷ []

-- `prev.filter(m => m.id !== id)`
unfoldable pub remove_message : String → List Message → List Message
remove_message id = select (λ m. not (str_eq m.id id))

-- `prev.map(m => m.id === id ? f(m) : m)`
abbrev pub at_id : String → (Message → Message) → Message → Message
at_id id f m = if str_eq m.id id then f m else m

abbrev pub altered : String → String → Message → Message
altered content plain m = record m { encrypted_content = content; decrypted_content = some plain }

unfoldable pub alter_message : String → String → String → List Message → List Message
alter_message id content plain = map (at_id id (altered content plain))

-- The index in a list with one message more in front.
abbrev pub after : Option ℕ → Option ℕ
after none = none
after (some i) = some (suc i)

-- findIndex, `none` for -1
unfoldable pub find_index : String → List Message → Option ℕ
find_index id [] = none
find_index id (m ∷ ms) =
    let rest = find_index id ms in if str_eq m.id id then some 0 else after rest

abbrev pub is_ours : String → Message → Bool
is_ours companion_id m = not (str_eq m.sender_id companion_id)

abbrev pub marked : Message → Message
marked m = record m { status = text "read"; local_status = some read }

-- The `map` with an index: our messages up to `last` are read.
unfoldable pub mark_up_to : String → ℕ → ℕ → List Message → List Message
mark_up_to companion_id last index [] = []
mark_up_to companion_id last index (m ∷ ms) =
    (if leb index last && is_ours companion_id m then marked m else m)
    ∷ mark_up_to companion_id last (suc index) ms

unfoldable pub mark_found : String → List Message → Option ℕ → List Message
unfolding mark_up_to
mark_found companion_id prev none = prev
mark_found companion_id prev (some last) = mark_up_to companion_id last 0 prev

unfoldable pub mark_read : String → String → List Message → List Message
unfolding find_index mark_found
mark_read companion_id last_id prev = mark_found companion_id prev (find_index last_id prev)

abbrev pub replace_message : String → Message → List Message → List Message
replace_message id m = map (at_id id (λ _. m))
