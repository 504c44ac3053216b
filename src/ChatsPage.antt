-- ===== src/ChatsPage.antt =====
-- src/frontend/src/pages/ChatsPage.tsx: the state of the page and the updates of its list of chats. The refs follow the
-- states after each render, and are the states here. Console output is not modelled.
pub mod Chats
pub mod Keys
pub mod Handlers
pub mod Navigation
pub mod Order
pub mod Kept
pub mod Each
pub mod Reachable
pub mod Small
pub mod Sorted
pub mod First
pub mod Companions
pub mod Processed
pub mod Preview
mod Tests
use Prim.Native.Char.{code}
use Prim.Native.String.{◌++◌ as append}
use zero_mes.Common.{
  ℕ, zero, suc, ◌+◌, ◌-◌, ◌/◌, ◌%◌, String, Bool, true, false, not, Option, none, some, List, [],
  ◌∷◌, ◌++◌, map, length, take, drop, ltb, ◌||◌, str_eq, if◌then◌else◌,
}
use zero_mes.Crypto.Primitives.{Units}

-- Chat of types/api.ts; a preview is a text that was cut between UTF-16 code units.
pub record Chat : Type 0 where
  pub id : String
  pub user_id : String
  pub companion_id : String
  pub companion_login : Option String
  pub created_at : String
  pub last_message_at : String
  pub encrypted_key : String
  pub key_iv : String
  pub last_message : Option String
  pub last_message_preview : Option Units
  pub is_online : Option Bool
  pub unread_count : Option ℕ

-- `route` is where `navigate` went last; `alerts` holds the texts of `alert`, the latest first.
pub record Page : Type 0 where
  pub chats : List Chat
  pub selected_chat_id : Option String
  pub show_search : Bool
  pub loading : Bool
  pub ws_connected : Bool
  pub chat_update_trigger : ℕ
  pub processed_messages : List String
  pub route : Option String
  pub alerts : List String

-- A text as JavaScript indexes it.
abbrev pub units_of : ℕ → Units
units_of c =
    if ltb c 0x10000 then c ∷ [] else (0xd800 + (c - 0x10000) / 1024) ∷ (0xdc00 + c % 1024) ∷ []

unfoldable pub utf16 : String → Units
utf16 String.[] = []
utf16 (String.◌∷◌ c s) = units_of (code c) ++ utf16 s

-- The first 50 code units, and three dots where there are more.
unfoldable pub preview : Units → Units
preview decrypted =
    if ltb 50 (length decrypted) then take 50 decrypted ++ 46 ∷ 46 ∷ 46 ∷ [] else decrypted

-- `find(c => c.id === id)`
unfoldable pub find_chat : String → List Chat → Option Chat
find_chat id [] = none
find_chat id (c ∷ cs) = let rest = find_chat id cs in if str_eq c.id id then some c else rest

unfoldable pub find_companion : String → List Chat → Option Chat
find_companion id [] = none
find_companion id (c ∷ cs) =
    let rest = find_companion id cs in if str_eq c.companion_id id then some c else rest

abbrev pub selected_among : Option String → List Chat → Option Chat
unfolding find_chat
selected_among none chats = none
selected_among (some id) chats = find_chat id chats

-- Is the message's key in the set, which keeps the order of insertion?
unfoldable pub has : String → List String → Bool
has key [] = false
has key (k ∷ ks) = str_eq k key || has key ks

-- `slice(-100)` of a set that has grown beyond 100
unfoldable pub newest : List String → List String
newest keys = if ltb 100 (length keys) then drop (length keys - 100) keys else keys

-- The set with a new key, and `none` for a message that was processed.
unfoldable pub processed_with : String → List String → Option (List String)
unfolding has newest
processed_with key keys = if has key keys then none else some (newest (keys ++ key ∷ []))

-- `${payload.id}_${payload.chat_id}`, where the id may be undefined
unfoldable pub message_key : Option String → String → String
message_key none chat_id = append "undefined_" chat_id
message_key (some id) chat_id = append id (append "_" chat_id)
