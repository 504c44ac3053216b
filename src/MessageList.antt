-- ===== src/MessageList.antt =====
-- src/frontend/src/components/VirtualizedMessageList.tsx: the items that the list of messages shows, with its separators of days,
-- and when it scrolls and asks for more. The virtual list of the library that renders them is not modelled.
pub mod Days
mod Tests
use zero_mes.Common.{
  ℕ, suc, ◌+◌, ◌-◌, String, Bool, true, false, not, Option, none, some, List, [], ◌∷◌, ◌++◌, length,
  ltb, ◌==◌, ◌&&◌, ◌||◌, str_eq, if◌then◌else◌,
}
use zero_mes.Crypto.Primitives.{Units}
use zero_mes.Dates.{Clock, get_date_key}
use zero_mes.ChatWindow.{
  Message, LocalStatus, pending, sent, delivered, read, Status, text, number, is_ours,
}
use zero_mes.ChatsPage.{utf16}

-- One item: the key of a separator's id, without its prefix, is `key`.
pub data Item : Type 0 where
  separator : (date : String) (key : Units) → Item
  message : Message → Item

abbrev pub same_units : Units → Units → Bool
same_units [] [] = true
same_units [] (_ ∷ _) = false
same_units (_ ∷ _) [] = false
same_units (a ∷ s) (b ∷ t) = a == b && same_units s t

-- `a === b`, where `a` may be null
abbrev pub is_day : Option Units → Units → Bool
is_day none key = false
is_day (some day) key = same_units day key

-- getDateKey(message.created_at)
unfoldable pub day_of : Clock → Message → Units
unfolding utf16 get_date_key
day_of k m = get_date_key k (utf16 m.created_at)

-- The loop of messagesWithSeparators behind a message of the day `previous`.
unfoldable pub separated : Clock → Option Units → List Message → List Item
unfolding day_of
separated k previous [] = []
separated k previous (m ∷ ms) =
    let rest = separated k (some (day_of k m)) ms in
    if is_day previous (day_of k m)
    then message m ∷ rest
    else separator m.created_at (day_of k m) ∷ message m ∷ rest

unfoldable pub messages_with_separators : Clock → List Message → List Item
unfolding separated
messages_with_separators k messages = separated k none messages

pub record View : Type 0 where
  pub is_at_bottom : Bool
  pub prev_messages_length : ℕ

-- The first render, which counts the messages without separators.
unfoldable pub first_view : List Message → View
first_view messages = record { is_at_bottom = true; prev_messages_length = length messages }

-- The effect on new items: the index that it scrolls to.
unfoldable pub on_items : List Item → View → View × Option ℕ
on_items items v = (
  record v { prev_messages_length = length items },
  if ltb v.prev_messages_length (length items) && v.is_at_bottom
      then some (length items - 1)
      else none,
)

-- The effect on a request from outside.
unfoldable pub on_scroll_request : Bool → List Item → Option ℕ
on_scroll_request scroll_to_bottom items =
    if scroll_to_bottom && ltb 0 (length items) then some (length items - 1) else none

unfoldable pub handle_at_bottom_state_change : Bool → View → View
handle_at_bottom_state_change at_bottom v = record v { is_at_bottom = at_bottom }

-- Is onLoadMore called?
unfoldable pub handle_start_reached : (has_more loading_more given : Bool) → Bool
handle_start_reached has_more loading_more given = has_more && not loading_more && given

-- displayStatus: the local status, or the one that the server sent
unfoldable pub display_status : Message → Status
display_status m = elim m.local_status [
  | none ↦ m.status
  | some pending ↦ text "pending"
  | some sent ↦ text "sent"
  | some delivered ↦ text "delivered"
  | some read ↦ text "read"
]

-- The marks of a status: none, one or two.
unfoldable pub icon_of_text : String → String
icon_of_text s =
    if str_eq s "pending"
    then " pending"
    else if str_eq s "sent" || str_eq s "delivered"
    then " ✓"
    else if str_eq s "read"
    then " ✓✓"
    else ""

-- MessageStatus: SENT is 0, DELIVERED 1, READ 2.
unfoldable pub icon_of_number : ℕ → String
icon_of_number n = if n == 0 || n == 1 then " ✓" else if n == 2 then " ✓✓" else ""

unfoldable pub get_status_icon : Message → String
unfolding display_status icon_of_text icon_of_number
get_status_icon m = elim (display_status m) [
  | text s ↦ icon_of_text s
  | number n ↦ icon_of_number n
]
