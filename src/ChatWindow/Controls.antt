-- ===== src/ChatWindow/Controls.antt =====
-- The context menu, the deletion and the effects of ChatWindow.tsx.
use zero_mes.Common.{
  ℕ, String, Bool, true, false, not, Option, none, some, List, [], ◌∷◌, str_eq, non_empty,
  if◌then◌else◌,
}
use zero_mes.ChatWindow.{Message, Window, or_text, remove_message}

-- markMessagesAsRead: the last message of the companion, which is marked.
unfoldable pub last_from : String → List Message → Option Message
last_from companion_id [] = none
last_from companion_id (m ∷ ms) = elim (last_from companion_id ms) [
  | some later ↦ some later
  | none ↦ if str_eq m.sender_id companion_id then some m else none
]

unfoldable pub mark_messages_as_read : Window → Option (String × String)
mark_messages_as_read w =
    if non_empty w.chat.id
    then elim (last_from w.chat.companion_id w.messages) [
      | none ↦ none
      | some m ↦ some (w.chat.id, m.id)
    ]
    else none

-- confirmDelete
unfoldable pub confirm_delete : Bool → Window → Window
confirm_delete succeeds w = elim w.delete_confirm [
  | none ↦ w
  | some id ↦
      if non_empty id
      then (if succeeds
          then record w {
            messages = remove_message id w.messages;
            delete_confirm = none;
            toasts = "Message deleted" ∷ w.toasts;
          }
          else record w { toasts = "Failed to delete message. Please try again." ∷ w.toasts })
      else w
]

-- The context menu.
unfoldable pub handle_context_menu : ℕ → ℕ → Message → Window → Window
handle_context_menu x y m w = record w {
  context_menu = some (record {
    x = x;
    y = y;
    message_id = m.id;
    message_content = or_text m.decrypted_content "";
  });
}

unfoldable pub handle_copy_message : Window → Window
handle_copy_message w = elim w.context_menu [
  | none ↦ w
  | some menu ↦ record w { clipboard = some menu.message_content; context_menu = none }
]

unfoldable pub handle_edit_message : Window → Window
handle_edit_message w = elim w.context_menu [
  | none ↦ w
  | some menu ↦ record w {
    editing_message = some (record { id = menu.message_id; content = menu.message_content });
    message_text = menu.message_content;
    context_menu = none;
  }
]

unfoldable pub handle_delete_message : Window → Window
handle_delete_message w = elim w.context_menu [
  | none ↦ w
  | some menu ↦ record w { delete_confirm = some menu.message_id; context_menu = none }
]

unfoldable pub handle_at_bottom_change : Bool → Window → Window
handle_at_bottom_change at_bottom w = record w { show_scroll_button = not at_bottom }

-- The effect on checkOnlineStatus, every 2 s.
unfoldable pub check_status : Option Bool → Window → Window
check_status none w = w
check_status (some online) w = record w { is_online = online }

-- The effect on the chat, its key, loadMessages and markMessagesAsRead, which changes with the messages.
unfoldable pub reset : Window → Window
reset w = record w {
  messages = [];
  has_more = true;
  loading_more = false;
  initial_load_done = false;
}
