-- ===== src/MessageList/Tests.antt =====
-- The items of three messages on two days, and the icons.
use zero_mes.Common.{◌≡◌, refl, String, none, some, List, [], ◌∷◌, length}
use zero_mes.Dates.{Clock}
use zero_mes.ChatWindow.{Message, number, pending}
use zero_mes.MessageList.{
  messages_with_separators, get_status_icon, display_status, icon_of_text, icon_of_number,
}
use zero_mes.MessageList.Days.{show_days, group, messages_with_separators-group}

-- A day is the length of a time here.
abbrev clock : Clock
clock = record {
  parse = λ s. some (length s);
  now = 0;
  local = λ t. record { full_year = t; month = 0; date = 0 };
  hours = λ t. 0;
  minutes = λ t. 0;
  day_before = λ t. t;
}

abbrev message : (id at : String) → Message
message id at = record {
  id = id;
  chat_id = "";
  sender_id = "";
  recipient_id = "";
  encrypted_content = "";
  message_type = "text";
  created_at = at;
  status = number 2;
  local_status = none;
  decrypted_content = none;
}

abbrev three : List Message
three = message "1" "a" ∷ message "2" "b" ∷ message "3" "cc" ∷ []

messages_with_separators-group_example :
    messages_with_separators clock three ≡ show_days clock (group clock three)
messages_with_separators-group_example = (messages_with_separators-group clock three).0

icon_test :
    (get_status_icon (message "" "") ≡ " ✓✓")
    × (get_status_icon (record (message "" "") { local_status = some pending }) ≡ " pending")
unfolding get_status_icon display_status icon_of_text icon_of_number
icon_test = (refl, refl)
