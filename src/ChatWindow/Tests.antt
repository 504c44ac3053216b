-- ===== src/ChatWindow/Tests.antt =====
-- The theorems on a chat window at a small chat of two messages, one of each side.
use zero_mes.Common.{◌≡◌, refl, String, true, none, some, List, [], ◌∷◌, replicate, is_space, arith}
use zero_mes.Crypto.Primitives.{Bytes, two_texts}
use zero_mes.Crypto.Encryption as Encryption
use zero_mes.Crypto.Encryption.{Result, ok, is_crypto_available, encrypt_message}
use zero_mes.Crypto.Samples.{plain_encoding, plain_subtle, toy_json}
use zero_mes.ChatWindow.{Message, text, Chat, Window, mounted, exists, insert_new, mark_read}
use zero_mes.ChatWindow.Frames.{
  NewMessage, new_message, message_deleted, message_read, insert, remove, mark, apply_change,
  apply_changes,
}
use zero_mes.ChatWindow.Actions.{
  is_blank, Sending, begin_send, end_send, seal, temporary, send_request,
}
use zero_mes.ChatWindow.Unique.{IsUnique, apply_changes-IsUnique}
use zero_mes.ChatWindow.Reading.{mark_until, mark_read-mark_until}
use zero_mes.ChatWindow.Sending.{end_send-failed, end_send-succeeded}
use zero_mes.ChatWindow.View.{view, said, withdrew, quiet}
use zero_mes.ChatWindow.Carried.{carries_said, carries_receipt, carries_withdrew}
use zero_mes.ChatWindow.Refinement.{story_ends, story_begins, story_comes, occur_all-tell_all}
use zero_mes.ChatWindow.Awaiting.{Occurrence, arrives, ends, occur_all}

abbrev chat : Chat
chat = record { id = "anna_boris"; user_id = "anna"; companion_id = "boris"; encrypted_key = "k" }

abbrev key : Bytes
key = replicate 32 7

abbrev nonce : Bytes
nonce = replicate 12 1

abbrev browser : Encryption.Window
browser = record { defined = true; has_crypto = true; has_subtle = true; secure = true }

abbrev message : (id sender plain : String) → Message
message id sender plain = record {
  id = id;
  chat_id = "anna_boris";
  sender_id = sender;
  recipient_id = "boris";
  encrypted_content = "";
  message_type = "text";
  created_at = "";
  status = text "sent";
  local_status = none;
  decrypted_content = some plain;
}

abbrev ours : Message
ours = message "m1" "anna" "hello"

abbrev theirs : Message
theirs = message "m2" "boris" "hi"

abbrev window : Window
unfolding mounted
window = record (mounted chat) { messages = ours ∷ []; message_text = "well"; chat_key = some key }

apply_changes-IsUnique_example :
    IsUnique
      (apply_changes (insert theirs ∷ insert theirs ∷ mark "m1" ∷ remove "m1" ∷ []) window).messages
unfolding window exists
apply_changes-IsUnique_example =
    apply_changes-IsUnique (insert theirs ∷ insert theirs ∷ mark "m1" ∷ remove "m1" ∷ []) window
      (refl, tt)

mark_read-mark_until_example :
    mark_read "boris" "m2" (ours ∷ theirs ∷ ours ∷ [])
    ≡ mark_until "boris" "m2" (ours ∷ theirs ∷ ours ∷ [])
mark_read-mark_until_example = mark_read-mark_until "boris" "m2" (ours ∷ theirs ∷ ours ∷ [])

-- What seal makes of "hi" here.
abbrev sealed_hi : String
sealed_hi =
    toy_json.stringify
      (two_texts (plain_encoding.btoa (plain_encoding.encode "hi")) (plain_encoding.btoa nonce))

sealed_hi_lem : seal browser plain_encoding plain_subtle toy_json nonce "hi" key ≡ ok sealed_hi
unfolding seal is_crypto_available encrypt_message plain_subtle Encryption.get_crypto_subtle
    Encryption.array_buffer_to_base64
sealed_hi_lem = refl

abbrev sample_payload : NewMessage
sample_payload = record {
  id = none;
  message_id = some "m2";
  chat_id = some "anna_boris";
  sender_id = some "boris";
  encrypted_content = some sealed_hi;
  timestamp = none;
  created_at = none;
}

-- The withdrawal of "m2" overtakes its decryption, and "m2" stays.
abbrev occurrences : List Occurrence
occurrences =
    arrives "" (new_message (some sample_payload))
    ∷ arrives "" (message_read (some "anna_boris") (some "m1"))
    ∷ arrives "" (message_deleted (some "m2"))
    ∷ arrives "" (message_deleted (some "m1"))
    ∷ ends 0 ""
    ∷ []

occur_all-tell_all_example :
    view
      (occur_all browser plain_encoding plain_subtle toy_json occurrences
        (record { window = window; awaiting = [] })).window.messages
    ≡ record { id = "m2"; text = some "hi" } ∷ []
unfolding is_crypto_available window
occur_all-tell_all_example =
    occur_all-tell_all browser plain_encoding plain_subtle toy_json refl key refl chat window refl
      refl
      (story_begins "" (new_message (some sample_payload)) (said "m2" "hi")
        (carries_said sample_payload "m2" "hi" sealed_hi nonce refl refl refl refl (omega arith)
          sealed_hi_lem)
        (story_begins "" (message_read (some "anna_boris") (some "m1")) quiet
          (carries_receipt (some "anna_boris") (some "m1"))
          (story_begins "" (message_deleted (some "m2")) (withdrew "m2")
            (carries_withdrew "m2" refl)
            (story_begins "" (message_deleted (some "m1")) (withdrew "m1")
              (carries_withdrew "m1" refl) (story_comes 0 "" story_ends)))))

abbrev sending : Sending
sending = record {
  temp_id = "temp-7";
  content = "well";
  request = send_request chat (seal browser plain_encoding plain_subtle toy_json nonce "well" key);
}

abbrev sent_window : Window
unfolding window
sent_window = record window {
  messages = ours ∷ temporary chat "temp-7" "now" "well" ∷ [];
  message_text = "";
}

begin_send_test :
    begin_send browser plain_encoding plain_subtle toy_json nonce "7" "now" window
    ≡ some (sent_window, sending)
unfolding begin_send is_blank window is_space
begin_send_test = refl

end_send-failed_example :
    end_send sending none (apply_changes (insert theirs ∷ []) sent_window)
    ≡ record (apply_changes (insert theirs ∷ []) window) { message_text = "well" }
unfolding exists window
end_send-failed_example =
    end_send-failed browser plain_encoding plain_subtle toy_json nonce "7" "now" window sent_window
      sending (insert theirs ∷ []) begin_send_test refl (refl, tt)

end_send-succeeded_example :
    exists "m3"
      (end_send sending
        (some (message "m3" "anna" ""))
        (apply_changes (insert theirs ∷ []) sent_window)).messages
    ≡ true
unfolding exists apply_changes apply_change insert_new window
end_send-succeeded_example =
    (end_send-succeeded browser plain_encoding plain_subtle toy_json nonce "7" "now" window
      sent_window sending (insert theirs ∷ []) (message "m3" "anna" "") begin_send_test refl
      (refl, tt) refl refl).0
