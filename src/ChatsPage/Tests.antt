-- ===== src/ChatsPage/Tests.antt =====
-- The theorems on the page of chats at small lists; the time of a text is its length here.
use zero_mes.Common.{
  ◌≡◌, refl, String, true, false, Option, none, some, [], ◌∷◌, length, replicate, arith,
}
use zero_mes.Crypto.Primitives.{Bytes}
use zero_mes.Crypto.Hex.{from_hex, to_hex}
use zero_mes.Crypto.Ecc.{KeyPair, generate_key_pair, derive_chat_key}
use zero_mes.Crypto.Encryption as Encryption
use zero_mes.Crypto.Encryption.{
  Result, ok, EncryptedMessage, to_json, is_crypto_available, encrypt_message,
  decrypt_chat_key_with_private_key,
}
use zero_mes.Crypto.Samples.{plain_encoding, plain_subtle, toy_curve, toy_json}
use zero_mes.Dates.{Clock}
use zero_mes.ChatsPage.{Chat, Page, utf16, preview, find_chat, find_companion}
use zero_mes.ChatsPage.Chats.{time}
use mathlib.Core.List.{Nodup-cons}
use mathlib.Core.List.Pairwise
use zero_mes.ChatsPage.Keys.{load_chats}
use zero_mes.ChatsPage.Kept.{not_mem-companions}
use zero_mes.ChatsPage.Each.{IsOneEach}
use zero_mes.ChatsPage.Small.{IsSmall, Reach-IsSmall}
use zero_mes.ChatsPage.Reachable.{Step, Reach, Reach-IsOneEach}
use zero_mes.ChatsPage.Handlers.{
  Payload, Server, User, read_message, on_known_chat, on_message_sent, on_new_message,
  handle_new_chat,
}
use zero_mes.ChatsPage.Order.{IsTimed, AreEarlier, IsDescending}
use zero_mes.ChatsPage.Sorted.{on_message_sent-IsSorted}
use zero_mes.ChatsPage.First.{IsLatest, on_known_chat-first}
use zero_mes.ChatsPage.Preview.{read_message-companion}
use zero_mes.ChatsPage.Processed.{on_new_message-again}
use zero_mes.ChatsPage.Companions.{handle_new_chat-key}

abbrev clock : Clock
clock = record {
  parse = λ s. some (length s);
  now = 0;
  local = λ t. record { full_year = t; month = 0; date = 0 };
  hours = λ t. 0;
  minutes = λ t. 0;
  day_before = λ t. t;
}

abbrev chat : (id companion at : String) → Chat
chat id companion at = record {
  id = id;
  user_id = "me";
  companion_id = companion;
  companion_login = none;
  created_at = "";
  last_message_at = at;
  encrypted_key = "k";
  key_iv = "";
  last_message = none;
  last_message_preview = none;
  is_online = none;
  unread_count = some 2;
}

abbrev anna : Chat
anna = chat "a" "anna" "333"

abbrev boris : Chat
boris = chat "b" "boris" "22"

abbrev page : Page
page = record {
  chats = anna ∷ boris ∷ [];
  selected_chat_id = some "a";
  show_search = true;
  loading = false;
  ws_connected = true;
  chat_update_trigger = 0;
  processed_messages = [];
  route = none;
  alerts = [];
}

abbrev browser : Encryption.Window
browser = record { defined = true; has_crypto = true; has_subtle = true; secure = true }

abbrev nonce : Bytes
nonce = replicate 12 1

abbrev key : Bytes
key = replicate 32 32

abbrev pair : KeyPair
pair = record { private_key = key; public_key = key; auth_hash = to_hex key }

abbrev hex : String
hex = "2020202020202020202020202020202020202020202020202020202020202020"

abbrev sample_payload : (id : Option String) (content : String) → Payload
sample_payload id content = record {
  id = id;
  chat_id = some "b";
  sender_id = "boris";
  encrypted_content = content;
  timestamp = some "4444";
  created_at = none;
}

abbrev server : Server
server = record {
  public_key = some hex;
  saved = true;
  chats = none;
  answers = λ c. record {
    key_of_companion = none;
    saved = false;
    login = none;
    key_for_preview = none;
    nonce = [];
  };
}

abbrev sealed_hi : EncryptedMessage
sealed_hi = record {
  ciphertext = plain_encoding.btoa (plain_encoding.encode "hi");
  nonce = plain_encoding.btoa nonce;
}

abbrev content : String
content = toy_json.stringify (to_json sealed_hi)

read_message-companion_example :
    read_message clock browser plain_encoding plain_subtle toy_curve toy_json key (some hex) content
    ≡ ok (104 ∷ 105 ∷ [])
unfolding is_crypto_available generate_key_pair derive_chat_key encrypt_message
    Encryption.get_crypto_subtle Encryption.array_buffer_to_base64 from_hex utf16 preview toy_curve
    plain_subtle
read_message-companion_example =
    read_message-companion browser plain_encoding plain_subtle toy_curve toy_json clock "mine"
      "theirs" 3 3 pair pair key nonce "hi" hex sealed_hi refl refl refl refl refl (omega arith)
      refl

read_test :
    read_message clock browser plain_encoding plain_subtle toy_curve toy_json key (some hex) content
    ≡ ok (104 ∷ 105 ∷ [])
unfolding is_crypto_available generate_key_pair derive_chat_key encrypt_message
    Encryption.get_crypto_subtle Encryption.array_buffer_to_base64 from_hex utf16 preview toy_curve
    plain_subtle
read_test =
    read_message-companion browser plain_encoding plain_subtle toy_curve toy_json clock "mine"
      "theirs" 3 3 pair pair key nonce "hi" hex sealed_hi refl refl refl refl refl (omega arith)
      refl

on_known_chat-first_example :
    (on_known_chat clock browser plain_encoding plain_subtle toy_curve toy_json key server "" "b"
      (sample_payload none content)
      page).chats
    ≡ record boris {
      last_message_preview = some (104 ∷ 105 ∷ []);
      last_message_at = "4444";
      unread_count = some 3;
    }
      ∷ anna
      ∷ []
unfolding find_chat AreEarlier IsDescending IsLatest time
on_known_chat-first_example =
    on_known_chat-first clock browser plain_encoding plain_subtle toy_curve toy_json key server ""
      "b" (sample_payload none content) page boris (104 ∷ 105 ∷ []) refl ((refl, tt), (tt, tt))
      ((refl, tt), (tt, tt)) read_test (refl, tt)

-- A second message without an id is not seen: the client reads `id`, and the server sends `message_id`.
on_new_message-again_example :
    on_new_message clock browser plain_encoding plain_subtle toy_curve toy_json [] key server ""
      (sample_payload none "second")
      (on_new_message clock browser plain_encoding plain_subtle toy_curve toy_json [] key server ""
        (sample_payload none content)
        page)
    ≡ on_new_message clock browser plain_encoding plain_subtle toy_curve toy_json [] key server ""
        (sample_payload none content)
        page
on_new_message-again_example =
    on_new_message-again clock browser plain_encoding plain_subtle toy_curve toy_json [] [] key
      server server "" "" "b" (sample_payload none content) (sample_payload none "second") page refl
      refl refl refl

abbrev user : User
user = record { id = "carl"; login = "carl"; public_key = hex }

abbrev empty_page : Page
empty_page = record page { chats = []; loading = true }

Reach-IsOneEach_example :
    IsOneEach
      (handle_new_chat clock browser plain_encoding plain_subtle toy_curve toy_json nonce
        (some key)
        true
        ""
        user
        (load_chats browser plain_encoding plain_subtle toy_curve toy_json
          (some key)
          server.answers
          (some (anna ∷ boris ∷ []))
          empty_page)).chats
unfolding find_companion
Reach-IsOneEach_example =
    Reach-IsOneEach clock browser plain_encoding plain_subtle toy_curve toy_json (
      Reach.later
        (Reach.later (Reach.start empty_page refl refl) (
          Step.load (some key) server.answers (some (anna ∷ boris ∷ [])) (
            Nodup-cons.1 (
              not_mem-companions "anna" (boris ∷ []) refl,
              Nodup-cons.1 (not_mem-companions "boris" [] refl, Pairwise.nil),
            ))))
        (Step.begin_chat nonce (some key) true "" user))

handle_new_chat-key_example :
    (saved : String) × (decrypt_chat_key_with_private_key browser plain_encoding plain_subtle saved
        key
      ≡ ok key)
unfolding is_crypto_available generate_key_pair derive_chat_key from_hex utf16 find_companion
    toy_curve
handle_new_chat-key_example =
    let made =
      handle_new_chat-key clock browser plain_encoding plain_subtle toy_curve toy_json "mine"
        "theirs" 2 3 pair pair nonce key "" user page refl refl refl refl refl (omega arith) refl
        refl in
    (made.0, made.2)

on_message_sent-IsSorted_example :
    IsDescending clock
      (on_message_sent clock browser plain_encoding plain_subtle toy_curve toy_json key server ""
        (sample_payload none content)
        page).chats
unfolding IsTimed AreEarlier IsDescending time
on_message_sent-IsSorted_example =
    (on_message_sent-IsSorted clock browser plain_encoding plain_subtle toy_curve toy_json key
      server "" (sample_payload none content) page refl (refl, (refl, tt)) ((refl, tt), (tt, tt))).0

Reach-IsSmall_example : IsSmall (
    on_new_message clock browser plain_encoding plain_subtle toy_curve toy_json [] key server ""
      (sample_payload none content)
      (on_new_message clock browser plain_encoding plain_subtle toy_curve toy_json [] key server ""
        (sample_payload (some "7") content)
        empty_page))
Reach-IsSmall_example =
    Reach-IsSmall clock browser plain_encoding plain_subtle toy_curve toy_json (λ chats. Unit)
      (Reach.later
        (Reach.later (Reach.start empty_page refl refl)
          (Step.receive [] key server "" (sample_payload (some "7") content) tt))
        (Step.receive [] key server "" (sample_payload none content) tt))
