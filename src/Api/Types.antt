-- ===== src/Api/Types.antt =====
-- src/frontend/src/types/api.ts: what the client sends. What it receives is JSON that the code casts
-- without a check, and stays a `Json` here.
use zero_mes.Common.{ℕ, String, Option, none, some, List, [], ◌∷◌}
use zero_mes.Json.{Json, str, arr, obj, Items, nil, cons, Fields, field, end}

pub record RegisterRequest : Type 0 where
  pub login : String
  pub auth_hash : String
  pub public_key : String

pub record LoginRequest : Type 0 where
  pub login : String
  pub auth_hash : String

pub record ChatKeyUpdate : Type 0 where
  pub companion_id : String
  pub encrypted_key : String
  pub key_iv : String

pub record ChangePasswordRequest : Type 0 where
  pub login : String
  pub old_auth_hash : String
  pub new_auth_hash : String
  pub new_public_key : String
  pub chat_keys : Option (List ChatKeyUpdate)

pub record SendMessageRequest : Type 0 where
  pub chat_id : String
  pub recipient_id : String
  pub encrypted_content : String
  pub message_type : String

pub record GetMessagesRequest : Type 0 where
  pub chat_id : String
  pub limit : Option ℕ
  pub last_message_id : Option String

pub record SaveChatKeysRequest : Type 0 where
  pub user_id : String
  pub companion_id : String
  pub encrypted_key : String
  pub key_iv : String

-- The objects as they are stringified; a field that is `undefined` is left out.
abbrev text : String → String → Fields → Fields
text name s rest = field name (str s) rest

abbrev pub register_json : RegisterRequest → Json
register_json d =
    obj (text "login" d.login (text "auth_hash" d.auth_hash (text "public_key" d.public_key end)))

abbrev pub login_json : LoginRequest → Json
login_json d = obj (text "login" d.login (text "auth_hash" d.auth_hash end))

abbrev pub key_json : ChatKeyUpdate → Json
key_json k = obj (
    text "companion_id" k.companion_id
      (text "encrypted_key" k.encrypted_key (text "key_iv" k.key_iv end)))

abbrev pub keys_json : List ChatKeyUpdate → Items
keys_json [] = nil
keys_json (k ∷ ks) = cons (key_json k) (keys_json ks)

abbrev optional_keys : Option (List ChatKeyUpdate) → Fields
optional_keys none = end
optional_keys (some ks) = field "chat_keys" (arr (keys_json ks)) end

abbrev pub change_password_json : ChangePasswordRequest → Json
change_password_json d = obj (
    text "login" d.login (
      text "old_auth_hash" d.old_auth_hash (
        text "new_auth_hash" d.new_auth_hash
          (text "new_public_key" d.new_public_key (optional_keys d.chat_keys)))))
