-- ===== src/Api/Auth.antt =====
-- src/frontend/src/lib/api/auth.ts, and updateChatKeys of messages.ts: the calls over HTTP.
use zero_mes.Common.{
  ◌==◌, String, Bool, true, false, none, some, List, [], ◌∷◌, ◌||◌, not, if◌then◌else◌,
}
use zero_mes.Json.{
  num, get_field, Json, Value, str, arr, obj, nil, cons, field, end, member, truthy,
}
use zero_mes.Api.Types.{
  RegisterRequest, LoginRequest, ChangePasswordRequest, ChatKeyUpdate, register_json, login_json,
  change_password_json, keys_json,
}
use zero_mes.Api.Http.{
  type_error, user_not_found, Result, ok, err, ◌>>=◌, Network, no_config, get, post, put,
}

-- `v.name`, where `null` throws
abbrev read : String → Value → Result Value
read name v = elim (member name v) [ none ↦ err type_error | some w ↦ ok w ]

abbrev is_zero : Value → Bool
is_zero (some (num n)) = n == 0
is_zero _ = false

-- `!users || users.length === 0`
unfoldable pub is_missing : Value → Bool
is_missing users = not (truthy users) || elim users [
  | some (arr nil) ↦ true
  | some (obj fs) ↦ is_zero (get_field "length" fs)
  | _ ↦ false
]

-- `users[0]`
unfoldable pub first_item : Value → Value
first_item (some (arr (cons j _))) = some j
first_item (some (str (String.◌∷◌ c s))) = some (str (String.◌∷◌ c String.[]))
first_item (some (obj fs)) = get_field "0" fs
first_item _ = none

module _ (net : Network) where
  unfoldable pub register : RegisterRequest → Result Json
  register input = post net "/auth/register" (some (register_json input)) no_config

  unfoldable pub login : LoginRequest → Result Json
  login input = post net "/auth/login" (some (login_json input)) no_config

  unfoldable pub refresh_token : Result Json
  refresh_token = post net "/auth/refresh" none no_config

  unfoldable pub logout : Result (Unit {0})
  logout = do answer ← post net "/auth/logout" none no_config; ok tt

  unfoldable pub search_users : String → Result Value
  search_users query = do
    response ← get net "/auth/search" (record no_config { params = some (("login", query) ∷ []) })
    read "users" (some response)

  unfoldable pub change_password : ChangePasswordRequest → Result Json
  change_password input =
      post net "/auth/change-password" (some (change_password_json input)) no_config

  unfoldable pub get_user_public_key : String → Result Value
  unfolding is_missing first_item
  get_user_public_key user_id = do
    response ← get net "/auth/search" (record no_config { params = some (("id", user_id) ∷ []) })
    users ← read "users" (some response)
    if is_missing users then err (user_not_found user_id) else read "public_key" (first_item users)

  unfoldable pub update_chat_keys : List ChatKeyUpdate → Result Json
  update_chat_keys keys =
      put net "/chats/keys" (some (obj (field "keys" (arr (keys_json keys)) end))) no_config
