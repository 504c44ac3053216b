-- ===== src/Account.antt =====
-- The forms of src/frontend/src/pages/LoginPage.tsx and RegisterPage.tsx;
-- ChangePasswordPage.tsx is in the child Change. Console output and the delay before a redirection are not modelled.
pub mod Change
pub mod Passwords
pub mod Login
mod Tests
use Prim.Native.Char.{code}
use zero_mes.Common.{
  ℕ, String, Bool, true, false, not, Option, none, some, List, [], ◌∷◌, ◌++◌, length, ltb, ◌&&◌,
  ◌||◌, str_eq, non_empty, is_space, get_item, set_item, if◌then◌else◌,
}
use zero_mes.Json.{Json, Value, arr}
use zero_mes.Crypto.Primitives.{Bytes, Encoding, Subtle, Curve}
use zero_mes.Crypto.Hex.{to_hex}
use zero_mes.Crypto.Ecc.{KeyPair, generate_key_pair}
use zero_mes.Crypto.Encryption as Encryption
use zero_mes.Crypto.Encryption.{
  EncryptedMessage, ◌>>=◌, decrypt_chat_key_with_private_key, encrypt_chat_key_with_private_key,
}
use zero_mes.Crypto.Samples.Texts.{text_of}
use zero_mes.Crypto.Storage.{
  Store, Browser, bytes_at, save_private_key, restore_private_key, clear_keys,
}
use zero_mes.Api.Types.{LoginRequest, RegisterRequest, ChatKeyUpdate, ChangePasswordRequest}
use zero_mes.Api.Http as Http
use zero_mes.Api.Http.{Network, Error}
use zero_mes.Api.Auth.{register, login, change_password, search_users}
use zero_mes.Logout.{App, perform_logout}
use zero_mes.ChatsPage.{utf16}
use zero_mes.ChatWindow.Actions.{is_blank}

-- What setError is given: a text of the page, or the message of an error that was thrown.
pub data Notice : Type 0 where
  nothing no_point no_chats : Notice
  notice : String → Notice
  rejected : Error → Notice

abbrev pub is_nothing : Notice → Bool
is_nothing nothing = true
is_nothing _ = false

-- The default of generateKeyPair.
abbrev pub iterations : ℕ
iterations = 10000

-- `s.trim()`
unfoldable pub skip_blanks : String → String
skip_blanks String.[] = String.[]
skip_blanks (String.◌∷◌ c s) =
    let rest = skip_blanks s in if is_space (code c) then rest else String.◌∷◌ c s

unfoldable pub drop_blanks : String → String
unfolding is_blank
drop_blanks String.[] = String.[]
drop_blanks (String.◌∷◌ c s) =
    let rest = drop_blanks s in
    if is_space (code c) && is_blank s then String.[] else String.◌∷◌ c rest

unfoldable pub trimmed : String → String
unfolding skip_blanks drop_blanks
trimmed s = drop_blanks (skip_blanks s)

-- A form with its session; `password` is the new password where one is changed; `route` is where `navigate` went.
pub record Form : Type 0 where
  pub login : String
  pub password : String
  pub confirm_password : String
  pub old_password : String
  pub remember_me : Bool
  pub loading : Bool
  pub error : Notice
  pub success_message : String
  pub app : App
  pub route : Option String

-- Is a text shorter than 8 code units?
abbrev pub is_short : String → Bool
unfolding utf16
is_short s = ltb (length (utf16 s)) 8

unfoldable pub check_register : Form → Notice
unfolding is_blank is_short
check_register f =
    if is_blank f.login
    then notice "Login is required"
    else if is_short f.password
    then notice "Password must be at least 8 characters"
    else if not (str_eq f.password f.confirm_password)
    then notice "Passwords do not match"
    else nothing

unfoldable pub check_login : Form → Notice
unfolding is_blank
check_login f =
    if is_blank f.login || not (non_empty f.password)
    then notice "Please enter login and password"
    else nothing

module _ (enc : Encoding) (subtle : Subtle) (curve : Curve) where
  -- The new array of a key, and savePrivateKey.
  unfoldable pub keep_key : Browser → Bytes → Bool → Store → Store
  unfolding save_private_key
  keep_key b key remember s =
      save_private_key enc subtle b (length s.heap) remember
        (record s { heap = s.heap ++ key ∷ [] })

  unfoldable pub keep_user : Browser → KeyPair → Bool → String → Store → Store
  unfolding keep_key
  keep_user b pair remember user s =
      let kept = keep_key b pair.private_key remember s in
      record kept { local_storage = set_item "user_login" user kept.local_storage }

  -- From the answer of the server on.
  abbrev entered : Browser → KeyPair → Form → Http.Result Json → Form
  unfolding keep_user trimmed
  entered b pair f (Http.err e) = record f { error = rejected e; loading = false }
  entered b pair f (Http.ok _) = record f {
    app = record f.app { store = keep_user b pair f.remember_me (trimmed f.login) f.app.store };
    route = some "/chats";
    loading = false;
  }

  abbrev with_pair : (KeyPair → Form) → Form → Option KeyPair → Form
  with_pair go f none = record f { error = no_point; loading = false }
  with_pair go f (some pair) = go pair

  abbrev asking_login : Network → Browser → Form → KeyPair → Form
  unfolding entered login
  asking_login net b f pair =
      entered b pair f
        (login net (record { login = trimmed f.login; auth_hash = text_of pair.auth_hash }))

  unfoldable pub log_in : Network → Browser → Form → Form
  unfolding asking_login perform_logout generate_key_pair
  log_in net b f =
      let cleared = record f { app = (perform_logout enc subtle net b f.app).0 } in
      with_pair (asking_login net b cleared) cleared
        (generate_key_pair enc curve f.password iterations)

  -- LoginPage's handleSubmit
  unfoldable pub submit_login : Network → Browser → Form → Form
  unfolding check_login log_in
  submit_login net b f =
      if is_nothing (check_login f)
      then log_in net b (record f { error = nothing; success_message = "" })
      else record f { error = check_login f; success_message = "" }

  abbrev asking_register : Network → Browser → Form → KeyPair → Form
  unfolding entered register
  asking_register net b f pair = entered b pair f (
      register net (record {
        login = trimmed f.login;
        auth_hash = text_of pair.auth_hash;
        public_key = text_of (to_hex pair.public_key);
      }))

  -- RegisterPage's handleSubmit
  unfoldable pub submit_register : Network → Browser → Form → Form
  unfolding check_register asking_register generate_key_pair
  submit_register net b f =
      if is_nothing (check_register f)
      then with_pair (asking_register net b (record f { error = nothing }))
          (record f { error = nothing }) (generate_key_pair enc curve f.password iterations)
      else record f { error = check_register f }
