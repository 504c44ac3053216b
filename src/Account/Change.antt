-- ===== src/Account/Change.antt =====
-- src/frontend/src/pages/ChangePasswordPage.tsx: the new keys of the user and of the chats; and the search of
-- components/SearchModal.tsx.
use zero_mes.Common.{
  ℕ, String, Bool, true, false, not, Option, none, some, List, [], ◌∷◌, ◌||◌, str_eq, non_empty,
  get_item, if◌then◌else◌,
}
use zero_mes.Json.{Json, Value, Items, arr, nil}
use zero_mes.Crypto.Primitives.{Bytes, Encoding, Subtle, Curve}
use zero_mes.Crypto.Hex.{to_hex}
use zero_mes.Crypto.Ecc.{KeyPair, generate_key_pair}
use zero_mes.Crypto.Encryption as Encryption
use zero_mes.Crypto.Encryption.{
  EncryptedMessage, ◌>>=◌, decrypt_chat_key_with_private_key, encrypt_chat_key_with_private_key,
}
use zero_mes.Crypto.Samples.Texts.{text_of}
use zero_mes.Crypto.Storage.{Store, Browser, bytes_at, restore_private_key, clear_keys}
use zero_mes.Api.Types.{ChatKeyUpdate}
use zero_mes.Api.Http as Http
use zero_mes.Api.Http.{Network, Error}
use zero_mes.Api.Auth.{change_password, search_users}
use zero_mes.Logout.{perform_logout}
use zero_mes.ChatWindow.Actions.{is_blank}
use zero_mes.Account.{
  Notice, nothing, notice, no_point, no_chats, rejected, is_nothing, iterations, is_short, Form,
  keep_key,
}

-- A chat as getChats gives it: what the change of a password reads.
pub record KeyOf : Type 0 where
  pub companion_id : String
  pub encrypted_key : String

unfoldable pub check_change : Form → Notice
unfolding is_short
check_change f =
    if not (non_empty f.old_password) || not (non_empty f.password)
    then notice "All fields are required"
    else if is_short f.password
    then notice "New password must be at least 8 characters"
    else if not (str_eq f.password f.confirm_password)
    then notice "New passwords do not match"
    else if str_eq f.old_password f.password
    then notice "New password must be different from old password"
    else nothing

abbrev some_keys : List ChatKeyUpdate → Option (List ChatKeyUpdate)
some_keys [] = none
some_keys (k ∷ ks) = some (k ∷ ks)

module _ (enc : Encoding) (subtle : Subtle) (curve : Curve) where
  -- The key of one chat, decrypted with the old private key and encrypted with the new one.
  unfoldable pub renewed :
      (window : Encryption.Window) (nonce old_key new_key : Bytes)
      → KeyOf
      → Encryption.Result EncryptedMessage
  renewed window nonce old_key new_key c = do
    chat_key ← decrypt_chat_key_with_private_key window enc subtle c.encrypted_key old_key
    encrypt_chat_key_with_private_key window enc subtle nonce chat_key new_key

  abbrev pushed :
      KeyOf → Encryption.Result EncryptedMessage → List ChatKeyUpdate → List ChatKeyUpdate
  pushed c (Encryption.err _) rest = rest
  pushed c (Encryption.ok e) rest =
      record { companion_id = c.companion_id; encrypted_key = e.ciphertext; key_iv = "" } ∷ rest

  -- The loop over the chats; `nonces` are drawn one by one.
  unfoldable pub renew :
      (window : Encryption.Window) (nonces : KeyOf → Bytes) (old_key new_key : Bytes)
      → List KeyOf
      → List ChatKeyUpdate
  unfolding renewed
  renew window nonces old_key new_key [] = []
  renew window nonces old_key new_key (c ∷ cs) =
      pushed c (renewed window (nonces c) old_key new_key c)
        (renew window nonces old_key new_key cs)

  abbrev refused : Form → Notice → Form
  refused f n = record f { error = n; loading = false }

  -- From the answer of the server on: the old keys are cleared and the new one is kept.
  abbrev changed : Browser → KeyPair → Form → Http.Result Json → Form
  unfolding clear_keys keep_key
  changed b pair f (Http.err e) = refused f (rejected e)
  changed b pair f (Http.ok _) = record f {
    app = record f.app {
      store =
          keep_key enc subtle curve b pair.private_key true (clear_keys enc subtle b f.app.store);
    };
    route = some "/login";
    loading = false;
  }

  abbrev asking_change :
      Network
      → Browser
      → (KeyOf → Bytes)
      → Form
      → Bytes
      → KeyPair
      → KeyPair
      → String
      → Option (List KeyOf)
      → Form
  unfolding changed renew change_password
  asking_change net b nonces f old_key old_pair new_pair user none = refused f no_chats
  asking_change net b nonces f old_key old_pair new_pair user (some chats) = changed b new_pair f (
      change_password net (record {
        login = user;
        old_auth_hash = text_of old_pair.auth_hash;
        new_auth_hash = text_of new_pair.auth_hash;
        new_public_key = text_of (to_hex new_pair.public_key);
        chat_keys = some_keys (renew b.window nonces old_key new_pair.private_key chats);
      }))

  -- The login is kept in `localStorage`.
  abbrev named :
      Network
      → Browser
      → (KeyOf → Bytes)
      → Form
      → Bytes
      → Option (List KeyOf)
      → KeyPair
      → KeyPair
      → Option String
      → Form
  unfolding asking_change
  named net b nonces f old_key chats old_pair new_pair none =
      refused f (notice "User login not found. Please login again.")
  named net b nonces f old_key chats old_pair new_pair (some user) =
      if non_empty user
      then asking_change net b nonces f old_key old_pair new_pair user chats
      else refused f (notice "User login not found. Please login again.")

  abbrev with_pairs :
      Network
      → Browser
      → (KeyOf → Bytes)
      → Form
      → Bytes
      → Option (List KeyOf)
      → Option KeyPair
      → Option KeyPair
      → Form
  unfolding named
  with_pairs net b nonces f old_key chats none _ = refused f no_point
  with_pairs net b nonces f old_key chats (some _) none = refused f no_point
  with_pairs net b nonces f old_key chats (some old_pair) (some new_pair) =
      named net b nonces f old_key chats old_pair new_pair
        (get_item f.app.store.local_storage "user_login")

  abbrev restored :
      Network → Browser → (KeyOf → Bytes) → Form → Option (List KeyOf) → Store × Option ℕ → Form
  unfolding with_pairs generate_key_pair
  restored net b nonces f chats (s, none) =
      refused (record f { app = record f.app { store = s } })
        (notice "No private key found. Please login again.")
  restored net b nonces f chats (s, some place) =
      with_pairs net b nonces (record f { app = record f.app { store = s } })
        (bytes_at s.heap place) chats (generate_key_pair enc curve f.old_password iterations)
        (generate_key_pair enc curve f.password iterations)

  -- handleSubmit; `chats` is what getChats answers, `none` where it rejects.
  unfoldable pub submit_change :
      Network → Browser → (KeyOf → Bytes) → Option (List KeyOf) → Form → Form
  unfolding check_change restored restore_private_key
  submit_change net b nonces chats f =
      if is_nothing (check_change f)
      then restored net b nonces (record f { error = nothing }) chats
          (restore_private_key enc subtle b f.app.store)
      else record f { error = check_change f }

  unfoldable pub handle_logout : Network → Browser → Form → Form
  unfolding perform_logout
  handle_logout net b f = record f {
    app = (perform_logout enc subtle net b f.app).0;
    route = some "/login";
  }

-- SearchModal: its query, its users, which are what the server sent, and whether it has searched.
pub record Search : Type 0 where
  pub query : String
  pub users : Items
  pub loading : Bool
  pub searched : Bool

-- `Array.isArray(results) ? results : []`
abbrev pub found_users : Http.Result Value → Items
found_users (Http.ok (some (arr users))) = users
found_users _ = nil

unfoldable pub handle_search : Network → Search → Search
unfolding is_blank search_users
handle_search net s = if is_blank s.query then s else record s {
  users = found_users (search_users net s.query);
  loading = false;
  searched = true;
}
