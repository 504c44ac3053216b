-- ===== src/ChatsPage/Keys.antt =====
-- The keys and previews of single chats in ChatsPage.tsx, and loadChats.
use zero_mes.Common.{
  String, Bool, false, Option, none, some, List, [], ◌∷◌, map, non_empty, if◌then◌else◌,
}
use zero_mes.Json.{member}
use zero_mes.Crypto.Primitives.{Bytes, Units, Encoding, Subtle, Curve, JsonText}
use zero_mes.Crypto.Hex.{from_hex}
use zero_mes.Crypto.Ecc.{derive_chat_key}
use zero_mes.Crypto.Encryption as Encryption
use zero_mes.Crypto.Encryption.{
  Result, ok, err, bad_data, bad_key, ◌>>=◌, or_throw, decrypt_message,
  encrypt_chat_key_with_private_key,
}
use zero_mes.ChatsPage.{Chat, Page, utf16, preview}

-- What the server answers while one chat is loaded: getUserPublicKey for the key and for the preview, whether
-- saveChatKeys succeeds, and the login of a user that was found; `nonce` is drawn for the key.
pub record Answers : Type 0 where
  pub key_of_companion : Option String
  pub saved : Bool
  pub login : Option (Option String)
  pub key_for_preview : Option String
  pub nonce : Bytes

-- updatedChat, companionPubKeyBytes and chatKey
pub record Loaded : Type 0 where
  pub chat : Chat
  pub companion_key : Option Bytes
  pub chat_key : Option Bytes

-- '[Encrypted]'
abbrev pub encrypted_text : Units
encrypted_text = 91 ∷ 69 ∷ 110 ∷ 99 ∷ 114 ∷ 121 ∷ 112 ∷ 116 ∷ 101 ∷ 100 ∷ 93 ∷ []

abbrev pub with_login : Option (Option String) → Chat → Chat
with_login none c = c
with_login (some login) c = record c { companion_login = login }

-- The `catch` of a preview.
abbrev pub with_preview : Result Units → Chat → Chat
with_preview (ok text) c = record c { last_message_preview = some text }
with_preview (err _) c = record c { last_message_preview = some encrypted_text }

-- `a || fetch()` for a value that may be null
abbrev pub or_else {ℓ} : {A : Type ℓ} → Option A → Result A → Result A
or_else none r = r
or_else (some a) r = ok a

module _ (browser : Encryption.Window) (enc : Encoding) (subtle : Subtle) (curve : Curve)
    (json : JsonText) where
  -- fromHex(companionPublicKey)
  unfoldable pub companion_bytes : Option String → Result Bytes
  unfolding utf16 from_hex
  companion_bytes answer = do
    public_key ← or_throw answer bad_data
    ok (from_hex (utf16 public_key))

  -- deriveChatKey
  unfoldable pub chat_key_with : (private_key companion_key : Bytes) → Result Bytes
  unfolding derive_chat_key
  chat_key_with private_key companion_key =
      or_throw (derive_chat_key enc curve private_key companion_key) bad_key

  -- The ciphertext that is saved for a chat key.
  unfoldable pub saved_key : (nonce private_key chat_key : Bytes) → Result String
  saved_key nonce private_key chat_key = do
    e ← encrypt_chat_key_with_private_key browser enc subtle nonce chat_key private_key
    ok e.ciphertext

  -- A message in JSON, decrypted and cut.
  unfoldable pub read_preview : String → Bytes → Result Units
  unfolding member decrypt_message utf16 preview
  read_preview content chat_key = do
    encrypted_data ← or_throw (json.parse content) bad_data
    ciphertext ← or_throw (member "ciphertext" (some encrypted_data)) bad_data
    nonce ← or_throw (member "nonce" (some encrypted_data)) bad_data
    decrypted ←
        decrypt_message browser enc subtle (json.to_text ciphertext) (json.to_text nonce) chat_key
    ok (preview (utf16 decrypted))

  -- The key of a chat that has one from the server, or whose saved key is `e`.
  abbrev pub with_key : Bool → Chat → Result String → Chat
  with_key saved c (err _) = c
  with_key saved c (ok ciphertext) = if saved then record c { encrypted_key = ciphertext } else c

  unfoldable pub keyed : Bytes → Answers → Chat → Bytes → Result Bytes → Loaded
  unfolding saved_key
  keyed private_key a c companion_key (err _) = record {
    chat = c;
    companion_key = some companion_key;
    chat_key = none;
  }
  keyed private_key a c companion_key (ok k) = record {
    chat = with_key a.saved c (saved_key a.nonce private_key k);
    companion_key = some companion_key;
    chat_key = some k;
  }

  unfoldable pub fetched : Bytes → Answers → Chat → Result Bytes → Loaded
  unfolding keyed chat_key_with
  fetched private_key a c (err _) = record { chat = c; companion_key = none; chat_key = none }
  fetched private_key a c (ok companion_key) =
      keyed private_key a c companion_key (chat_key_with private_key companion_key)

  -- A chat without a key gets one.
  unfoldable pub generate_key : Bytes → Answers → Chat → Loaded
  unfolding fetched companion_bytes
  generate_key private_key a c =
      if non_empty c.encrypted_key
      then record { chat = c; companion_key = none; chat_key = none }
      else fetched private_key a c (companion_bytes a.key_of_companion)

  -- The preview of the last message; the keys that are there are used again.
  unfoldable pub last_preview : Bytes → Answers → Loaded → String → Result Units
  unfolding companion_bytes chat_key_with read_preview
  last_preview private_key a l content = do
    companion_key ← or_else l.companion_key (companion_bytes a.key_for_preview)
    chat_key ← or_else l.chat_key (chat_key_with private_key companion_key)
    read_preview content chat_key

  unfoldable pub previewed : Bytes → Answers → Loaded → Option String → Chat → Chat
  unfolding last_preview
  previewed private_key a l none c = c
  previewed private_key a l (some content) c =
      if non_empty content then with_preview (last_preview private_key a l content) c else c

  unfoldable pub load_chat : Bytes → Answers → Chat → Chat
  unfolding generate_key previewed
  load_chat private_key a c =
      let l = generate_key private_key a c in
      previewed private_key a l c.last_message (with_login a.login l.chat)

  -- loadChats; `none` is getChats that rejects, and a private key that is not there.
  unfoldable pub load_chats : Option Bytes → (Chat → Answers) → Option (List Chat) → Page → Page
  unfolding load_chat
  load_chats key answers none page = record page { loading = false }
  load_chats none answers (some chats) page = record page { chats = chats; loading = false }
  load_chats (some private_key) answers (some chats) page = record page {
    chats = map (λ c. load_chat private_key (answers c) c) chats;
    loading = false;
  }
