-- ===== src/ChatsPage/Companions.antt =====
-- A new chat of ChatsPage.tsx and its key.
use Prim.Native.String.{◌++◌ as append}
use zero_mes.Common.{ℕ, suc, ◌≡◌, refl, true, false, none, some, ◌∷◌, arith, String, length}
use zero_mes.Crypto.Primitives.{Bytes, AreBytes, Encoding, Subtle, Curve, JsonText}
use zero_mes.Crypto.Hex.{from_hex}
use zero_mes.Crypto.Ecc.{KeyPair, generate_key_pair, derive_chat_key}
use zero_mes.Crypto.Ecc.Agreement.{
  derive_chat_key-agree, derive_chat_key-AreBytes, generate_key_pair-length,
}
use zero_mes.Crypto.Encryption as Encryption
use zero_mes.Crypto.Encryption.{
  Result, ok, err, ◌>>=◌, EncryptedMessage, is_crypto_available, encrypt_chat_key_with_private_key,
  decrypt_chat_key_with_private_key,
}
use zero_mes.Crypto.Encryption.RoundTrip.{decrypt-encrypt_chat_key_with_private_key}
use zero_mes.Dates.{Clock}
use zero_mes.ChatsPage.{Page, utf16, find_companion}
use zero_mes.ChatsPage.Keys.{companion_bytes, chat_key_with, saved_key}
use zero_mes.ChatsPage.Handlers.{User, new_key, new_chat, create_chat, open_chat, handle_new_chat}

module _ (clock : Clock) (browser : Encryption.Window) (enc : Encoding) (subtle : Subtle)
    (curve : Curve) (json : JsonText) where
  -- An encryption after which something can be read has succeeded.
  made_of :
      (r : Result EncryptedMessage) (read : String → Result Bytes) (k : Bytes)
      → (r >>= λ e. read e.ciphertext) ≡ ok k
      → (e : EncryptedMessage) × (r ≡ ok e) × (read e.ciphertext ≡ ok k)
  made_of (err _) read k h = let no : ⊥ = ground arith in absurd no
  made_of (ok e) read k h = (e, refl, h)

  -- A new chat with a user whom no chat is with yet: it is the first of the list and open, and what is saved as its key can be
  -- decrypted with our private key and is the key that the companion derives from our public key. Both key pairs are
  -- generated from passwords, the nonce has 12 bytes, Web Crypto is available and the server saves the key.
  pub handle_new_chat-key :
      (p q : String) (m n : ℕ) (mine theirs : KeyPair) (nonce k : Bytes) (now : String)
      (user : User) (page : Page)
      → is_crypto_available browser ≡ true
      → generate_key_pair enc curve p (suc m) ≡ some mine
      → generate_key_pair enc curve q n ≡ some theirs
      → from_hex (utf16 user.public_key) ≡ theirs.public_key
      → derive_chat_key enc curve theirs.private_key mine.public_key ≡ some k
      → AreBytes nonce
      → length nonce ≡ 12
      → find_companion user.id page.chats ≡ none
      → (saved : String) × (handle_new_chat clock browser enc subtle curve json nonce
            (some mine.private_key)
            true
            now
            user
            page
          ≡ record page {
            chats = new_chat clock browser enc subtle curve json user now saved ∷ page.chats;
            selected_chat_id = some (append "temp-" user.id);
            show_search = false;
          })
        × (decrypt_chat_key_with_private_key browser enc subtle saved mine.private_key ≡ ok k)
  unfolding handle_new_chat open_chat create_chat new_key companion_bytes chat_key_with saved_key
  handle_new_chat-key p q m n mine theirs nonce k now user page available gm gt public made bytes
        twelve new =
      let agree = derive_chat_key-agree enc curve p q (suc m) n mine theirs gm gt in
      let key_bytes =
        derive_chat_key-AreBytes enc curve theirs.private_key mine.public_key k made in
      let size = (generate_key_pair-length enc curve p m mine gm).0 in
      let back =
        decrypt-encrypt_chat_key_with_private_key browser enc subtle available nonce k
          mine.private_key bytes key_bytes twelve size in
      let (e, sealed, opened) =
        made_of (encrypt_chat_key_with_private_key browser enc subtle nonce k mine.private_key)
          (λ c. decrypt_chat_key_with_private_key browser enc subtle c mine.private_key) k back in
      (e.ciphertext, rw (new, public, agree, made, sealed), opened)
