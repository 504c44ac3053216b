-- ===== src/Crypto/Encryption.antt =====
-- src/frontend/src/lib/crypto/encryption.ts, utils.ts and messageDecryption.ts. A function that draws
-- random bytes takes them as arguments. A promise that rejects is `err`.
pub mod RoundTrip
pub mod Opened
use zero_mes.Common.{
  ℕ, zero, suc, ◌+◌, ◌%◌, String, Bool, true, false, Option, none, some, List, [], ◌∷◌, ◌++◌,
  length, take, drop, replicate, set, if◌then◌else◌,
}
use zero_mes.Json.{Json, Value, str, obj, field, end, member}
use zero_mes.Crypto.Primitives.{Bytes, Encoding, Subtle, JsonText, two_texts}

-- Web Crypto API is not available; crypto.subtle is undefined; a key that importKey refuses; atob's
-- InvalidCharacterError; decrypt's OperationError; 'Failed to decrypt message…'.
pub data CryptoError : Type 0 where
  unavailable not_an_object bad_key bad_base64 bad_data decryption_failed : CryptoError

pub data Result {ℓ} (A : Type ℓ) : Type ℓ where
  ok : A → Result A
  err : CryptoError → Result A

infixl 5 ◌>>=◌ ◌>>◌
abbrev pub ◌>>=◌ {ℓ κ} : {A : Type ℓ} {B : Type κ} → Result A → (A → Result B) → Result B
ok a >>= f = f a
err e >>= f = err e

abbrev pub ◌>>◌ {ℓ κ} : {A : Type ℓ} {B : Type κ} → Result A → Result B → Result B
m >> k = m >>= λ _. k

abbrev pub or_throw {ℓ} : {A : Type ℓ} → Option A → CryptoError → Result A
or_throw none e = err e
or_throw (some a) e = ok a

-- `try { … } catch { throw e }`
abbrev pub catching {ℓ} : {A : Type ℓ} → CryptoError → Result A → Result A
catching e (ok a) = ok a
catching e (err _) = err e

-- EncryptedMessage
pub record EncryptedMessage : Type 0 where
  pub ciphertext : String
  pub nonce : String

-- The object that JSON.stringify is given.
abbrev pub to_json : EncryptedMessage → Json
to_json e = two_texts e.ciphertext e.nonce

-- What `window` holds: is there one, has it `crypto`, has that `subtle`; `isSecureContext`.
pub record Window : Type 0 where
  pub defined : Bool
  pub has_crypto : Bool
  pub has_subtle : Bool
  pub secure : Bool

unfoldable pub is_crypto_available : Window → Bool
is_crypto_available w = if w.defined then (if w.has_crypto then w.has_subtle else false) else false

unfoldable pub is_secure_context : Window → Bool
is_secure_context w = if w.defined then w.secure else false

-- target.set(source, offset)
unfoldable pub write : Bytes → ℕ → Bytes → Bytes
write target offset [] = target
write target offset (b ∷ source) = write (set target offset b) (suc offset) source

-- The loops over a binary string, whose units are below 256, and over an array.
unfoldable pub store_units : Bytes → Bytes
store_units [] = []
store_units (u ∷ us) = u % 256 ∷ store_units us

module _ (w : Window) (text : Encoding) (subtle : Subtle) where
  unfoldable pub get_crypto_subtle : Result (Unit {0})
  get_crypto_subtle = if is_crypto_available w then ok tt else err unavailable

  -- `crypto.subtle.…`, with no test before it
  unfoldable pub plain_subtle : Result (Unit {0})
  plain_subtle = if is_crypto_available w then ok tt else err not_an_object

  unfoldable pub array_buffer_to_base64 : Bytes → String
  array_buffer_to_base64 buffer = text.btoa buffer

  unfoldable pub base64_to_array_buffer : String → Result Bytes
  unfolding store_units
  base64_to_array_buffer base64 = do
    binary ← or_throw (text.atob base64) bad_base64
    ok (store_units binary)

  unfoldable pub encrypt_message : (nonce : Bytes) → String → Bytes → Result EncryptedMessage
  encrypt_message nonce message chat_key = do
    get_crypto_subtle
    key ← or_throw (subtle.import_key chat_key) bad_key
    let ciphertext = subtle.encrypt key nonce (text.encode message)
    ok (record {
      ciphertext = array_buffer_to_base64 ciphertext;
      nonce = array_buffer_to_base64 nonce;
    })

  unfoldable pub decrypt_message : (ciphertext nonce : String) → Bytes → Result String
  decrypt_message ciphertext nonce chat_key = do
    get_crypto_subtle
    key ← or_throw (subtle.import_key chat_key) bad_key
    ciphertext_bytes ← base64_to_array_buffer ciphertext
    nonce_bytes ← base64_to_array_buffer nonce
    catching decryption_failed do
      plaintext ← or_throw (subtle.decrypt key nonce_bytes ciphertext_bytes) bad_data
      ok (text.decode plaintext)

  unfoldable pub encrypt_chat_key_with_private_key :
      (nonce : Bytes) (chat_key private_key : Bytes) → Result EncryptedMessage
  unfolding write
  encrypt_chat_key_with_private_key nonce chat_key private_key = do
    get_crypto_subtle
    aes_key ← or_throw (subtle.import_key private_key) bad_key
    let encrypted = subtle.encrypt aes_key nonce chat_key
    let combined = replicate (length nonce + length encrypted) 0
    ok (record {
      ciphertext = array_buffer_to_base64 (write (write combined 0 nonce) (length nonce) encrypted);
      nonce = "";
    })

  unfoldable pub decrypt_chat_key_with_private_key : String → Bytes → Result Bytes
  decrypt_chat_key_with_private_key encrypted_key private_key = do
    get_crypto_subtle
    combined ← base64_to_array_buffer encrypted_key
    aes_key ← or_throw (subtle.import_key private_key) bad_key
    or_throw (subtle.decrypt aes_key (take 12 combined) (drop 12 combined)) bad_data

  unfoldable pub encrypt_chat_key : (salt nonce : Bytes) → Bytes → String → Result EncryptedMessage
  unfolding write
  encrypt_chat_key salt nonce chat_key password = do
    plain_subtle
    let wrapping_key = subtle.pbkdf2 (text.encode password) salt 100000
    let encrypted = subtle.encrypt wrapping_key nonce chat_key
    let combined = replicate (length salt + length nonce + length encrypted) 0
    let salted = write combined 0 salt
    let with_nonce = write salted (length salt) nonce
    ok (record {
      ciphertext = array_buffer_to_base64 (write with_nonce (length salt + length nonce) encrypted);
      nonce = "";
    })

  -- slice(0, 16), slice(16, 28) and slice(28)
  unfoldable pub decrypt_chat_key : String → String → Result Bytes
  decrypt_chat_key encrypted_key password = do
    combined ← base64_to_array_buffer encrypted_key
    plain_subtle
    let wrapping_key = subtle.pbkdf2 (text.encode password) (take 16 combined) 100000
    or_throw (subtle.decrypt wrapping_key (take 12 (drop 16 combined)) (drop 28 combined)) bad_data

  -- `atob(v)`; a value that is no text is made one first
  unfoldable pub decode_field : JsonText → Value → Result Bytes
  unfolding store_units
  decode_field json v = do
    binary ← or_throw (text.atob (json.to_text v)) bad_base64
    ok (store_units binary)

  unfoldable pub decrypt_message_content : JsonText → String → Bytes → Result String
  decrypt_message_content json encrypted_content chat_key = catching decryption_failed do
    encrypted_msg ← or_throw (json.parse encrypted_content) bad_data
    plain_subtle
    key ← or_throw (subtle.import_key chat_key) bad_key
    ciphertext ← or_throw (member "ciphertext" (some encrypted_msg)) bad_data
    ciphertext_bytes ← decode_field json ciphertext
    nonce ← or_throw (member "nonce" (some encrypted_msg)) bad_data
    nonce_bytes ← decode_field json nonce
    plaintext ← or_throw (subtle.decrypt key nonce_bytes ciphertext_bytes) bad_data
    ok (text.decode plaintext)

-- toBase64 and fromBase64 of ecc.ts
module _ (text : Encoding) where
  unfoldable pub to_base64 : Bytes → String
  to_base64 bytes = text.btoa bytes

  unfoldable pub from_base64 : String → Result Bytes
  unfolding store_units
  from_base64 base64 = do binary ← or_throw (text.atob base64) bad_base64; ok (store_units binary)

-- crypto.getRandomValues fills 32 bytes, the argument here.
unfoldable pub generate_random_key : (random : Bytes) → Bytes
generate_random_key random = random
