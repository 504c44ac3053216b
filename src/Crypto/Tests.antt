-- ===== src/Crypto/Tests.antt =====
-- Runs of the hex functions, and the theorems on keys and encryption at concrete inputs.
use zero_mes.Common.{◌≡◌, refl, String, true, false, Option, [], ◌∷◌, replicate, arith}
use zero_mes.Crypto.Primitives.{Bytes}
use zero_mes.Crypto.Hex.{to_hex, from_hex}
use zero_mes.Crypto.Ecc.{KeyPair, generate_key_pair}
use zero_mes.Crypto.Ecc.Agreement.{auth_hash_is_private_key}
use zero_mes.Crypto.Encryption.{
  ok, ◌>>=◌, Window, is_crypto_available, to_json, encrypt_message, encrypt_chat_key,
  decrypt_chat_key, decrypt_message_content,
}
use zero_mes.Crypto.Encryption.RoundTrip.{
  decrypt-encrypt_chat_key, decrypt_message_content-encrypt_message,
}
use zero_mes.Crypto.Samples.{plain_encoding, plain_subtle, toy_curve, toy_json}

abbrev sample : Bytes
sample = 0 ∷ 9 ∷ 171 ∷ 255 ∷ []

hex_tests :
    (to_hex sample ≡ 48 ∷ 48 ∷ 48 ∷ 57 ∷ 97 ∷ 98 ∷ 102 ∷ 102 ∷ [])
    × (from_hex (65 ∷ 98 ∷ 122 ∷ 122 ∷ 45 ∷ 49 ∷ []) ≡ 171 ∷ 0 ∷ 255 ∷ [])
unfolding to_hex from_hex
hex_tests = (refl, refl)

abbrev window : Window
window = record { defined = true; has_crypto = true; has_subtle = true; secure = true }

abbrev http_window : Window
http_window = record { defined = true; has_crypto = true; has_subtle = false; secure = false }

abbrev key : Bytes
key = replicate 32 7

abbrev nonce : Bytes
nonce = replicate 12 1

abbrev salt : Bytes
salt = replicate 16 5

keys_of : (password : String) → Option KeyPair
unfolding generate_key_pair toy_curve plain_encoding
keys_of password = generate_key_pair plain_encoding toy_curve password 3

abbrev toy_pair : Bytes → KeyPair
toy_pair k = record { private_key = k; public_key = k; auth_hash = to_hex k }

auth_hash_is_private_key_example : from_hex (to_hex (replicate 32 32)) ≡ replicate 32 32
unfolding keys_of
auth_hash_is_private_key_example =
    auth_hash_is_private_key plain_encoding toy_curve "anna" 2 (toy_pair (replicate 32 32))
      (toy_pair (replicate 32 32)) refl refl

decrypt-encrypt_chat_key_example :
    (encrypt_chat_key window plain_encoding plain_subtle salt nonce sample "secret" >>= λ e.
    decrypt_chat_key window plain_encoding plain_subtle e.ciphertext "secret")
    ≡ ok sample
unfolding is_crypto_available
decrypt-encrypt_chat_key_example =
    decrypt-encrypt_chat_key window plain_encoding plain_subtle refl salt nonce sample "secret"
      (omega arith) (omega arith) (omega arith) refl refl

decrypt_message_content-encrypt_message_example :
    (encrypt_message window plain_encoding plain_subtle nonce "hi" key >>= λ e.
    decrypt_message_content window plain_encoding plain_subtle toy_json
      (toy_json.stringify (to_json e))
      key)
    ≡ ok "hi"
unfolding is_crypto_available
decrypt_message_content-encrypt_message_example =
    decrypt_message_content-encrypt_message window plain_encoding plain_subtle toy_json nonce "hi"
      key refl (omega arith) refl
