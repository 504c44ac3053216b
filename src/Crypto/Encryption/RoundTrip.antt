-- ===== src/Crypto/Encryption/RoundTrip.antt =====
-- What encryption.ts and messageDecryption.ts encrypt, they decrypt.
use mathlib.Core.List.{append_assoc, append-nil}
use native.Mathlib.Nat.{zero-add, add-zero, add_assoc}
use zero_mes.Common.{
  ℕ, suc, ◌+◌, ◌%◌, ◌<◌, ◌≡◌, refl, sym, ap, ◌∙◌, subst, String, true, false, some, [], ◌∷◌, ◌++◌,
  length, take, drop, replicate, length-append, set-length-append, take-length-append,
  drop-length-append, All-append, arith,
}
use zero_mes.Json.{member}
use zero_mes.Crypto.Primitives.{Bytes, AreBytes, Encoding, Subtle, JsonText, strip_bom}
use zero_mes.Crypto.Encryption.{
  unavailable, not_an_object, decryption_failed, ok, err, ◌>>=◌, to_json, Window,
  is_crypto_available, write, store_units, get_crypto_subtle, plain_subtle, array_buffer_to_base64,
  base64_to_array_buffer, encrypt_message, decrypt_message, encrypt_chat_key_with_private_key,
  decrypt_chat_key_with_private_key, encrypt_chat_key, decrypt_chat_key, decode_field,
  decrypt_message_content,
}

pub store_units-AreBytes : (b : Bytes) → AreBytes b → store_units b ≡ b
unfolding store_units
store_units-AreBytes [] h = refl
store_units-AreBytes (b ∷ bs) (small, h) =
    let same : b % 256 ≡ b = omega arith in rw (same, store_units-AreBytes bs h)

-- A write over zeros, behind what is written.
write-replicate :
    (source pre : Bytes) (n : ℕ)
    → write (pre ++ replicate (length source + n) 0) (length pre) source
      ≡ (pre ++ source) ++ replicate n 0
unfolding write
write-replicate [] pre n = rw (append-nil pre, zero-add n)
write-replicate (b ∷ source) pre n =
    let next = write-replicate source (pre ++ b ∷ []) n in
    let place : length (pre ++ b ∷ []) ≡ suc (length pre) =
      length-append pre (b ∷ []) ∙ omega arith in
    let zeros : suc (length source) + n ≡ suc (length source + n) = omega arith in
    rw (zeros, set-length-append pre 0 b (replicate (length source + n) 0), ← place)
      (next ∙ ap (λ l. l ++ replicate n 0) (append_assoc pre (b ∷ []) source))

write_last :
    (pre source : Bytes)
    → write (pre ++ replicate (length source) 0) (length pre) source ≡ pre ++ source
write_last pre source =
    ap (λ n. write (pre ++ replicate n 0) (length pre) source) (sym (add-zero (length source)))
    ∙ write-replicate source pre 0
    ∙ append-nil (pre ++ source)

-- Parts written into a new array one behind the other.
write_two :
    (a b : Bytes) → write (write (replicate (length a + length b) 0) 0 a) (length a) b ≡ a ++ b
write_two a b = rw (write-replicate a [] (length b)) (write_last a b)

write_three :
    (a b c : Bytes)
    → write
        (write (write (replicate (length a + length b + length c) 0) 0 a) (length a) b)
        (length a + length b)
        c
      ≡ (a ++ b) ++ c
write_three a b c =
    rw
      (
        add_assoc (length a) (length b) (length c),
        write-replicate a [] (length b + length c),
        write-replicate b a (length c),
        ← length-append a b,
      )
      (write_last (a ++ b) c)

take_append : (n : ℕ) (a b : Bytes) → length a ≡ n → take n (a ++ b) ≡ a
take_append n a b e = subst (λ k. take k (a ++ b) ≡ a) e (take-length-append a b)

drop_append : (n : ℕ) (a b : Bytes) → length a ≡ n → drop n (a ++ b) ≡ b
drop_append n a b e = subst (λ k. drop k (a ++ b) ≡ b) e (drop-length-append a b)

module _ (w : Window) (text : Encoding) (subtle : Subtle) where
  base64_round :
      (b : Bytes)
      → AreBytes b
      → base64_to_array_buffer w text subtle (array_buffer_to_base64 w text subtle b) ≡ ok b
  unfolding base64_to_array_buffer array_buffer_to_base64
  base64_round b h = ground (arith, text.atob-btoa b h, store_units-AreBytes b h)

  cipher-AreBytes :
      (k nonce : Bytes) (message : String) → AreBytes (subtle.encrypt k nonce (text.encode message))
  cipher-AreBytes k nonce message =
      subtle.encrypt-AreBytes k nonce (text.encode message) (text.encode-AreBytes message)

  module _ (available : is_crypto_available w ≡ true) where
    -- decryptMessage gives back the message that encryptMessage encrypted under the same key of 32 bytes,
    -- less a byte order mark at its start, which TextDecoder drops.
    pub decrypt-encrypt_message :
        (nonce : Bytes) (message : String) (chat_key : Bytes)
        → AreBytes nonce
        → length chat_key ≡ 32
        → (encrypt_message w text subtle nonce message chat_key >>= λ e.
            decrypt_message w text subtle e.ciphertext e.nonce chat_key)
          ≡ ok (strip_bom message)
    unfolding encrypt_message decrypt_message get_crypto_subtle
    decrypt-encrypt_message nonce message k bytes size = simp (
      available,
      subtle.import_key-256 k size,
      base64_round _ (cipher-AreBytes k nonce message),
      base64_round nonce bytes,
      subtle.decrypt-encrypt k nonce (text.encode message) (text.encode-AreBytes message),
      text.decode-encode,
    )

    -- A chat key that is encrypted with a private key of 32 bytes and a nonce of 12 is decrypted with it.
    pub decrypt-encrypt_chat_key_with_private_key :
        (nonce chat_key private_key : Bytes)
        → AreBytes nonce
        → AreBytes chat_key
        → length nonce ≡ 12
        → length private_key ≡ 32
        → (encrypt_chat_key_with_private_key w text subtle nonce chat_key private_key >>= λ e.
            decrypt_chat_key_with_private_key w text subtle e.ciphertext private_key)
          ≡ ok chat_key
    unfolding encrypt_chat_key_with_private_key decrypt_chat_key_with_private_key get_crypto_subtle
    decrypt-encrypt_chat_key_with_private_key nonce chat_key k bytes key_bytes twelve size =
        let encrypted = subtle.encrypt k nonce chat_key in
        simp (
          available,
          subtle.import_key-256 k size,
          write_two nonce encrypted,
          base64_round (nonce ++ encrypted) (
              All-append (λ b. b < 256) nonce encrypted bytes
                (subtle.encrypt-AreBytes k nonce chat_key key_bytes)),
          take_append 12 nonce encrypted twelve,
          drop_append 12 nonce encrypted twelve,
          subtle.decrypt-encrypt k nonce chat_key key_bytes,
        )

    -- A chat key that is encrypted under a password, with a salt of 16 bytes and a nonce of 12, is
    -- decrypted under that password.
    pub decrypt-encrypt_chat_key :
        (salt nonce chat_key : Bytes) (password : String)
        → AreBytes salt
        → AreBytes nonce
        → AreBytes chat_key
        → length salt ≡ 16
        → length nonce ≡ 12
        → (encrypt_chat_key w text subtle salt nonce chat_key password >>= λ e.
            decrypt_chat_key w text subtle e.ciphertext password)
          ≡ ok chat_key
    unfolding encrypt_chat_key decrypt_chat_key plain_subtle
    decrypt-encrypt_chat_key salt nonce chat_key password salt_bytes nonce_bytes key_bytes sixteen
          twelve =
        let k = subtle.pbkdf2 (text.encode password) salt 100000 in
        let encrypted = subtle.encrypt k nonce chat_key in
        let header = All-append (λ b. b < 256) salt nonce salt_bytes nonce_bytes in
        let bytes =
          All-append (λ b. b < 256) (salt ++ nonce) encrypted header
            (subtle.encrypt-AreBytes k nonce chat_key key_bytes) in
        let header_size : length (salt ++ nonce) ≡ 28 = length-append salt nonce ∙ omega arith in
        let salt_of : take 16 ((salt ++ nonce) ++ encrypted) ≡ salt =
          rw (append_assoc salt nonce encrypted)
            (take_append 16 salt (nonce ++ encrypted) sixteen) in
        let rest_of : drop 16 ((salt ++ nonce) ++ encrypted) ≡ nonce ++ encrypted =
          rw (append_assoc salt nonce encrypted)
            (drop_append 16 salt (nonce ++ encrypted) sixteen) in
        simp (
          available,
          write_three salt nonce encrypted,
          base64_round ((salt ++ nonce) ++ encrypted) bytes,
          drop_append 28 (salt ++ nonce) encrypted header_size,
          salt_of,
          rest_of,
          take_append 12 nonce encrypted twelve,
          subtle.decrypt-encrypt k nonce chat_key key_bytes,
        )

  -- decryptMessageContent reads what encryptMessage made and JSON.stringify wrote: the text of a message
  -- comes through the server as it was sent, less a byte order mark at its start.
  pub decrypt_message_content-encrypt_message :
      (json : JsonText) (nonce : Bytes) (message : String) (chat_key : Bytes)
      → is_crypto_available w ≡ true
      → AreBytes nonce
      → length chat_key ≡ 32
      → (encrypt_message w text subtle nonce message chat_key >>= λ e.
          decrypt_message_content w text subtle json (json.stringify (to_json e)) chat_key)
        ≡ ok (strip_bom message)
  unfolding encrypt_message decrypt_message_content get_crypto_subtle plain_subtle decode_field
      array_buffer_to_base64 member
  decrypt_message_content-encrypt_message json nonce message k available bytes size =
      let cipher = subtle.encrypt k nonce (text.encode message) in
      let cipher_bytes = cipher-AreBytes k nonce message in
      simp (
        available,
        subtle.import_key-256 k size,
        json.parse-stringify,
        json.to_text-str,
        text.atob-btoa cipher cipher_bytes,
        text.atob-btoa nonce bytes,
        store_units-AreBytes cipher cipher_bytes,
        store_units-AreBytes nonce bytes,
        subtle.decrypt-encrypt k nonce (text.encode message) (text.encode-AreBytes message),
        text.decode-encode,
      )

  -- Without Web Crypto nothing is encrypted or decrypted: the functions that ask for it through
  -- getCryptoSubtle reject with its error, those that use crypto.subtle at once with a TypeError, and
  -- decryptMessageContent with its own error.
  pub unavailable_errors :
      (json : JsonText) (salt nonce key input : Bytes) (s t : String) {binary : Bytes}
      → is_crypto_available w ≡ false
      → text.atob s ≡ some binary
      → (encrypt_message w text subtle nonce s key ≡ err unavailable)
        × (decrypt_message w text subtle s t key ≡ err unavailable)
        × (encrypt_chat_key_with_private_key w text subtle nonce input key ≡ err unavailable)
        × (decrypt_chat_key_with_private_key w text subtle s key ≡ err unavailable)
        × (encrypt_chat_key w text subtle salt nonce input t ≡ err not_an_object)
        × (decrypt_chat_key w text subtle s t ≡ err not_an_object)
        × (decrypt_message_content w text subtle json s key ≡ err decryption_failed)
  unfolding encrypt_message decrypt_message encrypt_chat_key_with_private_key
      decrypt_chat_key_with_private_key encrypt_chat_key decrypt_chat_key decrypt_message_content
      get_crypto_subtle plain_subtle base64_to_array_buffer
  unavailable_errors json salt nonce key input s t off e = ground arith
