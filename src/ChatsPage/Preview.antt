-- ===== src/ChatsPage/Preview.antt =====
-- The previews of ChatsPage.tsx.
use zero_mes.Common.{
  ℕ, zero, suc, ◌≤◌, ◌≡◌, refl, subst, ap, true, some, [], ◌∷◌, ◌++◌, arith, Bool-cases, inl, inr,
  String, length, take, ltb, length-append,
}
use zero_mes.Json.{member}
use zero_mes.Crypto.Primitives.{
  Bytes, AreBytes, Units, Encoding, Subtle, Curve, JsonText, strip_bom,
}
use zero_mes.Crypto.Hex.{from_hex}
use zero_mes.Crypto.Ecc.{KeyPair, generate_key_pair, derive_chat_key}
use zero_mes.Crypto.Ecc.Agreement.{derive_chat_key-agree, length-derive_chat_key}
use zero_mes.Crypto.Encryption as Encryption
use zero_mes.Crypto.Encryption.{
  Result, ok, err, ◌>>=◌, EncryptedMessage, to_json, is_crypto_available, encrypt_message,
  decrypt_message,
}
use zero_mes.Crypto.Encryption.RoundTrip.{decrypt-encrypt_message}
use zero_mes.Dates.{Clock}
use zero_mes.ChatsPage.{utf16, preview}
use zero_mes.ChatsPage.Keys.{companion_bytes, chat_key_with, read_preview}
use zero_mes.ChatsPage.Handlers.{read_message}

length-take : (n : ℕ) (s : Units) → n ≤ length s → length (take n s) ≡ n
length-take zero s h = refl
length-take (suc n) [] h = omega arith
length-take (suc n) (c ∷ s) h = ap suc (length-take n s (omega arith))

take-take : (n : ℕ) (s t : Units) → n ≤ length s → take n (take n s ++ t) ≡ take n s
take-take zero s t h = refl
take-take (suc n) [] t h = let no : ⊥ = omega arith in absurd no
take-take (suc n) (c ∷ s) t h = ap (λ l. c ∷ l) (take-take n s t (omega arith))

-- A preview has at most 53 code units, and starts with the first 50 of the text.
pub length-preview : (s : Units) → (length (preview s) ≤ 53) × (take 50 (preview s) ≡ take 50 s)
unfolding preview
length-preview s = elim (Bool-cases (ltb 50 (length s))) [
  | inl e ↦
      let more : 50 ≤ length s = ground arith in
      rw e (
        let cut = length-append (take 50 s) (46 ∷ 46 ∷ 46 ∷ []) in
        let full = length-take 50 s more in
        ((omega arith), take-take 50 s (46 ∷ 46 ∷ 46 ∷ []) more))
  | inr e ↦ rw e (ground arith, refl)
]

module _ (browser : Encryption.Window) (enc : Encoding) (subtle : Subtle) (curve : Curve)
    (json : JsonText) where
  -- What encryptMessage and JSON.stringify made is read back, and cut.
  read_preview-encrypt_message :
      (nonce k : Bytes) (message : String) (e : EncryptedMessage)
      → is_crypto_available browser ≡ true
      → AreBytes nonce
      → length k ≡ 32
      → encrypt_message browser enc subtle nonce message k ≡ ok e
      → read_preview browser enc subtle curve json (json.stringify (to_json e)) k
        ≡ ok (preview (utf16 (strip_bom message)))
  unfolding read_preview member
  read_preview-encrypt_message nonce k message e available bytes size made =
      let back : decrypt_message browser enc subtle e.ciphertext e.nonce k
          ≡ ok (strip_bom message) =
        subst
          (λ r.
            (r >>= λ x. decrypt_message browser enc subtle x.ciphertext x.nonce k)
            ≡ ok (strip_bom message))
          made (decrypt-encrypt_message browser enc subtle available nonce message k bytes size) in
      simp (json.parse-stringify, json.to_text-str, back)

  -- The list of chats shows what a companion wrote: who sends the message derives the chat key from the own private key
  -- and our public key, and encrypts under it; we ask for the sender's public key, and see the text, less a byte order
  -- mark, cut after 50 code units. Both key pairs are generated from passwords, and Web Crypto is available.
  pub read_message-companion :
      (clock : Clock) (p q : String) (m n : ℕ) (mine theirs : KeyPair) (k nonce : Bytes)
      (message hex : String) (e : EncryptedMessage)
      → is_crypto_available browser ≡ true
      → generate_key_pair enc curve p m ≡ some mine
      → generate_key_pair enc curve q n ≡ some theirs
      → from_hex (utf16 hex) ≡ theirs.public_key
      → derive_chat_key enc curve theirs.private_key mine.public_key ≡ some k
      → AreBytes nonce
      → encrypt_message browser enc subtle nonce message k ≡ ok e
      → read_message clock browser enc subtle curve json mine.private_key
          (some hex)
          (json.stringify (to_json e))
        ≡ ok (preview (utf16 (strip_bom message)))
  unfolding read_message companion_bytes chat_key_with
  read_message-companion clock p q m n mine theirs k nonce message hex e available gm gt public made
        bytes enc_ok =
      let agree = derive_chat_key-agree enc curve p q m n mine theirs gm gt in
      let size = length-derive_chat_key enc curve theirs.private_key mine.public_key k made in
      rw (public, agree, made)
        (read_preview-encrypt_message nonce k message e available bytes size enc_ok)
