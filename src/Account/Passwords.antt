-- ===== src/Account/Passwords.antt =====
-- The chat keys when a password is changed.
use zero_mes.Common.{◌⊎◌, inl, inr, ◌≡◌, refl, true, List, [], ◌∷◌, length}
use zero_mes.Crypto.Primitives.{Bytes, AreBytes, Encoding, Subtle, Curve}
use zero_mes.Crypto.Encryption as Encryption
use zero_mes.Crypto.Encryption.{
  Result, ok, err, ◌>>=◌, EncryptedMessage, is_crypto_available, decrypt_chat_key_with_private_key,
  encrypt_chat_key_with_private_key,
}
use zero_mes.Crypto.Encryption.RoundTrip.{decrypt-encrypt_chat_key_with_private_key}
use zero_mes.Crypto.Encryption.Opened.{bind-ok, decrypt_chat_key-AreBytes}
use zero_mes.Api.Types.{ChatKeyUpdate}
use zero_mes.Account.Change.{KeyOf, renewed, renew}

module _ (enc : Encoding) (subtle : Subtle) (curve : Curve) (window : Encryption.Window) where
  -- The updates of some chats.
  pub data Renewed (old_key new_key : Bytes) : List KeyOf → List ChatKeyUpdate → Type 0 where
    all_renewed : Renewed old_key new_key [] []
    one_renewed :
        (c : KeyOf) (k : Bytes) (u : ChatKeyUpdate) {cs : List KeyOf} {us : List ChatKeyUpdate}
        → decrypt_chat_key_with_private_key window enc subtle c.encrypted_key old_key ≡ ok k
        → u.companion_id ≡ c.companion_id
        → decrypt_chat_key_with_private_key window enc subtle u.encrypted_key new_key ≡ ok k
        → Renewed old_key new_key cs us
        → Renewed old_key new_key (c ∷ cs) (u ∷ us)
    one_skipped :
        (c : KeyOf) (e : Encryption.CryptoError) {cs : List KeyOf} {us : List ChatKeyUpdate}
        → decrypt_chat_key_with_private_key window enc subtle c.encrypted_key old_key ≡ err e
        → Renewed old_key new_key cs us
        → Renewed old_key new_key (c ∷ cs) us

  opened_cases :
      (r : Result Bytes) → ((k : Bytes) × (r ≡ ok k)) ⊎ ((e : Encryption.CryptoError) × (r ≡ err e))
  opened_cases (ok k) = inl (k, refl)
  opened_cases (err e) = inr (e, refl)

  -- With a new password, each chat key that opens with the old private key is sent again, for the same companion and in the
  -- order of the chats, and opens with the new private key to the same key; a chat whose key does not open is left out. The
  -- new private key has 32 bytes, each nonce 12, and Web Crypto is available.
  pub renew-Renewed :
      (nonces : KeyOf → Bytes) (old_key new_key : Bytes) (cs : List KeyOf)
      → is_crypto_available window ≡ true
      → length new_key ≡ 32
      → ((c : KeyOf) → AreBytes (nonces c) × (length (nonces c) ≡ 12))
      → Renewed old_key new_key cs (renew enc subtle curve window nonces old_key new_key cs)
  unfolding renew renewed
  renew-Renewed nonces old_key new_key [] available size drawn = all_renewed
  renew-Renewed nonces old_key new_key (c ∷ cs) available size drawn =
      let rest = renew-Renewed nonces old_key new_key cs available size drawn in
      elim (opened_cases
        (decrypt_chat_key_with_private_key window enc subtle c.encrypted_key old_key)) [
          | inr (e, closed) ↦ rw closed (one_skipped c e closed rest)
          | inl (k, opened) ↦
              let bytes =
                decrypt_chat_key-AreBytes window enc subtle c.encrypted_key old_key k opened in
              let back =
                decrypt-encrypt_chat_key_with_private_key window enc subtle available (nonces c) k
                  new_key (drawn c).0 bytes (drawn c).1 size in
              let (e, sealed, reopened) =
                bind-ok (encrypt_chat_key_with_private_key window enc subtle (nonces c) k new_key) _
                  k back in
              rw (opened, sealed)
                (one_renewed c k
                  (record {
                    companion_id = c.companion_id;
                    encrypted_key = e.ciphertext;
                    key_iv = "";
                  })
                  opened refl reopened rest)
        ]
