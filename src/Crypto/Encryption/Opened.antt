-- ===== src/Crypto/Encryption/Opened.antt =====
-- A chat key that decryptChatKeyWithPrivateKey of encryption.ts gives is made of bytes.
use zero_mes.Common.{
  ℕ, zero, suc, ◌%◌, ◌<◌, ◌≡◌, refl, subst, Option, none, some, String, [], ◌∷◌, drop, take, arith,
}
use zero_mes.Crypto.Primitives.{Bytes, AreBytes, Encoding, Subtle}
use zero_mes.Crypto.Encryption.{
  CryptoError, Result, ok, err, bad_key, bad_base64, bad_data, ◌>>=◌, or_throw, Window, store_units,
  get_crypto_subtle, base64_to_array_buffer, decrypt_chat_key_with_private_key,
}

store_units-small : (b : Bytes) → AreBytes (store_units b)
unfolding store_units
store_units-small [] = tt
store_units-small (u ∷ us) =
    let small : u % 256 < 256 = omega arith in (small, store_units-small us)

drop-AreBytes : (n : ℕ) (b : Bytes) → AreBytes b → AreBytes (drop n b)
drop-AreBytes zero b h = h
drop-AreBytes (suc n) [] h = tt
drop-AreBytes (suc n) (x ∷ b) h = drop-AreBytes n b h.1

-- What a chain of steps that succeeds went through.
pub bind-ok {ℓ κ} :
    {A : Type ℓ} {B : Type κ} (m : Result A) (f : A → Result B) (b : B)
    → (m >>= f) ≡ ok b
    → (a : A) × (m ≡ ok a) × (f a ≡ ok b)
bind-ok (err e) f b h = let no : ⊥ = ground arith in absurd no
bind-ok (ok a) f b h = (a, refl, h)

or_throw-ok : (o : Option Bytes) (e : CryptoError) (a : Bytes) → or_throw o e ≡ ok a → o ≡ some a
or_throw-ok none e a h = let no : ⊥ = ground arith in absurd no
or_throw-ok (some x) e a h = ground arith

module _ (w : Window) (text : Encoding) (subtle : Subtle) where
  base64-AreBytes :
      (s : String) (b : Bytes) → base64_to_array_buffer w text subtle s ≡ ok b → AreBytes b
  unfolding base64_to_array_buffer
  base64-AreBytes s b h =
      let (units, _, stored) = bind-ok (or_throw (text.atob s) bad_base64) _ b h in
      let same : store_units units ≡ b = cc in subst AreBytes same (store_units-small units)

  pub decrypt_chat_key-AreBytes :
      (s : String) (key k : Bytes)
      → decrypt_chat_key_with_private_key w text subtle s key ≡ ok k
      → AreBytes k
  unfolding decrypt_chat_key_with_private_key
  decrypt_chat_key-AreBytes s key k h =
      let (_, _, rest) = bind-ok (get_crypto_subtle w text subtle) _ k h in
      let (combined, got, more) = bind-ok (base64_to_array_buffer w text subtle s) _ k rest in
      let (aes, _, last) = bind-ok (or_throw (subtle.import_key key) bad_key) _ k more in
      subtle.decrypt-AreBytes aes (take 12 combined) (drop 12 combined)
        (or_throw-ok (subtle.decrypt aes (take 12 combined) (drop 12 combined)) bad_data k last)
        (drop-AreBytes 12 combined (base64-AreBytes s combined got))
