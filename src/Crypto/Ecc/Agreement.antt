-- ===== src/Crypto/Ecc/Agreement.antt =====
-- Two users derive the same chat key, and what a password's keys have to do with one another.
use Prim.Native.String.{◌++◌ as append}
use zero_mes.Common.{
  ℕ, zero, suc, ◌≡◌, sym, subst, ap, ◌∙◌, String, false, Option, none, some, length, take, drop,
  ◌>>=◌, arith,
}
use zero_mes.Crypto.Primitives.{Bytes, AreBytes, Encoding, Curve}
use zero_mes.Crypto.Hex.{to_hex, from_hex}
use zero_mes.Crypto.Hex.RoundTrip.{length-to_hex, from_hex-to_hex}
use zero_mes.Crypto.Ecc.{
  KeyPair, hash_rounds, compute_shared_secret, derive_private_key, derive_chat_key,
  generate_key_pair,
}

module _ (text : Encoding) (curve : Curve) where
  -- The parts of a generated key pair.
  generate_key_pair-parts :
      (password : String) (n : ℕ) (k : KeyPair)
      → generate_key_pair text curve password n ≡ some k
      → (k.private_key ≡ derive_private_key text curve password n)
        × (curve.get_public_key k.private_key false ≡ some k.public_key)
        × (k.auth_hash ≡ to_hex (derive_private_key text curve (append password "auth") n))
  unfolding generate_key_pair derive_private_key
  generate_key_pair-parts password n k e = ground arith

  -- Two users with key pairs of their passwords derive the same chat key, each from the own private
  -- key and the other's public key.
  pub derive_chat_key-agree :
      (p q : String) (m n : ℕ) (a b : KeyPair)
      → generate_key_pair text curve p m ≡ some a
      → generate_key_pair text curve q n ≡ some b
      → derive_chat_key text curve a.private_key b.public_key
        ≡ derive_chat_key text curve b.private_key a.public_key
  unfolding derive_chat_key
  derive_chat_key-agree p q m n a b ea eb =
      let mine = (generate_key_pair-parts p m a ea).1 in
      let theirs = (generate_key_pair-parts q n b eb).1 in
      rw (curve.agreement a.private_key b.private_key false false mine theirs)

  length-hash_rounds :
      (n : ℕ) (h : Bytes) → length h ≡ 32 → length (hash_rounds text curve n h) ≡ 32
  unfolding hash_rounds
  length-hash_rounds zero h e = e
  length-hash_rounds (suc n) h e = length-hash_rounds n (curve.sha256 h) (curve.sha256-length h)

  -- With at least one round of hashing, the private key has 32 bytes, and the hash for
  -- the server is a text of 64 hex digits.
  pub generate_key_pair-length :
      (password : String) (n : ℕ) (k : KeyPair)
      → generate_key_pair text curve password (suc n) ≡ some k
      → (length k.private_key ≡ 32) × (length k.auth_hash ≡ 64)
  unfolding derive_private_key
  generate_key_pair-length password n k e =
      let (private, _, auth) = generate_key_pair-parts password (suc n) k e in
      let rounds = λ (s : String).
        length-hash_rounds n (curve.sha256 (text.encode s)) (curve.sha256-length (text.encode s)) in
      (
        ap length private ∙ rounds password,
        omega (
          arith,
          ap length auth,
          length-to_hex (derive_private_key text curve (append password "auth") (suc n)),
          rounds (append password "auth"),
        ),
      )

  AreBytes-hash_rounds : (n : ℕ) (h : Bytes) → AreBytes h → AreBytes (hash_rounds text curve n h)
  unfolding hash_rounds
  AreBytes-hash_rounds zero h a = a
  AreBytes-hash_rounds (suc n) h a =
      AreBytes-hash_rounds n (curve.sha256 h) (curve.sha256-AreBytes h)

  pub generate_key_pair-AreBytes :
      (password : String) (n : ℕ) (k : KeyPair)
      → generate_key_pair text curve password (suc n) ≡ some k
      → AreBytes k.private_key
  unfolding derive_private_key
  generate_key_pair-AreBytes password n k e =
      subst AreBytes (sym (generate_key_pair-parts password (suc n) k e).0) (
        AreBytes-hash_rounds n (curve.sha256 (text.encode password))
          (curve.sha256-AreBytes (text.encode password)))

  -- The hash that the server gets for a password is the private key, in hex, of the password with
  -- "auth" behind it.
  pub auth_hash_is_private_key :
      (password : String) (n : ℕ) (k other : KeyPair)
      → generate_key_pair text curve password (suc n) ≡ some k
      → generate_key_pair text curve (append password "auth") (suc n) ≡ some other
      → from_hex k.auth_hash ≡ other.private_key
  unfolding derive_private_key
  auth_hash_is_private_key password n k other e o =
      let longer = append password "auth" in
      let bytes =
        AreBytes-hash_rounds n (curve.sha256 (text.encode longer))
          (curve.sha256-AreBytes (text.encode longer)) in
      ap from_hex (generate_key_pair-parts password (suc n) k e).2
      ∙ from_hex-to_hex _ bytes
      ∙ sym (generate_key_pair-parts longer (suc n) other o).0

  length-hashed :
      (o : Option Bytes) (k : Bytes)
      → (o >>= λ p. some (curve.sha256 (take 32 (drop 1 p)))) ≡ some k
      → length k ≡ 32
  length-hashed none k e = ground arith
  length-hashed (some p) k e = ground (arith, curve.sha256-length (take 32 (drop 1 p)))

  pub length-derive_chat_key :
      (a b k : Bytes) → derive_chat_key text curve a b ≡ some k → length k ≡ 32
  unfolding derive_chat_key compute_shared_secret
  length-derive_chat_key a b k e = length-hashed (curve.get_shared_secret a b) k e

  hashed-AreBytes :
      (o : Option Bytes) (k : Bytes)
      → (o >>= λ p. some (curve.sha256 (take 32 (drop 1 p)))) ≡ some k
      → AreBytes k
  hashed-AreBytes none k e = let no : ⊥ = ground arith in absurd no
  hashed-AreBytes (some p) k e =
      let same : curve.sha256 (take 32 (drop 1 p)) ≡ k = cc in
      subst AreBytes same (curve.sha256-AreBytes (take 32 (drop 1 p)))

  pub derive_chat_key-AreBytes :
      (a b k : Bytes) → derive_chat_key text curve a b ≡ some k → AreBytes k
  unfolding derive_chat_key compute_shared_secret
  derive_chat_key-AreBytes a b k e = hashed-AreBytes (curve.get_shared_secret a b) k e
