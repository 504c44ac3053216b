-- ===== src/Crypto/Ecc.antt =====
-- src/frontend/src/lib/crypto/ecc.ts and keys.ts: keys from a password, and the shared secret.
pub mod Agreement
use Prim.Native.String.{◌++◌ as append}
use zero_mes.Common.{
  ℕ, zero, suc, String, Bool, true, false, Option, none, some, List, take, drop, ◌>>=◌,
}
use zero_mes.Crypto.Primitives.{Bytes, Units, Encoding, Curve}
use zero_mes.Crypto.Hex.{to_hex}

-- KeyPair
pub record KeyPair : Type 0 where
  pub private_key : Bytes
  pub public_key : Bytes
  pub auth_hash : Units

module _ (text : Encoding) (curve : Curve) where
  -- `iterations` rounds of the loop
  unfoldable pub hash_rounds : ℕ → Bytes → Bytes
  hash_rounds zero hash = hash
  hash_rounds (suc n) hash = hash_rounds n (curve.sha256 hash)

  unfoldable pub derive_private_key : String → ℕ → Bytes
  unfolding hash_rounds
  derive_private_key password iterations = hash_rounds iterations (text.encode password)

  unfoldable pub derive_public_key : Bytes → Bool → Option Bytes
  derive_public_key private_key compressed = curve.get_public_key private_key compressed

  -- slice(1, 33) of the shared point, hashed
  unfoldable pub compute_shared_secret : Bytes → Bytes → Option Bytes
  compute_shared_secret private_key public_key = do
    shared_point ← curve.get_shared_secret private_key public_key
    some (curve.sha256 (take 32 (drop 1 shared_point)))

  unfoldable pub is_valid_public_key : Bytes → Bool
  is_valid_public_key public_key = curve.point_from_hex (to_hex public_key)

  unfoldable pub derive_chat_key : Bytes → Bytes → Option Bytes
  unfolding compute_shared_secret
  derive_chat_key my_private_key their_public_key =
      compute_shared_secret my_private_key their_public_key

  unfoldable pub generate_key_pair : String → ℕ → Option KeyPair
  unfolding derive_private_key derive_public_key hash_rounds
  generate_key_pair password iterations = do
    let private_key = derive_private_key password iterations
    public_key ← derive_public_key private_key false
    some (record {
      private_key = private_key;
      public_key = public_key;
      auth_hash = to_hex (hash_rounds iterations (text.encode (append password "auth")));
    })

  unfoldable pub get_public_key_from_private : Bytes → Option Bytes
  unfolding derive_public_key
  get_public_key_from_private private_key = derive_public_key private_key false
