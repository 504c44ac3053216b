-- ===== src/Crypto/Primitives.antt =====
-- What src/frontend/src/lib/crypto uses and does not implement, as parameters with documented laws: the
-- curve of @noble/secp256k1 and the hash of @noble/hashes, the browser's SubtleCrypto, and its text
-- encodings. Bytes are numbers below 256.
use Prim.Native.Char.{code}
use zero_mes.Common.{
  ℕ, ◌<◌, ◌≡◌, String, Bool, Option, some, List, length, non_empty, true, ◌∷◌, All, ◌==◌,
  if◌then◌else◌,
}
use zero_mes.Json.{Json, Value, str, obj, field, end}

abbrev pub Bytes : Type 0
Bytes = List ℕ

-- A string that the code walks through, as its UTF-16 code units.
abbrev pub Units : Type 0
Units = List ℕ

abbrev pub AreBytes : Bytes → Type 0
AreBytes = All (λ b. b < 256)

-- TextDecoder drops a byte order mark at the start.
abbrev pub strip_bom : String → String
strip_bom String.[] = String.[]
strip_bom (String.◌∷◌ c s) = if code c == 0xfeff then s else String.◌∷◌ c s

-- btoa takes the binary string of bytes, which is all that the code gives it; atob throws on a text
-- that is no base64 (`none`). Texts are well formed, without lone surrogates.
pub record Encoding : Type 0 where
  pub btoa : Bytes → String
  pub atob : String → Option Bytes
  pub encode : String → Bytes
  pub decode : Bytes → String
  pub atob-btoa : (b : Bytes) → AreBytes b → atob (btoa b) ≡ some b
  pub btoa-cons : (x : ℕ) (b : Bytes) → non_empty (btoa (x ∷ b)) ≡ true
  pub atob-AreBytes : (s : String) {b : Bytes} → atob s ≡ some b → AreBytes b
  pub encode-AreBytes : (s : String) → AreBytes (encode s)
  pub decode-encode : (s : String) → decode (encode s) ≡ strip_bom s

-- SubtleCrypto with AES-GCM. `import_key` throws on a key of a wrong length (`none`), `decrypt` on
-- data that the key and the nonce do not fit.
pub record Subtle : Type 0 where
  pub import_key : Bytes → Option Bytes
  pub encrypt : (key iv input : Bytes) → Bytes
  pub decrypt : (key iv input : Bytes) → Option Bytes
  pub pbkdf2 : (password salt : Bytes) (iterations : ℕ) → Bytes
  pub import_key-256 : (k : Bytes) → length k ≡ 32 → import_key k ≡ some k
  pub decrypt-encrypt : (k iv d : Bytes) → AreBytes d → decrypt k iv (encrypt k iv d) ≡ some d
  pub encrypt-AreBytes : (k iv d : Bytes) → AreBytes d → AreBytes (encrypt k iv d)
  pub decrypt-AreBytes :
      (k iv d : Bytes) {p : Bytes} → decrypt k iv d ≡ some p → AreBytes d → AreBytes p

-- The object that the client stringifies: an encrypted message.
abbrev pub two_texts : String → String → Json
two_texts c n = obj (field "ciphertext" (str c) (field "nonce" (str n) end))

-- JSON.parse, JSON.stringify, and the text that atob makes of an argument.
pub record JsonText : Type 0 where
  pub parse : String → Option Json
  pub stringify : Json → String
  pub to_text : Value → String
  pub parse-stringify : (c n : String) → parse (stringify (two_texts c n)) ≡ some (two_texts c n)
  pub stringify-non_empty : (c n : String) → non_empty (stringify (two_texts c n)) ≡ true
  pub to_text-str : (s : String) → to_text (some (str s)) ≡ s

-- `none` where the library throws: a private key out of range, a public key that is no point.
pub record Curve : Type 0 where
  pub sha256 : Bytes → Bytes
  pub get_public_key : Bytes → Bool → Option Bytes
  pub get_shared_secret : Bytes → Bytes → Option Bytes
  pub point_from_hex : Units → Bool
  pub sha256-length : (b : Bytes) → length (sha256 b) ≡ 32
  pub sha256-AreBytes : (b : Bytes) → AreBytes (sha256 b)
  pub agreement :
      (a b : Bytes) (c d : Bool) {pa pb : Bytes}
      → get_public_key a c ≡ some pa
      → get_public_key b d ≡ some pb
      → get_shared_secret a pb ≡ get_shared_secret b pa
