-- ===== src/Crypto/Samples.antt =====
-- Concrete functions that meet the laws of Crypto/Primitives.antt, for tests: texts are Latin-1 or coded in
-- unary, the cipher and the hash are toys.
pub mod Texts
use Prim.Native.Char.{Char, char, code, nul, IsLt, IsScalar}
use Prim.Native.Nat.{compare, Ordering}
use Prim.Native.String
use text.Mathlib.TextEquality.{Char-path}
use mathlib.Core.Path.{ap₂}
use native.Mathlib.Nat.{add_comm}
use zero_mes.Common.{
  non_empty, true, ℕ, zero, suc, ◌+◌, ◌%◌, ◌<◌, ◌≡◌, refl, sym, subst, ap, ◌∙◌, Option-cases, inl,
  inr, String, Bool, true, false, ◌&&◌, ◌||◌, Option, none, some, List, [], ◌∷◌, ◌++◌, length,
  replicate, length-replicate, ltb, ◌==◌, All, arith, Bool-cases, if◌then◌else◌,
}
use zero_mes.Json.{Json, Value, str, obj, field, end}
use zero_mes.Crypto.Primitives.{
  Bytes, Units, AreBytes, strip_bom, Encoding, Subtle, JsonText, Curve, two_texts,
}
use zero_mes.Crypto.Samples.Texts.{
  text_of, codes, latin, to_unary, of_unary, to_char, unary, codes-text_of, text_of-codes,
  latin-AreBytes, latin_of_AreBytes, AreBytes-to_unary, of_unary-to_unary,
}

pub atob-btoa : (b : Bytes) → AreBytes b → latin (codes (text_of b)) ≡ some b
atob-btoa b h = rw (codes-text_of b h) (latin_of_AreBytes b h)

pub decode-encode :
    (s : String) → strip_bom (text_of (of_unary 0 (to_unary (codes s)))) ≡ strip_bom s
decode-encode s = rw (of_unary-to_unary (codes s), text_of-codes s)

unfoldable pub plain_encoding : Encoding
unfolding text_of latin codes to_unary of_unary to_char
plain_encoding = record {
  btoa = text_of;
  atob = λ s. latin (codes s);
  encode = λ s. to_unary (codes s);
  decode = λ b. strip_bom (text_of (of_unary 0 b));
  atob-btoa = atob-btoa;
  btoa-cons = λ x b. refl;
  atob-AreBytes = λ s e. latin-AreBytes (codes s) e;
  encode-AreBytes = λ s. AreBytes-to_unary (codes s);
  decode-encode = decode-encode;
}

unfoldable pub toy_key : Bytes → Option Bytes
toy_key k = if length k == 16 || length k == 24 || length k == 32 then some k else none

pub toy_key-256 : (k : Bytes) → length k ≡ 32 → toy_key k ≡ some k
unfolding toy_key
toy_key-256 k e = rw e

pub plain-AreBytes :
    (d : Bytes) {p : Bytes} → ◌≡◌ {A = Option Bytes} (some d) (some p) → AreBytes d → AreBytes p
plain-AreBytes d {p} e h = let same : d ≡ p = cc in subst AreBytes same h

-- The cipher that changes nothing.
unfoldable pub plain_subtle : Subtle
unfolding toy_key
plain_subtle = record {
  import_key = toy_key;
  encrypt = λ k iv d. d;
  decrypt = λ k iv d. some d;
  pbkdf2 = λ p s n. s;
  import_key-256 = toy_key-256;
  decrypt-encrypt = λ k iv d h. refl;
  encrypt-AreBytes = λ k iv d h. h;
  decrypt-AreBytes = λ k iv d e h. plain-AreBytes d e h;
}

unfoldable pub toy_hash : Bytes → Bytes
toy_hash b = replicate 32 (length b % 256)

pub AreBytes-replicate : (n b : ℕ) → b < 256 → AreBytes (replicate n b)
AreBytes-replicate zero b h = tt
AreBytes-replicate (suc n) b h = (h, AreBytes-replicate n b h)

unfoldable pub toy_secret : Bytes → Bytes → Option Bytes
toy_secret a b = some (replicate 33 ((length a + length b) % 256))

pub toy_agreement :
    (a b : Bytes) {pa pb : Bytes}
    → ◌≡◌ {A = Option Bytes} (some a) (some pa)
    → ◌≡◌ {A = Option Bytes} (some b) (some pb)
    → toy_secret a pb ≡ toy_secret b pa
unfolding toy_secret
toy_agreement a b {pa} {pb} ea eb =
    let same_a : a ≡ pa = cc in
    let same_b : b ≡ pb = cc in rw (← same_a, ← same_b, add_comm (length a) (length b))

-- A public key is the private key.
unfoldable pub toy_curve : Curve
unfolding toy_hash toy_secret
toy_curve = record {
  sha256 = toy_hash;
  get_public_key = λ k compressed. some k;
  get_shared_secret = toy_secret;
  point_from_hex = λ h. true;
  sha256-length = λ b. length-replicate 32 (length b % 256);
  sha256-AreBytes = λ b. AreBytes-replicate 32 (length b % 256) (omega arith);
  agreement = λ a b c d ea eb. toy_agreement a b ea eb;
}

-- The first text with a mark before each character, a second mark, and the second text.
unfoldable pub pack : String → String → String
pack String.[] n = String.◌∷◌ (to_char 98) n
pack (String.◌∷◌ c s) n = String.◌∷◌ (to_char 97) (String.◌∷◌ c (pack s n))

unfoldable pub unpack : String → Option (String × String)
unpack String.[] = none
unpack (String.◌∷◌ m String.[]) = if code m == 98 then some ("", "") else none
unpack (String.◌∷◌ m (String.◌∷◌ c s)) =
    let rest = unpack s in
    if code m == 98
    then some ("", String.◌∷◌ c s)
    else elim rest [ none ↦ none | some (t, n) ↦ some (String.◌∷◌ c t, n) ]

unpack-pack : (c n : String) → unpack (pack c n) ≡ some (c, n)
unfolding pack unpack to_char
unpack-pack String.[] String.[] = refl
unpack-pack String.[] (String.◌∷◌ d n) = refl
unpack-pack (String.◌∷◌ d c) n = rw (unpack-pack c n)

unfoldable pub toy_stringify : Json → String
unfolding pack
toy_stringify (obj (field j (str c) (field k (str n) end))) = pack c n
toy_stringify _ = ""

unfoldable pub toy_parse : String → Option Json
unfolding unpack
toy_parse s = elim (unpack s) [ none ↦ none | some (c, n) ↦ some (two_texts c n) ]

unfoldable pub toy_text : Value → String
toy_text (some (str s)) = s
toy_text _ = "undefined"

pub toy_parse-stringify :
    (c n : String) → toy_parse (toy_stringify (two_texts c n)) ≡ some (two_texts c n)
unfolding toy_parse toy_stringify
toy_parse-stringify c n = unfold toy_parse toy_stringify in rw (unpack-pack c n, toy_parse)

pub toy_stringify-non_empty : (c n : String) → non_empty (toy_stringify (two_texts c n)) ≡ true
unfolding toy_stringify pack
toy_stringify-non_empty String.[] n = refl
toy_stringify-non_empty (String.◌∷◌ d c) n = refl

unfoldable pub toy_json : JsonText
unfolding toy_parse toy_stringify toy_text
toy_json = record {
  parse = toy_parse;
  stringify = toy_stringify;
  to_text = toy_text;
  parse-stringify = toy_parse-stringify;
  stringify-non_empty = toy_stringify-non_empty;
  to_text-str = λ s. refl;
}
