-- ===== src/Crypto/Hex.antt =====
-- toHex and fromHex of src/frontend/src/lib/crypto/ecc.ts, with what they use of JavaScript:
-- Number.prototype.toString(16), padStart and parseInt(…, 16).
pub mod RoundTrip
use zero_mes.Common.{
  is_space, skip_spaces, ℕ, zero, suc, ◌+◌, ◌-◌, ◌*◌, ◌/◌, ◌%◌, ◌<◌, ◌≡◌, refl, ap, sym, subst, ◌∙◌,
  ==_iff, inl, inr, Bool-cases, length-append, Bool, true, false, ◌&&◌, ◌||◌, Option, none, some,
  List, [], ◌∷◌, ◌++◌, ltb, leb, ◌==◌, length, set, replicate, arith, if◌then◌else◌,
}
use zero_mes.Crypto.Primitives.{Bytes, Units, AreBytes}

digit : ℕ → ℕ
digit d = if ltb d 10 then 48 + d else 87 + d

-- b.toString(16) of a byte
to_base16 : ℕ → Units
unfolding digit
to_base16 b = if ltb b 16 then digit b ∷ [] else digit (b / 16) ∷ digit (b % 16) ∷ []

-- padStart(2, '0') of a text that is not empty
pad_start : Units → Units
pad_start (a ∷ []) = 48 ∷ a ∷ []
pad_start s = s

unfoldable pub to_hex : Bytes → Units
unfolding to_base16 pad_start
to_hex [] = []
to_hex (b ∷ bs) = pad_start (to_base16 b) ++ to_hex bs

hex_value : ℕ → Option ℕ
hex_value c =
    if leb 48 c && leb c 57
    then some (c - 48)
    else if leb 97 c && leb c 102
    then some (c - 87)
    else if leb 65 c && leb c 70
    then some (c - 55)
    else none

-- The longest run of digits; `none` is NaN.
parse_digits : Option ℕ → Units → Option ℕ
unfolding hex_value
parse_digits acc [] = acc
parse_digits acc (c ∷ s) = elim (hex_value c) [
  | none ↦ acc
  | some d ↦ elim acc [
    | none ↦ parse_digits (some d) s
    | some n ↦ parse_digits (some (16 * n + d)) s
  ]
]

skip_prefix : Units → Units
skip_prefix (z ∷ x ∷ s) = if z == 48 && (x == 120 || x == 88) then s else z ∷ x ∷ s
skip_prefix s = s

-- What an element of a Uint8Array becomes when a number, its sign first, or NaN is stored.
to_uint8 : Bool → Option ℕ → ℕ
to_uint8 negative none = 0
to_uint8 false (some n) = n % 256
to_uint8 true (some n) = (256 - n % 256) % 256

-- bytes[…] = parseInt(s, 16)
parse_signed : Units → ℕ
unfolding to_uint8 parse_digits skip_prefix
parse_signed [] = to_uint8 false none
parse_signed (c ∷ s) =
    if c == 45
    then to_uint8 true (parse_digits none (skip_prefix s))
    else if c == 43
    then to_uint8 false (parse_digits none (skip_prefix s))
    else to_uint8 false (parse_digits none (skip_prefix (c ∷ s)))

parse_byte : Units → ℕ
unfolding parse_signed skip_spaces
parse_byte s = parse_signed (skip_spaces s)

-- The loop of fromHex from index 2 · k on, where `rest` is what is left of the text.
from_hex_loop : ℕ → Units → Bytes → Bytes
unfolding parse_byte
from_hex_loop k [] bytes = bytes
from_hex_loop k (a ∷ []) bytes = set bytes k (parse_byte (a ∷ []))
from_hex_loop k (a ∷ b ∷ rest) bytes =
    from_hex_loop (suc k) rest (set bytes k (parse_byte (a ∷ b ∷ [])))

unfoldable pub from_hex : Units → Bytes
unfolding from_hex_loop
from_hex hex = from_hex_loop 0 hex (replicate (length hex / 2) 0)
