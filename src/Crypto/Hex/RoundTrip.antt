-- ===== src/Crypto/Hex/RoundTrip.antt =====
-- toHex and fromHex of src/frontend/src/lib/crypto/ecc.ts are inverse to one another on bytes.
use mathlib.Core.List.{append_assoc}
use zero_mes.Common.{
  ℕ, zero, suc, ◌*◌, ◌/◌, ◌%◌, ◌<◌, ◌≡◌, refl, ap, sym, subst, ◌∙◌, ==_iff, inl, inr, Bool-cases,
  length-append, set-length-append, Bool, true, ◌&&◌, [], ◌∷◌, ◌++◌, ltb, ◌==◌, length, set,
  replicate, arith,
}
use zero_mes.Crypto.Primitives.{Bytes, Units, AreBytes}
use zero_mes.Crypto.Hex.{digit, to_base16, pad_start, to_hex, parse_byte, from_hex_loop, from_hex}

all_bytes : ℕ → (ℕ → Bool) → Bool
all_bytes zero p = true
all_bytes (suc n) p = p n && all_bytes n p

all_bytes_sound : (n : ℕ) (p : ℕ → Bool) (x : ℕ) → all_bytes n p ≡ true → x < n → p x ≡ true
unfolding all_bytes
all_bytes_sound zero p x h lt = absurd (omega arith)
all_bytes_sound (suc n) p x h lt = ground (arith, all_bytes_sound n p x)

-- The two digits of a byte are read back as the byte.
parse_byte_table : all_bytes 256 (λ b. parse_byte (pad_start (to_base16 b)) == b) ≡ true
unfolding all_bytes parse_byte pad_start to_base16
parse_byte_table = refl

parse_byte-byte : (b : ℕ) → b < 256 → parse_byte (pad_start (to_base16 b)) ≡ b
parse_byte-byte b h =
    (==_iff _ b).0
      (all_bytes_sound 256 (λ x. parse_byte (pad_start (to_base16 x)) == x) b parse_byte_table h)

pad_start-byte : (b : ℕ) → pad_start (to_base16 b) ≡ digit (b / 16) ∷ digit (b % 16) ∷ []
unfolding pad_start to_base16
pad_start-byte b = elim (Bool-cases (ltb b 16)) [
  | inl small ↦
      let quotient : b / 16 ≡ 0 = ground arith in
      let remainder : b % 16 ≡ b = ground arith in rw (small, quotient, remainder) refl
  | inr large ↦ rw large refl
]

from_hex_loop-byte :
    (b : ℕ) (k : ℕ) (rest : Units) (bytes : Bytes)
    → b < 256
    → from_hex_loop k (pad_start (to_base16 b) ++ rest) bytes
      ≡ from_hex_loop (suc k) rest (set bytes k b)
from_hex_loop-byte b k rest bytes h =
    let two = pad_start-byte b in
    let value : parse_byte (digit (b / 16) ∷ digit (b % 16) ∷ []) ≡ b =
      ap parse_byte (sym two) ∙ parse_byte-byte b h in
    rw two (unfold from_hex_loop in rw value)

from_hex_loop-to_hex :
    (bs pre : Bytes)
    → AreBytes bs
    → from_hex_loop (length pre) (to_hex bs) (pre ++ replicate (length bs) 0) ≡ pre ++ bs
unfolding to_hex
from_hex_loop-to_hex [] pre h = unfold from_hex_loop in refl
from_hex_loop-to_hex (b ∷ bs) pre (small, h) =
    from_hex_loop-byte b (length pre) (to_hex bs) _ small
    ∙ rw (set-length-append pre 0 b (replicate (length bs) 0), ← append_assoc pre (b ∷ []) bs)
        (subst
          (λ n.
            from_hex_loop n (to_hex bs) ((pre ++ b ∷ []) ++ replicate (length bs) 0)
            ≡ (pre ++ b ∷ []) ++ bs)
          (length-append pre (b ∷ []) ∙ omega arith) (from_hex_loop-to_hex bs (pre ++ b ∷ []) h))

-- Two hex digits for each byte.
pub length-to_hex : (bs : Bytes) → length (to_hex bs) ≡ 2 * length bs
unfolding to_hex
length-to_hex [] = refl
length-to_hex (b ∷ bs) = rw (pad_start-byte b) (omega (arith, length-to_hex bs))

-- fromHex gives back the bytes that toHex wrote.
pub from_hex-to_hex : (bs : Bytes) → AreBytes bs → from_hex (to_hex bs) ≡ bs
unfolding from_hex
from_hex-to_hex bs h =
    let half : length (to_hex bs) / 2 ≡ length bs = omega (arith, length-to_hex bs) in
    rw half (from_hex_loop-to_hex bs [] h)

-- So different byte arrays have different hex texts.
pub to_hex-injective : (xs ys : Bytes) → AreBytes xs → AreBytes ys → to_hex xs ≡ to_hex ys → xs ≡ ys
to_hex-injective xs ys h k e = sym (from_hex-to_hex xs h) ∙ ap from_hex e ∙ from_hex-to_hex ys k

-- A text of odd length loses its last digit: the write is past the end of the array.
from_hex_odd : from_hex (102 ∷ 102 ∷ 49 ∷ []) ≡ 255 ∷ []
unfolding from_hex
from_hex_odd = refl
