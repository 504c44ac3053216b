-- ===== src/Crypto/Samples/Texts.antt =====
-- Texts of bytes, one character for each, and texts as bytes in unary, for the sample encodings.
use Prim.Native.Char.{Char, char, code, nul, IsLt, IsScalar}
use Prim.Native.Nat.{compare, Ordering}
use text.Mathlib.TextEquality.{Char-path}
use mathlib.Core.Path.{ap₂}
use zero_mes.Common.{
  ℕ, zero, suc, ◌+◌, ◌<◌, ◌≡◌, refl, sym, subst, ap, ◌∙◌, Option-cases, inl, inr, String, Option,
  none, some, [], ◌∷◌, ltb, arith, if◌then◌else◌,
}
use zero_mes.Crypto.Primitives.{Bytes, Units, AreBytes}

-- The clauses of the two helpers below `IsScalar`, which are private to its module.
abbrev pub Both : Ordering → Ordering → Type 0
Both Ordering.lt o = IsLt o
Both Ordering.eq _ = ⊥
Both Ordering.gt _ = ⊥

abbrev pub Scalar : Ordering → Ordering → Ordering → Type 0
Scalar Ordering.lt _ _ = Unit
Scalar Ordering.eq o p = Both o p
Scalar Ordering.gt o p = Both o p

unfoldable pub dec_lt : (o : Ordering) → Dec (IsLt o)
dec_lt Ordering.lt = yes tt
dec_lt Ordering.eq = no (λ h. h)
dec_lt Ordering.gt = no (λ h. h)

unfoldable pub dec_both : (o p : Ordering) → Dec (Both o p)
unfolding dec_lt
dec_both Ordering.lt o = dec_lt o
dec_both Ordering.eq _ = no (λ h. h)
dec_both Ordering.gt _ = no (λ h. h)

unfoldable pub dec_scalar : (o p q : Ordering) → Dec (Scalar o p q)
unfolding dec_both
dec_scalar Ordering.lt _ _ = yes tt
dec_scalar Ordering.eq p q = dec_both p q
dec_scalar Ordering.gt p q = dec_both p q

-- The character of a number, or NUL.
unfoldable pub to_char : ℕ → Char
unfolding dec_scalar
to_char n = elim (dec_scalar (compare n 55296) (compare 57343 n) (compare n 1114112)) [
  | yes p ↦ char n p
  | no _ ↦ nul
]

to_char-code : (c : Char) → to_char (code c) ≡ c
unfolding to_char
to_char-code (char n p) =
    go (dec_scalar (compare n 55296) (compare 57343 n) (compare n 1114112)) refl
  where
    go :
        (d : Dec (Scalar (compare n 55296) (compare 57343 n) (compare n 1114112)))
        → dec_scalar (compare n 55296) (compare 57343 n) (compare n 1114112) ≡ d
        → to_char n ≡ char n p
    go (yes q) e = rw (e, to_char) (Char-path (char n q) (char n p) refl)
    go (no h) e = absurd (h p)

byte-IsScalar : (b : ℕ) → b < 256 → IsScalar b
byte-IsScalar b h =
    let e : compare b 55296 ≡ Ordering.lt = ground arith in
    subst (λ o. Scalar o (compare 57343 b) (compare b 1114112)) (sym e) tt

code-to_char : (b : ℕ) → b < 256 → code (to_char b) ≡ b
code-to_char b h = ap code (to_char-code (char b (byte-IsScalar b h)))

unfoldable pub text_of : Units → String
text_of [] = String.[]
text_of (c ∷ cs) = String.◌∷◌ (to_char c) (text_of cs)

unfoldable pub codes : String → Units
codes String.[] = []
codes (String.◌∷◌ c s) = code c ∷ codes s

pub text_of-codes : (s : String) → text_of (codes s) ≡ s
unfolding text_of codes
text_of-codes String.[] = refl
text_of-codes (String.◌∷◌ c s) = rw (to_char-code c, text_of-codes s)

pub codes-text_of : (b : Bytes) → AreBytes b → codes (text_of b) ≡ b
unfolding text_of codes
codes-text_of [] h = refl
codes-text_of (b ∷ bs) (small, h) = rw (code-to_char b small, codes-text_of bs h)

-- Units that are all below 256.
unfoldable pub latin : Units → Option Bytes
latin [] = some []
latin (c ∷ cs) = elim (latin cs) [ none ↦ none | some b ↦ if ltb c 256 then some (c ∷ b) else none ]

pub latin-AreBytes : (cs : Units) {b : Bytes} → latin cs ≡ some b → AreBytes b
unfolding latin
latin-AreBytes [] e = ground arith
latin-AreBytes (c ∷ cs) {b} e = elim (Option-cases (latin cs)) [
  | inl n ↦ ground arith
  | inr (d, n) ↦ ground (arith, latin-AreBytes cs {b = d} n)
]

pub latin_of_AreBytes : (b : Bytes) → AreBytes b → latin b ≡ some b
unfolding latin
latin_of_AreBytes [] h = refl
latin_of_AreBytes (b ∷ bs) (small, h) = rw (latin_of_AreBytes bs h) (ground arith)

-- A number as so many ones, then a zero.
unfoldable pub unary : ℕ → Bytes → Bytes
unary zero rest = 0 ∷ rest
unary (suc n) rest = 1 ∷ unary n rest

unfoldable pub to_unary : Units → Bytes
unfolding unary
to_unary [] = []
to_unary (c ∷ cs) = unary c (to_unary cs)

unfoldable pub of_unary : ℕ → Bytes → Units
of_unary n [] = []
of_unary n (zero ∷ rest) = n ∷ of_unary 0 rest
of_unary n (suc b ∷ rest) = of_unary (suc n) rest

AreBytes-unary : (n : ℕ) (rest : Bytes) → AreBytes rest → AreBytes (unary n rest)
unfolding unary
AreBytes-unary zero rest h = (omega arith, h)
AreBytes-unary (suc n) rest h = (omega arith, AreBytes-unary n rest h)

pub AreBytes-to_unary : (cs : Units) → AreBytes (to_unary cs)
unfolding to_unary
AreBytes-to_unary [] = tt
AreBytes-to_unary (c ∷ cs) = AreBytes-unary c (to_unary cs) (AreBytes-to_unary cs)

of_unary-unary : (m n : ℕ) (rest : Bytes) → of_unary m (unary n rest) ≡ (m + n) ∷ of_unary 0 rest
unfolding of_unary unary
of_unary-unary m zero rest = ap (λ k. k ∷ of_unary 0 rest) (omega arith)
of_unary-unary m (suc n) rest =
    of_unary-unary (suc m) n rest ∙ ap (λ k. k ∷ of_unary 0 rest) (omega arith)

pub of_unary-to_unary : (cs : Units) → of_unary 0 (to_unary cs) ≡ cs
unfolding to_unary
of_unary-to_unary [] = unfold of_unary in refl
of_unary-to_unary (c ∷ cs) =
    of_unary-unary 0 c (to_unary cs) ∙ ap₂ (λ a b. a ∷ b) (omega arith) (of_unary-to_unary cs)
