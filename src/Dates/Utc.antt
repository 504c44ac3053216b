-- ===== src/Dates/Utc.antt =====
-- Time stamps that parseDate normalises.
use zero_mes.Common.{
  ℕ, suc, ◌≡◌, refl, ap, ◌∙◌, Bool, true, false, List, [], ◌∷◌, ◌++◌, length, length-append, leb,
  is_some, is_space, skip_spaces, arith, Bool-cases, inl, inr,
}
use zero_mes.Dates.{
  Clock, DateInput, text, number, is_empty, trim_end, trim, is_utc_offset, replace_utc_offset,
  test_end, is_z, is_offset, has_timezone, includes, add_z, normalize, max_time, parse_date,
}

abbrev pub utc_plus : List ℕ
utc_plus = 0x2b ∷ 48 ∷ 48 ∷ 58 ∷ 48 ∷ 48 ∷ []

abbrev pub utc_minus : List ℕ
utc_minus = 0x2d ∷ 48 ∷ 48 ∷ 58 ∷ 48 ∷ 48 ∷ []

abbrev pub zulu : List ℕ
zulu = 90 ∷ []

-- A text that starts and ends with what `trim` keeps.
is_empty-append : (s t : List ℕ) → is_empty t ≡ false → is_empty (s ++ t) ≡ false
is_empty-append [] t n = n
is_empty-append (c ∷ s) t n = refl

trim_end-append : (s t : List ℕ) → is_empty t ≡ false → trim_end t ≡ t → trim_end (s ++ t) ≡ s ++ t
unfolding trim_end
trim_end-append [] t n e = e
trim_end-append (c ∷ s) t n e =
    let rest = trim_end-append s t n e in let kept = is_empty-append s t n in ground arith

trim-append :
    (c : ℕ) (s t : List ℕ)
    → is_space c ≡ false
    → is_empty t ≡ false
    → trim_end t ≡ t
    → trim ((c ∷ s) ++ t) ≡ (c ∷ s) ++ t
unfolding trim skip_spaces
trim-append c s t b n e = rw b (trim_end-append (c ∷ s) t n e)

is_utc_offset-length : (s : List ℕ) → is_utc_offset s ≡ true → length s ≡ 6
unfolding is_utc_offset
is_utc_offset-length [] h = ground arith
is_utc_offset-length (a ∷ []) h = ground arith
is_utc_offset-length (a ∷ b ∷ []) h = ground arith
is_utc_offset-length (a ∷ b ∷ c ∷ []) h = ground arith
is_utc_offset-length (a ∷ b ∷ c ∷ d ∷ []) h = ground arith
is_utc_offset-length (a ∷ b ∷ c ∷ d ∷ e ∷ []) h = ground arith
is_utc_offset-length (a ∷ b ∷ c ∷ d ∷ e ∷ f ∷ []) h = refl
is_utc_offset-length (a ∷ b ∷ c ∷ d ∷ e ∷ f ∷ g ∷ s) h = ground arith

is_utc_offset-zulu : (s : List ℕ) → is_utc_offset (s ++ zulu) ≡ false
unfolding is_utc_offset
is_utc_offset-zulu [] = refl
is_utc_offset-zulu (a ∷ []) = refl
is_utc_offset-zulu (a ∷ b ∷ []) = refl
is_utc_offset-zulu (a ∷ b ∷ c ∷ []) = refl
is_utc_offset-zulu (a ∷ b ∷ c ∷ d ∷ []) = refl
is_utc_offset-zulu (a ∷ b ∷ c ∷ d ∷ e ∷ []) = ground arith
is_utc_offset-zulu (a ∷ b ∷ c ∷ d ∷ e ∷ f ∷ []) = refl
is_utc_offset-zulu (a ∷ b ∷ c ∷ d ∷ e ∷ f ∷ g ∷ s) = refl

is_utc_offset-Offset : (s : List ℕ) → is_offset s ≡ false → is_utc_offset s ≡ false
unfolding is_utc_offset
is_utc_offset-Offset [] h = refl
is_utc_offset-Offset (a ∷ []) h = refl
is_utc_offset-Offset (a ∷ b ∷ []) h = refl
is_utc_offset-Offset (a ∷ b ∷ c ∷ []) h = refl
is_utc_offset-Offset (a ∷ b ∷ c ∷ d ∷ []) h = refl
is_utc_offset-Offset (a ∷ b ∷ c ∷ d ∷ e ∷ []) h = refl
is_utc_offset-Offset (a ∷ b ∷ c ∷ d ∷ e ∷ f ∷ []) h = ground arith
is_utc_offset-Offset (a ∷ b ∷ c ∷ d ∷ e ∷ f ∷ g ∷ s) h = refl

replace-zulu : (s : List ℕ) → replace_utc_offset (s ++ zulu) ≡ s ++ zulu
unfolding replace_utc_offset is_utc_offset
replace-zulu [] = refl
replace-zulu (c ∷ s) = rw (is_utc_offset-zulu (c ∷ s)) (ap (◌∷◌ c) (replace-zulu s))

replace-kept : (s : List ℕ) → test_end is_offset s ≡ false → replace_utc_offset s ≡ s
unfolding replace_utc_offset test_end
replace-kept [] e = refl
replace-kept (c ∷ s) e =
    let here : is_utc_offset (c ∷ s) ≡ false = is_utc_offset-Offset (c ∷ s) (ground arith) in
    let later : test_end is_offset s ≡ false = ground arith in
    rw here (ap (◌∷◌ c) (replace-kept s later))

longer : (c : ℕ) (s t : List ℕ) → length t ≡ 6 → is_utc_offset (c ∷ s ++ t) ≡ false
longer c s t e = elim (Bool-cases (is_utc_offset (c ∷ s ++ t))) [
  | inl h ↦
      let six : suc (length (s ++ t)) ≡ 6 = is_utc_offset-length (c ∷ s ++ t) h in
      ground (arith, six, length-append s t, e)
  | inr h ↦ h
]

replace-offset : (s t : List ℕ) → is_utc_offset t ≡ true → replace_utc_offset (s ++ t) ≡ s ++ zulu
unfolding replace_utc_offset
replace-offset [] [] e = ground (arith, is_utc_offset-length [] e)
replace-offset [] (c ∷ t) e = rw e refl
replace-offset (c ∷ s) t e =
    rw (longer c s t (is_utc_offset-length t e)) (ap (◌∷◌ c) (replace-offset s t e))

test_end-zulu : (s : List ℕ) → test_end is_z (s ++ zulu) ≡ true
unfolding test_end
test_end-zulu [] = refl
test_end-zulu (c ∷ s) = ground (arith, test_end-zulu s)

add_z-zulu : (s : List ℕ) → add_z (s ++ zulu) ≡ s ++ zulu
unfolding add_z has_timezone
add_z-zulu s = ground (arith, test_end-zulu s)

trim-kept :
    (c : ℕ) (s : List ℕ) → is_space c ≡ false → trim_end (c ∷ s) ≡ c ∷ s → trim (c ∷ s) ≡ c ∷ s
unfolding trim skip_spaces
trim-kept c s b e = rw b e

added : (s : List ℕ) → has_timezone s ≡ false → includes 84 s ≡ true → add_z s ≡ s ++ zulu
unfolding add_z
added s z t = rw (z, t) refl

normalize-replaced :
    (c : ℕ) (s t : List ℕ)
    → is_space c ≡ false
    → is_empty t ≡ false
    → trim_end t ≡ t
    → replace_utc_offset ((c ∷ s) ++ t) ≡ (c ∷ s) ++ zulu
    → normalize ((c ∷ s) ++ t) ≡ (c ∷ s) ++ zulu
unfolding normalize
normalize-replaced c s t b n e r =
    ap (λ x. add_z (replace_utc_offset x)) (trim-append c s t b n e)
    ∙ ap add_z r
    ∙ add_z-zulu (c ∷ s)

-- Every way to write a UTC time stamp normalises to the same text: an offset +00:00, an offset -00:00, a `Z`,
-- and no time zone. The time stamp has a time, no time zone of its own and no space around it.
pub normalize-utc :
    (c : ℕ) (s : List ℕ)
    → is_space c ≡ false
    → trim_end (c ∷ s) ≡ c ∷ s
    → has_timezone (c ∷ s) ≡ false
    → includes 84 (c ∷ s) ≡ true
    → (normalize ((c ∷ s) ++ utc_plus) ≡ (c ∷ s) ++ zulu)
      × (normalize ((c ∷ s) ++ utc_minus) ≡ (c ∷ s) ++ zulu)
      × (normalize ((c ∷ s) ++ zulu) ≡ (c ∷ s) ++ zulu)
      × (normalize (c ∷ s) ≡ (c ∷ s) ++ zulu)
unfolding normalize trim_end is_space is_utc_offset has_timezone
normalize-utc c s b e z t =
    let untimed : test_end is_offset (c ∷ s) ≡ false = ground arith in
    (
      normalize-replaced c s utc_plus b refl refl (replace-offset (c ∷ s) utc_plus refl),
      normalize-replaced c s utc_minus b refl refl (replace-offset (c ∷ s) utc_minus refl),
      normalize-replaced c s zulu b refl refl (replace-zulu (c ∷ s)),
      ap (λ x. add_z (replace_utc_offset x)) (trim-kept c s b e)
          ∙ ap add_z (replace-kept (c ∷ s) untimed)
          ∙ added (c ∷ s) z t,
    )

-- What a Date can hold of an input.
abbrev pub in_range : DateInput → Bool
in_range (text s) = true
in_range (number n) = leb n max_time

-- A time stamp that is a text always gives a valid Date. A number does exactly when it is within the range of
-- a Date, which parseDate does not check.
pub parse_date-valid : (k : Clock) (d : DateInput) → is_some (parse_date k d) ≡ in_range d
unfolding parse_date
parse_date-valid k (text s) = ground arith
parse_date-valid k (number n) = ground arith
