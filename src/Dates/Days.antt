-- ===== src/Dates/Days.antt =====
-- The keys by which messages are grouped into days.
use zero_mes.Common.{
  ℕ, zero, suc, ◌+◌, ◌-◌, ◌*◌, ◌/◌, ◌%◌, ◌≤◌, ◌≡◌, ◌↔◌, refl, ap, sym, ◌∙◌, true, Option, none,
  some, List, [], ◌∷◌, ◌++◌, ltb, All, All-append, is_some, Bool-cases, inl, inr, arith,
}
use zero_mes.Dates.{
  Clock, Day, text, parse_date, is_same_day, digits, to_decimal, day_key, date_key, get_date_key,
}
use zero_mes.Dates.Utc.{parse_date-valid}

-- What a run of digits is worth, read from the left.
abbrev value : ℕ → List ℕ → ℕ
value acc [] = acc
value acc (c ∷ s) = value (acc * 10 + (c - 48)) s

value-append :
    (acc : ℕ) (s : List ℕ) (c : ℕ) → value acc (s ++ c ∷ []) ≡ value acc s * 10 + (c - 48)
value-append acc [] c = refl
value-append acc (d ∷ s) c = value-append (acc * 10 + (d - 48)) s c

value-digits : (bound n : ℕ) → n ≤ bound → value 0 (digits bound n) ≡ n
unfolding digits
value-digits zero n h = omega (arith, h)
value-digits (suc b) n h = elim (Bool-cases (ltb n 10)) [
  | inl small ↦ rw small (omega arith)
  | inr large ↦
      let high = value-digits b (n / 10) (omega (arith, h)) in
      rw large (omega (arith, high, value-append 0 (digits b (n / 10)) (48 + n % 10)))
]

-- No digit is a dash.
abbrev IsDigit : ℕ → Type 0
IsDigit c = 48 ≤ c

digits-IsDigit : (bound n : ℕ) → All IsDigit (digits bound n)
unfolding digits
digits-IsDigit zero n = (omega arith, tt)
digits-IsDigit (suc b) n = elim (Bool-cases (ltb n 10)) [
  | inl small ↦ rw small (omega arith, tt)
  | inr large ↦
      rw large
        (All-append IsDigit (digits b (n / 10)) _ (digits-IsDigit b (n / 10)) (omega arith, tt))
]

split :
    (s t u v : List ℕ)
    → All IsDigit s
    → All IsDigit t
    → s ++ 45 ∷ u ≡ t ++ 45 ∷ v
    → (s ≡ t) × (u ≡ v)
split [] [] u v a b e = (refl, ground arith)
split [] (d ∷ t) u v a b e = ground arith
split (c ∷ s) [] u v a b e = ground arith
split (c ∷ s) (d ∷ t) u v a b e =
    let tails : s ++ 45 ∷ u ≡ t ++ 45 ∷ v = ground arith in
    let (same, rest) = split s t u v a.1 b.1 tails in (ground arith, rest)

to_decimal-injective : (m n : ℕ) → to_decimal m ≡ to_decimal n → m ≡ n
unfolding to_decimal
to_decimal-injective m n e =
    sym (value-digits m m (omega arith)) ∙ ap (λ s. value 0 s) e ∙ value-digits n n (omega arith)

day_key-injective :
    (d e : Day)
    → day_key d ≡ day_key e
    → (d.full_year ≡ e.full_year) × (d.month ≡ e.month) × (d.date ≡ e.date)
unfolding to_decimal
day_key-injective d e h =
    let (year, rest) =
      split (to_decimal d.full_year) (to_decimal e.full_year) _ _
        (digits-IsDigit d.full_year d.full_year) (digits-IsDigit e.full_year e.full_year) h in
    let (month, date) =
      split (to_decimal d.month) (to_decimal e.month) _ _ (digits-IsDigit d.month d.month)
        (digits-IsDigit e.month e.month) rest in
    (
      to_decimal-injective d.full_year e.full_year year,
      to_decimal-injective d.month e.month month,
      to_decimal-injective d.date e.date date,
    )

date_key-same_day :
    (k : Clock) (a b : Option ℕ)
    → is_some a ≡ true
    → is_some b ≡ true
    → (date_key k a ≡ date_key k b) ↔ (is_same_day k a b ≡ true)
unfolding is_same_day
date_key-same_day k none b x y = ground arith
date_key-same_day k (some t) none x y = ground arith
date_key-same_day k (some t) (some u) x y = (
  λ e. let (year, month, date) = day_key-injective (k.local t) (k.local u) e in ground arith,
  λ e.
      let year : (k.local t).full_year ≡ (k.local u).full_year = ground arith in
      let month : (k.local t).month ≡ (k.local u).month = ground arith in
      let date : (k.local t).date ≡ (k.local u).date = ground arith in
      λ i. day_key (record { full_year = year i; month = month i; date = date i }),
)

-- Two messages get the same key exactly when their Dates are on the same day.
pub get_date_key-same_day :
    (k : Clock) (s t : List ℕ)
    → (get_date_key k s ≡ get_date_key k t)
      ↔ (is_same_day k (parse_date k (text s)) (parse_date k (text t)) ≡ true)
unfolding get_date_key
get_date_key-same_day k s t =
    date_key-same_day k (parse_date k (text s)) (parse_date k (text t))
      (parse_date-valid k (text s)) (parse_date-valid k (text t))
