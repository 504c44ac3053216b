-- ===== src/Dates.antt =====
-- parseDate, isSameDay, isToday, isYesterday and getDateKey of src/frontend/src/utils/dateUtils.ts. A text is the list of its UTF-16 code units. The Date
-- constructor on a text and the present time are parameters. Numbers are not negative. Console output is not modelled.
pub mod Utc
pub mod Days
pub mod Format
mod Tests
use zero_mes.Common.{
  ℕ, zero, suc, ◌+◌, ◌/◌, ◌%◌, ◌*◌, Bool, true, false, not, Option, none, some, List, [], ◌∷◌, ◌++◌,
  ◌&&◌, ◌||◌, ◌==◌, ltb, leb, is_space, skip_spaces, if◌then◌else◌,
}

-- A day as getFullYear, getMonth and getDate give it; years are not negative.
pub record Day : Type 0 where
  pub full_year : ℕ
  pub month : ℕ
  pub date : ℕ

-- `parse` is the time of `new Date(text)` in milliseconds, `none` where that is an Invalid Date.
-- `local` is the day of a time in the time zone of the browser, `day_before` the time after
-- `setDate(getDate() - 1)`.
pub record Clock : Type 0 where
  pub parse : List ℕ → Option ℕ
  pub now : ℕ
  pub local : ℕ → Day
  pub hours : ℕ → ℕ
  pub minutes : ℕ → ℕ
  pub day_before : ℕ → ℕ

pub data DateInput : Type 0 where
  text : List ℕ → DateInput
  number : ℕ → DateInput

abbrev pub is_empty : List ℕ → Bool
is_empty [] = true
is_empty (_ ∷ _) = false

unfoldable pub trim_end : List ℕ → List ℕ
trim_end [] = []
trim_end (c ∷ s) = let rest = trim_end s in if is_empty rest && is_space c then [] else c ∷ rest

unfoldable pub trim : List ℕ → List ℕ
unfolding trim_end
trim s = trim_end (skip_spaces s)

-- /[+-]00:00/ on a whole text
unfoldable pub is_utc_offset : List ℕ → Bool
is_utc_offset (s ∷ a ∷ b ∷ c ∷ d ∷ e ∷ []) =
    (s == 0x2b || s == 0x2d) && a == 48 && b == 48 && c == 58 && d == 48 && e == 48
is_utc_offset _ = false

-- replace(/([+-])00:00$/, 'Z')
unfoldable pub replace_utc_offset : List ℕ → List ℕ
replace_utc_offset [] = []
replace_utc_offset (c ∷ s) =
    let rest = replace_utc_offset s in if is_utc_offset (c ∷ s) then 90 ∷ [] else c ∷ rest

-- A test of a pattern that ends in `$`: does some end of the text match?
unfoldable pub test_end : (List ℕ → Bool) → List ℕ → Bool
test_end p [] = p []
test_end p (c ∷ s) = p (c ∷ s) || test_end p s

abbrev pub is_z : List ℕ → Bool
is_z (c ∷ []) = c == 90
is_z _ = false

abbrev pub is_digit : ℕ → Bool
is_digit c = leb 48 c && leb c 57

-- /[+-]\d{2}:\d{2}/ and /[+-]\d{4}/ on a whole text
abbrev pub is_offset : List ℕ → Bool
is_offset (s ∷ a ∷ b ∷ c ∷ d ∷ e ∷ []) =
    (s == 0x2b || s == 0x2d) && is_digit a && is_digit b && c == 58 && is_digit d && is_digit e
is_offset _ = false

abbrev pub is_basic_offset : List ℕ → Bool
is_basic_offset (s ∷ a ∷ b ∷ c ∷ d ∷ []) =
    (s == 0x2b || s == 0x2d) && is_digit a && is_digit b && is_digit c && is_digit d
is_basic_offset _ = false

unfoldable pub has_timezone : List ℕ → Bool
has_timezone s = test_end is_z s || test_end is_offset s || test_end is_basic_offset s

-- `includes` of one character
unfoldable pub includes : ℕ → List ℕ → Bool
includes c [] = false
includes c (x ∷ s) = x == c || includes c s

unfoldable pub add_z : List ℕ → List ℕ
add_z s = if not (has_timezone s) && includes 84 s then s ++ 90 ∷ [] else s

unfoldable pub normalize : List ℕ → List ℕ
unfolding trim replace_utc_offset add_z
normalize s = add_z (replace_utc_offset (trim s))

-- The times that a Date can hold
abbrev pub max_time : ℕ
max_time = 8640000000000000

abbrev time_of : ℕ → Option ℕ
time_of n = if leb n max_time then some n else none

-- The time of the Date that is returned; `none` is an Invalid Date.
unfoldable pub parse_date : Clock → DateInput → Option ℕ
unfolding normalize
parse_date c (text s) =
    if is_empty s
    then some c.now
    else elim (c.parse (normalize s)) [ none ↦ some c.now | some t ↦ some t ]
parse_date c (number n) =
    if n == 0 then some c.now else time_of (if ltb n 10000000000 then n * 1000 else n)

unfoldable pub is_same_day : Clock → (date1 date2 : Option ℕ) → Bool
is_same_day k none _ = false
is_same_day k (some t) none = false
is_same_day k (some t) (some u) =
    let d = k.local t in
    let e = k.local u in d.full_year == e.full_year && d.month == e.month && d.date == e.date

unfoldable pub is_today : Clock → Option ℕ → Bool
is_today k date = is_same_day k date (some k.now)

unfoldable pub is_yesterday : Clock → Option ℕ → Bool
is_yesterday k date = is_same_day k date (some (k.day_before k.now))

-- A number in a template text; the number itself bounds its digits.
unfoldable pub digits : (bound n : ℕ) → List ℕ
digits zero n = (48 + n) ∷ []
digits (suc bound) n =
    let high = digits bound (n / 10) in
    if ltb n 10 then (48 + n) ∷ [] else high ++ (48 + n % 10) ∷ []

unfoldable pub to_decimal : ℕ → List ℕ
unfolding digits
to_decimal n = digits n n

abbrev pub day_key : Day → List ℕ
day_key d = to_decimal d.full_year ++ 45 ∷ (to_decimal d.month ++ 45 ∷ to_decimal d.date)

-- The parts of an Invalid Date are NaN.
abbrev pub not_a_day : List ℕ
not_a_day = 78 ∷ 97 ∷ 78 ∷ 45 ∷ 78 ∷ 97 ∷ 78 ∷ 45 ∷ 78 ∷ 97 ∷ 78 ∷ []

abbrev pub date_key : Clock → Option ℕ → List ℕ
date_key k none = not_a_day
date_key k (some t) = day_key (k.local t)

unfoldable pub get_date_key : Clock → List ℕ → List ℕ
get_date_key k s = date_key k (parse_date k (text s))
