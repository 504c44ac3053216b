-- ===== src/Dates/Format.antt =====
-- formatTime and formatDateSeparator of src/frontend/src/utils/dateUtils.ts.
use zero_mes.Common.{
  ℕ, ◌-◌, Bool, true, not, Option, none, some, List, [], ◌∷◌, ◌++◌, ◌==◌, length, replicate,
  get_elem?, if◌then◌else◌,
}
use zero_mes.Dates.{Clock, DateInput, parse_date, is_today, is_yesterday, to_decimal}

-- toLocaleTimeString and toLocaleDateString, the latter with or without the year; `none` where they throw.
pub record Locale : Type 0 where
  pub time : Option ℕ → Option (List ℕ)
  pub day : Option ℕ → Bool → Option (List ℕ)

-- padStart(2, '0')
unfoldable pub pad_two : List ℕ → List ℕ
pad_two s = replicate (2 - length s) 48 ++ s

abbrev nan : List ℕ
nan = 78 ∷ 97 ∷ 78 ∷ []

abbrev pub manual_time : Clock → Option ℕ → List ℕ
manual_time k none = nan ++ 58 ∷ nan
manual_time k (some t) = pad_two (to_decimal (k.hours t)) ++ 58 ∷ pad_two (to_decimal (k.minutes t))

unfoldable pub format_time : Clock → Locale → DateInput → List ℕ
unfolding pad_two
format_time k l d =
    let date = parse_date k d in elim (l.time date) [ none ↦ manual_time k date | some s ↦ s ]

abbrev pub months : List (List ℕ)
months =
    (74 ∷ 97 ∷ 110 ∷ 117 ∷ 97 ∷ 114 ∷ 121 ∷ [])
    ∷ (70 ∷ 101 ∷ 98 ∷ 114 ∷ 117 ∷ 97 ∷ 114 ∷ 121 ∷ [])
    ∷ (77 ∷ 97 ∷ 114 ∷ 99 ∷ 104 ∷ [])
    ∷ (65 ∷ 112 ∷ 114 ∷ 105 ∷ 108 ∷ [])
    ∷ (77 ∷ 97 ∷ 121 ∷ [])
    ∷ (74 ∷ 117 ∷ 110 ∷ 101 ∷ [])
    ∷ (74 ∷ 117 ∷ 108 ∷ 121 ∷ [])
    ∷ (65 ∷ 117 ∷ 103 ∷ 117 ∷ 115 ∷ 116 ∷ [])
    ∷ (83 ∷ 101 ∷ 112 ∷ 116 ∷ 101 ∷ 109 ∷ 98 ∷ 101 ∷ 114 ∷ [])
    ∷ (79 ∷ 99 ∷ 116 ∷ 111 ∷ 98 ∷ 101 ∷ 114 ∷ [])
    ∷ (78 ∷ 111 ∷ 118 ∷ 101 ∷ 109 ∷ 98 ∷ 101 ∷ 114 ∷ [])
    ∷ (68 ∷ 101 ∷ 99 ∷ 101 ∷ 109 ∷ 98 ∷ 101 ∷ 114 ∷ [])
    ∷ []

-- The year of a Date is not the present one; NaN is not any year.
abbrev pub is_other_year : Clock → Option ℕ → Bool
is_other_year k none = true
is_other_year k (some t) = not ((k.local t).full_year == (k.local k.now).full_year)

-- `months[…]` in a template text, which writes `undefined` out
abbrev pub month_text : ℕ → List ℕ
month_text m = elim (get_elem? months m) [
  | none ↦ 117 ∷ 110 ∷ 100 ∷ 101 ∷ 102 ∷ 105 ∷ 110 ∷ 101 ∷ 100 ∷ []
  | some s ↦ s
]

abbrev pub manual_day : Clock → Option ℕ → List ℕ
manual_day k none =
    117 ∷ 110 ∷ 100 ∷ 101 ∷ 102 ∷ 105 ∷ 110 ∷ 101 ∷ 100 ∷ 32 ∷ 78 ∷ 97 ∷ 78 ∷ 44 ∷ 32 ∷ 78 ∷ 97 ∷ 78
    ∷ []
manual_day k (some t) =
    let d = k.local t in
    let short = month_text d.month ++ 32 ∷ to_decimal d.date in
    if is_other_year k (some t) then short ++ 44 ∷ 32 ∷ to_decimal d.full_year else short

unfoldable pub format_date_separator : Clock → Locale → DateInput → List ℕ
format_date_separator k l d =
    let date = parse_date k d in
    if is_today k date
    then 84 ∷ 111 ∷ 100 ∷ 97 ∷ 121 ∷ []
    else if is_yesterday k date
    then 89 ∷ 101 ∷ 115 ∷ 116 ∷ 101 ∷ 114 ∷ 100 ∷ 97 ∷ 121 ∷ []
    else elim (l.day date (is_other_year k date)) [ none ↦ manual_day k date | some s ↦ s ]
