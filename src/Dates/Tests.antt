-- ===== src/Dates/Tests.antt =====
-- Runs of parseDate, and the theorems at concrete inputs.
use zero_mes.Common.{
  true, ◌-◌, ℕ, ◌≡◌, refl, false, none, some, List, [], ◌∷◌, ◌++◌, is_space, skip_spaces,
}
use zero_mes.Dates.{
  Clock, Day, text, number, trim_end, trim, is_utc_offset, replace_utc_offset, test_end,
  has_timezone, includes, add_z, normalize, parse_date, is_same_day, is_today, is_yesterday,
  to_decimal, digits, get_date_key,
}
use zero_mes.Dates.Format.{Locale, pad_two, format_time, format_date_separator}
use zero_mes.Dates.Days.{get_date_key-same_day}
use zero_mes.Dates.Utc.{zulu}

-- 2024-01-01T12:00:00
abbrev noon : List ℕ
noon =
    50 ∷ 48 ∷ 50 ∷ 52 ∷ 45 ∷ 48 ∷ 49 ∷ 45 ∷ 48 ∷ 49 ∷ 84 ∷ 49 ∷ 50 ∷ 58 ∷ 48 ∷ 48 ∷ 58 ∷ 48 ∷ 48
    ∷ []

abbrev lisbon : List ℕ
lisbon = noon ++ 0x2b ∷ 48 ∷ 49 ∷ 58 ∷ 48 ∷ 48 ∷ []

abbrev day : Day
day = record { full_year = 2024; month = 0; date = 1 }

abbrev clock : Clock
clock = record {
  parse = λ s. none;
  now = 1700000000000;
  local = λ t. day;
  hours = λ t. 9;
  minutes = λ t. 5;
  day_before = λ t. t - 86400000;
}

-- An offset that is not UTC stays, spaces around a time stamp go, and seconds become milliseconds.
normalize_tests :
    (normalize lisbon ≡ lisbon)
    × (normalize (32 ∷ noon ++ 10 ∷ []) ≡ noon ++ zulu)
    × (parse_date clock (number 1700000000) ≡ some 1700000000000)
    × (parse_date clock (number 9000000000000000) ≡ none)
    × (parse_date clock (text noon) ≡ some 1700000000000)
unfolding normalize trim trim_end skip_spaces is_space is_utc_offset replace_utc_offset add_z
    has_timezone test_end includes parse_date
normalize_tests = (refl, refl, refl, refl, refl)

-- Two times in one day, which the clock's days do not tell apart.
get_date_key_tests :
    (get_date_key clock noon ≡ 50 ∷ 48 ∷ 50 ∷ 52 ∷ 45 ∷ 48 ∷ 45 ∷ 49 ∷ [])
    × (is_yesterday clock (some 1699999999999) ≡ true)
    × (is_today clock none ≡ false)
unfolding get_date_key parse_date to_decimal digits is_yesterday is_today is_same_day normalize trim
    trim_end skip_spaces is_space is_utc_offset replace_utc_offset add_z has_timezone test_end
    includes
get_date_key_tests = (refl, refl, refl)

get_date_key-same_day_example : get_date_key clock noon ≡ get_date_key clock lisbon
unfolding parse_date is_same_day normalize trim trim_end skip_spaces is_space is_utc_offset
    replace_utc_offset add_z has_timezone test_end includes
get_date_key-same_day_example = (get_date_key-same_day clock noon lisbon).1 refl

-- A platform that throws, and days that go by the milliseconds.
abbrev throws : Locale
throws = record { time = λ date. none; day = λ date with_year. none }

abbrev new_year : Clock
new_year = record clock {
  local = λ t. record { full_year = 2023; month = 11; date = t };
  now = 31;
  day_before = λ t. t - 1;
}

-- 09:05, Today, Yesterday, December 7
format_tests :
    (format_time clock throws (text []) ≡ 48 ∷ 57 ∷ 58 ∷ 48 ∷ 53 ∷ [])
    × (format_date_separator new_year throws (number 0) ≡ 84 ∷ 111 ∷ 100 ∷ 97 ∷ 121 ∷ [])
    × (format_date_separator (record new_year { parse = λ s. some 30 }) throws (text noon)
        ≡ 89 ∷ 101 ∷ 115 ∷ 116 ∷ 101 ∷ 114 ∷ 100 ∷ 97 ∷ 121 ∷ [])
    × (format_date_separator (record new_year { parse = λ s. some 7 }) throws (text noon)
        ≡ 68 ∷ 101 ∷ 99 ∷ 101 ∷ 109 ∷ 98 ∷ 101 ∷ 114 ∷ 32 ∷ 55 ∷ [])
unfolding format_time format_date_separator pad_two parse_date to_decimal digits is_yesterday
    is_today is_same_day normalize trim trim_end skip_spaces is_space is_utc_offset
    replace_utc_offset add_z has_timezone test_end includes
format_tests = (refl, refl, refl, refl)
