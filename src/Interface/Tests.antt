-- ===== src/Interface/Tests.antt =====
-- Two toasts, the theme, and where the home page goes.
use zero_mes.Common.{◌≡◌, refl, String, [], ◌∷◌, arith}
use zero_mes.Interface.{Toasts, Toast, success, error, render, show_toast, show_error, toggle_theme}
use zero_mes.Interface.Expiry.{rounds, rounds-run_timers}

abbrev toast : (id : String) → Toast
toast id = record { id = id; message = "Message deleted"; type = success; deadline = 5003 }

abbrev two : Toasts
two = record { now = 3; toasts = toast "a" ∷ toast "b" ∷ [] }

rounds-run_timers_example : (rounds (0 ∷ 4 ∷ []) two).toasts ≡ []
rounds-run_timers_example =
    (rounds-run_timers (0 ∷ 4 ∷ []) 5003 two (omega arith) (omega arith) (omega arith)).0

-- A second toast starts the timer of the first anew.
restart_test :
    (show_error "b" "late"
      (record { now = 4000; toasts = record (toast "a") { deadline = 5000 } ∷ [] })).toasts
    ≡ record (toast "a") { deadline = 9000 }
      ∷ record { id = "b"; message = "late"; type = error; deadline = 9000 }
      ∷ []
unfolding show_error show_toast render
restart_test = refl

theme_test :
    (toggle_theme (toggle_theme (record { theme = "light"; local_storage = [] }))).theme ≡ "light"
unfolding toggle_theme
theme_test = refl
