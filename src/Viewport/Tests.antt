-- ===== src/Viewport/Tests.antt =====
-- Runs of the viewport fix, and the theorems at concrete inputs.
use zero_mes.Common.{◌≡◌, ◌≤◌, refl, true, some, List, [], ◌∷◌}
use zero_mes.Viewport.{
  load, distance, update_viewport_height, init_viewport_fix, handle_resize, handle_input_blur,
  run_timer, Event, resizes, blurs, fires, respond, respond_all,
}
use zero_mes.Viewport.Bounds.{respond_all-Bounds}

-- A blur takes over 750 while the last height stays 800; at 870 the property is 120 pixels off.
abbrev drift : List Event
drift = resizes 750 ∷ blurs ∷ fires 0 ∷ resizes 870 ∷ []

drift_tests :
    ((respond_all drift (init_viewport_fix true (load 800))).vh ≡ some 750)
    × ((respond_all drift (init_viewport_fix true (load 800))).inner_height ≡ 870)
unfolding respond_all respond init_viewport_fix load update_viewport_height handle_resize
    handle_input_blur run_timer
drift_tests = (refl, refl)

respond_all-Bounds_example :
    distance
      (respond_all drift (init_viewport_fix true (load 800))).inner_height
      (respond_all drift (init_viewport_fix true (load 800))).last_height
    ≤ 100
respond_all-Bounds_example = (respond_all-Bounds true 800 drift).0
