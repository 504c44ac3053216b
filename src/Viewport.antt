-- ===== src/Viewport.antt =====
-- src/frontend/src/utils/viewport.ts: the height of the page in the CSS property `--vh`, which follows the
-- window. The property is kept in hundredths of a pixel, so that `innerHeight * 0.01` px is `innerHeight`.
pub mod Bounds
pub mod Listeners
mod Tests
use zero_mes.Common.{
  ℕ, zero, suc, ◌+◌, ◌-◌, Bool, true, false, Option, none, some, List, [], ◌∷◌, get_elem?, ltb,
  ◌||◌, String, str_eq, if◌then◌else◌,
}

-- What a timer does: the update after a rotation, after 100 ms, or after an input has lost the focus, after
-- 300 ms, and the scroll to an input.
pub data Delayed : Type 0 where
  update scroll : Delayed

-- `vh` is `none` until the property is set. `orientation` counts the anonymous listeners.
pub record Viewport : Type 0 where
  pub inner_height : ℕ
  pub last_height : ℕ
  pub vh : Option ℕ
  pub resize : Bool
  pub orientation : ℕ
  pub focus : Bool
  pub timers : List (Delayed × ℕ)

-- The module is loaded.
unfoldable pub load : ℕ → Viewport
load height = record {
  inner_height = height;
  last_height = height;
  vh = none;
  resize = false;
  orientation = 0;
  focus = false;
  timers = [];
}

-- Math.abs(a - b)
abbrev pub distance : ℕ → ℕ → ℕ
distance a b = (a - b) + (b - a)

unfoldable pub update_viewport_height : Viewport → Viewport
update_viewport_height v = record v { vh = some v.inner_height }

unfoldable pub init_viewport_fix : (is_ios : Bool) → Viewport → Viewport
init_viewport_fix is_ios v =
    let updated = update_viewport_height v in
    record updated {
      resize = true;
      orientation = suc updated.orientation;
      focus = is_ios || updated.focus;
    }

unfoldable pub handle_resize : Viewport → Viewport
handle_resize v =
    if ltb 100 (distance v.inner_height v.last_height)
    then (let updated = update_viewport_height v in record updated { last_height = v.inner_height })
    else v

unfoldable pub handle_input_focus : (tag_name : String) → Viewport → Viewport
handle_input_focus tag_name v =
    if str_eq tag_name "INPUT" || str_eq tag_name "TEXTAREA"
    then record v { timers = (scroll, 300) ∷ v.timers }
    else v

unfoldable pub handle_input_blur : Viewport → Viewport
handle_input_blur v = record v { timers = (update, 300) ∷ v.timers }

-- Every listener of `orientationchange` starts a timer.
unfoldable pub handle_orientation : ℕ → Viewport → Viewport
handle_orientation zero v = v
handle_orientation (suc n) v = record (handle_orientation n v) {
  timers = (update, 100) ∷ (handle_orientation n v).timers;
}

unfoldable pub cleanup_viewport_fix : Viewport → Viewport
cleanup_viewport_fix v = record v { resize = false; focus = false }

abbrev remove_at : {A : Type 0} → ℕ → List A → List A
remove_at k [] = []
remove_at zero (x ∷ xs) = xs
remove_at (suc k) (x ∷ xs) = x ∷ remove_at k xs

-- The timer at a place fires; a scroll moves the page, and nothing of this state.
unfoldable pub run_timer : ℕ → Viewport → Viewport
run_timer k v = elim (get_elem? v.timers k) [
  | none ↦ v
  | some (update, _) ↦ update_viewport_height (record v { timers = remove_at k v.timers })
  | some (scroll, _) ↦ record v { timers = remove_at k v.timers }
]

-- What the browser reports. The height of the window changes with a `resize` event only.
pub data Event : Type 0 where
  resizes : ℕ → Event
  rotates : Event
  focuses : String → Event
  blurs : Event
  fires : ℕ → Event

unfoldable pub respond : Event → Viewport → Viewport
respond (resizes height) v =
    let changed = record v { inner_height = height } in
    if v.resize then handle_resize changed else changed
respond rotates v = handle_orientation v.orientation v
respond (focuses tag_name) v = if v.focus then handle_input_focus tag_name v else v
respond blurs v = if v.focus then handle_input_blur v else v
respond (fires k) v = run_timer k v

unfoldable pub respond_all : List Event → Viewport → Viewport
respond_all [] v = v
respond_all (e ∷ es) v = respond_all es (respond e v)
