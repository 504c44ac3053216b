-- ===== src/Interface.antt =====
-- The elements of the interface that keep a state: the toasts of src/frontend/src/components/ToastContainer.tsx and Toast.tsx, the
-- theme of components/ThemeToggle.tsx, the closing of components/ContextMenu.tsx, and the redirection of pages/HomePage.tsx.
pub mod Expiry
mod Tests
use zero_mes.Common.{
  ℕ, zero, suc, ◌+◌, String, Bool, true, false, not, Option, none, some, List, [], ◌∷◌, ◌++◌, map,
  ltb, ◌||◌, ◌&&◌, select, str_eq, non_empty, Storage, get_item, set_item, if◌then◌else◌,
}
use zero_mes.Crypto.Primitives.{Encoding, Subtle}
use zero_mes.Crypto.Storage.{Store, has_stored_key}
use zero_mes.ChatsPage.{Chat}

pub data ToastType : Type 0 where
  success error info warning : ToastType

-- ToastData, with the time at which the timer of its Toast fires.
pub record Toast : Type 0 where
  pub id : String
  pub message : String
  pub type : ToastType
  pub deadline : ℕ

pub record Toasts : Type 0 where
  pub now : ℕ
  pub toasts : List Toast

abbrev pub duration : ℕ
duration = 5000

abbrev pub restarted : ℕ → Toast → Toast
restarted time t = record t { deadline = time }

-- `onClose` is a new function in each render of the provider, so that the effect of each Toast clears its timer and
-- starts it anew.
unfoldable pub render : Toasts → Toasts
render s = record s { toasts = map (restarted (s.now + duration)) s.toasts }

-- `id` holds the time and a random number.
unfoldable pub show_toast : (id message : String) → ToastType → Toasts → Toasts
unfolding render
show_toast id message type s = render (record s {
  toasts =
      s.toasts
      ++ record { id = id; message = message; type = type; deadline = s.now + duration } ∷ [];
})

unfoldable pub show_success : (id message : String) → Toasts → Toasts
unfolding show_toast
show_success id message = show_toast id message success

unfoldable pub show_error : (id message : String) → Toasts → Toasts
unfolding show_toast
show_error id message = show_toast id message error

unfoldable pub show_warning : (id message : String) → Toasts → Toasts
unfolding show_toast
show_warning id message = show_toast id message warning

unfoldable pub show_info : (id message : String) → Toasts → Toasts
unfolding show_toast
show_info id message = show_toast id message info

-- `prev.filter(toast => toast.id !== id)`
abbrev pub without_toast : String → List Toast → List Toast
without_toast id = select (λ t. not (str_eq t.id id))

-- A click on a toast.
unfoldable pub remove_toast : String → Toasts → Toasts
unfolding render
remove_toast id s = render (record s { toasts = without_toast id s.toasts })

-- The toasts without the first ones.
abbrev pub remove_toasts : ℕ → List Toast → List Toast → List Toast
remove_toasts zero firing ts = ts
remove_toasts (suc n) [] ts = ts
remove_toasts (suc n) (t ∷ firing) ts = remove_toasts n firing (without_toast t.id ts)

unfoldable pub fire_toasts : ℕ → Toasts → List Toast → Toasts
unfolding render
fire_toasts more s [] = s
fire_toasts more s (t ∷ ts) = render (record s {
  now = if ltb s.now t.deadline then t.deadline else s.now;
  toasts = remove_toasts (suc more) (t ∷ ts) (t ∷ ts);
})

-- Time passes until timers fire: that of the first toast, and those of at most `more` others that are due as well, before
-- React renders.
unfoldable pub run_timers : (more : ℕ) → Toasts → Toasts
unfolding fire_toasts
run_timers more s = fire_toasts more s s.toasts

unfoldable pub get_icon : ToastType → String
get_icon success = "✓"
get_icon error = "✕"
get_icon warning = "⚠"
get_icon info = "ℹ"

-- The theme that is shown, and `localStorage`.
pub record Theme : Type 0 where
  pub theme : String
  pub local_storage : Storage

abbrev saved_or_light : Option String → String
saved_or_light none = "light"
saved_or_light (some t) = if non_empty t then t else "light"

unfoldable pub initial_theme : Storage → Theme
initial_theme s = record { theme = saved_or_light (get_item s "theme"); local_storage = s }

abbrev pub other_theme : String → String
other_theme t = if str_eq t "light" then "dark" else "light"

unfoldable pub toggle_theme : Theme → Theme
toggle_theme t = record {
  theme = other_theme t.theme;
  local_storage = set_item "theme" (other_theme t.theme) t.local_storage;
}

-- Is onClose called for a press of the mouse, inside the menu or not, and for a key?
unfoldable pub handle_click_outside : (is_open inside : Bool) → Bool
handle_click_outside is_open inside = is_open && not inside

unfoldable pub handle_escape : (key : String) → Bool
handle_escape key = str_eq key "Escape"

-- Where HomePage goes.
unfoldable pub home_route : Encoding → Subtle → Store → String
unfolding has_stored_key
home_route enc subtle s = if has_stored_key enc subtle s then "/chats" else "/login"
