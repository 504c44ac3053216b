-- ===== src/Common/Texts.antt =====
-- Texts that the code only compares are native strings. The browser's `localStorage` and
-- `sessionStorage` hold texts under texts; the code never lists their keys.
use Prim.Native.String.{String}
use mathlib.Core.Path.{◌≡◌, refl}
use mathlib.Core.Bool.{Bool, true, false}
use mathlib.Core.List.{List, [], ◌∷◌}
use mathlib.Core.Option.{Option, none, some}
use native.Mathlib.Omega.{arith}
use text.Mathlib.Text.{◌==◌}
use text.Mathlib.TextEquality.{eq_iff}
use zero_mes.Common.Tests.{if◌then◌else◌}

abbrev pub str_eq : String → String → Bool
str_eq s t = s == t

-- A text is truthy unless it is empty.
abbrev pub non_empty : String → Bool
non_empty String.[] = false
non_empty (String.◌∷◌ c s) = true

-- A `Storage`, the item set last first.
abbrev pub Storage : Type 0
Storage = List (String × String)

-- getItem, where `none` is `null`
unfoldable pub get_item : Storage → String → Option String
get_item [] key = none
get_item ((name, item) ∷ rest) key = if name == key then some item else get_item rest key

unfoldable pub remove_item : String → Storage → Storage
remove_item key [] = []
remove_item key ((name, item) ∷ rest) =
    let others = remove_item key rest in if name == key then others else (name, item) ∷ others

unfoldable pub set_item : String → String → Storage → Storage
set_item key item store = (key, item) ∷ remove_item key store

-- What can be read after a removal and after a write, at every key.
pub get_item-remove :
    (store : Storage) (key other : String)
    → get_item (remove_item key store) other ≡ (if key == other then none else get_item store other)
unfolding get_item remove_item
get_item-remove [] key other = ground arith
get_item-remove ((name, item) ∷ rest) key other =
    ground
      (arith, eq_iff name key, eq_iff name other, eq_iff key other, get_item-remove rest key other)

pub get_item-set :
    (store : Storage) (key item other : String)
    → get_item (set_item key item store) other
      ≡ (if key == other then some item else get_item store other)
unfolding get_item set_item
get_item-set store key item other = ground (arith, get_item-remove store key other)

pub get_item-cons :
    (name item : String) (rest : Storage) (key : String)
    → get_item ((name, item) ∷ rest) key ≡ (if name == key then some item else get_item rest key)
unfolding get_item
get_item-cons name item rest key = refl

pub get_item-nil : (key : String) → get_item [] key ≡ none
unfolding get_item
get_item-nil key = refl

pub ruleset storage_laws = (get_item-nil, get_item-set, get_item-remove)
