-- ===== src/Json.antt =====
-- JSON values as the client's code reads them: member access, truthiness, `||`. A value that may be
-- `undefined` is an `Option Json`. Numbers are the non-negative integers that the server sends.
use zero_mes.Common.{
  ℕ, String, Bool, true, false, not, Option, none, some, ◌==◌, non_empty, str_eq, if◌then◌else◌,
}

mutual
  pub data Json : Type 0 where
    null : Json
    bool : Bool → Json
    num : ℕ → Json
    str : String → Json
    arr : Items → Json
    obj : Fields → Json

  pub data Items : Type 0 where
    nil : Items
    cons : Json → Items → Items

  pub data Fields : Type 0 where
    end : Fields
    field : String → Json → Fields → Fields

abbrev pub Value : Type 0
Value = Option Json

unfoldable pub get_field : String → Fields → Value
get_field k end = none
get_field k (field j v fs) = if str_eq j k then some v else get_field k fs

-- `v.k`: the outer `none` is the TypeError that `null` and `undefined` raise.
unfoldable pub member : String → Value → Option Value
unfolding get_field
member k none = none
member k (some null) = none
member k (some (obj fs)) = some (get_field k fs)
member k (some _) = some none

-- `v?.k`
unfoldable pub optional_member : String → Value → Value
unfolding member
optional_member k v = elim (member k v) [ none ↦ none | some w ↦ w ]

unfoldable pub truthy : Value → Bool
truthy none = false
truthy (some null) = false
truthy (some (bool b)) = b
truthy (some (num n)) = not (n == 0)
truthy (some (str s)) = non_empty s
truthy (some (arr _)) = true
truthy (some (obj _)) = true

-- `v || d`
unfoldable pub or_default : Value → Json → Json
unfolding truthy
or_default none d = d
or_default (some v) d = if truthy (some v) then v else d

-- `v === text`
unfoldable pub is_text : Value → String → Bool
is_text (some (str s)) t = str_eq s t
is_text _ t = false

-- `v ?? d`
unfoldable pub or_nullish : Value → Json → Json
or_nullish none d = d
or_nullish (some null) d = d
or_nullish (some v) d = v
