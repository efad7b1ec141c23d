-- ===== src/Platform/Json.antt =====
-- The values that `JSON.parse` and `response.json()` return, and access to their properties. The
-- numbers of a message are only tested for being zero.
use scweb_vpn.Common.{
  ℕ, Bool, true, false, not, Option, none, some, [], ◌==◌, if◌then◌else◌, String, str_eq,
}
use scweb_vpn.Common.Texts.{Text}

mutual
  pub data Json : Type 0 where
    null : Json
    bool : Bool → Json
    num : ℕ → Json
    str : Text → Json
    arr : Items → Json
    obj : Fields → Json

  pub data Items : Type 0 where
    nil : Items
    item : Json → Items → Items

  pub data Fields : Type 0 where
    end : Fields
    field : String → Json → Fields → Fields

unfoldable pub get_field : Fields → String → Option Json
get_field end k = none
get_field (field j v fs) k = if str_eq j k then some v else get_field fs k

-- `value?.key`: none is `undefined`.
unfoldable pub property : Json → String → Option Json
unfolding get_field
property (obj fs) k = get_field fs k
property v k = none

-- Is the value `undefined`, `null`, `false`, `0` or `''`?
unfoldable pub is_falsy : Option Json → Bool
is_falsy none = true
is_falsy (some null) = true
is_falsy (some (bool b)) = not b
is_falsy (some (num n)) = n == 0
is_falsy (some (str [])) = true
is_falsy (some v) = false
