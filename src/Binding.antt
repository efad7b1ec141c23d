-- ===== src/Binding.antt =====
-- web/src/binding.ts: `parseBindingCode`, the check on the control plane's reply with a binding code.
-- `Date.parse` is a parameter that gives milliseconds since 1970; a date before that is none, as is
-- one that does not parse, since the code refuses both alike.
pub mod Codes
mod Tests
use scweb_vpn.Common.{
  ℕ, Bool, true, false, not, ◌&&◌, ◌||◌, Option, none, some, List, [], ◌∷◌, any, length, ltb, leb,
  ◌==◌, if◌then◌else◌, Result, ok, err, message,
}
use scweb_vpn.Common.Texts.{Text, lit, text_eq, trim}
use scweb_vpn.Platform.Json.{Json, arr, obj, str, property}

-- `BindingCode`.
pub record BindingCode : Type 0 where
  pub code : Text
  pub expires_at : ℕ

-- `typeof value === 'object'`, null excepted.
abbrev is_object : Json → Bool
is_object (obj fs) = true
is_object (arr items) = true
is_object v = false

-- `/[\r\n\0]/`.
abbrev pub is_break : ℕ → Bool
is_break c = c == 13 || c == 10 || c == 0

unfoldable pub is_code : Text → Bool
is_code code = not (
    ltb (length code) 16
    || ltb 256 (length code)
    || not (text_eq (trim code) code)
    || any is_break code)

pub checked_code : Option Json → Result Text
unfolding is_code
checked_code (some (str code)) = if is_code code then ok code else err (message "控制面返回了无效的绑定码")
checked_code other = err (message "控制面返回了无效的绑定码")

module _ (date_parse : Text → Option ℕ) where
  pub expiry : Option Json → Option ℕ
  expiry (some (str t)) = date_parse t
  expiry other = none

  pub live_until : ℕ → Text → Option ℕ → Result BindingCode
  live_until now code none = err (message "控制面返回了已失效的绑定码")
  live_until now code (some at) =
      if leb at now
      then err (message "控制面返回了已失效的绑定码")
      else ok (record { code = code; expires_at = at })

  pub with_code : Json → ℕ → Result Text → Result BindingCode
  unfolding expiry live_until
  with_code value now (err e) = err e
  with_code value now (ok code) = live_until now code (expiry (property value "expires_at"))

  -- `parseBindingCode(value, now)`.
  unfoldable pub parse_binding_code : Json → ℕ → Result BindingCode
  unfolding with_code checked_code
  parse_binding_code value now =
      if is_object value
      then with_code value now (checked_code (property value "code"))
      else err (message "控制面返回了无效的绑定码")
