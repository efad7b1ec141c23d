-- ===== src/Binding/Tests.antt =====
-- Binding at a reply like that of web/src/binding.test.ts.
use scweb_vpn.Common.{ℕ, ◌≡◌, ◌↔◌, refl, Option, none, some, ok, err, message, if◌then◌else◌}
use scweb_vpn.Common.Texts.{Text, lit, text_eq, is_space}
use scweb_vpn.Platform.Json.{Json, obj, field, end, str, property}
use scweb_vpn.Binding.{BindingCode, is_code, parse_binding_code}
use scweb_vpn.Binding.Codes.{IsBinding, parse_binding_code_iff}

-- `Date.parse` at the one date of the reply.
abbrev parse_date : Text → Option ℕ
parse_date t = if text_eq t (lit "2026-08-10T10:05:00Z") then some 300000 else none

abbrev reply : Json
reply = obj (
    field "code" (str (lit "0123456789abcdef0123456789abcdef"))
      (field "expires_at" (str (lit "2026-08-10T10:05:00Z")) end))

abbrev binding : BindingCode
binding = record { code = lit "0123456789abcdef0123456789abcdef"; expires_at = 300000 }

accepted : parse_binding_code parse_date reply 0 ≡ ok binding
unfolding parse_binding_code property is_code is_space
accepted = refl

expired : parse_binding_code parse_date reply 300000 ≡ err (message "控制面返回了已失效的绑定码")
unfolding parse_binding_code property is_code is_space
expired = refl

parse_binding_code_iff_example :
    (parse_binding_code parse_date reply 0 ≡ ok binding) ↔ IsBinding parse_date reply 0 binding
parse_binding_code_iff_example = parse_binding_code_iff parse_date reply 0 binding
