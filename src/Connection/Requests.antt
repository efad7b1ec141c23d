-- ===== src/Connection/Requests.antt =====
-- web/src/connection.ts: the requests of `ControlClient` (`dns`, `ping`, `configureTemporary`), the failures
-- of a temporary target, and the identifiers of requests.
pub mod Ids
use scweb_vpn.Common.{
  ℕ, Bool, true, false, Option, none, some, List, [], ◌∷◌, map, reverse, ◌==◌, if◌then◌else◌,
  Result, ok, err, Failure, message, String,
}
use scweb_vpn.Common.Texts.{Text, lit}
use scweb_vpn.Platform.Base64.{btoa}
use scweb_vpn.Platform.Json.{Json, num, str, obj, field, end}
use scweb_vpn.Connection.Session.{TemporaryTarget}
use scweb_vpn.Connection.Control.{
  Client, Kind, diagnostic_result, temporary_result, Code, ok_code, blocked, unavailable, busy,
  invalid_request, DiagnosticResult, request,
}

-- The values that the methods send; `id` is added to each.
abbrev pub dns_value : Text → Json
dns_value name = obj (field "type" (str (lit "dns")) (field "name" (str name) end))

abbrev pub ping_value : Json
ping_value = obj (field "type" (str (lit "diagnostic_ping")) end)

abbrev pub temporary_value : TemporaryTarget → Json
temporary_value t = obj (
    field "type" (str (lit "temporary_target"))
      (field "host" (str t.host) (field "port" (num t.port) (field "kind" (str (lit t.kind)) end))))

-- `dns(name)` and `ping()`; `id` is what `randomControlID` draws.
unfoldable pub dns : Text → Text → Client → Client
unfolding request
dns id name c = request id (dns_value name) diagnostic_result c

unfoldable pub ping : Text → Client → Client
unfolding request
ping id c = request id ping_value diagnostic_result c

-- `configureTemporary(target)` up to its await, and after it.
unfoldable pub configure_temporary : Text → TemporaryTarget → Client → Client
unfolding request
configure_temporary id t c = request id (temporary_value t) temporary_result c

abbrev pub temporary_failure : Code → String
temporary_failure ok_code = ""
temporary_failure blocked = "临时目标被 OpenWrt Agent 安全策略拒绝"
temporary_failure unavailable = "OpenWrt Agent 无法验证该临时目标"
temporary_failure busy = "OpenWrt Agent 正在处理其他临时请求，请稍后重试"
temporary_failure invalid_request = "临时目标配置无效或已被设置"

unfoldable pub after_configure : DiagnosticResult → Result (Unit {0})
after_configure r = elim r.code [
  | ok_code ↦ ok tt
  | other ↦ err (message (temporary_failure other))
]

-- `.replace(/\+/g, '-').replace(/\//g, '_')`.
abbrev pub url_safe : ℕ → ℕ
url_safe c = if c == b'+' then b'-' else if c == b'/' then b'_' else c

-- `.replace(/=+$/, '')`.
unfoldable pub drop_leading_pads : Text → Text
drop_leading_pads [] = []
drop_leading_pads (c ∷ s) = let rest = drop_leading_pads s in if c == b'=' then rest else c ∷ s

abbrev safe_text : Option Text → Text
safe_text none = []
safe_text (some t) = reverse (drop_leading_pads (reverse (map url_safe t)))

-- `randomControlID()` of the bytes that are drawn, which `btoa` always takes.
unfoldable pub random_control_id : List ℕ → Text
unfolding drop_leading_pads btoa
random_control_id bytes = safe_text (btoa bytes)
