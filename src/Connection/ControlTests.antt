-- ===== src/Connection/ControlTests.antt =====
-- A request on the control channel that is answered, and one that is not.
use scweb_vpn.Common.{◌≡◌, refl, Option, none, some, message, if◌then◌else◌}
use scweb_vpn.Common.Texts.{Text, lit, text_eq}
use scweb_vpn.Platform.Json.{Json, null, str, obj, field, end, property, is_falsy}
use scweb_vpn.Connection.Control.{
  Client, open_state, diagnostic_result, ok_code, waiting, resolved, rejected, new_client, map_get,
  map_set, map_delete, settle, clear_timer, finish, request, timeout, receive, fail_all, on_close,
  on_error,
}
use scweb_vpn.Connection.Control.Promises.{Inv}
use scweb_vpn.Connection.Control.Settling.{IsDrained}
use scweb_vpn.Connection.Control.Runs.{
  Reach, start, onward, requested, Reach-Inv, channel_loss-IsDrained, timeout_rejects,
}
use scweb_vpn.Connection.Control.Answers.{Answered, receive-Answered}

abbrev pong : Json
pong = obj (
    field "type" (str (lit "diagnostic_result"))
      (field "code" (str (lit "ok")) (field "id" (str (lit "x1")) end)))

-- The parser, at the one message of the test.
abbrev parse_pong : Text → Option Json
parse_pong t = if text_eq t (lit "pong") then some pong else none

abbrev asked : Client
asked = request (lit "x1") null diagnostic_result (new_client open_state)

control : Unit {0}
unfolding request timeout receive fail_all on_close map_get map_set map_delete settle clear_timer
    finish property is_falsy
control = tt

answered :
    (receive parse_pong (some (lit "pong")) asked).promises 0
    ≡ resolved (record { code = ok_code; answer = pong })
unfolding control
answered = refl

garbage_ignored : (receive parse_pong (some (lit "?")) asked).promises 0 ≡ waiting
unfolding control
garbage_ignored = refl

timed_out_request : (timeout 0 asked).promises 0 ≡ rejected (message "诊断请求超时")
unfolding control
timed_out_request = refl

-- The first request has been made.
asked-Reach : Reach parse_pong asked
unfolding map_get
asked-Reach = onward (start open_state) (requested (lit "x1") null diagnostic_result refl)

asked_waits : asked.promises 0 ≡ waiting
unfolding control
asked_waits = refl

Reach-Inv_example : Inv asked
Reach-Inv_example = Reach-Inv parse_pong asked-Reach

channel_loss-IsDrained_example :
    IsDrained (message "诊断通道已关闭") asked (on_close asked)
    × IsDrained (message "诊断通道发生错误") asked (on_error asked)
channel_loss-IsDrained_example = channel_loss-IsDrained parse_pong asked-Reach

timeout_rejects_example : (timeout 0 asked).promises 0 ≡ rejected (message "诊断请求超时")
timeout_rejects_example = timeout_rejects parse_pong 0 asked-Reach asked_waits

receive-Answered_example :
    Answered parse_pong asked (some (lit "pong")) 0 (record { code = ok_code; answer = pong })
unfolding control
receive-Answered_example =
    receive-Answered parse_pong (some (lit "pong")) asked 0
      (record { code = ok_code; answer = pong }) (λ e. cc) answered
