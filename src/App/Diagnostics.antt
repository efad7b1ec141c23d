-- ===== src/App/Diagnostics.antt =====
-- web/src/app.ts: the listeners of `dns` and `ping`. The conversion to a string by `join` is a parameter.
use scweb_vpn.Common.{Option, none, some, [], ◌∷◌, ◌++◌, Result, ok, err, Failure, message, String}
use scweb_vpn.Common.Texts.{Text, lit, trim}
use scweb_vpn.Platform.Json.{Json, Items, null, num, arr, nil, item, property}
use scweb_vpn.Connection.Control.{Client, ok_code, DiagnosticResult}
use scweb_vpn.Connection.Requests.{dns, ping}
use scweb_vpn.App.Panels.{diagnostic_message}

-- What the line of the diagnostics says.
pub data Diagnosis : Type 0 where
  resolving pinging : Diagnosis
  addresses : Text → Diagnosis
  no_addresses : Diagnosis
  round_trip : Json → Diagnosis
  dns_refused ping_refused : String → Diagnosis
  broken : Failure → Diagnosis

-- The listener of `dns` up to its await: nothing without a control channel or a name.
abbrev ask_dns : Text → Text → Client → Client × Option Diagnosis
ask_dns id [] c = (c, none)
ask_dns id (n ∷ name) c = (dns id (n ∷ name) c, some resolving)

unfoldable pub click_dns : (id value : Text) → Option Client → Option Client × Option Diagnosis
unfolding dns
click_dns id value none = (none, none)
click_dns id value (some c) = let (c', shown) = ask_dns id (trim value) c in (some c', shown)

unfoldable pub click_ping : (id : Text) → Option Client → Option Client × Option Diagnosis
unfolding ping
click_ping id none = (none, none)
click_ping id (some c) = (some (ping id c), some pinging)

module _ (to_text : Json → Text) where
  -- `join(', ')`.
  join_more : Items → Text
  join_more nil = []
  join_more (item v xs) = lit ", " ++ to_text v ++ join_more xs

  join : Items → Text
  unfolding join_more
  join nil = []
  join (item v xs) = to_text v ++ join_more xs

  abbrev or_none_found : Text → Diagnosis
  or_none_found [] = no_addresses
  or_none_found (c ∷ t) = addresses (c ∷ t)

  -- `result.addresses?.join(', ') || '无结果'`.
  pub joined_addresses : Option Json → Diagnosis
  unfolding join
  joined_addresses none = no_addresses
  joined_addresses (some null) = no_addresses
  joined_addresses (some (arr xs)) = or_none_found (join xs)
  joined_addresses (some other) = broken (message "TypeError")

  -- After the await of `control.dns`.
  unfoldable pub show_dns : Result DiagnosticResult → Diagnosis
  unfolding joined_addresses diagnostic_message
  show_dns (err e) = broken e
  show_dns (ok r) = elim r.code [
    | ok_code ↦ joined_addresses (property r.answer "addresses")
    | other ↦ dns_refused (diagnostic_message other)
  ]

-- `result.rtt_ms ?? 0`.
abbrev or_zero : Option Json → Json
or_zero none = num 0
or_zero (some null) = num 0
or_zero (some v) = v

-- After the await of `control.ping`.
unfoldable pub show_ping : Result DiagnosticResult → Diagnosis
unfolding diagnostic_message
show_ping (err e) = broken e
show_ping (ok r) = elim r.code [
  | ok_code ↦ round_trip (or_zero (property r.answer "rtt_ms"))
  | other ↦ ping_refused (diagnostic_message other)
]
