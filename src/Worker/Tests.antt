-- ===== src/Worker/Tests.antt =====
-- The service worker at concrete requests.
use scweb_vpn.Common.{ℕ, ◌≡◌, refl, Bool, true, false, Option, some, ltb, not, [], ◌∷◌}
use scweb_vpn.Common.Texts.{Text, lit}
use scweb_vpn.Platform.Base64.{atob}
use scweb_vpn.Worker.{
  bytes, routed, responded, unavailable_response, route_proxy_request, on_fetch,
  local_binary_data_url, local_binary_data_response, route_revive_max_attempts,
}
use scweb_vpn.Worker.Local.{IsEmbedded, local_binary_data_url-IsEmbedded}
use scweb_vpn.Worker.Routing.{Outcome, route_proxy_request-Outcome}

-- `decodeURIComponent` at texts without `%`.
abbrev decode_plain : Text → Option Text
decode_plain t = some t

abbrev third : ℕ → Bool
third n = not (ltb n 2)

abbrev wasm_path : Text
wasm_path = lit "/~/sj/a/b/data:application/wasm;base64,AGFzbQ=="

abbrev wasm_url : Text
wasm_url = lit "data:application/wasm;base64,AGFzbQ=="

worker : Unit {0}
unfolding on_fetch route_proxy_request local_binary_data_url local_binary_data_response atob
worker = tt

wasm_answered :
    on_fetch decode_plain third true wasm_path
    ≡ responded (record {
      body = bytes (0 ∷ 97 ∷ 115 ∷ 109 ∷ []);
      status = 200;
      cache_control = "no-store";
      content_type = "application/wasm";
    })
unfolding worker
wasm_answered = refl

third_attempt : route_proxy_request third ≡ routed 2
unfolding worker
third_attempt = refl

never_ready : route_proxy_request (λ n. false) ≡ responded unavailable_response
unfolding worker
never_ready = refl

wasm_found : local_binary_data_url decode_plain wasm_path ≡ some wasm_url
unfolding worker
wasm_found = refl

local_binary_data_url-IsEmbedded_example : IsEmbedded wasm_url
local_binary_data_url-IsEmbedded_example =
    local_binary_data_url-IsEmbedded decode_plain wasm_path wasm_url wasm_found

route_proxy_request-Outcome_example :
    Outcome route_revive_max_attempts third 0 (route_proxy_request third)
route_proxy_request-Outcome_example = route_proxy_request-Outcome third
