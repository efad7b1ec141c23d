-- ===== src/Connection/RequestsTests.antt =====
-- Api and Requests at concrete replies and bytes.
use scweb_vpn.Common.{ℕ, ◌≡◌, refl, Option, none, some, List, [], ◌∷◌, Result, ok, err, given}
use scweb_vpn.Common.Texts.{Text, lit, is_space}
use scweb_vpn.Platform.Json.{Json, str, arr, obj, field, end, nil, item, property, is_falsy}
use scweb_vpn.Binding.{BindingCode, parse_binding_code, is_code}
use scweb_vpn.Connection.Guards.{validate_stun}
use scweb_vpn.Connection.Requests.{random_control_id}
use scweb_vpn.Connection.Api.{get, Request, Response, api, browser_config, create_binding_code}

abbrev config : Json
config = obj (field "stun_urls" (arr (item (str (lit "stun:a")) nil)) end)

abbrev plain_text : Json → Text
plain_text (str t) = t
plain_text v = []

-- A control plane that always gives this configuration.
abbrev config_server : Request → Result Response
config_server r = ok (record { status = 200; json = some config })

-- One that refuses, with a reason.
abbrev refusing_server : Request → Result Response
refusing_server r =
    ok (record { status = 403; json = some (obj (field "error" (str (lit "denied")) end)) })

refused : api refusing_server plain_text (lit "/x") get none ≡ err (given (lit "denied"))
unfolding api property is_falsy
refused = refl

config_read : browser_config config_server plain_text ≡ ok (lit "stun:a" ∷ [])
unfolding browser_config property validate_stun is_space
config_read = refl

abbrev code_reply : Json
code_reply =
    obj (field "code" (str (lit "0123456789abcdef")) (field "expires_at" (str (lit "soon")) end))

abbrev code_server : Request → Result Response
code_server r = ok (record { status = 201; json = some code_reply })

abbrev soon : Text → Option ℕ
soon t = some 9

abbrev issued : BindingCode
issued = record { code = lit "0123456789abcdef"; expires_at = 9 }

code_issued : create_binding_code code_server plain_text soon 5 ≡ ok issued
unfolding create_binding_code parse_binding_code property is_code is_space
code_issued = refl

abbrev drawn : List ℕ
drawn = 255 ∷ 254 ∷ 253 ∷ 0 ∷ 1 ∷ 2 ∷ 100 ∷ 101 ∷ 102 ∷ 7 ∷ 8 ∷ 9 ∷ []

id_of_drawn : random_control_id drawn ≡ lit "__79AAECZGVmBwgJ"
unfolding random_control_id
id_of_drawn = refl
