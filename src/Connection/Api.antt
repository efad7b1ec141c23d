-- ===== src/Connection/Api.antt =====
-- web/src/connection.ts: `api` and the requests to the control plane that stand on it. `fetch`,
-- `encodeURIComponent`, `JSON.stringify` and the conversion to a string are parameters.
pub mod Replies
use scweb_vpn.Common.{
  ℕ, Bool, true, false, not, ◌&&◌, ◌||◌, Option, none, some, List, [], ◌∷◌, ◌++◌, ltb, leb, ◌==◌,
  if◌then◌else◌, Result, ok, err, Failure, message, template, given, ◌>>=◌, ◌>>◌, String,
}
use scweb_vpn.Common.Texts.{Text, lit}
use scweb_vpn.Platform.Json.{
  Json, Items, null, bool, num, str, arr, obj, nil, item, end, property, is_falsy,
}
use scweb_vpn.Connection.Guards.{validate_stun}
use scweb_vpn.Binding.{BindingCode, parse_binding_code}

pub data Method : Type 0 where
  get post : Method

pub record Request : Type 0 where
  pub path : Text
  pub method : Method
  pub body : Option Text
  pub cache : String
  pub credentials : String
  pub content_type : String

-- `json()` is none where it rejects.
pub record Response : Type 0 where
  pub status : ℕ
  pub json : Option Json

abbrev json_or_empty : Option Json → Json
json_or_empty none = obj end
json_or_empty (some v) = v

abbrev pub body_of : Response → Json
body_of r = if r.status == 204 then null else json_or_empty r.json

-- `response.ok`.
abbrev pub is_ok : ℕ → Bool
is_ok status = leb 200 status && ltb status 300

-- A property of a value; that of `null` throws.
abbrev pub member : Json → String → Result (Option Json)
member null key = err (message "TypeError")
member v key = ok (property v key)

abbrev pub request_of : Text → Method → Option Text → Request
request_of path method body = record {
  path = path;
  method = method;
  body = body;
  cache = "no-store";
  credentials = "same-origin";
  content_type = "application/json";
}

module _ (fetch : Request → Result Response) (to_text : Json → Text) where
  -- `new Error(body?.error || …)`.
  pub error_of : ℕ → Option Json → Failure
  error_of status none = template "控制面请求失败（）" status
  error_of status (some v) =
      if is_falsy (some v) then template "控制面请求失败（）" status else given (to_text v)

  -- `api(path, init)`.
  unfoldable pub api : Text → Method → Option Text → Result Json
  unfolding error_of
  api path method body = do
    r ← fetch (request_of path method body)
    if is_ok r.status
        then ok (body_of r)
        else err (error_of r.status (property (body_of r) "error"))

  texts_of : Items → List Text
  texts_of nil = []
  texts_of (item (str t) xs) = t ∷ texts_of xs
  texts_of (item v xs) = to_text v ∷ texts_of xs

  abbrev stun_error : Failure
  stun_error = message "浏览器 ICE 配置只允许无凭据 stun: 地址"

  -- `validateSTUN` of a value of any type: a value with no length is refused as an empty one is, and one
  -- that has a length but no `some` is a TypeError.
  pub validate_any : Option Json → Result (List Text)
  unfolding texts_of
  validate_any none = err (message "TypeError")
  validate_any (some null) = err (message "TypeError")
  validate_any (some (arr xs)) = do validate_stun (texts_of xs); ok (texts_of xs)
  validate_any (some (str [])) = err stun_error
  validate_any (some (str (c ∷ s))) = err (message "TypeError")
  validate_any (some (bool b)) = err stun_error
  validate_any (some (num n)) = err stun_error
  validate_any (some (obj fs)) =
      if is_falsy (property (obj fs) "length") then err stun_error else err (message "TypeError")

  -- `browserConfig()`, with its STUN addresses.
  unfoldable pub browser_config : Result (List Text)
  unfolding api validate_any
  browser_config = do
    value ← api (lit "/api/v1/browser/config") get none
    urls ← member value "stun_urls"
    validate_any urls

  -- `services()`.
  unfoldable pub services : Result (Option Json)
  unfolding api
  services = do value ← api (lit "/api/v1/browser/services") get none; member value "services"

  -- `createBindingCode()` at the time `now`.
  unfoldable pub create_binding_code : (Text → Option ℕ) → ℕ → Result BindingCode
  unfolding api
  create_binding_code date_parse now = do
    value ← api (lit "/api/v1/browser/binding-codes") post (some (lit "{}"))
    parse_binding_code date_parse value now

  -- `createTemporaryService(input)` with the input as JSON text, and `currentTemporaryService()`.
  unfoldable pub create_temporary_service : Text → Result Json
  unfolding api
  create_temporary_service input = api (lit "/api/v1/browser/temporary-services") post (some input)

  unfoldable pub current_temporary_service : Result Json
  unfolding api
  current_temporary_service = api (lit "/api/v1/browser/temporary-services/current") get none

  -- `agentOnline(agentID)`.
  unfoldable pub agent_online : (Text → Text) → Text → Result (Option Json)
  unfolding api
  agent_online encode_uri agent_id = do
    value ← api (lit "/api/v1/browser/agents/" ++ (encode_uri agent_id ++ lit "/status")) get none
    member value "online"
