-- ===== src/Worker.antt =====
-- web/src/controller-sw.js: the `fetch` listener of the service worker. `decodeURIComponent` of the
-- browser and the answers of `$scramjetController.shouldRoute` are parameters.
pub mod Local
pub mod Routing
mod Tests
use scweb_vpn.Common.{
  ℕ, zero, suc, ◌+◌, ◌*◌, Bool, true, false, not, ◌&&◌, ◌||◌, Option, none, some, List, [], ◌∷◌,
  all, any, length, ltb, leb, ◌==◌, if◌then◌else◌, String,
}
use scweb_vpn.Common.Texts.{Text, lit, starts_with}
use scweb_vpn.Platform.Base64.{atob}

abbrev pub proxy_path_prefix : Text
proxy_path_prefix = lit "/~/sj/"

abbrev pub route_revive_max_attempts : ℕ
route_revive_max_attempts = 20

abbrev pub route_revive_delay_ms : ℕ
route_revive_delay_ms = 100

abbrev pub local_binary_data_max_length : ℕ
local_binary_data_max_length = 1024 * 1024

-- The rest of a text after a prefix.
pub after_prefix : Text → Text → Option Text
after_prefix [] s = some s
after_prefix (p ∷ ps) [] = none
after_prefix (p ∷ ps) (c ∷ s) = if c == p then after_prefix ps s else none

-- `[^/]+\/`: the rest after one segment that is not empty; `seen` says that a unit was passed.
pub after_segment : Bool → Text → Option Text
after_segment seen [] = none
after_segment seen (c ∷ s) =
    let rest = after_segment true s in if c == b'/' then (if seen then some s else none) else rest

abbrev pub then_try : Option Text → (Text → Option Text) → Option Text
then_try none f = none
then_try (some s) f = f s

abbrev is_line_end : ℕ → Bool
is_line_end c = c == 10 || c == 13 || c == 0x2028 || c == 0x2029

-- `.+` up to the end.
abbrev is_line : Text → Bool
is_line [] = false
is_line (c ∷ s) = not (any is_line_end (c ∷ s))

abbrev if_line : Text → Option Text → Option Text
if_line whole none = none
if_line whole (some s) = if is_line s then some whole else none

-- The group of the match: `(data:.+)$`.
pub data_group : Text → Option Text
unfolding after_prefix
data_group s = if_line s (after_prefix (lit "data:") s)

pub matched_data : Text → Option Text
unfolding after_prefix after_segment data_group
matched_data pathname =
    then_try (after_prefix proxy_path_prefix pathname)
      (λ s. then_try (after_segment false s) (λ t. then_try (after_segment false t) data_group))

-- `[A-Za-z0-9+/=]`.
abbrev pub is_base64_unit : ℕ → Bool
is_base64_unit c =
    (leb b'A' c && leb c b'Z')
    || (leb b'a' c && leb c b'z')
    || (leb b'0' c && leb c b'9')
    || c == b'+'
    || c == b'/'
    || c == b'='

abbrev is_payload : Option Text → Bool
is_payload none = false
is_payload (some []) = false
is_payload (some (c ∷ s)) = all is_base64_unit (c ∷ s)

abbrev pub octet_prefix : Text
octet_prefix = lit "data:application/octet-stream;base64,"

abbrev pub wasm_prefix : Text
wasm_prefix = lit "data:application/wasm;base64,"

-- The pattern that the decoded URL is tested with.
pub is_local_data : Text → Bool
unfolding after_prefix
is_local_data url =
    is_payload (after_prefix octet_prefix url) || is_payload (after_prefix wasm_prefix url)

abbrev checked_url : Text → Option Text
checked_url url =
    if ltb local_binary_data_max_length (length url)
    then none
    else if is_local_data url
    then some url
    else none

-- `localBinaryDataURL(requestUrl)`, of the URL's path.
unfoldable pub local_binary_data_url : (Text → Option Text) → Text → Option Text
unfolding matched_data is_local_data
local_binary_data_url decode_uri pathname =
    then_try (matched_data pathname) (λ m. then_try (decode_uri m) checked_url)

-- A response that the worker makes itself.
pub data Body : Type 0 where
  bytes : Text → Body
  text : String → Body

pub record Response : Type 0 where
  pub body : Body
  pub status : ℕ
  pub cache_control : String
  pub content_type : String

-- `dataURL.slice(dataURL.indexOf(',') + 1)`; the whole text if there is no comma.
pub after_comma : Text → Option Text
after_comma [] = none
after_comma (c ∷ s) = let rest = after_comma s in if c == b',' then some s else rest

abbrev encoded_part : Text → Text
encoded_part url = elim (after_comma url) [ none ↦ url | some s ↦ s ]

pub decoded_response : Text → Option Text → Response
decoded_response url none = record {
  body = text "Invalid embedded binary data.";
  status = 400;
  cache_control = "no-store";
  content_type = "text/plain; charset=utf-8";
}
decoded_response url (some decoded) = record {
  body = bytes decoded;
  status = 200;
  cache_control = "no-store";
  content_type =
      if starts_with (lit "data:application/wasm;") url
      then "application/wasm"
      else "application/octet-stream";
}

-- `localBinaryDataResponse(dataURL)`.
unfoldable pub local_binary_data_response : Text → Response
unfolding after_comma decoded_response
local_binary_data_response url = decoded_response url (atob (encoded_part url))

abbrev pub unavailable_response : Response
unavailable_response = record {
  body = text "WebVPN proxy route is temporarily unavailable.";
  status = 503;
  cache_control = "no-store";
  content_type = "text/plain; charset=utf-8";
}

-- What the listener does: `routed n` hands the request to the controller after `n` delays, and
-- `passed` leaves it to the browser.
pub data Action : Type 0 where
  routed : ℕ → Action
  responded : Response → Action
  passed : Action

-- The loop of `routeProxyRequest`, with its attempts left; `should n` is the answer of `shouldRoute`
-- after `n` delays.
unfoldable pub route_loop : ℕ → ℕ → (ℕ → Bool) → Action
route_loop zero attempt should = responded unavailable_response
route_loop (suc left) attempt should =
    let later = route_loop left (suc attempt) should in
    if should attempt then routed attempt else later

-- `routeProxyRequest(event)`.
unfoldable pub route_proxy_request : (ℕ → Bool) → Action
unfolding route_loop
route_proxy_request should = route_loop route_revive_max_attempts 0 should

pub own_path : Option Text → (ℕ → Bool) → Action
unfolding route_proxy_request
own_path none should = route_proxy_request should
own_path (some url) should = responded (local_binary_data_response url)

-- The `fetch` listener.
unfoldable pub on_fetch : (Text → Option Text) → (ℕ → Bool) → (same_origin : Bool) → Text → Action
unfolding own_path local_binary_data_url local_binary_data_response
on_fetch decode_uri should same_origin pathname =
    if same_origin && starts_with proxy_path_prefix pathname
    then own_path (local_binary_data_url decode_uri pathname) should
    else if should 0
    then routed 0
    else passed
