-- ===== src/App/Address.antt =====
-- web/src/app.ts: the addresses of the page. They are the slug that the page's host name asks for, the URL
-- that the frame shows, and the target of a temporary service. `new URL(text)` is a parameter.
pub mod Slugs
pub mod Targets
pub mod Origins
use scweb_vpn.Common.{
  ℕ, ◌-◌, Bool, true, false, not, ◌&&◌, ◌||◌, Option, none, some, List, [], ◌∷◌, ◌++◌, any, length,
  take, drop, ltb, ◌==◌, if◌then◌else◌, Result, ok, err, message, ◌>>=◌, String,
}
use scweb_vpn.Common.Texts.{Text, lit, text_eq, starts_with, to_lower, trim}
use scweb_vpn.Platform.Url.{Scheme, http, https, Url}
use scweb_vpn.Connection.Session.{TemporaryTarget}
use scweb_vpn.Virtual.{virtual_hostname}

-- The `kind` of a service.
pub data ServiceKind : Type 0 where
  http_kind https_kind guacamole : ServiceKind

pub record Service : Type 0 where
  pub id : Text
  pub agent_id : Text
  pub slug : Text
  pub display_name : Text
  pub kind : ServiceKind
  pub enabled : Bool
  pub temporary : Bool

unfoldable pub ends_with : Text → Text → Bool
ends_with suffix [] = text_eq suffix []
ends_with suffix (c ∷ s) = text_eq suffix (c ∷ s) || ends_with suffix s

abbrev pub slug_suffix : Text
slug_suffix = lit ".vpn.example.com"

abbrev pub is_dot : ℕ → Bool
is_dot c = c == b'.'

-- `prefix && !prefix.includes('.') ? prefix : null`.
abbrev plain_prefix : Text → Option Text
plain_prefix [] = none
plain_prefix (c ∷ p) = if any is_dot (c ∷ p) then none else some (c ∷ p)

abbrev slug_of : Text → Option Text
slug_of host =
    if ends_with slug_suffix host
    then plain_prefix (take (length host - length slug_suffix) host)
    else none

-- `requestedSlug()` on a page with the host name `location.hostname`.
unfoldable pub requested_slug : Text → Option Text
unfolding ends_with
requested_slug hostname = slug_of (to_lower hostname)

abbrev pub is_temporary_slug : Option Text → Bool
is_temporary_slug none = false
is_temporary_slug (some s) = starts_with (lit "tmp-") s

-- `target.protocol === 'https:' ? 'https' : target.protocol === 'http:' ? 'http' : null`.
abbrev pub kind_of_scheme : Scheme → Option ServiceKind
kind_of_scheme https = some https_kind
kind_of_scheme http = some http_kind
kind_of_scheme s = none

abbrev pub same_kind : ServiceKind → ServiceKind → Bool
same_kind http_kind http_kind = true
same_kind https_kind https_kind = true
same_kind guacamole guacamole = true
same_kind k l = false

-- `!kind || kind !== expectedKind`, negated.
abbrev pub is_expected : Option ServiceKind → ServiceKind → Bool
is_expected none expected = false
is_expected (some k) expected = same_kind k expected

abbrev pub is_empty : Text → Bool
is_empty [] = true
is_empty (c ∷ s) = false

abbrev is_https : Scheme → Bool
is_https https = true
is_https s = false

-- `Number(url.port || (… === 'https' ? 443 : 80))`.
abbrev pub port_number : Url → ℕ
port_number u = elim u.port [ none ↦ if is_https u.scheme then 443 else 80 | some p ↦ p ]

abbrev only_kind : ServiceKind → String
only_kind http_kind = "该临时入口只接受不含凭据的 HTTP URL"
only_kind https_kind = "该临时入口只接受不含凭据的 HTTPS URL"
only_kind guacamole = "该临时入口只接受不含凭据的 GUACAMOLE URL"

-- The two tests on a URL that was read.
unfoldable pub checked_target : ServiceKind → Url → Result Url
checked_target expected u =
    if not (is_expected (kind_of_scheme u.scheme) expected)
      || not (is_empty u.username)
      || not (is_empty u.password)
      || is_empty u.hostname
    then err (message (only_kind expected))
    else if ltb (port_number u) 1 || ltb 65535 (port_number u)
    then err (message "目标端口无效")
    else ok u

abbrev read_target : ServiceKind → Option Url → Result Url
read_target expected none = err (message "请输入完整的 HTTP 或 HTTPS 内网 URL")
read_target expected (some u) = checked_target expected u

-- `stripIPv6Brackets(host)`.
unfoldable pub strip_ipv6_brackets : Text → Text
unfolding ends_with
strip_ipv6_brackets host =
    if starts_with (lit "[") host && ends_with (lit "]") host
    then take (length host - 2) (drop 1 host)
    else host

-- The `target` that the listener of the temporary panel makes of a URL.
unfoldable pub target_of : Url → TemporaryTarget
unfolding strip_ipv6_brackets
target_of remote = record {
  host = strip_ipv6_brackets remote.hostname;
  port = port_number remote;
  kind = if is_https remote.scheme then "https" else "http";
}

abbrev with_path_of : Option Url → Url → Url
with_path_of none u = u
with_path_of (some remote) u = record u {
  pathname = remote.pathname;
  search = remote.search;
  hash = remote.hash;
}

abbrev pub frame_scheme : ServiceKind → Text
frame_scheme https_kind = lit "https:"
frame_scheme other = lit "http:"

abbrev or_type_error : Option Url → Result Url
or_type_error none = err (message "TypeError")
or_type_error (some u) = ok u

module _ (parse : Text → Option Url) where
  -- `parseTemporaryURL(value, expectedKind)`.
  unfoldable pub parse_temporary_url : Text → ServiceKind → Result Url
  unfolding checked_target
  parse_temporary_url value expected = read_target expected (parse (trim value))

  -- `virtualURL(service, remote)`.
  unfoldable pub virtual_url : Service → Option Url → Result Url
  virtual_url service remote = do
    host ← virtual_hostname service.id
    u ← or_type_error (parse (frame_scheme service.kind ++ lit "//" ++ host ++ lit "/"))
    ok (with_path_of remote u)
