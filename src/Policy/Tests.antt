-- ===== src/Policy/Tests.antt =====
-- web/src/transport-policy.test.ts over a small URL parser, and the theorems at its inputs.
use scweb_vpn.Common.{
  ◌≡◌, refl, Option, none, some, List, [], ◌∷◌, ◌++◌, ok, drop, ◌==◌, if◌then◌else◌,
}
use scweb_vpn.Common.Texts.{Text, lit, starts_with, is_space}
use scweb_vpn.Platform.Url.{Scheme, http, https, ws, wss, Url, UrlApi, set_protocol, set_port}
use scweb_vpn.Policy.{
  Header, agent_transport_url, nominated, is_end_to_end, parse_url, rewrite_location,
  rewrite_header, rewrite_headers, strip_domain, sanitize_upstream_headers,
}

abbrev url : Scheme → Text → Text → Url
url scheme host path = record {
  scheme = scheme;
  username = [];
  password = [];
  hostname = host;
  port = none;
  pathname = path;
  search = [];
  hash = [];
}

abbrev host_part : Text → Text
host_part [] = []
host_part (c ∷ s) = if c == b'/' then [] else c ∷ host_part s

abbrev path_part : Text → Text
path_part [] = lit "/"
path_part (c ∷ s) = let rest = path_part s in if c == b'/' then c ∷ s else rest

-- Absolute `https:` URLs, references with a host, and rooted paths, of names without ports.
abbrev small_resolve : Text → Url → Option Url
small_resolve t base =
    if starts_with (lit "//") t
    then some (url base.scheme (host_part (drop 2 t)) (path_part (drop 2 t)))
    else if starts_with (lit "/\\") t
    then none
    else if starts_with (lit "/") t
    then some (record base { pathname = t; search = []; hash = [] })
    else if starts_with (lit "https://") t
    then some (url https (host_part (drop 8 t)) (path_part (drop 8 t)))
    else none

abbrev small_api : UrlApi
small_api = record {
  resolve = small_resolve;
  href = λ u. lit "https://" ++ u.hostname ++ u.pathname ++ u.search ++ u.hash;
}

abbrev remote : Url
remote = url https (lit "s-test.webvpn.invalid") (lit "/start")

-- The three cases of the first test.
agent_https :
    agent_transport_url (url https (lit "s-test.webvpn.invalid") (lit "/path"))
    ≡ record (url http (lit "s-test.webvpn.invalid") (lit "/path")) { port = some 443 }
unfolding agent_transport_url set_protocol set_port
agent_https = refl

agent_wss :
    agent_transport_url (url wss (lit "s-test.webvpn.invalid") (lit "/socket"))
    ≡ record (url ws (lit "s-test.webvpn.invalid") (lit "/socket")) { port = some 443 }
unfolding agent_transport_url set_protocol set_port
agent_wss = refl

agent_http :
    agent_transport_url (url http (lit "s-test.webvpn.invalid") (lit "/path"))
    ≡ url http (lit "s-test.webvpn.invalid") (lit "/path")
unfolding agent_transport_url set_protocol set_port
agent_http = refl

-- The second test.
abbrev upstream : List Header
upstream =
    (lit "Location", lit "https://192.168.1.1/admin?next=1")
    ∷ (lit "Set-Cookie", lit "sid=value; Domain=router.lan; Secure; HttpOnly")
    ∷ (lit "Connection", lit "X-Internal-Hop")
    ∷ (lit "X-Internal-Hop", lit "drop")
    ∷ (lit "Content-Type", lit "text/html")
    ∷ []

abbrev cleaned : List Header
cleaned =
    (lit "Location", lit "https://s-test.webvpn.invalid/admin?next=1")
    ∷ (lit "Set-Cookie", lit "sid=value; Secure; HttpOnly")
    ∷ (lit "Content-Type", lit "text/html")
    ∷ []

policy : Unit {0}
unfolding sanitize_upstream_headers nominated is_end_to_end parse_url rewrite_location
    rewrite_header rewrite_headers strip_domain is_space
policy = tt

-- RFC 6265 drops white space around the attribute's name; the pattern does not allow it before the `=`.
spaced_domain :
    strip_domain (lit "sid=value; Domain =router.lan") ≡ lit "sid=value; Domain =router.lan"
unfolding policy
spaced_domain = refl

redirect_confined :
    rewrite_location small_api remote (lit "https://192.168.1.1/admin?next=1")
    ≡ ok (lit "https://s-test.webvpn.invalid/admin?next=1")
unfolding rewrite_location parse_url
redirect_confined = refl

-- The path begins with two slashes, so the second `new URL` reads a host.
redirect_escaped :
    rewrite_location small_api remote (lit "https://router//evil.test/x")
    ≡ ok (lit "https://evil.test/x")
unfolding rewrite_location parse_url
redirect_escaped = refl
