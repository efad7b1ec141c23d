-- ===== src/Policy.antt =====
-- web/src/transport-policy.ts: the URL that goes to the Agent, and the filter on upstream headers.
pub mod Transport
pub mod Cookies
pub mod Headers
mod Tests
use scweb_vpn.Common.{
  ℕ, Bool, true, false, not, ◌&&◌, ◌||◌, Option, none, some, List, [], ◌∷◌, ◌++◌, map, filter, ◌==◌,
  if◌then◌else◌, Result, ok, err, message, ◌>>=◌,
}
use scweb_vpn.Common.Texts.{
  Text, lit, text_eq, has, starts_with, to_lower, trim, trim_start, split_on,
}
use scweb_vpn.Platform.Url.{Scheme, http, https, ws, wss, Url, UrlApi, set_protocol, set_port}

-- `RawHeaders`: names with values, in order.
abbrev pub Header : Type 0
Header = Text × Text

abbrev pub hop_by_hop : List Text
hop_by_hop =
    lit "connection"
    ∷ lit "keep-alive"
    ∷ lit "proxy-authenticate"
    ∷ lit "proxy-authorization"
    ∷ lit "proxy-connection"
    ∷ lit "te"
    ∷ lit "trailer"
    ∷ lit "transfer-encoding"
    ∷ lit "upgrade"
    ∷ []

-- `remote.port || '443'`.
abbrev port_or_443 : Option ℕ → ℕ
port_or_443 none = 443
port_or_443 (some p) = p

plain_url : Scheme → Url → Url
unfolding set_protocol set_port
plain_url https remote = set_port (port_or_443 remote.port) (set_protocol http remote)
plain_url wss remote = set_port (port_or_443 remote.port) (set_protocol ws remote)
plain_url scheme remote = remote

unfoldable pub agent_transport_url : Url → Url
unfolding plain_url
agent_transport_url remote = plain_url remote.scheme remote

-- The names that `Connection` headers list.
abbrev is_connection : Header → Bool
is_connection (name, value) = text_eq (to_lower name) (lit "connection")

abbrev listed_names : Text → List Text
listed_names value = map (λ name. to_lower (trim name)) (split_on b',' value)

unfoldable pub nominated : List Header → List Text
nominated [] = []
nominated (h ∷ hs) = if is_connection h then listed_names h.1 ++ nominated hs else nominated hs

-- The predicate of the `filter`.
unfoldable pub is_end_to_end : List Text → Header → Bool
is_end_to_end listed (name, value) =
    let lower = to_lower name in not (has hop_by_hop lower) && not (has listed lower)

-- The test at a `;` of the pattern `/;\s*domain=[^;]*/gi`.
unfoldable pub domain_follows : Text → Bool
domain_follows s = starts_with (lit "domain=") (to_lower (trim_start s))

-- `value.replace(/;\s*domain=[^;]*/gi, '')`: inside a match everything goes up to the next `;`.
strip_from : Bool → Text → Text
strip_from skipping [] = []
strip_from skipping (c ∷ s) =
    let skipping' = if c == b';' then domain_follows s else skipping in
    let rest = strip_from skipping' s in if skipping' then rest else c ∷ rest

unfoldable pub strip_domain : Text → Text
unfolding strip_from domain_follows
strip_domain value = strip_from false value

module _ (api : UrlApi) (remote : Url) where
  -- `new URL(value, remote)`.
  parse_url : Text → Result Url
  parse_url value = elim (api.resolve value remote) [
    | none ↦ err (message "Invalid URL")
    | some u ↦ ok u
  ]

  pub rewrite_location : Text → Result Text
  rewrite_location value = do
    target ← parse_url value
    rewritten ← parse_url (target.pathname ++ target.search ++ target.hash)
    ok (api.href rewritten)

  -- The function of the `map`.
  pub rewrite_header : Header → Result Header
  rewrite_header (name, value) =
      if text_eq (to_lower name) (lit "location")
      then (do text ← rewrite_location value; ok (name, text))
      else if text_eq (to_lower name) (lit "set-cookie")
      then ok (name, strip_domain value)
      else ok (name, value)

  pub rewrite_headers : List Header → Result (List Header)
  rewrite_headers [] = ok []
  rewrite_headers (h ∷ hs) = do h' ← rewrite_header h; hs' ← rewrite_headers hs; ok (h' ∷ hs')

  unfoldable pub sanitize_upstream_headers : List Header → Result (List Header)
  unfolding rewrite_headers rewrite_header rewrite_location parse_url
  sanitize_upstream_headers headers =
      rewrite_headers (filter (is_end_to_end (nominated headers)) headers)
