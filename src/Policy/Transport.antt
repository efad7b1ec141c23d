-- ===== src/Policy/Transport.antt =====
-- The scheme and the port of `agentTransportURL`.
use scweb_vpn.Common.{◌≡◌, ◌≢◌, arith}
use scweb_vpn.Platform.Url.{https, wss, Url, IsNormal, effective_port, set_protocol, set_port}
use scweb_vpn.Policy.{agent_transport_url}

-- All that stays of the URL when it is handed to the Agent, and the scheme that it then has.
pub record IsPlainCopy (u v : Url) : Type 0 where
  pub port : effective_port v ≡ effective_port u
  pub hostname : v.hostname ≡ u.hostname
  pub username : v.username ≡ u.username
  pub password : v.password ≡ u.password
  pub pathname : v.pathname ≡ u.pathname
  pub search : v.search ≡ u.search
  pub hash : v.hash ≡ u.hash
  pub not_https : v.scheme ≢ https
  pub not_wss : v.scheme ≢ wss

-- The URL for the Agent is never `https:` or `wss:`, its effective port is that of the remote URL,
-- and its host, credentials, path, query and fragment are the remote URL's.
pub agent_transport_url-IsPlainCopy : (u : Url) → IsPlainCopy u (agent_transport_url u)
unfolding agent_transport_url set_protocol set_port
agent_transport_url-IsPlainCopy u = ground arith

-- A URL that does not write its default port out is still such a URL after the change.
pub agent_transport_url-IsNormal : (u : Url) → IsNormal u → IsNormal (agent_transport_url u)
unfolding agent_transport_url set_protocol set_port
agent_transport_url-IsNormal u h = ground arith
