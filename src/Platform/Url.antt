-- ===== src/Platform/Url.antt =====
-- The `URL` object: its components, the setters that the code uses, and the parser as an interface.
use scweb_vpn.Common.{ℕ, ◌≡◌, Bool, false, Option, none, some, ◌==◌, if◌then◌else◌, String}
use scweb_vpn.Common.Texts.{Text}

-- `protocol`; every scheme that is not special is `other`.
pub data Scheme : Type 0 where
  http https ws wss ftp file : Scheme
  other : String → Scheme

-- `port` is none for the empty string: the scheme's default port is never written.
pub record Url : Type 0 where
  pub scheme : Scheme
  pub username : Text
  pub password : Text
  pub hostname : Text
  pub port : Option ℕ
  pub pathname : Text
  pub search : Text
  pub hash : Text

abbrev pub default_port : Scheme → Option ℕ
default_port http = some 80
default_port https = some 443
default_port ws = some 80
default_port wss = some 443
default_port ftp = some 21
default_port file = none
default_port (other s) = none

abbrev is_port : Option ℕ → ℕ → Bool
is_port none p = false
is_port (some d) p = d == p

abbrev normal_port : Scheme → Option ℕ → Option ℕ
normal_port s none = none
normal_port s (some p) = if is_port (default_port s) p then none else some p

-- `url.protocol = s` between special schemes: a port that is the new scheme's default goes.
unfoldable pub set_protocol : Scheme → Url → Url
set_protocol s u = record u { scheme = s; port = normal_port s u.port }

-- `url.port = p`: the scheme's default port is not kept.
unfoldable pub set_port : ℕ → Url → Url
set_port p u = record u { port = normal_port u.scheme (some p) }

-- The port that a connection to the URL uses.
abbrev pub effective_port : Url → Option ℕ
effective_port u = elim u.port [ none ↦ default_port u.scheme | some p ↦ some p ]

-- What every parsed URL satisfies: the default port is not written out.
abbrev pub IsNormal : Url → Type 0
IsNormal u = normal_port u.scheme u.port ≡ u.port

pub record SameOrigin (u v : Url) : Type 0 where
  pub scheme : u.scheme ≡ v.scheme
  pub hostname : u.hostname ≡ v.hostname
  pub port : u.port ≡ v.port

-- `new URL(text, base)` (none: a TypeError is thrown) and `url.href`.
pub record UrlApi : Type 0 where
  pub resolve : Text → Url → Option Url
  pub href : Url → Text
