-- ===== src/App/Address/Targets.antt =====
-- The targets of a temporary service that the page accepts, and what it sends the Agent of them.
use scweb_vpn.Common.{
  arith, ℕ, ◌-◌, ◌≤◌, ◌≡◌, ◌≢◌, ◌↔◌, ◌⊎◌, inl, inr, refl, sym, ap, ◌∙◌, Bool, true, false,
  false≢true, not, ◌&&◌, ◌||◌, Option, none, some, [], ◌∷◌, ◌++◌, length, take, drop, ltb,
  if◌then◌else◌, Bool-cases, Option-cases, ok, ok-eq, subst, String,
}
use scweb_vpn.Common.Texts.{Text, lit, starts_with, trim}
use scweb_vpn.Platform.Url.{Scheme, http, https, ws, wss, ftp, file, other, Url, effective_port}
use scweb_vpn.Connection.Session.{TemporaryTarget}
use scweb_vpn.App.Address.{
  ServiceKind, http_kind, https_kind, guacamole, ends_with, kind_of_scheme, same_kind, is_expected,
  is_empty, port_number, is_https, checked_target, read_target, strip_ipv6_brackets, target_of,
  parse_temporary_url,
}
use scweb_vpn.App.Address.Slugs.{ends_with_split, take_front}

-- A URL of the expected kind, with a host and a port that can be dialled, and without credentials.
pub record IsTarget (expected : ServiceKind) (u : Url) : Type 0 where
  pub kind : kind_of_scheme u.scheme ≡ some expected
  pub no_user : u.username ≡ []
  pub no_password : u.password ≡ []
  pub has_host : u.hostname ≢ []
  pub port_low : 1 ≤ port_number u
  pub port_high : port_number u ≤ 65535

is_expected_sound :
    (k : Option ServiceKind) (expected : ServiceKind)
    → is_expected k expected ≡ true
    → k ≡ some expected
is_expected_sound (some http_kind) http_kind h = refl
is_expected_sound (some https_kind) https_kind h = refl
is_expected_sound (some guacamole) guacamole h = refl
is_expected_sound (some http_kind) https_kind h = absurd (cc h)
is_expected_sound (some http_kind) guacamole h = absurd (cc h)
is_expected_sound (some https_kind) http_kind h = absurd (cc h)
is_expected_sound (some https_kind) guacamole h = absurd (cc h)
is_expected_sound (some guacamole) http_kind h = absurd (cc h)
is_expected_sound (some guacamole) https_kind h = absurd (cc h)
is_expected_sound none expected h = absurd (cc h)

same_kind_refl : (k : ServiceKind) → same_kind k k ≡ true
same_kind_refl http_kind = refl
same_kind_refl https_kind = refl
same_kind_refl guacamole = refl

is_empty_sound : (t : Text) → is_empty t ≡ true → t ≡ []
is_empty_sound [] h = refl
is_empty_sound (c ∷ t) h = absurd (cc h)

is_empty_of : (t : Text) → t ≢ [] → is_empty t ≡ false
is_empty_of [] h = absurd (h refl)
is_empty_of (c ∷ t) h = refl

is_empty_not : (t : Text) → is_empty t ≡ false → t ≢ []
is_empty_not [] h e = absurd (cc h)
is_empty_not (c ∷ t) h e = cc e

no_fault :
    (k u p h : Bool)
    → (not k || not u || not p || h) ≡ false
    → (k ≡ true) × (u ≡ true) × (p ≡ true) × (h ≡ false)
no_fault k u p h e = ground arith

in_range : (n : ℕ) → (ltb n 1 || ltb 65535 n) ≡ false → (1 ≤ n) × (n ≤ 65535)
in_range n e = ground arith

range_test : (n : ℕ) → 1 ≤ n → n ≤ 65535 → (ltb n 1 || ltb 65535 n) ≡ false
range_test n low high = ground arith

checked_target_sound :
    (expected : ServiceKind) (u v : Url)
    → checked_target expected u ≡ ok v
    → (u ≡ v) × IsTarget expected v
unfolding checked_target
checked_target_sound expected u v h =
    elim (Bool-cases (
      not (is_expected (kind_of_scheme u.scheme) expected)
      || not (is_empty u.username)
      || not (is_empty u.password)
      || is_empty u.hostname)) [
        | inl fault ↦ absurd (cc (rw fault at h))
        | inr sound ↦ elim (Bool-cases (ltb (port_number u) 1 || ltb 65535 (port_number u))) [
          | inl fault ↦ absurd (cc (rw (sound, fault) at h))
          | inr fits ↦
              let given : ok u ≡ ok v = rw (sound, fits) at h in
              let same : u ≡ v = ok-eq given in
              let (k, n, p, host) = no_fault _ _ _ _ sound in
              let (low, high) = in_range (port_number u) fits in
              (
                same,
                subst (IsTarget expected) same (record {
                  kind = is_expected_sound _ expected k;
                  no_user = is_empty_sound _ n;
                  no_password = is_empty_sound _ p;
                  has_host = is_empty_not _ host;
                  port_low = low;
                  port_high = high;
                }),
              )
        ]
      ]

checked_target_complete :
    (expected : ServiceKind) (u : Url) → IsTarget expected u → checked_target expected u ≡ ok u
unfolding checked_target
checked_target_complete expected u t =
    rw
      (
        t.kind,
        t.no_user,
        t.no_password,
        same_kind_refl expected,
        is_empty_of u.hostname t.has_host,
        range_test (port_number u) t.port_low t.port_high,
      )
      refl

read_target_sound :
    (expected : ServiceKind) (found : Option Url) (u : Url)
    → read_target expected found ≡ ok u
    → (found ≡ some u) × IsTarget expected u
read_target_sound expected none u h = absurd (cc h)
read_target_sound expected (some v) u h =
    let (same, t) = checked_target_sound expected v u h in (ap some same, t)

-- The page accepts a text as the target of a temporary service exactly if it is, without the white space
-- at its ends, a URL of the service's kind, without user name and password, with a host, and
-- with a port from 1 to 65535.
pub parse_temporary_url_iff :
    (parse : Text → Option Url) (value : Text) (expected : ServiceKind) (u : Url)
    → (parse_temporary_url parse value expected ≡ ok u)
      ↔ ((parse (trim value) ≡ some u) × IsTarget expected u)
unfolding parse_temporary_url
parse_temporary_url_iff parse value expected u = (
  read_target_sound expected (parse (trim value)) u,
  λ h. ap (read_target expected) h.0 ∙ checked_target_complete expected u h.1,
)

-- The address that the Agent is sent of a URL: an IPv6 address without its brackets, any other
-- host as it is.
abbrev pub HostOf : Text → Text → Type 0
HostOf hostname host =
    (hostname ≡ lit "[" ++ host ++ lit "]")
    ⊎ ((hostname ≡ host)
        × ((starts_with (lit "[") hostname && ends_with (lit "]") hostname) ≡ false))

abbrev pub kind_name : ServiceKind → String
kind_name http_kind = "http"
kind_name https_kind = "https"
kind_name guacamole = "guacamole"

pub record IsSent (expected : ServiceKind) (u : Url) (t : TemporaryTarget) : Type 0 where
  pub host : HostOf u.hostname t.host
  pub port : effective_port u ≡ some t.port
  pub port_low : 1 ≤ t.port
  pub port_high : t.port ≤ 65535
  pub kind : t.kind ≡ kind_name expected

bracketed : (host : Text) → starts_with (lit "[") host ≡ true → (rest : Text) × (host ≡ b'[' ∷ rest)
bracketed [] h = absurd (cc h)
bracketed (c ∷ host) h = (host, ground arith)

inner_front :
    (rest front : Text)
    → b'[' ∷ rest ≡ front ++ lit "]"
    → (inner : Text) × (rest ≡ inner ++ lit "]")
inner_front rest [] e = absurd (false≢true (sym (ap (λ l. starts_with (lit "[") l) e)))
inner_front rest (c ∷ inner) e = (inner, cc)

cut_brackets :
    (inner : Text) → take (length (b'[' ∷ (inner ++ lit "]")) - 2) (inner ++ lit "]") ≡ inner
cut_brackets inner = ap (λ n. take n (inner ++ lit "]")) (omega arith) ∙ take_front inner (lit "]")

strip_ipv6_brackets-HostOf : (host : Text) → HostOf host (strip_ipv6_brackets host)
unfolding strip_ipv6_brackets
strip_ipv6_brackets-HostOf host =
    elim (Bool-cases (starts_with (lit "[") host && ends_with (lit "]") host)) [
      | inr plain ↦ inr (rw plain refl, plain)
      | inl both ↦
          let starts : starts_with (lit "[") host ≡ true = ground arith in
          let ends : ends_with (lit "]") host ≡ true = ground arith in
          let (rest, from) = bracketed host starts in
          let (front, to) = ends_with_split (lit "]") host ends in
          let (inner, whole) = inner_front rest front (sym from ∙ to) in
          let host_is : host ≡ lit "[" ++ inner ++ lit "]" = from ∙ ap (λ r. b'[' ∷ r) whole in
          let cut : take (length host - 2) (drop 1 host) ≡ inner =
            ap (λ s. take (length s - 2) (drop 1 s)) host_is ∙ cut_brackets inner in
          inl (rw both (rw cut host_is))
    ]

target_port :
    (expected : ServiceKind) (s : Scheme) (u : Url)
    → u.scheme ≡ s
    → kind_of_scheme s ≡ some expected
    → effective_port u ≡ some (port_number u)
target_port expected http u e k = elim (Option-cases u.port) [
  | inl none_there ↦ rw (none_there, e) refl
  | inr (p, there) ↦ rw there refl
]
target_port expected https u e k = elim (Option-cases u.port) [
  | inl none_there ↦ rw (none_there, e) refl
  | inr (p, there) ↦ rw there refl
]
target_port expected ws u e k = absurd (cc k)
target_port expected wss u e k = absurd (cc k)
target_port expected ftp u e k = absurd (cc k)
target_port expected file u e k = absurd (cc k)
target_port expected (other s) u e k = absurd (cc k)

some_of_eq : {a b : ServiceKind} → some a ≡ some b → a ≡ b
some_of_eq h = cc

target_kind :
    (expected : ServiceKind) (s : Scheme)
    → kind_of_scheme s ≡ some expected
    → (if is_https s then "https" else "http") ≡ kind_name expected
target_kind expected https k = subst (λ e. "https" ≡ kind_name e) (some_of_eq k) refl
target_kind expected http k = subst (λ e. "http" ≡ kind_name e) (some_of_eq k) refl
target_kind expected ws k = absurd (cc k)
target_kind expected wss k = absurd (cc k)
target_kind expected ftp k = absurd (cc k)
target_kind expected file k = absurd (cc k)
target_kind expected (other s) k = absurd (cc k)

-- What the Agent is sent of a URL that the page accepted: its host, an IPv6 address without its brackets,
-- the port that the URL leads to, from 1 to 65535, and the kind of the service.
pub target_of-IsSent :
    (parse : Text → Option Url) (value : Text) (expected : ServiceKind) (u : Url)
    → parse_temporary_url parse value expected ≡ ok u
    → IsSent expected u (target_of u)
unfolding target_of
target_of-IsSent parse value expected u h =
    let t = ((parse_temporary_url_iff parse value expected u).0 h).1 in
    record {
      host = strip_ipv6_brackets-HostOf u.hostname;
      port = target_port expected u.scheme u refl t.kind;
      port_low = t.port_low;
      port_high = t.port_high;
      kind = target_kind expected u.scheme t.kind;
    }
