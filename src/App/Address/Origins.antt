-- ===== src/App/Address/Origins.antt =====
-- The origin of the frame, by the host names of `virtual.ts`.
use scweb_vpn.Common.{
  ◌≡◌, refl, sym, ap, ◌∙◌, Option, none, some, List, [], ◌++◌, map, All, ok, ok-eq, >>=-eq-ok, ℕ,
}
use scweb_vpn.Common.Texts.{Text, lit}
use scweb_vpn.Platform.Url.{Scheme, http, https, Url, SameOrigin}
use scweb_vpn.Virtual.{virtual_hostname, id_bytes}
use scweb_vpn.Virtual.Hostname.{virtual_hostname-Named, virtual_hostname_injective}
use scweb_vpn.Virtual.Digits.{IsDigit, letter}
use scweb_vpn.App.Address.{
  ServiceKind, https_kind, Service, frame_scheme, with_path_of, or_type_error, virtual_url,
}

abbrev scheme_of : ServiceKind → Scheme
scheme_of https_kind = https
scheme_of other = http

abbrev pub page_at : ServiceKind → Text → Url
page_at kind host = record {
  scheme = scheme_of kind;
  username = [];
  password = [];
  hostname = host;
  port = none;
  pathname = lit "/";
  search = [];
  hash = [];
}

-- The URL standard: `new URL` of a scheme and a host name of lower-case letters, figures, a dash and dots
-- has that host name, no port and the root path.
pub record ParsesNames (parse : Text → Option Url) : Type 0 where
  pub page :
      (kind : ServiceKind) (digits : List ℕ)
      → All IsDigit digits
      → (let host = lit "s-" ++ map letter digits ++ lit ".webvpn.invalid" in
          parse (frame_scheme kind ++ lit "//" ++ host ++ lit "/") ≡ some (page_at kind host))

hostname-with_path_of :
    (remote : Option Url) (u : Url) → (with_path_of remote u).hostname ≡ u.hostname
hostname-with_path_of none u = refl
hostname-with_path_of (some remote) u = refl

virtual_url-hostname :
    (parse : Text → Option Url) (s : Service) (remote : Option Url) (u : Url)
    → ParsesNames parse
    → virtual_url parse s remote ≡ ok u
    → virtual_hostname s.id ≡ ok u.hostname
unfolding virtual_url
virtual_url-hostname parse s remote u p h =
    let (host, named, after) = >>=-eq-ok (virtual_hostname s.id) _ h in
    let (v, read, last) =
      >>=-eq-ok (or_type_error (parse (frame_scheme s.kind ++ lit "//" ++ host ++ lit "/"))) _
        after in
    let n = virtual_hostname-Named s.id host named in
    let known =
      ap (λ n. or_type_error (parse (frame_scheme s.kind ++ lit "//" ++ n ++ lit "/"))) n.name
      ∙ ap or_type_error (p.page s.kind n.digits n.are_digits) in
    let same : page_at s.kind (lit "s-" ++ map letter n.digits ++ lit ".webvpn.invalid") ≡ v =
      ok-eq (sym known ∙ read) in
    let hostname : host ≡ u.hostname =
      n.name
      ∙ ap (λ w. w.hostname) same
      ∙ sym (hostname-with_path_of remote v)
      ∙ ap (λ w. w.hostname) (ok-eq last) in
    named ∙ ap ok hostname

-- The frames of two services, whatever paths they show, have one origin only if the services'
-- identifiers decode to the same 16 bytes.
pub virtual_url_injective :
    (parse : Text → Option Url) (s t : Service) (r q : Option Url) (u v : Url)
    → ParsesNames parse
    → virtual_url parse s r ≡ ok u
    → virtual_url parse t q ≡ ok v
    → SameOrigin u v
    → id_bytes s.id ≡ id_bytes t.id
virtual_url_injective parse s t r q u v p hu hv o =
    virtual_hostname_injective s.id t.id u.hostname (virtual_url-hostname parse s r u p hu)
      (virtual_url-hostname parse t q v p hv ∙ ap ok (sym o.hostname))
