-- ===== src/Policy/Headers.antt =====
-- `sanitizeUpstreamHeaders` against a description of its own of what reaches the browser.
use scweb_vpn.Common.{
  ◌≡◌, refl, ap, Bool, false, not, ◌&&◌, ◌||◌, List, [], ◌∷◌, ◌++◌, map, filter, any, arith, ok,
  ok-eq, >>=-eq-ok, subst, ◌∙◌, String, Bool-cases, inl, inr, if◌then◌else◌,
}
use scweb_vpn.Common.Texts.{Text, lit, text_eq, text_eq_iff, has, to_lower, trim, split_on}
use scweb_vpn.Platform.Url.{Url, UrlApi}
use scweb_vpn.Policy.{
  Header, listed_names, nominated, is_end_to_end, rewrite_location, rewrite_header, rewrite_headers,
  strip_domain, sanitize_upstream_headers,
}
use scweb_vpn.Policy.Cookies.{without_domain, strip_domain-without_domain}

-- The headers that concern one connection only.
abbrev pub connection_headers : List Text
connection_headers =
    lit "connection"
    ∷ lit "keep-alive"
    ∷ lit "proxy-authenticate"
    ∷ lit "proxy-authorization"
    ∷ lit "proxy-connection"
    ∷ lit "te"
    ∷ lit "trailer"
    ∷ lit "transfer-encoding"
    ∷ lit "upgrade"
    ∷ []

abbrev pub has_name : String → Header → Bool
has_name name h = text_eq (to_lower h.0) (lit name)

-- The header is `Connection`, and the name is one of those between the commas of its value.
abbrev pub lists : Text → Header → Bool
lists name h =
    has_name "connection" h
    && any (λ piece. text_eq (to_lower (trim piece)) name) (split_on b',' h.1)

abbrev pub is_kept : List Header → Header → Bool
is_kept headers h =
    not (has connection_headers (to_lower h.0)) && not (any (lists (to_lower h.0)) headers)

-- A header without the value of `Location`.
abbrev pub masked : Header → Header
masked h = if has_name "location" h then (h.0, []) else h

-- What becomes of a header that is kept.
abbrev pub confined : Header → Header
confined h = if has_name "set-cookie" h then (h.0, without_domain h.1) else masked h

-- What reaches the browser, but for the values of `Location`.
abbrev pub reference : List Header → List Header
reference headers = map confined (filter (is_kept headers) headers)

has-append : (ss ts : List Text) (s : Text) → has (ss ++ ts) s ≡ (has ss s || has ts s)
has-append [] ts s = refl
has-append (t ∷ ss) ts s = ground (arith, has-append ss ts s)

has-map :
    (f : Text → Text) (ss : List Text) (t : Text) → has (map f ss) t ≡ any (λ s. text_eq (f s) t) ss
has-map f [] t = refl
has-map f (s ∷ ss) t = ground (arith, has-map f ss t)

has-nominated :
    (headers : List Header) (name : Text) → has (nominated headers) name ≡ any (lists name) headers
unfolding nominated
has-nominated [] name = refl
has-nominated (h ∷ hs) name = ground (
  arith,
  has-nominated hs name,
  has-append (listed_names h.1) (nominated hs) name,
  has-map (λ piece. to_lower (trim piece)) (split_on b',' h.1) name,
)

is_end_to_end-is_kept :
    (headers : List Header) (h : Header) → is_end_to_end (nominated headers) h ≡ is_kept headers h
unfolding is_end_to_end
is_end_to_end-is_kept headers h = rw (has-nominated headers (to_lower h.0)) refl

filter-same :
    (p q : Header → Bool) (hs : List Header)
    → ((h : Header) → p h ≡ q h)
    → filter p hs ≡ filter q hs
filter-same p q [] same = refl
filter-same p q (h ∷ hs) same = rw (same h, filter-same p q hs same) refl

module _ (api : UrlApi) (remote : Url) where
  rewrite_header-confined :
      (h h' : Header) → rewrite_header api remote h ≡ ok h' → masked h' ≡ confined h
  unfolding rewrite_header
  rewrite_header-confined (name, value) h' e =
      elim (Bool-cases (text_eq (to_lower name) (lit "location"))) [
        | inl is_location ↦
            let (t, found, same) =
              >>=-eq-ok (rewrite_location api remote value) _ (rw is_location at e) in
            let same_header : (name, t) ≡ h' = ok-eq same in
            let no_cookie : text_eq (to_lower name) (lit "set-cookie") ≡ false =
              rw ((text_eq_iff (to_lower name) (lit "location")).0 is_location) refl in
            subst (λ g. masked g ≡ confined (name, value)) same_header
              (rw (no_cookie, is_location) refl)
        | inr not_location ↦ elim (Bool-cases (text_eq (to_lower name) (lit "set-cookie"))) [
          | inl set ↦
              let same : (name, strip_domain value) ≡ h' = ok-eq (rw (not_location, set) at e) in
              rw (← same, set, not_location)
                (ap (λ v. (name, v)) (strip_domain-without_domain value))
          | inr unset ↦
              let same : (name, value) ≡ h' = ok-eq (rw (not_location, unset) at e) in
              rw (← same, unset, not_location) refl
        ]
      ]

  rewrite_headers-confined :
      (hs out : List Header)
      → rewrite_headers api remote hs ≡ ok out
      → map masked out ≡ map confined hs
  unfolding rewrite_headers
  rewrite_headers-confined [] out e = let same : out ≡ [] = cc in rw same refl
  rewrite_headers-confined (h ∷ hs) out e =
      let (h', first, e') = >>=-eq-ok (rewrite_header api remote h) _ e in
      let (hs', later, e'') = >>=-eq-ok (rewrite_headers api remote hs) _ e' in
      let same : out ≡ h' ∷ hs' = cc in
      rw (same, rewrite_header-confined h h' first, rewrite_headers-confined hs hs' later) refl

pub sanitize_upstream_headers-reference :
    (api : UrlApi) (remote : Url) (headers out : List Header)
    → sanitize_upstream_headers api remote headers ≡ ok out
    → map masked out ≡ reference headers
unfolding sanitize_upstream_headers
sanitize_upstream_headers-reference api remote headers out e =
    rewrite_headers-confined api remote (filter (is_end_to_end (nominated headers)) headers) out e
    ∙ ap (map confined) (
        filter-same (is_end_to_end (nominated headers)) (is_kept headers) headers
          (is_end_to_end-is_kept headers))
