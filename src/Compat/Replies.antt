-- ===== src/Compat/Replies.antt =====
-- The replies that `request` hands on, and the headers that it sends.
use scweb_vpn.Common.{
  arith, ℕ, ok-eq, ◌≡◌, refl, ap, ◌∙◌, Bool, true, false, Option, none, some, List, [], ◌∷◌, map,
  if◌then◌else◌, ok, >>=-eq-ok, subst,
}
use scweb_vpn.Common.Texts.{Text, text_eq, text_eq_iff}
use scweb_vpn.Platform.Url.{Url, UrlApi}
use scweb_vpn.Policy.{Header}
use scweb_vpn.Policy.Headers.{masked, reference, sanitize_upstream_headers-reference}
use scweb_vpn.Compat.{
  set_entry, from_entries, or_headers, Raw, raw_values, response_headers, content_type, is_page,
  buffered, streamed, Reply, reply_of,
}

-- The value of a name in a list of headers: the first, and the last.
abbrev pub lookup : Text → List Header → Option Text
lookup name [] = none
lookup name (h ∷ hs) = if text_eq h.0 name then some h.1 else lookup name hs

abbrev or_else : Option Text → Option Text → Option Text
or_else none d = d
or_else (some t) d = some t

abbrev pub last_value : Text → List Header → Option Text
last_value name [] = none
last_value name (h ∷ hs) =
    or_else (last_value name hs) (if text_eq h.0 name then some h.1 else none)

lookup-set_entry :
    (name : Text) (h : Header) (gs : List Header)
    → lookup name (set_entry h gs) ≡ (if text_eq h.0 name then some h.1 else lookup name gs)
unfolding set_entry
lookup-set_entry name h [] = refl
lookup-set_entry name h (g ∷ gs) = ground (
  arith,
  text_eq_iff g.0 h.0,
  text_eq_iff g.0 name,
  text_eq_iff h.0 name,
  lookup-set_entry name h gs,
)

or_else-later :
    (a : Option Text) (b : Bool) (t : Text) (d : Option Text)
    → or_else a (if b then some t else d) ≡ or_else (or_else a (if b then some t else none)) d
or_else-later none true t d = refl
or_else-later none false t d = refl
or_else-later (some s) b t d = refl

lookup-from_entries_onto :
    (name : Text) (done hs : List Header)
    → lookup name (from_entries done hs) ≡ or_else (last_value name hs) (lookup name done)
unfolding from_entries
lookup-from_entries_onto name done [] = refl
lookup-from_entries_onto name done (h ∷ hs) =
    lookup-from_entries_onto name (set_entry h done) hs
    ∙ ap (or_else (last_value name hs)) (lookup-set_entry name h done)
    ∙ or_else-later (last_value name hs) (text_eq h.0 name) h.1 (lookup name done)

or_else-none : (a : Option Text) → or_else a none ≡ a
or_else-none none = refl
or_else-none (some t) = refl

-- Of several request headers with one name the last is sent, and no name is lost.
pub lookup-from_entries :
    (name : Text) (hs : List Header) → lookup name (from_entries [] hs) ≡ last_value name hs
lookup-from_entries name hs =
    lookup-from_entries_onto name [] hs ∙ or_else-none (last_value name hs)

-- A reply of a fetch: its headers are those of the reference, and its body is read whole only for a page.
pub record IsHandedOn (received : List Header) (r : Reply) : Type 0 where
  pub clean : map masked r.headers ≡ reference received
  pub mode : r.mode ≡ (if is_page (content_type r.headers) then buffered else streamed)

-- The reply that `request` returns has the headers of the reference, but for the value of `Location`, wherever
-- the client reports its headers (the raw ones, or the others where it reports no raw ones), and its
-- body is read whole exactly if its content type is HTML or XHTML.
pub reply_of-IsHandedOn :
    (api : UrlApi) (remote : Url) (status : ℕ) (raw : Raw) (headers : List Header) (r : Reply)
    → reply_of api remote status raw headers ≡ ok r
    → IsHandedOn (or_headers (raw_values raw) headers) r × (r.status ≡ status)
unfolding reply_of response_headers
reply_of-IsHandedOn api remote status raw headers r h =
    let (hs, cleaned, same) = >>=-eq-ok (response_headers api remote raw headers) _ h in
    let clean =
      sanitize_upstream_headers-reference api remote (or_headers (raw_values raw) headers) hs
        cleaned in
    let made : record {
      mode = if is_page (content_type hs) then buffered else streamed;
      headers = hs;
      status = status;
    }
        ≡ r =
      ok-eq same in
    subst (λ x. IsHandedOn (or_headers (raw_values raw) headers) x × (x.status ≡ status)) made
      (record { clean = clean; mode = refl }, refl)
