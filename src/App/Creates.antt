-- ===== src/App/Creates.antt =====
-- web/src/app.ts: the listener of `temporary-create`, on a page with the host name `hostname`. The control plane
-- is that of Connection/Api; `JSON.stringify` is a parameter.
use scweb_vpn.Common.{
  ◌≡◌, sym, ap, ◌∙◌, true, false, Option, none, some, [], ◌∷◌, ◌++◌, Result, ok, err, append_assoc,
  map-append, ◌↔◌,
}
use scweb_vpn.Common.Texts.{Text, lit, to_lower, lower_unit}
use scweb_vpn.Platform.Json.{Json}
use scweb_vpn.Connection.Api.{Request, Response, create_temporary_service, member}
use scweb_vpn.App.{initialization_failed}
use scweb_vpn.App.Address.{ServiceKind, https_kind, slug_suffix, requested_slug}
use scweb_vpn.App.Address.Slugs.{IsLabel, requested_slug_iff}
use scweb_vpn.App.Start.{Portal, created_kind, created_page}

-- The body of the request.
pub record TemporaryInput : Type 0 where
  pub agent_id : Text
  pub display_name : Text
  pub kind : ServiceKind

abbrev temporary_name : ServiceKind → Text
temporary_name https_kind = lit "临时 HTTPS 服务"
temporary_name kind = lit "临时 HTTP 服务"

unfoldable pub temporary_input : (agent kind : Text) → TemporaryInput
unfolding created_kind
temporary_input agent kind = record {
  agent_id = agent;
  display_name = temporary_name (created_kind kind);
  kind = created_kind kind;
}

module _ (fetch : Request → Result Response) (to_text : Json → Text)
    (stringify : TemporaryInput → Text) where
  -- A property in a template; one that is not there reads `undefined`.
  abbrev shown_slug : Option Json → Text
  shown_slug none = lit "undefined"
  shown_slug (some slug) = to_text slug

  abbrev slug_of_created : Result Json → Result (Option Json)
  slug_of_created (ok created) = member created "slug"
  slug_of_created (err e) = err e

  -- The page that is opened, or the failure that is shown, with the button enabled again.
  abbrev after_creation : Text → Result (Option Json) → Portal → Portal × Option Text
  after_creation hostname (ok slug) p = (p, some (created_page (shown_slug slug) hostname))
  after_creation hostname (err e) p =
      (record p { status = initialization_failed e; create_disabled = false }, none)

  unfoldable pub create_temporary : (hostname agent kind : Text) → Portal → Portal × Option Text
  unfolding created_page temporary_input
  create_temporary hostname agent kind p =
      after_creation hostname
        (slug_of_created
          (create_temporary_service fetch to_text (stringify (temporary_input agent kind))))
        (record p { create_disabled = true })

-- The host of the page that is opened.
abbrev pub created_host : (slug hostname : Text) → Text
created_host slug hostname = slug ++ (lit "." ++ hostname)

append_cancel : (a b c : Text) → a ++ b ≡ a ++ c → b ≡ c
append_cancel [] b c e = e
append_cancel (x ∷ a) b c e = append_cancel a b c cc

created_page_host :
    (slug hostname : Text)
    → created_page slug hostname ≡ lit "https://" ++ created_host slug hostname ++ lit "/"
unfolding created_page
created_page_host slug hostname =
    ap (λ t. t ++ lit "/")
      (ap (λ t. t ++ hostname) (append_assoc (lit "https://") slug (lit "."))
        ∙ append_assoc (lit "https://") (slug ++ lit ".") hostname
        ∙ ap (λ t. lit "https://" ++ t) (append_assoc slug (lit ".") hostname))

to_lower-created_host :
    (slug hostname : Text)
    → to_lower slug ≡ slug
    → to_lower (created_host slug hostname) ≡ slug ++ (lit "." ++ to_lower hostname)
to_lower-created_host slug hostname lower =
    map-append lower_unit slug (lit "." ++ hostname)
    ∙ ap (λ t. t ++ (lit "." ++ to_lower hostname)) lower

-- The page that the listener opens for a created temporary service, whose slug is one label in lower case,
-- asks for that service exactly if the listener runs on the portal's own host.
pub created_page_iff :
    (slug hostname : Text)
    → IsLabel slug
    → to_lower slug ≡ slug
    → (created_page slug hostname ≡ lit "https://" ++ created_host slug hostname ++ lit "/")
      × ((requested_slug (created_host slug hostname) ≡ some slug)
          ↔ (lit "." ++ to_lower hostname ≡ slug_suffix))
created_page_iff slug hostname label lower =
    let asks = requested_slug_iff (created_host slug hostname) slug in
    let lowered = to_lower-created_host slug hostname lower in
    (
      created_page_host slug hostname,
      (
        (λ asked. append_cancel slug _ _ (sym lowered ∙ (asks.0 asked).0)),
        (λ portal. asks.1 (lowered ∙ ap (λ t. slug ++ t) portal, label)),
      ),
    )
