-- ===== src/App/Start.antt =====
-- web/src/app.ts: `initialize`, the panel of a temporary service, and the logout. What the requests to the
-- control plane and to the browser settle with is an argument.
pub mod Asked
use scweb_vpn.Common.{
  ℕ, Bool, true, false, not, ◌&&◌, ◌||◌, Option, none, some, List, [], ◌∷◌, ◌++◌, map, find, all,
  if◌then◌else◌, Result, ok, err, Failure, message, ◌>>=◌, String,
}
use scweb_vpn.Common.Texts.{Text, lit, text_eq}
use scweb_vpn.Platform.Url.{Url}
use scweb_vpn.Connection.Session.{TemporaryTarget}
use scweb_vpn.App.{Shown, plain, initialization_failed}
use scweb_vpn.App.Address.{
  ServiceKind, http_kind, https_kind, Service, requested_slug, is_temporary_slug, target_of,
  parse_temporary_url, kind_of_scheme,
}
use scweb_vpn.App.Panels.{AgentName, render_temporary_agents, render_services}

-- The panels, and the variables of the temporary service.
pub record Portal : Type 0 where
  pub binding_hidden : Bool
  pub services_hidden : Bool
  pub temporary_create_hidden : Bool
  pub temporary_target_hidden : Bool
  pub temporary_service : Option Service
  pub temporary_stun_urls : List Text
  pub placeholder : Option ServiceKind
  pub buttons : List (Text × String)
  pub agents : List (Text × AgentName)
  pub create_disabled : Bool
  pub status : Shown

abbrev pub new_portal : Portal
new_portal = record {
  binding_hidden = false;
  services_hidden = false;
  temporary_create_hidden = false;
  temporary_target_hidden = true;
  temporary_service = none;
  temporary_stun_urls = [];
  placeholder = none;
  buttons = [];
  agents = [];
  create_disabled = false;
  status = plain "";
}

-- What `initialize` ends in: nothing more, a call of `connect`, or a failure, after which the origin of a
-- temporary service is cleared.
pub data Next : Type 0 where
  rests : Next
  connects : Service → List Text → Next
  fails : (clears_origin : Bool) → Failure → Next

abbrev asks_slug : Text → Option Text → Bool
asks_slug slug none = false
asks_slug slug (some requested) = text_eq slug requested

-- The page of a temporary service.
unfoldable pub start_temporary : Option Text → Result (List Text × Service) → Portal → Portal × Next
start_temporary requested (err e) p = (p, fails true e)
start_temporary requested (ok (stun_urls, service)) p =
    if not service.temporary || not (asks_slug service.slug requested)
    then (p, fails true (message "临时入口已失效"))
    else (
      record p {
        temporary_service = some service;
        temporary_stun_urls = stun_urls;
        services_hidden = true;
        temporary_create_hidden = true;
        temporary_target_hidden = false;
        placeholder = some service.kind;
        status = plain "临时入口已就绪；目标尚未发送给 OpenWrt Agent。";
      },
      rests,
    )

abbrev selected_next : Option Service → List Text → Next
selected_next none stun_urls = fails false (message "该服务不存在或当前不可用")
selected_next (some s) stun_urls = connects s stun_urls

abbrev next_of : Option Text → List Text → List Service → Next
next_of none stun_urls catalog = rests
next_of (some slug) stun_urls catalog =
    selected_next (find (λ s. text_eq s.slug slug) catalog) stun_urls

-- The portal, or the page of a service that is not temporary.
unfoldable pub start_portal :
    Option Text → Result (List Text × List Service) → Portal → Portal × Next
unfolding render_temporary_agents render_services
start_portal requested (err e) p = (p, fails false e)
start_portal requested (ok (stun_urls, catalog)) p = (
  record p {
    buttons = render_services catalog;
    agents = (render_temporary_agents catalog).0;
    create_disabled = (render_temporary_agents catalog).1;
  },
  next_of requested stun_urls catalog,
)

abbrev is_there : Option Text → Bool
is_there none = false
is_there (some t) = true

-- `initialize()`, on the page with the host name `hostname`.
unfoldable pub initialize :
    (supported : Bool) (hostname : Text) (temporary : Result (List Text × Service))
    (portal : Result (List Text × List Service))
    → Portal
    → Portal × Next
unfolding start_temporary start_portal
initialize false hostname temporary portal p =
    (p, fails false (message "当前浏览器不支持所需的 WebRTC 或 Service Worker 能力"))
initialize true hostname temporary portal p =
    let requested = requested_slug hostname in
    let p' = record p { binding_hidden = is_there requested } in
    if is_temporary_slug requested
    then start_temporary requested temporary p'
    else start_portal requested portal p'

-- The listener of `temporary-connect`: nothing, a failure, or the arguments of `connect`.
abbrev call_of : Service → Url → Service × Url × TemporaryTarget
call_of s remote = (s, remote, target_of remote)

unfoldable pub connect_temporary :
    (Text → Option Url) → Text → Portal → Option (Result (Service × Url × TemporaryTarget))
connect_temporary parse value p = elim p.temporary_service [
  | none ↦ none
  | some s ↦ some (do remote ← parse_temporary_url parse value s.kind; ok (call_of s remote))
]

-- The listener of `temporary-create`: the kind that is asked for, and the page that is opened.
unfoldable pub created_kind : Text → ServiceKind
created_kind value = if text_eq value (lit "http") then http_kind else https_kind

unfoldable pub created_page : (slug hostname : Text) → Text
created_page slug hostname = lit "https://" ++ slug ++ lit "." ++ hostname ++ lit "/"

-- The calls of the listener of `logout`, whose request settles with `posted`.
pub data LogoutAct : Type 0 where
  closes_direct clears_code posts_logout clears_origin opens_logout : LogoutAct

abbrev after_post : Option Text → Result (Unit {0}) → List LogoutAct
after_post requested (err e) = []
after_post requested (ok done) =
    if is_temporary_slug requested then clears_origin ∷ opens_logout ∷ [] else opens_logout ∷ []

unfoldable pub logout : (hostname : Text) (posted : Result (Unit {0})) → List LogoutAct
logout hostname posted =
    closes_direct ∷ clears_code ∷ posts_logout ∷ after_post (requested_slug hostname) posted

-- `clearTemporaryOrigin()`. Registrations and caches are known by name; a list is none where the browser does
-- not have the interface.
pub data OriginAct : Type 0 where
  unregisters : Text → OriginAct
  deletes : Text → OriginAct

abbrev or_no_names : Option (Result (List Text)) → List Text
or_no_names (some (ok names)) = names
or_no_names other = []

unfoldable pub clear_temporary_origin :
    (registrations caches : Option (Result (List Text))) (unregistered : Text → Bool)
    → List OriginAct
clear_temporary_origin registrations caches unregistered =
    map unregisters (or_no_names registrations)
    ++ (if all unregistered (or_no_names registrations)
        then map deletes (or_no_names caches)
        else [])
