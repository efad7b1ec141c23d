-- ===== src/App/Tests.antt =====
-- Runs of the portal's page, and the theorems at them.
use scweb_vpn.Common.{
  arith, ◌-◌, ◌≡◌, ◌↔◌, ◌⊎◌, refl, ap, true, false, Option, none, some, List, [], ◌∷◌, ◌++◌, length,
  take, drop, if◌then◌else◌, ok, err, message,
}
use scweb_vpn.Common.Texts.{Text, lit, starts_with, trim, to_lower}
use scweb_vpn.Platform.Url.{Url}
use scweb_vpn.Virtual.Example.{service_id, service_host, agent_authority}
use scweb_vpn.App.{Page, p2p_failed, connecting, new_page}
use scweb_vpn.App.Address.{
  ServiceKind, http_kind, https_kind, guacamole, frame_scheme, Service, requested_slug, slug_suffix,
  parse_temporary_url, target_of, virtual_url,
}
use scweb_vpn.App.Address.Slugs.{IsLabel, take_front}
use scweb_vpn.App.Address.Targets.{IsTarget, IsSent, parse_temporary_url_iff, target_of-IsSent}
use scweb_vpn.App.Address.Origins.{page_at, ParsesNames}
use scweb_vpn.App.Connects.{
  portal, temporary_panel, new_run, PageEvent, calls, settles, disconnects, page_step, page_run,
}
use scweb_vpn.App.Connects.Closed.{is_closed}
use scweb_vpn.App.Connects.Consistent.{IsConsistent, page_run-IsConsistent}
use scweb_vpn.App.Connects.Tracked.{page_run_closes_others}
use scweb_vpn.App.Connects.Outcomes.{call, goes_well, IsLeft, connect_call-IsLeft}
use scweb_vpn.App.Start.{initialize, new_portal, created_page}
use scweb_vpn.App.Creates.{created_host, created_page_iff}
use scweb_vpn.App.Elements.{elements, required_all, element_ids}
use scweb_vpn.App.Start.Asked.{IsAsked, initialize-IsAsked}
use scweb_vpn.App.Panels.{CodeEvent, asks, answers, code_run, new_code_panel}
use scweb_vpn.App.Panels.Codes.{IsGuarded, code_run-IsGuarded}

abbrev router : Service
router = record {
  id = service_id;
  agent_id = lit "agent-1";
  slug = lit "router";
  display_name = lit "Router";
  kind = https_kind;
  enabled = true;
  temporary = false;
}

abbrev visit : Service
visit = record router { slug = lit "tmp-1"; temporary = true }

abbrev without_slash : Text → Text
without_slash t = take (length t - length (lit "/")) t

-- `new URL` of a scheme, a host name, and a slash.
abbrev parse_name : Text → Option Url
parse_name t =
    if starts_with (lit "https://") t
    then some (page_at https_kind (without_slash (drop 8 t)))
    else some (page_at http_kind (without_slash (drop 7 t)))

-- A first call of `connect` that awaits the connection when a second one starts.
abbrev two_clicks : List PageEvent
two_clicks =
    calls portal router none
    ∷ settles 0 (ok true)
    ∷ calls portal router none
    ∷ settles 1 (ok true)
    ∷ []

abbrev after_clicks : Page
after_clicks = (page_run parse_name two_clicks new_run).page

page_run_closes_others_example : (is_closed 0 after_clicks ≡ true) ⊎ (after_clicks.direct ≡ some 0)
unfolding page_run page_step
page_run_closes_others_example =
    page_run_closes_others parse_name two_clicks 0 (refl, (tt, (refl, (tt, tt)))) (omega arith)

page_run-IsConsistent_example : IsConsistent after_clicks
page_run-IsConsistent_example = page_run-IsConsistent parse_name two_clicks

connect_call-IsLeft_example :
    IsLeft
      (goes_well
        (ok true)
        (ok true)
        (err (message "init"))
        (virtual_url parse_name router none)
        (ok true))
      new_page
      (page_run parse_name
        (call parse_name portal router none (ok true) (ok true) (err (message "init")) (ok true))
        (record { page = new_page; flights = [] })).page
connect_call-IsLeft_example =
    connect_call-IsLeft parse_name portal router none (ok true) (ok true) (err (message "init"))
      (ok true) new_page

initialize-IsAsked_example : IsAsked (requested_slug (lit "tmp-1.vpn.example.com")) (
    initialize true
      (lit "tmp-1.vpn.example.com")
      (ok ([], visit))
      (ok ([], router ∷ []))
      new_portal)
initialize-IsAsked_example =
    initialize-IsAsked true (lit "tmp-1.vpn.example.com") (ok ([], visit)) (ok ([], router ∷ []))

abbrev one_code : List CodeEvent
one_code =
    asks ∷ answers (ok (record { code = lit "0123456789abcdef"; expires_at = 9000 })) 3000 ∷ []

code_run-IsGuarded_example : IsGuarded (code_run one_code new_code_panel)
code_run-IsGuarded_example = code_run-IsGuarded one_code

tmp-IsLabel : IsLabel (lit "tmp-1")
tmp-IsLabel = ((λ e. cc), refl)

created_page_iff_example :
    (created_page (lit "tmp-1") (lit "VPN.example.com")
      ≡ lit "https://" ++ created_host (lit "tmp-1") (lit "VPN.example.com") ++ lit "/")
    × ((requested_slug (created_host (lit "tmp-1") (lit "VPN.example.com")) ≡ some (lit "tmp-1"))
        ↔ (lit "." ++ to_lower (lit "VPN.example.com") ≡ slug_suffix))
created_page_iff_example = created_page_iff (lit "tmp-1") (lit "VPN.example.com") tmp-IsLabel refl

-- A temporary service that is created on the page of a service.
nested_page : requested_slug (created_host (lit "tmp-1") (lit "router.vpn.example.com")) ≡ none
unfolding requested_slug
nested_page = refl

-- The elements of web/public/index.html.
index_elements :
    elements (
      "logout" ∷ "agent-binding" ∷ "agent-binding-title" ∷ "binding-create" ∷ "binding-result"
      ∷ "binding-code" ∷ "binding-expiry" ∷ "services-title" ∷ "restart" ∷ "disconnect" ∷ "services"
      ∷ "temporary-create" ∷ "temporary-create-title" ∷ "temporary-agent" ∷ "temporary-kind"
      ∷ "temporary-create-button" ∷ "temporary-target" ∷ "temporary-target-title" ∷ "temporary-url"
      ∷ "temporary-connect" ∷ "connection-title" ∷ "status" ∷ "details" ∷ "diagnostic-title"
      ∷ "dns-name" ∷ "dns-query" ∷ "ping-target" ∷ "diagnostic-result" ∷ "remote" ∷ [])
    ≡ ok element_ids
unfolding elements required_all
index_elements = refl

abbrev printer : Url
printer = record (page_at http_kind (lit "[fd00::7]")) { port = some 8080 }

abbrev parse_printer : Text → Option Url
parse_printer t = some printer

printer-IsTarget : IsTarget http_kind printer
printer-IsTarget = record {
  kind = refl;
  no_user = refl;
  no_password = refl;
  has_host = λ e. cc e;
  port_low = omega arith;
  port_high = omega arith;
}

abbrev printer_text : Text
printer_text = lit " http://[fd00::7]:8080/"

parse_temporary_url_iff_example :
    (parse_temporary_url parse_printer printer_text http_kind ≡ ok printer)
    ↔ ((parse_printer (trim printer_text) ≡ some printer) × IsTarget http_kind printer)
parse_temporary_url_iff_example =
    parse_temporary_url_iff parse_printer printer_text http_kind printer

target_of-IsSent_example : IsSent http_kind printer (target_of printer)
target_of-IsSent_example = target_of-IsSent parse_printer printer_text http_kind printer (
    (parse_temporary_url_iff parse_printer printer_text http_kind printer).1
      (refl, printer-IsTarget))

target_of-printer : (target_of printer).host ≡ lit "fd00::7"
unfolding target_of
target_of-printer = refl

-- The second call starts before the first knows that the Agent is online: both make a connection, and the
-- first is neither closed nor held.
overlapping_calls :
    (let p =
        (page_run parse_name
          (calls portal router none
            ∷ calls portal router none
            ∷ settles 0 (ok true)
            ∷ settles 1 (ok true)
            ∷ [])
          new_run).page in
      (p.made ≡ 2) × (is_closed 0 p ≡ false) × (p.direct ≡ some 1))
unfolding page_run page_step
overlapping_calls = (refl, refl, refl)

-- The first call fails after the second has made its connection, and closes it.
late_failure :
    (let p =
        (page_run parse_name
          (two_clicks ++ settles 0 (err (message "P2P connection is closed")) ∷ [])
          new_run).page in
      (p.direct ≡ some 1)
      × (is_closed 1 p ≡ true)
      × (p.status ≡ p2p_failed (message "P2P connection is closed")))
unfolding page_run page_step
late_failure = (refl, refl, refl)

-- A click on `disconnect` while the Agent is asked for does not stop the call.
disconnected_call :
    (page_run parse_name
      (calls portal router none ∷ disconnects ∷ settles 0 (ok true) ∷ [])
      new_run).page.direct
    ≡ some 0
unfolding page_run page_step
disconnected_call = refl

-- The request for the Agent's state fails after a click in the portal: the page goes on connecting.
unanswered_click :
    (page_run parse_name
      (calls portal router none ∷ settles 0 (err (message "TypeError")) ∷ [])
      new_run).page.status
    ≡ connecting (lit "Router")
unfolding page_run page_step
unanswered_click = refl

-- A temporary service whose connection fails: its button stays disabled.
no_second_try :
    (page_run parse_name
      (calls temporary_panel visit none ∷ settles 0 (ok false) ∷ [])
      new_run).page.temporary_connect_disabled
    ≡ true
unfolding page_run page_step
no_second_try = refl

named :
    (kind : ServiceKind) (host : Text)
    → parse_name (frame_scheme kind ++ lit "//" ++ (b's' ∷ host) ++ lit "/")
      ≡ some (page_at kind (b's' ∷ host))
named http_kind host = ap (λ t. some (page_at http_kind t)) (take_front (b's' ∷ host) (lit "/"))
named https_kind host = ap (λ t. some (page_at https_kind t)) (take_front (b's' ∷ host) (lit "/"))
named guacamole host = ap (λ t. some (page_at http_kind t)) (take_front (b's' ∷ host) (lit "/"))

parse_name-ParsesNames : ParsesNames parse_name
parse_name-ParsesNames = record { page = λ kind digits h. named kind _ }

abbrev shown : Url
shown = page_at https_kind service_host

router_url : virtual_url parse_name router none ≡ ok shown
unfolding virtual_url
router_url = rw agent_authority refl
