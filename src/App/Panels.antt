-- ===== src/App/Panels.antt =====
-- web/src/app.ts: the panels. They are the binding code, the diagnostics, the lists of services and of Agents,
-- the temporary services, and what `initialize` and the logout do.
pub mod Codes
pub mod Agents
use scweb_vpn.Common.{
  ℕ, zero, suc, ◌+◌, ◌-◌, Bool, true, false, not, ◌&&◌, ◌||◌, Option, none, some, List, [], ◌∷◌,
  ◌++◌, map, filter, any, find, ◌==◌, if◌then◌else◌, Result, ok, err, Failure, message, String,
}
use scweb_vpn.Common.Texts.{Text, lit, text_eq, has, trim}
use scweb_vpn.Platform.Url.{Url}
use scweb_vpn.Binding.{BindingCode}
use scweb_vpn.Connection.Control.{Code, ok_code, blocked, unavailable, busy, invalid_request}
use scweb_vpn.App.Address.{
  ServiceKind, http_kind, https_kind, guacamole, Service, requested_slug, is_temporary_slug,
  parse_temporary_url,
}

-- What stands beside the binding code.
pub data Expiry : Type 0 where
  nothing : Expiry
  until : ℕ → Expiry
  failed : Failure → Expiry

-- The panel of the binding code; `armed` lists the timers that run `clearBindingCode`, with the times at
-- which they are due.
pub record CodePanel : Type 0 where
  pub code : Text
  pub expiry : Expiry
  pub result_hidden : Bool
  pub create_disabled : Bool
  pub timer : Option ℕ
  pub armed : List (ℕ × ℕ)
  pub next : ℕ

abbrev pub new_code_panel : CodePanel
new_code_panel = record {
  code = [];
  expiry = nothing;
  result_hidden = true;
  create_disabled = false;
  timer = none;
  armed = [];
  next = 0;
}

abbrev clear_timeout : Option ℕ → List (ℕ × ℕ) → List (ℕ × ℕ)
clear_timeout none armed = armed
clear_timeout (some n) armed = filter (λ t. not (t.0 == n)) armed

-- `clearBindingCode()`.
unfoldable pub clear_binding_code : CodePanel → CodePanel
clear_binding_code p = record p {
  armed = clear_timeout p.timer p.armed;
  timer = none;
  code = [];
  expiry = nothing;
  result_hidden = true;
  create_disabled = false;
}

-- The listener of `binding-create` up to its await; a disabled button is not clicked.
unfoldable pub ask_binding_code : CodePanel → CodePanel
unfolding clear_binding_code
ask_binding_code p =
    if p.create_disabled then p else record (clear_binding_code p) { create_disabled = true }

-- `createBindingCode` has settled at the time `now`.
unfoldable pub show_binding_code : Result BindingCode → ℕ → CodePanel → CodePanel
show_binding_code (err e) now p = record p {
  expiry = failed e;
  result_hidden = false;
  create_disabled = false;
}
show_binding_code (ok issued) now p = record p {
  code = issued.code;
  expiry = until issued.expires_at;
  result_hidden = false;
  timer = some p.next;
  armed = (p.next, now + (issued.expires_at - now)) ∷ p.armed;
  next = suc p.next;
}

abbrev is_armed : ℕ → List (ℕ × ℕ) → Bool
is_armed n armed = any (λ t. t.0 == n) armed

-- The timer `n` fires, if it still runs.
unfoldable pub expire : ℕ → CodePanel → CodePanel
unfolding clear_binding_code
expire n p =
    if is_armed n p.armed
    then clear_binding_code (record p { armed = clear_timeout (some n) p.armed })
    else p

-- Clicks, answers, timers, and the end of the page or of the login.
pub data CodeEvent : Type 0 where
  asks : CodeEvent
  answers : Result BindingCode → ℕ → CodeEvent
  expires : ℕ → CodeEvent
  leaves : CodeEvent

unfoldable pub code_step : CodeEvent → CodePanel → CodePanel
unfolding ask_binding_code show_binding_code expire clear_binding_code
code_step asks p = ask_binding_code p
code_step (answers r now) p = show_binding_code r now p
code_step (expires n) p = expire n p
code_step leaves p = clear_binding_code p

unfoldable pub code_run : List CodeEvent → CodePanel → CodePanel
unfolding code_step
code_run [] p = p
code_run (e ∷ es) p = code_run es (code_step e p)

-- `[...new Set(list)]`.
pub distinct : List Text → List Text → List Text
distinct seen [] = seen
distinct seen (t ∷ ts) = if has seen t then distinct seen ts else distinct (seen ++ t ∷ []) ts

-- The name of an option, of the only Agent or of the one at a place.
pub data AgentName : Type 0 where
  the_agent : AgentName
  agent_number : ℕ → AgentName

pub numbered : ℕ → List Text → List (Text × AgentName)
numbered n [] = []
numbered n (t ∷ ts) = (t, agent_number (suc n)) ∷ numbered (suc n) ts

abbrev pub agent_options : List Text → List (Text × AgentName)
agent_options (t ∷ []) = (t, the_agent) ∷ []
agent_options ts = numbered 0 ts

abbrev agent_of : Service → Text
agent_of s = s.agent_id

abbrev no_agents : List Text → Bool
no_agents [] = true
no_agents (t ∷ ts) = false

-- `renderTemporaryAgents(catalog)`: the options, and whether the button is disabled.
unfoldable pub render_temporary_agents : List Service → List (Text × AgentName) × Bool
unfolding distinct numbered
render_temporary_agents catalog =
    let agents = distinct [] (map agent_of catalog) in (agent_options agents, no_agents agents)

abbrev kind_label : ServiceKind → String
kind_label guacamole = "远程桌面与 SSH"
kind_label http_kind = "HTTP"
kind_label https_kind = "HTTPS"

-- `renderServices(catalog)`: a button's name and kind for each service.
unfoldable pub render_services : List Service → List (Text × String)
render_services [] = []
render_services (s ∷ catalog) = (s.display_name, kind_label s.kind) ∷ render_services catalog

-- `diagnosticMessage(code)`.
unfoldable pub diagnostic_message : Code → String
diagnostic_message blocked = "目标不在当前服务的允许范围内"
diagnostic_message unavailable = "Agent 当前无法完成该诊断"
diagnostic_message busy = "诊断繁忙，请稍后重试"
diagnostic_message invalid_request = "请求格式无效"
diagnostic_message ok_code = "未知结果"
