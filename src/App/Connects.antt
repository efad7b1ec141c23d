-- ===== src/App/Connects.antt =====
-- web/src/app.ts: the calls of `connect`. Each suspends at four awaits, where listeners and other calls may
-- run; what an await settles with is an event.
pub mod Consistent
pub mod Closed
pub mod Tracked
pub mod Outcomes
use scweb_vpn.Common.{
  ℕ, zero, suc, ◌+◌, Bool, true, false, not, Option, none, some, List, [], ◌∷◌, ◌++◌, get_elem?,
  Result, ok, err, Failure, message,
}
use scweb_vpn.Common.Texts.{Text}
use scweb_vpn.Connection.Stats.{DirectStats}
use scweb_vpn.Platform.Url.{Url}
use scweb_vpn.App.{
  Page, new_page, Shown, plain, connecting, render_stats, close_direct, set_diagnostics_enabled,
  set_status, fail, fail_p2p, disconnect, before_unload,
}
use scweb_vpn.App.Address.{Service, virtual_url}

-- Who called: a service's button, `initialize`, or the button of the temporary panel.
pub data Caller : Type 0 where
  portal initial temporary_panel : Caller

-- The await at which a call is, with the number of its connection.
pub data Stage : Type 0 where
  asking_agent : Stage
  negotiating : ℕ → Stage
  starting_client : ℕ → Stage
  loading : ℕ → Stage
  ended : Stage

pub record Flight : Type 0 where
  pub caller : Caller
  pub service : Service
  pub remote : Option Url
  pub stage : Stage

pub record Run : Type 0 where
  pub page : Page
  pub flights : List Flight

abbrev pub new_run : Run
new_run = record { page = new_page; flights = [] }

-- The listener of the temporary panel disables its button before the call.
abbrev before_call : Caller → Page → Page
before_call temporary_panel p = record p { temporary_connect_disabled = true }
before_call other p = p

-- `connect` up to its first await.
unfoldable pub begin_connect : Service → Page → Page
unfolding close_direct
begin_connect s p = record (close_direct p.direct p) {
  active_service = some s;
  frame_hidden = true;
  restart_disabled = true;
  disconnect_disabled = false;
  status = connecting s.display_name;
}

-- What the callers make of a call that throws.
unfoldable pub rejected_call : Caller → Failure → Page → Page
unfolding fail fail_p2p
rejected_call portal e p = p
rejected_call initial e p = fail e p
rejected_call temporary_panel e p = record (fail_p2p e p) { temporary_connect_disabled = false }

-- `agentOnline` has settled.
unfoldable pub after_agent : Caller → Result Bool → Page → Stage × Page
unfolding rejected_call fail_p2p
after_agent caller (err e) p = (ended, rejected_call caller e p)
after_agent caller (ok false) p = (ended, fail_p2p (message "OpenWrt Agent 当前离线") p)
after_agent caller (ok true) p =
    (negotiating p.made, record p { direct = some p.made; made = suc p.made })

-- `direct.connect` has settled.
unfoldable pub after_session : ℕ → Result Bool → Page → Stage × Page
unfolding fail_p2p
after_session n (err e) p = (ended, fail_p2p e p)
after_session n (ok b) p =
    (starting_client n, set_diagnostics_enabled true (record p { control = some n }))

-- `loadRemote` is called if `virtualURL` has returned.
abbrev go_load : ℕ → Result Url → Page → Stage × Page
go_load n (err e) p = (ended, fail_p2p e p)
go_load n (ok u) p = (loading n, p)

-- `loadRemote` has settled.
unfoldable pub after_load : Result Bool → Page → Page
unfolding fail_p2p
after_load (err e) p = fail_p2p e p
after_load (ok b) p = record p { frame_hidden = false; restart_disabled = false }

module _ (parse : Text → Option Url) where
  -- `transport.init` has settled.
  unfoldable pub after_client : Flight → ℕ → Result Bool → Page → Stage × Page
  unfolding fail_p2p
  after_client f n (err e) p = (ended, fail_p2p e p)
  after_client f n (ok b) p = go_load n (virtual_url parse f.service f.remote) p

  pub resume_at : Stage → Flight → Result Bool → Page → Stage × Page
  unfolding after_agent after_session after_client after_load
  resume_at asking_agent f r p = after_agent f.caller r p
  resume_at (negotiating n) f r p = after_session n r p
  resume_at (starting_client n) f r p = after_client f n r p
  resume_at (loading n) f r p = (ended, after_load r p)
  resume_at ended f r p = (ended, p)

  -- The await of the call `k` settles.
  pub resume : ℕ → Result Bool → List Flight → Page → List Flight × Page
  unfolding resume_at
  resume k r [] p = ([], p)
  resume zero r (f ∷ fs) p =
      let (stage, p') = resume_at f.stage f r p in (record f { stage = stage } ∷ fs, p')
  resume (suc k) r (f ∷ fs) p = let (fs', p') = resume k r fs p in (f ∷ fs', p')

-- What happens to the page: a call of `connect`, an await of a call that settles, the hooks of a connection
-- (`status` and `stats`, and `failed`), and the user's clicks.
pub data PageEvent : Type 0 where
  calls : Caller → Service → Option Url → PageEvent
  settles : ℕ → Result Bool → PageEvent
  says : Shown → PageEvent
  measures : Option DirectStats → PageEvent
  fails : Failure → PageEvent
  disconnects unloads : PageEvent

module _ (parse : Text → Option Url) where
  unfoldable pub page_step : PageEvent → Run → Run
  unfolding begin_connect resume fail_p2p disconnect before_unload render_stats
  page_step (calls caller s remote) r = record {
    page = begin_connect s (before_call caller r.page);
    flights =
        r.flights
        ++ record { caller = caller; service = s; remote = remote; stage = asking_agent } ∷ [];
  }
  page_step (settles k result) r =
      let (fs, p) = resume parse k result r.flights r.page in record { page = p; flights = fs }
  page_step (says s) r = record r { page = set_status s r.page }
  page_step (measures stats) r = record r { page = render_stats stats r.page }
  page_step (fails e) r = record r { page = fail_p2p e r.page }
  page_step disconnects r = record r { page = disconnect r.page }
  page_step unloads r = record r { page = before_unload r.page }

  unfoldable pub page_run : List PageEvent → Run → Run
  unfolding page_step
  page_run [] r = r
  page_run (e ∷ es) r = page_run es (page_step e r)
