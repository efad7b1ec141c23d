-- ===== src/App/Connects/Consistent.antt =====
-- What the elements of the page agree on, however the calls of `connect` and the clicks interleave.
use scweb_vpn.Common.{
  ℕ, zero, suc, ◌≡◌, refl, Bool, true, false, Option, none, some, List, [], ◌∷◌, Result, ok, err,
  Failure,
}
use scweb_vpn.Common.Texts.{Text}
use scweb_vpn.Platform.Url.{Url}
use scweb_vpn.App.{Page, render_stats, close_direct, fail, fail_p2p, disconnect, before_unload}
use scweb_vpn.App.Address.{Service, virtual_url}
use scweb_vpn.Connection.Stats.{DirectStats}
use scweb_vpn.App.Connects.{
  Caller, portal, initial, temporary_panel, Stage, asking_agent, negotiating, starting_client,
  loading, ended, Flight, Run, new_run, before_call, begin_connect, rejected_call, after_agent,
  after_session, go_load, after_load, after_client, resume_at, resume, PageEvent, calls, settles,
  says, measures, fails, disconnects, unloads, page_step, page_run,
}

abbrev pub is_none : Option ℕ → Bool
is_none none = true
is_none (some n) = false

-- The frame is hidden exactly if the button that restarts the connection is disabled, and the buttons of the
-- diagnostics are disabled exactly if the variable `control` holds no client.
pub record IsConsistent (p : Page) : Type 0 where
  pub frame_restart : p.frame_hidden ≡ p.restart_disabled
  pub dns_control : p.dns_disabled ≡ is_none p.control
  pub ping_control : p.ping_disabled ≡ is_none p.control

close_direct-IsConsistent :
    (o : Option ℕ) (p : Page) → IsConsistent p → IsConsistent (close_direct o p)
unfolding close_direct render_stats
close_direct-IsConsistent none p v = v
close_direct-IsConsistent (some n) p v = record {
  frame_restart = v.frame_restart;
  dns_control = v.dns_control;
  ping_control = v.ping_control;
}

fail_p2p-IsConsistent : (e : Failure) (p : Page) → IsConsistent (fail_p2p e p)
unfolding fail_p2p
fail_p2p-IsConsistent e p = record { frame_restart = refl; dns_control = refl; ping_control = refl }

rejected_call-IsConsistent :
    (c : Caller) (e : Failure) (p : Page) → IsConsistent p → IsConsistent (rejected_call c e p)
unfolding rejected_call fail
rejected_call-IsConsistent portal e p v = v
rejected_call-IsConsistent initial e p v = record {
  frame_restart = v.frame_restart;
  dns_control = v.dns_control;
  ping_control = v.ping_control;
}
rejected_call-IsConsistent temporary_panel e p v =
    let w = fail_p2p-IsConsistent e p in
    record {
      frame_restart = w.frame_restart;
      dns_control = w.dns_control;
      ping_control = w.ping_control;
    }

before_call-IsConsistent : (c : Caller) (p : Page) → IsConsistent p → IsConsistent (before_call c p)
before_call-IsConsistent portal p v = v
before_call-IsConsistent initial p v = v
before_call-IsConsistent temporary_panel p v = record {
  frame_restart = v.frame_restart;
  dns_control = v.dns_control;
  ping_control = v.ping_control;
}

begin_connect-IsConsistent :
    (s : Service) (p : Page) → IsConsistent p → IsConsistent (begin_connect s p)
unfolding begin_connect
begin_connect-IsConsistent s p v =
    let w = close_direct-IsConsistent p.direct p v in
    record { frame_restart = refl; dns_control = w.dns_control; ping_control = w.ping_control }

render_stats-IsConsistent :
    (o : Option DirectStats) (p : Page) → IsConsistent p → IsConsistent (render_stats o p)
unfolding render_stats
render_stats-IsConsistent none p v = record {
  frame_restart = v.frame_restart;
  dns_control = v.dns_control;
  ping_control = v.ping_control;
}
render_stats-IsConsistent (some d) p v = record {
  frame_restart = v.frame_restart;
  dns_control = v.dns_control;
  ping_control = v.ping_control;
}

module _ (parse : Text → Option Url) where
  go_load-IsConsistent :
      (n : ℕ) (u : Result Url) (p : Page) → IsConsistent p → IsConsistent (go_load n u p).1
  go_load-IsConsistent n (err e) p v = fail_p2p-IsConsistent e p
  go_load-IsConsistent n (ok u) p v = v

  resume_at-IsConsistent :
      (s : Stage) (f : Flight) (r : Result Bool) (p : Page)
      → IsConsistent p
      → IsConsistent (resume_at parse s f r p).1
  unfolding resume_at after_agent after_session after_client after_load
  resume_at-IsConsistent asking_agent f (err e) p v = rejected_call-IsConsistent f.caller e p v
  resume_at-IsConsistent asking_agent f (ok false) p v = fail_p2p-IsConsistent _ p
  resume_at-IsConsistent asking_agent f (ok true) p v = record {
    frame_restart = v.frame_restart;
    dns_control = v.dns_control;
    ping_control = v.ping_control;
  }
  resume_at-IsConsistent (negotiating n) f (err e) p v = fail_p2p-IsConsistent e p
  resume_at-IsConsistent (negotiating n) f (ok b) p v = record {
    frame_restart = v.frame_restart;
    dns_control = refl;
    ping_control = refl;
  }
  resume_at-IsConsistent (starting_client n) f (err e) p v = fail_p2p-IsConsistent e p
  resume_at-IsConsistent (starting_client n) f (ok b) p v =
      go_load-IsConsistent n (virtual_url parse f.service f.remote) p v
  resume_at-IsConsistent (loading n) f (err e) p v = fail_p2p-IsConsistent e p
  resume_at-IsConsistent (loading n) f (ok b) p v = record {
    frame_restart = refl;
    dns_control = v.dns_control;
    ping_control = v.ping_control;
  }
  resume_at-IsConsistent ended f r p v = v

  resume-IsConsistent :
      (k : ℕ) (r : Result Bool) (fs : List Flight) (p : Page)
      → IsConsistent p
      → IsConsistent (resume parse k r fs p).1
  unfolding resume
  resume-IsConsistent zero r [] p v = v
  resume-IsConsistent (suc k) r [] p v = v
  resume-IsConsistent zero r (f ∷ fs) p v = resume_at-IsConsistent f.stage f r p v
  resume-IsConsistent (suc k) r (f ∷ fs) p v = resume-IsConsistent k r fs p v

  page_step-IsConsistent :
      (e : PageEvent) (r : Run) → IsConsistent r.page → IsConsistent (page_step parse e r).page
  unfolding page_step disconnect before_unload
  page_step-IsConsistent (calls c s remote) r v =
      begin_connect-IsConsistent s _ (before_call-IsConsistent c r.page v)
  page_step-IsConsistent (settles k result) r v = resume-IsConsistent k result r.flights r.page v
  page_step-IsConsistent (says s) r v = record {
    frame_restart = v.frame_restart;
    dns_control = v.dns_control;
    ping_control = v.ping_control;
  }
  page_step-IsConsistent (measures stats) r v = render_stats-IsConsistent stats r.page v
  page_step-IsConsistent (fails e) r v = fail_p2p-IsConsistent e r.page
  page_step-IsConsistent disconnects r v = record {
    frame_restart = refl;
    dns_control = refl;
    ping_control = refl;
  }
  page_step-IsConsistent unloads r v = close_direct-IsConsistent r.page.direct r.page v

  run-IsConsistent :
      (es : List PageEvent) (r : Run)
      → IsConsistent r.page
      → IsConsistent (page_run parse es r).page
  unfolding page_run
  run-IsConsistent [] r v = v
  run-IsConsistent (e ∷ es) r v =
      run-IsConsistent es (page_step parse e r) (page_step-IsConsistent e r v)

  -- However calls of `connect`, their awaits, the connections' reports and the user's clicks interleave, the
  -- frame is seen exactly while the button that restarts the connection is enabled, and the
  -- buttons of both diagnostics are enabled exactly while the page's variable `control` holds a client,
  -- whose channel may have been closed.
  pub page_run-IsConsistent : (es : List PageEvent) → IsConsistent (page_run parse es new_run).page
  page_run-IsConsistent es =
      run-IsConsistent es new_run
        (record { frame_restart = refl; dns_control = refl; ping_control = refl })
