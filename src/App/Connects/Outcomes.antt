-- ===== src/App/Connects/Outcomes.antt =====
-- A call of `connect` that nothing else interrupts, from the first await to the last.
use scweb_vpn.Common.{
  ℕ, suc, ◌≡◌, refl, ap, Bool, true, false, ◌&&◌, Option, some, List, [], ◌∷◌, Result, ok, err,
  Failure,
}
use scweb_vpn.Common.Texts.{Text}
use scweb_vpn.Platform.Url.{Url}
use scweb_vpn.App.{Page, set_diagnostics_enabled, close_direct, fail, fail_p2p}
use scweb_vpn.App.Address.{Service, virtual_url}
use scweb_vpn.App.Connects.{
  Caller, portal, initial, temporary_panel, ended, Flight, before_call, begin_connect,
  rejected_call, after_agent, after_session, go_load, after_load, after_client, resume_at, resume,
  PageEvent, calls, settles, page_step, page_run,
}
use scweb_vpn.App.Connects.Closed.{DirectClosed, close_direct-Keeps}
use scweb_vpn.App.Connects.Tracked.{
  begin_connect-DirectClosed, copied-DirectClosed, closed-DirectClosed,
}

abbrev is_true : Result Bool → Bool
is_true (ok b) = b
is_true (err e) = false

abbrev is_ok {ℓ} : {A : Type ℓ} → Result A → Bool
is_ok (ok a) = true
is_ok (err e) = false

-- The Agent is online, the connection is made, the client starts, the frame has an address, and it loads.
abbrev pub goes_well :
    (agent session client : Result Bool) → Result Url → (load : Result Bool) → Bool
goes_well a b c u l = is_true a && is_ok b && is_ok c && is_ok u && is_ok l

-- What a call leaves behind of the page `p`.
abbrev pub IsLeft : Bool → Page → Page → Type 0
IsLeft true p q =
    (q.frame_hidden ≡ false)
    × (q.restart_disabled ≡ false)
    × (q.dns_disabled ≡ false)
    × (q.direct ≡ some p.made)
    × (q.control ≡ some p.made)
IsLeft false p q = (q.frame_hidden ≡ true) × (q.restart_disabled ≡ true) × DirectClosed q.direct q

fail_p2p-DirectClosed : (e : Failure) (p : Page) → DirectClosed (fail_p2p e p).direct (fail_p2p e p)
unfolding fail_p2p
fail_p2p-DirectClosed e p =
    copied-DirectClosed (close_direct p.direct p) (fail_p2p e p) refl refl (closed-DirectClosed p)

fail_p2p-IsLeft : (e : Failure) (p q : Page) → IsLeft false p (fail_p2p e q)
unfolding fail_p2p
fail_p2p-IsLeft e p q = (refl, refl, fail_p2p-DirectClosed e q)

rejected-IsLeft :
    (c : Caller) (e : Failure) (s : Service) (p q : Page)
    → IsLeft false p (rejected_call c e (begin_connect s q))
unfolding rejected_call fail begin_connect
rejected-IsLeft portal e s p q = (refl, refl, begin_connect-DirectClosed s q)
rejected-IsLeft initial e s p q = (
  refl,
  refl,
  copied-DirectClosed (begin_connect s q) _ refl refl (begin_connect-DirectClosed s q),
)
rejected-IsLeft temporary_panel e s p q = (
  refl,
  refl,
  copied-DirectClosed (fail_p2p e (begin_connect s q)) _ refl refl (fail_p2p-DirectClosed e _),
)

begin_connect-made :
    (c : Caller) (s : Service) (p : Page) → (begin_connect s (before_call c p)).made ≡ p.made
unfolding begin_connect
begin_connect-made portal s p = (close_direct-Keeps p.direct p).made
begin_connect-made initial s p = (close_direct-Keeps p.direct p).made
begin_connect-made temporary_panel s p =
    (close_direct-Keeps p.direct (before_call temporary_panel p)).made

-- The page with the connection that the call has made, and with its control channel.
abbrev made_page : Caller → Service → Page → Page
made_page c s p =
    let q = begin_connect s (before_call c p) in
    record q { direct = some q.made; made = suc q.made }

abbrev joined_page : Caller → Service → Page → Page
joined_page c s p =
    set_diagnostics_enabled true
      (record (made_page c s p) { control = some (begin_connect s (before_call c p)).made })

module _ (parse : Text → Option Url) where
  abbrev pub call :
      Caller → Service → Option Url → (agent session client load : Result Bool) → List PageEvent
  call c s remote a b i l =
      calls c s remote ∷ settles 0 a ∷ settles 0 b ∷ settles 0 i ∷ settles 0 l ∷ []

  load-IsLeft :
      (f : Flight) (n : ℕ) (u : Result Url) (l : Result Bool) (p q : Page)
      → q.dns_disabled ≡ false
      → q.direct ≡ some p.made
      → q.control ≡ some p.made
      → IsLeft
          (is_ok u && is_ok l)
          p
          (resume_at parse
            (go_load n u q).0
            (record f { stage = (go_load n u q).0 })
            l
            (go_load n u q).1).1
  unfolding resume_at after_load
  load-IsLeft f n (err e) l p q d o c = fail_p2p-IsLeft e p q
  load-IsLeft f n (ok u) (err e) p q d o c = fail_p2p-IsLeft e p q
  load-IsLeft f n (ok u) (ok l) p q d o c = (refl, refl, d, o, c)

  -- A call of `connect` that nothing interrupts shows the frame, with the diagnostics and with the connection
  -- that it made, if the Agent is online and every step succeeds; if any step fails the frame is
  -- hidden, the connection cannot be restarted, and the connection that the page holds, if any,
  -- has been closed.
  pub connect_call-IsLeft :
      (c : Caller) (s : Service) (remote : Option Url) (a b i l : Result Bool) (p : Page)
      → IsLeft
          (goes_well a b i (virtual_url parse s remote) l)
          p
          (page_run parse (call c s remote a b i l) (record { page = p; flights = [] })).page
  unfolding page_run page_step resume resume_at after_agent after_session after_client after_load
  connect_call-IsLeft c s remote (err e) b i l p = rejected-IsLeft c e s p (before_call c p)
  connect_call-IsLeft c s remote (ok false) b i l p =
      fail_p2p-IsLeft _ p (begin_connect s (before_call c p))
  connect_call-IsLeft c s remote (ok true) (err e) i l p = fail_p2p-IsLeft e p (made_page c s p)
  connect_call-IsLeft c s remote (ok true) (ok b) (err e) l p =
      fail_p2p-IsLeft e p (joined_page c s p)
  connect_call-IsLeft c s remote (ok true) (ok b) (ok i) l p =
      load-IsLeft (record { caller = c; service = s; remote = remote; stage = ended })
        (begin_connect s (before_call c p)).made (virtual_url parse s remote) l p
        (joined_page c s p) refl (ap some (begin_connect-made c s p))
        (ap some (begin_connect-made c s p))
