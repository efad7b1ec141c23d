-- ===== src/Connection/Session/Methods.antt =====
-- `connect` and `restart` and the invariant of `DirectConnection`.
use scweb_vpn.Common.{
  ℕ, zero, suc, ◌<◌, ◌≡◌, Bool, true, false, not, ◌&&◌, ◌||◌, Option, none, some, arith, ltb, leb,
  Bool-cases, inl, inr, Failure, str_eq,
}
use scweb_vpn.Common.Texts.{Text}
use scweb_vpn.Connection.Guards.{reject_relay}
use scweb_vpn.Connection.Stats.{DirectStats, selected_pair}
use scweb_vpn.Connection.Stats.Selected.{selected_pair-IsDirect}
use scweb_vpn.Connection.Session.{
  max_restarts, TemporaryTarget, restart_status, stats, Conn, first, again, post_connection,
  set_remote, open_channels, authenticate, configure_temporary, connected, get_stats, sleep, Prog,
  ◌>>=◌, catch, direct_status, local_offer, wait_for_answer,
}
use scweb_vpn.Connection.Session.Direct.{
  report_pair, if_target, begin_connect, connect_peer, connect, restart_body, after_failure,
  begin_restart, restart_of, restart,
}
use scweb_vpn.Connection.Session.Rules.{Holds-map, Holds-catch, Holds-finally}
use scweb_vpn.Connection.Session.Safety.{
  IsGoodEffect, IsSound, IsAllowed, log-IsSound, close-IsSound, fail-IsSound,
}
use scweb_vpn.Connection.Session.Waits.{
  Safe, SoundOffer, Sound, await-Safe, lift-Safe, local_offer-Safe, if-Safe, unless-Safe,
  wait_for_answer-Safe, then-Safe,
}

or_false : (a b : Bool) → (a || b) ≡ false → a ≡ false
or_false a b h = ground arith

direct_status-IsGood : (d : DirectStats) → IsGoodEffect (direct_status d)
direct_status-IsGood d =
    elim (Bool-cases (str_eq d.local_type "host" && str_eq d.remote_type "host")) [
      | inl lan ↦ rw lan tt
      | inr wan ↦ rw wan tt
    ]

module _ {F : Type 0} (is_finite : F → Bool) (round_ms : F → ℕ) where
  report_pair-Safe :
      (p : ℕ) (s : Conn) → IsSound s → Safe (report_pair is_finite round_ms p) s Sound
  unfolding report_pair ◌>>=◌
  report_pair-Safe p s v = await-Safe F (get_stats p) _ s Sound tt v λ report s₁ v₁.
      lift-Safe F (selected_pair is_finite round_ms report s₁.candidate_types) _ s₁ Sound v₁ λ d e.
        let direct = selected_pair-IsDirect is_finite round_ms report s₁.candidate_types d e in
        log-IsSound (direct_status d) _ (direct_status-IsGood d)
          (log-IsSound (stats (some d)) s₁ (direct.local_direct, direct.remote_direct) v₁)

  if_target-Safe :
      (target : Option TemporaryTarget) (p : ℕ) (s : Conn)
      → IsSound s
      → Safe (if_target is_finite round_ms target >>= λ a. report_pair is_finite round_ms p) s Sound
  unfolding ◌>>=◌ report_pair
  if_target-Safe none p s v = report_pair-Safe p s v
  if_target-Safe (some t) p s v =
      await-Safe F (configure_temporary t) _ s Sound tt v λ a s₁ v₁. report_pair-Safe p s₁ v₁

  connect_peer-Safe :
      (fuel : ℕ) (service_id : Text) (target : Option TemporaryTarget) (p : ℕ) (s : Conn)
      → IsSound s
      → Safe (connect_peer is_finite round_ms fuel service_id target p) s Sound
  unfolding connect_peer ◌>>=◌
  connect_peer-Safe fuel service_id target p s v =
      then-Safe F (local_offer false) _ s SoundOffer Sound (local_offer-Safe F false s v)
        λ offer s₁ o₁.
          await-Safe F (post_connection (first service_id offer)) _ s₁ Sound o₁.1 o₁.0
            λ created s₂ v₂.
              then-Safe F (wait_for_answer fuel created.id) _ _ Sound Sound
                (wait_for_answer-Safe F fuel created.id _
                  (record { bounded = v₂.bounded; shown = v₂.shown; shut = v₂.shut }))
                λ answer s₃ v₃. lift-Safe F (reject_relay answer.sdp) _ s₃ Sound v₃ λ a clean.
                  await-Safe F (set_remote p answer) _ s₃ Sound clean v₃ λ b s₄ v₄.
                    await-Safe F (open_channels p) _ _ Sound tt (log-IsSound _ s₄ tt v₄) λ c s₅ v₅.
                      await-Safe F (authenticate p s₅.capability) _ s₅ Sound tt v₅
                        λ d s₆ v₆. if_target-Safe target p s₆ v₆

  begin_connect-IsSound :
      (service_id : Text) (s : Conn)
      → IsSound s
      → IsSound (begin_connect is_finite round_ms service_id s)
  begin_connect-IsSound service_id s v =
      let c = close-IsSound s v in
      log-IsSound _ _ tt
        (log-IsSound _ _ tt (record { bounded = c.bounded; shown = c.shown; shut = tt }))

  -- `connect` posts, and sets as remote descriptions, only descriptions without relay candidates, and the
  -- connection is sound at each of its awaits and when it ends, whatever ran at those awaits.
  pub connect-Safe :
      (fuel : ℕ) (service_id : Text) (target : Option TemporaryTarget) (s : Conn)
      → IsSound s
      → Safe (connect is_finite round_ms fuel service_id target) s Sound
  unfolding connect
  connect-Safe fuel service_id target s v =
      connect_peer-Safe fuel service_id target s.created _ (begin_connect-IsSound service_id s v)

  restart_body-Safe :
      (fuel p : ℕ) (s : Conn) → IsSound s → Safe (restart_body is_finite round_ms fuel p) s Sound
  unfolding restart_body ◌>>=◌
  restart_body-Safe fuel p s v =
      then-Safe F (local_offer true) _ _ SoundOffer Sound
        (local_offer-Safe F true _
          (log-IsSound _ _ tt (record { bounded = v.bounded; shown = v.shown; shut = v.shut })))
        λ offer s₁ o₁.
          await-Safe F
            (post_connection
              (again s₁.service_id s₁.browser_session_id s₁.capability offer s₁.signal_id))
            _ s₁ Sound o₁.1 o₁.0
            λ created s₂ v₂.
              then-Safe F (wait_for_answer fuel created.id) _ s₂ Sound Sound
                (wait_for_answer-Safe F fuel created.id s₂ v₂)
                λ answer s₃ v₃. lift-Safe F (reject_relay answer.sdp) _ s₃ Sound v₃ λ a clean.
                  await-Safe F (set_remote p answer) _ s₃ Sound clean v₃ λ b s₄ v₄.
                    await-Safe F (connected p) _ s₄ Sound tt v₄ λ c s₅ v₅.
                      report_pair-Safe p _
                        (record { bounded = v₅.bounded; shown = v₅.shown; shut = v₅.shut })

  IsSound-idle : (s : Conn) → IsSound s → IsSound (record s { restarting = false })
  IsSound-idle s v = record { bounded = v.bounded; shown = v.shown; shut = v.shut }

  after_failure-Safe :
      (retry : Prog F (Unit {0})) (error : Failure) (s : Conn)
      → ((s' : Conn) → IsSound s' → Safe retry s' Sound)
      → IsSound s
      → Safe (after_failure is_finite round_ms retry error) s Sound
  unfolding after_failure ◌>>=◌
  after_failure-Safe retry error s h v =
      if-Safe F (ltb s.restart_count max_restarts && not s.closed) _ _ s Sound
        (await-Safe F (sleep 900) _ s Sound tt v λ a s₁ v₁. h _ (IsSound-idle s₁ v₁))
        (fail-IsSound error s v)

  begin_restart-IsSound :
      (s : Conn)
      → s.restart_count < max_restarts
      → s.closed ≡ false
      → IsSound s
      → IsSound (begin_restart is_finite round_ms s)
  begin_restart-IsSound s less still v =
      log-IsSound (restart_status (suc s.restart_count)) _ (omega arith)
        (record { bounded = omega arith; shown = v.shown; shut = rw still tt })

  restart_of-Safe :
      (retry : Prog F (Unit {0})) (fuel : ℕ) (p : Option ℕ) (s : Conn)
      → ((s' : Conn) → IsSound s' → Safe retry s' Sound)
      → IsSound s
      → Safe (restart_of is_finite round_ms retry fuel p s) s Sound
  restart_of-Safe retry fuel none s h v = v
  restart_of-Safe retry fuel (some p) s h v =
      unless-Safe F (s.closed || s.restarting) _ _ s Sound v λ idle.
        unless-Safe F (leb max_restarts s.restart_count) _ _ s Sound (fail-IsSound _ s v) λ less.
          Holds-finally IsSound IsAllowed
            (catch (restart_body is_finite round_ms fuel p)
              (after_failure is_finite round_ms retry))
            _ _ Sound IsSound-idle
            (Holds-map IsSound IsAllowed
              (catch (restart_body is_finite round_ms fuel p)
                (after_failure is_finite round_ms retry))
              (begin_restart is_finite round_ms s) Sound _ (λ a s' q. IsSound-idle s' q)
              (Holds-catch IsSound IsAllowed (restart_body is_finite round_ms fuel p)
                (after_failure is_finite round_ms retry) _ Sound
                (λ error s' q. after_failure-Safe retry error s' h q)
                (restart_body-Safe fuel p _ (
                  begin_restart-IsSound s (ground arith) (or_false s.closed s.restarting idle) v))))

  -- The same of `restart`; each restart that it announces is within the limit of two.
  pub restart-Safe :
      (rounds fuel : ℕ) (s : Conn)
      → IsSound s
      → Safe (restart is_finite round_ms rounds fuel) s Sound
  unfolding restart
  restart-Safe zero fuel s v = v
  restart-Safe (suc rounds) fuel s v =
      restart_of-Safe (restart is_finite round_ms rounds fuel) fuel s.peer s
        (restart-Safe rounds fuel) v
