-- ===== src/Connection/Session/Settles.antt =====
-- The fuel of `connect` and `restart`.
use scweb_vpn.Common.{
  arith, ℕ, zero, suc, ◌+◌, ◌≤◌, ◌<◌, Bool, true, false, not, ◌&&◌, ◌||◌, Option, none, some, ltb,
  leb, Result, ok, err, Failure,
}
use scweb_vpn.Common.Texts.{Text}
use scweb_vpn.Connection.Guards.{reject_relay}
use scweb_vpn.Connection.Stats.{selected_pair}
use scweb_vpn.Connection.Session.{
  max_restarts, TemporaryTarget, Conn, Effect, direct_status, stats, sleep, Prog, first, again,
  post_connection, set_remote, open_channels, authenticate, configure_temporary, connected,
  get_stats, log, status, ◌>>=◌, catch, local_offer, wait_for_answer,
}
use scweb_vpn.Connection.Session.Direct.{
  report_pair, if_target, begin_connect, connect_peer, connect, restart_body, after_failure,
  begin_restart, restart_of, restart,
}
use scweb_vpn.Connection.Session.Ends.{
  Ends, Caught, Ends-map, Ends-catch, Ends-finally, await-Ends, if-Ends,
}
use scweb_vpn.Connection.Session.Answers.{
  Ending, step-Ends, seq-Ends, lift-Ends, wait_for_answer-Ends, local_offer-Ends,
}

-- Anything may run at an await.
abbrev pub Any : Conn → Conn → Type 0
Any s s' = Unit {0}

abbrev Always : Conn → Type 0
Always s = Unit {0}

always : (s s' : Conn) → Any s s' → Always s → Always s'
always s s' l h = tt

-- The restart count does not fall.
abbrev pub Fewer : Conn → Conn → Type 0
Fewer s s' = s.restart_count ≤ s'.restart_count

abbrev Counts : ℕ → Conn → Type 0
Counts n s = n ≤ s.restart_count

Counts-keep : (n : ℕ) (s s' : Conn) → Fewer s s' → Counts n s → Counts n s'
Counts-keep n s s' le h = omega arith

-- The promise of the method is fulfilled, not rejected.
abbrev pub Fulfilled : {A : Type 0} → Result A → Conn → Type 0
Fulfilled (ok a) s = Unit {0}
Fulfilled (err e) s = ⊥

module _ {F : Type 0} (is_finite : F → Bool) (round_ms : F → ℕ) where
  module _ (Later : Conn → Conn → Type 0) (I : Conn → Type 0)
      (keep : (s s' : Conn) → Later s s' → I s → I s')
      (logs : (e : Effect) (s : Conn) → I s → I (log e s)) where
    report_pair-Ends :
        (p t : ℕ) (s : Conn) → I s → Ending F Later I keep (report_pair is_finite round_ms p) t s
    unfolding report_pair ◌>>=◌
    report_pair-Ends p t s h = step-Ends F Later I keep (get_stats p) _ t s h λ report t₁ s₁ p₁ h₁.
        lift-Ends F Later I keep (selected_pair is_finite round_ms report s₁.candidate_types) _ t₁
          s₁ h₁ λ d. logs (direct_status d) _ (logs (stats (some d)) s₁ h₁)

    if_target-Ends :
        (target : Option TemporaryTarget) (p t : ℕ) (s : Conn)
        → I s
        → Ending F Later I keep
            (if_target is_finite round_ms target >>= λ a. report_pair is_finite round_ms p)
            t
            s
    unfolding ◌>>=◌ report_pair
    if_target-Ends none p t s h = report_pair-Ends p t s h
    if_target-Ends (some g) p t s h =
        step-Ends F Later I keep (configure_temporary g) _ t s h
          λ a t₁ s₁ p₁ h₁. report_pair-Ends p t₁ s₁ h₁

  connect_peer-Ends :
      (fuel : ℕ) (service_id : Text) (target : Option TemporaryTarget) (p t : ℕ) (s : Conn)
      → 91 ≤ fuel
      → Ends Any (connect_peer is_finite round_ms fuel service_id target p) t s (λ r s'. Unit {0})
  unfolding connect_peer ◌>>=◌
  connect_peer-Ends fuel service_id target p t s enough =
      seq-Ends F Any Always always (local_offer false) _ t s
        (local_offer-Ends F Any Always always false t s tt)
        λ offer t₁ s₁ h₁.
          step-Ends F Any Always always (post_connection (first service_id offer)) _ t₁ s₁ h₁
            λ created t₂ s₂ p₂ h₂.
              seq-Ends F Any Always always (wait_for_answer fuel created.id) _ t₂ _
                (wait_for_answer-Ends F Any Always always fuel created.id t₂ _ tt enough)
                λ answer t₃ s₃ h₃.
                  lift-Ends F Any Always always (reject_relay answer.sdp) _ t₃ s₃ h₃ λ a.
                    step-Ends F Any Always always (set_remote p answer) _ t₃ s₃ h₃ λ b t₄ s₄ p₄ h₄.
                      step-Ends F Any Always always (open_channels p) _ t₄
                        (log (status "正在建立 P2P") s₄) h₄
                        λ c t₅ s₅ p₅ h₅.
                          step-Ends F Any Always always (authenticate p s₅.capability) _ t₅ s₅ h₅
                            λ d t₆ s₆ p₆ h₆.
                              if_target-Ends Any Always always (λ e s' h. tt) target p t₆ s₆ h₆

  restart_body-Ends :
      (n fuel p t : ℕ) (s : Conn)
      → n ≤ s.restart_count
      → 91 ≤ fuel
      → Ends Fewer (restart_body is_finite round_ms fuel p) t s (λ r s'. Counts n s')
  unfolding restart_body ◌>>=◌
  restart_body-Ends n fuel p t s h enough =
      seq-Ends F Fewer (Counts n) (Counts-keep n) (local_offer true) _ t _
        (local_offer-Ends F Fewer (Counts n) (Counts-keep n) true t _ h)
        λ offer t₁ s₁ h₁.
          step-Ends F Fewer (Counts n) (Counts-keep n)
            (post_connection
              (again s₁.service_id s₁.browser_session_id s₁.capability offer s₁.signal_id))
            _ t₁ s₁ h₁
            λ created t₂ s₂ p₂ h₂.
              seq-Ends F Fewer (Counts n) (Counts-keep n) (wait_for_answer fuel created.id) _ t₂ s₂
                (wait_for_answer-Ends F Fewer (Counts n) (Counts-keep n) fuel created.id t₂ s₂ h₂
                  enough)
                λ answer t₃ s₃ h₃.
                  lift-Ends F Fewer (Counts n) (Counts-keep n) (reject_relay answer.sdp) _ t₃ s₃ h₃
                    λ a.
                      step-Ends F Fewer (Counts n) (Counts-keep n) (set_remote p answer) _ t₃ s₃ h₃
                        λ b t₄ s₄ p₄ h₄.
                          step-Ends F Fewer (Counts n) (Counts-keep n) (connected p) _ t₄ s₄ h₄
                            λ c t₅ s₅ p₅ h₅.
                              report_pair-Ends Fewer (Counts n) (Counts-keep n) (λ e s' h'. h') p t₅
                                _ h₅

  -- `retry` ends where the restart count has grown, if one more restart is allowed.
  after_failure-Ends :
      (retry : Prog F (Unit {0})) (error : Failure) (n t : ℕ) (s : Conn)
      → n ≤ s.restart_count
      → ((t' : ℕ) (s' : Conn)
          → n < max_restarts
          → n ≤ s'.restart_count
          → Ends Fewer retry t' s' Fulfilled)
      → Ends Fewer (after_failure is_finite round_ms retry error) t s Fulfilled
  unfolding after_failure ◌>>=◌
  after_failure-Ends retry error n t s h go =
      if-Ends Fewer (ltb s.restart_count max_restarts && not s.closed) _ _ t s Fulfilled
        (λ on.
          await-Ends Fewer (sleep 900) _ t s Fulfilled (λ e t' s' p. p.0)
            (λ a t' s' p. go t' _ (ground arith) (let q = p.1 in omega arith)))
        (λ off. tt)

  restart_of-Ends :
      (retry : Prog F (Unit {0})) (fuel : ℕ) (p : Option ℕ) (t : ℕ) (s : Conn)
      → 91 ≤ fuel
      → ((t' : ℕ) (s' : Conn)
          → suc s.restart_count < max_restarts
          → suc s.restart_count ≤ s'.restart_count
          → Ends Fewer retry t' s' Fulfilled)
      → Ends Fewer (restart_of is_finite round_ms retry fuel p s) t s Fulfilled
  restart_of-Ends retry fuel none t s enough go = tt
  restart_of-Ends retry fuel (some p) t s enough go =
      if-Ends Fewer (s.closed || s.restarting) _ _ t s Fulfilled (λ busy. tt)
        λ idle.
          if-Ends Fewer (leb max_restarts s.restart_count) _ _ t s Fulfilled (λ spent. tt)
            λ room. Ends-finally Fewer (catch body handler) _ t begun _ (
              Ends-map Fewer (catch body handler) t begun Fulfilled _ kept (
                Ends-catch Fewer body handler t begun Fulfilled (
                  Ends-map Fewer body t begun (λ r s'. Counts (suc s.restart_count) s') _ handled
                    (restart_body-Ends (suc s.restart_count) fuel p t begun (omega arith) enough))))
    where
      body : Prog F (Unit {0})
      body = restart_body is_finite round_ms fuel p

      handler : Failure → Prog F (Unit {0})
      handler = after_failure is_finite round_ms retry

      begun : Conn
      begun = begin_restart is_finite round_ms s

      kept :
          (r : Result (Unit {0})) (s' : Conn)
          → Fulfilled r s'
          → Fulfilled r (record s' { restarting = false })
      kept (ok a) s' h = h
      kept (err e) s' h = h

      handled :
          (r : Result (Unit {0})) (s' : Conn)
          → suc s.restart_count ≤ s'.restart_count
          → Caught Fewer handler Fulfilled r s'
      handled (ok a) s' h = tt
      handled (err e) s' h = λ t'. after_failure-Ends retry e (suc s.restart_count) t' s' h go

  restart-EndsFrom :
      (rounds fuel t : ℕ) (s : Conn)
      → 91 ≤ fuel
      → max_restarts ≤ rounds + s.restart_count
      → Ends Fewer (restart is_finite round_ms (suc rounds) fuel) t s Fulfilled
  unfolding restart
  restart-EndsFrom zero fuel t s enough left =
      restart_of-Ends _ fuel s.peer t s enough λ t' s' few more. absurd (omega arith)
  restart-EndsFrom (suc rounds) fuel t s enough left =
      restart_of-Ends (restart is_finite round_ms (suc rounds) fuel) fuel s.peer t s enough
        λ t' s' few more. restart-EndsFrom rounds fuel t' s' enough (omega arith)

  -- `restart` comes to its end from any state, at any time and however its awaits settle, and its
  -- promise is never rejected, if no `connect` or `close` lowers the restart count meanwhile: three
  -- calls and 91 rounds in each wait for an answer are enough.
  pub restart-Ends :
      (rounds fuel t : ℕ) (s : Conn)
      → 3 ≤ rounds
      → 91 ≤ fuel
      → Ends Fewer (restart is_finite round_ms rounds fuel) t s Fulfilled
  restart-Ends zero fuel t s three enough = absurd (omega arith)
  restart-Ends (suc rounds) fuel t s three enough =
      restart-EndsFrom rounds fuel t s enough (omega arith)

  -- `connect` comes to its end, a result or a failure, from any state, at any time, however its awaits
  -- settle and whatever runs meanwhile: 91 rounds in the wait for an answer are enough.
  pub connect-Ends :
      (fuel : ℕ) (service_id : Text) (target : Option TemporaryTarget) (t : ℕ) (s : Conn)
      → 91 ≤ fuel
      → Ends Any (connect is_finite round_ms fuel service_id target) t s (λ r s'. Unit {0})
  unfolding connect
  connect-Ends fuel service_id target t s enough =
      connect_peer-Ends fuel service_id target s.created t
        (begin_connect is_finite round_ms service_id s) enough
