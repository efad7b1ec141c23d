-- ===== src/Connection/Session/Direct.antt =====
-- web/src/connection.ts: `connect`, `restart` and the `connectionstatechange` listener.
use scweb_vpn.Common.{
  ℕ, zero, suc, Bool, true, false, not, ◌&&◌, ◌||◌, Option, none, some, [], ltb, leb, ◌==◌,
  if◌then◌else◌, Failure, message,
}
use scweb_vpn.Common.Texts.{Text}
use scweb_vpn.Connection.Guards.{reject_relay}
use scweb_vpn.Connection.Stats.{selected_pair}
use scweb_vpn.Connection.Session.{
  max_restarts, TemporaryTarget, status, restart_status, stats, peer_created, ice_restarted, Conn,
  first, again, post_connection, set_remote, open_channels, authenticate, configure_temporary,
  connected, get_stats, sleep, Prog, ret, exhausted, act, look, ◌>>=◌, ◌>>◌, catch, finally, lift,
  update, await, log, close, fail, direct_status, local_offer, wait_for_answer,
}

module _ {F : Type 0} (is_finite : F → Bool) (round_ms : F → ℕ) where
  -- `selectedPair(peer, this.candidateTypes)` and the two hooks that report it.
  unfoldable pub report_pair : ℕ → Prog F (Unit {0})
  report_pair p = do
    report ← await (get_stats p)
    look λ s. do
      d ← lift (selected_pair is_finite round_ms report s.candidate_types)
      update (log (stats (some d)))
      update (log (direct_status d))

  abbrev pub if_target : Option TemporaryTarget → Prog F (Unit {0})
  if_target none = ret tt
  if_target (some target) = await (configure_temporary target)

  -- The fields as `connect` leaves them before its first `await`.
  abbrev pub begin_connect : Text → Conn → Conn
  begin_connect service_id s =
      let s' = close s in
      log (peer_created s'.created) (
        log (status "正在收集候选") (record s' {
          closed = false;
          service_id = service_id;
          candidate_types = [];
          peer = some s'.created;
          created = suc s'.created;
        }))

  -- The part of `connect` after the peer `p` is made.
  unfoldable pub connect_peer : ℕ → Text → Option TemporaryTarget → ℕ → Prog F (Unit {0})
  connect_peer fuel service_id target p = do
    offer ← local_offer false
    created ← await (post_connection (first service_id offer))
    update (λ s. record s {
      signal_id = created.id;
      browser_session_id = created.browser_session_id;
      capability = created.capability;
    })
    answer ← wait_for_answer fuel created.id
    lift (reject_relay answer.sdp)
    await (set_remote p answer)
    update (log (status "正在建立 P2P"))
    await (open_channels p)
    look λ s. do await (authenticate p s.capability); if_target target; report_pair p

  -- `connect(serviceID, temporaryTarget)`; the returned session is the peer's channels.
  unfoldable pub connect : ℕ → Text → Option TemporaryTarget → Prog F (Unit {0})
  unfolding connect_peer report_pair
  connect fuel service_id target =
      look λ s. act (begin_connect service_id) (connect_peer fuel service_id target s.created)

  -- The `try` block of `restart`.
  unfoldable pub restart_body : ℕ → ℕ → Prog F (Unit {0})
  restart_body fuel p = do
    update (λ s. log (ice_restarted p) (record s { candidate_types = [] }))
    offer ← local_offer true
    look λ s. do
      created ←
          await (
            post_connection
              (again s.service_id s.browser_session_id s.capability offer s.signal_id))
      answer ← wait_for_answer fuel created.id
      lift (reject_relay answer.sdp)
      await (set_remote p answer)
      await (connected p)
      update (λ s'. record s' { signal_id = created.id })
      report_pair p

  -- The `catch` block; `retry` is the inner call of `restart`.
  unfoldable pub after_failure : Prog F (Unit {0}) → Failure → Prog F (Unit {0})
  after_failure retry error = look λ s.
      if ltb s.restart_count max_restarts && not s.closed
      then (do await (sleep 900); update (λ s'. record s' { restarting = false }); retry)
      else update (fail error)

  abbrev pub begin_restart : Conn → Conn
  begin_restart s =
      log (restart_status (suc s.restart_count))
        (record s { restarting = true; restart_count = suc s.restart_count })

  -- `restart()` on the peer, `retry` being its inner call.
  abbrev pub restart_of : Prog F (Unit {0}) → ℕ → Option ℕ → Conn → Prog F (Unit {0})
  restart_of retry fuel none s = ret tt
  restart_of retry fuel (some p) s =
      if s.closed || s.restarting
      then ret tt
      else if leb max_restarts s.restart_count
      then update (fail (message "ICE 重启次数已耗尽"))
      else act begin_restart (
          finally (catch (restart_body fuel p) (after_failure retry))
            (λ s'. record s' { restarting = false }))

  -- `restart()`. The inner calls number at most `rounds`; each wait for an answer has its fuel.
  unfoldable pub restart : ℕ → ℕ → Prog F (Unit {0})
  unfolding after_failure restart_body report_pair
  restart zero fuel = exhausted
  restart (suc rounds) fuel =
      let retry = restart rounds fuel in look λ s. restart_of retry fuel s.peer s

-- `connectionState` of a peer.
pub data PeerState : Type 0 where
  fresh connecting connected_state disconnected failed_state closed_state : PeerState

abbrev is_lost : PeerState → Bool
is_lost disconnected = true
is_lost failed_state = true
is_lost _ = false

abbrev is_connected : PeerState → Bool
is_connected connected_state = true
is_connected _ = false

abbrev is_peer : Option ℕ → ℕ → Bool
is_peer none p = false
is_peer (some q) p = q == p

-- Does the `connectionstatechange` listener of peer `p` arm its timer?
unfoldable pub arms_recheck : ℕ → PeerState → Conn → Bool
arms_recheck p state s = not s.closed && is_peer s.peer p && is_lost state

-- The timer's callback: is `restart` called?
unfoldable pub recheck : ℕ → PeerState → Conn → Bool
recheck p state s = is_peer s.peer p && not (is_connected state)
