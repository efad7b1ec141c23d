-- ===== src/Connection/Session.antt =====
-- web/src/connection.ts: `DirectConnection`. Its methods are programs that read and write the
-- object's fields and suspend at each `await` of the browser or the control plane, where other
-- methods and listeners may run. The floats of the statistics are parameters, as in Stats.
pub mod Rules
pub mod Direct
pub mod Safety
pub mod Waits
pub mod Methods
pub mod Runs
pub mod Constructed
pub mod Ends
pub mod Answers
pub mod Settles
use scweb_vpn.Common.{
  ℕ, zero, suc, ◌+◌, Bool, true, false, not, ◌&&◌, ◌||◌, Option, none, some, List, [], ◌∷◌, ◌++◌,
  ltb, leb, ◌==◌, if◌then◌else◌, Result, ok, err, Failure, message, template, given, String, str_eq,
}
use scweb_vpn.Common.Texts.{Text, lit}
use scweb_vpn.Connection.Guards.{reject_relay, failure_message}
use scweb_vpn.Connection.Stats.{Entry, DirectStats, has_name, selected_pair}

abbrev pub max_restarts : ℕ
max_restarts = 2

pub record Description : Type 0 where
  pub type : String
  pub sdp : Text

pub record TemporaryTarget : Type 0 where
  pub host : Text
  pub port : ℕ
  pub kind : String

-- `ConnectionStatus`.
pub data SignalState : Type 0 where
  pending answered failed_state : SignalState

pub record ConnectionStatus : Type 0 where
  pub state : SignalState
  pub answer : Option Description
  pub failure_code : Option String

-- `CreatedConnection`.
pub record CreatedConnection : Type 0 where
  pub id : Text
  pub browser_session_id : Text
  pub capability : Text

-- The calls of `hooks`, and of the peer, in their order.
pub data Effect : Type 0 where
  status : String → Effect
  restart_status : ℕ → Effect
  stats : Option DirectStats → Effect
  failed : Failure → Effect
  peer_created : ℕ → Effect
  peer_closed : ℕ → Effect
  ice_restarted : ℕ → Effect

-- The fields of the object; a peer is known by its number. `created` counts the peers.
pub record Conn : Type 0 where
  pub peer : Option ℕ
  pub signal_id : Text
  pub browser_session_id : Text
  pub capability : Text
  pub service_id : Text
  pub restart_count : ℕ
  pub restarting : Bool
  pub closed : Bool
  pub candidate_types : List String
  pub created : ℕ
  pub effects : List Effect

-- The body of a POST to `/api/v1/browser/connections`.
pub data Offer : Type 0 where
  first : Text → Description → Offer
  again :
      (service_id browser_session_id capability : Text) → Description → (restart_of : Text) → Offer

-- What the code awaits, or asks of the browser.
pub data Call : Type 0 where
  create_offer : ℕ → Bool → Call
  set_local : ℕ → Description → Call
  gather : ℕ → Call
  local_description : ℕ → Call
  post_connection : Offer → Call
  now : Call
  get_connection : Text → Call
  sleep : ℕ → Call
  set_remote : ℕ → Description → Call
  open_channels : ℕ → Call
  authenticate : ℕ → Text → Call
  configure_temporary : TemporaryTarget → Call
  connected : ℕ → Call
  get_stats : ℕ → Call

module _ (F : Type 0) where
  abbrev pub Value : Call → Type 0
  Value (create_offer p restart) = Description
  Value (local_description p) = Option Description
  Value (post_connection o) = CreatedConnection
  Value now = ℕ
  Value (get_connection id) = ConnectionStatus
  Value (get_stats p) = List (String × Entry F)
  Value _ = Unit {0}

  -- `exhausted` is the end of the fuel.
  pub data Prog (A : Type 0) : Type 0 where
    ret : A → Prog A
    raise : Failure → Prog A
    exhausted : Prog A
    act : (Conn → Conn) → Prog A → Prog A
    look : (Conn → Prog A) → Prog A
    wait : (c : Call) → (Result (Value c) → Prog A) → Prog A

module _ {F : Type 0} where
  infixl 5 ◌>>=◌ ◌>>◌
  unfoldable pub ◌>>=◌ : {A B : Type 0} → Prog F A → (A → Prog F B) → Prog F B
  ret a >>= f = f a
  raise e >>= f = raise e
  exhausted >>= f = exhausted
  act u m >>= f = act u (m >>= f)
  look g >>= f = look (λ s. g s >>= f)
  wait c k >>= f = wait c (λ r. k r >>= f)

  abbrev pub ◌>>◌ : {B : Type 0} → Prog F (Unit {0}) → Prog F B → Prog F B
  m >> n = m >>= λ _. n

  -- `try { m } catch (error) { h }`.
  unfoldable pub catch : {A : Type 0} → Prog F A → (Failure → Prog F A) → Prog F A
  catch (ret a) h = ret a
  catch (raise e) h = h e
  catch exhausted h = exhausted
  catch (act u m) h = act u (catch m h)
  catch (look g) h = look (λ s. catch (g s) h)
  catch (wait c k) h = wait c (λ r. catch (k r) h)

  -- `try { m } finally { u }`.
  unfoldable pub finally : {A : Type 0} → Prog F A → (Conn → Conn) → Prog F A
  finally (ret a) u = act u (ret a)
  finally (raise e) u = act u (raise e)
  finally exhausted u = exhausted
  finally (act v m) u = act v (finally m u)
  finally (look g) u = look (λ s. finally (g s) u)
  finally (wait c k) u = wait c (λ r. finally (k r) u)

  abbrev pub lift : {A : Type 0} → Result A → Prog F A
  lift (ok a) = ret a
  lift (err e) = raise e

  abbrev pub update : (Conn → Conn) → Prog F (Unit {0})
  update u = act u (ret tt)

  abbrev pub await : (c : Call) → Prog F (Value F c)
  await c = wait c lift

abbrev pub log : Effect → Conn → Conn
log e s = record s { effects = s.effects ++ e ∷ [] }

abbrev close_peer : Option ℕ → Conn → Conn
close_peer none s = s
close_peer (some p) s = log (peer_closed p) s

-- `close()`.
unfoldable pub close : Conn → Conn
close s = log (stats none) (record (close_peer s.peer (record s { closed = true })) {
  peer = none;
  signal_id = [];
  browser_session_id = [];
  capability = [];
  service_id = [];
  restart_count = 0;
})

-- `fail(error)`.
unfoldable pub fail : Failure → Conn → Conn
unfolding close
fail error s = log (failed error) (close s)

-- The `icecandidate` listener.
unfoldable pub on_candidate : Option String → Conn → Conn
unfolding fail
on_candidate none s = s
on_candidate (some t) s =
    let s' =
      if str_eq t "" then s else record s { candidate_types = s.candidate_types ++ t ∷ [] } in
    if str_eq t "relay" then fail (message "检测到被禁止的 relay candidate") s' else s'

-- `stats.localType === 'host' && stats.remoteType === 'host' ? … : …`.
abbrev pub direct_status : DirectStats → Effect
direct_status d =
    if str_eq d.local_type "host" && str_eq d.remote_type "host"
    then status "P2P UDP · 局域网直连"
    else status "P2P UDP · 公网映射直连"

module _ {F : Type 0} where
  -- `if (!local?.sdp) throw …`, then `rejectRelay`.
  abbrev pub checked_sdp : Text → Description → Prog F Description
  checked_sdp [] d = raise (message "浏览器未生成有效的连接描述")
  checked_sdp (c ∷ r) d = do lift (reject_relay d.sdp); ret d

  abbrev pub checked_local : Option Description → Prog F Description
  checked_local none = raise (message "浏览器未生成有效的连接描述")
  checked_local (some d) = checked_sdp d.sdp d

  unfoldable pub local_offer_of : Bool → Option ℕ → Prog F Description
  local_offer_of restart none = raise (message "P2P connection is closed")
  local_offer_of restart (some p) = do
    offer ← await (create_offer p restart)
    await (set_local p offer)
    await (gather p)
    local ← await (local_description p)
    checked_local local

  -- `localOffer(restart)`.
  unfoldable pub local_offer : Bool → Prog F Description
  unfolding local_offer_of
  local_offer restart = look (λ s. local_offer_of restart s.peer)

  -- What one round of `waitForAnswer` makes of the status: an answer, a failure, or another round.
  abbrev pub on_answer : Option Description → Prog F Description → Prog F Description
  on_answer none rest = rest
  on_answer (some d) rest = ret d

  abbrev pub on_state : SignalState → ConnectionStatus → Prog F Description → Prog F Description
  on_state pending st rest = rest
  on_state answered st rest = on_answer st.answer rest
  on_state failed_state st rest = raise (message (failure_message st.failure_code))

  unfoldable pub answer_loop : ℕ → Text → ℕ → Prog F Description
  answer_loop zero id deadline = exhausted
  answer_loop (suc fuel) id deadline = do
    time ← await now
    look λ s.
        let again = answer_loop fuel id deadline in
        if not s.closed && ltb time deadline
        then (do st ← await (get_connection id); on_state st.state st (do await (sleep 500); again))
        else raise (message "等待 OpenWrt Agent 应答超时")

  -- `waitForAnswer(id)`.
  unfoldable pub wait_for_answer : ℕ → Text → Prog F Description
  unfolding answer_loop
  wait_for_answer fuel id = do time ← await now; answer_loop fuel id (time + 45000)
