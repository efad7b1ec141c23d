-- ===== src/App.antt =====
-- web/src/app.ts: the page of the portal. Here its state and what it shows; the children have its
-- addresses, the calls of `connect`, and its panels.
pub mod Address
pub mod Connects
pub mod Panels
pub mod Start
pub mod Diagnostics
pub mod Elements
pub mod Creates
mod Tests
use scweb_vpn.Common.{
  ℕ, zero, suc, ◌+◌, Bool, true, false, not, ◌&&◌, ◌||◌, Option, none, some, List, [], ◌∷◌, ◌++◌,
  if◌then◌else◌, Failure, message, String,
}
use scweb_vpn.Common.Texts.{Text, lit}
use scweb_vpn.Connection.Stats.{DirectStats}
use scweb_vpn.App.Address.{Service}

-- What the status line says.
pub data Shown : Type 0 where
  plain : String → Shown
  connecting : Text → Shown
  initialization_failed : Failure → Shown
  p2p_failed : Failure → Shown

-- The value of a detail of the connection.
pub data Detail : Type 0 where
  word : String → Detail
  text : Text → Detail
  milliseconds : ℕ → Detail

-- The variables of the module and the elements that the connection changes. Of the objects of class
-- `DirectConnection`, `made` counts those there are and `closed` lists the calls of `close`.
pub record Page : Type 0 where
  pub direct : Option ℕ
  pub active_service : Option Service
  pub control : Option ℕ
  pub made : ℕ
  pub closed : List ℕ
  pub status : Shown
  pub details : List (String × Detail)
  pub frame_hidden : Bool
  pub restart_disabled : Bool
  pub disconnect_disabled : Bool
  pub dns_disabled : Bool
  pub ping_disabled : Bool
  pub temporary_connect_disabled : Bool

-- The page as its HTML is.
abbrev pub new_page : Page
new_page = record {
  direct = none;
  active_service = none;
  control = none;
  made = 0;
  closed = [];
  status = plain "";
  details = [];
  frame_hidden = true;
  restart_disabled = true;
  disconnect_disabled = true;
  dns_disabled = true;
  ping_disabled = true;
  temporary_connect_disabled = false;
}

abbrev gathered : Bool → Detail
gathered true = word "已获得"
gathered false = word "未获得"

abbrev latency : Option ℕ → Detail
latency none = word "暂不可用"
latency (some n) = milliseconds n

-- `renderStats(stats)`.
unfoldable pub render_stats : Option DirectStats → Page → Page
render_stats none p = record p { details = [] }
render_stats (some s) p = record p {
  details =
      ("host candidate", gathered s.host_candidate)
      ∷ ("srflx candidate", gathered s.srflx_candidate)
      ∷ ("本地 candidate", word s.local_type)
      ∷ ("远端 candidate", word s.remote_type)
      ∷ ("传输", text s.protocol)
      ∷ ("往返延迟", latency s.rtt_ms)
      ∷ ("DataChannel", word "open")
      ∷ ("丢包", word "RTCDataChannel 无独立统计")
      ∷ [];
}

-- `direct?.close()`: the connection reports that it has no statistics.
unfoldable pub close_direct : Option ℕ → Page → Page
unfolding render_stats
close_direct none p = p
close_direct (some n) p = record (render_stats none p) { closed = n ∷ p.closed }

abbrev pub set_diagnostics_enabled : Bool → Page → Page
set_diagnostics_enabled enabled p = record p {
  dns_disabled = not enabled;
  ping_disabled = not enabled;
}

abbrev pub set_status : Shown → Page → Page
set_status s p = record p { status = s }

-- `fail(error)` and `failP2P(error)`.
unfoldable pub fail : Failure → Page → Page
fail e p = set_status (initialization_failed e) p

unfoldable pub fail_p2p : Failure → Page → Page
unfolding close_direct
fail_p2p e p =
    record (set_diagnostics_enabled false (record (close_direct p.direct p) { control = none })) {
      frame_hidden = true;
      restart_disabled = true;
      disconnect_disabled = true;
      status = p2p_failed e;
    }

-- The listener of the `disconnect` button, and that of `beforeunload`.
unfoldable pub disconnect : Page → Page
unfolding close_direct
disconnect p =
    record (set_diagnostics_enabled false
      (record (close_direct p.direct p) { direct = none; active_service = none; control = none })) {
        frame_hidden = true;
        restart_disabled = true;
        disconnect_disabled = true;
        status = plain "已断开。";
      }

unfoldable pub before_unload : Page → Page
unfolding close_direct
before_unload p = close_direct p.direct p
