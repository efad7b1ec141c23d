-- ===== src/Connection/HandshakeTests.antt =====
-- The promises and the log-in of Handshake at concrete events.
use scweb_vpn.Common.{◌≡◌, refl, true, some, List, [], ◌∷◌}
use scweb_vpn.Common.Texts.{lit}
use scweb_vpn.Connection.Session.Direct.{fresh, connecting, connected_state}
use scweb_vpn.Connection.Handshake.{
  resolved, auth_ok, ChannelEvent, message_in, channel_closes, PeerEvent, state_change, timeout,
  connected, on_peer_event, control, done, sends, makes_client, login, on_login_event, login_run,
}
use scweb_vpn.Connection.Handshake.Waits.{peer_run}
use scweb_vpn.Connection.Handshake.Replies.{ping, pong, progress, login_run-progress_of}

abbrev slow_start : List PeerEvent
slow_start = state_change connecting ∷ state_change connected_state ∷ timeout ∷ []

connected_in_time : (peer_run slow_start (connected fresh)).outcome ≡ resolved
unfolding connected on_peer_event
connected_in_time = refl

abbrev ok_then_pong : List ChannelEvent
ok_then_pong = message_in (some auth_ok) ∷ message_in (some pong) ∷ channel_closes ∷ []

control_done :
    progress (login_run control ok_then_pong (login true (lit "cap")))
    ≡ (done, sends (lit "webvpn-auth-v1:cap") ∷ sends ping ∷ makes_client ∷ [])
unfolding login_run on_login_event login
control_done = refl

login_run-progress_of_example :
    progress (login_run control ok_then_pong (login true (lit "cap")))
    ≡ (done, sends (lit "webvpn-auth-v1:cap") ∷ sends ping ∷ makes_client ∷ [])
login_run-progress_of_example = login_run-progress_of control (lit "cap") ok_then_pong
