-- ===== src/Connection/Handshake.antt =====
-- web/src/connection.ts: the promises made of one browser event each (`textMessage`, `open`, `gathered`,
-- `connected`) and the log-in on a new channel (`authenticateWisp`, `authenticateControl`). The code
-- after an await runs before the next event.
pub mod Waits
pub mod Replies
use scweb_vpn.Common.{
  Bool, true, false, not, ◌&&◌, ◌||◌, Option, none, some, List, [], ◌∷◌, ◌++◌, if◌then◌else◌,
  Failure, message, String,
}
use scweb_vpn.Common.Texts.{Text, lit, text_eq}
use scweb_vpn.Connection.Session.Direct.{
  PeerState, fresh, connecting, connected_state, disconnected, failed_state, closed_state,
}

-- A promise with no value; it is settled once.
pub data Deferred : Type 0 where
  waiting resolved : Deferred
  rejected : Failure → Deferred

abbrev pub settle : Deferred → Deferred → Deferred
settle waiting outcome = outcome
settle d outcome = d

abbrev pub auth_ok : Text
auth_ok = lit "webvpn-auth-ok-v1"

abbrev pub auth_ready : Text
auth_ready = lit "webvpn-auth-ready-v1"

-- What comes from a channel or a timer; `message` has none where `event.data` is no string.
pub data ChannelEvent : Type 0 where
  message_in : Option Text → ChannelEvent
  channel_opens channel_closes channel_fails timer_fires : ChannelEvent

-- `textMessage`: the timer and the listeners that are there, and the promise.
pub record TextWait : Type 0 where
  pub expected : Text
  pub timer : Bool
  pub message_listener : Bool
  pub close_listener : Bool
  pub outcome : Deferred

abbrev pub text_message : Text → TextWait
text_message expected = record {
  expected = expected;
  timer = true;
  message_listener = true;
  close_listener = true;
  outcome = waiting;
}

abbrev pub finish : Deferred → TextWait → TextWait
finish d w = record w {
  timer = false;
  message_listener = false;
  close_listener = false;
  outcome = settle w.outcome d;
}

abbrev pub is_text : Option Text → Text → Bool
is_text none expected = false
is_text (some t) expected = text_eq t expected

abbrev pub message_verdict : Bool → Deferred
message_verdict true = resolved
message_verdict false = rejected (message "DataChannel 返回了无效鉴权消息")

unfoldable pub on_text_event : ChannelEvent → TextWait → TextWait
on_text_event (message_in m) w =
    if w.message_listener then finish (message_verdict (is_text m w.expected)) w else w
on_text_event channel_closes w =
    if w.close_listener then finish (rejected (message "DataChannel 在鉴权期间关闭")) w else w
on_text_event timer_fires w =
    if w.timer then finish (rejected (message "DataChannel 鉴权超时")) w else w
on_text_event channel_opens w = w
on_text_event channel_fails w = w

-- `open(channel)`: its three listeners each go after one event of their own.
pub record OpenWait : Type 0 where
  pub open_listener : Bool
  pub close_listener : Bool
  pub error_listener : Bool
  pub outcome : Deferred

unfoldable pub open_channel : (is_open : Bool) → OpenWait
open_channel true = record {
  open_listener = false;
  close_listener = false;
  error_listener = false;
  outcome = resolved;
}
open_channel false = record {
  open_listener = true;
  close_listener = true;
  error_listener = true;
  outcome = waiting;
}

unfoldable pub on_open_event : ChannelEvent → OpenWait → OpenWait
on_open_event channel_opens w =
    if w.open_listener
    then record w { open_listener = false; outcome = settle w.outcome resolved }
    else w
on_open_event channel_closes w =
    if w.close_listener
    then record w {
      close_listener = false;
      outcome = settle w.outcome (rejected (message "DataChannel 未能建立"));
    }
    else w
on_open_event channel_fails w =
    if w.error_listener
    then record w {
      error_listener = false;
      outcome = settle w.outcome (rejected (message "DataChannel 建立失败"));
    }
    else w
on_open_event (message_in m) w = w
on_open_event timer_fires w = w

-- `gathered` and `connected`: the timer (none of `gathered`'s) and the listener on the peer.
pub record PeerWait : Type 0 where
  pub timer : Bool
  pub listener : Bool
  pub outcome : Deferred

abbrev end_wait : Deferred → PeerWait → PeerWait
end_wait d w = record w { timer = false; listener = false; outcome = settle w.outcome d }

unfoldable pub gathered : (complete : Bool) → PeerWait
gathered true = record { timer = false; listener = false; outcome = resolved }
gathered false = record { timer = false; listener = true; outcome = waiting }

-- `icegatheringstatechange`, with the state that the peer then has.
unfoldable pub on_gathering : (complete : Bool) → PeerWait → PeerWait
on_gathering complete w = if w.listener && complete then end_wait resolved w else w

pub data PeerEvent : Type 0 where
  state_change : PeerState → PeerEvent
  timeout : PeerEvent

unfoldable pub connected : PeerState → PeerWait
connected connected_state = record { timer = false; listener = false; outcome = resolved }
connected state = record { timer = true; listener = true; outcome = waiting }

abbrev changed : PeerState → PeerWait → PeerWait
changed connected_state w = end_wait resolved w
changed closed_state w = end_wait (rejected (message "P2P 连接失败")) w
changed failed_state w = end_wait (rejected (message "P2P 连接失败")) w
changed state w = w

unfoldable pub on_peer_event : PeerEvent → PeerWait → PeerWait
on_peer_event (state_change state) w = if w.listener then changed state w else w
on_peer_event timeout w = if w.timer then end_wait (rejected (message "P2P 连接超时")) w else w

-- `authenticateWisp` and `authenticateControl`.
pub data LoginKind : Type 0 where
  wisp control : LoginKind

pub data Phase : Type 0 where
  first_reply second_reply done : Phase
  gave_up : Failure → Phase

-- What the log-in does: it sends a text, or makes the object that takes the channel over.
pub data LoginAct : Type 0 where
  sends : Text → LoginAct
  makes_transport makes_client : LoginAct

pub record Login : Type 0 where
  pub is_open : Bool
  pub wait : TextWait
  pub phase : Phase
  pub acts : List LoginAct

-- `channel.send(text)`, which throws on a channel that is not open, and the phase after it.
abbrev send : Text → Phase → Login → Login
send t next l =
    if l.is_open
    then record l { phase = next; acts = l.acts ++ sends t ∷ [] }
    else record l { phase = gave_up (message "InvalidStateError") }

abbrev pub auth_message : Text → Text
auth_message capability = lit "webvpn-auth-v1:" ++ capability

unfoldable pub login : (is_open : Bool) → (capability : Text) → Login
login is_open capability =
    send (auth_message capability) first_reply
      (record { is_open = is_open; wait = text_message auth_ok; phase = first_reply; acts = [] })

-- The code after an await that is resolved.
pub go_on : LoginKind → Phase → Login → Login
go_on wisp first_reply l = send auth_ready done (record l { acts = l.acts ++ makes_transport ∷ [] })
go_on control first_reply l =
    send (lit "{\"type\":\"ping\"}") second_reply
      (record l { wait = text_message (lit "{\"type\":\"pong\"}") })
go_on control second_reply l = record l { phase = done; acts = l.acts ++ makes_client ∷ [] }
go_on kind phase l = l

pub after_wait : LoginKind → Deferred → Login → Login
unfolding go_on
after_wait kind waiting l = l
after_wait kind resolved l = go_on kind l.phase l
after_wait kind (rejected e) l = record l { phase = gave_up e }

-- Only a log-in that awaits goes on.
pub awaits : Phase → Bool
awaits first_reply = true
awaits second_reply = true
awaits phase = false

pub still_open : ChannelEvent → Bool → Bool
still_open channel_closes b = false
still_open e b = b

unfoldable pub on_login_event : LoginKind → ChannelEvent → Login → Login
unfolding after_wait awaits on_text_event still_open
on_login_event kind e l =
    let w = on_text_event e l.wait in
    let l' = record l { wait = w; is_open = still_open e l.is_open } in
    if awaits l.phase then after_wait kind w.outcome l' else l'

unfoldable pub login_run : LoginKind → List ChannelEvent → Login → Login
unfolding on_login_event
login_run kind [] l = l
login_run kind (e ∷ es) l = login_run kind es (on_login_event kind e l)
