-- ===== src/Connection/Handshake/Waits.antt =====
-- What the promises made of one event settle with, and when their timers and listeners are there.
use scweb_vpn.Common.{◌≡◌, refl, Bool, true, false, List, [], ◌∷◌, Failure, message}
use scweb_vpn.Connection.Session.Direct.{
  PeerState, fresh, connecting, connected_state, disconnected, failed_state, closed_state,
}
use scweb_vpn.Connection.Handshake.{
  Deferred, waiting, resolved, rejected, settle, ChannelEvent, message_in, channel_opens,
  channel_closes, channel_fails, timer_fires, OpenWait, open_channel, on_open_event, PeerWait,
  PeerEvent, state_change, timeout, connected, on_peer_event,
}

-- The verdict of the first event that has one.
abbrev pub or_else : Deferred → Deferred → Deferred
or_else waiting later = later
or_else d later = d

module _ {E : Type 0} (verdict : E → Deferred) where
  abbrev pub first_verdict : List E → Deferred
  first_verdict [] = waiting
  first_verdict (e ∷ es) = or_else (verdict e) (first_verdict es)

-- The timer and the listener are there exactly while the promise waits.
abbrev pub IsTidy : Deferred → Bool → Bool → Type 0
IsTidy waiting timer listener = (timer ≡ true) × (listener ≡ true)
IsTidy d timer listener = (timer ≡ false) × (listener ≡ false)

abbrev pub state_verdict : PeerState → Deferred
state_verdict connected_state = resolved
state_verdict closed_state = rejected (message "P2P 连接失败")
state_verdict failed_state = rejected (message "P2P 连接失败")
state_verdict state = waiting

abbrev pub peer_verdict : PeerEvent → Deferred
peer_verdict (state_change state) = state_verdict state
peer_verdict timeout = rejected (message "P2P 连接超时")

-- `connected` looks at the state that the peer has for one thing only.
abbrev pub start_verdict : PeerState → Deferred
start_verdict connected_state = resolved
start_verdict state = waiting

abbrev pub peer_run : List PeerEvent → PeerWait → PeerWait
peer_run [] w = w
peer_run (e ∷ es) w = peer_run es (on_peer_event e w)

pub record Settles (w : PeerWait) (d : Deferred) : Type 0 where
  pub outcome : w.outcome ≡ d
  pub tidy : IsTidy d w.timer w.listener

abbrev ended : Deferred → PeerWait
ended d = record { timer = false; listener = false; outcome = d }

ended_run : (es : List PeerEvent) (d : Deferred) → peer_run es (ended d) ≡ ended d
unfolding on_peer_event
ended_run [] d = refl
ended_run (state_change state ∷ es) d = ended_run es d
ended_run (timeout ∷ es) d = ended_run es d

resolved_run : (es : List PeerEvent) → Settles (peer_run es (ended resolved)) resolved
resolved_run es = rw (ended_run es resolved) (record { outcome = refl; tidy = (refl, refl) })

rejected_run :
    (es : List PeerEvent) (e : Failure) → Settles (peer_run es (ended (rejected e))) (rejected e)
rejected_run es e = rw (ended_run es (rejected e)) (record { outcome = refl; tidy = (refl, refl) })

abbrev waits : PeerWait
waits = record { timer = true; listener = true; outcome = waiting }

waits_run : (es : List PeerEvent) → Settles (peer_run es waits) (first_verdict peer_verdict es)
unfolding on_peer_event
waits_run [] = record { outcome = refl; tidy = (refl, refl) }
waits_run (state_change fresh ∷ es) = waits_run es
waits_run (state_change connecting ∷ es) = waits_run es
waits_run (state_change connected_state ∷ es) = resolved_run es
waits_run (state_change disconnected ∷ es) = waits_run es
waits_run (state_change failed_state ∷ es) = rejected_run es _
waits_run (state_change closed_state ∷ es) = rejected_run es _
waits_run (timeout ∷ es) = rejected_run es _

-- After any events `connected` is settled as the first event that decides says (connected, failed or
-- closed, timed out), at once if the peer is connected already; its timer and its listener are there
-- exactly while it waits.
pub connected-Settles :
    (state : PeerState) (es : List PeerEvent)
    → Settles
        (peer_run es (connected state))
        (or_else (start_verdict state) (first_verdict peer_verdict es))
unfolding connected
connected-Settles fresh es = waits_run es
connected-Settles connecting es = waits_run es
connected-Settles connected_state es = resolved_run es
connected-Settles disconnected es = waits_run es
connected-Settles failed_state es = waits_run es
connected-Settles closed_state es = waits_run es

-- What decides `open` on a channel that is not open.
abbrev pub open_verdict : ChannelEvent → Deferred
open_verdict channel_opens = resolved
open_verdict channel_closes = rejected (message "DataChannel 未能建立")
open_verdict channel_fails = rejected (message "DataChannel 建立失败")
open_verdict e = waiting

abbrev pub open_run : List ChannelEvent → OpenWait → OpenWait
open_run [] w = w
open_run (e ∷ es) w = open_run es (on_open_event e w)

settle-kept : (d e : Deferred) → settle d e ≡ or_else d e
settle-kept waiting e = refl
settle-kept resolved e = refl
settle-kept (rejected f) e = refl

is_settled : Deferred → Bool
is_settled waiting = false
is_settled d = true

open_settled :
    (es : List ChannelEvent) (a b c : Bool) (d : Deferred)
    → is_settled d ≡ true
    → (open_run es
        (record { open_listener = a; close_listener = b; error_listener = c; outcome = d })).outcome
      ≡ d
unfolding on_open_event is_settled
open_settled es a b c waiting h = cc
open_settled [] a b c resolved h = refl
open_settled [] a b c (rejected f) h = refl
open_settled (channel_opens ∷ es) true b c resolved h = open_settled es false b c resolved h
open_settled (channel_opens ∷ es) false b c resolved h = open_settled es false b c resolved h
open_settled (channel_opens ∷ es) true b c (rejected f) h = open_settled es false b c (rejected f) h
open_settled (channel_opens ∷ es) false b c (rejected f) h =
    open_settled es false b c (rejected f) h
open_settled (channel_closes ∷ es) a true c resolved h = open_settled es a false c resolved h
open_settled (channel_closes ∷ es) a false c resolved h = open_settled es a false c resolved h
open_settled (channel_closes ∷ es) a true c (rejected f) h =
    open_settled es a false c (rejected f) h
open_settled (channel_closes ∷ es) a false c (rejected f) h =
    open_settled es a false c (rejected f) h
open_settled (channel_fails ∷ es) a b true resolved h = open_settled es a b false resolved h
open_settled (channel_fails ∷ es) a b false resolved h = open_settled es a b false resolved h
open_settled (channel_fails ∷ es) a b true (rejected f) h = open_settled es a b false (rejected f) h
open_settled (channel_fails ∷ es) a b false (rejected f) h =
    open_settled es a b false (rejected f) h
open_settled (message_in m ∷ es) a b c resolved h = open_settled es a b c resolved h
open_settled (message_in m ∷ es) a b c (rejected f) h = open_settled es a b c (rejected f) h
open_settled (timer_fires ∷ es) a b c resolved h = open_settled es a b c resolved h
open_settled (timer_fires ∷ es) a b c (rejected f) h = open_settled es a b c (rejected f) h

open_waits :
    (es : List ChannelEvent)
    → (open_run es (open_channel false)).outcome ≡ first_verdict open_verdict es
unfolding open_channel on_open_event
open_waits [] = refl
open_waits (channel_opens ∷ es) =
    open_settled es false true true resolved (unfold is_settled in refl)
open_waits (channel_closes ∷ es) =
    open_settled es true false true (rejected _) (unfold is_settled in refl)
open_waits (channel_fails ∷ es) =
    open_settled es true true false (rejected _) (unfold is_settled in refl)
open_waits (message_in m ∷ es) = open_waits es
open_waits (timer_fires ∷ es) = open_waits es

abbrev pub if_open : Bool → Deferred → Deferred
if_open true d = resolved
if_open false d = d

-- `open` is resolved at once on an open channel, and otherwise settles by the first of open, close and
-- error; the events after it change nothing.
pub open_channel_outcome :
    (is_open : Bool) (es : List ChannelEvent)
    → (open_run es (open_channel is_open)).outcome ≡ if_open is_open (first_verdict open_verdict es)
open_channel_outcome true es =
    unfold open_channel in open_settled es false false false resolved (unfold is_settled in refl)
open_channel_outcome false es = open_waits es
