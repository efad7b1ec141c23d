-- ===== src/Connection/Handshake/Replies.antt =====
-- Which replies the log-in on a channel takes, and what it does then.
use scweb_vpn.Common.{◌≡◌, refl, ◌∙◌, Bool, true, false, List, [], ◌∷◌, message}
use scweb_vpn.Common.Texts.{Text, lit}
use scweb_vpn.Connection.Handshake.{
  auth_ok, auth_ready, ChannelEvent, message_in, channel_opens, channel_closes, channel_fails,
  timer_fires, text_message, is_text, finish, message_verdict, LoginKind, wisp, control, Phase,
  first_reply, second_reply, done, gave_up, LoginAct, sends, makes_transport, makes_client, Login,
  auth_message, login, after_wait, awaits, on_login_event, login_run,
}

-- A phase with all that was done up to it.
abbrev pub Progress : Type 0
Progress = Phase × List LoginAct

abbrev if_expected : Bool → List LoginAct → Progress → Progress
if_expected true acts next = next
if_expected false acts next = (gave_up (message "DataChannel 返回了无效鉴权消息"), acts)

-- How events answer a wait for `expected`: by the first message, close or time-out. `next` reads the
-- events that follow the expected message.
abbrev pub answered :
    Text → Phase → List LoginAct → (List ChannelEvent → Progress) → List ChannelEvent → Progress
answered expected waits acts next [] = (waits, acts)
answered expected waits acts next (message_in m ∷ es) =
    if_expected (is_text m expected) acts (next es)
answered expected waits acts next (channel_closes ∷ es) =
    (gave_up (message "DataChannel 在鉴权期间关闭"), acts)
answered expected waits acts next (timer_fires ∷ es) = (gave_up (message "DataChannel 鉴权超时"), acts)
answered expected waits acts next (channel_opens ∷ es) = answered expected waits acts next es
answered expected waits acts next (channel_fails ∷ es) = answered expected waits acts next es

abbrev pub ping : Text
ping = lit "{\"type\":\"ping\"}"

abbrev pub pong : Text
pong = lit "{\"type\":\"pong\"}"

-- A Wisp channel wants one reply, and then has a transport before the far side is told; the control
-- channel wants two.
abbrev pub progress_of : LoginKind → (capability : Text) → List ChannelEvent → Progress
progress_of wisp capability =
    answered auth_ok first_reply (sends (auth_message capability) ∷ [])
      (λ es. (done, sends (auth_message capability) ∷ makes_transport ∷ sends auth_ready ∷ []))
progress_of control capability =
    answered auth_ok first_reply (sends (auth_message capability) ∷ []) (
      answered pong second_reply (sends (auth_message capability) ∷ sends ping ∷ [])
        (λ es. (done, sends (auth_message capability) ∷ sends ping ∷ makes_client ∷ [])))

abbrev pub progress : Login → Progress
progress l = (l.phase, l.acts)

-- A log-in that does not await stays as it is.
at_rest :
    (kind : LoginKind) (es : List ChannelEvent) (l : Login)
    → awaits l.phase ≡ false
    → progress (login_run kind es l) ≡ progress l
unfolding login_run
at_rest kind [] l h = refl
at_rest kind (e ∷ es) l h = at_rest kind es (on_login_event kind e l) (kept h) ∙ same h
  where
    kept : awaits l.phase ≡ false → awaits (on_login_event kind e l).phase ≡ false
    kept h = unfold on_login_event in rw h h

    same : awaits l.phase ≡ false → progress (on_login_event kind e l) ≡ progress l
    same h = unfold on_login_event in rw h refl

abbrev waiting_login : Text → Phase → List LoginAct → Login
waiting_login expected phase acts = record {
  is_open = true;
  wait = text_message expected;
  phase = phase;
  acts = acts;
}

-- The login that has heard a message, the right one or another.
abbrev heard : Bool → Text → Phase → List LoginAct → Login
heard b expected phase acts = record (waiting_login expected phase acts) {
  wait = finish (message_verdict b) (text_message expected);
}

wisp_run :
    (capability : Text) (es : List ChannelEvent)
    → progress (
        login_run wisp es
          (waiting_login auth_ok first_reply (sends (auth_message capability) ∷ [])))
      ≡ progress_of wisp capability es
unfolding login_run on_login_event
wisp_run capability [] = refl
wisp_run capability (message_in m ∷ es) = by_message (is_text m auth_ok)
  where
    by_message :
        (b : Bool)
        → progress (
            login_run wisp es (
              after_wait wisp
                (message_verdict b)
                (heard b auth_ok first_reply (sends (auth_message capability) ∷ []))))
          ≡ if_expected b
              (sends (auth_message capability) ∷ [])
              (done, sends (auth_message capability) ∷ makes_transport ∷ sends auth_ready ∷ [])
    by_message true = at_rest wisp es _ refl
    by_message false = at_rest wisp es _ refl
wisp_run capability (channel_closes ∷ es) = at_rest wisp es _ refl
wisp_run capability (timer_fires ∷ es) = at_rest wisp es _ refl
wisp_run capability (channel_opens ∷ es) = wisp_run capability es
wisp_run capability (channel_fails ∷ es) = wisp_run capability es

pong_run :
    (capability : Text) (es : List ChannelEvent)
    → progress (
        login_run control es
          (waiting_login pong second_reply (sends (auth_message capability) ∷ sends ping ∷ [])))
      ≡ answered pong second_reply
          (sends (auth_message capability) ∷ sends ping ∷ [])
          (λ es. (done, sends (auth_message capability) ∷ sends ping ∷ makes_client ∷ []))
          es
unfolding login_run on_login_event
pong_run capability [] = refl
pong_run capability (message_in m ∷ es) = by_message (is_text m pong)
  where
    by_message :
        (b : Bool)
        → progress (
            login_run control es (
              after_wait control
                (message_verdict b)
                (heard b pong second_reply (sends (auth_message capability) ∷ sends ping ∷ []))))
          ≡ if_expected b
              (sends (auth_message capability) ∷ sends ping ∷ [])
              (done, sends (auth_message capability) ∷ sends ping ∷ makes_client ∷ [])
    by_message true = at_rest control es _ refl
    by_message false = at_rest control es _ refl
pong_run capability (channel_closes ∷ es) = at_rest control es _ refl
pong_run capability (timer_fires ∷ es) = at_rest control es _ refl
pong_run capability (channel_opens ∷ es) = pong_run capability es
pong_run capability (channel_fails ∷ es) = pong_run capability es

control_run :
    (capability : Text) (es : List ChannelEvent)
    → progress (
        login_run control es
          (waiting_login auth_ok first_reply (sends (auth_message capability) ∷ [])))
      ≡ progress_of control capability es
unfolding login_run on_login_event
control_run capability [] = refl
control_run capability (message_in m ∷ es) = by_message (is_text m auth_ok)
  where
    by_message :
        (b : Bool)
        → progress (
            login_run control es (
              after_wait control
                (message_verdict b)
                (heard b auth_ok first_reply (sends (auth_message capability) ∷ []))))
          ≡ if_expected b (sends (auth_message capability) ∷ []) (
              answered pong second_reply
                (sends (auth_message capability) ∷ sends ping ∷ [])
                (λ es. (done, sends (auth_message capability) ∷ sends ping ∷ makes_client ∷ []))
                es)
    by_message true = pong_run capability es
    by_message false = at_rest control es _ refl
control_run capability (channel_closes ∷ es) = at_rest control es _ refl
control_run capability (timer_fires ∷ es) = at_rest control es _ refl
control_run capability (channel_opens ∷ es) = control_run capability es
control_run capability (channel_fails ∷ es) = control_run capability es

-- On an open channel the log-in sends the capability, and is done exactly when each awaited text is
-- the first message to come, before a close and the time-out: `webvpn-auth-ok-v1`, and for the
-- control channel a pong to the ping that it then sends. The transport of a Wisp channel is made
-- before the far side is told that it may send; on any other event nothing more is done.
pub login_run-progress_of :
    (kind : LoginKind) (capability : Text) (es : List ChannelEvent)
    → progress (login_run kind es (login true capability)) ≡ progress_of kind capability es
unfolding login
login_run-progress_of wisp capability es = wisp_run capability es
login_run-progress_of control capability es = control_run capability es
