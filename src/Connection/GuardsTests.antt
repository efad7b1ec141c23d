-- ===== src/Connection/GuardsTests.antt =====
-- The checks of Guards and Stats at concrete inputs.
use scweb_vpn.Common.{
  ℕ, ◌≡◌, ◌≢◌, ◌↔◌, refl, true, false, none, some, List, [], ◌∷◌, All, ok, err, message, String,
}
use scweb_vpn.Common.Texts.{lit, is_space}
use scweb_vpn.Connection.Guards.{validate_stun, reject_relay, failure_message}
use scweb_vpn.Connection.Guards.Stun.{IsStun, validate_stun_iff}
use scweb_vpn.Connection.Guards.Relay.{RelayIn, reject_relay_iff}
use scweb_vpn.Connection.Stats.{
  Entry, DirectStats, has_name, is_selected, last_pair, get_entry, rtt_of, selected_pair,
}
use scweb_vpn.Connection.Stats.Selected.{IsDirect, selected_pair-IsDirect}

stun_accepted : validate_stun (lit "stun:vpn.example.com:3478" ∷ []) ≡ ok tt
unfolding validate_stun is_space
stun_accepted = refl

turn_refused :
    validate_stun (lit "turn:vpn.example.com:3478" ∷ []) ≡ err (message "浏览器 ICE 配置只允许无凭据 stun: 地址")
unfolding validate_stun is_space
turn_refused = refl

user_refused :
    validate_stun (lit "stun:user@vpn.example.com" ∷ []) ≡ err (message "浏览器 ICE 配置只允许无凭据 stun: 地址")
unfolding validate_stun is_space
user_refused = refl

validate_stun_iff_example :
    (validate_stun (lit "STUN:a" ∷ []) ≡ ok tt)
    ↔ (((lit "STUN:a" ∷ []) ≢ []) × All IsStun (lit "STUN:a" ∷ []))
validate_stun_iff_example = validate_stun_iff (lit "STUN:a" ∷ [])

relay_refused :
    reject_relay (lit "a=candidate:1 1 udp 1 192.0.2.1 3478 TYP  relay raddr 0.0.0.0")
    ≡ err (message "连接描述包含被禁止的 relay candidate")
unfolding reject_relay is_space
relay_refused = refl

srflx_kept : reject_relay (lit "a=candidate:1 1 udp 1 192.0.2.1 3478 typ srflx relay") ≡ ok tt
unfolding reject_relay is_space
srflx_kept = refl

inner_word_kept : reject_relay (lit "atyp relay typ relays") ≡ ok tt
unfolding reject_relay is_space
inner_word_kept = refl

reject_relay_iff_example :
    (reject_relay (lit "typ relay") ≡ err (message "连接描述包含被禁止的 relay candidate"))
    ↔ RelayIn false (lit "typ relay")
reject_relay_iff_example = reject_relay_iff (lit "typ relay")

messages :
    (failure_message none ≡ "Agent 拒绝了连接")
    × (failure_message (some "restart_rejected") ≡ "Agent 拒绝了 ICE 重启")
unfolding failure_message
messages = (refl, refl)

-- A float is a number of milliseconds here.
abbrev candidate : String → Entry ℕ
candidate kind = record {
  type = "candidate";
  state = "";
  nominated = false;
  selected = false;
  local_candidate_id = "";
  remote_candidate_id = "";
  current_round_trip_time = none;
  candidate_type = kind;
  protocol = some (lit "UDP");
}

abbrev pair : String → Entry ℕ
pair local = record {
  type = "candidate-pair";
  state = "succeeded";
  nominated = true;
  selected = false;
  local_candidate_id = local;
  remote_candidate_id = "R";
  current_round_trip_time = some 12;
  candidate_type = "";
  protocol = none;
}

abbrev report : String → List (String × Entry ℕ)
report local =
    ("L", candidate "host")
    ∷ ("T", candidate "relay")
    ∷ ("R", candidate "srflx")
    ∷ ("P", pair "X")
    ∷ ("Q", pair local)
    ∷ []

abbrev direct : DirectStats
direct = record {
  local_type = "host";
  remote_type = "srflx";
  protocol = lit "UDP";
  rtt_ms = some 12;
  host_candidate = true;
  srflx_candidate = false;
}

direct_reported : selected_pair (λ x. true) (λ x. x) (report "L") ("host" ∷ []) ≡ ok direct
unfolding selected_pair last_pair is_selected get_entry has_name rtt_of
direct_reported = refl

relay_reported :
    selected_pair (λ x. true) (λ x. x) (report "T") ("host" ∷ [])
    ≡ err (message "candidate pair 不满足无中继约束")
unfolding selected_pair last_pair is_selected get_entry has_name rtt_of
relay_reported = refl

selected_pair-IsDirect_example : IsDirect (λ x. true) (λ x. x) (report "L") ("host" ∷ []) direct
selected_pair-IsDirect_example =
    selected_pair-IsDirect (λ x. true) (λ x. x) (report "L") ("host" ∷ []) direct direct_reported
