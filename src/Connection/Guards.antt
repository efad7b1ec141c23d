-- ===== src/Connection/Guards.antt =====
-- web/src/connection.ts: the checks on ICE servers and connection descriptions, and the tables of
-- failure messages. The patterns are `/^stun:[^@\s]+$/i` and `/\btyp\s+relay\b/i`.
mod Prefix
pub mod Stun
pub mod Relay
use scweb_vpn.Common.{
  ℕ, Bool, true, false, not, ◌&&◌, ◌||◌, Option, none, some, List, [], ◌∷◌, any, all, ◌==◌, leb,
  if◌then◌else◌, Result, ok, err, message, throw_if, String, str_eq,
}
use scweb_vpn.Common.Texts.{Text, lit, to_lower, lower_unit, is_space, trim_start}

-- The rest of the text after a prefix, letters compared without case.
unfoldable pub strip_prefix : Text → Text → Option Text
strip_prefix [] s = some s
strip_prefix (p ∷ ps) [] = none
strip_prefix (p ∷ ps) (c ∷ s) =
    let rest = strip_prefix ps s in if lower_unit c == p then rest else none

-- `[^@\s]+` up to the end.
abbrev is_authority : Text → Bool
is_authority [] = false
is_authority (c ∷ s) = all (λ d. not (d == b'@' || is_space d)) (c ∷ s)

abbrev ends_in_authority : Option Text → Bool
ends_in_authority none = false
ends_in_authority (some s) = is_authority s

pub is_stun : Text → Bool
unfolding strip_prefix
is_stun value = ends_in_authority (strip_prefix (lit "stun:") value)

abbrev is_empty : List Text → Bool
is_empty [] = true
is_empty (v ∷ vs) = false

unfoldable pub validate_stun : List Text → Result (Unit {0})
unfolding is_stun
validate_stun values =
    throw_if (is_empty values || any (λ v. not (is_stun v)) values)
      (message "浏览器 ICE 配置只允许无凭据 stun: 地址")

-- `\w`.
unfoldable pub is_word : ℕ → Bool
is_word c =
    (leb b'a' c && leb c b'z')
    || (leb b'A' c && leb c b'Z')
    || (leb b'0' c && leb c b'9')
    || c == b'_'

abbrev begins_word : Text → Bool
begins_word [] = false
begins_word (c ∷ s) = is_word c

-- `relay\b` after the white space.
relay_word : Option Text → Bool
relay_word none = false
relay_word (some rest) = not (begins_word rest)

-- `\s+relay\b`.
spaced_relay : Option Text → Bool
spaced_relay none = false
spaced_relay (some []) = false
spaced_relay (some (c ∷ s)) = is_space c && relay_word (strip_prefix (lit "relay") (trim_start s))

-- A match at the head of the text; `inside` says that a word character stands before it.
relay_here : Bool → Text → Bool
unfolding spaced_relay relay_word
relay_here inside s = not inside && spaced_relay (strip_prefix (lit "typ") s)

has_relay : Bool → Text → Bool
has_relay inside [] = false
has_relay inside (c ∷ s) = relay_here inside (c ∷ s) || has_relay (is_word c) s

unfoldable pub reject_relay : Text → Result (Unit {0})
unfolding has_relay relay_here strip_prefix is_word
reject_relay sdp = throw_if (has_relay false sdp) (message "连接描述包含被禁止的 relay candidate")

abbrev known_failures : List (String × String)
known_failures =
    ("invalid_offer", "Agent 拒绝了无效连接描述")
    ∷ ("invalid_capability", "临时会话授权无效")
    ∷ ("service_blocked", "Agent 未授权该服务")
    ∷ ("peer_setup_failed", "Agent 无法创建 P2P 连接")
    ∷ ("restart_rejected", "Agent 拒绝了 ICE 重启")
    ∷ ("negotiation_failed", "P2P 协商失败")
    ∷ []

pub find_message : List (String × String) → String → Option String
find_message [] code = none
find_message ((k, m) ∷ table) code = if str_eq k code then some m else find_message table code

abbrev or_default : Option String → String → String
or_default none d = d
or_default (some m) d = m

-- `failureMessage(code = 'agent_rejected')`, for codes that are no property of `Object.prototype`.
unfoldable pub failure_message : Option String → String
unfolding find_message
failure_message code =
    or_default (find_message known_failures (or_default code "agent_rejected")) "Agent 拒绝了连接"
