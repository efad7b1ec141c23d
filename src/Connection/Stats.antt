-- ===== src/Connection/Stats.antt =====
-- web/src/connection.ts: `selectedPair`, over the entries of an `RTCStatsReport` in their order.
-- A round-trip time is a float: its type, the test `Number.isFinite` and `Math.round(rtt * 1_000)`
-- are parameters.
pub mod Selected
use scweb_vpn.Common.{
  ℕ, Bool, true, false, not, ◌&&◌, ◌||◌, Option, none, some, List, [], ◌∷◌, if◌then◌else◌, Result,
  ok, err, message, ◌>>=◌, ◌>>◌, throw_if, String, str_eq,
}
use scweb_vpn.Common.Texts.{Text, lit, text_eq, to_lower}

-- An entry with the fields that the code reads; a missing flag is false.
pub record Entry (F : Type 0) : Type 0 where
  pub type : String
  pub state : String
  pub nominated : Bool
  pub selected : Bool
  pub local_candidate_id : String
  pub remote_candidate_id : String
  pub current_round_trip_time : Option F
  pub candidate_type : String
  pub protocol : Option Text

pub record DirectStats : Type 0 where
  pub local_type : String
  pub remote_type : String
  pub protocol : Text
  pub rtt_ms : Option ℕ
  pub host_candidate : Bool
  pub srflx_candidate : Bool

unfoldable pub has_name : List String → String → Bool
has_name [] s = false
has_name (t ∷ ts) s = str_eq t s || has_name ts s

abbrev pub allowed_candidate_types : List String
allowed_candidate_types = "host" ∷ "srflx" ∷ "prflx" ∷ []

-- `local.protocol || remote.protocol || ''`: an empty string counts as missing.
abbrev or_protocol : Option Text → Text → Text
or_protocol none other = other
or_protocol (some []) other = other
or_protocol (some (c ∷ s)) other = c ∷ s

module _ {F : Type 0} where
  unfoldable pub is_selected : Entry F → Bool
  is_selected e =
      str_eq e.type "candidate-pair" && str_eq e.state "succeeded" && (e.nominated || e.selected)

  -- `stats.forEach`: a later match replaces an earlier one.
  unfoldable pub last_pair : Option (Entry F) → List (String × Entry F) → Option (Entry F)
  last_pair pair [] = pair
  last_pair pair ((id, e) ∷ stats) = last_pair (if is_selected e then some e else pair) stats

  -- `stats.get(id)`.
  unfoldable pub get_entry : List (String × Entry F) → String → Option (Entry F)
  get_entry [] id = none
  get_entry ((k, e) ∷ stats) id = if str_eq k id then some e else get_entry stats id

abbrev require {ℓ} : {A : Type ℓ} → Option A → String → Result A
require none text = err (message text)
require (some a) text = ok a

module _ {F : Type 0} (is_finite : F → Bool) (round_ms : F → ℕ) where
  unfoldable pub rtt_of : Option F → Option ℕ
  rtt_of none = none
  rtt_of (some rtt) = if is_finite rtt then some (round_ms rtt) else none

  unfoldable pub selected_pair : List (String × Entry F) → List String → Result DirectStats
  selected_pair stats gathered_types = do
    pair ← require (last_pair none stats) "无法确认已选择的 P2P candidate pair"
    local ← require (get_entry stats pair.local_candidate_id) "candidate pair 不满足无中继约束"
    remote ← require (get_entry stats pair.remote_candidate_id) "candidate pair 不满足无中继约束"
    throw_if
        (not (has_name allowed_candidate_types local.candidate_type)
          || not (has_name allowed_candidate_types remote.candidate_type))
        (message "candidate pair 不满足无中继约束")
    throw_if
        (not (
          text_eq (to_lower (or_protocol local.protocol (or_protocol remote.protocol [])))
            (lit "udp")))
        (message "当前连接不是 P2P UDP")
    ok (record {
      local_type = local.candidate_type;
      remote_type = remote.candidate_type;
      protocol = lit "UDP";
      rtt_ms = rtt_of pair.current_round_trip_time;
      host_candidate = has_name gathered_types "host";
      srflx_candidate = has_name gathered_types "srflx";
    })
