-- ===== src/Connection/Stats/Selected.antt =====
-- The pair that `selectedPair` reports.
use scweb_vpn.Common.{
  subst, ap, false≢true, Failure, ℕ, ◌≡◌, ◌≢◌, refl, Bool, true, false, not, ◌||◌, Option, none,
  some, List, [], ◌∷◌, ◌++◌, arith, All, ok, message, >>=-eq-ok, throw_if, String, Bool-cases, inl,
  inr,
}
use scweb_vpn.Common.Texts.{lit, text_eq, text_eq_iff, to_lower}
use scweb_vpn.Connection.Stats.{
  Entry, DirectStats, has_name, allowed_candidate_types, or_protocol, is_selected, last_pair,
  get_entry, require, rtt_of, selected_pair,
}

-- The entry is the last of the report that is a selected pair.
pub record IsLast {F : Type 0} (stats : List (String × Entry F)) (pair : Entry F) : Type 0 where
  pub before : List (String × Entry F)
  pub id : String
  pub after : List (String × Entry F)
  pub whole : stats ≡ before ++ ((id, pair) ∷ after)
  pub chosen : is_selected pair ≡ true
  pub last : All (λ e. is_selected e.1 ≡ false) after

pub record IsDirect {F : Type 0} (is_finite : F → Bool) (round_ms : F → ℕ)
    (stats : List (String × Entry F)) (gathered_types : List String) (d : DirectStats)
    : Type 0 where
  pub pair : Entry F
  pub local : Entry F
  pub remote : Entry F
  pub is_last : IsLast stats pair
  pub local_found : get_entry stats pair.local_candidate_id ≡ some local
  pub remote_found : get_entry stats pair.remote_candidate_id ≡ some remote
  pub local_type : d.local_type ≡ local.candidate_type
  pub remote_type : d.remote_type ≡ remote.candidate_type
  pub local_direct : d.local_type ≢ "relay"
  pub remote_direct : d.remote_type ≢ "relay"
  pub local_allowed : has_name allowed_candidate_types d.local_type ≡ true
  pub remote_allowed : has_name allowed_candidate_types d.remote_type ≡ true
  pub udp : to_lower (or_protocol local.protocol (or_protocol remote.protocol [])) ≡ lit "udp"
  pub rtt : d.rtt_ms ≡ rtt_of is_finite round_ms pair.current_round_trip_time
  pub host : d.host_candidate ≡ has_name gathered_types "host"
  pub srflx : d.srflx_candidate ≡ has_name gathered_types "srflx"

not_relay : (t : String) → has_name allowed_candidate_types t ≡ true → t ≢ "relay"
unfolding has_name
not_relay t h e = false≢true (subst (λ s. has_name allowed_candidate_types s ≡ true) e h)

module _ {F : Type 0} where
  -- The loop of `forEach` with a pair in hand, or none.
  data ResultOfScan (pair : Option (Entry F)) (stats : List (String × Entry F)) (found : Entry F)
      : Type 0 where
    kept :
        pair ≡ some found → All (λ e. is_selected e.1 ≡ false) stats → ResultOfScan pair stats found
    replaced : IsLast stats found → ResultOfScan pair stats found

  IsLast-cons :
      (e : String × Entry F) (stats : List (String × Entry F)) (pair : Entry F)
      → IsLast stats pair
      → IsLast (e ∷ stats) pair
  IsLast-cons e stats pair l = record {
    before = e ∷ l.before;
    id = l.id;
    after = l.after;
    whole = ap (λ t. e ∷ t) l.whole;
    chosen = l.chosen;
    last = l.last;
  }

  last_pair-scan :
      (pair : Option (Entry F)) (stats : List (String × Entry F)) (found : Entry F)
      → last_pair pair stats ≡ some found
      → ResultOfScan pair stats found
  unfolding last_pair
  last_pair-scan pair [] found h = kept h tt
  last_pair-scan pair ((id, e) ∷ stats) found h = elim (Bool-cases (is_selected e)) [
    | inl chosen ↦ of_chosen chosen (last_pair-scan (some e) stats found (rw chosen at h))
    | inr passed ↦ of_passed passed (last_pair-scan pair stats found (rw passed at h))
  ]
    where
      of_chosen :
          is_selected e ≡ true
          → ResultOfScan (some e) stats found
          → ResultOfScan pair ((id, e) ∷ stats) found
      of_chosen chosen (kept same rest) =
          let same' : e ≡ found = cc in
          replaced (record {
            before = [];
            id = id;
            after = stats;
            whole = ap (λ x. (id, x) ∷ stats) same';
            chosen = rw (← same') chosen;
            last = rest;
          })
      of_chosen chosen (replaced l) = replaced (IsLast-cons (id, e) stats found l)

      of_passed :
          is_selected e ≡ false
          → ResultOfScan pair stats found
          → ResultOfScan pair ((id, e) ∷ stats) found
      of_passed passed (kept same rest) = kept same (passed, rest)
      of_passed passed (replaced l) = replaced (IsLast-cons (id, e) stats found l)

  last_pair-IsLast :
      (stats : List (String × Entry F)) (found : Entry F)
      → last_pair none stats ≡ some found
      → IsLast stats found
  last_pair-IsLast stats found h = of_scan (last_pair-scan none stats found h)
    where
      of_scan : ResultOfScan none stats found → IsLast stats found
      of_scan (kept same rest) = cc
      of_scan (replaced l) = l

require-eq-ok {ℓ} :
    {A : Type ℓ} (o : Option A) (text : String) {a : A} → require o text ≡ ok a → o ≡ some a
require-eq-ok none text h = cc
require-eq-ok (some b) text h = cc

throw_if-eq-ok : (b : Bool) (e : Failure) {u : Unit {0}} → throw_if b e ≡ ok u → b ≡ false
throw_if-eq-ok true e h = cc
throw_if-eq-ok false e h = refl

-- What `selectedPair` reports is the last succeeded pair that was nominated or selected; both of its
-- candidates are host, srflx or prflx, never relay, and its protocol is UDP.
pub selected_pair-IsDirect :
    {F : Type 0} (is_finite : F → Bool) (round_ms : F → ℕ) (stats : List (String × Entry F))
    (gathered_types : List String) (d : DirectStats)
    → selected_pair is_finite round_ms stats gathered_types ≡ ok d
    → IsDirect is_finite round_ms stats gathered_types d
unfolding selected_pair
selected_pair-IsDirect is_finite round_ms stats gathered_types d h =
    let (pair, p, h₁) =
      >>=-eq-ok (require (last_pair none stats) "无法确认已选择的 P2P candidate pair") _ h in
    let (local, l, h₂) =
      >>=-eq-ok (require (get_entry stats pair.local_candidate_id) "candidate pair 不满足无中继约束") _
        h₁ in
    let (remote, r, h₃) =
      >>=-eq-ok (require (get_entry stats pair.remote_candidate_id) "candidate pair 不满足无中继约束") _
        h₂ in
    let (u, a, h₄) =
      >>=-eq-ok
        (throw_if
          (not (has_name allowed_candidate_types local.candidate_type)
            || not (has_name allowed_candidate_types remote.candidate_type))
          (message "candidate pair 不满足无中继约束"))
        _ h₃ in
    let (v, b, h₅) =
      >>=-eq-ok
        (throw_if
          (not (
            text_eq (to_lower (or_protocol local.protocol (or_protocol remote.protocol [])))
              (lit "udp")))
          (message "当前连接不是 P2P UDP"))
        _ h₄ in
    let allowed = throw_if-eq-ok _ _ a in
    let is_udp = throw_if-eq-ok _ _ b in
    let same : record {
      local_type = local.candidate_type;
      remote_type = remote.candidate_type;
      protocol = lit "UDP";
      rtt_ms = rtt_of is_finite round_ms pair.current_round_trip_time;
      host_candidate = has_name gathered_types "host";
      srflx_candidate = has_name gathered_types "srflx";
    }
        ≡ d =
      cc in
    subst (IsDirect is_finite round_ms stats gathered_types) same (record {
      pair = pair;
      local = local;
      remote = remote;
      is_last = last_pair-IsLast stats pair (require-eq-ok (last_pair none stats) _ p);
      local_found = require-eq-ok (get_entry stats pair.local_candidate_id) _ l;
      remote_found = require-eq-ok (get_entry stats pair.remote_candidate_id) _ r;
      local_type = refl;
      remote_type = refl;
      local_direct = not_relay local.candidate_type (ground (arith, allowed));
      remote_direct = not_relay remote.candidate_type (ground (arith, allowed));
      local_allowed = ground (arith, allowed);
      remote_allowed = ground (arith, allowed);
      udp = (text_eq_iff _ _).0 (ground (arith, is_udp));
      rtt = refl;
      host = refl;
      srflx = refl;
    })
