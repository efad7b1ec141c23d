-- ===== src/Worker/Routing.antt =====
-- How long the service worker waits for its controller, and what it answers itself.
use scweb_vpn.Common.{
  arith, ℕ, zero, suc, ◌+◌, ◌≤◌, ◌<◌, ◌≡◌, ◌≢◌, ◌⊎◌, inl, inr, refl, subst, Bool, true, false, ◌&&◌,
  Option, none, some, ◌==◌, ==_iff, Bool-cases, if◌then◌else◌,
}
use scweb_vpn.Common.Texts.{Text, starts_with}
use scweb_vpn.Worker.{
  route_revive_max_attempts, proxy_path_prefix, unavailable_response, Action, routed, responded,
  passed, route_loop, route_proxy_request, own_path, on_fetch, local_binary_data_url,
  local_binary_data_response, decoded_response,
}

-- The first attempt of `attempt`, …, at which the controller takes the request.
pub record IsFirst (should : ℕ → Bool) (attempt n : ℕ) : Type 0 where
  pub reached : attempt ≤ n
  pub taken : should n ≡ true
  pub refused_before : (m : ℕ) → attempt ≤ m → m < n → should m ≡ false

abbrev pub Outcome : ℕ → (ℕ → Bool) → ℕ → Action → Type 0
Outcome left should attempt (routed n) = IsFirst should attempt n × (n < attempt + left)
Outcome left should attempt (responded r) =
    (r ≡ unavailable_response) × ((m : ℕ) → attempt ≤ m → m < attempt + left → should m ≡ false)
Outcome left should attempt passed = ⊥

-- One more attempt in front, which was refused.
Outcome-later :
    (left attempt : ℕ) (should : ℕ → Bool) (a : Action)
    → should attempt ≡ false
    → Outcome left should (suc attempt) a
    → Outcome (suc left) should attempt a
Outcome-later left attempt should (routed n) denied (first, less) = (
  record { reached = omega (arith, first.reached); taken = first.taken; refused_before = before },
  omega arith,
)
  where
    before : (m : ℕ) → attempt ≤ m → m < n → should m ≡ false
    before m low high = elim (Bool-cases (m == attempt)) [
      | inl same ↦ rw ((==_iff m attempt).0 same) denied
      | inr other ↦ first.refused_before m (ground arith) high
    ]
Outcome-later left attempt should (responded r) denied (same_response, refused) =
    (same_response, before)
  where
    before : (m : ℕ) → attempt ≤ m → m < attempt + suc left → should m ≡ false
    before m low high = elim (Bool-cases (m == attempt)) [
      | inl same ↦ rw ((==_iff m attempt).0 same) denied
      | inr other ↦ refused m (ground arith) (omega arith)
    ]
Outcome-later left attempt should passed denied h = h

route_loop-Outcome :
    (left attempt : ℕ) (should : ℕ → Bool)
    → Outcome left should attempt (route_loop left attempt should)
unfolding route_loop
route_loop-Outcome zero attempt should = (refl, λ m a b. absurd (omega arith))
route_loop-Outcome (suc left) attempt should = elim (Bool-cases (should attempt)) [
  | inl yes_now ↦ rw yes_now (
    record {
      reached = omega arith;
      taken = yes_now;
      refused_before = λ m a b. absurd (omega arith);
    },
    omega arith,
  )
  | inr denied ↦
      rw denied
        (Outcome-later left attempt should _ denied (route_loop-Outcome left (suc attempt) should))
]

-- The loop ends: the request is routed at the first of twenty attempts that the controller takes,
-- and answered with status 503 exactly if it takes none of them.
pub route_proxy_request-Outcome :
    (should : ℕ → Bool) → Outcome route_revive_max_attempts should 0 (route_proxy_request should)
unfolding route_proxy_request
route_proxy_request-Outcome should = route_loop-Outcome route_revive_max_attempts 0 should

-- What the worker answers itself is not stored, and has one of three statuses.
abbrev IsOwnStatus : ℕ → Type 0
IsOwnStatus n = (n ≡ 200) ⊎ (n ≡ 400) ⊎ (n ≡ 503)

abbrev pub IsOwn : Action → Type 0
IsOwn (responded r) = (r.cache_control ≡ "no-store") × IsOwnStatus r.status
IsOwn a = Unit {0}

decoded-IsOwn : (url : Text) (d : Option Text) → IsOwn (responded (decoded_response url d))
unfolding decoded_response
decoded-IsOwn url none = (refl, inr (inl refl))
decoded-IsOwn url (some d) = (refl, inl refl)

proxied-IsOwn : (should : ℕ → Bool) → IsOwn (route_proxy_request should)
proxied-IsOwn should = of_outcome (route_proxy_request should) (route_proxy_request-Outcome should)
  where
    of_outcome : (a : Action) → Outcome route_revive_max_attempts should 0 a → IsOwn a
    of_outcome (routed n) h = tt
    of_outcome (responded r) h = rw h.0 (refl, inr (inr refl))
    of_outcome passed h = tt

own_path-IsOwn : (url : Option Text) (should : ℕ → Bool) → IsOwn (own_path url should)
unfolding own_path local_binary_data_response
own_path-IsOwn none should = proxied-IsOwn should
own_path-IsOwn (some url) should = decoded-IsOwn url _

-- A response that the worker makes itself is never stored, and has status 200, 400 or 503.
pub on_fetch-IsOwn :
    (decode_uri : Text → Option Text) (should : ℕ → Bool) (same_origin : Bool) (pathname : Text)
    → IsOwn (on_fetch decode_uri should same_origin pathname)
unfolding on_fetch
on_fetch-IsOwn decode_uri should same_origin pathname =
    elim (Bool-cases (same_origin && starts_with proxy_path_prefix pathname)) [
      | inl own ↦ rw own (own_path-IsOwn (local_binary_data_url decode_uri pathname) should)
      | inr foreign ↦ rw foreign (of_controller (should 0))
    ]
  where
    of_controller : (b : Bool) → IsOwn (if b then routed 0 else passed)
    of_controller true = tt
    of_controller false = tt

own_path-ne-passed : (url : Option Text) (should : ℕ → Bool) → own_path url should ≢ passed
unfolding own_path
own_path-ne-passed none should h =
    subst (Outcome route_revive_max_attempts should 0) h (route_proxy_request-Outcome should)
own_path-ne-passed (some url) should h = cc

-- A request of the worker's own origin below the proxy's path is never left to the browser's
-- network, even while the controller does not answer.
pub on_fetch-ne-passed :
    (decode_uri : Text → Option Text) (should : ℕ → Bool) (same_origin : Bool) (pathname : Text)
    → (same_origin && starts_with proxy_path_prefix pathname) ≡ true
    → on_fetch decode_uri should same_origin pathname ≢ passed
unfolding on_fetch
on_fetch-ne-passed decode_uri should same_origin pathname own =
    rw own (own_path-ne-passed (local_binary_data_url decode_uri pathname) should)
