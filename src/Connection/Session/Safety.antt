-- ===== src/Connection/Session/Safety.antt =====
-- The invariant of `DirectConnection`, and its listeners, `close` and `fail`.
use scweb_vpn.Common.{
  ℕ, ◌≤◌, ◌≡◌, ◌≢◌, refl, Bool, true, false, Option, none, some, [], ◌∷◌, ◌++◌, arith, All,
  All-append, if◌then◌else◌, Bool-cases, inl, inr, ok, Failure, String, str_eq,
}
use scweb_vpn.Connection.Guards.{reject_relay}
use scweb_vpn.Connection.Session.{
  max_restarts, Description, Effect, restart_status, stats, failed, Conn, first, again, Call,
  post_connection, set_remote, log, close_peer, close, fail, on_candidate,
}

-- What is shown to the user never names a relay, and no restart is announced past the limit.
abbrev pub IsGoodEffect : Effect → Type 0
IsGoodEffect (stats (some d)) = (d.local_type ≢ "relay") × (d.remote_type ≢ "relay")
IsGoodEffect (restart_status n) = n ≤ max_restarts
IsGoodEffect _ = Unit {0}

-- A closed connection has no peer and no restart on its count.
abbrev pub IsShut : Bool → Option ℕ → ℕ → Type 0
IsShut true p n = (p ≡ none) × (n ≡ 0)
IsShut false p n = Unit {0}

pub record IsSound (s : Conn) : Type 0 where
  pub bounded : s.restart_count ≤ max_restarts
  pub shown : All IsGoodEffect s.effects
  pub shut : IsShut s.closed s.peer s.restart_count

-- No relay candidate stands in a description that is posted or set as a remote description; the offer of
-- `setLocalDescription` is not looked at by the code.
abbrev pub IsRelayFree : Description → Type 0
IsRelayFree d = reject_relay d.sdp ≡ ok tt

abbrev pub IsAllowed : Call → Type 0
IsAllowed (post_connection (first service_id d)) = IsRelayFree d
IsAllowed (post_connection (again service_id session capability d restart_of)) = IsRelayFree d
IsAllowed (set_remote p d) = IsRelayFree d
IsAllowed _ = Unit {0}

pub log-IsSound : (e : Effect) (s : Conn) → IsGoodEffect e → IsSound s → IsSound (log e s)
log-IsSound e s g v = record {
  bounded = v.bounded;
  shown = All-append IsGoodEffect s.effects (e ∷ []) v.shown (g, tt);
  shut = v.shut;
}

close_peer-shown :
    (p : Option ℕ) (s : Conn)
    → All IsGoodEffect s.effects
    → All IsGoodEffect (close_peer p s).effects
close_peer-shown none s h = h
close_peer-shown (some p) s h = All-append IsGoodEffect s.effects _ h (tt, tt)

close_peer-closed : (p : Option ℕ) (s : Conn) → (close_peer p s).closed ≡ s.closed
close_peer-closed none s = refl
close_peer-closed (some p) s = refl

pub close-IsSound : (s : Conn) → IsSound s → IsSound (close s)
unfolding close
close-IsSound s v = log-IsSound (stats none) _ tt (record {
  bounded = omega arith;
  shown = close_peer-shown s.peer (record s { closed = true }) v.shown;
  shut = rw (close_peer-closed s.peer (record s { closed = true })) (refl, refl);
})

pub fail-IsSound : (error : Failure) (s : Conn) → IsSound s → IsSound (fail error s)
unfolding fail
fail-IsSound error s v = log-IsSound (failed error) (close s) tt (close-IsSound s v)

pub on_candidate-IsSound : (t : Option String) (s : Conn) → IsSound s → IsSound (on_candidate t s)
unfolding on_candidate
on_candidate-IsSound none s v = v
on_candidate-IsSound (some t) s v = elim (Bool-cases (str_eq t "relay")) [
  | inl relay ↦ rw relay (fail-IsSound _ (added (str_eq t "")) (added-IsSound (str_eq t "")))
  | inr other ↦ rw other (added-IsSound (str_eq t ""))
]
  where
    added : Bool → Conn
    added b = if b then s else record s { candidate_types = s.candidate_types ++ t ∷ [] }

    added-IsSound : (b : Bool) → IsSound (added b)
    added-IsSound true = v
    added-IsSound false = record { bounded = v.bounded; shown = v.shown; shut = v.shut }
