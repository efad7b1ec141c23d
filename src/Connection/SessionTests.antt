-- ===== src/Connection/SessionTests.antt =====
-- Runs of Session at concrete inputs.
use scweb_vpn.Connection.Session.Ends.{Ends}
use scweb_vpn.Connection.Session.Settles.{Fewer, Any, Fulfilled, restart-Ends, connect-Ends}
use scweb_vpn.Common.{arith, ℕ, ◌≡◌, refl, Bool, true, none, some, [], ◌∷◌, All}
use scweb_vpn.Common.Texts.{lit}
use scweb_vpn.Connection.Session.{
  status, stats, peer_created, close, fail, on_candidate, local_offer_of, local_offer, ◌>>=◌,
  answer_loop, wait_for_answer,
}
use scweb_vpn.Connection.Session.Direct.{
  connect_peer, connect, report_pair, restart_body, after_failure, restart,
}
use scweb_vpn.Connection.Session.Safety.{IsSound}
use scweb_vpn.Connection.Session.Runs.{
  World, new_world, run_beside, begin, step, call_connect, candidate, MadeCall, Reach-IsSound,
}

-- Round trip times as whole milliseconds.
abbrev finite : ℕ → Bool
finite n = true

abbrev same : ℕ → ℕ
same n = n

session : Unit {0}
unfolding connect connect_peer report_pair restart restart_body after_failure local_offer
    local_offer_of ◌>>=◌ wait_for_answer answer_loop close fail on_candidate
session = tt

abbrev connecting_world : World ℕ
connecting_world = run_beside [] (connect finite same 5 (lit "svc") none) new_world

connect_announces :
    connecting_world.conn.effects ≡ stats none ∷ status "正在收集候选" ∷ peer_created 0 ∷ []
unfolding session
connect_announces = refl

-- A relay candidate while the offer is made ends the connection.
relay_ends : (on_candidate (some "relay") connecting_world.conn).peer ≡ none
unfolding session
relay_ends = refl

Reach-IsSound_example :
    IsSound (on_candidate (some "relay") connecting_world.conn)
    × All (MadeCall finite same) connecting_world.tasks
Reach-IsSound_example =
    Reach-IsSound finite same
      (step (step begin (call_connect 5 (lit "svc") none)) (candidate (some "relay")))

restart-Ends_example : Ends Fewer (restart finite same 3 91) 7 connecting_world.conn Fulfilled
restart-Ends_example =
    restart-Ends finite same 3 91 7 connecting_world.conn (omega arith) (omega arith)

connect-Ends_example :
    Ends Any (connect finite same 91 (lit "svc") none) 7 connecting_world.conn (λ r s'. Unit {0})
connect-Ends_example =
    connect-Ends finite same 91 (lit "svc") none 7 connecting_world.conn (omega arith)
