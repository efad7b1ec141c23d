-- ===== src/Connection/Session/Runs.antt =====
-- `DirectConnection` in use: its methods are called and its listeners fire in any order, and each
-- await of a running method may settle in any way, at any time.
use scweb_vpn.Common.{
  arith, ℕ, ◌≡◌, Bool, true, false, Option, none, List, [], ◌∷◌, ◌++◌, All, All-append, Result,
  String,
}
use scweb_vpn.Common.Texts.{Text}
use scweb_vpn.Connection.Session.{
  TemporaryTarget, Conn, Call, Value, Prog, ret, raise, exhausted, act, look, wait, close,
  on_candidate,
}
use scweb_vpn.Connection.Session.Direct.{PeerState, connect, restart, arms_recheck, recheck}
use scweb_vpn.Connection.Session.Safety.{IsSound, IsAllowed, close-IsSound, on_candidate-IsSound}
use scweb_vpn.Connection.Session.Waits.{Safe}
use scweb_vpn.Connection.Session.Methods.{connect-Safe, restart-Safe}

-- The object, the methods that wait for something, and the peers whose recheck timer runs.
pub record World (F : Type 0) : Type 0 where
  pub conn : Conn
  pub tasks : List (Prog F (Unit {0}))
  pub timers : List ℕ

-- A new `DirectConnection`.
abbrev pub new_conn : Conn
new_conn = record {
  peer = none;
  signal_id = [];
  browser_session_id = [];
  capability = [];
  service_id = [];
  restart_count = 0;
  restarting = false;
  closed = false;
  candidate_types = [];
  created = 0;
  effects = [];
}

abbrev pub new_world : {F : Type 0} → World F
new_world = record { conn = new_conn; tasks = []; timers = [] }

module _ {F : Type 0} where
  -- A method runs up to its next await.
  abbrev pub run_to_await : Prog F (Unit {0}) → Conn → Conn × List (Prog F (Unit {0}))
  run_to_await (ret a) s = (s, [])
  run_to_await (raise e) s = (s, [])
  run_to_await exhausted s = (s, [])
  run_to_await (act u m) s = run_to_await m (u s)
  run_to_await (look g) s = run_to_await (g s) s
  run_to_await (wait c k) s = (s, wait c k ∷ [])

  -- It does so beside `others`.
  abbrev pub run_beside : List (Prog F (Unit {0})) → Prog F (Unit {0}) → World F → World F
  run_beside others m w =
      let after = run_to_await m w.conn in record w { conn = after.0; tasks = others ++ after.1 }

module _ {F : Type 0} (is_finite : F → Bool) (round_ms : F → ℕ) where
  pub data Step : World F → World F → Type 0 where
    call_connect :
        {w : World F}
        → (fuel : ℕ) (service_id : Text) (target : Option TemporaryTarget)
        → Step w (run_beside w.tasks (connect is_finite round_ms fuel service_id target) w)
    call_restart :
        {w : World F}
        → (rounds fuel : ℕ) → Step w (run_beside w.tasks (restart is_finite round_ms rounds fuel) w)
    call_close : {w : World F} → Step w (record w { conn = close w.conn })
    candidate :
        {w : World F} → (t : Option String) → Step w (record w { conn = on_candidate t w.conn })
    state_change :
        {w : World F}
        → (p : ℕ) (state : PeerState) → arms_recheck p state w.conn ≡ true
        → Step w (record w { timers = p ∷ w.timers })
    timer :
        {w : World F}
        → (before : List ℕ) (p : ℕ) (after : List ℕ) (state : PeerState) (rounds fuel : ℕ)
        → w.timers ≡ before ++ p ∷ after
        → recheck p state w.conn ≡ true
        → Step w (
            run_beside w.tasks
              (restart is_finite round_ms rounds fuel)
              (record w { timers = before ++ after }))
    settles :
        {w : World F}
        → (before : List (Prog F (Unit {0}))) (c : Call)
          (k : Result (Value F c) → Prog F (Unit {0})) (after : List (Prog F (Unit {0})))
          (r : Result (Value F c))
        → w.tasks ≡ before ++ wait c k ∷ after
        → Step w (run_beside (before ++ after) (k r) w)

  pub data Reach : World F → Type 0 where
    begin : Reach new_world
    step : {w w' : World F} → Reach w → Step w w' → Reach w'

  -- A waiting method is at an allowed call, and is allowed whatever the call's outcome is.
  abbrev Ready : Prog F (Unit {0}) → Type 0
  Ready (wait c k) =
      IsAllowed c
      × ((r : Result (Value F c)) (s : Conn) → IsSound s → Safe (k r) s (λ a s'. IsSound s'))
  Ready _ = Unit {0}

  record IsReady (w : World F) : Type 0 where
    sound : IsSound w.conn
    ready : All Ready w.tasks

  run_to_await-Ready :
      (m : Prog F (Unit {0})) (s : Conn)
      → Safe m s (λ a s'. IsSound s')
      → IsSound (run_to_await m s).0 × All Ready (run_to_await m s).1
  run_to_await-Ready (ret a) s h = (h, tt)
  run_to_await-Ready (raise e) s h = (h, tt)
  run_to_await-Ready exhausted s h = (h, tt)
  run_to_await-Ready (act u m) s h = run_to_await-Ready m (u s) h
  run_to_await-Ready (look g) s h = run_to_await-Ready (g s) s h
  run_to_await-Ready (wait c k) s (v, q, h) = (v, ((q, h), tt))

  run_beside-Ready :
      (others : List (Prog F (Unit {0}))) (m : Prog F (Unit {0})) (w : World F)
      → All Ready others
      → Safe m w.conn (λ a s'. IsSound s')
      → IsReady (run_beside others m w)
  run_beside-Ready others m w o h =
      let after = run_to_await-Ready m w.conn h in
      record { sound = after.0; ready = All-append Ready others _ o after.1 }

  -- One task taken out of the list.
  All-remove :
      (before : List (Prog F (Unit {0}))) (m : Prog F (Unit {0})) (after : List (Prog F (Unit {0})))
      → All Ready (before ++ m ∷ after)
      → Ready m × All Ready (before ++ after)
  All-remove [] m after h = h
  All-remove (x ∷ before) m after (hx, h) =
      let rest = All-remove before m after h in (rest.0, (hx, rest.1))

  Step-Ready : {w w' : World F} → Step w w' → IsReady w → IsReady w'
  Step-Ready (call_connect {w} fuel service_id target) v =
      run_beside-Ready w.tasks (connect is_finite round_ms fuel service_id target) w v.ready
        (connect-Safe is_finite round_ms fuel service_id target w.conn v.sound)
  Step-Ready (call_restart {w} rounds fuel) v =
      run_beside-Ready w.tasks (restart is_finite round_ms rounds fuel) w v.ready
        (restart-Safe is_finite round_ms rounds fuel w.conn v.sound)
  Step-Ready (call_close {w}) v = record { sound = close-IsSound w.conn v.sound; ready = v.ready }
  Step-Ready (candidate {w} t) v = record {
    sound = on_candidate-IsSound t w.conn v.sound;
    ready = v.ready;
  }
  Step-Ready (state_change p state h) v = record { sound = v.sound; ready = v.ready }
  Step-Ready (timer {w} before p after state rounds fuel e h) v =
      run_beside-Ready w.tasks (restart is_finite round_ms rounds fuel)
        (record w { timers = before ++ after }) v.ready
        (restart-Safe is_finite round_ms rounds fuel w.conn v.sound)
  Step-Ready (settles {w} before c k after r e) v =
      let split = All-remove before (wait c k) after (coe 0 1 (i. All Ready (e i)) v.ready) in
      run_beside-Ready (before ++ after) (k r) w split.1 (split.0.1 r w.conn v.sound)

  Reach-Ready : {w : World F} → Reach w → IsReady w
  Reach-Ready begin = record {
    sound = record { bounded = omega arith; shown = tt; shut = tt };
    ready = tt;
  }
  Reach-Ready (step h one) = Step-Ready one (Reach-Ready h)

  -- The call that a waiting method has made.
  abbrev pub MadeCall : Prog F (Unit {0}) → Type 0
  MadeCall (wait c k) = IsAllowed c
  MadeCall _ = Unit {0}

  Ready-MadeCall : (tasks : List (Prog F (Unit {0}))) → All Ready tasks → All MadeCall tasks
  Ready-MadeCall [] h = tt
  Ready-MadeCall (m ∷ tasks) (hm, h) = (made m hm, Ready-MadeCall tasks h)
    where
      made : (m : Prog F (Unit {0})) → Ready m → MadeCall m
      made (ret a) h = tt
      made (raise e) h = tt
      made exhausted h = tt
      made (act u m) h = tt
      made (look g) h = tt
      made (wait c k) h = h.0

  -- However the calls of `connect`, `restart` and `close`, the events and the outcomes of the awaits
  -- are ordered, the restart count is at most two, a closed connection has no peer, no relay is
  -- shown to the user, no restart past the second is announced, and no description that is posted
  -- or set as the remote description of a peer has a relay candidate; of the offer that a peer is
  -- given as its own local description before it gathers candidates nothing is said.
  pub Reach-IsSound : {w : World F} → Reach w → IsSound w.conn × All MadeCall w.tasks
  Reach-IsSound {w} h = let v = Reach-Ready h in (v.sound, Ready-MadeCall w.tasks v.ready)
