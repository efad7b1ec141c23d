-- ===== src/Scramjet.antt =====
-- web/src/scramjet.ts: `loadRemote` and `activeServiceWorker`. The controller is a third-party package: what its
-- `wait` and the browser's service worker settle with are arguments, and calls follow one another.
mod Single
use scweb_vpn.Common.{
  ℕ, zero, suc, Bool, true, false, Option, none, some, List, [], ◌∷◌, ◌++◌, Result, ok, err,
  Failure, message,
}
use scweb_vpn.Common.Texts.{Text}

-- `controller`, known by the transport that it uses, how many were made, and what `go` was called with.
pub record Scramjet : Type 0 where
  pub controller : Option ℕ
  pub made : ℕ
  pub shown : List (ℕ × Text)

abbrev pub new_scramjet : Scramjet
new_scramjet = record { controller = none; made = 0; shown = [] }

-- `activeServiceWorker()`: the registration fails, or its worker is active or not.
unfoldable pub active_service_worker : Result Bool → Result (Unit {0})
active_service_worker (err e) = err e
active_service_worker (ok false) = err (message "浏览器兼容服务未就绪")
active_service_worker (ok true) = ok tt

-- `createFrame(element)` and `go(remote.href)`.
abbrev go : ℕ → Text → Scramjet → Scramjet
go transport href s = record s { shown = s.shown ++ (transport, href) ∷ [] }

abbrev after_wait : Result (Unit {0}) → ℕ → Text → Scramjet → Result (Unit {0}) × Scramjet
after_wait (err e) transport href s = (err e, s)
after_wait (ok done) transport href s = (ok tt, go transport href s)

abbrev with_worker :
    (worker waited : Result (Unit {0})) → ℕ → Text → Scramjet → Result (Unit {0}) × Scramjet
with_worker (err e) waited transport href s = (err e, s)
with_worker (ok done) waited transport href s =
    after_wait waited transport href (record s { controller = some transport; made = suc s.made })

abbrev load_with :
    Option ℕ
    → (worker waited : Result (Unit {0})) → ℕ
    → Text
    → Scramjet
    → Result (Unit {0}) × Scramjet
load_with none worker waited transport href s = with_worker worker waited transport href s
load_with (some t) worker waited transport href s =
    (ok tt, go transport href (record s { controller = some transport }))

-- `loadRemote(transport, element, remote)`.
unfoldable pub load_remote :
    (registered : Result Bool) (waited : Result (Unit {0}))
    → ℕ
    → Text
    → Scramjet
    → Result (Unit {0}) × Scramjet
unfolding active_service_worker
load_remote registered waited transport href s =
    load_with s.controller (active_service_worker registered) waited transport href s

-- A call of `loadRemote`.
pub record Load : Type 0 where
  pub registered : Result Bool
  pub waited : Result (Unit {0})
  pub transport : ℕ
  pub href : Text

unfoldable pub load_run : List Load → Scramjet → Scramjet
unfolding load_remote
load_run [] s = s
load_run (l ∷ ls) s = load_run ls (load_remote l.registered l.waited l.transport l.href s).1
