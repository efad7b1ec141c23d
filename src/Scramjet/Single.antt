-- ===== src/Scramjet/Single.antt =====
-- The controller of the page, after any calls of `loadRemote`.
use scweb_vpn.Common.{
  arith, ℕ, ◌≡◌, refl, true, Option, none, some, List, [], ◌∷◌, Result, ok, err, message,
}
use scweb_vpn.Common.Texts.{Text, lit}
use scweb_vpn.Scramjet.{
  Scramjet, new_scramjet, active_service_worker, load_with, after_wait, load_remote, Load, load_run,
}

abbrev count : Option ℕ → ℕ
count none = 0
count (some t) = 1

IsSingle : Scramjet → Type 0
IsSingle s = s.made ≡ count s.controller

after_wait-IsSingle :
    (waited : Result (Unit {0})) (t : ℕ) (href : Text) (s : Scramjet)
    → IsSingle s
    → IsSingle (after_wait waited t href s).1
unfolding IsSingle
after_wait-IsSingle (err e) t href s v = v
after_wait-IsSingle (ok done) t href s v = v

load_with-IsSingle :
    (c : Option ℕ) (worker waited : Result (Unit {0})) (t : ℕ) (href : Text) (s : Scramjet)
    → s.controller ≡ c
    → IsSingle s
    → IsSingle (load_with c worker waited t href s).1
unfolding IsSingle
load_with-IsSingle none (err e) waited t href s is v = v
load_with-IsSingle none (ok done) waited t href s is v =
    after_wait-IsSingle waited t href _
      (let given : s.made ≡ 0 = rw is at v in omega (arith, given))
load_with-IsSingle (some c) worker waited t href s is v = rw is at v

run-IsSingle : (ls : List Load) (s : Scramjet) → IsSingle s → IsSingle (load_run ls s)
unfolding load_run load_remote
run-IsSingle [] s v = v
run-IsSingle (l ∷ ls) s v =
    run-IsSingle ls _ (load_with-IsSingle s.controller _ l.waited l.transport l.href s refl v)

-- Calls of `loadRemote` that follow one another make one controller, however they end.
load_run-IsSingle : (ls : List Load) → IsSingle (load_run ls new_scramjet)
unfolding IsSingle
load_run-IsSingle ls = run-IsSingle ls new_scramjet refl

-- A controller whose `wait` has failed is kept, and the next call shows a frame without waiting for it.
kept_after_failure :
    load_run
      (record {
        registered = ok true;
        waited = err (message "wait");
        transport = 1;
        href = lit "http://a/";
      }
        ∷ record {
          registered = ok true;
          waited = err (message "wait");
          transport = 2;
          href = lit "http://b/";
        }
        ∷ [])
      new_scramjet
    ≡ record { controller = some 2; made = 1; shown = (2, lit "http://b/") ∷ [] }
unfolding load_run active_service_worker
kept_after_failure = refl
