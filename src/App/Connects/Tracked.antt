-- ===== src/App/Connects/Tracked.antt =====
-- The page's connections in runs in which the calls of `connect` ask for the Agent one after the other.
use scweb_vpn.Common.{
  arith, ℕ, suc, ◌+◌, ◌≤◌, ◌<◌, ◌≡◌, ◌⊎◌, inl, inr, refl, sym, ap, ◌∙◌, true, any, Option, none,
  some, List, [], ◌∷◌, ◌++◌, ==_iff, Bool-cases, ◌==◌, subst,
}
use scweb_vpn.Common.Texts.{Text}
use scweb_vpn.Connection.Stats.{DirectStats}
use scweb_vpn.Platform.Url.{Url}
use scweb_vpn.App.{Page, render_stats, disconnect, before_unload, close_direct}
use scweb_vpn.App.Address.{Service}
use scweb_vpn.App.Connects.{
  Caller, portal, initial, temporary_panel, Flight, Run, new_run, before_call, begin_connect,
  PageEvent, calls, settles, says, measures, fails, disconnects, unloads, page_step, page_run,
}
use scweb_vpn.App.Connects.Closed.{
  is_closed, Keeps, DirectClosed, Keeps-refl, close_direct-Keeps, close_direct-DirectClosed,
  fail_p2p-Keeps, asking_count, Makes, Changes, resume-Changes,
}

-- Each connection is closed or held, and the one that is held is closed when a call is about to make another.
record IsTracked (asking : ℕ) (p : Page) : Type 0 where
  tracked : (m : ℕ) → m < p.made → (is_closed m p ≡ true) ⊎ (p.direct ≡ some m)
  one : asking ≤ 1
  ready : 1 ≤ asking → DirectClosed p.direct p

DirectClosed-eq :
    (o : Option ℕ) (p : Page) (m : ℕ) → DirectClosed o p → o ≡ some m → is_closed m p ≡ true
DirectClosed-eq none p m h e = absurd (cc e)
DirectClosed-eq (some n) p m h e = let same : n ≡ m = cc in subst (λ k. is_closed k p ≡ true) same h

DirectClosed-Keeps : (o : Option ℕ) (p q : Page) → Keeps p q → DirectClosed o p → DirectClosed o q
DirectClosed-Keeps none p q k h = tt
DirectClosed-Keeps (some n) p q k h = k.closed n h

tracked-Keeps :
    (p q : Page)
    → Keeps p q
    → ((m : ℕ) → m < p.made → (is_closed m p ≡ true) ⊎ (p.direct ≡ some m))
    → (m : ℕ) → m < q.made
    → (is_closed m q ≡ true) ⊎ (q.direct ≡ some m)
tracked-Keeps p q k t m h = elim (t m (subst (λ n. m < n) k.made h)) [
  | inl c ↦ inl (k.closed m c)
  | inr d ↦ inr (k.direct ∙ d)
]

Keeps-IsTracked :
    (before after : ℕ) (p q : Page)
    → Keeps p q
    → after ≤ before
    → IsTracked before p
    → IsTracked after q
Keeps-IsTracked before after p q k h v = record {
  tracked = tracked-Keeps p q k v.tracked;
  one = let one = v.one in omega arith;
  ready = λ a.
      subst (λ o. DirectClosed o q) (sym k.direct)
        (DirectClosed-Keeps p.direct p q k (v.ready (omega arith)));
}

Makes-IsTracked : (after : ℕ) (p q : Page) → Makes p q → IsTracked (suc after) p → IsTracked after q
Makes-IsTracked after p q k v = record {
  tracked = tracked;
  one = let one = v.one in omega arith;
  ready = λ a. let one = v.one in absurd (omega arith);
}
  where
    old : (m : ℕ) → m < p.made → is_closed m q ≡ true
    old m h = ap (λ l. any (λ n. n == m) l) k.closed ∙ elim (v.tracked m h) [
      | inl c ↦ c
      | inr d ↦ DirectClosed-eq p.direct p m (v.ready (omega arith)) d
    ]

    tracked : (m : ℕ) → m < q.made → (is_closed m q ≡ true) ⊎ (q.direct ≡ some m)
    tracked m h = elim (Bool-cases (m == p.made)) [
      | inl same ↦ inr (k.direct ∙ ap some (sym ((==_iff m p.made).0 same)))
      | inr other ↦ let made = k.made in inl (old m (ground arith))
    ]

-- No call starts while another asks whether the Agent is online.
abbrev pub IsQuiet : PageEvent → Run → Type 0
IsQuiet (calls c s remote) r = asking_count r.flights ≡ 0
IsQuiet e r = Unit {0}

before_call-Keeps : (c : Caller) (p : Page) → Keeps p (before_call c p)
before_call-Keeps portal p = Keeps-refl p
before_call-Keeps initial p = Keeps-refl p
before_call-Keeps temporary_panel p = record { made = refl; direct = refl; closed = λ m h. h }

render_stats-Keeps : (o : Option DirectStats) (p : Page) → Keeps p (render_stats o p)
unfolding render_stats
render_stats-Keeps none p = record { made = refl; direct = refl; closed = λ m h. h }
render_stats-Keeps (some d) p = record { made = refl; direct = refl; closed = λ m h. h }

asking_count-append :
    (fs gs : List Flight) → asking_count (fs ++ gs) ≡ asking_count fs + asking_count gs
asking_count-append [] gs = omega arith
asking_count-append (f ∷ fs) gs = omega (arith, asking_count-append fs gs)

pub copied-DirectClosed :
    (p q : Page)
    → q.direct ≡ p.direct
    → q.closed ≡ p.closed
    → DirectClosed p.direct p
    → DirectClosed q.direct q
copied-DirectClosed p q d c h = subst (λ o. DirectClosed o q) (sym d) (kept p.direct h)
  where
    kept : (o : Option ℕ) → DirectClosed o p → DirectClosed o q
    kept none h = tt
    kept (some n) h = ap (λ l. any (λ k. k == n) l) c ∙ h

pub closed-DirectClosed :
    (p : Page) → DirectClosed (close_direct p.direct p).direct (close_direct p.direct p)
closed-DirectClosed p =
    let k = close_direct-Keeps p.direct p in
    subst (λ o. DirectClosed o (close_direct p.direct p)) (sym k.direct)
      (close_direct-DirectClosed p.direct p)

pub begin_connect-DirectClosed :
    (s : Service) (p : Page) → DirectClosed (begin_connect s p).direct (begin_connect s p)
unfolding begin_connect
begin_connect-DirectClosed s p =
    copied-DirectClosed (close_direct p.direct p) (begin_connect s p) refl refl
      (closed-DirectClosed p)

begin_connect-IsTracked : (s : Service) (p : Page) → IsTracked 0 p → IsTracked 1 (begin_connect s p)
unfolding begin_connect
begin_connect-IsTracked s p v =
    let k = close_direct-Keeps p.direct p in
    record {
      tracked =
          tracked-Keeps p (begin_connect s p)
            (record { made = k.made; direct = k.direct; closed = k.closed }) v.tracked;
      one = omega arith;
      ready = λ a. begin_connect-DirectClosed s p;
    }

disconnect-IsTracked : (n : ℕ) (p : Page) → IsTracked n p → IsTracked n (disconnect p)
unfolding disconnect
disconnect-IsTracked n p v =
    let k = close_direct-Keeps p.direct p in
    record {
      tracked = λ m h. elim (v.tracked m (subst (λ n. m < n) k.made h)) [
        | inl c ↦ inl (k.closed m c)
        | inr d ↦ inl (
            DirectClosed-eq p.direct (close_direct p.direct p) m
              (close_direct-DirectClosed p.direct p) d)
      ];
      one = v.one;
      ready = λ a. tt;
    }

changed-IsTracked :
    (before after : ℕ) (p q : Page)
    → Changes before after p q
    → IsTracked before p
    → IsTracked after q
changed-IsTracked before after p q (inl (k, h)) v = Keeps-IsTracked before after p q k h v
changed-IsTracked before after p q (inr (k, h)) v =
    Makes-IsTracked after p q k (subst (λ n. IsTracked n p) (sym h) v)

module _ (parse : Text → Option Url) where
  abbrev pub QuietRun : List PageEvent → Run → Type 0
  QuietRun [] r = Unit {0}
  QuietRun (e ∷ es) r = IsQuiet e r × QuietRun es (page_step parse e r)

  page_step-IsTracked :
      (e : PageEvent) (r : Run)
      → IsQuiet e r
      → IsTracked (asking_count r.flights) r.page
      → IsTracked (asking_count (page_step parse e r).flights) (page_step parse e r).page
  unfolding page_step before_unload
  page_step-IsTracked (calls c s remote) r quiet v =
      subst (λ n. IsTracked n (begin_connect s (before_call c r.page)))
        (sym (asking_count-append r.flights _ ∙ omega (arith, quiet)))
        (begin_connect-IsTracked s (before_call c r.page) (
          Keeps-IsTracked (asking_count r.flights) 0 r.page _ (before_call-Keeps c r.page)
            (omega arith) v))
  page_step-IsTracked (settles k result) r quiet v =
      changed-IsTracked _ _ r.page _ (resume-Changes parse k result r.flights r.page) v
  page_step-IsTracked (says s) r quiet v =
      Keeps-IsTracked _ _ r.page _ (record { made = refl; direct = refl; closed = λ m h. h })
        (omega arith) v
  page_step-IsTracked (measures stats) r quiet v =
      Keeps-IsTracked _ _ r.page _ (render_stats-Keeps stats r.page) (omega arith) v
  page_step-IsTracked (fails e) r quiet v =
      Keeps-IsTracked _ _ r.page _ (fail_p2p-Keeps e r.page) (omega arith) v
  page_step-IsTracked disconnects r quiet v = disconnect-IsTracked _ r.page v
  page_step-IsTracked unloads r quiet v =
      Keeps-IsTracked _ _ r.page _ (close_direct-Keeps r.page.direct r.page) (omega arith) v

  run-IsTracked :
      (es : List PageEvent) (r : Run)
      → QuietRun es r
      → IsTracked (asking_count r.flights) r.page
      → IsTracked (asking_count (page_run parse es r).flights) (page_run parse es r).page
  unfolding page_run
  run-IsTracked [] r quiet v = v
  run-IsTracked (e ∷ es) r (q, quiet) v =
      run-IsTracked es (page_step parse e r) quiet (page_step-IsTracked e r q v)

  -- If no call of `connect` starts while another asks whether the Agent is online, then at any time, whatever
  -- else has happened in whatever order, each connection that the page has made is closed or is the
  -- one that it holds.
  pub page_run_closes_others :
      (es : List PageEvent) (m : ℕ)
      → QuietRun es new_run
      → m < (page_run parse es new_run).page.made
      → (is_closed m (page_run parse es new_run).page ≡ true)
        ⊎ ((page_run parse es new_run).page.direct ≡ some m)
  page_run_closes_others es m quiet h = v.tracked m h
    where
      v :
          IsTracked
            (asking_count (page_run parse es new_run).flights)
            (page_run parse es new_run).page
      v =
          run-IsTracked es new_run quiet
            (record { tracked = λ n lt. absurd (omega arith); one = omega arith; ready = λ a. tt })
